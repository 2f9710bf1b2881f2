-- ===== src/Pool/QueryTrail.antt =====
-- src/pool/query-trail.ts: the recorder of the queries of a pool.
-- Times are microseconds; a duration is in hundredths of a millisecond. An entry is an object that its
-- handle shares with the ring: its key is its identity, and what a handle writes is seen in the ring
-- while the entry is there.
pub mod Preview
pub mod Bounds
pub mod Runs
mod Tests
use prisma_pglite_bridge.Prelude.{
  ℕ, zero, suc, ◌+◌, ◌-◌, ◌/◌, ltb, leb, not, ◌==◌, ◌&&◌, if◌then◌else◌, Bool, true, false, Option,
  none, some, List, [], ◌∷◌, ◌++◌, length,
}
use prisma_pglite_bridge.Duplex.CopyIn.{Text}
use prisma_pglite_bridge.Pool.QueryTrail.Preview.{
  Value, Kind, query, Thrown, TrailError, preview_param, cap_sql, derive_kind, preview_error,
  disabled_sentinel_sql, default_trail_max_entries, default_trail_max_param_chars,
}

pub data Status : Type 0 where
  pending settled : Status

pub record Entry : Type 0 where
  pub key : ℕ
  pub seq : ℕ
  pub at_ms : ℕ
  -- None is the sentinel's client.
  pub client_id : Option ℕ
  pub sql : Text
  pub params : List Text
  pub kind : Kind
  pub status : Status
  pub duration_ms : Option ℕ
  pub row_count : Option ℕ
  pub failure : Option TrailError

pub data Warning : Type 0 where
  overflowed capture_failed : Warning

pub record QueryTrailOptions : Type 0 where
  pub max_entries : Option ℕ
  pub max_param_chars : Option ℕ
  pub redact_params : Option Bool

-- The fields, the number of entries ever made, and what was written to stderr.
pub record Recorder : Type 0 where
  pub max_entries : ℕ
  pub max_param_chars : ℕ
  pub redact_params : Bool
  pub ring : List Entry
  pub next_seq : ℕ
  pub next_client_id : ℕ
  pub dropped_count : ℕ
  pub start_ms : ℕ
  pub overflow_warned : Bool
  pub disabled_after_seq : Option ℕ
  pub made : ℕ
  pub stderr : List Warning

abbrev pub number_or : ℕ → Option ℕ → ℕ
number_or d none = d
number_or d (some n) = n

abbrev pub is_set : Option Bool → Bool
is_set none = false
is_set (some b) = b

pub new_recorder : QueryTrailOptions → ℕ → Recorder
new_recorder o now = record {
  max_entries = number_or default_trail_max_entries o.max_entries;
  max_param_chars = number_or default_trail_max_param_chars o.max_param_chars;
  redact_params = is_set o.redact_params;
  ring = [];
  next_seq = 0;
  next_client_id = 0;
  dropped_count = 0;
  start_ms = now;
  overflow_warned = false;
  disabled_after_seq = none;
  made = 0;
  stderr = [];
}

unfoldable pub register_client : Recorder → Recorder × ℕ
register_client r = (record r { next_client_id = r.next_client_id + 1 }, r.next_client_id)

abbrev pub shift : List Entry → List Entry
shift [] = []
shift (e ∷ es) = es

abbrev pub warn_overflow : Bool → List Warning → List Warning
warn_overflow true ws = ws
warn_overflow false ws = ws ++ overflowed ∷ []

unfoldable pub push : Recorder → Entry → Recorder
push r e =
    if leb r.max_entries (length r.ring)
    then record r {
      ring = shift r.ring ++ e ∷ [];
      dropped_count = r.dropped_count + 1;
      overflow_warned = true;
      stderr = warn_overflow r.overflow_warned r.stderr;
    }
    else record r { ring = r.ring ++ e ∷ [] }

-- `<redacted>`
abbrev pub redacted : Text
redacted = 0x3c ∷ 0x72 ∷ 0x65 ∷ 0x64 ∷ 0x61 ∷ 0x63 ∷ 0x74 ∷ 0x65 ∷ 0x64 ∷ 0x3e ∷ []

abbrev pub cons_param : Option Text → Option (List Text) → Option (List Text)
cons_param (some p) (some ps) = some (p ∷ ps)
cons_param (some p) none = none
cons_param none ps = none

-- None where a value's preview throws.
unfoldable pub render_values : Bool → ℕ → List Value → Option (List Text)
unfolding preview_param
render_values redact cap [] = some []
render_values redact cap (v ∷ vs) =
    cons_param (if redact then some redacted else preview_param v cap) (render_values redact cap vs)

abbrev pub render_params : Recorder → Option (List Value) → Option (List Text)
render_params r none = some []
render_params r (some values) = render_values r.redact_params r.max_param_chars values

-- The seq and the identity are taken before the entry is pushed.
abbrev pub counted : Recorder → Recorder
counted r = record r { next_seq = r.next_seq + 1; made = r.made + 1 }

abbrev pub sentinel : Recorder → ℕ → Entry
sentinel r now = record {
  key = r.made;
  seq = r.next_seq;
  at_ms = now - r.start_ms;
  client_id = none;
  sql = disabled_sentinel_sql;
  params = [];
  kind = query;
  status = settled;
  duration_ms = some 0;
  row_count = none;
  failure = none;
}

-- No handle is the inert one.
unfoldable pub disable : Recorder → ℕ → Recorder × Option ℕ
unfolding push
disable r now =
    let r' = push (record (counted r) { disabled_after_seq = some r.next_seq }) (sentinel r now) in
    (record r' { stderr = r'.stderr ++ capture_failed ∷ [] }, none)

abbrev pub new_entry : (Text → Text) → Recorder → ℕ → ℕ → Text → List Text → Entry
new_entry to_upper_case r now client_id sql params = record {
  key = r.made;
  seq = r.next_seq;
  at_ms = now - r.start_ms;
  client_id = some client_id;
  sql = cap_sql sql;
  params = params;
  kind = derive_kind to_upper_case sql;
  status = pending;
  duration_ms = none;
  row_count = none;
  failure = none;
}

abbrev pub capture :
    (Text → Text) → Recorder → ℕ → ℕ → Text → Option (List Text) → Recorder × Option ℕ
capture to_upper_case r now client_id sql none = disable r now
capture to_upper_case r now client_id sql (some params) =
    (push (counted r) (new_entry to_upper_case r now client_id sql params), some r.made)

abbrev pub is_none {ℓ} : {A : Type ℓ} → Option A → Bool
is_none none = true
is_none (some a) = false

-- `begin`, with the time and upper case.
unfoldable pub begin :
    (Text → Text) → Recorder → ℕ → ℕ → Text → Option (List Value) → Recorder × Option ℕ
unfolding render_values push disable
begin to_upper_case r now client_id sql values =
    if is_none r.disabled_after_seq
    then capture to_upper_case r now client_id sql (render_params r values)
    else (r, none)

pub record Ending : Type 0 where
  pub row_count : Option ℕ
  pub error : Option Thrown

abbrev pub failure_of : Option Thrown → Option TrailError
failure_of none = none
failure_of (some e) = preview_error e

abbrev pub settle_pending : ℕ → ℕ → Ending → Entry → Status → Entry
settle_pending start now o e settled = e
settle_pending start now o e pending = record e {
  status = settled;
  duration_ms = some ((now - start - e.at_ms + 5) / 10);
  row_count = o.row_count;
  failure = failure_of o.error;
}

-- What the handle does to its entry.
abbrev pub settle_entry : ℕ → ℕ → Ending → Entry → Entry
settle_entry start now o e = settle_pending start now o e e.status

unfoldable pub settle_ring : ℕ → ℕ → Ending → ℕ → List Entry → List Entry
unfolding preview_error
settle_ring start now o key [] = []
settle_ring start now o key (e ∷ es) =
    (if e.key == key then settle_entry start now o e else e) ∷ settle_ring start now o key es

-- `handle.settle`
unfoldable pub settle : Recorder → Option ℕ → ℕ → Ending → Recorder
unfolding settle_ring
settle r none now o = r
settle r (some key) now o = record r { ring = settle_ring r.start_ms now o key r.ring }

abbrev pub entries : Recorder → List Entry
entries r = r.ring

abbrev pub meta : Recorder → ℕ × Option ℕ
meta r = (r.dropped_count, r.disabled_after_seq)

unfoldable pub clear : Recorder → ℕ → Recorder
clear r now = record r {
  ring = [];
  next_seq = 0;
  dropped_count = 0;
  start_ms = now;
  overflow_warned = false;
  disabled_after_seq = none;
}
