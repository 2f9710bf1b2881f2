-- ===== src/Pool/QueryTrail/Runs.antt =====
-- Any use of the recorder keeps the trail (src/pool/query-trail.ts).
use prisma_pglite_bridge.Prelude.{
  Bool, leb, false, lt→ltb, ℕ, suc, ◌+◌, ◌≤◌, ◌≡◌, refl, sym, ap, ◌∙◌, inl, inr, true, ltb, ◌==◌,
  if◌then◌else◌, Option, none, some, List, [], ◌∷◌, ◌++◌, length, All, Bool-cases, subst, arith,
}
use prisma_pglite_bridge.Duplex.CopyIn.{Text}
use prisma_pglite_bridge.Pool.QueryTrail.Preview.{Value}
use prisma_pglite_bridge.Pool.QueryTrail.{
  Warning, overflowed, warn_overflow, Recorder, Entry, Status, pending, settled, Ending,
  register_client, push, begin, disable, settle, settle_ring, settle_entry, settle_pending, clear,
  capture, counted, sentinel, new_entry, render_params, is_none, new_recorder, QueryTrailOptions,
  capture_failed,
}
use prisma_pglite_bridge.Pool.QueryTrail.Bounds.{
  IsTrail, IsCapped, IsLast, seqs, numbers, length-cap_sql, IsShort-failure, IsTrail-push,
}

pub data Op : Type 0 where
  register : Op
  begin_query : ℕ → ℕ → Text → Option (List Value) → Op
  settle_query : Option ℕ → ℕ → Ending → Op
  clear_trail : ℕ → Op

unfoldable pub step : (Text → Text) → Recorder → Op → Recorder
unfolding register_client begin settle clear
step upper r register = (register_client r).0
step upper r (begin_query now client sql values) = (begin upper r now client sql values).0
step upper r (settle_query handle now o) = settle r handle now o
step upper r (clear_trail now) = clear r now

unfoldable pub run : (Text → Text) → Recorder → List Op → Recorder
unfolding step
run upper r [] = r
run upper r (op ∷ ops) = run upper (step upper r op) ops

-- Of the recorder, the invariant sees these fields.
IsTrail-fields :
    (r s : Recorder)
    → IsTrail r
    → seqs s.ring ≡ seqs r.ring
    → length s.ring ≡ length r.ring
    → All IsCapped s.ring
    → s.dropped_count ≡ r.dropped_count
    → s.next_seq ≡ r.next_seq
    → s.max_entries ≡ r.max_entries
    → s.overflow_warned ≡ r.overflow_warned
    → s.disabled_after_seq ≡ r.disabled_after_seq
    → IsTrail s
IsTrail-fields r s t q l c d n m w z = record {
  numbered =
      q
      ∙ t.numbered
      ∙ ap (λ k. numbers k (length r.ring)) (sym d)
      ∙ ap (numbers s.dropped_count) (sym l);
  counted_all = omega (arith, d, l, n, t.counted_all);
  bounded = omega (arith, l, m, t.bounded);
  warned = w ∙ t.warned ∙ ap (ltb 0) (sym d);
  capped = c;
  disabled_last =
      subst (λ k. IsLast s.disabled_after_seq k) (sym n)
        (subst (λ o. IsLast o r.next_seq) (sym z) t.disabled_last);
}

settle_pending-seq :
    (start now : ℕ) (o : Ending) (e : Entry) (s : Status)
    → (settle_pending start now o e s).seq ≡ e.seq
settle_pending-seq start now o e pending = refl
settle_pending-seq start now o e settled = refl

IsCapped-settle_pending :
    (start now : ℕ) (o : Ending) (e : Entry) (s : Status)
    → IsCapped e
    → IsCapped (settle_pending start now o e s)
IsCapped-settle_pending start now o e pending h = (h.0, IsShort-failure o.error)
IsCapped-settle_pending start now o e settled h = h

module _ (start now : ℕ) (o : Ending) (key : ℕ) where
  settle_ring-seqs : (es : List Entry) → seqs (settle_ring start now o key es) ≡ seqs es
  unfolding settle_ring
  settle_ring-seqs [] = refl
  settle_ring-seqs (e ∷ es) =
      let k = settle_ring-seqs es in
      let s = settle_pending-seq start now o e e.status in
      elim (Bool-cases (e.key == key)) [
        | inl y ↦ rw y (ap (λ l. (settle_entry start now o e).seq ∷ l) k ∙ ap (λ a. a ∷ seqs es) s)
        | inr n ↦ rw n (ap (◌∷◌ e.seq) k)
      ]

  settle_ring-length : (es : List Entry) → length (settle_ring start now o key es) ≡ length es
  unfolding settle_ring
  settle_ring-length [] = refl
  settle_ring-length (e ∷ es) = ap suc (settle_ring-length es)

  IsCapped-settle_ring :
      (es : List Entry) → All IsCapped es → All IsCapped (settle_ring start now o key es)
  unfolding settle_ring
  IsCapped-settle_ring [] h = tt
  IsCapped-settle_ring (e ∷ es) h = elim (Bool-cases (e.key == key)) [
    | inl y ↦ rw y (IsCapped-settle_pending start now o e e.status h.0, IsCapped-settle_ring es h.1)
    | inr n ↦ rw n (h.0, IsCapped-settle_ring es h.1)
  ]

IsTrail-settle :
    (r : Recorder) (handle : Option ℕ) (now : ℕ) (o : Ending)
    → IsTrail r
    → IsTrail (settle r handle now o)
unfolding settle
IsTrail-settle r none now o t = t
IsTrail-settle r (some key) now o t =
    IsTrail-fields r (record r { ring = settle_ring r.start_ms now o key r.ring }) t
      (settle_ring-seqs r.start_ms now o key r.ring)
      (settle_ring-length r.start_ms now o key r.ring)
      (IsCapped-settle_ring r.start_ms now o key r.ring t.capped) refl refl refl refl refl

IsTrail-disable :
    (r : Recorder) (now : ℕ) → 1 ≤ r.max_entries → IsTrail r → IsTrail (disable r now).0
unfolding disable
IsTrail-disable r now m t =
    let r' = push (record (counted r) { disabled_after_seq = some r.next_seq }) (sentinel r now) in
    let p =
      IsTrail-push r t (some r.next_seq) (omega arith) (sentinel r now) refl (omega arith, tt) m in
    IsTrail-fields r' (record r' { stderr = r'.stderr ++ capture_failed ∷ [] }) p refl refl p.capped
      refl refl refl refl refl

IsTrail-capture :
    (upper : Text → Text) (r : Recorder) (now client : ℕ) (sql : Text) (params : Option (List Text))
    → 1 ≤ r.max_entries
    → r.disabled_after_seq ≡ none
    → IsTrail r
    → IsTrail (capture upper r now client sql params).0
IsTrail-capture upper r now client sql none m z t = IsTrail-disable r now m t
IsTrail-capture upper r now client sql (some params) m z t =
    let e = new_entry upper r now client sql params in
    IsTrail-push r t r.disabled_after_seq (subst (λ o. IsLast o (r.next_seq + 1)) (sym z) tt) e refl
      (length-cap_sql sql, tt) m

is_none-eq {ℓ} : {A : Type ℓ} (o : Option A) → is_none o ≡ true → o ≡ none
is_none-eq none h = refl
is_none-eq (some a) h = cc

IsTrail-begin :
    (upper : Text → Text) (r : Recorder) (now client : ℕ) (sql : Text)
    (values : Option (List Value))
    → 1 ≤ r.max_entries
    → IsTrail r
    → IsTrail (begin upper r now client sql values).0
unfolding begin
IsTrail-begin upper r now client sql values m t = elim (Bool-cases (is_none r.disabled_after_seq)) [
  | inl y ↦ rw y (
      IsTrail-capture upper r now client sql (render_params r values) m
        (is_none-eq r.disabled_after_seq y) t)
  | inr n ↦ rw n t
]

IsTrail-clear : (r : Recorder) (now : ℕ) → IsTrail (clear r now)
unfolding clear
IsTrail-clear r now = record {
  numbered = refl;
  counted_all = omega arith;
  bounded = omega arith;
  warned = refl;
  capped = tt;
  disabled_last = tt;
}

IsTrail-step :
    (upper : Text → Text) (r : Recorder) (op : Op)
    → 1 ≤ r.max_entries
    → IsTrail r
    → IsTrail (step upper r op)
unfolding step register_client
IsTrail-step upper r register m t =
    IsTrail-fields r (record r { next_client_id = r.next_client_id + 1 }) t refl refl t.capped refl
      refl refl refl refl
IsTrail-step upper r (begin_query now client sql values) m t =
    IsTrail-begin upper r now client sql values m t
IsTrail-step upper r (settle_query handle now o) m t = IsTrail-settle r handle now o t
IsTrail-step upper r (clear_trail now) m t = IsTrail-clear r now

push-max : (r : Recorder) (e : Entry) → (push r e).max_entries ≡ r.max_entries
unfolding push
push-max r e = ground arith

capture-max :
    (upper : Text → Text) (r : Recorder) (now client : ℕ) (sql : Text) (params : Option (List Text))
    → (capture upper r now client sql params).0.max_entries ≡ r.max_entries
unfolding disable
capture-max upper r now client sql none =
    push-max (record (counted r) { disabled_after_seq = some r.next_seq }) (sentinel r now)
capture-max upper r now client sql (some params) =
    push-max (counted r) (new_entry upper r now client sql params)

step-max :
    (upper : Text → Text) (r : Recorder) (op : Op) → (step upper r op).max_entries ≡ r.max_entries
unfolding step register_client begin settle clear
step-max upper r register = refl
step-max upper r (begin_query now client sql values) =
    ground (arith, capture-max upper r now client sql (render_params r values))
step-max upper r (settle_query none now o) = refl
step-max upper r (settle_query (some key) now o) = refl
step-max upper r (clear_trail now) = refl

run_keeps :
    (upper : Text → Text) (r : Recorder) (ops : List Op)
    → 1 ≤ r.max_entries
    → IsTrail r
    → IsTrail (run upper r ops)
unfolding run
run_keeps upper r [] m t = t
run_keeps upper r (op ∷ ops) m t =
    run_keeps upper (step upper r op) ops (omega (arith, m, step-max upper r op))
      (IsTrail-step upper r op m t)

-- How often an overflow was warned of.
abbrev pub overflows : List Warning → ℕ
overflows [] = 0
overflows (overflowed ∷ ws) = 1 + overflows ws
overflows (capture_failed ∷ ws) = overflows ws

-- A period, which a clear of the trail or the end of the run closes, in which something was dropped.
abbrev pub dropping : Recorder → ℕ
dropping r = if ltb 0 r.dropped_count then 1 else 0

unfoldable pub dropping_periods : (Text → Text) → Recorder → List Op → ℕ
unfolding step
dropping_periods upper r [] = dropping r
dropping_periods upper r (clear_trail now ∷ ops) =
    dropping r + dropping_periods upper (step upper r (clear_trail now)) ops
dropping_periods upper r (register ∷ ops) = dropping_periods upper (step upper r register) ops
dropping_periods upper r (begin_query now client sql values ∷ ops) =
    dropping_periods upper (step upper r (begin_query now client sql values)) ops
dropping_periods upper r (settle_query handle now o ∷ ops) =
    dropping_periods upper (step upper r (settle_query handle now o)) ops

overflows-append : (ws vs : List Warning) → overflows (ws ++ vs) ≡ overflows ws + overflows vs
overflows-append [] vs = omega arith
overflows-append (overflowed ∷ ws) vs = omega (arith, overflows-append ws vs)
overflows-append (capture_failed ∷ ws) vs = overflows-append ws vs

-- From r to s, a warning was written just if something is dropped for the first time.
abbrev Warns : Recorder → Recorder → Type 0
Warns r s = overflows s.stderr + dropping r ≡ overflows r.stderr + dropping s

overflows-warn :
    (b : Bool) (n : ℕ) (ws : List Warning)
    → b ≡ ltb 0 n
    → overflows (warn_overflow b ws) + (if ltb 0 n then 1 else 0) ≡ overflows ws + 1
overflows-warn true n ws h = rw (sym h) (omega arith)
overflows-warn false n ws h = rw (sym h) (omega (arith, overflows-append ws (overflowed ∷ [])))

push-Warns :
    (r : Recorder) (e : Entry) → r.overflow_warned ≡ ltb 0 r.dropped_count → Warns r (push r e)
unfolding push
push-Warns r e w = elim (Bool-cases (leb r.max_entries (length r.ring))) [
  | inl y ↦
      let k = overflows-warn r.overflow_warned r.dropped_count r.stderr w in
      let l : ltb 0 (r.dropped_count + 1) ≡ true = lt→ltb 0 (r.dropped_count + 1) (omega arith) in
      rw (y, l) k
  | inr n ↦ rw n refl
]

capture-Warns :
    (upper : Text → Text) (r : Recorder) (now client : ℕ) (sql : Text) (params : Option (List Text))
    → r.overflow_warned ≡ ltb 0 r.dropped_count
    → Warns r (capture upper r now client sql params).0
unfolding disable
capture-Warns upper r now client sql none w =
    let r0 = record (counted r) { disabled_after_seq = some r.next_seq } in
    let r' = push r0 (sentinel r now) in
    omega
      (arith, push-Warns r0 (sentinel r now) w, overflows-append r'.stderr (capture_failed ∷ []))
capture-Warns upper r now client sql (some params) w =
    push-Warns (counted r) (new_entry upper r now client sql params) w

begin-Warns :
    (upper : Text → Text) (r : Recorder) (now client : ℕ) (sql : Text)
    (values : Option (List Value))
    → r.overflow_warned ≡ ltb 0 r.dropped_count
    → Warns r (begin upper r now client sql values).0
unfolding begin
begin-Warns upper r now client sql values w = elim (Bool-cases (is_none r.disabled_after_seq)) [
  | inl y ↦ rw y (capture-Warns upper r now client sql (render_params r values) w)
  | inr n ↦ rw n refl
]

settle-Warns :
    (r : Recorder) (handle : Option ℕ) (now : ℕ) (o : Ending) → Warns r (settle r handle now o)
unfolding settle
settle-Warns r none now o = refl
settle-Warns r (some key) now o = refl

run-overflows-step :
    (upper : Text → Text) (r : Recorder) (op : Op) (ops : List Op)
    → overflows (run upper (step upper r op) ops).stderr + dropping (step upper r op)
      ≡ overflows (step upper r op).stderr + dropping_periods upper (step upper r op) ops
    → r.overflow_warned ≡ ltb 0 r.dropped_count
    → overflows (run upper (step upper r op) ops).stderr + dropping r
      ≡ overflows r.stderr + dropping_periods upper r (op ∷ ops)
unfolding dropping_periods step register_client clear
run-overflows-step upper r register ops ih w = ih
run-overflows-step upper r (begin_query now client sql values) ops ih w =
    omega (arith, ih, begin-Warns upper r now client sql values w)
run-overflows-step upper r (settle_query handle now o) ops ih w =
    omega (arith, ih, settle-Warns r handle now o)
run-overflows-step upper r (clear_trail now) ops ih w =
    let d : dropping (clear r now) ≡ 0 = refl in omega (arith, ih, d)

run-overflows :
    (upper : Text → Text) (r : Recorder) (ops : List Op)
    → 1 ≤ r.max_entries
    → IsTrail r
    → overflows (run upper r ops).stderr + dropping r
      ≡ overflows r.stderr + dropping_periods upper r ops
unfolding run dropping_periods
run-overflows upper r [] m t = refl
run-overflows upper r (op ∷ ops) m t =
    run-overflows-step upper r op ops
      (run-overflows upper (step upper r op) ops (omega (arith, m, step-max upper r op))
        (IsTrail-step upper r op m t))
      t.warned

-- However a new recorder with room for an entry is used, the ring never holds more than the
-- capacity; its entries carry the last numbers in order and without a gap, and every other number is
-- counted as dropped; no SQL text has more than 2000 characters and no error message more than 500;
-- and once capture is disabled no number is given out after the sentinel's, until the trail is
-- cleared. What was written to stderr holds one overflow warning for each period between clears in
-- which something was dropped, and none for any other.
pub run-IsTrail :
    (upper : Text → Text) (o : QueryTrailOptions) (now : ℕ) (ops : List Op)
    → 1 ≤ (new_recorder o now).max_entries
    → IsTrail (run upper (new_recorder o now) ops)
      × (overflows (run upper (new_recorder o now) ops).stderr
          ≡ dropping_periods upper (new_recorder o now) ops)
unfolding new_recorder
run-IsTrail upper o now ops m =
    let t : IsTrail (new_recorder o now) = record {
      numbered = refl;
      counted_all = omega arith;
      bounded = omega arith;
      warned = refl;
      capped = tt;
      disabled_last = tt;
    } in
    (
      run_keeps upper (new_recorder o now) ops m t,
      omega (arith, run-overflows upper (new_recorder o now) ops m t),
    )

settle_entry-twice :
    (start now now' : ℕ) (o o' : Ending) (e : Entry)
    → settle_entry start now' o' (settle_entry start now o e) ≡ settle_entry start now o e
settle_entry-twice start now now' o o' e = ground arith

settle_ring-twice :
    (start now now' : ℕ) (o o' : Ending) (key : ℕ) (es : List Entry)
    → settle_ring start now' o' key (settle_ring start now o key es)
      ≡ settle_ring start now o key es
unfolding settle_ring
settle_ring-twice start now now' o o' key [] = refl
settle_ring-twice start now now' o o' key (e ∷ es) =
    let k = settle_ring-twice start now now' o o' key es in
    let f = settle_entry start now o e in
    let t : settle_entry start now' o' f ≡ f = settle_entry-twice start now now' o o' e in
    let head : (if f.key == key then settle_entry start now' o' f else f) ≡ f =
      elim (Bool-cases (f.key == key)) [ inl z ↦ rw z t | inr z ↦ rw z ] in
    elim (Bool-cases (e.key == key)) [
      | inl y ↦ rw y (
          ap (λ a. a ∷ settle_ring start now' o' key (settle_ring start now o key es)) head
          ∙ ap (◌∷◌ f) k)
      | inr n ↦ rw n (rw n (ap (◌∷◌ e) k))
    ]

-- The first settlement of a handle wins: another one, whatever it says, changes nothing. And no
-- settlement changes which entries the trail holds, nor its counts.
pub settle-settle :
    (r : Recorder) (handle : Option ℕ) (now now' : ℕ) (o o' : Ending)
    → let s = settle r handle now o in
      (settle s handle now' o' ≡ s)
      × (seqs s.ring ≡ seqs r.ring)
      × (s.dropped_count ≡ r.dropped_count)
      × (s.next_seq ≡ r.next_seq)
unfolding settle
settle-settle r none now now' o o' = (refl, refl, refl, refl)
settle-settle r (some key) now now' o o' = (
  ap (λ l. record r { ring = l }) (settle_ring-twice r.start_ms now now' o o' key r.ring),
  settle_ring-seqs r.start_ms now o key r.ring,
  refl,
  refl,
)
