-- ===== src/Duplex/BackendFramer.antt =====
-- src/duplex/backend-framer.ts: the class BackendMessageFramer.
-- A fixed array with its counter (headerScratch with headerBytesRead, heldRfq with rfqBytesRead,
-- rowDescBuffer with rowDescOffset) is the list of the bytes written since the counter was reset, and
-- the counter is its length. A callback is an event of the result. `write` walks its chunk by a
-- cursor, which holds the local variables of the loop.
pub mod Steps
pub mod Invariant
pub mod Parts
pub mod Payload
pub mod Message
pub mod Progress
pub mod Start
pub mod Write
pub mod Response
pub mod Relay
pub mod Total
mod Tests
use prisma_pglite_bridge.Prelude.{
  ℕ, zero, suc, ◌+◌, ◌-◌, ◌*◌, min, ltb, leb, ◌==◌, not, ◌&&◌, if◌then◌else◌, Bool, true, false,
  Option, none, some, List, [], ◌∷◌, ◌++◌, length, Result, ok, err, ◌>>=◌,
}
use prisma_pglite_bridge.Duplex.Bytes.{Bytes, byte_at, u32_at, subarray}
use prisma_pglite_bridge.Duplex.Constants.{
  max_message_length, error_response, copy_in_response, ready_for_query, row_description,
}
use prisma_pglite_bridge.Duplex.RowDescription.{
  row_description_needs_rewrite, rewrite_row_description_in_place,
}

pub record Framer : Type 0 where
  pub suppress_intermediate : Bool
  pub rewrite_oids : Bool
  pub message_type : Option ℕ
  pub header : Bytes
  pub payload_remaining : ℕ
  pub held_rfq : Bytes
  pub rfq_frame : Bool
  pub row_desc : Option Bytes
  pub drop_next_copy_in : Bool
  pub dropping : Bool

-- `onChunk`, `onErrorResponse` and `onReadyForQuery`.
pub data Event : Type 0 where
  chunk : Bytes → Event
  error_seen : Event
  ready : ℕ → Event

pub data FramerError : Type 0 where
  malformed_length too_long : ℕ → FramerError
  incomplete : Option ℕ → ℕ → FramerError
  out_of_fuel : FramerError

-- The constructor.
unfoldable pub new_framer : Bool → Bool → Framer
new_framer suppress rewrite = record {
  suppress_intermediate = suppress;
  rewrite_oids = rewrite;
  message_type = none;
  header = [];
  payload_remaining = 0;
  held_rfq = [];
  rfq_frame = false;
  row_desc = none;
  drop_next_copy_in = false;
  dropping = false;
}

pub reset : Framer → Bool → Bool → Framer
reset f suppress drop_first = record {
  suppress_intermediate = suppress;
  rewrite_oids = f.rewrite_oids;
  message_type = none;
  header = [];
  payload_remaining = 0;
  held_rfq = [];
  rfq_frame = false;
  row_desc = none;
  drop_next_copy_in = drop_first;
  dropping = false;
}

abbrev pub drop_stale_held : Framer → Framer
drop_stale_held f =
    if f.suppress_intermediate && length f.held_rfq == 6 then record f { held_rfq = [] } else f

abbrev pub finish_message : Framer → Framer
finish_message f = record f {
  message_type = none;
  header = [];
  payload_remaining = 0;
  rfq_frame = false;
  dropping = false;
  held_rfq = if f.suppress_intermediate then f.held_rfq else [];
}

abbrev pub finish_ready_for_query : Framer → Framer × List Event
finish_ready_for_query f = (
  finish_message f,
  ready (byte_at f.held_rfq 5) ∷ (if f.suppress_intermediate then [] else chunk f.held_rfq ∷ []),
)

-- The guard on a declared length, in both paths.
abbrev pub check_length {ℓ} : {A : Type ℓ} → ℕ → A → Result FramerError A
check_length n a =
    if ltb n 4
    then err (malformed_length n)
    else if ltb max_message_length n
    then err (too_long n)
    else ok a

-- The local variables of `write`.
pub record Cursor : Type 0 where
  pub framer : Framer
  pub offset : ℕ
  pub passthrough : Option ℕ
  pub events : List Event

-- `flushPassthrough(end)`; an empty range stays.
abbrev pub flush_passthrough : Bytes → Option ℕ → ℕ → List Event
flush_passthrough bytes none end = []
flush_passthrough bytes (some start) end =
    if ltb start end then chunk (subarray bytes start end) ∷ [] else []

abbrev pub passthrough_after : Option ℕ → ℕ → Option ℕ
passthrough_after none end = none
passthrough_after (some start) end = if ltb start end then none else some start

-- A message that lies whole in the chunk: `n` is its declared length, `kind` its type.
pub whole_message : Bytes → Cursor → ℕ → ℕ → Cursor
whole_message bytes c kind n =
    let end = c.offset + (1 + n) in
    let failed = if kind == error_response then error_seen ∷ [] else [] in
    let flushed = failed ++ flush_passthrough bytes c.passthrough c.offset in
    let rest = passthrough_after c.passthrough c.offset in
    let f = drop_stale_held c.framer in
    let held = subarray bytes c.offset (c.offset + 6) in
    let status = byte_at bytes (c.offset + 5) in
    if kind == copy_in_response && f.drop_next_copy_in
    then record {
      framer = record f { drop_next_copy_in = false };
      offset = end;
      passthrough = rest;
      events = c.events ++ flushed;
    }
    else if kind == ready_for_query && n == 5
    then record {
      framer = record f { held_rfq = if f.suppress_intermediate then held else [] };
      offset = end;
      passthrough = rest;
      events =
          c.events
          ++ (flushed
              ++ (ready status ∷ (if f.suppress_intermediate then [] else chunk held ∷ [])));
    }
    else if kind == row_description
        && f.rewrite_oids
        && row_description_needs_rewrite bytes c.offset end
    then record {
      framer = f;
      offset = end;
      passthrough = rest;
      events =
          c.events
          ++ (flushed
              ++ chunk (rewrite_row_description_in_place (subarray bytes c.offset end)) ∷ []);
    }
    else record {
      framer = f;
      offset = end;
      passthrough = elim c.passthrough [ none ↦ some c.offset | some start ↦ some start ];
      events = c.events ++ failed;
    }

-- The first byte of a message that goes on beyond what the fast path can see.
pub begin_message : Bytes → Cursor → Cursor
begin_message bytes c =
    let kind = byte_at bytes c.offset in
    let f = drop_stale_held c.framer in
    let dropped = kind == copy_in_response && f.drop_next_copy_in in
    record {
      framer = record f {
        message_type = some kind;
        header = [];
        payload_remaining = 0;
        held_rfq = if kind == ready_for_query then kind ∷ [] else [];
        drop_next_copy_in = if dropped then false else f.drop_next_copy_in;
        dropping = if dropped then true else f.dropping;
      };
      offset = c.offset + 1;
      passthrough = passthrough_after c.passthrough c.offset;
      events = c.events ++ flush_passthrough bytes c.passthrough c.offset;
    }

pub start_step : Bytes → Cursor → Result FramerError Cursor
start_step bytes c =
    let available = length bytes - c.offset in
    let n = u32_at bytes (c.offset + 1) in
    if leb 5 available
    then check_length n (
        if leb (1 + n) available
        then whole_message bytes c (byte_at bytes c.offset) n
        else begin_message bytes c)
    else ok (begin_message bytes c)

-- The header is complete: `n` is the declared length.
pub header_done : Framer → ℕ → ℕ → Framer × List Event
header_done f kind n =
    let failed = if kind == error_response then error_seen ∷ [] else [] in
    let g = record f { payload_remaining = n - 4; rfq_frame = kind == ready_for_query && n == 5 } in
    let h = record g { held_rfq = [] } in
    let no_payload = n - 4 == 0 in
    if kind == ready_for_query && n == 5
    then (g, failed)
    else if f.dropping
    then (if no_payload then finish_message h else h, failed)
    else if kind == row_description && f.rewrite_oids
    then (record h { row_desc = some (row_description ∷ f.header) }, failed)
    else (if no_payload then finish_message h else h, failed ++ chunk (kind ∷ f.header) ∷ [])

-- Header bytes `part` of a message of type `kind`.
pub header_bytes : Framer → ℕ → Bytes → Result FramerError (Framer × List Event)
header_bytes f kind part =
    let g = record f {
      header = f.header ++ part;
      held_rfq = if kind == ready_for_query then f.held_rfq ++ part else f.held_rfq;
    } in
    let n = u32_at g.header 0 in
    if ltb (length g.header) 4 then ok (g, []) else check_length n (header_done g kind n)

-- Payload bytes `part` of a ReadyForQuery frame.
pub rfq_bytes : Framer → Bytes → Framer × List Event
rfq_bytes f part =
    let g = record f {
      held_rfq = f.held_rfq ++ part;
      payload_remaining = f.payload_remaining - length part;
    } in
    if g.payload_remaining == 0 then finish_ready_for_query g else (g, [])

abbrev pub row_desc_end : Option Bytes → List Event
row_desc_end none = []
row_desc_end (some buf) = chunk (rewrite_row_description_in_place buf) ∷ []

-- What `part` adds to `rowDescBuffer`.
abbrev pub row_desc_after : Option Bytes → Bool → Bytes → Option Bytes
row_desc_after none dropping part = none
row_desc_after (some buf) dropping part = some (if dropping then buf else buf ++ part)

-- What is emitted of `part` at once.
abbrev pub emitted_from : Option Bytes → Bool → Bytes → List Event
emitted_from none dropping part =
    if length part == 0 then [] else if dropping then [] else chunk part ∷ []
emitted_from (some buf) dropping part = []

-- Payload bytes `part` of any other message.
pub payload_bytes : Framer → Bytes → Framer × List Event
payload_bytes f part =
    let row = row_desc_after f.row_desc f.dropping part in
    let emitted = emitted_from f.row_desc f.dropping part in
    let g = record f { row_desc = row; payload_remaining = f.payload_remaining - length part } in
    if f.payload_remaining - length part == 0
    then (finish_message (record g { row_desc = none }), emitted ++ row_desc_end row)
    else (g, emitted)

abbrev pub moved : Cursor → ℕ → Framer × List Event → Cursor
moved c n (f, events) = record c { framer = f; offset = c.offset + n; events = c.events ++ events }

-- One round of the loop inside a message of type `kind`.
pub inside_step : Bytes → Cursor → ℕ → Result FramerError Cursor
inside_step bytes c kind =
    let f = c.framer in
    let available = length bytes - c.offset in
    let h = min (4 - length f.header) available in
    let p = min f.payload_remaining available in
    let payload = subarray bytes c.offset (c.offset + p) in
    if ltb (length f.header) 4
    then (header_bytes f kind (subarray bytes c.offset (c.offset + h)) >>= λ r. ok (moved c h r))
    else if f.rfq_frame
    then ok (moved c p (rfq_bytes f payload))
    else ok (moved c p (payload_bytes f payload))

-- On `this.messageType`.
abbrev pub step_at : Option ℕ → Bytes → Cursor → Result FramerError Cursor
step_at none bytes c = start_step bytes c
step_at (some kind) bytes c = inside_step bytes c kind

pub step : Bytes → Cursor → Result FramerError Cursor
step bytes c = step_at c.framer.message_type bytes c

pub write_loop : ℕ → Bytes → Cursor → Result FramerError (Framer × List Event)
write_loop zero bytes c = err out_of_fuel
write_loop (suc fuel) bytes c = elim (ltb c.offset (length bytes)) [
  | true ↦ step bytes c >>= write_loop fuel bytes
  | false ↦ ok (c.framer, c.events ++ flush_passthrough bytes c.passthrough c.offset)
]

pub write : Framer → Bytes → Result FramerError (Framer × List Event)
write f bytes =
    if length bytes == 0
    then ok (f, [])
    else write_loop (2 * length bytes + 2) bytes
        (record { framer = f; offset = 0; passthrough = none; events = [] })

-- `flush`, at the end of a stream.
pub flush : Framer → Bool → Result FramerError (Framer × List Event)
flush f drop_held = elim f.message_type [
  | some kind ↦
      let n = u32_at f.header 0 in
      if length f.header == 4
      then err (incomplete (some (1 + n)) (1 + n - f.payload_remaining))
      else err (incomplete none (1 + length f.header))
  | none ↦
      if drop_held
      then ok (record f { held_rfq = [] }, [])
      else if f.suppress_intermediate && length f.held_rfq == 6
      then ok (record f { held_rfq = [] }, chunk f.held_rfq ∷ [])
      else ok (f, [])
]
