-- ===== src/Duplex/BackendFramer/Response.antt =====
-- src/duplex/backend-framer.ts: what a client is to be shown of a response, message by message.
use prisma_pglite_bridge.Prelude.{
  ℕ, ◌+◌, ◌/◌, ◌%◌, ◌^◌, ◌≤◌, ◌<◌, ◌==◌, not, ◌&&◌, if◌then◌else◌, Bool, List, [], ◌∷◌, ◌++◌,
  length, ◌≡◌, arith,
}
use prisma_pglite_bridge.Duplex.Bytes.{Bytes, byte_at, u32_at}
use prisma_pglite_bridge.Duplex.Constants.{
  ready_for_query, copy_in_response, row_description, error_response, max_message_length,
}
use prisma_pglite_bridge.Duplex.RowDescription.{rewrite_row_description_in_place}

-- A backend message: its type and what stands behind the length.
pub record Message : Type 0 where
  pub kind : ℕ
  pub payload : Bytes

-- `n` as four bytes, the highest first.
abbrev pub word : ℕ → Bytes
word n = n / 2 ^ 24 % 256 ∷ n / 2 ^ 16 % 256 ∷ n / 2 ^ 8 % 256 ∷ n % 256 ∷ []

abbrev pub size : Message → ℕ
size m = length m.payload + 4

-- The message on the wire.
abbrev pub encode : Message → Bytes
encode m = m.kind ∷ (word (size m) ++ m.payload)

-- A message that PGlite may send: a row description counts its fields.
pub record IsWell (m : Message) : Type 0 where
  pub small : size m ≤ max_message_length
  pub counted : m.kind ≡ row_description → 0 < length m.payload

abbrev pub is_ready : Message → Bool
is_ready m = m.kind == ready_for_query && length m.payload == 1

-- How a client is shown one message that is neither dropped nor held back.
abbrev pub shown : Bool → Message → Bytes
shown rewrite m =
    if m.kind == row_description && rewrite
    then rewrite_row_description_in_place (encode m)
    else encode m

-- What a client is shown of a response. `suppress` holds every ReadyForQuery back, `rewrite`
-- widens catalog columns, and `drop` leaves the first CopyInResponse out.
module _ (suppress rewrite : Bool) where
  unfoldable pub relay : Bool → List Message → Bytes
  relay drop [] = []
  relay drop (m ∷ ms) =
      (if m.kind == copy_in_response && drop
        then []
        else if is_ready m && suppress
        then []
        else shown rewrite m)
      ++ relay (drop && not (m.kind == copy_in_response)) ms

  -- The ReadyForQuery that is held back at the end.
  unfoldable pub held_after : Bytes → List Message → Bytes
  held_after held [] = held
  held_after held (m ∷ ms) = held_after (if is_ready m && suppress then encode m else []) ms

-- Whether a CopyInResponse is still to be dropped.
unfoldable pub drop_after : Bool → List Message → Bool
drop_after drop [] = drop
drop_after drop (m ∷ ms) = drop_after (drop && not (m.kind == copy_in_response)) ms

unfoldable pub statuses_of : List Message → List ℕ
statuses_of [] = []
statuses_of (m ∷ ms) = (if is_ready m then byte_at m.payload 0 ∷ [] else []) ++ statuses_of ms

unfoldable pub errors_of : List Message → ℕ
errors_of [] = 0
errors_of (m ∷ ms) = (if m.kind == error_response then 1 else 0) + errors_of ms

abbrev pub encode_all : List Message → Bytes
encode_all [] = []
encode_all (m ∷ ms) = encode m ++ encode_all ms

pub u32-word : (n : ℕ) (rest : Bytes) → n ≤ max_message_length → u32_at (word n) 0 ≡ n
u32-word n rest h = omega arith
