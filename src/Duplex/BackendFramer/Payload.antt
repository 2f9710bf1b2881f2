-- ===== src/Duplex/BackendFramer/Payload.antt =====
-- src/duplex/backend-framer.ts: the payload of a message, read byte by byte.
use prisma_pglite_bridge.Prelude.{
  ℕ, suc, ◌-◌, ◌<◌, ◌==◌, Bool, true, false, none, some, [], ◌∷◌, ◌++◌, length, ok, ◌≡◌, refl, ap,
  ◌∙◌, arith, inl, inr, Bool-cases, append-nil,
}
use prisma_pglite_bridge.Duplex.Bytes.{Bytes}
use prisma_pglite_bridge.Duplex.RowDescription.{rewrite_row_description_in_place}
use prisma_pglite_bridge.Duplex.BackendFramer.{
  Framer, chunk, rfq_bytes, payload_bytes, finish_message, finish_ready_for_query, drop_stale_held,
  emitted_from,
}
use prisma_pglite_bridge.Duplex.BackendFramer.Steps.{Output, silent, observed, feed_all, output}
use prisma_pglite_bridge.Duplex.BackendFramer.Invariant.{IsIdle, opened, opened_next}
use prisma_pglite_bridge.Duplex.BackendFramer.Parts.{payload_all, rfq_all}

-- Between two messages, a stale ReadyForQuery is dropped whenever one is held.
pub drop_stale-IsIdle : (f : Framer) → IsIdle f → drop_stale_held f ≡ record f { held_rfq = [] }
drop_stale-IsIdle f v = elim v.held [ inl e ↦ ground arith | inr (s, l) ↦ ground arith ]

-- Between two messages, with what is still to come said.
abbrev pub resting : Framer → Bool → Bytes → Framer
resting f drop_next held = record f {
  message_type = none;
  header = [];
  payload_remaining = 0;
  held_rfq = held;
  rfq_frame = false;
  row_desc = none;
  drop_next_copy_in = drop_next;
  dropping = false;
}

pub resting_lem :
    (f : Framer) (drop_next : Bool) (held : Bytes)
    → IsIdle f
    → resting f drop_next held ≡ record f { held_rfq = held; drop_next_copy_in = drop_next }
resting_lem f d held v = ground arith

-- `finishMessage` leaves a framer with nothing held at rest.
pub finish_lem :
    (g : Framer)
    → g.held_rfq ≡ []
    → g.row_desc ≡ none
    → finish_message g ≡ resting g g.drop_next_copy_in []
finish_lem g e r = ground arith

-- The payload of a message that is passed on or dropped.
module _ (g : Framer) (kind n : ℕ) (payload : Bytes) (m : g.message_type ≡ some kind)
    (h4 : length g.header ≡ 4) (r : g.row_desc ≡ none) (hp : length payload ≡ n - 4) where
  opened_bytes :
      payload_bytes (opened g n) payload
      ≡ (resting g g.drop_next_copy_in [], emitted_from none g.dropping payload)
  unfolding payload_bytes
  opened_bytes =
      let k : (n - 4 - length payload == 0) ≡ true = ground arith in
      rw (k, r, append-nil)
        (ap (λ x. (x, emitted_from none g.dropping payload))
          (finish_lem (record (opened g n) { row_desc = none }) refl refl))

  opened_nonempty :
      (xs : Bytes)
      → xs ≡ payload
      → (n - 4 == 0) ≡ false
      → feed_all (opened g n) xs
        ≡ ok (resting g g.drop_next_copy_in [], output (emitted_from none g.dropping payload))
  opened_nonempty [] e z = absurd (ground (arith, ap length e))
  opened_nonempty (b ∷ bs) e z =
      payload_all (opened g n) kind b bs m h4 refl (omega (arith, ap length e))
      ∙ ap (λ xs. observed (payload_bytes (opened g n) xs)) e
      ∙ ap observed opened_bytes

  opened_empty :
      (xs : Bytes)
      → xs ≡ payload
      → (n - 4 == 0) ≡ true
      → feed_all (finish_message (opened g n)) xs
        ≡ ok (resting g g.drop_next_copy_in [], output (emitted_from none g.dropping payload))
  unfolding feed_all
  opened_empty (b ∷ bs) e z = absurd (ground (arith, ap length e))
  opened_empty [] e z =
      ap (λ x. ok (x, silent)) (finish_lem (opened g n) refl r)
      ∙ ap (λ p. ok (resting g g.drop_next_copy_in [], output (emitted_from none g.dropping p))) e

  pub opened_payload :
      feed_all (opened_next g n) payload
      ≡ ok (resting g g.drop_next_copy_in [], output (emitted_from none g.dropping payload))
  opened_payload = elim (Bool-cases (n - 4 == 0)) [
    | inl z ↦ rw z (opened_empty payload refl z)
    | inr z ↦ rw z (opened_nonempty payload refl z)
  ]

-- The payload of a ReadyForQuery frame.
pub rfq_payload :
    (g : Framer) (kind : ℕ) (payload : Bytes)
    → g.message_type ≡ some kind
    → length g.header ≡ 4
    → g.rfq_frame ≡ true
    → length payload ≡ g.payload_remaining
    → 0 < g.payload_remaining
    → feed_all g payload
      ≡ observed (
          finish_ready_for_query (record g {
            held_rfq = g.held_rfq ++ payload;
            payload_remaining = g.payload_remaining - length payload;
          }))
unfolding rfq_bytes
rfq_payload g kind [] m h4 r e p = absurd (omega arith)
rfq_payload g kind (b ∷ bs) m h4 r e p =
    let z : (g.payload_remaining - suc (length bs) == 0) ≡ true = ground arith in
    rfq_all g kind b bs m h4 r (omega arith) ∙ rw z

-- The payload of a row description.
pub row_payload :
    (g : Framer) (kind : ℕ) (buf payload : Bytes)
    → g.message_type ≡ some kind
    → length g.header ≡ 4
    → g.rfq_frame ≡ false
    → g.dropping ≡ false
    → g.row_desc ≡ some buf
    → g.held_rfq ≡ []
    → length payload ≡ g.payload_remaining
    → 0 < g.payload_remaining
    → feed_all g payload
      ≡ ok (
        resting g g.drop_next_copy_in [],
        output (chunk (rewrite_row_description_in_place (buf ++ payload)) ∷ []),
      )
unfolding payload_bytes
row_payload g kind buf [] m h4 r d w held e p = absurd (omega arith)
row_payload g kind buf (b ∷ bs) m h4 r d w held e p =
    let z : (g.payload_remaining - suc (length bs) == 0) ≡ true = ground arith in
    payload_all g kind b bs m h4 r (omega arith)
    ∙ rw (z, w, d)
        (ap (λ x. ok (x, output (chunk (rewrite_row_description_in_place (buf ++ b ∷ bs)) ∷ [])))
          (finish_lem (record g { row_desc = none }) held refl))

-- One chunk as output.
abbrev pub bytes_out : Bytes → Output
bytes_out xs = record { bytes = xs; statuses = []; errors = 0 }

pub chunk_out : (xs : Bytes) → output (chunk xs ∷ []) ≡ bytes_out xs
chunk_out xs = rw (append-nil xs)
