-- ===== src/Duplex/BackendFramer/Parts.antt =====
-- src/duplex/backend-framer.ts: bytes taken together, against the same bytes taken one at a time.
use prisma_pglite_bridge.Prelude.{
  ℕ, suc, ◌+◌, ◌-◌, ◌≤◌, ◌<◌, ◌==◌, if◌then◌else◌, Bool, true, false, Option, none, some, [], ◌∷◌,
  ◌++◌, length, ok, ◌>>=◌, ◌≡◌, refl, append_assoc, ap, ◌∙◌, sym, arith, inl, inr, Bool-cases,
  Result-cases, length-append, lt→ltb, suc-ne-zero, append-nil,
}
use prisma_pglite_bridge.Duplex.Bytes.{Bytes}
use prisma_pglite_bridge.Duplex.Constants.{ready_for_query}
use prisma_pglite_bridge.Duplex.BackendFramer.{
  Framer, header_bytes, rfq_bytes, payload_bytes, row_desc_after, emitted_from, row_desc_end,
  finish_message,
}
use prisma_pglite_bridge.Duplex.BackendFramer.Steps.{
  Output, silent, refuse_stuck, observed, after, ◌+out◌, feed_header, feed_rfq, feed_payload, feed,
  feed_all, out_silent, output, after-silent, output-append, out_assoc, refuse_stuck-none,
}

pub feed_all_one : (f : Framer) (b : ℕ) → feed_all f (b ∷ []) ≡ feed f b
unfolding feed_all
feed_all_one f b = elim (Result-cases (feed f b)) [
  | inl ((g, o), h) ↦ rw h (ap (λ p. ok (g, p)) (out_silent o))
  | inr (e, h) ↦ rw h
]

pub feed_all_more :
    (f g : Framer) (b : ℕ) (bs : Bytes) (o : Output)
    → feed f b ≡ ok (g, o)
    → feed_all f (b ∷ bs) ≡ (feed_all g bs >>= after o)
unfolding feed_all
feed_all_more f g b bs o h = rw h

-- One header byte of several.
module _ (f : Framer) (kind : ℕ) (b : ℕ) where
  abbrev header_next : Framer
  header_next = record f {
    header = f.header ++ b ∷ [];
    held_rfq = if kind == ready_for_query then f.held_rfq ++ b ∷ [] else f.held_rfq;
  }

  header_bytes_cons :
      (c : ℕ) (bs : Bytes)
      → header_bytes f kind (b ∷ c ∷ bs) ≡ header_bytes header_next kind (c ∷ bs)
  unfolding header_bytes
  header_bytes_cons c bs = elim (Bool-cases (kind == ready_for_query)) [
    | inl e ↦
        rw e
          (rw (append_assoc f.header (b ∷ []) (c ∷ bs), append_assoc f.held_rfq (b ∷ []) (c ∷ bs)))
    | inr e ↦ rw e (rw (append_assoc f.header (b ∷ []) (c ∷ bs)))
  ]

  header_bytes_short : length f.header + 1 < 4 → header_bytes f kind (b ∷ []) ≡ ok (header_next, [])
  unfolding header_bytes
  header_bytes_short h =
      rw (lt→ltb (length (f.header ++ b ∷ [])) 4 (omega (arith, length-append f.header (b ∷ []))))

  feed_header_short :
      f.message_type ≡ some kind
      → f.row_desc ≡ none
      → length f.header + 1 < 4
      → feed f b ≡ ok (header_next, silent)
  feed_header_short m r h =
      feed_header f b kind m (omega arith)
      ∙ ap (λ x. x >>= refuse_stuck) (header_bytes_short h)
      ∙ refuse_stuck-none (header_next) [] r

-- A run of header bytes.
pub header_all :
    (f : Framer) (kind b : ℕ) (bs : Bytes)
    → f.message_type ≡ some kind
    → f.row_desc ≡ none
    → length f.header + suc (length bs) ≤ 4
    → feed_all f (b ∷ bs) ≡ (header_bytes f kind (b ∷ bs) >>= refuse_stuck)
header_all f kind b [] m r h = feed_all_one f b ∙ feed_header f b kind m (omega arith)
header_all f kind b (c ∷ bs) m r h =
    feed_all_more f (header_next f kind b) b (c ∷ bs) silent
      (feed_header_short f kind b m r (omega arith))
    ∙ after-silent (feed_all (header_next f kind b) (c ∷ bs))
    ∙ header_all (header_next f kind b) kind c bs m r
        (omega (arith, length-append f.header (b ∷ [])))
    ∙ ap (λ x. x >>= refuse_stuck) (sym (header_bytes_cons f kind b c bs))

-- Payload bytes in two parts.
row_desc_after_twice :
    (r : Option Bytes) (d : Bool) (xs ys : Bytes)
    → row_desc_after (row_desc_after r d xs) d ys ≡ row_desc_after r d (xs ++ ys)
row_desc_after_twice none d xs ys = refl
row_desc_after_twice (some buf) true xs ys = refl
row_desc_after_twice (some buf) false xs ys = ap some (append_assoc buf xs ys)

pub emitted_chunk :
    (xs : Bytes) (d : Bool)
    → output (emitted_from none d xs)
      ≡ (if d then silent else record { bytes = xs; statuses = []; errors = 0 })
emitted_chunk [] true = refl
emitted_chunk [] false = refl
emitted_chunk (x ∷ xs) true = rw (suc-ne-zero (length xs))
emitted_chunk (x ∷ xs) false = rw (suc-ne-zero (length xs), append-nil xs)

emitted_twice :
    (r : Option Bytes) (d : Bool) (xs ys : Bytes)
    → output (emitted_from r d xs) +out output (emitted_from (row_desc_after r d xs) d ys)
      ≡ output (emitted_from r d (xs ++ ys))
emitted_twice (some buf) d xs ys = refl
emitted_twice none true xs ys =
    rw (emitted_chunk xs true, emitted_chunk ys true, emitted_chunk (xs ++ ys) true)
emitted_twice none false xs ys =
    rw (emitted_chunk xs false, emitted_chunk ys false, emitted_chunk (xs ++ ys) false)

module _ (f : Framer) (xs ys : Bytes) (h : length xs < f.payload_remaining) where
  abbrev payload_next : Framer
  payload_next = record f {
    row_desc = row_desc_after f.row_desc f.dropping xs;
    payload_remaining = f.payload_remaining - length xs;
  }

  payload_bytes_more : payload_bytes f xs ≡ (payload_next, emitted_from f.row_desc f.dropping xs)
  unfolding payload_bytes
  payload_bytes_more = let e : (f.payload_remaining - length xs == 0) ≡ false = ground arith in rw e

  output_twice :
      output (emitted_from f.row_desc f.dropping xs)
        +out output (
            emitted_from payload_next.row_desc f.dropping ys
            ++ row_desc_end (row_desc_after payload_next.row_desc f.dropping ys))
      ≡ output (
          emitted_from f.row_desc f.dropping (xs ++ ys)
          ++ row_desc_end (row_desc_after f.row_desc f.dropping (xs ++ ys)))
  output_twice = rw (row_desc_after_twice f.row_desc f.dropping xs ys) (
      ap (λ p. output (emitted_from f.row_desc f.dropping xs) +out p)
        (output-append (emitted_from payload_next.row_desc f.dropping ys) _)
      ∙ sym (out_assoc (output (emitted_from f.row_desc f.dropping xs)) _ _)
      ∙ ap (λ p. p +out output (row_desc_end (row_desc_after f.row_desc f.dropping (xs ++ ys))))
          (emitted_twice f.row_desc f.dropping xs ys)
      ∙ sym (output-append (emitted_from f.row_desc f.dropping (xs ++ ys)) _))

  left_twice : f.payload_remaining - length (xs ++ ys) ≡ f.payload_remaining - length xs - length ys
  left_twice = omega (arith, length-append xs ys)

  pub payload_bytes_twice :
      (observed (payload_bytes payload_next ys)
        >>= after (output (emitted_from f.row_desc f.dropping xs)))
      ≡ observed (payload_bytes f (xs ++ ys))
  unfolding payload_bytes
  payload_bytes_twice = elim (Bool-cases (f.payload_remaining - length xs - length ys == 0)) [
    | inl z ↦
        rw (left_twice, z)
          (ap (λ p. ok (finish_message (record f { row_desc = none }), p)) output_twice)
    | inr z ↦
        rw (left_twice, z)
          λ i. ok (
            record f {
              payload_remaining = f.payload_remaining - length xs - length ys;
              row_desc = row_desc_after_twice f.row_desc f.dropping xs ys i;
            },
            emitted_twice f.row_desc f.dropping xs ys i,
          )
  ]

-- A run of payload bytes.
pub payload_all :
    (f : Framer) (kind b : ℕ) (bs : Bytes)
    → f.message_type ≡ some kind
    → length f.header ≡ 4
    → f.rfq_frame ≡ false
    → suc (length bs) ≤ f.payload_remaining
    → feed_all f (b ∷ bs) ≡ observed (payload_bytes f (b ∷ bs))
payload_all f kind b [] m l r h = feed_all_one f b ∙ feed_payload f b kind m l r
payload_all f kind b (c ∷ bs) m l r h =
    let short : length (b ∷ []) < f.payload_remaining = omega arith in
    let g = payload_next f (b ∷ []) (c ∷ bs) short in
    let o = output (emitted_from f.row_desc f.dropping (b ∷ [])) in
    feed_all_more f g b (c ∷ bs) o
      (feed_payload f b kind m l r ∙ ap observed (payload_bytes_more f (b ∷ []) (c ∷ bs) short))
    ∙ ap (λ x. x >>= after o) (payload_all g kind c bs m l r (omega arith))
    ∙ payload_bytes_twice f (b ∷ []) (c ∷ bs) short

-- A run of bytes of a ReadyForQuery frame.
module _ (f : Framer) (b : ℕ) (ys : Bytes) (h : 1 < f.payload_remaining) where
  abbrev rfq_next : Framer
  rfq_next = record f {
    held_rfq = f.held_rfq ++ b ∷ [];
    payload_remaining = f.payload_remaining - 1;
  }

  rfq_bytes_more : rfq_bytes f (b ∷ []) ≡ (rfq_next, [])
  unfolding rfq_bytes
  rfq_bytes_more = let e : (f.payload_remaining - 1 == 0) ≡ false = ground arith in rw e

  rfq_bytes_twice : rfq_bytes rfq_next ys ≡ rfq_bytes f (b ∷ ys)
  unfolding rfq_bytes
  rfq_bytes_twice =
      let e : f.payload_remaining - 1 - length ys ≡ f.payload_remaining - suc (length ys) =
        omega arith in
      rw (e, append_assoc f.held_rfq (b ∷ []) ys)

pub rfq_all :
    (f : Framer) (kind b : ℕ) (bs : Bytes)
    → f.message_type ≡ some kind
    → length f.header ≡ 4
    → f.rfq_frame ≡ true
    → suc (length bs) ≤ f.payload_remaining
    → feed_all f (b ∷ bs) ≡ observed (rfq_bytes f (b ∷ bs))
rfq_all f kind b [] m l r h = feed_all_one f b ∙ feed_rfq f b kind m l r
rfq_all f kind b (c ∷ bs) m l r h =
    let g = rfq_next f b (c ∷ bs) (omega arith) in
    feed_all_more f g b (c ∷ bs) silent
      (feed_rfq f b kind m l r ∙ ap observed (rfq_bytes_more f b (c ∷ bs) (omega arith)))
    ∙ after-silent (feed_all g (c ∷ bs))
    ∙ rfq_all g kind c bs m l r (omega arith)
    ∙ ap observed (rfq_bytes_twice f b (c ∷ bs) (omega arith))
