-- ===== src/Duplex/BackendFramer/Progress.antt =====
-- src/duplex/backend-framer.ts: one round of the loop in `write` against the byte-wise reading.
use prisma_pglite_bridge.Prelude.{
  ℕ, ◌+◌, ◌-◌, ◌≤◌, ◌<◌, ltb, true, false, Option, none, some, min, List, [], ◌∷◌, ◌++◌, length, ok,
  ◌>>=◌, ◌≡◌, refl, ap, ◌∙◌, sym, arith, inl, inr, Bool-cases, ltb→ge, drop, length-take,
  length-drop, >>=-eq-ok, drop-drop, take-append-drop, lt→ltb,
}
use prisma_pglite_bridge.Duplex.Bytes.{Bytes, subarray}
use prisma_pglite_bridge.Duplex.BackendFramer.{
  Framer, Event, Cursor, header_bytes, rfq_bytes, payload_bytes, flush_passthrough,
  passthrough_after, moved, inside_step, step, step_at,
}
use prisma_pglite_bridge.Duplex.BackendFramer.Steps.{
  Output, silent, is_stuck, refuse_stuck, observed, ◌+out◌, feed_all, out_silent, output,
  output-append, feed_all-ok,
}
use prisma_pglite_bridge.Duplex.BackendFramer.Invariant.{InHeader, InPayload}
use prisma_pglite_bridge.Duplex.BackendFramer.Parts.{header_all, payload_all, rfq_all}
use prisma_pglite_bridge.Duplex.BackendFramer.Payload.{bytes_out, chunk_out}

-- Bytes that have been read and wait to be emitted as one slice.
abbrev pub pend : Bytes → Option ℕ → ℕ → Output
pend bytes none end = silent
pend bytes (some start) end = bytes_out (subarray bytes start end)

-- Such bytes lie behind the cursor, between messages.
abbrev pub Passes : Option ℕ → ℕ → Framer → Type 0
Passes none offset f = Unit
Passes (some start) offset f = (start < offset) × (f.message_type ≡ none)

pub output-flush :
    (bytes : Bytes) (p : Option ℕ) (end : ℕ)
    → output (flush_passthrough bytes p end) ≡ pend bytes p end
output-flush bytes none end = refl
output-flush bytes (some start) end = elim (Bool-cases (ltb start end)) [
  | inl e ↦ rw e (chunk_out (subarray bytes start end))
  | inr e ↦ let z : end - start ≡ 0 = omega (arith, ltb→ge start end e) in rw (e, z)
]

pub passthrough_after-none :
    (p : Option ℕ) (offset : ℕ) (f : Framer) → Passes p offset f → passthrough_after p offset ≡ none
passthrough_after-none none offset f v = refl
passthrough_after-none (some start) offset f v = rw (lt→ltb start offset v.0)

-- What one round does from the cursor `c` to the cursor `d`.
pub record Progress (bytes : Bytes) (c d : Cursor) : Type 0 where
  pub part : Bytes
  pub seen : Output
  pub split : drop c.offset bytes ≡ part ++ drop d.offset bytes
  pub reads : feed_all c.framer part ≡ ok (d.framer, seen)
  pub shown :
      output d.events +out pend bytes d.passthrough d.offset
      ≡ output c.events +out pend bytes c.passthrough c.offset +out seen
  pub moves : c.offset < d.offset
  pub inside : d.offset ≤ length bytes
  pub passes : Passes d.passthrough d.offset d.framer

refuse_stuck-ok :
    (g : Framer) (events : List Event) {h : Framer} {o : Output}
    → refuse_stuck (g, events) ≡ ok (h, o)
    → (g ≡ h) × (output events ≡ o)
refuse_stuck-ok g events e = elim (Bool-cases (is_stuck g)) [
  | inl z ↦ absurd (cc (rw z at e))
  | inr z ↦ let q = rw z at e in (cc q, cc q)
]

-- `n` bytes from a place in the chunk.
pub split_at :
    (offset n : ℕ) (bytes : Bytes)
    → drop offset bytes ≡ subarray bytes offset (offset + n) ++ drop (offset + n) bytes
split_at offset n bytes =
    let e : offset + n - offset ≡ n = omega arith in
    rw (e, ← drop-drop n offset bytes) (sym (take-append-drop n (drop offset bytes)))

pub length-subarray :
    (offset n : ℕ) (bytes : Bytes)
    → offset + n ≤ length bytes
    → length (subarray bytes offset (offset + n)) ≡ n
length-subarray offset n bytes h =
    omega (arith, length-take (offset + n - offset) (drop offset bytes), length-drop offset bytes)

-- `n` bytes of a message that is under way.
module _ (bytes : Bytes) (c : Cursor) (n : ℕ) (some_bytes : 0 < n)
    (fits : c.offset + n ≤ length bytes) (p : c.passthrough ≡ none) where
  abbrev part_of : Bytes
  part_of = subarray bytes c.offset (c.offset + n)

  inside-Progress :
      (g : Framer) (events : List Event)
      → feed_all c.framer part_of ≡ ok (g, output events)
      → Progress bytes c (moved c n (g, events))
  inside-Progress g events e = record {
    part = part_of;
    seen = output events;
    split = split_at c.offset n bytes;
    reads = e;
    shown = rw p (
        out_silent (output (c.events ++ events))
        ∙ output-append c.events events
        ∙ ap (λ x. x +out output events) (sym (out_silent (output c.events))));
    moves = omega arith;
    inside = fits;
    passes = rw p tt;
  }

header_run :
    (f : Framer) (kind : ℕ) (xs : Bytes)
    → InHeader f kind
    → 0 < length xs
    → length f.header + length xs ≤ 4
    → feed_all f xs ≡ (header_bytes f kind xs >>= refuse_stuck)
header_run f kind [] v h k = absurd (omega arith)
header_run f kind (b ∷ bs) v h k = header_all f kind b bs v.kind_is v.no_row k

payload_run :
    (f : Framer) (kind : ℕ) (xs : Bytes)
    → InPayload f kind
    → f.rfq_frame ≡ false
    → 0 < length xs
    → length xs ≤ f.payload_remaining
    → feed_all f xs ≡ observed (payload_bytes f xs)
payload_run f kind [] v r h k = absurd (omega arith)
payload_run f kind (b ∷ bs) v r h k = payload_all f kind b bs v.kind_is v.full r k

rfq_run :
    (f : Framer) (kind : ℕ) (xs : Bytes)
    → InPayload f kind
    → f.rfq_frame ≡ true
    → 0 < length xs
    → length xs ≤ f.payload_remaining
    → feed_all f xs ≡ observed (rfq_bytes f xs)
rfq_run f kind [] v r h k = absurd (omega arith)
rfq_run f kind (b ∷ bs) v r h k = rfq_all f kind b bs v.kind_is v.full r k

-- What a round owes.
abbrev pub Steps : Bytes → Cursor → Type 0
Steps bytes c = (d : Cursor) × (step bytes c ≡ ok d) × Progress bytes c d

module _ (bytes : Bytes) (c : Cursor) (kind : ℕ) (more : c.offset < length bytes)
    (p : c.passthrough ≡ none) where
  abbrev available : ℕ
  available = length bytes - c.offset

  step_inside : c.framer.message_type ≡ some kind → step bytes c ≡ inside_step bytes c kind
  unfolding step
  step_inside m = ap (λ t. step_at t bytes c) m

  pub header_step :
      (v : InHeader c.framer kind) {g : Framer} {o : Output}
      → feed_all c.framer (drop c.offset bytes) ≡ ok (g, o)
      → Steps bytes c
  unfolding inside_step
  header_step v e =
      let n = min (4 - length c.framer.header) available in
      let part = subarray bytes c.offset (c.offset + n) in
      let l = length-subarray c.offset n bytes (omega arith) in
      let (g1, q, q', first, second, sum) =
        feed_all-ok c.framer part (drop (c.offset + n) bytes)
          (ap (feed_all c.framer) (sym (split_at c.offset n bytes)) ∙ e) in
      let ((g', events), done, last) = >>=-eq-ok (header_bytes c.framer kind part) refuse_stuck (
        sym
          (header_run c.framer kind part v (omega (arith, l, v.short)) (omega (arith, l, v.short)))
        ∙ first) in
      let (same, out) = refuse_stuck-ok g' events last in
      let same' = sym same in
      let out' = sym out in
      (
        moved c n (g', events),
        step_inside v.kind_is ∙ rw (lt→ltb (length c.framer.header) 4 v.short, done),
        inside-Progress bytes c n (omega (arith, v.short)) (omega arith) p g' events
            (first ∙ λ i. ok (same' i, out' i)),
      )

  pub payload_step : (v : InPayload c.framer kind) → Steps bytes c
  unfolding inside_step
  payload_step v =
      let n = min c.framer.payload_remaining available in
      let part = subarray bytes c.offset (c.offset + n) in
      let l = length-subarray c.offset n bytes (omega arith) in
      let full : ltb (length c.framer.header) 4 ≡ false = ground (arith, v.full) in
      elim (Bool-cases c.framer.rfq_frame) [
        | inl r ↦ (
          moved c n (rfq_bytes c.framer part),
          step_inside v.kind_is ∙ rw (full, r),
          inside-Progress bytes c n (omega (arith, v.more)) (omega arith) p _ _
              (rfq_run c.framer kind part v r (omega (arith, l, v.more)) (omega (arith, l))),
        )
        | inr r ↦ (
          moved c n (payload_bytes c.framer part),
          step_inside v.kind_is ∙ rw (full, r),
          inside-Progress bytes c n (omega (arith, v.more)) (omega arith) p _ _
              (payload_run c.framer kind part v r (omega (arith, l, v.more)) (omega (arith, l))),
        )
      ]
