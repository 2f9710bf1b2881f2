-- ===== src/Duplex/PgliteDuplex/Frames.antt =====
-- What the framing of src/duplex/index.ts cuts off the input: whole messages.
use prisma_pglite_bridge.Prelude.{
  ℕ, ◌+◌, ◌≤◌, ltb, Option, none, some, ◌≡◌, refl, sym, ap, ◌∙◌, subst, inl, inr, length, take,
  drop, length-take, take-append-drop, Result, ok, err, arith, Bool-cases, ltb→ge,
}
use prisma_pglite_bridge.Duplex.Bytes.{Bytes, u32_at, u32_at-append}
use prisma_pglite_bridge.Duplex.Constants.{max_message_length}
use prisma_pglite_bridge.Duplex.FrontendBuffer.{FrontendMessageBuffer, consume}
use prisma_pglite_bridge.Duplex.FrontendBuffer.Valid.{IsValid, bytes}
use prisma_pglite_bridge.Duplex.FrontendBuffer.Consume.{consume_lem}
use prisma_pglite_bridge.Duplex.FrontendBuffer.Read.{read_u32_be_lem}
use prisma_pglite_bridge.Duplex.PgliteDuplex.{Host, DuplexError}
use prisma_pglite_bridge.Duplex.PgliteDuplex.Messages.{taken, message_of_length, next_message}
use prisma_pglite_bridge.Duplex.PgliteDuplex.Calls.{IsFrame}

-- A message that has been cut off is whole, and the rest waits in a sound buffer.
abbrev pub IsCut : Result DuplexError (Option (Bytes × FrontendMessageBuffer)) → Type 0
IsCut (err e) = Unit
IsCut (ok none) = Unit
IsCut (ok (some (message, rest))) = IsFrame message × IsValid rest

word-take : (n : ℕ) (xs : Bytes) → 5 ≤ n → n ≤ length xs → u32_at (take n xs) 1 ≡ u32_at xs 1
word-take n xs five fits =
    sym (u32_at-append 1 (take n xs) (drop n xs) (omega (arith, length-take n xs)))
    ∙ ap (λ l. u32_at l 1) (take-append-drop n xs)

module _ (h : Host) where
  taken-IsCut :
      (b : FrontendMessageBuffer) (n : ℕ)
      → IsValid b
      → n ≡ u32_at (bytes b) 1
      → 4 ≤ n
      → n ≤ max_message_length
      → IsCut (taken h (consume b (1 + n)))
  taken-IsCut b n v e low high = elim (consume_lem b (1 + n) v) [
    | inr (less, fault) ↦ rw fault tt
    | inl (fits, (b', got, v', rest)) ↦
        let word = word-take (1 + n) (bytes b) (omega (arith, low)) fits in
        let size = length-take (1 + n) (bytes b) in
        let word_n : u32_at (take (1 + n) (bytes b)) 1 ≡ n = word ∙ sym e in
        let whole : IsFrame (take (1 + n) (bytes b)) = (
          omega (arith, size, fits, word_n),
          omega (arith, low, word_n),
          omega (arith, high, word_n),
        ) in
        subst (λ r. IsCut (taken h r)) (sym got) (whole, v')
  ]

  message_of_length-IsCut :
      (b : FrontendMessageBuffer) (n : ℕ)
      → IsValid b
      → n ≡ u32_at (bytes b) 1
      → IsCut (message_of_length h b (some n))
  message_of_length-IsCut b n v e = elim (Bool-cases (ltb n 4)) [
    | inl y ↦ rw y tt
    | inr low ↦ elim (Bool-cases (ltb max_message_length n)) [
      | inl y ↦ rw (low, y) tt
      | inr high ↦ elim (Bool-cases (ltb b.total_length (1 + n))) [
        | inl y ↦ rw (low, high, y) tt
        | inr fits ↦
            rw (low, high, fits)
              (taken-IsCut b n v e (ltb→ge n 4 low) (ltb→ge max_message_length n high))
      ]
    ]
  ]

  pub next_message-IsCut : (b : FrontendMessageBuffer) → IsValid b → IsCut (next_message h b)
  unfolding next_message
  next_message-IsCut b v = elim (Bool-cases (ltb b.total_length 5)) [
    | inl y ↦ rw y tt
    | inr n ↦ elim (read_u32_be_lem b 1 v) [
      | inl (room, found) ↦ rw (n, found) (message_of_length-IsCut b (u32_at (bytes b) 1) v refl)
      | inr (short, found) ↦ rw (n, found) tt
    ]
  ]
