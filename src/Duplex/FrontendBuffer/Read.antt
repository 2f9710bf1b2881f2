-- ===== src/Duplex/FrontendBuffer/Read.antt =====
-- src/duplex/frontend-buffer.ts: `readUInt32BE` and the waiting bytes.
use prisma_pglite_bridge.Prelude.{
  ℕ, ◌+◌, ◌-◌, ◌≤◌, ◌<◌, ◌≡◌, sym, ap, ◌∙◌, ltb, leb, List, [], ◌∷◌, ◌++◌, ◌⊎◌, ltb→ge, length,
  take, drop, arith, min, Bool-cases, inl, inr, concat, length-append, length-drop, append_assoc,
  append-nil, some, none, drop-append, get_or-take, leb→le, ltb→lt, leb→gt, drop-append_right,
  take-append_all, take-min, drop-nil, take-nil, le→ltb, length-take,
}
use prisma_pglite_bridge.Duplex.Bytes.{Bytes, subarray, u32_at, u32_at-drop, u32_at-append}
use prisma_pglite_bridge.Duplex.FrontendBuffer.{FrontendMessageBuffer, gather, read_u32_be}
use prisma_pglite_bridge.Duplex.FrontendBuffer.Valid.{IsValid, live, bytes, head_lem}

-- What the loop copies of a chunk that holds place `r`.
abbrev here_piece : Bytes → ℕ → Bytes → Bytes
here_piece c r out = subarray c r (r + min (4 - length out) (length c - r))

here_length :
    (c : Bytes) (r : ℕ) (out : Bytes) → length out ≤ 4 → length (out ++ here_piece c r out) ≤ 4
here_length c r out h = omega (
  arith,
  length-append out (here_piece c r out),
  length-take (r + min (4 - length out) (length c - r) - r) (drop r c),
)

here_lem :
    (c : Bytes) (r : ℕ) (out rest : Bytes)
    → r < length c
    → here_piece c r out ++ take (4 - length (out ++ here_piece c r out)) rest
      ≡ take (4 - length out) (drop r (c ++ rest))
here_lem c r out rest h =
    ap (λ p. p ++ take (4 - length (out ++ here_piece c r out)) rest) piece
    ∙ ap (λ k. take (4 - length out) (drop r c) ++ take k rest) left
    ∙ sym (take-append_all (4 - length out) (drop r c) rest)
    ∙ ap (take (4 - length out)) (sym (drop-append r c rest (omega arith)))
  where
    piece : here_piece c r out ≡ take (4 - length out) (drop r c)
    piece =
        let e : r + min (4 - length out) (length c - r) - r ≡ min (4 - length out) (length c - r) =
          omega arith in
        rw e (take-min (4 - length out) (length c - r) (drop r c) (omega (arith, length-drop r c)))

    left : 4 - length (out ++ here_piece c r out) ≡ 4 - length out - length (drop r c)
    left = omega (
      arith,
      length-append out (here_piece c r out),
      ap length piece,
      length-take (4 - length out) (drop r c),
      length-drop r c,
    )

-- The loop collects the bytes from place `r` on until it has four.
gather_lem :
    (cs : List Bytes) (r : ℕ) (out : Bytes)
    → length out ≤ 4
    → gather cs r out ≡ out ++ take (4 - length out) (drop r (concat cs))
unfolding gather
gather_lem [] r out h = rw (drop-nil r, take-nil (4 - length out)) (sym (append-nil out))
gather_lem (c ∷ cs) r out h = elim (Bool-cases (ltb (length out) 4)) [
  | inr full ↦
      let e : 4 - length out ≡ 0 = omega (arith, ltb→ge (length out) 4 full) in
      rw (full, e) (sym (append-nil out))
  | inl more ↦ rw more (elim (Bool-cases (leb (length c) r)) [
    | inl skip ↦ rw skip (
        gather_lem cs (r - length c) out h
        ∙ ap (λ l. out ++ take (4 - length out) l)
            (sym (drop-append_right r c (concat cs) (leb→le (length c) r skip))))
    | inr here ↦ rw here (
        gather_lem cs 0 _ (here_length c r out h)
        ∙ append_assoc out (here_piece c r out) _
        ∙ ap (◌++◌ out) (here_lem c r out (concat cs) (leb→gt (length c) r here)))
  ])
]

u32_at-take : (xs : Bytes) → u32_at (take 4 xs) 0 ≡ u32_at xs 0
u32_at-take xs = omega (
  arith,
  get_or-take 4 0 xs 0 (omega arith),
  get_or-take 4 1 xs 0 (omega arith),
  get_or-take 4 2 xs 0 (omega arith),
  get_or-take 4 3 xs 0 (omega arith),
)

-- Both ways through the method read the same word.
module _ (b : FrontendMessageBuffer) (offset : ℕ) where
  across_lem : u32_at (gather (live b) (b.head_offset + offset) []) 0 ≡ u32_at (bytes b) offset
  across_lem =
      let e : b.head_offset + offset + 0 ≡ b.head_offset + offset = omega arith in
      rw (gather_lem (live b) (b.head_offset + offset) [] (omega arith)) (
        u32_at-take (drop (b.head_offset + offset) (concat (live b)))
        ∙ u32_at-drop (b.head_offset + offset) 0 (concat (live b))
        ∙ ap (u32_at (concat (live b))) e
        ∙ sym (u32_at-drop b.head_offset offset (concat (live b))))

  within_lem :
      (c : Bytes) (cs : List Bytes)
      → live b ≡ c ∷ cs
      → b.head_offset + offset + 4 ≤ length c
      → u32_at c (b.head_offset + offset) ≡ u32_at (bytes b) offset
  within_lem c cs view h =
      sym (u32_at-append (b.head_offset + offset) c (concat cs) h)
      ∙ ap (λ l. u32_at (concat l) (b.head_offset + offset)) (sym view)
      ∙ sym (u32_at-drop b.head_offset offset (concat (live b)))

  read_waiting :
      IsValid b
      → offset + 4 ≤ b.total_length
      → read_u32_be b offset ≡ some (u32_at (bytes b) offset)
  unfolding read_u32_be
  read_waiting v h =
      let (c, cs, view, found, inside) = head_lem b v (omega arith) in
      rw (le→ltb (offset + 4) b.total_length h) (
        rw (found, read_u32_be)
          (elim (Bool-cases (leb (b.head_offset + offset + 4) (length c))) [
            | inl w ↦ rw w (ap some (within_lem c cs view (leb→le _ _ w)))
            | inr w ↦ rw w (ap some across_lem)
          ]))

-- Given four bytes from `offset` on, `readUInt32BE` returns their big-endian word, whatever the
-- chunks, and else nothing.
pub read_u32_be_lem :
    (b : FrontendMessageBuffer) (offset : ℕ)
    → IsValid b
    → ((offset + 4 ≤ length (bytes b)) × (read_u32_be b offset ≡ some (u32_at (bytes b) offset)))
      ⊎ ((length (bytes b) < offset + 4) × (read_u32_be b offset ≡ none))
unfolding read_u32_be
read_u32_be_lem b offset v = elim (Bool-cases (ltb b.total_length (offset + 4))) [
  | inl e ↦ inr (omega (arith, v.counted, ltb→lt b.total_length (offset + 4) e), rw e)
  | inr e ↦ inl (
    omega (arith, v.counted, ltb→ge b.total_length (offset + 4) e),
    read_waiting b offset v (ltb→ge b.total_length (offset + 4) e),
  )
]
