-- ===== src/Duplex/FrontendBuffer/Consume.antt =====
-- src/duplex/frontend-buffer.ts: `consume` and the waiting bytes.
use prisma_pglite_bridge.Prelude.{
  ℕ, zero, suc, ◌+◌, ◌-◌, ◌≤◌, ◌<◌, ◌≡◌, refl, sym, ap, ◌∙◌, ltb, leb, List, [], ◌∷◌, ◌++◌, ◌⊎◌,
  tests, ltb→ge, suc-ne-zero, length, take, drop, arith, min, Bool-cases, inl, inr, concat,
  take-append, Result, ok, err, length-drop, append_assoc, append-nil, take-take-drop, get_elem?,
  some, drop-drop, concat, true, false, lt→ltb, leb→le,
}
use prisma_pglite_bridge.Duplex.Bytes.{Bytes, subarray}
use prisma_pglite_bridge.Duplex.FrontendBuffer.{
  FrontendMessageBuffer, BufferError, cannot_consume, advance, consume_loop, consume,
}
use prisma_pglite_bridge.Duplex.FrontendBuffer.Valid.{
  IsValid, live, bytes, advance_lem, bytes_view, head_lem,
}

-- `result` hands over the first `n` waiting bytes behind `out`, and leaves the others waiting.
abbrev pub Takes :
    FrontendMessageBuffer → ℕ → Bytes → Result BufferError (Bytes × FrontendMessageBuffer) → Type 0
Takes b n out result =
    (b' : FrontendMessageBuffer) × (result ≡ ok (out ++ take n (bytes b), b'))
    × IsValid b'
    × (bytes b' ≡ drop n (bytes b))

-- Within the head chunk.
subarray_lem :
    (b : FrontendMessageBuffer) (v : IsValid b) (c : Bytes) (cs : List Bytes) (n : ℕ)
    → live b ≡ c ∷ cs
    → n ≤ length c - b.head_offset
    → subarray c b.head_offset (b.head_offset + n) ≡ take n (bytes b)
subarray_lem b v c cs n view fits =
    let e : b.head_offset + n - b.head_offset ≡ n = omega arith in
    rw (e, bytes_view b v c cs n view fits)
      (sym (
        take-append n (drop b.head_offset c) (concat cs)
          (omega (arith, length-drop b.head_offset c))))

-- One round of the loop, given what the rest of it does.
module _ (b : FrontendMessageBuffer) (v : IsValid b) (c : Bytes) (cs : List Bytes) (n : ℕ)
    (out : Bytes) (view : live b ≡ c ∷ cs) where
  abbrev taken : ℕ
  taken = min n (length c - b.head_offset)

  abbrev piece : Bytes
  piece = subarray c b.head_offset (b.head_offset + taken)

  round-Takes :
      (result : Result BufferError (Bytes × FrontendMessageBuffer))
      → Takes (advance b c taken) (n - taken) (out ++ piece) result
      → Takes b n out result
  round-Takes result (b', e, v', r) =
      let fits : taken ≤ length c - b.head_offset = omega arith in
      let rest = (advance_lem b v c cs taken view fits).1 in
      (
        b',
        e
            ∙ ap (λ l. ok (l, b'))
                (append_assoc out piece _
                  ∙ ap (◌++◌ out) (
                      ap (λ l. piece ++ take (n - taken) l) rest
                      ∙ ap (λ l. l ++ take (n - taken) (drop taken (bytes b)))
                          (subarray_lem b v c cs taken view fits)
                      ∙ sym (take-take-drop taken n (bytes b) (omega arith)))),
        v',
        r
            ∙ ap (drop (n - taken)) rest
            ∙ drop-drop (n - taken) taken (bytes b)
            ∙ ap (λ k. drop k (bytes b)) {x = taken + (n - taken)} (omega arith),
      )

  round_step :
      (fuel : ℕ)
      → 0 < n
      → get_elem? b.chunks b.head_index ≡ some c
      → consume_loop (suc fuel) b n out
        ≡ consume_loop fuel (advance b c taken) (n - taken) (out ++ piece)
  unfolding consume_loop
  round_step fuel h found = rw (lt→ltb 0 n h, consume_loop) (rw (found, consume_loop))

consume_loop-Takes :
    (fuel : ℕ) (b : FrontendMessageBuffer) (n : ℕ) (out : Bytes)
    → IsValid b
    → n ≤ b.total_length
    → n ≤ fuel
    → Takes b n out (consume_loop fuel b n out)
consume_loop-Takes zero b zero out v h k = (b, unfold consume_loop in rw append-nil, v, refl)
consume_loop-Takes zero b (suc n) out v h k = elim k [ ]
consume_loop-Takes (suc fuel) b zero out v h k = (b, unfold consume_loop in rw append-nil, v, refl)
consume_loop-Takes (suc fuel) b (suc n) out v h k =
    let (c, cs, view, found, inside) = head_lem b v (omega arith) in
    let t = min (suc n) (length c - b.head_offset) in
    let a = advance_lem b v c cs t view (omega arith) in
    let rest =
      consume_loop-Takes fuel (advance b c t) (suc n - t)
        (out ++ subarray c b.head_offset (b.head_offset + t)) a.0
        (omega (arith, a.0.counted, ap length a.1, v.counted, length-drop t (bytes b)))
        (omega arith) in
    rw (round_step b v c cs (suc n) out view fuel (omega arith) found)
      (round-Takes b v c cs (suc n) out view _ rest)

not_more : (t n : ℕ) → n ≤ t → ltb t n ≡ false
not_more t n h = ground arith

-- The two ways through `consume`: the head chunk has the bytes, or the loop crosses chunks.
module _ (b : FrontendMessageBuffer) (n : ℕ) (c : Bytes) (h : suc n ≤ b.total_length)
    (found : get_elem? b.chunks b.head_index ≡ some c) where
  consume_whole :
      leb (suc n) (length c - b.head_offset) ≡ true
      → consume b (suc n)
        ≡ ok (subarray c b.head_offset (b.head_offset + suc n), advance b c (suc n))
  unfolding consume
  consume_whole e =
      rw (not_more b.total_length (suc n) h) (rw (found, consume) (rw suc-ne-zero (rw e)))

  consume_split :
      leb (suc n) (length c - b.head_offset) ≡ false
      → consume b (suc n) ≡ consume_loop (suc n) b (suc n) []
  unfolding consume
  consume_split e =
      rw (not_more b.total_length (suc n) h) (rw (found, consume) (rw suc-ne-zero (rw e)))

consume-Takes :
    (b : FrontendMessageBuffer) (n : ℕ)
    → IsValid b
    → n ≤ b.total_length
    → Takes b n [] (consume b n)
consume-Takes b zero v h = (b, unfold consume in rw (not_more b.total_length 0 h), v, refl)
consume-Takes b (suc n) v h =
    let (c, cs, view, found, inside) = head_lem b v (omega arith) in
    elim (Bool-cases (leb (suc n) (length c - b.head_offset))) [
      | inl whole ↦
          let fits : suc n ≤ length c - b.head_offset = leb→le _ _ whole in
          let a = advance_lem b v c cs (suc n) view fits in
          (
            advance b c (suc n),
            consume_whole b n c h found whole
                ∙ ap (λ l. ok (l, advance b c (suc n))) (subarray_lem b v c cs (suc n) view fits),
            a.0,
            a.1,
          )
      | inr split ↦
          rw (consume_split b n c h found split)
            (consume_loop-Takes (suc n) b (suc n) [] v h (omega arith))
    ]

-- `consume` of any number of waiting bytes returns exactly those, in order, whatever the chunks,
-- and leaves the rest in a valid queue; asked for more than waits it throws.
pub consume_lem :
    (b : FrontendMessageBuffer) (n : ℕ)
    → IsValid b
    → ((n ≤ length (bytes b)) × Takes b n [] (consume b n))
      ⊎ ((length (bytes b) < n) × (consume b n ≡ err (cannot_consume n (length (bytes b)))))
unfolding consume
consume_lem b n v = elim (Bool-cases (ltb b.total_length n)) [
  | inl e ↦ inr (omega (tests, v.counted, e), rw e (ap (λ k. err (cannot_consume n k)) v.counted))
  | inr e ↦ inl (
    omega (arith, v.counted, ltb→ge b.total_length n e),
    consume-Takes b n v (ltb→ge b.total_length n e),
  )
]
