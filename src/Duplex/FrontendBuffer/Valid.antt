-- ===== src/Duplex/FrontendBuffer/Valid.antt =====
-- src/duplex/frontend-buffer.ts: the queue holds a byte sequence; `push`, `clear` and compaction.
use prisma_pglite_bridge.Prelude.{
  ℕ, suc, ◌+◌, ◌-◌, ◌≤◌, ◌<◌, ◌≡◌, refl, sym, ap, ◌∙◌, ◌==◌, leb, List, [], ◌∷◌, ◌++◌, length, drop,
  arith, All, All-append, All-drop, Bool-cases, inl, inr, concat, concat-append, length-append,
  drop-append, drop_all, length-drop, drop-drop, append-nil, subst, ◌*◌, ◌&&◌, false, drop-cons,
  List-cases, get_elem?, some,
}
use prisma_pglite_bridge.Duplex.Bytes.{Bytes}
use prisma_pglite_bridge.Duplex.FrontendBuffer.{
  FrontendMessageBuffer, empty_buffer, push, clear, compact_chunks, advance,
}

-- The chunks from the head on.
abbrev pub live : FrontendMessageBuffer → List Bytes
live b = drop b.head_index b.chunks

-- The bytes that wait: what a client of the buffer sees.
abbrev pub bytes : FrontendMessageBuffer → Bytes
bytes b = drop b.head_offset (concat (live b))

-- The head offset points at a byte.
abbrev pub Inside : List Bytes → ℕ → Type 0
Inside [] offset = offset ≡ 0
Inside (c ∷ cs) offset = offset < length c

pub record IsValid (b : FrontendMessageBuffer) : Type 0 where
  pub nonempty : All (λ c. 0 < length c) b.chunks
  pub index : b.head_index ≤ length b.chunks
  pub inside : Inside (live b) b.head_offset
  pub counted : b.total_length ≡ length (bytes b)

pub empty_buffer-IsValid : IsValid empty_buffer
unfolding empty_buffer
empty_buffer-IsValid = record { nonempty = tt; index = omega arith; inside = refl; counted = refl }

Inside-append :
    (cs : List Bytes) (c : Bytes) (o : ℕ) → 0 < length c → Inside cs o → Inside (cs ++ c ∷ []) o
Inside-append [] c o h k = omega arith
Inside-append (x ∷ cs) c o h k = k

Inside-le : (cs : List Bytes) (o : ℕ) → Inside cs o → o ≤ length (concat cs)
Inside-le [] o h = omega arith
Inside-le (c ∷ cs) o h = omega (arith, length-append c (concat cs))

module _ (b : FrontendMessageBuffer) (v : IsValid b) (chunk : Bytes) (h : 0 < length chunk) where
  abbrev pushed : FrontendMessageBuffer
  pushed = record b {
    chunks = b.chunks ++ chunk ∷ [];
    total_length = b.total_length + length chunk;
  }

  live-pushed : live pushed ≡ live b ++ chunk ∷ []
  live-pushed = drop-append b.head_index b.chunks (chunk ∷ []) v.index

  bytes-pushed : bytes pushed ≡ bytes b ++ chunk
  bytes-pushed =
      ap (λ cs. drop b.head_offset (concat cs)) live-pushed
      ∙ ap (drop b.head_offset) (concat-append (live b) (chunk ∷ []))
      ∙ drop-append b.head_offset (concat (live b)) (chunk ++ [])
          (Inside-le (live b) b.head_offset v.inside)
      ∙ ap (λ c. bytes b ++ c) (append-nil chunk)

  pushed-IsValid : IsValid pushed
  pushed-IsValid = record {
    nonempty = All-append _ b.chunks (chunk ∷ []) v.nonempty (h, tt);
    index = omega (arith, length-append b.chunks (chunk ∷ []), v.index);
    inside = rw live-pushed (Inside-append (live b) chunk b.head_offset h v.inside);
    counted = rw bytes-pushed (omega (arith, length-append (bytes b) chunk, v.counted));
  }

-- `push` appends its chunk to the waiting bytes, an empty chunk included, and keeps the queue valid.
pub push_lem :
    (b : FrontendMessageBuffer) (chunk : Bytes)
    → IsValid b
    → IsValid (push b chunk) × (bytes (push b chunk) ≡ bytes b ++ chunk)
unfolding push
push_lem b [] v = (v, sym (append-nil (bytes b)))
push_lem b (x ∷ xs) v =
    rw n0 (pushed-IsValid b v (x ∷ xs) (omega arith), bytes-pushed b v (x ∷ xs) (omega arith))
  where
    n0 : (suc (length xs) == 0) ≡ false
    n0 = ground arith

pub clear_lem : (b : FrontendMessageBuffer) → IsValid (clear b) × (bytes (clear b) ≡ [])
unfolding clear
clear_lem b = (record { nonempty = tt; index = omega arith; inside = refl; counted = refl }, refl)

-- Compaction renumbers the chunks and drops none that is live.
pub compact_chunks_lem :
    (b : FrontendMessageBuffer)
    → All (λ c. 0 < length c) b.chunks
    → b.head_index ≤ length b.chunks
    → let c = compact_chunks b in
      (live c ≡ live b)
      × (c.head_offset ≡ b.head_offset)
      × (c.total_length ≡ b.total_length)
      × (c.head_index ≤ length c.chunks)
      × All (λ c. 0 < length c) c.chunks
unfolding compact_chunks
compact_chunks_lem b a h = elim (Bool-cases (b.head_index == length b.chunks)) [
  | inl e ↦ rw e (sym (drop_all b.head_index b.chunks (ground arith)), refl, refl, omega arith, tt)
  | inr e ↦
      rw e (elim (Bool-cases (leb 32 b.head_index && leb (length b.chunks) (b.head_index * 2))) [
        | inl f ↦ rw f (refl, refl, refl, omega arith, All-drop _ b.head_index b.chunks a)
        | inr f ↦ rw f (refl, refl, refl, h, a)
      ])
]

Inside-zero : (cs : List Bytes) → All (λ c. 0 < length c) cs → Inside cs 0
Inside-zero [] a = refl
Inside-zero (c ∷ cs) a = a.0

-- Dropping a whole list in front of another.
drop-append_at : (n : ℕ) (xs ys : Bytes) → n ≡ length xs → drop n (xs ++ ys) ≡ ys
drop-append_at n xs ys h =
    drop-append n xs ys (omega arith) ∙ ap (λ l. l ++ ys) (drop_all n xs (omega arith))

-- What `advance` does to the head chunk `c`.
module _ (b : FrontendMessageBuffer) (v : IsValid b) (c : Bytes) (cs : List Bytes) (n : ℕ)
    (view : live b ≡ c ∷ cs) (fits : n ≤ length c - b.head_offset) where
  pub inside_head : b.head_offset < length c
  inside_head = subst (λ l. Inside l b.head_offset) view v.inside

  pub bytes_view : bytes b ≡ drop b.head_offset c ++ concat cs
  bytes_view =
      ap (λ l. drop b.head_offset (concat l)) view
      ∙ drop-append b.head_offset c (concat cs) (omega (arith, inside_head))

  left : n ≤ b.total_length
  left = omega (
    arith,
    v.counted,
    ap length bytes_view,
    length-append (drop b.head_offset c) (concat cs),
    length-drop b.head_offset c,
  )

  abbrev next_chunk : FrontendMessageBuffer
  next_chunk = record b {
    head_index = b.head_index + 1;
    head_offset = 0;
    total_length = b.total_length - n;
  }

  abbrev same_chunk : FrontendMessageBuffer
  same_chunk = record b { head_offset = b.head_offset + n; total_length = b.total_length - n }

  at :
      (get_elem? b.chunks b.head_index ≡ some c)
      × (drop (suc b.head_index) b.chunks ≡ cs)
      × (b.head_index < length b.chunks)
  at = drop-cons b.head_index b.chunks view

  live-next_chunk : live next_chunk ≡ cs
  live-next_chunk =
      let e : b.head_index + 1 ≡ suc b.head_index = omega arith in
      rw e (drop-cons b.head_index b.chunks view).1

  next-bytes : b.head_offset + n ≡ length c → bytes (compact_chunks next_chunk) ≡ drop n (bytes b)
  next-bytes full =
      let k = compact_chunks_lem next_chunk v.nonempty (omega (arith, at.2)) in
      ap (λ o. drop o (concat (live (compact_chunks next_chunk)))) k.1
      ∙ ap concat (k.0 ∙ live-next_chunk)
      ∙ sym (
          drop-append_at n (drop b.head_offset c) (concat cs)
            (omega (arith, length-drop b.head_offset c)))
      ∙ ap (drop n) (sym bytes_view)

  next-IsValid : b.head_offset + n ≡ length c → IsValid (compact_chunks next_chunk)
  next-IsValid full =
      let k = compact_chunks_lem next_chunk v.nonempty (omega (arith, at.2)) in
      record {
        nonempty = k.4;
        index = k.3;
        inside =
            rw (k.0, k.1, live-next_chunk)
              (Inside-zero cs
                (subst (All (λ c. 0 < length c)) view
                  (All-drop _ b.head_index b.chunks v.nonempty)).1);
        counted =
            omega (arith, k.2, ap length (next-bytes full), v.counted, length-drop n (bytes b));
      }

  same-bytes : bytes same_chunk ≡ drop n (bytes b)
  same-bytes = sym (drop-drop n b.head_offset (concat (live b)))

  same-IsValid : b.head_offset + n < length c → IsValid same_chunk
  same-IsValid more = record {
    nonempty = v.nonempty;
    index = v.index;
    inside = subst (λ l. Inside l (b.head_offset + n)) (sym view) more;
    counted = rw same-bytes (omega (arith, v.counted, length-drop n (bytes b)));
  }

  -- Taking `n` bytes of the head chunk drops them from the waiting bytes.
  pub advance_lem : IsValid (advance b c n) × (bytes (advance b c n) ≡ drop n (bytes b))
  unfolding advance
  advance_lem = elim (Bool-cases (b.head_offset + n == length c)) [
    | inl e ↦ rw e (next-IsValid (ground arith), next-bytes (ground arith))
    | inr e ↦ rw e (same-IsValid (ground (arith, inside_head)), same-bytes)
  ]

-- While bytes wait there is a head chunk, and it holds some of them.
pub head_lem :
    (b : FrontendMessageBuffer)
    → IsValid b
    → 0 < b.total_length
    → (c : Bytes) × (cs : List Bytes) × (live b ≡ c ∷ cs)
      × (get_elem? b.chunks b.head_index ≡ some c)
      × (b.head_offset < length c)
head_lem b v h = elim (List-cases (live b)) [
  | inl e ↦ absurd (
      omega (
        arith,
        v.counted,
        h,
        ap length
            (ap (λ l. drop b.head_offset (concat l)) e ∙ drop_all b.head_offset [] (omega arith)),
      ))
  | inr (c, cs, e) ↦ (
    c,
    cs,
    e,
    (drop-cons b.head_index b.chunks e).0,
    subst (λ l. Inside l b.head_offset) e v.inside,
  )
]
