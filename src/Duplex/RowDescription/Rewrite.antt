-- ===== src/Duplex/RowDescription/Rewrite.antt =====
-- src/duplex/row-description.ts: what the rewrite changes, and what it leaves.
use prisma_pglite_bridge.Prelude.{
  ℕ, zero, suc, ◌+◌, ◌-◌, ◌≤◌, ◌<◌, ◌≡◌, refl, sym, ap, ◌∙◌, ◌⊎◌, ltb, true, false, ◌==◌, not, ◌&&◌,
  if◌then◌else◌, length, Bool-cases, inl, inr, arith, set, length-set, get_or-set_self,
  get_or-set_ne, ltb→ge,
}
use prisma_pglite_bridge.Duplex.Bytes.{Bytes, byte_at, u16_at, u32_at}
use prisma_pglite_bridge.Duplex.RowDescription.{
  skip_name, is_catalog_char, needs_rewrite_from, row_description_needs_rewrite, rewrite_from,
  rewrite_row_description_in_place, field_start, widen,
}
use prisma_pglite_bridge.Duplex.RowDescription.Gate.{needs_rewrite_from_step, needs_rewrite_false}

length-widen : (buf : Bytes) (p : ℕ) → length (widen buf p) ≡ length buf
unfolding widen
length-widen buf p = simp length-set

widen_other :
    (buf : Bytes) (p i : ℕ) → (i < p) ⊎ (p + 6 ≤ i) → byte_at (widen buf p) i ≡ byte_at buf i
unfolding widen
widen_other buf p i h =
    get_or-set_ne _ (p + 5) i 255 0 (omega arith)
    ∙ get_or-set_ne _ (p + 4) i 255 0 (omega arith)
    ∙ get_or-set_ne _ (p + 3) i 25 0 (omega arith)
    ∙ get_or-set_ne _ (p + 2) i 0 0 (omega arith)
    ∙ get_or-set_ne _ (p + 1) i 0 0 (omega arith)
    ∙ get_or-set_ne buf p i 0 0 (omega arith)

-- A widened field has type oid 25.
u32_at-widen : (buf : Bytes) (p : ℕ) → p + 6 ≤ length buf → u32_at (widen buf p) p ≡ 25
unfolding widen
u32_at-widen buf p h = omega (arith, b0, b1, b2, b3)
  where
    w0 : Bytes
    w0 = set buf p 0

    w1 : Bytes
    w1 = set w0 (p + 1) 0

    w2 : Bytes
    w2 = set w1 (p + 2) 0

    w3 : Bytes
    w3 = set w2 (p + 3) 25

    w4 : Bytes
    w4 = set w3 (p + 4) 255

    b3 : byte_at (set w4 (p + 5) 255) (p + 3) ≡ 25
    b3 =
        get_or-set_ne w4 (p + 5) (p + 3) 255 0 (omega arith)
        ∙ get_or-set_ne w3 (p + 4) (p + 3) 255 0 (omega arith)
        ∙ get_or-set_self w2 (p + 3) 25 0 (rw (length-set, length-set, length-set) (omega arith))

    b2 : byte_at (set w4 (p + 5) 255) (p + 2) ≡ 0
    b2 =
        get_or-set_ne w4 (p + 5) (p + 2) 255 0 (omega arith)
        ∙ get_or-set_ne w3 (p + 4) (p + 2) 255 0 (omega arith)
        ∙ get_or-set_ne w2 (p + 3) (p + 2) 25 0 (omega arith)
        ∙ get_or-set_self w1 (p + 2) 0 0 (rw (length-set, length-set) (omega arith))

    b1 : byte_at (set w4 (p + 5) 255) (p + 1) ≡ 0
    b1 =
        get_or-set_ne w4 (p + 5) (p + 1) 255 0 (omega arith)
        ∙ get_or-set_ne w3 (p + 4) (p + 1) 255 0 (omega arith)
        ∙ get_or-set_ne w2 (p + 3) (p + 1) 25 0 (omega arith)
        ∙ get_or-set_ne w1 (p + 2) (p + 1) 0 0 (omega arith)
        ∙ get_or-set_self w0 (p + 1) 0 0 (rw length-set (omega arith))

    b0 : byte_at (set w4 (p + 5) 255) p ≡ 0
    b0 =
        get_or-set_ne w4 (p + 5) p 255 0 (omega arith)
        ∙ get_or-set_ne w3 (p + 4) p 255 0 (omega arith)
        ∙ get_or-set_ne w2 (p + 3) p 25 0 (omega arith)
        ∙ get_or-set_ne w1 (p + 2) p 0 0 (omega arith)
        ∙ get_or-set_ne w0 (p + 1) p 0 0 (omega arith)
        ∙ get_or-set_self buf p 0 0 (omega arith)

-- The bytes after one field has been visited.
abbrev pub visit : Bytes → ℕ → Bytes
visit buf q = if is_catalog_char buf q then widen buf (q + 6) else buf

length-visit : (buf : Bytes) (q : ℕ) → length (visit buf q) ≡ length buf
length-visit buf q = ground (arith, length-widen buf (q + 6))

module _ (n : ℕ) (buf : Bytes) (p q : ℕ) (e : field_start buf (length buf) p ≡ q) where
  rewrite_stop : ltb (length buf) (q + 18) ≡ true → rewrite_from (suc n) buf p ≡ buf
  unfolding rewrite_from
  rewrite_stop h = rw e (rw h)

  pub rewrite_go :
      ltb (length buf) (q + 18) ≡ false
      → rewrite_from (suc n) buf p ≡ rewrite_from n (visit buf q) (q + 18)
  unfolding rewrite_from
  rewrite_go h = rw e (rw h)

length-rewrite_from : (n : ℕ) (buf : Bytes) (p : ℕ) → length (rewrite_from n buf p) ≡ length buf
length-rewrite_from zero buf p = unfold rewrite_from in refl
length-rewrite_from (suc n) buf p =
    let q = field_start buf (length buf) p in
    let ih = length-rewrite_from n (visit buf q) (q + 18) in
    elim (Bool-cases (ltb (length buf) (q + 18))) [
      | inl h ↦ ap length (rewrite_stop n buf p q refl h)
      | inr h ↦ ap length (rewrite_go n buf p q refl h) ∙ ih ∙ length-visit buf q
    ]

-- The rewrite keeps the frame's length.
pub length-rewrite : (buf : Bytes) → length (rewrite_row_description_in_place buf) ≡ length buf
unfolding rewrite_row_description_in_place
length-rewrite buf = ground (arith, length-rewrite_from (u16_at buf 5) buf 7)

le-skip_name : (k : ℕ) (buf : Bytes) (end p : ℕ) → p ≤ skip_name k buf end p
unfolding skip_name
le-skip_name zero buf end p = omega arith
le-skip_name (suc k) buf end p = ground (arith, le-skip_name k buf end (p + 1))

visit_before : (buf : Bytes) (q i : ℕ) → i < q + 6 → byte_at (visit buf q) i ≡ byte_at buf i
visit_before buf q i h = elim (Bool-cases (is_catalog_char buf q)) [
  | inl e ↦ rw e (widen_other buf (q + 6) i (inl h))
  | inr e ↦ rw e
]

-- Nothing before place `p` changes.
rewrite_from_before :
    (n : ℕ) (buf : Bytes) (p i : ℕ) → i < p → byte_at (rewrite_from n buf p) i ≡ byte_at buf i
rewrite_from_before zero buf p i h = unfold rewrite_from in refl
rewrite_from_before (suc n) buf p i h =
    let q = field_start buf (length buf) p in
    let le = le-skip_name (length buf - p) buf (length buf) p in
    let ih = rewrite_from_before n (visit buf q) (q + 18) i (omega arith) in
    elim (Bool-cases (ltb (length buf) (q + 18))) [
      | inl s ↦ ap (λ b. byte_at b i) (rewrite_stop n buf p q refl s)
      | inr g ↦
          ap (λ b. byte_at b i) (rewrite_go n buf p q refl g)
          ∙ ih
          ∙ visit_before buf q i (omega (arith, le))
    ]

-- A name is found at the same place in buffers that agree up to its end.
skip_name_agree :
    (k : ℕ) (xs ys : Bytes) (end p : ℕ)
    → ((i : ℕ) → i ≤ skip_name k xs end p → byte_at ys i ≡ byte_at xs i)
    → skip_name k ys end p ≡ skip_name k xs end p
unfolding skip_name
skip_name_agree zero xs ys end p h = refl
skip_name_agree (suc k) xs ys end p h =
    rw (h p (le-skip_name (suc k) xs end p))
      (elim (Bool-cases (ltb p end && not (byte_at xs p == 0))) [
        | inl e ↦ rw e (skip_name_agree k xs ys end (p + 1) (λ i l. h i (rw e l)))
        | inr e ↦ rw e
      ])

u32_at_agree :
    (xs ys : Bytes) (i : ℕ)
    → ((j : ℕ) → j < i + 4 → byte_at ys j ≡ byte_at xs j)
    → u32_at ys i ≡ u32_at xs i
u32_at_agree xs ys i h = omega (
  arith,
  h i (omega arith),
  h (i + 1) (omega arith),
  h (i + 2) (omega arith),
  h (i + 3) (omega arith),
)

is_catalog_char_agree :
    (xs ys : Bytes) (q : ℕ)
    → ((j : ℕ) → j < q + 18 → byte_at ys j ≡ byte_at xs j)
    → is_catalog_char ys q ≡ is_catalog_char xs q
unfolding is_catalog_char
is_catalog_char_agree xs ys q h = rw (
  u32_at_agree xs ys q (λ j l. h j (omega arith)),
  u32_at_agree xs ys (q + 6) (λ j l. h j (omega arith)),
)

widened_field :
    (buf : Bytes) (q : ℕ) → q + 18 ≤ length buf → is_catalog_char (widen buf (q + 6)) q ≡ false
unfolding is_catalog_char
widened_field buf q h = rw (u32_at-widen buf (q + 6) (omega arith))

-- A visited field needs no rewrite.
visited_field :
    (buf : Bytes) (q : ℕ) → q + 18 ≤ length buf → is_catalog_char (visit buf q) q ≡ false
visited_field buf q h = elim (Bool-cases (is_catalog_char buf q)) [
  | inl e ↦ rw e (widened_field buf q h)
  | inr e ↦ rw e e
]

needs_stop :
    (n : ℕ) (buf : Bytes) (end p q : ℕ)
    → field_start buf end p ≡ q
    → ltb end (q + 18) ≡ true
    → needs_rewrite_from (suc n) buf end p ≡ false
needs_stop n buf end p q e h = needs_rewrite_from_step n buf end p q e ∙ rw h

needs_go :
    (n : ℕ) (buf : Bytes) (end p q : ℕ)
    → field_start buf end p ≡ q
    → ltb end (q + 18) ≡ false
    → is_catalog_char buf q ≡ false
    → needs_rewrite_from n buf end (q + 18) ≡ false
    → needs_rewrite_from (suc n) buf end p ≡ false
needs_go n buf end p q e h f r = needs_rewrite_from_step n buf end p q e ∙ rw (h, f) r

rewritten_from :
    (n : ℕ) (buf : Bytes) (p : ℕ)
    → needs_rewrite_from n (rewrite_from n buf p) (length buf) p ≡ false
rewritten_from zero buf p = unfold needs_rewrite_from in refl
rewritten_from (suc n) buf p =
    let q = field_start buf (length buf) p in
    let out = rewrite_from n (visit buf q) (q + 18) in
    let ih = rewritten_from n (visit buf q) (q + 18) in
    elim (Bool-cases (ltb (length buf) (q + 18))) [
      | inl s ↦ rw (rewrite_stop n buf p q refl s) (needs_stop n buf (length buf) p q refl s)
      | inr g ↦
          let room : q + 18 ≤ length buf = ltb→ge (length buf) (q + 18) g in
          let same = rewrite_from_before n (visit buf q) (q + 18) in
          rw (rewrite_go n buf p q refl g) (
            needs_go n out (length buf) p q
              (ap (λ k. k + 1)
                (skip_name_agree (length buf - p) buf out (length buf) p
                  λ i l. same i (omega arith) ∙ visit_before buf q i (omega arith)))
              g (is_catalog_char_agree (visit buf q) out q same ∙ visited_field buf q room)
              (ap (λ k. needs_rewrite_from n out k (q + 18)) (sym (length-visit buf q)) ∙ ih))
    ]

pub rewrite_long :
    (buf : Bytes)
    → ltb (length buf) 7 ≡ false
    → rewrite_row_description_in_place buf ≡ rewrite_from (u16_at buf 5) buf 7
unfolding rewrite_row_description_in_place
rewrite_long buf e = rw e

header_stays :
    (buf : Bytes) (i : ℕ) → i < 7 → byte_at (rewrite_row_description_in_place buf) i ≡ byte_at buf i
unfolding rewrite_row_description_in_place
header_stays buf i h = ground (arith, rewrite_from_before (u16_at buf 5) buf 7 i)

-- The rewrite leaves no field to rewrite: the test is false of its result.
pub needs_rewrite-rewrite :
    (buf : Bytes)
    → let out = rewrite_row_description_in_place buf in
      row_description_needs_rewrite out 0 (length out) ≡ false
unfolding row_description_needs_rewrite
needs_rewrite-rewrite buf =
    let z : length buf - 0 ≡ length buf = omega arith in
    rw (length-rewrite buf, z, header_stays buf 5 (omega arith), header_stays buf 6 (omega arith))
      (elim (Bool-cases (ltb (length buf) 7)) [
        | inl e ↦ rw e
        | inr e ↦ rw e (rw (rewrite_long buf e) (rewritten_from (u16_at buf 5) buf 7))
      ])

-- So a second rewrite changes nothing.
pub rewrite-rewrite :
    (buf : Bytes)
    → rewrite_row_description_in_place (rewrite_row_description_in_place buf)
      ≡ rewrite_row_description_in_place buf
rewrite-rewrite buf = needs_rewrite_false _ (needs_rewrite-rewrite buf)
