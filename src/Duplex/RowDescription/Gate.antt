-- ===== src/Duplex/RowDescription/Gate.antt =====
-- src/duplex/row-description.ts: the test that saves a frame its copy.
use native.Mathlib.Nat.{add_assoc}
use prisma_pglite_bridge.Prelude.{
  ℕ, zero, suc, ◌+◌, ◌-◌, ◌≤◌, ◌<◌, ◌≡◌, refl, sym, ap, ◌∙◌, ltb, true, false, if◌then◌else◌,
  length, Bool-cases, inl, inr, arith, get_or-drop, get_or-take, ltb→ge, length-take, length-drop,
  drop,
}
use prisma_pglite_bridge.Duplex.Bytes.{Bytes, byte_at, u16_at, u32_at, subarray}
use prisma_pglite_bridge.Duplex.RowDescription.{
  skip_name, is_catalog_char, needs_rewrite_from, row_description_needs_rewrite, rewrite_from,
  rewrite_row_description_in_place, field_start,
}

needs-rewrite_from :
    (n : ℕ) (buf : Bytes) (p : ℕ)
    → needs_rewrite_from n buf (length buf) p ≡ false
    → rewrite_from n buf p ≡ buf
unfolding needs_rewrite_from rewrite_from
needs-rewrite_from zero buf p h = refl
needs-rewrite_from (suc n) buf p h =
    ground (arith, needs-rewrite_from n buf (field_start buf (length buf) p + 18))

-- A frame that the test passes over would be left as it is by the rewrite.
pub needs_rewrite_false :
    (buf : Bytes)
    → row_description_needs_rewrite buf 0 (length buf) ≡ false
    → rewrite_row_description_in_place buf ≡ buf
unfolding row_description_needs_rewrite rewrite_row_description_in_place
needs_rewrite_false buf h = ground (arith, needs-rewrite_from (u16_at buf 5) buf 7)

pub needs_rewrite_from_step :
    (n : ℕ) (buf : Bytes) (end p q : ℕ)
    → field_start buf end p ≡ q
    → needs_rewrite_from (suc n) buf end p ≡ (
        if ltb end (q + 18)
        then false
        else if is_catalog_char buf q
        then true
        else needs_rewrite_from n buf end (q + 18))
unfolding needs_rewrite_from
needs_rewrite_from_step n buf end p q e = rw (← e)

-- A frame inside a chunk.
module _ (buf : Bytes) (start end : ℕ) (ordered : start ≤ end) (inside : end ≤ length buf) where
  abbrev frame : Bytes
  frame = subarray buf start end

  byte_at-frame : (i : ℕ) → i < end - start → byte_at frame i ≡ byte_at buf (start + i)
  byte_at-frame i h = get_or-take (end - start) i _ 0 h ∙ get_or-drop start i buf 0

  u32_at-frame : (i : ℕ) → i + 4 ≤ end - start → u32_at frame i ≡ u32_at buf (start + i)
  u32_at-frame i h = omega (
    arith,
    byte_at-frame i (omega arith),
    byte_at-frame (i + 1) (omega arith),
    byte_at-frame (i + 2) (omega arith),
    byte_at-frame (i + 3) (omega arith),
    ap (byte_at buf) (add_assoc start i 1),
    ap (byte_at buf) (add_assoc start i 2),
    ap (byte_at buf) (add_assoc start i 3),
  )

  skip_name-frame :
      (k p : ℕ) → start + skip_name k frame (end - start) p ≡ skip_name k buf end (start + p)
  unfolding skip_name
  skip_name-frame zero p = refl
  skip_name-frame (suc k) p =
      let e : start + p + 1 ≡ start + (p + 1) = omega arith in
      rw e (ground (arith, skip_name-frame k (p + 1), byte_at-frame p))

  field_start-frame :
      (p : ℕ) → start + field_start frame (end - start) p ≡ field_start buf end (start + p)
  field_start-frame p =
      let e : end - start - p ≡ end - (start + p) = omega arith in
      rw e (omega (arith, skip_name-frame (end - (start + p)) p))

  is_catalog_char-frame :
      (q : ℕ) → q + 18 ≤ end - start → is_catalog_char frame q ≡ is_catalog_char buf (start + q)
  unfolding is_catalog_char
  is_catalog_char-frame q h =
      let e : start + (q + 6) ≡ start + q + 6 = omega arith in
      rw (u32_at-frame q (omega arith), u32_at-frame (q + 6) (omega arith), e)

  -- One field, given that the tests agree on the fields behind it.
  tests_agree :
      (n q : ℕ)
      → needs_rewrite_from n frame (end - start) (q + 18)
        ≡ needs_rewrite_from n buf end (start + q + 18)
      → (if ltb (end - start) (q + 18)
          then false
          else if is_catalog_char frame q
          then true
          else needs_rewrite_from n frame (end - start) (q + 18))
        ≡ (if ltb end (start + q + 18)
            then false
            else if is_catalog_char buf (start + q)
            then true
            else needs_rewrite_from n buf end (start + q + 18))
  tests_agree n q ih = ground (arith, is_catalog_char-frame q)

  needs_rewrite_from-frame :
      (n p : ℕ)
      → needs_rewrite_from n frame (end - start) p ≡ needs_rewrite_from n buf end (start + p)
  needs_rewrite_from-frame zero p = unfold needs_rewrite_from in refl
  needs_rewrite_from-frame (suc n) p =
      let q = field_start frame (end - start) p in
      let e : start + (q + 18) ≡ start + q + 18 = omega arith in
      needs_rewrite_from_step n frame (end - start) p q refl
      ∙ tests_agree n q (needs_rewrite_from-frame n (q + 18) ∙ ap (needs_rewrite_from n buf end) e)
      ∙ sym (needs_rewrite_from_step n buf end (start + p) (start + q) (sym (field_start-frame p)))

-- The test on a frame inside a chunk is the test on the frame's own bytes.
pub needs_rewrite-subarray :
    (buf : Bytes) (start end : ℕ)
    → start ≤ end
    → end ≤ length buf
    → row_description_needs_rewrite buf start end
      ≡ row_description_needs_rewrite (subarray buf start end) 0 (length (subarray buf start end))
unfolding row_description_needs_rewrite
needs_rewrite-subarray buf start end h k =
    let m : length (subarray buf start end) ≡ end - start =
      omega (arith, length-take (end - start) (drop start buf), length-drop start buf) in
    let z : end - start - 0 ≡ end - start = omega arith in
    let e : start + 5 + 1 ≡ start + 6 = omega arith in
    rw (m, z)
      (elim (Bool-cases (ltb (end - start) 7)) [
        | inl short ↦ rw short
        | inr long ↦
            let l : 7 ≤ end - start = ltb→ge (end - start) 7 long in
            rw
              (
                long,
                e,
                byte_at-frame buf start end h k 5 (omega arith),
                byte_at-frame buf start end h k 6 (omega arith),
              )
              (sym (needs_rewrite_from-frame buf start end h k _ 7))
      ])
