-- ===== src/Schema/Migrations/LineEnds.antt =====
-- The line ends of a script (checksumMatches in src/schema/migrations.ts).
use prisma_pglite_bridge.Prelude.{
  ℕ, ==→eq, ◌==◌, ◌&&◌, ◌≡◌, refl, sym, ap, ◌∙◌, inl, inr, true, false, [], ◌∷◌, ◌++◌, Bool-cases,
  arith,
}
use prisma_pglite_bridge.Duplex.CopyIn.{Text}
use prisma_pglite_bridge.Schema.Migrations.Files.{crlf_to_lf, lf_to_crlf}

-- No line end begins with c before the text.
abbrev pub IsInside : ℕ → Text → Type 0
IsInside c [] = (c == 0x0a) ≡ false
IsInside c (d ∷ x) = ((c == 0x0a) ≡ false) × ((c == 0x0d && d == 0x0a) ≡ false)

-- The second text is the first with each line end, a CR LF or an LF by itself, written as `ending`.
pub data IsEnded (ending : Text) : Text → Text → Type 0 where
  empty : IsEnded ending [] []
  cr_lf :
      (c d : ℕ) (x y z : Text)
      → (c == 0x0d && d == 0x0a) ≡ true
      → z ≡ ending ++ y
      → IsEnded ending x y
      → IsEnded ending (c ∷ d ∷ x) z
  lf :
      (c : ℕ) (x y z : Text)
      → (c == 0x0a) ≡ true
      → z ≡ ending ++ y
      → IsEnded ending x y
      → IsEnded ending (c ∷ x) z
  inside : (c : ℕ) (x y : Text) → IsInside c x → IsEnded ending x y → IsEnded ending (c ∷ x) (c ∷ y)

pub crlf_to_lf-IsEnded : (x : Text) → IsEnded (0x0a ∷ []) x (crlf_to_lf x)
unfolding crlf_to_lf
crlf_to_lf-IsEnded [] = empty
crlf_to_lf-IsEnded (c ∷ []) = elim (Bool-cases (c == 0x0a)) [
  | inl y ↦ lf c [] [] (c ∷ []) y (ap (λ k. k ∷ []) (==→eq c 0x0a y)) empty
  | inr n ↦ inside c [] [] n empty
]
crlf_to_lf-IsEnded (c ∷ d ∷ x) = elim (Bool-cases (c == 0x0d && d == 0x0a)) [
  | inl y ↦
      rw (y, crlf_to_lf)
        (cr_lf c d x (crlf_to_lf x) (0x0a ∷ crlf_to_lf x) y refl (crlf_to_lf-IsEnded x))
  | inr n ↦ elim (Bool-cases (c == 0x0a)) [
    | inl y ↦
        rw (n, crlf_to_lf)
          (lf c (d ∷ x) (crlf_to_lf (d ∷ x)) (c ∷ crlf_to_lf (d ∷ x)) y
            (ap (λ k. k ∷ crlf_to_lf (d ∷ x)) (==→eq c 0x0a y)) (crlf_to_lf-IsEnded (d ∷ x)))
    | inr m ↦
        rw (n, crlf_to_lf)
          (inside c (d ∷ x) (crlf_to_lf (d ∷ x)) (m, n) (crlf_to_lf-IsEnded (d ∷ x)))
  ]
]

pub lf_to_crlf-IsEnded : (x : Text) → IsEnded (0x0d ∷ 0x0a ∷ []) x (lf_to_crlf x)
unfolding lf_to_crlf
lf_to_crlf-IsEnded [] = empty
lf_to_crlf-IsEnded (c ∷ []) = elim (Bool-cases (c == 0x0a)) [
  | inl y ↦ rw y (lf c [] [] (0x0d ∷ 0x0a ∷ []) y refl empty)
  | inr n ↦ rw n (inside c [] [] n empty)
]
lf_to_crlf-IsEnded (c ∷ d ∷ x) = elim (Bool-cases (c == 0x0d && d == 0x0a)) [
  | inl y ↦
      rw (y, lf_to_crlf)
        (cr_lf c d x (lf_to_crlf x) (0x0d ∷ 0x0a ∷ lf_to_crlf x) y refl (lf_to_crlf-IsEnded x))
  | inr n ↦ elim (Bool-cases (c == 0x0a)) [
    | inl y ↦
        rw (n, lf_to_crlf, y)
          (lf c (d ∷ x) (lf_to_crlf (d ∷ x)) (0x0d ∷ 0x0a ∷ lf_to_crlf (d ∷ x)) y refl
            (lf_to_crlf-IsEnded (d ∷ x)))
    | inr m ↦
        rw (n, lf_to_crlf, m)
          (inside c (d ∷ x) (lf_to_crlf (d ∷ x)) (m, n) (lf_to_crlf-IsEnded (d ∷ x)))
  ]
]

both_not : (c d : ℕ) → (c == 0x0d && d == 0x0a) ≡ true → (c == 0x0a) ≡ false
both_not c d h = ground arith

lf_first : (c d : ℕ) → (c == 0x0a) ≡ true → (c == 0x0d && d == 0x0a) ≡ false
lf_first c d h = ground arith

-- There is one such text, for any line end.
pub IsEnded-eq : (ending x y z : Text) → IsEnded ending x y → IsEnded ending x z → y ≡ z
IsEnded-eq ending x y z empty empty = refl
IsEnded-eq ending x y z (cr_lf c d x' y' _ e f g) (cr_lf _ _ _ y'' _ e' f' g') =
    f ∙ ap (λ l. ending ++ l) (IsEnded-eq ending x' y' y'' g g') ∙ sym f'
IsEnded-eq ending x y z (cr_lf c d x' y' _ e f g) (lf _ _ y'' _ e' f' g') =
    absurd (cc (both_not c d e, e'))
IsEnded-eq ending x y z (cr_lf c d x' y' _ e f g) (inside _ _ y'' i g') = absurd (cc (i.1, e))
IsEnded-eq ending x y z (lf _ _ y' _ e f g) (cr_lf c d _ y'' _ e' f' g') =
    absurd (cc (both_not c d e', e))
IsEnded-eq ending x y z (lf c x' y' _ e f g) (lf _ _ y'' _ e' f' g') =
    f ∙ ap (λ l. ending ++ l) (IsEnded-eq ending x' y' y'' g g') ∙ sym f'
IsEnded-eq ending x y z (lf c [] y' _ e f g) (inside _ _ y'' i g') = absurd (cc (i, e))
IsEnded-eq ending x y z (lf c (d ∷ x') y' _ e f g) (inside _ _ y'' i g') = absurd (cc (i.0, e))
IsEnded-eq ending x y z (inside _ _ y' i g) (cr_lf c d _ y'' _ e' f' g') = absurd (cc (i.1, e'))
IsEnded-eq ending x y z (inside c [] y' i g) (lf _ _ y'' _ e' f' g') = absurd (cc (i, e'))
IsEnded-eq ending x y z (inside c (d ∷ x') y' i g) (lf _ _ y'' _ e' f' g') = absurd (cc (i.0, e'))
IsEnded-eq ending x y z (inside c x' y' i g) (inside _ _ y'' i' g') =
    ap (◌∷◌ c) (IsEnded-eq ending x' y' y'' g g')
