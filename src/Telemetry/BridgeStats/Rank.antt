-- ===== src/Telemetry/BridgeStats/Rank.antt =====
-- Percentiles are nearest ranks (percentile and the sort in src/telemetry/bridge-stats.ts).
use prisma_pglite_bridge.Prelude.{
  subst, ℕ, zero, suc, ◌+◌, ◌-◌, ◌*◌, ◌/◌, ◌≤◌, ◌<◌, min, ◌≡◌, refl, sym, inl, inr, false, ltb, leb,
  ◌==◌, if◌then◌else◌, List, [], ◌∷◌, length, get_or, All, Bool-cases, leb→le, leb→gt, arith,
}
use native.Mathlib.Nat.{mul-le-mul_right}
use prisma_pglite_bridge.Telemetry.BridgeStats.{
  Percentage, p50, p95, p100, percent, insert, sort, rank, percentile,
}

-- How many numbers are at most v, and how many are less.
abbrev pub count_le : ℕ → List ℕ → ℕ
count_le v [] = 0
count_le v (x ∷ xs) = (if leb x v then 1 else 0) + count_le v xs

abbrev pub count_lt : ℕ → List ℕ → ℕ
count_lt v [] = 0
count_lt v (x ∷ xs) = (if ltb x v then 1 else 0) + count_lt v xs

abbrev AllAbove : ℕ → List ℕ → Type 0
AllAbove x ys = All (λ y. x ≤ y) ys

abbrev IsSorted : List ℕ → Type 0
IsSorted [] = Unit {0}
IsSorted (x ∷ xs) = AllAbove x xs × IsSorted xs

AllAbove-trans : (x y : ℕ) (ys : List ℕ) → x ≤ y → AllAbove y ys → AllAbove x ys
AllAbove-trans x y [] h a = tt
AllAbove-trans x y (z ∷ ys) h a = (omega (arith, h, a.0), AllAbove-trans x y ys h a.1)

AllAbove-insert : (x z : ℕ) (ys : List ℕ) → x ≤ z → AllAbove x ys → AllAbove x (insert z ys)
unfolding insert
AllAbove-insert x z [] h a = (h, tt)
AllAbove-insert x z (y ∷ ys) h a = elim (Bool-cases (leb z y)) [
  | inl l ↦ rw l (h, a)
  | inr g ↦ rw g (a.0, AllAbove-insert x z ys h a.1)
]

insert-IsSorted : (x : ℕ) (ys : List ℕ) → IsSorted ys → IsSorted (insert x ys)
unfolding insert
insert-IsSorted x [] s = (tt, tt)
insert-IsSorted x (y ∷ ys) s = elim (Bool-cases (leb x y)) [
  | inl l ↦ rw l ((leb→le x y l, AllAbove-trans x y ys (leb→le x y l) s.0), s)
  | inr g ↦
      rw g (AllAbove-insert y x ys (omega (arith, leb→gt x y g)) s.0, insert-IsSorted x ys s.1)
]

sort-IsSorted : (xs : List ℕ) → IsSorted (sort xs)
unfolding sort
sort-IsSorted [] = tt
sort-IsSorted (x ∷ xs) = insert-IsSorted x (sort xs) (sort-IsSorted xs)

count_le-insert : (v x : ℕ) (ys : List ℕ) → count_le v (insert x ys) ≡ count_le v (x ∷ ys)
unfolding insert
count_le-insert v x [] = refl
count_le-insert v x (y ∷ ys) = ground (arith, count_le-insert v x ys)

count_lt-insert : (v x : ℕ) (ys : List ℕ) → count_lt v (insert x ys) ≡ count_lt v (x ∷ ys)
unfolding insert
count_lt-insert v x [] = refl
count_lt-insert v x (y ∷ ys) = ground (arith, count_lt-insert v x ys)

length-insert : (x : ℕ) (ys : List ℕ) → length (insert x ys) ≡ suc (length ys)
unfolding insert
length-insert x [] = refl
length-insert x (y ∷ ys) = ground (arith, length-insert x ys)

-- Sorting keeps every count.
sort-counts :
    (v : ℕ) (xs : List ℕ)
    → (count_le v (sort xs) ≡ count_le v xs)
      × (count_lt v (sort xs) ≡ count_lt v xs)
      × (length (sort xs) ≡ length xs)
unfolding sort
sort-counts v [] = (refl, refl, refl)
sort-counts v (x ∷ xs) =
    let k = sort-counts v xs in
    (
      omega (arith, count_le-insert v x (sort xs), k.0),
      omega (arith, count_lt-insert v x (sort xs), k.1),
      omega (arith, length-insert x (sort xs), k.2),
    )

count_lt_above : (v : ℕ) (xs : List ℕ) → AllAbove v xs → count_lt v xs ≡ 0
count_lt_above v [] a = refl
count_lt_above v (x ∷ xs) a = let k = count_lt_above v xs a.1 in let h = a.0 in ground (arith, k, h)

AllAbove-get : (v i : ℕ) (xs : List ℕ) → AllAbove v xs → i < length xs → v ≤ get_or xs i 0
AllAbove-get v i [] a h = elim h [ ]
AllAbove-get v zero (x ∷ xs) a h = a.0
AllAbove-get v (suc i) (x ∷ xs) a h = AllAbove-get v i xs a.1 (omega arith)

-- At place i of a sorted list: more than i numbers are at most the one there, at most i are less.
sorted-rank :
    (i : ℕ) (xs : List ℕ)
    → IsSorted xs
    → i < length xs
    → (i < count_le (get_or xs i 0) xs) × (count_lt (get_or xs i 0) xs ≤ i)
sorted-rank i [] s h = elim h [ ]
sorted-rank zero (x ∷ xs) s h = let k = count_lt_above x xs s.0 in (ground arith, ground (arith, k))
sorted-rank (suc i) (x ∷ xs) s h =
    let v = get_or xs i 0 in
    let k = sorted-rank i xs s.1 (omega arith) in
    let a : x ≤ v = AllAbove-get x i xs s.0 (omega arith) in
    (ground (arith, k, a), ground (arith, k, a))

ceiling-Rank :
    (n m a b : ℕ)
    → 0 < m
    → m ≤ 100 * n
    → min (n - 1) ((m + 99) / 100 - 1) < a
    → b ≤ min (n - 1) ((m + 99) / 100 - 1)
    → (m ≤ 100 * a) × (100 * b < m)
ceiling-Rank n m a b h k la lb = (ground arith, ground arith)

percentile_some :
    (x : ℕ) (p : Percentage) (xs : List ℕ)
    → percentile (x ∷ xs) p ≡ get_or (x ∷ xs) (rank (length (x ∷ xs)) p) 0
unfolding percentile
percentile_some x p xs = let e : (length (x ∷ xs) == 0) ≡ false = ground arith in rw e

percent_bounds : (p : Percentage) → (1 ≤ percent p) × (percent p ≤ 100)
percent_bounds p50 = (omega arith, omega arith)
percent_bounds p95 = (omega arith, omega arith)
percent_bounds p100 = (omega arith, omega arith)

percentile-rank :
    (p : Percentage) (ys : List ℕ)
    → IsSorted ys
    → 0 < length ys
    → (percent p * length ys ≤ 100 * count_le (percentile ys p) ys)
      × (100 * count_lt (percentile ys p) ys < percent p * length ys)
percentile-rank p [] s h = elim h [ ]
percentile-rank p (x ∷ xs) s h =
    let n = length (x ∷ xs) in
    let v = percentile (x ∷ xs) p in
    let (l, u) = percent_bounds p in
    let e : get_or (x ∷ xs) (rank n p) 0 ≡ v = sym (percentile_some x p xs) in
    let k : (rank n p < count_le v (x ∷ xs)) × (count_lt v (x ∷ xs) ≤ rank n p) =
      subst (λ w. (rank n p < count_le w (x ∷ xs)) × (count_lt w (x ∷ xs) ≤ rank n p)) e
        (sorted-rank (rank n p) (x ∷ xs) s (omega arith)) in
    let low : 1 * n ≤ percent p * n = mul-le-mul_right {m = 1} {n = percent p} n l in
    ceiling-Rank n (percent p * n) (count_le v (x ∷ xs)) (count_lt v (x ∷ xs)) (omega (arith, low))
      (mul-le-mul_right n u) k.0 k.1

-- A percentile of some numbers, of those that the code asks for, is their nearest rank: with p the
-- percentage, p in a hundred of them, or more, are at most it, and fewer than p in a hundred are
-- less than it.
pub percentile-sort :
    (p : Percentage) (xs : List ℕ)
    → 0 < length xs
    → (percent p * length xs ≤ 100 * count_le (percentile (sort xs) p) xs)
      × (100 * count_lt (percentile (sort xs) p) xs < percent p * length xs)
percentile-sort p xs h =
    let c = sort-counts (percentile (sort xs) p) xs in
    rw (sym c.0, sym c.1, sym c.2)
      (percentile-rank p (sort xs) (sort-IsSorted xs) (omega (arith, c.2)))
