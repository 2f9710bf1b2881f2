-- ===== src/Utils/StatementNames/Names.antt =====
-- src/utils/statement-names.ts: which statement a name stands for, and how many are kept.
use prisma_pglite_bridge.Prelude.{
  ℕ, ◌+◌, ◌≤◌, ◌<◌, ltb, leb, ◌==◌, not, if◌then◌else◌, Bool, true, false, Option, none, some, List,
  [], ◌∷◌, length, All, All-append, ◌≡◌, refl, ap, ◌∙◌, subst, inl, inr, arith, Bool-cases,
  Option-cases,
}
use prisma_pglite_bridge.Duplex.CopyIn.{Text, same}
use prisma_pglite_bridge.Utils.StatementNames.{
  Entries, Generator, get, delete, drop_oldest, count_usage, promote, name_at, name_of, issued,
  is_cacheable, includes, count_after,
}

same-eq : (xs ys : Text) → same xs ys ≡ true → xs ≡ ys
same-eq [] [] e = refl
same-eq [] (y ∷ ys) e = cc
same-eq (x ∷ xs) [] e = cc
same-eq (x ∷ xs) (y ∷ ys) e =
    let h : (x == y) ≡ true = ground arith in
    let t : same xs ys ≡ true = ground arith in
    let k : x ≡ y = ground arith in ap (λ z. z ∷ xs) k ∙ ap (◌∷◌ y) (same-eq xs ys t)

module _ {κ} (P : Text × ℕ → Type κ) where
  All-delete : (sql : Text) (es : Entries) → All P es → All P (delete sql es)
  unfolding delete
  All-delete sql [] h = h
  All-delete sql ((k, v) ∷ es) h = elim (Bool-cases (same k sql)) [
    | inl e ↦ rw e h.1
    | inr e ↦ rw e (h.0, All-delete sql es h.1)
  ]

  All-drop_oldest : (es : Entries) → All P es → All P (drop_oldest es)
  All-drop_oldest [] h = h
  All-drop_oldest (e ∷ es) h = h.1

  All-get : (sql : Text) (es : Entries) (n : ℕ) → get sql es ≡ some n → All P es → P (sql, n)
  unfolding get
  All-get sql [] n e h = absurd (cc e)
  All-get sql ((k, v) ∷ es) n e h = elim (Bool-cases (same k sql)) [
    | inl s ↦
        let w : v ≡ n = cc (rw s at e) in
        subst P (ap (λ x. (x, v)) (same-eq k sql s) ∙ ap (λ x. (sql, x)) w) h.0
    | inr s ↦ All-get sql es n (rw s at e) h.1
  ]

-- `f` says which statement each number names.
abbrev pub IsNaming : (ℕ → Text) → Entries → Type 0
IsNaming f es = All (λ e. f e.1 ≡ e.0) es

abbrev pub AreBelow : ℕ → Entries → Type 0
AreBelow n es = All (λ e. e.1 < n) es

-- The names given so far are numbered below `seq`.
pub record IsWell (f : ℕ → Text) (g : Generator) : Type 0 where
  pub naming : IsNaming f g.names
  pub below : AreBelow g.seq g.names

abbrev extended : (ℕ → Text) → ℕ → Text → ℕ → Text
extended f n sql q = if q == n then sql else f q

All-map {κ} :
    {P Q : Text × ℕ → Type κ} → ((e : Text × ℕ) → P e → Q e) → (es : Entries) → All P es → All Q es
All-map h [] a = a
All-map h (e ∷ es) a = (h e a.0, All-map h es a.1)

All-both {κ} :
    (P Q : Text × ℕ → Type κ) (es : Entries) → All P es → All Q es → All (λ e. P e × Q e) es
All-both P Q [] a b = tt
All-both P Q (e ∷ es) a b = ((a.0, b.0), All-both P Q es a.1 b.1)

some-eq : (n m : ℕ) → ◌≡◌ {A = Option ℕ} (some n) (some m) → n ≡ m
some-eq n m q = cc q

All-if {κ} :
    (P : Text × ℕ → Type κ) (b : Bool) (xs ys : Entries)
    → All P xs
    → All P ys
    → All P (if b then xs else ys)
All-if P true xs ys h k = h
All-if P false xs ys h k = k

extended-below : (f : ℕ → Text) (n : ℕ) (sql : Text) (q : ℕ) → q < n → extended f n sql q ≡ f q
extended-below f n sql q h = let e : (q == n) ≡ false = ground (arith, h) in rw e refl

extended-here : (f : ℕ → Text) (n : ℕ) (sql : Text) → extended f n sql n ≡ sql
extended-here f n sql = let e : (n == n) ≡ true = ground arith in rw e refl

-- One query: the names that there are keep their statements.
record Steps (f : ℕ → Text) (g : Generator) (sql : Text) (r : Generator × Option ℕ × List ℕ)
    : Type 0 where
  after : ℕ → Text
  agrees : (q : ℕ) → q < g.seq → after q ≡ f q
  well : IsWell after r.0
  grows : g.seq ≤ r.0.seq
  named : (n : ℕ) → r.1 ≡ some n → (after n ≡ sql) × (n < r.0.seq)

unnamed-Steps :
    (f : ℕ → Text) (g : Generator) (sql : Text) → IsWell f g → Steps f g sql (g, none, [])
unnamed-Steps f g sql w = record {
  after = f;
  agrees = λ q h. refl;
  well = w;
  grows = omega arith;
  named = λ n e. absurd (cc e);
}

cached-Steps :
    (f : ℕ → Text) (g : Generator) (sql : Text) (n : ℕ)
    → IsWell f g
    → get sql g.names ≡ some n
    → Steps f g sql (name_at (some n) g sql)
unfolding name_at
cached-Steps f g sql n w e =
    let k = All-get (λ x. f x.1 ≡ x.0) sql g.names n e w.naming in
    let b = All-get (λ x. x.1 < g.seq) sql g.names n e w.below in
    record {
      after = f;
      agrees = λ q h. refl;
      well = record {
        naming = All-append _ (delete sql g.names) _ (All-delete _ sql g.names w.naming) (k, tt);
        below = All-append _ (delete sql g.names) _ (All-delete _ sql g.names w.below) (b, tt);
      };
      grows = omega arith;
      named = λ m q. subst (λ x. (f x ≡ sql) × (x < g.seq)) (some-eq n m q) (k, b);
    }

promote-Steps :
    (f : ℕ → Text) (g : Generator) (sql : Text) → IsWell f g → Steps f g sql (promote g sql)
unfolding promote
promote-Steps f g sql w =
    let kept = if leb g.capacity (length g.names) then drop_oldest g.names else g.names in
    let naming =
      All-if (λ e. f e.1 ≡ e.0) (leb g.capacity (length g.names)) (drop_oldest g.names) g.names
        (All-drop_oldest _ g.names w.naming) w.naming in
    let below =
      All-if (λ e. e.1 < g.seq) (leb g.capacity (length g.names)) (drop_oldest g.names) g.names
        (All-drop_oldest _ g.names w.below) w.below in
    record {
      after = extended f g.seq sql;
      agrees = extended-below f g.seq sql;
      well = record {
        naming =
            All-append (λ e. extended f g.seq sql e.1 ≡ e.0) kept ((sql, g.seq) ∷ [])
              (All-map (λ e h. extended-below f g.seq sql e.1 h.1 ∙ h.0) kept
                (All-both (λ e. f e.1 ≡ e.0) (λ e. e.1 < g.seq) kept naming below))
              (extended-here f g.seq sql, tt);
        below =
            All-append (λ e. e.1 < g.seq + 1) kept ((sql, g.seq) ∷ [])
              (All-map (λ e h. omega (arith, h)) kept below) (omega arith, tt);
      };
      grows = omega arith;
      named = λ m q.
          subst (λ x. (extended f g.seq sql x ≡ sql) × (x < g.seq + 1)) (some-eq g.seq m q)
            (extended-here f g.seq sql, omega arith);
    }

counted-Steps :
    (f : ℕ → Text) (g : Generator) (sql : Text) (n : ℕ)
    → IsWell f g
    → Steps f g sql (count_usage g sql n, none, [])
unfolding count_usage
counted-Steps f g sql n w = record {
  after = f;
  agrees = λ q h. refl;
  well = record { naming = w.naming; below = w.below };
  grows = omega arith;
  named = λ m e. absurd (cc e);
}

name_at-Steps :
    (m : Option ℕ) (f : ℕ → Text) (g : Generator) (sql : Text)
    → IsWell f g
    → get sql g.names ≡ m
    → Steps f g sql (name_at m g sql)
name_at-Steps (some n) f g sql w e = cached-Steps f g sql n w e
name_at-Steps none f g sql w e =
    unfold name_at in
    elim (Bool-cases (ltb (count_after (get sql g.counts)) g.min_usages)) [
      | inl l ↦ rw l (counted-Steps f g sql (count_after (get sql g.counts)) w)
      | inr l ↦ rw l (promote-Steps f g sql w)
    ]

name_of-Steps :
    (f : ℕ → Text) (g : Generator) (sql : Text) → IsWell f g → Steps f g sql (name_of g sql)
unfolding name_of
name_of-Steps f g sql w = elim (Bool-cases (not (is_cacheable sql))) [
  | inl c ↦ rw c (unnamed-Steps f g sql w)
  | inr c ↦ elim (Bool-cases (includes 0x3b sql)) [
    | inl i ↦ rw (c, i) (unnamed-Steps f g sql w)
    | inr i ↦ rw (c, i) (name_at-Steps (get sql g.names) f g sql w refl)
  ]
]

-- A name stands for one statement: over any run of queries there is a function from the numbers of
-- names to statements that is right for every name that the run gives out, also where a name was
-- evicted in between, and that agrees with what the names stood for before.
pub issued-IsNaming :
    (f : ℕ → Text) (g : Generator) (sqls : List Text)
    → IsWell f g
    → (after : ℕ → Text) × ((q : ℕ) → q < g.seq → after q ≡ f q) × IsNaming after (issued g sqls)
unfolding issued
issued-IsNaming f g [] w = (f, (λ q h. refl), tt)
issued-IsNaming f g (sql ∷ sqls) w =
    let s = name_of-Steps f g sql w in
    let (after, agrees, named) = issued-IsNaming s.after (name_of g sql).0 sqls s.well in
    (
      after,
      (λ q h. agrees q (omega (arith, h, s.grows)) ∙ s.agrees q h),
      elim (Option-cases (name_of g sql).1) [
        | inl e ↦ rw (issued, e) named
        | inr (n, e) ↦ rw (issued, e) (agrees n (s.named n e).1 ∙ (s.named n e).0, named)
      ],
    )
