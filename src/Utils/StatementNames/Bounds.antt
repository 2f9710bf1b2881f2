-- ===== src/Utils/StatementNames/Bounds.antt =====
-- src/utils/statement-names.ts: how many names and counters are held.
use prisma_pglite_bridge.Prelude.{
  ℕ, suc, ◌+◌, ◌≤◌, ◌<◌, ltb, leb, not, Option, none, some, List, [], ◌∷◌, ◌++◌, length,
  length-append, ◌≡◌, refl, sym, subst, inl, inr, arith, Bool-cases,
}
use prisma_pglite_bridge.Duplex.CopyIn.{Text, same}
use prisma_pglite_bridge.Utils.StatementNames.{
  Entries, Generator, get, delete, drop_oldest, count_usage, promote, name_at, name_of, run,
  is_cacheable, includes, count_after,
}

length-delete : (sql : Text) (es : Entries) → length (delete sql es) ≤ length es
unfolding delete
length-delete sql [] = omega arith
length-delete sql ((k, v) ∷ es) = ground (arith, length-delete sql es)

delete-found :
    (sql : Text) (es : Entries) (n : ℕ) → get sql es ≡ some n → length (delete sql es) < length es
unfolding delete get
delete-found sql [] n e = absurd (cc e)
delete-found sql ((k, v) ∷ es) n e = elim (Bool-cases (same k sql)) [
  | inl s ↦ rw s (omega arith)
  | inr s ↦ rw s (omega (arith, delete-found sql es n (rw s at e)))
]

length-drop_oldest : (es : Entries) (n : ℕ) → length es ≤ suc n → length (drop_oldest es) ≤ n
length-drop_oldest [] n h = omega arith
length-drop_oldest (e ∷ es) n h = omega (arith, h)

length-drop_oldest_room :
    (es : Entries) (n : ℕ) → 1 ≤ n → length es ≤ n → length (drop_oldest es) + 1 ≤ n
length-drop_oldest_room [] n p h = omega (arith, p)
length-drop_oldest_room (e ∷ es) n p h = omega (arith, h)

-- No more names and no more counters than the capacity.
abbrev pub IsBounded : Generator → Type 0
IsBounded g = (length g.names ≤ g.capacity) × (length g.counts ≤ g.capacity)

module _ (g : Generator) (sql : Text) (positive : 1 ≤ g.capacity) (b : IsBounded g) where
  promote-IsBounded : IsBounded (promote g sql).0
  unfolding promote
  promote-IsBounded = elim (Bool-cases (leb g.capacity (length g.names))) [
    | inl e ↦ rw e (
      omega (
        arith,
        length-append (drop_oldest g.names) ((sql, g.seq) ∷ []),
        length-drop_oldest_room g.names g.capacity positive b.0,
      ),
      omega (arith, length-delete sql g.counts, b.1),
    )
    | inr e ↦
        let room : length g.names < g.capacity = ground (arith, e) in
        rw e (
          omega (arith, length-append g.names ((sql, g.seq) ∷ []), room),
          omega (arith, length-delete sql g.counts, b.1),
        )
  ]

  count_usage-IsBounded : (n : ℕ) → IsBounded (count_usage g sql n)
  unfolding count_usage
  count_usage-IsBounded n =
      let sum = length-append (delete sql g.counts) ((sql, n) ∷ []) in
      let le = length-delete sql g.counts in
      elim (Bool-cases (ltb g.capacity (length (delete sql g.counts ++ (sql, n) ∷ [])))) [
        | inl e ↦ rw e (
          b.0,
          length-drop_oldest (delete sql g.counts ++ (sql, n) ∷ []) g.capacity
              (omega (arith, sum, le, b.1)),
        )
        | inr e ↦ rw e (b.0, ground (arith, e))
      ]

  name_at-IsBounded : (m : Option ℕ) → get sql g.names ≡ m → IsBounded (name_at m g sql).0
  unfolding name_at
  name_at-IsBounded (some n) e = (
    omega (
      arith,
      length-append (delete sql g.names) ((sql, n) ∷ []),
      delete-found sql g.names n e,
      b.0,
    ),
    b.1,
  )
  name_at-IsBounded none e = elim (Bool-cases (ltb (count_after (get sql g.counts)) g.min_usages)) [
    | inl l ↦ rw l (count_usage-IsBounded (count_after (get sql g.counts)))
    | inr l ↦ rw l promote-IsBounded
  ]

  name_of-IsBounded : IsBounded (name_of g sql).0
  unfolding name_of
  name_of-IsBounded = elim (Bool-cases (not (is_cacheable sql))) [
    | inl c ↦ rw c b
    | inr c ↦ elim (Bool-cases (includes 0x3b sql)) [
      | inl i ↦ rw (c, i) b
      | inr i ↦ rw (c, i) (name_at-IsBounded (get sql g.names) refl)
    ]
  ]

name_at-capacity :
    (m : Option ℕ) (g : Generator) (sql : Text) → (name_at m g sql).0.capacity ≡ g.capacity
unfolding name_at promote count_usage
name_at-capacity (some n) g sql = refl
name_at-capacity none g sql =
    elim (Bool-cases (ltb (count_after (get sql g.counts)) g.min_usages)) [
      | inl l ↦ rw l refl
      | inr l ↦ rw l refl
    ]

name_of-capacity : (g : Generator) (sql : Text) → (name_of g sql).0.capacity ≡ g.capacity
unfolding name_of name_at promote count_usage
name_of-capacity g sql = elim (Bool-cases (not (is_cacheable sql))) [
  | inl c ↦ rw c refl
  | inr c ↦ elim (Bool-cases (includes 0x3b sql)) [
    | inl i ↦ rw (c, i) refl
    | inr i ↦ rw (c, i) (name_at-capacity (get sql g.names) g sql)
  ]
]

-- However many queries run, the generator holds at most `capacity` names and at most `capacity`
-- counters, given that it began so and that the capacity is not zero.
pub run-IsBounded :
    (g : Generator) (sqls : List Text) → 1 ≤ g.capacity → IsBounded g → IsBounded (run g sqls)
unfolding run
run-IsBounded g [] p b = b
run-IsBounded g (sql ∷ sqls) p b =
    run-IsBounded (name_of g sql).0 sqls (subst (λ n. 1 ≤ n) (sym (name_of-capacity g sql)) p)
      (name_of-IsBounded g sql p b)
