-- ===== src/Schema/Migrations/Names.antt =====
-- Names in lists, and the migrations that are pending (src/schema/migrations.ts).
use prisma_pglite_bridge.Prelude.{
  ◌≡◌, refl, sym, ap, ◌∙◌, subst, inl, inr, ◌||◌, true, false, none, some, List, [], ◌∷◌, ◌++◌, All,
  Bool-cases, arith,
}
use prisma_pglite_bridge.Duplex.CopyIn.{Text, same}
use prisma_pglite_bridge.Utils.Maps.{same→eq, same_self}
use prisma_pglite_bridge.Schema.Migrations.Files.{MigrationFile, names_of}
use prisma_pglite_bridge.Schema.Migrations.History.{member, by_name}
use prisma_pglite_bridge.Schema.Migrations.Valid.{Distinct, same_comm}
use prisma_pglite_bridge.Schema.Migrations.Loop.{pending, split-done, split-new}

-- Names that are apart, and names in a list.
member-append : (x : Text) (xs ys : List Text) → member x (xs ++ ys) ≡ (member x xs || member x ys)
member-append x [] ys = refl
member-append x (y ∷ xs) ys = ground (arith, member-append x xs ys)

abbrev pub Apart : List Text → List Text → Type 0
Apart xs ys = All (λ y. member y xs ≡ false) ys

Apart-head :
    (x : Text) (xs ys : List Text) → Apart (x ∷ xs) ys → (member x ys ≡ false) × Apart xs ys
Apart-head x xs [] h = (refl, tt)
Apart-head x xs (y ∷ ys) h =
    let t = Apart-head x xs ys h.1 in
    let a = h.0 in (ground (arith, same_comm x y, a, t.0), (ground (arith, a), t.1))

pub Distinct-append :
    (xs ys : List Text) → Distinct xs → Distinct ys → Apart xs ys → Distinct (xs ++ ys)
Distinct-append [] ys dx dy a = dy
Distinct-append (x ∷ xs) ys dx dy a =
    let (m, r) = Apart-head x xs ys a in
    let d = dx.0 in (ground (arith, member-append x xs ys, m, d), Distinct-append xs ys dx.1 dy r)

pub pending-Apart :
    (done : List Text) (ms : List MigrationFile) → Apart done (names_of (pending done ms))
pending-Apart done [] = tt
pending-Apart done (m ∷ ms) = elim (Bool-cases (member m.name done)) [
  | inl y ↦
      subst (λ l. Apart done (names_of l)) (sym (split-done done m ms y).0) (pending-Apart done ms)
  | inr n ↦
      subst (λ l. Apart done (names_of l)) (sym (split-new done m ms n).0)
        (n, pending-Apart done ms)
]

member-pending :
    (x : Text) (done : List Text) (ms : List MigrationFile)
    → member x (names_of ms) ≡ false
    → member x (names_of (pending done ms)) ≡ false
member-pending x done [] h = refl
member-pending x done (m ∷ ms) h =
    let k = λ (e : member x (names_of ms) ≡ false). member-pending x done ms e in
    elim (Bool-cases (member m.name done)) [
      | inl y ↦ ap (λ l. member x (names_of l)) (split-done done m ms y).0 ∙ k (ground arith)
      | inr n ↦
          ap (λ l. member x (names_of l)) (split-new done m ms n).0
          ∙ ground (arith, k (ground arith))
    ]

pub Distinct-pending :
    (done : List Text) (ms : List MigrationFile)
    → Distinct (names_of ms)
    → Distinct (names_of (pending done ms))
Distinct-pending done [] d = tt
Distinct-pending done (m ∷ ms) d = elim (Bool-cases (member m.name done)) [
  | inl y ↦
      subst (λ l. Distinct (names_of l)) (sym (split-done done m ms y).0)
        (Distinct-pending done ms d.1)
  | inr n ↦
      subst (λ l. Distinct (names_of l)) (sym (split-new done m ms n).0)
        (member-pending m.name done ms d.0, Distinct-pending done ms d.1)
]

by_name_absent :
    (n : Text) (ms : List MigrationFile) → member n (names_of ms) ≡ false → by_name n ms ≡ none
by_name_absent n [] h = refl
by_name_absent n (m ∷ ms) h =
    let k = λ (e : member n (names_of ms) ≡ false). by_name_absent n ms e in
    ground (arith, k (ground arith))

-- Each migration is found by its name, since no later one has it.
pub by_name_self :
    (before ms : List MigrationFile) (m : MigrationFile)
    → Distinct (names_of (before ++ m ∷ ms))
    → by_name m.name (before ++ m ∷ ms) ≡ some m
by_name_self [] ms m d = rw (by_name_absent m.name ms d.0) (rw (same_self m.name))
by_name_self (b ∷ before) ms m d = rw (by_name_self before ms m d.1)

pending_new :
    (x : Text) (done : List Text) (ms : List MigrationFile)
    → member x done ≡ false
    → member x (names_of ms) ≡ true
    → member x (names_of (pending done ms)) ≡ true
pending_new x done [] n h = cc
pending_new x done (m ∷ ms) n h =
    let k = λ (e : member x (names_of ms) ≡ true). pending_new x done ms n e in
    elim (Bool-cases (member m.name done)) [
      | inr new ↦
          ap (λ l. member x (names_of l)) (split-new done m ms new).0
          ∙ (elim (Bool-cases (same x m.name)) [ inl y ↦ rw y | inr o ↦ rw o (k (ground arith)) ])
      | inl old ↦
          ap (λ l. member x (names_of l)) (split-done done m ms old).0
          ∙ (elim (Bool-cases (same x m.name)) [
            | inl y ↦
                let e = same→eq x m.name y in
                let o = ap (λ z. member z done) e ∙ old in ground (arith, o)
            | inr o ↦ k (ground arith)
          ])
    ]

-- Each migration has been recorded or is pending.
pub member-done :
    (x : Text) (done : List Text) (ms : List MigrationFile)
    → member x (names_of ms) ≡ true
    → member x (done ++ names_of (pending done ms)) ≡ true
member-done x done ms h = elim (Bool-cases (member x done)) [
  | inl y ↦ member-append x done _ ∙ (rw y)
  | inr n ↦ member-append x done _ ∙ (rw (n, pending_new x done ms n h))
]
