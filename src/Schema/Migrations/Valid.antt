-- ===== src/Schema/Migrations/Valid.antt =====
-- Which histories validateHistory lets pass (src/schema/migrations.ts).
use prisma_pglite_bridge.Prelude.{
  ◌≡◌, ◌↔◌, refl, inl, inr, true, false, Option, none, some, List, [], ◌∷◌, Result, ok, err, All,
  Bool-cases, Option-cases, arith,
}
use prisma_pglite_bridge.Duplex.CopyIn.{Text, same}
use prisma_pglite_bridge.Schema.Migrations.Files.{MigrationFile, Sha256}
use prisma_pglite_bridge.Schema.Migrations.History.{
  HistoryRow, Problem, is_null, active, row_names, member, by_name, unfinished, repeated,
  without_file, checksum_matches, first_edited, check_edited, check_missing, check_repeated,
  check_failed, validate_history, ◌>>◌,
}

abbrev pub Distinct : List Text → Type 0
Distinct [] = Unit
Distinct (x ∷ xs) = (member x xs ≡ false) × Distinct xs

-- A row that stands for a file as it is now.
abbrev pub Recorded : Sha256 → List MigrationFile → HistoryRow → Type 0
Recorded sha256 files row =
    (file : MigrationFile) × (by_name row.migration_name files ≡ some file)
    × (checksum_matches sha256 row.checksum file.sql ≡ true)

-- Every active row is finished and stands for a file that has its checksum, and no two stand for
-- one migration.
pub record IsValid (sha256 : Sha256) (files : List MigrationFile) (rows : List HistoryRow)
    : Type 0 where
  pub finished : All (λ (row : HistoryRow). is_null row.finished_at ≡ false) rows
  pub distinct : Distinct (row_names rows)
  pub recorded : All (Recorded sha256 files) rows

pub same_comm : (x y : Text) → same x y ≡ same y x
same_comm [] [] = refl
same_comm [] (d ∷ y) = refl
same_comm (c ∷ x) [] = refl
same_comm (c ∷ x) (d ∷ y) = ground (arith, same_comm x y)

unfinished_lem :
    (rows : List HistoryRow)
    → (unfinished rows ≡ []) ↔ All (λ (row : HistoryRow). is_null row.finished_at ≡ false) rows
unfinished_lem [] = (λ h. tt, λ h. refl)
unfinished_lem (row ∷ rows) = elim (Bool-cases (is_null row.finished_at)) [
  | inl y ↦ (λ h. ground arith, λ h. ground arith)
  | inr n ↦ (
    λ h. (n, (unfinished_lem rows).0 (ground arith)),
    λ h. ground (arith, (unfinished_lem rows).1 h.1),
  )
]

module _ (sha256 : Sha256) (files : List MigrationFile) where
  recorded_lem :
      (rows : List HistoryRow)
      → without_file (row_names rows) files ≡ []
      → first_edited sha256 rows files ≡ none
      → All (Recorded sha256 files) rows
  recorded_lem [] h e = tt
  recorded_lem (row ∷ rows) h e = elim (Option-cases (by_name row.migration_name files)) [
    | inl n ↦ ground arith
    | inr (f, b) ↦ elim (Bool-cases (checksum_matches sha256 row.checksum f.sql)) [
      | inl y ↦ ((f, b, y), recorded_lem rows (ground arith) (ground arith))
      | inr n ↦ ground arith
    ]
  ]

  Recorded-checks :
      (rows : List HistoryRow)
      → All (Recorded sha256 files) rows
      → (without_file (row_names rows) files ≡ []) × (first_edited sha256 rows files ≡ none)
  Recorded-checks [] h = (refl, refl)
  Recorded-checks (row ∷ rows) h =
      let (f, b, y) = h.0 in
      let k = Recorded-checks rows h.1 in (ground (arith, k, b, y), ground (arith, k, b, y))

abbrev Unseen : List Text → List Text → Type 0
Unseen seen names = All (λ n. member n seen ≡ false) names

Unseen-cons :
    (n : Text) (seen names : List Text)
    → member n names ≡ false
    → Unseen seen names
    → Unseen (n ∷ seen) names
Unseen-cons n seen [] m h = tt
Unseen-cons n seen (k ∷ names) m h =
    (ground (arith, same_comm n k, h.0), Unseen-cons n seen names (ground arith) h.1)

Unseen-tail :
    (n : Text) (seen names : List Text)
    → Unseen (n ∷ seen) names
    → (member n names ≡ false) × Unseen seen names
Unseen-tail n seen [] h = (refl, tt)
Unseen-tail n seen (k ∷ names) h =
    let t = Unseen-tail n seen names h.1 in
    let u = h.0 in (ground (arith, same_comm n k, u, t.0), (ground (arith, u), t.1))

repeated_lem :
    (seen names : List Text) → repeated seen names ≡ none → Distinct names × Unseen seen names
repeated_lem seen [] h = (tt, tt)
repeated_lem seen (n ∷ names) h = elim (Bool-cases (member n seen)) [
  | inl y ↦ ground arith
  | inr u ↦
      let (d, w) = repeated_lem (n ∷ seen) names (ground arith) in
      let t = Unseen-tail n seen names w in ((t.0, d), (u, t.1))
]

Distinct-repeated :
    (seen names : List Text) → Distinct names → Unseen seen names → repeated seen names ≡ none
Distinct-repeated seen [] d u = refl
Distinct-repeated seen (n ∷ names) d u =
    let k = Distinct-repeated (n ∷ seen) names d.1 (Unseen-cons n seen names d.0 u.1) in
    let v = u.0 in ground (arith, k, v)

Unseen-nil : (names : List Text) → Unseen [] names
Unseen-nil [] = tt
Unseen-nil (n ∷ names) = (refl, Unseen-nil names)

check_failed_lem : (names : List Text) → check_failed names ≡ ok tt → names ≡ []
check_failed_lem [] h = refl
check_failed_lem (n ∷ names) h = cc

check_repeated_lem : (o : Option Text) → check_repeated o ≡ ok tt → o ≡ none
check_repeated_lem none h = refl
check_repeated_lem (some n) h = cc

check_missing_lem : (names : List Text) → check_missing names ≡ ok tt → names ≡ []
check_missing_lem [] h = refl
check_missing_lem (n ∷ names) h = cc

check_edited_lem : (o : Option Text) → check_edited o ≡ ok tt → o ≡ none
check_edited_lem none h = refl
check_edited_lem (some n) h = cc

then_ok : (m next : Result Problem (Unit {0})) → (m >> next) ≡ ok tt → (m ≡ ok tt) × (next ≡ ok tt)
then_ok (ok tt) next h = (refl, h)
then_ok (err p) next h = cc

pub validate_history_ok :
    (sha256 : Sha256) (rows : List HistoryRow) (files : List MigrationFile)
    → validate_history sha256 rows files ≡ ok tt
    → IsValid sha256 files (active rows)
unfolding validate_history
validate_history_ok sha256 rows files h =
    let live = active rows in
    let (a, h1) = then_ok (check_failed (unfinished live)) _ h in
    let (b, h2) = then_ok (check_repeated (repeated [] (row_names live))) _ h1 in
    let (c, d) = then_ok (check_missing (without_file (row_names live) files)) _ h2 in
    record {
      finished = (unfinished_lem live).0 (check_failed_lem (unfinished live) a);
      distinct = (repeated_lem [] (row_names live) (check_repeated_lem _ b)).0;
      recorded = recorded_lem sha256 files live (check_missing_lem _ c) (check_edited_lem _ d);
    }

pub IsValid-validate_history :
    (sha256 : Sha256) (rows : List HistoryRow) (files : List MigrationFile)
    → IsValid sha256 files (active rows)
    → validate_history sha256 rows files ≡ ok tt
unfolding validate_history
IsValid-validate_history sha256 rows files v =
    let live = active rows in
    let r = Recorded-checks sha256 files live v.recorded in
    rw ((unfinished_lem live).1 v.finished) (
      rw (Distinct-repeated [] (row_names live) v.distinct (Unseen-nil (row_names live)))
        (rw r.0 (rw r.1)))
