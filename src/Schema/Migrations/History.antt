-- ===== src/Schema/Migrations/History.antt =====
-- The history rows and their checks (validateHistory in src/schema/migrations.ts).
use prisma_pglite_bridge.Prelude.{
  ℕ, not, ◌||◌, if◌then◌else◌, Bool, true, false, Option, none, some, List, [], ◌∷◌, map, Result,
  ok, err, ◌>>=◌,
}
use prisma_pglite_bridge.Duplex.CopyIn.{Text, same}
use prisma_pglite_bridge.Schema.Migrations.Files.{
  Unavailable, MigrationFile, Sha256, crlf_to_lf, lf_to_crlf,
}

pub record HistoryRow : Type 0 where
  pub id : ℕ
  pub migration_name : Text
  pub checksum : Text
  pub finished_at : Option Text
  pub rolled_back_at : Option Text

pub data Fault : Type 0 where
  thrown : Text → Fault

-- The errors, with what their messages name.
pub data Problem : Type 0 where
  failed : List Text → Problem
  duplicate : Text → Problem
  missing : List Text → Problem
  modified : Text → Problem
  not_empty : Problem
  apply_failed : Text → Fault → Problem
  sql_failed : Fault → Problem
  refused : Fault → Problem
  unavailable : Unavailable → Problem

infixl 5 ◌>>◌
abbrev pub ◌>>◌ {ℓ} : {A : Type ℓ} → Result Problem (Unit {0}) → Result Problem A → Result Problem A
m >> next = m >>= λ _. next

abbrev pub is_null {ℓ} : {A : Type ℓ} → Option A → Bool
is_null none = true
is_null (some a) = false

abbrev pub is_active : HistoryRow → Bool
is_active row = is_null row.rolled_back_at

-- `rows.filter((row) => row.rolled_back_at === null)`
abbrev pub active : List HistoryRow → List HistoryRow
active [] = []
active (row ∷ rows) = elim (is_active row) [ true ↦ row ∷ active rows | false ↦ active rows ]

abbrev pub row_names : List HistoryRow → List Text
row_names rows = map (λ (row : HistoryRow). row.migration_name) rows

abbrev pub member : Text → List Text → Bool
member x [] = false
member x (y ∷ ys) = same x y || member x ys

-- `byName.get(name)`: of entries with one name the last.
abbrev pub by_name : Text → List MigrationFile → Option MigrationFile
by_name n [] = none
by_name n (m ∷ ms) = elim (by_name n ms) [
  | some found ↦ some found
  | none ↦ if same n m.name then some m else none
]

abbrev pub unfinished : List HistoryRow → List Text
unfinished [] = []
unfinished (row ∷ rows) = elim (is_null row.finished_at) [
  | true ↦ row.migration_name ∷ unfinished rows
  | false ↦ unfinished rows
]

-- The loop over `seen`: the first name that has been seen.
abbrev pub repeated : List Text → List Text → Option Text
repeated seen [] = none
repeated seen (n ∷ names) = elim (member n seen) [
  | true ↦ some n
  | false ↦ repeated (n ∷ seen) names
]

abbrev pub without_file : List Text → List MigrationFile → List Text
without_file [] files = []
without_file (n ∷ names) files = elim (by_name n files) [
  | none ↦ n ∷ without_file names files
  | some file ↦ without_file names files
]

abbrev pub check_edited : Option Text → Result Problem (Unit {0})
check_edited none = ok tt
check_edited (some n) = err (modified n)

abbrev pub check_missing : List Text → Result Problem (Unit {0})
check_missing [] = ok tt
check_missing (n ∷ names) = err (missing (n ∷ names))

abbrev pub check_repeated : Option Text → Result Problem (Unit {0})
check_repeated none = ok tt
check_repeated (some n) = err (duplicate n)

abbrev pub check_failed : List Text → Result Problem (Unit {0})
check_failed [] = ok tt
check_failed (n ∷ names) = err (failed (n ∷ names))

module _ (sha256 : Sha256) where
  abbrev pub checksum_matches : Text → Text → Bool
  checksum_matches stored sql =
      same (sha256 sql) stored
      || same (sha256 (crlf_to_lf sql)) stored
      || same (sha256 (lf_to_crlf sql)) stored

  abbrev pub edited : HistoryRow → Option MigrationFile → Bool
  edited row none = false
  edited row (some file) = not (checksum_matches row.checksum file.sql)

  abbrev pub first_edited : List HistoryRow → List MigrationFile → Option Text
  first_edited [] files = none
  first_edited (row ∷ rows) files = elim (edited row (by_name row.migration_name files)) [
    | true ↦ some row.migration_name
    | false ↦ first_edited rows files
  ]

  unfoldable pub validate_history : List HistoryRow → List MigrationFile → Result Problem (Unit {0})
  validate_history rows files = do
    let live = active rows
    check_failed (unfinished live)
    check_repeated (repeated [] (row_names live))
    check_missing (without_file (row_names live) files)
    check_edited (first_edited live files)
