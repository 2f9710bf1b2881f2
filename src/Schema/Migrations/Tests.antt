-- ===== src/Schema/Migrations/Tests.antt =====
-- Runs of src/schema/migrations.ts over a database that keeps the scripts it has run.
use prisma_pglite_bridge.Prelude.{
  ℕ, suc, ◌+◌, ◌≤◌, ◌≡◌, ◌↔◌, refl, ◌==◌, true, false, Option, none, some, List, [], ◌∷◌, ◌++◌,
  if◌then◌else◌, map, Result, ok, err, arith,
}
use prisma_pglite_bridge.Duplex.CopyIn.{Text}
use prisma_pglite_bridge.Schema.Migrations.Files.{
  MigrationFile, Sha256, FileSystem, names_of, list_migrations, read_migrations,
}
use prisma_pglite_bridge.Schema.Migrations.History.{
  HistoryRow, Fault, thrown, Problem, apply_failed, failed, row_names, member, validate_history,
}
use prisma_pglite_bridge.Schema.Migrations.{
  Db, Host, Outcome, rows_of, with_rows, apply_loop, apply_migration, apply_migrations,
  mark_finished,
}
use prisma_pglite_bridge.Schema.Migrations.Plain.{IsPassing, live, validate_history_iff}
use prisma_pglite_bridge.Schema.Migrations.Loop.{
  WithoutId, DrawsFresh, entries, applied_entry, pending, recorded, IsExecuted,
  apply_migrations_lem,
}
use prisma_pglite_bridge.Schema.Migrations.Second.{second_run}
use prisma_pglite_bridge.Schema.Migrations.Failed.{next_run_reports}

abbrev bound : List HistoryRow → ℕ
bound [] = 0
bound (row ∷ rows) = suc (row.id + bound rows)

bound-WithoutId : (k : ℕ) (rows : List HistoryRow) → bound rows ≤ k → WithoutId k rows
bound-WithoutId k [] h = tt
bound-WithoutId k (row ∷ rows) h = (ground arith, bound-WithoutId k rows (omega arith))

-- A script that begins with an exclamation mark fails.
abbrev run : List Text → Text → List Text × Option Fault
run store [] = ([] ∷ store, none)
run store (c ∷ cs) = if c == 0x21 then (store, some (thrown [])) else ((c ∷ cs) ∷ store, none)

abbrev host : Host (List Text)
host = record {
  refuses = λ store statement. none;
  exec = run;
  has_user_tables = λ store. false;
  has_public_tables = λ store. false;
  now = λ store. [];
  random_uuid = λ db. bound (rows_of db.table);
}

host-DrawsFresh : DrawsFresh host
host-DrawsFresh db = bound-WithoutId (bound (rows_of db.table)) (rows_of db.table) (omega arith)

abbrev sha : Sha256
sha text = text

-- Two directories with scripts, `a` and `b`, in a directory with the empty name.
abbrev fs : FileSystem
fs = record {
  exists_sync = λ path. true;
  readdir_sync = λ path. (0x61 ∷ []) ∷ (0x62 ∷ []) ∷ [];
  is_directory = λ path. true;
  read_file_sync = λ path. path;
  join = λ a b. a ++ b;
  dirname = λ path. path;
  sorted = λ names. names;
}

abbrev files : List MigrationFile
files = list_migrations fs sha []

abbrev empty : Db (List Text)
empty = record { table = none; store = [] }

abbrev first : Db (List Text) × Result Problem Outcome
first = apply_migrations host sha files empty

abbrev after : Db (List Text)
after = record {
  table = some (
      record {
        id = 0;
        migration_name = 0x61 ∷ [];
        checksum =
            0x61 ∷ 0x6d ∷ 0x69 ∷ 0x67 ∷ 0x72 ∷ 0x61 ∷ 0x74 ∷ 0x69 ∷ 0x6f ∷ 0x6e ∷ 0x2e ∷ 0x73 ∷ 0x71
            ∷ 0x6c ∷ [];
        finished_at = some [];
        rolled_back_at = none;
      }
      ∷ record {
        id = 1;
        migration_name = 0x62 ∷ [];
        checksum =
            0x62 ∷ 0x6d ∷ 0x69 ∷ 0x67 ∷ 0x72 ∷ 0x61 ∷ 0x74 ∷ 0x69 ∷ 0x6f ∷ 0x6e ∷ 0x2e ∷ 0x73 ∷ 0x71
            ∷ 0x6c ∷ [];
        finished_at = some [];
        rolled_back_at = none;
      }
      ∷ []);
  store =
      (0x62 ∷ 0x6d ∷ 0x69 ∷ 0x67 ∷ 0x72 ∷ 0x61 ∷ 0x74 ∷ 0x69 ∷ 0x6f ∷ 0x6e ∷ 0x2e ∷ 0x73 ∷ 0x71
        ∷ 0x6c ∷ [])
      ∷ (0x61 ∷ 0x6d ∷ 0x69 ∷ 0x67 ∷ 0x72 ∷ 0x61 ∷ 0x74 ∷ 0x69 ∷ 0x6f ∷ 0x6e ∷ 0x2e ∷ 0x73 ∷ 0x71
          ∷ 0x6c ∷ [])
      ∷ [];
}

abbrev both : Outcome
both = record { applied = (0x61 ∷ []) ∷ (0x62 ∷ []) ∷ []; skipped = [] }

first_run : apply_migrations host sha files empty ≡ (after, ok both)
unfolding list_migrations read_migrations apply_migrations apply_loop apply_migration mark_finished
    validate_history
first_run = refl

apply_migrations_lem_example :
    let done = row_names (live []) in
    (validate_history sha [] files ≡ ok tt)
    × (both.applied ≡ names_of (pending done files))
    × (both.skipped ≡ names_of (recorded done files))
    × (entries (rows_of after.table) ≡ entries [] ++ map applied_entry (pending done files))
    × IsExecuted host empty.store (pending done files) after.store
apply_migrations_lem_example =
    apply_migrations_lem host sha files empty after both host-DrawsFresh first_run

second_run_example : apply_migrations host sha files after ≡ (
  with_rows host after (rows_of after.table),
  ok (record { applied = []; skipped = names_of files }),
)
unfolding list_migrations read_migrations
second_run_example =
    second_run host fs sha [] empty after both host-DrawsFresh (refl, (refl, tt)) (λ e. cc)
      first_run refl refl

abbrev broken : List MigrationFile
broken = record { name = 0x61 ∷ []; sql = 0x21 ∷ []; checksum = 0x21 ∷ [] } ∷ []

abbrev left : Db (List Text)
left = record {
  table = some (
      record {
        id = 0;
        migration_name = 0x61 ∷ [];
        checksum = 0x21 ∷ [];
        finished_at = none;
        rolled_back_at = none;
      }
      ∷ []);
  store = [];
}

broken_run :
    apply_migrations host sha broken empty ≡ (left, err (apply_failed (0x61 ∷ []) (thrown [])))
unfolding apply_migrations apply_loop apply_migration mark_finished validate_history
broken_run = refl

next_run_reports_example :
    (names : List Text) × (member (0x61 ∷ []) names ≡ true)
    × (apply_migrations host sha files left
        ≡ (with_rows host left (rows_of left.table), err (failed names)))
next_run_reports_example =
    next_run_reports host sha broken files empty left (0x61 ∷ []) (thrown []) broken_run refl refl

validate_history_iff_example :
    (validate_history sha (rows_of after.table) files ≡ ok tt)
    ↔ IsPassing sha files (live (rows_of after.table))
validate_history_iff_example = validate_history_iff sha (rows_of after.table) files
