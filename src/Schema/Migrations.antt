-- ===== src/Schema/Migrations.antt =====
-- src/schema/migrations.ts: applying migrations, with the history that Prisma keeps.
-- PGlite is a Host over a state of its own; the table _prisma_migrations is a list of rows, which the
-- statements of this file read and write. A statement that PGlite refuses throws a Fault.
pub mod Files
mod Tests
pub mod History
pub mod Valid
pub mod LineEnds
pub mod Plain
pub mod Loop
pub mod Names
pub mod Again
pub mod Second
pub mod Failed
use prisma_pglite_bridge.Prelude.{
  ℕ, zero, suc, ◌+◌, ltb, not, ◌==◌, ◌&&◌, ◌||◌, if◌then◌else◌, Bool, true, false, Option, none,
  some, List, [], ◌∷◌, ◌++◌, map, Result, ok, err, ◌>>=◌,
}
use prisma_pglite_bridge.Duplex.CopyIn.{Text, same}
use prisma_pglite_bridge.Schema.Migrations.Files.{
  MigrationFile, Sha256, FileSystem, Config, Options, Unavailable, truthy, resolve_migrations,
}
use prisma_pglite_bridge.Schema.Migrations.History.{
  HistoryRow, Fault, Problem, ◌>>◌, unavailable, sql_failed, apply_failed, refused, not_empty,
  is_null, is_active, active, row_names, member, validate_history,
}

pub data Statement : Type 0 where
  create_table read_history ask_user_tables ask_table count_finished ask_public_tables : Statement
  insert_started : HistoryRow → Statement
  update_finished : ℕ → Statement

-- The database: the history, once its table exists, and the rest.
pub record Db (S : Type 0) : Type 0 where
  pub table : Option (List HistoryRow)
  pub store : S

-- PGlite, with a clock and randomUUID. A script that fails may have changed the store. No script
-- reads or writes _prisma_migrations, so that it acts on the rest alone.
pub record Host (S : Type 0) : Type 0 where
  pub refuses : S → Statement → Option Fault
  pub exec : S → Text → S × Option Fault
  pub has_user_tables : S → Bool
  pub has_public_tables : S → Bool
  pub now : S → Text
  pub random_uuid : Db S → ℕ

abbrev pub is_finished : HistoryRow → Bool
is_finished row = not (is_null row.finished_at)

-- The rows of the table, which is there after the first statement.
abbrev pub rows_of : Option (List HistoryRow) → List HistoryRow
rows_of none = []
rows_of (some rows) = rows

abbrev pub every_rolled_back : List HistoryRow → Bool
every_rolled_back [] = true
every_rolled_back (row ∷ rows) = not (is_active row) && every_rolled_back rows

-- `UPDATE ... SET finished_at = now() ... WHERE id = $1`
pub mark_finished : ℕ → Text → List HistoryRow → List HistoryRow
mark_finished id time [] = []
mark_finished id time (row ∷ rows) =
    (if row.id == id then record row { finished_at = some time } else row)
    ∷ mark_finished id time rows

pub record Outcome : Type 0 where
  pub applied : List Text
  pub skipped : List Text

abbrev pub skip : Text → Outcome → Outcome
skip n o = record o { skipped = n ∷ o.skipped }

abbrev pub apply : Text → Outcome → Outcome
apply n o = record o { applied = n ∷ o.applied }

abbrev pub nothing : Outcome
nothing = record { applied = []; skipped = [] }

module _ {S : Type 0} (host : Host S) where
  -- What a method leaves behind and what it returns or throws.
  abbrev pub M : Type 0 → Type 0
  M A = Db S × Result Problem A

  abbrev pub on_ok : {A B : Type 0} → (A → B) → M A → M B
  on_ok f (db, ok a) = (db, ok (f a))
  on_ok f (db, err p) = (db, err p)

  abbrev pub with_rows : Db S → List HistoryRow → Db S
  with_rows db rows = record db { table = some rows }

  -- The row as it is inserted.
  abbrev pub started_row : Db S → MigrationFile → HistoryRow
  started_row db m = record {
    id = host.random_uuid db;
    migration_name = m.name;
    checksum = m.checksum;
    finished_at = none;
    rolled_back_at = none;
  }

  -- Behind the script.
  abbrev pub finish_migration : MigrationFile → ℕ → Db S → Option Fault → M (Unit {0})
  finish_migration m id db (some fault) = (db, err (refused fault))
  finish_migration m id db none =
      (with_rows db (mark_finished id (host.now db.store) (rows_of db.table)), ok tt)

  abbrev pub run_script : MigrationFile → ℕ → Db S → S × Option Fault → M (Unit {0})
  run_script m id db (store, some fault) =
      (record db { store = store }, err (apply_failed m.name fault))
  run_script m id db (store, none) =
      finish_migration m id (record db { store = store }) (host.refuses store (update_finished id))

  abbrev pub insert_and_run : MigrationFile → Db S → Option Fault → M (Unit {0})
  insert_and_run m db (some fault) = (db, err (refused fault))
  insert_and_run m db none =
      run_script m (host.random_uuid db) (with_rows db (rows_of db.table ++ started_row db m ∷ []))
        (host.exec db.store m.sql)

  pub apply_migration : Db S → MigrationFile → M (Unit {0})
  unfolding mark_finished
  apply_migration db m =
      insert_and_run m db (host.refuses db.store (insert_started (started_row db m)))

  abbrev pub apply_next : Text → (Db S → M Outcome) → M (Unit {0}) → M Outcome
  apply_next n next (db, ok _) = on_ok (apply n) (next db)
  apply_next n next (db, err p) = (db, err p)

  -- The loop over the migrations.
  pub apply_loop : List Text → List MigrationFile → Db S → M Outcome
  apply_loop done [] db = (db, ok nothing)
  apply_loop done (m ∷ ms) db = elim (member m.name done) [
    | true ↦ on_ok (skip m.name) (apply_loop done ms db)
    | false ↦ apply_next m.name (apply_loop done ms) (apply_migration db m)
  ]

  abbrev pub apply_valid :
      List HistoryRow → List MigrationFile → Db S → Result Problem (Unit {0}) → M Outcome
  apply_valid rows files db (err p) = (db, err p)
  apply_valid rows files db (ok _) = apply_loop (row_names (active rows)) files db

  abbrev pub apply_guarded :
      Sha256 → List HistoryRow → List MigrationFile → Db S → Result Problem Bool → M Outcome
  apply_guarded sha256 rows files db (err p) = (db, err p)
  apply_guarded sha256 rows files db (ok true) = (db, err not_empty)
  apply_guarded sha256 rows files db (ok false) =
      apply_valid rows files db (validate_history sha256 rows files)

  abbrev pub refusal : Option Fault → Result Problem (Unit {0})
  refusal none = ok tt
  refusal (some fault) = err (refused fault)

  -- `rows.every(...) && (await hasUserTables(pglite))`
  abbrev pub has_tables_only : List HistoryRow → S → Result Problem Bool
  has_tables_only rows store =
      if every_rolled_back rows
      then (refusal (host.refuses store ask_user_tables) >> ok (host.has_user_tables store))
      else ok false

  abbrev pub apply_read : Sha256 → List MigrationFile → Db S → Result Problem (Unit {0}) → M Outcome
  apply_read sha256 files db (err p) = (db, err p)
  apply_read sha256 files db (ok _) =
      let rows = rows_of db.table in
      apply_guarded sha256 rows files db (has_tables_only rows db.store)

  abbrev pub apply_created :
      Sha256 → List MigrationFile → Db S → Result Problem (Unit {0}) → M Outcome
  apply_created sha256 files db (err p) = (db, err p)
  apply_created sha256 files db (ok _) =
      let db' = with_rows db (rows_of db.table) in
      apply_read sha256 files db' (refusal (host.refuses db'.store read_history))

  pub apply_migrations : Sha256 → List MigrationFile → Db S → M Outcome
  unfolding validate_history apply_loop apply_migration
  apply_migrations sha256 files db =
      apply_created sha256 files db (refusal (host.refuses db.store create_table))

  abbrev pub push_sql : Db S → S × Option Fault → M Outcome
  push_sql db (store, none) = (record db { store = store }, ok nothing)
  push_sql db (store, some fault) = (record db { store = store }, err (sql_failed fault))

  abbrev pub push_resolved :
      Sha256 → Db S → Result Unavailable (Text × List MigrationFile) → M Outcome
  push_resolved sha256 db (err problem) = (db, err (unavailable problem))
  push_resolved sha256 db (ok (path, files)) = apply_migrations sha256 files db

  abbrev pub push_from :
      FileSystem → Sha256 → (Option Text → Option Config) → Options → Db S → Option Text → M Outcome
  push_from fs sha256 load o db (some sql) = push_sql db (host.exec db.store sql)
  push_from fs sha256 load o db none = push_resolved sha256 db (resolve_migrations fs sha256 load o)

  pub push_migrations :
      FileSystem → Sha256 → (Option Text → Option Config) → Options → Db S → M Outcome
  unfolding apply_migrations
  push_migrations fs sha256 load o db = push_from fs sha256 load o db (truthy o.sql)

  abbrev pub count : List HistoryRow → ℕ
  count [] = 0
  count (row ∷ rows) = (if is_finished row then 1 else 0) + count rows

  pub has_migrations : Db S → Result Problem Bool
  has_migrations db = do
    refusal (host.refuses db.store ask_table)
    elim db.table [
      | none ↦ ok false
      | some rows ↦ refusal (host.refuses db.store count_finished) >> ok (ltb 0 (count rows))
    ]

  pub has_schema : Db S → Result Problem Bool
  has_schema db =
      refusal (host.refuses db.store ask_public_tables) >> ok (host.has_public_tables db.store)
