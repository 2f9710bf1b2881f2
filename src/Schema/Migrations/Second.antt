-- ===== src/Schema/Migrations/Second.antt =====
-- A second run of the migrations finds nothing to do (src/schema/migrations.ts).
use prisma_pglite_bridge.Prelude.{
  ◌≡◌, ◌≢◌, refl, sym, ap, ◌∙◌, subst, true, none, List, [], ◌∷◌, ◌++◌, map, ok, arith,
}
use prisma_pglite_bridge.Duplex.CopyIn.{Text}
use prisma_pglite_bridge.Utils.Maps.{same_self}
use prisma_pglite_bridge.Schema.Migrations.Files.{
  MigrationFile, Sha256, FileSystem, names_of, list_migrations, read_migrations, directories,
}
use prisma_pglite_bridge.Schema.Migrations.History.{HistoryRow, active, row_names, member}
use prisma_pglite_bridge.Schema.Migrations.{
  Db, Host, Outcome, rows_of, apply_migrations, with_rows, create_table, read_history,
}
use prisma_pglite_bridge.Schema.Migrations.Valid.{Distinct, IsValid, validate_history_ok}
use prisma_pglite_bridge.Schema.Migrations.Names.{member-done}
use prisma_pglite_bridge.Schema.Migrations.Loop.{
  entries, applied_entry, pending, DrawsFresh, apply_migrations_ok,
}
use prisma_pglite_bridge.Schema.Migrations.Again.{
  IsSound, IsHashed, live_entries, entry_names, entries-active, live_entries-append,
  live_entries-applied, entry_names-rows, entry_names-append, entry_names-applied, IsSound-IsValid,
  IsValid-IsSound, IsSound-applied, recorded_run,
}

-- The scripts are listed with their digests.
read_migrations-IsHashed :
    (fs : FileSystem) (sha256 : Sha256) (path : Text) (names : List Text)
    → IsHashed sha256 (read_migrations fs sha256 path names)
unfolding read_migrations
read_migrations-IsHashed fs sha256 path [] = tt
read_migrations-IsHashed fs sha256 path (n ∷ names) =
    ground (arith, read_migrations-IsHashed fs sha256 path names)

list_migrations-IsHashed :
    (fs : FileSystem) (sha256 : Sha256) (path : Text)
    → IsHashed sha256 (list_migrations fs sha256 path)
unfolding list_migrations
list_migrations-IsHashed fs sha256 path = ground (
  arith,
  read_migrations-IsHashed fs sha256 path
      (fs.sorted (directories fs sha256 path (fs.readdir_sync path))),
)

module _ {S : Type 0} (host : Host S) (sha256 : Sha256) (files : List MigrationFile) where
  module _ (rows rows' : List HistoryRow)
      (grown : entries rows'
        ≡ entries rows ++ map applied_entry (pending (row_names (active rows)) files)) where
    active_grown :
        entries (active rows')
        ≡ entries (active rows)
          ++ map applied_entry (pending (entry_names (entries (active rows))) files)
    active_grown =
        let new = pending (row_names (active rows)) files in
        entries-active rows'
        ∙ ap live_entries grown
        ∙ live_entries-append (entries rows) (map applied_entry new)
        ∙ ap (◌++◌ (live_entries (entries rows))) (live_entries-applied new)
        ∙ ap (λ l. l ++ map applied_entry new) (sym (entries-active rows))
        ∙ ap (λ l. entries (active rows) ++ map applied_entry (pending l files))
            (sym (entry_names-rows (active rows)))

    names_grown :
        row_names (active rows')
        ≡ row_names (active rows) ++ names_of (pending (row_names (active rows)) files)
    names_grown =
        let es = entries (active rows) in
        let new = pending (entry_names es) files in
        sym (entry_names-rows (active rows'))
        ∙ ap entry_names active_grown
        ∙ entry_names-append es (map applied_entry new)
        ∙ ap (◌++◌ (entry_names es)) (entry_names-applied new)
        ∙ ap (λ l. l ++ names_of (pending l files)) (entry_names-rows (active rows))

    IsValid-grown :
        Distinct (names_of files)
        → IsHashed sha256 files
        → IsValid sha256 files (active rows)
        → IsValid sha256 files (active rows')
    IsValid-grown d h v = IsSound-IsValid sha256 files (active rows') (
        subst (IsSound sha256 files) (sym active_grown) (
          IsSound-applied sha256 (entries (active rows)) files d h
            (IsValid-IsSound sha256 files (active rows) v)))

    names_there :
        (x : Text) → member x (names_of files) ≡ true → member x (row_names (active rows')) ≡ true
    names_there x e = ap (member x) names_grown ∙ member-done x (row_names (active rows)) files e

  rows_there :
      (ms : List MigrationFile) (rows : List HistoryRow)
      → ms ≢ []
      → ((x : Text) → member x (names_of ms) ≡ true → member x (row_names rows) ≡ true)
      → rows ≢ []
  rows_there [] rows ne h = absurd (ne refl)
  rows_there (m ∷ ms) [] ne h = λ e. cc (h m.name (rw (same_self m.name)))
  rows_there (m ∷ ms) (row ∷ rows) ne h = λ e. cc

-- Once the migrations of a directory have been applied, another run applies nothing, skips them all,
-- and leaves the history and the rest of the database as they were. The directory is not empty and
-- lists no name twice, the host draws no id twice, and it refuses neither of the two statements that
-- the second run makes.
pub second_run :
    {S : Type 0} (host : Host S) (fs : FileSystem) (sha256 : Sha256) (path : Text) (db db' : Db S)
    (o : Outcome)
    → let files = list_migrations fs sha256 path in
      DrawsFresh host
      → Distinct (names_of files)
      → files ≢ []
      → apply_migrations host sha256 files db ≡ (db', ok o)
      → host.refuses db'.store create_table ≡ none
      → host.refuses db'.store read_history ≡ none
      → apply_migrations host sha256 files db' ≡ (
        with_rows host db' (rows_of db'.table),
        ok (record { applied = []; skipped = names_of files }),
      )
second_run host fs sha256 path db db' o fresh d ne h c r =
    let files = list_migrations fs sha256 path in
    let rows = rows_of db.table in
    let rows' = rows_of db'.table in
    let (v, _, _, grown, _) = apply_migrations_ok host sha256 files db db' o fresh h in
    let there = names_there host sha256 files rows rows' grown in
    recorded_run host sha256 files db'
      (IsValid-grown host sha256 files rows rows' grown d (list_migrations-IsHashed fs sha256 path)
        (validate_history_ok sha256 rows files v))
      (rows_there host sha256 files files (active rows') ne there) there c r
