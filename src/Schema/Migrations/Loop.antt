-- ===== src/Schema/Migrations/Loop.antt =====
-- What a run of the migrations leaves in the history (applyMigrations in src/schema/migrations.ts).
use prisma_pglite_bridge.Prelude.{
  ℕ, ◌≡◌, refl, sym, ap, ◌∙◌, subst, inl, inr, ◌==◌, Bool, true, false, Option, none, some, List,
  [], ◌∷◌, ◌++◌, append_assoc, append-nil, map, Result, ok, err, All, Bool-cases, arith,
}
use prisma_pglite_bridge.Duplex.CopyIn.{Text}
use prisma_pglite_bridge.Schema.Migrations.Files.{MigrationFile, Sha256, names_of}
use prisma_pglite_bridge.Schema.Migrations.History.{
  HistoryRow, Fault, Problem, is_active, active, row_names, member, validate_history,
}
use prisma_pglite_bridge.Schema.Migrations.Plain.{live, live_lem}
use prisma_pglite_bridge.Schema.Migrations.{
  Db, Host, Outcome, M, rows_of, is_finished, mark_finished, started_row, apply_migration,
  apply_next, apply_loop, apply_valid, apply_guarded, apply_read, apply_created, apply_migrations,
  on_ok, skip, apply, nothing, insert_and_run, run_script, finish_migration, with_rows,
}

-- What a row says of a migration.
pub record Entry : Type 0 where
  pub name : Text
  pub checksum : Text
  pub finished : Bool
  pub live : Bool

abbrev pub entry_of : HistoryRow → Entry
entry_of row = record {
  name = row.migration_name;
  checksum = row.checksum;
  finished = is_finished row;
  live = is_active row;
}

abbrev pub entries : List HistoryRow → List Entry
entries rows = map entry_of rows

abbrev pub applied_entry : MigrationFile → Entry
applied_entry m = record { name = m.name; checksum = m.checksum; finished = true; live = true }

-- The migrations that are not recorded, and those that are.
abbrev pub pending : List Text → List MigrationFile → List MigrationFile
pending done [] = []
pending done (m ∷ ms) = elim (member m.name done) [
  | true ↦ pending done ms
  | false ↦ m ∷ pending done ms
]

abbrev pub recorded : List Text → List MigrationFile → List MigrationFile
recorded done [] = []
recorded done (m ∷ ms) = elim (member m.name done) [
  | true ↦ m ∷ recorded done ms
  | false ↦ recorded done ms
]

pub split-done :
    (done : List Text) (m : MigrationFile) (ms : List MigrationFile)
    → member m.name done ≡ true
    → (pending done (m ∷ ms) ≡ pending done ms) × (recorded done (m ∷ ms) ≡ m ∷ recorded done ms)
split-done done m ms y = (rw (y, pending), rw (y, recorded))

pub split-new :
    (done : List Text) (m : MigrationFile) (ms : List MigrationFile)
    → member m.name done ≡ false
    → (pending done (m ∷ ms) ≡ m ∷ pending done ms) × (recorded done (m ∷ ms) ≡ recorded done ms)
split-new done m ms n = (rw (n, pending), rw (n, recorded))

abbrev pub WithoutId : ℕ → List HistoryRow → Type 0
WithoutId id rows = All (λ (row : HistoryRow). (row.id == id) ≡ false) rows

-- A new id is the id of no row.
abbrev pub DrawsFresh : {S : Type 0} → Host S → Type 0
DrawsFresh {S} host = (db : Db S) → WithoutId (host.random_uuid db) (rows_of db.table)

mark_finished-append :
    (id : ℕ) (time : Text) (rows : List HistoryRow) (row : HistoryRow)
    → WithoutId id rows
    → (row.id == id) ≡ true
    → mark_finished id time (rows ++ row ∷ []) ≡ rows ++ record row { finished_at = some time } ∷ []
unfolding mark_finished
mark_finished-append id time [] row w e = rw e
mark_finished-append id time (r ∷ rows) row w e =
    rw (w.0) (ap (◌∷◌ r) (mark_finished-append id time rows row w.1 e))

entries-append :
    (rows : List HistoryRow) (row : HistoryRow)
    → entries (rows ++ row ∷ []) ≡ entries rows ++ entry_of row ∷ []
entries-append [] row = refl
entries-append (r ∷ rows) row = ap (◌∷◌ (entry_of r)) (entries-append rows row)

module _ {S : Type 0} (host : Host S) where
  finish_migration_ok :
      (m : MigrationFile) (id : ℕ) (db db' : Db S) (fault : Option Fault)
      → finish_migration host m id db fault ≡ (db', ok tt)
      → (time : Text) × (rows_of db'.table ≡ mark_finished id time (rows_of db.table))
  finish_migration_ok m id db db' (some f) h = cc
  finish_migration_ok m id db db' none h =
      (host.now db.store, ap (λ (r : M host (Unit {0})). rows_of r.0.table) (sym h))

  run_script_ok :
      (m : MigrationFile) (id : ℕ) (db db' : Db S) (store : S) (fault : Option Fault)
      → run_script host m id db (store, fault) ≡ (db', ok tt)
      → (time : Text) × (rows_of db'.table ≡ mark_finished id time (rows_of db.table))
  run_script_ok m id db db' store (some f) h = cc
  run_script_ok m id db db' store none h =
      finish_migration_ok m id (record db { store = store }) db' _ h

  insert_and_run_ok :
      (m : MigrationFile) (db db' : Db S) (fault : Option Fault)
      → insert_and_run host m db fault ≡ (db', ok tt)
      → (time : Text) × (rows_of db'.table
          ≡ mark_finished
              (host.random_uuid db)
              time
              (rows_of db.table ++ started_row host db m ∷ []))
  insert_and_run_ok m db db' (some f) h = cc
  insert_and_run_ok m db db' none h =
      run_script_ok m (host.random_uuid db)
        (with_rows host db (rows_of db.table ++ started_row host db m ∷ [])) db'
        (host.exec db.store m.sql).0 (host.exec db.store m.sql).1 h

  apply_migration_ok :
      (db : Db S) (m : MigrationFile) (db' : Db S)
      → WithoutId (host.random_uuid db) (rows_of db.table)
      → apply_migration host db m ≡ (db', ok tt)
      → entries (rows_of db'.table) ≡ entries (rows_of db.table) ++ applied_entry m ∷ []
  unfolding apply_migration
  apply_migration_ok db m db' w h =
      let id = host.random_uuid db in
      let row = started_row host db m in
      let (time, e) = insert_and_run_ok m db db' _ h in
      let id_is : (row.id == id) ≡ true = ground arith in
      ap entries (e ∙ mark_finished-append id time (rows_of db.table) row w id_is)
      ∙ entries-append (rows_of db.table) (record row { finished_at = some time })

  finish_migration_exec :
      (m : MigrationFile) (id : ℕ) (db db' : Db S) (fault : Option Fault)
      → finish_migration host m id db fault ≡ (db', ok tt)
      → db.store ≡ db'.store
  finish_migration_exec m id db db' (some f) h = cc
  finish_migration_exec m id db db' none h = ap (λ (r : M host (Unit {0})). r.0.store) h

  run_script_exec :
      (m : MigrationFile) (id : ℕ) (db db' : Db S) (r : S × Option Fault)
      → run_script host m id db r ≡ (db', ok tt)
      → r ≡ (db'.store, none)
  run_script_exec m id db db' (store, some f) h = cc
  run_script_exec m id db db' (store, none) h =
      ap (λ (s : S). (s, none)) (finish_migration_exec m id (record db { store = store }) db' _ h)

  insert_and_run_exec :
      (m : MigrationFile) (db db' : Db S) (fault : Option Fault)
      → insert_and_run host m db fault ≡ (db', ok tt)
      → host.exec db.store m.sql ≡ (db'.store, none)
  insert_and_run_exec m db db' (some f) h = cc
  insert_and_run_exec m db db' none h =
      run_script_exec m (host.random_uuid db)
        (with_rows host db (rows_of db.table ++ started_row host db m ∷ [])) db'
        (host.exec db.store m.sql) h

  apply_migration_exec :
      (db : Db S) (m : MigrationFile) (db' : Db S)
      → apply_migration host db m ≡ (db', ok tt)
      → host.exec db.store m.sql ≡ (db'.store, none)
  unfolding apply_migration
  apply_migration_exec db m db' h = insert_and_run_exec m db db' _ h

  -- The scripts were run in this order without a fault, each once and on what the one before left.
  pub data IsExecuted : S → List MigrationFile → S → Type 0 where
    no_script : (s : S) → IsExecuted s [] s
    script_run :
        (s s1 s2 : S) (m : MigrationFile) (ms : List MigrationFile)
        → host.exec s m.sql ≡ (s1, none)
        → IsExecuted s1 ms s2
        → IsExecuted s (m ∷ ms) s2

  -- What the loop does where it succeeds.
  pub record IsRun (done : List Text) (files : List MigrationFile) (db db' : Db S) (o : Outcome)
      : Type 0 where
    pub applied_lem : o.applied ≡ names_of (pending done files)
    pub skipped_lem : o.skipped ≡ names_of (recorded done files)
    pub rows_lem :
        entries (rows_of db'.table)
        ≡ entries (rows_of db.table) ++ map applied_entry (pending done files)
    pub store_lem : IsExecuted db.store (pending done files) db'.store

  on_ok_lem :
      (f : Outcome → Outcome) (r : M host Outcome) (db' : Db S) (o : Outcome)
      → on_ok host f r ≡ (db', ok o)
      → (o' : Outcome) × (r ≡ (db', ok o')) × (f o' ≡ o)
  on_ok_lem f (db, ok a) db' o h = (a, cc, cc)
  on_ok_lem f (db, err p) db' o h = cc

  apply_next_lem :
      (n : Text) (next : Db S → M host Outcome) (r : M host (Unit {0})) (db' : Db S) (o : Outcome)
      → apply_next host n next r ≡ (db', ok o)
      → (db1 : Db S) × (r ≡ (db1, ok tt))
        × (o' : Outcome) × (next db1 ≡ (db', ok o'))
        × (apply n o' ≡ o)
  apply_next_lem n next (db, ok tt) db' o h =
      let (o', e, f) = on_ok_lem (apply n) (next db) db' o h in (db, refl, o', e, f)
  apply_next_lem n next (db, err p) db' o h = cc

  IsRun-skip :
      (done : List Text) (m : MigrationFile) (ms : List MigrationFile) (db db' : Db S) (o : Outcome)
      → member m.name done ≡ true
      → IsRun done ms db db' o
      → IsRun done (m ∷ ms) db db' (skip m.name o)
  IsRun-skip done m ms db db' o y r = record {
    applied_lem = r.applied_lem ∙ ap names_of (sym (split-done done m ms y).0);
    skipped_lem = ap (◌∷◌ m.name) r.skipped_lem ∙ ap names_of (sym (split-done done m ms y).1);
    rows_lem =
        r.rows_lem
        ∙ ap (λ l. entries (rows_of db.table) ++ map applied_entry l)
            (sym (split-done done m ms y).0);
    store_lem =
        subst (λ l. IsExecuted db.store l db'.store) (sym (split-done done m ms y).0) r.store_lem;
  }

  IsRun-apply :
      (done : List Text) (m : MigrationFile) (ms : List MigrationFile) (db db1 db' : Db S)
      (o : Outcome)
      → member m.name done ≡ false
      → entries (rows_of db1.table) ≡ entries (rows_of db.table) ++ applied_entry m ∷ []
      → host.exec db.store m.sql ≡ (db1.store, none)
      → IsRun done ms db1 db' o
      → IsRun done (m ∷ ms) db db' (apply m.name o)
  IsRun-apply done m ms db db1 db' o n e x r = record {
    applied_lem = ap (◌∷◌ m.name) r.applied_lem ∙ ap names_of (sym (split-new done m ms n).0);
    skipped_lem = r.skipped_lem ∙ ap names_of (sym (split-new done m ms n).1);
    rows_lem =
        r.rows_lem
        ∙ ap (λ l. l ++ map applied_entry (pending done ms)) e
        ∙ append_assoc (entries (rows_of db.table)) (applied_entry m ∷ []) _
        ∙ ap (λ l. entries (rows_of db.table) ++ map applied_entry l)
            (sym (split-new done m ms n).0);
    store_lem =
        subst (λ l. IsExecuted db.store l db'.store) (sym (split-new done m ms n).0)
          (script_run db.store db1.store db'.store m (pending done ms) x r.store_lem);
  }

  apply_loop_ok :
      (done : List Text) (files : List MigrationFile) (db db' : Db S) (o : Outcome)
      → DrawsFresh host
      → apply_loop host done files db ≡ (db', ok o)
      → IsRun done files db db' o
  unfolding apply_loop
  apply_loop_ok done [] db db' o fresh h =
      let same_db : db ≡ db' = cc in
      let same_o : nothing ≡ o = cc in
      record {
        applied_lem = ap (λ (x : Outcome). x.applied) (sym same_o);
        skipped_lem = ap (λ (x : Outcome). x.skipped) (sym same_o);
        rows_lem = ap (λ (x : Db S). entries (rows_of x.table)) (sym same_db) ∙ sym (append-nil _);
        store_lem =
            subst (λ (x : Db S). IsExecuted db.store [] x.store) same_db (no_script db.store);
      }
  apply_loop_ok done (m ∷ ms) db db' o fresh h = elim (Bool-cases (member m.name done)) [
    | inl y ↦
        let (o', e, f) =
          on_ok_lem (skip m.name) (apply_loop host done ms db) db' o (ground arith) in
        subst (IsRun done (m ∷ ms) db db') f
          (IsRun-skip done m ms db db' o' y (apply_loop_ok done ms db db' o' fresh e))
    | inr n ↦
        let (db1, a, o', e, f) =
          apply_next_lem m.name (apply_loop host done ms) (apply_migration host db m) db' o
            (ground arith) in
        subst (IsRun done (m ∷ ms) db db') f (
          IsRun-apply done m ms db db1 db' o' n (apply_migration_ok db m db1 (fresh db) a)
            (apply_migration_exec db m db1 a) (apply_loop_ok done ms db1 db' o' fresh e))
  ]

  -- A run that succeeds has passed the checks.
  apply_valid_ok :
      (rows : List HistoryRow) (files : List MigrationFile) (db db' : Db S) (o : Outcome)
      (r : Result Problem (Unit {0}))
      → apply_valid host rows files db r ≡ (db', ok o)
      → (r ≡ ok tt) × (apply_loop host (row_names (active rows)) files db ≡ (db', ok o))
  apply_valid_ok rows files db db' o (ok tt) h = (refl, h)
  apply_valid_ok rows files db db' o (err p) h = cc

  module _ (sha256 : Sha256) where
    abbrev Checked : List MigrationFile → List HistoryRow → Db S → Db S → Outcome → Type 0
    Checked files rows db db' o =
        (validate_history sha256 rows files ≡ ok tt)
        × IsRun (row_names (active rows)) files db db' o

    apply_guarded_ok :
        (rows : List HistoryRow) (files : List MigrationFile) (db db' : Db S) (o : Outcome)
        (r : Result Problem Bool)
        → DrawsFresh host
        → apply_guarded host sha256 rows files db r ≡ (db', ok o)
        → Checked files rows db db' o
    apply_guarded_ok rows files db db' o (err p) fresh h = cc
    apply_guarded_ok rows files db db' o (ok true) fresh h = cc
    apply_guarded_ok rows files db db' o (ok false) fresh h =
        let (v, l) = apply_valid_ok rows files db db' o (validate_history sha256 rows files) h in
        (v, apply_loop_ok (row_names (active rows)) files db db' o fresh l)

    apply_read_ok :
        (files : List MigrationFile) (db db' : Db S) (o : Outcome) (r : Result Problem (Unit {0}))
        → DrawsFresh host
        → apply_read host sha256 files db r ≡ (db', ok o)
        → Checked files (rows_of db.table) db db' o
    apply_read_ok files db db' o (err p) fresh h = cc
    apply_read_ok files db db' o (ok tt) fresh h =
        apply_guarded_ok (rows_of db.table) files db db' o _ fresh h

    apply_created_ok :
        (files : List MigrationFile) (db db' : Db S) (o : Outcome) (r : Result Problem (Unit {0}))
        → DrawsFresh host
        → apply_created host sha256 files db r ≡ (db', ok o)
        → Checked files (rows_of db.table) (with_rows host db (rows_of db.table)) db' o
    apply_created_ok files db db' o (err p) fresh h = cc
    apply_created_ok files db db' o (ok tt) fresh h =
        apply_read_ok files (with_rows host db (rows_of db.table)) db' o _ fresh h

    pub apply_migrations_ok :
        (files : List MigrationFile) (db db' : Db S) (o : Outcome)
        → DrawsFresh host
        → apply_migrations host sha256 files db ≡ (db', ok o)
        → let rows = rows_of db.table in
          let done = row_names (active rows) in
          (validate_history sha256 rows files ≡ ok tt)
          × (o.applied ≡ names_of (pending done files))
          × (o.skipped ≡ names_of (recorded done files))
          × (entries (rows_of db'.table) ≡ entries rows ++ map applied_entry (pending done files))
          × IsExecuted db.store (pending done files) db'.store
    unfolding apply_migrations
    apply_migrations_ok files db db' o fresh h =
        let (v, r) = apply_created_ok files db db' o _ fresh h in
        (v, r.applied_lem, r.skipped_lem, r.rows_lem, r.store_lem)

    -- Where the migrations are applied, the history was valid, those that a row that was not
    -- rolled back names are skipped and the others applied, in the directory's order: the
    -- database is what running the script of each of these once, without a fault and on what the
    -- one before left, makes of the database before, and what the history says afterwards is what
    -- it said before and then of each migration applied that it is finished with its checksum.
    -- The host draws no id twice, and no script writes to the history's table.
    pub apply_migrations_lem :
        (files : List MigrationFile) (db db' : Db S) (o : Outcome)
        → DrawsFresh host
        → apply_migrations host sha256 files db ≡ (db', ok o)
        → let rows = rows_of db.table in
          let done = row_names (live rows) in
          (validate_history sha256 rows files ≡ ok tt)
          × (o.applied ≡ names_of (pending done files))
          × (o.skipped ≡ names_of (recorded done files))
          × (entries (rows_of db'.table) ≡ entries rows ++ map applied_entry (pending done files))
          × IsExecuted db.store (pending done files) db'.store
    apply_migrations_lem files db db' o fresh h =
        let rows = rows_of db.table in
        subst
          (λ l.
            let done = row_names l in
            (validate_history sha256 rows files ≡ ok tt)
            × (o.applied ≡ names_of (pending done files))
            × (o.skipped ≡ names_of (recorded done files))
            × (entries (rows_of db'.table) ≡ entries rows ++ map applied_entry (pending done files))
            × IsExecuted db.store (pending done files) db'.store)
          (sym (live_lem rows)) (apply_migrations_ok files db db' o fresh h)
