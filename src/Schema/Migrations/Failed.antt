-- ===== src/Schema/Migrations/Failed.antt =====
-- A script that fails leaves its row, which the next run reports (src/schema/migrations.ts).
use prisma_pglite_bridge.Prelude.{
  ℕ, ◌≡◌, ◌≢◌, ◌⊎◌, refl, sym, ap, ◌∙◌, inl, inr, Bool, true, false, Option, none, some, List, [],
  ◌∷◌, ◌++◌, Result, ok, err, Bool-cases, Option-cases, arith,
}
use prisma_pglite_bridge.Duplex.CopyIn.{Text}
use prisma_pglite_bridge.Utils.Maps.{same_self}
use prisma_pglite_bridge.Schema.Migrations.Files.{MigrationFile, Sha256}
use prisma_pglite_bridge.Schema.Migrations.History.{
  HistoryRow, Fault, Problem, apply_failed, failed, is_null, is_active, active, row_names, member,
  unfinished, repeated, without_file, first_edited, check_failed, check_repeated, check_missing,
  check_edited, validate_history, ◌>>◌,
}
use prisma_pglite_bridge.Schema.Migrations.{
  Db, Host, Outcome, M, rows_of, started_row, apply_migration, apply_next, apply_loop, apply_valid,
  apply_guarded, apply_read, apply_created, apply_migrations, on_ok, skip, apply, insert_and_run,
  run_script, finish_migration, with_rows, refusal, create_table, read_history, ask_user_tables,
  has_tables_only, every_rolled_back,
}

abbrev is_script : Problem → Bool
is_script (apply_failed n fault) = true
is_script _ = false

check_failed_script :
    (names : List Text) {p : Problem} → check_failed names ≡ err p → is_script p ≡ false
check_failed_script [] h = cc
check_failed_script (n ∷ names) h = ground arith

check_repeated_script :
    (o : Option Text) {p : Problem} → check_repeated o ≡ err p → is_script p ≡ false
check_repeated_script none h = cc
check_repeated_script (some n) h = ground arith

check_missing_script :
    (names : List Text) {p : Problem} → check_missing names ≡ err p → is_script p ≡ false
check_missing_script [] h = cc
check_missing_script (n ∷ names) h = ground arith

check_edited_script : (o : Option Text) {p : Problem} → check_edited o ≡ err p → is_script p ≡ false
check_edited_script none h = cc
check_edited_script (some n) h = ground arith

then_err {ℓ} :
    {A : Type ℓ} (m : Result Problem (Unit {0})) (next : Result Problem A) {p : Problem}
    → (m >> next) ≡ err p
    → (m ≡ err p) ⊎ (next ≡ err p)
then_err (ok tt) next h = inr h
then_err (err q) next h = inl (ground arith)

-- The checks report no script.
validate_history_script :
    (sha256 : Sha256) (rows : List HistoryRow) (files : List MigrationFile) {p : Problem}
    → validate_history sha256 rows files ≡ err p
    → is_script p ≡ false
unfolding validate_history
validate_history_script sha256 rows files {p} h =
    let live = active rows in
    elim (then_err (check_failed (unfinished live)) _ {p = p} h) [
      | inl a ↦ check_failed_script (unfinished live) a
      | inr h1 ↦ elim (then_err (check_repeated (repeated [] (row_names live))) _ {p = p} h1) [
        | inl b ↦ check_repeated_script (repeated [] (row_names live)) b
        | inr h2 ↦
            elim (then_err (check_missing (without_file (row_names live) files)) _ {p = p} h2) [
              | inl c ↦ check_missing_script (without_file (row_names live) files) c
              | inr d ↦ check_edited_script (first_edited sha256 live files) d
            ]
      ]
    ]

-- The last row was started for the migration and is neither finished nor rolled back.
record EndsStarted (n : Text) (rows : List HistoryRow) : Type 0 where
  before : List HistoryRow
  row : HistoryRow
  rows_lem : rows ≡ before ++ row ∷ []
  named : row.migration_name ≡ n
  unfinished_lem : row.finished_at ≡ none
  live : row.rolled_back_at ≡ none

module _ {S : Type 0} (host : Host S) where
  finish_migration_failed :
      (m : MigrationFile) (id : ℕ) (db db' : Db S) (fault : Option Fault) (n : Text) (f : Fault)
      → finish_migration host m id db fault ≢ (db', err (apply_failed n f))
  finish_migration_failed m id db db' none n f = λ h. cc
  finish_migration_failed m id db db' (some g) n f = λ h. cc

  run_script_failed :
      (m : MigrationFile) (id : ℕ) (db db' : Db S) (store : S) (fault : Option Fault) (n : Text)
      (f : Fault)
      → run_script host m id db (store, fault) ≡ (db', err (apply_failed n f))
      → (m.name ≡ n) × (db'.table ≡ db.table)
  run_script_failed m id db db' store (some g) n f h =
      (cc, ap (λ (r : M host (Unit {0})). r.0.table) (sym h))
  run_script_failed m id db db' store none n f h =
      absurd (finish_migration_failed m id (record db { store = store }) db' _ n f h)

  insert_and_run_failed :
      (m : MigrationFile) (db db' : Db S) (fault : Option Fault) (n : Text) (f : Fault)
      → insert_and_run host m db fault ≡ (db', err (apply_failed n f))
      → (m.name ≡ n) × (db'.table ≡ some (rows_of db.table ++ started_row host db m ∷ []))
  insert_and_run_failed m db db' (some g) n f h = cc
  insert_and_run_failed m db db' none n f h =
      run_script_failed m (host.random_uuid db)
        (with_rows host db (rows_of db.table ++ started_row host db m ∷ [])) db'
        (host.exec db.store m.sql).0 (host.exec db.store m.sql).1 n f h

  abbrev Left : Db S → Text → Type 0
  Left db n = EndsStarted n (rows_of db.table)

  apply_migration_failed :
      (m : MigrationFile) (db db' : Db S) (n : Text) (f : Fault)
      → apply_migration host db m ≡ (db', err (apply_failed n f))
      → Left db' n
  unfolding apply_migration
  apply_migration_failed m db db' n f h =
      let (named, e) = insert_and_run_failed m db db' _ n f h in
      record {
        before = rows_of db.table;
        row = started_row host db m;
        rows_lem = ap rows_of e;
        named = named;
        unfinished_lem = refl;
        live = refl;
      }

  on_ok_failed :
      (g : Outcome → Outcome) (r : M host Outcome) (db' : Db S) {p : Problem}
      → on_ok host g r ≡ (db', err p)
      → r ≡ (db', err p)
  on_ok_failed g (db, ok a) db' h = cc
  on_ok_failed g (db, err q) db' h = h

  apply_next_failed :
      (m : MigrationFile) (next : Db S → M host Outcome) (r : M host (Unit {0})) (db' : Db S)
      {p : Problem}
      → apply_next host m.name next r ≡ (db', err p)
      → (r ≡ (db', err p)) ⊎ ((db : Db S) × (next db ≡ (db', err p)))
  apply_next_failed m next (db, ok tt) db' {p} h =
      inr (db, on_ok_failed (apply m.name) (next db) db' {p = p} h)
  apply_next_failed m next (db, err q) db' h = inl (cc)

  apply_loop_failed :
      (done : List Text) (ms : List MigrationFile) (db db' : Db S) (n : Text) (f : Fault)
      → apply_loop host done ms db ≡ (db', err (apply_failed n f))
      → Left db' n
  unfolding apply_loop
  apply_loop_failed done [] db db' n f h = cc
  apply_loop_failed done (m ∷ ms) db db' n f h = elim (Bool-cases (member m.name done)) [
    | inl y ↦ apply_loop_failed done ms db db' n f (
        on_ok_failed (skip m.name) (apply_loop host done ms db) db' {p = apply_failed n f}
          (ground arith))
    | inr new ↦
        elim (apply_next_failed m (apply_loop host done ms) (apply_migration host db m) db'
          {p = apply_failed n f} (ground arith)) [
            | inl e ↦ apply_migration_failed m db db' n f e
            | inr (db1, e) ↦ apply_loop_failed done ms db1 db' n f e
          ]
  ]

  refusal_script : (o : Option Fault) {p : Problem} → refusal host o ≡ err p → is_script p ≡ false
  refusal_script none h = cc
  refusal_script (some g) h = ground arith

  has_tables_only_script :
      (rows : List HistoryRow) (store : S) {p : Problem}
      → has_tables_only host rows store ≡ err p
      → is_script p ≡ false
  has_tables_only_script rows store {p} h = elim (Bool-cases (every_rolled_back rows)) [
    | inl y ↦ elim (Option-cases (host.refuses store ask_user_tables)) [
      | inl e ↦ ground arith
      | inr (g, e) ↦ ground arith
    ]
    | inr n ↦ ground arith
  ]

  module _ (sha256 : Sha256) (files : List MigrationFile) (db' : Db S) (n : Text) (f : Fault) where
    apply_valid_failed :
        (rows : List HistoryRow) (db : Db S) (r : Result Problem (Unit {0}))
        → ((p : Problem) → r ≡ err p → is_script p ≡ false)
        → apply_valid host rows files db r ≡ (db', err (apply_failed n f))
        → Left db' n
    apply_valid_failed rows db (ok tt) c h =
        apply_loop_failed (row_names (active rows)) files db db' n f h
    apply_valid_failed rows db (err p) c h =
        let e : p ≡ apply_failed n f = cc in let k = c p refl in ground (arith, k)

    apply_guarded_failed :
        (rows : List HistoryRow) (db : Db S) (r : Result Problem Bool)
        → ((p : Problem) → r ≡ err p → is_script p ≡ false)
        → apply_guarded host sha256 rows files db r ≡ (db', err (apply_failed n f))
        → Left db' n
    apply_guarded_failed rows db (ok true) c h = cc
    apply_guarded_failed rows db (ok false) c h =
        apply_valid_failed rows db (validate_history sha256 rows files)
          (λ p. validate_history_script sha256 rows files {p = p}) h
    apply_guarded_failed rows db (err p) c h =
        let e : p ≡ apply_failed n f = cc in let k = c p refl in ground (arith, k)

    apply_read_failed :
        (db : Db S) (o : Option Fault)
        → apply_read host sha256 files db (refusal host o) ≡ (db', err (apply_failed n f))
        → Left db' n
    apply_read_failed db none h =
        apply_guarded_failed (rows_of db.table) db _
          (λ p. has_tables_only_script (rows_of db.table) db.store {p = p}) h
    apply_read_failed db (some g) h = cc

    apply_created_failed :
        (db : Db S) (o : Option Fault)
        → apply_created host sha256 files db (refusal host o) ≡ (db', err (apply_failed n f))
        → Left db' n
    apply_created_failed db none h =
        apply_read_failed (with_rows host db (rows_of db.table))
          (host.refuses db.store read_history) h
    apply_created_failed db (some g) h = cc

active-append :
    (rows : List HistoryRow) (row : HistoryRow)
    → row.rolled_back_at ≡ none
    → active (rows ++ row ∷ []) ≡ active rows ++ row ∷ []
active-append [] row l = ground arith
active-append (r ∷ rows) row l =
    let k = active-append rows row l in
    elim (Bool-cases (is_active r)) [ inl y ↦ ground (arith, k) | inr n ↦ ground (arith, k) ]

member-unfinished :
    (rows : List HistoryRow) (row : HistoryRow) (n : Text)
    → row.migration_name ≡ n
    → row.finished_at ≡ none
    → member n (unfinished (rows ++ row ∷ [])) ≡ true
member-unfinished [] row n e u = let s = same_self n in ground arith
member-unfinished (r ∷ rows) row n e u =
    let k = member-unfinished rows row n e u in
    elim (Bool-cases (is_null r.finished_at)) [
      | inl y ↦ ground (arith, k)
      | inr m ↦ ground (arith, k)
    ]

every_rolled_back-append :
    (rows : List HistoryRow) (row : HistoryRow)
    → row.rolled_back_at ≡ none
    → every_rolled_back (rows ++ row ∷ []) ≡ false
every_rolled_back-append [] row l = ground arith
every_rolled_back-append (r ∷ rows) row l =
    let k = every_rolled_back-append rows row l in ground (arith, k)

check_failed-member :
    (names : List Text) (n : Text) → member n names ≡ true → check_failed names ≡ err (failed names)
check_failed-member [] n h = cc
check_failed-member (m ∷ names) n h = refl

started_reported :
    (n : Text) (rows : List HistoryRow)
    → EndsStarted n rows
    → (member n (unfinished (active rows)) ≡ true) × (every_rolled_back rows ≡ false)
started_reported n rows s =
    let live : active rows ≡ active s.before ++ s.row ∷ [] =
      ap active s.rows_lem ∙ active-append s.before s.row s.live in
    (
      ap (λ l. member n (unfinished l)) live
          ∙ member-unfinished (active s.before) s.row n s.named s.unfinished_lem,
      ap every_rolled_back s.rows_lem ∙ every_rolled_back-append s.before s.row s.live,
    )

validate_history_failed :
    (sha256 : Sha256) (rows : List HistoryRow) (files : List MigrationFile) (n : Text)
    → member n (unfinished (active rows)) ≡ true
    → validate_history sha256 rows files ≡ err (failed (unfinished (active rows)))
unfolding validate_history
validate_history_failed sha256 rows files n h =
    rw (check_failed-member (unfinished (active rows)) n h)

-- Where a script fails, the next run reports its migration as one that was started and never
-- finished, whatever the directory holds by then, and runs nothing: the history and the rest of the
-- database are as the failed run left them. The host refuses neither of the two statements that
-- the next run makes.
pub next_run_reports :
    {S : Type 0} (host : Host S) (sha256 : Sha256) (files files' : List MigrationFile)
    (db db' : Db S) (n : Text) (fault : Fault)
    → apply_migrations host sha256 files db ≡ (db', err (apply_failed n fault))
    → host.refuses db'.store create_table ≡ none
    → host.refuses db'.store read_history ≡ none
    → (names : List Text) × (member n names ≡ true)
      × (apply_migrations host sha256 files' db'
          ≡ (with_rows host db' (rows_of db'.table), err (failed names)))
unfolding apply_migrations
next_run_reports host sha256 files files' db db' n fault h c r =
    let rows = rows_of db'.table in
    let names = unfinished (active rows) in
    let (there, guard) = started_reported n rows (
      apply_created_failed host sha256 files db' n fault db (host.refuses db.store create_table)
        h) in
    (names, there, rw c (rw r (rw guard (rw (validate_history_failed sha256 rows files' n there)))))
