-- ===== src/Schema/Migrations/Again.antt =====
-- A second run of the migrations changes nothing (applyMigrations in src/schema/migrations.ts).
use prisma_pglite_bridge.Prelude.{
  ◌≡◌, ◌≢◌, refl, sym, ap, ◌∙◌, subst, inl, inr, true, false, none, some, List, [], ◌∷◌, ◌++◌,
  append_assoc, map, ok, All, All-append, Bool-cases, arith,
}
use prisma_pglite_bridge.Duplex.CopyIn.{Text}
use prisma_pglite_bridge.Utils.Maps.{same_self}
use prisma_pglite_bridge.Schema.Migrations.Files.{MigrationFile, Sha256, names_of}
use prisma_pglite_bridge.Schema.Migrations.History.{
  HistoryRow, is_null, is_active, active, row_names, member, by_name, checksum_matches,
}
use prisma_pglite_bridge.Schema.Migrations.{
  Db, Host, rows_of, apply_loop, apply_migrations, with_rows, create_table, read_history,
  every_rolled_back,
}
use prisma_pglite_bridge.Schema.Migrations.Valid.{
  Distinct, Recorded, IsValid, IsValid-validate_history,
}
use prisma_pglite_bridge.Schema.Migrations.Names.{
  Distinct-append, Distinct-pending, pending-Apart, by_name_self,
}
use prisma_pglite_bridge.Schema.Migrations.Loop.{
  split-done, split-new, Entry, entries, applied_entry, pending,
}

-- The entries of the active rows.
abbrev pub live_entries : List Entry → List Entry
live_entries [] = []
live_entries (e ∷ es) = elim e.live [ true ↦ e ∷ live_entries es | false ↦ live_entries es ]

abbrev pub entry_names : List Entry → List Text
entry_names es = map (λ (e : Entry). e.name) es

pub entries-active : (rows : List HistoryRow) → entries (active rows) ≡ live_entries (entries rows)
entries-active [] = refl
entries-active (row ∷ rows) =
    let k = entries-active rows in
    elim (Bool-cases (is_active row)) [ inl y ↦ ground (arith, k) | inr n ↦ ground (arith, k) ]

pub live_entries-append :
    (xs ys : List Entry) → live_entries (xs ++ ys) ≡ live_entries xs ++ live_entries ys
live_entries-append [] ys = refl
live_entries-append (e ∷ xs) ys = elim (Bool-cases e.live) [
  | inl y ↦ rw (y, live_entries) (ap (◌∷◌ e) (live_entries-append xs ys))
  | inr n ↦ rw (n, live_entries) (live_entries-append xs ys)
]

pub live_entries-applied :
    (ms : List MigrationFile) → live_entries (map applied_entry ms) ≡ map applied_entry ms
live_entries-applied [] = refl
live_entries-applied (m ∷ ms) = ap (◌∷◌ (applied_entry m)) (live_entries-applied ms)

pub entry_names-rows : (rows : List HistoryRow) → entry_names (entries rows) ≡ row_names rows
entry_names-rows [] = refl
entry_names-rows (row ∷ rows) = ap (◌∷◌ row.migration_name) (entry_names-rows rows)

pub entry_names-append :
    (xs ys : List Entry) → entry_names (xs ++ ys) ≡ entry_names xs ++ entry_names ys
entry_names-append [] ys = refl
entry_names-append (e ∷ xs) ys = ap (◌∷◌ e.name) (entry_names-append xs ys)

pub entry_names-applied :
    (ms : List MigrationFile) → entry_names (map applied_entry ms) ≡ names_of ms
entry_names-applied [] = refl
entry_names-applied (m ∷ ms) = ap (◌∷◌ m.name) (entry_names-applied ms)

-- A history is valid by its entries.
abbrev pub EntryRecorded : Sha256 → List MigrationFile → Entry → Type 0
EntryRecorded sha256 files e =
    (file : MigrationFile) × (by_name e.name files ≡ some file)
    × (checksum_matches sha256 e.checksum file.sql ≡ true)

pub record IsSound (sha256 : Sha256) (files : List MigrationFile) (es : List Entry) : Type 0 where
  pub finished : All (λ (e : Entry). e.finished ≡ true) es
  pub distinct : Distinct (entry_names es)
  pub known : All (EntryRecorded sha256 files) es

module _ (sha256 : Sha256) (files : List MigrationFile) where
  finished_of :
      (rows : List HistoryRow)
      → All (λ (row : HistoryRow). is_null row.finished_at ≡ false) rows
      → All (λ (e : Entry). e.finished ≡ true) (entries rows)
  finished_of [] h = tt
  finished_of (row ∷ rows) h = (rw h.0, finished_of rows h.1)

  finished_from :
      (rows : List HistoryRow)
      → All (λ (e : Entry). e.finished ≡ true) (entries rows)
      → All (λ (row : HistoryRow). is_null row.finished_at ≡ false) rows
  finished_from [] h = tt
  finished_from (row ∷ rows) h = let f = h.0 in (ground arith, finished_from rows h.1)

  known_of :
      (rows : List HistoryRow)
      → All (Recorded sha256 files) rows
      → All (EntryRecorded sha256 files) (entries rows)
  known_of [] h = tt
  known_of (row ∷ rows) h = (h.0, known_of rows h.1)

  known_from :
      (rows : List HistoryRow)
      → All (EntryRecorded sha256 files) (entries rows)
      → All (Recorded sha256 files) rows
  known_from [] h = tt
  known_from (row ∷ rows) h = (h.0, known_from rows h.1)

  pub IsSound-IsValid :
      (rows : List HistoryRow) → IsSound sha256 files (entries rows) → IsValid sha256 files rows
  IsSound-IsValid rows s = record {
    finished = finished_from rows s.finished;
    distinct = subst Distinct (entry_names-rows rows) s.distinct;
    recorded = known_from rows s.known;
  }

  pub IsValid-IsSound :
      (rows : List HistoryRow) → IsValid sha256 files rows → IsSound sha256 files (entries rows)
  IsValid-IsSound rows v = record {
    finished = finished_of rows v.finished;
    distinct = subst Distinct (sym (entry_names-rows rows)) v.distinct;
    known = known_of rows v.recorded;
  }

finished-applied :
    (ms : List MigrationFile) → All (λ (e : Entry). e.finished ≡ true) (map applied_entry ms)
finished-applied [] = tt
finished-applied (m ∷ ms) = (refl, finished-applied ms)

abbrev pub IsHashed : Sha256 → List MigrationFile → Type 0
IsHashed sha256 files = All (λ (m : MigrationFile). m.checksum ≡ sha256 m.sql) files

module _ (sha256 : Sha256) where
  -- The migrations from here on, behind those of `before`.
  known-applied :
      (done : List Text) (before ms : List MigrationFile)
      → Distinct (names_of (before ++ ms))
      → IsHashed sha256 ms
      → All (EntryRecorded sha256 (before ++ ms)) (map applied_entry (pending done ms))
  known-applied done before [] d h = tt
  known-applied done before (m ∷ ms) d h =
      let files = before ++ m ∷ ms in
      let assoc : (before ++ m ∷ []) ++ ms ≡ files = append_assoc before (m ∷ []) ms in
      let rest : All (EntryRecorded sha256 files) (map applied_entry (pending done ms)) =
        subst (λ l. All (EntryRecorded sha256 l) (map applied_entry (pending done ms))) assoc
          (known-applied done (before ++ m ∷ []) ms
            (subst (λ l. Distinct (names_of l)) (sym assoc) d) h.1) in
      let matches : checksum_matches sha256 m.checksum m.sql ≡ true =
        rw h.0 (rw (same_self (sha256 m.sql))) in
      elim (Bool-cases (member m.name done)) [
        | inl y ↦
            subst (λ l. All (EntryRecorded sha256 files) (map applied_entry l))
              (sym (split-done done m ms y).0) rest
        | inr n ↦
            subst (λ l. All (EntryRecorded sha256 files) (map applied_entry l))
              (sym (split-new done m ms n).0) ((m, by_name_self before ms m d, matches), rest)
      ]

  -- The history stays valid.
  pub IsSound-applied :
      (es : List Entry) (files : List MigrationFile)
      → Distinct (names_of files)
      → IsHashed sha256 files
      → IsSound sha256 files es
      → IsSound sha256 files (es ++ map applied_entry (pending (entry_names es) files))
  IsSound-applied es files d h s =
      let new = pending (entry_names es) files in
      let names : entry_names (es ++ map applied_entry new) ≡ entry_names es ++ names_of new =
        entry_names-append es (map applied_entry new)
        ∙ ap (◌++◌ (entry_names es)) (entry_names-applied new) in
      record {
        finished = All-append _ es (map applied_entry new) s.finished (finished-applied new);
        distinct = subst Distinct (sym names) (
            Distinct-append (entry_names es) (names_of new) s.distinct
              (Distinct-pending (entry_names es) files d) (pending-Apart (entry_names es) files));
        known =
            All-append _ es (map applied_entry new) s.known
              (known-applied (entry_names es) [] files d h);
      }

every_rolled_back-active :
    (rows : List HistoryRow) → every_rolled_back rows ≡ true → active rows ≡ []
every_rolled_back-active [] h = refl
every_rolled_back-active (row ∷ rows) h =
    let k = λ (e : every_rolled_back rows ≡ true). every_rolled_back-active rows e in
    elim (Bool-cases (is_active row)) [
      | inl y ↦ ground arith
      | inr n ↦ rw (n, active) (k (ground arith))
    ]

module _ {S : Type 0} (host : Host S) where
  apply_loop_again :
      (done : List Text) (ms : List MigrationFile) (db : Db S)
      → ((x : Text) → member x (names_of ms) ≡ true → member x done ≡ true)
      → apply_loop host done ms db ≡ (db, ok (record { applied = []; skipped = names_of ms }))
  unfolding apply_loop
  apply_loop_again done [] db h = refl
  apply_loop_again done (m ∷ ms) db h =
      let y = h m.name (rw (same_self m.name)) in
      let k = apply_loop_again done ms db (λ x e. h x (ground (arith, e))) in
      rw (y, apply_loop) (rw k)

  -- A run over a valid history that has all the migrations.
  pub recorded_run :
      (sha256 : Sha256) (files : List MigrationFile) (db : Db S)
      → IsValid sha256 files (active (rows_of db.table))
      → active (rows_of db.table) ≢ []
      → ((x : Text)
          → member x (names_of files) ≡ true
          → member x (row_names (active (rows_of db.table))) ≡ true)
      → host.refuses db.store create_table ≡ none
      → host.refuses db.store read_history ≡ none
      → apply_migrations host sha256 files db ≡ (
        with_rows host db (rows_of db.table),
        ok (record { applied = []; skipped = names_of files }),
      )
  unfolding apply_migrations
  recorded_run sha256 files db v ne all_there c r =
      let rows = rows_of db.table in
      let guard : every_rolled_back rows ≡ false = elim (Bool-cases (every_rolled_back rows)) [
        | inl y ↦ absurd (ne (every_rolled_back-active rows y))
        | inr n ↦ n
      ] in
      rw c (
        rw r (
          rw guard (
            rw (IsValid-validate_history sha256 rows files v) (
              apply_loop_again (row_names (active rows)) files (with_rows host db rows)
                all_there))))
