-- ===== src/Schema/Migrations/Plain.antt =====
-- What makes a history pass, in terms of its rows and files alone (validateHistory in
-- src/schema/migrations.ts).
use prisma_pglite_bridge.Prelude.{
  ◌≡◌, ◌≢◌, ◌⊎◌, ◌↔◌, refl, sym, ap, ◌∙◌, subst, inl, inr, if◌then◌else◌, true, false, Option, none,
  some, List, [], ◌∷◌, ◌++◌, map, ok, All, Bool-cases, Option-cases, arith,
}
use prisma_pglite_bridge.Duplex.CopyIn.{Text, same}
use prisma_pglite_bridge.Utils.Maps.{same→eq, same_self}
use prisma_pglite_bridge.Schema.Migrations.Files.{MigrationFile, Sha256, crlf_to_lf, lf_to_crlf}
use prisma_pglite_bridge.Schema.Migrations.History.{
  HistoryRow, is_null, active, row_names, member, by_name, checksum_matches, validate_history,
}
use prisma_pglite_bridge.Schema.Migrations.LineEnds.{
  IsEnded, IsEnded-eq, crlf_to_lf-IsEnded, lf_to_crlf-IsEnded,
}
use prisma_pglite_bridge.Schema.Migrations.Valid.{
  Distinct, Recorded, validate_history_ok, IsValid-validate_history,
}

abbrev live_at : Option Text → HistoryRow → List HistoryRow → List HistoryRow
live_at none row rest = row ∷ rest
live_at (some time) row rest = rest

-- The rows that were not rolled back.
abbrev pub live : List HistoryRow → List HistoryRow
live [] = []
live (row ∷ rows) = live_at row.rolled_back_at row (live rows)

-- The checksum is the script's, as it is or with all its line ends written as LF or as CR LF.
abbrev pub IsChecksum : Sha256 → Text → Text → Type 0
IsChecksum sha256 stored sql =
    (sha256 sql ≡ stored)
    ⊎ (((unix : Text) × IsEnded (0x0a ∷ []) sql unix × (sha256 unix ≡ stored))
        ⊎ ((dos : Text) × IsEnded (0x0d ∷ 0x0a ∷ []) sql dos × (sha256 dos ≡ stored)))

-- The file is the last one with the name.
abbrev pub IsNamed : Text → List MigrationFile → MigrationFile → Type 0
IsNamed n files file =
    (before : List MigrationFile) × (after : List MigrationFile) × (files ≡ before ++ file ∷ after)
    × (file.name ≡ n)
    × All (λ (f : MigrationFile). f.name ≢ n) after

abbrev pub IsKnown : Sha256 → List MigrationFile → HistoryRow → Type 0
IsKnown sha256 files row =
    (file : MigrationFile) × IsNamed row.migration_name files file
    × IsChecksum sha256 row.checksum file.sql

abbrev pub AllDifferent : List Text → Type 0
AllDifferent [] = Unit
AllDifferent (n ∷ names) = All (λ m. n ≢ m) names × AllDifferent names

abbrev pub IsPassing : Sha256 → List MigrationFile → List HistoryRow → Type 0
IsPassing sha256 files rows =
    All (λ (row : HistoryRow). row.finished_at ≢ none) rows
    × AllDifferent (map (λ (row : HistoryRow). row.migration_name) rows)
    × All (IsKnown sha256 files) rows

live_at-active :
    (o : Option Text) (row : HistoryRow) (rest : List HistoryRow)
    → live_at o row rest
      ≡ elim (is_null o) as (λ b. List HistoryRow) [ true ↦ row ∷ rest | false ↦ rest ]
live_at-active none row rest = refl
live_at-active (some time) row rest = refl

pub live_lem : (rows : List HistoryRow) → live rows ≡ active rows
live_lem [] = refl
live_lem (row ∷ rows) =
    live_at-active row.rolled_back_at row (live rows)
    ∙ ap
        (λ rest. elim (is_null row.rolled_back_at) as (λ b. List HistoryRow) [
          | true ↦ row ∷ rest
          | false ↦ rest
        ])
        (live_lem rows)

is_null_no : (o : Option Text) → is_null o ≡ false → o ≢ none
is_null_no none h = λ e. cc
is_null_no (some t) h = λ e. cc

is_null-some : (o : Option Text) → o ≢ none → is_null o ≡ false
is_null-some none h = absurd (h refl)
is_null-some (some t) h = refl

member_no : (n : Text) (names : List Text) → member n names ≡ false → All (λ m. n ≢ m) names
member_no n [] h = tt
member_no n (m ∷ names) h =
    let s : same n m ≡ false = ground arith in
    (λ e. absurd (cc (ap (same n) e, same_self n, s)), member_no n names (ground arith))

member-All : (n : Text) (names : List Text) → All (λ m. n ≢ m) names → member n names ≡ false
member-All n [] h = refl
member-All n (m ∷ names) h = elim (Bool-cases (same n m)) [
  | inl y ↦ absurd (h.0 (same→eq n m y))
  | inr z ↦ rw z (member-All n names h.1)
]

Distinct_lem : (names : List Text) → Distinct names → AllDifferent names
Distinct_lem [] d = tt
Distinct_lem (n ∷ names) d = (member_no n names d.0, Distinct_lem names d.1)

AllDifferent_lem : (names : List Text) → AllDifferent names → Distinct names
AllDifferent_lem [] d = tt
AllDifferent_lem (n ∷ names) d = (member-All n names d.0, AllDifferent_lem names d.1)

-- The file of a name is looked up from the end.
by_name_here :
    (n : Text) (m : MigrationFile) (ms : List MigrationFile)
    → by_name n ms ≡ none
    → by_name n (m ∷ ms) ≡ (if same n m.name then some m else none)
by_name_here n m ms h = rw (h, by_name) refl

by_name_later :
    (n : Text) (m file : MigrationFile) (ms : List MigrationFile)
    → by_name n ms ≡ some file
    → by_name n (m ∷ ms) ≡ some file
by_name_later n m file ms h = rw (h, by_name) refl

by_name-none :
    (n : Text) (ms : List MigrationFile)
    → by_name n ms ≡ none
    → All (λ (f : MigrationFile). f.name ≢ n) ms
by_name-none n [] h = tt
by_name-none n (m ∷ ms) h = elim (Option-cases (by_name n ms)) [
  | inr (g, e) ↦ absurd (cc (by_name_later n m g ms e, h))
  | inl e ↦ elim (Bool-cases (same n m.name)) [
    | inl y ↦
        let found : by_name n (m ∷ ms) ≡ some m = by_name_here n m ms e ∙ (rw y refl) in
        absurd (cc (found, h))
    | inr z ↦ (λ q. absurd (cc (ap (same n) q, same_self n, z)), by_name-none n ms e)
  ]
]

All-by_name :
    (n : Text) (ms : List MigrationFile)
    → All (λ (f : MigrationFile). f.name ≢ n) ms
    → by_name n ms ≡ none
All-by_name n [] h = refl
All-by_name n (m ∷ ms) h = elim (Bool-cases (same n m.name)) [
  | inl y ↦ absurd (h.0 (sym (same→eq n m.name y)))
  | inr z ↦ by_name_here n m ms (All-by_name n ms h.1) ∙ (rw z refl)
]

by_name-some :
    (n : Text) (files : List MigrationFile) (file : MigrationFile)
    → by_name n files ≡ some file
    → IsNamed n files file
by_name-some n [] file h = cc
by_name-some n (m ∷ ms) file h = elim (Option-cases (by_name n ms)) [
  | inr (g, e) ↦
      let same_file : g ≡ file = cc (by_name_later n m g ms e, h) in
      let (before, after, split, name, rest) = by_name-some n ms g e in
      subst (IsNamed n (m ∷ ms)) same_file (m ∷ before, after, ap (◌∷◌ m) split, name, rest)
  | inl e ↦ elim (Bool-cases (same n m.name)) [
    | inl y ↦
        let found : by_name n (m ∷ ms) ≡ some m = by_name_here n m ms e ∙ (rw y refl) in
        let same_file : m ≡ file = cc (found, h) in
        subst (IsNamed n (m ∷ ms)) same_file
          ([], ms, refl, sym (same→eq n m.name y), by_name-none n ms e)
    | inr z ↦
        let lost : by_name n (m ∷ ms) ≡ none = by_name_here n m ms e ∙ (rw z refl) in
        absurd (cc (lost, h))
  ]
]

by_name-append :
    (n : Text) (before after : List MigrationFile) (file : MigrationFile)
    → file.name ≡ n
    → All (λ (f : MigrationFile). f.name ≢ n) after
    → by_name n (before ++ file ∷ after) ≡ some file
by_name-append n [] after file e a =
    let y : same n file.name ≡ true = ap (same n) e ∙ same_self n in
    by_name_here n file after (All-by_name n after a) ∙ (rw y refl)
by_name-append n (m ∷ before) after file e a =
    by_name_later n m file (before ++ file ∷ after) (by_name-append n before after file e a)

checksum_no : (x y : Text) → same x y ≡ false → x ≢ y
checksum_no x y h = λ e. cc (ap (same x) e, same_self x, h)

module _ (sha256 : Sha256) where
  matches-IsChecksum :
      (stored sql : Text) → checksum_matches sha256 stored sql ≡ true → IsChecksum sha256 stored sql
  matches-IsChecksum stored sql h = elim (Bool-cases (same (sha256 sql) stored)) [
    | inl y ↦ inl (same→eq _ _ y)
    | inr n ↦ elim (Bool-cases (same (sha256 (crlf_to_lf sql)) stored)) [
      | inl y ↦ inr (inl (crlf_to_lf sql, crlf_to_lf-IsEnded sql, same→eq _ _ y))
      | inr n' ↦ inr (inr (lf_to_crlf sql, lf_to_crlf-IsEnded sql, same→eq _ _ (ground arith)))
    ]
  ]

  same_sha256 : (x y stored : Text) → x ≡ y → sha256 x ≡ stored → same (sha256 y) stored ≡ true
  same_sha256 x y stored e f = ap (same (sha256 y)) (sym f ∙ ap sha256 e) ∙ same_self (sha256 y)

  IsChecksum-matches :
      (stored sql : Text) → IsChecksum sha256 stored sql → checksum_matches sha256 stored sql ≡ true
  IsChecksum-matches stored sql (inl e) = let y = same_sha256 sql sql stored refl e in ground arith
  IsChecksum-matches stored sql (inr (inl (unix, i, e))) =
      let y =
        same_sha256 unix (crlf_to_lf sql) stored
          (IsEnded-eq (0x0a ∷ []) sql unix (crlf_to_lf sql) i (crlf_to_lf-IsEnded sql)) e in
      ground arith
  IsChecksum-matches stored sql (inr (inr (dos, i, e))) =
      let y =
        same_sha256 dos (lf_to_crlf sql) stored
          (IsEnded-eq (0x0d ∷ 0x0a ∷ []) sql dos (lf_to_crlf sql) i (lf_to_crlf-IsEnded sql)) e in
      ground arith

  module _ (files : List MigrationFile) where
    Recorded-IsKnown :
        (rows : List HistoryRow)
        → All (Recorded sha256 files) rows
        → All (IsKnown sha256 files) rows
    Recorded-IsKnown [] h = tt
    Recorded-IsKnown (row ∷ rows) h =
        let (file, b, c) = h.0 in
        (
          (
            file,
            by_name-some row.migration_name files file b,
            matches-IsChecksum row.checksum file.sql c,
          ),
          Recorded-IsKnown rows h.1,
        )

    IsKnown-Recorded :
        (rows : List HistoryRow)
        → All (IsKnown sha256 files) rows
        → All (Recorded sha256 files) rows
    IsKnown-Recorded [] h = tt
    IsKnown-Recorded (row ∷ rows) h =
        let (file, (before, after, split, name, rest), c) = h.0 in
        (
          (
            file,
            ap (by_name row.migration_name) split
                ∙ by_name-append row.migration_name before after file name rest,
            IsChecksum-matches row.checksum file.sql c,
          ),
          IsKnown-Recorded rows h.1,
        )

finished_lem :
    (rows : List HistoryRow)
    → All (λ (row : HistoryRow). is_null row.finished_at ≡ false) rows
    → All (λ (row : HistoryRow). row.finished_at ≢ none) rows
finished_lem [] h = tt
finished_lem (row ∷ rows) h = (is_null_no row.finished_at h.0, finished_lem rows h.1)

unfinished_none :
    (rows : List HistoryRow)
    → All (λ (row : HistoryRow). row.finished_at ≢ none) rows
    → All (λ (row : HistoryRow). is_null row.finished_at ≡ false) rows
unfinished_none [] h = tt
unfinished_none (row ∷ rows) h = (is_null-some row.finished_at h.0, unfinished_none rows h.1)

-- A history passes exactly if each row that was not rolled back is finished and names a migration
-- that is there, with a checksum that is the SHA-256 of the script, as it is or with all its line
-- ends written as LF or as CR LF, and no two such rows name one migration. Of files with one name
-- the last one counts.
pub validate_history_iff :
    (sha256 : Sha256) (rows : List HistoryRow) (files : List MigrationFile)
    → (validate_history sha256 rows files ≡ ok tt) ↔ IsPassing sha256 files (live rows)
validate_history_iff sha256 rows files = (
  λ h.
      let v = validate_history_ok sha256 rows files h in
      subst (IsPassing sha256 files) (sym (live_lem rows)) (
        finished_lem (active rows) v.finished,
        Distinct_lem (row_names (active rows)) v.distinct,
        Recorded-IsKnown sha256 files (active rows) v.recorded,
      ),
  λ p.
      let q = subst (IsPassing sha256 files) (live_lem rows) p in
      IsValid-validate_history sha256 rows files (record {
        finished = unfinished_none (active rows) q.0;
        distinct = AllDifferent_lem (row_names (active rows)) q.1;
        recorded = IsKnown-Recorded sha256 files (active rows) q.2;
      }),
)
