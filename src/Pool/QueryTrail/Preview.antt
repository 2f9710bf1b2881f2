-- ===== src/Pool/QueryTrail/Preview.antt =====
-- What an entry keeps of a query (previewParam, capSql, deriveKind and previewError in
-- src/pool/query-trail.ts). A text is the list of its UTF-16 code units; upper case is a parameter.
use prisma_pglite_bridge.Prelude.{
  ℕ, zero, suc, ◌+◌, ◌-◌, ◌/◌, ◌%◌, ltb, leb, ◌==◌, ◌&&◌, if◌then◌else◌, true, false, Option, none,
  some, List, [], ◌∷◌, ◌++◌, length, take,
}
use prisma_pglite_bridge.Duplex.CopyIn.{Text, is_space, starts_with}

-- A value, by the tests of the code. What a call of the value's own gives is none if it throws.
pub data Value : Type 0 where
  null undefined : Value
  bytes : ℕ → Value
  date : Option Text → Value
  text : Text → Value
  other : Option Text → Value

abbrev pub default_trail_max_entries : ℕ
default_trail_max_entries = 500

abbrev pub default_trail_max_param_chars : ℕ
default_trail_max_param_chars = 200

abbrev pub trail_sql_max_chars : ℕ
trail_sql_max_chars = 2000

abbrev pub error_message_max_chars : ℕ
error_message_max_chars = 500

-- ` … [capped]`
abbrev pub sql_cap_marker : Text
sql_cap_marker = 0x20 ∷ 0x2026 ∷ 0x20 ∷ 0x5b ∷ 0x63 ∷ 0x61 ∷ 0x70 ∷ 0x70 ∷ 0x65 ∷ 0x64 ∷ 0x5d ∷ []

-- `<trail capture disabled>`
abbrev pub disabled_sentinel_sql : Text
disabled_sentinel_sql =
    0x3c ∷ 0x74 ∷ 0x72 ∷ 0x61 ∷ 0x69 ∷ 0x6c ∷ 0x20 ∷ 0x63 ∷ 0x61 ∷ 0x70 ∷ 0x74 ∷ 0x75 ∷ 0x72 ∷ 0x65
    ∷ 0x20 ∷ 0x64 ∷ 0x69 ∷ 0x73 ∷ 0x61 ∷ 0x62 ∷ 0x6c ∷ 0x65 ∷ 0x64 ∷ 0x3e ∷ []

-- A number in decimal; a number has no more digits than it counts, and one more.
unfoldable pub decimal_loop : ℕ → ℕ → Text → Text
decimal_loop zero n acc = acc
decimal_loop (suc fuel) n acc =
    let acc' = (0x30 + n % 10) ∷ acc in
    let rest = decimal_loop fuel (n / 10) acc' in if n / 10 == 0 then acc' else rest

abbrev pub decimal : ℕ → Text
decimal n = decimal_loop (suc n) n []

-- `slice(0, cap)` of a text that is longer than the cap.
abbrev pub cut : ℕ → Text → Text
cut cap cs = if ltb cap (length cs) then take cap cs else cs

abbrev pub cut_rendered : ℕ → Option Text → Option Text
cut_rendered cap none = none
cut_rendered cap (some cs) = some (cut cap cs)

-- None where it throws. `<null>`, `<undefined>` and `<bytes:N>`.
unfoldable pub preview_param : Value → ℕ → Option Text
unfolding decimal_loop
preview_param null cap = some (0x3c ∷ 0x6e ∷ 0x75 ∷ 0x6c ∷ 0x6c ∷ 0x3e ∷ [])
preview_param undefined cap =
    some (0x3c ∷ 0x75 ∷ 0x6e ∷ 0x64 ∷ 0x65 ∷ 0x66 ∷ 0x69 ∷ 0x6e ∷ 0x65 ∷ 0x64 ∷ 0x3e ∷ [])
preview_param (bytes n) cap =
    some (0x3c ∷ 0x62 ∷ 0x79 ∷ 0x74 ∷ 0x65 ∷ 0x73 ∷ 0x3a ∷ (decimal n ++ 0x3e ∷ []))
preview_param (date iso) cap = iso
preview_param (text cs) cap = some (cut cap cs)
preview_param (other rendered) cap = cut_rendered cap rendered

unfoldable pub cap_sql : Text → Text
cap_sql sql =
    if leb (length sql) trail_sql_max_chars
    then sql
    else take (trail_sql_max_chars - length sql_cap_marker) sql ++ sql_cap_marker

-- To behind the end of the line, and to behind the end of a block comment.
unfoldable pub skip_line_comment : Text → Text
skip_line_comment [] = []
skip_line_comment (c ∷ cs) = elim (c == 0x0a) [ true ↦ cs | false ↦ skip_line_comment cs ]

unfoldable pub skip_block_comment : Text → Text
skip_block_comment [] = []
skip_block_comment (c ∷ []) = []
skip_block_comment (c ∷ d ∷ cs) = elim (c == 0x2a && d == 0x2f) [
  | true ↦ cs
  | false ↦ skip_block_comment (d ∷ cs)
]

-- A round of `LEADING_NOISE`: what is left, if there was noise.
abbrev pub noise : Text → Option Text
noise [] = none
noise (c ∷ []) = if is_space c then some [] else none
noise (c ∷ d ∷ cs) =
    if is_space c
    then some (d ∷ cs)
    else if c == 0x2d && d == 0x2d
    then some (skip_line_comment cs)
    else if c == 0x2f && d == 0x2a
    then some (skip_block_comment cs)
    else none

-- With fuel: each round takes a unit at least.
unfoldable pub strip_noise : ℕ → Text → Text
unfolding skip_line_comment skip_block_comment
strip_noise zero sql = sql
strip_noise (suc fuel) sql = elim (noise sql) [ none ↦ sql | some rest ↦ strip_noise fuel rest ]

unfoldable pub strip_leading_noise : Text → Text
strip_leading_noise sql = strip_noise (length sql) sql

pub data Kind : Type 0 where
  query begin commit rollback rollback_to savepoint release : Kind

-- `BEGIN`, `START TRANSACTION`, `COMMIT`, `END`, `ROLLBACK TO`, `ROLLBACK`, `SAVEPOINT`, `RELEASE`
abbrev pub kinds : List (Text × Kind)
kinds =
    (0x42 ∷ 0x45 ∷ 0x47 ∷ 0x49 ∷ 0x4e ∷ [], begin)
    ∷ (
      0x53 ∷ 0x54 ∷ 0x41 ∷ 0x52 ∷ 0x54 ∷ 0x20 ∷ 0x54 ∷ 0x52 ∷ 0x41 ∷ 0x4e ∷ 0x53 ∷ 0x41 ∷ 0x43
          ∷ 0x54 ∷ 0x49 ∷ 0x4f ∷ 0x4e ∷ [],
      begin,
    )
    ∷ (0x43 ∷ 0x4f ∷ 0x4d ∷ 0x4d ∷ 0x49 ∷ 0x54 ∷ [], commit)
    ∷ (0x45 ∷ 0x4e ∷ 0x44 ∷ [], commit)
    ∷ (0x52 ∷ 0x4f ∷ 0x4c ∷ 0x4c ∷ 0x42 ∷ 0x41 ∷ 0x43 ∷ 0x4b ∷ 0x20 ∷ 0x54 ∷ 0x4f ∷ [], rollback_to)
    ∷ (0x52 ∷ 0x4f ∷ 0x4c ∷ 0x4c ∷ 0x42 ∷ 0x41 ∷ 0x43 ∷ 0x4b ∷ [], rollback)
    ∷ (0x53 ∷ 0x41 ∷ 0x56 ∷ 0x45 ∷ 0x50 ∷ 0x4f ∷ 0x49 ∷ 0x4e ∷ 0x54 ∷ [], savepoint)
    ∷ (0x52 ∷ 0x45 ∷ 0x4c ∷ 0x45 ∷ 0x41 ∷ 0x53 ∷ 0x45 ∷ [], release)
    ∷ []

abbrev pub first_kind : List (Text × Kind) → Text → Kind
first_kind [] head = query
first_kind ((word, kind) ∷ ws) head = if starts_with word head then kind else first_kind ws head

unfoldable pub derive_kind : (Text → Text) → Text → Kind
unfolding strip_leading_noise strip_noise
derive_kind to_upper_case sql = first_kind kinds (to_upper_case (strip_leading_noise sql))

-- An error that a query ends with: its message, or none if reading it throws, and its code.
pub record Thrown : Type 0 where
  pub message : Option Text
  pub code : Option Text

pub record TrailError : Type 0 where
  pub code : Option Text
  pub message : Text

abbrev pub error_of : Option Text → Option Text → Option TrailError
error_of code none = none
error_of code (some message) = some (record { code = code; message = message })

unfoldable pub preview_error : Thrown → Option TrailError
preview_error e = error_of e.code (cut_rendered error_message_max_chars e.message)
