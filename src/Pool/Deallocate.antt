-- ===== src/Pool/Deallocate.antt =====
-- src/pool/deallocate.ts: the decoder of the commands that drop prepared statements.
-- A text is the list of its UTF-16 code units, and a place in it is the text from there on.
pub mod Grammar
pub mod Scan
pub mod Targets
pub mod Sound
pub mod Complete
mod Tests
use prisma_pglite_bridge.Prelude.{
  ℕ, zero, suc, ◌+◌, ◌-◌, ltb, leb, ◌==◌, not, ◌&&◌, ◌||◌, if◌then◌else◌, Bool, true, false, Option,
  none, some, List, [], ◌∷◌, ◌++◌, length, map,
}
use prisma_pglite_bridge.Duplex.CopyIn.{
  Text, same, is_between, is_upper, is_lower, is_digit, starts,
}

pub data StatementCacheInvalidation : Type 0 where
  all : StatementCacheInvalidation
  name : Text → StatementCacheInvalidation

pub is_ws : ℕ → Bool
is_ws c = c == 0x20 || c == 0x09 || c == 0x0a || c == 0x0d || c == 0x0c || c == 0x0b

pub is_ident_start : ℕ → Bool
is_ident_start c = is_upper c || is_lower c || c == 0x5f || leb 0x80 c

pub is_ident_cont : ℕ → Bool
unfolding is_ident_start
is_ident_cont c = is_ident_start c || is_digit c || c == 0x24

pub skip_ws : Text → Text
skip_ws [] = []
skip_ws (c ∷ cs) = elim (is_ws c) [ true ↦ skip_ws cs | false ↦ c ∷ cs ]

pub target_start_after_keyword : Text → Option Text
target_start_after_keyword text =
    let after_ws = skip_ws text in
    if ltb (length after_ws) (length text)
    then some after_ws
    else if starts 0x22 text
    then some text
    else none

pub upper : ℕ → ℕ
upper c = if is_lower c then c - 0x20 else c

-- The loop of `matchKeyword`, with its bound.
pub match_units : Text → Text → Option Text
match_units cs [] = some cs
match_units [] (k ∷ ks) = none
match_units (c ∷ cs) (k ∷ ks) = if upper c == k then match_units cs ks else none

pub at_boundary : Text → Bool
at_boundary [] = true
at_boundary (c ∷ cs) = not (is_ident_cont c)

abbrev pub end_keyword : Option Text → Option Text
end_keyword none = none
end_keyword (some rest) = if at_boundary rest then some rest else none

pub match_keyword : Text → Text → Option Text
unfolding match_units at_boundary
match_keyword text keyword = end_keyword (match_units text keyword)

abbrev pub tail : Text → Text
tail [] = []
tail (c ∷ cs) = cs

abbrev pub is_end : Text → Bool
is_end [] = true
is_end (c ∷ cs) = false

pub is_trailer : Text → Bool
is_trailer text = let i = skip_ws text in is_end (if starts 0x3b i then skip_ws (tail i) else i)

pub fold_case : ℕ → ℕ
fold_case c = if is_upper c then c + 0x20 else c

-- The units of an identifier from here on, and what follows them.
pub span_ident : Text → Text × Text
span_ident [] = ([], [])
span_ident (c ∷ cs) =
    let (word, rest) = span_ident cs in if is_ident_cont c then (c ∷ word, rest) else ([], c ∷ cs)

pub scan_regular_identifier : Text → Option (Text × Text)
scan_regular_identifier [] = none
scan_regular_identifier (c ∷ cs) =
    let (word, next) = span_ident cs in
    if is_ident_start c then some (map fold_case (c ∷ word), next) else none

abbrev pub close_name : Text → Text → Option (Text × Text)
close_name [] next = none
close_name (c ∷ cs) next = some (c ∷ cs, next)

-- The loop behind the opening quote, with the name so far.
pub scan_quoted : Text → Text → Option (Text × Text)
scan_quoted acc [] = none
scan_quoted acc (c ∷ []) = if c == 0x22 then close_name acc [] else none
scan_quoted acc (c ∷ d ∷ cs) = elim (c == 0x22) [
  | true ↦ elim (d == 0x22) [
    | true ↦ scan_quoted (acc ++ 0x22 ∷ []) cs
    | false ↦ close_name acc (d ∷ cs)
  ]
  | false ↦ scan_quoted (acc ++ c ∷ []) (d ∷ cs)
]

pub scan_delimited_identifier : Text → Option (Text × Text)
scan_delimited_identifier text = scan_quoted [] (tail text)

-- `all`
abbrev pub all_name : Text
all_name = 0x61 ∷ 0x6c ∷ 0x6c ∷ []

abbrev pub named : Option (Text × Text) → Option (StatementCacheInvalidation × Text)
named none = none
named (some (n, next)) = some (name n, next)

abbrev pub named_or_all : Option (Text × Text) → Option (StatementCacheInvalidation × Text)
named_or_all none = none
named_or_all (some (n, next)) = some (if same n all_name then all else name n, next)

pub scan_target : Text → Option (StatementCacheInvalidation × Text)
scan_target text =
    if starts 0x22 text
    then named (scan_delimited_identifier text)
    else named_or_all (scan_regular_identifier text)

abbrev pub ending : Option (StatementCacheInvalidation × Text) → Option StatementCacheInvalidation
ending none = none
ending (some (invalidation, next)) = if is_trailer next then some invalidation else none

-- `DISCARD`, `ALL`, `DEALLOCATE` and `PREPARE`.
abbrev pub discard_word : Text
discard_word = 0x44 ∷ 0x49 ∷ 0x53 ∷ 0x43 ∷ 0x41 ∷ 0x52 ∷ 0x44 ∷ []

abbrev pub all_word : Text
all_word = 0x41 ∷ 0x4c ∷ 0x4c ∷ []

abbrev pub deallocate_word : Text
deallocate_word = 0x44 ∷ 0x45 ∷ 0x41 ∷ 0x4c ∷ 0x4c ∷ 0x4f ∷ 0x43 ∷ 0x41 ∷ 0x54 ∷ 0x45 ∷ []

abbrev pub prepare_word : Text
prepare_word = 0x50 ∷ 0x52 ∷ 0x45 ∷ 0x50 ∷ 0x41 ∷ 0x52 ∷ 0x45 ∷ []

abbrev pub trailing_all : Option Text → Option StatementCacheInvalidation
trailing_all none = none
trailing_all (some after_all) = if is_trailer after_all then some all else none

-- Behind `DISCARD`.
pub decode_discard : Text → Option StatementCacheInvalidation
decode_discard after_discard =
    let all_at = skip_ws after_discard in
    if length all_at == length after_discard
    then none
    else trailing_all (match_keyword all_at all_word)

-- The target behind the optional `PREPARE`, if both are there with their trailer.
abbrev pub at_target : Option Text → Option StatementCacheInvalidation
at_target none = none
at_target (some text) = ending (scan_target text)

abbrev pub behind_prepare : Option Text → Option StatementCacheInvalidation
behind_prepare none = none
behind_prepare (some after_prepare) = at_target (target_start_after_keyword after_prepare)

abbrev pub or_else :
    Option StatementCacheInvalidation
    → Option StatementCacheInvalidation
    → Option StatementCacheInvalidation
or_else none other = other
or_else (some found) other = some found

abbrev pub decode_target : Option Text → Option StatementCacheInvalidation
decode_target none = none
decode_target (some text) =
    or_else (behind_prepare (match_keyword text prepare_word)) (ending (scan_target text))

-- Behind `DEALLOCATE`.
abbrev pub decode_deallocate : Option Text → Option StatementCacheInvalidation
decode_deallocate none = none
decode_deallocate (some after_dealloc) = decode_target (target_start_after_keyword after_dealloc)

abbrev pub decode_command : Text → Option Text → Option StatementCacheInvalidation
decode_command text (some after_discard) = decode_discard after_discard
decode_command text none = decode_deallocate (match_keyword text deallocate_word)

abbrev pub decode_at : Text → Option StatementCacheInvalidation
decode_at [] = none
decode_at (first ∷ rest) =
    if first == 0x44 || first == 0x64
    then decode_command (first ∷ rest) (match_keyword (first ∷ rest) discard_word)
    else none

pub decode_statement_cache_invalidation : Text → Option StatementCacheInvalidation
decode_statement_cache_invalidation text = decode_at (skip_ws text)
