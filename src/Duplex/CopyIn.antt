-- ===== src/Duplex/CopyIn.antt =====
-- src/duplex/copy-in.ts: the classifier of simple-protocol Query text.
-- A text is the list of its UTF-16 code units. The index `i` into it is a place: the character before
-- `i`, if any, and the text from `i` on. An inner loop that moves `i` returns the place it ends at.
pub mod Scan
pub mod Outline
pub mod Regions
pub mod Strip
mod Tests
use prisma_pglite_bridge.Prelude.{
  ℕ, zero, suc, ltb, leb, ◌==◌, not, ◌&&◌, ◌||◌, if◌then◌else◌, Bool, true, false, Option, none,
  some, List, [], ◌∷◌, ◌++◌, length, drop,
}

abbrev pub Text : Type 0
Text = List ℕ

abbrev pub is_between : ℕ → ℕ → ℕ → Bool
is_between lo hi c = leb lo c && leb c hi

abbrev pub is_upper : ℕ → Bool
is_upper c = is_between 0x41 0x5a c

abbrev pub is_lower : ℕ → Bool
is_lower c = is_between 0x61 0x7a c

abbrev pub is_digit : ℕ → Bool
is_digit c = is_between 0x30 0x39 c

-- `charAt` before the start of the text is the empty string.
abbrev pub is_identifier_glue : Option ℕ → Bool
is_identifier_glue none = false
is_identifier_glue (some c) =
    is_upper c || is_lower c || is_digit c || c == 0x5f || c == 0x24 || leb 0x80 c

pub record Place : Type 0 where
  pub before : Option ℕ
  pub rest : Text

abbrev pub at : Option ℕ → Text → Place
at p cs = record { before = p; rest = cs }

-- `text.charAt(i) === c`
abbrev pub starts : ℕ → Text → Bool
starts c [] = false
starts c (d ∷ ds) = d == c

-- To the end of the line.
pub skip_line : Option ℕ → Text → Place
skip_line p [] = at p []
skip_line p (c ∷ cs) = elim (c == 0x0a) [ true ↦ at p (c ∷ cs) | false ↦ skip_line (some c) cs ]

-- `i += 2`
abbrev pub skip_two : Option ℕ → Text → Place
skip_two p [] = at p []
skip_two p (c ∷ []) = at (some c) []
skip_two p (c ∷ d ∷ cs) = at (some d) cs

-- To the end of a block comment that is open `depth` times.
pub skip_block : ℕ → Option ℕ → Text → Place
skip_block zero p cs = at p cs
skip_block (suc depth) p [] = at p []
skip_block (suc depth) p (c ∷ []) = at (some c) []
skip_block (suc depth) p (c ∷ d ∷ cs) = elim (c == 0x2f && d == 0x2a) [
  | true ↦ skip_block (suc (suc depth)) (some d) cs
  | false ↦ elim (c == 0x2a && d == 0x2f) [
    | true ↦ skip_block depth (some d) cs
    | false ↦ skip_block (suc depth) (some c) (d ∷ cs)
  ]
]

-- To the end of a literal or a quoted identifier that `quote` ends, where `escaping` lets a backslash
-- take the next character with it.
pub skip_quoted : ℕ → Bool → Option ℕ → Text → Place
skip_quoted quote escaping p [] = at p []
skip_quoted quote escaping p (c ∷ []) = at (some c) []
skip_quoted quote escaping p (c ∷ d ∷ cs) = elim (escaping && c == 0x5c) [
  | true ↦ skip_quoted quote escaping (some d) cs
  | false ↦ elim (c == quote) [
    | true ↦ elim (d == quote) [
      | true ↦ skip_quoted quote escaping (some d) cs
      | false ↦ at (some c) (d ∷ cs)
    ]
    | false ↦ skip_quoted quote escaping (some c) (d ∷ cs)
  ]
]

abbrev pub is_tag_start : ℕ → Bool
is_tag_start c = is_upper c || is_lower c || c == 0x5f

-- The rest of a tag and its closing dollar.
pub read_tag : Text → Option Text
read_tag [] = none
read_tag (c ∷ cs) = elim (c == 0x24) [
  | true ↦ some (c ∷ [])
  | false ↦ elim (is_tag_start c || is_digit c) [
    | true ↦ elim (read_tag cs) [ none ↦ none | some tag ↦ some (c ∷ tag) ]
    | false ↦ none
  ]
]

-- `/^\$(?:[A-Za-z_][A-Za-z0-9_]*)?\$/` on the text behind the first dollar, which stays out of the
-- match here.
abbrev pub match_tag : Text → Option Text
match_tag [] = none
match_tag (c ∷ cs) = if c == 0x24 || is_tag_start c then read_tag (c ∷ cs) else none

abbrev pub starts_with : Text → Text → Bool
starts_with [] cs = true
starts_with (x ∷ xs) [] = false
starts_with (x ∷ xs) (c ∷ cs) = c == x && starts_with xs cs

-- Behind the first `closer`, which ends in a dollar, or at the end.
pub skip_to : Text → Option ℕ → Text → Place
skip_to closer p [] = at p []
skip_to closer p (c ∷ cs) = elim (starts_with closer (c ∷ cs)) [
  | true ↦ at (some 0x24) (drop (length closer) (c ∷ cs))
  | false ↦ skip_to closer (some c) cs
]

-- A round of the outer loop at the character `c`: what it pushes and where it ends.
pub strip_step : Option ℕ → ℕ → Text → ℕ × Place
strip_step p c cs =
    let plain : ℕ × Place = (c, at (some c) cs) in
    let escaping = (c == 0x65 || c == 0x45) && starts 0x27 cs && not (is_identifier_glue p) in
    if c == 0x2d && starts 0x2d cs
    then (0x20, skip_line p (c ∷ cs))
    else if c == 0x2f && starts 0x2a cs
    then (0x20, (let o = skip_two p (c ∷ cs) in skip_block 1 o.before o.rest))
    else if c == 0x27
    then (0x3f, skip_quoted 0x27 false (some c) cs)
    else if escaping
    then (0x3f, (let o = skip_two p (c ∷ cs) in skip_quoted 0x27 true o.before o.rest))
    else if c == 0x22
    then (0x3f, skip_quoted 0x22 false (some c) cs)
    else if c == 0x24 && not (is_identifier_glue p)
    then elim (match_tag cs) [
      | none ↦ plain
      | some tag ↦ (0x3f, skip_to (0x24 ∷ tag) (some 0x24) (drop (length tag) cs))
    ]
    else plain

-- The outer loop, with fuel.
pub strip_loop : ℕ → Option ℕ → Text → Text
strip_loop zero p cs = []
strip_loop (suc fuel) p [] = []
strip_loop (suc fuel) p (c ∷ cs) =
    let (out, q) = strip_step p c cs in out ∷ strip_loop fuel q.before q.rest

pub strip_quoted_and_comments : Text → Text
strip_quoted_and_comments text = strip_loop (length text) none text

abbrev pub is_word_start : ℕ → Bool
is_word_start c = is_lower c || c == 0x5f

abbrev pub end_word : Text → List Text
end_word [] = []
end_word (c ∷ cs) = (c ∷ cs) ∷ []

-- The matches of `/[a-z_][a-z0-9_]*/g`, with the word that is being read.
pub words : Text → Text → List Text
words word [] = end_word word
words word (c ∷ cs) =
    if is_word_start c || (is_digit c && not (length word == 0))
    then words (word ++ c ∷ []) cs
    else end_word word ++ words [] cs

-- White space, as `trim` takes it.
abbrev pub is_space : ℕ → Bool
is_space c =
    is_between 9 13 c
    || c == 0x20
    || c == 0xa0
    || c == 0x1680
    || is_between 0x2000 0x200a c
    || c == 0x2028
    || c == 0x2029
    || c == 0x202f
    || c == 0x205f
    || c == 0x3000
    || c == 0xfeff

pub trim_start : Text → Text
trim_start [] = []
trim_start (c ∷ cs) = if is_space c then trim_start cs else c ∷ cs

pub trim_end : Text → Text
trim_end [] = []
trim_end (c ∷ cs) =
    let rest = trim_end cs in if is_space c && length rest == 0 then [] else c ∷ rest

abbrev pub trim : Text → Text
trim s = trim_end (trim_start s)

-- `split(';')`, with the part that is being read.
pub split_statements : Text → Text → List Text
split_statements part [] = part ∷ []
split_statements part (c ∷ cs) =
    if c == 0x3b then part ∷ split_statements [] cs else split_statements (part ++ c ∷ []) cs

-- `.map((s) => s.trim()).filter((s) => s.length > 0)`
pub trimmed : List Text → List Text
trimmed [] = []
trimmed (s ∷ ss) = if length (trim s) == 0 then trimmed ss else trim s ∷ trimmed ss

abbrev pub same : Text → Text → Bool
same [] [] = true
same [] (d ∷ ds) = false
same (c ∷ cs) [] = false
same (c ∷ cs) (d ∷ ds) = c == d && same cs ds

-- `copy`, `from` and `stdin`.
abbrev pub word_copy : Text
word_copy = 0x63 ∷ 0x6f ∷ 0x70 ∷ 0x79 ∷ []

abbrev pub word_from : Text
word_from = 0x66 ∷ 0x72 ∷ 0x6f ∷ 0x6d ∷ []

abbrev pub word_stdin : Text
word_stdin = 0x73 ∷ 0x74 ∷ 0x64 ∷ 0x69 ∷ 0x6e ∷ []

pub has_from_stdin : List Text → Bool
has_from_stdin [] = false
has_from_stdin (t ∷ []) = false
has_from_stdin (t ∷ u ∷ ts) = (same t word_from && same u word_stdin) || has_from_stdin (u ∷ ts)

abbrev pub is_copy_in_tokens : List Text → Bool
is_copy_in_tokens [] = false
is_copy_in_tokens (t ∷ ts) = same t word_copy && has_from_stdin ts

pub data CopyInVerdict : Type 0 where
  capture reject_multi not_copy_in : CopyInVerdict

-- `to_lower_case` is the language's.
module _ (to_lower_case : Text → Text) where
  abbrev pub tokenize : Text → List Text
  tokenize statement = words [] (to_lower_case statement)

  abbrev pub is_copy_in_statement : Text → Bool
  is_copy_in_statement statement = is_copy_in_tokens (tokenize statement)

  abbrev pub some_copy_in : List Text → Bool
  some_copy_in [] = false
  some_copy_in (s ∷ ss) = is_copy_in_statement s || some_copy_in ss

  abbrev pub verdict_of : List Text → CopyInVerdict
  verdict_of statements =
      if not (some_copy_in statements)
      then not_copy_in
      else if length statements == 1
      then capture
      else reject_multi

  pub sniff_copy_in : Text → CopyInVerdict
  sniff_copy_in text = verdict_of (trimmed (split_statements [] (strip_quoted_and_comments text)))
