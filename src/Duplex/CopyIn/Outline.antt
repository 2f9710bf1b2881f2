-- ===== src/Duplex/CopyIn/Outline.antt =====
-- src/duplex/copy-in.ts: what stripQuotedAndComments leaves of a text that is put together from
-- plain characters, quoted regions and comments.
use prisma_pglite_bridge.Prelude.{
  ℕ, ◌==◌, not, ◌&&◌, Bool, true, false, Option, some, List, [], ◌∷◌, ◌++◌, ◌≡◌, if◌then◌else◌, All,
  ◌⊎◌, ◌||◌,
}
use prisma_pglite_bridge.Duplex.CopyIn.{
  Text, starts, starts_with, is_identifier_glue, is_tag_start, is_digit,
}

-- The body of a block comment.
pub data Comment : Type 0 where
  closed : Comment
  char : ℕ → Comment → Comment
  nested : Comment → Comment → Comment

pub data Piece : Type 0 where
  plain : ℕ → Piece
  literal escape_literal identifier line : Text → Piece
  block : Comment → Piece
  dollar : Text → Text → Piece

-- A quoted text, in which the quote stands twice.
unfoldable pub double : ℕ → Text → Text
double quote [] = []
double quote (c ∷ cs) = if c == quote then c ∷ c ∷ double quote cs else c ∷ double quote cs

-- A backslash takes the next character with it, whichever it is.
unfoldable pub escape : Text → Text
escape [] = []
escape (c ∷ cs) = if c == 0x27 || c == 0x5c then 0x5c ∷ c ∷ escape cs else c ∷ escape cs

-- The body with its closing `*/`.
unfoldable pub render_comment : Comment → Text → Text
render_comment closed rest = 0x2a ∷ 0x2f ∷ rest
render_comment (char c k) rest = c ∷ render_comment k rest
render_comment (nested k l) rest = 0x2f ∷ 0x2a ∷ render_comment k (render_comment l rest)

abbrev pub closer_of : Text → Text
closer_of tag = 0x24 ∷ (tag ++ 0x24 ∷ [])

abbrev pub render_piece : Piece → Text → Text
render_piece (plain c) rest = c ∷ rest
render_piece (literal s) rest = 0x27 ∷ (double 0x27 s ++ 0x27 ∷ rest)
render_piece (escape_literal s) rest = 0x45 ∷ 0x27 ∷ (escape s ++ 0x27 ∷ rest)
render_piece (identifier s) rest = 0x22 ∷ (double 0x22 s ++ 0x22 ∷ rest)
render_piece (line s) rest = 0x2d ∷ 0x2d ∷ (s ++ rest)
render_piece (block k) rest = 0x2f ∷ 0x2a ∷ render_comment k rest
render_piece (dollar tag body) rest = closer_of tag ++ (body ++ (closer_of tag ++ rest))

unfoldable pub render : List Piece → Text
render [] = []
render (p ∷ ps) = render_piece p (render ps)

abbrev pub outline_piece : Piece → ℕ
outline_piece (plain c) = c
outline_piece (literal s) = 0x3f
outline_piece (escape_literal s) = 0x3f
outline_piece (identifier s) = 0x3f
outline_piece (line s) = 0x20
outline_piece (block k) = 0x20
outline_piece (dollar tag body) = 0x3f

unfoldable pub outline : List Piece → Text
outline [] = []
outline (p ∷ ps) = outline_piece p ∷ outline ps

-- `c` opens nothing before `rest`.
abbrev pub is_plain : Option ℕ → ℕ → Text → Bool
is_plain p c rest =
    not (c == 0x2d && starts 0x2d rest)
    && not (c == 0x2f && starts 0x2a rest)
    && not (c == 0x27)
    && not (c == 0x22)
    && not ((c == 0x65 || c == 0x45) && starts 0x27 rest && not (is_identifier_glue p))
    && not (c == 0x24 && not (is_identifier_glue p))

-- A character of a comment opens and closes none with its neighbour.
unfoldable pub IsComment : Comment → Text → Type 0
IsComment closed rest = Unit
IsComment (char c k) rest =
    ((c == 0x2f && starts 0x2a (render_comment k rest)) ≡ false)
    × ((c == 0x2a && starts 0x2f (render_comment k rest)) ≡ false)
    × IsComment k rest
IsComment (nested k l) rest = IsComment k (render_comment l rest) × IsComment l rest

abbrev pub HasNoNewline : Text → Type 0
HasNoNewline s = All (λ c. (c == 0x0a) ≡ false) s

abbrev pub IsTag : Text → Type 0
IsTag [] = Unit
IsTag (c ∷ cs) = (is_tag_start c ≡ true) × All (λ d. (is_tag_start d || is_digit d) ≡ true) cs

-- The closing tag stands first behind the body.
unfoldable pub IsFree : Text → Text → Text → Type 0
IsFree closer [] rest = Unit
IsFree closer (c ∷ cs) rest =
    (starts_with closer (c ∷ (cs ++ (closer ++ rest))) ≡ false) × IsFree closer cs rest

abbrev pub last_of : Option ℕ → Text → Option ℕ
last_of p [] = p
last_of p (c ∷ cs) = last_of (some c) cs

-- The character before what follows a piece.
abbrev pub end_of : Piece → Option ℕ
end_of (plain c) = some c
end_of (literal s) = some 0x27
end_of (escape_literal s) = some 0x27
end_of (identifier s) = some 0x22
end_of (line s) = last_of (some 0x2d) s
end_of (block k) = some 0x2f
end_of (dollar tag body) = some 0x24

-- A piece behind `p` that its neighbours do not change.
abbrev pub IsPiece : Option ℕ → Piece → Text → Type 0
IsPiece p (plain c) rest = is_plain p c rest ≡ true
IsPiece p (literal s) rest = starts 0x27 rest ≡ false
IsPiece p (escape_literal s) rest = (starts 0x27 rest ≡ false) × (is_identifier_glue p ≡ false)
IsPiece p (identifier s) rest = starts 0x22 rest ≡ false
IsPiece p (line s) rest = HasNoNewline s × ((rest ≡ []) ⊎ (starts 0x0a rest ≡ true))
IsPiece p (block k) rest = IsComment k rest
IsPiece p (dollar tag body) rest =
    (is_identifier_glue p ≡ false) × IsTag tag × IsFree (closer_of tag) body rest

unfoldable pub AreWell : Option ℕ → List Piece → Type 0
AreWell p [] = Unit
AreWell p (q ∷ ps) = IsPiece p q (render ps) × AreWell (end_of q) ps
