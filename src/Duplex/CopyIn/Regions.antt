-- ===== src/Duplex/CopyIn/Regions.antt =====
-- src/duplex/copy-in.ts: the inner loops, each on its own kind of region.
use prisma_pglite_bridge.Prelude.{
  ℕ, suc, ◌==◌, ◌&&◌, Bool, true, false, Option, some, [], ◌∷◌, ◌++◌, length, drop, ◌≡◌, refl, ap,
  ◌∙◌, arith, inl, inr, Bool-cases, All, ◌⊎◌, ◌||◌,
}
use prisma_pglite_bridge.Duplex.CopyIn.{
  Text, at, starts, skip_line, skip_block, skip_quoted, skip_to, starts_with, match_tag, read_tag,
  is_tag_start, is_digit,
}
use prisma_pglite_bridge.Duplex.CopyIn.Outline.{
  Comment, closed, char, nested, double, escape, render_comment, closer_of, IsComment, HasNoNewline,
  IsTag, IsFree, last_of,
}

skip_quoted-cons :
    (quote : ℕ) (escaping : Bool) (p : Option ℕ) (c : ℕ) (cs : Text)
    → (escaping && c == 0x5c) ≡ false
    → (c == quote) ≡ false
    → skip_quoted quote escaping p (c ∷ cs) ≡ skip_quoted quote escaping (some c) cs
unfolding skip_quoted
skip_quoted-cons quote escaping p c [] e q = refl
skip_quoted-cons quote escaping p c (d ∷ cs) e q = ground arith

skip_quoted-end :
    (quote : ℕ) (escaping : Bool) (p : Option ℕ) (rest : Text)
    → (escaping && quote == 0x5c) ≡ false
    → starts quote rest ≡ false
    → skip_quoted quote escaping p (quote ∷ rest) ≡ at (some quote) rest
unfolding skip_quoted
skip_quoted-end quote escaping p [] e h = refl
skip_quoted-end quote escaping p (d ∷ rest) e h = ground arith

skip_quoted-pair :
    (quote : ℕ) (p : Option ℕ) (c : ℕ) (cs : Text)
    → (c == quote) ≡ true
    → skip_quoted quote false p (c ∷ c ∷ cs) ≡ skip_quoted quote false (some c) cs
unfolding skip_quoted
skip_quoted-pair quote p c cs e = ground arith

skip_quoted-backslash :
    (p : Option ℕ) (c : ℕ) (cs : Text)
    → skip_quoted 0x27 true p (0x5c ∷ c ∷ cs) ≡ skip_quoted 0x27 true (some c) cs
unfolding skip_quoted
skip_quoted-backslash p c cs = refl

-- The doubled quotes inside do not end a literal.
pub skip_quoted-double :
    (quote : ℕ) (p : Option ℕ) (s rest : Text)
    → starts quote rest ≡ false
    → skip_quoted quote false p (double quote s ++ quote ∷ rest) ≡ at (some quote) rest
unfolding double
skip_quoted-double quote p [] rest h = skip_quoted-end quote false p rest refl h
skip_quoted-double quote p (c ∷ s) rest h = elim (Bool-cases (c == quote)) [
  | inl e ↦ rw e (
      skip_quoted-pair quote p c (double quote s ++ quote ∷ rest) e
      ∙ skip_quoted-double quote (some c) s rest h)
  | inr e ↦ rw e (
      skip_quoted-cons quote false p c (double quote s ++ quote ∷ rest) refl e
      ∙ skip_quoted-double quote (some c) s rest h)
]

-- The escaped characters inside do not end an escape literal.
pub skip_quoted-escape :
    (p : Option ℕ) (s rest : Text)
    → starts 0x27 rest ≡ false
    → skip_quoted 0x27 true p (escape s ++ 0x27 ∷ rest) ≡ at (some 0x27) rest
unfolding escape
skip_quoted-escape p [] rest h = skip_quoted-end 0x27 true p rest refl h
skip_quoted-escape p (c ∷ s) rest h = elim (Bool-cases (c == 0x27 || c == 0x5c)) [
  | inl e ↦
      rw e
        (skip_quoted-backslash p c (escape s ++ 0x27 ∷ rest) ∙ skip_quoted-escape (some c) s rest h)
  | inr e ↦ rw e (
      skip_quoted-cons 0x27 true p c (escape s ++ 0x27 ∷ rest) (ground arith) (ground arith)
      ∙ skip_quoted-escape (some c) s rest h)
]

pub skip_line-line :
    (p : Option ℕ) (s rest : Text)
    → HasNoNewline s
    → (rest ≡ []) ⊎ (starts 0x0a rest ≡ true)
    → skip_line p (s ++ rest) ≡ at (last_of p s) rest
unfolding skip_line
skip_line-line p [] [] h e = refl
skip_line-line p [] (c ∷ rest) h (inl e) = cc
skip_line-line p [] (c ∷ rest) h (inr e) = ground arith
skip_line-line p (c ∷ s) rest h e = rw (skip_line, h.0) (skip_line-line (some c) s rest h.1 e)

skip_block-cons :
    (depth : ℕ) (p : Option ℕ) (c : ℕ) (cs : Text)
    → (c == 0x2f && starts 0x2a cs) ≡ false
    → (c == 0x2a && starts 0x2f cs) ≡ false
    → skip_block (suc depth) p (c ∷ cs) ≡ skip_block (suc depth) (some c) cs
unfolding skip_block
skip_block-cons depth p c [] e h = refl
skip_block-cons depth p c (d ∷ cs) e h = ground arith

skip_block-open :
    (depth : ℕ) (p : Option ℕ) (cs : Text)
    → skip_block (suc depth) p (0x2f ∷ 0x2a ∷ cs) ≡ skip_block (suc (suc depth)) (some 0x2a) cs
unfolding skip_block
skip_block-open depth p cs = refl

-- A nested comment is read to its own end.
pub skip_block-comment :
    (depth : ℕ) (p : Option ℕ) (k : Comment) (rest : Text)
    → IsComment k rest
    → skip_block (suc depth) p (render_comment k rest) ≡ skip_block depth (some 0x2f) rest
unfolding render_comment IsComment
skip_block-comment depth p closed rest h = unfold skip_block in refl
skip_block-comment depth p (char c k) rest (e, f, h) =
    skip_block-cons depth p c (render_comment k rest) e f
    ∙ skip_block-comment depth (some c) k rest h
skip_block-comment depth p (nested k l) rest (h, i) =
    skip_block-open depth p (render_comment k (render_comment l rest))
    ∙ skip_block-comment (suc depth) (some 0x2a) k (render_comment l rest) h
    ∙ skip_block-comment depth (some 0x2f) l rest i

starts_with-append : (xs rest : Text) → starts_with xs (xs ++ rest) ≡ true
starts_with-append [] rest = refl
starts_with-append (x ∷ xs) rest = ground (arith, starts_with-append xs rest)

pub drop-length : (xs rest : Text) → drop (length xs) (xs ++ rest) ≡ rest
drop-length [] rest = refl
drop-length (x ∷ xs) rest = drop-length xs rest

skip_to-found :
    (closer : Text) (p : Option ℕ) (c : ℕ) (cs : Text)
    → starts_with closer (c ∷ cs) ≡ true
    → skip_to closer p (c ∷ cs) ≡ at (some 0x24) (drop (length closer) (c ∷ cs))
unfolding skip_to
skip_to-found closer p c cs e = ground arith

-- A dollar-quoted body is read to the first closing tag.
pub skip_to-body :
    (tag : Text) (p : Option ℕ) (body rest : Text)
    → IsFree (closer_of tag) body rest
    → skip_to (closer_of tag) p (body ++ (closer_of tag ++ rest)) ≡ at (some 0x24) rest
unfolding skip_to IsFree
skip_to-body tag p [] rest h =
    skip_to-found (closer_of tag) p 0x24 ((tag ++ 0x24 ∷ []) ++ rest)
      (starts_with-append (closer_of tag) rest)
    ∙ ap (at (some 0x24)) (drop-length (closer_of tag) rest)
skip_to-body tag p (c ∷ body) rest (e, h) = rw (skip_to, e) (skip_to-body tag (some c) body rest h)

read_tag-tag :
    (tag rest : Text)
    → All (λ d. (is_tag_start d || is_digit d) ≡ true) tag
    → read_tag (tag ++ 0x24 ∷ rest) ≡ some (tag ++ 0x24 ∷ [])
unfolding read_tag
read_tag-tag [] rest h = refl
read_tag-tag (c ∷ tag) rest (e, h) =
    let n : (c == 0x24) ≡ false = ground arith in rw (read_tag, n, e, read_tag-tag tag rest h)

pub match_tag-tag :
    (tag rest : Text) → IsTag tag → match_tag (tag ++ 0x24 ∷ rest) ≡ some (tag ++ 0x24 ∷ [])
match_tag-tag [] rest h = unfold read_tag in refl
match_tag-tag (c ∷ tag) rest (e, h) =
    let f : (c == 0x24 || is_tag_start c) ≡ true = ground arith in
    let g : (is_tag_start c || is_digit c) ≡ true = ground arith in
    rw f (read_tag-tag (c ∷ tag) rest (g, h))

pub skip_block-zero : (p : Option ℕ) (cs : Text) → skip_block 0 p cs ≡ at p cs
unfolding skip_block
skip_block-zero p cs = refl
