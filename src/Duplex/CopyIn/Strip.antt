-- ===== src/Duplex/CopyIn/Strip.antt =====
-- src/duplex/copy-in.ts: stripQuotedAndComments against the outline of a text.
use prisma_pglite_bridge.Prelude.{
  ℕ, true, false, Option, none, some, List, [], ◌∷◌, ◌++◌, length, drop, ◌≡◌, refl, ap, ◌∙◌, arith,
  append_assoc,
}
use prisma_pglite_bridge.Duplex.CopyIn.{
  Text, Place, at, skip_line, skip_block, skip_quoted, skip_to, match_tag, strip_step, strip_loop,
  strip_quoted_and_comments, is_identifier_glue,
}
use prisma_pglite_bridge.Duplex.CopyIn.Scan.{strip, strip-cons}
use prisma_pglite_bridge.Duplex.CopyIn.Outline.{
  Piece, plain, literal, escape_literal, identifier, line, block, dollar, double, escape,
  render_comment, closer_of, render_piece, render, outline, outline_piece, is_plain, IsPiece,
  AreWell, end_of, last_of,
}
use prisma_pglite_bridge.Duplex.CopyIn.Regions.{
  skip_quoted-double, skip_quoted-escape, skip_line-line, skip_block-comment, skip_to-body,
  match_tag-tag, drop-length, skip_block-zero,
}

plain_step :
    (p : Option ℕ) (c : ℕ) (cs : Text)
    → is_plain p c cs ≡ true
    → strip_step p c cs ≡ (c, at (some c) cs)
unfolding strip_step
plain_step p c cs h = ground arith

line_step :
    (p : Option ℕ) (cs : Text) → strip_step p 0x2d (0x2d ∷ cs) ≡ (0x20, skip_line (some 0x2d) cs)
unfolding strip_step skip_line
line_step p cs = refl

block_step :
    (p : Option ℕ) (cs : Text) → strip_step p 0x2f (0x2a ∷ cs) ≡ (0x20, skip_block 1 (some 0x2a) cs)
unfolding strip_step
block_step p cs = refl

literal_step :
    (p : Option ℕ) (cs : Text)
    → strip_step p 0x27 cs ≡ (0x3f, skip_quoted 0x27 false (some 0x27) cs)
unfolding strip_step
literal_step p cs = ground arith

identifier_step :
    (p : Option ℕ) (cs : Text)
    → strip_step p 0x22 cs ≡ (0x3f, skip_quoted 0x22 false (some 0x22) cs)
unfolding strip_step
identifier_step p cs = ground arith

escape_step :
    (p : Option ℕ) (cs : Text)
    → is_identifier_glue p ≡ false
    → strip_step p 0x45 (0x27 ∷ cs) ≡ (0x3f, skip_quoted 0x27 true (some 0x27) cs)
unfolding strip_step
escape_step p cs h = ground arith

dollar_step :
    (p : Option ℕ) (tag cs : Text)
    → is_identifier_glue p ≡ false
    → match_tag cs ≡ some tag
    → strip_step p 0x24 cs ≡ (0x3f, skip_to (0x24 ∷ tag) (some 0x24) (drop (length tag) cs))
unfolding strip_step
dollar_step p tag cs h m = rw (strip_step, h, m)

module _ (p : Option ℕ) (rest : Text) where
  -- A round at `c` and where it ends.
  strips :
      (c out : ℕ) (cs : Text) (q : Place)
      → strip_step p c cs ≡ (out, q)
      → strip p (c ∷ cs) ≡ out ∷ strip q.before q.rest
  strips c out cs q e = strip-cons p c cs ∙ ap (λ r. r.0 ∷ strip r.1.before r.1.rest) e

  strip-dollar :
      (tag body : Text)
      → IsPiece p (dollar tag body) rest
      → strip p (render_piece (dollar tag body) rest) ≡ 0x3f ∷ strip (some 0x24) rest
  strip-dollar tag body (g, t, f) =
      let behind = body ++ (closer_of tag ++ rest) in
      let full = tag ++ 0x24 ∷ [] in
      let found : match_tag (full ++ behind) ≡ some full =
        ap match_tag (append_assoc tag (0x24 ∷ []) behind) ∙ match_tag-tag tag behind t in
      strips 0x24 0x3f (full ++ behind) (at (some 0x24) rest) (
        dollar_step p full (full ++ behind) g found
        ∙ ap (λ cs. (0x3f, skip_to (closer_of tag) (some 0x24) cs)) (drop-length full behind)
        ∙ ap (λ q. (0x3f, q)) (skip_to-body tag (some 0x24) body rest f))

  strip-piece :
      (q : Piece)
      → IsPiece p q rest
      → strip p (render_piece q rest) ≡ outline_piece q ∷ strip (end_of q) rest
  strip-piece (plain c) h = strips c c rest (at (some c) rest) (plain_step p c rest h)
  strip-piece (literal s) h =
      strips 0x27 0x3f (double 0x27 s ++ 0x27 ∷ rest) (at (some 0x27) rest) (
        literal_step p (double 0x27 s ++ 0x27 ∷ rest)
        ∙ ap (λ q. (0x3f, q)) (skip_quoted-double 0x27 (some 0x27) s rest h))
  strip-piece (escape_literal s) (h, g) =
      strips 0x45 0x3f (0x27 ∷ (escape s ++ 0x27 ∷ rest)) (at (some 0x27) rest) (
        escape_step p (escape s ++ 0x27 ∷ rest) g
        ∙ ap (λ q. (0x3f, q)) (skip_quoted-escape (some 0x27) s rest h))
  strip-piece (identifier s) h =
      strips 0x22 0x3f (double 0x22 s ++ 0x22 ∷ rest) (at (some 0x22) rest) (
        identifier_step p (double 0x22 s ++ 0x22 ∷ rest)
        ∙ ap (λ q. (0x3f, q)) (skip_quoted-double 0x22 (some 0x22) s rest h))
  strip-piece (line s) (n, e) =
      strips 0x2d 0x20 (0x2d ∷ (s ++ rest)) (at (last_of (some 0x2d) s) rest)
        (line_step p (s ++ rest) ∙ ap (λ q. (0x20, q)) (skip_line-line (some 0x2d) s rest n e))
  strip-piece (block k) h = strips 0x2f 0x20 (0x2a ∷ render_comment k rest) (at (some 0x2f) rest) (
      block_step p (render_comment k rest)
      ∙ ap (λ q. (0x20, q))
          (skip_block-comment 0 (some 0x2a) k rest h ∙ skip_block-zero (some 0x2f) rest))
  strip-piece (dollar tag body) h = strip-dollar tag body h

strip-render : (p : Option ℕ) (ps : List Piece) → AreWell p ps → strip p (render ps) ≡ outline ps
unfolding render outline AreWell
strip-render p [] h = unfold strip_loop in refl
strip-render p (q ∷ ps) (h, hs) =
    strip-piece p (render ps) q h ∙ ap (◌∷◌ (outline_piece q)) (strip-render (end_of q) ps hs)

-- The scanner reads a text that is put together from plain characters, literals, escape literals,
-- quoted identifiers, dollar quotes, line comments and nested block comments as what it is: each
-- quoted region becomes one placeholder and each comment one space, whatever stands inside, and
-- the plain characters stay, given that no piece runs on into the next.
pub strip-outline :
    (ps : List Piece) → AreWell none ps → strip_quoted_and_comments (render ps) ≡ outline ps
unfolding strip_quoted_and_comments
strip-outline ps h = strip-render none ps h
