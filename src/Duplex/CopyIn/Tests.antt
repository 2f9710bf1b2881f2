-- ===== src/Duplex/CopyIn/Tests.antt =====
-- Runs of src/duplex/copy-in.ts on short texts.
use prisma_pglite_bridge.Prelude.{
  leb, ◌+◌, ◌&&◌, if◌then◌else◌, ◌≡◌, refl, none, List, [], ◌∷◌, ◌++◌, arith,
}
use prisma_pglite_bridge.Duplex.CopyIn.{
  Text, capture, reject_multi, not_copy_in, sniff_copy_in, strip_quoted_and_comments, strip_loop,
  strip_step, skip_quoted, words, trim_start, trim_end, split_statements, trimmed, has_from_stdin,
}
use prisma_pglite_bridge.Duplex.CopyIn.Outline.{
  Piece, plain, literal, escape_literal, line, block, dollar, closed, char, nested, render, outline,
  AreWell, IsComment, IsFree, double, escape, render_comment,
}
use prisma_pglite_bridge.Duplex.CopyIn.Strip.{strip-outline}

-- Lower case on ASCII.
abbrev lower : Text → Text
lower [] = []
lower (c ∷ cs) = (if leb 0x41 c && leb c 0x5a then c + 32 else c) ∷ lower cs

-- `COPY t FROM STDIN`
abbrev copy_text : Text
copy_text = 67 ∷ 79 ∷ 80 ∷ 89 ∷ 32 ∷ 116 ∷ 32 ∷ 70 ∷ 82 ∷ 79 ∷ 77 ∷ 32 ∷ 83 ∷ 84 ∷ 68 ∷ 73 ∷ 78 ∷ []

copy_text_captured : sniff_copy_in lower copy_text ≡ capture
unfolding sniff_copy_in strip_quoted_and_comments strip_loop strip_step words trim_start trim_end
    split_statements trimmed has_from_stdin
copy_text_captured = refl

-- `E'x'; COPY t FROM STDIN`
second_statement_refused :
    sniff_copy_in lower (69 ∷ 39 ∷ 120 ∷ 39 ∷ 59 ∷ 32 ∷ copy_text) ≡ reject_multi
unfolding sniff_copy_in strip_quoted_and_comments strip_loop strip_step skip_quoted words trim_start
    trim_end split_statements trimmed has_from_stdin
second_statement_refused = refl

-- `'COPY t FROM STDIN'`
literal_passed : sniff_copy_in lower (39 ∷ (copy_text ++ 39 ∷ [])) ≡ not_copy_in
unfolding sniff_copy_in strip_quoted_and_comments strip_loop strip_step skip_quoted words trim_start
    trim_end split_statements trimmed has_from_stdin
literal_passed = refl

-- `a';''` and, behind a space, E`;\'`, `$t$;$t$`, `/*/**/;*/` and `--;` before a new line.
abbrev pieces : List Piece
pieces =
    plain 97
    ∷ literal (59 ∷ 39 ∷ [])
    ∷ plain 32
    ∷ escape_literal (59 ∷ 39 ∷ [])
    ∷ plain 32
    ∷ dollar (116 ∷ []) (59 ∷ [])
    ∷ block (nested closed (char 59 closed))
    ∷ line (59 ∷ [])
    ∷ plain 10
    ∷ []

pieces-AreWell : AreWell none pieces
unfolding AreWell IsComment IsFree render double escape render_comment
pieces-AreWell = ground arith

strip-outline_example : strip_quoted_and_comments (render pieces) ≡ outline pieces
strip-outline_example = strip-outline pieces pieces-AreWell
