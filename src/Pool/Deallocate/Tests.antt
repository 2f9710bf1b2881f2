-- ===== src/Pool/Deallocate/Tests.antt =====
-- The decoder of src/pool/deallocate.ts run on commands.
use prisma_pglite_bridge.Prelude.{◌≡◌, ◌↔◌, refl, none, some, [], ◌∷◌, ◌++◌}
use prisma_pglite_bridge.Duplex.CopyIn.{Text}
use prisma_pglite_bridge.Pool.Deallocate.{
  all, name, decode_statement_cache_invalidation, deallocate_word, prepare_word, discard_word,
  all_word, is_ws, is_ident_start, is_ident_cont, skip_ws, target_start_after_keyword, upper,
  match_units, at_boundary, match_keyword, is_trailer, fold_case, span_ident,
  scan_regular_identifier, scan_quoted, scan_delimited_identifier, scan_target, decode_discard,
}
use prisma_pglite_bridge.Pool.Deallocate.Grammar.{Command}
use prisma_pglite_bridge.Pool.Deallocate.Complete.{
  command_for, decode-command_for, decode-iff-Command,
}

abbrev blank : Text
blank = 0x20 ∷ []

-- `DEALLOCATE PREPARE Foo ;`
abbrev prepared : Text
prepared =
    deallocate_word ++ blank ++ prepare_word ++ blank ++ (0x46 ∷ 0x6f ∷ 0x6f ∷ 0x20 ∷ 0x3b ∷ [])

-- `DEALLOCATE"a""b"`
abbrev adjacent : Text
adjacent = deallocate_word ++ (0x22 ∷ 0x61 ∷ 0x22 ∷ 0x22 ∷ 0x62 ∷ 0x22 ∷ [])

decode-tests :
    (decode_statement_cache_invalidation prepared ≡ some (name (0x66 ∷ 0x6f ∷ 0x6f ∷ [])))
    × (decode_statement_cache_invalidation adjacent ≡ some (name (0x61 ∷ 0x22 ∷ 0x62 ∷ [])))
    × (decode_statement_cache_invalidation (discard_word ++ blank ++ all_word) ≡ some all)
    × (decode_statement_cache_invalidation (discard_word ++ blank ++ prepare_word) ≡ none)
    × (decode_statement_cache_invalidation (deallocate_word ++ prepare_word) ≡ none)
    × (decode_statement_cache_invalidation (deallocate_word ++ blank ++ prepare_word)
        ≡ some (name (0x70 ∷ 0x72 ∷ 0x65 ∷ 0x70 ∷ 0x61 ∷ 0x72 ∷ 0x65 ∷ [])))
unfolding decode_statement_cache_invalidation is_ws is_ident_start is_ident_cont skip_ws
    target_start_after_keyword upper match_units at_boundary match_keyword is_trailer fold_case
    span_ident scan_regular_identifier scan_quoted scan_delimited_identifier scan_target
    decode_discard
decode-tests = (refl, refl, refl, refl, refl, refl)

decode-iff-Command_example :
    (decode_statement_cache_invalidation prepared ≡ some (name (0x66 ∷ 0x6f ∷ 0x6f ∷ [])))
    ↔ Command prepared (name (0x66 ∷ 0x6f ∷ 0x6f ∷ []))
decode-iff-Command_example = decode-iff-Command prepared (name (0x66 ∷ 0x6f ∷ 0x6f ∷ []))

decode-command_for_example :
    decode_statement_cache_invalidation (command_for (name (0x61 ∷ 0x22 ∷ [])))
    ≡ some (name (0x61 ∷ 0x22 ∷ []))
decode-command_for_example = decode-command_for (name (0x61 ∷ 0x22 ∷ [])) (λ e. cc)
