-- ===== src/Pool/FastArrayParsers/Tests.antt =====
-- Parsers of src/pool/fast-array-parsers.ts, where a value is the text that was parsed with marks of
-- the parsers.
use prisma_pglite_bridge.Prelude.{◌≡◌, refl, none, some, [], ◌∷◌}
use prisma_pglite_bridge.Duplex.CopyIn.{Text}
use prisma_pglite_bridge.Pool.FastArrayParsers.{
  other_format, TypesLike, ParseArray, wrap_types_with_fast_array_parsers,
}
use prisma_pglite_bridge.Pool.FastArrayParsers.Choice.{IsChoice, wrap-IsChoice}

abbrev parse_marked : ParseArray Text
parse_marked none raw = 1 ∷ raw
parse_marked (some element) raw = 2 ∷ element raw

abbrev types : TypesLike Text
types oid format raw = oid ∷ raw

test_text_like :
    wrap_types_with_fast_array_parsers parse_marked types 1009 none (7 ∷ []) ≡ 1 ∷ 7 ∷ []
unfolding wrap_types_with_fast_array_parsers
test_text_like = refl

test_element :
    wrap_types_with_fast_array_parsers parse_marked types 1007 none (7 ∷ []) ≡ 2 ∷ 23 ∷ 7 ∷ []
unfolding wrap_types_with_fast_array_parsers
test_element = refl

test_binary :
    wrap_types_with_fast_array_parsers parse_marked types 1007 (some (other_format (98 ∷ []))) []
    ≡ 1007 ∷ []
unfolding wrap_types_with_fast_array_parsers
test_binary = refl

wrap-IsChoice_example :
    IsChoice parse_marked types 1007 none
      (wrap_types_with_fast_array_parsers parse_marked types 1007 none)
wrap-IsChoice_example = wrap-IsChoice parse_marked types 1007 none
