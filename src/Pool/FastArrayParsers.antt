-- ===== src/Pool/FastArrayParsers.antt =====
-- src/pool/fast-array-parsers.ts: which parser a type gets. The parser of array literals, which is
-- postgres-array's, and the wrapped types are parameters; a missing format is none.
pub mod Choice
mod Tests
use prisma_pglite_bridge.Prelude.{
  ℕ, ◌==◌, if◌then◌else◌, Bool, true, false, Option, none, some, List, [], ◌∷◌,
}
use prisma_pglite_bridge.Duplex.CopyIn.{Text}

-- The format that a type's parser is asked for, `'text'` or another one.
pub data Format : Type 0 where
  text_format : Format
  other_format : Text → Format

abbrev pub array_oid_text_like : List ℕ
array_oid_text_like = 1002 ∷ 1009 ∷ 1014 ∷ 1015 ∷ 1040 ∷ 1041 ∷ 1270 ∷ 2951 ∷ 651 ∷ 3907 ∷ []

abbrev pub array_oid_with_element : List (ℕ × ℕ)
array_oid_with_element =
    (1000, 16)
    ∷ (1001, 17)
    ∷ (1005, 21)
    ∷ (1007, 23)
    ∷ (1016, 20)
    ∷ (1017, 600)
    ∷ (1021, 700)
    ∷ (1022, 701)
    ∷ (1028, 26)
    ∷ (1187, 1186)
    ∷ []

abbrev pub has : List ℕ → ℕ → Bool
has [] oid = false
has (x ∷ xs) oid = if x == oid then true else has xs oid

abbrev pub get : List (ℕ × ℕ) → ℕ → Option ℕ
get [] oid = none
get (x ∷ xs) oid = if x.0 == oid then some x.1 else get xs oid

-- `getTypeParser`, and `parse` of postgres-array, with or without a parser of elements.
abbrev pub TypesLike {ℓ} : Type ℓ → Type ℓ
TypesLike V = ℕ → Option Format → Text → V

abbrev pub ParseArray {ℓ} : Type ℓ → Type ℓ
ParseArray V = Option (Text → V) → Text → V

module _ {ℓ} {V : Type ℓ} (parse_array : ParseArray V) (original : TypesLike V) where
  -- Behind the look-up of the element's type.
  pub element_or_original : ℕ → Option ℕ → Text → V
  element_or_original oid none = original oid (some text_format)
  element_or_original oid (some element_oid) =
      parse_array (some (original element_oid (some text_format)))

  pub text_parser : ℕ → Text → V
  unfolding element_or_original
  text_parser oid =
      if has array_oid_text_like oid
      then parse_array none
      else element_or_original oid (get array_oid_with_element oid)

  pub wrap_types_with_fast_array_parsers : TypesLike V
  unfolding text_parser
  wrap_types_with_fast_array_parsers oid none = text_parser oid
  wrap_types_with_fast_array_parsers oid (some text_format) = text_parser oid
  wrap_types_with_fast_array_parsers oid (some (other_format f)) =
      original oid (some (other_format f))
