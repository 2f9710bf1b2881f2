-- ===== src/Pool/Deallocate/Grammar.antt =====
-- The grammar in the comment at the head of src/pool/deallocate.ts, apart from the decoder.
use prisma_pglite_bridge.Prelude.{◌≡◌, ◌≢◌, ◌⊎◌, true, false, [], ◌∷◌, ◌++◌, ◌==◌, All, map}
use prisma_pglite_bridge.Duplex.CopyIn.{Text, starts}
use prisma_pglite_bridge.Pool.Deallocate.{
  StatementCacheInvalidation, all, name, is_ws, is_ident_start, is_ident_cont, upper, fold_case,
  all_name, discard_word, all_word, deallocate_word, prepare_word,
}

-- A keyword in any ASCII case.
abbrev pub Spells : Text → Text → Type 0
Spells keyword cs = map upper cs ≡ keyword

abbrev pub IsSpaces : Text → Type 0
IsSpaces cs = All (λ c. is_ws c ≡ true) cs

-- `quoted_sep`: it may be empty only before a quote.
abbrev pub Separates : Text → Text → Type 0
Separates sep next = IsSpaces sep × ((sep ≢ []) ⊎ (starts 0x22 next ≡ true))

pub data Trailer : Text → Type 0 where
  spaces : (a : Text) → IsSpaces a → Trailer a
  semicolon : (a b : Text) → IsSpaces a → IsSpaces b → Trailer (a ++ 0x3b ∷ b)

abbrev pub IsRegular : Text → Type 0
IsRegular [] = ⊥
IsRegular (c ∷ cs) = (is_ident_start c ≡ true) × All (λ d. is_ident_cont d ≡ true) cs

-- The content of a delimited identifier, with its quotes doubled.
abbrev pub escape_quotes : Text → Text
escape_quotes [] = []
escape_quotes (c ∷ cs) = elim (c == 0x22) [
  | true ↦ 0x22 ∷ 0x22 ∷ escape_quotes cs
  | false ↦ c ∷ escape_quotes cs
]

abbrev pub delimit : Text → Text
delimit n = 0x22 ∷ escape_quotes n ++ 0x22 ∷ []

pub data Target : Text → StatementCacheInvalidation → Type 0 where
  every : (cs : Text) → Spells all_word cs → Target cs all
  regular :
      (cs : Text) → IsRegular cs → map fold_case cs ≢ all_name → Target cs (name (map fold_case cs))
  delimited : (n : Text) → n ≢ [] → Target (delimit n) (name n)

pub data Command : Text → StatementCacheInvalidation → Type 0 where
  discard :
      (lead word gap target trailer : Text)
      → IsSpaces lead
      → Spells discard_word word
      → IsSpaces gap
      → gap ≢ []
      → Spells all_word target
      → Trailer trailer
      → Command (lead ++ (word ++ (gap ++ (target ++ trailer)))) all
  deallocate :
      (lead word sep target trailer : Text) {r : StatementCacheInvalidation}
      → IsSpaces lead
      → Spells deallocate_word word
      → Separates sep target
      → Target target r
      → Trailer trailer
      → Command (lead ++ (word ++ (sep ++ (target ++ trailer)))) r
  deallocate_prepare :
      (lead word sep prepare sep' target trailer : Text) {r : StatementCacheInvalidation}
      → IsSpaces lead
      → Spells deallocate_word word
      → IsSpaces sep
      → sep ≢ []
      → Spells prepare_word prepare
      → Separates sep' target
      → Target target r
      → Trailer trailer
      → Command (lead ++ (word ++ (sep ++ (prepare ++ (sep' ++ (target ++ trailer)))))) r
