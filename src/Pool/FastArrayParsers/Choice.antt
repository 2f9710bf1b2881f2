-- ===== src/Pool/FastArrayParsers/Choice.antt =====
-- Which parser each type of PostgreSQL gets (src/pool/fast-array-parsers.ts).
use prisma_pglite_bridge.Prelude.{
  ℕ, ◌==◌, ◌≡◌, ◌≢◌, ◌⊎◌, refl, sym, ap, ◌∙◌, inl, inr, if◌then◌else◌, Bool, true, false, Option,
  none, some, List, [], ◌∷◌, All, Bool-cases, Option-cases, subst, arith,
}
use prisma_pglite_bridge.Duplex.CopyIn.{Text}
use prisma_pglite_bridge.Pool.FastArrayParsers.{
  Format, text_format, other_format, array_oid_text_like, array_oid_with_element, has, get,
  TypesLike, ParseArray, element_or_original, text_parser, wrap_types_with_fast_array_parsers,
}

-- The array types that get the fast parser, as pg_type names them.
pub data ArrayType : Type 0 where
  a_bool a_bytea a_char a_int2 a_int4 a_text a_bpchar a_varchar a_int8 a_point : ArrayType
  a_float4 a_float8 a_oid a_macaddr a_inet a_cidr a_timetz a_uuid a_interval a_numrange : ArrayType

abbrev pub array_oid : ArrayType → ℕ
array_oid a_bool = 1000
array_oid a_bytea = 1001
array_oid a_char = 1002
array_oid a_int2 = 1005
array_oid a_int4 = 1007
array_oid a_text = 1009
array_oid a_bpchar = 1014
array_oid a_varchar = 1015
array_oid a_int8 = 1016
array_oid a_point = 1017
array_oid a_float4 = 1021
array_oid a_float8 = 1022
array_oid a_oid = 1028
array_oid a_macaddr = 1040
array_oid a_inet = 1041
array_oid a_cidr = 651
array_oid a_timetz = 1270
array_oid a_uuid = 2951
array_oid a_interval = 1187
array_oid a_numrange = 3907

-- The oid of the type of an element that is parsed, none where its text is kept.
abbrev pub parsed_element : ArrayType → Option ℕ
parsed_element a_bool = some 16
parsed_element a_bytea = some 17
parsed_element a_int8 = some 20
parsed_element a_int2 = some 21
parsed_element a_int4 = some 23
parsed_element a_oid = some 26
parsed_element a_point = some 600
parsed_element a_float4 = some 700
parsed_element a_float8 = some 701
parsed_element a_interval = some 1186
parsed_element a_char = none
parsed_element a_text = none
parsed_element a_bpchar = none
parsed_element a_varchar = none
parsed_element a_macaddr = none
parsed_element a_inet = none
parsed_element a_cidr = none
parsed_element a_timetz = none
parsed_element a_uuid = none
parsed_element a_numrange = none

-- The text format, which a missing one is too.
pub data IsText : Option Format → Type 0 where
  missing : IsText none
  given : IsText (some text_format)

module _ {ℓ} {V : Type ℓ} (parse_array : ParseArray V) (original : TypesLike V) where
  -- The parser of an array, given the element's type.
  abbrev pub array_parser : Option ℕ → Text → V
  array_parser none = parse_array none
  array_parser (some e) = parse_array (some (original e (some text_format)))

  -- The parser that a type is to get in a format.
  pub data IsChoice (oid : ℕ) : Option Format → (Text → V) → Type ℓ where
    array :
        (f : Option Format) (t : ArrayType)
        → IsText f
        → array_oid t ≡ oid
        → IsChoice oid f (array_parser (parsed_element t))
    no_array :
        (f : Option Format)
        → IsText f
        → ((t : ArrayType) → array_oid t ≢ oid)
        → IsChoice oid f (original oid (some text_format))
    no_text :
        (name : Text)
        → IsChoice oid (some (other_format name)) (original oid (some (other_format name)))

-- The tables hold these types and no other.
abbrev IsArray : Option ℕ → ℕ → Type 0
IsArray e oid = (t : ArrayType) × (array_oid t ≡ oid) × (parsed_element t ≡ e)

has-All : (P : ℕ → Type 0) (oids : List ℕ) (oid : ℕ) → All P oids → has oids oid ≡ true → P oid
has-All P [] oid a h = cc
has-All P (x ∷ xs) oid a h = elim (Bool-cases (x == oid)) [
  | inl y ↦ subst P (ground (arith, y)) a.0
  | inr n ↦ has-All P xs oid a.1 (ground (arith, h, n))
]

get-All :
    (P : Option ℕ → ℕ → Type 0) (table : List (ℕ × ℕ)) (oid e : ℕ)
    → All (λ (q : ℕ × ℕ). P (some q.1) q.0) table
    → get table oid ≡ some e
    → P (some e) oid
get-All P [] oid e a h = cc
get-All P (x ∷ xs) oid e a h = elim (Bool-cases (x.0 == oid)) [
  | inl y ↦
      let o : x.0 ≡ oid = ground (arith, y) in
      let v : x.1 ≡ e = ground (arith, h, y) in
      subst (λ k. P (some e) k) o (subst (λ k. P (some k) x.0) v a.0)
  | inr n ↦ get-All P xs oid e a.1 (ground (arith, h, n))
]

text_like-IsArray : All (IsArray none) array_oid_text_like
text_like-IsArray = (
  (a_char, refl, refl),
  (
    (a_text, refl, refl),
    (
      (a_bpchar, refl, refl),
      (
        (a_varchar, refl, refl),
        (
          (a_macaddr, refl, refl),
          (
            (a_inet, refl, refl),
            (
              (a_timetz, refl, refl),
              ((a_uuid, refl, refl), ((a_cidr, refl, refl), ((a_numrange, refl, refl), tt))),
            ),
          ),
        ),
      ),
    ),
  ),
)

with_element-IsArray : All (λ (q : ℕ × ℕ). IsArray (some q.1) q.0) array_oid_with_element
with_element-IsArray = (
  (a_bool, refl, refl),
  (
    (a_bytea, refl, refl),
    (
      (a_int2, refl, refl),
      (
        (a_int4, refl, refl),
        (
          (a_int8, refl, refl),
          (
            (a_point, refl, refl),
            (
              (a_float4, refl, refl),
              ((a_float8, refl, refl), ((a_oid, refl, refl), ((a_interval, refl, refl), tt))),
            ),
          ),
        ),
      ),
    ),
  ),
)

abbrev IsListed : ℕ → Type 0
IsListed oid =
    (has array_oid_text_like oid ≡ true) ⊎ ((e : ℕ) × (get array_oid_with_element oid ≡ some e))

array_oid-IsListed : (t : ArrayType) → IsListed (array_oid t)
array_oid-IsListed a_bool = inr (16, refl)
array_oid-IsListed a_bytea = inr (17, refl)
array_oid-IsListed a_char = inl refl
array_oid-IsListed a_int2 = inr (21, refl)
array_oid-IsListed a_int4 = inr (23, refl)
array_oid-IsListed a_text = inl refl
array_oid-IsListed a_bpchar = inl refl
array_oid-IsListed a_varchar = inl refl
array_oid-IsListed a_int8 = inr (20, refl)
array_oid-IsListed a_point = inr (600, refl)
array_oid-IsListed a_float4 = inr (700, refl)
array_oid-IsListed a_float8 = inr (701, refl)
array_oid-IsListed a_oid = inr (26, refl)
array_oid-IsListed a_macaddr = inl refl
array_oid-IsListed a_inet = inl refl
array_oid-IsListed a_cidr = inl refl
array_oid-IsListed a_timetz = inl refl
array_oid-IsListed a_uuid = inl refl
array_oid-IsListed a_interval = inr (1186, refl)
array_oid-IsListed a_numrange = inl refl

unlisted :
    (oid : ℕ)
    → has array_oid_text_like oid ≡ false
    → get array_oid_with_element oid ≡ none
    → (t : ArrayType) → array_oid t ≢ oid
unlisted oid n g t = λ e. elim (subst IsListed e (array_oid-IsListed t)) [
  | inl y ↦ cc (y, n)
  | inr (x, f) ↦ cc (f, g)
]

module _ {ℓ} {V : Type ℓ} (parse_array : ParseArray V) (original : TypesLike V) where
  -- The test and the look-up decide.
  text_parser_by : Bool → ℕ → Option ℕ → Text → V
  text_parser_by b oid e =
      if b then parse_array none else element_or_original parse_array original oid e

  text_parser_lem :
      (oid : ℕ) (b : Bool) (e : Option ℕ)
      → has array_oid_text_like oid ≡ b
      → get array_oid_with_element oid ≡ e
      → text_parser parse_array original oid ≡ text_parser_by b oid e
  unfolding text_parser text_parser_by
  text_parser_lem oid b e y g =
      ap (λ c. text_parser_by c oid (get array_oid_with_element oid)) y
      ∙ ap (text_parser_by b oid) g

  text_parser-IsChoice :
      (oid : ℕ) (f : Option Format)
      → IsText f
      → IsChoice parse_array original oid f (text_parser parse_array original oid)
  unfolding text_parser_by element_or_original
  text_parser-IsChoice oid f i = elim (Bool-cases (has array_oid_text_like oid)) [
    | inl y ↦
        let (t, o, p) = has-All (IsArray none) array_oid_text_like oid text_like-IsArray y in
        subst (IsChoice parse_array original oid f)
          (ap (array_parser parse_array original) p
            ∙ sym (text_parser_lem oid true (get array_oid_with_element oid) y refl))
          (array f t i o)
    | inr n ↦ elim (Option-cases (get array_oid_with_element oid)) [
      | inl g ↦
          subst (IsChoice parse_array original oid f) (sym (text_parser_lem oid false none n g))
            (no_array f i (unlisted oid n g))
      | inr (e, g) ↦
          let (t, o, p) = get-All IsArray array_oid_with_element oid e with_element-IsArray g in
          subst (IsChoice parse_array original oid f)
            (ap (array_parser parse_array original) p
              ∙ sym (text_parser_lem oid false (some e) n g))
            (array f t i o)
    ]
  ]

  -- In the text format, which a missing format is too, the array types of pg_type above get the fast
  -- parser of arrays, with the original parser of their elements' type or with none where the text
  -- of an element is its value, and every other type gets its original parser; in any other format
  -- every type gets the original one.
  pub wrap-IsChoice :
      (oid : ℕ) (f : Option Format)
      → IsChoice parse_array original oid f
          (wrap_types_with_fast_array_parsers parse_array original oid f)
  unfolding wrap_types_with_fast_array_parsers
  wrap-IsChoice oid none = text_parser-IsChoice oid none missing
  wrap-IsChoice oid (some text_format) = text_parser-IsChoice oid (some text_format) given
  wrap-IsChoice oid (some (other_format name)) = no_text name
