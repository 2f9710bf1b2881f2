-- ===== src/Duplex/RowDescription/Fields.antt =====
-- What the rewrite of src/duplex/row-description.ts makes of a frame that is put together from
-- fields.
use prisma_pglite_bridge.Prelude.{
  get_or-append_left, ℕ, zero, suc, ◌+◌, ◌-◌, ◌<◌, ◌≡◌, refl, sym, ap, ◌∙◌, inl, inr, Bool, true,
  false, ◌==◌, not, ◌&&◌, ltb, if◌then◌else◌, List, [], ◌∷◌, ◌++◌, append_assoc, length,
  length-append, map, set, drop, drop_all, drop-append, get_or-append_right, All, Bool-cases,
  lt→ltb, arith,
}
use prisma_pglite_bridge.Duplex.Bytes.{Bytes, byte_at, u32, u16_at, u32_at, u32_at-drop}
use prisma_pglite_bridge.Duplex.RowDescription.{
  skip_name, is_catalog_char, rewrite_from, rewrite_row_description_in_place, field_start, widen,
}
use prisma_pglite_bridge.Duplex.RowDescription.Rewrite.{visit, rewrite_go, rewrite_long}

pub record Word : Type 0 where
  pub b0 : ℕ
  pub b1 : ℕ
  pub b2 : ℕ
  pub b3 : ℕ

pub record Half : Type 0 where
  pub h0 : ℕ
  pub h1 : ℕ

abbrev pub value : Word → ℕ
value w = u32 w.b0 w.b1 w.b2 w.b3

-- One column of a RowDescription.
pub record Column : Type 0 where
  pub name : Bytes
  pub table_oid : Word
  pub attribute : Half
  pub type_oid : Word
  pub type_size : Half
  pub modifier : Word
  pub format : Half

-- Behind the name and its NUL.
abbrev pub fixed_part : Column → Bytes → Bytes
fixed_part c rest =
    c.table_oid.b0 ∷ c.table_oid.b1 ∷ c.table_oid.b2 ∷ c.table_oid.b3 ∷ c.attribute.h0
    ∷ c.attribute.h1 ∷ c.type_oid.b0 ∷ c.type_oid.b1 ∷ c.type_oid.b2 ∷ c.type_oid.b3
    ∷ c.type_size.h0 ∷ c.type_size.h1 ∷ c.modifier.b0 ∷ c.modifier.b1 ∷ c.modifier.b2
    ∷ c.modifier.b3 ∷ c.format.h0 ∷ c.format.h1 ∷ rest

abbrev pub encode_column : Column → Bytes → Bytes
encode_column c rest = c.name ++ 0 ∷ fixed_part c rest

unfoldable pub encode_columns : List Column → Bytes → Bytes
encode_columns [] rest = rest
encode_columns (c ∷ cs) rest = encode_column c (encode_columns cs rest)

-- A "char" (oid 18) of a table of the system catalog (oid below 16384) is a text (oid 25, size -1).
abbrev pub widened : Column → Column
widened c =
    if value c.type_oid == 18 && not (value c.table_oid == 0) && ltb (value c.table_oid) 16384
    then record c {
      type_oid = record { b0 = 0; b1 = 0; b2 = 0; b3 = 25 };
      type_size = record { h0 = 255; h1 = 255 };
    }
    else c

abbrev pub IsName : Bytes → Type 0
IsName name = All (λ b. (b == 0) ≡ false) name

abbrev pub AreNamed : List Column → Type 0
AreNamed cs = All (λ (c : Column). IsName c.name) cs

set-append : (xs ys : Bytes) (k v : ℕ) → set (xs ++ ys) (length xs + k) v ≡ xs ++ set ys k v
set-append [] ys k v = let e : 0 + k ≡ k = omega arith in rw e
set-append (x ∷ xs) ys k v =
    let e : suc (length xs) + k ≡ suc (length xs + k) = omega arith in
    rw e (ap (◌∷◌ x) (set-append xs ys k v))

drop-length : (xs ys : Bytes) → drop (length xs) (xs ++ ys) ≡ ys
drop-length xs ys =
    drop-append (length xs) xs ys (omega arith)
    ∙ ap (λ l. l ++ ys) (drop_all (length xs) xs (omega arith))

byte_at-append : (xs ys : Bytes) → byte_at (xs ++ ys) (length xs) ≡ byte_at ys 0
byte_at-append xs ys =
    let e : length xs ≡ length xs + 0 = omega arith in
    ap (byte_at (xs ++ ys)) e ∙ get_or-append_right 0 xs ys 0

u32_at-behind : (xs ys : Bytes) (k : ℕ) → u32_at (xs ++ ys) (length xs + k) ≡ u32_at ys k
u32_at-behind xs ys k =
    sym (u32_at-drop (length xs) k (xs ++ ys)) ∙ ap (λ l. u32_at l k) (drop-length xs ys)

-- The walk over a name ends at its NUL.
skip_name-name :
    (name before rest : Bytes) (k end : ℕ)
    → IsName name
    → length name < k
    → length before + length name < end
    → skip_name k (before ++ (name ++ 0 ∷ rest)) end (length before) ≡ length before + length name
unfolding skip_name
skip_name-name name before rest zero end n f g = absurd (omega (arith, f))
skip_name-name [] before rest (suc k) end n f g =
    let l : ltb (length before) end ≡ true = lt→ltb (length before) end (omega (arith, g)) in
    rw (byte_at-append before (0 ∷ rest), l) (omega arith)
skip_name-name (b ∷ name) before rest (suc k) end n f g =
    let l : ltb (length before) end ≡ true = lt→ltb (length before) end (omega (arith, g)) in
    let whole = before ++ b ∷ (name ++ 0 ∷ rest) in
    let front = before ++ b ∷ [] in
    let split : front ++ (name ++ 0 ∷ rest) ≡ whole = append_assoc before (b ∷ []) _ in
    let size : length front ≡ length before + 1 = length-append before (b ∷ []) in
    let ih = skip_name-name name front rest k end n.1 (omega (arith, f)) (omega (arith, g, size)) in
    rw (byte_at-append before (b ∷ (name ++ 0 ∷ rest)), l, n.0)
      (ap (λ xs. skip_name k xs end (length before + 1)) (sym split)
        ∙ ap (λ m. skip_name k (front ++ (name ++ 0 ∷ rest)) end m) (sym size)
        ∙ ih
        ∙ (omega (arith, size)))

-- The front of a field is what stands before it, its name and the NUL.
abbrev front : Bytes → Bytes → Bytes
front before name = before ++ (name ++ 0 ∷ [])

front-split : (before name rest : Bytes) → before ++ (name ++ 0 ∷ rest) ≡ front before name ++ rest
front-split before name rest =
    ap (λ l. before ++ l) (sym (append_assoc name (0 ∷ []) rest))
    ∙ sym (append_assoc before (name ++ 0 ∷ []) rest)

length-front : (before name : Bytes) → length (front before name) ≡ length before + length name + 1
length-front before name =
    let a = length-append before (name ++ 0 ∷ []) in
    let b = length-append name (0 ∷ []) in omega (arith, a, b)

-- The test on a column, and what the loop makes of it.
is_char : Column → Bool
is_char c = value c.type_oid == 18 && not (value c.table_oid == 0) && ltb (value c.table_oid) 16384

is_catalog_char-column :
    (c : Column) (xs rest : Bytes)
    → is_catalog_char (xs ++ fixed_part c rest) (length xs) ≡ is_char c
unfolding is_catalog_char is_char
is_catalog_char-column c xs rest =
    let whole = xs ++ fixed_part c rest in
    let e : length xs ≡ length xs + 0 = omega arith in
    let table : u32_at whole (length xs) ≡ value c.table_oid =
      ap (u32_at whole) e ∙ u32_at-behind xs (fixed_part c rest) 0 in
    let type : u32_at whole (length xs + 6) ≡ value c.type_oid =
      u32_at-behind xs (fixed_part c rest) 6 in
    ap (λ t. t == 18 && not (u32_at whole (length xs) == 0) && ltb (u32_at whole (length xs)) 16384)
      type
    ∙ ap (λ t. value c.type_oid == 18 && not (t == 0) && ltb t 16384) table

set_behind :
    (xs ys : Bytes) (k j v : ℕ) → set (xs ++ ys) (length xs + k + j) v ≡ xs ++ set ys (k + j) v
set_behind xs ys k j v =
    let e : length xs + k + j ≡ length xs + (k + j) = omega arith in
    ap (λ i. set (xs ++ ys) i v) e ∙ set-append xs ys (k + j) v

widen_behind : (xs ys : Bytes) (k : ℕ) → widen (xs ++ ys) (length xs + k) ≡ xs ++ widen ys k
unfolding widen
widen_behind xs ys k =
    let i = length xs + k in
    let y0 = set ys k 0 in
    let y1 = set y0 (k + 1) 0 in
    let y2 = set y1 (k + 2) 0 in
    let y3 = set y2 (k + 3) 25 in
    let y4 = set y3 (k + 4) 255 in
    ap (λ l. set (set (set (set (set l (i + 1) 0) (i + 2) 0) (i + 3) 25) (i + 4) 255) (i + 5) 255)
      (set-append xs ys k 0)
    ∙ ap (λ l. set (set (set (set l (i + 2) 0) (i + 3) 25) (i + 4) 255) (i + 5) 255)
        (set_behind xs y0 k 1 0)
    ∙ ap (λ l. set (set (set l (i + 3) 25) (i + 4) 255) (i + 5) 255) (set_behind xs y1 k 2 0)
    ∙ ap (λ l. set (set l (i + 4) 255) (i + 5) 255) (set_behind xs y2 k 3 25)
    ∙ ap (λ l. set l (i + 5) 255) (set_behind xs y3 k 4 255)
    ∙ set_behind xs y4 k 5 255

abbrev as_text : Column → Column
as_text c = record c {
  type_oid = record { b0 = 0; b1 = 0; b2 = 0; b3 = 25 };
  type_size = record { h0 = 255; h1 = 255 };
}

widen-column :
    (c : Column) (rest : Bytes) → widen (fixed_part c rest) 6 ≡ fixed_part (as_text c) rest
unfolding widen
widen-column c rest = refl

visit-column :
    (c : Column) (xs rest : Bytes)
    → visit (xs ++ fixed_part c rest) (length xs) ≡ xs ++ fixed_part (widened c) rest
unfolding is_char
visit-column c xs rest =
    let whole = xs ++ fixed_part c rest in
    ap (λ b. if b then widen whole (length xs + 6) else whole) (is_catalog_char-column c xs rest)
    ∙ elim (Bool-cases (is_char c)) [
      | inl y ↦
          rw y (widen_behind xs (fixed_part c rest) 6 ∙ ap (λ l. xs ++ l) (widen-column c rest))
      | inr n ↦ rw n refl
    ]

-- One round of the loop, and all of them.
length-fixed_part : (c : Column) (rest : Bytes) → length (fixed_part c rest) ≡ 18 + length rest
length-fixed_part c rest = omega arith

widened-name : (c : Column) → (widened c).name ≡ c.name
widened-name c = ground arith

-- Up to the end of a column whose fixed part is another's.
abbrev through : Bytes → Column → Bytes
through xs c = xs ++ fixed_part c []

through-split : (xs rest : Bytes) (c : Column) → xs ++ fixed_part c rest ≡ through xs c ++ rest
through-split xs rest c = sym (append_assoc xs (fixed_part c []) rest)

length-through : (xs : Bytes) (c : Column) → length (through xs c) ≡ length xs + 18
length-through xs c = length-append xs (fixed_part c [])

rewrite_column :
    (n : ℕ) (c : Column) (before tail : Bytes)
    → IsName c.name
    → let done = through (front before c.name) (widened c) in
      rewrite_from (suc n) (before ++ encode_column c tail) (length before)
      ≡ rewrite_from n (done ++ tail) (length done)
rewrite_column n c before tail h =
    let buf = before ++ encode_column c tail in
    let xs = front before c.name in
    let q = length xs in
    let split : buf ≡ xs ++ fixed_part c tail = front-split before c.name (fixed_part c tail) in
    let size : length buf ≡ q + length (fixed_part c tail) =
      ap length split ∙ length-append xs (fixed_part c tail) in
    let part = length-fixed_part c tail in
    let place = length-front before c.name in
    let start : field_start buf (length buf) (length before) ≡ q =
      ap (λ k. k + 1)
        (skip_name-name c.name before (fixed_part c tail) (length buf - length before) (length buf)
          h (omega (arith, size, part, place)) (omega (arith, size, part, place)))
      ∙ sym place in
    let fits : ltb (length buf) (q + 18) ≡ false = ground (arith, size, part) in
    rewrite_go n buf (length before) q start fits
    ∙ ap (λ l. rewrite_from n (visit l q) (q + 18)) split
    ∙ ap (λ l. rewrite_from n l (q + 18))
        (visit-column c xs tail ∙ through-split xs tail (widened c))
    ∙ ap (rewrite_from n (through xs (widened c) ++ tail)) (sym (length-through xs (widened c)))

encode-through :
    (c : Column) (before rest : Bytes)
    → through (front before c.name) (widened c) ++ rest ≡ before ++ encode_column (widened c) rest
encode-through c before rest =
    sym (through-split (front before c.name) rest (widened c))
    ∙ sym (front-split before c.name (fixed_part (widened c) rest))
    ∙ ap (λ l. before ++ (l ++ 0 ∷ fixed_part (widened c) rest)) (sym (widened-name c))

rewrite_columns :
    (cs : List Column) (before rest : Bytes)
    → AreNamed cs
    → rewrite_from (length cs) (before ++ encode_columns cs rest) (length before)
      ≡ before ++ encode_columns (map widened cs) rest
unfolding encode_columns
rewrite_columns [] before rest n = unfold rewrite_from in refl
rewrite_columns (c ∷ cs) before rest n =
    rewrite_column (length cs) c before (encode_columns cs rest) n.0
    ∙ rewrite_columns cs (through (front before c.name) (widened c)) rest n.1
    ∙ encode-through c before (encode_columns (map widened cs) rest)

-- A RowDescription with as many columns as its count says, whose names hold no NUL, is rewritten to
-- one in which each "char" column of a table of the system catalog is a text of size -1; its other
-- columns, all else of these, its header and what follows the columns stay.
pub rewrite-columns :
    (header rest : Bytes) (cs : List Column)
    → length header ≡ 7
    → u16_at header 5 ≡ length cs
    → AreNamed cs
    → rewrite_row_description_in_place (header ++ encode_columns cs rest)
      ≡ header ++ encode_columns (map widened cs) rest
rewrite-columns header rest cs seven count named =
    let buf = header ++ encode_columns cs rest in
    let size = length-append header (encode_columns cs rest) in
    let long : ltb (length buf) 7 ≡ false = ground (arith, size, seven) in
    let five = get_or-append_left 5 header (encode_columns cs rest) 0 (omega (arith, seven)) in
    let six = get_or-append_left 6 header (encode_columns cs rest) 0 (omega (arith, seven)) in
    let counted : u16_at buf 5 ≡ length cs = omega (arith, five, six, count) in
    rewrite_long buf long
    ∙ ap (λ n. rewrite_from n buf 7) counted
    ∙ ap (rewrite_from (length cs) buf) (sym seven)
    ∙ rewrite_columns cs header rest named
