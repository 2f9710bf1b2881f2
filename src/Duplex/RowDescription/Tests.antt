-- ===== src/Duplex/RowDescription/Tests.antt =====
-- Runs of src/duplex/row-description.ts on a frame with one catalog "char" column.
use prisma_pglite_bridge.Prelude.{List, ◌++◌, map, ℕ, ◌≡◌, refl, false, [], ◌∷◌, length, arith}
use prisma_pglite_bridge.Duplex.Bytes.{Bytes, subarray}
use prisma_pglite_bridge.Duplex.RowDescription.{
  row_description_needs_rewrite, rewrite_row_description_in_place, skip_name, needs_rewrite_from,
  rewrite_from, widen, is_catalog_char,
}
use prisma_pglite_bridge.Duplex.RowDescription.Fields.{
  Word, Column, encode_columns, widened, rewrite-columns,
}
use prisma_pglite_bridge.Duplex.RowDescription.Gate.{needs_rewrite_false, needs_rewrite-subarray}
use prisma_pglite_bridge.Duplex.RowDescription.Rewrite.{needs_rewrite-rewrite, rewrite-rewrite}

-- The column `c` of relation 1247 with the given type and size.
abbrev frame : ℕ → ℕ → ℕ → Bytes
frame oid high low =
    84 ∷ 0 ∷ 0 ∷ 0 ∷ 26 ∷ 0 ∷ 1 ∷ 99 ∷ 0 ∷ 0 ∷ 0 ∷ 4 ∷ 223 ∷ 0 ∷ 3 ∷ 0 ∷ 0 ∷ 0 ∷ oid ∷ high ∷ low
    ∷ 255 ∷ 255 ∷ 255 ∷ 255 ∷ 0 ∷ 0 ∷ []

rewrite_frame : rewrite_row_description_in_place (frame 18 0 1) ≡ frame 25 255 255
unfolding rewrite_row_description_in_place rewrite_from skip_name widen is_catalog_char
rewrite_frame = refl

frame_of_text : row_description_needs_rewrite (frame 25 255 255) 0 27 ≡ false
unfolding row_description_needs_rewrite needs_rewrite_from skip_name is_catalog_char
frame_of_text = refl

needs_rewrite_false_example : rewrite_row_description_in_place (frame 25 255 255) ≡ frame 25 255 255
needs_rewrite_false_example = needs_rewrite_false (frame 25 255 255) frame_of_text

needs_rewrite-subarray_example :
    row_description_needs_rewrite (1 ∷ frame 18 0 1) 1 28
    ≡ row_description_needs_rewrite
        (subarray (1 ∷ frame 18 0 1) 1 28)
        0
        (length (subarray (1 ∷ frame 18 0 1) 1 28))
needs_rewrite-subarray_example =
    needs_rewrite-subarray (1 ∷ frame 18 0 1) 1 28 (omega arith) (omega arith)

needs_rewrite-rewrite_example :
    row_description_needs_rewrite
      (rewrite_row_description_in_place (frame 18 0 1))
      0
      (length (rewrite_row_description_in_place (frame 18 0 1)))
    ≡ false
needs_rewrite-rewrite_example = needs_rewrite-rewrite (frame 18 0 1)

rewrite-rewrite_example :
    rewrite_row_description_in_place (rewrite_row_description_in_place (frame 18 0 1))
    ≡ rewrite_row_description_in_place (frame 18 0 1)
rewrite-rewrite_example = rewrite-rewrite (frame 18 0 1)

-- The column `c` of relation 1247, and one of a user's table.
abbrev char_column : Word → Column
char_column table = record {
  name = 99 ∷ [];
  table_oid = table;
  attribute = record { h0 = 0; h1 = 3 };
  type_oid = record { b0 = 0; b1 = 0; b2 = 0; b3 = 18 };
  type_size = record { h0 = 0; h1 = 1 };
  modifier = record { b0 = 255; b1 = 255; b2 = 255; b3 = 255 };
  format = record { h0 = 0; h1 = 0 };
}

abbrev two_columns : List Column
two_columns =
    char_column (record { b0 = 0; b1 = 0; b2 = 4; b3 = 223 })
    ∷ char_column (record { b0 = 0; b1 = 0; b2 = 64; b3 = 1 })
    ∷ []

abbrev header : Bytes
header = 84 ∷ 0 ∷ 0 ∷ 0 ∷ 46 ∷ 0 ∷ 2 ∷ []

rewrite-columns_example :
    rewrite_row_description_in_place (header ++ encode_columns two_columns [])
    ≡ header ++ encode_columns (map widened two_columns) []
rewrite-columns_example =
    rewrite-columns header [] two_columns refl refl ((refl, tt), ((refl, tt), tt))
