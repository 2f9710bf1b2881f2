-- ===== src/Duplex/RowDescription.antt =====
-- src/duplex/row-description.ts: widening of catalog "char" columns in a RowDescription frame.
-- A write to a Buffer returns the new bytes.
pub mod Gate
pub mod Rewrite
pub mod Fields
mod Tests
use prisma_pglite_bridge.Prelude.{
  ℕ, zero, suc, ◌+◌, ◌-◌, ltb, ◌==◌, not, ◌&&◌, if◌then◌else◌, Bool, true, false, set, length,
}
use prisma_pglite_bridge.Duplex.Bytes.{Bytes, byte_at, u16_at, u32_at}
use prisma_pglite_bridge.Duplex.Constants.{pg_type_oid_char, pg_type_oid_text, pg_first_user_oid}

-- `while (p < end && buf[p] !== 0) p++`, in at most the rounds that are left before `end`.
pub skip_name : ℕ → Bytes → ℕ → ℕ → ℕ
skip_name zero buf end p = p
skip_name (suc rounds) buf end p =
    let rest = skip_name rounds buf end (p + 1) in
    if ltb p end && not (byte_at buf p == 0) then rest else p

-- Where the fixed part of the field at `p` begins, behind the name's NUL.
abbrev pub field_start : Bytes → ℕ → ℕ → ℕ
field_start buf end p = skip_name (end - p) buf end p + 1

-- The test on the field whose fixed part begins at `p`: type oid 18 in a catalog relation.
pub is_catalog_char : Bytes → ℕ → Bool
is_catalog_char buf p =
    u32_at buf (p + 6) == pg_type_oid_char
    && not (u32_at buf p == 0)
    && ltb (u32_at buf p) pg_first_user_oid

-- The loop of `rowDescriptionNeedsRewrite` over the fields that are left.
pub needs_rewrite_from : ℕ → Bytes → ℕ → ℕ → Bool
needs_rewrite_from zero buf end p = false
needs_rewrite_from (suc fields) buf end p =
    let q = field_start buf end p in
    let rest = needs_rewrite_from fields buf end (q + 18) in
    if ltb end (q + 18) then false else if is_catalog_char buf q then true else rest

pub row_description_needs_rewrite : Bytes → ℕ → ℕ → Bool
row_description_needs_rewrite buf start end =
    if ltb (end - start) 7
    then false
    else needs_rewrite_from (u16_at buf (start + 5)) buf end (start + 7)

-- `writeUInt32BE(25, p)` and `writeInt16BE(-1, p + 4)`.
pub widen : Bytes → ℕ → Bytes
widen buf p =
    set
      (set (set (set (set (set buf p 0) (p + 1) 0) (p + 2) 0) (p + 3) pg_type_oid_text) (p + 4) 255)
      (p + 5) 255

-- The loop of `rewriteRowDescriptionInPlace`.
pub rewrite_from : ℕ → Bytes → ℕ → Bytes
rewrite_from zero buf p = buf
rewrite_from (suc fields) buf p =
    let q = field_start buf (length buf) p in
    let rest =
      rewrite_from fields (if is_catalog_char buf q then widen buf (q + 6) else buf) (q + 18) in
    if ltb (length buf) (q + 18) then buf else rest

pub rewrite_row_description_in_place : Bytes → Bytes
rewrite_row_description_in_place buf =
    if ltb (length buf) 7 then buf else rewrite_from (u16_at buf 5) buf 7
