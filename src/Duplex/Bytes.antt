-- ===== src/Duplex/Bytes.antt =====
-- Bytes and the big-endian words that src/duplex reads from them.
use native.Mathlib.Nat.{add_assoc}
use prisma_pglite_bridge.Prelude.{
  ℕ, zero, suc, [], ◌∷◌, refl, ◌+◌, ◌-◌, ◌*◌, ◌^◌, List, get_or, take, drop, ◌≤◌, ◌<◌, ◌≡◌, length,
  arith, get_or-drop, get_or-append_left, ap, ◌++◌, ◌∙◌, take-take-drop, drop-drop,
}

-- The elements of a Uint8Array.
abbrev pub Bytes : Type 0
Bytes = List ℕ

abbrev pub IsByte : ℕ → Type 0
IsByte b = b < 256

-- `((b1 << 24) | (b2 << 16) | (b3 << 8) | b4) >>> 0`: the operands are bytes, so that their bits
-- are disjoint and `|` adds them.
abbrev pub u32 : ℕ → ℕ → ℕ → ℕ → ℕ
u32 b1 b2 b3 b4 = b1 * 2 ^ 24 + b2 * 2 ^ 16 + b3 * 2 ^ 8 + b4

-- `buf[i] ?? 0`
abbrev pub byte_at : Bytes → ℕ → ℕ
byte_at buf i = get_or buf i 0

abbrev pub u32_at : Bytes → ℕ → ℕ
u32_at buf i = u32 (byte_at buf i) (byte_at buf (i + 1)) (byte_at buf (i + 2)) (byte_at buf (i + 3))

abbrev pub u16_at : Bytes → ℕ → ℕ
u16_at buf i = byte_at buf i * 2 ^ 8 + byte_at buf (i + 1)

-- `buf.subarray(start, end)`
abbrev pub subarray : Bytes → ℕ → ℕ → Bytes
subarray buf start end = take (end - start) (drop start buf)

pub u32_at-drop : (n i : ℕ) (buf : Bytes) → u32_at (drop n buf) i ≡ u32_at buf (n + i)
u32_at-drop n i buf = omega (
  arith,
  get_or-drop n i buf 0,
  get_or-drop n (i + 1) buf 0,
  get_or-drop n (i + 2) buf 0,
  get_or-drop n (i + 3) buf 0,
  ap (byte_at buf) (add_assoc n i 1),
  ap (byte_at buf) (add_assoc n i 2),
  ap (byte_at buf) (add_assoc n i 3),
)

-- Reading a word looks at four bytes only.
pub u32_at-append : (i : ℕ) (xs ys : Bytes) → i + 4 ≤ length xs → u32_at (xs ++ ys) i ≡ u32_at xs i
u32_at-append i xs ys h = omega (
  arith,
  get_or-append_left i xs ys 0 (omega arith),
  get_or-append_left (i + 1) xs ys 0 (omega arith),
  get_or-append_left (i + 2) xs ys 0 (omega arith),
  get_or-append_left (i + 3) xs ys 0 (omega arith),
)

pub drop-byte_at : (i : ℕ) (xs : Bytes) → i < length xs → drop i xs ≡ byte_at xs i ∷ drop (i + 1) xs
drop-byte_at i [] h = elim h [ ]
drop-byte_at zero (x ∷ xs) h = refl
drop-byte_at (suc i) (x ∷ xs) h =
    let e : suc i + 1 ≡ suc (i + 1) = omega arith in rw e (drop-byte_at i xs (omega arith))

-- A range in two parts.
pub subarray_split :
    (bytes : Bytes) (start mid end : ℕ)
    → start ≤ mid
    → mid ≤ end
    → subarray bytes start end ≡ subarray bytes start mid ++ subarray bytes mid end
subarray_split bytes start mid end h k =
    let e : end - start - (mid - start) ≡ end - mid = omega arith in
    let m : start + (mid - start) ≡ mid = omega arith in
    take-take-drop (mid - start) (end - start) (drop start bytes) (omega arith)
    ∙ rw (e, drop-drop (mid - start) start bytes, m)
