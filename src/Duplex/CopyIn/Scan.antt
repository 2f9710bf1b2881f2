-- ===== src/Duplex/CopyIn/Scan.antt =====
-- src/duplex/copy-in.ts: the outer loop of stripQuotedAndComments and its fuel.
use prisma_pglite_bridge.Prelude.{
  ℕ, zero, suc, ◌≤◌, ◌==◌, Bool, true, false, Option, none, some, [], ◌∷◌, length, drop, ◌≡◌, refl,
  ap, arith, length-drop,
}
use prisma_pglite_bridge.Duplex.CopyIn.{
  Text, Place, at, skip_line, skip_two, skip_block, skip_quoted, skip_to, match_tag, strip_step,
  strip_loop,
}

skip_line-le : (p : Option ℕ) (cs : Text) → length (skip_line p cs).rest ≤ length cs
unfolding skip_line
skip_line-le p [] = omega arith
skip_line-le p (c ∷ cs) = ground (arith, skip_line-le (some c) cs)

skip_two-le : (p : Option ℕ) (cs : Text) → length (skip_two p cs).rest ≤ length cs
skip_two-le p [] = omega arith
skip_two-le p (c ∷ []) = omega arith
skip_two-le p (c ∷ d ∷ cs) = omega arith

skip_block-le :
    (depth : ℕ) (p : Option ℕ) (cs : Text) → length (skip_block depth p cs).rest ≤ length cs
unfolding skip_block
skip_block-le zero p cs = omega arith
skip_block-le (suc depth) p [] = omega arith
skip_block-le (suc depth) p (c ∷ []) = omega arith
skip_block-le (suc depth) p (c ∷ d ∷ cs) = ground (
  arith,
  skip_block-le (suc (suc depth)) (some d) cs,
  skip_block-le depth (some d) cs,
  skip_block-le (suc depth) (some c) (d ∷ cs),
)

skip_quoted-le :
    (quote : ℕ) (escaping : Bool) (p : Option ℕ) (cs : Text)
    → length (skip_quoted quote escaping p cs).rest ≤ length cs
unfolding skip_quoted
skip_quoted-le quote escaping p [] = omega arith
skip_quoted-le quote escaping p (c ∷ []) = omega arith
skip_quoted-le quote escaping p (c ∷ d ∷ cs) = ground (
  arith,
  skip_quoted-le quote escaping (some d) cs,
  skip_quoted-le quote escaping (some c) (d ∷ cs),
)

skip_to-le :
    (closer : Text) (p : Option ℕ) (cs : Text) → length (skip_to closer p cs).rest ≤ length cs
unfolding skip_to
skip_to-le closer p [] = omega arith
skip_to-le closer p (c ∷ cs) =
    ground (arith, skip_to-le closer (some c) cs, length-drop (length closer) (c ∷ cs))

skip_line-lt :
    (p : Option ℕ) (c : ℕ) (cs : Text)
    → (c == 0x0a) ≡ false
    → length (skip_line p (c ∷ cs)).rest ≤ length cs
unfolding skip_line
skip_line-lt p c cs e = ground (arith, skip_line-le (some c) cs)

skip_two-lt : (p : Option ℕ) (c : ℕ) (cs : Text) → length (skip_two p (c ∷ cs)).rest ≤ length cs
skip_two-lt p c [] = omega arith
skip_two-lt p c (d ∷ cs) = omega arith

-- A tag that is found and then its body.
tagged : Option Text → ℕ → Text → ℕ × Place
tagged none c cs = (c, at (some c) cs)
tagged (some tag) c cs = (0x3f, skip_to (0x24 ∷ tag) (some 0x24) (drop (length tag) cs))

tagged-le : (m : Option Text) (c : ℕ) (cs : Text) → length (tagged m c cs).1.rest ≤ length cs
unfolding tagged
tagged-le none c cs = omega arith
tagged-le (some tag) c cs =
    omega (
      arith,
      skip_to-le (0x24 ∷ tag) (some 0x24) (drop (length tag) cs),
      length-drop (length tag) cs,
    )

-- A round reads a character at least.
strip_step-le : (p : Option ℕ) (c : ℕ) (cs : Text) → length (strip_step p c cs).1.rest ≤ length cs
unfolding strip_step tagged
strip_step-le p c cs =
    let two = skip_two p (c ∷ cs) in
    ground (
      arith,
      skip_line-lt p c cs,
      skip_two-lt p c cs,
      skip_block-le 1 two.before two.rest,
      skip_quoted-le 0x27 true two.before two.rest,
      skip_quoted-le 0x27 false (some c) cs,
      skip_quoted-le 0x22 false (some c) cs,
      tagged-le (match_tag cs) c cs,
    )

pub strip_loop-fuel :
    (f g : ℕ) (p : Option ℕ) (cs : Text)
    → length cs ≤ f
    → length cs ≤ g
    → strip_loop f p cs ≡ strip_loop g p cs
unfolding strip_loop
strip_loop-fuel zero zero p [] h k = refl
strip_loop-fuel zero (suc g) p [] h k = refl
strip_loop-fuel (suc f) zero p [] h k = refl
strip_loop-fuel (suc f) (suc g) p [] h k = refl
strip_loop-fuel zero g p (c ∷ cs) h k = absurd (omega arith)
strip_loop-fuel (suc f) zero p (c ∷ cs) h k = absurd (omega arith)
strip_loop-fuel (suc f) (suc g) p (c ∷ cs) h k =
    let le = strip_step-le p c cs in
    ap (◌∷◌ (strip_step p c cs).0) (
      strip_loop-fuel f g (strip_step p c cs).1.before (strip_step p c cs).1.rest (omega arith)
        (omega arith))

-- What the loop makes of the text from a place on.
abbrev pub strip : Option ℕ → Text → Text
strip p cs = strip_loop (length cs) p cs

pub strip-cons :
    (p : Option ℕ) (c : ℕ) (cs : Text)
    → strip p (c ∷ cs)
      ≡ (strip_step p c cs).0 ∷ strip (strip_step p c cs).1.before (strip_step p c cs).1.rest
unfolding strip_loop
strip-cons p c cs =
    let le = strip_step-le p c cs in
    ap (◌∷◌ (strip_step p c cs).0) (strip_loop-fuel (length cs) _ _ _ le (omega arith))
