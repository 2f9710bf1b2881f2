-- ===== src/Pool/Deallocate/Scan.antt =====
-- What the decoder's scans of spaces, keywords and identifiers find (src/pool/deallocate.ts).
use prisma_pglite_bridge.Prelude.{
  ◌≤◌, ◌≡◌, refl, sym, ap, subst, inl, inr, Bool, true, not, if◌then◌else◌, some, [], ◌∷◌, ◌++◌,
  ◌==◌, append-nil, length, All, Bool-cases, Option-cases, eq→==, ==→eq, arith,
}
use prisma_pglite_bridge.Duplex.CopyIn.{Text, starts}
use prisma_pglite_bridge.Pool.Deallocate.{
  is_ws, is_ident_start, is_ident_cont, skip_ws, upper, match_units, at_boundary, match_keyword,
  is_trailer, tail, is_end, span_ident,
}
use prisma_pglite_bridge.Pool.Deallocate.Grammar.{Spells, IsSpaces, Trailer, spaces, semicolon}

-- The text does not begin with a space.
unfoldable pub is_bare : Text → Bool
is_bare [] = true
is_bare (c ∷ cs) = not (is_ws c)

pub skip_ws_lem : (t : Text) → (lead : Text) × IsSpaces lead × (t ≡ lead ++ skip_ws t)
unfolding skip_ws
skip_ws_lem [] = ([], tt, refl)
skip_ws_lem (c ∷ cs) = elim (Bool-cases (is_ws c)) [
  | inl w ↦
      let (lead, ws, e) = skip_ws_lem cs in (c ∷ lead, (w, ws), rw (w, skip_ws) (ap (◌∷◌ c) e))
  | inr b ↦ ([], tt, rw (b, skip_ws))
]

pub skip_ws-IsBare : (t : Text) → is_bare (skip_ws t) ≡ true
unfolding skip_ws is_bare
skip_ws-IsBare [] = refl
skip_ws-IsBare (c ∷ cs) = ground (arith, skip_ws-IsBare cs)

pub skip_ws_bare : (t : Text) → is_bare t ≡ true → skip_ws t ≡ t
unfolding skip_ws is_bare
skip_ws_bare [] h = refl
skip_ws_bare (c ∷ cs) h = ground arith

pub skip_ws-append : (lead t : Text) → IsSpaces lead → skip_ws (lead ++ t) ≡ skip_ws t
unfolding skip_ws
skip_ws-append [] t h = refl
skip_ws-append (c ∷ lead) t h = ground (arith, skip_ws-append lead t h.1)

pub length-skip_ws : (t : Text) → length (skip_ws t) ≤ length t
unfolding skip_ws
length-skip_ws [] = omega arith
length-skip_ws (c ∷ cs) = ground (arith, length-skip_ws cs)

pub skip_ws_spaces : (t : Text) → IsSpaces t → skip_ws t ≡ []
unfolding skip_ws
skip_ws_spaces [] h = refl
skip_ws_spaces (c ∷ cs) h = ground (arith, skip_ws_spaces cs h.1)

-- A keyword's units are taken exactly where the text spells it.
pub match_units_lem :
    (t keyword : Text) {rest : Text}
    → match_units t keyword ≡ some rest
    → (word : Text) × Spells keyword word × (t ≡ word ++ rest)
unfolding match_units
match_units_lem t [] h = ([], refl, ground arith)
match_units_lem [] (k ∷ ks) h = cc
match_units_lem (c ∷ cs) (k ∷ ks) h = elim (Bool-cases (upper c == k)) [
  | inl y ↦
      let (word, s, e) = match_units_lem cs ks (ground arith) in
      (c ∷ word, (ground (arith, s)), ap (◌∷◌ c) e)
  | inr n ↦ ground arith
]

pub match_units-append :
    (word keyword rest : Text)
    → Spells keyword word
    → match_units (word ++ rest) keyword ≡ some rest
unfolding match_units
match_units-append [] [] [] h = refl
match_units-append [] [] (c ∷ rest) h = refl
match_units-append [] (k ∷ ks) rest h = cc
match_units-append (c ∷ word) [] rest h = cc
match_units-append (c ∷ word) (k ∷ ks) rest h =
    ground (arith, match_units-append word ks rest (cc), eq→== (upper c) k)

pub match_keyword_lem :
    (t keyword : Text) {rest : Text}
    → match_keyword t keyword ≡ some rest
    → (word : Text) × Spells keyword word × (t ≡ word ++ rest) × (at_boundary rest ≡ true)
unfolding match_keyword at_boundary
match_keyword_lem t keyword h = elim (Option-cases (match_units t keyword)) [
  | inl n ↦ ground arith
  | inr (rest', e) ↦ elim (Bool-cases (at_boundary rest')) [
    | inl b ↦
        let (word, s, eq) = match_units_lem t keyword e in
        (word, s, ground (arith, eq), ground arith)
    | inr b ↦ ground arith
  ]
]

pub match_keyword-append :
    (word keyword rest : Text)
    → Spells keyword word
    → at_boundary rest ≡ true
    → match_keyword (word ++ rest) keyword ≡ some rest
unfolding match_keyword
match_keyword-append word keyword rest s b = rw (match_units-append word keyword rest s) (rw b)

-- All spaces, where nothing follows them.
skip_ws_nil : (t : Text) → is_end (skip_ws t) ≡ true → IsSpaces t
unfolding skip_ws
skip_ws_nil [] h = tt
skip_ws_nil (c ∷ cs) h = elim (Bool-cases (is_ws c)) [
  | inl w ↦ (w, skip_ws_nil cs (ground arith))
  | inr b ↦ ground arith
]

Trailer-at :
    (lead i : Text)
    → IsSpaces lead
    → is_end (if starts 0x3b i then skip_ws (tail i) else i) ≡ true
    → Trailer (lead ++ i)
Trailer-at lead [] ws h = rw append-nil (spaces lead ws)
Trailer-at lead (c ∷ cs) ws h = elim (Bool-cases (c == 0x3b)) [
  | inl y ↦ rw (==→eq c 0x3b y) (semicolon lead cs ws (skip_ws_nil cs (ground arith)))
  | inr n ↦ ground arith
]

pub is_trailer_lem : (t : Text) → is_trailer t ≡ true → Trailer t
unfolding is_trailer
is_trailer_lem t h =
    let (lead, ws, e) = skip_ws_lem t in subst Trailer (sym e) (Trailer-at lead (skip_ws t) ws h)

pub Trailer-is_trailer : {t : Text} → Trailer t → is_trailer t ≡ true
unfolding is_trailer is_bare is_ws
Trailer-is_trailer (spaces a h) = rw (skip_ws_spaces a h)
Trailer-is_trailer (semicolon a b ha hb) =
    rw (skip_ws-append a (0x3b ∷ b) ha, skip_ws_bare (0x3b ∷ b) refl, skip_ws_spaces b hb)

-- No trailer carries a word on.
pub Trailer-at_boundary : {t : Text} → Trailer t → at_boundary t ≡ true
unfolding at_boundary is_ident_cont is_ident_start is_ws
Trailer-at_boundary (spaces [] h) = refl
Trailer-at_boundary (spaces (c ∷ cs) h) = let w = h.0 in ground arith
Trailer-at_boundary (semicolon [] b ha hb) = refl
Trailer-at_boundary (semicolon (c ∷ a) b ha hb) = let w = ha.0 in ground arith

-- The units that carry an identifier on.
abbrev pub IsWord : Text → Type 0
IsWord cs = All (λ c. is_ident_cont c ≡ true) cs

pub span_ident_lem :
    (t : Text)
    → IsWord (span_ident t).0
      × (t ≡ (span_ident t).0 ++ (span_ident t).1)
      × (at_boundary (span_ident t).1 ≡ true)
unfolding span_ident at_boundary
span_ident_lem [] = (tt, refl, refl)
span_ident_lem (c ∷ cs) = elim (Bool-cases (is_ident_cont c)) [
  | inl y ↦ let (w, e, b) = span_ident_lem cs in rw y ((y, w), ap (◌∷◌ c) e, b)
  | inr n ↦ rw n (tt, refl, rw n)
]

pub span_ident-append :
    (word rest : Text)
    → IsWord word
    → at_boundary rest ≡ true
    → span_ident (word ++ rest) ≡ (word, rest)
unfolding span_ident at_boundary
span_ident-append [] [] h b = refl
span_ident-append [] (c ∷ rest) h b = ground arith
span_ident-append (c ∷ word) rest h b = rw (h.0, span_ident-append word rest h.1 b)
