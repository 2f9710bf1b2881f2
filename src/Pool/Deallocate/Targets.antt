-- ===== src/Pool/Deallocate/Targets.antt =====
-- What the decoder's scans of separators and targets find (src/pool/deallocate.ts).
use prisma_pglite_bridge.Prelude.{
  ℕ, ◌+◌, ◌-◌, ◌<◌, ◌≡◌, refl, sym, ap, ◌∙◌, subst, ◌≢◌, inl, inr, true, false, if◌then◌else◌, some,
  [], ◌∷◌, ◌++◌, ◌==◌, append_assoc, append-nil, length, length-append, All, map, ltb, Bool-cases,
  Option-cases, ==→eq, lt→ltb, le→ltb, arith,
}
use prisma_pglite_bridge.Duplex.CopyIn.{Text, same, starts, is_upper, is_lower}
use prisma_pglite_bridge.Utils.Maps.{same→eq}
use prisma_pglite_bridge.Pool.Deallocate.{
  StatementCacheInvalidation, all, name, is_ws, is_ident_start, is_ident_cont, skip_ws,
  target_start_after_keyword, upper, at_boundary, fold_case, span_ident, scan_regular_identifier,
  scan_quoted, scan_delimited_identifier, scan_target, close_name, all_name, all_word, named,
  named_or_all,
}
use prisma_pglite_bridge.Pool.Deallocate.Grammar.{
  Spells, IsSpaces, Separates, Trailer, spaces, semicolon, IsRegular, Target, every, regular,
  delimited, escape_quotes, delimit,
}
use prisma_pglite_bridge.Pool.Deallocate.Scan.{
  is_bare, skip_ws_lem, skip_ws-append, skip_ws_bare, IsWord, span_ident_lem, span_ident-append,
  Trailer-at_boundary,
}

spaces_before :
    (t lead : Text)
    → IsSpaces lead
    → t ≡ lead ++ skip_ws t
    → length (skip_ws t) < length t
    → lead ≢ []
spaces_before t [] ws e lt = λ _. absurd (omega (arith, ap length e))
spaces_before t (c ∷ lead) ws e lt = λ f. cc

pub target_start_lem :
    (t : Text) {rest : Text}
    → target_start_after_keyword t ≡ some rest
    → (sep : Text) × Separates sep rest × (t ≡ sep ++ rest)
unfolding target_start_after_keyword
target_start_lem t {rest} h = elim (Bool-cases (ltb (length (skip_ws t)) (length t))) [
  | inl lt ↦
      let (lead, ws, e) = skip_ws_lem t in
      let r : skip_ws t ≡ rest = ground arith in
      (lead, (ws, inl (spaces_before t lead ws e (ground arith))), e ∙ ap (◌++◌ lead) r)
  | inr ge ↦ ([], (tt, inr (ground arith)), ground arith)
]

pub target_start-append :
    (sep next : Text)
    → Separates sep next
    → is_bare next ≡ true
    → target_start_after_keyword (sep ++ next) ≡ some next
unfolding target_start_after_keyword
target_start-append [] next (ws, inl ne) b = absurd (ne refl)
target_start-append [] next (ws, inr q) b =
    rw (skip_ws_bare next b, le→ltb (length next) (length next) (omega arith)) (rw q)
target_start-append (c ∷ sep) next (ws, _) b =
    let e = skip_ws-append (c ∷ sep) next ws ∙ skip_ws_bare next b in
    rw (
      e,
      lt→ltb (length next) (length (c ∷ sep ++ next)) (omega (arith, length-append (c ∷ sep) next)),
    )

scan_quoted_plain :
    (acc : Text) (c : ℕ) (t : Text)
    → (c == 0x22) ≡ false
    → scan_quoted acc (c ∷ t) ≡ scan_quoted (acc ++ c ∷ []) t
unfolding scan_quoted
scan_quoted_plain acc c [] h = ground arith
scan_quoted_plain acc c (d ∷ t) h = rw (h, scan_quoted)

close_name_lem :
    (acc next : Text) {n next' : Text}
    → close_name acc next ≡ some (n, next')
    → (acc ≡ n) × (next ≡ next') × (n ≢ [])
close_name_lem [] next h = cc
close_name_lem (c ∷ cs) next h = (ground arith, ground arith, λ e. ground arith)

close_name-some : (n next : Text) → n ≢ [] → close_name n next ≡ some (n, next)
close_name-some [] next h = absurd (h refl)
close_name-some (c ∷ cs) next h = refl

-- The scan reads the doubled quotes back.
scan_quoted-escape :
    (acc n next : Text)
    → starts 0x22 next ≡ false
    → scan_quoted acc (escape_quotes n ++ 0x22 ∷ next) ≡ close_name (acc ++ n) next
unfolding scan_quoted
scan_quoted-escape acc [] [] h = rw append-nil
scan_quoted-escape acc [] (d ∷ next) h = rw append-nil (ground arith)
scan_quoted-escape acc (c ∷ n) next h = elim (Bool-cases (c == 0x22)) [
  | inl y ↦
      let e = ==→eq c 0x22 y in
      rw (y, escape_quotes)
        (scan_quoted-escape (acc ++ 0x22 ∷ []) n next h ∙ (rw (e, append_assoc)))
  | inr m ↦
      rw (m, escape_quotes)
        (scan_quoted_plain acc c _ m
          ∙ scan_quoted-escape (acc ++ c ∷ []) n next h
          ∙ (rw append_assoc))
]

abbrev Scanned : Text → Text → Text → Text → Type 0
Scanned acc t n next = (m : Text) × (n ≡ acc ++ m) × (t ≡ escape_quotes m ++ 0x22 ∷ next) × (n ≢ [])

Scanned-step :
    (acc t n next : Text) (c : ℕ)
    → (c == 0x22) ≡ false
    → Scanned (acc ++ c ∷ []) t n next
    → Scanned acc (c ∷ t) n next
Scanned-step acc t n next c h (m, e, f, ne) =
    (c ∷ m, e ∙ append_assoc acc (c ∷ []) m, rw (h, escape_quotes) (ap (◌∷◌ c) f), ne)

scan_quoted_lem :
    (acc t : Text) {n next : Text} → scan_quoted acc t ≡ some (n, next) → Scanned acc t n next
unfolding scan_quoted
scan_quoted_lem acc [] h = cc
scan_quoted_lem acc (c ∷ []) {n} {next} h = elim (Bool-cases (c == 0x22)) [
  | inl y ↦
      let (e, f, ne) = close_name_lem acc [] {n = n} {next' = next} (ground arith) in
      ([], sym e ∙ sym (append-nil acc), rw (==→eq c 0x22 y, ← f), ne)
  | inr m ↦ ground arith
]
scan_quoted_lem acc (c ∷ d ∷ t) {n} {next} h = elim (Bool-cases (c == 0x22)) [
  | inl y ↦ elim (Bool-cases (d == 0x22)) [
    | inl z ↦
        let (m, e, f, ne) =
          scan_quoted_lem (acc ++ 0x22 ∷ []) t {n = n} {next = next} (ground arith) in
        (
          0x22 ∷ m,
          e ∙ append_assoc acc (0x22 ∷ []) m,
          rw (==→eq c 0x22 y, ==→eq d 0x22 z) (ap (λ u. 0x22 ∷ 0x22 ∷ u) f),
          ne,
        )
    | inr m ↦
        let (e, f, ne) = close_name_lem acc (d ∷ t) {n = n} {next' = next} (ground arith) in
        ([], sym e ∙ sym (append-nil acc), rw (==→eq c 0x22 y) (ap (◌∷◌ 0x22) f), ne)
  ]
  | inr m ↦
      Scanned-step acc (d ∷ t) n next c m (scan_quoted_lem (acc ++ c ∷ []) (d ∷ t) (ground arith))
]

-- `ALL` in any case is what folds to `all`.
fold→upper : (c k : ℕ) → is_lower k ≡ true → fold_case c ≡ k → upper c ≡ k - 0x20
unfolding fold_case upper
fold→upper c k l h = ground arith

upper→fold :
    (c k : ℕ)
    → is_upper k ≡ true
    → upper c ≡ k
    → (fold_case c ≡ k + 0x20) × (is_ident_start c ≡ true) × (is_ident_cont c ≡ true)
unfolding fold_case upper is_ident_cont is_ident_start
upper→fold c k u h = (ground arith, ground arith, ground arith)

all_name-Spells : (cs : Text) → map fold_case cs ≡ all_name → Spells all_word cs
all_name-Spells [] h = cc
all_name-Spells (a ∷ []) h = cc
all_name-Spells (a ∷ b ∷ []) h = cc
all_name-Spells (a ∷ b ∷ c ∷ d ∷ cs) h = cc
all_name-Spells (a ∷ b ∷ c ∷ []) h =
    let x = fold→upper a 0x61 refl (cc) in
    let y = fold→upper b 0x6c refl (cc) in let z = fold→upper c 0x6c refl (cc) in rw (x, y, z)

-- A keyword is an identifier, spelled in any case.
pub Spells-IsWord :
    (keyword cs : Text) → All (λ k. is_upper k ≡ true) keyword → Spells keyword cs → IsWord cs
Spells-IsWord [] [] u h = tt
Spells-IsWord [] (c ∷ cs) u h = cc
Spells-IsWord (k ∷ keyword) [] u h = cc
Spells-IsWord (k ∷ keyword) (c ∷ cs) u h =
    ((upper→fold c k u.0 (cc)).2, Spells-IsWord keyword cs u.1 (cc))

Spells-all_name : (cs : Text) → Spells all_word cs → (map fold_case cs ≡ all_name) × IsRegular cs
Spells-all_name [] h = cc
Spells-all_name (a ∷ []) h = cc
Spells-all_name (a ∷ b ∷ []) h = cc
Spells-all_name (a ∷ b ∷ c ∷ d ∷ cs) h = cc
Spells-all_name (a ∷ b ∷ c ∷ []) h =
    let (x, s, _) = upper→fold a 0x41 refl (cc) in
    let (y, _, v) = upper→fold b 0x4c refl (cc) in
    let (z, _, w) = upper→fold c 0x4c refl (cc) in (rw (x, y, z), (s, (v, (w, tt))))

scan_regular_lem :
    (t : Text) {n next : Text}
    → scan_regular_identifier t ≡ some (n, next)
    → (cs : Text) × IsRegular cs × (n ≡ map fold_case cs) × (t ≡ cs ++ next)
unfolding scan_regular_identifier
scan_regular_lem [] h = cc
scan_regular_lem (c ∷ cs) h = elim (Bool-cases (is_ident_start c)) [
  | inl y ↦
      let (w, e, _) = span_ident_lem cs in
      (c ∷ (span_ident cs).0, (y, w), ground arith, ground (arith, e))
  | inr m ↦ ground arith
]

scan_regular-append :
    (cs next : Text)
    → IsRegular cs
    → at_boundary next ≡ true
    → scan_regular_identifier (cs ++ next) ≡ some (map fold_case cs, next)
unfolding scan_regular_identifier
scan_regular-append [] next h b = elim h [ ]
scan_regular-append (c ∷ cs) next h b = rw (span_ident-append cs next h.1 b, h.0)

regular-Target :
    (cs : Text)
    → IsRegular cs
    → Target cs (if same (map fold_case cs) all_name then all else name (map fold_case cs))
regular-Target cs h = elim (Bool-cases (same (map fold_case cs) all_name)) [
  | inl y ↦ rw y (every cs (all_name-Spells cs (same→eq _ all_name y)))
  | inr m ↦ rw m (
      regular cs h
        λ e. let y : same (map fold_case cs) all_name ≡ true = rw e in ground (arith, m, y))
]

Delimits : Text → StatementCacheInvalidation → Text → Type 0
Delimits t r next = (cs : Text) × Target cs r × (t ≡ cs ++ next)

named_lem :
    (t : Text) {r : StatementCacheInvalidation} {next : Text}
    → starts 0x22 t ≡ true
    → named (scan_delimited_identifier t) ≡ some (r, next)
    → Delimits t r next
unfolding scan_delimited_identifier Delimits
named_lem [] q h = cc
named_lem (c ∷ cs) {r} {next} q h = elim (Option-cases (scan_quoted [] cs)) [
  | inl n ↦ ground arith
  | inr ((n, next'), e) ↦
      let (m, x, y, ne) = scan_quoted_lem [] cs {n = n} {next = next'} e in
      let agree : (name n ≡ r) × (next' ≡ next) = (ground arith, ground arith) in
      (
        delimit m,
        subst (Target (delimit m)) (ap name (sym x) ∙ agree.0)
            (delimited m (subst (λ u. u ≢ []) x ne)),
        rw (==→eq c 0x22 q)
            (ap (◌∷◌ 0x22) (y ∙ rw agree.1 (sym (append_assoc (escape_quotes m) _ _)))),
      )
]

named_or_all_lem :
    (t : Text) {r : StatementCacheInvalidation} {next : Text}
    → named_or_all (scan_regular_identifier t) ≡ some (r, next)
    → Delimits t r next
unfolding Delimits
named_or_all_lem t {r} {next} h = elim (Option-cases (scan_regular_identifier t)) [
  | inl n ↦ ground arith
  | inr ((n, next'), e) ↦
      let (cs, g, x, y) = scan_regular_lem t {n = n} {next = next'} e in
      let agree : ((if same n all_name then all else name n) ≡ r) × (next' ≡ next) =
        (ground arith, ground arith) in
      (
        cs,
        subst (Target cs) (ap (λ u. if same u all_name then all else name u) (sym x) ∙ agree.0)
            (regular-Target cs g),
        y ∙ ap (◌++◌ cs) agree.1,
      )
]

pub scan_target_lem :
    (t : Text) {r : StatementCacheInvalidation} {next : Text}
    → scan_target t ≡ some (r, next)
    → (cs : Text) × Target cs r × (t ≡ cs ++ next)
unfolding scan_target Delimits
scan_target_lem t {r} {next} h = elim (Bool-cases (starts 0x22 t)) [
  | inl q ↦ named_lem t q (ground arith)
  | inr n ↦ named_or_all_lem t (ground arith)
]

not_quote : (c : ℕ) → is_ident_start c ≡ true → (c == 0x22) ≡ false
unfolding is_ident_start
not_quote c h = ground arith

IsRegular-start : (cs next : Text) → IsRegular cs → starts 0x22 (cs ++ next) ≡ false
IsRegular-start [] next h = elim h [ ]
IsRegular-start (c ∷ cs) next h = not_quote c h.0

regular_scan :
    (cs next : Text)
    → IsRegular cs
    → at_boundary next ≡ true
    → scan_target (cs ++ next)
      ≡ some ((if same (map fold_case cs) all_name then all else name (map fold_case cs)), next)
unfolding scan_target
regular_scan cs next h b = rw (IsRegular-start cs next h, scan_regular-append cs next h b)

Trailer-start : {t : Text} → Trailer t → starts 0x22 t ≡ false
unfolding is_ws
Trailer-start (spaces [] h) = refl
Trailer-start (spaces (c ∷ cs) h) = let w = h.0 in ground arith
Trailer-start (semicolon [] b ha hb) = refl
Trailer-start (semicolon (c ∷ a) b ha hb) = let w = ha.0 in ground arith

named_some : (n next : Text) → n ≢ [] → named (close_name n next) ≡ some (name n, next)
named_some n next ne = rw (close_name-some n next ne)

delimited_scan :
    (n next : Text) → n ≢ [] → Trailer next → scan_target (delimit n ++ next) ≡ some (name n, next)
unfolding scan_target scan_delimited_identifier
delimited_scan n next ne t =
    rw (append_assoc (escape_quotes n) (0x22 ∷ []) next)
      (ap named (scan_quoted-escape [] n next (Trailer-start t)) ∙ named_some n next ne)

-- A target before a trailer is found, with what it stands for.
pub scan_target-append :
    (cs next : Text) {r : StatementCacheInvalidation}
    → Target cs r
    → Trailer next
    → scan_target (cs ++ next) ≡ some (r, next)
scan_target-append cs next (every _ s) t =
    let (e, g) = Spells-all_name cs s in regular_scan cs next g (Trailer-at_boundary t) ∙ (rw e)
scan_target-append cs next (regular _ g ne) t =
    let m : same (map fold_case cs) all_name ≡ false =
      elim (Bool-cases (same (map fold_case cs) all_name)) [
        | inl y ↦ absurd (ne (same→eq _ all_name y))
        | inr n ↦ n
      ] in
    regular_scan cs next g (Trailer-at_boundary t) ∙ (rw m)
scan_target-append _ next (delimited n ne) t = delimited_scan n next ne t

pub Target-ne-nil : {cs : Text} {r : StatementCacheInvalidation} → Target cs r → cs ≢ []
Target-ne-nil (every [] s) = cc
Target-ne-nil (every (c ∷ cs) s) = λ e. cc
Target-ne-nil (regular [] g ne) = elim g [ ]
Target-ne-nil (regular (c ∷ cs) g ne) = λ e. cc
Target-ne-nil (delimited n ne) = λ e. cc

-- A separator before a target and its trailer is one before the target.
pub Separates-Target :
    (sep cs next : Text) {r : StatementCacheInvalidation}
    → Target cs r
    → Separates sep (cs ++ next)
    → Separates sep cs
Separates-Target sep cs next t (ws, inl ne) = (ws, inl ne)
Separates-Target sep (c ∷ cs) next t (ws, inr q) = (ws, inr q)
Separates-Target sep [] next t (ws, inr q) = absurd (Target-ne-nil t refl)
