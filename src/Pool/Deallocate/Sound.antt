-- ===== src/Pool/Deallocate/Sound.antt =====
-- Whatever the decoder takes for a command is one in the grammar (src/pool/deallocate.ts).
use prisma_pglite_bridge.Prelude.{
  ◌≡◌, sym, ap, ◌∙◌, subst, ◌≢◌, ◌⊎◌, inl, inr, false, Option, none, some, [], ◌∷◌, ◌++◌, ◌==◌,
  length, Bool-cases, Option-cases, ==→ne, arith,
}
use prisma_pglite_bridge.Duplex.CopyIn.{Text}
use prisma_pglite_bridge.Pool.Deallocate.{
  StatementCacheInvalidation, all, skip_ws, target_start_after_keyword, match_keyword, is_trailer,
  scan_target, ending, trailing_all, decode_discard, at_target, behind_prepare, or_else, upper,
  decode_target, decode_deallocate, decode_command, decode_at, decode_statement_cache_invalidation,
  discard_word, all_word, deallocate_word, prepare_word,
}
use prisma_pglite_bridge.Pool.Deallocate.Grammar.{
  Spells, IsSpaces, Separates, Trailer, Target, Command, discard, deallocate, deallocate_prepare,
}
use prisma_pglite_bridge.Pool.Deallocate.Scan.{skip_ws_lem, match_keyword_lem, is_trailer_lem}
use prisma_pglite_bridge.Pool.Deallocate.Targets.{
  target_start_lem, scan_target_lem, Separates-Target,
}

-- A target and its trailer, from here on.
abbrev pub Ends : Text → StatementCacheInvalidation → Type 0
Ends t r = (cs : Text) × (tr : Text) × Target cs r × Trailer tr × (t ≡ cs ++ tr)

ending_lem :
    (t : Text) {r : StatementCacheInvalidation} → ending (scan_target t) ≡ some r → Ends t r
ending_lem t {r} h = elim (Option-cases (scan_target t)) [
  | inl n ↦ ground arith
  | inr ((q, next), e) ↦ elim (Bool-cases (is_trailer next)) [
    | inl y ↦
        let (cs, target, f) = scan_target_lem t {r = q} {next = next} e in
        (cs, next, subst (Target cs) (ground arith) target, is_trailer_lem next y, f)
    | inr m ↦ ground arith
  ]
]

pub at_target_lem :
    (t : Text) {r : StatementCacheInvalidation}
    → at_target (target_start_after_keyword t) ≡ some r
    → (sep : Text) × (u : Text) × Separates sep u × Ends u r × (t ≡ sep ++ u)
at_target_lem t {r} h = elim (Option-cases (target_start_after_keyword t)) [
  | inl n ↦ ground arith
  | inr (u, e) ↦
      let (sep, s, f) = target_start_lem t {rest = u} e in
      let g : ending (scan_target u) ≡ some r = ground arith in (sep, u, s, ending_lem u g, f)
]

behind_prepare_lem :
    (t : Text) {r : StatementCacheInvalidation}
    → behind_prepare (match_keyword t prepare_word) ≡ some r
    → (word : Text) × (rest : Text) × Spells prepare_word word
      × (at_target (target_start_after_keyword rest) ≡ some r)
      × (t ≡ word ++ rest)
behind_prepare_lem t {r} h = elim (Option-cases (match_keyword t prepare_word)) [
  | inl n ↦ ground arith
  | inr (rest, e) ↦
      let (word, s, f, _) = match_keyword_lem t prepare_word {rest = rest} e in
      (word, rest, s, ground arith, f)
]

or_else_lem :
    (o other : Option StatementCacheInvalidation) {r : StatementCacheInvalidation}
    → or_else o other ≡ some r
    → (o ≡ some r) ⊎ (other ≡ some r)
or_else_lem none other h = inr h
or_else_lem (some x) other h = inl h

-- Where a word was left behind, the spaces are not empty.
gap-ne-nil :
    (t gap : Text) → t ≡ gap ++ skip_ws t → (length (skip_ws t) == length t) ≡ false → gap ≢ []
gap-ne-nil t [] e ne = λ _. absurd (==→ne (length (skip_ws t)) (length t) ne (ap length (sym e)))
gap-ne-nil t (c ∷ gap) e ne = λ f. cc

trailing_all_lem :
    (t : Text) {r : StatementCacheInvalidation}
    → trailing_all (match_keyword t all_word) ≡ some r
    → (word : Text) × (rest : Text) × Spells all_word word
      × Trailer rest
      × (t ≡ word ++ rest)
      × (all ≡ r)
trailing_all_lem t {r} h = elim (Option-cases (match_keyword t all_word)) [
  | inl n ↦ ground arith
  | inr (rest, e) ↦ elim (Bool-cases (is_trailer rest)) [
    | inl y ↦
        let (word, s, f, _) = match_keyword_lem t all_word {rest = rest} e in
        (word, rest, s, is_trailer_lem rest y, f, ground arith)
    | inr m ↦ ground arith
  ]
]

Command-discard :
    (lead word t : Text) {r : StatementCacheInvalidation}
    → IsSpaces lead
    → Spells discard_word word
    → decode_discard t ≡ some r
    → Command (lead ++ (word ++ t)) r
unfolding decode_discard
Command-discard lead word t {r} l s h = elim (Bool-cases (length (skip_ws t) == length t)) [
  | inl y ↦ ground arith
  | inr ne ↦
      let (gap, g, e) = skip_ws_lem t in
      let (target, rest, a, trailer, f, same) =
        trailing_all_lem (skip_ws t) {r = r} (ground arith) in
      subst (λ u. Command (lead ++ (word ++ u)) r) (sym (e ∙ ap (◌++◌ gap) f))
        (subst (Command _) same
          (discard lead word gap target rest l s g (gap-ne-nil t gap e ne) a trailer))
]

-- `PREPARE` opens no quote.
Separates-prepare :
    (sep word rest : Text) → Spells prepare_word word → Separates sep (word ++ rest) → sep ≢ []
unfolding upper
Separates-prepare sep word rest s (ws, inl ne) = ne
Separates-prepare sep [] rest s (ws, inr q) = cc
Separates-prepare sep (c ∷ word) rest s (ws, inr q) =
    let first : upper c ≡ 0x50 = cc in ground arith

Command-prepare :
    (lead word sep t : Text) {r : StatementCacheInvalidation}
    → IsSpaces lead
    → Spells deallocate_word word
    → Separates sep t
    → behind_prepare (match_keyword t prepare_word) ≡ some r
    → Command (lead ++ (word ++ (sep ++ t))) r
Command-prepare lead word sep t {r} l s b h =
    let (prepare, rest, p, g, e) = behind_prepare_lem t {r = r} h in
    let (sep', u, b', (cs, tr, target, trailer, f), e') = at_target_lem rest {r = r} g in
    let ne = Separates-prepare sep prepare rest p (subst (Separates sep) e b) in
    let whole : t ≡ prepare ++ (sep' ++ (cs ++ tr)) =
      e ∙ ap (◌++◌ prepare) (e' ∙ ap (◌++◌ sep') f) in
    subst (λ v. Command (lead ++ (word ++ (sep ++ v))) r) (sym whole)
      (deallocate_prepare lead word sep prepare sep' cs tr l s b.0 ne p
        (Separates-Target sep' cs tr target (subst (Separates sep') f b')) target trailer)

Command-target :
    (lead word sep t : Text) {r : StatementCacheInvalidation}
    → IsSpaces lead
    → Spells deallocate_word word
    → Separates sep t
    → decode_target (some t) ≡ some r
    → Command (lead ++ (word ++ (sep ++ t))) r
Command-target lead word sep t {r} l s b h =
    elim (or_else_lem (behind_prepare (match_keyword t prepare_word)) _ h) [
      | inl p ↦ Command-prepare lead word sep t l s b p
      | inr d ↦
          let (cs, tr, target, trailer, f) = ending_lem t {r = r} d in
          subst (λ v. Command (lead ++ (word ++ (sep ++ v))) r) (sym f)
            (deallocate lead word sep cs tr l s
              (Separates-Target sep cs tr target (subst (Separates sep) f b)) target trailer)
    ]

Command-deallocate :
    (lead word t : Text) {r : StatementCacheInvalidation}
    → IsSpaces lead
    → Spells deallocate_word word
    → decode_deallocate (some t) ≡ some r
    → Command (lead ++ (word ++ t)) r
Command-deallocate lead word t {r} l s h = elim (Option-cases (target_start_after_keyword t)) [
  | inl n ↦ ground arith
  | inr (u, e) ↦
      let (sep, b, f) = target_start_lem t {rest = u} e in
      subst (λ v. Command (lead ++ (word ++ v)) r) (sym f)
        (Command-target lead word sep u l s b (sym (ap decode_target e) ∙ h))
]

Command-at :
    (lead t : Text) {r : StatementCacheInvalidation}
    → IsSpaces lead
    → decode_command t (match_keyword t discard_word) ≡ some r
    → Command (lead ++ t) r
Command-at lead t {r} l h = elim (Option-cases (match_keyword t discard_word)) [
  | inr (rest, e) ↦
      let (word, s, f, _) = match_keyword_lem t discard_word {rest = rest} e in
      subst (λ v. Command (lead ++ v) r) (sym f) (Command-discard lead word rest l s (ground arith))
  | inl n ↦ elim (Option-cases (match_keyword t deallocate_word)) [
    | inl m ↦ ground arith
    | inr (rest, e) ↦
        let (word, s, f, _) = match_keyword_lem t deallocate_word {rest = rest} e in
        subst (λ v. Command (lead ++ v) r) (sym f)
          (Command-deallocate lead word rest l s (ground arith))
  ]
]

decode_at_lem :
    (t : Text) {r : StatementCacheInvalidation}
    → decode_at t ≡ some r
    → decode_command t (match_keyword t discard_word) ≡ some r
decode_at_lem [] h = cc
decode_at_lem (c ∷ cs) h = ground arith

pub decode-Command :
    (t : Text) (r : StatementCacheInvalidation)
    → decode_statement_cache_invalidation t ≡ some r
    → Command t r
unfolding decode_statement_cache_invalidation
decode-Command t r h =
    let (lead, l, e) = skip_ws_lem t in
    subst (λ v. Command v r) (sym e) (Command-at lead (skip_ws t) l (decode_at_lem (skip_ws t) h))
