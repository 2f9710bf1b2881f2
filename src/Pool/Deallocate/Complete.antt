-- ===== src/Pool/Deallocate/Complete.antt =====
-- The decoder takes every command in the grammar for what it stands for, and so takes exactly those
-- (src/pool/deallocate.ts).
use prisma_pglite_bridge.Prelude.{
  ℕ, ◌≡◌, refl, sym, ap, ◌∙◌, subst, ◌≢◌, ◌⊎◌, ◌↔◌, ◌||◌, inl, inr, true, false, none, some, [],
  ◌∷◌, ◌++◌, append-nil, ◌==◌, length, length-append, Bool-cases, Option-cases, All, arith,
}
use prisma_pglite_bridge.Duplex.CopyIn.{Text, starts, is_upper}
use prisma_pglite_bridge.Pool.Deallocate.{
  StatementCacheInvalidation, all, name, is_ws, is_ident_start, is_ident_cont, upper, skip_ws,
  match_units, end_keyword, at_boundary, target_start_after_keyword, match_keyword, scan_target,
  ending, decode_discard, at_target, behind_prepare, decode_target, decode_deallocate,
  decode_command, decode_at, decode_statement_cache_invalidation, discard_word, all_word,
  deallocate_word, prepare_word,
}
use prisma_pglite_bridge.Pool.Deallocate.Grammar.{
  Spells, IsSpaces, Separates, Trailer, spaces, semicolon, IsRegular, Target, every, regular,
  delimited, delimit, Command, discard, deallocate, deallocate_prepare,
}
use prisma_pglite_bridge.Pool.Deallocate.Scan.{
  is_bare, skip_ws_spaces, skip_ws-append, skip_ws_bare, match_keyword-append, Trailer-is_trailer,
  Trailer-at_boundary, IsWord,
}
use prisma_pglite_bridge.Pool.Deallocate.Targets.{
  target_start-append, scan_target-append, Spells-IsWord, Target-ne-nil,
}
use prisma_pglite_bridge.Pool.Deallocate.Sound.{decode-Command, at_target_lem}

abbrev IsKeyword : Text → Type 0
IsKeyword keyword = All (λ k. is_upper k ≡ true) keyword

all_word_upper : IsKeyword all_word
all_word_upper = (refl, (refl, (refl, tt)))

prepare_word_upper : IsKeyword prepare_word
prepare_word_upper = (refl, (refl, (refl, (refl, (refl, (refl, (refl, tt)))))))

ident_bare : (c : ℕ) → is_ident_cont c ≡ true → is_ws c ≡ false
unfolding is_ident_cont is_ident_start is_ws
ident_bare c h = ground arith

start_cont : (c : ℕ) → is_ident_start c ≡ true → is_ident_cont c ≡ true
unfolding is_ident_cont
start_cont c h = rw h

IsWord-bare : (cs next : Text) → IsWord cs → cs ≢ [] → is_bare (cs ++ next) ≡ true
unfolding is_bare
IsWord-bare [] next w ne = absurd (ne refl)
IsWord-bare (c ∷ cs) next w ne = rw (ident_bare c w.0)

IsRegular-IsWord : (cs : Text) → IsRegular cs → IsWord cs
IsRegular-IsWord [] h = tt
IsRegular-IsWord (c ∷ cs) h = (start_cont c h.0, h.1)

Target-bare :
    (cs next : Text) {r : StatementCacheInvalidation} → Target cs r → is_bare (cs ++ next) ≡ true
unfolding is_bare is_ws
Target-bare cs next (every _ s) =
    IsWord-bare cs next (Spells-IsWord all_word cs all_word_upper s) (Target-ne-nil (every cs s))
Target-bare cs next (regular _ g ne) =
    IsWord-bare cs next (IsRegular-IsWord cs g) (Target-ne-nil (regular cs g ne))
Target-bare _ next (delimited n ne) = refl

Spells-ne-nil : (word : Text) → Spells prepare_word word → word ≢ []
Spells-ne-nil [] s = cc
Spells-ne-nil (c ∷ word) s = λ e. cc

-- Spaces or a quote end a keyword.
Separates-boundary : (sep next : Text) → Separates sep next → at_boundary (sep ++ next) ≡ true
unfolding at_boundary is_ident_cont is_ident_start is_ws
Separates-boundary [] [] (ws, _) = refl
Separates-boundary [] (c ∷ next) (ws, inl ne) = absurd (ne refl)
Separates-boundary [] (c ∷ next) (ws, inr q) = ground arith
Separates-boundary (c ∷ sep) next (ws, _) = let w = ws.0 in ground arith

Separates-append : (sep cs next : Text) → cs ≢ [] → Separates sep cs → Separates sep (cs ++ next)
Separates-append sep [] next ne s = absurd (ne refl)
Separates-append sep (c ∷ cs) next ne (ws, inl n) = (ws, inl n)
Separates-append sep (c ∷ cs) next ne (ws, inr q) = (ws, inr q)

ending-append :
    (cs next : Text) {r : StatementCacheInvalidation}
    → Target cs r
    → Trailer next
    → ending (scan_target (cs ++ next)) ≡ some r
ending-append cs next t tr = rw (scan_target-append cs next t tr, Trailer-is_trailer tr)

at_target-append :
    (sep cs next : Text) {r : StatementCacheInvalidation}
    → Separates sep cs
    → Target cs r
    → Trailer next
    → at_target (target_start_after_keyword (sep ++ (cs ++ next))) ≡ some r
at_target-append sep cs next s t tr =
    rw
      (target_start-append sep (cs ++ next) (Separates-append sep cs next (Target-ne-nil t) s)
        (Target-bare cs next t))
      (ending-append cs next t tr)

-- No trailer begins like a keyword.
Trailer-match :
    (k : ℕ) (keyword : Text) {next : Text}
    → is_upper k ≡ true
    → Trailer next
    → match_units next (k ∷ keyword) ≡ none
unfolding match_units is_ws upper
Trailer-match k keyword u (spaces [] h) = refl
Trailer-match k keyword u (spaces (c ∷ cs) h) = let w = h.0 in ground arith
Trailer-match k keyword u (semicolon [] b ha hb) = ground arith
Trailer-match k keyword u (semicolon (c ∷ a) b ha hb) = let w = ha.0 in ground arith

-- A keyword is found in a word only where it is the whole word.
match_units-word :
    (word keyword next : Text)
    → IsWord word
    → IsKeyword keyword
    → Trailer next
    → (end_keyword (match_units (word ++ next) keyword) ≡ none)
      ⊎ (end_keyword (match_units (word ++ next) keyword) ≡ some next)
unfolding match_units at_boundary
match_units-word [] [] [] w k tr = inr refl
match_units-word [] [] (c ∷ next) w k tr = inr (rw (Trailer-at_boundary tr))
match_units-word [] (k ∷ keyword) next w ks tr = inl (rw (Trailer-match k keyword ks.0 tr))
match_units-word (c ∷ word) [] next w ks tr = inl (rw w.0)
match_units-word (c ∷ word) (k ∷ keyword) next w ks tr = elim (Bool-cases (upper c == k)) [
  | inl y ↦ rw y (match_units-word word keyword next w.1 ks.1 tr)
  | inr n ↦ inl (rw n)
]

-- What follows a trailer's spaces begins no target.
Trailer-rest : {t : Text} → Trailer t → (skip_ws t ≡ []) ⊎ (starts 0x3b (skip_ws t) ≡ true)
unfolding is_bare is_ws
Trailer-rest (spaces a h) = inl (skip_ws_spaces a h)
Trailer-rest (semicolon a b ha hb) =
    inr (rw (skip_ws-append a (0x3b ∷ b) ha, skip_ws_bare (0x3b ∷ b) refl))

word_start : (c : ℕ) → is_ident_cont c ≡ true → (c == 0x3b) ≡ false
unfolding is_ident_cont is_ident_start
word_start c h = ground arith

IsWord-start : (cs next : Text) → IsWord cs → cs ≢ [] → starts 0x3b (cs ++ next) ≡ false
IsWord-start [] next w ne = absurd (ne refl)
IsWord-start (c ∷ cs) next w ne = word_start c w.0

Target-start :
    (cs next : Text) {r : StatementCacheInvalidation}
    → Target cs r
    → starts 0x3b (cs ++ next) ≡ false
Target-start cs next (every _ s) =
    IsWord-start cs next (Spells-IsWord all_word cs all_word_upper s) (Target-ne-nil (every cs s))
Target-start cs next (regular _ g ne) =
    IsWord-start cs next (IsRegular-IsWord cs g) (Target-ne-nil (regular cs g ne))
Target-start _ next (delimited n ne) = refl

append-ne-nil : (cs next : Text) → cs ≢ [] → cs ++ next ≢ []
append-ne-nil [] next ne = λ e. ne refl
append-ne-nil (c ∷ cs) next ne = λ e. cc

Trailer-at_target : (t : Text) → Trailer t → at_target (target_start_after_keyword t) ≡ none
Trailer-at_target t tr = elim (Option-cases (at_target (target_start_after_keyword t))) [
  | inl n ↦ n
  | inr (r, e) ↦
      let (sep, u, (ws, _), (cs, next, target, _, f), g) = at_target_lem t {r = r} e in
      let skipped : skip_ws t ≡ cs ++ next =
        ap skip_ws (g ∙ ap (◌++◌ sep) f)
        ∙ skip_ws-append sep (cs ++ next) ws
        ∙ skip_ws_bare (cs ++ next) (Target-bare cs next target) in
      elim (Trailer-rest tr) [
        | inl z ↦ absurd (append-ne-nil cs next (Target-ne-nil target) (sym skipped ∙ z))
        | inr z ↦
            let no = Target-start cs next target in
            let y : starts 0x3b (cs ++ next) ≡ true = ap (starts 0x3b) (sym skipped) ∙ z in
            ground (arith, no, y)
      ]
]

word_behind_prepare :
    (cs next : Text)
    → IsWord cs
    → Trailer next
    → behind_prepare (match_keyword (cs ++ next) prepare_word) ≡ none
unfolding match_keyword
word_behind_prepare cs next w tr =
    elim (match_units-word cs prepare_word next w prepare_word_upper tr) [
      | inl n ↦ rw n
      | inr s ↦ rw s (Trailer-at_target next tr)
    ]

Target-behind_prepare :
    (cs next : Text) {r : StatementCacheInvalidation}
    → Target cs r
    → Trailer next
    → behind_prepare (match_keyword (cs ++ next) prepare_word) ≡ none
unfolding match_keyword match_units upper
Target-behind_prepare cs next (every _ s) tr =
    word_behind_prepare cs next (Spells-IsWord all_word cs all_word_upper s) tr
Target-behind_prepare cs next (regular _ g ne) tr =
    word_behind_prepare cs next (IsRegular-IsWord cs g) tr
Target-behind_prepare _ next (delimited n ne) tr = refl

-- Behind `DEALLOCATE` and its separator.
decode_target-append :
    (cs next : Text) {r : StatementCacheInvalidation}
    → Target cs r
    → Trailer next
    → decode_target (some (cs ++ next)) ≡ some r
decode_target-append cs next t tr =
    rw (Target-behind_prepare cs next t tr) (ending-append cs next t tr)

decode_target-prepare :
    (prepare sep cs next : Text) {r : StatementCacheInvalidation}
    → Spells prepare_word prepare
    → Separates sep cs
    → Target cs r
    → Trailer next
    → decode_target (some (prepare ++ (sep ++ (cs ++ next)))) ≡ some r
decode_target-prepare prepare sep cs next p s t tr =
    rw
      (match_keyword-append prepare prepare_word (sep ++ (cs ++ next)) p
        (Separates-boundary sep (cs ++ next) (Separates-append sep cs next (Target-ne-nil t) s)))
      (rw (at_target-append sep cs next s t tr))

is_d : (c : ℕ) → upper c ≡ 0x44 → (c == 0x44 || c == 0x64) ≡ true
unfolding upper
is_d c h = ground arith

-- What begins with a D in either case is a command's first word.
decode_at_d :
    (keyword word rest : Text)
    → Spells (0x44 ∷ keyword) word
    → decode_at (word ++ rest)
      ≡ decode_command (word ++ rest) (match_keyword (word ++ rest) discard_word)
decode_at_d keyword [] rest s = cc
decode_at_d keyword (c ∷ word) rest s = let d : upper c ≡ 0x44 = cc in rw (is_d c d)

d_bare : (c : ℕ) → upper c ≡ 0x44 → is_ws c ≡ false
unfolding upper is_ws
d_bare c h = ground arith

decode_d :
    (lead keyword word rest : Text)
    → IsSpaces lead
    → Spells (0x44 ∷ keyword) word
    → decode_statement_cache_invalidation (lead ++ (word ++ rest))
      ≡ decode_command (word ++ rest) (match_keyword (word ++ rest) discard_word)
unfolding decode_statement_cache_invalidation is_bare
decode_d lead keyword [] rest l s = cc
decode_d lead keyword (c ∷ word) rest l s =
    let d : upper c ≡ 0x44 = cc in
    let bare : is_bare (c ∷ word ++ rest) ≡ true = rw (d_bare c d) in
    ap decode_at (skip_ws-append lead (c ∷ word ++ rest) l ∙ skip_ws_bare (c ∷ word ++ rest) bare)
    ∙ decode_at_d keyword (c ∷ word) rest s

-- `DEALLOCATE` is not `DISCARD`.
deallocate_discard :
    (word rest : Text)
    → Spells deallocate_word word
    → match_keyword (word ++ rest) discard_word ≡ none
unfolding match_keyword match_units
deallocate_discard [] rest s = cc
deallocate_discard (a ∷ []) rest s = cc
deallocate_discard (a ∷ b ∷ word) rest s = let e : upper b ≡ 0x45 = cc in ground arith

decode-deallocate :
    (lead word t : Text)
    → IsSpaces lead
    → Spells deallocate_word word
    → at_boundary t ≡ true
    → decode_statement_cache_invalidation (lead ++ (word ++ t)) ≡ decode_deallocate (some t)
decode-deallocate lead word t l s b =
    decode_d lead _ word t l s
    ∙ (rw (deallocate_discard word t s, match_keyword-append word deallocate_word t s b))

gap_boundary : (gap next : Text) → IsSpaces gap → gap ≢ [] → at_boundary (gap ++ next) ≡ true
gap_boundary gap next g ne = Separates-boundary gap next (g, inl ne)

gap_target :
    (gap next : Text)
    → IsSpaces gap
    → gap ≢ []
    → is_bare next ≡ true
    → target_start_after_keyword (gap ++ next) ≡ some next
gap_target gap next g ne b = target_start-append gap next (g, inl ne) b

length-gap : (gap next : Text) → gap ≢ [] → (length next == length (gap ++ next)) ≡ false
length-gap [] next ne = absurd (ne refl)
length-gap (c ∷ gap) next ne = let e = length-append (c ∷ gap) next in ground (arith, e)

decode_discard-append :
    (gap target trailer : Text)
    → IsSpaces gap
    → gap ≢ []
    → Spells all_word target
    → Trailer trailer
    → decode_discard (gap ++ (target ++ trailer)) ≡ some all
unfolding decode_discard
decode_discard-append gap target trailer g ne s tr =
    let bare = Target-bare target trailer (every target s) in
    rw (skip_ws-append gap (target ++ trailer) g, skip_ws_bare (target ++ trailer) bare)
      (rw
        (
          length-gap gap (target ++ trailer) ne,
          match_keyword-append target all_word trailer s (Trailer-at_boundary tr),
        )
        (rw (Trailer-is_trailer tr)))

pub Command-decode :
    {t : Text} {r : StatementCacheInvalidation}
    → Command t r
    → decode_statement_cache_invalidation t ≡ some r
Command-decode (discard lead word gap target trailer l s g ne a tr) =
    decode_d lead _ word (gap ++ (target ++ trailer)) l s
    ∙ (rw
        (match_keyword-append word discard_word (gap ++ (target ++ trailer)) s
          (gap_boundary gap (target ++ trailer) g ne))
        (decode_discard-append gap target trailer g ne a tr))
Command-decode (deallocate lead word sep target trailer l s b t tr) =
    let b' = Separates-append sep target trailer (Target-ne-nil t) b in
    decode-deallocate lead word (sep ++ (target ++ trailer)) l s
      (Separates-boundary sep (target ++ trailer) b')
    ∙ (rw (target_start-append sep (target ++ trailer) b' (Target-bare target trailer t))
        (decode_target-append target trailer t tr))
Command-decode (deallocate_prepare lead word sep prepare sep' target trailer l s w ne p b t tr) =
    let rest = prepare ++ (sep' ++ (target ++ trailer)) in
    decode-deallocate lead word (sep ++ rest) l s (gap_boundary sep rest w ne)
    ∙ (rw
        (gap_target sep rest w ne (
          IsWord-bare prepare _ (Spells-IsWord prepare_word prepare prepare_word_upper p)
            (Spells-ne-nil prepare p)))
        (decode_target-prepare prepare sep' target trailer p b t tr))

-- The decoder takes exactly the commands of the grammar in its comment, each for the statements
-- that it drops: it gives an invalidation just where the text is a command with that meaning, and
-- so nothing for any other text.
pub decode-iff-Command :
    (t : Text) (r : StatementCacheInvalidation)
    → (decode_statement_cache_invalidation t ≡ some r) ↔ Command t r
decode-iff-Command t r = (decode-Command t r, Command-decode)

-- The command for an invalidation, with the name quoted.
abbrev pub command_for : StatementCacheInvalidation → Text
command_for all = deallocate_word ++ (0x20 ∷ []) ++ all_word
command_for (name n) = deallocate_word ++ (0x20 ∷ []) ++ delimit n

-- What a command is written for is what it is decoded to: `DEALLOCATE ALL`, and `DEALLOCATE` with
-- any name but the empty one between quotes, its own quotes doubled.
pub decode-command_for :
    (r : StatementCacheInvalidation)
    → r ≢ name []
    → decode_statement_cache_invalidation (command_for r) ≡ some r
unfolding is_ws upper
decode-command_for all ne = Command-decode (
    deallocate [] deallocate_word (0x20 ∷ []) all_word [] tt refl ((refl, tt), inl (λ e. cc))
      (every all_word refl) (spaces [] tt))
decode-command_for (name n) ne =
    subst (λ t. decode_statement_cache_invalidation (deallocate_word ++ (0x20 ∷ t)) ≡ some (name n))
      (append-nil (delimit n))
      (Command-decode (
        deallocate [] deallocate_word (0x20 ∷ []) (delimit n) [] tt refl ((refl, tt), inl (λ e. cc))
          (delimited n (λ e. ne (ap name e))) (spaces [] tt)))
