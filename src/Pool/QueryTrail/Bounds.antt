-- ===== src/Pool/QueryTrail/Bounds.antt =====
-- The ring, its numbers and its caps over any use of the recorder (src/pool/query-trail.ts).
use prisma_pglite_bridge.Prelude.{
  ℕ, zero, suc, ◌+◌, ◌-◌, ◌≤◌, ◌<◌, ◌≡◌, refl, sym, ap, ◌∙◌, inl, inr, true, ltb, leb,
  if◌then◌else◌, Option, none, some, List, [], ◌∷◌, ◌++◌, map, length, length-append, take,
  length-take, All, All-append, Bool-cases, leb→le, leb→gt, lt→ltb, List-cases, subst, arith,
}
use prisma_pglite_bridge.Duplex.CopyIn.{Text}
use prisma_pglite_bridge.Pool.QueryTrail.Preview.{
  Thrown, TrailError, cap_sql, preview_error, error_of, cut, cut_rendered, trail_sql_max_chars,
  sql_cap_marker, error_message_max_chars,
}
use prisma_pglite_bridge.Pool.QueryTrail.{
  Recorder, Entry, push, counted, shift, failure_of, warn_overflow,
}

abbrev pub seqs : List Entry → List ℕ
seqs es = map (λ (e : Entry). e.seq) es

-- `first`, `first + 1` and so on, `n` numbers.
abbrev pub numbers : ℕ → ℕ → List ℕ
numbers first zero = []
numbers first (suc n) = first ∷ numbers (first + 1) n

abbrev pub IsShort : Option TrailError → Type 0
IsShort none = Unit {0}
IsShort (some e) = length e.message ≤ 500

abbrev pub IsCapped : Entry → Type 0
IsCapped e = (length e.sql ≤ 2000) × IsShort e.failure

abbrev pub IsLast : Option ℕ → ℕ → Type 0
IsLast none next = Unit {0}
IsLast (some seq) next = next ≡ suc seq

-- The ring holds the last entries, numbered without a gap, all others are counted as dropped, and
-- texts are cut.
pub record IsTrail (r : Recorder) : Type 0 where
  pub numbered : seqs r.ring ≡ numbers r.dropped_count (length r.ring)
  pub counted_all : r.dropped_count + length r.ring ≡ r.next_seq
  pub bounded : length r.ring ≤ r.max_entries
  pub warned : r.overflow_warned ≡ ltb 0 r.dropped_count
  pub capped : All IsCapped r.ring
  pub disabled_last : IsLast r.disabled_after_seq r.next_seq

numbers-snoc : (first n : ℕ) → numbers first n ++ (first + n) ∷ [] ≡ numbers first (suc n)
numbers-snoc first zero = ap (λ k. k ∷ []) (omega arith)
numbers-snoc first (suc n) =
    ap (◌∷◌ first)
      (ap (λ k. numbers (first + 1) n ++ k ∷ []) (omega arith) ∙ numbers-snoc (first + 1) n)

seqs-append : (es : List Entry) (e : Entry) → seqs (es ++ e ∷ []) ≡ seqs es ++ e.seq ∷ []
seqs-append [] e = refl
seqs-append (x ∷ es) e = ap (◌∷◌ x.seq) (seqs-append es e)

-- An entry with the next number behind the ring.
appended :
    (first : ℕ) (es : List Entry) (e : Entry)
    → seqs es ≡ numbers first (length es)
    → e.seq ≡ first + length es
    → seqs (es ++ e ∷ []) ≡ numbers first (length (es ++ e ∷ []))
appended first es e n s =
    let len : length (es ++ e ∷ []) ≡ suc (length es) = length-append es (e ∷ []) ∙ (omega arith) in
    seqs-append es e
    ∙ ap (λ l. l ++ e.seq ∷ []) n
    ∙ ap (λ k. numbers first (length es) ++ k ∷ []) s
    ∙ numbers-snoc first (length es)
    ∙ ap (numbers first) (sym len)

length-cut : (cap : ℕ) (cs : Text) → length (cut cap cs) ≤ cap
length-cut cap cs = ground (arith, length-take cap cs)

length-capped :
    (cap : ℕ) (sql marker : Text)
    → length marker ≤ cap
    → length (if leb (length sql) cap then sql else take (cap - length marker) sql ++ marker) ≤ cap
length-capped cap sql marker h = elim (Bool-cases (leb (length sql) cap)) [
  | inl y ↦ rw y (leb→le (length sql) cap y)
  | inr n ↦
      let whole = length-append (take (cap - length marker) sql) marker in
      let part = length-take (cap - length marker) sql in
      rw n (omega (arith, whole, part, leb→gt (length sql) cap n))
]

pub length-cap_sql : (sql : Text) → length (cap_sql sql) ≤ trail_sql_max_chars
unfolding cap_sql
length-cap_sql sql = length-capped trail_sql_max_chars sql sql_cap_marker (omega arith)

IsShort-error_of :
    (code message : Option Text)
    → IsShort (error_of code (cut_rendered error_message_max_chars message))
IsShort-error_of code none = tt
IsShort-error_of code (some m) = length-cut error_message_max_chars m

pub IsShort-failure : (o : Option Thrown) → IsShort (failure_of o)
unfolding preview_error
IsShort-failure none = tt
IsShort-failure (some e) = IsShort-error_of e.code e.message

-- The recorder with room, and with its ring full.
abbrev grown : Recorder → Option ℕ → Entry → Recorder
grown r d e = record (counted r) { disabled_after_seq = d; ring = r.ring ++ e ∷ [] }

abbrev turned : Recorder → Option ℕ → Entry → List Entry → Recorder
turned r d e rest = record (counted r) {
  disabled_after_seq = d;
  ring = rest ++ e ∷ [];
  dropped_count = r.dropped_count + 1;
  overflow_warned = true;
  stderr = warn_overflow r.overflow_warned r.stderr;
}

module _ (r : Recorder) (t : IsTrail r) (d : Option ℕ) (last : IsLast d (r.next_seq + 1))
    (e : Entry) (seq : e.seq ≡ r.next_seq) (cap : IsCapped e) where
  IsTrail-grown : length r.ring < r.max_entries → IsTrail (grown r d e)
  IsTrail-grown room =
      let len = length-append r.ring (e ∷ []) in
      record {
        numbered = appended r.dropped_count r.ring e t.numbered (seq ∙ sym t.counted_all);
        counted_all = omega (arith, len, t.counted_all);
        bounded = omega (arith, len, room);
        warned = t.warned;
        capped = All-append IsCapped r.ring (e ∷ []) t.capped (cap, tt);
        disabled_last = last;
      }

  IsTrail-turned : (x : Entry) (rest : List Entry) → r.ring ≡ x ∷ rest → IsTrail (turned r d e rest)
  IsTrail-turned x rest eq =
      let len = length-append rest (e ∷ []) in
      let size : length r.ring ≡ suc (length rest) = ap length eq in
      let shifted : seqs rest ≡ numbers (r.dropped_count + 1) (length rest) =
        (let whole : x.seq ∷ seqs rest
              ≡ r.dropped_count ∷ numbers (r.dropped_count + 1) (length rest) =
            sym (ap seqs eq) ∙ t.numbered ∙ ap (numbers r.dropped_count) size in
          cc) in
      record {
        numbered =
            appended (r.dropped_count + 1) rest e shifted
              (seq ∙ (omega (arith, t.counted_all, size)));
        counted_all = omega (arith, len, t.counted_all, size);
        bounded = omega (arith, len, size, t.bounded);
        warned = sym (lt→ltb 0 (r.dropped_count + 1) (omega arith));
        capped = All-append IsCapped rest (e ∷ []) (subst (All IsCapped) eq t.capped).1 (cap, tt);
        disabled_last = last;
      }

  pub IsTrail-push :
      1 ≤ r.max_entries → IsTrail (push (record (counted r) { disabled_after_seq = d }) e)
  unfolding push
  IsTrail-push some_room = elim (Bool-cases (leb r.max_entries (length r.ring))) [
    | inr n ↦ rw n (IsTrail-grown (leb→gt r.max_entries (length r.ring) n))
    | inl y ↦ elim (List-cases r.ring) [
      | inl none_there ↦
          absurd
            (omega (arith, some_room, leb→le r.max_entries (length r.ring) y, ap length none_there))
      | inr (x, rest, eq) ↦
          rw y (subst (λ l. IsTrail (turned r d e (shift l))) (sym eq) (IsTrail-turned x rest eq))
    ]
  ]
