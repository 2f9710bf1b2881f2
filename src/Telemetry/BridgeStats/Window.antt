-- ===== src/Telemetry/BridgeStats/Window.antt =====
-- What the statistics are of (the class BridgeStats in src/telemetry/bridge-stats.ts): any calls on
-- new ones, set against the list of the calls before the first freeze.
use prisma_pglite_bridge.Prelude.{
  Option, ℕ, ◌+◌, ◌-◌, ◌*◌, ◌≤◌, ◌≡◌, refl, sym, ap, ◌∙◌, inl, inr, ◌⊎◌, length-append, Bool, true,
  false, ltb, not, if◌then◌else◌, some, List, [], ◌∷◌, ◌++◌, length, drop, length-drop, drop-drop,
  drop-append, Bool-cases, subst, ltb→lt, ltb→ge, append_assoc, append-nil, arith,
}
use prisma_pglite_bridge.Telemetry.BridgeStats.{
  p50, p95, p100, Stats, StatsBase, LockStats, stats_basic, stats_full, with_level, basic, full,
  snapshot, percentile, sort, BridgeStats, StatsLevel, new_stats, record_query, recorded_query,
  recorded_wait, record_lock_wait, increment_reset_db, freeze, frozen_size, is_full, SizeAnswer,
  slice_last, trim,
}

pub data Call : Type 0 where
  query : ℕ → Bool → Call
  lock_wait : ℕ → Call
  reset_db : Call
  freezing : ℕ → Call
  size_answered : SizeAnswer → Call

unfoldable pub step : ℕ → BridgeStats → Call → BridgeStats
unfolding record_query record_lock_wait increment_reset_db freeze frozen_size
step window s (query duration succeeded) = record_query window s duration succeeded
step window s (lock_wait duration) = record_lock_wait s duration
step window s reset_db = increment_reset_db s
step window s (freezing now) = (freeze s now).0
step window s (size_answered answer) = frozen_size s answer

unfoldable pub run : ℕ → BridgeStats → List Call → BridgeStats
unfolding step
run window s [] = s
run window s (c ∷ cs) = run window (step window s c) cs

-- The calls before the first freeze.
abbrev pub live : List Call → List Call
live [] = []
live (query duration succeeded ∷ cs) = query duration succeeded ∷ live cs
live (lock_wait duration ∷ cs) = lock_wait duration ∷ live cs
live (reset_db ∷ cs) = reset_db ∷ live cs
live (freezing now ∷ cs) = []
live (size_answered answer ∷ cs) = live cs

abbrev pub durations : List Call → List ℕ
durations [] = []
durations (query duration succeeded ∷ cs) = duration ∷ durations cs
durations (lock_wait duration ∷ cs) = durations cs
durations (reset_db ∷ cs) = durations cs
durations (freezing now ∷ cs) = durations cs
durations (size_answered answer ∷ cs) = durations cs

abbrev pub failures : List Call → ℕ
failures [] = 0
failures (query duration succeeded ∷ cs) = (if succeeded then 0 else 1) + failures cs
failures (lock_wait duration ∷ cs) = failures cs
failures (reset_db ∷ cs) = failures cs
failures (freezing now ∷ cs) = failures cs
failures (size_answered answer ∷ cs) = failures cs

abbrev pub resets : List Call → ℕ
resets [] = 0
resets (query duration succeeded ∷ cs) = resets cs
resets (lock_wait duration ∷ cs) = resets cs
resets (reset_db ∷ cs) = 1 + resets cs
resets (freezing now ∷ cs) = resets cs
resets (size_answered answer ∷ cs) = resets cs

abbrev pub sum : List ℕ → ℕ
sum [] = 0
sum (x ∷ xs) = x + sum xs

-- What is kept is a last part of all the durations, of the size of the window at least if shorter.
record IsTail (window : ℕ) (kept all : List ℕ) : Type 0 where
  dropped : ℕ
  is_rest : kept ≡ drop dropped all
  whole_or_enough : (dropped ≡ 0) ⊎ (dropped + window ≤ length all)
  at_most : length kept ≤ window * 2

fits :
    {window : ℕ} {kept all : List ℕ} (t : IsTail window kept all)
    → (t.dropped ≤ length all)
      × (length kept ≡ length all - t.dropped)
      × (t.dropped + (length kept - window) ≡ length all - window)
fits {window} {kept} {all} t =
    let l : length kept ≡ length all - t.dropped =
      ap length t.is_rest ∙ length-drop t.dropped all in
    elim t.whole_or_enough [
      | inl z ↦ (omega (arith, z), l, omega (arith, z, l))
      | inr e ↦ (omega (arith, e), l, omega (arith, e, l))
    ]

slice_last-IsTail :
    {window : ℕ} {kept all : List ℕ}
    → IsTail window kept all
    → slice_last window kept ≡ slice_last window all
slice_last-IsTail {window} {kept} {all} t =
    ap (drop (length kept - window)) t.is_rest
    ∙ drop-drop (length kept - window) t.dropped all
    ∙ ap (λ n. drop n all) (fits t).2

append-IsTail :
    {window : ℕ} {kept all : List ℕ} (d : ℕ) (t : IsTail window kept all)
    → kept ++ d ∷ [] ≡ drop t.dropped (all ++ d ∷ [])
append-IsTail {window} {kept} {all} d t =
    ap (λ xs. xs ++ d ∷ []) t.is_rest ∙ sym (drop-append t.dropped all (d ∷ []) (fits t).0)

IsTail-push :
    {window : ℕ} {kept all : List ℕ} (d : ℕ)
    → IsTail window kept all
    → IsTail window (trim window (kept ++ d ∷ [])) (all ++ d ∷ [])
IsTail-push {window} {kept} {all} d t =
    let l = length-append kept (d ∷ []) in
    let a = length-append all (d ∷ []) in
    let f = fits t in
    let kept' = kept ++ d ∷ [] in
    let all' = all ++ d ∷ [] in
    let cut = length kept' - window in
    elim (Bool-cases (ltb (window * 2) (length kept'))) [
      | inl g ↦ rw g record {
        dropped = t.dropped + cut;
        is_rest = ap (drop cut) (append-IsTail d t) ∙ drop-drop cut t.dropped all';
        whole_or_enough = inr (omega (arith, l, a, f, ltb→lt (window * 2) (length kept') g));
        at_most = omega (arith, length-drop cut kept');
      }
      | inr g ↦ rw g record {
        dropped = t.dropped;
        is_rest = append-IsTail d t;
        whole_or_enough = elim t.whole_or_enough [
          | inl z ↦ inl z
          | inr e ↦ inr (omega (arith, a, e))
        ];
        at_most = omega (arith, ltb→ge (window * 2) (length kept') g);
      }
    ]

-- What was recorded is the same.
abbrev IsSame : BridgeStats → BridgeStats → Type 0
IsSame s t =
    (t.query_durations ≡ s.query_durations)
    × (t.query_count ≡ s.query_count)
    × (t.total_query_ms ≡ s.total_query_ms)
    × (t.failed_query_count ≡ s.failed_query_count)
    × (t.reset_db_calls ≡ s.reset_db_calls)

IsStill-IsSame : (s t : BridgeStats) → t ≡ s → s.frozen ≡ true → IsSame s t × (t.frozen ≡ true)
IsStill-IsSame s t e f = (
  (
    ap (λ u. u.query_durations) e,
    ap (λ u. u.query_count) e,
    ap (λ u. u.total_query_ms) e,
    ap (λ u. u.failed_query_count) e,
    ap (λ u. u.reset_db_calls) e,
  ),
  ap (λ u. u.frozen) e ∙ f,
)

stays :
    (s t : BridgeStats)
    → s.frozen ≡ true
    → IsSame s (if s.frozen then s else t) × ((if s.frozen then s else t).frozen ≡ true)
stays s t f = IsStill-IsSame s (if s.frozen then s else t) (ap (λ b. if b then s else t) f) f

step_frozen :
    (window : ℕ) (s : BridgeStats) (c : Call)
    → s.frozen ≡ true
    → IsSame s (step window s c) × ((step window s c).frozen ≡ true)
unfolding step record_query record_lock_wait increment_reset_db freeze frozen_size
step_frozen window s (query d ok) f = stays s (recorded_query window s d ok) f
step_frozen window s (lock_wait d) f =
    stays s (if not (is_full s.level) then s else recorded_wait s d) f
step_frozen window s reset_db f = stays s (record s { reset_db_calls = s.reset_db_calls + 1 }) f
step_frozen window s (freezing now) f =
    let t = record s { frozen = true; cached_duration_ms = some (now - s.created_at_hrtime) } in
    let pick : Bool → BridgeStats × Bool = λ b. if b then (s, false) else (t, true) in
    let e : (freeze s now).0 ≡ s = ap (λ b. (pick b).0) f in IsStill-IsSame s (freeze s now).0 e f
step_frozen window s (size_answered answer) f = ((refl, refl, refl, refl, refl), f)

run-frozen :
    (window : ℕ) (s : BridgeStats) (cs : List Call) → s.frozen ≡ true → IsSame s (run window s cs)
unfolding run
run-frozen window s [] f = (refl, refl, refl, refl, refl)
run-frozen window s (c ∷ cs) f =
    let a = step_frozen window s c f in
    let b = run-frozen window (step window s c) cs a.1 in
    (b.0 ∙ a.0.0, b.1 ∙ a.0.1, b.2 ∙ a.0.2, b.3 ∙ a.0.3, b.4 ∙ a.0.4)

-- From s, which has kept a last part of some durations, t has recorded further calls.
abbrev IsRecorded : ℕ → List ℕ → BridgeStats → List Call → BridgeStats → Type 0
IsRecorded window all s cs t =
    IsTail window t.query_durations (all ++ durations cs)
    × (t.query_count ≡ s.query_count + length (durations cs))
    × (t.total_query_ms ≡ s.total_query_ms + sum (durations cs))
    × (t.failed_query_count ≡ s.failed_query_count + failures cs)
    × (t.reset_db_calls ≡ s.reset_db_calls + resets cs)

IsRecorded-same :
    (window : ℕ) (all : List ℕ) (s t : BridgeStats)
    → IsTail window s.query_durations all
    → IsSame s t
    → IsRecorded window all s [] t
IsRecorded-same window all s t h e = (
  rw (e.0, append-nil all) h,
  omega (arith, e.1),
  omega (arith, e.2),
  omega (arith, e.3),
  omega (arith, e.4),
)

run-IsRecorded :
    (window : ℕ) (all : List ℕ) (s : BridgeStats) (cs : List Call)
    → s.frozen ≡ false
    → IsTail window s.query_durations all
    → IsRecorded window all s (live cs) (run window s cs)
unfolding run step record_query record_lock_wait increment_reset_db freeze frozen_size
run-IsRecorded window all s [] f h = IsRecorded-same window all s s h (refl, refl, refl, refl, refl)
run-IsRecorded window all s (query d ok ∷ cs) f h =
    let t = recorded_query window s d ok in
    let k = run-IsRecorded window (all ++ d ∷ []) t cs f (IsTail-push d h) in
    let a = append_assoc all (d ∷ []) (durations (live cs)) in
    subst (λ u. IsRecorded window all s (live (query d ok ∷ cs)) (run window u cs))
      (sym (ap (λ b. if b then s else t) f))
      (
        subst (IsTail window (run window t cs).query_durations) a k.0,
        omega (arith, k.1),
        omega (arith, k.2),
        omega (arith, k.3),
        k.4,
      )
run-IsRecorded window all s (lock_wait d ∷ cs) f h =
    let basic_or = λ (b : Bool). if b then s else recorded_wait s d in
    subst (λ u. IsRecorded window all s (live cs) (run window u cs))
      (sym (ap (λ b. if b then s else basic_or (not (is_full s.level))) f))
      (elim (Bool-cases (not (is_full s.level))) [
        | inl l ↦
            subst (λ b. IsRecorded window all s (live cs) (run window (basic_or b) cs)) (sym l)
              (run-IsRecorded window all s cs f h)
        | inr l ↦
            subst (λ b. IsRecorded window all s (live cs) (run window (basic_or b) cs)) (sym l)
              (run-IsRecorded window all (recorded_wait s d) cs f h)
      ])
run-IsRecorded window all s (reset_db ∷ cs) f h =
    let t = record s { reset_db_calls = s.reset_db_calls + 1 } in
    let k = run-IsRecorded window all t cs f h in
    subst (λ u. IsRecorded window all s (live (reset_db ∷ cs)) (run window u cs))
      (sym (ap (λ b. if b then s else t) f)) (k.0, k.1, k.2, k.3, omega (arith, k.4))
run-IsRecorded window all s (freezing now ∷ cs) f h =
    let t = record s { frozen = true; cached_duration_ms = some (now - s.created_at_hrtime) } in
    let pick : Bool → BridgeStats × Bool = λ b. if b then (s, false) else (t, true) in
    subst (λ u. IsRecorded window all s [] (run window u cs)) (sym (ap (λ b. (pick b).0) f))
      (IsRecorded-same window all s (run window t cs) h (run-frozen window t cs refl))
run-IsRecorded window all s (size_answered answer ∷ cs) f h =
    run-IsRecorded window all (frozen_size s answer) cs f h

run-durations :
    (window : ℕ) (level : StatsLevel) (now : ℕ) (cs : List Call)
    → let s = run window (new_stats level now) cs in
      (slice_last window s.query_durations ≡ slice_last window (durations (live cs)))
      × (s.query_count ≡ length (durations (live cs)))
      × (s.total_query_ms ≡ sum (durations (live cs)))
      × (s.failed_query_count ≡ failures (live cs))
      × (s.reset_db_calls ≡ resets (live cs))
unfolding new_stats
run-durations window level now cs =
    let k =
      run-IsRecorded window [] (new_stats level now) cs refl
        record { dropped = 0; is_rest = refl; whole_or_enough = inl refl; at_most = omega arith } in
    (
      slice_last-IsTail k.0,
      omega (arith, k.1),
      omega (arith, k.2),
      omega (arith, k.3),
      omega (arith, k.4),
    )

abbrev pub base_of : Stats → StatsBase
base_of (stats_basic base) = base
base_of (stats_full base locks) = base

base_of-with_level :
    (l : StatsLevel) (b : StatsBase) (w : LockStats) → base_of (with_level l b w) ≡ b
base_of-with_level basic b w = refl
base_of-with_level full b w = refl

-- After any calls on new statistics, the percentiles that snapshot gives are those of the last durations,
-- as many as the window has, of the queries before the first freeze, however the list was trimmed; the
-- counts of queries, of failures and of resets and the sum of the durations are those of the calls
-- before it.
pub snapshot-run :
    (window : ℕ) (level : StatsLevel) (created now : ℕ) (answer : SizeAnswer) (peak : Option ℕ)
    (cs : List Call)
    → let b = base_of (snapshot window (run window (new_stats level created) cs) now answer peak) in
      let sorted = sort (slice_last window (durations (live cs))) in
      (b.recent_p50_query_ms ≡ percentile sorted p50)
      × (b.recent_p95_query_ms ≡ percentile sorted p95)
      × (b.recent_max_query_ms ≡ percentile sorted p100)
      × (b.query_count ≡ length (durations (live cs)))
      × (b.total_query_ms ≡ sum (durations (live cs)))
      × (b.failed_query_count ≡ failures (live cs))
      × (b.reset_db_calls ≡ resets (live cs))
unfolding snapshot
snapshot-run window level created now answer peak cs =
    let s = run window (new_stats level created) cs in
    let k = run-durations window level created cs in
    let e = base_of-with_level s.level _ _ in
    (
      ap (λ b. b.recent_p50_query_ms) e ∙ ap (λ ds. percentile (sort ds) p50) k.0,
      ap (λ b. b.recent_p95_query_ms) e ∙ ap (λ ds. percentile (sort ds) p95) k.0,
      ap (λ b. b.recent_max_query_ms) e ∙ ap (λ ds. percentile (sort ds) p100) k.0,
      ap (λ b. b.query_count) e ∙ k.1,
      ap (λ b. b.total_query_ms) e ∙ k.2,
      ap (λ b. b.failed_query_count) e ∙ k.3,
      ap (λ b. b.reset_db_calls) e ∙ k.4,
    )
