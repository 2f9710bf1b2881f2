-- ===== src/Telemetry/BridgeStats/Tests.antt =====
-- Runs of src/telemetry/bridge-stats.ts with a window of two.
use prisma_pglite_bridge.Prelude.{
  ℕ, ◌*◌, ◌≤◌, ◌<◌, ◌≡◌, refl, true, false, none, some, List, [], ◌∷◌, length, arith,
}
use prisma_pglite_bridge.Telemetry.BridgeStats.{
  p50, p95, p100, StatsBase, full, basic, new_stats, snapshot, sort, percentile, rejected,
  size_text,
}
use prisma_pglite_bridge.Telemetry.BridgeStats.Rank.{count_le, count_lt, percentile-sort}
use prisma_pglite_bridge.Telemetry.BridgeStats.Window.{
  Call, query, lock_wait, reset_db, freezing, size_answered, run, snapshot-run, base_of,
}

abbrev some_times : List ℕ
some_times = 30 ∷ 10 ∷ 20 ∷ 10 ∷ []

test_sort : sort some_times ≡ 10 ∷ 10 ∷ 20 ∷ 30 ∷ []
unfolding sort
test_sort = refl

test_median : percentile (10 ∷ 10 ∷ 20 ∷ 30 ∷ []) p50 ≡ 10
unfolding percentile
test_median = refl

test_percentile_empty : percentile [] p95 ≡ 0
unfolding percentile
test_percentile_empty = refl

percentile-sort_example :
    (95 * length some_times ≤ 100 * count_le (percentile (sort some_times) p95) some_times)
    × (100 * count_lt (percentile (sort some_times) p95) some_times < 95 * length some_times)
percentile-sort_example = percentile-sort p95 some_times (omega arith)

-- Five queries trim the list, and nothing is recorded behind the freeze.
abbrev calls : List Call
calls =
    query 5 true
    ∷ lock_wait 3
    ∷ query 6 false
    ∷ query 7 true
    ∷ reset_db
    ∷ query 8 true
    ∷ query 9 false
    ∷ freezing 100
    ∷ query 10 true
    ∷ size_answered (size_text (some 4096))
    ∷ []

test_run : (run 2 (new_stats full 40) calls).query_durations ≡ 8 ∷ 9 ∷ []
unfolding run new_stats
test_run = refl

test_frozen : (run 2 (new_stats basic 40) calls).cached_duration_ms ≡ some 60
unfolding run new_stats
test_frozen = refl

test_lock_wait : (run 2 (new_stats full 40) calls).max_session_lock_wait_ms ≡ 3
unfolding run new_stats
test_lock_wait = refl

abbrev stats : StatsBase
stats = base_of (snapshot 2 (run 2 (new_stats full 40) calls) 200 rejected none)

snapshot-run_example :
    (stats.recent_p50_query_ms ≡ percentile (sort (8 ∷ 9 ∷ [])) p50)
    × (stats.recent_p95_query_ms ≡ percentile (sort (8 ∷ 9 ∷ [])) p95)
    × (stats.recent_max_query_ms ≡ percentile (sort (8 ∷ 9 ∷ [])) p100)
    × (stats.query_count ≡ 5)
    × (stats.total_query_ms ≡ 35)
    × (stats.failed_query_count ≡ 2)
    × (stats.reset_db_calls ≡ 1)
snapshot-run_example = snapshot-run 2 full 40 200 rejected none calls
