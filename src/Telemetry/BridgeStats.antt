-- ===== src/Telemetry/BridgeStats.antt =====
-- src/telemetry/bridge-stats.ts: the counters of a bridge and the percentiles of its recent queries.
-- Times and durations are numbers of one small unit. The size of the window is a parameter, so that
-- nothing computes with a list of its length; the code's is the constant.
pub mod Window
pub mod Rank
mod Tests
use prisma_pglite_bridge.Prelude.{
  ℕ, zero, suc, ◌+◌, ◌-◌, ◌*◌, ◌/◌, min, ltb, leb, not, ◌==◌, if◌then◌else◌, Bool, true, false,
  Option, none, some, List, [], ◌∷◌, ◌++◌, length, drop, get_or,
}

abbrev pub query_duration_window_size : ℕ
query_duration_window_size = 10000

pub data StatsLevel : Type 0 where
  basic full : StatsLevel

abbrev pub is_full : StatsLevel → Bool
is_full basic = false
is_full full = true

pub record BridgeStats : Type 0 where
  pub level : StatsLevel
  pub created_at_hrtime : ℕ
  pub query_durations : List ℕ
  pub total_query_ms : ℕ
  pub query_count : ℕ
  pub failed_query_count : ℕ
  pub reset_db_calls : ℕ
  pub total_session_lock_wait_ms : ℕ
  pub max_session_lock_wait_ms : ℕ
  pub session_lock_acquisition_count : ℕ
  pub frozen : Bool
  pub cached_duration_ms : Option ℕ
  pub cached_db_size_bytes : Option ℕ
  pub db_size_frozen : Bool

pub new_stats : StatsLevel → ℕ → BridgeStats
new_stats level now = record {
  level = level;
  created_at_hrtime = now;
  query_durations = [];
  total_query_ms = 0;
  query_count = 0;
  failed_query_count = 0;
  reset_db_calls = 0;
  total_session_lock_wait_ms = 0;
  max_session_lock_wait_ms = 0;
  session_lock_acquisition_count = 0;
  frozen = false;
  cached_duration_ms = none;
  cached_db_size_bytes = none;
  db_size_frozen = false;
}

-- `slice(-n)`, for an n that is not zero.
abbrev pub slice_last : ℕ → List ℕ → List ℕ
slice_last n xs = drop (length xs - n) xs

-- The trim at twice the window.
abbrev pub trim : ℕ → List ℕ → List ℕ
trim window xs = if ltb (window * 2) (length xs) then slice_last window xs else xs

abbrev pub recorded_query : ℕ → BridgeStats → ℕ → Bool → BridgeStats
recorded_query window s duration succeeded = record s {
  query_count = s.query_count + 1;
  total_query_ms = s.total_query_ms + duration;
  query_durations = trim window (s.query_durations ++ duration ∷ []);
  failed_query_count = s.failed_query_count + (if succeeded then 0 else 1);
}

pub record_query : ℕ → BridgeStats → ℕ → Bool → BridgeStats
record_query window s duration succeeded =
    if s.frozen then s else recorded_query window s duration succeeded

abbrev pub recorded_wait : BridgeStats → ℕ → BridgeStats
recorded_wait s duration = record s {
  total_session_lock_wait_ms = s.total_session_lock_wait_ms + duration;
  session_lock_acquisition_count = s.session_lock_acquisition_count + 1;
  max_session_lock_wait_ms =
      if ltb s.max_session_lock_wait_ms duration then duration else s.max_session_lock_wait_ms;
}

pub record_lock_wait : BridgeStats → ℕ → BridgeStats
record_lock_wait s duration =
    if s.frozen then s else if not (is_full s.level) then s else recorded_wait s duration

pub increment_reset_db : BridgeStats → BridgeStats
increment_reset_db s = if s.frozen then s else record s { reset_db_calls = s.reset_db_calls + 1 }

-- What the query of the size gives: it rejects or is too slow, it has no row or null, or a text that
-- is a finite number or not.
pub data SizeAnswer : Type 0 where
  rejected no_size : SizeAnswer
  size_text : Option ℕ → SizeAnswer

pub query_db_size : SizeAnswer → Option ℕ
query_db_size rejected = none
query_db_size no_size = none
query_db_size (size_text n) = n

-- `freeze` up to its query, and whether it asks.
pub freeze : BridgeStats → ℕ → BridgeStats × Bool
freeze s close_entry_hrtime = if s.frozen then (s, false) else (
  record s { frozen = true; cached_duration_ms = some (close_entry_hrtime - s.created_at_hrtime) },
  true,
)

-- `freeze` behind its query.
pub frozen_size : BridgeStats → SizeAnswer → BridgeStats
unfolding query_db_size
frozen_size s answer = record s {
  cached_db_size_bytes = query_db_size answer;
  db_size_frozen = true;
}

-- `sort((a, b) => a - b)`
pub insert : ℕ → List ℕ → List ℕ
insert x [] = x ∷ []
insert x (y ∷ ys) = if leb x y then x ∷ y ∷ ys else y ∷ insert x ys

pub sort : List ℕ → List ℕ
unfolding insert
sort [] = []
sort (x ∷ xs) = insert x (sort xs)

-- The percentages that are asked for. At these `Math.ceil((p / 100) * n)` is the same in doubles as
-- in whole numbers, for an array of any length: 0.5 and 1 are exact, and the error of 0.95 * n is
-- less than what rounds to the whole number below.
pub data Percentage : Type 0 where
  p50 p95 p100 : Percentage

abbrev pub percent : Percentage → ℕ
percent p50 = 50
percent p95 = 95
percent p100 = 100

-- `Math.ceil((p / 100) * n) - 1`, between 0 and the last index.
abbrev pub rank : ℕ → Percentage → ℕ
rank n p = min (n - 1) ((percent p * n + 99) / 100 - 1)

pub percentile : List ℕ → Percentage → ℕ
percentile sorted p = if length sorted == 0 then 0 else get_or sorted (rank (length sorted) p) 0

-- A quotient, as its numerator and its denominator.
pub record Ratio : Type 0 where
  pub over : ℕ
  pub under : ℕ

abbrev pub average : ℕ → ℕ → Ratio
average total count =
    if count == 0 then record { over = 0; under = 1 } else record { over = total; under = count }

pub record StatsBase : Type 0 where
  pub duration_ms : ℕ
  pub query_count : ℕ
  pub failed_query_count : ℕ
  pub total_query_ms : ℕ
  pub avg_query_ms : Ratio
  pub recent_p50_query_ms : ℕ
  pub recent_p95_query_ms : ℕ
  pub recent_max_query_ms : ℕ
  pub reset_db_calls : ℕ
  pub db_size_bytes : Option ℕ

pub record LockStats : Type 0 where
  pub process_rss_peak_bytes : Option ℕ
  pub total_session_lock_wait_ms : ℕ
  pub session_lock_acquisition_count : ℕ
  pub avg_session_lock_wait_ms : Ratio
  pub max_session_lock_wait_ms : ℕ

pub data Stats : Type 0 where
  stats_basic : StatsBase → Stats
  stats_full : StatsBase → LockStats → Stats

abbrev pub number_or : ℕ → Option ℕ → ℕ
number_or d none = d
number_or d (some n) = n

abbrev pub with_level : StatsLevel → StatsBase → LockStats → Stats
with_level basic base locks = stats_basic base
with_level full base locks = stats_full base locks

-- `snapshot` at a time, with what the size query gives and the process's peak of memory.
pub snapshot : ℕ → BridgeStats → ℕ → SizeAnswer → Option ℕ → Stats
unfolding sort percentile query_db_size
snapshot window s now answer peak =
    let sorted = sort (slice_last window s.query_durations) in
    with_level s.level
      (record {
        duration_ms = number_or (now - s.created_at_hrtime) s.cached_duration_ms;
        query_count = s.query_count;
        failed_query_count = s.failed_query_count;
        total_query_ms = s.total_query_ms;
        avg_query_ms = average s.total_query_ms s.query_count;
        recent_p50_query_ms = percentile sorted p50;
        recent_p95_query_ms = percentile sorted p95;
        recent_max_query_ms = percentile sorted p100;
        reset_db_calls = s.reset_db_calls;
        db_size_bytes = if s.db_size_frozen then s.cached_db_size_bytes else query_db_size answer;
      })
      (record {
        process_rss_peak_bytes = peak;
        total_session_lock_wait_ms = s.total_session_lock_wait_ms;
        session_lock_acquisition_count = s.session_lock_acquisition_count;
        avg_session_lock_wait_ms =
            average s.total_session_lock_wait_ms s.session_lock_acquisition_count;
        max_session_lock_wait_ms = s.max_session_lock_wait_ms;
      })
