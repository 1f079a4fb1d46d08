-- ===== src/Metrics.antt =====
-- app/core/metrics.py: the counters and the latency statistics that the services feed. The
-- collector's lock makes each call one step, and latencies are whole milliseconds, never negative.
-- `get_stats`, which copies the state and divides for the averages, is left out.
pub mod History
use ctrlf_ai.Prelude.{
  ℕ, suc, ◌+◌, String, Bool, true, Option, none, some, List, [], ◌∷◌, if◌then◌else◌, ltb,
}
use ctrlf_ai.Prelude.Dict.{Dict, lookup, insert}

pub record LatencyStats : Type 0 where
  pub count : ℕ
  pub total_ms : ℕ
  pub min_ms : Option ℕ
  pub max_ms : Option ℕ

abbrev pub no_stats : LatencyStats
no_stats = record { count = 0; total_ms = 0; min_ms = none; max_ms = none }

-- `is None or latency_ms < self.min_ms`
unfoldable pub is_lower : ℕ → Option ℕ → Bool
is_lower latency_ms none = true
is_lower latency_ms (some least) = ltb latency_ms least

unfoldable pub is_higher : ℕ → Option ℕ → Bool
is_higher latency_ms none = true
is_higher latency_ms (some most) = ltb most latency_ms

-- `LatencyStats.record`
unfoldable pub record_ms : ℕ → LatencyStats → LatencyStats
unfolding is_lower is_higher
record_ms latency_ms s = record {
  count = suc s.count;
  total_ms = s.total_ms + latency_ms;
  min_ms = if is_lower latency_ms s.min_ms then some latency_ms else s.min_ms;
  max_ms = if is_higher latency_ms s.max_ms then some latency_ms else s.max_ms;
}

pub record MetricsCollector : Type 0 where
  pub error_counts : Dict ℕ
  pub retry_counts : Dict ℕ
  pub latency_stats : Dict LatencyStats
  pub request_counts : Dict ℕ

abbrev pub init : MetricsCollector
init = record { error_counts = []; retry_counts = []; latency_stats = []; request_counts = [] }

-- `counts[key]` of a `defaultdict(int)`
unfoldable pub counted : String → Dict ℕ → ℕ
unfolding lookup
counted key counts = elim (lookup key counts) [ none ↦ 0 | some n ↦ n ]

-- `counts[key] += 1`
unfoldable pub increment : String → Dict ℕ → Dict ℕ
unfolding counted insert
increment key counts = insert key (suc (counted key counts)) counts

-- `latency_stats[service]` of a `defaultdict(LatencyStats)`
unfoldable pub stats_of : String → Dict LatencyStats → LatencyStats
unfolding lookup
stats_of service stats = elim (lookup service stats) [ none ↦ no_stats | some s ↦ s ]

unfoldable pub increment_error : String → MetricsCollector → MetricsCollector
unfolding increment
increment_error error_tag m = record m { error_counts = increment error_tag m.error_counts }

unfoldable pub increment_retry : String → MetricsCollector → MetricsCollector
unfolding increment
increment_retry service m = record m { retry_counts = increment service m.retry_counts }

unfoldable pub record_latency : String → ℕ → MetricsCollector → MetricsCollector
unfolding stats_of record_ms insert
record_latency service latency_ms m = record m {
  latency_stats =
      insert service (record_ms latency_ms (stats_of service m.latency_stats)) m.latency_stats;
}

unfoldable pub increment_request : String → MetricsCollector → MetricsCollector
unfolding increment
increment_request route m = record m { request_counts = increment route m.request_counts }

unfoldable pub reset : MetricsCollector → MetricsCollector
reset m = record m { error_counts = []; retry_counts = []; latency_stats = []; request_counts = [] }
