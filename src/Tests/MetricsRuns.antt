-- ===== src/Tests/MetricsRuns.antt =====
-- Calls of the services on the collector.
use ctrlf_ai.Prelude.{◌≡◌, refl, some, List, [], ◌∷◌}
use ctrlf_ai.Prelude.Dict.{lookup, insert}
use ctrlf_ai.Metrics.{
  increment_error, increment_retry, record_latency, increment_request, reset, increment, counted,
  stats_of, record_ms, is_lower, is_higher,
}
use ctrlf_ai.Metrics.History.{
  Call, errs, retries, takes, requests, resets, run, recent, Tracks, run-Tracks,
}

-- The last call first
abbrev calls : List Call
calls =
    takes "llm" 900
    ∷ errs "LLM_TIMEOUT"
    ∷ takes "llm" 1500
    ∷ takes "ragflow" 40
    ∷ retries "llm"
    ∷ takes "llm" 1200
    ∷ requests "RAG_INTERNAL"
    ∷ errs "LLM_TIMEOUT"
    ∷ resets
    ∷ errs "LLM_TIMEOUT"
    ∷ []

errors : (run calls).error_counts ≡ ("LLM_TIMEOUT", 2) ∷ []
unfolding run increment_error increment_retry record_latency increment_request reset increment
    counted stats_of record_ms is_lower is_higher lookup insert
errors = refl

latency :
    lookup "llm" (run calls).latency_stats
    ≡ some (record { count = 3; total_ms = 3_600; min_ms = some 900; max_ms = some 1_500 })
unfolding run increment_error increment_retry record_latency increment_request reset increment
    counted stats_of record_ms is_lower is_higher lookup insert
latency = refl

run-Tracks_example : Tracks (recent calls) (run calls)
run-Tracks_example = run-Tracks calls
