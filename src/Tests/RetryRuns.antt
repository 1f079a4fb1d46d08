-- ===== src/Tests/RetryRuns.antt =====
-- An operation that fails twice and then returns.
use ctrlf_ai.Prelude.{ℕ, zero, suc, ◌≤◌, ◌<◌, true, [], ◌∷◌, ◌≡◌, refl, arith}
use ctrlf_ai.Floats.FixedPoint.{fixed_point}
use ctrlf_ai.Retry.{
  ℤ, pos, negsuc, Attempt, success, failure, returned, raised, runtime_error, RetryConfig, tries,
  retry_async_operation, attempts, settled, retried, give_up, last_of, calculate_backoff_delay,
  is_below,
}
use ctrlf_ai.Retry.Outcome.{
  fails, Stops, retry_async_operation_stop, retry_async_operation_exhausted,
}

abbrev config : ℤ → RetryConfig (ℕ × ℕ) ℕ
config max_retries = record {
  max_retries = max_retries;
  base_delay = (500, 0);
  max_delay = (2000, 0);
  exponential_base = 2;
  is_retryable = λ e. true;
}

abbrev flaky : ℕ → Attempt ℕ ℕ
flaky zero = failure 50
flaky (suc zero) = failure 51
flaky (suc (suc n)) = success 7

abbrev broken : ℕ → Attempt ℕ ℕ
broken n = failure 50

waits :
    (retry_async_operation fixed_point (config (pos 3)) flaky).sleeps ≡ (500, 0) ∷ (1000, 0) ∷ []
unfolding retry_async_operation attempts settled retried give_up last_of calculate_backoff_delay
    is_below tries
waits = refl

nothing_tried : (retry_async_operation fixed_point (config (negsuc 0)) flaky).result ≡ runtime_error
unfolding retry_async_operation attempts settled retried give_up last_of calculate_backoff_delay
    is_below tries
nothing_tried = refl

too_small : (n : ℕ) → suc (suc n) < 2 → ⊥
too_small n h = omega arith

fails_before : (j : ℕ) → j < 2 → fails fixed_point (config (pos 3)) flaky (flaky j) ≡ true
unfolding fails
fails_before zero h = refl
fails_before (suc zero) h = refl
fails_before (suc (suc n)) h = elim (too_small n h) [ ]

fails_always : (j : ℕ) → j ≤ 3 → fails fixed_point (config (pos 3)) broken (broken j) ≡ true
unfolding fails
fails_always j h = refl

retry_async_operation_stop_example :
    ((retry_async_operation fixed_point (config (pos 3)) flaky).result ≡ returned 7)
    × ((retry_async_operation fixed_point (config (pos 3)) flaky).calls ≡ 3)
unfolding Stops
retry_async_operation_stop_example =
    retry_async_operation_stop fixed_point (config (pos 3)) flaky 2 3 (returned 7) refl
      (omega arith) fails_before refl

retry_async_operation_exhausted_example :
    ((retry_async_operation fixed_point (config (pos 3)) broken).result ≡ raised 50)
    × ((retry_async_operation fixed_point (config (pos 3)) broken).calls ≡ 4)
retry_async_operation_exhausted_example =
    retry_async_operation_exhausted fixed_point (config (pos 3)) broken 3 50 refl fails_always refl
