-- ===== src/Retry.antt =====
-- app/core/retry.py. The operation is a parameter: `op i` is the outcome of its call number i, from 0.
-- Which exceptions are retried is a test on the exception, and the calls and waits are recorded. The
-- decorator `retry_async` calls the loop with its configuration. The power of the base is within the
-- floats: the OverflowError that a delay beyond them raises, which takes about a thousand attempts with
-- the base 2, is not modelled.
pub mod Bounds
pub mod Outcome
use ctrlf_ai.Prelude.{
  ℕ, zero, suc, ◌^◌, Bool, false, Option, none, some, List, [], ◌∷◌, ltb, if◌then◌else◌,
}
use ctrlf_ai.Floats.{Floats, min_of}

-- Python's ints, as a configuration may name any.
pub data ℤ : Type 0 where
  pos negsuc : ℕ → ℤ

pub data Attempt (A E : Type 0) : Type 0 where
  success : A → Attempt A E
  failure : E → Attempt A E

-- `runtime_error` is raised where nothing was tried.
pub data Result (A E : Type 0) : Type 0 where
  returned : A → Result A E
  raised : E → Result A E
  runtime_error : Result A E

pub record RetryConfig (F E : Type 0) : Type 0 where
  pub max_retries : ℤ
  pub base_delay : F
  pub max_delay : F
  pub exponential_base : ℕ
  pub is_retryable : E → Bool

-- The length of `range(max_retries + 1)`.
unfoldable pub tries : ℤ → ℕ
tries (pos n) = suc n
tries (negsuc n) = 0

-- `attempt < max_retries`
unfoldable pub is_below : ℕ → ℤ → Bool
is_below attempt (pos n) = ltb attempt n
is_below attempt (negsuc n) = false

pub record Run (F A E : Type 0) : Type 0 where
  pub result : Result A E
  pub calls : ℕ
  pub sleeps : List F

module _ (fl : Floats) where
  open fl use {F, times, of_nat}

  unfoldable pub calculate_backoff_delay : ℕ → F → F → ℕ → F
  calculate_backoff_delay attempt base_delay max_delay exponential_base =
      min_of fl (times base_delay (of_nat (exponential_base ^ attempt))) max_delay

  module _ {A E : Type 0} (config : RetryConfig F E) (op : ℕ → Attempt A E) where
    -- After the loop.
    unfoldable pub give_up : Option E → Run F A E
    give_up none = record { result = runtime_error; calls = 0; sleeps = [] }
    give_up (some e) = record { result = raised e; calls = 0; sleeps = [] }

    -- A call that was retried, before the rest of the run.
    unfoldable pub retried : ℕ → Run F A E → Run F A E
    unfolding calculate_backoff_delay is_below
    retried attempt rest =
        let delay =
          calculate_backoff_delay attempt config.base_delay config.max_delay
            config.exponential_base in
        record {
          result = rest.result;
          calls = suc rest.calls;
          sleeps = if is_below attempt config.max_retries then delay ∷ rest.sleeps else rest.sleeps;
        }

    unfoldable pub settled : Attempt A E → Run F A E → Run F A E
    settled (success a) rest = record { result = returned a; calls = 1; sleeps = [] }
    settled (failure e) rest =
        if config.is_retryable e then rest else record { result = raised e; calls = 1; sleeps = [] }

    unfoldable pub last_of : Attempt A E → Option E
    last_of (success a) = none
    last_of (failure e) = some e

    -- The loop, with so many attempts left.
    unfoldable pub attempts : ℕ → ℕ → Option E → Run F A E
    unfolding settled retried give_up last_of
    attempts zero attempt last_exception = give_up last_exception
    attempts (suc left) attempt last_exception =
        settled (op attempt) (retried attempt (attempts left (suc attempt) (last_of (op attempt))))

    unfoldable pub retry_async_operation : Run F A E
    unfolding attempts tries
    retry_async_operation = attempts (tries config.max_retries) 0 none
