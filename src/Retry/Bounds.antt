-- ===== src/Retry/Bounds.antt =====
-- app/core/retry.py: how often the operation is called, and how long the loop waits.
use Prim.{tt}
use ctrlf_ai.Prelude.{
  ltb, ap, ◌∙◌, le→ltb, lt→ltb, List, [], ℕ, zero, suc, ◌+◌, ◌≤◌, ◌≡◌, refl, arith, Bool, true,
  false, Option, none, some, length, All, if◌then◌else◌,
}
use ctrlf_ai.Floats.{Floats, FloatLaws}
use ctrlf_ai.Retry.{
  pos, raised, Attempt, success, failure, RetryConfig, Run, tries, is_below,
  calculate_backoff_delay, give_up, retried, last_of, settled, attempts, retry_async_operation,
}

module _ (fl : Floats) {A E : Type 0} (config : RetryConfig fl.F E) (op : ℕ → Attempt A E) where
  settled_calls :
      (o : Attempt A E) (rest : Run fl.F A E) (n : ℕ)
      → rest.calls ≤ suc n
      → (settled fl config op o rest).calls ≤ suc n
  unfolding settled
  settled_calls (success a) rest n h = omega arith
  settled_calls (failure e) rest n h = ground arith

  attempts_calls :
      (left attempt : ℕ) (last : Option E) → (attempts fl config op left attempt last).calls ≤ left
  unfolding attempts retried give_up
  attempts_calls zero attempt none = omega arith
  attempts_calls zero attempt (some e) = omega arith
  attempts_calls (suc left) attempt last =
      settled_calls (op attempt) _ left
        (omega (arith, attempts_calls left (suc attempt) (last_of fl config op (op attempt))))

  -- The operation is called at most `max_retries + 1` times, and not at all if that is not positive.
  pub retry_async_operation_calls :
      (retry_async_operation fl config op).calls ≤ tries config.max_retries
  unfolding retry_async_operation
  retry_async_operation_calls = attempts_calls (tries config.max_retries) 0 none

  settled_sleeps :
      (o : Attempt A E) (rest : Run fl.F A E)
      → suc (length rest.sleeps) ≡ rest.calls
      → suc (length (settled fl config op o rest).sleeps) ≡ (settled fl config op o rest).calls
  unfolding settled
  settled_sleeps (success a) rest h = refl
  settled_sleeps (failure e) rest h = ground arith

  give_up_sleeps : (last : Option E) → length (give_up fl config op last).sleeps ≡ 0
  unfolding give_up
  give_up_sleeps none = refl
  give_up_sleeps (some e) = refl

  give_up_calls : (last : Option E) → (give_up fl config op last).calls ≡ 0
  unfolding give_up
  give_up_calls none = refl
  give_up_calls (some e) = refl

  retried_last :
      (attempt : ℕ) (rest : Run fl.F A E)
      → is_below attempt config.max_retries ≡ false
      → length rest.sleeps ≡ 0
      → rest.calls ≡ 0
      → suc (length (retried fl config op attempt rest).sleeps)
        ≡ (retried fl config op attempt rest).calls
  unfolding retried
  retried_last attempt rest e h k = ground arith

  retried_more :
      (attempt : ℕ) (rest : Run fl.F A E)
      → is_below attempt config.max_retries ≡ true
      → suc (length rest.sleeps) ≡ rest.calls
      → suc (length (retried fl config op attempt rest).sleeps)
        ≡ (retried fl config op attempt rest).calls
  unfolding retried
  retried_more attempt rest e h = rw e (ap suc h)

  is_below_pos :
      (n attempt : ℕ)
      → config.max_retries ≡ pos n
      → is_below attempt config.max_retries ≡ ltb attempt n
  unfolding is_below
  is_below_pos n attempt e = ap (is_below attempt) e

  attempts_sleeps :
      (n left attempt : ℕ) (last : Option E)
      → config.max_retries ≡ pos n
      → attempt + left ≡ n
      → suc (length (attempts fl config op (suc left) attempt last).sleeps)
        ≡ (attempts fl config op (suc left) attempt last).calls
  unfolding attempts
  attempts_sleeps n zero attempt last e h =
      let last' = last_of fl config op (op attempt) in
      let rest = attempts fl config op zero (suc attempt) last' in
      settled_sleeps (op attempt) (retried fl config op attempt rest) (
        retried_last attempt rest (is_below_pos n attempt e ∙ le→ltb attempt n (omega arith))
          (give_up_sleeps last') (give_up_calls last'))
  attempts_sleeps n (suc left) attempt last e h =
      let last' = last_of fl config op (op attempt) in
      let rest = attempts fl config op (suc left) (suc attempt) last' in
      settled_sleeps (op attempt) (retried fl config op attempt rest) (
        retried_more attempt rest (is_below_pos n attempt e ∙ lt→ltb attempt n (omega arith))
          (attempts_sleeps n left (suc attempt) last' e (omega arith)))

  from_start :
      (n l : ℕ)
      → config.max_retries ≡ pos n
      → l ≡ suc n
      → suc (length (attempts fl config op l 0 none).sleeps)
        ≡ (attempts fl config op l 0 none).calls
  from_start n l e h = rw h (attempts_sleeps n n 0 none e (omega arith))

  -- With a number of retries that is not negative, there is one call more than there are waits.
  pub retry_async_operation_sleeps :
      (n : ℕ)
      → config.max_retries ≡ pos n
      → suc (length (retry_async_operation fl config op).sleeps)
        ≡ (retry_async_operation fl config op).calls
  unfolding retry_async_operation tries
  retry_async_operation_sleeps n e = from_start n (tries config.max_retries) e (ap tries e)

  IsShort : fl.F → Type 0
  IsShort d = fl.lt config.max_delay d ≡ false

  module _ (laws : FloatLaws fl) where
    calculate_backoff_delay-IsShort :
        (attempt : ℕ)
        → IsShort (
            calculate_backoff_delay fl attempt config.base_delay config.max_delay
              config.exponential_base)
    unfolding calculate_backoff_delay IsShort
    calculate_backoff_delay-IsShort attempt = ground (arith, laws.lt_irrefl config.max_delay)

    settled-IsShort :
        (o : Attempt A E) (rest : Run fl.F A E)
        → All IsShort rest.sleeps
        → All IsShort (settled fl config op o rest).sleeps
    unfolding settled
    settled-IsShort (success a) rest h = tt
    settled-IsShort (failure e) rest h =
        elim (config.is_retryable e)
          as (λ b.
            All IsShort
              (if b then rest else record { result = raised e; calls = 1; sleeps = [] }).sleeps) [
                | true ↦ h
                | false ↦ tt
              ]

    if-All :
        (b : Bool) (xs ys : List fl.F)
        → All IsShort xs
        → All IsShort ys
        → All IsShort (if b then xs else ys)
    if-All true xs ys hx hy = hx
    if-All false xs ys hx hy = hy

    retried-IsShort :
        (attempt : ℕ) (rest : Run fl.F A E)
        → All IsShort rest.sleeps
        → All IsShort (retried fl config op attempt rest).sleeps
    unfolding retried
    retried-IsShort attempt rest h =
        if-All (is_below attempt config.max_retries) _ rest.sleeps
          (calculate_backoff_delay-IsShort attempt, h) h

    attempts-IsShort :
        (left attempt : ℕ) (last : Option E)
        → All IsShort (attempts fl config op left attempt last).sleeps
    unfolding attempts give_up
    attempts-IsShort zero attempt none = tt
    attempts-IsShort zero attempt (some e) = tt
    attempts-IsShort (suc left) attempt last =
        let last' = last_of fl config op (op attempt) in
        let rest = attempts fl config op left (suc attempt) last' in
        settled-IsShort (op attempt) (retried fl config op attempt rest)
          (retried-IsShort attempt rest (attempts-IsShort left (suc attempt) last'))

    -- With floats that obey their laws, none of the waits is longer than the longest that the
    -- configuration allows.
    retry_async_operation-IsShort :
        All (λ d. fl.lt config.max_delay d ≡ false) (retry_async_operation fl config op).sleeps
    unfolding retry_async_operation IsShort
    retry_async_operation-IsShort = attempts-IsShort (tries config.max_retries) 0 none
