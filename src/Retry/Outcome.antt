-- ===== src/Retry/Outcome.antt =====
-- app/core/retry.py: what the loop returns or raises.
use ctrlf_ai.Prelude.{
  ℕ, zero, suc, ◌+◌, ◌≤◌, ◌<◌, ◌≡◌, refl, sym, ap, subst, ◌∙◌, arith, Bool, true, false, Option,
  none,
}
use ctrlf_ai.Floats.{Floats}
use ctrlf_ai.Retry.{
  pos, Attempt, success, failure, Result, returned, raised, RetryConfig, Run, tries, give_up,
  retried, last_of, settled, attempts, retry_async_operation,
}

zero_least : (k : ℕ) → k < 0 → ⊥
zero_least k h = omega arith

module _ (fl : Floats) {A E : Type 0} (config : RetryConfig fl.F E) (op : ℕ → Attempt A E) where
  -- The call fails with an exception that is retried.
  unfoldable pub fails : Attempt A E → Bool
  fails (success a) = false
  fails (failure e) = config.is_retryable e

  settled-fails :
      (o : Attempt A E) (rest : Run fl.F A E) → fails o ≡ true → settled fl config op o rest ≡ rest
  unfolding settled fails
  settled-fails (success a) rest h = cc
  settled-fails (failure e) rest h = rw h refl

  -- A call that ends the loop with the result: a success, or an exception that is not retried.
  unfoldable pub Stops : Attempt A E → Result A E → Type 0
  Stops (success a) r = r ≡ returned a
  Stops (failure e) r = (config.is_retryable e ≡ false) × (r ≡ raised e)

  Ends : Run fl.F A E → Result A E → ℕ → Type 0
  Ends run r n = (run.result ≡ r) × (run.calls ≡ n)

  settled_stop :
      (o : Attempt A E) (rest : Run fl.F A E) (r : Result A E)
      → Stops o r
      → Ends (settled fl config op o rest) r 1
  unfolding settled Stops Ends
  settled_stop (success a) rest r h = (sym h, refl)
  settled_stop (failure e) rest r (h, k) = rw h (sym k, refl)

  retried-Ends :
      (attempt : ℕ) (o : Attempt A E) (rest : Run fl.F A E) (r : Result A E) (n : ℕ)
      → fails o ≡ true
      → Ends rest r n
      → Ends (settled fl config op o (retried fl config op attempt rest)) r (suc n)
  unfolding retried Ends
  retried-Ends attempt o rest r n f (h, k) =
      subst (λ run. Ends run r (suc n))
        (sym (settled-fails o (retried fl config op attempt rest) f)) (h, ap suc k)

  attempts_stop :
      (k left attempt m : ℕ) (last : Option E) (r : Result A E)
      → attempt + k ≡ m
      → ((j : ℕ) → attempt ≤ j → j < m → fails (op j) ≡ true)
      → Stops (op m) r
      → k < left
      → Ends (attempts fl config op left attempt last) r (suc k)
  unfolding attempts
  attempts_stop k zero attempt m last r e before stops h = elim (zero_least k h) [ ]
  attempts_stop zero (suc left) attempt m last r e before stops h =
      let here : m ≡ attempt = omega arith in
      settled_stop (op attempt) _ r (subst (λ i. Stops (op i) r) here stops)
  attempts_stop (suc k) (suc left) attempt m last r e before stops h =
      let last' = last_of fl config op (op attempt) in
      let rest = attempts fl config op left (suc attempt) last' in
      retried-Ends attempt (op attempt) rest r (suc k) (before attempt (omega arith) (omega arith))
        (attempts_stop k left (suc attempt) m last' r (omega arith)
          (λ j above below. before j (omega arith) below) stops (omega arith))

  give_up-Ends :
      (o : Attempt A E) (e : E)
      → o ≡ failure e
      → Ends (give_up fl config op (last_of fl config op o)) (raised e) 0
  unfolding give_up last_of Ends
  give_up-Ends (success a) e h = cc
  give_up-Ends (failure d) e h = let same : d ≡ e = cc in (ap raised same, refl)

  attempts_exhausted :
      (l attempt n : ℕ) (last : Option E) (e : E)
      → attempt + l ≡ n
      → ((j : ℕ) → attempt ≤ j → j ≤ n → fails (op j) ≡ true)
      → op n ≡ failure e
      → Ends (attempts fl config op (suc l) attempt last) (raised e) (suc l)
  unfolding attempts
  attempts_exhausted zero attempt n last e h all ends =
      let here : n ≡ attempt = omega arith in
      let ended : op attempt ≡ failure e = sym (ap op here) ∙ ends in
      retried-Ends attempt (op attempt) (give_up fl config op (last_of fl config op (op attempt)))
        (raised e) 0 (all attempt (omega arith) (omega arith)) (give_up-Ends (op attempt) e ended)
  attempts_exhausted (suc l) attempt n last e h all ends =
      let last' = last_of fl config op (op attempt) in
      let rest = attempts fl config op (suc l) (suc attempt) last' in
      retried-Ends attempt (op attempt) rest (raised e) (suc l)
        (all attempt (omega arith) (omega arith))
        (attempts_exhausted l (suc attempt) n last' e (omega arith)
          (λ j above below. all j (omega arith) below) ends)

  stop_from_start :
      (m l n : ℕ) (r : Result A E)
      → l ≡ suc n
      → m ≤ n
      → ((j : ℕ) → j < m → fails (op j) ≡ true)
      → Stops (op m) r
      → Ends (attempts fl config op l 0 none) r (suc m)
  stop_from_start m l n r h le before stops =
      attempts_stop m l 0 m none r (omega arith) (λ j above below. before j below) stops
        (omega arith)

  -- Where calls before number `m` fail with an exception that is retried, and number `m`, among the
  -- `max_retries + 1`, succeeds or fails with one that is not, the loop returns the value or raises the
  -- exception of number `m`, which is the last call.
  pub retry_async_operation_stop :
      (m n : ℕ) (r : Result A E)
      → config.max_retries ≡ pos n
      → m ≤ n
      → ((j : ℕ) → j < m → fails (op j) ≡ true)
      → Stops (op m) r
      → ((retry_async_operation fl config op).result ≡ r)
        × ((retry_async_operation fl config op).calls ≡ suc m)
  unfolding retry_async_operation tries Ends
  retry_async_operation_stop m n r e le before stops =
      stop_from_start m (tries config.max_retries) n r (ap tries e) le before stops

  -- Where every one of the `max_retries + 1` calls fails with an exception that is retried, all of them
  -- are made, and the last one's exception is raised.
  pub retry_async_operation_exhausted :
      (n : ℕ) (e : E)
      → config.max_retries ≡ pos n
      → ((j : ℕ) → j ≤ n → fails (op j) ≡ true)
      → op n ≡ failure e
      → ((retry_async_operation fl config op).result ≡ raised e)
        × ((retry_async_operation fl config op).calls ≡ suc n)
  unfolding retry_async_operation tries Ends
  retry_async_operation_exhausted n e h all ends =
      let l = tries config.max_retries in
      let start : tries config.max_retries ≡ suc n = ap tries h in
      subst (λ i. Ends (attempts fl config op i 0 none) (raised e) (suc n)) (sym start)
        (attempts_exhausted n 0 n none e (omega arith) (λ j above below. all j below) ends)
