-- ===== src/Metrics/History.antt =====
-- The collector against the calls it has had.
use mathlib.Core.List.{Memᴰ}
use ctrlf_ai.Prelude.{
  ℕ, suc, ◌+◌, ◌≤◌, String, ◌≡◌, refl, sym, subst, Bool-cases, inl, inr, ltb, ltb→lt, Option, none,
  some, List, [], ◌∷◌, if◌then◌else◌, ◌=ˢ◌, length, All, arith, eq_iff,
}
use ctrlf_ai.Prelude.Dict.{Dict, lookup, insert, lookup-insert}
use ctrlf_ai.Metrics.{
  LatencyStats, is_lower, is_higher, record_ms, MetricsCollector, init, counted, increment,
  stats_of, increment_error, increment_retry, record_latency, increment_request, reset,
}

pub data Call : Type 0 where
  errs : String → Call
  retries : String → Call
  takes : String → ℕ → Call
  requests : String → Call
  resets : Call

abbrev pub step : Call → MetricsCollector → MetricsCollector
step (errs error_tag) = increment_error error_tag
step (retries service) = increment_retry service
step (takes service latency_ms) = record_latency service latency_ms
step (requests route) = increment_request route
step resets = reset

-- The calls stand with the last one first.
unfoldable pub run : List Call → MetricsCollector
run [] = init
run (c ∷ earlier) = step c (run earlier)

-- Those after the last `reset`
abbrev pub recent : List Call → List Call
recent [] = []
recent (errs tag ∷ earlier) = errs tag ∷ recent earlier
recent (retries service ∷ earlier) = retries service ∷ recent earlier
recent (takes service ms ∷ earlier) = takes service ms ∷ recent earlier
recent (requests route ∷ earlier) = requests route ∷ recent earlier
recent (resets ∷ earlier) = []

abbrev pub errors_in : String → List Call → ℕ
errors_in key [] = 0
errors_in key (errs tag ∷ calls) =
    let rest = errors_in key calls in if tag =ˢ key then suc rest else rest
errors_in key (retries service ∷ calls) = errors_in key calls
errors_in key (takes service ms ∷ calls) = errors_in key calls
errors_in key (requests route ∷ calls) = errors_in key calls
errors_in key (resets ∷ calls) = errors_in key calls

abbrev pub retries_in : String → List Call → ℕ
retries_in key [] = 0
retries_in key (errs tag ∷ calls) = retries_in key calls
retries_in key (retries service ∷ calls) =
    let rest = retries_in key calls in if service =ˢ key then suc rest else rest
retries_in key (takes service ms ∷ calls) = retries_in key calls
retries_in key (requests route ∷ calls) = retries_in key calls
retries_in key (resets ∷ calls) = retries_in key calls

abbrev pub requests_in : String → List Call → ℕ
requests_in key [] = 0
requests_in key (errs tag ∷ calls) = requests_in key calls
requests_in key (retries service ∷ calls) = requests_in key calls
requests_in key (takes service ms ∷ calls) = requests_in key calls
requests_in key (requests route ∷ calls) =
    let rest = requests_in key calls in if route =ˢ key then suc rest else rest
requests_in key (resets ∷ calls) = requests_in key calls

abbrev pub latencies_in : String → List Call → List ℕ
latencies_in key [] = []
latencies_in key (errs tag ∷ calls) = latencies_in key calls
latencies_in key (retries service ∷ calls) = latencies_in key calls
latencies_in key (takes service ms ∷ calls) =
    let rest = latencies_in key calls in if service =ˢ key then ms ∷ rest else rest
latencies_in key (requests route ∷ calls) = latencies_in key calls
latencies_in key (resets ∷ calls) = latencies_in key calls

abbrev pub sum_of : List ℕ → ℕ
sum_of [] = 0
sum_of (n ∷ ns) = sum_of ns + n

-- An element of the list that bounds it from below; none for the empty list
abbrev pub IsLeast : List ℕ → Option ℕ → Type 0
IsLeast ns none = ns ≡ []
IsLeast ns (some n) = Memᴰ n ns × All (λ m. n ≤ m) ns

abbrev pub IsMost : List ℕ → Option ℕ → Type 0
IsMost ns none = ns ≡ []
IsMost ns (some n) = Memᴰ n ns × All (λ m. m ≤ n) ns

pub record Summarizes (ns : List ℕ) (s : LatencyStats) : Type 0 where
  pub count : s.count ≡ length ns
  pub total : s.total_ms ≡ sum_of ns
  pub least : IsLeast ns s.min_ms
  pub most : IsMost ns s.max_ms

pub record Tracks (calls : List Call) (m : MetricsCollector) : Type 0 where
  pub errors : (key : String) → counted key m.error_counts ≡ errors_in key calls
  pub retried : (key : String) → counted key m.retry_counts ≡ retries_in key calls
  pub requested : (key : String) → counted key m.request_counts ≡ requests_in key calls
  pub latencies :
      (key : String) → Summarizes (latencies_in key calls) (stats_of key m.latency_stats)

counted-increment :
    (key asked : String) (counts : Dict ℕ)
    → counted asked (increment key counts)
      ≡ (if key =ˢ asked then suc (counted asked counts) else counted asked counts)
unfolding counted increment
counted-increment key asked counts =
    ground (arith, lookup-insert key asked (suc (counted key counts)) counts, eq_iff key asked)

stats_of-insert :
    (service asked : String) (s : LatencyStats) (stats : Dict LatencyStats)
    → stats_of asked (insert service s stats)
      ≡ (if service =ˢ asked then s else stats_of asked stats)
unfolding stats_of
stats_of-insert service asked s stats = ground (arith, lookup-insert service asked s stats)

All-le : (n m : ℕ) (ns : List ℕ) → n ≤ m → All (λ k. m ≤ k) ns → All (λ k. n ≤ k) ns
All-le n m [] h hs = hs
All-le n m (k ∷ ns) h hs = (omega (arith, h, hs.0), All-le n m ns h hs.1)

All-ge : (n m : ℕ) (ns : List ℕ) → m ≤ n → All (λ k. k ≤ m) ns → All (λ k. k ≤ n) ns
All-ge n m [] h hs = hs
All-ge n m (k ∷ ns) h hs = (omega (arith, h, hs.0), All-ge n m ns h hs.1)

lower-IsLeast :
    (n : ℕ) (ns : List ℕ) (o : Option ℕ)
    → IsLeast ns o
    → IsLeast (n ∷ ns) (if is_lower n o then some n else o)
unfolding is_lower
lower-IsLeast n ns none h = (Memᴰ.head refl, (omega arith, subst (All (λ m. n ≤ m)) (sym h) tt))
lower-IsLeast n ns (some m) h = elim (Bool-cases (ltb n m)) [
  | inl lower ↦
      rw lower (Memᴰ.head refl, (omega arith, All-le n m ns (ground (arith, ltb→lt n m lower)) h.1))
  | inr other ↦ rw other (Memᴰ.tail h.0, (ground arith, h.1))
]

higher-IsMost :
    (n : ℕ) (ns : List ℕ) (o : Option ℕ)
    → IsMost ns o
    → IsMost (n ∷ ns) (if is_higher n o then some n else o)
unfolding is_higher
higher-IsMost n ns none h = (Memᴰ.head refl, (omega arith, subst (All (λ m. m ≤ n)) (sym h) tt))
higher-IsMost n ns (some m) h = elim (Bool-cases (ltb m n)) [
  | inl higher ↦
      rw higher
        (Memᴰ.head refl, (omega arith, All-ge n m ns (ground (arith, ltb→lt m n higher)) h.1))
  | inr other ↦ rw other (Memᴰ.tail h.0, (ground arith, h.1))
]

record_ms-Summarizes :
    (n : ℕ) (ns : List ℕ) (s : LatencyStats) → Summarizes ns s → Summarizes (n ∷ ns) (record_ms n s)
unfolding record_ms
record_ms-Summarizes n ns s h = record {
  count = omega (arith, h.count);
  total = omega (arith, h.total);
  least = lower-IsLeast n ns s.min_ms h.least;
  most = higher-IsMost n ns s.max_ms h.most;
}

init-Tracks : Tracks [] init
unfolding counted stats_of lookup
init-Tracks = record {
  errors = λ key. refl;
  retried = λ key. refl;
  requested = λ key. refl;
  latencies = λ key. record { count = refl; total = refl; least = refl; most = refl };
}

taken :
    (service key : String) (n : ℕ) (calls : List Call) (m : MetricsCollector)
    → Tracks calls m
    → Summarizes
        (latencies_in key (takes service n ∷ calls))
        (stats_of key (record_latency service n m).latency_stats)
unfolding record_latency
taken service key n calls m h = elim (Bool-cases (service =ˢ key)) [
  | inl same ↦
      let q : service ≡ key = (eq_iff service key).0 same in
      rw (stats_of-insert, same, q)
        (record_ms-Summarizes n (latencies_in key calls) (stats_of key m.latency_stats)
          (h.latencies key))
  | inr other ↦ rw (stats_of-insert, other) (h.latencies key)
]

-- After any calls on a new collector, each of its counters is the number of the calls under its
-- key since the last `reset`, and the statistics of each service are the number and the sum of the
-- latencies that were recorded for it since, the least of them and the greatest.
pub run-Tracks : (calls : List Call) → Tracks (recent calls) (run calls)
unfolding run increment_error increment_retry record_latency increment_request reset
run-Tracks [] = init-Tracks
run-Tracks (errs tag ∷ earlier) =
    let h = run-Tracks earlier in
    record {
      errors = λ key. rw (counted-increment, h.errors) refl;
      retried = h.retried;
      requested = h.requested;
      latencies = h.latencies;
    }
run-Tracks (retries service ∷ earlier) =
    let h = run-Tracks earlier in
    record {
      errors = h.errors;
      retried = λ key. rw (counted-increment, h.retried) refl;
      requested = h.requested;
      latencies = h.latencies;
    }
run-Tracks (takes service ms ∷ earlier) =
    let h = run-Tracks earlier in
    record {
      errors = h.errors;
      retried = h.retried;
      requested = h.requested;
      latencies = λ key. taken service key ms (recent earlier) (run earlier) h;
    }
run-Tracks (requests route ∷ earlier) =
    let h = run-Tracks earlier in
    record {
      errors = h.errors;
      retried = h.retried;
      requested = λ key. rw (counted-increment, h.requested) refl;
      latencies = h.latencies;
    }
run-Tracks (resets ∷ earlier) = init-Tracks
