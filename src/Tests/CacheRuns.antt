-- ===== src/Tests/CacheRuns.antt =====
-- A cache of two entries that live for ten seconds.
use ctrlf_ai.Prelude.{ℕ, ◌+◌, ltb, if◌then◌else◌, none, some, List, [], ◌∷◌, ◌≡◌, refl, arith}
use ctrlf_ai.Prelude.Dict.{lookup, insert, remove}
use mathlib.Core.List.{foldl}
use ctrlf_ai.Cache.{TtlCache, init, get, set, evict_expired, evict_lru, read, kept}
use ctrlf_ai.Cache.Invariant.{IsValid}
use ctrlf_ai.Cache.Reads.{get-set_self, live}
use ctrlf_ai.Cache.History.{Call, get_at, set_at, run, note, reads, run_sound, run_reads}

abbrev calls : List (Call ℕ)
calls = set_at 0 0 "a" 1 ∷ set_at 1 1 "b" 2 ∷ get_at 2 "a" ∷ set_at 3 3 "c" 3 ∷ []

abbrev blank : TtlCache ℕ
blank = init 2 10

abbrev filled : TtlCache ℕ
filled = elim (run calls blank) [ some c ↦ c | none ↦ blank ]

runs : run calls (init 2 10) ≡ some filled
unfolding run set evict_expired evict_lru kept read get lookup insert remove init
runs = refl

-- The read of `a` saves it from the eviction.
keeps : (get 4 "a" filled).1 ≡ some 1
unfolding run set evict_expired evict_lru kept read get lookup insert remove init
keeps = refl

evicts : (get 4 "b" filled).1 ≡ none
unfolding run set evict_expired evict_lru kept read get lookup insert remove init
evicts = refl

run_sound_example :
    (c : TtlCache ℕ) × (run calls (init 2 10) ≡ some c)
    × IsValid c
    × (c.hits + c.misses ≡ reads calls)
run_sound_example = run_sound 2 10 calls (omega arith)

run_reads_example : live 4 (lookup "a" (foldl (note 10) [] calls)) ≡ some 1
run_reads_example = run_reads 2 10 4 "a" calls filled 1 (omega arith) runs keeps

get-set_self_example :
    (c : TtlCache ℕ) × (set 5 5 "d" 4 (init 2 10) ≡ some c)
    × ((get 20 "d" c).1 ≡ (if ltb (5 + 10) 20 then none else some 4))
unfolding init
get-set_self_example = get-set_self 5 5 20 "d" 4 (init 2 10) (omega arith)
