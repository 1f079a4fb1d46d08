-- ===== src/Cache/History.antt =====
-- The cache against an ideal history that forgets nothing: whatever the calls, no call raises and
-- an entry that the cache holds is the last one stored under its key.
use mathlib.Core.List.{foldl}
use ctrlf_ai.Prelude.{
  some_inj, ℕ, suc, ◌+◌, ◌<◌, String, ◌≡◌, refl, sym, ap, ◌∙◌, Option, none, some, List, [], ◌∷◌,
  arith, Option-cases, Bool-cases, inl, inr, eq_iff, ◌=ˢ◌,
}
use ctrlf_ai.Prelude.Dict.{Dict, lookup, insert, lookup-insert, remove, lookup-remove}
use ctrlf_ai.Cache.{CacheEntry, TtlCache, init, read, get, set, clear}
use ctrlf_ai.Cache.Entries.{lookup-remove_self, lookup-concat_self, lookup-concat_ne}
use ctrlf_ai.Cache.Invariant.{IsValid, init-IsValid, get-IsValid, stored, stored-IsValid, set_lem}
use ctrlf_ai.Cache.Reads.{live, get-eq-view, lookup-stored, lookup-stored_self}

pub data Call {ℓ} (V : Type ℓ) : Type ℓ where
  get_at : ℕ → String → Call V
  set_at : ℕ → ℕ → String → V → Call V
  clear_all : Call V

module _ {ℓ} {V : Type ℓ} where
  unfoldable pub run : List (Call V) → TtlCache V → Option (TtlCache V)
  run [] c = some c
  run (get_at now key ∷ calls) c = run calls (get now key c).0
  run (set_at now later key value ∷ calls) c = elim (set now later key value c) [
    | none ↦ none
    | some c' ↦ run calls c'
  ]
  run (clear_all ∷ calls) c = run calls (clear c)

  -- The history: for each key, the last value stored and the time until which it is good.
  unfoldable pub note : ℕ → Dict (CacheEntry V) → Call V → Dict (CacheEntry V)
  note ttl h (get_at now key) = h
  note ttl h (set_at now later key value) =
      insert key (record { value = value; expires_at = later + ttl }) h
  note ttl h clear_all = []

  pub reads : List (Call V) → ℕ
  reads [] = 0
  reads (get_at now key ∷ calls) = suc (reads calls)
  reads (set_at now later key value ∷ calls) = reads calls
  reads (clear_all ∷ calls) = reads calls

  pub record Tracks (ttl : ℕ) (c : TtlCache V) (h : Dict (CacheEntry V)) : Type ℓ where
    pub valid : IsValid c
    pub same_ttl : c.ttl_seconds ≡ ttl
    pub known : (k : String) (e : CacheEntry V) → lookup k c.entries ≡ some e → lookup k h ≡ some e

  lookup-get :
      (now : ℕ) (key j : String) (c : TtlCache V) (e : CacheEntry V)
      → lookup j (get now key c).0.entries ≡ some e
      → lookup j c.entries ≡ some e
  unfolding get read
  lookup-get now key j c e h = elim (Option-cases (lookup key c.entries)) [
    | inl miss ↦ ground arith
    | inr (f, hit) ↦ ground (
      arith,
      eq_iff key j,
      lookup-remove key j c.entries,
      lookup-remove_self key c.entries,
      lookup-concat_self key f (remove key c.entries),
      lookup-concat_ne key j f (remove key c.entries),
    )
  ]

  Tracks-get :
      (ttl now : ℕ) (key : String) (c : TtlCache V) (h : Dict (CacheEntry V))
      → Tracks ttl c h
      → Tracks ttl (get now key c).0 h
  Tracks-get ttl now key c h t = record {
    valid = get-IsValid now key c t.valid;
    same_ttl = unfold get read in ground (arith, t.same_ttl);
    known = λ k e p. t.known k e (lookup-get now key k c e p);
  }

  stored-known :
      (ttl now later : ℕ) (key j : String) (value : V) (c : TtlCache V) (h : Dict (CacheEntry V))
      (e : CacheEntry V)
      → Tracks ttl c h
      → lookup j (stored now later key value c).entries ≡ some e
      → lookup j (insert key (record { value = value; expires_at = later + ttl }) h) ≡ some e
  stored-known ttl now later key j value c h e t p = elim (Bool-cases (key =ˢ j)) [
    | inl same ↦
        let q : key ≡ j = (eq_iff key j).0 same in
        rw (lookup-insert, same, ← t.same_ttl)
          (sym (lookup-stored_self now later key value c) ∙ rw (← q) at p)
    | inr other ↦
        rw (lookup-insert, other)
          (t.known j e
            (lookup-stored now later key j value c e t.valid (λ q. ground (arith, eq_iff key j)) p))
  ]

  Tracks-set :
      (ttl now later : ℕ) (key : String) (value : V) (c : TtlCache V) (h : Dict (CacheEntry V))
      → Tracks ttl c h
      → Tracks ttl (stored now later key value c) (note ttl h (set_at now later key value))
  unfolding note
  Tracks-set ttl now later key value c h t = record {
    valid = stored-IsValid now later key value c t.valid;
    same_ttl = t.same_ttl;
    known = λ k e p. stored-known ttl now later key k value c h e t p;
  }

  Tracks-clear :
      (ttl : ℕ) (c : TtlCache V) (h : Dict (CacheEntry V))
      → Tracks ttl c h
      → Tracks ttl (clear c) (note ttl h clear_all)
  unfolding note clear
  Tracks-clear ttl c h t = record {
    valid = record { positive = t.valid.positive; bounded = omega arith; distinct = tt };
    same_ttl = t.same_ttl;
    known = λ k e p. p;
  }

  counters-get :
      (now : ℕ) (key : String) (c : TtlCache V)
      → (get now key c).0.hits + (get now key c).0.misses ≡ suc (c.hits + c.misses)
  unfolding get read
  counters-get now key c = ground arith

  run_from :
      (ttl : ℕ) (calls : List (Call V)) (c : TtlCache V) (h : Dict (CacheEntry V))
      → Tracks ttl c h
      → (c' : TtlCache V) × (run calls c ≡ some c')
        × Tracks ttl c' (foldl (note ttl) h calls)
        × (c'.hits + c'.misses ≡ c.hits + c.misses + reads calls)
  unfolding run reads note clear
  run_from ttl [] c h t = (c, refl, t, omega arith)
  run_from ttl (get_at now key ∷ calls) c h t =
      let (c', runs, tracks, counted) =
        run_from ttl calls (get now key c).0 h (Tracks-get ttl now key c h t) in
      (c', runs, tracks, omega (arith, counted, counters-get now key c))
  run_from ttl (set_at now later key value ∷ calls) c h t =
      rw (run, set_lem now later key value c t.valid.positive)
        (run_from ttl calls (stored now later key value c) _
          (Tracks-set ttl now later key value c h t))
  run_from ttl (clear_all ∷ calls) c h t = run_from ttl calls (clear c) _ (Tracks-clear ttl c h t)

  Tracks-init : (maxsize ttl : ℕ) → 0 < maxsize → Tracks ttl (init maxsize ttl) []
  unfolding init
  Tracks-init maxsize ttl p = record {
    valid = init-IsValid maxsize ttl p;
    same_ttl = refl;
    known = λ k e q. q;
  }

  get_sound :
      (now : ℕ) (key : String) (c : TtlCache V) (h : Dict (CacheEntry V)) (v : V)
      → ((k : String) (e : CacheEntry V) → lookup k c.entries ≡ some e → lookup k h ≡ some e)
      → (get now key c).1 ≡ some v
      → live now (lookup key h) ≡ some v
  get_sound now key c h v known found = elim (Option-cases (lookup key c.entries)) [
    | inl miss ↦ ground (arith, get-eq-view now key c)
    | inr (e, hit) ↦ ground (arith, get-eq-view now key c, known key e)
  ]

  -- From a new cache of positive capacity no sequence of calls raises. Afterwards the cache is
  -- within its capacity with no key twice, and hits and misses add up to the number of reads.
  pub run_sound :
      (maxsize ttl : ℕ) (calls : List (Call V))
      → 0 < maxsize
      → (c : TtlCache V) × (run calls (init maxsize ttl) ≡ some c)
        × IsValid c
        × (c.hits + c.misses ≡ reads calls)
  run_sound maxsize ttl calls p =
      let (c, runs, tracks, counted) =
        run_from ttl calls (init maxsize ttl) [] (Tracks-init maxsize ttl p) in
      (c, runs, tracks.valid, unfold init in counted ∙ omega arith)

  -- After any calls on a new cache of positive capacity, a `get` that finds a value finds the last
  -- one that was stored under its key since the last `clear`, within its lifetime.
  pub run_reads :
      (maxsize ttl now : ℕ) (key : String) (calls : List (Call V)) (c : TtlCache V) (v : V)
      → 0 < maxsize
      → run calls (init maxsize ttl) ≡ some c
      → (get now key c).1 ≡ some v
      → live now (lookup key (foldl (note ttl) [] calls)) ≡ some v
  run_reads maxsize ttl now key calls c v p ran found =
      let (c', runs, tracks, counted) =
        run_from ttl calls (init maxsize ttl) [] (Tracks-init maxsize ttl p) in
      let same : c ≡ c' = some_inj (sym ran ∙ runs) in
      get_sound now key c' (foldl (note ttl) [] calls) v tracks.known
        (ap (λ x. (get now key x).1) (sym same) ∙ found)
