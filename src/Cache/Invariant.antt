-- ===== src/Cache/Invariant.antt =====
-- Well-formedness of the cache: no key twice, at most `maxsize` entries. What `set` leaves.
use ctrlf_ai.Prelude.{
  ℕ, ◌+◌, ◌-◌, ◌%◌, ◌==◌, ◌≤◌, ◌<◌, String, ◌≡◌, none, some, [], ◌∷◌, ◌++◌, arith, length, drop,
  length-append, length-drop, Option-cases, Bool-cases, inl, inr,
}
use ctrlf_ai.Prelude.Dict.{lookup, remove}
use ctrlf_ai.Cache.{CacheEntry, TtlCache, init, is_expired, read, get, kept, set}
use ctrlf_ai.Cache.Entries.{
  Distinct, length-remove, length-remove_found, lookup-remove_self, remove-Distinct,
  concat-Distinct, drop-Distinct, evict_expired-Distinct, evict_lru_lem, lookup-drop-none,
}

pub record IsValid {ℓ} {V : Type ℓ} (c : TtlCache V) : Type ℓ where
  pub positive : 0 < c.maxsize
  pub bounded : length c.entries ≤ c.maxsize
  pub distinct : Distinct c.entries

module _ {ℓ} {V : Type ℓ} where
  pub init-IsValid : (maxsize ttl : ℕ) → 0 < maxsize → IsValid (init {V = V} maxsize ttl)
  unfolding init
  init-IsValid maxsize ttl h = record { positive = h; bounded = omega arith; distinct = tt }

  -- The number of oldest entries that `set` has to drop.
  abbrev pub excess : ℕ → ℕ → String → TtlCache V → ℕ
  excess now later key c = length (kept now key c) + 1 - c.maxsize

  abbrev pub stored : ℕ → ℕ → String → V → TtlCache V → TtlCache V
  stored now later key value c = record c {
    entries =
        drop (excess now later key c) (kept now key c)
        ++ (key, record { value = value; expires_at = later + c.ttl_seconds }) ∷ [];
  }

  -- With a positive capacity `set` never raises: it drops the oldest of the kept entries, just as
  -- many as needed, and puts the new entry last.
  pub set_lem :
      (now later : ℕ) (key : String) (value : V) (c : TtlCache V)
      → 0 < c.maxsize
      → set now later key value c ≡ some (stored now later key value c)
  unfolding set
  set_lem now later key value c h = rw (set, evict_lru_lem c.maxsize (kept now key c) h)

  pub kept-Distinct :
      (now : ℕ) (key : String) (c : TtlCache V) → Distinct c.entries → Distinct (kept now key c)
  unfolding kept
  kept-Distinct now key c d =
      remove-Distinct key _ (elim (Bool-cases ((length c.entries % 100) == 0)) [
        | inl e ↦ rw e (evict_expired-Distinct now c.entries d)
        | inr e ↦ rw e d
      ])

  pub lookup-kept_self :
      (now : ℕ) (key : String) (c : TtlCache V) → lookup key (kept now key c) ≡ none
  unfolding kept
  lookup-kept_self now key c = lookup-remove_self key _

  pub stored-IsValid :
      (now later : ℕ) (key : String) (value : V) (c : TtlCache V)
      → IsValid c
      → IsValid (stored now later key value c)
  stored-IsValid now later key value c v = record {
    positive = v.positive;
    bounded = omega (
      arith,
      length-append (drop (excess now later key c) (kept now key c)) (_ ∷ []),
      length-drop (excess now later key c) (kept now key c),
    );
    distinct =
        concat-Distinct key _ _ (drop-Distinct _ _ (kept-Distinct now key c v.distinct))
          (lookup-drop-none _ key _ (lookup-kept_self now key c));
  }

  read-IsValid :
      (now : ℕ) (key : String) (c : TtlCache V) (e : CacheEntry V)
      → IsValid c
      → lookup key c.entries ≡ some e
      → IsValid (read now key (some e) c).0
  unfolding read
  read-IsValid now key c e v hit = elim (Bool-cases (is_expired now e)) [
    | inl old ↦ rw old (record {
      positive = v.positive;
      bounded = omega (arith, length-remove key c.entries, v.bounded);
      distinct = remove-Distinct key c.entries v.distinct;
    })
    | inr fresh ↦ rw fresh (record {
      positive = v.positive;
      bounded = omega (
        arith,
        length-append (remove key c.entries) ((key, e) ∷ []),
        length-remove_found key c.entries e hit,
        v.bounded,
      );
      distinct =
          concat-Distinct key e _ (remove-Distinct key c.entries v.distinct)
            (lookup-remove_self key c.entries);
    })
  ]

  pub get-IsValid :
      (now : ℕ) (key : String) (c : TtlCache V) → IsValid c → IsValid (get now key c).0
  unfolding get
  get-IsValid now key c v = elim (Option-cases (lookup key c.entries)) [
    | inl miss ↦
        rw (miss, read)
          (record { positive = v.positive; bounded = v.bounded; distinct = v.distinct })
    | inr (e, hit) ↦ rw hit (read-IsValid now key c e v hit)
  ]
