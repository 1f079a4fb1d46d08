-- ===== src/Cache/Reads.antt =====
-- What a client can read: the value of a key at a time, and what `get` and `set` do to it.
use ctrlf_ai.Prelude.{
  ℕ, ◌+◌, ◌≤◌, ◌<◌, String, ◌≡◌, ◌≢◌, Option, none, some, arith, ltb, if◌then◌else◌, Option-cases,
  inl, inr, eq_iff, drop,
}
use ctrlf_ai.Prelude.Dict.{lookup, remove, lookup-remove}
use ctrlf_ai.Cache.{CacheEntry, TtlCache, is_expired, evict_expired, read, get, kept, set}
use ctrlf_ai.Cache.Entries.{
  Distinct, lookup-remove_self, lookup-concat_self, lookup-concat_ne, lookup-drop-none, lookup-drop,
  lookup-evict_expired,
}
use ctrlf_ai.Cache.Invariant.{IsValid, stored, set_lem, excess, kept-Distinct, lookup-kept_self}

module _ {ℓ} {V : Type ℓ} where
  abbrev pub live : ℕ → Option (CacheEntry V) → Option V
  live now none = none
  live now (some e) = if is_expired now e then none else some e.value

  -- The value of a key at a time: that of its entry, unless it has expired.
  abbrev pub view : ℕ → String → TtlCache V → Option V
  view now key c = live now (lookup key c.entries)

  pub get-eq-view : (now : ℕ) (key : String) (c : TtlCache V) → (get now key c).1 ≡ view now key c
  unfolding get
  get-eq-view now key c = ground arith

  view-read :
      (now t : ℕ) (key j : String) (c : TtlCache V) (e : CacheEntry V)
      → now ≤ t
      → lookup key c.entries ≡ some e
      → view t j (read now key (some e) c).0 ≡ view t j c
  unfolding read
  view-read now t key j c e later hit = ground (
    arith,
    eq_iff key j,
    lookup-remove key j c.entries,
    lookup-remove_self key c.entries,
    lookup-concat_self key e (remove key c.entries),
    lookup-concat_ne key j e (remove key c.entries),
  )

  -- A read changes the order of the entries and drops an expired one, and no read at the same time
  -- or later can tell.
  pub view-get :
      (now t : ℕ) (key j : String) (c : TtlCache V)
      → now ≤ t
      → view t j (get now key c).0 ≡ view t j c
  unfolding get
  view-get now t key j c later = elim (Option-cases (lookup key c.entries)) [
    | inl miss ↦ rw (miss, read)
    | inr (e, hit) ↦ rw hit (view-read now t key j c e later hit)
  ]

  pub lookup-stored_self :
      (now later : ℕ) (key : String) (value : V) (c : TtlCache V)
      → lookup key (stored now later key value c).entries
        ≡ some (record { value = value; expires_at = later + c.ttl_seconds })
  lookup-stored_self now later key value c =
      lookup-concat_self key _ (drop (excess now later key c) (kept now key c)) (
        lookup-drop-none (excess now later key c) key (kept now key c) (lookup-kept_self now key c))

  -- With a positive capacity `set` does not raise, and a `get` of the same key at any time returns
  -- the value exactly until the lifetime is over.
  pub get-set_self :
      (now later t : ℕ) (key : String) (value : V) (c : TtlCache V)
      → 0 < c.maxsize
      → (c' : TtlCache V) × (set now later key value c ≡ some c')
        × ((get t key c').1 ≡ (if ltb (later + c.ttl_seconds) t then none else some value))
  get-set_self now later t key value c p = (
    stored now later key value c,
    set_lem now later key value c p,
    rw get-eq-view (rw lookup-stored_self),
  )

  lookup-kept :
      (now : ℕ) (key j : String) (c : TtlCache V) (e : CacheEntry V)
      → Distinct c.entries
      → lookup j (kept now key c) ≡ some e
      → lookup j c.entries ≡ some e
  unfolding kept
  lookup-kept now key j c e d h = ground (
    arith,
    lookup-remove key j c.entries,
    lookup-remove key j (evict_expired now c.entries),
    lookup-evict_expired now j c.entries d,
  )

  -- What another key shows after a `set` it showed before.
  pub lookup-stored :
      (now later : ℕ) (key j : String) (value : V) (c : TtlCache V) (e : CacheEntry V)
      → IsValid c
      → j ≢ key
      → lookup j (stored now later key value c).entries ≡ some e
      → lookup j c.entries ≡ some e
  lookup-stored now later key j value c e v ne h = lookup-kept now key j c e v.distinct (
      lookup-drop (excess now later key c) j (kept now key c) e (kept-Distinct now key c v.distinct)
        (rw
          (lookup-concat_ne key j (record { value = value; expires_at = later + c.ttl_seconds })
            (drop (excess now later key c) (kept now key c)) ne)
          at h))
