-- ===== src/Cache/Entries.antt =====
-- Lemmas on the ordered entries: absence of a key, removal, the clean-up and the eviction loop.
use ctrlf_ai.Prelude.{
  ℕ, zero, suc, ◌+◌, ◌-◌, ◌≤◌, ◌<◌, String, ◌≡◌, refl, ◌≢◌, false, none, some, [], ◌∷◌, ◌++◌, arith,
  eq_iff, leb, if◌then◌else◌, length, drop, inl, inr, Bool-cases, leb→le,
}
use ctrlf_ai.Prelude.Dict.{Dict, lookup, remove}
use ctrlf_ai.Cache.{CacheEntry, is_expired, evict_expired, evict_lru}

module _ {ℓ} {V : Type ℓ} where
  -- Every key stands once.
  abbrev pub Distinct : Dict V → Type ℓ
  Distinct [] = Unit
  Distinct ((k, v) ∷ m) = (lookup k m ≡ none) × Distinct m

  pub length-remove : (k : String) (m : Dict V) → length (remove k m) ≤ length m
  unfolding remove
  length-remove k [] = omega arith
  length-remove k ((j, v) ∷ m) = ground (arith, length-remove k m)

  pub length-remove_found :
      (k : String) (m : Dict V) (v : V) → lookup k m ≡ some v → length (remove k m) + 1 ≤ length m
  unfolding lookup remove
  length-remove_found k [] v h = cc
  length-remove_found k ((j, w) ∷ m) v h =
      ground (arith, length-remove_found k m v, length-remove k m)

  pub lookup-remove_self : (k : String) (m : Dict V) → lookup k (remove k m) ≡ none
  unfolding lookup remove
  lookup-remove_self k [] = refl
  lookup-remove_self k ((j, v) ∷ m) = ground (arith, lookup-remove_self k m)

  pub lookup-remove-none :
      (k j : String) (m : Dict V) → lookup j m ≡ none → lookup j (remove k m) ≡ none
  unfolding lookup remove
  lookup-remove-none k j [] h = refl
  lookup-remove-none k j ((i, v) ∷ m) h = ground (arith, lookup-remove-none k j m)

  pub remove-Distinct : (k : String) (m : Dict V) → Distinct m → Distinct (remove k m)
  unfolding remove
  remove-Distinct k [] d = d
  remove-Distinct k ((j, v) ∷ m) d =
      ground (arith, remove-Distinct k m d.1, lookup-remove-none k j m d.0)

  pub lookup-concat_none :
      (k j : String) (v : V) (m : Dict V)
      → lookup j m ≡ none
      → j ≢ k
      → lookup j (m ++ (k, v) ∷ []) ≡ none
  unfolding lookup
  lookup-concat_none k j v [] h ne = ground (arith, eq_iff k j)
  lookup-concat_none k j v ((i, w) ∷ m) h ne = ground (arith, lookup-concat_none k j v m)

  pub lookup-concat_ne :
      (k j : String) (v : V) (m : Dict V) → j ≢ k → lookup j (m ++ (k, v) ∷ []) ≡ lookup j m
  unfolding lookup
  lookup-concat_ne k j v [] ne = ground (arith, eq_iff k j)
  lookup-concat_ne k j v ((i, w) ∷ m) ne = ground (arith, lookup-concat_ne k j v m)

  pub lookup-concat_self :
      (k : String) (v : V) (m : Dict V) → lookup k m ≡ none → lookup k (m ++ (k, v) ∷ []) ≡ some v
  unfolding lookup
  lookup-concat_self k v [] h = ground (arith, eq_iff k k)
  lookup-concat_self k v ((i, w) ∷ m) h = ground (arith, lookup-concat_self k v m)

  pub concat-Distinct :
      (k : String) (v : V) (m : Dict V)
      → Distinct m
      → lookup k m ≡ none
      → Distinct (m ++ (k, v) ∷ [])
  unfolding lookup
  concat-Distinct k v [] d h = (refl, tt)
  concat-Distinct k v ((j, w) ∷ m) d h =
      ground (arith, concat-Distinct k v m d.1, lookup-concat_none k j v m d.0, eq_iff j k)

  pub lookup-drop-none :
      (n : ℕ) (k : String) (m : Dict V) → lookup k m ≡ none → lookup k (drop n m) ≡ none
  unfolding lookup
  lookup-drop-none zero k m h = h
  lookup-drop-none (suc n) k [] h = h
  lookup-drop-none (suc n) k ((j, v) ∷ m) h = lookup-drop-none n k m (ground arith)

  pub drop-Distinct : (n : ℕ) (m : Dict V) → Distinct m → Distinct (drop n m)
  drop-Distinct zero m d = d
  drop-Distinct (suc n) [] d = d
  drop-Distinct (suc n) ((j, v) ∷ m) d = drop-Distinct n m d.1

  -- What survives the removal of the oldest entries was there before.
  pub lookup-drop :
      (n : ℕ) (k : String) (m : Dict V) (v : V)
      → Distinct m
      → lookup k (drop n m) ≡ some v
      → lookup k m ≡ some v
  unfolding lookup
  lookup-drop zero k m v d h = h
  lookup-drop (suc n) k [] v d h = h
  lookup-drop (suc n) k ((j, w) ∷ m) v d h = ground (arith, lookup-drop n k m v d.1 h, eq_iff j k)

module _ {ℓ} {V : Type ℓ} (now : ℕ) where
  pub length-evict_expired : (m : Dict (CacheEntry V)) → length (evict_expired now m) ≤ length m
  unfolding evict_expired
  length-evict_expired [] = omega arith
  length-evict_expired ((j, e) ∷ m) = ground (arith, length-evict_expired m)

  pub lookup-evict_expired-none :
      (k : String) (m : Dict (CacheEntry V))
      → lookup k m ≡ none
      → lookup k (evict_expired now m) ≡ none
  unfolding lookup evict_expired
  lookup-evict_expired-none k [] h = refl
  lookup-evict_expired-none k ((j, e) ∷ m) h = ground (arith, lookup-evict_expired-none k m)

  pub evict_expired-Distinct :
      (m : Dict (CacheEntry V)) → Distinct m → Distinct (evict_expired now m)
  unfolding evict_expired
  evict_expired-Distinct [] d = d
  evict_expired-Distinct ((j, e) ∷ m) d =
      ground (arith, evict_expired-Distinct m d.1, lookup-evict_expired-none j m d.0)

  -- The clean-up hides exactly the expired entries.
  pub lookup-evict_expired :
      (k : String) (m : Dict (CacheEntry V))
      → Distinct m
      → lookup k (evict_expired now m)
        ≡ (elim (lookup k m) [ none ↦ none | some e ↦ if is_expired now e then none else some e ])
  unfolding lookup evict_expired
  lookup-evict_expired k [] d = refl
  lookup-evict_expired k ((j, e) ∷ m) d =
      ground (arith, lookup-evict_expired k m d.1, lookup-evict_expired-none k m, d.0, eq_iff j k)

no_excess : (n k : ℕ) → leb n k ≡ false → k + 1 - n ≡ 0
no_excess n k h = ground arith

-- The loop ends without KeyError when the capacity is positive, and what it leaves is the list
-- without its oldest entries, as many as needed to make room for one.
pub evict_lru_lem {ℓ} :
    {V : Type ℓ} (maxsize : ℕ) (m : Dict (CacheEntry V))
    → 0 < maxsize
    → evict_lru maxsize m ≡ some (drop (length m + 1 - maxsize) m)
unfolding evict_lru
evict_lru_lem zero m h = absurd (omega arith)
evict_lru_lem (suc c) [] h = ground arith
evict_lru_lem (suc c) (e ∷ m) h = elim (Bool-cases (leb (suc c) (length (e ∷ m)))) [
  | inl full ↦
      let some_more : length (e ∷ m) + 1 - suc c ≡ suc (length m + 1 - suc c) =
        omega (arith, leb→le (suc c) (length (e ∷ m)) full) in
      rw (full, some_more) (evict_lru_lem (suc c) m h)
  | inr room ↦ rw (room, no_excess (suc c) (length (e ∷ m)) room)
]
