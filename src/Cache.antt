-- ===== src/Cache.antt =====
-- The TTL + LRU cache of app/utils/cache.py. The OrderedDict is an association list, oldest entry
-- first; each call of `time.time()` is an argument, in ticks. Logging and the asyncio lock, which
-- only wraps `get` and `set`, are left out.
use ctrlf_ai.Prelude.{
  ℕ, ◌+◌, ◌%◌, String, Bool, true, false, Option, none, some, List, [], ◌∷◌, ◌++◌, ltb, leb, ◌==◌,
  if◌then◌else◌, length,
}
use ctrlf_ai.Prelude.Dict.{Dict, lookup, remove}
pub mod Entries
pub mod Invariant
pub mod Reads
pub mod History

pub record CacheEntry {ℓ} (V : Type ℓ) : Type ℓ where
  pub value : V
  pub expires_at : ℕ

pub record TtlCache {ℓ} (V : Type ℓ) : Type ℓ where
  pub maxsize : ℕ
  pub ttl_seconds : ℕ
  pub entries : Dict (CacheEntry V)
  pub hits : ℕ
  pub misses : ℕ

module _ {ℓ} {V : Type ℓ} where
  -- `__init__`
  unfoldable pub init : ℕ → ℕ → TtlCache V
  init maxsize ttl = record {
    maxsize = maxsize;
    ttl_seconds = ttl;
    entries = [];
    hits = 0;
    misses = 0;
  }

  abbrev pub is_expired : ℕ → CacheEntry V → Bool
  is_expired now entry = ltb entry.expires_at now

  -- `_evict_expired`: the entries that stay.
  unfoldable pub evict_expired : ℕ → Dict (CacheEntry V) → Dict (CacheEntry V)
  evict_expired now [] = []
  evict_expired now ((k, e) ∷ m) =
      let rest = evict_expired now m in if is_expired now e then rest else (k, e) ∷ rest

  -- `_evict_lru`: `none` is the KeyError of `popitem` on an empty dict.
  unfoldable pub evict_lru : ℕ → Dict (CacheEntry V) → Option (Dict (CacheEntry V))
  evict_lru maxsize [] = if leb maxsize 0 then none else some []
  evict_lru maxsize (e ∷ m) =
      let rest = evict_lru maxsize m in if leb maxsize (length (e ∷ m)) then rest else some (e ∷ m)

  -- What `get` does once the entry has been looked up.
  unfoldable pub read : ℕ → String → Option (CacheEntry V) → TtlCache V → TtlCache V × Option V
  read now key none c = (record c { misses = c.misses + 1 }, none)
  read now key (some entry) c =
      if is_expired now entry
      then (record c { entries = remove key c.entries; misses = c.misses + 1 }, none)
      else (
        record c { entries = remove key c.entries ++ (key, entry) ∷ []; hits = c.hits + 1 },
        some entry.value,
      )

  unfoldable pub get : ℕ → String → TtlCache V → TtlCache V × Option V
  unfolding read
  get now key c = read now key (lookup key c.entries) c

  -- The entries after the periodic clean-up and the removal of the key.
  unfoldable pub kept : ℕ → String → TtlCache V → Dict (CacheEntry V)
  kept now key c =
      remove key (if (length c.entries % 100) == 0 then evict_expired now c.entries else c.entries)

  -- `set` reads the clock for the clean-up (`now`) and for the new entry (`later`).
  unfoldable pub set : ℕ → ℕ → String → V → TtlCache V → Option (TtlCache V)
  set now later key value c = elim (evict_lru c.maxsize (kept now key c)) [
    | none ↦ none
    | some rest ↦ some (record c {
      entries = rest ++ (key, record { value = value; expires_at = later + c.ttl_seconds }) ∷ [];
    })
  ]

  unfoldable pub clear : TtlCache V → TtlCache V
  clear c = record c { entries = [] }

  unfoldable pub size : TtlCache V → ℕ
  size c = length c.entries
