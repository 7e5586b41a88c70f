-- ===== src/Embedding/Cache.antt =====
-- core/embedding/cache.ts: `LruEmbedCache` and `NullEmbedCache`. The key is the string that
-- `makeCacheKey` hashes; a vector is of any type.
pub mod Bounds
pub mod Histories
pub mod Recency
use memos_qdrant.Shared.{
  ℕ, zero, suc, ◌+◌, ◌/◌, String, ◌≡◌, Bool, true, false, Option, none, some, List, [], ◌∷◌,
  string_eq, length, ltb, nat_beq, if◌then◌else◌,
}
use memos_qdrant.Shared.Keyed.{Map, get, set, delete, has}

-- A JavaScript number, as far as the constructor tells numbers apart: `fraction n d` is
-- n / (d + 1).
pub data Number : Type 0 where
  not_finite negative : Number
  fraction : (n d : ℕ) → Number

pub record EmbedCacheStats : Type 0 where
  pub size : ℕ
  pub max_items : ℕ
  pub hits : ℕ
  pub misses : ℕ
  pub evictions : ℕ

pub record LruEmbedCache {ℓ} (V : Type ℓ) : Type ℓ where
  pub entries : Map String V
  pub max_items : ℕ
  pub hits : ℕ
  pub misses : ℕ
  pub evictions : ℕ

module _ {ℓ} {V : Type ℓ} where
  -- `new LruEmbedCache(maxItems)`: `none` is the error that it throws.
  unfoldable pub create : Number → Option (LruEmbedCache V)
  create not_finite = none
  create negative = none
  create (fraction n d) =
      some (record { entries = []; max_items = n / suc d; hits = 0; misses = 0; evictions = 0 })

  unfoldable pub lookup : String → LruEmbedCache V → Option V × LruEmbedCache V
  lookup key c = elim (get key c.entries) [
    | none ↦ (none, record c { misses = c.misses + 1 })
    | some v ↦ (some v, record c { entries = set key v (delete key c.entries); hits = c.hits + 1 })
  ]

  -- The loop of `set`: the oldest entry is the first one.
  unfoldable pub evict : ℕ → Map String V → ℕ → Map String V × ℕ
  evict max_items [] evictions = ([], evictions)
  evict max_items ((oldest, v) ∷ m) evictions =
      let rest = evict max_items m (evictions + 1) in
      if ltb max_items (suc (length m)) then rest else ((oldest, v) ∷ m, evictions)

  unfoldable pub store : String → V → LruEmbedCache V → LruEmbedCache V
  unfolding evict has
  store key vec c =
      if nat_beq c.max_items 0
      then c
      else (let m = (if has key c.entries then delete key c.entries else c.entries) in
          let (kept, evictions) = evict c.max_items (set key vec m) c.evictions in
          record c { entries = kept; evictions = evictions })

  unfoldable pub contains : String → LruEmbedCache V → Bool
  unfolding has
  contains key c = has key c.entries

  unfoldable pub clear : LruEmbedCache V → LruEmbedCache V
  clear c = record c { entries = []; hits = 0; misses = 0; evictions = 0 }

  unfoldable pub stats : LruEmbedCache V → EmbedCacheStats
  stats c = record {
    size = length c.entries;
    max_items = c.max_items;
    hits = c.hits;
    misses = c.misses;
    evictions = c.evictions;
  }

-- The methods of `EmbedCache` over a state `S`.
pub record EmbedCache {ℓ} (V S : Type ℓ) : Type ℓ where
  pub get : String → S → Option V × S
  pub set : String → V → S → S
  pub has : String → S → Bool
  pub clear : S → S
  pub stats : S → EmbedCacheStats

abbrev pub lru_embed_cache {ℓ} : (V : Type ℓ) → EmbedCache V (LruEmbedCache V)
lru_embed_cache V = record {
  get = lookup;
  set = store;
  has = contains;
  clear = clear;
  stats = stats;
}

abbrev pub null_embed_cache {ℓ} : (V : Type ℓ) → EmbedCache V (Unit {ℓ})
null_embed_cache V = record {
  get = λ key s. (none, s);
  set = λ key vec s. s;
  has = λ key s. false;
  clear = λ s. s;
  stats = λ s. record { size = 0; max_items = 0; hits = 0; misses = 0; evictions = 0 };
}
