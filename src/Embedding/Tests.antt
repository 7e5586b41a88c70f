-- ===== src/Embedding/Tests.antt =====
-- core/embedding/cache.ts: runs at concrete inputs.
use memos_qdrant.Shared.{ℕ, ◌+◌, ◌≤◌, ◌/◌, ◌≡◌, refl, some, List, [], ◌∷◌, string_eq, arith, length}
use memos_qdrant.Shared.Keyed.{get, set, delete, Distinct}
use memos_qdrant.Embedding.Cache.{LruEmbedCache, create, lookup, store}
use memos_qdrant.Embedding.Cache.Bounds.{IsBounded}
use memos_qdrant.Embedding.Cache.Histories.{Op, reads, writes, run, history_bounds}
use memos_qdrant.Embedding.Cache.Recency.{stays_recent}

-- A cache for two vectors, empty, and one that holds two.
abbrev small : LruEmbedCache ℕ
small = record { entries = []; max_items = 2; hits = 0; misses = 0; evictions = 0 }

abbrev full : LruEmbedCache ℕ
full = record small { entries = ("a", 1) ∷ ("b", 2) ∷ [] }

-- A third key evicts the least recently used one.
evicts : (store "c" 3 (lookup "a" full).1).entries ≡ ("a", 1) ∷ ("c", 3) ∷ []
unfolding store lookup set delete
evicts = refl

abbrev calls : List (Op ℕ)
calls = reads "a" ∷ writes "a" 1 ∷ writes "b" 2 ∷ writes "c" 3 ∷ reads "b" ∷ []

history_bounds_example :
    (length (run calls small).entries ≤ 5 / 2)
    × Distinct (run calls small).entries
    × ((run calls small).hits + (run calls small).misses ≡ 2)
unfolding create
history_bounds_example = history_bounds 5 1 small calls refl

full-IsBounded : IsBounded full
unfolding get
full-IsBounded = record { within = omega arith; distinct = (refl, (refl, tt)) }

stays_recent_example : (lookup "c" (run (reads "b" ∷ []) (store "c" 3 full))).0 ≡ some 3
stays_recent_example =
    stays_recent "c" 3 (reads "b" ∷ []) full full-IsBounded (tt, tt) (omega arith)
