-- ===== src/Session/Manager/Prune.antt =====
-- `pruneIdle` and the cache of sessions.
use memos_qdrant.Shared.{
  ℕ, ◌+◌, String, ◌≡◌, refl, ◌≢◌, Bool, true, false, Option, none, some, List, [], ◌∷◌, arith,
  string_eq, ==_iff, if◌then◌else◌, All, ◌∙◌,
}
use memos_qdrant.Shared.Keyed.{
  Map, Entries, Entries-imp, Entries-present, get, set, delete, get-set, get-delete,
}
use memos_qdrant.Session.Types.{SessionSnapshot}
use memos_qdrant.Session.Db.{SessionRow}
use memos_qdrant.Session.World.{World, ok, for_each, for_each_rule}
use memos_qdrant.Session.Manager.{stale, prune_one, prune_idle, snapshot_for}

-- The session is in the cache.
abbrev pub IsCached : String → World → Type 0
IsCached id w = get id w.live ≢ none

-- Dropping a session and reading it again for the event puts it back.
module _ (now_ts : ℕ) (id : String) (row : SessionRow) (w : World)
    (r : get id w.db.sessions ≡ some row) where
  gone : get id (delete id w.live) ≡ none
  gone = rw (get-delete id id) (ground (arith, ==_iff id id))

  prune_one_lem :
      ((prune_one now_ts id w).0 ≡ ok tt)
      × ((prune_one now_ts id w).1.db ≡ w.db)
      × ((prune_one now_ts id w).1.live
          ≡ set id (snapshot_for row (record w { live = delete id w.live })) (delete id w.live))
  unfolding prune_one
  prune_one_lem = (simp (gone, r), simp (gone, r), simp (gone, r))

  prune_one-IsCached : (j : String) → IsCached j w → IsCached j (prune_one now_ts id w).1
  prune_one-IsCached j h =
      let (_, _, live) = prune_one_lem in
      rw (live, get-set id j) (rw (get-delete id j) (ground arith))

-- What the loop of `pruneIdle` keeps, for the ids still to come.
record Loop (w₀ : World) (ids : List String) (w : World) : Type 0 where
  tables : w.db ≡ w₀.db
  rows : All (λ id. (row : SessionRow) × (get id w₀.db.sessions ≡ some row)) ids
  cached : (j : String) → IsCached j w₀ → IsCached j w

prune-Loop :
    (now_ts : ℕ) (w₀ : World) (ids : List String)
    → All (λ id. (row : SessionRow) × (get id w₀.db.sessions ≡ some row)) ids
    → ((for_each (prune_one now_ts) ids w₀).0 ≡ ok tt)
      × Loop w₀ [] (for_each (prune_one now_ts) ids w₀).1
prune-Loop now_ts w₀ ids rows =
    for_each_rule (prune_one now_ts) (Loop w₀) body ids w₀
      (record { tables = refl; rows = rows; cached = λ j h. h })
  where
    body :
        (id : String) (rest : List String) (w : World)
        → Loop w₀ (id ∷ rest) w
        → ((prune_one now_ts id w).0 ≡ ok tt) × Loop w₀ rest (prune_one now_ts id w).1
    body id rest w l =
        let (row, r) = l.rows.0 in
        let r' : get id w.db.sessions ≡ some row = rw l.tables r in
        let (returns, db, _) = prune_one_lem now_ts id row w r' in
        (
          returns,
          record {
            tables = db ∙ l.tables;
            rows = l.rows.1;
            cached = λ j h. prune_one-IsCached now_ts id row w r' j (l.cached j h);
          },
        )

-- Every cached session has a row in `sessions`.
abbrev pub IsBacked : World → Type 0
IsBacked w = (id : String) → IsCached id w → (row : SessionRow) × (get id w.db.sessions ≡ some row)

All-if :
    (P : String → Type 0) (b : Bool) (id : String) (ids : List String)
    → P id
    → All P ids
    → All P (if b then id ∷ ids else ids)
All-if P true id ids h k = (h, k)
All-if P false id ids h k = k

stale-All :
    (P : String → Type 0) (now_ts : ℕ) (w : World) (m : Map String SessionSnapshot)
    → Entries (λ id snap. P id) m
    → All P (stale now_ts w m)
unfolding stale
stale-All P now_ts w [] h = tt
stale-All P now_ts w ((id, snap) ∷ m) h = All-if P _ id _ h.0 (stale-All P now_ts w m h.1)

prune_at :
    (now_ts : ℕ) (w : World)
    → IsBacked w
    → ((for_each (prune_one now_ts) (stale now_ts w w.live) w).0 ≡ ok tt)
      × Loop w [] (for_each (prune_one now_ts) (stale now_ts w w.live) w).1
prune_at now_ts w b = prune-Loop now_ts w _ (
    stale-All _ now_ts w w.live (Entries-imp w.live (λ id snap h. b id h) (Entries-present w.live)))

-- `pruneIdle` returns, and where every cached session has a row in `sessions`, every session that
-- was cached before is cached after it: the event's argument reads back what was dropped.
pub prune_idle_evicts_nothing :
    (given : Option ℕ) (w : World)
    → IsBacked w
    → (ids : List String) × ((prune_idle given w).0 ≡ ok ids)
      × ((j : String) → IsCached j w → IsCached j (prune_idle given w).1)
unfolding prune_idle
prune_idle_evicts_nothing (some t) w b =
    let (returns, l) = prune_at t w b in (stale t w w.live, simp returns, simp returns l.cached)
prune_idle_evicts_nothing none w b =
    let t = w.env.now w.now_calls in
    let w' : World = record w { now_calls = w.now_calls + 1 } in
    let (returns, l) = prune_at t w' b in (stale t w' w.live, simp returns, simp returns l.cached)
