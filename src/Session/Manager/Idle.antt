-- ===== src/Session/Manager/Idle.antt =====
-- `pruneIdle` keeps the managers consistent.
use memos_qdrant.Shared.{
  ℕ, ◌+◌, String, ◌≡◌, refl, Option, none, some, List, arith, string_eq, ◌==◌, Bool-cases,
  Option-cases, inl, inr,
}
use memos_qdrant.Shared.Keyed.{get, delete, get-delete}
use memos_qdrant.Session.Types.{SessionEvent, SessionSnapshot}
use memos_qdrant.Session.World.{World, ok, for_each, for_each_rule}
use memos_qdrant.Session.Manager.{get_session, prune_one, prune_idle, stale, snapshot_for}
use memos_qdrant.Session.Manager.Stored.{live-Stored}
use memos_qdrant.Session.Manager.Consistency.{
  Consistent, stored_of, with_counts, get_session-Consistent,
}

-- Neither an event nor a call of the clock matters.
told_Consistent :
    (w : World) (events : List SessionEvent)
    → Consistent w
    → Consistent (record w { events = events })
told_Consistent w events c = record {
  mirrored = record {
    sound = (c.mirrored).sound;
    row = (c.mirrored).row;
    distinct = (c.mirrored).distinct;
  };
  counts = record { at = (c.counts).at };
  keyed = c.keyed;
}

timed_Consistent : (w : World) (k : ℕ) → Consistent w → Consistent (record w { now_calls = k })
timed_Consistent w k c = record {
  mirrored = record {
    sound = (c.mirrored).sound;
    row = (c.mirrored).row;
    distinct = (c.mirrored).distinct;
  };
  counts = record { at = (c.counts).at };
  keyed = c.keyed;
}

dropped_Consistent :
    (id : String) (w : World) → Consistent w → Consistent (record w { live = delete id w.live })
dropped_Consistent id w c = with_counts (live-Stored w _ (stored_of c)) (record {
  at = λ j x h. elim (Bool-cases (id == j)) [
    | inl same ↦ absurd (ground (arith, same, get-delete id j w.live))
    | inr other ↦ (c.counts).at j x (ground (arith, other, get-delete id j w.live))
  ];
})

get_session-returns :
    (id : String) (w : World) → (o : Option SessionSnapshot) × ((get_session id w).0 ≡ ok o)
unfolding get_session
get_session-returns id w = elim (Option-cases (get id w.live)) [
  | inr (s, e) ↦ (some s, rw (e, get_session) refl)
  | inl e ↦ elim (Option-cases (get id w.db.sessions)) [
    | inl f ↦ (none, rw (e, f, get_session) refl)
    | inr (row, f) ↦ (some (snapshot_for row w), rw (e, f, get_session) refl)
  ]
]

prune_one-Consistent :
    (now_ts : ℕ) (id : String) (w : World)
    → Consistent w
    → ((prune_one now_ts id w).0 ≡ ok tt) × Consistent (prune_one now_ts id w).1
unfolding prune_one
prune_one-Consistent now_ts id w c =
    let w' : World = record w { live = delete id w.live } in
    let (o, e) = get_session-returns id w' in
    let c' = get_session-Consistent id w' (dropped_Consistent id w c) in
    rw e (refl, told_Consistent _ _ c')

prune_all-Consistent :
    (now_ts : ℕ) (ids : List String) (w : World)
    → Consistent w
    → ((for_each (prune_one now_ts) ids w).0 ≡ ok tt)
      × Consistent (for_each (prune_one now_ts) ids w).1
prune_all-Consistent now_ts =
    for_each_rule (prune_one now_ts) (λ ids w. Consistent w)
      (λ id rest w c. prune_one-Consistent now_ts id w c)

pub prune_idle-Consistent :
    (given : Option ℕ) (w : World) → Consistent w → Consistent (prune_idle given w).1
unfolding prune_idle
prune_idle-Consistent (some t) w c =
    let (returns, k) = prune_all-Consistent t (stale t w w.live) w c in rw returns k
prune_idle-Consistent none w c =
    let t = w.env.now w.now_calls in
    let w' : World = record w { now_calls = w.now_calls + 1 } in
    let (returns, k) =
      prune_all-Consistent t (stale t w' w'.live) w' (timed_Consistent w (w.now_calls + 1) c) in
    rw returns k
