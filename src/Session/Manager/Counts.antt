-- ===== src/Session/Manager/Counts.antt =====
-- The open-episode count of a cached session.
use memos_qdrant.Shared.{
  ℕ, ◌+◌, sym, ◌∙◌, ap, String, ◌≡◌, refl, ◌≢◌, true, ◌&&◌, none, some, List, [], ◌∷◌, arith,
  string_eq, ==_iff, ◌==◌, if◌then◌else◌, Bool-cases, Option-cases, inl, inr, length, ltb,
}
use mathlib.Core.Path.{subst₂}
use memos_qdrant.Shared.Keyed.{Map, get, set, get-set, weigh, weigh-set}
use memos_qdrant.Session.Types.{
  SessionSnapshot, EpisodeSnapshot, opened, closed, is_open, EpisodeFinalizeInput, TurnRelation,
  TurnInput,
}
use memos_qdrant.Session.SessionsRepo.Laws.{RowsKeyed}
use memos_qdrant.Session.World.{World, ok, resume}
use memos_qdrant.Session.Episodes.{add_turn, attach_trace_ids}
use memos_qdrant.Session.Episodes.Cases.{open_cases, find_cases, status-cases}
use memos_qdrant.Session.Manager.{
  open_for_session, snapshot_for, finalize_episode, abandon_episode, reopen_episode, get_session,
  increment_open_count, decrement_open_count, was_reopened,
}

-- One for an open episode of the session.
abbrev pub open_weight : String → EpisodeSnapshot → ℕ
open_weight sid s = if s.session_id == sid && is_open s.status then 1 else 0

-- The open episodes of a session.
abbrev pub open_count : String → Map String EpisodeSnapshot → ℕ
open_count sid = weigh (open_weight sid)

-- `snapshotFor` counts them.
pub length-open_for_session :
    (sid : String) (w : World) → length (open_for_session sid w) ≡ open_count sid w.by_id
unfolding open_for_session
length-open_for_session sid w = go w.by_id
  where
    go :
        (m : Map String EpisodeSnapshot)
        → length (open_for_session sid (record w { by_id = m })) ≡ open_count sid m
    go [] = refl
    go ((k, s) ∷ m) = ground (arith, go m)

-- Each cached session carries the number of its open episodes.
pub record CountsMatch (w : World) : Type 0 where
  pub at :
      (sid : String) (c : SessionSnapshot)
      → get sid w.live ≡ some c
      → c.open_episode_count ≡ open_count sid w.by_id

-- The cache was exact for the episodes `old`.
abbrev pub MatchedFor : Map String EpisodeSnapshot → World → Type 0
MatchedFor old w =
    (sid : String) (c : SessionSnapshot)
    → get sid w.live ≡ some c
    → c.open_episode_count ≡ open_count sid old

-- The episodes of `sid` alone changed their number, and `c` is what the cache has for it now.
pub moved-CountsMatch :
    (sid : String) (c : SessionSnapshot) (old : Map String EpisodeSnapshot) (w : World)
    → MatchedFor old w
    → c.open_episode_count ≡ open_count sid w.by_id
    → ((j : String) → sid ≢ j → open_count j w.by_id ≡ open_count j old)
    → CountsMatch (record w { live = set sid c w.live })
moved-CountsMatch sid c old w m here there = record {
  at = λ j d h. elim (Bool-cases (sid == j)) [
    | inl same ↦
        let p = (==_iff sid j).0 same in
        let q : c ≡ d = ground (arith, same, get-set sid j c w.live) in
        subst₂ (λ i x. x.open_episode_count ≡ open_count i w.by_id) p q here
    | inr other ↦ ground (
      arith,
      other,
      get-set sid j c w.live,
      m j d (ground (arith, other, get-set sid j c w.live)),
      there j (λ p. ground (arith, other, p, ==_iff sid j)),
    )
  ];
}

-- The session is not cached, so its number does not matter.
uncached-CountsMatch :
    (sid : String) (old : Map String EpisodeSnapshot) (w : World)
    → MatchedFor old w
    → get sid w.live ≡ none
    → ((j : String) → sid ≢ j → open_count j w.by_id ≡ open_count j old)
    → CountsMatch w
uncached-CountsMatch sid old w m e there = record {
  at = λ j c h. elim (Bool-cases (sid == j)) [
    | inl same ↦ absurd (cc (rw ((==_iff sid j).0 same) at e))
    | inr other ↦ ground (arith, m j c h, there j (λ p. ground (arith, other, p, ==_iff sid j)))
  ];
}

-- One open episode of the session less, and the cache follows.
decrement-CountsMatch :
    (sid : String) (old : Map String EpisodeSnapshot) (w : World)
    → MatchedFor old w
    → open_count sid w.by_id + 1 ≡ open_count sid old
    → ((j : String) → sid ≢ j → open_count j w.by_id ≡ open_count j old)
    → CountsMatch (decrement_open_count sid w)
unfolding decrement_open_count
decrement-CountsMatch sid old w m here there = elim (Option-cases (get sid w.live)) [
  | inl e ↦ rw (e, decrement_open_count) (uncached-CountsMatch sid old w m e there)
  | inr (s, e) ↦
      let pos : ltb 0 s.open_episode_count ≡ true = ground (arith, m sid s e) in
      rw (e, pos, decrement_open_count)
        (moved-CountsMatch sid _ old w m (ground (arith, m sid s e)) there)
]

-- One more.
pub increment-CountsMatch :
    (sid : String) (old : Map String EpisodeSnapshot) (w : World)
    → MatchedFor old w
    → open_count sid w.by_id ≡ open_count sid old + 1
    → ((j : String) → sid ≢ j → open_count j w.by_id ≡ open_count j old)
    → CountsMatch (increment_open_count sid w)
unfolding increment_open_count
increment-CountsMatch sid old w m here there = elim (Option-cases (get sid w.live)) [
  | inl e ↦ rw (e, increment_open_count) (uncached-CountsMatch sid old w m e there)
  | inr (s, e) ↦
      rw (e, increment_open_count)
        (moved-CountsMatch sid _ old w m (ground (arith, m sid s e)) there)
]

-- A snapshot that changes its status, under a present id, moves the count of its session alone.
module _ (id : String) (s s' : EpisodeSnapshot) (m : Map String EpisodeSnapshot)
    (e : get id m ≡ some s) (same : s'.session_id ≡ s.session_id) where
  count_closed :
      s.status ≡ opened
      → s'.status ≡ closed
      → open_count s.session_id (set id s' m) + 1 ≡ open_count s.session_id m
  unfolding is_open
  count_closed o c =
      ground
        (arith, ==_iff s.session_id s.session_id, weigh-set (open_weight s.session_id) id s' s m e)

  pub count_other : (j : String) → s.session_id ≢ j → open_count j (set id s' m) ≡ open_count j m
  count_other j ne = ground (arith, ==_iff s.session_id j, weigh-set (open_weight j) id s' s m e)

  count_kept : s'.status ≡ s.status → (j : String) → open_count j (set id s' m) ≡ open_count j m
  count_kept k j = ground (arith, weigh-set (open_weight j) id s' s m e)

  count_opened :
      s.status ≡ closed
      → s'.status ≡ opened
      → open_count s.session_id (set id s' m) ≡ open_count s.session_id m + 1
  unfolding is_open
  count_opened c o =
      ground
        (arith, ==_iff s.session_id s.session_id, weigh-set (open_weight s.session_id) id s' s m e)

module _ (id : String) (w : World) (m : CountsMatch w) where
  pub finalize_episode-CountsMatch :
      (input : EpisodeFinalizeInput) → CountsMatch (finalize_episode id input w).1
  unfolding finalize_episode
  finalize_episode-CountsMatch input =
      open_cases
        (λ r.
          CountsMatch
            (resume r.0 (λ snap w'. (ok snap, decrement_open_count snap.session_id w')) r.1).1)
        id _ w m m
        λ s e o.
          decrement-CountsMatch s.session_id w.by_id _ m.at
            (count_closed id s _ w.by_id e refl o refl) (count_other id s _ w.by_id e refl)

  pub abandon_episode-CountsMatch :
      (reason : String)
      → ((s : EpisodeSnapshot) → get id w.by_id ≡ some s → s.status ≡ opened)
      → CountsMatch (abandon_episode id reason w).1
  unfolding abandon_episode
  abandon_episode-CountsMatch reason still_open =
      find_cases
        (λ r.
          CountsMatch
            (resume r.0 (λ snap w'. (ok snap, decrement_open_count snap.session_id w')) r.1).1)
        id _ w m
        λ s e. simp (still_open s e) (
          decrement-CountsMatch s.session_id w.by_id _ m.at
            (count_closed id s _ w.by_id e refl (still_open s e) refl)
            (count_other id s _ w.by_id e refl))

  pub add_turn-CountsMatch : (turn : TurnInput) → CountsMatch (add_turn id turn w).1
  unfolding add_turn
  add_turn-CountsMatch turn =
      open_cases (λ r. CountsMatch r.1) id _ w m m
        λ s e o. record { at = λ j c h. m.at j c h ∙ sym (count_kept id s _ w.by_id e refl refl j) }

  pub attach_trace_ids-CountsMatch : (ts : List String) → CountsMatch (attach_trace_ids id ts w).1
  unfolding attach_trace_ids
  attach_trace_ids-CountsMatch [] = find_cases (λ r. CountsMatch r.1) id _ w m (λ s e. m)
  attach_trace_ids-CountsMatch (t ∷ ts) =
      find_cases (λ r. CountsMatch r.1) id _ w m
        λ s e. record { at = λ j c h. m.at j c h ∙ sym (count_kept id s _ w.by_id e refl refl j) }

  pub reopen_episode-CountsMatch :
      (reason : TurnRelation) → CountsMatch (reopen_episode id reason w).1
  unfolding reopen_episode
  reopen_episode-CountsMatch reason =
      find_cases
        (λ r.
          CountsMatch
            (resume r.0
              (λ snap w'. (
                ok snap,
                if was_reopened (get id w.by_id) snap
                    then increment_open_count snap.session_id w'
                    else w',
              ))
              r.1).1)
        id _ w m
        λ s e. elim (status-cases s.status) [
          | inl o ↦ simp (e, o) m
          | inr c ↦
              simp (e, c)
                (increment-CountsMatch s.session_id w.by_id _ m.at
                  (count_opened id s _ w.by_id e refl c refl) (count_other id s _ w.by_id e refl))
        ]

  pub get_session-CountsMatch : RowsKeyed w.db → CountsMatch (get_session id w).1
  unfolding get_session snapshot_for
  get_session-CountsMatch keyed = elim (Option-cases (get id w.live)) [
    | inr (c, e) ↦ rw (e, get_session) m
    | inl e ↦ elim (Option-cases (get id w.db.sessions)) [
      | inl f ↦ rw (e, f, get_session) m
      | inr (row, f) ↦
          rw (e, f, get_session)
            (moved-CountsMatch id _ w.by_id w m.at
              (length-open_for_session row.id w ∙ ap (λ i. open_count i w.by_id) (keyed id row f))
              (λ j ne. refl))
    ]
  ]
