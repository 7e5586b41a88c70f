-- ===== src/Session/Manager/Stored.antt =====
-- What the operations of the managers do to the tables and the snapshots, the cache aside.
use memos_qdrant.Shared.{
  String, Option, none, List, [], ◌∷◌, string_eq, Option-cases, inl, inr, ltb, Bool-cases,
  if◌then◌else◌,
}
use memos_qdrant.Shared.Keyed.{Map, get}
use memos_qdrant.Session.Types.{
  SessionSnapshot, EpisodeSnapshot, EpisodeFinalizeInput, TurnRelation, TurnInput,
}
use memos_qdrant.Session.SessionsRepo.Laws.{
  RowsKeyed, touch_last_seen-RowsKeyed, sessions-close, sessions-reopen,
}
use memos_qdrant.Session.EpisodesRepo.{append_trace}
use memos_qdrant.Session.World.{World, Result, ok, err, resume}
use memos_qdrant.Session.Episodes.{finalize, abandon, reopen, add_turn, attach_trace_ids}
use memos_qdrant.Session.Episodes.Cases.{open_cases, find_cases, status-cases}
use memos_qdrant.Session.Episodes.Mirror.{Mirrored}
use memos_qdrant.Session.Manager.{increment_open_count, decrement_open_count, was_reopened}

-- A count that moves writes the cache alone.
module _ {ℓ} (P : World → Type ℓ) (sid : String) (w : World) (h : P w)
    (k : (l : Map String SessionSnapshot) → P (record w { live = l })) where
  pub decrement_cases : P (decrement_open_count sid w)
  unfolding decrement_open_count
  decrement_cases = elim (Option-cases (get sid w.live)) [
    | inl e ↦ rw (e, decrement_open_count) h
    | inr (s, e) ↦ elim (Bool-cases (ltb 0 s.open_episode_count)) [
      | inl p ↦ rw (e, p, decrement_open_count) (k _)
      | inr p ↦ rw (e, p, decrement_open_count) h
    ]
  ]

  pub increment_cases : P (increment_open_count sid w)
  unfolding increment_open_count
  increment_cases = elim (Option-cases (get sid w.live)) [
    | inl e ↦ rw (e, increment_open_count) h
    | inr (s, e) ↦ rw (e, increment_open_count) (k _)
  ]

-- What the tables and the snapshots alone decide.
pub record Stored (w : World) : Type 0 where
  pub mirrored : Mirrored w
  pub keyed : RowsKeyed w.db

pub live-Stored :
    (w : World) (l : Map String SessionSnapshot) → Stored w → Stored (record w { live = l })
live-Stored w l s = record {
  mirrored = record {
    sound = (s.mirrored).sound;
    row = (s.mirrored).row;
    distinct = (s.mirrored).distinct;
  };
  keyed = s.keyed;
}

pub after_decrement :
    (r : Result EpisodeSnapshot × World)
    → Stored r.1
    → Stored (resume r.0 (λ snap w'. (ok snap, decrement_open_count snap.session_id w')) r.1).1
after_decrement (ok s, w) h = decrement_cases Stored s.session_id w h (λ l. live-Stored w l h)
after_decrement (err e, w) h = h

pub after_reopen :
    (before : Option EpisodeSnapshot) (r : Result EpisodeSnapshot × World)
    → Stored r.1
    → Stored
        (resume r.0
          (λ snap w'. (
            ok snap,
            if was_reopened before snap then increment_open_count snap.session_id w' else w',
          ))
          r.1).1
after_reopen before (ok s, w) h = elim (Bool-cases (was_reopened before s)) [
  | inl e ↦ rw e (increment_cases Stored s.session_id w h (λ l. live-Stored w l h))
  | inr e ↦ rw e h
]
after_reopen before (err e, w) h = h

module _ (id : String) (w : World) (k : RowsKeyed w.db) where
  pub finalize-RowsKeyed : (input : EpisodeFinalizeInput) → RowsKeyed (finalize id input w).1.db
  unfolding finalize
  finalize-RowsKeyed input =
      open_cases (λ r. RowsKeyed r.1.db) id _ w k k
        λ s e o i row h. k i row (rw (sessions-close id) at h)

  pub abandon-RowsKeyed : (reason : String) → RowsKeyed (abandon id reason w).1.db
  unfolding abandon
  abandon-RowsKeyed reason =
      find_cases (λ r. RowsKeyed r.1.db) id _ w k
        λ s e. elim (status-cases s.status) [
          | inr c ↦ simp c k
          | inl o ↦ simp o (λ i row h. k i row (rw (sessions-close id) at h))
        ]

  pub reopen-RowsKeyed : (reason : TurnRelation) → RowsKeyed (reopen id reason w).1.db
  unfolding reopen
  reopen-RowsKeyed reason =
      find_cases (λ r. RowsKeyed r.1.db) id _ w k
        λ s e. elim (status-cases s.status) [
          | inl o ↦ simp o k
          | inr c ↦ simp c (λ i row h. k i row (rw (sessions-reopen id) at h))
        ]

  pub add_turn-RowsKeyed : (turn : TurnInput) → RowsKeyed (add_turn id turn w).1.db
  unfolding add_turn
  add_turn-RowsKeyed turn =
      open_cases (λ r. RowsKeyed r.1.db) id _ w k k
        λ s e o. touch_last_seen-RowsKeyed s.session_id _ none w.db k

  pub attach_trace_ids-RowsKeyed : (ts : List String) → RowsKeyed (attach_trace_ids id ts w).1.db
  unfolding attach_trace_ids append_trace
  attach_trace_ids-RowsKeyed [] = find_cases (λ r. RowsKeyed r.1.db) id _ w k (λ s e. k)
  attach_trace_ids-RowsKeyed (t ∷ ts) = find_cases (λ r. RowsKeyed r.1.db) id _ w k (λ s e. k)
