-- ===== src/Session/Manager/Consistency.antt =====
-- The session manager: tables, snapshots and cached counts stay together.
use memos_qdrant.Shared.{String, ◌≡◌, some, List, string_eq, Option-cases, inl, inr}
use memos_qdrant.Shared.Keyed.{get}
use memos_qdrant.Session.Types.{
  EpisodeSnapshot, opened, EpisodeFinalizeInput, TurnRelation, TurnInput,
}
use memos_qdrant.Session.SessionsRepo.Laws.{RowsKeyed}
use memos_qdrant.Session.World.{World}
use memos_qdrant.Session.Episodes.{finalize, abandon, reopen, add_turn, attach_trace_ids}
use memos_qdrant.Session.Episodes.Mirror.{
  Mirrored, finalize-Mirrored, abandon-Mirrored, reopen-Mirrored, add_turn-Mirrored,
  attach_trace_ids-Mirrored,
}
use memos_qdrant.Session.Manager.{get_session, finalize_episode, abandon_episode, reopen_episode}
use memos_qdrant.Session.Manager.Stored.{
  Stored, live-Stored, after_decrement, after_reopen, finalize-RowsKeyed, abandon-RowsKeyed,
  reopen-RowsKeyed, add_turn-RowsKeyed, attach_trace_ids-RowsKeyed,
}
use memos_qdrant.Session.Manager.Counts.{
  CountsMatch, finalize_episode-CountsMatch, abandon_episode-CountsMatch,
  reopen_episode-CountsMatch, add_turn-CountsMatch, attach_trace_ids-CountsMatch,
  get_session-CountsMatch,
}

pub record Consistent (w : World) : Type 0 where
  pub mirrored : Mirrored w
  pub counts : CountsMatch w
  pub keyed : RowsKeyed w.db

pub stored_of : {w : World} → Consistent w → Stored w
stored_of c = record { mirrored = c.mirrored; keyed = c.keyed }

pub with_counts : {w : World} → Stored w → CountsMatch w → Consistent w
with_counts s m = record { mirrored = s.mirrored; counts = m; keyed = s.keyed }

module _ (id : String) (w : World) (c : Consistent w) where
  pub finalize_episode-Consistent :
      (input : EpisodeFinalizeInput) → Consistent (finalize_episode id input w).1
  unfolding finalize_episode
  finalize_episode-Consistent input =
      with_counts
        (after_decrement (finalize id input w) (record {
          mirrored = finalize-Mirrored id w c.mirrored input;
          keyed = finalize-RowsKeyed id w c.keyed input;
        }))
        (finalize_episode-CountsMatch id w c.counts input)

  pub abandon_episode-Consistent :
      (reason : String)
      → ((s : EpisodeSnapshot) → get id w.by_id ≡ some s → s.status ≡ opened)
      → Consistent (abandon_episode id reason w).1
  unfolding abandon_episode
  abandon_episode-Consistent reason still_open =
      with_counts
        (after_decrement (abandon id reason w) (record {
          mirrored = abandon-Mirrored id w c.mirrored reason;
          keyed = abandon-RowsKeyed id w c.keyed reason;
        }))
        (abandon_episode-CountsMatch id w c.counts reason still_open)

  pub reopen_episode-Consistent :
      (reason : TurnRelation) → Consistent (reopen_episode id reason w).1
  unfolding reopen_episode
  reopen_episode-Consistent reason =
      with_counts
        (after_reopen (get id w.by_id) (reopen id reason w) (record {
          mirrored = reopen-Mirrored id w c.mirrored reason;
          keyed = reopen-RowsKeyed id w c.keyed reason;
        }))
        (reopen_episode-CountsMatch id w c.counts reason)

  pub add_turn-Consistent : (turn : TurnInput) → Consistent (add_turn id turn w).1
  add_turn-Consistent turn = record {
    mirrored = add_turn-Mirrored id w c.mirrored turn;
    counts = add_turn-CountsMatch id w c.counts turn;
    keyed = add_turn-RowsKeyed id w c.keyed turn;
  }

  pub attach_trace_ids-Consistent : (ts : List String) → Consistent (attach_trace_ids id ts w).1
  attach_trace_ids-Consistent ts = record {
    mirrored = attach_trace_ids-Mirrored id w c.mirrored ts;
    counts = attach_trace_ids-CountsMatch id w c.counts ts;
    keyed = attach_trace_ids-RowsKeyed id w c.keyed ts;
  }

  pub get_session-Consistent : Consistent (get_session id w).1
  unfolding get_session
  get_session-Consistent = with_counts stored (get_session-CountsMatch id w c.counts c.keyed)
    where
      stored : Stored (get_session id w).1
      stored = elim (Option-cases (get id w.live)) [
        | inr (s, e) ↦ rw (e, get_session) (stored_of c)
        | inl e ↦ elim (Option-cases (get id w.db.sessions)) [
          | inl f ↦ rw (e, f, get_session) (stored_of c)
          | inr (row, f) ↦ rw (e, f, get_session) (live-Stored w _ (stored_of c))
        ]
      ]
