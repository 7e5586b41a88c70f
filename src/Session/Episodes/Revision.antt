-- ===== src/Session/Episodes/Revision.antt =====
-- The revision path: a finalized episode is reopened and goes on where it stopped.
use memos_qdrant.Shared.{
  ℕ, ◌+◌, String, ◌≡◌, refl, none, some, [], ◌∷◌, ◌++◌, arith, string_eq, ==_iff,
}
use memos_qdrant.Shared.Json.{str, undefined, int, spread}
use memos_qdrant.Shared.Keyed.{get, set, get-set_self}
use memos_qdrant.Session.Types.{
  EpisodeFinalizeInput, TurnRelation, opened, closed, EpisodeSnapshot, episode_finalized, finalized,
}
use memos_qdrant.Session.Db.{EpisodeRow}
use memos_qdrant.Session.EpisodesRepo.{close}
use memos_qdrant.Session.EpisodesRepo.Laws.{closed_row, reopened_row, get-close, get-reopen}
use memos_qdrant.Session.World.{World, ok}
use memos_qdrant.Session.Episodes.{finalize, reopen, relation_name, or_empty, apply_r_task}

abbrev finalized_snapshot : EpisodeSnapshot → EpisodeFinalizeInput → ℕ → EpisodeSnapshot
finalized_snapshot s input t = record s {
  status = closed;
  ended_at = some t;
  r_task = apply_r_task input.r_task s.r_task;
  meta = spread (spread s.meta (or_empty input.patch_meta)) (("closeReason", str "finalized") ∷ []);
}

finalize_lem :
    (id : String) (s : EpisodeSnapshot) (w : World) (input : EpisodeFinalizeInput)
    → get id w.by_id ≡ some s
    → s.status ≡ opened
    → finalize id input w ≡ (
      ok (finalized_snapshot s input (w.env.now w.now_calls)),
      record w {
        now_calls = w.now_calls + 1;
        by_id = set id (finalized_snapshot s input (w.env.now w.now_calls)) w.by_id;
        db =
            close id
              (w.env.now w.now_calls)
              (apply_r_task input.r_task s.r_task)
              (some (finalized_snapshot s input (w.env.now w.now_calls)).meta)
              w.db;
        events =
            w.events
            ++ episode_finalized (finalized_snapshot s input (w.env.now w.now_calls)) finalized
              ∷ [];
      },
    )
unfolding finalize
finalize_lem id s w input e o = simp (e, o)

-- What a revision keeps of the snapshot.
pub record Continues (s s' : EpisodeSnapshot) : Type 0 where
  pub status : s'.status ≡ opened
  pub ended_at : s'.ended_at ≡ none
  pub session_id : s'.session_id ≡ s.session_id
  pub turns : s'.turns ≡ s.turns
  pub turn_count : s'.turn_count ≡ s.turn_count
  pub trace_ids : s'.trace_ids ≡ s.trace_ids

-- What it keeps of the row.
pub record RowContinues (row row' : EpisodeRow) : Type 0 where
  pub status : row'.status ≡ opened
  pub ended_at : row'.ended_at ≡ none
  pub session_id : row'.session_id ≡ row.session_id
  pub started_at : row'.started_at ≡ row.started_at
  pub trace_ids : row'.trace_ids ≡ row.trace_ids

abbrev reopened_snapshot : EpisodeSnapshot → TurnRelation → ℕ → EpisodeSnapshot
reopened_snapshot s reason t = record s {
  status = opened;
  ended_at = none;
  meta = spread s.meta (
      ("closeReason", undefined)
      ∷ ("reopenedAt", int t)
      ∷ ("reopenReason", str (relation_name reason))
      ∷ []);
}

-- What `reopen` gives for a closed episode.
abbrev pub Reopened : String → TurnRelation → World → EpisodeSnapshot → EpisodeRow → Type 0
Reopened id reason w s row =
    (s' : EpisodeSnapshot) × (row' : EpisodeRow) × ((reopen id reason w).0 ≡ ok s')
    × (get id (reopen id reason w).1.by_id ≡ some s')
    × (get id (reopen id reason w).1.db.episodes ≡ some row')
    × Continues s s'
    × RowContinues row row'

reopen_closed_lem :
    (id : String) (s : EpisodeSnapshot) (row : EpisodeRow) (w : World) (reason : TurnRelation)
    → get id w.by_id ≡ some s
    → s.status ≡ closed
    → get id w.db.episodes ≡ some row
    → Reopened id reason w s row
unfolding reopen
reopen_closed_lem id s row w reason e c r = (
  reopened_snapshot s reason (w.env.now w.now_calls),
  reopened_row (some (reopened_snapshot s reason (w.env.now w.now_calls)).meta) row,
  simp (e, c),
  simp (e, c) (get-set_self id _ w.by_id),
  simp (e, c) (rw (get-reopen id id, r) (ground (arith, ==_iff id id))),
  record {
    status = refl;
    ended_at = refl;
    session_id = refl;
    turns = refl;
    turn_count = refl;
    trace_ids = refl;
  },
  record { status = refl; ended_at = refl; session_id = refl; started_at = refl; trace_ids = refl },
)

-- An open episode that is finalized and then reopened is open again, in the manager and in its
-- row, with its session, turns and trace ids as they were and no end; the reopening returns.
pub reopen-finalize :
    (id : String) (s : EpisodeSnapshot) (row : EpisodeRow) (w : World)
    (input : EpisodeFinalizeInput) (reason : TurnRelation)
    → get id w.by_id ≡ some s
    → s.status ≡ opened
    → get id w.db.episodes ≡ some row
    → Reopened id reason (finalize id input w).1 s row
reopen-finalize id s row w input reason e o r = rw (finalize_lem id s w input e o) (
    let (s', row', returned, held, stored, c, d) =
      reopen_closed_lem id (finalized_snapshot s input t)
        (closed_row t (apply_r_task input.r_task s.r_task)
          (some (finalized_snapshot s input t).meta) row)
        _ reason (get-set_self id _ w.by_id) refl
        (rw (get-close id id, r) (ground (arith, ==_iff id id))) in
    (
      s',
      row',
      returned,
      held,
      stored,
      record {
        status = c.status;
        ended_at = c.ended_at;
        session_id = c.session_id;
        turns = c.turns;
        turn_count = c.turn_count;
        trace_ids = c.trace_ids;
      },
      record {
        status = d.status;
        ended_at = d.ended_at;
        session_id = d.session_id;
        started_at = d.started_at;
        trace_ids = d.trace_ids;
      },
    ))
  where
    t : ℕ
    t = w.env.now w.now_calls
