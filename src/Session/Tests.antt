-- ===== src/Session/Tests.antt =====
-- core/session: runs at concrete inputs.
use memos_qdrant.Shared.{
  ℕ, ◌+◌, String, ◌≡◌, refl, true, Option, none, some, List, [], ◌∷◌, string_eq, Bool-cases, ◌==◌,
  inl, inr, ap, sym,
}
use memos_qdrant.Shared.Keyed.{get, set, has}
use memos_qdrant.Session.SessionsRepo.{upsert_if_missing}
use memos_qdrant.Session.SessionsRepo.Laws.{RowsKeyed}
use memos_qdrant.Session.EpisodesRepo.{insert}
use memos_qdrant.Session.Types.{
  unique_constraint, user, TurnInput, IntentDecision, task, EpisodeStartInput, EpisodeFinalizeInput,
  scored, SessionOpenInput, SessionSnapshot, EpisodeSnapshot, EpisodeStatus, opened, closed,
  is_open, revision,
}
use memos_qdrant.Session.Db.{SessionRow, EpisodeRow, values}
use memos_qdrant.Session.World.{World, ok, err}
use memos_qdrant.Session.Episodes.{start, begin_episode, new_episode, finalize, list_for_session}
use memos_qdrant.Session.Episodes.Mirror.{Mirrored}
use memos_qdrant.Session.Episodes.Steps
use memos_qdrant.Session.Episodes.Steps.{Reach-Mirrored, start_taken}
use memos_qdrant.Session.Episodes.Revision.{Reopened, reopen-finalize}
use memos_qdrant.Session.Manager.{
  StartEpisodeInput, open_session, close_session, start_episode, finalize_episode, abandon_episode,
  reopen_episode, prune_idle, shutdown, stale, open_for_session,
}
use memos_qdrant.Session.Manager.Counts.{CountsMatch, open_weight}
use memos_qdrant.Session.Manager.Consistency.{Consistent, stored_of}
use memos_qdrant.Session.Manager.Closing.{SessionClosed, close_session_lem}
use memos_qdrant.Session.Manager.Shutdown.{AllClosed, shutdown_lem}
use memos_qdrant.Session.Manager.Prune.{IsCached, IsBacked, prune_idle_evicts_nothing}
use memos_qdrant.Session.Manager.Histories.{
  opens, starts, finalizes, reopens, prunes, shuts, History, here, next, History-Consistent,
  abandon_episode_twice,
}

abbrev intent : IntentDecision
intent = record {
  kind = task;
  confidence = record { bits = 0 };
  reason = "imperative verb";
  retrieval = record { tier1 = true; tier2 = true; tier3 = true };
  llm_model = none;
  signals = "task.imperative_verb" ∷ [];
}

abbrev world : World
world = record {
  env = record { now = λ n. 100 + n; short_id = λ n. "r"; classify = λ text. some intent };
  now_calls = 0;
  id_calls = 0;
  idle_cutoff_ms = none;
  by_id = [];
  live = [];
  db = record { sessions = []; episodes = [] };
  events = [];
}

abbrev opening : SessionOpenInput
opening = record { id = some "se_1"; agent = "openclaw"; meta = none }

abbrev starting : StartEpisodeInput
starting = record { session_id = "se_1"; id = some "ep_1"; user_message = "fix it"; meta = none }

abbrev scoring : EpisodeFinalizeInput
scoring = record { r_task = scored (record { bits = 1 }); patch_meta = none }

abbrev episode_input : EpisodeStartInput
episode_input = record {
  session_id = "se_1";
  id = some "ep_1";
  initial_turn = some (record { role = user; content = "fix it"; meta = none });
  meta = none;
}

abbrev first_turn : TurnInput
first_turn = record { role = user; content = "fix it"; meta = none }

abbrev open_world : World
open_world = (open_session opening world).1

abbrev started_world : World
started_world = (start_episode starting open_world).1

abbrev started_snapshot : EpisodeSnapshot
started_snapshot = new_episode episode_input intent first_turn 101 "ep_1" "sp_r"

started : start_episode starting open_world ≡ (ok started_snapshot, started_world)
unfolding start_episode open_session get upsert_if_missing has set insert
started = refl

abbrev reopened_world : World
reopened_world =
    (reopen_episode "ep_1" revision (finalize_episode "ep_1" scoring started_world).1).1

no_rows : RowsKeyed world.db
unfolding get
no_rows id row h = absurd (cc h)

abbrev reopened_history : History world reopened_world
reopened_history =
    next
      (next (next (next here (opens opening world)) (starts starting started_snapshot started))
        (finalizes "ep_1" scoring started_world))
      (reopens "ep_1" revision (finalize_episode "ep_1" scoring started_world).1)

call_history : {w : World} → History world w → Consistent w
call_history h = History-Consistent refl refl no_rows h

abbrev pruned_world : World
pruned_world = (prune_idle none reopened_world).1

-- A session is opened, an episode started, finalized and reopened, idle sessions are pruned, and
-- the manager shuts down.
History-Consistent_example : Consistent (shutdown "stop" pruned_world).1
History-Consistent_example =
    History-Consistent refl refl no_rows
      (next (next reopened_history (prunes none reopened_world)) (shuts "stop" pruned_world))

shutdown_lem_example :
    ((shutdown "stop" reopened_world).0 ≡ ok tt)
    × AllClosed (shutdown "stop" reopened_world).1
    × ((j : String) → get j (shutdown "stop" reopened_world).1.live ≡ none)
    × Consistent (shutdown "stop" reopened_world).1
shutdown_lem_example = shutdown_lem "stop" reopened_world (call_history reopened_history)

close_session_lem_example :
    ((close_session "se_1" "client" reopened_world).0 ≡ ok tt)
    × SessionClosed "se_1" reopened_world (close_session "se_1" "client" reopened_world).1
close_session_lem_example =
    close_session_lem "se_1" "client" reopened_world (stored_of (call_history reopened_history))

abbrev begun_world : World
begun_world = (start episode_input intent open_world).1

begun : start episode_input intent open_world ≡ (ok started_snapshot, begun_world)
unfolding start begin_episode open_session get upsert_if_missing has set insert
begun = refl

nothing_held : open_world.by_id ≡ []
unfolding open_session get upsert_if_missing has set
nothing_held = refl

Reach-Mirrored_example : Mirrored (finalize "ep_1" scoring begun_world).1
Reach-Mirrored_example = Reach-Mirrored nothing_held (
    Steps.next (Steps.next Steps.here (Steps.starts episode_input intent started_snapshot begun))
      (Steps.finalizes "ep_1" scoring begun_world))

-- An episode that is held open, with its row, and one that is closed.
abbrev held : EpisodeStatus → Option ℕ → EpisodeSnapshot
held status ended_at = record started_snapshot { status = status; ended_at = ended_at }

abbrev held_row : EpisodeStatus → Option ℕ → EpisodeRow
held_row status ended_at = record {
  id = "ep_1";
  session_id = "se_1";
  started_at = 101;
  ended_at = ended_at;
  trace_ids = [];
  r_task = none;
  status = status;
  meta = [];
}

abbrev session_row : SessionRow
session_row = record {
  id = "se_1";
  agent = "openclaw";
  started_at = 100;
  last_seen_at = 101;
  meta = [];
}

abbrev session : ℕ → SessionSnapshot
session open_episode_count = record {
  id = "se_1";
  agent = "openclaw";
  started_at = 100;
  last_seen_at = 101;
  meta = [];
  open_episode_count = open_episode_count;
}

abbrev holding : EpisodeStatus → Option ℕ → World
holding status ended_at = record world {
  by_id = ("ep_1", held status ended_at) ∷ [];
  live = ("se_1", session 0) ∷ [];
  db = record {
    sessions = ("se_1", session_row) ∷ [];
    episodes = ("ep_1", held_row status ended_at) ∷ [];
  };
}

reopen-finalize_example :
    Reopened "ep_1" revision
      (finalize "ep_1" scoring (holding opened none)).1
      (held opened none)
      (held_row opened none)
unfolding get
reopen-finalize_example =
    reopen-finalize "ep_1" (held opened none) (held_row opened none) (holding opened none) scoring
      revision refl refl refl

abbrev fresh : EpisodeSnapshot
fresh = new_episode episode_input intent first_turn 100 "ep_1" "sp_r"

start_taken_example :
    ((start episode_input intent (holding closed (some 102))).0 ≡ err unique_constraint)
    × ((start episode_input intent (holding closed (some 102))).1.db
        ≡ (holding closed (some 102)).db)
    × (get "ep_1" (start episode_input intent (holding closed (some 102))).1.by_id ≡ some fresh)
    × (¬ Mirrored (start episode_input intent (holding closed (some 102))).1)
unfolding get
start_taken_example =
    start_taken episode_input intent (holding closed (some 102)) "ep_1" first_turn
      (held_row closed (some 102)) refl refl refl refl refl

-- A session that is idle for longer than its cutoff, with nothing open.
abbrev idle_world : World
idle_world = record (holding closed (some 102)) { idle_cutoff_ms = some 10 }

idle : stale 1000 idle_world idle_world.live ≡ "se_1" ∷ []
unfolding stale open_for_session list_for_session values is_open new_episode
idle = refl

-- Every key of the cache has a session row.
backed : IsBacked idle_world
unfolding get
backed id c = elim (Bool-cases ("se_1" == id)) [
  | inl e ↦ (session_row, rw e refl)
  | inr e ↦ absurd (c (rw e refl))
]

prune_idle_evicts_nothing_example :
    (ids : List String) × ((prune_idle (some 1000) idle_world).0 ≡ ok ids)
    × ((j : String) → IsCached j idle_world → IsCached j (prune_idle (some 1000) idle_world).1)
prune_idle_evicts_nothing_example = prune_idle_evicts_nothing (some 1000) idle_world backed

-- Two episodes of a session, one of them closed.
abbrev two_held : World
two_held = record (holding opened none) {
  by_id =
      ("ep_1", held opened none) ∷ ("ep_2", record (held closed (some 102)) { id = "ep_2" }) ∷ [];
  live = ("se_1", session 1) ∷ [];
}

two_counted : CountsMatch two_held
unfolding get is_open new_episode
two_counted = record {
  at = λ sid c h. elim (Bool-cases ("se_1" == sid)) [
    | inl e ↦
        let q : session 1 ≡ c = cc (rw e at h) in
        rw (open_weight, e) (sym (ap (λ x. x.open_episode_count) q))
    | inr e ↦ absurd (cc (rw e at h))
  ];
}

abandon_episode_twice_example :
    (abandon_episode "ep_2" "idle" two_held ≡ (
      ok (record (held closed (some 102)) { id = "ep_2" }),
      record two_held { live = ("se_1", session 0) ∷ [] },
    ))
    × (¬ CountsMatch (abandon_episode "ep_2" "idle" two_held).1)
unfolding get new_episode set
abandon_episode_twice_example =
    abandon_episode_twice "ep_2" "idle" (record (held closed (some 102)) { id = "ep_2" })
      (session 1) 0 two_held refl refl refl refl two_counted
