-- ===== src/Session/Episodes.antt =====
-- core/session/episode-manager.ts: `createEpisodeManager`. The snapshots of `by_id` are objects
-- that the manager alone holds: a caller gets a clone, so a change of a snapshot is a write of
-- the map at its id.
pub mod Cases
pub mod Mirror
pub mod Abandon
pub mod Steps
pub mod Revision
use text.Mathlib.Text.{◌==◌ as str_beq}
use memos_qdrant.Shared.{
  ℕ, ◌+◌, String, ◌≡◌, Bool, true, false, Option, none, some, List, [], ◌∷◌, ◌++◌, ◌==◌, string_eq,
  if◌then◌else◌, keep,
}
use memos_qdrant.Shared.Keyed.{Map, get, set}
use memos_qdrant.Shared.Json.{
  Double, Meta, Value, undefined, str, int, arr, obj, Fields, end, field, spread, strings,
}
use memos_qdrant.Session.Types.{
  Error, memos, invalid_argument, conflict, episode_not_found, TurnInput, EpisodeTurn,
  EpisodeStatus, opened, closed, is_open, EpisodeSnapshot, EpisodeStartInput, EpisodeFinalizeInput,
  RTask, absent, cleared, scored, IntentKind, task, memory_probe, chitchat, meta_command,
  unknown_intent, IntentDecision, TurnRelation, revision, follow_up, new_task, unknown_relation,
  EpisodeCloseReason, finalized, abandoned, SessionEvent, episode_started, episode_turn_added,
  episode_finalized, episode_abandoned, episode_reopened,
}
use memos_qdrant.Session.Db.{EpisodeRow, Db, values}
use memos_qdrant.Session.SessionsRepo.{touch_last_seen}
use memos_qdrant.Session.EpisodesRepo
use memos_qdrant.Session.EpisodesRepo.{Stmt, done, failed, insert, append_trace, close}
use memos_qdrant.Session.World.{
  World, Run, Result, ok, err, resume, ◌>>=◌, ◌>>◌, pure, throw, now, mint, given_or, emit,
  modify_db,
}

-- The spelling of the union members in `meta`.
unfoldable pub kind_name : IntentKind → String
kind_name task = "task"
kind_name memory_probe = "memory_probe"
kind_name chitchat = "chitchat"
kind_name meta_command = "meta"
kind_name unknown_intent = "unknown"

unfoldable pub relation_name : TurnRelation → String
relation_name revision = "revision"
relation_name follow_up = "follow_up"
relation_name new_task = "new_task"
relation_name unknown_relation = "unknown"

-- `x ?? {}`
abbrev pub or_empty : Option Meta → Meta
or_empty none = []
or_empty (some m) = m

-- `byId.set(id, snap)`, and a change of the snapshot under `id`.
abbrev pub put_episode : EpisodeSnapshot → Run (Unit {0})
put_episode snap w = (ok tt, record w { by_id = set snap.id snap w.by_id })

abbrev change : String → EpisodeSnapshot → Run (Unit {0})
change id snap w = (ok tt, record w { by_id = set id snap w.by_id })

abbrev run_stmt : (Db → Stmt) → Run (Unit {0})
run_stmt f w = elim (f w.db) [ done db ↦ (ok tt, record w { db = db }) | failed e ↦ (err e, w) ]

abbrev found_or_throw : Option EpisodeSnapshot → Run EpisodeSnapshot
found_or_throw none = throw (memos episode_not_found)
found_or_throw (some snap) = pure snap

-- `get(id)`, with the throw of a caller that wants the episode.
abbrev find_episode : String → Run EpisodeSnapshot
find_episode id w = found_or_throw (get id w.by_id) w

-- `assertOpen(get(id), id)`
unfoldable pub assert_open : String → Run EpisodeSnapshot
unfolding is_open
assert_open id = do
  snap ← find_episode id
  if is_open snap.status then pure snap else throw (memos conflict)

abbrev check_turn : Option TurnInput → Run TurnInput
check_turn none = throw (memos invalid_argument)
check_turn (some t) = if str_beq t.content "" then throw (memos invalid_argument) else pure t

new_turn : TurnInput → String → ℕ → EpisodeTurn
new_turn t id ts = record { id = id; ts = ts; role = t.role; content = t.content; meta = t.meta }

intent_meta : IntentDecision → Meta
unfolding kind_name
intent_meta i =
    (
      "intent",
      obj (field "kind" (str (kind_name i.kind)) (field "signals" (arr (strings i.signals)) end)),
    )
    ∷ []

-- The part of `start` from `byId.set` on.
unfoldable pub begin_episode : EpisodeSnapshot → Run EpisodeSnapshot
begin_episode snap = do
  put_episode snap
  run_stmt (
      insert (record {
        id = snap.id;
        session_id = snap.session_id;
        started_at = snap.started_at;
        ended_at = none;
        trace_ids = [];
        r_task = none;
        status = opened;
        meta = snap.meta;
      }))
  modify_db (touch_last_seen snap.session_id snap.started_at none)
  emit (episode_started snap)
  pure snap

unfoldable pub new_episode :
    EpisodeStartInput → IntentDecision → TurnInput → ℕ → String → String → EpisodeSnapshot
unfolding new_turn intent_meta
new_episode input intent first started_at id turn_id = record {
  id = id;
  session_id = input.session_id;
  started_at = started_at;
  ended_at = none;
  status = opened;
  r_task = none;
  turn_count = 1;
  turns = new_turn first turn_id started_at ∷ [];
  trace_ids = [];
  meta = spread (or_empty input.meta) (intent_meta intent);
  intent = intent;
}

unfoldable pub start : EpisodeStartInput → IntentDecision → Run EpisodeSnapshot
unfolding begin_episode new_episode
start input intent = do
  first ← check_turn input.initial_turn
  started_at ← now
  id ← given_or input.id (mint "ep_")
  turn_id ← mint "sp_"
  begin_episode (new_episode input intent first started_at id turn_id)

unfoldable pub add_turn : String → TurnInput → Run EpisodeTurn
unfolding assert_open new_turn
add_turn id turn = do
  snap ← assert_open id
  turn_id ← mint "sp_"
  ts ← now
  let full = new_turn turn turn_id ts
  change id (record snap { turns = snap.turns ++ full ∷ []; turn_count = snap.turn_count + 1 })
  modify_db (touch_last_seen snap.session_id ts none)
  emit (episode_turn_added id full)
  pure full

unfoldable pub attach_trace_ids : String → List String → Run (Unit {0})
attach_trace_ids id [] = do find_episode id; pure tt
attach_trace_ids id (t ∷ ts) = do
  snap ← find_episode id
  let ids = snap.trace_ids ++ t ∷ ts
  change id (record snap { trace_ids = ids })
  modify_db (append_trace id ids)

-- `if (input?.rTask !== undefined) snap.rTask = input.rTask`
abbrev apply_r_task : RTask → Option Double → Option Double
apply_r_task absent old = old
apply_r_task cleared old = none
apply_r_task (scored r) old = some r

abbrev no_input : EpisodeFinalizeInput
no_input = record { r_task = absent; patch_meta = none }

unfoldable pub finalize : String → EpisodeFinalizeInput → Run EpisodeSnapshot
unfolding assert_open
finalize id input = do
  snap ← assert_open id
  ended_at ← now
  let snap' : EpisodeSnapshot = record snap {
    status = closed;
    ended_at = some ended_at;
    r_task = apply_r_task input.r_task snap.r_task;
    meta =
        spread (spread snap.meta (or_empty input.patch_meta))
          (("closeReason", str "finalized") ∷ []);
  }
  change id snap'
  modify_db (close id ended_at snap'.r_task (some snap'.meta))
  emit (episode_finalized snap' finalized)
  pure snap'

-- The part of `abandon` behind the early return for a closed episode.
unfoldable pub abandon_open : String → String → EpisodeSnapshot → Run EpisodeSnapshot
abandon_open id reason snap = do
  ended_at ← now
  let snap' : EpisodeSnapshot = record snap {
    status = closed;
    ended_at = some ended_at;
    meta = spread snap.meta (("closeReason", str "abandoned") ∷ ("abandonReason", str reason) ∷ []);
  }
  change id snap'
  modify_db (close id ended_at snap'.r_task (some snap'.meta))
  emit (episode_finalized snap' abandoned)
  emit (episode_abandoned id reason)
  pure snap'

unfoldable pub abandon : String → String → Run EpisodeSnapshot
unfolding abandon_open is_open
abandon id reason = do
  snap ← find_episode id
  if is_open snap.status then abandon_open id reason snap else pure snap

-- The part of `reopen` behind the early return for an open episode.
unfoldable pub reopen_closed : String → TurnRelation → EpisodeSnapshot → Run EpisodeSnapshot
unfolding relation_name
reopen_closed id reason snap = do
  ts ← now
  let snap' : EpisodeSnapshot = record snap {
    status = opened;
    ended_at = none;
    meta = spread snap.meta (
        ("closeReason", undefined)
        ∷ ("reopenedAt", int ts)
        ∷ ("reopenReason", str (relation_name reason))
        ∷ []);
  }
  change id snap'
  modify_db (EpisodesRepo.reopen id (some snap'.meta))
  emit (episode_reopened snap' reason)
  pure snap'

unfoldable pub reopen : String → TurnRelation → Run EpisodeSnapshot
unfolding reopen_closed is_open
reopen id reason = do
  snap ← find_episode id
  if is_open snap.status then pure snap else reopen_closed id reason snap

unfoldable pub list_open : World → List EpisodeSnapshot
unfolding values is_open
list_open w = keep (λ s. is_open s.status) (values w.by_id)

unfoldable pub list_for_session : String → World → List EpisodeSnapshot
unfolding values
list_for_session session_id w = keep (λ s. s.session_id == session_id) (values w.by_id)
