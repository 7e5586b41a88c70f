-- ===== src/Session/Manager.antt =====
-- core/session/manager.ts: `createSessionManager`. `live` is its cache of session snapshots. An
-- operation that awaits the classifier is run without interleaving.
pub mod Prune
pub mod Counts
pub mod Stored
pub mod Consistency
pub mod Starts
pub mod Pending
pub mod Closing
pub mod Idle
pub mod Shutdown
pub mod Histories
use Prim.Native.String.{◌++◌ as str_append}
use memos_qdrant.Shared.{
  ℕ, ◌+◌, ◌-◌, ◌*◌, string_eq, String, ◌≡◌, Bool, true, false, Option, none, some, List, [], ◌∷◌,
  ◌++◌, ◌&&◌, if◌then◌else◌, keep, map, ltb, length, not,
}
use memos_qdrant.Shared.Int.{ℤ, sub_ℕ}
use memos_qdrant.Shared.Keyed.{Map, get, set, delete}
use memos_qdrant.Shared.Json.{Meta}
use memos_qdrant.Session.Types.{
  Error, memos, internal, session_not_found, classifier_failed, TurnInput, user, EpisodeStatus,
  opened, closed, is_open, EpisodeSnapshot, EpisodeStartInput, EpisodeFinalizeInput, IntentDecision,
  TurnRelation, SessionSnapshot, SessionOpenInput, session_started, session_closed,
  session_idle_pruned,
}
use memos_qdrant.Session.Db.{SessionRow, Db}
use memos_qdrant.Session.SessionsRepo.{upsert_if_missing, list_recent}
use memos_qdrant.Session.World.{
  Env, World, Run, Result, ok, err, resume, ◌>>=◌, ◌>>◌, pure, throw, now, mint, given_or, emit,
  modify_db, for_each,
}
use memos_qdrant.Session.Episodes
use memos_qdrant.Session.Episodes.{or_empty, start, finalize, abandon, list_open, list_for_session}

-- `epm.listForSession(id).filter((e) => e.status === "open")`
unfoldable pub open_for_session : String → World → List EpisodeSnapshot
unfolding list_for_session is_open
open_for_session id w = keep (λ e. is_open e.status) (list_for_session id w)

unfoldable pub snapshot_for : SessionRow → World → SessionSnapshot
unfolding open_for_session
snapshot_for row w = record {
  id = row.id;
  agent = row.agent;
  started_at = row.started_at;
  last_seen_at = row.last_seen_at;
  meta = row.meta;
  open_episode_count = length (open_for_session row.id w);
}

-- `live.set(id, snap)`, `live.delete(id)`
abbrev pub put_live : String → SessionSnapshot → Run (Unit {0})
put_live id snap w = (ok tt, record w { live = set id snap w.live })

abbrev pub drop_live : String → Run (Unit {0})
drop_live id w = (ok tt, record w { live = delete id w.live })

abbrev row_or_throw : Option SessionRow → Run SessionRow
row_or_throw none = throw (memos internal)
row_or_throw (some row) = pure row

unfoldable pub open_session : SessionOpenInput → Run SessionSnapshot
unfolding snapshot_for
open_session input = do
  ts ← now
  id ← given_or input.id (mint "se_")
  modify_db (
      upsert_if_missing (record {
        id = id;
        agent = input.agent;
        started_at = ts;
        last_seen_at = ts;
        meta = or_empty input.meta;
      }))
  row ← (λ w. row_or_throw (get id w.db.sessions) w)
  snap ← (λ w. (ok (snapshot_for row w), w))
  put_live id snap
  emit (session_started snap)
  pure snap

abbrev abandon_if_open : String → EpisodeSnapshot → Run (Unit {0})
abandon_if_open reason ep = if is_open ep.status then (abandon ep.id reason >> pure tt) else pure tt

unfoldable pub close_session : String → String → Run (Unit {0})
unfolding is_open
close_session id reason = do
  eps ← (λ w. (ok (list_for_session id w), w))
  for_each (abandon_if_open (str_append "session_closed:" reason)) eps
  drop_live id
  emit (session_closed id reason)

-- The reload of a session that is not cached.
abbrev reload : String → Option SessionRow → Run (Option SessionSnapshot)
reload id none = pure none
reload id (some row) = do
  snap ← (λ w. (ok (snapshot_for row w), w))
  put_live id snap
  pure (some snap)

abbrev cached_or_reload : String → Option SessionSnapshot → Run (Option SessionSnapshot)
cached_or_reload id (some cached) w = pure (some cached) w
cached_or_reload id none w = reload id (get id w.db.sessions) w

unfoldable pub get_session : String → Run (Option SessionSnapshot)
unfolding snapshot_for
get_session id w = cached_or_reload id (get id w.live) w

unfoldable pub list_sessions : ℕ → World → List SessionSnapshot
unfolding snapshot_for list_recent
list_sessions limit w = map (λ r. snapshot_for r w) (list_recent limit w.db)

abbrev default_idle_cutoff_ms : ℕ
default_idle_cutoff_ms = 24 * 60 * 60 * 1000

abbrev idle_cutoff : World → ℕ
idle_cutoff w = elim w.idle_cutoff_ms [ none ↦ default_idle_cutoff_ms | some ms ↦ ms ]

-- The first loop of `pruneIdle`: `snap.lastSeenAt < nowTs - idleCutoffMs`, with nothing open.
unfoldable pub stale : ℕ → World → Map String SessionSnapshot → List String
unfolding open_for_session
stale now_ts w [] = []
stale now_ts w ((id, snap) ∷ rest) =
    if ltb (snap.last_seen_at + idle_cutoff w) now_ts
      && not (ltb 0 (length (open_for_session id w)))
    then id ∷ stale now_ts w rest
    else stale now_ts w rest

-- `nowTs - (getSession(id)?.lastSeenAt ?? nowTs)`
abbrev idle_ms : ℕ → Option SessionSnapshot → ℤ
idle_ms now_ts none = sub_ℕ now_ts now_ts
idle_ms now_ts (some s) = sub_ℕ now_ts s.last_seen_at

-- The body of the second loop: the argument of `emit` reads the session again.
unfoldable pub prune_one : ℕ → String → Run (Unit {0})
unfolding get_session
prune_one now_ts id = do
  drop_live id
  again ← get_session id
  emit (session_idle_pruned id (idle_ms now_ts again))

unfoldable pub prune_idle : Option ℕ → Run (List String)
unfolding stale prune_one
prune_idle given = do
  now_ts ← (elim given [ none ↦ now | some t ↦ pure t ])
  ids ← (λ w. (ok (stale now_ts w w.live), w))
  for_each (prune_one now_ts) ids
  pure ids

pub record StartEpisodeInput : Type 0 where
  pub session_id : String
  pub id : Option String
  pub user_message : String
  pub meta : Option Meta

abbrev session_or_throw : Option SessionSnapshot → Run SessionSnapshot
session_or_throw none = throw (memos session_not_found)
session_or_throw (some s) = pure s

abbrev classified : Option IntentDecision → Run IntentDecision
classified none = throw classifier_failed
classified (some i) = pure i

-- `cached.openEpisodeCount++`, where the session is cached.
unfoldable pub increment_open_count : String → World → World
increment_open_count session_id w = elim (get session_id w.live) [
  | none ↦ w
  | some s ↦ record w {
    live = set session_id (record s { open_episode_count = s.open_episode_count + 1 }) w.live;
  }
]

unfoldable pub decrement_open_count : String → World → World
decrement_open_count session_id w = elim (get session_id w.live) [
  | none ↦ w
  | some s ↦
      if ltb 0 s.open_episode_count
      then record w {
        live = set session_id (record s { open_episode_count = s.open_episode_count - 1 }) w.live;
      }
      else w
]

abbrev write : (World → World) → Run (Unit {0})
write f w = (ok tt, f w)

unfoldable pub start_episode : StartEpisodeInput → Run EpisodeSnapshot
unfolding get_session start increment_open_count
start_episode input = do
  cached ← get_session input.session_id
  session_or_throw cached
  intent ← (λ w. classified (w.env.classify input.user_message) w)
  id ← given_or input.id (mint "ep_")
  snap ←
      start
        (record {
          session_id = input.session_id;
          id = some id;
          initial_turn =
              some (record { role = user; content = input.user_message; meta = input.meta });
          meta = input.meta;
        })
        intent
  write (increment_open_count input.session_id)
  pure snap

unfoldable pub finalize_episode : String → EpisodeFinalizeInput → Run EpisodeSnapshot
unfolding finalize decrement_open_count
finalize_episode id input = do
  snap ← finalize id input
  write (decrement_open_count snap.session_id)
  pure snap

unfoldable pub abandon_episode : String → String → Run EpisodeSnapshot
unfolding abandon decrement_open_count
abandon_episode id reason = do
  snap ← abandon id reason
  write (decrement_open_count snap.session_id)
  pure snap

-- `before && before.status === "closed" && snap.status === "open"`
abbrev was_reopened : Option EpisodeSnapshot → EpisodeSnapshot → Bool
was_reopened none snap = false
was_reopened (some before) snap = not (is_open before.status) && is_open snap.status

unfoldable pub reopen_episode : String → TurnRelation → Run EpisodeSnapshot
unfolding Episodes.reopen increment_open_count is_open
reopen_episode id reason = do
  before ← (λ w. (ok (get id w.by_id), w))
  snap ← Episodes.reopen id reason
  write (λ w. if was_reopened before snap then increment_open_count snap.session_id w else w)
  pure snap

abbrev keys : Map String SessionSnapshot → List String
keys = map (λ e. e.0)

unfoldable pub shutdown : String → Run (Unit {0})
unfolding abandon_episode close_session list_open
shutdown reason = do
  eps ← (λ w. (ok (list_open w), w))
  for_each (λ ep. abandon_episode ep.id (str_append "shutdown:" reason) >> pure tt) eps
  ids ← (λ w. (ok (keys w.live), w))
  for_each (λ id. close_session id (str_append "shutdown:" reason)) ids
