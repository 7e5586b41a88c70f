-- ===== src/Session/EpisodesRepo.antt =====
-- core/storage/repos/episodes.ts, and `adaptEpisodesRepo` of core/session/persistence.ts.
pub mod Laws
use memos_qdrant.Shared.{
  ℕ, String, ◌≡◌, Bool, true, false, Option, none, some, List, [], ◌∷◌, ◌==◌, string_eq, ltb,
  if◌then◌else◌, ◌&&◌,
}
use memos_qdrant.Shared.Keyed.{Map, get, set, delete, has}
use memos_qdrant.Shared.Json.{Double, Meta, spread, stored}
use memos_qdrant.Session.Types.{
  Error, unique_constraint, foreign_key_constraint, EpisodeStatus, opened, closed, is_open,
}
use memos_qdrant.Session.Db.{EpisodeRow, Db, update, values}

-- A statement on the tables: it fails, or gives the new tables.
pub data Stmt : Type 0 where
  done : Db → Stmt
  failed : Error → Stmt

-- `INSERT`: the primary key is unique and session_id refers to `sessions`.
unfoldable pub insert : EpisodeRow → Db → Stmt
insert row db =
    if has row.id db.episodes
    then failed unique_constraint
    else if has row.session_id db.sessions
    then done
        (record db { episodes = set row.id (record row { meta = stored row.meta }) db.episodes })
    else failed foreign_key_constraint

-- `INSERT OR REPLACE`
unfoldable pub upsert : EpisodeRow → Db → Stmt
unfolding insert
upsert row db = insert row (record db { episodes = delete row.id db.episodes })

unfoldable pub set_r_task : String → Double → Db → Db
unfolding update
set_r_task id r db = record db {
  episodes = update id (λ (x : EpisodeRow). record x { r_task = some r }) db.episodes;
}

unfoldable pub close_row : String → ℕ → Option Double → Db → Db
unfolding update set_r_task
close_row id ended_at r_task db =
    let db' : Db = record db {
      episodes =
          update id (λ (x : EpisodeRow). record x { status = closed; ended_at = some ended_at })
            db.episodes;
    } in
    elim r_task [ none ↦ db' | some r ↦ set_r_task id r db' ]

-- `UPDATE episodes SET status='open', ended_at=NULL WHERE id=@id`
unfoldable pub reopen_row : String → Db → Db
unfolding update
reopen_row id db = record db {
  episodes =
      update id (λ (x : EpisodeRow). record x { status = opened; ended_at = none }) db.episodes;
}

-- Merges the patch into the stored object.
unfoldable pub update_meta : String → Meta → Db → Db
unfolding update
update_meta id patch db = record db {
  episodes =
      update id (λ (x : EpisodeRow). record x { meta = stored (spread x.meta patch) }) db.episodes;
}

-- `appendTrace` writes the whole list.
unfoldable pub append_trace : String → List String → Db → Db
unfolding update
append_trace id trace_ids db = record db {
  episodes = update id (λ (x : EpisodeRow). record x { trace_ids = trace_ids }) db.episodes;
}

-- The later of two candidates for `ORDER BY started_at DESC LIMIT 1`.
later : EpisodeRow → Option EpisodeRow → Option EpisodeRow
later r none = some r
later r (some s) = if ltb r.started_at s.started_at then some s else some r

latest_open : String → List EpisodeRow → Option EpisodeRow
unfolding later
latest_open session_id [] = none
latest_open session_id (r ∷ rows) =
    let rest = latest_open session_id rows in
    if r.session_id == session_id && is_open r.status then later r rest else rest

-- `selectOpenForSession`
unfoldable pub get_open_for_session : String → Db → Option EpisodeRow
unfolding latest_open values is_open
get_open_for_session session_id db = latest_open session_id (values db.episodes)

-- `adaptEpisodesRepo(…).close`
unfoldable pub close : String → ℕ → Option Double → Option Meta → Db → Db
unfolding close_row update_meta
close id ended_at r_task meta db =
    let db' = close_row id ended_at r_task db in
    elim meta [ none ↦ db' | some m ↦ update_meta id m db' ]

-- `adaptEpisodesRepo(…).reopen`
unfoldable pub reopen : String → Option Meta → Db → Db
unfolding reopen_row update_meta
reopen id meta db = elim (get id db.episodes) [
  | none ↦ db
  | some cur ↦
      let db' = reopen_row id db in elim meta [ none ↦ db' | some m ↦ update_meta id m db' ]
]
