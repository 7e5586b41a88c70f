-- ===== src/Session/SessionsRepo.antt =====
-- core/storage/repos/sessions.ts, and `adaptSessionsRepo` of core/session/persistence.ts.
pub mod Laws
use memos_qdrant.Shared.{
  ℕ, suc, String, ◌≡◌, Bool, true, false, Option, none, some, List, [], ◌∷◌, ◌==◌, string_eq, ltb,
  if◌then◌else◌, take, arith, ==_iff,
}
use memos_qdrant.Shared.Keyed.{Map, get, set, delete, has}
use memos_qdrant.Shared.Json.{Meta, spread, stored}
use memos_qdrant.Session.Db.{SessionRow, EpisodeRow, Db, update, values}

-- `ON DELETE CASCADE` of episodes.session_id.
unfoldable pub cascade : String → Map String EpisodeRow → Map String EpisodeRow
cascade id [] = []
cascade id ((k, r) ∷ rows) =
    if r.session_id == id then cascade id rows else (k, r) ∷ cascade id rows

-- `INSERT OR REPLACE`: a present row is deleted first, with what refers to it.
unfoldable pub upsert : SessionRow → Db → Db
unfolding cascade
upsert row db =
    if has row.id db.sessions
    then record {
      sessions = set row.id new_row (delete row.id db.sessions);
      episodes = cascade row.id db.episodes;
    }
    else record db { sessions = set row.id new_row db.sessions }
  where
    new_row : SessionRow
    new_row = record row { meta = stored row.meta }

unfoldable pub touch : String → ℕ → Meta → Db → Db
unfolding update
touch id ts meta db = record db {
  sessions =
      update id (λ (r : SessionRow). record r { last_seen_at = ts; meta = stored meta })
        db.sessions;
}

-- One row into rows sorted by falling `last_seen_at`; rows that tie stay in table order.
unfoldable pub insert_recent : SessionRow → List SessionRow → List SessionRow
insert_recent r [] = r ∷ []
insert_recent r (s ∷ rows) =
    if ltb r.last_seen_at s.last_seen_at then s ∷ insert_recent r rows else r ∷ s ∷ rows

unfoldable pub by_recent : List SessionRow → List SessionRow
unfolding insert_recent
by_recent [] = []
by_recent (r ∷ rows) = insert_recent r (by_recent rows)

-- `ORDER BY last_seen_at DESC LIMIT @limit`
unfoldable pub list_recent : ℕ → Db → List SessionRow
unfolding values by_recent
list_recent limit db = take limit (by_recent (values db.sessions))

-- The rows below the cutoff go, with the episodes that refer to them.
unfoldable pub drop_old : ℕ → Map String SessionRow → Db → Db × ℕ
unfolding cascade
drop_old cutoff [] db = (record db { sessions = [] }, 0)
drop_old cutoff ((k, r) ∷ rows) db =
    let rest = drop_old cutoff rows db in
    if ltb r.last_seen_at cutoff
    then (record (rest.0) { episodes = cascade k (rest.0).episodes }, suc (rest.1))
    else (record (rest.0) { sessions = (k, r) ∷ (rest.0).sessions }, rest.1)

unfoldable pub delete_older_than : ℕ → Db → Db × ℕ
unfolding drop_old
delete_older_than cutoff db = drop_old cutoff db.sessions db

-- `adaptSessionsRepo(…).upsertIfMissing`
unfoldable pub upsert_if_missing : SessionRow → Db → Db
unfolding upsert
upsert_if_missing row db = elim (get row.id db.sessions) [
  | some existing ↦ db
  | none ↦ upsert row db
]

meta_of : Option SessionRow → Meta
meta_of none = []
meta_of (some r) = r.meta

-- `adaptSessionsRepo(…).touchLastSeen`
unfoldable pub touch_last_seen : String → ℕ → Option Meta → Db → Db
unfolding touch meta_of
touch_last_seen id ts patch db =
    touch id ts
      (spread (spread [] (meta_of (get id db.sessions))) (elim patch [ none ↦ [] | some p ↦ p ])) db
