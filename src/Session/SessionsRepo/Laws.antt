-- ===== src/Session/SessionsRepo/Laws.antt =====
-- The rows of `sessions` stay under their ids.
use memos_qdrant.Shared.{
  ℕ, String, ◌≡◌, refl, false, Option, none, some, arith, string_eq, ==_iff, Option-cases, inl, inr,
}
use memos_qdrant.Shared.Keyed.{get, set, has, get-set, get-set_self, has-none}
use memos_qdrant.Shared.Json.{Double, Meta, stored}
use memos_qdrant.Session.Db.{SessionRow, Db, get-update}
use memos_qdrant.Session.SessionsRepo.{upsert, upsert_if_missing, touch_last_seen}
use memos_qdrant.Session.EpisodesRepo.{close, reopen}

abbrev pub RowsKeyed : Db → Type 0
RowsKeyed db = (id : String) (row : SessionRow) → get id db.sessions ≡ some row → row.id ≡ id

pub touch_last_seen-RowsKeyed :
    (sid : String) (ts : ℕ) (patch : Option Meta) (db : Db)
    → RowsKeyed db
    → RowsKeyed (touch_last_seen sid ts patch db)
unfolding touch_last_seen
touch_last_seen-RowsKeyed sid ts patch db k id row h = elim (Option-cases (get id db.sessions)) [
  | inl e ↦ absurd (ground (arith, e, rw (get-update sid id, e) at h))
  | inr (r, e) ↦ ground (arith, e, k id r e, rw (get-update sid id, e) at h)
]

pub upsert_if_missing-RowsKeyed :
    (new : SessionRow) (db : Db) → RowsKeyed db → RowsKeyed (upsert_if_missing new db)
unfolding upsert_if_missing has
upsert_if_missing-RowsKeyed new db k = elim (Option-cases (get new.id db.sessions)) [
  | inr (r, e) ↦ rw (e, upsert_if_missing) k
  | inl e ↦
      rw (e, upsert_if_missing)
        (λ id row h. ground (
          arith,
          k id row,
          ==_iff new.id id,
          get-set new.id id (record new { meta = stored new.meta }) db.sessions,
        ))
]

upsert_new :
    (new : SessionRow) (db : Db)
    → has new.id db.sessions ≡ false
    → upsert new db
      ≡ record db { sessions = set new.id (record new { meta = stored new.meta }) db.sessions }
unfolding upsert
upsert_new new db h = simp h

-- The id is there afterwards, and a present row is left alone.
pub get-upsert_if_missing :
    (new : SessionRow) (db : Db)
    → (row : SessionRow) × (get new.id (upsert_if_missing new db).sessions ≡ some row)
      × ((upsert_if_missing new db).episodes ≡ db.episodes)
      × ((r : SessionRow) → get new.id db.sessions ≡ some r → row ≡ r)
unfolding upsert_if_missing
get-upsert_if_missing new db = elim (Option-cases (get new.id db.sessions)) [
  | inr (r, e) ↦
      (r, rw (e, upsert_if_missing) e, rw (e, upsert_if_missing), λ s h. ground (arith, e))
  | inl e ↦ (
    record new { meta = stored new.meta },
    rw (e, upsert_if_missing)
        (rw (upsert_new new db (has-none new.id db.sessions e))
          (get-set_self new.id _ db.sessions)),
    rw (e, upsert_if_missing) (rw (upsert_new new db (has-none new.id db.sessions e)) refl),
    λ s h. absurd (ground (arith, e)),
  )
]

pub sessions-close :
    (id : String) (t : ℕ) (r : Option Double) (m : Option Meta) (db : Db)
    → (close id t r m db).sessions ≡ db.sessions
unfolding close
sessions-close id t none none db = refl
sessions-close id t none (some m) db = refl
sessions-close id t (some r) none db = refl
sessions-close id t (some r) (some m) db = refl

pub sessions-reopen :
    (id : String) (m : Option Meta) (db : Db) → (reopen id m db).sessions ≡ db.sessions
unfolding reopen
sessions-reopen id none db = ground arith
sessions-reopen id (some m) db = ground arith
