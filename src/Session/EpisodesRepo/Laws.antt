-- ===== src/Session/EpisodesRepo/Laws.antt =====
-- What the statements of `EpisodesRepo` do to the row under each key.
use mathlib.Core.Option
use memos_qdrant.Shared.{
  ℕ, String, ◌≡◌, Option, none, some, List, ◌==◌, string_eq, if◌then◌else◌, arith, ==_iff,
  Option-cases, inl, inr,
}
use memos_qdrant.Shared.Keyed.{get}
use memos_qdrant.Shared.Json.{Double, Meta, spread, stored}
use memos_qdrant.Session.Types.{opened, closed}
use memos_qdrant.Session.Db.{EpisodeRow, Db, get-update}
use memos_qdrant.Session.EpisodesRepo.{close, reopen, append_trace}

abbrev merged_meta : Option Meta → Meta → Meta
merged_meta none old = old
merged_meta (some m) old = stored (spread old m)

abbrev kept_r_task : Option Double → Option Double → Option Double
kept_r_task none old = old
kept_r_task (some r) old = some r

abbrev pub closed_row : ℕ → Option Double → Option Meta → EpisodeRow → EpisodeRow
closed_row ended_at r_task meta x = record x {
  status = closed;
  ended_at = some ended_at;
  r_task = kept_r_task r_task x.r_task;
  meta = merged_meta meta x.meta;
}

abbrev pub reopened_row : Option Meta → EpisodeRow → EpisodeRow
reopened_row meta x = record x { status = opened; ended_at = none; meta = merged_meta meta x.meta }

pub get-close :
    (id j : String) (t : ℕ) (r : Option Double) (m : Option Meta) (db : Db)
    → get j (close id t r m db).episodes
      ≡ (if id == j then Option.map (closed_row t r m) (get j db.episodes) else get j db.episodes)
unfolding close
get-close id j t none none db = simp get-update (ground arith)
get-close id j t none (some m) db = simp get-update (ground arith)
get-close id j t (some r) none db = simp get-update (ground arith)
get-close id j t (some r) (some m) db = simp get-update (ground arith)

pub get-reopen :
    (id j : String) (m : Option Meta) (db : Db)
    → get j (reopen id m db).episodes
      ≡ (if id == j then Option.map (reopened_row m) (get j db.episodes) else get j db.episodes)
unfolding reopen
get-reopen id j none db = elim (Option-cases (get id db.episodes)) [
  | inl e ↦ rw (e, reopen) (ground (arith, ==_iff id j, e))
  | inr (x, e) ↦ rw (e, reopen) (simp get-update)
]
get-reopen id j (some m) db = elim (Option-cases (get id db.episodes)) [
  | inl e ↦ rw (e, reopen) (ground (arith, ==_iff id j, e))
  | inr (x, e) ↦ rw (e, reopen) (simp get-update (ground arith))
]

pub get-append_trace :
    (id j : String) (ts : List String) (db : Db)
    → get j (append_trace id ts db).episodes ≡ (
        if id == j
        then Option.map (λ (x : EpisodeRow). record x { trace_ids = ts }) (get j db.episodes)
        else get j db.episodes)
unfolding append_trace
get-append_trace id j ts db = simp get-update
