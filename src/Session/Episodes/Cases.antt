-- ===== src/Session/Episodes/Cases.antt =====
-- How an operation of the episode manager begins: it finds the episode, or throws and changes
-- nothing. The rules hand the rest of the operation the snapshot that was found.
use memos_qdrant.Shared.{
  String, ◌≡◌, refl, ◌⊎◌, inl, inr, true, false, Option, none, some, Option-cases, Bool-cases,
  string_eq,
}
use text.Mathlib.Text.{◌==◌ as str_beq}
use memos_qdrant.Shared.Keyed.{get, set, has}
use memos_qdrant.Shared.Json.{stored}
use memos_qdrant.Session.Types.{
  memos, conflict, episode_not_found, invalid_argument, unique_constraint, foreign_key_constraint,
  TurnInput, EpisodeStatus, opened, closed, EpisodeSnapshot,
}
use memos_qdrant.Session.Db.{EpisodeRow}
use memos_qdrant.Session.EpisodesRepo.{insert}
use memos_qdrant.Session.World.{World, Run, Result, err, ◌>>=◌}
use memos_qdrant.Session.Episodes.{find_episode, assert_open, check_turn, run_stmt}

pub status-cases : (x : EpisodeStatus) → (x ≡ opened) ⊎ (x ≡ closed)
status-cases opened = inl refl
status-cases closed = inr refl

module _ {ℓ} {B : Type 0} (P : Result B × World → Type ℓ) (id : String)
    (f : EpisodeSnapshot → Run B) (w : World) where
  pub find_cases :
      P (err (memos episode_not_found), w)
      → ((s : EpisodeSnapshot) → get id w.by_id ≡ some s → P (f s w))
      → P ((find_episode id >>= f) w)
  find_cases missing found = elim (Option-cases (get id w.by_id)) [
    | inl e ↦ rw e missing
    | inr (s, e) ↦ rw e (found s e)
  ]

  pub open_cases :
      P (err (memos episode_not_found), w)
      → P (err (memos conflict), w)
      → ((s : EpisodeSnapshot) → get id w.by_id ≡ some s → s.status ≡ opened → P (f s w))
      → P ((assert_open id >>= f) w)
  unfolding assert_open
  open_cases missing shut found = elim (Option-cases (get id w.by_id)) [
    | inl e ↦ rw e missing
    | inr (s, e) ↦ elim (status-cases s.status) [
      | inl o ↦ simp (e, o) (found s e o)
      | inr c ↦ simp (e, c) shut
    ]
  ]

module _ {ℓ} {B : Type 0} (P : Result B × World → Type ℓ) (w : World) where
  pub turn_cases :
      (given : Option TurnInput) (f : TurnInput → Run B)
      → P (err (memos invalid_argument), w)
      → ((t : TurnInput) → given ≡ some t → str_beq t.content "" ≡ false → P (f t w))
      → P ((check_turn given >>= f) w)
  turn_cases none f missing found = missing
  turn_cases (some t) f missing found = elim (Bool-cases (str_beq t.content "")) [
    | inl e ↦ rw e missing
    | inr e ↦ rw e (found t refl e)
  ]

  -- The row of an `INSERT` that succeeds is new, and its session is there.
  pub insert_cases :
      (row : EpisodeRow) (f : Unit {0} → Run B)
      → (has row.id w.db.episodes ≡ true → P (err unique_constraint, w))
      → (has row.session_id w.db.sessions ≡ false → P (err foreign_key_constraint, w))
      → (has row.id w.db.episodes ≡ false
          → has row.session_id w.db.sessions ≡ true
          → P (
              f tt (record w {
                db = record (w.db) {
                  episodes = set row.id (record row { meta = stored row.meta }) w.db.episodes;
                };
              })))
      → P ((run_stmt (insert row) >>= f) w)
  unfolding insert
  insert_cases row f taken orphan fresh = elim (Bool-cases (has row.id w.db.episodes)) [
    | inl e ↦ rw (e, insert, run_stmt) (taken e)
    | inr e ↦ elim (Bool-cases (has row.session_id w.db.sessions)) [
      | inl s ↦ rw (e, s, insert, run_stmt) (fresh e s)
      | inr s ↦ rw (e, s, insert, run_stmt) (orphan s)
    ]
  ]
