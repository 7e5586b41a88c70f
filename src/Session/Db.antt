-- ===== src/Session/Db.antt =====
-- The tables `sessions` and `episodes` (core/storage/migrations/001-initial.sql): a table is a
-- `Map` by its primary key; a JSON column is kept as the object that reading it gives back.
use memos_qdrant.Shared.{
  ℕ, String, ◌≡◌, Option, none, some, List, [], ◌∷◌, ◌==◌, string_eq, if◌then◌else◌, arith, ==_iff,
  Option-cases, inl, inr,
}
use mathlib.Core.Option
use memos_qdrant.Shared.Keyed.{Map, get, set, get-set}
use memos_qdrant.Shared.Json.{Double, Meta}
use memos_qdrant.Session.Types.{EpisodeStatus}

pub record SessionRow : Type 0 where
  pub id : String
  pub agent : String
  pub started_at : ℕ
  pub last_seen_at : ℕ
  pub meta : Meta

pub record EpisodeRow : Type 0 where
  pub id : String
  pub session_id : String
  pub started_at : ℕ
  pub ended_at : Option ℕ
  pub trace_ids : List String
  pub r_task : Option Double
  pub status : EpisodeStatus
  pub meta : Meta

pub record Db : Type 0 where
  pub sessions : Map String SessionRow
  pub episodes : Map String EpisodeRow

-- `UPDATE … WHERE id=@id`
unfoldable pub update {ℓ} : {R : Type ℓ} → String → (R → R) → Map String R → Map String R
update id f rows = elim (get id rows) [ none ↦ rows | some r ↦ set id (f r) rows ]

unfoldable pub values {ℓ} : {R : Type ℓ} → Map String R → List R
values [] = []
values ((id, r) ∷ rows) = r ∷ values rows

pub get-update {ℓ} :
    {R : Type ℓ} (k j : String) (f : R → R) (rows : Map String R)
    → get j (update k f rows) ≡ (if k == j then Option.map f (get j rows) else get j rows)
unfolding update
get-update k j f rows = elim (Option-cases (get k rows)) [
  | inl e ↦ rw (e, update) (ground (arith, e, ==_iff k j))
  | inr (r, e) ↦ rw (e, update) (ground (arith, e, ==_iff k j, get-set k j (f r) rows))
]
