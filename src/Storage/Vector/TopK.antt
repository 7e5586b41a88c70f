-- ===== src/Storage/Vector/TopK.antt =====
-- core/storage/vector.ts: `topKCosine`. A bound `k` is a natural number; `none` is an error that
-- `dot` throws.
pub mod Sorted
pub mod Best
use memos_qdrant.Shared.{
  ℕ, zero, suc, String, Bool, true, false, Option, none, some, List, [], ◌∷◌, ◌||◌, not, ◌==◌,
  nat_eq, length, map, if◌then◌else◌,
}
use memos_qdrant.Shared.Num.{Arith, zero_num}
use memos_qdrant.Storage.Vector.{norm2, is_zero, cosine_prenormed}
use memos_qdrant.Storage.Vector.Heap.{push_bounded}

pub record VectorRow (n : Arith) (Meta : Type 0) : Type 0 where
  pub id : String
  pub vec : List n.Num
  pub norm2 : Option n.Num
  pub meta : Meta

pub record VectorHit (n : Arith) (Meta : Type 0) : Type 0 where
  pub id : String
  pub score : n.Num
  pub meta : Meta

-- An error ends the loop.
abbrev pub and_then {ℓ κ} : {A : Type ℓ} {B : Type κ} → Option A → (A → Option B) → Option B
and_then none f = none
and_then (some a) f = f a

module _ (n : Arith) {Meta : Type 0} where
  -- `row.norm2`, computed where it was missing
  abbrev pub norm2_of : VectorRow n Meta → n.Num
  norm2_of row = elim row.norm2 [ none ↦ norm2 n row.vec | some x ↦ x ]

  -- The two `continue`s: an empty vector, and another dimension.
  abbrev pub is_skipped : List n.Num → VectorRow n Meta → Bool
  is_skipped query row = length row.vec == 0 || not (length row.vec == length query)

  -- What the loop leaves in `rows`.
  abbrev pub with_norm2 : List n.Num → VectorRow n Meta → VectorRow n Meta
  with_norm2 query row =
      if is_skipped query row then row else record row { norm2 = some (norm2_of row) }

  abbrev pub hit_of : VectorRow n Meta → n.Num → VectorHit n Meta
  hit_of row score = record { id = row.id; score = score; meta = row.meta }

  -- One round of the loop over the rows.
  unfoldable pub visit :
      List n.Num
      → n.Num
      → ℕ
      → VectorRow n Meta
      → List (VectorHit n Meta)
      → Option (List (VectorHit n Meta))
  unfolding norm2 cosine_prenormed push_bounded
  visit query q_norm k row heap =
      if is_skipped query row
      then some heap
      else elim (cosine_prenormed n query q_norm row.vec (norm2_of row)) [
        | none ↦ none
        | some score ↦
            some (push_bounded n (λ (h : VectorHit n Meta). h.score) heap (hit_of row score) k)
      ]

  unfoldable pub visit_all :
      List n.Num
      → n.Num
      → ℕ
      → List (VectorRow n Meta)
      → List (VectorHit n Meta)
      → Option (List (VectorHit n Meta))
  unfolding visit
  visit_all query q_norm k [] heap = some heap
  visit_all query q_norm k (row ∷ rows) heap =
      and_then (visit query q_norm k row heap) (λ h. visit_all query q_norm k rows h)

  -- The comparison of the last sort, `b.score - a.score`, above zero.
  abbrev pub sorts_after : VectorHit n Meta → VectorHit n Meta → Bool
  sorts_after a b = n.lt (zero_num n) (n.sub b.score a.score)

  abbrev pub insert_hit : VectorHit n Meta → List (VectorHit n Meta) → List (VectorHit n Meta)
  insert_hit a [] = a ∷ []
  insert_hit a (b ∷ bs) =
      let rest = insert_hit a bs in if sorts_after a b then b ∷ rest else a ∷ b ∷ bs

  unfoldable pub sort_hits : List (VectorHit n Meta) → List (VectorHit n Meta)
  sort_hits [] = []
  sort_hits (a ∷ bs) = insert_hit a (sort_hits bs)

  abbrev pub is_none_asked : ℕ → List (VectorRow n Meta) → Bool
  is_none_asked k [] = true
  is_none_asked k (row ∷ rows) = k == 0

  -- After the loop, which leaves a norm in each row that it scored.
  unfoldable pub finished :
      List n.Num
      → List (VectorRow n Meta)
      → Option (List (VectorHit n Meta))
      → Option (List (VectorHit n Meta) × List (VectorRow n Meta))
  unfolding sort_hits
  finished query rows none = none
  finished query rows (some heap) = some (sort_hits heap, map (with_norm2 query) rows)

  -- The hits, and the rows as the call leaves them.
  unfoldable pub top_k_cosine :
      List n.Num
      → List (VectorRow n Meta)
      → ℕ
      → Option (List (VectorHit n Meta) × List (VectorRow n Meta))
  unfolding norm2 visit_all finished
  top_k_cosine query rows k =
      let q_norm = n.sqrt (norm2 n query) in
      if is_none_asked k rows || is_zero n q_norm
      then some ([], rows)
      else finished query rows (visit_all query q_norm k rows [])
