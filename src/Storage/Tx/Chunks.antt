-- ===== src/Storage/Tx/Chunks.antt =====
-- core/storage/tx.ts: `chunkIn` cuts a list into pieces that fit.
use memos_qdrant.Shared.{
  ℕ, zero, suc, ◌≤◌, ◌<◌, ◌≡◌, refl, ◌∙◌, ap, List, [], ◌∷◌, ◌++◌, length, take, drop, length-take,
  take-append-drop, All, arith,
}
use memos_qdrant.Storage.Tx.{chunks_from, chunk_in}

module _ {ℓ} {A : Type ℓ} where
  abbrev pub concat : List (List A) → List A
  concat [] = []
  concat (xs ∷ xss) = xs ++ concat xss

  length-drop : (n : ℕ) (xs : List A) → length (drop n xs) ≤ length xs
  length-drop zero xs = omega arith
  length-drop (suc n) [] = omega arith
  length-drop (suc n) (x ∷ xs) = omega (arith, length-drop n xs)

  concat-chunks_from :
      (fuel size : ℕ) (xs : List A) → length xs ≤ fuel → concat (chunks_from fuel size xs) ≡ xs
  concat-chunks_from zero size [] h = refl
  concat-chunks_from zero size (x ∷ xs) h = absurd (omega (arith, h))
  concat-chunks_from (suc fuel) size [] h = refl
  concat-chunks_from (suc fuel) size (x ∷ xs) h =
      ap (λ ys. take (suc size) (x ∷ xs) ++ ys)
        (concat-chunks_from fuel size (drop size xs) (omega (arith, h, length-drop size xs)))
      ∙ take-append-drop (suc size) (x ∷ xs)

  chunks_from-fit :
      (fuel size : ℕ) (xs : List A)
      → All (λ c. (0 < length c) × (length c ≤ suc size)) (chunks_from fuel size xs)
  chunks_from-fit zero size xs = tt
  chunks_from-fit (suc fuel) size [] = tt
  chunks_from-fit (suc fuel) size (x ∷ xs) = (
    (omega (arith, length-take size xs), omega (arith, length-take size xs)),
    chunks_from-fit fuel size (drop size xs),
  )

  -- The chunks of a list, put together in order, are the list; none is empty, and none is longer
  -- than the chunk size.
  pub chunk_in_lem :
      (items : List A) (size : ℕ)
      → (concat (chunk_in items size) ≡ items)
        × All (λ c. (0 < length c) × (length c ≤ suc size)) (chunk_in items size)
  unfolding chunk_in
  chunk_in_lem items size = (
    concat-chunks_from (length items) size items (omega arith),
    chunks_from-fit (length items) size items,
  )
