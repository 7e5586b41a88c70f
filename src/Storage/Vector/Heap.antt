-- ===== src/Storage/Vector/Heap.antt =====
-- core/storage/vector.ts: the bounded min-heap of `topKCosine`, an array of things with a score.
-- The loops read and write in range: their index is below the length, and so is its parent.
pub mod Order
pub mod Keys
pub mod Up
pub mod Down
pub mod Push
use memos_qdrant.Shared.{
  ℕ, zero, suc, ◌+◌, ◌*◌, ◌/◌, Bool, true, false, Option, none, some, List, [], ◌∷◌, ◌++◌, ◌&&◌,
  ltb, ◌==◌, nat_eq, length, get_elem?, set_at, if◌then◌else◌,
}
use memos_qdrant.Shared.Num.{Arith}

module _ {ℓ} {A : Type ℓ} where
  abbrev pub exchanged : ℕ → ℕ → List A → Option A → Option A → List A
  exchanged i j h none y = h
  exchanged i j h (some x) none = h
  exchanged i j h (some x) (some y) = set_at j x (set_at i y h)

  -- `[h[i], h[j]] = [h[j], h[i]]`
  abbrev pub exchange : ℕ → ℕ → List A → List A
  exchange i j h = exchanged i j h (get_elem? h i) (get_elem? h j)

module _ (n : Arith) {A : Type 0} (score : A → n.Num) where
  abbrev pub scored : (n.Num → n.Num → Bool) → Option A → Option A → Bool
  scored test none y = false
  scored test (some x) none = false
  scored test (some x) (some y) = test (score x) (score y)

  -- A test on the scores at two indices.
  abbrev pub scores : (n.Num → n.Num → Bool) → List A → ℕ → ℕ → Bool
  scores test h i j = scored test (get_elem? h i) (get_elem? h j)

  -- `while (i > 0)`: a round halves `i`, which bounds the rounds.
  unfoldable pub sift_up : ℕ → List A → ℕ → List A
  sift_up zero h i = h
  sift_up (suc rounds) h zero = h
  sift_up (suc rounds) h (suc j) =
      let p = j / 2 in
      elim (scores n.le h p (suc j)) [ true ↦ h | false ↦ sift_up rounds (exchange p (suc j) h) p ]

  -- `if (c < n && heap[c].score < heap[smallest].score) smallest = c`
  abbrev pub smaller : List A → ℕ → ℕ → ℕ
  smaller h c smallest = if ltb c (length h) && scores n.lt h c smallest then c else smallest

  abbrev pub smallest_of : List A → ℕ → ℕ
  smallest_of h i = smaller h (2 * i + 2) (smaller h (2 * i + 1) i)

  -- `for (;;)`: a round at least doubles `i`, which stays below the length.
  unfoldable pub sift_down : ℕ → List A → ℕ → List A
  sift_down zero h i = h
  sift_down (suc rounds) h i =
      let smallest = smallest_of h i in
      elim (smallest == i) [ true ↦ h | false ↦ sift_down rounds (exchange i smallest h) smallest ]

  -- The branch for a full heap; a bound of zero keeps nothing.
  abbrev pub push_full : A → List A → List A
  push_full item [] = []
  push_full item (top ∷ rest) =
      let h = sift_down (length (top ∷ rest)) (item ∷ rest) 0 in
      if n.le (score item) (score top) then top ∷ rest else h

  unfoldable pub push_bounded : List A → A → ℕ → List A
  unfolding sift_up sift_down
  push_bounded heap item k =
      if ltb (length heap) k
      then sift_up (length heap) (heap ++ (item ∷ [])) (length heap)
      else push_full item heap
