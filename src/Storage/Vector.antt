-- ===== src/Storage/Vector.antt =====
-- core/storage/vector.ts: dot products and cosines. A vector is the list of its components; `none`
-- is the error that `dot` throws where the dimensions differ.
pub mod Heap
pub mod TopK
use memos_qdrant.Shared.{
  Bool, Option, none, some, List, [], ◌∷◌, length, ◌==◌, nat_eq, ◌||◌, if◌then◌else◌,
}
use memos_qdrant.Shared.Num.{Arith, zero_num}

module _ (n : Arith) where
  abbrev pub dot_from : n.Num → List n.Num → List n.Num → n.Num
  dot_from s [] b = s
  dot_from s (x ∷ a) [] = s
  dot_from s (x ∷ a) (y ∷ b) = dot_from (n.add s (n.mul x y)) a b

  unfoldable pub dot : List n.Num → List n.Num → Option n.Num
  dot a b = if length a == length b then some (dot_from (zero_num n) a b) else none

  abbrev pub norm2_from : n.Num → List n.Num → n.Num
  norm2_from s [] = s
  norm2_from s (x ∷ a) = norm2_from (n.add s (n.mul x x)) a

  unfoldable pub norm2 : List n.Num → n.Num
  norm2 a = norm2_from (zero_num n) a

  abbrev pub is_zero : n.Num → Bool
  is_zero x = n.eq x (zero_num n)

  abbrev pub scaled_by : n.Num → Option n.Num → Option n.Num
  scaled_by d none = none
  scaled_by d (some x) = some (n.div x d)

  unfoldable pub cosine : List n.Num → List n.Num → Option n.Num
  unfolding dot norm2
  cosine a b =
      let na = n.sqrt (norm2 a) in
      let nb = n.sqrt (norm2 b) in
      elim (dot a b) [
        | none ↦ none
        | some d ↦ some (if is_zero na || is_zero nb then zero_num n else n.div d (n.mul na nb))
      ]

  unfoldable pub cosine_prenormed : List n.Num → n.Num → List n.Num → n.Num → Option n.Num
  unfolding dot
  cosine_prenormed a a_norm b b_norm2 =
      if is_zero a_norm || is_zero b_norm2
      then some (zero_num n)
      else scaled_by (n.mul a_norm (n.sqrt b_norm2)) (dot a b)
