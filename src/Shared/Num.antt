-- ===== src/Shared/Num.antt =====
-- JavaScript numbers as an interface. A literal such as 0.3 is the quotient of two whole numbers,
-- since a division rounds to the nearest double.
use Prim.Native.Nat.{ℕ}
use memos_qdrant.Shared.Tests.{leb, ltb}
use mathlib.Core.Path.{◌≡◌}
use mathlib.Core.Bool.{Bool, true}

pub record Arith : Type 1 where
  pub Num : Type 0
  pub is_finite : Num → Bool
  pub lt : Num → Num → Bool
  pub le : Num → Num → Bool
  pub eq : Num → Num → Bool
  pub add : Num → Num → Num
  pub sub : Num → Num → Num
  pub mul : Num → Num → Num
  pub div : Num → Num → Num
  pub max : Num → Num → Num
  pub min : Num → Num → Num
  pub pow : Num → Num → Num
  pub sqrt : Num → Num
  pub abs : Num → Num
  pub of_nat : ℕ → Num
  pub neg_infinity : Num

module _ (n : Arith) where
  abbrev pub zero_num : n.Num
  zero_num = n.of_nat 0

  abbrev pub one_num : n.Num
  one_num = n.of_nat 1

  abbrev pub negated : n.Num → n.Num
  negated x = n.sub zero_num x

  abbrev pub Le : n.Num → n.Num → Type 0
  Le x y = n.le x y ≡ true

  -- Between two bounds.
  abbrev pub Within : n.Num → n.Num → n.Num → Type 0
  Within lo hi x = Le lo x × Le x hi

  -- What IEEE 754 arithmetic with rounding to nearest has near zero and one, NaN and the
  -- infinities included: rounding is monotone and symmetric between -1 and 1, a product with a
  -- number of at most one does not grow, and what is left of one adds up to one at most.
  pub record RoundingLaws : Type 0 where
    pub le_trans : (x y z : n.Num) → Le x y → Le y z → Le x z
    pub zero-one : Le zero_num one_num
    pub minus_one-zero : Le (negated one_num) zero_num
    pub minus_one-one : Le (negated one_num) one_num
    pub zero-zero : Le zero_num zero_num
    pub clamped :
        (lo hi x : n.Num) → n.is_finite x ≡ true → Le lo hi → Within lo hi (n.max lo (n.min hi x))
    pub minus_zero-zero : Le (negated zero_num) zero_num
    pub add_mono :
        (x y a b : n.Num)
        → Within (negated one_num) one_num x
        → Within (negated one_num) one_num y
        → Within (negated one_num) one_num a
        → Within (negated one_num) one_num b
        → Le x a
        → Le y b
        → Le (n.add x y) (n.add a b)
    pub negated_mono : (x y : n.Num) → Le x y → Le (negated y) (negated x)
    pub negated-add :
        (x y : n.Num)
        → Within zero_num one_num x
        → Within zero_num one_num y
        → Le (negated (n.add x y)) (n.add (negated x) (negated y))
    pub scaled :
        (a x : n.Num)
        → Within zero_num one_num a
        → Within (negated one_num) one_num x
        → Within (negated a) a (n.mul a x)
    pub product :
        (a b : n.Num)
        → Within zero_num one_num a
        → Within zero_num one_num b
        → Within zero_num a (n.mul a b)
    pub complement :
        (a : n.Num)
        → Within zero_num one_num a
        → Within zero_num one_num (n.sub one_num a) × Le (n.add a (n.sub one_num a)) one_num

-- The numbers, NaN apart, in an order of keys, which `<=` and `<` test.
pub record OrderLaws (n : Arith) : Type 0 where
  pub key : n.Num → ℕ
  pub le_key : (x y : n.Num) → n.eq x x ≡ true → n.eq y y ≡ true → n.le x y ≡ leb (key x) (key y)
  pub lt_key : (x y : n.Num) → n.eq x x ≡ true → n.eq y y ≡ true → n.lt x y ≡ ltb (key x) (key y)
  pub sub_sign :
      (x y : n.Num) → n.eq x x ≡ true → n.eq y y ≡ true → n.lt (n.of_nat 0) (n.sub y x) ≡ n.lt x y
