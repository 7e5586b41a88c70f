-- ===== src/Reward/Tests.antt =====
-- core/reward: runs at concrete inputs.
use memos_qdrant.Shared.{
  ℕ, zero, suc, ◌≡◌, refl, Bool, true, false, some, [], ◌∷◌, map, All, ◌&&◌, ◌||◌, not, arith,
}
use memos_qdrant.Shared.Num.{Arith, RoundingLaws, Le, Within}
use memos_qdrant.Reward.Backprop.{BackpropInput, BackpropUpdate, backprop}
use memos_qdrant.Reward.Backprop.Values.{IsUnit, IsSigned, backprop_values}

-- Numbers by their signs, saturating at one.
data Sign : Type 0 where
  minus nought plus : Sign

abbrev le_sign : Sign → Sign → Bool
le_sign minus y = true
le_sign nought minus = false
le_sign nought nought = true
le_sign nought plus = true
le_sign plus minus = false
le_sign plus nought = false
le_sign plus plus = true

abbrev lt_sign : Sign → Sign → Bool
lt_sign minus minus = false
lt_sign minus nought = true
lt_sign minus plus = true
lt_sign nought minus = false
lt_sign nought nought = false
lt_sign nought plus = true
lt_sign plus y = false

abbrev eq_sign : Sign → Sign → Bool
eq_sign minus minus = true
eq_sign nought nought = true
eq_sign plus plus = true
eq_sign minus nought = false
eq_sign minus plus = false
eq_sign nought minus = false
eq_sign nought plus = false
eq_sign plus minus = false
eq_sign plus nought = false

abbrev add_sign : Sign → Sign → Sign
add_sign nought y = y
add_sign minus minus = minus
add_sign minus nought = minus
add_sign minus plus = nought
add_sign plus plus = plus
add_sign plus nought = plus
add_sign plus minus = nought

abbrev opposite : Sign → Sign
opposite minus = plus
opposite nought = nought
opposite plus = minus

abbrev mul_sign : Sign → Sign → Sign
mul_sign minus y = opposite y
mul_sign nought y = nought
mul_sign plus y = y

abbrev max_sign : Sign → Sign → Sign
max_sign minus y = y
max_sign plus y = plus
max_sign nought minus = nought
max_sign nought nought = nought
max_sign nought plus = plus

abbrev sign_of : ℕ → Sign
sign_of zero = nought
sign_of (suc k) = plus

abbrev signs : Arith
signs = record {
  Num = Sign;
  is_finite = λ x. true;
  lt = lt_sign;
  le = le_sign;
  eq = eq_sign;
  add = add_sign;
  sub = λ x y. add_sign x (opposite y);
  mul = mul_sign;
  div = mul_sign;
  max = max_sign;
  min = λ x y. opposite (max_sign (opposite x) (opposite y));
  pow = λ x y. x;
  sqrt = λ x. x;
  abs = λ x. mul_sign x x;
  of_nat = sign_of;
  neg_infinity = minus;
}

-- A test of every sign.
abbrev each : (Sign → Bool) → Bool
each p = p minus && p nought && p plus

each_sound : (p : Sign → Bool) (x : Sign) → each p ≡ true → p x ≡ true
each_sound p minus h = ground arith
each_sound p nought h = ground arith
each_sound p plus h = ground arith

-- A rule with two premises, checked at every sign.
infix 20 ◌implies◌
abbrev ◌implies◌ : Bool → Bool → Bool
a implies b = not a || b

implies_sound : (a b : Bool) → (a implies b) ≡ true → a ≡ true → b ≡ true
implies_sound true b h k = h
implies_sound false b h k = cc

each2_sound : (p : Sign → Sign → Bool) (x y : Sign) → each (λ a. each (p a)) ≡ true → p x y ≡ true
each2_sound p x y h = each_sound (p x) y (each_sound (λ a. each (p a)) x h)

each3_sound :
    (p : Sign → Sign → Sign → Bool) (x y z : Sign)
    → each (λ a. each (λ b. each (p a b))) ≡ true
    → p x y z ≡ true
each3_sound p x y z h = each2_sound (p x) y z (each_sound (λ a. each (λ b. each (p a b))) x h)

each4_sound :
    (p : Sign → Sign → Sign → Sign → Bool) (x y z w : Sign)
    → each (λ a. each (λ b. each (λ c. each (p a b c)))) ≡ true
    → p x y z w ≡ true
each4_sound p x y z w h =
    each3_sound (p x) y z w (each_sound (λ a. each (λ b. each (λ c. each (p a b c)))) x h)

le_trans : (x y z : Sign) → le_sign x y ≡ true → le_sign y z ≡ true → le_sign x z ≡ true
le_trans x y z h k =
    implies_sound (le_sign x y && le_sign y z) (le_sign x z)
      (each3_sound (λ a b c. (le_sign a b && le_sign b c) implies le_sign a c) x y z refl)
      (ground arith)

add_mono :
    (x y a b : Sign)
    → le_sign x a ≡ true
    → le_sign y b ≡ true
    → le_sign (add_sign x y) (add_sign a b) ≡ true
add_mono x y a b h k =
    implies_sound (le_sign x a && le_sign y b) (le_sign (add_sign x y) (add_sign a b))
      (each4_sound
        (λ p q r t. (le_sign p r && le_sign q t) implies le_sign (add_sign p q) (add_sign r t)) x y
        a b refl)
      (ground arith)

opposite_mono : (x y : Sign) → le_sign x y ≡ true → le_sign (opposite y) (opposite x) ≡ true
opposite_mono x y h =
    implies_sound (le_sign x y) (le_sign (opposite y) (opposite x))
      (each2_sound (λ a b. le_sign a b implies le_sign (opposite b) (opposite a)) x y refl) h

opposite-add :
    (x y : Sign) → le_sign (opposite (add_sign x y)) (add_sign (opposite x) (opposite y)) ≡ true
opposite-add x y =
    each2_sound (λ a b. le_sign (opposite (add_sign a b)) (add_sign (opposite a) (opposite b))) x y
      refl

scaled : (a x : Sign) → le_sign nought a ≡ true → Within signs (opposite a) a (mul_sign a x)
scaled minus x h = cc
scaled nought x h = (refl, refl)
scaled plus minus h = (refl, refl)
scaled plus nought h = (refl, refl)
scaled plus plus h = (refl, refl)

product :
    (a b : Sign)
    → le_sign nought a ≡ true
    → le_sign nought b ≡ true
    → Within signs nought a (mul_sign a b)
product minus b h k = cc
product nought b h k = (refl, refl)
product plus minus h k = cc
product plus nought h k = (refl, refl)
product plus plus h k = (refl, refl)

complement :
    (a : Sign)
    → le_sign nought a ≡ true
    → Within signs nought plus (add_sign plus (opposite a))
      × Le signs (add_sign a (add_sign plus (opposite a))) plus
complement minus h = cc
complement nought h = ((refl, refl), refl)
complement plus h = ((refl, refl), refl)

-- `Math.max(lo, Math.min(hi, x))`
abbrev clamp_sign : Sign → Sign → Sign → Sign
clamp_sign lo hi x = max_sign lo (opposite (max_sign (opposite hi) (opposite x)))

clamped : (lo hi x : Sign) → le_sign lo hi ≡ true → Within signs lo hi (clamp_sign lo hi x)
clamped lo hi x h = (
  implies_sound (le_sign lo hi) (le_sign lo (clamp_sign lo hi x))
      (each3_sound (λ l u v. le_sign l u implies le_sign l (clamp_sign l u v)) lo hi x refl) h,
  implies_sound (le_sign lo hi) (le_sign (clamp_sign lo hi x) hi)
      (each3_sound (λ l u v. le_sign l u implies le_sign (clamp_sign l u v) u) lo hi x refl) h,
)

signs-RoundingLaws : RoundingLaws signs
signs-RoundingLaws = record {
  le_trans = le_trans;
  zero-one = refl;
  minus_one-zero = refl;
  minus_one-one = refl;
  zero-zero = refl;
  clamped = λ lo hi x f h. clamped lo hi x h;
  minus_zero-zero = refl;
  add_mono = λ x y a b hx hy ha hb h k. add_mono x y a b h k;
  negated_mono = opposite_mono;
  negated-add = λ x y h k. opposite-add x y;
  scaled = λ a x h k. scaled a x h.0;
  product = λ a b h k. product a b h.0 k.0;
  complement = λ a h. complement a h.0;
}

abbrev input : BackpropInput signs
input = record {
  traces =
      record { id = "tr_1"; ts = plus; alpha = nought }
      ∷ record { id = "tr_2"; ts = plus; alpha = plus }
      ∷ [];
  r_human = minus;
  gamma = plus;
  decay_half_life_days = plus;
  now = some plus;
}

values :
    map (λ (u : BackpropUpdate signs). u.value) (backprop signs plus input).updates
    ≡ minus ∷ minus ∷ []
unfolding backprop
values = refl

backprop_values_example :
    (map (λ (u : BackpropUpdate signs). u.trace_id) (backprop signs plus input).updates
      ≡ "tr_1" ∷ "tr_2" ∷ [])
    × All
        (λ (u : BackpropUpdate signs).
          IsSigned signs signs-RoundingLaws u.value × IsUnit signs signs-RoundingLaws u.alpha)
        (backprop signs plus input).updates
backprop_values_example = backprop_values signs signs-RoundingLaws plus input
