-- ===== src/Reward/Backprop.antt =====
-- core/reward/backprop.ts. JavaScript numbers are the interface `Arith`, dates included.
pub mod Values
use memos_qdrant.Shared.{
  ℕ, String, Bool, true, false, Option, none, some, List, [], ◌∷◌, not, if◌then◌else◌, length,
}
use memos_qdrant.Shared.Num.{Arith, zero_num, one_num, negated}

module _ (n : Arith) where
  -- The fields of a trace that the walk reads.
  pub record Trace : Type 0 where
    pub id : String
    pub ts : n.Num
    pub alpha : n.Num

  pub record BackpropInput : Type 0 where
    pub traces : List Trace
    pub r_human : n.Num
    pub gamma : n.Num
    pub decay_half_life_days : n.Num
    pub now : Option n.Num

  pub record BackpropUpdate : Type 0 where
    pub trace_id : String
    pub value : n.Num
    pub alpha : n.Num
    pub priority : n.Num

  pub record EchoParams : Type 0 where
    pub gamma : n.Num
    pub decay_half_life_days : n.Num
    pub now : n.Num

  pub record BackpropResult : Type 0 where
    pub updates : List BackpropUpdate
    pub mean_abs_value : n.Num
    pub max_priority : n.Num
    pub echo_params : EchoParams

  abbrev pub ms_per_day : n.Num
  ms_per_day = n.of_nat 86_400_000

  unfoldable pub clamp : n.Num → n.Num → n.Num → n.Num
  clamp v lo hi = if not (n.is_finite v) then zero_num n else n.max lo (n.min hi v)

  abbrev pub clamp_unit : n.Num → n.Num
  clamp_unit v = clamp v (zero_num n) (one_num n)

  unfoldable pub clamp_signed : n.Num → n.Num
  unfolding clamp
  clamp_signed v = clamp v (negated n (one_num n)) (one_num n)

  abbrev pub decay_at : n.Num → n.Num → n.Num → n.Num
  decay_at half_life now ts =
      let dt_days = n.max (zero_num n) (n.div (n.sub now ts) ms_per_day) in
      n.pow (n.div (n.of_nat 1) (n.of_nat 2)) (n.div dt_days half_life)

  unfoldable pub priority_for : n.Num → n.Num → n.Num → n.Num → n.Num
  priority_for value ts decay_half_life_days now =
      let half_life = n.max (one_num n) decay_half_life_days in
      n.mul (n.max value (zero_num n)) (decay_at half_life now ts)

  -- The variables of the loop, which runs from the last trace to the first.
  pub record Walk : Type 0 where
    pub updates : List BackpropUpdate
    pub next_v : n.Num
    pub sum_abs_v : n.Num
    pub max_priority : n.Num

  module _ (gamma r_human now half_life : n.Num) where
    -- V of a trace: the human's reward at the last one.
    abbrev pub value_of : n.Num → List Trace → n.Num → n.Num
    value_of alpha [] next_v = r_human
    value_of alpha (_ ∷ _) next_v =
        n.add (n.mul alpha r_human) (n.mul (n.mul (n.sub (one_num n) alpha) gamma) next_v)

    abbrev pub step : Trace → n.Num → n.Num → Walk → Walk
    step t alpha v w =
        let priority = n.mul (n.max v (zero_num n)) (decay_at half_life now t.ts) in
        record {
          updates =
              record { trace_id = t.id; value = v; alpha = alpha; priority = priority } ∷ w.updates;
          next_v = v;
          sum_abs_v = n.add w.sum_abs_v (n.abs v);
          max_priority = if n.lt w.max_priority priority then priority else w.max_priority;
        }

    unfoldable pub walk : List Trace → Walk
    unfolding clamp
    walk [] = record {
      updates = [];
      next_v = r_human;
      sum_abs_v = zero_num n;
      max_priority = zero_num n;
    }
    walk (t ∷ ts) =
        let w = walk ts in
        let alpha = clamp_unit t.alpha in step t alpha (value_of alpha ts w.next_v) w

  abbrev pub or_else : Option n.Num → n.Num → n.Num
  or_else none x = x
  or_else (some y) x = y

  abbrev pub mean_of : List BackpropUpdate → n.Num → n.Num
  mean_of [] sum = zero_num n
  mean_of (u ∷ us) sum = n.div sum (n.of_nat (length (u ∷ us)))

  -- `date_now` is `Date.now()`.
  unfoldable pub backprop : n.Num → BackpropInput → BackpropResult
  unfolding clamp clamp_signed walk
  backprop date_now input =
      let gamma = clamp_unit input.gamma in
      let now = or_else input.now date_now in
      let half_life = n.max (one_num n) input.decay_half_life_days in
      let w = walk gamma (clamp_signed input.r_human) now half_life input.traces in
      record {
        updates = w.updates;
        mean_abs_value = mean_of w.updates w.sum_abs_v;
        max_priority = w.max_priority;
        echo_params = record { gamma = gamma; decay_half_life_days = half_life; now = now };
      }
