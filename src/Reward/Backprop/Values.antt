-- ===== src/Reward/Backprop/Values.antt =====
-- core/reward/backprop.ts: the values that are written.
use memos_qdrant.Shared.{◌≡◌, refl, ap, List, [], ◌∷◌, map, All, Bool-cases, inl, inr}
use memos_qdrant.Shared.Num.{Arith, RoundingLaws, zero_num, one_num, negated, Le, Within}
use memos_qdrant.Reward.Backprop.{
  Trace, BackpropInput, BackpropUpdate, Walk, clamp, clamp_signed, value_of, walk, backprop,
}

module _ (n : Arith) (laws : RoundingLaws n) where
  abbrev pub IsUnit : n.Num → Type 0
  IsUnit = Within n (zero_num n) (one_num n)

  abbrev pub IsSigned : n.Num → Type 0
  IsSigned = Within n (negated n (one_num n)) (one_num n)

  clamp-Within :
      (lo hi v : n.Num)
      → Le n lo hi
      → Within n lo hi (zero_num n)
      → Within n lo hi (clamp n v lo hi)
  unfolding clamp
  clamp-Within lo hi v h z = elim (Bool-cases (n.is_finite v)) [
    | inl e ↦ rw e (laws.clamped lo hi v e h)
    | inr e ↦ rw e z
  ]

  clamp-IsUnit : (v : n.Num) → IsUnit (clamp n v (zero_num n) (one_num n))
  clamp-IsUnit v = clamp-Within _ _ v laws.zero-one (laws.zero-zero, laws.zero-one)

  clamp_signed-IsSigned : (v : n.Num) → IsSigned (clamp_signed n v)
  unfolding clamp_signed
  clamp_signed-IsSigned v =
      clamp-Within _ _ v laws.minus_one-one (laws.minus_one-zero, laws.zero-one)

  unit-IsSigned : (a : n.Num) → IsUnit a → IsSigned a
  unit-IsSigned a h = (laws.le_trans _ _ _ laws.minus_one-zero h.0, h.1)

  negated-IsSigned : (a : n.Num) → IsUnit a → IsSigned (negated n a)
  negated-IsSigned a h = (
    laws.negated_mono a (one_num n) h.1,
    laws.le_trans _ _ _ (laws.negated_mono (zero_num n) a h.0)
        (laws.le_trans _ _ _ laws.minus_zero-zero laws.zero-one),
  )

  -- Between a number and its opposite.
  amid : (a x : n.Num) → IsUnit a → Within n (negated n a) a x → IsSigned x
  amid a x h k = (laws.le_trans _ _ _ (negated-IsSigned a h).0 k.0, laws.le_trans _ _ _ k.1 h.1)

  -- A convex combination of two values between -1 and 1, the second one discounted.
  blend-IsSigned :
      (a g r v : n.Num)
      → IsUnit a
      → IsUnit g
      → IsSigned r
      → IsSigned v
      → IsSigned (n.add (n.mul a r) (n.mul (n.mul (n.sub (one_num n) a) g) v))
  blend-IsSigned a g r v ha hg hr hv =
      let c = n.sub (one_num n) a in
      let q = n.mul c g in
      let (hc, total) = laws.complement a ha in
      let hq = laws.product c g hc hg in
      let unit_q : IsUnit q = (hq.0, laws.le_trans q c (one_num n) hq.1 hc.1) in
      let s = laws.scaled a r ha hr in
      let t = laws.scaled q v unit_q hv in
      let below = laws.le_trans _ _ _ (laws.negated_mono q c hq.1) t.0 in
      let above = laws.le_trans _ _ _ t.1 hq.1 in
      let least =
        laws.le_trans _ _ _ (laws.negated_mono (n.add a c) (one_num n) total)
          (laws.negated-add a c ha hc) in
      let x = amid a (n.mul a r) ha s in
      let y = amid c (n.mul q v) hc (below, above) in
      (
        laws.le_trans _ _ _ least (
            laws.add_mono (negated n a) (negated n c) _ _ (negated-IsSigned a ha)
              (negated-IsSigned c hc) x y s.0 below),
        laws.le_trans _ _ _
            (laws.add_mono _ _ a c x y (unit-IsSigned a ha) (unit-IsSigned c hc) s.1 above) total,
      )

  value_of-IsSigned :
      (g r now hl a : n.Num) (ts : List (Trace n)) (v : n.Num)
      → IsUnit a
      → IsUnit g
      → IsSigned r
      → IsSigned v
      → IsSigned (value_of n g r now hl a ts v)
  value_of-IsSigned g r now hl a [] v ha hg hr hv = hr
  value_of-IsSigned g r now hl a (t ∷ ts) v ha hg hr hv = blend-IsSigned a g r v ha hg hr hv

  -- What the loop keeps.
  record IsBounded (w : Walk n) : Type 0 where
    next : IsSigned w.next_v
    written : All (λ (u : BackpropUpdate n). IsSigned u.value × IsUnit u.alpha) w.updates

  walk-IsBounded :
      (g r now hl : n.Num) (ts : List (Trace n))
      → IsUnit g
      → IsSigned r
      → IsBounded (walk n g r now hl ts)
  unfolding walk
  walk-IsBounded g r now hl [] hg hr = record { next = hr; written = tt }
  walk-IsBounded g r now hl (t ∷ ts) hg hr =
      let b = walk-IsBounded g r now hl ts hg hr in
      let a = clamp-IsUnit t.alpha in
      let v = value_of-IsSigned g r now hl _ ts (walk n g r now hl ts).next_v a hg hr b.next in
      record { next = v; written = ((v, a), b.written) }

  walk-ids :
      (g r now hl : n.Num) (ts : List (Trace n))
      → map (λ (u : BackpropUpdate n). u.trace_id) (walk n g r now hl ts).updates
        ≡ map (λ (t : Trace n). t.id) ts
  unfolding walk
  walk-ids g r now hl [] = refl
  walk-ids g r now hl (t ∷ ts) = ap (◌∷◌ t.id) (walk-ids g r now hl ts)

  -- Where the arithmetic rounds as that of doubles does, `backprop` writes one update for each
  -- trace, in order; whatever numbers it is given, NaN and the infinities among them, each value
  -- lies between -1 and 1, and each alpha between 0 and 1.
  pub backprop_values :
      (date_now : n.Num) (input : BackpropInput n)
      → (map (λ (u : BackpropUpdate n). u.trace_id) (backprop n date_now input).updates
          ≡ map (λ (t : Trace n). t.id) input.traces)
        × All
            (λ (u : BackpropUpdate n). IsSigned u.value × IsUnit u.alpha)
            (backprop n date_now input).updates
  unfolding backprop
  backprop_values date_now input = (
    walk-ids _ _ _ _ input.traces,
    (walk-IsBounded _ _ _ _ input.traces (clamp-IsUnit input.gamma)
        (clamp_signed-IsSigned input.r_human)).written,
  )
