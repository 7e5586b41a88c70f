-- ===== src/Skill/Lifecycle.antt =====
-- core/skill/lifecycle.ts. The arithmetic of JavaScript numbers is the interface `Numbers`; the
-- default branch of `applyFeedback` is left out, for no value of `SkillFeedbackKind` takes it.
pub mod Moves
pub mod Histories
use memos_qdrant.Shared.{
  ℕ, ◌+◌, ◌-◌, Bool, true, false, Option, none, some, ◌&&◌, not, if◌then◌else◌, leb,
}
use memos_qdrant.Shared.Int.{ℤ, sub_ℕ}

-- What the code uses of JavaScript numbers.
pub record Numbers : Type 1 where
  pub Num : Type 0
  pub is_finite : Num → Bool
  pub lt : Num → Num → Bool
  pub ge : Num → Num → Bool
  pub add : Num → Num → Num
  pub mul : Num → Num → Num
  pub div : Num → Num → Num
  pub max : Num → Num → Num
  pub negate : Num → Num
  pub of_nat : ℕ → Num
  pub seven_tenths : Num
  pub three_tenths : Num

pub data SkillStatus : Type 0 where
  candidate active archived : SkillStatus

pub data SkillLifecycleTransition : Type 0 where
  crystallized verified rejected promoted demoted archived rebuilt : SkillLifecycleTransition

pub data SkillFeedbackKind : Type 0 where
  trial_pass trial_fail user_positive user_negative reward_updated : SkillFeedbackKind

module _ (n : Numbers) where
  -- The fields of `SkillRow` that the lifecycle reads.
  pub record SkillRow : Type 0 where
    pub status : SkillStatus
    pub eta : n.Num
    pub trials_attempted : ℕ
    pub trials_passed : ℕ
    pub updated_at : ℕ

  pub record SkillConfig : Type 0 where
    pub candidate_trials : ℕ
    pub min_eta_for_retrieval : n.Num
    pub archive_eta : n.Num
    pub eta_delta : n.Num

  pub record LifecycleUpdate : Type 0 where
    pub status : SkillStatus
    pub eta : n.Num
    pub trials_attempted : ℕ
    pub trials_passed : ℕ
    pub transition : Option SkillLifecycleTransition

  unfoldable pub clamp01 : n.Num → n.Num
  clamp01 x =
      if not (n.is_finite x)
      then n.of_nat 0
      else if n.lt x (n.of_nat 0)
      then n.of_nat 0
      else if n.lt (n.of_nat 1) x
      then n.of_nat 1
      else x

  abbrev pub is_candidate : SkillStatus → Bool
  is_candidate candidate = true
  is_candidate active = false
  is_candidate archived = false

  abbrev pub is_active : SkillStatus → Bool
  is_active candidate = false
  is_active active = true
  is_active archived = false

  abbrev pub is_archived : SkillStatus → Bool
  is_archived candidate = false
  is_archived active = false
  is_archived archived = true

  -- The first `if` of `applyTrial`, and the second one after it.
  abbrev pub tried :
      SkillStatus → ℕ → n.Num → SkillConfig → SkillStatus × Option SkillLifecycleTransition
  tried status trials_attempted eta cfg =
      if is_candidate status && leb cfg.candidate_trials trials_attempted
      then (if n.ge eta cfg.min_eta_for_retrieval
          then (active, some promoted)
          else (archived, some archived))
      else (status, none)

  abbrev pub floored :
      SkillStatus × Option SkillLifecycleTransition
      → n.Num
      → SkillConfig
      → SkillStatus × Option SkillLifecycleTransition
  floored (status, transition) eta cfg =
      if is_active status && n.lt eta cfg.archive_eta
      then (archived, some archived)
      else (status, transition)

  unfoldable pub apply_trial : SkillRow → Bool → SkillConfig → LifecycleUpdate
  unfolding clamp01
  apply_trial skill passed cfg =
      let trials_attempted = skill.trials_attempted + 1 in
      let trials_passed = skill.trials_passed + (if passed then 1 else 0) in
      let eta = clamp01 (n.div (n.of_nat (trials_passed + 1)) (n.of_nat (trials_attempted + 2))) in
      let (status, transition) = floored (tried skill.status trials_attempted eta cfg) eta cfg in
      record {
        status = status;
        eta = eta;
        trials_attempted = trials_attempted;
        trials_passed = trials_passed;
        transition = transition;
      }

  abbrev pub or_else : Option n.Num → n.Num → n.Num
  or_else none d = d
  or_else (some x) d = x

  -- The two `if`s of `applyThumbs`, and the one of `applyRewardDrift`.
  abbrev pub thumbed :
      SkillStatus → n.Num → SkillConfig → SkillStatus × Option SkillLifecycleTransition
  thumbed status eta cfg =
      if is_archived status && n.ge eta cfg.min_eta_for_retrieval
      then (candidate, some promoted)
      else if not (is_archived status) && n.lt eta cfg.archive_eta
      then (archived, some archived)
      else (status, none)

  abbrev pub drifted :
      SkillStatus → n.Num → SkillConfig → SkillStatus × Option SkillLifecycleTransition
  drifted status eta cfg =
      if not (is_archived status) && n.lt eta cfg.archive_eta
      then (archived, some demoted)
      else (status, none)

  -- `positive` is the sign +1.
  unfoldable pub apply_thumbs : SkillRow → Bool → SkillConfig → Option n.Num → LifecycleUpdate
  unfolding clamp01
  apply_thumbs skill positive cfg magnitude =
      let m = or_else magnitude cfg.eta_delta in
      let eta = clamp01 (n.add skill.eta (if positive then m else n.negate m)) in
      let (status, transition) = thumbed skill.status eta cfg in
      record {
        status = status;
        eta = eta;
        trials_attempted = skill.trials_attempted;
        trials_passed = skill.trials_passed;
        transition = transition;
      }

  unfoldable pub apply_reward_drift : SkillRow → SkillConfig → n.Num → LifecycleUpdate
  unfolding clamp01
  apply_reward_drift skill cfg magnitude =
      let bounded = clamp01 magnitude in
      let eta = clamp01 (n.add (n.mul n.seven_tenths skill.eta) (n.mul n.three_tenths bounded)) in
      let (status, transition) = drifted skill.status eta cfg in
      record {
        status = status;
        eta = eta;
        trials_attempted = skill.trials_attempted;
        trials_passed = skill.trials_passed;
        transition = transition;
      }

  unfoldable pub apply_feedback :
      SkillRow → SkillFeedbackKind → SkillConfig → Option n.Num → LifecycleUpdate
  unfolding apply_trial apply_thumbs apply_reward_drift
  apply_feedback skill trial_pass cfg magnitude = apply_trial skill true cfg
  apply_feedback skill trial_fail cfg magnitude = apply_trial skill false cfg
  apply_feedback skill user_positive cfg magnitude = apply_thumbs skill true cfg magnitude
  apply_feedback skill user_negative cfg magnitude = apply_thumbs skill false cfg magnitude
  apply_feedback skill reward_updated cfg magnitude =
      apply_reward_drift skill cfg (or_else magnitude (n.of_nat 0))

  -- The gain of the policy is its one field that `recomputeEta` reads.
  unfoldable pub recompute_eta : SkillRow → n.Num → SkillConfig → n.Num
  unfolding clamp01
  recompute_eta skill gain cfg =
      if leb 1 skill.trials_attempted
      then clamp01 skill.eta
      else clamp01 (n.max cfg.min_eta_for_retrieval (clamp01 gain))

  -- `age < idleMs`, where the age may be negative.
  abbrev pub lt_ℤ : ℤ → ℕ → Bool
  lt_ℤ (ℤ.pos a) m = leb (a + 1) m
  lt_ℤ (ℤ.negsuc a) m = true

  unfoldable pub should_archive_idle : SkillRow → ℕ → SkillConfig → ℕ → Bool
  should_archive_idle skill idle_ms cfg now =
      if not (is_active skill.status)
      then false
      else if lt_ℤ (sub_ℕ now skill.updated_at) idle_ms
      then false
      else n.lt skill.eta cfg.min_eta_for_retrieval
