-- ===== src/Skill/Lifecycle/Moves.antt =====
-- core/skill/lifecycle.ts: which moves between the states a feedback signal can make.
use memos_qdrant.Shared.{ℕ, Option, none, some, leb, Bool-cases, inl, inr}
use memos_qdrant.Skill.Lifecycle.{
  Numbers, SkillStatus, candidate, active, archived, SkillLifecycleTransition, SkillFeedbackKind,
  trial_pass, trial_fail, user_positive, user_negative, reward_updated, SkillRow, SkillConfig,
  apply_feedback, apply_trial, apply_thumbs, apply_reward_drift, tried, floored, thumbed, drifted,
}

pub data Source : Type 0 where
  trial thumbs reward : Source

abbrev pub source : SkillFeedbackKind → Source
source trial_pass = trial
source trial_fail = trial
source user_positive = thumbs
source user_negative = thumbs
source reward_updated = reward

-- The state machine: the state before, what the signal comes from, the state after and the
-- transition that is reported.
pub data Move : SkillStatus → Source → SkillStatus → Option SkillLifecycleTransition → Type 0 where
  stays : (s : SkillStatus) (c : Source) → Move s c s none
  promotes : Move candidate trial active (some SkillLifecycleTransition.promoted)
  fails_trials : Move candidate trial archived (some SkillLifecycleTransition.archived)
  decays_trial : Move active trial archived (some SkillLifecycleTransition.archived)
  decays_thumbs_candidate : Move candidate thumbs archived (some SkillLifecycleTransition.archived)
  decays_thumbs_active : Move active thumbs archived (some SkillLifecycleTransition.archived)
  demotes_candidate : Move candidate reward archived (some SkillLifecycleTransition.demoted)
  demotes_active : Move active reward archived (some SkillLifecycleTransition.demoted)
  revives : Move archived thumbs candidate (some SkillLifecycleTransition.promoted)

module _ (n : Numbers) where
  tried-Move :
      (s : SkillStatus) (t : ℕ) (eta : n.Num) (cfg : SkillConfig n)
      → Move s trial
          (floored n (tried n s t eta cfg) eta cfg).0
          (floored n (tried n s t eta cfg) eta cfg).1
  tried-Move candidate t eta cfg = elim (Bool-cases (leb cfg.candidate_trials t)) [
    | inr e ↦ simp e (stays candidate trial)
    | inl e ↦ elim (Bool-cases (n.ge eta cfg.min_eta_for_retrieval)) [
      | inr g ↦ simp (e, g) fails_trials
      | inl g ↦ elim (Bool-cases (n.lt eta cfg.archive_eta)) [
        | inl l ↦ simp (e, g, l) fails_trials
        | inr l ↦ simp (e, g, l) promotes
      ]
    ]
  ]
  tried-Move active t eta cfg = elim (Bool-cases (n.lt eta cfg.archive_eta)) [
    | inl l ↦ simp l decays_trial
    | inr l ↦ simp l (stays active trial)
  ]
  tried-Move archived t eta cfg = stays archived trial

  thumbed-Move :
      (s : SkillStatus) (eta : n.Num) (cfg : SkillConfig n)
      → Move s thumbs (thumbed n s eta cfg).0 (thumbed n s eta cfg).1
  thumbed-Move candidate eta cfg = elim (Bool-cases (n.lt eta cfg.archive_eta)) [
    | inl l ↦ simp l decays_thumbs_candidate
    | inr l ↦ simp l (stays candidate thumbs)
  ]
  thumbed-Move active eta cfg = elim (Bool-cases (n.lt eta cfg.archive_eta)) [
    | inl l ↦ simp l decays_thumbs_active
    | inr l ↦ simp l (stays active thumbs)
  ]
  thumbed-Move archived eta cfg = elim (Bool-cases (n.ge eta cfg.min_eta_for_retrieval)) [
    | inl l ↦ simp l revives
    | inr l ↦ simp l (stays archived thumbs)
  ]

  drifted-Move :
      (s : SkillStatus) (eta : n.Num) (cfg : SkillConfig n)
      → Move s reward (drifted n s eta cfg).0 (drifted n s eta cfg).1
  drifted-Move candidate eta cfg = elim (Bool-cases (n.lt eta cfg.archive_eta)) [
    | inl l ↦ simp l demotes_candidate
    | inr l ↦ simp l (stays candidate reward)
  ]
  drifted-Move active eta cfg = elim (Bool-cases (n.lt eta cfg.archive_eta)) [
    | inl l ↦ simp l demotes_active
    | inr l ↦ simp l (stays active reward)
  ]
  drifted-Move archived eta cfg = stays archived reward

  -- Every feedback signal makes a move of the state machine and reports its transition: a
  -- candidate becomes active on a trial alone, an archived skill comes back as a candidate on a
  -- thumb alone, an active one never goes back to candidate, and nothing is reported where the
  -- state stays.
  pub apply_feedback-Move :
      (skill : SkillRow n) (kind : SkillFeedbackKind) (cfg : SkillConfig n) (m : Option n.Num)
      → Move skill.status
          (source kind)
          (apply_feedback n skill kind cfg m).status
          (apply_feedback n skill kind cfg m).transition
  unfolding apply_feedback apply_trial apply_thumbs apply_reward_drift
  apply_feedback-Move skill trial_pass cfg m = tried-Move skill.status _ _ cfg
  apply_feedback-Move skill trial_fail cfg m = tried-Move skill.status _ _ cfg
  apply_feedback-Move skill user_positive cfg m = thumbed-Move skill.status _ cfg
  apply_feedback-Move skill user_negative cfg m = thumbed-Move skill.status _ cfg
  apply_feedback-Move skill reward_updated cfg m = drifted-Move skill.status _ cfg
