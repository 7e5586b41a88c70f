-- ===== src/Skill/Lifecycle/Histories.antt =====
-- core/skill/lifecycle.ts: histories of feedback signals, each update written back to the skill as
-- `applySkillFeedback` (core/skill/skill.ts) does.
use memos_qdrant.Shared.{
  ℕ, ◌+◌, ◌≤◌, ◌≡◌, refl, true, false, Option, List, [], ◌∷◌, leb, leb→le, Bool-cases, inl, inr,
  arith,
}
use memos_qdrant.Skill.Lifecycle.{
  Numbers, SkillStatus, candidate, active, archived, SkillFeedbackKind, trial_pass, trial_fail,
  user_positive, user_negative, reward_updated, SkillRow, SkillConfig, LifecycleUpdate,
  apply_feedback, apply_trial, apply_thumbs, apply_reward_drift, clamp01, tried, floored, thumbed,
  drifted,
}

-- How doubles compare around zero and one.
pub record UnitLaws (n : Numbers) : Type 0 where
  pub zero-finite : n.is_finite (n.of_nat 0) ≡ true
  pub one-finite : n.is_finite (n.of_nat 1) ≡ true
  pub zero-zero : n.lt (n.of_nat 0) (n.of_nat 0) ≡ false
  pub one-zero : n.lt (n.of_nat 1) (n.of_nat 0) ≡ false
  pub one-one : n.lt (n.of_nat 1) (n.of_nat 1) ≡ false

-- A number that is finite and neither below zero nor above one.
pub record IsUnit (n : Numbers) (x : n.Num) : Type 0 where
  pub finite : n.is_finite x ≡ true
  pub not_below : n.lt x (n.of_nat 0) ≡ false
  pub not_above : n.lt (n.of_nat 1) x ≡ false

module _ (n : Numbers) (laws : UnitLaws n) where
  pub clamp01-IsUnit : (x : n.Num) → IsUnit n (clamp01 n x)
  unfolding clamp01
  clamp01-IsUnit x = elim (Bool-cases (n.is_finite x)) [
    | inr f ↦ simp f zero_unit
    | inl f ↦ elim (Bool-cases (n.lt x (n.of_nat 0))) [
      | inl l ↦ simp (f, l) zero_unit
      | inr l ↦ elim (Bool-cases (n.lt (n.of_nat 1) x)) [
        | inl g ↦ simp (f, l, g) one_unit
        | inr g ↦ simp (f, l, g) (record { finite = f; not_below = l; not_above = g })
      ]
    ]
  ]
    where
      zero_unit : IsUnit n (n.of_nat 0)
      zero_unit = record {
        finite = laws.zero-finite;
        not_below = laws.zero-zero;
        not_above = laws.one-zero;
      }

      one_unit : IsUnit n (n.of_nat 1)
      one_unit = record {
        finite = laws.one-finite;
        not_below = laws.one-zero;
        not_above = laws.one-one;
      }

  -- Where doubles compare zero and one as they do, every feedback signal leaves an eta that is
  -- finite, not below zero and not above one.
  pub apply_feedback-IsUnit :
      (skill : SkillRow n) (kind : SkillFeedbackKind) (cfg : SkillConfig n) (m : Option n.Num)
      → IsUnit n (apply_feedback n skill kind cfg m).eta
  unfolding apply_feedback apply_trial apply_thumbs apply_reward_drift
  apply_feedback-IsUnit skill trial_pass cfg m = clamp01-IsUnit _
  apply_feedback-IsUnit skill trial_fail cfg m = clamp01-IsUnit _
  apply_feedback-IsUnit skill user_positive cfg m = clamp01-IsUnit _
  apply_feedback-IsUnit skill user_negative cfg m = clamp01-IsUnit _
  apply_feedback-IsUnit skill reward_updated cfg m = clamp01-IsUnit _

module _ (n : Numbers) (cfg : SkillConfig n) where
  -- `{ ...skill, status, eta, trialsAttempted, trialsPassed, updatedAt }`
  abbrev pub written : SkillRow n → LifecycleUpdate n → ℕ → SkillRow n
  written skill u now = record {
    status = u.status;
    eta = u.eta;
    trials_attempted = u.trials_attempted;
    trials_passed = u.trials_passed;
    updated_at = now;
  }

  pub record Signal : Type 0 where
    pub kind : SkillFeedbackKind
    pub magnitude : Option n.Num
    pub now : ℕ

  abbrev pub run : List Signal → SkillRow n → SkillRow n
  run [] skill = skill
  run (s ∷ ss) skill = run ss (written skill (apply_feedback n skill s.kind cfg s.magnitude) s.now)

  abbrev pub is_trial : SkillFeedbackKind → ℕ
  is_trial trial_pass = 1
  is_trial trial_fail = 1
  is_trial user_positive = 0
  is_trial user_negative = 0
  is_trial reward_updated = 0

  abbrev pub is_pass : SkillFeedbackKind → ℕ
  is_pass trial_pass = 1
  is_pass trial_fail = 0
  is_pass user_positive = 0
  is_pass user_negative = 0
  is_pass reward_updated = 0

  abbrev pub trials : List Signal → ℕ
  trials [] = 0
  trials (s ∷ ss) = is_trial s.kind + trials ss

  abbrev pub passes : List Signal → ℕ
  passes [] = 0
  passes (s ∷ ss) = is_pass s.kind + passes ss

  -- An active skill has had its trials.
  abbrev pub Earned : SkillStatus → ℕ → Type 0
  Earned candidate t = Unit
  Earned active t = cfg.candidate_trials ≤ t
  Earned archived t = Unit

  tried-Earned :
      (s : SkillStatus) (t : ℕ) (eta : n.Num)
      → Earned s t
      → Earned (floored n (tried n s (t + 1) eta cfg) eta cfg).0 (t + 1)
  tried-Earned candidate t eta h = elim (Bool-cases (leb cfg.candidate_trials (t + 1))) [
    | inr e ↦ simp e tt
    | inl e ↦ elim (Bool-cases (n.ge eta cfg.min_eta_for_retrieval)) [
      | inr g ↦ simp (e, g) tt
      | inl g ↦ elim (Bool-cases (n.lt eta cfg.archive_eta)) [
        | inl l ↦ simp (e, g, l) tt
        | inr l ↦ simp (e, g, l) (leb→le cfg.candidate_trials (t + 1) e)
      ]
    ]
  ]
  tried-Earned active t eta h = elim (Bool-cases (n.lt eta cfg.archive_eta)) [
    | inl l ↦ simp l tt
    | inr l ↦ simp l (omega (arith, h))
  ]
  tried-Earned archived t eta h = tt

  thumbed-Earned :
      (s : SkillStatus) (t : ℕ) (eta : n.Num) → Earned s t → Earned (thumbed n s eta cfg).0 t
  thumbed-Earned candidate t eta h = elim (Bool-cases (n.lt eta cfg.archive_eta)) [
    | inl l ↦ simp l tt
    | inr l ↦ simp l tt
  ]
  thumbed-Earned active t eta h = elim (Bool-cases (n.lt eta cfg.archive_eta)) [
    | inl l ↦ simp l tt
    | inr l ↦ simp l h
  ]
  thumbed-Earned archived t eta h = elim (Bool-cases (n.ge eta cfg.min_eta_for_retrieval)) [
    | inl l ↦ simp l tt
    | inr l ↦ simp l tt
  ]

  drifted-Earned :
      (s : SkillStatus) (t : ℕ) (eta : n.Num) → Earned s t → Earned (drifted n s eta cfg).0 t
  drifted-Earned candidate t eta h = elim (Bool-cases (n.lt eta cfg.archive_eta)) [
    | inl l ↦ simp l tt
    | inr l ↦ simp l tt
  ]
  drifted-Earned active t eta h = elim (Bool-cases (n.lt eta cfg.archive_eta)) [
    | inl l ↦ simp l tt
    | inr l ↦ simp l h
  ]
  drifted-Earned archived t eta h = tt

  -- What one signal does to the counters, and that an active skill has its trials.
  record Counted (skill : SkillRow n) (kind : SkillFeedbackKind) (u : LifecycleUpdate n)
      : Type 0 where
    attempted : u.trials_attempted ≡ skill.trials_attempted + is_trial kind
    passed : u.trials_passed ≡ skill.trials_passed + is_pass kind
    earned : Earned u.status u.trials_attempted

  one_signal :
      (skill : SkillRow n) (kind : SkillFeedbackKind) (m : Option n.Num)
      → Earned skill.status skill.trials_attempted
      → Counted skill kind (apply_feedback n skill kind cfg m)
  unfolding apply_feedback apply_trial apply_thumbs apply_reward_drift
  one_signal skill trial_pass m h = record {
    attempted = refl;
    passed = refl;
    earned = tried-Earned skill.status _ _ h;
  }
  one_signal skill trial_fail m h = record {
    attempted = refl;
    passed = refl;
    earned = tried-Earned skill.status _ _ h;
  }
  one_signal skill user_positive m h = record {
    attempted = omega arith;
    passed = omega arith;
    earned = thumbed-Earned skill.status _ _ h;
  }
  one_signal skill user_negative m h = record {
    attempted = omega arith;
    passed = omega arith;
    earned = thumbed-Earned skill.status _ _ h;
  }
  one_signal skill reward_updated m h = record {
    attempted = omega arith;
    passed = omega arith;
    earned = drifted-Earned skill.status _ _ h;
  }

  is_pass-le : (k : SkillFeedbackKind) → is_pass k ≤ is_trial k
  is_pass-le trial_pass = omega arith
  is_pass-le trial_fail = omega arith
  is_pass-le user_positive = omega arith
  is_pass-le user_negative = omega arith
  is_pass-le reward_updated = omega arith

  -- Over any history of signals from a skill that is not active without its trials: the counters
  -- grow by the trials and the passes of the history, the passes never exceed the trials, and an
  -- active skill has had at least `candidateTrials` trials.
  pub history_counts :
      (ss : List Signal) (skill : SkillRow n)
      → Earned skill.status skill.trials_attempted
      → skill.trials_passed ≤ skill.trials_attempted
      → ((run ss skill).trials_attempted ≡ skill.trials_attempted + trials ss)
        × ((run ss skill).trials_passed ≡ skill.trials_passed + passes ss)
        × ((run ss skill).trials_passed ≤ (run ss skill).trials_attempted)
        × Earned (run ss skill).status (run ss skill).trials_attempted
  history_counts [] skill h l = (omega arith, omega arith, l, h)
  history_counts (s ∷ ss) skill h l =
      let u = apply_feedback n skill s.kind cfg s.magnitude in
      let c = one_signal skill s.kind s.magnitude h in
      let (a, p, le, e) =
        history_counts ss (written skill u s.now) c.earned
          (omega (arith, c.attempted, c.passed, is_pass-le s.kind, l)) in
      (omega (arith, a, c.attempted), omega (arith, p, c.passed), le, e)
