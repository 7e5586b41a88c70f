-- ===== src/Skill/Feedback.antt =====
-- core/skill/skill.ts: `applySkillFeedback`. `clock` is `nowMs`, by the number of the call; an
-- event that is emitted is appended to `events`.
pub mod Effects
use memos_qdrant.Shared.{
  ℕ, ◌+◌, String, ◌≡◌, Bool, true, false, Option, none, some, List, [], ◌∷◌, ◌++◌, string_eq,
  if◌then◌else◌,
}
use memos_qdrant.Shared.Keyed.{Map, get, set}
use memos_qdrant.Skill.Lifecycle.{
  Numbers, SkillStatus, SkillLifecycleTransition, SkillFeedbackKind, trial_pass, trial_fail,
  user_positive, user_negative, reward_updated, SkillRow, SkillConfig, LifecycleUpdate, is_archived,
  apply_feedback,
}
use memos_qdrant.Skill.Lifecycle.Histories.{written}

pub data ArchiveReason : Type 0 where
  eta_floor manual policy_rebuilt : ArchiveReason

-- `kind === "reward.updated" ? "policy-rebuilt" : "eta-floor"`
abbrev pub archive_reason : SkillFeedbackKind → ArchiveReason
archive_reason trial_pass = eta_floor
archive_reason trial_fail = eta_floor
archive_reason user_positive = eta_floor
archive_reason user_negative = eta_floor
archive_reason reward_updated = policy_rebuilt

module _ (n : Numbers) where
  -- The events of `SkillEvent` that the function emits.
  pub data SkillEvent : Type 0 where
    eta_updated :
        (at : ℕ) (skill_id : String) (previous next : n.Num) (trials_attempted trials_passed : ℕ)
        (reason : SkillFeedbackKind)
        → SkillEvent
    status_changed :
        (at : ℕ) (skill_id : String) (previous next : SkillStatus)
        (transition : SkillLifecycleTransition)
        → SkillEvent
    skill_archived : (at : ℕ) (skill_id : String) (reason : ArchiveReason) → SkillEvent

  pub record Skills : Type 0 where
    pub clock : ℕ → ℕ
    pub clock_calls : ℕ
    pub rows : Map String (SkillRow n)
    pub events : List SkillEvent

  -- `deps.bus.emit({ …, at: nowMs(), … })`
  abbrev pub emit_at : (ℕ → SkillEvent) → Skills → Skills
  emit_at event s = record s {
    clock_calls = s.clock_calls + 1;
    events = s.events ++ (event (s.clock s.clock_calls) ∷ []);
  }

  -- The part under `if (update.transition)`.
  abbrev pub report :
      String
      → SkillFeedbackKind
      → SkillStatus
      → SkillStatus
      → Option SkillLifecycleTransition
      → Skills
      → Skills
  report skill_id kind previous next none s = s
  report skill_id kind previous next (some transition) s =
      let s' = emit_at (λ at. status_changed at skill_id previous next transition) s in
      if is_archived n next
      then emit_at (λ at. skill_archived at skill_id (archive_reason kind)) s'
      else s'

  abbrev pub feed :
      String
      → SkillFeedbackKind
      → SkillConfig n
      → Option n.Num
      → SkillRow n
      → Skills
      → SkillRow n × Skills
  feed skill_id kind cfg magnitude skill s =
      let update = apply_feedback n skill kind cfg magnitude in
      let next = written n cfg skill update (s.clock s.clock_calls) in
      let stored = record s { clock_calls = s.clock_calls + 1; rows = set skill_id next s.rows } in
      let told =
        emit_at
          (λ at.
            eta_updated at skill_id skill.eta update.eta update.trials_attempted
              update.trials_passed kind)
          stored in
      (next, report skill_id kind skill.status update.status update.transition told)

  -- The function after `getById`.
  abbrev pub answer :
      String
      → SkillFeedbackKind
      → SkillConfig n
      → Option n.Num
      → Skills
      → Option (SkillRow n)
      → Option (SkillRow n) × Skills
  answer skill_id kind cfg magnitude s none = (none, s)
  answer skill_id kind cfg magnitude s (some skill) =
      let (next, s') = feed skill_id kind cfg magnitude skill s in (some next, s')

  unfoldable pub apply_skill_feedback :
      String
      → SkillFeedbackKind
      → SkillConfig n
      → Option n.Num
      → Skills
      → Option (SkillRow n) × Skills
  apply_skill_feedback skill_id kind cfg magnitude s =
      answer skill_id kind cfg magnitude s (get skill_id s.rows)
