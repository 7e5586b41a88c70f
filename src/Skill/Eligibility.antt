-- ===== src/Skill/Eligibility.antt =====
-- core/skill/eligibility.ts. The text of a double (`fmt`) and of a count in the reasons are
-- arguments.
pub mod Verdicts
use Prim.Native.String.{◌++◌ as str_append}
use memos_qdrant.Shared.{
  ℕ, ◌+◌, String, ◌≡◌, Bool, true, false, Option, none, some, List, [], ◌∷◌, ◌++◌, string_eq, not,
  if◌then◌else◌, leb, ltb,
}
use memos_qdrant.Shared.Keyed.{Map, get}
use memos_qdrant.Skill.Lifecycle.{Numbers, SkillRow, is_archived}

pub data PolicyStatus : Type 0 where
  candidate active archived : PolicyStatus

pub data Action : Type 0 where
  crystallize rebuild skip : Action

abbrev pub is_skip : Action → Bool
is_skip crystallize = false
is_skip rebuild = false
is_skip skip = true

abbrev pub is_active_policy : PolicyStatus → Bool
is_active_policy candidate = false
is_active_policy active = true
is_active_policy archived = false

abbrev pub status_name : PolicyStatus → String
status_name candidate = "candidate"
status_name active = "active"
status_name archived = "archived"

module _ (n : Numbers) where
  -- The fields of `PolicyRow` that the check reads.
  pub record PolicyRow : Type 0 where
    pub id : String
    pub status : PolicyStatus
    pub gain : n.Num
    pub support : ℕ
    pub updated_at : ℕ

  pub record EligibilityConfig : Type 0 where
    pub min_support : ℕ
    pub min_gain : n.Num

  pub record EligibilityDecision : Type 0 where
    pub policy : PolicyRow
    pub existing_skill : Option (SkillRow n)
    pub action : Action
    pub reason : String

  pub record EligibilityResult : Type 0 where
    pub decisions : List EligibilityDecision
    pub eligible_count : ℕ
    pub skipped_count : ℕ

  module _ (fmt : n.Num → String) (fmt_nat : ℕ → String) where
    abbrev pub verdict : PolicyRow → Option (SkillRow n) → Action → String → EligibilityDecision
    verdict policy existing action reason = record {
      policy = policy;
      existing_skill = existing;
      action = action;
      reason = reason;
    }

    abbrev pub fresh : PolicyRow → Option (SkillRow n) → EligibilityDecision
    fresh policy existing =
        verdict policy existing crystallize "policy satisfies minSupport + minGain + status"

    -- The part of `decide` from `if (existing && existing.status !== "archived")` on.
    abbrev pub against : PolicyRow → Option (SkillRow n) → EligibilityDecision
    against policy none = fresh policy none
    against policy (some skill) =
        if not (is_archived n skill.status)
        then (if leb policy.updated_at skill.updated_at
            then verdict policy (some skill) skip "skill.updatedAt>=policy.updatedAt"
            else verdict policy (some skill) rebuild "policy.updatedAt>skill.updatedAt")
        else fresh policy (some skill)

    unfoldable pub decide :
        PolicyRow → Option (SkillRow n) → EligibilityConfig → EligibilityDecision
    decide policy existing cfg =
        if not (is_active_policy policy.status)
        then verdict policy existing skip (str_append "policy.status=" (status_name policy.status))
        else if n.lt policy.gain cfg.min_gain
        then verdict policy existing skip (
            str_append "policy.gain="
              (str_append (fmt policy.gain) (str_append "<" (fmt cfg.min_gain))))
        else if ltb policy.support cfg.min_support
        then verdict policy existing skip (
            str_append "policy.support="
              (str_append (fmt_nat policy.support) (str_append "<" (fmt_nat cfg.min_support))))
        else against policy existing

    abbrev pub counted : Action → EligibilityResult → EligibilityResult
    counted action r =
        if is_skip action
        then record r { skipped_count = r.skipped_count + 1 }
        else record r { eligible_count = r.eligible_count + 1 }

    -- The loop, with the result so far.
    unfoldable pub evaluate_from :
        List PolicyRow
        → Map String (SkillRow n)
        → EligibilityConfig
        → EligibilityResult
        → EligibilityResult
    unfolding decide
    evaluate_from [] skills cfg r = r
    evaluate_from (policy ∷ policies) skills cfg r =
        let decision = decide policy (get policy.id skills) cfg in
        evaluate_from policies skills cfg
          (counted decision.action (record r { decisions = r.decisions ++ (decision ∷ []) }))

    unfoldable pub evaluate_eligibility :
        List PolicyRow → Map String (SkillRow n) → EligibilityConfig → EligibilityResult
    unfolding evaluate_from
    evaluate_eligibility policies skills cfg =
        evaluate_from policies skills cfg
          (record { decisions = []; eligible_count = 0; skipped_count = 0 })
