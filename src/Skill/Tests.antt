-- ===== src/Skill/Tests.antt =====
-- core/skill/lifecycle.ts: runs at concrete inputs.
use memos_qdrant.Shared.{
  ℕ, ◌+◌, ◌*◌, ◌/◌, ◌≤◌, max, ◌≡◌, refl, true, none, List, [], ◌∷◌, arith, ltb, leb,
}
use memos_qdrant.Skill.Lifecycle.{
  Numbers, candidate, archived, trial_pass, trial_fail, SkillRow, SkillConfig, apply_feedback,
  apply_trial,
}
use memos_qdrant.Skill.Lifecycle.Moves.{Move, source, apply_feedback-Move}
use memos_qdrant.Skill.Lifecycle.Histories.{UnitLaws, Signal, run, Earned, history_counts}
use memos_qdrant.Shared.{String, map, string_eq}
use memos_qdrant.Shared.Keyed.{get, set}
use memos_qdrant.Skill.Eligibility.{
  PolicyStatus, rebuild, skip, is_skip, PolicyRow, EligibilityConfig, EligibilityDecision,
  evaluate_eligibility,
}
use memos_qdrant.Skill.Feedback.{Skills, apply_skill_feedback}
use memos_qdrant.Skill.Feedback.Effects.{archivals, archivals_between, apply_skill_feedback_lem}
use memos_qdrant.Skill.Eligibility.Verdicts.{how_many, evaluate_eligibility_lem}

-- Hundredths, rounded down.
abbrev hundredths : Numbers
hundredths = record {
  Num = ℕ;
  is_finite = λ x. true;
  lt = ltb;
  ge = λ x y. leb y x;
  add = λ x y. x + y;
  mul = λ x y. x * y / 100;
  div = λ x y. x * 100 / y;
  max = max;
  negate = λ x. 0;
  of_nat = λ n. n * 100;
  seven_tenths = 70;
  three_tenths = 30;
}

hundredths-UnitLaws : UnitLaws hundredths
hundredths-UnitLaws = record {
  zero-finite = refl;
  one-finite = refl;
  zero-zero = refl;
  one-zero = refl;
  one-one = refl;
}

abbrev config : SkillConfig hundredths
config = record {
  candidate_trials = 2;
  min_eta_for_retrieval = 50;
  archive_eta = 25;
  eta_delta = 10;
}

abbrev fresh : SkillRow hundredths
fresh = record {
  status = candidate;
  eta = 50;
  trials_attempted = 0;
  trials_passed = 0;
  updated_at = 0;
}

abbrev kept_back : SkillRow hundredths
kept_back = record fresh { status = archived; eta = 80 }

apply_feedback-Move_example :
    Move candidate
      (source trial_pass)
      (apply_feedback hundredths
        (record fresh { trials_attempted = 1 })
        trial_pass
        config
        none).status
      (apply_feedback hundredths
        (record fresh { trials_attempted = 1 })
        trial_pass
        config
        none).transition
apply_feedback-Move_example =
    apply_feedback-Move hundredths (record fresh { trials_attempted = 1 }) trial_pass config none

abbrev signals : List (Signal hundredths config)
signals =
    record { kind = trial_pass; magnitude = none; now = 1 }
    ∷ record { kind = trial_fail; magnitude = none; now = 2 }
    ∷ []

history_counts_example :
    ((run hundredths config signals fresh).trials_attempted ≡ 2)
    × ((run hundredths config signals fresh).trials_passed ≡ 1)
    × ((run hundredths config signals fresh).trials_passed
        ≤ (run hundredths config signals fresh).trials_attempted)
    × Earned hundredths config
        (run hundredths config signals fresh).status
        (run hundredths config signals fresh).trials_attempted
history_counts_example = history_counts hundredths config signals fresh tt (omega arith)

abbrev policy : String → PolicyStatus → ℕ → PolicyRow hundredths
policy id status gain = record {
  id = id;
  status = status;
  gain = gain;
  support = 3;
  updated_at = 9;
}

abbrev policies : List (PolicyRow hundredths)
policies =
    policy "po_1" PolicyStatus.active 60
    ∷ policy "po_2" PolicyStatus.active 5
    ∷ policy "po_3" PolicyStatus.candidate 60
    ∷ []

abbrev thresholds : EligibilityConfig hundredths
thresholds = record { min_support = 2; min_gain = 10 }

abbrev some_text : ℕ → String
some_text x = "n"

evaluate_eligibility_lem_example :
    (map
        (λ (d : EligibilityDecision hundredths). d.action)
        (evaluate_eligibility hundredths some_text some_text policies
          (("po_1", fresh) ∷ [])
          thresholds).decisions
      ≡ rebuild ∷ skip ∷ skip ∷ [])
    × ((evaluate_eligibility hundredths some_text some_text policies
          (("po_1", fresh) ∷ [])
          thresholds).skipped_count
        ≡ how_many hundredths some_text some_text thresholds
            (("po_1", fresh) ∷ [])
            is_skip
            (evaluate_eligibility hundredths some_text some_text policies
              (("po_1", fresh) ∷ [])
              thresholds).decisions)
    × ((evaluate_eligibility hundredths some_text some_text policies
            (("po_1", fresh) ∷ [])
            thresholds).eligible_count
          + (evaluate_eligibility hundredths some_text some_text policies
              (("po_1", fresh) ∷ [])
              thresholds).skipped_count
        ≡ 3)
unfolding get
evaluate_eligibility_lem_example =
    evaluate_eligibility_lem hundredths some_text some_text thresholds (("po_1", fresh) ∷ [])
      policies

-- A candidate with one trial left.
abbrev skills : Skills hundredths
skills = record {
  clock = λ k. k;
  clock_calls = 0;
  rows = ("sk_1", record fresh { trials_attempted = 1 }) ∷ [];
  events = [];
}

last_trial_fails :
    archivals hundredths
      (apply_skill_feedback hundredths "sk_1" trial_fail config none skills).1.events
    ≡ 1
unfolding apply_skill_feedback apply_feedback apply_trial get set
last_trial_fails = refl

apply_skill_feedback_lem_example :
    ((apply_skill_feedback hundredths "sk_1" trial_fail config none skills).0
      ≡ get "sk_1" (apply_skill_feedback hundredths "sk_1" trial_fail config none skills).1.rows)
    × (archivals hundredths
          (apply_skill_feedback hundredths "sk_1" trial_fail config none skills).1.events
        ≡ archivals hundredths skills.events
          + archivals_between hundredths (get "sk_1" skills.rows) (
              get "sk_1"
                (apply_skill_feedback hundredths "sk_1" trial_fail config none skills).1.rows))
apply_skill_feedback_lem_example =
    apply_skill_feedback_lem hundredths "sk_1" trial_fail config none skills
