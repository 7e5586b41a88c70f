-- ===== src/Session/Intent/Decisions.antt =====
-- core/session/intent-classifier.ts: what `classify` decides.
use memos_qdrant.Shared.{
  String, Bool, true, false, Option, none, some, ◌≡◌, refl, inl, inr, not, ◌&&◌, Bool-cases,
}
use memos_qdrant.Shared.Num.{Arith}
use memos_qdrant.Shared.Text.{is_empty, trim}
use memos_qdrant.Session.Intent.{
  RuleTests, HeuristicRule, Decision, LlmIntentAnswer, retrieval_for, hundredths, strong_heuristic,
  heuristic_rules, match_first, clamp01, decision_from, may_ask, asked, from_llm, without_llm,
  or_fallback, by_llm, by_rule, classify,
}

module _ (n : Arith) where
  -- Finite, not below zero and not above one.
  abbrev pub IsUnit : n.Num → Type 0
  IsUnit x = (n.is_finite x ≡ true) × (n.lt x (n.of_nat 0) ≡ false) × (n.lt (n.of_nat 1) x ≡ false)

  abbrev pub IsRouted : Decision n → Type 0
  IsRouted d = (d.retrieval ≡ retrieval_for d.kind) × IsUnit d.confidence

  -- A rule that is trusted without the LLM.
  abbrev pub is_strong : Option (HeuristicRule n) → Bool
  is_strong none = false
  is_strong (some rule) = n.le (strong_heuristic n) rule.confidence

  clamp01-IsUnit : IsUnit (n.of_nat 0) → IsUnit (n.of_nat 1) → (x : n.Num) → IsUnit (clamp01 n x)
  unfolding clamp01
  clamp01-IsUnit z o x = elim (Bool-cases (n.is_finite x)) [
    | inr f ↦ simp f z
    | inl f ↦ elim (Bool-cases (n.lt x (n.of_nat 0))) [
      | inl l ↦ simp (f, l) z
      | inr l ↦ elim (Bool-cases (n.lt (n.of_nat 1) x)) [
        | inl g ↦ simp (f, l, g) o
        | inr g ↦ simp (f, l, g) (refl, refl, refl)
      ]
    ]
  ]

  module _ (tests : RuleTests) (cut : String → String)
      (llm : Option (String → Option (LlmIntentAnswer n))) (disable_llm : Option Bool) where
    -- When the LLM is to be asked: there is one, the message says something, and no rule is sure.
    abbrev pub is_to_ask : String → Bool
    is_to_ask text =
        not (is_empty text)
        && not (is_strong (match_first n text (heuristic_rules n tests)))
        && may_ask n tests cut llm disable_llm

    abbrev IsAnswer : Bool → Decision n × Bool → Type 0
    IsAnswer b r = IsRouted r.0 × (r.1 ≡ b)

    without_llm-IsRouted :
        IsUnit (n.of_nat 0)
        → IsUnit (n.of_nat 1)
        → (rule : Option (HeuristicRule n))
        → IsRouted (without_llm n tests cut llm disable_llm rule)
    unfolding without_llm decision_from
    without_llm-IsRouted z o none = (refl, clamp01-IsUnit z o (hundredths n 40))
    without_llm-IsRouted z o (some rule) = (refl, clamp01-IsUnit z o rule.confidence)

    or_fallback-IsRouted :
        IsUnit (n.of_nat 0)
        → IsUnit (n.of_nat 1)
        → (rule : Option (HeuristicRule n)) (answer : Option (LlmIntentAnswer n))
        → IsRouted (or_fallback n tests cut llm disable_llm rule answer)
    unfolding from_llm
    or_fallback-IsRouted z o rule none = without_llm-IsRouted z o rule
    or_fallback-IsRouted z o rule (some answer) = (refl, clamp01-IsUnit z o answer.confidence)

    by_llm-IsAnswer :
        IsUnit (n.of_nat 0)
        → IsUnit (n.of_nat 1)
        → (text : String) (rule : Option (HeuristicRule n))
        → IsAnswer
            (may_ask n tests cut llm disable_llm)
            (by_llm n tests cut llm disable_llm text rule)
    unfolding by_llm
    by_llm-IsAnswer z o text rule = elim (Bool-cases (may_ask n tests cut llm disable_llm)) [
      | inl e ↦ rw e (or_fallback-IsRouted z o rule (asked n tests cut llm disable_llm text), refl)
      | inr e ↦ rw e (without_llm-IsRouted z o rule, refl)
    ]

    by_rule-IsAnswer :
        IsUnit (n.of_nat 0)
        → IsUnit (n.of_nat 1)
        → (text : String) (rule : Option (HeuristicRule n))
        → IsAnswer
            (not (is_strong rule) && may_ask n tests cut llm disable_llm)
            (by_rule n tests cut llm disable_llm text rule)
    unfolding decision_from
    by_rule-IsAnswer z o text none = by_llm-IsAnswer z o text none
    by_rule-IsAnswer z o text (some rule) =
        elim (Bool-cases (n.le (strong_heuristic n) rule.confidence)) [
          | inl e ↦ rw e ((refl, clamp01-IsUnit z o rule.confidence), refl)
          | inr e ↦ rw e (by_llm-IsAnswer z o text (some rule))
        ]

    -- Where zero and one lie between zero and one, every message is classified with the retrieval
    -- tiers of its kind and a confidence that is finite and between zero and one, whether the LLM
    -- answers or fails. The LLM is asked exactly if there is one that is not disabled, the message
    -- is not blank, and the first rule that matches has a confidence below 0.85, or none matches.
    pub classify_lem :
        IsUnit (n.of_nat 0)
        → IsUnit (n.of_nat 1)
        → (message : String)
        → let r = classify n tests cut llm disable_llm message in
          (r.0.retrieval ≡ retrieval_for r.0.kind)
          × IsUnit r.0.confidence
          × (r.1 ≡ is_to_ask (trim message))
    unfolding classify decision_from
    classify_lem z o message = elim (Bool-cases (is_empty (trim message))) [
      | inl e ↦ simp e (refl, clamp01-IsUnit z o (hundredths n 90), refl)
      | inr e ↦
          let d =
            by_rule-IsAnswer z o (trim message)
              (match_first n (trim message) (heuristic_rules n tests)) in
          simp e (d.0.0, d.0.1, d.1)
    ]
