-- ===== src/Session/Intent.antt =====
-- core/session/intent-classifier.ts over core/session/heuristics.ts: how the intent of a message is
-- decided. The regular expressions of the rules are tests that the functions take, and so are the
-- LLM, which answers or fails, and the first 120 units of a reason.
pub mod Decisions
mod Tests
use Prim.Native.String.{◌++◌ as str_append}
use memos_qdrant.Shared.{
  ℕ, String, Bool, true, false, Option, none, some, List, [], ◌∷◌, ◌++◌, not, ◌&&◌, if◌then◌else◌,
}
use memos_qdrant.Shared.Num.{Arith}
use memos_qdrant.Shared.Text.{is_empty, trim}
use memos_qdrant.Session.Types.{
  IntentKind, task, memory_probe, chitchat, meta_command, unknown_intent, Retrieval,
}

-- The tests of the five rules.
pub record RuleTests : Type 0 where
  pub is_command : String → Bool
  pub is_greeting : String → Bool
  pub is_past_reference : String → Bool
  pub is_imperative : String → Bool
  pub is_long : String → Bool

unfoldable pub retrieval_for : IntentKind → Retrieval
retrieval_for task = record { tier1 = true; tier2 = true; tier3 = true }
retrieval_for memory_probe = record { tier1 = true; tier2 = true; tier3 = false }
retrieval_for chitchat = record { tier1 = false; tier2 = false; tier3 = false }
retrieval_for meta_command = record { tier1 = false; tier2 = false; tier3 = false }
retrieval_for unknown_intent = record { tier1 = true; tier2 = true; tier3 = true }

pub record HeuristicRule (n : Arith) : Type 0 where
  pub id : String
  pub kind : IntentKind
  pub confidence : n.Num
  pub label : String
  pub match : String → Bool

-- `IntentDecision`, its confidence as a number to compute with.
pub record Decision (n : Arith) : Type 0 where
  pub kind : IntentKind
  pub confidence : n.Num
  pub reason : String
  pub retrieval : Retrieval
  pub llm_model : Option String
  pub signals : List String

pub record LlmIntentAnswer (n : Arith) : Type 0 where
  pub kind : IntentKind
  pub confidence : n.Num
  pub reason : String
  pub served_by : String

module _ (n : Arith) where
  -- A decimal literal of two digits.
  abbrev pub hundredths : ℕ → n.Num
  hundredths k = n.div (n.of_nat k) (n.of_nat 100)

  abbrev pub strong_heuristic : n.Num
  strong_heuristic = hundredths 85

  abbrev pub meta_rule : RuleTests → HeuristicRule n
  meta_rule tests = record {
    id = "meta.command_prefix";
    kind = meta_command;
    confidence = hundredths 98;
    label = "/memos command";
    match = tests.is_command;
  }

  abbrev pub chitchat_rule : RuleTests → HeuristicRule n
  chitchat_rule tests = record {
    id = "chitchat.greeting";
    kind = chitchat;
    confidence = hundredths 90;
    label = "greeting";
    match = tests.is_greeting;
  }

  abbrev pub memory_rule : RuleTests → HeuristicRule n
  memory_rule tests = record {
    id = "memory.past_reference";
    kind = memory_probe;
    confidence = hundredths 88;
    label = "past-context query";
    match = tests.is_past_reference;
  }

  abbrev pub task_rule : RuleTests → HeuristicRule n
  task_rule tests = record {
    id = "task.imperative_verb";
    kind = task;
    confidence = hundredths 75;
    label = "imperative verb";
    match = tests.is_imperative;
  }

  abbrev pub long_rule : RuleTests → HeuristicRule n
  long_rule tests = record {
    id = "task.long_freeform";
    kind = task;
    confidence = hundredths 60;
    label = "long free-form";
    match = tests.is_long;
  }

  abbrev pub other_rules : RuleTests → List (HeuristicRule n)
  other_rules tests =
      chitchat_rule tests ∷ memory_rule tests ∷ task_rule tests ∷ long_rule tests ∷ []

  abbrev pub heuristic_rules : RuleTests → List (HeuristicRule n)
  heuristic_rules tests = meta_rule tests ∷ other_rules tests

  abbrev pub first_match : String → List (HeuristicRule n) → Option (HeuristicRule n)
  first_match t [] = none
  first_match t (rule ∷ rules) =
      let rest = first_match t rules in if rule.match t then some rule else rest

  unfoldable pub match_first : String → List (HeuristicRule n) → Option (HeuristicRule n)
  unfolding trim
  match_first text rules = let t = trim text in if is_empty t then none else first_match t rules

  unfoldable pub clamp01 : n.Num → n.Num
  clamp01 x =
      if not (n.is_finite x)
      then n.of_nat 0
      else if n.lt x (n.of_nat 0)
      then n.of_nat 0
      else if n.lt (n.of_nat 1) x
      then n.of_nat 1
      else x

  module _ (tests : RuleTests) (cut : String → String)
      (llm : Option (String → Option (LlmIntentAnswer n))) (disable_llm : Option Bool) where
    unfoldable pub decision_from : IntentKind → n.Num → String → List String → Decision n
    unfolding clamp01 retrieval_for
    decision_from kind confidence reason signals = record {
      kind = kind;
      confidence = clamp01 confidence;
      reason = cut reason;
      retrieval = retrieval_for kind;
      llm_model = none;
      signals = signals;
    }

    -- `opts.disableLlm ?? !opts.llm`, and whether there is one
    abbrev pub may_ask : Bool
    may_ask = elim llm [
      | none ↦ false
      | some ask ↦ elim disable_llm [ none ↦ true | some d ↦ not d ]
    ]

    abbrev pub asked : String → Option (LlmIntentAnswer n)
    asked text = elim llm [ none ↦ none | some ask ↦ ask text ]

    abbrev pub weak_signal : Option (HeuristicRule n) → List String
    weak_signal none = []
    weak_signal (some rule) = str_append "heuristic:" (str_append rule.id "(weak)") ∷ []

    unfoldable pub from_llm : Option (HeuristicRule n) → LlmIntentAnswer n → Decision n
    unfolding clamp01 retrieval_for
    from_llm heuristic answer = record {
      kind = answer.kind;
      confidence = clamp01 answer.confidence;
      reason = cut answer.reason;
      retrieval = retrieval_for answer.kind;
      llm_model = some answer.served_by;
      signals = "llm" ∷ weak_signal heuristic;
    }

    -- Steps 3 and 4.
    unfoldable pub without_llm : Option (HeuristicRule n) → Decision n
    unfolding decision_from
    without_llm none =
        decision_from unknown_intent (hundredths 40)
          "no classifier signal; defaulting to full retrieval" ("default_unknown" ∷ [])
    without_llm (some rule) =
        decision_from rule.kind rule.confidence (str_append rule.label " (fallback)")
          (rule.id ∷ "llm_skipped" ∷ [])

    abbrev pub or_fallback : Option (HeuristicRule n) → Option (LlmIntentAnswer n) → Decision n
    or_fallback heuristic none = without_llm heuristic
    or_fallback heuristic (some answer) = from_llm heuristic answer

    -- Step 2 and those after it. The Boolean says whether the LLM was asked.
    unfoldable pub by_llm : String → Option (HeuristicRule n) → Decision n × Bool
    unfolding from_llm without_llm
    by_llm text heuristic =
        if may_ask
        then (or_fallback heuristic (asked text), true)
        else (without_llm heuristic, false)

    abbrev pub by_rule : String → Option (HeuristicRule n) → Decision n × Bool
    by_rule text none = by_llm text none
    by_rule text (some rule) =
        if n.le strong_heuristic rule.confidence
        then (decision_from rule.kind rule.confidence rule.label (rule.id ∷ []), false)
        else by_llm text (some rule)

    unfoldable pub classify : String → Decision n × Bool
    unfolding trim match_first decision_from by_llm
    classify message =
        let text = trim message in
        if is_empty text
        then (decision_from chitchat (hundredths 90) "empty message" ("empty" ∷ []), false)
        else by_rule text (match_first text (heuristic_rules tests))
