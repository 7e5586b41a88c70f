-- ===== src/Session/Intent/Tests.antt =====
-- core/session/intent-classifier.ts: runs at concrete inputs.
use memos_qdrant.Shared.{
  ℕ, ◌+◌, ◌-◌, ◌*◌, ◌/◌, max, min, String, true, false, Option, none, some, ◌≡◌, refl, ltb, leb,
  nat_beq, ◌==◌, string_eq,
}
use memos_qdrant.Shared.Num.{Arith}
use memos_qdrant.Shared.Text.{trim}
use memos_qdrant.Session.Types.{task, memory_probe}
use memos_qdrant.Session.Intent.{RuleTests, LlmIntentAnswer, retrieval_for, classify}
use memos_qdrant.Session.Intent.Decisions.{IsUnit, is_to_ask, classify_lem}

-- Hundredths.
abbrev percents : Arith
percents = record {
  Num = ℕ;
  is_finite = λ x. true;
  lt = ltb;
  le = leb;
  eq = nat_beq;
  add = λ x y. x + y;
  sub = λ x y. x - y;
  mul = λ x y. x * y / 100;
  div = λ x y. x * 100 / y;
  max = max;
  min = min;
  pow = λ x y. 100;
  sqrt = λ x. x;
  abs = λ x. x;
  of_nat = λ k. k * 100;
  neg_infinity = 0;
}

abbrev tests : RuleTests
tests = record {
  is_command = λ s. s == "/memos status";
  is_greeting = λ s. s == "hi";
  is_past_reference = λ s. s == "what did we say";
  is_imperative = λ s. s == "fix it";
  is_long = λ s. false;
}

abbrev answers : String → Option (LlmIntentAnswer percents)
answers s =
    some (record { kind = memory_probe; confidence = 130; reason = "asks"; served_by = "m" })

abbrev fails : String → Option (LlmIntentAnswer percents)
fails s = none

-- A weak rule gives way to the LLM, and is the fallback when the LLM fails.
asked_llm : (classify percents tests (λ s. s) (some answers) none " fix it ").0.kind ≡ memory_probe
unfolding classify
asked_llm = refl

fell_back : (classify percents tests (λ s. s) (some fails) none " fix it ").0.kind ≡ task
unfolding classify
fell_back = refl

classify_lem_example :
    let r = classify percents tests (λ s. s) (some answers) none " fix it " in
    (r.0.retrieval ≡ retrieval_for r.0.kind)
    × IsUnit percents r.0.confidence
    × (r.1 ≡ is_to_ask percents tests (λ s. s) (some answers) none (trim " fix it "))
classify_lem_example =
    classify_lem percents tests (λ s. s) (some answers) none (refl, refl, refl) (refl, refl, refl)
      " fix it "
