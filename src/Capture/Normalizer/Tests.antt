-- ===== src/Capture/Normalizer/Tests.antt =====
-- core/capture/normalizer.ts: runs at concrete inputs.
use memos_qdrant.Shared.{◌&&◌}
use memos_qdrant.Shared.{ℕ, ◌≡◌, refl, ◌+◌, ◌≤◌, ◌<◌, String, [], ◌∷◌, true, false, nat_eq, map}
use memos_qdrant.Shared.Text.{trim_start, trim_end}
use memos_qdrant.Session.Types.{EpisodeTurn}
use memos_qdrant.Capture.ToolCalls.{tool_call_from_turn}
use memos_qdrant.Capture.Steps.{StepCandidate, segment_to_steps}
use memos_qdrant.Capture.Steps.Distinct.{calls}
use Prim.Native.String as S
use Prim.Native.String.append
use Prim.Native.String.{◌++◌ as str_append}
use memos_qdrant.Shared.{
  zero, suc, ◌-◌, ◌*◌, ◌/◌, max, arith, ◌⊎◌, Bool-cases, inl, inr, subst, sym,
}
use memos_qdrant.Shared.Text.{is_space, is_empty}
use memos_qdrant.Capture.Normalizer.{
  Texts, CaptureConfig, clamp_text, trunc_marker, normalize_steps,
}
use memos_qdrant.Capture.Normalizer.Bounds.{TextLaws, clamp_text_bound}
use memos_qdrant.Capture.Normalizer.Survive.{head_of, steps_of, survive_lem}
use memos_qdrant.Capture.Tests.{
  listed, shown, said, turns_of_first, episode, show, floor_of, is_truthy,
}

-- Strings of the basic plane, where a character is a unit.
abbrev size : String → ℕ
size S.[] = 0
size (S.◌∷◌ c s) = suc (size s)

abbrev skip : ℕ → String → String
skip zero s = s
skip (suc n) S.[] = S.[]
skip (suc n) (S.◌∷◌ c s) = skip n s

abbrev first : ℕ → String → String
first zero s = S.[]
first (suc n) S.[] = S.[]
first (suc n) (S.◌∷◌ c s) = S.◌∷◌ c (first n s)

abbrev texts : Texts
texts = record {
  size = size;
  slice = λ s i j. first (j - i) (skip i s);
  stringify = λ v. "v";
  ceil_55 = λ n. (n * 55 + 99) / 100;
  floor_55 = λ n. n * 55 / 100;
  floor_45 = λ n. n * 45 / 100;
}

size-append : (s t : String) → size (str_append s t) ≤ size s + size t
size-append S.[] t = subst (λ u. size u ≤ 0 + size t) (sym (append.nil t)) (omega arith)
size-append (S.◌∷◌ c s) t =
    subst (λ u. size u ≤ suc (size s) + size t) (sym (append.cons c s t))
      (omega (arith, size-append s t))

size-first : (n : ℕ) (s : String) → size (first n s) ≤ n
size-first zero s = omega arith
size-first (suc n) S.[] = omega arith
size-first (suc n) (S.◌∷◌ c s) = omega (arith, size-first n s)

size-trim_start : (s : String) → size (trim_start s) ≤ size s
unfolding trim_start
size-trim_start S.[] = omega arith
size-trim_start (S.◌∷◌ c s) = elim (Bool-cases (is_space c)) [
  | inl e ↦ simp e (omega (arith, size-trim_start s))
  | inr e ↦ simp e (omega arith)
]

size-trim_end : (s : String) → size (trim_end s) ≤ size s
unfolding trim_end
size-trim_end S.[] = omega arith
size-trim_end (S.◌∷◌ c s) = elim (Bool-cases (is_space c && is_empty (trim_end s))) [
  | inl e ↦ simp e (omega arith)
  | inr e ↦ simp e (omega (arith, size-trim_end s))
]

parts : (n : ℕ) → (n * 55 + 99) / 100 + n * 45 / 100 ≤ n + 1
parts n = omega arith

texts-TextLaws : TextLaws texts
texts-TextLaws = record {
  size-empty = refl;
  size-append = size-append;
  size-slice = λ s i j. size-first (j - i) (skip i s);
  size-trim_start = size-trim_start;
  size-trim_end = size-trim_end;
  parts = parts;
}

abbrev config : CaptureConfig
config = record { max_text_chars = 200; max_tool_output_chars = 200 }

clamp_text_bound_example :
    let r = clamp_text texts "list the files" 5 in
    ((r.1 ≡ false) × (r.0 ≡ "list the files") × (14 ≤ 5))
    ⊎ ((r.1 ≡ true)
        × (5 < 14)
        × (size r.0 ≤ max 200 (5 - size trunc_marker) + size trunc_marker + 1))
clamp_text_bound_example = clamp_text_bound texts texts-TextLaws "list the files" 5

survive_lem_example :
    let steps = segment_to_steps show floor_of is_truthy 99 episode turns_of_first in
    let out = steps_of (normalize_steps texts steps config) in
    (map (λ (s : StepCandidate). s.key) out ≡ map (λ (s : StepCandidate). s.key) steps)
    × (map head_of (calls out)
        ≡ map (λ (t : EpisodeTurn). head_of (tool_call_from_turn t)) (listed ∷ shown ∷ []))
survive_lem_example =
    survive_lem show floor_of is_truthy 99 texts config episode turns_of_first said listed
      (shown ∷ []) refl refl

abbrev times : ℕ → String → String
times zero s = S.[]
times (suc n) s = str_append s (times n s)

-- Just above the least limit that the configuration allows, a text grows.
grows : size (clamp_text texts (times 41 "words") 200).0 ≡ 217
unfolding clamp_text
grows = refl
