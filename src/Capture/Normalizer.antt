-- ===== src/Capture/Normalizer.antt =====
-- core/capture/normalizer.ts: `normalizeSteps`.
pub mod Kept
pub mod Survive
pub mod Bounds
mod Tests
use Prim.Native.String.{◌++◌ as str_append}
use memos_qdrant.Shared.{
  ℕ, zero, suc, ◌-◌, max, String, Bool, true, false, Option, none, some, List, [], ◌∷◌, not, ◌&&◌,
  ◌||◌, ◌==◌, leb, ltb, nat_eq, string_eq, length, map, if◌then◌else◌,
}
use memos_qdrant.Shared.Json.{Value, undefined, null, bool, int, num, obj, arr, str, Meta}
use memos_qdrant.Shared.Text.{is_empty, trim_start, trim_end}
use memos_qdrant.Capture.ToolCalls.{ToolCall, prop}
use memos_qdrant.Capture.Steps.{StepCandidate}

-- The UTF-16 length and `slice` of a string, `JSON.stringify`, and the products with 0.55 and 0.45,
-- rounded.
pub record Texts : Type 0 where
  pub size : String → ℕ
  pub slice : String → ℕ → ℕ → String
  pub stringify : Value → String
  pub ceil_55 : ℕ → ℕ
  pub floor_55 : ℕ → ℕ
  pub floor_45 : ℕ → ℕ

pub record CaptureConfig : Type 0 where
  pub max_text_chars : ℕ
  pub max_tool_output_chars : ℕ

pub record NormalizedStep : Type 0 where
  pub step : StepCandidate
  pub truncated : Bool

abbrev pub trunc_marker : String
trunc_marker = "\n\n…[truncated]…\n\n"

abbrev pub is_true : Value → Bool
is_true undefined = false
is_true null = false
is_true (bool b) = b
is_true (int k) = false
is_true (num d) = false
is_true (obj fs) = false
is_true (arr xs) = false
is_true (str s) = false

-- `step.meta?.subStep === true`
abbrev pub is_sub_step : StepCandidate → Bool
is_sub_step s = is_true (prop "subStep" s.meta)

abbrev pub no_calls : List ToolCall → Bool
no_calls [] = true
no_calls (c ∷ cs) = false

abbrev pub is_blank : NormalizedStep → Bool
is_blank t = is_empty t.step.user_text && is_empty t.step.agent_text && no_calls t.step.tool_calls

module _ (x : Texts) where
  -- `s.slice(s.length - k)`: a negative start counts from the end.
  abbrev pub slice_tail : String → ℕ → String
  slice_tail s k =
      let n = x.size s in if leb k n then x.slice s (n - k) n else x.slice s (n - (k - n)) n

  unfoldable pub clamp_text : String → ℕ → String × Bool
  unfolding trim_start trim_end
  clamp_text text max_chars =
      if is_empty text
      then ("", false)
      else if leb (x.size text) max_chars
      then (text, false)
      else let budget = max 200 (max_chars - x.size trunc_marker) in
        (
          str_append (trim_end (x.slice text 0 (x.ceil_55 budget)))
              (str_append trunc_marker (trim_start (slice_tail text (x.floor_45 budget)))),
          true,
        )

  abbrev pub to_display_output : Value → Option String
  to_display_output undefined = none
  to_display_output null = none
  to_display_output (str s) = some s
  to_display_output (bool b) = some (x.stringify (bool b))
  to_display_output (int k) = some (x.stringify (int k))
  to_display_output (num d) = some (x.stringify (num d))
  to_display_output (obj fs) = some (x.stringify (obj fs))
  to_display_output (arr xs) = some (x.stringify (arr xs))

  -- `output && output.length > maxOutputChars`
  abbrev pub is_long : ℕ → Option String → Bool
  is_long max_chars none = false
  is_long max_chars (some s) = not (is_empty s) && ltb max_chars (x.size s)

  abbrev pub cut : ℕ → String → String
  cut max_chars s =
      str_append (x.slice s 0 (x.floor_55 max_chars))
        (str_append trunc_marker (slice_tail s (x.floor_45 max_chars)))

  abbrev pub clamp_output : ℕ → Option String → Value
  clamp_output max_chars none = undefined
  clamp_output max_chars (some s) = str (if is_long max_chars (some s) then cut max_chars s else s)

  abbrev pub clamp_call : ℕ → ToolCall → ToolCall
  clamp_call max_chars c = record c { output = clamp_output max_chars (to_display_output c.output) }

  abbrev pub any_long : ℕ → List ToolCall → Bool
  any_long max_chars [] = false
  any_long max_chars (c ∷ cs) =
      is_long max_chars (to_display_output c.output) || any_long max_chars cs

  unfoldable pub clamp_tools : List ToolCall → ℕ → List ToolCall × Bool
  clamp_tools calls max_chars = (map (clamp_call max_chars) calls, any_long max_chars calls)

  abbrev pub input_fingerprint : Value → String
  input_fingerprint undefined = ""
  input_fingerprint null = ""
  input_fingerprint (str s) = x.slice s 0 200
  input_fingerprint (bool b) = x.slice (x.stringify (bool b)) 0 200
  input_fingerprint (int k) = x.slice (x.stringify (int k)) 0 200
  input_fingerprint (num d) = x.slice (x.stringify (num d)) 0 200
  input_fingerprint (obj fs) = x.slice (x.stringify (obj fs)) 0 200
  input_fingerprint (arr xs) = x.slice (x.stringify (arr xs)) 0 200

  -- The lengths differ where one list ends before the other.
  abbrev pub same_tool_calls : List ToolCall → List ToolCall → Bool
  same_tool_calls [] [] = true
  same_tool_calls [] (b ∷ ds) = false
  same_tool_calls (a ∷ cs) [] = false
  same_tool_calls (a ∷ cs) (b ∷ ds) =
      a.name == b.name
      && input_fingerprint a.input == input_fingerprint b.input
      && same_tool_calls cs ds

  -- What the loop makes of a step before it decides.
  unfoldable pub clamped : CaptureConfig → StepCandidate → NormalizedStep
  unfolding clamp_text clamp_tools
  clamped cfg s =
      let u = clamp_text s.user_text cfg.max_text_chars in
      let a = clamp_text s.agent_text cfg.max_text_chars in
      let t = clamp_tools s.tool_calls cfg.max_tool_output_chars in
      record {
        step = record s { user_text = u.0; agent_text = a.0; tool_calls = t.0 };
        truncated = u.1 || a.1 || t.1;
      }

  -- Whether `last`, the end of `out`, says the same as a step.
  abbrev pub is_repeat : Option NormalizedStep → NormalizedStep → Bool
  is_repeat none t = false
  is_repeat (some l) t =
      l.step.agent_text == t.step.agent_text
      && l.step.user_text == t.step.user_text
      && same_tool_calls l.step.tool_calls t.step.tool_calls

  -- The two `continue`s.
  abbrev pub is_dropped : Option NormalizedStep → NormalizedStep → Bool
  is_dropped last t = is_blank t || not (is_sub_step t.step) && is_repeat last t

  unfoldable pub normalize_from :
      CaptureConfig → Option NormalizedStep → List StepCandidate → List NormalizedStep
  unfolding clamped
  normalize_from cfg last [] = []
  normalize_from cfg last (s ∷ ss) =
      let t = clamped cfg s in
      elim (is_dropped last t) [
        | true ↦ normalize_from cfg last ss
        | false ↦ t ∷ normalize_from cfg (some t) ss
      ]

  unfoldable pub normalize_steps : List StepCandidate → CaptureConfig → List NormalizedStep
  unfolding normalize_from
  normalize_steps steps cfg = normalize_from cfg none steps
