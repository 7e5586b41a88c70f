-- ===== src/Capture/Normalizer/Survive.antt =====
-- core/capture/normalizer.ts over core/capture/step-extractor.ts: the steps of tool turns survive.
use Prim.Native.String.{◌++◌ as str_append}
use Prim.Native.String.{String}
use Prim.Native.String.append
use mathlib.Core.List.{map-append}
use memos_qdrant.Shared.{
  ℕ, ◌+◌, subst, ◌≡◌, refl, sym, ap, ◌∙◌, Bool, true, false, Option, none, some, List, [], ◌∷◌,
  ◌++◌, ◌&&◌, map, keep, All, Bool-cases, inl, inr, arith, string_eq, leb,
}
use memos_qdrant.Shared.Keyed.{set, get-set}
use memos_qdrant.Shared.Json.{Double, Value, undefined, bool, int, Meta, spread}
use memos_qdrant.Shared.Text.{is_empty, trim}
use memos_qdrant.Session.Types.{EpisodeTurn, EpisodeSnapshot}
use memos_qdrant.Capture.ToolCalls.{ToolCall, tool_call_from_turn, prop}
use memos_qdrant.Capture.Stamps.{unique_ts}
use memos_qdrant.Capture.Steps.{
  StepCandidate, Context, tool_steps, response_steps, segment_to_steps, context_of,
}
use memos_qdrant.Capture.Segments.{gather_all, gathered_none}
use memos_qdrant.Capture.Steps.Distinct.{is_tool, calls}
use memos_qdrant.Capture.Steps.Calls.{last_of, segment-tool_steps, segment_calls_lem}
use memos_qdrant.Capture.Normalizer.{
  Texts, CaptureConfig, NormalizedStep, is_sub_step, is_true, clamp_text, clamp_call, clamp_tools,
  clamped, is_dropped, normalize_from, normalize_steps, trunc_marker, no_calls,
}
use memos_qdrant.Capture.Normalizer.Kept.{takes}

abbrev value_of : Option Value → Value
value_of none = undefined
value_of (some v) = v

sub_meta_lem :
    (m : Meta) (i total id : ℕ)
    → prop "subStep" (
        spread m (
          ("subStep", bool true)
          ∷ ("subStepIdx", int i)
          ∷ ("subStepTotal", int total)
          ∷ ("turnId", int id)
          ∷ []))
      ≡ bool true
unfolding spread
sub_meta_lem m i total id =
    let a = set "subStep" (bool true) m in
    let b = set "subStepIdx" (int i) a in
    let c = set "subStepTotal" (int total) b in
    ap value_of (
      get-set "turnId" "subStep" (int id) c
      ∙ (get-set "subStepTotal" "subStep" (int total) b
          ∙ (get-set "subStepIdx" "subStep" (int i) a ∙ get-set "subStep" "subStep" (bool true) m)))

append-not_empty_left : (s t : String) → is_empty s ≡ false → is_empty (str_append s t) ≡ false
append-not_empty_left String.[] t h = absurd (cc h)
append-not_empty_left (String.◌∷◌ c s) t h = ap is_empty (append.cons c s t)

append-not_empty : (s t : String) → is_empty t ≡ false → is_empty (str_append s t) ≡ false
append-not_empty String.[] t h = ap is_empty (append.nil t) ∙ h
append-not_empty (String.◌∷◌ c s) t h = ap is_empty (append.cons c s t)

-- A sub-step with a call or an answer.
abbrev IsSolid : StepCandidate → Type 0
IsSolid s = (is_sub_step s ≡ true) × ((no_calls s.tool_calls && is_empty s.agent_text) ≡ false)

-- What tells a call apart.
abbrev pub head_of : ToolCall → String × Value
head_of c = (c.name, c.input)

abbrev pub steps_of : List NormalizedStep → List StepCandidate
steps_of = map (λ t. t.step)

module _ (x : Texts) (cfg : CaptureConfig) where
  clamp_text-not_empty :
      (s : String) (k : ℕ) → is_empty s ≡ false → is_empty (clamp_text x s k).0 ≡ false
  unfolding clamp_text
  clamp_text-not_empty s k h = elim (Bool-cases (leb (x.size s) k)) [
    | inl e ↦ simp (h, e) refl
    | inr e ↦ simp (h, e) (append-not_empty _ _ (append-not_empty_left trunc_marker _ refl))
  ]

  no_calls-clamped :
      (s : StepCandidate) → no_calls (clamped x cfg s).step.tool_calls ≡ no_calls s.tool_calls
  unfolding clamped clamp_tools
  no_calls-clamped s = go s.tool_calls
    where
      go :
          (cs : List ToolCall)
          → no_calls (clamp_tools x cs cfg.max_tool_output_chars).0 ≡ no_calls cs
      go [] = refl
      go (c ∷ cs) = refl

  solid_stays :
      (last : Option NormalizedStep) (s : StepCandidate)
      → IsSolid s
      → is_dropped x last (clamped x cfg s) ≡ false
  unfolding clamped
  solid_stays last s h =
      let sub : is_sub_step (clamped x cfg s).step ≡ true = h.0 in
      let none_ : no_calls (clamped x cfg s).step.tool_calls ≡ no_calls s.tool_calls =
        no_calls-clamped s in
      elim (Bool-cases (no_calls s.tool_calls)) [
        | inl e ↦
            let a : is_empty s.agent_text ≡ false = ground (arith, e, h.1) in
            ground (arith, sub, clamp_text-not_empty s.agent_text cfg.max_text_chars a)
        | inr e ↦ ground (arith, sub, none_ ∙ e)
      ]

  normalize-solid :
      (last : Option NormalizedStep) (ss : List StepCandidate)
      → All IsSolid ss
      → normalize_from x cfg last ss ≡ map (clamped x cfg) ss
  unfolding normalize_from
  normalize-solid last [] h = refl
  normalize-solid last (s ∷ ss) h =
      takes x cfg last s ss (solid_stays last s h.0)
      ∙ ap (◌∷◌ (clamped x cfg s)) (normalize-solid (some (clamped x cfg s)) ss h.1)

  keys-clamped :
      (ss : List StepCandidate)
      → map (λ s. s.key) (steps_of (map (clamped x cfg) ss)) ≡ map (λ s. s.key) ss
  unfolding clamped
  keys-clamped [] = refl
  keys-clamped (s ∷ ss) = ap (◌∷◌ s.key) (keys-clamped ss)

  heads-clamp_call :
      (k : ℕ) (cs : List ToolCall) → map head_of (map (clamp_call x k) cs) ≡ map head_of cs
  heads-clamp_call k [] = refl
  heads-clamp_call k (c ∷ cs) = ap (◌∷◌ (head_of c)) (heads-clamp_call k cs)

  heads-clamped :
      (ss : List StepCandidate)
      → map head_of (calls (steps_of (map (clamped x cfg) ss))) ≡ map head_of (calls ss)
  unfolding clamped clamp_tools
  heads-clamped [] = refl
  heads-clamped (s ∷ ss) =
      let k = cfg.max_tool_output_chars in
      map-append head_of (map (clamp_call x k) s.tool_calls)
        (calls (steps_of (map (clamped x cfg) ss)))
      ∙ (ap (λ hs. hs ++ map head_of (calls (steps_of (map (clamped x cfg) ss))))
            (heads-clamp_call k s.tool_calls)
          ∙ (ap (λ hs. map head_of s.tool_calls ++ hs) (heads-clamped ss)
              ∙ sym (map-append head_of s.tool_calls (calls ss))))

module _ (show : ℕ → String) (floor_of : Double → Option ℕ) (is_truthy : Double → Bool)
    (now : ℕ) where
  response-IsSolid :
      (c : Context) (answer : EpisodeTurn) (used : List ℕ) (i : ℕ)
      → All IsSolid (response_steps show floor_of is_truthy now c used i answer)
  response-IsSolid c answer used i = elim (Bool-cases (is_empty (trim answer.content))) [
    | inl e ↦ rw e tt
    | inr e ↦ rw e ((ap is_true (sub_meta_lem c.seg_meta i c.total c.turn_id), e), tt)
  ]

  tool_steps-IsSolid :
      (c : Context) (answer : EpisodeTurn) (used : List ℕ) (i : ℕ) (turns : List EpisodeTurn)
      → All IsSolid (tool_steps show floor_of is_truthy now c answer used i turns)
  unfolding tool_steps
  tool_steps-IsSolid c answer used i [] = response-IsSolid c answer used i
  tool_steps-IsSolid c answer used i (turn ∷ turns) = (
    (ap is_true (sub_meta_lem c.seg_meta i c.total c.turn_id), refl),
    tool_steps-IsSolid c answer (unique_ts used turn.ts ∷ used) (i + 1) turns,
  )

  -- In a segment with a turn of the assistant and tool turns, normalization drops no step: the
  -- steps keep their keys, and the calls of the tool turns keep their order, names and inputs.
  pub survive_lem :
      (x : Texts) (cfg : CaptureConfig) (episode : EpisodeSnapshot) (turns : List EpisodeTurn)
      (answer t : EpisodeTurn) (ts : List EpisodeTurn)
      → last_of turns none ≡ some answer
      → keep (λ (t : EpisodeTurn). is_tool t.role) turns ≡ t ∷ ts
      → let steps = segment_to_steps show floor_of is_truthy now episode turns in
        let out = steps_of (normalize_steps x steps cfg) in
        (map (λ s. s.key) out ≡ map (λ s. s.key) steps)
        × (map head_of (calls out) ≡ map (λ t. head_of (tool_call_from_turn t)) (t ∷ ts))
  unfolding normalize_steps
  survive_lem x cfg episode turns answer t ts h k =
      let steps = segment_to_steps show floor_of is_truthy now episode turns in
      let c =
        context_of show floor_of is_truthy now episode turns (gather_all turns gathered_none)
          answer in
      let solid =
        subst (All IsSolid)
          (sym (segment-tool_steps show floor_of is_truthy now episode turns answer t ts h k))
          (tool_steps-IsSolid c answer [] 0 (t ∷ ts)) in
      let e = ap steps_of (normalize-solid x cfg none steps solid) in
      (
        ap (map (λ s. s.key)) e ∙ keys-clamped x cfg steps,
        ap (λ out. map head_of (calls out)) e
            ∙ (heads-clamped x cfg steps
                ∙ (ap (map head_of)
                      (segment_calls_lem show floor_of is_truthy now episode turns answer t ts h
                        k).0
                    ∙ map-map (t ∷ ts))),
      )
    where
      map-map :
          (ts : List EpisodeTurn)
          → map head_of (map tool_call_from_turn ts) ≡ map (λ t. head_of (tool_call_from_turn t)) ts
      map-map [] = refl
      map-map (t ∷ ts) = ap (◌∷◌ (head_of (tool_call_from_turn t))) (map-map ts)
