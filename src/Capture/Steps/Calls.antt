-- ===== src/Capture/Steps/Calls.antt =====
-- core/capture/step-extractor.ts: the tool calls that the steps of a segment carry.
use memos_qdrant.Shared.{
  ℕ, ◌+◌, ◌≡◌, refl, ap, sym, ◌∙◌, String, Bool, Option, none, some, List, [], ◌∷◌, ◌++◌, nat_eq,
  subst, arith, Bool-cases, inl, inr, length, keep, map, if◌then◌else◌, append-nil, append_assoc,
}
use memos_qdrant.Shared.Json.{Double}
use memos_qdrant.Shared.Text.{is_empty, trim}
use memos_qdrant.Session.Types.{user, assistant, tool, system, EpisodeTurn, EpisodeSnapshot}
use memos_qdrant.Capture.ToolCalls.{tool_call_from_turn}
use memos_qdrant.Capture.Segments.{Gathered, gather, gather_all, gathered_none, is_assistant}
use memos_qdrant.Capture.Stamps.{unique_ts}
use memos_qdrant.Capture.Steps.{
  Context, tool_steps, answered, segment_to_steps, context_of, steps_by,
}
use memos_qdrant.Capture.Steps.Distinct.{calls, is_tool}

abbrev pub last_of : List EpisodeTurn → Option EpisodeTurn → Option EpisodeTurn
last_of [] a = a
last_of (t ∷ ts) a = last_of ts (if is_assistant t.role then some t else a)

gather_all-tools :
    (turns : List EpisodeTurn) (g : Gathered)
    → (gather_all turns g).tool_turns
      ≡ g.tool_turns ++ keep (λ (t : EpisodeTurn). is_tool t.role) turns
unfolding gather_all
gather_all-tools [] g = sym (append-nil g.tool_turns)
gather_all-tools (t ∷ ts) g =
    gather_all-tools ts (gather t t.role g)
    ∙ (elim t.role
        as (λ r.
          (gather t r g).tool_turns ++ keep (λ (t : EpisodeTurn). is_tool t.role) ts
          ≡ g.tool_turns
            ++ (if is_tool r
                then t ∷ keep (λ (t : EpisodeTurn). is_tool t.role) ts
                else keep (λ (t : EpisodeTurn). is_tool t.role) ts)) [
                  | user ↦ refl
                  | assistant ↦ refl
                  | system ↦ refl
                  | tool ↦
                      append_assoc g.tool_turns (t ∷ [])
                        (keep (λ (t : EpisodeTurn). is_tool t.role) ts)
                ])

pub gather_all-last :
    (turns : List EpisodeTurn) (g : Gathered)
    → (gather_all turns g).last_assistant ≡ last_of turns g.last_assistant
unfolding gather_all
gather_all-last [] g = refl
gather_all-last (t ∷ ts) g =
    gather_all-last ts (gather t t.role g)
    ∙ (elim t.role
        as (λ r.
          last_of ts (gather t r g).last_assistant
          ≡ last_of ts (if is_assistant r then some t else g.last_assistant)) [
            | user ↦ refl
            | assistant ↦ refl
            | system ↦ refl
            | tool ↦ refl
          ])

module _ (show : ℕ → String) (floor_of : Double → Option ℕ) (is_truthy : Double → Bool)
    (now : ℕ) where
  tool_steps-calls :
      (x : Context) (answer : EpisodeTurn) (used : List ℕ) (i : ℕ) (turns : List EpisodeTurn)
      → let steps = tool_steps show floor_of is_truthy now x answer used i turns in
        (calls steps ≡ map tool_call_from_turn turns)
        × (length steps ≡ length turns + (if is_empty (trim answer.content) then 0 else 1))
  unfolding tool_steps
  tool_steps-calls x answer used i [] = elim (Bool-cases (is_empty (trim answer.content))) [
    | inl e ↦ rw e (refl, refl)
    | inr e ↦ rw e (refl, refl)
  ]
  tool_steps-calls x answer used i (turn ∷ turns) =
      let ih = tool_steps-calls x answer (unique_ts used turn.ts ∷ used) (i + 1) turns in
      (ap (◌∷◌ (tool_call_from_turn turn)) ih.0, omega (arith, ih.1))

  pub segment-tool_steps :
      (episode : EpisodeSnapshot) (turns : List EpisodeTurn) (answer t : EpisodeTurn)
      (ts : List EpisodeTurn)
      → last_of turns none ≡ some answer
      → keep (λ (t : EpisodeTurn). is_tool t.role) turns ≡ t ∷ ts
      → segment_to_steps show floor_of is_truthy now episode turns
        ≡ tool_steps show floor_of is_truthy now
            (context_of show floor_of is_truthy now episode turns
              (gather_all turns gathered_none)
              answer)
            answer
            []
            0
            (t ∷ ts)
  unfolding segment_to_steps
  segment-tool_steps episode turns answer t ts h k =
      let g = gather_all turns gathered_none in
      let x = context_of show floor_of is_truthy now episode turns g answer in
      ap (answered show floor_of is_truthy now episode turns g)
        (gather_all-last turns gathered_none ∙ h)
      ∙ ap (steps_by show floor_of is_truthy now x turns answer)
          (gather_all-tools turns gathered_none ∙ k)

  -- In a segment with a turn of the assistant and tool turns, the steps carry the calls of the tool
  -- turns, each once and in their order, and there is a step for each call and one more for the
  -- answer, the last turn of the assistant, unless it is blank.
  pub segment_calls_lem :
      (episode : EpisodeSnapshot) (turns : List EpisodeTurn) (answer t : EpisodeTurn)
      (ts : List EpisodeTurn)
      → last_of turns none ≡ some answer
      → keep (λ (t : EpisodeTurn). is_tool t.role) turns ≡ t ∷ ts
      → let steps = segment_to_steps show floor_of is_truthy now episode turns in
        (calls steps ≡ map tool_call_from_turn (t ∷ ts))
        × (length steps ≡ length (t ∷ ts) + (if is_empty (trim answer.content) then 0 else 1))
  segment_calls_lem episode turns answer t ts h k =
      let x =
        context_of show floor_of is_truthy now episode turns (gather_all turns gathered_none)
          answer in
      subst
        (λ steps.
          (calls steps ≡ map tool_call_from_turn (t ∷ ts))
          × (length steps ≡ length (t ∷ ts) + (if is_empty (trim answer.content) then 0 else 1)))
        (sym (segment-tool_steps episode turns answer t ts h k))
        (tool_steps-calls x answer [] 0 (t ∷ ts))
