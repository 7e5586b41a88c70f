-- ===== src/Capture/Steps/Distinct.antt =====
-- core/capture/step-extractor.ts: `segmentToSteps` on a segment with tool turns.
use memos_qdrant.Shared.{
  ℕ, ◌+◌, ◌≡◌, refl, String, Bool, true, false, Option, none, some, List, [], ◌∷◌, ◌++◌, nat_eq,
  arith, All, Bool-cases, inl, inr, includes, map, ==_iff,
}
use memos_qdrant.Shared.Json.{Double}
use memos_qdrant.Shared.Text.{is_empty, trim}
use memos_qdrant.Session.Types.{
  TurnRole, user, assistant, tool, system, EpisodeTurn, EpisodeSnapshot,
}
use memos_qdrant.Capture.ToolCalls.{ToolCall}
use memos_qdrant.Capture.Segments.{Gathered, gather_all, gathered_none}
use memos_qdrant.Capture.Stamps.{unique_ts}
use memos_qdrant.Capture.Stamps.Fresh.{unique_ts_lem}
use memos_qdrant.Capture.Steps.{
  StepCandidate, Context, response_steps, tool_steps, answered, segment_to_steps, context_of,
  steps_by,
}

abbrev pub NoRepeat : List ℕ → Type 0
NoRepeat [] = Unit
NoRepeat (t ∷ ts) = (includes t ts ≡ false) × NoRepeat ts

abbrev pub stamps : List StepCandidate → List ℕ
stamps = map (λ s. s.ts)

abbrev pub calls : List StepCandidate → List ToolCall
calls [] = []
calls (s ∷ ss) = s.tool_calls ++ calls ss

abbrev pub is_tool : TurnRole → Bool
is_tool user = false
is_tool assistant = false
is_tool tool = true
is_tool system = false

not_in :
    (t : ℕ) (used xs : List ℕ)
    → All (λ s. includes s (t ∷ used) ≡ false) xs
    → (includes t xs ≡ false) × All (λ s. includes s used ≡ false) xs
not_in t used [] h = (refl, tt)
not_in t used (x ∷ xs) h = ground (arith, not_in t used xs h.1, ==_iff t x, ==_iff x t)

module _ (show : ℕ → String) (floor_of : Double → Option ℕ) (is_truthy : Double → Bool)
    (now : ℕ) where
  response-fresh :
      (x : Context) (answer : EpisodeTurn) (used : List ℕ) (i : ℕ)
      → let ts = stamps (response_steps show floor_of is_truthy now x used i answer) in
        NoRepeat ts × All (λ t. includes t used ≡ false) ts
  response-fresh x answer used i = elim (Bool-cases (is_empty (trim answer.content))) [
    | inl e ↦ rw e (tt, tt)
    | inr e ↦ rw e ((refl, tt), ((unique_ts_lem used answer.ts).0, tt))
  ]

  tool_steps-fresh :
      (x : Context) (answer : EpisodeTurn) (used : List ℕ) (i : ℕ) (turns : List EpisodeTurn)
      → let ts = stamps (tool_steps show floor_of is_truthy now x answer used i turns) in
        NoRepeat ts × All (λ t. includes t used ≡ false) ts
  unfolding tool_steps
  tool_steps-fresh x answer used i [] = response-fresh x answer used i
  tool_steps-fresh x answer used i (turn ∷ turns) =
      let t = unique_ts used turn.ts in
      let ih = tool_steps-fresh x answer (t ∷ used) (i + 1) turns in
      let n =
        not_in t used
          (stamps (tool_steps show floor_of is_truthy now x answer (t ∷ used) (i + 1) turns))
          ih.1 in
      ((n.0, ih.0), ((unique_ts_lem used turn.ts).0, n.1))

  answered-fresh :
      (episode : EpisodeSnapshot) (turns : List EpisodeTurn) (g : Gathered) (a : Option EpisodeTurn)
      → NoRepeat (stamps (answered show floor_of is_truthy now episode turns g a))
  unfolding tool_steps
  answered-fresh episode turns g none = tt
  answered-fresh episode turns g (some a) =
      elim g.tool_turns
        as (λ ts. NoRepeat (
          stamps (
            steps_by show floor_of is_truthy now
              (context_of show floor_of is_truthy now episode turns g a) turns a ts))) [
                | [] ↦ (refl, tt)
                | t ∷ ts ↦
                    (tool_steps-fresh (context_of show floor_of is_truthy now episode turns g a) a
                      [] 0 (t ∷ ts)).0
              ]

  -- No two steps of a segment have one time stamp, whatever stamps its turns have.
  pub segment_stamps_lem :
      (episode : EpisodeSnapshot) (turns : List EpisodeTurn)
      → NoRepeat (stamps (segment_to_steps show floor_of is_truthy now episode turns))
  unfolding segment_to_steps
  segment_stamps_lem episode turns =
      let g = gather_all turns gathered_none in answered-fresh episode turns g g.last_assistant
