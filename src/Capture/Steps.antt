-- ===== src/Capture/Steps.antt =====
-- core/capture/step-extractor.ts: `extractSteps`. `show` prints a number in a key, `floor_of` is the
-- depth that a double stands for, if it is finite and not negative, and `is_truthy` is `Boolean` of
-- a double.
pub mod Distinct
pub mod None
pub mod Calls
use memos_qdrant.Shared.{
  ℕ, zero, suc, ◌+◌, String, Bool, true, false, Option, none, some, List, [], ◌∷◌, ◌++◌, not, ◌&&◌,
  ◌==◌, nat_eq, if◌then◌else◌, length, includes, keep, map, string_eq,
}
use Prim.Native.String.{◌++◌ as str_append}
use memos_qdrant.Shared.Keyed.{get}
use memos_qdrant.Shared.Json.{
  Double, Value, undefined, null, bool, int, num, obj, arr, str, Meta, spread,
}
use memos_qdrant.Shared.Text.{is_empty, trim, join}
use memos_qdrant.Session.Types.{
  TurnRole, user, assistant, tool, system, EpisodeTurn, EpisodeSnapshot,
}
use memos_qdrant.Capture.ToolCalls.{
  ToolCall, prop, meta_of, nullish_or, as_string, tool_call_from_turn, collect_tool_calls_from_meta,
}
use memos_qdrant.Capture.Segments.{
  is_user, is_assistant, if_any, is_some_turn, segments_from, first_of, Gathered, gather,
  gather_all, gathered_none,
}
use memos_qdrant.Capture.Stamps.{unique_ts}

pub record StepCandidate : Type 0 where
  pub key : String
  pub ts : ℕ
  pub user_text : String
  pub agent_text : String
  pub agent_thinking : Option String
  pub tool_calls : List ToolCall
  pub raw_reflection : Option String
  pub depth : ℕ
  pub is_subagent : Bool
  pub meta : Meta

abbrev pub join_non_empty : List String → String → String
join_non_empty parts sep = join sep (keep (λ s. not (is_empty s)) (map trim parts))

-- The values that all the steps of a segment share.
pub record Context : Type 0 where
  pub episode_id : String
  pub user_text : String
  pub full_thinking : Option String
  pub raw_reflection : Option String
  pub depth : ℕ
  pub is_subagent : Bool
  pub seg_meta : Meta
  pub turn_id : ℕ
  pub total : ℕ

module _ (show : ℕ → String) (floor_of : Double → Option ℕ) (is_truthy : Double → Bool)
    (now : ℕ) where
  abbrev pub depth_of_value : Value → ℕ
  depth_of_value undefined = 0
  depth_of_value null = 0
  depth_of_value (bool b) = 0
  depth_of_value (int k) = k
  depth_of_value (num d) = elim (floor_of d) [ none ↦ 0 | some k ↦ k ]
  depth_of_value (obj fs) = 0
  depth_of_value (arr xs) = 0
  depth_of_value (str s) = 0

  abbrev pub depth_from_meta : Meta → ℕ
  depth_from_meta m =
      depth_of_value
        (nullish_or (prop "depth" m) (nullish_or (prop "traceDepth" m) (prop "subagentDepth" m)))

  -- `Boolean(v)`
  abbrev pub boolean : Value → Bool
  boolean undefined = false
  boolean null = false
  boolean (bool b) = b
  boolean (int k) = not (k == 0)
  boolean (num d) = is_truthy d
  boolean (obj fs) = true
  boolean (arr xs) = true
  boolean (str s) = not (is_empty s)

  abbrev pub sub_meta : Context → ℕ → Meta
  sub_meta x i = spread x.seg_meta (
      ("subStep", bool true)
      ∷ ("subStepIdx", int i)
      ∷ ("subStepTotal", int x.total)
      ∷ ("turnId", int x.turn_id)
      ∷ [])

  -- `i === 0 ? a : b`
  abbrev pub at_first {ℓ} : {A : Type ℓ} → ℕ → A → A → A
  at_first zero a b = a
  at_first (suc i) a b = b

  abbrev pub tool_step : Context → ℕ → ℕ → EpisodeTurn → StepCandidate
  tool_step x i ts turn = record {
    key =
        str_append x.episode_id
          (str_append ":" (str_append (show ts) (str_append ":tool:" (show i))));
    ts = ts;
    user_text = at_first i x.user_text "";
    agent_text = "";
    agent_thinking = at_first i x.full_thinking none;
    tool_calls = tool_call_from_turn turn ∷ [];
    raw_reflection = none;
    depth = x.depth;
    is_subagent = x.is_subagent;
    meta = sub_meta x i;
  }

  -- The step for the answer of the assistant, if there is any text in it.
  abbrev pub response_steps : Context → List ℕ → ℕ → EpisodeTurn → List StepCandidate
  response_steps x used i turn =
      let text = trim turn.content in
      if is_empty text
      then []
      else let ts = unique_ts used turn.ts in
        record {
          key = str_append x.episode_id (str_append ":" (str_append (show ts) ":response"));
          ts = ts;
          user_text = "";
          agent_text = text;
          agent_thinking = none;
          tool_calls = [];
          raw_reflection = x.raw_reflection;
          depth = x.depth;
          is_subagent = x.is_subagent;
          meta = sub_meta x i;
        }
        ∷ []

  -- The loop over the tool turns, with the stamps in use, and the answer after it.
  unfoldable pub tool_steps :
      Context → EpisodeTurn → List ℕ → ℕ → List EpisodeTurn → List StepCandidate
  unfolding unique_ts tool_call_from_turn trim
  tool_steps x answer used i [] = response_steps x used i answer
  tool_steps x answer used i (turn ∷ turns) =
      let ts = unique_ts used turn.ts in
      tool_step x i ts turn ∷ tool_steps x answer (ts ∷ used) (i + 1) turns

  abbrev pub single_step : Context → List EpisodeTurn → EpisodeTurn → StepCandidate
  single_step x turns answer = record {
    key = str_append x.episode_id (str_append ":" (show answer.ts));
    ts = answer.ts;
    user_text = x.user_text;
    agent_text =
        join_non_empty
          (map (λ (t : EpisodeTurn). t.content)
            (keep (λ (t : EpisodeTurn). is_assistant t.role) turns))
          "\n\n";
    agent_thinking = x.full_thinking;
    tool_calls = collect_tool_calls_from_meta now turns;
    raw_reflection = x.raw_reflection;
    depth = x.depth;
    is_subagent = x.is_subagent;
    meta = spread x.seg_meta (("turnId", int x.turn_id) ∷ []);
  }

  abbrev pub ts_of_first : List EpisodeTurn → ℕ
  ts_of_first [] = 0
  ts_of_first (t ∷ ts) = t.ts

  abbrev pub id_or : Option ℕ → ℕ → ℕ
  id_or none t = t
  id_or (some k) t = k

  -- `text || null`
  abbrev pub text_or_null : String → Option String
  text_or_null s = if is_empty s then none else some s

  abbrev pub context_of : EpisodeSnapshot → List EpisodeTurn → Gathered → EpisodeTurn → Context
  context_of episode turns g answer = record {
    episode_id = episode.id;
    user_text = join_non_empty g.user_texts "\n---\n";
    full_thinking = text_or_null (trim (join "\n\n" g.thinking_parts));
    raw_reflection = g.raw_reflection;
    depth = depth_from_meta (spread episode.meta g.seg_meta);
    is_subagent =
        boolean (nullish_or (prop "isSubagent" g.seg_meta) (prop "isSubagent" episode.meta));
    seg_meta = g.seg_meta;
    turn_id = id_or g.turn_id (ts_of_first turns);
    total = length g.tool_turns + (if is_empty (trim answer.content) then 0 else 1);
  }

  abbrev pub steps_by :
      Context → List EpisodeTurn → EpisodeTurn → List EpisodeTurn → List StepCandidate
  steps_by x turns answer [] = single_step x turns answer ∷ []
  steps_by x turns answer (t ∷ ts) = tool_steps x answer [] 0 (t ∷ ts)

  abbrev pub answered :
      EpisodeSnapshot → List EpisodeTurn → Gathered → Option EpisodeTurn → List StepCandidate
  answered episode turns g none = []
  answered episode turns g (some answer) =
      steps_by (context_of episode turns g answer) turns answer g.tool_turns

  unfoldable pub segment_to_steps : EpisodeSnapshot → List EpisodeTurn → List StepCandidate
  unfolding gather_all tool_steps
  segment_to_steps episode turns =
      let g = gather_all turns gathered_none in answered episode turns g g.last_assistant

  unfoldable pub all_steps : EpisodeSnapshot → List (List EpisodeTurn) → List StepCandidate
  unfolding segment_to_steps
  all_steps episode [] = []
  all_steps episode (seg ∷ segs) = segment_to_steps episode seg ++ all_steps episode segs

  abbrev pub synthetic_steps : EpisodeSnapshot → List EpisodeTurn → List StepCandidate
  synthetic_steps episode [] = []
  synthetic_steps episode (t ∷ ts) =
      let rest = synthetic_steps episode ts in
      if is_user t.role
      then record {
        key = str_append episode.id ":0";
        ts = t.ts;
        user_text = t.content;
        agent_text = "";
        agent_thinking = none;
        tool_calls = [];
        raw_reflection = none;
        depth = depth_from_meta episode.meta;
        is_subagent = boolean (prop "isSubagent" episode.meta);
        meta = ("synthetic", bool true) ∷ ("turnId", int t.ts) ∷ [];
      }
        ∷ []
      else rest

  abbrev pub or_synthetic : List StepCandidate → List StepCandidate → List StepCandidate
  or_synthetic [] synthetic = synthetic
  or_synthetic (s ∷ ss) synthetic = s ∷ ss

  unfoldable pub extract_steps : EpisodeSnapshot → List StepCandidate
  unfolding segments_from all_steps
  extract_steps episode =
      or_synthetic (all_steps episode (segments_from [] episode.turns))
        (synthetic_steps episode episode.turns)
