-- ===== src/Capture/Segments.antt =====
-- core/capture/step-extractor.ts: the segments of an episode's turns, from one turn of the user to
-- the next, and what `segmentToSteps` gathers from the turns of a segment.
pub mod Split
use memos_qdrant.Shared.{
  ℕ, zero, suc, ◌+◌, String, Bool, true, false, Option, none, some, List, [], ◌∷◌, ◌++◌, not, ◌&&◌,
  ◌==◌, nat_eq, if◌then◌else◌, length, includes, keep, map, string_eq,
}
use Prim.Native.String.{◌++◌ as str_append}
use memos_qdrant.Shared.Keyed.{get}
use memos_qdrant.Shared.Json.{
  Double, Value, undefined, null, bool, int, num, obj, arr, str, Meta, spread,
}
use memos_qdrant.Shared.Text.{is_empty, trim, join}
use memos_qdrant.Session.Types.{
  TurnRole, user, assistant, tool, system, EpisodeTurn, EpisodeSnapshot,
}
use memos_qdrant.Capture.ToolCalls.{
  ToolCall, prop, meta_of, nullish_or, as_string, tool_call_from_turn, collect_tool_calls_from_meta,
}

abbrev pub is_user : TurnRole → Bool
is_user user = true
is_user assistant = false
is_user tool = false
is_user system = false

abbrev pub is_assistant : TurnRole → Bool
is_assistant user = false
is_assistant assistant = true
is_assistant tool = false
is_assistant system = false

abbrev pub if_any : List EpisodeTurn → List (List EpisodeTurn)
if_any [] = []
if_any (t ∷ ts) = (t ∷ ts) ∷ []

abbrev pub is_some_turn : List EpisodeTurn → Bool
is_some_turn [] = false
is_some_turn (t ∷ ts) = true

-- The loop that splits the turns: `current` is the segment so far.
unfoldable pub segments_from : List EpisodeTurn → List EpisodeTurn → List (List EpisodeTurn)
segments_from current [] = if_any current
segments_from current (turn ∷ turns) = elim (is_user turn.role && is_some_turn current) [
  | true ↦ current ∷ segments_from (turn ∷ []) turns
  | false ↦ segments_from (current ++ (turn ∷ [])) turns
]

-- What the loop over a segment gathers.
pub record Gathered : Type 0 where
  pub user_texts : List String
  pub tool_turns : List EpisodeTurn
  pub last_assistant : Option EpisodeTurn
  pub thinking_parts : List String
  pub raw_reflection : Option String
  pub seg_meta : Meta
  pub turn_id : Option ℕ

-- `typeof v === "string" && v.trim()`, trimmed
abbrev pub trimmed_text : Option String → Option String
trimmed_text none = none
trimmed_text (some s) = if is_empty (trim s) then none else some (trim s)

abbrev pub first_of {ℓ} : {A : Type ℓ} → Option A → Option A → Option A
first_of none b = b
first_of (some a) b = some a

abbrev pub push_text : List String → Option String → List String
push_text ss none = ss
push_text ss (some s) = ss ++ (s ∷ [])

-- One round of the loop, by the role of the turn.
abbrev pub gather : EpisodeTurn → TurnRole → Gathered → Gathered
gather turn user g = record g {
  user_texts = g.user_texts ++ (turn.content ∷ []);
  turn_id = first_of g.turn_id (some turn.ts);
}
gather turn tool g = record g { tool_turns = g.tool_turns ++ (turn ∷ []) }
gather turn assistant g =
    let m = meta_of turn.meta in
    record g {
      last_assistant = some turn;
      raw_reflection = first_of g.raw_reflection (trimmed_text (as_string (prop "reflection" m)));
      thinking_parts =
          push_text g.thinking_parts (trimmed_text (as_string (prop "agentThinking" m)));
      seg_meta = spread g.seg_meta m;
    }
gather turn system g = g

unfoldable pub gather_all : List EpisodeTurn → Gathered → Gathered
unfolding trim
gather_all [] g = g
gather_all (turn ∷ turns) g = gather_all turns (gather turn turn.role g)

abbrev pub gathered_none : Gathered
gathered_none = record {
  user_texts = [];
  tool_turns = [];
  last_assistant = none;
  thinking_parts = [];
  raw_reflection = none;
  seg_meta = [];
  turn_id = none;
}
