-- ===== src/Capture/Tests.antt =====
-- core/capture: runs at concrete inputs.
use memos_qdrant.Shared.{
  ℕ, ◌≡◌, refl, ◌↔◌, ◌+◌, ◌≤◌, ◌<◌, Option, none, some, String, List, [], ◌∷◌, Bool, true, false,
  All, drop, includes, length, nat_eq, map,
}
use memos_qdrant.Shared.Json.{Double, Meta, str}
use memos_qdrant.Shared.Text.{trim, join}
use memos_qdrant.Session.Types.{
  EpisodeTurn, EpisodeSnapshot, TurnRole, user, assistant, tool, task, opened,
}
use memos_qdrant.Capture.ToolCalls.{tool_call_from_turn}
use memos_qdrant.Capture.Segments.{segments_from}
use memos_qdrant.Capture.Segments.Split.{concat_all, IsSegment, StartsByUser, segments_lem}
use memos_qdrant.Capture.Stamps.{unique_ts}
use memos_qdrant.Capture.Stamps.Fresh.{unique_ts_lem}
use memos_qdrant.Capture.Steps.{StepCandidate, segment_to_steps, extract_steps}
use memos_qdrant.Capture.Steps.Distinct.{NoRepeat, stamps, calls, segment_stamps_lem}
use memos_qdrant.Capture.Steps.Calls.{segment_calls_lem}
use memos_qdrant.Capture.Steps.None.{NoAnswer, NoAsker, extract_steps-none}

abbrev pub turn : ℕ → TurnRole → String → EpisodeTurn
turn ts role content = record { id = "t"; ts = ts; role = role; content = content; meta = none }

abbrev with_meta : Meta → EpisodeTurn → EpisodeTurn
with_meta m t = record t { meta = some m }

abbrev pub asked : EpisodeTurn
asked = turn 10 user " list the files "

abbrev pub listed : EpisodeTurn
listed = with_meta (("tool", str "ls") ∷ []) (turn 11 tool "a b")

abbrev pub shown : EpisodeTurn
shown = with_meta (("name", str "cat") ∷ []) (turn 11 tool "text")

abbrev pub said : EpisodeTurn
said = with_meta (("reflection", str " fine ") ∷ []) (turn 11 assistant "two files ")

abbrev thanked : EpisodeTurn
thanked = turn 20 user "thanks"

abbrev pub turns_of_first : List EpisodeTurn
turns_of_first = asked ∷ listed ∷ shown ∷ said ∷ []

abbrev pub episode : EpisodeSnapshot
episode = record {
  id = "ep";
  session_id = "se";
  started_at = 10;
  ended_at = none;
  status = opened;
  r_task = none;
  turn_count = 5;
  turns = asked ∷ listed ∷ shown ∷ said ∷ thanked ∷ [];
  trace_ids = [];
  meta = [];
  intent = record {
    kind = task;
    confidence = record { bits = 0 };
    reason = "imperative verb";
    retrieval = record { tier1 = true; tier2 = true; tier3 = true };
    llm_model = none;
    signals = [];
  };
}

-- A name for each number will do here.
abbrev pub show : ℕ → String
show n = "n"

abbrev pub floor_of : Double → Option ℕ
floor_of d = none

abbrev pub is_truthy : Double → Bool
is_truthy d = true

segments_of : segments_from [] episode.turns ≡ turns_of_first ∷ (thanked ∷ []) ∷ []
unfolding segments_from
segments_of = refl

stamps_of :
    stamps (segment_to_steps show floor_of is_truthy 99 episode turns_of_first) ≡ 11 ∷ 12 ∷ 13 ∷ []
unfolding segment_to_steps
stamps_of = refl

texts_of :
    map (λ (s : StepCandidate). s.user_text) (extract_steps show floor_of is_truthy 99 episode)
    ≡ "list the files" ∷ "" ∷ "" ∷ []
unfolding extract_steps join
texts_of = refl

segments_lem_example :
    (concat_all (segments_from [] episode.turns) ≡ episode.turns)
    × All IsSegment (segments_from [] episode.turns)
    × All StartsByUser (drop 1 (segments_from [] episode.turns))
segments_lem_example = segments_lem episode.turns

unique_ts_lem_example :
    (includes (unique_ts (12 ∷ 11 ∷ []) 11) (12 ∷ 11 ∷ []) ≡ false)
    × (11 ≤ unique_ts (12 ∷ 11 ∷ []) 11)
    × (unique_ts (12 ∷ 11 ∷ []) 11 ≤ 11 + 2)
    × ((k : ℕ) → 11 ≤ k → k < unique_ts (12 ∷ 11 ∷ []) 11 → includes k (12 ∷ 11 ∷ []) ≡ true)
unique_ts_lem_example = unique_ts_lem (12 ∷ 11 ∷ []) 11

segment_stamps_lem_example :
    NoRepeat (stamps (segment_to_steps show floor_of is_truthy 99 episode turns_of_first))
segment_stamps_lem_example = segment_stamps_lem show floor_of is_truthy 99 episode turns_of_first

segment_calls_lem_example :
    let steps = segment_to_steps show floor_of is_truthy 99 episode turns_of_first in
    (calls steps ≡ map tool_call_from_turn (listed ∷ shown ∷ [])) × (length steps ≡ 3)
unfolding trim
segment_calls_lem_example =
    segment_calls_lem show floor_of is_truthy 99 episode turns_of_first said listed (shown ∷ [])
      refl refl

extract_steps-none_example :
    (extract_steps show floor_of is_truthy 99 episode ≡ [])
    ↔ (All NoAnswer episode.turns × All NoAsker episode.turns)
extract_steps-none_example = extract_steps-none show floor_of is_truthy 99 episode
