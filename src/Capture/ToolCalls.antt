-- ===== src/Capture/ToolCalls.antt =====
-- core/capture/step-extractor.ts: what it reads from the `meta` of turns, an object of any shape.
-- `now` is `Date.now()`, which stands still during an extraction.
use memos_qdrant.Shared.{
  ℕ, String, Option, none, some, List, [], ◌∷◌, ◌++◌, if◌then◌else◌, string_eq,
}
use memos_qdrant.Shared.Keyed.{get}
use memos_qdrant.Shared.Json.{
  Value, undefined, null, bool, int, num, obj, arr, str, Items, nil, cons, Fields, end, field, Meta,
}
use memos_qdrant.Shared.Text.{is_empty}
use memos_qdrant.Session.Types.{TurnRole, user, assistant, tool, system, EpisodeTurn}

-- `ToolCallDTO`; a time stamp is a number, whole or not.
pub record ToolCall : Type 0 where
  pub name : String
  pub input : Value
  pub output : Value
  pub error_code : Option String
  pub started_at : Value
  pub ended_at : Value
  pub thinking_before : Option String

-- `o[k]`, of an object that may hold no such property.
abbrev pub prop : String → Meta → Value
prop k m = elim (get k m) [ none ↦ undefined | some v ↦ v ]

-- `meta ?? {}`
abbrev pub meta_of : Option Meta → Meta
meta_of none = []
meta_of (some m) = m

abbrev pub entries : Fields → Meta
entries end = []
entries (field k v fs) = (k, v) ∷ entries fs

-- `a ?? b`
abbrev pub nullish_or : Value → Value → Value
nullish_or undefined b = b
nullish_or null b = b
nullish_or (bool x) b = bool x
nullish_or (int k) b = int k
nullish_or (num d) b = num d
nullish_or (obj fs) b = obj fs
nullish_or (arr xs) b = arr xs
nullish_or (str s) b = str s

-- `typeof v === "string" ? v : …`
abbrev pub as_string : Value → Option String
as_string undefined = none
as_string null = none
as_string (bool x) = none
as_string (int k) = none
as_string (num d) = none
as_string (obj fs) = none
as_string (arr xs) = none
as_string (str s) = some s

-- `typeof v === "number" ? v : …`
abbrev pub number_or : Value → Value → Value
number_or undefined b = b
number_or null b = b
number_or (bool x) b = b
number_or (int k) b = int k
number_or (num d) b = num d
number_or (obj fs) b = b
number_or (arr xs) b = b
number_or (str s) b = b

abbrev pub string_or : Option String → Option String → Option String
string_or none b = b
string_or (some s) b = some s

abbrev pub named_or : Option String → String → String
named_or none t = t
named_or (some s) t = s

unfoldable pub tool_call_from_turn : EpisodeTurn → ToolCall
tool_call_from_turn turn =
    let m = meta_of turn.meta in
    record {
      name =
          named_or (string_or (as_string (prop "tool" m)) (as_string (prop "name" m)))
            "unknown_tool";
      input = nullish_or (prop "input" m) (nullish_or (prop "args" m) undefined);
      output = str turn.content;
      error_code = as_string (prop "errorCode" m);
      started_at = number_or (prop "startedAt" m) (int turn.ts);
      ended_at = number_or (prop "endedAt" m) (int turn.ts);
      thinking_before = as_string (prop "thinkingBefore" m);
    }

module _ (now : ℕ) where
  abbrev pub coerced : Option String → Meta → Option ToolCall
  coerced none r = none
  coerced (some name) r =
      if is_empty name
      then none
      else let started = number_or (prop "startedAt" r) (int now) in
        some (record {
          name = name;
          input = nullish_or (prop "input" r) (nullish_or (prop "args" r) undefined);
          output = nullish_or (prop "output" r) (nullish_or (prop "result" r) undefined);
          error_code = as_string (prop "errorCode" r);
          started_at = started;
          ended_at = number_or (prop "endedAt" r) started;
          thinking_before = as_string (prop "thinkingBefore" r);
        })

  -- An array is an object too, with none of these properties.
  unfoldable pub coerce_tool_call : Value → Option ToolCall
  coerce_tool_call (obj fs) =
      let r = entries fs in
      coerced (string_or (as_string (prop "name" r)) (as_string (prop "tool" r))) r
  coerce_tool_call (arr xs) = none
  coerce_tool_call undefined = none
  coerce_tool_call null = none
  coerce_tool_call (bool b) = none
  coerce_tool_call (int k) = none
  coerce_tool_call (num d) = none
  coerce_tool_call (str s) = none

  abbrev pub push_some : Option ToolCall → List ToolCall → List ToolCall
  push_some none tcs = tcs
  push_some (some tc) tcs = tc ∷ tcs

  abbrev pub coerce_all : Items → List ToolCall
  coerce_all nil = []
  coerce_all (cons v xs) = push_some (coerce_tool_call v) (coerce_all xs)

  -- `Array.isArray`
  abbrev pub array_calls : Value → List ToolCall
  array_calls (arr xs) = coerce_all xs
  array_calls (obj fs) = []
  array_calls undefined = []
  array_calls null = []
  array_calls (bool b) = []
  array_calls (int k) = []
  array_calls (num d) = []
  array_calls (str s) = []

  abbrev pub calls_of_turn : EpisodeTurn → TurnRole → List ToolCall
  calls_of_turn turn assistant = array_calls (prop "toolCalls" (meta_of turn.meta))
  calls_of_turn turn user = []
  calls_of_turn turn tool = []
  calls_of_turn turn system = []

  unfoldable pub collect_tool_calls_from_meta : List EpisodeTurn → List ToolCall
  unfolding coerce_tool_call
  collect_tool_calls_from_meta [] = []
  collect_tool_calls_from_meta (turn ∷ turns) =
      calls_of_turn turn turn.role ++ collect_tool_calls_from_meta turns
