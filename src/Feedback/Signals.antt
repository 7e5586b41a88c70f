-- ===== src/Feedback/Signals.antt =====
-- core/feedback/signals.ts: `createFailureSignals`. A step is a natural number, as the adapters
-- count them; the bound of a window may be negative. The optional ids of a record are kept.
pub mod Windows
pub mod Clearing
use Prim.Native.String.{◌++◌ as str_append}
use text.Mathlib.Text.{◌==◌ as str_beq}
use memos_qdrant.Shared.{
  ℕ, ◌+◌, String, ◌≡◌, Bool, true, false, Option, none, some, List, [], ◌∷◌, ◌++◌, ◌&&◌, not,
  string_eq, length, keep, leb, ◌==◌, if◌then◌else◌,
}
use memos_qdrant.Shared.Int.{ℤ, pos, sub_ℕ, leb_ℤ}
use memos_qdrant.Shared.Keyed.{Map, get, set, delete}
use memos_qdrant.Feedback.Hash.{context_hash_of}

pub record FeedbackConfig : Type 0 where
  pub failure_threshold : ℕ
  pub failure_window : ℕ

pub record FailureRecord : Type 0 where
  pub tool_id : String
  pub context : String
  pub step : ℕ
  pub reason : String
  pub ts : ℕ
  pub trace_id : Option String
  pub session_id : Option String
  pub episode_id : Option String

pub record FailureState : Type 0 where
  pub tool_id : String
  pub context : String
  pub first_seen : ℕ
  pub last_seen : ℕ
  pub window_start : ℤ
  pub occurrences : List FailureRecord

pub record FailureBurst : Type 0 where
  pub state : FailureState
  pub context_hash : String
  pub failure_count : ℕ

pub record FailureSignals : Type 0 where
  pub states : Map String FailureState
  pub successes : Map String ℕ

abbrev pub no_signals : FailureSignals
no_signals = record { states = []; successes = [] }

abbrev pub key : String → String → String
key tool_id context = str_append tool_id (str_append "|" context)

abbrev pub record_key : FailureRecord → String
record_key r = key r.tool_id r.context

module _ (sha1_hex : String → String) (config : FeedbackConfig) where
  unfoldable pub snapshot : FailureState → FailureBurst
  snapshot s = record {
    state = s;
    context_hash = context_hash_of sha1_hex s.tool_id s.context;
    failure_count = length s.occurrences;
  }

  abbrev pub existing_or_new : Option FailureState → FailureRecord → FailureState
  existing_or_new (some s) r = s
  existing_or_new none r = record {
    tool_id = r.tool_id;
    context = r.context;
    first_seen = r.ts;
    last_seen = r.ts;
    window_start = pos r.step;
    occurrences = [];
  }

  -- `rec.step - opts.config.failureWindow + 1`
  abbrev pub min_step : FailureRecord → ℤ
  min_step r = sub_ℕ (r.step + 1) config.failure_window

  abbrev pub pruned : FailureRecord → List FailureRecord → List FailureRecord
  pruned r = keep (λ o. leb_ℤ (min_step r) o.step)

  -- The state of the pair after a failure; `firstSeen` is set again where the state is new.
  unfoldable pub after_failure : Option FailureState → FailureRecord → FailureState
  after_failure existing r =
      let state = existing_or_new existing r in
      record state {
        occurrences = pruned r state.occurrences ++ (r ∷ []);
        last_seen = r.ts;
        window_start = min_step r;
        first_seen = elim existing [ none ↦ r.ts | some _ ↦ state.first_seen ];
      }

  abbrev pub in_window : Option ℕ → ℤ → Bool
  in_window none start = false
  in_window (some step) start = leb_ℤ start step

  unfoldable pub record_failure :
      FailureRecord → FailureSignals → Option FailureBurst × FailureSignals
  unfolding snapshot after_failure
  record_failure r s =
      let state = after_failure (get (record_key r) s.states) r in
      (
        if leb config.failure_threshold (length state.occurrences)
              && not (in_window (get (record_key r) s.successes) state.window_start)
            then some (snapshot state)
            else none,
        record s { states = set (record_key r) state s.states },
      )

  unfoldable pub record_success : String → String → ℕ → FailureSignals → FailureSignals
  record_success tool_id context step s = record {
    successes = set (key tool_id context) step s.successes;
    states = elim (get (key tool_id context) s.states) [
      | none ↦ s.states
      | some state ↦
          set (key tool_id context)
            (record state { occurrences = keep (λ o. leb step o.step) state.occurrences }) s.states
    ];
  }

  unfoldable pub peek : String → String → FailureSignals → Option FailureBurst
  unfolding snapshot
  peek tool_id context s = elim (get (key tool_id context) s.states) [
    | none ↦ none
    | some state ↦ some (snapshot state)
  ]

  -- The loop of `clear` over the entries of `states`.
  unfoldable pub clear_matching : String → Map String FailureState → FailureSignals → FailureSignals
  clear_matching context_hash [] s = s
  clear_matching context_hash ((k, v) ∷ rest) s = clear_matching context_hash rest (
      if context_hash_of sha1_hex v.tool_id v.context == context_hash
      then record { states = delete k s.states; successes = delete k s.successes }
      else s)

  unfoldable pub clear : Option String → FailureSignals → FailureSignals
  unfolding clear_matching
  clear none s = no_signals
  clear (some context_hash) s =
      if str_beq context_hash "" then no_signals else clear_matching context_hash s.states s

  abbrev pub total_occurrences : Map String FailureState → ℕ
  total_occurrences [] = 0
  total_occurrences ((k, v) ∷ rest) = length v.occurrences + total_occurrences rest

  unfoldable pub stats : FailureSignals → ℕ × ℕ
  stats s = (length s.states, total_occurrences s.states)
