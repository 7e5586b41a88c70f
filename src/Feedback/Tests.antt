-- ===== src/Feedback/Tests.antt =====
-- core/feedback/signals.ts: runs at concrete inputs.
use mathlib.Core.Option
use memos_qdrant.Shared.{
  ℕ, String, ◌≡◌, refl, none, some, List, [], ◌∷◌, ◌&&◌, not, string_eq, arith, length, leb,
  if◌then◌else◌,
}
use memos_qdrant.Shared.Int.{pos}
use memos_qdrant.Shared.Keyed.{get}
use memos_qdrant.Feedback.Signals.{
  FeedbackConfig, FailureRecord, FailureState, FailureSignals, record_failure, clear,
}
use memos_qdrant.Feedback.Signals.Windows.{
  Call, Ordered, fails, succeeds, run, window_failures, recent_success, burst_window,
}
use memos_qdrant.Feedback.Signals.Clearing.{spared, clear_lem}

-- In place of SHA-1: a text for itself.
abbrev digest : String → String
digest s = s

abbrev config : FeedbackConfig
config = record { failure_threshold = 2; failure_window = 5 }

abbrev failure : ℕ → FailureRecord
failure step = record {
  tool_id = "pip.install";
  context = "build";
  step = step;
  reason = "exit 1";
  ts = step;
  trace_id = none;
  session_id = none;
  episode_id = none;
}

abbrev calls : List Call
calls = fails (failure 7) ∷ succeeds "pip.install" "build" 3 ∷ fails (failure 2) ∷ []

in_order : Ordered (fails (failure 9) ∷ calls)
in_order = (omega arith, (omega arith, (omega arith, (omega arith, tt))))

burst_window_example :
    Option.map
      (λ b. b.state.occurrences)
      (record_failure digest config (failure 9) (run digest config calls)).0
    ≡ (if leb 2 (length (window_failures digest config (failure 9) calls))
          && not (recent_success digest config (failure 9) calls)
        then some (window_failures digest config (failure 9) calls)
        else none)
burst_window_example = burst_window digest config (failure 9) calls in_order

-- The burst of that call.
raised :
    Option.map
      (λ b. b.state.occurrences)
      (record_failure digest config (failure 9) (run digest config calls)).0
    ≡ some (failure 7 ∷ failure 9 ∷ [])
raised = burst_window digest config (failure 9) calls in_order

abbrev state : FailureState
state = record {
  tool_id = "pip.install";
  context = "build";
  first_seen = 1;
  last_seen = 1;
  window_start = pos 1;
  occurrences = failure 1 ∷ [];
}

abbrev signals : FailureSignals
signals = record {
  states = ("pip.install|build", state) ∷ [];
  successes = ("pip.install|build", 0) ∷ [];
}

clear_lem_example :
    (get "pip.install|build" (clear digest config (some "pip.install\nbuil") signals).states
      ≡ spared digest config "pip.install\nbuil"
          (get "pip.install|build" signals.states)
          (get "pip.install|build" signals.states))
    × (get "pip.install|build" (clear digest config (some "pip.install\nbuil") signals).successes
        ≡ spared digest config "pip.install\nbuil"
            (get "pip.install|build" signals.states)
            (get "pip.install|build" signals.successes))
unfolding get
clear_lem_example =
    clear_lem digest config "pip.install\nbuil" "pip.install|build" signals refl (refl, tt)
