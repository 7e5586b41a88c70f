-- ===== src/EventBus/Tests.antt =====
-- core/session/events.ts: runs at concrete inputs.
use memos_qdrant.Shared.{ℕ, ◌+◌, String, ◌≡◌, refl, Bool, some, List, [], ◌∷◌, length, nat_eq, ◌==◌}
use memos_qdrant.Shared.Keyed.{get, set}
use memos_qdrant.EventBus.{emit, on, off, on_any, listener_count}
use memos_qdrant.EventBus.Subscribers.{
  count, Subscription, subscribe, unsubscribe, subscribe_any, bus_after, live, live_any, recorder,
  nothing, emit_lem,
}

-- An event is its kind.
abbrev kind_of : String → String
kind_of kind = kind

-- The first listener throws.
abbrev throws : ℕ → String → Bool
throws fn evt = fn == 1

abbrev history : List Subscription
history =
    unsubscribe "session.closed" 2
    ∷ subscribe_any 1
    ∷ subscribe "session.closed" 2
    ∷ subscribe "session.opened" 3
    ∷ subscribe "session.closed" 1
    ∷ []

calls :
    (emit kind_of
      (recorder kind_of throws)
      "session.closed"
      (bus_after history)
      (nothing kind_of throws)).state
    ≡ 1 ∷ 1 ∷ []
unfolding emit on off on_any get set
calls = refl

emit_lem_example :
    (count 1
        (emit kind_of
          (recorder kind_of throws)
          "session.closed"
          (bus_after history)
          (nothing kind_of throws)).state
      ≡ live "session.closed" 1 history + live_any 1 history)
    × (length
          (emit kind_of
            (recorder kind_of throws)
            "session.closed"
            (bus_after history)
            (nothing kind_of throws)).state
        ≡ listener_count (some "session.closed") (bus_after history))
emit_lem_example = emit_lem kind_of throws 1 "session.closed" history
