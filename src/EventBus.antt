-- ===== src/EventBus.antt =====
-- core/session/events.ts: `createSessionEventBus`. A function that listens is named by a number,
-- since the sets tell functions apart by reference; what it does is an argument, a step on a state
-- of its own that throws or not. Listeners that call the bus while it delivers are left out.
pub mod Subscribers
mod Tests
use memos_qdrant.Shared.{
  ℕ, ◌+◌, String, Bool, true, false, Option, none, some, List, [], ◌∷◌, ◌++◌, ◌==◌, ◌||◌, not,
  if◌then◌else◌, length, keep, string_eq, nat_eq,
}
use memos_qdrant.Shared.Keyed.{Map, get, set}

-- `set.has(fn)`, `set.add(fn)` and `set.delete(fn)` of a `Set` in insertion order
abbrev pub listens : ℕ → List ℕ → Bool
listens fn [] = false
listens fn (g ∷ fs) = g == fn || listens fn fs

abbrev pub add : ℕ → List ℕ → List ℕ
add fn fs = if listens fn fs then fs else fs ++ (fn ∷ [])

abbrev pub remove : ℕ → List ℕ → List ℕ
remove fn fs = keep (λ g. not (g == fn)) fs

pub record Bus : Type 0 where
  pub by_kind : Map String (List ℕ)
  pub any_listeners : List ℕ

abbrev pub create : Bus
create = record { by_kind = []; any_listeners = [] }

abbrev pub or_empty : Option (List ℕ) → List ℕ
or_empty none = []
or_empty (some fs) = fs

-- `byKind.get(kind)`, or the new set where there is none
abbrev pub set_of : String → Bus → List ℕ
set_of kind b = or_empty (get kind b.by_kind)

unfoldable pub on : String → ℕ → Bus → Bus
on kind fn b = record b { by_kind = set kind (add fn (set_of kind b)) b.by_kind }

-- What the function that `on` returned does. The code has it after `on` only, so that the set is
-- there, and the set of a kind is never replaced.
unfoldable pub off : String → ℕ → Bus → Bus
off kind fn b = record b { by_kind = set kind (remove fn (set_of kind b)) b.by_kind }

unfoldable pub on_any : ℕ → Bus → Bus
on_any fn b = record b { any_listeners = add fn b.any_listeners }

unfoldable pub off_any : ℕ → Bus → Bus
off_any fn b = record b { any_listeners = remove fn b.any_listeners }

module _ {E S : Type 0} (kind_of : E → String) (call : ℕ → E → S → Bool × S) where
  -- The state of the listeners, and how many warnings were logged.
  pub record Delivery : Type 0 where
    pub state : S
    pub warnings : ℕ

  abbrev pub dispatch : E → ℕ → Delivery → Delivery
  dispatch evt fn d =
      let (threw, state) = call fn evt d.state in
      record { state = state; warnings = if threw then d.warnings + 1 else d.warnings }

  abbrev pub dispatch_all : E → List ℕ → Delivery → Delivery
  dispatch_all evt [] d = d
  dispatch_all evt (fn ∷ fs) d = dispatch_all evt fs (dispatch evt fn d)

  unfoldable pub emit : E → Bus → Delivery → Delivery
  emit evt b d = dispatch_all evt b.any_listeners (dispatch_all evt (set_of (kind_of evt) b) d)

abbrev pub sizes : Map String (List ℕ) → ℕ
sizes [] = 0
sizes ((k, fs) ∷ m) = length fs + sizes m

unfoldable pub listener_count : Option String → Bus → ℕ
listener_count none b = length b.any_listeners + sizes b.by_kind
listener_count (some kind) b = length (set_of kind b) + length b.any_listeners
