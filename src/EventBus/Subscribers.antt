-- ===== src/EventBus/Subscribers.antt =====
-- core/session/events.ts: who gets an event, after any history of subscriptions.
use memos_qdrant.Shared.{
  ℕ, ◌+◌, ◌≤◌, String, ◌≡◌, refl, ap, ◌∙◌, Bool, true, false, some, List, [], ◌∷◌, ◌++◌, ◌==◌,
  ==_iff, if◌then◌else◌, length, length-append, string_eq, nat_eq, subst, Bool-cases, inl, inr,
  arith,
}
use memos_qdrant.Shared.Keyed.{Map, get, set, get-set}
use memos_qdrant.EventBus.{
  listens, add, remove, Bus, create, or_empty, set_of, on, off, on_any, off_any, Delivery, dispatch,
  dispatch_all, emit, listener_count,
}

abbrev pub count : ℕ → List ℕ → ℕ
count x [] = 0
count x (y ∷ ys) = if y == x then count x ys + 1 else count x ys

count-append : (x : ℕ) (xs ys : List ℕ) → count x (xs ++ ys) ≡ count x xs + count x ys
count-append x [] ys = omega arith
count-append x (y ∷ xs) ys = ground (arith, count-append x xs ys)

listens-count : (x : ℕ) (xs : List ℕ) → listens x xs ≡ false → count x xs ≡ 0
listens-count x [] h = refl
listens-count x (y ∷ xs) h = ground (arith, listens-count x xs)

count-listens : (x : ℕ) (xs : List ℕ) → listens x xs ≡ true → 1 ≤ count x xs
count-listens x [] h = absurd (cc h)
count-listens x (y ∷ xs) h = ground (arith, count-listens x xs)

count-remove : (x y : ℕ) (xs : List ℕ) → count x (remove y xs) ≡ (if y == x then 0 else count x xs)
count-remove x y [] = ground arith
count-remove x y (z ∷ xs) = ground (arith, count-remove x y xs, ==_iff y x, ==_iff z x, ==_iff z y)

count-add :
    (x y : ℕ) (xs : List ℕ)
    → count x xs ≤ 1
    → count x (add y xs) ≡ (if y == x then 1 else count x xs)
count-add x y xs h = elim (Bool-cases (listens y xs)) [
  | inr e ↦ ground (arith, e, count-append x xs (y ∷ []), listens-count y xs e, ==_iff y x)
  | inl e ↦ elim (Bool-cases (y == x)) [
    | inl q ↦
        let l = count-listens x xs (subst (λ z. listens z xs ≡ true) ((==_iff y x).0 q) e) in
        simp (e, q) (omega (arith, h, l))
    | inr q ↦ simp (e, q) refl
  ]
]

-- One call on the bus.
pub data Subscription : Type 0 where
  subscribe unsubscribe : String → ℕ → Subscription
  subscribe_any unsubscribe_any : ℕ → Subscription

abbrev pub subscribed : Subscription → Bus → Bus
subscribed (subscribe kind fn) b = on kind fn b
subscribed (unsubscribe kind fn) b = off kind fn b
subscribed (subscribe_any fn) b = on_any fn b
subscribed (unsubscribe_any fn) b = off_any fn b

-- The bus after a history, latest call first.
abbrev pub bus_after : List Subscription → Bus
bus_after [] = create
bus_after (a ∷ calls) = subscribed a (bus_after calls)

-- One where the latest call about the function and the kind subscribed it.
abbrev pub live : String → ℕ → List Subscription → ℕ
live kind x [] = 0
live kind x (subscribe k y ∷ calls) =
    let rest = live kind x calls in if k == kind then (if y == x then 1 else rest) else rest
live kind x (unsubscribe k y ∷ calls) =
    let rest = live kind x calls in if k == kind then (if y == x then 0 else rest) else rest
live kind x (subscribe_any y ∷ calls) = live kind x calls
live kind x (unsubscribe_any y ∷ calls) = live kind x calls

abbrev pub live_any : ℕ → List Subscription → ℕ
live_any x [] = 0
live_any x (subscribe k y ∷ calls) = live_any x calls
live_any x (unsubscribe k y ∷ calls) = live_any x calls
live_any x (subscribe_any y ∷ calls) = let rest = live_any x calls in if y == x then 1 else rest
live_any x (unsubscribe_any y ∷ calls) = let rest = live_any x calls in if y == x then 0 else rest

live-le : (kind : String) (x : ℕ) (calls : List Subscription) → live kind x calls ≤ 1
live-le kind x [] = omega arith
live-le kind x (subscribe k y ∷ calls) = ground (arith, live-le kind x calls)
live-le kind x (unsubscribe k y ∷ calls) = ground (arith, live-le kind x calls)
live-le kind x (subscribe_any y ∷ calls) = live-le kind x calls
live-le kind x (unsubscribe_any y ∷ calls) = live-le kind x calls

live_any-le : (x : ℕ) (calls : List Subscription) → live_any x calls ≤ 1
live_any-le x [] = omega arith
live_any-le x (subscribe k y ∷ calls) = live_any-le x calls
live_any-le x (unsubscribe k y ∷ calls) = live_any-le x calls
live_any-le x (subscribe_any y ∷ calls) = ground (arith, live_any-le x calls)
live_any-le x (unsubscribe_any y ∷ calls) = ground (arith, live_any-le x calls)

set_of-set :
    (kind k : String) (fs : List ℕ) (m : Map String (List ℕ))
    → or_empty (get kind (set k fs m)) ≡ (if k == kind then fs else or_empty (get kind m))
set_of-set kind k fs m = elim (Bool-cases (k == kind)) [
  | inl q ↦ rw (get-set k kind fs m) (simp q refl)
  | inr q ↦ rw (get-set k kind fs m) (simp q refl)
]

count-set_of :
    (kind : String) (x : ℕ) (calls : List Subscription)
    → count x (set_of kind (bus_after calls)) ≡ live kind x calls
unfolding on off on_any off_any get
count-set_of kind x [] = refl
count-set_of kind x (subscribe k y ∷ calls) = elim (Bool-cases (k == kind)) [
  | inr q ↦
      let e = set_of-set kind k _ (bus_after calls).by_kind in
      ap (count x) e ∙ simp q (count-set_of kind x calls)
  | inl q ↦
      let e = set_of-set kind k _ (bus_after calls).by_kind in
      let here = count-set_of k x calls ∙ ap (λ z. live z x calls) ((==_iff k kind).0 q) in
      ap (count x) e
      ∙ simp q (
          count-add x y (set_of k (bus_after calls)) (omega (arith, here, live-le kind x calls))
          ∙ simp here refl)
]
count-set_of kind x (unsubscribe k y ∷ calls) = elim (Bool-cases (k == kind)) [
  | inr q ↦
      let e = set_of-set kind k _ (bus_after calls).by_kind in
      ap (count x) e ∙ simp q (count-set_of kind x calls)
  | inl q ↦
      let e = set_of-set kind k _ (bus_after calls).by_kind in
      let here = count-set_of k x calls ∙ ap (λ z. live z x calls) ((==_iff k kind).0 q) in
      ap (count x) e ∙ simp q (count-remove x y (set_of k (bus_after calls)) ∙ simp here refl)
]
count-set_of kind x (subscribe_any y ∷ calls) = count-set_of kind x calls
count-set_of kind x (unsubscribe_any y ∷ calls) = count-set_of kind x calls

count-any :
    (x : ℕ) (calls : List Subscription) → count x (bus_after calls).any_listeners ≡ live_any x calls
unfolding on off on_any off_any
count-any x [] = refl
count-any x (subscribe k y ∷ calls) = count-any x calls
count-any x (unsubscribe k y ∷ calls) = count-any x calls
count-any x (subscribe_any y ∷ calls) =
    ground
      (arith, count-add x y (bus_after calls).any_listeners, count-any x calls, live_any-le x calls)
count-any x (unsubscribe_any y ∷ calls) =
    ground (arith, count-remove x y (bus_after calls).any_listeners, count-any x calls)

module _ {E : Type 0} (kind_of : E → String) (throws : ℕ → E → Bool) where
  -- Listeners that write down their names, and throw or not.
  abbrev pub recorder : ℕ → E → List ℕ → Bool × List ℕ
  recorder fn evt log = (throws fn evt, log ++ (fn ∷ []))

  dispatched :
      (x : ℕ) (evt : E) (fs : List ℕ) (d : Delivery kind_of recorder)
      → count x (dispatch_all kind_of recorder evt fs d).state ≡ count x d.state + count x fs
  dispatched x evt [] d = omega arith
  dispatched x evt (fn ∷ fs) d = ground (
    arith,
    dispatched x evt fs (dispatch kind_of recorder evt fn d),
    count-append x d.state (fn ∷ []),
  )

  length-dispatched :
      (evt : E) (fs : List ℕ) (d : Delivery kind_of recorder)
      → length (dispatch_all kind_of recorder evt fs d).state ≡ length d.state + length fs
  length-dispatched evt [] d = omega arith
  length-dispatched evt (fn ∷ fs) d = omega (
    arith,
    length-dispatched evt fs (dispatch kind_of recorder evt fn d),
    length-append d.state (fn ∷ []),
  )

  abbrev pub nothing : Delivery kind_of recorder
  nothing = record { state = []; warnings = 0 }

  -- After any history of subscriptions and their ends, whichever listeners throw, an event calls a
  -- function once where the latest call about it and the event's kind subscribed it, and once more
  -- where the latest call about it and all events did; otherwise not at all. The
  -- number of calls is what `listenerCount` says for the kind.
  pub emit_lem :
      (x : ℕ) (evt : E) (calls : List Subscription)
      → (count x (emit kind_of recorder evt (bus_after calls) nothing).state
          ≡ live (kind_of evt) x calls + live_any x calls)
        × (length (emit kind_of recorder evt (bus_after calls) nothing).state
            ≡ listener_count (some (kind_of evt)) (bus_after calls))
  unfolding emit listener_count
  emit_lem x evt calls =
      let fs = set_of (kind_of evt) (bus_after calls) in
      let any = (bus_after calls).any_listeners in
      let told = dispatch_all kind_of recorder evt fs nothing in
      (
        omega (
          arith,
          dispatched x evt fs nothing,
          dispatched x evt any told,
          count-set_of (kind_of evt) x calls,
          count-any x calls,
        ),
        omega (arith, length-dispatched evt fs nothing, length-dispatched evt any told),
      )
