-- ===== src/Feedback/Signals/Windows.antt =====
-- core/feedback/signals.ts: when a failure raises a burst, over histories of calls.
use memos_qdrant.Shared.{
  ℕ, ◌+◌, ◌≤◌, ◌<◌, String, ◌≡◌, refl, sym, ◌∙◌, ap, Bool, true, false, Option, none, some, List,
  [], ◌∷◌, ◌++◌, ◌&&◌, not, string_eq, length, keep, leb, ◌==◌, ==_iff, if◌then◌else◌, Bool-cases,
  Option-cases, inl, inr, arith, keep-append, keep-keep, keep-ext,
}
use mathlib.Core.Option
use memos_qdrant.Shared.Int.{leb_ℤ-sub_ℕ, sub_ℕ}
use memos_qdrant.Shared.Keyed.{get, get-set}
use memos_qdrant.Feedback.Signals.{
  FeedbackConfig, FailureRecord, FailureState, FailureSignals, no_signals, key, record_key,
  record_failure, record_success, after_failure, snapshot, in_window,
}

pub data Call : Type 0 where
  fails : FailureRecord → Call
  succeeds : (tool_id context : String) (step : ℕ) → Call

abbrev pub step_of : Call → ℕ
step_of (fails r) = r.step
step_of (succeeds tool_id context step) = step

-- Histories are written with the latest call first. The failures of a pair, oldest first:
abbrev pub failures : String → List Call → List FailureRecord
failures k [] = []
failures k (fails r ∷ h) = if record_key r == k then failures k h ++ (r ∷ []) else failures k h
failures k (succeeds tool_id context step ∷ h) = failures k h

-- The step of the latest success of a pair.
abbrev pub latest_success : String → List Call → Option ℕ
latest_success k [] = none
latest_success k (fails r ∷ h) = latest_success k h
latest_success k (succeeds tool_id context step ∷ h) =
    if key tool_id context == k then some step else latest_success k h

abbrev pub latest_step : List Call → ℕ
latest_step [] = 0
latest_step (c ∷ h) = step_of c

-- Steps never go back.
abbrev pub Ordered : List Call → Type 0
Ordered [] = Unit
Ordered (c ∷ h) = (latest_step h ≤ step_of c) × Ordered h

latest_success-le :
    (k : String) (h : List Call) (s : ℕ)
    → Ordered h
    → latest_success k h ≡ some s
    → s ≤ latest_step h
latest_success-le k [] s o e = absurd (cc e)
latest_success-le k (fails r ∷ h) s o e = omega (arith, latest_success-le k h s o.1 e, o.0)
latest_success-le k (succeeds t c n ∷ h) s o e = elim (Bool-cases (key t c == k)) [
  | inl same ↦ ground (arith, rw same at e)
  | inr other ↦ omega (arith, latest_success-le k h s o.1 (rw other at e), o.0)
]

-- The occurrences that the tracker holds for a pair.
abbrev occurrences : Option FailureState → List FailureRecord
occurrences none = []
occurrences (some s) = s.occurrences

module _ (sha1_hex : String → String) (config : FeedbackConfig) where
  abbrev pub run : List Call → FailureSignals
  run [] = no_signals
  run (fails r ∷ h) = (record_failure sha1_hex config r (run h)).1
  run (succeeds tool_id context step ∷ h) =
      record_success sha1_hex config tool_id context step (run h)

  -- A failure of the window that ends before step `a`.
  abbrev pub within : ℕ → FailureRecord → Bool
  within a o = leb a (o.step + config.failure_window)

  run-successes : (k : String) (h : List Call) → get k (run h).successes ≡ latest_success k h
  unfolding record_failure record_success get
  run-successes k [] = refl
  run-successes k (fails r ∷ h) = run-successes k h
  run-successes k (succeeds t c n ∷ h) =
      ground (arith, get-set (key t c) k n (run h).successes, run-successes k h)

  after_failure-occurrences :
      (ex : Option FailureState) (r : FailureRecord)
      → (after_failure sha1_hex config ex r).occurrences
        ≡ keep (within (r.step + 1)) (occurrences ex) ++ (r ∷ [])
  unfolding after_failure
  after_failure-occurrences none r = refl
  after_failure-occurrences (some s) r =
      ap (λ xs. xs ++ (r ∷ []))
        (keep-ext _ (within (r.step + 1)) s.occurrences
          (λ o. leb_ℤ-sub_ℕ (r.step + 1) config.failure_window o.step))

  later_window :
      (a : ℕ) (r : FailureRecord) (ex : Option FailureState)
      → r.step + 1 ≤ a
      → keep (within a) (after_failure sha1_hex config ex r).occurrences
        ≡ keep (within a) (occurrences ex) ++ keep (within a) (r ∷ [])
  later_window a r ex l = rw (after_failure-occurrences ex r) (
      keep-append (within a) (keep (within (r.step + 1)) (occurrences ex)) (r ∷ [])
      ∙ ap (λ xs. xs ++ keep (within a) (r ∷ []))
          (keep-keep (within a) (within (r.step + 1)) (occurrences ex)
            (λ o h. ground (arith, h, l))))

  agree-fails :
      (k : String) (a : ℕ) (r : FailureRecord) (h : List Call)
      → r.step + 1 ≤ a
      → keep (within a) (occurrences (get k (run h).states)) ≡ keep (within a) (failures k h)
      → keep (within a) (occurrences (get k (run (fails r ∷ h)).states))
        ≡ keep (within a) (failures k (fails r ∷ h))
  unfolding record_failure after_failure
  agree-fails k a r h l ih = elim (Bool-cases (record_key r == k)) [
    | inl same ↦
        let p : record_key r ≡ k = (==_iff (record_key r) k).0 same in
        rw
          (
            get-set (record_key r) k
                (after_failure sha1_hex config (get (record_key r) (run h).states) r)
                (run h).states,
            same,
          )
          (later_window a r (get (record_key r) (run h).states) l
            ∙ ap (λ xs. xs ++ keep (within a) (r ∷ []))
                (ap (λ j. keep (within a) (occurrences (get j (run h).states))) p ∙ ih)
            ∙ sym (keep-append (within a) (failures k h) (r ∷ [])))
    | inr other ↦
        rw
          (
            get-set (record_key r) k
                (after_failure sha1_hex config (get (record_key r) (run h).states) r)
                (run h).states,
            other,
          )
          ih
  ]

  agree-succeeds :
      (k : String) (a : ℕ) (t c : String) (n : ℕ) (h : List Call)
      → ((key t c == k) ≡ true → n + config.failure_window < a)
      → keep (within a) (occurrences (get k (run h).states)) ≡ keep (within a) (failures k h)
      → keep (within a) (occurrences (get k (run (succeeds t c n ∷ h)).states))
        ≡ keep (within a) (failures k h)
  unfolding record_success
  agree-succeeds k a t c n h l ih = elim (Option-cases (get (key t c) (run h).states)) [
    | inl e ↦ rw (e, record_success) ih
    | inr (st, e) ↦ elim (Bool-cases (key t c == k)) [
      | inl same ↦
          let p : key t c ≡ k = (==_iff (key t c) k).0 same in
          let q : get k (run h).states ≡ some st = ap (λ j. get j (run h).states) (sym p) ∙ e in
          rw
            (
              e,
              record_success,
              get-set (key t c) k
                  (record st { occurrences = keep (λ o. leb n o.step) st.occurrences })
                  (run h).states,
              same,
            )
            (keep-keep (within a) (λ o. leb n o.step) st.occurrences
                (λ o g. ground (arith, g, l same))
              ∙ (rw q at ih))
      | inr other ↦
          rw
            (
              e,
              record_success,
              get-set (key t c) k
                  (record st { occurrences = keep (λ o. leb n o.step) st.occurrences })
                  (run h).states,
              other,
            )
            ih
    ]
  ]

  -- The held occurrences and the failures of the history are the same, from a step on that is
  -- after the latest success and as late as the window of the next call.
  agree :
      (k : String) (a : ℕ) (h : List Call)
      → Ordered h
      → latest_step h + 1 ≤ a
      → ((s : ℕ) → latest_success k h ≡ some s → s + config.failure_window < a)
      → keep (within a) (occurrences (get k (run h).states)) ≡ keep (within a) (failures k h)
  unfolding get
  agree k a [] o l f = refl
  agree k a (fails r ∷ h) o l f = agree-fails k a r h l (agree k a h o.1 (omega (arith, l, o.0)) f)
  agree k a (succeeds t c n ∷ h) o l f = elim (Bool-cases (key t c == k)) [
    | inl same ↦
        let new : n + config.failure_window < a = f n (rw same refl) in
        agree-succeeds k a t c n h (λ _. new)
          (agree k a h o.1 (omega (arith, l, o.0))
            (λ s e. omega (arith, latest_success-le k h s o.1 e, o.0, new)))
    | inr other ↦
        agree-succeeds k a t c n h (λ same. absurd (cc (same, other)))
          (agree k a h o.1 (omega (arith, l, o.0)) (λ s e. f s (rw other e)))
  ]

  -- Whether the pair's latest success is in the window of a failure.
  abbrev pub recent_success : FailureRecord → List Call → Bool
  recent_success r h = elim (latest_success (record_key r) h) [
    | none ↦ false
    | some s ↦ leb (r.step + 1) (s + config.failure_window)
  ]

  -- The failures of the pair in the window of a failure, itself the last.
  abbrev pub window_failures : FailureRecord → List Call → List FailureRecord
  window_failures r h = keep (within (r.step + 1)) (failures (record_key r) h) ++ (r ∷ [])

  recent_lem :
      (r : FailureRecord) (h : List Call)
      → in_window sha1_hex config
          (get (record_key r) (run h).successes)
          (sub_ℕ (r.step + 1) config.failure_window)
        ≡ recent_success r h
  recent_lem r h = rw (run-successes (record_key r) h) (go (latest_success (record_key r) h))
    where
      go :
          (o : Option ℕ)
          → in_window sha1_hex config o (sub_ℕ (r.step + 1) config.failure_window)
            ≡ (elim o [ none ↦ false | some s ↦ leb (r.step + 1) (s + config.failure_window) ])
      go none = refl
      go (some s) = leb_ℤ-sub_ℕ (r.step + 1) config.failure_window s

  not_recent :
      (r : FailureRecord) (h : List Call) (s : ℕ)
      → recent_success r h ≡ false
      → latest_success (record_key r) h ≡ some s
      → s + config.failure_window < r.step + 1
  not_recent r h s f e = ground (arith, rw (e, recent_success) at f)

  held_failures :
      (r : FailureRecord) (h : List Call)
      → Ordered (fails r ∷ h)
      → recent_success r h ≡ false
      → (after_failure sha1_hex config (get (record_key r) (run h).states) r).occurrences
        ≡ window_failures r h
  held_failures r h o f =
      after_failure-occurrences (get (record_key r) (run h).states) r
      ∙ ap (λ xs. xs ++ (r ∷ []))
          (agree (record_key r) (r.step + 1) h o.1 (omega (arith, o.0)) (λ s. not_recent r h s f))

  raised :
      (st : FailureState) (n : ℕ) (recent recent' : Bool) (xs : List FailureRecord)
      → recent ≡ recent'
      → (recent' ≡ false → st.occurrences ≡ xs)
      → Option.map
          (λ b. b.state.occurrences)
          (if leb n (length st.occurrences) && not recent
            then some (snapshot sha1_hex config st)
            else none)
        ≡ (if leb n (length xs) && not recent' then some xs else none)
  unfolding snapshot
  raised st n recent recent' xs e f = elim (Bool-cases recent') [
    | inl y ↦ rw (e, y) (ground arith)
    | inr y ↦ rw (e, y, f y) (ground arith)
  ]

  -- After any calls whose steps never go back, a failure raises a burst exactly when the pair
  -- has no success in the window of steps and at least `failureThreshold` failures in it, itself
  -- included; the burst then carries exactly those failures, oldest first.
  pub burst_window :
      (r : FailureRecord) (h : List Call)
      → Ordered (fails r ∷ h)
      → Option.map (λ b. b.state.occurrences) (record_failure sha1_hex config r (run h)).0 ≡ (
          if leb config.failure_threshold (length (window_failures r h)) && not (recent_success r h)
          then some (window_failures r h)
          else none)
  unfolding record_failure after_failure
  burst_window r h o =
      raised (after_failure sha1_hex config (get (record_key r) (run h).states) r)
        config.failure_threshold
        (in_window sha1_hex config (get (record_key r) (run h).successes)
          (sub_ℕ (r.step + 1) config.failure_window))
        (recent_success r h) (window_failures r h) (recent_lem r h) (held_failures r h o)
