-- ===== src/Capture/Steps/None.antt =====
-- core/capture/step-extractor.ts: when `extractSteps` finds nothing.
use memos_qdrant.Shared.{
  ℕ, ◌≡◌, refl, sym, ◌∙◌, String, Bool, false, Option, none, some, List, [], ◌∷◌, ◌++◌, nat_eq, All,
  All-append, All-unappend, Bool-cases, inl, inr, subst, ◌↔◌, ◌≢◌,
}
use memos_qdrant.Shared.Json.{Double}
use memos_qdrant.Session.Types.{EpisodeTurn, EpisodeSnapshot}
use memos_qdrant.Capture.Segments.{
  Gathered, gather_all, gathered_none, is_assistant, is_user, segments_from,
}
use memos_qdrant.Capture.Segments.Split.{concat_all, segments_lem}
use memos_qdrant.Capture.Steps.{
  StepCandidate, tool_steps, answered, segment_to_steps, context_of, steps_by, all_steps,
  synthetic_steps, or_synthetic, extract_steps,
}
use memos_qdrant.Capture.Steps.Calls.{last_of, gather_all-last}

abbrev pub NoAnswer : EpisodeTurn → Type 0
NoAnswer t = is_assistant t.role ≡ false

abbrev pub NoAsker : EpisodeTurn → Type 0
NoAsker t = is_user t.role ≡ false

last_of-some : (ts : List EpisodeTurn) (a : EpisodeTurn) → last_of ts (some a) ≢ none
last_of-some [] a = λ h. absurd (cc h)
last_of-some (t ∷ ts) a = elim (Bool-cases (is_assistant t.role)) [
  | inl e ↦ rw e (last_of-some ts t)
  | inr e ↦ rw e (last_of-some ts a)
]

last_of-none : (ts : List EpisodeTurn) → (last_of ts none ≡ none) ↔ All NoAnswer ts
last_of-none [] = (λ h. tt, λ h. refl)
last_of-none (t ∷ ts) = elim (Bool-cases (is_assistant t.role)) [
  | inl e ↦ rw e (λ h. absurd (last_of-some ts t h), λ h. absurd (cc h.0))
  | inr e ↦ rw e (λ h. (refl, (last_of-none ts).0 h), λ h. (last_of-none ts).1 h.1)
]

append-none {ℓ} : {A : Type ℓ} (xs ys : List A) → (xs ++ ys ≡ []) ↔ ((xs ≡ []) × (ys ≡ []))
append-none [] ys = (λ h. (refl, h), λ h. h.1)
append-none (x ∷ xs) ys = (λ h. absurd (cc h), λ h. absurd (cc h.0))

module _ (show : ℕ → String) (floor_of : Double → Option ℕ) (is_truthy : Double → Bool)
    (now : ℕ) where
  answered-none :
      (episode : EpisodeSnapshot) (turns : List EpisodeTurn) (g : Gathered) (a : Option EpisodeTurn)
      → (answered show floor_of is_truthy now episode turns g a ≡ []) ↔ (a ≡ none)
  unfolding tool_steps
  answered-none episode turns g none = (λ h. refl, λ h. refl)
  answered-none episode turns g (some a) =
      elim g.tool_turns
        as (λ ts.
          (steps_by show floor_of is_truthy now
              (context_of show floor_of is_truthy now episode turns g a) turns a ts
            ≡ [])
          ↔ (some a ≡ none)) [
            | [] ↦ (λ h. absurd (cc h), λ h. absurd (cc h))
            | t ∷ ts ↦ (λ h. absurd (cc h), λ h. absurd (cc h))
          ]

  segment-none :
      (episode : EpisodeSnapshot) (turns : List EpisodeTurn)
      → (segment_to_steps show floor_of is_truthy now episode turns ≡ []) ↔ All NoAnswer turns
  unfolding segment_to_steps
  segment-none episode turns =
      let g = gather_all turns gathered_none in
      let l = gather_all-last turns gathered_none in
      let a = answered-none episode turns g g.last_assistant in
      let n = last_of-none turns in (λ h. n.0 (sym l ∙ a.0 h), λ h. a.1 (l ∙ n.1 h))

  all_steps-none :
      (episode : EpisodeSnapshot) (segs : List (List EpisodeTurn))
      → (all_steps show floor_of is_truthy now episode segs ≡ []) ↔ All NoAnswer (concat_all segs)
  unfolding all_steps
  all_steps-none episode [] = (λ h. tt, λ h. refl)
  all_steps-none episode (seg ∷ segs) =
      let s = segment-none episode seg in
      let r = all_steps-none episode segs in
      let a =
        append-none (segment_to_steps show floor_of is_truthy now episode seg)
          (all_steps show floor_of is_truthy now episode segs) in
      let u = All-unappend NoAnswer seg (concat_all segs) in
      (
        λ h. All-append NoAnswer seg (concat_all segs) (s.0 (a.0 h).0) (r.0 (a.0 h).1),
        λ h. a.1 (s.1 (u h).0, r.1 (u h).1),
      )

  synthetic-none :
      (episode : EpisodeSnapshot) (turns : List EpisodeTurn)
      → (synthetic_steps show floor_of is_truthy now episode turns ≡ []) ↔ All NoAsker turns
  synthetic-none episode [] = (λ h. tt, λ h. refl)
  synthetic-none episode (t ∷ ts) = elim (Bool-cases (is_user t.role)) [
    | inl e ↦ rw e (λ h. absurd (cc h), λ h. absurd (cc h.0))
    | inr e ↦ let r = synthetic-none episode ts in rw e (λ h. (refl, r.0 h), λ h. r.1 h.1)
  ]

  or_synthetic-none :
      (a b : List StepCandidate)
      → (or_synthetic show floor_of is_truthy now a b ≡ []) ↔ ((a ≡ []) × (b ≡ []))
  or_synthetic-none [] b = (λ h. (refl, h), λ h. h.1)
  or_synthetic-none (s ∷ a) b = (λ h. absurd (cc h), λ h. absurd (cc h.0))

  -- `extractSteps` gives no step of an episode exactly if none of its turns is the user's or the
  -- assistant's.
  pub extract_steps-none :
      (episode : EpisodeSnapshot)
      → (extract_steps show floor_of is_truthy now episode ≡ [])
        ↔ (All NoAnswer episode.turns × All NoAsker episode.turns)
  unfolding extract_steps
  extract_steps-none episode =
      let segs = segments_from [] episode.turns in
      let e : concat_all segs ≡ episode.turns = (segments_lem episode.turns).0 in
      let a = all_steps-none episode segs in
      let y = synthetic-none episode episode.turns in
      let o =
        or_synthetic-none (all_steps show floor_of is_truthy now episode segs)
          (synthetic_steps show floor_of is_truthy now episode episode.turns) in
      (
        λ h. (subst (All NoAnswer) e (a.0 (o.0 h).0), y.0 (o.0 h).1),
        λ h. o.1 (a.1 (subst (All NoAnswer) (sym e) h.0), y.1 h.1),
      )
