-- ===== src/Capture/Normalizer/Kept.antt =====
-- core/capture/normalizer.ts: which steps `normalizeSteps` keeps.
use memos_qdrant.Shared.{
  ◌≡◌, refl, true, false, Option, none, some, List, [], ◌∷◌, map, Bool-cases, inl, inr,
}
use memos_qdrant.Capture.Steps.{StepCandidate}
use memos_qdrant.Capture.Normalizer.{
  Texts, CaptureConfig, NormalizedStep, clamped, is_dropped, normalize_from, normalize_steps,
}

-- `ys` is what is left of `xs` when some elements are taken out.
pub data IsSublist {ℓ} {A : Type ℓ} : List A → List A → Type ℓ where
  nothing : IsSublist [] []
  left_out : {ys xs : List A} (x : A) → IsSublist ys xs → IsSublist ys (x ∷ xs)
  taken : {ys xs : List A} (x : A) → IsSublist ys xs → IsSublist (x ∷ ys) (x ∷ xs)

module _ (x : Texts) (cfg : CaptureConfig) where
  -- Each step is one to keep after the one before it.
  abbrev pub ChainFrom : Option NormalizedStep → List NormalizedStep → Type 0
  ChainFrom last [] = Unit
  ChainFrom last (t ∷ ts) = (is_dropped x last t ≡ false) × ChainFrom (some t) ts

  drops :
      (last : Option NormalizedStep) (s : StepCandidate) (ss : List StepCandidate)
      → is_dropped x last (clamped x cfg s) ≡ true
      → normalize_from x cfg last (s ∷ ss) ≡ normalize_from x cfg last ss
  unfolding normalize_from
  drops last s ss e = rw (e, normalize_from) refl

  pub takes :
      (last : Option NormalizedStep) (s : StepCandidate) (ss : List StepCandidate)
      → is_dropped x last (clamped x cfg s) ≡ false
      → normalize_from x cfg last (s ∷ ss)
        ≡ clamped x cfg s ∷ normalize_from x cfg (some (clamped x cfg s)) ss
  unfolding normalize_from
  takes last s ss e = rw (e, normalize_from) refl

  from_lem :
      (last : Option NormalizedStep) (ss : List StepCandidate)
      → IsSublist (normalize_from x cfg last ss) (map (clamped x cfg) ss)
        × ChainFrom last (normalize_from x cfg last ss)
  unfolding normalize_from
  from_lem last [] = (nothing, tt)
  from_lem last (s ∷ ss) = elim (Bool-cases (is_dropped x last (clamped x cfg s))) [
    | inl e ↦
        let r = from_lem last ss in rw (drops last s ss e) (left_out (clamped x cfg s) r.0, r.1)
    | inr e ↦
        let r = from_lem (some (clamped x cfg s)) ss in
        rw (takes last s ss e) (taken (clamped x cfg s) r.0, (e, r.1))
  ]

  -- The output is the clamped steps with some left out, in their order; no step of it is without a
  -- user text, an agent text and a call, and none but a sub-step repeats the step before it.
  pub normalize_steps_lem :
      (steps : List StepCandidate)
      → IsSublist (normalize_steps x steps cfg) (map (clamped x cfg) steps)
        × ChainFrom none (normalize_steps x steps cfg)
  unfolding normalize_steps
  normalize_steps_lem steps = from_lem none steps
