-- ===== src/Capture/Stamps/Fresh.antt =====
-- core/capture/step-extractor.ts: the search of `uniqueTs` ends.
use memos_qdrant.Shared.{
  ℕ, zero, suc, ◌+◌, ◌≤◌, ◌<◌, ◌≡◌, refl, true, false, List, [], ◌∷◌, length, includes, leb, nat_eq,
  arith, Bool-cases, ==_iff, if◌then◌else◌, inl, inr, ◌==◌, subst,
}
use memos_qdrant.Capture.Stamps.{unique_ts_from, unique_ts}

-- How many of the stamps are not below `t`.
abbrev above : ℕ → List ℕ → ℕ
above t [] = 0
above t (x ∷ xs) = if leb t x then suc (above t xs) else above t xs

above_mono : (t : ℕ) (xs : List ℕ) → above (t + 1) xs ≤ above t xs
above_mono t [] = omega arith
above_mono t (x ∷ xs) = ground (arith, above_mono t xs)

above_lt : (t : ℕ) (xs : List ℕ) → includes t xs ≡ true → above (t + 1) xs < above t xs
above_lt t [] h = absurd (cc h)
above_lt t (x ∷ xs) h = ground (arith, above_mono t xs, above_lt t xs)

above_bound : (t : ℕ) (xs : List ℕ) → above t xs ≤ length xs
above_bound t [] = omega arith
above_bound t (x ∷ xs) = ground (arith, above_bound t xs)

used_step :
    (fuel : ℕ) (used : List ℕ) (t : ℕ)
    → includes t used ≡ true
    → unique_ts_from (suc fuel) used t ≡ unique_ts_from fuel used (t + 1)
unfolding unique_ts_from
used_step fuel used t e = rw (e, unique_ts_from) refl

free_step :
    (fuel : ℕ) (used : List ℕ) (t : ℕ)
    → includes t used ≡ false
    → unique_ts_from (suc fuel) used t ≡ t
unfolding unique_ts_from
free_step fuel used t e = rw (e, unique_ts_from) refl

unique_ts_from_free :
    (fuel : ℕ) (used : List ℕ) (t : ℕ)
    → above t used < fuel
    → includes (unique_ts_from fuel used t) used ≡ false
unique_ts_from_free zero used t h = absurd (omega arith)
unique_ts_from_free (suc fuel) used t h = elim (Bool-cases (includes t used)) [
  | inl e ↦
      rw (used_step fuel used t e)
        (unique_ts_from_free fuel used (t + 1) (omega (arith, above_lt t used e)))
  | inr e ↦ rw (free_step fuel used t e) e
]

unique_ts_from_bound :
    (fuel : ℕ) (used : List ℕ) (t : ℕ)
    → (t ≤ unique_ts_from fuel used t) × (unique_ts_from fuel used t ≤ t + above t used)
unfolding unique_ts_from
unique_ts_from_bound zero used t = (omega arith, omega arith)
unique_ts_from_bound (suc fuel) used t = elim (Bool-cases (includes t used)) [
  | inl e ↦
      let b = unique_ts_from_bound fuel used (t + 1) in
      rw (used_step fuel used t e) (omega (arith, b.0), omega (arith, b.1, above_lt t used e))
  | inr e ↦ rw (free_step fuel used t e) (omega arith, omega arith)
]

-- Every stamp that the search passed is in use.
unique_ts_from_first :
    (fuel : ℕ) (used : List ℕ) (t k : ℕ)
    → t ≤ k
    → k < unique_ts_from fuel used t
    → includes k used ≡ true
unfolding unique_ts_from
unique_ts_from_first zero used t k h l = absurd (omega arith)
unique_ts_from_first (suc fuel) used t k h l = elim (Bool-cases (includes t used)) [
  | inr e ↦ absurd (omega (arith, free_step fuel used t e))
  | inl e ↦ elim (Bool-cases (t == k)) [
    | inl q ↦ subst (λ j. includes j used ≡ true) ((==_iff t k).0 q) e
    | inr q ↦
        unique_ts_from_first fuel used (t + 1) k (ground arith)
          (omega (arith, used_step fuel used t e))
  ]
]

-- The stamp that `uniqueTs` gives a step: no step before it has it, it is the first such stamp
-- from the turn's own on, and it is at most as many milliseconds later as there are steps before.
pub unique_ts_lem :
    (used : List ℕ) (base : ℕ)
    → (includes (unique_ts used base) used ≡ false)
      × (base ≤ unique_ts used base)
      × (unique_ts used base ≤ base + length used)
      × ((k : ℕ) → base ≤ k → k < unique_ts used base → includes k used ≡ true)
unfolding unique_ts
unique_ts_lem used base =
    let b = unique_ts_from_bound (suc (length used)) used base in
    let a = above_bound base used in
    (
      unique_ts_from_free (suc (length used)) used base (omega arith),
      b.0,
      omega (arith, b.1),
      λ k h l. unique_ts_from_first (suc (length used)) used base k h l,
    )
