-- ===== src/Retrieval/Ranker/Among.antt =====
-- core/retrieval/ranker.ts: what holds of the survivors holds of the pool of the greedy pick, and
-- what holds of their vectors of the selected ones.
use memos_qdrant.Shared.{
  ℕ, zero, suc, ◌≡◌, refl, subst, Option, none, some, List, [], ◌∷◌, min, All, All-append, leb,
  length, Bool-cases, Option-cases, inl, inr,
}
use memos_qdrant.Shared.Num.{Arith, zero_num, one_num}
use memos_qdrant.Storage.Vector.{norm2}
use memos_qdrant.Reward.Backprop.{or_else}
use memos_qdrant.Retrieval.Types.{TierKind, tier1, tier2, tier3}
use memos_qdrant.Retrieval.Relevance.{RankedCandidate, RankerInput, clamp}
use memos_qdrant.Retrieval.Ranker.{
  get_elem?, splice, Picks, push_vec, scan, moved, take_at, in_tier, relevance_of, seeded, seed,
  mmr, anyone, goes_on, mmr_loop, seed_after, loop_after, seed_cutoff, start_of, pick,
}

module _ {ℓ κ} {A : Type ℓ} (P : A → Type κ) where
  All-splice : (xs : List A) (i : ℕ) → All P xs → All P (splice xs i)
  All-splice [] i h = tt
  All-splice (x ∷ xs) zero h = h.1
  All-splice (x ∷ xs) (suc i) h = (h.0, All-splice xs i h.1)

  All-elem : (xs : List A) (i : ℕ) (x : A) → All P xs → get_elem? xs i ≡ some x → P x
  All-elem [] i x h e = absurd (cc e)
  All-elem (y ∷ xs) zero x h e = let q : y ≡ x = cc e in subst P q h.0
  All-elem (y ∷ xs) (suc i) x h e = All-elem xs i x h.1 e

module _ {κ} (n : Arith) (P : RankedCandidate n → Type κ) where
  -- The vector of a candidate that has the property, with the squared norm that goes with it.
  abbrev pub IsVecOf : List n.Num × n.Num → Type κ
  IsVecOf w =
      (c : RankedCandidate n) × P c
      × (c.candidate.vec ≡ some w.0)
      × (w.1 ≡ or_else n c.norm_sq (norm2 n w.0))

  abbrev pub Inside : Picks n → Type κ
  Inside p = All P p.pool × All IsVecOf p.selected

  push_vec-Inside :
      (c : RankedCandidate n) (o : Option (List n.Num)) (ws : List (List n.Num × n.Num))
      → c.candidate.vec ≡ o
      → P c
      → All IsVecOf ws
      → All IsVecOf (push_vec n o c.norm_sq ws)
  push_vec-Inside c none ws e h k = k
  push_vec-Inside c (some v) ws e h k = All-append _ ws _ k ((c, h, e, refl), tt)

  pub moved-Inside :
      (s : n.Num) (i : ℕ) (o : Option (RankedCandidate n)) (p : Picks n)
      → get_elem? p.pool i ≡ o
      → Inside p
      → Inside (moved n s o (splice p.pool i) p)
  moved-Inside s i none p e h = h
  moved-Inside s i (some c) p e h = (
    All-splice P p.pool i h.0,
    push_vec-Inside c c.candidate.vec p.selected refl (All-elem P p.pool i c h.0 e) h.1,
  )

  pub seeded-Inside :
      (cutoff : n.Num) (best : Option (ℕ × n.Num)) (p : Picks n)
      → Inside p
      → Inside (seeded n cutoff best p)
  seeded-Inside cutoff none p h = h
  seeded-Inside cutoff (some (i, rel)) p h = elim (Bool-cases (n.lt rel cutoff)) [
    | inl e ↦ simp e h
    | inr e ↦ simp e (moved-Inside rel i (get_elem? p.pool i) p refl h)
  ]

  -- Whatever a part returns is inside.
  abbrev Keeps : Option (Picks n) → Type κ
  Keeps o = (q : Picks n) → o ≡ some q → Inside q

  seed-Keeps :
      (limit : ℕ) (cutoff : n.Num) (tk : TierKind) (p : Picks n)
      → Inside p
      → Keeps (seed n limit cutoff tk p)
  unfolding seed
  seed-Keeps limit cutoff tk p h q e = elim (Bool-cases (leb limit (length p.out))) [
    | inl full ↦ let e' : p ≡ q = cc (rw full at e) in subst Inside e' h
    | inr more ↦ elim (Option-cases (scan n (in_tier n tk) (relevance_of n) p.pool 0 none)) [
      | inl f ↦ absurd (cc (rw (more, f) at e))
      | inr (best, f) ↦
          let e' : seeded n cutoff best p ≡ q = cc (rw (more, f) at e) in
          subst Inside e' (seeded-Inside cutoff best p h)
    ]
  ]

  seed_after-Keeps :
      (limit : ℕ) (cutoff : n.Num) (tk : TierKind) (o : Option (Picks n))
      → Keeps o
      → Keeps (seed_after n limit cutoff tk o)
  unfolding seed_after
  seed_after-Keeps limit cutoff tk none k q e = absurd (cc e)
  seed_after-Keeps limit cutoff tk (some p) k q e = seed-Keeps limit cutoff tk p (k p refl) q e

  loop-Keeps :
      (fuel limit : ℕ) (lam : n.Num) (p : Picks n) → Inside p → Keeps (mmr_loop n fuel limit lam p)
  unfolding mmr_loop
  loop-Keeps zero limit lam p h q e = elim (Bool-cases (goes_on n limit p)) [
    | inr b ↦ let e' : p ≡ q = cc (rw (mmr_loop, b) at e) in subst Inside e' h
    | inl b ↦ absurd (cc (rw (mmr_loop, b) at e))
  ]
  loop-Keeps (suc fuel) limit lam p h q e = elim (Bool-cases (goes_on n limit p)) [
    | inr b ↦ let e' : p ≡ q = cc (rw (mmr_loop, b) at e) in subst Inside e' h
    | inl b ↦ elim (Option-cases (scan n (anyone n) (mmr n lam p.selected) p.pool 0 none)) [
      | inl f ↦ absurd (cc (rw (mmr_loop, b, f) at e))
      | inr (best, f) ↦ elim (Option-cases best) [
        | inl g ↦ let e' : p ≡ q = cc (rw (mmr_loop, b, f, g) at e) in subst Inside e' h
        | inr ((i, s), g) ↦
            loop-Keeps fuel limit lam (take_at n i s p)
              (moved-Inside s i (get_elem? p.pool i) p refl h) q (rw (mmr_loop, b, f, g) at e)
      ]
    ]
  ]

  loop_after-Keeps :
      (limit : ℕ) (lam : n.Num) (o : Option (Picks n)) → Keeps o → Keeps (loop_after n limit lam o)
  unfolding loop_after
  loop_after-Keeps limit lam none k q e = absurd (cc e)
  loop_after-Keeps limit lam (some p) k q e = loop-Keeps limit limit lam p (k p refl) q e

  pub pick-Inside :
      (input : RankerInput n) (sv : List (RankedCandidate n)) (q : Picks n)
      → All P sv
      → pick n input sv ≡ some q
      → Inside q
  unfolding pick
  pick-Inside input sv q h =
      let limit = min input.limit (length sv) in
      let x = seed_cutoff n input.config sv in
      let start : Keeps (some (start_of n sv)) =
        λ p e. let e' : start_of n sv ≡ p = cc e in subst Inside e' (h, tt) in
      loop_after-Keeps limit (clamp n input.config.mmr_lambda (zero_num n) (one_num n)) _
        (seed_after-Keeps limit x tier3 _
          (seed_after-Keeps limit x tier2 _ (seed_after-Keeps limit x tier1 _ start)))
        q
