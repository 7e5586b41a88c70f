-- ===== src/Retrieval/Ranker/Full.antt =====
-- core/retrieval/ranker.ts: when the output of `rank` is full.
use memos_qdrant.Shared.{
  ℕ, ◌+◌, ◌-◌, ◌≤◌, min, ◌≡◌, ◌≢◌, refl, sym, ap, subst, ◌∙◌, Bool, true, Option, none, some, List,
  [], ◌∷◌, length, Bool-cases, Option-cases, inl, inr, arith, length-map, All,
}
use memos_qdrant.Shared.Num.{Arith, zero_num, one_num}
use memos_qdrant.Retrieval.Relevance.{
  RankedCandidate, RankerInput, RankerResult, survivors, dropped, fused_bag, all_candidates, clamp,
}
use memos_qdrant.Retrieval.Ranker.{
  Picks, scan, mmr, anyone, pick, rank, bypass_of, floor_of, survivors_of, result_of, finish,
}
use memos_qdrant.Retrieval.Ranker.Kept.{IsPicked}
use memos_qdrant.Retrieval.Ranker.Among.{IsVecOf, Inside, pick-Inside}
use memos_qdrant.Retrieval.Ranker.Rounds.{Ended, full, no_score}
use memos_qdrant.Retrieval.Ranker.Ranking.{length-sort, pick_lem}

module _ (n : Arith) where
  -- The candidates that `rank` does not cut.
  survivors-dropped :
      (b : Bool) (x : n.Num) (cs : List (RankedCandidate n))
      → length (survivors n b x cs) + dropped n b x cs ≡ length cs
  survivors-dropped b x [] = omega arith
  survivors-dropped b x (c ∷ cs) = ground (arith, survivors-dropped b x cs)

  -- A scan that has an index keeps one.
  scan-keeps :
      (score : RankedCandidate n → Option n.Num) (xs : List (RankedCandidate n)) (i j : ℕ)
      (s : n.Num)
      → scan n (anyone n) score xs i (some (j, s)) ≢ some none
  unfolding scan
  scan-keeps score [] i j s h = cc h
  scan-keeps score (c ∷ xs) i j s h = elim (Option-cases (score c)) [
    | inl e ↦ cc (rw (scan, e) at h)
    | inr (t, e) ↦ elim (Bool-cases (n.lt s t)) [
      | inl g ↦ scan-keeps score xs (i + 1) i t (rw (scan, e, g) at h)
      | inr g ↦ scan-keeps score xs (i + 1) j s (rw (scan, e, g) at h)
    ]
  ]

  module _ {κ} (P : RankedCandidate n → Type κ) where
    -- Where every score is above -Infinity, a scan of a list that is not empty finds an index.
    scan-finds :
        (score : RankedCandidate n → Option n.Num) (xs : List (RankedCandidate n)) (i : ℕ)
        → ((c : RankedCandidate n) (s : n.Num)
            → P c
            → score c ≡ some s
            → n.lt n.neg_infinity s ≡ true)
        → All P xs
        → scan n (anyone n) score xs i none ≡ some none
        → length xs ≡ 0
    unfolding scan
    scan-finds score [] i f k h = refl
    scan-finds score (c ∷ xs) i f k h = elim (Option-cases (score c)) [
      | inl e ↦ absurd (cc (rw (scan, e) at h))
      | inr (s, e) ↦ absurd (scan-keeps score xs (i + 1) i s (rw (scan, e, f c s k.0 e) at h))
    ]

    -- Candidates with the property score above -Infinity against vectors of such candidates.
    abbrev Scores : n.Num → Type κ
    Scores lam =
        (selected : List (List n.Num × n.Num)) (c : RankedCandidate n) (s : n.Num)
        → All (IsVecOf n P) selected
        → P c
        → mmr n lam selected c ≡ some s
        → n.lt n.neg_infinity s ≡ true

    full_of :
        (limit : ℕ) (lam : n.Num) (sv : List (RankedCandidate n)) (q : Picks n)
        → Scores lam
        → limit ≤ length sv
        → IsPicked n sv limit q
        → Inside n P q
        → Ended n limit lam q
        → length q.out ≡ limit
    full_of limit lam sv q f short h k (full l) = omega (arith, h.bound)
    full_of limit lam sv q f short h k (no_score e) =
        let none_left =
          scan-finds (mmr n lam q.selected) q.pool 0 (λ c s. f q.selected c s k.1) k.0 e in
        omega (arith, h.bound, h.sizes, none_left)

  -- Where the candidates that the threshold leaves have a property under which every MMR score
  -- against vectors of such candidates is above -Infinity (say, that their numbers are finite and
  -- small enough), `rank` fills its output: it ranks `limit` candidates, or all that the
  -- threshold leaves where those are fewer.
  pub rank_full {κ} :
      (P : RankedCandidate n → Type κ) (input : RankerInput n) (r : RankerResult n)
      → ((selected : List (List n.Num × n.Num)) (c : RankedCandidate n) (s : n.Num)
          → All (IsVecOf n P) selected
          → P c
          → mmr n (clamp n input.config.mmr_lambda (zero_num n) (one_num n)) selected c ≡ some s
          → n.lt n.neg_infinity s ≡ true)
      → All P (survivors_of n input)
      → rank n input ≡ some r
      → length r.ranked ≡ min input.limit (length (all_candidates n input) - r.dropped_by_threshold)
  unfolding rank
  rank_full P input r f k h = elim (Option-cases (pick n input (survivors_of n input))) [
    | inl e ↦ absurd (cc (sym (ap (finish n input) e) ∙ h))
    | inr (p, e) ↦
        let q : result_of n input p ≡ r = cc (sym (ap (finish n input) e) ∙ h) in
        let (picked, ended) = pick_lem n input (survivors_of n input) p e in
        let bag = fused_bag n input in
        let size : length bag ≡ length (all_candidates n input) =
          length-map _ (all_candidates n input) in
        subst
          (λ (w : RankerResult n).
            length w.ranked
            ≡ min input.limit (length (all_candidates n input) - w.dropped_by_threshold))
          q
          (omega (
            arith,
            length-sort n p.out,
            full_of P _ _ (survivors_of n input) p f (omega arith) picked
                (pick-Inside n P input (survivors_of n input) p k e) ended,
            survivors-dropped (bypass_of n input) (floor_of n input) bag,
            size,
          ))
  ]
