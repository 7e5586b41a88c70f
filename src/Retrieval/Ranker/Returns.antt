-- ===== src/Retrieval/Ranker/Returns.antt =====
-- core/retrieval/ranker.ts: vectors of one dimension, for which nothing throws.
use memos_qdrant.Shared.{
  ℕ, zero, suc, ◌+◌, ◌≤◌, arith, min, ◌≡◌, refl, sym, ap, subst, ◌∙◌, Bool, false, Option, none,
  some, List, [], ◌∷◌, map, All, ◌&&◌, ◌||◌, if◌then◌else◌, length, leb, ==_iff, nat_eq, Bool-cases,
  Option-cases, inl, inr,
}
use memos_qdrant.Shared.Num.{Arith, zero_num, one_num}
use memos_qdrant.Storage.Vector.{dot_from, dot, cosine_prenormed, is_zero}
use memos_qdrant.Retrieval.Types.{TierKind, tier1, tier2, tier3, TierCandidate}
use memos_qdrant.Retrieval.Relevance.{
  RankedCandidate, RankerInput, RankerResult, spared, is_cut, many, survivors, fused, bagged,
  fused_bag, all_candidates, clamp,
}
use memos_qdrant.Retrieval.Ranker.{
  get_elem?, splice, Picks, max_cos_from, max_cos_of, max_cos, better, considered, scan, take_at,
  in_tier, relevance_of, seeded, seed, mmr, anyone, goes_on, mmr_loop, seed_after, loop_after,
  seed_cutoff, start_of, pick, bypass_of, floor_of, survivors_of, result_of, finish, rank,
}
use memos_qdrant.Retrieval.Ranker.Among.{IsVecOf, Inside, moved-Inside, seeded-Inside}
use memos_qdrant.Retrieval.Ranker.Rounds.{scan-index, length-moved}

module _ (n : Arith) (d : ℕ) where
  -- A vector of dimension `d`, if there is one.
  abbrev pub FitsVec : Option (List n.Num) → Type 0
  FitsVec none = Unit
  FitsVec (some v) = length v ≡ d

  abbrev Fits : RankedCandidate n → Type 0
  Fits c = FitsVec c.candidate.vec

  abbrev Chosen : List (List n.Num × n.Num) → Type 0
  Chosen = All (λ w. length w.0 ≡ d)

  -- Something is returned.
  abbrev Returns {ℓ} : {A : Type ℓ} → Option A → Type ℓ
  Returns {A} o = (a : A) × (o ≡ some a)

  cosine-Returns :
      (v w : List n.Num) (a b : n.Num)
      → length v ≡ d
      → length w ≡ d
      → Returns (cosine_prenormed n v a w b)
  unfolding cosine_prenormed dot
  cosine-Returns v w a b h k = elim (Bool-cases (is_zero n a || is_zero n b)) [
    | inl e ↦ (zero_num n, rw e refl)
    | inr e ↦
        let q = (==_iff (length v) (length w)).1 (h ∙ sym k) in
        (n.div (dot_from n (zero_num n) v w) (n.mul a (n.sqrt b)), rw (e, q) refl)
  ]

  max_cos_from-Returns :
      (v : List n.Num) (norm m : n.Num) (ws : List (List n.Num × n.Num))
      → length v ≡ d
      → Chosen ws
      → Returns (max_cos_from n v norm m ws)
  max_cos_from-Returns v norm m [] h k = (m, refl)
  max_cos_from-Returns v norm m ((w, w2) ∷ ws) h k = elim (Bool-cases (is_zero n (n.sqrt w2))) [
    | inl e ↦ simp (max_cos_from, e) (max_cos_from-Returns v norm m ws h k.1)
    | inr e ↦
        let (sim, f) = cosine-Returns v w norm w2 h k.0 in
        simp (max_cos_from, e, f)
          (max_cos_from-Returns v norm (if n.lt m sim then sim else m) ws h k.1)
  ]

  max_cos_of-Returns :
      (v : Option (List n.Num)) (norm : Option n.Num) (ws : List (List n.Num × n.Num))
      → FitsVec v
      → Chosen ws
      → Returns (max_cos_of n v norm ws)
  max_cos_of-Returns none norm ws h k = (zero_num n, refl)
  max_cos_of-Returns (some v) none ws h k = (zero_num n, refl)
  max_cos_of-Returns (some v) (some norm) [] h k = (zero_num n, refl)
  max_cos_of-Returns (some v) (some norm) (w ∷ ws) h k =
      elim (Bool-cases (is_zero n (n.sqrt norm))) [
        | inl e ↦ (zero_num n, rw e refl)
        | inr e ↦ simp e (max_cos_from-Returns v (n.sqrt norm) (zero_num n) (w ∷ ws) h k)
      ]

  mmr-Returns :
      (lam : n.Num) (ws : List (List n.Num × n.Num)) (c : RankedCandidate n)
      → Chosen ws
      → Fits c
      → Returns (mmr n lam ws c)
  unfolding max_cos
  mmr-Returns lam ws c k h =
      let (x, e) = max_cos_of-Returns c.candidate.vec c.norm_sq ws h k in
      (n.sub (n.mul lam c.relevance) (n.mul (n.sub (one_num n) lam) x), rw (mmr, e) refl)

  module _ (eligible : RankedCandidate n → Bool) (score : RankedCandidate n → Option n.Num)
      (total : (c : RankedCandidate n) → Fits c → Returns (score c)) where
    considered-Returns :
        (c : RankedCandidate n) (i : ℕ) (best : Option (ℕ × n.Num))
        → Fits c
        → Returns (considered n eligible score c i best)
    considered-Returns c i best h = elim (Bool-cases (eligible c)) [
      | inr e ↦ (best, rw e refl)
      | inl e ↦ let (s, f) = total c h in (better n i s best, rw (e, f) refl)
    ]

    scan-Returns :
        (xs : List (RankedCandidate n)) (i : ℕ) (best : Option (ℕ × n.Num))
        → All Fits xs
        → Returns (scan n eligible score xs i best)
    unfolding scan
    scan-Returns [] i best h = (best, refl)
    scan-Returns (c ∷ xs) i best h =
        let (b, e) = considered-Returns c i best h.0 in
        let (r, f) = scan-Returns xs (i + 1) b h.1 in (r, rw (scan, e) f)

  vecs-Chosen : (ws : List (List n.Num × n.Num)) → All (IsVecOf n Fits) ws → Chosen ws
  vecs-Chosen [] h = tt
  vecs-Chosen ((v, v2) ∷ ws) ((c, k, e, f), h) = (subst FitsVec e k, vecs-Chosen ws h)

  -- A part that returns, with vectors that fit.
  abbrev Goes : Option (Picks n) → Type 0
  Goes o = (q : Picks n) × (o ≡ some q) × Inside n Fits q

  seed-Goes :
      (limit : ℕ) (cutoff : n.Num) (tk : TierKind) (p : Picks n)
      → Inside n Fits p
      → Goes (seed n limit cutoff tk p)
  unfolding seed
  seed-Goes limit cutoff tk p h = elim (Bool-cases (leb limit (length p.out))) [
    | inl e ↦ (p, rw e refl, h)
    | inr e ↦
        let (best, f) =
          scan-Returns (in_tier n tk) (relevance_of n) (λ c _. (c.relevance, refl)) p.pool 0 none
            h.0 in
        (seeded n cutoff best p, rw (e, f) refl, seeded-Inside n Fits cutoff best p h)
  ]

  seed_after-Goes :
      (limit : ℕ) (cutoff : n.Num) (tk : TierKind) (o : Option (Picks n))
      → Goes o
      → Goes (seed_after n limit cutoff tk o)
  unfolding seed_after
  seed_after-Goes limit cutoff tk none (q, e, h) = absurd (cc e)
  seed_after-Goes limit cutoff tk (some p) (q, e, h) =
      let e' : q ≡ p = cc (sym e) in seed-Goes limit cutoff tk p (subst (Inside n Fits) e' h)

  loop-Returns :
      (fuel limit : ℕ) (lam : n.Num) (p : Picks n)
      → limit ≤ fuel + length p.out
      → Inside n Fits p
      → Returns (mmr_loop n fuel limit lam p)
  unfolding mmr_loop
  loop-Returns zero limit lam p l h =
      let b : goes_on n limit p ≡ false = ground arith in (p, rw (mmr_loop, b) refl)
  loop-Returns (suc fuel) limit lam p l h = elim (Bool-cases (goes_on n limit p)) [
    | inr b ↦ (p, rw (mmr_loop, b) refl)
    | inl b ↦
        let (best, f) =
          scan-Returns (anyone n) (mmr n lam p.selected)
            (λ c k. mmr-Returns lam p.selected c (vecs-Chosen p.selected h.1) k) p.pool 0 none
            h.0 in
        elim (Option-cases best) [
          | inl g ↦ (p, rw (mmr_loop, b, f, g) refl)
          | inr ((i, s), g) ↦
              let (c, at) =
                scan-index n (anyone n) (mmr n lam p.selected) p.pool i s (f ∙ ap some g) in
              let (q, k) =
                loop-Returns fuel limit lam (take_at n i s p)
                  (omega (arith, length-moved n s c (get_elem? p.pool i) (splice p.pool i) p at))
                  (moved-Inside n Fits s i (get_elem? p.pool i) p refl h) in
              (q, rw (mmr_loop, b, f, g) k)
        ]
  ]

  loop_after-Returns :
      (limit : ℕ) (lam : n.Num) (o : Option (Picks n)) → Goes o → Returns (loop_after n limit lam o)
  unfolding loop_after
  loop_after-Returns limit lam none (q, e, h) = absurd (cc e)
  loop_after-Returns limit lam (some p) (q, e, h) =
      let e' : q ≡ p = cc (sym e) in
      loop-Returns limit limit lam p (omega arith) (subst (Inside n Fits) e' h)

  pick-Returns :
      (input : RankerInput n) (sv : List (RankedCandidate n))
      → All Fits sv
      → Returns (pick n input sv)
  unfolding pick
  pick-Returns input sv h =
      let limit = min input.limit (length sv) in
      let x = seed_cutoff n input.config sv in
      loop_after-Returns limit (clamp n input.config.mmr_lambda (zero_num n) (one_num n)) _ (
        seed_after-Goes limit x tier3 _ (
          seed_after-Goes limit x tier2 _
            (seed_after-Goes limit x tier1 _ (start_of n sv, refl, (h, tt)))))

  spared-Fits : (b : Bool) (c : RankedCandidate n) → Fits c → Fits (spared n b c)
  spared-Fits b c h = elim (Bool-cases (b && many n c.candidate.channels)) [
    | inl f ↦ simp f h
    | inr f ↦ simp f h
  ]

  survivors-Fits :
      (b : Bool) (x : n.Num) (cs : List (RankedCandidate n))
      → All Fits cs
      → All Fits (survivors n b x cs)
  survivors-Fits b x [] h = tt
  survivors-Fits b x (c ∷ cs) h = elim (Bool-cases (is_cut n b x c)) [
    | inl e ↦ simp e (survivors-Fits b x cs h.1)
    | inr e ↦ simp e (spared-Fits b c h.0, survivors-Fits b x cs h.1)
  ]

  bag-Fits :
      (input : RankerInput n) (cs : List (TierCandidate n))
      → All (λ (c : TierCandidate n). FitsVec c.vec) cs
      → All Fits (map (λ c. fused n input.config.rrf_constant (bagged n input c)) cs)
  bag-Fits input [] h = tt
  bag-Fits input (c ∷ cs) h = (h.0, bag-Fits input cs h.1)

  -- Where all the vectors have one dimension, `rank` returns a result: no cosine throws, and the
  -- loop of phase B stops by itself, its condition false or no candidate found, within as many
  -- rounds as there are places in its output. (A loop that needed more would give no result.)
  pub rank_returns :
      (input : RankerInput n)
      → All (λ (c : TierCandidate n). FitsVec c.vec) (all_candidates n input)
      → (r : RankerResult n) × (rank n input ≡ some r)
  unfolding rank
  rank_returns input h =
      let fits = bag-Fits input (all_candidates n input) h in
      let (p, e) =
        pick-Returns input (survivors_of n input)
          (survivors-Fits (bypass_of n input) (floor_of n input) (fused_bag n input) fits) in
      (result_of n input p, ap (finish n input) e)
