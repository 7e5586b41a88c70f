-- ===== src/Retrieval/Ranker/Ranking.antt =====
-- core/retrieval/ranker.ts: what `rank` returns.
use mathlib.Core.List.{Perm, perm_middle}
use mathlib.Core.List.Perm
use memos_qdrant.Shared.{
  ℕ, ◌+◌, ◌≤◌, min, ◌≡◌, refl, sym, ap, subst, ◌∙◌, Bool, false, Option, none, some, List, [], ◌∷◌,
  ◌++◌, map, All, ◌&&◌, length, keep, Bool-cases, Option-cases, inl, inr, arith, append_assoc,
  length-map,
}
use memos_qdrant.Shared.Num.{Arith, zero_num, one_num}
use memos_qdrant.Retrieval.Types.{TierKind, tier1, tier2, tier3, TierCandidate}
use memos_qdrant.Retrieval.Relevance.{
  RankedCandidate, RankerInput, RankerResult, many, spared, is_cut, survivors, dropped, fused,
  bagged, fused_bag, all_candidates, unless_false, clamp,
}
use memos_qdrant.Retrieval.Ranker.{
  Picks, seed_after, loop_after, seed_cutoff, start_of, goes_after, insert_ranked, sort_ranked,
  pick, rank, bypass_of, floor_of, survivors_of, result_of, finish,
}
use memos_qdrant.Retrieval.Ranker.Kept.{candidates, how_many, Counts, IsPicked, seed-IsPicked}
use memos_qdrant.Retrieval.Ranker.Rounds.{Ended, loop_lem}

module _ (n : Arith) where
  insert-perm :
      (c : RankedCandidate n) (ds : List (RankedCandidate n))
      → Perm (candidates n (insert_ranked n c ds)) (c.candidate ∷ candidates n ds)
  insert-perm c [] = Perm.refl _
  insert-perm c (d ∷ ds) = elim (Bool-cases (goes_after n c d)) [
    | inl e ↦ simp e (
        Perm.trans (Perm.cons d.candidate (insert-perm c ds))
          (Perm.swap c.candidate d.candidate (candidates n ds)))
    | inr e ↦ simp e (Perm.refl _)
  ]

  sort-perm :
      (cs : List (RankedCandidate n)) → Perm (candidates n (sort_ranked n cs)) (candidates n cs)
  sort-perm [] = Perm.refl _
  sort-perm (c ∷ cs) =
      Perm.trans (insert-perm c (sort_ranked n cs)) (Perm.cons c.candidate (sort-perm cs))

  length-insert :
      (c : RankedCandidate n) (ds : List (RankedCandidate n))
      → length (insert_ranked n c ds) ≡ length ds + 1
  length-insert c [] = omega arith
  length-insert c (d ∷ ds) = ground (arith, length-insert c ds)

  pub length-sort : (cs : List (RankedCandidate n)) → length (sort_ranked n cs) ≡ length cs
  length-sort [] = refl
  length-sort (c ∷ cs) = omega (arith, length-insert c (sort_ranked n cs), length-sort cs)

  how_many-insert :
      (tk : TierKind) (c : RankedCandidate n) (ds : List (RankedCandidate n))
      → how_many n tk (insert_ranked n c ds) ≡ how_many n tk (c ∷ ds)
  how_many-insert tk c [] = refl
  how_many-insert tk c (d ∷ ds) = ground (arith, how_many-insert tk c ds)

  how_many-sort :
      (tk : TierKind) (cs : List (RankedCandidate n))
      → how_many n tk (sort_ranked n cs) ≡ how_many n tk cs
  how_many-sort tk [] = refl
  how_many-sort tk (c ∷ cs) =
      ground (arith, how_many-insert tk c (sort_ranked n cs), how_many-sort tk cs)

  spared-candidate : (b : Bool) (c : RankedCandidate n) → (spared n b c).candidate ≡ c.candidate
  spared-candidate b c = elim (Bool-cases (b && many n c.candidate.channels)) [
    | inl e ↦ rw e refl
    | inr e ↦ rw e refl
  ]

  -- The bag is what survives and what is cut.
  cut_of : Bool → n.Num → List (RankedCandidate n) → List (RankedCandidate n)
  cut_of bypass cutoff = keep (is_cut n bypass cutoff)

  split-perm :
      (b : Bool) (x : n.Num) (cs : List (RankedCandidate n))
      → Perm (candidates n (survivors n b x cs) ++ candidates n (cut_of b x cs)) (candidates n cs)
  unfolding cut_of
  split-perm b x [] = Perm.refl _
  split-perm b x (c ∷ cs) = elim (Bool-cases (is_cut n b x c)) [
    | inl e ↦ simp e (
        Perm.trans (perm_middle (candidates n (survivors n b x cs)) (candidates n (cut_of b x cs)))
          (Perm.cons c.candidate (split-perm b x cs)))
    | inr e ↦ simp (e, spared-candidate b c) (Perm.cons c.candidate (split-perm b x cs))
  ]

  dropped-cut :
      (b : Bool) (x : n.Num) (cs : List (RankedCandidate n))
      → dropped n b x cs ≡ length (cut_of b x cs)
  unfolding cut_of
  dropped-cut b x [] = refl
  dropped-cut b x (c ∷ cs) = ground (arith, dropped-cut b x cs)

  cut-single :
      (b : Bool) (x : n.Num) (cs : List (RankedCandidate n))
      → All
          (λ (c : TierCandidate n). (b && many n c.channels) ≡ false)
          (candidates n (cut_of b x cs))
  unfolding cut_of
  cut-single b x [] = tt
  cut-single b x (c ∷ cs) = elim (Bool-cases (is_cut n b x c)) [
    | inl e ↦ simp e (ground arith, cut-single b x cs)
    | inr e ↦ simp e (cut-single b x cs)
  ]

  bag-candidates :
      (f : TierCandidate n → RankedCandidate n) (cs : List (TierCandidate n))
      → ((c : TierCandidate n) → (f c).candidate ≡ c)
      → candidates n (map f cs) ≡ cs
  bag-candidates f [] h = refl
  bag-candidates f (c ∷ cs) h = simp (h c, bag-candidates f cs h) refl

  module _ (sv : List (RankedCandidate n)) (limit : ℕ) where
    -- Whatever a part returns is picked from the survivors.
    abbrev Keeps : Option (Picks n) → Type 0
    Keeps o = (p : Picks n) → o ≡ some p → IsPicked n sv limit p

    seed_after-Keeps :
        (cutoff : n.Num) (tk : TierKind) (o : Option (Picks n))
        → Keeps o
        → Keeps (seed_after n limit cutoff tk o)
    unfolding seed_after
    seed_after-Keeps cutoff tk none k q e = absurd (cc e)
    seed_after-Keeps cutoff tk (some p) k q e = seed-IsPicked n sv limit cutoff tk p q e (k p refl)

    loop_after_lem :
        (lam : n.Num) (o : Option (Picks n)) (q : Picks n)
        → limit ≤ length sv
        → Keeps o
        → loop_after n limit lam o ≡ some q
        → IsPicked n sv limit q × Ended n limit lam q
    unfolding loop_after
    loop_after_lem lam none q short k e = absurd (cc e)
    loop_after_lem lam (some p) q short k e =
        loop_lem n sv limit short lam limit p q e (k p refl) (omega arith)

    start-Keeps : Keeps (some (start_of n sv))
    start-Keeps p e =
        let e' : start_of n sv ≡ p = cc e in
        subst (IsPicked n sv limit) e' (record {
          parts = Perm.refl _;
          counts = (refl, refl, refl);
          sizes = omega arith;
          bound = omega arith;
        })

  pub pick_lem :
      (input : RankerInput n) (sv : List (RankedCandidate n)) (q : Picks n)
      → pick n input sv ≡ some q
      → IsPicked n sv (min input.limit (length sv)) q
        × Ended n
            (min input.limit (length sv))
            (clamp n input.config.mmr_lambda (zero_num n) (one_num n))
            q
  unfolding pick
  pick_lem input sv q h =
      let limit = min input.limit (length sv) in
      let x = seed_cutoff n input.config sv in
      loop_after_lem sv limit _ _ q (omega arith)
        (seed_after-Keeps sv limit x tier3 _ (
          seed_after-Keeps sv limit x tier2 _
            (seed_after-Keeps sv limit x tier1 _ (start-Keeps sv limit))))
        h

  -- What the ranking keeps of the candidates: `left` survived the threshold and was not picked.
  pub record IsRanking (input : RankerInput n) (r : RankerResult n) : Type 0 where
    pub left : List (TierCandidate n)
    pub cut : List (TierCandidate n)
    pub parts :
        Perm
          (map (λ (c : RankedCandidate n). c.candidate) r.ranked ++ (left ++ cut))
          (all_candidates n input)
    pub dropped : r.dropped_by_threshold ≡ length cut
    pub single :
        All
          (λ (c : TierCandidate n).
            (unless_false input.config.multi_channel_bypass && many n c.channels) ≡ false)
          cut
    pub counts : Counts n r.kept r.ranked
    pub bound : length r.ranked ≤ input.limit

  result-IsRanking :
      (input : RankerInput n) (p : Picks n)
      → IsPicked n (survivors_of n input) (min input.limit (length (survivors_of n input))) p
      → IsRanking input (result_of n input p)
  result-IsRanking input p h =
      let b = bypass_of n input in
      let x = floor_of n input in
      let bag = fused_bag n input in
      record {
        left = candidates n p.pool;
        cut = candidates n (cut_of b x bag);
        parts =
            subst
              (λ w.
                Perm
                  (candidates n (sort_ranked n p.out)
                    ++ (candidates n p.pool ++ candidates n (cut_of b x bag)))
                  w)
              (bag-candidates (λ c. fused n input.config.rrf_constant (bagged n input c))
                (all_candidates n input) (λ c. refl))
              (Perm.trans
                (Perm.append_right (candidates n p.pool ++ candidates n (cut_of b x bag))
                  (sort-perm p.out))
                (subst (λ w. Perm w (candidates n bag))
                  (append_assoc (candidates n p.out) (candidates n p.pool)
                    (candidates n (cut_of b x bag)))
                  (Perm.trans (Perm.append_right (candidates n (cut_of b x bag)) h.parts)
                    (split-perm b x bag))));
        dropped =
            dropped-cut b x bag
            ∙ sym (length-map (λ (c : RankedCandidate n). c.candidate) (cut_of b x bag));
        single = cut-single b x bag;
        counts = (
          h.counts.0 ∙ sym (how_many-sort tier1 p.out),
          h.counts.1 ∙ sym (how_many-sort tier2 p.out),
          h.counts.2 ∙ sym (how_many-sort tier3 p.out),
        );
        bound = omega (arith, h.bound, length-sort p.out);
      }

  -- What `rank` returns is made of the candidates that it is given, none of them twice: the ranked
  -- ones, ones that are left over, and as many as `droppedByThreshold` says that the relative
  -- threshold cuts, none of which is confirmed by two channels unless the bypass is off. There are
  -- at most `limit` ranked ones, and `kept` counts them by their tiers.
  pub rank_lem :
      (input : RankerInput n) (r : RankerResult n) → rank n input ≡ some r → IsRanking input r
  unfolding rank
  rank_lem input r h = elim (Option-cases (pick n input (survivors_of n input))) [
    | inl e ↦ absurd (cc (sym (ap (finish n input) e) ∙ h))
    | inr (p, e) ↦
        let q : result_of n input p ≡ r = cc (sym (ap (finish n input) e) ∙ h) in
        subst (IsRanking input) q
          (result-IsRanking input p (pick_lem input (survivors_of n input) p e).0)
  ]
