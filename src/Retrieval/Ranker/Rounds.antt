-- ===== src/Retrieval/Ranker/Rounds.antt =====
-- core/retrieval/ranker.ts: the rounds of phase B, and how they end.
use memos_qdrant.Shared.{
  ℕ, zero, suc, ◌+◌, ◌≤◌, ◌≡◌, ◌⊎◌, refl, sym, ap, subst, ◌∙◌, Bool, false, Option, none, some,
  List, [], ◌∷◌, length, length-append, Bool-cases, Option-cases, inl, inr, arith,
}
use memos_qdrant.Shared.Num.{Arith}
use memos_qdrant.Retrieval.Relevance.{RankedCandidate}
use memos_qdrant.Retrieval.Ranker.{
  get_elem?, splice, Picks, better, considered, scan, moved, take_at, mmr, anyone, goes_on,
  mmr_loop,
}
use memos_qdrant.Retrieval.Ranker.Kept.{IsPicked, moved-IsPicked}

module _ (n : Arith) where
  -- Where a scan finds its index: at the start, or at an element.
  data Found (xs : List (RankedCandidate n)) (i : ℕ) (best : Option (ℕ × n.Num)) (j : ℕ) (s : n.Num)
      : Type 0 where
    before : best ≡ some (j, s) → Found xs i best j s
    within :
        (k : ℕ) (c : RankedCandidate n) → j ≡ i + k → get_elem? xs k ≡ some c → Found xs i best j s

  better-cases :
      (i : ℕ) (s : n.Num) (best : Option (ℕ × n.Num))
      → (better n i s best ≡ some (i, s)) ⊎ (better n i s best ≡ best)
  better-cases i s none = elim (Bool-cases (n.lt n.neg_infinity s)) [
    | inl e ↦ inl (rw e refl)
    | inr e ↦ inr (rw e refl)
  ]
  better-cases i s (some (j, b)) = elim (Bool-cases (n.lt b s)) [
    | inl e ↦ inl (rw e refl)
    | inr e ↦ inr (rw e refl)
  ]

  module _ (eligible : RankedCandidate n → Bool) (score : RankedCandidate n → Option n.Num) where
    considered-cases :
        (c : RankedCandidate n) (i : ℕ) (best b : Option (ℕ × n.Num))
        → considered n eligible score c i best ≡ some b
        → (b ≡ best) ⊎ ((s : n.Num) × (b ≡ some (i, s)))
    considered-cases c i best b h = elim (Bool-cases (eligible c)) [
      | inr e ↦ inl (cc (rw (considered, e) at h))
      | inl e ↦ elim (Option-cases (score c)) [
        | inl f ↦ absurd (cc (rw (considered, e, f) at h))
        | inr (s, f) ↦
            let g : better n i s best ≡ b = cc (rw (considered, e, f) at h) in
            elim (better-cases i s best) [ inl k ↦ inr (s, sym g ∙ k) | inr k ↦ inl (sym g ∙ k) ]
      ]
    ]

    found-next :
        (c : RankedCandidate n) (xs : List (RankedCandidate n)) (i : ℕ)
        (best b : Option (ℕ × n.Num)) (j : ℕ) (s : n.Num)
        → (b ≡ best) ⊎ ((t : n.Num) × (b ≡ some (i, t)))
        → Found xs (i + 1) b j s
        → Found (c ∷ xs) i best j s
    found-next c xs i best b j s h (within k d e g) = within (suc k) d (omega arith) g
    found-next c xs i best b j s (inl e) (before g) = before (sym e ∙ g)
    found-next c xs i best b j s (inr (t, e)) (before g) =
        let q : i ≡ j = cc (sym e ∙ g) in within 0 c (omega arith) refl

    scan-Found :
        (xs : List (RankedCandidate n)) (i : ℕ) (best : Option (ℕ × n.Num)) (j : ℕ) (s : n.Num)
        → scan n eligible score xs i best ≡ some (some (j, s))
        → Found xs i best j s
    unfolding scan
    scan-Found [] i best j s h = before (cc h)
    scan-Found (c ∷ xs) i best j s h = elim (Option-cases (considered n eligible score c i best)) [
      | inl e ↦ absurd (cc (rw (scan, e) at h))
      | inr (b, e) ↦
          found-next c xs i best b j s (considered-cases c i best b e)
            (scan-Found xs (i + 1) b j s (rw (scan, e) at h))
    ]

  index_of :
      (xs : List (RankedCandidate n)) (j : ℕ) (s : n.Num)
      → Found xs 0 none j s
      → (c : RankedCandidate n) × (get_elem? xs j ≡ some c)
  index_of xs j s (before h) = absurd (cc h)
  index_of xs j s (within k c e g) = let q : j ≡ k = omega arith in (c, ap (get_elem? xs) q ∙ g)

  -- An index that a scan of a pool returns is the index of an element.
  pub scan-index :
      (eligible : RankedCandidate n → Bool) (score : RankedCandidate n → Option n.Num)
      (xs : List (RankedCandidate n)) (j : ℕ) (s : n.Num)
      → scan n eligible score xs 0 none ≡ some (some (j, s))
      → (c : RankedCandidate n) × (get_elem? xs j ≡ some c)
  scan-index eligible score xs j s h = index_of xs j s (scan-Found eligible score xs 0 none j s h)

  -- Phase B ends with the output full, or with no candidate that scores above -Infinity.
  pub data Ended (limit : ℕ) (lam : n.Num) (q : Picks n) : Type 0 where
    full : limit ≤ length q.out → Ended limit lam q
    no_score :
        scan n (anyone n) (mmr n lam q.selected) q.pool 0 none ≡ some none → Ended limit lam q

  pub length-moved :
      (s : n.Num) (c : RankedCandidate n) (o : Option (RankedCandidate n))
      (rest : List (RankedCandidate n)) (p : Picks n)
      → o ≡ some c
      → length (moved n s o rest p).out ≡ length p.out + 1
  length-moved s c none rest p h = absurd (cc h)
  length-moved s c (some d) rest p h = length-append p.out (record d { score = s } ∷ [])

  module _ (sv : List (RankedCandidate n)) (limit : ℕ) (short : limit ≤ length sv)
      (lam : n.Num) where
    stopped : (p : Picks n) → goes_on n limit p ≡ false → IsPicked n sv limit p → Ended limit lam p
    stopped p e h = full (ground (arith, h.sizes))

    -- As many rounds as the output has free places are enough.
    pub loop_lem :
        (fuel : ℕ) (p q : Picks n)
        → mmr_loop n fuel limit lam p ≡ some q
        → IsPicked n sv limit p
        → limit ≤ fuel + length p.out
        → IsPicked n sv limit q × Ended limit lam q
    unfolding mmr_loop
    loop_lem zero p q e h l = elim (Bool-cases (goes_on n limit p)) [
      | inr b ↦
          let e' : p ≡ q = cc (rw (mmr_loop, b) at e) in
          subst (λ w. IsPicked n sv limit w × Ended limit lam w) e' (h, stopped p b h)
      | inl b ↦ absurd (cc (rw (mmr_loop, b) at e))
    ]
    loop_lem (suc fuel) p q e h l = elim (Bool-cases (goes_on n limit p)) [
      | inr b ↦
          let e' : p ≡ q = cc (rw (mmr_loop, b) at e) in
          subst (λ w. IsPicked n sv limit w × Ended limit lam w) e' (h, stopped p b h)
      | inl b ↦ elim (Option-cases (scan n (anyone n) (mmr n lam p.selected) p.pool 0 none)) [
        | inl f ↦ absurd (cc (rw (mmr_loop, b, f) at e))
        | inr (best, f) ↦ elim (Option-cases best) [
          | inl g ↦
              let e' : p ≡ q = cc (rw (mmr_loop, b, f, g) at e) in
              subst (λ w. IsPicked n sv limit w × Ended limit lam w) e'
                (h, no_score (f ∙ ap some g))
          | inr ((i, s), g) ↦
              let (c, k) =
                scan-index (anyone n) (mmr n lam p.selected) p.pool i s (f ∙ ap some g) in
              loop_lem fuel (take_at n i s p) q (rw (mmr_loop, b, f, g) at e)
                (moved-IsPicked n sv limit s i (get_elem? p.pool i) p refl (ground arith) h)
                (omega (arith, length-moved s c (get_elem? p.pool i) (splice p.pool i) p k))
        ]
      ]
    ]
