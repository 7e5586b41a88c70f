-- ===== src/Retrieval/Ranker/Kept.antt =====
-- core/retrieval/ranker.ts: what the greedy pick keeps.
use mathlib.Core.List.{Perm, map-append}
use mathlib.Core.List.Perm
use memos_qdrant.Shared.{
  ℕ, zero, suc, ◌+◌, ◌≤◌, ◌<◌, ◌≡◌, refl, sym, ap, subst, ◌∙◌, Option, none, some, List, [], ◌∷◌,
  ◌++◌, map, if◌then◌else◌, leb, length, length-append, Bool-cases, Option-cases, inl, inr, arith,
  append_assoc,
}
use memos_qdrant.Shared.Num.{Arith}
use memos_qdrant.Retrieval.Types.{TierKind, tier1, tier2, tier3, TierCandidate, tier_of}
use memos_qdrant.Retrieval.Relevance.{is_tier, Tiers, bump, RankedCandidate}
use memos_qdrant.Retrieval.Ranker.{
  get_elem?, splice, Picks, scan, moved, in_tier, relevance_of, seeded, seed,
}

-- Taking the element at an index out of a list.
splice-perm {ℓ κ} :
    {A : Type ℓ} {B : Type κ} (f : A → B) (xs : List A) (i : ℕ) (x : A)
    → get_elem? xs i ≡ some x
    → Perm (f x ∷ map f (splice xs i)) (map f xs)
splice-perm f [] i x h = absurd (cc h)
splice-perm f (y ∷ xs) zero x h = let e : y ≡ x = cc h in rw e (Perm.refl (f x ∷ map f xs))
splice-perm f (y ∷ xs) (suc i) x h =
    Perm.trans (Perm.swap (f y) (f x) (map f (splice xs i)))
      (Perm.cons (f y) (splice-perm f xs i x h))

pub length-splice {ℓ} :
    {A : Type ℓ} (xs : List A) (i : ℕ) (x : A)
    → get_elem? xs i ≡ some x
    → length (splice xs i) + 1 ≡ length xs
length-splice [] i x h = absurd (cc h)
length-splice (y ∷ xs) zero x h = omega arith
length-splice (y ∷ xs) (suc i) x h = omega (arith, length-splice xs i x h)

module _ (n : Arith) where
  abbrev pub candidates : List (RankedCandidate n) → List (TierCandidate n)
  candidates = map (λ c. c.candidate)

  abbrev pub how_many : TierKind → List (RankedCandidate n) → ℕ
  how_many tk [] = 0
  how_many tk (c ∷ cs) =
      if is_tier (tier_of n c.candidate.ref) tk then how_many tk cs + 1 else how_many tk cs

  how_many-append :
      (tk : TierKind) (cs ds : List (RankedCandidate n))
      → how_many tk (cs ++ ds) ≡ how_many tk cs + how_many tk ds
  how_many-append tk [] ds = omega arith
  how_many-append tk (c ∷ cs) ds = ground (arith, how_many-append tk cs ds)

  -- `kept` has the number of each tier.
  abbrev pub Counts : Tiers → List (RankedCandidate n) → Type 0
  Counts t cs =
      (t.at_tier1 ≡ how_many tier1 cs)
      × (t.at_tier2 ≡ how_many tier2 cs)
      × (t.at_tier3 ≡ how_many tier3 cs)

  -- What the pick keeps, from a pool of survivors on.
  pub record IsPicked (survivors : List (RankedCandidate n)) (limit : ℕ) (p : Picks n)
      : Type 0 where
    pub parts : Perm (candidates p.out ++ candidates p.pool) (candidates survivors)
    pub counts : Counts p.kept p.out
    pub sizes : length p.out + length p.pool ≡ length survivors
    pub bound : length p.out ≤ limit

  bump_how_many :
      (tk : TierKind) (t : Tiers) (a b c : ℕ)
      → (t.at_tier1 ≡ a) × (t.at_tier2 ≡ b) × (t.at_tier3 ≡ c)
      → ((bump tk t).at_tier1 ≡ a + (if is_tier tk tier1 then 1 else 0))
        × ((bump tk t).at_tier2 ≡ b + (if is_tier tk tier2 then 1 else 0))
        × ((bump tk t).at_tier3 ≡ c + (if is_tier tk tier3 then 1 else 0))
  bump_how_many tier1 t a b c h = omega arith
  bump_how_many tier2 t a b c h = omega arith
  bump_how_many tier3 t a b c h = omega arith

  how_many-snoc :
      (tk : TierKind) (cs : List (RankedCandidate n)) (c : RankedCandidate n)
      → how_many tk (cs ++ (c ∷ []))
        ≡ how_many tk cs + (if is_tier (tier_of n c.candidate.ref) tk then 1 else 0)
  how_many-snoc tk cs c = ground (arith, how_many-append tk cs (c ∷ []))

  bump-Counts :
      (t : Tiers) (cs : List (RankedCandidate n)) (c : RankedCandidate n)
      → Counts t cs
      → Counts (bump (tier_of n c.candidate.ref) t) (cs ++ (c ∷ []))
  bump-Counts t cs c h =
      let b = bump_how_many (tier_of n c.candidate.ref) t _ _ _ h in
      (
        b.0 ∙ sym (how_many-snoc tier1 cs c),
        b.1 ∙ sym (how_many-snoc tier2 cs c),
        b.2 ∙ sym (how_many-snoc tier3 cs c),
      )

  module _ (sv : List (RankedCandidate n)) (limit : ℕ) where
    pub moved-IsPicked :
        (s : n.Num) (i : ℕ) (o : Option (RankedCandidate n)) (p : Picks n)
        → get_elem? p.pool i ≡ o
        → length p.out < limit
        → IsPicked sv limit p
        → IsPicked sv limit (moved n s o (splice p.pool i) p)
    moved-IsPicked s i none p e l h = h
    moved-IsPicked s i (some c) p e l h =
        let c' = record c { score = s } in
        let here = splice-perm (λ (d : RankedCandidate n). d.candidate) p.pool i c e in
        let apart : candidates (p.out ++ (c' ∷ [])) ++ candidates (splice p.pool i)
            ≡ candidates p.out ++ (c.candidate ∷ candidates (splice p.pool i)) =
          ap (λ w. w ++ candidates (splice p.pool i)) (map-append _ p.out (c' ∷ []))
          ∙ append_assoc (candidates p.out) (c.candidate ∷ []) (candidates (splice p.pool i)) in
        record {
          parts =
              subst (λ w. Perm w (candidates sv)) (sym apart)
                (Perm.trans (Perm.append_left (candidates p.out) here) h.parts);
          counts = bump-Counts p.kept p.out c' h.counts;
          sizes = omega (arith, h.sizes, length-append p.out (c' ∷ []), length-splice p.pool i c e);
          bound = omega (arith, length-append p.out (c' ∷ []));
        }

    seeded-IsPicked :
        (cutoff : n.Num) (best : Option (ℕ × n.Num)) (p : Picks n)
        → length p.out < limit
        → IsPicked sv limit p
        → IsPicked sv limit (seeded n cutoff best p)
    seeded-IsPicked cutoff none p l h = h
    seeded-IsPicked cutoff (some (i, rel)) p l h = elim (Bool-cases (n.lt rel cutoff)) [
      | inl e ↦ simp e h
      | inr e ↦ simp e (moved-IsPicked rel i (get_elem? p.pool i) p refl l h)
    ]

    pub seed-IsPicked :
        (cutoff : n.Num) (tk : TierKind) (p q : Picks n)
        → seed n limit cutoff tk p ≡ some q
        → IsPicked sv limit p
        → IsPicked sv limit q
    unfolding seed
    seed-IsPicked cutoff tk p q e h = elim (Bool-cases (leb limit (length p.out))) [
      | inl full ↦ let e' : p ≡ q = cc (rw full at e) in subst (IsPicked sv limit) e' h
      | inr more ↦ elim (Option-cases (scan n (in_tier n tk) (relevance_of n) p.pool 0 none)) [
        | inl f ↦ absurd (cc (rw (more, f) at e))
        | inr (best, f) ↦
            let e' : seeded n cutoff best p ≡ q = cc (rw (more, f) at e) in
            subst (IsPicked sv limit) e' (seeded-IsPicked cutoff best p (ground arith) h)
      ]
    ]
