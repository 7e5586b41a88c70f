-- ===== src/Memory/CandidatePool/Order.antt =====
-- core/memory/l2/candidate-pool.ts: the order of the buckets that are ready.
use mathlib.Core.List.{Perm}
use mathlib.Core.List.Perm
use memos_qdrant.Shared.{
  ℕ, ◌≤◌, String, ◌≡◌, Bool, true, false, List, [], ◌∷◌, length, Bool-cases, inl, inr, arith, All,
}
use memos_qdrant.Memory.CandidatePool.{CandidateBucket, precedes, insert_sorted, sort_buckets}

abbrev pub evidence : CandidateBucket → ℕ
evidence b = length b.evidence_trace_ids

module _ (later : String → String → Bool) where
  -- More evidence comes before less; with equal evidence, no signature stands before one that it
  -- is later than.
  abbrev pub IsBefore : CandidateBucket → CandidateBucket → Type 0
  IsBefore a b =
      (evidence b ≤ evidence a) × (evidence a ≡ evidence b → later a.signature b.signature ≡ false)

  abbrev pub Ordered : List CandidateBucket → Type 0
  Ordered [] = Unit
  Ordered (b ∷ bs) = All (IsBefore b) bs × Ordered bs

  insert-perm :
      (b : CandidateBucket) (bs : List CandidateBucket) → Perm (insert_sorted later b bs) (b ∷ bs)
  insert-perm b [] = Perm.refl _
  insert-perm b (c ∷ cs) = elim (Bool-cases (precedes later b c)) [
    | inl e ↦ rw e (Perm.refl _)
    | inr e ↦ rw e (Perm.trans (Perm.cons c (insert-perm b cs)) (Perm.swap b c cs))
  ]

  pub sort-perm : (bs : List CandidateBucket) → Perm (sort_buckets later bs) bs
  sort-perm [] = Perm.refl _
  sort-perm (b ∷ bs) =
      Perm.trans (insert-perm b (sort_buckets later bs)) (Perm.cons b (sort-perm bs))

  pub insert-All {κ} :
      (P : CandidateBucket → Type κ) (b : CandidateBucket) (bs : List CandidateBucket)
      → P b
      → All P bs
      → All P (insert_sorted later b bs)
  insert-All P b [] p h = (p, tt)
  insert-All P b (c ∷ cs) p h = elim (Bool-cases (precedes later b c)) [
    | inl e ↦ simp e (p, h)
    | inr e ↦ simp e (h.0, insert-All P b cs p h.1)
  ]

  pub sort-All {κ} :
      (P : CandidateBucket → Type κ) (bs : List CandidateBucket)
      → All P bs
      → All P (sort_buckets later bs)
  sort-All P [] h = tt
  sort-All P (b ∷ bs) h = insert-All P b (sort_buckets later bs) h.0 (sort-All P bs h.1)

  -- What `localeCompare` promises of "not later than": of two strings one is not later, and the
  -- relation is transitive.
  pub record IsOrder : Type 0 where
    pub one_way : (a b : String) → later a b ≡ true → later b a ≡ false
    pub chains : (a b c : String) → later a b ≡ false → later b c ≡ false → later a c ≡ false

  precedes-IsBefore : (a b : CandidateBucket) → precedes later a b ≡ true → IsBefore a b
  precedes-IsBefore a b h = (ground (arith, h), λ e. ground (arith, h, e))

  follows-IsBefore : IsOrder → (a b : CandidateBucket) → precedes later a b ≡ false → IsBefore b a
  follows-IsBefore o a b h =
      (ground (arith, h), λ e. o.one_way a.signature b.signature (ground (arith, h, e)))

  IsBefore-trans : IsOrder → (a b c : CandidateBucket) → IsBefore a b → IsBefore b c → IsBefore a c
  IsBefore-trans o a b c h k = (
    omega (arith, h.0, k.0),
    λ e.
        o.chains a.signature b.signature c.signature (h.1 (omega (arith, e, h.0, k.0)))
          (k.1 (omega (arith, e, h.0, k.0))),
  )

  IsBefore-all :
      IsOrder
      → (a b : CandidateBucket) (cs : List CandidateBucket) → IsBefore a b
      → All (IsBefore b) cs
      → All (IsBefore a) cs
  IsBefore-all o a b [] h k = tt
  IsBefore-all o a b (c ∷ cs) h k = (IsBefore-trans o a b c h k.0, IsBefore-all o a b cs h k.1)

  insert-Ordered :
      IsOrder
      → (b : CandidateBucket) (bs : List CandidateBucket) → Ordered bs
      → Ordered (insert_sorted later b bs)
  insert-Ordered o b [] d = (tt, tt)
  insert-Ordered o b (c ∷ cs) d = elim (Bool-cases (precedes later b c)) [
    | inl e ↦ let l = precedes-IsBefore b c e in simp e ((l, IsBefore-all o b c cs l d.0), d)
    | inr e ↦
        simp e
          (insert-All (IsBefore c) b cs (follows-IsBefore o b c e) d.0, insert-Ordered o b cs d.1)
  ]

  pub sort-Ordered : IsOrder → (bs : List CandidateBucket) → Ordered (sort_buckets later bs)
  sort-Ordered o [] = tt
  sort-Ordered o (b ∷ bs) = insert-Ordered o b (sort_buckets later bs) (sort-Ordered o bs)
