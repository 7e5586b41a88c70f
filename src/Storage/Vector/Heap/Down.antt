-- ===== src/Storage/Vector/Heap/Down.antt =====
-- core/storage/vector.ts: `siftDown` restores the heap.
use mathlib.Core.List.Perm
use memos_qdrant.Shared.{
  ℕ, zero, suc, ◌+◌, ◌-◌, ◌*◌, ◌/◌, ◌≤◌, ◌<◌, ◌≡◌, ◌≢◌, ◌⊎◌, inl, inr, refl, sym, ◌∙◌, true, false,
  List, arith, ==_iff, ◌==◌, nat_eq, Bool-cases, length, ltb, subst, ltb→lt,
}
use memos_qdrant.Storage.Vector.Heap.Order.{IsHeap, HeapAbove, Exchanged, exchange-lem, place}
use memos_qdrant.Storage.Vector.Heap.{exchange, scores, smaller, smallest_of, sift_down}
use memos_qdrant.Shared.Num.{Arith, OrderLaws}
use memos_qdrant.Shared.Perms.{All-perm}
use memos_qdrant.Storage.Vector.Heap.Keys.{Numbers, rank_of, scores-key}
use memos_qdrant.Storage.Vector.Heap.Up.{keys, IsHeapOf}

-- The choice of the least among an index and its children.
abbrev IsLeast : (ℕ → ℕ) → ℕ → ℕ → ℕ → Type 0
IsLeast f n i s =
    (f s ≤ f i)
    × ((s ≡ i) ⊎ (((s ≡ 2 * i + 1) ⊎ (s ≡ 2 * i + 2)) × (s < n) × (f s < f i)))
    × ((j : ℕ) → 0 < j → j < n → (j - 1) / 2 ≡ i → f s ≤ f j)

down_step :
    (f g : ℕ → ℕ) (n i s : ℕ)
    → s ≢ i
    → i < n
    → IsLeast f n i s
    → HeapAbove f n i
    → Exchanged f g i s
    → HeapAbove g n s
down_step f g n i s ne l least h e = (
  λ j zj lj nj. grind (
    arith,
    least,
    place f g i s j e,
    place f g i s ((j - 1) / 2) e,
    h.0 j zj lj,
    h.1 s,
    least.2 j zj lj,
  ),
  λ j zj lj ej zs.
      grind (arith, least, place f g i s j e, place f g i s ((s - 1) / 2) e, h.0 j zj lj),
)

module _ (n : Arith) (o : OrderLaws n) {A : Type 0} (score : A → n.Num) where
  smaller_lem :
      (h : List A) (c s : ℕ)
      → Numbers n o score h
      → s < length h
      → let t = smaller n score h c s in
        let f = keys n o score h in
        (f t ≤ f s)
        × ((t ≡ s) ⊎ ((t ≡ c) × (c < length h) × (f c < f s)))
        × (c < length h → f t ≤ f c)
  smaller_lem h c s a l = elim (Bool-cases (ltb c (length h))) [
    | inr e ↦ simp e (omega arith, inl refl, λ k. absurd (ground arith))
    | inl e ↦
        let m = ltb→lt c (length h) e in
        let k = (scores-key n o score h c s a m l).1 in
        elim (Bool-cases (scores n score n.lt h c s)) [
          | inl q ↦
              let lt : keys n o score h c < keys n o score h s = ground (arith, sym k ∙ q) in
              simp (e, q) (omega (arith, lt), inr (refl, m, lt), λ d. omega arith)
          | inr q ↦
              let le : keys n o score h s ≤ keys n o score h c = ground (arith, sym k ∙ q) in
              simp (e, q) (omega arith, inl refl, λ d. le)
        ]
  ]

  smallest_lem :
      (h : List A) (i : ℕ)
      → Numbers n o score h
      → i < length h
      → IsLeast (keys n o score h) (length h) i (smallest_of n score h i)
  smallest_lem h i a l =
      let f = keys n o score h in
      let t = smaller n score h (2 * i + 1) i in
      let left = smaller_lem h (2 * i + 1) i a l in
      let below : t < length h = grind (arith, left.1) in
      let right = smaller_lem h (2 * i + 2) t a below in
      (
        omega (arith, left.0, right.0),
        grind (arith, left, right.0, right.1),
        λ j z m e. grind (arith, left.2, left.0, right.0, right.2),
      )

  settles :
      (rounds : ℕ) (h : List A) (i : ℕ)
      → (smallest_of n score h i == i) ≡ true
      → sift_down n score (suc rounds) h i ≡ h
  unfolding sift_down
  settles rounds h i e = rw (e, sift_down) refl

  sinks :
      (rounds : ℕ) (h : List A) (i : ℕ)
      → (smallest_of n score h i == i) ≡ false
      → sift_down n score (suc rounds) h i
        ≡ sift_down n score rounds
            (exchange i (smallest_of n score h i) h)
            (smallest_of n score h i)
  unfolding sift_down
  sinks rounds h i e = rw (e, sift_down) refl

  settled : (f : ℕ → ℕ) (m i : ℕ) → IsLeast f m i i → HeapAbove f m i → IsHeap f m
  settled f m i least h j z l = elim (Bool-cases ((j - 1) / 2 == i)) [
    | inl q ↦ let e = (==_iff ((j - 1) / 2) i).0 q in rw e (least.2 j z l e)
    | inr q ↦ h.0 j z l (λ e. ground (arith, (==_iff ((j - 1) / 2) i).1 e, q))
  ]

  pub sift_down-lem :
      (rounds : ℕ) (h : List A) (i : ℕ)
      → length h ≤ rounds + i
      → i < length h
      → Numbers n o score h
      → HeapAbove (keys n o score h) (length h) i
      → IsHeapOf n o score h (sift_down n score rounds h i)
  sift_down-lem zero h i le l a b = absurd (omega arith)
  sift_down-lem (suc rounds) h i le l a b =
      let s = smallest_of n score h i in
      let least = smallest_lem h i a l in
      elim (Bool-cases (s == i)) [
        | inl e ↦
            let q = (==_iff s i).0 e in
            rw (settles rounds h i e) (
              Perm.refl h,
              settled (keys n o score h) (length h) i
                  (subst (IsLeast (keys n o score h) (length h) i) q least) b,
            )
        | inr e ↦
            let ne : s ≢ i = λ q. ground (arith, (==_iff s i).1 q, e) in
            let m : s < length h = grind (arith, least.1) in
            let x = exchange-lem (rank_of n o score) i s h (λ q. ne (sym q)) l m in
            let h' = exchange i s h in
            let len : length h' ≡ length h = x.1 in
            let b' : HeapAbove (keys n o score h') (length h') s =
              rw len (
                down_step (keys n o score h) (keys n o score h') (length h) i s ne l least b x.0) in
            let a' = All-perm (λ y. n.eq (score y) (score y)) (Perm.symm x.2) a in
            let deeper : i < s = grind (arith, least.1, ne) in
            let ih =
              sift_down-lem rounds h' s (omega (arith, len, deeper)) (omega (arith, len, m)) a'
                b' in
            rw (sinks rounds h i e) (Perm.trans ih.0 x.2, ih.1)
      ]
