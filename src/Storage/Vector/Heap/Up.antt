-- ===== src/Storage/Vector/Heap/Up.antt =====
-- core/storage/vector.ts: `siftUp` restores the heap.
use mathlib.Core.List.{Perm}
use mathlib.Core.List.Perm
use memos_qdrant.Shared.{
  ℕ, zero, suc, ◌-◌, ◌/◌, ◌≤◌, ◌<◌, ◌≡◌, inl, inr, refl, sym, ◌∙◌, true, false, List, arith, ==_iff,
  ◌==◌, nat_eq, Bool-cases, length, leb→le,
}
use memos_qdrant.Storage.Vector.Heap.Order.{
  IsHeap, HeapBelow, Exchanged, key_at, exchange-lem, place,
}
use memos_qdrant.Storage.Vector.Heap.{exchange, scores, sift_up}
use memos_qdrant.Shared.Num.{Arith, OrderLaws}
use memos_qdrant.Shared.Perms.{All-perm}
use memos_qdrant.Storage.Vector.Heap.Keys.{Numbers, rank_of, scores-key}

up_step :
    (f g : ℕ → ℕ) (n i p : ℕ)
    → p ≡ (i - 1) / 2
    → 0 < i
    → i < n
    → f i < f p
    → HeapBelow f n i
    → Exchanged f g p i
    → HeapBelow g n p
up_step f g n i p ep z l lt h e = (
  λ j zj lj nj.
      grind (arith, place f g p i j e, place f g p i ((j - 1) / 2) e, h.0 j zj lj, h.1 j zj lj),
  λ j zj lj ej zp.
      grind (arith, place f g p i j e, place f g p i ((p - 1) / 2) e, h.0 j zj lj, h.0 p zp),
)

module _ (n : Arith) (o : OrderLaws n) {A : Type 0} (score : A → n.Num) where
  abbrev pub keys : List A → ℕ → ℕ
  keys h = key_at (rank_of n o score) h

  -- A rearrangement of `h` that is a heap.
  abbrev pub IsHeapOf : List A → List A → Type 0
  IsHeapOf h h' = Perm h' h × IsHeap (keys h') (length h')

  stays :
      (rounds : ℕ) (h : List A) (j : ℕ)
      → scores n score n.le h (j / 2) (suc j) ≡ true
      → sift_up n score (suc rounds) h (suc j) ≡ h
  unfolding sift_up
  stays rounds h j e = rw (e, sift_up) refl

  rises :
      (rounds : ℕ) (h : List A) (j : ℕ)
      → scores n score n.le h (j / 2) (suc j) ≡ false
      → sift_up n score (suc rounds) h (suc j)
        ≡ sift_up n score rounds (exchange (j / 2) (suc j) h) (j / 2)
  unfolding sift_up
  rises rounds h j e = rw (e, sift_up) refl

  at_root : (h : List A) → HeapBelow (keys h) (length h) 0 → IsHeapOf h h
  at_root h b = (Perm.refl h, λ j z l. b.0 j z l (λ e. ground arith))

  closed :
      (h : List A) (j : ℕ)
      → keys h (j / 2) ≤ keys h (suc j)
      → HeapBelow (keys h) (length h) (suc j)
      → IsHeapOf h h
  closed h j e b = (
    Perm.refl h,
    λ m z l. elim (Bool-cases (m == suc j)) [
      | inl q ↦
          let r = (==_iff m (suc j)).0 q in let p : (m - 1) / 2 ≡ j / 2 = omega arith in rw (p, r) e
      | inr q ↦ b.0 m z l (λ r. ground (arith, (==_iff m (suc j)).1 r, q))
    ],
  )

  pub sift_up-lem :
      (rounds : ℕ) (h : List A) (i : ℕ)
      → i ≤ rounds
      → i < length h
      → Numbers n o score h
      → HeapBelow (keys h) (length h) i
      → IsHeapOf h (sift_up n score rounds h i)
  unfolding sift_up
  sift_up-lem zero h zero le l a b = at_root h b
  sift_up-lem zero h (suc j) le l a b = absurd (omega arith)
  sift_up-lem (suc rounds) h zero le l a b = at_root h b
  sift_up-lem (suc rounds) h (suc j) le l a b =
      let p = j / 2 in
      let ks = (scores-key n o score h p (suc j) a (omega arith) l).0 in
      elim (Bool-cases (scores n score n.le h p (suc j))) [
        | inl e ↦
            rw (stays rounds h j e) (closed h j (leb→le (keys h p) (keys h (suc j)) (sym ks ∙ e)) b)
        | inr e ↦
            let x =
              exchange-lem (rank_of n o score) p (suc j) h (λ q. ground arith) (omega arith) l in
            let h' = exchange p (suc j) h in
            let lt : keys h (suc j) < keys h p = ground (arith, sym ks ∙ e) in
            let len : length h' ≡ length h = x.1 in
            let b' : HeapBelow (keys h') (length h') p = rw len (
              up_step (keys h) (keys h') (length h) (suc j) p (omega arith) (omega arith) l lt b
                x.0) in
            let a' = All-perm (λ y. n.eq (score y) (score y)) (Perm.symm x.2) a in
            let ih = sift_up-lem rounds h' p (omega arith) (omega (arith, len)) a' b' in
            rw (rises rounds h j e) (Perm.trans ih.0 x.2, ih.1)
      ]
