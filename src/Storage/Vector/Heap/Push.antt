-- ===== src/Storage/Vector/Heap/Push.antt =====
-- core/storage/vector.ts: `pushBounded` keeps the best that it has seen.
use mathlib.Core.List.{Perm}
use mathlib.Core.List.Perm
use memos_qdrant.Shared.{
  ℕ, zero, suc, ◌+◌, ◌-◌, ◌/◌, ◌≤◌, ◌<◌, ◌≡◌, ◌⊎◌, inl, inr, refl, sym, ap, ◌∙◌, true, List, [],
  ◌∷◌, ◌++◌, arith, nat_eq, Bool-cases, length, All, All-append, All-unappend, length-append,
  append-nil, get_elem?-append, leb, ltb, subst, leb→le, ltb→lt, le→leb,
}
use memos_qdrant.Storage.Vector.Heap.Order.{root_least, IsHeap, HeapAbove, HeapBelow, key_of}
use memos_qdrant.Storage.Vector.Heap.{sift_down, sift_up, push_full, push_bounded}
use memos_qdrant.Shared.Num.{Arith, OrderLaws}
use memos_qdrant.Shared.Perms.{All-perm}
use memos_qdrant.Shared.Perms.{perm_of_eq, length-perm}
use memos_qdrant.Storage.Vector.Heap.Keys.{Numbers, rank_of}
use memos_qdrant.Storage.Vector.Heap.Up.{keys, sift_up-lem}
use memos_qdrant.Storage.Vector.Heap.Down.{sift_down-lem}
use mathlib.Core.List.{perm_middle}

module _ (n : Arith) (o : OrderLaws n) {A : Type 0} (score : A → n.Num) where
  abbrev pub AtLeast : ℕ → List A → Type 0
  AtLeast c = All (λ y. leb c (rank_of n o score y) ≡ true)

  abbrev pub AtMost : ℕ → List A → Type 0
  AtMost c = All (λ y. leb (rank_of n o score y) c ≡ true)

  -- The heap holds the `k` best of what was seen, and `rest` the others.
  pub record IsKept (k : ℕ) (seen h rest : List A) : Type 0 where
    pub parts : Perm (h ++ rest) seen
    pub heap : IsHeap (keys n o score h) (length h)
    pub full : (rest ≡ []) ⊎ (length h ≡ k)
    pub bound : length h ≤ k
    pub below : AtMost (keys n o score h 0) rest

  pub least→All :
      (c : ℕ) (h : List A) → ((j : ℕ) → j < length h → c ≤ keys n o score h j) → AtLeast c h
  least→All c [] f = tt
  least→All c (y ∷ ys) f = (
    le→leb c (rank_of n o score y) (f 0 (omega arith)),
    least→All c ys (λ j l. f (suc j) (omega arith)),
  )

  pub All→least : (c : ℕ) (h : List A) → AtLeast c h → 0 < length h → c ≤ keys n o score h 0
  All→least c [] a l = absurd (omega arith)
  All→least c (y ∷ ys) a l = leb→le c (rank_of n o score y) a.0

  pub AtMost_mono : (c d : ℕ) (xs : List A) → c ≤ d → AtMost c xs → AtMost d xs
  AtMost_mono c d [] l a = tt
  AtMost_mono c d (x ∷ xs) l a = (ground (arith, a.0), AtMost_mono c d xs l a.1)

  appended-HeapBelow :
      (h : List A) (x : A)
      → IsHeap (keys n o score h) (length h)
      → HeapBelow (keys n o score (h ++ (x ∷ []))) (length (h ++ (x ∷ []))) (length h)
  appended-HeapBelow h x heap =
      let len = length-append h (x ∷ []) in
      (
        λ j z l ne.
            let m : j < length h = ground (arith, len) in
            let same : (i : ℕ)
                → i < length h
                → keys n o score (h ++ (x ∷ [])) i ≡ keys n o score h i =
              λ i q. ap (key_of (rank_of n o score)) (get_elem?-append h (x ∷ []) i q) in
            omega (arith, heap j z m, same j m, same ((j - 1) / 2) (omega arith)),
        λ j z l e p. absurd (omega (arith, len)),
      )

  replaced-HeapAbove :
      (x top : A) (t : List A)
      → IsHeap (keys n o score (top ∷ t)) (length (top ∷ t))
      → HeapAbove (keys n o score (x ∷ t)) (length (x ∷ t)) 0
  replaced-HeapAbove x top t heap = (
    λ j z l ne.
        let same : (i : ℕ) → 0 < i → keys n o score (x ∷ t) i ≡ keys n o score (top ∷ t) i =
          later x top t in
        omega (arith, heap j z l, same j z, same ((j - 1) / 2) (ground arith)),
    λ j z l e p. absurd (omega arith),
  )
    where
      later :
          (x top : A) (t : List A) (i : ℕ)
          → 0 < i
          → keys n o score (x ∷ t) i ≡ keys n o score (top ∷ t) i
      later x top t zero p = absurd (omega arith)
      later x top t (suc i) p = refl

  seen-length :
      (k : ℕ) (seen h rest : List A) → IsKept k seen h rest → length h + length rest ≡ length seen
  seen-length k seen h rest kept = sym (length-append h rest) ∙ length-perm kept.parts

  heap-Numbers :
      (k : ℕ) (seen h rest : List A)
      → IsKept k seen h rest
      → Numbers n o score seen
      → Numbers n o score h
  heap-Numbers k seen h rest kept a =
      (All-unappend (λ y. n.eq (score y) (score y) ≡ true) h rest
        (All-perm (λ y. n.eq (score y) (score y)) (Perm.symm kept.parts) a)).0

  room :
      (k : ℕ) (seen h : List A) (x : A)
      → length h < k
      → IsKept k seen h []
      → Numbers n o score (x ∷ seen)
      → IsKept k (x ∷ seen) (sift_up n score (length h) (h ++ (x ∷ [])) (length h)) []
  room k seen h x lt kept a =
      let g = h ++ (x ∷ []) in
      let len : length g ≡ length h + 1 = length-append h (x ∷ []) in
      let hs = heap-Numbers k seen h [] kept a.1 in
      let ns : Numbers n o score g =
        All-append (λ y. n.eq (score y) (score y) ≡ true) h (x ∷ []) hs (a.0, tt) in
      let up =
        sift_up-lem n o score (length h) g (length h) (omega arith) (omega (arith, len)) ns
          (appended-HeapBelow h x kept.heap) in
      let moved : Perm g (x ∷ seen) = Perm.trans (perm_middle h []) (Perm.cons x kept.parts) in
      record {
        parts = Perm.trans (perm_of_eq (append-nil _)) (Perm.trans up.0 moved);
        heap = up.1;
        full = inl refl;
        bound = omega (arith, length-perm up.0, len);
        below = tt;
      }

  refused :
      (k : ℕ) (seen t rest : List A) (x top : A)
      → length (top ∷ t) ≡ k
      → IsKept k seen (top ∷ t) rest
      → rank_of n o score x ≤ rank_of n o score top
      → IsKept k (x ∷ seen) (top ∷ t) (x ∷ rest)
  refused k seen t rest x top e kept le = record {
    parts = Perm.trans (perm_middle (top ∷ t) rest) (Perm.cons x kept.parts);
    heap = kept.heap;
    full = inr e;
    bound = kept.bound;
    below = (le→leb (rank_of n o score x) (rank_of n o score top) le, kept.below);
  }

  replaced :
      (k : ℕ) (seen t rest : List A) (x top : A)
      → length (top ∷ t) ≡ k
      → IsKept k seen (top ∷ t) rest
      → Numbers n o score (x ∷ seen)
      → rank_of n o score top < rank_of n o score x
      → IsKept k (x ∷ seen) (sift_down n score (length (top ∷ t)) (x ∷ t) 0) (top ∷ rest)
  replaced k seen t rest x top e kept a lt =
      let c = rank_of n o score top in
      let hs = heap-Numbers k seen (top ∷ t) rest kept a.1 in
      let down =
        sift_down-lem n o score (length (top ∷ t)) (x ∷ t) 0 (omega arith) (omega arith) (a.0, hs.1)
          (replaced-HeapAbove x top t kept.heap) in
      let g = sift_down n score (length (top ∷ t)) (x ∷ t) 0 in
      let old : AtLeast c (top ∷ t) =
        least→All c (top ∷ t)
          (root_least (keys n o score (top ∷ t)) (length (top ∷ t)) kept.heap) in
      let new : AtLeast c (x ∷ t) = (ground arith, old.1) in
      let least : c ≤ keys n o score g 0 =
        All→least c g (All-perm (λ y. leb c (rank_of n o score y)) (Perm.symm down.0) new)
          (omega (arith, length-perm down.0)) in
      record {
        parts =
            Perm.trans (Perm.append_right (top ∷ rest) down.0)
              (Perm.cons x (Perm.trans (perm_middle t rest) kept.parts));
        heap = down.1;
        full = inr (length-perm down.0 ∙ e);
        bound = omega (arith, length-perm down.0, kept.bound);
        below = (
          le→leb c (keys n o score g 0) least,
          AtMost_mono c (keys n o score g 0) rest least kept.below,
        );
      }

  full_lem :
      (k : ℕ) (seen h rest : List A) (x : A)
      → 0 < k
      → length h ≡ k
      → IsKept k seen h rest
      → Numbers n o score (x ∷ seen)
      → (rest' : List A) × IsKept k (x ∷ seen) (push_full n score x h) rest'
  full_lem k seen [] rest x z e kept a = absurd (omega arith)
  full_lem k seen (top ∷ t) rest x z e kept a =
      let hs = heap-Numbers k seen (top ∷ t) rest kept a.1 in
      let l = o.le_key (score x) (score top) a.0 hs.0 in
      elim (Bool-cases (n.le (score x) (score top))) [
        | inl q ↦ rw q (
          x ∷ rest,
          refused k seen t rest x top e kept
              (leb→le (rank_of n o score x) (rank_of n o score top) (sym l ∙ q)),
        )
        | inr q ↦
            rw q (top ∷ rest, replaced k seen t rest x top e kept a (ground (arith, sym l ∙ q)))
      ]

  pub push_bounded-lem :
      (k : ℕ) (seen h rest : List A) (x : A)
      → 0 < k
      → IsKept k seen h rest
      → Numbers n o score (x ∷ seen)
      → (rest' : List A) × IsKept k (x ∷ seen) (push_bounded n score h x k) rest'
  unfolding push_bounded
  push_bounded-lem k seen h rest x z kept a = elim (Bool-cases (ltb (length h) k)) [
    | inl e ↦
        let lt = ltb→lt (length h) k e in
        let none_left : rest ≡ [] = elim kept.full [ inl r ↦ r | inr q ↦ absurd (omega arith) ] in
        rw e ([], room k seen h x lt (subst (IsKept k seen h) none_left kept) a)
    | inr e ↦ rw e (full_lem k seen h rest x z (ground (arith, kept.bound)) kept a)
  ]
