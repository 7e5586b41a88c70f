-- ===== src/Storage/Vector/TopK/Best.antt =====
-- core/storage/vector.ts: `topKCosine` gives the best of all scores.
use mathlib.Core.List.{perm_middle}
use mathlib.Core.List.Perm
use memos_qdrant.Shared.{
  ℕ, ◌<◌, ◌≡◌, refl, sym, ap, ◌∙◌, subst, inl, inr, true, false, Option, some, List, [], ◌∷◌, ◌++◌,
  ◌||◌, ◌==◌, nat_eq, length, map, if◌then◌else◌, arith, All, All-append, All-unappend, Bool-cases,
  leb, length-append, append-nil, leb→le,
}
use memos_qdrant.Shared.Num.{Arith, OrderLaws}
use memos_qdrant.Shared.Perms.{All-perm, length-perm}
use memos_qdrant.Storage.Vector.{norm2, is_zero}
use memos_qdrant.Storage.Vector.Heap.{push_bounded}
use memos_qdrant.Storage.Vector.Heap.Order.{IsHeap, root_least}
use memos_qdrant.Storage.Vector.Heap.Keys.{Numbers}
use memos_qdrant.Storage.Vector.Heap.Up.{keys}
use memos_qdrant.Storage.Vector.Heap.Push.{
  AtLeast, AtMost, IsKept, push_bounded-lem, least→All, AtMost_mono,
}
use memos_qdrant.Storage.Vector.TopK.{
  VectorRow, VectorHit, is_skipped, with_norm2, hit_of, visit, visit_all, and_then, sort_hits,
  finished, top_k_cosine,
}
use memos_qdrant.Storage.Vector.TopK.Sorted.{
  by_score, rank, cosine_with, candidates, IsTop, scored_row, sort-perm, sort-Descending,
}

empty_IsHeap : (f : ℕ → ℕ) → IsHeap f 0
empty_IsHeap f j z l = absurd (omega arith)

module _ (n : Arith) (o : OrderLaws n) {Meta : Type 0} where
  candidates-skipped :
      (query : List n.Num) (row : VectorRow n Meta) (rows : List (VectorRow n Meta))
      → is_skipped n query row ≡ true
      → candidates n o query (row ∷ rows) ≡ candidates n o query rows
  candidates-skipped query row rows s = rw s refl

  candidates-scored :
      (query : List n.Num) (row : VectorRow n Meta) (rows : List (VectorRow n Meta))
      → is_skipped n query row ≡ false
      → candidates n o query (row ∷ rows)
        ≡ hit_of n row (cosine_with n o query row) ∷ candidates n o query rows
  candidates-scored query row rows s = rw s refl

  visit-skipped :
      (query : List n.Num) (k : ℕ) (row : VectorRow n Meta) (heap : List (VectorHit n Meta))
      → is_skipped n query row ≡ true
      → visit n query (n.sqrt (norm2 n query)) k row heap ≡ some heap
  unfolding visit
  visit-skipped query k row heap s = simp s refl

  visit-scored :
      (query : List n.Num) (k : ℕ) (row : VectorRow n Meta) (heap : List (VectorHit n Meta))
      → is_skipped n query row ≡ false
      → visit n query (n.sqrt (norm2 n query)) k row heap
        ≡ some (push_bounded n (by_score n o) heap (hit_of n row (cosine_with n o query row)) k)
  unfolding visit
  visit-scored query k row heap s = simp (s, scored_row n o query row s) refl

  visit_all-skipped :
      (query : List n.Num) (k : ℕ) (row : VectorRow n Meta) (rows : List (VectorRow n Meta))
      (heap : List (VectorHit n Meta))
      → is_skipped n query row ≡ true
      → visit_all n query (n.sqrt (norm2 n query)) k (row ∷ rows) heap
        ≡ visit_all n query (n.sqrt (norm2 n query)) k rows heap
  unfolding visit_all
  visit_all-skipped query k row rows heap s =
      ap (λ l. and_then l (λ h. visit_all n query (n.sqrt (norm2 n query)) k rows h))
        (visit-skipped query k row heap s)

  visit_all-scored :
      (query : List n.Num) (k : ℕ) (row : VectorRow n Meta) (rows : List (VectorRow n Meta))
      (heap : List (VectorHit n Meta))
      → is_skipped n query row ≡ false
      → visit_all n query (n.sqrt (norm2 n query)) k (row ∷ rows) heap
        ≡ visit_all n query
            (n.sqrt (norm2 n query))
            k
            rows
            (push_bounded n (by_score n o) heap (hit_of n row (cosine_with n o query row)) k)
  unfolding visit_all
  visit_all-scored query k row rows heap s =
      ap (λ l. and_then l (λ h. visit_all n query (n.sqrt (norm2 n query)) k rows h))
        (visit-scored query k row heap s)

  -- A loop that ended with a heap of the best of `all`.
  abbrev Ends : ℕ → Option (List (VectorHit n Meta)) → List (VectorHit n Meta) → Type 0
  Ends k loop all =
      (h : List (VectorHit n Meta)) × (r : List (VectorHit n Meta)) × (loop ≡ some h)
      × IsKept n o (by_score n o) k all h r

  reordered :
      (k : ℕ) (x : VectorHit n Meta) (xs ys : List (VectorHit n Meta))
      (loop : Option (List (VectorHit n Meta)))
      → Ends k loop (xs ++ (x ∷ ys))
      → Ends k loop (x ∷ xs ++ ys)
  reordered k x xs ys loop e =
      let kept = e.3 in
      (
        e.0,
        e.1,
        e.2,
        record {
          parts = Perm.trans kept.parts (perm_middle xs ys);
          heap = kept.heap;
          full = kept.full;
          bound = kept.bound;
          below = kept.below;
        },
      )

  all-IsKept :
      (query : List n.Num) (k : ℕ) (rows : List (VectorRow n Meta))
      (seen heap rest : List (VectorHit n Meta))
      → 0 < k
      → IsKept n o (by_score n o) k seen heap rest
      → Numbers n o (by_score n o) (candidates n o query rows ++ seen)
      → Ends k
          (visit_all n query (n.sqrt (norm2 n query)) k rows heap)
          (candidates n o query rows ++ seen)
  unfolding visit_all
  all-IsKept query k [] seen heap rest z kept ns = (heap, rest, refl, kept)
  all-IsKept query k (row ∷ rows) seen heap rest z kept ns =
      elim (Bool-cases (is_skipped n query row)) [
        | inl s ↦
            let c = candidates-skipped query row rows s in
            let ns' = subst (λ cs. Numbers n o (by_score n o) (cs ++ seen)) c ns in
            let ih = all-IsKept query k rows seen heap rest z kept ns' in
            subst
              (λ cs.
                Ends k (visit_all n query (n.sqrt (norm2 n query)) k (row ∷ rows) heap)
                  (cs ++ seen))
              (sym c)
              (subst (λ l. Ends k l (candidates n o query rows ++ seen))
                (sym (visit_all-skipped query k row rows heap s)) ih)
        | inr s ↦
            let c = candidates-scored query row rows s in
            let cs = candidates n o query rows in
            let x = hit_of n row (cosine_with n o query row) in
            let ns' = subst (λ cs. Numbers n o (by_score n o) (cs ++ seen)) c ns in
            let parts =
              All-unappend (λ y. n.eq (by_score n o y) (by_score n o y) ≡ true) cs seen ns'.1 in
            let next =
              push_bounded-lem n o (by_score n o) k seen heap rest x z kept (ns'.0, parts.1) in
            let ih =
              all-IsKept query k rows (x ∷ seen) (push_bounded n (by_score n o) heap x k) next.0 z
                next.1
                (All-append (λ y. n.eq (by_score n o y) (by_score n o y) ≡ true) cs (x ∷ seen)
                  parts.0 (ns'.0, parts.1)) in
            subst
              (λ cs.
                Ends k (visit_all n query (n.sqrt (norm2 n query)) k (row ∷ rows) heap)
                  (cs ++ seen))
              (sym c)
              (subst (λ l. Ends k l (x ∷ cs ++ seen))
                (sym (visit_all-scored query k row rows heap s)) (reordered k x cs seen _ ih))
      ]

  IsTop-of_kept :
      (k : ℕ) (all h r : List (VectorHit n Meta))
      → IsKept n o (by_score n o) k all h r
      → Numbers n o (by_score n o) all
      → IsTop n o k all (sort_hits n h)
  IsTop-of_kept k all h r kept ns =
      let least = keys n o (by_score n o) h 0 in
      let perm = sort-perm n o h in
      let len = length-perm kept.parts in
      let low : AtLeast n o (by_score n o) least h =
        least→All n o (by_score n o) least h
          (root_least (keys n o (by_score n o) h) (length h) kept.heap) in
      let hs =
        (All-unappend (λ y. n.eq (by_score n o y) (by_score n o y) ≡ true) h r
          (All-perm (λ y. n.eq (by_score n o y) (by_score n o y)) (Perm.symm kept.parts) ns)).0 in
      record {
        rest = r;
        parts = Perm.trans (Perm.append_right r perm) kept.parts;
        size = length-perm perm ∙ (elim kept.full [
          | inl e ↦ omega (arith, len, ap length e, length-append h r, kept.bound)
          | inr e ↦ omega (arith, len, e, length-append h r)
        ]);
        sorted = sort-Descending n o h hs;
        best =
            above_rest least r (sort_hits n h) kept.below
              (All-perm (λ y. leb least (rank n o y)) (Perm.symm perm) low);
      }
    where
      above_rest :
          (c : ℕ) (r out : List (VectorHit n Meta))
          → AtMost n o (by_score n o) c r
          → AtLeast n o (by_score n o) c out
          → All (λ x. AtMost n o (by_score n o) (rank n o x) r) out
      above_rest c r [] below low = tt
      above_rest c r (x ∷ out) below low = (
        AtMost_mono n o (by_score n o) c (rank n o x) r (leb→le c (rank n o x) low.0) below,
        above_rest c r out below low.1,
      )

  searched :
      (query : List n.Num) (row : VectorRow n Meta) (rows : List (VectorRow n Meta)) (k : ℕ)
      (h : List (VectorHit n Meta))
      → 0 < k
      → is_zero n (n.sqrt (norm2 n query)) ≡ false
      → visit_all n query (n.sqrt (norm2 n query)) k (row ∷ rows) [] ≡ some h
      → top_k_cosine n query (row ∷ rows) k
        ≡ some (sort_hits n h, map (with_norm2 n query) (row ∷ rows))
  unfolding top_k_cosine finished
  searched query row rows k h z q e =
      let nk : (k == 0) ≡ false = ground arith in
      let loop =
        finished n query (row ∷ rows)
          (visit_all n query (n.sqrt (norm2 n query)) k (row ∷ rows) []) in
      ap (λ b. if b || is_zero n (n.sqrt (norm2 n query)) then some ([], row ∷ rows) else loop) nk
      ∙ (ap (λ b. if b then some ([], row ∷ rows) else loop) q
          ∙ ap (finished n query (row ∷ rows)) e)

  -- A search for a positive number of rows, with a query that is not zero and scores that are
  -- numbers, returns. Its hits are the best: they and the others are the candidates, there are
  -- `k` of them, or all if there are fewer, they stand from the highest score to the lowest, and
  -- no other candidate has a higher score than a hit. The rows are left with their norms.
  pub top_k_lem :
      (query : List n.Num) (rows : List (VectorRow n Meta)) (k : ℕ)
      → 0 < k
      → is_zero n (n.sqrt (norm2 n query)) ≡ false
      → Numbers n o (by_score n o) (candidates n o query rows)
      → (out : List (VectorHit n Meta)) × (top_k_cosine n query rows k
          ≡ some (out, map (with_norm2 n query) rows))
        × IsTop n o k (candidates n o query rows) out
  unfolding top_k_cosine finished sort_hits
  top_k_lem query [] k z q ns = (
    [],
    refl,
    record { rest = []; parts = Perm.refl _; size = omega arith; sorted = tt; best = tt },
  )
  top_k_lem query (row ∷ rows) k z q ns =
      let all = candidates n o query (row ∷ rows) in
      let none_yet : IsKept n o (by_score n o) k [] [] [] = record {
        parts = Perm.refl _;
        heap = empty_IsHeap (keys n o (by_score n o {Meta = Meta}) []);
        full = inl refl;
        bound = omega arith;
        below = tt;
      } in
      let nil = append-nil all in
      let ends =
        all-IsKept query k (row ∷ rows) [] [] [] z none_yet
          (subst (Numbers n o (by_score n o)) (sym nil) ns) in
      let kept = subst (λ all. IsKept n o (by_score n o) k all ends.0 ends.1) nil ends.3 in
      (
        sort_hits n ends.0,
        searched query row rows k ends.0 z q ends.2,
        IsTop-of_kept k all ends.0 ends.1 kept ns,
      )
