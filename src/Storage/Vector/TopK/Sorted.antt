-- ===== src/Storage/Vector/TopK/Sorted.antt =====
-- core/storage/vector.ts: `topKCosine`: the scores of the rows, and the sort at its end.
use mathlib.Core.List.{Perm}
use mathlib.Core.List.Perm
use memos_qdrant.Shared.{
  ℕ, ◌≤◌, min, ◌≡◌, refl, sym, ◌∙◌, inl, inr, true, false, some, List, [], ◌∷◌, ◌++◌, ◌||◌, ◌==◌,
  nat_eq, length, if◌then◌else◌, arith, All, Bool-cases, ==_iff, leb, ltb, le→leb,
}
use memos_qdrant.Shared.Num.{Arith, OrderLaws, zero_num}
use memos_qdrant.Shared.Perms.{All-perm}
use memos_qdrant.Storage.Vector.{norm2, is_zero, cosine_prenormed, dot, dot_from}
use memos_qdrant.Storage.Vector.Heap.Keys.{Numbers, rank_of}
use memos_qdrant.Storage.Vector.Heap.Push.{AtMost, AtMost_mono}
use memos_qdrant.Storage.Vector.TopK.{
  VectorRow, VectorHit, norm2_of, is_skipped, hit_of, sorts_after, insert_hit, sort_hits,
}

module _ (n : Arith) (o : OrderLaws n) {Meta : Type 0} where
  abbrev pub by_score : VectorHit n Meta → n.Num
  by_score h = h.score

  abbrev pub rank : VectorHit n Meta → ℕ
  rank = rank_of n o by_score

  -- The cosine of a row with the query, written out.
  abbrev pub cosine_with : List n.Num → VectorRow n Meta → n.Num
  cosine_with query row =
      let q = n.sqrt (norm2 n query) in
      let r = norm2_of n row in
      if is_zero n q || is_zero n r
      then zero_num n
      else n.div (dot_from n (zero_num n) query row.vec) (n.mul q (n.sqrt r))

  -- Every row that is not skipped, with its score, in the order of the rows.
  abbrev pub candidates : List n.Num → List (VectorRow n Meta) → List (VectorHit n Meta)
  candidates query [] = []
  candidates query (row ∷ rows) =
      let rest = candidates query rows in
      if is_skipped n query row then rest else hit_of n row (cosine_with query row) ∷ rest

  abbrev pub Descending : List (VectorHit n Meta) → Type 0
  Descending [] = Unit
  Descending (x ∷ xs) = AtMost n o by_score (rank x) xs × Descending xs

  -- What a search for the best `k` of `all` is to return.
  pub record IsTop (k : ℕ) (all out : List (VectorHit n Meta)) : Type 0 where
    pub rest : List (VectorHit n Meta)
    pub parts : Perm (out ++ rest) all
    pub size : length out ≡ min k (length all)
    pub sorted : Descending out
    pub best : All (λ x. AtMost n o by_score (rank x) rest) out

  pub scored_row :
      (query : List n.Num) (row : VectorRow n Meta)
      → is_skipped n query row ≡ false
      → cosine_prenormed n query (n.sqrt (norm2 n query)) row.vec (norm2_of n row)
        ≡ some (cosine_with query row)
  unfolding cosine_prenormed dot
  scored_row query row s =
      let e : (length query == length row.vec) ≡ true =
        grind
          (arith, ==_iff (length row.vec) (length query), ==_iff (length query) (length row.vec)) in
      elim (Bool-cases (is_zero n (n.sqrt (norm2 n query)) || is_zero n (norm2_of n row))) [
        | inl z ↦ simp (e, z) refl
        | inr z ↦ simp (e, z) refl
      ]

  insert-perm :
      (a : VectorHit n Meta) (bs : List (VectorHit n Meta)) → Perm (insert_hit n a bs) (a ∷ bs)
  insert-perm a [] = Perm.refl _
  insert-perm a (b ∷ bs) = elim (Bool-cases (sorts_after n a b)) [
    | inl e ↦ rw e (Perm.trans (Perm.cons b (insert-perm a bs)) (Perm.swap a b bs))
    | inr e ↦ rw e (Perm.refl _)
  ]

  pub sort-perm : (hs : List (VectorHit n Meta)) → Perm (sort_hits n hs) hs
  unfolding sort_hits
  sort-perm [] = Perm.refl _
  sort-perm (a ∷ hs) = Perm.trans (insert-perm a (sort_hits n hs)) (Perm.cons a (sort-perm hs))

  after_key :
      (a b : VectorHit n Meta)
      → n.eq a.score a.score ≡ true
      → n.eq b.score b.score ≡ true
      → sorts_after n a b ≡ ltb (rank a) (rank b)
  after_key a b na nb = o.sub_sign a.score b.score na nb ∙ o.lt_key a.score b.score na nb

  insert-Descending :
      (a : VectorHit n Meta) (bs : List (VectorHit n Meta))
      → Numbers n o by_score (a ∷ bs)
      → Descending bs
      → Descending (insert_hit n a bs)
  insert-Descending a [] ns d = (tt, tt)
  insert-Descending a (b ∷ bs) ns d =
      let k = after_key a b ns.0 ns.1.0 in
      elim (Bool-cases (sorts_after n a b)) [
        | inl e ↦
            let below : leb (rank a) (rank b) ≡ true = ground (arith, sym k ∙ e) in
            rw e (
              All-perm (λ y. leb (rank y) (rank b)) (Perm.symm (insert-perm a bs)) (below, d.0),
              insert-Descending a bs (ns.0, ns.1.1) d.1,
            )
        | inr e ↦
            let le : rank b ≤ rank a = ground (arith, sym k ∙ e) in
            rw e (
              (le→leb (rank b) (rank a) le, AtMost_mono n o by_score (rank b) (rank a) bs le d.0),
              d,
            )
      ]

  pub sort-Descending :
      (hs : List (VectorHit n Meta)) → Numbers n o by_score hs → Descending (sort_hits n hs)
  unfolding sort_hits
  sort-Descending [] ns = tt
  sort-Descending (a ∷ hs) ns =
      insert-Descending a (sort_hits n hs)
        (ns.0, All-perm (λ y. n.eq y.score y.score) (Perm.symm (sort-perm hs)) ns.1)
        (sort-Descending hs ns.1)
