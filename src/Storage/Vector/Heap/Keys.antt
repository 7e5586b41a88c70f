-- ===== src/Storage/Vector/Heap/Keys.antt =====
-- core/storage/vector.ts: the tests on scores are tests on keys.
use memos_qdrant.Shared.{
  ℕ, zero, suc, ◌<◌, ◌≡◌, sym, ap, ◌∙◌, Bool, true, some, List, [], ◌∷◌, nat_eq, length, All, leb,
  ltb, get_elem?, subst, get_elem?-in_range,
}
use memos_qdrant.Storage.Vector.Heap.Order.{key_at, key_of}
use memos_qdrant.Storage.Vector.Heap.{scores, scored}
use memos_qdrant.Shared.Num.{Arith, OrderLaws}

module _ (n : Arith) (o : OrderLaws n) {A : Type 0} (score : A → n.Num) where
  abbrev pub Numbers : List A → Type 0
  Numbers = All (λ x. n.eq (score x) (score x) ≡ true)

  abbrev pub rank_of : A → ℕ
  rank_of x = o.key (score x)

  pub All-get :
      (h : List A) (i : ℕ) (x : A)
      → Numbers h
      → get_elem? h i ≡ some x
      → n.eq (score x) (score x) ≡ true
  All-get [] i x a e = absurd (cc e)
  All-get (y ∷ ys) zero x a e =
      let q : y ≡ x = cc e in subst (λ x. n.eq (score x) (score x) ≡ true) q a.0
  All-get (y ∷ ys) (suc i) x a e = All-get ys i x a.1 e

  scores-eq :
      (test : n.Num → n.Num → Bool) (h : List A) (i j : ℕ) (x y : A)
      → get_elem? h i ≡ some x
      → get_elem? h j ≡ some y
      → scores n score test h i j ≡ test (score x) (score y)
  scores-eq test h i j x y ex ey =
      ap (λ u. scored n score test u (get_elem? h j)) ex ∙ ap (scored n score test (some x)) ey

  pub scores-key :
      (h : List A) (i j : ℕ)
      → Numbers h
      → i < length h
      → j < length h
      → (scores n score n.le h i j ≡ leb (key_at rank_of h i) (key_at rank_of h j))
        × (scores n score n.lt h i j ≡ ltb (key_at rank_of h i) (key_at rank_of h j))
  scores-key h i j a l m =
      let x = get_elem?-in_range h i l in
      let y = get_elem?-in_range h j m in
      let nx = All-get h i x.0 a x.1 in
      let ny = All-get h j y.0 a y.1 in
      let kx : rank_of x.0 ≡ key_at rank_of h i = sym (ap (key_of rank_of) x.1) in
      let ky : rank_of y.0 ≡ key_at rank_of h j = sym (ap (key_of rank_of) y.1) in
      (
        scores-eq n.le h i j x.0 y.0 x.1 y.1
            ∙ (o.le_key (score x.0) (score y.0) nx ny
                ∙ (ap (λ k. leb k (rank_of y.0)) kx ∙ ap (leb (key_at rank_of h i)) ky)),
        scores-eq n.lt h i j x.0 y.0 x.1 y.1
            ∙ (o.lt_key (score x.0) (score y.0) nx ny
                ∙ (ap (λ k. ltb k (rank_of y.0)) kx ∙ ap (ltb (key_at rank_of h i)) ky)),
      )
