-- ===== src/Storage/Vector/Heap/Order.antt =====
-- core/storage/vector.ts: the order of the heap, on the keys of its elements.
use mathlib.Core.List.{Perm}
use memos_qdrant.Shared.{
  ℕ, zero, suc, ◌-◌, ◌/◌, ◌≤◌, ◌<◌, ◌≡◌, ◌≢◌, ◌⊎◌, inl, inr, sym, ap, subst, ◌∙◌, Option, none,
  some, List, arith, ==_iff, ◌==◌, nat_eq, Bool-cases, length, get_elem?, set_at, length-set_at,
  get_elem?-set_at_self, get_elem?-set_at_ne, get_elem?-in_range,
}
use memos_qdrant.Shared.Perms.{exchange-perm}
use memos_qdrant.Storage.Vector.Heap.{exchanged, exchange}

-- The key of the parent of `j` is at most that of `j`.
abbrev pub IsHeap : (ℕ → ℕ) → ℕ → Type 0
IsHeap f n = (j : ℕ) → 0 < j → j < n → f ((j - 1) / 2) ≤ f j

-- The children of `i` stand above its parent.
abbrev pub Bridged : (ℕ → ℕ) → ℕ → ℕ → Type 0
Bridged f n i = (j : ℕ) → 0 < j → j < n → (j - 1) / 2 ≡ i → 0 < i → f ((i - 1) / 2) ≤ f j

-- A heap but for `i` and its parent, and a heap but for `i` and its children.
abbrev pub HeapBelow : (ℕ → ℕ) → ℕ → ℕ → Type 0
HeapBelow f n i = ((j : ℕ) → 0 < j → j < n → j ≢ i → f ((j - 1) / 2) ≤ f j) × Bridged f n i

abbrev pub HeapAbove : (ℕ → ℕ) → ℕ → ℕ → Type 0
HeapAbove f n i =
    ((j : ℕ) → 0 < j → j < n → (j - 1) / 2 ≢ i → f ((j - 1) / 2) ≤ f j) × Bridged f n i

-- `g` is `f` with the keys at `i` and `j` exchanged.
abbrev pub Exchanged : (ℕ → ℕ) → (ℕ → ℕ) → ℕ → ℕ → Type 0
Exchanged f g i j = (g i ≡ f j) × (g j ≡ f i) × ((m : ℕ) → m ≢ i → m ≢ j → g m ≡ f m)

root_by : (f : ℕ → ℕ) (n rounds : ℕ) → IsHeap f n → (j : ℕ) → j ≤ rounds → j < n → f 0 ≤ f j
root_by f n rounds h zero l m = omega arith
root_by f n zero h (suc j) l m = absurd (omega arith)
root_by f n (suc rounds) h (suc j) l m =
    let p = (suc j - 1) / 2 in
    let up = root_by f n rounds h p (omega arith) (omega arith) in
    let here = h (suc j) (omega arith) m in omega (arith, up, here)

-- The first key is the least.
pub root_least : (f : ℕ → ℕ) (n : ℕ) → IsHeap f n → (j : ℕ) → j < n → f 0 ≤ f j
root_least f n h j l = root_by f n j h j (omega arith) l

module _ {A : Type 0} (key : A → ℕ) where
  abbrev pub key_of : Option A → ℕ
  key_of none = 0
  key_of (some x) = key x

  abbrev pub key_at : List A → ℕ → ℕ
  key_at h i = key_of (get_elem? h i)

  exchange-eq :
      (i j : ℕ) (x y : A) (h : List A)
      → get_elem? h i ≡ some x
      → get_elem? h j ≡ some y
      → exchange i j h ≡ set_at j x (set_at i y h)
  exchange-eq i j x y h ex ey =
      ap (λ o. exchanged i j h o (get_elem? h j)) ex ∙ ap (exchanged i j h (some x)) ey

  key_at-ext : (g h : List A) (i j : ℕ) → get_elem? g i ≡ get_elem? h j → key_at g i ≡ key_at h j
  key_at-ext g h i j e = ap key_of e

  written :
      (i j : ℕ) (x y : A) (h : List A)
      → i ≢ j
      → i < length h
      → j < length h
      → get_elem? h i ≡ some x
      → get_elem? h j ≡ some y
      → Exchanged (key_at h) (key_at (set_at j x (set_at i y h))) i j
  written i j x y h n l m ex ey =
      let len = length-set_at i y h in
      let g = set_at j x (set_at i y h) in
      let gi : get_elem? g i ≡ some y =
        get_elem?-set_at_ne j i x (set_at i y h) (λ q. n (sym q)) ∙ get_elem?-set_at_self i y h l in
      let gj : get_elem? g j ≡ some x =
        get_elem?-set_at_self j x (set_at i y h) (omega (arith, len)) in
      (
        key_at-ext g h i j (gi ∙ sym ey),
        key_at-ext g h j i (gj ∙ sym ex),
        λ k p q. key_at-ext g h k k (
            get_elem?-set_at_ne j k x (set_at i y h) (λ r. q (sym r))
            ∙ get_elem?-set_at_ne i k y h (λ r. p (sym r))),
      )

  pub exchange-lem :
      (i j : ℕ) (h : List A)
      → i ≢ j
      → i < length h
      → j < length h
      → Exchanged (key_at h) (key_at (exchange i j h)) i j
        × (length (exchange i j h) ≡ length h)
        × Perm (exchange i j h) h
  exchange-lem i j h n l m =
      let x = get_elem?-in_range h i l in
      let y = get_elem?-in_range h j m in
      subst (λ g. Exchanged (key_at h) (key_at g) i j × (length g ≡ length h) × Perm g h)
        (sym (exchange-eq i j x.0 y.0 h x.1 y.1))
        (
          written i j x.0 y.0 h n l m x.1 y.1,
          length-set_at j x.0 (set_at i y.0 h) ∙ length-set_at i y.0 h,
          exchange-perm i j x.0 y.0 h n x.1 y.1,
        )

-- Where a key stands after an exchange.
pub place :
    (f g : ℕ → ℕ) (i j m : ℕ)
    → Exchanged f g i j
    → ((m ≡ i) × (g m ≡ f j)) ⊎ (((m ≡ j) × (g m ≡ f i)) ⊎ ((m ≢ i) × (m ≢ j) × (g m ≡ f m)))
place f g i j m e = elim (Bool-cases (m == i)) [
  | inl p ↦ let q = (==_iff m i).0 p in inl (q, ap g q ∙ e.0)
  | inr p ↦ elim (Bool-cases (m == j)) [
    | inl r ↦ let q = (==_iff m j).0 r in inr (inl (q, ap g q ∙ e.1))
    | inr r ↦
        let a : m ≢ i = λ q. ground (arith, (==_iff m i).1 q, p) in
        let b : m ≢ j = λ q. ground (arith, (==_iff m j).1 q, r) in inr (inr (a, b, e.2 m a b))
  ]
]
