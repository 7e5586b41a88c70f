-- ===== src/Memory/CandidatePool/Tables.antt =====
-- core/memory/l2/candidate-pool.ts: lists without repetition, and maps
-- written out key by key.
use memos_qdrant.Shared.{
  String, ◌≡◌, refl, sym, ◌∙◌, ap, ◌≢◌, true, false, none, some, List, [], ◌∷◌, ◌++◌, map,
  string_eq, ◌==◌, ==_iff, ◌||◌, if◌then◌else◌, includes, Bool-cases, inl, inr, arith,
}
use memos_qdrant.Shared.Keyed.{Map, get, set}
use memos_qdrant.Memory.CandidatePool.{push_new}

pub push_new-append :
    (seen xs ys : List String) → push_new seen (xs ++ ys) ≡ push_new (push_new seen xs) ys
push_new-append seen [] ys = refl
push_new-append seen (x ∷ xs) ys = elim (Bool-cases (includes x seen)) [
  | inl e ↦ rw e (push_new-append seen xs ys)
  | inr e ↦ rw e (push_new-append (seen ++ (x ∷ [])) xs ys)
]

pub includes-append :
    (a : String) (xs ys : List String) → includes a (xs ++ ys) ≡ (includes a xs || includes a ys)
includes-append a [] ys = refl
includes-append a (x ∷ xs) ys = ground (arith, includes-append a xs ys)

pub includes-push_new :
    (a : String) (seen xs : List String)
    → includes a (push_new seen xs) ≡ (includes a seen || includes a xs)
includes-push_new a seen [] = ground arith
includes-push_new a seen (x ∷ xs) = elim (Bool-cases (includes x seen)) [
  | inl e ↦
      let known : (x == a) ≡ true → includes a seen ≡ true =
        λ h. sym (ap (λ i. includes i seen) ((==_iff x a).0 h)) ∙ e in
      rw e (includes-push_new a seen xs ∙ ground (arith, known))
  | inr e ↦
      rw e (
        includes-push_new a (seen ++ (x ∷ [])) xs ∙ ground (arith, includes-append a seen (x ∷ [])))
]

-- No element stands twice.
abbrev pub Once : List String → Type 0
Once [] = Unit
Once (x ∷ xs) = (includes x xs ≡ false) × Once xs

pub append-Once :
    (x : String) (xs : List String) → includes x xs ≡ false → Once xs → Once (xs ++ (x ∷ []))
append-Once x [] h o = (refl, tt)
append-Once x (y ∷ xs) h o = (
  ground (arith, includes-append y xs (x ∷ []), o.0, ==_iff x y, ==_iff y x),
  append-Once x xs (ground (arith, h)) o.1,
)

pub push_new-Once : (seen xs : List String) → Once seen → Once (push_new seen xs)
push_new-Once seen [] o = o
push_new-Once seen (x ∷ xs) o = elim (Bool-cases (includes x seen)) [
  | inl e ↦ rw e (push_new-Once seen xs o)
  | inr e ↦ rw e (push_new-Once (seen ++ (x ∷ [])) xs (append-Once x seen e o))
]

-- A map that is written out key by key.
abbrev pub table {ℓ} : {V : Type ℓ} → (String → V) → List String → Map String V
table f ks = map (λ k. (k, f k)) ks

module _ {ℓ} {V : Type ℓ} where
  pub get-table :
      (k : String) (f : String → V) (ks : List String)
      → get k (table f ks) ≡ (if includes k ks then some (f k) else none)
  unfolding get
  get-table k f [] = refl
  get-table k f (j ∷ ks) = elim (Bool-cases (j == k)) [
    | inl e ↦ rw e (ap (λ i. some (f i)) ((==_iff j k).0 e))
    | inr e ↦ rw e (get-table k f ks)
  ]

  pub table-ext :
      (f g : String → V) (ks : List String) → ((k : String) → f k ≡ g k) → table f ks ≡ table g ks
  table-ext f g [] h = refl
  table-ext f g (k ∷ ks) h = ground (arith, h k, table-ext f g ks h)

  pub table-append :
      (f : String → V) (ks : List String) (k : String)
      → table f (ks ++ (k ∷ [])) ≡ table f ks ++ ((k, f k) ∷ [])
  table-append f [] k = refl
  table-append f (j ∷ ks) k = ap (◌∷◌ (j, f j)) (table-append f ks k)

  pub table-except :
      (k : String) (f g : String → V) (ks : List String)
      → includes k ks ≡ false
      → ((j : String) → k ≢ j → f j ≡ g j)
      → table f ks ≡ table g ks
  table-except k f g [] n h = refl
  table-except k f g (j ∷ ks) n h = elim (Bool-cases (j == k)) [
    | inl e ↦ absurd (ground (arith, e, n))
    | inr e ↦
        let ne : k ≢ j = λ p. ground (arith, e, p, ==_iff j k) in
        rw (h j ne) (ap (◌∷◌ (j, g j)) (table-except k f g ks (ground (arith, n)) h))
  ]

  -- A write where every other key keeps its value.
  pub set-table :
      (k : String) (f g : String → V) (ks : List String)
      → Once ks
      → ((j : String) → k ≢ j → f j ≡ g j)
      → set k (g k) (table f ks) ≡ table g (push_new ks (k ∷ []))
  unfolding set
  set-table k f g [] o h = refl
  set-table k f g (j ∷ ks) o h = elim (Bool-cases (j == k)) [
    | inl e ↦
        let p : j ≡ k = (==_iff j k).0 e in
        let n : includes k ks ≡ false = ap (λ i. includes i ks) (sym p) ∙ o.0 in
        rw e (rw (table-except k f g ks n h) (ap (λ i. (j, g i) ∷ table g ks) (sym p)))
    | inr e ↦
        let ne : k ≢ j = λ p. ground (arith, e, p, ==_iff j k) in
        let ih = set-table k f g ks o.1 h in
        elim (Bool-cases (includes k ks)) [
          | inl i ↦ simp (e, i) (rw (h j ne) (ap (◌∷◌ (j, g j)) (rw i at ih)))
          | inr i ↦ simp (e, i) (rw (h j ne) (ap (◌∷◌ (j, g j)) (rw i at ih)))
        ]
  ]
