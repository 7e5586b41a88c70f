-- ===== src/Shared/Keyed.antt =====
-- The JavaScript `Map` and a SQL table with a primary key: an association list in insertion
-- order. Writing to a present key keeps its position; a new key goes to the end.
use Prim.Native.Nat.{ℕ, ◌+◌}
use mathlib.Core.Path.{◌≡◌, refl, sym, ap, subst, subst₂}
use mathlib.Core.List.{List, [], ◌∷◌}
use mathlib.Core.Logic.{◌≢◌, inl, inr}
use mathlib.Core.Bool.{Bool, true, false}
use mathlib.Core.Option.{Option, none, some}
use native.Mathlib.Omega.{arith}
use memos_qdrant.Shared.Tests.{Bool-cases, Eq, ◌==◌, ==_iff, if◌then◌else◌}

abbrev pub Map {ℓ κ} : Type ℓ → Type κ → Type (ℓ ⊔ κ)
Map K V = List (K × V)

module _ {ℓ κ} {K : Type ℓ} {V : Type κ} ⦃e : Eq K⦄ where
  -- `m.get(k)`
  unfoldable pub get : K → Map K V → Option V
  get k [] = none
  get k ((j, v) ∷ m) = if j == k then some v else get k m

  -- `m.set(k, v)`
  unfoldable pub set : K → V → Map K V → Map K V
  set k v [] = (k, v) ∷ []
  set k v ((j, w) ∷ m) = if j == k then (j, v) ∷ m else (j, w) ∷ set k v m

  -- `m.delete(k)`
  unfoldable pub delete : K → Map K V → Map K V
  delete k [] = []
  delete k ((j, v) ∷ m) = if j == k then delete k m else (j, v) ∷ delete k m

  -- `m.has(k)`
  unfoldable pub has : K → Map K V → Bool
  unfolding get
  has k m = elim (get k m) [ none ↦ false | some _ ↦ true ]

  pub has-none : (k : K) (m : Map K V) → get k m ≡ none → has k m ≡ false
  unfolding has
  has-none k m h = ground (arith, h)

  pub none-has : (k : K) (m : Map K V) → has k m ≡ false → get k m ≡ none
  unfolding has
  none-has k m h = ground (arith, h)

  pub get-set :
      (k j : K) (v : V) (m : Map K V) → get j (set k v m) ≡ (if k == j then some v else get j m)
  unfolding get set
  get-set k j v [] = refl
  get-set k j v ((i, w) ∷ m) = ground (arith, ==_iff k j, ==_iff i k, ==_iff i j, get-set k j v m)

  pub get-set_self : (k : K) (v : V) (m : Map K V) → get k (set k v m) ≡ some v
  get-set_self k v m = ground (arith, get-set k k v m, ==_iff k k)

  pub get-set_ne : (k j : K) (v : V) (m : Map K V) → k ≢ j → get j (set k v m) ≡ get j m
  get-set_ne k j v m h = ground (arith, get-set k j v m, ==_iff k j)

  -- Writing back what is there changes nothing.
  pub set-get : (k : K) (v : V) (m : Map K V) → get k m ≡ some v → set k v m ≡ m
  unfolding get set
  set-get k v [] h = absurd (cc)
  set-get k v ((j, w) ∷ m) h = ground (arith, ==_iff j k, set-get k v m)

  pub get-delete : (k j : K) (m : Map K V) → get j (delete k m) ≡ (if k == j then none else get j m)
  unfolding get delete
  get-delete k j [] = ground arith
  get-delete k j ((i, w) ∷ m) = ground (arith, ==_iff k j, ==_iff i k, ==_iff i j, get-delete k j m)

  -- The entries that `f` weighs, as a sum over the map.
  abbrev pub weigh : (V → ℕ) → Map K V → ℕ
  weigh f [] = 0
  weigh f ((j, v) ∷ m) = f v + weigh f m

  -- A write to a present key trades the old weight for the new one.
  pub weigh-set :
      (f : V → ℕ) (k : K) (v w : V) (m : Map K V)
      → get k m ≡ some w
      → weigh f (set k v m) + f w ≡ weigh f m + f v
  unfolding get set
  weigh-set f k v w [] h = ground arith
  weigh-set f k v w ((j, u) ∷ m) h = ground (arith, weigh-set f k v w m)

  -- A write to a new key adds its weight.
  pub weigh-set_new :
      (f : V → ℕ) (k : K) (v : V) (m : Map K V)
      → get k m ≡ none
      → weigh f (set k v m) ≡ weigh f m + f v
  unfolding get set
  weigh-set_new f k v [] h = omega arith
  weigh-set_new f k v ((j, u) ∷ m) h = ground (arith, weigh-set_new f k v m)

-- A statement about the value at a key, when there is one.
abbrev pub At {ℓ κ} : {V : Type ℓ} → (V → Type κ) → Option V → Type κ
At P none = Unit
At P (some v) = P v

-- Every entry, also one that an equal key hides, has the property.
abbrev pub Entries {ℓ κ μ} : {K : Type ℓ} {V : Type κ} → (K → V → Type μ) → Map K V → Type μ
Entries P [] = Unit
Entries P ((k, v) ∷ m) = P k v × Entries P m

module _ {ℓ κ μ} {K : Type ℓ} {V : Type κ} ⦃e : Eq K⦄ (P : K → V → Type μ) where
  pub Entries-set : (k : K) (v : V) (m : Map K V) → P k v → Entries P m → Entries P (set k v m)
  unfolding set
  Entries-set k v [] p h = (p, tt)
  Entries-set k v ((j, w) ∷ m) p h = elim (Bool-cases (j == k)) [
    | inl same ↦ rw same (subst (λ i. P i v) (sym ((==_iff j k).0 same)) p, h.1)
    | inr other ↦ rw other (h.0, Entries-set k v m p h.1)
  ]

  pub Entries-get : (k : K) (v : V) (m : Map K V) → Entries P m → get k m ≡ some v → P k v
  unfolding get
  Entries-get k v [] h g = absurd (cc)
  Entries-get k v ((j, w) ∷ m) h g = elim (Bool-cases (j == k)) [
    | inl same ↦ subst₂ P ((==_iff j k).0 same) (ground (arith, same)) h.0
    | inr other ↦ Entries-get k v m h.1 (ground (arith, other))
  ]

module _ {ℓ κ μ ν} {K : Type ℓ} {V : Type κ} {P : K → V → Type μ} {Q : K → V → Type ν} where
  pub Entries-imp : (m : Map K V) → ((k : K) (v : V) → P k v → Q k v) → Entries P m → Entries Q m
  Entries-imp [] f h = tt
  Entries-imp ((k, v) ∷ m) f h = (f k v h.0, Entries-imp m f h.1)

module _ {ℓ κ} {K : Type ℓ} {V : Type κ} ⦃e : Eq K⦄ where
  -- The key of an entry is present.
  pub Entries-present : (m : Map K V) → Entries (λ k v. get k m ≢ none) m
  unfolding get
  Entries-present [] = tt
  Entries-present ((j, w) ∷ m) =
      (ground (arith, ==_iff j j), Entries-imp m (λ k v h. ground arith) (Entries-present m))

module _ {ℓ κ} {K : Type ℓ} {V : Type κ} ⦃e : Eq K⦄ where
  -- No key stands twice.
  abbrev pub Distinct : Map K V → Type κ
  Distinct [] = Unit
  Distinct ((k, v) ∷ m) = (get k m ≡ none) × Distinct m

  pub set-Distinct : (k : K) (v : V) (m : Map K V) → Distinct m → Distinct (set k v m)
  unfolding set get
  set-Distinct k v [] d = (refl, tt)
  set-Distinct k v ((j, w) ∷ m) d =
      ground (arith, set-Distinct k v m d.1, get-set k j v m, ==_iff j k, ==_iff k j)

  -- Then every entry is the one that its key finds.
  pub Distinct-get : (m : Map K V) → Distinct m → Entries (λ k v. get k m ≡ some v) m
  unfolding get
  Distinct-get [] d = tt
  Distinct-get ((j, w) ∷ m) d = (
    ground (arith, ==_iff j j),
    Entries-imp m (λ k v h. ground (arith, h, d.0, ap (λ i. get i m) {x = j} {y = k}, ==_iff j k))
        (Distinct-get m d.1),
  )
