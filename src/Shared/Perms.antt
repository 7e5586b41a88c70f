-- ===== src/Shared/Perms.antt =====
-- What a permutation of a list keeps: tests on all elements, the length, and the exchange of two.
use mathlib.Core.Logic.{∥∥₁_elim}
use mathlib.Core.Bool.{Bool-set}
use mathlib.Core.List.{Perm}
use mathlib.Core.List.Perm
use mathlib.Core.List.{Permᴰ}
use memos_qdrant.Shared.Lists.{length, All, get_elem?, set_at, get_elem?-set_at_ne}
use mathlib.Core.Path.{◌≡◌, refl, sym, ap, ◌∙◌, subst}
use mathlib.Core.Bool.{Bool, true, ◌&&◌}
use mathlib.Core.Logic.{◌≢◌}
use mathlib.Core.Option.{some}
use mathlib.Core.List.{List, [], ◌∷◌}
use Prim.Native.Nat.{ℕ, zero, suc}
use native.Mathlib.Omega.{arith}

module _ {ℓ} {A : Type ℓ} where
  abbrev pub every : (A → Bool) → List A → Bool
  every p [] = true
  every p (x ∷ xs) = p x && every p xs

  every-perm_d : (p : A → Bool) {xs ys : List A} → Permᴰ xs ys → every p xs ≡ every p ys
  every-perm_d p Permᴰ.nil = refl
  every-perm_d p (Permᴰ.cons e d) = cc (ap p e, every-perm_d p d)
  every-perm_d p (Permᴰ.swap e f) = ground (arith, ap p e, ap p f)
  every-perm_d p (Permᴰ.trans d e) = every-perm_d p d ∙ every-perm_d p e

  every-perm : (p : A → Bool) {xs ys : List A} → Perm xs ys → every p xs ≡ every p ys
  every-perm p {xs} {ys} h = ∥∥₁_elim h (Bool-set (every p xs) (every p ys)) (λ d. every-perm_d p d)

  every→All : (p : A → Bool) (xs : List A) → every p xs ≡ true → All (λ x. p x ≡ true) xs
  every→All p [] h = tt
  every→All p (x ∷ xs) h = (ground arith, every→All p xs (ground arith))

  All→every : (p : A → Bool) (xs : List A) → All (λ x. p x ≡ true) xs → every p xs ≡ true
  All→every p [] h = refl
  All→every p (x ∷ xs) h = ground (arith, All→every p xs h.1)

  pub All-perm :
      (p : A → Bool) {xs ys : List A}
      → Perm xs ys
      → All (λ x. p x ≡ true) xs
      → All (λ x. p x ≡ true) ys
  All-perm p {xs} {ys} h a = every→All p ys (sym (every-perm p h) ∙ All→every p xs a)

  length-perm_d : {xs ys : List A} → Permᴰ xs ys → length xs ≡ length ys
  length-perm_d Permᴰ.nil = refl
  length-perm_d (Permᴰ.cons e d) = ap suc (length-perm_d d)
  length-perm_d (Permᴰ.swap e f) = refl
  length-perm_d (Permᴰ.trans d e) = length-perm_d d ∙ length-perm_d e

  pub length-perm : {xs ys : List A} → Perm xs ys → length xs ≡ length ys
  length-perm {xs} {ys} h = ∥∥₁_elim h (hlevel) (λ d. length-perm_d d)

  pub perm_of_eq : {xs ys : List A} → xs ≡ ys → Perm xs ys
  perm_of_eq {xs} e = subst (Perm xs) e (Perm.refl xs)

  pub set_at-perm :
      (i : ℕ) (a x : A) (xs : List A) → get_elem? xs i ≡ some x → Perm (x ∷ set_at i a xs) (a ∷ xs)
  set_at-perm i a x [] h = absurd (cc h)
  set_at-perm zero a x (y ∷ xs) h = let e : y ≡ x = cc h in rw e (Perm.swap a x xs)
  set_at-perm (suc i) a x (y ∷ xs) h =
      Perm.trans (Perm.swap y x (set_at i a xs))
        (Perm.trans (Perm.cons y (set_at-perm i a x xs h)) (Perm.swap a y xs))

  -- The elements at two indices change places.
  pub exchange-perm :
      (i j : ℕ) (x y : A) (xs : List A)
      → i ≢ j
      → get_elem? xs i ≡ some x
      → get_elem? xs j ≡ some y
      → Perm (set_at j x (set_at i y xs)) xs
  exchange-perm i j x y xs n h k = Perm.cons_inv (
      Perm.trans (set_at-perm j x y (set_at i y xs) (get_elem?-set_at_ne i j y xs n ∙ k))
        (set_at-perm i y x xs h))
