-- ===== src/Common/Lists.antt =====
-- Lists as the source's arrays use them, measured by native numbers.
use Prim.Native.Nat.{ℕ, zero, suc, ◌+◌}
use mathlib.Core.Path.{◌≡◌, refl, ap, subst}
use mathlib.Core.Logic.{◌⊎◌, inl, inr}
use mathlib.Core.Bool.{Bool, true, false, ◌&&◌, ◌||◌}
use mathlib.Core.List.{List, [], ◌∷◌, ◌++◌}
use mathlib.Core.Option.{Option, none, some}
use native.Mathlib.Omega.{arith}
use g_manager.Common.Tests.{if◌then◌else◌, Bool-cases}

module _ {ℓ} {A : Type ℓ} where
  abbrev pub length : List A → ℕ
  length [] = 0
  length (x ∷ xs) = suc (length xs)

  abbrev pub is_empty : List A → Bool
  is_empty [] = true
  is_empty (_ ∷ _) = false

  abbrev pub get_elem? : List A → ℕ → Option A
  get_elem? [] i = none
  get_elem? (x ∷ xs) zero = some x
  get_elem? (x ∷ xs) (suc i) = get_elem? xs i

  abbrev pub set : List A → ℕ → A → List A
  set [] i v = []
  set (x ∷ xs) zero v = v ∷ xs
  set (x ∷ xs) (suc i) v = x ∷ set xs i v

  -- Array.prototype.some, every, find, filter.
  abbrev pub any : (A → Bool) → List A → Bool
  any p [] = false
  any p (x ∷ xs) = p x || any p xs

  abbrev pub all : (A → Bool) → List A → Bool
  all p [] = true
  all p (x ∷ xs) = p x && all p xs

  abbrev pub find : (A → Bool) → List A → Option A
  find p [] = none
  find p (x ∷ xs) = if p x then some x else find p xs

  abbrev pub filter : (A → Bool) → List A → List A
  filter p [] = []
  filter p (x ∷ xs) = let rest = filter p xs in if p x then x ∷ rest else rest

  abbrev pub All {κ} : (A → Type κ) → List A → Type κ
  All P [] = Unit
  All P (x ∷ xs) = P x × All P xs

  pub length-append : (xs ys : List A) → length (xs ++ ys) ≡ length xs + length ys
  length-append [] ys = omega arith
  length-append (x ∷ xs) ys = omega (arith, length-append xs ys)

module _ {ℓ} {A : Type ℓ} where
  abbrev pub flat_map {κ} : {B : Type κ} → (A → List B) → List A → List B
  flat_map f [] = []
  flat_map f (x ∷ xs) = f x ++ flat_map f xs

  pub All-append {κ} : (P : A → Type κ) (xs ys : List A) → All P xs → All P ys → All P (xs ++ ys)
  All-append P [] ys hx hy = hy
  All-append P (x ∷ xs) ys hx hy = (hx.0, All-append P xs ys hx.1 hy)

  pub All-map {κ} : (P Q : A → Type κ) (f : (x : A) → P x → Q x) (xs : List A) → All P xs → All Q xs
  All-map P Q f [] h = tt
  All-map P Q f (x ∷ xs) h = (f x h.0, All-map P Q f xs h.1)

  pub All-filter {κ} :
      (P : A → Type κ) (p : A → Bool) (xs : List A) → All P xs → All P (filter p xs)
  All-filter P p [] h = tt
  All-filter P p (x ∷ xs) h = ground (arith, All-filter P p xs h.1)

  pub All-snoc {κ} : (P : A → Type κ) (xs : List A) (y : A) → All P xs → P y → All P (xs ++ y ∷ [])
  All-snoc P xs y h k = All-append P xs (y ∷ []) h (k, tt)

  -- Every element stands in R to every later one.
  abbrev pub Pairwise {κ} : (A → A → Type κ) → List A → Type κ
  Pairwise R [] = Unit
  Pairwise R (x ∷ xs) = All (R x) xs × Pairwise R xs

  pub Pairwise-snoc {κ} :
      (R : A → A → Type κ) (xs : List A) (y : A)
      → Pairwise R xs
      → All (λ x. R x y) xs
      → Pairwise R (xs ++ y ∷ [])
  Pairwise-snoc R [] y p h = (tt, tt)
  Pairwise-snoc R (x ∷ xs) y p h = (All-snoc (R x) xs y p.0 h.0, Pairwise-snoc R xs y p.1 h.1)

  abbrev pub get_or : List A → ℕ → A → A
  get_or [] i d = d
  get_or (x ∷ xs) zero d = x
  get_or (x ∷ xs) (suc i) d = get_or xs i d

module _ {ℓ} {A : Type ℓ} where
  -- The element stands somewhere in the list.
  abbrev pub IsIn : A → List A → Type ℓ
  IsIn x xs = (before after : List A) × (xs ≡ before ++ x ∷ after)

  pub find-IsIn :
      (p : A → Bool) (xs : List A) (x : A) → find p xs ≡ some x → IsIn x xs × (p x ≡ true)
  find-IsIn p [] x h = ground arith
  find-IsIn p (y ∷ ys) x h = elim (Bool-cases (p y)) [
    | inl e ↦
        let same : y ≡ x = ground (arith, e) in
        (([], ys, ap (λ z. z ∷ ys) same), subst (λ z. p z ≡ true) same e)
    | inr e ↦
        let rest : find p ys ≡ some x = ground (arith, e) in
        let ((before, after, split), holds) = find-IsIn p ys x rest in
        ((y ∷ before, after, ap (λ zs. y ∷ zs) split), holds)
  ]

  pub IsIn-here : (x : A) (xs : List A) → IsIn x (x ∷ xs)
  IsIn-here x xs = ([], xs, refl)

  pub IsIn-there : (x y : A) (xs : List A) → IsIn x xs → IsIn x (y ∷ xs)
  IsIn-there x y xs (before, after, e) = (y ∷ before, after, ap (λ zs. y ∷ zs) e)

  pub IsIn-cons : (x y : A) (xs : List A) → IsIn x (y ∷ xs) → (x ≡ y) ⊎ IsIn x xs
  IsIn-cons x y xs ([], after, e) = inl (ground arith)
  IsIn-cons x y xs (z ∷ before, after, e) = inr (before, after, ground arith)

  -- Every element is in the list.
  pub All-IsIn : (xs : List A) → All (λ x. IsIn x xs) xs
  All-IsIn [] = tt
  All-IsIn (x ∷ xs) = (
    IsIn-here x xs,
    All-map (λ y. IsIn y xs) (λ y. IsIn y (x ∷ xs)) (λ y h. IsIn-there y x xs h) xs (All-IsIn xs),
  )
