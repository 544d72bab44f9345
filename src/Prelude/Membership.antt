-- ===== src/Prelude/Membership.antt =====
-- Membership in a list, for the selections and tests of Python's comprehensions.
use mathlib.Core.Path.{◌≡◌, refl, ap, ◌∙◌}
use mathlib.Core.Logic.{◌⊎◌, inl, inr}
use mathlib.Core.Bool.{Bool, true, false}
use mathlib.Core.List.{List, [], ◌∷◌, ◌++◌}
use native.Mathlib.Omega.{arith}
use weft_mark.Prelude.Tests.{if◌then◌else◌}
use weft_mark.Prelude.Lists.{select, all}

abbrev pub In : {A : Type 0} → A → List A → Type 0
In x [] = ⊥
In x (y ∷ ys) = (x ≡ y) ⊎ In x ys

module _ {A : Type 0} (p : A → Bool) where
  pub In-select : (x : A) (xs : List A) → In x xs → p x ≡ true → In x (select p xs)
  In-select x [] m h = m
  In-select x (y ∷ ys) m h = ground (arith, In-select x ys)

  In-test :
      (x y : A) (rest ys : List A) (b : Bool)
      → p y ≡ b
      → In x (if b then y ∷ rest else rest)
      → (In x rest → In x ys × (p x ≡ true))
      → ((x ≡ y) ⊎ In x ys) × (p x ≡ true)
  In-test x y rest ys true e (inl same) ih = (inl same, ap p same ∙ e)
  In-test x y rest ys true e (inr m) ih = (inr (ih m).0, (ih m).1)
  In-test x y rest ys false e m ih = (inr (ih m).0, (ih m).1)

  pub In-of_In-select : (x : A) (xs : List A) → In x (select p xs) → In x xs × (p x ≡ true)
  In-of_In-select x [] m = absurd m
  In-of_In-select x (y ∷ ys) m = In-test x y (select p ys) ys (p y) refl m (In-of_In-select x ys)

  pub In-all : (x : A) (xs : List A) → all p xs ≡ true → In x xs → p x ≡ true
  In-all x [] h m = absurd m
  In-all x (y ∷ ys) h m = ground (arith, In-all x ys)

  pub all_of_In : (xs : List A) → ((x : A) → In x xs → p x ≡ true) → all p xs ≡ true
  all_of_In [] h = refl
  all_of_In (y ∷ ys) h = ground (arith, h y (inl refl), all_of_In ys (λ x m. h x (inr m)))

pub In-append : {A : Type 0} (x : A) (xs ys : List A) → In x xs → In x (xs ++ ys)
In-append x [] ys m = absurd m
In-append x (y ∷ xs) ys (inl e) = inl e
In-append x (y ∷ xs) ys (inr m) = inr (In-append x xs ys m)

pub In-last : {A : Type 0} (x : A) (xs : List A) → In x (xs ++ x ∷ [])
In-last x [] = inl refl
In-last x (y ∷ xs) = inr (In-last x xs)
