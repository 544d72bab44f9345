-- ===== src/Prelude/Sort.antt =====
-- Python's `sorted` on texts, as an insertion sort: equal texts are the same, so the order of equal
-- elements makes no difference.
use mathlib.Core.Path.{◌≡◌, refl}
use mathlib.Core.Bool.{Bool, false, ◌||◌}
use mathlib.Core.List.{List, [], ◌∷◌, ◌++◌}
use native.Mathlib.Omega.{arith}
use weft_mark.Prelude.Tests.{if◌then◌else◌}
use weft_mark.Prelude.Lists.{any}
use weft_mark.Prelude.Strings.{
  Text, text_eq, text_lt, mem_text, repeats, text_eq_comm, text_lt_asymm,
}

pub insert_text : Text → List Text → List Text
insert_text x [] = x ∷ []
insert_text x (y ∷ ys) = let rest = insert_text x ys in if text_lt y x then y ∷ rest else x ∷ y ∷ ys

unfoldable pub sort_texts : List Text → List Text
unfolding insert_text
sort_texts [] = []
sort_texts (x ∷ xs) = insert_text x (sort_texts xs)

-- Each text is no greater than the one behind it.
abbrev pub IsSorted : List Text → Type 0
IsSorted [] = Unit
IsSorted (x ∷ []) = Unit
IsSorted (x ∷ y ∷ ys) = (text_lt y x ≡ false) × IsSorted (y ∷ ys)

module _ {ℓ} {A : Type ℓ} (p : A → Bool) where
  pub any-append : (xs ys : List A) → any p (xs ++ ys) ≡ (any p xs || any p ys)
  any-append [] ys = refl
  any-append (x ∷ xs) ys = ground (arith, any-append xs ys)

any-insert_text :
    (p : Text → Bool) (x : Text) (xs : List Text) → any p (insert_text x xs) ≡ (p x || any p xs)
unfolding insert_text
any-insert_text p x [] = refl
any-insert_text p x (y ∷ ys) = ground (arith, any-insert_text p x ys)

-- Sorting changes no test of membership.
pub any-sort_texts : (p : Text → Bool) (xs : List Text) → any p (sort_texts xs) ≡ any p xs
unfolding sort_texts
any-sort_texts p [] = refl
any-sort_texts p (x ∷ xs) = ground (arith, any-insert_text p x (sort_texts xs), any-sort_texts p xs)

repeats-insert_text :
    (x : Text) (xs : List Text) → repeats (insert_text x xs) ≡ (mem_text x xs || repeats xs)
unfolding insert_text
repeats-insert_text x [] = refl
repeats-insert_text x (y ∷ ys) =
    ground (arith, any-insert_text (text_eq y) x ys, text_eq_comm x y, repeats-insert_text x ys)

-- Sorting neither makes nor removes a duplicate.
pub repeats-sort_texts : (xs : List Text) → repeats (sort_texts xs) ≡ repeats xs
unfolding sort_texts
repeats-sort_texts [] = refl
repeats-sort_texts (x ∷ xs) = ground (
  arith,
  repeats-insert_text x (sort_texts xs),
  any-sort_texts (text_eq x) xs,
  repeats-sort_texts xs,
)

insert_text-IsSorted : (x : Text) (xs : List Text) → IsSorted xs → IsSorted (insert_text x xs)
unfolding insert_text
insert_text-IsSorted x [] s = tt
insert_text-IsSorted x (y ∷ []) s = ground (arith, text_lt_asymm y x)
insert_text-IsSorted x (y ∷ z ∷ zs) s =
    ground (arith, text_lt_asymm y x, insert_text-IsSorted x (z ∷ zs) s.1)

pub sort_texts-IsSorted : (xs : List Text) → IsSorted (sort_texts xs)
unfolding sort_texts
sort_texts-IsSorted [] = tt
sort_texts-IsSorted (x ∷ xs) = insert_text-IsSorted x (sort_texts xs) (sort_texts-IsSorted xs)
