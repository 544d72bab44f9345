-- ===== src/Prelude/Blank.antt =====
-- Texts with a visible character are not blank.
use Prim.Native.Nat.{ℕ}
use mathlib.Core.Path.{◌≡◌, refl, ◌∙◌}
use mathlib.Core.Bool.{Bool, true, false, ◌||◌, not}
use mathlib.Core.List.{[], ◌∷◌, reverse, reverse_aux}
use native.Mathlib.Omega.{arith}
use weft_mark.Prelude.Lists.{any, is_empty}
use weft_mark.Prelude.Strings.{Text, is_space, lstrip, strip, is_blank}

abbrev pub is_visible : ℕ → Bool
is_visible c = not (is_space c)

any-reverse_aux : (p : ℕ → Bool) (s r : Text) → any p (reverse_aux s r) ≡ (any p r || any p s)
any-reverse_aux p [] r = ground arith
any-reverse_aux p (c ∷ s) r = any-reverse_aux p s (c ∷ r) ∙ ground arith

any-lstrip : (s : Text) → any is_visible (lstrip s) ≡ any is_visible s
unfolding lstrip
any-lstrip [] = refl
any-lstrip (c ∷ s) = ground (arith, any-lstrip s)

any-nonempty : (p : ℕ → Bool) (s : Text) → any p s ≡ true → is_empty s ≡ false
any-nonempty p [] h = cc
any-nonempty p (c ∷ s) h = refl

pub is_blank-visible : (s : Text) → any is_visible s ≡ true → is_blank s ≡ false
unfolding is_blank strip
is_blank-visible s h =
    let stripped : any is_visible (strip s) ≡ true =
      any-reverse_aux is_visible (lstrip (reverse (lstrip s))) []
      ∙ any-lstrip (reverse (lstrip s))
      ∙ any-reverse_aux is_visible (lstrip s) []
      ∙ any-lstrip s
      ∙ h in
    ground (arith, any-nonempty is_visible s h, any-nonempty is_visible (strip s) stripped)
