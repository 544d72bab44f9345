-- ===== src/Prelude/Strings.antt =====
-- Python's `str` as its list of code points, with the methods of `str` that the program calls.
use Prim.Native.Char.{code}
use Prim.Native.String.{String}
use Prim.Native.Nat.{ℕ}
use mathlib.Core.Path.{◌≡◌, refl}
use mathlib.Core.Logic.{◌↔◌}
use mathlib.Core.Bool.{Bool, true, false, ◌&&◌, ◌||◌}
use mathlib.Core.Option.{Option, none, some}
use mathlib.Core.List.{List, [], ◌∷◌, reverse}
use native.Mathlib.Omega.{arith}
use weft_mark.Prelude.Tests.{ltb, leb, ◌==◌, if◌then◌else◌}
use weft_mark.Prelude.Lists.{any, is_empty, has_duplicates}
use weft_mark.Prelude.Errors.{Result, Error, raise_if}

abbrev pub Text : Type 0
Text = List ℕ

-- The code points of a literal.
abbrev pub codes : String → Text
codes String.[] = []
codes (String.◌∷◌ c s) = code c ∷ codes s

-- `a == b`
unfoldable pub text_eq : Text → Text → Bool
text_eq [] [] = true
text_eq (a ∷ s) (b ∷ t) = a == b && text_eq s t
text_eq _ _ = false

-- `a < b`: the order by code points, the first difference deciding.
unfoldable pub text_lt : Text → Text → Bool
text_lt [] [] = false
text_lt [] (b ∷ t) = true
text_lt (a ∷ s) [] = false
text_lt (a ∷ s) (b ∷ t) = ltb a b || (a == b && text_lt s t)

-- `str.isspace` of one character: the characters that `strip` takes off.
unfoldable pub is_space : ℕ → Bool
is_space c =
    (leb 9 c && leb c 13)
    || (leb 28 c && leb c 32)
    || c == 133
    || c == 160
    || c == 5760
    || (leb 8192 c && leb c 8202)
    || c == 8232
    || c == 8233
    || c == 8239
    || c == 8287
    || c == 12288

unfoldable pub lstrip : Text → Text
unfolding is_space
lstrip [] = []
lstrip (c ∷ s) = let rest = lstrip s in if is_space c then rest else c ∷ s

-- `s.strip()`
unfoldable pub strip : Text → Text
unfolding lstrip
strip s = reverse (lstrip (reverse (lstrip s)))

-- `not s or not s.strip()`, the test of every `_require_text`.
unfoldable pub is_blank : Text → Bool
unfolding strip
is_blank s = is_empty s || is_empty (strip s)

-- `_require_text(name, value)`, which raises the module's own error.
abbrev pub require_text : Error → Text → Result (Unit {0})
require_text e s = raise_if (is_blank s) e

-- `for name in (…): _require_text(name, …)`
abbrev pub require_texts : Error → List Text → Result (Unit {0})
require_texts e ss = raise_if (any is_blank ss) e

-- `o or s`, for an optional text `o`: `None` and `""` are both false.
abbrev pub or_text : Option Text → Text → Text
or_text none s = s
or_text (some []) s = s
or_text (some (c ∷ t)) s = c ∷ t

-- `x in xs`
abbrev pub mem_text : Text → List Text → Bool
mem_text x xs = any (text_eq x) xs

-- `len(set(xs)) != len(xs)`
abbrev pub repeats : List Text → Bool
repeats = has_duplicates text_eq

pub text_eq_refl : (s : Text) → text_eq s s ≡ true
unfolding text_eq
text_eq_refl [] = refl
text_eq_refl (a ∷ s) = ground (arith, text_eq_refl s)

pub text_eq_sound : (s t : Text) → text_eq s t ≡ true → s ≡ t
unfolding text_eq
text_eq_sound [] [] h = refl
text_eq_sound [] (b ∷ t) h = cc
text_eq_sound (a ∷ s) [] h = cc
text_eq_sound (a ∷ s) (b ∷ t) h = ground (arith, text_eq_sound s t)

pub text_eq_iff : (s t : Text) → (text_eq s t ≡ true) ↔ (s ≡ t)
text_eq_iff s t = (text_eq_sound s t, λ e. rw e (text_eq_refl t))

pub text_eq_comm : (s t : Text) → text_eq s t ≡ text_eq t s
text_eq_comm s t = ground (arith, text_eq_iff s t, text_eq_iff t s)

pub text_lt_irrefl : (s : Text) → text_lt s s ≡ false
unfolding text_lt
text_lt_irrefl [] = refl
text_lt_irrefl (a ∷ s) = ground (arith, text_lt_irrefl s)

-- The order is total.
pub text_lt_total : (s t : Text) → text_lt s t ≡ false → text_lt t s ≡ false → s ≡ t
unfolding text_lt
text_lt_total [] [] h k = refl
text_lt_total [] (b ∷ t) h k = cc
text_lt_total (a ∷ s) [] h k = cc
text_lt_total (a ∷ s) (b ∷ t) h k = ground (arith, text_lt_total s t)

pub text_lt_asymm : (s t : Text) → text_lt s t ≡ true → text_lt t s ≡ false
unfolding text_lt
text_lt_asymm [] [] h = refl
text_lt_asymm [] (b ∷ t) h = refl
text_lt_asymm (a ∷ s) [] h = cc
text_lt_asymm (a ∷ s) (b ∷ t) h = ground (arith, text_lt_asymm s t)

-- The elements of `set(xs)`, each once.
unfoldable pub set_texts : List Text → List Text
set_texts [] = []
set_texts (x ∷ xs) = let rest = set_texts xs in if mem_text x rest then rest else x ∷ rest

any_of_mem :
    (p : Text → Bool) (x : Text) (ys : List Text)
    → mem_text x ys ≡ true
    → p x ≡ true
    → any p ys ≡ true
any_of_mem p x [] m h = cc
any_of_mem p x (y ∷ ys) m h = ground (arith, text_eq_iff x y, any_of_mem p x ys)

pub any-set_texts : (p : Text → Bool) (xs : List Text) → any p (set_texts xs) ≡ any p xs
unfolding set_texts
any-set_texts p [] = refl
any-set_texts p (x ∷ xs) = ground (arith, any-set_texts p xs, any_of_mem p x (set_texts xs))
