-- ===== src/Lock/Fuel.antt =====
-- The fuel of `tokens_from` in Lock/Glob.
use weft_mark.Prelude.{
  ℕ, zero, suc, ◌≤◌, Bool, true, false, ◌==◌, if◌then◌else◌, [], ◌∷◌, Option, none, some, Text,
  length, ◌≡◌, refl, ap, arith, Bool-cases, inl, inr,
}
use weft_mark.Lock.Glob.{
  star, any_char, literal, set_token, head_is, tail, until_bracket, set_body, tokens_from,
}

-- What follows the bracket is no longer than this.
abbrev IsWithin : ℕ → Option (Text × Text) → Type 0
IsWithin n none = Unit
IsWithin n (some (body, after)) = length after ≤ n

IsWithin-cons :
    (c n m : ℕ) (r : Option (Text × Text))
    → n ≤ m
    → IsWithin n r
    → IsWithin m (elim r [ none ↦ none | some (body, after) ↦ some (c ∷ body, after) ])
IsWithin-cons c n m none le h = tt
IsWithin-cons c n m (some (body, after)) le h = omega arith

until_bracket-IsWithin : (s : Text) → IsWithin (length s) (until_bracket s)
unfolding until_bracket
until_bracket-IsWithin [] = tt
until_bracket-IsWithin (c ∷ s) = elim (Bool-cases (c == b']')) [
  | inl e ↦ rw e (omega arith)
  | inr e ↦ rw e (
      IsWithin-cons c (length s) (suc (length s)) (until_bracket s) (omega arith)
        (until_bracket-IsWithin s))
]

abbrev IsSetWithin : ℕ → Option (Bool × Text × Text) → Type 0
IsSetWithin n none = Unit
IsSetWithin n (some (negated, body, after)) = length after ≤ n

length-tail : (s : Text) → length (tail s) ≤ length s
unfolding tail
length-tail [] = omega arith
length-tail (c ∷ s) = omega arith

set_body-IsWithin : (s : Text) → IsSetWithin (length s) (set_body s)
unfolding set_body
set_body-IsWithin s = start (head_is b'!' s)
  where
    closed :
        (n : Bool) (t : Text) (m : ℕ) (r : Option (Text × Text))
        → length t ≤ m
        → IsWithin (length t) r
        → IsSetWithin m (elim r [ none ↦ none | some (body, after) ↦ some (n, b']' ∷ body, after) ])
    closed n t m none le h = tt
    closed n t m (some (body, after)) le h = omega arith

    opened :
        (n : Bool) (t : Text) (m : ℕ) (r : Option (Text × Text))
        → length t ≤ m
        → IsWithin (length t) r
        → IsSetWithin m (elim r [ none ↦ none | some (body, after) ↦ some (n, body, after) ])
    opened n t m none le h = tt
    opened n t m (some (body, after)) le h = omega arith

    choose :
        (b n : Bool) (t : Text)
        → length t ≤ length s
        → IsSetWithin (length s) (
            if b
            then elim (until_bracket (tail t)) [
              | none ↦ none
              | some (body, after) ↦ some (n, b']' ∷ body, after)
            ]
            else elim (until_bracket t) [
              | none ↦ none
              | some (body, after) ↦ some (n, body, after)
            ])
    choose true n t le =
        closed n (tail t) (length s) (until_bracket (tail t)) (omega (arith, length-tail t))
          (until_bracket-IsWithin (tail t))
    choose false n t le = opened n t (length s) (until_bracket t) le (until_bracket-IsWithin t)

    start :
        (b : Bool)
        → IsSetWithin (length s) (
            if head_is b']' (if b then tail s else s)
            then elim (until_bracket (tail (if b then tail s else s))) [
              | none ↦ none
              | some (body, after) ↦ some (b, b']' ∷ body, after)
            ]
            else elim (until_bracket (if b then tail s else s)) [
              | none ↦ none
              | some (body, after) ↦ some (b, body, after)
            ])
    start true = choose (head_is b']' (tail s)) true (tail s) (length-tail s)
    start false = choose (head_is b']' s) false s (omega arith)

-- With fuel for each character, the tokens do not depend on the fuel.
tokens_from-enough :
    (f g : ℕ) (p : Text) → length p ≤ f → length p ≤ g → tokens_from f p ≡ tokens_from g p
unfolding tokens_from
tokens_from-enough zero zero p h k = refl
tokens_from-enough zero (suc g) [] h k = refl
tokens_from-enough zero (suc g) (c ∷ p) h k = absurd (omega (arith, h))
tokens_from-enough (suc f) zero [] h k = refl
tokens_from-enough (suc f) zero (c ∷ p) h k = absurd (omega (arith, k))
tokens_from-enough (suc f) (suc g) [] h k = refl
tokens_from-enough (suc f) (suc g) (c ∷ p) h k =
    let rest = tokens_from-enough f g p (omega arith) (omega arith) in
    let later =
      sets (λ q le. tokens_from-enough f g q (omega arith) (omega arith)) (set_body p)
        (set_body-IsWithin p) in
    λ i.
      if c == b'*'
      then star ∷ rest i
      else if c == b'?'
      then any_char ∷ rest i
      else if c == b'['
      then later i
      else literal c ∷ rest i
  where
    sets :
        ((q : Text) → length q ≤ length p → tokens_from f q ≡ tokens_from g q)
        → (r : Option (Bool × Text × Text)) → IsSetWithin (length p) r
        → elim r [
          | none ↦ literal c ∷ tokens_from f p
          | some (negated, body, after) ↦ set_token negated body ∷ tokens_from f after
        ]
          ≡ elim r [
            | none ↦ literal c ∷ tokens_from g p
            | some (negated, body, after) ↦ set_token negated body ∷ tokens_from g after
          ]
    sets ih none w = ap (λ ts. literal c ∷ ts) (ih p (omega arith))
    sets ih (some (negated, body, after)) w = ap (λ ts. set_token negated body ∷ ts) (ih after w)
