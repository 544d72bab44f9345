-- ===== src/Lock/Glob.antt =====
-- Python's `fnmatch.fnmatchcase`, which lock.py calls: `*` matches any text, `?` one character,
-- `[…]` one character of a set and `[!…]` one outside it; a `[` that nothing closes is itself.
use weft_mark.Prelude.{
  ℕ, zero, suc, Bool, true, false, ◌&&◌, ◌||◌, not, ◌==◌, leb, ltb, if◌then◌else◌, List, [], ◌∷◌,
  Option, none, some, Text, any, length,
}

pub data Item : Type 0 where
  single : ℕ → Item
  range : (low high : ℕ) → Item

pub data Token : Type 0 where
  star any_char : Token
  literal : ℕ → Token
  set : (negated : Bool) → List Item → Token

unfoldable pub head_is : ℕ → Text → Bool
head_is c [] = false
head_is c (d ∷ s) = d == c

unfoldable pub tail : Text → Text
tail [] = []
tail (c ∷ s) = s

-- What stands before the next `]`, and behind it.
unfoldable pub until_bracket : Text → Option (Text × Text)
until_bracket [] = none
until_bracket (c ∷ s) =
    let rest = until_bracket s in
    if c == b']'
    then some ([], s)
    else elim rest [ none ↦ none | some (body, after) ↦ some (c ∷ body, after) ]

-- Behind an opening bracket: is the set negated, its text, and what follows. A `]` in the first place
-- belongs to the set.
unfoldable pub set_body : Text → Option (Bool × Text × Text)
set_body s =
    let negated = head_is b'!' s in
    let s1 = (if negated then tail s else s) in
    if head_is b']' s1
    then elim (until_bracket (tail s1)) [
      | none ↦ none
      | some (body, after) ↦ some (negated, b']' ∷ body, after)
    ]
    else elim (until_bracket s1) [ none ↦ none | some (body, after) ↦ some (negated, body, after) ]

-- The items of a set: `a-b` is a range, and a `-` at either end stands for itself.
unfoldable pub items : Text → List Item
items [] = []
items (a ∷ []) = single a ∷ []
items (a ∷ b ∷ []) = single a ∷ single b ∷ []
items (a ∷ b ∷ c ∷ s) = elim (b == b'-') [
  | true ↦ range a c ∷ items s
  | false ↦ single a ∷ items (b ∷ c ∷ s)
]

-- A range `c-d` with `d` before `c` is empty, and at the start of a set it is left out.
unfoldable pub without_empty : Text → Text
without_empty [] = []
without_empty (a ∷ []) = a ∷ []
without_empty (a ∷ b ∷ []) = a ∷ b ∷ []
without_empty (a ∷ b ∷ c ∷ s) =
    let rest = without_empty s in if b == b'-' && ltb c a then rest else a ∷ b ∷ c ∷ s

-- What stands behind a `!` that comes first because empty ranges before it are left out: a `-` is then a
-- character of the set.
unfoldable pub items_outside : Text → List Item
items_outside [] = []
items_outside (a ∷ []) = single a ∷ []
items_outside (a ∷ b ∷ s) = if a == b'-' then single a ∷ single b ∷ items s else items (a ∷ b ∷ s)

-- Such a `!` negates the set, as one right behind the bracket does.
unfoldable pub set_token : Bool → Text → Token
set_token negated body =
    let shown = without_empty body in
    if not negated && head_is b'!' shown
    then set true (items_outside (tail shown))
    else set negated (items body)

-- Each round reads one character at least, so the length of the pattern is fuel enough.
unfoldable pub tokens_from : ℕ → Text → List Token
tokens_from zero p = []
tokens_from (suc f) [] = []
tokens_from (suc f) (c ∷ p) =
    let rest = tokens_from f p in
    if c == b'*'
    then star ∷ rest
    else if c == b'?'
    then any_char ∷ rest
    else if c == b'['
    then elim (set_body p) [
      | none ↦ literal c ∷ rest
      | some (negated, body, after) ↦ set_token negated body ∷ tokens_from f after
    ]
    else literal c ∷ rest

unfoldable pub tokens : Text → List Token
tokens p = tokens_from (length p) p

unfoldable pub in_item : ℕ → Item → Bool
in_item c (single d) = c == d
in_item c (range low high) = leb low c && leb c high

-- One character against a token other than `*`.
unfoldable pub accepts : Token → ℕ → Bool
accepts star c = true
accepts any_char c = true
accepts (literal d) c = c == d
accepts (set negated is) c = if negated then not (any (in_item c) is) else any (in_item c) is

-- The whole name against the tokens.
unfoldable pub matches : List Token → Text → Bool
matches [] [] = true
matches [] (c ∷ s) = false
matches (star ∷ ts) [] = matches ts []
matches (star ∷ ts) (c ∷ s) = let later = matches (star ∷ ts) s in matches ts (c ∷ s) || later
matches (t ∷ ts) [] = false
matches (t ∷ ts) (c ∷ s) = let rest = matches ts s in accepts t c && rest

-- `fnmatchcase(name, pattern)`
unfoldable pub fnmatchcase : Text → Text → Bool
fnmatchcase name pattern = matches (tokens pattern) name
