-- ===== src/Scope/Normalize.antt =====
-- The normalization of scope keys in src/weftmark/domain/scope.py. Python's `unicodedata.normalize("NFKC", …)`
-- and `str.casefold` rest on the Unicode tables, and are parameters.
use weft_mark.Prelude.{
  ℕ, Bool, false, ◌&&◌, ◌||◌, not, ◌==◌, leb, if◌then◌else◌, List, [], ◌∷◌, ◌++◌, Option, none,
  some, Text, codes, text_eq, is_blank, is_space, strip, is_empty, any, all, select, last?, Result,
  ok, err, ◌>>=◌, ◌>>◌, raise_if, scope_error,
}
use weft_mark.Scope.{Scope, ScopeKind, file, contract, boundary, schema, surface, is_file, value}

pub record Unicode : Type 0 where
  pub nfkc : Text → Text
  pub casefold : Text → Text

-- `_require_text`, which here returns the stripped text.
unfoldable pub require_text : Text → Result Text
require_text s = do raise_if (is_blank s) scope_error; ok (strip s)

-- `s.replace("\\", "/")`
unfoldable pub slashes : Text → Text
slashes [] = []
slashes (c ∷ s) = (if c == 92 then b'/' else c) ∷ slashes s

-- Put a character in front of the first part.
abbrev pub extend : ℕ → List Text → List Text
extend c [] = (c ∷ []) ∷ []
extend c (part ∷ parts) = (c ∷ part) ∷ parts

-- `s.split("/")`
unfoldable pub split_slash : Text → List Text
split_slash [] = [] ∷ []
split_slash (c ∷ s) = let rest = split_slash s in if c == b'/' then [] ∷ rest else extend c rest

-- `"/".join(parts)`
unfoldable pub join_slash : List Text → Text
join_slash [] = []
join_slash (part ∷ []) = part
join_slash (part ∷ q ∷ parts) = part ++ b'/' ∷ join_slash (q ∷ parts)

abbrev pub is_dot : Text → Bool
is_dot (c ∷ []) = c == b'.'
is_dot _ = false

abbrev pub is_dot_dot : Text → Bool
is_dot_dot (c ∷ d ∷ []) = c == b'.' && d == b'.'
is_dot_dot _ = false

-- The parts that `PurePosixPath` keeps.
abbrev pub is_part : Text → Bool
is_part s = not (is_empty s) && not (is_dot s)

-- `str(PurePosixPath(s))`, for a relative path.
unfoldable pub posix_path : Text → Text
posix_path s =
    let parts = select is_part (split_slash s) in
    if is_empty parts then codes "." else join_slash parts

abbrev pub is_absolute : Text → Bool
is_absolute [] = false
is_absolute (c ∷ s) = c == b'/'

-- `_normalize_file`
unfoldable pub normalize_file : Text → Result Text
normalize_file text = do
  stripped ← require_text text
  let path = slashes stripped
  raise_if (is_absolute path) scope_error
  raise_if (any is_dot_dot (split_slash path)) scope_error
  raise_if (any (any (λ c. c == 0)) (split_slash path)) scope_error
  let normalized = posix_path path
  raise_if (is_empty normalized || is_dot normalized) scope_error
  raise_if (any (λ c. c == b':') normalized) scope_error
  ok normalized

-- `re.sub(p + "+", "-", s)`: each longest run of the characters that satisfy `p` becomes one dash.
unfoldable pub dashes : (ℕ → Bool) → (in_run : Bool) → Text → Text
dashes p in_run [] = []
dashes p in_run (c ∷ s) =
    let rest = dashes p (p c) s in if p c then (if in_run then rest else b'-' ∷ rest) else c ∷ rest

abbrev pub is_key_end : ℕ → Bool
is_key_end c = (leb b'a' c && leb c b'z') || (leb b'0' c && leb c b'9')

abbrev pub is_key_char : ℕ → Bool
is_key_char c = is_key_end c || c == b'.' || c == b'_' || c == b'/' || c == b'-'

abbrev pub ends_well : Option ℕ → Bool
ends_well none = false
ends_well (some c) = is_key_end c

-- `_SEMANTIC_KEY.fullmatch(s)`
unfoldable pub is_semantic_key : Text → Bool
is_semantic_key [] = false
is_semantic_key (c ∷ s) = is_key_end c && (all is_key_char s && ends_well (last? (c ∷ s)))

-- `ScopeKind(text)`, a lookup by value.
unfoldable pub kind_of : Text → Result ScopeKind
kind_of s =
    if text_eq s (value file)
    then ok file
    else if text_eq s (value contract)
    then ok contract
    else if text_eq s (value boundary)
    then ok boundary
    else if text_eq s (value schema)
    then ok schema
    else if text_eq s (value surface)
    then ok surface
    else err scope_error

-- `s.partition(":")`: the text before the first colon and behind it, where there is one
unfoldable pub partition_colon : Text → Option (Text × Text)
partition_colon [] = none
partition_colon (c ∷ s) =
    let rest = partition_colon s in
    if c == b':'
    then some ([], s)
    else elim rest [ none ↦ none | some (prefix, key) ↦ some (c ∷ prefix, key) ]

unfoldable pub stripped_label : Option Text → Result (Option Text)
stripped_label none = ok none
stripped_label (some label) = do kept ← require_text label; ok (some kept)

module _ (u : Unicode) where
  -- `_normalize_semantic`
  unfoldable pub normalize_semantic : Text → Result Text
  normalize_semantic text = do
    stripped ← require_text text
    let spaced = dashes is_space false (u.casefold (u.nfkc stripped))
    let key = dashes (λ c. c == b'-') false spaced
    raise_if (not (is_semantic_key key)) scope_error
    raise_if (any (λ part. is_empty part || is_dot part || is_dot_dot part) (split_slash key))
        scope_error
    ok key

  -- The constructor: `__post_init__` replaces the key and the label by their normal forms.
  unfoldable pub make : ScopeKind → (key : Text) → (display_label : Option Text) → Result Scope
  make kind key display_label = do
    normalized ← if is_file kind then normalize_file key else normalize_semantic key
    label ← stripped_label display_label
    ok (record { kind = kind; key = normalized; display_label = label })

  unfoldable pub parse : Text → (display_label : Option Text) → Result Scope
  parse text display_label = do
    raw ← require_text text
    elim (partition_colon raw) [
      | none ↦ err scope_error
      | some (prefix, key) ↦ do kind ← kind_of (u.casefold prefix); make kind key display_label
    ]
