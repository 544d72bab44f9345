-- ===== src/Lock/Gap.antt =====
-- Two patterns that both end in `*`: a shortcoming of the prefix test in `_file_scopes_overlap`.
use weft_mark.Prelude.{
  ℕ, true, false, ◌||◌, ◌==◌, List, [], ◌∷◌, ◌++◌, Text, codes, text_eq, text_eq_comm, any-append,
  is_empty, ◌≡◌, refl, arith, map, ◌∙◌, ap,
}
use mathlib.Core.List.{append-nil, append_assoc}
use weft_mark.Lock.Glob.{Token, literal, tokens, tokens_from, matches, accepts, fnmatchcase}
use weft_mark.Lock.Overlap.{
  is_magic, has_magic, before_magic, rstrip_slash, literal_prefix, starts_with, path_prefix,
  file_scopes_overlap,
}

-- The tokens of a text without magic characters are its characters, whatever follows.
tokens-literal : (p r : Text) → has_magic p ≡ false → tokens (p ++ r) ≡ map literal p ++ tokens r
unfolding tokens has_magic tokens_from
tokens-literal [] r h = refl
tokens-literal (c ∷ p) r h = ground (arith, tokens-literal p r)

matches-literal :
    (p : Text) (ts : List Token) (s : Text) → matches (map literal p ++ ts) (p ++ s) ≡ matches ts s
unfolding matches accepts
matches-literal [] ts s = refl
matches-literal (c ∷ p) ts s = ground (arith, matches-literal p ts s)

before_magic-append :
    (p r : Text) → has_magic p ≡ false → before_magic (p ++ r) ≡ p ++ before_magic r
unfolding before_magic has_magic
before_magic-append [] r h = refl
before_magic-append (c ∷ p) r h = ground (arith, before_magic-append p r)

has_magic-append : (p r : Text) → has_magic (p ++ r) ≡ (has_magic p || has_magic r)
unfolding has_magic
has_magic-append [] r = refl
has_magic-append (c ∷ p) r = ground (arith, has_magic-append p r)

starts_with-longer : (p r : Text) (c : ℕ) → starts_with p (p ++ c ∷ r) ≡ false
unfolding starts_with
starts_with-longer [] r c = refl
starts_with-longer (d ∷ p) r c = ground (arith, starts_with-longer p r c)

text_eq-longer : (p r : Text) (c : ℕ) → text_eq p (p ++ c ∷ r) ≡ false
unfolding text_eq
text_eq-longer [] r c = refl
text_eq-longer (d ∷ p) r c = ground (arith, text_eq-longer p r c)

text_eq-cancel : (p s t : Text) → text_eq (p ++ s) (p ++ t) ≡ text_eq s t
unfolding text_eq
text_eq-cancel [] s t = refl
text_eq-cancel (d ∷ p) s t = ground (arith, text_eq-cancel p s t)

starts_with-cancel : (p s t : Text) → starts_with (p ++ s) (p ++ t) ≡ starts_with s t
unfolding starts_with
starts_with-cancel [] s t = refl
starts_with-cancel (d ∷ p) s t = ground (arith, starts_with-cancel p s t)

rstrip_slash-snoc :
    (p : Text) (c : ℕ) → (c == b'/') ≡ false → rstrip_slash (p ++ c ∷ []) ≡ p ++ c ∷ []
unfolding rstrip_slash
rstrip_slash-snoc [] c h = ground arith
rstrip_slash-snoc (d ∷ []) c h = ground (arith, rstrip_slash-snoc [] c h)
rstrip_slash-snoc (d ∷ e ∷ p) c h = ground (arith, rstrip_slash-snoc (e ∷ p) c h)

star_all : (s : Text) → matches (tokens (b'*' ∷ [])) s ≡ true
unfolding tokens tokens_from matches
star_all [] = refl
star_all (c ∷ s) = ground (arith, star_all s)

-- An ordinary character: not magic and no slash.
abbrev pub IsOrdinary : ℕ → Type 0
IsOrdinary c = (is_magic c ≡ false) × ((c == b'/') ≡ false)

abbrev pub glob : Text → Text
glob p = p ++ b'*' ∷ []

module _ (p : Text) (plain : has_magic p ≡ false) where
  before_magic-glob : before_magic (glob p) ≡ p
  unfolding before_magic
  before_magic-glob = before_magic-append p (b'*' ∷ []) plain ∙ append-nil p

  fnmatchcase-glob : (s : Text) → fnmatchcase (p ++ s) (glob p) ≡ true
  unfolding fnmatchcase
  fnmatchcase-glob s =
      rw (tokens-literal p (b'*' ∷ []) plain)
        (rw (matches-literal p (tokens (b'*' ∷ [])) s) (star_all s))

module _ (p : Text) (c : ℕ) (plain : has_magic p ≡ false) (ordinary : IsOrdinary c) where
  longer_plain : has_magic (p ++ c ∷ []) ≡ false
  unfolding has_magic
  longer_plain = rw (any-append is_magic p (c ∷ [])) (ground (arith, plain))

  longer_prefix : literal_prefix (glob (p ++ c ∷ [])) ≡ p ++ c ∷ []
  unfolding literal_prefix
  longer_prefix =
      ap rstrip_slash (before_magic-glob (p ++ c ∷ []) longer_plain)
      ∙ rstrip_slash-snoc p c ordinary.1

  path_prefix-longer : path_prefix p (p ++ c ∷ []) ≡ false
  unfolding path_prefix
  path_prefix-longer =
      rw (append_assoc p (c ∷ []) (codes "/"))
        (ground (arith, text_eq-longer p [] c, starts_with-longer p (codes "/") c))

  path_prefix-shorter : path_prefix (p ++ c ∷ []) p ≡ false
  unfolding path_prefix starts_with
  path_prefix-shorter = ground (
    arith,
    text_eq_comm (p ++ c ∷ []) p,
    text_eq-longer p [] c,
    starts_with-cancel p (c ∷ []) (codes "/"),
  )

is_magic-glob : (p : Text) → has_magic (glob p) ≡ true
unfolding has_magic
is_magic-glob p = rw (any-append is_magic p (b'*' ∷ [])) (ground arith)

text_eq-globs : (p : Text) (c : ℕ) → text_eq (glob p) (glob (p ++ c ∷ [])) ≡ false
unfolding text_eq
text_eq-globs p c =
    rw (append_assoc p (c ∷ []) (b'*' ∷ []))
      (text_eq-cancel p (b'*' ∷ []) (c ∷ b'*' ∷ []) ∙ ground arith)

is_empty-snoc : (p : Text) (c : ℕ) → is_empty (p ++ c ∷ []) ≡ false
is_empty-snoc [] c = refl
is_empty-snoc (d ∷ p) c = refl

globs_disjoint :
    (p : Text) (c : ℕ)
    → has_magic p ≡ false
    → is_empty p ≡ false
    → rstrip_slash p ≡ p
    → IsOrdinary c
    → file_scopes_overlap (glob p) (glob (p ++ c ∷ [])) ≡ false
unfolding file_scopes_overlap literal_prefix
globs_disjoint p c plain some_text no_slash ordinary =
    let short : literal_prefix (glob p) ≡ p =
      ap rstrip_slash (before_magic-glob p plain) ∙ no_slash in
    ground (
      arith,
      text_eq-globs p c,
      is_magic-glob p,
      is_magic-glob (p ++ c ∷ []),
      short,
      longer_prefix p c plain ordinary,
      is_empty-snoc p c,
      path_prefix-longer p c plain ordinary,
      path_prefix-shorter p c plain ordinary,
    )

-- Take a text `p` without magic characters, not empty and not ending in a slash, and an ordinary
-- character `c` (neither magic nor a slash). The patterns `p*` and `pc*` both match every path
-- that begins with `pc`, and yet the overlap test says that they do not compete: two leases may
-- own the same file.
pub overlap_gap :
    (p rest : Text) (c : ℕ)
    → has_magic p ≡ false
    → is_empty p ≡ false
    → rstrip_slash p ≡ p
    → IsOrdinary c
    → (fnmatchcase (p ++ c ∷ rest) (glob p) ≡ true)
      × (fnmatchcase (p ++ c ∷ rest) (glob (p ++ c ∷ [])) ≡ true)
      × (file_scopes_overlap (glob p) (glob (p ++ c ∷ [])) ≡ false)
overlap_gap p rest c plain some_text no_slash ordinary = (
  fnmatchcase-glob p plain (c ∷ rest),
  rw (← append_assoc p (c ∷ []) rest)
      (fnmatchcase-glob (p ++ c ∷ []) (longer_plain p c plain ordinary) rest),
  globs_disjoint p c plain some_text no_slash ordinary,
)
