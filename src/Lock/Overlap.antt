-- ===== src/Lock/Overlap.antt =====
-- `scopes_overlap` of src/weftmark/domain/lock.py: whether two canonical scopes compete.
use weft_mark.Prelude.{
  ℕ, Bool, true, false, ◌&&◌, ◌||◌, not, ◌==◌, if◌then◌else◌, [], ◌∷◌, ◌++◌, Text, codes, text_eq,
  any, is_empty,
}
use weft_mark.Scope.{Scope, kind_eq, is_file, same_identity}
use weft_mark.Lock.Glob.{fnmatchcase}

abbrev pub is_magic : ℕ → Bool
is_magic c = c == b'*' || c == b'?' || c == b'['

-- `_has_magic`
unfoldable pub has_magic : Text → Bool
has_magic s = any is_magic s

-- `s[: min(positions)]`, where some character is magic
unfoldable pub before_magic : Text → Text
before_magic [] = []
before_magic (c ∷ s) = let rest = before_magic s in if is_magic c then [] else c ∷ rest

-- `s.rstrip("/")`
unfoldable pub rstrip_slash : Text → Text
rstrip_slash [] = []
rstrip_slash (c ∷ s) =
    let rest = rstrip_slash s in if c == b'/' && is_empty rest then [] else c ∷ rest

-- `_literal_prefix`
unfoldable pub literal_prefix : Text → Text
literal_prefix s = rstrip_slash (before_magic s)

-- `s.startswith(prefix)`
unfoldable pub starts_with : Text → Text → Bool
starts_with s [] = true
starts_with [] (p ∷ ps) = false
starts_with (c ∷ s) (p ∷ ps) = c == p && starts_with s ps

-- `_path_prefix`
unfoldable pub path_prefix : Text → Text → Bool
path_prefix s prefix = text_eq s prefix || starts_with s (prefix ++ codes "/")

-- `_file_scopes_overlap`
unfoldable pub file_scopes_overlap : Text → Text → Bool
file_scopes_overlap first second =
    if text_eq first second
    then true
    else if not (has_magic first) && not (has_magic second)
    then false
    else if has_magic first && not (has_magic second)
    then fnmatchcase second first
    else if has_magic second && not (has_magic first)
    then fnmatchcase first second
    else if is_empty (literal_prefix first) || is_empty (literal_prefix second)
    then true
    else path_prefix (literal_prefix first) (literal_prefix second)
      || path_prefix (literal_prefix second) (literal_prefix first)

unfoldable pub scopes_overlap : Scope → Scope → Bool
scopes_overlap first second =
    if not (kind_eq first.kind second.kind)
    then false
    else if not (is_file first.kind)
    then same_identity first second
    else file_scopes_overlap first.key second.key
