-- ===== src/Scope/Tests.antt =====
-- Runs of the parser of scope.py on small inputs.
use weft_mark.Prelude.{
  [], ◌∷◌, none, codes, text_eq, is_blank, strip, lstrip, is_space, ok, err, scope_error, ◌≡◌, refl,
}
use weft_mark.Scope.{file, schema, value, canonical}
use weft_mark.Scope.Normalize
use weft_mark.Scope.Normalize.{Unicode, parse}
use weft_mark.Scope.Record.{to_dict, from_dict, scope_in}
use weft_mark.Json.{object_of, string, null, find}

abbrev plain : Unicode
plain = record { nfkc = λ s. s; casefold = λ s. s }

program : Unit {0}
unfolding text_eq is_blank strip lstrip is_space value canonical Normalize.require_text
    Normalize.slashes Normalize.split_slash Normalize.join_slash Normalize.posix_path
    Normalize.normalize_file Normalize.dashes Normalize.is_semantic_key Normalize.normalize_semantic
    Normalize.kind_of Normalize.partition_colon Normalize.stripped_label Normalize.make
    Normalize.parse to_dict from_dict find
program = tt

-- The space after a leading `./` stays in the key.
spaced :
    parse plain (codes "file:./ a") none
    ≡ ok (record { kind = file; key = codes " a"; display_label = none })
unfolding program
spaced = refl

-- The canonical text of that scope is another scope's.
respaced :
    parse plain (codes "file: a") none
    ≡ ok (record { kind = file; key = codes "a"; display_label = none })
unfolding program
respaced = refl

outside : parse plain (codes "file:src/../../etc") none ≡ err scope_error
unfolding program
outside = refl

read_schema :
    scope_in plain (
      object_of
        ((codes "kind", string (codes "schema")) ∷ (codes "key", string (codes "user id")) ∷ []))
    ≡ ok (record { kind = schema; key = codes "user-id"; display_label = none })
unfolding program
read_schema = refl

unexpected_field :
    scope_in plain (
      object_of (
        (codes "kind", string (codes "file"))
        ∷ (codes "key", string (codes "a"))
        ∷ (codes "owner", null)
        ∷ []))
    ≡ err scope_error
unfolding program
unexpected_field = refl
