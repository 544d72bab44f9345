-- ===== src/Scope/Record.antt =====
-- `Scope.to_dict` and `Scope.from_dict` of src/weftmark/domain/scope.py.
use weft_mark.Prelude.{
  Bool, not, all, Option, none, some, [], ◌∷◌, Text, text_eq, codes, mem_text, Result, ok, err,
  ◌>>=◌, ◌>>◌, raise_if, ◌≡◌, ◌∙◌, refl, scope_error, type_error,
}
use weft_mark.Scope.{Scope, ScopeKind, file, contract, boundary, schema, surface, value}
use weft_mark.Scope.Normalize.{Unicode, kind_of, make}
use weft_mark.Json.{Json, Fields, null, string, object, end, field, keys, find}

abbrev with_label : Option Text → Fields → Fields
with_label none fields = fields
with_label (some s) fields = field (codes "display_label") (string s) fields

-- `to_dict`
unfoldable pub to_dict : Scope → Json
to_dict self = object (
    with_label self.display_label
      (field (codes "key") (string self.key) (field (codes "kind") (string (value self.kind)) end)))

-- The dictionary has no unexpected fields.
abbrev is_expected : Fields → Bool
is_expected fields =
    all (λ key. mem_text key (codes "display_label" ∷ codes "key" ∷ codes "kind" ∷ []))
      (keys fields)

-- `ScopeKind(data["kind"])`
abbrev kind_in : Option Json → Result ScopeKind
kind_in (some (string s)) = kind_of s
kind_in _ = err scope_error

-- `data["key"]`, which is a string
abbrev key_in : Option Json → Result Text
key_in (some (string s)) = ok s
key_in _ = err scope_error

-- `data.get("display_label")`, which is None or a string
abbrev label_in : Option Json → Result (Option Text)
label_in none = ok none
label_in (some null) = ok none
label_in (some (string s)) = ok (some s)
label_in _ = err scope_error

-- `from_dict`
unfoldable pub from_dict : Unicode → Fields → Result Scope
from_dict u fields = do
  raise_if (not (is_expected fields)) scope_error
  kind ← kind_in (find (codes "kind") fields)
  key ← key_in (find (codes "key") fields)
  display_label ← label_in (find (codes "display_label") fields)
  make u kind key display_label

-- `Scope.from_dict(value)`. What is no mapping raises a TypeError or a ScopeError, and those who call it
-- catch both alike.
abbrev pub scope_in : Unicode → Json → Result Scope
scope_in u (object fields) = from_dict u fields
scope_in u _ = err type_error

-- Normalizing the scope again leaves it as it is.
abbrev pub IsStable : Unicode → Scope → Type 0
IsStable u s = make u s.kind s.key s.display_label ≡ ok s

from_dict-fields :
    (u : Unicode) (kind : ScopeKind) (key : Text) (label : Option Text)
    → scope_in u (to_dict (record { kind = kind; key = key; display_label = label }))
      ≡ make u kind key label
unfolding to_dict from_dict find text_eq kind_of value
from_dict-fields u file key none = refl
from_dict-fields u contract key none = refl
from_dict-fields u boundary key none = refl
from_dict-fields u schema key none = refl
from_dict-fields u surface key none = refl
from_dict-fields u file key (some s) = refl
from_dict-fields u contract key (some s) = refl
from_dict-fields u boundary key (some s) = refl
from_dict-fields u schema key (some s) = refl
from_dict-fields u surface key (some s) = refl

-- A scope that normalizing leaves as it is can be written to a dictionary and read back.
pub scope_in-to_dict : (u : Unicode) (s : Scope) → IsStable u s → scope_in u (to_dict s) ≡ ok s
scope_in-to_dict u s stable = from_dict-fields u s.kind s.key s.display_label ∙ stable
