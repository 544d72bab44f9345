-- ===== src/Json/Tests.antt =====
-- A search for secrets on a small payload.
use weft_mark.Prelude.{
  false, [], ◌∷◌, codes, text_eq, ok, err, ◌≡◌, refl, digits, ledger_service_error,
}
use weft_mark.Scope.Normalize.{Unicode}
use weft_mark.Json.{Json, Python, null, string, object_of, array_of}
use weft_mark.Json.Secret.{
  is_sensitive, ends_with, sensitive_paths, item_paths, field_paths, safe_payload, has_clean_keys,
  in_object, in_field, itself, accepted_payload-IsClean,
}

program : Unit {0}
unfolding is_sensitive ends_with sensitive_paths item_paths field_paths safe_payload has_clean_keys
    text_eq digits
program = tt

abbrev plain : Unicode
plain = record { nfkc = λ s. s; casefold = λ s. s }

abbrev python : Python
python = record {
  str = λ v. [];
  isoformat = λ t. [];
  fromisoformat = λ s. err ledger_service_error;
  dumps = λ v. ok (codes "{}");
  loads = λ s. ok null;
  has_secret = λ s. text_eq s (codes "sk-1");
}

-- A key is sensitive also by its end, and a text at any depth.
two_paths :
    sensitive_paths plain python
      (object_of (
        (codes "git-token", null)
        ∷ (codes "notes", array_of (null ∷ string (codes "sk-1") ∷ []))
        ∷ []))
      (codes "$")
    ≡ codes "$.git-token" ∷ codes "$.notes[1]" ∷ []
unfolding program
two_paths = refl

abbrev note : Json
note = object_of ((codes "note", string (codes "plain")) ∷ [])

note_accepted : safe_payload plain python note ≡ ok (codes "{}")
unfolding program
note_accepted = refl

accepted_payload-IsClean_example : text_eq (codes "plain") (codes "sk-1") ≡ false
accepted_payload-IsClean_example =
    accepted_payload-IsClean plain python note (string (codes "plain")) (codes "{}") note_accepted
      (in_object (in_field itself))
