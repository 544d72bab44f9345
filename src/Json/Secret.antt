-- ===== src/Json/Secret.antt =====
-- The search of src/weftmark/application/ledger.py for secrets in a payload, before it is written.
use weft_mark.Prelude.{
  ℕ, suc, Bool, true, false, ◌||◌, not, ◌==◌, any, is_empty, decimal, List, [], ◌∷◌, ◌++◌, map,
  Text, text_eq, codes, Result, ok, err, ◌>>◌, raise_if, ◌≡◌, refl, arith, if◌then◌else◌,
  ledger_service_error, uncheck, raise_if-passed,
}
use weft_mark.Scope.Normalize.{Unicode}
use weft_mark.Json.{
  Json, Items, Fields, null, boolean, number, string, array, object, nil, item, end, field, Python,
}

-- `_SENSITIVE_KEYS`
abbrev pub sensitive_keys : List Text
sensitive_keys =
    codes "api_key"
    ∷ codes "credential"
    ∷ codes "credentials"
    ∷ codes "password"
    ∷ codes "private_key"
    ∷ codes "secret"
    ∷ codes "token"
    ∷ []

-- `s.replace("-", "_")`
abbrev with_underscores : Text → Text
with_underscores s = map (λ c. if c == b'-' then b'_' else c) s

-- `s.endswith(t)`
unfoldable pub ends_with : Text → Text → Bool
ends_with [] t = text_eq [] t
ends_with (c ∷ s) t = let rest = ends_with s t in if text_eq (c ∷ s) t then true else rest

module _ (u : Unicode) (python : Python) where
  -- The tests of a key.
  unfoldable pub is_sensitive : Text → Bool
  is_sensitive key =
      let normalized = with_underscores (u.casefold key) in
      any (text_eq normalized) sensitive_keys
      || any (λ sensitive. ends_with normalized (codes "_" ++ sensitive)) sensitive_keys

  unfoldable mutual
    -- `_sensitive_paths`
    pub sensitive_paths : Json → (prefix : Text) → List Text
    sensitive_paths null prefix = []
    sensitive_paths (boolean b) prefix = []
    sensitive_paths (number n) prefix = []
    sensitive_paths (string s) prefix = if python.has_secret s then prefix ∷ [] else []
    sensitive_paths (array vs) prefix = item_paths vs prefix 0
    sensitive_paths (object fields) prefix = field_paths fields prefix

    -- The items of a list, from an index on.
    pub item_paths : Items → (prefix : Text) → (index : ℕ) → List Text
    item_paths nil prefix index = []
    item_paths (item v vs) prefix index =
        sensitive_paths v (prefix ++ codes "[" ++ decimal index ++ codes "]")
        ++ item_paths vs prefix (suc index)

    pub field_paths : Fields → (prefix : Text) → List Text
    field_paths end prefix = []
    field_paths (field key v fields) prefix =
        let path = prefix ++ codes "." ++ key in
        (if is_sensitive key then path ∷ [] else [])
        ++ (sensitive_paths v path ++ field_paths fields prefix)

  -- `_safe_draft` up to the draft: the text of the payload.
  unfoldable pub safe_payload : Json → Result Text
  safe_payload payload = do
    raise_if (not (is_empty (sensitive_paths payload (codes "$")))) ledger_service_error
    elim (python.dumps payload) [ err raised ↦ err ledger_service_error | ok text ↦ ok text ]

-- A value stands inside another: as itself, or in an item or a field of it, at any depth.
mutual
  pub data Inside (v : Json) : Json → Type 0 where
    itself : Inside v v
    in_array : {vs : Items} → InsideItems v vs → Inside v (array vs)
    in_object : {fields : Fields} → InsideFields v fields → Inside v (object fields)

  pub data InsideItems (v : Json) : Items → Type 0 where
    in_item : {w : Json} {vs : Items} → Inside v w → InsideItems v (item w vs)
    in_later : {w : Json} {vs : Items} → InsideItems v vs → InsideItems v (item w vs)

  pub data InsideFields (v : Json) : Fields → Type 0 where
    in_field :
        {key : Text} {w : Json} {fields : Fields} → Inside v w → InsideFields v (field key w fields)
    in_other :
        {key : Text} {w : Json} {fields : Fields}
        → InsideFields v fields
        → InsideFields v (field key w fields)

-- No key of the fields is sensitive.
unfoldable pub has_clean_keys : (is_sensitive : Text → Bool) → Fields → Bool
has_clean_keys is_sensitive end = true
has_clean_keys is_sensitive (field key v fields) =
    let rest = has_clean_keys is_sensitive fields in if is_sensitive key then false else rest

append-nil-left : {A : Type 0} (xs ys : List A) → xs ++ ys ≡ [] → (xs ≡ []) × (ys ≡ [])
append-nil-left [] ys e = (refl, e)
append-nil-left (x ∷ xs) ys e = cc

module _ (u : Unicode) (python : Python) where
  -- What has no sensitive paths: no secret text, and no sensitive key.
  abbrev pub IsClean : Json → Type 0
  IsClean (string s) = python.has_secret s ≡ false
  IsClean (object fields) = has_clean_keys (is_sensitive u python) fields ≡ true
  IsClean _ = Unit

  no_path : (b : Bool) (path : Text) → (if b then path ∷ [] else []) ≡ [] → b ≡ false
  no_path true path e = cc
  no_path false path e = refl

  fields-clean :
      (fields : Fields) (prefix : Text)
      → field_paths u python fields prefix ≡ []
      → has_clean_keys (is_sensitive u python) fields ≡ true
  unfolding field_paths has_clean_keys
  fields-clean end prefix e = refl
  fields-clean (field key v fields) prefix e =
      let path = prefix ++ codes "." ++ key in
      let keyed = if is_sensitive u python key then path ∷ [] else [] in
      let (own, later) =
        append-nil-left keyed
          (sensitive_paths u python v path ++ field_paths u python fields prefix) e in
      let (_, last) =
        append-nil-left (sensitive_paths u python v path) (field_paths u python fields prefix)
          later in
      ground (arith, no_path (is_sensitive u python key) path own, fields-clean fields prefix last)

  own-IsClean : (v : Json) (prefix : Text) → sensitive_paths u python v prefix ≡ [] → IsClean v
  unfolding sensitive_paths
  own-IsClean null prefix e = tt
  own-IsClean (boolean b) prefix e = tt
  own-IsClean (number n) prefix e = tt
  own-IsClean (string s) prefix e = no_path (python.has_secret s) prefix e
  own-IsClean (array vs) prefix e = tt
  own-IsClean (object fields) prefix e = fields-clean fields prefix e

  mutual
    unfolding sensitive_paths item_paths field_paths

    IsClean-Inside :
        (v w : Json) (prefix : Text)
        → Inside v w
        → sensitive_paths u python w prefix ≡ []
        → IsClean v
    IsClean-Inside v _ prefix itself e = own-IsClean v prefix e
    IsClean-Inside v (array vs) prefix (in_array m) e = IsClean-items v vs prefix 0 m e
    IsClean-Inside v (object fields) prefix (in_object m) e = IsClean-fields v fields prefix m e

    IsClean-items :
        (v : Json) (vs : Items) (prefix : Text) (index : ℕ)
        → InsideItems v vs
        → item_paths u python vs prefix index ≡ []
        → IsClean v
    IsClean-items v nil prefix index m e = elim m [ ]
    IsClean-items v (item w vs) prefix index m e =
        let place = prefix ++ codes "[" ++ decimal index ++ codes "]" in
        let (here, later) =
          append-nil-left (sensitive_paths u python w place)
            (item_paths u python vs prefix (suc index)) e in
        elim m [
          | in_item i ↦ IsClean-Inside v w place i here
          | in_later i ↦ IsClean-items v vs prefix (suc index) i later
        ]

    IsClean-fields :
        (v : Json) (fields : Fields) (prefix : Text)
        → InsideFields v fields
        → field_paths u python fields prefix ≡ []
        → IsClean v
    IsClean-fields v end prefix m e = elim m [ ]
    IsClean-fields v (field key w fields) prefix m e =
        let path = prefix ++ codes "." ++ key in
        let keyed = if is_sensitive u python key then path ∷ [] else [] in
        let (_, later) =
          append-nil-left keyed
            (sensitive_paths u python w path ++ field_paths u python fields prefix) e in
        let (here, last) =
          append-nil-left (sensitive_paths u python w path) (field_paths u python fields prefix)
            later in
        elim m [
          | in_field i ↦ IsClean-Inside v w path i here
          | in_other i ↦ IsClean-fields v fields prefix i last
        ]

  is_empty-nil : (xs : List Text) → not (is_empty xs) ≡ false → xs ≡ []
  is_empty-nil [] e = refl
  is_empty-nil (x ∷ xs) e = cc

  pub safe_payload-dumps :
      (payload : Json) (text : Text)
      → safe_payload u python payload ≡ ok text
      → python.dumps payload ≡ ok text
  unfolding safe_payload
  safe_payload-dumps payload text e =
      let paths = sensitive_paths u python payload (codes "$") in
      let (_, dumped) = uncheck {first = raise_if (not (is_empty paths)) ledger_service_error} e in
      ground (arith, dumped)

  -- In a payload that is accepted for the ledger, at any depth, no text is found to hold a secret and no
  -- dictionary has a key that is sensitive.
  pub accepted_payload-IsClean :
      (payload v : Json) (text : Text)
      → safe_payload u python payload ≡ ok text
      → Inside v payload
      → IsClean v
  unfolding safe_payload
  accepted_payload-IsClean payload v text e m =
      let paths = sensitive_paths u python payload (codes "$") in
      let (none_found, _) =
        uncheck {first = raise_if (not (is_empty paths)) ledger_service_error} e in
      IsClean-Inside v payload (codes "$") m (
        is_empty-nil paths (raise_if-passed (not (is_empty paths)) ledger_service_error none_found))
