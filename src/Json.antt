-- ===== src/Json.antt =====
-- The JSON values that are written to the ledger and read back, and what the payload codecs use of Python: a dictionary is
-- written with its keys in order, as `json.dumps(…, sort_keys=True)` does.
pub mod Secret
mod Tests
use weft_mark.Prelude.{
  ℕ, Bool, true, false, ◌==◌, Option, none, some, List, [], ◌∷◌, map, Text, text_eq, DateTime,
  Result, Error, ok, err, ◌>>=◌, ◌≡◌, ◌∙◌, refl, ap, inl, inr, arith, In, if◌then◌else◌, type_error,
  key_error, index_error, value_error, assertion_error,
}

-- The numbers of the payloads are natural numbers.
mutual
  pub data Json : Type 0 where
    null : Json
    boolean : Bool → Json
    number : ℕ → Json
    string : Text → Json
    array : Items → Json
    object : Fields → Json

  pub data Items : Type 0 where
    nil : Items
    item : Json → Items → Items

  pub data Fields : Type 0 where
    end : Fields
    field : Text → Json → Fields → Fields

-- The parts of Python that the codecs rest on: `str` of what is no string, `datetime.isoformat` and
-- `fromisoformat`, `json.dumps` and `loads`, and the search for `_SECRET_TEXT`.
pub record Python : Type 0 where
  pub str : Json → Text
  pub isoformat : DateTime → Text
  pub fromisoformat : Text → Result DateTime
  pub dumps : Json → Result Text
  pub loads : Text → Result Json
  pub has_secret : Text → Bool

-- `[…]`
abbrev pub items_of : List Json → Items
items_of [] = nil
items_of (v ∷ vs) = item v (items_of vs)

abbrev pub listed : Items → List Json
listed nil = []
listed (item v vs) = v ∷ listed vs

pub listed-items_of : (vs : List Json) → listed (items_of vs) ≡ vs
listed-items_of [] = refl
listed-items_of (v ∷ vs) = ap (λ rest. v ∷ rest) (listed-items_of vs)

abbrev pub array_of : List Json → Json
array_of vs = array (items_of vs)

-- `{key: value, …}`
abbrev pub fields_of : List (Text × Json) → Fields
fields_of [] = end
fields_of ((key, v) ∷ rest) = field key v (fields_of rest)

abbrev pub object_of : List (Text × Json) → Json
object_of fields = object (fields_of fields)

-- `[str(value) for value in values]`, written
abbrev pub array_of_texts : List Text → Json
array_of_texts texts = array_of (map (λ s. string s) texts)

abbrev pub keys : Fields → List Text
keys end = []
keys (field key v fields) = key ∷ keys fields

-- `data.get(key)`
unfoldable pub find : Text → Fields → Option Json
find key end = none
find key (field k v fields) = let rest = find key fields in if text_eq k key then some v else rest

abbrev pub or_key_error : Option Json → Result Json
or_key_error none = err key_error
or_key_error (some v) = ok v

-- `payload[key]`, which is a TypeError on what is no dictionary
abbrev pub at_key : Text → Json → Result Json
at_key key (object fields) = or_key_error (find key fields)
at_key key _ = err type_error

-- `for value in payload`: a string has its characters, a dictionary its keys.
abbrev pub iterated : Json → Result (List Json)
iterated (array vs) = ok (listed vs)
iterated (string s) = ok (map (λ c. string (c ∷ [])) s)
iterated (object fields) = ok (map (λ key. string key) (keys fields))
iterated _ = err type_error

-- `payload != 1`; `True` equals 1.
abbrev pub is_one : Json → Bool
is_one (number n) = n == 1
is_one (boolean b) = b
is_one _ = false

abbrev pub is_null : Json → Bool
is_null null = true
is_null _ = false

-- `tuple(read(value) for value in values)`
unfoldable pub each {ℓ} : {A : Type ℓ} → (Json → Result A) → List Json → Result (List A)
each read [] = ok []
each read (v ∷ vs) = do a ← read v; rest ← each read vs; ok (a ∷ rest)

-- `except (KeyError, TypeError, ValueError) as error: raise e`. The errors of this repository are ValueErrors.
abbrev is_caught : Error → Bool
is_caught index_error = false
is_caught assertion_error = false
is_caught _ = true

abbrev pub or_raise {ℓ} : {A : Type ℓ} → Result A → Error → Result A
or_raise (ok a) e = ok a
or_raise (err raised) e = err (if is_caught raised then e else raised)

module _ (python : Python) where
  -- `str(value)`
  abbrev pub text_of : Json → Text
  text_of (string s) = s
  text_of v = python.str v

  -- `str(payload[key])`
  abbrev pub text_at : Text → Json → Result Text
  text_at key payload = do v ← at_key key payload; ok (text_of v)

  -- `tuple(str(value) for value in payload[key])`
  abbrev pub texts_at : Text → Json → Result (List Text)
  texts_at key payload = do v ← at_key key payload; vs ← iterated v; ok (map text_of vs)

  pub texts_of_texts :
      (texts : List Text) → map text_of (listed (items_of (map (λ s. string s) texts))) ≡ texts
  texts_of_texts [] = refl
  texts_of_texts (s ∷ texts) = ap (λ rest. s ∷ rest) (texts_of_texts texts)

  -- `datetime.fromisoformat(str(payload[key]))`
  abbrev pub time_at : Text → Json → Result DateTime
  time_at key payload = do s ← text_at key payload; python.fromisoformat s

  -- `None if value is None else datetime.fromisoformat(str(value))`
  abbrev pub time_or_none : Json → Result (Option DateTime)
  time_or_none null = ok none
  time_or_none v = do t ← python.fromisoformat (text_of v); ok (some t)

  -- `None if value is None else str(value)`
  abbrev pub text_or_none : Json → Option Text
  text_or_none null = none
  text_or_none v = some (text_of v)

  -- `None if t is None else t.isoformat()`
  abbrev pub time_or_null : Option DateTime → Json
  time_or_null none = null
  time_or_null (some t) = string (python.isoformat t)

  abbrev pub text_or_null : Option Text → Json
  text_or_null none = null
  text_or_null (some s) = string s

  pub text_or_none-text_or_null : (o : Option Text) → text_or_none (text_or_null o) ≡ o
  text_or_none-text_or_null none = refl
  text_or_none-text_or_null (some s) = refl

  -- What `isoformat` writes, `fromisoformat` reads.
  abbrev pub IsoReads : Type 0
  IsoReads = (t : DateTime) → python.fromisoformat (python.isoformat t) ≡ ok t

  pub time_or_none-time_or_null :
      IsoReads → (o : Option DateTime) → time_or_none (time_or_null o) ≡ ok o
  time_or_none-time_or_null iso none = refl
  time_or_none-time_or_null iso (some t) = ap (λ r. r >>= some_time) (iso t)
    where
      some_time : DateTime → Result (Option DateTime)
      some_time t = ok (some t)

-- Values that are written and read back one by one.
pub each-written :
    {A : Type 0} (write : A → Json) (read : Json → Result A) (xs : List A)
    → ((a : A) → In a xs → read (write a) ≡ ok a)
    → each read (listed (items_of (map write xs))) ≡ ok xs
unfolding each
each-written write read [] back = refl
each-written write read (a ∷ xs) back =
    ground (arith, back a (inl refl), each-written write read xs (λ b i. back b (inr i)))
