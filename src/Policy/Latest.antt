-- ===== src/Policy/Latest.antt =====
-- The newest records of a list.
use weft_mark.Prelude.{
  ℕ, ◌≤◌, Bool, false, ◌==◌, ltb, if◌then◌else◌, List, [], ◌∷◌, ◌≡◌, ◌↔◌, ◌⊎◌, inl, inr, refl,
  arith, is_empty, In, In-select, In-of_In-select, sym, Bool-cases,
}
use weft_mark.Evidence.{Evidence}
use weft_mark.Policy.{latest_from, latest_records}

abbrev pub time_of : Evidence → ℕ
time_of e = e.updated_at.instant

-- No record of the list is newer.
abbrev pub IsNewest : Evidence → List Evidence → Type 0
IsNewest e es = (f : Evidence) → In f es → time_of f ≤ time_of e

latest_from-ge : (t : ℕ) (es : List Evidence) → t ≤ latest_from t es
unfolding latest_from
latest_from-ge t [] = omega arith
latest_from-ge t (e ∷ es) = ground (arith, latest_from-ge t es, latest_from-ge (time_of e) es)

latest_from_bound :
    (t : ℕ) (es : List Evidence) (e : Evidence) → In e es → time_of e ≤ latest_from t es
unfolding latest_from
latest_from_bound t [] e m = absurd m
latest_from_bound t (f ∷ es) e (inl same) =
    ground (arith, latest_from-ge t es, latest_from-ge (time_of f) es)
latest_from_bound t (f ∷ es) e (inr m) =
    latest_from_bound (if ltb t (time_of f) then time_of f else t) es e m

latest_from_attained :
    (t : ℕ) (es : List Evidence)
    → (latest_from t es ≡ t) ⊎ ((e : Evidence) × In e es × (time_of e ≡ latest_from t es))
unfolding latest_from
latest_from_attained t [] = inl refl
latest_from_attained t (f ∷ es) = elim (Bool-cases (ltb t (time_of f))) [
  | inl newer ↦ rw newer (elim (latest_from_attained (time_of f) es) [
    | inl same ↦ inr (f, inl refl, sym same)
    | inr (e, m, at) ↦ inr (e, inr m, at)
  ])
  | inr older ↦ rw older (elim (latest_from_attained t es) [
    | inl same ↦ inl same
    | inr (e, m, at) ↦ inr (e, inr m, at)
  ])
]

module _ (f : Evidence) (es : List Evidence) where
  abbrev latest_time : ℕ
  latest_time = latest_from (time_of f) es

  abbrev is_latest : Evidence → Bool
  is_latest r = time_of r == latest_time

  bounded : (e : Evidence) → In e (f ∷ es) → time_of e ≤ latest_time
  bounded e (inl same) = rw same (latest_from-ge (time_of f) es)
  bounded e (inr m) = latest_from_bound (time_of f) es e m

  attained : (e : Evidence) × In e (f ∷ es) × (time_of e ≡ latest_time)
  attained = elim (latest_from_attained (time_of f) es) [
    | inl same ↦ (f, inl refl, sym same)
    | inr (e, m, at) ↦ (e, inr m, at)
  ]

-- A record of the list is among the latest if none is newer.
pub In-latest_records :
    (e : Evidence) (es : List Evidence) → In e es → IsNewest e es → In e (latest_records es)
unfolding latest_records
In-latest_records e [] m newest = absurd m
In-latest_records e (f ∷ es) m newest =
    let (g, listed, at) = attained f es in
    In-select (is_latest f es) e (f ∷ es) m (ground (arith, newest g listed, bounded f es e m, at))

-- A latest record is in the list, and none of the list is newer.
pub IsNewest-of_In-latest_records :
    (e : Evidence) (es : List Evidence) → In e (latest_records es) → In e es × IsNewest e es
unfolding latest_records
IsNewest-of_In-latest_records e [] m = absurd m
IsNewest-of_In-latest_records e (f ∷ es) m =
    let (listed, latest) = In-of_In-select (is_latest f es) e (f ∷ es) m in
    (listed, λ g k. ground (arith, bounded f es g k, latest))

is_empty-In : {A : Type 0} (x : A) (xs : List A) → In x xs → is_empty xs ≡ false
is_empty-In x [] m = absurd m
is_empty-In x (y ∷ ys) m = refl

-- A record is among the latest of a list if and only if it is in the list and no record of the list is
-- newer.
pub In-latest_records_iff :
    (e : Evidence) (es : List Evidence) → In e (latest_records es) ↔ (In e es × IsNewest e es)
In-latest_records_iff e es =
    (IsNewest-of_In-latest_records e es, λ h. In-latest_records e es h.0 h.1)

-- There is a latest record where there is a record.
pub is_empty-latest_records : (es : List Evidence) → is_empty (latest_records es) ≡ is_empty es
unfolding latest_records
is_empty-latest_records [] = refl
is_empty-latest_records (f ∷ es) =
    let (g, listed, at) = attained f es in
    is_empty-In g _ (In-select (is_latest f es) g (f ∷ es) listed (ground (arith, at)))
