-- ===== src/Claim/Names.antt =====
-- The ids of leases: a claim's id, a colon and a number. So the leases of two claims have different ids.
use weft_mark.Prelude.{
  ℕ, zero, suc, ◌+◌, ◌==◌, Bool, true, false, any, any-append, digits, decimal, List, [], ◌∷◌, ◌++◌,
  Text, text_eq, text_eq_iff, codes, DateTime, ok, ◌≡◌, ◌∙◌, sym, ap, refl, inl, inr, arith, In,
  Bool-cases, unbind, if◌then◌else◌,
}
use mathlib.Core.Path.{subst}
use mathlib.Core.List.{append_assoc}
use Prim.Native.Nat.{◌%◌, ◌/◌}
use weft_mark.Scope.{Scope}
use weft_mark.Lock.{SemanticLock, acquire, post_init}
use weft_mark.Lock.Outcomes.{post_init-eq-ok}
use weft_mark.Claim.Service.{leases}

abbrev is_colon : ℕ → Bool
is_colon c = c == b':'

-- What stands before the last colon.
abbrev pub name_of : Text → Text
name_of [] = []
name_of (c ∷ s) = let rest = name_of s in if any is_colon s then c ∷ rest else []

digit_no_colon : (n : ℕ) → is_colon (b'0' + n % 10) ≡ false
digit_no_colon n = ground arith

digits-no_colon :
    (fuel n : ℕ) (s : Text) → any is_colon s ≡ false → any is_colon (digits fuel n s) ≡ false
unfolding digits
digits-no_colon zero n s h = h
digits-no_colon (suc fuel) n s h =
    ground (arith, digit_no_colon n, digits-no_colon fuel (n / 10) ((b'0' + n % 10) ∷ s))

name_of-append : (a d : Text) → any is_colon d ≡ false → name_of (a ++ b':' ∷ d) ≡ a
name_of-append [] d h = ground (arith, h)
name_of-append (c ∷ a) d h =
    rw (any-append is_colon a (b':' ∷ d)) (ground (arith, name_of-append a d h))

-- Each lease of a claim is named after it.
pub name_of-lease : (id : Text) (index : ℕ) → name_of (id ++ codes ":" ++ decimal index) ≡ id
name_of-lease id index =
    ap name_of (append_assoc id (codes ":") (decimal index))
    ∙ name_of-append id (decimal index) (digits-no_colon (suc index) index [] refl)

-- What the constructor returns, it accepts.
pub post_init-valid : (l m : SemanticLock) → post_init l ≡ ok m → post_init m ≡ ok m
post_init-valid l m h = let same = post_init-eq-ok l m h in ap post_init same ∙ h

pub acquire-eq-ok :
    (id : Text) (scope : Scope) (agent_id session_id change_set_id : Text)
    (acquired_at expires_at : DateTime) (l : SemanticLock)
    → acquire id scope agent_id session_id change_set_id acquired_at expires_at ≡ ok l
    → (post_init l ≡ ok l) × (l.id ≡ id) × (l.scope ≡ scope) × (acquired_at.aware ≡ true)
unfolding acquire
acquire-eq-ok id scope agent_id session_id change_set_id acquired_at expires_at l e =
    let same = post_init-eq-ok _ l e in
    (
      post_init-valid _ l e,
      ap (λ (x : SemanticLock). x.id) same,
      ap (λ (x : SemanticLock). x.scope) same,
      unfold post_init in ground (arith, e),
    )

-- A lease that its constructor accepts, named after the claim.
pub record IsNamed (id : Text) (l : SemanticLock) : Type 0 where
  pub valid : post_init l ≡ ok l
  pub name : name_of l.id ≡ id

pub IsNamed-distinct :
    (a b : Text) (l m : SemanticLock)
    → text_eq a b ≡ false
    → IsNamed a l
    → IsNamed b m
    → text_eq l.id m.id ≡ false
IsNamed-distinct a b l m apart p q = elim (Bool-cases (text_eq l.id m.id)) [
  | inl same ↦
      let names = sym p.name ∙ ap name_of ((text_eq_iff l.id m.id).0 same) ∙ q.name in
      absurd (ground (arith, apart, (text_eq_iff a b).1 names))
  | inr other ↦ other
]

module _ (id agent_id session_id change_set_id : Text) (at expires_at : DateTime) where
  pub leases-IsNamed :
      (index : ℕ) (scopes : List Scope) (ls : List SemanticLock)
      → leases id agent_id session_id change_set_id at expires_at index scopes ≡ ok ls
      → (l : SemanticLock) → In l ls
      → IsNamed id l
  unfolding leases
  leases-IsNamed index [] ls e l m =
      let none : ls ≡ [] = ground (arith, e) in absurd (subst (In l) none m)
  leases-IsNamed index (scope ∷ scopes) ls e l m =
      let (lock, first, e1) =
        unbind
          {first = acquire (id ++ codes ":" ++ decimal index) scope agent_id session_id
            change_set_id at expires_at}
          e in
      let (locks, rest, e2) =
        unbind
          {first = leases id agent_id session_id change_set_id at expires_at (suc index) scopes}
          e1 in
      let is : ls ≡ lock ∷ locks = ground (arith, e2) in
      let (valid, named, _, _) =
        acquire-eq-ok (id ++ codes ":" ++ decimal index) scope agent_id session_id change_set_id at
          expires_at lock first in
      elim (subst (In l) is m) [
        | inl same ↦
            rw same (record { valid = valid; name = ap name_of named ∙ name_of-lease id index })
        | inr later ↦ leases-IsNamed (suc index) scopes locks rest l later
      ]
