-- ===== src/Claim/Apart.antt =====
-- Leases that never own competing scopes at once, from some time on.
use weft_mark.Prelude.{
  ℕ, ◌≤◌, ltb, Bool, true, false, ◌&&◌, List, [], ◌∷◌, text_eq, DateTime, ok, ◌≡◌, ◌∙◌, refl, inl,
  inr, arith, In, unbind, uncheck, raise_if, claim_conflict, raise_if-passed,
}
use weft_mark.Lock.{SemanticLock, post_init, conflicts_with, is_active}
use weft_mark.Lock.Overlap.{scopes_overlap}
use weft_mark.Lock.Conflict.{conflicts_with_comm, scopes_overlap_comm, is_conflict}
use weft_mark.Claim.Book.{check_lock, check_locks}

-- The lease is active and not yet expired.
abbrev pub owns : SemanticLock → ℕ → Bool
owns l t = is_active l.state && ltb t l.expires_at.instant

-- At no time from `start` on do both own their scopes, if these compete.
pub record Apart (start : ℕ) (l m : SemanticLock) : Type 0 where
  pub never :
      (t : ℕ) → start ≤ t → (owns l t && (owns m t && scopes_overlap l.scope m.scope)) ≡ false

abbrev pub AllApart : ℕ → List SemanticLock → List SemanticLock → Type 0
AllApart start ls ms = (l m : SemanticLock) → In l ls → In m ms → Apart start l m

pub Apart-later : {s t : ℕ} {l m : SemanticLock} → s ≤ t → Apart s l m → Apart t l m
Apart-later le h = record { never = λ x k. h.never x (omega (arith, le, k)) }

pub Apart-comm : {s : ℕ} {l m : SemanticLock} → Apart s l m → Apart s m l
Apart-comm {s} {l} {m} h = record {
  never = λ x k. ground (arith, h.never x k, scopes_overlap_comm l.scope m.scope);
}

-- A lease that went on holding what it held stays apart.
pub Apart-kept :
    {s : ℕ} {l m n : SemanticLock} (at : ℕ)
    → s ≤ at
    → owns l at ≡ true
    → n.scope ≡ l.scope
    → Apart s l m
    → Apart at n m
Apart-kept {s} {l} {m} {n} at le held same h = record {
  never = λ x k. rw same (ground (arith, h.never at le));
}

-- A lease that is not active is apart from every other.
pub Apart-inactive : {s : ℕ} {l m : SemanticLock} → is_active l.state ≡ false → Apart s l m
Apart-inactive h = record { never = λ x k. ground (arith, h) }

-- The conflict test at one time decides for all later ones, since no lease comes to own a scope by the
-- passing of time.
pub Apart-checked :
    (n m : SemanticLock) (at : DateTime)
    → post_init n ≡ ok n
    → post_init m ≡ ok m
    → at.aware ≡ true
    → text_eq n.id m.id ≡ false
    → conflicts_with n m at ≡ ok false
    → Apart at.instant n m
Apart-checked n m at vn vm aware apart clear =
    let test = (conflicts_with_comm n m at vn vm aware).0 in
    let none_now : is_conflict n m at ≡ false = ground (arith, test, clear) in
    record { never = λ x k. ground (arith, none_now, apart) }

module _ (at : DateTime) (aware : at.aware ≡ true) where
  -- Is the second a valid lease with another id?
  abbrev pub IsOther : SemanticLock → SemanticLock → Type 0
  IsOther n m = (post_init m ≡ ok m) × (text_eq n.id m.id ≡ false)

  check_lock-Apart :
      (n : SemanticLock) (ms : List SemanticLock)
      → post_init n ≡ ok n
      → ((m : SemanticLock) → In m ms → IsOther n m)
      → check_lock at n ms ≡ ok tt
      → (m : SemanticLock) → In m ms
      → Apart at.instant n m
  unfolding check_lock
  check_lock-Apart n [] vn vms e m k = absurd k
  check_lock-Apart n (x ∷ ms) vn vms e m k =
      let (conflict, tested, e1) = unbind {first = conflicts_with n x at} e in
      let (passed, rest) = uncheck {first = raise_if conflict claim_conflict} e1 in
      let clear : conflicts_with n x at ≡ ok false =
        tested ∙ ground (arith, raise_if-passed conflict claim_conflict passed) in
      elim k [
        | inl same ↦
            rw same (Apart-checked n x at vn (vms x (inl refl)).0 aware (vms x (inl refl)).1 clear)
        | inr later ↦ check_lock-Apart n ms vn (λ y j. vms y (inr j)) rest m later
      ]

  pub check_locks-AllApart :
      (ns ms : List SemanticLock)
      → ((n : SemanticLock) → In n ns → post_init n ≡ ok n)
      → ((n m : SemanticLock) → In n ns → In m ms → IsOther n m)
      → check_locks at ns ms ≡ ok tt
      → AllApart at.instant ns ms
  unfolding check_locks
  check_locks-AllApart [] ms vns others e = λ l m j k. absurd j
  check_locks-AllApart (n ∷ ns) ms vns others e =
      let (first, rest) = uncheck e in
      λ l m j k. elim j [
        | inl same ↦
            rw same
              (check_lock-Apart n ms (vns n (inl refl)) (λ x i. others n x (inl refl) i) first m k)
        | inr later ↦
            check_locks-AllApart ns ms (λ x i. vns x (inr i)) (λ x y i o. others x y (inr i) o) rest
              l m later k
      ]
