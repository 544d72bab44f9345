-- ===== src/Claim/Service.antt =====
-- What an attempt of an operation of ClaimService prepares from its snapshot, and how it appends it.
use weft_mark.Prelude.{
  ℕ, suc, ◌+◌, decimal, Bool, false, not, any, Option, none, some, List, [], ◌∷◌, ◌++◌, select,
  is_empty, length, Text, text_eq, codes, DateTime, precedes, add_seconds, Result, ok, err, ◌>>=◌,
  ◌>>◌, raise_if, if◌then◌else◌, claim_service_error, claim_precondition_changed, value_error,
  index_error,
}
use weft_mark.Scope.{Scope, same_identity}
use weft_mark.Scope.Normalize.{Unicode, parse}
use weft_mark.Lock.{SemanticLock, acquire, renew, reacquire, release, is_expired, is_active}
use weft_mark.Ledger.{Hashing, LedgerEntry, read_locked, head_digest}
use weft_mark.Ledger.Store.{Moment, Codec, record_if_head}
use weft_mark.Claim.{Claim, post_init, claim_state_at, require_owner}
use weft_mark.Claim.Book.{get, others, check_claims, latest_claims, require_claim, found}

-- `tuple(f(lock) for lock in locks)`, where `f` may raise
unfoldable pub each :
    (SemanticLock → Result SemanticLock) → List SemanticLock → Result (List SemanticLock)
each f [] = ok []
each f (l ∷ ls) = do m ← f l; ms ← each f ls; ok (m ∷ ms)

-- `max(lock.expires_at for lock in locks)`
unfoldable pub max_from : DateTime → List SemanticLock → Result DateTime
max_from t [] = ok t
max_from t (l ∷ ls) = do
  later ← precedes t l.expires_at
  max_from (if later then l.expires_at else t) ls

unfoldable pub max_expiry : List SemanticLock → Result DateTime
max_expiry [] = err value_error
max_expiry (l ∷ ls) = max_from l.expires_at ls

-- The leases on the scopes, numbered from an index on.
unfoldable pub leases :
    (claim_id agent_id session_id change_set_id : Text) (acquired_at expires_at : DateTime)
    (index : ℕ)
    → List Scope
    → Result (List SemanticLock)
leases claim_id agent_id session_id change_set_id acquired_at expires_at index [] = ok []
leases claim_id agent_id session_id change_set_id acquired_at expires_at index (scope ∷ scopes) = do
  lock ←
      acquire (claim_id ++ codes ":" ++ decimal index) scope agent_id session_id change_set_id
        acquired_at expires_at
  locks ←
      leases claim_id agent_id session_id change_set_id acquired_at expires_at (suc index) scopes
  ok (lock ∷ locks)

-- `tuple(Scope.parse(value) for value in scopes)`
unfoldable pub parse_scopes : Unicode → List Text → Result (List Scope)
parse_scopes u [] = ok []
parse_scopes u (text ∷ texts) = do
  scope ← parse u text none
  scopes ← parse_scopes u texts
  ok (scope ∷ scopes)

-- `Claim(id=claim.id, …, locks=locks, updated_at=at)`
abbrev pub changed : Claim → List SemanticLock → DateTime → Result Claim
changed claim locks at = post_init (record claim { locks = locks; updated_at = at })

module _ (h : Hashing) (codec : Codec Claim) where
  -- `_append`
  unfoldable pub append_claim : Claim → Moment → Result (List LedgerEntry)
  append_claim claim moment =
      record_if_head h codec claim.id claim claim.updated_at moment.seen moment.found

  -- The part of each attempt before the append.
  unfoldable pub prepare_acquire : Claim → (at : DateTime) → List LedgerEntry → Result Claim
  prepare_acquire claim at seen = do
    snapshot ← read_locked h seen
    current ← latest_claims codec snapshot
    raise_if (any (λ item. text_eq item.0 claim.id) current) claim_service_error
    check_claims at claim.locks current
    ok claim

  unfoldable pub prepare_renew :
      (id agent_id session_id : Text) (renewed_at : DateTime) (extend_seconds : ℕ)
      → List LedgerEntry
      → Result Claim
  prepare_renew id agent_id session_id renewed_at extend_seconds seen = do
    snapshot ← read_locked h seen
    claim ← require_claim codec snapshot id
    require_owner claim agent_id session_id
    latest ← max_expiry claim.locks
    locks ← each (λ lock. renew lock renewed_at (add_seconds latest extend_seconds)) claim.locks
    changed claim locks renewed_at

  -- `expected_ledger_digest is not None and actual_digest != expected_ledger_digest`
  abbrev pub has_moved : Option Text → Text → Bool
  has_moved none actual = false
  has_moved (some expected) actual = not (text_eq actual expected)

  unfoldable pub prepare_reacquire :
      (id agent_id session_id : Text) (reacquired_at : DateTime) (lease_seconds : ℕ)
      (expected : Option Text)
      → List LedgerEntry
      → Result Claim
  prepare_reacquire id agent_id session_id reacquired_at lease_seconds expected seen = do
    snapshot ← read_locked h seen
    raise_if (has_moved expected (head_digest snapshot)) claim_precondition_changed
    current ← latest_claims codec snapshot
    claim ← found codec (get id current)
    require_owner claim agent_id session_id
    state ← claim_state_at claim reacquired_at
    raise_if (not (is_expired state)) claim_service_error
    locks ←
        each (λ lock. reacquire lock reacquired_at (add_seconds reacquired_at lease_seconds))
          claim.locks
    reacquired ← changed claim locks reacquired_at
    check_claims reacquired_at locks (others id current)
    ok reacquired

  abbrev pub first_expiry : List SemanticLock → Result DateTime
  first_expiry [] = err index_error
  first_expiry (l ∷ ls) = ok l.expires_at

  -- The scopes that the claim does not hold yet.
  abbrev pub genuinely_new : Claim → List Scope → List Scope
  genuinely_new claim added =
      select (λ scope. not (any (λ (l : SemanticLock). same_identity l.scope scope) claim.locks))
        added

  -- The wider claim, and the scopes that are new.
  unfoldable pub widen :
      (id : Text) (added_scopes : List Scope) (agent_id session_id : Text) (extended_at : DateTime)
      → List LedgerEntry
      → Result (Claim × List Scope)
  widen id added_scopes agent_id session_id extended_at seen = do
    snapshot ← read_locked h seen
    current ← latest_claims codec snapshot
    claim ← found codec (get id current)
    require_owner claim agent_id session_id
    state ← claim_state_at claim extended_at
    raise_if (not (is_active state)) claim_service_error
    let fresh = genuinely_new claim added_scopes
    raise_if (is_empty fresh) claim_service_error
    expires_at ← first_expiry claim.locks
    new_locks ←
        leases id agent_id session_id claim.change_set_id extended_at expires_at
          (length claim.locks + 1) fresh
    check_claims extended_at new_locks (others id current)
    extended ← changed claim (claim.locks ++ new_locks) extended_at
    ok (extended, fresh)

  unfoldable pub prepare_release :
      (id agent_id session_id : Text) (released_at : DateTime) (reason : Text)
      → List LedgerEntry
      → Result Claim
  prepare_release id agent_id session_id released_at reason seen = do
    snapshot ← read_locked h seen
    claim ← require_claim codec snapshot id
    require_owner claim agent_id session_id
    locks ← each (λ lock. release lock released_at reason) claim.locks
    changed claim locks released_at

  -- `acquire`, with the scopes that the Change Set declares.
  unfoldable pub new_claim :
      Unicode
      → (scopes : List Text) (id change_set_id agent_id session_id : Text) (acquired_at : DateTime)
        (lease_seconds : ℕ)
      → Result Claim
  new_claim u scopes id change_set_id agent_id session_id acquired_at lease_seconds = do
    parsed ← parse_scopes u scopes
    locks ←
        leases id agent_id session_id change_set_id acquired_at
          (add_seconds acquired_at lease_seconds) 1 parsed
    post_init (record {
      id = id;
      change_set_id = change_set_id;
      agent_id = agent_id;
      session_id = session_id;
      locks = locks;
      updated_at = acquired_at;
    })
