-- ===== src/Claim.antt =====
-- src/weftmark/application/claims.py: a claim is what a session holds of a Change Set's scopes, one lease for
-- each scope.
pub mod Book
pub mod Payload
pub mod Service
pub mod Operations
pub mod Apart
pub mod Names
pub mod Keep
pub mod Prepared
pub mod Landing
pub mod Lands
pub mod Run
pub mod Attempts
pub mod Extension
pub mod Bounds
mod Tests
use weft_mark.Prelude.{
  ℕ, ltb, ◌==◌, Bool, true, false, ◌&&◌, ◌||◌, not, List, [], ◌∷◌, map, any, all, is_empty,
  has_duplicates, Text, text_eq, is_blank, DateTime, require_aware, Result, ok, err, ◌>>=◌, ◌>>◌,
  raise_if, claim_service_error,
}
use weft_mark.Scope.{Scope, same_identity}
use weft_mark.Lock.{SemanticLock, LockState, state_at}

pub record Claim : Type 0 where
  pub id : Text
  pub change_set_id : Text
  pub agent_id : Text
  pub session_id : Text
  pub locks : List SemanticLock
  pub updated_at : DateTime

-- The lock is held for the claim's Change Set, agent and session.
abbrev is_of : Claim → SemanticLock → Bool
is_of c l =
    text_eq l.change_set_id c.change_set_id
    && (text_eq l.agent_id c.agent_id && text_eq l.session_id c.session_id)

unfoldable pub post_init : Claim → Result Claim
post_init c = do
  raise_if (is_blank c.id) claim_service_error
  raise_if (is_empty c.locks) claim_service_error
  raise_if (any (λ (l : SemanticLock). not (is_of c l)) c.locks) claim_service_error
  raise_if (has_duplicates same_identity (map (λ (l : SemanticLock). l.scope) c.locks))
      claim_service_error
  require_aware claim_service_error c.updated_at
  ok c

abbrev state_place : LockState → ℕ
state_place LockState.active = 0
state_place LockState.released = 1
state_place LockState.expired = 2

-- `{lock.state_at(at) for lock in self.locks}`, with repetitions
unfoldable pub states_at : List SemanticLock → DateTime → Result (List LockState)
states_at [] at = ok []
states_at (l ∷ ls) at = do s ← state_at l at; ss ← states_at ls at; ok (s ∷ ss)

-- The one member of the set.
abbrev pub the_state : List LockState → Result LockState
the_state [] = err claim_service_error
the_state (s ∷ ss) = do
  raise_if (not (all (λ t. state_place t == state_place s) ss)) claim_service_error
  ok s

-- `claim.state_at`
unfoldable pub claim_state_at : Claim → DateTime → Result LockState
claim_state_at self at = do states ← states_at self.locks at; the_state states

-- `_require_lease_seconds`
abbrev pub require_lease_seconds : ℕ → Result (Unit {0})
require_lease_seconds value = raise_if (ltb value 1 || ltb 604_800 value) claim_service_error

-- `_require_owner`
abbrev pub require_owner : Claim → (agent_id session_id : Text) → Result (Unit {0})
require_owner claim agent_id session_id =
    raise_if (not (text_eq claim.agent_id agent_id) || not (text_eq claim.session_id session_id))
      claim_service_error
