-- ===== src/Lock.antt =====
-- src/weftmark/domain/lock.py: lease ownership and conflict rules for canonical scopes.
pub mod Glob
pub mod Fuel
pub mod Overlap
pub mod Conflict
pub mod Gap
pub mod Outcomes
pub mod Lease
mod Tests
use weft_mark.Prelude.{
  ℕ, Bool, true, false, ◌&&◌, ◌||◌, not, Option, none, some, List, [], ◌∷◌, ◌++◌, Text, text_eq,
  require_text, require_texts, when_some, DateTime, precedes, require_aware, raise_if_before,
  raise_if_not_after, Result, ok, err, ◌>>=◌, ◌>>◌, raise_if, if◌then◌else◌, lock_error,
  invalid_lock_operation,
}
use weft_mark.Scope.{Scope}
use Overlap.{scopes_overlap}

pub data LockState : Type 0 where
  active released expired : LockState

pub data LockEventKind : Type 0 where
  acquired reacquired renewed released expired : LockEventKind

pub record LockEvent : Type 0 where
  pub kind : LockEventKind
  pub occurred_at : DateTime
  pub previous_expires_at : Option DateTime
  pub expires_at : Option DateTime
  pub reason : Option Text

pub record SemanticLock : Type 0 where
  pub id : Text
  pub scope : Scope
  pub agent_id : Text
  pub session_id : Text
  pub change_set_id : Text
  pub acquired_at : DateTime
  pub expires_at : DateTime
  pub state : LockState
  pub updated_at : Option DateTime
  pub events : List LockEvent

abbrev pub is_active : LockState → Bool
is_active LockState.active = true
is_active _ = false

abbrev pub is_expired : LockState → Bool
is_expired LockState.expired = true
is_expired _ = false

unfoldable pub post_init : SemanticLock → Result SemanticLock
post_init l = do
  require_texts lock_error (l.id ∷ l.agent_id ∷ l.session_id ∷ l.change_set_id ∷ [])
  require_aware lock_error l.acquired_at
  require_aware lock_error l.expires_at
  raise_if_not_after l.expires_at l.acquired_at lock_error
  when_some l.updated_at λ updated_at. do
    require_aware lock_error updated_at
    raise_if_before updated_at l.acquired_at lock_error
  ok l

unfoldable pub acquire :
    (id : Text) (scope : Scope) (agent_id session_id change_set_id : Text)
    (acquired_at expires_at : DateTime)
    → Result SemanticLock
acquire id scope agent_id session_id change_set_id acquired_at expires_at = post_init (record {
  id = id;
  scope = scope;
  agent_id = agent_id;
  session_id = session_id;
  change_set_id = change_set_id;
  acquired_at = acquired_at;
  expires_at = expires_at;
  state = LockState.active;
  updated_at = some acquired_at;
  events =
      record {
        kind = acquired;
        occurred_at = acquired_at;
        previous_expires_at = none;
        expires_at = some expires_at;
        reason = none;
      }
      ∷ [];
})

-- An active lease counts as expired from its last instant on, also before anybody records it.
unfoldable pub state_at : SemanticLock → DateTime → Result LockState
state_at self at = do
  require_aware lock_error at
  elim self.state [
    | LockState.active ↦ do
      early ← precedes at self.expires_at
      ok (if early then LockState.active else LockState.expired)
    | other ↦ ok other
  ]

unfoldable pub owns_scope_at : SemanticLock → DateTime → Result Bool
owns_scope_at self at = do state ← state_at self at; ok (is_active state)

-- `self.updated_at is not None and at < self.updated_at`
abbrev raise_if_reordered : SemanticLock → DateTime → Result (Unit {0})
raise_if_reordered self at =
    when_some self.updated_at (λ updated_at. raise_if_before at updated_at invalid_lock_operation)

-- `_require_active_lease`
abbrev require_active_lease : SemanticLock → DateTime → Result (Unit {0})
require_active_lease self at = do
  require_aware lock_error at
  raise_if (not (is_active self.state)) invalid_lock_operation
  raise_if_before at self.acquired_at invalid_lock_operation
  raise_if_reordered self at
  early ← precedes at self.expires_at
  raise_if (not early) invalid_lock_operation

unfoldable pub renew : SemanticLock → (at expires_at : DateTime) → Result SemanticLock
renew self at expires_at = do
  require_active_lease self at
  require_aware lock_error expires_at
  raise_if_not_after expires_at self.expires_at invalid_lock_operation
  post_init (record self {
    expires_at = expires_at;
    updated_at = some at;
    events =
        self.events
        ++ record {
          kind = renewed;
          occurred_at = at;
          previous_expires_at = some self.expires_at;
          expires_at = some expires_at;
          reason = none;
        }
          ∷ [];
  })

unfoldable pub reacquire : SemanticLock → (at expires_at : DateTime) → Result SemanticLock
reacquire self at expires_at = do
  require_aware lock_error at
  require_aware lock_error expires_at
  state ← state_at self at
  raise_if (not (is_expired state)) invalid_lock_operation
  raise_if_reordered self at
  raise_if_not_after expires_at at invalid_lock_operation
  post_init (record self {
    expires_at = expires_at;
    state = LockState.active;
    updated_at = some at;
    events =
        self.events
        ++ record {
          kind = reacquired;
          occurred_at = at;
          previous_expires_at = some self.expires_at;
          expires_at = some expires_at;
          reason = none;
        }
          ∷ [];
  })

unfoldable pub release : SemanticLock → (at : DateTime) (reason : Text) → Result SemanticLock
release self at reason = do
  require_text lock_error reason
  require_active_lease self at
  post_init (record self {
    state = LockState.released;
    updated_at = some at;
    events =
        self.events
        ++ record {
          kind = LockEventKind.released;
          occurred_at = at;
          previous_expires_at = some self.expires_at;
          expires_at = some self.expires_at;
          reason = some reason;
        }
          ∷ [];
  })

unfoldable pub observe_expiry : SemanticLock → (at : DateTime) → Result SemanticLock
observe_expiry self at = do
  require_aware lock_error at
  raise_if (not (is_active self.state)) invalid_lock_operation
  raise_if_before at self.expires_at invalid_lock_operation
  post_init (record self {
    state = LockState.expired;
    updated_at = some at;
    events =
        self.events
        ++ record {
          kind = LockEventKind.expired;
          occurred_at = self.expires_at;
          previous_expires_at = some self.expires_at;
          expires_at = some self.expires_at;
          reason = none;
        }
          ∷ [];
  })

unfoldable pub conflicts_with : SemanticLock → (other : SemanticLock) (at : DateTime) → Result Bool
conflicts_with self other at = if text_eq self.id other.id then ok false else do
  mine ← owns_scope_at self at
  if not mine
      then ok false
      else do theirs ← owns_scope_at other at; ok (theirs && scopes_overlap self.scope other.scope)
