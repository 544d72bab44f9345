-- ===== src/Lock/Outcomes.antt =====
-- What a successful operation on a lock returns, with `post_init` shut.
use weft_mark.Prelude.{Option, none, some, [], ◌∷◌, ◌++◌, Text, DateTime, ok, ◌≡◌, arith, ◌≤◌, ◌<◌}
use weft_mark.Lock.{
  SemanticLock, LockState, LockEventKind, post_init, renew, reacquire, release, reacquired, renewed,
  observe_expiry, state_at,
}

pub post_init-eq-ok : (l m : SemanticLock) → post_init l ≡ ok m → m ≡ l
unfolding post_init
post_init-eq-ok l m h = ground arith

pub post_init-bounds :
    (l m : SemanticLock) → post_init l ≡ ok m → l.acquired_at.instant < l.expires_at.instant
unfolding post_init
post_init-bounds l m h = ground arith

-- The lease after an event: its kind, when it occurred, and the expiry, state and update time it leaves.
abbrev pub logged :
    LockEventKind
    → (occurred_at expires_at : DateTime) (reason : Option Text) (state : LockState) (at : DateTime)
    → SemanticLock
    → SemanticLock
logged kind occurred_at expires_at reason state at self = record self {
  expires_at = expires_at;
  state = state;
  updated_at = some at;
  events =
      self.events
      ++ record {
        kind = kind;
        occurred_at = occurred_at;
        previous_expires_at = some self.expires_at;
        expires_at = some expires_at;
        reason = reason;
      }
        ∷ [];
}

-- `at` is not before the last event.
abbrev pub IsNext : Option DateTime → DateTime → Type 0
IsNext none at = Unit
IsNext (some t) at = t.instant ≤ at.instant

module _ (l m : SemanticLock) where
  pub renew-eq-ok :
      (at expires_at : DateTime)
      → renew l at expires_at ≡ ok m
      → (l.state ≡ LockState.active)
        × IsNext l.updated_at at
        × (at.instant < l.expires_at.instant)
        × (l.expires_at.instant < expires_at.instant)
        × (m ≡ logged renewed at expires_at none l.state at l)
  unfolding renew
  renew-eq-ok at expires_at h =
      ground (arith, post_init-eq-ok (logged renewed at expires_at none l.state at l) m)

  pub reacquire-eq-ok :
      (at expires_at : DateTime)
      → reacquire l at expires_at ≡ ok m
      → (state_at l at ≡ ok LockState.expired)
        × IsNext l.updated_at at
        × (at.instant < expires_at.instant)
        × (m ≡ logged reacquired at expires_at none LockState.active at l)
  unfolding reacquire
  reacquire-eq-ok at expires_at h =
      ground (arith, post_init-eq-ok (logged reacquired at expires_at none LockState.active at l) m)

  pub release-eq-ok :
      (at : DateTime) (reason : Text)
      → release l at reason ≡ ok m
      → (l.state ≡ LockState.active)
        × IsNext l.updated_at at
        × (at.instant < l.expires_at.instant)
        × (m ≡ logged LockEventKind.released at l.expires_at (some reason) LockState.released at l)
  unfolding release
  release-eq-ok at reason h = ground (
    arith,
    post_init-eq-ok
        (logged LockEventKind.released at l.expires_at (some reason) LockState.released at l) m,
  )

  pub observe_expiry-eq-ok :
      (at : DateTime)
      → observe_expiry l at ≡ ok m
      → (l.state ≡ LockState.active)
        × (l.expires_at.instant ≤ at.instant)
        × (m ≡ logged LockEventKind.expired l.expires_at l.expires_at none LockState.expired at l)
  unfolding observe_expiry
  observe_expiry-eq-ok at h = ground (
    arith,
    post_init-eq-ok
        (logged LockEventKind.expired l.expires_at l.expires_at none LockState.expired at l) m,
  )
