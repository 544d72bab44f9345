-- ===== src/Lock/Lease.antt =====
-- The history of a lease: its events are in order, and the last one says in what state it is.
use weft_mark.Prelude.{
  ℕ, true, false, Option, none, some, List, [], ◌∷◌, ◌++◌, Text, DateTime, ok, ◌≡◌, ◌≢◌, sym, ap,
  ◌∙◌, arith, ◌≤◌, ◌<◌, refl, last?, last?-append,
}
use weft_mark.Scope.{Scope}
use weft_mark.Lock.{
  SemanticLock, LockState, LockEvent, LockEventKind, acquire, renew, reacquire, release,
  observe_expiry, state_at, owns_scope_at, reacquired, renewed,
}
use weft_mark.Lock.Outcomes.{
  logged, post_init-eq-ok, post_init-bounds, renew-eq-ok, reacquire-eq-ok, release-eq-ok,
  observe_expiry-eq-ok,
}

-- One successful operation on a lease, at the time when it was made.
pub data Step (l m : SemanticLock) : DateTime → Type 0 where
  by_renew : (at expires_at : DateTime) → renew l at expires_at ≡ ok m → Step l m at
  by_reacquire : (at expires_at : DateTime) → reacquire l at expires_at ≡ ok m → Step l m at
  by_release : (at : DateTime) (reason : Text) → release l at reason ≡ ok m → Step l m at
  by_expiry : (at : DateTime) → observe_expiry l at ≡ ok m → Step l m at

pub data Reach (l : SemanticLock) : SemanticLock → Type 0 where
  here : Reach l l
  next : {m n : SemanticLock} {at : DateTime} → Reach l m → Step m n at → Reach l n

abbrev pub IsChronological : ℕ → List LockEvent → ℕ → Type 0
IsChronological t [] u = t ≤ u
IsChronological t (e ∷ es) u =
    (t ≤ e.occurred_at.instant) × IsChronological e.occurred_at.instant es u

-- The state that an event leaves.
abbrev pub left_by : LockEventKind → LockState
left_by LockEventKind.released = LockState.released
left_by LockEventKind.expired = LockState.expired
left_by _ = LockState.active

abbrev pub last_state : Option LockEvent → Option LockState
last_state none = none
last_state (some e) = some (left_by e.kind)

pub record IsOrderly (l : SemanticLock) : Type 0 where
  pub at : DateTime
  pub updated : l.updated_at ≡ some at
  -- The events are in order of time, from the acquisition to the last update.
  pub times : IsChronological l.acquired_at.instant l.events at.instant
  -- While the lease is active, its last update is before its expiry.
  pub running : l.state ≡ LockState.active → at.instant < l.expires_at.instant
  -- The last event is the one that left the lease in its state.
  pub settled : last_state (last? l.events) ≡ some l.state
  -- The lease does not end before it began.
  pub begun : l.acquired_at.instant < l.expires_at.instant

IsChronological-snoc :
    (t u v : ℕ) (es : List LockEvent) (e : LockEvent)
    → IsChronological t es u
    → u ≤ e.occurred_at.instant
    → e.occurred_at.instant ≤ v
    → IsChronological t (es ++ e ∷ []) v
IsChronological-snoc t u v [] e c h k = omega arith
IsChronological-snoc t u v (f ∷ fs) e c h k = (c.0, IsChronological-snoc _ u v fs e c.1 h k)

logged-IsOrderly :
    (l : SemanticLock) (h : IsOrderly l) (kind : LockEventKind) (occurred_at expires_at : DateTime)
    (reason : Option Text) (state : LockState) (at : DateTime)
    → h.at.instant ≤ occurred_at.instant
    → occurred_at.instant ≤ at.instant
    → left_by kind ≡ state
    → l.acquired_at.instant < expires_at.instant
    → (state ≡ LockState.active → at.instant < expires_at.instant)
    → IsOrderly (logged kind occurred_at expires_at reason state at l)
logged-IsOrderly l h kind occurred_at expires_at reason state at early late leaves begun running =
    record {
      at = at;
      updated = refl;
      times = IsChronological-snoc _ h.at.instant _ l.events _ h.times early late;
      running = running;
      settled = rw last?-append (ground arith);
      begun = begun;
    }

IsChronological-bounds : (t u : ℕ) (es : List LockEvent) → IsChronological t es u → t ≤ u
IsChronological-bounds t u [] c = c
IsChronological-bounds t u (f ∷ fs) c = omega (arith, c.0, IsChronological-bounds _ u fs c.1)

first_le : {l : SemanticLock} (h : IsOrderly l) → l.acquired_at.instant ≤ h.at.instant
first_le {l} h = IsChronological-bounds _ _ l.events h.times

acquire-IsOrderly :
    (id : Text) (scope : Scope) (agent_id session_id change_set_id : Text)
    (acquired_at expires_at : DateTime) (l : SemanticLock)
    → acquire id scope agent_id session_id change_set_id acquired_at expires_at ≡ ok l
    → IsOrderly l
unfolding acquire
acquire-IsOrderly id scope agent_id session_id change_set_id acquired_at expires_at l e =
    let is = post_init-eq-ok _ l e in
    let begun = post_init-bounds _ l e in
    rw is (record {
      at = acquired_at;
      updated = refl;
      times = (omega arith, omega arith);
      running = λ a. begun;
      settled = refl;
      begun = begun;
    })

Step-IsOrderly : {l m : SemanticLock} {at : DateTime} → IsOrderly l → Step l m at → IsOrderly m
Step-IsOrderly {l} {m} h (by_renew at expires_at e) =
    let (was, after, early, longer, is) = renew-eq-ok l m at expires_at e in
    rw is (
      logged-IsOrderly l h renewed at expires_at none l.state at (rw h.updated at after)
        (omega arith) (sym was) (omega (arith, h.begun)) (λ a. omega arith))
Step-IsOrderly {l} {m} h (by_reacquire at expires_at e) =
    let (was, after, early, is) = reacquire-eq-ok l m at expires_at e in
    rw is (
      logged-IsOrderly l h reacquired at expires_at none LockState.active at (rw h.updated at after)
        (omega arith) refl (omega (arith, first_le h, rw h.updated at after)) (λ a. early))
Step-IsOrderly {l} {m} h (by_release at reason e) =
    let (was, after, early, is) = release-eq-ok l m at reason e in
    rw is (
      logged-IsOrderly l h LockEventKind.released at l.expires_at (some reason) LockState.released
        at (rw h.updated at after) (omega arith) refl h.begun (λ a. cc))
Step-IsOrderly {l} {m} h (by_expiry at e) =
    let (was, late, is) = observe_expiry-eq-ok l m at e in
    rw is (
      logged-IsOrderly l h LockEventKind.expired l.expires_at l.expires_at none LockState.expired at
        (omega (arith, h.running was)) late refl h.begun (λ a. cc))

Reach-IsOrderly : {l m : SemanticLock} → IsOrderly l → Reach l m → IsOrderly m
Reach-IsOrderly h here = h
Reach-IsOrderly h (next r s) = Step-IsOrderly (Reach-IsOrderly h r) s

-- From an acquired lease, after any successful operations: the events are in the order of time from
-- the acquisition to the last update, the last event is the one that leaves the lease in its
-- state, the expiry is after the acquisition, and an active lease was last updated before its
-- expiry.
pub Reach-acquire-IsOrderly :
    (id : Text) (scope : Scope) (agent_id session_id change_set_id : Text)
    (acquired_at expires_at : DateTime) (l m : SemanticLock)
    → acquire id scope agent_id session_id change_set_id acquired_at expires_at ≡ ok l
    → Reach l m
    → IsOrderly m
Reach-acquire-IsOrderly id scope agent_id session_id change_set_id acquired_at expires_at l m e r =
    Reach-IsOrderly
      (acquire-IsOrderly id scope agent_id session_id change_set_id acquired_at expires_at l e) r

released_not_expired :
    (l : SemanticLock) (at : DateTime)
    → l.state ≡ LockState.released
    → state_at l at ≢ ok LockState.expired
unfolding state_at
released_not_expired l at e s = ground arith

not-Step-released :
    {l m : SemanticLock} {at : DateTime} → l.state ≡ LockState.released → ¬ Step l m at
not-Step-released {l} {m} e (by_renew at expires_at s) =
    ground (arith, renew-eq-ok l m at expires_at s)
not-Step-released {l} {m} e (by_reacquire at expires_at s) =
    released_not_expired l at e (reacquire-eq-ok l m at expires_at s).0
not-Step-released {l} {m} e (by_release at reason s) = ground (arith, release-eq-ok l m at reason s)
not-Step-released {l} {m} e (by_expiry at s) = ground (arith, observe_expiry-eq-ok l m at s)

-- Successful operations lead from a released lease to nothing but itself, and it owns its scope at no
-- aware time.
pub released_is_final :
    (l m : SemanticLock) (at : DateTime)
    → l.state ≡ LockState.released
    → at.aware ≡ true
    → Reach l m
    → (m ≡ l) × (owns_scope_at m at ≡ ok false)
unfolding owns_scope_at state_at
released_is_final l m at e aware here = (refl, ground arith)
released_is_final l m at e aware (next {m = d} r s) =
    let (same, _) = released_is_final l d at e aware r in
    absurd (not-Step-released (ap (λ (x : SemanticLock). x.state) same ∙ e) s)
