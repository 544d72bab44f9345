-- ===== src/Claim/Payload/Back.antt =====
-- What is read back of a claim that was written.
use weft_mark.Prelude.{
  Option, none, some, Text, text_eq, DateTime, Result, ok, ◌>>=◌, ◌≡◌, ◌∙◌, sym, refl, ap, arith,
  In, unbind, ok-injective, claim_service_error,
}
use weft_mark.Scope.Normalize.{Unicode}
use weft_mark.Scope.Record.{IsStable, scope_in-to_dict}
use weft_mark.Lock.{SemanticLock, LockState, LockEvent, LockEventKind}
use weft_mark.Lock
use weft_mark.Json.{
  Json, find, Python, each-written, or_raise, IsoReads, time_or_none-time_or_null,
  text_or_none-text_or_null,
}
use weft_mark.Json.Secret.{safe_payload-dumps}
use weft_mark.Ledger.{Hashing}
use weft_mark.Claim.{Claim}
use weft_mark.Claim
use weft_mark.Claim.Landing.{IsFaithful}
use weft_mark.Claim.Payload.{
  state_value, state_of, kind_value, kind_of, event_to_payload, event_from_payload, lock_to_payload,
  lock_from_payload, written, observed_state, claim_to_payload, read_claim, claim_from_payload,
  claim_codec,
}

-- A call that returned, and what follows.
then_ok :
    {A B : Type 0} (r : Result A) (a : A) (k : A → Result B) (b : B)
    → r ≡ ok a
    → k a ≡ ok b
    → (r >>= k) ≡ ok b
then_ok r a k b e f = ap (λ x. x >>= k) e ∙ f

state_of-state_value : (s : LockState) → state_of (state_value s) ≡ ok s
unfolding state_of state_value text_eq
state_of-state_value LockState.active = refl
state_of-state_value LockState.released = refl
state_of-state_value LockState.expired = refl

kind_of-kind_value : (k : LockEventKind) → kind_of (kind_value k) ≡ ok k
unfolding kind_of kind_value text_eq
kind_of-kind_value LockEventKind.acquired = refl
kind_of-kind_value LockEventKind.reacquired = refl
kind_of-kind_value LockEventKind.renewed = refl
kind_of-kind_value LockEventKind.released = refl
kind_of-kind_value LockEventKind.expired = refl

module _ (u : Unicode) (python : Python) (iso : IsoReads python) where
  event-back :
      (event : LockEvent) → event_from_payload u python (event_to_payload u python event) ≡ ok event
  unfolding event_from_payload event_to_payload find text_eq
  event-back event = ground (
    arith,
    kind_of-kind_value event.kind,
    iso event.occurred_at,
    time_or_none-time_or_null python iso event.previous_expires_at,
    time_or_none-time_or_null python iso event.expires_at,
    text_or_none-text_or_null python event.reason,
  )

  lock-back :
      (lock : SemanticLock)
      → Lock.post_init lock ≡ ok lock
      → IsStable u lock.scope
      → lock_from_payload u python (lock_to_payload u python lock) ≡ ok lock
  unfolding lock_from_payload lock_to_payload find text_eq
  lock-back lock valid stable = ground (
    arith,
    scope_in-to_dict u lock.scope stable,
    iso lock.acquired_at,
    iso lock.expires_at,
    state_of-state_value lock.state,
    time_or_none-time_or_null python iso lock.updated_at,
    each-written (event_to_payload u python) (event_from_payload u python) lock.events
        (λ e i. event-back e),
    valid,
  )

  -- A claim that its constructor accepts, with leases that theirs accepts, on scopes that normalizing
  -- leaves as they are.
  pub record IsWritable (claim : Claim) : Type 0 where
    pub valid : Claim.post_init claim ≡ ok claim
    pub locks : (lock : SemanticLock) → In lock claim.locks → Lock.post_init lock ≡ ok lock
    pub scopes : (lock : SemanticLock) → In lock claim.locks → IsStable u lock.scope

  written-back :
      (claim : Claim) (observed : Option LockState)
      → IsWritable claim
      → read_claim u python (written u python claim observed) ≡ ok claim
  unfolding read_claim find text_eq
  written-back claim none w = ground (
    arith,
    each-written (lock_to_payload u python) (lock_from_payload u python) claim.locks
        (λ l i. lock-back l (w.locks l i) (w.scopes l i)),
    iso claim.updated_at,
    w.valid,
  )
  written-back claim (some s) w = ground (
    arith,
    each-written (lock_to_payload u python) (lock_from_payload u python) claim.locks
        (λ l i. lock-back l (w.locks l i) (w.scopes l i)),
    iso claim.updated_at,
    w.valid,
  )

  -- A claim that its constructors accept, on scopes that normalizing leaves as they are, is the one that
  -- is read back from its payload, also where the payload tells the state observed at a time.
  pub claim_from_payload-claim_to_payload :
      (claim : Claim) (observed_at : Option DateTime) (payload : Json)
      → IsWritable claim
      → claim_to_payload u python claim observed_at ≡ ok payload
      → claim_from_payload u python payload ≡ ok claim
  unfolding claim_from_payload claim_to_payload
  claim_from_payload-claim_to_payload claim observed_at payload w e =
      let (observed, _, e1) = unbind {first = observed_state u python claim observed_at} e in
      let is = ok-injective (written u python claim observed) payload e1 in
      ap (λ p. or_raise (read_claim u python p) claim_service_error) (sym is)
      ∙ ap (λ r. or_raise r claim_service_error) (written-back claim observed w)

  -- What `json.loads` makes of the text that `json.dumps` wrote for the claim's payload.
  pub IsLoaded : Claim → Type 0
  IsLoaded claim =
      (payload : Json) (text : Text)
      → claim_to_payload u python claim none ≡ ok payload
      → python.dumps payload ≡ ok text
      → python.loads text ≡ ok payload

  -- The claims that the ledger keeps read back as they were written.
  pub claim_codec-IsFaithful :
      (h : Hashing) (claim : Claim)
      → IsWritable claim
      → IsLoaded claim
      → IsFaithful h (claim_codec u python) claim
  unfolding IsLoaded
  claim_codec-IsFaithful h claim w loaded text e =
      let (payload, is_payload, e1) = unbind {first = claim_to_payload u python claim none} e in
      ap (λ r. r >>= claim_from_payload u python)
        (loaded payload text is_payload (safe_payload-dumps u python payload text e1))
      ∙ claim_from_payload-claim_to_payload claim none payload w is_payload
