-- ===== src/Claim/Payload.antt =====
-- The claims as they are written to the ledger and read back: `claim_to_payload` and `claim_from_payload` of
-- src/weftmark/application/claims.py.
pub mod Back
use weft_mark.Prelude.{
  Bool, true, false, not, Option, none, some, List, [], ◌∷◌, map, Text, text_eq, codes, DateTime,
  Result, ok, err, ◌>>=◌, ◌>>◌, raise_if, if◌then◌else◌, claim_service_error, value_error,
}
use weft_mark.Scope.Normalize.{Unicode}
use weft_mark.Scope.Record.{to_dict, scope_in}
use weft_mark.Lock.{SemanticLock, LockState, LockEvent, LockEventKind}
use weft_mark.Lock
use weft_mark.Ledger.Store.{Codec}
use weft_mark.Json.{
  Json, Fields, null, number, string, object, end, field, Python, array_of, at_key, iterated, each,
  is_one, or_raise, text_at, time_at, time_or_none, text_or_none, time_or_null, text_or_null,
}
use weft_mark.Json.Secret.{safe_payload}
use weft_mark.Claim.{Claim, claim_state_at}
use weft_mark.Claim

-- `lock.state.value`
unfoldable pub state_value : LockState → Text
state_value LockState.active = codes "active"
state_value LockState.released = codes "released"
state_value LockState.expired = codes "expired"

-- `LockState(s)`
unfoldable pub state_of : Text → Result LockState
state_of s =
    if text_eq s (codes "active")
    then ok LockState.active
    else if text_eq s (codes "released")
    then ok LockState.released
    else if text_eq s (codes "expired")
    then ok LockState.expired
    else err value_error

-- `event.kind.value`
unfoldable pub kind_value : LockEventKind → Text
kind_value LockEventKind.acquired = codes "acquired"
kind_value LockEventKind.reacquired = codes "reacquired"
kind_value LockEventKind.renewed = codes "renewed"
kind_value LockEventKind.released = codes "released"
kind_value LockEventKind.expired = codes "expired"

-- `LockEventKind(s)`
unfoldable pub kind_of : Text → Result LockEventKind
kind_of s =
    if text_eq s (codes "acquired")
    then ok LockEventKind.acquired
    else if text_eq s (codes "reacquired")
    then ok LockEventKind.reacquired
    else if text_eq s (codes "renewed")
    then ok LockEventKind.renewed
    else if text_eq s (codes "released")
    then ok LockEventKind.released
    else if text_eq s (codes "expired")
    then ok LockEventKind.expired
    else err value_error

module _ (u : Unicode) (python : Python) where
  unfoldable pub event_to_payload : LockEvent → Json
  event_to_payload event = object (
      field (codes "expires_at") (time_or_null python event.expires_at) (
        field (codes "kind") (string (kind_value event.kind)) (
          field (codes "occurred_at") (string (python.isoformat event.occurred_at)) (
            field (codes "previous_expires_at") (time_or_null python event.previous_expires_at)
              (field (codes "reason") (text_or_null python event.reason) end)))))

  unfoldable pub event_from_payload : Json → Result LockEvent
  event_from_payload value = do
    kind_text ← text_at python (codes "kind") value
    kind ← kind_of kind_text
    occurred_at ← time_at python (codes "occurred_at") value
    previous ← at_key (codes "previous_expires_at") value
    previous_expires_at ← time_or_none python previous
    expiry ← at_key (codes "expires_at") value
    expires_at ← time_or_none python expiry
    reason ← at_key (codes "reason") value
    ok (record {
      kind = kind;
      occurred_at = occurred_at;
      previous_expires_at = previous_expires_at;
      expires_at = expires_at;
      reason = text_or_none python reason;
    })

  -- `_lock_to_payload`
  unfoldable pub lock_to_payload : SemanticLock → Json
  lock_to_payload lock = object (
      field (codes "acquired_at") (string (python.isoformat lock.acquired_at)) (
        field (codes "agent_id") (string lock.agent_id) (
          field (codes "change_set_id") (string lock.change_set_id) (
            field (codes "events") (array_of (map event_to_payload lock.events)) (
              field (codes "expires_at") (string (python.isoformat lock.expires_at)) (
                field (codes "id") (string lock.id) (
                  field (codes "scope") (to_dict lock.scope) (
                    field (codes "session_id") (string lock.session_id) (
                      field (codes "state") (string (state_value lock.state)) (
                        field (codes "updated_at") (time_or_null python lock.updated_at)
                          end))))))))))

  -- `_lock_from_payload`
  unfoldable pub lock_from_payload : Json → Result SemanticLock
  lock_from_payload payload = do
    id ← text_at python (codes "id") payload
    scope_value ← at_key (codes "scope") payload
    scope ← scope_in u scope_value
    agent_id ← text_at python (codes "agent_id") payload
    session_id ← text_at python (codes "session_id") payload
    change_set_id ← text_at python (codes "change_set_id") payload
    acquired_at ← time_at python (codes "acquired_at") payload
    expires_at ← time_at python (codes "expires_at") payload
    state_text ← text_at python (codes "state") payload
    state ← state_of state_text
    updated ← at_key (codes "updated_at") payload
    updated_at ← time_or_none python updated
    events_value ← at_key (codes "events") payload
    event_values ← iterated events_value
    events ← each event_from_payload event_values
    Lock.post_init (record {
      id = id;
      scope = scope;
      agent_id = agent_id;
      session_id = session_id;
      change_set_id = change_set_id;
      acquired_at = acquired_at;
      expires_at = expires_at;
      state = state;
      updated_at = updated_at;
      events = events;
    })

  -- The fields of a claim, without the observed state.
  abbrev pub claim_fields : Claim → Fields
  claim_fields claim = field (codes "id") (string claim.id) (
      field (codes "locks") (array_of (map lock_to_payload claim.locks)) (
        field (codes "schema_version") (number 1) (
          field (codes "session_id") (string claim.session_id)
            (field (codes "updated_at") (string (python.isoformat claim.updated_at)) end))))

  abbrev with_effective_state : Option LockState → Fields → Fields
  with_effective_state none fields = fields
  with_effective_state (some state) fields =
      field (codes "effective_state") (string (state_value state)) fields

  -- The payload, with the observed state where there is one.
  abbrev pub written : Claim → Option LockState → Json
  written claim state = object (
      field (codes "agent_id") (string claim.agent_id) (
        field (codes "change_set_id") (string claim.change_set_id)
          (with_effective_state state (claim_fields claim))))

  abbrev pub observed_state : Claim → Option DateTime → Result (Option LockState)
  observed_state claim none = ok none
  observed_state claim (some at) = do state ← claim_state_at claim at; ok (some state)

  unfoldable pub claim_to_payload : Claim → (observed_at : Option DateTime) → Result Json
  claim_to_payload claim observed_at = do
    state ← observed_state claim observed_at
    ok (written claim state)

  -- The body of the `try`
  unfoldable pub read_claim : Json → Result Claim
  read_claim payload = do
    version ← at_key (codes "schema_version") payload
    raise_if (not (is_one version)) value_error
    id ← text_at python (codes "id") payload
    change_set_id ← text_at python (codes "change_set_id") payload
    agent_id ← text_at python (codes "agent_id") payload
    session_id ← text_at python (codes "session_id") payload
    locks_value ← at_key (codes "locks") payload
    lock_values ← iterated locks_value
    locks ← each lock_from_payload lock_values
    updated_at ← time_at python (codes "updated_at") payload
    Claim.post_init (record {
      id = id;
      change_set_id = change_set_id;
      agent_id = agent_id;
      session_id = session_id;
      locks = locks;
      updated_at = updated_at;
    })

  unfoldable pub claim_from_payload : Json → Result Claim
  claim_from_payload payload = or_raise (read_claim payload) claim_service_error

  -- How ClaimService keeps a claim in the ledger.
  abbrev pub claim_codec : Codec Claim
  claim_codec = record {
    kind = codes "claim";
    encode = λ claim. claim_to_payload claim none >>= safe_payload u python;
    decode = λ text. python.loads text >>= claim_from_payload;
  }
