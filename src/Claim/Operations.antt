-- ===== src/Claim/Operations.antt =====
-- The operations of ClaimService. An operation is given the moments of its eight attempts, and returns
-- the claim and the new file.
use weft_mark.Prelude.{
  ℕ, zero, suc, Bool, true, Option, none, some, List, select, is_empty, Text, text_eq, DateTime,
  Result, ok, err, ◌>>=◌, ◌>>◌, raise_if, map, claim_service_error, claim_precondition_changed,
  ledger_head_changed,
}
use weft_mark.Scope.{Scope}
use weft_mark.Scope.Normalize.{Unicode}
use weft_mark.Ledger.{Hashing, LedgerEntry, read_locked}
use weft_mark.Ledger.Store.{Moment, Codec}
use weft_mark.Binding.{ChangeBinding}
use weft_mark.Binding.Observe.{Git}
use weft_mark.Workspace.{require_change_set, amend_scope}
use weft_mark.Claim.{Claim, require_lease_seconds}
use weft_mark.Claim.Book.{get, latest_claims}
use weft_mark.Claim.Service.{
  append_claim, new_claim, prepare_acquire, prepare_renew, prepare_reacquire, prepare_release,
  widen,
}

-- What an operation leaves: the claim and the file.
abbrev pub Stored : Type 0
Stored = Claim × List LedgerEntry

-- `try: self._append(…) … except LedgerHeadChanged: …`
abbrev pub retry_or {ℓ} :
    {A : Type ℓ}
    → Result (List LedgerEntry)
    → (done : List LedgerEntry → Result A) (later : Result A) → Result A
retry_or (ok file) done later = done file
retry_or (err ledger_head_changed) done later = later
retry_or (err raised) done later = err raised

module _ (h : Hashing) (codec : Codec Claim) where
  -- One attempt after the other, from attempt number `k` on.
  unfoldable pub attempts :
      (prepare : List LedgerEntry → Result Claim) (world : ℕ → Moment) (left k : ℕ) → Result Stored
  attempts prepare world zero k = err claim_service_error
  attempts prepare world (suc left) k = do
    let later = attempts prepare world left (suc k)
    claim ← prepare (world k).seen
    retry_or (append_claim h codec claim (world k)) (λ file. ok (claim, file)) later

  unfoldable pub renew_claim :
      (id agent_id session_id : Text) (renewed_at : DateTime) (extend_seconds : ℕ)
      (world : ℕ → Moment)
      → Result Stored
  renew_claim id agent_id session_id renewed_at extend_seconds world = do
    require_lease_seconds extend_seconds
    attempts (prepare_renew h codec id agent_id session_id renewed_at extend_seconds) world 8 0

  -- A caller that expects a ledger digest is told that the ledger changed, and not served by another attempt.
  abbrev pub final_error : Option Text → Result Stored → Result Stored
  final_error none later = later
  final_error (some digest) later = err claim_precondition_changed

  unfoldable pub reacquire_attempts :
      (prepare : List LedgerEntry → Result Claim) (expected : Option Text) (world : ℕ → Moment)
      (left k : ℕ)
      → Result Stored
  reacquire_attempts prepare expected world zero k = err claim_service_error
  reacquire_attempts prepare expected world (suc left) k = do
    let later = reacquire_attempts prepare expected world left (suc k)
    claim ← prepare (world k).seen
    retry_or (append_claim h codec claim (world k)) (λ file. ok (claim, file))
        (final_error expected later)

  unfoldable pub reacquire_claim :
      (id agent_id session_id : Text) (reacquired_at : DateTime) (lease_seconds : ℕ)
      (expected : Option Text) (world : ℕ → Moment)
      → Result Stored
  reacquire_claim id agent_id session_id reacquired_at lease_seconds expected world = do
    require_lease_seconds lease_seconds
    reacquire_attempts
        (prepare_reacquire h codec id agent_id session_id reacquired_at lease_seconds expected)
        expected world 8 0

  unfoldable pub release_claim :
      (id agent_id session_id : Text) (released_at : DateTime) (reason : Text) (world : ℕ → Moment)
      → Result Stored
  release_claim id agent_id session_id released_at reason world =
      attempts (prepare_release h codec id agent_id session_id released_at reason) world 8 0

  -- `get`
  unfoldable pub get_claim : Text → List LedgerEntry → Result (Option Claim)
  get_claim id file = do
    snapshot ← read_locked h file
    book ← latest_claims codec snapshot
    ok (get id book)

  -- `value.change_set_id == change_set_id`, where there is one
  abbrev pub is_wanted : Option Text → Claim → Bool
  is_wanted none claim = true
  is_wanted (some change_set_id) claim = text_eq claim.change_set_id change_set_id

  -- `list`
  unfoldable pub list_claims :
      (change_set_id : Option Text) → List LedgerEntry → Result (List Claim)
  list_claims change_set_id file = do
    snapshot ← read_locked h file
    book ← latest_claims codec snapshot
    ok (select (is_wanted change_set_id) (map (λ (item : Text × Claim). item.1) book))

  -- With the Change Sets of the same ledger.
  module _ (git : Git) (bindings : Codec ChangeBinding) where
    -- `acquire`, where the Change Set is read from the file `opening`.
    unfoldable pub acquire_claim :
        Unicode
        → (change_set_id id agent_id session_id : Text) (acquired_at : DateTime) (lease_seconds : ℕ)
          (opening : List LedgerEntry) (world : ℕ → Moment)
        → Result Stored
    acquire_claim u change_set_id id agent_id session_id acquired_at lease_seconds opening world =
        do
          require_lease_seconds lease_seconds
          binding ← require_change_set git h bindings opening change_set_id
          claim ←
              new_claim h codec u binding.change_set.scopes id change_set_id agent_id session_id
                acquired_at lease_seconds
          attempts (prepare_acquire h codec claim acquired_at) world 8 0

    -- The attempts of `extend_scope`. `meanwhile` tells what becomes of the file after the append until the
    -- Change Set is amended.
    unfoldable pub extend_attempts :
        (prepare : List LedgerEntry → Result (Claim × List Scope)) (reason : Text)
        (extended_at : DateTime) (meanwhile : List LedgerEntry → Moment) (world : ℕ → Moment)
        (left k : ℕ)
        → Result (Claim × ChangeBinding × List LedgerEntry)
    extend_attempts prepare reason extended_at meanwhile world zero k = err claim_service_error
    extend_attempts prepare reason extended_at meanwhile world (suc left) k = do
      let later = extend_attempts prepare reason extended_at meanwhile world left (suc k)
      (extended, fresh) ← prepare (world k).seen
      retry_or (append_claim h codec extended (world k))
          (λ file. do
            (binding, longer) ←
                amend_scope git h bindings extended.change_set_id fresh reason extended_at
                  (meanwhile file)
            ok (extended, binding, longer))
          later

    -- `extend_scope`
    unfoldable pub extend_claim :
        (id : Text) (added_scopes : List Scope) (reason agent_id session_id : Text)
        (extended_at : DateTime) (meanwhile : List LedgerEntry → Moment) (world : ℕ → Moment)
        → Result (Claim × ChangeBinding × List LedgerEntry)
    extend_claim id added_scopes reason agent_id session_id extended_at meanwhile world = do
      raise_if (is_empty added_scopes) claim_service_error
      extend_attempts (widen h codec id added_scopes agent_id session_id extended_at) reason
          extended_at meanwhile world 8 0
