-- ===== src/Prelude/Errors.antt =====
-- The exceptions that the modelled Python code raises, and results of code that may raise one. An
-- exception is its class; the text of its message is not modelled.
use mathlib.Core.Path.{◌≡◌, refl, ap}
use mathlib.Core.Logic.{◌⊎◌, inl, inr}
use mathlib.Core.Bool.{Bool, true, false}
use mathlib.Core.Option.{Option, none, some}

-- The first five are Python's own: for example a comparison of an aware and a naive datetime, a key that a
-- dictionary lacks, `xs[-1]` and `max` of an empty sequence, and a failed `assert`.
pub data Error : Type 0 where
  type_error key_error index_error value_error assertion_error : Error
  change_set_error invalid_transition invalid_lineage_change : Error
  evidence_error invalid_evidence_transition evidence_policy_error : Error
  lock_error invalid_lock_operation : Error
  review_error invalid_finding_operation invalid_review_decision : Error
  task_error scope_error task_service_error : Error
  claim_service_error claim_conflict claim_precondition_changed : Error
  workspace_error ledger_service_error : Error
  change_binding_error scope_audit_error task_planning_error : Error
  ledger_head_changed ledger_corruption ledger_contract_error : Error

-- What a call returns, or the exception that it raises.
pub data Result {ℓ} (Value : Type ℓ) : Type ℓ where
  err : Error → Result Value
  ok : Value → Result Value

infixl 5 ◌>>=◌ ◌>>◌
-- The statements after a call run on what it returned; an exception skips them.
abbrev pub ◌>>=◌ {ℓ κ} :
    {Value : Type ℓ} {Final : Type κ} → Result Value → (Value → Result Final) → Result Final
err raised >>= continue = err raised
ok value >>= continue = continue value

-- The same, after a check that returns nothing of interest.
abbrev pub ◌>>◌ {ℓ} : {Final : Type ℓ} → Result (Unit {0}) → Result Final → Result Final
err raised >> continue = err raised
ok value >> continue = continue

-- `if b: raise e`
abbrev pub raise_if : Bool → Error → Result (Unit {0})
raise_if true e = err e
raise_if false e = ok tt

-- `if value is not None: check(value)`
abbrev pub when_some {ℓ} : {A : Type ℓ} → Option A → (A → Result (Unit {0})) → Result (Unit {0})
when_some none check = ok tt
when_some (some a) check = check a

-- A call returns or raises.
pub Result-cases {ℓ} :
    {Value : Type ℓ} (r : Result Value)
    → ((value : Value) × (r ≡ ok value)) ⊎ ((raised : Error) × (r ≡ err raised))
Result-cases (err raised) = inr (raised, refl)
Result-cases (ok value) = inl (value, refl)

-- A sequence that returns: its first call returned, and so did what follows.
pub unbind {ℓ κ} :
    {Value : Type ℓ} {Final : Type κ} {first : Result Value} {continue : Value → Result Final}
    {final : Final}
    → (first >>= continue) ≡ ok final
    → (value : Value) × (first ≡ ok value) × (continue value ≡ ok final)
unbind {first = err raised} e = cc
unbind {first = ok value} e = (value, refl, e)

pub uncheck {κ} :
    {Final : Type κ} {first : Result (Unit {0})} {continue : Result Final} {final : Final}
    → (first >> continue) ≡ ok final
    → (first ≡ ok tt) × (continue ≡ ok final)
uncheck {first = err raised} e = cc
uncheck {first = ok tt} e = (refl, e)

pub raise_if-passed : (b : Bool) (e : Error) → raise_if b e ≡ ok tt → b ≡ false
raise_if-passed true e h = cc
raise_if-passed false e h = refl

pub ok-injective {ℓ} : {Value : Type ℓ} (a b : Value) → ok a ≡ ok b → a ≡ b
ok-injective {Value = Value} a b e = ap (λ r. value_or r) e
  where
    value_or : Result Value → Value
    value_or (err raised) = a
    value_or (ok value) = value
