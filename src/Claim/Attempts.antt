-- ===== src/Claim/Attempts.antt =====
-- The attempts of an operation of ClaimService: each is one append to the ledger, or none.
use weft_mark.Prelude.{
  ℕ, zero, suc, ◌+◌, ◌≤◌, ◌<◌, Option, List, Text, DateTime, Result, ok, err, ◌>>=◌, ◌≡◌, ◌∙◌, sym,
  ap, refl, inl, inr, ◌⊎◌, arith, unbind, uncheck, ok-injective, ledger_head_changed,
}
use weft_mark.Scope.Normalize.{Unicode}
use weft_mark.Ledger.{Hashing, LedgerEntry}
use weft_mark.Ledger.Chain.{IsCollisionFree}
use weft_mark.Ledger.Store.{Moment, Codec}
use weft_mark.Binding.{ChangeBinding}
use weft_mark.Binding.Observe.{Git}
use weft_mark.Workspace.{require_change_set}
use weft_mark.Claim.{Claim, require_lease_seconds}
use weft_mark.Claim.Service.{
  append_claim, new_claim, prepare_acquire, prepare_renew, prepare_reacquire, prepare_release,
}
use weft_mark.Claim.Operations.{
  Stored, retry_or, final_error, attempts, reacquire_attempts, renew_claim, reacquire_claim,
  release_claim, acquire_claim,
}
use weft_mark.Claim.Landing.{IsFaithful}
use weft_mark.Claim.Run.{Prepares, Step}
use weft_mark.Claim.Lands.{IsPut, append_claim-IsPut}

-- An attempt whose append did not find its snapshot is followed by the next one; any other ends the loop.
pub retry_or-eq-ok :
    {A : Type 0} (r : Result (List LedgerEntry)) (done : List LedgerEntry → Result A)
    (later : Result A) (a : A)
    → retry_or r done later ≡ ok a
    → ((file : List LedgerEntry) × (r ≡ ok file) × (done file ≡ ok a))
      ⊎ ((r ≡ err ledger_head_changed) × (later ≡ ok a))
retry_or-eq-ok (ok file) done later a e = inl (file, refl, e)
retry_or-eq-ok (err raised) done later a e = inr (ground (arith, e), ground (arith, e))

module _ (h : Hashing) (codec : Codec Claim) where
  -- The attempt that was the last one.
  pub record Landed (prepare : List LedgerEntry → Result Claim) (world : ℕ → Moment) (from to : ℕ)
      (c : Claim) (file : List LedgerEntry) : Type 0 where
    pub attempt : ℕ
    not_before : from ≤ attempt
    before : attempt < to
    pub prepared : prepare (world attempt).seen ≡ ok c
    appended : append_claim h codec c (world attempt) ≡ ok file

  pub attempts-Landed :
      (prepare : List LedgerEntry → Result Claim) (world : ℕ → Moment) (left k : ℕ) (c : Claim)
      (file : List LedgerEntry)
      → attempts h codec prepare world left k ≡ ok (c, file)
      → Landed prepare world k (k + left) c file
  unfolding attempts
  attempts-Landed prepare world zero k c file e = cc
  attempts-Landed prepare world (suc left) k c file e =
      let later = attempts h codec prepare world left (suc k) in
      let (claim, prepared, e1) = unbind {first = prepare (world k).seen} e in
      elim (retry_or-eq-ok (append_claim h codec claim (world k)) (λ f. ok (claim, f)) later
        (c, file) e1) [
          | inl (f, appended, done) ↦
              let same = ok-injective (claim, f) (c, file) done in
              record {
                attempt = k;
                not_before = omega arith;
                before = omega arith;
                prepared = prepared ∙ ap (λ (p : Stored). ok p.0) same;
                appended =
                    ap (λ (p : Stored). append_claim h codec p.0 (world k)) (sym same)
                    ∙ appended
                    ∙ ap (λ (p : Stored). ok p.1) same;
              }
          | inr (_, next) ↦
              let x = attempts-Landed prepare world left (suc k) c file next in
              record {
                attempt = x.attempt;
                not_before = omega (arith, x.not_before);
                before = omega (arith, x.before);
                prepared = x.prepared;
                appended = x.appended;
              }
        ]

  -- A reacquisition that returns does what an operation that makes all its attempts would do.
  reacquire_attempts-attempts :
      (prepare : List LedgerEntry → Result Claim) (expected : Option Text) (world : ℕ → Moment)
      (left k : ℕ) (x : Stored)
      → reacquire_attempts h codec prepare expected world left k ≡ ok x
      → attempts h codec prepare world left k ≡ ok x
  unfolding attempts reacquire_attempts
  reacquire_attempts-attempts prepare expected world zero k x e = cc
  reacquire_attempts-attempts prepare expected world (suc left) k x e =
      let later = reacquire_attempts h codec prepare expected world left (suc k) in
      let next = attempts h codec prepare world left (suc k) in
      let (claim, prepared, e1) = unbind {first = prepare (world k).seen} e in
      let done : List LedgerEntry → Result Stored = λ f. ok (claim, f) in
      let rest : Claim → Result Stored =
        λ c. retry_or (append_claim h codec c (world k)) (λ f. ok (c, f)) next in
      ap (λ r. r >>= rest) prepared
      ∙ elim (retry_or-eq-ok (append_claim h codec claim (world k)) done
          (final_error h codec expected later) x e1) [
            | inl (f, appended, is_done) ↦ ap (λ r. retry_or r done next) appended ∙ is_done
            | inr (moved, final) ↦
                ap (λ r. retry_or r done next) moved
                ∙ reacquire_attempts-attempts prepare expected world left (suc k) x
                    (final_error-eq-ok expected later x final)
          ]
    where
      final_error-eq-ok :
          (o : Option Text) (later : Result Stored) (x : Stored)
          → final_error h codec o later ≡ ok x
          → later ≡ ok x
      final_error-eq-ok o later x e = ground (arith, e)

  -- What all operations on claims but `extend_scope` are asked.
  module _ (git : Git) (bindings : Codec ChangeBinding) (u : Unicode) where
    pub data Request : Type 0 where
      for_acquire :
          (change_set_id id agent_id session_id : Text) (lease_seconds : ℕ)
          (opening : List LedgerEntry)
          → Request
      for_renew : (id agent_id session_id : Text) (extend_seconds : ℕ) → Request
      for_reacquire :
          (id agent_id session_id : Text) (lease_seconds : ℕ) (expected : Option Text) → Request
      for_release : (id agent_id session_id reason : Text) → Request

    -- The operation that is asked for.
    abbrev pub serve : Request → DateTime → (ℕ → Moment) → Result Stored
    serve (for_acquire change_set_id id agent_id session_id secs opening) at world =
        acquire_claim h codec git bindings u change_set_id id agent_id session_id at secs opening
          world
    serve (for_renew id agent_id session_id secs) at world =
        renew_claim h codec id agent_id session_id at secs world
    serve (for_reacquire id agent_id session_id secs expected) at world =
        reacquire_claim h codec id agent_id session_id at secs expected world
    serve (for_release id agent_id session_id reason) at world =
        release_claim h codec id agent_id session_id at reason world

    -- One attempt's append was the step.
    record IsStep (world : ℕ → Moment) (at : DateTime) (c : Claim) (file : List LedgerEntry)
        : Type 0 where
      attempt : ℕ
      before : attempt < 8
      prepares : Prepares h codec u (world attempt).seen at c
      appended : append_claim h codec c (world attempt) ≡ ok file

    Landed-IsStep :
        (prepare : List LedgerEntry → Result Claim) (world : ℕ → Moment) (at : DateTime) (c : Claim)
        (file : List LedgerEntry)
        → ((seen : List LedgerEntry) → prepare seen ≡ ok c → Prepares h codec u seen at c)
        → Landed prepare world 0 8 c file
        → IsStep world at c file
    Landed-IsStep prepare world at c file names x = record {
      attempt = x.attempt;
      before = x.before;
      prepares = names (world x.attempt).seen x.prepared;
      appended = x.appended;
    }

    serve-IsStep :
        (request : Request) (at : DateTime) (world : ℕ → Moment) (c : Claim)
        (file : List LedgerEntry)
        → serve request at world ≡ ok (c, file)
        → IsStep world at c file
    unfolding acquire_claim renew_claim reacquire_claim release_claim
    serve-IsStep (for_acquire change_set_id id agent_id session_id secs opening) at world c file e =
        let (allowed, e1) = uncheck {first = require_lease_seconds secs} e in
        let (binding, declared, e2) =
          unbind {first = require_change_set git h bindings opening change_set_id} e1 in
        let (claim, made, e3) =
          unbind
            {first = new_claim h codec u binding.change_set.scopes id change_set_id agent_id
              session_id at secs}
            e2 in
        Landed-IsStep (prepare_acquire h codec claim at) world at c file
          (λ seen p.
            Prepares.by_acquire binding.change_set.scopes id change_set_id agent_id session_id secs
              claim made p)
          (attempts-Landed (prepare_acquire h codec claim at) world 8 0 c file e3)
    serve-IsStep (for_renew id agent_id session_id secs) at world c file e =
        let (allowed, e1) = uncheck {first = require_lease_seconds secs} e in
        let prepare = prepare_renew h codec id agent_id session_id at secs in
        Landed-IsStep prepare world at c file
          (λ seen p. Prepares.by_renew id agent_id session_id secs p)
          (attempts-Landed prepare world 8 0 c file e1)
    serve-IsStep (for_reacquire id agent_id session_id secs expected) at world c file e =
        let (allowed, e1) = uncheck {first = require_lease_seconds secs} e in
        let prepare = prepare_reacquire h codec id agent_id session_id at secs expected in
        Landed-IsStep prepare world at c file
          (λ seen p. Prepares.by_reacquire id agent_id session_id secs expected p)
          (attempts-Landed prepare world 8 0 c file
            (reacquire_attempts-attempts prepare expected world 8 0 (c, file) e1))
    serve-IsStep (for_release id agent_id session_id reason) at world c file e =
        let prepare = prepare_release h codec id agent_id session_id at reason in
        Landed-IsStep prepare world at c file
          (λ seen p. Prepares.by_release id agent_id session_id reason p)
          (attempts-Landed prepare world 8 0 c file e)

    -- Take an operation that acquires, renews, reacquires or releases a claim and returns, where no two
    -- digests of a snapshot and the file that its append found collide and the claim reads back
    -- as it was written. Then it appended once, in one of its eight attempts, and this append is
    -- a step from the file that the attempt found to the file that the operation leaves. The
    -- claims of the new file are those of the found one with the returned claim put under its id.
    pub operation_is_Step :
        (request : Request) (at : DateTime) (world : ℕ → Moment) (c : Claim)
        (file : List LedgerEntry)
        → ((k : ℕ) → IsCollisionFree h (world k).found (world k).seen)
        → IsFaithful h codec c
        → serve request at world ≡ ok (c, file)
        → (k : ℕ) × (k < 8)
          × Step h codec u (world k).found file at.instant
          × IsPut codec c (world k).found file
    operation_is_Step request at world c file free faithful e =
        let x = serve-IsStep request at world c file e in
        (
          x.attempt,
          x.before,
          Step.of_claim (world x.attempt).seen at c x.prepares x.appended (free x.attempt) faithful,
          append_claim-IsPut h codec u (world x.attempt).seen (world x.attempt).found file at c
              x.prepares x.appended (free x.attempt) faithful,
        )
