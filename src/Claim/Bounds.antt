-- ===== src/Claim/Bounds.antt =====
-- How long the leases of a claim last.
use mathlib.Core.Path.{subst}
use weft_mark.Prelude.{
  ℕ, suc, ◌+◌, ◌*◌, ◌≤◌, ◌||◌, ltb, any, List, [], ◌∷◌, ◌++◌, codes, decimal, Text, text_eq,
  DateTime, add_seconds, ok, ◌≡◌, ◌∙◌, sym, ap, inl, inr, arith, In, unbind, uncheck, raise_if,
  raise_if-passed, ok-injective, claim_service_error,
}
use weft_mark.Scope.{Scope}
use weft_mark.Scope.Normalize.{Unicode}
use weft_mark.Lock.{SemanticLock, acquire}
use weft_mark.Lock.Outcomes.{post_init-eq-ok}
use weft_mark.Ledger.{Hashing, LedgerEntry, read_locked}
use weft_mark.Ledger.Store.{Moment, Codec}
use weft_mark.Binding.{ChangeBinding}
use weft_mark.Binding.Observe.{Git}
use weft_mark.Workspace.{require_change_set}
use weft_mark.Claim.{Claim, require_lease_seconds}
use weft_mark.Claim.Book.{check_claims, latest_claims}
use weft_mark.Claim.Service.{leases, parse_scopes, new_claim, prepare_acquire}
use weft_mark.Claim.Operations.{acquire_claim}
use weft_mark.Claim.Run.{claim_post_init-eq-ok}
use weft_mark.Claim.Attempts.{attempts-Landed}

leases-times :
    (id agent_id session_id change_set_id : Text) (at expires_at : DateTime) (index : ℕ)
    (scopes : List Scope) (ls : List SemanticLock)
    → leases id agent_id session_id change_set_id at expires_at index scopes ≡ ok ls
    → (l : SemanticLock) → In l ls
    → (l.acquired_at ≡ at) × (l.expires_at ≡ expires_at)
unfolding leases acquire
leases-times id agent_id session_id change_set_id at expires_at index [] ls e l m =
    absurd (subst (In l) (sym (ok-injective [] ls e)) m)
leases-times id agent_id session_id change_set_id at expires_at index (scope ∷ scopes) ls e l m =
    let (lock, first, e1) =
      unbind
        {first = acquire (id ++ codes ":" ++ decimal index) scope agent_id session_id change_set_id
          at expires_at}
        e in
    let (locks, rest, e2) =
      unbind {first = leases id agent_id session_id change_set_id at expires_at (suc index) scopes}
        e1 in
    let made = post_init-eq-ok _ lock first in
    elim (subst (In l) (sym (ok-injective (lock ∷ locks) ls e2)) m) [
      | inl same ↦ (
        ap (λ (x : SemanticLock). x.acquired_at) (same ∙ made),
        ap (λ (x : SemanticLock). x.expires_at) (same ∙ made),
      )
      | inr later ↦
          leases-times id agent_id session_id change_set_id at expires_at (suc index) scopes locks
            rest l later
    ]

module _ (h : Hashing) (codec : Codec Claim) (git : Git) (bindings : Codec ChangeBinding)
    (u : Unicode) where
  prepare_acquire-eq-ok :
      (claim c : Claim) (at : DateTime) (seen : List LedgerEntry)
      → prepare_acquire h codec claim at seen ≡ ok c
      → claim ≡ c
  unfolding prepare_acquire
  prepare_acquire-eq-ok claim c at seen e =
      let (snapshot, _, e1) = unbind {first = read_locked h seen} e in
      let (current, _, e2) = unbind {first = latest_claims codec snapshot} e1 in
      let (_, e3) =
        uncheck
          {first = raise_if (any (λ (item : Text × Claim). text_eq item.0 claim.id) current)
            claim_service_error}
          e2 in
      let (_, e4) = uncheck {first = check_claims at claim.locks current} e3 in
      ok-injective claim c e4

  -- The leases of a claim that is acquired at a time run from this time on, for one second at least and for
  -- 604800 seconds (a week) at most, and all end together.
  pub acquired_leases_last :
      (change_set_id id agent_id session_id : Text) (at : DateTime) (lease_seconds : ℕ)
      (opening : List LedgerEntry) (world : ℕ → Moment) (c : Claim) (file : List LedgerEntry)
      (l m : SemanticLock)
      → acquire_claim h codec git bindings u change_set_id id agent_id session_id at lease_seconds
          opening world
        ≡ ok (c, file)
      → In l c.locks
      → In m c.locks
      → (l.acquired_at ≡ at)
        × (at.instant + 1_000_000 ≤ l.expires_at.instant)
        × (l.expires_at.instant ≤ at.instant + 604_800 * 1_000_000)
        × (l.expires_at ≡ m.expires_at)
  unfolding acquire_claim new_claim
  acquired_leases_last change_set_id id agent_id session_id at secs opening world c file l m e in_l
        in_m =
      let (allowed, e1) = uncheck {first = require_lease_seconds secs} e in
      let (binding, _, e2) =
        unbind {first = require_change_set git h bindings opening change_set_id} e1 in
      let (claim, made, e3) =
        unbind
          {first = new_claim h codec u binding.change_set.scopes id change_set_id agent_id
            session_id at secs}
          e2 in
      let x = attempts-Landed h codec (prepare_acquire h codec claim at) world 8 0 c file e3 in
      let is = prepare_acquire-eq-ok claim c at (world x.attempt).seen x.prepared in
      let (parsed, _, e4) = unbind {first = parse_scopes u binding.change_set.scopes} made in
      let (locks, leased, e5) =
        unbind
          {first = leases id agent_id session_id change_set_id at (add_seconds at secs) 1 parsed}
          e4 in
      let own : c.locks ≡ locks =
        ap (λ (y : Claim). y.locks) (sym is ∙ (claim_post_init-eq-ok _ claim e5).0) in
      let (starts, ends) =
        leases-times id agent_id session_id change_set_id at (add_seconds at secs) 1 parsed locks
          leased l (subst (In l) own in_l) in
      let (_, ends_too) =
        leases-times id agent_id session_id change_set_id at (add_seconds at secs) 1 parsed locks
          leased m (subst (In m) own in_m) in
      let end : l.expires_at.instant ≡ at.instant + secs * 1_000_000 =
        ap (λ (t : DateTime). t.instant) ends in
      let within = raise_if-passed (ltb secs 1 || ltb 604_800 secs) claim_service_error allowed in
      (starts, ground (arith, end, within), ground (arith, end, within), ends ∙ sym ends_too)
