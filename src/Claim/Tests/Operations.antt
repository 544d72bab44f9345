-- ===== src/Claim/Tests/Operations.antt =====
-- A claim that is renewed, and one that is extended with the declared scopes of its Change Set.
use weft_mark.Prelude.{
  inl, ◌+◌, ◌*◌, ◌≤◌, ℕ, ◌<◌, ◌⊎◌, true, List, [], ◌∷◌, ◌++◌, some, none, Text, codes, mem_text,
  utc, ok, In, ◌≡◌, sym, ap, refl, ok-injective, sort_texts,
}
use weft_mark.Scope.{Scope, file, canonical}
use weft_mark.Lock.{SemanticLock, LockState, LockEventKind}
use weft_mark.Lock.Outcomes.{logged}
use weft_mark.ChangeSet
use weft_mark.Binding
use weft_mark.Binding.{ChangeBinding}
use weft_mark.Ledger
use weft_mark.Ledger.{LedgerEntry, LedgerDraft}
use weft_mark.Ledger.Append.{next_entry}
use weft_mark.Ledger.Store.{Moment, record_value}
use weft_mark.Samples.{plain, sample, lease, repository, bound, bindings_of}
use weft_mark.Workspace
use weft_mark.Workspace.{require_change_set}
use weft_mark.Claim.{Claim}
use weft_mark.Claim.Service.{widen}
use weft_mark.Claim.Landing.{IsFaithful}
use weft_mark.Claim.Bounds.{acquired_leases_last}
use weft_mark.Claim.Operations.{acquire_claim, extend_attempts, extend_claim}
use weft_mark.Claim.Run.{Step}
use weft_mark.Claim.Lands.{IsPut}
use weft_mark.Claim.Attempts.{for_renew, serve, operation_is_Step}
use weft_mark.Claim.Extension.{extension_is_held}
use weft_mark.Claim.Tests.{program, codec, first_claim, draft_of, one, one_free}

-- The lease is renewed at the instant 3 for another minute.
abbrev renewed_claim : Claim
renewed_claim = record first_claim {
  locks =
      logged LockEventKind.renewed (utc 3) (utc 120_000_001) none LockState.active (utc 3)
        (lease (codes "c1:1") (codes "a") 1)
      ∷ [];
  updated_at = utc 3;
}

-- Nobody writes between the snapshot of an attempt and its append.
abbrev quiet : ℕ → Moment
quiet k = record { seen = one; found = one }

abbrev after_renewal : List LedgerEntry
after_renewal = one ++ next_entry sample one (draft_of renewed_claim) ∷ []

renewal :
    serve sample
      (codec first_claim renewed_claim)
      repository
      (bindings_of bound)
      plain
      (for_renew (codes "c1") (codes "agent") (codes "session") 60)
      (utc 3)
      quiet
    ≡ ok (renewed_claim, after_renewal)
unfolding program
renewal = refl

renewed-IsFaithful : IsFaithful sample (codec first_claim renewed_claim) renewed_claim
unfolding program
renewed-IsFaithful json e =
    ap (codec first_claim renewed_claim).decode (ok-injective json (3 ∷ []) (sym e))

operation_is_Step_example :
    (k : ℕ) × (k < 8)
    × Step sample (codec first_claim renewed_claim) plain (quiet k).found after_renewal 3
    × IsPut (codec first_claim renewed_claim) renewed_claim (quiet k).found after_renewal
operation_is_Step_example =
    operation_is_Step sample (codec first_claim renewed_claim) repository (bindings_of bound) plain
      (for_renew (codes "c1") (codes "agent") (codes "session") 60) (utc 3) quiet renewed_claim
      after_renewal (λ k. one_free) renewed-IsFaithful renewal

-- The claim is extended at the instant 3 by another file.
abbrev added : List Scope
added = record { kind = file; key = codes "b"; display_label = none } ∷ []

abbrev extended_claim : Claim
extended_claim = record first_claim {
  locks =
      lease (codes "c1:1") (codes "a") 1
      ∷ (record (lease (codes "c1:2") (codes "b") 3) {
        expires_at = utc 60_000_001;
        events =
            record {
              kind = LockEventKind.acquired;
              occurred_at = utc 3;
              previous_expires_at = none;
              expires_at = some (utc 60_000_001);
              reason = none;
            }
            ∷ [];
      })
      ∷ [];
  updated_at = utc 3;
}

abbrev widened : ChangeBinding
widened = record bound {
  change_set = record {
    id = codes "cs";
    goal = codes "goal";
    repository_id = codes "repo";
    base_sha = codes "b";
    head_sha = codes "h1";
    branch = codes "topic";
    worktree = codes "tree";
    scopes = codes "file:a" ∷ codes "file:b" ∷ [];
    state = ChangeSet.active;
    created_at = utc 1;
    updated_at = utc 3;
    lineage = [];
    scope_amendments =
        record { occurred_at = utc 3; added_scopes = codes "file:b" ∷ []; reason = codes "more" }
        ∷ [];
  };
}

abbrev draft_of_binding : ℕ → LedgerDraft
draft_of_binding at = record {
  kind = codes "changeset";
  entity_id = codes "cs";
  payload_json = at ∷ [];
  recorded_at = utc at;
}

-- The Change Set is recorded after the claim, and then amended.
abbrev recorded : List LedgerEntry → List LedgerEntry
recorded f = f ++ next_entry sample f (draft_of_binding 1) ∷ []

abbrev meanwhile : List LedgerEntry → Moment
meanwhile f = record { seen = recorded f; found = recorded f }

abbrev after_extension : List LedgerEntry
after_extension = one ++ next_entry sample one (draft_of extended_claim) ∷ []

abbrev after_amendment : List LedgerEntry
after_amendment =
    recorded after_extension
    ++ next_entry sample (recorded after_extension) (draft_of_binding 3) ∷ []

see_through : Unit {0}
unfolding program sort_texts Ledger.latest Ledger.history record_value ChangeSet.post_init
    ChangeSet.amend_scope Binding.post_init Binding.any_backwards Workspace.record_binding
    Workspace.latest_entry Workspace.get_change_set require_change_set Workspace.amend_scope widen
    extend_attempts extend_claim
see_through = tt

extension :
    extend_claim sample
      (codec first_claim extended_claim)
      repository
      (bindings_of bound)
      (codes "c1")
      added
      (codes "more")
      (codes "agent")
      (codes "session")
      (utc 3)
      meanwhile
      quiet
    ≡ ok (extended_claim, widened, after_amendment)
unfolding see_through
extension = refl

extended-IsFaithful : IsFaithful sample (codec first_claim extended_claim) extended_claim
unfolding program
extended-IsFaithful json e =
    ap (codec first_claim extended_claim).decode (ok-injective json (3 ∷ []) (sym e))

extension_is_held_example :
    (k : ℕ) × (k < 8)
    × (f : List LedgerEntry) × Step sample
        (codec first_claim extended_claim)
        plain
        (quiet k).found
        f
        3
    × IsPut (codec first_claim extended_claim) extended_claim (quiet k).found f
    × (current : ChangeBinding) × (require_change_set repository sample
          (bindings_of bound)
          (recorded f)
          (codes "cs")
        ≡ ok current)
    × ((s : Text)
        → mem_text s (codes "file:a" ∷ codes "file:b" ∷ []) ≡ true
        → (mem_text s current.change_set.scopes ≡ true)
          ⊎ ((l : SemanticLock) × In l extended_claim.locks × (canonical l.scope ≡ s)))
extension_is_held_example =
    extension_is_held sample (codec first_claim extended_claim) repository (bindings_of bound) plain
      (codes "c1") added (codes "more") (codes "agent") (codes "session") (utc 3) meanwhile quiet
      extended_claim widened after_amendment (λ k. one_free) extended-IsFaithful extension

-- The Change Set is claimed at the instant 1 for a minute.
abbrev after_acquisition : List LedgerEntry
after_acquisition = recorded [] ++ next_entry sample (recorded []) (draft_of first_claim) ∷ []

acquisition :
    acquire_claim sample
      (codec first_claim extended_claim)
      repository
      (bindings_of bound)
      plain
      (codes "cs")
      (codes "c1")
      (codes "agent")
      (codes "session")
      (utc 1)
      60
      (recorded [])
      (λ k. record { seen = recorded []; found = recorded [] })
    ≡ ok (first_claim, after_acquisition)
unfolding see_through acquire_claim
acquisition = refl

acquired_leases_last_example :
    (utc 1 ≡ utc 1)
    × (1 + 1_000_000 ≤ 60_000_001)
    × (60_000_001 ≤ 1 + 604_800 * 1_000_000)
    × (utc 60_000_001 ≡ utc 60_000_001)
acquired_leases_last_example =
    acquired_leases_last sample (codec first_claim extended_claim) repository (bindings_of bound)
      plain (codes "cs") (codes "c1") (codes "agent") (codes "session") (utc 1) 60 (recorded [])
      (λ k. record { seen = recorded []; found = recorded [] }) first_claim after_acquisition
      (lease (codes "c1:1") (codes "a") 1) (lease (codes "c1:1") (codes "a") 1) acquisition
      (inl refl) (inl refl)
