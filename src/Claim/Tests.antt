-- ===== src/Claim/Tests.antt =====
-- Runs of claims.py on small inputs, and its theorems at them.
mod Operations
mod Written
use weft_mark.Prelude.{
  ℕ, zero, suc, ◌<◌, ◌⊎◌, Bool, true, false, if◌then◌else◌, not, any, List, [], ◌∷◌, ◌++◌, some,
  none, Option, Text, codes, text_eq, text_lt, mem_text, DateTime, utc, Result, ok, err, In, inl,
  inr, arith, ◌≡◌, ◌≢◌, ◌∙◌, sym, ap, refl, is_blank, strip, lstrip, is_space, digits, sort_texts,
  ok-injective, workspace_error, claim_conflict, claim_service_error,
}
use weft_mark.Scope.{Scope, file, value, canonical}
use weft_mark.Scope.Normalize.{Unicode}
use weft_mark.Lock.{SemanticLock, conflicts_with}
use weft_mark.Lock
use weft_mark.Lock.Overlap
use weft_mark.Lock.Glob
use weft_mark.Scope.Normalize
use weft_mark.Ledger.{
  LedgerEntry, LedgerDraft, genesis_digest, entry_digest, read_locked, read_from, check_entry,
  entry_post_init, is_digest, draft_post_init, append_locked, append, append_if_head,
}
use weft_mark.Ledger.Chain.{IsCollisionFree}
use weft_mark.Ledger.Append.{next_entry}
use weft_mark.Ledger.Store.{Moment, Codec, safe_draft, record_if_head}
use weft_mark.Binding.{ChangeBinding}
use weft_mark.Binding.Observe.{Git}
use weft_mark.Samples.{plain, sample, digest_of_one, claim_on, lease}
use weft_mark.Claim.{Claim, post_init, states_at, claim_state_at}
use weft_mark.Claim.Book.{
  get, check_lock, check_locks, check_claims, take_entry, latest_from, latest_claims, require_claim,
}
use weft_mark.Claim.Service.{
  each, max_from, max_expiry, leases, parse_scopes, append_claim, prepare_acquire, prepare_renew,
  new_claim,
}
use weft_mark.Claim.Operations.{attempts, renew_claim}
use weft_mark.Claim.Landing.{IsFaithful}
use weft_mark.Claim.Run.{Run, Step, Prepares, fresh, next, of_claim, claims_never_conflict}
use weft_mark.Claim.Attempts.{Request, for_renew, serve, operation_is_Step}

-- A claim is written as the instant of its change, and two of them are read.
abbrev codec : (first second : Claim) → Codec Claim
codec first second = record {
  kind = codes "claim";
  encode = λ c. ok (c.updated_at.instant ∷ []);
  decode = λ s. if text_eq s (first.updated_at.instant ∷ []) then ok first else ok second;
}

abbrev first_claim : Claim
first_claim = claim_on (codes "c1") (codes "a") 1

abbrev second_claim : Claim
second_claim = claim_on (codes "c2") (codes "b") 2

abbrev both : Codec Claim
both = codec first_claim second_claim

program : Unit {0}
unfolding post_init states_at claim_state_at check_lock check_locks check_claims take_entry
    latest_from latest_claims require_claim each max_from max_expiry leases parse_scopes
    append_claim prepare_acquire prepare_renew new_claim attempts renew_claim safe_draft
    record_if_head read_locked read_from check_entry entry_post_init is_digest draft_post_init
    append_locked append append_if_head entry_digest Lock.post_init Lock.acquire Lock.state_at
    Lock.owns_scope_at Lock.renew Lock.conflicts_with Normalize.require_text Normalize.slashes
    Normalize.split_slash Normalize.join_slash Normalize.posix_path Normalize.normalize_file
    Normalize.kind_of Normalize.partition_colon Normalize.stripped_label Normalize.make
    Normalize.parse Overlap.has_magic Overlap.before_magic Overlap.rstrip_slash
    Overlap.literal_prefix Overlap.starts_with Overlap.path_prefix Overlap.file_scopes_overlap
    Overlap.scopes_overlap Glob.fnmatchcase Glob.tokens Glob.tokens_from Glob.matches Glob.accepts
    Glob.in_item is_blank strip lstrip is_space text_eq text_lt digits value canonical
program = tt

abbrev draft_of : Claim → LedgerDraft
draft_of c = record {
  kind = codes "claim";
  entity_id = c.id;
  payload_json = c.updated_at.instant ∷ [];
  recorded_at = c.updated_at;
}

abbrev one : List LedgerEntry
one = next_entry sample [] (draft_of first_claim) ∷ []

abbrev two : List LedgerEntry
two = one ++ next_entry sample one (draft_of second_claim) ∷ []

first_appended : append_claim sample both first_claim (record { seen = []; found = [] }) ≡ ok one
unfolding program
first_appended = refl

second_appended :
    append_claim sample both second_claim (record { seen = one; found = one }) ≡ ok two
unfolding program
second_appended = refl

latest_two :
    latest_claims both two ≡ ok ((codes "c1", first_claim) ∷ (codes "c2", second_claim) ∷ [])
unfolding program
latest_two = refl

first-IsFaithful : IsFaithful sample both first_claim
unfolding program
first-IsFaithful json e = ap both.decode (ok-injective json (1 ∷ []) (sym e))

second-IsFaithful : IsFaithful sample both second_claim
unfolding program
second-IsFaithful json e = ap both.decode (ok-injective json (2 ∷ []) (sym e))

first_made :
    new_claim sample both plain
      (codes "file:a" ∷ [])
      (codes "c1")
      (codes "cs")
      (codes "agent")
      (codes "session")
      (utc 1)
      60
    ≡ ok first_claim
unfolding program
first_made = refl

second_made :
    new_claim sample both plain
      (codes "file:b" ∷ [])
      (codes "c2")
      (codes "cs")
      (codes "agent")
      (codes "session")
      (utc 2)
      60
    ≡ ok second_claim
unfolding program
second_made = refl

first_prepared : prepare_acquire sample both first_claim (utc 1) [] ≡ ok first_claim
unfolding program
first_prepared = refl

second_prepared : prepare_acquire sample both second_claim (utc 2) one ≡ ok second_claim
unfolding program
second_prepared = refl

-- Another claim on the same file is refused.
rival_refused :
    prepare_acquire sample both (claim_on (codes "c3") (codes "a") 3) (utc 3) two
    ≡ err claim_conflict
unfolding program
rival_refused = refl

none_free : IsCollisionFree sample [] []
none_free = record {
  injective = λ e f m k d. absurd m;
  left_fresh = λ e m d. m;
  right_fresh = λ e m d. m;
}

one_digest : entry_digest sample 1 genesis_digest (draft_of first_claim) ≡ digest_of_one
unfolding program
one_digest = refl

one_is_fresh : digest_of_one ≢ genesis_digest
one_is_fresh e = ground (arith, e)

one_free : IsCollisionFree sample one one
one_free = record { injective = same; left_fresh = not_genesis; right_fresh = not_genesis }
  where
    same :
        (e f : LedgerEntry)
        → In e one
        → In f one
        → entry_digest sample e.sequence e.previous_digest e.draft
          ≡ entry_digest sample f.sequence f.previous_digest f.draft
        → (e.sequence ≡ f.sequence) × (e.previous_digest ≡ f.previous_digest) × (e.draft ≡ f.draft)
    same e f (inl p) (inl q) d = rw p (rw q (refl, refl, refl))
    same e f (inl p) (inr m) d = absurd m
    same e f (inr m) k d = absurd m

    not_genesis :
        (e : LedgerEntry)
        → In e one
        → entry_digest sample e.sequence e.previous_digest e.draft ≢ genesis_digest
    not_genesis e (inl p) d = one_is_fresh (
        sym one_digest
        ∙ ap (λ (x : LedgerEntry). entry_digest sample x.sequence x.previous_digest x.draft) (sym p)
        ∙ d)
    not_genesis e (inr m) d = absurd m

-- Two sessions that acquire different files, one after the other.
run_two : Run sample both plain two 2
run_two =
    next
      (next fresh (omega arith) (
        of_claim [] (utc 1) first_claim
          (Prepares.by_acquire (codes "file:a" ∷ []) (codes "c1") (codes "cs") (codes "agent")
            (codes "session") 60 first_claim first_made first_prepared)
          first_appended none_free first-IsFaithful))
      (omega arith)
      (of_claim one (utc 2) second_claim
        (Prepares.by_acquire (codes "file:b" ∷ []) (codes "c2") (codes "cs") (codes "agent")
          (codes "session") 60 second_claim second_made second_prepared)
        second_appended one_free second-IsFaithful)

ids_differ : text_eq (codes "c1") (codes "c2") ≡ false
unfolding program
ids_differ = refl

first_found :
    get (codes "c1") ((codes "c1", first_claim) ∷ (codes "c2", second_claim) ∷ [])
    ≡ some first_claim
unfolding program
first_found = refl

second_found :
    get (codes "c2") ((codes "c1", first_claim) ∷ (codes "c2", second_claim) ∷ [])
    ≡ some second_claim
unfolding program
second_found = refl

claims_never_conflict_example :
    conflicts_with (lease (codes "c1:1") (codes "a") 1) (lease (codes "c2:1") (codes "b") 2) (utc 5)
    ≡ ok false
claims_never_conflict_example =
    claims_never_conflict sample both plain two 2
      ((codes "c1", first_claim) ∷ (codes "c2", second_claim) ∷ []) (codes "c1") (codes "c2")
      first_claim second_claim (lease (codes "c1:1") (codes "a") 1)
      (lease (codes "c2:1") (codes "b") 2) (utc 5) run_two latest_two ids_differ first_found
      second_found (inl refl) (inl refl) refl (omega arith)
