-- ===== src/Workspace/Tests.antt =====
-- Runs of workspace.py on small inputs, and its theorems at them.
use mathlib.Core.Path.{subst}
use weft_mark.Prelude.{
  ℕ, ◌+◌, if◌then◌else◌, List, [], ◌∷◌, ◌++◌, some, none, length, Text, codes, digits, text_eq,
  text_lt, is_blank, strip, lstrip, is_space, utc, ok, In, inl, inr, ◌≡◌, sym, ap, refl,
  ok-injective,
}
use weft_mark.Scope.{file, value, canonical}
use weft_mark.Scope.Normalize
use weft_mark.Scope.Record.{to_dict}
use weft_mark.ChangeSet
use weft_mark.Binding
use weft_mark.Binding.{ChangeBinding, GitLineageObservation, observation_post_init}
use weft_mark.Ledger
use weft_mark.Ledger.{LedgerEntry, LedgerDraft, read_locked}
use weft_mark.Ledger.Append.{next_entry}
use weft_mark.Ledger.Store.{Codec, safe_draft, record_value}
use weft_mark.Json.{Json, null, string, object_of, Python, IsoReads}
use weft_mark.Samples.{
  plain, sample, repository, bound, first_observation, bindings_of, python_of, read_time-write_time,
}
use weft_mark.Workspace.{
  record_binding, latest_entry, get_change_set, require_change_set, transition_change_set,
}
use weft_mark.Workspace.Kept.{IsFaithful, for_transition, serve, operation_reads_back}
use weft_mark.Workspace.Payload.{binding_to_payload, binding_from_payload, scope_dicts, written}
use weft_mark.Workspace.Payload.Back.{
  IsCanonical, IsWritable, binding_from_payload-binding_to_payload,
}

program : Unit {0}
unfolding text_eq text_lt digits is_blank strip lstrip is_space value canonical ChangeSet.post_init
    ChangeSet.is_allowed ChangeSet.transition Binding.post_init Binding.any_backwards
    observation_post_init Ledger.is_digest Ledger.entry_post_init Ledger.history Ledger.latest
    Ledger.draft_post_init Ledger.entry_digest Ledger.check_entry Ledger.read_from
    Ledger.read_locked Ledger.append_locked Ledger.append safe_draft record_value record_binding
    latest_entry get_change_set require_change_set transition_change_set Normalize.require_text
    Normalize.slashes Normalize.split_slash Normalize.join_slash Normalize.posix_path
    Normalize.normalize_file Normalize.kind_of Normalize.partition_colon Normalize.stripped_label
    Normalize.make Normalize.parse scope_dicts binding_to_payload
program = tt

abbrev draft_of : ℕ → LedgerDraft
draft_of at = record {
  kind = codes "changeset";
  entity_id = codes "cs";
  payload_json = at ∷ [];
  recorded_at = utc at;
}

abbrev one : List LedgerEntry
one = next_entry sample [] (draft_of 1) ∷ []

abbrev in_review : ChangeBinding
in_review = record bound {
  change_set = record (bound.change_set) { state = ChangeSet.review; updated_at = utc 3 };
}

abbrev two : List LedgerEntry
two = one ++ next_entry sample one (draft_of 3) ∷ []

-- A binding is written as the instant of its change, and two of them are read.
abbrev both : Codec ChangeBinding
both = record (bindings_of bound) {
  decode = λ s. if text_eq s (1 ∷ []) then ok bound else ok in_review;
}

transition-bound :
    serve repository sample both
      (for_transition (codes "cs") ChangeSet.review (utc 3))
      (record { seen = one; found = one })
    ≡ ok (in_review, two)
unfolding program
transition-bound = refl

in_review-IsFaithful : IsFaithful repository sample both in_review
unfolding program
in_review-IsFaithful json e = ap both.decode (ok-injective json (3 ∷ []) (sym e))

operation_reads_back_example :
    (read_locked sample two ≡ ok two)
    × (length two ≡ length one + 1)
    × (get_change_set repository sample both two (codes "cs") ≡ (
        if text_eq (codes "cs") (codes "cs")
        then ok (some in_review)
        else get_change_set repository sample both one (codes "cs")))
operation_reads_back_example =
    operation_reads_back repository sample both
      (for_transition (codes "cs") ChangeSet.review (utc 3)) (record { seen = one; found = one })
      in_review two (codes "cs") in_review-IsFaithful transition-bound

abbrev python : Python
python = python_of null

iso : IsoReads python
iso = read_time-write_time

bound_valid : Binding.post_init repository.resolve bound ≡ ok bound
unfolding program
bound_valid = refl

set_valid : ChangeSet.post_init bound.change_set ≡ ok bound.change_set
unfolding program
set_valid = refl

observation_valid : observation_post_init first_observation ≡ ok first_observation
unfolding program
observation_valid = refl

file_a-IsCanonical : IsCanonical plain python iso (codes "file:a")
unfolding program
file_a-IsCanonical = record {
  scope = record { kind = file; key = codes "a"; display_label = none };
  parsed = refl;
  same = refl;
  stable = refl;
}

bound-IsWritable : IsWritable plain python iso repository.resolve bound
bound-IsWritable = record {
  valid = bound_valid;
  change_set = set_valid;
  observations = observations;
  scopes = scopes;
  worktree = λ o e.
      ap (λ (x : GitLineageObservation). x.worktree)
        (sym (ok-injective first_observation o (ap Binding.last_of e)));
}
  where
    observations :
        (o : GitLineageObservation) → In o bound.observations → observation_post_init o ≡ ok o
    observations o (inl is) = subst (λ x. observation_post_init x ≡ ok x) (sym is) observation_valid
    observations o (inr m) = absurd m

    scopes : (text : Text) → In text bound.change_set.scopes → IsCanonical plain python iso text
    scopes text (inl is) = subst (IsCanonical plain python iso) (sym is) file_a-IsCanonical
    scopes text (inr m) = absurd m

abbrev payload : Json
payload = written plain python bound first_observation (
    object_of ((codes "key", string (codes "a")) ∷ (codes "kind", string (codes "file")) ∷ []) ∷ [])

to_payload : binding_to_payload plain python bound ≡ ok payload
unfolding program to_dict
to_payload = refl

binding_from_payload-binding_to_payload_example :
    binding_from_payload plain python repository.resolve payload ≡ ok bound
binding_from_payload-binding_to_payload_example =
    binding_from_payload-binding_to_payload plain python iso repository.resolve bound payload
      bound-IsWritable to_payload
