-- ===== src/Workspace/Payload/Back.antt =====
-- What is read back of a binding that was written.
use weft_mark.Prelude.{
  true, none, some, List, [], ◌∷◌, map, Text, text_eq, text_eq_iff, ok, ◌>>=◌, ◌≡◌, ◌∙◌, sym, refl,
  ap, inl, inr, arith, In, unbind, ok-injective, last?, workspace_error,
}
use weft_mark.Scope.{Scope, canonical}
use weft_mark.Scope.Normalize.{Unicode, parse}
use weft_mark.Scope.Record.{to_dict, scope_in, IsStable, scope_in-to_dict}
use weft_mark.ChangeSet.{ChangeSet, ChangeSetState, LineageEvent, LineageEventKind, ScopeAmendment}
use weft_mark.ChangeSet
use weft_mark.Ledger.{Hashing}
use weft_mark.Binding.{
  GitLineageObservation, ChangeBinding, observation_post_init, latest, last_of, is_bound,
}
use weft_mark.Binding
use weft_mark.Binding.Shown.{post_init-bound}
use weft_mark.Json.{
  Json, find, Python, listed-items_of, each, each-written, or_raise, IsoReads, texts_of_texts,
}
use weft_mark.Json.Secret.{safe_payload-dumps}
use weft_mark.Binding.Observe.{Git}
use weft_mark.Workspace.Kept.{IsFaithful}
use weft_mark.Workspace.Payload.{
  state_value, state_of, kind_value, kind_of, lineage_to_dict, lineage_from_dict, amendment_to_dict,
  amendment_from_dict, observation_to_dict, observation_from_dict, scope_dicts, written,
  binding_to_payload, current_history, read_binding, binding_from_payload, binding_codec,
}

state_of-state_value : (s : ChangeSetState) → state_of (state_value s) ≡ ok s
unfolding state_of state_value text_eq
state_of-state_value ChangeSetState.planned = refl
state_of-state_value ChangeSetState.active = refl
state_of-state_value ChangeSetState.review = refl
state_of-state_value ChangeSetState.merged = refl
state_of-state_value ChangeSetState.closed = refl
state_of-state_value ChangeSetState.abandoned = refl

kind_of-kind_value : (k : LineageEventKind) → kind_of (kind_value k) ≡ ok k
unfolding kind_of kind_value text_eq
kind_of-kind_value LineageEventKind.activated = refl
kind_of-kind_value LineageEventKind.head_advanced = refl
kind_of-kind_value LineageEventKind.branch_moved = refl
kind_of-kind_value LineageEventKind.rebased = refl

module _ (u : Unicode) (python : Python) (iso : IsoReads python) where
  lineage-back :
      (event : LineageEvent)
      → lineage_from_dict u python (lineage_to_dict u python event) ≡ ok event
  unfolding lineage_from_dict lineage_to_dict find text_eq
  lineage-back event = ground (arith, kind_of-kind_value event.kind, iso event.occurred_at)

  amendment-back :
      (value : ScopeAmendment)
      → amendment_from_dict u python (amendment_to_dict u python value) ≡ ok value
  unfolding amendment_from_dict amendment_to_dict find text_eq
  amendment-back value =
      ground (arith, iso value.occurred_at, texts_of_texts python value.added_scopes)

  observation-back :
      (value : GitLineageObservation)
      → observation_post_init value ≡ ok value
      → observation_from_dict u python (observation_to_dict u python value) ≡ ok value
  unfolding observation_from_dict observation_to_dict find text_eq
  observation-back value valid = ground (
    arith,
    iso value.observed_at,
    texts_of_texts python value.changed_paths,
    texts_of_texts python value.dirty_paths,
    valid,
  )

  -- The text is the canonical form of a scope that normalizing leaves as it is.
  pub record IsCanonical (text : Text) : Type 0 where
    pub scope : Scope
    pub parsed : parse u text none ≡ ok scope
    pub same : canonical scope ≡ text
    pub stable : IsStable u scope

  scopes-back :
      (texts : List Text) (dicts : List Json)
      → ((t : Text) → In t texts → IsCanonical t)
      → scope_dicts u python texts ≡ ok dicts
      → (scopes : List Scope) × (each (scope_in u) dicts ≡ ok scopes)
        × (map canonical scopes ≡ texts)
  unfolding scope_dicts each
  scopes-back [] dicts fit e = ([], ap (each (scope_in u)) (sym (ok-injective [] dicts e)), refl)
  scopes-back (text ∷ texts) dicts fit e =
      let x = fit text (inl refl) in
      let (scope, parsed, e1) = unbind {first = parse u text none} e in
      let (rest, later, e2) = unbind {first = scope_dicts u python texts} e1 in
      let (scopes, read, same) = scopes-back texts rest (λ t i. fit t (inr i)) later in
      let one : scope ≡ x.scope = ok-injective scope x.scope (sym parsed ∙ x.parsed) in
      (
        x.scope ∷ scopes,
        ap (each (scope_in u)) (sym (ok-injective (to_dict scope ∷ rest) dicts e2))
            ∙ ap (λ s. each (scope_in u) (to_dict s ∷ rest)) one
            ∙ ground (arith, scope_in-to_dict u x.scope x.stable, read),
        ground (arith, x.same, same),
      )

  -- A binding that its constructors accept, whose declared scopes are canonical, and whose Change Set names
  -- the worktree as its latest observation does.
  pub record IsWritable (resolve : Text → Text) (binding : ChangeBinding) : Type 0 where
    pub valid : Binding.post_init resolve binding ≡ ok binding
    pub change_set : ChangeSet.post_init binding.change_set ≡ ok binding.change_set
    pub observations :
        (o : GitLineageObservation) → In o binding.observations → observation_post_init o ≡ ok o
    pub scopes : (text : Text) → In text binding.change_set.scopes → IsCanonical text
    pub worktree :
        (o : GitLineageObservation)
        → last? binding.observations ≡ some o
        → o.worktree ≡ binding.change_set.worktree

  current_history-back :
      (b : ChangeBinding) (newest : GitLineageObservation) (dicts : List Json)
      → ((o : GitLineageObservation) → In o b.observations → observation_post_init o ≡ ok o)
      → current_history u python (written u python b newest dicts)
        ≡ ok (b.change_set.lineage, b.observations, b.change_set.scope_amendments)
  unfolding current_history find text_eq
  current_history-back b newest dicts valid = ground (
    arith,
    each-written (lineage_to_dict u python) (lineage_from_dict u python) b.change_set.lineage
        (λ e i. lineage-back e),
    each-written (observation_to_dict u python) (observation_from_dict u python) b.observations
        (λ o i. observation-back o (valid o i)),
    each-written (amendment_to_dict u python) (amendment_from_dict u python)
        b.change_set.scope_amendments (λ a i. amendment-back a),
  )

  written-back :
      (resolve : Text → Text) (b : ChangeBinding) (newest : GitLineageObservation)
      (dicts : List Json) (scopes : List Scope)
      → Binding.post_init resolve b ≡ ok b
      → ChangeSet.post_init b.change_set ≡ ok b.change_set
      → ((o : GitLineageObservation) → In o b.observations → observation_post_init o ≡ ok o)
      → each (scope_in u) dicts ≡ ok scopes
      → map canonical scopes ≡ b.change_set.scopes
      → newest.base_sha ≡ b.change_set.base_sha
      → newest.head_sha ≡ b.change_set.head_sha
      → newest.branch ≡ b.change_set.branch
      → newest.worktree ≡ b.change_set.worktree
      → read_binding u python resolve (written u python b newest dicts) ≡ ok b
  unfolding read_binding find text_eq
  written-back resolve b newest dicts scopes valid valid_set valid_observations read same base head
        branch worktree =
      ground (
        arith,
        listed-items_of dicts,
        read,
        iso b.change_set.created_at,
        iso b.change_set.updated_at,
        current_history-back b newest dicts valid_observations,
        state_of-state_value b.change_set.state,
        same,
        base,
        head,
        branch,
        worktree,
        valid_set,
        valid,
      )

  -- A binding that its constructors accept, whose declared scopes are canonical, and whose Change Set names
  -- the worktree as its latest observation does, is the one that is read back from its payload.
  pub binding_from_payload-binding_to_payload :
      (resolve : Text → Text) (b : ChangeBinding) (payload : Json)
      → IsWritable resolve b
      → binding_to_payload u python b ≡ ok payload
      → binding_from_payload u python resolve payload ≡ ok b
  unfolding binding_from_payload binding_to_payload
  binding_from_payload-binding_to_payload resolve b payload w e =
      let (newest, is_newest, e1) = unbind {first = latest b} e in
      let (dicts, drawn, e2) = unbind {first = scope_dicts u python b.change_set.scopes} e1 in
      let (scopes, read, same) = scopes-back b.change_set.scopes dicts w.scopes drawn in
      let (_, (bound_to, is_bound_to, _, bound)) = post_init-bound resolve b b w.valid in
      let is : bound_to ≡ newest =
        ok-injective bound_to newest (ap last_of (sym is_bound_to) ∙ is_newest) in
      let on : is_bound resolve b.change_set newest ≡ true =
        ap (is_bound resolve b.change_set) (sym is) ∙ bound in
      let c = b.change_set in
      ap (λ p. or_raise (read_binding u python resolve p) workspace_error)
        (sym (ok-injective (written u python b newest dicts) payload e2))
      ∙ ap (λ r. or_raise r workspace_error)
          (written-back resolve b newest dicts scopes w.valid w.change_set w.observations read same
            (sym ((text_eq_iff c.base_sha newest.base_sha).0 (ground (arith, on))))
            (sym ((text_eq_iff c.head_sha newest.head_sha).0 (ground (arith, on))))
            (sym ((text_eq_iff c.branch newest.branch).0 (ground (arith, on))))
            (w.worktree newest (is_bound_to ∙ ap some is)))

  -- What `json.loads` makes of the text that `json.dumps` wrote for the binding's payload.
  pub IsLoaded : ChangeBinding → Type 0
  IsLoaded b =
      (payload : Json) (text : Text)
      → binding_to_payload u python b ≡ ok payload
      → python.dumps payload ≡ ok text
      → python.loads text ≡ ok payload

  -- The bindings that the ledger keeps read back as they were written.
  pub binding_codec-IsFaithful :
      (git : Git) (h : Hashing) (b : ChangeBinding)
      → IsWritable git.resolve b
      → IsLoaded b
      → IsFaithful git h (binding_codec u python git.resolve) b
  unfolding IsLoaded
  binding_codec-IsFaithful git h b w loaded text e =
      let (payload, is_payload, e1) = unbind {first = binding_to_payload u python b} e in
      ap (λ r. r >>= binding_from_payload u python git.resolve)
        (loaded payload text is_payload (safe_payload-dumps u python payload text e1))
      ∙ binding_from_payload-binding_to_payload git.resolve b payload w is_payload
