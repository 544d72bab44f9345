-- ===== src/Workspace/Payload.antt =====
-- The bindings as they are written to the ledger and read back: `binding_to_payload` and
-- `binding_from_payload` of src/weftmark/application/workspace.py.
pub mod Back
use weft_mark.Prelude.{
  Bool, true, false, not, Option, none, some, List, [], ◌∷◌, map, Text, text_eq, codes, DateTime,
  Result, ok, err, ◌>>=◌, ◌>>◌, raise_if, if◌then◌else◌, workspace_error, value_error, type_error,
}
use weft_mark.Scope.{Scope, canonical}
use weft_mark.Scope.Normalize.{Unicode, parse}
use weft_mark.Scope.Record.{to_dict, scope_in}
use weft_mark.ChangeSet.{ChangeSet, ChangeSetState, LineageEvent, LineageEventKind, ScopeAmendment}
use weft_mark.ChangeSet
use weft_mark.Ledger.Store.{Codec}
use weft_mark.Binding.{GitLineageObservation, ChangeBinding, observation_post_init, latest}
use weft_mark.Binding
use weft_mark.Json.{
  Json, Fields, object, null, number, string, Python, array_of, array_of_texts, object_of, find,
  at_key, iterated, each, is_one, or_raise, text_at, texts_at, time_at,
}
use weft_mark.Json.Secret.{safe_payload}

-- `change_set.state.value`
unfoldable pub state_value : ChangeSetState → Text
state_value ChangeSetState.planned = codes "planned"
state_value ChangeSetState.active = codes "active"
state_value ChangeSetState.review = codes "review"
state_value ChangeSetState.merged = codes "merged"
state_value ChangeSetState.closed = codes "closed"
state_value ChangeSetState.abandoned = codes "abandoned"

-- `ChangeSetState(s)`
unfoldable pub state_of : Text → Result ChangeSetState
state_of s =
    if text_eq s (codes "planned")
    then ok ChangeSetState.planned
    else if text_eq s (codes "active")
    then ok ChangeSetState.active
    else if text_eq s (codes "review")
    then ok ChangeSetState.review
    else if text_eq s (codes "merged")
    then ok ChangeSetState.merged
    else if text_eq s (codes "closed")
    then ok ChangeSetState.closed
    else if text_eq s (codes "abandoned")
    then ok ChangeSetState.abandoned
    else err value_error

-- `event.kind.value`
unfoldable pub kind_value : LineageEventKind → Text
kind_value LineageEventKind.activated = codes "activated"
kind_value LineageEventKind.head_advanced = codes "head_advanced"
kind_value LineageEventKind.branch_moved = codes "branch_moved"
kind_value LineageEventKind.rebased = codes "rebased"

-- `LineageEventKind(s)`
unfoldable pub kind_of : Text → Result LineageEventKind
kind_of s =
    if text_eq s (codes "activated")
    then ok LineageEventKind.activated
    else if text_eq s (codes "head_advanced")
    then ok LineageEventKind.head_advanced
    else if text_eq s (codes "branch_moved")
    then ok LineageEventKind.branch_moved
    else if text_eq s (codes "rebased")
    then ok LineageEventKind.rebased
    else err value_error

module _ (u : Unicode) (python : Python) where
  -- `_lineage_to_dict`
  unfoldable pub lineage_to_dict : LineageEvent → Json
  lineage_to_dict event = object_of (
      (codes "base_sha", string event.base_sha)
      ∷ (codes "branch", string event.branch)
      ∷ (codes "head_sha", string event.head_sha)
      ∷ (codes "kind", string (kind_value event.kind))
      ∷ (codes "occurred_at", string (python.isoformat event.occurred_at))
      ∷ (codes "previous_base_sha", string event.previous_base_sha)
      ∷ (codes "previous_branch", string event.previous_branch)
      ∷ (codes "previous_head_sha", string event.previous_head_sha)
      ∷ [])

  -- `_lineage_from_dict`
  unfoldable pub lineage_from_dict : Json → Result LineageEvent
  lineage_from_dict value = do
    kind_text ← text_at python (codes "kind") value
    kind ← kind_of kind_text
    occurred_at ← time_at python (codes "occurred_at") value
    previous_base_sha ← text_at python (codes "previous_base_sha") value
    base_sha ← text_at python (codes "base_sha") value
    previous_head_sha ← text_at python (codes "previous_head_sha") value
    head_sha ← text_at python (codes "head_sha") value
    previous_branch ← text_at python (codes "previous_branch") value
    branch ← text_at python (codes "branch") value
    ok (record {
      kind = kind;
      occurred_at = occurred_at;
      previous_base_sha = previous_base_sha;
      base_sha = base_sha;
      previous_head_sha = previous_head_sha;
      head_sha = head_sha;
      previous_branch = previous_branch;
      branch = branch;
    })

  -- `_scope_amendment_to_dict`
  unfoldable pub amendment_to_dict : ScopeAmendment → Json
  amendment_to_dict value = object_of (
      (codes "added_scopes", array_of_texts value.added_scopes)
      ∷ (codes "occurred_at", string (python.isoformat value.occurred_at))
      ∷ (codes "reason", string value.reason)
      ∷ [])

  -- `_scope_amendment_from_dict`
  unfoldable pub amendment_from_dict : Json → Result ScopeAmendment
  amendment_from_dict value = do
    occurred_at ← time_at python (codes "occurred_at") value
    added_scopes ← texts_at python (codes "added_scopes") value
    reason ← text_at python (codes "reason") value
    ok (record { occurred_at = occurred_at; added_scopes = added_scopes; reason = reason })

  -- `_observation_to_dict`
  unfoldable pub observation_to_dict : GitLineageObservation → Json
  observation_to_dict value = object_of (
      (codes "base_revision", string value.base_revision)
      ∷ (codes "base_sha", string value.base_sha)
      ∷ (codes "branch", string value.branch)
      ∷ (codes "changed_paths", array_of_texts value.changed_paths)
      ∷ (codes "dirty_paths", array_of_texts value.dirty_paths)
      ∷ (codes "head_sha", string value.head_sha)
      ∷ (codes "id", string value.id)
      ∷ (codes "observed_at", string (python.isoformat value.observed_at))
      ∷ (codes "repository_id", string value.repository_id)
      ∷ (codes "worktree", string value.worktree)
      ∷ [])

  -- `_observation_from_dict`
  unfoldable pub observation_from_dict : Json → Result GitLineageObservation
  observation_from_dict value = do
    id ← text_at python (codes "id") value
    repository_id ← text_at python (codes "repository_id") value
    base_revision ← text_at python (codes "base_revision") value
    base_sha ← text_at python (codes "base_sha") value
    head_sha ← text_at python (codes "head_sha") value
    branch ← text_at python (codes "branch") value
    worktree ← text_at python (codes "worktree") value
    changed_paths ← texts_at python (codes "changed_paths") value
    dirty_paths ← texts_at python (codes "dirty_paths") value
    observed_at ← time_at python (codes "observed_at") value
    observation_post_init (record {
      id = id;
      repository_id = repository_id;
      base_revision = base_revision;
      base_sha = base_sha;
      head_sha = head_sha;
      branch = branch;
      worktree = worktree;
      changed_paths = changed_paths;
      dirty_paths = dirty_paths;
      observed_at = observed_at;
    })

  -- `_legacy_activation`
  unfoldable pub legacy_activation : Json → DateTime → Result LineageEvent
  legacy_activation payload at = do
    base_sha ← text_at python (codes "base_sha") payload
    head_sha ← text_at python (codes "head_sha") payload
    branch ← text_at python (codes "branch") payload
    ok (record {
      kind = LineageEventKind.activated;
      occurred_at = at;
      previous_base_sha = base_sha;
      base_sha = base_sha;
      previous_head_sha = base_sha;
      head_sha = head_sha;
      previous_branch = branch;
      branch = branch;
    })

  -- `_legacy_observation`
  unfoldable pub legacy_observation : Json → DateTime → Result GitLineageObservation
  legacy_observation payload at = do
    id ← text_at python (codes "observation_id") payload
    repository_id ← text_at python (codes "repository_id") payload
    base_revision ← text_at python (codes "base_revision") payload
    base_sha ← text_at python (codes "base_sha") payload
    head_sha ← text_at python (codes "head_sha") payload
    branch ← text_at python (codes "branch") payload
    worktree ← text_at python (codes "worktree") payload
    changed_paths ← texts_at python (codes "changed_paths") payload
    dirty_paths ← texts_at python (codes "dirty_paths") payload
    observation_post_init (record {
      id = id;
      repository_id = repository_id;
      base_revision = base_revision;
      base_sha = base_sha;
      head_sha = head_sha;
      branch = branch;
      worktree = worktree;
      changed_paths = changed_paths;
      dirty_paths = dirty_paths;
      observed_at = at;
    })

  -- `tuple(Scope.parse(value) for value in scopes)`, each as a dictionary
  unfoldable pub scope_dicts : List Text → Result (List Json)
  scope_dicts [] = ok []
  scope_dicts (text ∷ texts) = do
    scope ← parse u text none
    rest ← scope_dicts texts
    ok (to_dict scope ∷ rest)

  -- The dictionary that `binding_to_payload` returns.
  abbrev pub written : ChangeBinding → GitLineageObservation → (scopes : List Json) → Json
  written binding newest scopes = object_of (
      (codes "base_revision", string binding.base_revision)
      ∷ (codes "base_sha", string newest.base_sha)
      ∷ (codes "branch", string newest.branch)
      ∷ (codes "changed_paths", array_of_texts newest.changed_paths)
      ∷ (codes "created_at", string (python.isoformat binding.change_set.created_at))
      ∷ (codes "dirty_paths", array_of_texts newest.dirty_paths)
      ∷ (codes "goal", string binding.change_set.goal)
      ∷ (codes "head_sha", string newest.head_sha)
      ∷ (codes "id", string binding.change_set.id)
      ∷ (codes "lineage", array_of (map lineage_to_dict binding.change_set.lineage))
      ∷ (codes "observation_id", string newest.id)
      ∷ (codes "observations", array_of (map observation_to_dict binding.observations))
      ∷ (codes "repository_id", string binding.change_set.repository_id)
      ∷ (codes "schema_version", number 1)
      ∷ (
        codes "scope_amendments",
        array_of (map amendment_to_dict binding.change_set.scope_amendments),
      )
      ∷ (codes "scopes", array_of scopes)
      ∷ (codes "state", string (state_value binding.change_set.state))
      ∷ (codes "updated_at", string (python.isoformat binding.change_set.updated_at))
      ∷ (codes "worktree", string newest.worktree)
      ∷ [])

  unfoldable pub binding_to_payload : ChangeBinding → Result Json
  binding_to_payload binding = do
    newest ← latest binding
    scopes ← scope_dicts binding.change_set.scopes
    ok (written binding newest scopes)

  -- `payload.get(key)`. On what is no dictionary the reading of the scopes, which comes first, has
  -- failed already.
  abbrev pub get : Text → Json → Option Json
  get key (object fields) = find key fields
  get key _ = none

  -- `payload.get("schema_version") == 1`
  abbrev pub is_current : Option Json → Bool
  is_current none = false
  is_current (some v) = is_one v

  -- `payload.get("scope_amendments", [])`
  abbrev pub amendments_of : Option Json → Result (List ScopeAmendment)
  amendments_of none = ok []
  amendments_of (some v) = do vs ← iterated v; each amendment_from_dict vs

  -- What is read of the history: the lineage, the observations and the amendments.
  abbrev pub History : Type 0
  History = List LineageEvent × List GitLineageObservation × List ScopeAmendment

  unfoldable pub current_history : Json → Result History
  current_history payload = do
    lineage_value ← at_key (codes "lineage") payload
    lineage_values ← iterated lineage_value
    lineage ← each lineage_from_dict lineage_values
    observations_value ← at_key (codes "observations") payload
    observation_values ← iterated observations_value
    observations ← each observation_from_dict observation_values
    amendments ← amendments_of (get (codes "scope_amendments") payload)
    ok (lineage, observations, amendments)

  unfoldable pub legacy_history : Json → DateTime → Result History
  legacy_history payload at = do
    event ← legacy_activation payload at
    observation ← legacy_observation payload at
    ok (event ∷ [], observation ∷ [], [])

  module _ (resolve : Text → Text) where
    -- The body of the `try`
    unfoldable pub read_binding : Json → Result ChangeBinding
    read_binding payload = do
      scopes_value ← at_key (codes "scopes") payload
      scope_values ← iterated scopes_value
      scopes ← each (scope_in u) scope_values
      created_at ← time_at python (codes "created_at") payload
      updated_at ← time_at python (codes "updated_at") payload
      (lineage, observations, amendments) ←
          (if is_current (get (codes "schema_version") payload)
            then current_history payload
            else legacy_history payload updated_at)
      id ← text_at python (codes "id") payload
      goal ← text_at python (codes "goal") payload
      repository_id ← text_at python (codes "repository_id") payload
      base_sha ← text_at python (codes "base_sha") payload
      head_sha ← text_at python (codes "head_sha") payload
      branch ← text_at python (codes "branch") payload
      worktree ← text_at python (codes "worktree") payload
      state_text ← text_at python (codes "state") payload
      state ← state_of state_text
      change_set ← ChangeSet.post_init (record {
        id = id;
        goal = goal;
        repository_id = repository_id;
        base_sha = base_sha;
        head_sha = head_sha;
        branch = branch;
        worktree = worktree;
        scopes = map canonical scopes;
        state = state;
        created_at = created_at;
        updated_at = updated_at;
        lineage = lineage;
        scope_amendments = amendments;
      })
      base_revision ← text_at python (codes "base_revision") payload
      Binding.post_init resolve (record {
        change_set = change_set;
        base_revision = base_revision;
        observations = observations;
      })

    unfoldable pub binding_from_payload : Json → Result ChangeBinding
    binding_from_payload payload = or_raise (read_binding payload) workspace_error

    -- How WorkspaceService keeps a binding in the ledger.
    abbrev pub binding_codec : Codec ChangeBinding
    binding_codec = record {
      kind = codes "changeset";
      encode = λ binding. binding_to_payload binding >>= safe_payload u python;
      decode = λ text. python.loads text >>= binding_from_payload;
    }
