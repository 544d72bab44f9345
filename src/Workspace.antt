-- ===== src/Workspace.antt =====
-- src/weftmark/application/workspace.py: Change Sets with their bindings, kept in the ledger. `codec` is how a
-- binding is written and read and `h` the ledger's digests. An operation is given the file that it reads and the file that its append
-- finds, and returns the new one.
pub mod Kept
pub mod Payload
mod Tests
use weft_mark.Prelude.{
  Bool, true, false, Option, none, some, List, [], ◌∷◌, map, Text, text_eq, codes, sort_texts,
  set_texts, DateTime, Result, ok, err, ◌>>=◌, ◌>>◌, raise_if, if◌then◌else◌, workspace_error,
}
use weft_mark.Scope.{Scope, canonical}
use weft_mark.ChangeSet.{ChangeSet, ChangeSetState, plan}
use weft_mark.ChangeSet
use weft_mark.Ledger.{Hashing, LedgerEntry, read_locked, history, latest}
use weft_mark.Ledger.Store.{Moment, Codec, record_value}
use weft_mark.Binding.{ChangeBinding}
use weft_mark.Binding
use weft_mark.Binding.Observe.{Git, GitRepository, GitHead, create, refresh}

-- What an operation leaves: the binding and the file.
abbrev pub Stored : Type 0
Stored = ChangeBinding × List LedgerEntry

module _ (git : Git) (h : Hashing) (codec : Codec ChangeBinding) where
  -- `_record`
  unfoldable pub record_binding :
      ChangeBinding → (recorded_at : DateTime) → List LedgerEntry → Result Stored
  record_binding binding recorded_at file = do
    longer ← record_value h codec binding.change_set.id binding recorded_at file
    ok (binding, longer)

  -- `self._ledger.latest(kind="changeset", entity_id=id)`
  unfoldable pub latest_entry : List LedgerEntry → Text → Result (Option LedgerEntry)
  latest_entry file id = do entries ← read_locked h file; ok (latest codec.kind id entries)

  abbrev pub decoded : Option LedgerEntry → Result (Option ChangeBinding)
  decoded none = ok none
  decoded (some entry) = do binding ← codec.decode entry.draft.payload_json; ok (some binding)

  unfoldable pub get_change_set : List LedgerEntry → Text → Result (Option ChangeBinding)
  get_change_set file id = do entry ← latest_entry file id; decoded entry

  abbrev pub required : Option ChangeBinding → Result ChangeBinding
  required none = err workspace_error
  required (some binding) = ok binding

  unfoldable pub require_change_set : List LedgerEntry → Text → Result ChangeBinding
  require_change_set file id = do binding ← get_change_set file id; required binding

  -- The bindings for the ids, in their order.
  unfoldable pub list_for : List LedgerEntry → List Text → Result (List ChangeBinding)
  list_for entries [] = ok []
  list_for entries (id ∷ ids) = do
    o ← decoded (latest codec.kind id entries)
    binding ← required o
    bindings ← list_for entries ids
    ok (binding ∷ bindings)

  unfoldable pub list_change_sets : List LedgerEntry → Result (List ChangeBinding)
  list_change_sets file = do
    entries ← read_locked h file
    let ids = map (λ (e : LedgerEntry). e.draft.entity_id) (history (some codec.kind) none entries)
    list_for entries (sort_texts (set_texts ids))

  abbrev pub is_present : Option LedgerEntry → Bool
  is_present none = false
  is_present (some entry) = true

  -- `raise WorkspaceError` unless there is a value.
  abbrev pub attached : Option Text → Result Text
  attached none = err workspace_error
  attached (some s) = ok s

  unfoldable pub create_change_set :
      (id goal base_revision : Text) (scopes : List Scope) (created_at : DateTime)
      → Moment
      → Result Stored
  create_change_set id goal base_revision scopes created_at moment = do
    existing ← latest_entry moment.seen id
    raise_if (is_present existing) workspace_error
    repository ← git.repository
    head ← git.head
    base ← git.commit base_revision
    let tracked_base_revision = if text_eq base_revision (codes "HEAD") then base else base_revision
    branch ← attached head.branch
    worktree ← attached repository.worktree
    planned ←
        plan created_at id goal repository.id base branch worktree (map canonical scopes)
          (some created_at)
    binding ← create git planned tracked_base_revision created_at
    record_binding binding created_at moment.found

  unfoldable pub refresh_change_set :
      (id : Text) (observed_at : DateTime) (base_revision : Option Text) → Moment → Result Stored
  refresh_change_set id observed_at base_revision moment = do
    current ← require_change_set moment.seen id
    refreshed ← refresh git current observed_at base_revision
    record_binding refreshed observed_at moment.found

  unfoldable pub transition_change_set :
      (id : Text) → ChangeSetState → (transitioned_at : DateTime) → Moment → Result Stored
  transition_change_set id state transitioned_at moment = do
    current ← require_change_set moment.seen id
    changed ← ChangeSet.transition transitioned_at state (some transitioned_at) current.change_set
    transitioned ← Binding.post_init git.resolve (record current { change_set = changed })
    record_binding transitioned transitioned_at moment.found

  unfoldable pub amend_scope :
      (id : Text) (added_scopes : List Scope) (reason : Text) (amended_at : DateTime)
      → Moment
      → Result Stored
  amend_scope id added_scopes reason amended_at moment = do
    current ← require_change_set moment.seen id
    changed ←
        ChangeSet.amend_scope amended_at (map canonical added_scopes) reason (some amended_at)
          current.change_set
    amended ← Binding.post_init git.resolve (record current { change_set = changed })
    record_binding amended amended_at moment.found
