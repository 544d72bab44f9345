-- ===== src/ChangeSet.antt =====
-- src/weftmark/domain/changeset.py: an immutable snapshot of intent, working context and Git
-- lineage. `replace` builds a new object and runs `__post_init__` again, as `post_init` does here.
-- `now` is what `_now()` reads from the clock.

pub mod Outcomes
pub mod History
pub mod Lineage
pub mod Scopes
pub mod Lifecycle
mod Tests
use weft_mark.Prelude.{
  ℕ, Bool, true, false, ◌||◌, not, Option, none, some, ◌&&◌, List, [], ◌∷◌, ◌++◌, is_empty, select,
  Text, text_eq, require_text, require_texts, or_text, mem_text, repeats, strip, DateTime, or_now,
  require_aware, raise_if_before, Result, ok, err, ◌>>=◌, ◌>>◌, raise_if, if◌then◌else◌, sort_texts,
  change_set_error, invalid_transition, invalid_lineage_change,
}

pub data ChangeSetState : Type 0 where
  planned active review merged closed abandoned : ChangeSetState

pub data LineageEventKind : Type 0 where
  activated head_advanced branch_moved rebased : LineageEventKind

pub record LineageEvent : Type 0 where
  pub kind : LineageEventKind
  pub occurred_at : DateTime
  pub previous_base_sha : Text
  pub base_sha : Text
  pub previous_head_sha : Text
  pub head_sha : Text
  pub previous_branch : Text
  pub branch : Text

pub record ScopeAmendment : Type 0 where
  pub occurred_at : DateTime
  pub added_scopes : List Text
  pub reason : Text

-- `_ALLOWED_TRANSITIONS`: `is_allowed s t` where `t` is in the set of `s`.
unfoldable pub is_allowed : ChangeSetState → ChangeSetState → Bool
is_allowed planned abandoned = true
is_allowed active review = true
is_allowed active abandoned = true
is_allowed review active = true
is_allowed review merged = true
is_allowed review abandoned = true
is_allowed merged closed = true
is_allowed _ _ = false

-- `_LINEAGE_STATES`
abbrev pub is_lineage_state : ChangeSetState → Bool
is_lineage_state active = true
is_lineage_state review = true
is_lineage_state _ = false

abbrev pub is_planned : ChangeSetState → Bool
is_planned planned = true
is_planned _ = false

abbrev pub is_active : ChangeSetState → Bool
is_active active = true
is_active _ = false

pub record ChangeSet : Type 0 where
  pub id : Text
  pub goal : Text
  pub repository_id : Text
  pub base_sha : Text
  pub head_sha : Text
  pub branch : Text
  pub worktree : Text
  pub scopes : List Text
  pub state : ChangeSetState
  pub created_at : DateTime
  pub updated_at : DateTime
  pub lineage : List LineageEvent
  pub scope_amendments : List ScopeAmendment

unfoldable pub post_init : ChangeSet → Result ChangeSet
post_init c = do
  require_texts change_set_error
      (c.id ∷ c.goal ∷ c.repository_id ∷ c.base_sha ∷ c.head_sha ∷ c.branch ∷ c.worktree ∷ [])
  require_aware change_set_error c.created_at
  require_aware change_set_error c.updated_at
  raise_if_before c.updated_at c.created_at change_set_error
  raise_if (repeats c.scopes) change_set_error
  ok c

unfoldable pub plan :
    (now : DateTime) (id goal repository_id base_sha branch worktree : Text) (scopes : List Text)
    (at : Option DateTime)
    → Result ChangeSet
plan now id goal repository_id base_sha branch worktree scopes at =
    let timestamp = or_now at now in
    post_init (record {
      id = id;
      goal = goal;
      repository_id = repository_id;
      base_sha = base_sha;
      head_sha = base_sha;
      branch = branch;
      worktree = worktree;
      scopes = scopes;
      state = planned;
      created_at = timestamp;
      updated_at = timestamp;
      lineage = [];
      scope_amendments = [];
    })

-- `_operation_time`
abbrev pub operation_time : DateTime → Option DateTime → ChangeSet → Result DateTime
operation_time now at self = do
  let timestamp = or_now at now
  require_aware change_set_error timestamp
  raise_if_before timestamp self.updated_at change_set_error
  ok timestamp

-- `kind is not ACTIVATED and self.state not in _LINEAGE_STATES`
abbrev is_misplaced : LineageEventKind → ChangeSetState → Bool
is_misplaced activated s = false
is_misplaced _ s = not (is_lineage_state s)

-- The three tests that the value which the event announces did change.
abbrev is_idle : LineageEventKind → (base head branch : Text) → ChangeSet → Bool
is_idle activated base head branch self = false
is_idle head_advanced base head branch self = text_eq head self.head_sha
is_idle branch_moved base head branch self = text_eq branch self.branch
is_idle rebased base head branch self = text_eq base self.base_sha

-- `state or self.state`
abbrev or_state : Option ChangeSetState → ChangeSetState → ChangeSetState
or_state none s = s
or_state (some t) s = t

module _ (now : DateTime) where
  unfoldable pub record_lineage :
      LineageEventKind
      → (base_sha head_sha branch : Option Text) → Option ChangeSetState
      → Option DateTime
      → ChangeSet
      → Result ChangeSet
  record_lineage kind base_sha head_sha branch state at self = do
    raise_if (is_misplaced kind self.state) invalid_lineage_change
    let next_base = or_text base_sha self.base_sha
    let next_head = or_text head_sha self.head_sha
    let next_branch = or_text branch self.branch
    require_texts change_set_error (next_base ∷ next_head ∷ next_branch ∷ [])
    raise_if (is_idle kind next_base next_head next_branch self) invalid_lineage_change
    timestamp ← operation_time now at self
    post_init (record self {
      base_sha = next_base;
      head_sha = next_head;
      branch = next_branch;
      state = or_state state self.state;
      updated_at = timestamp;
      lineage =
          self.lineage
          ++ record {
            kind = kind;
            occurred_at = timestamp;
            previous_base_sha = self.base_sha;
            base_sha = next_base;
            previous_head_sha = self.head_sha;
            head_sha = next_head;
            previous_branch = self.branch;
            branch = next_branch;
          }
            ∷ [];
    })

  unfoldable pub activate :
      (head_sha : Option Text) → Option DateTime → ChangeSet → Result ChangeSet
  activate head_sha at self = do
    raise_if (not (is_planned self.state)) invalid_transition
    record_lineage activated none (some (or_text head_sha self.head_sha)) none (some active) at self

  unfoldable pub transition : ChangeSetState → Option DateTime → ChangeSet → Result ChangeSet
  transition state at self = do
    raise_if (is_active state && is_planned self.state) invalid_transition
    raise_if (not (is_allowed self.state state)) invalid_transition
    timestamp ← operation_time now at self
    post_init (record self { state = state; updated_at = timestamp })

  unfoldable pub advance_head : Text → Option DateTime → ChangeSet → Result ChangeSet
  advance_head head_sha at self =
      record_lineage head_advanced none (some head_sha) none none at self

  unfoldable pub move_branch :
      Text → (head_sha : Text) → Option DateTime → ChangeSet → Result ChangeSet
  move_branch branch head_sha at self =
      record_lineage branch_moved none (some head_sha) (some branch) none at self

  unfoldable pub rebase : Text → (head_sha : Text) → Option DateTime → ChangeSet → Result ChangeSet
  rebase base_sha head_sha at self =
      record_lineage rebased (some base_sha) (some head_sha) none none at self

  unfoldable pub amend_scope :
      List Text → (reason : Text) → Option DateTime → ChangeSet → Result ChangeSet
  amend_scope added_scopes reason at self = do
    raise_if (not (is_lineage_state self.state)) invalid_lineage_change
    raise_if (is_empty added_scopes) change_set_error
    raise_if (repeats added_scopes) change_set_error
    require_text change_set_error reason
    let genuinely_new = select (λ scope. not (mem_text scope self.scopes)) added_scopes
    raise_if (is_empty genuinely_new) change_set_error
    timestamp ← operation_time now at self
    post_init (record self {
      scopes = sort_texts (self.scopes ++ genuinely_new);
      updated_at = timestamp;
      scope_amendments =
          self.scope_amendments
          ++ record { occurred_at = timestamp; added_scopes = genuinely_new; reason = strip reason }
            ∷ [];
    })
