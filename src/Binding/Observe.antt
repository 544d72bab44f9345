-- ===== src/Binding/Observe.antt =====
-- `ChangeBindingService` of src/weftmark/application/change_binding.py: what Git shows of a Change Set. Git is
-- reached through the port GitPort (src/weftmark/application/ports/git.py), whose answers are the
-- parameter `git`.
use weft_mark.Prelude.{
  ℕ, ◌+◌, Bool, true, false, ◌&&◌, not, decimal, Option, none, some, List, [], ◌∷◌, ◌++◌, length,
  Text, text_eq, codes, or_text, DateTime, require_aware, Result, ok, err, ◌>>=◌, ◌>>◌, raise_if,
  if◌then◌else◌, change_binding_error, assertion_error,
}
use weft_mark.ChangeSet.{ChangeSet, is_planned, activate, rebase, move_branch, advance_head}
use weft_mark.Binding.{GitLineageObservation, ChangeBinding, observation_post_init, post_init}

pub record GitRepository : Type 0 where
  pub id : Text
  pub worktree : Option Text

pub record GitHead : Type 0 where
  pub target : Text
  pub branch : Option Text

pub record Git : Type 0 where
  pub repository : Result GitRepository
  pub head : Result GitHead
  -- The id of the commit that a revision names.
  pub commit : Text → Result Text
  pub diff : (base head : Text) → Result (List Text)
  pub status : Result (List Text)
  -- `str(Path(p).resolve())`
  pub resolve : Text → Text

-- `assert value is not None`
abbrev pub assert_some : Option Text → Result Text
assert_some none = err assertion_error
assert_some (some s) = ok s

module _ (git : Git) where
  -- Where there is a worktree, it is the Change Set's.
  abbrev is_same_worktree : ChangeSet → Option Text → Bool
  is_same_worktree change_set none = false
  is_same_worktree change_set (some worktree) =
      text_eq (git.resolve worktree) (git.resolve change_set.worktree)

  abbrev is_detached : GitHead → Bool
  is_detached head = elim head.branch [ none ↦ true | some branch ↦ false ]

  -- `_validate_context`
  unfoldable pub validate_context : ChangeSet → GitRepository → GitHead → Result (Unit {0})
  validate_context change_set repository head = do
    raise_if (not (text_eq repository.id change_set.repository_id)) change_binding_error
    raise_if (not (is_same_worktree change_set repository.worktree)) change_binding_error
    raise_if (is_detached head) change_binding_error

  -- `_observe`
  unfoldable pub observe :
      ChangeSet
      → (base_revision : Text) (resolved_base_revision : Option Text) (sequence : ℕ)
        (observed_at : DateTime)
      → Result GitLineageObservation
  observe change_set base_revision resolved_base_revision sequence observed_at = do
    require_aware change_binding_error observed_at
    repository ← git.repository
    head ← git.head
    validate_context change_set repository head
    base ← git.commit (or_text resolved_base_revision base_revision)
    changed_paths ← git.diff base head.target
    dirty_paths ← git.status
    worktree ← assert_some repository.worktree
    branch ← assert_some head.branch
    observation_post_init (record {
      id = change_set.id ++ codes ":git:" ++ decimal sequence;
      repository_id = repository.id;
      base_revision = base_revision;
      base_sha = base;
      head_sha = head.target;
      branch = branch;
      worktree = worktree;
      changed_paths = changed_paths;
      dirty_paths = dirty_paths;
      observed_at = observed_at;
    })

  unfoldable pub create :
      ChangeSet → (base_revision : Text) (observed_at : DateTime) → Result ChangeBinding
  create change_set base_revision observed_at = do
    raise_if (not (is_planned change_set.state)) change_binding_error
    observation ← observe change_set base_revision none 1 observed_at
    raise_if (not (text_eq change_set.base_sha observation.base_sha)) change_binding_error
    raise_if (not (text_eq change_set.branch observation.branch)) change_binding_error
    active ← activate observed_at (some observation.head_sha) (some observed_at) change_set
    post_init git.resolve (record {
      change_set = active;
      base_revision = base_revision;
      observations = observation ∷ [];
    })

  -- `if base_changed: change_set = change_set.rebase(…)`
  unfoldable pub follow_base : GitLineageObservation → DateTime → ChangeSet → Result ChangeSet
  follow_base o at c =
      if not (text_eq o.base_sha c.base_sha)
      then rebase at o.base_sha o.head_sha (some at) c
      else ok c

  -- The second `if`, where the head or the branch is another one. The three tests are made on the Change Set
  -- before any of the changes.
  unfoldable pub follow_head :
      (base_changed branch_changed head_changed : Bool)
      → GitLineageObservation
      → DateTime
      → ChangeSet
      → Result ChangeSet
  follow_head base_changed branch_changed head_changed o at c =
      if branch_changed
      then move_branch at o.branch o.head_sha (some at) c
      else if head_changed && not base_changed
      then advance_head at o.head_sha (some at) c
      else ok c

  unfoldable pub refresh :
      ChangeBinding → (observed_at : DateTime) (base_revision : Option Text) → Result ChangeBinding
  refresh binding observed_at base_revision = do
    let before = binding.change_set
    let revision = or_text base_revision binding.base_revision
    observation ←
        observe before revision (some (or_text base_revision before.base_sha))
          (length binding.observations + 1) observed_at
    rebased ← follow_base observation observed_at before
    changed ←
        follow_head (not (text_eq observation.base_sha before.base_sha))
          (not (text_eq observation.branch before.branch))
          (not (text_eq observation.head_sha before.head_sha)) observation observed_at rebased
    post_init git.resolve (record {
      change_set = changed;
      base_revision = revision;
      observations = binding.observations ++ observation ∷ [];
    })
