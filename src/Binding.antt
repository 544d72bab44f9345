-- ===== src/Binding.antt =====
-- src/weftmark/application/change_binding.py: a Change Set with the observations of Git that it rests on.
-- `resolve` stands for `str(Path(p).resolve())`, which asks the file system.
pub mod Obsolete
pub mod Observe
pub mod Shown
pub mod Follow
mod Tests
use weft_mark.Prelude.{
  Bool, true, false, ◌&&◌, not, Option, none, some, List, [], ◌∷◌, map, any, is_empty, select,
  last?, repeats, sort_texts, Text, text_eq, require_text, require_texts, DateTime, precedes,
  require_aware, Result, ok, err, ◌>>=◌, ◌>>◌, raise_if, if◌then◌else◌, ◌==◌, change_binding_error,
  index_error, set_texts,
}
use weft_mark.ChangeSet.{ChangeSet}
use weft_mark.Evidence.{Evidence, subject_place, change_set, superseded}
use weft_mark.Policy.{is_superseded}

pub record GitLineageObservation : Type 0 where
  pub id : Text
  pub repository_id : Text
  pub base_revision : Text
  pub base_sha : Text
  pub head_sha : Text
  pub branch : Text
  pub worktree : Text
  pub changed_paths : List Text
  pub dirty_paths : List Text
  pub observed_at : DateTime

unfoldable pub observation_post_init : GitLineageObservation → Result GitLineageObservation
observation_post_init o = do
  require_texts change_binding_error (
      o.id ∷ o.repository_id ∷ o.base_revision ∷ o.base_sha ∷ o.head_sha ∷ o.branch ∷ o.worktree
      ∷ [])
  require_aware change_binding_error o.observed_at
  raise_if (repeats o.changed_paths) change_binding_error
  raise_if (repeats o.dirty_paths) change_binding_error
  ok o

pub record ChangeBinding : Type 0 where
  pub change_set : ChangeSet
  pub base_revision : Text
  pub observations : List GitLineageObservation

-- `xs[-1]`
abbrev pub last_of : Option GitLineageObservation → Result GitLineageObservation
last_of none = err index_error
last_of (some o) = ok o

-- `binding.latest`
abbrev pub latest : ChangeBinding → Result GitLineageObservation
latest self = last_of (last? self.observations)

-- `any(current.observed_at < previous.observed_at for previous, current in zip(…))`
unfoldable pub any_backwards : List GitLineageObservation → Result Bool
any_backwards [] = ok false
any_backwards (o ∷ []) = ok false
any_backwards (o ∷ p ∷ os) = do
  back ← precedes p.observed_at o.observed_at
  let rest = any_backwards (p ∷ os)
  if back then ok true else rest

-- `expected == observed`
abbrev pub is_bound : (resolve : Text → Text) → ChangeSet → GitLineageObservation → Bool
is_bound resolve c o =
    text_eq c.base_sha o.base_sha
    && (text_eq c.head_sha o.head_sha
        && (text_eq c.branch o.branch && text_eq (resolve c.worktree) (resolve o.worktree)))

unfoldable pub post_init : (resolve : Text → Text) → ChangeBinding → Result ChangeBinding
post_init resolve b = do
  require_text change_binding_error b.base_revision
  raise_if (is_empty b.observations) change_binding_error
  raise_if
      (any (λ (o : GitLineageObservation). not (text_eq o.repository_id b.change_set.repository_id))
        b.observations)
      change_binding_error
  raise_if (repeats (map (λ (o : GitLineageObservation). o.id) b.observations)) change_binding_error
  backwards ← any_backwards b.observations
  raise_if backwards change_binding_error
  newest ← latest b
  raise_if (not (text_eq b.base_revision newest.base_revision)) change_binding_error
  raise_if (not (is_bound resolve b.change_set newest)) change_binding_error
  ok b

-- `record.bound_commit_sha != head_sha`
abbrev pub is_bound_elsewhere : Text → Option Text → Bool
is_bound_elsewhere head none = true
is_bound_elsewhere head (some sha) = not (text_eq sha head)

abbrev pub is_obsolete : (change_set_id head : Text) → Evidence → Bool
is_obsolete change_set_id head entry =
    (subject_place entry.subject.kind == subject_place change_set)
    && (text_eq entry.subject.id change_set_id
        && (not (is_superseded entry.state) && is_bound_elsewhere head entry.bound_commit_sha))

-- An accepted binding has an observation, so it makes no difference that the code asks for the latest one
-- once for each record.
unfoldable pub obsolete_evidence_ids : ChangeBinding → List Evidence → Result (List Text)
obsolete_evidence_ids self evidence = do
  newest ← latest self
  ok (
      sort_texts (
        set_texts (
          map (λ (e : Evidence). e.id)
            (select (is_obsolete self.change_set.id newest.head_sha) evidence))))
