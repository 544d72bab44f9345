-- ===== src/Binding/Shown.antt =====
-- What an observation of Git shows, and what an accepted binding has of its newest one.
use weft_mark.Prelude.{
  ℕ, Bool, true, false, not, Option, none, some, ◌++◌, map, any, is_empty, repeats, last?, codes,
  decimal, Text, text_eq, text_eq_iff, or_text, DateTime, ok, require_text, require_aware, raise_if,
  raise_if-passed, ◌≡◌, ◌∙◌, sym, ap, refl, arith, unbind, uncheck, ok-injective,
  change_binding_error,
}
use weft_mark.ChangeSet.{ChangeSet}
use weft_mark.Binding.{
  GitLineageObservation, ChangeBinding, observation_post_init, latest, last_of, any_backwards,
  is_bound, post_init,
}
use weft_mark.Binding.Observe.{Git, GitRepository, GitHead, observe, validate_context, assert_some}

pub not-false : (b : Bool) → not b ≡ false → b ≡ true
not-false true e = refl
not-false false e = cc

-- A binding that its constructor accepts is the one that was given, bound to its newest observation.
pub post_init-bound :
    (resolve : Text → Text) (b c : ChangeBinding)
    → post_init resolve b ≡ ok c
    → (c ≡ b)
      × ((newest : GitLineageObservation) × (last? b.observations ≡ some newest)
          × (text_eq b.base_revision newest.base_revision ≡ true)
          × (is_bound resolve b.change_set newest ≡ true))
unfolding post_init
post_init-bound resolve b c e =
    let (_, e1) = uncheck {first = require_text change_binding_error b.base_revision} e in
    let (_, e2) = uncheck {first = raise_if (is_empty b.observations) change_binding_error} e1 in
    let (_, e3) =
      uncheck
        {first = raise_if
          (any
            (λ (o : GitLineageObservation).
              not (text_eq o.repository_id b.change_set.repository_id))
            b.observations)
          change_binding_error}
        e2 in
    let (_, e4) =
      uncheck
        {first = raise_if (repeats (map (λ (o : GitLineageObservation). o.id) b.observations))
          change_binding_error}
        e3 in
    let (backwards, _, e5) = unbind {first = any_backwards b.observations} e4 in
    let (_, e6) = uncheck {first = raise_if backwards change_binding_error} e5 in
    let (newest, is_newest, e7) = unbind {first = latest b} e6 in
    let (revision, e8) =
      uncheck
        {first = raise_if (not (text_eq b.base_revision newest.base_revision)) change_binding_error}
        e7 in
    let (bound, e9) =
      uncheck {first = raise_if (not (is_bound resolve b.change_set newest)) change_binding_error}
        e8 in
    (
      sym (ok-injective b c e9),
      (
        newest,
        last_of-eq-ok (last? b.observations) newest is_newest,
        not-false _ (raise_if-passed _ _ revision),
        not-false _ (raise_if-passed _ _ bound),
      ),
    )
  where
    last_of-eq-ok :
        (o : Option GitLineageObservation) (n : GitLineageObservation)
        → last_of o ≡ ok n
        → o ≡ some n
    last_of-eq-ok none n e = cc
    last_of-eq-ok (some m) n e = ap some (ok-injective m n e)

pub post_init-eq-ok :
    (resolve : Text → Text) (b c : ChangeBinding) → post_init resolve b ≡ ok c → c ≡ b
post_init-eq-ok resolve b c e = (post_init-bound resolve b c e).0

-- What an observation says, where its constructor accepts it.
observation_post_init-eq-ok : (o p : GitLineageObservation) → observation_post_init o ≡ ok p → p ≡ o
unfolding observation_post_init
observation_post_init-eq-ok o p e = ground (arith, e)

module _ (git : Git) where
  -- What an observation of Git shows.
  pub record IsShown (c : ChangeSet) (base_revision : Text) (resolved : Option Text) (sequence : ℕ)
      (at : DateTime) (o : GitLineageObservation) : Type 0 where
    pub repository : GitRepository
    pub head : GitHead
    pub of_repository : git.repository ≡ ok repository
    pub of_head : git.head ≡ ok head
    pub id : o.id ≡ c.id ++ codes ":git:" ++ decimal sequence
    pub repository_id : o.repository_id ≡ c.repository_id
    pub named : o.base_revision ≡ base_revision
    pub base_sha : git.commit (or_text resolved base_revision) ≡ ok o.base_sha
    pub head_sha : o.head_sha ≡ head.target
    pub branch : head.branch ≡ some o.branch
    pub changed_paths : git.diff o.base_sha head.target ≡ ok o.changed_paths
    pub dirty_paths : git.status ≡ ok o.dirty_paths
    pub observed_at : o.observed_at ≡ at

  pub observe-IsShown :
      (c : ChangeSet) (base_revision : Text) (resolved : Option Text) (sequence : ℕ) (at : DateTime)
      (o : GitLineageObservation)
      → observe git c base_revision resolved sequence at ≡ ok o
      → IsShown c base_revision resolved sequence at o
  unfolding observe validate_context
  observe-IsShown c base_revision resolved sequence at o e =
      let (_, e1) = uncheck {first = require_aware change_binding_error at} e in
      let (repository, of_repository, e2) = unbind {first = git.repository} e1 in
      let (head, of_head, e3) = unbind {first = git.head} e2 in
      let (valid, e4) = uncheck {first = validate_context git c repository head} e3 in
      let (base, resolves, e5) = unbind {first = git.commit (or_text resolved base_revision)} e4 in
      let (changed_paths, diff, e6) = unbind {first = git.diff base head.target} e5 in
      let (dirty_paths, status, e7) = unbind {first = git.status} e6 in
      let (worktree, _, e8) = unbind {first = assert_some repository.worktree} e7 in
      let (branch, on, e9) = unbind {first = assert_some head.branch} e8 in
      let is = observation_post_init-eq-ok _ o e9 in
      let (same, _) =
        uncheck
          {first = raise_if (not (text_eq repository.id c.repository_id)) change_binding_error}
          valid in
      record {
        repository = repository;
        head = head;
        of_repository = of_repository;
        of_head = of_head;
        id = ap (λ (x : GitLineageObservation). x.id) is;
        repository_id =
            ap (λ (x : GitLineageObservation). x.repository_id) is
            ∙ (text_eq_iff repository.id c.repository_id).0
                (ground (arith, raise_if-passed _ _ same));
        named = ap (λ (x : GitLineageObservation). x.base_revision) is;
        base_sha = resolves ∙ ap ok (ap (λ (x : GitLineageObservation). x.base_sha) (sym is));
        head_sha = ap (λ (x : GitLineageObservation). x.head_sha) is;
        branch =
            assert_some-eq-ok head.branch branch on
            ∙ ap some (ap (λ (x : GitLineageObservation). x.branch) (sym is));
        changed_paths =
            ap (λ (x : GitLineageObservation). git.diff x.base_sha head.target) is
            ∙ diff
            ∙ ap ok (ap (λ (x : GitLineageObservation). x.changed_paths) (sym is));
        dirty_paths = status ∙ ap ok (ap (λ (x : GitLineageObservation). x.dirty_paths) (sym is));
        observed_at = ap (λ (x : GitLineageObservation). x.observed_at) is;
      }
    where
      assert_some-eq-ok : (o : Option Text) (s : Text) → assert_some o ≡ ok s → o ≡ some s
      assert_some-eq-ok none s e = cc
      assert_some-eq-ok (some t) s e = ap some (ok-injective t s e)
