-- ===== src/Binding/Tests.antt =====
-- Runs of change_binding.py on small inputs, and its theorems at them.
mod Service
use weft_mark.Prelude.{
  true, List, [], ◌∷◌, none, some, Text, mem_text, codes, text_eq, text_lt, is_space, lstrip, strip,
  is_blank, sort_texts, set_texts, utc, ok, ◌≡◌, ◌⊎◌, refl, inl,
}
use weft_mark.ChangeSet.{active}
use weft_mark.Evidence.{Evidence, test, worker, change_set, passed}
use weft_mark.Binding.{
  GitLineageObservation, ChangeBinding, any_backwards, post_init, obsolete_evidence_ids,
}
use weft_mark.Binding.Obsolete.{obsolete_or_bound}

-- What a run has to see through.
program : Unit {0}
unfolding any_backwards post_init obsolete_evidence_ids is_blank strip lstrip is_space text_eq
    text_lt sort_texts set_texts
program = tt

abbrev seen : GitLineageObservation
seen = record {
  id = codes "o1";
  repository_id = codes "repo";
  base_revision = codes "main";
  base_sha = codes "b";
  head_sha = codes "h1";
  branch = codes "topic";
  worktree = codes "tree";
  changed_paths = [];
  dirty_paths = [];
  observed_at = utc 1;
}

abbrev bound : ChangeBinding
bound = record {
  change_set = record {
    id = codes "cs";
    goal = codes "goal";
    repository_id = codes "repo";
    base_sha = codes "b";
    head_sha = codes "h2";
    branch = codes "topic";
    worktree = codes "tree";
    scopes = [];
    state = active;
    created_at = utc 1;
    updated_at = utc 2;
    lineage = [];
    scope_amendments = [];
  };
  base_revision = codes "main";
  observations =
      seen ∷ record seen { id = codes "o2"; head_sha = codes "h2"; observed_at = utc 2 } ∷ [];
}

bound_accepted : post_init (λ p. p) bound ≡ ok bound
unfolding program
bound_accepted = refl

abbrev green : Evidence
green = record {
  id = codes "e1";
  kind = test;
  producer = record { kind = worker; id = codes "w" };
  subject = record { kind = change_set; id = codes "cs" };
  bound_commit_sha = some (codes "h1");
  environment = none;
  command = none;
  artifacts = [];
  state = passed;
  detail = none;
  stale_reasons = [];
  created_at = utc 1;
  updated_at = utc 1;
  started_at = none;
  completed_at = some (utc 1);
}

obsolete-green :
    obsolete_evidence_ids bound
      (green ∷ record green { id = codes "e2"; bound_commit_sha = some (codes "h2") } ∷ [])
    ≡ ok (codes "e1" ∷ [])
unfolding program
obsolete-green = refl

obsolete_or_bound_example :
    (ids : List Text) × (obsolete_evidence_ids bound (green ∷ []) ≡ ok ids)
    × ((mem_text green.id ids ≡ true) ⊎ (green.bound_commit_sha ≡ some (codes "h2")))
obsolete_or_bound_example =
    obsolete_or_bound (λ p. p) bound green (green ∷ []) bound_accepted (inl refl) refl refl refl
