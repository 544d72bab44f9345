-- ===== src/Binding/Tests/Service.antt =====
-- A Change Set that is bound to a repository, and a binding that is refreshed.
use weft_mark.Prelude.{
  [], ◌∷◌, codes, text_eq, text_lt, digits, is_blank, strip, lstrip, is_space, utc,
}
use weft_mark.ChangeSet
use weft_mark.ChangeSet.{ChangeSet, planned, activate}
use weft_mark.Binding
use weft_mark.Binding.{ChangeBinding, GitLineageObservation, observation_post_init}
use weft_mark.Binding.Observe
use weft_mark.Binding.Observe.{create, refresh}
use weft_mark.Samples.{bound, first_observation}

program : Unit {0}
unfolding text_eq text_lt digits is_blank strip lstrip is_space ChangeSet.post_init
    ChangeSet.record_lineage ChangeSet.activate ChangeSet.advance_head Binding.post_init
    Binding.any_backwards observation_post_init Observe.validate_context Observe.observe
    Observe.create Observe.follow_base Observe.follow_head Observe.refresh
program = tt

-- Git shows another head and one path that changed.
abbrev second_observation : GitLineageObservation
second_observation = record first_observation {
  id = codes "cs:git:2";
  head_sha = codes "h2";
  changed_paths = codes "a" ∷ [];
  observed_at = utc 3;
}

abbrev refreshed : ChangeBinding
refreshed = record bound {
  change_set = record (bound.change_set) {
    head_sha = codes "h2";
    updated_at = utc 3;
    lineage =
        record {
          kind = ChangeSet.head_advanced;
          occurred_at = utc 3;
          previous_base_sha = codes "b";
          base_sha = codes "b";
          previous_head_sha = codes "h1";
          head_sha = codes "h2";
          previous_branch = codes "topic";
          branch = codes "topic";
        }
        ∷ [];
  };
  observations = first_observation ∷ second_observation ∷ [];
}

-- A Change Set planned on the base of the repository.
abbrev new_set : ChangeSet
new_set = record (bound.change_set) { head_sha = codes "b"; state = planned }

abbrev created_observation : GitLineageObservation
created_observation = record first_observation {
  head_sha = codes "h2";
  changed_paths = codes "a" ∷ [];
  observed_at = utc 3;
}

abbrev created : ChangeBinding
created = record {
  change_set = record new_set {
    head_sha = codes "h2";
    state = ChangeSet.active;
    updated_at = utc 3;
    lineage =
        record {
          kind = ChangeSet.activated;
          occurred_at = utc 3;
          previous_base_sha = codes "b";
          base_sha = codes "b";
          previous_head_sha = codes "b";
          head_sha = codes "h2";
          previous_branch = codes "topic";
          branch = codes "topic";
        }
        ∷ [];
  };
  base_revision = codes "main";
  observations = created_observation ∷ [];
}
