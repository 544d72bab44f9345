-- ===== src/Task/Tests.antt =====
-- Runs of task.py on small inputs, and its theorems at them.
use weft_mark.Prelude.{
  true, false, ◌&&◌, not, [], ◌∷◌, none, some, codes, text_eq, text_lt, is_space, lstrip, strip,
  is_blank, utc, ok, err, ◌≡◌, refl, arith, if◌then◌else◌, task_error, type_error, last?,
}
use weft_mark.Scope.{file, value, canonical}
use weft_mark.Scope.Normalize.{
  Unicode, require_text, slashes, split_slash, join_slash, posix_path, normalize_file, dashes,
  is_semantic_key, kind_of, partition_colon, stripped_label, normalize_semantic, make, parse,
}
use weft_mark.Task.{
  TaskIntent, TaskStateEvent, TaskConflict, p1, todo, in_progress, done, is_identifier, is_allowed,
  event_post_init, follow_events, validate_event_chain, check_scope, check_scopes, post_init,
  create, transition, conflict_post_init, between, includes, other,
}
use weft_mark.Task.History.{moved, task_transition_outcome, naive_transition, done_from_in_progress}

-- What a run has to see through.
program : Unit {0}
unfolding value canonical require_text slashes split_slash join_slash posix_path normalize_file
    dashes is_semantic_key kind_of partition_colon stripped_label normalize_semantic make parse
    is_identifier is_allowed event_post_init follow_events validate_event_chain check_scope
    check_scopes post_init create transition conflict_post_init between includes other is_blank
    strip lstrip is_space text_eq text_lt
program = tt

-- The Unicode tables, for texts of small ASCII letters.
abbrev ascii : Unicode
ascii = record { nfkc = λ s. s; casefold = λ s. s }

abbrev idea_of_parser : TaskIntent
idea_of_parser = record {
  id = codes "parser-1";
  title = codes "Parser";
  why = codes "need";
  what = codes "write";
  roi_note = none;
  priority = p1;
  state = todo;
  scopes = codes "file:src/a.py" ∷ [];
  created_at = utc 1;
  updated_at = utc 1;
  state_events = [];
}

create-parser :
    create ascii
      (codes "parser-1")
      (codes "Parser")
      (codes "need")
      (codes "write")
      none
      p1
      todo
      (record { kind = file; key = codes "src/a.py"; display_label = none } ∷ [])
      (utc 1)
    ≡ ok idea_of_parser
unfolding program
create-parser = refl

parser_valid : post_init ascii idea_of_parser ≡ ok idea_of_parser
unfolding program
parser_valid = refl

abbrev begun : TaskIntent
begun = moved in_progress (codes "ann") (codes "start") (utc 2) idea_of_parser

abbrev finished : TaskIntent
finished = moved done (codes "ann") (codes "works") (utc 3) begun

transition-begun : transition ascii done (codes "ann") (codes "works") (utc 3) begun ≡ ok finished
unfolding program
transition-begun = refl

begun_valid : post_init ascii begun ≡ ok begun
unfolding program
begun_valid = refl

finished_valid : post_init ascii finished ≡ ok finished
unfolding program
finished_valid = refl

task_transition_outcome_example :
    transition ascii done (codes "ann") (codes "works") (utc 3) begun ≡ (
      if is_allowed in_progress done
        && (not (is_blank (codes "ann")) && not (is_blank (codes "works")))
      then ok (moved done (codes "ann") (codes "works") (utc 3) begun)
      else err task_error)
task_transition_outcome_example =
    task_transition_outcome ascii done (codes "ann") (codes "works") (utc 3) begun begun_valid refl
      (omega arith)

begun_may_end : is_allowed in_progress done ≡ true
unfolding program
begun_may_end = refl

naive_transition_example :
    transition ascii done
      (codes "ann")
      (codes "works")
      (record { instant = 3; aware = false })
      begun
    ≡ err type_error
naive_transition_example =
    naive_transition ascii done (codes "ann") (codes "works")
      (record { instant = 3; aware = false }) begun begun_valid begun_may_end refl

done_from_in_progress_example :
    (x : TaskStateEvent) × (last? finished.state_events ≡ some x)
    × (x.state ≡ done)
    × (x.previous_state ≡ in_progress)
done_from_in_progress_example = done_from_in_progress ascii finished finished_valid refl

abbrev clash : TaskConflict
clash = record {
  first_task_id = codes "a";
  second_task_id = codes "b";
  reason = codes "same file";
  created_at = utc 1;
}

between-clash : between (codes "b") (codes "a") (codes "same file") (utc 1) ≡ ok clash
unfolding program
between-clash = refl

clash_valid : conflict_post_init clash ≡ ok clash
unfolding program
clash_valid = refl

other-clash : other clash (codes "a") ≡ ok (codes "b")
unfolding program
other-clash = refl
