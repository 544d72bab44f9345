-- ===== src/Planning/Tests.antt =====
-- Runs of task_planning.py on small inputs, and its theorems at them.
use weft_mark.Prelude.{
  true, false, List, [], ◌∷◌, none, codes, text_eq, text_lt, sort_texts, set_texts, utc, ok, err,
  ◌≡◌, refl, In, inl, task_planning_error, length,
}
use weft_mark.Task.{TaskIntent, TaskDependency, p1, p2, todo}
use weft_mark.Planning.{
  TaskEligibility, TaskSelection, comma_join, by_id, dependencies_of, peers, conflicts_of, unmet,
  active_conflicts, reasons_of, judge_task, evaluate, comes_before, insert, sort_values, first_of,
  next_tasks, eligibility,
}
use weft_mark.Planning.Eligibility.{is_free, next_tasks-is_free, next_tasks-returns}

-- What a run has to see through.
program : Unit {0}
unfolding comma_join by_id dependencies_of peers conflicts_of unmet active_conflicts reasons_of
    judge_task evaluate comes_before insert sort_values first_of next_tasks eligibility text_eq
    text_lt sort_texts set_texts
program = tt

abbrev base : TaskIntent
base = record {
  id = codes "a";
  title = codes "t";
  why = codes "w";
  what = codes "w";
  roi_note = none;
  priority = p2;
  state = todo;
  scopes = [];
  created_at = utc 1;
  updated_at = utc 1;
  state_events = [];
}

abbrev first_task : TaskIntent
first_task = record base { id = codes "b"; priority = p1 }

abbrev late_task : TaskIntent
late_task = record base { id = codes "c" }

abbrev plan : List TaskIntent
plan = base ∷ first_task ∷ late_task ∷ []

-- The third task waits for the first.
abbrev links : List TaskDependency
links = record { task_id = codes "c"; depends_on_task_id = codes "a"; created_at = utc 2 } ∷ []

abbrev value_of : TaskIntent → TaskEligibility
value_of t = record { task = t; eligible = true; reasons = [] }

abbrev selection : TaskSelection
selection = record {
  considered = 3;
  eligible = 2;
  tasks = value_of first_task ∷ [];
  skipped =
      record { task = late_task; eligible = false; reasons = codes "dependencies not done: a" ∷ [] }
      ∷ [];
}

next-plan : next_tasks plan links [] 1 ≡ ok selection
unfolding program
next-plan = refl

no_limit : next_tasks plan links [] 0 ≡ err task_planning_error
unfolding program
no_limit = refl

eligibility-plan : eligibility plan links [] (codes "b") ≡ ok (value_of first_task)
unfolding program
eligibility-plan = refl

next_tasks-is_free_example : In first_task plan × (is_free plan links [] first_task ≡ true)
next_tasks-is_free_example =
    next_tasks-is_free plan links [] 1 selection (value_of first_task) next-plan (inl refl)

-- A task waits for one that is not there.
abbrev lost : List TaskDependency
lost = record { task_id = codes "c"; depends_on_task_id = codes "z"; created_at = utc 2 } ∷ []

no_such_task : next_tasks plan lost [] 1 ≡ err task_planning_error
unfolding program
no_such_task = refl

next_tasks-returns_example :
    (s : TaskSelection) × (next_tasks plan links [] 1 ≡ ok s)
    × (s.considered ≡ 3)
    × (s.eligible ≡ 2)
    × (length s.tasks ≡ 1)
    × (s.skipped ≡ judge_task plan links [] late_task ∷ [])
unfolding program
next_tasks-returns_example = next_tasks-returns plan links [] 1
