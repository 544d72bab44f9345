-- ===== src/Planning.antt =====
-- src/weftmark/application/task_planning.py: which tasks may be taken up next. The tasks and relations that
-- the service reads from its TaskService are arguments. Their times are aware, as their constructors
-- check, and are compared by their instants.
pub mod Eligibility
mod Tests
use weft_mark.Prelude.{
  ℕ, zero, suc, ltb, leb, ◌==◌, Bool, true, false, ◌&&◌, ◌||◌, not, Option, none, some, List, [],
  ◌∷◌, ◌++◌, map, any, is_empty, select, length, Text, codes, text_eq, text_lt, sort_texts,
  set_texts, DateTime, Result, ok, err, ◌>>=◌, ◌>>◌, raise_if, if◌then◌else◌, task_planning_error,
}
use weft_mark.Task.{
  TaskState, TaskPriority, TaskIntent, TaskDependency, TaskConflict, idea, todo, in_progress,
  blocked, done, abandoned, p0, p1, p2, p3, is_new, state_eq,
}

pub record TaskEligibility : Type 0 where
  pub task : TaskIntent
  pub eligible : Bool
  pub reasons : List Text

pub record TaskSelection : Type 0 where
  pub considered : ℕ
  pub eligible : ℕ
  pub tasks : List TaskEligibility
  pub skipped : List TaskEligibility

-- `state.value`
abbrev pub state_value : TaskState → Text
state_value idea = codes "idea"
state_value todo = codes "todo"
state_value in_progress = codes "in_progress"
state_value blocked = codes "blocked"
state_value done = codes "done"
state_value abandoned = codes "abandoned"

-- `", ".join(parts)`
unfoldable pub comma_join : List Text → Text
comma_join [] = []
comma_join (part ∷ []) = part
comma_join (part ∷ q ∷ parts) = part ++ codes ", " ++ comma_join (q ∷ parts)

-- `by_id[id]`: of tasks with one id the last counts.
unfoldable pub by_id : List TaskIntent → Text → Option TaskIntent
by_id [] id = none
by_id (t ∷ ts) id = elim (by_id ts id) [
  | some u ↦ some u
  | none ↦ if text_eq t.id id then some t else none
]

-- `id in by_id`
abbrev pub is_known : List TaskIntent → Text → Bool
is_known tasks id = any (λ (t : TaskIntent). text_eq t.id id) tasks

-- `by_id[id].state is state`. The relations were checked before to name known tasks only.
abbrev has_state : TaskState → Option TaskIntent → Bool
has_state state none = false
has_state state (some t) = state_eq t.state state

abbrev pub is_in : TaskState → List TaskIntent → Text → Bool
is_in state tasks id = has_state state (by_id tasks id)

-- `sorted(dependencies.get(task.id, ()))`
unfoldable pub dependencies_of : Text → List TaskDependency → List Text
dependencies_of id relations = sort_texts (
    map (λ (r : TaskDependency). r.depends_on_task_id)
      (select (λ (r : TaskDependency). text_eq r.task_id id) relations))

-- What the loop over the conflicts adds to the set of one task.
unfoldable pub peers : Text → List TaskConflict → List Text
peers id [] = []
peers id (r ∷ relations) =
    (if text_eq r.first_task_id id then r.second_task_id ∷ [] else [])
    ++ (if text_eq r.second_task_id id then r.first_task_id ∷ [] else [])
    ++ peers id relations

-- `sorted(conflicts.get(task.id, ()))`
unfoldable pub conflicts_of : Text → List TaskConflict → List Text
conflicts_of id relations = sort_texts (set_texts (peers id relations))

-- `int(priority.value[1:])`
abbrev pub urgency : TaskPriority → ℕ
urgency p0 = 0
urgency p1 = 1
urgency p2 = 2
urgency p3 = 3

-- The order of the sorting key: priority, then creation time, then id.
unfoldable pub comes_before : TaskEligibility → TaskEligibility → Bool
comes_before a b =
    ltb (urgency a.task.priority) (urgency b.task.priority)
    || (urgency a.task.priority == urgency b.task.priority
        && (ltb a.task.created_at.instant b.task.created_at.instant
            || (a.task.created_at.instant == b.task.created_at.instant
                && text_lt a.task.id b.task.id)))

unfoldable pub insert : TaskEligibility → List TaskEligibility → List TaskEligibility
insert v [] = v ∷ []
insert v (w ∷ ws) = let rest = insert v ws in if comes_before w v then w ∷ rest else v ∷ w ∷ ws

-- `sorted(values, key=…)`, which keeps the order of equal keys.
unfoldable pub sort_values : List TaskEligibility → List TaskEligibility
sort_values [] = []
sort_values (v ∷ vs) = insert v (sort_values vs)

-- `values[:limit]`
unfoldable pub first_of : ℕ → List TaskEligibility → List TaskEligibility
first_of zero vs = []
first_of (suc n) [] = []
first_of (suc n) (v ∷ vs) = v ∷ first_of n vs

module _ (tasks : List TaskIntent) (dependencies : List TaskDependency)
    (conflicts : List TaskConflict) where
  unfoldable pub unmet : Text → List Text
  unmet id = select (λ d. not (is_in done tasks d)) (dependencies_of id dependencies)

  unfoldable pub active_conflicts : Text → List Text
  active_conflicts id = select (is_in in_progress tasks) (conflicts_of id conflicts)

  unfoldable pub reasons_of : TaskIntent → List Text
  reasons_of task =
      (if is_new task.state
        then []
        else (codes "task state is not selectable: " ++ state_value task.state) ∷ [])
      ++ (if is_empty (unmet task.id)
          then []
          else (codes "dependencies not done: " ++ comma_join (unmet task.id)) ∷ [])
      ++ (if is_empty (active_conflicts task.id)
          then []
          else (codes "conflicts in progress: " ++ comma_join (active_conflicts task.id)) ∷ [])

  unfoldable pub judge_task : TaskIntent → TaskEligibility
  judge_task task = record {
    task = task;
    eligible = is_empty (reasons_of task);
    reasons = reasons_of task;
  }

  -- `_evaluate`
  unfoldable pub evaluate : Result (List TaskEligibility)
  evaluate = do
    raise_if
        (any
          (λ (r : TaskDependency).
            not (is_known tasks r.task_id) || not (is_known tasks r.depends_on_task_id))
          dependencies)
        task_planning_error
    raise_if
        (any
          (λ (r : TaskConflict).
            not (is_known tasks r.first_task_id) || not (is_known tasks r.second_task_id))
          conflicts)
        task_planning_error
    ok (map judge_task tasks)

  -- `next`
  unfoldable pub next_tasks : (limit : ℕ) → Result TaskSelection
  next_tasks limit = do
    raise_if (not (leb 1 limit) || not (leb limit 100)) task_planning_error
    evaluated ← evaluate
    let eligible = sort_values (select (λ (v : TaskEligibility). v.eligible) evaluated)
    ok (record {
      considered = length evaluated;
      eligible = length eligible;
      tasks = first_of limit eligible;
      skipped = select (λ (v : TaskEligibility). not v.eligible) evaluated;
    })

-- `eligibility`: the one value for the id.
abbrev pub the_only : List TaskEligibility → Result TaskEligibility
the_only (v ∷ []) = ok v
the_only _ = err task_planning_error

unfoldable pub eligibility :
    List TaskIntent → List TaskDependency → List TaskConflict → Text → Result TaskEligibility
eligibility tasks dependencies conflicts id = do
  evaluated ← evaluate tasks dependencies conflicts
  the_only (select (λ (v : TaskEligibility). text_eq v.task.id id) evaluated)
