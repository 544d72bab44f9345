-- ===== src/Task.antt =====
-- src/weftmark/domain/task.py: task intent and the relations of a plan. The scopes of a task are parsed
-- again by its constructor, hence the parameter `u` for the Unicode tables.
pub mod History
pub mod Relations
mod Tests
use weft_mark.Prelude.{
  ℕ, Bool, true, false, ◌&&◌, ◌||◌, not, ◌==◌, leb, Option, none, some, List, [], ◌∷◌, ◌++◌, map,
  all, length, repeats, Text, text_eq, text_lt, require_text, when_some, DateTime, same_time,
  require_aware, raise_if_before, Result, ok, err, ◌>>=◌, ◌>>◌, raise_if, task_error, if◌then◌else◌,
}
use weft_mark.Scope.{Scope, canonical}
use weft_mark.Scope.Normalize.{Unicode, parse}

pub data TaskState : Type 0 where
  idea todo in_progress blocked done abandoned : TaskState

pub data TaskPriority : Type 0 where
  p0 p1 p2 p3 : TaskPriority

abbrev pub state_place : TaskState → ℕ
state_place idea = 0
state_place todo = 1
state_place in_progress = 2
state_place blocked = 3
state_place done = 4
state_place abandoned = 5

-- `a is b`
abbrev pub state_eq : TaskState → TaskState → Bool
state_eq a b = state_place a == state_place b

abbrev pub is_identifier_start : ℕ → Bool
is_identifier_start c = (leb b'a' c && leb c b'z') || (leb b'0' c && leb c b'9')

abbrev pub is_identifier_char : ℕ → Bool
is_identifier_char c = is_identifier_start c || c == b'.' || c == b'_' || c == b'-'

-- `_IDENTIFIER.fullmatch(s)`
unfoldable pub is_identifier : Text → Bool
is_identifier [] = false
is_identifier (c ∷ s) = is_identifier_start c && (all is_identifier_char s && leb (length s) 127)

-- `_require_identifier`
abbrev pub require_identifier : Text → Result (Unit {0})
require_identifier s = raise_if (not (is_identifier s)) task_error

-- `_ALLOWED_TRANSITIONS`
unfoldable pub is_allowed : TaskState → TaskState → Bool
is_allowed idea todo = true
is_allowed idea abandoned = true
is_allowed todo in_progress = true
is_allowed todo blocked = true
is_allowed todo abandoned = true
is_allowed in_progress todo = true
is_allowed in_progress blocked = true
is_allowed in_progress done = true
is_allowed in_progress abandoned = true
is_allowed blocked todo = true
is_allowed blocked in_progress = true
is_allowed blocked abandoned = true
is_allowed _ _ = false

pub record TaskStateEvent : Type 0 where
  pub previous_state : TaskState
  pub state : TaskState
  pub actor_id : Text
  pub rationale : Text
  pub occurred_at : DateTime

unfoldable pub event_post_init : TaskStateEvent → Result TaskStateEvent
event_post_init e = do
  require_text task_error e.actor_id
  require_text task_error e.rationale
  require_aware task_error e.occurred_at
  raise_if (state_eq e.previous_state e.state) task_error
  ok e

pub record TaskIntent : Type 0 where
  pub id : Text
  pub title : Text
  pub why : Text
  pub what : Text
  pub roi_note : Option Text
  pub priority : TaskPriority
  pub state : TaskState
  pub scopes : List Text
  pub created_at : DateTime
  pub updated_at : DateTime
  pub state_events : List TaskStateEvent

-- `state in {TaskState.IDEA, TaskState.TODO}`
abbrev pub is_new : TaskState → Bool
is_new idea = true
is_new todo = true
is_new _ = false

-- The loop of `_validate_event_chain`: the state and the time of the last event.
unfoldable pub follow_events :
    TaskState → DateTime → List TaskStateEvent → Result (TaskState × DateTime)
follow_events previous last_at [] = ok (previous, last_at)
follow_events previous last_at (e ∷ es) = do
  raise_if (not (state_eq e.previous_state previous)) task_error
  raise_if (not (is_allowed e.previous_state e.state)) task_error
  raise_if_before e.occurred_at last_at task_error
  follow_events e.state e.occurred_at es

abbrev pub first_state : TaskIntent → List TaskStateEvent → TaskState
first_state task [] = task.state
first_state task (e ∷ es) = e.previous_state

-- `_validate_event_chain`
unfoldable pub validate_event_chain : TaskIntent → Result (Unit {0})
validate_event_chain task = do
  let start = first_state task task.state_events
  raise_if (not (is_new start)) task_error
  (previous, last_at) ← follow_events start task.created_at task.state_events
  raise_if (not (state_eq previous task.state) || not (same_time last_at task.updated_at))
      task_error

module _ (u : Unicode) where
  -- One round of the loop over the scopes: any error of the parser becomes a TaskError.
  unfoldable pub check_scope : Text → Result (Unit {0})
  check_scope text = elim (parse u text none) [
    | err e ↦ err task_error
    | ok scope ↦ raise_if (not (text_eq (canonical scope) text)) task_error
  ]

  unfoldable pub check_scopes : List Text → Result (Unit {0})
  check_scopes [] = ok tt
  check_scopes (text ∷ texts) = do check_scope text; check_scopes texts

  unfoldable pub post_init : TaskIntent → Result TaskIntent
  post_init t = do
    require_identifier t.id
    require_text task_error t.title
    require_text task_error t.why
    require_text task_error t.what
    when_some t.roi_note (require_text task_error)
    require_aware task_error t.created_at
    require_aware task_error t.updated_at
    raise_if_before t.updated_at t.created_at task_error
    raise_if (repeats t.scopes) task_error
    check_scopes t.scopes
    validate_event_chain t
    ok t

  unfoldable pub create :
      (id title why what : Text) (roi_note : Option Text) (priority : TaskPriority)
      (state : TaskState) (scopes : List Scope) (created_at : DateTime)
      → Result TaskIntent
  create id title why what roi_note priority state scopes created_at = do
    raise_if (not (is_new state)) task_error
    post_init (record {
      id = id;
      title = title;
      why = why;
      what = what;
      roi_note = roi_note;
      priority = priority;
      state = state;
      scopes = map canonical scopes;
      created_at = created_at;
      updated_at = created_at;
      state_events = [];
    })

  unfoldable pub transition :
      TaskState
      → (actor_id rationale : Text) (occurred_at : DateTime) → TaskIntent
      → Result TaskIntent
  transition state actor_id rationale occurred_at self = do
    raise_if (not (is_allowed self.state state)) task_error
    raise_if_before occurred_at self.updated_at task_error
    event ← event_post_init (record {
      previous_state = self.state;
      state = state;
      actor_id = actor_id;
      rationale = rationale;
      occurred_at = occurred_at;
    })
    post_init (record self {
      state = state;
      updated_at = occurred_at;
      state_events = self.state_events ++ event ∷ [];
    })

pub record TaskDependency : Type 0 where
  pub task_id : Text
  pub depends_on_task_id : Text
  pub created_at : DateTime

unfoldable pub dependency_post_init : TaskDependency → Result TaskDependency
dependency_post_init d = do
  require_identifier d.task_id
  require_identifier d.depends_on_task_id
  require_aware task_error d.created_at
  raise_if (text_eq d.task_id d.depends_on_task_id) task_error
  ok d

pub record TaskConflict : Type 0 where
  pub first_task_id : Text
  pub second_task_id : Text
  pub reason : Text
  pub created_at : DateTime

unfoldable pub conflict_post_init : TaskConflict → Result TaskConflict
conflict_post_init c = do
  require_identifier c.first_task_id
  require_identifier c.second_task_id
  require_text task_error c.reason
  require_aware task_error c.created_at
  raise_if (not (text_lt c.first_task_id c.second_task_id)) task_error
  ok c

-- `first, second = sorted((left, right))`
unfoldable pub between : (left right reason : Text) (created_at : DateTime) → Result TaskConflict
between left right reason created_at = conflict_post_init (
    if text_lt right left
    then record {
      first_task_id = right;
      second_task_id = left;
      reason = reason;
      created_at = created_at;
    }
    else record {
      first_task_id = left;
      second_task_id = right;
      reason = reason;
      created_at = created_at;
    })

unfoldable pub includes : TaskConflict → Text → Bool
includes c id = text_eq id c.first_task_id || text_eq id c.second_task_id

unfoldable pub other : TaskConflict → Text → Result Text
other c id =
    if text_eq id c.first_task_id
    then ok c.second_task_id
    else if text_eq id c.second_task_id
    then ok c.first_task_id
    else err task_error
