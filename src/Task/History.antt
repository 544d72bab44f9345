-- ===== src/Task/History.antt =====
-- The recorded history of a task.
use weft_mark.Prelude.{
  ◌≤◌, true, false, ◌&&◌, not, some, List, [], ◌∷◌, ◌++◌, Text, is_blank, DateTime, same_time,
  Result, ok, err, ◌>>=◌, ◌≡◌, ◌↔◌, refl, arith, if◌then◌else◌, task_error, type_error, last?,
  Bool-cases, inl, inr,
}
use weft_mark.Scope.Normalize.{Unicode}
use weft_mark.Task.{
  TaskIntent, TaskState, TaskStateEvent, done, in_progress, is_allowed, is_new, state_eq,
  event_post_init, follow_events, first_state, validate_event_chain, post_init, transition,
}

-- Following one more event is following it from where the others lead.
follow_events-snoc :
    (s : TaskState) (t : DateTime) (es : List TaskStateEvent) (e : TaskStateEvent)
    → follow_events s t (es ++ e ∷ [])
      ≡ (follow_events s t es >>= λ end. follow_events end.0 end.1 (e ∷ []))
unfolding follow_events
follow_events-snoc s t [] e = refl
follow_events-snoc s t (f ∷ fs) e = ground (arith, follow_events-snoc f.state f.occurred_at fs e)

-- The event that `transition` records.
abbrev pub event_of :
    TaskState → (actor_id rationale : Text) → DateTime → TaskIntent → TaskStateEvent
event_of state actor_id rationale at t = record {
  previous_state = t.state;
  state = state;
  actor_id = actor_id;
  rationale = rationale;
  occurred_at = at;
}

abbrev pub moved : TaskState → (actor_id rationale : Text) → DateTime → TaskIntent → TaskIntent
moved state actor_id rationale at t = record t {
  state = state;
  updated_at = at;
  state_events = t.state_events ++ event_of state actor_id rationale at t ∷ [];
}

state_eq_iff : (a b : TaskState) → (state_eq a b ≡ true) ↔ (a ≡ b)
state_eq_iff a b = (ground arith, λ e. rw e (ground arith))

-- Where the events of a task lead that its constructor accepts.
record LeadsTo (t : TaskIntent) : Type 0 where
  last_at : DateTime
  follows :
      follow_events (first_state t t.state_events) t.created_at t.state_events
      ≡ ok (t.state, last_at)
  started : is_new (first_state t t.state_events) ≡ true
  in_time : same_time last_at t.updated_at ≡ true

validate-LeadsTo :
    (t : TaskIntent) (r : Result (TaskState × DateTime))
    → follow_events (first_state t t.state_events) t.created_at t.state_events ≡ r
    → validate_event_chain t ≡ ok tt
    → LeadsTo t
unfolding validate_event_chain
validate-LeadsTo t (err e) f h = absurd (ground arith)
validate-LeadsTo t (ok (s, l)) f h = record {
  last_at = l;
  follows = ground (arith, state_eq_iff s t.state);
  started = ground arith;
  in_time = ground arith;
}

first_state-moved :
    (t : TaskIntent) (es : List TaskStateEvent) (e : TaskStateEvent) (m : TaskIntent)
    → e.previous_state ≡ t.state
    → first_state m (es ++ e ∷ []) ≡ first_state t es
first_state-moved t [] e m h = h
first_state-moved t (f ∷ fs) e m h = refl

module _ (state : TaskState) (actor_id rationale : Text) (at : DateTime) (t : TaskIntent)
    (legal : is_allowed t.state state ≡ true) (aware : at.aware ≡ true)
    (later : t.updated_at.instant ≤ at.instant) (updated : t.updated_at.aware ≡ true) where
  follows_event :
      (l : DateTime)
      → same_time l t.updated_at ≡ true
      → follow_events t.state l (event_of state actor_id rationale at t ∷ []) ≡ ok (state, at)
  unfolding follow_events
  follows_event l same = ground (arith, state_eq_iff t.state t.state)

  moved_chain : LeadsTo t → validate_event_chain (moved state actor_id rationale at t) ≡ ok tt
  unfolding validate_event_chain
  moved_chain h =
      let e = event_of state actor_id rationale at t in
      let m = moved state actor_id rationale at t in
      let start = first_state-moved t t.state_events e m refl in
      let whole : follow_events (first_state t t.state_events) t.created_at
            (t.state_events ++ e ∷ [])
          ≡ ok (state, at) =
        rw follow_events-snoc (rw h.follows (follows_event h.last_at h.in_time)) in
      rw start (rw whole (ground (arith, h.started, state_eq_iff state state)))

post_init-chain : (u : Unicode) (t : TaskIntent) → post_init u t ≡ ok t → LeadsTo t
unfolding post_init
post_init-chain u t valid = validate-LeadsTo t _ refl (ground arith)

module _ (u : Unicode) (state : TaskState) (actor_id rationale : Text) (at : DateTime)
    (t : TaskIntent) (valid : post_init u t ≡ ok t) where
  moved_valid :
      is_allowed t.state state ≡ true
      → at.aware ≡ true
      → t.updated_at.instant ≤ at.instant
      → post_init u (moved state actor_id rationale at t) ≡ ok (moved state actor_id rationale at t)
  unfolding post_init
  moved_valid legal aware later =
      let updated : t.updated_at.aware ≡ true = ground arith in
      let chain =
        moved_chain state actor_id rationale at t legal aware later updated
          (post_init-chain u t valid) in
      ground (arith, chain)

post_init-updated :
    (u : Unicode) (t : TaskIntent) → post_init u t ≡ ok t → t.updated_at.aware ≡ true
unfolding post_init
post_init-updated u t valid = ground arith

is_allowed-ne : (s t : TaskState) → is_allowed s t ≡ true → state_eq s t ≡ false
unfolding is_allowed
is_allowed-ne s t h = ground arith

-- On a task that its constructor accepts, at an aware time not before its last update, a transition
-- succeeds exactly if the table allows it and neither the actor nor the rationale is blank: it
-- sets the state and the update time and appends the one event, and the constructor accepts the
-- longer history. Else it is refused with TaskError.
pub task_transition_outcome :
    (u : Unicode) (state : TaskState) (actor_id rationale : Text) (at : DateTime) (t : TaskIntent)
    → post_init u t ≡ ok t
    → at.aware ≡ true
    → t.updated_at.instant ≤ at.instant
    → transition u state actor_id rationale at t ≡ (
        if is_allowed t.state state && (not (is_blank actor_id) && not (is_blank rationale))
        then ok (moved state actor_id rationale at t)
        else err task_error)
unfolding transition event_post_init
task_transition_outcome u state actor_id rationale at t valid aware later =
    let updated = post_init-updated u t valid in
    elim (Bool-cases (is_allowed t.state state)) [
      | inl legal ↦
          let accepted = moved_valid u state actor_id rationale at t valid legal aware later in
          ground (arith, accepted, is_allowed-ne t.state state legal)
      | inr illegal ↦ ground (arith, illegal)
    ]

-- On a task that its constructor accepts, a transition that the table allows, at a naive time, raises
-- TypeError and not TaskError.
pub naive_transition :
    (u : Unicode) (state : TaskState) (actor_id rationale : Text) (at : DateTime) (t : TaskIntent)
    → post_init u t ≡ ok t
    → is_allowed t.state state ≡ true
    → at.aware ≡ false
    → transition u state actor_id rationale at t ≡ err type_error
unfolding transition post_init
naive_transition u state actor_id rationale at t valid legal naive = ground arith

-- The last event leaves the state that following the events ends in, and the table allowed it.
follow_events-last :
    (start : TaskState) (t : DateTime) (e : TaskStateEvent) (es : List TaskStateEvent)
    (s : TaskState) (l : DateTime)
    → follow_events start t (e ∷ es) ≡ ok (s, l)
    → (x : TaskStateEvent) × (last? (e ∷ es) ≡ some x)
      × (x.state ≡ s)
      × (is_allowed x.previous_state s ≡ true)
unfolding follow_events
follow_events-last start t e [] s l h = (e, refl, ground arith, ground arith)
follow_events-last start t e (f ∷ fs) s l h =
    follow_events-last e.state e.occurred_at f fs s l (ground arith)

done_history :
    (t : TaskIntent) (es : List TaskStateEvent) (l : DateTime)
    → follow_events (first_state t es) t.created_at es ≡ ok (t.state, l)
    → is_new (first_state t es) ≡ true
    → t.state ≡ done
    → (x : TaskStateEvent) × (last? es ≡ some x)
      × (x.state ≡ done)
      × (x.previous_state ≡ in_progress)
unfolding is_allowed
done_history t [] l f new e = absurd (ground arith)
done_history t (g ∷ gs) l f new e =
    let (x, last, to, legal) = follow_events-last g.previous_state t.created_at g gs t.state l f in
    (x, last, ground arith, ground arith)

-- A task that its constructor accepts in the state done has a history, whose last event leads from
-- in_progress to done: nothing is done that was not in progress just before.
pub done_from_in_progress :
    (u : Unicode) (t : TaskIntent)
    → post_init u t ≡ ok t
    → t.state ≡ done
    → (x : TaskStateEvent) × (last? t.state_events ≡ some x)
      × (x.state ≡ done)
      × (x.previous_state ≡ in_progress)
done_from_in_progress u t valid e =
    let h = post_init-chain u t valid in
    done_history t t.state_events h.last_at h.follows h.started e
