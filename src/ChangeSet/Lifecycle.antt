-- ===== src/ChangeSet/Lifecycle.antt =====
-- The life cycle: what the final states refuse, how a merge is reached, and when a transition succeeds.
use weft_mark.Prelude.{
  Bool, true, false, if◌then◌else◌, List, Option, Text, DateTime, or_now, ok, err, ◌≡◌, ◌⊎◌, arith,
  invalid_transition, invalid_lineage_change,
}
use weft_mark.ChangeSet.{
  ChangeSet, ChangeSetState, planned, active, closed, abandoned, is_allowed, is_lineage_state,
  activate, transition, advance_head, move_branch, rebase, amend_scope, post_init, record_lineage,
}
use weft_mark.ChangeSet.Outcomes.{IsTimely}

abbrev is_final : ChangeSetState → Bool
is_final closed = true
is_final abandoned = true
is_final _ = false

-- A closed or abandoned change set refuses every operation, whatever its arguments: the two that
-- change the state with InvalidTransition, the four that need an open one with
-- InvalidLineageChange.
pub final_refuses :
    (now : DateTime) (at : Option DateTime) (c : ChangeSet) (state : ChangeSetState)
    (head : Option Text) (base_sha head_sha branch reason : Text) (scopes : List Text)
    → is_final c.state ≡ true
    → (transition now state at c ≡ err invalid_transition)
      × (activate now head at c ≡ err invalid_transition)
      × (advance_head now head_sha at c ≡ err invalid_lineage_change)
      × (move_branch now branch head_sha at c ≡ err invalid_lineage_change)
      × (rebase now base_sha head_sha at c ≡ err invalid_lineage_change)
      × (amend_scope now scopes reason at c ≡ err invalid_lineage_change)
unfolding transition activate advance_head move_branch rebase amend_scope record_lineage is_allowed
final_refuses now at c state head base_sha head_sha branch reason scopes f =
    (ground arith, ground arith, ground arith, ground arith, ground arith, ground arith)

-- A state is reached by a step only from a state that leads there: by its activation, by an allowed
-- transition, or by staying where lineage and scope may change.
abbrev Leads : ChangeSetState → ChangeSetState → Type 0
Leads s t =
    ((s ≡ planned) × (t ≡ active))
    ⊎ ((is_allowed s t ≡ true) ⊎ ((is_lineage_state s ≡ true) × (t ≡ s)))

-- On a change set that its constructor accepts, a transition that the table allows, at an aware time
-- not before the last update, succeeds: it sets the state and the update time and nothing else. Any
-- other target state is refused with InvalidTransition.
pub transition_outcome :
    (now : DateTime) (at : Option DateTime) (c : ChangeSet) (state : ChangeSetState)
    → post_init c ≡ ok c
    → IsTimely now at c
    → transition now state at c ≡ (
        if is_allowed c.state state
        then ok (record c { state = state; updated_at = or_now at now })
        else err invalid_transition)
unfolding transition post_init is_allowed
transition_outcome now at c state valid timely = ground arith
