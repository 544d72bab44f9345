-- ===== src/Review.antt =====
-- src/weftmark/domain/review.py: review findings, waivers and readiness decisions. `now` is what `_now()`
-- reads from the clock.
pub mod Findings
pub mod Decisions
mod Tests
use weft_mark.Prelude.{
  Bool, true, false, ◌&&◌, ◌||◌, not, Option, none, some, List, [], ◌∷◌, ◌++◌, map, is_empty, any,
  select, repeats, Text, text_eq, is_blank, require_text, require_texts, DateTime, or_now, precedes,
  same_time, require_aware, raise_if_before, Result, ok, err, ◌>>=◌, ◌>>◌, raise_if, review_error,
  invalid_finding_operation, invalid_review_decision, if◌then◌else◌,
}
use weft_mark.Scope.{Scope}

pub data FindingSeverity : Type 0 where
  blocking high medium low info : FindingSeverity

pub data FindingStatus : Type 0 where
  open_status resolved waived : FindingStatus

pub data FindingEventKind : Type 0 where
  resolved waived : FindingEventKind

pub data ReviewOutcome : Type 0 where
  ready ready_with_follow_up blocked stale evidence_incomplete : ReviewOutcome

-- `_RELEASABLE_OUTCOMES`
abbrev pub is_releasable_outcome : ReviewOutcome → Bool
is_releasable_outcome ready = true
is_releasable_outcome ready_with_follow_up = true
is_releasable_outcome _ = false

pub record FindingEvent : Type 0 where
  pub kind : FindingEventKind
  pub actor_id : Text
  pub rationale : Text
  pub occurred_at : DateTime
  pub finding_id : Text

unfoldable pub event_post_init : FindingEvent → Result FindingEvent
event_post_init e = do
  require_text review_error e.actor_id
  require_text review_error e.rationale
  require_text review_error e.finding_id
  require_aware review_error e.occurred_at
  ok e

pub record ReviewFinding : Type 0 where
  pub id : Text
  pub severity : FindingSeverity
  pub scope : Scope
  pub rationale : Text
  pub status : FindingStatus
  pub created_at : DateTime
  pub updated_at : DateTime
  pub events : List FindingEvent

abbrev pub is_open : FindingStatus → Bool
is_open open_status = true
is_open _ = false

abbrev pub is_blocking : FindingSeverity → Bool
is_blocking blocking = true
is_blocking _ = false

-- `FindingStatus(kind.value)`
abbrev pub status_of : FindingEventKind → FindingStatus
status_of FindingEventKind.resolved = FindingStatus.resolved
status_of FindingEventKind.waived = FindingStatus.waived

-- `kind.value == status.value`
abbrev pub kind_is : FindingEventKind → FindingStatus → Bool
kind_is FindingEventKind.resolved FindingStatus.resolved = true
kind_is FindingEventKind.waived FindingStatus.waived = true
kind_is _ _ = false

-- The checks of a finding that is not open: one event, of its status, on it, and at its update.
abbrev pub check_closed : ReviewFinding → List FindingEvent → Result (Unit {0})
check_closed f (e ∷ []) = do
  raise_if (not (kind_is e.kind f.status)) review_error
  raise_if (not (text_eq e.finding_id f.id)) review_error
  raise_if (not (same_time e.occurred_at f.updated_at)) review_error
check_closed f _ = err review_error

unfoldable pub finding_post_init : ReviewFinding → Result ReviewFinding
finding_post_init f = do
  require_text review_error f.id
  require_text review_error f.rationale
  require_aware review_error f.created_at
  require_aware review_error f.updated_at
  raise_if_before f.updated_at f.created_at review_error
  raise_if (is_open f.status && not (is_empty f.events)) review_error
  if is_open f.status then ok tt else check_closed f f.events
  ok f

abbrev pub is_unresolved_blocker : ReviewFinding → Bool
is_unresolved_blocker f = is_blocking f.severity && is_open f.status

-- `_close`
unfoldable pub close :
    (now : DateTime)
    → FindingEventKind
    → (actor_id rationale : Text) → Option DateTime
    → ReviewFinding
    → Result ReviewFinding
close now kind actor_id rationale at self = do
  raise_if (not (is_open self.status)) invalid_finding_operation
  let timestamp = or_now at now
  require_aware review_error timestamp
  raise_if_before timestamp self.updated_at invalid_finding_operation
  event ← event_post_init (record {
    kind = kind;
    actor_id = actor_id;
    rationale = rationale;
    occurred_at = timestamp;
    finding_id = self.id;
  })
  finding_post_init (record self {
    status = status_of kind;
    updated_at = timestamp;
    events = self.events ++ event ∷ [];
  })

unfoldable pub resolve :
    (now : DateTime) (actor_id rationale : Text)
    → Option DateTime
    → ReviewFinding
    → Result ReviewFinding
resolve now actor_id rationale at self =
    close now FindingEventKind.resolved actor_id rationale at self

unfoldable pub waive :
    (now : DateTime) (actor_id rationale : Text)
    → Option DateTime
    → ReviewFinding
    → Result ReviewFinding
waive now actor_id rationale at self = close now FindingEventKind.waived actor_id rationale at self

pub record ReviewDecision : Type 0 where
  pub id : Text
  pub change_set_id : Text
  pub author_id : Text
  pub outcome : ReviewOutcome
  pub head_sha : Text
  pub evidence_ids : List Text
  pub findings : List ReviewFinding
  pub rationale : Text
  pub created_at : DateTime

unfoldable pub unresolved_blockers : ReviewDecision → List ReviewFinding
unresolved_blockers d = select is_unresolved_blocker d.findings

unfoldable pub open_findings : ReviewDecision → List ReviewFinding
open_findings d = select (λ f. is_open f.status) d.findings

abbrev pub is_ready : ReviewOutcome → Bool
is_ready ready = true
is_ready _ = false

abbrev pub is_follow_up : ReviewOutcome → Bool
is_follow_up ready_with_follow_up = true
is_follow_up _ = false

abbrev pub is_blocked : ReviewOutcome → Bool
is_blocked blocked = true
is_blocked _ = false

-- `any(finding.updated_at > self.created_at for finding in self.findings)`
unfoldable pub any_later : DateTime → List ReviewFinding → Result Bool
any_later t [] = ok false
any_later t (f ∷ fs) = do
  later ← precedes t f.updated_at
  let rest = any_later t fs
  if later then ok true else rest

unfoldable pub decision_post_init : ReviewDecision → Result ReviewDecision
decision_post_init d = do
  require_texts review_error (d.id ∷ d.change_set_id ∷ d.author_id ∷ d.head_sha ∷ d.rationale ∷ [])
  require_aware review_error d.created_at
  raise_if (repeats d.evidence_ids) invalid_review_decision
  raise_if (any is_blank d.evidence_ids) invalid_review_decision
  raise_if (repeats (map (λ (f : ReviewFinding). f.id) d.findings)) invalid_review_decision
  let blockers = unresolved_blockers d
  raise_if (is_releasable_outcome d.outcome && not (is_empty blockers)) invalid_review_decision
  raise_if (is_blocked d.outcome && is_empty blockers) invalid_review_decision
  raise_if (is_ready d.outcome && not (is_empty (open_findings d))) invalid_review_decision
  raise_if (is_follow_up d.outcome && is_empty (open_findings d)) invalid_review_decision
  later ← any_later d.created_at d.findings
  raise_if later invalid_review_decision
  ok d

unfoldable pub is_releasable : ReviewDecision → Bool
is_releasable d = is_releasable_outcome d.outcome && is_empty (unresolved_blockers d)
