-- ===== src/Review/Tests.antt =====
-- Runs of review.py on small inputs, and its theorems at them.
use weft_mark.Prelude.{
  true, false, ◌||◌, ◌&&◌, [], ◌∷◌, none, codes, text_eq, text_lt, is_space, lstrip, strip,
  is_blank, utc, ok, err, ◌≡◌, ◌≤◌, refl, arith, is_empty, if◌then◌else◌, review_error,
  invalid_review_decision, inl,
}
use weft_mark.Scope.{contract}
use weft_mark.Review.{
  ReviewFinding, ReviewDecision, FindingEventKind, blocking, low, open_status, ready,
  ready_with_follow_up, finding_post_init, event_post_init, close, resolve, waive,
  decision_post_init, any_later, unresolved_blockers, open_findings, is_releasable,
  is_unresolved_blocker, is_ready, is_open,
}
use weft_mark.Review.Findings.{closed, close_outcome}
use weft_mark.Review.Decisions.{IsFilledIn, claims_hold, decision_outcome, releasable_finding}

-- What a run has to see through.
program : Unit {0}
unfolding finding_post_init event_post_init close resolve waive decision_post_init any_later
    unresolved_blockers open_findings is_releasable is_blank strip lstrip is_space text_eq text_lt
program = tt

abbrev flaw : ReviewFinding
flaw = record {
  id = codes "f1";
  severity = blocking;
  scope = record { kind = contract; key = codes "api"; display_label = none };
  rationale = codes "breaks clients";
  status = open_status;
  created_at = utc 1;
  updated_at = utc 1;
  events = [];
}

abbrev nit : ReviewFinding
nit = record flaw { id = codes "f2"; severity = low }

flaw_valid : finding_post_init flaw ≡ ok flaw
unfolding program
flaw_valid = refl

abbrev fixed : ReviewFinding
fixed = closed (utc 3) FindingEventKind.resolved (codes "ann") (codes "fixed") flaw

resolve-flaw : resolve (utc 3) (codes "ann") (codes "fixed") none flaw ≡ ok fixed
unfolding program
resolve-flaw = refl

close-flaw :
    close (utc 3) FindingEventKind.resolved (codes "ann") (codes "fixed") none flaw ≡ ok fixed
unfolding program
close-flaw = refl

close_outcome_example :
    close (utc 3) FindingEventKind.resolved (codes "ann") (codes "fixed") none flaw ≡ (
      if is_blank (codes "ann") || is_blank (codes "fixed")
      then err review_error
      else ok (closed (utc 3) FindingEventKind.resolved (codes "ann") (codes "fixed") flaw))
close_outcome_example =
    close_outcome (utc 3) none FindingEventKind.resolved (codes "ann") (codes "fixed") flaw
      flaw_valid refl refl (omega arith)

abbrev decision : ReviewDecision
decision = record {
  id = codes "d1";
  change_set_id = codes "cs";
  author_id = codes "eve";
  outcome = ready_with_follow_up;
  head_sha = codes "h";
  evidence_ids = codes "e1" ∷ [];
  findings = fixed ∷ nit ∷ [];
  rationale = codes "good";
  created_at = utc 5;
}

decision_accepted : decision_post_init decision ≡ ok decision
unfolding program
decision_accepted = refl

decision_releasable : is_releasable decision ≡ true
unfolding program
decision_releasable = refl

ready_is_refused :
    decision_post_init (record decision { outcome = ready }) ≡ err invalid_review_decision
unfolding program
ready_is_refused = refl

decision-IsFilledIn : IsFilledIn decision
unfolding program
decision-IsFilledIn = record {
  texts = refl;
  aware = refl;
  distinct_evidence = refl;
  named_evidence = refl;
  distinct_findings = refl;
  in_time = refl;
}

decision_outcome_example : decision_post_init decision ≡ (
    if claims_hold ready_with_follow_up
      (is_empty (unresolved_blockers decision))
      (is_empty (open_findings decision))
    then ok decision
    else err invalid_review_decision)
decision_outcome_example = decision_outcome decision decision-IsFilledIn

releasable_finding_example :
    (fixed.updated_at.instant ≤ decision.created_at.instant)
    × (is_unresolved_blocker fixed ≡ false)
    × ((is_ready decision.outcome && is_open fixed.status) ≡ false)
releasable_finding_example =
    releasable_finding decision fixed decision_accepted decision_releasable (inl refl)
