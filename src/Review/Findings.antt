-- ===== src/Review/Findings.antt =====
-- A finding is closed once, and stays so.
use weft_mark.Prelude.{
  ◌≤◌, true, false, ◌||◌, Option, [], ◌∷◌, ◌++◌, Text, is_blank, text_eq_refl, DateTime, or_now, ok,
  err, ◌≡◌, arith, if◌then◌else◌, review_error, invalid_finding_operation,
}
use weft_mark.Review.{
  ReviewFinding, FindingEventKind, finding_post_init, event_post_init, close, is_open, status_of,
  is_unresolved_blocker,
}

-- The finding after it was closed.
abbrev pub closed :
    DateTime → FindingEventKind → (actor_id rationale : Text) → ReviewFinding → ReviewFinding
closed timestamp kind actor_id rationale f = record f {
  status = status_of kind;
  updated_at = timestamp;
  events =
      f.events
      ++ record {
        kind = kind;
        actor_id = actor_id;
        rationale = rationale;
        occurred_at = timestamp;
        finding_id = f.id;
      }
        ∷ [];
}

-- On an open finding that its constructor accepts, at an aware time not before its last update,
-- resolving or waiving it succeeds exactly if the actor and the rationale are not blank. It then
-- has the status and one event that says so, and nothing else is changed.
pub close_outcome :
    (now : DateTime) (at : Option DateTime) (kind : FindingEventKind) (actor_id rationale : Text)
    (f : ReviewFinding)
    → finding_post_init f ≡ ok f
    → is_open f.status ≡ true
    → (or_now at now).aware ≡ true
    → f.updated_at.instant ≤ (or_now at now).instant
    → close now kind actor_id rationale at f ≡ (
        if is_blank actor_id || is_blank rationale
        then err review_error
        else ok (closed (or_now at now) kind actor_id rationale f))
unfolding close finding_post_init event_post_init
close_outcome now at kind actor_id rationale f valid opened aware later =
    ground (arith, text_eq_refl f.id)

finding_post_init-eq-ok : (f g : ReviewFinding) → finding_post_init f ≡ ok g → g ≡ f
unfolding finding_post_init
finding_post_init-eq-ok f g h = ground arith

close-eq-ok :
    (now : DateTime) (at : Option DateTime) (kind : FindingEventKind) (actor_id rationale : Text)
    (f g : ReviewFinding)
    → close now kind actor_id rationale at f ≡ ok g
    → g ≡ closed (or_now at now) kind actor_id rationale f
unfolding close event_post_init
close-eq-ok now at kind actor_id rationale f g h =
    ground (arith, finding_post_init-eq-ok (closed (or_now at now) kind actor_id rationale f) g)

not-open-status_of : (kind : FindingEventKind) → is_open (status_of kind) ≡ false
not-open-status_of kind = ground arith

-- A finding that was closed cannot be closed again, in either way, by anybody, at any time, and it
-- blocks no release.
pub close_twice :
    (now later : DateTime) (at at' : Option DateTime) (kind kind' : FindingEventKind)
    (actor_id rationale actor_id' rationale' : Text) (f g : ReviewFinding)
    → close now kind actor_id rationale at f ≡ ok g
    → (close later kind' actor_id' rationale' at' g ≡ err invalid_finding_operation)
      × (is_unresolved_blocker g ≡ false)
close_twice now later at at' kind kind' actor_id rationale actor_id' rationale' f g e =
    let shut : is_open g.status ≡ false =
      rw (close-eq-ok now at kind actor_id rationale f g e) (not-open-status_of kind) in
    (unfold close in ground (arith, shut), ground (arith, shut))
