-- ===== src/ChangeSet/Tests.antt =====
-- Runs of changeset.py on small inputs, and its theorems at them.
use weft_mark.Prelude.{
  [], ◌∷◌, none, some, codes, text_eq, text_lt, is_space, lstrip, strip, is_blank, sort_texts, utc,
  ok, err, ◌≡◌, refl, arith, invalid_transition, if◌then◌else◌,
}
use weft_mark.ChangeSet.{
  ChangeSet, activated, head_advanced, planned, active, review, merged, closed, abandoned,
  is_allowed, post_init, plan, record_lineage, activate, transition, advance_head, move_branch,
  rebase, amend_scope,
}
use weft_mark.ChangeSet.Outcomes.{amended, recorded}
use weft_mark.ChangeSet.History.{
  Reach, here, next, by_activate, by_amend, by_transition, by_advance,
}
use weft_mark.ChangeSet.Lineage.{IsTraced, Reach-plan-IsTraced}
use weft_mark.ChangeSet.Scopes.{Reach-IsAccounted, IsAccounted}
use weft_mark.ChangeSet.Lifecycle.{transition_outcome}

-- What a run has to see through.
program : Unit {0}
unfolding post_init plan record_lineage activate transition advance_head move_branch rebase
    amend_scope is_allowed is_blank strip lstrip is_space text_eq text_lt sort_texts
program = tt

abbrev draft : ChangeSet
draft = record {
  id = codes "cs-1";
  goal = codes "goal";
  repository_id = codes "repo";
  base_sha = codes "b0";
  head_sha = codes "b0";
  branch = codes "topic";
  worktree = codes "tree";
  scopes = codes "file:b" ∷ [];
  state = planned;
  created_at = utc 10;
  updated_at = utc 10;
  lineage = [];
  scope_amendments = [];
}

plan-draft :
    plan
      (utc 10)
      (codes "cs-1")
      (codes "goal")
      (codes "repo")
      (codes "b0")
      (codes "topic")
      (codes "tree")
      (codes "file:b" ∷ [])
      none
    ≡ ok draft
unfolding program
plan-draft = refl

abbrev begun : ChangeSet
begun = recorded activated none (some (codes "b0")) none (some active) (utc 11) draft

activate-draft : activate (utc 11) none none draft ≡ ok begun
unfolding program
activate-draft = refl

abbrev advanced : ChangeSet
advanced = recorded head_advanced none (some (codes "h1")) none none (utc 12) begun

advance-begun : advance_head (utc 12) (codes "h1") none begun ≡ ok advanced
unfolding program
advance-begun = refl

abbrev widened : ChangeSet
widened = amended (utc 13) none advanced (codes "file:a" ∷ codes "file:b" ∷ []) (codes " why ")

amend-advanced :
    amend_scope (utc 13) (codes "file:a" ∷ codes "file:b" ∷ []) (codes " why ") none advanced
    ≡ ok widened
unfolding program
amend-advanced = refl

abbrev reviewed : ChangeSet
reviewed = record widened { state = review; updated_at = utc 14 }

review-widened : transition (utc 14) review none widened ≡ ok reviewed
unfolding program
review-widened = refl

abbrev done : ChangeSet
done = record reviewed { state = merged; updated_at = utc 15 }

merge-reviewed : transition (utc 15) merged none reviewed ≡ ok done
unfolding program
merge-reviewed = refl

run : Reach draft done
run =
    next
      (next
        (next
          (next (next here (by_activate (utc 11) none none activate-draft))
            (by_advance (utc 12) none (codes "h1") advance-begun))
          (by_amend (utc 13) none (codes "file:a" ∷ codes "file:b" ∷ []) (codes " why ")
            amend-advanced))
        (by_transition (utc 14) none review review-widened))
      (by_transition (utc 15) none merged merge-reviewed)

Reach-plan-IsTraced_example : IsTraced draft done
Reach-plan-IsTraced_example =
    Reach-plan-IsTraced (utc 10) (codes "cs-1") (codes "goal") (codes "repo") (codes "b0")
      (codes "topic") (codes "tree") (codes "file:b" ∷ []) none draft done plan-draft run

Reach-IsAccounted_example : IsAccounted (codes "file:a") draft done
Reach-IsAccounted_example = Reach-IsAccounted (codes "file:a") {o = draft} {c = done} refl run

abbrev dropped : ChangeSet
dropped = record draft { state = abandoned }

transition_outcome_example : transition (utc 15) closed none reviewed ≡ (
    if is_allowed review closed
    then ok (record reviewed { state = closed; updated_at = utc 15 })
    else err invalid_transition)
unfolding program
transition_outcome_example =
    transition_outcome (utc 15) none reviewed closed refl
      (record { aware = refl; later = omega arith })
