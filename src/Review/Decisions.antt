-- ===== src/Review/Decisions.antt =====
-- What an accepted decision says about its findings.
use weft_mark.Prelude.{
  ◌≤◌, Bool, true, false, ◌&&◌, not, List, [], ◌∷◌, is_empty, any, select, DateTime, ok, ◌≡◌, refl,
  arith, In, In-select, inl, inr, map, repeats, is_blank, if◌then◌else◌, err,
  invalid_review_decision, Bool-cases,
}
use weft_mark.Review.{
  ReviewDecision, ReviewFinding, ReviewOutcome, ready, ready_with_follow_up, blocked,
  decision_post_init, any_later, unresolved_blockers, open_findings, is_releasable,
  is_unresolved_blocker, is_ready, is_open, is_blocking,
}

empty-In : {A : Type 0} (x : A) (xs : List A) → is_empty xs ≡ true → ¬ In x xs
empty-In x [] h m = m
empty-In x (y ∷ ys) h m = cc

any_later_sound :
    (t : DateTime) (fs : List ReviewFinding) (f : ReviewFinding)
    → any_later t fs ≡ ok false
    → In f fs
    → f.updated_at.instant ≤ t.instant
unfolding any_later
any_later_sound t [] f h m = absurd m
any_later_sound t (g ∷ gs) f h m = ground (arith, any_later_sound t gs f)

select_empty :
    {A : Type 0} (p q : A → Bool) (xs : List A)
    → is_empty (select q xs) ≡ true
    → is_empty (select (λ x. p x && q x) xs) ≡ true
select_empty p q [] h = refl
select_empty p q (x ∷ xs) h = ground (arith, select_empty p q xs)

-- Blocking findings that are open are open.
blockers_open :
    (d : ReviewDecision)
    → is_empty (open_findings d) ≡ true
    → is_empty (unresolved_blockers d) ≡ true
unfolding open_findings unresolved_blockers
blockers_open d h =
    select_empty (λ (f : ReviewFinding). is_blocking f.severity) (λ f. is_open f.status) d.findings
      h

-- What an outcome claims of the findings: ready, that none is open; ready with follow-up, that some are
-- open and none of these blocks; blocked, that some open one blocks; the two others, nothing.
abbrev pub claims_hold : ReviewOutcome → (no_blocker no_open : Bool) → Bool
claims_hold ready no_blocker no_open = no_open
claims_hold ready_with_follow_up no_blocker no_open = no_blocker && not no_open
claims_hold blocked no_blocker no_open = not no_blocker
claims_hold _ no_blocker no_open = true

-- The decision's constructor with its remaining checks passed: texts, times and identities.
pub record IsFilledIn (d : ReviewDecision) : Type 0 where
  pub texts :
      any is_blank (d.id ∷ d.change_set_id ∷ d.author_id ∷ d.head_sha ∷ d.rationale ∷ []) ≡ false
  pub aware : d.created_at.aware ≡ true
  pub distinct_evidence : repeats d.evidence_ids ≡ false
  pub named_evidence : any is_blank d.evidence_ids ≡ false
  pub distinct_findings : repeats (map (λ (f : ReviewFinding). f.id) d.findings) ≡ false
  pub in_time : any_later d.created_at d.findings ≡ ok false

-- A decision whose texts, times and identities are in order is accepted exactly if what its outcome
-- claims of its findings holds, and else refused with InvalidReviewDecision.
pub decision_outcome :
    (d : ReviewDecision)
    → IsFilledIn d
    → decision_post_init d ≡ (
        if claims_hold d.outcome (is_empty (unresolved_blockers d)) (is_empty (open_findings d))
        then ok d
        else err invalid_review_decision)
unfolding decision_post_init
decision_outcome d h = ground (arith, blockers_open d, h.in_time)

none_selected :
    {A : Type 0} (p : A → Bool) (x : A) (xs : List A)
    → is_empty (select p xs) ≡ true
    → In x xs
    → p x ≡ false
none_selected p x xs h m = elim (Bool-cases (p x)) [
  | inl holds ↦ absurd (empty-In x (select p xs) h (In-select p x xs m holds))
  | inr fails ↦ fails
]

accepted-in_time :
    (d : ReviewDecision)
    → decision_post_init d ≡ ok d
    → any_later d.created_at d.findings ≡ ok false
unfolding decision_post_init
accepted-in_time d h = ground arith

accepted-ready :
    (d : ReviewDecision)
    → decision_post_init d ≡ ok d
    → is_ready d.outcome ≡ true
    → is_empty (open_findings d) ≡ true
unfolding decision_post_init
accepted-ready d h r = ground arith

-- In an accepted decision that is releasable, each finding is at most as new as the decision and is no
-- open blocking one; if the outcome is ready, the finding is not open at all.
pub releasable_finding :
    (d : ReviewDecision) (f : ReviewFinding)
    → decision_post_init d ≡ ok d
    → is_releasable d ≡ true
    → In f d.findings
    → (f.updated_at.instant ≤ d.created_at.instant)
      × (is_unresolved_blocker f ≡ false)
      × ((is_ready d.outcome && is_open f.status) ≡ false)
releasable_finding d f accepted releasable m = (
  any_later_sound d.created_at d.findings f (accepted-in_time d accepted) m,
  none_selected is_unresolved_blocker f d.findings
      (unfold is_releasable unresolved_blockers in ground (arith, releasable)) m,
  elim (Bool-cases (is_ready d.outcome)) [
    | inl all_closed ↦
        let shut =
          none_selected (λ (g : ReviewFinding). is_open g.status) f d.findings
            (unfold open_findings in accepted-ready d accepted all_closed) m in
        ground (arith, shut)
    | inr other ↦ ground (arith, other)
  ],
)
