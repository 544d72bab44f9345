-- ===== src/Policy/Veto.antt =====
-- Evaluation fails closed: one newest record that is no current pass blocks a required requirement.
use weft_mark.Prelude.{
  true, false, ◌&&◌, ◌||◌, not, List, Option, Text, ◌≡◌, inl, inr, arith, In, In-select,
  In-of_In-select, In-all, Bool-cases,
}
use weft_mark.Scope.{Scope}
use weft_mark.Evidence.{Evidence, kind_eq, subject_eq}
use weft_mark.Policy.{
  EvidenceRequirement, EvidencePolicy, is_superseded, is_current_pass, matching, is_met, about,
  applicable, applies_to, evaluate, is_satisfied,
}
use weft_mark.Policy.Latest.{IsNewest}
use weft_mark.Policy.Verdicts.{is_met_iff, is_satisfied-evaluate}

-- The record is about the policy's subject, of the requirement's kind, and not superseded.
pub record Counts (p : EvidencePolicy) (r : EvidenceRequirement) (e : Evidence) : Type 0 where
  pub subject : subject_eq e.subject p.subject ≡ true
  pub kind : kind_eq e.kind r.kind ≡ true
  pub standing : is_superseded e.state ≡ false

In-counted :
    (p : EvidencePolicy) (r : EvidenceRequirement) (e : Evidence) (evidence : List Evidence)
    → In e evidence
    → Counts p r e
    → In e (matching r (about p evidence))
unfolding matching about
In-counted p r e evidence m c =
    In-select (λ x. kind_eq x.kind r.kind && not (is_superseded x.state)) e (about p evidence)
      (In-select (λ x. subject_eq x.subject p.subject) e evidence m c.subject)
      (ground (arith, c.kind, c.standing))

counted-In :
    (p : EvidencePolicy) (r : EvidenceRequirement) (e : Evidence) (evidence : List Evidence)
    → In e (matching r (about p evidence))
    → In e evidence
unfolding matching about
counted-In p r e evidence m =
    (In-of_In-select (λ x. subject_eq x.subject p.subject) e evidence
      (In-of_In-select (λ x. kind_eq x.kind r.kind && not (is_superseded x.state)) e
        (about p evidence) m).0).0

-- If a required requirement of the policy applies to the declared scopes, and the evidence holds a record
-- that counts for it, than which no record of the evidence is newer, and which is no current
-- pass, then the policy is not satisfied, whatever else the evidence holds.
pub veto :
    (commit environment : Option Text) (p : EvidencePolicy) (scopes : List Scope)
    (r : EvidenceRequirement) (e : Evidence) (evidence : List Evidence)
    → In r p.requirements
    → applies_to r scopes ≡ true
    → r.required ≡ true
    → In e evidence
    → Counts p r e
    → IsNewest e evidence
    → is_current_pass commit environment e ≡ false
    → is_satisfied (evaluate commit environment p evidence scopes) ≡ false
unfolding applicable
veto commit environment p scopes r e evidence listed applies required m counts newest fails =
    elim (Bool-cases (is_satisfied (evaluate commit environment p evidence scopes))) [
      | inr blocked ↦ blocked
      | inl satisfied ↦
          let every = is_satisfied-evaluate commit environment p evidence scopes in
          let judged =
            In-all
              (λ (x : EvidenceRequirement).
                not x.required || is_met commit environment x (about p evidence))
              r (applicable p scopes) (ground (arith, every))
              (In-select (λ x. applies_to x scopes) r p.requirements listed applies) in
          let met : is_met commit environment r (about p evidence) ≡ true =
            ground (arith, judged) in
          let passes =
            ((is_met_iff commit environment r (about p evidence)).0 met).1 e
              (In-counted p r e evidence m counts)
              (λ f k. newest f (counted-In p r f evidence k)) in
          absurd (ground (arith, passes))
    ]
