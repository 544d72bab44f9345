-- ===== src/Policy/Verdicts.antt =====
-- What a policy decides, against a description without loops.
use weft_mark.Prelude.{
  true, false, ◌||◌, not, List, [], ◌∷◌, map, Option, Text, ◌≡◌, ◌↔◌, inl, inr, refl, arith,
  is_empty, any, all, select, In, In-all, all_of_In, ap, Bool-cases,
}
use weft_mark.Scope.{Scope}
use weft_mark.Evidence.{Evidence}
use weft_mark.Policy.{
  EvidenceRequirement, EvidenceIssue, EvidencePolicy, is_current_pass, latest_records, matching,
  is_met, issue_of, judge, about, applicable, evaluate, is_satisfied,
}
use weft_mark.Policy.Latest.{
  IsNewest, In-latest_records, IsNewest-of_In-latest_records, is_empty-latest_records,
}

module _ (commit environment : Option Text) where
  judge-satisfied :
      (records : List Evidence) (rs : List EvidenceRequirement)
      → (judge commit environment records rs).0
        ≡ map
            (λ (r : EvidenceRequirement). r.id)
            (select (λ r. is_met commit environment r records) rs)
  unfolding judge
  judge-satisfied records [] = refl
  judge-satisfied records (r ∷ rs) = elim (Bool-cases (is_met commit environment r records)) [
    | inl met ↦ rw met (ap (λ l. r.id ∷ l) (judge-satisfied records rs))
    | inr unmet ↦ rw unmet (judge-satisfied records rs)
  ]

  judge-issues :
      (records : List Evidence) (rs : List EvidenceRequirement)
      → (judge commit environment records rs).1
        ≡ map
            (λ (r : EvidenceRequirement). issue_of commit environment r records)
            (select (λ r. not (is_met commit environment r records)) rs)
  unfolding judge
  judge-issues records [] = refl
  judge-issues records (r ∷ rs) = elim (Bool-cases (is_met commit environment r records)) [
    | inl met ↦ rw met (judge-issues records rs)
    | inr unmet ↦
        rw unmet (ap (λ l. issue_of commit environment r records ∷ l) (judge-issues records rs))
  ]

  module _ (p : EvidencePolicy) (evidence : List Evidence) (scopes : List Scope) where
    -- A policy's result lists, in the order of its requirements, the ids of the applicable requirements
    -- that are met as satisfied, and one issue for each applicable requirement that is not.
    pub evaluate_lists :
        ((evaluate commit environment p evidence scopes).satisfied_requirement_ids
          ≡ map
              (λ (r : EvidenceRequirement). r.id)
              (select (λ r. is_met commit environment r (about p evidence)) (applicable p scopes)))
        × ((evaluate commit environment p evidence scopes).issues
            ≡ map
                (λ (r : EvidenceRequirement). issue_of commit environment r (about p evidence))
                (select
                  (λ r. not (is_met commit environment r (about p evidence)))
                  (applicable p scopes)))
    unfolding evaluate
    evaluate_lists = (judge-satisfied _ (applicable p scopes), judge-issues _ (applicable p scopes))

  any-issue :
      (records : List Evidence) (rs : List EvidenceRequirement)
      → not (
          any
            (λ (i : EvidenceIssue). i.required)
            (map
              (λ (r : EvidenceRequirement). issue_of commit environment r records)
              (select (λ r. not (is_met commit environment r records)) rs)))
        ≡ all
            (λ (r : EvidenceRequirement). not r.required || is_met commit environment r records)
            rs
  unfolding issue_of
  any-issue records [] = refl
  any-issue records (r ∷ rs) = elim (Bool-cases (is_met commit environment r records)) [
    | inl met ↦ rw met (ground (arith, any-issue records rs))
    | inr unmet ↦ rw unmet (ground (arith, any-issue records rs))
  ]

  -- The result is satisfied exactly if each applicable requirement is optional or met.
  pub is_satisfied-evaluate :
      (p : EvidencePolicy) (evidence : List Evidence) (scopes : List Scope)
      → is_satisfied (evaluate commit environment p evidence scopes)
        ≡ all
            (λ (r : EvidenceRequirement).
              not r.required || is_met commit environment r (about p evidence))
            (applicable p scopes)
  unfolding is_satisfied
  is_satisfied-evaluate p evidence scopes =
      rw (evaluate_lists p evidence scopes).1 (any-issue (about p evidence) (applicable p scopes))

  -- A requirement is met if and only if there is a record of its kind that is not superseded, and every
  -- such record that none of them outdates has passed with bindings that are still current.
  pub is_met_iff :
      (r : EvidenceRequirement) (records : List Evidence)
      → (is_met commit environment r records ≡ true) ↔ (
          (is_empty (matching r records) ≡ false)
          × ((e : Evidence)
              → In e (matching r records)
              → IsNewest e (matching r records)
              → is_current_pass commit environment e ≡ true))
  unfolding is_met
  is_met_iff r records =
      let counted = matching r records in
      let some_latest = is_empty-latest_records counted in
      (
        λ met. (
          ground (arith, some_latest),
          λ e m newest.
              In-all (is_current_pass commit environment) e (latest_records counted) (ground arith)
                (In-latest_records e counted m newest),
        ),
        λ h.
            let passes : all (is_current_pass commit environment) (latest_records counted) ≡ true =
              all_of_In _ (latest_records counted) (λ e m.
                let (listed, newest) = IsNewest-of_In-latest_records e counted m in
                h.1 e listed newest) in
            ground (arith, some_latest, h.0, passes),
      )
