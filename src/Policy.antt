-- ===== src/Policy.antt =====
-- src/weftmark/domain/policy.py: explainable policy evaluation over typed evidence records. The times of
-- evidence are aware, as its constructor checks, and are compared by their instants.
pub mod Latest
pub mod Verdicts
pub mod Veto
mod Tests
use weft_mark.Prelude.{
  ℕ, Bool, true, false, ◌&&◌, ◌||◌, not, ◌==◌, ltb, Option, none, some, List, [], ◌∷◌, map,
  is_empty, any, all, select, has_duplicates, repeats, Text, require_text, when_some, Result, ok,
  ◌>>=◌, ◌>>◌, raise_if, if◌then◌else◌, evidence_policy_error,
}
use weft_mark.Scope.{Scope, same_identity}
use weft_mark.Lock.Overlap.{scopes_overlap}
use weft_mark.Evidence.{
  Evidence, EvidenceKind, EvidenceState, EvidenceSubject, passed, superseded, kind_eq, subject_eq,
  staleness,
}

pub data EvidenceProblem : Type 0 where
  missing stale failed unavailable : EvidenceProblem

pub record EvidenceRequirement : Type 0 where
  pub id : Text
  pub kind : EvidenceKind
  pub required : Bool
  pub scopes : List Scope
  pub description : Option Text

unfoldable pub requirement_post_init : EvidenceRequirement → Result EvidenceRequirement
requirement_post_init r = do
  require_text evidence_policy_error r.id
  when_some r.description (require_text evidence_policy_error)
  raise_if (has_duplicates same_identity r.scopes) evidence_policy_error
  ok r

unfoldable pub applies_to : EvidenceRequirement → (declared_scopes : List Scope) → Bool
applies_to self declared_scopes =
    is_empty self.scopes
    || any (λ required_scope. any (scopes_overlap required_scope) declared_scopes) self.scopes

pub record EvidenceIssue : Type 0 where
  pub requirement_id : Text
  pub kind : EvidenceKind
  pub required : Bool
  pub problem : EvidenceProblem
  pub evidence_ids : List Text
  pub observed_states : List EvidenceState

pub record EvidencePolicyResult : Type 0 where
  pub policy_id : Text
  pub applicable_requirement_ids : List Text
  pub satisfied_requirement_ids : List Text
  pub issues : List EvidenceIssue

unfoldable pub is_satisfied : EvidencePolicyResult → Bool
is_satisfied self = not (any (λ (issue : EvidenceIssue). issue.required) self.issues)

unfoldable pub required_issues : EvidencePolicyResult → List EvidenceIssue
required_issues self = select (λ issue. issue.required) self.issues

pub record EvidencePolicy : Type 0 where
  pub id : Text
  pub subject : EvidenceSubject
  pub requirements : List EvidenceRequirement

unfoldable pub post_init : EvidencePolicy → Result EvidencePolicy
post_init p = do
  require_text evidence_policy_error p.id
  let requirement_ids = map (λ (r : EvidenceRequirement). r.id) p.requirements
  raise_if (is_empty requirement_ids) evidence_policy_error
  raise_if (repeats requirement_ids) evidence_policy_error
  ok p

-- `max(record.updated_at for record in evidence)`, from the first one on
unfoldable pub latest_from : ℕ → List Evidence → ℕ
latest_from t [] = t
latest_from t (e ∷ es) =
    latest_from (if ltb t e.updated_at.instant then e.updated_at.instant else t) es

-- `_latest_records`
unfoldable pub latest_records : List Evidence → List Evidence
latest_records [] = []
latest_records (e ∷ es) =
    let latest_at = latest_from e.updated_at.instant es in
    select (λ r. r.updated_at.instant == latest_at) (e ∷ es)

abbrev pub is_superseded : EvidenceState → Bool
is_superseded superseded = true
is_superseded _ = false

abbrev pub is_passed : EvidenceState → Bool
is_passed passed = true
is_passed _ = false

abbrev pub is_stale : EvidenceState → Bool
is_stale EvidenceState.stale = true
is_stale _ = false

abbrev pub is_failed : EvidenceState → Bool
is_failed EvidenceState.failed = true
is_failed _ = false

abbrev pub is_unavailable : EvidenceState → Bool
is_unavailable EvidenceState.unavailable = true
is_unavailable _ = false

-- The records that count for a requirement.
unfoldable pub matching : EvidenceRequirement → List Evidence → List Evidence
matching requirement records =
    select (λ r. kind_eq r.kind requirement.kind && not (is_superseded r.state)) records

-- `tuple(record for record in evidence if record.subject == self.subject)`
unfoldable pub about : EvidencePolicy → List Evidence → List Evidence
about self evidence = select (λ r. subject_eq r.subject self.subject) evidence

-- `tuple(requirement for requirement in self.requirements if …applies_to(…))`
unfoldable pub applicable :
    EvidencePolicy → (declared_scopes : List Scope) → List EvidenceRequirement
applicable self declared_scopes = select (λ r. applies_to r declared_scopes) self.requirements

module _ (commit environment : Option Text) where
  -- `_is_current_pass`
  unfoldable pub is_current_pass : Evidence → Bool
  is_current_pass e = is_passed e.state && is_empty (staleness e commit environment)

  -- `_classify_problem`
  unfoldable pub classify_problem : List Evidence → EvidenceProblem
  classify_problem evidence =
      if any
        (λ (r : Evidence).
          is_stale r.state
          || (is_passed r.state && not (is_empty (staleness r commit environment))))
        evidence
      then EvidenceProblem.stale
      else if any (λ (r : Evidence). is_failed r.state) evidence
      then EvidenceProblem.failed
      else if any (λ (r : Evidence). is_unavailable r.state) evidence
      then EvidenceProblem.unavailable
      else missing

  -- The test of the loop: there is a latest record, and each of the latest is a current pass.
  unfoldable pub is_met : EvidenceRequirement → List Evidence → Bool
  is_met requirement records =
      let latest = latest_records (matching requirement records) in
      not (is_empty latest) && all is_current_pass latest

  -- What the loop appends to `issues` where the test fails.
  unfoldable pub issue_of : EvidenceRequirement → List Evidence → EvidenceIssue
  issue_of requirement records = record {
    requirement_id = requirement.id;
    kind = requirement.kind;
    required = requirement.required;
    problem = classify_problem (latest_records (matching requirement records));
    evidence_ids = map (λ (r : Evidence). r.id) (matching requirement records);
    observed_states = map (λ (r : Evidence). r.state) (matching requirement records);
  }

  -- The loop over the applicable requirements: the lists `satisfied` and `issues`.
  unfoldable pub judge : List Evidence → List EvidenceRequirement → List Text × List EvidenceIssue
  judge records [] = ([], [])
  judge records (requirement ∷ rest) =
      let (satisfied, issues) = judge records rest in
      if is_met requirement records
      then (requirement.id ∷ satisfied, issues)
      else (satisfied, issue_of requirement records ∷ issues)

  unfoldable pub evaluate :
      EvidencePolicy → List Evidence → (declared_scopes : List Scope) → EvidencePolicyResult
  evaluate self evidence declared_scopes =
      let (satisfied, issues) = judge (about self evidence) (applicable self declared_scopes) in
      record {
        policy_id = self.id;
        applicable_requirement_ids =
            map (λ (r : EvidenceRequirement). r.id) (applicable self declared_scopes);
        satisfied_requirement_ids = satisfied;
        issues = issues;
      }
