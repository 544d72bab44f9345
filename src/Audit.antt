-- ===== src/Audit.antt =====
-- src/weftmark/application/scope_audit.py: the changed paths of an observation and the declared semantic
-- changes against the declared scopes. `u` are the Unicode tables of Scope/Normalize.
pub mod Coverage
pub mod Returns
mod Tests
use weft_mark.Prelude.{
  decimal, ℕ, zero, suc, ◌+◌, ltb, Bool, true, false, ◌&&◌, not, Option, none, some, List, [], ◌∷◌,
  ◌++◌, any, is_empty, select, map, length, has_duplicates, Text, codes, is_blank, require_text,
  sort_texts, set_texts, DateTime, require_aware, Result, ok, err, ◌>>=◌, ◌>>◌, raise_if,
  if◌then◌else◌, scope_audit_error,
}
use weft_mark.Scope.{Scope, file, is_file, same_identity, canonical}
use weft_mark.Scope.Normalize.{Unicode, make}
use weft_mark.Lock.Overlap.{scopes_overlap}
use weft_mark.Review.{ReviewFinding, blocking, open_status, finding_post_init}
use weft_mark.Binding.{GitLineageObservation}

pub record ScopeAuditResult : Type 0 where
  pub observation_id : Text
  pub declared_scopes : List Scope
  pub actual_paths : List Text
  pub semantic_changes : List Scope
  pub findings : List ReviewFinding
  pub audited_at : DateTime

unfoldable pub result_post_init : ScopeAuditResult → Result ScopeAuditResult
result_post_init r = do
  require_text scope_audit_error r.observation_id
  require_aware scope_audit_error r.audited_at
  raise_if (has_duplicates same_identity r.declared_scopes) scope_audit_error
  raise_if (has_duplicates same_identity r.semantic_changes) scope_audit_error
  ok r

unfoldable pub is_within_scope : ScopeAuditResult → Bool
is_within_scope r = is_empty r.findings

unfoldable pub uncovered_paths : ScopeAuditResult → List Text
uncovered_paths r =
    map (λ (f : ReviewFinding). f.scope.key)
      (select (λ (f : ReviewFinding). is_file f.scope.kind) r.findings)

unfoldable pub undeclared_semantic_scopes : ScopeAuditResult → List Scope
undeclared_semantic_scopes r =
    map (λ (f : ReviewFinding). f.scope)
      (select (λ (f : ReviewFinding). not (is_file f.scope.kind)) r.findings)

-- `any(scopes_overlap(declared, scope) for declared in scopes)`
abbrev pub covers : List Scope → Scope → Bool
covers scopes scope = any (λ declared. scopes_overlap declared scope) scopes

abbrev pub finding_draft :
    (id rationale : Text) (scope : Scope) (audited_at : DateTime) → ReviewFinding
finding_draft id rationale scope audited_at = record {
  id = id;
  severity = blocking;
  scope = scope;
  rationale = rationale;
  status = open_status;
  created_at = audited_at;
  updated_at = audited_at;
  events = [];
}

-- A finding of the audit, through the constructor.
unfoldable pub finding_of :
    (id rationale : Text) (scope : Scope) (audited_at : DateTime) → Result ReviewFinding
finding_of id rationale scope audited_at =
    finding_post_init (finding_draft id rationale scope audited_at)

-- `findings.append(…)`, unless the scope is covered.
unfoldable pub report :
    (covered : Bool) (id rationale : Text) (scope : Scope) (audited_at : DateTime)
    (findings : List ReviewFinding)
    → Result (List ReviewFinding)
report covered id rationale scope audited_at findings =
    if covered
    then ok findings
    else do finding ← finding_of id rationale scope audited_at; ok (findings ++ finding ∷ [])

module _ (u : Unicode) (observation : GitLineageObservation) (audited_at : DateTime) where
  -- The loop over the paths.
  unfoldable pub audit_paths :
      (declared_files : List Scope) (paths : List Text) (findings : List ReviewFinding)
      → Result (List ReviewFinding)
  audit_paths declared_files [] findings = ok findings
  audit_paths declared_files (path ∷ paths) findings = do
    actual_scope ← make u file path none
    longer ←
        report (covers declared_files actual_scope)
          (observation.id ++ codes ":scope:file:" ++ decimal (length findings + 1))
          (codes "changed path is outside declared file scope: " ++ path) actual_scope audited_at
          findings
    audit_paths declared_files paths longer

  -- The loop over the semantic changes.
  unfoldable pub audit_changes :
      (declared_scopes changes : List Scope) (findings : List ReviewFinding)
      → Result (List ReviewFinding)
  audit_changes declared_scopes [] findings = ok findings
  audit_changes declared_scopes (changed_scope ∷ changes) findings = do
    longer ←
        report (covers declared_scopes changed_scope)
          (observation.id ++ codes ":scope:semantic:" ++ decimal (length findings + 1))
          (codes "semantic change is outside declared scope: " ++ canonical changed_scope)
          changed_scope audited_at findings
    audit_changes declared_scopes changes longer

  -- `tuple(sorted(set(observation.changed_paths) | set(observation.dirty_paths)))`
  abbrev pub actual_paths_of : List Text
  actual_paths_of = sort_texts (set_texts (observation.changed_paths ++ observation.dirty_paths))

  unfoldable pub audit : (declared_scopes semantic_changes : List Scope) → Result ScopeAuditResult
  audit declared_scopes semantic_changes = do
    require_aware scope_audit_error audited_at
    raise_if (has_duplicates same_identity declared_scopes) scope_audit_error
    raise_if (has_duplicates same_identity semantic_changes) scope_audit_error
    raise_if (any (λ (s : Scope). is_file s.kind) semantic_changes) scope_audit_error
    let declared_files = select (λ (s : Scope). is_file s.kind) declared_scopes
    outside ← audit_paths declared_files actual_paths_of []
    findings ← audit_changes declared_scopes semantic_changes outside
    result_post_init (record {
      observation_id = observation.id;
      declared_scopes = declared_scopes;
      actual_paths = actual_paths_of;
      semantic_changes = semantic_changes;
      findings = findings;
      audited_at = audited_at;
    })
