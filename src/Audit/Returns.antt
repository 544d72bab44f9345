-- ===== src/Audit/Returns.antt =====
-- When an audit completes.
use weft_mark.Prelude.{
  decimal, ◌+◌, Bool, true, false, none, List, [], ◌∷◌, ◌++◌, any, select, length, has_duplicates,
  Text, codes, is_blank, is_blank-visible, is_visible, is_space, any-append, DateTime, Result-cases,
  ok, err, ◌≡◌, refl, inl, inr, arith,
}
use weft_mark.Scope.{Scope, file, is_file, canonical, same_identity}
use weft_mark.Scope.Normalize.{Unicode, make}
use weft_mark.Review.{ReviewFinding, finding_post_init}
use weft_mark.Binding.{GitLineageObservation}
use weft_mark.Audit.{
  ScopeAuditResult, covers, report, finding_of, finding_draft, audit_paths, audit_changes,
  actual_paths_of, audit, result_post_init,
}
use weft_mark.Audit.Coverage.{any-actual_paths}

-- A finding of the audit is made where the time is aware and its texts are visible.
finding_of-returns :
    (id rationale : Text) (scope : Scope) (at : DateTime)
    → at.aware ≡ true
    → any is_visible id ≡ true
    → any is_visible rationale ≡ true
    → finding_of id rationale scope at ≡ ok (finding_draft id rationale scope at)
unfolding finding_of finding_post_init
finding_of-returns id rationale scope at aware some_id some_rationale =
    ground (arith, is_blank-visible id some_id, is_blank-visible rationale some_rationale)

report-returns :
    (covered : Bool) (id rationale : Text) (scope : Scope) (at : DateTime) (fs : List ReviewFinding)
    → at.aware ≡ true
    → any is_visible id ≡ true
    → any is_visible rationale ≡ true
    → (gs : List ReviewFinding) × (report covered id rationale scope at fs ≡ ok gs)
unfolding report
report-returns true id rationale scope at fs aware some_id some_rationale = (fs, refl)
report-returns false id rationale scope at fs aware some_id some_rationale =
    let made = finding_of-returns id rationale scope at aware some_id some_rationale in
    (fs ++ finding_draft id rationale scope at ∷ [], ground (arith, made))

-- A text with a colon behind something, as in the ids of findings.
visible_id : (id rest number : Text) → any is_visible ((id ++ b':' ∷ rest) ++ number) ≡ true
unfolding is_space
visible_id id rest number =
    rw (any-append is_visible (id ++ b':' ∷ rest) number)
      (rw (any-append is_visible id (b':' ∷ rest)) (ground arith))

module _ (u : Unicode) where
  -- The path has no file scope: it is absolute, leaves the repository, or the like.
  abbrev pub has_no_scope : Text → Bool
  has_no_scope path = elim (make u file path none) [ ok scope ↦ false | err raised ↦ true ]

  module _ (o : GitLineageObservation) (at : DateTime) (aware : at.aware ≡ true) where
    audit_paths-returns :
        (files : List Scope) (paths : List Text) (fs : List ReviewFinding)
        → any has_no_scope paths ≡ false
        → (gs : List ReviewFinding) × (audit_paths u o at files paths fs ≡ ok gs)
    unfolding audit_paths is_space
    audit_paths-returns files [] fs h = (fs, refl)
    audit_paths-returns files (path ∷ paths) fs h = elim (Result-cases (make u file path none)) [
      | inr (x, raises) ↦ absurd (ground (arith, raises))
      | inl (scope, made) ↦
          let (longer, reported) =
            report-returns (covers files scope)
              (o.id ++ codes ":scope:file:" ++ decimal (length fs + 1))
              (codes "changed path is outside declared file scope: " ++ path) scope at fs aware
              (visible_id o.id (codes "scope:file:") (decimal (length fs + 1))) refl in
          let (gs, rest) = audit_paths-returns files paths longer (ground arith) in
          (gs, ground (arith, made, reported, rest))
    ]

    audit_changes-returns :
        (scopes changes : List Scope) (fs : List ReviewFinding)
        → (gs : List ReviewFinding) × (audit_changes u o at scopes changes fs ≡ ok gs)
    unfolding audit_changes is_space
    audit_changes-returns scopes [] fs = (fs, refl)
    audit_changes-returns scopes (scope ∷ changes) fs =
        let (longer, reported) =
          report-returns (covers scopes scope)
            (o.id ++ codes ":scope:semantic:" ++ decimal (length fs + 1))
            (codes "semantic change is outside declared scope: " ++ canonical scope) scope at fs
            aware (visible_id o.id (codes "scope:semantic:") (decimal (length fs + 1))) refl in
        let (gs, rest) = audit_changes-returns scopes changes longer in
        (gs, ground (arith, reported, rest))

    -- An audit at an aware time completes if the observation has an id, the declared scopes are distinct,
    -- the semantic changes are distinct and none is a file, and each changed or dirty path has a
    -- file scope.
    pub audit-returns :
        (declared changes : List Scope)
        → is_blank o.id ≡ false
        → has_duplicates same_identity declared ≡ false
        → has_duplicates same_identity changes ≡ false
        → any (λ (s : Scope). is_file s.kind) changes ≡ false
        → any has_no_scope o.changed_paths ≡ false
        → any has_no_scope o.dirty_paths ≡ false
        → (r : ScopeAuditResult) × (audit u o at declared changes ≡ ok r)
    unfolding audit result_post_init
    audit-returns declared changes some_id distinct_declared distinct_changes semantic parsed
          parsed_dirty =
        let files = select (λ (s : Scope). is_file s.kind) declared in
        let all_parsed = any-actual_paths u o at has_no_scope in
        let (outside, first) =
          audit_paths-returns files (actual_paths_of u o at) [] (ground (arith, all_parsed)) in
        let (findings, second) = audit_changes-returns declared changes outside in
        (
          record {
            observation_id = o.id;
            declared_scopes = declared;
            actual_paths = actual_paths_of u o at;
            semantic_changes = changes;
            findings = findings;
            audited_at = at;
          },
          ground (arith, first, second),
        )
