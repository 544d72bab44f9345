-- ===== src/Audit/Coverage.antt =====
-- When an audit finds nothing.
use weft_mark.Prelude.{
  decimal, ◌+◌, length, codes, Bool, true, false, ◌&&◌, ◌||◌, not, none, List, [], ◌∷◌, ◌++◌, any,
  is_empty, select, Text, DateTime, Result, Result-cases, ok, err, any-append, any-sort_texts,
  any-set_texts, ◌≡◌, ◌∙◌, ap, refl, inl, inr, arith,
}
use weft_mark.Scope.{Scope, canonical, file, is_file}
use weft_mark.Scope.Normalize.{Unicode, make}
use weft_mark.Review.{ReviewFinding}
use weft_mark.Binding.{GitLineageObservation}
use weft_mark.Audit.{
  ScopeAuditResult, covers, report, finding_of, audit_paths, audit_changes, actual_paths_of, audit,
  result_post_init, is_within_scope,
}

is_empty-snoc : (fs : List ReviewFinding) (f : ReviewFinding) → is_empty (fs ++ f ∷ []) ≡ false
is_empty-snoc [] f = refl
is_empty-snoc (g ∷ fs) f = refl

-- A report leaves the findings empty exactly if they were and the scope is covered.
report-is_empty :
    (covered : Bool) (id rationale : Text) (scope : Scope) (at : DateTime)
    (fs gs : List ReviewFinding)
    → report covered id rationale scope at fs ≡ ok gs
    → is_empty gs ≡ (is_empty fs && covered)
unfolding report
report-is_empty true id rationale scope at fs gs e = ground arith
report-is_empty false id rationale scope at fs gs e =
    elim (Result-cases (finding_of id rationale scope at)) [
      | inl (f, made) ↦ ground (arith, made, is_empty-snoc fs f)
      | inr (x, raises) ↦ absurd (ground (arith, raises))
    ]

module _ (u : Unicode) where
  -- The path has a file scope, and none of the declared ones competes with it.
  abbrev pub is_outside : (declared_files : List Scope) → Text → Bool
  is_outside declared_files path = elim (make u file path none) [
    | ok scope ↦ not (covers declared_files scope)
    | err raised ↦ false
  ]

  module _ (o : GitLineageObservation) (at : DateTime) where
    path_report : List Scope → Text → Scope → List ReviewFinding → Result (List ReviewFinding)
    path_report files path scope fs =
        report (covers files scope) (o.id ++ codes ":scope:file:" ++ decimal (length fs + 1))
          (codes "changed path is outside declared file scope: " ++ path) scope at fs

    change_report : List Scope → Scope → List ReviewFinding → Result (List ReviewFinding)
    change_report scopes scope fs =
        report (covers scopes scope) (o.id ++ codes ":scope:semantic:" ++ decimal (length fs + 1))
          (codes "semantic change is outside declared scope: " ++ canonical scope) scope at fs

    -- After the loop over the paths, the findings are empty exactly if they were and no path is outside.
    audit_paths-is_empty :
        (files : List Scope) (paths : List Text) (fs gs : List ReviewFinding)
        → audit_paths u o at files paths fs ≡ ok gs
        → is_empty gs ≡ (is_empty fs && not (any (is_outside files) paths))
    unfolding audit_paths path_report
    audit_paths-is_empty files [] fs gs e = ground arith
    audit_paths-is_empty files (path ∷ paths) fs gs e =
        elim (Result-cases (make u file path none)) [
          | inr (x, raises) ↦ absurd (ground (arith, raises))
          | inl (scope, made) ↦ elim (Result-cases (path_report files path scope fs)) [
            | inr (x, raises) ↦ absurd (ground (arith, made, raises))
            | inl (longer, reported) ↦
                let head = report-is_empty _ _ _ scope at fs longer reported in
                let tail =
                  audit_paths-is_empty files paths longer gs (ground (arith, made, reported)) in
                ground (arith, made, head, tail)
          ]
        ]

    audit_changes-is_empty :
        (scopes changes : List Scope) (fs gs : List ReviewFinding)
        → audit_changes u o at scopes changes fs ≡ ok gs
        → is_empty gs ≡ (is_empty fs && not (any (λ s. not (covers scopes s)) changes))
    unfolding audit_changes change_report
    audit_changes-is_empty scopes [] fs gs e = ground arith
    audit_changes-is_empty scopes (scope ∷ changes) fs gs e =
        elim (Result-cases (change_report scopes scope fs)) [
          | inr (x, raises) ↦ absurd (ground (arith, raises))
          | inl (longer, reported) ↦
              let head = report-is_empty _ _ _ scope at fs longer reported in
              let tail =
                audit_changes-is_empty scopes changes longer gs (ground (arith, reported)) in
              ground (arith, head, tail)
        ]

    pub any-actual_paths :
        (p : Text → Bool)
        → any p (actual_paths_of u o at) ≡ (any p o.changed_paths || any p o.dirty_paths)
    any-actual_paths p =
        any-sort_texts p _ ∙ any-set_texts p _ ∙ any-append p o.changed_paths o.dirty_paths

    -- A completed audit finds nothing exactly if no changed and no dirty path has a file scope that all
    -- declared file scopes miss, and each semantic change competes with a declared scope.
    pub is_within_scope-audit :
        (declared changes : List Scope) (r : ScopeAuditResult)
        → audit u o at declared changes ≡ ok r
        → is_within_scope r ≡ (
            not (
              any (is_outside (select (λ (s : Scope). is_file s.kind) declared)) o.changed_paths
              || any (is_outside (select (λ (s : Scope). is_file s.kind) declared)) o.dirty_paths)
            && not (any (λ s. not (covers declared s)) changes))
    unfolding audit is_within_scope result_post_init
    is_within_scope-audit declared changes r e =
        let files = select (λ (s : Scope). is_file s.kind) declared in
        elim (Result-cases (audit_paths u o at files (actual_paths_of u o at) [])) [
          | inr (x, raises) ↦ absurd (ground (arith, raises))
          | inl (outside, first) ↦
              elim (Result-cases (audit_changes u o at declared changes outside)) [
                | inr (x, raises) ↦ absurd (ground (arith, first, raises))
                | inl (findings, second) ↦
                    let paths =
                      audit_paths-is_empty files (actual_paths_of u o at) [] outside first in
                    let both = audit_changes-is_empty declared changes outside findings second in
                    let all_paths = any-actual_paths (is_outside files) in
                    let same : r.findings ≡ findings = ground (arith, first, second) in
                    ap is_empty same
                    ∙ both
                    ∙ ap (λ b. b && not (any (λ s. not (covers declared s)) changes))
                        (paths ∙ ap not all_paths)
              ]
        ]
