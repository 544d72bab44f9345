-- ===== src/Audit/Tests.antt =====
-- Runs of scope_audit.py on small inputs, and its theorems at them.
use weft_mark.Prelude.{
  decimal, digits, ◌||◌, ◌&&◌, not, [], ◌∷◌, none, any, codes, text_eq, text_lt, is_space, lstrip,
  strip, is_blank, sort_texts, set_texts, utc, ok, ◌≡◌, refl,
}
use weft_mark.Scope.{Scope, file, contract, value, canonical}
use weft_mark.Scope.Normalize.{
  Unicode, require_text, slashes, split_slash, join_slash, posix_path, normalize_file, dashes,
  is_semantic_key, stripped_label, normalize_semantic, make,
}
use weft_mark.Lock.Glob.{
  fnmatchcase, tokens, tokens_from, matches, accepts, head_is, tail, until_bracket, set_body, items,
  without_empty, items_outside, set_token, in_item,
}
use weft_mark.Lock.Overlap.{
  has_magic, before_magic, rstrip_slash, literal_prefix, starts_with, path_prefix,
  file_scopes_overlap, scopes_overlap,
}
use weft_mark.Review.{finding_post_init}
use weft_mark.Binding.{GitLineageObservation, observation_post_init}
use weft_mark.Audit.{
  ScopeAuditResult, covers, report, finding_of, finding_draft, audit_paths, audit_changes, audit,
  result_post_init, is_within_scope, uncovered_paths, undeclared_semantic_scopes,
}
use weft_mark.Audit.Coverage.{is_outside, is_within_scope-audit}
use weft_mark.Audit.Returns.{audit-returns}

-- What a run has to see through.
program : Unit {0}
unfolding value canonical require_text slashes split_slash join_slash posix_path normalize_file
    dashes is_semantic_key stripped_label normalize_semantic make fnmatchcase tokens tokens_from
    matches accepts head_is tail until_bracket set_body items without_empty items_outside set_token
    in_item has_magic before_magic rstrip_slash literal_prefix starts_with path_prefix
    file_scopes_overlap scopes_overlap finding_post_init observation_post_init digits report
    finding_of audit_paths audit_changes audit result_post_init is_within_scope uncovered_paths
    undeclared_semantic_scopes is_blank strip lstrip is_space text_eq text_lt sort_texts set_texts
program = tt

-- The Unicode tables, for texts of small ASCII letters.
abbrev ascii : Unicode
ascii = record { nfkc = λ s. s; casefold = λ s. s }

runs_of_decimal : (decimal 0 ≡ codes "0") × (decimal 7 ≡ codes "7") × (decimal 120 ≡ codes "120")
unfolding program
runs_of_decimal = (refl, refl, refl)

abbrev seen : GitLineageObservation
seen = record {
  id = codes "o1";
  repository_id = codes "repo";
  base_revision = codes "main";
  base_sha = codes "b";
  head_sha = codes "h";
  branch = codes "topic";
  worktree = codes "tree";
  changed_paths = codes "src/a.py" ∷ codes "doc.md" ∷ [];
  dirty_paths = codes "src/a.py" ∷ [];
  observed_at = utc 1;
}

seen_accepted : observation_post_init seen ≡ ok seen
unfolding program
seen_accepted = refl

abbrev sources : Scope
sources = record { kind = file; key = codes "src/*"; display_label = none }

abbrev api : Scope
api = record { kind = contract; key = codes "api"; display_label = none }

abbrev result : ScopeAuditResult
result = record {
  observation_id = codes "o1";
  declared_scopes = sources ∷ [];
  actual_paths = codes "doc.md" ∷ codes "src/a.py" ∷ [];
  semantic_changes = api ∷ [];
  findings =
      finding_draft (codes "o1:scope:file:1")
        (codes "changed path is outside declared file scope: doc.md")
        (record { kind = file; key = codes "doc.md"; display_label = none }) (utc 2)
      ∷ finding_draft (codes "o1:scope:semantic:2")
          (codes "semantic change is outside declared scope: contract:api") api (utc 2)
      ∷ [];
  audited_at = utc 2;
}

audit-seen : audit ascii seen (utc 2) (sources ∷ []) (api ∷ []) ≡ ok result
unfolding program
audit-seen = refl

uncovered : uncovered_paths result ≡ codes "doc.md" ∷ []
unfolding program
uncovered = refl

is_within_scope-audit_example : is_within_scope result ≡ (
    not (
      any (is_outside ascii (sources ∷ [])) seen.changed_paths
      || any (is_outside ascii (sources ∷ [])) seen.dirty_paths)
    && not (any (λ s. not (covers (sources ∷ []) s)) (api ∷ [])))
is_within_scope-audit_example =
    is_within_scope-audit ascii seen (utc 2) (sources ∷ []) (api ∷ []) result audit-seen

audit-returns_example :
    (r : ScopeAuditResult) × (audit ascii seen (utc 2) (sources ∷ []) (api ∷ []) ≡ ok r)
unfolding program
audit-returns_example =
    audit-returns ascii seen (utc 2) refl (sources ∷ []) (api ∷ []) refl refl refl refl refl refl
