-- ===== src/Policy/Tests.antt =====
-- Runs of policy.py on small inputs, and its theorems at them.
use weft_mark.Prelude.{
  true, false, ◌||◌, not, [], ◌∷◌, none, some, map, codes, text_eq, text_lt, is_space, lstrip,
  strip, is_blank, utc, ok, ◌≡◌, ◌↔◌, refl, arith, is_empty, all, In, inl, inr,
}
use weft_mark.Scope.{Scope, contract}
use weft_mark.Lock.Overlap.{scopes_overlap}
use weft_mark.Evidence.{Evidence, test, worker, change_set, passed, failed, staleness}
use weft_mark.Policy.{
  EvidenceRequirement, EvidencePolicy, EvidenceIssue, EvidenceProblem, post_init,
  requirement_post_init, applies_to, latest_from, latest_records, matching, about, applicable,
  is_current_pass, classify_problem, is_met, issue_of, judge, evaluate, is_satisfied,
}
use weft_mark.Policy.Latest.{IsNewest}
use weft_mark.Policy.Verdicts.{is_met_iff, is_satisfied-evaluate}
use weft_mark.Policy.Veto.{Counts, veto}

-- What a run has to see through.
program : Unit {0}
unfolding post_init requirement_post_init applies_to latest_from latest_records matching about
    applicable is_current_pass classify_problem is_met issue_of judge evaluate is_satisfied
    staleness scopes_overlap is_blank strip lstrip is_space text_eq text_lt
program = tt

abbrev api : Scope
api = record { kind = contract; key = codes "api"; display_label = none }

abbrev green : Evidence
green = record {
  id = codes "e1";
  kind = test;
  producer = record { kind = worker; id = codes "w" };
  subject = record { kind = change_set; id = codes "cs" };
  bound_commit_sha = some (codes "c1");
  environment = none;
  command = none;
  artifacts = [];
  state = passed;
  detail = none;
  stale_reasons = [];
  created_at = utc 1;
  updated_at = utc 5;
  started_at = none;
  completed_at = some (utc 5);
}

abbrev red : Evidence
red = record green { id = codes "e2"; state = failed; updated_at = utc 7 }

abbrev tests_pass : EvidenceRequirement
tests_pass = record {
  id = codes "tests";
  kind = test;
  required = true;
  scopes = api ∷ [];
  description = none;
}

abbrev gate : EvidencePolicy
gate = record {
  id = codes "gate";
  subject = record { kind = change_set; id = codes "cs" };
  requirements = tests_pass ∷ [];
}

gate_valid : post_init gate ≡ ok gate
unfolding program
gate_valid = refl

run_green : is_satisfied (evaluate (some (codes "c1")) none gate (green ∷ []) (api ∷ [])) ≡ true
unfolding program
run_green = refl

-- The problem of a passed record whose commit was left is that it is stale.
run_stale :
    map
      (λ (i : EvidenceIssue). i.problem)
      (evaluate (some (codes "c2")) none gate (green ∷ []) (api ∷ [])).issues
    ≡ EvidenceProblem.stale ∷ []
unfolding program
run_stale = refl

applies : applies_to tests_pass (api ∷ []) ≡ true
unfolding program
applies = refl

red_fails : is_current_pass (some (codes "c1")) none red ≡ false
unfolding program
red_fails = refl

red-Counts : Counts gate tests_pass red
unfolding program
red-Counts = record { subject = refl; kind = refl; standing = refl }

red-IsNewest : IsNewest red (green ∷ red ∷ [])
red-IsNewest f (inl e) = rw e (omega arith)
red-IsNewest f (inr (inl e)) = rw e (omega arith)
red-IsNewest f (inr (inr m)) = absurd m

veto_example :
    is_satisfied (evaluate (some (codes "c1")) none gate (green ∷ red ∷ []) (api ∷ [])) ≡ false
veto_example =
    veto (some (codes "c1")) none gate (api ∷ []) tests_pass red (green ∷ red ∷ []) (inl refl)
      applies refl (inr (inl refl)) red-Counts red-IsNewest red_fails

is_met_iff_example : (is_met (some (codes "c1")) none tests_pass (green ∷ []) ≡ true) ↔ (
    (is_empty (matching tests_pass (green ∷ [])) ≡ false)
    × ((e : Evidence)
        → In e (matching tests_pass (green ∷ []))
        → IsNewest e (matching tests_pass (green ∷ []))
        → is_current_pass (some (codes "c1")) none e ≡ true))
is_met_iff_example = is_met_iff (some (codes "c1")) none tests_pass (green ∷ [])

is_satisfied-evaluate_example :
    is_satisfied (evaluate none none gate (green ∷ []) (api ∷ []))
    ≡ all
        (λ (r : EvidenceRequirement).
          not r.required || is_met none none r (about gate (green ∷ [])))
        (applicable gate (api ∷ []))
is_satisfied-evaluate_example = is_satisfied-evaluate none none gate (green ∷ []) (api ∷ [])
