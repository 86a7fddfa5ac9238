-- ===== src/Tests/Quality.antt =====
-- Quality: the theorems on release assessments at work.
use atoms_platform.Common.{◌≡◌, ◌↔◌, refl, true, false, none, some, [], ◌∷◌, leb}
use atoms_platform.Quality.{
  CheckKind, check, acceptance, EvidenceStatus, Scope, Evidence, Input, ready, blocked, Orders,
  insert, sorted, unique, unknown_criteria, attest_issues, all_evidence_issues, check_issues,
  criterion_issues, evaluate_release,
}
use atoms_platform.Quality.Ready.{IsReady, evaluate_release_iff}
use atoms_platform.Quality.Complete.{Reports, evaluate_release-covers}

abbrev orders : Orders
orders = record {
  issues = λ a b. true;
  same_issue = λ a b. false;
  checks = λ a b. true;
  ids = leb;
  criteria = λ a b. true;
}

abbrev run_scope : Scope
run_scope = record {
  workspace_id = 5;
  project_id = 9;
  run_id = 1;
  control_version = 3;
  attempt = 1;
  snapshot_sha256 = "ab";
}

abbrev linted : Evidence
linted = record {
  id = 11;
  scope = run_scope;
  kind = check CheckKind.lint;
  status = EvidenceStatus.passed;
  completed_at = 900;
  acceptance_task_id = none;
  acceptance_task_attempt = none;
  criterion_ids = [];
}

abbrev attested : Evidence
attested = record linted {
  id = 12;
  kind = acceptance;
  acceptance_task_id = some 40;
  acceptance_task_attempt = some 2;
  criterion_ids = "US-001:1" ∷ [];
}

abbrev release : Input
release = record {
  scope = run_scope;
  evaluated_at = 1000;
  required_checks = CheckKind.lint ∷ [];
  max_evidence_age_seconds = 60;
  acceptance =
      some
        (record { task_id = 40; task_attempt = 2; scope = run_scope; criteria = "US-001:1" ∷ [] });
  evidence = linted ∷ attested ∷ [];
}

evaluation : Unit {0}
unfolding evaluate_release insert sorted unique unknown_criteria attest_issues all_evidence_issues
    check_issues criterion_issues
evaluation = tt

release_ready : (evaluate_release orders release).status ≡ ready
unfolding evaluation
release_ready = refl

-- A failed record blocks the release though a later one passed.
rerun_blocked :
    (evaluate_release orders (record release {
      evidence = record linted { id = 10; status = EvidenceStatus.failed } ∷ linted ∷ attested ∷ [];
    })).status
    ≡ blocked
unfolding evaluation
rerun_blocked = refl

evaluate_release_iff_example : ((evaluate_release orders release).status ≡ ready) ↔ IsReady release
evaluate_release_iff_example = evaluate_release_iff orders release

evaluate_release-covers_example :
    Reports (CheckKind.lint ∷ []) (evaluate_release orders release).checks
    × Reports ("US-001:1" ∷ []) (evaluate_release orders release).trace_to_acceptance
evaluate_release-covers_example = evaluate_release-covers orders release release_ready
