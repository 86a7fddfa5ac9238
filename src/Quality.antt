-- ===== src/Quality.antt =====
-- packages/quality/src/evaluate.ts, on inputs as schema.ts lets them through: whether a release is
-- ready, judged by all of its evidence.
pub mod Ready
pub mod Complete
use atoms_platform.Common.{
  ℕ, ◌+◌, ◌*◌, String, Bool, true, false, not, ◌&&◌, ◌||◌, Option, none, some, List, [], ◌∷◌, ◌++◌,
  ◌==◌, ltb, if◌then◌else◌, length, keep, map, str_eq,
}

pub data CheckKind : Type 0 where
  lint typecheck test build regression e2e accessibility performance security : CheckKind

abbrev check_code : CheckKind → ℕ
check_code CheckKind.lint = 0
check_code CheckKind.typecheck = 1
check_code CheckKind.test = 2
check_code CheckKind.build = 3
check_code CheckKind.regression = 4
check_code CheckKind.e2e = 5
check_code CheckKind.accessibility = 6
check_code CheckKind.performance = 7
check_code CheckKind.security = 8

pub data EvidenceKind : Type 0 where
  check : CheckKind → EvidenceKind
  acceptance : EvidenceKind

pub data EvidenceStatus : Type 0 where
  passed failed skipped error : EvidenceStatus

pub record Scope : Type 0 where
  pub workspace_id : ℕ
  pub project_id : ℕ
  pub run_id : ℕ
  pub control_version : ℕ
  pub attempt : ℕ
  pub snapshot_sha256 : String

pub record Acceptance : Type 0 where
  pub task_id : ℕ
  pub task_attempt : ℕ
  pub scope : Scope
  pub criteria : List String

pub record Evidence : Type 0 where
  pub id : ℕ
  pub scope : Scope
  pub kind : EvidenceKind
  pub status : EvidenceStatus
  pub completed_at : ℕ
  pub acceptance_task_id : Option ℕ
  pub acceptance_task_attempt : Option ℕ
  pub criterion_ids : List String

pub record Input : Type 0 where
  pub scope : Scope
  pub evaluated_at : ℕ
  pub required_checks : List CheckKind
  pub max_evidence_age_seconds : ℕ
  pub acceptance : Option Acceptance
  pub evidence : List Evidence

pub data Issue : Type 0 where
  missing_acceptance acceptance_scope_mismatch : Issue
  duplicate_evidence evidence_scope_mismatch evidence_from_future evidence_too_old
        acceptance_task_mismatch evidence_not_passed :
      (evidence_id : ℕ) → Issue
  unknown_criterion : (evidence_id : ℕ) (criterion_id : String) → Issue
  missing_check : CheckKind → Issue
  missing_criterion_evidence : (criterion_id : String) → Issue

pub data ReleaseStatus : Type 0 where
  ready blocked : ReleaseStatus

-- The status and the evidence ids of a required check or of a criterion.
pub record Coverage (K : Type 0) : Type 0 where
  pub of : K
  pub covered : Bool
  pub evidence_ids : List ℕ

pub record Assessment : Type 0 where
  pub status : ReleaseStatus
  pub checks : List (Coverage CheckKind)
  pub trace_to_acceptance : List (Coverage String)
  pub issues : List Issue

-- Whether one text sorts before another: of issues as JSON, of checks, ids and criteria as texts.
pub record Orders : Type 0 where
  pub issues : Issue → Issue → Bool
  pub same_issue : Issue → Issue → Bool
  pub checks : CheckKind → CheckKind → Bool
  pub ids : ℕ → ℕ → Bool
  pub criteria : String → String → Bool

module _ {A : Type 0} (before : A → A → Bool) where
  unfoldable pub insert : A → List A → List A
  insert x [] = x ∷ []
  insert x (y ∷ ys) = if before x y then x ∷ y ∷ ys else y ∷ insert x ys

  unfoldable pub sorted : List A → List A
  sorted [] = []
  sorted (x ∷ xs) = insert x (sorted xs)

-- `[...new Map(...).values()]`: the first of each class stays.
unfoldable pub unique : {A : Type 0} → (A → A → Bool) → List A → List A
unique same [] = []
unique same (x ∷ xs) = x ∷ keep (λ y. not (same x y)) (unique same xs)

abbrev pub same_scope : Scope → Scope → Bool
same_scope a b =
    a.workspace_id == b.workspace_id
    && a.project_id == b.project_id
    && a.run_id == b.run_id
    && a.control_version == b.control_version
    && a.attempt == b.attempt
    && str_eq a.snapshot_sha256 b.snapshot_sha256

abbrev pub issue_if : Bool → Issue → List Issue
issue_if true issue = issue ∷ []
issue_if false issue = []

abbrev pub acceptance_issues : Scope → Option Acceptance → List Issue
acceptance_issues scope none = missing_acceptance ∷ []
acceptance_issues scope (some a) =
    issue_if (not (same_scope scope a.scope)) acceptance_scope_mismatch

-- `counts.get(id)`
abbrev pub count_id : ℕ → List Evidence → ℕ
count_id id es = length (keep (λ e. e.id == id) es)

abbrev pub has_criterion : String → List String → Bool
has_criterion c [] = false
has_criterion c (d ∷ rest) = str_eq d c || has_criterion c rest

abbrev pub criteria_of : Option Acceptance → List String
criteria_of none = []
criteria_of (some a) = a.criteria

abbrev pub is_id : ℕ → Option ℕ → Bool
is_id n none = false
is_id n (some m) = m == n

-- The evidence attests the current attempt of the usable_evidence task.
abbrev pub is_of_task : Scope → Option Acceptance → Evidence → Bool
is_of_task scope none e = false
is_of_task scope (some a) e =
    same_scope scope a.scope
    && is_id a.task_id e.acceptance_task_id
    && is_id a.task_attempt e.acceptance_task_attempt

unfoldable pub unknown_criteria : ℕ → (known cited : List String) → List Issue
unknown_criteria id known [] = []
unknown_criteria id known (c ∷ cs) =
    issue_if (not (has_criterion c known)) (unknown_criterion id c) ++ unknown_criteria id known cs

unfoldable pub attest_issues : Input → Evidence → EvidenceKind → List Issue
attest_issues i e (check kind) = []
attest_issues i e acceptance =
    issue_if (not (is_of_task i.scope i.acceptance e)) (acceptance_task_mismatch e.id)
    ++ unknown_criteria e.id (criteria_of i.acceptance) e.criterion_ids

-- `age < 0`, else `age > maxEvidenceAgeSeconds * 1000`.
abbrev pub age_issues : Input → Evidence → List Issue
age_issues i e =
    if ltb i.evaluated_at e.completed_at
    then evidence_from_future e.id ∷ []
    else issue_if (ltb (e.completed_at + i.max_evidence_age_seconds * 1000) i.evaluated_at)
        (evidence_too_old e.id)

-- The issues that make a record unusable.
abbrev pub rejections : Input → Evidence → List Issue
rejections i e =
    issue_if (ltb 1 (count_id e.id i.evidence)) (duplicate_evidence e.id)
    ++ (issue_if (not (same_scope i.scope e.scope)) (evidence_scope_mismatch e.id)
        ++ (age_issues i e ++ attest_issues i e e.kind))

abbrev pub is_empty : {A : Type 0} → List A → Bool
is_empty [] = true
is_empty (x ∷ xs) = false

abbrev pub is_passed : EvidenceStatus → Bool
is_passed EvidenceStatus.passed = true
is_passed _ = false

abbrev pub evidence_issues : Input → Evidence → List Issue
evidence_issues i e =
    rejections i e ++ issue_if (not (is_passed e.status)) (evidence_not_passed e.id)

unfoldable pub all_evidence_issues : Input → List Evidence → List Issue
all_evidence_issues i [] = []
all_evidence_issues i (e ∷ es) = evidence_issues i e ++ all_evidence_issues i es

abbrev pub usable_evidence : Input → List Evidence
usable_evidence i = keep (λ e. is_empty (rejections i e)) i.evidence

abbrev pub is_check : CheckKind → EvidenceKind → Bool
is_check kind (check k) = check_code k == check_code kind
is_check kind acceptance = false

abbrev pub is_acceptance : EvidenceKind → Bool
is_acceptance (check k) = false
is_acceptance acceptance = true

abbrev pub covers_check : CheckKind → Evidence → Bool
covers_check kind e = is_check kind e.kind

abbrev pub covers_criterion : String → Evidence → Bool
covers_criterion c e = is_acceptance e.kind && has_criterion c e.criterion_ids

abbrev pub acceptance_matches : Scope → Option Acceptance → Bool
acceptance_matches scope none = false
acceptance_matches scope (some a) = same_scope scope a.scope

abbrev pub matching_criterion : Input → String → List Evidence
matching_criterion i c =
    if acceptance_matches i.scope i.acceptance
    then keep (covers_criterion c) (usable_evidence i)
    else []

unfoldable pub check_issues : Input → List CheckKind → List Issue
check_issues i [] = []
check_issues i (k ∷ ks) =
    issue_if (is_empty (keep (covers_check k) (usable_evidence i))) (missing_check k)
    ++ check_issues i ks

unfoldable pub criterion_issues : Input → List String → List Issue
criterion_issues i [] = []
criterion_issues i (c ∷ cs) =
    issue_if (is_empty (matching_criterion i c)) (missing_criterion_evidence c)
    ++ criterion_issues i cs

abbrev pub all_passed : List Evidence → Bool
all_passed [] = true
all_passed (e ∷ es) = is_passed e.status && all_passed es

abbrev pub coverage : {K : Type 0} → Orders → K → List Evidence → Coverage K
coverage orders k es = record {
  of = k;
  covered = not (is_empty es) && all_passed es;
  evidence_ids = sorted orders.ids (map (λ e. e.id) es);
}

abbrev pub issues_of : Orders → Input → List Issue
issues_of orders i =
    acceptance_issues i.scope i.acceptance
    ++ (all_evidence_issues i i.evidence
        ++ (check_issues i (sorted orders.checks i.required_checks)
            ++ criterion_issues i (criteria_of i.acceptance)))

abbrev pub canonical : Orders → List Issue → List Issue
canonical orders issues = sorted orders.issues (unique orders.same_issue issues)

abbrev pub status_of : List Issue → ReleaseStatus
status_of [] = ready
status_of (issue ∷ rest) = blocked

-- `evaluateRelease`
unfoldable pub evaluate_release : Orders → Input → Assessment
evaluate_release orders i = record {
  status = status_of (canonical orders (issues_of orders i));
  checks =
      map (λ k. coverage orders k (keep (covers_check k) (usable_evidence i)))
        (sorted orders.checks i.required_checks);
  trace_to_acceptance =
      map (λ c. coverage orders c (matching_criterion i c))
        (sorted orders.criteria (criteria_of i.acceptance));
  issues = canonical orders (issues_of orders i);
}
