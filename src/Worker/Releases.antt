-- ===== src/Worker/Releases.antt =====
-- apps/orchestrator-worker/src/release-repository.ts: the run events of an assessment. Its own tables,
-- release_assessments and release_evidence, are not modelled.
use atoms_platform.Common.{ℕ, String, List, [], ◌∷◌, map, max}
use atoms_platform.Store.{Payload, Tx, pure, ◌>>◌, append_event}

-- What the events say of an assessment: its counts by its status.
pub data AssessmentSummary : Type 0 where
  ready : (checks criteria : ℕ) → AssessmentSummary
  blocked : (issues : ℕ) → AssessmentSummary

pub record UnresolvedScenario : Type 0 where
  pub scenario : String
  pub missing_keys : List String

abbrev pub decision_event : (assessment : ℕ) → AssessmentSummary → Payload
decision_event id (ready checks criteria) = Payload.release_ready id checks criteria
decision_event id (blocked issues) = Payload.release_blocked id (max issues 1)

abbrev pub unresolved_event : (assessment : ℕ) → UnresolvedScenario → Payload
unresolved_event id u = Payload.release_criterion_key_unresolved id u.scenario u.missing_keys

-- The events of `persistAssessment`, in order.
abbrev pub assessment_events :
    (assessment attempt : ℕ) → AssessmentSummary → List UnresolvedScenario → List Payload
assessment_events id attempt summary unresolved =
    Payload.release_assessment_started id attempt
    ∷ decision_event id summary
    ∷ map (unresolved_event id) unresolved

-- The events of `persistEvaluatorFailure`.
abbrev pub failure_events : (assessment attempt : ℕ) → List Payload
failure_events id attempt =
    Payload.release_assessment_started id attempt ∷ Payload.release_blocked id 1 ∷ []

-- `appendReleaseEvent` for each of them, in one transaction.
unfoldable pub append_release_events : (run : ℕ) → List Payload → Tx (Unit {0})
append_release_events run [] = pure tt
append_release_events run (payload ∷ rest) =
    append_event run payload >> append_release_events run rest
