-- ===== src/Store/Payloads.antt =====
-- packages/contracts/src/events.ts, `validateRunEventPayload`. The ids, times and counts of the
-- model's payloads satisfy their schemas; what is left are the bounds on numbers and texts.
use atoms_platform.Common.{
  ℕ, String, Bool, true, false, ◌&&◌, ◌||◌, Option, none, some, List, [], ◌∷◌, length, ltb, leb,
  str_eq, if◌then◌else◌,
}
use atoms_platform.Store.Sandboxes.{PreviewStatus, Text}
use atoms_platform.Store.Model.{ApprovalScope, Payload, Formats}

abbrev pub is_text_within : Formats → (longest : ℕ) → String → Bool
is_text_within f longest s = ltb 0 (f.text_length s) && leb (f.text_length s) longest

-- A longest output of 64,012 code units.
abbrev pub is_output : Text → Bool
is_output t = leb (length t) 64012

-- `ArtifactTypeSchema`
abbrev pub artifact_types : List String
artifact_types =
    "sophia-output" ∷ "mike-output" ∷ "emma-output" ∷ "bob-output" ∷ "alex-output" ∷ "david-output"
    ∷ "sarah-output" ∷ "adrian-output" ∷ "customersuccess-output" ∷ "seo-package"
    ∷ "content-package" ∷ []

abbrev pub has_type : String → List String → Bool
has_type s [] = false
has_type s (t ∷ ts) = str_eq s t || has_type s ts

abbrev pub every_text : (String → Bool) → List String → Bool
every_text test [] = true
every_text test (s ∷ ss) = test s && every_text test ss

abbrev pub valid_when : Bool → Payload → Option Payload
valid_when b p = if b then some p else none

-- `normalizeApprovalRequiredEventPayload`, of a payload of version v1.
abbrev pub valid_approval : Formats → ApprovalScope → String → Option Payload
valid_approval f scope trimmed =
    valid_when (is_text_within f 2000 trimmed) (Payload.approval_required scope trimmed)

abbrev pub valid_preview_at :
    (session : ℕ) → PreviewStatus → (expires : ℕ) → Option String → Option Payload
valid_preview_at session status expires none = none
valid_preview_at session status expires (some url) =
    some (Payload.preview_updated session status (some url) expires)

abbrev pub valid_preview :
    Formats → (session : ℕ) → PreviewStatus → Option String → (expires : ℕ) → Option Payload
valid_preview f session status none expires =
    some (Payload.preview_updated session status none expires)
valid_preview f session status (some url) expires =
    valid_preview_at session status expires (f.parse_url url)

abbrev pub valid_database :
    Formats → (database operation version : ℕ) → (status : String) → Option String → Option Payload
valid_database f database operation version status none =
    some (Payload.database_status_changed database operation version status none)
valid_database f database operation version status (some message) =
    valid_when (is_text_within f 2000 (f.trim message))
      (Payload.database_status_changed database operation version status (some (f.trim message)))

-- The payload as its schema reads it; `none` stands for a refusal.
unfoldable pub validate_run_event_payload : Formats → Payload → Option Payload
validate_run_event_payload f (Payload.task_progress session ordinal step status code ms out err) =
    valid_when (ltb 0 ordinal && is_output out && is_output err)
      (Payload.task_progress session ordinal step status code ms out err)
validate_run_event_payload f (Payload.preview_updated session status url expires) =
    valid_preview f session status url expires
validate_run_event_payload f (Payload.database_status_changed database operation version status m) =
    valid_database f database operation version status m
validate_run_event_payload f (Payload.artifact_created task agent type artifact) =
    valid_when (has_type type artifact_types) (Payload.artifact_created task agent type artifact)
validate_run_event_payload f (Payload.approval_required scope reason) =
    valid_approval f scope (f.trim reason)
validate_run_event_payload f (Payload.release_assessment_started assessment attempt) =
    valid_when (ltb 0 attempt) (Payload.release_assessment_started assessment attempt)
validate_run_event_payload f (Payload.release_blocked assessment issues) =
    valid_when (ltb 0 issues) (Payload.release_blocked assessment issues)
validate_run_event_payload f (Payload.release_criterion_key_unresolved assessment scenario keys) =
    valid_when
      (is_text_within f 120 scenario
        && every_text (is_text_within f 200) keys
        && ltb 0 (length keys)
        && leb (length keys) 50)
      (Payload.release_criterion_key_unresolved assessment scenario keys)
validate_run_event_payload f payload = some payload
