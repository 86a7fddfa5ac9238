-- ===== src/Store/SandboxRows.antt =====
-- Statements on sandbox_sessions, sandbox_commands and preview_sessions, with their unique indexes.
use atoms_platform.Common.{
  ℕ, String, Bool, true, false, ◌&&◌, ◌||◌, not, Option, none, some, List, [], ◌∷◌, ◌==◌, max,
  str_eq, if◌then◌else◌, is_some, inl, inr, Bool-cases, Option-cases,
}
use atoms_platform.Common.Table.{Table, lookup, modify}
use atoms_platform.Store.Sandboxes.{SandboxSession, SandboxCommand, PreviewSession}
use atoms_platform.Store.Model.{Db}
use atoms_platform.Store.Transactions.{ok, thrown, not_found, unique_violation, Tx}
use atoms_platform.Store.Keeps.{Lawful, Lawful-refl, IsLawful, Leads}

abbrev pub row_matches : {A : Type 0} → (A → Bool) → Option A → Bool
row_matches guard none = false
row_matches guard (some a) = guard a

-- `updateMany` on sandbox_sessions, whose `where` names the id: whether its one row was changed.
unfoldable pub update_session_if :
    ℕ → (SandboxSession → Bool) → (SandboxSession → SandboxSession) → Tx Bool
update_session_if id guard change db =
    if row_matches guard (lookup id db.sandbox_sessions)
    then ok (true, record db { sandbox_sessions = modify id change db.sandbox_sessions })
    else ok (false, db)

-- `update` of one row.
unfoldable pub update_session : ℕ → (SandboxSession → SandboxSession) → Tx (Unit {0})
update_session id change db = elim (lookup id db.sandbox_sessions) [
  | none ↦ thrown not_found
  | some s ↦ ok (tt, record db { sandbox_sessions = modify id change db.sandbox_sessions })
]

-- The session of a run's attempt, by the unique index on both.
unfoldable pub session_of_attempt : (run attempt : ℕ) → Table SandboxSession → Option ℕ
session_of_attempt run attempt [] = none
session_of_attempt run attempt ((id, s) ∷ t) =
    if s.run_id == run && s.attempt == attempt then some id else session_of_attempt run attempt t

-- Whether a session other than the one named has the external id.
unfoldable pub external_taken : Option ℕ → String → Table SandboxSession → Bool
external_taken except external [] = false
external_taken except external ((id, s) ∷ t) =
    (str_eq s.external_id external && not (row_matches (λ k. k == id) except))
    || external_taken except external t

abbrev pub session_conflicts : ℕ → SandboxSession → Table SandboxSession → Bool
session_conflicts id s t =
    is_some (lookup id t)
    || is_some (session_of_attempt s.run_id s.attempt t)
    || external_taken none s.external_id t

-- `create`, which answers with the id.
unfoldable pub insert_session : ℕ → SandboxSession → Tx ℕ
insert_session id s db =
    if session_conflicts id s db.sandbox_sessions
    then thrown unique_violation
    else ok (id, record db { sandbox_sessions = (id, s) ∷ db.sandbox_sessions })

-- `_max: { attempt }` over the sessions of a run, 0 if it has none.
unfoldable pub last_attempt : ℕ → Table SandboxSession → ℕ
last_attempt run [] = 0
last_attempt run ((id, s) ∷ t) =
    let rest = last_attempt run t in if s.run_id == run then max s.attempt rest else rest

abbrev pub is_command_of : (session ordinal : ℕ) → SandboxCommand → Bool
is_command_of session ordinal c = c.sandbox_session_id == session && c.ordinal == ordinal

-- `upsert` by the unique index on session and ordinal; every other column is written anew.
unfoldable pub put_command : SandboxCommand → List SandboxCommand → List SandboxCommand
put_command c [] = c ∷ []
put_command c (d ∷ ds) =
    if is_command_of c.sandbox_session_id c.ordinal d then c ∷ ds else d ∷ put_command c ds

unfoldable pub upsert_command : SandboxCommand → Tx (Unit {0})
upsert_command c db = ok (tt, record db { sandbox_commands = put_command c db.sandbox_commands })

-- The preview of a sandbox session, by the unique index on it.
unfoldable pub preview_of : ℕ → Table PreviewSession → Option (ℕ × PreviewSession)
preview_of session [] = none
preview_of session ((id, p) ∷ t) =
    if p.sandbox_session_id == session then some (id, p) else preview_of session t

unfoldable pub insert_preview : ℕ → PreviewSession → Tx (Unit {0})
insert_preview id p db =
    if is_some (lookup id db.preview_sessions)
      || is_some (preview_of p.sandbox_session_id db.preview_sessions)
    then thrown unique_violation
    else ok (tt, record db { preview_sessions = (id, p) ∷ db.preview_sessions })

unfoldable pub update_preview : ℕ → (PreviewSession → PreviewSession) → Tx (Unit {0})
update_preview id change db = elim (lookup id db.preview_sessions) [
  | none ↦ thrown not_found
  | some p ↦ ok (tt, record db { preview_sessions = modify id change db.preview_sessions })
]

Lawful-sandboxes :
    (a : Db) (sessions : Table SandboxSession) (commands : List SandboxCommand)
    (previews : Table PreviewSession)
    → Lawful a (record a {
      sandbox_sessions = sessions;
      sandbox_commands = commands;
      preview_sessions = previews;
    })
Lawful-sandboxes a sessions commands previews =
    let same = Lawful-refl a in record { later = same.later; gapless = λ h. h; contiguous = λ h. h }

pub update_session_if-IsLawful :
    (id : ℕ) (guard : SandboxSession → Bool) (change : SandboxSession → SandboxSession)
    → IsLawful (update_session_if id guard change)
unfolding update_session_if
update_session_if-IsLawful id guard change = record {
  runs = λ db. elim (Bool-cases (row_matches guard (lookup id db.sandbox_sessions))) [
    | inl hit ↦ rw hit (Lawful-sandboxes db _ _ _)
    | inr miss ↦ rw miss (Lawful-refl db)
  ];
}

pub update_session-IsLawful :
    (id : ℕ) (change : SandboxSession → SandboxSession) → IsLawful (update_session id change)
unfolding update_session
update_session-IsLawful id change = record {
  runs = λ db. elim (Option-cases (lookup id db.sandbox_sessions)) [
    | inl missing ↦ rw (missing, Leads, update_session) tt
    | inr (s, found) ↦ rw (found, Leads, update_session) (Lawful-sandboxes db _ _ _)
  ];
}

pub insert_session-IsLawful : (id : ℕ) (s : SandboxSession) → IsLawful (insert_session id s)
unfolding insert_session
insert_session-IsLawful id s = record {
  runs = λ db. elim (Bool-cases (session_conflicts id s db.sandbox_sessions)) [
    | inl taken ↦ rw taken tt
    | inr free ↦ rw free (Lawful-sandboxes db _ _ _)
  ];
}

pub upsert_command-IsLawful : (c : SandboxCommand) → IsLawful (upsert_command c)
unfolding upsert_command
upsert_command-IsLawful c = record { runs = λ db. Lawful-sandboxes db _ _ _ }

pub insert_preview-IsLawful : (id : ℕ) (p : PreviewSession) → IsLawful (insert_preview id p)
unfolding insert_preview
insert_preview-IsLawful id p = record {
  runs = λ db.
      elim (Bool-cases (
        is_some (lookup id db.preview_sessions)
        || is_some (preview_of p.sandbox_session_id db.preview_sessions))) [
          | inl taken ↦ rw taken tt
          | inr free ↦ rw free (Lawful-sandboxes db _ _ _)
        ];
}

pub update_preview-IsLawful :
    (id : ℕ) (change : PreviewSession → PreviewSession) → IsLawful (update_preview id change)
unfolding update_preview
update_preview-IsLawful id change = record {
  runs = λ db. elim (Option-cases (lookup id db.preview_sessions)) [
    | inl missing ↦ rw (missing, Leads, update_preview) tt
    | inr (p, found) ↦ rw (found, Leads, update_preview) (Lawful-sandboxes db _ _ _)
  ];
}
