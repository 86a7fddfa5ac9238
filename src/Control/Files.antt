-- ===== src/Control/Files.antt =====
-- repository.ts of the control plane, `putProjectFile`.
pub mod Edits
use atoms_platform.Common.{
  ℕ, suc, String, Bool, true, false, Option, none, some, ◌==◌, if◌then◌else◌, is_none,
}
use atoms_platform.Common.Table.{lookup}
use atoms_platform.Store.{
  File, Project, Db, DbError, Outcome, Tx, ok, thrown, unique_violation, file_row, latest,
  version_or_zero, create_file,
}
use atoms_platform.Control.Creation.{open_project}

pub record FileContentInput : Type 0 where
  pub file_path : String
  pub content : String
  pub expected_version : ℕ

pub data PutProjectFileResult : Type 0 where
  project_not_found : PutProjectFileResult
  version_conflict : (actual_version : Option ℕ) → PutProjectFileResult
  stored : File → PutProjectFileResult

abbrev version_of : Option File → Option ℕ
version_of none = none
version_of (some f) = some f.version

abbrev is_version : Option ℕ → ℕ → Bool
is_version none v = false
is_version (some a) v = a == v

-- `expectedMatches`: zero stands for a new path.
abbrev pub expected_matches : FileContentInput → Option File → Bool
expected_matches i found =
    if i.expected_version == 0
    then is_none found
    else is_version (version_of found) i.expected_version

abbrev pub put_created :
    ℕ → FileContentInput → ℕ → Outcome (Unit {0} × Db) → Outcome (PutProjectFileResult × Db)
put_created project i version (ok (a, db')) =
    ok (stored (file_row project i.file_path i.content version), db')
put_created project i version (thrown e) = thrown e

unfoldable pub put_checked : ℕ → FileContentInput → Option File → Tx PutProjectFileResult
put_checked project i found db =
    if expected_matches i found
    then put_created project i (suc (version_or_zero found))
        (create_file project i.file_path i.content (suc (version_or_zero found)) db)
    else ok (version_conflict (version_of found), db)

unfoldable pub put_in : ℕ → FileContentInput → Option Project → Tx PutProjectFileResult
unfolding put_checked
put_in project i none db = ok (project_not_found, db)
put_in project i (some p) db = put_checked project i (latest project i.file_path db.files) db

-- The handler of P2002: the version was taken in the meantime.
abbrev pub put_recover :
    ℕ
    → FileContentInput
    → Db
    → Outcome (PutProjectFileResult × Db)
    → Outcome (PutProjectFileResult × Db)
put_recover project i db (thrown unique_violation) =
    ok (version_conflict (version_of (latest project i.file_path db.files)), db)
put_recover project i db o = o

-- `putProjectFile`
unfoldable pub put_project_file : (user project : ℕ) → FileContentInput → Tx PutProjectFileResult
unfolding put_in
put_project_file user project i db =
    put_recover project i db
      (put_in project i (open_project user (lookup project db.projects) db.members) db)
