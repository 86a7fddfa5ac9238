-- ===== src/Control/Files/Edits.antt =====
-- `putProjectFile`: what it answers and what it stores.

use atoms_platform.Common.{
  ℕ, suc, ◌≤◌, ◌≡◌, refl, ap, ◌∙◌, sym, subst, String, true, inl, inr, Option, none, some, ◌∷◌,
  arith, Bool-cases, if_both,
}
use atoms_platform.Store.{
  File, Project, Db, Outcome, ok, thrown, unique_violation, not_found, fault, file_row, latest,
  latest-versions, version_or_zero, create_file, create_file-Leads, has_version, size, IsContiguous,
  Lawful-refl, Leads, IsLawful,
}
use atoms_platform.Control.Files.{
  FileContentInput, PutProjectFileResult, stored, expected_matches, put_created, put_checked,
  put_in, put_recover, put_project_file,
}

put_created-Leads :
    (project : ℕ) (i : FileContentInput) (v : ℕ) (db : Db) (o : Outcome (Unit {0} × Db))
    → Leads db o
    → Leads db (put_created project i v o)
put_created-Leads project i v db (ok (a, b)) h = h
put_created-Leads project i v db (thrown e) h = tt

latest_le :
    (project : ℕ) (path : String) (db : Db)
    → IsContiguous db.files
    → version_or_zero (latest project path db.files) ≤ size project path db.files
latest_le project path db c =
    rw (latest-versions project path db.files (size project path db.files) (c project path))
      (omega arith)

put_in-Leads :
    (project : ℕ) (i : FileContentInput) (o : Option Project) (db : Db)
    → Leads db (put_in project i o db)
unfolding put_in put_checked
put_in-Leads project i none db = Lawful-refl db
put_in-Leads project i (some p) db =
    if_both (Leads db) (expected_matches i (latest project i.file_path db.files))
      (put_created-Leads project i _ db _
        (create_file-Leads project i.file_path i.content _ db (latest_le project i.file_path db)))
      (Lawful-refl db)

put_recover-Leads :
    (project : ℕ) (i : FileContentInput) (db : Db) (o : Outcome (PutProjectFileResult × Db))
    → Leads db o
    → Leads db (put_recover project i db o)
put_recover-Leads project i db (ok a) h = h
put_recover-Leads project i db (thrown unique_violation) h = Lawful-refl db
put_recover-Leads project i db (thrown not_found) h = tt
put_recover-Leads project i db (thrown (fault e)) h = tt

pub put_project_file-IsLawful :
    (user project : ℕ) (i : FileContentInput) → IsLawful (put_project_file user project i)
unfolding put_project_file
put_project_file-IsLawful user project i = record {
  runs = λ db. put_recover-Leads project i db _ (put_in-Leads project i _ db);
}

-- What an edit promises: it stores the version after the one expected, or it leaves everything.
abbrev pub Edited : ℕ → FileContentInput → Db → PutProjectFileResult → Db → Type 0
Edited project i db (stored f) db' =
    (f ≡ file_row project i.file_path i.content (suc i.expected_version))
    × (version_or_zero (latest project i.file_path db.files) ≡ i.expected_version)
    × (db' ≡ record db { files = f ∷ db.files })
Edited project i db r db' = db' ≡ db

abbrev Edits : ℕ → FileContentInput → Db → Outcome (PutProjectFileResult × Db) → Type 0
Edits project i db (ok (r, db')) = Edited project i db r db'
Edits project i db (thrown e) = Unit

expected_zero :
    (i : FileContentInput) (o : Option File)
    → expected_matches i o ≡ true
    → version_or_zero o ≡ i.expected_version
expected_zero i none h = ground arith
expected_zero i (some f) h = ground arith

put_created-Edits :
    (project : ℕ) (i : FileContentInput) (o : Option File) (db : Db)
    → o ≡ latest project i.file_path db.files
    → expected_matches i o ≡ true
    → Edits project i db (
        put_created project i
          (suc (version_or_zero o))
          (create_file project i.file_path i.content (suc (version_or_zero o)) db))
unfolding create_file
put_created-Edits project i o db found m =
    let seen = expected_zero i o m in
    elim (Bool-cases (has_version project i.file_path (suc (version_or_zero o)) db.files)) [
      | inl taken ↦ rw taken tt
      | inr free ↦ rw free (
        ap (λ v. file_row project i.file_path i.content (suc v)) seen,
        ap version_or_zero (sym found) ∙ seen,
        refl,
      )
    ]

put_in-Edits :
    (project : ℕ) (i : FileContentInput) (o : Option Project) (db : Db)
    → Edits project i db (put_in project i o db)
unfolding put_in put_checked
put_in-Edits project i none db = refl
put_in-Edits project i (some p) db =
    elim (Bool-cases (expected_matches i (latest project i.file_path db.files))) [
      | inl m ↦ rw m (put_created-Edits project i (latest project i.file_path db.files) db refl m)
      | inr other ↦ rw other refl
    ]

put_recover-Edits :
    (project : ℕ) (i : FileContentInput) (db : Db) (o : Outcome (PutProjectFileResult × Db))
    → Edits project i db o
    → Edits project i db (put_recover project i db o)
put_recover-Edits project i db (ok (r, db')) h = h
put_recover-Edits project i db (thrown unique_violation) h = refl
put_recover-Edits project i db (thrown not_found) h = tt
put_recover-Edits project i db (thrown (fault e)) h = tt

put_project_file-Edits :
    (user project : ℕ) (i : FileContentInput) (db : Db)
    → Edits project i db (put_project_file user project i db)
unfolding put_project_file
put_project_file-Edits user project i db =
    put_recover-Edits project i db _ (put_in-Edits project i _ db)

-- An edit that answers with a stored file found the version that it expected as the latest of the
-- path (zero for a new path) and added the next version with its content; any other answer leaves
-- the database as it was.
pub put_project_file-Edited :
    (user project : ℕ) (i : FileContentInput) (db db' : Db) (r : PutProjectFileResult)
    → put_project_file user project i db ≡ ok (r, db')
    → Edited project i db r db'
put_project_file-Edited user project i db db' r e =
    subst (Edits project i db) e (put_project_file-Edits user project i db)
