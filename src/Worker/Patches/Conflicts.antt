-- ===== src/Worker/Patches/Conflicts.antt =====
-- `applyGeneratedFiles`: the versions that a patch expects.

use atoms_platform.Common.{ℕ, ◌≡◌, ◌≢◌, Bool, some, List, if◌then◌else◌, All}
use atoms_platform.Common.Table.{lookup, modify}
use atoms_platform.Store.{
  Run, File, Db, Outcome, Tx, ok, thrown, pure, touch, latest, version_or_zero,
}
use atoms_platform.Worker.Patches.{
  GeneratedFile, Planned, plans, conflict, ApplyResult, written, stopped, file_conflict,
  apply_active,
}

-- The version that the file expects is the latest stored one (zero for a new path).
abbrev pub IsExpected : ℕ → List File → GeneratedFile → Type 0
IsExpected project stored f = version_or_zero (latest project f.path stored) ≡ f.expected_version

-- What each answer says of the patch.
abbrev pub Applied : ℕ → List GeneratedFile → Db → ApplyResult → Db → Type 0
Applied project fs db (written paths) db' = All (IsExpected project db.files) fs
Applied project fs db (file_conflict c) db' =
    (c.actual_version ≢ c.expected_version)
    × (db'.files ≡ db.files)
    × (db'.events ≡ db.events)
    × (db'.tasks ≡ db.tasks)
Applied project fs db stopped db' = db' ≡ db

abbrev Applies : ℕ → List GeneratedFile → Db → Outcome (ApplyResult × Db) → Type 0
Applies project fs db (ok (answer, db')) = Applied project fs db answer db'
Applies project fs db (thrown e) = Unit

-- What the check of the versions found.
abbrev Checked : ℕ → List File → List GeneratedFile → Planned → Type 0
Checked project stored fs (plans ps) = All (IsExpected project stored) fs
Checked project stored fs (conflict c) = c.actual_version ≢ c.expected_version

module _ (run version now : ℕ) (fs : List GeneratedFile) (db : Db) (r : Run)
    (found : lookup run db.runs ≡ some r) where
  abbrev touched : Db
  touched = record db { runs = modify run (touch now) db.runs }

  abbrev continue : Bool → Tx ApplyResult
  continue active = if active then apply_active run fs else pure stopped
