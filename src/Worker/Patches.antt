-- ===== src/Worker/Patches.antt =====
-- repository.ts: an agent's patch of project files, checked as a whole before it is written.
pub mod Steps
pub mod Conflicts
use atoms_platform.Common.{
  ℕ, suc, String, Bool, true, false, not, Option, none, some, List, [], ◌∷◌, ◌==◌, if◌then◌else◌,
  length, map, str_eq,
}
use atoms_platform.Store.{
  File, Payload, Tx, ok, pure, ◌>>=◌, ◌>>◌, touch_active_run, append_event, find_run_or_throw,
  latest, version_or_zero, create_file,
}

pub record GeneratedFile : Type 0 where
  pub path : String
  pub content : String
  pub expected_version : ℕ

pub record FilePlan : Type 0 where
  pub path : String
  pub content : String
  pub actual_version : ℕ
  pub should_write : Bool

pub record FileConflict : Type 0 where
  pub path : String
  pub expected_version : ℕ
  pub actual_version : ℕ

pub data Planned : Type 0 where
  plans : List FilePlan → Planned
  conflict : FileConflict → Planned

abbrev pub differs : Option File → String → Bool
differs none content = true
differs (some f) content = not (str_eq f.content content)

abbrev pub add_plan : FilePlan → Planned → Planned
add_plan p (plans ps) = plans (p ∷ ps)
add_plan p (conflict c) = conflict c

abbrev pub plan_of : GeneratedFile → Option File → FilePlan
plan_of f found = record {
  path = f.path;
  content = f.content;
  actual_version = version_or_zero found;
  should_write = differs found f.content;
}

abbrev pub conflict_of : GeneratedFile → Option File → FileConflict
conflict_of f found = record {
  path = f.path;
  expected_version = f.expected_version;
  actual_version = version_or_zero found;
}

-- The loop that checks every file's expected version.
unfoldable pub plan_files : ℕ → List File → List GeneratedFile → Planned
plan_files project stored [] = plans []
plan_files project stored (f ∷ fs) =
    let found = latest project f.path stored in
    if version_or_zero found == f.expected_version
    then add_plan (plan_of f found) (plan_files project stored fs)
    else conflict (conflict_of f found)

abbrev pub plan_stored : ℕ → List GeneratedFile → Tx Planned
plan_stored project files db = ok (plan_files project db.files files, db)

abbrev pub write_plan : ℕ → FilePlan → Tx (List String) → Tx (List String)
write_plan project p rest = do
  create_file project p.path p.content (suc p.actual_version)
  paths ← rest
  pure (p.path ∷ paths)

-- The loop that writes; it answers the paths that it wrote.
unfoldable pub write_files : ℕ → List FilePlan → Tx (List String)
write_files project [] = pure []
write_files project (p ∷ ps) =
    let rest = write_files project ps in if p.should_write then write_plan project p rest else rest

pub data ApplyResult : Type 0 where
  written : List String → ApplyResult
  stopped : ApplyResult
  file_conflict : FileConflict → ApplyResult

unfoldable pub apply_planned : (run project : ℕ) → Planned → Tx ApplyResult
unfolding write_files
apply_planned run project (conflict c) = pure (file_conflict c)
apply_planned run project (plans ps) = do
  paths ← write_files project ps
  append_event run (Payload.code_generated none paths (length paths))
  pure (written paths)

unfoldable pub apply_active : ℕ → List GeneratedFile → Tx ApplyResult
unfolding apply_planned plan_files
apply_active run files = do
  r ← find_run_or_throw run
  planned ← plan_stored r.project_id files
  apply_planned run r.project_id planned

-- `applyGeneratedFiles`
unfoldable pub apply_generated_files : (run version : ℕ) → List GeneratedFile → ℕ → Tx ApplyResult
unfolding apply_active
apply_generated_files run version files now = do
  active ← touch_active_run run version now
  if active then apply_active run files else pure stopped
