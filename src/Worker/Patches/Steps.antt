-- ===== src/Worker/Patches/Steps.antt =====
-- Writing a checked patch, and the laws of the store.
use atoms_platform.Common.{ℕ, suc, ◌≤◌, ◌==◌, subst, String, List, [], ◌∷◌, arith, All, if_both}
use atoms_platform.Store.{
  File, Db, Tx, Leads, IsContiguous, IsLawful, size, IsContiguous-tail, file_row, latest,
  latest-versions, version_or_zero, create_file, create_file-Leads, create_file_rows, pure-IsLawful,
  if-IsLawful, bind-IsLawful, bind_of, touch_active_run-IsLawful,
}
use atoms_platform.Worker.Runs.Steps.{append_then-IsLawful, find_run_or_throw-IsLawful}
use atoms_platform.Worker.Patches.{
  GeneratedFile, FilePlan, Planned, plans, conflict, add_plan, plan_of, conflict_of, plan_files,
  write_plan, write_files, apply_planned, apply_active, apply_generated_files, file_conflict,
  written, stopped,
}

-- The versions up to the one that a plan was made for are stored.
abbrev pub IsBacked : ℕ → List File → FilePlan → Type 0
IsBacked project files p = p.actual_version ≤ size project p.path files

abbrev pub AreBacked : ℕ → List File → Planned → Type 0
AreBacked project files (plans ps) = All (IsBacked project files) ps
AreBacked project files (conflict c) = Unit

add_plan-AreBacked :
    (project : ℕ) (files : List File) (p : FilePlan) (rest : Planned)
    → IsBacked project files p
    → AreBacked project files rest
    → AreBacked project files (add_plan p rest)
add_plan-AreBacked project files p (plans ps) h k = (h, k)
add_plan-AreBacked project files p (conflict c) h k = tt

latest-size :
    (project : ℕ) (path : String) (files : List File)
    → IsContiguous files
    → version_or_zero (latest project path files) ≤ size project path files
latest-size project path files c =
    omega (arith, latest-versions project path files (size project path files) (c project path))

pub plan_files-AreBacked :
    (project : ℕ) (stored : List File) (fs : List GeneratedFile)
    → IsContiguous stored
    → AreBacked project stored (plan_files project stored fs)
unfolding plan_files
plan_files-AreBacked project stored [] c = tt
plan_files-AreBacked project stored (f ∷ fs) c =
    let found = latest project f.path stored in
    if_both (AreBacked project stored) (version_or_zero found == f.expected_version)
      {y = conflict (conflict_of f found)}
      (add_plan-AreBacked project stored (plan_of f found) (plan_files project stored fs)
        (latest-size project f.path stored c) (plan_files-AreBacked project stored fs c))
      tt

size-cons :
    (project : ℕ) (path : String) (f : File) (fs : List File)
    → size project path fs ≤ size project path (f ∷ fs)
size-cons project path f fs = ground arith

AreBacked-cons :
    (project : ℕ) (f : File) (fs : List File) (ps : List FilePlan)
    → All (IsBacked project fs) ps
    → All (IsBacked project (f ∷ fs)) ps
AreBacked-cons project f fs [] h = tt
AreBacked-cons project f fs (p ∷ ps) h =
    (omega (arith, size-cons project p.path f fs), AreBacked-cons project f fs ps h.1)

write_plan-Leads :
    (project : ℕ) (p : FilePlan) (ps : List FilePlan) (rest : Tx (List String)) (db : Db)
    → ((b : Db) → (IsContiguous b.files → All (IsBacked project b.files) ps) → Leads b (rest b))
    → (IsContiguous db.files → All (IsBacked project db.files) (p ∷ ps))
    → Leads db (write_plan project p rest db)
write_plan-Leads project p ps rest db h backed =
    bind_of (create_file project p.path p.content (suc p.actual_version)) _ db
      (create_file-Leads project p.path p.content p.actual_version db (λ c. (backed c).0))
      λ a b e.
        bind_of rest _ b
          (h b (λ c.
            let row = file_row project p.path p.content (suc p.actual_version) in
            let rows = create_file_rows project p.path p.content (suc p.actual_version) db a b e in
            rw rows (
              AreBacked-cons project row db.files ps
                (backed (
                  IsContiguous-tail row db.files
                    (subst (λ (d : Db). IsContiguous d.files) rows c))).1)))
          λ paths b' _. (pure-IsLawful (p.path ∷ paths)).runs b'

-- A patch that was planned on what is stored is written by a step that keeps the laws.
pub write_files-Leads :
    (project : ℕ) (ps : List FilePlan) (db : Db)
    → (IsContiguous db.files → All (IsBacked project db.files) ps)
    → Leads db (write_files project ps db)
unfolding write_files
write_files-Leads project [] db backed = (pure-IsLawful {A = List String} []).runs db
write_files-Leads project (p ∷ ps) db backed =
    if_both (λ (m : Tx (List String)). Leads db (m db)) p.should_write
      (write_plan-Leads project p ps (write_files project ps) db
        (λ b h. write_files-Leads project ps b h) backed)
      (write_files-Leads project ps db (λ c. (backed c).1))

apply_planned-Leads :
    (run project : ℕ) (planned : Planned) (db : Db)
    → (IsContiguous db.files → AreBacked project db.files planned)
    → Leads db (apply_planned run project planned db)
unfolding apply_planned
apply_planned-Leads run project (conflict c) db backed = (pure-IsLawful (file_conflict c)).runs db
apply_planned-Leads run project (plans ps) db backed =
    bind_of (write_files project ps) _ db (write_files-Leads project ps db backed)
      λ paths b e. (append_then-IsLawful run _ _ (pure-IsLawful (written paths))).runs b

apply_active-IsLawful : (run : ℕ) (fs : List GeneratedFile) → IsLawful (apply_active run fs)
unfolding apply_active
apply_active-IsLawful run fs = bind-IsLawful _ _ (find_run_or_throw-IsLawful run) λ r. record {
  runs = λ db.
      apply_planned-Leads run r.project_id (plan_files r.project_id db.files fs) db
        (plan_files-AreBacked r.project_id db.files fs);
}

pub apply_generated_files-IsLawful :
    (run version : ℕ) (fs : List GeneratedFile) (now : ℕ)
    → IsLawful (apply_generated_files run version fs now)
unfolding apply_generated_files
apply_generated_files-IsLawful run version fs now =
    bind-IsLawful _ _ (touch_active_run-IsLawful run version now)
      λ active. if-IsLawful active (apply_active-IsLawful run fs) (pure-IsLawful stopped)
