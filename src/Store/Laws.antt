-- ===== src/Store/Laws.antt =====
-- What no transaction may break: the run's life cycle, the event log and the file versions.

use atoms_platform.Common.{
  ℕ, zero, suc, ◌≤◌, ◌≡◌, String, Bool, true, false, ◌&&◌, ◌⊎◌, Option, none, some, List, [], ◌∷◌,
  ◌==◌, str_eq, if◌then◌else◌, arith, length,
}
use atoms_platform.Common.Table.{lookup}
use atoms_platform.Store.Model.{RunStatus, Run, Event, File, Db, same_status}
use atoms_platform.Store.Transactions.{at_version}

-- n, n - 1, …, 1
abbrev pub down : ℕ → List ℕ
down zero = []
down (suc n) = suc n ∷ down n

-- The sequence numbers of one run's events, newest first.
abbrev pub sequences : ℕ → List Event → List ℕ
sequences k [] = []
sequences k (e ∷ es) = if e.run_id == k then e.sequence ∷ sequences k es else sequences k es

abbrev pub last_sequence : Option Run → ℕ
last_sequence none = 0
last_sequence (some r) = r.event_sequence

-- Every run's events are numbered 1, 2, … up to its counter, in order and with no gap.
abbrev pub IsGapless : Db → Type 0
IsGapless db = (k : ℕ) → sequences k db.events ≡ down (last_sequence (lookup k db.runs))

abbrev pub is_version_of : ℕ → String → File → Bool
is_version_of project path f = f.project_id == project && str_eq f.file_path path

-- The stored versions of one path, newest first.
abbrev pub versions : ℕ → String → List File → List ℕ
versions project path [] = []
versions project path (f ∷ fs) =
    if is_version_of project path f
    then f.version ∷ versions project path fs
    else versions project path fs

-- The versions of every path are 1, 2, … in order and with no gap.
abbrev pub IsContiguous : List File → Type 0
IsContiguous files =
    (project : ℕ) (path : String)
    → versions project path files ≡ down (length (versions project path files))

abbrev pub is_final : RunStatus → Bool
is_final RunStatus.completed = true
is_final RunStatus.cancelled = true
is_final _ = false

-- How one run may change over time: a final status is for ever, the version never falls, and at one
-- version the status is fixed, but for a run that could not be queued.
pub record Forward (r s : Run) : Type 0 where
  pub same_workspace : s.workspace_id ≡ r.workspace_id
  pub same_project : s.project_id ≡ r.project_id
  pub version_grows : r.control_version ≤ s.control_version
  pub sequence_grows : r.event_sequence ≤ s.event_sequence
  pub final :
      is_final r.status ≡ true → (s.status ≡ r.status) × (s.control_version ≡ r.control_version)
  pub fenced :
      s.control_version ≡ r.control_version
      → (s.status ≡ r.status) ⊎ ((r.status ≡ RunStatus.pending) × (s.status ≡ RunStatus.failed))

pub same_status→≡ : (a b : RunStatus) → same_status a b ≡ true → a ≡ b
same_status→≡ RunStatus.pending b h = ground arith
same_status→≡ a b h = ground arith

-- A new control version is a step forward from a status that is not final.
pub new_version :
    (r s : Run)
    → is_final r.status ≡ false
    → s.workspace_id ≡ r.workspace_id
    → s.project_id ≡ r.project_id
    → s.control_version ≡ suc r.control_version
    → s.event_sequence ≡ r.event_sequence
    → Forward r s
new_version r s alive w p v e = record {
  same_workspace = w;
  same_project = p;
  version_grows = omega arith;
  sequence_grows = omega arith;
  final = λ f. absurd (cc);
  fenced = λ same. absurd (omega arith);
}

-- The guard of a compare-and-swap pins the status.
pub at_version-eq :
    (status : RunStatus) (version : ℕ) (r : Run)
    → at_version status version r ≡ true
    → (r.status ≡ status) × (r.control_version ≡ version)
at_version-eq status version r h = (same_status→≡ r.status status (ground arith), ground arith)

-- A run may be created, and is never deleted.
abbrev pub Later : Option Run → Option Run → Type 0
Later none q = Unit
Later (some r) none = ⊥
Later (some r) (some s) = Forward r s
