-- ===== src/Store/Files.antt =====
-- The versions of project_files: reading the latest, and adding the next.
use atoms_platform.Common.{
  ℕ, zero, suc, ◌≤◌, ◌≡◌, refl, String, Bool, true, false, ◌&&◌, ◌||◌, Option, none, some, List, [],
  ◌∷◌, ◌==◌, ltb, if◌then◌else◌, arith, inl, inr, Bool-cases, length, eq_iff,
}
use atoms_platform.Store.Model.{File, Db}
use atoms_platform.Store.Transactions.{ok, thrown, unique_violation, Tx}
use atoms_platform.Store.Laws.{down, is_version_of, versions, IsContiguous}
use atoms_platform.Store.Keeps.{Lawful-refl, Leads}

abbrev pub newer : File → Option File → Option File
newer f none = some f
newer f (some g) = if ltb f.version g.version then some g else some f

-- `findFirst` by project and path, ordered by falling version.
unfoldable pub latest : ℕ → String → List File → Option File
latest project path [] = none
latest project path (f ∷ fs) =
    if is_version_of project path f
    then newer f (latest project path fs)
    else latest project path fs

abbrev pub version_or_zero : Option File → ℕ
version_or_zero none = 0
version_or_zero (some f) = f.version

unfoldable pub has_version : ℕ → String → ℕ → List File → Bool
has_version project path version [] = false
has_version project path version (f ∷ fs) =
    is_version_of project path f && f.version == version || has_version project path version fs

-- `create`, under the unique index on project, path and version.
unfoldable pub create_file : (project : ℕ) (path content : String) (version : ℕ) → Tx (Unit {0})
create_file project path content version db =
    if has_version project path version db.files
    then thrown unique_violation
    else ok (
      tt,
      record db {
        files =
            record { project_id = project; file_path = path; content = content; version = version }
            ∷ db.files;
      },
    )

abbrev pub size : ℕ → String → List File → ℕ
size project path files = length (versions project path files)

-- With versions n, …, 1 the latest has version n.
pub latest-versions :
    (project : ℕ) (path : String) (fs : List File) (n : ℕ)
    → versions project path fs ≡ down n
    → version_or_zero (latest project path fs) ≡ n
unfolding latest
latest-versions project path [] zero h = refl
latest-versions project path [] (suc n) h = absurd (cc)
latest-versions project path (f ∷ fs) zero h = ground (arith, latest-versions project path fs zero)
latest-versions project path (f ∷ fs) (suc n) h =
    ground (arith, latest-versions project path fs n, latest-versions project path fs (suc n))

has_version_of_le :
    (project : ℕ) (path : String) (fs : List File) (n v : ℕ)
    → versions project path fs ≡ down n
    → suc v ≤ n
    → has_version project path (suc v) fs ≡ true
unfolding has_version
has_version_of_le project path [] zero v h le = absurd (omega arith)
has_version_of_le project path [] (suc n) v h le = cc
has_version_of_le project path (f ∷ fs) zero v h le = absurd (omega arith)
has_version_of_le project path (f ∷ fs) (suc n) v h le =
    ground
      (arith, has_version_of_le project path fs n v, has_version_of_le project path fs (suc n) v)

-- A version that is not there, and has its predecessors, is the next one.
next_version :
    (project : ℕ) (path : String) (fs : List File) (v : ℕ)
    → IsContiguous fs
    → v ≤ size project path fs
    → has_version project path (suc v) fs ≡ false
    → size project path fs ≡ v
next_version project path fs v c le free =
    ground (arith, has_version_of_le project path fs (size project path fs) v (c project path))

abbrev pub file_row : ℕ → String → String → ℕ → File
file_row project path content version = record {
  project_id = project;
  file_path = path;
  content = content;
  version = version;
}

IsContiguous-cons :
    (project : ℕ) (path content : String) (v : ℕ) (fs : List File)
    → IsContiguous fs
    → size project path fs ≡ v
    → IsContiguous (file_row project path content (suc v) ∷ fs)
IsContiguous-cons project path content v fs c e p q = ground (arith, c p q, eq_iff path q)

pub IsContiguous-tail : (f : File) (fs : List File) → IsContiguous (f ∷ fs) → IsContiguous fs
IsContiguous-tail f fs c p q = ground (arith, c p q)

-- The next version of a path keeps every path's versions without a gap.
pub create_file-Leads :
    (project : ℕ) (path content : String) (v : ℕ) (db : Db)
    → (IsContiguous db.files → v ≤ size project path db.files)
    → Leads db (create_file project path content (suc v) db)
unfolding create_file
create_file-Leads project path content v db backed =
    elim (Bool-cases (has_version project path (suc v) db.files)) [
      | inl taken ↦ rw taken tt
      | inr free ↦ rw free (record {
        later = (Lawful-refl db).later;
        gapless = λ h. h;
        contiguous = λ c.
            IsContiguous-cons project path content v db.files c
              (next_version project path db.files v c (backed c) free);
      })
    ]

-- What `create` leaves behind when it succeeds.
pub create_file_rows :
    (project : ℕ) (path content : String) (version : ℕ) (db : Db) (a : Unit {0}) (b : Db)
    → create_file project path content version db ≡ ok (a, b)
    → b ≡ record db { files = file_row project path content version ∷ db.files }
unfolding create_file
create_file_rows project path content version db a b e = ground arith
