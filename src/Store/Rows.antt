-- ===== src/Store/Rows.antt =====
-- Statements on agent_tasks, and the laws of the store.

use atoms_platform.Common.{
  ℕ, ◌&&◌, Option, none, some, [], ◌∷◌, ◌==◌, if◌then◌else◌, is_some, inl, inr, Bool-cases,
  Option-cases,
}
use atoms_platform.Common.Table.{Table, lookup, modify}
use atoms_platform.Store.Model.{Task}
use atoms_platform.Store.Transactions.{ok, thrown, not_found, unique_violation, Tx, or_throw}
use atoms_platform.Store.Keeps.{
  Lawful-refl, Lawful-tasks, IsLawful, Leads, pure-IsLawful, throw-IsLawful,
}

abbrev pub find_task_or_throw : ℕ → Tx Task
find_task_or_throw id db = or_throw (lookup id db.tasks) db

-- `findUnique` by (runId, ordinal)
unfoldable pub by_ordinal : (run ordinal : ℕ) → Table Task → Option (ℕ × Task)
by_ordinal run ordinal [] = none
by_ordinal run ordinal ((id, t) ∷ ts) =
    if t.run_id == run && t.ordinal == ordinal then some (id, t) else by_ordinal run ordinal ts

abbrev pub find_by_ordinal : (run ordinal : ℕ) → Tx (Option (ℕ × Task))
find_by_ordinal run ordinal db = ok (by_ordinal run ordinal db.tasks, db)

-- `update` of one row, which it returns.
unfoldable pub update_task : ℕ → (Task → Task) → Tx Task
update_task id change db = elim (lookup id db.tasks) [
  | none ↦ thrown not_found
  | some t ↦ ok (change t, record db { tasks = modify id change db.tasks })
]

unfoldable pub insert_task : ℕ → Task → Tx Task
insert_task id t db =
    if is_some (lookup id db.tasks)
    then thrown unique_violation
    else ok (t, record db { tasks = (id, t) ∷ db.tasks })

pub or_throw-IsLawful : {A : Type 0} (o : Option A) → IsLawful (or_throw o)
or_throw-IsLawful none = throw-IsLawful not_found
or_throw-IsLawful (some a) = pure-IsLawful a

pub find_task_or_throw-IsLawful : (id : ℕ) → IsLawful (find_task_or_throw id)
find_task_or_throw-IsLawful id = record {
  runs = λ db. (or_throw-IsLawful (lookup id db.tasks)).runs db;
}

pub find_by_ordinal-IsLawful : (run ordinal : ℕ) → IsLawful (find_by_ordinal run ordinal)
find_by_ordinal-IsLawful run ordinal = record { runs = λ db. Lawful-refl db }

pub update_task-IsLawful : (id : ℕ) (change : Task → Task) → IsLawful (update_task id change)
unfolding update_task
update_task-IsLawful id change = record {
  runs = λ db. elim (Option-cases (lookup id db.tasks)) [
    | inl missing ↦ rw (missing, Leads, update_task) tt
    | inr (t, found) ↦ rw (found, Leads, update_task) (Lawful-tasks db _)
  ];
}

pub insert_task-IsLawful : (id : ℕ) (t : Task) → IsLawful (insert_task id t)
unfolding insert_task
insert_task-IsLawful id t = record {
  runs = λ db. elim (Bool-cases (is_some (lookup id db.tasks))) [
    | inl taken ↦ rw taken tt
    | inr fresh ↦ rw fresh (Lawful-tasks db _)
  ];
}
