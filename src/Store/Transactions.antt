-- ===== src/Store/Transactions.antt =====
-- Interactive transactions: a thrown error rolls every write back.

use atoms_platform.Common.{
  ℕ, suc, String, Bool, true, false, ◌&&◌, Option, none, some, ◌∷◌, ◌==◌, if◌then◌else◌,
}
use atoms_platform.Common.Table.{lookup, modify}
use atoms_platform.Store.Model.{RunStatus, Run, Payload, Event, Db, same_status}
use atoms_platform.Store.Payloads.{validate_run_event_payload}

-- P2025, P2002 and an exception of the repository's own code.
pub data DbError : Type 0 where
  not_found unique_violation : DbError
  fault : String → DbError

pub data Outcome (A : Type 0) : Type 0 where
  ok : A → Outcome A
  thrown : DbError → Outcome A

abbrev pub Tx : Type 0 → Type 0
Tx A = Db → Outcome (A × Db)

module _ {A : Type 0} where
  abbrev pub pure : A → Tx A
  pure a db = ok (a, db)

  abbrev pub throw : DbError → Tx A
  throw e db = thrown e

infixl 5 ◌>>=◌ ◌>>◌
abbrev pub ◌>>=◌ : {A B : Type 0} → Tx A → (A → Tx B) → Tx B
◌>>=◌ m f db = elim (m db) [ ok (a, db') ↦ f a db' | thrown e ↦ thrown e ]

abbrev pub ◌>>◌ : {B : Type 0} → Tx (Unit {0}) → Tx B → Tx B
m >> k = m >>= λ _. k

-- What stands in the database after a transaction.
abbrev pub after : {A : Type 0} → Db → Outcome (A × Db) → Db
after db (ok (a, db')) = db'
after db (thrown e) = db

-- `findUnique` and `findUniqueOrThrow` on agent_runs.
abbrev pub find_run : ℕ → Tx (Option Run)
find_run id db = ok (lookup id db.runs, db)

abbrev pub or_throw : {A : Type 0} → Option A → Tx A
or_throw none = throw not_found
or_throw (some a) = pure a

abbrev pub find_run_or_throw : ℕ → Tx Run
find_run_or_throw id = do r ← find_run id; or_throw r

abbrev pub matches : (Run → Bool) → Option Run → Bool
matches guard none = false
matches guard (some r) = guard r

-- `updateMany` on agent_runs, whose `where` names the id: whether its one row was changed.
unfoldable pub update_run_if : ℕ → (Run → Bool) → (Run → Run) → Tx Bool
update_run_if id guard change db =
    if matches guard (lookup id db.runs)
    then ok (true, record db { runs = modify id change db.runs })
    else ok (false, db)

-- The guard `{ status, controlVersion }` of a compare-and-swap.
abbrev pub at_version : RunStatus → ℕ → Run → Bool
at_version status version r = same_status r.status status && r.control_version == version

-- `updateMany` with that guard.
abbrev pub update_at : ℕ → RunStatus → ℕ → (Run → Run) → Tx Bool
update_at id status version change = update_run_if id (at_version status version) change

abbrev pub bump_sequence : Run → Run
bump_sequence r = record r { event_sequence = suc r.event_sequence }

abbrev pub next_event : ℕ → Run → Payload → Event
next_event id r payload = record { run_id = id; sequence = suc r.event_sequence; payload = payload }

-- An event under the next number: the run's counter goes up and its new value numbers the event.
unfoldable pub append_row : ℕ → Payload → Tx (Unit {0})
append_row id payload db = elim (lookup id db.runs) [
  | none ↦ thrown not_found
  | some r ↦ ok (
    tt,
    record db {
      runs = modify id bump_sequence db.runs;
      events = next_event id r payload ∷ db.events;
    },
  )
]

abbrev pub append_valid : ℕ → Option Payload → Tx (Unit {0})
append_valid id none = throw (fault "ZodError")
append_valid id (some payload) = append_row id payload

-- `appendEvent`: the payload as its schema reads it, under the next number.
unfoldable pub append_event : ℕ → Payload → Tx (Unit {0})
append_event id payload db = append_valid id (validate_run_event_payload db.formats payload) db

abbrev pub touch : ℕ → Run → Run
touch now r = record r { last_heartbeat_at = some now }

-- `touchActiveRun`
unfoldable pub touch_active_run : (run version now : ℕ) → Tx Bool
touch_active_run run version now = update_at run RunStatus.running version (touch now)
