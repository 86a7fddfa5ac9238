-- ===== src/Worker/Jobs.antt =====
-- A job of the worker: transactions and calls of agents in sequence, with the error it may end in.
pub mod Spares
use atoms_platform.Common.{
  ℕ, suc, String, Bool, true, false, Option, none, some, List, [], ◌∷◌, if◌then◌else◌, keep, ◌≡◌,
  refl, ◌∙◌,
}
use atoms_platform.Store.{Agent, Db, DbError, Outcome, ok, thrown, Tx}
use atoms_platform.Worker.Errors.{ErrorClass, run_stopped, ErrorNode}

-- The database, how many transactions the job has made, and, newest first, the agents that it called
-- and the attempt numbers that it validated under.
pub record World : Type 0 where
  pub db : Db
  pub tick : ℕ
  pub calls : List Agent
  pub validations : List ℕ

pub data Result (A : Type 0) : Type 0 where
  returned : A → Result A
  raised : List ErrorNode → Result A

abbrev pub Job : Type 0 → Type 0
Job A = World → Result A × World

unfoldable pub from_result : {A : Type 0} → Result A → Job A
from_result r w = (r, w)

module _ {A : Type 0} where
  unfoldable pub give : A → Job A
  give a w = (returned a, w)

  unfoldable pub raise : List ErrorNode → Job A
  raise e w = (raised e, w)

infixl 5 ◌>>=◌ ◌>>◌
abbrev pub then_do : {A B : Type 0} → (A → Job B) → Result A × World → Result B × World
then_do f (returned a, w) = f a w
then_do f (raised e, w) = (raised e, w)

unfoldable pub ◌>>=◌ : {A B : Type 0} → Job A → (A → Job B) → Job B
(m >>= f) w = then_do f (m w)

abbrev pub ◌>>◌ : {B : Type 0} → Job (Unit {0}) → Job B → Job B
m >> k = m >>= λ _. k

abbrev pub handle : {A : Type 0} → (List ErrorNode → Job A) → Result A × World → Result A × World
handle h (returned a, w) = (returned a, w)
handle h (raised e, w) = h e w

-- `try` and `catch`
unfoldable pub catching : {A : Type 0} → Job A → (List ErrorNode → Job A) → Job A
catching m h w = handle h (m w)

-- `new RunStoppedError(message, status)`
abbrev pub stopped_with : String → List ErrorNode
stopped_with status =
    record {
      class = run_stopped status;
      code = "";
      name = "RunStoppedError";
      retryable = none;
      validation_step = none;
    }
    ∷ []

-- What other connections commit before each transaction, by its number, and the error that Prisma
-- throws.
pub record Connections : Type 0 where
  pub others : ℕ → Db → Db
  pub database_error : DbError → List ErrorNode

abbrev pub settle : {A : Type 0} → Connections → World → Db → Outcome (A × Db) → Result A × World
settle c w db (ok (a, db')) = (returned a, record w { db = db'; tick = suc w.tick })
settle c w db (thrown e) = (raised (c.database_error e), record w { db = db; tick = suc w.tick })

unfoldable pub transact : {A : Type 0} → Connections → Tx A → Job A
transact c m w = let db = c.others w.tick w.db in settle c w db (m db)
