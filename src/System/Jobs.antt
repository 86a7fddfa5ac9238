-- ===== src/System/Jobs.antt =====
-- The graph of a run and the processor, against the histories of the database.
pub mod Nodes
pub mod Process
use atoms_platform.Common.{◌≡◌, refl, sym, subst, Bool, true, false, if◌then◌else◌, ℕ, List}
use atoms_platform.Store.{Db, DbError, Outcome, ok, thrown, Tx, pure, ◌>>=◌, after}
use atoms_platform.Worker.Errors.{ErrorNode}
use atoms_platform.Worker.Jobs.{
  World, Result, returned, raised, Job, from_result, give, raise, catching, handle, then_do,
  Connections, settle, transact,
}
use atoms_platform.Worker.Jobs
use atoms_platform.System.{History, start, also}

-- Whatever the job does to the database is a history.
pub record Traced {A : Type 0} (m : Job A) : Type 0 where
  pub runs : (w : World) → History w.db (m w).1.db

module _ {A : Type 0} where
  pub give-Traced : (a : A) → Traced (give a)
  unfolding give
  give-Traced a = record { runs = λ w. start w.db }

  pub raise-Traced : (e : List ErrorNode) → Traced (raise {A = A} e)
  unfolding raise
  raise-Traced e = record { runs = λ w. start w.db }

  pub from_result-Traced : (r : Result A) → Traced (from_result r)
  unfolding from_result
  from_result-Traced r = record { runs = λ w. start w.db }

  pub if-Traced : (b : Bool) (m n : Job A) → Traced m → Traced n → Traced (if b then m else n)
  if-Traced true m n h k = h
  if-Traced false m n h k = k

  handle-Traced :
      (a : Db) (o : Result A × World) (h : List ErrorNode → Job A)
      → History a o.1.db
      → ((e : List ErrorNode) → Traced (h e))
      → History a (handle h o).1.db
  handle-Traced a (returned x, w) h past rescue = past
  handle-Traced a (raised e, w) h past rescue = also past ((rescue e).runs w)

  pub catching-Traced :
      (m : Job A) (h : List ErrorNode → Job A)
      → Traced m
      → ((e : List ErrorNode) → Traced (h e))
      → Traced (catching m h)
  unfolding catching
  catching-Traced m h k rescue = record { runs = λ w. handle-Traced w.db (m w) h (k.runs w) rescue }

then-Traced :
    {A B : Type 0} (a : Db) (o : Result A × World) (f : A → Job B)
    → History a o.1.db
    → ((x : A) → Traced (f x))
    → History a (then_do f o).1.db
then-Traced a (returned x, w) f past next = also past ((next x).runs w)
then-Traced a (raised e, w) f past next = past

pub bind-Traced :
    {A B : Type 0} (m : Job A) (f : A → Job B)
    → Traced m
    → ((x : A) → Traced (f x))
    → Traced (Jobs.◌>>=◌ m f)
unfolding Jobs.◌>>=◌
bind-Traced m f h k = record { runs = λ w. then-Traced w.db (m w) f (h.runs w) k }

-- A transaction that only moves along histories.
pub record Steps {A : Type 0} (m : Tx A) : Type 0 where
  pub runs : (db : Db) → History db (after db (m db))

settled-History :
    {A : Type 0} (c : Connections) (w : World) (a db : Db) (o : Outcome (A × Db))
    → History a db
    → History db (after db o)
    → History a (settle c w db o).1.db
settled-History c w a db (ok (x, db')) h k = also h k
settled-History c w a db (thrown e) h k = h

pub transact-Traced :
    {A : Type 0} (c : Connections) (m : Tx A)
    → ((tick : ℕ) (db : Db) → History db (c.others tick db))
    → Steps m
    → Traced (transact c m)
unfolding transact
transact-Traced c m keeps h = record {
  runs = λ w.
      settled-History c w w.db (c.others w.tick w.db) (m (c.others w.tick w.db)) (keeps w.tick w.db)
        (h.runs (c.others w.tick w.db));
}

-- A transaction whose answer a call only turns into another leaves the same database.
after-answer :
    {A B : Type 0} (f : A → B) (db : Db) (o : Outcome (A × Db))
    → after db (elim o [ ok (a, db') ↦ pure (f a) db' | thrown e ↦ thrown e ]) ≡ after db o
after-answer f db (ok (a, db')) = refl
after-answer f db (thrown e) = refl

pub answered-Steps :
    {A B : Type 0} (f : A → B) (m : Tx A)
    → ((db : Db) → History db (after db ((m >>= λ a. pure (f a)) db)))
    → Steps m
answered-Steps f m h = record { runs = λ db. subst (History db) (after-answer f db (m db)) (h db) }

pub reads-Steps : {A : Type 0} (m : Tx A) → ((db : Db) → after db (m db) ≡ db) → Steps m
reads-Steps m same = record { runs = λ db. subst (History db) (sym (same db)) (start db) }
