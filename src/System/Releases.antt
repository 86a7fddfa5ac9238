-- ===== src/System/Releases.antt =====
-- The events of an assessment as a history.
use atoms_platform.Common.{ℕ, Option, none, some, List, [], ◌∷◌}
use atoms_platform.Store.{
  Payload, Db, Outcome, ok, thrown, Tx, after, append_event, append_row, append_valid,
  validate_run_event_payload,
}
use atoms_platform.Worker.Releases.{append_release_events}
use atoms_platform.System.{History, start, also, publishes}

-- A transaction that commits moves the database along a history.
abbrev Moves : {A : Type 0} → Db → Outcome (A × Db) → Type 0
Moves a (ok (x, b)) = History a b
Moves a (thrown e) = Unit

bind-Moves :
    {A B : Type 0} (a : Db) (o : Outcome (A × Db)) (f : A → Tx B)
    → Moves a o
    → ((x : A) (b : Db) → Moves b (f x b))
    → Moves a (elim o [ ok (x, b) ↦ f x b | thrown e ↦ thrown e ])
bind-Moves a (ok (x, b)) f h k = onward a b (f x b) h (k x b)
  where
    onward : {B : Type 0} (a b : Db) (o : Outcome (B × Db)) → History a b → Moves b o → Moves a o
    onward a b (ok (y, c)) h k = also h k
    onward a b (thrown e) h k = tt
bind-Moves a (thrown e) f h k = tt

row-Moves : (a : Db) (o : Outcome (Unit {0} × Db)) → History a (after a o) → Moves a o
row-Moves a (ok (x, b)) h = h
row-Moves a (thrown e) h = tt

valid-Moves : (run : ℕ) (o : Option Payload) (db : Db) → Moves db (append_valid run o db)
valid-Moves run none db = tt
valid-Moves run (some payload) db =
    row-Moves db (append_row run payload db) (publishes run payload db)

event-Moves : (run : ℕ) (payload : Payload) (db : Db) → Moves db (append_event run payload db)
unfolding append_event
event-Moves run payload db = valid-Moves run (validate_run_event_payload db.formats payload) db

events-Moves :
    (run : ℕ) (payloads : List Payload) (db : Db) → Moves db (append_release_events run payloads db)
unfolding append_release_events
events-Moves run [] db = start db
events-Moves run (payload ∷ rest) db =
    bind-Moves db (append_event run payload db) (λ _. append_release_events run rest)
      (event-Moves run payload db) (λ x b. events-Moves run rest b)

committed : {A : Type 0} (a : Db) (o : Outcome (A × Db)) → Moves a o → History a (after a o)
committed a (ok (x, b)) h = h
committed a (thrown e) h = start a

-- The events of an assessment take the database along a history, and none stays if one is refused.
pub append_release_events-History :
    (run : ℕ) (payloads : List Payload) (db : Db)
    → History db (after db (append_release_events run payloads db))
append_release_events-History run payloads db =
    committed db (append_release_events run payloads db) (events-Moves run payloads db)
