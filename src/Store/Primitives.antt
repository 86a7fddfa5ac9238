-- ===== src/Store/Primitives.antt =====
-- The statements that transactions are made of, and the laws of the store.
use mathlib.Core.Option
use atoms_platform.Common.{
  ℕ, ◌≡◌, ◌⊎◌, refl, ap, ◌∙◌, Bool, true, false, inl, inr, Option, none, some, List, ◌∷◌, ◌==◌,
  ==_iff, if◌then◌else◌, arith, Bool-cases, Option-cases,
}
use atoms_platform.Common.Table.{Table, lookup, modify, lookup-modify}
use atoms_platform.Store.Model.{RunStatus, Run, Event, Payload, Db}
use atoms_platform.Store.Transactions.{
  DbError, Tx, ◌>>=◌, ok, thrown, matches, at_version, update_run_if, append_event, append_row,
  append_valid, fault, not_found, bump_sequence, next_event, touch, touch_active_run,
}
use atoms_platform.Store.Payloads.{validate_run_event_payload}
use atoms_platform.Store.Laws.{down, sequences, last_sequence, Forward, Later}
use atoms_platform.Store.Keeps.{Lawful, Lawful-refl, IsLawful, Leads, Forward-refl}

-- A change of one run's row keeps the laws if it is a step forward for the row and leaves the
-- event counter alone.
Later-modify :
    (hit : Bool) (guard : Run → Bool) (change : Run → Run) (o : Option Run)
    → ((r : Run) → guard r ≡ true → Forward r (change r))
    → (hit ≡ true → matches guard o ≡ true)
    → Later o (if hit then Option.map change o else o)
Later-modify hit guard change none h m = tt
Later-modify true guard change (some r) h m = h r (m refl)
Later-modify false guard change (some r) h m = Forward-refl r

last_sequence-modify :
    (j k : ℕ) (change : Run → Run) (o : Option Run)
    → ((r : Run) → (change r).event_sequence ≡ r.event_sequence)
    → last_sequence (if k == j then Option.map change o else o) ≡ last_sequence o
last_sequence-modify j k change none h = ground arith
last_sequence-modify j k change (some r) h = ground (arith, h r)

Lawful-modify :
    (id : ℕ) (guard : Run → Bool) (change : Run → Run) (db : Db)
    → ((r : Run) → guard r ≡ true → Forward r (change r))
    → ((r : Run) → (change r).event_sequence ≡ r.event_sequence)
    → matches guard (lookup id db.runs) ≡ true
    → Lawful db (record db { runs = modify id change db.runs })
Lawful-modify id guard change db forward same hit = record {
  later = λ k. rw (lookup-modify k id change db.runs) (
      Later-modify (id == k) guard change (lookup k db.runs) forward
        (λ e. rw (← (==_iff id k).0 e) hit));
  gapless = λ h k.
      h k
      ∙ ap down (
          rw
            (
              lookup-modify k id change db.runs,
              last_sequence-modify k id change (lookup k db.runs) same,
            )
            refl);
  contiguous = λ h. h;
}

pub update_run_if-IsLawful :
    (id : ℕ) (guard : Run → Bool) (change : Run → Run)
    → ((r : Run) → guard r ≡ true → Forward r (change r))
    → ((r : Run) → (change r).event_sequence ≡ r.event_sequence)
    → IsLawful (update_run_if id guard change)
unfolding update_run_if
update_run_if-IsLawful id guard change forward same = record {
  runs = λ db. elim (Bool-cases (matches guard (lookup id db.runs))) [
    | inl hit ↦ rw hit (Lawful-modify id guard change db forward same hit)
    | inr miss ↦ rw miss (Lawful-refl db)
  ];
}

bump-Forward : (r : Run) → Forward r (bump_sequence r)
bump-Forward r = record {
  same_workspace = refl;
  same_project = refl;
  version_grows = omega arith;
  sequence_grows = omega arith;
  final = λ f. (refl, refl);
  fenced = λ e. inl refl;
}

gapless-append :
    (id k : ℕ) (r : Run) (payload : Payload) (runs : Table Run) (events : List Event)
    → lookup id runs ≡ some r
    → sequences k events ≡ down (last_sequence (lookup k runs))
    → sequences k (next_event id r payload ∷ events)
      ≡ down (last_sequence (lookup k (modify id bump_sequence runs)))
gapless-append id k r payload runs events found h = elim (Bool-cases (id == k)) [
  | inl same ↦
      rw (lookup-modify k id bump_sequence runs, same) (rw (h, ← (==_iff id k).0 same, found) refl)
  | inr other ↦ rw (lookup-modify k id bump_sequence runs, other) h
]

Lawful-append :
    (id : ℕ) (r : Run) (payload : Payload) (db : Db)
    → lookup id db.runs ≡ some r
    → Lawful db (record db {
      runs = modify id bump_sequence db.runs;
      events = next_event id r payload ∷ db.events;
    })
Lawful-append id r payload db found = record {
  later = λ k. rw (lookup-modify k id bump_sequence db.runs) (
      Later-modify (id == k) (λ _. true) bump_sequence (lookup k db.runs) (λ s _. bump-Forward s)
        (λ e. rw (← (==_iff id k).0 e, found) refl));
  gapless = λ h k. gapless-append id k r payload db.runs db.events found (h k);
  contiguous = λ h. h;
}

pub append_row-IsLawful : (id : ℕ) (payload : Payload) → IsLawful (append_row id payload)
unfolding append_row
append_row-IsLawful id payload = record {
  runs = λ db. elim (Option-cases (lookup id db.runs)) [
    | inl missing ↦ rw (missing, Leads, append_row) tt
    | inr (r, found) ↦ rw (found, Leads, append_row) (Lawful-append id r payload db found)
  ];
}

append_valid-Leads : (id : ℕ) (o : Option Payload) (db : Db) → Leads db (append_valid id o db)
append_valid-Leads id none db = tt
append_valid-Leads id (some payload) db = (append_row-IsLawful id payload).runs db

pub append_event-IsLawful : (id : ℕ) (payload : Payload) → IsLawful (append_event id payload)
unfolding append_event
append_event-IsLawful id payload = record {
  runs = λ db. append_valid-Leads id (validate_run_event_payload db.formats payload) db;
}

-- What `appendEvent` does for a valid payload and an existing run.
pub append_event_found :
    (id : ℕ) (payload valid : Payload) (db : Db) (r : Run)
    → validate_run_event_payload db.formats payload ≡ some valid
    → lookup id db.runs ≡ some r
    → append_event id payload db
      ≡ ok (
        tt,
        record db {
          runs = modify id bump_sequence db.runs;
          events = next_event id r valid ∷ db.events;
        },
      )
unfolding append_event append_row
append_event_found id payload valid db r checked found =
    ap (λ o. append_valid id o db) checked ∙ rw (found, append_row) refl

pub append_event_refused :
    (id : ℕ) (payload : Payload) (db : Db)
    → validate_run_event_payload db.formats payload ≡ none
    → append_event id payload db ≡ thrown (fault "ZodError")
unfolding append_event
append_event_refused id payload db refused = ap (λ o. append_valid id o db) refused

append_missing :
    (id : ℕ) (o : Option Payload) (db : Db)
    → lookup id db.runs ≡ none
    → (e : DbError) × (append_valid id o db ≡ thrown e)
unfolding append_row
append_missing id none db e = (fault "ZodError", refl)
append_missing id (some payload) db e = (not_found, rw (e, append_row) refl)

-- An event is thrown out, or it is stored in one form.
pub append_event-cases :
    (id : ℕ) (payload : Payload) (db : Db)
    → ((e : DbError) × (append_event id payload db ≡ thrown e))
      ⊎ ((valid : Payload) × (r : Run) × (append_event id payload db
            ≡ ok (
              tt,
              record db {
                runs = modify id bump_sequence db.runs;
                events = next_event id r valid ∷ db.events;
              },
            )))
unfolding append_event
append_event-cases id payload db =
    elim (Option-cases (validate_run_event_payload db.formats payload)) [
      | inl refused ↦ inl (fault "ZodError", append_event_refused id payload db refused)
      | inr (valid, checked) ↦ elim (Option-cases (lookup id db.runs)) [
        | inl missing ↦ inl (append_missing id _ db missing)
        | inr (r, found) ↦ inr (valid, r, append_event_found id payload valid db r checked found)
      ]
    ]

touch-Forward : (now : ℕ) (r : Run) → Forward r (touch now r)
touch-Forward now r = record {
  same_workspace = refl;
  same_project = refl;
  version_grows = omega arith;
  sequence_grows = omega arith;
  final = λ f. (refl, refl);
  fenced = λ e. inl refl;
}

pub touch_active_run-IsLawful : (run version now : ℕ) → IsLawful (touch_active_run run version now)
unfolding touch_active_run
touch_active_run-IsLawful run version now =
    update_run_if-IsLawful run _ (touch now) (λ r _. touch-Forward now r) (λ r. refl)

-- A guard that fails changes nothing.
pub update_run_if_miss :
    (id : ℕ) (guard : Run → Bool) (change : Run → Run) (db : Db)
    → matches guard (lookup id db.runs) ≡ false
    → update_run_if id guard change db ≡ ok (false, db)
unfolding update_run_if
update_run_if_miss id guard change db h = rw h

pub touch_miss :
    (run version now : ℕ) (db : Db)
    → matches (at_version RunStatus.running version) (lookup run db.runs) ≡ false
    → touch_active_run run version now db ≡ ok (false, db)
unfolding touch_active_run
touch_miss run version now db h = update_run_if_miss run _ _ db h

-- A guard that holds lets the change through.
pub update_run_if_hit :
    (id : ℕ) (guard : Run → Bool) (change : Run → Run) (db : Db)
    → matches guard (lookup id db.runs) ≡ true
    → update_run_if id guard change db ≡ ok (true, record db { runs = modify id change db.runs })
unfolding update_run_if
update_run_if_hit id guard change db h = rw h

-- A step whose outcome is known is followed by the rest at that outcome.
pub bind_eq :
    {A B : Type 0} (m : Tx A) (f : A → Tx B) (db : Db) {a : A} {b : Db}
    → m db ≡ ok (a, b)
    → (m >>= f) db ≡ f a b
bind_eq m f db e = rw (e, ◌>>=◌)

pub bind_thrown :
    {A B : Type 0} (m : Tx A) (f : A → Tx B) (db : Db) {e : DbError}
    → m db ≡ thrown e
    → (m >>= f) db ≡ thrown e
bind_thrown m f db h = rw (h, ◌>>=◌)
