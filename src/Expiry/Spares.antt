-- ===== src/Expiry/Spares.antt =====
-- approval-expiry.ts: the rows that a step of a sweep does not look for.

use atoms_platform.Common.{
  ℕ, zero, suc, ◌≡◌, refl, ap, ◌∙◌, sym, subst, Bool, true, false, not, Option, none, some, [], ◌∷◌,
  ◌==◌, ==_iff, ltb, if◌then◌else◌, length, arith, inl, inr, Bool-cases, if_both,
}
use atoms_platform.Common.Table.{Table, lookup, modify, lookup-modify}
use atoms_platform.Store.{
  RunStatus, Run, Payload, Db, Outcome, Tx, ok, thrown, pure, ◌>>=◌, ◌>>◌, matches, at_version,
  same_status, update_run_if, update_run_if_hit, update_run_if_miss, append_event,
  append_event-cases, bump_sequence, bind_eq, bind_thrown,
}
use atoms_platform.Expiry.{
  Batch, or_now, then_rest, next_batch, for_each, expire_at, expire_one, awaits_reminder, remind_at,
  remind_one, awaits_purge, purge_at, clear_data, purge_one, sweep,
}

module _ (run : ℕ) where
  abbrev pub Same : Db → Db → Type 0
  Same a b = lookup run b.runs ≡ lookup run a.runs

  abbrev pub Kept : {A : Type 0} → Db → Outcome (A × Db) → Type 0
  Kept db (ok (a, b)) = Same db b
  Kept db (thrown e) = Unit

  Kept-before : {A : Type 0} (a b : Db) (o : Outcome (A × Db)) → Same a b → Kept b o → Kept a o
  Kept-before a b (ok (x, c)) h k = k ∙ h
  Kept-before a b (thrown e) h k = tt

  modify_other :
      (id : ℕ) (f : Run → Run) (t : Table Run)
      → (id == run) ≡ false
      → lookup run (modify id f t) ≡ lookup run t
  modify_other id f t h = lookup-modify run id f t ∙ rw h refl

  append-Kept :
      (id : ℕ) (payload : Payload) (db : Db)
      → (id == run) ≡ false
      → Kept db ((append_event id payload >> pure true) db)
  append-Kept id payload db other = elim (append_event-cases id payload db) [
    | inl (e, refused) ↦
        subst (Kept db) (sym (bind_thrown (append_event id payload) (λ _. pure true) db refused)) tt
    | inr (valid, r, stored) ↦
        subst (Kept db) (sym (bind_eq (append_event id payload) (λ _. pure true) db stored))
          (modify_other id bump_sequence db.runs other)
  ]

  other_row :
      (id : ℕ) (guard : Run → Bool) (db : Db)
      → matches guard (lookup run db.runs) ≡ false
      → matches guard (lookup id db.runs) ≡ true
      → (id == run) ≡ false
  other_row id guard db safe hit = elim (Bool-cases (id == run)) [
    | inl same ↦ absurd (
        cc (
          sym safe
          ∙ subst (λ k. matches guard (lookup k db.runs) ≡ true) ((==_iff id run).0 same) hit))
    | inr other ↦ other
  ]

  -- A guarded change, and what follows it, of a row that fails the guard.
  guarded-Kept :
      (id : ℕ) (guard : Run → Bool) (change : Run → Run) (next : Tx Bool) (db : Db)
      → ((b : Db) → (id == run) ≡ false → Kept b (next b))
      → matches guard (lookup run db.runs) ≡ false
      → Kept db ((update_run_if id guard change >>= λ u. if u then next else pure false) db)
  guarded-Kept id guard change next db h safe =
      elim (Bool-cases (matches guard (lookup id db.runs))) [
        | inr miss ↦
            subst (Kept db)
              (sym (
                bind_eq (update_run_if id guard change) (λ u. if u then next else pure false) db
                  (update_run_if_miss id guard change db miss)))
              refl
        | inl hit ↦
            let other = other_row id guard db safe hit in
            let after_change = record db { runs = modify id change db.runs } in
            subst (Kept db)
              (sym (
                bind_eq (update_run_if id guard change) (λ u. if u then next else pure false) db
                  (update_run_if_hit id guard change db hit)))
              (Kept-before db after_change (next after_change)
                (modify_other id change db.runs other) (h after_change other))
      ]

  module _ (others : Db → Db) (quiet : (db : Db) → Same db (others db))
      (safe : Option Run → Bool) where
    abbrev IsSparing : (Db → Db) → Type 0
    IsSparing f = (db : Db) → safe (lookup run db.runs) ≡ true → Same db (f db)

    then_rest-Same :
        (id : ℕ) (db : Db) (o : Outcome (Bool × Db)) (rest : Db → Batch)
        → Kept db o
        → safe (lookup run db.runs) ≡ true
        → ((b : Db) → safe (lookup run b.runs) ≡ true → Same b (rest b).1)
        → Same db (then_rest id db o rest).1
    then_rest-Same id db (thrown e) rest h s k = refl
    then_rest-Same id db (ok (done, b)) rest h s k = k b (ap safe h ∙ s) ∙ h

    pub for_each-Same :
        (step : ℕ × Run → Tx Bool)
        → ((c : ℕ × Run) (db : Db) → safe (lookup run db.runs) ≡ true → Kept db (step c db))
        → (cs : Table Run) (db : Db) → safe (lookup run db.runs) ≡ true
        → Same db (for_each others step cs db).1
    unfolding for_each
    for_each-Same step h [] db s = refl
    for_each-Same step h (c ∷ cs) db s =
        let still = ap safe (quiet db) ∙ s in
        then_rest-Same c.0 (others db) (step c (others db)) (for_each others step cs)
          (h c (others db) still) still (for_each-Same step h cs)
        ∙ quiet db

    next_batch-Same :
        (limit : ℕ) (db : Db) (o : Batch) (rest : Db → ℕ × Db)
        → Same db o.1
        → safe (lookup run db.runs) ≡ true
        → ((b : Db) → safe (lookup run b.runs) ≡ true → Same b (rest b).1)
        → Same db (next_batch limit o rest).1
    next_batch-Same limit db (none, b) rest h s k = h
    next_batch-Same limit db (some ids, b) rest h s k =
        if_both (λ (o : ℕ × Db). Same db o.1) (ltb (length ids) limit) h (k b (ap safe h ∙ s) ∙ h)

    pub sweep-Same :
        (limit batches : ℕ) (step : Db → Batch)
        → ((db : Db) → safe (lookup run db.runs) ≡ true → Same db (step db).1)
        → (db : Db) → safe (lookup run db.runs) ≡ true
        → Same db (sweep limit batches step db).1
    unfolding sweep
    sweep-Same limit zero step h db s = refl
    sweep-Same limit (suc batches) step h db s =
        next_batch-Same limit db (step db) (sweep limit batches step) (h db s) s
          (sweep-Same limit batches step h)

not_matched :
    (guard : Run → Bool) (o : Option Run) → not (matches guard o) ≡ true → matches guard o ≡ false
not_matched guard none h = refl
not_matched guard (some r) h = ground arith

pub remind_one-Kept :
    (run now : ℕ) (c : ℕ × Run) (db : Db)
    → not (matches awaits_reminder (lookup run db.runs)) ≡ true
    → Kept run db (remind_one now c db)
unfolding remind_one
remind_one-Kept run now (id, seen) db s =
    guarded-Kept run id awaits_reminder (remind_at now)
      (append_event id (Payload.approval_reminder_due (or_now seen.paused_at now)) >> pure true) db
      (λ b other. append-Kept run id _ b other) (not_matched awaits_reminder (lookup run db.runs) s)

pub purge_one-Kept :
    (run now : ℕ) (c : ℕ × Run) (db : Db)
    → not (matches awaits_purge (lookup run db.runs)) ≡ true
    → Kept run db (purge_one now c db)
unfolding purge_one clear_data
purge_one-Kept run now (id, seen) db s =
    guarded-Kept run id awaits_purge (purge_at now)
      (clear_data id
        >> (append_event id (Payload.data_purged (or_now seen.cancelled_at now)) >> pure true))
      db
      (λ b other. append-Kept run id (Payload.data_purged (or_now seen.cancelled_at now)) _ other)
      (not_matched awaits_purge (lookup run db.runs) s)

abbrev pub is_paused : Run → Bool
is_paused r = same_status r.status RunStatus.paused

not-at_version :
    (version : ℕ) (o : Option Run)
    → not (matches is_paused o) ≡ true
    → matches (at_version RunStatus.paused version) o ≡ false
not-at_version version none s = refl
not-at_version version (some r) s = ground arith

pub expire_one-Kept :
    (run now : ℕ) (c : ℕ × Run) (db : Db)
    → not (matches is_paused (lookup run db.runs)) ≡ true
    → Kept run db (expire_one now c db)
unfolding expire_one
expire_one-Kept run now (id, seen) db s =
    elim (Bool-cases
      (matches (at_version RunStatus.paused seen.control_version) (lookup id db.runs))) [
        | inr miss ↦
            subst (Kept run db) (sym (update_run_if_miss id _ (expire_at now) db miss)) refl
        | inl hit ↦ subst (Kept run db) (sym (update_run_if_hit id _ (expire_at now) db hit)) (
            modify_other run id (expire_at now) db.runs (
              other_row run id (at_version RunStatus.paused seen.control_version) db
                (not-at_version seen.control_version (lookup run db.runs) s) hit))
      ]
