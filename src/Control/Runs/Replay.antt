-- ===== src/Control/Runs/Replay.antt =====
-- Reading a run's event stream from a cursor (the SSE endpoint and its clients).
use atoms_platform.Common.{
  ℕ, zero, suc, ◌+◌, ◌-◌, ◌≤◌, ◌≡◌, refl, ap, ◌∙◌, sym, true, List, [], ◌∷◌, ◌++◌, map, ◌==◌, ltb,
  min, if◌then◌else◌, arith, take, inl, inr, Bool-cases,
}
use atoms_platform.Common.Table.{lookup}
use atoms_platform.Store.{Event, Db, IsGapless, sequences, down, last_sequence}
use atoms_platform.Control.Runs.{events_after, readable, list_run_events_after}

-- c + 1, c + 2, …, c + k
abbrev pub count_up : ℕ → ℕ → List ℕ
count_up c zero = []
count_up c (suc k) = suc c ∷ count_up (suc c) k

abbrev numbers : List Event → List ℕ
numbers es = map (λ e. e.sequence) es

count_up-snoc : (c k : ℕ) → count_up c (suc k) ≡ count_up c k ++ suc (c + k) ∷ []
count_up-snoc c zero = ground arith
count_up-snoc c (suc k) = ground (arith, count_up-snoc (suc c) k)

numbers-append : (xs ys : List Event) → numbers (xs ++ ys) ≡ numbers xs ++ numbers ys
numbers-append [] ys = refl
numbers-append (x ∷ xs) ys = ap (◌∷◌ x.sequence) (numbers-append xs ys)

numbers-take : (n : ℕ) (es : List Event) → numbers (take n es) ≡ take n (numbers es)
numbers-take zero es = refl
numbers-take (suc n) [] = refl
numbers-take (suc n) (e ∷ es) = ap (◌∷◌ e.sequence) (numbers-take n es)

take-count_up : (n c k : ℕ) → take n (count_up c k) ≡ count_up c (min n k)
take-count_up zero c k = ground arith
take-count_up (suc n) c zero = ground arith
take-count_up (suc n) c (suc k) = ground (arith, take-count_up n (suc c) k)

snoc_count_up :
    (cursor n : ℕ)
    → cursor ≤ n
    → count_up cursor (n - cursor) ++ suc n ∷ [] ≡ count_up cursor (suc n - cursor)
snoc_count_up cursor n le =
    let length_up : suc n - cursor ≡ suc (n - cursor) = omega arith in
    let last_up : suc (cursor + (n - cursor)) ≡ suc n = omega arith in
    rw length_up (
      sym (
        count_up-snoc cursor (n - cursor)
        ∙ ap (λ m. count_up cursor (n - cursor) ++ m ∷ []) last_up))

-- The newest event, if the cursor is behind it, comes last.
events_after_same :
    (run cursor n : ℕ) (e : Event) (es : List Event)
    → e.sequence ≡ suc n
    → numbers (events_after run cursor es) ≡ count_up cursor (n - cursor)
    → numbers (
        if ltb cursor e.sequence
        then events_after run cursor es ++ e ∷ []
        else events_after run cursor es)
      ≡ count_up cursor (suc n - cursor)
events_after_same run cursor n e es top ih = elim (Bool-cases (ltb cursor e.sequence)) [
  | inl behind ↦ rw behind (
      numbers-append (events_after run cursor es) (e ∷ [])
      ∙ (rw (ih, top) (snoc_count_up cursor n (ground arith))))
  | inr past ↦
      let both : n - cursor ≡ suc n - cursor = ground arith in
      rw past (ih ∙ ap (count_up cursor) both)
]

numbers-events_after :
    (run cursor n : ℕ) (es : List Event)
    → sequences run es ≡ down n
    → numbers (events_after run cursor es) ≡ count_up cursor (n - cursor)
unfolding events_after
numbers-events_after run cursor zero [] h = ground arith
numbers-events_after run cursor (suc n) [] h = cc
numbers-events_after run cursor zero (e ∷ es) h =
    ground (arith, numbers-events_after run cursor zero es)
numbers-events_after run cursor (suc n) (e ∷ es) h = elim (Bool-cases (e.run_id == run)) [
  | inl same ↦ rw same (
      events_after_same run cursor n e es (ground arith)
        (numbers-events_after run cursor n es (ground arith)))
  | inr other ↦ rw other (numbers-events_after run cursor (suc n) es (ground arith))
]

-- Where the event logs are gapless and the user may read the run, a page behind a cursor holds the
-- run's next events in order, as many as the limit allows, none missing and none twice.
pub list_run_events_numbers :
    (user run cursor limit : ℕ) (db : Db)
    → IsGapless db
    → readable user db (lookup run db.runs) ≡ true
    → map (λ e. e.sequence) (list_run_events_after user run cursor limit db)
      ≡ count_up cursor (min limit (last_sequence (lookup run db.runs) - cursor))
unfolding list_run_events_after
list_run_events_numbers user run cursor limit db gapless may = rw may (
    numbers-take limit (events_after run cursor db.events)
    ∙ ap (take limit) (
        numbers-events_after run cursor (last_sequence (lookup run db.runs)) db.events
          (gapless run))
    ∙ take-count_up limit cursor (last_sequence (lookup run db.runs) - cursor))
