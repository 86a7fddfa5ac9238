-- ===== src/Worker/Processor/Repairs.antt =====
-- The loop of validations and repairs: its end, and the attempt numbers that it uses.
use atoms_platform.Common.{
  ℕ, zero, suc, ◌+◌, ◌≤◌, ◌<◌, ◌≡◌, refl, sym, ap, ◌∙◌, subst, Bool, true, false, Option, none,
  some, List, [], ◌∷◌, ◌++◌, if◌then◌else◌, arith, inl, inr, Bool-cases, is_some, All,
}
use mathlib.Core.List.{append_assoc}
use atoms_platform.Store.{Agent, Db}
use atoms_platform.Worker.Errors.{ErrorNode, find_run_stopped_error}
use atoms_platform.Worker.Runs.{RunExecutionRecord}
use atoms_platform.Worker.Previews.{preview_reopen_first_attempt}
use atoms_platform.Worker.Jobs.{
  World, Result, returned, raised, Job, give, raise, ◌>>=◌, then_do, handle, catching,
}
use atoms_platform.Worker.Jobs.Spares.{
  Ends, Spares, bind-Spares, catching-Spares, if-Spares, give-Spares, raise-Spares,
}
use atoms_platform.Worker.Graph.Nodes.{parse_agents-Spares}
use atoms_platform.Worker.Agents.{Outputs, upstream_agents, parse_upstream_outputs}
use atoms_platform.Worker.Processor.{
  Processor, Effect, effect, log_validation, validate_once, may_repair, repair_once,
  repair_and_retry, validated_attempt, validate_loop, enough_fuel, RepairInput,
  repair_attempt_stride, repair_with, unless_run_stopped,
}

abbrev nobody : Agent → Bool
nobody agent = false

abbrev Anything : {A : Type 0} → A → Type 0
Anything a = Unit {0}

answered-Ends :
    {A : Type 0} (w : World) (o : Result A × Db)
    → Ends nobody Anything w (o.0, record w { db = o.1 })
answered-Ends w (returned a, db) = ((refl, refl), tt)
answered-Ends w (raised e, db) = (refl, refl)

effect-Spares : {A : Type 0} (e : Effect A) → Spares nobody (effect e) Anything
unfolding effect
effect-Spares e = record { runs = λ w. answered-Ends w (e w.db) }

repair_with-Spares :
    (o : Option (RepairInput → Effect Bool)) (i : RepairInput)
    → Spares nobody (repair_with o i) Anything
repair_with-Spares none i = give-Spares nobody false Anything tt
repair_with-Spares (some repair) i = effect-Spares (repair i)

repair_once-Spares :
    (q : Processor) (run : RunExecutionRecord) (outputs : Outputs) (repairs : ℕ)
    (error : List ErrorNode)
    → Spares nobody (repair_once q run outputs repairs error) Anything
unfolding repair_once parse_upstream_outputs unless_run_stopped
repair_once-Spares q run outputs repairs error =
    catching-Spares nobody _ _ Anything
      (bind-Spares nobody _ _ Anything Anything
        (parse_agents-Spares nobody q.ports outputs upstream_agents)
        (λ upstream u. repair_with-Spares q.repairer _))
      (λ e.
        if-Spares nobody (is_some (find_run_stopped_error e)) _ _ Anything
          (λ f. raise-Spares nobody e Anything) (λ f. give-Spares nobody false Anything tt))

-- The attempt numbers of so many validations after so many repairs, newest first.
abbrev pub attempts_from : (attempt repairs validations : ℕ) → List ℕ
attempts_from attempt repairs zero = []
attempts_from attempt repairs (suc n) =
    attempts_from attempt (suc repairs) n ++ validated_attempt attempt repairs ∷ []

All-append : (P : ℕ → Type 0) (xs ys : List ℕ) → All P xs → All P ys → All P (xs ++ ys)
All-append P [] ys h k = k
All-append P (x ∷ xs) ys (h, t) k = (h, All-append P xs ys t k)

module _ (q : Processor) (run : RunExecutionRecord) (outputs : Outputs) (attempt : ℕ) where
  -- Beyond the bound on repairs no error is repaired.
  spent :
      (repairs : ℕ) (error : List ErrorNode)
      → q.max_repair_attempts ≤ repairs
      → may_repair q repairs error ≡ false
  spent repairs error le = ground (arith, le)

  deeper : (left more : ℕ) → suc (left + more) ≡ suc left + more
  deeper left more = omega arith

  repair_spent :
      (repairs : ℕ) (a b : Job (Option ℕ × ℕ)) (error : List ErrorNode)
      → q.max_repair_attempts ≤ repairs
      → repair_and_retry q run outputs repairs a error
        ≡ repair_and_retry q run outputs repairs b error
  unfolding repair_and_retry
  repair_spent repairs a b error le = rw (spent repairs error le) refl

  -- A loop that may still repair so many times needs one unit of fuel more than that, and further fuel changes nothing.
  loop_deeper :
      (left more repairs : ℕ)
      → q.max_repair_attempts ≤ repairs + left
      → validate_loop (suc (left + more)) q run outputs attempt repairs
        ≡ validate_loop (suc left) q run outputs attempt repairs
  unfolding validate_loop
  loop_deeper zero more repairs le =
      ap (catching (validate_once q.validator run (validated_attempt attempt repairs))) (λ j error.
        repair_spent repairs (validate_loop (0 + more) q run outputs attempt (suc repairs))
          (validate_loop 0 q run outputs attempt (suc repairs)) error (omega (arith, le)) j)
  loop_deeper (suc left) more repairs le =
      ap
        (λ retry.
          catching (validate_once q.validator run (validated_attempt attempt repairs))
            (repair_and_retry q run outputs repairs retry))
        (subst
          (λ n.
            validate_loop n q run outputs attempt (suc repairs)
            ≡ validate_loop (suc left) q run outputs attempt (suc repairs))
          (deeper left more) (loop_deeper left more (suc repairs) (omega (arith, le))))

  -- So many validations were logged, under the attempt numbers in order.
  abbrev pub Logs : (repairs : ℕ) (before after : List ℕ) → Type 0
  Logs repairs before after =
      (n : ℕ) × (repairs + n ≤ suc q.max_repair_attempts)
      × (after ≡ attempts_from attempt repairs n ++ before)

  Logs-none :
      (repairs : ℕ) (before after : List ℕ)
      → repairs ≤ suc q.max_repair_attempts
      → after ≡ before
      → Logs repairs before after
  Logs-none repairs before after le e = (0, omega (arith, le), e)

  Logs-more :
      (repairs : ℕ) (before after : List ℕ)
      → Logs (suc repairs) (validated_attempt attempt repairs ∷ before) after
      → Logs repairs before after
  Logs-more repairs before after (n, le, e) = (
    suc n,
    omega (arith, le),
    e
        ∙ sym (
            append_assoc (attempts_from attempt (suc repairs) n)
              (validated_attempt attempt repairs ∷ []) before),
  )

  abbrev log : {A : Type 0} → Result A × World → List ℕ
  log o = o.1.validations

  retried :
      (repairs : ℕ) (before : List ℕ) (retry : Job (Option ℕ × ℕ)) (error : List ErrorNode)
      → suc repairs ≤ suc q.max_repair_attempts
      → ((w : World) → w.validations ≡ before → Logs (suc repairs) before (log (retry w)))
      → (w : World) (o : Result Bool × World) → w.validations ≡ before
      → Ends nobody Anything w o
      → Logs
          (suc repairs)
          before
          (log (then_do (λ repaired. if repaired then retry else raise error) o))
  unfolding raise
  retried repairs before retry error le ih w (returned true, w') e ((a, b), u) = ih w' (b ∙ e)
  retried repairs before retry error le ih w (returned false, w') e ((a, b), u) =
      Logs-none (suc repairs) before w'.validations le (b ∙ e)
  retried repairs before retry error le ih w (raised x, w') e (a, b) =
      Logs-none (suc repairs) before w'.validations le (b ∙ e)

  repair_and_retry-Logs :
      (repairs : ℕ) (before : List ℕ) (retry : Job (Option ℕ × ℕ)) (error : List ErrorNode)
      → repairs ≤ q.max_repair_attempts
      → (suc repairs ≤ q.max_repair_attempts
          → (w : World) → w.validations ≡ before
          → Logs (suc repairs) before (log (retry w)))
      → (w : World) → w.validations ≡ before
      → Logs (suc repairs) before (log (repair_and_retry q run outputs repairs retry error w))
  unfolding repair_and_retry ◌>>=◌ raise
  repair_and_retry-Logs repairs before retry error le ih w e =
      elim (Bool-cases (may_repair q repairs error)) [
        | inl allowed ↦ rw allowed (
            retried repairs before retry error (omega (arith, le)) (ih (ground (arith, allowed))) w
              (repair_once q run outputs repairs error w) e
              ((repair_once-Spares q run outputs repairs error).runs w))
        | inr refused ↦
            rw refused (Logs-none (suc repairs) before w.validations (omega (arith, le)) e)
      ]

  -- The outcome of a validation, and the handler of its error.
  handled :
      (repairs : ℕ) (w : World) (retry : List ErrorNode → Job (Option ℕ × ℕ))
      (o : Result (Option ℕ) × Db)
      → repairs ≤ q.max_repair_attempts
      → ((e : List ErrorNode) (v : World)
          → v.validations ≡ validated_attempt attempt repairs ∷ w.validations
          → Logs
              (suc repairs)
              (validated_attempt attempt repairs ∷ w.validations)
              (log (retry e v)))
      → Logs repairs w.validations (
          log (
            handle retry (
              then_do
                (λ lease. give (lease, validated_attempt attempt repairs))
                (
                  o.0,
                  record w {
                    db = o.1;
                    validations = validated_attempt attempt repairs ∷ w.validations;
                  },
                ))))
  unfolding give
  handled repairs w retry (returned lease, db) le h =
      Logs-more repairs w.validations (validated_attempt attempt repairs ∷ w.validations)
        (Logs-none (suc repairs) _ _ (omega (arith, le)) refl)
  handled repairs w retry (raised e, db) le h = Logs-more repairs w.validations _ (
      h e (record w { db = db; validations = validated_attempt attempt repairs ∷ w.validations })
        refl)

  loop_step :
      (o : Option (RunExecutionRecord → ℕ → Effect (Option ℕ))) (repairs : ℕ) (w : World)
      (retry : List ErrorNode → Job (Option ℕ × ℕ))
      → repairs ≤ q.max_repair_attempts
      → ((e : List ErrorNode) (v : World)
          → v.validations ≡ validated_attempt attempt repairs ∷ w.validations
          → Logs
              (suc repairs)
              (validated_attempt attempt repairs ∷ w.validations)
              (log (retry e v)))
      → Logs repairs w.validations
          (log (catching (validate_once o run (validated_attempt attempt repairs)) retry w))
  unfolding validate_once catching give ◌>>=◌ effect log_validation
  loop_step none repairs w retry le h =
      Logs-none repairs w.validations w.validations (omega (arith, le)) refl
  loop_step (some validate) repairs w retry le h =
      handled repairs w retry (validate run (validated_attempt attempt repairs) w.db) le h

  -- The numbers that the loop validates under are attempt + 100 · repairs for consecutive counts of
  -- repairs, each once and in order, and the count never passes the configured number of repairs.
  pub validate_loop-Logs :
      (fuel repairs : ℕ) (w : World)
      → repairs ≤ q.max_repair_attempts
      → Logs repairs w.validations (log (validate_loop fuel q run outputs attempt repairs w))
  unfolding validate_loop raise
  validate_loop-Logs zero repairs w le =
      Logs-none repairs w.validations w.validations (omega (arith, le)) refl
  validate_loop-Logs (suc fuel) repairs w le = loop_step q.validator repairs w _ le λ e v same.
      repair_and_retry-Logs repairs (validated_attempt attempt repairs ∷ w.validations)
        (validate_loop fuel q run outputs attempt (suc repairs)) e le
        (λ more u unchanged.
          subst
            (λ l.
              Logs (suc repairs) l (log (validate_loop fuel q run outputs attempt (suc repairs) u)))
            unchanged (validate_loop-Logs fuel (suc repairs) u more))
        v same

  -- The loop ends by itself: with as much fuel as the processor gives it, one more than the
  -- configured number of repairs, more fuel changes nothing, whatever validations and repairs do.
  pub validate_loop_ends :
      (more repairs : ℕ)
      → validate_loop (enough_fuel q + more) q run outputs attempt repairs
        ≡ validate_loop (enough_fuel q) q run outputs attempt repairs
  validate_loop_ends more repairs =
      subst
        (λ n.
          validate_loop n q run outputs attempt repairs
          ≡ validate_loop (enough_fuel q) q run outputs attempt repairs)
        (deeper q.max_repair_attempts more)
        (loop_deeper q.max_repair_attempts more repairs (omega arith))

  attempts_from-Below :
      (bound n repairs : ℕ)
      → validated_attempt attempt (repairs + n) < bound + repair_attempt_stride
      → All (λ a. a < bound) (attempts_from attempt repairs n)
  attempts_from-Below bound zero repairs le = tt
  attempts_from-Below bound (suc n) repairs le =
      All-append (λ a. a < bound) (attempts_from attempt (suc repairs) n) _
        (attempts_from-Below bound n (suc repairs) (omega (arith, le))) (omega (arith, le), tt)

  -- With at most three repairs, as the worker's configuration allows, and a job attempt of at most 700, every
  -- attempt number that the loop validates under is below the first number of a reopened preview.
  pub validate_loop-below_reopening :
      (fuel repairs : ℕ) (w : World)
      → q.max_repair_attempts ≤ 3
      → attempt ≤ 700
      → repairs ≤ q.max_repair_attempts
      → (used : List ℕ) × (log (validate_loop fuel q run outputs attempt repairs w)
          ≡ used ++ w.validations)
        × All (λ a. a < preview_reopen_first_attempt) used
  validate_loop-below_reopening fuel repairs w few early le =
      let (n, bound, log) = validate_loop-Logs fuel repairs w le in
      (
        attempts_from attempt repairs n,
        log,
        attempts_from-Below preview_reopen_first_attempt n repairs
            (omega (arith, few, early, bound)),
      )
