-- ===== src/Worker/Graph/Gates.antt =====
-- The approval gates, and what every node keeps of the state.
use atoms_platform.Common.{
  ℕ, ◌≡◌, refl, ◌∙◌, sym, ap, subst, Bool, true, false, Option, none, some, List, [], ◌∷◌, ◌++◌,
  ◌&&◌, arith, is_some, String,
}
use atoms_platform.Store.{Agent, ApprovalScope, Json}
use atoms_platform.Worker.Runs.{request_approval}
use atoms_platform.Worker.Jobs.{Result, returned, raised, from_result}
use atoms_platform.Worker.Jobs.Spares.{
  Spares, give-Spares, raise-Spares, from_result-Spares, bind-Spares, if-Spares, transact-Spares,
}
use atoms_platform.Worker.Agents.{
  Ports, RunState, Outputs, output_of, same_agent, run_agent, load_references, load_with,
}
use atoms_platform.Worker.Graph.{
  agent_node, is_approve, has_scope, may_bypass, run_has_references, pause_for, pass_or_pause,
  needs_plan_approval, plan_gate, approval_gate, content_gate, content_approval_gate, plan_reason,
  content_reason,
}
use atoms_platform.Worker.Graph.Nodes.{OnlyFrom, run_agent-Spares, load_references-Spares}

output_of-skip :
    (agent : Agent) (out rest : Outputs)
    → output_of agent out ≡ none
    → output_of agent (out ++ rest) ≡ output_of agent rest
output_of-skip agent [] rest h = refl
output_of-skip agent ((a, j) ∷ out) rest h = ground (arith, h, output_of-skip agent out rest)

-- What no node changes: the run, the job, and the outputs of agents other than the node's.
pub record Follows (agent : Agent) (s t : RunState) : Type 0 where
  pub run : t.run_id ≡ s.run_id
  pub command : t.command ≡ s.command
  pub scope : t.approval_scope ≡ s.approval_scope
  pub consumed : t.approval_bypass_consumed ≡ s.approval_bypass_consumed
  pub other_outputs :
      (other : Agent)
      → same_agent agent other ≡ false
      → output_of other t.outputs ≡ output_of other s.outputs

-- Approving keeps the job.
pub record Passes (s t : RunState) : Type 0 where
  pub command : t.command ≡ s.command
  pub scope : t.approval_scope ≡ s.approval_scope

-- Copy variants are let through only by a job that approves the content.
pub record Approved (p : Ports) (s t : RunState) : Type 0 where
  pub passes : Passes s t
  pub approved :
      (j : Json)
      → output_of Agent.adrian t.outputs ≡ some j
      → p.has_copy_variants j ≡ returned true
      → (is_approve s.command && has_scope ApprovalScope.content s.approval_scope) ≡ true

module _ (watched : Agent → Bool) (p : Ports) where
  pub agent_node-Spares :
      (agent : Agent) (s : RunState)
      → watched agent ≡ false
      → Spares watched (agent_node p agent s) (Follows agent s)
  unfolding agent_node
  agent_node-Spares agent s h =
      bind-Spares watched (run_agent p agent s) _ (OnlyFrom agent) (Follows agent s)
        (run_agent-Spares watched p agent s h)
        λ update only. give-Spares watched _ (Follows agent s) (record {
          run = refl;
          command = refl;
          scope = refl;
          consumed = refl;
          other_outputs = λ other apart. output_of-skip other update s.outputs (only other apart);
        })

  pub pause_for-Spares :
      (scope : ApprovalScope) (reason : String) (s : RunState) (post : RunState → Type 0)
      → Spares watched (pause_for p scope reason s) post
  unfolding pause_for
  pause_for-Spares scope reason s post = record {
    runs = λ w.
        (bind-Spares watched _ _ (λ a. Unit {0}) post
            (transact-Spares watched p.connections
              (request_approval s.run_id s.control_version scope reason (p.clock w.tick)) _
              (λ a. tt))
            (λ paused u. raise-Spares watched _ post)).runs
          w;
  }

  -- Past the gate only with an approval of its scope.
  pub pass_or_pause-Spares :
      (scope : ApprovalScope) (reason : String) (s : RunState) (post : RunState → Type 0)
      → (may_bypass scope s ≡ true → post (record s { approval_bypass_consumed = true }))
      → Spares watched (pass_or_pause p scope reason s) post
  unfolding pass_or_pause
  pass_or_pause-Spares scope reason s post h =
      if-Spares watched (may_bypass scope s) _ _ post (λ e. give-Spares watched _ post (h e))
        (λ e. pause_for-Spares scope reason s post)

  from_result-eq :
      {A : Type 0} (r : Result A) → Spares watched (from_result r) (λ a. r ≡ returned a)
  unfolding from_result
  from_result-eq (returned a) = record { runs = λ w. ((refl, refl), refl) }
  from_result-eq (raised e) = record { runs = λ w. (refl, refl) }

  from_returned :
      {A : Type 0} (a : A) (r : Result A)
      → r ≡ returned a
      → Spares watched (from_result r) (λ b. b ≡ a)
  unfolding from_result
  from_returned a r e =
      subst (λ r. Spares watched (from_result r) (λ b. b ≡ a)) (sym e)
        (record { runs = λ w. ((refl, refl), refl) })

  loaded :
      (run : ℕ) (load : ℕ → Result (List Json)) (first : Json) (rest : List Json)
      → p.loader ≡ some load
      → load run ≡ returned (first ∷ rest)
      → Spares watched (load_references p run) (λ l. l ≡ first ∷ rest)
  unfolding load_references load_with
  loaded run load first rest given loads = rw given (from_returned (first ∷ rest) (load run) loads)

  -- Whether references were loaded at all.
  pub run_has_references-Spares :
      (run : ℕ) (load : ℕ → Result (List Json)) (first : Json) (rest : List Json)
      → p.loader ≡ some load
      → load run ≡ returned (first ∷ rest)
      → Spares watched (run_has_references p run) (λ b. b ≡ true)
  unfolding run_has_references
  run_has_references-Spares run load first rest given loads =
      bind-Spares watched (load_references p run) _ (λ l. l ≡ first ∷ rest) (λ b. b ≡ true)
        (loaded run load first rest given loads)
        λ l e. give-Spares watched _ (λ b. b ≡ true) (rw e (ground arith))

  -- Nothing lets the state past the plan gate.
  module _ (s : RunState) (blocked : may_bypass ApprovalScope.plan s ≡ false) where
    plan_gate-Blocks :
        (requires : Bool) (load : ℕ → Result (List Json)) (first : Json) (rest : List Json)
        → p.loader ≡ some load
        → load s.run_id ≡ returned (first ∷ rest)
        → Spares watched (plan_gate p requires s) (λ t. ⊥)
    unfolding plan_gate needs_plan_approval
    plan_gate-Blocks requires load first rest given loads =
        bind-Spares watched _ _ (λ b. b ≡ true) (λ t. ⊥)
          (if-Spares watched requires _ _ (λ b. b ≡ true) (λ e. give-Spares watched true _ refl)
            (λ e. run_has_references-Spares s.run_id load first rest given loads))
          λ needed e.
            if-Spares watched needed _ _ (λ t. ⊥)
              (λ f.
                pass_or_pause-Spares ApprovalScope.plan plan_reason s (λ t. ⊥)
                  (λ fresh. absurd (cc (sym blocked ∙ fresh))))
              (λ f. absurd (cc (sym e ∙ f)))

    pub approval_gate-Blocks :
        (load : ℕ → Result (List Json)) (first : Json) (rest : List Json)
        → p.loader ≡ some load
        → load s.run_id ≡ returned (first ∷ rest)
        → output_of Agent.alex s.outputs ≡ none
        → Spares watched (approval_gate p s) (λ t. ⊥)
    unfolding approval_gate
    approval_gate-Blocks load first rest given loads absent =
        bind-Spares watched _ _ (λ b. Unit {0}) (λ t. ⊥) (from_result-Spares watched _ _ (λ b. tt))
          λ requires u.
            if-Spares watched (is_some (output_of Agent.alex s.outputs)) _ _ (λ t. ⊥)
              (λ e. absurd (cc (sym e ∙ ap is_some absent)))
              (λ e. plan_gate-Blocks requires load first rest given loads)

  plan_gate-Passes :
      (requires : Bool) (s : RunState) → Spares watched (plan_gate p requires s) (Passes s)
  unfolding plan_gate needs_plan_approval run_has_references
  plan_gate-Passes requires s =
      bind-Spares watched _ _ (λ b. Unit {0}) (Passes s)
        (if-Spares watched requires _ _ (λ b. Unit {0}) (λ e. give-Spares watched true _ tt)
          (λ e.
            bind-Spares watched (load_references p s.run_id) _ (λ l. Unit {0}) (λ b. Unit {0})
              (load_references-Spares watched p s.run_id) (λ l u. give-Spares watched _ _ tt)))
        λ needed u.
          if-Spares watched needed _ _ (Passes s)
            (λ e.
              pass_or_pause-Spares ApprovalScope.plan plan_reason s (Passes s)
                (λ f. record { command = refl; scope = refl }))
            (λ e. give-Spares watched s (Passes s) (record { command = refl; scope = refl }))

  pub approval_gate-Passes : (s : RunState) → Spares watched (approval_gate p s) (Passes s)
  unfolding approval_gate
  approval_gate-Passes s =
      bind-Spares watched _ _ (λ b. Unit {0}) (Passes s) (from_result-Spares watched _ _ (λ b. tt))
        λ requires u.
          if-Spares watched (is_some (output_of Agent.alex s.outputs)) _ _ (Passes s)
            (λ e. give-Spares watched s (Passes s) (record { command = refl; scope = refl }))
            (λ e. plan_gate-Passes requires s)

  may_bypass-Approved :
      (s : RunState)
      → may_bypass ApprovalScope.content s ≡ true
      → (is_approve s.command && has_scope ApprovalScope.content s.approval_scope) ≡ true
  may_bypass-Approved s h = ground (arith, h)

  clash :
      (a j : Json) (has : Bool)
      → p.has_copy_variants a ≡ returned has
      → has ≡ false
      → some a ≡ some j
      → p.has_copy_variants j ≡ returned true
      → ⊥
  clash a j has f g e l = cc

  content_gate-Approved :
      (o : Option Json) (s : RunState)
      → o ≡ output_of Agent.adrian s.outputs
      → Spares watched (content_gate p o s) (Approved p s)
  unfolding content_gate
  content_gate-Approved none s e = give-Spares watched s (Approved p s) (record {
    passes = record { command = refl; scope = refl };
    approved = λ j f has. absurd (cc (e ∙ f));
  })
  content_gate-Approved (some adrian) s e =
      bind-Spares watched _ _ (λ b. p.has_copy_variants adrian ≡ returned b) (Approved p s)
        (from_result-eq (p.has_copy_variants adrian))
        λ has f.
          if-Spares watched has _ _ (Approved p s)
            (λ g.
              pass_or_pause-Spares ApprovalScope.content content_reason s (Approved p s) (λ fresh.
                record {
                  passes = record { command = refl; scope = refl };
                  approved = λ j k l. may_bypass-Approved s fresh;
                }))
            (λ g. give-Spares watched s (Approved p s) (record {
              passes = record { command = refl; scope = refl };
              approved = λ j k l. absurd (clash adrian j has f g (e ∙ k) l);
            }))

  pub content_approval_gate-Approved :
      (s : RunState) → Spares watched (content_approval_gate p s) (Approved p s)
  unfolding content_approval_gate
  content_approval_gate-Approved s = content_gate-Approved (output_of Agent.adrian s.outputs) s refl
