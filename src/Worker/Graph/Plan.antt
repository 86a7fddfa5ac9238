-- ===== src/Worker/Graph/Plan.antt =====
-- The whole graph: what runs without an approval of the plan, and without one of the content.
use atoms_platform.Common.{
  ℕ, ◌≡◌, refl, ◌∙◌, ap, subst, Bool, true, false, none, some, List, ◌∷◌, ◌&&◌, keep,
}
use atoms_platform.Store.{Agent, ApprovalScope, Json}
use atoms_platform.Worker.Jobs.{World, Result, returned, raised, ◌>>=◌}
use atoms_platform.Worker.Jobs.Spares.{Ends, Spares, bind-Spares, weaken-Spares}
use atoms_platform.Worker.Agents.{Ports, RunState, same_agent, output_of}
use atoms_platform.Worker.Graph.{
  agent_node, is_approve, has_scope, may_bypass, plan_nodes, build_nodes, run_graph,
}
use atoms_platform.Worker.Graph.Gates.{
  Follows, Passes, Approved, agent_node-Spares, approval_gate-Blocks, approval_gate-Passes,
  content_approval_gate-Approved,
}

-- The agents after the plan gate, which write code, migrations and copy.
abbrev pub builds : Agent → Bool
builds Agent.alex = true
builds Agent.david = true
builds Agent.sarah = true
builds Agent.adrian = true
builds _ = false

abbrev nobody : Agent → Bool
nobody agent = false

abbrev pub IsRaised : {A : Type 0} → Result A → Type 0
IsRaised (returned a) = ⊥
IsRaised (raised e) = Unit

module _ (p : Ports) where
  -- The state at the plan gate: the run that was started, no approval of the plan, and no code yet.
  record Unapproved (s t : RunState) : Type 0 where
    run : t.run_id ≡ s.run_id
    blocked : may_bypass ApprovalScope.plan t ≡ false
    absent : output_of Agent.alex t.outputs ≡ none

  plan_node :
      (agent : Agent) (s t : RunState)
      → builds agent ≡ false
      → same_agent agent Agent.alex ≡ false
      → Unapproved s t
      → Spares builds (agent_node p agent t) (Unapproved s)
  plan_node agent s t apart other h =
      weaken-Spares builds _ (Follows agent t) (Unapproved s)
        (agent_node-Spares builds p agent t apart)
        λ u f. record {
          run = f.run ∙ h.run;
          blocked = rw (f.command, f.scope, f.consumed) h.blocked;
          absent = f.other_outputs Agent.alex other ∙ h.absent;
        }

  plan_nodes-Unapproved :
      (s : RunState) → Unapproved s s → Spares builds (plan_nodes p s) (Unapproved s)
  unfolding plan_nodes
  plan_nodes-Unapproved s h =
      bind-Spares builds _ _ (Unapproved s) (Unapproved s)
        (bind-Spares builds _ _ (Unapproved s) (Unapproved s)
          (bind-Spares builds _ _ (Unapproved s) (Unapproved s)
            (plan_node Agent.sophia s s refl refl h) (λ t k. plan_node Agent.mike s t refl refl k))
          (λ t k. plan_node Agent.emma s t refl refl k))
        (λ t k. plan_node Agent.bob s t refl refl k)

  run_graph-Blocks :
      (s : RunState) (load : ℕ → Result (List Json)) (first : Json) (rest : List Json)
      → p.loader ≡ some load
      → load s.run_id ≡ returned (first ∷ rest)
      → Unapproved s s
      → Spares builds (run_graph p s) (λ t. ⊥)
  unfolding run_graph
  run_graph-Blocks s load first rest given loads h =
      bind-Spares builds _ _ (λ t. ⊥) (λ t. ⊥)
        (bind-Spares builds _ _ (λ t. ⊥) (λ t. ⊥)
          (bind-Spares builds _ _ (Unapproved s) (λ t. ⊥) (plan_nodes-Unapproved s h)
            (λ t k.
              approval_gate-Blocks builds p t k.blocked load first rest given
                (ap load k.run ∙ loads) k.absent))
          (λ t k. absurd k))
        (λ t k. absurd k)

  Ends-Blocked :
      (w : World) (o : Result RunState × World)
      → Ends builds (λ t. ⊥) w o
      → (keep builds o.1.calls ≡ keep builds w.calls) × IsRaised o.0
  Ends-Blocked w (returned t, w') (same, h) = absurd h
  Ends-Blocked w (raised e, w') h = (h.0, tt)

  -- A run that carries references, whose job is no unused approval of the plan and whose
  -- restored outputs have no code of Alex: whatever the agents answer, and whatever other connections commit, the graph ends in an error and has called
  -- neither Alex nor David, Sarah or Adrian.
  pub references_need_approval :
      (s : RunState) (w : World) (load : ℕ → Result (List Json)) (first : Json) (rest : List Json)
      → p.loader ≡ some load
      → load s.run_id ≡ returned (first ∷ rest)
      → may_bypass ApprovalScope.plan s ≡ false
      → output_of Agent.alex s.outputs ≡ none
      → (keep builds (run_graph p s w).1.calls ≡ keep builds w.calls) × IsRaised (run_graph p s w).0
  references_need_approval s w load first rest given loads blocked absent =
      Ends-Blocked w (run_graph p s w) (
        (run_graph-Blocks s load first rest given loads
            (record { run = refl; blocked = blocked; absent = absent })).runs
          w)

  Passes-trans : (s t u : RunState) → Passes s t → Passes t u → Passes s u
  Passes-trans s t u h k = record { command = k.command ∙ h.command; scope = k.scope ∙ h.scope }

  Approved-from : (s t u : RunState) → Passes s t → Approved p t u → Approved p s u
  Approved-from s t u h k = record {
    passes = Passes-trans s t u h k.passes;
    approved = λ j f has. rw (← h.command, ← h.scope) (k.approved j f has);
  }

  Passes-follow : (agent : Agent) (s t u : RunState) → Passes s t → Follows agent t u → Passes s u
  Passes-follow agent s t u h f = record {
    command = f.command ∙ h.command;
    scope = f.scope ∙ h.scope;
  }

  passing_node :
      (agent : Agent) (s t : RunState)
      → Passes s t
      → Spares nobody (agent_node p agent t) (Passes s)
  passing_node agent s t h =
      weaken-Spares nobody _ (Follows agent t) (Passes s) (agent_node-Spares nobody p agent t refl)
        λ u f. Passes-follow agent s t u h f

  four_nodes :
      (a b c d : Agent) (s t : RunState)
      → Passes s t
      → Spares nobody
          (agent_node p a t >>= agent_node p b >>= agent_node p c >>= agent_node p d)
          (Passes s)
  four_nodes a b c d s t h =
      bind-Spares nobody _ _ (Passes s) (Passes s)
        (bind-Spares nobody _ _ (Passes s) (Passes s)
          (bind-Spares nobody _ _ (Passes s) (Passes s) (passing_node a s t h) (passing_node b s))
          (passing_node c s))
        (passing_node d s)

  run_graph-Approved : (s : RunState) → Spares nobody (run_graph p s) (Approved p s)
  unfolding run_graph plan_nodes build_nodes
  run_graph-Approved s =
      bind-Spares nobody _ _ (Passes s) (Approved p s)
        (bind-Spares nobody _ _ (Passes s) (Passes s)
          (bind-Spares nobody _ _ (Passes s) (Passes s)
            (four_nodes Agent.sophia Agent.mike Agent.emma Agent.bob s s
              (record { command = refl; scope = refl }))
            (λ t h.
              weaken-Spares nobody _ (Passes t) (Passes s) (approval_gate-Passes nobody p t)
                (λ u k. Passes-trans s t u h k)))
          (λ t h. four_nodes Agent.alex Agent.david Agent.sarah Agent.adrian s t h))
        (λ t h.
          weaken-Spares nobody _ (Approved p t) (Approved p s)
            (content_approval_gate-Approved nobody p t) (λ u k. Approved-from s t u h k))

  Ends-Approved :
      (s t : RunState) (w w' : World) (o : Result RunState × World)
      → Ends nobody (Approved p s) w o
      → o ≡ (returned t, w')
      → Approved p s t
  Ends-Approved s t w w' o h e = (subst (Ends nobody (Approved p s) w) e h).1

  -- If the graph returns and Adrian's output has copy variants, then the job approves the content:
  -- an approval of the plan, or no approval, never lets copy through.
  pub copy_needs_approval :
      (s t : RunState) (w w' : World) (j : Json)
      → run_graph p s w ≡ (returned t, w')
      → output_of Agent.adrian t.outputs ≡ some j
      → p.has_copy_variants j ≡ returned true
      → (is_approve s.command && has_scope ApprovalScope.content s.approval_scope) ≡ true
  copy_needs_approval s t w w' j e found has =
      (Ends-Approved s t w w' (run_graph p s w) ((run_graph-Approved s).runs w) e).approved j found
        has
