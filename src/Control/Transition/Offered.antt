-- ===== src/Control/Transition/Offered.antt =====
-- `resolveRunTransition` and `availableRunActions` side by side.
use atoms_platform.Common.{
  Bool, keep, inl, inr, Bool-cases, subst, sym, ap, ◌∙◌, refl, ℕ, ◌≡◌, ◌↔◌, ◌⊎◌, ◌≢◌, true, false,
  none, some, List, [], ◌∷◌, arith,
}
use atoms_platform.Store.{RunStatus, pending, is_final}
use atoms_platform.Control.Transition.{
  RunAction, pause, resume, approve, cancel, retry, is_control, run_controls, Transition,
  resolve_run_transition, available_run_actions,
}

-- The action is among the listed ones.
abbrev pub Offers : RunAction → List RunAction → Type 0
Offers a [] = ⊥
Offers a (b ∷ bs) = (a ≡ b) ⊎ Offers a bs

available_accepted :
    (action : RunAction) (status : RunStatus) (now : ℕ)
    → Offers action (available_run_actions status)
      ↔ (resolve_run_transition action status now ≢ none)
unfolding resolve_run_transition available_run_actions
available_accepted pause pending now = (λ o e. ground arith, λ n. ground arith)
available_accepted a s now = (λ o e. ground arith, λ n. ground arith)

Offers-keep :
    (test : RunAction → Bool) (a : RunAction) (bs : List RunAction)
    → Offers a (keep test bs) ↔ (Offers a bs × (test a ≡ true))
Offers-keep test a [] = (λ h. absurd h, λ h. absurd h.0)
Offers-keep test a (b ∷ bs) = elim (Bool-cases (test b)) [
  | inl hit ↦ rw hit (
    λ o. elim o [
      | inl same ↦ (inl same, subst (λ c. test c ≡ true) (sym same) hit)
      | inr rest ↦ let k = (Offers-keep test a bs).0 rest in (inr k.0, k.1)
    ],
    λ h. elim h.0 [ inl same ↦ inl same | inr rest ↦ inr ((Offers-keep test a bs).1 (rest, h.1)) ],
  )
  | inr miss ↦ rw miss (
    λ o. let k = (Offers-keep test a bs).0 o in (inr k.0, k.1),
    λ h. elim h.0 [
      | inl same ↦ absurd (cc (sym h.1 ∙ (ap test same ∙ miss)))
      | inr rest ↦ (Offers-keep test a bs).1 (rest, h.1)
    ],
  )
]

is_control_iff :
    (requires : Bool) (a : RunAction)
    → (is_control requires a ≡ true) ↔ ((a ≢ approve) × (requires ≡ true → a ≢ resume))
is_control_iff requires pause = (λ h. (λ e. ground arith, λ r e. ground arith), λ h. refl)
is_control_iff true resume = (λ h. ground arith, λ h. absurd (h.1 refl refl))
is_control_iff false resume = (λ h. (λ e. ground arith, λ r e. ground arith), λ h. refl)
is_control_iff requires approve = (λ h. ground arith, λ h. absurd (h.0 refl))
is_control_iff requires cancel = (λ h. (λ e. ground arith, λ r e. ground arith), λ h. refl)
is_control_iff requires retry = (λ h. (λ e. ground arith, λ r e. ground arith), λ h. refl)

-- The actions that the client lets through in a status are exactly those that the control plane
-- accepts in it, and the buttons of its run controls are exactly these without to approve, and
-- without to resume where an approval is asked for.
pub available_iff :
    (action : RunAction) (status : RunStatus) (requires_approval : Bool) (now : ℕ)
    → (Offers action (available_run_actions status)
        ↔ (resolve_run_transition action status now ≢ none))
      × (Offers action (run_controls status requires_approval) ↔ (
          (resolve_run_transition action status now ≢ none)
          × ((action ≢ approve) × (requires_approval ≡ true → action ≢ resume))))
unfolding run_controls
available_iff action status requires now =
    let kept = Offers-keep (is_control requires) action (available_run_actions status) in
    let accepted = available_accepted action status now in
    let shown = is_control_iff requires action in
    (
      accepted,
      (
        λ o. (accepted.0 (kept.0 o).0, shown.0 (kept.0 o).1),
        λ h. kept.1 (accepted.1 h.0, shown.1 h.1),
      ),
    )

-- An accepted transition starts from a status that is not final and goes to another one, and a job
-- is queued exactly when the run becomes PENDING.
pub resolve_open :
    (action : RunAction) (status : RunStatus) (now : ℕ) (t : Transition)
    → resolve_run_transition action status now ≡ some t
    → (is_final status ≡ false)
      × ((t.enqueue ≡ true) ↔ (t.patch.status ≡ pending))
      × (t.patch.status ≢ status)
unfolding resolve_run_transition
resolve_open pause status now t e =
    (ground arith, (λ q. ground arith, λ q. ground arith), λ q. ground arith)
resolve_open a status now t e =
    (ground arith, (λ q. ground arith, λ q. ground arith), λ q. ground arith)
