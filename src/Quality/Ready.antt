-- ===== src/Quality/Ready.antt =====
-- When a release is READY: the evidence that it takes, stated without the evaluation.
use atoms_platform.Common.{
  ℕ, ◌+◌, ◌*◌, ◌≤◌, ◌≡◌, refl, sym, ap, ◌∙◌, String, Bool, true, false, not, ◌↔◌, ◌⊎◌, inl, inr,
  Option, none, some, List, [], ◌∷◌, ◌++◌, if◌then◌else◌, keep, All, arith, Bool-cases, ltb,
}
use atoms_platform.Quality.{
  CheckKind, EvidenceKind, check, acceptance, Evidence, Acceptance, Input, Issue, ready, Orders,
  insert, sorted, unique, same_scope, issue_if, acceptance_issues, count_id, has_criterion,
  criteria_of, is_of_task, unknown_criteria, unknown_criterion, attest_issues, age_issues,
  rejections, is_empty, is_passed, evidence_issues, all_evidence_issues, usable_evidence,
  is_acceptance, covers_check, covers_criterion, matching_criterion, acceptance_matches,
  check_issues, criterion_issues, issues_of, canonical, status_of, evaluate_release,
}

abbrev pub HasEvidence : (Evidence → Bool) → List Evidence → Type 0
HasEvidence test [] = ⊥
HasEvidence test (e ∷ es) = (test e ≡ true) ⊎ HasEvidence test es

-- A record that counts: the only one with its id, of this scope, recent enough, passed, and if it attests
-- criteria then those of the usable_evidence task.
pub record IsSound (i : Input) (e : Evidence) : Type 0 where
  pub alone : count_id e.id i.evidence ≤ 1
  pub in_scope : same_scope i.scope e.scope ≡ true
  pub not_future : e.completed_at ≤ i.evaluated_at
  pub fresh : i.evaluated_at ≤ e.completed_at + i.max_evidence_age_seconds * 1000
  pub attests :
      is_acceptance e.kind ≡ true
      → (is_of_task i.scope i.acceptance e ≡ true)
        × All (λ c. has_criterion c (criteria_of i.acceptance) ≡ true) e.criterion_ids
  pub passes : is_passed e.status ≡ true

pub record IsReady (i : Input) : Type 0 where
  pub agreed : acceptance_matches i.scope i.acceptance ≡ true
  pub sound : All (IsSound i) i.evidence
  pub checked : All (λ k. HasEvidence (covers_check k) i.evidence) i.required_checks
  pub attested : All (λ c. HasEvidence (covers_criterion c) i.evidence) (criteria_of i.acceptance)

module _ {A : Type 0} where
  is_empty-append :
      (xs ys : List A)
      → (is_empty (xs ++ ys) ≡ true) ↔ ((is_empty xs ≡ true) × (is_empty ys ≡ true))
  is_empty-append [] ys = (λ h. (refl, h), λ h. h.1)
  is_empty-append (x ∷ xs) ys = (λ h. absurd (cc), λ h. absurd (cc (h.0)))

  All-insert :
      (P : A → Type 0) (before : A → A → Bool) (x : A) (xs : List A)
      → All P (insert before x xs) ↔ (P x × All P xs)
  unfolding insert
  All-insert P before x [] = (λ h. h, λ h. h)
  All-insert P before x (y ∷ ys) = elim (Bool-cases (before x y)) [
    | inl first ↦ rw first (λ h. h, λ h. h)
    | inr later ↦ rw later (
      λ h. let k = (All-insert P before x ys).0 h.1 in (k.0, (h.0, k.1)),
      λ h. (h.1.0, (All-insert P before x ys).1 (h.0, h.1.1)),
    )
  ]

  pub All-sorted :
      (P : A → Type 0) (before : A → A → Bool) (xs : List A) → All P (sorted before xs) ↔ All P xs
  unfolding sorted
  All-sorted P before [] = (λ h. h, λ h. h)
  All-sorted P before (x ∷ xs) = (
    λ h.
        let k = (All-insert P before x (sorted before xs)).0 h in
        (k.0, (All-sorted P before xs).0 k.1),
    λ h. (All-insert P before x (sorted before xs)).1 (h.0, (All-sorted P before xs).1 h.1),
  )

issue_if-empty : (b : Bool) (issue : Issue) → (is_empty (issue_if b issue) ≡ true) ↔ (b ≡ false)
issue_if-empty true issue = (λ h. absurd (cc (h)), λ h. absurd (cc (h)))
issue_if-empty false issue = (λ h. refl, λ h. refl)

insert-blocks :
    (before : Issue → Issue → Bool) (x : Issue) (xs : List Issue)
    → status_of (insert before x xs) ≡ ready
    → ⊥
unfolding insert
insert-blocks before x [] h = absurd (cc (h))
insert-blocks before x (y ∷ ys) h = blocks (before x y) h
  where
    blocks : (b : Bool) → status_of (if b then x ∷ y ∷ ys else y ∷ insert before x ys) ≡ ready → ⊥
    blocks true k = cc
    blocks false k = cc

canonical-empty :
    (orders : Orders) (issues : List Issue)
    → (status_of (canonical orders issues) ≡ ready) ↔ (is_empty issues ≡ true)
unfolding sorted unique
canonical-empty orders [] = (λ h. refl, λ h. refl)
canonical-empty orders (issue ∷ issues) =
    (λ h. absurd (insert-blocks orders.issues issue _ h), λ h. absurd (cc (h)))

true_of : (b : Bool) → not b ≡ false → b ≡ true
true_of b h = ground (arith, h)

unknown_criteria-empty :
    (id : ℕ) (known cited : List String)
    → (is_empty (unknown_criteria id known cited) ≡ true)
      ↔ All (λ c. has_criterion c known ≡ true) cited
unfolding unknown_criteria
unknown_criteria-empty id known [] = (λ h. tt, λ h. refl)
unknown_criteria-empty id known (c ∷ cs) =
    let step =
      is_empty-append (issue_if (not (has_criterion c known)) (unknown_criterion id c))
        (unknown_criteria id known cs) in
    let rest = unknown_criteria-empty id known cs in
    let head = issue_if-empty (not (has_criterion c known)) (unknown_criterion id c) in
    (
      λ h. (ground (arith, head.0 (step.0 h).0), rest.0 (step.0 h).1),
      λ h. step.1 (head.1 (ground (arith, h.0)), rest.1 h.1),
    )

attest_issues-empty :
    (i : Input) (e : Evidence) (kind : EvidenceKind)
    → (is_empty (attest_issues i e kind) ≡ true) ↔ (
        is_acceptance kind ≡ true
        → (is_of_task i.scope i.acceptance e ≡ true)
          × All (λ c. has_criterion c (criteria_of i.acceptance) ≡ true) e.criterion_ids)
unfolding attest_issues
attest_issues-empty i e (check k) = (λ h f. absurd (cc (f)), λ h. refl)
attest_issues-empty i e acceptance =
    let step =
      is_empty-append
        (issue_if (not (is_of_task i.scope i.acceptance e)) (Issue.acceptance_task_mismatch e.id))
        (unknown_criteria e.id (criteria_of i.acceptance) e.criterion_ids) in
    let head =
      issue_if-empty (not (is_of_task i.scope i.acceptance e))
        (Issue.acceptance_task_mismatch e.id) in
    let rest = unknown_criteria-empty e.id (criteria_of i.acceptance) e.criterion_ids in
    (
      λ h f.
          (true_of (is_of_task i.scope i.acceptance e) (head.0 (step.0 h).0), rest.0 (step.0 h).1),
      λ h. step.1 (head.1 (ap not (h refl).0), rest.1 (h refl).1),
    )

age_issues-empty :
    (i : Input) (e : Evidence)
    → (is_empty (age_issues i e) ≡ true) ↔ (
        (e.completed_at ≤ i.evaluated_at)
        × (i.evaluated_at ≤ e.completed_at + i.max_evidence_age_seconds * 1000))
age_issues-empty i e = ground arith

module _ (i : Input) (e : Evidence) where
  abbrev twice : List Issue
  twice = issue_if (ltb 1 (count_id e.id i.evidence)) (Issue.duplicate_evidence e.id)

  abbrev foreign : List Issue
  foreign = issue_if (not (same_scope i.scope e.scope)) (Issue.evidence_scope_mismatch e.id)

  abbrev unpassed : List Issue
  unpassed = issue_if (not (is_passed e.status)) (Issue.evidence_not_passed e.id)

  parts : (is_empty (evidence_issues i e) ≡ true) ↔ (
      ((is_empty twice ≡ true)
        × (is_empty foreign ≡ true)
        × (is_empty (age_issues i e) ≡ true)
        × (is_empty (attest_issues i e e.kind) ≡ true))
      × (is_empty unpassed ≡ true))
  parts =
      let all = is_empty-append (rejections i e) unpassed in
      let first = is_empty-append twice (foreign ++ (age_issues i e ++ attest_issues i e e.kind)) in
      let second = is_empty-append foreign (age_issues i e ++ attest_issues i e e.kind) in
      let third = is_empty-append (age_issues i e) (attest_issues i e e.kind) in
      (
        λ h.
            let (r, u) = all.0 h in
            let (t, r2) = first.0 r in
            let (f, r3) = second.0 r2 in let (a, b) = third.0 r3 in ((t, f, a, b), u),
        λ ((t, f, a, b), u). all.1 (first.1 (t, second.1 (f, third.1 (a, b))), u),
      )

  pub evidence_issues-empty : (is_empty (evidence_issues i e) ≡ true) ↔ IsSound i e
  evidence_issues-empty = (
    λ h.
        let ((t, f, a, b), u) = parts.0 h in
        record {
          alone = ground (arith, (issue_if-empty _ _).0 t);
          in_scope = true_of _ ((issue_if-empty _ _).0 f);
          not_future = ((age_issues-empty i e).0 a).0;
          fresh = ((age_issues-empty i e).0 a).1;
          attests = (attest_issues-empty i e e.kind).0 b;
          passes = true_of _ ((issue_if-empty _ _).0 u);
        },
    λ h. parts.1 (
      (
        (issue_if-empty _ _).1 (ground (arith, h.alone)),
        (issue_if-empty _ _).1 (ap not h.in_scope),
        (age_issues-empty i e).1 (h.not_future, h.fresh),
        (attest_issues-empty i e e.kind).1 h.attests,
      ),
      (issue_if-empty _ _).1 (ap not h.passes),
    ),
  )

all_evidence_issues-empty :
    (i : Input) (es : List Evidence)
    → (is_empty (all_evidence_issues i es) ≡ true) ↔ All (IsSound i) es
unfolding all_evidence_issues
all_evidence_issues-empty i [] = (λ h. tt, λ h. refl)
all_evidence_issues-empty i (e ∷ es) =
    let step = is_empty-append (evidence_issues i e) (all_evidence_issues i es) in
    let head = evidence_issues-empty i e in
    let rest = all_evidence_issues-empty i es in
    (λ h. (head.0 (step.0 h).0, rest.0 (step.0 h).1), λ h. step.1 (head.1 h.0, rest.1 h.1))

-- With nothing wrong, all evidence is usable_evidence.
pub usable_evidence-all :
    (i : Input) (es : List Evidence)
    → All (IsSound i) es
    → keep (λ e. is_empty (rejections i e)) es ≡ es
usable_evidence-all i [] h = refl
usable_evidence-all i (e ∷ es) (sound, rest) =
    let clean =
      ((is_empty-append (rejections i e) (unpassed i e)).0
        ((evidence_issues-empty i e).1 sound)).0 in
    rw clean (ap (λ l. e ∷ l) (usable_evidence-all i es rest))

pub HasEvidence-keep :
    (test : Evidence → Bool) (es : List Evidence)
    → (is_empty (keep test es) ≡ false) ↔ HasEvidence test es
HasEvidence-keep test [] = (λ h. absurd (cc (h)), λ h. absurd h)
HasEvidence-keep test (e ∷ es) = elim (Bool-cases (test e)) [
  | inl hit ↦ rw hit (λ h. inl refl, λ h. refl)
  | inr miss ↦ rw miss (
    λ h. inr ((HasEvidence-keep test es).0 h),
    λ h. (HasEvidence-keep test es).1 (elim h [ inl x ↦ absurd (cc x) | inr r ↦ r ]),
  )
]

check_issues-empty :
    (i : Input) (ks : List CheckKind)
    → usable_evidence i ≡ i.evidence
    → (is_empty (check_issues i ks) ≡ true) ↔ All (λ k. HasEvidence (covers_check k) i.evidence) ks
unfolding check_issues
check_issues-empty i [] same = (λ h. tt, λ h. refl)
check_issues-empty i (k ∷ ks) same =
    let step =
      is_empty-append
        (issue_if (is_empty (keep (covers_check k) (usable_evidence i))) (Issue.missing_check k))
        (check_issues i ks) in
    let head =
      issue_if-empty (is_empty (keep (covers_check k) (usable_evidence i)))
        (Issue.missing_check k) in
    let has = HasEvidence-keep (covers_check k) i.evidence in
    let rest = check_issues-empty i ks same in
    let at : is_empty (keep (covers_check k) (usable_evidence i))
        ≡ is_empty (keep (covers_check k) i.evidence) =
      ap (λ l. is_empty (keep (covers_check k) l)) same in
    (
      λ h. (has.0 (sym at ∙ head.0 (step.0 h).0), rest.0 (step.0 h).1),
      λ h. step.1 (head.1 (at ∙ has.1 h.0), rest.1 h.1),
    )

criterion_issues-empty :
    (i : Input) (cs : List String)
    → usable_evidence i ≡ i.evidence
    → acceptance_matches i.scope i.acceptance ≡ true
    → (is_empty (criterion_issues i cs) ≡ true)
      ↔ All (λ c. HasEvidence (covers_criterion c) i.evidence) cs
unfolding criterion_issues
criterion_issues-empty i [] same agreed = (λ h. tt, λ h. refl)
criterion_issues-empty i (c ∷ cs) same agreed =
    let step =
      is_empty-append
        (issue_if (is_empty (matching_criterion i c)) (Issue.missing_criterion_evidence c))
        (criterion_issues i cs) in
    let head =
      issue_if-empty (is_empty (matching_criterion i c)) (Issue.missing_criterion_evidence c) in
    let has = HasEvidence-keep (covers_criterion c) i.evidence in
    let rest = criterion_issues-empty i cs same agreed in
    let at : is_empty (matching_criterion i c) ≡ is_empty (keep (covers_criterion c) i.evidence) =
      rw agreed (ap (λ l. is_empty (keep (covers_criterion c) l)) same) in
    (
      λ h. (has.0 (sym at ∙ head.0 (step.0 h).0), rest.0 (step.0 h).1),
      λ h. step.1 (head.1 (at ∙ has.1 h.0), rest.1 h.1),
    )

acceptance_issues-empty :
    (i : Input) (o : Option Acceptance)
    → (is_empty (acceptance_issues i.scope o) ≡ true) ↔ (acceptance_matches i.scope o ≡ true)
acceptance_issues-empty i none = (λ h. absurd (cc (h)), λ h. absurd (cc (h)))
acceptance_issues-empty i (some a) =
    let head = issue_if-empty (not (same_scope i.scope a.scope)) Issue.acceptance_scope_mismatch in
    (λ h. true_of _ (head.0 h), λ h. head.1 (ap not h))

-- The evaluation calls a release READY exactly if its acceptance is that of the scope, every record of
-- evidence is sound and passed, every required check has a record, and every criterion is attested.
pub evaluate_release_iff :
    (orders : Orders) (i : Input) → ((evaluate_release orders i).status ≡ ready) ↔ IsReady i
unfolding evaluate_release
evaluate_release_iff orders i =
    let checks = sorted orders.checks i.required_checks in
    let whole = canonical-empty orders (issues_of orders i) in
    let first = is_empty-append (acceptance_issues i.scope i.acceptance) (
      all_evidence_issues i i.evidence
      ++ (check_issues i checks ++ criterion_issues i (criteria_of i.acceptance))) in
    let second =
      is_empty-append (all_evidence_issues i i.evidence)
        (check_issues i checks ++ criterion_issues i (criteria_of i.acceptance)) in
    let third =
      is_empty-append (check_issues i checks) (criterion_issues i (criteria_of i.acceptance)) in
    let in_order =
      All-sorted (λ k. HasEvidence (covers_check k) i.evidence) orders.checks i.required_checks in
    (
      λ h.
          let (a, r) = first.0 (whole.0 h) in
          let (b, r2) = second.0 r in
          let (c, d) = third.0 r2 in
          let agreed = (acceptance_issues-empty i i.acceptance).0 a in
          let sound = (all_evidence_issues-empty i i.evidence).0 b in
          let same = usable_evidence-all i i.evidence sound in
          record {
            agreed = agreed;
            sound = sound;
            checked = in_order.0 ((check_issues-empty i checks same).0 c);
            attested = (criterion_issues-empty i (criteria_of i.acceptance) same agreed).0 d;
          },
      λ h.
          let same = usable_evidence-all i i.evidence h.sound in
          whole.1 (
            first.1 (
              (acceptance_issues-empty i i.acceptance).1 h.agreed,
              second.1 (
                (all_evidence_issues-empty i i.evidence).1 h.sound,
                third.1 (
                  (check_issues-empty i checks same).1 (in_order.1 h.checked),
                  (criterion_issues-empty i (criteria_of i.acceptance) same h.agreed).1 h.attested,
                ),
              ),
            )),
    )
