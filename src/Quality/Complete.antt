-- ===== src/Quality/Complete.antt =====
-- The coverage that a READY assessment reports, as schema.ts demands of it.
use atoms_platform.Common.{
  ℕ, ◌≡◌, refl, sym, subst, false, Bool, true, not, ◌&&◌, inl, inr, List, [], ◌∷◌, keep, map, All,
  Bool-cases,
}
use mathlib.Core.List.Perm
use mathlib.Core.List.{Perm}
use atoms_platform.Quality.{
  Coverage, insert, Evidence, Input, ready, Orders, is_empty, all_passed, usable_evidence, sorted,
  coverage, covers_check, covers_criterion, matching_criterion, criteria_of, evaluate_release,
}
use atoms_platform.Quality.Ready.{
  HasEvidence, IsSound, All-sorted, HasEvidence-keep, usable_evidence-all, evaluate_release_iff,
}

All-map :
    {A B : Type 0} (P : B → Type 0) (f : A → B) (xs : List A)
    → All (λ a. P (f a)) xs
    → All P (map f xs)
All-map P f [] h = tt
All-map P f (x ∷ xs) (h, k) = (h, All-map P f xs k)

All-weaken :
    {A : Type 0} (P Q : A → Type 0) (xs : List A) → ((a : A) → P a → Q a) → All P xs → All Q xs
All-weaken P Q [] f h = tt
All-weaken P Q (x ∷ xs) f (h, k) = (f x h, All-weaken P Q xs f k)

all_passed-keep :
    (i : Input) (test : Evidence → Bool) (es : List Evidence)
    → All (IsSound i) es
    → all_passed (keep test es) ≡ true
all_passed-keep i test [] h = refl
all_passed-keep i test (e ∷ es) (sound, rest) = elim (Bool-cases (test e)) [
  | inl hit ↦ rw (hit, sound.passes) (all_passed-keep i test es rest)
  | inr miss ↦ rw miss (all_passed-keep i test es rest)
]

covered_by :
    (i : Input) (test : Evidence → Bool)
    → All (IsSound i) i.evidence
    → HasEvidence test i.evidence
    → (not (is_empty (keep test i.evidence)) && all_passed (keep test i.evidence)) ≡ true
covered_by i test sound has =
    rw ((HasEvidence-keep test i.evidence).1 has, all_passed-keep i test i.evidence sound) refl

-- What schema.ts demands of an entry of a READY assessment.
abbrev pub IsCovered : {K : Type 0} → Coverage K → Type 0
IsCovered c = (c.covered ≡ true) × (is_empty c.evidence_ids ≡ false)

insert-Perm :
    {A : Type 0} (before : A → A → Bool) (x : A) (xs : List A) → Perm (insert before x xs) (x ∷ xs)
unfolding insert
insert-Perm before x [] = Perm.refl (x ∷ [])
insert-Perm before x (y ∷ ys) = elim (Bool-cases (before x y)) [
  | inl first ↦ rw first (Perm.refl (x ∷ y ∷ ys))
  | inr later ↦ rw later (Perm.trans (Perm.cons y (insert-Perm before x ys)) (Perm.swap x y ys))
]

sorted-Perm : {A : Type 0} (before : A → A → Bool) (xs : List A) → Perm (sorted before xs) xs
unfolding sorted
sorted-Perm before [] = Perm.refl []
sorted-Perm before (x ∷ xs) =
    Perm.trans (insert-Perm before x (sorted before xs)) (Perm.cons x (sorted-Perm before xs))

map_named :
    {K : Type 0} (f : K → Coverage K) (ks : List K)
    → ((k : K) → (f k).of ≡ k)
    → map (λ c. c.of) (map f ks) ≡ ks
map_named f [] h = refl
map_named f (k ∷ ks) h = rw (h k, map_named f ks h) refl

is_empty-insert :
    {A : Type 0} (before : A → A → Bool) (x : A) (xs : List A)
    → is_empty (insert before x xs) ≡ false
unfolding insert
is_empty-insert before x [] = refl
is_empty-insert before x (y ∷ ys) = elim (Bool-cases (before x y)) [
  | inl first ↦ rw first refl
  | inr later ↦ rw later refl
]

ids_given :
    (before : ℕ → ℕ → Bool) (es : List Evidence)
    → (not (is_empty es) && all_passed es) ≡ true
    → is_empty (sorted before (map (λ e. e.id) es)) ≡ false
unfolding sorted
ids_given before [] h = absurd (cc h)
ids_given before (e ∷ es) h = is_empty-insert before e.id (sorted before (map (λ e. e.id) es))

coverage-IsCovered :
    {K : Type 0} (orders : Orders) (k : K) (es : List Evidence)
    → (not (is_empty es) && all_passed es) ≡ true
    → IsCovered (coverage orders k es)
coverage-IsCovered orders k es h = (h, ids_given orders.ids es h)

-- A report names exactly the keys, each as often as given, and covers every one of them.
abbrev pub Reports : {K : Type 0} → List K → List (Coverage K) → Type 0
Reports ks cs = Perm (map (λ c. c.of) cs) ks × All IsCovered cs

sorted-Reports :
    {K : Type 0} (orders : Orders) (before : K → K → Bool) (records : K → List Evidence)
    (ks : List K)
    → All (λ k. (not (is_empty (records k)) && all_passed (records k)) ≡ true) ks
    → Reports ks (map (λ k. coverage orders k (records k)) (sorted before ks))
sorted-Reports orders before records ks h = (
  subst (λ l. Perm l ks)
      (sym (map_named (λ k. coverage orders k (records k)) (sorted before ks) (λ k. refl)))
      (sorted-Perm before ks),
  All-map IsCovered (λ k. coverage orders k (records k)) (sorted before ks)
      ((All-sorted _ before ks).1
        (All-weaken _ _ ks (λ k. coverage-IsCovered orders k (records k)) h)),
)

module _ (orders : Orders) (i : Input) where
  -- A READY assessment reports exactly the required checks and exactly the criteria of the acceptance,
  -- each as often as it is required, and every one of them as covered: with PASSED and at least one
  -- id of a record.
  pub evaluate_release-covers :
      (evaluate_release orders i).status ≡ ready
      → Reports i.required_checks (evaluate_release orders i).checks
        × Reports (criteria_of i.acceptance) (evaluate_release orders i).trace_to_acceptance
  unfolding evaluate_release
  evaluate_release-covers h =
      let facts = (evaluate_release_iff orders i).0 h in
      let same = usable_evidence-all i i.evidence facts.sound in
      (
        sorted-Reports orders orders.checks (λ k. keep (covers_check k) (usable_evidence i))
            i.required_checks
            (All-weaken _ _ i.required_checks
              (λ k has. rw same (covered_by i (covers_check k) facts.sound has)) facts.checked),
        sorted-Reports orders orders.criteria (matching_criterion i) (criteria_of i.acceptance) (
            All-weaken _ _ (criteria_of i.acceptance)
              (λ c has. rw (facts.agreed, same) (covered_by i (covers_criterion c) facts.sound has))
              facts.attested),
      )
