-- ===== src/Worker/Graph/Routes.antt =====
-- enforceDeterministicSeoChecks, and what it asks of Sarah's output.
use atoms_platform.Common.{
  suc, ◌≡◌, refl, sym, ap, ◌∙◌, subst, String, Bool, true, false, not, ◌&&◌, ◌↔◌, List, [], ◌∷◌,
  ◌==◌, if◌then◌else◌, length, keep, All, str_eq, eq_iff, eq_refl, arith, inl, inr, Bool-cases, ltb,
}
use atoms_platform.Worker.Agents.{
  SeoPackage, has_text, to_set, missing_route_metadata, given_urls, count_of, duplicate_canonicals,
  passes_seo_checks,
}

-- No text occurs twice.
abbrev pub Distinct : List String → Type 0
Distinct [] = Unit
Distinct (t ∷ rest) = (has_text t rest ≡ false) × Distinct rest

none_kept :
    (test : String → Bool) (texts : List String)
    → (length (keep test texts) == 0) ≡ true
    → All (λ t. test t ≡ false) texts
none_kept test [] h = tt
none_kept test (t ∷ rest) h = elim (Bool-cases (test t)) [
  | inl hit ↦ absurd (nonempty (test t) t test rest hit h)
  | inr miss ↦ (
    miss,
    none_kept test rest (
        subst (λ b. (length (if b then t ∷ keep test rest else keep test rest) == 0) ≡ true) miss
          h),
  )
]
  where
    nonempty :
        (b : Bool) (t : String) (test : String → Bool) (rest : List String)
        → b ≡ true
        → (length (if b then t ∷ keep test rest else keep test rest) == 0) ≡ true
        → ⊥
    nonempty b t test rest hit h = ground (arith, h, hit)

length-keep_none :
    (test : String → Bool) (texts : List String)
    → All (λ t. test t ≡ false) texts
    → (length (keep test texts) == 0) ≡ true
length-keep_none test [] h = refl
length-keep_none test (t ∷ rest) (h, k) = rw h (length-keep_none test rest k)

All-map :
    (P Q : String → Type 0) (texts : List String)
    → ((t : String) → P t → Q t)
    → All P texts
    → All Q texts
All-map P Q [] f h = tt
All-map P Q (t ∷ rest) f (h, k) = (f t h, All-map P Q rest f k)

All-keep :
    (P : String → Type 0) (test : String → Bool) (texts : List String)
    → All P texts
    → All P (keep test texts)
All-keep P test [] h = tt
All-keep P test (t ∷ rest) (h, k) = elim (Bool-cases (test t)) [
  | inl hit ↦ rw hit (h, All-keep P test rest k)
  | inr miss ↦ rw miss (All-keep P test rest k)
]

-- Dropping the copies of a text that has the property loses nothing.
All-others :
    (P : String → Type 0) (t : String) (texts : List String)
    → P t
    → All P (keep (λ u. not (str_eq u t)) texts)
    → All P texts
All-others P t [] p h = tt
All-others P t (u ∷ rest) p h = elim (Bool-cases (str_eq u t)) [
  | inl same ↦ (
    subst P (sym ((eq_iff u t).0 same)) p,
    All-others P t rest p (subst (kept u) (ap not same) h),
  )
  | inr other ↦ let (q, k) = subst (kept u) (ap not other) h in (q, All-others P t rest p k)
]
  where
    kept : String → Bool → Type 0
    kept u b =
        All P
          (if b then u ∷ keep (λ v. not (str_eq v t)) rest else keep (λ v. not (str_eq v t)) rest)

All-to_set : (P : String → Type 0) (texts : List String) → All P texts ↔ All P (to_set texts)
unfolding to_set
All-to_set P [] = (λ h. h, λ h. h)
All-to_set P (t ∷ rest) = (
  λ h. (h.0, All-keep P _ (to_set rest) ((All-to_set P rest).0 h.1)),
  λ h. (h.0, (All-to_set P rest).1 (All-others P t (to_set rest) h.0 h.1)),
)

count_of-absent :
    (t : String) (texts : List String) → (count_of t texts ≡ 0) ↔ (has_text t texts ≡ false)
unfolding count_of
count_of-absent t [] = (λ h. refl, λ h. refl)
count_of-absent t (u ∷ rest) = ground (arith, count_of-absent t rest)

str_eq_sym : (t u : String) → str_eq t u ≡ false → str_eq u t ≡ false
str_eq_sym t u h = elim (Bool-cases (str_eq u t)) [
  | inl same ↦ absurd (cc (sym h ∙ (eq_iff t u).1 (sym ((eq_iff u t).0 same))))
  | inr other ↦ other
]

All-apart :
    (t : String) (P Q : String → Type 0) (texts : List String)
    → has_text t texts ≡ false
    → All P texts
    → ((u : String) → str_eq u t ≡ false → P u → Q u)
    → All Q texts
All-apart t P Q [] absent h f = tt
All-apart t P Q (u ∷ rest) absent (h, k) f =
    (f u (ground (arith, absent)) h, All-apart t P Q rest (ground (arith, absent)) k f)

-- A text that does not occur more than once.
abbrev IsSingle : List String → String → Type 0
IsSingle texts t = ltb 1 (count_of t texts) ≡ false

count_of-head : (t : String) (rest : List String) → count_of t (t ∷ rest) ≡ suc (count_of t rest)
unfolding count_of
count_of-head t rest = rw (eq_refl t) refl

IsSingle-tail : (t u : String) (rest : List String) → IsSingle (t ∷ rest) u → IsSingle rest u
unfolding count_of
IsSingle-tail t u rest h = ground (arith, h)

IsSingle-other :
    (t u : String) (rest : List String)
    → str_eq t u ≡ false
    → IsSingle rest u
    → IsSingle (t ∷ rest) u
unfolding count_of
IsSingle-other t u rest other h = rw other h

IsSingle-Distinct : (texts : List String) → All (IsSingle texts) texts ↔ Distinct texts
IsSingle-Distinct [] = (λ h. h, λ h. h)
IsSingle-Distinct (t ∷ rest) = (
  λ h. (
    (count_of-absent t rest).0 (ground (arith, h.0, count_of-head t rest)),
    (IsSingle-Distinct rest).0
        (All-map (IsSingle (t ∷ rest)) (IsSingle rest) rest (λ u. IsSingle-tail t u rest) h.1),
  ),
  λ h. (
    ground (arith, (count_of-absent t rest).1 h.0, count_of-head t rest),
    All-apart t (IsSingle rest) (IsSingle (t ∷ rest)) rest h.0 ((IsSingle-Distinct rest).1 h.1)
        (λ u other k. IsSingle-other t u rest (str_eq_sym u t other) k),
  ),
)

and_iff : (a b : Bool) → ((a && b) ≡ true) ↔ ((a ≡ true) × (b ≡ true))
and_iff a b = ground arith

-- The checks of Sarah's output pass exactly if every route that Bob planned has metadata, and no
-- canonical URL is given twice.
pub passes_seo_checks_iff :
    (planned : List String) (seo : SeoPackage)
    → (passes_seo_checks planned seo ≡ true) ↔ (
        All (λ path. has_text path seo.route_paths ≡ true) planned
        × Distinct (given_urls seo.canonical_urls))
passes_seo_checks_iff planned seo = (
  λ h.
      let (covered, single) =
        (and_iff (length (missing_route_metadata planned seo.route_paths) == 0)
            (length (duplicate_canonicals urls) == 0)).0
          h in
      (
        All-map (Missing false) Covered planned (λ t k. ground (arith, k))
            ((All-to_set (Missing false) planned).1 (none_kept _ (to_set planned) covered)),
        (IsSingle-Distinct urls).0
            ((All-to_set (IsSingle urls) urls).1 (none_kept _ (to_set urls) single)),
      ),
  λ (covered, distinct).
      (and_iff (length (missing_route_metadata planned seo.route_paths) == 0)
          (length (duplicate_canonicals urls) == 0)).1
        (
          length-keep_none _ (to_set planned) (
              (All-to_set (Missing false) planned).0
                (All-map Covered (Missing false) planned (λ t k. ground (arith, k)) covered)),
          length-keep_none _ (to_set urls)
              ((All-to_set (IsSingle urls) urls).0 ((IsSingle-Distinct urls).1 distinct)),
        ),
)
  where
    urls : List String
    urls = given_urls seo.canonical_urls

    Missing : Bool → String → Type 0
    Missing b path = not (has_text path seo.route_paths) ≡ b

    Covered : String → Type 0
    Covered path = has_text path seo.route_paths ≡ true
