-- ===== src/Worker/Routes/Missing.antt =====
-- findMissingRoutes against what a missing route is.
use atoms_platform.Common.{
  ℕ, ◌≡◌, refl, sym, ap, ◌∙◌, Bool, true, false, not, ◌&&◌, ◌||◌, List, [], ◌∷◌, ◌==◌, map, All,
  subst, if◌then◌else◌, inl, inr, Bool-cases, arith,
}
use atoms_platform.Worker.Routes.{
  Chars, PlannedRoute, same_chars, has_route, is_absolute, normal_of, missing_routes_from,
  find_missing_routes, uses_file_routing, served_routes,
}

-- No route occurs twice.
abbrev pub DistinctRoutes : List Chars → Type 0
DistinctRoutes [] = Unit
DistinctRoutes (r ∷ rest) = (has_route r rest ≡ false) × DistinctRoutes rest

-- An absolute planned route that no file serves, apart from those seen before.
abbrev pub IsUnserved : (served seen : List Chars) → PlannedRoute → Type 0
IsUnserved served seen r =
    (is_absolute r.path ≡ true)
    × (has_route (normal_of r) served ≡ false)
    × (has_route (normal_of r) seen ≡ false)

-- A route that is relative, served, seen before, or among those given.
abbrev pub IsAccounted : (served seen given : List Chars) → PlannedRoute → Type 0
IsAccounted served seen given r =
    (not (is_absolute r.path)
      || has_route (normal_of r) served
      || has_route (normal_of r) seen
      || has_route (normal_of r) given)
    ≡ true

same_chars_refl : (s : Chars) → same_chars s s ≡ true
same_chars_refl [] = refl
same_chars_refl (c ∷ s) = rw (same c) (same_chars_refl s)
  where
    same : (c : ℕ) → (c == c) ≡ true
    same c = ground arith

same_chars_sym : (s t : Chars) → same_chars s t ≡ same_chars t s
same_chars_sym [] [] = refl
same_chars_sym [] (c ∷ t) = refl
same_chars_sym (c ∷ s) [] = refl
same_chars_sym (c ∷ s) (d ∷ t) =
    ap (λ b. b && same_chars s t) (flip c d) ∙ ap (λ b. (d == c) && b) (same_chars_sym s t)
  where
    flip : (c d : ℕ) → (c == d) ≡ (d == c)
    flip c d = ground arith

refused_parts : (a b c : Bool) → (not a || b || c) ≡ false → (a ≡ true) × (b ≡ false) × (c ≡ false)
refused_parts true false false h = (refl, refl, refl)
refused_parts true false true h = ground (arith, h)
refused_parts true true c h = ground (arith, h)
refused_parts false b c h = ground (arith, h)

false_of_or : (a b : Bool) → (a || b) ≡ false → (a ≡ false) × (b ≡ false)
false_of_or false b h = (refl, h)
false_of_or true b h = ground (arith, h)

accounted_before : (a b c d : Bool) → (a || b || c) ≡ true → (a || b || c || d) ≡ true
accounted_before true b c d h = refl
accounted_before false true c d h = refl
accounted_before false false true d h = refl
accounted_before false false false d h = ground (arith, h)

accounted_now : (a b c d : Bool) → d ≡ true → (a || b || c || d) ≡ true
accounted_now true b c d h = refl
accounted_now false true c d h = refl
accounted_now false false true d h = refl
accounted_now false false false d h = h

accounted_moved :
    (a b c d e : Bool) → (a || b || (c || d) || e) ≡ true → (a || b || d || (c || e)) ≡ true
accounted_moved true b c d e h = refl
accounted_moved false true c d e h = refl
accounted_moved false false c true e h = refl
accounted_moved false false true false e h = refl
accounted_moved false false false false e h = h

or_left : (a b : Bool) → a ≡ true → (a || b) ≡ true
or_left true b h = refl
or_left false b h = ground (arith, h)

All-map :
    (P Q : PlannedRoute → Type 0) (rs : List PlannedRoute)
    → ((r : PlannedRoute) → P r → Q r)
    → All P rs
    → All Q rs
All-map P Q [] f h = tt
All-map P Q (r ∷ rs) f (h, k) = (f r h, All-map P Q rs f k)

-- A route that the routes have been compared with is none of them.
unseen :
    (served seen : List Chars) (n : Chars) (rs : List PlannedRoute)
    → All (IsUnserved served (n ∷ seen)) rs
    → has_route n (map normal_of rs) ≡ false
unseen served seen n [] h = refl
unseen served seen n (r ∷ rs) ((absolute, unserved, new), k) =
    ap (λ b. b || has_route n (map normal_of rs))
      (same_chars_sym n (normal_of r)
        ∙ (false_of_or (same_chars (normal_of r) n) (has_route (normal_of r) seen) new).0)
    ∙ unseen served seen n rs k

module _ (served : List Chars) where
  abbrev past : List Chars → PlannedRoute → Bool
  past seen r =
      not (is_absolute r.path) || has_route (normal_of r) served || has_route (normal_of r) seen

  missing_past :
      (seen : List Chars) (r : PlannedRoute) (planned : List PlannedRoute)
      → past seen r ≡ true
      → missing_routes_from served seen (r ∷ planned) ≡ missing_routes_from served seen planned
  unfolding missing_routes_from
  missing_past seen r planned h =
      ap
        (λ b. elim b [
          | true ↦ missing_routes_from served seen planned
          | false ↦ r ∷ missing_routes_from served (normal_of r ∷ seen) planned
        ])
        h

  missing_fresh :
      (seen : List Chars) (r : PlannedRoute) (planned : List PlannedRoute)
      → past seen r ≡ false
      → missing_routes_from served seen (r ∷ planned)
        ≡ r ∷ missing_routes_from served (normal_of r ∷ seen) planned
  unfolding missing_routes_from
  missing_fresh seen r planned h =
      ap
        (λ b. elim b [
          | true ↦ missing_routes_from served seen planned
          | false ↦ r ∷ missing_routes_from served (normal_of r ∷ seen) planned
        ])
        h

  missing_none : (seen : List Chars) → missing_routes_from served seen [] ≡ []
  unfolding missing_routes_from
  missing_none seen = refl

  -- What holds of no route, and is kept by either branch, holds of the missing routes.
  missing-elim :
      (P : List Chars → List PlannedRoute → List PlannedRoute → Type 0)
      → ((seen : List Chars) → P seen [] [])
      → ((seen : List Chars) (r : PlannedRoute) (planned ms : List PlannedRoute)
          → past seen r ≡ true
          → P seen planned ms
          → P seen (r ∷ planned) ms)
      → ((seen : List Chars) (r : PlannedRoute) (planned ms : List PlannedRoute)
          → past seen r ≡ false
          → P (normal_of r ∷ seen) planned ms
          → P seen (r ∷ planned) (r ∷ ms))
      → (seen : List Chars) (planned : List PlannedRoute)
      → P seen planned (missing_routes_from served seen planned)
  missing-elim P done skips keeps seen [] = subst (P seen []) (sym (missing_none seen)) (done seen)
  missing-elim P done skips keeps seen (r ∷ planned) = elim (Bool-cases (past seen r)) [
    | inl h ↦
        subst (P seen (r ∷ planned)) (sym (missing_past seen r planned h))
          (skips seen r planned _ h (missing-elim P done skips keeps seen planned))
    | inr h ↦
        subst (P seen (r ∷ planned)) (sym (missing_fresh seen r planned h))
          (keeps seen r planned _ h (missing-elim P done skips keeps (normal_of r ∷ seen) planned))
  ]

  Missing-Unserved :
      (seen : List Chars) (planned : List PlannedRoute)
      → All (IsUnserved served seen) (missing_routes_from served seen planned)
        × DistinctRoutes (map normal_of (missing_routes_from served seen planned))
  Missing-Unserved =
      missing-elim
        (λ seen planned ms. All (IsUnserved served seen) ms × DistinctRoutes (map normal_of ms))
        (λ seen. (tt, tt)) (λ seen r planned ms h k. k)
        λ seen r planned ms h k. (
          (
            refused_parts _ _ _ h,
            All-map (IsUnserved served (normal_of r ∷ seen)) (IsUnserved served seen) ms
                (λ s (absolute, unserved, new). (
                  absolute,
                  unserved,
                  (false_of_or (same_chars (normal_of s) (normal_of r)) _ new).1,
                ))
                k.0,
          ),
          (unseen served seen (normal_of r) ms k.0, k.1),
        )

  Missing-Accounted :
      (seen : List Chars) (planned : List PlannedRoute)
      → All
          (IsAccounted served seen (map normal_of (missing_routes_from served seen planned)))
          planned
  Missing-Accounted =
      missing-elim (λ seen planned ms. All (IsAccounted served seen (map normal_of ms)) planned)
        (λ seen. tt)
        (λ seen r planned ms h k. (
          accounted_before (not (is_absolute r.path)) (has_route (normal_of r) served)
              (has_route (normal_of r) seen) _ h,
          k,
        ))
        λ seen r planned ms h k. (
          accounted_now (not (is_absolute r.path)) (has_route (normal_of r) served)
              (has_route (normal_of r) seen) _
              (or_left (same_chars (normal_of r) (normal_of r)) _ (same_chars_refl (normal_of r))),
          All-map (IsAccounted served (normal_of r ∷ seen) (map normal_of ms)) _ planned
              (λ s.
                accounted_moved (not (is_absolute s.path)) (has_route (normal_of s) served)
                  (same_chars (normal_of s) (normal_of r)) (has_route (normal_of s) seen)
                  (has_route (normal_of s) (map normal_of ms)))
              k,
        )

-- For a project with file routing, the missing routes are absolute, served by no file and distinct
-- when normalized, and every planned route that is absolute and not served is among them when normalized.
pub find_missing_routes-Complete :
    (planned : List PlannedRoute) (files : List Chars)
    → uses_file_routing files ≡ true
    → All (IsUnserved (served_routes files) []) (find_missing_routes planned files)
      × DistinctRoutes (map normal_of (find_missing_routes planned files))
      × All
          (IsAccounted (served_routes files) [] (map normal_of (find_missing_routes planned files)))
          planned
unfolding find_missing_routes
find_missing_routes-Complete planned files routed =
    subst
      (λ b.
        let ms = if b then missing_routes_from (served_routes files) [] planned else [] in
        All (IsUnserved (served_routes files) []) ms
        × DistinctRoutes (map normal_of ms)
        × All (IsAccounted (served_routes files) [] (map normal_of ms)) planned)
      (sym routed)
      (
        (Missing-Unserved (served_routes files) [] planned).0,
        (Missing-Unserved (served_routes files) [] planned).1,
        Missing-Accounted (served_routes files) [] planned,
      )
