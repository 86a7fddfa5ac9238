-- ===== src/Worker/Routes.antt =====
-- apps/orchestrator-worker/src/route-coverage.ts: the planned routes that no generated file serves. A
-- path is the list of its UTF-16 code units.
pub mod Missing
use atoms_platform.Common.{
  ℕ, zero, suc, ◌-◌, Bool, true, false, not, ◌&&◌, ◌||◌, Option, none, some, List, [], ◌∷◌, ◌++◌,
  ◌==◌, leb, if◌then◌else◌, length, take, keep, map,
}

abbrev pub Chars : Type 0
Chars = List ℕ

pub record PlannedRoute : Type 0 where
  pub method : Chars
  pub path : Chars

abbrev pub same_chars : Chars → Chars → Bool
same_chars [] [] = true
same_chars [] (y ∷ ys) = false
same_chars (x ∷ xs) [] = false
same_chars (x ∷ xs) (y ∷ ys) = x == y && same_chars xs ys

abbrev pub starts_with : Chars → Chars → Bool
starts_with [] s = true
starts_with (x ∷ xs) [] = false
starts_with (x ∷ xs) (y ∷ ys) = x == y && starts_with xs ys

abbrev pub skip : ℕ → Chars → Chars
skip zero s = s
skip (suc n) [] = []
skip (suc n) (x ∷ s) = skip n s

abbrev pub ends_with : Chars → Chars → Bool
ends_with suffix s =
    leb (length suffix) (length s) && same_chars (skip (length s - length suffix) s) suffix

-- What stands between a prefix and a suffix.
abbrev pub between : Chars → Chars → Chars → Option Chars
between prefix suffix s =
    let rest = skip (length prefix) s in
    if starts_with prefix s && ends_with suffix rest
    then some (take (length rest - length suffix) rest)
    else none

abbrev pub every : (ℕ → Bool) → Chars → Bool
every test [] = true
every test (c ∷ s) = test c && every test s

abbrev pub is_named : (ℕ → Bool) → Option Chars → Bool
is_named test none = false
is_named test (some []) = false
is_named test (some (c ∷ s)) = test c && every test s

-- `[[...`, `[...`, `[`, `]`, `]]`
abbrev pub open_optional : Chars
open_optional = 91 ∷ 91 ∷ 46 ∷ 46 ∷ 46 ∷ []

abbrev pub open_rest : Chars
open_rest = 91 ∷ 46 ∷ 46 ∷ 46 ∷ []

abbrev pub open_one : Chars
open_one = 91 ∷ []

abbrev pub close_one : Chars
close_one = 93 ∷ []

abbrev pub close_two : Chars
close_two = 93 ∷ 93 ∷ []

-- `[A-Za-z0-9_]`
abbrev pub is_word : ℕ → Bool
is_word c = leb 65 c && leb c 90 || leb 97 c && leb c 122 || leb 48 c && leb c 57 || c == 95

-- The shape of a segment: the name of a dynamic one is forgotten.
unfoldable pub segment_shape : Chars → Chars
segment_shape s =
    if is_named (λ c. not (c == 93)) (between open_optional close_two s)
    then open_optional ++ close_two
    else if is_named (λ c. not (c == 93)) (between open_rest close_one s)
    then open_rest ++ close_one
    else if is_named (λ c. not (c == 93)) (between open_one close_one s)
        || is_named is_word (between (58 ∷ []) [] s)
        || is_named (λ c. not (c == 125)) (between (123 ∷ []) (125 ∷ []) s)
    then open_one ++ close_one
    else s

-- `path.split(/[?#]/u)[0]`
abbrev pub without_query : Chars → Chars
without_query [] = []
without_query (c ∷ s) = let rest = without_query s in if c == 63 || c == 35 then [] else c ∷ rest

abbrev pub onto_first : ℕ → List Chars → List Chars
onto_first c [] = (c ∷ []) ∷ []
onto_first c (s ∷ rest) = (c ∷ s) ∷ rest

-- `s.split("/")`
abbrev pub segments : Chars → List Chars
segments [] = [] ∷ []
segments (c ∷ s) = let rest = segments s in if c == 47 then [] ∷ rest else onto_first c rest

-- `segments.join("/")`
abbrev pub join : List Chars → Chars
join [] = []
join (s ∷ []) = s
join (s ∷ t ∷ rest) = s ++ 47 ∷ join (t ∷ rest)

abbrev pub is_filled : Chars → Bool
is_filled s = not (length s == 0)

unfoldable pub normalize_route_path : Chars → Chars
normalize_route_path path =
    47 ∷ join (map segment_shape (keep is_filled (segments (without_query path))))

-- `path.replace(/^src\//u, "")`
abbrev pub without_src : Chars → Chars
without_src path = if starts_with (115 ∷ 114 ∷ 99 ∷ 47 ∷ []) path then skip 4 path else path

-- `.tsx`, `.ts`, `.jsx`, `.js`, `.mjs`
abbrev pub source_extensions : List Chars
source_extensions =
    (46 ∷ 116 ∷ 115 ∷ 120 ∷ [])
    ∷ (46 ∷ 116 ∷ 115 ∷ [])
    ∷ (46 ∷ 106 ∷ 115 ∷ 120 ∷ [])
    ∷ (46 ∷ 106 ∷ 115 ∷ [])
    ∷ (46 ∷ 109 ∷ 106 ∷ 115 ∷ [])
    ∷ []

-- The name of a source file without its extension.
abbrev pub without_extension : List Chars → Chars → Option Chars
without_extension [] name = none
without_extension (e ∷ rest) name =
    let other = without_extension rest name in
    if ends_with e name then some (take (length name - length e) name) else other

abbrev pub first_segment : List Chars → Chars
first_segment [] = []
first_segment (s ∷ rest) = s

abbrev pub last_segment : List Chars → Chars
last_segment [] = []
last_segment (s ∷ []) = s
last_segment (s ∷ t ∷ rest) = last_segment (t ∷ rest)

abbrev pub without_last : List Chars → List Chars
without_last [] = []
without_last (s ∷ []) = []
without_last (s ∷ t ∷ rest) = s ∷ without_last (t ∷ rest)

-- `segments.slice(1, -1)`
abbrev pub inner_segments : List Chars → List Chars
inner_segments [] = []
inner_segments (s ∷ rest) = without_last rest

-- `.` matches every code unit but the line terminators.
abbrev pub is_inline : ℕ → Bool
is_inline c = not (c == 10 || c == 13 || c == 8232 || c == 8233)

abbrev pub all_inline : Option Chars → Bool
all_inline none = false
all_inline (some s) = every is_inline s

-- A directory that Next.js leaves out of the route: `(group)` or `@slot`.
abbrev pub is_unrouted : Chars → Bool
is_unrouted s = all_inline (between (40 ∷ []) (41 ∷ []) s) || starts_with (64 ∷ []) s

-- `page` or `route`
abbrev pub is_route_entry : Chars → Bool
is_route_entry name =
    same_chars name (112 ∷ 97 ∷ 103 ∷ 101 ∷ [])
    || same_chars name (114 ∷ 111 ∷ 117 ∷ 116 ∷ 101 ∷ [])

abbrev pub app_route : List Chars → Option Chars → Option Chars
app_route directories none = none
app_route directories (some base) =
    if is_route_entry base
    then some (normalize_route_path (join (keep (λ s. not (is_unrouted s)) directories)))
    else none

-- `index`
abbrev pub is_index : Chars → Bool
is_index base = same_chars base (105 ∷ 110 ∷ 100 ∷ 101 ∷ 120 ∷ [])

abbrev pub pages_route : List Chars → Option Chars → Option Chars
pages_route directories none = none
pages_route directories (some base) =
    if starts_with (95 ∷ []) base
    then none
    else some
        (normalize_route_path (join (directories ++ (if is_index base then [] else base ∷ []))))

-- `app` and `pages`
abbrev pub app : Chars
app = 97 ∷ 112 ∷ 112 ∷ []

abbrev pub pages : Chars
pages = 112 ∷ 97 ∷ 103 ∷ 101 ∷ 115 ∷ []

abbrev pub route_served_by : List Chars → Option Chars
route_served_by parts =
    let base = without_extension source_extensions (last_segment parts) in
    if same_chars (first_segment parts) app
    then app_route (inner_segments parts) base
    else if same_chars (first_segment parts) pages
    then pages_route (inner_segments parts) base
    else none

unfoldable pub route_served_by_file : Chars → Option Chars
route_served_by_file file_path = route_served_by (segments (without_src file_path))

abbrev pub is_routed_file : Chars → Bool
is_routed_file path =
    starts_with (app ++ 47 ∷ []) (without_src path)
    || starts_with (pages ++ 47 ∷ []) (without_src path)

unfoldable pub uses_file_routing : List Chars → Bool
uses_file_routing [] = false
uses_file_routing (f ∷ files) = is_routed_file f || uses_file_routing files

abbrev pub with_route : Option Chars → List Chars → List Chars
with_route none routes = routes
with_route (some r) routes = r ∷ routes

abbrev pub served_routes : List Chars → List Chars
served_routes [] = []
served_routes (f ∷ files) = with_route (route_served_by_file f) (served_routes files)

-- `Set.has`
abbrev pub has_route : Chars → List Chars → Bool
has_route r [] = false
has_route r (s ∷ rest) = same_chars r s || has_route r rest

abbrev pub is_absolute : Chars → Bool
is_absolute path = starts_with (47 ∷ []) path

abbrev pub normal_of : PlannedRoute → Chars
normal_of r = normalize_route_path r.path

-- The loop of `findMissingRoutes`, with the routes that it has seen.
unfoldable pub missing_routes_from :
    (served seen : List Chars) → List PlannedRoute → List PlannedRoute
missing_routes_from served seen [] = []
missing_routes_from served seen (r ∷ planned) =
    elim (not (is_absolute r.path)
      || has_route (normal_of r) served
      || has_route (normal_of r) seen) [
        | true ↦ missing_routes_from served seen planned
        | false ↦ r ∷ missing_routes_from served (normal_of r ∷ seen) planned
      ]

unfoldable pub find_missing_routes : List PlannedRoute → (files : List Chars) → List PlannedRoute
find_missing_routes planned files =
    if uses_file_routing files then missing_routes_from (served_routes files) [] planned else []
