-- ===== src/Tests/Routes.antt =====
-- Routes: the theorem on missing routes at work.
use atoms_platform.Common.{◌≡◌, refl, true, some, List, [], ◌∷◌, All, map}
use atoms_platform.Worker.Routes.{
  Chars, PlannedRoute, normal_of, segment_shape, normalize_route_path, route_served_by_file,
  missing_routes_from, find_missing_routes, uses_file_routing, served_routes,
}
use atoms_platform.Worker.Routes.Missing.{
  IsUnserved, IsAccounted, DistinctRoutes, find_missing_routes-Complete,
}

-- `GET`
abbrev get : Chars
get = 71 ∷ 69 ∷ 84 ∷ []

-- `/`
abbrev home : Chars
home = 47 ∷ []

-- `/api/auth/[...nextauth]`
abbrev nextauth : Chars
nextauth =
    47 ∷ 97 ∷ 112 ∷ 105 ∷ 47 ∷ 97 ∷ 117 ∷ 116 ∷ 104 ∷ 47 ∷ 91 ∷ 46 ∷ 46 ∷ 46 ∷ 110 ∷ 101 ∷ 120 ∷ 116
    ∷ 97 ∷ 117 ∷ 116 ∷ 104 ∷ 93 ∷ []

-- `/api/auth/[...all]?x`
abbrev nextauth_query : Chars
nextauth_query =
    47 ∷ 97 ∷ 112 ∷ 105 ∷ 47 ∷ 97 ∷ 117 ∷ 116 ∷ 104 ∷ 47 ∷ 91 ∷ 46 ∷ 46 ∷ 46 ∷ 97 ∷ 108 ∷ 108 ∷ 93
    ∷ 63 ∷ 120 ∷ []

-- `/items/:id`
abbrev detail : Chars
detail = 47 ∷ 105 ∷ 116 ∷ 101 ∷ 109 ∷ 115 ∷ 47 ∷ 58 ∷ 105 ∷ 100 ∷ []

-- `src/app/(shop)/page.tsx`
abbrev home_page : Chars
home_page =
    115 ∷ 114 ∷ 99 ∷ 47 ∷ 97 ∷ 112 ∷ 112 ∷ 47 ∷ 40 ∷ 115 ∷ 104 ∷ 111 ∷ 112 ∷ 41 ∷ 47 ∷ 112 ∷ 97
    ∷ 103 ∷ 101 ∷ 46 ∷ 116 ∷ 115 ∷ 120 ∷ []

-- `pages/items/[itemId].js`
abbrev detail_page : Chars
detail_page =
    112 ∷ 97 ∷ 103 ∷ 101 ∷ 115 ∷ 47 ∷ 105 ∷ 116 ∷ 101 ∷ 109 ∷ 115 ∷ 47 ∷ 91 ∷ 105 ∷ 116 ∷ 101 ∷ 109
    ∷ 73 ∷ 100 ∷ 93 ∷ 46 ∷ 106 ∷ 115 ∷ []

abbrev planned : List PlannedRoute
planned =
    record { method = get; path = home }
    ∷ record { method = get; path = nextauth }
    ∷ record { method = get; path = nextauth_query }
    ∷ record { method = get; path = detail }
    ∷ []

abbrev generated : List Chars
generated = home_page ∷ detail_page ∷ []

home_served : route_served_by_file home_page ≡ some home
unfolding route_served_by_file normalize_route_path segment_shape
home_served = refl

-- The detail page serves `/items/[]`.
detail_served :
    route_served_by_file detail_page ≡ some (47 ∷ 105 ∷ 116 ∷ 101 ∷ 109 ∷ 115 ∷ 47 ∷ 91 ∷ 93 ∷ [])
unfolding route_served_by_file normalize_route_path segment_shape
detail_served = refl

only_nextauth :
    find_missing_routes planned generated ≡ record { method = get; path = nextauth } ∷ []
unfolding find_missing_routes missing_routes_from uses_file_routing route_served_by_file
    normalize_route_path segment_shape
only_nextauth = refl

routed : uses_file_routing generated ≡ true
unfolding uses_file_routing
routed = refl

find_missing_routes-Complete_example :
    All (IsUnserved (served_routes generated) []) (find_missing_routes planned generated)
    × DistinctRoutes (map normal_of (find_missing_routes planned generated))
    × All
        (IsAccounted
          (served_routes generated)
          []
          (map normal_of (find_missing_routes planned generated)))
        planned
find_missing_routes-Complete_example = find_missing_routes-Complete planned generated routed
