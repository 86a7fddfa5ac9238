-- ===== src/Worker/Agents/Checks.antt =====
-- graph.ts, enforceDeterministicSeoChecks: the routes and canonical URLs of Sarah's output.
use atoms_platform.Common.{
  ℕ, suc, ltb, String, Bool, false, not, ◌&&◌, ◌||◌, Option, none, some, List, [], ◌∷◌, ◌==◌,
  if◌then◌else◌, length, keep, str_eq,
}
use atoms_platform.Worker.Errors.{ErrorNode, ErrorClass}
use atoms_platform.Worker.Agents.State.{SeoPackage}

abbrev pub has_text : String → List String → Bool
has_text t [] = false
has_text t (s ∷ rest) = str_eq s t || has_text t rest

-- `new Set(texts)`, in the order of first occurrence.
unfoldable pub to_set : List String → List String
to_set [] = []
to_set (t ∷ rest) = t ∷ keep (λ u. not (str_eq u t)) (to_set rest)

-- The planned routes that have no metadata.
abbrev pub missing_route_metadata : (planned covered : List String) → List String
missing_route_metadata planned covered = keep (λ path. not (has_text path covered)) (to_set planned)

abbrev pub given_urls : List (Option String) → List String
given_urls [] = []
given_urls (none ∷ rest) = given_urls rest
given_urls (some url ∷ rest) = url ∷ given_urls rest

-- The count of a URL in `canonicalCounts`.
unfoldable pub count_of : String → List String → ℕ
count_of url [] = 0
count_of url (u ∷ rest) = let more = count_of url rest in if str_eq u url then suc more else more

abbrev pub duplicate_canonicals : List String → List String
duplicate_canonicals urls = keep (λ url. ltb 1 (count_of url urls)) (to_set urls)

abbrev pub passes_seo_checks : (planned : List String) → SeoPackage → Bool
passes_seo_checks planned seo =
    length (missing_route_metadata planned seo.route_paths) == 0
    && length (duplicate_canonicals (given_urls seo.canonical_urls)) == 0

abbrev pub seo_error : List ErrorNode
seo_error =
    record {
      class = ErrorClass.other;
      code = "";
      name = "DeterministicSeoValidationError";
      retryable = some false;
      validation_step = none;
    }
    ∷ []
