-- ===== src/RoutePattern/Segments.antt =====
-- matchesRoutePattern of web/src/lib/route-pattern.ts, read segment by segment.
use alchemist_template.Common.{
  ◌≡◌, refl, Bool, true, false, ◌&&◌, ◌||◌, List, [], ◌∷◌, arith, Text, eq_text,
}
use alchemist_template.Import.Labels.{is_nil}
use alchemist_template.RoutePattern.{
  star, slash, question, split, first_part, ends_in_star, pop, segment_matches, every_matches,
  segments_match, matches_route_pattern,
}

-- One pass over both: a last `*` takes one segment or more, any other segment takes one.
unfoldable pub fits : List Text → List Text → Bool
fits [] [] = true
fits [] (g ∷ gs) = false
fits (w ∷ ws) [] = false
fits (w ∷ []) (g ∷ gs) = eq_text w star || (segment_matches w g && is_nil gs)
fits (w ∷ v ∷ ws) (g ∷ gs) = segment_matches w g && fits (v ∷ ws) gs

segments-fits : (want got : List Text) → segments_match want got ≡ fits want got
unfolding segments_match ends_in_star pop every_matches fits
segments-fits [] [] = refl
segments-fits [] (g ∷ gs) = ground arith
segments-fits (w ∷ []) [] = ground arith
segments-fits (w ∷ []) (g ∷ []) = ground arith
segments-fits (w ∷ []) (g ∷ h ∷ gs) = ground arith
segments-fits (w ∷ v ∷ ws) [] = ground arith
segments-fits (w ∷ v ∷ ws) (g ∷ gs) = ground (arith, segments-fits (v ∷ ws) gs)

-- A pattern matches a path exactly where, without the query string, each of its segments takes one
-- of the path: a name takes any that is not empty, any other text takes itself, and a `*` at the end
-- takes the rest, one segment at least.
pub matches-fits :
    (pattern path : Text)
    → matches_route_pattern pattern path
      ≡ fits (split slash pattern) (split slash (first_part question path))
unfolding matches_route_pattern
matches-fits pattern path =
    segments-fits (split slash pattern) (split slash (first_part question path))
