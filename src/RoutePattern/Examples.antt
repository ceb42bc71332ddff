-- ===== src/RoutePattern/Examples.antt =====
-- Tests of the route patterns.
use alchemist_template.Common.{◌≡◌, refl, true, false, [], ◌∷◌, codes, eq_text}
use alchemist_template.RoutePattern.{
  matches_route_pattern, matches_any_route_pattern, split, first_part,
}
use alchemist_template.RoutePattern.Segments.{fits, matches-fits}

under_docs : matches_route_pattern (codes "/docs/*") (codes "/docs/a/b?q=x") ≡ true
unfolding matches_route_pattern eq_text
under_docs = refl

not_under : matches_route_pattern (codes "/docs/*") (codes "/docs") ≡ false
unfolding matches_route_pattern eq_text
not_under = refl

no_id : matches_route_pattern (codes "/share/:id") (codes "/share/") ≡ false
unfolding matches_route_pattern eq_text
no_id = refl

one_of : matches_any_route_pattern (codes "/pricing?x") (codes "/" ∷ codes "/pricing" ∷ []) ≡ true
unfolding matches_any_route_pattern eq_text
one_of = refl

matches-fits_example :
    matches_route_pattern (codes "/share/:id") (codes "/share/abc?q=x")
    ≡ fits
        (codes "" ∷ codes "share" ∷ codes ":id" ∷ [])
        (codes "" ∷ codes "share" ∷ codes "abc" ∷ [])
unfolding split first_part
matches-fits_example = matches-fits (codes "/share/:id") (codes "/share/abc?q=x")
