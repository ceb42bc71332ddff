-- ===== src/RoutePattern.antt =====
-- matchesRoutePattern of web/src/lib/route-pattern.ts: which hash routes a page's pattern names.
use alchemist_template.Common.{
  ℕ, Bool, true, false, not, ◌&&◌, List, [], ◌∷◌, ◌++◌, leb, ◌==◌, if◌then◌else◌, length, any, Text,
  eq_text,
}
use alchemist_template.Import.Labels.{is_nil}
pub mod Segments
mod Examples

abbrev pub slash : ℕ
slash = 47

abbrev pub question : ℕ
question = 63

abbrev pub star : Text
star = 42 ∷ []

-- `split` by one character, whose result is never empty.
unfoldable pub split_onto : ℕ → Text → Text → List Text
split_onto c word [] = word ∷ []
split_onto c word (x ∷ xs) =
    let cut = split_onto c [] xs in
    let on = split_onto c (word ++ x ∷ []) xs in if x == c then word ∷ cut else on

unfoldable pub split : ℕ → Text → List Text
unfolding split_onto
split c t = split_onto c [] t

-- `split("?")[0]`
unfoldable pub first_part : ℕ → Text → Text
first_part c [] = []
first_part c (x ∷ xs) = let rest = first_part c xs in if x == c then [] else x ∷ rest

unfoldable pub is_named : Text → Bool
is_named [] = false
is_named (c ∷ cs) = c == 58

-- `want[want.length - 1] === "*"`
unfoldable pub ends_in_star : List Text → Bool
ends_in_star [] = false
ends_in_star (w ∷ []) = eq_text w star
ends_in_star (w ∷ v ∷ ws) = ends_in_star (v ∷ ws)

-- `want.pop()`
unfoldable pub pop : List Text → List Text
pop [] = []
pop (w ∷ []) = []
pop (w ∷ v ∷ ws) = w ∷ pop (v ∷ ws)

unfoldable pub segment_matches : Text → Text → Bool
unfolding is_named
segment_matches seg got = if is_named seg then not (is_nil got) else eq_text seg got

-- `want.every`; the tests of the lengths come first, so `got` has a segment for each.
unfoldable pub every_matches : List Text → List Text → Bool
unfolding segment_matches
every_matches [] got = true
every_matches (w ∷ ws) [] = false
every_matches (w ∷ ws) (g ∷ gs) = segment_matches w g && every_matches ws gs

unfoldable pub segments_match : List Text → List Text → Bool
unfolding ends_in_star pop every_matches
segments_match want got =
    if ends_in_star want
    then (if leb (length got) (length (pop want)) then false else every_matches (pop want) got)
    else if not (length want == length got)
    then false
    else every_matches want got

unfoldable pub matches_route_pattern : Text → Text → Bool
unfolding segments_match split first_part
matches_route_pattern pattern path =
    segments_match (split slash pattern) (split slash (first_part question path))

unfoldable pub matches_any_route_pattern : Text → List Text → Bool
unfolding matches_route_pattern
matches_any_route_pattern path patterns = any (λ p. matches_route_pattern p path) patterns
