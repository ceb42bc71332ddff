-- ===== src/Import/MatchExamples.antt =====
-- Tests of the identity index, and its theorems at concrete inputs.
use alchemist_template.Common.{
  ℕ, ◌≡◌, refl, inl, Option, none, some, List, [], ◌∷◌, if◌then◌else◌, Text, codes, eq_text,
  to_lower, decimal,
}
use alchemist_template.Common.Members.{In}
use alchemist_template.Import.Labels.{trim, is_space}
use alchemist_template.Import.Found.{lookup_matches}
use alchemist_template.Import.Matched.{lookup_shares_key}
use alchemist_template.Import.Identity.{ExistingRecord, lookup, identity_keys, build_identity_index}

abbrev ana_values : Text → Option Text
ana_values field = if eq_text field (codes "name") then some (codes "Ana Ruiz") else none

abbrev ana_row : Text → Option Text
ana_row field = if eq_text field (codes "name") then some (codes " ana  RUIZ ") else none

abbrev ana : ExistingRecord
ana = record { id = 7; values = ana_values }

abbrev by_name : List (List Text)
by_name = (codes "email" ∷ []) ∷ (codes "name" ∷ []) ∷ []

abbrev ana_key : Text
ana_key = b'1' ∷ 0 ∷ codes "ana ruiz"

ana_matched : lookup (build_identity_index (ana ∷ []) by_name) by_name ana_row ≡ some 7
unfolding lookup eq_text to_lower trim is_space build_identity_index decimal
ana_matched = refl

lookup_shares_key_example :
    (r : ExistingRecord) × (k : Text) × In r (ana ∷ [])
    × (r.id ≡ 7)
    × In k (identity_keys ana_row by_name)
    × In k (identity_keys r.values by_name)
lookup_shares_key_example = lookup_shares_key by_name (ana ∷ []) ana_row 7 ana_matched

lookup_matches_example :
    (id : ℕ) × (lookup (build_identity_index (ana ∷ []) by_name) by_name ana_row ≡ some id)
unfolding identity_keys eq_text to_lower trim is_space decimal
lookup_matches_example =
    lookup_matches by_name (ana ∷ []) ana_row ana ana_key (inl refl) (inl refl) (inl refl)
