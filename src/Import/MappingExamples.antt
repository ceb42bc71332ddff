-- ===== src/Import/MappingExamples.antt =====
-- Tests of resolveMapping, and its theorems at concrete inputs.
use alchemist_template.Common.{
  ℕ, ◌≡◌, refl, inl, true, false, none, some, [], ◌∷◌, Text, codes, eq_text, to_lower,
}
use alchemist_template.Common.Int.{pos, integer}
use alchemist_template.Import.Labels.{trim, is_space}
use alchemist_template.Import.Mapping.{
  Mapped, resolve_mapping, ImportDefinition, MappingEntry, field_taken, required_unmapped,
  mapped_twice, no_such_column, custom_taken,
}
use alchemist_template.Import.Accepted.{IsMapping, IsFilled, resolve-IsMapping, no_errors-IsFilled}

abbrev contacts : ImportDefinition
contacts = record {
  fields =
      record { key = codes "email"; required = true }
      ∷ record { key = codes "first"; required = true }
      ∷ record { key = codes "phone"; required = false }
      ∷ [];
  derive = record { produces = codes "first" ∷ [] } ∷ [];
}

abbrev to_email : ℕ → MappingEntry
to_email i = record {
  column_index = integer (pos i);
  field_key = some (codes "email");
  custom = none;
}

abbrev kept_as : ℕ → Text → MappingEntry
kept_as i name = record { column_index = integer (pos i); field_key = none; custom = some name }

abbrev email_column : Mapped
email_column = record { column = 1; field_key = some (codes "email"); custom = none }

-- A second column for one field, a column twice, one that is not there and a name twice are refused.
refusals :
    resolve_mapping
      (to_email 1
        ∷ to_email 0
        ∷ kept_as 1 (codes "x")
        ∷ kept_as 9 (codes "y")
        ∷ kept_as 0 (codes " Note ")
        ∷ kept_as 2 (codes "note")
        ∷ [])
      3
      contacts
    ≡ (
      record { column = 0; field_key = none; custom = some (codes "Note") } ∷ email_column ∷ [],
      field_taken ∷ mapped_twice ∷ no_such_column ∷ custom_taken ∷ [],
    )
unfolding resolve_mapping eq_text trim is_space to_lower
refusals = refl

-- A required field that nothing fills.
email_missing : resolve_mapping [] 3 contacts ≡ ([], required_unmapped (codes "email") ∷ [])
unfolding resolve_mapping eq_text
email_missing = refl

resolve-IsMapping_example :
    IsMapping contacts 3 (resolve_mapping (to_email 1 ∷ to_email 0 ∷ []) 3 contacts).0
resolve-IsMapping_example = resolve-IsMapping (to_email 1 ∷ to_email 0 ∷ []) 3 contacts

no_errors-IsFilled_example :
    IsFilled contacts
      (resolve_mapping (to_email 1 ∷ []) 3 contacts).0
      (record { key = codes "email"; required = true })
unfolding resolve_mapping eq_text
no_errors-IsFilled_example = no_errors-IsFilled (to_email 1 ∷ []) 3 contacts _ refl (inl refl) refl
