-- ===== src/Import/Mapping.antt =====
-- resolveMapping and producedByDerivation of src/services/import/mapping.ts. An error is a
-- value of a type in place of its text; the maps hold the newest entry first.
use alchemist_template.Common.{
  ℕ, Bool, not, ◌&&◌, Option, none, some, List, [], ◌∷◌, ◌++◌, leb, ◌==◌, if◌then◌else◌, or_else,
  take, any, Text, eq_text, to_lower,
}
use alchemist_template.Common.Int.{Number, pos, negsuc, integer, not_integer}
use alchemist_template.Import.Labels.{trim, is_nil}

pub record FieldSpec : Type 0 where
  pub key : Text
  pub required : Bool

pub record Derivation : Type 0 where
  pub produces : List Text

pub record ImportDefinition : Type 0 where
  pub fields : List FieldSpec
  pub derive : List Derivation

pub record MappingEntry : Type 0 where
  pub column_index : Number
  pub field_key : Option Text
  pub custom : Option Text

-- An entry of `byColumn`.
pub record Mapped : Type 0 where
  pub column : ℕ
  pub field_key : Option Text
  pub custom : Option Text

pub data MappingError : Type 0 where
  not_a_column no_such_column mapped_twice unknown_field field_taken custom_taken : MappingError
  required_unmapped : Text → MappingError

-- What the loop keeps.
pub record Resolving : Type 0 where
  pub by_column : List Mapped
  pub used_fields : List (Text × ℕ)
  pub used_custom : List Text
  pub errors : List MappingError

abbrev pub is_mapped : ℕ → List Mapped → Bool
is_mapped i ms = any (λ m. m.column == i) ms

abbrev pub is_used : Text → List (Text × ℕ) → Bool
is_used k used = any (λ u. eq_text u.0 k) used

abbrev pub is_known : Text → List FieldSpec → Bool
is_known k fields = any (λ f. eq_text f.key k) fields

unfoldable pub refuse : MappingError → Resolving → Resolving
refuse e st = record st { errors = st.errors ++ e ∷ [] }

unfoldable pub map_column : ℕ → Option Text → Option Text → Resolving → Resolving
map_column i field custom st = record st {
  by_column = record { column = i; field_key = field; custom = custom } ∷ st.by_column;
}

-- `if (entry.fieldKey)`
unfoldable pub map_field : ImportDefinition → ℕ → Text → Resolving → Resolving
unfolding refuse map_column
map_field def i k st =
    if not (is_known k def.fields)
    then refuse unknown_field st
    else if is_used k st.used_fields
    then refuse field_taken st
    else map_column i (some k) none (record st { used_fields = (k, i) ∷ st.used_fields })

-- A column that is kept under a name of its own, if it has one.
unfoldable pub map_custom : ℕ → Text → Resolving → Resolving
unfolding refuse map_column
map_custom i custom st =
    let name = take 64 custom in
    if is_nil custom
    then map_column i none none st
    else if any (λ u. eq_text u (to_lower name)) st.used_custom
    then refuse custom_taken st
    else map_column i none (some name) (record st { used_custom = to_lower name ∷ st.used_custom })

unfoldable pub map_target : ImportDefinition → ℕ → Option Text → Option Text → Resolving → Resolving
unfolding map_field map_custom
map_target def i (some (c ∷ k)) custom st = map_field def i (c ∷ k) st
map_target def i (some []) custom st = map_custom i (trim (or_else custom [])) st
map_target def i none custom st = map_custom i (trim (or_else custom [])) st

unfoldable pub map_index :
    ImportDefinition → ℕ → Number → Option Text → Option Text → Resolving → Resolving
unfolding refuse map_target
map_index def columns not_integer field custom st = refuse not_a_column st
map_index def columns (integer (negsuc n)) field custom st = refuse not_a_column st
map_index def columns (integer (pos i)) field custom st =
    if leb columns i
    then refuse no_such_column st
    else if is_mapped i st.by_column
    then refuse mapped_twice st
    else map_target def i field custom st

unfoldable pub map_entries : ImportDefinition → ℕ → List MappingEntry → Resolving → Resolving
unfolding map_index
map_entries def columns [] st = st
map_entries def columns (e ∷ es) st =
    map_entries def columns es (map_index def columns e.column_index e.field_key e.custom st)

unfoldable pub produced_by_derivation : ImportDefinition → Text → Bool
produced_by_derivation def k = any (λ d. any (λ p. eq_text p k) d.produces) def.derive

unfoldable pub required_errors :
    ImportDefinition → List (Text × ℕ) → List FieldSpec → List MappingError
unfolding produced_by_derivation
required_errors def used [] = []
required_errors def used (f ∷ fs) =
    let rest = required_errors def used fs in
    if f.required && (not (is_used f.key used) && not (produced_by_derivation def f.key))
    then required_unmapped f.key ∷ rest
    else rest

abbrev pub nothing_mapped : Resolving
nothing_mapped = record { by_column = []; used_fields = []; used_custom = []; errors = [] }

-- The mapping, and the errors; `columns` is the number of columns of the file.
unfoldable pub resolve_mapping :
    List MappingEntry → ℕ → ImportDefinition → List Mapped × List MappingError
unfolding map_entries required_errors
resolve_mapping entries columns def =
    let st = map_entries def columns entries nothing_mapped in
    (st.by_column, st.errors ++ required_errors def st.used_fields def.fields)
