-- ===== src/Import/Accepted.antt =====
-- What resolveMapping promises of the mapping and of a list of errors that is empty.
use alchemist_template.Common.{
  ℕ, ◌<◌, ◌≡◌, ap, ◌∙◌, ◌⊎◌, inl, inr, true, false, not, ◌&&◌, some, List, [], ◌∷◌, ◌++◌, arith,
  Bool-cases, All, Text, eq_text, eq_text_iff, Keyed,
}
use alchemist_template.Common.Members.{In, any-In, All-In}
use alchemist_template.Import.Resolved.{Sound, entries-Sound, NoClash}
use alchemist_template.Import.Mapping.{
  resolve_mapping, ImportDefinition, MappingEntry, Resolving, Mapped, FieldSpec, nothing_mapped,
  required_errors, produced_by_derivation, is_used, map_entries, is_known,
}

nothing-Sound : (def : ImportDefinition) (columns : ℕ) → Sound def columns nothing_mapped
nothing-Sound def columns = record {
  in_file = tt;
  once = tt;
  no_clash = tt;
  used = tt;
  known = tt;
  backed = tt;
}

-- Each column is in the file and mapped once, no two fill one field, and each field is known.
abbrev pub IsMapping : ImportDefinition → ℕ → List Mapped → Type 0
IsMapping def columns ms =
    All (λ m. m.column < columns) ms
    × Keyed (λ m. m.column) ms
    × NoClash ms
    × All (λ m. (k : Text) → m.field_key ≡ some k → is_known k def.fields ≡ true) ms

-- Whatever the client sends, each column that ends up mapped is a column of the file and is mapped
-- once, no two of them fill one field, and each fills a field of the definition or none.
pub resolve-IsMapping :
    (entries : List MappingEntry) (columns : ℕ) (def : ImportDefinition)
    → IsMapping def columns (resolve_mapping entries columns def).0
unfolding resolve_mapping
resolve-IsMapping entries columns def =
    let v = entries-Sound def columns entries nothing_mapped (nothing-Sound def columns) in
    (v.in_file, v.once, v.no_clash, v.known)

-- A field that is filled by a column, or by a derivation.
abbrev pub IsFilled : ImportDefinition → List Mapped → FieldSpec → Type 0
IsFilled def ms f =
    ((m : Mapped) × In m ms × (m.field_key ≡ some f.key))
    ⊎ (produced_by_derivation def f.key ≡ true)

module _ (def : ImportDefinition) (columns : ℕ) (st : Resolving) (v : Sound def columns st) where
  used-IsFilled :
      (f : FieldSpec) → is_used f.key st.used_fields ≡ true → IsFilled def st.by_column f
  used-IsFilled f h =
      let (u, at, e) = any-In (λ u. eq_text u.0 f.key) st.used_fields h in
      let (m, there, filled) = All-In _ u st.used_fields v.backed at in
      inl (m, there, filled ∙ ap some ((eq_text_iff u.0 f.key).0 e))

  required-IsFilled :
      (f : FieldSpec)
      → (f.required
          && (not (is_used f.key st.used_fields) && not (produced_by_derivation def f.key)))
        ≡ false
      → f.required ≡ true
      → IsFilled def st.by_column f
  required-IsFilled f h need = elim (Bool-cases (is_used f.key st.used_fields)) [
    | inl u ↦ used-IsFilled f u
    | inr u ↦ inr (ground arith)
  ]

  fields-IsFilled :
      (fs : List FieldSpec)
      → required_errors def st.used_fields fs ≡ []
      → (f : FieldSpec) → In f fs
      → f.required ≡ true
      → IsFilled def st.by_column f
  unfolding required_errors
  fields-IsFilled [] h f m need = absurd m
  fields-IsFilled (g ∷ gs) h f m need =
      elim (Bool-cases (
        g.required
        && (not (is_used g.key st.used_fields) && not (produced_by_derivation def g.key)))) [
          | inl bad ↦ absurd (cc (rw bad at h))
          | inr good ↦ elim m [
            | inl same ↦ rw same (required-IsFilled g good (rw (← same) need))
            | inr rest ↦ fields-IsFilled gs (rw good at h) f rest need
          ]
        ]

append_empty : {A : Type 0} (xs ys : List A) → (xs ++ ys) ≡ [] → ys ≡ []
append_empty [] ys h = h
append_empty (x ∷ xs) ys h = cc

-- Where no error is reported, each required field is filled by a column, or a derivation of the
-- definition produces it.
pub no_errors-IsFilled :
    (entries : List MappingEntry) (columns : ℕ) (def : ImportDefinition) (f : FieldSpec)
    → (resolve_mapping entries columns def).1 ≡ []
    → In f def.fields
    → f.required ≡ true
    → IsFilled def (resolve_mapping entries columns def).0 f
unfolding resolve_mapping
no_errors-IsFilled entries columns def f h m need =
    let st = map_entries def columns entries nothing_mapped in
    let v = entries-Sound def columns entries nothing_mapped (nothing-Sound def columns) in
    fields-IsFilled def columns st v def.fields (append_empty st.errors _ h) f m need
