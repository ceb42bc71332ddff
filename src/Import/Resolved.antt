-- ===== src/Import/Resolved.antt =====
-- What a resolved mapping may hold.
use alchemist_template.Common.{
  ℕ, ◌<◌, ◌≡◌, refl, sym, subst, ◌≢◌, ◌⊎◌, inl, inr, true, false, Option, none, some, List, [], ◌∷◌,
  arith, leb, Bool-cases, take, any, All, All-pointwise, Text, eq_text, eq_text_self, to_lower,
  Keyed,
}
use alchemist_template.Common.Int.{Number, pos, negsuc, integer, not_integer}
use alchemist_template.Common.Members.{In, All-In, All-of-In}
use alchemist_template.Import.Labels.{is_nil}
use alchemist_template.Import.Mapping.{
  ImportDefinition, Mapped, refuse, map_column, is_mapped, Resolving, MappingError, is_used,
  is_known, map_entries, map_index, map_field, map_target, map_custom, not_a_column, unknown_field,
  MappingEntry, custom_taken, field_taken, no_such_column, mapped_twice,
}

-- Two columns that fill one field.
abbrev Clash : Mapped → Mapped → Type 0
Clash a b = (k : Text) × (a.field_key ≡ some k) × (b.field_key ≡ some k)

-- No two columns of the mapping fill one field.
abbrev pub NoClash : List Mapped → Type 0
NoClash [] = Unit
NoClash (m ∷ ms) = All (λ n. ¬ Clash m n) ms × NoClash ms

-- What the loop keeps is as it should be.
pub record Sound (def : ImportDefinition) (columns : ℕ) (st : Resolving) : Type 0 where
  pub in_file : All (λ m. m.column < columns) st.by_column
  pub once : Keyed (λ m. m.column) st.by_column
  pub no_clash : NoClash st.by_column
  pub used :
      All (λ m. (k : Text) → m.field_key ≡ some k → is_used k st.used_fields ≡ true) st.by_column
  pub known :
      All (λ m. (k : Text) → m.field_key ≡ some k → is_known k def.fields ≡ true) st.by_column
  pub backed : All (λ u. (m : Mapped) × In m st.by_column × (m.field_key ≡ some u.0)) st.used_fields

module _ (def : ImportDefinition) (columns : ℕ) where
  refuse-Sound :
      (e : MappingError) (st : Resolving) → Sound def columns st → Sound def columns (refuse e st)
  unfolding refuse
  refuse-Sound e st v = record {
    in_file = v.in_file;
    once = v.once;
    no_clash = v.no_clash;
    used = v.used;
    known = v.known;
    backed = v.backed;
  }

  unmapped_apart : (i : ℕ) (ms : List Mapped) → is_mapped i ms ≡ false → All (λ m. i ≢ m.column) ms
  unmapped_apart i [] h = tt
  unmapped_apart i (m ∷ ms) h = (ground arith, unmapped_apart i ms (ground arith))

  plain-Sound :
      (i : ℕ) (custom : Option Text) (st : Resolving)
      → i < columns
      → is_mapped i st.by_column ≡ false
      → Sound def columns st
      → Sound def columns (map_column i none custom st)
  unfolding map_column
  plain-Sound i custom st lt free v = record {
    in_file = (lt, v.in_file);
    once = (unmapped_apart i st.by_column free, v.once);
    no_clash = (All-of-In _ st.by_column (λ n m c. cc (c.1)), v.no_clash);
    used = ((λ k e. cc), v.used);
    known = ((λ k e. cc), v.known);
    backed = All-pointwise _ _ (λ u (m, at, e). (m, inr at, e)) st.used_fields v.backed;
  }

  text_inj : (a b : Text) → ◌≡◌ {A = Option Text} (some a) (some b) → a ≡ b
  text_inj a b h = cc

  used_more :
      (a b : Text) (i : ℕ) (used : List (Text × ℕ))
      → (a ≡ b) ⊎ (is_used b used ≡ true)
      → is_used b ((a, i) ∷ used) ≡ true
  used_more a b i used (inl e) = rw (e, eq_text_self b) refl
  used_more a b i used (inr h) = ground arith

  taken-Sound :
      (i : ℕ) (k : Text) (st : Resolving)
      → i < columns
      → is_mapped i st.by_column ≡ false
      → is_known k def.fields ≡ true
      → is_used k st.used_fields ≡ false
      → Sound def columns st
      → Sound def columns
          (map_column i (some k) none (record st { used_fields = (k, i) ∷ st.used_fields }))
  unfolding map_column
  taken-Sound i k st lt free found unused v = record {
    in_file = (lt, v.in_file);
    once = (unmapped_apart i st.by_column free, v.once);
    no_clash = (
      All-of-In _ st.by_column (λ n at (j, e, e').
          let again = All-In _ n st.by_column v.used at j e' in
          absurd (
            cc
              (subst (λ t. is_used t st.used_fields ≡ true) (sym (text_inj k j e)) again, unused))),
      v.no_clash,
    );
    used = (
      (λ j e. used_more k j i st.used_fields (inl (text_inj k j e))),
      All-pointwise _ _ (λ m h j e. used_more k j i st.used_fields (inr (h j e))) st.by_column
          v.used,
    );
    known = ((λ j e. subst (λ t. is_known t def.fields ≡ true) (text_inj k j e) found), v.known);
    backed = (
      (record { column = i; field_key = some k; custom = none }, inl refl, refl),
      All-pointwise _ _ (λ u (m, at, e). (m, inr at, e)) st.used_fields v.backed,
    );
  }

  field-Sound :
      (i : ℕ) (k : Text) (st : Resolving)
      → i < columns
      → is_mapped i st.by_column ≡ false
      → Sound def columns st
      → Sound def columns (map_field def i k st)
  unfolding map_field
  field-Sound i k st lt free v = elim (Bool-cases (is_known k def.fields)) [
    | inr e ↦ rw e (refuse-Sound unknown_field st v)
    | inl e ↦ elim (Bool-cases (is_used k st.used_fields)) [
      | inl u ↦ rw (e, u) (refuse-Sound field_taken st v)
      | inr u ↦ rw (e, u) (taken-Sound i k st lt free e u v)
    ]
  ]

  noted-Sound :
      (names : List Text) (st : Resolving)
      → Sound def columns st
      → Sound def columns (record st { used_custom = names })
  noted-Sound names st v = record {
    in_file = v.in_file;
    once = v.once;
    no_clash = v.no_clash;
    used = v.used;
    known = v.known;
    backed = v.backed;
  }

  custom-Sound :
      (i : ℕ) (custom : Text) (st : Resolving)
      → i < columns
      → is_mapped i st.by_column ≡ false
      → Sound def columns st
      → Sound def columns (map_custom i custom st)
  unfolding map_custom
  custom-Sound i custom st lt free v = elim (Bool-cases (is_nil custom)) [
    | inl e ↦ rw e (plain-Sound i none st lt free v)
    | inr e ↦ elim (Bool-cases (any (λ u. eq_text u (to_lower (take 64 custom))) st.used_custom)) [
      | inl u ↦ rw (e, u) (refuse-Sound custom_taken st v)
      | inr u ↦ rw (e, u) (plain-Sound i (some (take 64 custom)) _ lt free (noted-Sound _ st v))
    ]
  ]

  target-Sound :
      (i : ℕ) (field custom : Option Text) (st : Resolving)
      → i < columns
      → is_mapped i st.by_column ≡ false
      → Sound def columns st
      → Sound def columns (map_target def i field custom st)
  unfolding map_target
  target-Sound i (some (c ∷ k)) custom st lt free v = field-Sound i (c ∷ k) st lt free v
  target-Sound i (some []) custom st lt free v = custom-Sound i _ st lt free v
  target-Sound i none custom st lt free v = custom-Sound i _ st lt free v

  index-Sound :
      (n : Number) (field custom : Option Text) (st : Resolving)
      → Sound def columns st
      → Sound def columns (map_index def columns n field custom st)
  unfolding map_index
  index-Sound not_integer field custom st v = refuse-Sound not_a_column st v
  index-Sound (integer (negsuc n)) field custom st v = refuse-Sound not_a_column st v
  index-Sound (integer (pos i)) field custom st v = elim (Bool-cases (leb columns i)) [
    | inl e ↦ rw e (refuse-Sound no_such_column st v)
    | inr e ↦ elim (Bool-cases (is_mapped i st.by_column)) [
      | inl m ↦ rw (e, m) (refuse-Sound mapped_twice st v)
      | inr m ↦ rw (e, m) (target-Sound i field custom st (ground arith) m v)
    ]
  ]

  pub entries-Sound :
      (es : List MappingEntry) (st : Resolving)
      → Sound def columns st
      → Sound def columns (map_entries def columns es st)
  unfolding map_entries
  entries-Sound [] st v = v
  entries-Sound (e ∷ es) st v =
      entries-Sound es _ (index-Sound e.column_index e.field_key e.custom st v)
