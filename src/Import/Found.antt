-- ===== src/Import/Found.antt =====
-- That a row which shares an identity key with a record of the app is matched.
use alchemist_template.Common.{
  ℕ, ◌≡◌, refl, subst, inl, inr, true, Option, some, List, [], ◌∷◌, arith, if◌then◌else◌,
  Bool-cases, Option-cases, Text, eq_text, eq_text_self,
}
use alchemist_template.Common.Members.{In}
use alchemist_template.Import.Identity.{
  index_has, index_keys, lookup, lookup_keys, index_records, index_get, ExistingRecord,
  build_identity_index, identity_keys,
}

has_self : (k : Text) (id : ℕ) (index : List (Text × ℕ)) → index_has k ((k, id) ∷ index) ≡ true
has_self k id index = rw (eq_text_self k) refl

-- The index after one key: nothing is lost, and the key is there.
one_key : ℕ → Text → List (Text × ℕ) → List (Text × ℕ)
one_key id k index = if index_has k index then index else (k, id) ∷ index

one_key_has :
    (id : ℕ) (k : Text) (index : List (Text × ℕ)) → index_has k (one_key id k index) ≡ true
unfolding one_key
one_key_has id k index = elim (Bool-cases (index_has k index)) [
  | inl e ↦ rw (e, e) refl
  | inr e ↦ rw e (has_self k id index)
]

one_key_keeps :
    (id : ℕ) (k j : Text) (index : List (Text × ℕ))
    → index_has j index ≡ true
    → index_has j (one_key id k index) ≡ true
unfolding one_key
one_key_keeps id k j index h = elim (Bool-cases (index_has k index)) [
  | inl e ↦ rw e h
  | inr e ↦ rw e (ground arith)
]

keys_keep :
    (id : ℕ) (keys : List Text) (j : Text) (index : List (Text × ℕ))
    → index_has j index ≡ true
    → index_has j (index_keys id keys index) ≡ true
unfolding index_keys one_key
keys_keep id [] j index h = h
keys_keep id (k ∷ ks) j index h = keys_keep id ks j _ (one_key_keeps id k j index h)

keys_add :
    (id : ℕ) (keys : List Text) (j : Text) (index : List (Text × ℕ))
    → In j keys
    → index_has j (index_keys id keys index) ≡ true
unfolding index_keys one_key
keys_add id [] j index m = absurd m
keys_add id (k ∷ ks) j index (inl e) = keys_keep id ks j _ (rw e (one_key_has id k index))
keys_add id (k ∷ ks) j index (inr m) = keys_add id ks j _ m

module _ (match_by : List (List Text)) where
  records_keep :
      (rs : List ExistingRecord) (j : Text) (index : List (Text × ℕ))
      → index_has j index ≡ true
      → index_has j (index_records match_by rs index) ≡ true
  unfolding index_records
  records_keep [] j index h = h
  records_keep (r ∷ rs) j index h =
      records_keep rs j _ (keys_keep r.id (identity_keys r.values match_by) j index h)

  records_add :
      (rs : List ExistingRecord) (r : ExistingRecord) (j : Text) (index : List (Text × ℕ))
      → In r rs
      → In j (identity_keys r.values match_by)
      → index_has j (index_records match_by rs index) ≡ true
  unfolding index_records
  records_add [] r j index m at = absurd m
  records_add (q ∷ rs) r j index (inl e) at = records_keep rs j _ (
      keys_add q.id (identity_keys q.values match_by) j index
        (subst (λ x. In j (identity_keys x.values match_by)) e at))
  records_add (q ∷ rs) r j index (inr m) at = records_add rs r j _ m at

has_get :
    (k : Text) (index : List (Text × ℕ))
    → index_has k index ≡ true
    → (id : ℕ) × (index_get k index ≡ some id)
unfolding index_get
has_get k [] h = absurd (cc)
has_get k (e ∷ es) h = elim (Bool-cases (eq_text e.0 k)) [
  | inl s ↦ (e.1, rw s refl)
  | inr s ↦ let (id, g) = has_get k es (rw s at h) in (id, rw s g)
]

keys_lookup :
    (keys : List Text) (k : Text) (index : List (Text × ℕ)) (i : ℕ)
    → In k keys
    → index_get k index ≡ some i
    → (id : ℕ) × (lookup_keys index keys ≡ some id)
unfolding lookup_keys
keys_lookup [] k index i m g = absurd m
keys_lookup (j ∷ js) k index i (inl e) g =
    let found : index_get j index ≡ some i = subst (λ t. index_get t index ≡ some i) e g in
    (i, rw (found, lookup_keys) refl)
keys_lookup (j ∷ js) k index i (inr m) g = elim (Option-cases (index_get j index)) [
  | inr (d, e) ↦ (d, rw (e, lookup_keys) refl)
  | inl e ↦ let (id, h) = keys_lookup js k index i m g in (id, rw (e, lookup_keys) h)
]

-- A row that shares an identity key with a record of the app is matched to a record.
pub lookup_matches :
    (match_by : List (List Text)) (existing : List ExistingRecord) (values : Text → Option Text)
    (r : ExistingRecord) (k : Text)
    → In r existing
    → In k (identity_keys values match_by)
    → In k (identity_keys r.values match_by)
    → (id : ℕ) × (lookup (build_identity_index existing match_by) match_by values ≡ some id)
unfolding lookup build_identity_index
lookup_matches match_by existing values r k m at own =
    let (i, g) = has_get k _ (records_add match_by existing r k [] m own) in
    keys_lookup (identity_keys values match_by) k _ i at g
