-- ===== src/Import/Matched.antt =====
-- Which record of the app a row is matched to.
use alchemist_template.Common.{
  ℕ, ◌≡◌, refl, ◌∙◌, subst, inl, inr, Option, some, List, [], ◌∷◌, arith, Bool-cases, Option-cases,
  All, Text, eq_text, eq_text_iff,
}
use alchemist_template.Common.Members.{In}
use alchemist_template.Import.Identity.{
  ExistingRecord, lookup, index_get, index_records, identity_keys, build_identity_index, index_keys,
  lookup_keys, index_has,
}

-- Every entry of the index is a key of the record whose id it holds.
abbrev Backed : List (List Text) → List ExistingRecord → List (Text × ℕ) → Type 0
Backed match_by existing index =
    All
      (λ e.
        (r : ExistingRecord) × In r existing
        × (r.id ≡ e.1)
        × In e.0 (identity_keys r.values match_by))
      index

module _ (match_by : List (List Text)) (existing : List ExistingRecord) where
  keys-Backed :
      (r : ExistingRecord) (keys : List Text) (index : List (Text × ℕ))
      → In r existing
      → ((k : Text) → In k keys → In k (identity_keys r.values match_by))
      → Backed match_by existing index
      → Backed match_by existing (index_keys r.id keys index)
  unfolding index_keys
  keys-Backed r [] index m sub v = v
  keys-Backed r (k ∷ ks) index m sub v =
      keys-Backed r ks _ m (λ j at. sub j (inr at))
        (elim (Bool-cases (index_has k index)) [
          | inl e ↦ rw e v
          | inr e ↦ rw e ((r, m, refl, sub k (inl refl)), v)
        ])

  records-Backed :
      (rs : List ExistingRecord) (index : List (Text × ℕ))
      → ((r : ExistingRecord) → In r rs → In r existing)
      → Backed match_by existing index
      → Backed match_by existing (index_records match_by rs index)
  unfolding index_records
  records-Backed [] index sub v = v
  records-Backed (r ∷ rs) index sub v =
      records-Backed rs _ (λ q at. sub q (inr at))
        (keys-Backed r (identity_keys r.values match_by) index (sub r (inl refl)) (λ k at. at) v)

  get-Backed :
      (key : Text) (index : List (Text × ℕ)) (id : ℕ)
      → Backed match_by existing index
      → index_get key index ≡ some id
      → (r : ExistingRecord) × In r existing
        × (r.id ≡ id)
        × In key (identity_keys r.values match_by)
  unfolding index_get
  get-Backed key [] id v h = absurd (cc)
  get-Backed key (e ∷ es) id v h = elim (Bool-cases (eq_text e.0 key)) [
    | inl s ↦
        let (r, m, same, at) = v.0 in
        let is_id : e.1 ≡ id = ground arith in
        (
          r,
          m,
          same ∙ is_id,
          subst (λ k. In k (identity_keys r.values match_by)) ((eq_text_iff e.0 key).0 s) at,
        )
    | inr s ↦ get-Backed key es id v.1 (rw s at h)
  ]

  keys_found :
      (keys : List Text) (index : List (Text × ℕ)) (id : ℕ)
      → lookup_keys index keys ≡ some id
      → (k : Text) × In k keys × (index_get k index ≡ some id)
  unfolding lookup_keys
  keys_found [] index id h = absurd (cc)
  keys_found (k ∷ ks) index id h = elim (Option-cases (index_get k index)) [
    | inl e ↦ let (j, at, g) = keys_found ks index id (rw (e, lookup_keys) at h) in (j, inr at, g)
    | inr (i, e) ↦ (k, inl refl, e ∙ (rw (e, lookup_keys) at h))
  ]

-- A row is only ever matched to a record of the app with which it shares an identity key.
pub lookup_shares_key :
    (match_by : List (List Text)) (existing : List ExistingRecord) (values : Text → Option Text)
    (id : ℕ)
    → lookup (build_identity_index existing match_by) match_by values ≡ some id
    → (r : ExistingRecord) × (k : Text) × In r existing
      × (r.id ≡ id)
      × In k (identity_keys values match_by)
      × In k (identity_keys r.values match_by)
unfolding lookup build_identity_index
lookup_shares_key match_by existing values id h =
    let (k, at, g) = keys_found match_by existing (identity_keys values match_by) _ id h in
    let (r, m, same, own) =
      get-Backed match_by existing k _ id
        (records-Backed match_by existing existing [] (λ r m. m) tt) g in
    (r, k, m, same, at, own)
