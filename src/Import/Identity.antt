-- ===== src/Import/Identity.antt =====
-- identityKeys, identityToken and buildIdentityIndex of src/services/import/mapping.ts. A
-- row's values are a function from field keys to their text, `none` where there is no value. A map
-- holds the newest entry first.
use alchemist_template.Common.{
  ℕ, suc, Bool, false, Option, none, some, List, [], ◌∷◌, ◌++◌, if◌then◌else◌, any, Text, eq_text,
  to_lower, decimal,
}
use mathlib.Core.Option
use alchemist_template.Import.Labels.{is_nil, trim, is_space}

-- `.replace(/\s+/g, " ")`: `in_space` says that the last character was white space.
unfoldable pub collapse : Bool → Text → Text
collapse in_space [] = []
collapse in_space (c ∷ cs) =
    let rest = collapse (is_space c) cs in
    if is_space c then (if in_space then rest else b' ' ∷ rest) else c ∷ rest

unfoldable pub identity_token : Option Text → Text
unfolding collapse
identity_token none = []
identity_token (some t) = to_lower (collapse false (trim t))

-- The tokens of one tuple, unless one of them is empty.
unfoldable pub tuple_tokens : (Text → Option Text) → List Text → Option (List Text)
unfolding identity_token
tuple_tokens values [] = some []
tuple_tokens values (field ∷ fields) =
    let token = identity_token (values field) in
    let rest = tuple_tokens values fields in
    if is_nil token then none else Option.map (λ ts. token ∷ ts) rest

-- `parts.join("\0")`
unfoldable pub join_tokens : List Text → Text
join_tokens [] = []
join_tokens (t ∷ []) = t
join_tokens (t ∷ u ∷ ts) = t ++ 0 ∷ join_tokens (u ∷ ts)

-- The key of a tuple, and those of the tuples after it.
unfoldable pub key_and : ℕ → Option (List Text) → List Text → List Text
unfolding join_tokens
key_and i none keys = keys
key_and i (some parts) keys = (decimal i ++ 0 ∷ join_tokens parts) ∷ keys

unfoldable pub keys_from : ℕ → (Text → Option Text) → List (List Text) → List Text
unfolding key_and tuple_tokens
keys_from i values [] = []
keys_from i values (tuple ∷ tuples) =
    key_and i (tuple_tokens values tuple) (keys_from (suc i) values tuples)

unfoldable pub identity_keys : (Text → Option Text) → List (List Text) → List Text
unfolding keys_from
identity_keys values match_by = keys_from 0 values match_by

pub record ExistingRecord : Type 0 where
  pub id : ℕ
  pub values : Text → Option Text

abbrev pub index_has : Text → List (Text × ℕ) → Bool
index_has key index = any (λ e. eq_text e.0 key) index

unfoldable pub index_get : Text → List (Text × ℕ) → Option ℕ
index_get key [] = none
index_get key (e ∷ es) = if eq_text e.0 key then some e.1 else index_get key es

-- `if (!index.has(key)) index.set(key, record.id)`, for each key.
unfoldable pub index_keys : ℕ → List Text → List (Text × ℕ) → List (Text × ℕ)
index_keys id [] index = index
index_keys id (key ∷ keys) index =
    index_keys id keys (if index_has key index then index else (key, id) ∷ index)

unfoldable pub index_records :
    List (List Text) → List ExistingRecord → List (Text × ℕ) → List (Text × ℕ)
unfolding identity_keys index_keys
index_records match_by [] index = index
index_records match_by (r ∷ rs) index =
    index_records match_by rs (index_keys r.id (identity_keys r.values match_by) index)

unfoldable pub build_identity_index : List ExistingRecord → List (List Text) → List (Text × ℕ)
unfolding index_records
build_identity_index existing match_by = index_records match_by existing []

-- The first of the row's keys that the index has.
unfoldable pub lookup_keys : List (Text × ℕ) → List Text → Option ℕ
unfolding index_get
lookup_keys index [] = none
lookup_keys index (key ∷ keys) =
    let rest = lookup_keys index keys in
    elim (index_get key index) [ some id ↦ some id | none ↦ rest ]

unfoldable pub lookup : List (Text × ℕ) → List (List Text) → (Text → Option Text) → Option ℕ
unfolding lookup_keys identity_keys
lookup index match_by values = lookup_keys index (identity_keys values match_by)
