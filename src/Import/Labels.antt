-- ===== src/Import/Labels.antt =====
-- `trim` and labelColumns of src/services/import/parse.ts. `toLowerCase` is the one of ASCII letters.
use alchemist_template.Common.{
  ℕ, suc, ◌+◌, Bool, true, false, ◌&&◌, ◌||◌, List, [], ◌∷◌, ◌++◌, leb, ◌==◌, if◌then◌else◌, Text,
  codes, eq_text, to_lower, decimal,
}

abbrev pub is_nil {ℓ} : {A : Type ℓ} → List A → Bool
is_nil [] = true
is_nil (x ∷ xs) = false

-- The white space and line terminators of ECMAScript, which `trim` and `\s` read.
unfoldable pub is_space : ℕ → Bool
is_space c =
    (leb 9 c && leb c 13)
    || (c == 32
        || (c == 160
            || (c == 5760
                || ((leb 8192 c && leb c 8202)
                    || (c == 8232
                        || (c == 8233
                            || (c == 8239 || (c == 8287 || (c == 12288 || c == 65279)))))))))

unfoldable pub trim_start : Text → Text
trim_start [] = []
trim_start (c ∷ cs) = if is_space c then trim_start cs else c ∷ cs

unfoldable pub trim_end : Text → Text
trim_end [] = []
trim_end (c ∷ cs) = let rest = trim_end cs in if is_nil rest && is_space c then [] else c ∷ rest

unfoldable pub trim : Text → Text
unfolding trim_start trim_end
trim t = trim_end (trim_start t)

-- `cell.trim() === ""`
abbrev pub is_blank : Text → Bool
is_blank t = is_nil (trim t)

-- The map from a lowercase label to how often it was seen.
unfoldable pub seen_count : Text → List (Text × ℕ) → ℕ
seen_count key [] = 0
seen_count key (e ∷ es) = if eq_text e.0 key then e.1 else seen_count key es

unfoldable pub set_count : Text → ℕ → List (Text × ℕ) → List (Text × ℕ)
set_count key n [] = (key, n) ∷ []
set_count key n (e ∷ es) = if eq_text e.0 key then (key, n) ∷ es else e ∷ set_count key n es

-- The trimmed cell, or `Column N` for a blank one.
unfoldable pub base_label : ℕ → Text → Text
base_label i cell = if is_blank cell then codes "Column " ++ decimal (i + 1) else trim cell

unfoldable pub suffixed : Text → ℕ → Text
suffixed base count =
    if count == 0 then base else base ++ codes " (" ++ decimal (count + 1) ++ codes ")"

unfoldable pub labels_from : ℕ → List (Text × ℕ) → List Text → List Text
unfolding seen_count set_count base_label suffixed
labels_from i seen [] = []
labels_from i seen (cell ∷ cells) =
    let base = base_label i cell in
    let count = seen_count (to_lower base) seen in
    suffixed base count ∷ labels_from (suc i) (set_count (to_lower base) (count + 1) seen) cells

-- Trailing blank header cells are not columns.
unfoldable pub drop_blank_cells : List Text → List Text
drop_blank_cells [] = []
drop_blank_cells (cell ∷ cells) =
    let rest = drop_blank_cells cells in if is_nil rest && is_blank cell then [] else cell ∷ rest

unfoldable pub label_columns : List Text → List Text
unfolding labels_from drop_blank_cells
label_columns header_row = labels_from 0 [] (drop_blank_cells header_row)
