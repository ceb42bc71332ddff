-- ===== src/Import/Shape.antt =====
-- What a sheet that shapeGrid accepts looks like.
use alchemist_template.Common.{
  ℕ, zero, suc, ◌+◌, ◌≤◌, ◌<◌, ◌≡◌, refl, ap, subst, inl, inr, false, Option, none, some, List, [],
  ◌∷◌, ◌++◌, map, arith, ltb, ◌==◌, Bool-cases, length, get_elem?, drop, All, Text, codes, decimal,
  Result, ok, err,
}
use alchemist_template.Import.Labels.{
  suffixed, labels_from, is_nil, base_label, is_blank, label_columns, drop_blank_cells,
}
use alchemist_template.Import.Grid.{
  ParsedSheet, ImportError, padded, shape_grid, below_header, with_columns, max_import_rows,
  data_rows,
}

base_label_filled : (i : ℕ) (cell : Text) → is_nil (base_label i cell) ≡ false
unfolding base_label
base_label_filled i cell = elim (Bool-cases (is_blank cell)) [ inl e ↦ rw e refl | inr e ↦ rw e e ]

append_filled : (a b : Text) → is_nil a ≡ false → is_nil (a ++ b) ≡ false
append_filled [] b h = cc
append_filled (c ∷ a) b h = refl

suffixed_filled :
    (base : Text) (count : ℕ) → is_nil base ≡ false → is_nil (suffixed base count) ≡ false
unfolding suffixed
suffixed_filled base count h = elim (Bool-cases (count == 0)) [
  | inl e ↦ rw e h
  | inr e ↦ rw e (
      append_filled (base ++ codes " (" ++ decimal (count + 1)) (codes ")") (
        append_filled (base ++ codes " (") (decimal (count + 1))
          (append_filled base (codes " (") h)))
]

labels_filled :
    (i : ℕ) (seen : List (Text × ℕ)) (cells : List Text)
    → All (λ l. is_nil l ≡ false) (labels_from i seen cells)
unfolding labels_from
labels_filled i seen [] = tt
labels_filled i seen (cell ∷ cells) = (
  suffixed_filled (base_label i cell) _ (base_label_filled i cell),
  labels_filled (suc i) _ cells,
)

length-padded : (n : ℕ) (raw : List Text) → length (padded n raw) ≡ n
unfolding padded
length-padded zero raw = refl
length-padded (suc n) [] = ap suc (length-padded n [])
length-padded (suc n) (cell ∷ cells) = ap suc (length-padded n cells)

rows_rectangular : (n : ℕ) (rows : List (List Text)) → All (λ r. length r ≡ n) (map (padded n) rows)
rows_rectangular n [] = tt
rows_rectangular n (r ∷ rs) = (length-padded n r, rows_rectangular n rs)

abbrev pub IsSheet : List (List Text) → ParsedSheet → Type 0
IsSheet grid s =
    (s.header_row_index < length grid)
    × (0 < length s.columns)
    × All (λ l. is_nil l ≡ false) s.columns
    × All (λ r. length r ≡ length s.columns) s.rows
    × (length s.rows ≤ max_import_rows)

abbrev OkSheet : List (List Text) → Result ImportError ParsedSheet → Type 0
OkSheet grid (err e) = Unit
OkSheet grid (ok s) = IsSheet grid s

pub get-lt : {A : Type 0} (x : A) (xs : List A) (i : ℕ) → get_elem? xs i ≡ some x → i < length xs
get-lt x [] i h = absurd (cc)
get-lt x (y ∷ ys) zero h = omega arith
get-lt x (y ∷ ys) (suc i) h = omega (arith, get-lt x ys i h)

filled_length : {A : Type 0} (xs : List A) → is_nil xs ≡ false → 0 < length xs
filled_length [] h = absurd (cc)
filled_length (x ∷ xs) h = omega arith

columns-OkSheet :
    (grid : List (List Text)) (header : ℕ) (columns : List Text) (below : List (List Text))
    → header < length grid
    → All (λ l. is_nil l ≡ false) columns
    → OkSheet grid (with_columns header columns below)
unfolding with_columns data_rows
columns-OkSheet grid header columns below at filled = elim (Bool-cases (is_nil columns)) [
  | inl e ↦ rw e tt
  | inr e ↦ elim (Bool-cases (ltb max_import_rows (length (data_rows (length columns) below)))) [
    | inl many ↦ rw (e, many) tt
    | inr few ↦
        rw (e, few)
          (at, filled_length columns e, filled, rows_rectangular (length columns) _, ground arith)
  ]
]

header-OkSheet :
    (grid : List (List Text)) (header : ℕ) (o : Option (List Text))
    → get_elem? grid header ≡ o
    → OkSheet grid (below_header header o grid)
unfolding below_header label_columns
header-OkSheet grid header none e = tt
header-OkSheet grid header (some row) e =
    columns-OkSheet grid header (label_columns row) (drop (suc header) grid)
      (get-lt row grid header e) (labels_filled 0 [] (drop_blank_cells row))

shape-OkSheet :
    (override : Option ℕ) (grid : List (List Text)) → OkSheet grid (shape_grid override grid)
unfolding shape_grid
shape-OkSheet override grid = elim (Bool-cases (is_nil grid)) [
  | inl e ↦ rw e tt
  | inr e ↦ rw e (header-OkSheet grid _ _ refl)
]

-- A sheet that is accepted has its header row inside the grid, at least one column, no blank label,
-- at most 20000 rows, and in each row exactly one cell for each column.
pub shape-IsSheet :
    (override : Option ℕ) (grid : List (List Text)) (s : ParsedSheet)
    → shape_grid override grid ≡ ok s
    → IsSheet grid s
shape-IsSheet override grid s h = subst (OkSheet grid) h (shape-OkSheet override grid)
