-- ===== src/Import/Grid.antt =====
-- trimGrid, detectHeaderRow and shapeGrid of src/services/import/parse.ts, with the labels of
-- Labels. The format and the names of the sheets, which are passed through, are left out.
use alchemist_template.Common.{
  ℕ, zero, suc, ◌+◌, ◌*◌, max, Bool, true, false, not, ◌&&◌, ◌||◌, Option, none, some, List, [],
  ◌∷◌, map, ltb, leb, ◌==◌, if◌then◌else◌, or_else, length, get_elem?, take, drop, filter, all,
  Text, Result, ok, err,
}
use alchemist_template.Common.Int.{ℤ, ◌-ℤ◌, leb_ℤ, pos}
use alchemist_template.Import.Labels.{is_blank, is_nil, label_columns, is_space, trim}

abbrev pub header_scan_rows : ℕ
header_scan_rows = 10

abbrev pub max_import_rows : ℕ
max_import_rows = 20000

abbrev pub max_import_columns : ℕ
max_import_columns = 200

pub data ImportError : Type 0 where
  too_many_rows too_many_columns no_rows header_out_of_range empty_header : ImportError

pub record ParsedSheet : Type 0 where
  pub header_row_index : ℕ
  pub skipped_leading_rows : ℕ
  pub columns : List Text
  pub rows : List (List Text)

-- `row.every((cell) => cell.trim() === "")`
unfoldable pub is_blank_row : List Text → Bool
is_blank_row row = all is_blank row

-- The loop that drops blank rows from the end.
unfoldable pub drop_blank_end : List (List Text) → List (List Text)
unfolding is_blank_row
drop_blank_end [] = []
drop_blank_end (r ∷ rs) =
    let rest = drop_blank_end rs in if is_nil rest && is_blank_row r then [] else r ∷ rest

unfoldable pub widest : List (List Text) → ℕ
widest [] = 0
widest (r ∷ rs) = max (length r) (widest rs)

unfoldable pub trim_grid : List (List Text) → Result ImportError (List (List Text))
unfolding drop_blank_end widest
trim_grid grid =
    let trimmed = drop_blank_end grid in
    if ltb (max_import_rows + header_scan_rows) (length trimmed)
    then err too_many_rows
    else if ltb max_import_columns (widest trimmed)
    then err too_many_columns
    else ok trimmed

-- `[,\s]` removed, then `-?\d+(\.\d+)?`: `filled` says whether the current run has a digit,
-- `dotted` whether the dot was read.
unfoldable pub is_digit : ℕ → Bool
is_digit c = leb b'0' c && leb c b'9'

unfoldable pub digits_from : Bool → Bool → Text → Bool
unfolding is_digit
digits_from filled dotted [] = filled
digits_from filled dotted (c ∷ cs) =
    (is_digit c || (c == b'.' && (filled && not dotted)))
    && digits_from (is_digit c) (dotted || c == b'.') cs

unfoldable pub after_sign : Text → Text
after_sign [] = []
after_sign (c ∷ cs) = if c == b'-' then cs else c ∷ cs

unfoldable pub is_plain_number : Text → Bool
unfolding digits_from after_sign
is_plain_number value =
    digits_from false false (after_sign (filter (λ c. not (c == b',' || is_space c)) value))

unfoldable pub filled_cells : List Text → ℕ
filled_cells row = length (filter (λ c. not (is_blank c)) row)

unfoldable pub numeric_cells : List Text → ℕ
numeric_cells row = length (filter (λ c. not (is_blank c) && is_plain_number (trim c)) row)

-- The score of a row, unless it is blank.
unfoldable pub row_score : List Text → Option ℤ
unfolding filled_cells numeric_cells
row_score row =
    let filled = filled_cells row in
    if filled == 0
    then none
    else if ltb filled 2
    then some (pos filled -ℤ pos 5)
    else some (pos (filled * 2) -ℤ pos (numeric_cells row * 3))

-- `score > bestScore`, where -Infinity is none.
unfoldable pub beats : ℤ → Option ℤ → Bool
beats score none = true
beats score (some best) = not (leb_ℤ score best)

-- One round of the loop: the index and the score of the best row.
unfoldable pub better : ℕ → ℕ × Option ℤ → Option ℤ → ℕ × Option ℤ
unfolding beats
better i best none = best
better i best (some score) = if beats score best.1 then (i, some score) else best

unfoldable pub best_from : ℕ → ℕ × Option ℤ → List (List Text) → ℕ × Option ℤ
unfolding row_score better
best_from i best [] = best
best_from i best (row ∷ rows) = best_from (suc i) (better i best (row_score row)) rows

unfoldable pub detect_header_row : List (List Text) → ℕ
unfolding best_from
detect_header_row grid = (best_from 0 (0, none) (take header_scan_rows grid)).0

-- `raw[c] ?? ""`, trimmed, for each column.
unfoldable pub padded : ℕ → List Text → List Text
padded zero raw = []
padded (suc n) [] = [] ∷ padded n []
padded (suc n) (cell ∷ cells) = trim cell ∷ padded n cells

unfoldable pub data_rows : ℕ → List (List Text) → List (List Text)
unfolding is_blank_row padded
data_rows columns rows = map (padded columns) (filter (λ r. not (is_blank_row r)) rows)

unfoldable pub with_columns : ℕ → List Text → List (List Text) → Result ImportError ParsedSheet
unfolding data_rows
with_columns header columns below =
    if is_nil columns
    then err empty_header
    else if ltb max_import_rows (length (data_rows (length columns) below))
    then err too_many_rows
    else ok (record {
      header_row_index = header;
      skipped_leading_rows = header;
      columns = columns;
      rows = data_rows (length columns) below;
    })

-- The header row and the rows below it.
unfoldable pub below_header :
    ℕ → Option (List Text) → List (List Text) → Result ImportError ParsedSheet
unfolding with_columns
below_header header none grid = err header_out_of_range
below_header header (some row) grid =
    with_columns header (label_columns row) (drop (suc header) grid)

-- `override` is the caller's header row, if it names one (a negative one is out of range too).
unfoldable pub shape_grid : Option ℕ → List (List Text) → Result ImportError ParsedSheet
unfolding below_header
shape_grid override grid =
    let header = or_else override (detect_header_row grid) in
    if is_nil grid then err no_rows else below_header header (get_elem? grid header) grid
