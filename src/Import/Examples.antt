-- ===== src/Import/Examples.antt =====
-- Tests of the spreadsheet reader, and its theorems at concrete inputs.
use alchemist_template.Common.{
  ◌≤◌, ◌≡◌, refl, true, none, some, List, [], ◌∷◌, arith, get_elem?, take, Text, codes, eq_text,
  to_lower, decimal, ok,
}
use alchemist_template.Common.Int.{◌-ℤ◌}
use alchemist_template.Import.HeaderCells.{Outdoes, header_by_cells}
use alchemist_template.Import.ReadBack.{parse-write}
use alchemist_template.Import.Shape.{IsSheet, shape-IsSheet}
use alchemist_template.Import.Labels.{label_columns, trim, is_space}
use alchemist_template.Import.Csv.{parse_csv, bom}
use alchemist_template.Import.Grid.{
  filled_cells, header_scan_rows, ParsedSheet, shape_grid, detect_header_row, is_plain_number,
  header_scan_rows,
}
use alchemist_template.Import.Written.{Line, plain, quoted_cell}

-- A comma and a quote in quotes, CR LF after it, and a last line with no newline.
csv_read :
    parse_csv (codes "a,\"b, \"\"c\"\"\"\r\nd,\n\ne")
    ≡ (codes "a" ∷ codes "b, \"c\"" ∷ [])
      ∷ (codes "d" ∷ [] ∷ [])
      ∷ ([] ∷ [])
      ∷ (codes "e" ∷ [])
      ∷ []
unfolding parse_csv
csv_read = refl

-- A repeated label is numbered, and can meet a label that was written so.
labels_meet :
    (label_columns (codes "Name" ∷ [] ∷ codes "name " ∷ codes " " ∷ [])
      ≡ codes "Name" ∷ codes "Column 2" ∷ codes "name (2)" ∷ [])
    × (label_columns (codes "A" ∷ codes "A (2)" ∷ codes "A" ∷ [])
        ≡ codes "A" ∷ codes "A (2)" ∷ codes "A (2)" ∷ [])
unfolding label_columns trim is_space eq_text to_lower decimal
labels_meet = (refl, refl)

abbrev people : List (List Text)
people =
    (codes "Report 2024" ∷ [])
    ∷ ([] ∷ [] ∷ [])
    ∷ (codes "Name" ∷ codes " Age" ∷ [])
    ∷ (codes "Ann" ∷ [])
    ∷ (codes "Bob" ∷ codes "1,042" ∷ codes "x" ∷ [])
    ∷ []

abbrev sheet : ParsedSheet
sheet = record {
  header_row_index = 2;
  skipped_leading_rows = 2;
  columns = codes "Name" ∷ codes "Age" ∷ [];
  rows = (codes "Ann" ∷ [] ∷ []) ∷ (codes "Bob" ∷ codes "1,042" ∷ []) ∷ [];
}

people_shaped : shape_grid none people ≡ ok sheet
unfolding shape_grid detect_header_row trim is_space ◌-ℤ◌ is_plain_number label_columns eq_text
    to_lower
people_shaped = refl

shape-IsSheet_example : IsSheet people sheet
shape-IsSheet_example = shape-IsSheet none people sheet people_shaped

abbrev note_line : Line
note_line = record {
  first_cell = plain (codes "a");
  others = quoted_cell (codes "b, \"c\"") ∷ plain [] ∷ [];
  with_cr = true;
}

parse-write_example :
    (parse_csv (codes "a,\"b, \"\"c\"\"\",\r\n") ≡ (codes "a" ∷ codes "b, \"c\"" ∷ [] ∷ []) ∷ [])
    × (parse_csv (bom ∷ codes "a,\"b, \"\"c\"\"\",\r\n")
        ≡ (codes "a" ∷ codes "b, \"c\"" ∷ [] ∷ []) ∷ [])
parse-write_example = parse-write (note_line ∷ []) (((refl, tt), (tt, (tt, tt))), tt)

abbrev bob_row : List Text
bob_row = codes "Bob" ∷ codes "1,042" ∷ codes "x" ∷ []

header_by_cells_example :
    (r : List Text) × (get_elem? (take header_scan_rows people) (detect_header_row people) ≡ some r)
    × (1 ≤ filled_cells r)
    × Outdoes (detect_header_row people) r 4 bob_row
unfolding filled_cells trim is_space
header_by_cells_example = header_by_cells people 4 bob_row refl (omega arith)

-- A numeric row is picked over a title, and a title over a longer numeric row.
numbers_picked :
    (detect_header_row ((codes "Title" ∷ []) ∷ (codes "1" ∷ codes "2" ∷ codes "3" ∷ []) ∷ []) ≡ 1)
    × (detect_header_row (
          (codes "Title" ∷ [])
          ∷ (codes "1" ∷ codes "2" ∷ codes "3" ∷ codes "4" ∷ codes "5" ∷ [])
          ∷ [])
        ≡ 0)
unfolding detect_header_row trim is_space ◌-ℤ◌ is_plain_number
numbers_picked = (refl, refl)
