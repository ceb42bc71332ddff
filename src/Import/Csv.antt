-- ===== src/Import/Csv.antt =====
-- parseCsv of src/services/import/parse.ts: one pass over the text, with what the loop keeps in its
-- variables. `skip` says that the next character was read with the current one (`i++`).
use alchemist_template.Common.{
  ℕ, Bool, true, false, not, ◌||◌, Option, none, some, List, [], ◌∷◌, ◌++◌, ◌==◌, if◌then◌else◌,
  is_some_eq, Text,
}

-- What the loop has read: the finished rows, the fields of the current row, the current field,
-- whether it stands inside quotes, and whether the row has any character.
pub record Reader : Type 0 where
  pub rows : List (List Text)
  pub row : List Text
  pub field : Text
  pub quoted : Bool
  pub saw_any_char : Bool
  pub skip : Bool

-- `input[i + 1]`
abbrev pub next_char : Text → Option ℕ
next_char [] = none
next_char (c ∷ cs) = some c

-- A character inside quotes.
unfoldable pub read_quoted : Reader → ℕ → Option ℕ → Reader
read_quoted r c following =
    if c == b'"'
    then if is_some_eq following b'"'
      then record r { field = r.field ++ b'"' ∷ []; skip = true; saw_any_char = true }
      else record r { quoted = false; saw_any_char = true }
    else record r { field = r.field ++ c ∷ []; saw_any_char = true }

-- `row.push(field); rows.push(row)`, and a new row.
unfoldable pub end_row : Bool → Reader → Reader
end_row skip r = record r {
  rows = r.rows ++ (r.row ++ r.field ∷ []) ∷ [];
  row = [];
  field = [];
  saw_any_char = false;
  skip = skip;
}

-- A character outside quotes.
unfoldable pub read_plain : Reader → ℕ → Option ℕ → Reader
unfolding end_row
read_plain r c following =
    if c == b'"'
    then record r { quoted = true; saw_any_char = true }
    else if c == b','
    then record r { row = r.row ++ r.field ∷ []; field = []; saw_any_char = true }
    else if c == b'\r'
    then end_row (is_some_eq following b'\n') r
    else if c == b'\n'
    then end_row false r
    else record r { field = r.field ++ c ∷ []; saw_any_char = true }

unfoldable pub read_char : Reader → ℕ → Option ℕ → Reader
unfolding read_quoted read_plain
read_char r c following =
    if r.skip
    then record r { skip = false }
    else if r.quoted
    then read_quoted r c following
    else read_plain r c following

unfoldable pub read_all : Reader → Text → Reader
unfolding read_char
read_all r [] = r
read_all r (c ∷ cs) = read_all (read_char r c (next_char cs)) cs

unfoldable pub is_empty {ℓ} : {A : Type ℓ} → List A → Bool
is_empty [] = true
is_empty (x ∷ xs) = false

-- `if (sawAnyChar || field !== "" || row.length > 0)`: the last line, if it has no newline.
unfoldable pub last_row : Reader → List (List Text)
unfolding is_empty
last_row r =
    if r.saw_any_char || (not (is_empty r.field) || not (is_empty r.row))
    then r.rows ++ (r.row ++ r.field ∷ []) ∷ []
    else r.rows

-- The byte order mark that Excel writes in front.
abbrev pub bom : ℕ
bom = 65279

unfoldable pub strip_bom : Text → Text
strip_bom [] = []
strip_bom (c ∷ cs) = if c == bom then cs else c ∷ cs

abbrev pub new_reader : List (List Text) → Reader
new_reader rows = record {
  rows = rows;
  row = [];
  field = [];
  quoted = false;
  saw_any_char = false;
  skip = false;
}

unfoldable pub parse_csv : Text → List (List Text)
unfolding read_all last_row strip_bom
parse_csv text = last_row (read_all (new_reader []) (strip_bom text))
