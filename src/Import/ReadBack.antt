-- ===== src/Import/ReadBack.antt =====
-- That parseCsv reads back what was written.
use alchemist_template.Common.{
  ℕ, ◌≡◌, refl, ap, ◌∙◌, Bool, true, false, List, [], ◌∷◌, ◌++◌, map, arith, is_some_eq, All, Text,
}
use alchemist_template.Import.Written.{
  quoted_cell, Line, Cell, is_plain_char, IsLine, write_lines, write_others, write_line, line_end,
  IsCell, values, write_cell, at_field, value, saw_after, plain, read-plain, quoted_cell, doubled,
  read-doubled,
}
use alchemist_template.Import.Csv.{
  strip_bom, read_all, parse_csv, last_row, read_char, next_char, new_reader, read_plain, end_row,
  bom,
}
use mathlib.Core.List.{append-nil, append_assoc}

-- What follows a field does not start with a quote.
tail_head :
    (cs : List Cell) (with_cr : Bool) (rest : Text)
    → is_some_eq (next_char (write_others cs ++ (line_end with_cr ++ rest))) b'"' ≡ false
tail_head [] true rest = refl
tail_head [] false rest = refl
tail_head (c ∷ cs) with_cr rest = refl

module _ (rows : List (List Text)) where
  read-cell :
      (row : List Text) (c : Cell) (rest : Text) (saw : Bool)
      → IsCell c
      → is_some_eq (next_char rest) b'"' ≡ false
      → read_all (at_field rows row [] saw) (write_cell c ++ rest)
        ≡ read_all (at_field rows row (value c) (saw_after c saw)) rest
  unfolding read_all read_char read_plain
  read-cell row (plain t) rest saw ok_cell h = read-plain rows row [] t rest saw ok_cell
  read-cell row (quoted_cell t) rest saw ok_cell h =
      rw (append_assoc (doubled t) (b'"' ∷ []) rest) (read-doubled rows row [] t rest h)

  -- The rest of a line, after its first field.
  read-tail :
      (row : List Text) (f : Text) (saw : Bool) (cs : List Cell) (with_cr : Bool) (rest : Text)
      → All IsCell cs
      → read_all (at_field rows row f saw) (write_others cs ++ (line_end with_cr ++ rest))
        ≡ read_all (new_reader (rows ++ (row ++ f ∷ map value cs) ∷ [])) rest
  unfolding read_all read_char read_plain end_row
  read-tail row f saw [] true rest ok_cells = refl
  read-tail row f saw [] false rest ok_cells = refl
  read-tail row f saw (c ∷ cs) with_cr rest ok_cells =
      rw (append_assoc (write_cell c) (write_others cs) (line_end with_cr ++ rest)) (
        read-cell (row ++ f ∷ []) c (write_others cs ++ (line_end with_cr ++ rest)) true ok_cells.0
          (tail_head cs with_cr rest)
        ∙ read-tail (row ++ f ∷ []) (value c) (saw_after c true) cs with_cr rest ok_cells.1
        ∙ rw (append_assoc row (f ∷ []) (value c ∷ map value cs)) refl)

  read-line :
      (l : Line) (rest : Text)
      → IsLine l
      → read_all (new_reader rows) (write_line l ++ rest)
        ≡ read_all (new_reader (rows ++ values l ∷ [])) rest
  read-line l rest ok_line =
      rw
        (
          append_assoc (write_cell l.first_cell) (write_others l.others ++ line_end l.with_cr) rest,
          append_assoc (write_others l.others) (line_end l.with_cr) rest,
        )
        (read-cell [] l.first_cell _ false ok_line.0 (tail_head l.others l.with_cr rest)
          ∙ read-tail [] (value l.first_cell) (saw_after l.first_cell false) l.others l.with_cr rest
              ok_line.1)

read-lines :
    (rows : List (List Text)) (ls : List Line)
    → All IsLine ls
    → read_all (new_reader rows) (write_lines ls) ≡ new_reader (rows ++ map values ls)
unfolding read_all
read-lines rows [] ok_lines = rw (append-nil rows) refl
read-lines rows (l ∷ ls) ok_lines =
    read-line rows l (write_lines ls) ok_lines.0
    ∙ read-lines (rows ++ values l ∷ []) ls ok_lines.1
    ∙ rw (append_assoc rows (values l ∷ []) (map values ls)) refl

-- A written file does not start with a byte order mark.
plain_start : (c : ℕ) (t : Text) → is_plain_char c ≡ true → strip_bom (c ∷ t) ≡ c ∷ t
unfolding strip_bom
plain_start c t h = ground arith

no_bom :
    (c : Cell) (cs : List Cell) (with_cr : Bool) (rest : Text)
    → IsCell c
    → strip_bom ((write_cell c ++ (write_others cs ++ line_end with_cr)) ++ rest)
      ≡ (write_cell c ++ (write_others cs ++ line_end with_cr)) ++ rest
unfolding strip_bom
no_bom (plain []) [] true rest ok_cell = refl
no_bom (plain []) [] false rest ok_cell = refl
no_bom (plain []) (d ∷ ds) with_cr rest ok_cell = refl
no_bom (plain (x ∷ t)) cs with_cr rest ok_cell = plain_start x _ ok_cell.0
no_bom (quoted_cell t) cs with_cr rest ok_cell = refl

lines-no_bom : (ls : List Line) → All IsLine ls → strip_bom (write_lines ls) ≡ write_lines ls
unfolding strip_bom
lines-no_bom [] ok_lines = refl
lines-no_bom (l ∷ ls) ok_lines =
    no_bom l.first_cell l.others l.with_cr (write_lines ls) ok_lines.0.0

-- A file of lines, each with at least one field, that are written as RFC 4180 has it (a field with a
-- comma, a quote, a line break or a byte order mark in quotes; any other with or without; CR LF and
-- LF mixed freely) is read back as it was, and with a byte order mark in front too.
pub parse-write :
    (ls : List Line)
    → All IsLine ls
    → (parse_csv (write_lines ls) ≡ map values ls)
      × (parse_csv (bom ∷ write_lines ls) ≡ map values ls)
unfolding parse_csv last_row strip_bom
parse-write ls ok_lines =
    let read : last_row (read_all (new_reader []) (write_lines ls)) ≡ map values ls =
      ap last_row (read-lines [] ls ok_lines) in
    (ap (λ t. last_row (read_all (new_reader []) t)) (lines-no_bom ls ok_lines) ∙ read, read)
