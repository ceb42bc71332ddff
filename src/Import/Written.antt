-- ===== src/Import/Written.antt =====
-- Files as RFC 4180 has them written, and that parseCsv reads back what was written.
use alchemist_template.Common.{
  ℕ, ◌≡◌, refl, ap, ◌∙◌, inl, inr, Bool, true, false, not, ◌&&◌, Option, List, [], ◌∷◌, ◌++◌, map,
  arith, ◌==◌, if◌then◌else◌, Bool-cases, is_some_eq, All, Text,
}
use alchemist_template.Import.Csv.{
  read_char, Reader, bom, read_all, read_plain, next_char, read_quoted,
}
use mathlib.Core.List.{append-nil, append_assoc}

-- A field is written as it is, or in quotes, with its quotes doubled; a line has a first field and
-- others, and ends with LF or with CR LF.
pub data Cell : Type 0 where
  plain quoted_cell : Text → Cell

pub record Line : Type 0 where
  pub first_cell : Cell
  pub others : List Cell
  pub with_cr : Bool

-- Text that may stand outside quotes.
abbrev pub is_plain_char : ℕ → Bool
is_plain_char c =
    not (c == b'"')
    && (not (c == b',') && (not (c == b'\r') && (not (c == b'\n') && not (c == bom))))

abbrev pub IsCell : Cell → Type 0
IsCell (plain t) = All (λ c. is_plain_char c ≡ true) t
IsCell (quoted_cell t) = Unit

abbrev pub IsLine : Line → Type 0
IsLine l = IsCell l.first_cell × All IsCell l.others

abbrev pub value : Cell → Text
value (plain t) = t
value (quoted_cell t) = t

abbrev pub doubled : Text → Text
doubled [] = []
doubled (c ∷ cs) = if c == b'"' then b'"' ∷ b'"' ∷ doubled cs else c ∷ doubled cs

abbrev pub write_cell : Cell → Text
write_cell (plain t) = t
write_cell (quoted_cell t) = b'"' ∷ (doubled t ++ b'"' ∷ [])

abbrev pub write_others : List Cell → Text
write_others [] = []
write_others (c ∷ cs) = b',' ∷ (write_cell c ++ write_others cs)

abbrev pub line_end : Bool → Text
line_end true = b'\r' ∷ b'\n' ∷ []
line_end false = b'\n' ∷ []

abbrev pub write_line : Line → Text
write_line l = write_cell l.first_cell ++ (write_others l.others ++ line_end l.with_cr)

abbrev pub write_lines : List Line → Text
write_lines [] = []
write_lines (l ∷ ls) = write_line l ++ write_lines ls

abbrev pub values : Line → List Text
values l = value l.first_cell ∷ map value l.others

-- The reader between two fields' characters: outside quotes, with nothing to skip.
abbrev pub at_field : List (List Text) → List Text → Text → Bool → Reader
at_field rows row field saw = record {
  rows = rows;
  row = row;
  field = field;
  quoted = false;
  saw_any_char = saw;
  skip = false;
}

abbrev pub in_quotes : List (List Text) → List Text → Text → Reader
in_quotes rows row field = record {
  rows = rows;
  row = row;
  field = field;
  quoted = true;
  saw_any_char = true;
  skip = false;
}

-- Whether a plain field leaves the row without a character.
abbrev pub saw_after : Cell → Bool → Bool
saw_after (plain []) saw = saw
saw_after (plain (c ∷ cs)) saw = true
saw_after (quoted_cell t) saw = true

module _ (rows : List (List Text)) (row : List Text) where
  plain_char :
      (f : Text) (saw : Bool) (c : ℕ) (o : Option ℕ)
      → is_plain_char c ≡ true
      → read_char (at_field rows row f saw) c o ≡ at_field rows row (f ++ c ∷ []) true
  unfolding read_char read_plain
  plain_char f saw c o h = ground arith

  quoted_char :
      (f : Text) (c : ℕ) (o : Option ℕ)
      → (c == b'"') ≡ false
      → read_char (in_quotes rows row f) c o ≡ in_quotes rows row (f ++ c ∷ [])
  unfolding read_char read_quoted
  quoted_char f c o h = ground arith

  saw_true : (t : Text) → saw_after (plain t) true ≡ true
  saw_true [] = refl
  saw_true (c ∷ t) = refl

  pub read-plain :
      (f t rest : Text) (saw : Bool)
      → All (λ c. is_plain_char c ≡ true) t
      → read_all (at_field rows row f saw) (t ++ rest)
        ≡ read_all (at_field rows row (f ++ t) (saw_after (plain t) saw)) rest
  unfolding read_all
  read-plain f [] rest saw h = rw (append-nil f) refl
  read-plain f (c ∷ t) rest saw h =
      ap (λ r. read_all r (t ++ rest)) (plain_char f saw c (next_char (t ++ rest)) h.0)
      ∙ read-plain (f ++ c ∷ []) t rest true h.1
      ∙ rw (saw_true t, append_assoc f (c ∷ []) t) refl

  pub read-doubled :
      (f t rest : Text)
      → is_some_eq (next_char rest) b'"' ≡ false
      → read_all (in_quotes rows row f) (doubled t ++ b'"' ∷ rest)
        ≡ read_all (at_field rows row (f ++ t) true) rest
  unfolding read_all
  read-doubled f [] rest h = rw (h, append-nil f) refl
  read-doubled f (c ∷ t) rest h = elim (Bool-cases (c == b'"')) [
    | inl e ↦
        let same : c ≡ b'"' = ground arith in
        rw same (read-doubled (f ++ b'"' ∷ []) t rest h ∙ rw (append_assoc f (b'"' ∷ []) t) refl)
    | inr e ↦ rw e (
        ap (λ r. read_all r (doubled t ++ b'"' ∷ rest))
          (quoted_char f c (next_char (doubled t ++ b'"' ∷ rest)) e)
        ∙ read-doubled (f ++ c ∷ []) t rest h
        ∙ rw (append_assoc f (c ∷ []) t) refl)
  ]
