-- ===== src/Import/HeaderCells.antt =====
-- Which row detectHeaderRow picks, by the cells of the rows.
use alchemist_template.Common.{
  ℕ, ◌+◌, ◌*◌, ◌≤◌, ◌<◌, ◌≡◌, sym, ◌∙◌, inl, inr, Option, none, some, List, arith, ltb,
  if◌then◌else◌, get_elem?, take, Text,
}
use alchemist_template.Common.Int.{ℤ, ◌-ℤ◌, ◌≤ℤ◌, ◌<ℤ◌, -ℤ_parts, pos}
use alchemist_template.Common.Members.{All-In, get-In}
use alchemist_template.Import.Grid.{
  row_score, filled_cells, numeric_cells, detect_header_row, header_scan_rows,
}
use alchemist_template.Import.Header.{detect-IsBest}

-- The score of a row with filled cells is `gain` less `loss`.
abbrev gain : ℕ → ℕ
gain filled = if ltb filled 2 then filled else filled * 2

abbrev loss : ℕ → ℕ → ℕ
loss filled numeric = if ltb filled 2 then 5 else numeric * 3

scored :
    (row : List Text)
    → 1 ≤ filled_cells row
    → row_score row
      ≡ some (pos (gain (filled_cells row)) -ℤ pos (loss (filled_cells row) (numeric_cells row)))
unfolding row_score
scored row h = ground arith

not_blank : (row : List Text) (s : ℤ) → row_score row ≡ some s → 1 ≤ filled_cells row
unfolding row_score
not_blank row s h = ground arith

difference-≤ : (a b c d : ℕ) → (pos a -ℤ pos b) ≤ℤ (pos c -ℤ pos d) → a + d ≤ c + b
difference-≤ a b c d h = omega (arith, -ℤ_parts (pos a) (pos b), -ℤ_parts (pos c) (pos d), h)

difference-< : (a b c d : ℕ) → (pos a -ℤ pos b) <ℤ (pos c -ℤ pos d) → a + d < c + b
difference-< a b c d h = omega (arith, -ℤ_parts (pos a) (pos b), -ℤ_parts (pos c) (pos d), h)

-- The picked row `r`, at `b`, and another row `o`, at `i`. Where both have several filled cells, twice
-- the filled ones less three times the numeric ones is at least as much in `r`, and more if `o` comes
-- first. A row of a single cell counts as four below 0 there, whatever it holds.
abbrev pub Outdoes : ℕ → List Text → ℕ → List Text → Type 0
Outdoes b r i o =
    (2 ≤ filled_cells r
      → 2 ≤ filled_cells o
      → (filled_cells o * 2 + numeric_cells r * 3 ≤ filled_cells r * 2 + numeric_cells o * 3)
        × (i < b
            → filled_cells o * 2 + numeric_cells r * 3 < filled_cells r * 2 + numeric_cells o * 3))
    × (2 ≤ filled_cells r → filled_cells o ≡ 1 → numeric_cells r * 3 ≤ filled_cells r * 2 + 4)
    × (filled_cells r ≡ 1 → 2 ≤ filled_cells o → filled_cells o * 2 + 4 ≤ numeric_cells o * 3)

outdoes :
    (b i f n g m : ℕ)
    → 1 ≤ f
    → 1 ≤ g
    → gain g + loss f n ≤ gain f + loss g m
    → (i < b → gain g + loss f n < gain f + loss g m)
    → (2 ≤ f → 2 ≤ g → (g * 2 + n * 3 ≤ f * 2 + m * 3) × (i < b → g * 2 + n * 3 < f * 2 + m * 3))
      × (2 ≤ f → g ≡ 1 → n * 3 ≤ f * 2 + 4)
      × (f ≡ 1 → 2 ≤ g → g * 2 + 4 ≤ m * 3)
outdoes b i f n g m hf hg le lt = (
  λ two_f two_g. (ground arith, (λ before. let strict = lt before in ground arith)),
  λ two_f one_g. ground arith,
  λ one_f two_g. ground arith,
)

-- Where one of the first ten rows is not blank, the picked header row is one of them and not blank.
-- Against each of them that is not blank: where both have several filled cells, twice the filled
-- cells less three times the numeric ones is at least as much in the picked row, and more if the
-- other row comes first. A picked row of several cells is not more than 4 below 0 by that count
-- where some row has a single cell; and a row of a single cell is picked only where each row of
-- several cells is 4 below 0 or more.
pub header_by_cells :
    (grid : List (List Text)) (i : ℕ) (o : List Text)
    → get_elem? (take header_scan_rows grid) i ≡ some o
    → 1 ≤ filled_cells o
    → let b = detect_header_row grid in
      (r : List Text) × (get_elem? (take header_scan_rows grid) b ≡ some r)
      × (1 ≤ filled_cells r)
      × Outdoes b r i o
header_by_cells grid i o at filled =
    let rows = take header_scan_rows grid in
    let b = detect_header_row grid in
    elim (detect-IsBest grid) [
      | inr unscored ↦ absurd (
          cc (
            scored o filled,
            All-In (λ row. row_score row ≡ none) o rows unscored.0 (get-In rows i at),
          ))
      | inl (s, (r, at_b, es, tops)) ↦
          let mine = not_blank r s es in
          let score : s
              ≡ pos (gain (filled_cells r)) -ℤ pos (loss (filled_cells r) (numeric_cells r)) =
            one_score s _ (sym es ∙ scored r mine) in
          let (le, strict) = tops i o _ at (scored o filled) in
          (
            r,
            at_b,
            mine,
            outdoes b i (filled_cells r) (numeric_cells r) (filled_cells o) (numeric_cells o) mine
                filled
                (difference-≤ (gain (filled_cells o)) _ (gain (filled_cells r)) _ (rw score at le))
                (λ before.
                  difference-< (gain (filled_cells o)) _ (gain (filled_cells r)) _
                    (rw score at (strict before))),
          )
    ]
  where
    one_score : (t u : ℤ) → ◌≡◌ {A = Option ℤ} (some t) (some u) → t ≡ u
    one_score t u h = cc
