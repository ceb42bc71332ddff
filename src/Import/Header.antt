-- ===== src/Import/Header.antt =====
-- Which row detectHeaderRow picks.
use alchemist_template.Common.{
  ℕ, zero, suc, ◌<◌, ◌≡◌, refl, sym, ap, ◌∙◌, subst, ◌⊎◌, inl, inr, true, false, Option, none, some,
  List, [], ◌∷◌, ◌++◌, arith, Bool-cases, length, get_elem?, take, length-append, All, All-append,
  Text,
}
use alchemist_template.Common.Int.{ℤ, ◌≤ℤ◌, ◌<ℤ◌, leb_ℤ}
use alchemist_template.Common.Members.{All-In, get-In}
use alchemist_template.Import.Shape.{get-lt}
use alchemist_template.Import.Grid.{
  row_score, better, best_from, beats, detect_header_row, header_scan_rows,
}
use mathlib.Core.List.{append_assoc, append-nil}

module _ {A : Type 0} where
  get-append :
      (x : A) (xs ys : List A) (i : ℕ) → get_elem? xs i ≡ some x → get_elem? (xs ++ ys) i ≡ some x
  get-append x [] ys i h = absurd (cc)
  get-append x (y ∷ xs) ys zero h = h
  get-append x (y ∷ xs) ys (suc i) h = get-append x xs ys i h

  get_last : (x : A) (xs : List A) → get_elem? (xs ++ x ∷ []) (length xs) ≡ some x
  get_last x [] = refl
  get_last x (y ∷ xs) = get_last x xs

  get_cases :
      (x y : A) (xs : List A) (i : ℕ)
      → get_elem? (xs ++ y ∷ []) i ≡ some x
      → (get_elem? xs i ≡ some x) ⊎ ((i ≡ length xs) × (y ≡ x))
  get_cases x y [] zero h = inr (refl, ground arith)
  get_cases x y [] (suc i) h = absurd (cc)
  get_cases x y (z ∷ xs) zero h = inl h
  get_cases x y (z ∷ xs) (suc i) h = elim (get_cases x y xs i h) [
    | inl a ↦ inl a
    | inr (a, b) ↦ inr (ap suc a, b)
  ]

-- `best` is the first row of the highest score, or there is none with a score.
abbrev pub IsBest : List (List Text) → ℕ → Option ℤ → Type 0
IsBest rows b none = All (λ row. row_score row ≡ none) rows × (b ≡ 0)
IsBest rows b (some s) =
    (row : List Text) × (get_elem? rows b ≡ some row)
    × (row_score row ≡ some s)
    × ((i : ℕ) (other : List Text) (t : ℤ)
        → get_elem? rows i ≡ some other
        → row_score other ≡ some t
        → (t ≤ℤ s) × (i < b → t <ℤ s))

score_inj : (t u : ℤ) → ◌≡◌ {A = Option ℤ} (some t) (some u) → t ≡ u
score_inj t u h = cc

one_score :
    (row other : List Text) (t u : ℤ)
    → row ≡ other
    → row_score row ≡ some t
    → row_score other ≡ some u
    → t ≡ u
one_score row other t u same e eu = score_inj t u (sym e ∙ ap row_score same ∙ eu)

above : (t s : ℤ) → leb_ℤ t s ≡ false → s <ℤ t
above t s h = ground arith

not_above : (t s : ℤ) → leb_ℤ t s ≡ true → t ≤ℤ s
not_above t s h = ground arith

module _ (done : List (List Text)) (row : List Text) where
  first-IsBest :
      (t : ℤ) (b : ℕ)
      → row_score row ≡ some t
      → IsBest done b none
      → IsBest (done ++ row ∷ []) (length done) (some t)
  first-IsBest t b e unscored = (
    row,
    get_last row done,
    e,
    λ i other u at eu. elim (get_cases other row done i at) [
      | inl a ↦
          absurd (cc (All-In (λ r. row_score r ≡ none) other done unscored.0 (get-In done i a), eu))
      | inr (a, same) ↦
          let equal : t ≡ u = one_score row other t u same e eu in
          (rw equal (omega arith), (λ lt. absurd (omega (arith, lt, a))))
    ],
  )

  next-IsBest :
      (s t : ℤ) (b : ℕ)
      → row_score row ≡ some t
      → leb_ℤ t s ≡ false
      → IsBest done b (some s)
      → IsBest (done ++ row ∷ []) (length done) (some t)
  next-IsBest s t b e more (r, at_b, es, tops) = (
    row,
    get_last row done,
    e,
    λ i other u at eu. elim (get_cases other row done i at) [
      | inl a ↦
          let (le, strict) = tops i other u a eu in
          (omega (arith, le, above t s more), (λ lt. omega (arith, le, above t s more)))
      | inr (a, same) ↦
          let equal : t ≡ u = one_score row other t u same e eu in
          (rw equal (omega arith), (λ lt. absurd (omega (arith, lt, a))))
    ],
  )

  kept-IsBest :
      (s : ℤ) (o : Option ℤ) (b : ℕ)
      → row_score row ≡ o
      → ((t : ℤ) → o ≡ some t → t ≤ℤ s)
      → IsBest done b (some s)
      → IsBest (done ++ row ∷ []) b (some s)
  kept-IsBest s o b e small (r, at_b, es, tops) = (
    r,
    get-append r done (row ∷ []) b at_b,
    es,
    λ i other u at eu. elim (get_cases other row done i at) [
      | inl a ↦ tops i other u a eu
      | inr (a, same) ↦ (
        small u (sym e ∙ ap row_score same ∙ eu),
        (λ lt. absurd (omega (arith, lt, a, get-lt r done b at_b))),
      )
    ],
  )

  -- One round of the loop.
  round-IsBest :
      (b : ℕ) (s o : Option ℤ)
      → row_score row ≡ o
      → IsBest done b s
      → let (b', s') = better (length done) (b, s) o in IsBest (done ++ row ∷ []) b' s'
  unfolding better beats
  round-IsBest b none none e best = (All-append _ done (row ∷ []) best.0 (e, tt), best.1)
  round-IsBest b none (some t) e best = first-IsBest t b e best
  round-IsBest b (some s) none e best = kept-IsBest s none b e (λ t h. absurd (cc)) best
  round-IsBest b (some s) (some t) e best = elim (Bool-cases (leb_ℤ t s)) [
    | inl le ↦ rw le (
        kept-IsBest s (some t) b e (λ u h. subst (λ v. v ≤ℤ s) (score_inj t u h) (not_above t s le))
          best)
    | inr more ↦ rw more (next-IsBest s t b e more best)
  ]

length_snoc : {A : Type 0} (xs : List A) (x : A) → length (xs ++ x ∷ []) ≡ suc (length xs)
length_snoc xs x = omega (arith, length-append xs (x ∷ []))

loop-IsBest :
    (done : List (List Text)) (b : ℕ) (s : Option ℤ) (rows : List (List Text))
    → IsBest done b s
    → let r = best_from (length done) (b, s) rows in IsBest (done ++ rows) r.0 r.1
unfolding best_from
loop-IsBest done b s [] best = subst (λ xs. IsBest xs b s) (sym (append-nil done)) best
loop-IsBest done b s (row ∷ rows) best =
    let next = better (length done) (b, s) (row_score row) in
    let rest =
      loop-IsBest (done ++ row ∷ []) next.0 next.1 rows
        (round-IsBest done row b s (row_score row) refl best) in
    rw (append_assoc done (row ∷ []) rows, length_snoc done row) at rest

scored_or_not :
    (rows : List (List Text)) (b : ℕ) (s : Option ℤ)
    → IsBest rows b s
    → ((t : ℤ) × IsBest rows b (some t)) ⊎ IsBest rows b none
scored_or_not rows b none best = inr best
scored_or_not rows b (some t) best = inl (t, best)

-- The header row that is picked is, among the first ten rows, the first one of the highest score,
-- where a blank row has none; and it is row 0 if they are all blank.
pub detect-IsBest :
    (grid : List (List Text))
    → ((s : ℤ) × IsBest (take header_scan_rows grid) (detect_header_row grid) (some s))
      ⊎ IsBest (take header_scan_rows grid) (detect_header_row grid) none
unfolding detect_header_row
detect-IsBest grid =
    scored_or_not _ _ _ (loop-IsBest [] 0 none (take header_scan_rows grid) (tt, refl))
