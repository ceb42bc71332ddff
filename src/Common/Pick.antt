-- ===== src/Common/Pick.antt =====
-- `SELECT ... WHERE p ORDER BY ... LIMIT n`, as the claims of the mailing and job tables run it.
use Prim.Native.Nat.{ℕ, zero, suc, ◌≤◌}
use mathlib.Core.Path.{◌≡◌, refl, ap, ◌∙◌, sym, subst}
use mathlib.Core.Logic.{◌⊎◌, ◌≢◌, inl, inr}
use mathlib.Core.Bool.{Bool, true, false}
use mathlib.Core.List.{List, [], ◌∷◌}
use native.Mathlib.Omega.{arith}
use alchemist_template.Common.Tests.{Bool-cases, if◌then◌else◌, ◌==◌}
use alchemist_template.Common.Lists.{length, filter, any, take, length-take, All, All-filter}
use alchemist_template.Common.Members.{
  In, In-filter, In-take, any-In, In-any, filter-In, take_all, All-In, All-of-In,
}
use alchemist_template.Common.Updates.{Keyed, Keyed-same}

module _ {A : Type 0} (before : A → A → Bool) where
  unfoldable pub insert_by : A → List A → List A
  insert_by a [] = a ∷ []
  insert_by a (x ∷ xs) = if before a x then a ∷ x ∷ xs else x ∷ insert_by a xs

  unfoldable pub sort_by : List A → List A
  unfolding insert_by
  sort_by [] = []
  sort_by (x ∷ xs) = insert_by x (sort_by xs)

  unfoldable pub pick : ℕ → (A → Bool) → List A → List A
  unfolding sort_by
  pick n p xs = take n (sort_by (filter p xs))

  split-In :
      (b : Bool) (a d e : A) (es rest : List A)
      → (In a rest → (a ≡ d) ⊎ In a es)
      → In a (if b then d ∷ e ∷ es else e ∷ rest)
      → (a ≡ d) ⊎ In a (e ∷ es)
  split-In true a d e es rest h m = m
  split-In false a d e es rest h (inl q) = inr (inl q)
  split-In false a d e es rest h (inr m) = elim (h m) [ inl q ↦ inl q | inr q ↦ inr (inr q) ]

  join-In :
      (b : Bool) (a d e : A) (es rest : List A)
      → ((a ≡ d) ⊎ In a es → In a rest)
      → (a ≡ d) ⊎ In a (e ∷ es)
      → In a (if b then d ∷ e ∷ es else e ∷ rest)
  join-In true a d e es rest h m = m
  join-In false a d e es rest h (inl q) = inr (h (inl q))
  join-In false a d e es rest h (inr (inl q)) = inl q
  join-In false a d e es rest h (inr (inr m)) = inr (h (inr m))

  insert_by-In : (a d : A) (es : List A) → In a (insert_by d es) → (a ≡ d) ⊎ In a es
  unfolding insert_by
  insert_by-In a d [] m = m
  insert_by-In a d (e ∷ es) m = split-In _ a d e es (insert_by d es) (insert_by-In a d es) m

  In-insert_by : (a d : A) (es : List A) → (a ≡ d) ⊎ In a es → In a (insert_by d es)
  unfolding insert_by
  In-insert_by a d [] m = m
  In-insert_by a d (e ∷ es) m = join-In _ a d e es (insert_by d es) (In-insert_by a d es) m

  sort_by-In : (a : A) (xs : List A) → In a (sort_by xs) → In a xs
  unfolding sort_by
  sort_by-In a [] m = m
  sort_by-In a (x ∷ xs) m = elim (insert_by-In a x (sort_by xs) m) [
    | inl e ↦ inl e
    | inr q ↦ inr (sort_by-In a xs q)
  ]

  In-sort_by : (a : A) (xs : List A) → In a xs → In a (sort_by xs)
  unfolding sort_by
  In-sort_by a [] m = m
  In-sort_by a (x ∷ xs) (inl e) = In-insert_by a x (sort_by xs) (inl e)
  In-sort_by a (x ∷ xs) (inr m) = In-insert_by a x (sort_by xs) (inr (In-sort_by a xs m))

  length-insert_by : (d : A) (es : List A) → length (insert_by d es) ≡ suc (length es)
  unfolding insert_by
  length-insert_by d [] = refl
  length-insert_by d (e ∷ es) = ground (arith, length-insert_by d es)

  length-sort_by : (xs : List A) → length (sort_by xs) ≡ length xs
  unfolding sort_by
  length-sort_by [] = refl
  length-sort_by (x ∷ xs) = omega (arith, length-insert_by x (sort_by xs), length-sort_by xs)

  -- The pick takes rows of the table that pass, at most as many as its limit,
  pub pick-In :
      (n : ℕ) (p : A → Bool) (xs : List A) (a : A) → In a (pick n p xs) → In a xs × (p a ≡ true)
  unfolding pick
  pick-In n p xs a m = In-filter p a xs (sort_by-In a _ (In-take n a _ m))

  pub length-pick : (n : ℕ) (p : A → Bool) (xs : List A) → length (pick n p xs) ≤ n
  unfolding pick
  length-pick n p xs = omega (arith, length-take n (sort_by (filter p xs)))

  -- and all of them where the limit leaves room.
  pub pick_all :
      (n : ℕ) (p : A → Bool) (xs : List A) (a : A)
      → length (filter p xs) ≤ n
      → In a xs
      → p a ≡ true
      → In a (pick n p xs)
  unfolding pick
  pick_all n p xs a fits m h =
      let passing = filter p xs in
      take_all n a (sort_by passing) (omega (arith, length-sort_by passing))
        (In-sort_by a passing (filter-In p a xs m h))

-- `WHERE id IN (...)`
module _ {A : Type 0} (key : A → ℕ) where
  abbrev pub is_among : List A → A → Bool
  is_among rows a = any (λ r. key a == key r) rows

  pub among-In :
      (rows xs : List A) (a : A)
      → ((r : A) → In r rows → In r xs)
      → Keyed key xs
      → In a xs
      → is_among rows a ≡ true
      → In a rows
  among-In rows xs a from k m h =
      let (r, mr, e) = any-In (λ r. key a == key r) rows h in
      let same : key a ≡ key r = ground arith in
      subst (λ x. In x rows) (sym (Keyed-same key a r xs k m (from r mr) same)) mr

  pub In-among : (rows : List A) (a : A) → In a rows → is_among rows a ≡ true
  In-among rows a m = In-any (λ r. key a == key r) a rows m (ground arith)

-- A selection of rows that have different keys has different keys.
module _ {A : Type 0} (key : A → ℕ) where
  take-Keyed : (n : ℕ) (xs : List A) → Keyed key xs → Keyed key (take n xs)
  take-Keyed zero xs k = tt
  take-Keyed (suc n) [] k = tt
  take-Keyed (suc n) (x ∷ xs) k = (
    All-of-In _ (take n xs) (λ y m. All-In (λ z. key x ≢ key z) y xs k.0 (In-take n y xs m)),
    take-Keyed n xs k.1,
  )

  cons-if-Keyed :
      (b : Bool) (x : A) (xs : List A)
      → All (λ y. key x ≢ key y) xs
      → Keyed key xs
      → Keyed key (if b then x ∷ xs else xs)
  cons-if-Keyed true x xs h k = (h, k)
  cons-if-Keyed false x xs h k = k

  pub filter-Keyed : (p : A → Bool) (xs : List A) → Keyed key xs → Keyed key (filter p xs)
  filter-Keyed p [] k = tt
  filter-Keyed p (x ∷ xs) k =
      cons-if-Keyed (p x) x (filter p xs) (All-filter (λ y. key x ≢ key y) p xs k.0)
        (filter-Keyed p xs k.1)

module _ {A : Type 0} (before : A → A → Bool) (key : A → ℕ) where
  insert_by-Keyed :
      (a : A) (xs : List A)
      → All (λ y. key a ≢ key y) xs
      → Keyed key xs
      → Keyed key (insert_by before a xs)
  unfolding insert_by
  insert_by-Keyed a [] h k = (tt, tt)
  insert_by-Keyed a (x ∷ xs) h k = elim (Bool-cases (before a x)) [
    | inl e ↦ rw e (h, k)
    | inr e ↦ rw e (
      All-of-In (λ y. key x ≢ key y) (insert_by before a xs)
          (λ y m. elim (insert_by-In before y a xs m) [
            | inl same ↦ λ q. h.0 (ap key (sym same) ∙ sym q)
            | inr m' ↦ All-In (λ z. key x ≢ key z) y xs k.0 m'
          ]),
      insert_by-Keyed a xs h.1 k.1,
    )
  ]

  sort_by-Keyed : (xs : List A) → Keyed key xs → Keyed key (sort_by before xs)
  unfolding sort_by
  sort_by-Keyed [] k = tt
  sort_by-Keyed (x ∷ xs) k =
      insert_by-Keyed x (sort_by before xs)
        (All-of-In _ (sort_by before xs)
          (λ y m. All-In (λ z. key x ≢ key z) y xs k.0 (sort_by-In before y xs m)))
        (sort_by-Keyed xs k.1)

  pub pick-Keyed :
      (n : ℕ) (p : A → Bool) (xs : List A) → Keyed key xs → Keyed key (pick before n p xs)
  unfolding pick
  pick-Keyed n p xs k =
      take-Keyed key n (sort_by before (filter p xs))
        (sort_by-Keyed (filter p xs) (filter-Keyed key p xs k))
