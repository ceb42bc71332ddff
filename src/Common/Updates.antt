-- ===== src/Common/Updates.antt =====
-- `UPDATE ... WHERE` on a table that is a list of rows, what it does to the rows that it picks and to
-- those that it does not, and tables with a primary key.
use Prim.Native.Nat.{ℕ, zero, suc}
use mathlib.Core.Path.{◌≡◌, refl, sym, ap, ◌∙◌}
use mathlib.Core.Logic.{◌≢◌, ◌⊎◌, inl, inr}
use mathlib.Core.Bool.{Bool, true, false}
use mathlib.Core.Option.{some}
use mathlib.Core.List.{List, [], ◌∷◌, ◌++◌, map}
use native.Mathlib.Omega.{arith}
use alchemist_template.Common.Tests.{if◌then◌else◌, Bool-cases}
use alchemist_template.Common.Lists.{length, filter, any, All, All-append, All-map, get_elem?}
use alchemist_template.Common.Members.{In, All-In, All-of-In}

-- `UPDATE t SET ... WHERE p`
unfoldable pub update_where {ℓ} : {A : Type ℓ} → (A → Bool) → (A → A) → List A → List A
update_where p f [] = []
update_where p f (x ∷ xs) = (if p x then f x else x) ∷ update_where p f xs

-- The number of rows that such an update reports.
abbrev pub count_where {ℓ} : {A : Type ℓ} → (A → Bool) → List A → ℕ
count_where p xs = length (filter p xs)

module _ {ℓ} {A : Type ℓ} where
  -- A row that the clause does not pick stays as it is, at its place.
  pub update-kept :
      (p : A → Bool) (f : A → A) (xs : List A) (i : ℕ) {x : A}
      → get_elem? xs i ≡ some x
      → p x ≡ false
      → get_elem? (update_where p f xs) i ≡ some x
  unfolding update_where
  update-kept p f [] i e h = cc
  update-kept p f (y ∷ ys) zero e h = ground arith
  update-kept p f (y ∷ ys) (suc i) e h = update-kept p f ys i e h

  -- A row that it picks is rewritten, at its place.
  pub update-hit :
      (p : A → Bool) (f : A → A) (xs : List A) (i : ℕ) {x : A}
      → get_elem? xs i ≡ some x
      → p x ≡ true
      → get_elem? (update_where p f xs) i ≡ some (f x)
  unfolding update_where
  update-hit p f [] i e h = cc
  update-hit p f (y ∷ ys) zero e h = ground arith
  update-hit p f (y ∷ ys) (suc i) e h = update-hit p f ys i e h

  -- Where the rewritten row is picked no more, nothing is picked afterwards.
  pub update-clears :
      (p : A → Bool) (f : A → A) (xs : List A)
      → ((x : A) → p x ≡ true → p (f x) ≡ false)
      → any p (update_where p f xs) ≡ false
  unfolding update_where
  update-clears p f [] h = refl
  update-clears p f (x ∷ xs) h = ground (arith, h x, update-clears p f xs h)

  -- A property that the rewriting keeps is kept by the update.
  pub update-All {κ} :
      (P : A → Type κ) (p : A → Bool) (f : A → A) (xs : List A)
      → ((x : A) → p x ≡ true → P x → P (f x))
      → All P xs
      → All P (update_where p f xs)
  unfolding update_where
  update-All P p f [] step h = tt
  update-All P p f (x ∷ xs) step h = (
    elim (Bool-cases (p x)) [ inl e ↦ rw e (step x e h.0) | inr e ↦ rw e h.0 ],
    update-All P p f xs step h.1,
  )

module _ {A : Type 0} where
  -- The same, where the step may use that the row is in the table.
  pub update-All-In {κ} :
      (P : A → Type κ) (p : A → Bool) (f : A → A) (xs : List A)
      → ((x : A) → In x xs → p x ≡ true → P x → P (f x))
      → All P xs
      → All P (update_where p f xs)
  unfolding update_where
  update-All-In P p f [] step h = tt
  update-All-In P p f (x ∷ xs) step h = (
    elim (Bool-cases (p x)) [ inl e ↦ rw e (step x (inl refl) e h.0) | inr e ↦ rw e h.0 ],
    update-All-In P p f xs (λ y m. step y (inr m)) h.1,
  )

module _ {A : Type 0} where
  -- The rows that are picked and the others, each shown to be as they should be afterwards.
  pub update-All-split {κ} :
      (P : A → Type κ) (p : A → Bool) (f : A → A) (xs : List A)
      → ((x : A) → In x xs → p x ≡ true → P (f x))
      → ((x : A) → In x xs → p x ≡ false → P x)
      → All P (update_where p f xs)
  unfolding update_where
  update-All-split P p f [] hit out = tt
  update-All-split P p f (x ∷ xs) hit out = (
    elim (Bool-cases (p x)) [
      | inl e ↦ rw e (hit x (inl refl) e)
      | inr e ↦ rw e (out x (inl refl) e)
    ],
    update-All-split P p f xs (λ y m. hit y (inr m)) (λ y m. out y (inr m)),
  )

-- A table whose rows have different keys.
module _ {A : Type 0} (key : A → ℕ) where
  abbrev pub Keyed : List A → Type 0
  Keyed [] = Unit
  Keyed (x ∷ xs) = All (λ y. key x ≢ key y) xs × Keyed xs

  pub Keyed-same : (x y : A) (xs : List A) → Keyed xs → In x xs → In y xs → key x ≡ key y → x ≡ y
  Keyed-same x y [] k mx my e = absurd mx
  Keyed-same x y (z ∷ zs) k (inl a) (inl b) e = a ∙ sym b
  Keyed-same x y (z ∷ zs) k (inl a) (inr m) e =
      absurd (All-In (λ w. key z ≢ key w) y zs k.0 m (ap key (sym a) ∙ e))
  Keyed-same x y (z ∷ zs) k (inr m) (inl b) e =
      absurd (All-In (λ w. key z ≢ key w) x zs k.0 m (ap key (sym b) ∙ sym e))
  Keyed-same x y (z ∷ zs) k (inr mx) (inr my) e = Keyed-same x y zs k.1 mx my e

  -- An update that leaves the keys leaves them different.
  pub update-Keyed :
      (p : A → Bool) (f : A → A) (xs : List A)
      → ((x : A) → key (f x) ≡ key x)
      → Keyed xs
      → Keyed (update_where p f xs)
  unfolding update_where
  update-Keyed p f [] same k = tt
  update-Keyed p f (x ∷ xs) same k =
      let rest = update-Keyed p f xs same k.1 in
      let apart = update-All (λ y. key x ≢ key y) p f xs (λ y h q. rw (same y) q) k.0 in
      elim (Bool-cases (p x)) [ inl e ↦ rw (e, same x) (apart, rest) | inr e ↦ rw e (apart, rest) ]

-- Every row of an updated table comes from a row of the table.
module _ {A : Type 0} where
  pub In-update :
      (p : A → Bool) (f : A → A) (a : A) (xs : List A)
      → In a (update_where p f xs)
      → (x : A) × In x xs × (a ≡ (if p x then f x else x))
  unfolding update_where
  In-update p f a [] m = absurd m
  In-update p f a (x ∷ xs) (inl e) = (x, inl refl, e)
  In-update p f a (x ∷ xs) (inr m) = let (y, my, e) = In-update p f a xs m in (y, inr my, e)

-- Tables that are appended.
module _ {A : Type 0} (key : A → ℕ) where
  pub append-Keyed :
      (xs ys : List A)
      → Keyed key xs
      → Keyed key ys
      → ((x y : A) → In x xs → In y ys → key x ≢ key y)
      → Keyed key (xs ++ ys)
  append-Keyed [] ys kx ky apart = ky
  append-Keyed (x ∷ xs) ys kx ky apart = (
    All-append (λ y. key x ≢ key y) xs ys kx.0
        (All-of-In (λ y. key x ≢ key y) ys (λ y m. apart x y (inl refl) m)),
    append-Keyed xs ys kx.1 ky (λ a b m n. apart a b (inr m) n),
  )

module _ {A : Type 0} where
  -- Such a row was picked and rewritten, or was not picked.
  pub In-update-cases :
      (p : A → Bool) (f : A → A) (a : A) (xs : List A)
      → In a (update_where p f xs)
      → ((x : A) × In x xs × (p x ≡ true) × (a ≡ f x)) ⊎ (In a xs × (p a ≡ false))
  In-update-cases p f a xs m =
      let (x, mx, e) = In-update p f a xs m in
      elim (Bool-cases (p x)) [
        | inl h ↦ inl (x, mx, h, rw h at e)
        | inr h ↦ let same : a ≡ x = rw h at e in inr (rw same mx, rw same h)
      ]

module _ {A B : Type 0} (f : A → B) (key : B → ℕ) {old : A → ℕ}
    (same : (a : A) → key (f a) ≡ old a) where
  pub map-Keyed : (xs : List A) → Keyed old xs → Keyed key (map f xs)
  map-Keyed [] k = tt
  map-Keyed (x ∷ xs) k = (
    All-map (λ y. old x ≢ old y) (λ y. key (f x) ≢ key y) f
        (λ y ne e. ne (sym (same x) ∙ e ∙ same y)) xs k.0,
    map-Keyed xs k.1,
  )

-- What an update leaves alone in each row it leaves alone in the table.
module _ {A B : Type 0} (field : A → B) where
  pub map-update :
      (p : A → Bool) (f : A → A) (xs : List A)
      → ((x : A) → field (f x) ≡ field x)
      → map field (update_where p f xs) ≡ map field xs
  unfolding update_where
  map-update p f [] same = refl
  map-update p f (x ∷ xs) same = elim (Bool-cases (p x)) [
    | inl e ↦ rw (e, same x, map-update p f xs same) refl
    | inr e ↦ rw (e, map-update p f xs same) refl
  ]
