-- ===== src/Common/Members.antt =====
-- Membership by recursion on the list, which a proof can take apart.
use Prim.Native.Nat.{ℕ, ◌≤◌, zero, suc}
use mathlib.Core.Path.{◌≡◌, refl, sym, ap, subst}
use mathlib.Core.Logic.{◌⊎◌, inl, inr}
use mathlib.Core.Bool.{Bool, true, false}
use mathlib.Core.List.{List, [], ◌∷◌, ◌++◌, map}
use mathlib.Core.Option.{some}
use native.Mathlib.Omega.{arith}
use alchemist_template.Common.Tests.{if◌then◌else◌, Bool-cases}
use alchemist_template.Common.Lists.{length, filter, find?, any, take, All, get_elem?}

module _ {A : Type 0} where
  abbrev pub In : A → List A → Type 0
  In a [] = ⊥
  In a (x ∷ xs) = (a ≡ x) ⊎ In a xs

  In-if-cons :
      (b : Bool) (a x : A) (xs : List A)
      → In a (if b then x ∷ xs else xs)
      → ((b ≡ true) × (a ≡ x)) ⊎ In a xs
  In-if-cons true a x xs (inl e) = inl (refl, e)
  In-if-cons true a x xs (inr m) = inr m
  In-if-cons false a x xs m = inr m

  -- A filter keeps elements of the list that pass.
  pub In-filter : (p : A → Bool) (a : A) (xs : List A) → In a (filter p xs) → In a xs × (p a ≡ true)
  In-filter p a [] m = absurd m
  In-filter p a (x ∷ xs) m = elim (In-if-cons (p x) a x (filter p xs) m) [
    | inl (e, same) ↦ (inl same, rw same e)
    | inr rest ↦ let (m', e) = In-filter p a xs rest in (inr m', e)
  ]

  pub In-take : (n : ℕ) (a : A) (xs : List A) → In a (take n xs) → In a xs
  In-take zero a xs m = absurd m
  In-take (suc n) a [] m = absurd m
  In-take (suc n) a (x ∷ xs) (inl e) = inl e
  In-take (suc n) a (x ∷ xs) (inr m) = inr (In-take n a xs m)

  -- What `any` finds is an element of the list.
  pub any-In : (p : A → Bool) (xs : List A) → any p xs ≡ true → (a : A) × In a xs × (p a ≡ true)
  any-In p [] h = absurd (cc)
  any-In p (x ∷ xs) h = elim (Bool-cases (p x)) [
    | inl e ↦ (x, inl refl, e)
    | inr e ↦ let (a, m, q) = any-In p xs (ground arith) in (a, inr m, q)
  ]

  pub In-any : (p : A → Bool) (a : A) (xs : List A) → In a xs → p a ≡ true → any p xs ≡ true
  In-any p a [] m h = absurd m
  In-any p a (x ∷ xs) (inl e) h = ground arith
  In-any p a (x ∷ xs) (inr m) h = ground (arith, In-any p a xs m h)

  -- What `find?` finds is an element that passes.
  pub find?-In : (p : A → Bool) (a : A) (xs : List A) → find? p xs ≡ some a → In a xs × (p a ≡ true)
  find?-In p a [] h = absurd (cc)
  find?-In p a (x ∷ xs) h = elim (Bool-cases (p x)) [
    | inl e ↦ let same : x ≡ a = ground arith in (inl (sym same), subst (λ y. p y ≡ true) same e)
    | inr e ↦ let (m, q) = find?-In p a xs (ground arith) in (inr m, q)
  ]

  pub All-In {κ} : (P : A → Type κ) (a : A) (xs : List A) → All P xs → In a xs → P a
  All-In P a [] h m = absurd m
  All-In P a (x ∷ xs) h (inl e) = rw e h.0
  All-In P a (x ∷ xs) h (inr m) = All-In P a xs h.1 m

  pub get-In : (xs : List A) (i : ℕ) {a : A} → get_elem? xs i ≡ some a → In a xs
  get-In [] i h = absurd (cc)
  get-In (x ∷ xs) zero h = inl (ground arith)
  get-In (x ∷ xs) (suc i) h = inr (get-In xs i h)

  -- To prove a property of every element, one may use that it is an element.
  pub All-of-In {κ} : (P : A → Type κ) (xs : List A) → ((a : A) → In a xs → P a) → All P xs
  All-of-In P [] h = tt
  All-of-In P (x ∷ xs) h = (h x (inl refl), All-of-In P xs (λ a m. h a (inr m)))

  In-cons-if : (b : Bool) (a x : A) (xs : List A) → In a xs → In a (if b then x ∷ xs else xs)
  In-cons-if true a x xs m = inr m
  In-cons-if false a x xs m = m

  pub filter-In : (p : A → Bool) (a : A) (xs : List A) → In a xs → p a ≡ true → In a (filter p xs)
  filter-In p a [] m h = absurd m
  filter-In p a (x ∷ xs) (inl e) h = rw (← e, h) (inl refl)
  filter-In p a (x ∷ xs) (inr m) h = In-cons-if (p x) a x (filter p xs) (filter-In p a xs m h)

  pub take_all : (n : ℕ) (a : A) (xs : List A) → length xs ≤ n → In a xs → In a (take n xs)
  take_all n a [] le m = absurd m
  take_all zero a (x ∷ xs) le m = absurd (omega arith)
  take_all (suc n) a (x ∷ xs) le (inl e) = inl e
  take_all (suc n) a (x ∷ xs) le (inr m) = inr (take_all n a xs (omega arith) m)

  pub In-append : (a : A) (xs ys : List A) → In a (xs ++ ys) → In a xs ⊎ In a ys
  In-append a [] ys m = inr m
  In-append a (x ∷ xs) ys (inl e) = inl (inl e)
  In-append a (x ∷ xs) ys (inr m) = elim (In-append a xs ys m) [
    | inl q ↦ inl (inr q)
    | inr q ↦ inr q
  ]

  pub append-In-left : (a : A) (xs ys : List A) → In a xs → In a (xs ++ ys)
  append-In-left a [] ys m = absurd m
  append-In-left a (x ∷ xs) ys (inl e) = inl e
  append-In-left a (x ∷ xs) ys (inr m) = inr (append-In-left a xs ys m)

  pub append-In-right : (a : A) (xs ys : List A) → In a ys → In a (xs ++ ys)
  append-In-right a [] ys m = m
  append-In-right a (x ∷ xs) ys m = inr (append-In-right a xs ys m)

module _ {A B : Type 0} (f : A → B) where
  pub In-map : (b : B) (xs : List A) → In b (map f xs) → (a : A) × In a xs × (b ≡ f a)
  In-map b [] m = absurd m
  In-map b (x ∷ xs) (inl e) = (x, inl refl, e)
  In-map b (x ∷ xs) (inr m) = let (a, at, e) = In-map b xs m in (a, inr at, e)

  pub map-In : (a : A) (xs : List A) → In a xs → In (f a) (map f xs)
  map-In a [] m = absurd m
  map-In a (x ∷ xs) (inl e) = inl (ap f e)
  map-In a (x ∷ xs) (inr m) = inr (map-In a xs m)
