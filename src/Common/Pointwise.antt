-- ===== src/Common/Pointwise.antt =====
-- Tables compared row by row.
use mathlib.Core.Path.{refl}
use mathlib.Core.Bool.{Bool}
use mathlib.Core.List.{List, [], ◌∷◌}
use mathlib.Core.Logic.{inl, inr}
use alchemist_template.Common.Tests.{if◌then◌else◌}
use alchemist_template.Common.Members.{In}
use alchemist_template.Common.Updates.{update_where}

module _ {A : Type 0} where
  -- The tables have the same rows, each changed as `R` says.
  abbrev pub Pointwise : (A → A → Type 0) → List A → List A → Type 0
  Pointwise R [] [] = Unit
  Pointwise R (x ∷ xs) (y ∷ ys) = R x y × Pointwise R xs ys
  Pointwise R _ _ = ⊥

  pub Pointwise-refl : (R : A → A → Type 0) (xs : List A) → ((x : A) → R x x) → Pointwise R xs xs
  Pointwise-refl R [] h = tt
  Pointwise-refl R (x ∷ xs) h = (h x, Pointwise-refl R xs h)

  pub Pointwise-update :
      (R : A → A → Type 0) (p : A → Bool) (f : A → A) (xs : List A)
      → ((x : A) → In x xs → R x (if p x then f x else x))
      → Pointwise R xs (update_where p f xs)
  unfolding update_where
  Pointwise-update R p f [] h = tt
  Pointwise-update R p f (x ∷ xs) h =
      (h x (inl refl), Pointwise-update R p f xs (λ y m. h y (inr m)))

  pub Pointwise-trans :
      (R S T : A → A → Type 0) (xs ys zs : List A)
      → ((x y z : A) → In x xs → In y ys → R x y → S y z → T x z)
      → Pointwise R xs ys
      → Pointwise S ys zs
      → Pointwise T xs zs
  Pointwise-trans R S T [] [] [] h p q = tt
  Pointwise-trans R S T [] [] (z ∷ zs) h p q = absurd q
  Pointwise-trans R S T [] (y ∷ ys) zs h p q = absurd p
  Pointwise-trans R S T (x ∷ xs) [] zs h p q = absurd p
  Pointwise-trans R S T (x ∷ xs) (y ∷ ys) [] h p q = absurd q
  Pointwise-trans R S T (x ∷ xs) (y ∷ ys) (z ∷ zs) h p q = (
    h x y z (inl refl) (inl refl) p.0 q.0,
    Pointwise-trans R S T xs ys zs (λ a b c m n. h a b c (inr m) (inr n)) p.1 q.1,
  )

  pub Pointwise-map :
      (R S : A → A → Type 0) (xs ys : List A)
      → ((x y : A) → In x xs → R x y → S x y)
      → Pointwise R xs ys
      → Pointwise S xs ys
  Pointwise-map R S [] [] h p = tt
  Pointwise-map R S [] (y ∷ ys) h p = absurd p
  Pointwise-map R S (x ∷ xs) [] h p = absurd p
  Pointwise-map R S (x ∷ xs) (y ∷ ys) h p =
      (h x y (inl refl) p.0, Pointwise-map R S xs ys (λ a b m. h a b (inr m)) p.1)
