-- ===== src/Common/Removal.antt =====
-- A list without its element at an index.
use Prim.Native.Nat.{ℕ, zero, suc}
use mathlib.Core.Path.{◌≡◌, ◌∙◌, sym, ap, subst}
use mathlib.Core.Logic.{◌≢◌, inl, inr}
use mathlib.Core.Option.{some}
use mathlib.Core.List.{List, [], ◌∷◌}
use native.Mathlib.Omega.{arith}
use alchemist_template.Common.Lists.{get_elem?}
use alchemist_template.Common.Members.{In, All-In, All-of-In, get-In}
use alchemist_template.Common.Updates.{Keyed}

abbrev pub remove_at {ℓ} : {A : Type ℓ} → ℕ → List A → List A
remove_at i [] = []
remove_at zero (x ∷ xs) = xs
remove_at (suc i) (x ∷ xs) = x ∷ remove_at i xs

module _ {A : Type 0} where
  pub remove_at-In : (i : ℕ) (a : A) (xs : List A) → In a (remove_at i xs) → In a xs
  remove_at-In i a [] m = absurd m
  remove_at-In zero a (x ∷ xs) m = inr m
  remove_at-In (suc i) a (x ∷ xs) (inl e) = inl e
  remove_at-In (suc i) a (x ∷ xs) (inr m) = inr (remove_at-In i a xs m)

module _ {A : Type 0} (key : A → ℕ) where
  pub remove_at-Keyed : (i : ℕ) (xs : List A) → Keyed key xs → Keyed key (remove_at i xs)
  remove_at-Keyed i [] k = tt
  remove_at-Keyed zero (x ∷ xs) k = k.1
  remove_at-Keyed (suc i) (x ∷ xs) k = (
    All-of-In _ (remove_at i xs)
        (λ y m. All-In (λ y. key x ≢ key y) y xs k.0 (remove_at-In i y xs m)),
    remove_at-Keyed i xs k.1,
  )

  -- What is left after a removal is apart from what was removed.
  pub remove_at-apart :
      (i : ℕ) (x y : A) (xs : List A)
      → Keyed key xs
      → get_elem? xs i ≡ some x
      → In y (remove_at i xs)
      → key x ≢ key y
  remove_at-apart i x y [] k e m = absurd m
  remove_at-apart zero x y (z ∷ zs) k e m =
      let same : z ≡ x = ground arith in
      subst (λ w. key w ≢ key y) same (All-In (λ w. key z ≢ key w) y zs k.0 m)
  remove_at-apart (suc i) x y (z ∷ zs) k e (inl q) =
      λ p. All-In (λ w. key z ≢ key w) x zs k.0 (get-In zs i e) (ap key (sym q) ∙ sym p)
  remove_at-apart (suc i) x y (z ∷ zs) k e (inr m) = remove_at-apart i x y zs k.1 e m
