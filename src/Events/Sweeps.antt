-- ===== src/Events/Sweeps.antt =====
-- What a bounded sweep of a table keeps, and when it is complete.
use alchemist_template.Common.{
  ℕ, zero, suc, ◌-◌, ◌*◌, ◌≤◌, min, ◌≡◌, refl, inl, inr, Bool, false, List, [], ◌∷◌, arith, ltb,
  Bool-cases, length, filter,
}
use alchemist_template.Common.Members.{In}
use alchemist_template.Events.Retention.{sweep_table, delete_limit}

module _ {A : Type 0} (p : A → Bool) where
  limit-keeps : (n : ℕ) (x : A) (xs : List A) → In x xs → p x ≡ false → In x (delete_limit p n xs).1
  unfolding delete_limit
  limit-keeps zero x xs m h = m
  limit-keeps (suc n) x [] m h = absurd m
  limit-keeps (suc n) x (y ∷ ys) (inl e) h = rw (← e, h) (inl refl)
  limit-keeps (suc n) x (y ∷ ys) (inr m) h = elim (Bool-cases (p y)) [
    | inl e ↦ rw e (limit-keeps n x ys m h)
    | inr e ↦ rw e (inr (limit-keeps (suc n) x ys m h))
  ]

  -- A row that does not pass is never deleted.
  pub sweep-keeps :
      (batch rounds : ℕ) (x : A) (xs : List A)
      → In x xs
      → p x ≡ false
      → In x (sweep_table p batch rounds xs).1
  unfolding sweep_table
  sweep-keeps batch zero x xs m h = m
  sweep-keeps batch (suc rounds) x xs m h =
      elim (Bool-cases (ltb (delete_limit p batch xs).0 batch)) [
        | inl e ↦ rw e (limit-keeps batch x xs m h)
        | inr e ↦
            rw e (
              sweep-keeps batch rounds x (delete_limit p batch xs).1 (limit-keeps batch x xs m h) h)
      ]

  -- A batch deletes as many rows as it can.
  limit-count :
      (n : ℕ) (xs : List A)
      → ((delete_limit p n xs).0 ≡ min n (length (filter p xs)))
        × (length (filter p (delete_limit p n xs).1) ≡ length (filter p xs) - n)
  unfolding delete_limit
  limit-count zero xs = (omega arith, omega arith)
  limit-count (suc n) [] = (omega arith, omega arith)
  limit-count (suc n) (x ∷ xs) = ground (arith, limit-count n xs, limit-count (suc n) xs)

  -- Where the batches together cover what passes, nothing that passes is left, and the
  -- count is that of the rows that passed.
  pub sweep-all :
      (batch rounds : ℕ) (xs : List A)
      → length (filter p xs) ≤ rounds * batch
      → (length (filter p (sweep_table p batch rounds xs).1) ≡ 0)
        × ((sweep_table p batch rounds xs).0 ≡ length (filter p xs))
  unfolding sweep_table
  sweep-all batch zero xs h = (omega arith, omega arith)
  sweep-all batch (suc rounds) xs h =
      let (deleted, left) = limit-count batch xs in
      elim (Bool-cases (ltb (delete_limit p batch xs).0 batch)) [
        | inl e ↦ rw e (ground (arith, deleted, left), ground (arith, deleted, left))
        | inr e ↦
            let rest =
              sweep-all batch rounds (delete_limit p batch xs).1 (omega (arith, left, h)) in
            rw e (rest.0, ground (arith, deleted, left, rest.1))
      ]
