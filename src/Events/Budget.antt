-- ===== src/Events/Budget.antt =====
-- The attempt budget: the counter of attempts on a delivery, and the limit of its subscription.
mod Examples
mod Runs
mod Bound
use alchemist_template.Common.{
  ℕ, ◌≤◌, ◌<◌, max, ◌≡◌, sym, ap, ◌∙◌, inl, inr, Bool, true, some, List, [], ◌∷◌, arith, ◌==◌,
  Bool-cases, Option-cases, All, Text,
}
use alchemist_template.Events.Rows.{owns-id}
use mathlib.Core.Option
use alchemist_template.Events.Store.{
  Store, Subscription, Delivery, ClaimToken, ClaimedDelivery, is_claimable, owns, subscription_of,
}
use alchemist_template.Events.Finish.{
  Random, fail_outcome, finished, failed_row, released, replayed, requeued, is_stale,
  max_attempts_of,
}
use alchemist_template.Events.Claim.{ClaimOptions, is_due, claimed}
use alchemist_template.Events.Picks.{HasKey}

module _ (sub_of max_of : ℕ → ℕ) where
  pub record RowOk (d : Delivery) : Type 0 where
    pub of_sub : d.subscription_id ≡ sub_of d.id
    pub allowed : 1 ≤ max_of d.subscription_id
    pub within : d.attempts ≤ max_of d.subscription_id
    pub left : is_claimable d.status ≡ true → d.attempts < max_of d.subscription_id

  pub record SubOk (s : Subscription) : Type 0 where
    pub max : s.max_attempts ≡ max_of s.id
    pub positive : 1 ≤ s.max_attempts

  pub record ClaimOk (c : ClaimedDelivery) : Type 0 where
    pub of_sub : c.subscription_id ≡ sub_of c.id
    pub max : c.max_attempts ≡ max_of c.subscription_id

  finished-RowOk : (now : ℕ) (d : Delivery) → RowOk d → RowOk (finished now d)
  unfolding finished
  finished-RowOk now d v = ground arith

  failed-RowOk :
      (c : ClaimedDelivery) (r : Random) (delay : ℕ) (message : Text) (now : ℕ) (d : Delivery)
      → ClaimOk c
      → owns c.token d ≡ true
      → RowOk d
      → RowOk (failed_row (fail_outcome c.token c.max_attempts r delay) message now d)
  unfolding failed_row fail_outcome owns
  failed-RowOk c r delay message now d k h v =
      let same : c.max_attempts ≡ max_of d.subscription_id =
        k.max ∙ ap max_of (k.of_sub ∙ ap sub_of (sym (owns-id c.token d h)) ∙ sym v.of_sub) in
      ground arith

  released-RowOk : (due : ℕ) (d : Delivery) → RowOk d → RowOk (released due d)
  unfolding released
  released-RowOk due d v = ground arith

  replayed-RowOk : (now : ℕ) (d : Delivery) → RowOk d → RowOk (replayed now d)
  unfolding replayed
  replayed-RowOk now d v = ground arith

  claimed-RowOk :
      (by now : ℕ) (d : Delivery)
      → is_claimable d.status ≡ true
      → RowOk d
      → RowOk (claimed by now d)
  unfolding claimed
  claimed-RowOk by now d h v = ground (arith, v.left h)

  sub-max :
      (subs : List Subscription) (i : ℕ) (s : Subscription)
      → All SubOk subs
      → subscription_of subs i ≡ some s
      → s.max_attempts ≡ max_of i
  unfolding subscription_of
  sub-max [] i s h e = absurd (cc)
  sub-max (x ∷ xs) i s h e = elim (Bool-cases (x.id == i)) [
    | inl hit ↦
        let same : x ≡ s = ground arith in
        let at : x.id ≡ i = ground arith in rw (← same) (h.0.max ∙ ap max_of at)
    | inr miss ↦ sub-max xs i s h.1 (ground arith)
  ]

  requeued-RowOk :
      (stale_ms : ℕ) (s : Store) (d : Delivery)
      → All SubOk s.subscriptions
      → is_stale stale_ms s d ≡ true
      → RowOk d
      → RowOk (requeued s d)
  unfolding requeued is_stale max_attempts_of
  requeued-RowOk stale_ms s d subs h v =
      elim (Option-cases (subscription_of s.subscriptions d.subscription_id)) [
        | inl e ↦ absurd (ground arith)
        | inr (sub, e) ↦
            let m : sub.max_attempts ≡ max_of d.subscription_id =
              sub-max s.subscriptions d.subscription_id sub subs e in
            rw e (ground arith)
      ]

  -- The rows and subscriptions of a store, and the claims that were handed out.
  pub record Budgeted (s : Store) : Type 0 where
    pub rows : All RowOk s.deliveries
    pub subs : All SubOk s.subscriptions
    pub key : HasKey s.deliveries

  pub claim-due :
      (batch : ℕ) (opts : ClaimOptions) (locked : ℕ → Bool) (s : Store) (d : Delivery)
      → is_due opts locked s d ≡ true
      → is_claimable d.status ≡ true
  unfolding is_due
  claim-due batch opts locked s d h = ground arith
