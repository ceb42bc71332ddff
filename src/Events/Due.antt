-- ===== src/Events/Due.antt =====
-- What makes a delivery due to be claimed.
use alchemist_template.Common.{
  ℕ, ◌≤◌, ◌≡◌, refl, ◌⊎◌, inl, inr, Bool, true, false, Option, none, some, arith,
}
use alchemist_template.Events.Store.{
  pending, running, done, failed, dead, event_of, Status, subscription_of, Event, is_claimable,
  Subscription, Delivery, Store,
}
use alchemist_template.Events.Claim.{ClaimOptions, joined, is_due}

-- A delivery that a claim may take, told apart from the query: it waits, its time has come, no other
-- transaction holds it, and its subscription is active.
abbrev pub Takeable : (ℕ → Bool) → Store → Delivery → Type 0
Takeable locked s d =
    ((d.status ≡ pending) ⊎ (d.status ≡ failed))
    × (d.next_attempt_at ≤ s.now)
    × (locked d.id ≡ false)
    × (sub : Subscription) × (subscription_of s.subscriptions d.subscription_id ≡ some sub)
    × (sub.active ≡ true)

claimable_cases : (t : Status) → is_claimable t ≡ true → (t ≡ pending) ⊎ (t ≡ failed)
claimable_cases pending h = inl refl
claimable_cases running h = cc
claimable_cases done h = cc
claimable_cases failed h = inr refl
claimable_cases dead h = cc

joined_active :
    (opts : ClaimOptions) (e : Option Event) (o : Option Subscription)
    → joined opts e o ≡ true
    → (sub : Subscription) × (o ≡ some sub) × (sub.active ≡ true)
unfolding joined
joined_active opts none o h = absurd (cc)
joined_active opts (some e) none h = absurd (cc)
joined_active opts (some e) (some sub) h = (sub, refl, ground arith)

pub is_due-Takeable :
    (opts : ClaimOptions) (locked : ℕ → Bool) (s : Store) (d : Delivery)
    → is_due opts locked s d ≡ true
    → Takeable locked s d
unfolding is_due
is_due-Takeable opts locked s d h =
    let (sub, found, active) =
      joined_active opts (event_of s.events d.event_id)
        (subscription_of s.subscriptions d.subscription_id) (ground arith) in
    (claimable_cases d.status (ground arith), ground arith, ground arith, sub, found, active)
