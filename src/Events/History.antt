-- ===== src/Events/History.antt =====
-- Histories of the delivery tables: any sequence of committed transactions of src/lib/events.ts, by
-- any number of consumers. A claim once handed out may write at any later time, however late, so a
-- stalled consumer, a crash and a race are all sequences of these steps. The subscriptions stay as
-- they are: syncSubscriptionsFromRegistry is no step.
use alchemist_template.Common.{
  ℕ, ◌+◌, ◌≡◌, Bool, Option, List, [], ◌∷◌, ◌++◌, map, filter, Text, Result, ok, err,
}
use alchemist_template.Common.Members.{In}
use alchemist_template.Events.Store.{Store, ClaimedDelivery}
use alchemist_template.Events.Finish.{
  Thrown, Random, complete_delivery, fail_delivery, release_claims, replay_delivery,
  requeue_stale_deliveries,
}
use alchemist_template.Events.Claim.{ClaimOptions, ClaimTiming, claim_deliveries}
use alchemist_template.Events.Publish.{PublishInput, hears, new_delivery, publish_event}
use alchemist_template.Events.Reserve.{reserve_idempotency_key}
use alchemist_template.Events.Picks.{HasKey}

pub record System : Type 0 where
  pub store : Store
  pub handed : List ClaimedDelivery

pub data Op : Type 0 where
  publishes : ℕ → (ℕ → ℕ) → PublishInput → Op
  claims : ClaimTiming → Bool → ℕ → ClaimOptions → (ℕ → Bool) → Op
  reserves : ClaimedDelivery → Text → Op
  completes : ClaimedDelivery → Option Text → Op
  fails : ClaimedDelivery → Thrown → Random → ℕ → Op
  releases : ClaimedDelivery → ℕ → Op
  replays : ℕ → Op
  requeues : ℕ → Op
  waits : ℕ → Op

abbrev pub published {ℓ κ} : {E : Type κ} {R : Type ℓ} → System → Result E (R × Store) → System
published sys (ok (r, after)) = record sys { store = after }
published sys (err e) = sys

abbrev pub hand_out {ℓ} : {E : Type ℓ} → System → Result E (List ClaimedDelivery) × Store → System
hand_out sys (ok rows, after) = record { store = after; handed = rows ++ sys.handed }
hand_out sys (err e, after) = record sys { store = after }

unfoldable pub step : Op → System → System
step (publishes uuid delivery_id input) sys =
    published sys (publish_event uuid delivery_id input sys.store)
step (claims timing release_commits batch opts locked) sys =
    hand_out sys (claim_deliveries timing release_commits batch opts locked sys.store)
step (reserves c key) sys = record sys { store = (reserve_idempotency_key c key sys.store).1 }
step (completes c key) sys = record sys {
  store = (complete_delivery c.token c.subscription_id c.event.id key sys.store).1;
}
step (fails c thrown r delay) sys = record sys {
  store = (fail_delivery c.token c.max_attempts thrown r delay sys.store).1;
}
step (releases c delay) sys = record sys {
  store = (release_claims (c.token ∷ []) delay sys.store).1;
}
step (replays id) sys = record sys { store = (replay_delivery id sys.store).1 }
step (requeues stale_ms) sys = record sys {
  store = (requeue_stale_deliveries stale_ms sys.store).1;
}
step (waits ms) sys = record sys { store = record sys.store { now = sys.store.now + ms } }

-- `sub_of` gives the subscription of every delivery id that is ever generated.
module _ (sub_of : ℕ → ℕ) where
  -- Generated ids are fresh, and a consumer writes under a claim that it was handed.
  abbrev pub Allowed : Op → System → Type 0
  Allowed (publishes uuid delivery_id input) sys =
      ((i : ℕ) → sub_of (delivery_id i) ≡ i)
      × ((id : ℕ)
          → HasKey (
              sys.store.deliveries
              ++ map (new_delivery delivery_id id sys.store.now)
                  (filter (hears input.topic input.organization_id) sys.store.subscriptions)))
  Allowed (claims timing release_commits batch opts locked) sys = Unit
  Allowed (reserves c key) sys = In c sys.handed
  Allowed (completes c key) sys = In c sys.handed
  Allowed (fails c thrown r delay) sys = In c sys.handed
  Allowed (releases c delay) sys = In c sys.handed
  Allowed (replays id) sys = Unit
  Allowed (requeues stale_ms) sys = Unit
  Allowed (waits ms) sys = Unit

  pub data Reach (start : System) : System → Type 0 where
    here : Reach start start
    next : {sys : System} → Reach start sys → (op : Op) → Allowed op sys → Reach start (step op sys)
