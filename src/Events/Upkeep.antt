-- ===== src/Events/Upkeep.antt =====
-- The boot sync and the retention sweep on small stores.
use alchemist_template.Common.{
  ◌+◌, ◌*◌, ◌<◌, ◌≡◌, refl, ◌⊎◌, inl, true, false, none, some, [], ◌∷◌, arith, get_elem?, codes,
  eq_text, update_where,
}
use alchemist_template.Common.Members.{In}
use alchemist_template.Events.Kept.{sweep_holds, sweep_complete}
use alchemist_template.Events.Seen.{sync_deactivates}
use alchemist_template.Events.Sample.{signup_topic, welcome, fresh_store, waiting, signup}
use alchemist_template.Events.Topic.{RegisteredHandler}
use alchemist_template.Events.Sync.{
  sync_subscriptions, upsert_all, upsert_subscription, is_global_for, is_abandoned, deactivated,
  new_subscription,
}
use alchemist_template.Events.Retention.{
  RetentionOptions, is_expired_delivery, sweep_event_retention, sweep_deliveries, sweep_events,
  day_ms,
}
use alchemist_template.Events.Store.{done, Store, Subscription, handler, subscription_of}

abbrev digest : RegisteredHandler
digest = record {
  topic = signup_topic;
  name = codes "digest";
  max_attempts = 8;
  idempotency_key = none;
}

-- An hour and a second after the only subscription was last seen.
abbrev later_store : Store
later_store = record fresh_store { now = 3601000 }

welcome_deactivated :
    (sync_subscriptions (λ h. 9) 3600000 (digest ∷ []) later_store).1.subscriptions
    ≡ record welcome { active = false; updated_at = 3601000 }
      ∷ record welcome { id = 9; handler = codes "digest"; max_attempts = 8; updated_at = 3601000 }
      ∷ []
unfolding sync_subscriptions update_where upsert_all upsert_subscription is_global_for eq_text
    is_abandoned deactivated new_subscription
welcome_deactivated = refl

sync_deactivates_example :
    (u : Subscription) × (get_elem?
        (sync_subscriptions (λ h. 9) 3600000 (digest ∷ []) later_store).1.subscriptions
        0
      ≡ some u)
    × (u.id ≡ 2)
    × (u.organization_id ≡ welcome.organization_id)
    × (u.topic ≡ signup_topic)
    × (u.handler ≡ codes "welcome")
    × (u.kind ≡ welcome.kind)
    × ((u.active ≡ true)
        ⊎ (welcome.active ≡ false)
        ⊎ ((welcome.organization_id ≡ none)
            × (welcome.kind ≡ handler)
            × (0 + 3600000 < 3601000)
            × ((h : RegisteredHandler)
                → In h (digest ∷ [])
                → ¬ ((h.topic ≡ signup_topic) × (h.name ≡ codes "welcome")))))
sync_deactivates_example =
    sync_deactivates (λ h. 9) 3600000 (digest ∷ []) later_store 0 welcome refl

abbrev each_day : RetentionOptions
each_day = record {
  done_deliveries_after_days = 1;
  events_after_days = 1;
  batch = none;
  max_batches = none;
}

-- Two days later one delivery is done, and one still waits, which holds the event.
abbrev done_store : Store
done_store = record fresh_store {
  deliveries = record waiting { id = 4; status = done; done_at = some 20 } ∷ waiting ∷ [];
  now = 2 * day_ms;
}

abbrev waiting_store : Store
waiting_store = record fresh_store { now = 2 * day_ms }

one_swept :
    sweep_event_retention each_day done_store
    ≡ (record { deliveries_deleted = 1; events_deleted = 0 }, waiting_store)
unfolding sweep_event_retention sweep_deliveries sweep_events subscription_of
one_swept = refl

sweep_holds_example :
    In signup (sweep_event_retention each_day waiting_store).1.events
    × In waiting (sweep_event_retention each_day waiting_store).1.deliveries
unfolding subscription_of
sweep_holds_example =
    sweep_holds each_day waiting_store signup waiting welcome (inl refl) (inl refl) refl (inl refl)
      refl refl

sweep_complete_example : is_expired_delivery 1 (2 * day_ms) waiting ≡ false
unfolding is_expired_delivery sweep_event_retention sweep_deliveries sweep_events subscription_of
sweep_complete_example =
    sweep_complete each_day done_store (omega arith) (omega arith) waiting (inl refl)
