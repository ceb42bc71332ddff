-- ===== src/Events/Sync.antt =====
-- syncSubscriptionsFromRegistry of src/lib/events.ts: one transaction on event_subscriptions. A row's
-- `updated_at` is set by the trigger on every update. The ids of new rows are an argument.
use alchemist_template.Common.{
  ℕ, ◌+◌, Bool, true, false, not, ◌&&◌, none, List, [], ◌∷◌, ltb, if◌then◌else◌, is_none, length,
  any, eq_text, update_where, count_where,
}
use alchemist_template.Events.Store.{Subscription, Kind, handler, Store, webhook}
use alchemist_template.Events.Topic.{RegisteredHandler}

-- `ON CONFLICT (topic, handler) WHERE organization_id IS NULL`
unfoldable pub is_global_for : RegisteredHandler → Subscription → Bool
is_global_for h s =
    is_none s.organization_id && (eq_text s.topic h.topic && eq_text s.handler h.name)

unfoldable pub new_subscription : (RegisteredHandler → ℕ) → ℕ → RegisteredHandler → Subscription
new_subscription new_id now h = record {
  id = new_id h;
  organization_id = none;
  topic = h.topic;
  handler = h.name;
  kind = handler;
  max_attempts = h.max_attempts;
  url = none;
  secret_ref = none;
  active = true;
  updated_at = now;
}

unfoldable pub refreshed : ℕ → RegisteredHandler → Subscription → Subscription
refreshed now h s = record s { max_attempts = h.max_attempts; active = true; updated_at = now }

unfoldable pub upsert_subscription :
    (RegisteredHandler → ℕ) → ℕ → RegisteredHandler → List Subscription → List Subscription
upsert_subscription new_id now h [] = new_subscription new_id now h ∷ []
upsert_subscription new_id now h (s ∷ ss) =
    if is_global_for h s then refreshed now h s ∷ ss else s ∷ upsert_subscription new_id now h ss

unfoldable pub upsert_all :
    (RegisteredHandler → ℕ) → ℕ → List RegisteredHandler → List Subscription → List Subscription
upsert_all new_id now [] ss = ss
upsert_all new_id now (h ∷ hs) ss = upsert_all new_id now hs (upsert_subscription new_id now h ss)

unfoldable pub is_handler_kind : Kind → Bool
is_handler_kind handler = true
is_handler_kind webhook = false

-- The WHERE clause of the deactivation.
unfoldable pub is_abandoned : List RegisteredHandler → ℕ → ℕ → Subscription → Bool
unfolding is_handler_kind
is_abandoned registry grace_ms now s =
    is_none s.organization_id
    && (is_handler_kind s.kind
        && (s.active
            && (ltb (s.updated_at + grace_ms) now
                && not (any (λ h. eq_text s.topic h.topic && eq_text s.handler h.name) registry))))

unfoldable pub deactivated : ℕ → Subscription → Subscription
deactivated now s = record s { active = false; updated_at = now }

pub record SyncResult : Type 0 where
  pub upserted : ℕ
  pub deactivated_rows : ℕ

unfoldable pub sync_subscriptions :
    (RegisteredHandler → ℕ) → ℕ → List RegisteredHandler → Store → SyncResult × Store
sync_subscriptions new_id grace_ms registry s =
    let rows = upsert_all new_id s.now registry s.subscriptions in
    (
      record {
        upserted = length registry;
        deactivated_rows = count_where (is_abandoned registry grace_ms s.now) rows;
      },
      record s {
        subscriptions =
            update_where (is_abandoned registry grace_ms s.now) (deactivated s.now) rows;
      },
    )
