-- ===== src/Events/Publish.antt =====
-- publishEvent of src/lib/events.ts, inside the caller's transaction. The generated ids (uuidv7,
-- gen_random_uuid) are arguments.
use alchemist_template.Common.{
  ℕ, Bool, true, false, not, ◌&&◌, ◌||◌, Option, none, some, [], ◌∷◌, ◌++◌, map, if◌then◌else◌,
  is_some_eq, is_none, or_else, length, filter, Text, eq_text, Result, ◌>>=◌, ok, err,
}
use alchemist_template.Events.Store.{
  pending, EventSource, app, JsonValue, object, array, scalar, null, Event, Subscription, Delivery,
  Store, event_of,
}
use alchemist_template.Events.Topic.{is_topic}

pub record PublishInput : Type 0 where
  pub topic : Text
  pub key : Option Text
  pub payload : Option JsonValue
  pub source : Option EventSource
  pub organization_id : Option ℕ
  pub id : Option ℕ

pub record PublishResult : Type 0 where
  pub id : ℕ
  pub topic : Text
  pub deliveries : ℕ
  pub inserted : Bool

pub data PublishError : Type 0 where
  bad_topic not_plain_object : PublishError

unfoldable pub assert_plain_object : JsonValue → Result PublishError JsonValue
assert_plain_object (object t) = ok (object t)
assert_plain_object (array t) = err not_plain_object
assert_plain_object (scalar t) = err not_plain_object
assert_plain_object null = err not_plain_object

-- `organization_id IS NULL`, or for an event of an organisation that one too.
unfoldable pub hears_organization : Option ℕ → Option ℕ → Bool
hears_organization none sub = is_none sub
hears_organization (some org) sub = is_none sub || is_some_eq sub org

-- The subscriptions that an event of the topic and organisation is fanned out to.
unfoldable pub hears : Text → Option ℕ → Subscription → Bool
unfolding hears_organization
hears topic org s = eq_text s.topic topic && (s.active && hears_organization org s.organization_id)

unfoldable pub new_delivery : (ℕ → ℕ) → ℕ → ℕ → Subscription → Delivery
new_delivery delivery_id event_id now s = record {
  id = delivery_id s.id;
  event_id = event_id;
  subscription_id = s.id;
  status = pending;
  attempts = 0;
  next_attempt_at = now;
  last_error = none;
  claimed_by = none;
  claimed_at = none;
  done_at = none;
  created_at = now;
}

unfoldable pub new_event : ℕ → PublishInput → JsonValue → ℕ → Event
new_event id input payload now = record {
  id = id;
  organization_id = input.organization_id;
  topic = input.topic;
  key = input.key;
  payload = payload;
  source = or_else input.source app;
  created_at = now;
}

-- The insert with `ON CONFLICT (id) DO NOTHING`, and the fanout if it inserted.
unfoldable pub insert_event : (ℕ → ℕ) → ℕ → PublishInput → JsonValue → Store → PublishResult × Store
unfolding new_event
insert_event delivery_id id input payload s =
    let listeners = filter (hears input.topic input.organization_id) s.subscriptions in
    if is_none (event_of s.events id)
    then (
      record { id = id; topic = input.topic; deliveries = length listeners; inserted = true },
      record s {
        events = new_event id input payload s.now ∷ s.events;
        deliveries = s.deliveries ++ map (new_delivery delivery_id id s.now) listeners;
      },
    )
    else (record { id = id; topic = input.topic; deliveries = 0; inserted = false }, s)

unfoldable pub publish_event :
    ℕ → (ℕ → ℕ) → PublishInput → Store → Result PublishError (PublishResult × Store)
unfolding assert_plain_object insert_event
publish_event uuid delivery_id input s =
    if not (is_topic input.topic)
    then err bad_topic
    else assert_plain_object (or_else input.payload (object [])) >>= λ payload.
        ok (insert_event delivery_id (or_else input.id uuid) input payload s)
