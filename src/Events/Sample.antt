-- ===== src/Events/Sample.antt =====
-- A small store for the tests of the event modules.
use alchemist_template.Common.{ℕ, Bool, true, false, none, some, [], ◌∷◌, Text, codes, decimal}
use alchemist_template.Common.Int.{pos}
use alchemist_template.Events.Finish.{Random, error}
use alchemist_template.Events.Publish.{PublishInput}
use alchemist_template.Events.Claim.{ClaimOptions}
use alchemist_template.Events.Store.{
  handler, pending, running, ClaimedDelivery, ClaimToken, Event, Store, Subscription, Delivery,
  object, app,
}
use alchemist_template.Events.Process.{World, threw}

abbrev pub signup_topic : Text
signup_topic = codes "user.created"

abbrev pub signup : Event
signup = record {
  id = 1;
  organization_id = none;
  topic = signup_topic;
  key = none;
  payload = object [];
  source = app;
  created_at = 0;
}

abbrev pub welcome : Subscription
welcome = record {
  id = 2;
  organization_id = none;
  topic = signup_topic;
  handler = codes "welcome";
  kind = handler;
  max_attempts = 3;
  url = none;
  secret_ref = none;
  active = true;
  updated_at = 0;
}

abbrev pub waiting : Delivery
waiting = record {
  id = 3;
  event_id = 1;
  subscription_id = 2;
  status = pending;
  attempts = 0;
  next_attempt_at = 5;
  last_error = none;
  claimed_by = none;
  claimed_at = none;
  done_at = none;
  created_at = 5;
}

abbrev pub taken : Delivery
taken = record waiting { status = running; attempts = 1; claimed_by = some 7; claimed_at = some 10 }

abbrev pub fresh_store : Store
fresh_store = record {
  events = signup ∷ [];
  subscriptions = welcome ∷ [];
  deliveries = waiting ∷ [];
  receipts = [];
  now = 10;
}

abbrev pub busy_store : Store
busy_store = record fresh_store { deliveries = taken ∷ [] }

abbrev pub taken_token : ClaimToken
taken_token = record { id = 3; claimed_by = 7; attempts = 1 }

abbrev pub taken_claim : ClaimedDelivery
taken_claim = record {
  token = taken_token;
  subscription_id = 2;
  max_attempts = 3;
  handler_name = codes "welcome";
  kind = handler;
  url = none;
  secret_ref = none;
  event = signup;
}

abbrev pub other_claim : ClaimedDelivery
other_claim = record taken_claim { token = record { id = 4; claimed_by = 8; attempts = 1 } }

abbrev pub claim_options : ClaimOptions
claim_options = record { claimed_by = 7; topics = []; runnable_handlers = none }

abbrev pub none_locked : ℕ → Bool
none_locked i = false

abbrev pub half : Random
half = record { numerator = pos 1; below = 1 }

abbrev pub signup_input : PublishInput
signup_input = record {
  topic = signup_topic;
  key = none;
  payload = none;
  source = none;
  organization_id = none;
  id = some 9;
}

abbrev pub order_key : Text
order_key = codes "global:order"

-- A world in which the handler throws, and every write commits.
abbrev pub throwing : World
throwing = record {
  registry =
      record {
        topic = signup_topic;
        name = codes "welcome";
        max_attempts = 3;
        idempotency_key = none;
      }
      ∷ [];
  print_organization = λ i. decimal i;
  run = λ e. threw (error (codes "Error") (codes "no mail"));
  meanwhile = λ s. s;
  handler_timeout_ms = 30000;
  random = half;
  complete_write = none;
  fail_write = none;
  release_write = none;
  reserve_write = none;
}
