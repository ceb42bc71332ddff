-- ===== src/Events/Store.antt =====
-- The four tables of db/migrations/20260922172721_events.sql and the statement forms that
-- src/lib/events.ts runs on them. Ids are numbers, since they are only compared; times are
-- milliseconds; `now` is the database clock, which every status write reads.
use alchemist_template.Common.{
  ℕ, Bool, true, false, not, ◌&&◌, Option, none, some, List, ◌==◌, is_some_eq, filter, find?, Text,
}

pub data Status : Type 0 where
  pending running done failed dead : Status

pub data EventSource : Type 0 where
  app platform external : EventSource

pub data Kind : Type 0 where
  handler webhook : Kind

-- A JSON value, of which the publisher asks only whether it is a plain object.
pub data JsonValue : Type 0 where
  object array scalar : Text → JsonValue
  null : JsonValue

pub record Event : Type 0 where
  pub id : ℕ
  pub organization_id : Option ℕ
  pub topic : Text
  pub key : Option Text
  pub payload : JsonValue
  pub source : EventSource
  pub created_at : ℕ

pub record Subscription : Type 0 where
  pub id : ℕ
  pub organization_id : Option ℕ
  pub topic : Text
  pub handler : Text
  pub kind : Kind
  pub max_attempts : ℕ
  pub url : Option Text
  pub secret_ref : Option Text
  pub active : Bool
  pub updated_at : ℕ

pub record Delivery : Type 0 where
  pub id : ℕ
  pub event_id : ℕ
  pub subscription_id : ℕ
  pub status : Status
  pub attempts : ℕ
  pub next_attempt_at : ℕ
  pub last_error : Option Text
  pub claimed_by : Option ℕ
  pub claimed_at : Option ℕ
  pub done_at : Option ℕ
  pub created_at : ℕ

-- A row of event_handler_receipts: reserved where `completed_at` is null, handled where it is not.
pub record Receipt : Type 0 where
  pub subscription_id : ℕ
  pub idempotency_key : Text
  pub event_id : ℕ
  pub delivery_id : Option ℕ
  pub completed_at : Option ℕ

pub record Store : Type 0 where
  pub events : List Event
  pub subscriptions : List Subscription
  pub deliveries : List Delivery
  pub receipts : List Receipt
  pub now : ℕ

-- The claim token: every status write is fenced on it.
pub record ClaimToken : Type 0 where
  pub id : ℕ
  pub claimed_by : ℕ
  pub attempts : ℕ

pub record ClaimedDelivery : Type 0 where
  pub token : ClaimToken
  pub open token use *
  pub subscription_id : ℕ
  pub max_attempts : ℕ
  pub handler_name : Text
  pub kind : Kind
  pub url : Option Text
  pub secret_ref : Option Text
  pub event : Event

-- `status IN ('pending', 'failed')`
abbrev pub is_claimable : Status → Bool
is_claimable pending = true
is_claimable failed = true
is_claimable _ = false

abbrev pub is_running : Status → Bool
is_running running = true
is_running _ = false

-- `status IN ('dead', 'failed', 'done')`
abbrev pub is_replayable : Status → Bool
is_replayable dead = true
is_replayable failed = true
is_replayable done = true
is_replayable _ = false

-- `id = v.id AND status = 'running' AND claimed_by = v.claimed_by AND attempts = v.attempts`
unfoldable pub owns : ClaimToken → Delivery → Bool
owns t d =
    d.id == t.id
    && (is_running d.status && (is_some_eq d.claimed_by t.claimed_by && d.attempts == t.attempts))

-- The rows of event_subscriptions and events that a join on their key finds.
unfoldable pub subscription_of : List Subscription → ℕ → Option Subscription
subscription_of subs i = find? (λ s. s.id == i) subs

unfoldable pub event_of : List Event → ℕ → Option Event
event_of events i = find? (λ e. e.id == i) events

-- A test of a nullable column: a null passes none.
abbrev pub is_some_where : (ℕ → Bool) → Option ℕ → Bool
is_some_where p none = false
is_some_where p (some i) = p i

-- `DELETE FROM event_handler_receipts WHERE delivery_id IN (the ids that pass)`
unfoldable pub delete_receipts : (ℕ → Bool) → List Receipt → List Receipt
delete_receipts is_gone = filter (λ r. not (is_some_where is_gone r.delivery_id))
