-- ===== src/Events/Process.antt =====
-- processDelivery of src/lib/events.ts: one claimed delivery to its outcome for this attempt. What
-- the process does not decide is an argument: how the handler or the webhook POST ends, what other
-- transactions commit while it runs, and which of the status writes fail.
use alchemist_template.Common.{
  ℕ, Bool, true, false, Option, none, some, List, [], ◌∷◌, ◌++◌, Text, codes, decimal, Result, ok,
  err,
}
use alchemist_template.Events.Store.{Store, Kind, handler, webhook, Event, ClaimedDelivery}
use alchemist_template.Events.Finish.{
  Random, Thrown, error, FailOutcome, retried, dead_lettered, complete_delivery, fail_delivery,
  release_claims,
}
use alchemist_template.Events.Topic.{RegisteredHandler, find_handler}
use alchemist_template.Events.Reserve.{
  Reservation, reserved, seen, in_flight, scoped_idempotency_key, reserve_idempotency_key,
}

-- How a run that raced its timer ended.
pub data RunResult : Type 0 where
  returned : RunResult
  threw : Thrown → RunResult
  timed_out : RunResult

pub data ReleaseReason : Type 0 where
  handler_not_registered idempotency_key_in_flight : ReleaseReason

pub data ProcessOutcome : Type 0 where
  done skipped dead : ProcessOutcome
  released : ReleaseReason → ProcessOutcome
  failed : ℕ → ProcessOutcome

-- The world of one call.
pub record World : Type 0 where
  pub registry : List RegisteredHandler
  pub print_organization : ℕ → Text
  pub run : Event → RunResult
  pub meanwhile : Store → Store
  pub handler_timeout_ms : ℕ
  pub random : Random
  -- Whether each write commits, and what it throws if not.
  pub complete_write : Option Thrown
  pub fail_write : Option Thrown
  pub release_write : Option Thrown
  pub reserve_write : Option Thrown

-- What the call did: its outcome, whether the handler or the POST was started, and the tables.
pub record Processed : Type 0 where
  pub outcome : ProcessOutcome
  pub started : Bool
  pub store : Store

abbrev pub key_in_flight_retry_ms : ℕ
key_in_flight_retry_ms = 2000

fail_result : FailOutcome → ProcessOutcome
fail_result (retried delay) = failed delay
fail_result dead_lettered = dead

-- The `catch`: record the failure, or leave the row to the stale-claim reaper.
unfoldable pub catch_failure : World → ClaimedDelivery → Bool → Thrown → ℕ → Store → Processed
unfolding fail_result
catch_failure w c started thrown min_delay_ms s = elim w.fail_write [
  | some db_error ↦ record { outcome = failed 0; started = started; store = s }
  | none ↦
      let (outcome, after) = fail_delivery c.token c.max_attempts thrown w.random min_delay_ms s in
      record { outcome = fail_result outcome; started = started; store = after }
]

-- `completeDelivery`, and the outcome if it is written.
unfoldable pub complete :
    World → ClaimedDelivery → Bool → ProcessOutcome → Option Text → Store → Processed
unfolding catch_failure
complete w c started outcome key s = elim w.complete_write [
  | some db_error ↦ catch_failure w c started db_error 0 s
  | none ↦ record {
    outcome = outcome;
    started = started;
    store = (complete_delivery c.token c.subscription_id c.event.id key s).1;
  }
]

unfoldable pub release : World → ClaimedDelivery → ReleaseReason → Store → Processed
unfolding catch_failure
release w c reason s = elim w.release_write [
  | some db_error ↦ catch_failure w c false db_error 0 s
  | none ↦ record {
    outcome = released reason;
    started = false;
    store = (release_claims (c.token ∷ []) key_in_flight_retry_ms s).1;
  }
]

kind_word : Kind → Text
kind_word handler = codes "handler"
kind_word webhook = codes "webhook"

-- The AttemptTimeoutError of a run that overran.
unfoldable pub timeout_error : World → ClaimedDelivery → Thrown
unfolding kind_word
timeout_error w c = error (codes "AttemptTimeoutError") (
    kind_word c.kind
    ++ codes " \""
    ++ c.handler_name
    ++ codes "\" timed out after "
    ++ decimal w.handler_timeout_ms
    ++ codes "ms")

-- What follows the run of the handler or the POST.
unfoldable pub after_run : World → ClaimedDelivery → Option Text → RunResult → Store → Processed
unfolding complete timeout_error
after_run w c key returned s = complete w c true done key s
after_run w c key (threw thrown) s = catch_failure w c true thrown 0 s
after_run w c key timed_out s = catch_failure w c true (timeout_error w c) w.handler_timeout_ms s

unfoldable pub run_handler : World → ClaimedDelivery → Option Text → Store → Processed
unfolding after_run
run_handler w c key s = after_run w c key (w.run c.event) (w.meanwhile s)

-- What follows the reservation.
unfoldable pub after_reserve : World → ClaimedDelivery → Text → Reservation × Store → Processed
unfolding run_handler release complete
after_reserve w c key (reserved, s) = run_handler w c (some key) s
after_reserve w c key (seen first_event, s) = complete w c false skipped none s
after_reserve w c key (in_flight owner, s) = release w c idempotency_key_in_flight s

unfoldable pub process_keyed : World → ClaimedDelivery → Text → Store → Processed
unfolding after_reserve
process_keyed w c key s = elim w.reserve_write [
  | some db_error ↦ catch_failure w c false db_error 0 s
  | none ↦ after_reserve w c key (reserve_idempotency_key c key s)
]

-- What follows the derivation of the key, which may throw.
unfoldable pub process_derived : World → ClaimedDelivery → Result Thrown Text → Store → Processed
unfolding process_keyed
process_derived w c (ok key) s =
    process_keyed w c (scoped_idempotency_key w.print_organization c.event.organization_id key) s
process_derived w c (err thrown) s = catch_failure w c false thrown 0 s

unfoldable pub process_registered :
    World → ClaimedDelivery → Option RegisteredHandler → Store → Processed
unfolding process_derived
process_registered w c none s = release w c handler_not_registered s
process_registered w c (some entry) s = elim entry.idempotency_key [
  | none ↦ run_handler w c none s
  | some derive ↦ process_derived w c (derive c.event) s
]

unfoldable pub process_kind : Kind → World → ClaimedDelivery → Store → Processed
unfolding process_registered
process_kind webhook w c s = run_handler w c none s
process_kind handler w c s =
    process_registered w c (find_handler c.event.topic c.handler_name w.registry) s

unfoldable pub process_delivery : World → ClaimedDelivery → Store → Processed
unfolding process_kind
process_delivery w c s = process_kind c.kind w c s
