-- ===== src/Outbox/Examples.antt =====
-- Tests of the outbox.
use alchemist_template.Common.{
  ℕ, ◌+◌, ◌≤◌, ◌≡◌, refl, Bool, true, false, none, some, List, [], ◌∷◌, map, arith, ◌==◌, get_elem?,
  codes, eq_text, to_lower, update_where, count_where, Keyed, ok,
}
use alchemist_template.Common.Members.{In}
use alchemist_template.Import.Labels.{trim}
use alchemist_template.Common.Pick.{pick}
use alchemist_template.Outbox.Address.{is_email}
use alchemist_template.Outbox.Table.{
  Email, EnqueueInput, Enqueued, enqueue_email, key_of, sent, pending, cancel_email,
}
use alchemist_template.Outbox.Deliver.{
  SendOutcome, delivered, threw, deliver_due_emails, is_due, claim_limit,
  backoff_seconds_for_attempt, picked, unrecorded,
}
use alchemist_template.Outbox.History.{
  Action, enqueues, claims, settles, history, no_mail, held_id, AllInOrder, InOrder, act, crashes,
}
use alchemist_template.Outbox.Once.{sent_once}
use alchemist_template.Outbox.Pass.{pass_tries_due, tried}
use alchemist_template.Outbox.Keys.{enqueue_once, KeysApart, keys}
use alchemist_template.Outbox.Ends.{Pass, retries_end, run_passes, tries, left, run_pass}

plain_address : is_email (codes "ada@example.org") ≡ true
unfolding is_email
plain_address = refl

no_dot : is_email (codes "ada@example") ≡ false
unfolding is_email
no_dot = refl

two_ats : is_email (codes "a@b@c.d") ≡ false
unfolding is_email
two_ats = refl

abbrev letter : EnqueueInput
letter = record {
  to = codes "Ada@example.org ";
  subject = codes "Hi";
  text = codes "Text";
  html = none;
  reply_to = none;
  send_at = none;
  idempotency_key = some (codes "k");
  organization_id = none;
  user_id = none;
  source = none;
  max_attempts = some 2;
}

abbrev stored : Email
stored = record {
  id = 0;
  organization_id = none;
  user_id = none;
  to_email = codes "ada@example.org";
  subject = codes "Hi";
  text_body = codes "Text";
  html_body = none;
  reply_to = none;
  idempotency_key = some (codes "k");
  send_at = 5;
  status = pending;
  attempts = 0;
  max_attempts = 2;
  last_error = none;
  locked_at = none;
  sent_at = none;
  source = none;
  created_at = 5;
}

abbrev unlocked : ℕ → Bool
unlocked i = false

abbrev first_enqueue : Enqueued
first_enqueue = record { row = stored; created = true; rows = stored ∷ [] }

stores : enqueue_email 0 5 letter [] ≡ ok first_enqueue
unfolding enqueue_email is_email to_lower trim
stores = refl

cancels_pending : (cancel_email 0 (stored ∷ [])).0 ≡ true
unfolding cancel_email
cancels_pending = refl

backoff_of_third : backoff_seconds_for_attempt 3 ≡ 1800
unfolding backoff_seconds_for_attempt
backoff_of_third = refl

abbrev a_send : List Action
a_send = enqueues 5 letter ∷ claims none unlocked 10 ∷ settles 0 delivered ∷ []

a_send_is_taken : (history a_send no_mail).taken ≡ 0 ∷ []
unfolding history is_email to_lower trim pick
a_send_is_taken = refl

a_send_is_in_order : AllInOrder a_send no_mail
unfolding AllInOrder InOrder act enqueue_email is_email alchemist_template.Common.to_lower
    alchemist_template.Import.Labels.trim
a_send_is_in_order = (tt, ((λ h m. absurd m), ((λ m e. cc), tt)))

sent_once_example :
    Keyed (λ (i : ℕ). i) (history a_send no_mail).taken
    × ((r : Email)
        → In r (history a_send no_mail).rows
        → In r.id (history a_send no_mail).taken
        → r.status ≡ sent)
    × Keyed held_id (history a_send no_mail).held
sent_once_example = sent_once a_send a_send_is_in_order

abbrev refuses : Email → SendOutcome
refuses e = threw (codes "timeout")

pass_tries_due_example :
    let (n, after) = deliver_due_emails none unlocked 10 refuses (stored ∷ []) in
    (get_elem? after 0 ≡ some (tried 10 refuses stored))
    × (count_where (λ c. c.id == 0) n.calls ≡ 1)
unfolding is_due claim_limit
pass_tries_due_example =
    pass_tries_due none unlocked 10 refuses (stored ∷ []) (tt, tt) 0 stored (omega arith) refl

abbrev two_passes : List Pass
two_passes =
    record { limit = none; locked = unlocked; now = 10; send = refuses }
    ∷ record { limit = none; locked = unlocked; now = 70010; send = refuses }
    ∷ []

two_tries : tries 0 two_passes (stored ∷ []) ≡ 2
unfolding tries run_passes picked pick run_pass deliver_due_emails update_where
two_tries = refl

retries_end_example :
    (e : Email) × (get_elem? (run_passes two_passes (stored ∷ [])) 0 ≡ some e)
    × (tries 0 two_passes (stored ∷ []) + left e ≤ left stored)
retries_end_example = retries_end 0 two_passes (stored ∷ []) stored (tt, tt) refl

abbrev again : Enqueued
again = record { row = stored; created = false; rows = stored ∷ [] }

enqueue_once_example :
    KeysApart (keys first_enqueue.rows)
    × (again ≡ record { row = first_enqueue.row; created = false; rows = first_enqueue.rows })
unfolding enqueue_email key_of history is_email alchemist_template.Common.to_lower
    alchemist_template.Import.Labels.trim alchemist_template.Common.eq_text
enqueue_once_example =
    enqueue_once [] 5 7 9 letter letter first_enqueue again (codes "k") refl refl refl refl

-- A runner that stalls for longer than the stale window, and another that takes its email over,
-- both send it.
sent_twice :
    (history
      (enqueues 5 letter
        ∷ claims none unlocked 10
        ∷ claims none unlocked 600_011
        ∷ settles 0 delivered
        ∷ settles 0 delivered
        ∷ [])
      no_mail).taken
    ≡ 0 ∷ 0 ∷ []
unfolding history is_email to_lower trim pick update_where
sent_twice = refl

-- An email whose `sent` is not written goes out again.
sent_again :
    (history
      (enqueues 5 letter
        ∷ claims none unlocked 10
        ∷ settles 0 (unrecorded (codes "connection lost"))
        ∷ claims none unlocked 60_010
        ∷ settles 0 delivered
        ∷ [])
      no_mail).taken
    ≡ 0 ∷ 0 ∷ []
unfolding history is_email to_lower trim pick update_where
sent_again = refl

abbrev crash_loop : List Action
crash_loop =
    enqueues 5 letter
    ∷ claims none unlocked 10
    ∷ crashes 0
    ∷ claims none unlocked 600_011
    ∷ crashes 0
    ∷ claims none unlocked 1_200_012
    ∷ []

-- An email that kills its runner is claimed past its two attempts.
claimed_past_limit : map (λ h. h.email.attempts) (history crash_loop no_mail).held ≡ 3 ∷ []
unfolding history is_email to_lower trim pick update_where
claimed_past_limit = refl
