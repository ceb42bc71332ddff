-- ===== src/Campaign/Examples.antt =====
-- Tests of the campaigns.
use alchemist_template.Common.{
  ◌≤◌, ◌≡◌, refl, ◌⊎◌, inl, inr, true, false, Option, none, some, List, [], ◌∷◌, map, arith, ◌==◌,
  if◌then◌else◌, length, get_elem?, All, Text, codes, to_lower, decimal, Result, update_where, ok,
  err,
}
use alchemist_template.Common.Pointwise.{Pointwise}
use alchemist_template.Common.Pick.{pick}
use alchemist_template.Outbox.Table.{enqueue_email}
use alchemist_template.Outbox.Address.{is_email}
use alchemist_template.Import.Labels.{trim}
use alchemist_template.Campaign.Tables.{
  CampaignError, Campaign, Contact, Recipient, Mailing, draft, sending, sent, subscribed, import,
  pending, queued, skipped,
}
use alchemist_template.Campaign.Snapshot.{Env, snapshot_recipients}
use alchemist_template.Campaign.Advance.{
  Step, release_step, batch_size, is_unhealthy, still_sending,
}
use alchemist_template.Campaign.Life.{view, Course, Sane}
use alchemist_template.Campaign.Refines.{history_refines}
use alchemist_template.Campaign.Queued.{Released}
use alchemist_template.Campaign.Warmup.{step_queues}
use alchemist_template.Campaign.Fit.{snapshot-Fit}
use alchemist_template.Campaign.Passes.{Covered, Fit}
use alchemist_template.Campaign.History.{Operation, starts, advances, history}

refuses_probe : Text → Option Text
refuses_probe [] = none
refuses_probe (c ∷ cs) = if c == b'p' then some (codes "is a test or system address.") else none

abbrev env : Env
env = record {
  sender = record { allowed = true; message = [] };
  communications_enabled = λ org. true;
  check_address = refuses_probe;
  with_unsubscribe_footer = λ c email. (c.text_body, none);
  print_id = decimal;
  pause_text = λ c rs. codes "Too many bounces.";
}

abbrev newsletter : Campaign
newsletter = record {
  id = 1;
  organization_id = 7;
  created_by = none;
  name = codes "News";
  subject = codes "Hello";
  text_body = codes "Text";
  html_body = none;
  status = draft;
  scheduled_at = none;
  started_at = none;
  completed_at = none;
  paused_reason = none;
  warmup_step = 0;
  next_cold_batch_at = none;
  health_window_start = none;
  updated_at = 0;
}

abbrev ada : Contact
ada = record {
  id = 2;
  organization_id = 7;
  email = codes "ada@example.org";
  status = subscribed;
  origin = import;
  first_sent_at = none;
}

abbrev probe : Contact
probe = record ada { id = 3; email = codes "probe@example.org" }

abbrev list : Mailing
list = record {
  campaigns = newsletter ∷ [];
  recipients = [];
  contacts = ada ∷ probe ∷ [];
  suppressions = [];
  outbox = [];
  next = 4;
  clock = 100;
}

abbrev to_the_end : List Operation
to_the_end = starts 1 7 none 100 ∷ advances true (λ i. false) 110 ∷ []

is_sent : map (λ c. c.status) (history env to_the_end list).campaigns ≡ sent ∷ []
unfolding history pick update_where refuses_probe enqueue_email is_email to_lower trim decimal
is_sent = refl

one_queued : map (λ r. r.status) (history env to_the_end list).recipients ≡ queued ∷ skipped ∷ []
unfolding history pick update_where refuses_probe enqueue_email is_email to_lower trim decimal
one_queued = refl

list-Sane : Sane list
list-Sane = record {
  keyed = (tt, tt);
  fresh = λ c m. elim m [ inl e ↦ rw e (omega arith) | inr n ↦ absurd n ];
}

history_refines_example :
    (d : Campaign) × (get_elem? (history env to_the_end list).campaigns 0 ≡ some d)
    × (d.id ≡ 1)
    × Course (view newsletter) (view d)
history_refines_example = history_refines env to_the_end list 0 newsletter list-Sane refl

snapshot-Fit_example :
    All (Covered newsletter (snapshot_recipients env newsletter list).recipients) list.contacts
    × All (Fit env newsletter []) (snapshot_recipients env newsletter list).recipients
snapshot-Fit_example = snapshot-Fit env newsletter list

abbrev sending_newsletter : Campaign
sending_newsletter = record newsletter {
  status = sending;
  started_at = some 100;
  health_window_start = some 100;
  next_cold_batch_at = some 100;
}

abbrev cold_ada : Recipient
cold_ada = record {
  id = 4;
  campaign_id = 1;
  contact_id = 2;
  email = codes "ada@example.org";
  cold = true;
  status = pending;
  skip_reason = none;
  batch = none;
  outbox_id = none;
  queued_at = none;
  created_at = 100;
}

abbrev running_list : Mailing
running_list = record list {
  campaigns = sending_newsletter ∷ [];
  recipients = cold_ada ∷ [];
  next = 5;
}

abbrev step_of : Result CampaignError Step → Step
step_of (ok step) = step
step_of (err x) = record { queued_count = 0; outcome = still_sending; after = running_list }

abbrev after_step : Step
after_step = step_of (release_step env sending_newsletter 110 running_list)

step_queues_example :
    ((cold : List Recipient) × (length cold ≤ batch_size 0)
      × Pointwise
          (Released sending_newsletter 110 cold)
          (cold_ada ∷ [])
          after_step.after.recipients)
    × ((is_unhealthy sending_newsletter (cold_ada ∷ []) ≡ false)
        ⊎ (after_step.after.recipients ≡ cold_ada ∷ []))
unfolding release_step pick enqueue_email is_email to_lower trim decimal update_where
step_queues_example = step_queues env sending_newsletter 110 running_list after_step (tt, tt) refl
