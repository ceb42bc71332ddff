-- ===== src/Jobs/TickExamples.antt =====
-- Tests of the tick.
use alchemist_template.Common.{
  ◌+◌, ◌≡◌, refl, true, false, none, some, [], ◌∷◌, ◌++◌, map, codes, decimal, update_where, ok,
}
use alchemist_template.Common.Pick.{pick}
use alchemist_template.Outbox.Table.{Email, pending}
use alchemist_template.Outbox.Deliver.{deliver_due_emails, delivered, is_due, claim_limit}
use alchemist_template.Campaign.Advance.{live_campaigns, advance_campaigns}
use alchemist_template.Jobs.Tables.{JobTables}
use alchemist_template.Jobs.Cron.{Croner, checked, next_run_after}
use alchemist_template.Jobs.Claim.{picked}
use alchemist_template.Jobs.Run.{run_due_scheduled_jobs, run_handler}
use alchemist_template.Jobs.Tick.{run_jobs_tick, TickEnv, queued, run_jobs_tick}

abbrev digest : Email
digest = record {
  id = 0;
  organization_id = none;
  user_id = none;
  to_email = codes "ada@example.org";
  subject = codes "Your week";
  text_body = codes "Text";
  html_body = none;
  reply_to = none;
  idempotency_key = none;
  send_at = 9020;
  status = pending;
  attempts = 0;
  max_attempts = 5;
  last_error = none;
  locked_at = none;
  sent_at = none;
  source = some (codes "job:digest");
  created_at = 9020;
}

abbrev hourly : Croner
hourly = record {
  construct = λ expr tz. ok checked;
  next_run = λ expr tz now. ok (some (now + 3_600_000));
  next_two = λ expr tz now. ok [];
  knows_zone = λ tz. true;
}

-- One schedule, whose handler queues the digest.
abbrev tick : TickEnv
tick = record {
  env = record {
    croner = hourly;
    handlers = λ kind. some (λ ctx mail. record {
      mail = record mail { outbox = mail.outbox ++ digest ∷ [] };
      takes = 20;
      ends = ok none;
    });
    min_interval_seconds = 300;
    handler_timeout_ms = 60_000;
    iso = λ t. codes "at";
  };
  mailing = record {
    sender = record { allowed = true; message = [] };
    communications_enabled = λ org. true;
    check_address = λ email. none;
    with_unsubscribe_footer = λ c email. (c.text_body, none);
    print_id = decimal;
    pause_text = λ c rs. codes "Too many bounces.";
  };
  communications = true;
  held_jobs = λ i. false;
  held_campaigns = λ i. false;
  held_emails = λ i. false;
  done = λ j. 9020;
  send = λ e. delivered;
}

abbrev tables : JobTables
tables = record {
  jobs =
      record {
        id = 0;
        organization_id = none;
        kind = codes "digest";
        cron = codes "hourly";
        timezone = codes "UTC";
        payload = [];
        enabled = true;
        next_run_at = 8000;
        last_run_at = none;
        last_status = none;
        last_error = none;
        locked_at = none;
      }
      ∷ [];
  runs = [];
  mail = record {
    campaigns = [];
    recipients = [];
    contacts = [];
    suppressions = [];
    outbox = [];
    next = 1;
    clock = 9000;
  };
  next = 1;
}

-- The handler runs at 9020, and the digest is due then: the tick of 9000 does not send it.
waits_a_tick :
    map (λ (r : Email). r.status) (run_jobs_tick tick 9000 tables).1.mail.outbox ≡ pending ∷ []
unfolding run_jobs_tick queued is_due run_due_scheduled_jobs picked pick run_handler
    advance_campaigns live_campaigns update_where next_run_after claim_limit deliver_due_emails
waits_a_tick = refl
