-- ===== src/Campaign/Release.antt =====
-- `release` of src/services/mailing/campaign.service.ts: a batch of recipients goes to the outbox.
use alchemist_template.Common.{
  ℕ, suc, ◌&&◌, none, some, List, [], ◌∷◌, ◌++◌, ◌==◌, is_none, any, Text, codes, Result, ◌>>=◌,
  update_where, ok, err,
}
use alchemist_template.Outbox.Table.{EnqueueInput, Enqueued, enqueue_email}
use alchemist_template.Campaign.Tables.{
  queued, Campaign, Mailing, CampaignError, Recipient, enqueue_failed,
}
use alchemist_template.Campaign.Snapshot.{Env}
use alchemist_template.Campaign.Control.{campaign_source}

-- `campaign:${c.id}:${r.contactId}`
unfoldable pub send_key : Env → Campaign → ℕ → Text
unfolding campaign_source
send_key env c contact = campaign_source env c.id ++ (codes ":" ++ env.print_id contact)

unfoldable pub send_input : Env → Campaign → Recipient → ℕ → EnqueueInput
unfolding send_key campaign_source
send_input env c r now =
    let content = env.with_unsubscribe_footer c r.email in
    record {
      to = r.email;
      subject = c.subject;
      text = content.0;
      html = content.1;
      reply_to = none;
      send_at = some now;
      idempotency_key = some (send_key env c r.contact_id);
      organization_id = some c.organization_id;
      user_id = none;
      source = some (campaign_source env c.id);
      max_attempts = none;
    }

unfoldable pub queue_as : ℕ → ℕ → ℕ → Recipient → Recipient
queue_as outbox now batch r = record r {
  status = queued;
  outbox_id = some outbox;
  queued_at = some now;
  batch = some batch;
}

unfoldable pub queue_row : ℕ → ℕ → ℕ → Enqueued → Mailing → Mailing
unfolding queue_as
queue_row recipient now batch e db = record db {
  outbox = e.rows;
  next = suc db.next;
  recipients = update_where (λ r. r.id == recipient) (queue_as e.row.id now batch) db.recipients;
}

unfoldable pub enqueue_recipient :
    Env → Campaign → ℕ → ℕ → Recipient → Mailing → Result CampaignError Mailing
unfolding queue_row send_input
enqueue_recipient env c batch now r db =
    elim (enqueue_email db.next db.clock (send_input env c r now) db.outbox) [
      | err x ↦ err enqueue_failed
      | ok e ↦ ok (queue_row r.id now batch e db)
    ]

unfoldable pub queue_each :
    Env → Campaign → ℕ → ℕ → List Recipient → Mailing → Result CampaignError Mailing
unfolding enqueue_recipient
queue_each env c batch now [] db = ok db
queue_each env c batch now (r ∷ rs) db =
    enqueue_recipient env c batch now r db >>= queue_each env c batch now rs

-- The contacts that were never mailed before, in slices.
unfoldable pub mark_sent : ℕ → List Recipient → Mailing → Mailing
mark_sent now rows db = record db {
  contacts =
      update_where
        (λ c. any (λ (r : Recipient). r.contact_id == c.id) rows && is_none c.first_sent_at)
        (λ c. record c { first_sent_at = some now }) db.contacts;
}

-- `rows.length` is what it returns besides.
unfoldable pub release :
    Env → Campaign → List Recipient → ℕ → ℕ → Mailing → Result CampaignError Mailing
unfolding queue_each mark_sent
release env c rows batch now db =
    queue_each env c batch now rows db >>= λ after. ok (mark_sent now rows after)
