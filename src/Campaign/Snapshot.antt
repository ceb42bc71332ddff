-- ===== src/Campaign/Snapshot.antt =====
-- snapshotRecipients and startCampaign of src/services/mailing/campaign.service.ts. What other files
-- decide is in `Env`: the sender policy, the workspace's switch, the hygiene check (the reason why an
-- address is refused), the unsubscribe footer, how an id prints, and the text of a warm-up pause.
use alchemist_template.Common.{
  ℕ, suc, Bool, true, false, not, ◌&&◌, ◌||◌, Option, none, some, List, [], ◌∷◌, ◌++◌, map, ltb,
  ◌==◌, if◌then◌else◌, is_some_eq, is_none, or_else, take, find?, any, Text, codes, eq_text, Result,
  update_where, ok, err,
}
use alchemist_template.Campaign.Tables.{
  draft, scheduled, pending, skipped, subscribed, signup, Campaign, Recipient, Contact, Suppression,
  Mailing, CampaignError, write_campaigns, with_id, in_organization, CampaignStatus, ContactStatus,
  RecipientStatus, Origin, sending, sender_domain_required, communications_off, not_found,
  cannot_start, nobody_subscribed,
}

pub record SenderStatus : Type 0 where
  pub allowed : Bool
  pub message : Text

pub record Env : Type 0 where
  pub sender : SenderStatus
  pub communications_enabled : ℕ → Bool
  pub check_address : Text → Option Text
  pub with_unsubscribe_footer : Campaign → Text → Text × Option Text
  pub print_id : ℕ → Text
  pub pause_text : Campaign → List Recipient → Text

abbrev pub is_subscribed : ContactStatus → Bool
is_subscribed subscribed = true
is_subscribed _ = false

abbrev pub is_signup : Origin → Bool
is_signup signup = true
is_signup _ = false

abbrev pub is_waiting : RecipientStatus → Bool
is_waiting pending = true
is_waiting _ = false

abbrev pub waiting_in : ℕ → Recipient → Bool
waiting_in campaign r = r.campaign_id == campaign && is_waiting r.status

abbrev pub is_listed : ℕ → Contact → Bool
is_listed org c = c.organization_id == org && is_subscribed c.status

abbrev pub has_recipient : ℕ → ℕ → List Recipient → Bool
has_recipient campaign contact rs =
    any (λ r. r.campaign_id == campaign && r.contact_id == contact) rs

unfoldable pub new_recipient : ℕ → ℕ → ℕ → Contact → Recipient
new_recipient id now campaign c = record {
  id = id;
  campaign_id = campaign;
  contact_id = c.id;
  email = c.email;
  cold = not (is_signup c.origin) && is_none c.first_sent_at;
  status = pending;
  skip_reason = none;
  batch = none;
  outbox_id = none;
  queued_at = none;
  created_at = now;
}

unfoldable pub insert_recipient : Campaign → Contact → Mailing → Mailing
unfolding new_recipient
insert_recipient c x db =
    if is_listed c.organization_id x && not (has_recipient c.id x.id db.recipients)
    then record db {
      recipients = db.recipients ++ new_recipient db.next db.clock c.id x ∷ [];
      next = suc db.next;
    }
    else db

-- `INSERT ... SELECT ... ON CONFLICT (campaign_id, contact_id) DO NOTHING`
unfoldable pub insert_recipients : Campaign → List Contact → Mailing → Mailing
unfolding insert_recipient
insert_recipients c [] db = db
insert_recipients c (x ∷ xs) db = insert_recipients c xs (insert_recipient c x db)

-- A suppression of the address, app-wide or in the workspace.
unfoldable pub suppresses : ℕ → Text → Suppression → Bool
suppresses org email s =
    eq_text s.email email && (is_none s.organization_id || is_some_eq s.organization_id org)

underscores_to_spaces : Text → Text
underscores_to_spaces t = map (λ c. if c == b'_' then b' ' else c) t

unfoldable pub suppression_reason : Option Suppression → Text
unfolding underscores_to_spaces
suppression_reason none = []
suppression_reason (some s) =
    codes "Address is suppressed (" ++ (underscores_to_spaces s.reason ++ codes ").")

abbrev pub skip : Text → Recipient → Recipient
skip reason r = record r { status = skipped; skip_reason = some reason }

abbrev pub is_suppressed : Campaign → List Suppression → Recipient → Bool
is_suppressed c ss r = waiting_in c.id r && any (suppresses c.organization_id r.email) ss

unfoldable pub skip_suppressed : Campaign → Mailing → Mailing
unfolding suppression_reason suppresses
skip_suppressed c db = record db {
  recipients =
      update_where (is_suppressed c db.suppressions)
        (λ r.
          skip (suppression_reason (find? (suppresses c.organization_id r.email) db.suppressions))
            r)
        db.recipients;
}

abbrev pub is_unfit : Env → Campaign → Recipient → Bool
is_unfit env c r = waiting_in c.id r && not (is_none (env.check_address r.email))

-- The groups by reason, each updated in slices, write each row once.
unfoldable pub skip_unfit : Env → Campaign → Mailing → Mailing
skip_unfit env c db = record db {
  recipients =
      update_where (is_unfit env c)
        (λ r. skip (take 500 (codes "Email " ++ or_else (env.check_address r.email) [])) r)
        db.recipients;
}

unfoldable pub snapshot_recipients : Env → Campaign → Mailing → Mailing
unfolding insert_recipients skip_suppressed skip_unfit
snapshot_recipients env c db =
    skip_unfit env c (skip_suppressed c (insert_recipients c db.contacts db))

abbrev pub can_start : CampaignStatus → Bool
can_start draft = true
can_start scheduled = true
can_start _ = false

-- `opts.sendAt && opts.sendAt.getTime() > now.getTime()`
unfoldable pub is_later : Option ℕ → ℕ → Bool
is_later none now = false
is_later (some at) now = ltb now at

unfoldable pub schedule_at : Option ℕ → Campaign → Campaign
schedule_at at c = record c { status = scheduled; scheduled_at = at }

unfoldable pub begin : ℕ → Option ℕ → Campaign → Campaign
begin now at c = record c {
  status = sending;
  started_at = some now;
  scheduled_at = at;
  health_window_start = some now;
  next_cold_batch_at = some now;
}

unfoldable pub some_or : Option ℕ → ℕ → Option ℕ
some_or none now = some now
some_or (some t) now = some t

unfoldable pub start_row : Env → Campaign → Option ℕ → ℕ → Mailing → Result CampaignError Mailing
unfolding is_later schedule_at begin some_or snapshot_recipients write_campaigns
start_row env c send_at now db =
    if not (can_start c.status)
    then err cannot_start
    else if not (any (is_listed c.organization_id) db.contacts)
    then err nobody_subscribed
    else if is_later send_at now
    then ok (write_campaigns (with_id c.id) (schedule_at send_at) db)
    else ok (
        write_campaigns (with_id c.id) (begin now (some_or c.scheduled_at now))
          (snapshot_recipients env c db))

unfoldable pub start_campaign : Env → ℕ → ℕ → Option ℕ → ℕ → Mailing → Result CampaignError Mailing
unfolding start_row
start_campaign env id org send_at now db =
    if not env.sender.allowed
    then err sender_domain_required
    else if not (env.communications_enabled org)
    then err communications_off
    else elim (find? (in_organization id org) db.campaigns) [
      | none ↦ err not_found
      | some c ↦ start_row env c send_at now db
    ]
