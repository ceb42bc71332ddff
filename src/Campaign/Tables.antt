-- ===== src/Campaign/Tables.antt =====
-- The mailing tables of src/db/schema.ts, and createCampaign, updateCampaign and getCampaign of
-- src/services/mailing/campaign.service.ts.
use alchemist_template.Common.{
  ℕ, suc, Bool, true, false, ◌&&◌, ◌||◌, Option, none, some, List, [], ◌∷◌, ◌++◌, ltb, ◌==◌,
  if◌then◌else◌, length, find?, any, Text, Result, ◌>>=◌, update_where, ok, err,
}
use alchemist_template.Import.Labels.{trim, is_nil}
use alchemist_template.Outbox.Table.{Email}

pub data CampaignStatus : Type 0 where
  draft scheduled sending paused sent cancelled : CampaignStatus

pub data RecipientStatus : Type 0 where
  pending queued skipped bounced complained : RecipientStatus

pub data ContactStatus : Type 0 where
  subscribed unsubscribed suppressed : ContactStatus

pub data Origin : Type 0 where
  signup import manual : Origin

pub record Campaign : Type 0 where
  pub id : ℕ
  pub organization_id : ℕ
  pub created_by : Option ℕ
  pub name : Text
  pub subject : Text
  pub text_body : Text
  pub html_body : Option Text
  pub status : CampaignStatus
  pub scheduled_at : Option ℕ
  pub started_at : Option ℕ
  pub completed_at : Option ℕ
  pub paused_reason : Option Text
  pub warmup_step : ℕ
  pub next_cold_batch_at : Option ℕ
  pub health_window_start : Option ℕ
  pub updated_at : ℕ

pub record Recipient : Type 0 where
  pub id : ℕ
  pub campaign_id : ℕ
  pub contact_id : ℕ
  pub email : Text
  pub cold : Bool
  pub status : RecipientStatus
  pub skip_reason : Option Text
  pub batch : Option ℕ
  pub outbox_id : Option ℕ
  pub queued_at : Option ℕ
  pub created_at : ℕ

pub record Contact : Type 0 where
  pub id : ℕ
  pub organization_id : ℕ
  pub email : Text
  pub status : ContactStatus
  pub origin : Origin
  pub first_sent_at : Option ℕ

pub record Suppression : Type 0 where
  pub email : Text
  pub organization_id : Option ℕ
  pub reason : Text

-- `next` is the next generated id, and `clock` the database's NOW().
pub record Mailing : Type 0 where
  pub campaigns : List Campaign
  pub recipients : List Recipient
  pub contacts : List Contact
  pub suppressions : List Suppression
  pub outbox : List Email
  pub next : ℕ
  pub clock : ℕ

pub data CampaignError : Type 0 where
  name_length subject_length text_required sender_domain_required communications_off not_found
        not_a_draft cannot_start nobody_subscribed cannot_pause cannot_resume cannot_cancel
        no_result enqueue_failed :
      CampaignError

pub record CampaignContent : Type 0 where
  pub name : Text
  pub subject : Text
  pub text : Text
  pub html : Option Text

-- `UPDATE email_campaigns ... WHERE p`, with the trigger that bumps updated_at.
unfoldable pub write_campaigns : (Campaign → Bool) → (Campaign → Campaign) → Mailing → Mailing
write_campaigns p f db = record db {
  campaigns = update_where p (λ c. record (f c) { updated_at = db.clock }) db.campaigns;
}

abbrev pub with_id : ℕ → Campaign → Bool
with_id id c = c.id == id

abbrev pub in_organization : ℕ → ℕ → Campaign → Bool
in_organization id org c = c.id == id && c.organization_id == org

unfoldable pub clean_content : CampaignContent → Result CampaignError CampaignContent
clean_content i =
    let name = trim i.name in
    let subject = trim i.subject in
    if is_nil name || ltb 200 (length name)
    then err name_length
    else if is_nil subject || ltb 300 (length subject)
    then err subject_length
    else if is_nil (trim i.text)
    then err text_required
    else ok (record { name = name; subject = subject; text = i.text; html = i.html })

unfoldable pub new_campaign : ℕ → ℕ → ℕ → Option ℕ → CampaignContent → Campaign
new_campaign id now org user c = record {
  id = id;
  organization_id = org;
  created_by = user;
  name = c.name;
  subject = c.subject;
  text_body = c.text;
  html_body = c.html;
  status = draft;
  scheduled_at = none;
  started_at = none;
  completed_at = none;
  paused_reason = none;
  warmup_step = 0;
  next_cold_batch_at = none;
  health_window_start = none;
  updated_at = now;
}

unfoldable pub create_campaign :
    CampaignContent → ℕ → Option ℕ → Mailing → Result CampaignError (Campaign × Mailing)
unfolding clean_content new_campaign
create_campaign i org user db = do
  c ← clean_content i
  let row = new_campaign db.next db.clock org user c
  ok (row, record db { campaigns = db.campaigns ++ row ∷ []; next = suc db.next })

unfoldable pub get_campaign : ℕ → ℕ → Mailing → Result CampaignError Campaign
get_campaign id org db = elim (find? (in_organization id org) db.campaigns) [
  | none ↦ err not_found
  | some c ↦ ok c
]

abbrev pub is_draft : CampaignStatus → Bool
is_draft draft = true
is_draft _ = false

unfoldable pub edited : CampaignContent → Campaign → Campaign
edited i c = record c { name = i.name; subject = i.subject; text_body = i.text; html_body = i.html }

abbrev pub editable : ℕ → ℕ → Campaign → Bool
editable id org c = in_organization id org c && is_draft c.status

unfoldable pub update_draft : ℕ → ℕ → Mailing → CampaignContent → Result CampaignError Mailing
unfolding get_campaign write_campaigns edited
update_draft id org db c =
    if any (editable id org) db.campaigns
    then ok (write_campaigns (editable id org) (edited c) db)
    else (get_campaign id org db >>= λ _. err not_a_draft)

unfoldable pub update_campaign : CampaignContent → ℕ → ℕ → Mailing → Result CampaignError Mailing
unfolding clean_content update_draft
update_campaign i id org db = clean_content i >>= update_draft id org db
