-- ===== src/Campaign/Control.antt =====
-- pauseCampaign, resumeCampaign and cancelCampaign of src/services/mailing/campaign.service.ts.
use alchemist_template.Common.{
  ℕ, Bool, true, false, not, ◌&&◌, Option, none, some, List, ◌++◌, if◌then◌else◌, or_else, any,
  Text, codes, eq_text, Result, ◌>>=◌, update_where, ok, err,
}
use alchemist_template.Outbox.Table.{Email}
use alchemist_template.Outbox
use alchemist_template.Campaign.Tables.{
  scheduled, sending, paused, sent, cancelled, Campaign, Mailing, CampaignError, CampaignStatus,
  write_campaigns, with_id, in_organization, get_campaign, cannot_pause, cannot_resume,
  cannot_cancel, sender_domain_required, no_result,
}
use alchemist_template.Campaign.Snapshot.{Env, waiting_in, skip}

abbrev pub is_live : CampaignStatus → Bool
is_live scheduled = true
is_live sending = true
is_live _ = false

abbrev pub is_paused : CampaignStatus → Bool
is_paused paused = true
is_paused _ = false

unfoldable pub pause : Text → Campaign → Campaign
pause reason c = record c { status = paused; paused_reason = some reason }

abbrev pub pausable : ℕ → ℕ → Campaign → Bool
pausable id org c = in_organization id org c && is_live c.status

unfoldable pub pause_campaign : ℕ → ℕ → Option Text → Mailing → Result CampaignError Mailing
unfolding pause write_campaigns get_campaign
pause_campaign id org reason db =
    if any (pausable id org) db.campaigns
    then ok (
        write_campaigns (pausable id org) (pause (or_else reason (codes "Paused by an admin."))) db)
    else (get_campaign id org db >>= λ _. err cannot_pause)

unfoldable pub reschedule : Campaign → Campaign
reschedule c = record c { status = scheduled; paused_reason = none }

-- The warm-up health window restarts.
unfoldable pub restart : ℕ → Campaign → Campaign
restart now c = record c {
  status = sending;
  paused_reason = none;
  health_window_start = some now;
  next_cold_batch_at = some now;
}

-- The write, on the tables as they are by then; `c` is the row that was read before.
unfoldable pub resume_row : ℕ → Campaign → Mailing → Result CampaignError Mailing
unfolding reschedule restart write_campaigns
resume_row now c db = elim c.started_at [
  | none ↦
      if any (with_id c.id) db.campaigns
      then ok (write_campaigns (with_id c.id) reschedule db)
      else err no_result
  | some t ↦
      if any (λ d. with_id c.id d && is_paused d.status) db.campaigns
      then ok (write_campaigns (λ d. with_id c.id d && is_paused d.status) (restart now) db)
      else err no_result
]

-- `between` is what other transactions commit after the row was read.
unfoldable pub resume_campaign :
    Env → ℕ → ℕ → ℕ → (Mailing → Mailing) → Mailing → Result CampaignError Mailing
unfolding resume_row get_campaign
resume_campaign env id org now between db =
    if not env.sender.allowed
    then err sender_domain_required
    else (get_campaign id org db >>= λ c.
        if is_paused c.status then resume_row now c (between db) else err cannot_resume)

abbrev pub is_over : CampaignStatus → Bool
is_over sent = true
is_over cancelled = true
is_over _ = false

-- `campaign:${campaignId}`
unfoldable pub campaign_source : Env → ℕ → Text
campaign_source env id = codes "campaign:" ++ env.print_id id

from_source : Text → Email → Bool
from_source source e = elim e.source [ none ↦ false | some s ↦ eq_text s source ]

-- `UPDATE email_outbox SET status = 'cancelled'`, of those that are still pending.
unfoldable pub cancel_outbox : Text → List Email → List Email
unfolding from_source
cancel_outbox source rows =
    update_where (λ e. from_source source e && Outbox.Table.is_pending e.status)
      (λ e. record e { status = Outbox.Table.cancelled }) rows

unfoldable pub cancel : ℕ → Campaign → Campaign
cancel now c = record c { status = cancelled; completed_at = some now }

unfoldable pub cancel_row : Env → ℕ → Campaign → Mailing → Result CampaignError Mailing
unfolding write_campaigns cancel cancel_outbox campaign_source
cancel_row env now c db =
    if any (with_id c.id) db.campaigns
    then ok (
        write_campaigns (with_id c.id) (cancel now) (record db {
          recipients =
              update_where (waiting_in c.id) (skip (codes "Campaign cancelled.")) db.recipients;
          outbox = cancel_outbox (campaign_source env c.id) db.outbox;
        }))
    else err no_result

unfoldable pub cancel_campaign :
    Env → ℕ → ℕ → ℕ → (Mailing → Mailing) → Mailing → Result CampaignError Mailing
unfolding cancel_row get_campaign
cancel_campaign env id org now between db = get_campaign id org db >>= λ c.
    if is_over c.status then err cannot_cancel else cancel_row env now c (between db)
