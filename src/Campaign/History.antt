-- ===== src/Campaign/History.antt =====
-- Histories of campaigns: any sequence of the operations of
-- src/services/mailing/campaign.service.ts, each of them alone.
use alchemist_template.Common.{ℕ, Bool, Option, List, [], ◌∷◌, Text, Result, ok, err}
use alchemist_template.Campaign.Tables.{
  Campaign, Mailing, CampaignError, CampaignContent, create_campaign, update_campaign,
}
use alchemist_template.Campaign.Snapshot.{Env, start_campaign}
use alchemist_template.Campaign.Control.{pause_campaign, resume_campaign, cancel_campaign}
use alchemist_template.Campaign.Advance.{advance_campaigns}

pub data Operation : Type 0 where
  creates : CampaignContent → ℕ → Option ℕ → Operation
  updates : CampaignContent → ℕ → ℕ → Operation
  starts : ℕ → ℕ → Option ℕ → ℕ → Operation
  pauses : ℕ → ℕ → Option Text → Operation
  resumes : ℕ → ℕ → ℕ → Operation
  cancels : ℕ → ℕ → ℕ → Operation
  advances : Bool → (ℕ → Bool) → ℕ → Operation

-- A call that throws leaves the tables.
abbrev pub kept : Mailing → Result CampaignError Mailing → Mailing
kept db (err x) = db
kept db (ok after) = after

unfoldable pub kept_second : Mailing → Result CampaignError (Campaign × Mailing) → Mailing
kept_second db (err x) = db
kept_second db (ok (c, after)) = after

unfoldable pub operate : Env → Operation → Mailing → Mailing
unfolding kept_second create_campaign update_campaign start_campaign pause_campaign resume_campaign
    cancel_campaign advance_campaigns
operate env (creates i org user) db = kept_second db (create_campaign i org user db)
operate env (updates i id org) db = kept db (update_campaign i id org db)
operate env (starts id org send_at now) db = kept db (start_campaign env id org send_at now db)
operate env (pauses id org reason) db = kept db (pause_campaign id org reason db)
operate env (resumes id org now) db = kept db (resume_campaign env id org now (λ d. d) db)
operate env (cancels id org now) db = kept db (cancel_campaign env id org now (λ d. d) db)
operate env (advances enabled locked now) db = advance_campaigns env enabled locked now db

unfoldable pub history : Env → List Operation → Mailing → Mailing
unfolding operate
history env [] db = db
history env (o ∷ more) db = history env more (operate env o db)
