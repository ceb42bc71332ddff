-- ===== src/Campaign/Advance.antt =====
-- coldHealth, advanceOne and advanceCampaigns of src/services/mailing/campaign.service.ts.
use alchemist_template.Common.{
  ℕ, ◌+◌, ◌*◌, min, Bool, true, false, not, ◌&&◌, ◌||◌, Option, none, some, List, [], ◌∷◌, map, ltb,
  leb, ◌==◌, if◌then◌else◌, or_else, length, take, filter, find?, any, Text, Result, ◌>>=◌,
  count_where, ok, err,
}
use alchemist_template.Common.Pick.{pick}
use alchemist_template.Campaign.Tables.{
  scheduled, sending, sent, Campaign, Mailing, CampaignError, Recipient, RecipientStatus, queued,
  bounced, complained, write_campaigns, with_id, CampaignStatus,
}
use alchemist_template.Campaign.Snapshot.{Env, waiting_in, snapshot_recipients, begin}
use alchemist_template.Campaign.Control.{is_live, pause}
use alchemist_template.Campaign.Release.{release}

-- WARMUP_BATCH_SIZES[Math.min(step, WARMUP_BATCH_SIZES.length - 1)]
unfoldable pub batch_size : ℕ → ℕ
batch_size step =
    let i = min step 5 in
    if i == 0
    then 50
    else if i == 1
    then 200
    else if i == 2
    then 500
    else if i == 3
    then 1000
    else if i == 4
    then 2500
    else 5000

abbrev pub warmup_batch_interval_ms : ℕ
warmup_batch_interval_ms = 4 * 60 * 60 * 1000

abbrev pub campaign_release_chunk : ℕ
campaign_release_chunk = 500

is_released : RecipientStatus → Bool
is_released queued = true
is_released bounced = true
is_released complained = true
is_released _ = false

is_bounced : RecipientStatus → Bool
is_bounced bounced = true
is_bounced _ = false

is_complained : RecipientStatus → Bool
is_complained complained = true
is_complained _ = false

-- `queued_at >= since`, which a null never is.
is_since : ℕ → Option ℕ → Bool
is_since since none = false
is_since since (some at) = leb since at

-- `c.healthWindowStart ?? c.startedAt ?? new Date(0)`
unfoldable pub window_start : Campaign → ℕ
window_start c = or_else c.health_window_start (or_else c.started_at 0)

unfoldable pub in_window : Campaign → Recipient → Bool
unfolding window_start is_since
in_window c r = r.campaign_id == c.id && (r.cold && is_since (window_start c) r.queued_at)

unfoldable pub released_count : Campaign → List Recipient → ℕ
unfolding in_window is_released
released_count c rs = count_where (λ r. in_window c r && is_released r.status) rs

unfoldable pub bounced_count : Campaign → List Recipient → ℕ
unfolding in_window is_bounced
bounced_count c rs = count_where (λ r. in_window c r && is_bounced r.status) rs

unfoldable pub complained_count : Campaign → List Recipient → ℕ
unfolding in_window is_complained
complained_count c rs = count_where (λ r. in_window c r && is_complained r.status) rs

-- A rate above 2% or 0.1% of at least 20 sends, in whole numbers.
unfoldable pub is_unhealthy : Campaign → List Recipient → Bool
unfolding released_count bounced_count complained_count
is_unhealthy c rs =
    not (ltb (released_count c rs) 20)
    && (ltb (released_count c rs) (bounced_count c rs * 50)
        || ltb (released_count c rs) (complained_count c rs * 1000))

pub data Outcome : Type 0 where
  still_sending now_paused now_sent : Outcome

pub record Step : Type 0 where
  pub queued_count : ℕ
  pub outcome : Outcome
  pub after : Mailing

unfoldable pub set_paused : ℕ → Text → Mailing → Mailing
unfolding write_campaigns pause
set_paused id reason db = write_campaigns (with_id id) (pause (take 2000 reason)) db

abbrev pub warm_in : ℕ → Recipient → Bool
warm_in campaign r = waiting_in campaign r && not r.cold

abbrev pub cold_in : ℕ → Recipient → Bool
cold_in campaign r = waiting_in campaign r && r.cold

abbrev pub created_before : Recipient → Recipient → Bool
created_before a b = leb a.created_at b.created_at

unfoldable pub warm_rows : Campaign → Mailing → List Recipient
warm_rows c db = take campaign_release_chunk (filter (warm_in c.id) db.recipients)

unfoldable pub cold_rows : Campaign → Mailing → List Recipient
unfolding batch_size
cold_rows c db = pick created_before (batch_size c.warmup_step) (cold_in c.id) db.recipients

-- `!c.nextColdBatchAt || c.nextColdBatchAt.getTime() <= now.getTime()`
unfoldable pub is_time : Option ℕ → ℕ → Bool
is_time none now = true
is_time (some at) now = leb at now

unfoldable pub next_batch : ℕ → ℕ → Campaign → Campaign
next_batch step now c = record c {
  warmup_step = step + 1;
  next_cold_batch_at = some (now + warmup_batch_interval_ms);
}

unfoldable pub release_cold :
    Env → Campaign → ℕ → List Recipient → Mailing → Result CampaignError (ℕ × Mailing)
unfolding release write_campaigns next_batch
release_cold env c now [] db = ok (0, db)
release_cold env c now (r ∷ rs) db = release env c (r ∷ rs) (c.warmup_step + 1) now db >>= λ after.
    ok (length (r ∷ rs), write_campaigns (with_id c.id) (next_batch c.warmup_step now) after)

unfoldable pub cold_batch : Env → Campaign → ℕ → Mailing → Result CampaignError (ℕ × Mailing)
unfolding release_cold cold_rows is_time
cold_batch env c now db =
    if is_time c.next_cold_batch_at now
    then release_cold env c now (cold_rows c db) db
    else ok (0, db)

unfoldable pub finished : ℕ → Campaign → Campaign
finished now c = record c { status = sent; completed_at = some now }

unfoldable pub finish_step : Campaign → ℕ → ℕ → Mailing → Step
unfolding write_campaigns finished
finish_step c now n db =
    if any (waiting_in c.id) db.recipients
    then record { queued_count = n; outcome = still_sending; after = db }
    else record {
      queued_count = n;
      outcome = now_sent;
      after = write_campaigns (with_id c.id) (finished now) db;
    }

-- The releases of one step, once the campaign is sending.
unfoldable pub release_step : Env → Campaign → ℕ → Mailing → Result CampaignError Step
unfolding is_unhealthy set_paused warm_rows release cold_batch finish_step
release_step env c now db =
    if is_unhealthy c db.recipients
    then ok (record {
      queued_count = 0;
      outcome = now_paused;
      after = set_paused c.id (env.pause_text c db.recipients) db;
    })
    else (release env c (warm_rows c db) 0 now db >>= λ warmed.
        cold_batch env c now warmed >>= λ chilled.
        ok (finish_step c now (length (warm_rows c db) + chilled.0) chilled.1))

unfoldable pub started : ℕ → Campaign → Campaign
unfolding begin
started now c = begin now c.scheduled_at c

-- What a scheduled campaign is after its start, and the tables.
unfoldable pub begin_as : CampaignStatus → Env → ℕ → Campaign → Mailing → Campaign × Mailing
unfolding started snapshot_recipients write_campaigns
begin_as scheduled env now c db = (
  record (started now c) { updated_at = db.clock },
  write_campaigns (with_id c.id) (started now) (snapshot_recipients env c db),
)
begin_as _ env now c db = (c, db)

unfoldable pub begin_row : Env → ℕ → Campaign → Mailing → Campaign × Mailing
unfolding begin_as
begin_row env now c db = begin_as c.status env now c db

unfoldable pub advance_row : Env → Campaign → ℕ → Mailing → Result CampaignError Step
unfolding set_paused begin_row release_step
advance_row env c now db =
    if not env.sender.allowed
    then ok (record {
      queued_count = 0;
      outcome = now_paused;
      after = set_paused c.id env.sender.message db;
    })
    else (let (row, begun) = begin_row env now c db in release_step env row now begun)

abbrev pub advanceable : ℕ → Campaign → Bool
advanceable id c = c.id == id && is_live c.status

unfoldable pub advance_found :
    Env → ℕ → Mailing → Option Campaign → Result CampaignError (Option Step)
unfolding advance_row
advance_found env now db none = ok none
advance_found env now db (some c) = advance_row env c now db >>= λ step. ok (some step)

-- `locked` says whether another transaction holds the row.
unfoldable pub advance_one : Env → ℕ → Bool → ℕ → Mailing → Result CampaignError (Option Step)
unfolding advance_found
advance_one env id locked now db =
    advance_found env now db (if locked then none else find? (advanceable id) db.campaigns)

unfoldable pub is_live_by : ℕ → Campaign → Bool
is_live_by now c = elim c.status [
  | sending ↦ true
  | scheduled ↦ (elim c.scheduled_at [ none ↦ false | some at ↦ leb at now ])
  | _ ↦ false
]

abbrev updated_before : Campaign → Campaign → Bool
updated_before a b = leb a.updated_at b.updated_at

-- The ids of the pass: at most CAMPAIGNS_PER_TICK.
unfoldable pub live_campaigns : ℕ → Mailing → List ℕ
unfolding is_live_by
live_campaigns now db =
    map (λ (c : Campaign). c.id) (pick updated_before 10 (is_live_by now) db.campaigns)

-- A step that throws rolls back, and the loop goes on.
unfoldable pub after_step : Mailing → Result CampaignError (Option Step) → Mailing
after_step db (err x) = db
after_step db (ok none) = db
after_step db (ok (some step)) = step.after

unfoldable pub advance_each : Env → (ℕ → Bool) → ℕ → List ℕ → Mailing → Mailing
unfolding advance_one after_step
advance_each env locked now [] db = db
advance_each env locked now (id ∷ ids) db =
    advance_each env locked now ids (after_step db (advance_one env id (locked id) now db))

unfoldable pub advance_campaigns : Env → Bool → (ℕ → Bool) → ℕ → Mailing → Mailing
unfolding advance_each live_campaigns
advance_campaigns env enabled locked now db =
    if enabled then advance_each env locked now (live_campaigns now db) db else db
