-- ===== src/Campaign/Steps.antt =====
-- The calls of a campaign's editors follow the diagram.
use alchemist_template.Common.{
  ℕ, ◌≡◌, refl, sym, subst, inl, inr, true, false, ◌&&◌, Option, arith, if◌then◌else◌, Bool-cases,
  Option-cases, or_else, find?, any, Text, codes, ok-sequence, update_where, ok, err,
}
use alchemist_template.Common.Members.{In, find?-In}
use alchemist_template.Campaign.Tables.{
  not_a_draft, cannot_pause, cannot_resume, cannot_cancel, scheduled, sending, cancelled, Campaign,
  Mailing, write_campaigns, CampaignContent, update_campaign, clean_content, get_campaign,
  in_organization, with_id, edited, editable, update_draft,
}
use alchemist_template.Campaign.Snapshot.{
  Env, start_campaign, start_row, snapshot_recipients, can_start, is_later, begin, some_or,
  waiting_in, schedule_at, skip,
}
use alchemist_template.Campaign.Control.{
  pause_campaign, resume_campaign, cancel_campaign, resume_row, cancel_row, pause, reschedule,
  restart, cancel, is_paused, is_over, pausable, cancel_outbox, campaign_source,
}
use alchemist_template.Campaign.Life.{edits, moves, here, next, Sane}
use alchemist_template.Campaign.Follows.{Follows, Follows-trans, Quiet-Follows, snapshot-Quiet}
use alchemist_template.Campaign.Moves.{
  write-Follows, get-In_organization, start_arrow, live_arrow, paused_arrow, cancel_arrow,
  move-Follows, draft_only,
}

pub update-Follows :
    (i : CampaignContent) (id org : ℕ) (db after : Mailing)
    → update_campaign i id org db ≡ ok after
    → Sane db
    → Follows db after
unfolding update_campaign update_draft edited
update-Follows i id org db after h s =
    let (content, clean, rest) = ok-sequence (clean_content i) (update_draft id org db) h in
    elim (Bool-cases (any (editable id org) db.campaigns)) [
      | inr out ↦
          let (c, got, bad) =
            ok-sequence (get_campaign id org db) (λ _. err not_a_draft) (rw out at rest) in
          absurd (cc)
      | inl hit ↦
          let same : write_campaigns (editable id org) (edited content) db ≡ after = ground arith in
          subst (Follows db) same (
            write-Follows (editable id org) (edited content) db (λ c. refl)
              (λ c m e.
                next here
                  (edits (draft_only c.status (ground arith)) (draft_only c.status (ground arith))))
              s)
    ]

pub pause-Follows :
    (id org : ℕ) (reason : Option Text) (db after : Mailing)
    → pause_campaign id org reason db ≡ ok after
    → Sane db
    → Follows db after
unfolding pause_campaign pause
pause-Follows id org reason db after h s = elim (Bool-cases (any (pausable id org) db.campaigns)) [
  | inr out ↦
      let (c, got, bad) =
        ok-sequence (get_campaign id org db) (λ _. err cannot_pause) (rw out at h) in
      absurd (cc)
  | inl hit ↦
      let f = pause (or_else reason (codes "Paused by an admin.")) in
      let same : write_campaigns (pausable id org) f db ≡ after = ground arith in
      subst (Follows db) same (
        write-Follows (pausable id org) f db (λ c. refl)
          (λ c m e. next here (moves (live_arrow c.status (ground arith)) refl)) s)
]

start_row-Follows :
    (env : Env) (c : Campaign) (send_at : Option ℕ) (now : ℕ) (db after : Mailing)
    → In c db.campaigns
    → start_row env c send_at now db ≡ ok after
    → Sane db
    → Follows db after
unfolding start_row schedule_at begin
start_row-Follows env c send_at now db after m h s =
    let can : can_start c.status ≡ true = ground arith in
    let (to_scheduled, to_sending) = start_arrow c.status can in
    elim (Bool-cases (is_later send_at now)) [
      | inl later ↦
          let same : write_campaigns (with_id c.id) (schedule_at send_at) db ≡ after =
            ground arith in
          subst (Follows db) same (
            move-Follows c (schedule_at send_at) scheduled db m (λ d. refl) (λ d. refl) to_scheduled
              s)
      | inr soon ↦
          let mid = snapshot_recipients env c db in
          let f = begin now (some_or c.scheduled_at now) in
          let same : write_campaigns (with_id c.id) f mid ≡ after = ground arith in
          let quiet = snapshot-Quiet env c db in
          subst (Follows db) same (
            Follows-trans db mid (write_campaigns (with_id c.id) f mid)
              (Quiet-Follows db mid quiet s)
              (move-Follows c f sending mid (subst (In c) (sym quiet.0) m) (λ d. refl) (λ d. refl)
                to_sending))
    ]

pub start-Follows :
    (env : Env) (id org : ℕ) (send_at : Option ℕ) (now : ℕ) (db after : Mailing)
    → start_campaign env id org send_at now db ≡ ok after
    → Sane db
    → Follows db after
unfolding start_campaign
start-Follows env id org send_at now db after h s =
    elim (Option-cases (find? (in_organization id org) db.campaigns)) [
      | inl q ↦ absurd (ground arith)
      | inr (c, q) ↦
          start_row-Follows env c send_at now db after
            (find?-In (in_organization id org) c db.campaigns q).0 (ground arith) s
    ]

resume_row-Follows :
    (now : ℕ) (c : Campaign) (db after : Mailing)
    → In c db.campaigns
    → is_paused c.status ≡ true
    → resume_row now c db ≡ ok after
    → Sane db
    → Follows db after
unfolding resume_row reschedule restart
resume_row-Follows now c db after m p h s =
    let (to_scheduled, to_sending) = paused_arrow c.status p in
    elim (Option-cases c.started_at) [
      | inl q ↦
          let same : write_campaigns (with_id c.id) reschedule db ≡ after = ground arith in
          subst (Follows db) same
            (move-Follows c reschedule scheduled db m (λ d. refl) (λ d. refl) to_scheduled s)
      | inr (t, q) ↦
          let which = λ (d : Campaign). with_id c.id d && is_paused d.status in
          let same : write_campaigns which (restart now) db ≡ after = ground arith in
          subst (Follows db) same (
            write-Follows which (restart now) db (λ d. refl)
              (λ d md hit. next here (moves (paused_arrow d.status (ground arith)).1 refl)) s)
    ]

pub resume-Follows :
    (env : Env) (id org now : ℕ) (db after : Mailing)
    → resume_campaign env id org now (λ d. d) db ≡ ok after
    → Sane db
    → Follows db after
unfolding resume_campaign
resume-Follows env id org now db after h s = elim (Bool-cases env.sender.allowed) [
  | inr blocked ↦ absurd (ground arith)
  | inl allowed ↦
      let (c, got, rest) =
        ok-sequence (get_campaign id org db)
          (λ c. if is_paused c.status then resume_row now c db else err cannot_resume)
          (rw allowed at h) in
      resume_row-Follows now c db after (get-In_organization id org db c got) (ground arith)
        (ground arith) s
]

cancel_row-Follows :
    (env : Env) (now : ℕ) (c : Campaign) (db after : Mailing)
    → In c db.campaigns
    → is_over c.status ≡ false
    → cancel_row env now c db ≡ ok after
    → Sane db
    → Follows db after
unfolding cancel_row cancel
cancel_row-Follows env now c db after m p h s =
    let mid : Mailing = record db {
      recipients =
          update_where (waiting_in c.id) (skip (codes "Campaign cancelled.")) db.recipients;
      outbox = cancel_outbox (campaign_source env c.id) db.outbox;
    } in
    let same : write_campaigns (with_id c.id) (cancel now) mid ≡ after = ground arith in
    subst (Follows db) same (
      Follows-trans db mid (write_campaigns (with_id c.id) (cancel now) mid)
        (Quiet-Follows db mid (refl, omega arith) s)
        (move-Follows c (cancel now) cancelled mid m (λ d. refl) (λ d. refl)
          (cancel_arrow c.status p)))

pub cancel-Follows :
    (env : Env) (id org now : ℕ) (db after : Mailing)
    → cancel_campaign env id org now (λ d. d) db ≡ ok after
    → Sane db
    → Follows db after
unfolding cancel_campaign
cancel-Follows env id org now db after h s =
    let (c, got, rest) =
      ok-sequence (get_campaign id org db)
        (λ c. if is_over c.status then err cannot_cancel else cancel_row env now c db) h in
    cancel_row-Follows env now c db after (get-In_organization id org db c got) (ground arith)
      (ground arith) s
