-- ===== src/Campaign/Moves.antt =====
-- Single writes of campaigns follow the diagram.
use alchemist_template.Common.{
  ℕ, ◌≡◌, refl, sym, ap, ◌∙◌, subst, inl, inr, Bool, true, false, arith, Option-cases, find?, ok,
}
use alchemist_template.Common.Members.{In, find?-In}
use alchemist_template.Campaign.Tables.{
  draft, scheduled, sending, paused, sent, cancelled, CampaignStatus, Campaign, Mailing,
  write_campaigns, get_campaign, in_organization, with_id, is_draft,
}
use alchemist_template.Campaign.Snapshot.{can_start}
use alchemist_template.Campaign.Control.{is_paused, is_over, is_live}
use alchemist_template.Campaign.Life.{
  is_arrow, View, view, moves, Course, here, next, write-Evolves, Sane, write-Sane, find-AllAt,
}
use alchemist_template.Campaign.Follows.{Follows}

pub write-Follows :
    (p : Campaign → Bool) (f : Campaign → Campaign) (db : Mailing)
    → ((c : Campaign) → (f c).id ≡ c.id)
    → ((c : Campaign) → In c db.campaigns → p c ≡ true → Course (view c) (view (f c)))
    → Sane db
    → Follows db (write_campaigns p f db)
write-Follows p f db same path s = (write-Evolves p f db same path, write-Sane p f db same s)

pub get-In_organization :
    (id org : ℕ) (db : Mailing) (c : Campaign) → get_campaign id org db ≡ ok c → In c db.campaigns
unfolding get_campaign
get-In_organization id org db c h =
    elim (Option-cases (find? (in_organization id org) db.campaigns)) [
      | inl q ↦ absurd (ground arith)
      | inr (x, q) ↦
          let same : x ≡ c = ground arith in
          subst (λ y. In y db.campaigns) same (find?-In (in_organization id org) x db.campaigns q).0
    ]

-- Arrows out of what a campaign is, by its tests.
pub start_arrow :
    (t : CampaignStatus)
    → can_start t ≡ true
    → (is_arrow t scheduled ≡ true) × (is_arrow t sending ≡ true)
unfolding is_arrow
start_arrow draft h = (refl, refl)
start_arrow scheduled h = (refl, refl)
start_arrow sending h = absurd (cc)
start_arrow paused h = absurd (cc)
start_arrow sent h = absurd (cc)
start_arrow cancelled h = absurd (cc)

pub live_arrow : (t : CampaignStatus) → is_live t ≡ true → is_arrow t paused ≡ true
unfolding is_arrow
live_arrow draft h = absurd (cc)
live_arrow scheduled h = refl
live_arrow sending h = refl
live_arrow paused h = absurd (cc)
live_arrow sent h = absurd (cc)
live_arrow cancelled h = absurd (cc)

pub paused_arrow :
    (t : CampaignStatus)
    → is_paused t ≡ true
    → (is_arrow t scheduled ≡ true) × (is_arrow t sending ≡ true)
unfolding is_arrow
paused_arrow draft h = absurd (cc)
paused_arrow scheduled h = absurd (cc)
paused_arrow sending h = absurd (cc)
paused_arrow paused h = (refl, refl)
paused_arrow sent h = absurd (cc)
paused_arrow cancelled h = absurd (cc)

pub cancel_arrow : (t : CampaignStatus) → is_over t ≡ false → is_arrow t cancelled ≡ true
unfolding is_arrow
cancel_arrow draft h = refl
cancel_arrow scheduled h = refl
cancel_arrow sending h = refl
cancel_arrow paused h = refl
cancel_arrow sent h = absurd (cc)
cancel_arrow cancelled h = absurd (cc)

-- A write by id moves rows whose status is that of the row that was read.
pub move-Follows :
    (c : Campaign) (f : Campaign → Campaign) (t : CampaignStatus) (db : Mailing)
    → In c db.campaigns
    → ((d : Campaign) → (f d).id ≡ d.id)
    → ((d : Campaign) → view (f d) ≡ record (view d) { status = t })
    → is_arrow c.status t ≡ true
    → Sane db
    → Follows db (write_campaigns (with_id c.id) f db)
move-Follows c f t db m same content open_arrow s =
    write-Follows (with_id c.id) f db same
      (λ d md hit.
        let at : d.status ≡ c.status = find-AllAt c db s m d md (ground arith) in
        let st : (f d).status ≡ t = ap (λ (v : View). v.status) (content d) in
        next here (
          moves
            (subst (λ x. is_arrow x (f d).status ≡ true) (sym at)
              (subst (λ x. is_arrow c.status x ≡ true) (sym st) open_arrow))
            (content d ∙ ap (λ x. record (view d) { status = x }) (sym st))))
      s

pub draft_only : (t : CampaignStatus) → is_draft t ≡ true → t ≡ draft
draft_only draft h = refl
draft_only scheduled h = absurd (cc)
draft_only sending h = absurd (cc)
draft_only paused h = absurd (cc)
draft_only sent h = absurd (cc)
draft_only cancelled h = absurd (cc)
