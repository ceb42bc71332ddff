-- ===== src/Campaign/Life.antt =====
-- The abstract life of a campaign, as the comment of campaign.service.ts draws it, and the writes
-- that follow it.
use alchemist_template.Common.{
  ℕ, ◌<◌, ◌≡◌, refl, ap, ◌∙◌, inl, inr, Bool, true, false, Option, some, arith, ◌==◌, Bool-cases,
  get_elem?, Text, update-kept, update-hit, Keyed, Keyed-same, update-Keyed, In-update-cases,
}
use alchemist_template.Common.Members.{In, get-In}
use alchemist_template.Campaign.Tables.{
  draft, scheduled, sending, paused, sent, cancelled, CampaignStatus, Campaign, Mailing,
  write_campaigns,
}

-- The arrows of the diagram. A schedule may be set anew, and whatever is not over can be cancelled.
unfoldable pub is_arrow : CampaignStatus → CampaignStatus → Bool
is_arrow draft scheduled = true
is_arrow draft sending = true
is_arrow draft cancelled = true
is_arrow scheduled scheduled = true
is_arrow scheduled sending = true
is_arrow scheduled paused = true
is_arrow scheduled cancelled = true
is_arrow sending paused = true
is_arrow sending sent = true
is_arrow sending cancelled = true
is_arrow paused scheduled = true
is_arrow paused sending = true
is_arrow paused cancelled = true
is_arrow _ _ = false

-- What the diagram sees of a campaign: its status, and what is sent.
pub record View : Type 0 where
  pub status : CampaignStatus
  pub name : Text
  pub subject : Text
  pub text : Text
  pub html : Option Text

abbrev pub view : Campaign → View
view c = record {
  status = c.status;
  name = c.name;
  subject = c.subject;
  text = c.text_body;
  html = c.html_body;
}

-- A step of the abstract machine: a draft is edited, or the status goes along an arrow and what is
-- sent stays.
pub data Edge (u v : View) : Type 0 where
  edits : u.status ≡ draft → v.status ≡ draft → Edge u v
  moves : is_arrow u.status v.status ≡ true → v ≡ record u { status = v.status } → Edge u v

pub data Course (u : View) : View → Type 0 where
  here : Course u u
  next : {v w : View} → Course u v → Edge v w → Course u w

pub Course-trans : {u v w : View} → Course u v → Course v w → Course u w
Course-trans p here = p
Course-trans p (next q e) = next (Course-trans p q) e

-- Each campaign that was there is still there, and has gone along the diagram.
abbrev pub Evolves : Mailing → Mailing → Type 0
Evolves a b =
    (i : ℕ) (c : Campaign)
    → get_elem? a.campaigns i ≡ some c
    → (d : Campaign) × (get_elem? b.campaigns i ≡ some d) × (d.id ≡ c.id) × Course (view c) (view d)

pub Evolves-refl : (a : Mailing) → Evolves a a
Evolves-refl a i c at = (c, at, refl, here)

pub Evolves-trans : (a b c : Mailing) → Evolves a b → Evolves b c → Evolves a c
Evolves-trans a b c p q i x at =
    let (y, at', e, r) = p i x at in
    let (z, at'', e', r') = q i y at' in (z, at'', e' ∙ e, Course-trans r r')

pub write-Evolves :
    (p : Campaign → Bool) (f : Campaign → Campaign) (db : Mailing)
    → ((c : Campaign) → (f c).id ≡ c.id)
    → ((c : Campaign) → In c db.campaigns → p c ≡ true → Course (view c) (view (f c)))
    → Evolves db (write_campaigns p f db)
unfolding write_campaigns
write-Evolves p f db same path i c at = elim (Bool-cases (p c)) [
  | inr out ↦ (c, update-kept p _ db.campaigns i at out, refl, here)
  | inl hit ↦ (
    record (f c) { updated_at = db.clock },
    update-hit p _ db.campaigns i at hit,
    same c,
    path c (get-In db.campaigns i at) hit,
  )
]

-- Ids are unique, and below the next one.
pub record Sane (db : Mailing) : Type 0 where
  pub keyed : Keyed (λ (c : Campaign). c.id) db.campaigns
  pub fresh : (c : Campaign) → In c db.campaigns → c.id < db.next

pub write-Sane :
    (p : Campaign → Bool) (f : Campaign → Campaign) (db : Mailing)
    → ((c : Campaign) → (f c).id ≡ c.id)
    → Sane db
    → Sane (write_campaigns p f db)
unfolding write_campaigns
write-Sane p f db same s = record {
  keyed = update-Keyed _ p _ db.campaigns same s.keyed;
  fresh = λ c m.
      elim (In-update-cases p (λ d. record (f d) { updated_at = db.clock }) c db.campaigns m) [
        | inl (x, mx, h, e) ↦ rw (e, same x) (s.fresh x mx)
        | inr (m', h) ↦ s.fresh c m'
      ];
}

-- The rows with one id have one status.
abbrev pub AllAt : ℕ → CampaignStatus → Mailing → Type 0
AllAt id t db = (c : Campaign) → In c db.campaigns → c.id ≡ id → c.status ≡ t

pub find-AllAt :
    (c : Campaign) (db : Mailing) → Sane db → In c db.campaigns → AllAt c.id c.status db
find-AllAt c db s m d md e =
    ap (λ (x : Campaign). x.status) (Keyed-same (λ x. x.id) d c db.campaigns s.keyed md m e)

pub write-AllAt :
    (id : ℕ) (t : CampaignStatus) (f : Campaign → Campaign) (db : Mailing)
    → ((c : Campaign) → (f c).id ≡ c.id)
    → ((c : Campaign) → In c db.campaigns → c.id ≡ id → (f c).status ≡ t)
    → AllAt id t (write_campaigns (λ c. c.id == id) f db)
unfolding write_campaigns
write-AllAt id t f db same st c m e =
    elim (In-update-cases (λ d. d.id == id) (λ d. record (f d) { updated_at = db.clock }) c
      db.campaigns m) [
        | inl (x, mx, h, q) ↦ rw q (st x mx (ground arith))
        | inr (m', h) ↦ absurd (ground arith)
      ]
