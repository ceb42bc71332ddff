-- ===== src/Campaign/Refines.antt =====
-- The campaigns of campaign.service.ts refine the diagram of their lives.
use alchemist_template.Common.{
  ℕ, zero, suc, ◌≡◌, refl, sym, subst, inl, inr, true, false, Option, some, List, [], ◌∷◌, ◌++◌,
  arith, get_elem?, Result, ◌>>=◌, Result-cases, append-Keyed, ok, err,
}
use alchemist_template.Common.Members.{In, In-append}
use alchemist_template.Campaign.Tables.{
  Campaign, Mailing, CampaignContent, CampaignError, create_campaign, update_campaign,
  clean_content, new_campaign,
}
use alchemist_template.Campaign.Snapshot.{Env, start_campaign}
use alchemist_template.Campaign.Control.{pause_campaign, resume_campaign, cancel_campaign}
use alchemist_template.Campaign.Advance.{advance_campaigns, live_campaigns}
use alchemist_template.Campaign.Life.{view, Course, here, Evolves-refl, Sane}
use alchemist_template.Campaign.Follows.{Follows, Follows-trans}
use alchemist_template.Campaign.Steps.{
  update-Follows, pause-Follows, start-Follows, resume-Follows, cancel-Follows,
}
use alchemist_template.Campaign.History.{
  kept_second, Operation, operate, history, kept, creates, updates, starts, pauses, resumes,
  cancels, advances,
}
use alchemist_template.Campaign.Runs.{each-Follows}

last_id : (c x : Campaign) (n : ℕ) → c.id ≡ n → In x (c ∷ []) → x.id ≡ n
last_id c x n id (inl e) = rw e id
last_id c x n id (inr m) = absurd m

get-append :
    (cs : List Campaign) (i : ℕ) (c : Campaign) {x : Campaign}
    → get_elem? cs i ≡ some x
    → get_elem? (cs ++ c ∷ []) i ≡ some x
get-append [] i c h = absurd (cc)
get-append (y ∷ ys) zero c h = h
get-append (y ∷ ys) (suc i) c h = get-append ys i c h

append-Follows :
    (c : Campaign) (db : Mailing)
    → c.id ≡ db.next
    → Sane db
    → Follows db (record db { campaigns = db.campaigns ++ c ∷ []; next = suc db.next })
append-Follows c db id s = (
  λ i x at. (x, get-append db.campaigns i c at, refl, here),
  record {
    keyed =
        append-Keyed (λ x. x.id) db.campaigns (c ∷ []) s.keyed (tt, tt)
          (λ x y m n. let lt = s.fresh x m in let e = last_id c y db.next id n in omega arith);
    fresh = λ x m. elim (In-append x db.campaigns (c ∷ []) m) [
      | inl old ↦ omega (arith, s.fresh x old)
      | inr last ↦ omega (arith, last_id c x db.next id last)
    ];
  },
)

kept-Follows :
    (db : Mailing) (r : Result CampaignError Mailing)
    → ((after : Mailing) → r ≡ ok after → Follows db after)
    → Sane db
    → Follows db (kept db r)
kept-Follows db (err x) h s = (Evolves-refl db, s)
kept-Follows db (ok after) h s = h after refl

created-Follows :
    (i : CampaignContent) (org : ℕ) (user : Option ℕ) (db : Mailing)
    → Sane db
    → Follows db (kept_second db (create_campaign i org user db))
unfolding create_campaign new_campaign kept_second
created-Follows i org user db s = elim (Result-cases (clean_content i)) [
  | inl (x, e) ↦
      subst
        (λ r. Follows db (
          kept_second db (
            r >>= λ c. ok (
              new_campaign db.next db.clock org user c,
              record db {
                campaigns = db.campaigns ++ new_campaign db.next db.clock org user c ∷ [];
                next = suc db.next;
              },
            ))))
        (sym e) (Evolves-refl db, s)
  | inr (c, e) ↦
      subst
        (λ r. Follows db (
          kept_second db (
            r >>= λ c. ok (
              new_campaign db.next db.clock org user c,
              record db {
                campaigns = db.campaigns ++ new_campaign db.next db.clock org user c ∷ [];
                next = suc db.next;
              },
            ))))
        (sym e) (append-Follows (new_campaign db.next db.clock org user c) db refl s)
]

operate-Follows :
    (env : Env) (o : Operation) (db : Mailing) → Sane db → Follows db (operate env o db)
unfolding operate advance_campaigns create_campaign
operate-Follows env (creates i org user) db s = created-Follows i org user db s
operate-Follows env (updates i id org) db s =
    kept-Follows db (update_campaign i id org db) (λ after h. update-Follows i id org db after h s)
      s
operate-Follows env (starts id org send_at now) db s =
    kept-Follows db (start_campaign env id org send_at now db)
      (λ after h. start-Follows env id org send_at now db after h s) s
operate-Follows env (pauses id org reason) db s =
    kept-Follows db (pause_campaign id org reason db)
      (λ after h. pause-Follows id org reason db after h s) s
operate-Follows env (resumes id org now) db s =
    kept-Follows db (resume_campaign env id org now (λ d. d) db)
      (λ after h. resume-Follows env id org now db after h s) s
operate-Follows env (cancels id org now) db s =
    kept-Follows db (cancel_campaign env id org now (λ d. d) db)
      (λ after h. cancel-Follows env id org now db after h s) s
operate-Follows env (advances true locked now) db s =
    each-Follows env locked now (live_campaigns now db) db s
operate-Follows env (advances false locked now) db s = (Evolves-refl db, s)

history-Follows :
    (env : Env) (os : List Operation) (db : Mailing) → Sane db → Follows db (history env os db)
unfolding history
history-Follows env [] db s = (Evolves-refl db, s)
history-Follows env (o ∷ more) db s =
    Follows-trans db (operate env o db) (history env more (operate env o db))
      (operate-Follows env o db s) (history-Follows env more (operate env o db))

-- The calls and the runner's passes, in any sequence, refine the life that the file's comment draws.
-- Given that ids are unique and below the next one: each campaign is kept under its id, and what it
-- has become is reached from what it was by editing a draft or by arrows of the diagram (draft to
-- scheduled or sending, scheduled to sending, sending to sent, either to paused and back, and all
-- that is not over to cancelled), none of which changes its name, subject or text.
pub history_refines :
    (env : Env) (operations : List Operation) (db : Mailing) (i : ℕ) (c : Campaign)
    → Sane db
    → get_elem? db.campaigns i ≡ some c
    → (d : Campaign) × (get_elem? (history env operations db).campaigns i ≡ some d)
      × (d.id ≡ c.id)
      × Course (view c) (view d)
history_refines env operations db i c s at = (history-Follows env operations db s).0 i c at
