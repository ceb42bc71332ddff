-- ===== src/Campaign/Runs.antt =====
-- The steps of the runner follow the diagram.
use alchemist_template.Common.{
  ℕ, ◌≡◌, refl, sym, ◌∙◌, subst, inl, inr, Bool, true, false, not, Option, none, some, List, [],
  ◌∷◌, arith, if◌then◌else◌, Bool-cases, take, find?, ◌>>=◌, Result-cases, ok,
}
use alchemist_template.Common.Members.{In, find?-In}
use alchemist_template.Campaign.Tables.{
  draft, scheduled, sending, paused, sent, cancelled, CampaignStatus, Campaign, Mailing,
  write_campaigns, with_id,
}
use alchemist_template.Campaign.Snapshot.{Env, snapshot_recipients, begin}
use alchemist_template.Campaign.Control.{pause, is_live}
use alchemist_template.Campaign.Advance.{
  begin_as, advance_found, now_paused, Step, set_paused, begin_row, release_step, advance_row,
  advance_one, advance_each, advanceable, started, after_step,
}
use alchemist_template.Campaign.Life.{is_arrow, Evolves-refl, Sane, find-AllAt, AllAt, write-AllAt}
use alchemist_template.Campaign.Follows.{Follows, Follows-trans, Quiet-Follows, snapshot-Quiet}
use alchemist_template.Campaign.Moves.{move-Follows, live_arrow}
use alchemist_template.Campaign.Sending.{step-Follows}

-- The step of a campaign that was read as scheduled or sending.
scheduled-Follows :
    (env : Env) (c : Campaign) (now : ℕ) (db : Mailing) (step : Step)
    → In c db.campaigns
    → c.status ≡ scheduled
    → release_step env
        (record (started now c) { updated_at = db.clock })
        now
        (write_campaigns (with_id c.id) (started now) (snapshot_recipients env c db))
      ≡ ok step
    → Sane db
    → Follows db step.after
unfolding started begin is_arrow
scheduled-Follows env c now db step m t h s =
    let mid = snapshot_recipients env c db in
    let quiet = snapshot-Quiet env c db in
    let begun = write_campaigns (with_id c.id) (started now) mid in
    let first = Quiet-Follows db mid quiet s in
    let second =
      move-Follows c (started now) sending mid (subst (In c) (sym quiet.0) m) (λ d. refl)
        (λ d. refl) (subst (λ x. is_arrow x sending ≡ true) (sym t) refl) first.1 in
    Follows-trans db mid step.after first (λ _. Follows-trans mid begun step.after second (
      step-Follows env (record (started now c) { updated_at = db.clock }) now begun step h
        (write-AllAt c.id sending (started now) mid (λ d. refl) (λ d md e. refl))))

otherwise {ℓ} : {A : Type ℓ} (b : Bool) (x y : A) → b ≡ true → (if not b then x else y) ≡ y
otherwise true x y h = refl
otherwise false x y h = absurd (cc)

begun-Follows :
    (env : Env) (c : Campaign) (now : ℕ) (db : Mailing) (step : Step) (t : CampaignStatus)
    → In c db.campaigns
    → is_live t ≡ true
    → c.status ≡ t
    → release_step env (begin_as t env now c db).0 now (begin_as t env now c db).1 ≡ ok step
    → Sane db
    → Follows db step.after
unfolding begin_as
begun-Follows env c now db step draft m live t h s = absurd (cc)
begun-Follows env c now db step scheduled m live t h s = scheduled-Follows env c now db step m t h s
begun-Follows env c now db step sending m live t h s =
    step-Follows env c now db step h (subst (λ x. AllAt c.id x db) t (find-AllAt c db s m)) s
begun-Follows env c now db step paused m live t h s = absurd (cc)
begun-Follows env c now db step sent m live t h s = absurd (cc)
begun-Follows env c now db step cancelled m live t h s = absurd (cc)

row-Follows :
    (env : Env) (c : Campaign) (now : ℕ) (db : Mailing) (step : Step)
    → In c db.campaigns
    → is_live c.status ≡ true
    → advance_row env c now db ≡ ok step
    → Sane db
    → Follows db step.after
unfolding advance_row begin_row set_paused pause
row-Follows env c now db step m live h s = elim (Bool-cases env.sender.allowed) [
  | inr blocked ↦
      let f = pause (take 2000 env.sender.message) in
      let same : write_campaigns (with_id c.id) f db ≡ step.after = ground arith in
      subst (Follows db) same
        (move-Follows c f paused db m (λ d. refl) (λ d. refl) (live_arrow c.status live) s)
  | inl allowed ↦
      let pair = begin_as c.status env now c db in
      begun-Follows env c now db step c.status m live refl
        (sym (
            otherwise env.sender.allowed
              (ok (record {
                queued_count = 0;
                outcome = now_paused;
                after = set_paused c.id env.sender.message db;
              }))
              (release_step env pair.0 now pair.1) allowed)
          ∙ h)
        s
]

found-Follows :
    (env : Env) (id now : ℕ) (db : Mailing) (o : Option Campaign)
    → find? (advanceable id) db.campaigns ≡ o
    → Sane db
    → Follows db (after_step db (advance_found env now db o))
unfolding advance_found after_step
found-Follows env id now db none q s = (Evolves-refl db, s)
found-Follows env id now db (some c) q s =
    let (m, p) = find?-In (advanceable id) c db.campaigns q in
    elim (Result-cases (advance_row env c now db)) [
      | inl (x, e) ↦
          subst (λ r. Follows db (after_step db (r >>= λ step. ok (some step)))) (sym e)
            (Evolves-refl db, s)
      | inr (step, e) ↦
          subst (λ r. Follows db (after_step db (r >>= λ step. ok (some step)))) (sym e)
            (row-Follows env c now db step m (ground arith) e s)
    ]

one-Follows :
    (env : Env) (id : ℕ) (locked : Bool) (now : ℕ) (db : Mailing)
    → Sane db
    → Follows db (after_step db (advance_one env id locked now db))
unfolding advance_one advance_found after_step
one-Follows env id true now db s = (Evolves-refl db, s)
one-Follows env id false now db s =
    found-Follows env id now db (find? (advanceable id) db.campaigns) refl s

pub each-Follows :
    (env : Env) (locked : ℕ → Bool) (now : ℕ) (ids : List ℕ) (db : Mailing)
    → Sane db
    → Follows db (advance_each env locked now ids db)
unfolding advance_each
each-Follows env locked now [] db s = (Evolves-refl db, s)
each-Follows env locked now (id ∷ ids) db s =
    let mid = after_step db (advance_one env id (locked id) now db) in
    Follows-trans db mid (advance_each env locked now ids mid)
      (one-Follows env id (locked id) now db s) (each-Follows env locked now ids mid)
