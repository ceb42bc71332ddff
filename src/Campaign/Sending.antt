-- ===== src/Campaign/Sending.antt =====
-- The releases of a campaign that is being sent follow the diagram.
use alchemist_template.Common.{
  ℕ, ◌+◌, ◌≡◌, refl, sym, ap, ◌∙◌, subst, inl, inr, true, List, [], ◌∷◌, arith, Bool-cases, length,
  take, any, ◌>>=◌, ok-sequence, ok,
}
use alchemist_template.Common.Members.{In}
use alchemist_template.Campaign.Tables.{
  sending, paused, sent, CampaignStatus, Campaign, Mailing, write_campaigns, Recipient, with_id,
}
use alchemist_template.Campaign.Snapshot.{Env, waiting_in}
use alchemist_template.Campaign.Control.{pause}
use alchemist_template.Campaign.Release.{release}
use alchemist_template.Campaign.Advance.{
  Step, set_paused, release_step, finished, finish_step, release_cold, cold_batch, next_batch,
  is_unhealthy, warm_rows, cold_rows, is_time,
}
use alchemist_template.Campaign.Life.{
  is_arrow, View, view, moves, here, next, Evolves-refl, Sane, AllAt, write-AllAt,
}
use alchemist_template.Campaign.Follows.{Follows, Follows-trans, Quiet-Follows, release-Quiet}
use alchemist_template.Campaign.Moves.{write-Follows}

-- A write that moves the rows of a campaign that is being sent.
sending-Follows :
    (id : ℕ) (f : Campaign → Campaign) (t : CampaignStatus) (db : Mailing)
    → AllAt id sending db
    → ((d : Campaign) → (f d).id ≡ d.id)
    → ((d : Campaign) → view (f d) ≡ record (view d) { status = t })
    → is_arrow sending t ≡ true
    → Sane db
    → Follows db (write_campaigns (with_id id) f db)
sending-Follows id f t db at same content open_arrow s =
    write-Follows (with_id id) f db same
      (λ d md hit.
        let st : (f d).status ≡ t = ap (λ (v : View). v.status) (content d) in
        next here (
          moves
            (subst (λ x. is_arrow x (f d).status ≡ true) (sym (at d md (ground arith)))
              (subst (λ x. is_arrow sending x ≡ true) (sym st) open_arrow))
            (content d ∙ ap (λ x. record (view d) { status = x }) (sym st))))
      s

-- The tables follow, and the campaign is still being sent.
abbrev Sends : ℕ → Mailing → Mailing → Type 0
Sends id a b = Follows a b × AllAt id sending b

release-Sends :
    (env : Env) (c : Campaign) (rs : List Recipient) (batch now id : ℕ) (db after : Mailing)
    → release env c rs batch now db ≡ ok after
    → AllAt id sending db
    → Sane db
    → Sends id db after
release-Sends env c rs batch now id db after h at s =
    let quiet = release-Quiet env c rs batch now db after h in
    (Quiet-Follows db after quiet s, λ d m e. at d (subst (In d) quiet.0 m) e)

next_batch-Sends :
    (id step now : ℕ) (db : Mailing)
    → AllAt id sending db
    → Sane db
    → Sends id db (write_campaigns (with_id id) (next_batch step now) db)
unfolding next_batch
next_batch-Sends id step now db at s = (
  write-Follows (with_id id) (next_batch step now) db (λ d. refl) (λ d m e. here) s,
  write-AllAt id sending (next_batch step now) db (λ d. refl) at,
)

cold-Sends :
    (env : Env) (c : Campaign) (now : ℕ) (rs : List Recipient) (db after : Mailing) (n : ℕ)
    → release_cold env c now rs db ≡ ok (n, after)
    → AllAt c.id sending db
    → Sane db
    → Sends c.id db after
unfolding release_cold
cold-Sends env c now [] db after n h at s =
    let same : db ≡ after = ground arith in subst (Sends c.id db) same ((Evolves-refl db, s), at)
cold-Sends env c now (r ∷ rs) db after n h at s =
    let (mid, first, rest) =
      ok-sequence (release env c (r ∷ rs) (c.warmup_step + 1) now db)
        (λ m. ok (length (r ∷ rs), write_campaigns (with_id c.id) (next_batch c.warmup_step now) m))
        h in
    let same : write_campaigns (with_id c.id) (next_batch c.warmup_step now) mid ≡ after =
      ground arith in
    let (follows, at') =
      release-Sends env c (r ∷ rs) (c.warmup_step + 1) now c.id db mid first at s in
    let (follows', at'') = next_batch-Sends c.id c.warmup_step now mid at' follows.1 in
    subst (Sends c.id db) same (
      Follows-trans db mid (write_campaigns (with_id c.id) (next_batch c.warmup_step now) mid)
          follows (λ _. follows'),
      at'',
    )

batch-Sends :
    (env : Env) (c : Campaign) (now : ℕ) (db after : Mailing) (n : ℕ)
    → cold_batch env c now db ≡ ok (n, after)
    → AllAt c.id sending db
    → Sane db
    → Sends c.id db after
unfolding cold_batch
batch-Sends env c now db after n h at s = elim (Bool-cases (is_time c.next_cold_batch_at now)) [
  | inl time ↦ cold-Sends env c now (cold_rows c db) db after n (rw time at h) at s
  | inr early ↦
      let same : db ≡ after = ground arith in subst (Sends c.id db) same ((Evolves-refl db, s), at)
]

finish-Follows :
    (c : Campaign) (now n : ℕ) (db : Mailing)
    → AllAt c.id sending db
    → Sane db
    → Follows db (finish_step c now n db).after
unfolding finish_step finished is_arrow
finish-Follows c now n db at s = elim (Bool-cases (any (waiting_in c.id) db.recipients)) [
  | inl more ↦ rw more (Evolves-refl db, s)
  | inr over ↦
      rw over (sending-Follows c.id (finished now) sent db at (λ d. refl) (λ d. refl) refl s)
]

pub step-Follows :
    (env : Env) (c : Campaign) (now : ℕ) (db : Mailing) (step : Step)
    → release_step env c now db ≡ ok step
    → AllAt c.id sending db
    → Sane db
    → Follows db step.after
unfolding release_step set_paused pause is_arrow
step-Follows env c now db step h at s = elim (Bool-cases (is_unhealthy c db.recipients)) [
  | inl sick ↦
      let f = pause (take 2000 (env.pause_text c db.recipients)) in
      let same : write_campaigns (with_id c.id) f db ≡ step.after = ground arith in
      subst (Follows db) same (sending-Follows c.id f paused db at (λ d. refl) (λ d. refl) refl s)
  | inr well ↦
      let (mid, first, rest) =
        ok-sequence (release env c (warm_rows c db) 0 now db)
          (λ m. cold_batch env c now m >>= λ chilled.
            ok (finish_step c now (length (warm_rows c db) + chilled.0) chilled.1))
          (rw well at h) in
      let ((n, last), second, done) =
        ok-sequence (cold_batch env c now mid)
          (λ chilled. ok (finish_step c now (length (warm_rows c db) + chilled.0) chilled.1))
          rest in
      let (follows, at') = release-Sends env c (warm_rows c db) 0 now c.id db mid first at s in
      let (follows', at'') = batch-Sends env c now mid last n second at' follows.1 in
      let same : finish_step c now (length (warm_rows c db) + n) last ≡ step = ground arith in
      subst (λ (x : Step). Follows db x.after) same
        (Follows-trans db last (finish_step c now (length (warm_rows c db) + n) last).after
          (Follows-trans db mid last follows (λ _. follows'))
          (finish-Follows c now (length (warm_rows c db) + n) last at''))
]
