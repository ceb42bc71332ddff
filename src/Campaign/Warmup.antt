-- ===== src/Campaign/Warmup.antt =====
-- What one step of advanceOne releases.
use alchemist_template.Common.{
  ℕ, ◌+◌, ◌≤◌, ◌≡◌, refl, sym, ap, ◌∙◌, subst, ◌⊎◌, inl, inr, true, false, List, [], arith,
  Bool-cases, length, ◌>>=◌, ok-sequence, Keyed, ok,
}
use alchemist_template.Common.Pick.{is_among}
use alchemist_template.Common.Pointwise.{Pointwise, Pointwise-refl, Pointwise-trans}
use alchemist_template.Campaign.Tables.{Campaign, Mailing, Recipient, write_campaigns}
use alchemist_template.Campaign.Snapshot.{Env}
use alchemist_template.Campaign.Release.{release, queue_as}
use alchemist_template.Campaign.Advance.{
  Step, release_step, cold_batch, cold_rows, warm_rows, batch_size, is_unhealthy, finish_step,
  set_paused, warm_in, cold_in,
}
use alchemist_template.Campaign.Queued.{
  QueuedOf, Released, ColdOf, release-rows, release-ids, warm-rows-waiting, cold-rows-waiting,
  cold-batch-rows, length-cold_rows,
}

finish-rows :
    (c : Campaign) (now n : ℕ) (db : Mailing)
    → (finish_step c now n db).after.recipients ≡ db.recipients
unfolding finish_step write_campaigns
finish-rows c now n db = ground arith

both-rows :
    (c : Campaign) (now : ℕ) (warm cold : List Recipient) (x y z : Recipient)
    → (is_among (λ r. r.id) warm x ≡ true → warm_in c.id x ≡ true)
    → (is_among (λ r. r.id) cold y ≡ true → cold_in c.id y ≡ true)
    → QueuedOf now 0 warm x y
    → ColdOf c now cold y z
    → Released c now cold x z
unfolding queue_as
both-rows c now warm cold x y z is_warm is_cold (inl e) (inl f) = inl (f ∙ e)
both-rows c now warm cold x y z is_warm is_cold (inr (q, among, e)) (inl f) =
    let w = is_warm among in inr (inl (q, ground arith, ground arith, f ∙ e))
both-rows c now warm cold x y z is_warm is_cold (inl e) (inr (q, time, among, f)) =
    let here = subst (λ w. is_among (λ r. r.id) cold w ≡ true) e among in
    let w = subst (λ w. cold_in c.id w ≡ true) e (is_cold among) in
    inr (
      inr
        (q, ground arith, ground arith, time, here, f ∙ ap (queue_as q now (c.warmup_step + 1)) e))
both-rows c now warm cold x y z is_warm is_cold (inr (q, among, e)) (inr (q', time, among', f)) =
    let w = subst (λ w. cold_in c.id w ≡ true) e (is_cold among') in absurd (ground arith)

-- Given that the ids of the recipients are unique: a step that succeeds queues, and changes, only
-- recipients that were pending in this campaign: warm ones, and, once the time of the next batch has
-- come, cold ones, of which there are no more than the size of the warm-up step. A campaign whose
-- bounce or complaint rate is too high queues no one.
pub step_queues :
    (env : Env) (c : Campaign) (now : ℕ) (db : Mailing) (step : Step)
    → Keyed (λ (r : Recipient). r.id) db.recipients
    → release_step env c now db ≡ ok step
    → ((cold : List Recipient) × (length cold ≤ batch_size c.warmup_step)
        × Pointwise (Released c now cold) db.recipients step.after.recipients)
      × ((is_unhealthy c db.recipients ≡ false) ⊎ (step.after.recipients ≡ db.recipients))
unfolding release_step set_paused write_campaigns
step_queues env c now db step k h = elim (Bool-cases (is_unhealthy c db.recipients)) [
  | inl sick ↦
      let same : db.recipients ≡ step.after.recipients = ground arith in
      (
        (
          [],
          omega arith,
          subst (Pointwise (Released c now []) db.recipients) same
              (Pointwise-refl (Released c now []) db.recipients (λ x. inl refl)),
        ),
        inr (sym same),
      )
  | inr well ↦
      let (mid, first, rest) =
        ok-sequence (release env c (warm_rows c db) 0 now db)
          (λ m. cold_batch env c now m >>= λ chilled.
            ok (finish_step c now (length (warm_rows c db) + chilled.0) chilled.1))
          (rw well at h) in
      let ((n, last), second, done) =
        ok-sequence (cold_batch env c now mid)
          (λ chilled. ok (finish_step c now (length (warm_rows c db) + chilled.0) chilled.1))
          rest in
      let same : finish_step c now (length (warm_rows c db) + n) last ≡ step = ground arith in
      let rows : last.recipients ≡ step.after.recipients =
        sym (finish-rows c now (length (warm_rows c db) + n) last)
        ∙ ap (λ (x : Step). x.after.recipients) same in
      let k' = release-ids env c (warm_rows c db) 0 now db mid first k in
      (
        (
          cold_rows c mid,
          length-cold_rows c mid,
          subst (Pointwise (Released c now (cold_rows c mid)) db.recipients) rows (
              Pointwise-trans (QueuedOf now 0 (warm_rows c db)) (ColdOf c now (cold_rows c mid))
                (Released c now (cold_rows c mid)) db.recipients mid.recipients last.recipients
                (λ x y z m m' p q.
                  both-rows c now (warm_rows c db) (cold_rows c mid) x y z
                    (warm-rows-waiting c db x k m) (cold-rows-waiting c mid y k' m') p q)
                (release-rows env c (warm_rows c db) 0 now db mid first)
                (cold-batch-rows env c now n mid last second)),
        ),
        inl well,
      )
]
