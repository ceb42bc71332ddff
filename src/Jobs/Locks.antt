-- ===== src/Jobs/Locks.antt =====
-- Claims keep the locks of schedules apart.
use alchemist_template.Common.{
  ℕ, ◌+◌, ◌≤◌, ◌≡◌, refl, sym, ap, ◌∙◌, ◌≢◌, inl, inr, Bool, true, not, Option, some, List, [], ◌∷◌,
  ◌++◌, map, arith, ◌==◌, get_elem?, update_where, Keyed, append-Keyed, In-update-cases, map-Keyed,
}
use alchemist_template.Common.Members.{In, In-filter, In-any, In-append, In-map}
use alchemist_template.Common.Pick.{among-In, pick-Keyed, pick-In, is_among}
use alchemist_template.Campaign.Tables.{Mailing}
use alchemist_template.Jobs.Tables.{ScheduledJob, JobTables}
use alchemist_template.Jobs.Service.{Env, fires_before, delete_scheduled_job}
use alchemist_template.Jobs.Claim.{
  claim_due, claimed, picked, is_due, claim_limit, stale_job_lock_ms,
}
use alchemist_template.Jobs.Pass.{job_id}
use alchemist_template.Jobs.Ids.{HasIds, act-HasIds, no_jobs-HasIds}
use alchemist_template.Jobs.History.{
  Turn, turn_of, State, Action, creates, reads, writes, deletes, claims, executes, stops, act,
  history, no_jobs,
}
use alchemist_template.Jobs.Rows.{read-same}
use alchemist_template.Jobs.Turns.{
  turn_id, HasLocks, create-HasLocks, written-HasLocks, stop-HasLocks, execute-HasLocks, due-free,
}

-- A claim comes while no runner at work has held a schedule for longer than the stale window.
unfoldable pub InOrder : Action → State → Type 0
InOrder (claims limit held now) s = (h : Turn) → In h s.turns → now ≤ h.now + stale_job_lock_ms
InOrder (creates now i) s = Unit
InOrder (reads id now patch) s = Unit
InOrder (writes i) s = Unit
InOrder (deletes id) s = Unit
InOrder (executes i done) s = Unit
InOrder (stops i) s = Unit

unfoldable pub AllInOrder : Env → List Action → State → Type 0
unfolding InOrder act
AllInOrder env [] s = Unit
AllInOrder env (a ∷ more) s = InOrder a s × AllInOrder env more (act env a s)

module _ (limit : Option ℕ) (held : ℕ → Bool) (now : ℕ) (t : JobTables) (turns : List Turn)
    (ids : HasIds t) (v : HasLocks t turns)
    (calm : (h : Turn) → In h turns → now ≤ h.now + stale_job_lock_ms) where
  abbrev took : List ScheduledJob
  took = picked limit held now t.jobs

  took-In : (x : ScheduledJob) → In x took → In x t.jobs × (is_due held now x ≡ true)
  unfolding picked
  took-In x m = pick-In fires_before (claim_limit limit) (is_due held now) t.jobs x m

  -- No one has the turn of a schedule that is due.
  free : (h : Turn) → In h turns → (x : ScheduledJob) → In x took → x.id ≢ turn_id h
  free h mh x mx e =
      let (mt, due) = took-In x mx in
      absurd (omega (arith, due-free held now h.now x due (v.owned h mh x mt e), calm h mh))

  new-In :
      (h : Turn)
      → In h (map (turn_of now) took)
      → (c : ScheduledJob) × In c took × (h ≡ turn_of now c)
  new-In h m = In-map (turn_of now) h took m

  claim-HasLocks :
      HasLocks
        (record t { jobs = update_where (is_among job_id took) (claimed now) t.jobs })
        (turns ++ map (turn_of now) took)
  claim-HasLocks = record {
    known = λ h mh. elim (In-append h turns (map (turn_of now) took) mh) [
      | inl old ↦ v.known h old
      | inr new ↦ let (c, mc, q) = new-In h new in rw q (ids.fresh c (took-In c mc).0)
    ];
    owned = λ h mh x mx same.
        let row = In-update-cases (is_among job_id took) (claimed now) x t.jobs mx in
        elim (In-append h turns (map (turn_of now) took) mh) [
          | inl old ↦ elim row [
            | inl (y, my, hit, q) ↦ absurd (
                free h old y
                  (among-In job_id took t.jobs y (λ z mz. (took-In z mz).0) ids.keyed my hit)
                  (sym (ap job_id q) ∙ same))
            | inr (my, miss) ↦ v.owned h old x my same
          ]
          | inr new ↦
              let (c, mc, q) = new-In h new in
              elim row [
                | inl (y, my, hit, p) ↦ rw (p, q) refl
                | inr (my, miss) ↦ absurd (ground (arith, In-any (λ r. x.id == r.id) c took mc))
              ]
        ];
    apart =
        append-Keyed turn_id turns (map (turn_of now) took) v.apart
          (map-Keyed (turn_of now) turn_id (λ c. refl) took
            (unfold picked in
              pick-Keyed fires_before job_id (claim_limit limit) (is_due held now) t.jobs
                ids.keyed))
          (λ h g mh mg e.
            let (c, mc, q) = new-In g mg in free h mh c mc (ap turn_id (sym q) ∙ sym e));
  }

act-HasLocks :
    (env : Env) (a : Action) (s : State)
    → HasIds s.tables
    → HasLocks s.tables s.turns
    → InOrder a s
    → HasLocks (act env a s).tables (act env a s).turns
unfolding act InOrder delete_scheduled_job claim_due
act-HasLocks env (creates now i) s ids v o = create-HasLocks env now i s.tables s.turns _ refl v
act-HasLocks env (reads id now patch) s ids v o =
    let (tables, turns) = read-same env id now patch s in rw (tables, turns) v
act-HasLocks env (writes i) s ids v o = written-HasLocks (get_elem? s.plans i) s.tables s.turns v
act-HasLocks env (deletes id) s ids v o = record {
  known = v.known;
  owned = λ h mh x mx. v.owned h mh x (In-filter (λ r. not (r.id == id)) x s.tables.jobs mx).0;
  apart = v.apart;
}
act-HasLocks env (claims limit held now) s ids v o =
    claim-HasLocks limit held now s.tables s.turns ids v o
act-HasLocks env (executes i done) s ids v o =
    execute-HasLocks env i done (get_elem? s.turns i) s.tables s.turns refl v
act-HasLocks env (stops i) s ids v o = stop-HasLocks i s.tables s.turns v

history-HasLocks :
    (env : Env) (actions : List Action) (s : State)
    → HasIds s.tables
    → HasLocks s.tables s.turns
    → AllInOrder env actions s
    → let after = history env actions s in HasLocks after.tables after.turns
unfolding history AllInOrder
history-HasLocks env [] s ids v o = v
history-HasLocks env (a ∷ more) s ids v o =
    history-HasLocks env more (act env a s) (act-HasIds env a s ids)
      (act-HasLocks env a s ids v o.0) o.1

-- Given that no claim comes while a runner at work has held a schedule for more than fifteen minutes:
-- whatever is created, updated, deleted, claimed, run or lost in a crash, and in whatever order, no
-- schedule is in the hands of two runners, and the row of one that a runner has, if it is still
-- there, is locked since that runner's tick.
pub one_runner :
    (env : Env) (mail : Mailing) (actions : List Action)
    → AllInOrder env actions (no_jobs mail)
    → let s = history env actions (no_jobs mail) in
      Keyed turn_id s.turns
      × ((h : Turn)
          → In h s.turns
          → (r : ScheduledJob) → In r s.tables.jobs
          → r.id ≡ turn_id h
          → r.locked_at ≡ some h.now)
one_runner env mail actions o =
    let v = history-HasLocks env actions (no_jobs mail) (no_jobs-HasIds mail) start o in
    (v.apart, v.owned)
  where
    start : HasLocks (no_jobs mail).tables []
    start = record { known = λ h m. absurd m; owned = λ h m. absurd m; apart = tt }
