-- ===== src/JobLock/Release.antt =====
-- The end of a run, and releases that are tried again.
use alchemist_template.Common.{
  ℕ, ◌≡◌, refl, sym, ◌∙◌, ◌≢◌, inl, inr, Bool, false, not, ◌&&◌, Option, none, some, Bool-cases,
}
use alchemist_template.Common.Members.{In}
use alchemist_template.JobLock.{
  Locks, Reach, put, guarded_lock_op, release_lock, released, retried, end_job,
}
use alchemist_template.JobLock.Exclusion.{Inv, put-cases, guarded-Inv, forget-Inv, defer-Inv}

abbrev pub forgotten : ℕ → Locks → Locks
forgotten p s = record s { held = put p none s.held; running = put p false s.running }

-- Once its holder has forgotten it, no pod has the token.
no_holder :
    (p t : ℕ) (s : Locks) → Inv s → s.held p ≡ some t → (q : ℕ) → put p none s.held q ≢ some t
no_holder p t s v has q h = elim (put-cases p q none s.held) [
  | inl (e, gone) ↦ absurd (cc)
  | inr (ne, same) ↦ ne (v.single q p t (sym same ∙ h) has)
]

released-Inv :
    (reach : Reach) (again : Bool) (p now : ℕ) (h : Option ℕ) (s : Locks)
    → s.held p ≡ h
    → Inv s
    → Inv (released reach again h now (forgotten p s))
unfolding released
released-Inv reach again p now none s has v = forget-Inv p s v
released-Inv reach again p now (some t) s has v =
    let free = no_holder p t s v has in
    let w =
      guarded-Inv reach t now none (forgotten p s) (forget-Inv p s v) (λ q h. absurd (free q h)) in
    defer-Inv (not (guarded_lock_op reach t now none s.key).0 && again) t
      (record (forgotten p s) { key = (guarded_lock_op reach t now none s.key).1 }) w
      (v.known p t has) free

-- The release writes neither list of jobs that run.
release-running :
    (reach : Reach) (again : Bool) (p now : ℕ) (h : Option ℕ) (s : Locks)
    → record (released reach again h now (record s { held = put p none s.held })) {
      running = put p false s.running;
    }
      ≡ released reach again h now (forgotten p s)
unfolding released
release-running reach again p now none s = refl
release-running reach again p now (some t) s = refl

running-kept :
    (reach : Reach) (again : Bool) (h : Option ℕ) (now : ℕ) (s : Locks)
    → (released reach again h now s).running ≡ s.running
unfolding released
running-kept reach again none now s = refl
running-kept reach again (some t) now s = refl

pub end-Inv :
    (reach : Reach) (again : Bool) (p now : ℕ) (s : Locks)
    → Inv s
    → Inv (end_job reach again p now s)
unfolding end_job release_lock
end-Inv reach again p now s v = elim (Bool-cases (s.running p)) [
  | inr off ↦ rw off v
  | inl on ↦
      rw
        (
          on,
          running-kept reach again (s.held p) now (record s { held = put p none s.held }),
          release-running reach again p now (s.held p) s,
        )
        (released-Inv reach again p now (s.held p) s refl v)
]

pub retry-Inv :
    (reach : Reach) (now : ℕ) (h : Option ℕ) (s : Locks)
    → ((t : ℕ) → h ≡ some t → In t s.deferred)
    → Inv s
    → Inv (retried reach h now s)
unfolding retried
retry-Inv reach now none s m v = v
retry-Inv reach now (some t) s m v =
    guarded-Inv reach t now none s v (λ q has. absurd (v.apart q t has (m t refl)))
