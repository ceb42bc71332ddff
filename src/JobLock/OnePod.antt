-- ===== src/JobLock/OnePod.antt =====
-- Two pods never run the job at the same time.
use alchemist_template.Common.{
  ℕ, ◌+◌, ◌<◌, ◌≡◌, refl, sym, ap, ◌∙◌, ◌≢◌, ◌⊎◌, inl, inr, true, false, Option, none, some, List,
  [], ◌∷◌, arith, Bool-cases, get_elem?,
}
use alchemist_template.Common.Members.{get-In}
use alchemist_template.JobLock.{
  Locks, Reach, Lock, put, is_gone, locked_for, unreachable, dropped, unanswered, answered,
  acquire_lock, started, start_job, refresh_lock, Action, act, history, no_locks, starts, refreshes,
  ends, retries, crashes,
}
use alchemist_template.JobLock.Exclusion.{Inv, put-cases, refresh-Inv, forget-Inv}
use alchemist_template.JobLock.Release.{end-Inv, retry-Inv}

abbrev pub clock : Action → ℕ
clock (starts reach p ttl now) = now
clock (refreshes reach p ttl now) = now
clock (ends reach again p now) = now
clock (retries reach i now) = now
clock (crashes p now) = now

-- The lock of each pod that runs has not expired.
abbrev pub Lasts : ℕ → Locks → Type 0
Lasts now s = (p : ℕ) → s.running p ≡ true → (l : Lock) → s.key ≡ some l → now < l.expires_at

abbrev pub HasClient : Action → Type 0
HasClient (starts reach p ttl now) = reach ≢ unreachable
HasClient (refreshes reach p ttl now) = Unit
HasClient (ends reach again p now) = Unit
HasClient (retries reach i now) = Unit
HasClient (crashes p now) = Unit

-- At each action, the lock of a pod that runs has not expired, and a start has a client of Redis.
unfoldable pub AllInTime : List Action → Locks → Type 0
unfolding act
AllInTime [] s = Unit
AllInTime (a ∷ more) s = Lasts (clock a) s × HasClient a × AllInTime more (act a s)

gone_nobody :
    (now : ℕ) (key : Option Lock) (l : Lock)
    → key ≡ some l
    → now < l.expires_at
    → is_gone now key ≡ false
gone_nobody now none l e h = absurd (cc)
gone_nobody now (some k) l e h = ground arith

nobody :
    (now : ℕ) (s : Locks)
    → Inv s
    → Lasts now s
    → is_gone now s.key ≡ true
    → (p : ℕ) → s.running p ≢ true
nobody now s v lasts gone p run =
    let (l, at, has) = v.owner p run in
    absurd (cc (gone, gone_nobody now s.key l at (lasts p run l at)))

-- A pod that gets the lock while none runs.
taken-Inv :
    (p : ℕ) (l : Lock) (s : Locks)
    → Inv s
    → l.token ≡ s.next
    → ((q : ℕ) → s.running q ≢ true)
    → Inv (record s {
      key = some l;
      held = put p (some s.next) s.held;
      running = put p true s.running;
      next = s.next + 1;
    })
taken-Inv p l s v fresh idle = record {
  owner = λ q run. elim (put-cases p q true s.running) [
    | inr (ne, same) ↦ absurd (idle q (sym same ∙ run))
    | inl (e, on) ↦ (
      l,
      refl,
      elim (put-cases p q (some s.next) s.held) [
        | inl (e', has) ↦ has ∙ ap some (sym fresh)
        | inr (ne, same) ↦ absurd (ne e)
      ],
    )
  ];
  single = λ q r t hq hr. elim (holds q t hq) [
    | inl (eq, new) ↦ elim (holds r t hr) [
      | inl (er, new') ↦ eq ∙ sym er
      | inr old ↦ absurd (omega (arith, v.known r t old))
    ]
    | inr oldq ↦ elim (holds r t hr) [
      | inl (er, new) ↦ absurd (omega (arith, v.known q t oldq))
      | inr oldr ↦ v.single q r t oldq oldr
    ]
  ];
  known = λ q t h. elim (holds q t h) [
    | inl (e, new) ↦ omega arith
    | inr old ↦ omega (arith, v.known q t old)
  ];
  apart = λ q t h m. elim (holds q t h) [
    | inl (e, new) ↦ absurd (omega (arith, v.below t m))
    | inr old ↦ v.apart q t old m
  ];
  below = λ t m. omega (arith, v.below t m);
}
  where
    holds :
        (q t : ℕ)
        → put p (some s.next) s.held q ≡ some t
        → ((q ≡ p) × (t ≡ s.next)) ⊎ (s.held q ≡ some t)
    holds q t h = elim (put-cases p q (some s.next) s.held) [
      | inl (e, new) ↦ inl (e, ground arith)
      | inr (ne, same) ↦ inr (sym same ∙ h)
    ]

-- A lock that is set on the server and that no pod knows of.
lost-Inv :
    (l : Lock) (s : Locks)
    → Inv s
    → ((q : ℕ) → s.running q ≢ true)
    → Inv (record s { key = some l; next = s.next + 1 })
lost-Inv l s v idle = record {
  owner = λ q run. absurd (idle q run);
  single = v.single;
  known = λ q t h. omega (arith, v.known q t h);
  apart = v.apart;
  below = λ t m. omega (arith, v.below t m);
}

start-Inv :
    (reach : Reach) (p ttl now : ℕ) (s : Locks)
    → Inv s
    → Lasts now s
    → reach ≢ unreachable
    → Inv (started p (acquire_lock reach p ttl now s)).1
unfolding acquire_lock started
start-Inv unreachable p ttl now s v lasts client = absurd (client refl)
start-Inv dropped p ttl now s v lasts client = v
start-Inv unanswered p ttl now s v lasts client = elim (Bool-cases (is_gone now s.key)) [
  | inr here ↦ rw here v
  | inl gone ↦ rw gone (lost-Inv (locked_for s.next now ttl) s v (nobody now s v lasts gone))
]
start-Inv answered p ttl now s v lasts client = elim (Bool-cases (is_gone now s.key)) [
  | inr here ↦ rw here v
  | inl gone ↦
      rw gone (taken-Inv p (locked_for s.next now ttl) s v refl (nobody now s v lasts gone))
]

start_job-Inv :
    (reach : Reach) (p ttl now : ℕ) (s : Locks)
    → Inv s
    → Lasts now s
    → reach ≢ unreachable
    → Inv (start_job reach p ttl now s).1
unfolding start_job
start_job-Inv reach p ttl now s v lasts client = elim (Bool-cases (s.running p)) [
  | inl on ↦ rw on v
  | inr off ↦ rw off (start-Inv reach p ttl now s v lasts client)
]

act-Inv : (a : Action) (s : Locks) → Inv s → Lasts (clock a) s → HasClient a → Inv (act a s)
unfolding act refresh_lock
act-Inv (starts reach p ttl now) s v lasts client = start_job-Inv reach p ttl now s v lasts client
act-Inv (refreshes reach p ttl now) s v lasts client = refresh-Inv reach (s.held p) ttl now s v
act-Inv (ends reach again p now) s v lasts client = end-Inv reach again p now s v
act-Inv (retries reach i now) s v lasts client =
    retry-Inv reach now (get_elem? s.deferred i) s (λ t e. get-In s.deferred i e) v
act-Inv (crashes p now) s v lasts client = forget-Inv p s v

history-Inv :
    (actions : List Action) (s : Locks) → Inv s → AllInTime actions s → Inv (history actions s)
unfolding history AllInTime
history-Inv [] s v o = v
history-Inv (a ∷ more) s v (lasts, client, o) =
    history-Inv more (act a s) (act-Inv a s v lasts client) o

no_locks-Inv : Inv no_locks
no_locks-Inv = record {
  owner = λ p run. absurd (cc);
  single = λ p q t h. absurd (cc);
  known = λ p t h. absurd (cc);
  apart = λ p t h. absurd (cc);
  below = λ t m. absurd m;
}

-- Given that at each action the lock of a pod that runs has not yet expired, and that each pod which
-- starts has a client of Redis: whatever pods start, refresh, end, crash and release late, in
-- whatever order, with operations that fail or whose replies are lost, two pods never run the job
-- at the same time, and the key holds the token of the one that does.
pub one_pod :
    (actions : List Action)
    → AllInTime actions no_locks
    → let s = history actions no_locks in
      ((p q : ℕ) → s.running p ≡ true → s.running q ≡ true → p ≡ q)
      × ((p : ℕ) → s.running p ≡ true → (l : Lock) × (s.key ≡ some l) × (s.held p ≡ some l.token))
one_pod actions o =
    let v = history-Inv actions no_locks no_locks-Inv o in
    (
      λ p q rp rq.
          let (l, at, hp) = v.owner p rp in
          let (m, at', hq) = v.owner q rq in
          let same : some m.token ≡ some l.token = ground arith in
          v.single p q l.token hp (hq ∙ same),
      v.owner,
    )
