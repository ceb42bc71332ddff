-- ===== src/JobLock/Exclusion.antt =====
-- One pod at a time runs the job, while locks last.
use alchemist_template.Common.{
  ℕ, ◌<◌, ◌≡◌, refl, sym, ap, ◌∙◌, ◌≢◌, ◌⊎◌, inl, inr, Bool, true, false, Option, none, some, ◌∷◌,
  arith, ◌==◌, if◌then◌else◌, Bool-cases,
}
use alchemist_template.Common.Members.{In}
use alchemist_template.JobLock.{
  Lock, Locks, Reach, unreachable, dropped, unanswered, answered, put, has_token, guarded_lock_op,
  locked_for, refreshed,
}

-- A pod that runs has the token of the key; tokens of pods differ from each other and from those
-- whose release is to be tried again.
pub record Inv (s : Locks) : Type 0 where
  pub owner :
      (p : ℕ) → s.running p ≡ true → (l : Lock) × (s.key ≡ some l) × (s.held p ≡ some l.token)
  pub single : (p q t : ℕ) → s.held p ≡ some t → s.held q ≡ some t → p ≡ q
  pub known : (p t : ℕ) → s.held p ≡ some t → t < s.next
  pub apart : (p t : ℕ) → s.held p ≡ some t → In t s.deferred → ⊥
  pub below : (t : ℕ) → In t s.deferred → t < s.next

pub put-cases :
    {A : Type 0} (p q : ℕ) (a : A) (f : ℕ → A)
    → ((q ≡ p) × (put p a f q ≡ a)) ⊎ ((q ≢ p) × (put p a f q ≡ f q))
put-cases p q a f = elim (Bool-cases (q == p)) [
  | inl e ↦ inl (ground arith, ground arith)
  | inr e ↦ inr (ground arith, ground arith)
]

guarded-cases :
    (reach : Reach) (t now : ℕ) (new key : Option Lock)
    → let after = (guarded_lock_op reach t now new key).1 in
      (after ≡ key) ⊎ ((has_token t now key ≡ true) × (after ≡ new))
unfolding guarded_lock_op
guarded-cases unreachable t now new key = inl refl
guarded-cases dropped t now new key = inl refl
guarded-cases unanswered t now new key = ground arith
guarded-cases answered t now new key = ground arith

has_token-eq :
    (t now : ℕ) (key : Option Lock) (l : Lock)
    → has_token t now key ≡ true
    → key ≡ some l
    → l.token ≡ t
has_token-eq t now none l h e = absurd (cc)
has_token-eq t now (some k) l h e = ground arith

-- A new value of the key that keeps the token of a pod that runs.
rekey-Inv :
    (s : Locks) (key : Option Lock)
    → Inv s
    → ((q : ℕ) (l : Lock)
        → s.key ≡ some l
        → s.held q ≡ some l.token
        → (m : Lock) × (key ≡ some m) × (m.token ≡ l.token))
    → Inv (record s { key = key })
rekey-Inv s key v keeps = record {
  owner = λ p run.
      let (l, at, has) = v.owner p run in
      let (m, now_at, same) = keeps p l at has in (m, now_at, has ∙ ap some (sym same));
  single = v.single;
  known = v.known;
  apart = v.apart;
  below = v.below;
}

pub guarded-Inv :
    (reach : Reach) (t now : ℕ) (new : Option Lock) (s : Locks)
    → Inv s
    → ((q : ℕ) → s.held q ≡ some t → (m : Lock) × (new ≡ some m) × (m.token ≡ t))
    → Inv (record s { key = (guarded_lock_op reach t now new s.key).1 })
guarded-Inv reach t now new s v keeps =
    rekey-Inv s (guarded_lock_op reach t now new s.key).1 v (λ q l at has.
      elim (guarded-cases reach t now new s.key) [
        | inl same ↦ (l, same ∙ at, refl)
        | inr (mine, set) ↦
            let is : l.token ≡ t = has_token-eq t now s.key l mine at in
            let (m, e, tok) = keeps q (has ∙ ap some is) in (m, set ∙ e, tok ∙ sym is)
      ])

pub refresh-Inv :
    (reach : Reach) (h : Option ℕ) (ttl now : ℕ) (s : Locks)
    → Inv s
    → Inv (refreshed reach h ttl now s).1
unfolding refreshed
refresh-Inv reach none ttl now s v = v
refresh-Inv reach (some t) ttl now s v =
    guarded-Inv reach t now (some (locked_for t now ttl)) s v
      (λ q has. (locked_for t now ttl, refl, refl))

pub forget-Inv :
    (p : ℕ) (s : Locks)
    → Inv s
    → Inv (record s { held = put p none s.held; running = put p false s.running })
forget-Inv p s v = record {
  owner = λ q run. elim (put-cases p q false s.running) [
    | inl (e, off) ↦ absurd (cc)
    | inr (ne, same) ↦
        let (l, at, has) = v.owner q (sym same ∙ run) in (l, at, old q (some l.token) ne ∙ has)
  ];
  single = λ q r t hq hr. v.single q r t (was q t hq) (was r t hr);
  known = λ q t h. v.known q t (was q t h);
  apart = λ q t h. v.apart q t (was q t h);
  below = v.below;
}
  where
    old : (q : ℕ) (a : Option ℕ) → q ≢ p → put p none s.held q ≡ s.held q
    old q a ne = elim (put-cases p q none s.held) [
      | inl (e, gone) ↦ absurd (ne e)
      | inr (ne', same) ↦ same
    ]

    was : (q t : ℕ) → put p none s.held q ≡ some t → s.held q ≡ some t
    was q t h = elim (put-cases p q none s.held) [
      | inl (e, gone) ↦ absurd (cc)
      | inr (ne, same) ↦ sym same ∙ h
    ]

pub defer-Inv :
    (b : Bool) (t : ℕ) (s : Locks)
    → Inv s
    → t < s.next
    → ((q : ℕ) → s.held q ≢ some t)
    → Inv (record s { deferred = if b then t ∷ s.deferred else s.deferred })
defer-Inv false t s v lt free = v
defer-Inv true t s v lt free = record {
  owner = v.owner;
  single = v.single;
  known = v.known;
  apart = λ q u h m. elim m [ inl e ↦ free q (h ∙ ap some e) | inr old ↦ v.apart q u h old ];
  below = λ u m. elim m [ inl e ↦ rw e lt | inr old ↦ v.below u old ];
}
