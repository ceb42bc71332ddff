-- ===== src/Jobs/Cadence.antt =====
-- What validateSchedule settles of a kind, a cron and a time zone, each by itself.
use alchemist_template.Common.{
  ℕ, ◌≡◌, refl, inl, inr, true, ◌||◌, Option, none, some, arith, Bool-cases, Text, eq_text_iff,
  ok-sequence, ok,
}
use alchemist_template.Import.Labels.{trim}
use alchemist_template.Jobs.Tables.{ScheduledJob}
use alchemist_template.Jobs.Cron.{
  Checked, checked, assert_valid_cron, is_valid_timezone, assert_valid_timezone,
}
use alchemist_template.Jobs.Service.{
  Env, UpdateScheduledJobInput, validate_schedule, new_fire, patched, trimmed_or, cadence_changed,
  re_enabled, is_job_kind_registered,
}
use alchemist_template.Jobs.History.{Plan}

abbrev pub IsCron : Env → Text → Type 0
IsCron env cron = assert_valid_cron env.croner cron ≡ ok checked

abbrev pub IsZone : Env → Text → Type 0
IsZone env zone = is_valid_timezone env.croner zone ≡ true

-- A registered kind, a cron that croner reads and a time zone that the runtime knows.
abbrev pub IsValid : Env → ScheduledJob → Type 0
IsValid env x =
    (is_job_kind_registered env x.kind ≡ true) × IsCron env x.cron × IsZone env x.timezone

-- The same of the values that an update is about to write.
abbrev pub IsSound : Env → Plan → Type 0
IsSound env p =
    ((c : Text) → p.patch.cron ≡ some c → IsCron env (trim c))
    × ((z : Text) → p.patch.timezone ≡ some z → IsZone env (trim z))

assert-IsCron :
    (env : Env) (cron : Text) (u : Checked)
    → assert_valid_cron env.croner cron ≡ ok u
    → IsCron env cron
assert-IsCron env cron checked h = h

assert-IsZone :
    (env : Env) (zone : Text) (u : Checked)
    → assert_valid_timezone env.croner zone ≡ ok u
    → IsZone env zone
unfolding assert_valid_timezone
assert-IsZone env zone u h = ground arith

pub validated :
    (env : Env) (kind cron zone : Text) (now at : ℕ)
    → validate_schedule env kind cron zone now ≡ ok at
    → (is_job_kind_registered env kind ≡ true) × IsCron env cron × IsZone env zone
unfolding validate_schedule
validated env kind cron zone now at h = elim (Bool-cases (is_job_kind_registered env kind)) [
  | inr e ↦ absurd (cc (rw e at h))
  | inl e ↦
      let (u, eu, rest) = ok-sequence (assert_valid_cron env.croner cron) _ (rw e at h) in
      let (w, ew, more) = ok-sequence (assert_valid_timezone env.croner zone) _ rest in
      (e, assert-IsCron env cron u eu, assert-IsZone env zone w ew)
]

-- What an update writes to the cadence, or leaves of it, is valid by the row that it has read.
pub fire-IsValid :
    (env : Env) (now : ℕ) (patch : UpdateScheduledJobInput) (x : ScheduledJob) (next : Option ℕ)
    → new_fire env now patch x ≡ ok next
    → IsValid env x
    → IsCron env (trimmed_or patch.cron x.cron) × IsZone env (trimmed_or patch.timezone x.timezone)
unfolding new_fire cadence_changed
fire-IsValid env now patch x next h (kind, cron_ok, zone_ok) =
    elim (Bool-cases (cadence_changed patch x || re_enabled patch x)) [
      | inl changed ↦
          let (at, passed, e) =
            ok-sequence
              (validate_schedule env x.kind (trimmed_or patch.cron x.cron)
                (trimmed_or patch.timezone x.timezone) now)
              (λ a. ok (some a)) (rw changed at h) in
          let (registered, cron, zone) = validated env _ _ _ now at passed in (cron, zone)
      | inr same ↦
          let cron : trimmed_or patch.cron x.cron ≡ x.cron =
            (eq_text_iff (trimmed_or patch.cron x.cron) x.cron).0 (ground arith) in
          let zone : trimmed_or patch.timezone x.timezone ≡ x.timezone =
            (eq_text_iff (trimmed_or patch.timezone x.timezone) x.timezone).0 (ground arith) in
          (rw cron cron_ok, rw zone zone_ok)
    ]

pub trimmed_value :
    (P : Text → Type 0) (o : Option Text) (old c : Text)
    → P (trimmed_or o old)
    → o ≡ some c
    → P (trim c)
unfolding trimmed_or
trimmed_value P o old c p e = rw e at p

trimmed_or-All :
    (P : Text → Type 0) (o : Option Text) (old : Text)
    → ((c : Text) → o ≡ some c → P (trim c))
    → P old
    → P (trimmed_or o old)
unfolding trimmed_or
trimmed_or-All P none old h p = p
trimmed_or-All P (some c) old h p = h c refl

pub patched-IsValid :
    (env : Env) (p : Plan) (x : ScheduledJob)
    → IsSound env p
    → IsValid env x
    → IsValid env (patched p.patch p.next x)
unfolding patched
patched-IsValid env p x (crons, zones) (kind, cron, zone) = (
  kind,
  trimmed_or-All (IsCron env) p.patch.cron x.cron crons cron,
  trimmed_or-All (IsZone env) p.patch.timezone x.timezone zones zone,
)
