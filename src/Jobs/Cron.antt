-- ===== src/Jobs/Cron.antt =====
-- src/jobs/cron.ts, over the croner library and the time zones of the runtime.
use alchemist_template.Common.{
  ℕ, ◌+◌, ◌-◌, ◌/◌, Bool, not, ◌&&◌, Option, none, some, List, ◌∷◌, if◌then◌else◌, Text, codes,
  Result, ◌>>=◌, ok, err,
}
use alchemist_template.Import.Labels.{is_nil}

-- What a check that throws returns.
pub data Checked : Type 0 where
  checked : Checked

-- croner: `new Cron(expr, { timezone })`, which may throw, and the fires of such a pattern after a
-- time, the first and the first two; and the zones that the runtime knows.
pub record Croner : Type 0 where
  pub construct : Text → Text → Result Text Checked
  pub next_run : Text → Text → ℕ → Result Text (Option ℕ)
  pub next_two : Text → Text → ℕ → Result Text (List ℕ)
  pub knows_zone : Text → Bool

pub data JobError : Type 0 where
  no_handler unknown_timezone never_fires not_found no_result : JobError
  too_often : ℕ → JobError
  invalid_cron threw : Text → JobError

abbrev pub utc : Text
utc = codes "UTC"

-- An error of croner that nothing catches.
abbrev pub thrown : {A : Type 0} → Result Text A → Result JobError A
thrown (ok a) = ok a
thrown (err e) = err (threw e)

cron_result : Result Text Checked → Result JobError Checked
cron_result (ok u) = ok checked
cron_result (err reason) = err (invalid_cron reason)

unfoldable pub assert_valid_cron : Croner → Text → Result JobError Checked
unfolding cron_result
assert_valid_cron croner expr = cron_result (croner.construct expr utc)

unfoldable pub is_valid_timezone : Croner → Text → Bool
is_valid_timezone croner tz = not (is_nil tz) && croner.knows_zone tz

unfoldable pub assert_valid_timezone : Croner → Text → Result JobError Checked
unfolding is_valid_timezone
assert_valid_timezone croner tz =
    if is_valid_timezone croner tz then ok checked else err unknown_timezone

unfoldable pub next_run_after : Croner → Text → Text → ℕ → Result Text (Option ℕ)
next_run_after croner expr tz after =
    croner.construct expr tz >>= λ _. croner.next_run expr tz after

-- `Math.round((b - a) / 1000)` of the first two fires, which croner gives in order.
unfoldable pub seconds_between : List ℕ → Option ℕ
seconds_between (a ∷ b ∷ _) = some ((b - a + 500) / 1000)
seconds_between _ = none

unfoldable pub shortest_interval_seconds : Croner → Text → Text → ℕ → Result Text (Option ℕ)
unfolding seconds_between
shortest_interval_seconds croner expr tz after = croner.construct expr tz >>= λ _.
    croner.next_two expr tz after >>= λ runs. ok (seconds_between runs)
