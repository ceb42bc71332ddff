-- ===== src/Events/Budget/Examples.antt =====
-- The theorems on histories and on stored keys at concrete inputs.
use alchemist_template.Common.{
  ℕ, ◌+◌, ◌≡◌, refl, inl, true, Option, some, [], ◌∷◌, arith, Text, codes, eq_text,
}
use alchemist_template.Common.Members.{In}
use alchemist_template.Events.Store.{event_of, subscription_of}
use alchemist_template.Events.Claim.{claim_deliveries, in_time}
use alchemist_template.Events.History.{claims}
use alchemist_template.Events.Finish.{error}
use alchemist_template.Events.Sample.{fresh_store, taken_claim, half, claim_options, none_locked}
use alchemist_template.Events.Keys.{scoped_key_injective}
use alchemist_template.Events.Reserve.{scoped_idempotency_key}
use alchemist_template.Events.Budget.Bound.{Inv, attempts_within_budget}
use alchemist_template.Events.History.{Op, System, Reach, fails, step, requeues, next, here}

abbrev start : System
start = record { store = fresh_store; handed = [] }

abbrev sub_of : ℕ → ℕ
sub_of i = 2

abbrev max_of : ℕ → ℕ
max_of i = 3

start-Inv : Inv sub_of max_of start
start-Inv = record {
  store = record {
    rows = (
      record {
        of_sub = refl;
        allowed = omega arith;
        within = omega arith;
        left = λ h. omega arith;
      },
      tt,
    );
    subs = (record { max = refl; positive = omega arith }, tt);
    key = (tt, tt);
  };
  claims = tt;
}

abbrev claim_op : Op
claim_op = claims in_time true 10 claim_options none_locked

abbrev fail_op : Op
fail_op = fails taken_claim (error (codes "Error") (codes "no mail")) half 0

handed_out : In taken_claim (step claim_op start).handed
unfolding step claim_deliveries eq_text event_of subscription_of
handed_out = inl refl

history : Reach sub_of start (step (requeues 0) (step fail_op (step claim_op start)))
history = next (next (next here claim_op tt) fail_op handed_out) (requeues 0) tt

attempts_within_budget_example :
    Inv sub_of max_of (step (requeues 0) (step fail_op (step claim_op start)))
attempts_within_budget_example =
    attempts_within_budget sub_of max_of start
      (step (requeues 0) (step fail_op (step claim_op start))) start-Inv history

abbrev print_one : ℕ → Text
print_one i = (i + 200) ∷ []

scoped_key_injective_example : (◌≡◌ {A = Option ℕ} (some 4) (some 4)) × (codes "k" ≡ codes "k")
unfolding scoped_idempotency_key
scoped_key_injective_example =
    scoped_key_injective print_one (λ i j e. ground arith) (λ i. (λ e. omega arith, tt)) (λ i e. cc)
      (some 4) (some 4) (codes "k") (codes "k") refl
