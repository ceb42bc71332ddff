-- ===== src/Credit/Service.antt =====
-- The behaviour of each call of the credit service.
use alchemist_template.Common.{
  ℕ, suc, ◌≡◌, refl, ap, true, false, Option, none, some, ◌∷◌, arith, ◌==◌, if◌then◌else◌, Text,
  eq_text_self, ok,
}
use alchemist_template.Common.Int.{◌-ℤ◌, ◌≤ℤ◌, pos, negsuc, integer}
use alchemist_template.Credit.Tables.{Ledger, LedgerEntry, has_external_ref}
use alchemist_template.Credit.Balance.{spend_short, spend_covered}
use alchemist_template.Credit.{
  GrantResult, paid, refused, grant, debit, post_grant, post_debit, get_balance,
}

-- A reference that was just granted is on record.
ref-on-record :
    (org n : ℕ) (reason ref : Text) (l : Ledger)
    → has_external_ref (some ref) (post_grant org n reason (some ref) l).1.entries ≡ true
unfolding post_grant has_external_ref
ref-on-record org n reason ref l = ground (arith, eq_text_self ref)

post_grant_known :
    (org n : ℕ) (reason : Text) (ref : Option Text) (l : Ledger)
    → has_external_ref ref l.entries ≡ true
    → post_grant org n reason ref l ≡ (record { granted = false; balance = get_balance org l }, l)
unfolding post_grant get_balance
post_grant_known org n reason ref l h = rw h

granted-on-record :
    (org m : ℕ) (reason ref : Text) (l : Ledger) {after : Ledger} {g : GrantResult}
    → grant org (integer (pos (suc m))) reason (some ref) l ≡ ok (g, after)
    → has_external_ref (some ref) after.entries ≡ true
unfolding grant
granted-on-record org m reason ref l h = ground (arith, ref-on-record org (suc m) reason ref l)

-- After a grant under an external reference, a second grant under that reference, for whatever
-- organisation and positive amount, says that it granted nothing, gives the balance as it stands,
-- and changes no table.
pub grant_replay :
    (org j m n : ℕ) (reason reason' ref : Text) (l after : Ledger) (g : GrantResult)
    → grant org (integer (pos (suc m))) reason (some ref) l ≡ ok (g, after)
    → grant j (integer (pos (suc n))) reason' (some ref) after
      ≡ ok (record { granted = false; balance = get_balance j after }, after)
unfolding grant
grant_replay org j m n reason reason' ref l after g h =
    ap ok
      (post_grant_known j (suc n) reason' (some ref) after (granted-on-record org m reason ref l h))

-- A debit of a positive amount that the balance does not cover is refused with the balance, and
-- changes no table.
pub debit_refused :
    (org m : ℕ) (reason : Text) (l : Ledger)
    → ¬ (pos (suc m) ≤ℤ get_balance org l)
    → debit org (integer (pos (suc m))) reason l ≡ ok (refused (get_balance org l), l)
unfolding debit get_balance
debit_refused org m reason l h = rw (spend_short org (suc m) l.balances (ground arith), post_debit)

minus-suc : (m : ℕ) → pos 0 -ℤ pos (suc m) ≡ negsuc m
unfolding ◌-ℤ◌
minus-suc m = ground arith

-- A debit of a positive amount that the balance covers is paid: it takes the amount off the
-- balance of the organisation, leaves every other balance, reports the new balance, and puts one
-- entry on the ledger, whose delta is minus the amount.
pub debit_paid :
    (org m : ℕ) (reason : Text) (l : Ledger)
    → pos (suc m) ≤ℤ get_balance org l
    → (after : Ledger) × (debit org (integer (pos (suc m))) reason l
        ≡ ok (paid (get_balance org after), after))
      × ((j : ℕ)
          → get_balance j after
            ≡ (if org == j then get_balance j l -ℤ pos (suc m) else get_balance j l))
      × (after.entries
          ≡ record { organization_id = org; delta = negsuc m; reason = reason; external_ref = none }
            ∷ l.entries)
unfolding debit get_balance
debit_paid org m reason l h =
    let (rows, done, reads) = spend_covered org (suc m) l.balances (omega arith) (ground arith) in
    (
      record { entries = charge ∷ l.entries; balances = rows },
      rw (done, post_debit, minus-suc m),
      reads,
      refl,
    )
  where
    charge : LedgerEntry
    charge = record {
      organization_id = org;
      delta = negsuc m;
      reason = reason;
      external_ref = none;
    }
