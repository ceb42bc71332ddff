-- ===== src/Credit/History.antt =====
-- Histories of the credit ledger: any sequence of calls, failed ones included.
use alchemist_template.Common.{
  ℕ, suc, ◌≤◌, ◌<◌, ◌≡◌, refl, inl, inr, false, Option, none, some, List, [], ◌∷◌, arith, ◌==◌,
  if◌then◌else◌, Bool-cases, Text, eq_text_iff, Result, ok, err,
}
use alchemist_template.Common.Int.{ℤ, ◌+ℤ◌, ◌-ℤ◌, ◌≤ℤ◌, leb_ℤ, int_laws, Number, pos, integer}
use alchemist_template.Credit.Tables.{
  Ledger, LedgerEntry, empty_ledger, read_balance, has_external_ref, same_ref,
}
use alchemist_template.Credit.Balance.{read-add, spend_short, spend_covered}
use alchemist_template.Credit.{CreditError, grant, debit, refund, post_grant, post_debit}

pub data Call : Type 0 where
  grants : ℕ → Number → Text → Option Text → Call
  debits : ℕ → Number → Text → Call
  refunds : ℕ → Number → Text → Call

-- A call that throws leaves the tables.
abbrev after {ℓ} : {A : Type ℓ} → Ledger → Result CreditError (A × Ledger) → Ledger
after l (ok (a, k)) = k
after l (err e) = l

abbrev after_ok : Ledger → Result CreditError Ledger → Ledger
after_ok l (ok k) = k
after_ok l (err e) = l

pub step : Ledger → Call → Ledger
step l (grants org amount reason ref) = after l (grant org amount reason ref l)
step l (debits org amount reason) = after l (debit org amount reason l)
step l (refunds org amount reason) = after_ok l (refund org amount reason l)

pub run : Ledger → List Call → Ledger
run l [] = l
run l (c ∷ cs) = run (step l c) cs

-- What the entries of one organisation add up to.
abbrev pub entry_sum : ℕ → List LedgerEntry → ℤ
entry_sum org [] = pos 0
entry_sum org (e ∷ es) =
    if e.organization_id == org then e.delta +ℤ entry_sum org es else entry_sum org es

-- How many entries carry an external reference.
abbrev pub count_ref : Text → List LedgerEntry → ℕ
count_ref ref [] = 0
count_ref ref (e ∷ es) =
    if same_ref ref e.external_ref then suc (count_ref ref es) else count_ref ref es

pub record Inv (l : Ledger) : Type 0 where
  pub audited : (org : ℕ) → read_balance org l.balances ≡ entry_sum org l.entries
  pub solvent : (org : ℕ) → pos 0 ≤ℤ read_balance org l.balances
  pub once : (ref : Text) → count_ref ref l.entries ≤ 1

count-fresh :
    (ref : Text) (es : List LedgerEntry)
    → has_external_ref (some ref) es ≡ false
    → count_ref ref es ≡ 0
unfolding has_external_ref
count-fresh ref [] h = refl
count-fresh ref (e ∷ es) h = ground (arith, count-fresh ref es)

count-grant :
    (r : Text) (org : ℕ) (delta : ℤ) (reason : Text) (ref : Option Text) (es : List LedgerEntry)
    → has_external_ref ref es ≡ false
    → count_ref r es ≤ 1
    → count_ref r
        (record { organization_id = org; delta = delta; reason = reason; external_ref = ref } ∷ es)
      ≤ 1
unfolding same_ref
count-grant r org delta reason none es h k = k
count-grant r org delta reason (some ref) es h k =
    ground (arith, eq_text_iff r ref, count-fresh ref es h)

plus_comm : (a b : ℤ) → a +ℤ b ≡ b +ℤ a
plus_comm a b = omega int_laws

plus_solvent : (a : ℤ) (n : ℕ) → pos 0 ≤ℤ a → pos 0 ≤ℤ a +ℤ pos n
plus_solvent a n h = omega int_laws

minus_plus : (a : ℤ) (n : ℕ) → a -ℤ pos n ≡ (pos 0 -ℤ pos n) +ℤ a
minus_plus a n = omega int_laws

minus_solvent : (a : ℤ) (n : ℕ) → pos n ≤ℤ a → pos 0 ≤ℤ a -ℤ pos n
minus_solvent a n h = omega int_laws

post_grant-Inv :
    (org n : ℕ) (reason : Text) (ref : Option Text) (l : Ledger)
    → Inv l
    → Inv (post_grant org n reason ref l).1
unfolding post_grant
post_grant-Inv org n reason ref l v = elim (Bool-cases (has_external_ref ref l.entries)) [
  | inl old ↦ rw old v
  | inr new ↦
      unfold post_grant in
      rw new (record {
        audited = λ j. ground (
          arith,
          read-add org j (pos n) l.balances,
          v.audited j,
          plus_comm (pos n) (entry_sum j l.entries),
        );
        solvent = λ j. ground (
          arith,
          read-add org j (pos n) l.balances,
          v.solvent j,
          plus_solvent (read_balance j l.balances) n,
        );
        once = λ r. count-grant r org (pos n) reason ref l.entries new (v.once r);
      })
]

post_debit-Inv :
    (org n : ℕ) (reason : Text) (l : Ledger) → 0 < n → Inv l → Inv (post_debit org n reason l).1
unfolding post_debit same_ref
post_debit-Inv org n reason l p v =
    elim (Bool-cases (leb_ℤ (pos n) (read_balance org l.balances))) [
      | inr short ↦ rw (spend_short org n l.balances short, post_debit) v
      | inl covers ↦
          let (rows, done, reads) = spend_covered org n l.balances p covers in
          rw (done, post_debit)
            (record {
              audited =
                  λ j. ground (arith, reads j, v.audited j, minus_plus (entry_sum j l.entries) n);
              solvent = λ j.
                  ground (arith, reads j, v.solvent j, minus_solvent (read_balance j l.balances) n);
              once = v.once;
            })
    ]

-- A call that throws changes nothing, so only a positive amount has to be looked at.
step-Inv : (l : Ledger) (c : Call) → Inv l → Inv (step l c)
unfolding step grant debit refund
step-Inv l (grants org (integer (pos (suc m))) reason ref) v =
    post_grant-Inv org (suc m) reason ref l v
step-Inv l (debits org (integer (pos (suc m))) reason) v =
    post_debit-Inv org (suc m) reason l (omega arith) v
step-Inv l (refunds org (integer (pos (suc m))) reason) v =
    post_grant-Inv org (suc m) reason none l v
step-Inv l _ v = v

run-Inv : (l : Ledger) (cs : List Call) → Inv l → Inv (run l cs)
unfolding run
run-Inv l [] v = v
run-Inv l (c ∷ cs) v = run-Inv (step l c) cs (step-Inv l c v)

empty-Inv : Inv empty_ledger
unfolding read_balance
empty-Inv = record {
  audited = λ org. refl;
  solvent = λ org. omega arith;
  once = λ ref. omega arith;
}

-- After any history of calls from empty tables, failed calls included, the balance of every
-- organisation is what its ledger entries add up to, it is not below zero, and no external
-- reference stands on two entries.
pub run-empty-Inv : (cs : List Call) → Inv (run empty_ledger cs)
run-empty-Inv cs = run-Inv empty_ledger cs empty-Inv
