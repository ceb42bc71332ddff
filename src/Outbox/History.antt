-- ===== src/Outbox/History.antt =====
-- Histories of the outbox: what any number of callers and job runners do to the table, one
-- transaction after the other.
use alchemist_template.Common.{
  ℕ, suc, ◌+◌, ◌≤◌, ◌≢◌, Bool, true, false, Option, none, some, List, [], ◌∷◌, ◌++◌, map,
  if◌then◌else◌, get_elem?, Text, Result, ok, err,
}
use alchemist_template.Common.Members.{In}
use alchemist_template.Common.Removal.{remove_at}
use alchemist_template.Outbox.Table.{
  Email, EnqueueInput, EnqueueError, Enqueued, enqueue_email, cancel_email,
}
use alchemist_template.Outbox.Deliver.{
  SendOutcome, delivered, unrecorded, rejected, threw, claim_due, settle, stale_lock_ms,
}

-- An email that a runner has claimed and not yet settled, and the clock of its pass.
pub record Held : Type 0 where
  pub email : Email
  pub at : ℕ

abbrev pub hold : ℕ → Email → Held
hold now c = record { email = c; at = now }

abbrev pub held_id : Held → ℕ
held_id h = h.email.id

pub record State : Type 0 where
  pub rows : List Email
  pub held : List Held
  -- the ids of the emails that the transport took, the newest first
  pub taken : List ℕ
  -- the next generated id
  pub next : ℕ

pub data Action : Type 0 where
  enqueues : ℕ → EnqueueInput → Action
  cancels : ℕ → Action
  claims : Option ℕ → (ℕ → Bool) → ℕ → Action
  settles : ℕ → SendOutcome → Action
  crashes : ℕ → Action

unfoldable pub enqueued_state : State → Result EnqueueError Enqueued → State
enqueued_state s (ok e) = record s { rows = e.rows; next = suc s.next }
enqueued_state s (err e) = s

-- Whether the transport took the email.
unfoldable pub is_taken : SendOutcome → Bool
is_taken delivered = true
is_taken (unrecorded m) = true
is_taken (rejected m) = false
is_taken (threw m) = false

unfoldable pub settled_state : ℕ → SendOutcome → Option Held → State → State
unfolding settle is_taken
settled_state i outcome none s = s
settled_state i outcome (some h) s = record s {
  rows = settle h.at h.email outcome s.rows;
  held = remove_at i s.held;
  taken = if is_taken outcome then h.email.id ∷ s.taken else s.taken;
}

unfoldable pub act : Action → State → State
unfolding enqueued_state settled_state enqueue_email cancel_email claim_due
act (enqueues now i) s = enqueued_state s (enqueue_email s.next now i s.rows)
act (cancels id) s = record s { rows = (cancel_email id s.rows).1 }
act (claims limit locked now) s =
    let (took, after) = claim_due limit locked now s.rows in
    record s { rows = after; held = s.held ++ map (hold now) took }
act (settles i outcome) s = settled_state i outcome (get_elem? s.held i) s
act (crashes i) s = record s { held = remove_at i s.held }

unfoldable pub history : List Action → State → State
unfolding act
history [] s = s
history (a ∷ more) s = history more (act a s)

abbrev pub no_mail : State
no_mail = record { rows = []; held = []; taken = []; next = 0 }

-- What keeps two runners off one email: a claim comes while no runner that is still at work has held
-- its emails for longer than the stale window, and no `sent` that the database fails to write.
unfoldable pub InOrder : Action → State → Type 0
InOrder (enqueues now i) s = Unit
InOrder (cancels id) s = Unit
InOrder (claims limit locked now) s = (h : Held) → In h s.held → now ≤ h.at + stale_lock_ms
InOrder (settles i outcome) s = (m : Text) → outcome ≢ unrecorded m
InOrder (crashes i) s = Unit

unfoldable pub AllInOrder : List Action → State → Type 0
unfolding InOrder act
AllInOrder [] s = Unit
AllInOrder (a ∷ more) s = InOrder a s × AllInOrder more (act a s)
