-- ===== src/Outbox/Table.antt =====
-- The email_outbox table of src/services/email-outbox.service.ts, enqueueEmail and cancelEmail.
use alchemist_template.Common.{
  ℕ, Bool, true, false, not, ◌&&◌, ◌||◌, Option, none, some, List, [], ◌∷◌, ◌++◌, ltb, ◌==◌,
  if◌then◌else◌, or_else, length, find?, any, Text, eq_text, to_lower, Result, update_where,
  count_where, ok, err,
}
use alchemist_template.Import.Labels.{trim, is_nil}
use alchemist_template.Outbox.Address.{is_email}

pub data Status : Type 0 where
  pending sending sent failed cancelled : Status

pub record Email : Type 0 where
  pub id : ℕ
  pub organization_id : Option ℕ
  pub user_id : Option ℕ
  pub to_email : Text
  pub subject : Text
  pub text_body : Text
  pub html_body : Option Text
  pub reply_to : Option Text
  pub idempotency_key : Option Text
  pub send_at : ℕ
  pub status : Status
  pub attempts : ℕ
  pub max_attempts : ℕ
  pub last_error : Option Text
  pub locked_at : Option ℕ
  pub sent_at : Option ℕ
  pub source : Option Text
  pub created_at : ℕ

pub record EnqueueInput : Type 0 where
  pub to : Text
  pub subject : Text
  pub text : Text
  pub html : Option Text
  pub reply_to : Option Text
  pub send_at : Option ℕ
  pub idempotency_key : Option Text
  pub organization_id : Option ℕ
  pub user_id : Option ℕ
  pub source : Option Text
  pub max_attempts : Option ℕ

pub data EnqueueError : Type 0 where
  invalid_recipient subject_required text_required max_attempts_range key_too_long no_result :
      EnqueueError

abbrev pub is_pending : Status → Bool
is_pending pending = true
is_pending _ = false

abbrev pub is_sending : Status → Bool
is_sending sending = true
is_sending _ = false

abbrev pub has_key : Text → Email → Bool
has_key k r = elim r.idempotency_key [ none ↦ false | some j ↦ eq_text j k ]

-- `input.idempotencyKey?.trim() || null`
unfoldable pub key_of : Option Text → Option Text
key_of none = none
key_of (some k) = if is_nil (trim k) then none else some (trim k)

out_of_range : Option ℕ → Bool
out_of_range none = false
out_of_range (some n) = ltb n 1 || ltb 20 n

too_long : Option Text → Bool
too_long none = false
too_long (some k) = ltb 512 (length k)

-- The row, with the defaults of the table.
unfoldable pub new_email : ℕ → ℕ → EnqueueInput → Email
unfolding key_of
new_email id now i = record {
  id = id;
  organization_id = i.organization_id;
  user_id = i.user_id;
  to_email = to_lower (trim i.to);
  subject = trim i.subject;
  text_body = i.text;
  html_body = i.html;
  reply_to = i.reply_to;
  idempotency_key = key_of i.idempotency_key;
  send_at = or_else i.send_at now;
  status = pending;
  attempts = 0;
  max_attempts = or_else i.max_attempts 5;
  last_error = none;
  locked_at = none;
  sent_at = none;
  source = i.source;
  created_at = now;
}

pub record Enqueued : Type 0 where
  pub row : Email
  pub created : Bool
  pub rows : List Email

found : List Email → Option Email → Result EnqueueError Enqueued
found rows none = err no_result
found rows (some e) = ok (record { row = e; created = false; rows = rows })

unfoldable pub insert_email : Option Text → Email → List Email → Result EnqueueError Enqueued
unfolding found
insert_email none new rows = ok (record { row = new; created = true; rows = rows ++ new ∷ [] })
insert_email (some k) new rows =
    if any (has_key k) rows
    then found rows (find? (has_key k) rows)
    else ok (record { row = new; created = true; rows = rows ++ new ∷ [] })

-- `id` is the generated id of a row that is inserted; the table after a success is in the result.
unfoldable pub enqueue_email : ℕ → ℕ → EnqueueInput → List Email → Result EnqueueError Enqueued
unfolding new_email insert_email out_of_range too_long key_of
enqueue_email id now i rows =
    if not (is_email (to_lower (trim i.to)))
    then err invalid_recipient
    else if is_nil (trim i.subject)
    then err subject_required
    else if is_nil (trim i.text)
    then err text_required
    else if out_of_range i.max_attempts
    then err max_attempts_range
    else if too_long (key_of i.idempotency_key)
    then err key_too_long
    else insert_email (key_of i.idempotency_key) (new_email id now i) rows

abbrev pub cancellable : ℕ → Email → Bool
cancellable id r = r.id == id && is_pending r.status

-- Whether a row was cancelled, and the table.
unfoldable pub cancel_email : ℕ → List Email → Bool × List Email
cancel_email id rows = (
  ltb 0 (count_where (cancellable id) rows),
  update_where (cancellable id) (λ r. record r { status = cancelled }) rows,
)
