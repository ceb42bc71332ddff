-- ===== src/Events/Topic.antt =====
-- TOPIC_PATTERN and the handler registry of src/lib/events.ts.
use alchemist_template.Common.{
  ℕ, ◌+◌, Bool, true, false, not, ◌&&◌, ◌||◌, Option, none, some, List, [], ◌∷◌, ◌++◌, leb, ◌==◌,
  if◌then◌else◌, or_else, find?, Text, eq_text, Result, ◌>>=◌, ok, err,
}
use alchemist_template.Common.Int.{Number, pos, negsuc, integer, not_integer}
use alchemist_template.Events.Store.{Event}
use alchemist_template.Events.Finish.{Thrown}

-- `[a-z0-9_]`
unfoldable pub is_topic_char : ℕ → Bool
is_topic_char c = (leb b'a' c && leb c b'z') || ((leb b'0' c && leb c b'9') || c == b'_')

-- The pattern `[a-z0-9_]+(\.[a-z0-9_]+)+`, run over a text: `dotted` says whether a dot was read,
-- `filled` whether the current segment has a character.
unfoldable pub topic_from : Bool → Bool → Text → Bool
topic_from dotted filled [] = dotted && filled
topic_from dotted filled (c ∷ cs) =
    (if c == b'.' then filled else is_topic_char c)
    && topic_from (c == b'.' || dotted) (not (c == b'.')) cs

unfoldable pub is_topic : Text → Bool
unfolding topic_from is_topic_char
is_topic t = topic_from false false t

-- DEFAULT_RETRIES
abbrev pub default_retries : ℕ
default_retries = 7

pub record RegisteredHandler : Type 0 where
  pub topic : Text
  pub name : Text
  pub max_attempts : ℕ
  pub idempotency_key : Option (Event → Result Thrown Text)

pub record RegisterOptions : Type 0 where
  pub retries : Option Number
  pub idempotency_key : Option (Event → Result Thrown Text)
  pub name : Option Text

pub data RegisterError : Type 0 where
  malformed_topic anonymous_handler already_registered bad_retries : RegisterError

-- `${topic}\n${name}`, the key of the registry's map.
unfoldable pub registry_key : Text → Text → Text
registry_key topic name = topic ++ b'\n' ∷ name

unfoldable pub find_handler : Text → Text → List RegisteredHandler → Option RegisteredHandler
unfolding registry_key
find_handler topic name registry =
    find? (λ h. eq_text (registry_key h.topic h.name) (registry_key topic name)) registry

-- `options.retries ?? DEFAULT_RETRIES`, if it is an integer that is not negative.
unfoldable pub retries_of : Option Number → Result RegisterError ℕ
retries_of none = ok default_retries
retries_of (some (integer (pos n))) = ok n
retries_of (some (integer (negsuc n))) = err bad_retries
retries_of (some not_integer) = err bad_retries

unfoldable pub is_empty_text : Text → Bool
is_empty_text [] = true
is_empty_text (c ∷ cs) = false

unfoldable pub is_registered : Option RegisteredHandler → Bool
is_registered none = false
is_registered (some h) = true

-- The registry after the call, in insertion order; `fn_name` is the function's own name.
unfoldable pub register_event_handler :
    Text
    → Text
    → RegisterOptions
    → List RegisteredHandler
    → Result RegisterError (List RegisteredHandler)
unfolding retries_of is_empty_text is_registered
register_event_handler topic fn_name options registry =
    let name = or_else options.name fn_name in
    if not (is_topic topic)
    then err malformed_topic
    else if is_empty_text name
    then err anonymous_handler
    else if is_registered (find_handler topic name registry)
    then err already_registered
    else retries_of options.retries >>= λ retries. ok (
        registry
        ++ record {
          topic = topic;
          name = name;
          max_attempts = retries + 1;
          idempotency_key = options.idempotency_key;
        }
          ∷ [])
