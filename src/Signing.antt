-- ===== src/Signing.antt =====
-- src/lib/event-signing.ts: the signature of events that cross an HTTP boundary. The hex HMAC-SHA256
-- is a parameter, of the secret and the signed text.
mod Decimal
mod Verified
mod Replay
mod Examples
use alchemist_template.Common.{
  ℕ, ◌+◌, ◌-◌, ◌*◌, ◌/◌, Bool, true, false, not, ◌&&◌, ◌||◌, Option, [], ◌∷◌, ◌++◌, ltb, leb, ◌==◌,
  if◌then◌else◌, or_else, length, Text, eq_text, decimal,
}
use alchemist_template.Import.Labels.{trim, is_nil}
use alchemist_template.Import.Grid.{is_digit}

abbrev pub default_timestamp_tolerance_s : ℕ
default_timestamp_tolerance_s = 5 * 60

-- The text that is signed.
abbrev pub signed_text : ℕ → Text → Text
signed_text timestamp_seconds raw_body = decimal timestamp_seconds ++ b'.' ∷ raw_body

unfoldable pub sign_event_body : (Text → Text → Text) → Text → ℕ → Text → Text
sign_event_body hmac secret timestamp_seconds raw_body =
    b'v' ∷ b'1' ∷ b'=' ∷ hmac secret (signed_text timestamp_seconds raw_body)

pub data VerifyFailure : Type 0 where
  missing_timestamp malformed_timestamp stale_timestamp missing_signature malformed_signature
        signature_mismatch :
      VerifyFailure

pub data VerifyResult : Type 0 where
  verified : VerifyResult
  refused : VerifyFailure → VerifyResult

pub record VerifyInput : Type 0 where
  pub secret : Text
  pub raw_body : Text
  pub timestamp_header : Option Text
  pub signature_header : Option Text
  pub now_ms : ℕ
  pub tolerance_seconds : Option ℕ

unfoldable pub every : (ℕ → Bool) → Text → Bool
every p [] = true
every p (c ∷ cs) = p c && every p cs

-- `/^\d{1,12}$/`, of a text that is not empty.
unfoldable pub is_timestamp : Text → Bool
unfolding every
is_timestamp t = every is_digit t && leb (length t) 12

-- `Number(t)` of decimal digits, after those of `acc`.
abbrev pub number_after : ℕ → Text → ℕ
number_after acc [] = acc
number_after acc (c ∷ cs) = number_after (acc * 10 + (c - b'0')) cs

unfoldable pub is_hex : ℕ → Bool
unfolding is_digit
is_hex c = is_digit c || (leb b'a' c && leb c b'f')

-- `/^v1=[0-9a-f]{64}$/`
unfoldable pub is_signature : Text → Bool
unfolding every is_hex
is_signature (v ∷ one ∷ equals ∷ mac) =
    v == b'v' && (one == b'1' && (equals == b'=' && (every is_hex mac && length mac == 64)))
is_signature _ = false

-- `Math.abs(a - b)`
abbrev pub distance : ℕ → ℕ → ℕ
distance a b = (a - b) + (b - a)

unfoldable pub check_signature : (Text → Text → Text) → VerifyInput → ℕ → Text → VerifyResult
unfolding is_signature sign_event_body
check_signature hmac i timestamp presented =
    if is_nil presented
    then refused missing_signature
    else if not (is_signature presented)
    then refused malformed_signature
    else if eq_text presented (sign_event_body hmac i.secret timestamp i.raw_body)
    then verified
    else refused signature_mismatch

unfoldable pub check_timestamp : (Text → Text → Text) → VerifyInput → Text → Text → VerifyResult
unfolding is_timestamp check_signature
check_timestamp hmac i timestamp_raw presented =
    if is_nil timestamp_raw
    then refused missing_timestamp
    else if not (is_timestamp timestamp_raw)
    then refused malformed_timestamp
    else if ltb (or_else i.tolerance_seconds default_timestamp_tolerance_s)
        (distance (i.now_ms / 1000) (number_after 0 timestamp_raw))
    then refused stale_timestamp
    else check_signature hmac i (number_after 0 timestamp_raw) presented

unfoldable pub verify_event_signature : (Text → Text → Text) → VerifyInput → VerifyResult
unfolding check_timestamp
verify_event_signature hmac i =
    check_timestamp hmac i (trim (or_else i.timestamp_header []))
      (trim (or_else i.signature_header []))
