-- ===== src/Signing/Examples.antt =====
-- Tests of the event signature.
use alchemist_template.Common.{
  ℕ, zero, suc, ◌+◌, ◌/◌, ◌%◌, ◌≤◌, ◌≡◌, refl, ◌≢◌, ◌⊎◌, none, some, [], ◌∷◌, arith, length, Text,
  codes, decimal,
}
use alchemist_template.Import.Labels.{trim, is_space}
use alchemist_template.Signing.{
  every, is_hex, distance, sign_event_body, verify_event_signature, verified, refused,
  stale_timestamp, VerifyInput,
}
use alchemist_template.Signing.Verified.{IsMac, sign-verify}
use alchemist_template.Signing.Replay.{tolerance, replay_window}

abbrev repeated : ℕ → ℕ → Text
repeated c zero = []
repeated c (suc n) = c ∷ repeated c n

-- A MAC that depends on the length of the text, so that it has collisions.
abbrev toy_mac : Text → Text → Text
toy_mac secret text = (b'0' + length text % 10) ∷ repeated b'a' 63

toy_mac-IsMac : (secret text : Text) → IsMac (toy_mac secret text)
unfolding every is_hex
toy_mac-IsMac secret text = (ground arith, refl)

abbrev sent_at : ℕ → VerifyInput
sent_at now_ms = record {
  secret = codes "s";
  raw_body = codes "hello";
  timestamp_header = some (decimal 1000);
  signature_header = some (sign_event_body toy_mac (codes "s") 1000 (codes "hello"));
  now_ms = now_ms;
  tolerance_seconds = none;
}

sign-verify_example : verify_event_signature toy_mac (sent_at 1_200_999) ≡ verified
sign-verify_example =
    sign-verify toy_mac toy_mac-IsMac (codes "s") (codes "hello") 1000 1_200_999 none (omega arith)
      (omega arith)

-- Five minutes and a second are too late.
too_late : verify_event_signature toy_mac (sent_at 1_301_000) ≡ refused stale_timestamp
unfolding verify_event_signature trim decimal is_space
too_late = refl

abbrev first : VerifyInput
first = sent_at 700_000

abbrev last : VerifyInput
last = sent_at 1_300_999

taken :
    (now_ms : ℕ)
    → distance (now_ms / 1000) 1000 ≤ 300
    → verify_event_signature toy_mac (sent_at now_ms) ≡ verified
taken now_ms near =
    sign-verify toy_mac toy_mac-IsMac (codes "s") (codes "hello") 1000 now_ms none (omega arith)
      near

replay_window_example :
    ((first.raw_body ≡ last.raw_body)
      × (distance (first.now_ms / 1000) (last.now_ms / 1000) ≤ tolerance first + tolerance last))
    ⊎ ((m : Text) × (n : Text) × (m ≢ n) × (toy_mac first.secret m ≡ toy_mac first.secret n))
replay_window_example =
    replay_window toy_mac first last refl refl (taken 700_000 (omega arith))
      (taken 1_300_999 (omega arith))
