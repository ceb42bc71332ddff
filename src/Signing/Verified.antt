-- ===== src/Signing/Verified.antt =====
-- What a signer sends, a verifier takes.
use alchemist_template.Common.{
  ℕ, ◌/◌, ◌≤◌, ◌<◌, ◌≡◌, refl, inl, inr, Bool, true, false, not, Option, some, [], ◌∷◌, arith, ltb,
  Bool-cases, or_else, length, Text, eq_text_self, decimal,
}
use alchemist_template.Import.Labels.{trim, trim_start, trim_end, is_space, is_nil}
use alchemist_template.Import.Grid.{is_digit}
use alchemist_template.Signing.{
  every, is_hex, is_timestamp, is_signature, distance, default_timestamp_tolerance_s, signed_text,
  sign_event_body, verify_event_signature, check_timestamp, check_signature, verified,
}
use alchemist_template.Signing.Decimal.{
  number-decimal, every-decimal, decimal-not_nil, length-decimal, ten_to,
}

abbrev solid : ℕ → Bool
solid c = not (is_space c)

trim_end-solid : (t : Text) → every solid t ≡ true → trim_end t ≡ t
unfolding trim_end every
trim_end-solid [] h = refl
trim_end-solid (c ∷ cs) h =
    let rest : trim_end cs ≡ cs = trim_end-solid cs (ground arith) in
    let here : is_space c ≡ false = ground arith in
    rw (rest, here) (elim (Bool-cases (is_nil cs)) [ inl e ↦ rw e refl | inr e ↦ rw e refl ])

trim-solid : (t : Text) → every solid t ≡ true → trim t ≡ t
unfolding trim trim_start every
trim-solid [] h = unfold trim_end in refl
trim-solid (c ∷ cs) h =
    let here : is_space c ≡ false = ground arith in
    rw here (trim_end-solid (c ∷ cs) (unfold every in h))

every-map :
    (p q : ℕ → Bool) (t : Text)
    → ((c : ℕ) → p c ≡ true → q c ≡ true)
    → every p t ≡ true
    → every q t ≡ true
unfolding every
every-map p q [] imp h = refl
every-map p q (c ∷ cs) imp h =
    let here : q c ≡ true = imp c (ground arith) in
    let rest : every q cs ≡ true = every-map p q cs imp (ground arith) in ground arith

hex-solid : (c : ℕ) → is_hex c ≡ true → solid c ≡ true
unfolding is_hex is_digit is_space
hex-solid c h = ground arith

digit-solid : (c : ℕ) → is_digit c ≡ true → solid c ≡ true
unfolding is_digit is_space
digit-solid c h = ground arith

-- A MAC is 64 lowercase hex digits.
abbrev pub IsMac : Text → Type 0
IsMac mac = (every is_hex mac ≡ true) × (length mac ≡ 64)

trim-decimal : (n : ℕ) → trim (decimal n) ≡ decimal n
trim-decimal n =
    trim-solid (decimal n) (every-map is_digit solid (decimal n) digit-solid (every-decimal n))

module _ (hmac : Text → Text → Text) (macs : (secret text : Text) → IsMac (hmac secret text)) where
  trim-sign :
      (secret : Text) (t : ℕ) (body : Text)
      → trim (sign_event_body hmac secret t body) ≡ sign_event_body hmac secret t body
  unfolding sign_event_body every is_space
  trim-sign secret t body = trim-solid _ (
      every-map is_hex solid (hmac secret (signed_text t body)) hex-solid
        (macs secret (signed_text t body)).0)

  sign-is_signature :
      (secret : Text) (t : ℕ) (body : Text)
      → is_signature (sign_event_body hmac secret t body) ≡ true
  unfolding sign_event_body is_signature
  sign-is_signature secret t body =
      let (hex, long) = macs secret (signed_text t body) in rw (hex, long) refl

  decimal-is_timestamp : (t : ℕ) → t < ten_to 12 → is_timestamp (decimal t) ≡ true
  unfolding is_timestamp
  decimal-is_timestamp t h = rw (every-decimal t) (ground (arith, length-decimal t h))

  -- Given that MACs are 64 hex digits: an event that is signed at a time of at most twelve digits, and
  -- verified with the same secret by a clock within the tolerance of that time, in seconds, is taken.
  pub sign-verify :
      (secret body : Text) (t now_ms : ℕ) (tolerance : Option ℕ)
      → t < ten_to 12
      → distance (now_ms / 1000) t ≤ or_else tolerance default_timestamp_tolerance_s
      → verify_event_signature hmac (record {
        secret = secret;
        raw_body = body;
        timestamp_header = some (decimal t);
        signature_header = some (sign_event_body hmac secret t body);
        now_ms = now_ms;
        tolerance_seconds = tolerance;
      })
        ≡ verified
  unfolding verify_event_signature check_timestamp check_signature
  sign-verify secret body t now_ms tolerance short near =
      rw
        (
          trim-decimal t,
          trim-sign secret t body,
          decimal-not_nil t,
          decimal-is_timestamp t short,
          number-decimal t,
          far,
          sign-is_signature secret t body,
          eq_text_self (sign_event_body hmac secret t body),
        )
        (unfold sign_event_body in refl)
    where
      far :
          ltb (or_else tolerance default_timestamp_tolerance_s) (distance (now_ms / 1000) t) ≡ false
      far = ground arith
