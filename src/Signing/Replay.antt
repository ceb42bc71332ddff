-- ===== src/Signing/Replay.antt =====
-- What a verifier takes was signed, and a captured request is of no use once its window is over.
use alchemist_template.Common.{
  ℕ, ◌+◌, ◌/◌, ◌≤◌, ◌≡◌, refl, sym, ap, ◌∙◌, subst, ◌≢◌, ◌⊎◌, inl, inr, true, [], ◌∷◌, ◌++◌, arith,
  Bool-cases, or_else, Text, eq_text, eq_text_self, eq_text_iff, decimal,
}
use alchemist_template.Import.Labels.{trim}
use alchemist_template.Import.Grid.{is_digit}
use alchemist_template.Signing.{
  every, distance, number_after, default_timestamp_tolerance_s, signed_text, sign_event_body,
  verify_event_signature, check_timestamp, check_signature, verified, VerifyInput,
}
use alchemist_template.Signing.Decimal.{number-decimal, every-decimal}

abbrev pub presented : VerifyInput → Text
presented i = trim (or_else i.signature_header [])

abbrev pub claimed_time : VerifyInput → ℕ
claimed_time i = number_after 0 (trim (or_else i.timestamp_header []))

abbrev pub tolerance : VerifyInput → ℕ
tolerance i = or_else i.tolerance_seconds default_timestamp_tolerance_s

accepted :
    (hmac : Text → Text → Text) (i : VerifyInput)
    → verify_event_signature hmac i ≡ verified
    → (distance (i.now_ms / 1000) (claimed_time i) ≤ tolerance i)
      × (presented i ≡ sign_event_body hmac i.secret (claimed_time i) i.raw_body)
unfolding verify_event_signature check_timestamp check_signature
accepted hmac i h = (
  ground arith,
  (eq_text_iff (presented i) (sign_event_body hmac i.secret (claimed_time i) i.raw_body)).0
      (ground arith),
)

-- The first dot ends the time.
split_dot :
    (u v b c : Text)
    → every is_digit u ≡ true
    → every is_digit v ≡ true
    → u ++ b'.' ∷ b ≡ v ++ b'.' ∷ c
    → (u ≡ v) × (b ≡ c)
unfolding every is_digit
split_dot [] [] b c hu hv e = (refl, cc)
split_dot [] (y ∷ v) b c hu hv e = absurd (ground arith)
split_dot (x ∷ u) [] b c hu hv e = absurd (ground arith)
split_dot (x ∷ u) (y ∷ v) b c hu hv e =
    let (same, rest) = split_dot u v b c (ground arith) (ground arith) (cc) in (cc, rest)

signed_text-eq : (s t : ℕ) (b c : Text) → signed_text s b ≡ signed_text t c → (s ≡ t) × (b ≡ c)
signed_text-eq s t b c e =
    let (same, rest) =
      split_dot (decimal s) (decimal t) b c (every-decimal s) (every-decimal t) e in
    (sym (number-decimal s) ∙ ap (number_after 0) same ∙ number-decimal t, rest)

sign-mac :
    (hmac : Text → Text → Text) (secret : Text) (s t : ℕ) (b c : Text)
    → sign_event_body hmac secret s b ≡ sign_event_body hmac secret t c
    → hmac secret (signed_text s b) ≡ hmac secret (signed_text t c)
unfolding sign_event_body
sign-mac hmac secret s t b c e = cc

-- Two requests with one secret and one signature that are both taken have the same body, and are
-- taken by clocks that are no further apart than the two tolerances together, in seconds: unless two
-- different texts have the same MAC, which the theorem then shows.
pub replay_window :
    (hmac : Text → Text → Text) (i j : VerifyInput)
    → i.secret ≡ j.secret
    → presented i ≡ presented j
    → verify_event_signature hmac i ≡ verified
    → verify_event_signature hmac j ≡ verified
    → ((i.raw_body ≡ j.raw_body)
        × (distance (i.now_ms / 1000) (j.now_ms / 1000) ≤ tolerance i + tolerance j))
      ⊎ ((m : Text) × (n : Text) × (m ≢ n) × (hmac i.secret m ≡ hmac i.secret n))
replay_window hmac i j secrets same hi hj =
    let (near_i, signed_i) = accepted hmac i hi in
    let (near_j, signed_j) = accepted hmac j hj in
    let m = signed_text (claimed_time i) i.raw_body in
    let n = signed_text (claimed_time j) j.raw_body in
    elim (Bool-cases (eq_text m n)) [
      | inl one ↦
          let (times, bodies) =
            signed_text-eq (claimed_time i) (claimed_time j) i.raw_body j.raw_body
              ((eq_text_iff m n).0 one) in
          inl (bodies, omega (arith, near_i, near_j, times))
      | inr two ↦ inr (
        m,
        n,
        λ e. cc (two, subst (λ x. eq_text m x ≡ true) e (eq_text_self m)),
        sign-mac hmac i.secret (claimed_time i) (claimed_time j) i.raw_body j.raw_body (
            sym signed_i
            ∙ same
            ∙ signed_j
            ∙ ap (λ s. sign_event_body hmac s (claimed_time j) j.raw_body) (sym secrets)),
      )
    ]
