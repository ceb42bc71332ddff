-- ===== src/Events/Keys.antt =====
-- The compound keys of src/lib/events.ts name what they are made of: `${topic}\n${name}` of the
-- registry, and `${organizationId ?? "global"}:${key}` of the receipts.
use alchemist_template.Common.{
  ℕ, ◌≡◌, refl, sym, ap, ◌≢◌, Bool, true, false, not, ◌||◌, Option, none, some, [], ◌∷◌, ◌++◌,
  arith, ◌==◌, All, Text, codes,
}
use alchemist_template.Events.Reserve.{scoped_idempotency_key}
use alchemist_template.Events.Topic.{registry_key, is_topic, topic_from, is_topic_char}

abbrev Lacks : ℕ → Text → Type 0
Lacks sep = All (λ c. c ≢ sep)

-- A text cut at its first separator.
split_unique :
    (sep : ℕ) (s t u v : Text)
    → Lacks sep s
    → Lacks sep t
    → s ++ sep ∷ u ≡ t ++ sep ∷ v
    → (s ≡ t) × (u ≡ v)
split_unique sep [] [] u v h k e = (refl, cc)
split_unique sep [] (b ∷ t) u v h k e = absurd (k.0 (cc))
split_unique sep (a ∷ s) [] u v h k e = absurd (h.0 (cc))
split_unique sep (a ∷ s) (b ∷ t) u v h k e =
    let (p, q) = split_unique sep s t u v h.1 k.1 (cc) in (cc, q)

topic_from-Lacks :
    (dotted filled : Bool) (t : Text) → topic_from dotted filled t ≡ true → Lacks b'\n' t
unfolding topic_from is_topic_char
topic_from-Lacks dotted filled [] h = tt
topic_from-Lacks dotted filled (c ∷ cs) h =
    (λ e. ground arith, topic_from-Lacks (c == b'.' || dotted) (not (c == b'.')) cs (ground arith))

pub topic-Lacks : (t : Text) → is_topic t ≡ true → Lacks b'\n' t
unfolding is_topic
topic-Lacks t h = topic_from-Lacks false false t h

-- Two handlers share a place in the registry only if their topics and their names are the same.
pub registry_key_injective :
    (t u m n : Text)
    → is_topic t ≡ true
    → is_topic u ≡ true
    → registry_key t m ≡ registry_key u n
    → (t ≡ u) × (m ≡ n)
unfolding registry_key
registry_key_injective t u m n h k e =
    split_unique b'\n' t u m n (topic-Lacks t h) (topic-Lacks u k) e

global_plain : Lacks b':' (codes "global")
global_plain = omega arith

module _ (print : ℕ → Text) where
  -- Given that organisations print apart, with no colon and never as `global` (as UUIDs do), a stored
  -- key tells the organisation and the handler's own key apart: two organisations never share one.
  pub scoped_key_injective :
      ((i j : ℕ) → print i ≡ print j → i ≡ j)
      → ((i : ℕ) → All (λ c. c ≢ b':') (print i))
      → ((i : ℕ) → print i ≢ codes "global")
      → (a b : Option ℕ) (k l : Text)
      → scoped_idempotency_key print a k ≡ scoped_idempotency_key print b l
      → (a ≡ b) × (k ≡ l)
  unfolding scoped_idempotency_key
  scoped_key_injective inj plain apart none none k l e = (
    refl,
    (split_unique b':' (codes "global") (codes "global") k l global_plain global_plain e).1,
  )
  scoped_key_injective inj plain apart none (some j) k l e =
      absurd (
        apart j (sym (split_unique b':' (codes "global") (print j) k l global_plain (plain j) e).0))
  scoped_key_injective inj plain apart (some i) none k l e =
      absurd (apart i (split_unique b':' (print i) (codes "global") k l (plain i) global_plain e).0)
  scoped_key_injective inj plain apart (some i) (some j) k l e =
      let (p, q) = split_unique b':' (print i) (print j) k l (plain i) (plain j) e in
      (ap some (inj i j p), q)
