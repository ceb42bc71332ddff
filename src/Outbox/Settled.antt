-- ===== src/Outbox/Settled.antt =====
-- The status writes of the outbox's runners, and their crashes, keep the invariant.
use alchemist_template.Common.{
  ℕ, ◌≡◌, refl, sym, ap, ◌∙◌, ◌≢◌, ◌⊎◌, inl, inr, Bool, Option, none, some, ◌∷◌, arith, ◌==◌,
  get_elem?, Text, update_where, update-Keyed, In-update-cases,
}
use alchemist_template.Common.Members.{In, get-In, All-of-In}
use alchemist_template.Common.Removal.{remove_at, remove_at-In, remove_at-Keyed, remove_at-apart}
use alchemist_template.Outbox.Table.{Email}
use alchemist_template.Outbox.Deliver.{SendOutcome, delivered, unrecorded, rejected, threw, settled}
use alchemist_template.Outbox.History.{Held, held_id, State, settled_state}
use alchemist_template.Outbox.Kept.{Inv}

pub crash-Inv : (i : ℕ) (s : State) → Inv s → Inv (record s { held = remove_at i s.held })
crash-Inv i s v = record {
  keyed = v.keyed;
  fresh = v.fresh;
  owned = λ h m. v.owned h (remove_at-In i h s.held m);
  known = λ h m. v.known h (remove_at-In i h s.held m);
  logged = λ j mj.
      let (lt, done, apart) = v.logged j mj in
      (lt, done, λ h m. apart h (remove_at-In i h s.held m));
  holders = remove_at-Keyed held_id i s.held v.holders;
  once = v.once;
}

pub settled-id : (now : ℕ) (c : Email) (o : SendOutcome) (r : Email) → (settled now c o r).id ≡ r.id
unfolding settled
settled-id now c delivered r = refl
settled-id now c (unrecorded m) r = ground arith
settled-id now c (rejected m) r = refl
settled-id now c (threw m) r = ground arith

-- The write of an outcome on a held email, and the removal of its holder.
module _ (i : ℕ) (h : Held) (s : State) (v : Inv s) (at : get_elem? s.held i ≡ some h) where
  abbrev hit : Email → Bool
  hit r = r.id == h.email.id

  abbrev written : SendOutcome → State
  written o = record s {
    rows = update_where hit (settled h.at h.email o) s.rows;
    held = remove_at i s.held;
  }

  cases :
      (o : SendOutcome) (r : Email)
      → In r (written o).rows
      → ((x : Email) × In x s.rows × (x.id ≡ held_id h) × (r ≡ settled h.at h.email o x))
        ⊎ (In r s.rows × (r.id ≢ held_id h))
  cases o r m = elim (In-update-cases hit (settled h.at h.email o) r s.rows m) [
    | inl (x, mx, p, e) ↦ inl (x, mx, ground arith, e)
    | inr (m', p) ↦ inr (m', ground arith)
  ]

  written-Inv : (o : SendOutcome) → Inv (written o)
  written-Inv o = record {
    keyed = update-Keyed _ hit _ s.rows (settled-id h.at h.email o) v.keyed;
    fresh = λ r m. elim (cases o r m) [
      | inl (x, mx, p, e) ↦ rw (e, settled-id h.at h.email o x) (v.fresh x mx)
      | inr (m', p) ↦ v.fresh r m'
    ];
    owned = λ g mg r m e. elim (cases o r m) [
      | inl (x, mx, p, q) ↦ absurd (
          remove_at-apart held_id i h g s.held v.holders at mg
            (sym p ∙ sym (settled-id h.at h.email o x) ∙ ap (λ (y : Email). y.id) (sym q) ∙ e))
      | inr (m', p) ↦ v.owned g (remove_at-In i g s.held mg) r m' e
    ];
    known = λ g mg. v.known g (remove_at-In i g s.held mg);
    logged = λ j mj.
        let (lt, done, apart) = v.logged j mj in
        (
          lt,
          λ r m e. elim (cases o r m) [
            | inl (x, mx, p, q) ↦ absurd (
                apart h (get-In s.held i at) (
                  sym p ∙ sym (settled-id h.at h.email o x) ∙ ap (λ (y : Email). y.id) (sym q) ∙ e))
            | inr (m', p) ↦ done r m' e
          ],
          λ g mg. apart g (remove_at-In i g s.held mg),
        );
    holders = remove_at-Keyed held_id i s.held v.holders;
    once = v.once;
  }

  taken-Inv : Inv (record (written delivered) { taken = held_id h ∷ s.taken })
  unfolding settled
  taken-Inv =
      let w = written-Inv delivered in
      record {
        keyed = w.keyed;
        fresh = w.fresh;
        owned = w.owned;
        known = w.known;
        logged = λ j mj. elim mj [
          | inr old ↦ w.logged j old
          | inl e ↦ (
            rw e (v.known h (get-In s.held i at)),
            λ r m q. elim (cases delivered r m) [
              | inl (x, mx, p, y) ↦ rw y refl
              | inr (m', p) ↦ absurd (p (q ∙ e))
            ],
            λ g mg q. remove_at-apart held_id i h g s.held v.holders at mg (sym e ∙ sym q),
          )
        ];
        holders = w.holders;
        once = (All-of-In _ s.taken (λ j mj e. (v.logged j mj).2 h (get-In s.held i at) e), v.once);
      }

pub settle-Inv :
    (i : ℕ) (o : SendOutcome) (s : State)
    → Inv s
    → ((m : Text) → o ≢ unrecorded m)
    → (g : Option Held) → get_elem? s.held i ≡ g
    → Inv (settled_state i o g s)
unfolding settled_state
settle-Inv i o s v fine none e = v
settle-Inv i delivered s v fine (some h) e = taken-Inv i h s v e
settle-Inv i (unrecorded m) s v fine (some h) e = absurd (fine m refl)
settle-Inv i (rejected m) s v fine (some h) e = written-Inv i h s v e (rejected m)
settle-Inv i (threw m) s v fine (some h) e = written-Inv i h s v e (threw m)
