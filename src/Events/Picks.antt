-- ===== src/Events/Picks.antt =====
-- Which rows the claim transaction changes. `id` is the primary key of event_deliveries.
use alchemist_template.Common.{
  ℕ, suc, ◌≤◌, min, max, ◌≡◌, refl, sym, ap, ◌∙◌, ◌≢◌, ◌⊎◌, inl, inr, Bool, true, false, some, List,
  [], ◌∷◌, arith, ◌==◌, if◌then◌else◌, Bool-cases, length, get_elem?, length-take, filter, All,
  update_where, update-kept, update-hit,
}
use alchemist_template.Common.Members.{
  In, In-filter, In-take, any-In, In-any, All-In, get-In, filter-In, take_all,
}
use alchemist_template.Events.Store.{Delivery, Store}
use alchemist_template.Events.Claim.{
  ClaimOptions, is_due, sort_by_due, insert_by_due, claim_limit, picked, is_in, claimed,
  claim_transaction,
}
use alchemist_template.Events.Due.{Takeable, is_due-Takeable}

-- The primary key: no two rows have one id.
abbrev pub HasKey : List Delivery → Type 0
HasKey [] = Unit
HasKey (d ∷ ds) = All (λ e. d.id ≢ e.id) ds × HasKey ds

pub same-row :
    (p d : Delivery) (ds : List Delivery) → HasKey ds → In p ds → In d ds → d.id ≡ p.id → d ≡ p
same-row p d [] k mp md e = absurd mp
same-row p d (x ∷ xs) k (inl a) (inl b) e = b ∙ sym a
same-row p d (x ∷ xs) k (inl a) (inr m) e =
    absurd (All-In (λ y. x.id ≢ y.id) d xs k.0 m (ap (λ (y : Delivery). y.id) (sym a) ∙ sym e))
same-row p d (x ∷ xs) k (inr m) (inl b) e =
    absurd (All-In (λ y. x.id ≢ y.id) p xs k.0 m (ap (λ (y : Delivery). y.id) (sym b) ∙ e))
same-row p d (x ∷ xs) k (inr mp) (inr md) e = same-row p d xs k.1 mp md e

id-if :
    (b : Bool) (f : Delivery → Delivery) (d : Delivery)
    → ((x : Delivery) → (f x).id ≡ x.id)
    → (if b then f d else d).id ≡ d.id
id-if true f d h = h d
id-if false f d h = refl

fresh-update :
    (p : Delivery → Bool) (f : Delivery → Delivery) (i : ℕ) (ds : List Delivery)
    → ((x : Delivery) → (f x).id ≡ x.id)
    → All (λ e. i ≢ e.id) ds
    → All (λ e. i ≢ e.id) (update_where p f ds)
unfolding update_where
fresh-update p f i [] h k = tt
fresh-update p f i (d ∷ ds) h k = (λ e. k.0 (e ∙ id-if (p d) f d h), fresh-update p f i ds h k.1)

-- An update that leaves the ids keeps the key.
pub update-HasKey :
    (p : Delivery → Bool) (f : Delivery → Delivery) (ds : List Delivery)
    → ((x : Delivery) → (f x).id ≡ x.id)
    → HasKey ds
    → HasKey (update_where p f ds)
unfolding update_where
update-HasKey p f [] h k = tt
update-HasKey p f (d ∷ ds) h k =
    (rw (id-if (p d) f d h) (fresh-update p f d.id ds h k.0), update-HasKey p f ds h k.1)

In-if-swap :
    (b : Bool) (a d e : Delivery) (es rest : List Delivery)
    → (In a rest → (a ≡ d) ⊎ In a es)
    → In a (if b then d ∷ e ∷ es else e ∷ rest)
    → (a ≡ d) ⊎ In a (e ∷ es)
In-if-swap true a d e es rest h m = m
In-if-swap false a d e es rest h (inl q) = inr (inl q)
In-if-swap false a d e es rest h (inr m) = elim (h m) [ inl q ↦ inl q | inr q ↦ inr (inr q) ]

In-insert : (a d : Delivery) (es : List Delivery) → In a (insert_by_due d es) → (a ≡ d) ⊎ In a es
unfolding insert_by_due
In-insert a d [] m = m
In-insert a d (e ∷ es) m = In-if-swap _ a d e es (insert_by_due d es) (In-insert a d es) m

In-sort : (a : Delivery) (ds : List Delivery) → In a (sort_by_due ds) → In a ds
unfolding sort_by_due
In-sort a [] m = m
In-sort a (d ∷ ds) m = elim (In-insert a d (sort_by_due ds) m) [
  | inl e ↦ inl e
  | inr q ↦ inr (In-sort a ds q)
]

-- Sorting loses no row, and a take that is long enough takes all.
In-if-swap-back :
    (b : Bool) (a d e : Delivery) (es rest : List Delivery)
    → ((a ≡ d) ⊎ In a es → In a rest)
    → (a ≡ d) ⊎ In a (e ∷ es)
    → In a (if b then d ∷ e ∷ es else e ∷ rest)
In-if-swap-back true a d e es rest h m = m
In-if-swap-back false a d e es rest h (inl q) = inr (h (inl q))
In-if-swap-back false a d e es rest h (inr (inl q)) = inl q
In-if-swap-back false a d e es rest h (inr (inr m)) = inr (h (inr m))

insert-In : (a d : Delivery) (es : List Delivery) → (a ≡ d) ⊎ In a es → In a (insert_by_due d es)
unfolding insert_by_due
insert-In a d [] m = m
insert-In a d (e ∷ es) m = In-if-swap-back _ a d e es (insert_by_due d es) (insert-In a d es) m

sort-In : (a : Delivery) (ds : List Delivery) → In a ds → In a (sort_by_due ds)
unfolding sort_by_due
sort-In a [] m = m
sort-In a (d ∷ ds) (inl e) = insert-In a d (sort_by_due ds) (inl e)
sort-In a (d ∷ ds) (inr m) = insert-In a d (sort_by_due ds) (inr (sort-In a ds m))

length-insert : (d : Delivery) (es : List Delivery) → length (insert_by_due d es) ≡ suc (length es)
unfolding insert_by_due
length-insert d [] = refl
length-insert d (e ∷ es) = ground (arith, length-insert d es)

length-sort : (ds : List Delivery) → length (sort_by_due ds) ≡ length ds
unfolding sort_by_due
length-sort [] = refl
length-sort (d ∷ ds) = omega (arith, length-insert d (sort_by_due ds), length-sort ds)

module _ (batch : ℕ) (opts : ClaimOptions) (locked : ℕ → Bool) (s : Store) where
  -- The pick takes rows of the table that are due.
  pub picked-due :
      (p : Delivery)
      → In p (picked batch opts locked s)
      → In p s.deliveries × (is_due opts locked s p ≡ true)
  unfolding picked
  picked-due p m =
      In-filter (is_due opts locked s) p s.deliveries
        (In-sort p _ (In-take (claim_limit batch) p _ m))

  pub is_in-due :
      (d : Delivery)
      → HasKey s.deliveries
      → In d s.deliveries
      → is_in (picked batch opts locked s) d ≡ true
      → is_due opts locked s d ≡ true
  is_in-due d k m h =
      let (p, mp, e) = any-In (λ p. d.id == p.id) (picked batch opts locked s) h in
      let (at, due) = picked-due p mp in rw (same-row p d s.deliveries k at m (ground arith)) due

  pub length-picked : length (picked batch opts locked s) ≤ 500
  unfolding picked claim_limit
  length-picked = omega (
    arith,
    length-take (max 1 (min 500 batch)) (sort_by_due (filter (is_due opts locked s) s.deliveries)),
  )

  -- Given that ids are unique, at most 500 rows are picked, and each row of the table either stays
  -- as it is, or was due (it was pending or failed, its time had come, its subscription is active,
  -- and no other transaction held it) and is now running for the claimer with one more attempt.
  pub claim_takes_due :
      (i : ℕ) (d : Delivery)
      → HasKey s.deliveries
      → get_elem? s.deliveries i ≡ some d
      → (length (picked batch opts locked s) ≤ 500)
        × ((get_elem? (claim_transaction batch opts locked s).1.deliveries i ≡ some d)
            ⊎ (Takeable locked s d
                × (get_elem? (claim_transaction batch opts locked s).1.deliveries i
                    ≡ some (claimed opts.claimed_by s.now d))))
  unfolding claim_transaction
  claim_takes_due i d k at = (
    length-picked,
    elim (Bool-cases (is_in (picked batch opts locked s) d)) [
      | inr out ↦ inl (update-kept _ _ s.deliveries i at out)
      | inl hit ↦ inr (
        is_due-Takeable opts locked s d (is_in-due d k (get-In s.deliveries i at) hit),
        update-hit _ _ s.deliveries i at hit,
      )
    ],
  )

  picks_all :
      (d : Delivery)
      → In d s.deliveries
      → is_due opts locked s d ≡ true
      → length (filter (is_due opts locked s) s.deliveries) ≤ claim_limit batch
      → is_in (picked batch opts locked s) d ≡ true
  unfolding picked
  picks_all d m due fits =
      let rows = filter (is_due opts locked s) s.deliveries in
      In-any (λ p. d.id == p.id) d _
        (take_all (claim_limit batch) d (sort_by_due rows) (omega (arith, length-sort rows))
          (sort-In d rows (filter-In (is_due opts locked s) d s.deliveries m due)))
        (ground arith)

  -- Where the due rows fit into the batch, every one of them is claimed: it is running for the
  -- claimer, with one more attempt.
  pub claim_takes_all :
      (i : ℕ) (d : Delivery)
      → get_elem? s.deliveries i ≡ some d
      → is_due opts locked s d ≡ true
      → length (filter (is_due opts locked s) s.deliveries) ≤ claim_limit batch
      → get_elem? (claim_transaction batch opts locked s).1.deliveries i
        ≡ some (claimed opts.claimed_by s.now d)
  unfolding claim_transaction
  claim_takes_all i d at due fits =
      update-hit _ _ s.deliveries i at (picks_all d (get-In s.deliveries i at) due fits)
