-- ===== src/Outbox/Pass.antt =====
-- What a pass of deliverDueEmails that is not interrupted does to each row.
use alchemist_template.Common.{
  ℕ, ◌+◌, ◌≤◌, ◌≡◌, refl, sym, ap, ◌∙◌, ◌≢◌, inl, inr, Bool, false, Option, some, List, [], ◌∷◌,
  map, arith, ◌==◌, if◌then◌else◌, Bool-cases, length, get_elem?, filter, any, All, count_where,
  update-kept, update-hit, Keyed, Keyed-same,
}
use alchemist_template.Common.Members.{In, get-In, In-map}
use alchemist_template.Common.Pick.{pick-Keyed, among-In, is_among, pick_all, In-among}
use alchemist_template.Outbox.Table.{Email}
use alchemist_template.Outbox.Deliver.{
  SendOutcome, delivered, unrecorded, rejected, threw, settled, settle, settle_each, DeliverResult,
  counted, claimed, picked, claim_due, deliver_due_emails, count_outcome, is_due, claim_limit,
  sends_before,
}
use alchemist_template.Outbox.Once.{picked-In}
use alchemist_template.Outbox.Settled.{settled-id}

settled_twice :
    (now : ℕ) (c : Email) (o : SendOutcome) (r : Email)
    → settled now c o (settled now c o r) ≡ settled now c o r
unfolding settled
settled_twice now c delivered r = refl
settled_twice now c (unrecorded m) r = ground arith
settled_twice now c (rejected m) r = refl
settled_twice now c (threw m) r = ground arith

-- The loop over the claimed emails, of which one at most stands for the row at `i`.
module _ (now : ℕ) (send : Email → SendOutcome) (i : ℕ) (c0 : Email) where
  abbrev Only : List Email → Type 0
  Only cs = (c : Email) → In c cs → c.id ≡ c0.id → c ≡ c0

  -- A row that is settled stays settled,
  each_done :
      (cs : List Email) (t : DeliverResult) (rows : List Email) (r : Email)
      → r.id ≡ c0.id
      → Only cs
      → get_elem? rows i ≡ some (settled now c0 (send c0) r)
      → get_elem? (settle_each now send cs t rows).1 i ≡ some (settled now c0 (send c0) r)
  unfolding settle_each settle
  each_done [] t rows r same only at = at
  each_done (c ∷ cs) t rows r same only at =
      let y : Email = settled now c0 (send c0) r in
      let id : y.id ≡ c0.id = settled-id now c0 (send c0) r ∙ same in
      each_done cs _ (settle now c (send c) rows) r same (λ d m. only d (inr m))
        (elim (Bool-cases (y.id == c.id)) [
          | inr out ↦ update-kept (λ x. x.id == c.id) _ rows i at out
          | inl hit ↦
              let e : c ≡ c0 = only c (inl refl) (ground arith) in
              update-hit (λ x. x.id == c.id) (settled now c (send c)) rows i at hit
              ∙ ap some (rw e (settled_twice now c0 (send c0) r))
        ])

  -- one that is claimed is settled,
  each_settled :
      (cs : List Email) (t : DeliverResult) (rows : List Email) (r : Email)
      → r.id ≡ c0.id
      → Only cs
      → In c0 cs
      → get_elem? rows i ≡ some r
      → get_elem? (settle_each now send cs t rows).1 i ≡ some (settled now c0 (send c0) r)
  unfolding settle_each settle
  each_settled [] t rows r same only m at = absurd m
  each_settled (c ∷ cs) t rows r same only m at = elim (Bool-cases (r.id == c.id)) [
    | inl hit ↦
        let e : c ≡ c0 = only c (inl refl) (ground arith) in
        each_done cs _ (settle now c (send c) rows) r same (λ d k. only d (inr k))
          (update-hit (λ x. x.id == c.id) (settled now c (send c)) rows i at hit
            ∙ ap some (rw e refl))
    | inr out ↦ elim m [
      | inl e ↦ absurd (ground arith)
      | inr m' ↦
          each_settled cs _ (settle now c (send c) rows) r same (λ d k. only d (inr k)) m'
            (update-kept (λ x. x.id == c.id) _ rows i at out)
    ]
  ]

-- and one that is not claimed stays.
each_kept :
    (now : ℕ) (send : Email → SendOutcome) (i : ℕ) (cs : List Email) (t : DeliverResult)
    (rows : List Email) (r : Email)
    → is_among (λ x. x.id) cs r ≡ false
    → get_elem? rows i ≡ some r
    → get_elem? (settle_each now send cs t rows).1 i ≡ some r
unfolding settle_each settle
each_kept now send i [] t rows r out at = at
each_kept now send i (c ∷ cs) t rows r out at =
    each_kept now send i cs _ (settle now c (send c) rows) r (ground arith)
      (update-kept (λ x. x.id == c.id) _ rows i at (ground arith))

outcome-calls :
    (c : Email) (o : SendOutcome) (t : DeliverResult) → (count_outcome c o t).calls ≡ t.calls
unfolding count_outcome
outcome-calls c delivered t = refl
outcome-calls c (unrecorded m) t = ground arith
outcome-calls c (rejected m) t = refl
outcome-calls c (threw m) t = ground arith

count-none :
    (id : ℕ) (c : Email) (cs : List Email)
    → All (λ (r : Email). c.id ≢ r.id) cs
    → c.id ≡ id
    → any (λ (r : Email). id == r.id) cs ≡ false
count-none id c [] h e = refl
count-none id c (d ∷ cs) h e = ground (arith, h.0, count-none id c cs h.1 e)

-- Each claimed email is one call of the transport.
calls-each :
    (now : ℕ) (send : Email → SendOutcome) (id : ℕ) (cs : List Email) (t : DeliverResult)
    (rows : List Email)
    → count_where (λ c. c.id == id) (settle_each now send cs t rows).0.calls
      ≡ count_where (λ (c : Email). c.id == id) cs + count_where (λ c. c.id == id) t.calls
unfolding settle_each
calls-each now send id [] t rows = omega arith
calls-each now send id (c ∷ cs) t rows =
    let rest =
      calls-each now send id cs (count_outcome c (send c) (record t { calls = c ∷ t.calls }))
        (settle now c (send c) rows) in
    let kept = outcome-calls c (send c) (record t { calls = c ∷ t.calls }) in
    ground (arith, rest, kept)

count-counted :
    (id : ℕ) (cs : List Email)
    → count_where (λ c. c.id == id) (map counted cs) + 0
      ≡ count_where (λ (c : Email). c.id == id) cs
count-counted id [] = refl
count-counted id (c ∷ cs) = ground (arith, count-counted id cs)

-- Of rows with different ids, one at most has an id.
count-Keyed :
    (id : ℕ) (cs : List Email)
    → Keyed (λ (r : Email). r.id) cs
    → count_where (λ (c : Email). c.id == id) cs
      ≡ (if any (λ (r : Email). id == r.id) cs then 1 else 0)
count-Keyed id [] k = refl
count-Keyed id (c ∷ cs) k = ground (arith, count-Keyed id cs k.1, count-none id c cs k.0)

among-counted :
    (cs : List Email) (r : Email)
    → is_among (λ x. x.id) (map counted cs) r ≡ is_among (λ x. x.id) cs r
among-counted [] r = refl
among-counted (c ∷ cs) r = ground (arith, among-counted cs r)

In-counted : (c : Email) (cs : List Email) → In c cs → In (counted c) (map counted cs)
In-counted c [] m = absurd m
In-counted c (x ∷ xs) (inl e) = inl (ap counted e)
In-counted c (x ∷ xs) (inr m) = inr (In-counted c xs m)

-- The row that a pass leaves for one that it picked.
abbrev pub tried : ℕ → (Email → SendOutcome) → Email → Email
tried now send d = settled now (counted d) (send (counted d)) (claimed now d)

module _ (limit : Option ℕ) (locked : ℕ → Bool) (now : ℕ) (send : Email → SendOutcome)
    (rows : List Email) (k : Keyed (λ (r : Email). r.id) rows) where
  abbrev took : List Email
  took = picked limit locked now rows

  pub pass-row :
      (i : ℕ) (d : Email)
      → get_elem? rows i ≡ some d
      → get_elem? (deliver_due_emails limit locked now send rows).1 i
        ≡ some (if is_among (λ r. r.id) took d then tried now send d else d)
  unfolding deliver_due_emails claim_due claimed
  pass-row i d at = elim (Bool-cases (is_among (λ r. r.id) took d)) [
    | inr out ↦ rw out (
        each_kept now send i (map counted took) _ _ d (among-counted took d ∙ out)
          (update-kept (is_among (λ r. r.id) took) (claimed now) rows i at out))
    | inl hit ↦
        let md =
          among-In (λ r. r.id) took rows d (λ x mx. (picked-In limit locked now rows x mx).0) k
            (get-In rows i at) hit in
        rw hit (
          each_settled now send i (counted d) (map counted took) _ _ (claimed now d) refl
            (λ c m e.
              let (x, mx, q) = In-map counted c took m in
              q
              ∙ ap counted (
                  Keyed-same (λ r. r.id) x d rows k (picked-In limit locked now rows x mx).0
                    (get-In rows i at) (ap (λ (y : Email). y.id) (sym q) ∙ e)))
            (In-counted d took md)
            (update-hit (is_among (λ r. r.id) took) (claimed now) rows i at hit))
  ]

  calls-once :
      (d : Email)
      → In d rows
      → count_where (λ c. c.id == d.id) (deliver_due_emails limit locked now send rows).0.calls
        ≡ (if is_among (λ r. r.id) took d then 1 else 0)
  unfolding deliver_due_emails claim_due picked
  calls-once d m =
      calls-each now send d.id (map counted took) _ _
      ∙ count-counted d.id took
      ∙ count-Keyed d.id took
          (pick-Keyed sends_before (λ r. r.id) (claim_limit limit) (is_due locked now) rows k)

  -- Given that ids are unique and that the limit leaves room for all that is due: a pass that is not
  -- interrupted calls the transport exactly once for each due email, and not for any other row of the
  -- table; it writes how that went (sent, failed for good, or due again after its backoff), and leaves
  -- every other row as it is.
  pub pass_tries_due :
      (i : ℕ) (d : Email)
      → length (filter (is_due locked now) rows) ≤ claim_limit limit
      → get_elem? rows i ≡ some d
      → let (n, after) = deliver_due_emails limit locked now send rows in
        (get_elem? after i ≡ some (if is_due locked now d then tried now send d else d))
        × (count_where (λ c. c.id == d.id) n.calls ≡ (if is_due locked now d then 1 else 0))
  unfolding picked
  pass_tries_due i d fits at = (
    pass-row i d at ∙ ap (λ b. some (if b then tried now send d else d)) same,
    calls-once d (get-In rows i at) ∙ ap (λ b. if b then 1 else 0) same,
  )
    where
      same : is_among (λ r. r.id) took d ≡ is_due locked now d
      same = elim (Bool-cases (is_due locked now d)) [
        | inl due ↦
            In-among (λ r. r.id) took d
              (pick_all sends_before (claim_limit limit) (is_due locked now) rows d fits
                (get-In rows i at) due)
            ∙ sym due
        | inr not_due ↦ elim (Bool-cases (is_among (λ r. r.id) took d)) [
          | inr out ↦ out ∙ sym not_due
          | inl hit ↦ absurd (
              cc (
                (picked-In limit locked now rows d (
                  among-In (λ r. r.id) took rows d
                    (λ x mx. (picked-In limit locked now rows x mx).0) k (get-In rows i at)
                    hit)).1))
        ]
      ]
