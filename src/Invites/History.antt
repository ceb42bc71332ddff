-- ===== src/Invites/History.antt =====
-- Histories of the invite service: any sequence of the statements of its calls by any number of
-- requests. No call is one transaction: a creation has looked for a member (`begun`), has looked for
-- an open invite (`looked`, with the id of one that expired), or has revoked that (`cleared`), and a
-- request that resolved an invite is to accept or claim it; each goes on at any later time. `winners`
-- are the ids of the invites that a request was told it used, the newest first.
use alchemist_template.Common.{
  ℕ, suc, ◌+◌, ◌≡◌, ◌≢◌, Option, none, some, List, [], ◌∷◌, ◌==◌, if◌then◌else◌, All, Text, Result,
  ok, err,
}
use alchemist_template.Common.Members.{In}
use alchemist_template.Invites.Accept.{
  ResolvedInvite, resolve_invite_by_token, accept_resolved, claim_resolved,
}
use alchemist_template.Invites.Service.{
  InviteError, CreateInviteInput, revoke_invite, refused_at_once, find_expired, revoke_expired,
  insert_invite, new_invite,
}
use alchemist_template.Invites.Tables.{Database}

pub record System : Type 0 where
  pub db : Database
  pub resolved : List ResolvedInvite
  pub begun : List CreateInviteInput
  pub looked : List (CreateInviteInput × Option ℕ)
  pub cleared : List CreateInviteInput
  pub winners : List ℕ

pub data Op : Type 0 where
  begins : CreateInviteInput → Op
  looks : CreateInviteInput → Op
  clears : CreateInviteInput → Option ℕ → Op
  inserts : ℕ → Text → CreateInviteInput → Op
  revokes : ℕ → ℕ → Op
  resolves : Text → Op
  accepts : ResolvedInvite → ℕ → Text → Op
  claims : ℕ → ResolvedInvite → Op
  waits : ℕ → Op

abbrev pub hand : System → Result InviteError ResolvedInvite → System
hand sys (err e) = sys
hand sys (ok v) = record sys { resolved = v ∷ sys.resolved }

abbrev pub record_win {ℓ} : {A : Type ℓ} → System → ℕ → Result InviteError A × Database → System
record_win sys id (err e, db) = record sys { db = db }
record_win sys id (ok a, db) = record sys { db = db; winners = id ∷ sys.winners }

abbrev pub begin : CreateInviteInput → System → Option InviteError → System
begin input sys (some e) = sys
begin input sys none = record sys { begun = input ∷ sys.begun }

abbrev pub look : CreateInviteInput → System → Result InviteError (Option ℕ) → System
look input sys (err e) = sys
look input sys (ok found) = record sys { looked = (input, found) ∷ sys.looked }

abbrev pub insert : System → Option Database → System
insert sys none = sys
insert sys (some db) = record sys { db = db }

unfoldable pub step : Op → System → System
step (begins input) sys = begin input sys (refused_at_once input sys.db)
step (looks input) sys = look input sys (find_expired input sys.db)
step (clears input found) sys = record sys {
  db = revoke_expired found sys.db;
  cleared = input ∷ sys.cleared;
}
step (inserts id token input) sys =
    insert sys (insert_invite (new_invite id token input sys.db.now) sys.db)
step (revokes id org) sys = record sys { db = revoke_invite id org sys.db }
step (resolves token) sys = hand sys (resolve_invite_by_token token sys.db)
step (accepts v user_id email) sys = record_win sys v.id (accept_resolved v user_id email sys.db)
step (claims new_id v) sys = record_win sys v.id (claim_resolved new_id v sys.db)
step (waits ms) sys = record sys { db = record sys.db { now = sys.db.now + ms } }

-- Times that a number stands in a list.
abbrev pub count : ℕ → List ℕ → ℕ
count i [] = 0
count i (j ∷ js) = if j == i then suc (count i js) else count i js

-- A generated id is new, and a request goes on from where it is.
abbrev pub Allowed : Op → System → Type 0
Allowed (begins input) sys = Unit
Allowed (looks input) sys = In input sys.begun
Allowed (clears input found) sys = In (input, found) sys.looked
Allowed (inserts id token input) sys =
    In input sys.cleared × All (λ v. id ≢ v.id) sys.db.invites × (count id sys.winners ≡ 0)
Allowed (revokes id org) sys = Unit
Allowed (resolves token) sys = Unit
Allowed (accepts v user_id email) sys = In v sys.resolved
Allowed (claims new_id v) sys = In v sys.resolved
Allowed (waits ms) sys = Unit

pub data Reach (start : System) : System → Type 0 where
  here : Reach start start
  next : {sys : System} → Reach start sys → (op : Op) → Allowed op sys → Reach start (step op sys)
