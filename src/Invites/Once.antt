-- ===== src/Invites/Once.antt =====
-- The invariant of the invite service over histories.
use alchemist_template.Common.{
  ℕ, ◌≤◌, ◌≡◌, refl, Option, none, some, arith, All, Text, eq_text, Result, ◌>>=◌, ok, err,
}
use alchemist_template.Common.Members.{In, find?-In, All-In}
use alchemist_template.Invites.Single.{Told, accept-Told, claim-Told}
use alchemist_template.Roles.{assignable_roles}
use alchemist_template.Invites.Service.{InviteError, CreateInviteInput, refused_at_once}
use alchemist_template.Invites.Tables.{Invite, Organization, Database, User}
use alchemist_template.Invites.Rows.{
  RowsOk, RowOk, RowsAfter, revoke-RowsOk, expired-RowsOk, begun-In, insert-RowsAfter,
}
use alchemist_template.Invites.History.{
  System, step, Op, Reach, hand, count, Allowed, next, begins, looks, clears, inserts, begin, look,
  insert, here, record_win, revokes, resolves, accepts, claims, waits,
}
use alchemist_template.Invites.Accept.{resolved_row, resolve_found, resolve_invite_by_token}

abbrev pub Assignable : CreateInviteInput → Type 0
Assignable input = In input.role assignable_roles

pub record Inv (sys : System) : Type 0 where
  pub rows : RowsOk sys.winners sys.db.invites
  pub once : (i : ℕ) → count i sys.winners ≤ 1
  pub roles : All (λ v. In v.role assignable_roles) sys.resolved
  pub begun : All Assignable sys.begun
  pub looked : All (λ (input, found). Assignable input) sys.looked
  pub cleared : All Assignable sys.cleared

-- A win is recorded once.
win-Inv :
    {A : Type 0} (sys : System) (id : ℕ) (r : Result InviteError A × Database)
    → Inv sys
    → Told sys.winners id r
    → Inv (record_win sys id r)
win-Inv sys id (err e, db) v told = record {
  rows = told;
  once = v.once;
  roles = v.roles;
  begun = v.begun;
  looked = v.looked;
  cleared = v.cleared;
}
win-Inv sys id (ok a, db) v told = record {
  rows = told.1;
  once = λ i. ground (arith, told.0, v.once i);
  roles = v.roles;
  begun = v.begun;
  looked = v.looked;
  cleared = v.cleared;
}

resolved_role :
    (w : Invite) (o : Option Organization) (u : Option User) (sys : System)
    (r : Result InviteError Invite)
    → In w.role assignable_roles
    → Inv sys
    → Inv (hand sys (resolved_row w o u >>= λ row. r >>= λ live. ok row))
unfolding resolved_row
resolved_role w (some o) (some u) sys (ok l) role v = record {
  rows = v.rows;
  once = v.once;
  roles = (role, v.roles);
  begun = v.begun;
  looked = v.looked;
  cleared = v.cleared;
}
resolved_role w (some o) (some u) sys (err e) role v = v
resolved_role w (some o) none sys r role v = v
resolved_role w none u sys r role v = v

found-Inv :
    (sys : System) (found : Option Invite)
    → ((w : Invite) → found ≡ some w → In w.role assignable_roles)
    → Inv sys
    → Inv (hand sys (resolve_found sys.db found))
unfolding resolve_found
found-Inv sys none role v = v
found-Inv sys (some w) role v = resolved_role w _ _ sys _ (role w refl) v

resolve-Inv :
    (sys : System) (token : Text) → Inv sys → Inv (hand sys (resolve_invite_by_token token sys.db))
unfolding resolve_invite_by_token
resolve-Inv sys token v =
    found-Inv sys _
      (λ w h.
        let (m, q) = find?-In (λ v. eq_text v.token token) w sys.db.invites h in
        (All-In (RowOk sys.winners) w sys.db.invites v.rows.1 m).1)
      v

-- A change of the rows alone.
rows-Inv :
    (sys : System) (db : Database)
    → RowsOk sys.winners db.invites
    → Inv sys
    → Inv (record sys { db = db })
rows-Inv sys db rows v = record {
  rows = rows;
  once = v.once;
  roles = v.roles;
  begun = v.begun;
  looked = v.looked;
  cleared = v.cleared;
}

begin-Inv :
    (input : CreateInviteInput) (sys : System) (o : Option InviteError)
    → refused_at_once input sys.db ≡ o
    → Inv sys
    → Inv (begin input sys o)
begin-Inv input sys (some e) h v = v
begin-Inv input sys none h v = record {
  rows = v.rows;
  once = v.once;
  roles = v.roles;
  begun = (begun-In input sys.db h, v.begun);
  looked = v.looked;
  cleared = v.cleared;
}

look-Inv :
    (input : CreateInviteInput) (sys : System) (r : Result InviteError (Option ℕ))
    → Assignable input
    → Inv sys
    → Inv (look input sys r)
look-Inv input sys (err e) role v = v
look-Inv input sys (ok found) role v = record {
  rows = v.rows;
  once = v.once;
  roles = v.roles;
  begun = v.begun;
  looked = (role, v.looked);
  cleared = v.cleared;
}

insert-Inv :
    (sys : System) (o : Option Database) → RowsAfter sys.winners o → Inv sys → Inv (insert sys o)
insert-Inv sys none rows v = v
insert-Inv sys (some db) rows v = rows-Inv sys db rows v

step-Inv : (op : Op) (sys : System) → Allowed op sys → Inv sys → Inv (step op sys)
unfolding step
step-Inv (begins input) sys a v = begin-Inv input sys _ refl v
step-Inv (looks input) sys a v =
    look-Inv input sys _ (All-In Assignable input sys.begun v.begun a) v
step-Inv (clears input found) sys a v = record {
  rows = expired-RowsOk sys.winners found sys.db v.rows;
  once = v.once;
  roles = v.roles;
  begun = v.begun;
  looked = v.looked;
  cleared =
      (All-In (λ (input, found). Assignable input) (input, found) sys.looked v.looked a, v.cleared);
}
step-Inv (inserts id token input) sys (m, fresh, unused) v =
    insert-Inv sys _
      (insert-RowsAfter sys.winners id token input sys.db
        (All-In Assignable input sys.cleared v.cleared m) fresh unused v.rows)
      v
step-Inv (revokes id org) sys a v =
    rows-Inv sys _ (revoke-RowsOk sys.winners id org sys.db v.rows) v
step-Inv (resolves token) sys a v = resolve-Inv sys token v
step-Inv (accepts w user_id email) sys a v =
    win-Inv sys w.id _ v (accept-Told sys.winners w sys.db user_id email v.rows)
step-Inv (claims new_id w) sys a v =
    win-Inv sys w.id _ v (claim-Told sys.winners w sys.db new_id v.rows)
step-Inv (waits ms) sys a v = rows-Inv sys _ v.rows v

-- From a state that satisfies it, whatever sequence of statements of creations, of revocations,
-- resolutions, acceptances, claims and waits follows, however the requests interleave and however late
-- one goes on, so long as a new id is new: each invite was used by at most one request, an invite that
-- is not marked accepted was used by no request, no two rows have one id, and every role that an
-- invite gives, that a resolved invite gives or that a creation under way asks for is an assignable
-- one, so never the owner's.
pub invite_used_once : (start sys : System) → Inv start → Reach start sys → Inv sys
invite_used_once start sys v here = v
invite_used_once start sys v (next r op allowed) =
    step-Inv op _ allowed (invite_used_once start _ v r)
