-- ===== src/Invites/Examples.antt =====
-- Tests of the invite service, and its theorems at concrete inputs.
use alchemist_template.Common.{
  ℕ, ◌+◌, ◌≡◌, refl, inl, Bool, true, false, none, some, [], ◌∷◌, map, arith, leb, ◌==◌,
  if◌then◌else◌, is_none, Text, codes, eq_text, to_lower, update_where, ok, err,
}
use alchemist_template.Roles.{admin, owner, editor}
use alchemist_template.Invites.Once.{Inv, invite_used_once}
use alchemist_template.Invites.Lifetime.{opened, create_opens}
use alchemist_template.Invites.Accept.{
  claim_invite, ResolvedInvite, accept_invite, resolve_invite_by_token, claim_resolved,
}
use alchemist_template.Invites.Tables.{
  Invite, Database, User, Organization, organization_of, user_of, is_open_for,
}
use alchemist_template.Invites.History.{
  step, System, claims, resolves, next, begins, looks, clears, inserts, here, Reach,
}
use alchemist_template.Invites.Service.{
  revoke_expired, insert_invite, refused_at_once, find_expired, CreateInviteInput,
  list_pending_invites, create_invite, PendingInvite, new_invite, other_email, invalid_role,
  already_accepted, invite_ttl_ms, expired, already_pending, revoke_invite, revoked,
}

abbrev acme : Organization
acme = record { id = 1; name = codes "Acme" }

abbrev ann : User
ann = record {
  id = 2;
  email = codes "ann@acme.io";
  name = some (codes "Ann");
  role = admin;
  organization_id = some 1;
  email_verified = true;
  last_login_at = none;
}

abbrev office : Database
office = record { invites = []; users = ann ∷ []; organizations = acme ∷ []; now = 1000 }

abbrev for_bob : CreateInviteInput
for_bob = record {
  organization_id = 1;
  invited_by_user_id = 2;
  email = codes "Bob@x.io";
  role = editor;
}

abbrev secret : Text
secret = codes "t0ken"

abbrev invited : Database
invited = record office { invites = new_invite 3 secret for_bob 1000 ∷ [] }

abbrev bob_pending : PendingInvite
bob_pending = record {
  id = 3;
  email = codes "Bob@x.io";
  role = editor;
  invited_by = 2;
  invited_by_name = some (codes "Ann");
  invited_by_email = codes "ann@acme.io";
  expires_at = 604801000;
  created_at = 1000;
}

abbrev alone : ℕ → Database → Database
alone i db = db

created_bob : create_invite 3 secret for_bob alone office ≡ (ok bob_pending, invited)
unfolding create_invite eq_text user_of
created_bob = refl

-- No invite makes an owner, and a second one for the same email waits for the first.
owner_refused :
    (create_invite 3 secret (record for_bob { role = owner }) alone office
      ≡ (err invalid_role, office))
    × (create_invite 4 secret for_bob alone invited ≡ (err already_pending, invited))
unfolding create_invite eq_text is_open_for
owner_refused = (refl, refl)

listed_bob : list_pending_invites 1 invited ≡ bob_pending ∷ []
unfolding list_pending_invites new_invite user_of
listed_bob = refl

-- The link is claimed once: the account is created, and the second click is refused.
claimed_bob :
    ((claim_invite 5 secret (λ db. db) invited).1.users
      ≡ record {
        id = 5;
        email = codes "Bob@x.io";
        name = none;
        role = editor;
        organization_id = some 1;
        email_verified = true;
        last_login_at = some 1000;
      }
        ∷ ann
        ∷ [])
    × ((claim_invite 6 secret (λ db. db) (claim_invite 5 secret (λ db. db) invited).1).0
        ≡ err already_accepted)
unfolding claim_invite resolve_invite_by_token eq_text new_invite organization_of user_of
    update_where
claimed_bob = (refl, refl)

-- Another email may not accept it.
other_refused :
    accept_invite secret 2 (codes "ann@acme.io") (λ db. db) invited ≡ (err other_email, invited)
unfolding accept_invite resolve_invite_by_token eq_text new_invite organization_of user_of to_lower
other_refused = refl

abbrev start : System
start = record { db = office; resolved = []; begun = []; looked = []; cleared = []; winners = [] }

abbrev held : ResolvedInvite
held = opened 3 secret for_bob office acme ann

abbrev sent : System
sent =
    step (inserts 3 secret for_bob)
      (step (clears for_bob none) (step (looks for_bob) (step (begins for_bob) start)))

sent-Reach : Reach start sent
unfolding step refused_at_once find_expired eq_text revoke_expired
sent-Reach =
    next
      (next (next (next here (begins for_bob) tt) (looks for_bob) (inl refl)) (clears for_bob none)
        (inl refl))
      (inserts 3 secret for_bob) (inl refl, tt, refl)

-- Two requests resolve the link, and the second claim comes too late.
abbrev raced : System
raced = step (claims 6 held) (step (claims 5 held) (step (resolves secret) sent))

invite_used_once_example : Inv raced
unfolding step resolve_invite_by_token insert_invite eq_text organization_of user_of claim_resolved
    new_invite refused_at_once find_expired revoke_expired
invite_used_once_example =
    invite_used_once start raced
      (record {
        rows = (tt, tt);
        once = λ i. omega arith;
        roles = tt;
        begun = tt;
        looked = tt;
        cleared = tt;
      })
      (next (next (next sent-Reach (resolves secret) tt) (claims 5 held) (inl refl)) (claims 6 held)
        (inl refl))

-- At the millisecond of its expiry the link is claimed while a new invite is made: the row is both
-- accepted and revoked.
abbrev meanwhile : ℕ → Database → Database
meanwhile i db = if i == 2 then (claim_invite 5 secret (λ db. db) db).1 else db

both_marked :
    map {B = ℕ × Bool × Bool}
      (λ (v : Invite). (v.id, is_none v.accepted_at, is_none v.revoked_at))
      (create_invite 7
        (codes "n3w")
        for_bob
        meanwhile
        (record invited { now = 604_801_000 })).1.invites
    ≡ (7, true, true) ∷ (3, false, false) ∷ []
unfolding create_invite find_expired claim_invite resolve_invite_by_token eq_text organization_of
    user_of update_where new_invite is_open_for
both_marked = refl

-- Someone else is invited between the statements.
abbrev busy : ℕ → Database → Database
busy i db =
    if i == 2
    then record db {
      invites =
          new_invite 8 (codes "eve") (record for_bob { email = codes "eve@x.io" }) db.now
          ∷ db.invites;
      now = db.now + 50;
    }
    else db

abbrev busily : Database
busily = (create_invite 3 secret for_bob busy office).1

create_opens_example :
    ((ms : ℕ)
      → resolve_invite_by_token secret (record busily { now = busily.now + ms }) ≡ (
          if leb ms invite_ttl_ms
          then ok (opened 3 secret for_bob busily acme ann)
          else err expired))
    × (resolve_invite_by_token secret (revoke_invite 3 1 busily) ≡ err revoked)
unfolding create_invite eq_text user_of organization_of is_open_for
create_opens_example =
    create_opens 3 secret for_bob busy office (λ d. refl)
      (record bob_pending { created_at = 1050; expires_at = 604_801_050 }) busily acme ann refl refl
      refl
