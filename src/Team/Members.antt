-- ===== src/Team/Members.antt =====
-- What an update of a member can and cannot change.
use nuvrag_platform.Base.{◌∙◌, ℕ, ◌+◌, ◌≤◌, ◌<◌, ◌≡◌, ◌≢◌, Bool, true, none, some, List, arith}
use nuvrag_platform.Base.Rows.{get, get-save_ne, get-save_self}
use nuvrag_platform.Domain.Enums.{UserRole, can_act_as, rank}
use nuvrag_platform.Domain.Errors.{ok}
use nuvrag_platform.Identity.{User, Directory, user_row}
use nuvrag_platform.Identity.Revocation.{issued_before_cutoff, revoke_all_lem}
use nuvrag_platform.Team.{
  Platform, MemberUpdate, apply_role_change, change_role, apply_activation_change,
  change_activation, update_member,
}
use nuvrag_platform.Team.Owners.{
  load_member-eq-ok, update_member-eq-ok, change_role-eq-ok, change_activation-eq-ok,
}

-- A role that an update grants, and the role that it takes away, are the actor's own or below.
change_role-rank :
    (users : List User) (actor m : User) (role : UserRole) (org_id : ℕ) (m' : User)
    → change_role users actor m (some role) org_id ≡ ok m'
    → (m'.role ≡ role) × (rank role ≤ rank actor.role) × (rank m.role ≤ rank actor.role)
unfolding apply_role_change can_act_as
change_role-rank users actor m role org_id m' h = ground arith

change_activation-value :
    (actor m : User) (b : Bool) (m' : User)
    → change_activation actor m (some b) ≡ ok m'
    → (m'.is_active ≡ b) × (rank m.role ≤ rank actor.role)
unfolding apply_activation_change can_act_as
change_activation-value actor m b m' h = ground arith

module _ (p : Platform) where
  -- A successful update writes one row, that of a member of the organisation, whose id and address
  -- stay; a named role is granted only by someone of at least that rank and of at least the member's
  -- present rank, and every other user's row stays as it was.
  pub update_member_authority :
      (now org_id : ℕ) (actor : User) (user_id : ℕ) (payload : MemberUpdate) (d : Directory)
      (u : User) (d' : Directory)
      → update_member p now org_id actor user_id payload d ≡ ok (u, d')
      → (member : User) × (get user_id d.users ≡ some member)
        × (member.org_id ≡ org_id)
        × (u.id ≡ user_id)
        × (u.email ≡ member.email)
        × (get user_id d'.users ≡ some u)
        × ((role : UserRole)
            → payload.role ≡ some role
            → (u.role ≡ role)
              × (rank role ≤ rank actor.role)
              × (rank member.role ≤ rank actor.role))
        × ((id : ℕ) → user_id ≢ id → get id d'.users ≡ get id d.users)
  update_member_authority now org_id actor user_id payload d u d' h =
      let (m, m1, loaded, e1, e2, saved, _, _) =
        update_member-eq-ok p now org_id actor user_id payload d u d' h in
      let (found, belongs, same_id) = load_member-eq-ok org_id user_id d.users m loaded in
      let (id1, _, _, mail1, _) = change_role-eq-ok d.users actor m payload.role org_id m1 e1 in
      let (id2, _, role2, mail2, _) = change_activation-eq-ok actor m1 payload.is_active u e2 in
      let same : u.id ≡ user_id = ground arith in
      let there : get u.id d.users ≡ some m = ground arith in
      (
        m,
        found,
        belongs,
        same,
        mail2 ∙ mail1,
        ground (arith, get-save_self u m d.users there),
        λ role e. ground (arith, change_role-rank d.users actor m role org_id m1),
        λ id ne. ground (arith, get-save_ne id u d.users),
      )

  -- After a successful update, whatever the member was issued up to that second is before their
  -- cut-off, for as long as a refresh token of that age could still be alive.
  pub update_member_revokes :
      (now org_id : ℕ) (actor : User) (user_id : ℕ) (payload : MemberUpdate) (d : Directory)
      (u : User) (d' : Directory) (later issued_at : ℕ)
      → update_member p now org_id actor user_id payload d ≡ ok (u, d')
      → issued_at ≤ now
      → later < now + p.refresh_token_ttl_seconds
      → issued_before_cutoff later user_id (some issued_at) d'.cutoffs ≡ true
  update_member_revokes now org_id actor user_id payload d u d' later issued_at h old alive =
      let (m, m1, loaded, e1, e2, _, _, cut) =
        update_member-eq-ok p now org_id actor user_id payload d u d' h in
      let (_, _, same_id) = load_member-eq-ok org_id user_id d.users m loaded in
      let (id1, _, _, _, _) = change_role-eq-ok d.users actor m payload.role org_id m1 e1 in
      let (id2, _, _, _, _) = change_activation-eq-ok actor m1 payload.is_active u e2 in
      let same : u.id ≡ user_id = ground arith in
      rw (cut, same)
        (ground (
          arith,
          revoke_all_lem now p.refresh_token_ttl_seconds later user_id issued_at user_id none
              d.cutoffs alive,
        ))
