-- ===== src/Team/Owners.antt =====
-- An organisation never loses its last active owner.
use mathlib.Core.Path.{subst}
use nuvrag_platform.Base.{
  ==_iff, ◌∙◌, ℕ, ◌≤◌, ◌<◌, ◌≡◌, ◌≢◌, Bool, true, false, Option, none, some, List, map, arith, ◌==◌,
  Bool-cases, inl, inr,
}
use nuvrag_platform.Base.Rows.{
  get, save, remove, HasUniqueKeys, count-save, count-remove, count_pos, get-save_ne, get-key,
}
use nuvrag_platform.Domain.Enums.{UserRole, can_act_as, is_owner, can_act_as-owner}
use nuvrag_platform.Domain.Errors.{ok}
use nuvrag_platform.Identity.{User, Directory, user_row, is_active_owner, count_active_owners}
use nuvrag_platform.Identity.Revocation.{revoke_all_for_user}
use nuvrag_platform.Team.{
  Platform, MemberUpdate, load_member, apply_role_change, change_role, apply_activation_change,
  change_activation, update_member, remove_member, forget_inviter,
}

-- The signed-in user of a request: their own row, active, in the organisation they act on.
pub record IsPrincipal (org_id : ℕ) (actor : User) (d : Directory) : Type 0 where
  pub stored : get actor.id d.users ≡ some actor
  pub active : actor.is_active ≡ true
  pub belongs : actor.org_id ≡ org_id

pub load_member-eq-ok :
    (org_id user_id : ℕ) (users : List User) (m : User)
    → load_member org_id user_id users ≡ ok m
    → (get user_id users ≡ some m) × (m.org_id ≡ org_id) × (m.id ≡ user_id)
unfolding load_member
load_member-eq-ok org_id user_id users m h =
    let found : get user_id users ≡ some m = ground arith in
    (found, ground arith, get-key user_id users m found)

-- A role change keeps the row otherwise, and demotes an owner only where two are active.
pub change_role-eq-ok :
    (users : List User) (actor m : User) (role : Option UserRole) (org_id : ℕ) (m' : User)
    → change_role users actor m role org_id ≡ ok m'
    → (m'.id ≡ m.id)
      × (m'.org_id ≡ m.org_id)
      × (m'.is_active ≡ m.is_active)
      × (m'.email ≡ m.email)
      × (is_owner m.role ≡ true → is_owner m'.role ≡ false → 2 ≤ count_active_owners org_id users)
unfolding apply_role_change
change_role-eq-ok users actor m none org_id m' h = ground arith
change_role-eq-ok users actor m (some role) org_id m' h = ground arith

-- A suspension is of somebody else, by somebody of their rank.
pub change_activation-eq-ok :
    (actor m : User) (b : Option Bool) (m' : User)
    → change_activation actor m b ≡ ok m'
    → (m'.id ≡ m.id)
      × (m'.org_id ≡ m.org_id)
      × (m'.role ≡ m.role)
      × (m'.email ≡ m.email)
      × (m.is_active ≡ true
          → m'.is_active ≡ false
          → (actor.id ≢ m.id) × (can_act_as actor.role m.role ≡ true))
unfolding apply_activation_change
change_activation-eq-ok actor m none m' h = ground arith
change_activation-eq-ok actor m (some b) m' h = ground arith

module _ (p : Platform) where
  -- What a successful update has gone through.
  pub update_member-eq-ok :
      (now org_id : ℕ) (actor : User) (user_id : ℕ) (payload : MemberUpdate) (d : Directory)
      (u : User) (d' : Directory)
      → update_member p now org_id actor user_id payload d ≡ ok (u, d')
      → (member : User) × (with_role : User) × (load_member org_id user_id d.users ≡ ok member)
        × (change_role d.users actor member payload.role org_id ≡ ok with_role)
        × (change_activation actor with_role payload.is_active ≡ ok u)
        × (d'.users ≡ save u d.users)
        × (d'.invitations ≡ d.invitations)
        × (d'.cutoffs ≡ revoke_all_for_user now p.refresh_token_ttl_seconds u.id d.cutoffs)
  unfolding update_member
  update_member-eq-ok now org_id actor user_id payload d u d' h = ground arith

  -- Another organisation's owners are not counted among the rows that change.
  owners_elsewhere :
      (org_id any_org : ℕ) (m u : User) (users : List User)
      → HasUniqueKeys users
      → get m.id users ≡ some m
      → m.org_id ≡ org_id
      → (u.id ≡ m.id) × (u.org_id ≡ m.org_id)
      → (org_id == any_org) ≡ false
      → 0 < count_active_owners any_org users
      → 0 < count_active_owners any_org (save u users)
  owners_elsewhere org_id any_org m u users uniq here belongs same other pos =
      let there : get u.id users ≡ some m = ground arith in
      ground (arith, count-save (is_active_owner any_org) u m users uniq there)

  -- The counts of active owners, before and after one row is written.
  owners-save :
      (org_id : ℕ) (actor m m1 u : User) (users : List User)
      → HasUniqueKeys users
      → get m.id users ≡ some m
      → m.org_id ≡ org_id
      → get actor.id users ≡ some actor
      → actor.is_active ≡ true
      → actor.org_id ≡ org_id
      → (role : Option UserRole) (b : Option Bool) → change_role users actor m role org_id ≡ ok m1
      → change_activation actor m1 b ≡ ok u
      → 0 < count_active_owners org_id users
      → 0 < count_active_owners org_id (save u users)
  owners-save org_id actor m m1 u users uniq em om ea act oa role b e1 e2 pos =
      let (id1, org1, act1, _, demoted) = change_role-eq-ok users actor m role org_id m1 e1 in
      let (id2, org2, role2, _, suspended) = change_activation-eq-ok actor m1 b u e2 in
      let same : get u.id users ≡ some m = ground arith in
      let counts = count-save (is_active_owner org_id) u m users uniq same in
      elim (Bool-cases (is_active_owner org_id u)) [
        | inl still ↦ ground arith
        | inr lost ↦ elim (Bool-cases (is_owner u.role)) [
          | inr no_owner ↦ ground arith
          | inl owner ↦ elim (Bool-cases m.is_active) [
            | inr idle ↦ ground arith
            | inl was_active ↦
                let (others, outranks) = suspended (ground arith) (ground arith) in
                let kept : get actor.id (save u users) ≡ some actor =
                  get-save_ne actor.id u users (λ e. others (omega arith)) ∙ ea in
                count_pos (is_active_owner org_id) actor.id (save u users) actor kept
                  (ground (arith, can_act_as-owner actor.role))
          ]
        ]
      ]

  -- A signed-in member's update of any member leaves every organisation that had an active owner
  -- with one: nobody can demote or suspend the last one, not even themselves.
  pub update_member_keeps_owner :
      (now org_id : ℕ) (actor : User) (user_id : ℕ) (payload : MemberUpdate) (d : Directory)
      (u : User) (d' : Directory) (any_org : ℕ)
      → HasUniqueKeys d.users
      → IsPrincipal org_id actor d
      → update_member p now org_id actor user_id payload d ≡ ok (u, d')
      → 0 < count_active_owners any_org d.users
      → 0 < count_active_owners any_org d'.users
  update_member_keeps_owner now org_id actor user_id payload d u d' any_org uniq who h pos =
      let (m, m1, loaded, e1, e2, saved, _, _) =
        update_member-eq-ok now org_id actor user_id payload d u d' h in
      let (found, belongs, same_id) = load_member-eq-ok org_id user_id d.users m loaded in
      let here : get m.id d.users ≡ some m = rw same_id found in
      rw saved (elim (Bool-cases (org_id == any_org)) [
        | inl this ↦
            subst (λ o. 0 < count_active_owners o (save u d.users)) ((==_iff org_id any_org).0 this)
              (owners-save org_id actor m m1 u d.users uniq here belongs who.stored who.active
                who.belongs payload.role payload.is_active e1 e2 (ground arith))
        | inr other ↦
            owners_elsewhere org_id any_org m u d.users uniq here belongs
              (ground (
                arith,
                change_role-eq-ok d.users actor m payload.role org_id m1 e1,
                change_activation-eq-ok actor m1 payload.is_active u e2,
              ))
              other pos
      ])

  -- What a successful removal has gone through.
  pub remove_member-eq-ok :
      (now org_id : ℕ) (actor : User) (user_id : ℕ) (d d' : Directory)
      → remove_member p now org_id actor user_id d ≡ ok d'
      → (m : User) × (load_member org_id user_id d.users ≡ ok m)
        × (actor.id ≢ user_id)
        × (can_act_as actor.role m.role ≡ true)
        × (is_owner m.role ≡ true → 2 ≤ count_active_owners org_id d.users)
        × (d'.users ≡ remove m.id d.users)
        × (d'.invitations ≡ map (forget_inviter m.id) d.invitations)
  unfolding remove_member
  remove_member-eq-ok now org_id actor user_id d d' h = ground arith

  -- A removal leaves every organisation that had an active owner with one.
  pub remove_member_keeps_owner :
      (now org_id : ℕ) (actor : User) (user_id : ℕ) (d d' : Directory) (any_org : ℕ)
      → HasUniqueKeys d.users
      → remove_member p now org_id actor user_id d ≡ ok d'
      → 0 < count_active_owners any_org d.users
      → 0 < count_active_owners any_org d'.users
  remove_member_keeps_owner now org_id actor user_id d d' any_org uniq h pos =
      let (m, loaded, _, _, two, removed, _) =
        remove_member-eq-ok now org_id actor user_id d d' h in
      let (found, belongs, same_id) = load_member-eq-ok org_id user_id d.users m loaded in
      let here : get m.id d.users ≡ some m = rw same_id found in
      rw removed (ground (arith, count-remove (is_active_owner any_org) m.id m d.users uniq here))
