-- ===== src/Team.antt =====
-- `app/services/team.py`: invitations and memberships, each service as a function on the directory,
-- and the requests of `app/api/v1/team.py` with the checks of `app/api/deps.py` before them.
-- A service that raises rolls its transaction back, so it returns an error and no directory.
pub mod Owners
pub mod Members
pub mod Reach
pub mod Invitations
pub mod Tests
use nuvrag_platform.Base.{
  ℕ, ◌+◌, ◌≡◌, Bool, true, false, ◌&&◌, ◌||◌, not, Option, none, some, List, [], ◌∷◌, map, ◌==◌,
  leb, any, is_some, is_none, if◌then◌else◌,
}
use nuvrag_platform.Base.Text.{Text, text_eq, strip}
use nuvrag_platform.Base.Rows.{get, save, add, remove}
use nuvrag_platform.Domain.Enums.{
  UserRole, InvitationStatus, can_act_as, is_owner, is_pending_invitation,
}
use nuvrag_platform.Domain.Errors.{DomainError, Result, ok, err, raise_if, or_raise, ◌>>=◌, ◌>>◌}
use nuvrag_platform.Identity.{
  User, Invitation, Organization, Directory, user_row, invitation_row, organization_row,
  get_by_email, count_active_owners, get_by_token_hash, is_pending_for,
}
use nuvrag_platform.Identity.Revocation.{revoke_all_for_user}

-- What the services take from their surroundings: `str.lower`, the two digests, the settings.
pub record Platform : Type 0 where
  pub lower : Text → Text
  pub hash_api_key : ℕ → ℕ
  pub hash_password : Text → ℕ
  pub invitation_ttl_seconds : ℕ
  pub refresh_token_ttl_seconds : ℕ

pub record MemberUpdate : Type 0 where
  pub role : Option UserRole
  pub is_active : Option Bool

-- `get_active_user`, then `current_principal`
unfoldable pub get_active_user : ℕ → List User → Result User
get_active_user user_id users = do
  user ← or_raise (get user_id users) DomainError.not_found
  raise_if (not user.is_active) DomainError.authentication
  ok user

-- `require_role`
unfoldable pub require_role : UserRole → User → Result User
require_role minimum user = do
  raise_if (not (can_act_as user.role minimum)) DomainError.permission_denied
  ok user

-- `_ensure_usable`
unfoldable pub ensure_usable : ℕ → Option Invitation → Result Invitation
ensure_usable now none = err DomainError.not_found
ensure_usable now (some i) = do
  raise_if (not (is_pending_invitation i.status) || leb i.expires_at now) DomainError.not_found
  ok i

-- A member of the organisation, by id; "missing" and "someone else's" are one answer.
unfoldable pub load_member : ℕ → ℕ → List User → Result User
load_member org_id user_id users = do
  member ← or_raise (get user_id users) DomainError.not_found
  raise_if (not (member.org_id == org_id)) DomainError.not_found
  ok member

-- `_apply_role_change`
unfoldable pub apply_role_change : List User → User → User → UserRole → ℕ → Result User
apply_role_change users actor member role org_id = do
  raise_if (not (can_act_as actor.role role)) DomainError.permission_denied
  raise_if (not (can_act_as actor.role member.role)) DomainError.permission_denied
  raise_if
      (is_owner member.role && (not (is_owner role) && leb (count_active_owners org_id users) 1))
      DomainError.conflict
  ok (record member { role = role })

-- `_apply_activation_change`
unfoldable pub apply_activation_change : User → User → Bool → Result User
apply_activation_change actor member is_active = do
  raise_if ((actor.id == member.id) && not is_active) DomainError.permission_denied
  raise_if (not (can_act_as actor.role member.role)) DomainError.permission_denied
  ok (record member { is_active = is_active })

abbrev pub change_role : List User → User → User → Option UserRole → ℕ → Result User
change_role users actor member none org_id = ok member
change_role users actor member (some role) org_id = apply_role_change users actor member role org_id

abbrev pub change_activation : User → User → Option Bool → Result User
change_activation actor member none = ok member
change_activation actor member (some b) = apply_activation_change actor member b

-- `ON DELETE SET NULL` of `invitation.invited_by`
abbrev pub forget_inviter : ℕ → Invitation → Invitation
forget_inviter user_id i = record i {
  invited_by = elim i.invited_by [
    | none ↦ none
    | some by ↦ (if by == user_id then none else some by)
  ];
}

module _ (p : Platform) where
  -- `update_member`
  unfoldable pub update_member :
      ℕ → ℕ → User → ℕ → MemberUpdate → Directory → Result (User × Directory)
  update_member now org_id actor user_id payload d = do
    raise_if (is_none payload.role && is_none payload.is_active) DomainError.validation
    member ← load_member org_id user_id d.users
    with_role ← change_role d.users actor member payload.role org_id
    updated ← change_activation actor with_role payload.is_active
    ok (
      updated,
      record d {
        users = save updated d.users;
        cutoffs = revoke_all_for_user now p.refresh_token_ttl_seconds updated.id d.cutoffs;
      },
    )

  -- `remove_member`
  unfoldable pub remove_member : ℕ → ℕ → User → ℕ → Directory → Result Directory
  remove_member now org_id actor user_id d = do
    raise_if (actor.id == user_id) DomainError.permission_denied
    member ← load_member org_id user_id d.users
    raise_if (not (can_act_as actor.role member.role)) DomainError.permission_denied
    raise_if (is_owner member.role && leb (count_active_owners org_id d.users) 1)
        DomainError.conflict
    ok (record d {
      users = remove member.id d.users;
      invitations = map (forget_inviter member.id) d.invitations;
      cutoffs = revoke_all_for_user now p.refresh_token_ttl_seconds user_id d.cutoffs;
    })

  -- `invite_member`, which is given the row's new id and the new token
  unfoldable pub invite_member :
      ℕ → ℕ → ℕ → ℕ → User → Text → UserRole → Directory → Result (Invitation × Directory)
  invite_member now fresh_id token org_id actor address role d = do
    let email = p.lower (strip address)
    raise_if (not (can_act_as actor.role role)) DomainError.permission_denied
    let invitation : Invitation = record {
      id = fresh_id;
      org_id = org_id;
      email = email;
      role = role;
      token_hash = p.hash_api_key token;
      status = InvitationStatus.pending;
      expires_at = now + p.invitation_ttl_seconds;
      invited_by = some actor.id;
      accepted_at = none;
    }
    raise_if (is_some (get_by_email email d.users)) DomainError.conflict
    raise_if
        (any (is_pending_for org_id email) d.invitations
          || is_some (get_by_token_hash (p.hash_api_key token) d.invitations))
        DomainError.conflict
    ok (invitation, record d { invitations = add invitation d.invitations })

  -- `revoke_invitation`
  unfoldable pub revoke_invitation : ℕ → ℕ → Directory → Result (Invitation × Directory)
  revoke_invitation org_id invitation_id d = do
    i ← or_raise (get invitation_id d.invitations) DomainError.not_found
    raise_if (not (i.org_id == org_id)) DomainError.not_found
    raise_if (not (is_pending_invitation i.status)) DomainError.conflict
    let revoked : Invitation = record i { status = InvitationStatus.revoked }
    ok (revoked, record d { invitations = save revoked d.invitations })

  -- `preview_invitation`
  unfoldable pub preview_invitation : ℕ → ℕ → Directory → Result (Organization × Invitation)
  preview_invitation now token d = do
    i ← ensure_usable now (get_by_token_hash (p.hash_api_key token) d.invitations)
    organization ← or_raise (get i.org_id d.organizations) DomainError.not_found
    ok (organization, i)

  -- `accept_invitation`, which is given the new user's id; the tokens that it issues are not modelled
  unfoldable pub accept_invitation :
      ℕ → ℕ → ℕ → Text → Option Text → Directory → Result (Organization × User × Directory)
  accept_invitation now fresh_id token password full_name d = do
    i ← ensure_usable now (get_by_token_hash (p.hash_api_key token) d.invitations)
    raise_if (is_some (get_by_email i.email d.users)) DomainError.conflict
    organization ← or_raise (get i.org_id d.organizations) DomainError.not_found
    let user : User = record {
      id = fresh_id;
      org_id = i.org_id;
      email = i.email;
      hashed_password = p.hash_password password;
      full_name = elim full_name [
        | none ↦ none
        | some n ↦ elim n [ [] ↦ none | c ∷ t ↦ some (strip (c ∷ t)) ]
      ];
      role = i.role;
      is_active = true;
    }
    let spent : Invitation = record i { status = InvitationStatus.accepted; accepted_at = some now }
    ok (
      organization,
      user,
      record d { users = add user d.users; invitations = save spent d.invitations },
    )
