-- ===== src/Identity.antt =====
-- The rows of `app/models/{user,invitation,organization}.py`, the queries of
-- `app/repositories/identity.py` over them, and the session cut-offs of `app/services/revocation.py`.
-- Identifiers, token digests and password hashes are only compared, so they are numbers.
pub mod Revocation
use nuvrag_platform.Base.{
  ℕ, ◌+◌, Bool, ◌&&◌, Option, List, ◌==◌, ltb, find, count, filter, if◌then◌else◌,
}
use nuvrag_platform.Base.Text.{Text, text_eq, strip}
use nuvrag_platform.Base.Rows.{Keyed}
use nuvrag_platform.Domain.Enums.{UserRole, InvitationStatus, is_owner, is_pending_invitation}

pub record User : Type 0 where
  pub id : ℕ
  pub org_id : ℕ
  pub email : Text
  pub hashed_password : ℕ
  pub full_name : Option Text
  pub role : UserRole
  pub is_active : Bool

pub record Invitation : Type 0 where
  pub id : ℕ
  pub org_id : ℕ
  pub email : Text
  pub role : UserRole
  pub token_hash : ℕ
  pub status : InvitationStatus
  pub expires_at : ℕ
  pub invited_by : Option ℕ
  pub accepted_at : Option ℕ

pub record Organization : Type 0 where
  pub id : ℕ
  pub name : Text
  pub slug : Text

-- The value under `auth:user-epoch:<id>`, with the second at which Redis drops it.
pub record Cutoff : Type 0 where
  pub user_id : ℕ
  pub epoch : ℕ
  pub expires_at : ℕ

-- The tables and keys that signing in, teams and invitations share.
pub record Directory : Type 0 where
  pub users : List User
  pub invitations : List Invitation
  pub organizations : List Organization
  pub cutoffs : List Cutoff

instance abbrev pub user_row : Keyed User
user_row = record { key = λ u. u.id }

instance abbrev pub invitation_row : Keyed Invitation
invitation_row = record { key = λ i. i.id }

instance abbrev pub organization_row : Keyed Organization
organization_row = record { key = λ o. o.id }

instance abbrev pub cutoff_row : Keyed Cutoff
cutoff_row = record { key = λ c. c.user_id }

-- `UserRepository.get_by_email`, on an address that is already stripped and in lower case
abbrev pub get_by_email : Text → List User → Option User
get_by_email email = find (λ u. text_eq u.email email)

abbrev pub is_active_owner : ℕ → User → Bool
is_active_owner org_id u = (u.org_id == org_id) && (is_owner u.role && u.is_active)

-- `UserRepository.count_active_owners`
abbrev pub count_active_owners : ℕ → List User → ℕ
count_active_owners org_id = count (is_active_owner org_id)

-- `InvitationRepository.get_by_token_hash`
abbrev pub get_by_token_hash : ℕ → List Invitation → Option Invitation
get_by_token_hash token_hash = find (λ i. i.token_hash == token_hash)

-- A pending row of the organisation and address: the key of the partial unique index.
abbrev pub is_pending_for : ℕ → Text → Invitation → Bool
is_pending_for org_id email i =
    (i.org_id == org_id) && (text_eq i.email email && is_pending_invitation i.status)
