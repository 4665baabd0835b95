-- ===== src/Team/Tests.antt =====
-- The team services at a concrete organisation.
use nuvrag_platform.Base.{
  ℕ, ◌≤◌, ◌<◌, ◌≡◌, ◌≢◌, refl, true, false, none, some, [], ◌∷◌, arith, count,
}
use nuvrag_platform.Base.Text.{Text, text, text_eq}
use nuvrag_platform.Base.Rows.{get}
use nuvrag_platform.Domain.Enums.{UserRole, InvitationStatus, can_act_as, rank}
use nuvrag_platform.Domain.Errors.{DomainError, ok, err}
use nuvrag_platform.Identity.{
  User, Invitation, Organization, Directory, user_row, invitation_row, count_active_owners,
  is_pending_for,
}
use nuvrag_platform.Identity.Revocation.{revoke_all_for_user}
use nuvrag_platform.Team.{
  Platform, MemberUpdate, update_member, remove_member, revoke_invitation, load_member,
  accept_invitation, preview_invitation, apply_role_change, apply_activation_change, ensure_usable,
}
use nuvrag_platform.Team.Members.{update_member_authority}
use nuvrag_platform.Team.Invitations.{accept_invitation_once, revoke_invitation_stops}
use nuvrag_platform.Team.Reach.{Step, Reach, IsSound, history_keeps_directory, Reach-keeps_owner}

abbrev pub platform : Platform
platform = record {
  lower = λ t. t;
  hash_api_key = λ t. t;
  hash_password = λ t. 0;
  invitation_ttl_seconds = 1000;
  refresh_token_ttl_seconds = 500;
}

abbrev pub ada : User
ada = record {
  id = 1;
  org_id = 9;
  email = text "ada@x.io";
  hashed_password = 0;
  full_name = none;
  role = UserRole.owner;
  is_active = true;
}

abbrev bob : User
bob = record {
  id = 2;
  org_id = 9;
  email = text "bob@x.io";
  hashed_password = 0;
  full_name = none;
  role = UserRole.member;
  is_active = true;
}

abbrev letter : Invitation
letter = record {
  id = 5;
  org_id = 9;
  email = text "eve@x.io";
  role = UserRole.admin;
  token_hash = 77;
  status = InvitationStatus.pending;
  expires_at = 100;
  invited_by = some 1;
  accepted_at = none;
}

abbrev acme : Organization
acme = record { id = 9; name = text "Acme"; slug = text "acme" }

abbrev pub office : Directory
office = record {
  users = ada ∷ bob ∷ [];
  invitations = letter ∷ [];
  organizations = acme ∷ [];
  cutoffs = [];
}

abbrev pub promote : MemberUpdate
promote = record { role = some UserRole.admin; is_active = none }

abbrev pub promoted : User
promoted = record bob { role = UserRole.admin }

abbrev pub later_office : Directory
later_office = record office {
  users = ada ∷ promoted ∷ [];
  cutoffs = record { user_id = 2; epoch = 40; expires_at = 540 } ∷ [];
}

pub promote_bob : update_member platform 40 9 ada 2 promote office ≡ ok (promoted, later_office)
unfolding update_member load_member apply_role_change can_act_as revoke_all_for_user
promote_bob = refl

-- The only owner cannot step down, and cannot remove or suspend themselves.
last_owner_stays :
    (update_member platform 40 9 ada 1
        (record { role = some UserRole.member; is_active = none })
        office
      ≡ err DomainError.conflict)
    × (update_member platform 40 9 ada 1 (record { role = none; is_active = some false }) office
        ≡ err DomainError.permission_denied)
    × (remove_member platform 40 9 ada 1 office ≡ err DomainError.permission_denied)
unfolding update_member remove_member load_member apply_role_change apply_activation_change
    can_act_as
last_owner_stays = (refl, refl, refl)

abbrev eve : User
eve = record {
  id = 3;
  org_id = 9;
  email = text "eve@x.io";
  hashed_password = 0;
  full_name = none;
  role = UserRole.admin;
  is_active = true;
}

abbrev joined : Directory
joined = record office {
  users = ada ∷ bob ∷ eve ∷ [];
  invitations = record letter { status = InvitationStatus.accepted; accepted_at = some 50 } ∷ [];
}

eve_joins : accept_invitation platform 50 3 77 (text "secret") none office ≡ ok (acme, eve, joined)
unfolding accept_invitation ensure_usable text_eq
eve_joins = refl

abbrev withdrawn : Directory
withdrawn = record office { invitations = record letter { status = InvitationStatus.revoked } ∷ [] }

letter-withdrawn :
    revoke_invitation platform 9 5 office
    ≡ ok (record letter { status = InvitationStatus.revoked }, withdrawn)
unfolding revoke_invitation
letter-withdrawn = refl

eve-Step : Step platform office joined
eve-Step = Step.accept 50 3 77 (text "secret") none acme eve refl eve_joins

history : Reach platform office joined
history = Reach.next Reach.here eve-Step

live_in_office : (org_id : ℕ) (email : Text) → count (is_pending_for org_id email) (letter ∷ []) ≤ 1
live_in_office org_id email = ground arith

office-IsSound : IsSound office
office-IsSound = record {
  users_unique = (refl, (refl, tt));
  invitations_unique = (refl, tt);
  one_live = live_in_office;
}

history_keeps_directory_example : IsSound joined
history_keeps_directory_example = history_keeps_directory office-IsSound history

Reach-keeps_owner_example : 0 < count_active_owners 9 joined.users
Reach-keeps_owner_example = Reach-keeps_owner 9 office-IsSound (omega arith) history

update_member_authority_example :
    (member : User) × (get 2 office.users ≡ some member)
    × (member.org_id ≡ 9)
    × (promoted.id ≡ 2)
    × (promoted.email ≡ member.email)
    × (get 2 later_office.users ≡ some promoted)
    × ((role : UserRole)
        → promote.role ≡ some role
        → (promoted.role ≡ role) × (rank role ≤ rank ada.role) × (rank member.role ≤ rank ada.role))
    × ((id : ℕ) → 2 ≢ id → get id later_office.users ≡ get id office.users)
update_member_authority_example =
    update_member_authority platform 40 9 ada 2 promote office promoted later_office promote_bob

accept_invitation_once_example :
    (accept_invitation platform 60 4 77 (text "other") none joined ≡ err DomainError.not_found)
    × (preview_invitation platform 60 77 joined ≡ err DomainError.not_found)
accept_invitation_once_example =
    accept_invitation_once platform 50 3 77 (text "secret") none office acme eve joined 60 4
      (text "other") none eve_joins

revoke_invitation_stops_example :
    (9 ≡ letter.org_id)
    × (accept_invitation platform 60 4 77 (text "other") none withdrawn ≡ err DomainError.not_found)
    × (preview_invitation platform 60 77 withdrawn ≡ err DomainError.not_found)
revoke_invitation_stops_example =
    revoke_invitation_stops platform 9 letter (record letter { status = InvitationStatus.revoked })
      office withdrawn 60 4 77 (text "other") none refl refl letter-withdrawn
