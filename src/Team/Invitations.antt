-- ===== src/Team/Invitations.antt =====
-- The life of an invitation: one live one per address, and a link that works once.
use nuvrag_platform.Base.{
  ap, ◌∙◌, ℕ, ◌<◌, ◌≡◌, refl, true, false, Option, none, some, List, [], ◌∷◌, arith, any,
}
use nuvrag_platform.Base.Text.{Text, strip}
use nuvrag_platform.Base.Rows.{get, save, add}
use nuvrag_platform.Domain.Enums.{UserRole, InvitationStatus, can_act_as, is_pending_invitation}
use nuvrag_platform.Domain.Errors.{DomainError, ok, err}
use nuvrag_platform.Identity.{
  User, Invitation, Organization, Directory, user_row, invitation_row, organization_row,
  get_by_email, get_by_token_hash, is_pending_for,
}
use nuvrag_platform.Team.{
  Platform, ensure_usable, invite_member, revoke_invitation, accept_invitation, preview_invitation,
}

-- Writing back the row that a token names leaves it the row that the token names.
get_by_token_hash-save :
    (h : ℕ) (i r : Invitation) (rows : List Invitation)
    → get_by_token_hash h rows ≡ some i
    → r.id ≡ i.id
    → r.token_hash ≡ i.token_hash
    → get_by_token_hash h (save r rows) ≡ some r
get_by_token_hash-save h i r [] e same_id same_hash = cc
get_by_token_hash-save h i r (x ∷ rows) e same_id same_hash =
    ground (arith, get_by_token_hash-save h i r rows)

module _ (p : Platform) where
  -- What a successful acceptance has gone through.
  pub accept_invitation-eq-ok :
      (now fresh_id token : ℕ) (password : Text) (full_name : Option Text) (d : Directory)
      (o : Organization) (u : User) (d' : Directory)
      → accept_invitation p now fresh_id token password full_name d ≡ ok (o, u, d')
      → (i : Invitation) × (get_by_token_hash (p.hash_api_key token) d.invitations ≡ some i)
        × (is_pending_invitation i.status ≡ true)
        × (now < i.expires_at)
        × (get_by_email i.email d.users ≡ none)
        × (get i.org_id d.organizations ≡ some o)
        × (u.id ≡ fresh_id)
        × (u.org_id ≡ i.org_id)
        × (u.email ≡ i.email)
        × (u.role ≡ i.role)
        × (u.is_active ≡ true)
        × (d'.users ≡ add u d.users)
        × (d'.invitations
            ≡ save
                (record i { status = InvitationStatus.accepted; accepted_at = some now })
                d.invitations)
  unfolding accept_invitation ensure_usable
  accept_invitation-eq-ok now fresh_id token password full_name d o u d' h = ground arith

  -- Both routes refuse a token whose row is not pending.
  refused_of_spent :
      (now fresh_id token : ℕ) (password : Text) (full_name : Option Text) (d : Directory)
      (i : Invitation)
      → get_by_token_hash (p.hash_api_key token) d.invitations ≡ some i
      → is_pending_invitation i.status ≡ false
      → (accept_invitation p now fresh_id token password full_name d ≡ err DomainError.not_found)
        × (preview_invitation p now token d ≡ err DomainError.not_found)
  unfolding accept_invitation preview_invitation ensure_usable
  refused_of_spent now fresh_id token password full_name d i e spent = ground arith

  -- A link works once: after an acceptance, every later use of the same token, for whatever account,
  -- gets the answer of an unknown token.
  pub accept_invitation_once :
      (now fresh_id token : ℕ) (password : Text) (full_name : Option Text) (d : Directory)
      (o : Organization) (u : User) (d' : Directory) (later other_id : ℕ) (other_password : Text)
      (other_name : Option Text)
      → accept_invitation p now fresh_id token password full_name d ≡ ok (o, u, d')
      → (accept_invitation p later other_id token other_password other_name d'
          ≡ err DomainError.not_found)
        × (preview_invitation p later token d' ≡ err DomainError.not_found)
  accept_invitation_once now fresh_id token password full_name d o u d' later other_id
        other_password other_name h =
      let (i, found, _, _, _, _, _, _, _, _, _, _, saved) =
        accept_invitation-eq-ok now fresh_id token password full_name d o u d' h in
      let spent : Invitation = record i {
        status = InvitationStatus.accepted;
        accepted_at = some now;
      } in
      refused_of_spent later other_id token other_password other_name d' spent
        (ap (get_by_token_hash (p.hash_api_key token)) saved
          ∙ get_by_token_hash-save (p.hash_api_key token) i spent d.invitations found refl refl)
        refl

  -- Revoking the row that a token names stops the token.
  pub revoke_invitation_stops :
      (org_id : ℕ) (i r : Invitation) (d d' : Directory) (later other_id token : ℕ)
      (password : Text) (full_name : Option Text)
      → get_by_token_hash (p.hash_api_key token) d.invitations ≡ some i
      → get i.id d.invitations ≡ some i
      → revoke_invitation p org_id i.id d ≡ ok (r, d')
      → (r.org_id ≡ org_id)
        × (accept_invitation p later other_id token password full_name d'
            ≡ err DomainError.not_found)
        × (preview_invitation p later token d' ≡ err DomainError.not_found)
  unfolding revoke_invitation
  revoke_invitation_stops org_id i r d d' later other_id token password full_name named here h =
      let spent : Invitation = record i { status = InvitationStatus.revoked } in
      let saved : d'.invitations ≡ save spent d.invitations = ground arith in
      let (no_account, no_page) =
        refused_of_spent later other_id token password full_name d' spent
          (ap (get_by_token_hash (p.hash_api_key token)) saved
            ∙ get_by_token_hash-save (p.hash_api_key token) i spent d.invitations named refl refl)
          refl in
      (ground arith, no_account, no_page)

  -- What a successful invitation has gone through.
  pub invite_member-eq-ok :
      (now fresh_id token org_id : ℕ) (actor : User) (address : Text) (role : UserRole)
      (d : Directory) (i : Invitation) (d' : Directory)
      → invite_member p now fresh_id token org_id actor address role d ≡ ok (i, d')
      → (can_act_as actor.role role ≡ true)
        × (get_by_email (p.lower (strip address)) d.users ≡ none)
        × (any (is_pending_for org_id (p.lower (strip address))) d.invitations ≡ false)
        × (i.id ≡ fresh_id)
        × (i.org_id ≡ org_id)
        × (i.email ≡ p.lower (strip address))
        × (i.role ≡ role)
        × (get_by_token_hash (p.hash_api_key token) d.invitations ≡ none)
        × (i.token_hash ≡ p.hash_api_key token)
        × (d'.invitations ≡ add i d.invitations)
        × (d'.users ≡ d.users)
  unfolding invite_member
  invite_member-eq-ok now fresh_id token org_id actor address role d i d' h = ground arith
