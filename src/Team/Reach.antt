-- ===== src/Team/Reach.antt =====
-- Any history of requests to the team routes of `app/api/v1/team.py`, each with the checks that
-- `app/api/deps.py` makes first. A request that fails changes nothing and is no step.
use nuvrag_platform.Base.{
  ℕ, ◌≤◌, ◌<◌, ◌≡◌, refl, false, Option, none, some, List, [], ◌∷◌, arith, count, any, count-append,
  count_of_any, count-map, Bool-cases, inl, inr,
}
use nuvrag_platform.Base.Text.{Text, text_eq_iff}
use nuvrag_platform.Base.Rows.{
  get, add, save, HasUniqueKeys, save-HasUniqueKeys, add-HasUniqueKeys, remove-HasUniqueKeys,
  map-HasUniqueKeys, get-key,
}
use nuvrag_platform.Domain.Enums.{UserRole, InvitationStatus, is_pending_invitation}
use nuvrag_platform.Domain.Errors.{ok}
use nuvrag_platform.Identity.{
  User, Invitation, Organization, Directory, user_row, invitation_row, is_active_owner,
  count_active_owners, is_pending_for,
}
use nuvrag_platform.Team.{
  Platform, MemberUpdate, get_active_user, require_role, update_member, remove_member,
  invite_member, revoke_invitation, accept_invitation, forget_inviter,
}
use nuvrag_platform.Team.Owners.{
  IsPrincipal, update_member-eq-ok, remove_member-eq-ok, update_member_keeps_owner,
  remove_member_keeps_owner,
}
use nuvrag_platform.Team.Invitations.{accept_invitation-eq-ok, invite_member-eq-ok}

-- A request that succeeds. `actor_id` is the subject of the access token, and ids are fresh.
pub data Step (p : Platform) (d : Directory) (d' : Directory) : Type 0 where
  update :
      (now actor_id user_id : ℕ) (actor u : User) (payload : MemberUpdate)
      → get_active_user actor_id d.users ≡ ok actor
      → require_role UserRole.admin actor ≡ ok actor
      → update_member p now actor.org_id actor user_id payload d ≡ ok (u, d')
      → Step p d d'
  removal :
      (now actor_id user_id : ℕ) (actor : User)
      → get_active_user actor_id d.users ≡ ok actor
      → require_role UserRole.admin actor ≡ ok actor
      → remove_member p now actor.org_id actor user_id d ≡ ok d'
      → Step p d d'
  invite :
      (now fresh_id token actor_id : ℕ) (actor : User) (address : Text) (role : UserRole)
      (i : Invitation)
      → get_active_user actor_id d.users ≡ ok actor
      → require_role UserRole.admin actor ≡ ok actor
      → get fresh_id d.invitations ≡ none
      → invite_member p now fresh_id token actor.org_id actor address role d ≡ ok (i, d')
      → Step p d d'
  revoke :
      (actor_id invitation_id : ℕ) (actor : User) (i : Invitation)
      → get_active_user actor_id d.users ≡ ok actor
      → require_role UserRole.admin actor ≡ ok actor
      → revoke_invitation p actor.org_id invitation_id d ≡ ok (i, d')
      → Step p d d'
  accept :
      (now fresh_id token : ℕ) (password : Text) (full_name : Option Text) (o : Organization)
      (u : User)
      → get fresh_id d.users ≡ none
      → accept_invitation p now fresh_id token password full_name d ≡ ok (o, u, d')
      → Step p d d'

pub data Reach (p : Platform) (d : Directory) : Directory → Type 0 where
  here : Reach p d d
  next : {e f : Directory} → Reach p d e → Step p e f → Reach p d f

-- The primary keys are distinct, and no organisation has two live invitations for one address.
pub record IsSound (d : Directory) : Type 0 where
  pub users_unique : HasUniqueKeys d.users
  pub invitations_unique : HasUniqueKeys d.invitations
  pub one_live : (org_id : ℕ) (email : Text) → count (is_pending_for org_id email) d.invitations ≤ 1

principal :
    (actor_id : ℕ) (actor : User) (d : Directory)
    → get_active_user actor_id d.users ≡ ok actor
    → IsPrincipal actor.org_id actor d
unfolding get_active_user
principal actor_id actor d h =
    let found : get actor_id d.users ≡ some actor = ground arith in
    let same = get-key actor_id d.users actor found in
    record { stored = ground arith; active = ground arith; belongs = refl }

-- One request keeps an active owner wherever there was one.
Step-keeps_owner :
    {p : Platform} {d d' : Directory}
    → Step p d d'
    → HasUniqueKeys d.users
    → (org_id : ℕ) → 0 < count_active_owners org_id d.users
    → 0 < count_active_owners org_id d'.users
unfolding revoke_invitation
Step-keeps_owner {p} {d} {d'} (update now actor_id user_id actor u payload a r h) uniq org_id pos =
    update_member_keeps_owner p now actor.org_id actor user_id payload d u d' org_id uniq
      (principal actor_id actor d a) h pos
Step-keeps_owner {p} {d} {d'} (removal now actor_id user_id actor a r h) uniq org_id pos =
    remove_member_keeps_owner p now actor.org_id actor user_id d d' org_id uniq h pos
Step-keeps_owner {p} {d} {d'} (invite now fresh_id token actor_id actor address role i a r f h) uniq
      org_id pos =
    ground (arith, invite_member-eq-ok p now fresh_id token actor.org_id actor address role d i d')
Step-keeps_owner {p} {d} {d'} (revoke actor_id invitation_id actor i a r h) uniq org_id pos =
    ground arith
Step-keeps_owner {p} {d} {d'} (accept now fresh_id token password full_name o u f h) uniq org_id
      pos =
    ground (
      arith,
      accept_invitation-eq-ok p now fresh_id token password full_name d o u d' h,
      count-append (is_active_owner org_id) d.users (u ∷ []),
    )

-- Writing a row that is not pending adds no live one.
one_live-save :
    (org_id : ℕ) (email : Text) (r : Invitation) (rows : List Invitation)
    → is_pending_invitation r.status ≡ false
    → count (is_pending_for org_id email) (save r rows) ≤ count (is_pending_for org_id email) rows
one_live-save org_id email r [] spent = omega arith
one_live-save org_id email r (x ∷ rows) spent =
    ground (arith, one_live-save org_id email r rows spent)

-- The new row is the first live one of its key, and of no other key.
one_live-add :
    (org_id : ℕ) (email : Text) (i : Invitation) (rows : List Invitation)
    → any (is_pending_for i.org_id i.email) rows ≡ false
    → count (is_pending_for org_id email) rows ≤ 1
    → count (is_pending_for org_id email) (add i rows) ≤ 1
one_live-add org_id email i rows e le = elim (Bool-cases (is_pending_for org_id email i)) [
  | inr other ↦ ground (arith, count-append (is_pending_for org_id email) rows (i ∷ []))
  | inl same ↦ ground (
    arith,
    count-append (is_pending_for org_id email) rows (i ∷ []),
    count_of_any (is_pending_for i.org_id i.email) rows e,
    (text_eq_iff i.email email).0,
  )
]

-- What a successful revocation has gone through.
revoke_invitation-eq-ok :
    (p : Platform) (org_id invitation_id : ℕ) (d : Directory) (r : Invitation) (d' : Directory)
    → revoke_invitation p org_id invitation_id d ≡ ok (r, d')
    → (old : Invitation) × (get invitation_id d.invitations ≡ some old)
      × (r.id ≡ old.id)
      × (is_pending_invitation r.status ≡ false)
      × (d'.users ≡ d.users)
      × (d'.invitations ≡ save r d.invitations)
unfolding revoke_invitation
revoke_invitation-eq-ok p org_id invitation_id d r d' h = ground arith

Step-IsSound : {p : Platform} {d d' : Directory} → Step p d d' → IsSound d → IsSound d'
Step-IsSound {p} {d} {d'} (update now actor_id user_id actor u payload a r h) s =
    let (_, _, _, _, _, users, same, _) =
      update_member-eq-ok p now actor.org_id actor user_id payload d u d' h in
    record {
      users_unique = rw users (save-HasUniqueKeys u d.users s.users_unique);
      invitations_unique = rw same s.invitations_unique;
      one_live = λ org_id email. rw same (s.one_live org_id email);
    }
Step-IsSound {p} {d} {d'} (removal now actor_id user_id actor a r h) s =
    let (m, _, _, _, _, users, invs) =
      remove_member-eq-ok p now actor.org_id actor user_id d d' h in
    record {
      users_unique = rw users (remove-HasUniqueKeys m.id d.users s.users_unique);
      invitations_unique =
          rw invs (
            map-HasUniqueKeys (forget_inviter m.id) d.invitations (λ i. refl) s.invitations_unique);
      one_live = λ org_id email.
          rw
            (
              invs,
              count-map (is_pending_for org_id email) (forget_inviter m.id) d.invitations
                  (λ i. refl),
            )
            (s.one_live org_id email);
    }
Step-IsSound {p} {d} {d'} (invite now fresh_id token actor_id actor address role i a r f h) s =
    let (_, _, free, id, org, mail, _, _, _, added, users) =
      invite_member-eq-ok p now fresh_id token actor.org_id actor address role d i d' h in
    record {
      users_unique = rw users s.users_unique;
      invitations_unique =
          rw added (add-HasUniqueKeys i d.invitations s.invitations_unique (rw id f));
      one_live = λ org_id email. rw added (
          one_live-add org_id email i d.invitations (rw (org, mail) free)
            (s.one_live org_id email));
    }
Step-IsSound {p} {d} {d'} (revoke actor_id invitation_id actor i a r h) s =
    let (old, found, id, spent, users, saved) =
      revoke_invitation-eq-ok p actor.org_id invitation_id d i d' h in
    record {
      users_unique = rw users s.users_unique;
      invitations_unique = rw saved (save-HasUniqueKeys i d.invitations s.invitations_unique);
      one_live = λ org_id email.
          ground (arith, s.one_live org_id email, one_live-save org_id email i d.invitations spent);
    }
Step-IsSound {p} {d} {d'} (accept now fresh_id token password full_name o u f h) s =
    let (i, found, _, _, _, _, id, _, _, _, _, users, saved) =
      accept_invitation-eq-ok p now fresh_id token password full_name d o u d' h in
    let spent : Invitation = record i {
      status = InvitationStatus.accepted;
      accepted_at = some now;
    } in
    record {
      users_unique = rw users (add-HasUniqueKeys u d.users s.users_unique (rw id f));
      invitations_unique = rw saved (save-HasUniqueKeys spent d.invitations s.invitations_unique);
      one_live = λ org_id email.
          ground
            (arith, s.one_live org_id email, one_live-save org_id email spent d.invitations refl);
    }

-- Along any history of requests from a sound directory, the directory stays sound: ids stay
-- distinct, and no organisation ever has two live invitations for one address.
pub history_keeps_directory : {p : Platform} {d e : Directory} → IsSound d → Reach p d e → IsSound e
history_keeps_directory s here = s
history_keeps_directory s (next r step) = Step-IsSound step (history_keeps_directory s r)

-- Along any history of requests from a sound directory, an organisation that has an active owner
-- keeps one.
pub Reach-keeps_owner :
    {p : Platform} {d e : Directory} (org_id : ℕ)
    → IsSound d
    → 0 < count_active_owners org_id d.users
    → Reach p d e
    → 0 < count_active_owners org_id e.users
Reach-keeps_owner org_id s pos here = pos
Reach-keeps_owner org_id s pos (next r step) =
    Step-keeps_owner step (history_keeps_directory s r).users_unique org_id
      (Reach-keeps_owner org_id s pos r)
