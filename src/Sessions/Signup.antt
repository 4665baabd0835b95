-- ===== src/Sessions/Signup.antt =====
-- `signup` of `app/services/auth.py`: a new organisation with its owner.
use nuvrag_platform.Base.{
  ℕ, ◌≡◌, refl, ◌∙◌, Bool, true, false, Option, none, some, List, [], ◌∷◌, ◌++◌, arith, ◌==◌,
  count-append, find, Option-cases, inl, inr, is_some, find-append_none,
}
use nuvrag_platform.Base.Text.{Text, text, text_eq, text_eq_iff, strip}
use nuvrag_platform.Base.Rows.{add}
use nuvrag_platform.Domain.Enums.{UserRole}
use nuvrag_platform.Domain.Errors.{DomainError, Result, err, ok}
use nuvrag_platform.Identity.{
  User, Organization, Directory, user_row, organization_row, get_by_email, count_active_owners,
  is_active_owner,
}
use nuvrag_platform.Sessions.{Security, TokenPair, issue_tokens, normalised, first_user}
use nuvrag_platform.Sessions.Slug.{slugify, unique_slug}

abbrev pub slug_max_length : ℕ
slug_max_length = 100

-- `slug_taken`
abbrev pub slug_taken : List Organization → Text → Bool
slug_taken organizations candidate = is_some (find (λ o. text_eq o.slug candidate) organizations)

pub record SignUp : Type 0 where
  pub organization_name : Text
  pub email : Text
  pub password : Text
  pub full_name : Option Text

module _ (security : Security) (fold : Text → Text) (now : ℕ) (jtis : ℕ × ℕ) (ids : ℕ × ℕ)
    (token : Text) where
  abbrev pub new_organization : SignUp → List Organization → Organization
  new_organization form organizations = record {
    id = ids.0;
    name = strip form.organization_name;
    slug =
        unique_slug (slug_taken organizations) token
          (slugify fold form.organization_name slug_max_length (text "org")) slug_max_length;
  }

  abbrev pub owner_of : SignUp → User
  owner_of form = first_user security ids.1 ids.0 form.email form.password form.full_name

  unfoldable pub signup : SignUp → Directory → Result (Organization × User × TokenPair) × Directory
  unfolding issue_tokens
  signup form d = elim (get_by_email (normalised security form.email) d.users) [
    | some other ↦ (err DomainError.conflict, d)
    | none ↦ (
      ok (
        new_organization form d.organizations,
        owner_of form,
        issue_tokens security now jtis (owner_of form),
      ),
      record d {
        organizations = add (new_organization form d.organizations) d.organizations;
        users = add (owner_of form) d.users;
      },
    )
  ]

  -- Signing up with an address that an account already has is refused as a conflict and changes nothing.
  -- With any other address it returns the new organisation, its owner and tokens for that owner, adds
  -- just these two rows, and leaves the organisation with exactly one active owner, whom the address
  -- then finds. Either way every other organisation keeps its number of active owners. The
  -- organisation's id is taken to be new.
  pub signup_owner :
      (form : SignUp) (d : Directory) (other : ℕ)
      → count_active_owners ids.0 d.users ≡ 0
      → (ids.0 == other) ≡ false
      → let (outcome, after) = signup form d in
        let email = normalised security form.email in
        (is_some (get_by_email email d.users) ≡ true
          → (outcome ≡ err DomainError.conflict) × (after ≡ d))
        × (is_some (get_by_email email d.users) ≡ false
            → (o : Organization) × (u : User) × (outcome
                ≡ ok (o, u, issue_tokens security now jtis u))
              × (after.organizations ≡ d.organizations ++ o ∷ [])
              × (after.users ≡ d.users ++ u ∷ [])
              × ((o.id ≡ ids.0) × (u.id ≡ ids.1) × (u.org_id ≡ o.id))
              × ((u.role ≡ UserRole.owner) × (u.is_active ≡ true) × (u.email ≡ email))
              × (count_active_owners ids.0 after.users ≡ 1)
              × (get_by_email email after.users ≡ some u))
        × (count_active_owners other after.users ≡ count_active_owners other d.users)
  unfolding signup
  signup_owner form d other fresh apart =
      let email = normalised security form.email in
      elim (Option-cases (get_by_email email d.users)) [
        | inr (x, found) ↦ rw (found, signup) ((λ h. (refl, refl)), (λ h. cc), refl)
        | inl free ↦
            rw (free, signup)
              (
                (λ h. cc),
                (λ h. (
                  new_organization form d.organizations,
                  owner_of form,
                  refl,
                  refl,
                  refl,
                  (refl, refl, refl),
                  (refl, refl, refl),
                  ground (
                    arith,
                    count-append (is_active_owner ids.0) d.users (owner_of form ∷ []),
                    fresh,
                  ),
                  find-append_none (λ u. text_eq u.email email) d.users (owner_of form ∷ []) free
                      ∙ rw ((text_eq_iff email email).1 refl) refl,
                )),
                ground (
                  arith,
                  count-append (is_active_owner other) d.users (owner_of form ∷ []),
                  apart,
                ),
              )
      ]
