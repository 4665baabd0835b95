-- ===== src/Sessions/Tests.antt =====
-- Sign-up, sessions and slugs at concrete inputs.
use nuvrag_platform.Base.{
  ◌≡◌, refl, Bool, true, false, none, some, [], ◌∷◌, ltb, ltb→lt, if◌then◌else◌, Bool-cases, inl,
  inr, arith, is_some,
}
use nuvrag_platform.Base.Text.{Text, text, text_eq}
use nuvrag_platform.Domain.Enums.{UserRole}
use nuvrag_platform.Domain.Errors.{DomainError, Result, err, ok}
use nuvrag_platform.Identity.{User, Organization, Directory, get_by_email, count_active_owners}
use nuvrag_platform.Identity.Revocation.{revoke_all_for_user}
use nuvrag_platform.Team.{get_active_user}
use nuvrag_platform.Sessions.{
  TokenType, Payload, Security, decode_token, refresh_claims, refresh_tokens, logout, issue_tokens,
  normalised,
}
use nuvrag_platform.Sessions.Slug.{IsUsable, slugify, unique_slug, unique_slug-IsUsable}
use nuvrag_platform.Sessions.Signup.{SignUp, signup, signup_owner}
use nuvrag_platform.Sessions.Sound.{Reads, logout_ends, revocation_ends}

-- A token of user 7, issued at second 100 and good for ten seconds.
abbrev issued : Payload
issued = record {
  sub = 7;
  org = 1;
  role = UserRole.owner;
  token_type = TokenType.refresh;
  iat = some 100;
  exp = 110;
  jti = some 55;
}

-- Signatures that know this one token.
abbrev office : Security
office = record {
  sign = λ p. [];
  verify = λ now token. if ltb now 110000000 then some issued else none;
  hash_password = λ password. 3;
  verify_password = λ password hash. true;
  lower = λ s. s;
  access_token_ttl_seconds = 900;
  refresh_token_ttl_seconds = 10;
}

office-Reads : Reads office [] issued
office-Reads now q read = elim (Bool-cases (ltb now 110000000)) [
  | inl alive ↦ ground (arith, ltb→lt now 110000000 alive, read)
  | inr dead ↦ ground (arith, read, dead)
]

abbrev ada : User
ada = record {
  id = 7;
  org_id = 1;
  email = text "ada";
  hashed_password = 3;
  full_name = none;
  role = UserRole.owner;
  is_active = true;
}

abbrev staffed : Directory
staffed = record { users = ada ∷ []; invitations = []; organizations = []; cutoffs = [] }

abbrev succeeds {ℓ} : {A : Type ℓ} → Result A → Bool
succeeds (err raised) = false
succeeds (ok a) = true

-- The token refreshes before it is signed out.
refreshes : succeeds (refresh_tokens office 103000000 (1, 2) [] [] staffed) ≡ true
unfolding refresh_tokens decode_token refresh_claims issue_tokens get_active_user
refreshes = refl

logout_ends_example :
    refresh_tokens office 105000000 (1, 2) [] (logout office 102500000 [] []) staffed
    ≡ err DomainError.authentication
logout_ends_example =
    logout_ends office 102500000 105000000 55 (1, 2) [] issued [] staffed office-Reads refl refl
      refl (omega arith) (inl (omega arith))

-- Signed out at second 102.5, the token refreshes again at second 109.7.
logout_gap :
    succeeds (refresh_tokens office 109700000 (1, 2) [] (logout office 102500000 [] []) staffed)
    ≡ true
unfolding refresh_tokens decode_token refresh_claims issue_tokens get_active_user logout
logout_gap = refl

revocation_ends_example :
    refresh_tokens office 105000000
      (1, 2)
      []
      []
      (record staffed { cutoffs = revoke_all_for_user 100 10 7 [] })
    ≡ err DomainError.authentication
revocation_ends_example =
    revocation_ends office 100 100 105000000 (1, 2) [] issued [] staffed office-Reads refl
      (omega arith) (omega arith)

abbrev form : SignUp
form = record {
  organization_name = text "acme co";
  email = text "bob ";
  password = text "long enough";
  full_name = none;
}

signup_owner_example :
    let (outcome, after) =
      signup office (λ s. s) 100000000 (1, 2) (5, 8) (text "ab12cd34") form staffed in
    let email = normalised office form.email in
    (is_some (get_by_email email staffed.users) ≡ true
      → (outcome ≡ err DomainError.conflict) × (after ≡ staffed))
    × (is_some (get_by_email email staffed.users) ≡ false
        → (o : Organization) × (u : User) × (outcome
            ≡ ok (o, u, issue_tokens office 100000000 (1, 2) u))
          × (after.organizations ≡ o ∷ [])
          × (after.users ≡ ada ∷ u ∷ [])
          × ((o.id ≡ 5) × (u.id ≡ 8) × (u.org_id ≡ o.id))
          × ((u.role ≡ UserRole.owner) × (u.is_active ≡ true) × (u.email ≡ email))
          × (count_active_owners 5 after.users ≡ 1)
          × (get_by_email email after.users ≡ some u))
    × (count_active_owners 1 after.users ≡ count_active_owners 1 staffed.users)
signup_owner_example =
    signup_owner office (λ s. s) 100000000 (1, 2) (5, 8) (text "ab12cd34") form staffed 1 refl refl

abbrev taken : Text → Bool
taken s = text_eq s (text "acme")

second_name : unique_slug taken (text "ab12cd34") (text "acme") 100 ≡ text "acme-2"
unfolding unique_slug text_eq
second_name = refl

name_of_company : slugify (λ s. s) (text " acme & co ") 6 (text "org") ≡ text "acme-c"
unfolding slugify
name_of_company = refl

unique_slug-IsUsable_example :
    IsUsable taken
      (text "ab12cd34")
      (text "acme")
      100
      26
      (unique_slug taken (text "ab12cd34") (text "acme") 100)
unique_slug-IsUsable_example =
    unique_slug-IsUsable taken (text "ab12cd34") (text "acme") 100 (omega arith) (omega arith)
      (omega arith)
