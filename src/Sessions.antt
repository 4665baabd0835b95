-- ===== src/Sessions.antt =====
-- `app/services/auth.py` with the tokens of `app/core/security.py` and the denylist of
-- `app/services/revocation.py`. Times are microseconds, and seconds where a token or a key holds
-- them. The signature of a token and the hash of a password are arguments; Redis is taken to answer.
pub mod Slug
pub mod Signup
pub mod Sound
pub mod Tests
pub mod MemberTests
use nuvrag_platform.Base.{
  ℕ, ◌+◌, ◌-◌, ◌*◌, ◌/◌, Bool, true, false, ◌&&◌, ◌||◌, not, Option, none, some, List, [], ◌∷◌,
  ◌==◌, ltb, leb, min, max, find, filter, if◌then◌else◌, is_some,
}
use nuvrag_platform.Base.Text.{Text, text, text_eq, strip}
use nuvrag_platform.Base.Rows.{Keyed, get, add, put}
use nuvrag_platform.Domain.Enums.{UserRole}
use nuvrag_platform.Domain.Errors.{DomainError, Result, err, ok, ◌>>=◌}
use nuvrag_platform.Identity.{
  User, Organization, Directory, user_row, organization_row, get_by_email,
}
use nuvrag_platform.Identity.Revocation.{issued_before_cutoff}
use nuvrag_platform.Team.{get_active_user}

abbrev pub second : ℕ
second = 1000000

pub data TokenType : Type 0 where
  access refresh : TokenType

abbrev pub same_type : TokenType → TokenType → Bool
same_type TokenType.access TokenType.access = true
same_type TokenType.refresh TokenType.refresh = true
same_type _ _ = false

-- The claims of a token; `iat` and `exp` are seconds.
pub record Payload : Type 0 where
  pub sub : ℕ
  pub org : ℕ
  pub role : UserRole
  pub token_type : TokenType
  pub iat : Option ℕ
  pub exp : ℕ
  pub jti : Option ℕ

-- A key of the denylist, with the moment at which Redis drops it.
pub record Denied : Type 0 where
  pub jti : ℕ
  pub expires_at : ℕ

instance abbrev pub denied_row : Keyed Denied
denied_row = record { key = λ d. d.jti }

-- What the service calls, and its settings.
pub record Security : Type 0 where
  pub sign : Payload → Text
  pub verify : ℕ → Text → Option Payload
  pub hash_password : Text → ℕ
  pub verify_password : Text → ℕ → Bool
  pub lower : Text → Text
  pub access_token_ttl_seconds : ℕ
  pub refresh_token_ttl_seconds : ℕ

pub record TokenPair : Type 0 where
  pub access_token : Text
  pub refresh_token : Text
  pub expires_in : ℕ

-- `_seconds_until`
unfoldable pub seconds_until : ℕ → ℕ → Option ℕ → ℕ
seconds_until now ttl none = ttl
seconds_until now ttl (some exp) = max 1 (min ((exp * second - now) / second) ttl)

-- `revoke_token`
unfoldable pub revoke_token : ℕ → ℕ → ℕ → Option ℕ → List Denied → List Denied
unfolding seconds_until
revoke_token now ttl jti exp denied =
    put (record { jti = jti; expires_at = now + seconds_until now ttl exp * second }) denied

-- `is_token_revoked`
unfoldable pub is_token_revoked : ℕ → Option ℕ → List Denied → Bool
is_token_revoked now none denied = false
is_token_revoked now (some jti) denied = elim (get jti denied) [
  | none ↦ false
  | some d ↦ ltb now d.expires_at
]

module _ (security : Security) where
  -- The claims that `create_token` signs.
  abbrev pub claims : ℕ → ℕ → User → TokenType → ℕ → Payload
  claims now jti user token_type ttl = record {
    sub = user.id;
    org = user.org_id;
    role = user.role;
    token_type = token_type;
    iat = some (now / second);
    exp = now / second + ttl;
    jti = some jti;
  }

  -- `issue_tokens`, with the fresh ids of the two tokens
  unfoldable pub issue_tokens : ℕ → ℕ × ℕ → User → TokenPair
  issue_tokens now (a, b) user = record {
    access_token =
        security.sign (claims now a user TokenType.access security.access_token_ttl_seconds);
    refresh_token =
        security.sign (claims now b user TokenType.refresh security.refresh_token_ttl_seconds);
    expires_in = security.access_token_ttl_seconds;
  }

  -- `decode_token`
  unfoldable pub decode_token : ℕ → TokenType → Text → Result Payload
  decode_token now expected token = elim (security.verify now token) [
    | none ↦ err DomainError.authentication
    | some p ↦ if same_type p.token_type expected then ok p else err DomainError.authentication
  ]

  -- The checks of `refresh_tokens` on decoded claims.
  unfoldable pub refresh_claims : ℕ → Payload → List Denied → Directory → Result User
  unfolding is_token_revoked issued_before_cutoff
  refresh_claims now p denied d =
      if is_token_revoked now p.jti denied
      then err DomainError.authentication
      else if issued_before_cutoff (now / second) p.sub p.iat d.cutoffs
      then err DomainError.authentication
      else get_active_user p.sub (filter (λ u. u.org_id == p.org) d.users)

  unfoldable pub refresh_tokens : ℕ → ℕ × ℕ → Text → List Denied → Directory → Result TokenPair
  unfolding decode_token refresh_claims issue_tokens
  refresh_tokens now jtis token denied d = decode_token now TokenType.refresh token >>= λ p.
      refresh_claims now p denied d >>= λ user. ok (issue_tokens now jtis user)

  -- `logout`; a token that cannot be read changes nothing
  unfoldable pub logout : ℕ → Text → List Denied → List Denied
  unfolding decode_token revoke_token
  logout now token denied = elim (decode_token now TokenType.refresh token) [
    | err raised ↦ denied
    | ok p ↦ elim p.jti [
      | none ↦ denied
      | some jti ↦ revoke_token now security.refresh_token_ttl_seconds jti (some p.exp) denied
    ]
  ]

  abbrev pub normalised : Text → Text
  normalised email = security.lower (strip email)

  -- The hash that a password is compared with, whether or not a user matched.
  abbrev pub reference_hash : Option User → ℕ
  reference_hash none = security.hash_password (text "timing-equaliser")
  reference_hash (some user) = user.hashed_password

  unfoldable pub authenticate : ℕ → ℕ × ℕ → Text → Text → Directory → Result (User × TokenPair)
  unfolding issue_tokens
  authenticate now jtis email password d =
      let found = get_by_email (normalised email) d.users in
      let password_ok = security.verify_password password (reference_hash found) in
      elim found [
        | none ↦ err DomainError.authentication
        | some user ↦
            if not password_ok
            then err DomainError.authentication
            else if not user.is_active
            then err DomainError.authentication
            else ok (user, issue_tokens now jtis user)
      ]

  -- The first user of a new organisation.
  abbrev pub first_user : ℕ → ℕ → Text → Text → Option Text → User
  first_user id org_id email password full_name = record {
    id = id;
    org_id = org_id;
    email = normalised email;
    hashed_password = security.hash_password password;
    full_name = elim full_name [
      | none ↦ none
      | some name ↦ elim name [ [] ↦ none | ◌∷◌ c s ↦ some (strip (c ∷ s)) ]
    ];
    role = UserRole.owner;
    is_active = true;
  }
