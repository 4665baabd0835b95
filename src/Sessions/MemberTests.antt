-- ===== src/Sessions/MemberTests.antt =====
-- The session of a member whose role changes, at concrete inputs.
use nuvrag_platform.Base.{
  ◌≡◌, refl, true, none, some, [], ltb, ltb→lt, if◌then◌else◌, Bool-cases, inl, inr, arith,
}
use nuvrag_platform.Domain.Enums.{UserRole}
use nuvrag_platform.Domain.Errors.{DomainError, err}
use nuvrag_platform.Sessions.{TokenType, Payload, Security, refresh_tokens}
use nuvrag_platform.Sessions.Sound.{Reads, update_member_ends}
use nuvrag_platform.Team.Tests.{platform, ada, promote, office, promoted, later_office, promote_bob}

-- A token of the member, issued just before the update.
abbrev issued : Payload
issued = record {
  sub = 2;
  org = 9;
  role = UserRole.member;
  token_type = TokenType.refresh;
  iat = some 39;
  exp = 60;
  jti = none;
}

-- Signatures that know this one token.
abbrev signatures : Security
signatures = record {
  sign = λ p. [];
  verify = λ now token. if ltb now 60000000 then some issued else none;
  hash_password = λ password. 3;
  verify_password = λ password hash. true;
  lower = λ s. s;
  access_token_ttl_seconds = 900;
  refresh_token_ttl_seconds = 21;
}

signatures-Reads : Reads signatures [] issued
signatures-Reads now q read = elim (Bool-cases (ltb now 60000000)) [
  | inl alive ↦ ground (arith, ltb→lt now 60000000 alive, read)
  | inr dead ↦ ground (arith, read, dead)
]

update_member_ends_example :
    refresh_tokens signatures 45000000 (1, 2) [] [] later_office ≡ err DomainError.authentication
update_member_ends_example =
    update_member_ends signatures platform 40 9 ada promote office promoted later_office 39 45000000
      (1, 2) [] issued [] signatures-Reads promote_bob refl (omega arith) (omega arith)
