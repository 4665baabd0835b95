-- ===== src/Sessions/Sound.antt =====
-- Sessions that are ended do not come back.
use nuvrag_platform.Base.{
  ℕ, ◌+◌, ◌*◌, ◌/◌, ◌≤◌, ◌<◌, ◌≡◌, refl, ◌∙◌, true, none, some, List, arith, lt→ltb, le→leb, ◌⊎◌,
  Option-cases, Bool-cases, inl, inr,
}
use nuvrag_platform.Base.Text.{Text}
use nuvrag_platform.Base.Rows.{get-put}
use nuvrag_platform.Domain.Errors.{ok, DomainError, err}
use nuvrag_platform.Identity.{User, Directory, cutoff_row, user_row}
use nuvrag_platform.Identity.Revocation.{revoke_all_for_user, issued_before_cutoff, revoke_all_lem}
use nuvrag_platform.Team.{Platform, MemberUpdate, update_member}
use nuvrag_platform.Team.Members.{update_member_revokes}
use nuvrag_platform.Sessions.{
  second, TokenType, same_type, Payload, Denied, denied_row, Security, seconds_until, revoke_token,
  is_token_revoked, decode_token, refresh_claims, refresh_tokens, logout,
}

-- A token is read as the claims that were signed, and only before they expire.
abbrev pub Reads : Security → Text → Payload → Type 0
Reads security token p =
    (now : ℕ) (q : Payload) → security.verify now token ≡ some q → (q ≡ p) × (now < p.exp * second)

denied_long_enough :
    (now later ttl exp : ℕ)
    → exp * 1000000 ≤ now + ttl * 1000000
    → later + 1000000 ≤ exp * 1000000
    → later < now + seconds_until now ttl (some exp) * 1000000
unfolding seconds_until
denied_long_enough now later ttl exp h k = omega (arith, h, k)

is_token_revoked-revoke_token :
    (now later ttl jti exp : ℕ) (denied : List Denied)
    → exp * 1000000 ≤ now + ttl * 1000000
    → later + 1000000 ≤ exp * 1000000
    → is_token_revoked later (some jti) (revoke_token now ttl jti (some exp) denied) ≡ true
unfolding is_token_revoked revoke_token
is_token_revoked-revoke_token now later ttl jti exp denied h k =
    let d : Denied = record {
      jti = jti;
      expires_at = now + seconds_until now ttl (some exp) * second;
    } in
    ground (
      arith,
      get-put jti d denied,
      denied_long_enough now later ttl exp h k,
      lt→ltb later (now + seconds_until now ttl (some exp) * 1000000),
    )

module _ (security : Security) where
  -- What a refresh is refused for.
  refresh_refused :
      (now : ℕ) (jtis : ℕ × ℕ) (token : Text) (p : Payload) (denied : List Denied) (d : Directory)
      → Reads security token p
      → (now < p.exp * second
          → refresh_claims security now p denied d ≡ err DomainError.authentication)
      → refresh_tokens security now jtis token denied d ≡ err DomainError.authentication
  unfolding refresh_tokens decode_token
  refresh_refused now jtis token p denied d reads refused =
      elim (Option-cases (security.verify now token)) [
        | inl unreadable ↦ rw (unreadable, refresh_tokens, decode_token) refl
        | inr (q, read) ↦
            let (same, alive) = reads now q read in
            rw (read, refresh_tokens, decode_token)
              (rw same (elim (Bool-cases (same_type p.token_type TokenType.refresh)) [
                | inl fits ↦ rw fits (rw (refused alive) refl)
                | inr other ↦ rw other refl
              ]))
      ]

  logout-revoked :
      (now jti : ℕ) (token : Text) (p : Payload) (denied : List Denied)
      → security.verify now token ≡ some p
      → same_type p.token_type TokenType.refresh ≡ true
      → p.jti ≡ some jti
      → logout security now token denied
        ≡ revoke_token now security.refresh_token_ttl_seconds jti (some p.exp) denied
  unfolding logout decode_token
  logout-revoked now jti token p denied read fits named =
      rw (read, logout, decode_token) (rw fits (rw named refl))

  -- A session that was signed out does not refresh again: a refresh token that `logout` could read,
  -- with an id and no more life left than a refresh token has, is refused at every moment up to the
  -- last second before it expires, and from its expiry on. Tokens are read as they were signed.
  pub logout_ends :
      (now later jti : ℕ) (jtis : ℕ × ℕ) (token : Text) (p : Payload) (denied : List Denied)
      (d : Directory)
      → Reads security token p
      → security.verify now token ≡ some p
      → same_type p.token_type TokenType.refresh ≡ true
      → p.jti ≡ some jti
      → p.exp * second ≤ now + security.refresh_token_ttl_seconds * second
      → (later + second ≤ p.exp * second) ⊎ (p.exp * second ≤ later)
      → refresh_tokens security later jtis token (logout security now token denied) d
        ≡ err DomainError.authentication
  unfolding refresh_claims
  logout_ends now later jti jtis token p denied d reads read fits named life moment =
      refresh_refused later jtis token p (logout security now token denied) d reads (λ alive.
        let early : later + 1000000 ≤ p.exp * 1000000 = ground (arith, moment, alive) in
        rw (logout-revoked now jti token p denied read fits named) (
          rw named (
            rw
              (is_token_revoked-revoke_token now later security.refresh_token_ttl_seconds jti p.exp
                denied life early)
              refl)))

  -- Once all sessions of a user are revoked, no refresh token of theirs that was issued up to that
  -- second ever refreshes again, at no moment, where no token lives longer than the cut-off is kept:
  -- before its expiry the cut-off refuses it, and afterwards its signature check does. Tokens are
  -- read as they were signed.
  pub revocation_ends :
      (revoked_at issued_at now : ℕ) (jtis : ℕ × ℕ) (token : Text) (p : Payload)
      (denied : List Denied) (d : Directory)
      → Reads security token p
      → p.iat ≡ some issued_at
      → issued_at ≤ revoked_at
      → p.exp ≤ revoked_at + security.refresh_token_ttl_seconds
      → refresh_tokens security now jtis token denied (record d {
        cutoffs = revoke_all_for_user revoked_at security.refresh_token_ttl_seconds p.sub d.cutoffs;
      })
        ≡ err DomainError.authentication
  unfolding refresh_claims
  revocation_ends revoked_at issued_at now jtis token p denied d reads issued early life =
      let ttl = security.refresh_token_ttl_seconds in
      let after = record d { cutoffs = revoke_all_for_user revoked_at ttl p.sub d.cutoffs } in
      refresh_refused now jtis token p denied after reads (λ alive.
        let within : now / 1000000 < revoked_at + ttl = omega (arith, alive, life) in
        let judged =
          (revoke_all_lem revoked_at ttl (now / 1000000) p.sub issued_at p.sub none d.cutoffs
            within).0 in
        let caught : issued_before_cutoff (now / 1000000) p.sub p.iat after.cutoffs ≡ true =
          rw issued (judged ∙ le→leb issued_at revoked_at early) in
        rw caught (elim (Bool-cases (is_token_revoked now p.jti denied)) [
          | inl hit ↦ rw hit refl
          | inr miss ↦ rw miss refl
        ]))

  -- After a successful update of a member, no refresh token of theirs that was issued up to that second
  -- refreshes again, at no moment, where no token lives longer than the cut-off is kept. Tokens are read
  -- as they were signed.
  pub update_member_ends :
      (platform : Platform) (updated_at org_id : ℕ) (actor : User) (payload : MemberUpdate)
      (d : Directory) (u : User) (d' : Directory) (issued_at now : ℕ) (jtis : ℕ × ℕ) (token : Text)
      (p : Payload) (denied : List Denied)
      → Reads security token p
      → update_member platform updated_at org_id actor p.sub payload d ≡ ok (u, d')
      → p.iat ≡ some issued_at
      → issued_at ≤ updated_at
      → p.exp ≤ updated_at + platform.refresh_token_ttl_seconds
      → refresh_tokens security now jtis token denied d' ≡ err DomainError.authentication
  unfolding refresh_claims
  update_member_ends platform updated_at org_id actor payload d u d' issued_at now jtis token p
        denied reads updated issued early life =
      refresh_refused now jtis token p denied d' reads (λ alive.
        let within : now / 1000000 < updated_at + platform.refresh_token_ttl_seconds =
          omega (arith, alive, life) in
        let judged =
          update_member_revokes platform updated_at org_id actor p.sub payload d u d'
            (now / 1000000) issued_at updated early within in
        let caught : issued_before_cutoff (now / 1000000) p.sub p.iat d'.cutoffs ≡ true =
          rw issued judged in
        rw caught (elim (Bool-cases (is_token_revoked now p.jti denied)) [
          | inl hit ↦ rw hit refl
          | inr miss ↦ rw miss refl
        ]))
