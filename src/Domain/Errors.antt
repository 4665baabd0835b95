-- ===== src/Domain/Errors.antt =====
-- The errors of `app/core/exceptions.py`, and functions that return a value or raise one of them.
-- The messages are not modelled; the fields that a client acts on are.
use nuvrag_platform.Base.{ℕ, ◌≡◌, refl, ◌⊎◌, inl, inr, Bool, true, false, Option, none, some}

-- `UsageKind` of `app/services/usage.py`, which an error carries
pub data UsageKind : Type 0 where
  ingestion retrieval : UsageKind

pub data DomainError : Type 0 where
  not_found conflict validation authentication permission_denied : DomainError
  origin_not_allowed chatbot_unavailable : DomainError
  rate_limit_exceeded : ℕ → DomainError
  usage_cap_exceeded : UsageKind → ℕ → Option ℕ → DomainError
  payload_too_large unsupported_media_type upstream_service : DomainError
  provider_not_configured credentials_unreadable : DomainError
  document_processing : Bool → DomainError

-- `DomainError.status_code` of each class
abbrev pub status_code : DomainError → ℕ
status_code DomainError.not_found = 404
status_code DomainError.conflict = 409
status_code DomainError.validation = 422
status_code DomainError.authentication = 401
status_code DomainError.permission_denied = 403
status_code DomainError.origin_not_allowed = 403
status_code DomainError.chatbot_unavailable = 403
status_code (DomainError.rate_limit_exceeded _) = 429
status_code (DomainError.usage_cap_exceeded _ _ _) = 429
status_code DomainError.payload_too_large = 413
status_code DomainError.unsupported_media_type = 415
status_code DomainError.upstream_service = 502
status_code DomainError.provider_not_configured = 422
status_code DomainError.credentials_unreadable = 409
status_code (DomainError.document_processing _) = 422

-- The outcome of a function that may raise.
pub data Result {ℓ} (A : Type ℓ) : Type ℓ where
  err : DomainError → Result A
  ok : A → Result A

-- `if x is None: raise e`
abbrev pub or_raise {ℓ} : {A : Type ℓ} → Option A → DomainError → Result A
or_raise (some a) e = ok a
or_raise none e = err e

-- `if test: raise e`
abbrev pub raise_if : Bool → DomainError → Result (Unit {0})
raise_if false _ = ok tt
raise_if true e = err e

-- An exception skips what follows.
module _ {ℓ κ} {A : Type ℓ} {B : Type κ} where
  infixl 5 ◌>>=◌
  abbrev pub ◌>>=◌ : Result A → (A → Result B) → Result B
  err raised >>= next = err raised
  ok value >>= next = next value

-- A check that is followed by more.
infixl 5 ◌>>◌
abbrev pub ◌>>◌ {κ} : {B : Type κ} → Result (Unit {0}) → Result B → Result B
err raised >> next = err raised
ok _ >> next = next

-- To split on a computed outcome and keep the equation.
pub Result-cases {ℓ} :
    {A : Type ℓ} (r : Result A) → ((a : A) × (r ≡ ok a)) ⊎ ((e : DomainError) × (r ≡ err e))
Result-cases (ok a) = inl (a, refl)
Result-cases (err e) = inr (e, refl)
