-- ===== src/Ai/Config.antt =====
-- `app/services/ai_config.py` and `app/schemas/ai_config.py`: saving and testing a chatbot's provider
-- configuration. Encryption and the providers are arguments; a provider's exception is what the code
-- reads of it. The caches are left out.
use nuvrag_platform.Base.{
  ℕ, Bool, false, ◌&&◌, ◌||◌, not, Option, none, some, List, [], ◌∷◌, ◌==◌, leb, ltb, if◌then◌else◌,
  length, any, is_none,
}
use nuvrag_platform.Base.Text.{Text, text, text_eq, strip, is_empty}
use nuvrag_platform.Domain.Errors.{Result, ok, ◌>>=◌}
use nuvrag_platform.Ai.{
  ChatProviderName, EmbeddingProviderName, Connection, ChatbotAiConfig, config_row,
}
use nuvrag_platform.Ai.Registry.{
  Credentials, Requirements, chat_requirements, embedding_requirements, missing_credential_fields,
  missing_connection_fields, no_fields, blank,
}

-- `str(provider)`
abbrev pub chat_name : ChatProviderName → Text
chat_name ChatProviderName.azure = text "azure"
chat_name ChatProviderName.bedrock = text "bedrock"
chat_name ChatProviderName.anthropic = text "anthropic"
chat_name ChatProviderName.ollama = text "ollama"

abbrev pub embedding_name : EmbeddingProviderName → Text
embedding_name EmbeddingProviderName.azure = text "azure"
embedding_name EmbeddingProviderName.bedrock = text "bedrock"
embedding_name EmbeddingProviderName.ollama = text "ollama"

pub record ChatTarget : Type 0 where
  pub provider : ChatProviderName
  pub model : Text
  pub connection : Connection
  pub credentials : Option Credentials

pub record EmbeddingTarget : Type 0 where
  pub provider : EmbeddingProviderName
  pub model : Text
  pub connection : Connection
  pub credentials : Option Credentials

pub record AiConfigUpdate : Type 0 where
  pub chat : ChatTarget
  pub embedding : EmbeddingTarget

pub record AiConfigTest : Type 0 where
  pub chat : Option ChatTarget
  pub embedding : Option EmbeddingTarget

-- `AIConfigUpdate.check_connection_details`
unfoldable pub check_connection_details : AiConfigUpdate → Bool
check_connection_details payload =
    no_fields
      (missing_connection_fields (chat_requirements payload.chat.provider) payload.chat.connection)
    && no_fields (
        missing_connection_fields (embedding_requirements payload.embedding.provider)
          payload.embedding.connection)

-- One exception of a chain of causes: whether it is the program's own, the statuses that it carries,
-- and whether its type is one of `_UNREACHABLE_TYPES`.
pub record Cause : Type 0 where
  pub is_domain_error : Bool
  pub own_status : Option ℕ
  pub metadata_status : Option ℕ
  pub response_status : Option ℕ
  pub unreachable : Bool

-- What a probe raises: whether it is a `TimeoutError`, and `_causes`.
pub record Failure : Type 0 where
  pub timed_out : Bool
  pub causes : List Cause

pub data ProviderCall (A : Type 0) : Type 0 where
  raises : Failure → ProviderCall A
  returns : A → ProviderCall A

abbrev pub first_of : Option ℕ → Option ℕ → Option ℕ
first_of (some a) other = some a
first_of none other = other

-- `_status_code`
unfoldable pub provider_status : List Cause → Option ℕ
provider_status [] = none
provider_status (item ∷ items) =
    let later = provider_status items in
    if item.is_domain_error
    then later
    else first_of item.own_status
        (first_of item.metadata_status (first_of item.response_status later))

-- The phrases of `_explain` and `_missing_credentials`.
pub data Phrase : Type 0 where
  no_response_in_time credentials_rejected no_such_model rate_limited provider_error : Phrase
  could_not_reach call_failed no_credentials : Phrase

-- `status in {401, 403}` and the tests after it
abbrev pub explain_status : Option ℕ → Option Phrase
explain_status none = none
explain_status (some status) =
    if (status == 401) || (status == 403)
    then some Phrase.credentials_rejected
    else if status == 404
    then some Phrase.no_such_model
    else if status == 429
    then some Phrase.rate_limited
    else if leb 500 status && ltb status 600
    then some Phrase.provider_error
    else none

-- `_explain`
unfoldable pub explain : Failure → Phrase
unfolding provider_status
explain failure =
    if failure.timed_out
    then Phrase.no_response_in_time
    else elim (explain_status (provider_status failure.causes)) [
      | some phrase ↦ phrase
      | none ↦
          if any (λ item. item.unreachable) failure.causes
          then Phrase.could_not_reach
          else Phrase.call_failed
    ]

pub data Capability : Type 0 where
  chat embedding : Capability

pub data AiConfigTestResult : Type 0 where
  passed : Option ℕ → AiConfigTestResult
  failed : Capability → Phrase → AiConfigTestResult

-- What the service calls.
pub record Providers : Type 0 where
  pub encrypt : Credentials → Text
  pub decrypt : Text → Result Credentials
  pub stream : ChatProviderName → Text → Connection → Credentials → ProviderCall Text
  pub embed : EmbeddingProviderName → Text → Connection → Credentials → ProviderCall (List (List ℕ))

abbrev pub empty_credentials : Credentials
empty_credentials = record { api_key = none; access_key_id = none; secret_access_key = none }

abbrev pub truthy : Option Text → Option Text
truthy value = if blank value then none else value

-- `ProviderCredentials.as_dict`
abbrev pub as_dict : Credentials → Credentials
as_dict c = record {
  api_key = truthy c.api_key;
  access_key_id = truthy c.access_key_id;
  secret_access_key = truthy c.secret_access_key;
}

-- `not credentials`, of a dictionary
abbrev pub is_empty_dict : Credentials → Bool
is_empty_dict c = is_none c.api_key && (is_none c.access_key_id && is_none c.secret_access_key)

-- `_embedding_changed`
unfoldable pub embedding_changed : ChatbotAiConfig → EmbeddingTarget → Bool
embedding_changed c target =
    not (text_eq (embedding_name c.embedding_provider) (embedding_name target.provider))
    || not (text_eq c.embedding_model target.model)

-- `ValueError`, which carries no status
abbrev pub value_error : Failure
value_error = record {
  timed_out = false;
  causes =
      record {
        is_domain_error = false;
        own_status = none;
        metadata_status = none;
        response_status = none;
        unreachable = false;
      }
      ∷ [];
}

-- `vectors and vectors[0]`
abbrev pub width_of_first : List (List ℕ) → Option ℕ
width_of_first [] = none
width_of_first ([] ∷ vectors) = none
width_of_first ((x ∷ xs) ∷ vectors) = some (length (x ∷ xs))

module _ (providers : Providers) where
  -- `_sealed`
  abbrev pub sealed : Credentials → Option Text
  sealed credentials =
      if is_empty_dict credentials then none else some (providers.encrypt credentials)

  -- The credentials of one half after a save.
  abbrev pub kept_or_sealed : Option Credentials → Option Text → Option Text
  kept_or_sealed none stored = stored
  kept_or_sealed (some credentials) stored = sealed (as_dict credentials)

  -- `_apply`
  unfoldable pub apply : AiConfigUpdate → ChatbotAiConfig → ChatbotAiConfig
  unfolding embedding_changed
  apply payload c = record c {
    chat_provider = payload.chat.provider;
    chat_model = payload.chat.model;
    chat_config_json = payload.chat.connection;
    embedding_provider = payload.embedding.provider;
    embedding_model = payload.embedding.model;
    embedding_config_json = payload.embedding.connection;
    chat_credentials_encrypted =
        kept_or_sealed payload.chat.credentials c.chat_credentials_encrypted;
    embedding_credentials_encrypted =
        kept_or_sealed payload.embedding.credentials c.embedding_credentials_encrypted;
    embedding_dimension =
        if embedding_changed c payload.embedding then none else c.embedding_dimension;
  }

  -- `_resolve_credentials`; none is "nothing usable"
  unfoldable pub resolve_credentials :
      Option Credentials → Requirements → Bool → Option Text → Result (Option Credentials)
  unfolding missing_credential_fields
  resolve_credentials (some supplied) requirements same_provider stored = ok (
      if no_fields (missing_credential_fields requirements (as_dict supplied))
      then some (as_dict supplied)
      else none)
  resolve_credentials none requirements same_provider none =
      ok (if no_fields requirements.credentials then some empty_credentials else none)
  resolve_credentials none requirements same_provider (some token) =
      if no_fields requirements.credentials
      then ok (some empty_credentials)
      else if not same_provider
      then ok none
      else (providers.decrypt token >>= λ credentials. ok (some credentials))

  -- `_chat_probe`
  abbrev pub chat_probe : ChatTarget → Credentials → ProviderCall Text
  chat_probe target credentials =
      let answer =
        providers.stream target.provider target.model
          (record target.connection { think = some false }) credentials in
      elim answer [
        | raises failure ↦ raises failure
        | returns spoken ↦ if is_empty (strip spoken) then raises value_error else returns spoken
      ]

  -- `_embedding_probe`
  abbrev pub embedding_probe : EmbeddingTarget → Credentials → ProviderCall ℕ
  embedding_probe target credentials =
      let answer = providers.embed target.provider target.model target.connection credentials in
      elim answer [
        | raises failure ↦ raises failure
        | returns vectors ↦ elim (width_of_first vectors) [
          | none ↦ raises value_error
          | some width ↦ returns width
        ]
      ]
