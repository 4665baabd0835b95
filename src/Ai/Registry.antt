-- ===== src/Ai/Registry.antt =====
-- `app/services/ai/registry.py` and the guards of `app/services/ai/factory.py`: what each provider
-- needs before it can be called.
use nuvrag_platform.Base.{
  ℕ, Bool, true, false, ◌&&◌, not, Option, none, some, List, [], ◌∷◌, if◌then◌else◌, filter,
}
use nuvrag_platform.Base.Text.{Text}
use nuvrag_platform.Domain.Errors.{DomainError, Result, err, ok}
use nuvrag_platform.Ai.{
  ChatProviderName, EmbeddingProviderName, Connection, ChatbotAiConfig, get_config,
}

pub data CredentialField : Type 0 where
  api_key access_key_id secret_access_key : CredentialField

pub data ConnectionField : Type 0 where
  endpoint region base_url : ConnectionField

pub record Requirements : Type 0 where
  pub credentials : List CredentialField
  pub connection : List ConnectionField

-- `ProviderCredentials`
pub record Credentials : Type 0 where
  pub api_key : Option Text
  pub access_key_id : Option Text
  pub secret_access_key : Option Text

abbrev pub chat_requirements : ChatProviderName → Requirements
chat_requirements ChatProviderName.azure = record {
  credentials = CredentialField.api_key ∷ [];
  connection = ConnectionField.endpoint ∷ [];
}
chat_requirements ChatProviderName.bedrock = record {
  credentials = CredentialField.access_key_id ∷ CredentialField.secret_access_key ∷ [];
  connection = ConnectionField.region ∷ [];
}
chat_requirements ChatProviderName.anthropic = record {
  credentials = CredentialField.api_key ∷ [];
  connection = [];
}
chat_requirements ChatProviderName.ollama = record {
  credentials = [];
  connection = ConnectionField.base_url ∷ [];
}

abbrev pub embedding_requirements : EmbeddingProviderName → Requirements
embedding_requirements EmbeddingProviderName.azure = record {
  credentials = CredentialField.api_key ∷ [];
  connection = ConnectionField.endpoint ∷ [];
}
embedding_requirements EmbeddingProviderName.bedrock = record {
  credentials = CredentialField.access_key_id ∷ CredentialField.secret_access_key ∷ [];
  connection = ConnectionField.region ∷ [];
}
embedding_requirements EmbeddingProviderName.ollama = record {
  credentials = [];
  connection = ConnectionField.base_url ∷ [];
}

-- `not value`
abbrev pub blank : Option Text → Bool
blank none = true
blank (some []) = true
blank (some (c ∷ s)) = false

abbrev pub credential : Credentials → CredentialField → Option Text
credential c CredentialField.api_key = c.api_key
credential c CredentialField.access_key_id = c.access_key_id
credential c CredentialField.secret_access_key = c.secret_access_key

abbrev pub detail : Connection → ConnectionField → Option Text
detail c ConnectionField.endpoint = c.endpoint
detail c ConnectionField.region = c.region
detail c ConnectionField.base_url = c.base_url

unfoldable pub missing_credential_fields : Requirements → Credentials → List CredentialField
missing_credential_fields requirements credentials =
    filter (λ name. blank (credential credentials name)) requirements.credentials

unfoldable pub missing_connection_fields : Requirements → Connection → List ConnectionField
missing_connection_fields requirements connection =
    filter (λ name. blank (detail connection name)) requirements.connection

abbrev pub no_fields {ℓ} : {A : Type ℓ} → List A → Bool
no_fields [] = true
no_fields (_ ∷ _) = false

unfoldable pub is_ready : Requirements → Bool → Connection → Bool
unfolding missing_connection_fields
is_ready requirements has_stored_credentials connection =
    if not (no_fields requirements.credentials) && not has_stored_credentials
    then false
    else no_fields (missing_connection_fields requirements connection)

-- `AIConfigSummary`
pub record Summary : Type 0 where
  pub chat_provider : ChatProviderName
  pub chat_model : Text
  pub chat_ready : Bool
  pub embedding_provider : EmbeddingProviderName
  pub embedding_model : Text
  pub embedding_ready : Bool
  pub embedding_dimension : Option ℕ

abbrev pub chat_is_ready : ChatbotAiConfig → Bool
chat_is_ready c =
    is_ready (chat_requirements c.chat_provider) (not (blank c.chat_credentials_encrypted))
      c.chat_config_json

abbrev pub embedding_is_ready : ChatbotAiConfig → Bool
embedding_is_ready c =
    is_ready (embedding_requirements c.embedding_provider)
      (not (blank c.embedding_credentials_encrypted)) c.embedding_config_json

abbrev pub summarise : ChatbotAiConfig → Summary
summarise c = record {
  chat_provider = c.chat_provider;
  chat_model = c.chat_model;
  chat_ready = chat_is_ready c;
  embedding_provider = c.embedding_provider;
  embedding_model = c.embedding_model;
  embedding_ready = embedding_is_ready c;
  embedding_dimension = c.embedding_dimension;
}

-- `get_summary`, from the table: a cached summary is one that was made from it
abbrev pub get_summary : ℕ → List ChatbotAiConfig → Option Summary
get_summary chatbot_id configs = elim (get_config chatbot_id configs) [
  | none ↦ none
  | some c ↦ some (summarise c)
]

unfoldable pub require_embedding_ready : ℕ → List ChatbotAiConfig → Result Summary
require_embedding_ready chatbot_id configs = elim (get_summary chatbot_id configs) [
  | none ↦ err DomainError.provider_not_configured
  | some s ↦ if s.embedding_ready then ok s else err DomainError.provider_not_configured
]

unfoldable pub require_chat_ready : ℕ → List ChatbotAiConfig → Result Summary
require_chat_ready chatbot_id configs = elim (get_summary chatbot_id configs) [
  | none ↦ err DomainError.provider_not_configured
  | some s ↦ if s.chat_ready then ok s else err DomainError.provider_not_configured
]
