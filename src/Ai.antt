-- ===== src/Ai.antt =====
-- `app/models/chatbot_ai_config.py` and the names of `app/models/enums.py` that it stores: which
-- providers one chatbot talks to.
pub mod Reasoning
pub mod Tags
pub mod Filtered
pub mod Registry
pub mod Config
pub mod Saving
pub mod Widths
pub mod Aligned
pub mod Ingested
pub mod Wide
pub mod Operations
pub mod Embedding
pub mod Kept
pub mod Tests
use nuvrag_platform.Base.{ℕ, Bool, Option, List, ◌==◌, find}
use nuvrag_platform.Base.Text.{Text}
use nuvrag_platform.Base.Rows.{Keyed}

pub data ChatProviderName : Type 0 where
  azure bedrock anthropic ollama : ChatProviderName

pub data EmbeddingProviderName : Type 0 where
  azure bedrock ollama : EmbeddingProviderName

-- What a connection's `model_dump` holds; only that of a chat model has `think`.
pub record Connection : Type 0 where
  pub endpoint : Option Text
  pub api_version : Option Text
  pub region : Option Text
  pub base_url : Option Text
  pub think : Option Bool

pub record ChatbotAiConfig : Type 0 where
  pub id : ℕ
  pub org_id : ℕ
  pub chatbot_id : ℕ
  pub chat_provider : ChatProviderName
  pub chat_model : Text
  pub chat_credentials_encrypted : Option Text
  pub chat_config_json : Connection
  pub embedding_provider : EmbeddingProviderName
  pub embedding_model : Text
  pub embedding_credentials_encrypted : Option Text
  pub embedding_config_json : Connection
  pub embedding_dimension : Option ℕ

instance abbrev pub config_row : Keyed ChatbotAiConfig
config_row = record { key = λ c. c.id }

-- `ChatbotAIConfigRepository.get_for_chatbot`
abbrev pub get_config : ℕ → List ChatbotAiConfig → Option ChatbotAiConfig
get_config chatbot_id = find (λ c. c.chatbot_id == chatbot_id)
