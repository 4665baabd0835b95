-- ===== src/Ai/Saving.antt =====
-- `get_config`, `save_config` and `test_config` of `app/services/ai_config.py`, on the tables that
-- they share with the ingestion.
use nuvrag_platform.Base.{
  ℕ, Bool, false, ◌&&◌, not, Option, none, some, List, [], ◌∷◌, ◌==◌, ltb, find, count,
  if◌then◌else◌, is_none,
}
use nuvrag_platform.Base.Text.{Text, text_eq}
use nuvrag_platform.Base.Rows.{Keyed, save, add}
use nuvrag_platform.Domain.Errors.{DomainError, Result, err, ok, ◌>>=◌}
use nuvrag_platform.Memory.{CalibrationState}
use nuvrag_platform.Ai.{ChatbotAiConfig, config_row, get_config}
use nuvrag_platform.Ai.Registry.{
  Credentials, chat_requirements, embedding_requirements, blank, chat_is_ready, embedding_is_ready,
}
use nuvrag_platform.Ai.Config.{
  ChatTarget, EmbeddingTarget, AiConfigUpdate, AiConfigTest, ProviderCall, Phrase, explain,
  Capability, AiConfigTestResult, Providers, apply, empty_credentials, embedding_changed,
  embedding_name, chat_name, resolve_credentials, chat_probe, embedding_probe, width_of_first,
}
use nuvrag_platform.Documents.{DocumentChunk, Library}
use nuvrag_platform.Documents.Pipeline.{record_embedding_dimension}

-- What a save reads and changes of a chatbot.
pub record Chatbot : Type 0 where
  pub id : ℕ
  pub org_id : ℕ
  pub floor : CalibrationState

instance abbrev pub chatbot_row : Keyed Chatbot
chatbot_row = record { key = λ c. c.id }

pub record Workspace : Type 0 where
  pub chatbots : List Chatbot
  pub library : Library

-- `ChatbotRepository.get_for_org`
abbrev pub chatbot_for_org : ℕ → ℕ → List Chatbot → Option Chatbot
chatbot_for_org chatbot_id org_id = find (λ c. (c.id == chatbot_id) && (c.org_id == org_id))

-- `_has_chunks`
abbrev pub has_chunks : ℕ → List DocumentChunk → Bool
has_chunks chatbot_id chunks = ltb 0 (count (λ c. c.chatbot_id == chatbot_id) chunks)

-- `calibration.clear`
abbrev pub clear : Chatbot → Chatbot
clear c = record c { floor = record c.floor { calibrated = none } }

-- `_read`
pub record AiConfigRead : Type 0 where
  pub config : ChatbotAiConfig
  pub chat_ready : Bool
  pub chat_credentials_set : Bool
  pub embedding_ready : Bool
  pub embedding_credentials_set : Bool
  pub embedding_locked : Bool

abbrev pub read : ChatbotAiConfig → Bool → AiConfigRead
read c locked = record {
  config = c;
  chat_ready = chat_is_ready c;
  chat_credentials_set = not (blank c.chat_credentials_encrypted);
  embedding_ready = embedding_is_ready c;
  embedding_credentials_set = not (blank c.embedding_credentials_encrypted);
  embedding_locked = locked;
}

unfoldable pub get_config_read : ℕ → ℕ → Workspace → Result AiConfigRead
get_config_read org_id chatbot_id w = elim (chatbot_for_org chatbot_id org_id w.chatbots) [
  | none ↦ err DomainError.not_found
  | some chatbot ↦ elim (get_config chatbot_id w.library.configs) [
    | none ↦ err DomainError.not_found
    | some c ↦ ok (read c (has_chunks chatbot_id w.library.chunks))
  ]
]

-- A configuration that is saved for the first time, before `_apply`.
abbrev pub new_config : ℕ → ℕ → ℕ → AiConfigUpdate → ChatbotAiConfig
new_config id org_id chatbot_id payload = record {
  id = id;
  org_id = org_id;
  chatbot_id = chatbot_id;
  chat_provider = payload.chat.provider;
  chat_model = payload.chat.model;
  chat_credentials_encrypted = none;
  chat_config_json = record {
    endpoint = none;
    api_version = none;
    region = none;
    base_url = none;
    think = none;
  };
  embedding_provider = payload.embedding.provider;
  embedding_model = payload.embedding.model;
  embedding_credentials_encrypted = none;
  embedding_config_json = record {
    endpoint = none;
    api_version = none;
    region = none;
    base_url = none;
    think = none;
  };
  embedding_dimension = none;
}

abbrev pub with_configs : Library → List ChatbotAiConfig → Library
with_configs lib configs = record lib { configs = configs }

-- `_record and not _embedding_changed(stored, payload.embedding)`
abbrev pub proves_stored : Option ChatbotAiConfig → EmbeddingTarget → Bool
proves_stored none target = false
proves_stored (some c) target = is_none c.embedding_dimension && not (embedding_changed c target)

module _ (providers : Providers) where
  abbrev pub stored_credentials : Option Text → Result Credentials
  stored_credentials none = ok empty_credentials
  stored_credentials (some []) = ok empty_credentials
  stored_credentials (some (c ∷ s)) = providers.decrypt (c ∷ s)

  -- The measurement of `_discover_dimension`; whatever is raised, nothing is measured.
  unfoldable pub measure : ChatbotAiConfig → Option ℕ
  measure c = elim (stored_credentials c.embedding_credentials_encrypted) [
    | err raised ↦ none
    | ok credentials ↦
        elim (providers.embed c.embedding_provider c.embedding_model c.embedding_config_json
          credentials) [
            | ProviderCall.raises failure ↦ none
            | ProviderCall.returns vectors ↦ width_of_first vectors
          ]
  ]

  -- `_discover_dimension`: what it records, and the width that the answer reports.
  unfoldable pub discover :
      ℕ → ChatbotAiConfig → List ChatbotAiConfig → Option ℕ × List ChatbotAiConfig
  unfolding measure record_embedding_dimension
  discover chatbot_id c configs = elim (measure c) [
    | none ↦ (c.embedding_dimension, configs)
    | some width ↦ (some width, record_embedding_dimension chatbot_id width configs)
  ]

  -- After the transaction: the width is measured where none is recorded.
  unfoldable pub concluded :
      ℕ → ChatbotAiConfig → Bool → Workspace → Result AiConfigRead × Workspace
  unfolding discover
  concluded chatbot_id c locked w =
      if is_none c.embedding_dimension
      then (let (width, configs) = discover chatbot_id c w.library.configs in
          (
            ok (read (record c { embedding_dimension = width }) locked),
            record w { library = with_configs w.library configs },
          ))
      else (ok (read c locked), w)

  -- `save_config` of a validated payload; `id` is that of a new row.
  unfoldable pub save_config :
      ℕ → ℕ → ℕ → AiConfigUpdate → Workspace → Result AiConfigRead × Workspace
  unfolding apply concluded
  save_config id org_id chatbot_id payload w = elim (chatbot_for_org chatbot_id org_id w.chatbots) [
    | none ↦ (err DomainError.not_found, w)
    | some chatbot ↦
        let locked = has_chunks chatbot_id w.library.chunks in
        elim (get_config chatbot_id w.library.configs) [
          | none ↦
              let c = apply providers payload (new_config id org_id chatbot_id payload) in
              concluded chatbot_id c locked
                (record w { library = with_configs w.library (add c w.library.configs) })
          | some stored ↦
              let c = apply providers payload stored in
              let moved = embedding_changed stored payload.embedding in
              if moved && locked
              then (err DomainError.conflict, w)
              else concluded chatbot_id c locked (record {
                chatbots = if moved then save (clear chatbot) w.chatbots else w.chatbots;
                library = with_configs w.library (save c w.library.configs);
              })
        ]
  ]

  -- The chat half of a test; none is a pass.
  unfoldable pub test_chat :
      Option ChatTarget → Option ChatbotAiConfig → Result (Option AiConfigTestResult)
  unfolding resolve_credentials
  test_chat none stored = ok none
  test_chat (some target) stored =
      let credentials =
        resolve_credentials providers target.credentials (chat_requirements target.provider)
          (elim stored [
            | none ↦ false
            | some c ↦ text_eq (chat_name c.chat_provider) (chat_name target.provider)
          ])
          (elim stored [ none ↦ none | some c ↦ c.chat_credentials_encrypted ]) in
      credentials >>= λ resolved. ok (elim resolved [
        | none ↦ some (AiConfigTestResult.failed Capability.chat Phrase.no_credentials)
        | some supplied ↦ elim (chat_probe providers target supplied) [
          | ProviderCall.raises failure ↦
              some (AiConfigTestResult.failed Capability.chat (explain failure))
          | ProviderCall.returns spoken ↦ none
        ]
      ])

  -- After the probe of the embedding half: the verdict, and the width where the stored row is proven.
  unfoldable pub probed :
      ℕ
      → EmbeddingTarget
      → Option ChatbotAiConfig
      → List ChatbotAiConfig
      → ProviderCall ℕ
      → Result AiConfigTestResult × List ChatbotAiConfig
  unfolding record_embedding_dimension
  probed chatbot_id target stored configs (ProviderCall.raises failure) =
      (ok (AiConfigTestResult.failed Capability.embedding (explain failure)), configs)
  probed chatbot_id target stored configs (ProviderCall.returns width) = (
    ok (AiConfigTestResult.passed (some width)),
    if proves_stored stored target
        then record_embedding_dimension chatbot_id width configs
        else configs,
  )

  -- After the credentials of the embedding half are resolved.
  unfoldable pub resolved_embedding :
      ℕ
      → EmbeddingTarget
      → Option ChatbotAiConfig
      → List ChatbotAiConfig
      → Result (Option Credentials)
      → Result AiConfigTestResult × List ChatbotAiConfig
  unfolding probed
  resolved_embedding chatbot_id target stored configs (err raised) = (err raised, configs)
  resolved_embedding chatbot_id target stored configs (ok none) =
      (ok (AiConfigTestResult.failed Capability.embedding Phrase.no_credentials), configs)
  resolved_embedding chatbot_id target stored configs (ok (some supplied)) =
      probed chatbot_id target stored configs (embedding_probe providers target supplied)

  -- The embedding half, which may record the width.
  unfoldable pub test_embedding :
      ℕ
      → Option EmbeddingTarget
      → Option ChatbotAiConfig
      → List ChatbotAiConfig
      → Result AiConfigTestResult × List ChatbotAiConfig
  unfolding resolve_credentials resolved_embedding
  test_embedding chatbot_id none stored configs = (ok (AiConfigTestResult.passed none), configs)
  test_embedding chatbot_id (some target) stored configs =
      resolved_embedding chatbot_id target stored configs (
        resolve_credentials providers target.credentials (embedding_requirements target.provider)
          (elim stored [
            | none ↦ false
            | some c ↦
                text_eq (embedding_name c.embedding_provider) (embedding_name target.provider)
          ])
          (elim stored [ none ↦ none | some c ↦ c.embedding_credentials_encrypted ]))

  -- After the chat half.
  unfoldable pub tested_chat :
      ℕ
      → Option EmbeddingTarget
      → Option ChatbotAiConfig
      → List ChatbotAiConfig
      → Result (Option AiConfigTestResult)
      → Result AiConfigTestResult × List ChatbotAiConfig
  unfolding test_embedding
  tested_chat chatbot_id target stored configs (err raised) = (err raised, configs)
  tested_chat chatbot_id target stored configs (ok (some verdict)) = (ok verdict, configs)
  tested_chat chatbot_id target stored configs (ok none) =
      test_embedding chatbot_id target stored configs

  unfoldable pub test_config :
      ℕ → AiConfigTest → List ChatbotAiConfig → Result AiConfigTestResult × List ChatbotAiConfig
  unfolding test_chat tested_chat
  test_config chatbot_id payload configs =
      let stored = get_config chatbot_id configs in
      tested_chat chatbot_id payload.embedding stored configs (test_chat payload.chat stored)
