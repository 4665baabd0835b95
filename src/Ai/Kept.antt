-- ===== src/Ai/Kept.antt =====
-- What a save keeps of credentials, and what a later test calls the provider with.
use nuvrag_platform.Base.{
  ℕ, ◌≡◌, refl, ap, ◌∙◌, Bool, true, false, ◌&&◌, Option, none, some, List, [], ◌∷◌, ◌==◌, arith,
  if◌then◌else◌, is_none, find-append_none, Bool-cases, Option-cases, inl, inr,
}
use nuvrag_platform.Base.Text.{Text, text_eq}
use nuvrag_platform.Base.Rows.{save, add}
use nuvrag_platform.Domain.Errors.{ok}
use nuvrag_platform.Ai.{EmbeddingProviderName, ChatbotAiConfig, config_row, get_config}
use nuvrag_platform.Ai.Registry.{
  Credentials, embedding_requirements, missing_credential_fields, no_fields,
}
use nuvrag_platform.Ai.Config.{
  AiConfigUpdate, AiConfigTest, EmbeddingTarget, Providers, apply, as_dict, is_empty_dict, sealed,
  resolve_credentials, embedding_changed, embedding_name,
}
use nuvrag_platform.Ai.Saving.{
  Workspace, AiConfigRead, chatbot_row, with_configs, save_config, concluded, discover, measure,
  chatbot_for_org, has_chunks, clear, new_config, test_config, test_chat, tested_chat,
  test_embedding, resolved_embedding, probed,
}
use nuvrag_platform.Documents.Pipeline.{record_embedding_dimension}
use nuvrag_platform.Documents.Idempotent.{get_config-save}

-- A provider that needs credentials is not satisfied by none.
complete_not_empty :
    (provider : EmbeddingProviderName) (c : Credentials)
    → no_fields (embedding_requirements provider).credentials ≡ false
    → no_fields (missing_credential_fields (embedding_requirements provider) (as_dict c)) ≡ true
    → is_empty_dict (as_dict c) ≡ false
unfolding missing_credential_fields
complete_not_empty EmbeddingProviderName.azure c needs complete = ground (arith, complete)
complete_not_empty EmbeddingProviderName.bedrock c needs complete = ground (arith, complete)
complete_not_empty EmbeddingProviderName.ollama c needs complete = ground (arith, needs)

-- What a test resolves from credentials that a save has stored, and from the same ones when given.
resolve_credentials-sealed :
    (providers : Providers) (provider : EmbeddingProviderName) (credentials : Credentials)
    (stored : Option Text)
    → ((d : Credentials) → providers.decrypt (providers.encrypt d) ≡ ok d)
    → no_fields (embedding_requirements provider).credentials ≡ false
    → no_fields (missing_credential_fields (embedding_requirements provider) (as_dict credentials))
      ≡ true
    → (resolve_credentials providers none
          (embedding_requirements provider)
          true
          (sealed providers (as_dict credentials))
        ≡ ok (some (as_dict credentials)))
      × (resolve_credentials providers
            (some credentials)
            (embedding_requirements provider)
            true
            stored
          ≡ ok (some (as_dict credentials)))
unfolding resolve_credentials
resolve_credentials-sealed providers provider credentials stored opens needs complete =
    let full = complete_not_empty provider credentials needs complete in
    (rw full (rw needs (rw (opens (as_dict credentials)) refl)), rw complete refl)

-- A stored row has the embedding provider and the credentials of another.
SameProvider : ChatbotAiConfig → ChatbotAiConfig → Type 0
SameProvider x c =
    (x.embedding_provider ≡ c.embedding_provider)
    × (x.embedding_credentials_encrypted ≡ c.embedding_credentials_encrypted)

Stores : ℕ → ChatbotAiConfig → List ChatbotAiConfig → Type 0
Stores chatbot_id c configs =
    (x : ChatbotAiConfig) × (get_config chatbot_id configs ≡ some x) × SameProvider x c

-- A test of an embedding provider alone.
abbrev pub embedding_test : EmbeddingTarget → Option Credentials → AiConfigTest
embedding_test target credentials = record {
  chat = none;
  embedding = some (record target { credentials = credentials });
}

same_name : (p : EmbeddingProviderName) → text_eq (embedding_name p) (embedding_name p) ≡ true
unfolding text_eq
same_name EmbeddingProviderName.azure = refl
same_name EmbeddingProviderName.bedrock = refl
same_name EmbeddingProviderName.ollama = refl

module _ (providers : Providers) (chatbot_id : ℕ) where
  -- A test of the stored provider that resolves the same credentials either way.
  test_config-stored :
      (x : ChatbotAiConfig) (target : EmbeddingTarget) (credentials : Credentials)
      (configs : List ChatbotAiConfig)
      → get_config chatbot_id configs ≡ some x
      → x.embedding_provider ≡ target.provider
      → resolve_credentials providers none
          (embedding_requirements target.provider)
          true
          x.embedding_credentials_encrypted
        ≡ ok (some (as_dict credentials))
      → resolve_credentials providers
          (some credentials)
          (embedding_requirements target.provider)
          true
          x.embedding_credentials_encrypted
        ≡ ok (some (as_dict credentials))
      → test_config providers chatbot_id (embedding_test target none) configs
        ≡ test_config providers chatbot_id (embedding_test target (some credentials)) configs
  unfolding test_config test_chat tested_chat test_embedding resolved_embedding probed
      embedding_changed
  test_config-stored x target credentials configs found same without with_them =
      let named : text_eq (embedding_name x.embedding_provider) (embedding_name target.provider)
          ≡ true =
        ap (λ p. text_eq (embedding_name p) (embedding_name target.provider)) same
        ∙ same_name target.provider in
      rw found (rw named (rw without (rw with_them refl)))

  concluded-Stores :
      (c : ChatbotAiConfig) (locked : Bool) (w : Workspace)
      → get_config chatbot_id w.library.configs ≡ some c
      → Stores chatbot_id c (concluded providers chatbot_id c locked w).1.library.configs
  unfolding concluded discover record_embedding_dimension Stores SameProvider
  concluded-Stores c locked w found = elim (Bool-cases (is_none c.embedding_dimension)) [
    | inr known ↦ rw (known, concluded) (c, found, (refl, refl))
    | inl unknown ↦ elim (Option-cases (measure providers c)) [
      | inl nothing ↦ rw (unknown, concluded) (rw (nothing, discover) (c, found, (refl, refl)))
      | inr (width, measured) ↦
          let c' = record c { embedding_dimension = some width } in
          rw (unknown, concluded)
            (rw (measured, discover)
              (rw (found, record_embedding_dimension)
                (
                  c',
                  get_config-save chatbot_id c c' w.library.configs refl refl found,
                  (refl, refl),
                )))
    ]
  ]

  -- A save that succeeds stores what the payload says of the embedding provider.
  save_config-stores :
      (id org_id : ℕ) (payload : AiConfigUpdate) (w : Workspace) (r : AiConfigRead)
      (credentials : Credentials)
      → payload.embedding.credentials ≡ some credentials
      → (save_config providers id org_id chatbot_id payload w).0 ≡ ok r
      → (x : ChatbotAiConfig) × (get_config chatbot_id
            (save_config providers id org_id chatbot_id payload w).1.library.configs
          ≡ some x)
        × (x.embedding_provider ≡ payload.embedding.provider)
        × (x.embedding_credentials_encrypted ≡ sealed providers (as_dict credentials))
  unfolding save_config apply SameProvider Stores
  save_config-stores id org_id payload w r credentials given =
      elim (Option-cases (chatbot_for_org chatbot_id org_id w.chatbots)) [
        | inl missing ↦ rw (missing, save_config) (λ h. cc)
        | inr (chatbot, owned) ↦ elim (Option-cases (get_config chatbot_id w.library.configs)) [
          | inl first ↦
              rw (owned, save_config)
                (rw first (λ h.
                  let c = apply providers payload (new_config id org_id chatbot_id payload) in
                  let (x, found, (same, kept)) =
                    concluded-Stores c (has_chunks chatbot_id w.library.chunks)
                      (record w { library = with_configs w.library (add c w.library.configs) })
                      (ground (
                        arith,
                        find-append_none (λ r. r.chatbot_id == chatbot_id) w.library.configs
                            (c ∷ []) first,
                      )) in
                  (x, found, same, kept ∙ rw given refl)))
          | inr (stored, found) ↦
              rw (owned, save_config)
                (rw found
                  (elim (Bool-cases (
                    embedding_changed stored payload.embedding
                    && has_chunks chatbot_id w.library.chunks)) [
                      | inl refused ↦ rw refused (λ h. cc)
                      | inr allowed ↦ rw allowed (λ h.
                          let c = apply providers payload stored in
                          let (x, there, (same, kept)) =
                            concluded-Stores c (has_chunks chatbot_id w.library.chunks)
                              (record w {
                                chatbots =
                                    if embedding_changed stored payload.embedding
                                    then save (clear chatbot) w.chatbots
                                    else w.chatbots;
                                library = with_configs w.library (save c w.library.configs);
                              })
                              (get_config-save chatbot_id stored c w.library.configs refl refl
                                found) in
                          (x, there, same, kept ∙ rw given refl))
                    ]))
        ]
      ]

  -- Credentials survive a save: a test of the embedding provider that a successful save has stored,
  -- which is given no credentials, does and answers what the test that is given the saved ones does. The
  -- provider needs credentials, they are complete, and the cipher decrypts what it has encrypted.
  pub save_config_then_test :
      (id org_id : ℕ) (payload : AiConfigUpdate) (w : Workspace) (r : AiConfigRead)
      (credentials : Credentials)
      → ((d : Credentials) → providers.decrypt (providers.encrypt d) ≡ ok d)
      → payload.embedding.credentials ≡ some credentials
      → no_fields (embedding_requirements payload.embedding.provider).credentials ≡ false
      → no_fields (
          missing_credential_fields
            (embedding_requirements payload.embedding.provider)
            (as_dict credentials))
        ≡ true
      → (save_config providers id org_id chatbot_id payload w).0 ≡ ok r
      → let configs = (save_config providers id org_id chatbot_id payload w).1.library.configs in
        test_config providers chatbot_id (embedding_test payload.embedding none) configs
        ≡ test_config providers chatbot_id
            (embedding_test payload.embedding (some credentials))
            configs
  save_config_then_test id org_id payload w r credentials opens given needs complete h =
      let (x, found, same, kept) = save_config-stores id org_id payload w r credentials given h in
      let (without, with_them) =
        resolve_credentials-sealed providers payload.embedding.provider credentials
          x.embedding_credentials_encrypted opens needs complete in
      test_config-stored x payload.embedding credentials _ found same
        (ap
            (λ o.
              resolve_credentials providers none (embedding_requirements payload.embedding.provider)
                true o)
            kept
          ∙ without)
        with_them
