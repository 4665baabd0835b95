-- ===== src/Ai/Aligned.antt =====
-- Every operation that writes a configuration, a width or a vector keeps the vectors aligned.
use nuvrag_platform.Base.{
  ℕ, ◌≡◌, refl, ap, ◌∙◌, Bool, false, ◌&&◌, Option, none, some, List, [], ◌∷◌, ◌==◌, arith,
  if◌then◌else◌, is_none, Bool-cases, Option-cases, inl, inr, find-append_none, find-append_some,
}
use nuvrag_platform.Base.Rows.{get, save, add, save-HasUniqueKeys, add-HasUniqueKeys}
use nuvrag_platform.Ai.{ChatbotAiConfig, config_row, get_config}
use nuvrag_platform.Ai.Config.{AiConfigUpdate, Providers, apply, embedding_changed}
use nuvrag_platform.Ai.Saving.{
  Chatbot, Workspace, chatbot_for_org, has_chunks, new_config, with_configs, measure, discover,
  concluded, save_config, clear, chatbot_row,
}
use nuvrag_platform.Ai.Widths.{
  width_of, IsAligned, AllAligned-congr, save-AllAligned, record_embedding_dimension-IsAligned,
}
use nuvrag_platform.Documents.{Library}
use nuvrag_platform.Documents.Idempotent.{get_config-save}

concluded-IsAligned :
    (providers : Providers) (chatbot_id : ℕ) (c : ChatbotAiConfig) (locked : Bool) (w : Workspace)
    → width_of chatbot_id w.library.configs ≡ c.embedding_dimension
    → IsAligned w.library
    → IsAligned (concluded providers chatbot_id c locked w).1.library
unfolding concluded discover
concluded-IsAligned providers chatbot_id c locked w same h =
    elim (Option-cases c.embedding_dimension) [
      | inr (width, known) ↦ rw (ap is_none known, concluded) h
      | inl unknown ↦ elim (Option-cases (measure providers c)) [
        | inl nothing ↦ rw (ap is_none unknown, concluded) (rw (nothing, discover) h)
        | inr (width, measured) ↦
            rw (ap is_none unknown, concluded)
              (rw (measured, discover)
                (record_embedding_dimension-IsAligned chatbot_id width w.library
                  (inl (same ∙ unknown)) h))
      ]
    ]

add-IsAligned :
    (c : ChatbotAiConfig) (lib : Library)
    → get c.id lib.configs ≡ none
    → get_config c.chatbot_id lib.configs ≡ none
    → IsAligned lib
    → IsAligned (with_configs lib (add c lib.configs))
add-IsAligned c lib fresh first (unique, aligned) = (
  add-HasUniqueKeys c lib.configs unique fresh,
  AllAligned-congr c.chatbot_id lib.configs (add c lib.configs) lib.chunks
      (λ other n. elim (Option-cases (get_config other lib.configs)) [
        | inl missing ↦ ground (
          arith,
          n,
          missing,
          find-append_none (λ r. r.chatbot_id == other) lib.configs (c ∷ []) missing,
        )
        | inr (x, found) ↦ ground (
          arith,
          found,
          find-append_some (λ r. r.chatbot_id == other) lib.configs (c ∷ []) x found,
        )
      ])
      (λ w e pos. ground (arith, e, first)) aligned,
)

-- A stored row that is saved again: its width is dropped only where no vector has it.
saved-IsAligned :
    (providers : Providers) (chatbot_id : ℕ) (stored : ChatbotAiConfig) (payload : AiConfigUpdate)
    (chatbots : List Chatbot) (w : Workspace)
    → get_config chatbot_id w.library.configs ≡ some stored
    → (embedding_changed stored payload.embedding && has_chunks chatbot_id w.library.chunks) ≡ false
    → IsAligned w.library
    → let c = apply providers payload stored in
      IsAligned
        (concluded providers chatbot_id c (has_chunks chatbot_id w.library.chunks) (record {
          chatbots = chatbots;
          library = with_configs w.library (save c w.library.configs);
        })).1.library
unfolding apply
saved-IsAligned providers chatbot_id stored payload chatbots w found allowed (unique, aligned) =
    let c = apply providers payload stored in
    concluded-IsAligned providers chatbot_id c (has_chunks chatbot_id w.library.chunks)
      (record { chatbots = chatbots; library = with_configs w.library (save c w.library.configs) })
      (ap (λ o. elim o as (λ _. Option ℕ) [ none ↦ none | some x ↦ x.embedding_dimension ])
        (get_config-save chatbot_id stored c w.library.configs refl refl found))
      (
        save-HasUniqueKeys c w.library.configs unique,
        save-AllAligned chatbot_id stored c w.library.configs w.library.chunks unique found refl
            refl (λ n e pos. ground (arith, e, pos, allowed)) aligned,
      )

-- Saving a provider configuration keeps every vector of every chatbot as wide as its configuration
-- records, whatever the payload, the stored row and the provider's answer are; the id of a new row is
-- taken to be fresh.
pub save_config-IsAligned :
    (providers : Providers) (id org_id chatbot_id : ℕ) (payload : AiConfigUpdate) (w : Workspace)
    → get id w.library.configs ≡ none
    → IsAligned w.library
    → IsAligned (save_config providers id org_id chatbot_id payload w).1.library
unfolding save_config apply
save_config-IsAligned providers id org_id chatbot_id payload w fresh h =
    elim (Option-cases (chatbot_for_org chatbot_id org_id w.chatbots)) [
      | inl missing ↦ rw (missing, save_config) h
      | inr (chatbot, owned) ↦ elim (Option-cases (get_config chatbot_id w.library.configs)) [
        | inl first ↦
            rw (owned, save_config)
              (rw first (
                let c = apply providers payload (new_config id org_id chatbot_id payload) in
                concluded-IsAligned providers chatbot_id c (has_chunks chatbot_id w.library.chunks)
                  (record w { library = with_configs w.library (add c w.library.configs) })
                  (ground (
                    arith,
                    find-append_none (λ r. r.chatbot_id == chatbot_id) w.library.configs (c ∷ [])
                        first,
                  ))
                  (add-IsAligned c w.library fresh first h)))
        | inr (stored, found) ↦
            rw (owned, save_config)
              (rw found
                (elim (Bool-cases (
                  embedding_changed stored payload.embedding
                  && has_chunks chatbot_id w.library.chunks)) [
                    | inl refused ↦ rw refused h
                    | inr allowed ↦ rw allowed (
                        saved-IsAligned providers chatbot_id stored payload
                          (if embedding_changed stored payload.embedding
                            then save (clear chatbot) w.chatbots
                            else w.chatbots)
                          w found allowed h)
                  ]))
      ]
    ]
