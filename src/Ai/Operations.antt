-- ===== src/Ai/Operations.antt =====
-- Any sequence of the operations that write a configuration, a width or a vector.
use nuvrag_platform.Base.{
  All, sym, ℕ, ◌≡◌, ◌⊎◌, refl, Bool, ◌&&◌, not, Option, none, some, List, [], ◌∷◌, arith,
  if◌then◌else◌, is_none, Bool-cases, Option-cases, inl, inr,
}
use mathlib.Core.Path.{subst}
use nuvrag_platform.Base.Rows.{get}
use nuvrag_platform.Domain.Errors.{Result, ok, err}
use nuvrag_platform.Ai.{ChatbotAiConfig, config_row, get_config}
use nuvrag_platform.Ai.Config.{
  AiConfigUpdate, AiConfigTest, EmbeddingTarget, Providers, AiConfigTestResult, embedding_probe,
  ProviderCall, embedding_changed,
}
use nuvrag_platform.Ai.Registry.{Credentials}
use nuvrag_platform.Ai.Saving.{
  Workspace, with_configs, save_config, proves_stored, test_embedding, test_chat, test_config,
  probed, resolved_embedding, tested_chat,
}
use nuvrag_platform.Ai.Widths.{width_of, IsAligned, record_embedding_dimension-IsAligned}
use nuvrag_platform.Ai.Aligned.{save_config-IsAligned}
use nuvrag_platform.Ai.Ingested.{process_document-IsAligned, filter-All}
use nuvrag_platform.Ai.Wide.{IsWide, process_document-IsWide, save_config-chunks}
use nuvrag_platform.Documents.{Library, document_row, belongs_to, get_for_chatbot}
use nuvrag_platform.Documents.Service.{delete_document}
use nuvrag_platform.Documents.Pipeline.{record_embedding_dimension, Services, process_document}

-- What a test leaves of the configurations: as they were, or with a width where none was recorded.
Tested : ℕ → Option ChatbotAiConfig → List ChatbotAiConfig → List ChatbotAiConfig → Type 0
Tested chatbot_id stored configs after =
    (after ≡ configs)
    ⊎ ((c : ChatbotAiConfig) × (width : ℕ) × (stored ≡ some c)
        × (c.embedding_dimension ≡ none)
        × (after ≡ record_embedding_dimension chatbot_id width configs))

recorded-Tested :
    (chatbot_id width : ℕ) (stored : Option ChatbotAiConfig) (target : EmbeddingTarget)
    (configs : List ChatbotAiConfig)
    → Tested chatbot_id stored configs (
        if proves_stored stored target
        then record_embedding_dimension chatbot_id width configs
        else configs)
unfolding Tested
recorded-Tested chatbot_id width none target configs = inl refl
recorded-Tested chatbot_id width (some c) target configs =
    elim (Bool-cases (is_none c.embedding_dimension && not (embedding_changed c target))) [
      | inr other ↦ rw other (inl refl)
      | inl proves ↦ rw proves (inr (c, width, refl, ground (arith, proves), refl))
    ]

module _ (providers : Providers) (chatbot_id : ℕ) (stored : Option ChatbotAiConfig)
    (configs : List ChatbotAiConfig) where
  probed-Tested :
      (target : EmbeddingTarget) (answer : ProviderCall ℕ)
      → Tested chatbot_id stored configs
          (probed providers chatbot_id target stored configs answer).1
  unfolding probed Tested
  probed-Tested target (ProviderCall.raises failure) = inl refl
  probed-Tested target (ProviderCall.returns width) =
      recorded-Tested chatbot_id width stored target configs

  resolved_embedding-Tested :
      (target : EmbeddingTarget) (credentials : Result (Option Credentials))
      → Tested chatbot_id stored configs
          (resolved_embedding providers chatbot_id target stored configs credentials).1
  unfolding resolved_embedding Tested
  resolved_embedding-Tested target (err raised) = inl refl
  resolved_embedding-Tested target (ok none) = inl refl
  resolved_embedding-Tested target (ok (some supplied)) =
      probed-Tested target (embedding_probe providers target supplied)

  test_embedding-Tested :
      (target : Option EmbeddingTarget)
      → Tested chatbot_id stored configs
          (test_embedding providers chatbot_id target stored configs).1
  unfolding test_embedding Tested
  test_embedding-Tested none = inl refl
  test_embedding-Tested (some target) = resolved_embedding-Tested target _

  tested_chat-Tested :
      (target : Option EmbeddingTarget) (verdict : Result (Option AiConfigTestResult))
      → Tested chatbot_id stored configs
          (tested_chat providers chatbot_id target stored configs verdict).1
  unfolding tested_chat Tested
  tested_chat-Tested target (err raised) = inl refl
  tested_chat-Tested target (ok (some verdict)) = inl refl
  tested_chat-Tested target (ok none) = test_embedding-Tested target

Tested-IsAligned :
    (chatbot_id : ℕ) (lib : Library) (after : List ChatbotAiConfig)
    → Tested chatbot_id (get_config chatbot_id lib.configs) lib.configs after
    → IsAligned lib
    → IsAligned (with_configs lib after)
unfolding Tested
Tested-IsAligned chatbot_id lib after (inl same) h = rw same h
Tested-IsAligned chatbot_id lib after (inr (c, width, stored, unknown, recorded)) h = rw recorded (
    record_embedding_dimension-IsAligned chatbot_id width lib
      (inl (ground (arith, stored, unknown))) h)

test_config-IsAligned :
    (providers : Providers) (chatbot_id : ℕ) (payload : AiConfigTest) (lib : Library)
    → IsAligned lib
    → IsAligned (with_configs lib (test_config providers chatbot_id payload lib.configs).1)
unfolding test_config
test_config-IsAligned providers chatbot_id payload lib h =
    let stored = get_config chatbot_id lib.configs in
    Tested-IsAligned chatbot_id lib (test_config providers chatbot_id payload lib.configs).1
      (tested_chat-Tested providers chatbot_id stored lib.configs payload.embedding
        (test_chat providers payload.chat stored))
      h

delete_document-IsAligned :
    (broker_answers : Bool) (chatbot_id document_id : ℕ) (lib : Library)
    → IsAligned lib
    → IsAligned (delete_document broker_answers chatbot_id document_id lib []).1
unfolding delete_document
delete_document-IsAligned broker_answers chatbot_id document_id lib (unique, aligned) =
    elim (Option-cases (get_for_chatbot document_id chatbot_id lib.documents)) [
      | inl missing ↦ rw (missing, delete_document) (unique, aligned)
      | inr (d, found) ↦
          rw (found, delete_document)
            (
              unique,
              filter-All (λ c. width_of c.chatbot_id lib.configs ≡ some c.embedding_dim)
                  (λ c. not (belongs_to d.id c)) lib.chunks aligned,
            )
    ]

-- One operation, run to its end.
pub data Operation : Type 0 where
  save : Providers → ℕ → ℕ → ℕ → AiConfigUpdate → Operation
  test : Providers → ℕ → AiConfigTest → Operation
  process : Services → ℕ → Operation
  delete : Bool → ℕ → ℕ → Operation

abbrev pub perform : Operation → Workspace → Workspace
perform (Operation.save providers id org_id chatbot_id payload) w =
    (save_config providers id org_id chatbot_id payload w).1
perform (Operation.test providers chatbot_id payload) w = record w {
  library = with_configs w.library (test_config providers chatbot_id payload w.library.configs).1;
}
perform (Operation.process services id) w = record w {
  library = (process_document services id w.library).1;
}
perform (Operation.delete broker_answers chatbot_id document_id) w = record w {
  library = (delete_document broker_answers chatbot_id document_id w.library []).1;
}

-- The ids that new rows are given are not in use.
abbrev pub IsFresh : Operation → Workspace → Type 0
IsFresh (Operation.save providers id org_id chatbot_id payload) w = get id w.library.configs ≡ none
IsFresh _ w = Unit

perform-IsAligned :
    (o : Operation) (w : Workspace)
    → IsFresh o w
    → IsAligned w.library
    → IsAligned (perform o w).library
perform-IsAligned (Operation.save providers id org_id chatbot_id payload) w fresh h =
    save_config-IsAligned providers id org_id chatbot_id payload w fresh h
perform-IsAligned (Operation.test providers chatbot_id payload) w fresh h =
    test_config-IsAligned providers chatbot_id payload w.library h
perform-IsAligned (Operation.process services id) w fresh h =
    process_document-IsAligned services id w.library h
perform-IsAligned (Operation.delete broker_answers chatbot_id document_id) w fresh h =
    delete_document-IsAligned broker_answers chatbot_id document_id w.library h

abbrev pub perform_all : List Operation → Workspace → Workspace
perform_all [] w = w
perform_all (o ∷ os) w = perform_all os (perform o w)

abbrev pub AllFresh : List Operation → Workspace → Type 0
AllFresh [] w = Unit
AllFresh (o ∷ os) w = IsFresh o w × AllFresh os (perform o w)

perform-IsWide :
    (o : Operation) (w : Workspace)
    → All IsWide w.library.chunks
    → All IsWide (perform o w).library.chunks
unfolding delete_document
perform-IsWide (Operation.save providers id org_id chatbot_id payload) w h =
    subst (All IsWide) (sym (save_config-chunks providers id org_id chatbot_id payload w)) h
perform-IsWide (Operation.test providers chatbot_id payload) w h = h
perform-IsWide (Operation.process services id) w h = process_document-IsWide services id w.library h
perform-IsWide (Operation.delete broker_answers chatbot_id document_id) w h =
    elim (Option-cases (get_for_chatbot document_id chatbot_id w.library.documents)) [
      | inl missing ↦ rw (missing, delete_document) h
      | inr (d, found) ↦
          rw (found, delete_document)
            (filter-All IsWide (λ c. not (belongs_to d.id c)) w.library.chunks h)
    ]

-- Through any sequence of saves and tests of provider configurations, ingestions and deletions, each
-- run to its end and with fresh ids for new rows, every stored vector has exactly as many components
-- as its row says, and this is the width that its chatbot's configuration records: no search meets
-- vectors of two widths.
pub perform_all-IsAligned :
    (os : List Operation) (w : Workspace)
    → AllFresh os w
    → IsAligned w.library
    → All IsWide w.library.chunks
    → IsAligned (perform_all os w).library × All IsWide (perform_all os w).library.chunks
perform_all-IsAligned [] w fresh h wide = (h, wide)
perform_all-IsAligned (o ∷ os) w (now, later) h wide =
    perform_all-IsAligned os (perform o w) later (perform-IsAligned o w now h)
      (perform-IsWide o w wide)
