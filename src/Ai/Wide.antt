-- ===== src/Ai/Wide.antt =====
-- Stored vectors are as wide as their rows say.
use nuvrag_platform.Base.{
  is_none, sym, ◌∙◌, ℕ, ◌≡◌, refl, ap, Bool, true, not, Option, List, [], ◌∷◌, arith, length, All,
  All-append, Bool-cases, Option-cases, inl, inr, ◌&&◌,
}
use mathlib.Core.Path.{subst}
use nuvrag_platform.Base.Rows.{get}
use nuvrag_platform.Ai.{ChatbotAiConfig, config_row, get_config}
use nuvrag_platform.Ai.Config.{AiConfigUpdate, Providers, embedding_changed}
use nuvrag_platform.Ai.Saving.{
  Workspace, chatbot_row, save_config, concluded, discover, chatbot_for_org, has_chunks,
  with_configs,
}
use nuvrag_platform.Ai.Ingested.{filter-All}
use nuvrag_platform.Documents.{
  DocumentChunk, Document, Library, document_row, delete_for_document, belongs_to,
}
use nuvrag_platform.Documents.Chunker.{Chunk}
use nuvrag_platform.Documents.Pipeline.{
  Attempt, Attempt-cases, Services, Prepared, rows_of, persist, write_chunks, ingest, prepare,
  process_document, set_status, settle_dimension, same_widths, embed_chunks, contents,
}
use nuvrag_platform.Documents.Idempotent.{prepare-parts, lock_width_documents, locked_configs}

-- A row's vector has as many components as the row says.
abbrev pub IsWide : DocumentChunk → Type 0
IsWide c = length c.embedding ≡ c.embedding_dim

same_widths-All :
    (n : ℕ) (vectors : List (List ℕ))
    → same_widths n vectors ≡ true
    → All (λ v. length v ≡ n) vectors
same_widths-All n [] h = tt
same_widths-All n (v ∷ vectors) h =
    (ground (arith, h), same_widths-All n vectors (ground (arith, h)))

settle_dimension-All :
    (vectors : List (List ℕ)) (locked : Option ℕ) (n : ℕ)
    → settle_dimension vectors locked ≡ Attempt.done n
    → All (λ v. length v ≡ n) vectors
unfolding settle_dimension
settle_dimension-All [] locked n h = ground (arith, h)
settle_dimension-All (v ∷ vectors) locked n h = elim (Bool-cases (same_widths (length v) vectors)) [
  | inr differ ↦ ground (arith, h, differ)
  | inl same ↦
      let width : length v ≡ n = ground (arith, h, same) in
      (width, same_widths-All n vectors (ap (λ w. same_widths w vectors) (sym width) ∙ same))
]

embed_chunks-All :
    (services : Services) (locked : Option ℕ) (chunks : List Chunk) (p : Prepared)
    → embed_chunks services locked chunks ≡ Attempt.done p
    → All (λ v. length v ≡ p.dimension) p.embeddings
unfolding embed_chunks
embed_chunks-All services locked chunks p =
    elim (Attempt-cases (services.embed_batch (contents chunks))) [
      | inr (fault, fails) ↦ rw (fails, embed_chunks) (λ h. cc)
      | inl (embeddings, sent) ↦ elim (Attempt-cases (settle_dimension embeddings locked)) [
        | inr (fault, fails) ↦ rw (sent, embed_chunks) (rw fails (λ h. cc))
        | inl (n, settled) ↦
            rw (sent, embed_chunks)
              (rw settled (λ h.
                let all = settle_dimension-All embeddings locked n settled in
                let wide : n ≡ p.dimension = ground (arith, h) in
                let these : embeddings ≡ p.embeddings = ground (arith, h) in
                subst (λ e. All (λ v. length v ≡ p.dimension) e) these
                  (subst (λ w. All (λ v. length v ≡ w) embeddings) wide all)))
      ]
    ]

rows_of-All :
    (ids : ℕ → ℕ) (d : Document) (dimension : ℕ) (chunks : List Chunk) (vectors : List (List ℕ))
    (rows : List DocumentChunk)
    → All (λ v. length v ≡ dimension) vectors
    → rows_of ids d dimension chunks vectors ≡ Attempt.done rows
    → All IsWide rows
unfolding rows_of
rows_of-All ids d dimension [] [] rows w h = ground (arith, h)
rows_of-All ids d dimension [] (v ∷ vectors) rows w h = ground (arith, h)
rows_of-All ids d dimension (c ∷ chunks) [] rows w h = ground (arith, h)
rows_of-All ids d dimension (c ∷ chunks) (v ∷ vectors) rows w h =
    elim (Attempt-cases (rows_of ids d dimension chunks vectors)) [
      | inl (rest, e) ↦
          ground (arith, rows_of-All ids d dimension chunks vectors rest w.1 e, h, e, w.0)
      | inr (fault, e) ↦ ground (arith, h, e)
    ]

module _ (services : Services) where
  write_chunks-IsWide :
      (d : Document) (p : Prepared) (lib : Library)
      → All (λ v. length v ≡ p.dimension) p.embeddings
      → All IsWide lib.chunks
      → All IsWide (write_chunks services d p lib).1.chunks
  unfolding write_chunks persist
  write_chunks-IsWide d p lib embedded wide =
      elim (Attempt-cases (rows_of services.new_chunk_id d p.dimension p.chunks p.embeddings)) [
        | inr (fault, fails) ↦ rw (fails, write_chunks) wide
        | inl (rows, built) ↦
            rw (built, write_chunks)
              (elim (Option-cases (get d.id lib.documents)) [
                | inl missing ↦ rw (missing, persist) wide
                | inr (e, stored) ↦
                    rw (stored, persist)
                      (All-append IsWide (delete_for_document d.id lib.chunks) rows
                        (filter-All IsWide (λ c. not (belongs_to d.id c)) lib.chunks wide)
                        (rows_of-All services.new_chunk_id d p.dimension p.chunks p.embeddings rows
                          embedded built))
              ])
      ]

  ingest-IsWide :
      (id : ℕ) (d : Document) (lib : Library)
      → All IsWide lib.chunks
      → All IsWide (ingest services id d lib).1.chunks
  unfolding ingest
  ingest-IsWide id d lib wide = elim (Attempt-cases (prepare services d lib.configs)) [
    | inr (fault, fails) ↦ rw (fails, ingest) wide
    | inl (p, prepared) ↦
        let (chunks, locked, unit, cut, before, built, embedded) =
          prepare-parts services d p lib.configs prepared in
        rw (prepared, ingest)
          (rw (lock_width_documents services d p lib) (
            write_chunks-IsWide d p (with_configs lib (locked_configs d p lib.configs))
              (embed_chunks-All services locked chunks p embedded) wide))
  ]

  pub process_document-IsWide :
      (id : ℕ) (lib : Library)
      → All IsWide lib.chunks
      → All IsWide (process_document services id lib).1.chunks
  unfolding process_document set_status
  process_document-IsWide id lib wide = elim (Option-cases (get id lib.documents)) [
    | inl missing ↦ rw (missing, process_document) wide
    | inr (d, stored) ↦
        rw (stored, process_document) (rw (stored, set_status) (ingest-IsWide id d _ wide))
  ]

concluded-chunks :
    (providers : Providers) (chatbot_id : ℕ) (c : ChatbotAiConfig) (locked : Bool) (w : Workspace)
    → (concluded providers chatbot_id c locked w).1.library.chunks ≡ w.library.chunks
unfolding concluded discover
concluded-chunks providers chatbot_id c locked w =
    elim (Bool-cases (is_none c.embedding_dimension)) [
      | inr known ↦ rw (known, concluded) refl
      | inl unknown ↦ rw (unknown, concluded) refl
    ]

-- A save writes no vector.
pub save_config-chunks :
    (providers : Providers) (id org_id chatbot_id : ℕ) (payload : AiConfigUpdate) (w : Workspace)
    → (save_config providers id org_id chatbot_id payload w).1.library.chunks ≡ w.library.chunks
unfolding save_config
save_config-chunks providers id org_id chatbot_id payload w =
    elim (Option-cases (chatbot_for_org chatbot_id org_id w.chatbots)) [
      | inl missing ↦ rw (missing, save_config) refl
      | inr (chatbot, owned) ↦ elim (Option-cases (get_config chatbot_id w.library.configs)) [
        | inl first ↦
            rw (owned, save_config) (rw first (concluded-chunks providers chatbot_id _ _ _))
        | inr (stored, found) ↦
            rw (owned, save_config)
              (rw found
                (elim (Bool-cases (
                  embedding_changed stored payload.embedding
                  && has_chunks chatbot_id w.library.chunks)) [
                    | inl refused ↦ rw refused refl
                    | inr allowed ↦ rw allowed (concluded-chunks providers chatbot_id _ _ _)
                  ]))
      ]
    ]
