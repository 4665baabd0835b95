-- ===== src/Ai/Ingested.antt =====
-- Ingestion keeps the vectors aligned.
use nuvrag_platform.Base.{
  ℕ, ◌≡◌, ap, ◌∙◌, Bool, not, Option, some, List, [], ◌∷◌, arith, filter, is_none, All, All-append,
  Bool-cases, Option-cases, inl, inr,
}
use nuvrag_platform.Base.Rows.{get}
use nuvrag_platform.Ai.{ChatbotAiConfig, config_row, get_config}
use nuvrag_platform.Ai.Saving.{with_configs}
use nuvrag_platform.Ai.Widths.{
  width_of, AllAligned, IsAligned, record_embedding_dimension-IsAligned,
}
use nuvrag_platform.Documents.{
  DocumentChunk, Document, Library, document_row, delete_for_document, belongs_to,
}
use nuvrag_platform.Documents.Chunker.{Chunk}
use nuvrag_platform.Documents.Pipeline.{
  Attempt, Attempt-cases, Services, Prepared, rows_of, persist, write_chunks, ingest, prepare,
  process_document, set_status, locked_of,
}
use nuvrag_platform.Documents.Idempotent.{
  locked_configs, locked_of-locked_configs, prepare-locked, lock_width_documents,
}

pub filter-All :
    {A : Type 0} (P : A → Type 0) (q : A → Bool) (xs : List A) → All P xs → All P (filter q xs)
filter-All P q [] h = tt
filter-All P q (x ∷ xs) h = elim (Bool-cases (q x)) [
  | inl keep ↦ rw keep (h.0, filter-All P q xs h.1)
  | inr drop ↦ rw drop (filter-All P q xs h.1)
]

rows_of-AllAligned :
    (ids : ℕ → ℕ) (configs : List ChatbotAiConfig) (d : Document) (dimension : ℕ)
    (chunks : List Chunk) (vectors : List (List ℕ)) (rows : List DocumentChunk)
    → width_of d.chatbot_id configs ≡ some dimension
    → rows_of ids d dimension chunks vectors ≡ Attempt.done rows
    → AllAligned configs rows
unfolding rows_of
rows_of-AllAligned ids configs d dimension [] [] rows w h = ground (arith, h)
rows_of-AllAligned ids configs d dimension [] (v ∷ vectors) rows w h = ground (arith, h)
rows_of-AllAligned ids configs d dimension (c ∷ chunks) [] rows w h = ground (arith, h)
rows_of-AllAligned ids configs d dimension (c ∷ chunks) (v ∷ vectors) rows w h =
    elim (Attempt-cases (rows_of ids d dimension chunks vectors)) [
      | inl (rest, e) ↦
          ground
            (arith, rows_of-AllAligned ids configs d dimension chunks vectors rest w e, h, e, w)
      | inr (fault, e) ↦ ground (arith, h, e)
    ]

width_of-locked_of :
    (chatbot_id : ℕ) (configs : List ChatbotAiConfig) (o : Option ℕ)
    → locked_of chatbot_id configs ≡ Attempt.done o
    → width_of chatbot_id configs ≡ o
width_of-locked_of chatbot_id configs o h = elim (Option-cases (get_config chatbot_id configs)) [
  | inl missing ↦ ground (arith, h, missing)
  | inr (c, found) ↦ ground (arith, h, found)
]

locked_configs-IsAligned :
    (d : Document) (p : Prepared) (lib : Library)
    → locked_of d.chatbot_id lib.configs ≡ Attempt.done p.locked
    → IsAligned lib
    → IsAligned (with_configs lib (locked_configs d p lib.configs))
unfolding locked_configs
locked_configs-IsAligned d p lib h aligned =
    let width = width_of-locked_of d.chatbot_id lib.configs p.locked h in
    elim (Option-cases p.locked) [
      | inl first ↦
          rw (ap is_none first, locked_configs)
            (record_embedding_dimension-IsAligned d.chatbot_id p.dimension lib (inl (width ∙ first))
              aligned)
      | inr (w, locked) ↦ rw (ap is_none locked, locked_configs) aligned
    ]

persist-IsAligned :
    (id : ℕ) (rows : List DocumentChunk) (lib : Library)
    → AllAligned lib.configs rows
    → IsAligned lib
    → IsAligned (persist id rows lib).1
unfolding persist
persist-IsAligned id rows lib fits (unique, aligned) = elim (Option-cases (get id lib.documents)) [
  | inl missing ↦ rw (missing, persist) (unique, aligned)
  | inr (d, stored) ↦
      rw (stored, persist)
        (
          unique,
          All-append (λ c. width_of c.chatbot_id lib.configs ≡ some c.embedding_dim)
              (delete_for_document id lib.chunks) rows
              (filter-All (λ c. width_of c.chatbot_id lib.configs ≡ some c.embedding_dim)
                (λ c. not (belongs_to id c)) lib.chunks aligned)
              fits,
        )
]

write_chunks-IsAligned :
    (services : Services) (d : Document) (p : Prepared) (lib : Library)
    → width_of d.chatbot_id lib.configs ≡ some p.dimension
    → IsAligned lib
    → IsAligned (write_chunks services d p lib).1
unfolding write_chunks
write_chunks-IsAligned services d p lib width aligned =
    elim (Attempt-cases (rows_of services.new_chunk_id d p.dimension p.chunks p.embeddings)) [
      | inr (fault, fails) ↦ rw (fails, write_chunks) aligned
      | inl (rows, built) ↦
          rw (built, write_chunks)
            (persist-IsAligned d.id rows lib
              (rows_of-AllAligned services.new_chunk_id lib.configs d p.dimension p.chunks
                p.embeddings rows width built)
              aligned)
    ]

ingest-IsAligned :
    (services : Services) (id : ℕ) (d : Document) (lib : Library)
    → IsAligned lib
    → IsAligned (ingest services id d lib).1
unfolding ingest
ingest-IsAligned services id d lib aligned = elim (Attempt-cases (prepare services d lib.configs)) [
  | inr (fault, fails) ↦ rw (fails, ingest) aligned
  | inl (p, prepared) ↦
      let (locked, agrees) = prepare-locked services d p lib.configs prepared in
      let width =
        width_of-locked_of d.chatbot_id (locked_configs d p lib.configs) (some p.dimension)
          (locked_of-locked_configs services d p lib.configs locked agrees) in
      rw (prepared, ingest)
        (rw (lock_width_documents services d p lib) (
          write_chunks-IsAligned services d p (with_configs lib (locked_configs d p lib.configs))
            width (locked_configs-IsAligned d p lib locked aligned)))
]

pub process_document-IsAligned :
    (services : Services) (id : ℕ) (lib : Library)
    → IsAligned lib
    → IsAligned (process_document services id lib).1
unfolding process_document set_status
process_document-IsAligned services id lib aligned = elim (Option-cases (get id lib.documents)) [
  | inl missing ↦ rw (missing, process_document) aligned
  | inr (d, stored) ↦
      rw (stored, process_document)
        (rw (stored, set_status) (ingest-IsAligned services id d _ aligned))
]
