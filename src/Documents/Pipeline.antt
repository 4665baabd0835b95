-- ===== src/Documents/Pipeline.antt =====
-- `app/services/ingestion/pipeline.py`: one document from its raw file to its passages. The storage,
-- the scanner, the extractors, the splitter, the token counter and the provider are arguments; each
-- of the file's sessions is one transaction on the tables. Logging and durations are left out.
use nuvrag_platform.Base.{
  ℕ, ◌≡◌, refl, ◌⊎◌, inl, inr, Bool, true, false, ◌&&◌, ◌||◌, not, Option, none, some, List, [],
  ◌∷◌, ◌++◌, map, ◌==◌, if◌then◌else◌, length, take, is_none,
}
use nuvrag_platform.Base.Text.{Text}
use nuvrag_platform.Base.Rows.{get, save}
use nuvrag_platform.Domain.Enums.{DocumentStatus, FileType}
use nuvrag_platform.Domain.Errors.{DomainError}
use nuvrag_platform.Ai.{ChatbotAiConfig, config_row, get_config}
use nuvrag_platform.Documents.{
  Document, DocumentChunk, StorageKey, Library, document_row, delete_for_document,
}
use nuvrag_platform.Documents.Chunker.{TextSection, Chunk, chunk_sections}

-- What a stage raises: an error of the program, or any other exception.
pub data Fault : Type 0 where
  domain : DomainError → Fault
  unexpected : Fault

pub data Attempt (A : Type 0) : Type 0 where
  failed : Fault → Attempt A
  done : A → Attempt A

abbrev pub and_then : {A B : Type 0} → Attempt A → (A → Attempt B) → Attempt B
and_then (failed fault) next = failed fault
and_then (done value) next = next value

-- To split on a computed outcome and keep the equation.
pub Attempt-cases :
    {A : Type 0} (r : Attempt A)
    → ((a : A) × (r ≡ Attempt.done a)) ⊎ ((fault : Fault) × (r ≡ Attempt.failed fault))
Attempt-cases (done a) = inl (a, refl)
Attempt-cases (failed fault) = inr (fault, refl)

-- What the pipeline calls; `new_chunk_id` is the `uuid4` of the passage at an index.
pub record Services : Type 0 where
  pub download : StorageKey → Attempt (List ℕ)
  pub check_clean : List ℕ → Text → Attempt (Unit {0})
  pub extract_text : FileType → List ℕ → Attempt (List TextSection)
  pub split_text : Text → List Text
  pub count_tokens : Text → ℕ
  pub max_chunks_per_document : ℕ
  pub build_embedder : ℕ → Attempt (Unit {0})
  pub embed_batch : List Text → Attempt (List (List ℕ))
  pub new_chunk_id : ℕ → ℕ

pub record IngestionResult : Type 0 where
  pub document_id : ℕ
  pub chunk_count : ℕ

abbrev pub truncated : Option Text → Option Text
truncated none = none
truncated (some []) = none
truncated (some (c ∷ s)) = some (take 2000 (c ∷ s))

-- `_set_status`
abbrev pub with_status : DocumentStatus → Option Text → Option ℕ → Document → Document
with_status status error_message none d = record d {
  status = status;
  error_message = truncated error_message;
}
with_status status error_message (some n) d = record d {
  status = status;
  error_message = truncated error_message;
  chunk_count = n;
}

unfoldable pub set_status : ℕ → DocumentStatus → Option Text → Option ℕ → Library → Library
set_status document_id status error_message chunk_count lib = elim (get document_id lib.documents) [
  | none ↦ lib
  | some d ↦ record lib {
    documents = save (with_status status error_message chunk_count d) lib.documents;
  }
]

unfoldable pub mark_failed : ℕ → Text → Library → Library
unfolding set_status
mark_failed document_id reason lib =
    set_status document_id DocumentStatus.failed (some reason) none lib

-- `len(set(widths)) == 1`
abbrev pub same_widths : ℕ → List (List ℕ) → Bool
same_widths n [] = true
same_widths n (vector ∷ vectors) = (length vector == n) && same_widths n vectors

abbrev pub contradicts : Option ℕ → ℕ → Bool
contradicts none dimension = false
contradicts (some width) dimension = not (dimension == width)

-- `_settle_dimension`
unfoldable pub settle_dimension : List (List ℕ) → Option ℕ → Attempt ℕ
settle_dimension [] locked = failed (Fault.domain (DomainError.document_processing false))
settle_dimension (vector ∷ vectors) locked =
    if not (same_widths (length vector) vectors) || contradicts locked (length vector)
    then failed (Fault.domain (DomainError.document_processing false))
    else done (length vector)

-- `factory.record_embedding_dimension`
unfoldable pub record_embedding_dimension : ℕ → ℕ → List ChatbotAiConfig → List ChatbotAiConfig
record_embedding_dimension chatbot_id dimension configs = elim (get_config chatbot_id configs) [
  | none ↦ configs
  | some c ↦ save (record c { embedding_dimension = some dimension }) configs
]

abbrev pub row_of : (ℕ → ℕ) → Document → ℕ → Chunk → List ℕ → DocumentChunk
row_of ids d dimension chunk vector = record {
  id = ids chunk.index;
  org_id = d.org_id;
  document_id = d.id;
  chatbot_id = d.chatbot_id;
  chunk_index = chunk.index;
  content = chunk.content;
  token_count = chunk.token_count;
  embedding_dim = dimension;
  embedding = vector;
  metadata_json = chunk.metadata;
}

-- `zip(chunks, embeddings, strict=True)`
unfoldable pub rows_of :
    (ℕ → ℕ) → Document → ℕ → List Chunk → List (List ℕ) → Attempt (List DocumentChunk)
rows_of ids d dimension [] [] = done []
rows_of ids d dimension (chunk ∷ chunks) (vector ∷ vectors) =
    and_then (rows_of ids d dimension chunks vectors)
      (λ rows. done (row_of ids d dimension chunk vector ∷ rows))
rows_of ids d dimension _ _ = failed Fault.unexpected

-- The last transaction. Rows of a document that is gone break the foreign key and roll it back.
unfoldable pub persist : ℕ → List DocumentChunk → Library → Attempt ℕ × Library
persist document_id rows lib = elim (get document_id lib.documents) [
  | none ↦ (failed Fault.unexpected, lib)
  | some d ↦ (
    done (length rows),
    record lib {
      chunks = delete_for_document document_id lib.chunks ++ rows;
      documents =
          save
            (record d {
              status = DocumentStatus.ready;
              chunk_count = length rows;
              error_message = none;
            })
            lib.documents;
    },
  )
]

abbrev pub contents : List Chunk → List Text
contents = map (λ c. c.content)

-- The width that a chatbot is locked to, where it has a configuration.
abbrev pub locked_of : ℕ → List ChatbotAiConfig → Attempt (Option ℕ)
locked_of chatbot_id configs = elim (get_config chatbot_id configs) [
  | none ↦ failed (Fault.domain DomainError.provider_not_configured)
  | some c ↦ done c.embedding_dimension
]

-- What is computed before the last transaction.
pub record Prepared : Type 0 where
  pub locked : Option ℕ
  pub dimension : ℕ
  pub chunks : List Chunk
  pub embeddings : List (List ℕ)

module _ (services : Services) where
  abbrev pub chunks_of : List TextSection → List Chunk
  chunks_of =
      chunk_sections services.split_text services.count_tokens services.max_chunks_per_document

  -- From the raw file to passages.
  unfoldable pub read_chunks : Document → Attempt (List Chunk)
  unfolding chunk_sections
  read_chunks d = and_then (services.download d.storage_path) (λ payload.
      and_then (services.check_clean payload d.filename) (λ _.
        and_then (services.extract_text d.file_type payload) (λ sections.
          elim (chunks_of sections) [
            | [] ↦ failed (Fault.domain (DomainError.document_processing false))
            | ◌∷◌ c cs ↦ done (c ∷ cs)
          ])))

  -- The vectors of the passages, and the width that they agree on.
  unfoldable pub embed_chunks : Option ℕ → List Chunk → Attempt Prepared
  unfolding settle_dimension
  embed_chunks locked chunks = and_then (services.embed_batch (contents chunks)) (λ embeddings.
      and_then (settle_dimension embeddings locked) (λ dimension. done (record {
        locked = locked;
        dimension = dimension;
        chunks = chunks;
        embeddings = embeddings;
      })))

  -- All between the two transactions on the document; it changes no table.
  unfoldable pub prepare : Document → List ChatbotAiConfig → Attempt Prepared
  unfolding read_chunks embed_chunks
  prepare d configs = and_then (read_chunks d) (λ chunks.
      and_then (locked_of d.chatbot_id configs) (λ locked.
        and_then (services.build_embedder d.chatbot_id) (λ _. embed_chunks locked chunks)))

  -- `if embedder.dimension is None: await factory.record_embedding_dimension(…)`
  unfoldable pub lock_width : Document → Prepared → Library → Library
  unfolding record_embedding_dimension
  lock_width d p lib =
      if is_none p.locked
      then record lib { configs = record_embedding_dimension d.chatbot_id p.dimension lib.configs }
      else lib

  unfoldable pub write_chunks : Document → Prepared → Library → Attempt ℕ × Library
  unfolding rows_of persist
  write_chunks d p lib = elim (rows_of services.new_chunk_id d p.dimension p.chunks p.embeddings) [
    | failed fault ↦ (failed fault, lib)
    | done rows ↦ persist d.id rows lib
  ]

  -- From the committed status on.
  unfoldable pub ingest : ℕ → Document → Library → Attempt IngestionResult × Library
  unfolding prepare lock_width write_chunks
  ingest document_id d lib = elim (prepare d lib.configs) [
    | failed fault ↦ (failed fault, lib)
    | done p ↦
        let (outcome, finished) = write_chunks d p (lock_width d p lib) in
        (
          and_then outcome (λ n. done (record { document_id = document_id; chunk_count = n })),
          finished,
        )
  ]

  unfoldable pub process_document : ℕ → Library → Attempt IngestionResult × Library
  unfolding set_status ingest
  process_document document_id lib = elim (get document_id lib.documents) [
    | none ↦ (failed (Fault.domain DomainError.not_found), lib)
    | some d ↦ ingest document_id d (set_status document_id DocumentStatus.processing none none lib)
  ]
