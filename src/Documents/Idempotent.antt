-- ===== src/Documents/Idempotent.antt =====
-- A successful run of `process_document` as one change of the tables.
use nuvrag_platform.Base.{
  ℕ, ◌≡◌, refl, sym, ap, ◌∙◌, false, is_none, Option, none, some, List, [], ◌∷◌, ◌++◌, arith,
  if◌then◌else◌, length, Bool-cases, Option-cases, inl, inr,
}
use nuvrag_platform.Base.Rows.{get, save, key, Keyed, get-key, get-save_self}
use nuvrag_platform.Domain.Enums.{DocumentStatus}
use nuvrag_platform.Ai.{ChatbotAiConfig, config_row, get_config}
use nuvrag_platform.Documents.{Document, DocumentChunk, Library, document_row, delete_for_document}
use nuvrag_platform.Documents.Chunker.{Chunk}
use nuvrag_platform.Documents.Pipeline.{
  Attempt, Attempt-cases, Services, Prepared, IngestionResult, set_status, with_status, rows_of,
  persist, lock_width, write_chunks, prepare, ingest, process_document, settle_dimension,
  embed_chunks, read_chunks, locked_of, record_embedding_dimension, contradicts, and_then, contents,
}

pub save-save :
    {A : Type 0} ⦃k : Keyed A⦄ (r s : A) (xs : List A)
    → key r ≡ key s
    → save r (save s xs) ≡ save r xs
save-save r s [] h = refl
save-save r s (x ∷ xs) h = ground (arith, save-save r s xs h)

pub delete_for_document-rows_of :
    (ids : ℕ → ℕ) (d : Document) (dimension : ℕ) (chunks : List Chunk) (vectors : List (List ℕ))
    (rows : List DocumentChunk)
    → rows_of ids d dimension chunks vectors ≡ Attempt.done rows
    → delete_for_document d.id rows ≡ []
unfolding rows_of
delete_for_document-rows_of ids d dimension [] [] rows h = ground arith
delete_for_document-rows_of ids d dimension [] (v ∷ vectors) rows h = ground arith
delete_for_document-rows_of ids d dimension (c ∷ chunks) [] rows h = ground arith
delete_for_document-rows_of ids d dimension (c ∷ chunks) (v ∷ vectors) rows h =
    elim (Attempt-cases (rows_of ids d dimension chunks vectors)) [
      | inl (rest, e) ↦
          ground (arith, delete_for_document-rows_of ids d dimension chunks vectors rest e, h, e)
      | inr (fault, e) ↦ ground (arith, h, e)
    ]

-- Replacing a document's passages twice by the same ones.
pub delete_for_document-append :
    (id : ℕ) (chunks rows : List DocumentChunk)
    → delete_for_document id rows ≡ []
    → delete_for_document id (delete_for_document id chunks ++ rows) ≡ delete_for_document id chunks
delete_for_document-append id [] rows h = h
delete_for_document-append id (c ∷ chunks) rows h =
    ground (arith, delete_for_document-append id chunks rows h)

abbrev pub ready : ℕ → Document → Document
ready n d = record d { status = DocumentStatus.ready; chunk_count = n; error_message = none }

pub get_config-chatbot_id :
    (chatbot_id : ℕ) (c : ChatbotAiConfig) (configs : List ChatbotAiConfig)
    → get_config chatbot_id configs ≡ some c
    → c.chatbot_id ≡ chatbot_id
get_config-chatbot_id chatbot_id c [] h = cc
get_config-chatbot_id chatbot_id c (x ∷ configs) h =
    ground (arith, get_config-chatbot_id chatbot_id c configs)

pub get_config-save :
    (chatbot_id : ℕ) (c c' : ChatbotAiConfig) (configs : List ChatbotAiConfig)
    → c'.id ≡ c.id
    → c'.chatbot_id ≡ c.chatbot_id
    → get_config chatbot_id configs ≡ some c
    → get_config chatbot_id (save c' configs) ≡ some c'
get_config-save chatbot_id c c' [] i j h = cc
get_config-save chatbot_id c c' (x ∷ configs) i j h =
    ground (
      arith,
      get_config-save chatbot_id c c' configs i j,
      get_config-chatbot_id chatbot_id c configs,
    )

-- The configurations once the width of a run is locked.
unfoldable pub locked_configs : Document → Prepared → List ChatbotAiConfig → List ChatbotAiConfig
unfolding record_embedding_dimension
locked_configs d p configs =
    if is_none p.locked
    then record_embedding_dimension d.chatbot_id p.dimension configs
    else configs

module _ (services : Services) where
  -- The tables after the passages of a document are written.
  abbrev pub written : Document → Prepared → List DocumentChunk → Library → Library
  written d p rows lib = record {
    documents = save (ready (length rows) d) lib.documents;
    chunks = delete_for_document d.id lib.chunks ++ rows;
    configs = locked_configs d p lib.configs;
  }

  pub write_chunks-written :
      (d e : Document) (p : Prepared) (rows : List DocumentChunk) (lib : Library)
      → get d.id lib.documents ≡ some e
      → rows_of services.new_chunk_id d p.dimension p.chunks p.embeddings ≡ Attempt.done rows
      → write_chunks services d p lib ≡ (
        Attempt.done (length rows),
        record lib {
          documents = save (ready (length rows) e) lib.documents;
          chunks = delete_for_document d.id lib.chunks ++ rows;
        },
      )
  unfolding write_chunks persist
  write_chunks-written d e p rows lib stored built =
      rw (built, write_chunks) (rw (stored, persist) refl)

  pub lock_width_documents :
      (d : Document) (p : Prepared) (lib : Library)
      → lock_width services d p lib ≡ record lib { configs = locked_configs d p lib.configs }
  unfolding lock_width locked_configs
  lock_width_documents d p lib = elim (Bool-cases (is_none p.locked)) [
    | inl first ↦ rw (first, lock_width, locked_configs) refl
    | inr locked ↦ rw (locked, lock_width, locked_configs) refl
  ]

  pub ingest-written :
      (id : ℕ) (d e : Document) (p : Prepared) (rows : List DocumentChunk) (lib : Library)
      → get d.id lib.documents ≡ some e
      → prepare services d lib.configs ≡ Attempt.done p
      → rows_of services.new_chunk_id d p.dimension p.chunks p.embeddings ≡ Attempt.done rows
      → ingest services id d lib ≡ (
        Attempt.done (record { document_id = id; chunk_count = length rows }),
        record lib {
          documents = save (ready (length rows) e) lib.documents;
          chunks = delete_for_document d.id lib.chunks ++ rows;
          configs = locked_configs d p lib.configs;
        },
      )
  unfolding ingest
  ingest-written id d e p rows lib stored prepared built =
      let same = lock_width_documents d p lib in
      let found : get d.id (lock_width services d p lib).documents ≡ some e =
        ap (λ l. get d.id l.documents) same ∙ stored in
      let after = write_chunks-written d e p rows (lock_width services d p lib) found built in
      ap
        (λ r. elim r as (λ _. Attempt IngestionResult × Library) [
          | Attempt.failed fault ↦ (Attempt.failed fault, lib)
          | Attempt.done q ↦ (
            and_then (write_chunks services d q (lock_width services d q lib)).0
                (λ n. Attempt.done (record { document_id = id; chunk_count = n })),
            (write_chunks services d q (lock_width services d q lib)).1,
          )
        ])
        prepared
      ∙ (ap
            (λ r. (
              and_then r.0 (λ n. Attempt.done (record { document_id = id; chunk_count = n })),
              r.1,
            ))
            after
          ∙ ap
              (λ l. (
                Attempt.done (record { document_id = id; chunk_count = length rows }),
                record lib {
                  documents = save (ready (length rows) e) l.documents;
                  chunks = delete_for_document d.id l.chunks ++ rows;
                  configs = l.configs;
                },
              ))
              same)

  -- A run that finds its document, prepares its passages and pairs them with their vectors.
  pub process_document-written :
      (id : ℕ) (d : Document) (p : Prepared) (rows : List DocumentChunk) (lib : Library)
      → get id lib.documents ≡ some d
      → prepare services d lib.configs ≡ Attempt.done p
      → rows_of services.new_chunk_id d p.dimension p.chunks p.embeddings ≡ Attempt.done rows
      → process_document services id lib ≡ (
        Attempt.done (record { document_id = id; chunk_count = length rows }),
        written d p rows lib,
      )
  unfolding process_document set_status
  process_document-written id d p rows lib stored prepared built =
      let same : d.id ≡ id = get-key id lib.documents d stored in
      let d1 = with_status DocumentStatus.processing none none d in
      let marked = record lib { documents = save d1 lib.documents } in
      let again : get d.id (save d1 lib.documents) ≡ some d1 =
        get-save_self d1 d lib.documents (ground (arith, same, stored)) in
      let once = save-save (ready (length rows) d1) d1 lib.documents refl in
      rw (stored, process_document)
        (rw (stored, set_status)
          (ingest-written id d d1 p rows marked again prepared built
            ∙ ap
                (λ documents. (
                  Attempt.done (record { document_id = id; chunk_count = length rows }),
                  record (written d p rows lib) { documents = documents },
                ))
                once))

  -- What a run that returns has computed.
  ingest-done :
      (id : ℕ) (d : Document) (r : IngestionResult) (lib : Library)
      → (ingest services id d lib).0 ≡ Attempt.done r
      → (p : Prepared) × (rows : List DocumentChunk) × (prepare services d lib.configs
          ≡ Attempt.done p)
        × (rows_of services.new_chunk_id d p.dimension p.chunks p.embeddings ≡ Attempt.done rows)
  unfolding ingest write_chunks
  ingest-done id d r lib = elim (Attempt-cases (prepare services d lib.configs)) [
    | inr (fault, fails) ↦ rw (fails, ingest) (λ h. cc)
    | inl (p, prepared) ↦
        elim (Attempt-cases (rows_of services.new_chunk_id d p.dimension p.chunks p.embeddings)) [
          | inr (fault, fails) ↦ rw (prepared, ingest) (rw (fails, write_chunks) (λ h. cc))
          | inl (rows, built) ↦ λ h. (p, rows, prepared, built)
        ]
  ]

  pub process_document-done :
      (id : ℕ) (r : IngestionResult) (lib : Library)
      → (process_document services id lib).0 ≡ Attempt.done r
      → (d : Document) × (p : Prepared) × (rows : List DocumentChunk) × (get id lib.documents
          ≡ some d)
        × (prepare services d lib.configs ≡ Attempt.done p)
        × (rows_of services.new_chunk_id d p.dimension p.chunks p.embeddings ≡ Attempt.done rows)
  unfolding process_document set_status
  process_document-done id r lib = elim (Option-cases (get id lib.documents)) [
    | inl missing ↦ rw (missing, process_document) (λ h. cc)
    | inr (d, stored) ↦
        rw (stored, process_document)
          (rw (stored, set_status)
            (λ h.
              let d1 = with_status DocumentStatus.processing none none d in
              let (p, rows, prepared, built) =
                ingest-done id d r (record lib { documents = save d1 lib.documents }) h in
              (d, p, rows, refl, prepared, built)))
  ]

  settle_dimension_again :
      (embeddings : List (List ℕ)) (locked : Option ℕ) (n : ℕ)
      → settle_dimension embeddings locked ≡ Attempt.done n
      → (settle_dimension embeddings (some n) ≡ Attempt.done n) × (contradicts locked n ≡ false)
  unfolding settle_dimension
  settle_dimension_again [] locked n h = cc
  settle_dimension_again (v ∷ vs) locked n h = ground arith

  embed_chunks_again :
      (locked : Option ℕ) (chunks : List Chunk) (p : Prepared)
      → embed_chunks services locked chunks ≡ Attempt.done p
      → (p.locked ≡ locked)
        × (contradicts locked p.dimension ≡ false)
        × (embed_chunks services (some p.dimension) chunks
            ≡ Attempt.done (record p { locked = some p.dimension }))
  unfolding embed_chunks
  embed_chunks_again locked chunks p =
      elim (Attempt-cases (services.embed_batch (contents chunks))) [
        | inr (fault, fails) ↦ rw (fails, embed_chunks) (λ h. cc)
        | inl (embeddings, sent) ↦ elim (Attempt-cases (settle_dimension embeddings locked)) [
          | inr (fault, fails) ↦ rw (sent, embed_chunks) (rw fails (λ h. cc))
          | inl (n, settled) ↦
              rw (sent, embed_chunks)
                (rw settled (λ h.
                  let again = settle_dimension_again embeddings locked n settled in
                  ground (arith, again, h)))
        ]
      ]

  -- The width that a run has settled on is the one that a later run is locked to.
  pub locked_of-locked_configs :
      (d : Document) (p : Prepared) (configs : List ChatbotAiConfig)
      → locked_of d.chatbot_id configs ≡ Attempt.done p.locked
      → contradicts p.locked p.dimension ≡ false
      → locked_of d.chatbot_id (locked_configs d p configs) ≡ Attempt.done (some p.dimension)
  unfolding locked_configs record_embedding_dimension
  locked_of-locked_configs d p configs h agrees =
      elim (Option-cases (get_config d.chatbot_id configs)) [
        | inl missing ↦ ground (arith, h, missing)
        | inr (c, found) ↦
            let c' = record c { embedding_dimension = some p.dimension } in
            let saved = get_config-save d.chatbot_id c c' configs refl refl found in
            ground (arith, h, agrees, found, saved)
      ]

  -- The stages behind passages that are prepared.
  pub prepare-parts :
      (d : Document) (p : Prepared) (configs : List ChatbotAiConfig)
      → prepare services d configs ≡ Attempt.done p
      → (chunks : List Chunk) × (locked : Option ℕ) × (built : Unit {0}) × (read_chunks services d
          ≡ Attempt.done chunks)
        × (locked_of d.chatbot_id configs ≡ Attempt.done locked)
        × (services.build_embedder d.chatbot_id ≡ Attempt.done built)
        × (embed_chunks services locked chunks ≡ Attempt.done p)
  unfolding prepare
  prepare-parts d p configs = elim (Attempt-cases (read_chunks services d)) [
    | inr (fault, fails) ↦ rw (fails, prepare) (λ h. cc)
    | inl (chunks, cut) ↦ elim (Attempt-cases (locked_of d.chatbot_id configs)) [
      | inr (fault, fails) ↦ rw (cut, prepare) (rw fails (λ h. cc))
      | inl (locked, before) ↦ elim (Attempt-cases (services.build_embedder d.chatbot_id)) [
        | inr (fault, fails) ↦ rw (cut, prepare) (rw before (rw fails (λ h. cc)))
        | inl (unit, built) ↦
            rw (cut, prepare)
              (rw before (rw built (λ h. (chunks, locked, unit, refl, refl, refl, h))))
      ]
    ]
  ]

  -- Prepared passages agree with the width that was locked before.
  pub prepare-locked :
      (d : Document) (p : Prepared) (configs : List ChatbotAiConfig)
      → prepare services d configs ≡ Attempt.done p
      → (locked_of d.chatbot_id configs ≡ Attempt.done p.locked)
        × (contradicts p.locked p.dimension ≡ false)
  prepare-locked d p configs h =
      let (chunks, locked, unit, cut, before, built, embedded) = prepare-parts d p configs h in
      let (same, agrees, again) = embed_chunks_again locked chunks p embedded in
      (before ∙ ap (λ l. Attempt.done l) (sym same), rw same agrees)

  -- Preparing again after the width is locked gives the same passages and vectors.
  pub prepare_again :
      (d : Document) (p : Prepared) (configs : List ChatbotAiConfig)
      → prepare services d configs ≡ Attempt.done p
      → prepare services d (locked_configs d p configs)
        ≡ Attempt.done (record p { locked = some p.dimension })
  unfolding prepare
  prepare_again d p configs h =
      let (chunks, locked, unit, cut, before, built, embedded) = prepare-parts d p configs h in
      let (same, agrees, again) = embed_chunks_again locked chunks p embedded in
      let (stored, fits) = prepare-locked d p configs h in
      rw (cut, prepare) (rw (locked_of-locked_configs d p configs stored fits) (rw built again))
