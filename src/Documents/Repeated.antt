-- ===== src/Documents/Repeated.antt =====
-- A second run of `process_document` after a successful one. Every run gives the passages that it writes
-- fresh primary keys.
use nuvrag_platform.Base.{
  ℕ, ◌≡◌, refl, sym, ap, ◌∙◌, some, List, [], ◌∷◌, ◌++◌, map, arith, length, inl, inr,
}
use mathlib.Core.List.{map-append}
use mathlib.Core.Path.{subst}
use nuvrag_platform.Base.Rows.{get, save, get-key, get-save_self}
use nuvrag_platform.Ai.{ChatbotAiConfig}
use nuvrag_platform.Documents.{Document, DocumentChunk, Library, document_row, delete_for_document}
use nuvrag_platform.Documents.Chunker.{Chunk}
use nuvrag_platform.Documents.Pipeline.{
  Attempt, Attempt-cases, Services, Prepared, IngestionResult, row_of, rows_of, prepare,
  read_chunks, embed_chunks, process_document,
}
use nuvrag_platform.Documents.Idempotent.{
  save-save, delete_for_document-rows_of, delete_for_document-append, ready, locked_configs,
  written, process_document-written, process_document-done, prepare_again,
}

-- A passage without its primary key.
abbrev pub anonymous : DocumentChunk → DocumentChunk
anonymous c = record c { id = 0 }

-- The same services, with other primary keys.
abbrev pub with_ids : (ℕ → ℕ) → Services → Services
with_ids ids services = record services { new_chunk_id = ids }

rows_of-anonymous :
    (ids ids' : ℕ → ℕ) (d : Document) (dimension : ℕ) (chunks : List Chunk)
    (vectors : List (List ℕ)) (rows : List DocumentChunk)
    → rows_of ids d dimension chunks vectors ≡ Attempt.done rows
    → (rows' : List DocumentChunk) × (rows_of ids' d dimension chunks vectors ≡ Attempt.done rows')
      × (map anonymous rows' ≡ map anonymous rows)
      × (length rows' ≡ length rows)
unfolding rows_of
rows_of-anonymous ids ids' d dimension [] [] rows h = ground (arith, h)
rows_of-anonymous ids ids' d dimension [] (v ∷ vectors) rows h = ground (arith, h)
rows_of-anonymous ids ids' d dimension (c ∷ chunks) [] rows h = ground (arith, h)
rows_of-anonymous ids ids' d dimension (c ∷ chunks) (v ∷ vectors) rows h =
    elim (Attempt-cases (rows_of ids d dimension chunks vectors)) [
      | inr (fault, e) ↦ ground (arith, h, e)
      | inl (rest, e) ↦
          let (rest', e', same, long) =
            rows_of-anonymous ids ids' d dimension chunks vectors rest e in
          let row = row_of ids d dimension c v in
          let shape : rows ≡ row ∷ rest = ground (arith, h, e) in
          (
            row_of ids' d dimension c v ∷ rest',
            ground (arith, e'),
            ap (λ xs. anonymous row ∷ xs) same ∙ sym (ap (map anonymous) shape),
            omega (arith, long, ap length shape),
          )
    ]

module _ (services : Services) (ids : ℕ → ℕ) where
  prepare-with_ids :
      (d : Document) (configs : List ChatbotAiConfig)
      → prepare (with_ids ids services) d configs ≡ prepare services d configs
  unfolding prepare read_chunks embed_chunks
  prepare-with_ids d configs = refl

  -- What a second run on tables does.
  abbrev Repeats : ℕ → IngestionResult → Library → Type 0
  Repeats id r first =
      let (outcome, second) = process_document (with_ids ids services) id first in
      (outcome ≡ Attempt.done r)
      × (second.documents ≡ first.documents)
      × (second.configs ≡ first.configs)
      × (map anonymous second.chunks ≡ map anonymous first.chunks)

  -- The tables that a second run writes, next to those of the first.
  rewritten :
      (d : Document) (p : Prepared) (rows rows' : List DocumentChunk) (lib : Library)
      → rows_of services.new_chunk_id d p.dimension p.chunks p.embeddings ≡ Attempt.done rows
      → map anonymous rows' ≡ map anonymous rows
      → length rows' ≡ length rows
      → let once = written services d p rows lib in
        let twice =
          written
            (with_ids ids services)
            (ready (length rows) d)
            (record p { locked = some p.dimension })
            rows'
            once in
        (twice.documents ≡ once.documents)
        × (twice.configs ≡ once.configs)
        × (map anonymous twice.chunks ≡ map anonymous once.chunks)
  unfolding locked_configs
  rewritten d p rows rows' lib built same long =
      let gone =
        delete_for_document-rows_of services.new_chunk_id d p.dimension p.chunks p.embeddings rows
          built in
      let kept = delete_for_document d.id lib.chunks in
      let passages = delete_for_document-append d.id lib.chunks rows gone in
      (
        ap
              (λ n.
                save (ready n (ready (length rows) d)) (save (ready (length rows) d) lib.documents))
              long
            ∙ save-save (ready (length rows) d) (ready (length rows) d) lib.documents refl,
        refl,
        ap (λ chunks. map anonymous (chunks ++ rows')) passages
            ∙ (map-append anonymous kept rows'
                ∙ (ap (λ xs. map anonymous kept ++ xs) same
                    ∙ sym (map-append anonymous kept rows))),
      )

  written-Repeats :
      (id : ℕ) (r : IngestionResult) (d : Document) (p : Prepared) (rows : List DocumentChunk)
      (lib : Library)
      → get id lib.documents ≡ some d
      → prepare services d lib.configs ≡ Attempt.done p
      → rows_of services.new_chunk_id d p.dimension p.chunks p.embeddings ≡ Attempt.done rows
      → Attempt.done (record { document_id = id; chunk_count = length rows }) ≡ Attempt.done r
      → Repeats id r (written services d p rows lib)
  unfolding rows_of locked_configs prepare
  written-Repeats id r d p rows lib stored prepared built outcome =
      let d' = ready (length rows) d in
      let once = written services d p rows lib in
      let (rows', built', same, long) =
        rows_of-anonymous services.new_chunk_id ids d' p.dimension p.chunks p.embeddings rows
          built in
      let owner : d.id ≡ id = get-key id lib.documents d stored in
      let found =
        subst (λ j. get j (save d' lib.documents) ≡ some d') owner
          (get-save_self d' d lib.documents (ground (arith, owner, stored))) in
      let second =
        process_document-written (with_ids ids services) id d'
          (record p { locked = some p.dimension }) rows' once found
          (prepare-with_ids d' once.configs ∙ prepare_again services d p lib.configs prepared)
          built' in
      let (documents, configs, chunks) = rewritten d p rows rows' lib built same long in
      (
        ap (λ s. s.0) second
            ∙ (ap (λ n. Attempt.done (record { document_id = id; chunk_count = n })) long
                ∙ outcome),
        ap (λ s. s.1.documents) second ∙ documents,
        ap (λ s. s.1.configs) second ∙ configs,
        ap (λ s. map anonymous s.1.chunks) second ∙ chunks,
      )

  -- A run that succeeds can be repeated where the services answer alike, whatever primary keys the second
  -- run gives its passages: it succeeds with the same result, leaves the documents and the
  -- configurations as the first run did, and the passages too but for their primary keys.
  pub process_document_idempotent :
      (id : ℕ) (r : IngestionResult) (lib : Library)
      → (process_document services id lib).0 ≡ Attempt.done r
      → let first = (process_document services id lib).1 in
        let (outcome, second) = process_document (with_ids ids services) id first in
        (outcome ≡ Attempt.done r)
        × (second.documents ≡ first.documents)
        × (second.configs ≡ first.configs)
        × (map anonymous second.chunks ≡ map anonymous first.chunks)
  process_document_idempotent id r lib h =
      let (d, p, rows, stored, prepared, built) = process_document-done services id r lib h in
      let first = process_document-written services id d p rows lib stored prepared built in
      let same = sym (ap (λ s. s.0) first) ∙ h in
      subst (Repeats id r) (sym (ap (λ s. s.1) first))
        (written-Repeats id r d p rows lib stored prepared built same)
