-- ===== src/Documents/Counted.antt =====
-- What every document says of its passages, through any interleaving of transactions.
use nuvrag_platform.Base.{
  ℕ, ◌≡◌, refl, sym, ◌∙◌, Bool, ◌&&◌, is_none, Option, none, some, List, [], ◌∷◌, arith, ◌==◌,
  if◌then◌else◌, length, count, count-append, Bool-cases, Option-cases, inl, inr,
}
use nuvrag_platform.Base.Text.{Text}
use nuvrag_platform.Base.Rows.{
  get, save, HasUniqueKeys, get_of_find, get-key, get-save_self, get-save_ne, get-add, get-add_ne,
  get-remove,
}
use nuvrag_platform.Domain.Enums.{DocumentStatus}
use nuvrag_platform.Documents.{
  Document, DocumentChunk, Library, document_row, belongs_to, get_for_chatbot, delete_for_document,
}
use nuvrag_platform.Documents.Chunker.{Chunk}
use nuvrag_platform.Documents.Pipeline.{
  Attempt, Attempt-cases, Services, Prepared, set_status, rows_of, persist, lock_width,
  write_chunks, with_status,
}
use nuvrag_platform.Documents.Service.{insert, drop_document, delete_document}

-- The number of passages that a document says it has; none where there is no document.
abbrev pub recorded : ℕ → List Document → ℕ
recorded id documents = elim (get id documents) [ none ↦ 0 | some d ↦ d.chunk_count ]

-- Every document counts its passages, and there are no passages of a missing document.
abbrev pub IsCounted : Library → Type 0
IsCounted lib = (id : ℕ) → count (belongs_to id) lib.chunks ≡ recorded id lib.documents

count-delete_for_document :
    (id j : ℕ) (chunks : List DocumentChunk)
    → count (belongs_to j) (delete_for_document id chunks)
      ≡ (if id == j then 0 else count (belongs_to j) chunks)
count-delete_for_document id j [] = ground arith
count-delete_for_document id j (c ∷ chunks) = ground (arith, count-delete_for_document id j chunks)

pub count-rows_of :
    (ids : ℕ → ℕ) (j : ℕ) (d : Document) (dimension : ℕ) (chunks : List Chunk)
    (vectors : List (List ℕ)) (rows : List DocumentChunk)
    → rows_of ids d dimension chunks vectors ≡ Attempt.done rows
    → count (belongs_to j) rows ≡ (if d.id == j then length rows else 0)
unfolding rows_of
count-rows_of ids j d dimension [] [] rows h = ground arith
count-rows_of ids j d dimension [] (v ∷ vectors) rows h = ground arith
count-rows_of ids j d dimension (c ∷ chunks) [] rows h = ground arith
count-rows_of ids j d dimension (c ∷ chunks) (v ∷ vectors) rows h =
    elim (Attempt-cases (rows_of ids d dimension chunks vectors)) [
      | inl (rest, e) ↦ ground (arith, count-rows_of ids j d dimension chunks vectors rest e, h, e)
      | inr (fault, e) ↦ ground (arith, h, e)
    ]

-- A row that is written back without a change of its number.
pub recorded-save :
    (d e : Document) (j : ℕ) (documents : List Document)
    → get d.id documents ≡ some d
    → e.id ≡ d.id
    → e.chunk_count ≡ d.chunk_count
    → recorded j (save e documents) ≡ recorded j documents
recorded-save d e j documents stored same count_same =
    ground (arith, get-save_self e d documents, get-save_ne j e documents)

pub set_status-IsCounted :
    (id : ℕ) (status : DocumentStatus) (error_message : Option Text) (lib : Library)
    → IsCounted lib
    → IsCounted (set_status id status error_message none lib)
unfolding set_status
set_status-IsCounted id status error_message lib h = elim (Option-cases (get id lib.documents)) [
  | inl missing ↦ rw (missing, set_status) h
  | inr (d, stored) ↦
      rw (stored, set_status)
        (λ j.
          h j
          ∙ sym (
              recorded-save d (with_status status error_message none d) j lib.documents
                (ground (arith, get-key id lib.documents d stored)) refl refl))
]

pub insert-IsCounted :
    (d : Document) (lib : Library) → d.chunk_count ≡ 0 → IsCounted lib → IsCounted (insert d lib)
insert-IsCounted d lib none_yet h = elim (Option-cases (get d.id lib.documents)) [
  | inl missing ↦
      rw (missing, insert)
        (λ j. ground (arith, h j, get-add j d lib.documents, get-add_ne j d lib.documents))
  | inr (other, stored) ↦ rw (stored, insert) h
]

drop_document-IsCounted :
    (id : ℕ) (lib : Library) → IsCounted lib → IsCounted (drop_document id lib)
drop_document-IsCounted id lib h j =
    ground (arith, h j, count-delete_for_document id j lib.chunks, get-remove id j lib.documents)

persist-IsCounted :
    (ids : ℕ → ℕ) (d : Document) (dimension : ℕ) (chunks : List Chunk) (vectors : List (List ℕ))
    (rows : List DocumentChunk) (lib : Library)
    → rows_of ids d dimension chunks vectors ≡ Attempt.done rows
    → IsCounted lib
    → IsCounted (persist d.id rows lib).1
unfolding persist
persist-IsCounted ids d dimension chunks vectors rows lib built h =
    elim (Option-cases (get d.id lib.documents)) [
      | inl missing ↦ rw (missing, persist) h
      | inr (e, stored) ↦
          let e' = record e {
            status = DocumentStatus.ready;
            chunk_count = length rows;
            error_message = none;
          } in
          let same = get-key d.id lib.documents e stored in
          rw (stored, persist)
            (λ j. ground (
              arith,
              h j,
              same,
              count-append (belongs_to j) (delete_for_document d.id lib.chunks) rows,
              count-delete_for_document d.id j lib.chunks,
              count-rows_of ids j d dimension chunks vectors rows built,
              get-save_self e' e lib.documents,
              get-save_ne j e' lib.documents,
            ))
    ]

pub write_chunks-IsCounted :
    (services : Services) (d : Document) (p : Prepared) (lib : Library)
    → IsCounted lib
    → IsCounted (write_chunks services d p lib).1
unfolding write_chunks
write_chunks-IsCounted services d p lib h =
    elim (Attempt-cases (rows_of services.new_chunk_id d p.dimension p.chunks p.embeddings)) [
      | inr (fault, fails) ↦ rw (fails, write_chunks) h
      | inl (rows, built) ↦
          rw (built, write_chunks)
            (persist-IsCounted services.new_chunk_id d p.dimension p.chunks p.embeddings rows lib
              built h)
    ]

pub delete_document-IsCounted :
    (broker_answers : Bool) (chatbot_id document_id : ℕ) (lib : Library)
    → IsCounted lib
    → IsCounted (delete_document broker_answers chatbot_id document_id lib []).1
unfolding delete_document
delete_document-IsCounted broker_answers chatbot_id document_id lib h =
    elim (Option-cases (get_for_chatbot document_id chatbot_id lib.documents)) [
      | inl missing ↦ rw (missing, delete_document) h
      | inr (d, found) ↦ rw (found, delete_document) (drop_document-IsCounted d.id lib h)
    ]

-- A document found for its chatbot is the stored row of its id.
pub get_of_get_for_chatbot :
    (document_id chatbot_id : ℕ) (documents : List Document) (d : Document)
    → HasUniqueKeys documents
    → get_for_chatbot document_id chatbot_id documents ≡ some d
    → get d.id documents ≡ some d
get_of_get_for_chatbot document_id chatbot_id documents d unique found =
    get_of_find (λ r. (r.id == document_id) && (r.chatbot_id == chatbot_id)) documents d unique
      found

pub lock_width-IsCounted :
    (services : Services) (d : Document) (p : Prepared) (lib : Library)
    → IsCounted lib
    → IsCounted (lock_width services d p lib)
unfolding lock_width
lock_width-IsCounted services d p lib h = elim (Bool-cases (is_none p.locked)) [
  | inl first ↦ rw (first, lock_width) h
  | inr locked ↦ rw (locked, lock_width) h
]
