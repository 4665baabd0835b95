-- ===== src/Documents/History.antt =====
-- The tables of documents and passages through any interleaving of committed transactions.
use nuvrag_platform.Base.{
  ℕ, ◌≡◌, refl, sym, ◌∙◌, Bool, is_none, Option, none, List, [], ◌∷◌, Bool-cases, Option-cases, inl,
  inr,
}
use nuvrag_platform.Base.Text.{Text}
use nuvrag_platform.Base.Rows.{
  get, HasUniqueKeys, save-HasUniqueKeys, add-HasUniqueKeys, remove-HasUniqueKeys,
}
use nuvrag_platform.Domain.Enums.{DocumentStatus}
use nuvrag_platform.Documents.{Document, Library, document_row, get_for_chatbot, DocumentChunk}
use nuvrag_platform.Documents.Upload.{new_document}
use nuvrag_platform.Documents.Pipeline.{
  Attempt-cases, Services, Prepared, set_status, rows_of, persist, lock_width, write_chunks,
  with_status,
}
use nuvrag_platform.Documents.Service.{
  Transaction, commit, commit_all, insert, delete_document, reprocess_document,
}
use nuvrag_platform.Documents.Counted.{
  IsCounted, recorded-save, set_status-IsCounted, insert-IsCounted, write_chunks-IsCounted,
  delete_document-IsCounted, lock_width-IsCounted, get_of_get_for_chatbot,
}

-- Primary keys are distinct, every document counts its passages, and none is an orphan.
abbrev pub IsSound : Library → Type 0
IsSound lib = HasUniqueKeys lib.documents × IsCounted lib

set_status-IsSound :
    (id : ℕ) (status : DocumentStatus) (error_message : Option Text) (lib : Library)
    → IsSound lib
    → IsSound (set_status id status error_message none lib)
unfolding set_status
set_status-IsSound id status error_message lib (unique, counted) = (
  elim (Option-cases (get id lib.documents)) [
    | inl missing ↦ rw (missing, set_status) unique
    | inr (d, stored) ↦
        rw (stored, set_status)
          (save-HasUniqueKeys (with_status status error_message none d) lib.documents unique)
  ],
  set_status-IsCounted id status error_message lib counted,
)

insert-IsSound :
    (d : Document) (lib : Library) → d.chunk_count ≡ 0 → IsSound lib → IsSound (insert d lib)
insert-IsSound d lib none_yet (unique, counted) = (
  elim (Option-cases (get d.id lib.documents)) [
    | inl missing ↦ rw (missing, insert) (add-HasUniqueKeys d lib.documents unique missing)
    | inr (other, stored) ↦ rw (stored, insert) unique
  ],
  insert-IsCounted d lib none_yet counted,
)

persist-HasUniqueKeys :
    (id : ℕ) (rows : List DocumentChunk) (lib : Library)
    → HasUniqueKeys lib.documents
    → HasUniqueKeys (persist id rows lib).1.documents
unfolding persist
persist-HasUniqueKeys id rows lib unique = elim (Option-cases (get id lib.documents)) [
  | inl missing ↦ rw (missing, persist) unique
  | inr (d, stored) ↦ rw (stored, persist) (save-HasUniqueKeys _ lib.documents unique)
]

write_chunks-IsSound :
    (services : Services) (d : Document) (p : Prepared) (lib : Library)
    → IsSound lib
    → IsSound (write_chunks services d p lib).1
unfolding write_chunks
write_chunks-IsSound services d p lib (unique, counted) = (
  elim (Attempt-cases (rows_of services.new_chunk_id d p.dimension p.chunks p.embeddings)) [
    | inr (fault, fails) ↦ rw (fails, write_chunks) unique
    | inl (rows, built) ↦ rw (built, write_chunks) (persist-HasUniqueKeys d.id rows lib unique)
  ],
  write_chunks-IsCounted services d p lib counted,
)

lock_width-IsSound :
    (services : Services) (d : Document) (p : Prepared) (lib : Library)
    → IsSound lib
    → IsSound (lock_width services d p lib)
unfolding lock_width
lock_width-IsSound services d p lib (unique, counted) = (
  elim (Bool-cases (is_none p.locked)) [
    | inl first ↦ rw (first, lock_width) unique
    | inr locked ↦ rw (locked, lock_width) unique
  ],
  lock_width-IsCounted services d p lib counted,
)

delete_document-IsSound :
    (broker_answers : Bool) (chatbot_id document_id : ℕ) (lib : Library)
    → IsSound lib
    → IsSound (delete_document broker_answers chatbot_id document_id lib []).1
unfolding delete_document
delete_document-IsSound broker_answers chatbot_id document_id lib (unique, counted) = (
  elim (Option-cases (get_for_chatbot document_id chatbot_id lib.documents)) [
    | inl missing ↦ rw (missing, delete_document) unique
    | inr (d, found) ↦ rw (found, delete_document) (remove-HasUniqueKeys d.id lib.documents unique)
  ],
  delete_document-IsCounted broker_answers chatbot_id document_id lib counted,
)

reprocess_document-IsSound :
    (broker_answers : Bool) (org_id chatbot_id document_id : ℕ) (lib : Library)
    → IsSound lib
    → IsSound (reprocess_document broker_answers org_id chatbot_id document_id lib []).1
unfolding reprocess_document
reprocess_document-IsSound broker_answers org_id chatbot_id document_id lib (unique, counted) =
    elim (Option-cases (get_for_chatbot document_id chatbot_id lib.documents)) [
      | inl missing ↦ rw (missing, reprocess_document) (unique, counted)
      | inr (d, found) ↦
          let e = record d { status = DocumentStatus.pending; error_message = none } in
          let stored = get_of_get_for_chatbot document_id chatbot_id lib.documents d unique found in
          rw (found, reprocess_document)
            (
              save-HasUniqueKeys e lib.documents unique,
              λ j. counted j ∙ sym (recorded-save d e j lib.documents stored refl refl),
            )
    ]

commit-IsSound : (t : Transaction) (lib : Library) → IsSound lib → IsSound (commit t lib)
unfolding commit
commit-IsSound (Transaction.upload site u file_type n yielded) lib h =
    insert-IsSound (new_document site u file_type n yielded) lib refl h
commit-IsSound (Transaction.mark document_id status error_message) lib h =
    set_status-IsSound document_id status error_message lib h
commit-IsSound (Transaction.lock services d p) lib h = lock_width-IsSound services d p lib h
commit-IsSound (Transaction.write services d p) lib h = write_chunks-IsSound services d p lib h
commit-IsSound (Transaction.delete broker_answers chatbot_id document_id) lib h =
    delete_document-IsSound broker_answers chatbot_id document_id lib h
commit-IsSound (Transaction.reprocess broker_answers org_id chatbot_id document_id) lib h =
    reprocess_document-IsSound broker_answers org_id chatbot_id document_id lib h

-- Through any interleaving of uploads, deletions, requests to reprocess and the transactions of any
-- number of workers, every document's `chunk_count` is the number of its passages, no passage is
-- left without its document, and no two documents have one id.
pub commit_all-IsSound :
    (ts : List Transaction) (lib : Library) → IsSound lib → IsSound (commit_all ts lib)
commit_all-IsSound [] lib h = h
commit_all-IsSound (t ∷ ts) lib h = commit_all-IsSound ts (commit t lib) (commit-IsSound t lib h)
