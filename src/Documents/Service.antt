-- ===== src/Documents/Service.antt =====
-- `delete_document` and `reprocess_document` of `app/services/document.py`, and any interleaving of
-- the transactions of uploads, workers and requests.
use nuvrag_platform.Base.{ℕ, Bool, Option, none, some, List, [], ◌∷◌, ◌++◌, if◌then◌else◌}
use nuvrag_platform.Base.Text.{Text}
use nuvrag_platform.Base.Rows.{get, save, add, remove}
use nuvrag_platform.Domain.Enums.{DocumentStatus, FileType}
use nuvrag_platform.Domain.Errors.{DomainError, Result, err, ok}
use nuvrag_platform.Documents.{
  Document, Library, document_row, get_for_chatbot, delete_for_document,
}
use nuvrag_platform.Documents.Upload.{Job, Site, Upload, new_document}
use nuvrag_platform.Documents.Pipeline.{Services, Prepared, set_status, lock_width, write_chunks}

abbrev pub enqueue : Bool → Job → List Job → List Job
enqueue broker_answers job jobs = if broker_answers then jobs ++ job ∷ [] else jobs

-- The row and, by the cascade, its passages.
abbrev pub drop_document : ℕ → Library → Library
drop_document document_id lib = record lib {
  documents = remove document_id lib.documents;
  chunks = delete_for_document document_id lib.chunks;
}

unfoldable pub delete_document :
    Bool → ℕ → ℕ → Library → List Job → Result (Unit {0}) × Library × List Job
delete_document broker_answers chatbot_id document_id lib jobs =
    elim (get_for_chatbot document_id chatbot_id lib.documents) [
      | none ↦ (err DomainError.not_found, lib, jobs)
      | some d ↦
          (ok tt, drop_document d.id lib, enqueue broker_answers (Job.purge d.storage_path) jobs)
    ]

-- `_enqueue_ingestion` answers with the id of the job, which is the document's.
unfoldable pub reprocess_document :
    Bool → ℕ → ℕ → ℕ → Library → List Job → Result (Option ℕ) × Library × List Job
reprocess_document broker_answers org_id chatbot_id document_id lib jobs =
    elim (get_for_chatbot document_id chatbot_id lib.documents) [
      | none ↦ (err DomainError.not_found, lib, jobs)
      | some d ↦ (
        ok (if broker_answers then some document_id else none),
        record lib {
          documents =
              save (record d { status = DocumentStatus.pending; error_message = none })
                lib.documents;
        },
        enqueue broker_answers (Job.ingest org_id document_id) jobs,
      )
    ]

-- One committed transaction. A worker's last one uses what it loaded and computed earlier, in
-- whatever state the tables were then.
pub data Transaction : Type 0 where
  upload : Site → Upload → FileType → ℕ → List (List ℕ) → Transaction
  mark : ℕ → DocumentStatus → Option Text → Transaction
  lock : Services → Document → Prepared → Transaction
  write : Services → Document → Prepared → Transaction
  delete : Bool → ℕ → ℕ → Transaction
  reprocess : Bool → ℕ → ℕ → ℕ → Transaction

-- The insertion of a new row, refused where its primary key is taken.
abbrev pub insert : Document → Library → Library
insert d lib = elim (get d.id lib.documents) [
  | some other ↦ lib
  | none ↦ record lib { documents = add d lib.documents }
]

unfoldable pub commit : Transaction → Library → Library
unfolding set_status lock_width write_chunks delete_document reprocess_document
commit (Transaction.upload site u file_type n yielded) lib =
    insert (new_document site u file_type n yielded) lib
commit (Transaction.mark document_id status error_message) lib =
    set_status document_id status error_message none lib
commit (Transaction.lock services d p) lib = lock_width services d p lib
commit (Transaction.write services d p) lib = (write_chunks services d p lib).1
commit (Transaction.delete broker_answers chatbot_id document_id) lib =
    (delete_document broker_answers chatbot_id document_id lib []).1
commit (Transaction.reprocess broker_answers org_id chatbot_id document_id) lib =
    (reprocess_document broker_answers org_id chatbot_id document_id lib []).1

abbrev pub commit_all : List Transaction → Library → Library
commit_all [] lib = lib
commit_all (t ∷ ts) lib = commit_all ts (commit t lib)
