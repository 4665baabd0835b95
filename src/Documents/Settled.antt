-- ===== src/Documents/Settled.antt =====
-- How an ingestion job ends, and what the document says then.
use nuvrag_platform.Base.{
  ℕ, zero, suc, ◌+◌, ◌≤◌, ◌<◌, ◌≡◌, refl, ap, ◌∙◌, Bool, true, false, leb, arith, Option, none,
  some, ◌⊎◌, inl, inr, Bool-cases, length,
}
use nuvrag_platform.Base.Text.{Text}
use nuvrag_platform.Base.Rows.{get, save, get-key, get-save_self, get-save_loaded}
use nuvrag_platform.Domain.Enums.{DocumentStatus}
use nuvrag_platform.Documents.{Document, Library, document_row}
use nuvrag_platform.Documents.Pipeline.{
  Attempt, Attempt-cases, Fault, Services, IngestionResult, process_document, mark_failed,
  set_status, with_status, ingest, write_chunks, prepare, rows_of,
}
use nuvrag_platform.Documents.Idempotent.{
  lock_width_documents, ingest-written, process_document-done, process_document-written, ready,
}
use nuvrag_platform.Documents.Task.{
  Retries, TaskOutcome, backoff, unless_retried, conclude_task, Handler, handler_of, handle_fault,
  process_document_task, run_job,
}

-- A retry is only asked for while attempts are left, and never later than the longest delay.
handle_fault-retry :
    (settings : Retries) (message : Fault → Text) (retries id delay : ℕ) (fault : Fault)
    (handler : Handler) (lib : Library)
    → (handle_fault settings message retries id fault lib handler).0 ≡ TaskOutcome.retry delay
    → (retries < settings.max_task_retries) × (delay ≤ settings.retry_backoff_max_seconds)
unfolding handle_fault backoff
handle_fault-retry settings message retries id delay fault handler lib h = ground arith

conclude_task-retry :
    (settings : Retries) (message : Fault → Text) (retries id delay : ℕ)
    (outcome : Attempt IngestionResult) (lib : Library)
    → (conclude_task settings message retries id outcome lib).0 ≡ TaskOutcome.retry delay
    → (retries < settings.max_task_retries) × (delay ≤ settings.retry_backoff_max_seconds)
unfolding conclude_task
conclude_task-retry settings message retries id delay (Attempt.done r) lib h = cc
conclude_task-retry settings message retries id delay (Attempt.failed fault) lib h =
    handle_fault-retry settings message retries id delay fault (handler_of fault) lib h

-- The outcomes that end a job.
abbrev pub is_final : TaskOutcome → Bool
is_final (TaskOutcome.retry delay) = false
is_final _ = true

TaskOutcome-cases :
    (o : TaskOutcome) → (is_final o ≡ true) ⊎ ((delay : ℕ) × (o ≡ TaskOutcome.retry delay))
TaskOutcome-cases (TaskOutcome.retry delay) = inr (delay, refl)
TaskOutcome-cases (TaskOutcome.ready r) = inl refl
TaskOutcome-cases TaskOutcome.missing = inl refl
TaskOutcome-cases TaskOutcome.failed = inl refl
TaskOutcome-cases (TaskOutcome.raised fault) = inl refl

unless_retried-final :
    (o : TaskOutcome) (lib : Library) (next : Option TaskOutcome × Library)
    → is_final o ≡ true
    → unless_retried o lib next ≡ (some o, lib)
unless_retried-final o lib next h = ground arith

task-retry :
    (settings : Retries) (message : Fault → Text) (services : Services) (retries id delay : ℕ)
    (lib : Library)
    → (process_document_task settings message services retries id lib).0 ≡ TaskOutcome.retry delay
    → (retries < settings.max_task_retries) × (delay ≤ settings.retry_backoff_max_seconds)
unfolding process_document_task
task-retry settings message services retries id delay lib =
    conclude_task-retry settings message retries id delay (process_document services id lib).0
      (process_document services id lib).1

-- A job ends: from an attempt that is still allowed on, as many attempts as are left and one more
-- give it an outcome that asks for no retry, whatever the services answer at each of them.
pub run_job_ends :
    (settings : Retries) (message : Fault → Text) (services : ℕ → Services) (fuel retries id : ℕ)
    (lib : Library)
    → retries ≤ settings.max_task_retries
    → settings.max_task_retries < retries + fuel
    → (o : TaskOutcome) × ((run_job settings message services fuel retries id lib).0 ≡ some o)
      × (is_final o ≡ true)
unfolding run_job
run_job_ends settings message services zero retries id lib h enough = ground arith
run_job_ends settings message services (suc fuel) retries id lib h enough =
    let attempt = process_document_task settings message (services retries) retries id lib in
    let next = run_job settings message services fuel (suc retries) id attempt.1 in
    elim (TaskOutcome-cases attempt.0) [
      | inl final ↦
          (attempt.0, ap (λ r. r.0) (unless_retried-final attempt.0 attempt.1 next final), final)
      | inr (delay, again) ↦
          let (left, _) =
            task-retry settings message (services retries) retries id delay lib again in
          rw (again, run_job)
            (run_job_ends settings message services fuel (suc retries) id attempt.1
              (omega (arith, left)) (omega (arith, enough)))
    ]

-- What the document's status is after each way in which an attempt can end.
abbrev pub status_after : TaskOutcome → DocumentStatus
status_after (TaskOutcome.ready r) = DocumentStatus.ready
status_after TaskOutcome.missing = DocumentStatus.processing
status_after TaskOutcome.failed = DocumentStatus.failed
status_after (TaskOutcome.retry delay) = DocumentStatus.processing
status_after (TaskOutcome.raised fault) = elim (handler_of fault) [
  | Handler.transient_failure ↦ DocumentStatus.processing
  | _ ↦ DocumentStatus.failed
]

-- The status that `process_document` leaves.
abbrev pub status_of_run : Attempt IngestionResult → DocumentStatus
status_of_run (Attempt.done r) = DocumentStatus.ready
status_of_run (Attempt.failed fault) = DocumentStatus.processing

abbrev pub HasStatus : ℕ → DocumentStatus → Library → Type 0
HasStatus id status lib = (d : Document) × (get id lib.documents ≡ some d) × (d.status ≡ status)

mark_failed-HasStatus :
    (id : ℕ) (reason : Text) (status : DocumentStatus) (lib : Library)
    → HasStatus id status lib
    → HasStatus id DocumentStatus.failed (mark_failed id reason lib)
unfolding mark_failed set_status
mark_failed-HasStatus id reason status lib (d, stored, _) =
    let failed = with_status DocumentStatus.failed (some reason) none d in
    rw (stored, mark_failed, set_status)
      (
        failed,
        ground (arith, get-key id lib.documents d stored, get-save_self failed d lib.documents),
        refl,
      )

handle_fault-HasStatus :
    (settings : Retries) (message : Fault → Text) (retries id : ℕ) (fault : Fault)
    (handler : Handler) (lib : Library)
    → handler_of fault ≡ handler
    → HasStatus id DocumentStatus.processing lib
    → let (o, after) = handle_fault settings message retries id fault lib handler in
      HasStatus id (status_after o) after
unfolding handle_fault
handle_fault-HasStatus settings message retries id fault Handler.document_missing lib e h = h
handle_fault-HasStatus settings message retries id fault Handler.permanent_failure lib e h =
    mark_failed-HasStatus id (message fault) DocumentStatus.processing lib h
handle_fault-HasStatus settings message retries id fault Handler.transient_failure lib e h =
    elim (Bool-cases (leb settings.max_task_retries retries)) [
      | inl exhausted ↦ rw (exhausted, handle_fault) (rw (e, status_after) h)
      | inr left ↦ rw (left, handle_fault) h
    ]
handle_fault-HasStatus settings message retries id fault Handler.other_exception lib e h =
    elim (Bool-cases (leb settings.max_task_retries retries)) [
      | inl exhausted ↦
          rw (exhausted, handle_fault)
            (rw (e, status_after)
              (mark_failed-HasStatus id (message fault) DocumentStatus.processing lib h))
      | inr left ↦ rw (left, handle_fault) h
    ]

conclude_task-HasStatus :
    (settings : Retries) (message : Fault → Text) (retries id : ℕ) (a : Attempt IngestionResult)
    (lib : Library)
    → HasStatus id (status_of_run a) lib
    → let (o, after) = conclude_task settings message retries id a lib in
      HasStatus id (status_after o) after
unfolding conclude_task
conclude_task-HasStatus settings message retries id (Attempt.done r) lib h = h
conclude_task-HasStatus settings message retries id (Attempt.failed fault) lib h =
    handle_fault-HasStatus settings message retries id fault (handler_of fault) lib refl h

ingest-failed :
    (services : Services) (id : ℕ) (d e : Document) (fault : Fault) (lib : Library)
    → get d.id lib.documents ≡ some e
    → (ingest services id d lib).0 ≡ Attempt.failed fault
    → (ingest services id d lib).1.documents ≡ lib.documents
unfolding ingest write_chunks
ingest-failed services id d e fault lib stored =
    elim (Attempt-cases (prepare services d lib.configs)) [
      | inr (raised, fails) ↦ rw (fails, ingest) (λ h. refl)
      | inl (p, prepared) ↦
          let same = lock_width_documents services d p lib in
          elim (Attempt-cases (rows_of services.new_chunk_id d p.dimension p.chunks p.embeddings)) [
            | inr (raised, fails) ↦
                rw (prepared, ingest) (rw (fails, write_chunks) (λ h. ap (λ l. l.documents) same))
            | inl (rows, built) ↦
                rw (ap (λ r. r.0) (ingest-written services id d e p rows lib stored prepared built))
                  (λ h. cc)
          ]
    ]

process_document-failed :
    (services : Services) (id : ℕ) (d : Document) (fault : Fault) (lib : Library)
    → get id lib.documents ≡ some d
    → (process_document services id lib).0 ≡ Attempt.failed fault
    → (process_document services id lib).1.documents
      ≡ save (with_status DocumentStatus.processing none none d) lib.documents
unfolding process_document set_status
process_document-failed services id d fault lib stored =
    let d1 = with_status DocumentStatus.processing none none d in
    let marked = record lib { documents = save d1 lib.documents } in
    let same = get-key id lib.documents d stored in
    let again : get d.id (save d1 lib.documents) ≡ some d1 =
      get-save_loaded d.id d1 d lib.documents (ground (arith, same, stored)) refl in
    rw (stored, process_document)
      (rw (stored, set_status) (ingest-failed services id d d1 fault marked again))

process_document-HasStatus :
    (services : Services) (id : ℕ) (d : Document) (lib : Library)
    → get id lib.documents ≡ some d
    → let (outcome, after) = process_document services id lib in
      HasStatus id (status_of_run outcome) after
process_document-HasStatus services id d lib stored =
    elim (Attempt-cases (process_document services id lib).0) [
      | inl (r, returns) ↦
          let (e, p, rows, found, prepared, built) =
            process_document-done services id r lib returns in
          rw (process_document-written services id e p rows lib found prepared built) (
            ready (length rows) e,
            get-save_loaded id (ready (length rows) e) e lib.documents found refl,
            refl,
          )
      | inr (fault, fails) ↦
          let d1 = with_status DocumentStatus.processing none none d in
          rw fails (
            d1,
            ap (get id) (process_document-failed services id d fault lib stored fails)
                ∙ get-save_loaded id d1 d lib.documents stored refl,
            refl,
          )
    ]

-- An attempt on a document that exists leaves it `ready` where the task returns its passages,
-- `failed` where the task gives up on a permanent failure or re-raises an unexpected exception after
-- the last allowed attempt, and `processing` where a retry is scheduled, where a stage reports
-- something missing, and where a transient failure meets the last allowed attempt.
pub task_status :
    (settings : Retries) (message : Fault → Text) (services : Services) (retries id : ℕ)
    (d : Document) (lib : Library)
    → get id lib.documents ≡ some d
    → let (o, after) = process_document_task settings message services retries id lib in
      HasStatus id (status_after o) after
unfolding process_document_task
task_status settings message services retries id d lib stored =
    conclude_task-HasStatus settings message retries id (process_document services id lib).0
      (process_document services id lib).1 (process_document-HasStatus services id d lib stored)
