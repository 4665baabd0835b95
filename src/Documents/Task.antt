-- ===== src/Documents/Task.antt =====
-- `process_document_task` of `app/worker/tasks.py`: the attempts of one ingestion job. Celery's `retry`
-- raises its signal until the attempts are used up, and then the exception that it was given; the
-- messages of exceptions are an argument. Nothing else runs between two attempts of the model.
use nuvrag_platform.Base.{
  ℕ, zero, suc, ◌*◌, true, false, leb, min, if◌then◌else◌, Option, none, some,
}
use Prim.Native.Nat.{◌^◌}
use nuvrag_platform.Base.Text.{Text}
use nuvrag_platform.Domain.Errors.{DomainError}
use nuvrag_platform.Documents.{Library}
use nuvrag_platform.Documents.Pipeline.{
  Attempt, Fault, Services, IngestionResult, process_document, mark_failed,
}

-- The settings that the task reads.
pub record Retries : Type 0 where
  pub max_task_retries : ℕ
  pub retry_backoff_seconds : ℕ
  pub retry_backoff_max_seconds : ℕ

pub data TaskOutcome : Type 0 where
  ready : IngestionResult → TaskOutcome
  missing failed : TaskOutcome
  retry : ℕ → TaskOutcome
  raised : Fault → TaskOutcome

unfoldable pub backoff : Retries → ℕ → ℕ
backoff settings retries =
    min (settings.retry_backoff_seconds * 2 ^ retries) settings.retry_backoff_max_seconds

-- `self.retry(exc=exc, countdown=…)`
abbrev pub retry_or_raise : Retries → Fault → ℕ → TaskOutcome
retry_or_raise settings fault retries =
    if leb settings.max_task_retries retries
    then TaskOutcome.raised fault
    else TaskOutcome.retry (backoff settings retries)

-- The `except` clauses of the task, and the branches of the second.
pub data Handler : Type 0 where
  document_missing permanent_failure transient_failure other_exception : Handler

abbrev pub handler_of : Fault → Handler
handler_of (Fault.domain DomainError.not_found) = Handler.document_missing
handler_of (Fault.domain (DomainError.document_processing false)) = Handler.permanent_failure
handler_of (Fault.domain (DomainError.document_processing true)) = Handler.transient_failure
handler_of fault = Handler.other_exception

unfoldable pub handle_fault :
    Retries → (Fault → Text) → ℕ → ℕ → Fault → Library → Handler → TaskOutcome × Library
unfolding mark_failed
handle_fault settings message retries id fault lib Handler.document_missing =
    (TaskOutcome.missing, lib)
handle_fault settings message retries id fault lib Handler.permanent_failure =
    (TaskOutcome.failed, mark_failed id (message fault) lib)
handle_fault settings message retries id fault lib Handler.transient_failure =
    (retry_or_raise settings fault retries, lib)
handle_fault settings message retries id fault lib Handler.other_exception =
    if leb settings.max_task_retries retries
    then (TaskOutcome.raised fault, mark_failed id (message fault) lib)
    else (retry_or_raise settings fault retries, lib)

-- What the task does with the outcome of `process_document`.
unfoldable pub conclude_task :
    Retries → (Fault → Text) → ℕ → ℕ → Attempt IngestionResult → Library → TaskOutcome × Library
unfolding handle_fault
conclude_task settings message retries id (Attempt.done r) lib = (TaskOutcome.ready r, lib)
conclude_task settings message retries id (Attempt.failed fault) lib =
    handle_fault settings message retries id fault lib (handler_of fault)

unfoldable pub process_document_task :
    Retries → (Fault → Text) → Services → ℕ → ℕ → Library → TaskOutcome × Library
unfolding conclude_task process_document
process_document_task settings message services retries id lib =
    let (outcome, after) = process_document services id lib in
    conclude_task settings message retries id outcome after

-- Celery runs the task again exactly where it raised `Retry`.
abbrev pub unless_retried :
    TaskOutcome → Library → Option TaskOutcome × Library → Option TaskOutcome × Library
unless_retried (TaskOutcome.retry delay) lib next = next
unless_retried outcome lib next = (some outcome, lib)

-- The attempts of one job, by fuel; the services may answer differently at each.
unfoldable pub run_job :
    Retries → (Fault → Text) → (ℕ → Services) → ℕ → ℕ → ℕ → Library → Option TaskOutcome × Library
unfolding process_document_task
run_job settings message services zero retries id lib = (none, lib)
run_job settings message services (suc fuel) retries id lib =
    let (outcome, after) =
      process_document_task settings message (services retries) retries id lib in
    unless_retried outcome after (run_job settings message services fuel (suc retries) id after)
