-- ===== src/Documents/Tests.antt =====
-- Uploads and ingestion at concrete inputs.
use nuvrag_platform.Base.{
  ◌+◌, length, map, ℕ, suc, ◌≡◌, refl, true, false, none, some, List, [], ◌∷◌, arith, take,
}
use nuvrag_platform.Base.Text.{Text, text, strip, lstrip, is_space, text_eq, starts_with, ends_with}
use nuvrag_platform.Base.Rows.{get}
use nuvrag_platform.Domain.Enums.{DocumentStatus, FileType}
use nuvrag_platform.Domain.Errors.{DomainError, ok}
use nuvrag_platform.Usage.{
  Outage, ingestion_units, consume, headroom, period_start, execute_consume,
}
use nuvrag_platform.Ai.{ChatbotAiConfig, Connection, ChatProviderName, EmbeddingProviderName}
use nuvrag_platform.Documents.{Document, Library, document_row}
use nuvrag_platform.Documents.Stream.{
  received, resolve_file_type, after_last_dot, before_semicolon, type_of_extension,
}
use nuvrag_platform.Documents.Upload.{
  Depot, Site, Upload, upload_document, check_upload, new_document, transferred, settle,
}
use nuvrag_platform.Documents.Uploaded.{
  Accepted, Refused, upload_document-Refused, upload_document-Accepted,
}
use nuvrag_platform.Documents.Chunker.{
  TextSection, chunk_sections, chunk_sections_lem, bodies, numbered,
}
use nuvrag_platform.Documents.Pipeline.{
  Attempt, Fault, Services, IngestionResult, process_document, settle_dimension, set_status,
  record_embedding_dimension, rows_of, persist,
}
use nuvrag_platform.Documents.Repeated.{process_document_idempotent, anonymous, with_ids}
use nuvrag_platform.Documents.Service.{Transaction, commit_all}
use nuvrag_platform.Documents.History.{IsSound, commit_all-IsSound}
use nuvrag_platform.Documents.Scanner.{
  frames_of, receive_frames, Exchange, ensure_clean, scan, interpret,
}
use nuvrag_platform.Documents.Scanned.{receive_frames-frames_of, indexed_clean}
use nuvrag_platform.Documents.Task.{
  Retries, TaskOutcome, process_document_task, run_job, conclude_task, handle_fault,
}
use nuvrag_platform.Documents.Settled.{HasStatus, status_after, is_final, run_job_ends, task_status}

abbrev works : Outage
works = record { write_fails = false; read_fails = false }

abbrev site : Site
site = record {
  lower = λ s. s;
  sha256 = λ bytes. bytes;
  max_upload_bytes = 5;
  embedding_ready = ok tt;
  fail_closed = false;
  today = record { year = 2026; month = 3; day = 17 };
  headroom_outage = works;
  consume_outage = works;
  document_id = 40;
  broker_answers = true;
  storage_fault = none;
  delete_fails = false;
  insert_fails = false;
}

abbrev note : Upload
note = record {
  org_id = 1;
  chatbot_id = 7;
  uploaded_by = 3;
  filename = some (text "a.txt");
  content_type = some (text "text/plain");
  reads = text "abc" ∷ text "d" ∷ [];
  cap_units = some 2;
}

abbrev too_large : Upload
too_large = record note { reads = text "abc" ∷ text "def" ∷ [] }

abbrev empty_depot : Depot
empty_depot = record { documents = []; usage = []; objects = []; jobs = [] }

abbrev note_document : Document
note_document = new_document site note FileType.txt 4 (text "abc" ∷ text "d" ∷ [])

note_uploaded :
    (upload_document site note empty_depot).0
    ≡ Attempt.done (record { document = note_document; task_id = some 40 })
unfolding upload_document transferred settle consume period_start execute_consume received
    resolve_file_type after_last_dot before_semicolon type_of_extension starts_with strip lstrip
    is_space text_eq ingestion_units headroom
note_uploaded = refl

too_large_refused :
    (upload_document site too_large empty_depot).0
    ≡ Attempt.failed (Fault.domain DomainError.payload_too_large)
unfolding upload_document transferred settle consume period_start execute_consume received
    resolve_file_type after_last_dot before_semicolon type_of_extension starts_with strip lstrip
    is_space text_eq ingestion_units headroom
too_large_refused = refl

-- A row that cannot be inserted leaves the charge and the object.
abbrev no_insert : Site
no_insert = record site { insert_fails = true }

insert_lost :
    let (outcome, after) = upload_document no_insert note empty_depot in
    (outcome ≡ Attempt.failed Fault.unexpected)
    × (length after.usage ≡ 1)
    × (length after.objects ≡ 1)
    × (after.documents ≡ [])
unfolding upload_document transferred settle consume period_start execute_consume received
    resolve_file_type after_last_dot before_semicolon type_of_extension starts_with strip lstrip
    is_space text_eq ingestion_units headroom
insert_lost = (refl, refl, refl, refl)

upload_document-Refused_example :
    Refused site too_large empty_depot (upload_document site too_large empty_depot).1
upload_document-Refused_example =
    upload_document-Refused site too_large empty_depot (Fault.domain DomainError.payload_too_large)
      refl too_large_refused

upload_document-Accepted_example :
    (file_type : FileType) × (check_upload site note empty_depot ≡ ok file_type)
    × Accepted site note file_type
        (record { document = note_document; task_id = some 40 })
        empty_depot
        (upload_document site note empty_depot).1
upload_document-Accepted_example =
    upload_document-Accepted site note empty_depot
      (record { document = note_document; task_id = some 40 }) refl note_uploaded

abbrev sections : List TextSection
sections =
    record { content = text "one"; metadata = [] }
    ∷ record { content = text " "; metadata = [] }
    ∷ record { content = text "two"; metadata = [] }
    ∷ record { content = text "three"; metadata = [] }
    ∷ []

abbrev whole : Text → List Text
whole s = s ∷ []

abbrev no_tokens : Text → ℕ
no_tokens s = 0

chunk_sections_lem_example :
    chunk_sections whole no_tokens 2 sections
    ≡ numbered whole no_tokens 2 0 (take 2 (bodies whole no_tokens 2 sections))
chunk_sections_lem_example = chunk_sections_lem whole no_tokens 2 sections (omega arith)

abbrev pub services : Services
services = record {
  download = λ path. Attempt.done (text "one");
  check_clean = λ payload filename. Attempt.done tt;
  extract_text =
      λ file_type payload. Attempt.done (record { content = payload; metadata = [] } ∷ []);
  split_text = whole;
  count_tokens = no_tokens;
  max_chunks_per_document = 2;
  build_embedder = λ chatbot_id. Attempt.done tt;
  embed_batch = λ texts. Attempt.done ((1 ∷ 2 ∷ 3 ∷ []) ∷ []);
  new_chunk_id = λ index. 900 + index;
}

abbrev pub scanner_down : Services
scanner_down = record services {
  check_clean =
      λ payload filename. Attempt.failed (Fault.domain (DomainError.document_processing true));
}

abbrev pub no_connection : Connection
no_connection = record {
  endpoint = none;
  api_version = none;
  region = none;
  base_url = none;
  think = none;
}

abbrev pub config : ChatbotAiConfig
config = record {
  id = 70;
  org_id = 1;
  chatbot_id = 7;
  chat_provider = ChatProviderName.ollama;
  chat_model = text "m";
  chat_credentials_encrypted = none;
  chat_config_json = no_connection;
  embedding_provider = EmbeddingProviderName.ollama;
  embedding_model = text "e";
  embedding_credentials_encrypted = none;
  embedding_config_json = no_connection;
  embedding_dimension = none;
}

abbrev pub shelf : Library
shelf = record { documents = note_document ∷ []; chunks = []; configs = config ∷ [] }

abbrev one_chunk : IngestionResult
one_chunk = record { document_id = 40; chunk_count = 1 }

note_processed : (process_document services 40 shelf).0 ≡ Attempt.done one_chunk
unfolding process_document set_status chunk_sections settle_dimension record_embedding_dimension
    rows_of persist strip lstrip is_space
note_processed = refl

process_document_idempotent_example :
    let first = (process_document services 40 shelf).1 in
    let (outcome, second) = process_document (with_ids (λ index. 950 + index) services) 40 first in
    (outcome ≡ Attempt.done one_chunk)
    × (second.documents ≡ first.documents)
    × (second.configs ≡ first.configs)
    × (map anonymous second.chunks ≡ map anonymous first.chunks)
process_document_idempotent_example =
    process_document_idempotent services (λ index. 950 + index) 40 one_chunk shelf note_processed

abbrev history : List Transaction
history =
    Transaction.upload site note FileType.txt 4 (text "abc" ∷ text "d" ∷ [])
    ∷ Transaction.mark 40 DocumentStatus.processing none
    ∷ Transaction.write services note_document (record {
      locked = none;
      dimension = 3;
      chunks = record { index = 0; content = text "one"; token_count = 0; metadata = [] } ∷ [];
      embeddings = (1 ∷ 2 ∷ 3 ∷ []) ∷ [];
    })
    ∷ Transaction.reprocess true 1 7 40
    ∷ Transaction.delete true 7 40
    ∷ []

abbrev empty_shelf : Library
empty_shelf = record { documents = []; chunks = []; configs = [] }

commit_all-IsSound_example : IsSound (commit_all history empty_shelf)
commit_all-IsSound_example = commit_all-IsSound history empty_shelf (tt, λ id. refl)

abbrev twice : Retries
twice = record { max_task_retries = 1; retry_backoff_seconds = 20; retry_backoff_max_seconds = 600 }

abbrev no_message : Fault → Text
no_message fault = []

-- A scanner that stays unreachable uses up the attempts and leaves the document `processing`.
stuck :
    (run_job twice no_message (λ attempt. scanner_down) 2 0 40 shelf).0
    ≡ some (TaskOutcome.raised (Fault.domain (DomainError.document_processing true)))
unfolding run_job process_document_task conclude_task handle_fault process_document set_status
stuck = refl

run_job_ends_example :
    (o : TaskOutcome) × ((run_job twice no_message (λ attempt. scanner_down) 2 0 40 shelf).0
      ≡ some o)
    × (is_final o ≡ true)
run_job_ends_example =
    run_job_ends twice no_message (λ attempt. scanner_down) 2 0 40 shelf (omega arith) (omega arith)

task_status_example :
    let (o, after) = process_document_task twice no_message scanner_down 1 40 shelf in
    HasStatus 40 (status_after o) after
task_status_example = task_status twice no_message scanner_down 1 40 note_document shelf refl

receive_frames-frames_of_example :
    receive_frames (suc 3) (frames_of 2 (1 ∷ 2 ∷ 3 ∷ [])) ≡ some (1 ∷ 2 ∷ 3 ∷ [])
receive_frames-frames_of_example =
    receive_frames-frames_of 2 (1 ∷ 2 ∷ 3 ∷ []) (omega arith) (omega arith)

abbrev clamd : List ℕ → Exchange
clamd payload = Exchange.answered (text "stream: OK")

abbrev scanned : Services
scanned = record services { check_clean = ensure_clean (some clamd) }

scanned_processed : (process_document scanned 40 shelf).0 ≡ Attempt.done one_chunk
unfolding process_document set_status chunk_sections settle_dimension record_embedding_dimension
    rows_of persist strip lstrip is_space ensure_clean scan interpret text_eq
scanned_processed = refl

indexed_clean_example :
    (d : Document) × (payload : List ℕ) × (response : Text) × (get 40 shelf.documents ≡ some d)
    × (scanned.download d.storage_path ≡ Attempt.done payload)
    × (clamd payload ≡ Exchange.answered response)
    × (ends_with (text "OK") response ≡ true)
indexed_clean_example = indexed_clean scanned clamd 40 one_chunk shelf refl scanned_processed
