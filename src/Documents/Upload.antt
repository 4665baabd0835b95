-- ===== src/Documents/Upload.antt =====
-- `upload_document` of `app/services/document.py`, with what each failure leaves behind. Logging
-- is left out; `str.lower`, SHA-256, the fresh id, the database's
-- outages, the storage's, the broker and the guard on the embedding provider are arguments.
use nuvrag_platform.Base.{
  ℕ, Bool, true, ◌&&◌, not, Option, none, some, List, [], ◌∷◌, ◌++◌, ◌==◌, if◌then◌else◌, filter,
  any, take,
}
use nuvrag_platform.Base.Text.{Text, text, text_eq, strip}
use nuvrag_platform.Base.Rows.{add}
use nuvrag_platform.Domain.Enums.{DocumentStatus, FileType}
use nuvrag_platform.Domain.Errors.{DomainError, UsageKind, Result, err, ok, ◌>>=◌, ◌>>◌}
use nuvrag_platform.Usage.{
  Date, UsagePeriod, Outage, consume, headroom, charge_of, ingestion_units, period_start,
}
use nuvrag_platform.Documents.{Document, StorageKey, StoredObject, document_row}
use nuvrag_platform.Documents.Pipeline.{Fault, Attempt, failed, done}
use nuvrag_platform.Documents.Stream.{after_last_dot, resolve_file_type, metered, joined_chunks}

abbrev pub same_path : StorageKey → StorageKey → Bool
same_path a b =
    (a.org_id == b.org_id)
    && ((a.chatbot_id == b.chatbot_id)
        && ((a.document_id == b.document_id) && text_eq a.suffix b.suffix))

-- What the worker is asked to do.
pub data Job : Type 0 where
  ingest : ℕ → ℕ → Job
  purge : StorageKey → Job

-- The state that an upload changes.
pub record Depot : Type 0 where
  pub documents : List Document
  pub usage : List UsagePeriod
  pub objects : List StoredObject
  pub jobs : List Job

-- `ObjectStorage.delete`
abbrev pub delete_object : StorageKey → List StoredObject → List StoredObject
delete_object path = filter (λ o. not (same_path o.path path))

-- `ObjectStorage.upload`, with the bytes that the stream yields before it ends or raises
abbrev pub upload_object : StorageKey → List ℕ → List StoredObject → List StoredObject
upload_object path content objects =
    delete_object path objects ++ record { path = path; content = content } ∷ []

abbrev pub has_object : StorageKey → List StoredObject → Bool
has_object path = any (λ o. same_path o.path path)

pub record Upload : Type 0 where
  pub org_id : ℕ
  pub chatbot_id : ℕ
  pub uploaded_by : ℕ
  pub filename : Option Text
  pub content_type : Option Text
  pub reads : List (List ℕ)
  pub cap_units : Option ℕ

pub record UploadOutcome : Type 0 where
  pub document : Document
  pub task_id : Option ℕ

-- A failure of the storage itself in a transfer, with the bytes that it leaves under the key.
pub record StorageFault : Type 0 where
  pub raises : Fault
  pub left : Option (List ℕ)

-- What one call meets.
pub record Site : Type 0 where
  pub lower : Text → Text
  pub sha256 : List ℕ → Text
  pub max_upload_bytes : ℕ
  pub embedding_ready : Result (Unit {0})
  pub fail_closed : Bool
  pub today : Date
  pub headroom_outage : Outage
  pub consume_outage : Outage
  pub document_id : ℕ
  pub broker_answers : Bool
  pub storage_fault : Option StorageFault
  pub delete_fails : Bool
  pub insert_fails : Bool

-- `(upload.filename or "document").strip()[:512]`
abbrev pub filename_of : Option Text → Text
filename_of none = text "document"
filename_of (some []) = text "document"
filename_of (some (c ∷ s)) = take 512 (strip (c ∷ s))

-- `x or default`
abbrev pub text_or : Option Text → Text → Text
text_or none default = default
text_or (some []) default = default
text_or (some (c ∷ s)) default = c ∷ s

module _ (site : Site) (u : Upload) where
  -- `build_storage_key`
  abbrev pub build_storage_key : StorageKey
  build_storage_key = record {
    org_id = u.org_id;
    chatbot_id = u.chatbot_id;
    document_id = site.document_id;
    suffix = elim (after_last_dot (filename_of u.filename)) [
      | none ↦ text "bin"
      | some suffix ↦ site.lower suffix
    ];
  }

  -- The checks before a byte moves.
  unfoldable pub check_upload : Depot → Result FileType
  check_upload depot =
      resolve_file_type site.lower (filename_of u.filename) (text_or u.content_type [])
      >>= λ file_type.
          site.embedding_ready
          >> (let allowance =
                headroom site.fail_closed site.headroom_outage u.chatbot_id
                  (period_start site.today) UsageKind.ingestion u.cap_units depot.usage in
              if allowance.allowed
              then ok file_type
              else err
                  (DomainError.usage_cap_exceeded UsageKind.ingestion allowance.used allowance.cap))

  abbrev pub new_document : FileType → ℕ → List (List ℕ) → Document
  new_document file_type size yielded = record {
    id = site.document_id;
    org_id = u.org_id;
    chatbot_id = u.chatbot_id;
    filename = filename_of u.filename;
    file_type = file_type;
    content_type = text_or u.content_type (text "application/octet-stream");
    storage_path = build_storage_key;
    checksum_sha256 = some (site.sha256 (joined_chunks yielded));
    size_bytes = size;
    chunk_count = 0;
    status = DocumentStatus.pending;
    error_message = none;
    uploaded_by = some u.uploaded_by;
  }

  -- `_enqueue_ingestion`: a broker that does not answer does not lose the upload.
  abbrev pub enqueue_ingestion : List Job → Option ℕ × List Job
  enqueue_ingestion jobs =
      if site.broker_answers
      then (some site.document_id, jobs ++ Job.ingest u.org_id site.document_id ∷ [])
      else (none, jobs)

  -- `await storage.delete(storage_key)`, then the error that led to it.
  abbrev pub discard : DomainError → Depot → Attempt UploadOutcome × Depot
  discard e depot = if site.delete_fails then (failed Fault.unexpected, depot) else (
    failed (Fault.domain e),
    record depot { objects = delete_object build_storage_key depot.objects },
  )

  -- From the exact charge on. A row that cannot be inserted leaves the charge and the object.
  unfoldable pub settle : FileType → ℕ → List (List ℕ) → Depot → Attempt UploadOutcome × Depot
  settle file_type size yielded depot =
      let (spend, usage') =
        consume site.fail_closed site.consume_outage
          (charge_of site.today u.org_id u.chatbot_id UsageKind.ingestion (ingestion_units size)
            u.cap_units)
          depot.usage in
      let (task_id, jobs') = enqueue_ingestion depot.jobs in
      let document = new_document file_type size yielded in
      if spend.allowed
      then (if site.insert_fails
          then (failed Fault.unexpected, record depot { usage = usage' })
          else (
            done (record { document = document; task_id = task_id }),
            record depot { documents = add document depot.documents; usage = usage'; jobs = jobs' },
          ))
      else discard (DomainError.usage_cap_exceeded UsageKind.ingestion spend.used spend.cap)
          (record depot { usage = usage' })

  -- What a failed transfer leaves.
  abbrev pub left_over : Option (List ℕ) → List StoredObject → List StoredObject
  left_over none objects = objects
  left_over (some content) objects = upload_object build_storage_key content objects

  -- After a transfer by a storage that works. Both errors of the stream delete what was written.
  unfoldable pub transferred :
      FileType → Depot → Result ℕ → List (List ℕ) → Attempt UploadOutcome × Depot
  unfolding settle
  transferred file_type depot size yielded =
      let written = upload_object build_storage_key (joined_chunks yielded) depot.objects in
      elim size [
        | err e ↦ discard e (record depot { objects = written })
        | ok n ↦ settle file_type n yielded (record depot { objects = written })
      ]

  -- From the transfer on. An error of the storage itself deletes nothing.
  unfoldable pub receive : FileType → Depot → Attempt UploadOutcome × Depot
  unfolding transferred metered
  receive file_type depot = elim site.storage_fault [
    | some fault ↦
        (failed fault.raises, record depot { objects = left_over fault.left depot.objects })
    | none ↦
        let (size, yielded) = metered file_type site.max_upload_bytes true 0 u.reads in
        transferred file_type depot size yielded
  ]

  unfoldable pub upload_document : Depot → Attempt UploadOutcome × Depot
  unfolding check_upload receive
  upload_document depot = elim (check_upload depot) [
    | err e ↦ (failed (Fault.domain e), depot)
    | ok file_type ↦ receive file_type depot
  ]
