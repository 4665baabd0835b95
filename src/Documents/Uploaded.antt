-- ===== src/Documents/Uploaded.antt =====
-- What one call of `upload_document` leaves behind, whether it is refused or accepted.
use nuvrag_platform.Base.{
  ◌+◌, ◌⊎◌, ◌||◌, is_some, Option-cases, some, none, ℕ, ◌≤◌, ◌≡◌, refl, true, false, List, [], ◌∷◌,
  ◌++◌, ap, sym, ◌∙◌, arith, Bool-cases, inl, inr,
}
use nuvrag_platform.Base.Text.{text_eq, text_eq_iff}
use nuvrag_platform.Base.Rows.{add}
use nuvrag_platform.Domain.Enums.{FileType, DocumentStatus}
use nuvrag_platform.Domain.Errors.{DomainError, UsageKind, Result, err, ok, Result-cases}
use nuvrag_platform.Usage.{
  current_used, period_start, consume, charge_of, ingestion_units, UsageVerdict, UsagePeriod,
}
use nuvrag_platform.Usage.Charging.{consume_refused, consume_exact}
use nuvrag_platform.Documents.Pipeline.{Fault, Attempt}
use nuvrag_platform.Documents.{Document, StorageKey, StoredObject, document_row}
use nuvrag_platform.Documents.Stream.{
  metered, received, joined_chunks, total_size, metered_whole, total_size-metered-le,
}
use nuvrag_platform.Documents.Upload.{
  same_path, Depot, delete_object, upload_object, has_object, Upload, UploadOutcome, Site,
  check_upload, new_document, enqueue_ingestion, discard, left_over, transferred, StorageFault,
  settle, receive, upload_document, build_storage_key,
}

text_eq_refl : (s : List ℕ) → text_eq s s ≡ true
text_eq_refl s = (text_eq_iff s s).1 refl

same_path_refl : (path : StorageKey) → same_path path path ≡ true
same_path_refl path = ground (arith, text_eq_refl path.suffix)

delete_object_absent :
    (path : StorageKey) (objects : List StoredObject)
    → has_object path objects ≡ false
    → delete_object path objects ≡ objects
delete_object_absent path [] h = refl
delete_object_absent path (o ∷ objects) h = ground (arith, delete_object_absent path objects)

upload_object_absent :
    (path : StorageKey) (content : List ℕ) (objects : List StoredObject)
    → has_object path objects ≡ false
    → upload_object path content objects ≡ objects ++ record { path = path; content = content } ∷ []
upload_object_absent path content objects h = rw (delete_object_absent path objects h) refl

delete_object-append :
    (path : StorageKey) (content : List ℕ) (objects : List StoredObject)
    → has_object path objects ≡ false
    → delete_object path (objects ++ record { path = path; content = content } ∷ []) ≡ objects
delete_object-append path content [] h = ground (arith, same_path_refl path)
delete_object-append path content (o ∷ objects) h =
    ground (arith, delete_object-append path content objects)

-- An object that is written and deleted again leaves the storage as it was.
delete_object-upload_object :
    (path : StorageKey) (content : List ℕ) (objects : List StoredObject)
    → has_object path objects ≡ false
    → delete_object path (upload_object path content objects) ≡ objects
delete_object-upload_object path content objects h =
    rw (upload_object_absent path content objects h) (delete_object-append path content objects h)

module _ (site : Site) (u : Upload) where
  -- The charge that an accepted file of a size makes.
  abbrev pub charged : ℕ → List UsagePeriod → UsageVerdict × List UsagePeriod
  charged size usage =
      consume site.fail_closed site.consume_outage
        (charge_of site.today u.org_id u.chatbot_id UsageKind.ingestion (ingestion_units size)
          u.cap_units)
        usage

  -- What a failed upload leaves: nothing; or the storage failed, and only what is stored differs; or the
  -- row could not be inserted, and the charge for the received bytes and their object stay.
  unfoldable pub Refused : Depot → Depot → Type 0
  Refused depot after =
      (after ≡ depot)
      ⊎ ((((is_some site.storage_fault || site.delete_fails) ≡ true)
            × ((objects : List StoredObject) × (after ≡ record depot { objects = objects })))
          ⊎ ((site.insert_fails ≡ true)
              × (after ≡ record depot {
                usage = (charged (total_size (received u.reads)) depot.usage).1;
                objects =
                    depot.objects
                    ++ record {
                      path = build_storage_key site u;
                      content = joined_chunks (received u.reads);
                    }
                      ∷ [];
              })))

  discard-Refused :
      (e : DomainError) (content : List ℕ) (depot : Depot)
      → has_object (build_storage_key site u) depot.objects ≡ false
      → Refused depot
          (discard site u e (record depot {
            objects = upload_object (build_storage_key site u) content depot.objects;
          })).1
  unfolding Refused
  discard-Refused e content depot absent = elim (Bool-cases site.delete_fails) [
    | inl stuck ↦ rw stuck (
        inr (
          inl
            (ground arith, (upload_object (build_storage_key site u) content depot.objects, refl))))
    | inr works ↦ rw works (
        inl (
          ap (λ objects. record depot { objects = objects })
            (delete_object-upload_object (build_storage_key site u) content depot.objects absent)))
  ]

  -- The depot with the bytes that were received.
  abbrev filled : Depot → Depot
  filled depot = record depot {
    objects =
        upload_object (build_storage_key site u) (joined_chunks (received u.reads)) depot.objects;
  }

  settle-discard :
      (file_type : FileType) (depot : Depot)
      → (charged (total_size (received u.reads)) depot.usage).0.allowed ≡ false
      → (e : DomainError) × (settle site u file_type
            (total_size (received u.reads))
            (received u.reads)
            (filled depot)
          ≡ discard site u e (filled depot))
  unfolding settle
  settle-discard file_type depot refused =
      let n = total_size (received u.reads) in
      let spend = (charged n depot.usage).0 in
      let same =
        consume_refused site.fail_closed site.consume_outage
          (charge_of site.today u.org_id u.chatbot_id UsageKind.ingestion (ingestion_units n)
            u.cap_units)
          depot.usage refused in
      (
        DomainError.usage_cap_exceeded UsageKind.ingestion spend.used spend.cap,
        rw (refused, same, settle) refl,
      )

  settle-lost :
      (file_type : FileType) (depot : Depot) (fault : Fault)
      → has_object (build_storage_key site u) depot.objects ≡ false
      → (charged (total_size (received u.reads)) depot.usage).0.allowed ≡ true
      → let after =
          settle site u file_type
            (total_size (received u.reads))
            (received u.reads)
            (filled depot) in
        after.0 ≡ Attempt.failed fault → Refused depot after.1
  unfolding settle Refused
  settle-lost file_type depot fault absent spends = elim (Bool-cases site.insert_fails) [
    | inr inserted ↦ rw (spends, inserted, settle) (λ h. cc)
    | inl lost ↦
        rw (spends, lost, settle)
          (λ h. inr (
            inr (
              refl,
              ap
                  (λ objects. record depot {
                    usage = (charged (total_size (received u.reads)) depot.usage).1;
                    objects = objects;
                  })
                  (upload_object_absent (build_storage_key site u)
                    (joined_chunks (received u.reads)) depot.objects absent),
            )))
  ]

  settle-Refused :
      (file_type : FileType) (depot : Depot) (fault : Fault)
      → has_object (build_storage_key site u) depot.objects ≡ false
      → let after =
          settle site u file_type
            (total_size (received u.reads))
            (received u.reads)
            (filled depot) in
        after.0 ≡ Attempt.failed fault → Refused depot after.1
  settle-Refused file_type depot fault absent =
      elim (Bool-cases (charged (total_size (received u.reads)) depot.usage).0.allowed) [
        | inl spends ↦ settle-lost file_type depot fault absent spends
        | inr refused ↦
            let (e, same) = settle-discard file_type depot refused in
            rw same (λ h. discard-Refused e (joined_chunks (received u.reads)) depot absent)
      ]

  storage-Refused :
      (depot : Depot) (objects : List StoredObject)
      → is_some site.storage_fault ≡ true
      → Refused depot (record depot { objects = objects })
  unfolding Refused
  storage-Refused depot objects down = inr (inl (ground (arith, down), (objects, refl)))

  same-Refused : (depot : Depot) → Refused depot depot
  unfolding Refused
  same-Refused depot = inl refl

  receive-up :
      (file_type : FileType) (depot : Depot)
      → site.storage_fault ≡ none
      → receive site u file_type depot
        ≡ transferred site u file_type depot
            (metered file_type site.max_upload_bytes true 0 u.reads).0
            (metered file_type site.max_upload_bytes true 0 u.reads).1
  unfolding receive
  receive-up file_type depot up = rw (up, receive) refl

  receive-down :
      (file_type : FileType) (depot : Depot) (broken : StorageFault)
      → site.storage_fault ≡ some broken
      → receive site u file_type depot ≡ (
        Attempt.failed broken.raises,
        record depot { objects = left_over site u broken.left depot.objects },
      )
  unfolding receive
  receive-down file_type depot broken down = rw (down, receive) refl

  transferred-Refused :
      (file_type : FileType) (depot : Depot) (fault : Fault) (size : Result ℕ)
      (yielded : List (List ℕ))
      → has_object (build_storage_key site u) depot.objects ≡ false
      → ((n : ℕ) → size ≡ ok n → (yielded ≡ received u.reads) × (n ≡ total_size (received u.reads)))
      → (transferred site u file_type depot size yielded).0 ≡ Attempt.failed fault
      → Refused depot (transferred site u file_type depot size yielded).1
  unfolding transferred
  transferred-Refused file_type depot fault (err e) yielded absent whole =
      λ h. discard-Refused e (joined_chunks yielded) depot absent
  transferred-Refused file_type depot fault (ok n) yielded absent whole =
      let (all, size) = whole n refl in rw (all, size) (settle-Refused file_type depot fault absent)

  receive-Refused :
      (file_type : FileType) (depot : Depot) (fault : Fault)
      → has_object (build_storage_key site u) depot.objects ≡ false
      → (receive site u file_type depot).0 ≡ Attempt.failed fault
      → Refused depot (receive site u file_type depot).1
  receive-Refused file_type depot fault absent = elim (Option-cases site.storage_fault) [
    | inr (broken, down) ↦
        rw (receive-down file_type depot broken down) (λ h.
          storage-Refused depot (left_over site u broken.left depot.objects) (ap is_some down))
    | inl up ↦ rw (receive-up file_type depot up) (
        transferred-Refused file_type depot fault
          (metered file_type site.max_upload_bytes true 0 u.reads).0
          (metered file_type site.max_upload_bytes true 0 u.reads).1 absent
          (λ n accepted.
            let (whole, measured, pos) =
              metered_whole file_type site.max_upload_bytes true 0 n u.reads accepted in
            (whole, omega (arith, measured))))
  ]

  -- An upload that fails leaves the documents, the counters, the stored objects and the queue as they
  -- were, but for two cases: where the storage fails in the transfer or in a deletion, what is stored
  -- may differ, and where the row of the document cannot be inserted, the charge for the received bytes
  -- and the object that holds them may stay. Nothing is stored under the fresh key before.
  pub upload_document-Refused :
      (depot : Depot) (fault : Fault)
      → has_object (build_storage_key site u) depot.objects ≡ false
      → (upload_document site u depot).0 ≡ Attempt.failed fault
      → Refused depot (upload_document site u depot).1
  unfolding upload_document
  upload_document-Refused depot fault absent = elim (Result-cases (check_upload site u depot)) [
    | inr (raised, fails) ↦ rw (fails, upload_document) (λ h. same-Refused depot)
    | inl (file_type, passes) ↦
        rw (passes, upload_document) (receive-Refused file_type depot fault absent)
  ]

  -- The document that a received file of a type and size is recorded as.
  abbrev pub Describes : Document → FileType → ℕ → Type 0
  Describes document file_type n =
      ((document.id ≡ site.document_id)
        × (document.org_id ≡ u.org_id)
        × (document.chatbot_id ≡ u.chatbot_id)
        × (document.uploaded_by ≡ some u.uploaded_by))
      × ((document.file_type ≡ file_type)
          × (document.storage_path ≡ build_storage_key site u)
          × (document.size_bytes ≡ n)
          × (document.checksum_sha256 ≡ some (site.sha256 (joined_chunks (received u.reads)))))
      × ((document.status ≡ DocumentStatus.pending)
          × (document.chunk_count ≡ 0)
          × (document.error_message ≡ none))

  -- The units of ingestion that the chatbot has used this month.
  abbrev pub ingestion_used : List UsagePeriod → ℕ
  ingestion_used = current_used u.chatbot_id (period_start site.today) UsageKind.ingestion

  charged_units :
      (n : ℕ) (usage : List UsagePeriod)
      → (charged n usage).0.allowed ≡ true
      → (site.consume_outage.write_fails ≡ true)
        ⊎ (ingestion_used (charged n usage).1 ≡ ingestion_used usage + ingestion_units n)
  charged_units n usage h = elim (Bool-cases site.consume_outage.write_fails) [
    | inl out ↦ inl out
    | inr works ↦ inr (
        ground (
          arith,
          h,
          consume_exact site.fail_closed site.consume_outage
              (charge_of site.today u.org_id u.chatbot_id UsageKind.ingestion (ingestion_units n)
                u.cap_units)
              usage works,
        ))
  ]

  -- What the depot holds after an accepted upload of a file type.
  abbrev pub Accepted : FileType → UploadOutcome → Depot → Depot → Type 0
  Accepted file_type outcome depot after =
      let n = total_size (received u.reads) in
      (1 ≤ n)
      × (n ≤ site.max_upload_bytes)
      × Describes outcome.document file_type n
      × (after.documents ≡ add outcome.document depot.documents)
      × (after.objects
          ≡ depot.objects
            ++ record {
              path = build_storage_key site u;
              content = joined_chunks (received u.reads);
            }
              ∷ [])
      × ((site.consume_outage.write_fails ≡ true)
          ⊎ (ingestion_used after.usage ≡ ingestion_used depot.usage + ingestion_units n))
      × ((outcome.task_id, after.jobs) ≡ enqueue_ingestion site u depot.jobs)

  settle_accepted :
      (file_type : FileType) (n : ℕ) (yielded : List (List ℕ)) (depot : Depot)
      (outcome : UploadOutcome)
      → (settle site u file_type n yielded depot).0 ≡ Attempt.done outcome
      → let after = (settle site u file_type n yielded depot).1 in
        (outcome.document ≡ new_document site u file_type n yielded)
        × (after.documents ≡ add outcome.document depot.documents)
        × (after.objects ≡ depot.objects)
        × (after.usage ≡ (charged n depot.usage).1)
        × ((charged n depot.usage).0.allowed ≡ true)
        × ((outcome.task_id, after.jobs) ≡ enqueue_ingestion site u depot.jobs)
  unfolding settle
  settle_accepted file_type n yielded depot outcome h = ground arith

  receive-Accepted :
      (file_type : FileType) (depot : Depot) (outcome : UploadOutcome)
      → has_object (build_storage_key site u) depot.objects ≡ false
      → (receive site u file_type depot).0 ≡ Attempt.done outcome
      → Accepted file_type outcome depot (receive site u file_type depot).1
  unfolding receive transferred
  receive-Accepted file_type depot outcome absent = elim (Option-cases site.storage_fault) [
    | inr (broken, down) ↦ rw (down, receive) (λ h. cc)
    | inl up ↦ elim (Result-cases (metered file_type site.max_upload_bytes true 0 u.reads).0) [
      | inr (raised, fails) ↦
          rw (up, receive)
            (rw fails (elim (Bool-cases site.delete_fails) [
              | inl stuck ↦ rw stuck (λ h. cc)
              | inr works ↦ rw works (λ h. cc)
            ]))
      | inl (n, accepted) ↦
          let (whole, measured, pos) =
            metered_whole file_type site.max_upload_bytes true 0 n u.reads accepted in
          let size : n ≡ total_size (received u.reads) = omega (arith, measured) in
          let bound =
            total_size-metered-le file_type site.max_upload_bytes true 0 u.reads (omega arith) in
          let bound' : total_size (metered file_type site.max_upload_bytes true 0 u.reads).1
              ≤ site.max_upload_bytes =
            omega (arith, bound) in
          let stored =
            upload_object_absent (build_storage_key site u) (joined_chunks (received u.reads))
              depot.objects absent in
          rw (up, receive)
            (rw (accepted, whole, size)
              (λ h.
                let (a, b, c, d, e, f) =
                  settle_accepted file_type (total_size (received u.reads)) (received u.reads)
                    (record depot {
                      objects =
                          upload_object (build_storage_key site u)
                            (joined_chunks (received u.reads)) depot.objects;
                    })
                    outcome h in
                let paid = charged_units (total_size (received u.reads)) depot.usage e in
                (
                  ground (arith, size, pos),
                  rw (sym whole) bound',
                  rw a ((refl, refl, refl, refl), (refl, refl, refl, refl), (refl, refl, refl)),
                  b,
                  c ∙ stored,
                  rw d paid,
                  f,
                )))
    ]
  ]

  -- An accepted upload has a file type that the name and the declared content type give, stores
  -- exactly the bytes that were received, at least one and no more than the limit, and adds one pending
  -- document with that type, their size and their digest. It adds their units to the month's count
  -- unless the counters could not be written.
  pub upload_document-Accepted :
      (depot : Depot) (outcome : UploadOutcome)
      → has_object (build_storage_key site u) depot.objects ≡ false
      → (upload_document site u depot).0 ≡ Attempt.done outcome
      → (file_type : FileType) × (check_upload site u depot ≡ ok file_type)
        × Accepted file_type outcome depot (upload_document site u depot).1
  unfolding upload_document
  upload_document-Accepted depot outcome absent = elim (Result-cases (check_upload site u depot)) [
    | inr (raised, fails) ↦ rw (fails, upload_document) (λ h. cc)
    | inl (file_type, passes) ↦
        rw (passes, upload_document)
          (λ h. (file_type, refl, receive-Accepted file_type depot outcome absent h))
  ]
