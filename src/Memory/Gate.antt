-- ===== src/Memory/Gate.antt =====
-- When an extraction writes at all, and when it returns.
use nuvrag_platform.Base.{
  Option, ap, ℕ, ◌≤◌, ◌≡◌, refl, true, false, not, none, some, List, [], ◌∷◌, map, arith, ◌==◌, max,
  any, length, length-map, inl, inr, Bool-cases, Option-cases, ◌⊎◌, sym, ◌∙◌,
}
use nuvrag_platform.Base.Text.{Text}
use nuvrag_platform.Base.Rows.{get, HasUniqueKeys}
use mathlib.Core.Path.{subst}
use nuvrag_platform.Domain.Errors.{DomainError, Result, err, ok}
use nuvrag_platform.Desk.{Conversation, Message, MemoryEntry, Desk, conversation_row, memory_row}
use nuvrag_platform.Retention.{is_about}
use nuvrag_platform.Memory.{MemorySettings, Vectors, count_for_subject, exists_for_conversation}
use nuvrag_platform.Memory.Extract.{
  Candidate, Skip, ExtractionReport, Subject, Surroundings, skip, propose, propose_with,
  is_unconfigured, recent_history,
}
use nuvrag_platform.Memory.Pipeline.{
  Outcome, unwritten, with_candidates, with_width, with_embedder, skip_after, subject_of,
  embed_and_store, read_and_store, extract, extract_visitor_memory,
}
use nuvrag_platform.Memory.Store.{store_keeps_ceiling}

-- What is promised of the notes after an extraction about one visitor.
abbrev pub Promise : MemorySettings → ℕ → ℕ → List MemoryEntry → List MemoryEntry → Type 0
Promise config chatbot_id subject_id rows rows' =
    (count_for_subject chatbot_id subject_id rows'
      ≤ max config.max_entries_per_subject (count_for_subject chatbot_id subject_id rows))
    × ((id : ℕ) (m : MemoryEntry)
        → get id rows ≡ some m
        → is_about chatbot_id subject_id m ≡ false
        → get id rows' ≡ some m)

idle :
    (config : MemorySettings) (chatbot_id subject_id : ℕ) (rows : List MemoryEntry)
    → Promise config chatbot_id subject_id rows rows
idle config chatbot_id subject_id rows = (omega arith, λ id m k _. k)

module _ (config : MemorySettings) (v : Vectors) (w : Surroundings)
    (one_each : (texts : List Text) (vectors : List (List ℕ))
      → w.embed_batch texts ≡ some vectors
      → length vectors ≡ length texts) where
  embed_and_store-Promise :
      (s : Subject) (fresh_id : ℕ) (cs : List Candidate) (d : Desk)
      → HasUniqueKeys d.memories
      → ((id : ℕ) → fresh_id ≤ id → get id d.memories ≡ none)
      → (report : ExtractionReport) × (rows : List MemoryEntry) × (embed_and_store config v w s
            fresh_id cs d
          ≡ some (report, rows))
        × Promise config s.chatbot_id s.subject_id d.memories rows
  unfolding embed_and_store
  embed_and_store-Promise s fresh_id [] d unique fresh = (
    skip Skip.nothing_proposed,
    d.memories,
    refl,
    idle config s.chatbot_id s.subject_id d.memories,
  )
  embed_and_store-Promise s fresh_id (c ∷ cs) d unique fresh =
      let texts = map (λ x. x.content) (c ∷ cs) in
      elim (Option-cases (w.embed_batch texts)) [
        | inl failed ↦ (
          skip_after (c ∷ cs) Skip.embed_failed,
          d.memories,
          ground arith,
          idle config s.chatbot_id s.subject_id d.memories,
        )
        | inr (vectors, given) ↦
            elim (Bool-cases (any (λ e. not (length e == s.dimension)) vectors)) [
              | inl wrong ↦ (
                skip_after (c ∷ cs) Skip.width_mismatch,
                d.memories,
                ground arith,
                idle config s.chatbot_id s.subject_id d.memories,
              )
              | inr right ↦
                  let same : length (c ∷ cs) ≡ length vectors =
                    sym (one_each texts vectors given ∙ length-map (λ x. x.content) (c ∷ cs)) in
                  let (q, returned, grown, bounded, complete, stopped, others) =
                    store_keeps_ceiling config v s fresh_id (c ∷ cs) vectors d.memories same unique
                      fresh in
                  (q.report, q.memories, ground arith, (bounded, others))
            ]
      ]

  -- The errors that nothing catches: the factory raises one, for the embedder or the chat model, that
  -- does not say that no provider is configured.
  abbrev pub IsUnreadable : {A : Type 0} → Result A → Type 0
  IsUnreadable lookup = (e : DomainError) × (lookup ≡ err e) × (is_unconfigured e ≡ false)

  abbrev pub Raises : Type 0
  Raises = IsUnreadable w.embedder ⊎ IsUnreadable w.chat_provider

  -- An outcome about a visitor: an uncaught error, or a report with notes that keep the promise and
  -- are changed only under a condition.
  abbrev pub Gated : ℕ → ℕ → List MemoryEntry → Type 0 → Outcome → Type 0
  Gated chatbot_id subject_id notes condition outcome =
      ((outcome ≡ none) × Raises)
      ⊎ ((report : ExtractionReport) × (rows : List MemoryEntry) × (outcome ≡ some (report, rows))
          × Promise config chatbot_id subject_id notes rows
          × ((rows ≡ notes) ⊎ condition))

  unwritten-Gated :
      (report : ExtractionReport) (chatbot_id subject_id : ℕ) (d : Desk) (condition : Type 0)
      → Gated chatbot_id subject_id d.memories condition (unwritten report d)
  unwritten-Gated report chatbot_id subject_id d condition =
      inr (report, d.memories, refl, idle config chatbot_id subject_id d.memories, inl refl)

  Gated-map :
      (chatbot_id subject_id : ℕ) (notes : List MemoryEntry) (p q : Type 0) (outcome : Outcome)
      → (p → q)
      → Gated chatbot_id subject_id notes p outcome
      → Gated chatbot_id subject_id notes q outcome
  Gated-map chatbot_id subject_id notes p q outcome f (inl raised) = inl raised
  Gated-map chatbot_id subject_id notes p q outcome f
        (inr (report, rows, same, promise, inl idle)) =
      inr (report, rows, same, promise, inl idle)
  Gated-map chatbot_id subject_id notes p q outcome f
        (inr (report, rows, same, promise, inr holds)) =
      inr (report, rows, same, promise, inr (f holds))

  propose_with-none :
      (limit : ℕ) (ms : List Message) (r : Result (Unit {0}))
      → propose_with w limit ms r ≡ none
      → IsUnreadable r
  unfolding propose_with
  propose_with-none limit ms (err e) h = (e, refl, ground (arith, h))
  propose_with-none limit ms (ok _) h = ground (arith, h)

  module _ (fresh_id : ℕ) (d : Desk) (unique : HasUniqueKeys d.memories)
      (fresh : (id : ℕ) → fresh_id ≤ id → get id d.memories ≡ none) where
    with_candidates-Gated :
        (s : Subject) (condition : Type 0) (o : Option (List Candidate))
        → (o ≡ none → Raises)
        → condition
        → Gated s.chatbot_id s.subject_id d.memories condition
            (with_candidates config v w fresh_id s d o)
    unfolding with_candidates
    with_candidates-Gated s condition none raises holds = inl (refl, raises refl)
    with_candidates-Gated s condition (some cs) raises holds =
        let (report, rows, returned, promise) =
          embed_and_store-Promise s fresh_id cs d unique fresh in
        inr (report, rows, returned, promise, inr holds)

    module _ (now : ℕ) (org_id : ℕ) (c : Conversation) (ms : List Message) where
      with_width-Gated :
          (width : Option ℕ)
          → Gated c.chatbot_id c.external_session_id d.memories
              ((dimension : ℕ) × (width ≡ some dimension))
              (with_width config v w fresh_id now org_id c ms d width)
      unfolding with_width propose
      with_width-Gated none =
          unwritten-Gated (skip Skip.no_embedding_width) c.chatbot_id c.external_session_id d _
      with_width-Gated (some dimension) =
          with_candidates-Gated (subject_of now org_id c dimension) _
            (propose w config.max_entries_per_extraction ms)
            (λ h. inr (propose_with-none config.max_entries_per_extraction ms w.chat_provider h))
            (dimension, refl)

      with_embedder-Gated :
          (r : Result (Option ℕ))
          → w.embedder ≡ r
          → Gated c.chatbot_id c.external_session_id d.memories
              ((dimension : ℕ) × (r ≡ ok (some dimension)))
              (with_embedder config v w fresh_id now org_id c ms d r)
      unfolding with_embedder
      with_embedder-Gated (err e) h = elim (Bool-cases (is_unconfigured e)) [
        | inl unset ↦
            rw unset
              (unwritten-Gated (skip Skip.no_provider) c.chatbot_id c.external_session_id d _)
        | inr unreadable ↦ rw unreadable (inl (refl, inl (e, h, unreadable)))
      ]
      with_embedder-Gated (ok width) h =
          Gated-map c.chatbot_id c.external_session_id d.memories _ _ _
            (λ (dimension, settled). (dimension, ap ok settled)) (with_width-Gated width)

    read_and_store-Gated :
        (now org_id : ℕ) (c : Conversation) (ms : List Message)
        → Gated c.chatbot_id c.external_session_id d.memories
            ((dimension : ℕ) × (w.embedder ≡ ok (some dimension)))
            (read_and_store config v w now fresh_id org_id c ms d)
    unfolding read_and_store
    read_and_store-Gated now org_id c [] =
        unwritten-Gated (skip Skip.no_history) c.chatbot_id c.external_session_id d _
    read_and_store-Gated now org_id c (m ∷ ms) =
        with_embedder-Gated now org_id c (m ∷ ms) w.embedder refl

    extract-Gated :
        (now org_id conversation_id : ℕ) (c : Conversation)
        → get conversation_id d.conversations ≡ some c
        → Gated c.chatbot_id c.external_session_id d.memories
            ((exists_for_conversation conversation_id d.tickets ≡ true)
              × ((dimension : ℕ) × (w.embedder ≡ ok (some dimension))))
            (extract config v w now fresh_id org_id conversation_id d)
    unfolding extract
    extract-Gated now org_id conversation_id c found =
        elim (Bool-cases (exists_for_conversation conversation_id d.tickets)) [
          | inr never ↦
              rw (found, extract)
                (rw never
                  (unwritten-Gated (skip Skip.no_ticket) c.chatbot_id c.external_session_id d _))
          | inl ticket ↦
              rw (found, extract)
                (rw ticket (
                  Gated-map c.chatbot_id c.external_session_id d.memories _ _ _
                    (λ settled. (refl, settled))
                    (read_and_store-Gated now org_id c (
                      recent_history conversation_id config.extraction_window_messages
                        d.messages))))
        ]

    -- If the embedder answers with one vector for each sentence, note ids are distinct and new ids
    -- fresh, an extraction for a stored conversation returns, unless the factory raises an error for the
    -- embedder or the chat model other than that none is configured. The number of notes about its
    -- visitor never passes the ceiling by it, notes about others stay, and nothing is written unless
    -- memory is enabled, the lock is held, the conversation has a ticket and the chatbot's vectors have
    -- a settled width.
    pub extract_visitor_memory-Gated :
        (now org_id conversation_id : ℕ) (c : Conversation)
        → get conversation_id d.conversations ≡ some c
        → Gated c.chatbot_id c.external_session_id d.memories
            ((config.enabled ≡ true)
              × (w.acquired ≡ true)
              × (exists_for_conversation conversation_id d.tickets ≡ true)
              × ((dimension : ℕ) × (w.embedder ≡ ok (some dimension))))
            (extract_visitor_memory config v w now fresh_id org_id conversation_id d)
    unfolding extract_visitor_memory
    extract_visitor_memory-Gated now org_id conversation_id c found =
        let G : Outcome → Type 0 = Gated c.chatbot_id c.external_session_id d.memories (
          (config.enabled ≡ true)
          × (w.acquired ≡ true)
          × (exists_for_conversation conversation_id d.tickets ≡ true)
          × ((dimension : ℕ) × (w.embedder ≡ ok (some dimension)))) in
        let outcome = extract_visitor_memory config v w now fresh_id org_id conversation_id d in
        let run = extract config v w now fresh_id org_id conversation_id d in
        let idle_with : (report : ExtractionReport) → G (unwritten report d) =
          λ report. unwritten-Gated report c.chatbot_id c.external_session_id d _ in
        elim (Bool-cases config.enabled) [
          | inr off ↦
              let e : outcome ≡ unwritten (skip Skip.disabled) d = ground (arith, off) in
              subst G (sym e) (idle_with (skip Skip.disabled))
          | inl on ↦ elim (Bool-cases w.acquired) [
            | inr busy ↦
                let e : outcome ≡ unwritten (skip Skip.already_running) d =
                  ground (arith, on, busy) in
                subst G (sym e) (idle_with (skip Skip.already_running))
            | inl held ↦
                let e : outcome ≡ run = ground (arith, on, held) in
                subst G (sym e) (
                  Gated-map c.chatbot_id c.external_session_id d.memories _ _ _
                    (λ settled. (on, held, settled.0, settled.1))
                    (extract-Gated now org_id conversation_id c found))
          ]
        ]
