-- ===== src/Memory/Pipeline.antt =====
-- `extract_visitor_memory` of `app/services/nuvrag_mem/extraction.py`, every early return included.
use nuvrag_platform.Base.{
  ℕ, not, Option, none, some, List, [], ◌∷◌, map, ◌==◌, any, length, if◌then◌else◌,
}
use nuvrag_platform.Base.Rows.{get}
use nuvrag_platform.Domain.Errors.{Result, err, ok}
use nuvrag_platform.Desk.{Conversation, Message, MemoryEntry, Desk, conversation_row}
use nuvrag_platform.Memory.{MemorySettings, Vectors, exists_for_conversation}
use nuvrag_platform.Memory.Extract.{
  Candidate, Skip, ExtractionReport, Progress, Subject, Surroundings, skip, propose, recent_history,
  store, is_unconfigured,
}

-- An outcome: what is reported and the table of notes, or an error that is raised: of `zip`, or of
-- credentials that no longer decrypt. An error rolls the notes back.
abbrev pub Outcome : Type 0
Outcome = Option (ExtractionReport × List MemoryEntry)

abbrev pub unwritten : ExtractionReport → Desk → Outcome
unwritten report d = some (report, d.memories)

abbrev pub skip_after : List Candidate → Skip → ExtractionReport
skip_after candidates reason = record {
  proposed = length candidates;
  written = 0;
  duplicates = 0;
  skipped = some reason;
}

abbrev pub stored : Option Progress → Outcome
stored none = none
stored (some p) = some (p.report, p.memories)

abbrev pub subject_of : ℕ → ℕ → Conversation → ℕ → Subject
subject_of now org_id c dimension = record {
  now = now;
  org_id = org_id;
  chatbot_id = c.chatbot_id;
  conversation_id = c.id;
  subject_id = c.external_session_id;
  dimension = dimension;
}

-- From the candidates to the table.
unfoldable pub embed_and_store :
    MemorySettings → Vectors → Surroundings → Subject → ℕ → List Candidate → Desk → Outcome
unfolding store
embed_and_store config v w s fresh_id [] d = unwritten (skip Skip.nothing_proposed) d
embed_and_store config v w s fresh_id (c ∷ cs) d =
    elim (w.embed_batch (map (λ x. x.content) (c ∷ cs))) [
      | none ↦ unwritten (skip_after (c ∷ cs) Skip.embed_failed) d
      | some vectors ↦
          if any (λ e. not (length e == s.dimension)) vectors
          then unwritten (skip_after (c ∷ cs) Skip.width_mismatch) d
          else stored (store config v s fresh_id (c ∷ cs) vectors d.memories)
    ]

module _ (config : MemorySettings) (v : Vectors) (w : Surroundings) (fresh_id : ℕ) where
  -- After the proposal.
  unfoldable pub with_candidates : Subject → Desk → Option (List Candidate) → Outcome
  unfolding embed_and_store
  with_candidates s d none = none
  with_candidates s d (some cs) = embed_and_store config v w s fresh_id cs d

  module _ (now : ℕ) (org_id : ℕ) (c : Conversation) (ms : List Message) (d : Desk) where
    -- After the factory has given an embedder, with its width.
    unfoldable pub with_width : Option ℕ → Outcome
    unfolding propose with_candidates
    with_width none = unwritten (skip Skip.no_embedding_width) d
    with_width (some dimension) =
        with_candidates (subject_of now org_id c dimension) d
          (propose w config.max_entries_per_extraction ms)

    unfoldable pub with_embedder : Result (Option ℕ) → Outcome
    unfolding with_width
    with_embedder (err e) = if is_unconfigured e then unwritten (skip Skip.no_provider) d else none
    with_embedder (ok width) = with_width width

-- From the turns to the table.
unfoldable pub read_and_store :
    MemorySettings
    → Vectors
    → Surroundings
    → ℕ
    → ℕ
    → ℕ
    → Conversation
    → List Message
    → Desk
    → Outcome
unfolding with_embedder
read_and_store config v w now fresh_id org_id c [] d = unwritten (skip Skip.no_history) d
read_and_store config v w now fresh_id org_id c (m ∷ ms) d =
    with_embedder config v w fresh_id now org_id c (m ∷ ms) d w.embedder

-- `_extract`
unfoldable pub extract : MemorySettings → Vectors → Surroundings → ℕ → ℕ → ℕ → ℕ → Desk → Outcome
unfolding read_and_store
extract config v w now fresh_id org_id conversation_id d =
    elim (get conversation_id d.conversations) [
      | none ↦ unwritten (skip Skip.conversation_missing) d
      | some c ↦
          if exists_for_conversation conversation_id d.tickets
          then read_and_store config v w now fresh_id org_id c
              (recent_history conversation_id config.extraction_window_messages d.messages) d
          else unwritten (skip Skip.no_ticket) d
    ]

-- `extract_visitor_memory`
unfoldable pub extract_visitor_memory :
    MemorySettings → Vectors → Surroundings → ℕ → ℕ → ℕ → ℕ → Desk → Outcome
unfolding extract
extract_visitor_memory config v w now fresh_id org_id conversation_id d =
    if not config.enabled
    then unwritten (skip Skip.disabled) d
    else if not w.acquired
    then unwritten (skip Skip.already_running) d
    else extract config v w now fresh_id org_id conversation_id d
