-- ===== src/Memory.antt =====
-- `app/services/nuvrag_mem/retrieval.py` and the queries of `app/repositories/memory_entry.py`: what
-- is read of a visitor's notes. A vector is a list of numbers, and the distance that the database
-- computes between two of them is an argument, scaled so that a distance of 1.0 is `unit`.
pub mod Transcript
pub mod Extract
pub mod Pipeline
pub mod Recalled
pub mod Bounds
pub mod Gate
pub mod Store
pub mod Tests
use nuvrag_platform.Base.{
  ℕ, ◌+◌, ◌-◌, ◌<◌, Bool, true, false, ◌&&◌, Option, none, some, List, [], ◌∷◌, map, ◌==◌, leb, ltb,
  any, filter, count, length, if◌then◌else◌,
}
use nuvrag_platform.Base.Rows.{key}
use nuvrag_platform.Base.Sorted.{elem, keys}
use nuvrag_platform.Base.Batch.{pick}
use nuvrag_platform.Desk.{Conversation, Ticket, MemoryEntry, Desk, memory_row, is_session}
use nuvrag_platform.Retention.{is_about}

-- `settings.nuvrag_mem`; a similarity is scaled as a distance is.
pub record MemorySettings : Type 0 where
  pub enabled : Bool
  pub retrieval_top_k : ℕ
  pub extraction_window_messages : ℕ
  pub max_entries_per_extraction : ℕ
  pub dedupe_similarity : ℕ
  pub max_entries_per_subject : ℕ

-- The cosine distance of the database.
pub record Vectors : Type 0 where
  pub unit : ℕ
  pub distance : List ℕ → List ℕ → ℕ

-- `1.0 - distance >= floor`
abbrev pub is_close : Vectors → List ℕ → ℕ → MemoryEntry → Bool
is_close v embedding floor m = leb (v.distance m.embedding embedding + floor) v.unit

-- `MemoryEntryRepository.count_for_subject`
abbrev pub count_for_subject : ℕ → ℕ → List MemoryEntry → ℕ
count_for_subject chatbot_id subject_id = count (is_about chatbot_id subject_id)

-- The three filters of both vector searches.
abbrev pub is_comparable : ℕ → ℕ → ℕ → MemoryEntry → Bool
is_comparable chatbot_id subject_id dimension m =
    is_about chatbot_id subject_id m && (m.embedding_dim == dimension)

-- The rows of `ORDER BY distance LIMIT limit`.
abbrev pub closest : Vectors → ℕ → ℕ → List ℕ → ℕ → ℕ → List MemoryEntry → List MemoryEntry
closest v chatbot_id subject_id embedding dimension limit rows =
    pick (λ m. v.distance m.embedding embedding) (is_comparable chatbot_id subject_id dimension)
      limit rows

-- `result.first()`
abbrev pub first : List MemoryEntry → Option MemoryEntry
first [] = none
first (m ∷ _) = some m

-- `MemoryEntryRepository.nearest`
abbrev pub nearest : Vectors → ℕ → ℕ → List ℕ → ℕ → List MemoryEntry → Option MemoryEntry
nearest v chatbot_id subject_id embedding dimension rows =
    first (closest v chatbot_id subject_id embedding dimension 1 rows)

-- `MemoryEntryRepository.search`, which tests the floor after the limit
unfoldable pub search : Vectors → ℕ → ℕ → List ℕ → ℕ → ℕ → ℕ → List MemoryEntry → List MemoryEntry
search v chatbot_id subject_id embedding top_k min_similarity dimension rows =
    filter (is_close v embedding min_similarity)
      (closest v chatbot_id subject_id embedding dimension top_k rows)

-- `TicketRepository.exists_for_conversation`
abbrev pub exists_for_conversation : ℕ → List Ticket → Bool
exists_for_conversation conversation_id = any (λ t. t.conversation_id == conversation_id)

-- `TicketRepository.exists_for_session`
abbrev pub exists_for_session : ℕ → ℕ → Desk → Bool
exists_for_session chatbot_id session d =
    any
      (λ t.
        any (λ c. is_session chatbot_id session c && (t.conversation_id == c.id)) d.conversations)
      d.tickets

-- `CalibrationState`
pub record CalibrationState : Type 0 where
  pub override : Option ℕ
  pub calibrated : Option ℕ

-- `CalibrationState.effective`
abbrev pub effective : CalibrationState → Option ℕ
effective s = elim s.override [ some floor ↦ some floor | none ↦ s.calibrated ]

-- The floor of one turn; `measured` is what `calibrate` returns if it is called.
abbrev pub floor_of : CalibrationState → Option ℕ → Option ℕ
floor_of state measured = elim (effective state) [ some floor ↦ some floor | none ↦ measured ]

-- `recall`
unfoldable pub recall :
    MemorySettings
    → Vectors
    → ℕ
    → ℕ
    → List ℕ
    → ℕ
    → CalibrationState
    → Option ℕ
    → Desk
    → List MemoryEntry
unfolding search
recall config v chatbot_id subject_id embedding dimension state measured d =
    if config.enabled && exists_for_session chatbot_id subject_id d
    then elim (floor_of state measured) [
      | none ↦ []
      | some floor ↦
          search v chatbot_id subject_id embedding config.retrieval_top_k floor dimension d.memories
    ]
    else []

abbrev pub touch_staleness : ℕ
touch_staleness = 3600

-- The rows that `touch` refreshes.
abbrev pub is_stale : ℕ → ℕ → List ℕ → MemoryEntry → Bool
is_stale now dimension ids m =
    (m.embedding_dim == dimension)
    && (elem m.id ids && ltb (m.last_referenced_at + touch_staleness) now)

abbrev pub refresh : ℕ → ℕ → List ℕ → MemoryEntry → MemoryEntry
refresh now dimension ids m =
    if is_stale now dimension ids m then record m { last_referenced_at = now } else m

-- `touch`: how many rows it refreshed, and the table
unfoldable pub touch : ℕ → List MemoryEntry → List MemoryEntry → ℕ × List MemoryEntry
touch now [] rows = (0, rows)
touch now (e ∷ entries) rows =
    let ids = keys (e ∷ entries) in
    (count (is_stale now e.embedding_dim ids) rows, map (refresh now e.embedding_dim ids) rows)
