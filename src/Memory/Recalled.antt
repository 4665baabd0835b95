-- ===== src/Memory/Recalled.antt =====
-- What a turn recalls of a visitor, and which notes it keeps alive.
use nuvrag_platform.Base.{
  ℕ, ◌+◌, ◌≤◌, ◌≡◌, refl, true, ◌&&◌, Option, some, List, [], ◌∷◌, map, arith, ◌==◌, length, inl,
  inr, Bool-cases, Option-cases, length-filter, count-le-length, sym,
}
use nuvrag_platform.Base.Rows.{get, HasUniqueKeys}
use nuvrag_platform.Base.Sorted.{elem, keys, get-filter}
use nuvrag_platform.Base.Batch.{pick, get-pick, length-pick, pick-HasUniqueKeys}
use nuvrag_platform.Desk.{MemoryEntry, Desk, memory_row}
use nuvrag_platform.Retention.{is_about}
use nuvrag_platform.Memory.{
  MemorySettings, Vectors, CalibrationState, is_close, is_comparable, search, exists_for_session,
  floor_of, recall, is_stale, refresh, touch, touch_staleness,
}

length-search-le :
    (v : Vectors) (chatbot_id subject_id : ℕ) (embedding : List ℕ) (top_k floor dimension : ℕ)
    (rows : List MemoryEntry)
    → length (search v chatbot_id subject_id embedding top_k floor dimension rows) ≤ top_k
unfolding search
length-search-le v chatbot_id subject_id embedding top_k floor dimension rows =
    let near : MemoryEntry → ℕ = λ x. v.distance x.embedding embedding in
    let p = is_comparable chatbot_id subject_id dimension in
    omega (
      arith,
      length-filter (is_close v embedding floor) (pick near p top_k rows),
      count-le-length (is_close v embedding floor) (pick near p top_k rows),
      length-pick near p top_k rows,
    )

-- What `search` returns under an id.
search-eq-some :
    (v : Vectors) (chatbot_id subject_id : ℕ) (embedding : List ℕ) (top_k floor dimension : ℕ)
    (rows : List MemoryEntry) (id : ℕ) (m : MemoryEntry)
    → HasUniqueKeys rows
    → get id (search v chatbot_id subject_id embedding top_k floor dimension rows) ≡ some m
    → (get id rows ≡ some m)
      × (is_about chatbot_id subject_id m ≡ true)
      × (m.embedding_dim ≡ dimension)
      × (is_close v embedding floor m ≡ true)
unfolding search
search-eq-some v chatbot_id subject_id embedding top_k floor dimension rows id m unique e =
    let near : MemoryEntry → ℕ = λ x. v.distance x.embedding embedding in
    let p = is_comparable chatbot_id subject_id dimension in
    let (chosen, close) =
      get-filter (is_close v embedding floor) id m (pick near p top_k rows) e
        (pick-HasUniqueKeys near p top_k rows unique) in
    let (stored, mine) = get-pick near p top_k rows unique id m chosen in
    (stored, ground arith, ground arith, close)

-- With distinct note ids, every note that a turn recalls is stored, is about this visitor on this
-- chatbot, has the width of the question's vector and reaches the floor that is in force; there are at
-- most `retrieval_top_k` of them, and there are none unless memory is enabled, the visitor has a ticket
-- and a floor is known.
pub recall_grounded :
    (config : MemorySettings) (v : Vectors) (chatbot_id subject_id : ℕ) (embedding : List ℕ)
    (dimension : ℕ) (state : CalibrationState) (measured : Option ℕ) (d : Desk)
    → HasUniqueKeys d.memories
    → let found = recall config v chatbot_id subject_id embedding dimension state measured d in
      ((id : ℕ) (m : MemoryEntry)
        → get id found ≡ some m
        → (floor : ℕ) × (floor_of state measured ≡ some floor)
          × (config.enabled ≡ true)
          × (exists_for_session chatbot_id subject_id d ≡ true)
          × (get id d.memories ≡ some m)
          × (is_about chatbot_id subject_id m ≡ true)
          × (m.embedding_dim ≡ dimension)
          × (is_close v embedding floor m ≡ true))
      × (length found ≤ config.retrieval_top_k)
unfolding recall
recall_grounded config v chatbot_id subject_id embedding dimension state measured d unique =
    elim (Bool-cases (config.enabled && exists_for_session chatbot_id subject_id d)) [
      | inr closed ↦ rw closed ((λ id m e. cc), omega arith)
      | inl allowed ↦ elim (Option-cases (floor_of state measured)) [
        | inl unknown ↦ rw allowed (rw unknown ((λ id m e. cc), omega arith))
        | inr (floor, known) ↦ rw allowed (
            rw known (
              (λ id m e.
                  let (stored, mine, wide, close) =
                    search-eq-some v chatbot_id subject_id embedding config.retrieval_top_k floor
                      dimension d.memories id m unique e in
                  (floor, refl, ground arith, ground arith, stored, mine, wide, close)),
              length-search-le v chatbot_id subject_id embedding config.retrieval_top_k floor
                  dimension d.memories,
            ))
      ]
    ]

get-refresh :
    (now dimension : ℕ) (ids : List ℕ) (id : ℕ) (rows : List MemoryEntry) (m : MemoryEntry)
    → get id rows ≡ some m
    → get id (map (refresh now dimension ids) rows) ≡ some (refresh now dimension ids m)
get-refresh now dimension ids id [] m h = cc
get-refresh now dimension ids id (x ∷ rows) m h = elim (Bool-cases (x.id == id)) [
  | inl here ↦
      let same : x ≡ m = ground arith in
      elim (Bool-cases (is_stale now dimension ids x)) [
        | inl stale ↦ rw stale (rw here (rw (sym same) (rw stale refl)))
        | inr recent ↦ rw recent (rw here (rw (sym same) (rw recent refl)))
      ]
  | inr apart ↦
      let rest = get-refresh now dimension ids id rows m (ground arith) in
      elim (Bool-cases (is_stale now dimension ids x)) [
        | inl stale ↦ rw stale (rw apart rest)
        | inr recent ↦ rw recent (rw apart rest)
      ]
]

-- After a touch every note is still stored with its words, no reference time moves back, and every note
-- among those touched, all of one width, was referenced within the staleness of now.
pub touch_keeps_alive :
    (now : ℕ) (entry : MemoryEntry) (entries rows : List MemoryEntry) (id : ℕ) (m : MemoryEntry)
    → get id rows ≡ some m
    → (m' : MemoryEntry) × (get id (touch now (entry ∷ entries) rows).1 ≡ some m')
      × (m'.content ≡ m.content)
      × (m.last_referenced_at ≤ m'.last_referenced_at)
      × (elem m.id (keys (entry ∷ entries)) ≡ true
          → m.embedding_dim ≡ entry.embedding_dim
          → now ≤ m'.last_referenced_at + touch_staleness)
unfolding touch
touch_keeps_alive now entry entries rows id m h =
    let ids = keys (entry ∷ entries) in
    let found = get-refresh now entry.embedding_dim ids id rows m h in
    elim (Bool-cases (is_stale now entry.embedding_dim ids m)) [
      | inl stale ↦ (
        refresh now entry.embedding_dim ids m,
        found,
        rw stale refl,
        rw stale (ground arith),
        rw stale (λ _ _. omega arith),
      )
      | inr recent ↦ (
        refresh now entry.embedding_dim ids m,
        found,
        rw recent refl,
        rw recent (omega arith),
        rw recent (λ listed wide. ground arith),
      )
    ]
