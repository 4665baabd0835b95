-- ===== src/Memory/Store.antt =====
-- What one extraction writes of a visitor's notes.
use mathlib.Core.Path.{subst}
use nuvrag_platform.Base.{
  ℕ, suc, ◌+◌, ◌≤◌, ◌<◌, ◌≡◌, ◌≢◌, refl, true, false, none, some, List, [], ◌∷◌, arith, ◌==◌, leb,
  max, length, if◌then◌else◌, inl, inr, Bool-cases, Option-cases, count-append, sym, ◌⊎◌,
}
use nuvrag_platform.Base.Rows.{
  get, HasUniqueKeys, get-save_ne, get-add_ne, count-save, add-HasUniqueKeys, save-HasUniqueKeys,
}
use nuvrag_platform.Base.Batch.{get-pick}
use nuvrag_platform.Desk.{MemoryEntry, memory_row, conversation_row}
use nuvrag_platform.Retention.{is_about}
use nuvrag_platform.Memory.{
  MemorySettings, Vectors, nearest, first, closest, is_comparable, is_close, count_for_subject,
}
use nuvrag_platform.Memory.Extract.{
  Candidate, Skip, Subject, Progress, new_entry, inserted, restated, store_one, store_loop, store,
  started,
}

first-get : (xs : List MemoryEntry) (m : MemoryEntry) → first xs ≡ some m → get m.id xs ≡ some m
first-get [] m h = cc
first-get (x ∷ xs) m h = ground arith

-- The nearest note is stored, and is one of the subject's at this width.
pub nearest-stored :
    (v : Vectors) (chatbot_id subject_id : ℕ) (embedding : List ℕ) (dimension : ℕ)
    (rows : List MemoryEntry) (m : MemoryEntry)
    → HasUniqueKeys rows
    → nearest v chatbot_id subject_id embedding dimension rows ≡ some m
    → (get m.id rows ≡ some m) × (is_comparable chatbot_id subject_id dimension m ≡ true)
nearest-stored v chatbot_id subject_id embedding dimension rows m unique e =
    get-pick (λ x. v.distance x.embedding embedding) (is_comparable chatbot_id subject_id dimension)
      1 rows unique m.id m
      (first-get (closest v chatbot_id subject_id embedding dimension 1 rows) m e)

-- What holds before and after each candidate, `written` rows after `before`.
record IsStored (s : Subject) (rows : List MemoryEntry) (ceiling : ℕ) (p : Progress) : Type 0 where
  unique : HasUniqueKeys p.memories
  fresh : (id : ℕ) → p.next_id ≤ id → get id p.memories ≡ none
  held : p.held ≡ count_for_subject s.chatbot_id s.subject_id p.memories
  grown :
      count_for_subject s.chatbot_id s.subject_id p.memories
      ≡ count_for_subject s.chatbot_id s.subject_id rows + p.report.written
  bounded : p.held ≤ max ceiling (count_for_subject s.chatbot_id s.subject_id rows)
  others :
      (id : ℕ) (m : MemoryEntry)
      → get id rows ≡ some m
      → is_about s.chatbot_id s.subject_id m ≡ false
      → get id p.memories ≡ some m

inserted-IsStored :
    (s : Subject) (rows : List MemoryEntry) (ceiling : ℕ) (c : Candidate) (e : List ℕ)
    (p : Progress)
    → p.held < ceiling
    → IsStored s rows ceiling p
    → IsStored s rows ceiling (inserted s c e p)
inserted-IsStored s rows ceiling c e p room h =
    let m = new_entry s p.next_id c e in
    let more = count-append (is_about s.chatbot_id s.subject_id) p.memories (m ∷ []) in
    record {
      unique = add-HasUniqueKeys m p.memories h.unique (h.fresh p.next_id (omega arith));
      fresh = λ id k. ground (arith, h.fresh id, get-add_ne id m p.memories);
      held = ground (arith, h.held);
      grown = ground (arith, h.grown);
      bounded = ground (arith, h.bounded);
      others = λ id x k o.
          ground (arith, h.others id x k o, h.fresh p.next_id, get-add_ne id m p.memories);
    }

restated-IsStored :
    (s : Subject) (rows : List MemoryEntry) (ceiling : ℕ) (m : MemoryEntry) (p : Progress)
    → get m.id p.memories ≡ some m
    → is_about s.chatbot_id s.subject_id m ≡ true
    → IsStored s rows ceiling p
    → IsStored s rows ceiling (restated s m p)
restated-IsStored s rows ceiling m p stored about h =
    let m' : MemoryEntry = record m { last_referenced_at = s.now } in
    let same = count-save (is_about s.chatbot_id s.subject_id) m' m p.memories h.unique stored in
    record {
      unique = save-HasUniqueKeys m' p.memories h.unique;
      fresh = λ id k. ground (arith, h.fresh id k, get-save_ne id m' p.memories);
      held = ground (arith, h.held);
      grown = ground (arith, h.grown);
      bounded = h.bounded;
      others = λ id x k o. elim (Bool-cases (m.id == id)) [
        | inr apart ↦ ground (arith, h.others id x k o, get-save_ne id m' p.memories)
        | inl here ↦
            let there : get m.id p.memories ≡ some x = ground (arith, h.others id x k o) in
            let one_row : m ≡ x = ground arith in
            let clash = subst (λ y. is_about s.chatbot_id s.subject_id y ≡ false) (sym one_row) o in
            absurd (ground arith)
      ];
    }

-- A candidate is inserted, or restates the nearest note.
store_one-cases :
    (config : MemorySettings) (v : Vectors) (s : Subject) (c : Candidate) (e : List ℕ)
    (p : Progress)
    → (store_one config v s c e p ≡ inserted s c e p)
      ⊎ ((m : MemoryEntry) × (nearest v s.chatbot_id s.subject_id e s.dimension p.memories ≡ some m)
          × (store_one config v s c e p ≡ restated s m p))
unfolding store_one
store_one-cases config v s c e p =
    elim (nearest v s.chatbot_id s.subject_id e s.dimension p.memories)
      as (λ near.
        ((elim near [
          | none ↦ inserted s c e p
          | some m ↦
              (if is_close v e config.dedupe_similarity m then restated s m p else inserted s c e p)
        ])
          ≡ inserted s c e p)
        ⊎ ((m : MemoryEntry) × (near ≡ some m)
            × ((elim near [
              | none ↦ inserted s c e p
              | some m ↦
                  (if is_close v e config.dedupe_similarity m
                    then restated s m p
                    else inserted s c e p)
            ])
                ≡ restated s m p))) [
                  | none ↦ inl refl
                  | some m ↦ elim (Bool-cases (is_close v e config.dedupe_similarity m)) [
                    | inl close ↦ inr (m, refl, rw close refl)
                    | inr apart ↦ inl (rw apart refl)
                  ]
                ]

store_one-IsStored :
    (config : MemorySettings) (v : Vectors) (s : Subject) (rows : List MemoryEntry) (c : Candidate)
    (e : List ℕ) (p : Progress)
    → p.held < config.max_entries_per_subject
    → IsStored s rows config.max_entries_per_subject p
    → IsStored s rows config.max_entries_per_subject (store_one config v s c e p)
store_one-IsStored config v s rows c e p room h = elim (store_one-cases config v s c e p) [
  | inl same ↦ rw same (inserted-IsStored s rows config.max_entries_per_subject c e p room h)
  | inr (m, near, same) ↦
      let (stored, mine) =
        nearest-stored v s.chatbot_id s.subject_id e s.dimension p.memories m h.unique near in
      rw same (restated-IsStored s rows config.max_entries_per_subject m p stored (ground arith) h)
]

-- What is counted for one more candidate.
store_one-counts :
    (config : MemorySettings) (v : Vectors) (s : Subject) (c : Candidate) (e : List ℕ)
    (p : Progress)
    → let p' = store_one config v s c e p in
      (p'.report.proposed ≡ p.report.proposed)
      × (p'.report.skipped ≡ p.report.skipped)
      × (p'.report.written + p'.report.duplicates ≡ suc (p.report.written + p.report.duplicates))
unfolding store_one
store_one-counts config v s c e p =
    elim (Option-cases (nearest v s.chatbot_id s.subject_id e s.dimension p.memories)) [
      | inl none_yet ↦ ground arith
      | inr (m, near) ↦ ground arith
    ]

-- The outcome of the loop from some point on.
record IsFinished (s : Subject) (rows : List MemoryEntry) (ceiling todo : ℕ) (p q : Progress)
    : Type 0 where
  kept : IsStored s rows ceiling q
  proposed : q.report.proposed ≡ p.report.proposed
  complete :
      q.report.skipped ≡ none
      → q.report.written + q.report.duplicates ≡ p.report.written + p.report.duplicates + todo
  stopped : q.report.skipped ≢ none → ceiling ≤ q.held

store_loop_lem :
    (config : MemorySettings) (v : Vectors) (s : Subject) (rows : List MemoryEntry)
    (cs : List Candidate) (es : List (List ℕ)) (p : Progress)
    → length cs ≡ length es
    → p.report.skipped ≡ none
    → IsStored s rows config.max_entries_per_subject p
    → (q : Progress) × (store_loop config v s cs es p ≡ some q)
      × IsFinished s rows config.max_entries_per_subject (length cs) p q
unfolding store_loop
store_loop_lem config v s rows [] [] p same clean h = (
  p,
  refl,
  record {
    kept = h;
    proposed = refl;
    complete = λ _. omega arith;
    stopped = λ n. absurd (n clean);
  },
)
store_loop_lem config v s rows [] (e ∷ es) p same clean h = absurd (omega arith)
store_loop_lem config v s rows (c ∷ cs) [] p same clean h = absurd (omega arith)
store_loop_lem config v s rows (c ∷ cs) (e ∷ es) p same clean h =
    elim (Bool-cases (leb config.max_entries_per_subject p.held)) [
      | inl full ↦ (
        record p { report = record p.report { skipped = some Skip.subject_at_capacity } },
        rw full refl,
        record {
          kept = record {
            unique = h.unique;
            fresh = h.fresh;
            held = h.held;
            grown = h.grown;
            bounded = h.bounded;
            others = h.others;
          };
          proposed = refl;
          complete = λ k. cc;
          stopped = λ _. ground arith;
        },
      )
      | inr room ↦
          let p' = store_one config v s c e p in
          let counts = store_one-counts config v s c e p in
          let (q, returned, fin) =
            store_loop_lem config v s rows cs es p' (omega arith) (ground arith)
              (store_one-IsStored config v s rows c e p (ground arith) h) in
          (
            q,
            rw room returned,
            record {
              kept = fin.kept;
              proposed = ground (arith, fin.proposed);
              complete = λ k. ground (arith, fin.complete k);
              stopped = fin.stopped;
            },
          )
    ]

-- With a vector for each candidate, distinct note ids and fresh ids for new notes, a store returns. It
-- writes as many rows about the visitor as it reports, never lifts their number past the ceiling, counts
-- every candidate as written or as a restatement unless it reports that the ceiling was reached, and
-- leaves every note that is about anybody else as it was.
pub store_keeps_ceiling :
    (config : MemorySettings) (v : Vectors) (s : Subject) (fresh_id : ℕ) (cs : List Candidate)
    (es : List (List ℕ)) (rows : List MemoryEntry)
    → length cs ≡ length es
    → HasUniqueKeys rows
    → ((id : ℕ) → fresh_id ≤ id → get id rows ≡ none)
    → (q : Progress) × (store config v s fresh_id cs es rows ≡ some q)
      × (count_for_subject s.chatbot_id s.subject_id q.memories
          ≡ count_for_subject s.chatbot_id s.subject_id rows + q.report.written)
      × (count_for_subject s.chatbot_id s.subject_id q.memories
          ≤ max config.max_entries_per_subject (count_for_subject s.chatbot_id s.subject_id rows))
      × (q.report.skipped ≡ none → q.report.written + q.report.duplicates ≡ length cs)
      × (q.report.skipped ≢ none
          → config.max_entries_per_subject ≤ count_for_subject s.chatbot_id s.subject_id q.memories)
      × ((id : ℕ) (m : MemoryEntry)
          → get id rows ≡ some m
          → is_about s.chatbot_id s.subject_id m ≡ false
          → get id q.memories ≡ some m)
unfolding store
store_keeps_ceiling config v s fresh_id cs es rows same unique fresh =
    let start : IsStored s rows config.max_entries_per_subject
        (started s fresh_id (length cs) rows) =
      record {
        unique = unique;
        fresh = fresh;
        held = refl;
        grown = omega arith;
        bounded = omega arith;
        others = λ id m k o. k;
      } in
    let (q, returned, fin) =
      store_loop_lem config v s rows cs es (started s fresh_id (length cs) rows) same refl start in
    (
      q,
      returned,
      fin.kept.grown,
      ground (arith, fin.kept.bounded, fin.kept.held),
      λ k. ground (arith, fin.complete k),
      λ k. ground (arith, fin.stopped k, fin.kept.held),
      fin.kept.others,
    )
