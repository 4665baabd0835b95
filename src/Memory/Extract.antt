-- ===== src/Memory/Extract.antt =====
-- `app/services/nuvrag_mem/extraction.py`: what is written down about a visitor after a turn.
-- The provider's two answers, the regular expression for code fences and `json.loads` are arguments.
use nuvrag_platform.Base.{
  true, false, ℕ, suc, ◌-◌, Bool, Option, none, some, List, [], ◌∷◌, reverse, ◌==◌, leb, filter,
  take, drop, length, if◌then◌else◌,
}
use nuvrag_platform.Domain.Errors.{DomainError, Result, err, ok}
use nuvrag_platform.Base.Text.{Text, text, text_eq, strip, is_empty}
use nuvrag_platform.Base.Rows.{save, add}
use nuvrag_platform.Domain.Enums.{MemoryType}
use nuvrag_platform.Desk.{Message, MemoryEntry, conversation_row, memory_row, in_conversation}
use nuvrag_platform.Memory.{MemorySettings, Vectors, is_close, count_for_subject, nearest}
use nuvrag_platform.Memory.Transcript.{collapse, render_transcript}

abbrev pub content_max_length : ℕ
content_max_length = 500

pub record Candidate : Type 0 where
  pub content : Text
  pub memory_type : MemoryType

-- Why nothing happened, or why not all of it did.
pub data Skip : Type 0 where
  disabled already_running conversation_missing no_ticket no_history no_provider : Skip
  no_embedding_width nothing_proposed embed_failed width_mismatch subject_at_capacity : Skip

pub record ExtractionReport : Type 0 where
  pub proposed : ℕ
  pub written : ℕ
  pub duplicates : ℕ
  pub skipped : Option Skip

abbrev pub skip : Skip → ExtractionReport
skip reason = record { proposed = 0; written = 0; duplicates = 0; skipped = some reason }

-- A parsed value, as far as `_candidate` looks into it.
pub data Value : Type 0 where
  string : Text → Value
  other : Value

pub data Element : Type 0 where
  object : (content type : Option Value) → Element
  scalar : Element

-- `MemoryType(value)`, by default `MemoryType.FACT`
abbrev pub memory_type_of : Option Value → MemoryType
memory_type_of (some (Value.string s)) =
    if text_eq s (text "preference")
    then MemoryType.preference
    else if text_eq s (text "context")
    then MemoryType.context
    else MemoryType.fact
memory_type_of _ = MemoryType.fact

-- `_candidate`
unfoldable pub candidate : Element → Option Candidate
unfolding collapse
candidate (Element.object (some (Value.string s)) type) =
    let content = take content_max_length (collapse s) in
    if is_empty content
    then none
    else some (record { content = content; memory_type = memory_type_of type })
candidate _ = none

-- The loop at the end of `_parse`, which holds `found` candidates already.
unfoldable pub collect : ℕ → ℕ → List Element → List Candidate
unfolding candidate
collect limit found [] = []
collect limit found (e ∷ es) = elim (candidate e) [
  | none ↦ (if found == limit then [] else collect limit found es)
  | some c ↦ (if suc found == limit then c ∷ [] else c ∷ collect limit (suc found) es)
]

-- `str.find` and `str.rfind` of one character
abbrev pub find_char : ℕ → Text → Option ℕ
find_char c [] = none
find_char c (x ∷ s) =
    if x == c then some 0 else elim (find_char c s) [ none ↦ none | some i ↦ some (suc i) ]

abbrev pub rfind_char : ℕ → Text → Option ℕ
rfind_char c [] = none
rfind_char c (x ∷ s) = elim (rfind_char c s) [
  | some i ↦ some (suc i)
  | none ↦ (if x == c then some 0 else none)
]

-- What surrounds an extraction. `embedder` and `chat_provider` are what the factory returns or raises
-- for the chatbot, the first with its width; `loads` gives the list of a JSON array, if the text is
-- one; `chat` is the whole answer to a transcript, if there is one; `embed_batch` gives the vectors.
pub record Surroundings : Type 0 where
  pub acquired : Bool
  pub embedder : Result (Option ℕ)
  pub chat_provider : Result (Unit {0})
  pub unfence : Text → Text
  pub loads : Text → Option (List Element)
  pub chat : Text → Option Text
  pub embed_batch : List Text → Option (List (List ℕ))

-- `_parse`
unfoldable pub parse : Surroundings → ℕ → Text → List Candidate
unfolding collect strip
parse w limit raw =
    let s = w.unfence (strip raw) in
    elim (find_char 91 s) [
      | none ↦ []
      | some start ↦ elim (rfind_char 93 s) [
        | none ↦ []
        | some end ↦
            if leb end start then [] else elim (w.loads (take (suc end - start) (drop start s))) [
              | none ↦ []
              | some es ↦ collect limit 0 es
            ]
      ]
    ]

-- `except ProviderNotConfiguredError`
abbrev pub is_unconfigured : DomainError → Bool
is_unconfigured DomainError.provider_not_configured = true
is_unconfigured _ = false

-- The answer of the chat model, read; none is an empty answer.
abbrev pub answered : Surroundings → ℕ → List Message → List Candidate
answered w limit history = elim (w.chat (render_transcript history)) [
  | none ↦ []
  | some raw ↦ parse w limit raw
]

-- `_propose`; the header, the footer and the rules are the provider's to read. None is an error that
-- is not caught: stored credentials that no longer decrypt.
unfoldable pub propose_with :
    Surroundings → ℕ → List Message → Result (Unit {0}) → Option (List Candidate)
unfolding parse render_transcript
propose_with w limit history (err e) = if is_unconfigured e then some [] else none
propose_with w limit history (ok _) = some (answered w limit history)

unfoldable pub propose : Surroundings → ℕ → List Message → Option (List Candidate)
unfolding propose_with
propose w limit history = propose_with w limit history w.chat_provider

-- `MessageRepository.recent_history`
abbrev pub recent_history : ℕ → ℕ → List Message → List Message
recent_history conversation_id window ms =
    reverse (take window (reverse (filter (in_conversation conversation_id) ms)))

-- Whose notes a call of `_store` writes, and when.
pub record Subject : Type 0 where
  pub now : ℕ
  pub org_id : ℕ
  pub chatbot_id : ℕ
  pub conversation_id : ℕ
  pub subject_id : ℕ
  pub dimension : ℕ

-- The loop of `_store` between two candidates; new rows are numbered from `next_id`.
pub record Progress : Type 0 where
  pub next_id : ℕ
  pub held : ℕ
  pub report : ExtractionReport
  pub memories : List MemoryEntry

abbrev pub new_entry : Subject → ℕ → Candidate → List ℕ → MemoryEntry
new_entry s id c embedding = record {
  id = id;
  org_id = s.org_id;
  chatbot_id = s.chatbot_id;
  subject_id = s.subject_id;
  content = c.content;
  memory_type = c.memory_type;
  embedding_dim = s.dimension;
  embedding = embedding;
  source_conversation_id = some s.conversation_id;
  last_referenced_at = s.now;
}

abbrev pub restated : Subject → MemoryEntry → Progress → Progress
restated s m p = record p {
  report = record p.report { duplicates = suc p.report.duplicates };
  memories = save (record m { last_referenced_at = s.now }) p.memories;
}

abbrev pub inserted : Subject → Candidate → List ℕ → Progress → Progress
inserted s c embedding p = record {
  next_id = suc p.next_id;
  held = suc p.held;
  report = record p.report { written = suc p.report.written };
  memories = add (new_entry s p.next_id c embedding) p.memories;
}

-- One candidate that the ceiling admits.
unfoldable pub store_one :
    MemorySettings → Vectors → Subject → Candidate → List ℕ → Progress → Progress
store_one config v s c embedding p =
    elim (nearest v s.chatbot_id s.subject_id embedding s.dimension p.memories) [
      | none ↦ inserted s c embedding p
      | some m ↦
          if is_close v embedding config.dedupe_similarity m
          then restated s m p
          else inserted s c embedding p
    ]

-- The loop of `_store`; `none` is the `ValueError` of `zip(..., strict=True)`.
unfoldable pub store_loop :
    MemorySettings → Vectors → Subject → List Candidate → List (List ℕ) → Progress → Option Progress
unfolding store_one
store_loop config v s [] [] p = some p
store_loop config v s [] (_ ∷ _) p = none
store_loop config v s (_ ∷ _) [] p = none
store_loop config v s (c ∷ cs) (e ∷ es) p =
    let rest = store_loop config v s cs es (store_one config v s c e p) in
    if leb config.max_entries_per_subject p.held
    then some (record p { report = record p.report { skipped = some Skip.subject_at_capacity } })
    else rest

abbrev pub started : Subject → ℕ → ℕ → List MemoryEntry → Progress
started s fresh_id proposed rows = record {
  next_id = fresh_id;
  held = count_for_subject s.chatbot_id s.subject_id rows;
  report = record { proposed = proposed; written = 0; duplicates = 0; skipped = none };
  memories = rows;
}

-- `_store`
unfoldable pub store :
    MemorySettings
    → Vectors
    → Subject
    → ℕ
    → List Candidate
    → List (List ℕ)
    → List MemoryEntry
    → Option Progress
unfolding store_loop
store config v s fresh_id candidates vectors rows =
    store_loop config v s candidates vectors (started s fresh_id (length candidates) rows)
