-- ===== src/Retention/Sweeps.antt =====
-- What the two sweeps of a chatbot delete, and what they leave alone.
use mathlib.Core.Path.{subst}
use nuvrag_platform.Base.{
  ℕ, ◌+◌, ◌-◌, ◌*◌, ◌<◌, ◌≡◌, refl, min, true, false, not, ◌&&◌, some, List, arith, ◌==◌, ltb,
  count, filter, count-filter_congr, any-filter, filter-filter, inl, inr, Bool-cases, sym,
  length-map, ◌∙◌,
}
use nuvrag_platform.Base.Rows.{get, HasUniqueKeys}
use nuvrag_platform.Base.Sorted.{elem, filter-HasUniqueKeys, get-filter-some}
use nuvrag_platform.Base.Batch.{pick, length-pick, elem-pick, count-pick, count-after_pick}
use nuvrag_platform.Domain.Enums.{is_unresolved}
use nuvrag_platform.Desk.{
  Conversation, Message, Ticket, MemoryEntry, Desk, conversation_row, memory_row, in_conversation,
}
use nuvrag_platform.Retention.{
  is_pinned, is_expired_conversation, is_expired_memory, expired_conversations, expired_memories,
  delete_conversations, conversation_sweep, memory_sweep, purge_conversations, purge_memories,
  seconds_per_day,
}
use nuvrag_platform.Retention.Loop.{IsLawful, purge_loop_lem, purge_loop-keeps}

-- Deleting other conversations leaves what pins this one.
is_pinned-delete_conversations :
    (ids : List ℕ) (d : Desk) (c : Conversation)
    → elem c.id ids ≡ false
    → is_pinned (delete_conversations ids d) c ≡ is_pinned d c
unfolding delete_conversations
is_pinned-delete_conversations ids d c h =
    any-filter (λ t. (t.conversation_id == c.id) && is_unresolved t.status)
      (λ t. not (elem t.conversation_id ids)) d.tickets (λ t e. ground arith)

-- How many conversations a sweep has yet to delete.
abbrev pub conversation_backlog : ℕ → ℕ → Desk → ℕ
conversation_backlog chatbot_id cutoff d =
    count (is_expired_conversation chatbot_id cutoff d) d.conversations

conversation_sweep-IsLawful :
    (chatbot_id cutoff : ℕ)
    → IsLawful
        (conversation_sweep chatbot_id cutoff)
        (λ d. HasUniqueKeys d.conversations)
        (conversation_backlog chatbot_id cutoff)
unfolding delete_conversations
conversation_sweep-IsLawful chatbot_id cutoff =
    let column : Conversation → ℕ = λ c. c.updated_at in
    record {
      fills = λ n d h.
          length-map (λ c. c.id)
            (pick column (is_expired_conversation chatbot_id cutoff d) n d.conversations)
          ∙ length-pick column (is_expired_conversation chatbot_id cutoff d) n d.conversations;
      deletes = λ n d h.
          count-pick column (is_expired_conversation chatbot_id cutoff d) n d.conversations h
          ∙ sym (
              length-map (λ c. c.id)
                (pick column (is_expired_conversation chatbot_id cutoff d) n d.conversations));
      lowers = λ n d h.
          let p = is_expired_conversation chatbot_id cutoff d in
          let ids = expired_conversations chatbot_id cutoff n d in
          let same =
            count-filter_congr
              (is_expired_conversation chatbot_id cutoff (delete_conversations ids d)) p
              (λ c. not (elem c.id ids)) d.conversations
              (λ c e. rw (is_pinned-delete_conversations ids d c (ground arith)) refl) in
          omega (
            arith,
            same,
            count-after_pick column p n d.conversations h,
            length-map (λ c. c.id) (pick column p n d.conversations),
          );
      keeps = λ n d h.
          filter-HasUniqueKeys (λ c. not (elem c.id (expired_conversations chatbot_id cutoff n d)))
            d.conversations h;
    }

memory_sweep-IsLawful :
    (chatbot_id cutoff : ℕ)
    → IsLawful
        (memory_sweep chatbot_id cutoff)
        (λ d. HasUniqueKeys d.memories)
        (λ d. count (is_expired_memory chatbot_id cutoff d) d.memories)
memory_sweep-IsLawful chatbot_id cutoff =
    let column : MemoryEntry → ℕ = λ m. m.last_referenced_at in
    record {
      fills = λ n d h.
          length-map (λ m. m.id) (pick column (is_expired_memory chatbot_id cutoff d) n d.memories)
          ∙ length-pick column (is_expired_memory chatbot_id cutoff d) n d.memories;
      deletes = λ n d h.
          count-pick column (is_expired_memory chatbot_id cutoff d) n d.memories h
          ∙ sym (
              length-map (λ m. m.id)
                (pick column (is_expired_memory chatbot_id cutoff d) n d.memories));
      lowers = λ n d h.
          let p = is_expired_memory chatbot_id cutoff d in
          omega (
            arith,
            count-after_pick column p n d.memories h,
            length-map (λ m. m.id) (pick column p n d.memories),
          );
      keeps = λ n d h.
          filter-HasUniqueKeys (λ m. not (elem m.id (expired_memories chatbot_id cutoff n d)))
            d.memories h;
    }

-- With a positive batch size and distinct conversation ids, one purge of a chatbot's conversations
-- deletes the whole backlog up to `max_batches * batch_size` rows, reports that number, leaves the rest
-- of the backlog, and reports itself complete exactly when the backlog was below that limit.
pub purge_conversations_exact :
    (now batch_size max_batches chatbot_id retention_days : ℕ) (d : Desk)
    → 0 < batch_size
    → HasUniqueKeys d.conversations
    → let backlog = conversation_backlog chatbot_id (now - retention_days * seconds_per_day) in
      let (deleted, complete, d') =
        purge_conversations now batch_size max_batches chatbot_id retention_days d in
      (deleted ≡ min (max_batches * batch_size) (backlog d))
      × (backlog d' + deleted ≡ backlog d)
      × (complete ≡ ltb (backlog d) (max_batches * batch_size))
unfolding purge_conversations
purge_conversations_exact now batch_size max_batches chatbot_id retention_days d pos h =
    let cutoff = now - retention_days * seconds_per_day in
    ground (
      arith,
      purge_loop_lem (conversation_sweep chatbot_id cutoff) (λ e. HasUniqueKeys e.conversations)
          (conversation_backlog chatbot_id cutoff) (conversation_sweep-IsLawful chatbot_id cutoff)
          batch_size max_batches 0 d pos h,
    )

-- With a positive batch size and distinct note ids, one purge of a chatbot's notes deletes the whole
-- backlog up to `max_batches * batch_size` rows, reports that number, leaves the rest of the backlog,
-- and reports itself complete exactly when the backlog was below that limit.
pub purge_memories_exact :
    (now batch_size max_batches chatbot_id retention_days : ℕ) (d : Desk)
    → 0 < batch_size
    → HasUniqueKeys d.memories
    → let cutoff = now - retention_days * seconds_per_day in
      let (deleted, complete, d') =
        purge_memories now batch_size max_batches chatbot_id retention_days d in
      let backlog = count (is_expired_memory chatbot_id cutoff d) d.memories in
      (deleted ≡ min (max_batches * batch_size) backlog)
      × (count (is_expired_memory chatbot_id cutoff d') d'.memories + deleted ≡ backlog)
      × (complete ≡ ltb backlog (max_batches * batch_size))
unfolding purge_memories
purge_memories_exact now batch_size max_batches chatbot_id retention_days d pos h =
    let cutoff = now - retention_days * seconds_per_day in
    ground (
      arith,
      purge_loop_lem (memory_sweep chatbot_id cutoff) (λ e. HasUniqueKeys e.memories)
          (λ e. count (is_expired_memory chatbot_id cutoff e) e.memories)
          (memory_sweep-IsLawful chatbot_id cutoff) batch_size max_batches 0 d pos h,
    )

-- A conversation that a sweep must leave, with its whole transcript and its tickets.
record IsSpared (chatbot_id cutoff : ℕ) (c : Conversation) (ms : List Message) (ts : List Ticket)
    (d : Desk) : Type 0 where
  unique : HasUniqueKeys d.conversations
  stored : get c.id d.conversations ≡ some c
  kept : is_expired_conversation chatbot_id cutoff d c ≡ false
  transcript : filter (in_conversation c.id) d.messages ≡ ms
  tickets : filter (λ t. t.conversation_id == c.id) d.tickets ≡ ts

sweep-IsSpared :
    (chatbot_id cutoff n : ℕ) (c : Conversation) (ms : List Message) (ts : List Ticket) (d : Desk)
    → IsSpared chatbot_id cutoff c ms ts d
    → IsSpared chatbot_id cutoff c ms ts
        (delete_conversations (expired_conversations chatbot_id cutoff n d) d)
unfolding delete_conversations
sweep-IsSpared chatbot_id cutoff n c ms ts d h =
    let ids = expired_conversations chatbot_id cutoff n d in
    let spared : elem c.id ids ≡ false = elim (Bool-cases (elem c.id ids)) [
      | inr miss ↦ miss
      | inl hit ↦
          let (y, found, expired) =
            elem-pick (λ x. x.updated_at) (is_expired_conversation chatbot_id cutoff d) n
              d.conversations h.unique c.id hit in
          let same : y ≡ c = ground (arith, h.stored) in
          let expired' : is_expired_conversation chatbot_id cutoff d c ≡ true =
            subst (λ x. is_expired_conversation chatbot_id cutoff d x ≡ true) same expired in
          ground (arith, h.kept)
    ] in
    record {
      unique = filter-HasUniqueKeys (λ x. not (elem x.id ids)) d.conversations h.unique;
      stored =
          get-filter-some (λ x. not (elem x.id ids)) c.id c d.conversations h.stored (ground arith);
      kept = rw (is_pinned-delete_conversations ids d c spared) h.kept;
      transcript =
          filter-filter (in_conversation c.id) (λ m. not (elem m.conversation_id ids)) d.messages
            (λ m e. ground arith)
          ∙ h.transcript;
      tickets =
          filter-filter (λ t. t.conversation_id == c.id) (λ t. not (elem t.conversation_id ids))
            d.tickets (λ t e. ground arith)
          ∙ h.tickets;
    }

-- A purge of one chatbot leaves every conversation that is another chatbot's, was active within the
-- retention window or is wrapped by an unresolved ticket, with all of its messages and tickets.
pub purge_conversations_spares :
    (now batch_size max_batches chatbot_id retention_days : ℕ) (c : Conversation) (d : Desk)
    → HasUniqueKeys d.conversations
    → get c.id d.conversations ≡ some c
    → is_expired_conversation chatbot_id (now - retention_days * seconds_per_day) d c ≡ false
    → let d' = (purge_conversations now batch_size max_batches chatbot_id retention_days d).2 in
      (get c.id d'.conversations ≡ some c)
      × (filter (in_conversation c.id) d'.messages ≡ filter (in_conversation c.id) d.messages)
      × (filter (λ t. t.conversation_id == c.id) d'.tickets
          ≡ filter (λ t. t.conversation_id == c.id) d.tickets)
unfolding purge_conversations
purge_conversations_spares now batch_size max_batches chatbot_id retention_days c d unique stored
      kept =
    let cutoff = now - retention_days * seconds_per_day in
    let ms = filter (in_conversation c.id) d.messages in
    let ts = filter (λ t. t.conversation_id == c.id) d.tickets in
    let start : IsSpared chatbot_id cutoff c ms ts d = record {
      unique = unique;
      stored = stored;
      kept = kept;
      transcript = refl;
      tickets = refl;
    } in
    let spared =
      purge_loop-keeps (IsSpared chatbot_id cutoff c ms ts) (conversation_sweep chatbot_id cutoff)
        batch_size (λ e. sweep-IsSpared chatbot_id cutoff batch_size c ms ts e) max_batches 0 d
        start in
    (spared.stored, spared.transcript, spared.tickets)
