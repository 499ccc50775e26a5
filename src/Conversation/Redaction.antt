-- ===== src/Conversation/Redaction.antt =====
-- services/conversation.py: which messages a caller sees in a thread and in a fork of it.
use memory_hub.Base.{
  ℕ, suc, Text, Bool, true, false, Option, none, some, List, [], ◌∷◌, ◌++◌, ◌&&◌, ◌==◌, ◌≡◌, nat_eq,
  text_eq, leb, any, any-append, keep, keep-append, any-sorted, refl, ◌∙◌, arith, beq_refl,
}
use memory_hub.Conversation.{ConversationThread, ConversationMessage, Tables}
use memory_hub.Conversation.Threads.{ThreadServices, find_thread, by_sequence}
use memory_hub.Conversation.Forking.{copy_messages, copied_message, forked_thread, fork_thread}
use memory_hub.Conversation.Reading.{is_outsider, is_shown, shown_messages}
use memory_hub.Conversation.Retention.{carried_on}

abbrev pub has_content : Text → ConversationMessage → Bool
has_content text m = elim m.content [ none ↦ false | some c ↦ c == text ]

any-by_sequence :
    (p : ConversationMessage → Bool) (ms : List ConversationMessage)
    → any p (by_sequence ms) ≡ any p ms
unfolding by_sequence
any-by_sequence p ms = any-sorted _ p ms

-- A redacted message of the thread, up to the fork point, with the content.
abbrev pub is_redacted_copy : ℕ → ℕ → Text → ConversationMessage → Bool
is_redacted_copy thread_id from_sequence text m =
    m.thread_id == thread_id
    && leb m.sequence_number from_sequence
    && m.handoff_redacted
    && has_content text m

none_redacted :
    (thread : ConversationThread) (caller : Text) (ms : List ConversationMessage)
    → (caller == thread.owner_id) ≡ false
    → any (λ m. m.handoff_redacted) (keep (is_shown thread (some caller) none) ms) ≡ false
unfolding is_shown is_outsider
none_redacted thread caller [] h = refl
none_redacted thread caller (m ∷ ms) h = ground (arith, none_redacted thread caller ms h)

found_in_range :
    (thread_id from_sequence : ℕ) (text : Text) (ms : List ConversationMessage)
    → any (is_redacted_copy thread_id from_sequence text) ms ≡ true
    → any
        (has_content text)
        (keep (λ m. m.thread_id == thread_id && leb m.sequence_number from_sequence) ms)
      ≡ true
found_in_range thread_id from_sequence text [] h = ground arith
found_in_range thread_id from_sequence text (m ∷ ms) h =
    ground (arith, found_in_range thread_id from_sequence text ms)

module _ (fresh : ℕ → ℕ) (now : ℕ) (tenant_id : Text) where
  copied_shown :
      (thread : ConversationThread) (caller text : Text) (seq : ℕ) (ms : List ConversationMessage)
      → (caller == thread.owner_id) ≡ true
      → any (has_content text) ms ≡ true
      → any (has_content text) (
          keep
            (is_shown thread (some caller) none)
            (copy_messages fresh now tenant_id seq thread.id ms))
        ≡ true
  unfolding is_shown is_outsider copy_messages copied_message
  copied_shown thread caller text seq [] h k = ground arith
  copied_shown thread caller text seq (m ∷ ms) h k =
      ground (arith, copied_shown thread caller text (suc seq) ms h, beq_refl thread.id)

  -- Who does not own a thread sees no redacted message of it; but in a fork that the same caller
  -- makes, each redacted message up to the fork point is there to see with its content.
  pub fork_thread_reveals :
      (services : ThreadServices) (thread_id from_sequence : ℕ) (caller : Text)
      (actor_id title : Option Text) (text : Text) (tables : Tables) (source : ConversationThread)
      → find_thread tenant_id thread_id tables ≡ some source
      → (caller == source.owner_id) ≡ false
      → any (is_redacted_copy thread_id from_sequence text) tables.messages ≡ true
      → (any (λ m. m.handoff_redacted) (shown_messages source (some caller) none tables) ≡ false)
        × (any (has_content text) (
              shown_messages
                (forked_thread fresh now tenant_id services source from_sequence caller actor_id
                  title)
                (some caller)
                none
                (carried_on
                  (fork_thread fresh now tenant_id services thread_id from_sequence caller actor_id
                    title tables)
                  tables))
            ≡ true)
  unfolding shown_messages fork_thread
  fork_thread_reveals services thread_id from_sequence caller actor_id title text tables source
        found other redacted =
      let forked =
        forked_thread fresh now tenant_id services source from_sequence caller actor_id title in
      let range =
        keep (λ m. m.thread_id == thread_id && leb m.sequence_number from_sequence)
          tables.messages in
      let copies = copy_messages fresh now tenant_id 1 forked.id (by_sequence range) in
      let copied : any (has_content text) (by_sequence range) ≡ true =
        any-by_sequence (has_content text) range
        ∙ found_in_range thread_id from_sequence text tables.messages redacted in
      let shown =
        copied_shown forked caller text 1 (by_sequence range)
          (owns services source from_sequence caller actor_id title) copied in
      (
        any-by_sequence (λ m. m.handoff_redacted)
              (keep (is_shown source (some caller) none) tables.messages)
            ∙ none_redacted source caller tables.messages other,
        rw
            (
              fork_thread,
              found,
              any-by_sequence (has_content text)
                  (keep (is_shown forked (some caller) none) (tables.messages ++ copies)),
              keep-append (is_shown forked (some caller) none) tables.messages copies,
            )
            (ground (
              arith,
              shown,
              any-append (has_content text)
                  (keep (is_shown forked (some caller) none) tables.messages)
                  (keep (is_shown forked (some caller) none) copies),
            )),
      )
    where
      owns :
          (services : ThreadServices) (source : ConversationThread) (n : ℕ) (caller : Text)
          (actor_id title : Option Text)
          → (caller
              == (forked_thread fresh now tenant_id services source n caller actor_id
                  title).owner_id)
            ≡ true
      owns services source n caller actor_id title = unfold forked_thread in beq_refl caller
