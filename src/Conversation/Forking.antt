-- ===== src/Conversation/Forking.antt =====
-- services/conversation.py: forking a thread at a message and sharing one.
use memory_hub.Base.{
  ℕ, suc, ◌+◌, ◌*◌, Text, false, Option, none, some, List, [], ◌∷◌, ◌++◌, ◌&&◌, ◌==◌, nat_eq,
  text_eq, codes, if◌then◌else◌, leb, is_nil, keep, Outcome, returned, raised,
}
use memory_hub.Authz.{get_or}
use memory_hub.Memory.Temporal.{day}
use memory_hub.Conversation.{
  RetentionPolicy, ShareGrant, ThreadMetadata, ConversationThread, ConversationMessage, Tables,
  ThreadError, thread_not_found,
}
use memory_hub.Conversation.Threads.{
  ThreadServices, find_thread, save_thread, with_participant, by_sequence,
}

abbrev policy_or : (RetentionPolicy → Option ℕ) → ℕ → Option RetentionPolicy → ℕ
policy_or field default none = default
policy_or field default (some p) = get_or default (field p)

abbrev title_or : Text → Option Text → Text
title_or default none = default
title_or default (some t) = if is_nil t then default else t

-- `access[grantee_id] = access_level`
unfoldable pub set_access : Text → Text → List (Text × Text) → List (Text × Text)
set_access who level [] = (who, level) ∷ []
set_access who level ((w, l) ∷ rest) =
    let others = set_access who level rest in
    if w == who then (w, level) ∷ rest else (w, l) ∷ others

abbrev pub no_metadata : ThreadMetadata
no_metadata = record { forked_from = none; fork_sequence = none; share_grants = []; others = [] }

module _ (fresh : ℕ → ℕ) (now : ℕ) (tenant_id : Text) where
  -- The columns that the copy of a message has; the others have their defaults.
  unfoldable pub copied_message : ℕ → ℕ → ℕ → ConversationMessage → ConversationMessage
  copied_message id thread_id seq m = record {
    id = id;
    thread_id = thread_id;
    sequence_number = seq;
    role = m.role;
    actor_id = m.actor_id;
    storage_type = m.storage_type;
    content = m.content;
    content_ref = m.content_ref;
    content_size = m.content_size;
    tool_call_id = m.tool_call_id;
    handoff_from_agent_id = none;
    handoff_authorized_by = none;
    handoff_redacted = false;
    tenant_id = tenant_id;
    metadata = m.metadata;
    created_at = now;
  }

  -- `enumerate(source_messages, start=1)`
  unfoldable pub copy_messages : ℕ → ℕ → List ConversationMessage → List ConversationMessage
  unfolding copied_message
  copy_messages seq thread_id [] = []
  copy_messages seq thread_id (m ∷ ms) =
      copied_message (fresh seq) thread_id seq m ∷ copy_messages (suc seq) thread_id ms

  unfoldable pub forked_thread :
      ThreadServices
      → ConversationThread
      → ℕ
      → Text
      → Option Text
      → Option Text
      → ConversationThread
  forked_thread services source from_sequence owner_id actor_id title = record {
    id = fresh 0;
    title =
        some (
          title_or (codes "Fork of " ++ title_or (services.short_id source.id) source.title) title);
    a2a_context_id = none;
    scope = source.scope;
    scope_id = source.scope_id;
    owner_id = owner_id;
    actor_id = actor_id;
    driver_id = none;
    tenant_id = tenant_id;
    participant_ids = owner_id ∷ [];
    participant_access = none;
    status = codes "active";
    archived_at = none;
    deleted_at = none;
    expires_at = some (now + policy_or (λ p. p.ttl_days) 90 source.retention_policy * day);
    retention_policy = source.retention_policy;
    legal_hold = false;
    last_extracted_at = none;
    extraction_cursor = 0;
    metadata = some (record {
      forked_from = some source.id;
      fork_sequence = some from_sequence;
      share_grants = [];
      others = [];
    });
    created_at = now;
  }

  unfoldable pub fork_thread :
      ThreadServices
      → ℕ
      → ℕ
      → Text
      → Option Text
      → Option Text
      → Tables
      → Outcome ThreadError (ConversationThread × Tables)
  unfolding find_thread forked_thread copy_messages by_sequence
  fork_thread services thread_id from_sequence owner_id actor_id title tables =
      elim (find_thread tenant_id thread_id tables) [
        | none ↦ raised (thread_not_found thread_id)
        | some source ↦
            let forked = forked_thread services source from_sequence owner_id actor_id title in
            let copied = by_sequence (
              keep (λ m. m.thread_id == thread_id && leb m.sequence_number from_sequence)
                tables.messages) in
            returned (
              forked,
              record tables {
                threads = tables.threads ++ forked ∷ [];
                messages = tables.messages ++ copy_messages 1 forked.id copied;
              },
            )
      ]

  unfoldable pub shared_thread : ConversationThread → Text → Text → Text → ConversationThread
  unfolding with_participant set_access
  shared_thread thread grantee_id access_level authorized_by =
      let meta = get_or no_metadata thread.metadata in
      let grant : ShareGrant = record {
        grantee_id = grantee_id;
        access_level = access_level;
        authorized_by = authorized_by;
        granted_at = now;
      } in
      record thread {
        participant_ids = with_participant grantee_id thread.participant_ids;
        participant_access =
            some (set_access grantee_id access_level (get_or [] thread.participant_access));
        metadata = some (record meta { share_grants = meta.share_grants ++ grant ∷ [] });
      }

  unfoldable pub share_thread :
      ℕ → Text → Text → Text → Tables → Outcome ThreadError (ConversationThread × Tables)
  unfolding find_thread save_thread shared_thread
  share_thread thread_id grantee_id access_level authorized_by tables =
      elim (find_thread tenant_id thread_id tables) [
        | none ↦ raised (thread_not_found thread_id)
        | some thread ↦
            let shared = shared_thread thread grantee_id access_level authorized_by in
            returned (shared, save_thread shared tables)
      ]
