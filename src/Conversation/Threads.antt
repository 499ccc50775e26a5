-- ===== src/Conversation/Threads.antt =====
-- services/conversation.py: creating, finding, appending and archiving.
use memory_hub.Base.{
  ℕ, ◌+◌, ◌*◌, Text, Bool, false, Option, none, some, List, [], ◌∷◌, ◌++◌, map, not, ◌&&◌, ◌==◌,
  nat_eq, text_eq, codes, if◌then◌else◌, ltb, leb, is_some, find, keep, contains, sorted_by,
  Outcome, returned, raised,
}
use memory_hub.Memory.Temporal.{day}
use memory_hub.Memory.Store.{Store, utf8_length}
use memory_hub.Conversation.{
  RetentionPolicy, ConversationThread, ConversationMessage, Tables, ThreadError, thread_not_found,
  thread_not_active, ConversationThreadCreate, ConversationMessageCreate,
}

-- The setting, whether there is a bucket, the key of a message's object, and the title of a fork
-- whose source has none.
pub record ThreadServices : Type 0 where
  pub conv_inline_max_bytes : ℕ
  pub has_s3 : Bool
  pub message_key : Text → ℕ → ℕ → Text
  pub short_id : ℕ → Text

-- The `where` clause that the operations share.
unfoldable pub is_thread : Text → ℕ → ConversationThread → Bool
is_thread tenant_id thread_id t =
    t.id == thread_id && t.tenant_id == tenant_id && not (is_some t.deleted_at)

unfoldable pub find_thread : Text → ℕ → Tables → Option ConversationThread
unfolding is_thread
find_thread tenant_id thread_id tables = find (is_thread tenant_id thread_id) tables.threads

-- What a commit does with a row that was changed.
unfoldable pub save_thread : ConversationThread → Tables → Tables
save_thread thread tables = record tables {
  threads = map (λ t. if t.id == thread.id then thread else t) tables.threads;
}

unfoldable pub with_participant : Text → List Text → List Text
with_participant who participants =
    if contains participants who then participants else participants ++ who ∷ []

-- The policy by the scope.
unfoldable pub default_policy : Text → ℕ × RetentionPolicy
default_policy scope =
    let ttl_days = if scope == codes "user" then 90 else 365 in
    (
      ttl_days,
      record {
        ttl_days = some ttl_days;
        cascade_to_memories = some (codes "delete");
        min_retention_days = some 30;
      },
    )

abbrev pub thread_messages : ℕ → Tables → List ConversationMessage
thread_messages thread_id tables = keep (λ m. m.thread_id == thread_id) tables.messages

-- `coalesce(max(sequence_number), 0)`
unfoldable pub last_sequence : List ConversationMessage → ℕ
last_sequence [] = 0
last_sequence (m ∷ ms) =
    let rest = last_sequence ms in if ltb rest m.sequence_number then m.sequence_number else rest

unfoldable pub by_sequence : List ConversationMessage → List ConversationMessage
by_sequence = sorted_by (λ m. m.sequence_number) leb

-- `len(content.encode()) if content else None`
abbrev pub size_of : Option Text → Option ℕ
size_of none = none
size_of (some []) = none
size_of (some (c ∷ cs)) = some (utf8_length (c ∷ cs))

module _ (fresh : ℕ → ℕ) (now : ℕ) (tenant_id : Text) where
  unfoldable pub new_thread :
      ConversationThreadCreate → Text → Option Text → Option Text → ConversationThread
  unfolding default_policy with_participant
  new_thread input owner_id actor_id driver_id =
      let (ttl_days, policy) = default_policy input.scope in
      record {
        id = fresh 0;
        title = input.title;
        a2a_context_id = input.a2a_context_id;
        scope = input.scope;
        scope_id = input.scope_id;
        owner_id = owner_id;
        actor_id = actor_id;
        driver_id = driver_id;
        tenant_id = tenant_id;
        participant_ids = with_participant owner_id input.participant_ids;
        participant_access = input.participant_access;
        status = codes "active";
        archived_at = none;
        deleted_at = none;
        expires_at = some (now + ttl_days * day);
        retention_policy = some policy;
        legal_hold = false;
        last_extracted_at = none;
        extraction_cursor = 0;
        metadata = input.metadata;
        created_at = now;
      }

  unfoldable pub create_thread :
      ConversationThreadCreate
      → Text
      → Option Text
      → Option Text
      → Tables
      → ConversationThread × Tables
  unfolding new_thread
  create_thread input owner_id actor_id driver_id tables =
      let thread = new_thread input owner_id actor_id driver_id in
      (thread, record tables { threads = tables.threads ++ thread ∷ [] })

  unfoldable pub store_message :
      ThreadServices → ℕ → ℕ → Option Text → Store → Option Text × Text × Option Text × Store
  store_message services thread_id sequence_number content store = elim content [
    | none ↦ (none, codes "inline", none, store)
    | some text ↦
        if ltb services.conv_inline_max_bytes (utf8_length text) && services.has_s3
        then (let key = services.message_key tenant_id thread_id sequence_number in
            (none, codes "s3", some key, record store { objects = (key, text) ∷ store.objects }))
        else (some text, codes "inline", none, store)
  ]

  unfoldable pub new_message :
      ℕ → ℕ → ConversationMessageCreate → Option Text → Text → Option Text → ConversationMessage
  new_message thread_id sequence_number input content storage_type content_ref = record {
    id = fresh 0;
    thread_id = thread_id;
    sequence_number = sequence_number;
    role = input.role;
    actor_id = input.actor_id;
    storage_type = storage_type;
    content = content;
    content_ref = content_ref;
    content_size = size_of input.content;
    tool_call_id = input.tool_call_id;
    handoff_from_agent_id = none;
    handoff_authorized_by = none;
    handoff_redacted = false;
    tenant_id = tenant_id;
    metadata = input.metadata;
    created_at = now;
  }

  unfoldable pub append_message :
      ThreadServices
      → ℕ
      → ConversationMessageCreate
      → Tables
      → Outcome ThreadError (ConversationMessage × Tables)
  unfolding find_thread last_sequence store_message new_message
  append_message services thread_id input tables = elim (find_thread tenant_id thread_id tables) [
    | none ↦ raised (thread_not_found thread_id)
    | some thread ↦
        if thread.status == codes "active"
        then (let sequence_number = last_sequence (thread_messages thread_id tables) + 1 in
            let (content, storage_type, content_ref, store) =
              store_message services thread_id sequence_number input.content tables.memories in
            let message =
              new_message thread_id sequence_number input content storage_type content_ref in
            returned (
              record message { content = input.content },
              record tables { messages = tables.messages ++ message ∷ []; memories = store },
            ))
        else raised (thread_not_active thread_id thread.status)
  ]

  unfoldable pub archive_thread : ℕ → Tables → Outcome ThreadError (ConversationThread × Tables)
  unfolding find_thread save_thread
  archive_thread thread_id tables = elim (find_thread tenant_id thread_id tables) [
    | none ↦ raised (thread_not_found thread_id)
    | some thread ↦
        if thread.status == codes "active"
        then (let archived = record thread { status = codes "archived"; archived_at = some now } in
            returned (archived, save_thread archived tables))
        else raised (thread_not_active thread_id thread.status)
  ]

  unfoldable pub lookup_thread_by_a2a_context : Text → Tables → Option ℕ
  lookup_thread_by_a2a_context context_id tables =
      elim (find
        (λ t.
          elim t.a2a_context_id [ none ↦ false | some c ↦ c == context_id ]
          && t.tenant_id == tenant_id
          && not (is_some t.deleted_at))
        tables.threads) [ none ↦ none | some t ↦ some t.id ]
