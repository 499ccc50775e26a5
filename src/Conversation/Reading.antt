-- ===== src/Conversation/Reading.antt =====
-- services/conversation.py: get_thread and list_threads.
use memory_hub.Base.{
  ℕ, Text, Bool, true, false, Option, none, some, List, [], ◌∷◌, not, ◌&&◌, ◌==◌, nat_eq, text_eq,
  codes, if◌then◌else◌, ltb, leb, is_nil, length, find, keep, contains, take, drop, sorted_by,
  Outcome, returned, raised,
}
use memory_hub.Conversation.{
  ConversationThread, ConversationMessage, Tables, ThreadError, object_missing,
}
use memory_hub.Conversation.Threads.{ThreadServices, find_thread, by_sequence}

-- The messages with whether there are more, where they were asked for.
pub record ThreadView : Type 0 where
  pub thread : ConversationThread
  pub messages : Option (List ConversationMessage × Bool)

-- `caller_id is not None and caller_id != thread.owner_id`
unfoldable pub is_outsider : Option Text → ConversationThread → Bool
is_outsider none thread = false
is_outsider (some caller) thread = not (caller == thread.owner_id)

unfoldable pub is_shown : ConversationThread → Option Text → Option ℕ → ConversationMessage → Bool
unfolding is_outsider
is_shown thread caller before_sequence m =
    m.thread_id == thread.id
    && not (is_outsider caller thread && m.handoff_redacted)
    && elim before_sequence [ none ↦ true | some n ↦ ltb m.sequence_number n ]

-- All rows of the query, before the limit.
unfoldable pub shown_messages :
    ConversationThread → Option Text → Option ℕ → Tables → List ConversationMessage
unfolding is_shown by_sequence
shown_messages thread caller before_sequence tables =
    by_sequence (keep (is_shown thread caller before_sequence) tables.messages)

abbrev object_of : List (Text × Text) → Text → Option (Text × Text)
object_of objects ref = find (λ o. o.0 == ref) objects

-- `S3StorageAdapter.get_content`, which raises where there is no such object.
unfoldable pub fetch :
    ThreadServices
    → List (Text × Text)
    → ConversationMessage
    → Outcome ThreadError ConversationMessage
fetch services objects m =
    if m.storage_type == codes "s3" && services.has_s3
    then elim m.content_ref [
      | none ↦ returned m
      | some ref ↦ if is_nil ref then returned m else elim (object_of objects ref) [
        | none ↦ raised (object_missing ref)
        | some (key, text) ↦ returned (record m { content = some text })
      ]
    ]
    else returned m

unfoldable pub fetch_all :
    ThreadServices
    → List (Text × Text)
    → List ConversationMessage
    → Outcome ThreadError (List ConversationMessage)
unfolding fetch
fetch_all services objects [] = returned []
fetch_all services objects (m ∷ ms) = elim (fetch services objects m) [
  | raised e ↦ raised e
  | returned fetched ↦ elim (fetch_all services objects ms) [
    | raised e ↦ raised e
    | returned rest ↦ returned (fetched ∷ rest)
  ]
]

unfoldable pub get_thread :
    ThreadServices
    → Text
    → ℕ
    → Bool
    → ℕ
    → Option ℕ
    → Option Text
    → Tables
    → Outcome ThreadError (Option ThreadView)
unfolding find_thread shown_messages fetch_all
get_thread services tenant_id thread_id include_messages limit before_sequence caller tables =
    elim (find_thread tenant_id thread_id tables) [
      | none ↦ returned none
      | some thread ↦
          if include_messages
          then (let rows = shown_messages thread caller before_sequence tables in
              elim (fetch_all services tables.memories.objects (take limit rows)) [
                | raised e ↦ raised e
                | returned messages ↦ returned (
                    some (record {
                      thread = thread;
                      messages = some (messages, ltb limit (length rows));
                    }))
              ])
          else returned (some (record { thread = thread; messages = none }))
    ]

pub record ThreadFilter : Type 0 where
  pub owner_id : Option Text
  pub scope : Option Text
  pub scope_id : Option Text
  pub status : Option Text
  pub participant_id : Option Text

-- A filter that is not given lets all pass.
abbrev pub matches : Option Text → Text → Bool
matches none t = true
matches (some wanted) t = t == wanted

abbrev pub matches_column : Option Text → Option Text → Bool
matches_column none t = true
matches_column (some wanted) none = false
matches_column (some wanted) (some t) = t == wanted

unfoldable pub is_listed : Text → ThreadFilter → ConversationThread → Bool
is_listed tenant_id f t =
    t.tenant_id == tenant_id
    && matches f.owner_id t.owner_id
    && matches f.scope t.scope
    && matches_column f.scope_id t.scope_id
    && matches f.status t.status
    && elim f.participant_id [ none ↦ true | some p ↦ contains t.participant_ids p ]

-- The page, newest first, and the count of all.
unfoldable pub list_threads : Text → ThreadFilter → ℕ → ℕ → Tables → List ConversationThread × ℕ
unfolding is_listed
list_threads tenant_id f limit offset tables =
    let rows = keep (is_listed tenant_id f) tables.threads in
    (take limit (drop offset (sorted_by (λ t. t.created_at) (λ a b. leb b a) rows)), length rows)
