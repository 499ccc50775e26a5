-- ===== src/Conversation.antt =====
-- src/memoryhub_core/models/conversation.py and schemas.py: the tables of the conversation threads,
-- with the memories that were extracted from them. Of a JSON column the keys that the code reads are
-- fields, and the text of the others is kept.
pub mod Threads
pub mod Forking
pub mod Reading
pub mod Retention
mod Redaction
mod Numbering
mod Calls
mod Holds
mod Contents
mod Tests
use memory_hub.Base.{ℕ, Text, Bool, Option, List}
use memory_hub.Memory.Store.{Store}

-- `retention_policy`: any key may be missing.
pub record RetentionPolicy : Type 0 where
  pub ttl_days : Option ℕ
  pub cascade_to_memories : Option Text
  pub min_retention_days : Option ℕ

pub record ShareGrant : Type 0 where
  pub grantee_id : Text
  pub access_level : Text
  pub authorized_by : Text
  pub granted_at : ℕ

pub record ThreadMetadata : Type 0 where
  pub forked_from : Option ℕ
  pub fork_sequence : Option ℕ
  pub share_grants : List ShareGrant
  pub others : Text

pub record ConversationThread : Type 0 where
  pub id : ℕ
  pub title : Option Text
  pub a2a_context_id : Option Text
  pub scope : Text
  pub scope_id : Option Text
  pub owner_id : Text
  pub actor_id : Option Text
  pub driver_id : Option Text
  pub tenant_id : Text
  pub participant_ids : List Text
  pub participant_access : Option (List (Text × Text))
  pub status : Text
  pub archived_at : Option ℕ
  pub deleted_at : Option ℕ
  pub expires_at : Option ℕ
  pub retention_policy : Option RetentionPolicy
  pub legal_hold : Bool
  pub last_extracted_at : Option ℕ
  pub extraction_cursor : ℕ
  pub metadata : Option ThreadMetadata
  pub created_at : ℕ

pub record ConversationMessage : Type 0 where
  pub id : ℕ
  pub thread_id : ℕ
  pub sequence_number : ℕ
  pub role : Text
  pub actor_id : Option Text
  pub storage_type : Text
  pub content : Option Text
  pub content_ref : Option Text
  pub content_size : Option ℕ
  pub tool_call_id : Option Text
  pub handoff_from_agent_id : Option Text
  pub handoff_authorized_by : Option Text
  pub handoff_redacted : Bool
  pub tenant_id : Text
  pub metadata : Option Text
  pub created_at : ℕ

-- The link from a thread to a memory that was extracted from it: the columns that the service reads.
pub record ConversationExtraction : Type 0 where
  pub id : ℕ
  pub thread_id : ℕ
  pub memory_node_id : ℕ

pub record PurgeLog : Type 0 where
  pub id : ℕ
  pub resource_type : Text
  pub resource_id : ℕ
  pub purged_by : Text
  pub reason : Text
  pub incident_ref : Option Text

-- The tables; the memories and the bucket are the store of the memory service.
pub record Tables : Type 0 where
  pub threads : List ConversationThread
  pub messages : List ConversationMessage
  pub extractions : List ConversationExtraction
  pub purge_log : List PurgeLog
  pub memories : Store

pub data ThreadError : Type 0 where
  thread_not_found : ℕ → ThreadError
  thread_not_active : ℕ → Text → ThreadError
  legal_hold_active : ℕ → ThreadError
  object_missing : Text → ThreadError

pub record ConversationThreadCreate : Type 0 where
  pub scope : Text
  pub scope_id : Option Text
  pub participant_ids : List Text
  pub participant_access : Option (List (Text × Text))
  pub title : Option Text
  pub a2a_context_id : Option Text
  pub metadata : Option ThreadMetadata

pub record ConversationMessageCreate : Type 0 where
  pub role : Text
  pub actor_id : Option Text
  pub content : Option Text
  pub tool_call_id : Option Text
  pub metadata : Option Text
