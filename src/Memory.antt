-- ===== src/Memory.antt =====
-- src/memoryhub_core/models/memory.py and services/memory.py: the rows, and the parts of the service
-- in the modules below.
-- A UUID is the 128-bit number that it is, a timestamp the microseconds since an epoch, and a weight
-- the multiple of 2^-1074 that a non-negative double is. The vector of an embedding is left out; the
-- metadata are the text of their JSON.
pub mod Chunker
mod Chunks
pub mod Chain
pub mod Temporal
pub mod Store
pub mod Read
pub mod Delete
pub mod Create
pub mod Update
pub mod Contradictions
pub mod Versions
pub mod Replacement
pub mod Steps
pub mod Reachability
mod Removal
mod RoundTrip
mod Branches
mod Fixtures
mod Tests
mod Timely
pub mod Loops
mod Walk
mod Fuel
pub mod Search
pub mod Agreement
use memory_hub.Base.{ℕ, Text, Bool, Option, List}

pub record MemoryNode : Type 0 where
  pub id : ℕ
  pub logical_id : ℕ
  pub parent_id : Option ℕ
  pub content : Text
  pub stub : Text
  pub storage_type : Text
  pub content_ref : Option Text
  pub weight : ℕ
  pub scope : Text
  pub branch_type : Option Text
  pub owner_id : Text
  pub actor_id : Option Text
  pub driver_id : Option Text
  pub tenant_id : Text
  pub scope_id : Option Text
  pub domains : Option (List Text)
  pub content_type : Text
  pub status : Text
  pub source : Text
  pub upstream_trust_level : Text
  pub is_current : Bool
  pub version : ℕ
  pub previous_version_id : Option ℕ
  pub expires_at : Option ℕ
  pub relevant_until : Option ℕ
  pub deleted_at : Option ℕ
  pub metadata : Option Text
  pub created_at : ℕ
  pub updated_at : ℕ

pub record MemoryRelationship : Type 0 where
  pub id : ℕ
  pub source_id : ℕ
  pub target_id : ℕ
  pub relationship_type : Text
  pub tenant_id : Text
  pub created_by : Text
  pub valid_from : ℕ
  pub valid_until : Option ℕ
