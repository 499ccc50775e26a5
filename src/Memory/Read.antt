-- ===== src/Memory/Read.antt =====
-- services/memory.py: read_memory and get_memory_history, with the conversion to the schema.
use memory_hub.Base.{
  ℕ, ◌+◌, Text, Bool, false, Option, none, some, List, [], ◌∷◌, map, not, ◌&&◌, ◌==◌, nat_eq,
  text_eq, codes, if◌then◌else◌, ltb, leb, is_some, is_nil, length, any, find, keep, take, drop,
  sorted_by, Outcome, returned, raised,
}
use memory_hub.Memory.{MemoryNode}
use memory_hub.Memory.Chain.{id_in, walk_version_chain}
use memory_hub.Memory.Temporal.{compute_temporal_status}
use memory_hub.Memory.Store.{Store, ServiceError, memory_not_found}

-- The schema has each column of the row, and the fields that are computed.
pub record MemoryNodeRead : Type 0 where
  pub node : MemoryNode
  pub temporal_status : Option Text
  pub has_children : Bool
  pub has_rationale : Bool
  pub branch_count : ℕ
  pub current_version_id : Option ℕ
  pub content_truncated : Bool
  pub full_available : Bool

-- `bool(text)` of a text that may be None.
abbrev has_text : Option Text → Bool
has_text none = false
has_text (some t) = not (is_nil t)

abbrev pub column_is : Text → Option Text → Bool
column_is t none = false
column_is t (some u) = u == t

unfoldable pub node_to_read : ℕ → MemoryNode → Bool → Bool → ℕ → Option ℕ → MemoryNodeRead
node_to_read now node has_children has_rationale branch_count current_version_id =
    let is_s3 = node.storage_type == codes "s3" in
    record {
      node = node;
      temporal_status = compute_temporal_status now node.relevant_until;
      has_children = has_children;
      has_rationale = has_rationale;
      branch_count = branch_count;
      current_version_id = current_version_id;
      content_truncated = is_s3;
      full_available = is_s3 && has_text node.content_ref;
    }

-- The rows that are not deleted below a parent.
unfoldable pub live_branches : List MemoryNode → ℕ → List MemoryNode
live_branches nodes id = keep (λ m. id_in (id ∷ []) m.parent_id && not (is_some m.deleted_at)) nodes

unfoldable pub compute_branch_flags : List MemoryNode → ℕ → Bool × Bool × ℕ
unfolding live_branches
compute_branch_flags nodes id =
    let rows = live_branches nodes id in
    (ltb 0 (length rows), any (λ m. column_is (codes "rationale") m.branch_type) rows, length rows)

-- The dict of the flags of several parents: those without a child are absent.
unfoldable pub bulk_branch_flags : List MemoryNode → List ℕ → List (ℕ × (Bool × Bool × ℕ))
bulk_branch_flags nodes [] = []
bulk_branch_flags nodes (id ∷ parent_ids) =
    let rest = bulk_branch_flags nodes parent_ids in
    if is_nil (live_branches nodes id) then rest else (id, compute_branch_flags nodes id) ∷ rest

-- The `where` clause of a read: an active row of the tenant that is not deleted.
unfoldable pub is_readable : Text → ℕ → MemoryNode → Bool
is_readable tenant_id memory_id node =
    node.id == memory_id
    && not (is_some node.deleted_at)
    && node.tenant_id == tenant_id
    && node.status == codes "active"

-- `current_version_id`: the first row of the chain that is current and not deleted.
unfoldable pub current_version : List MemoryNode → MemoryNode → Option ℕ
current_version nodes node =
    if node.is_current
    then none
    else elim (find (λ n. n.is_current && not (is_some n.deleted_at))
        (walk_version_chain nodes node)) [ none ↦ none | some n ↦ some n.id ]

unfoldable pub read_memory : ℕ → Text → ℕ → Store → Outcome ServiceError MemoryNodeRead
read_memory now tenant_id memory_id store =
    elim (find (is_readable tenant_id memory_id) store.nodes) [
      | none ↦ raised (memory_not_found memory_id)
      | some node ↦
          let (has_children, has_rationale, branch_count) =
            compute_branch_flags store.nodes node.id in
          returned (
            node_to_read now node has_children has_rationale branch_count
              (current_version store.nodes node))
    ]

pub record MemoryVersionInfo : Type 0 where
  pub id : ℕ
  pub version : ℕ
  pub is_current : Bool
  pub created_at : ℕ
  pub stub : Text
  pub content : Text
  pub expires_at : Option ℕ

unfoldable pub version_info : MemoryNode → MemoryVersionInfo
version_info n = record {
  id = n.id;
  version = n.version;
  is_current = n.is_current;
  created_at = n.created_at;
  stub = n.stub;
  content = n.content;
  expires_at = n.expires_at;
}

pub record History : Type 0 where
  pub versions : List MemoryVersionInfo
  pub total_versions : ℕ
  pub has_more : Bool
  pub offset : ℕ

-- `sort(key=version, reverse=True)`, which keeps the order of equal versions.
unfoldable pub newest_first : List MemoryVersionInfo → List MemoryVersionInfo
newest_first = sorted_by (λ v. v.version) (λ a b. leb b a)

unfoldable pub get_memory_history : Text → ℕ → ℕ → ℕ → Store → Outcome ServiceError History
get_memory_history tenant_id memory_id max_versions offset store =
    elim (find (λ n. n.id == memory_id && n.tenant_id == tenant_id) store.nodes) [
      | none ↦ raised (memory_not_found memory_id)
      | some node ↦
          let all_versions =
            newest_first (map version_info (walk_version_chain store.nodes node)) in
          returned (record {
            versions = take max_versions (drop offset all_versions);
            total_versions = length all_versions;
            has_more = ltb (offset + max_versions) (length all_versions);
            offset = offset;
          })
    ]
