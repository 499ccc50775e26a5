-- ===== src/Memory/Create.antt =====
-- services/memory.py: create_memory, with the pipeline of services/curation/pipeline.py in front, and
-- the rows that hold the chunks and the facts of a memory. `fresh` gives the UUIDs of one call, in
-- the order in which they are drawn. An operation that raises leaves the tables as they were. The
-- trigger of the entity extraction is left out.
use memory_hub.Base.{
  ℕ, suc, ◌*◌, Text, Bool, true, false, Option, none, some, List, [], ◌∷◌, ◌++◌, map, not, ◌&&◌,
  ◌==◌, nat_eq, text_eq, codes, if◌then◌else◌, is_nil, length, ltb, leb, take, Outcome, returned,
  raised,
}
use memory_hub.Authz.{get_or}
use memory_hub.Curation.{CuratorRule, load_rules}
use memory_hub.Curation.Scanner.{Regex}
use memory_hub.Curation.Pipeline.{
  CurationResult, SimilarityResult, Thresholds, blocked, gated, accepted, run_curation_pipeline,
}
use memory_hub.Memory.{MemoryNode}
use memory_hub.Memory.Chunker.{semantic_chunk}
use memory_hub.Memory.Temporal.{classify_temporal, TemporalError}
use memory_hub.Memory.Store.{
  Store, ServiceError, out_of_time, Services, MemoryNodeCreate, generate_stub, utf8_length, new_row,
  put_content,
}
use memory_hub.Memory.Read.{MemoryNodeRead, node_to_read}

-- What the rows below a memory take from it.
pub record Parent : Type 0 where
  pub id : ℕ
  pub scope : Text
  pub scope_id : Option Text
  pub owner_id : Text
  pub tenant_id : Text
  pub domains : Option (List Text)
  pub upstream_trust_level : Text

module _ (services : Services) (now : ℕ) (parent : Parent) where
  unfoldable pub child_row : ℕ → Text → Text → ℕ → Option (List Text) → Text → MemoryNode
  unfolding new_row
  child_row id branch_type content weight domains metadata = record (new_row id now) {
    content = content;
    stub = generate_stub services content parent.scope weight 0 false;
    scope = parent.scope;
    scope_id = parent.scope_id;
    weight = weight;
    owner_id = parent.owner_id;
    tenant_id = parent.tenant_id;
    parent_id = some parent.id;
    branch_type = some branch_type;
    metadata = some metadata;
    domains = domains;
    upstream_trust_level = parent.upstream_trust_level;
  }

  -- The loop over the chunks from the `i`th on.
  unfoldable pub chunk_rows : (ℕ → ℕ) → ℕ → ℕ → List Text → List MemoryNode
  unfolding child_row
  chunk_rows fresh i total [] = []
  chunk_rows fresh i total (c ∷ cs) =
      child_row (fresh i) (codes "chunk") c 0 parent.domains (services.chunk_metadata i total)
      ∷ chunk_rows fresh (suc i) total cs

  -- `none` where the call raises, before a row is added.
  unfoldable pub create_chunk_children :
      (ℕ → ℕ) → Text → Option ℕ → Option ℕ → Store → Option (Bool × Store)
  unfolding chunk_rows
  create_chunk_children fresh content target overlap store =
      let chunks =
        semantic_chunk services.splitter content (get_or 256 target) (get_or 0 overlap) in
      if leb (length chunks) 1
      then some (false, store)
      else if services.embeds_batch chunks
      then some
          (true, record store { nodes = store.nodes ++ chunk_rows fresh 0 (length chunks) chunks })
      else none

-- A fact of the extraction: its text, and its weight and its domains where it names them.
pub record Fact : Type 0 where
  pub content : Text
  pub weight : Option ℕ
  pub domains : Option (List Text)

-- `fact.get("domains") or domains`
abbrev pub or_else : Option (List Text) → Option (List Text) → Option (List Text)
or_else none other = other
or_else (some []) other = other
or_else (some (x ∷ xs)) other = some (x ∷ xs)

module _ (services : Services) (now default_weight : ℕ) (parent : Parent)
    (extraction_run_id : Text) where
  unfoldable pub fact_rows : (ℕ → ℕ) → ℕ → ℕ → List Fact → List MemoryNode
  unfolding child_row
  fact_rows fresh i total [] = []
  fact_rows fresh i total (f ∷ fs) =
      child_row services now parent (fresh i) (codes "fact") f.content
        (get_or default_weight f.weight) (or_else f.domains parent.domains)
        (services.fact_metadata i total extraction_run_id)
      ∷ fact_rows fresh (suc i) total fs

  unfoldable pub create_fact_children : (ℕ → ℕ) → List Fact → Store → Option (ℕ × Store)
  unfolding fact_rows
  create_fact_children fresh facts store =
      if is_nil facts
      then some (0, store)
      else if services.embeds_batch (map (λ f. f.content) facts)
      then some (
        length facts,
        record store { nodes = store.nodes ++ fact_rows fresh 0 (length facts) facts },
      )
      else none

-- What the pipeline reads: the rules of the table, the similarity query and the default thresholds.
pub record Curation : Type 0 where
  pub regex : Regex
  pub rules : List CuratorRule
  pub similarity : Text → Option (ℕ → SimilarityResult)
  pub thresholds : Thresholds

-- Text that is not empty, or else the default.
abbrev pub text_or : Text → Option Text → Text
text_or default none = default
text_or default (some t) = if is_nil t then default else t

module _ (services : Services) (fresh : ℕ → ℕ) (now : ℕ) where
  -- Content, storage type and reference of a row with a new content, and the bucket.
  unfoldable pub stored : Text → ℕ → Text → Store → Text × Text × Option Text × Store
  stored tenant_id id content store =
      if ltb services.s3_threshold_bytes (utf8_length content) && services.has_s3
      then (let (key, put) = put_content services tenant_id id content store in
          (take services.s3_prefix_chars content, codes "s3", some key, put))
      else (content, codes "inline", none, store)

  abbrev pub needs_chunking : Text → Bool
  needs_chunking content = ltb (services.max_tokens * 4) (length content)

  -- The extraction's status is set before the row is written.
  unfoldable pub node_metadata : MemoryNodeCreate → Option Text
  node_metadata input =
      if services.entity_extraction_enabled && not (input.scope == codes "entity")
      then some (services.with_key input.metadata (codes "extraction_status") (codes "pending"))
      else input.metadata

  unfoldable pub relevance : MemoryNodeCreate → Outcome TemporalError (Option ℕ)
  relevance input = elim input.relevant_until [
    | some t ↦ returned (some t)
    | none ↦ classify_temporal services.calendar services.signals input.content now
  ]

  unfoldable pub created_node :
      Text → MemoryNodeCreate → Text → Text → Option Text → Option ℕ → MemoryNode
  unfolding new_row node_metadata
  created_node tenant_id input db_content storage_type content_ref relevant_until =
      record (new_row (fresh 0) now) {
        content = db_content;
        stub = generate_stub services input.content input.scope input.weight 0 false;
        scope = input.scope;
        scope_id = input.scope_id;
        weight = input.weight;
        owner_id = input.owner_id;
        actor_id = input.actor_id;
        driver_id = input.driver_id;
        tenant_id = tenant_id;
        parent_id = input.parent_id;
        branch_type = input.branch_type;
        metadata = node_metadata input;
        domains = input.domains;
        content_type = input.content_type;
        source = text_or (codes "agent") input.source;
        upstream_trust_level =
            (if is_nil input.upstream_trust_level
              then codes "trusted"
              else input.upstream_trust_level);
        relevant_until = relevant_until;
        storage_type = storage_type;
        content_ref = content_ref;
      }

  abbrev pub below : MemoryNode → Parent
  below n = record {
    id = n.id;
    scope = n.scope;
    scope_id = n.scope_id;
    owner_id = n.owner_id;
    tenant_id = n.tenant_id;
    domains = n.domains;
    upstream_trust_level = n.upstream_trust_level;
  }

  -- The children of a long content: an exception is logged, and the memory has none then.
  unfoldable pub with_chunks : Bool → MemoryNode → Text → Option ℕ → Option ℕ → Store → Bool × Store
  unfolding create_chunk_children
  with_chunks needed node content target overlap store =
      if needed
      then get_or (false, store)
          (create_chunk_children services now (below node) (λ i. fresh (suc i)) content target
            overlap store)
      else (false, store)

  -- After the pipeline. Where the relevance raises, the object is in the bucket already, which a
  -- raised outcome does not show. The foreign key of `parent_id` is not checked.
  unfoldable pub persist :
      Text → MemoryNodeCreate → Store → Outcome ServiceError (MemoryNodeRead × Store)
  unfolding with_chunks created_node stored relevance
  persist tenant_id input store =
      let (db_content, storage_type, content_ref, put) =
        stored tenant_id (fresh 0) input.content store in
      elim (relevance input) [
        | raised e ↦ raised out_of_time
        | returned relevant_until ↦
            let node =
              created_node tenant_id input db_content storage_type content_ref relevant_until in
            let added = record put { nodes = put.nodes ++ node ∷ [] } in
            let (has_children, after) =
              with_chunks (needs_chunking input.content) node input.content
                input.chunk_target_tokens input.chunk_overlap_tokens added in
            returned (node_to_read now node has_children false 0 none, after)
      ]

  unfoldable pub not_curated : CurationResult
  not_curated = accepted 0 none none []

  unfoldable pub curate : Curation → Text → Bool → Bool → MemoryNodeCreate → CurationResult
  unfolding not_curated
  curate curation tenant_id skip_curation force input =
      if skip_curation
      then not_curated
      else run_curation_pipeline curation.regex
          (load_rules (codes "on_write") input.owner_id (some input.scope) tenant_id curation.rules)
          input.content (curation.similarity input.content) curation.thresholds force

  abbrev pub lets_pass : CurationResult → Bool
  lets_pass (blocked reason detail) = false
  lets_pass (gated reason nearest score count) = false
  lets_pass (accepted count nearest score flags) = true

  unfoldable pub create_memory :
      Curation
      → Text
      → Bool
      → Bool
      → MemoryNodeCreate
      → Store
      → Outcome ServiceError (Option MemoryNodeRead × CurationResult × Store)
  unfolding persist curate
  create_memory curation tenant_id skip_curation force input store =
      let result = curate curation tenant_id skip_curation force input in
      if lets_pass result
      then elim (persist tenant_id input store) [
        | raised e ↦ raised e
        | returned (memory, after) ↦ returned (some memory, result, after)
      ]
      else returned (none, result, store)
