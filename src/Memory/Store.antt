-- ===== src/Memory/Store.antt =====
-- services/memory.py, models/memory.py, models/contradiction.py, schemas.py and storage/s3.py: the
-- tables and the bucket, the inputs and the outputs of the memory service, and its errors.
use memory_hub.Base.{
  ℕ, ◌+◌, Text, Bool, true, Option, none, some, List, [], ◌∷◌, ◌++◌, codes, if◌then◌else◌, ltb,
  show_nat, take,
}
use memory_hub.Memory.{MemoryNode, MemoryRelationship}
use memory_hub.Memory.Chunker.{Splitter}
use memory_hub.Memory.Temporal.{Signals, Calendar}

pub record ContradictionReport : Type 0 where
  pub id : ℕ
  pub memory_id : ℕ
  pub observed_behavior : Text
  pub confidence : ℕ
  pub reporter : Text
  pub created_at : ℕ
  pub resolved : Bool
  pub resolved_at : Option ℕ
  pub resolution_action : Option Text
  pub resolved_by : Option Text
  pub tenant_id : Text

-- The tables, and the bucket's contents by their keys.
pub record Store : Type 0 where
  pub nodes : List MemoryNode
  pub relationships : List MemoryRelationship
  pub reports : List ContradictionReport
  pub objects : List (Text × Text)

pub data ServiceError : Type 0 where
  memory_not_found : ℕ → ServiceError
  memory_not_current : ℕ → ℕ → ServiceError
  memory_already_deleted : ℕ → ServiceError
  contradiction_not_found : ℕ → ServiceError
  already_resolved : ℕ → ServiceError
  invalid_resolution_action : Text → ServiceError
  out_of_time : ServiceError

pub record MemoryNodeCreate : Type 0 where
  pub content : Text
  pub scope : Text
  pub weight : ℕ
  pub owner_id : Text
  pub actor_id : Option Text
  pub driver_id : Option Text
  pub scope_id : Option Text
  pub parent_id : Option ℕ
  pub branch_type : Option Text
  pub metadata : Option Text
  pub domains : Option (List Text)
  pub content_type : Text
  pub source : Option Text
  pub upstream_trust_level : Text
  pub relevant_until : Option ℕ
  pub chunk_target_tokens : Option ℕ
  pub chunk_overlap_tokens : Option ℕ

pub record MemoryNodeUpdate : Type 0 where
  pub content : Option Text
  pub weight : Option ℕ
  pub metadata : Option Text
  pub domains : Option (List Text)
  pub content_type : Option Text
  pub source : Option Text

-- The settings, and what the service calls outside: the size of the embedding model's input, whether
-- a batch of texts is embedded or the call raises, the adapter, the splitting expressions, the
-- classifier's expressions, the text of a weight, and `metadata` with one more key.
pub record Services : Type 0 where
  pub s3_threshold_bytes : ℕ
  pub s3_prefix_chars : ℕ
  pub version_retention_days : ℕ
  pub entity_extraction_enabled : Bool
  pub max_tokens : ℕ
  pub embeds_batch : List Text → Bool
  pub has_s3 : Bool
  pub object_key : Text → ℕ → ℕ → Text
  pub splitter : Splitter
  pub signals : Signals
  pub calendar : Calendar
  pub weight_text : ℕ → Text
  pub with_key : Option Text → Text → Text → Text
  pub chunk_metadata : ℕ → ℕ → Text
  pub fact_metadata : ℕ → ℕ → Text → Text

-- `len(text.encode("utf-8"))`
unfoldable pub utf8_length : Text → ℕ
utf8_length [] = 0
utf8_length (c ∷ cs) =
    (if ltb c 128 then 1 else if ltb c 2048 then 2 else if ltb c 65536 then 3 else 4)
    + utf8_length cs

abbrev pub stub_content_limit : ℕ
stub_content_limit = 200

unfoldable pub generate_stub : Services → Text → Text → ℕ → ℕ → Bool → Text
generate_stub services content scope weight branch_count has_rationale =
    take stub_content_limit content
    ++ (codes " [scope="
        ++ (scope
            ++ (codes ", weight="
                ++ (services.weight_text weight
                    ++ (codes ", branches="
                        ++ (show_nat branch_count
                            ++ (codes ", rationale="
                                ++ ((if has_rationale then codes "yes" else codes "no")
                                    ++ codes "]"))))))))

-- The columns that an insert leaves to their defaults.
unfoldable pub new_row : ℕ → ℕ → MemoryNode
new_row id now = record {
  id = id;
  logical_id = id;
  parent_id = none;
  content = [];
  stub = [];
  storage_type = codes "inline";
  content_ref = none;
  weight = 0;
  scope = [];
  branch_type = none;
  owner_id = [];
  actor_id = none;
  driver_id = none;
  tenant_id = codes "default";
  scope_id = none;
  domains = some [];
  content_type = codes "experiential";
  status = codes "active";
  source = codes "agent";
  upstream_trust_level = codes "trusted";
  is_current = true;
  version = 1;
  previous_version_id = none;
  expires_at = none;
  relevant_until = none;
  deleted_at = none;
  metadata = none;
  created_at = now;
  updated_at = now;
}

-- `S3StorageAdapter.put_content`, where there is an adapter and the text is long.
unfoldable pub put_content : Services → Text → ℕ → Text → Store → Text × Store
put_content services tenant_id id content store =
    let key = services.object_key tenant_id id id in
    (key, record store { objects = (key, content) ∷ store.objects })
