-- ===== src/Memory/Fixtures.antt =====
-- Concrete data for the tests of the memory service: two versions of a note, and a quarantined
-- reason below the second.
use memory_hub.Base.{
  ℕ, ◌+◌, true, false, none, some, List, [], ◌∷◌, ◌++◌, ◌≡◌, nat_eq, text_eq, codes, refl, arith,
  split,
}
use memory_hub.Curation.Scanner.{Regex}
use memory_hub.Memory.{MemoryNode}
use memory_hub.Memory.Chunker.{Splitter}
use memory_hub.Memory.Temporal.{Signals, Calendar}
use memory_hub.Memory.Search.{Query}
use memory_hub.Memory.Chain.{by_id, IsKeyed}
use memory_hub.Memory.Store.{Store, Services, MemoryNodeCreate, MemoryNodeUpdate, new_row}
use memory_hub.Memory.Create.{Curation}
use memory_hub.Memory.Delete.{delete_memory}
use memory_hub.Memory.Versions.{IsFresh}
use memory_hub.Memory.Steps.{left_by}

abbrev pub splitter : Splitter
splitter = record { paragraphs = split 10; sentences = split 46 }

abbrev pub signals : Signals
signals = record {
  deadline_iso = λ t. none;
  deadline_natural = λ t. none;
  iso_date = λ t. none;
  relative_deadline = λ t. some (5_000_000_000, codes "day");
  next_unit = λ t. none;
  implicit_marker = λ t. false;
}

abbrev pub no_signals : Signals
no_signals = record signals { relative_deadline = λ t. none; implicit_marker = λ t. true }

abbrev pub calendar : Calendar
calendar = record {
  end_of_day = λ y m d. some 86_399_000_000;
  year_of = λ t. 1;
  month_number = λ t. none;
  latest = 300_000_000_000_000_000;
}

abbrev pub services : Services
services = record {
  s3_threshold_bytes = 100;
  s3_prefix_chars = 10;
  version_retention_days = 90;
  entity_extraction_enabled = false;
  max_tokens = 100;
  embeds_batch = λ ts. true;
  has_s3 = true;
  object_key = λ tenant id version. tenant ++ id ∷ version ∷ [];
  splitter = splitter;
  signals = signals;
  calendar = calendar;
  weight_text = λ w. codes "0.7";
  with_key = λ metadata key value. value;
  chunk_metadata = λ i total. i ∷ total ∷ [];
  fact_metadata = λ i total run. i ∷ total ∷ run;
}

abbrev pub calm : Services
calm = record services { signals = no_signals }

abbrev pub first : MemoryNode
first = record (new_row 1 5) {
  content = codes "use make";
  scope = codes "user";
  owner_id = codes "ann";
  tenant_id = codes "t1";
  is_current = false;
}

abbrev pub second : MemoryNode
second = record first { id = 2; version = 2; is_current = true; previous_version_id = some 1 }

abbrev pub reason : MemoryNode
reason = record first {
  id = 3;
  parent_id = some 2;
  branch_type = some (codes "rationale");
  content = codes "it is there";
  status = codes "quarantined";
  is_current = true;
}

abbrev pub nodes : List MemoryNode
nodes = first ∷ second ∷ reason ∷ []

abbrev pub store : Store
store = record { nodes = nodes; relationships = []; reports = []; objects = [] }

abbrev pub keyed : IsKeyed nodes
unfolding by_id new_row
keyed = (refl, (refl, (refl, tt)))

abbrev pub fresh : ℕ → ℕ
fresh k = k + 10

abbrev pub first_there : by_id nodes first.id ≡ some first
unfolding by_id new_row
first_there = refl

pub fresh-IsFresh : IsFresh fresh nodes
unfolding new_row
fresh-IsFresh = record {
  distinct = λ a b e. omega (arith, e);
  unused = λ k. ground arith;
  unnamed = λ k. ground arith;
}

pub fresh_first : IsFresh fresh []
fresh_first = record {
  distinct = λ a b e. omega (arith, e);
  unused = λ k. refl;
  unnamed = λ k. refl;
}

abbrev pub regex : Regex
regex = record { search = λ p t. none; search_custom = λ p t. none }

abbrev pub curation : Curation
curation = record {
  regex = regex;
  rules = [];
  similarity = λ t. none;
  thresholds = record { reject = 9800; flag = 8000; gate = 9000 };
}

abbrev pub note : MemoryNodeCreate
note = record {
  content = codes "in a long time";
  scope = codes "user";
  weight = 7;
  owner_id = codes "ann";
  actor_id = none;
  driver_id = none;
  scope_id = none;
  parent_id = none;
  branch_type = none;
  metadata = none;
  domains = none;
  content_type = codes "experiential";
  source = none;
  upstream_trust_level = codes "trusted";
  relevant_until = none;
  chunk_target_tokens = none;
  chunk_overlap_tokens = none;
}

abbrev pub query : Query
query = record {
  scope = none;
  owner_id = none;
  current_only = true;
  authorized_scopes = none;
  tenant_id = codes "t1";
  campaign_ids = none;
  project_ids = none;
  role_names = none;
  entity_names = [];
  content_type = none;
  temporal_status = none;
  include_statuses = [];
  source = none;
  exclude_source = none;
}

abbrev pub deleted : Store
deleted = left_by (delete_memory services 9 1 store) store

abbrev pub reweigh : MemoryNodeUpdate
reweigh = record {
  content = none;
  weight = some 9;
  metadata = none;
  domains = none;
  content_type = none;
  source = none;
}
