-- ===== src/Authz/Tests.antt =====
-- The theorems on authz.py and on the search filter at concrete inputs.
use memory_hub.Base.{true, none, some, [], ◌∷◌, text_eq, text_beq, codes, ◌≡◌, refl, ◌↔◌, ◌⊎◌}
use memory_hub.Memory.{MemoryNode}
use memory_hub.Memory.Search.{
  Query, is_found, build_search_filters, base_conditions, authorized_condition, scope_conditions,
  scope_condition, owner_condition, effective_project_ids, narrowing_conditions,
}
use memory_hub.Memory.Agreement.{search_projects, search_authorized}
use memory_hub.Authz.{
  Flags, Claims, user, project, get_tenant_filter, holds, authorize_read, authorize_write,
}
use memory_hub.Authz.Visibility.{build_authorized_scopes, add_tier, tier_owner, SessionUser}
use memory_hub.Authz.Rules.{
  IsIn, Grants, ReadRule, WriteRule, authorize_read_iff, authorize_write_iff,
}
use memory_hub.Authz.Threads.{
  Thread, explicit_access, authorize_thread_read, authorize_thread_write,
}
use memory_hub.Authz.Sharing.{
  InTenant, Owns, TakesPart, ReadTierRule, authorize_thread_read_iff, IsListedWriter, MayAppend,
  authorize_thread_write_iff,
}

abbrev flags : Flags
flags = record { project_isolation = true; role_isolation = true }

abbrev ann : Claims
ann = record {
  sub = codes "ann";
  identity_type = some user;
  tenant_id = some (codes "t1");
  scopes = some (codes "memory:read" ∷ codes "memory:write:project" ∷ []);
  project_memberships = some (codes "p1" ∷ []);
  authorized_tenants = some (codes "t2" ∷ []);
}

abbrev note : MemoryNode
note = record {
  id = 1;
  logical_id = 1;
  parent_id = none;
  content = codes "use make";
  stub = codes "use make";
  storage_type = codes "inline";
  content_ref = none;
  weight = 7;
  scope = project;
  branch_type = none;
  owner_id = codes "bob";
  actor_id = none;
  driver_id = none;
  tenant_id = codes "t1";
  scope_id = some (codes "p1");
  domains = none;
  content_type = codes "experiential";
  status = codes "active";
  source = codes "agent";
  upstream_trust_level = codes "trusted";
  is_current = true;
  version = 1;
  previous_version_id = none;
  expires_at = none;
  relevant_until = none;
  deleted_at = none;
  metadata = none;
  created_at = 5;
  updated_at = 5;
}

abbrev query : Query
query = record {
  scope = none;
  owner_id = none;
  current_only = true;
  authorized_scopes = some (build_authorized_scopes flags ann);
  tenant_id = codes "t1";
  campaign_ids = none;
  project_ids = none;
  role_names = none;
  entity_names = [];
  content_type = none;
  temporal_status = none;
  include_statuses = [];
  source = none;
  exclude_source = none;
}

note_found : is_found (λ t. t) 9 [] [] query note ≡ true
unfolding is_found build_search_filters base_conditions authorized_condition narrowing_conditions
    build_authorized_scopes add_tier tier_owner holds text_beq scope_conditions scope_condition
    owner_condition effective_project_ids
note_found = refl

search_authorized_example :
    authorize_read flags ann note none (some (search_projects ann query)) none ≡ true
unfolding get_tenant_filter
search_authorized_example =
    search_authorized (λ t. t) 9 [] [] flags ann query note refl refl note_found

authorize_read_iff_example :
    (authorize_read flags ann note none (some (codes "p1" ∷ [])) none ≡ true) ↔ (
      (note.tenant_id ≡ get_tenant_filter ann)
      × Grants ann (codes "memory:read") note.scope
      × ReadRule flags ann note none (some (codes "p1" ∷ [])) none note.scope)
authorize_read_iff_example = authorize_read_iff flags ann note none (some (codes "p1" ∷ [])) none

authorize_write_iff_example :
    (authorize_write flags ann project
        (codes "bob")
        (codes "t2")
        none
        (some (codes "p1"))
        (some (codes "p1" ∷ []))
        none
      ≡ true)
    ↔ (((codes "t2" ≡ get_tenant_filter ann) ⊎ IsIn ann.authorized_tenants (codes "t2"))
        × Grants ann (codes "memory:write") project
        × WriteRule flags ann
            (codes "bob")
            none
            (some (codes "p1"))
            (some (codes "p1" ∷ []))
            none
            project)
authorize_write_iff_example =
    authorize_write_iff flags ann (codes "bob") none (some (codes "p1")) (some (codes "p1" ∷ []))
      none project (codes "t2")

abbrev thread : Thread
thread = record {
  tenant_id = codes "t1";
  owner_id = codes "bob";
  scope = user;
  scope_id = none;
  participant_ids = some (codes "ann" ∷ []);
  participant_access = some ((codes "ann", codes "admin") ∷ []);
}

authorize_thread_read_iff_example : (authorize_thread_read flags ann thread none ≡ true) ↔ (
    InTenant flags ann thread none
    × (Owns flags ann thread none
        ⊎ TakesPart flags ann thread none
        ⊎ (Grants ann (codes "threads:read") thread.scope
            × ReadTierRule flags ann thread none thread.scope)))
authorize_thread_read_iff_example = authorize_thread_read_iff flags ann thread none

authorize_thread_write_iff_example : (authorize_thread_write flags ann thread none ≡ true) ↔ (
    InTenant flags ann thread none
    × (Owns flags ann thread none
        ⊎ IsListedWriter flags ann thread none
        ⊎ ((explicit_access thread ann.sub ≡ none) × MayAppend flags ann thread none)))
authorize_thread_write_iff_example = authorize_thread_write_iff flags ann thread none

abbrev session : SessionUser
session = record {
  user_id = codes "ann";
  identity_type = none;
  tenant_id = none;
  scopes = user ∷ project ∷ [];
  project_memberships = none;
  authorized_tenants = none;
}
