-- ===== src/Authz.antt =====
-- memory-hub-mcp/src/core/authz.py: who may read and write which memory and which thread.
-- The texts are lists of code points; a set of ids is a list, and `None` an absent one.
pub mod Visibility
pub mod Threads
pub mod Rules
pub mod Sharing
pub mod Sessions
mod Tests
use memory_hub.Base.{
  Text, Bool, true, false, not, ◌&&◌, ◌||◌, Option, none, some, List, [], ◌∷◌, ◌++◌, map, ◌==◌,
  text_eq, text_beq, contains, all, if◌then◌else◌, codes, String, is_some,
}
use memory_hub.Memory.{MemoryNode}

abbrev pub user : Text
user = codes "user"

abbrev pub project : Text
project = codes "project"

abbrev pub campaign : Text
campaign = codes "campaign"

abbrev pub role : Text
role = codes "role"

abbrev pub organizational : Text
organizational = codes "organizational"

abbrev pub enterprise : Text
enterprise = codes "enterprise"

abbrev pub service : Text
service = codes "service"

abbrev pub all_tiers : List Text
all_tiers = user ∷ project ∷ campaign ∷ role ∷ organizational ∷ enterprise ∷ []

-- The two switches that the environment sets.
pub record Flags : Type 0 where
  pub project_isolation : Bool
  pub role_isolation : Bool

-- The normalized claims dict: `sub` is always there, the others are read by `get` with a default.
pub record Claims : Type 0 where
  pub sub : Text
  pub identity_type : Option Text
  pub tenant_id : Option Text
  pub scopes : Option (List Text)
  pub project_memberships : Option (List Text)
  pub authorized_tenants : Option (List Text)

abbrev pub get_or {ℓ} : {A : Type ℓ} → A → Option A → A
get_or d none = d
get_or d (some a) = a

abbrev pub default_tenant_id : Text
default_tenant_id = codes "default"

-- `x in ids`, false for a missing set; a missing `x` is in no set of texts.
abbrev pub in_set : Option (List Text) → Text → Bool
in_set none x = false
in_set (some ids) x = contains ids x

abbrev pub opt_in_set : Option (List Text) → Option Text → Bool
opt_in_set ids none = false
opt_in_set ids (some x) = in_set ids x

pub tenant_scopes : Text → List Text
tenant_scopes tier =
    (codes "memory:read:" ++ tier)
    ∷ (codes "memory:write:" ++ tier)
    ∷ (codes "threads:read:" ++ tier)
    ∷ (codes "threads:write:" ++ tier)
    ∷ []

expand : List Text → List Text
unfolding tenant_scopes
expand [] = []
expand (tier ∷ tiers) = tenant_scopes tier ++ expand tiers

unfoldable pub normalize_session_scopes : List Text → List Text
unfolding expand
normalize_session_scopes access_tiers =
    expand access_tiers
    ++ (if all (contains access_tiers) all_tiers
        then codes "memory:read"
          ∷ codes "memory:write"
          ∷ codes "threads:read"
          ∷ codes "threads:write"
          ∷ []
        else [])

-- `f"{action}:{tier}" in scopes or action in scopes`
unfoldable pub holds : Claims → Text → Text → Bool
holds claims action tier =
    let scopes = get_or [] claims.scopes in
    contains scopes (action ++ (codes ":" ++ tier)) || contains scopes action

unfoldable pub get_tenant_filter : Claims → Text
get_tenant_filter claims = get_or default_tenant_id claims.tenant_id

unfoldable pub is_service : Claims → Bool
is_service claims = elim claims.identity_type [ none ↦ false | some t ↦ t == service ]

module _ (flags : Flags) where
  -- The branches on the tier.
  unfoldable pub read_tier :
      Claims
      → Text
      → MemoryNode
      → Option (List Text)
      → Option (List Text)
      → Option (List Text)
      → Bool
  read_tier claims tier memory campaign_ids project_ids role_names =
      if tier == user
      then memory.owner_id == claims.sub
      else if tier == enterprise || tier == organizational
      then true
      else if tier == project
      then not flags.project_isolation || opt_in_set project_ids memory.scope_id
      else if tier == campaign
      then in_set campaign_ids memory.owner_id
      else if tier == role
      then not flags.role_isolation || opt_in_set role_names memory.scope_id
      else false

  unfoldable pub authorize_read :
      Claims → MemoryNode → Option (List Text) → Option (List Text) → Option (List Text) → Bool
  unfolding get_tenant_filter
  authorize_read claims memory campaign_ids project_ids role_names =
      if not (memory.tenant_id == get_tenant_filter claims)
      then false
      else if not (holds claims (codes "memory:read") memory.scope)
      then false
      else read_tier claims memory.scope memory campaign_ids project_ids role_names

  unfoldable pub write_tier :
      Claims
      → Text
      → Text
      → Option (List Text)
      → Option Text
      → Option (List Text)
      → Option (List Text)
      → Bool
  write_tier claims scope owner_id campaign_ids scope_id project_ids role_names =
      if scope == user
      then (if owner_id == claims.sub then true else is_service claims)
      else if scope == enterprise
      then false
      else if scope == organizational
      then is_service claims
      else if scope == role
      then (if not (is_service claims)
          then false
          else not flags.role_isolation || opt_in_set role_names scope_id)
      else if scope == project
      then (if not flags.project_isolation
          then true
          else if is_service claims
          then true
          else opt_in_set project_ids scope_id)
      else if scope == campaign
      then in_set campaign_ids owner_id
      else false

  -- `tenant_id != own_tenant` is passed only for a tenant that `authorized_tenants` lists.
  unfoldable pub authorize_write :
      Claims
      → Text
      → Text
      → Text
      → Option (List Text)
      → Option Text
      → Option (List Text)
      → Option (List Text)
      → Bool
  unfolding get_tenant_filter
  authorize_write claims scope owner_id tenant_id campaign_ids scope_id project_ids role_names =
      if not (tenant_id == get_tenant_filter claims)
        && not (in_set claims.authorized_tenants tenant_id)
      then false
      else if not (holds claims (codes "memory:write") scope)
      then false
      else write_tier claims scope owner_id campaign_ids scope_id project_ids role_names
