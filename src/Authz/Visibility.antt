-- ===== src/Authz/Visibility.antt =====
-- authz.py: whom a request comes from, its tenant, and the filter for searches.
use memory_hub.Base.{
  Text, ◌&&◌, Option, none, some, List, [], ◌∷◌, ◌==◌, text_eq, nat_eq, contains, any,
  if◌then◌else◌, codes,
}
use memory_hub.Authz.{
  Flags, Claims, user, project, all_tiers, get_or, get_tenant_filter, holds, in_set,
  normalize_session_scopes, default_tenant_id,
}

-- The value that the search filter has for a tier: the caller's own rows, those of some projects, or
-- all.
pub data Owner : Type 0 where
  anyone : Owner
  exactly : Text → Owner
  among : List Text → Owner

abbrev pub Filter : Type 0
Filter = List (Text × Owner)

unfoldable pub tier_owner : Flags → Claims → Text → Option Owner
tier_owner flags claims tier =
    if tier == user
    then some (exactly claims.sub)
    else if tier == project && flags.project_isolation
    then elim (get_or [] claims.project_memberships) [ [] ↦ none | p ∷ ps ↦ some (among (p ∷ ps)) ]
    else some anyone

unfoldable pub add_tier : Flags → Claims → Text → Filter → Filter
unfolding tier_owner
add_tier flags claims tier rest =
    if holds claims (codes "memory:read") tier
    then elim (tier_owner flags claims tier) [ none ↦ rest | some o ↦ (tier, o) ∷ rest ]
    else rest

unfoldable pub build_for : Flags → Claims → List Text → Filter
unfolding add_tier
build_for flags claims [] = []
build_for flags claims (tier ∷ tiers) = add_tier flags claims tier (build_for flags claims tiers)

unfoldable pub build_authorized_scopes : Flags → Claims → Filter
unfolding build_for
build_authorized_scopes flags claims = build_for flags claims all_tiers

-- `none` is the `ToolError`.
unfoldable pub resolve_tenant : Claims → Option Text → Option Text
resolve_tenant claims none = some (get_tenant_filter claims)
resolve_tenant claims (some override) =
    if override == get_tenant_filter claims
    then some (get_tenant_filter claims)
    else if in_set claims.authorized_tenants override
    then some override
    else none

-- What the three sources of an identity give: the token of the auth middleware, the token in the
-- header, and the user of the session.
pub record Token : Type 0 where
  pub client_id : Text
  pub sub : Option Text
  pub identity_type : Option Text
  pub tenant_id : Option Text
  pub scopes : List Text
  pub project_memberships : Option (List Text)

pub record Header : Type 0 where
  pub sub : Option Text
  pub identity_type : Option Text
  pub tenant_id : Option Text
  pub scopes : List Text
  pub project_memberships : Option (List Text)

pub record SessionUser : Type 0 where
  pub user_id : Text
  pub identity_type : Option Text
  pub tenant_id : Option Text
  pub scopes : List Text
  pub project_memberships : Option (List Text)
  pub authorized_tenants : Option (List Text)

unfoldable pub token_claims : Token → Claims
token_claims t = record {
  sub = get_or t.client_id t.sub;
  identity_type = some (get_or user t.identity_type);
  tenant_id = some (get_or default_tenant_id t.tenant_id);
  scopes = some t.scopes;
  project_memberships = some (get_or [] t.project_memberships);
  authorized_tenants = none;
}

-- A `scopes` claim that is one text has been split at its blanks.
unfoldable pub header_claims : Header → Claims
header_claims h = record {
  sub = get_or (codes "unknown") h.sub;
  identity_type = some (get_or user h.identity_type);
  tenant_id = some (get_or default_tenant_id h.tenant_id);
  scopes = some h.scopes;
  project_memberships = some (get_or [] h.project_memberships);
  authorized_tenants = none;
}

-- The names of tiers have no colon; a user of the auth service has scopes that do.
unfoldable pub session_claims : SessionUser → Claims
session_claims u = record {
  sub = u.user_id;
  identity_type = some (get_or user u.identity_type);
  tenant_id = some (get_or default_tenant_id u.tenant_id);
  scopes =
      some (
        if any (λ s. contains s b':') u.scopes
        then u.scopes
        else normalize_session_scopes u.scopes);
  project_memberships = some (get_or [] u.project_memberships);
  authorized_tenants = u.authorized_tenants;
}

-- `none` is the `AuthenticationError`.
unfoldable pub get_claims_from_context :
    Option Token → Option Header → Option SessionUser → Option Claims
unfolding token_claims header_claims session_claims
get_claims_from_context (some t) header session = some (token_claims t)
get_claims_from_context none (some h) session = some (header_claims h)
get_claims_from_context none none (some u) = some (session_claims u)
get_claims_from_context none none none = none
