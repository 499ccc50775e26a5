-- ===== src/Authz/Rules.antt =====
-- authz.py against the rules that its comments state, tier by tier.
use memory_hub.Base.{Text, true, false, Option, List, text_eq, ==_iff, codes, ◌≡◌, ◌↔◌, ◌⊎◌, arith}
use memory_hub.Memory.{MemoryNode}
use memory_hub.Authz.{
  Flags, Claims, user, project, campaign, role, organizational, enterprise, get_tenant_filter,
  holds, in_set, opt_in_set, is_service, read_tier, authorize_read, write_tier, authorize_write,
}

abbrev pub IsIn : Option (List Text) → Text → Type 0
IsIn ids x = in_set ids x ≡ true

abbrev pub IsMember : Option (List Text) → Option Text → Type 0
IsMember ids x = opt_in_set ids x ≡ true

abbrev pub IsService : Claims → Type 0
IsService claims = is_service claims ≡ true

-- A scope of the caller grants the action at the tier, or at all tiers.
abbrev pub Grants : Claims → Text → Text → Type 0
Grants claims action tier = holds claims action tier ≡ true

module _ (flags : Flags) (claims : Claims) where
  module _ (memory : MemoryNode) (campaign_ids project_ids role_names : Option (List Text)) where
    abbrev pub ReadRule : Text → Type 0
    ReadRule tier =
        ((tier ≡ user) × (memory.owner_id ≡ claims.sub))
        ⊎ (tier ≡ enterprise)
        ⊎ (tier ≡ organizational)
        ⊎ ((tier ≡ project)
            × ((flags.project_isolation ≡ false) ⊎ IsMember project_ids memory.scope_id))
        ⊎ ((tier ≡ campaign) × IsIn campaign_ids memory.owner_id)
        ⊎ ((tier ≡ role) × ((flags.role_isolation ≡ false) ⊎ IsMember role_names memory.scope_id))

    read_tier_rule :
        (tier : Text)
        → (read_tier flags claims tier memory campaign_ids project_ids role_names ≡ true)
          ↔ ReadRule tier
    unfolding read_tier
    read_tier_rule tier = (
      λ h. ground (
        arith,
        ==_iff tier user,
        ==_iff tier organizational,
        ==_iff tier role,
        ==_iff tier project,
        ==_iff tier campaign,
        ==_iff tier enterprise,
        ==_iff memory.owner_id claims.sub,
      ),
      λ h. ground (
        arith,
        ==_iff tier user,
        ==_iff tier organizational,
        ==_iff tier role,
        ==_iff tier project,
        ==_iff tier campaign,
        ==_iff tier enterprise,
        ==_iff memory.owner_id claims.sub,
      ),
    )

    -- A memory may be read exactly if it is of the caller's tenant, a scope of the caller grants
    -- reading at its tier, and the rule of the tier is met: one's own at the user tier, anyone's at
    -- the enterprise and organizational tiers, and membership of the project, the campaign or the
    -- role, unless the isolation of projects or of roles is switched off.
    pub authorize_read_iff :
        (authorize_read flags claims memory campaign_ids project_ids role_names ≡ true) ↔ (
          (memory.tenant_id ≡ get_tenant_filter claims)
          × Grants claims (codes "memory:read") memory.scope
          × ReadRule memory.scope)
    unfolding authorize_read
    authorize_read_iff = (
      λ h. (
        ground (arith, ==_iff memory.tenant_id (get_tenant_filter claims)),
        ground arith,
        (read_tier_rule memory.scope).0 (ground arith),
      ),
      λ h. ground (
        arith,
        ==_iff memory.tenant_id (get_tenant_filter claims),
        (read_tier_rule memory.scope).1 h.2,
      ),
    )

  module _ (owner_id : Text) (campaign_ids : Option (List Text)) (scope_id : Option Text)
      (project_ids role_names : Option (List Text)) where
    abbrev pub WriteRule : Text → Type 0
    WriteRule scope =
        ((scope ≡ user) × ((owner_id ≡ claims.sub) ⊎ IsService claims))
        ⊎ ((scope ≡ organizational) × IsService claims)
        ⊎ ((scope ≡ role)
            × IsService claims
            × ((flags.role_isolation ≡ false) ⊎ IsMember role_names scope_id))
        ⊎ ((scope ≡ project)
            × ((flags.project_isolation ≡ false)
                ⊎ IsService claims
                ⊎ IsMember project_ids scope_id))
        ⊎ ((scope ≡ campaign) × IsIn campaign_ids owner_id)

    write_tier_rule :
        (scope : Text)
        → (write_tier flags claims scope owner_id campaign_ids scope_id project_ids role_names
            ≡ true)
          ↔ WriteRule scope
    unfolding write_tier
    write_tier_rule scope = (
      λ h. ground (
        arith,
        ==_iff scope user,
        ==_iff scope organizational,
        ==_iff scope role,
        ==_iff scope project,
        ==_iff scope campaign,
        ==_iff scope enterprise,
        ==_iff owner_id claims.sub,
      ),
      λ h. ground (
        arith,
        ==_iff scope user,
        ==_iff scope organizational,
        ==_iff scope role,
        ==_iff scope project,
        ==_iff scope campaign,
        ==_iff scope enterprise,
        ==_iff owner_id claims.sub,
      ),
    )

    -- A write is allowed exactly if its tenant is the caller's or one that the session lists, a scope
    -- grants writing at the tier, and the rule of the tier is met. No rule admits the enterprise
    -- tier, and the organizational and role tiers want a service identity.
    pub authorize_write_iff :
        (scope tenant_id : Text)
        → (authorize_write flags claims scope owner_id tenant_id campaign_ids scope_id project_ids
              role_names
            ≡ true)
          ↔ (((tenant_id ≡ get_tenant_filter claims) ⊎ IsIn claims.authorized_tenants tenant_id)
              × Grants claims (codes "memory:write") scope
              × WriteRule scope)
    unfolding authorize_write
    authorize_write_iff scope tenant_id = (
      λ h. (
        ground (arith, ==_iff tenant_id (get_tenant_filter claims)),
        ground arith,
        (write_tier_rule scope).0 (ground arith),
      ),
      λ h.
          ground
            (arith, ==_iff tenant_id (get_tenant_filter claims), (write_tier_rule scope).1 h.2),
    )
