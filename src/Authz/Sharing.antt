-- ===== src/Authz/Sharing.antt =====
-- authz.py: how the rights on a thread hang together.
use memory_hub.Base.{
  Text, true, false, Option, some, List, text_eq, ==_iff, contains, codes, ◌≡◌, ◌↔◌, ◌⊎◌, inl, inr,
  arith, Option-cases, none,
}
use memory_hub.Authz.{
  Flags, Claims, user, project, organizational, enterprise, get_tenant_filter, is_service,
}
use memory_hub.Authz.Rules.{IsMember, Grants}
use memory_hub.Authz.Threads.{
  Thread, participants, explicit_access, thread_read_tier, thread_write_tier, authorize_thread_read,
  authorize_thread_write, authorize_thread_admin,
}

module _ (flags : Flags) (claims : Claims) (thread : Thread)
    (project_ids : Option (List Text)) where
  abbrev pub InTenant : Type 0
  InTenant = thread.tenant_id ≡ get_tenant_filter claims

  abbrev pub Owns : Type 0
  Owns = thread.owner_id ≡ claims.sub

  abbrev pub TakesPart : Type 0
  TakesPart = contains (participants thread) claims.sub ≡ true

  abbrev pub ReadTierRule : Text → Type 0
  ReadTierRule tier =
      ((tier ≡ project)
        × ((flags.project_isolation ≡ false) ⊎ IsMember project_ids thread.scope_id))
      ⊎ (tier ≡ enterprise)
      ⊎ (tier ≡ organizational)

  thread_read_rule :
      (tier : Text) → (thread_read_tier flags tier thread project_ids ≡ true) ↔ ReadTierRule tier
  unfolding thread_read_tier
  thread_read_rule tier = (
    λ h. ground (
      arith,
      ==_iff tier user,
      ==_iff tier project,
      ==_iff tier organizational,
      ==_iff tier enterprise,
    ),
    λ h. ground (
      arith,
      ==_iff tier user,
      ==_iff tier project,
      ==_iff tier organizational,
      ==_iff tier enterprise,
    ),
  )

  -- A thread may be read exactly if it is of the caller's tenant and the caller owns it, is a
  -- participant, or holds a scope for reading threads of its tier and the tier's rule is met; a
  -- thread of the user tier is open to nobody else.
  pub authorize_thread_read_iff : (authorize_thread_read flags claims thread project_ids ≡ true) ↔ (
      InTenant
      × (Owns
          ⊎ TakesPart
          ⊎ (Grants claims (codes "threads:read") thread.scope × ReadTierRule thread.scope)))
  unfolding authorize_thread_read
  authorize_thread_read_iff = (
    λ h. ground (
      arith,
      ==_iff thread.tenant_id (get_tenant_filter claims),
      ==_iff thread.owner_id claims.sub,
      (thread_read_rule thread.scope).0,
    ),
    λ h. ground (
      arith,
      ==_iff thread.tenant_id (get_tenant_filter claims),
      ==_iff thread.owner_id claims.sub,
      (thread_read_rule thread.scope).1,
    ),
  )

  -- Who may administer a thread and is its owner or is listed with an access level may append to it.
  pub admin_writes :
      (Owns ⊎ ((level : Text) × (explicit_access thread claims.sub ≡ some level)))
      → authorize_thread_admin claims thread ≡ true
      → authorize_thread_write flags claims thread project_ids ≡ true
  unfolding authorize_thread_admin authorize_thread_write
  admin_writes (inl own) h =
      ground (
        arith,
        ==_iff thread.owner_id claims.sub,
        ==_iff thread.tenant_id (get_tenant_filter claims),
      )
  admin_writes (inr (level, e)) h = ground (arith, e, ==_iff thread.owner_id claims.sub)

  -- The rule that the tier adds for a caller who holds a scope for writing threads.
  abbrev pub WriteTierRule : Text → Type 0
  WriteTierRule tier =
      ((tier ≡ project)
        × ((flags.project_isolation ≡ false) ⊎ IsMember project_ids thread.scope_id))
      ⊎ (((tier ≡ enterprise) ⊎ (tier ≡ organizational)) × (is_service claims ≡ true))

  -- The caller is listed with a level that allows appending.
  abbrev pub IsListedWriter : Type 0
  IsListedWriter =
      (explicit_access thread claims.sub ≡ some (codes "write"))
      ⊎ (explicit_access thread claims.sub ≡ some (codes "admin"))

  thread_write_rule :
      (tier : Text)
      → (thread_write_tier flags claims tier thread project_ids ≡ true) ↔ WriteTierRule tier
  unfolding thread_write_tier
  thread_write_rule tier = (
    λ h. ground (
      arith,
      ==_iff tier user,
      ==_iff tier project,
      ==_iff tier organizational,
      ==_iff tier enterprise,
    ),
    λ h. ground (
      arith,
      ==_iff tier user,
      ==_iff tier project,
      ==_iff tier organizational,
      ==_iff tier enterprise,
    ),
  )

  -- What lets a caller append who is not the owner and not listed with a level.
  abbrev pub MayAppend : Type 0
  MayAppend =
      TakesPart ⊎ (Grants claims (codes "threads:write") thread.scope × WriteTierRule thread.scope)

  -- A thread may be appended to exactly if it is of the caller's tenant and the caller owns it, is
  -- listed with the level `write` or `admin`, or is not listed with any level and is a participant or
  -- holds a scope for writing threads of its tier and the tier's rule is met. Another listed level
  -- shuts out participants and holders of a scope as well.
  pub authorize_thread_write_iff :
      (authorize_thread_write flags claims thread project_ids ≡ true) ↔ (
        InTenant
        × (Owns ⊎ IsListedWriter ⊎ ((explicit_access thread claims.sub ≡ none) × MayAppend)))
  unfolding authorize_thread_write
  authorize_thread_write_iff = elim (Option-cases (explicit_access thread claims.sub)) [
    | inl e ↦ (
      λ h. ground (
        arith,
        e,
        ==_iff thread.tenant_id (get_tenant_filter claims),
        ==_iff thread.owner_id claims.sub,
        (thread_write_rule thread.scope).0,
      ),
      λ h. ground (
        arith,
        e,
        ==_iff thread.tenant_id (get_tenant_filter claims),
        ==_iff thread.owner_id claims.sub,
        (thread_write_rule thread.scope).1,
      ),
    )
    | inr (level, e) ↦ (
      λ h. ground (
        arith,
        e,
        ==_iff thread.tenant_id (get_tenant_filter claims),
        ==_iff thread.owner_id claims.sub,
        ==_iff level (codes "write"),
        ==_iff level (codes "admin"),
      ),
      λ h. ground (
        arith,
        e,
        ==_iff thread.tenant_id (get_tenant_filter claims),
        ==_iff thread.owner_id claims.sub,
        ==_iff level (codes "write"),
        ==_iff level (codes "admin"),
      ),
    )
  ]
