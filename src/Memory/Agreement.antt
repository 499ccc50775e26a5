-- ===== src/Memory/Agreement.antt =====
-- What a search shows and what `authorize_read` allows (services/memory.py, core/authz.py).
use memory_hub.Base.{
  ℕ, Text, true, some, List, [], ◌∷◌, ◌++◌, ◌==◌, text_eq, ==_iff, contains, any, all, codes, ◌≡◌,
  refl, sym, subst, All, any-append, all-append, inl, inr, arith, Bool-cases, text_beq,
  Option-cases,
}
use memory_hub.Authz.{
  Flags, Claims, user, project, campaign, role, organizational, enterprise, all_tiers, get_or,
  get_tenant_filter, holds, read_tier, authorize_read,
}
use memory_hub.Authz.Visibility.{
  Owner, anyone, exactly, among, Filter, tier_owner, add_tier, build_for, build_authorized_scopes,
}
use memory_hub.Memory.{MemoryNode, MemoryRelationship}
use memory_hub.Memory.Search.{
  Query, Condition, scope_condition, scope_conditions, effective_project_ids, authorized_condition,
  base_conditions, narrowing_conditions, is_found,
}

-- One of the six tiers.
data Tier (t : Text) : Type 0 where
  is_user : t ≡ user → Tier t
  is_project : t ≡ project → Tier t
  is_campaign : t ≡ campaign → Tier t
  is_role : t ≡ role → Tier t
  is_organizational : t ≡ organizational → Tier t
  is_enterprise : t ≡ enterprise → Tier t

Tier-cases : (t : Text) → contains all_tiers t ≡ true → Tier t
Tier-cases t h = elim (Bool-cases (user == t)) [
  | inl e ↦ is_user (sym ((==_iff user t).0 e))
  | inr a ↦ elim (Bool-cases (project == t)) [
    | inl e ↦ is_project (sym ((==_iff project t).0 e))
    | inr b ↦ elim (Bool-cases (campaign == t)) [
      | inl e ↦ is_campaign (sym ((==_iff campaign t).0 e))
      | inr c ↦ elim (Bool-cases (role == t)) [
        | inl e ↦ is_role (sym ((==_iff role t).0 e))
        | inr d ↦ elim (Bool-cases (organizational == t)) [
          | inl e ↦ is_organizational (sym ((==_iff organizational t).0 e))
          | inr f ↦ is_enterprise (sym ((==_iff enterprise t).0 (ground arith)))
        ]
      ]
    ]
  ]
]

-- The projects by which a search admits rows: the argument, or else the memberships of the claims.
abbrev pub search_projects : Claims → Query → List Text
search_projects claims q =
    effective_project_ids q.project_ids (among (get_or [] claims.project_memberships))

module _ (flags : Flags) (claims : Claims) (q : Query) (row : MemoryNode) where
  abbrev Readable : Text → Type 0
  Readable tier =
      read_tier flags claims tier row q.campaign_ids (some (search_projects claims q)) q.role_names
      ≡ true

  abbrev Matched : Text → Owner → Type 0
  Matched tier owner = any (λ c. c row) (scope_condition q (tier, owner)) ≡ true

  read_user : (o : Owner) → tier_owner flags claims user ≡ some o → Matched user o → Readable user
  unfolding tier_owner scope_condition read_tier text_beq
  read_user anyone h m = cc
  read_user (among ids) h m = cc
  read_user (exactly x) h m = ground (arith, ==_iff row.owner_id x, ==_iff row.owner_id claims.sub)

  read_project :
      (o : Owner) → tier_owner flags claims project ≡ some o → Matched project o → Readable project
  unfolding tier_owner scope_condition effective_project_ids read_tier text_beq
  read_project o h m = ground arith

  read_campaign :
      (o : Owner)
      → tier_owner flags claims campaign ≡ some o
      → Matched campaign o
      → Readable campaign
  unfolding tier_owner scope_condition read_tier text_beq
  read_campaign o h m = ground arith

  read_role : (o : Owner) → tier_owner flags claims role ≡ some o → Matched role o → Readable role
  unfolding tier_owner scope_condition read_tier text_beq
  read_role o h m = ground arith

  -- A row that matches the condition of a tier has that tier.
  Matched-scope : (tier : Text) (o : Owner) → Matched tier o → row.scope ≡ tier
  unfolding scope_condition
  Matched-scope tier anyone m = ground (
    arith,
    ==_iff row.scope tier,
    ==_iff row.scope campaign,
    ==_iff row.scope project,
    ==_iff row.scope role,
    ==_iff tier campaign,
    ==_iff tier project,
    ==_iff tier role,
  )
  Matched-scope tier (exactly x) m = ground (
    arith,
    ==_iff row.scope tier,
    ==_iff row.scope campaign,
    ==_iff row.scope project,
    ==_iff row.scope role,
    ==_iff tier campaign,
    ==_iff tier project,
    ==_iff tier role,
  )
  Matched-scope tier (among ids) m = ground (
    arith,
    ==_iff row.scope tier,
    ==_iff row.scope campaign,
    ==_iff row.scope project,
    ==_iff row.scope role,
    ==_iff tier campaign,
    ==_iff tier project,
    ==_iff tier role,
  )

  abbrev Follows : (o : Owner) → Text → Type 0
  Follows o tier = tier_owner flags claims tier ≡ some o → Matched tier o → Readable tier

  Matched-Readable :
      (tier : Text) (o : Owner)
      → Tier tier
      → tier_owner flags claims tier ≡ some o
      → Matched tier o
      → Readable tier
  Matched-Readable tier o (is_user e) h m = subst (Follows o) (sym e) (read_user o) h m
  Matched-Readable tier o (is_project e) h m = subst (Follows o) (sym e) (read_project o) h m
  Matched-Readable tier o (is_campaign e) h m = subst (Follows o) (sym e) (read_campaign o) h m
  Matched-Readable tier o (is_role e) h m = subst (Follows o) (sym e) (read_role o) h m
  Matched-Readable tier o (is_organizational e) h m =
      subst Readable (sym e) (unfold read_tier text_beq in refl)
  Matched-Readable tier o (is_enterprise e) h m =
      subst Readable (sym e) (unfold read_tier text_beq in refl)

  abbrev Authorized : Type 0
  Authorized = (holds claims (codes "memory:read") row.scope ≡ true) × Readable row.scope

  matched_authorized :
      (tier : Text) (o : Owner)
      → Tier tier
      → holds claims (codes "memory:read") tier ≡ true
      → tier_owner flags claims tier ≡ some o
      → Matched tier o
      → Authorized
  matched_authorized tier o t held h m =
      let e = sym (Matched-scope tier o m) in
      (
        subst (λ s. holds claims (codes "memory:read") s ≡ true) e held,
        subst Readable e (Matched-Readable tier o t h m),
      )

  AnyMatch : Filter → Type 0
  AnyMatch f = any (λ c. c row) (scope_conditions q f) ≡ true

  filter_authorized :
      (tiers : List Text)
      → All (λ t. contains all_tiers t ≡ true) tiers
      → AnyMatch (build_for flags claims tiers)
      → Authorized
  unfolding build_for AnyMatch scope_conditions add_tier
  filter_authorized [] known m = ground arith
  filter_authorized (tier ∷ tiers) (k, known) m =
      elim (Bool-cases (holds claims (codes "memory:read") tier)) [
        | inr lacks ↦ filter_authorized tiers known (rw lacks at m)
        | inl held ↦ elim (Option-cases (tier_owner flags claims tier)) [
          | inl e ↦ filter_authorized tiers known (rw (held, e) at m)
          | inr (o, e) ↦ elim (Bool-cases (any (λ c. c row) (scope_condition q (tier, o)))) [
            | inl here ↦ matched_authorized tier o (Tier-cases tier k) held e here
            | inr away ↦ filter_authorized tiers known (
                ground (
                  arith,
                  any-append (λ (c : Condition). c row) (scope_condition q (tier, o))
                      (scope_conditions q (build_for flags claims tiers)),
                ))
          ]
        ]
      ]

  scoped_authorized :
      (f : Filter) (cs : List Condition)
      → q.authorized_scopes ≡ some f
      → authorized_condition q ≡ some cs
      → all (λ c. c row) cs ≡ true
      → AnyMatch f
  unfolding authorized_condition AnyMatch
  scoped_authorized f cs asked built passed = ground arith

known : All (λ t. contains all_tiers t ≡ true) all_tiers
unfolding text_beq
known = (refl, (refl, (refl, (refl, (refl, (refl, tt))))))

module _ (lower : Text → Text) (now : ℕ) (nodes : List MemoryNode) (edges : List MemoryRelationship)
    (flags : Flags) (claims : Claims) (q : Query) (row : MemoryNode)
    (scoped : q.authorized_scopes ≡ some (build_authorized_scopes flags claims))
    (tenant : q.tenant_id ≡ get_tenant_filter claims) where
  -- With the scopes and the tenant that the claims give, a search finds only rows that the same
  -- caller may read: the row is of the caller's tenant and of a tier that a scope grants, and by the
  -- tier it is the caller's own, or one of the projects, campaigns or roles that were resolved.
  pub search_authorized :
      is_found lower now nodes edges q row ≡ true
      → authorize_read flags claims row q.campaign_ids
          (some (search_projects claims q))
          q.role_names
        ≡ true
  unfolding is_found authorize_read build_authorized_scopes
  search_authorized found = elim (Option-cases (authorized_condition q)) [
    | inl e ↦ cc (rw (is_found, e) at found)
    | inr (cs, e) ↦
        let passed = rw (is_found, e) at found in
        let base =
          all-append (λ (c : Condition). c row) (base_conditions q)
            (cs ++ narrowing_conditions lower now nodes edges q) in
        let rest =
          all-append (λ (c : Condition). c row) cs (narrowing_conditions lower now nodes edges q) in
        let same_tenant : row.tenant_id ≡ q.tenant_id =
          (==_iff row.tenant_id q.tenant_id).0
            (unfold base_conditions in ground (arith, passed, base)) in
        let ok = filter_authorized flags claims q row all_tiers known (
          scoped_authorized flags claims q row (build_authorized_scopes flags claims) cs scoped e
            (ground (arith, passed, base, rest))) in
        ground (arith, ok, same_tenant, tenant, ==_iff row.tenant_id (get_tenant_filter claims))
  ]
