-- ===== src/Authz/Sessions.antt =====
-- authz.py: what a session gets, and how tenants and scopes fit together.
use memory_hub.Base.{
  Text, Bool, true, false, ◌||◌, ◌&&◌, Option, none, some, List, [], ◌∷◌, ◌++◌, ◌==◌, text_eq,
  nat_eq, ==_iff, contains, contains-append, all, any, text_beq, codes, ◌≡◌, refl, ap, ◌∙◌, inl,
  inr, arith, Bool-cases, subst,
}
use memory_hub.Authz.{
  Flags, Claims, all_tiers, get_tenant_filter, holds, in_set, tenant_scopes, expand,
  normalize_session_scopes, authorize_write, write_tier,
}
use memory_hub.Authz.Visibility.{resolve_tenant, SessionUser, session_claims}

-- What the scopes of a tier are made for.
pub data Action : Type 0 where
  memory_read memory_write threads_read threads_write : Action

abbrev pub action_name : Action → Text
action_name memory_read = codes "memory:read"
action_name memory_write = codes "memory:write"
action_name threads_read = codes "threads:read"
action_name threads_write = codes "threads:write"

abbrev tier_scope : Action → Text → Text
tier_scope a t = action_name a ++ (codes ":" ++ t)

-- The scopes made from one tier grant an action at that tier, and at no other.
contains-tenant_scopes :
    (a : Action) (tier t : Text) → contains (tenant_scopes tier) (tier_scope a t) ≡ (tier == t)
unfolding tenant_scopes text_beq
contains-tenant_scopes memory_read tier t = ground arith
contains-tenant_scopes memory_write tier t = ground arith
contains-tenant_scopes threads_read tier t = ground arith
contains-tenant_scopes threads_write tier t = ground arith

no_blanket : (a : Action) (tier : Text) → contains (tenant_scopes tier) (action_name a) ≡ false
unfolding tenant_scopes text_beq
no_blanket memory_read tier = refl
no_blanket memory_write tier = refl
no_blanket threads_read tier = refl
no_blanket threads_write tier = refl

contains-expand :
    (a : Action) (t : Text) (tiers : List Text)
    → contains (expand tiers) (tier_scope a t) ≡ contains tiers t
unfolding expand
contains-expand a t [] = refl
contains-expand a t (tier ∷ tiers) =
    contains-append (tenant_scopes tier) (expand tiers) (tier_scope a t)
    ∙ (λ i. contains-tenant_scopes a tier t i || contains-expand a t tiers i)

expand_no_blanket :
    (a : Action) (tiers : List Text) → contains (expand tiers) (action_name a) ≡ false
unfolding expand
expand_no_blanket a [] = refl
expand_no_blanket a (tier ∷ tiers) =
    contains-append (tenant_scopes tier) (expand tiers) (action_name a)
    ∙ (λ i. no_blanket a tier i || expand_no_blanket a tiers i)

of_all :
    (p : Text → Bool) (xs : List Text) (t : Text)
    → all p xs ≡ true
    → contains xs t ≡ true
    → p t ≡ true
of_all p [] t h k = ground arith
of_all p (x ∷ xs) t h k = elim (Bool-cases (x == t)) [
  | inl e ↦ subst (λ y. p y ≡ true) ((==_iff x t).0 e) (ground arith)
  | inr e ↦ of_all p xs t (ground arith) (ground arith)
]

abbrev blanket : List Text
blanket =
    codes "memory:read" ∷ codes "memory:write" ∷ codes "threads:read" ∷ codes "threads:write" ∷ []

blanket_tier : (a : Action) (t : Text) → contains blanket (tier_scope a t) ≡ false
unfolding text_beq
blanket_tier memory_read t = refl
blanket_tier memory_write t = refl
blanket_tier threads_read t = refl
blanket_tier threads_write t = refl

normalized :
    (a : Action) (tiers : List Text) (t : Text)
    → contains all_tiers t ≡ true
    → (contains (normalize_session_scopes tiers) (tier_scope a t)
        || contains (normalize_session_scopes tiers) (action_name a))
      ≡ contains tiers t
unfolding normalize_session_scopes
normalized a tiers t known = elim (Bool-cases (all (contains tiers) all_tiers)) [
  | inl e ↦ rw (e) (
      ground (
        arith,
        of_all (contains tiers) all_tiers t e known,
        contains-append (expand tiers) blanket (tier_scope a t),
        contains-expand a t tiers,
      ))
  | inr e ↦ rw (e) (
      ground (
        arith,
        contains-append (expand tiers) [] (tier_scope a t),
        contains-append (expand tiers) [] (action_name a),
        contains-expand a t tiers,
        expand_no_blanket a tiers,
      ))
]

-- A session user whose access tiers are listed by name can do each of the four actions at a tier
-- exactly if the tier is in the list.
pub session_tiers :
    (u : SessionUser) (a : Action) (t : Text)
    → any (λ s. contains s b':') u.scopes ≡ false
    → contains all_tiers t ≡ true
    → holds (session_claims u) (action_name a) t ≡ contains u.scopes t
unfolding session_claims holds
session_tiers u a t names known = rw names (normalized a u.scopes t known)

module _ (flags : Flags) (claims : Claims) where
  -- The tenant that a request resolves to is one for which `authorize_write` passes its own tenant
  -- check: what is left are the scope and the rule of the tier.
  pub resolved_tenant_writes :
      (override : Option Text) (tenant_id scope owner_id : Text) (campaign_ids : Option (List Text))
      (scope_id : Option Text) (project_ids role_names : Option (List Text))
      → resolve_tenant claims override ≡ some tenant_id
      → authorize_write flags claims scope owner_id tenant_id campaign_ids scope_id project_ids
          role_names
        ≡ (holds claims (codes "memory:write") scope
            && write_tier flags claims scope owner_id campaign_ids scope_id project_ids role_names)
  unfolding resolve_tenant authorize_write
  resolved_tenant_writes none t scope owner c s p r h =
      ground (arith, ==_iff t (get_tenant_filter claims))
  resolved_tenant_writes (some o) t scope owner c s p r h = ground (
    arith,
    ==_iff t (get_tenant_filter claims),
    ==_iff o (get_tenant_filter claims),
    ap (in_set claims.authorized_tenants) (override_kept o t h),
  )
    where
      override_kept : (o t : Text) → resolve_tenant claims (some o) ≡ some t → o ≡ t
      override_kept o t h = ground (arith, ==_iff o (get_tenant_filter claims))
