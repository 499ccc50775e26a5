-- ===== src/Authz/Threads.antt =====
-- authz.py: who may read, append to and administer a conversation thread.
use memory_hub.Base.{
  Text, Bool, true, false, not, ◌||◌, Option, none, some, List, [], ◌∷◌, ◌==◌, text_eq, contains,
  if◌then◌else◌, codes,
}
use memory_hub.Authz.{
  Flags, Claims, user, project, organizational, enterprise, get_or, get_tenant_filter, holds,
  is_service, opt_in_set,
}

pub record Thread : Type 0 where
  pub tenant_id : Text
  pub owner_id : Text
  pub scope : Text
  pub scope_id : Option Text
  pub participant_ids : Option (List Text)
  pub participant_access : Option (List (Text × Text))

-- `participant_access[caller]`
unfoldable pub access_of : Text → List (Text × Text) → Option Text
access_of caller [] = none
access_of caller ((who, level) ∷ rest) = if who == caller then some level else access_of caller rest

abbrev pub participants : Thread → List Text
participants thread = get_or [] thread.participant_ids

unfoldable pub explicit_access : Thread → Text → Option Text
unfolding access_of
explicit_access thread caller = access_of caller (get_or [] thread.participant_access)

module _ (flags : Flags) where
  unfoldable pub thread_read_tier : Text → Thread → Option (List Text) → Bool
  thread_read_tier tier thread project_ids =
      if tier == user
      then false
      else if tier == project
      then not flags.project_isolation || opt_in_set project_ids thread.scope_id
      else tier == enterprise || tier == organizational

  unfoldable pub authorize_thread_read : Claims → Thread → Option (List Text) → Bool
  unfolding thread_read_tier
  authorize_thread_read claims thread project_ids =
      if not (thread.tenant_id == get_tenant_filter claims)
      then false
      else if thread.owner_id == claims.sub
      then true
      else if contains (participants thread) claims.sub
      then true
      else if not (holds claims (codes "threads:read") thread.scope)
      then false
      else thread_read_tier thread.scope thread project_ids

  unfoldable pub thread_write_tier : Claims → Text → Thread → Option (List Text) → Bool
  thread_write_tier claims tier thread project_ids =
      if tier == user
      then false
      else if tier == project
      then not flags.project_isolation || opt_in_set project_ids thread.scope_id
      else if tier == enterprise || tier == organizational
      then is_service claims
      else false

  unfoldable pub authorize_thread_write : Claims → Thread → Option (List Text) → Bool
  unfolding thread_write_tier
  authorize_thread_write claims thread project_ids =
      if not (thread.tenant_id == get_tenant_filter claims)
      then false
      else if thread.owner_id == claims.sub
      then true
      else elim (explicit_access thread claims.sub) [
        | some level ↦ level == codes "write" || level == codes "admin"
        | none ↦
            if contains (participants thread) claims.sub
            then true
            else if not (holds claims (codes "threads:write") thread.scope)
            then false
            else thread_write_tier claims thread.scope thread project_ids
      ]

unfoldable pub authorize_thread_admin : Claims → Thread → Bool
authorize_thread_admin claims thread =
    if not (thread.tenant_id == get_tenant_filter claims)
    then false
    else if thread.owner_id == claims.sub
    then true
    else elim (explicit_access thread claims.sub) [
      | some level ↦ level == codes "admin"
      | none ↦ holds claims (codes "threads:admin") thread.scope
    ]
