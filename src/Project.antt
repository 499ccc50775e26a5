-- ===== src/Project.antt =====
-- Projects and their members: src/memoryhub_core/models/project.py and services/project.py. The
-- two tables, the constraints that the database keeps on them, and the queries.
mod Membership
mod Listing
mod Runs
mod Integrity
mod Admins
mod Races
mod Enrolment
mod RoundTrip
mod Tenants
mod Tests
use memory_hub.Base.{
  ℕ, Text, Bool, true, false, Option, none, some, List, [], ◌∷◌, ◌&&◌, ◌||◌, not, if◌then◌else◌,
  ◌==◌, text_eq, nat_eq, contains, any, keep, find, map, codes, is_some,
}

pub record Project : Type 0 where
  pub name : Text
  pub description : Option Text
  pub invite_only : Bool
  pub tenant_id : Text
  pub created_at : ℕ
  pub created_by : Text

pub record ProjectMembership : Type 0 where
  pub id : ℕ
  pub project_id : Text
  pub user_id : Text
  pub role : Text
  pub joined_at : ℕ
  pub joined_by : Text

pub record Tables : Type 0 where
  pub projects : List Project
  pub memberships : List ProjectMembership

pub data ProjectError : Type 0 where
  project_invite_only project_already_exists project_not_found : ProjectError
  membership_not_found last_admin multiple_results : ProjectError

pub data Reply (A : Type 0) : Type 0 where
  done : A → Reply A
  failed : ProjectError → Reply A

-- The statement `WHERE project_id = ... AND user_id = ...`.
abbrev pub is_of : Text → Text → ProjectMembership → Bool
is_of project_id user_id m = m.project_id == project_id && m.user_id == user_id

abbrev pub is_admin_of : Text → ProjectMembership → Bool
is_admin_of project_id m = m.project_id == project_id && m.role == codes "admin"

-- `name` is the primary key: at most one row.
unfoldable pub get_project : Tables → Text → Option Project
get_project t project_name = find (λ p. p.name == project_name) t.projects

-- The order of the set does not matter: it is only asked for its members.
unfoldable pub get_projects_for_user : Tables → Text → List Text
get_projects_for_user t user_id =
    map (λ m. m.project_id) (keep (λ m. m.user_id == user_id) t.memberships)

-- The join on `project_memberships.project_id = projects.name`, within one tenant.
unfoldable pub get_projects_for_user_in_tenant : Tables → Text → Text → List Text
get_projects_for_user_in_tenant t user_id tenant_id =
    map (λ m. m.project_id)
      (keep
        (λ m.
          m.user_id == user_id
          && any (λ p. m.project_id == p.name && p.tenant_id == tenant_id) t.projects)
        t.memberships)

unfoldable pub assert_project_membership : Tables → Text → Text → Text → Reply Unit
assert_project_membership t user_id project_id tenant_id =
    if any
      (λ m.
        is_of project_id user_id m
        && any (λ p. m.project_id == p.name && p.name == project_id && p.tenant_id == tenant_id)
            t.projects)
      t.memberships
    then done tt
    else failed membership_not_found

-- An insertion that breaks the primary key is an `IntegrityError`, here `none`.
unfoldable pub insert_project : Project → Tables → Option Tables
insert_project p t =
    if any (λ q. q.name == p.name) t.projects
    then none
    else some (record t { projects = p ∷ t.projects })

-- The primary key, the foreign key and the unique pair of project and user.
unfoldable pub insert_membership : ProjectMembership → Tables → Option Tables
insert_membership m t =
    if any (λ n. n.id == m.id) t.memberships
      || not (any (λ p. p.name == m.project_id) t.projects)
      || any (is_of m.project_id m.user_id) t.memberships
    then none
    else some (record t { memberships = m ∷ t.memberships })
