-- ===== src/Project/Listing.antt =====
-- services/project.py: what a user sees of the projects.
use memory_hub.Base.{
  ℕ, Text, Bool, true, false, Option, none, some, List, [], ◌∷◌, ◌&&◌, ◌||◌, not, if◌then◌else◌,
  ◌==◌, text_eq, contains, any, keep, map, length, ◌≡◌, refl, ◌∙◌, arith, Bool-cases, inl, inr,
  codes, sorted_by, leb,
}
use memory_hub.Memory.{MemoryNode}
use memory_hub.Project.{
  Project, ProjectMembership, Tables, Reply, done, failed, project_not_found, get_project,
  get_projects_for_user,
}

pub record Member : Type 0 where
  pub user_id : Text
  pub role : Text
  pub joined_at : ℕ

unfoldable pub member : ProjectMembership → Member
member m = record { user_id = m.user_id; role = m.role; joined_at = m.joined_at }

unfoldable pub get_project_members : Tables → Text → Reply (List Member)
get_project_members t project_name = elim (get_project t project_name) [
  | none ↦ failed project_not_found
  | some p ↦ done (
      map member
        (sorted_by (λ m. m.joined_at) leb (keep (λ m. m.project_id == project_name) t.memberships)))
]

-- The row of one project in the listing.
pub record Listed : Type 0 where
  pub name : Text
  pub description : Option Text
  pub invite_only : Bool
  pub created_at : ℕ
  pub created_by : Text
  pub is_member : Bool
  pub memory_count : ℕ

-- `counts.get(name, 0)`: a project without memories is in no group.
unfoldable pub memory_count : List MemoryNode → Text → Text → ℕ
memory_count nodes tenant_id name = length (
    keep
      (λ n.
        n.scope == codes "project"
        && n.tenant_id == tenant_id
        && n.is_current
        && elim n.scope_id [ none ↦ false | some i ↦ i == name ])
      nodes)

unfoldable pub listed : List MemoryNode → Text → Bool → Project → Listed
listed nodes tenant_id is_member p = record {
  name = p.name;
  description = p.description;
  invite_only = p.invite_only;
  created_at = p.created_at;
  created_by = p.created_by;
  is_member = is_member;
  memory_count = memory_count nodes tenant_id p.name;
}

-- `if user_id`: a missing or an empty id is nobody's.
unfoldable pub projects_of : Tables → Option Text → List Text
projects_of t none = []
projects_of t (some []) = []
projects_of t (some (c ∷ cs)) = get_projects_for_user t (c ∷ cs)

unfoldable pub list_projects_for_tenant :
    Tables → List MemoryNode → Text → Option Text → Bool → List Listed
list_projects_for_tenant t nodes tenant_id user_id include_all_open =
    let mine = projects_of t user_id in
    if include_all_open
    then map (λ p. listed nodes tenant_id (contains mine p.name) p)
        (keep (λ p. p.tenant_id == tenant_id && not (p.invite_only && not (contains mine p.name)))
          t.projects)
    else map (listed nodes tenant_id true)
        (keep (λ p. contains mine p.name && p.tenant_id == tenant_id) t.projects)

any-map-keep :
    (f : Project → Listed) (q : Project → Bool) (ps : List Project) (name : Text)
    → ((p : Project) → (f p).name ≡ p.name)
    → any (λ l. l.name == name) (map f (keep q ps)) ≡ any (λ p. p.name == name && q p) ps
any-map-keep f q [] name h = refl
any-map-keep f q (p ∷ ps) name h = elim (Bool-cases (q p)) [
  | inl e ↦ rw (e, h p) (ground (arith, any-map-keep f q ps name h))
  | inr e ↦ rw e (ground (arith, any-map-keep f q ps name h))
]

any-agree :
    (f g : Project → Bool) (ps : List Project) → ((p : Project) → f p ≡ g p) → any f ps ≡ any g ps
any-agree f g [] h = refl
any-agree f g (p ∷ ps) h = ground (arith, h p, any-agree f g ps h)

-- A listing has a project's name exactly if a project of the tenant has it, of which the user is a
-- member or which, where all open projects are asked for, is not invite-only. So nobody is shown an
-- invite-only project of which they are not a member, nor a project of another tenant.
pub list_projects-visible :
    (t : Tables) (nodes : List MemoryNode) (tenant_id : Text) (user_id : Option Text)
    (include_all_open : Bool) (name : Text)
    → any
        (λ l. l.name == name)
        (list_projects_for_tenant t nodes tenant_id user_id include_all_open)
      ≡ any
          (λ p.
            p.name == name
            && (p.tenant_id == tenant_id
                && (contains (projects_of t user_id) p.name
                    || (include_all_open && not p.invite_only))))
          t.projects
unfolding list_projects_for_tenant listed
list_projects-visible t nodes tenant_id user_id true name =
    any-map-keep _ _ t.projects name (λ p. refl) ∙ any-agree _ _ t.projects (λ p. ground arith)
list_projects-visible t nodes tenant_id user_id false name =
    any-map-keep _ _ t.projects name (λ p. refl) ∙ any-agree _ _ t.projects (λ p. ground arith)
