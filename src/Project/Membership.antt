-- ===== src/Project/Membership.antt =====
-- services/project.py: the operations that change the tables. A session sees its own work; a
-- rollback drops all of that and keeps what other sessions have committed.
use memory_hub.Base.{
  ℕ, Text, Bool, true, false, Option, none, some, List, [], ◌∷◌, ◌&&◌, not, if◌then◌else◌, ◌==◌,
  text_eq, nat_eq, contains, keep, length, codes, leb,
}
use memory_hub.Project.{
  Project, ProjectMembership, Tables, Reply, done, failed, project_invite_only,
  project_already_exists, project_not_found, membership_not_found, last_admin, multiple_results,
  is_of, is_admin_of, get_project, get_projects_for_user, insert_project, insert_membership,
}

-- `saved` is what a rollback returns to, `current` what the session's own queries see.
pub record Session : Type 0 where
  pub saved : Tables
  pub current : Tables

-- What other sessions commit between two statements of this one.
unfoldable pub meanwhile : (Tables → Tables) → Session → Session
meanwhile others s = record { saved = others s.saved; current = others s.current }

-- `session.add(...)` and `session.flush()`, with the rollback of the handler of `IntegrityError`.
abbrev pub flushed : Session → Option Tables → Bool × Session
flushed s none = (false, record s { current = s.saved })
flushed s (some t) = (true, record s { current = t })

unfoldable pub flush : (Tables → Option Tables) → Session → Bool × Session
flush insert s = flushed s (insert s.current)

-- The clock, the random id of a new membership, and the gaps between a query and the flush of an
-- insertion that relies on it.
pub record Moment : Type 0 where
  pub now : ℕ
  pub id : ℕ
  pub before_project : Tables → Tables
  pub before_membership : Tables → Tables

unfoldable pub new_membership : Moment → Text → Text → Text → Text → ProjectMembership
new_membership w project_id user_id role joined_by = record {
  id = w.id;
  project_id = project_id;
  user_id = user_id;
  role = role;
  joined_at = w.now;
  joined_by = joined_by;
}

unfoldable pub new_project : Moment → Text → Option Text → Bool → Text → Text → Project
new_project w name description invite_only tenant_id created_by = record {
  name = name;
  description = description;
  invite_only = invite_only;
  tenant_id = tenant_id;
  created_at = w.now;
  created_by = created_by;
}

-- The part that creates the membership; `role` has its server default. A concurrent enrolment is
-- as good as one's own.
unfoldable pub enroll : Moment → Text → Text → Session → Reply (List Text × Bool) × Session
enroll w project_id user_id s =
    let m = new_membership w project_id user_id (codes "member") (codes "auto-enroll") in
    let s' = (flush (insert_membership m) (meanwhile w.before_membership s)).1 in
    (done (get_projects_for_user s'.current user_id, true), s')

-- `if project is not None and project.invite_only: raise`
unfoldable pub unless_invite_only :
    Option Project
    → Session
    → Reply (List Text × Bool) × Session
    → Reply (List Text × Bool) × Session
unless_invite_only none s rest = rest
unless_invite_only (some p) s rest = if p.invite_only then (failed project_invite_only, s) else rest

unfoldable pub ensure_project_membership :
    Moment → Text → Text → Text → Option Text → Session → Reply (List Text × Bool) × Session
ensure_project_membership w project_id user_id tenant_id description s =
    let project_ids = get_projects_for_user s.current user_id in
    if contains project_ids project_id
    then (done (project_ids, false), s)
    else elim (get_project s.current project_id) [
      | some p ↦ unless_invite_only (some p) s (enroll w project_id user_id s)
      | none ↦
          let p = new_project w project_id description false tenant_id user_id in
          let (created, s') = flush (insert_project p) (meanwhile w.before_project s) in
          if created
          then enroll w project_id user_id s'
          else unless_invite_only (get_project s'.current project_id) s'
              (enroll w project_id user_id s')
    ]

-- Both rows go in one flush.
unfoldable pub insert_both : Project → ProjectMembership → Tables → Option Tables
insert_both p m t = elim (insert_project p t) [ none ↦ none | some t' ↦ insert_membership m t' ]

unfoldable pub create_project :
    Moment → Text → Text → Text → Option Text → Bool → Session → Reply Project × Session
create_project w name tenant_id created_by description invite_only s =
    elim (get_project s.current name) [
      | some p ↦ (failed project_already_exists, s)
      | none ↦
          let p = new_project w name description invite_only tenant_id created_by in
          let m = new_membership w name created_by (codes "admin") created_by in
          let (created, s') = flush (insert_both p m) (meanwhile w.before_project s) in
          (if created then done p else failed project_already_exists, s')
    ]

unfoldable pub add_project_member :
    Moment → Text → Text → Text → Text → Session → Reply Bool × Session
add_project_member w project_name user_id added_by role s =
    elim (get_project s.current project_name) [
      | none ↦ (failed project_not_found, s)
      | some p ↦
          let m = new_membership w project_name user_id role added_by in
          let (added, s') = flush (insert_membership m) (meanwhile w.before_membership s) in
          (done added, s')
    ]

-- `await session.delete(membership)`: by primary key.
unfoldable pub delete_membership : ℕ → Tables → Tables
delete_membership id t = record t { memberships = keep (λ n. not (n.id == id)) t.memberships }

unfoldable pub is_last_admin : Text → ProjectMembership → Tables → Bool
is_last_admin project_name m t =
    m.role == codes "admin" && leb (length (keep (is_admin_of project_name) t.memberships)) 1

-- `others` is what other sessions commit between the count of the admins and the delete. The flush
-- deletes no row where they have deleted it already.
unfoldable pub remove_found :
    (Tables → Tables) → Text → List ProjectMembership → Session → Reply Unit × Session
unfolding meanwhile
remove_found others project_name [] s = (failed membership_not_found, s)
remove_found others project_name (m ∷ []) s =
    if is_last_admin project_name m s.current
    then (failed last_admin, s)
    else (let s' = meanwhile others s in
        (done tt, record s' { current = delete_membership m.id s'.current }))
remove_found others project_name (m ∷ n ∷ rest) s = (failed multiple_results, s)

unfoldable pub remove_project_member :
    (Tables → Tables) → Text → Text → Session → Reply Unit × Session
remove_project_member others project_name user_id s = elim (get_project s.current project_name) [
  | none ↦ (failed project_not_found, s)
  | some p ↦
      remove_found others project_name (keep (is_of project_name user_id) s.current.memberships) s
]
