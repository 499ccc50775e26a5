-- ===== src/Project/Tests.antt =====
-- The theorems on projects at concrete inputs.
use memory_hub.Base.{
  ℕ, Text, true, none, some, List, [], ◌∷◌, ◌&&◌, ◌||◌, not, ◌==◌, ==_iff, text_eq, text_beq,
  nat_eq, any, keep, contains, ◌≡◌, refl, codes, arith,
}
use memory_hub.Project.{Project, ProjectMembership, Tables, done, get_project, insert_membership}
use memory_hub.Project.{assert_project_membership, get_projects_for_user_in_tenant}
use memory_hub.Project.Membership.{
  Session, Moment, flush, meanwhile, new_membership, ensure_project_membership, add_project_member,
  remove_project_member,
}
use memory_hub.Project.Runs.{Operation, ensure, create, add, remove, perform_all, Both}
use memory_hub.Project.Races.{begun, removed_by_another, removals_race}
use memory_hub.Project.Integrity.{IsSound}
use memory_hub.Project.Admins.{admins, HasAdmin, perform_all-HasAdmin}
use memory_hub.Project.Listing.{list_projects_for_tenant, projects_of, list_projects-visible}
use memory_hub.Project.Enrolment.{is_done, is_member, is_closed, ensure-member, ensure-closed}
use memory_hub.Project.Tenants.{assert_project_membership-agrees}
use memory_hub.Project.RoundTrip.{remove-add_project_member}

abbrev ann : Text
ann = codes "ann"

abbrev bob : Text
bob = codes "bob"

abbrev apollo : Project
apollo = record {
  name = codes "apollo";
  description = none;
  invite_only = true;
  tenant_id = codes "default";
  created_at = 1;
  created_by = ann;
}

abbrev lead : ProjectMembership
lead = record {
  id = 1;
  project_id = codes "apollo";
  user_id = ann;
  role = codes "admin";
  joined_at = 1;
  joined_by = ann;
}

abbrev tables : Tables
tables = record { projects = apollo ∷ []; memberships = lead ∷ [] }

abbrev session : Session
session = record { saved = tables; current = tables }

abbrev moment : ℕ → Moment
moment i = record { now = 5; id = i; before_project = λ t. t; before_membership = λ t. t }

abbrev calls : List Operation
calls =
    add (moment 2) (codes "apollo") bob ann (codes "member")
    ∷ remove (λ t. t) (codes "apollo") ann
    ∷ ensure (moment 3) (codes "zeus") bob (codes "default") none
    ∷ create (moment 4) (codes "hera") (codes "default") ann none true
    ∷ []

sound : IsSound tables
unfolding text_beq
sound = record { names = (refl, tt); ids = (refl, tt); pairs = (refl, tt); refers = (refl, tt) }

has_admin : HasAdmin (codes "apollo") tables
unfolding text_beq
has_admin = (sound, omega arith)

perform_all-HasAdmin_example : Both (HasAdmin (codes "apollo")) (perform_all calls session)
perform_all-HasAdmin_example =
    perform_all-HasAdmin (codes "apollo") calls session
      (λ t h. h, ((λ t h. h, λ t i h. h), ((λ t h. h, λ t h. h), (λ t h. h, tt)))) has_admin
      has_admin

abbrev co_lead : ProjectMembership
co_lead = record lead { id = 2; user_id = bob }

abbrev two_leads : Tables
two_leads = record { projects = apollo ∷ []; memberships = lead ∷ co_lead ∷ [] }

two_leads-IsSound : IsSound two_leads
unfolding text_beq
two_leads-IsSound = record {
  names = (refl, tt);
  ids = (refl, (refl, tt));
  pairs = (refl, (refl, tt));
  refers = (refl, (refl, tt));
}

removals_race_example :
    let remove_bob = removed_by_another (codes "apollo") bob in
    let first = remove_project_member remove_bob (codes "apollo") ann (begun two_leads) in
    (first.0 ≡ done tt)
    × ((remove_project_member (λ t. t) (codes "apollo") bob (begun two_leads)).0 ≡ done tt)
    × (admins (codes "apollo") first.1.current.memberships ≡ 0)
unfolding text_beq get_project
removals_race_example =
    removals_race (codes "apollo") ann bob two_leads apollo lead co_lead two_leads-IsSound refl refl
      refl (λ e. omega (arith, e)) refl refl refl

remove-add_project_member_example :
    let after =
      (add_project_member (moment 2) (codes "apollo") bob ann (codes "member") session).1 in
    ((remove_project_member (λ t. t) (codes "apollo") bob after).0 ≡ done tt)
    × ((remove_project_member (λ t. t) (codes "apollo") bob after).1.current ≡ tables)
unfolding text_beq add_project_member flush insert_membership get_project meanwhile new_membership
remove-add_project_member_example =
    remove-add_project_member (moment 2) (codes "apollo") bob ann (codes "member") session refl
      (λ e. cc ((==_iff (codes "member") (codes "admin")).1 e)) refl

list_projects-visible_example :
    any
      (λ l. l.name == codes "apollo")
      (list_projects_for_tenant tables [] (codes "default") (some bob) true)
    ≡ any
        (λ p.
          p.name == codes "apollo"
          && (p.tenant_id == codes "default"
              && (contains (projects_of tables (some bob)) p.name || (true && not p.invite_only))))
        tables.projects
list_projects-visible_example =
    list_projects-visible tables [] (codes "default") (some bob) true (codes "apollo")

ensure-member_example :
    let answer =
      ensure_project_membership (moment 2) (codes "apollo") bob (codes "default") none session in
    let blocked =
      not (is_member (codes "apollo") bob tables)
      && is_closed (get_project tables (codes "apollo")) in
    (is_done answer.0 ≡ not blocked)
    × (is_member (codes "apollo") bob answer.1.current ≡ not blocked)
ensure-member_example =
    ensure-member (moment 2) (codes "apollo") bob (codes "default") none tables (λ t. refl)
      (λ t. refl) refl

ensure-closed_example :
    let answer =
      ensure_project_membership (moment 2) (codes "zeus") bob (codes "default") none session in
    keep (λ m. m.project_id == codes "apollo") answer.1.current.memberships
    ≡ keep (λ m. m.project_id == codes "apollo") tables.memberships
unfolding get_project text_beq
ensure-closed_example =
    ensure-closed (moment 2) (codes "zeus") bob (codes "default") none tables (λ t. refl)
      (λ t. refl) refl (codes "apollo") refl

assert_project_membership-agrees_example :
    is_done (assert_project_membership tables ann (codes "apollo") (codes "default"))
    ≡ contains (get_projects_for_user_in_tenant tables ann (codes "default")) (codes "apollo")
assert_project_membership-agrees_example =
    assert_project_membership-agrees tables ann (codes "apollo") (codes "default")
