-- ===== src/Project/Tenants.antt =====
-- services/project.py: the two queries that join the memberships with the projects of a tenant.
use memory_hub.Base.{
  Text, Bool, List, [], ◌∷◌, ◌&&◌, ◌==◌, ==_iff, text_eq, contains, any, keep, map, ◌≡◌, refl, sym,
  subst, arith, Bool-cases, inl, inr,
}
use memory_hub.Project.{
  Project, ProjectMembership, Tables, is_of, get_projects_for_user_in_tenant,
  assert_project_membership,
}
use memory_hub.Project.Enrolment.{is_done}

abbrev joined : Text → Text → List Project → Bool
joined tenant_id x ps = any (λ p. x == p.name && p.tenant_id == tenant_id) ps

abbrev joined_to : Text → Text → Text → List Project → Bool
joined_to tenant_id name x ps =
    any (λ p. x == p.name && p.name == name && p.tenant_id == tenant_id) ps

same_join :
    (tenant_id name : Text) (ps : List Project)
    → joined_to tenant_id name name ps ≡ joined tenant_id name ps
same_join tenant_id name [] = refl
same_join tenant_id name (p ∷ ps) =
    ground (arith, ==_iff name p.name, ==_iff p.name name, same_join tenant_id name ps)

module _ (tenant_id user_id name : Text) (ps : List Project) where
  in_tenant :
      (ms : List ProjectMembership)
      → contains
          (map
            (λ m. m.project_id)
            (keep (λ m. m.user_id == user_id && joined tenant_id m.project_id ps) ms))
          name
        ≡ any (λ m. is_of name user_id m && joined_to tenant_id name m.project_id ps) ms
  in_tenant [] = refl
  in_tenant (m ∷ ms) = elim (Bool-cases (m.project_id == name)) [
    | inr e ↦ ground (arith, e, in_tenant ms)
    | inl e ↦
        let one : joined_to tenant_id name m.project_id ps ≡ joined tenant_id m.project_id ps =
          subst (λ x. joined_to tenant_id name x ps ≡ joined tenant_id x ps)
            (sym ((==_iff m.project_id name).0 e)) (same_join tenant_id name ps) in
        ground (arith, e, one, in_tenant ms)
  ]

-- `assert_project_membership` passes exactly for the projects that `get_projects_for_user_in_tenant`
-- lists.
pub assert_project_membership-agrees :
    (t : Tables) (user_id project_id tenant_id : Text)
    → is_done (assert_project_membership t user_id project_id tenant_id)
      ≡ contains (get_projects_for_user_in_tenant t user_id tenant_id) project_id
unfolding assert_project_membership get_projects_for_user_in_tenant
assert_project_membership-agrees t user_id project_id tenant_id =
    ground (arith, in_tenant tenant_id user_id project_id t.projects t.memberships)
