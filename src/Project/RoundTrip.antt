-- ===== src/Project/RoundTrip.antt =====
-- services/project.py: `add_project_member` and `remove_project_member` in a row.
use memory_hub.Base.{
  Text, Bool, true, false, some, List, [], ◌∷◌, not, ◌==◌, ==_iff, beq_refl, text_eq, nat_eq, any,
  keep, ◌≡◌, ◌≢◌, refl, ◌∙◌, ap, subst, arith, Option-cases, inl, inr, codes,
}
use memory_hub.Project.{
  Project, ProjectMembership, Tables, done, is_of, get_project, insert_membership,
}
use memory_hub.Project.Membership.{
  Session, Moment, meanwhile, flush, new_membership, add_project_member, remove_project_member,
  remove_found, is_last_admin, delete_membership,
}

keep-absent :
    (f : ProjectMembership → Bool) (ms : List ProjectMembership) → any f ms ≡ false → keep f ms ≡ []
keep-absent f [] h = refl
keep-absent f (m ∷ ms) h = ground (arith, keep-absent f ms)

keep-others :
    (f : ProjectMembership → Bool) (ms : List ProjectMembership)
    → any f ms ≡ false
    → keep (λ m. not (f m)) ms ≡ ms
keep-others f [] h = refl
keep-others f (m ∷ ms) h = ground (arith, keep-others f ms)

abbrev with_member : ProjectMembership → Tables → Tables
with_member m t = record t { memberships = m ∷ t.memberships }

inserted :
    (m : ProjectMembership) (t t' : Tables)
    → insert_membership m t ≡ some t'
    → (t' ≡ with_member m t)
      × (any (λ n. n.id == m.id) t.memberships ≡ false)
      × (any (is_of m.project_id m.user_id) t.memberships ≡ false)
unfolding insert_membership
inserted m t t' e = (ground arith, ground arith, ground arith)

removed :
    (m : ProjectMembership) (saved t : Tables) (q : Project)
    → get_project (with_member m t) m.project_id ≡ some q
    → (m.role == codes "admin") ≡ false
    → any (λ n. n.id == m.id) t.memberships ≡ false
    → any (is_of m.project_id m.user_id) t.memberships ≡ false
    → remove_project_member
        (λ t. t)
        m.project_id
        m.user_id
        (record { saved = saved; current = with_member m t })
      ≡ (done tt, record { saved = saved; current = t })
unfolding remove_project_member remove_found is_last_admin delete_membership meanwhile
removed m saved t q there plain fresh new =
    rw
      (
        remove_project_member,
        there,
        beq_refl m.project_id,
        beq_refl m.user_id,
        keep-absent _ t.memberships new,
        plain,
        beq_refl m.id,
        keep-others _ t.memberships fresh,
      )
      refl

-- Who is newly added to a project with a role other than admin can be removed again, and the session
-- then sees the tables as they were, where the gap before the insertion changes nothing and nobody
-- else writes during the removal.
pub remove-add_project_member :
    (w : Moment) (project_name user_id added_by role : Text) (s : Session)
    → w.before_membership s.current ≡ s.current
    → role ≢ codes "admin"
    → (add_project_member w project_name user_id added_by role s).0 ≡ done true
    → let after = (add_project_member w project_name user_id added_by role s).1 in
      ((remove_project_member (λ t. t) project_name user_id after).0 ≡ done tt)
      × ((remove_project_member (λ t. t) project_name user_id after).1.current ≡ s.current)
unfolding add_project_member flush meanwhile get_project new_membership
remove-add_project_member w p u b r s quiet plain added =
    let m = new_membership w p u r b in
    let no_admin : (r == codes "admin") ≡ false = ground (arith, plain, ==_iff r (codes "admin")) in
    elim (Option-cases (get_project s.current p)) [
      | inl e ↦ cc (rw (add_project_member, e) at added)
      | inr (q, e) ↦ elim (Option-cases (insert_membership m (w.before_membership s.current))) [
        | inl f ↦ cc (rw (add_project_member, e, f) at added)
        | inr (t, f) ↦
            let (same, fresh, new) =
              inserted m s.current t (subst (λ c. insert_membership m c ≡ some t) quiet f) in
            let back = removed m (w.before_membership s.saved) s.current q e no_admin fresh new in
            let there : (add_project_member w p u b r s).1 ≡ record {
              saved = w.before_membership s.saved;
              current = with_member m s.current;
            } =
              rw (add_project_member, e, f, same) refl in
            let whole = ap (remove_project_member (λ t. t) p u) there ∙ back in
            (ap (λ x. x.0) whole, ap (λ x. x.1.current) whole)
      ]
    ]
