-- ===== src/Project/Races.antt =====
-- services/project.py: two removals at the same time.
use memory_hub.Base.{
  ℕ, ◌+◌, Text, true, false, some, List, [], ◌∷◌, ◌==◌, ==_iff, text_eq, nat_eq, codes, contains,
  keep, map, Distinct, ◌≡◌, ◌≢◌, beq_refl, refl, sym, ◌∙◌, ap, subst, arith, Bool-cases, inl, inr,
}
use memory_hub.Project.{ProjectMembership, Project, Tables, done, is_of, is_admin_of, get_project}
use memory_hub.Project.Membership.{
  Session, meanwhile, is_last_admin, delete_membership, remove_found, remove_project_member,
}
use memory_hub.Project.Integrity.{IsSound, delete_membership-IsSound}
use memory_hub.Project.Admins.{admins, without, absent-keep, Occurs, Occurs-keep, contains-Occurs}

-- The row of an admin is one admin less.
admins-removed :
    (p : Text) (m : ProjectMembership) (ms : List ProjectMembership)
    → is_admin_of p m ≡ true
    → Distinct (map (λ n. n.id) ms)
    → Occurs m ms
    → admins p (keep (without m.id) ms) + 1 ≡ admins p ms
unfolding Occurs without
admins-removed p m [] h d o = elim o [ ]
admins-removed p m (x ∷ xs) h (fresh, d) (inl e) =
    let gone =
      absent-keep m.id xs (subst (λ y. contains (map (λ n. n.id) xs) y.id ≡ false) e fresh) in
    let admin = subst (λ y. is_admin_of p y ≡ true) (sym e) h in
    rw (ap (λ y. y.id) e, beq_refl m.id, gone, admin) (omega arith)
admins-removed p m (x ∷ xs) h (fresh, d) (inr o) =
    let present = contains-Occurs m xs o in
    elim (Bool-cases (x.id == m.id)) [
      | inl e ↦ cc (
          sym present
          ∙ subst (λ i. contains (map (λ n. n.id) xs) i ≡ false) ((==_iff x.id m.id).0 e) fresh)
      | inr e ↦ rw e (ground (arith, admins-removed p m xs h d o))
    ]

Occurs-kept :
    (i : ℕ) (m : ProjectMembership) (ms : List ProjectMembership)
    → (m.id == i) ≡ false
    → Occurs m ms
    → Occurs m (keep (without i) ms)
unfolding Occurs without
Occurs-kept i m [] h o = elim o [ ]
Occurs-kept i m (x ∷ xs) h (inl e) =
    let other = subst (λ y. (y.id == i) ≡ false) (sym e) h in rw other (inl e)
Occurs-kept i m (x ∷ xs) h (inr o) = elim (Bool-cases (x.id == i)) [
  | inl e ↦ rw e (Occurs-kept i m xs h o)
  | inr e ↦ rw e (inr (Occurs-kept i m xs h o))
]

-- A session that has just begun, and what a removal by such a session leaves.
abbrev pub begun : Tables → Session
begun t = record { saved = t; current = t }

abbrev pub removed_by_another : Text → Text → Tables → Tables
removed_by_another p v t = (remove_project_member (λ t. t) p v (begun t)).1.current

removed :
    (others : Tables → Tables) (p u : Text) (t : Tables) (q : Project) (a : ProjectMembership)
    → get_project t p ≡ some q
    → keep (is_of p u) t.memberships ≡ a ∷ []
    → admins p t.memberships ≡ 2
    → remove_project_member others p u (begun t)
      ≡ (done tt, record { saved = others t; current = delete_membership a.id (others t) })
unfolding remove_project_member remove_found is_last_admin meanwhile
removed others p u t q a there row two =
    rw (remove_project_member, there, row, remove_found, is_last_admin, two)
      (elim (Bool-cases (a.role == codes "admin")) [ inl r ↦ rw r refl | inr r ↦ rw r refl ])

module _ (p u v : Text) (t : Tables) (q : Project) (a b : ProjectMembership) where
  -- Where a project has two admins and each of them is removed by a session of its own, of which the
  -- one deletes its row between the count and the delete of the other, both removals succeed and no
  -- admin is left.
  pub removals_race :
      IsSound t
      → get_project t p ≡ some q
      → keep (is_of p u) t.memberships ≡ a ∷ []
      → keep (is_of p v) t.memberships ≡ b ∷ []
      → a.id ≢ b.id
      → is_admin_of p a ≡ true
      → is_admin_of p b ≡ true
      → admins p t.memberships ≡ 2
      → ((remove_project_member (removed_by_another p v) p u (begun t)).0 ≡ done tt)
        × ((remove_project_member (λ t. t) p v (begun t)).0 ≡ done tt)
        × (admins p
              (remove_project_member (removed_by_another p v) p u (begun t)).1.current.memberships
            ≡ 0)
  unfolding delete_membership without
  removals_race sound there row_a row_b differ admin_a admin_b two =
      let other = removed (λ t. t) p v t q b there row_b two in
      let whole = removed (removed_by_another p v) p u t q a there row_a two in
      let left : removed_by_another p v t ≡ delete_membership b.id t =
        ap (λ x. x.1.current) other in
      let ms = t.memberships in
      let here = (Occurs-keep (is_of p u) a ms [] row_a).0 in
      let first =
        admins-removed p b ms admin_b sound.ids (Occurs-keep (is_of p v) b ms [] row_b).0 in
      let second =
        admins-removed p a (keep (without b.id) ms) admin_a
          (delete_membership-IsSound b.id t sound).ids
          (Occurs-kept b.id a ms (ground (arith, differ, ==_iff a.id b.id)) here) in
      let none_left : admins p (delete_membership a.id (delete_membership b.id t)).memberships ≡ 0 =
        omega (arith, first, second, two) in
      (
        ap (λ x. x.0) whole,
        ap (λ x. x.0) other,
        ap (λ x. admins p x.1.current.memberships) whole
            ∙ (ap (λ s. admins p (delete_membership a.id s).memberships) left ∙ none_left),
      )
