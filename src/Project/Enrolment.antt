-- ===== src/Project/Enrolment.antt =====
-- services/project.py: `ensure_project_membership` while nobody else writes.
use memory_hub.Base.{
  Text, Bool, true, false, Option, none, some, List, [], ◌∷◌, ◌&&◌, not, ◌==◌, ==_iff, beq_refl,
  text_eq, nat_eq, any, keep, find, map, contains, ◌≡◌, ◌⊎◌, refl, sym, ◌∙◌, ap, subst, arith,
  Bool-cases, Option-cases, inl, inr, codes,
}
use memory_hub.Project.{
  Project, ProjectMembership, Tables, Reply, done, failed, project_invite_only, is_of, get_project,
  get_projects_for_user, insert_project, insert_membership,
}
use memory_hub.Project.Membership.{
  Session, Moment, meanwhile, flush, new_membership, new_project, enroll, unless_invite_only,
  ensure_project_membership,
}

abbrev pub is_done : {A : Type 0} → Reply A → Bool
is_done (done a) = true
is_done (failed e) = false

abbrev pub is_member : Text → Text → Tables → Bool
is_member project_id user_id t = any (is_of project_id user_id) t.memberships

abbrev pub is_closed : Option Project → Bool
is_closed none = false
is_closed (some p) = p.invite_only

contains-projects :
    (u p : Text) (ms : List ProjectMembership)
    → contains (map (λ m. m.project_id) (keep (λ m. m.user_id == u) ms)) p ≡ any (is_of p u) ms
contains-projects u p [] = refl
contains-projects u p (m ∷ ms) = ground (arith, contains-projects u p ms)

find-none : (f : Project → Bool) (ps : List Project) → find f ps ≡ none → any f ps ≡ false
find-none f [] h = refl
find-none f (p ∷ ps) h = ground (arith, find-none f ps)

find-some :
    (f : Project → Bool) (ps : List Project) (p : Project) → find f ps ≡ some p → any f ps ≡ true
find-some f [] p h = ground (arith, h)
find-some f (q ∷ qs) p h = elim (Bool-cases (f q)) [
  | inl e ↦ rw e refl
  | inr e ↦ ground (arith, e, find-some f qs p)
]

module _ (w : Moment) (p u : Text) where
  -- The row that an enrolment adds.
  abbrev row : ProjectMembership
  row = new_membership w p u (codes "member") (codes "auto-enroll")

  enroll_lem :
      (saved t : Tables)
      → w.before_membership t ≡ t
      → any (λ n. n.id == w.id) t.memberships ≡ false
      → any (λ q. q.name == p) t.projects ≡ true
      → is_member p u t ≡ false
      → (enroll w p u (record { saved = saved; current = t })).1.current.memberships
        ≡ row ∷ t.memberships
  unfolding enroll flush meanwhile insert_membership new_membership
  enroll_lem saved t quiet fresh there new = rw (quiet, fresh, there, new) refl

  module _ (tenant_id : Text) (description : Option Text) (t : Tables)
      (before_project : (x : Tables) → w.before_project x ≡ x)
      (before_membership : (x : Tables) → w.before_membership x ≡ x)
      (fresh : any (λ n. n.id == w.id) t.memberships ≡ false) where
    abbrev answer : Reply (List Text × Bool) × Session
    answer =
        ensure_project_membership w p u tenant_id description (record { saved = t; current = t })

    abbrev start : Session
    start = record { saved = t; current = t }

    abbrev with_project : Tables
    with_project = record t {
      projects = new_project w p description false tenant_id u ∷ t.projects;
    }

    mine : contains (get_projects_for_user t u) p ≡ is_member p u t
    unfolding get_projects_for_user
    mine = contains-projects u p t.memberships

    member_answer :
        is_member p u t ≡ true → answer ≡ (done (get_projects_for_user t u, false), start)
    unfolding ensure_project_membership get_projects_for_user
    member_answer e = rw (ensure_project_membership, mine, e) refl

    closed_answer :
        (q : Project)
        → is_member p u t ≡ false
        → get_project t p ≡ some q
        → q.invite_only ≡ true
        → answer ≡ (failed project_invite_only, start)
    unfolding ensure_project_membership unless_invite_only
    closed_answer q e f g = rw (ensure_project_membership, mine, e, f, unless_invite_only, g) refl

    open_answer :
        (q : Project)
        → is_member p u t ≡ false
        → get_project t p ≡ some q
        → q.invite_only ≡ false
        → answer ≡ enroll w p u start
    unfolding ensure_project_membership enroll unless_invite_only
    open_answer q e f g = rw (ensure_project_membership, mine, e, f, unless_invite_only, g) refl

    created :
        get_project t p ≡ none
        → flush
            (insert_project (new_project w p description false tenant_id u))
            (meanwhile w.before_project start)
          ≡ (true, record { saved = w.before_project t; current = with_project })
    unfolding flush meanwhile insert_project get_project new_project
    created f = rw (before_project t, find-none (λ q. q.name == p) t.projects f) refl

    missing_answer :
        is_member p u t ≡ false
        → get_project t p ≡ none
        → answer ≡ enroll w p u (record { saved = w.before_project t; current = with_project })
    unfolding ensure_project_membership enroll
    missing_answer e f = rw (ensure_project_membership, mine, e, f, created f) refl

    ensure-cases :
        ((is_member p u t ≡ true) × (is_done answer.0 ≡ true) × (answer.1.current ≡ t))
        ⊎ ((is_member p u t ≡ false)
            × (is_closed (get_project t p) ≡ true)
            × (is_done answer.0 ≡ false)
            × (answer.1.current ≡ t))
        ⊎ ((is_member p u t ≡ false)
            × (is_closed (get_project t p) ≡ false)
            × (is_done answer.0 ≡ true)
            × (answer.1.current.memberships ≡ row ∷ t.memberships))
    unfolding get_project enroll new_project
    ensure-cases = elim (Bool-cases (is_member p u t)) [
      | inl e ↦
          let same = member_answer e in
          inl (e, ap (λ a. is_done a.0) same, ap (λ a. a.1.current) same)
      | inr e ↦ elim (Option-cases (get_project t p)) [
        | inr (q, f) ↦ elim (Bool-cases q.invite_only) [
          | inl g ↦
              let same = closed_answer q e f g in
              inr (inl (e, rw f g, ap (λ a. is_done a.0) same, ap (λ a. a.1.current) same))
          | inr g ↦
              let same = open_answer q e f g in
              let there = find-some (λ x. x.name == p) t.projects q f in
              inr (
                inr (
                  e,
                  rw f g,
                  ap (λ a. is_done a.0) same,
                  ap (λ a. a.1.current.memberships) same
                      ∙ enroll_lem t t (before_membership t) fresh there e,
                ))
        ]
        | inl f ↦
            let same = missing_answer e f in
            inr (
              inr (
                e,
                rw f refl,
                ap (λ a. is_done a.0) same,
                ap (λ a. a.1.current.memberships) same
                    ∙ enroll_lem _ with_project (before_membership with_project) fresh
                        (rw (beq_refl p) refl) e,
              ))
      ]
    ]

    -- While nobody else writes and the random id is new, the call fails exactly for an invite-only
    -- project of which the user is not a member, and exactly where it does not fail the user is a
    -- member afterwards.
    pub ensure-member :
        let blocked = not (is_member p u t) && is_closed (get_project t p) in
        (is_done answer.0 ≡ not blocked) × (is_member p u answer.1.current ≡ not blocked)
    unfolding new_membership
    ensure-member = elim ensure-cases [
      | inl (e, d, c) ↦ (rw (d, e) refl, rw (c, e) refl)
      | inr (inl (e, f, d, c)) ↦ (rw (d, e, f) refl, rw (c, e, f) refl)
      | inr (inr (e, f, d, c)) ↦ (rw (d, e, f) refl, rw (c, e, f, beq_refl p, beq_refl u) refl)
    ]

    -- While nobody else writes and the random id is new, the memberships of an invite-only project
    -- stay the same, whatever project and user the call is about.
    pub ensure-closed :
        (q : Text)
        → is_closed (get_project t q) ≡ true
        → keep (λ m. m.project_id == q) answer.1.current.memberships
          ≡ keep (λ m. m.project_id == q) t.memberships
    unfolding new_membership
    ensure-closed q h = elim ensure-cases [
      | inl (e, d, c) ↦ rw c refl
      | inr (inl (e, f, d, c)) ↦ rw c refl
      | inr (inr (e, f, d, c)) ↦ elim (Bool-cases (p == q)) [
        | inl g ↦
            cc (sym (subst (λ x. is_closed (get_project t x) ≡ false) ((==_iff p q).0 g) f) ∙ h)
        | inr g ↦ rw (c, g) refl
      ]
    ]
