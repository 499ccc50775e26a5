-- ===== src/Project/Runs.antt =====
-- services/project.py: runs of operations, and predicates on the tables that their statements keep.
use memory_hub.Base.{
  ℕ, Text, Bool, false, Option, none, some, List, [], ◌∷◌, text_eq, nat_eq, contains, keep, All,
  ◌≡◌, refl, arith, Bool-cases, Option-cases, inl, inr,
}
use memory_hub.Project.{
  Project, ProjectMembership, Tables, Reply, is_of, get_project, get_projects_for_user,
  insert_project, insert_membership,
}
use memory_hub.Project.Membership.{
  Session, Moment, meanwhile, flush, enroll, unless_invite_only, ensure_project_membership,
  insert_both, create_project, add_project_member, remove_project_member, remove_found,
  is_last_admin, delete_membership, new_project,
}

-- One call of the service by a session.
pub data Operation : Type 0 where
  ensure : Moment → Text → Text → Text → Option Text → Operation
  create : Moment → Text → Text → Text → Option Text → Bool → Operation
  add : Moment → Text → Text → Text → Text → Operation
  remove : (Tables → Tables) → Text → Text → Operation

unfoldable pub perform : Operation → Session → Session
perform (ensure w p u t d) s = (ensure_project_membership w p u t d s).1
perform (create w n t u d i) s = (create_project w n t u d i s).1
perform (add w p u b r) s = (add_project_member w p u b r s).1
perform (remove o p u) s = (remove_project_member o p u s).1

unfoldable pub perform_all : List Operation → Session → Session
perform_all [] s = s
perform_all (o ∷ os) s = perform_all os (perform o s)

abbrev pub Both : (Tables → Type 0) → Session → Type 0
Both P s = P s.saved × P s.current

-- What other sessions do in the gaps of an operation keeps `P`, and before a delete it also keeps
-- `P` of the table without the row.
abbrev pub OthersKeep : (Tables → Type 0) → Operation → Type 0
OthersKeep P (ensure w p u t d) =
    ((t : Tables) → P t → P (w.before_project t)) × ((t : Tables) → P t → P (w.before_membership t))
OthersKeep P (create w n t u d i) = (t : Tables) → P t → P (w.before_project t)
OthersKeep P (add w p u b r) = (t : Tables) → P t → P (w.before_membership t)
OthersKeep P (remove others p u) =
    ((t : Tables) → P t → P (others t))
    × ((t : Tables) (i : ℕ) → P (delete_membership i t) → P (delete_membership i (others t)))

-- The statements of this session keep `P`.
pub record Kept (P : Tables → Type 0) : Type 0 where
  pub project : (p : Project) (t t' : Tables) → insert_project p t ≡ some t' → P t → P t'
  pub membership :
      (m : ProjectMembership) (t t' : Tables) → insert_membership m t ≡ some t' → P t → P t'
  pub removal :
      (project_name user_id : Text) (m : ProjectMembership) (t : Tables)
      → keep (is_of project_name user_id) t.memberships ≡ m ∷ []
      → is_last_admin project_name m t ≡ false
      → P t
      → P (delete_membership m.id t)

module _ (P : Tables → Type 0) (kept : Kept P) where
  Both-meanwhile :
      (others : Tables → Tables) (s : Session)
      → ((t : Tables) → P t → P (others t))
      → Both P s
      → Both P (meanwhile others s)
  unfolding meanwhile
  Both-meanwhile others s k (h, c) = (k s.saved h, k s.current c)

  Both-flush :
      (insert : Tables → Option Tables) (s : Session)
      → ((t t' : Tables) → insert t ≡ some t' → P t → P t')
      → Both P s
      → Both P (flush insert s).1
  unfolding flush
  Both-flush insert s k (h, c) = elim (Option-cases (insert s.current)) [
    | inl e ↦ rw e (h, h)
    | inr (t, e) ↦ rw e (h, k s.current t e c)
  ]

  Kept-insert_both :
      (p : Project) (m : ProjectMembership) (t t' : Tables)
      → insert_both p m t ≡ some t'
      → P t
      → P t'
  unfolding insert_both
  Kept-insert_both p m t t' e h = elim (Option-cases (insert_project p t)) [
    | inl none_there ↦ ground (arith, none_there)
    | inr (u, first) ↦
        kept.membership m u t' (rw (insert_both, first) at e) (kept.project p t u first h)
  ]

  Both-enroll :
      (w : Moment) (p u : Text) (s : Session)
      → ((t : Tables) → P t → P (w.before_membership t))
      → Both P s
      → Both P (enroll w p u s).1
  unfolding enroll
  Both-enroll w p u s k h =
      Both-flush _ _ (kept.membership _) (Both-meanwhile w.before_membership s k h)

  Both-unless :
      (o : Option Project) (s : Session) (rest : Reply (List Text × Bool) × Session)
      → Both P s
      → Both P rest.1
      → Both P (unless_invite_only o s rest).1
  unfolding unless_invite_only
  Both-unless none s rest h k = k
  Both-unless (some p) s rest h k = elim (Bool-cases p.invite_only) [
    | inl e ↦ rw e h
    | inr e ↦ rw e k
  ]

  Both-ensure :
      (w : Moment) (p u t : Text) (d : Option Text) (s : Session)
      → OthersKeep P (ensure w p u t d)
      → Both P s
      → Both P (ensure_project_membership w p u t d s).1
  unfolding ensure_project_membership
  Both-ensure w p u t d s (k, l) h =
      let row = new_project w p d false t u in
      let made =
        Both-flush (insert_project row) _ (kept.project row)
          (Both-meanwhile w.before_project s k h) in
      elim (Bool-cases (contains (get_projects_for_user s.current u) p)) [
        | inl e ↦ rw e h
        | inr e ↦ elim (Option-cases (get_project s.current p)) [
          | inr (q, f) ↦ rw (e, f) (Both-unless (some q) s _ h (Both-enroll w p u s l h))
          | inl f ↦
              elim (Bool-cases (flush (insert_project row) (meanwhile w.before_project s)).0) [
                | inl g ↦ rw (e, f, g) (Both-enroll w p u _ l made)
                | inr g ↦ rw (e, f, g) (Both-unless _ _ _ made (Both-enroll w p u _ l made))
              ]
        ]
      ]

  Both-create :
      (w : Moment) (n t u : Text) (d : Option Text) (i : Bool) (s : Session)
      → OthersKeep P (create w n t u d i)
      → Both P s
      → Both P (create_project w n t u d i s).1
  unfolding create_project
  Both-create w n t u d i s k h = elim (Option-cases (get_project s.current n)) [
    | inr (q, f) ↦ rw (create_project, f) h
    | inl f ↦
        rw (create_project, f)
          (Both-flush _ _ (Kept-insert_both _ _) (Both-meanwhile w.before_project s k h))
  ]

  Both-add :
      (w : Moment) (p u b r : Text) (s : Session)
      → OthersKeep P (add w p u b r)
      → Both P s
      → Both P (add_project_member w p u b r s).1
  unfolding add_project_member
  Both-add w p u b r s k h = elim (Option-cases (get_project s.current p)) [
    | inl f ↦ rw (add_project_member, f) h
    | inr (q, f) ↦
        rw (add_project_member, f)
          (Both-flush _ _ (kept.membership _) (Both-meanwhile w.before_membership s k h))
  ]

  Both-remove_found :
      (o : Tables → Tables) (p u : Text) (rows : List ProjectMembership) (s : Session)
      → keep (is_of p u) s.current.memberships ≡ rows
      → OthersKeep P (remove o p u)
      → Both P s
      → Both P (remove_found o p rows s).1
  unfolding remove_found meanwhile
  Both-remove_found o p u [] s e k h = h
  Both-remove_found o p u (m ∷ []) s e k h = elim (Bool-cases (is_last_admin p m s.current)) [
    | inl f ↦ rw f h
    | inr f ↦ rw f (k.0 s.saved h.0, k.1 s.current m.id (kept.removal p u m s.current e f h.1))
  ]
  Both-remove_found o p u (m ∷ n ∷ rest) s e k h = h

  Both-remove :
      (o : Tables → Tables) (p u : Text) (s : Session)
      → OthersKeep P (remove o p u)
      → Both P s
      → Both P (remove_project_member o p u s).1
  unfolding remove_project_member
  Both-remove o p u s k h = elim (Option-cases (get_project s.current p)) [
    | inl f ↦ rw (remove_project_member, f) h
    | inr (q, f) ↦ rw (remove_project_member, f) (Both-remove_found o p u _ s refl k h)
  ]

  Both-perform : (o : Operation) (s : Session) → OthersKeep P o → Both P s → Both P (perform o s)
  unfolding perform
  Both-perform (ensure w p u t d) s k h = Both-ensure w p u t d s k h
  Both-perform (create w n t u d i) s k h = Both-create w n t u d i s k h
  Both-perform (add w p u b r) s k h = Both-add w p u b r s k h
  Both-perform (remove o p u) s k h = Both-remove o p u s k h

  pub Both-perform_all :
      (os : List Operation) (s : Session)
      → All (OthersKeep P) os
      → Both P s
      → Both P (perform_all os s)
  unfolding perform_all
  Both-perform_all [] s k h = h
  Both-perform_all (o ∷ os) s (k, ks) h =
      Both-perform_all os (perform o s) ks (Both-perform o s k h)
