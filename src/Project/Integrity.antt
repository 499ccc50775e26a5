-- ===== src/Project/Integrity.antt =====
-- services/project.py: the operations and the constraints of the tables.
use memory_hub.Base.{
  ℕ, Text, Bool, true, false, some, List, [], ◌∷◌, ◌==◌, text_eq, nat_eq, contains, any, keep, map,
  All, Distinct, ◌≡◌, refl, ◌∙◌, subst, arith, Bool-cases, inl, inr,
}
use memory_hub.Project.{
  Project, ProjectMembership, Tables, is_of, insert_project, insert_membership,
}
use memory_hub.Project.Membership.{delete_membership}
use memory_hub.Project.Runs.{Kept}

-- No two rows for one user of one project.
abbrev pub NoTwin : List ProjectMembership → Type 0
NoTwin [] = Unit
NoTwin (m ∷ ms) = (any (is_of m.project_id m.user_id) ms ≡ false) × NoTwin ms

abbrev pub exists : List Project → Text → Bool
exists ps name = any (λ p. p.name == name) ps

-- The primary keys, the unique pair of project and user, and the foreign key.
pub record IsSound (t : Tables) : Type 0 where
  pub names : Distinct (map (λ p. p.name) t.projects)
  pub ids : Distinct (map (λ m. m.id) t.memberships)
  pub pairs : NoTwin t.memberships
  pub refers : All (λ m. exists t.projects m.project_id ≡ true) t.memberships

contains-names : (ps : List Project) (n : Text) → contains (map (λ p. p.name) ps) n ≡ exists ps n
contains-names [] n = refl
contains-names (p ∷ ps) n = ground (arith, contains-names ps n)

contains-ids :
    (ms : List ProjectMembership) (i : ℕ)
    → contains (map (λ m. m.id) ms) i ≡ any (λ m. m.id == i) ms
contains-ids [] i = refl
contains-ids (m ∷ ms) i = ground (arith, contains-ids ms i)

refers_more :
    (p : Project) (ps : List Project) (ms : List ProjectMembership)
    → All (λ m. exists ps m.project_id ≡ true) ms
    → All (λ m. exists (p ∷ ps) m.project_id ≡ true) ms
refers_more p ps [] h = tt
refers_more p ps (m ∷ ms) (h, hs) = (ground arith, refers_more p ps ms hs)

insert_project-IsSound :
    (p : Project) (t t' : Tables) → insert_project p t ≡ some t' → IsSound t → IsSound t'
unfolding insert_project
insert_project-IsSound p t t' e h = elim (Bool-cases (any (λ q. q.name == p.name) t.projects)) [
  | inl there ↦ ground (arith, there)
  | inr fresh ↦
      let same : record t { projects = p ∷ t.projects } ≡ t' = ground (arith, fresh) in
      subst IsSound same (record {
        names = (contains-names t.projects p.name ∙ fresh, h.names);
        ids = h.ids;
        pairs = h.pairs;
        refers = refers_more p t.projects t.memberships h.refers;
      })
]

insert_membership-IsSound :
    (m : ProjectMembership) (t t' : Tables)
    → insert_membership m t ≡ some t'
    → IsSound t
    → IsSound t'
unfolding insert_membership
insert_membership-IsSound m t t' e h =
    let fresh : any (λ n. n.id == m.id) t.memberships ≡ false = ground arith in
    let there : exists t.projects m.project_id ≡ true = ground arith in
    let new : any (is_of m.project_id m.user_id) t.memberships ≡ false = ground arith in
    let same : record t { memberships = m ∷ t.memberships } ≡ t' =
      ground (arith, fresh, there, new) in
    subst IsSound same (record {
      names = h.names;
      ids = (contains-ids t.memberships m.id ∙ fresh, h.ids);
      pairs = (new, h.pairs);
      refers = (there, h.refers);
    })

-- Deleting rows.
module _ (p : ProjectMembership → Bool) where
  any-keep :
      (q : ProjectMembership → Bool) (ms : List ProjectMembership)
      → any q ms ≡ false
      → any q (keep p ms) ≡ false
  any-keep q [] h = refl
  any-keep q (m ∷ ms) h = ground (arith, any-keep q ms)

  contains-keep :
      (i : ℕ) (ms : List ProjectMembership)
      → contains (map (λ m. m.id) ms) i ≡ false
      → contains (map (λ m. m.id) (keep p ms)) i ≡ false
  contains-keep i [] h = refl
  contains-keep i (m ∷ ms) h = ground (arith, contains-keep i ms)

  Distinct-keep :
      (ms : List ProjectMembership)
      → Distinct (map (λ m. m.id) ms)
      → Distinct (map (λ m. m.id) (keep p ms))
  Distinct-keep [] h = tt
  Distinct-keep (m ∷ ms) (h, hs) = elim (Bool-cases (p m)) [
    | inl e ↦ rw e (contains-keep m.id ms h, Distinct-keep ms hs)
    | inr e ↦ rw e (Distinct-keep ms hs)
  ]

  NoTwin-keep : (ms : List ProjectMembership) → NoTwin ms → NoTwin (keep p ms)
  NoTwin-keep [] h = tt
  NoTwin-keep (m ∷ ms) (h, hs) = elim (Bool-cases (p m)) [
    | inl e ↦ rw e (any-keep (is_of m.project_id m.user_id) ms h, NoTwin-keep ms hs)
    | inr e ↦ rw e (NoTwin-keep ms hs)
  ]

  All-keep :
      (P : ProjectMembership → Type 0) (ms : List ProjectMembership) → All P ms → All P (keep p ms)
  All-keep P [] h = tt
  All-keep P (m ∷ ms) (h, hs) = elim (Bool-cases (p m)) [
    | inl e ↦ rw e (h, All-keep P ms hs)
    | inr e ↦ rw e (All-keep P ms hs)
  ]

pub delete_membership-IsSound : (i : ℕ) (t : Tables) → IsSound t → IsSound (delete_membership i t)
unfolding delete_membership
delete_membership-IsSound i t h = record {
  names = h.names;
  ids = Distinct-keep _ t.memberships h.ids;
  pairs = NoTwin-keep _ t.memberships h.pairs;
  refers = All-keep _ _ t.memberships h.refers;
}

pub IsSound-Kept : Kept IsSound
IsSound-Kept = record {
  project = insert_project-IsSound;
  membership = insert_membership-IsSound;
  removal = λ p u m t e f h. delete_membership-IsSound m.id t h;
}
