-- ===== src/Project/Admins.antt =====
-- services/project.py: the guard of `remove_project_member` on the last admin.
use memory_hub.Base.{
  ℕ, ◌+◌, ◌≤◌, ◌<◌, Text, Bool, true, false, List, [], ◌∷◌, not, ◌==◌, ==_iff, text_eq, nat_eq,
  contains, keep, map, length, All, Distinct, ◌≡◌, ◌⊎◌, beq_refl, refl, sym, ◌∙◌, ap, subst, arith,
  Bool-cases, inl, inr,
}
use memory_hub.Project.{
  ProjectMembership, Tables, is_of, is_admin_of, insert_project, insert_membership,
}
use memory_hub.Project.Membership.{Session, is_last_admin, delete_membership}
use memory_hub.Project.Runs.{Operation, perform_all, Both, OthersKeep, Kept, Both-perform_all}
use memory_hub.Project.Integrity.{IsSound, IsSound-Kept, delete_membership-IsSound}

-- The number of rows that `admin_count_stmt` counts.
abbrev pub admins : Text → List ProjectMembership → ℕ
admins p ms = length (keep (is_admin_of p) ms)

abbrev pub HasAdmin : Text → Tables → Type 0
HasAdmin p t = IsSound t × (0 < admins p t.memberships)

unfoldable pub without : ℕ → ProjectMembership → Bool
without i n = not (n.id == i)

pub absent-keep :
    (i : ℕ) (ms : List ProjectMembership)
    → contains (map (λ m. m.id) ms) i ≡ false
    → keep (without i) ms ≡ ms
unfolding without
absent-keep i [] h = refl
absent-keep i (m ∷ ms) h = ground (arith, absent-keep i ms)

-- Ids are unique, so a deletion takes one admin at most.
admins-keep :
    (p : Text) (i : ℕ) (ms : List ProjectMembership)
    → Distinct (map (λ m. m.id) ms)
    → admins p ms ≤ admins p (keep (without i) ms) + 1
unfolding without
admins-keep p i [] d = omega arith
admins-keep p i (m ∷ ms) (fresh, d) = elim (Bool-cases (m.id == i)) [
  | inl e ↦
      let same =
        absent-keep i ms
          (subst (λ j. contains (map (λ n. n.id) ms) j ≡ false) ((==_iff m.id i).0 e) fresh) in
      rw (e, same) (ground arith)
  | inr e ↦ rw e (ground (arith, admins-keep p i ms d))
]

unfoldable pub Occurs : ProjectMembership → List ProjectMembership → Type 0
Occurs m [] = ⊥
Occurs m (x ∷ xs) = (x ≡ m) ⊎ Occurs m xs

pub Occurs-keep :
    (f : ProjectMembership → Bool) (m : ProjectMembership) (ms rest : List ProjectMembership)
    → keep f ms ≡ m ∷ rest
    → Occurs m ms × (f m ≡ true)
unfolding Occurs
Occurs-keep f m [] rest e = ground (arith, e)
Occurs-keep f m (x ∷ xs) rest e = elim (Bool-cases (f x)) [
  | inl h ↦ let same : x ≡ m = ground (arith, h) in (inl same, subst (λ y. f y ≡ true) same h)
  | inr h ↦ let (o, k) = Occurs-keep f m xs rest (ground (arith, h)) in (inr o, k)
]

pub contains-Occurs :
    (m : ProjectMembership) (ms : List ProjectMembership)
    → Occurs m ms
    → contains (map (λ n. n.id) ms) m.id ≡ true
unfolding Occurs
contains-Occurs m [] o = elim o [ ]
contains-Occurs m (x ∷ xs) (inl e) = rw (e, beq_refl m.id) refl
contains-Occurs m (x ∷ xs) (inr o) = ground (arith, contains-Occurs m xs o)

-- A row that is no admin of the project can go.
admins-other :
    (p : Text) (m : ProjectMembership) (ms : List ProjectMembership)
    → is_admin_of p m ≡ false
    → Distinct (map (λ n. n.id) ms)
    → Occurs m ms
    → admins p (keep (without m.id) ms) ≡ admins p ms
unfolding Occurs without
admins-other p m [] h d o = elim o [ ]
admins-other p m (x ∷ xs) h (fresh, d) (inl e) =
    let gone =
      absent-keep m.id xs (subst (λ y. contains (map (λ n. n.id) xs) y.id ≡ false) e fresh) in
    let no_admin = subst (λ y. is_admin_of p y ≡ false) (sym e) h in
    rw (ap (λ y. y.id) e, beq_refl m.id, gone, no_admin) refl
admins-other p m (x ∷ xs) h (fresh, d) (inr o) =
    let present = contains-Occurs m xs o in
    elim (Bool-cases (x.id == m.id)) [
      | inl e ↦ cc (
          sym present
          ∙ subst (λ i. contains (map (λ n. n.id) xs) i ≡ false) ((==_iff x.id m.id).0 e) fresh)
      | inr e ↦ rw e (ground (arith, admins-other p m xs h d o))
    ]

HasAdmin-removal :
    (q p u : Text) (m : ProjectMembership) (t : Tables)
    → keep (is_of p u) t.memberships ≡ m ∷ []
    → is_last_admin p m t ≡ false
    → HasAdmin q t
    → HasAdmin q (delete_membership m.id t)
unfolding is_last_admin delete_membership without
HasAdmin-removal q p u m t e guarded (sound, some_admin) =
    let (o, here) = Occurs-keep (is_of p u) m t.memberships [] e in
    let kept = delete_membership-IsSound m.id t sound in
    elim (Bool-cases (is_admin_of q m)) [
      | inr h ↦ (kept, ground (arith, some_admin, admins-other q m t.memberships h sound.ids o))
      | inl h ↦
          let same : q ≡ p =
            sym ((==_iff m.project_id q).0 (ground arith))
            ∙ (==_iff m.project_id p).0 (ground arith) in
          let two : 1 < admins q t.memberships = rw same (ground arith) in
          (kept, ground (arith, two, admins-keep q m.id t.memberships sound.ids))
    ]

HasAdmin-Kept : (q : Text) → Kept (HasAdmin q)
unfolding insert_project insert_membership
HasAdmin-Kept q = record {
  project = λ p t t' e h. (IsSound-Kept.project p t t' e h.0, ground (arith, e, h.1));
  membership = λ m t t' e h. (IsSound-Kept.membership m t t' e h.0, ground (arith, e, h.1));
  removal = HasAdmin-removal q;
}

-- Where the constraints of the tables hold and a project has an admin, it has one after any calls
-- too, in what the session sees and in what a rollback would leave, provided that what other
-- sessions do in the gaps keeps the constraints and an admin as well and that, between the count of
-- the admins and the delete, it also keeps an admin besides the row to be deleted, whichever row
-- that is.
pub perform_all-HasAdmin :
    (project_name : Text) (os : List Operation) (s : Session)
    → All (OthersKeep (HasAdmin project_name)) os
    → HasAdmin project_name s.saved
    → HasAdmin project_name s.current
    → Both (HasAdmin project_name) (perform_all os s)
perform_all-HasAdmin project_name os s k h c =
    Both-perform_all (HasAdmin project_name) (HasAdmin-Kept project_name) os s k (h, c)
