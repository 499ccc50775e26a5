-- ===== src/Memory/Search.antt =====
-- services/memory.py, `_build_search_filters`: the SQL conditions of every search.
use memory_hub.Base.{
  ℕ, ◌+◌, Text, Bool, true, false, not, ◌&&◌, Option, none, some, List, [], ◌∷◌, ◌++◌, ◌==◌,
  text_eq, nat_eq, contains, any, all, if◌then◌else◌, codes, ltb, leb, is_some, map,
}
use memory_hub.Memory.{MemoryNode, MemoryRelationship}
use memory_hub.Authz.{campaign, project, role, get_or}
use memory_hub.Authz.Visibility.{Owner, anyone, exactly, among, Filter}

-- The keyword arguments; `lower` is the database's and Python's, and `now` is the database's clock.
pub record Query : Type 0 where
  pub scope : Option Text
  pub owner_id : Option Text
  pub current_only : Bool
  pub authorized_scopes : Option Filter
  pub tenant_id : Text
  pub campaign_ids : Option (List Text)
  pub project_ids : Option (List Text)
  pub role_names : Option (List Text)
  pub entity_names : List Text
  pub content_type : Option Text
  pub temporal_status : Option Text
  pub include_statuses : List Text
  pub source : Option Text
  pub exclude_source : Option Text

abbrev pub Condition : Type 0
Condition = MemoryNode → Bool

-- `set or None` as a list that is empty for both.
abbrev pub ids_of : Option (List Text) → List Text
ids_of = get_or []

-- `column.in_(ids)`, which a NULL never is.
abbrev pub column_in : List Text → Option Text → Bool
column_in ids none = false
column_in ids (some x) = contains ids x

abbrev pub is_empty : List Text → Bool
is_empty [] = true
is_empty (x ∷ xs) = false

abbrev pub among_ids : Owner → List Text
among_ids (among ids) = ids
among_ids anyone = []
among_ids (exactly o) = []

-- `project_ids`, or else the list that the authorized scopes carry.
unfoldable pub effective_project_ids : Option (List Text) → Owner → List Text
effective_project_ids project_ids owner =
    if is_empty (ids_of project_ids) then among_ids owner else ids_of project_ids

abbrev pub when_any : List Text → Condition → List Condition
when_any [] c = []
when_any (x ∷ xs) c = c ∷ []

unfoldable pub owner_condition : Text → Owner → Condition
owner_condition name anyone row = row.scope == name
owner_condition name (exactly o) row = row.scope == name && row.owner_id == o
-- SQL compares the owner with a list of values, and no text equals that
owner_condition name (among ids) row = false

unfoldable pub scope_condition : Query → Text × Owner → List Condition
unfolding owner_condition effective_project_ids
scope_condition q (name, owner) =
    if name == campaign
    then when_any (ids_of q.campaign_ids)
        (λ row. row.scope == campaign && contains (ids_of q.campaign_ids) row.owner_id)
    else if name == project
    then (let ids = effective_project_ids q.project_ids owner in
        when_any ids (λ row. row.scope == project && column_in ids row.scope_id))
    else if name == role
    then when_any (ids_of q.role_names)
        (λ row. row.scope == role && column_in (ids_of q.role_names) row.scope_id)
    else owner_condition name owner ∷ []

unfoldable pub scope_conditions : Query → Filter → List Condition
unfolding scope_condition
scope_conditions q [] = []
scope_conditions q (s ∷ rest) = scope_condition q s ++ scope_conditions q rest

-- `None` if no scope is authorized, or none of them can match.
unfoldable pub authorized_condition : Query → Option (List Condition)
unfolding scope_conditions
authorized_condition q = elim q.authorized_scopes [
  | none ↦ some []
  | some f ↦ elim (scope_conditions q f) [
    | [] ↦ none
    | c ∷ cs ↦ some ((λ row. any (λ d. d row) (c ∷ cs)) ∷ [])
  ]
]

unfoldable pub base_conditions : Query → List Condition
base_conditions q =
    (λ row. not (is_some row.deleted_at))
    ∷ (λ row. row.tenant_id == q.tenant_id)
    ∷ (λ row.
        if is_empty q.include_statuses
        then row.status == codes "active"
        else contains q.include_statuses row.status)
    ∷ (λ row. if q.current_only then row.is_current else true)
    ∷ (λ row. elim q.scope [ none ↦ not (row.scope == codes "entity") | some s ↦ row.scope == s ])
    ∷ (λ row. elim q.owner_id [
      | none ↦ true
      | some o ↦
          if elim q.scope [ none ↦ false | some s ↦ s == project ]
            && not (is_empty (ids_of q.project_ids))
          then true
          else row.owner_id == o
    ])
    ∷ []

module _ (lower : Text → Text) (now : ℕ) (nodes : List MemoryNode)
    (edges : List MemoryRelationship) where
  -- The subquery: a live edge of the tenant says that the row mentions an entity of that name.
  unfoldable pub names_entity : Query → ℕ → Bool
  names_entity q id =
      any
        (λ node.
          node.id == id
          && node.scope == codes "entity"
          && contains (map lower q.entity_names) (lower node.content)
          && node.tenant_id == q.tenant_id
          && not (is_some node.deleted_at))
        nodes

  unfoldable pub mentions : Query → Condition
  unfolding names_entity
  mentions q row =
      any
        (λ edge.
          edge.source_id == row.id
          && names_entity q edge.target_id
          && edge.relationship_type == codes "mentions"
          && not (is_some edge.valid_until)
          && edge.tenant_id == q.tenant_id)
        edges

  abbrev pub seven_days : ℕ
  seven_days = 604_800_000_000

  unfoldable pub temporal_condition : Text → Condition
  temporal_condition status row =
      if status == codes "current"
      then elim row.relevant_until [ none ↦ true | some t ↦ ltb now t ]
      else if status == codes "expired"
      then elim row.relevant_until [ none ↦ false | some t ↦ leb t now ]
      else if status == codes "expiring_soon"
      then elim row.relevant_until [ none ↦ false | some t ↦ ltb now t && leb t (now + seven_days) ]
      else true

  unfoldable pub narrowing_conditions : Query → List Condition
  narrowing_conditions q =
      (λ row. if is_empty q.entity_names then true else mentions q row)
      ∷ (λ row. elim q.content_type [
        | none ↦ not (row.content_type == codes "synopsis")
        | some t ↦ row.content_type == t
      ])
      ∷ (λ row. elim q.source [ none ↦ true | some s ↦ row.source == s ])
      ∷ (λ row. elim q.exclude_source [ none ↦ true | some s ↦ not (row.source == s) ])
      ∷ (λ row. elim q.temporal_status [ none ↦ true | some s ↦ temporal_condition s row ])
      ∷ []

  unfoldable pub build_search_filters : Query → Option (List Condition)
  build_search_filters q = elim (authorized_condition q) [
    | none ↦ none
    | some scoped ↦ some (base_conditions q ++ (scoped ++ narrowing_conditions q))
  ]

  -- A row of the answer passes all of them; with `None` there is no answer.
  unfoldable pub is_found : Query → Condition
  unfolding build_search_filters
  is_found q row = elim (build_search_filters q) [
    | none ↦ false
    | some conditions ↦ all (λ c. c row) conditions
  ]
