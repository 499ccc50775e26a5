-- ===== src/Memory/Contradictions.antt =====
-- services/memory.py: report_contradiction and resolve_contradiction.
use memory_hub.Base.{
  ℕ, Text, Bool, true, false, Option, none, some, List, [], ◌∷◌, ◌++◌, map, not, ◌&&◌, ◌==◌, nat_eq,
  text_eq, codes, if◌then◌else◌, is_some, length, keep, find, contains, Outcome, returned, raised,
}
use memory_hub.Memory.{MemoryNode}
use memory_hub.Memory.Store.{
  Store, ServiceError, memory_not_found, contradiction_not_found, already_resolved,
  invalid_resolution_action, ContradictionReport,
}

unfoldable pub unresolved : ℕ → List ContradictionReport → ℕ
unresolved memory_id reports =
    length (keep (λ r. r.memory_id == memory_id && not r.resolved) reports)

module _ (fresh : ℕ → ℕ) (now : ℕ) where
  unfoldable pub new_report : MemoryNode → Text → ℕ → Text → ContradictionReport
  new_report row observed_behavior confidence reporter = record {
    id = fresh 0;
    memory_id = row.id;
    observed_behavior = observed_behavior;
    confidence = confidence;
    reporter = reporter;
    created_at = now;
    resolved = false;
    resolved_at = none;
    resolution_action = none;
    resolved_by = none;
    tenant_id = row.tenant_id;
  }

  unfoldable pub report_contradiction :
      ℕ → Text → ℕ → Text → Store → Outcome ServiceError (ℕ × Store)
  unfolding new_report
  report_contradiction memory_id observed_behavior confidence reporter store =
      elim (find (λ n. n.id == memory_id && not (is_some n.deleted_at)) store.nodes) [
        | none ↦ raised (memory_not_found memory_id)
        | some row ↦
            let reports =
              store.reports ++ new_report row observed_behavior confidence reporter ∷ [] in
            returned (unresolved memory_id reports, record store { reports = reports })
      ]

abbrev pub valid_resolution_actions : List Text
valid_resolution_actions =
    codes "accept_new" ∷ codes "keep_old" ∷ codes "mark_both_invalid" ∷ codes "manual_merge" ∷ []

-- `None`, or one of the four.
abbrev pub is_valid_action : Option Text → Bool
is_valid_action none = true
is_valid_action (some action) = contains valid_resolution_actions action

unfoldable pub set_resolved :
    ℕ → ℕ → Option Text → Option Text → ContradictionReport → ContradictionReport
set_resolved now id resolution_action actor_id r =
    if r.id == id
    then record r {
      resolved = true;
      resolved_at = some now;
      resolution_action = resolution_action;
      resolved_by = actor_id;
    }
    else r

abbrev action_text : Option Text → Text
action_text none = []
action_text (some t) = t

unfoldable pub resolve_contradiction :
    ℕ → ℕ → Option Text → Option Text → Store → Outcome ServiceError Store
resolve_contradiction now id resolution_action actor_id store =
    if is_valid_action resolution_action
    then elim (find (λ r. r.id == id) store.reports) [
      | none ↦ raised (contradiction_not_found id)
      | some report ↦
          if report.resolved
          then raised (already_resolved id)
          else returned (record store {
            reports = map (set_resolved now id resolution_action actor_id) store.reports;
          })
    ]
    else raised (invalid_resolution_action (action_text resolution_action))
