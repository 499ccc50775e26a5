-- ===== src/Conversation/Retention.antt =====
-- services/conversation.py: deletion of threads, the purges and the daily sweep. The bucket and the
-- memories are those of the memory service, whose delete_memory the cascade calls.
use memory_hub.Base.{
  ℕ, suc, ◌+◌, ◌*◌, Text, Bool, false, Option, none, some, List, [], ◌∷◌, ◌++◌, not, ◌&&◌, ◌||◌,
  ◌==◌, nat_eq, text_eq, codes, if◌then◌else◌, ltb, leb, is_some, is_nil, length, find, keep,
  Outcome, returned, raised,
}
use memory_hub.Authz.{get_or}
use memory_hub.Memory.Temporal.{day}
use memory_hub.Memory.Store.{Services}
use memory_hub.Memory.Delete.{delete_memory, delete_contents}
use memory_hub.Conversation.{
  RetentionPolicy, ConversationThread, ConversationMessage, ConversationExtraction, PurgeLog,
  Tables, ThreadError, thread_not_found, legal_hold_active,
}
use memory_hub.Conversation.Threads.{save_thread}

-- The lookup of the deletions finds threads that are soft-deleted as well.
unfoldable pub find_any_thread : Text → ℕ → Tables → Option ConversationThread
find_any_thread tenant_id thread_id tables =
    find (λ t. t.id == thread_id && t.tenant_id == tenant_id) tables.threads

module _ (services : Services) (now : ℕ) where
  -- The loop over the extraction records of a thread: the memory goes with its last record. A failed
  -- delete is logged.
  unfoldable pub cascade_delete : List ConversationExtraction → Tables → ℕ × Tables
  unfolding delete_memory
  cascade_delete [] tables = (0, tables)
  cascade_delete (e ∷ es) tables =
      let refs = length (keep (λ x. x.memory_node_id == e.memory_node_id) tables.extractions) in
      let skipped = cascade_delete es tables in
      let after : ℕ × Tables = elim (delete_memory services now e.memory_node_id tables.memories) [
        | raised x ↦ skipped
        | returned (summary, memories) ↦
            let (count, last) = cascade_delete es (record tables { memories = memories }) in
            (count + 1, last)
      ] in
      if leb refs 1 then after else skipped

  unfoldable pub cascade_to_memories : ℕ → Text → Tables → ℕ × Tables
  unfolding cascade_delete
  cascade_to_memories thread_id mode tables =
      let extractions = keep (λ x. x.thread_id == thread_id) tables.extractions in
      if mode == codes "preserve" || is_nil extractions
      then (0, tables)
      else if mode == codes "orphan"
      then (
        length extractions,
        record tables {
          extractions = keep (λ x. not (x.thread_id == thread_id)) tables.extractions;
        },
      )
      else cascade_delete extractions tables

-- `cascade_override or retention.get("cascade_to_memories", "delete")`
abbrev cascade_of : Option RetentionPolicy → Text
cascade_of none = codes "delete"
cascade_of (some p) = get_or (codes "delete") p.cascade_to_memories

unfoldable pub cascade_mode : Option Text → ConversationThread → Text
cascade_mode none thread = cascade_of thread.retention_policy
cascade_mode (some []) thread = cascade_of thread.retention_policy
cascade_mode (some (c ∷ cs)) thread = c ∷ cs

unfoldable pub log_purge : ℕ → ℕ → Text → Text → Option Text → Tables → Tables
log_purge id thread_id purged_by reason incident_ref tables =
    let entry : PurgeLog = record {
      id = id;
      resource_type = codes "thread";
      resource_id = thread_id;
      purged_by = purged_by;
      reason = reason;
      incident_ref = incident_ref;
    } in
    record tables { purge_log = tables.purge_log ++ entry ∷ [] }

-- The references of a thread's messages.
unfoldable pub message_refs : ℕ → List ConversationMessage → List Text
message_refs thread_id [] = []
message_refs thread_id (m ∷ ms) =
    let rest = message_refs thread_id ms in
    if m.thread_id == thread_id && m.storage_type == codes "s3"
    then elim m.content_ref [ none ↦ rest | some ref ↦ ref ∷ rest ]
    else rest

-- The tables that an operation leaves; the sweep logs an exception and goes on with them.
abbrev pub carried_on : {R : Type 0} → Outcome ThreadError (R × Tables) → Tables → Tables
carried_on (returned (r, after)) tables = after
carried_on (raised e) tables = tables

module _ (services : Services) (now : ℕ) where
  unfoldable pub marked_deleted : ConversationThread → ConversationThread
  marked_deleted thread =
      if thread.legal_hold
      then record thread { status = codes "pending_deletion" }
      else record thread { status = codes "deleted"; deleted_at = some now }

  -- The service gets no adapter here, so the cascade leaves the bucket as it is.
  abbrev pub without_s3 : Services
  without_s3 = record services { has_s3 = false }

  unfoldable pub soft_delete_thread :
      ℕ
      → Text
      → ℕ
      → Text
      → Text
      → Option Text
      → Tables
      → Outcome ThreadError (ConversationThread × Tables)
  unfolding find_any_thread save_thread marked_deleted cascade_to_memories cascade_mode log_purge
  soft_delete_thread log_id tenant_id thread_id purged_by reason cascade_override tables =
      elim (find_any_thread tenant_id thread_id tables) [
        | none ↦ raised (thread_not_found thread_id)
        | some thread ↦
            let marked = marked_deleted thread in
            let (count, cascaded) =
              cascade_to_memories without_s3 now thread_id (cascade_mode cascade_override thread)
                (save_thread marked tables) in
            returned (marked, log_purge log_id thread_id purged_by reason none cascaded)
      ]

  -- The rows of a thread and what cascades from them, then the objects of its messages.
  unfoldable pub remove_thread : ℕ → Tables → Tables
  unfolding message_refs
  remove_thread thread_id tables =
      let refs = message_refs thread_id tables.messages in
      let memories = tables.memories in
      record tables {
        threads = keep (λ t. not (t.id == thread_id)) tables.threads;
        messages = keep (λ m. not (m.thread_id == thread_id)) tables.messages;
        extractions = keep (λ x. not (x.thread_id == thread_id)) tables.extractions;
        memories =
            if services.has_s3
            then record memories { objects = delete_contents refs memories.objects }
            else memories;
      }

  unfoldable pub hard_delete_thread : Text → ℕ → Tables → Outcome ThreadError (Unit × Tables)
  unfolding find_any_thread remove_thread
  hard_delete_thread tenant_id thread_id tables =
      elim (find_any_thread tenant_id thread_id tables) [
        | none ↦ raised (thread_not_found thread_id)
        | some thread ↦
            if thread.legal_hold
            then raised (legal_hold_active thread_id)
            else returned (tt, remove_thread thread_id tables)
      ]

  -- The purge of an administrator overrides a legal hold.
  unfoldable pub admin_purge_thread :
      ℕ → Text → ℕ → Text → Text → Tables → Outcome ThreadError (Unit × Tables)
  unfolding find_any_thread cascade_to_memories log_purge remove_thread
  admin_purge_thread log_id tenant_id thread_id purged_by justification tables =
      elim (find_any_thread tenant_id thread_id tables) [
        | none ↦ raised (thread_not_found thread_id)
        | some thread ↦
            let (count, cascaded) =
              cascade_to_memories services now thread_id (codes "delete") tables in
            returned (
              tt,
              remove_thread thread_id (
                  log_purge log_id thread_id purged_by (codes "admin") (some justification)
                    cascaded),
            )
      ]

  unfoldable pub spill_response_thread :
      ℕ → Text → ℕ → Text → Text → Bool → Tables → Outcome ThreadError (Unit × Tables)
  unfolding find_any_thread log_purge remove_thread
  spill_response_thread log_id tenant_id thread_id purged_by incident_ref silent tables =
      elim (find_any_thread tenant_id thread_id tables) [
        | none ↦ raised (thread_not_found thread_id)
        | some thread ↦ returned (
          tt,
          remove_thread thread_id (
              if silent
              then tables
              else log_purge log_id thread_id purged_by (codes "spill") (some incident_ref) tables),
        )
      ]

  unfoldable pub is_expired : ConversationThread → Bool
  is_expired t =
      t.status == codes "active" && elim t.expires_at [ none ↦ false | some at ↦ leb at now ]

  -- Phase 1, over the threads that the query has given.
  unfoldable pub sweep_expired : (ℕ → ℕ) → ℕ → List ConversationThread → Tables → Tables
  unfolding soft_delete_thread
  sweep_expired fresh i [] tables = tables
  sweep_expired fresh i (t ∷ ts) tables = sweep_expired fresh (suc i) ts (
      carried_on
        (soft_delete_thread (fresh i) t.tenant_id t.id (codes "retention_sweep") (codes "retention")
          none tables)
        tables)

  unfoldable pub is_removable : ConversationThread → Bool
  is_removable t = t.status == codes "deleted" && is_some t.deleted_at && not t.legal_hold

  abbrev min_retention : Option RetentionPolicy → ℕ
  min_retention none = 30
  min_retention (some p) = get_or 30 p.min_retention_days

  unfoldable pub is_due : ConversationThread → Bool
  is_due t = elim t.deleted_at [
    | none ↦ false
    | some at ↦ not (ltb now (at + min_retention t.retention_policy * day))
  ]

  -- Phase 2.
  unfoldable pub sweep_deleted : List ConversationThread → Tables → Tables
  unfolding hard_delete_thread is_due
  sweep_deleted [] tables = tables
  sweep_deleted (t ∷ ts) tables =
      sweep_deleted ts (
        if is_due t then carried_on (hard_delete_thread t.tenant_id t.id tables) tables else tables)

  unfoldable pub run_retention_sweep : (ℕ → ℕ) → Tables → Tables
  unfolding sweep_expired is_expired sweep_deleted is_removable
  run_retention_sweep fresh tables =
      let swept = sweep_expired fresh 0 (keep is_expired tables.threads) tables in
      sweep_deleted (keep is_removable swept.threads) swept
