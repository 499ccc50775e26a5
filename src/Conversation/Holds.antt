-- ===== src/Conversation/Holds.antt =====
-- services/conversation.py: what the daily sweep does to a thread under a legal hold.
use memory_hub.Base.{
  ℕ, suc, Text, true, false, Option, none, some, List, [], ◌∷◌, map, not, ◌&&◌, ◌||◌, ◌==◌, ◌≡◌,
  nat_eq, text_eq, codes, if◌then◌else◌, leb, length, is_nil, any, keep, All, All-find, refl, ◌∙◌,
  inl, inr, arith, Bool-cases, Option-cases, Outcome-cases, ==_iff,
}
use memory_hub.Memory.Store.{Services}
use memory_hub.Memory.Delete.{delete_memory}
use memory_hub.Conversation.{
  ConversationThread, ConversationMessage, ConversationExtraction, Tables,
}
use memory_hub.Conversation.Threads.{save_thread}
use memory_hub.Conversation.Retention.{
  find_any_thread, message_refs, cascade_delete, cascade_to_memories, cascade_mode, log_purge,
  marked_deleted, without_s3, soft_delete_thread, remove_thread, hard_delete_thread, carried_on,
  sweep_expired, sweep_deleted, is_due, is_expired, is_removable, run_retention_sweep,
}
use memory_hub.Conversation.Contents.{
  shares, cascade_to_memories-objects, any-keep-false, message_refs-alone, delete_contents-other,
}

-- The thread is there, every row with its id is under a hold, and its messages are those given; no
-- message of another thread shares the object `k`, and the bucket has the given objects under it.
pub record IsKept (i : ℕ) (k : Text) (messages : List ConversationMessage)
    (objects : List (Text × Text)) (tables : Tables) : Type 0 where
  pub held : All (λ t. (t.id == i && not t.legal_hold) ≡ false) tables.threads
  pub there : any (λ t. t.id == i) tables.threads ≡ true
  pub unchanged : keep (λ m. m.thread_id == i) tables.messages ≡ messages
  pub alone : any (shares i k) tables.messages ≡ false
  pub stored : keep (λ o. o.0 == k) tables.memories.objects ≡ objects

cascade_delete-threads :
    (services : Services) (now : ℕ) (es : List ConversationExtraction) (tables : Tables)
    → ((cascade_delete services now es tables).1.threads ≡ tables.threads)
      × ((cascade_delete services now es tables).1.messages ≡ tables.messages)
unfolding cascade_delete
cascade_delete-threads services now [] tables = (refl, refl)
cascade_delete-threads services now (e ∷ es) tables =
    elim (Bool-cases
      (leb (length (keep (λ x. x.memory_node_id == e.memory_node_id) tables.extractions)) 1)) [
        | inr many ↦ rw many (cascade_delete-threads services now es tables)
        | inl last ↦
            elim (Outcome-cases (delete_memory services now e.memory_node_id tables.memories)) [
              | inr (x, f) ↦ rw (last, f) (cascade_delete-threads services now es tables)
              | inl ((summary, memories), f) ↦
                  rw (last, f)
                    (cascade_delete-threads services now es (record tables { memories = memories }))
            ]
      ]

pub cascade_to_memories-threads :
    (services : Services) (now thread_id : ℕ) (mode : Text) (tables : Tables)
    → ((cascade_to_memories services now thread_id mode tables).1.threads ≡ tables.threads)
      × ((cascade_to_memories services now thread_id mode tables).1.messages ≡ tables.messages)
unfolding cascade_to_memories
cascade_to_memories-threads services now thread_id mode tables =
    let extractions = keep (λ x. x.thread_id == thread_id) tables.extractions in
    elim (Bool-cases (mode == codes "preserve" || is_nil extractions)) [
      | inl e ↦ rw (cascade_to_memories, e) (refl, refl)
      | inr e ↦ elim (Bool-cases (mode == codes "orphan")) [
        | inl f ↦ rw (cascade_to_memories, e, f) (refl, refl)
        | inr f ↦
            rw (cascade_to_memories, e, f) (cascade_delete-threads services now extractions tables)
      ]
    ]

module _ (i : ℕ) where
  save_held :
      (thread : ConversationThread) (ts : List ConversationThread)
      → (thread.id == i && not thread.legal_hold) ≡ false
      → All (λ t. (t.id == i && not t.legal_hold) ≡ false) ts
      → All
          (λ t. (t.id == i && not t.legal_hold) ≡ false)
          (map (λ t. if t.id == thread.id then thread else t) ts)
  save_held thread [] h hs = tt
  save_held thread (t ∷ ts) h (k, ks) = elim (Bool-cases (t.id == thread.id)) [
    | inl e ↦ rw e (h, save_held thread ts h ks)
    | inr e ↦ rw e (k, save_held thread ts h ks)
  ]

  save_there :
      (thread : ConversationThread) (ts : List ConversationThread)
      → any (λ t. t.id == i) ts ≡ true
      → any (λ t. t.id == i) (map (λ t. if t.id == thread.id then thread else t) ts) ≡ true
  save_there thread [] h = ground arith
  save_there thread (t ∷ ts) h = ground (arith, save_there thread ts, ==_iff t.id thread.id)

  remove_held :
      (j : ℕ) (ts : List ConversationThread)
      → All (λ t. (t.id == i && not t.legal_hold) ≡ false) ts
      → All (λ t. (t.id == i && not t.legal_hold) ≡ false) (keep (λ t. not (t.id == j)) ts)
  remove_held j [] hs = tt
  remove_held j (t ∷ ts) (k, ks) = elim (Bool-cases (t.id == j)) [
    | inl e ↦ rw e (remove_held j ts ks)
    | inr e ↦ rw e (k, remove_held j ts ks)
  ]

  remove_there :
      (j : ℕ) (ts : List ConversationThread)
      → (j == i) ≡ false
      → any (λ t. t.id == i) ts ≡ true
      → any (λ t. t.id == i) (keep (λ t. not (t.id == j)) ts) ≡ true
  remove_there j [] e h = ground arith
  remove_there j (t ∷ ts) e h =
      ground (arith, remove_there j ts e, ==_iff t.id j, ==_iff t.id i, ==_iff j i)

  remove_messages :
      (j : ℕ) (ms : List ConversationMessage)
      → (j == i) ≡ false
      → keep (λ m. m.thread_id == i) (keep (λ m. not (m.thread_id == j)) ms)
        ≡ keep (λ m. m.thread_id == i) ms
  remove_messages j [] e = refl
  remove_messages j (m ∷ ms) e =
      ground (arith, remove_messages j ms e, ==_iff m.thread_id j, ==_iff m.thread_id i, ==_iff j i)

  -- A thread with the id that a lookup finds is under the hold.
  found_held :
      (tenant_id : Text) (thread_id : ℕ) (k : Text) (messages : List ConversationMessage)
      (objects : List (Text × Text)) (tables : Tables) (thread : ConversationThread)
      → IsKept i k messages objects tables
      → find_any_thread tenant_id thread_id tables ≡ some thread
      → ((thread.id == i && not thread.legal_hold) ≡ false) × (thread.id ≡ thread_id)
  unfolding find_any_thread
  found_held tenant_id thread_id k messages objects tables thread kept found =
      let (held, test) = All-find _ _ tables.threads thread kept.held found in
      (held, (==_iff thread.id thread_id).0 (ground (arith, test)))

  module _ (services : Services) (now : ℕ) (k : Text) (messages : List ConversationMessage)
      (objects : List (Text × Text)) where
    marked_held :
        (thread : ConversationThread)
        → (thread.id == i && not thread.legal_hold) ≡ false
        → ((marked_deleted services now thread).id == i
            && not (marked_deleted services now thread).legal_hold)
          ≡ false
    unfolding marked_deleted
    marked_held thread h = ground arith

    soft_delete-IsKept :
        (log_id : ℕ) (tenant_id : Text) (thread_id : ℕ) (purged_by reason : Text)
        (mode : Option Text) (tables : Tables)
        → IsKept i k messages objects tables
        → IsKept i k messages objects (
            carried_on
              (soft_delete_thread services now log_id tenant_id thread_id purged_by reason mode
                tables)
              tables)
    unfolding soft_delete_thread save_thread log_purge
    soft_delete-IsKept log_id tenant_id thread_id purged_by reason mode tables kept =
        elim (Option-cases (find_any_thread tenant_id thread_id tables)) [
          | inl e ↦ rw (soft_delete_thread, e) kept
          | inr (thread, e) ↦
              let marked = marked_deleted services now thread in
              let same =
                cascade_to_memories-threads (without_s3 services now) now thread_id
                  (cascade_mode mode thread) (save_thread marked tables) in
              let (held, _) =
                found_held tenant_id thread_id k messages objects tables thread kept e in
              rw (soft_delete_thread, e)
                (record {
                  held =
                      rw (same.0)
                        (save_held marked tables.threads (marked_held thread held) kept.held);
                  there = rw (same.0) (save_there marked tables.threads kept.there);
                  unchanged = rw (same.1) kept.unchanged;
                  alone = rw (same.1) kept.alone;
                  stored =
                      rw
                        (cascade_to_memories-objects (without_s3 services now) now refl thread_id
                          (cascade_mode mode thread) (save_thread marked tables))
                        kept.stored;
                })
        ]

    remove_thread-IsKept :
        (j : ℕ) (tables : Tables)
        → (j == i) ≡ false
        → IsKept i k messages objects tables
        → IsKept i k messages objects (remove_thread services now j tables)
    unfolding remove_thread
    remove_thread-IsKept j tables e kept = record {
      held = remove_held j tables.threads kept.held;
      there = remove_there j tables.threads e kept.there;
      unchanged = remove_messages j tables.messages e ∙ kept.unchanged;
      alone = any-keep-false _ (shares i k) tables.messages kept.alone;
      stored = elim (Bool-cases services.has_s3) [
        | inr f ↦ rw f kept.stored
        | inl f ↦ rw f (
            delete_contents-other (message_refs j tables.messages) k tables.memories.objects
              (message_refs-alone i j k tables.messages e kept.alone)
            ∙ kept.stored)
      ];
    }

    hard_delete-IsKept :
        (tenant_id : Text) (thread_id : ℕ) (tables : Tables)
        → IsKept i k messages objects tables
        → IsKept i k messages objects
            (carried_on (hard_delete_thread services now tenant_id thread_id tables) tables)
    unfolding hard_delete_thread
    hard_delete-IsKept tenant_id thread_id tables kept =
        elim (Option-cases (find_any_thread tenant_id thread_id tables)) [
          | inl e ↦ rw (hard_delete_thread, e) kept
          | inr (thread, e) ↦
              let (held, same) =
                found_held tenant_id thread_id k messages objects tables thread kept e in
              elim (Bool-cases thread.legal_hold) [
                | inl f ↦ rw (hard_delete_thread, e, f) kept
                | inr f ↦
                    let away : (thread.id == i) ≡ false = ground (arith, held, f) in
                    let other : (thread_id == i) ≡ false = rw same at away in
                    rw (hard_delete_thread, e, f) (remove_thread-IsKept thread_id tables other kept)
              ]
        ]

    sweep_expired-IsKept :
        (fresh : ℕ → ℕ) (n : ℕ) (ts : List ConversationThread) (tables : Tables)
        → IsKept i k messages objects tables
        → IsKept i k messages objects (sweep_expired services now fresh n ts tables)
    unfolding sweep_expired
    sweep_expired-IsKept fresh n [] tables kept = kept
    sweep_expired-IsKept fresh n (t ∷ ts) tables kept = sweep_expired-IsKept fresh (suc n) ts _ (
        soft_delete-IsKept (fresh n) t.tenant_id t.id (codes "retention_sweep") (codes "retention")
          none tables kept)

    sweep_deleted-IsKept :
        (ts : List ConversationThread) (tables : Tables)
        → IsKept i k messages objects tables
        → IsKept i k messages objects (sweep_deleted services now ts tables)
    unfolding sweep_deleted
    sweep_deleted-IsKept [] tables kept = kept
    sweep_deleted-IsKept (t ∷ ts) tables kept = sweep_deleted-IsKept ts _ (step t tables kept)
      where
        step :
            (t : ConversationThread) (tables : Tables)
            → IsKept i k messages objects tables
            → IsKept i k messages objects (
                if is_due services now t
                then carried_on (hard_delete_thread services now t.tenant_id t.id tables) tables
                else tables)
        step t tables kept = elim (Bool-cases (is_due services now t)) [
          | inl e ↦ rw e (hard_delete-IsKept t.tenant_id t.id tables kept)
          | inr e ↦ rw e kept
        ]

    -- The daily sweep never removes a thread under a legal hold, at any time and whatever its status:
    -- the thread stays, under the hold, with exactly its rows of messages, and an object of the bucket
    -- stays with its content where no message of another thread refers to it.
    pub run_retention_sweep-IsKept :
        (fresh : ℕ → ℕ) (tables : Tables)
        → IsKept i k messages objects tables
        → IsKept i k messages objects (run_retention_sweep services now fresh tables)
    unfolding run_retention_sweep
    run_retention_sweep-IsKept fresh tables kept =
        let swept =
          sweep_expired services now fresh 0 (keep (is_expired services now) tables.threads)
            tables in
        sweep_deleted-IsKept (keep (is_removable services now) swept.threads) swept
          (sweep_expired-IsKept fresh 0 (keep (is_expired services now) tables.threads) tables kept)
