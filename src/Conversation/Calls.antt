-- ===== src/Conversation/Calls.antt =====
-- services/conversation.py: the states of the tables that the operations reach. The daily sweep is a
-- sequence of soft and hard deletes.
use memory_hub.Base.{
  ℕ, Text, Bool, true, false, Option, some, [], ◌==◌, ◌≡◌, nat_eq, text_eq, codes, any, refl, inl,
  inr, Bool-cases, Option-cases,
}
use memory_hub.Memory.Store.{Services}
use memory_hub.Memory.Reachability.{empty_store}
use memory_hub.Conversation.{ConversationThreadCreate, ConversationMessageCreate, Tables}
use memory_hub.Conversation.Threads.{
  ThreadServices, find_thread, create_thread, append_message, archive_thread, save_thread,
}
use memory_hub.Conversation.Forking.{fork_thread, share_thread}
use memory_hub.Conversation.Retention.{
  carried_on, find_any_thread, soft_delete_thread, hard_delete_thread, remove_thread,
  admin_purge_thread, spill_response_thread, cascade_to_memories, cascade_mode, log_purge,
  marked_deleted, without_s3,
}
use memory_hub.Conversation.Holds.{cascade_to_memories-threads}
use memory_hub.Conversation.Numbering.{
  IsNumbered, none-IsNumbered, removed-IsNumbered, append_message-IsNumbered,
  fork_thread-IsNumbered,
}

pub data Call (here : ThreadServices) (services : Services) : Tables → Tables → Type 0 where
  create :
      (fresh : ℕ → ℕ) (now : ℕ) (tenant_id : Text) (input : ConversationThreadCreate)
      (owner_id : Text) (actor_id driver_id : Option Text) (tables : Tables)
      → Call here services tables
          (create_thread fresh now tenant_id input owner_id actor_id driver_id tables).1
  append :
      (fresh : ℕ → ℕ) (now : ℕ) (tenant_id : Text) (thread_id : ℕ)
      (input : ConversationMessageCreate) (tables : Tables)
      → Call here services tables
          (carried_on (append_message fresh now tenant_id here thread_id input tables) tables)
  archive :
      (fresh : ℕ → ℕ) (now : ℕ) (tenant_id : Text) (thread_id : ℕ) (tables : Tables)
      → Call here services tables
          (carried_on (archive_thread fresh now tenant_id thread_id tables) tables)
  fork :
      (fresh : ℕ → ℕ) (now : ℕ) (tenant_id : Text) (thread_id n : ℕ) (owner_id : Text)
      (actor_id title : Option Text) (tables : Tables)
      → any (λ m. m.thread_id == fresh 0) tables.messages ≡ false
      → Call here services tables (
          carried_on
            (fork_thread fresh now tenant_id here thread_id n owner_id actor_id title tables)
            tables)
  share :
      (fresh : ℕ → ℕ) (now : ℕ) (tenant_id : Text) (thread_id : ℕ) (grantee level by : Text)
      (tables : Tables)
      → Call here services tables
          (carried_on (share_thread fresh now tenant_id thread_id grantee level by tables) tables)
  soft_delete :
      (now log_id : ℕ) (tenant_id : Text) (thread_id : ℕ) (by reason : Text) (mode : Option Text)
      (tables : Tables)
      → Call here services tables (
          carried_on
            (soft_delete_thread services now log_id tenant_id thread_id by reason mode tables)
            tables)
  hard_delete :
      (now : ℕ) (tenant_id : Text) (thread_id : ℕ) (tables : Tables)
      → Call here services tables
          (carried_on (hard_delete_thread services now tenant_id thread_id tables) tables)
  purge :
      (now log_id : ℕ) (tenant_id : Text) (thread_id : ℕ) (by why : Text) (tables : Tables)
      → Call here services tables (
          carried_on
            (admin_purge_thread services now log_id tenant_id thread_id by why tables)
            tables)
  spill :
      (now log_id : ℕ) (tenant_id : Text) (thread_id : ℕ) (by incident : Text) (silent : Bool)
      (tables : Tables)
      → Call here services tables (
          carried_on
            (spill_response_thread services now log_id tenant_id thread_id by incident silent
              tables)
            tables)

abbrev pub empty_tables : Tables
empty_tables = record {
  threads = [];
  messages = [];
  extractions = [];
  purge_log = [];
  memories = empty_store;
}

pub data Reached (here : ThreadServices) (services : Services) : Tables → Type 0 where
  begin : Reached here services empty_tables
  then_call :
      {before after : Tables}
      → Reached here services before
      → Call here services before after
      → Reached here services after

module _ (services : Services) (now : ℕ) where
  removed :
      (j : ℕ) (tables : Tables)
      → IsNumbered tables.messages
      → IsNumbered (remove_thread services now j tables).messages
  unfolding remove_thread
  removed j tables h = removed-IsNumbered j tables.messages h

  soft_deleted :
      (log_id : ℕ) (tenant_id : Text) (thread_id : ℕ) (by reason : Text) (mode : Option Text)
      (tables : Tables)
      → IsNumbered tables.messages
      → IsNumbered
          (carried_on
            (soft_delete_thread services now log_id tenant_id thread_id by reason mode tables)
            tables).messages
  unfolding soft_delete_thread save_thread log_purge
  soft_deleted log_id tenant_id thread_id by reason mode tables h =
      elim (Option-cases (find_any_thread tenant_id thread_id tables)) [
        | inl e ↦ rw (soft_delete_thread, e) h
        | inr (thread, e) ↦
            let same =
              (cascade_to_memories-threads (without_s3 services now) now thread_id
                (cascade_mode mode thread)
                (save_thread (marked_deleted services now thread) tables)).1 in
            rw (soft_delete_thread, e, same) h
      ]

  hard_deleted :
      (tenant_id : Text) (thread_id : ℕ) (tables : Tables)
      → IsNumbered tables.messages
      → IsNumbered
          (carried_on (hard_delete_thread services now tenant_id thread_id tables) tables).messages
  unfolding hard_delete_thread
  hard_deleted tenant_id thread_id tables h =
      elim (Option-cases (find_any_thread tenant_id thread_id tables)) [
        | inl e ↦ rw (hard_delete_thread, e) h
        | inr (thread, e) ↦ elim (Bool-cases thread.legal_hold) [
          | inl f ↦ rw (hard_delete_thread, e, f) h
          | inr f ↦ rw (hard_delete_thread, e, f) (removed thread_id tables h)
        ]
      ]

  purged :
      (log_id : ℕ) (tenant_id : Text) (thread_id : ℕ) (by why : Text) (tables : Tables)
      → IsNumbered tables.messages
      → IsNumbered
          (carried_on
            (admin_purge_thread services now log_id tenant_id thread_id by why tables)
            tables).messages
  unfolding admin_purge_thread log_purge
  purged log_id tenant_id thread_id by why tables h =
      elim (Option-cases (find_any_thread tenant_id thread_id tables)) [
        | inl e ↦ rw (admin_purge_thread, e) h
        | inr (thread, e) ↦
            let same =
              (cascade_to_memories-threads services now thread_id (codes "delete") tables).1 in
            let cascaded = (cascade_to_memories services now thread_id (codes "delete") tables).1 in
            rw (admin_purge_thread, e)
              (removed thread_id (log_purge log_id thread_id by (codes "admin") (some why) cascaded)
                (rw same h))
      ]

  spilled :
      (log_id : ℕ) (tenant_id : Text) (thread_id : ℕ) (by incident : Text) (silent : Bool)
      (tables : Tables)
      → IsNumbered tables.messages
      → IsNumbered
          (carried_on
            (spill_response_thread services now log_id tenant_id thread_id by incident silent
              tables)
            tables).messages
  unfolding spill_response_thread log_purge
  spilled log_id tenant_id thread_id by incident true tables h =
      elim (Option-cases (find_any_thread tenant_id thread_id tables)) [
        | inl e ↦ rw (spill_response_thread, e) h
        | inr (thread, e) ↦ rw (spill_response_thread, e) (removed thread_id tables h)
      ]
  spilled log_id tenant_id thread_id by incident false tables h =
      elim (Option-cases (find_any_thread tenant_id thread_id tables)) [
        | inl e ↦ rw (spill_response_thread, e) h
        | inr (thread, e) ↦
            rw (spill_response_thread, e)
              (removed thread_id
                (log_purge log_id thread_id by (codes "spill") (some incident) tables) h)
      ]

archived :
    (fresh : ℕ → ℕ) (now : ℕ) (tenant_id : Text) (thread_id : ℕ) (tables : Tables)
    → (carried_on (archive_thread fresh now tenant_id thread_id tables) tables).messages
      ≡ tables.messages
unfolding archive_thread save_thread
archived fresh now tenant_id thread_id tables =
    elim (Option-cases (find_thread tenant_id thread_id tables)) [
      | inl e ↦ rw (archive_thread, e) refl
      | inr (thread, e) ↦ elim (Bool-cases (thread.status == codes "active")) [
        | inl f ↦ rw (archive_thread, e, f) refl
        | inr f ↦ rw (archive_thread, e, f) refl
      ]
    ]

shared :
    (fresh : ℕ → ℕ) (now : ℕ) (tenant_id : Text) (thread_id : ℕ) (grantee level by : Text)
    (tables : Tables)
    → (carried_on
        (share_thread fresh now tenant_id thread_id grantee level by tables)
        tables).messages
      ≡ tables.messages
unfolding share_thread save_thread
shared fresh now tenant_id thread_id grantee level by tables =
    elim (Option-cases (find_thread tenant_id thread_id tables)) [
      | inl e ↦ rw (share_thread, e) refl
      | inr (thread, e) ↦ rw (share_thread, e) refl
    ]

Call-IsNumbered :
    {here : ThreadServices} {services : Services} {before after : Tables}
    → Call here services before after
    → IsNumbered before.messages
    → IsNumbered after.messages
unfolding create_thread
Call-IsNumbered (create fresh now tenant_id input owner_id actor_id driver_id tables) h = h
Call-IsNumbered (append fresh now tenant_id thread_id input tables) h =
    append_message-IsNumbered fresh now tenant_id _ thread_id input tables h
Call-IsNumbered (archive fresh now tenant_id thread_id tables) h =
    rw (archived fresh now tenant_id thread_id tables) h
Call-IsNumbered (fork fresh now tenant_id thread_id n owner_id actor_id title tables unused) h =
    fork_thread-IsNumbered fresh now tenant_id _ thread_id n owner_id actor_id title tables h unused
Call-IsNumbered (share fresh now tenant_id thread_id grantee level by tables) h =
    rw (shared fresh now tenant_id thread_id grantee level by tables) h
Call-IsNumbered (soft_delete now log_id tenant_id thread_id by reason mode tables) h =
    soft_deleted _ now log_id tenant_id thread_id by reason mode tables h
Call-IsNumbered (hard_delete now tenant_id thread_id tables) h =
    hard_deleted _ now tenant_id thread_id tables h
Call-IsNumbered (purge now log_id tenant_id thread_id by why tables) h =
    purged _ now log_id tenant_id thread_id by why tables h
Call-IsNumbered (spill now log_id tenant_id thread_id by incident silent tables) h =
    spilled _ now log_id tenant_id thread_id by incident silent tables h

-- In every state that the operations on threads reach from empty tables, in any order and with any
-- outcome, the messages of each thread are numbered 1, 2, 3 and so on in the order in which they were
-- added, without a gap and without a repetition; the id of a fork is that of no thread with messages.
pub Reached-IsNumbered :
    (here : ThreadServices) (services : Services) (tables : Tables)
    → Reached here services tables
    → IsNumbered tables.messages
Reached-IsNumbered here services tables reached = numbered reached
  where
    numbered : {after : Tables} → Reached here services after → IsNumbered after.messages
    numbered begin = none-IsNumbered
    numbered (then_call reached call) = Call-IsNumbered call (numbered reached)
