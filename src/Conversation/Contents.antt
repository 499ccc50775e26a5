-- ===== src/Conversation/Contents.antt =====
-- services/conversation.py: what the deletions of threads do to the objects of the bucket.
use memory_hub.Base.{
  ℕ, Text, false, Option, none, some, List, [], ◌∷◌, not, ◌&&◌, ◌||◌, ◌==◌, ◌≡◌, nat_eq, text_eq,
  codes, leb, length, is_nil, any, keep, contains, Bool, returned, raised, Outcome, ap, sym,
  is_some, refl, ◌∙◌, inl, inr, arith, Bool-cases, Option-cases, Outcome-cases, ==_iff,
}
use memory_hub.Memory.Store.{Services, Store, ServiceError}
use memory_hub.Memory.Chain.{by_id}
use memory_hub.Memory.Delete.{delete_memory, delete_contents, Deleted}
use memory_hub.Conversation.{ConversationMessage, ConversationExtraction, Tables}
use memory_hub.Conversation.Retention.{message_refs, cascade_delete, cascade_to_memories}

abbrev refers : Text → Option Text → Bool
refers k none = false
refers k (some ref) = ref == k

-- A message of another thread whose content is the object.
abbrev pub shares : ℕ → Text → ConversationMessage → Bool
shares i k m = not (m.thread_id == i) && m.storage_type == codes "s3" && refers k m.content_ref

abbrev objects_of : Store → Outcome ServiceError (Deleted × Store) → List (Text × Text)
objects_of store (returned (summary, after)) = after.objects
objects_of store (raised e) = store.objects

delete_memory-objects :
    (services : Services) (now id : ℕ) (store : Store)
    → services.has_s3 ≡ false
    → objects_of store (delete_memory services now id store) ≡ store.objects
unfolding delete_memory
delete_memory-objects services now id store off = elim (Option-cases (by_id store.nodes id)) [
  | inl f ↦ rw (delete_memory, f) refl
  | inr (node, f) ↦ elim (Bool-cases (is_some node.deleted_at)) [
    | inl g ↦ rw (delete_memory, f, g) refl
    | inr g ↦ rw (delete_memory, f, g, off) refl
  ]
]

cascade_delete-objects :
    (services : Services) (now : ℕ)
    → services.has_s3 ≡ false
    → (es : List ConversationExtraction) (tables : Tables)
    → (cascade_delete services now es tables).1.memories.objects ≡ tables.memories.objects
unfolding cascade_delete
cascade_delete-objects services now off [] tables = refl
cascade_delete-objects services now off (e ∷ es) tables =
    elim (Bool-cases
      (leb (length (keep (λ x. x.memory_node_id == e.memory_node_id) tables.extractions)) 1)) [
        | inr many ↦ rw many (cascade_delete-objects services now off es tables)
        | inl last ↦
            elim (Outcome-cases (delete_memory services now e.memory_node_id tables.memories)) [
              | inr (x, f) ↦ rw (last, f) (cascade_delete-objects services now off es tables)
              | inl ((summary, memories), f) ↦
                  rw (last, f)
                    (cascade_delete-objects services now off es
                        (record tables { memories = memories })
                      ∙ (ap (objects_of tables.memories) (sym f)
                          ∙ delete_memory-objects services now e.memory_node_id tables.memories
                              off))
            ]
      ]

-- Without an adapter the cascade leaves the bucket as it is.
pub cascade_to_memories-objects :
    (services : Services) (now : ℕ)
    → services.has_s3 ≡ false
    → (thread_id : ℕ) (mode : Text) (tables : Tables)
    → (cascade_to_memories services now thread_id mode tables).1.memories.objects
      ≡ tables.memories.objects
unfolding cascade_to_memories
cascade_to_memories-objects services now off thread_id mode tables =
    let extractions = keep (λ x. x.thread_id == thread_id) tables.extractions in
    elim (Bool-cases (mode == codes "preserve" || is_nil extractions)) [
      | inl e ↦ rw (cascade_to_memories, e) refl
      | inr e ↦ elim (Bool-cases (mode == codes "orphan")) [
        | inl f ↦ rw (cascade_to_memories, e, f) refl
        | inr f ↦
            rw (cascade_to_memories, e, f)
              (cascade_delete-objects services now off extractions tables)
      ]
    ]

pub any-keep-false :
    (p q : ConversationMessage → Bool) (ms : List ConversationMessage)
    → any q ms ≡ false
    → any q (keep p ms) ≡ false
any-keep-false p q [] h = refl
any-keep-false p q (m ∷ ms) h = ground (arith, any-keep-false p q ms)

-- The references of another thread do not have an object that nobody else shares.
pub message_refs-alone :
    (i j : ℕ) (k : Text) (ms : List ConversationMessage)
    → (j == i) ≡ false
    → any (shares i k) ms ≡ false
    → contains (message_refs j ms) k ≡ false
unfolding message_refs
message_refs-alone i j k [] other h = refl
message_refs-alone i j k (m ∷ ms) other h =
    let rest = message_refs-alone i j k ms other (ground (arith, h)) in
    elim (Option-cases m.content_ref) [
      | inl e ↦ rw e (ground (arith, rest))
      | inr (ref, e) ↦
          let own = rw e at h in
          rw e (ground (arith, rest, own, ==_iff m.thread_id j, ==_iff m.thread_id i, ==_iff j i))
    ]

pub delete_contents-other :
    (refs : List Text) (k : Text) (objects : List (Text × Text))
    → contains refs k ≡ false
    → keep (λ o. o.0 == k) (delete_contents refs objects) ≡ keep (λ o. o.0 == k) objects
unfolding delete_contents
delete_contents-other refs k [] h = refl
delete_contents-other refs k (o ∷ os) h =
    ground (arith, delete_contents-other refs k os h, ==_iff (o.0) k)
