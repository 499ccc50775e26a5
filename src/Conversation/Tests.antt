-- ===== src/Conversation/Tests.antt =====
-- The theorems on conversation threads at concrete inputs.
use memory_hub.Base.{
  Text, ℕ, ◌+◌, true, false, none, some, [], ◌∷◌, ◌++◌, ◌≡◌, nat_eq, text_eq, text_beq, codes, any,
  refl, split,
}
use memory_hub.Memory.Store.{Services}
use memory_hub.Memory.Reachability.{empty_store}
use memory_hub.Conversation.{
  ConversationThread, ConversationMessage, ConversationMessageCreate, ConversationThreadCreate,
  Tables,
}
use memory_hub.Conversation.Threads.{ThreadServices, find_thread, create_thread, append_message}
use memory_hub.Conversation.Forking.{fork_thread, forked_thread}
use memory_hub.Conversation.Reading.{shown_messages}
use memory_hub.Conversation.Retention.{carried_on, run_retention_sweep}
use memory_hub.Conversation.Redaction.{has_content, fork_thread_reveals}
use memory_hub.Conversation.Numbering.{IsNumbered}
use memory_hub.Conversation.Calls.{Call, Reached, empty_tables, Reached-IsNumbered}
use memory_hub.Conversation.Holds.{IsKept, run_retention_sweep-IsKept}

abbrev here : ThreadServices
here = record {
  conv_inline_max_bytes = 100;
  has_s3 = true;
  message_key = λ tenant thread seq. tenant ++ thread ∷ seq ∷ [];
  short_id = λ i. i ∷ [];
}

abbrev services : Services
services = record {
  s3_threshold_bytes = 100;
  s3_prefix_chars = 10;
  version_retention_days = 90;
  entity_extraction_enabled = false;
  max_tokens = 100;
  embeds_batch = λ ts. true;
  has_s3 = true;
  object_key = λ tenant id version. tenant ++ id ∷ version ∷ [];
  splitter = record { paragraphs = split 10; sentences = split 46 };
  signals = record {
    deadline_iso = λ t. none;
    deadline_natural = λ t. none;
    iso_date = λ t. none;
    relative_deadline = λ t. none;
    next_unit = λ t. none;
    implicit_marker = λ t. false;
  };
  calendar = record {
    end_of_day = λ y m d. none;
    year_of = λ t. 1;
    month_number = λ t. none;
    latest = 300_000_000_000_000_000;
  };
  weight_text = λ w. codes "0.7";
  with_key = λ metadata key value. value;
  chunk_metadata = λ i total. i ∷ total ∷ [];
  fact_metadata = λ i total run. i ∷ total ∷ run;
}

abbrev held : ConversationThread
held = record {
  id = 1;
  title = none;
  a2a_context_id = none;
  scope = codes "user";
  scope_id = none;
  owner_id = codes "ann";
  actor_id = none;
  driver_id = none;
  tenant_id = codes "t1";
  participant_ids = codes "ann" ∷ codes "bob" ∷ [];
  participant_access = some ((codes "bob", codes "admin") ∷ []);
  status = codes "active";
  archived_at = none;
  deleted_at = none;
  expires_at = some 3;
  retention_policy = none;
  legal_hold = true;
  last_extracted_at = none;
  extraction_cursor = 0;
  metadata = none;
  created_at = 1;
}

abbrev secret : ConversationMessage
secret = record {
  id = 5;
  thread_id = 1;
  sequence_number = 1;
  role = codes "user";
  actor_id = none;
  storage_type = codes "inline";
  content = some (codes "secret");
  content_ref = none;
  content_size = none;
  tool_call_id = none;
  handoff_from_agent_id = none;
  handoff_authorized_by = none;
  handoff_redacted = true;
  tenant_id = codes "t1";
  metadata = none;
  created_at = 2;
}

abbrev tables : Tables
tables = record {
  threads = held ∷ [];
  messages = secret ∷ [];
  extractions = [];
  purge_log = [];
  memories = empty_store;
}

abbrev fresh : ℕ → ℕ
fresh k = k + 10

abbrev key : Text
key = codes "t1/1/1"

abbrev in_bucket : ConversationMessage
in_bucket = record secret { storage_type = codes "s3"; content = none; content_ref = some key }

abbrev removable : ConversationThread
removable = record held {
  id = 2;
  status = codes "deleted";
  deleted_at = some 3;
  legal_hold = false;
}

abbrev other_message : ConversationMessage
other_message = record in_bucket { id = 6; thread_id = 2; content_ref = some (codes "t1/2/1") }

abbrev with_objects : Tables
with_objects = record tables {
  threads = held ∷ removable ∷ [];
  messages = in_bucket ∷ other_message ∷ [];
  memories = record empty_store {
    objects = (key, codes "secret") ∷ (codes "t1/2/1", codes "other") ∷ [];
  };
}

run_retention_sweep-IsKept_example :
    IsKept 1 key
      (in_bucket ∷ [])
      ((key, codes "secret") ∷ [])
      (run_retention_sweep services 9_000_000_000_000_000 fresh with_objects)
unfolding text_beq
run_retention_sweep-IsKept_example =
    run_retention_sweep-IsKept 1 services 9_000_000_000_000_000 key (in_bucket ∷ [])
      ((key, codes "secret") ∷ []) fresh with_objects
      (record {
        held = (refl, (refl, tt));
        there = refl;
        unchanged = refl;
        alone = refl;
        stored = refl;
      })

fork_thread_reveals_example :
    (any (λ m. m.handoff_redacted) (shown_messages held (some (codes "bob")) none tables) ≡ false)
    × (any (has_content (codes "secret")) (
          shown_messages
            (forked_thread fresh 9 (codes "t1") here held 1 (codes "bob") none none)
            (some (codes "bob"))
            none
            (carried_on
              (fork_thread fresh 9 (codes "t1") here 1 1 (codes "bob") none none tables)
              tables))
        ≡ true)
unfolding find_thread text_beq
fork_thread_reveals_example =
    fork_thread_reveals fresh 9 (codes "t1") here 1 1 (codes "bob") none none (codes "secret")
      tables held refl refl refl

abbrev greeting : ConversationMessageCreate
greeting = record {
  role = codes "user";
  actor_id = none;
  content = some (codes "hello");
  tool_call_id = none;
  metadata = none;
}

abbrev topic : ConversationThreadCreate
topic = record {
  scope = codes "user";
  scope_id = none;
  participant_ids = [];
  participant_access = none;
  title = none;
  a2a_context_id = none;
  metadata = none;
}

abbrev opened : Tables
opened = (create_thread fresh 9 (codes "t1") topic (codes "ann") none none empty_tables).1

Reached-IsNumbered_example :
    IsNumbered
      (carried_on (append_message fresh 9 (codes "t1") here 10 greeting opened) opened).messages
Reached-IsNumbered_example =
    Reached-IsNumbered here services
      (carried_on (append_message fresh 9 (codes "t1") here 10 greeting opened) opened)
      (Reached.then_call
        (Reached.then_call Reached.begin
          (Call.create fresh 9 (codes "t1") topic (codes "ann") none none empty_tables))
        (Call.append fresh 9 (codes "t1") 10 greeting opened))
