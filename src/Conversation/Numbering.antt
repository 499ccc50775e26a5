-- ===== src/Conversation/Numbering.antt =====
-- services/conversation.py: the sequence numbers of the messages, in every state that the operations
-- reach. The daily sweep is a sequence of the deletions here.
use memory_hub.Base.{
  ℕ, zero, suc, ◌+◌, Text, true, false, Option, List, [], ◌∷◌, ◌++◌, not, ◌==◌, ◌≡◌, nat_eq,
  text_eq, codes, if◌then◌else◌, ltb, length, any, keep, refl, sym, ◌∙◌, ap, inl, inr, arith,
  Bool-cases, Option-cases, ==_iff, beq_refl, append-nil,
}
use memory_hub.Conversation.{ConversationMessage, ConversationMessageCreate, Tables}
use memory_hub.Conversation.Threads.{
  ThreadServices, find_thread, last_sequence, new_message, append_message,
}
use memory_hub.Conversation.Forking.{copy_messages, copied_message, fork_thread, forked_thread}
use memory_hub.Conversation.Retention.{carried_on}

-- The sequence numbers of a thread, in the order of the table.
numbers : ℕ → List ConversationMessage → List ℕ
numbers t [] = []
numbers t (m ∷ ms) =
    let rest = numbers t ms in if m.thread_id == t then m.sequence_number ∷ rest else rest

-- k, k + 1, and so on, n of them.
count_from : ℕ → ℕ → List ℕ
count_from k zero = []
count_from k (suc n) = k ∷ count_from (suc k) n

-- The numbers of every thread are 1, 2, 3 and so on, without a gap and without a repetition.
pub IsNumbered : List ConversationMessage → Type 0
unfolding numbers count_from
IsNumbered ms = (t : ℕ) → numbers t ms ≡ count_from 1 (length (numbers t ms))

numbers-append :
    (t : ℕ) (xs ys : List ConversationMessage) → numbers t (xs ++ ys) ≡ numbers t xs ++ numbers t ys
unfolding numbers
numbers-append t [] ys = refl
numbers-append t (x ∷ xs) ys = ground (arith, numbers-append t xs ys)

count_from-snoc : (k n : ℕ) → count_from k n ++ (k + n) ∷ [] ≡ count_from k (suc n)
unfolding count_from
count_from-snoc k zero = let same : k + 0 ≡ k = omega arith in rw same refl
count_from-snoc k (suc n) =
    let same : k + suc n ≡ suc k + n = omega arith in
    rw same (ap (◌∷◌ k) (count_from-snoc (suc k) n))

max_of : List ℕ → ℕ
max_of [] = 0
max_of (x ∷ xs) = let rest = max_of xs in if ltb rest x then x else rest

last_sequence-numbers :
    (t : ℕ) (ms : List ConversationMessage)
    → last_sequence (keep (λ m. m.thread_id == t) ms) ≡ max_of (numbers t ms)
unfolding last_sequence numbers max_of
last_sequence-numbers t [] = refl
last_sequence-numbers t (m ∷ ms) = elim (Bool-cases (m.thread_id == t)) [
  | inl e ↦ rw (e, last_sequence-numbers t ms) refl
  | inr e ↦ rw e (last_sequence-numbers t ms)
]

max_of-count_from : (k n : ℕ) → max_of (count_from k (suc n)) ≡ k + n
unfolding max_of count_from
max_of-count_from k zero = ground arith
max_of-count_from k (suc n) = ground (arith, max_of-count_from (suc k) n)

max_of_count : (n : ℕ) → max_of (count_from 1 n) ≡ n
unfolding max_of count_from
max_of_count zero = refl
max_of_count (suc n) = omega (arith, max_of-count_from 1 n)

length-count_from : (k n : ℕ) → length (count_from k n) ≡ n
unfolding count_from
length-count_from k zero = refl
length-count_from k (suc n) = ap suc (length-count_from (suc k) n)

appended-IsNumbered :
    (ms : List ConversationMessage) (m : ConversationMessage)
    → IsNumbered ms
    → m.sequence_number ≡ last_sequence (keep (λ x. x.thread_id == m.thread_id) ms) + 1
    → IsNumbered (ms ++ m ∷ [])
unfolding IsNumbered numbers
appended-IsNumbered ms m h next t = elim (Bool-cases (m.thread_id == t)) [
  | inl e ↦
      let same : m.thread_id ≡ t = (==_iff m.thread_id t).0 e in
      let ns = numbers t ms in
      let last : m.sequence_number ≡ 1 + length ns = omega (
        arith,
        rw same at next,
        last_sequence-numbers t ms,
        ap max_of (h t),
        max_of_count (length ns),
      ) in
      let whole : numbers t (ms ++ m ∷ []) ≡ count_from 1 (suc (length ns)) =
        numbers-append t ms (m ∷ [])
        ∙ (rw (e, last)
            (ap (λ xs. xs ++ (1 + length ns) ∷ []) (h t) ∙ count_from-snoc 1 (length ns))) in
      whole ∙ ap (count_from 1) (sym (ap length whole ∙ length-count_from 1 (suc (length ns))))
  | inr e ↦
      let whole : numbers t (ms ++ m ∷ []) ≡ numbers t ms =
        numbers-append t ms (m ∷ []) ∙ rw e (append-nil (numbers t ms)) in
      rw whole (h t)
]

module _ (fresh : ℕ → ℕ) (now : ℕ) (tenant_id : Text) where
  numbers-copy_messages :
      (seq thread_id : ℕ) (ms : List ConversationMessage)
      → numbers thread_id (copy_messages fresh now tenant_id seq thread_id ms)
        ≡ count_from seq (length ms)
  unfolding numbers count_from copy_messages copied_message
  numbers-copy_messages seq thread_id [] = refl
  numbers-copy_messages seq thread_id (m ∷ ms) =
      rw (beq_refl thread_id) (ap (◌∷◌ seq) (numbers-copy_messages (suc seq) thread_id ms))

  numbers_other :
      (t seq thread_id : ℕ) (ms : List ConversationMessage)
      → (thread_id == t) ≡ false
      → numbers t (copy_messages fresh now tenant_id seq thread_id ms) ≡ []
  unfolding numbers copy_messages copied_message
  numbers_other t seq thread_id [] h = refl
  numbers_other t seq thread_id (m ∷ ms) h = rw h (numbers_other t (suc seq) thread_id ms h)

  numbers_unused :
      (t : ℕ) (ms : List ConversationMessage)
      → any (λ m. m.thread_id == t) ms ≡ false
      → numbers t ms ≡ []
  unfolding numbers
  numbers_unused t [] h = refl
  numbers_unused t (m ∷ ms) h = ground (arith, numbers_unused t ms)

  copied-IsNumbered :
      (ms copied : List ConversationMessage) (thread_id : ℕ)
      → IsNumbered ms
      → any (λ m. m.thread_id == thread_id) ms ≡ false
      → IsNumbered (ms ++ copy_messages fresh now tenant_id 1 thread_id copied)
  unfolding IsNumbered
  copied-IsNumbered ms copied thread_id h unused t = elim (Bool-cases (thread_id == t)) [
    | inl e ↦
        let same : thread_id ≡ t = (==_iff thread_id t).0 e in
        let none_before : numbers t ms ≡ [] = numbers_unused t ms (rw same at unused) in
        let whole : numbers t (ms ++ copy_messages fresh now tenant_id 1 thread_id copied)
            ≡ count_from 1 (length copied) =
          numbers-append t ms (copy_messages fresh now tenant_id 1 thread_id copied)
          ∙ rw (none_before, same) (numbers-copy_messages 1 t copied) in
        whole ∙ ap (count_from 1) (sym (ap length whole ∙ length-count_from 1 (length copied)))
    | inr e ↦
        let whole : numbers t (ms ++ copy_messages fresh now tenant_id 1 thread_id copied)
            ≡ numbers t ms =
          numbers-append t ms (copy_messages fresh now tenant_id 1 thread_id copied)
          ∙ rw (numbers_other t 1 thread_id copied e) (append-nil (numbers t ms)) in
        rw whole (h t)
  ]

  pub append_message-IsNumbered :
      (services : ThreadServices) (thread_id : ℕ) (input : ConversationMessageCreate)
      (tables : Tables)
      → IsNumbered tables.messages
      → IsNumbered
          (carried_on
            (append_message fresh now tenant_id services thread_id input tables)
            tables).messages
  unfolding append_message new_message
  append_message-IsNumbered services thread_id input tables h =
      elim (Option-cases (find_thread tenant_id thread_id tables)) [
        | inl e ↦ rw (append_message, e) h
        | inr (thread, e) ↦ elim (Bool-cases (thread.status == codes "active")) [
          | inr f ↦ rw (append_message, e, f) h
          | inl f ↦ rw (append_message, e, f) (appended-IsNumbered tables.messages _ h refl)
        ]
      ]

  pub fork_thread-IsNumbered :
      (services : ThreadServices) (thread_id n : ℕ) (owner_id : Text) (actor_id title : Option Text)
      (tables : Tables)
      → IsNumbered tables.messages
      → any (λ m. m.thread_id == fresh 0) tables.messages ≡ false
      → IsNumbered
          (carried_on
            (fork_thread fresh now tenant_id services thread_id n owner_id actor_id title tables)
            tables).messages
  unfolding fork_thread forked_thread
  fork_thread-IsNumbered services thread_id n owner_id actor_id title tables h unused =
      elim (Option-cases (find_thread tenant_id thread_id tables)) [
        | inl e ↦ rw (fork_thread, e) h
        | inr (thread, e) ↦
            rw (fork_thread, e) (copied-IsNumbered tables.messages _ (fresh 0) h unused)
      ]

numbers_gone :
    (t j : ℕ) (ms : List ConversationMessage)
    → (j == t) ≡ true
    → numbers t (keep (λ m. not (m.thread_id == j)) ms) ≡ []
unfolding numbers
numbers_gone t j [] e = refl
numbers_gone t j (m ∷ ms) e = ground (arith, numbers_gone t j ms e, ==_iff j t)

numbers_left :
    (t j : ℕ) (ms : List ConversationMessage)
    → (j == t) ≡ false
    → numbers t (keep (λ m. not (m.thread_id == j)) ms) ≡ numbers t ms
unfolding numbers
numbers_left t j [] e = refl
numbers_left t j (m ∷ ms) e =
    ground (arith, numbers_left t j ms e, ==_iff m.thread_id j, ==_iff m.thread_id t, ==_iff j t)

pub removed-IsNumbered :
    (j : ℕ) (ms : List ConversationMessage)
    → IsNumbered ms
    → IsNumbered (keep (λ m. not (m.thread_id == j)) ms)
unfolding IsNumbered count_from
removed-IsNumbered j ms h t = elim (Bool-cases (j == t)) [
  | inl e ↦ rw (numbers_gone t j ms e) refl
  | inr e ↦ rw (numbers_left t j ms e) (h t)
]

pub none-IsNumbered : IsNumbered []
unfolding IsNumbered numbers count_from
none-IsNumbered t = refl
