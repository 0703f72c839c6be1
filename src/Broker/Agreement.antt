-- ===== src/Broker/Agreement.antt =====
-- What several registrations of one topic return: its ID and its priority.
use cpp_rt_pubsub.Prelude.{
  ℕ, ◌≤◌, ◌≡◌, ◌≢◌, Bool, false, ◌||◌, String, [], ◌∷◌, ◌++◌, Option, none, some, err,
  out_of_bounds, ℤ, int_eq, int_eq-ne, All, length, str_eq, if◌then◌else◌, map,
}
use cpp_rt_pubsub.Broker.{
  Broker, Topic, dontcare_topic_priority, to_u32, find_from, register_new_topic, register_topic,
}
use cpp_rt_pubsub.Broker.Inv.{find_absent, index_beyond}

-- What a further registration of a topic returns, by the priority that it asks for.
abbrev pub offer : ℤ → ℕ → ℤ → Option (ℕ × ℤ)
offer asked id priority =
    if int_eq asked dontcare_topic_priority || int_eq priority asked
    then some (id, priority)
    else none

module _ (name : String) (type : ℕ) where
  abbrev is_topic : Topic → Bool
  is_topic t = str_eq t.name name

  record Found (b : Broker) (id : ℕ) (priority : ℤ) : Type 0 where
    i : ℕ
    t : Topic
    found : find_from 0 is_topic b.topics ≡ some (i, t)
    typed : t.message_type_id ≡ type
    ranked : t.priority ≡ priority
    at_id : to_u32 i ≡ id

  abbrev topic_info : ℤ → Topic
  topic_info priority = record {
    name = name;
    message_type_id = type;
    priority = priority;
    publishers = [];
    subscribers = [];
  }

  new_topic : Broker → ℤ → Broker
  new_topic b priority = record b { topics = b.topics ++ topic_info priority ∷ [] }

  -- What a registration that returned an ID and a priority leaves behind.
  abbrev Agreed : ℤ → Broker → ℕ → ℤ → Type 0
  Agreed asked b id q = Found b id q × (int_eq asked dontcare_topic_priority ≡ false → q ≡ asked)

  -- A new topic of a message type that is not registered, with a priority, makes the broker read
  -- outside of its table of message types.
  pub register_topic_unknown_type :
      (b : Broker) (asked : ℤ)
      → All (λ s. name ≢ s) (map (λ (t : Topic). t.name) b.topics)
      → length b.message_types ≤ type
      → asked ≢ dontcare_topic_priority
      → register_topic b name type asked ≡ err out_of_bounds
  unfolding register_topic register_new_topic
  register_topic_unknown_type b asked fresh unknown cares = rw (
    find_absent (λ (t : Topic). t.name) name 0 b.topics fresh,
    register_topic,
    int_eq-ne asked dontcare_topic_priority cares,
    index_beyond b.message_types type unknown,
  )
