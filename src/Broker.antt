-- ===== src/Broker.antt =====
-- include/crps/broker.h, src/broker.cpp: the broker's tables and the operations on them. Log output
-- is left out, but not the table reads that a log line makes. `none` in place of an ID is the
-- result `false`; otherwise the out-parameters are returned.
pub mod Inv
pub mod Topics
pub mod Counters
pub mod Registry
pub mod Agreement
pub mod Stable
pub mod Control
pub mod Spin
mod Tests
use cpp_rt_pubsub.Prelude.{
  ℕ, suc, ◌+◌, ◌-◌, ◌%◌, ◌^◌, Bool, true, false, not, ◌&&◌, String, List, [], ◌∷◌, ◌++◌, Option,
  none, some, Result, ok, err, ◌>>=◌, or_fail, out_of_bounds, ℤ, negsuc, int_eq, length, get_elem?,
  set, leb, ◌==◌, str_eq, if◌then◌else◌,
}
use cpp_rt_pubsub.Json.{lookup}

-- include/crps/topic.h
abbrev pub dontcare_topic_priority : ℤ
dontcare_topic_priority = negsuc 100

pub record NodeInfo : Type 0 where
  pub name : String
  pub address : String

pub record MessageTypeInfo : Type 0 where
  pub name : String
  pub size : ℕ

pub record Topic : Type 0 where
  pub name : String
  pub message_type_id : ℕ
  pub priority : ℤ
  pub publishers : List ℕ
  pub subscribers : List ℕ

pub record Broker : Type 0 where
  pub client_counters : List (String × ℕ)
  pub nodes : List NodeInfo
  pub message_types : List MessageTypeInfo
  pub topics : List Topic

-- The members of a new `Broker`.
abbrev pub new_broker : Broker
new_broker = record { client_counters = []; nodes = []; message_types = []; topics = [] }

-- A size or a difference of iterators, stored in a `uint32_t`.
abbrev pub to_u32 : ℕ → ℕ
to_u32 n = n % 2 ^ 32

-- `std::find_if`: the first entry that passes the test and its distance from the beginning.
module _ {ℓ} {A : Type ℓ} where
  unfoldable pub find_from : ℕ → (A → Bool) → List A → Option (ℕ × A)
  find_from i test [] = none
  find_from i test (x ∷ xs) = if test x then some (i, x) else find_from (suc i) test xs

  abbrev pub find_if : (A → Bool) → List A → Option (ℕ × A)
  find_if test xs = find_from 0 test xs

  -- `operator[]` of `std::vector`.
  unfoldable pub index : List A → ℕ → Result A
  index xs i = or_fail (get_elem? xs i) out_of_bounds

-- `m_client_counters[key] = counter`.
unfoldable pub assign : String → ℕ → List (String × ℕ) → List (String × ℕ)
assign k c [] = (k, c) ∷ []
assign k c ((j, d) ∷ m) = if str_eq j k then (k, c) ∷ m else (j, d) ∷ assign k c m

counter_step : Broker → String → ℕ → Option ℕ → Broker × Bool
counter_step b p_client_address p_counter none =
    (record b { client_counters = assign p_client_address p_counter b.client_counters }, true)
counter_step b p_client_address p_counter (some last) =
    if to_u32 (last + 1) == p_counter
    then (record b { client_counters = assign p_client_address p_counter b.client_counters }, true)
    else (b, false)

unfoldable pub verify_and_update_client_counter : Broker → String → ℕ → Broker × Bool
unfolding counter_step
verify_and_update_client_counter b p_client_address p_counter =
    counter_step b p_client_address p_counter (lookup p_client_address b.client_counters)

unfoldable pub register_node : Broker → String → String → Broker × Option ℕ
register_node b p_client_address p_node_name =
    elim (find_if (λ (ni : NodeInfo). str_eq ni.name p_node_name) b.nodes) [
      | none ↦
          let nodes' =
            b.nodes ++ (record { name = p_node_name; address = p_client_address } ∷ []) in
          (record b { nodes = nodes' }, some (to_u32 (length nodes' - 1)))
      | some found ↦ (b, none)
    ]

unfoldable pub register_message_type : Broker → String → ℕ → Broker × Option ℕ
register_message_type b p_message_type_name p_message_size =
    elim (find_if (λ (mti : MessageTypeInfo). str_eq mti.name p_message_type_name)
      b.message_types) [
        | none ↦
            let types' =
              b.message_types
              ++ (record { name = p_message_type_name; size = p_message_size } ∷ []) in
            (record b { message_types = types' }, some (to_u32 (length types' - 1)))
        | some (i, mti) ↦ if mti.size == p_message_size then (b, some (to_u32 i)) else (b, none)
      ]

-- The log line of a new topic reads the name of its message type.
register_new_topic : Broker → String → ℕ → ℤ → Result (Broker × Option (ℕ × ℤ))
register_new_topic b p_topic_name p_message_type_id p_topic_priority =
    if int_eq p_topic_priority dontcare_topic_priority then ok (b, none) else do
      logged ← index b.message_types p_message_type_id
      let topics' =
          b.topics
          ++ (record {
            name = p_topic_name;
            message_type_id = p_message_type_id;
            priority = p_topic_priority;
            publishers = [];
            subscribers = [];
          }
              ∷ [])
      ok (record b { topics = topics' }, some (to_u32 (length topics' - 1), p_topic_priority))

-- So does the log line of a mismatch, of both message types.
pub register_known_topic : Broker → ℕ → Topic → ℕ → ℤ → Result (Broker × Option (ℕ × ℤ))
register_known_topic b topic_id topic p_message_type_id p_topic_priority =
    if not (topic.message_type_id == p_message_type_id)
    then (index b.message_types topic.message_type_id >>= λ logged_old.
        index b.message_types p_message_type_id >>= λ logged_new. ok (b, none))
    else ok (
        if not (int_eq p_topic_priority dontcare_topic_priority)
          && not (int_eq topic.priority p_topic_priority)
        then (b, none)
        else (b, some (to_u32 topic_id, topic.priority)))

-- An unknown message type is logged, and does not end the call.
unfoldable pub register_topic : Broker → String → ℕ → ℤ → Result (Broker × Option (ℕ × ℤ))
unfolding register_new_topic register_known_topic
register_topic b p_topic_name p_message_type_id p_topic_priority =
    elim (find_if (λ (t : Topic). str_eq t.name p_topic_name) b.topics) [
      | none ↦ register_new_topic b p_topic_name p_message_type_id p_topic_priority
      | some (i, topic) ↦ register_known_topic b i topic p_message_type_id p_topic_priority
    ]

unfoldable pub validate_topic_parameters : Broker → ℕ → ℕ → ℕ → Result Bool
validate_topic_parameters b p_node_id p_topic_id p_message_type_id =
    if leb (length b.nodes) p_node_id
    then ok false
    else if leb (length b.topics) p_topic_id
    then ok false
    else if leb (length b.message_types) p_message_type_id
    then ok false
    else do
      topic ← index b.topics p_topic_id
      message_type ← index b.message_types topic.message_type_id
      ok (topic.message_type_id == p_message_type_id)

unfoldable pub push_publisher : ℕ → Topic → Topic
push_publisher p_node_id t = record t { publishers = t.publishers ++ p_node_id ∷ [] }

unfoldable pub push_subscriber : ℕ → Topic → Topic
push_subscriber p_node_id t = record t { subscribers = t.subscribers ++ p_node_id ∷ [] }

add_to_topic : (Topic → Topic) → Broker → ℕ → Result (Broker × Bool)
add_to_topic push b p_topic_id = do
  topic ← index b.topics p_topic_id
  ok (record b { topics = set b.topics p_topic_id (push topic) }, true)

unfoldable pub add_publisher : Broker → ℕ → ℕ → ℕ → Result (Broker × Bool)
unfolding add_to_topic
add_publisher b p_node_id p_topic_id p_message_type_id = do
  valid ← validate_topic_parameters b p_node_id p_topic_id p_message_type_id
  if valid then add_to_topic (push_publisher p_node_id) b p_topic_id else ok (b, false)

unfoldable pub add_subscriber : Broker → ℕ → ℕ → ℕ → Result (Broker × Bool)
unfolding add_to_topic
add_subscriber b p_node_id p_topic_id p_message_type_id = do
  valid ← validate_topic_parameters b p_node_id p_topic_id p_message_type_id
  if valid then add_to_topic (push_subscriber p_node_id) b p_topic_id else ok (b, false)
