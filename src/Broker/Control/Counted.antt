-- ===== src/Broker/Control/Counted.antt =====
-- Serving a control request leaves the packet counters of the broker alone.
use cpp_rt_pubsub.Prelude.{
  ℕ, ◌≡◌, refl, ◌∙◌, subst, String, Result, ok, arith, ℤ, List, str_eq, Option-cases, Ensures,
  Ensures-mono, inl, inr,
}
use cpp_rt_pubsub.Json.{Json}
use cpp_rt_pubsub.Broker.{
  Broker, NodeInfo, MessageTypeInfo, Topic, find_from, register_node, register_message_type,
  register_topic, validate_topic_parameters, add_publisher, add_subscriber,
}
use cpp_rt_pubsub.Broker.Control.{process_control_request}
use cpp_rt_pubsub.Broker.Control.Keeps.{IsKeptByRequests, process_control_request-Keeps}

abbrev Counts : {A : Type 0} → Broker → Result (Broker × A) → Type 0
Counts b m = Ensures (λ r. r.0.client_counters ≡ b.client_counters) m

register_node-Counts :
    (b : Broker) (client name : String)
    → (register_node b client name).0.client_counters ≡ b.client_counters
unfolding register_node
register_node-Counts b client name =
    elim (Option-cases (find_from 0 (λ (ni : NodeInfo). str_eq ni.name name) b.nodes)) [
      | inl e ↦ rw (e, register_node) refl
      | inr (found, e) ↦ rw (e, register_node) refl
    ]

register_message_type-Counts :
    (b : Broker) (name : String) (size : ℕ)
    → (register_message_type b name size).0.client_counters ≡ b.client_counters
unfolding register_message_type
register_message_type-Counts b name size =
    elim (Option-cases
      (find_from 0 (λ (mti : MessageTypeInfo). str_eq mti.name name) b.message_types)) [
        | inl e ↦ rw (e, register_message_type) refl
        | inr ((i, mti), e) ↦ rw (e, register_message_type) (ground arith)
      ]

register_topic-Counts :
    (b : Broker) (name : String) (type : ℕ) (priority : ℤ)
    → Counts b (register_topic b name type priority)
unfolding register_topic
register_topic-Counts b name type priority =
    elim (Option-cases (find_from 0 (λ (t : Topic). str_eq t.name name) b.topics)) [
      | inl e ↦ rw (e, register_topic) (ground arith)
      | inr ((i, t), e) ↦ rw (e, register_topic) (ground arith)
    ]

add_publisher-Counts : (b : Broker) (n t m : ℕ) → Counts b (add_publisher b n t m)
unfolding add_publisher validate_topic_parameters
add_publisher-Counts b n t m = ground arith

add_subscriber-Counts : (b : Broker) (n t m : ℕ) → Counts b (add_subscriber b n t m)
unfolding add_subscriber validate_topic_parameters
add_subscriber-Counts b n t m = ground arith

-- The counters are still these.
abbrev HasCounters : List (String × ℕ) → Broker → Type 0
HasCounters cs b = b.client_counters ≡ cs

HasCounters-IsKeptByRequests : (cs : List (String × ℕ)) → IsKeptByRequests (HasCounters cs)
HasCounters-IsKeptByRequests cs = record {
  node = λ b address name h. register_node-Counts b address name ∙ h;
  message = λ b name size h. register_message_type-Counts b name size ∙ h;
  topic = λ b name type priority h.
      Ensures-mono _ _ (register_topic b name type priority) (λ r e. e ∙ h)
        (register_topic-Counts b name type priority);
  publisher = λ b n t m h.
      Ensures-mono _ _ (add_publisher b n t m) (λ r e. e ∙ h) (add_publisher-Counts b n t m);
  subscriber = λ b n t m h.
      Ensures-mono _ _ (add_subscriber b n t m) (λ r e. e ∙ h) (add_subscriber-Counts b n t m);
}

-- A control request that is handled changes no counter.
pub process_control_request-counters :
    (json : Json) (b b' : Broker) (client : String) (request response : json.Value)
    → process_control_request json b client request ≡ ok (b', response)
    → b'.client_counters ≡ b.client_counters
process_control_request-counters json b b' client request response e =
    subst (Ensures (λ (r : Broker × json.Value). r.0.client_counters ≡ b.client_counters)) e (
      process_control_request-Keeps json (HasCounters b.client_counters)
        (HasCounters-IsKeptByRequests b.client_counters) b client request refl)
