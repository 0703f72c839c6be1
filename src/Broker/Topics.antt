-- ===== src/Broker/Topics.antt =====
-- The operations on topics, and the invariant of the broker's tables.
use cpp_rt_pubsub.Prelude.{
  ℕ, zero, suc, ◌<◌, ◌≡◌, refl, sym, subst, ◌≢◌, inl, inr, true, false, String, List, [], ◌∷◌, map,
  ok, ◌>>=◌, Ensures, Ensures-bind, ℤ, arith, length, set, All, All-append, All-set, str_eq, int_eq,
  ◌==◌, Result-cases, Ensures-mono, ap, ◌∙◌, if◌then◌else◌, Bool-cases, Option-cases,
}
use cpp_rt_pubsub.Broker.{
  Broker, Topic, dontcare_topic_priority, find_from, index, register_new_topic,
  register_known_topic, register_topic, validate_topic_parameters, push_publisher, push_subscriber,
  add_to_topic, add_publisher, add_subscriber,
}
use cpp_rt_pubsub.Broker.Inv.{
  Distinct, IsTopic, IsValid, find_none, Distinct-map_snoc, index-lt, index-All,
}

-- A topic that is known changes nothing.
pub register_known_topic-same :
    (b : Broker) (i : ℕ) (t : Topic) (type : ℕ) (priority : ℤ)
    → Ensures (λ r. r.0 ≡ b) (register_known_topic b i t type priority)
unfolding register_known_topic
register_known_topic-same b i t type priority = elim (Bool-cases (t.message_type_id == type)) [
  | inl e ↦ rw e (ground arith)
  | inr e ↦ rw e (
      Ensures-bind _ (index b.message_types t.message_type_id) _
        λ old _. Ensures-bind _ (index b.message_types type) _ λ new _. refl)
]

register_new_topic-IsValid :
    {b : Broker} (name : String) (type : ℕ) (priority : ℤ)
    → IsValid b
    → All (λ s. name ≢ s) (map (λ (t : Topic). t.name) b.topics)
    → Ensures (λ r. IsValid r.0) (register_new_topic b name type priority)
unfolding register_new_topic
register_new_topic-IsValid {b} name type priority v fresh =
    elim (Bool-cases (int_eq priority dontcare_topic_priority)) [
      | inl d ↦ rw d v
      | inr p ↦ rw p (
          Ensures-bind _ (index b.message_types type) _ λ logged read. record {
            node_names = v.node_names;
            type_names = v.type_names;
            topic_names = Distinct-map_snoc (λ (t : Topic). t.name) b.topics _ v.topic_names fresh;
            topics =
                All-append (IsTopic (length b.nodes) (length b.message_types)) b.topics _ v.topics (
                  record {
                    typed = index-lt b.message_types type logged read;
                    published = tt;
                    subscribed = tt;
                  },
                  tt,
                );
          })
    ]

-- `register_topic` keeps the invariant where it does not fault: no topic of an unknown message type
-- is left behind.
pub register_topic-IsValid :
    {b : Broker} (name : String) (type : ℕ) (priority : ℤ)
    → IsValid b
    → Ensures (λ r. IsValid r.0) (register_topic b name type priority)
unfolding register_topic
register_topic-IsValid {b} name type priority v =
    elim (Option-cases (find_from 0 (λ (t : Topic). str_eq t.name name) b.topics)) [
      | inl e ↦
          rw (e, register_topic)
            (register_new_topic-IsValid name type priority v
              (find_none (λ (t : Topic). t.name) name 0 b.topics e))
      | inr ((i, t), e) ↦
          rw (e, register_topic)
            (Ensures-mono _ _ (register_known_topic b i t type priority)
              (λ r same. subst IsValid (sym same) v)
              (register_known_topic-same b i t type priority))
    ]

-- What `validate_topic_parameters` has checked when it returns true.
pub validate-true :
    (b : Broker) (node topic type : ℕ)
    → validate_topic_parameters b node topic type ≡ ok true
    → (node < length b.nodes)
      × (topic < length b.topics)
      × (t : Topic) × (index b.topics topic ≡ ok t)
      × (t.message_type_id ≡ type)
unfolding validate_topic_parameters
validate-true b node topic type e = elim (Result-cases (index b.topics topic)) [
  | inl (t, q) ↦ elim (Result-cases (index b.message_types t.message_type_id)) [
    | inl (m, r) ↦ (ground arith, ground arith, t, q, ground arith)
    | inr (f, r) ↦ absurd (ground arith)
  ]
  | inr (f, q) ↦ absurd (ground arith)
]

map-set {ℓ κ} :
    {A : Type ℓ} {B : Type κ} (f : A → B) (xs : List A) (i : ℕ) (x y : A)
    → index xs i ≡ ok x
    → f y ≡ f x
    → map f (set xs i y) ≡ map f xs
unfolding index
map-set f [] i x y e h = refl
map-set f (z ∷ zs) zero x y e h = ap (λ w. w ∷ map f zs) (h ∙ ap f (ground arith))
map-set f (z ∷ zs) (suc i) x y e h = ap (◌∷◌ (f z)) (map-set f zs i x y e h)

add_to_topic-IsValid :
    {b : Broker} (push : Topic → Topic) (topic : ℕ)
    → IsValid b
    → ((t : Topic) → (push t).name ≡ t.name)
    → ((t : Topic)
        → IsTopic (length b.nodes) (length b.message_types) t
        → IsTopic (length b.nodes) (length b.message_types) (push t))
    → Ensures (λ r. IsValid r.0) (add_to_topic push b topic)
unfolding add_to_topic
add_to_topic-IsValid {b} push topic v named kept = Ensures-bind _ (index b.topics topic) _ λ t e.
    record {
      node_names = v.node_names;
      type_names = v.type_names;
      topic_names =
          subst Distinct
            (sym (map-set (λ (t : Topic). t.name) b.topics topic t (push t) e (named t)))
            v.topic_names;
      topics =
          All-set _ b.topics topic (push t) v.topics
            (kept t (index-All _ b.topics topic t v.topics e));
    }

module _ {b : Broker} (node topic type : ℕ) (v : IsValid b) where
  push-IsTopic :
      node < length b.nodes
      → (t : Topic) → IsTopic (length b.nodes) (length b.message_types) t
      → IsTopic (length b.nodes) (length b.message_types) (push_publisher node t)
        × IsTopic (length b.nodes) (length b.message_types) (push_subscriber node t)
  unfolding push_publisher push_subscriber
  push-IsTopic lt t i = (
    record {
      typed = i.typed;
      published =
          All-append (λ n. n < length b.nodes) t.publishers (node ∷ []) i.published (lt, tt);
      subscribed = i.subscribed;
    },
    record {
      typed = i.typed;
      published = i.published;
      subscribed =
          All-append (λ n. n < length b.nodes) t.subscribers (node ∷ []) i.subscribed (lt, tt);
    },
  )

  add-IsValid :
      (push : Topic → Topic)
      → ((t : Topic) → (push t).name ≡ t.name)
      → (node < length b.nodes
          → (t : Topic) → IsTopic (length b.nodes) (length b.message_types) t
          → IsTopic (length b.nodes) (length b.message_types) (push t))
      → Ensures
          (λ r. IsValid r.0)
          (validate_topic_parameters b node topic type >>= λ valid.
            if valid then add_to_topic push b topic else ok (b, false))
  add-IsValid push named kept =
      Ensures-bind _ (validate_topic_parameters b node topic type) _ λ checked e.
        elim (Bool-cases checked) [
          | inl accepted ↦ rw accepted (
              add_to_topic-IsValid push topic v named
                (kept (validate-true b node topic type (e ∙ ap ok accepted)).0))
          | inr refused ↦ rw refused v
        ]

  -- `add_publisher` keeps the invariant: the topic gets the ID of a registered node.
  pub add_publisher-IsValid : Ensures (λ r. IsValid r.0) (add_publisher b node topic type)
  unfolding add_publisher push_publisher
  add_publisher-IsValid =
      add-IsValid (push_publisher node) (λ t. refl) (λ lt t i. (push-IsTopic lt t i).0)

  -- `add_subscriber` keeps the invariant: the topic gets the ID of a registered node.
  pub add_subscriber-IsValid : Ensures (λ r. IsValid r.0) (add_subscriber b node topic type)
  unfolding add_subscriber push_subscriber
  add_subscriber-IsValid =
      add-IsValid (push_subscriber node) (λ t. refl) (λ lt t i. (push-IsTopic lt t i).1)
