-- ===== src/Broker/Stable.antt =====
-- What the IDs of nodes, message types and topics stand for, from one broker to a later one.
use cpp_rt_pubsub.Prelude.{
  ℕ, zero, suc, ◌≡◌, refl, sym, ◌∙◌, ap, subst, ◌⊎◌, inl, inr, false, String, List, [], ◌∷◌, ◌++◌,
  append_assoc, append-nil, ok, ◌>>=◌, Ensures, Ensures-bind, Ensures-mono, ℤ, int_eq, arith, set,
  ◌==◌, str_eq, if◌then◌else◌, Bool-cases, Option-cases,
}
use cpp_rt_pubsub.Broker.{
  Broker, NodeInfo, MessageTypeInfo, Topic, dontcare_topic_priority, find_from, index,
  register_node, register_message_type, register_new_topic, register_known_topic, register_topic,
  validate_topic_parameters, push_publisher, push_subscriber, add_to_topic, add_publisher,
  add_subscriber,
}
use cpp_rt_pubsub.Broker.Inv.{index-append}
use cpp_rt_pubsub.Broker.Topics.{register_known_topic-same}
use cpp_rt_pubsub.Broker.Control.Keeps.{IsKept}

-- A topic keeps its name, type and priority; publishers and subscribers are only added.
pub record Grows (t t' : Topic) : Type 0 where
  pub name : t'.name ≡ t.name
  pub type : t'.message_type_id ≡ t.message_type_id
  pub priority : t'.priority ≡ t.priority
  pub publishers : (ps : List ℕ) × (t'.publishers ≡ t.publishers ++ ps)
  pub subscribers : (ss : List ℕ) × (t'.subscribers ≡ t.subscribers ++ ss)

Grows-refl : (t : Topic) → Grows t t
Grows-refl t = record {
  name = refl;
  type = refl;
  priority = refl;
  publishers = ([], sym (append-nil t.publishers));
  subscribers = ([], sym (append-nil t.subscribers));
}

Grows-trans : {t u v : Topic} → Grows t u → Grows u v → Grows t v
Grows-trans {t} g h =
    let (ps, ep) = g.publishers in
    let (qs, eq) = h.publishers in
    let (ss, es) = g.subscribers in
    let (rs, er) = h.subscribers in
    record {
      name = h.name ∙ g.name;
      type = h.type ∙ g.type;
      priority = h.priority ∙ g.priority;
      publishers = (ps ++ qs, eq ∙ ap (λ x. x ++ qs) ep ∙ append_assoc t.publishers ps qs);
      subscribers = (ss ++ rs, er ∙ ap (λ x. x ++ rs) es ∙ append_assoc t.subscribers ss rs);
    }

-- The second broker knows all that the first one knows, under the same IDs.
pub record Extends (b b' : Broker) : Type 0 where
  pub nodes : (i : ℕ) (n : NodeInfo) → index b.nodes i ≡ ok n → index b'.nodes i ≡ ok n
  pub types :
      (i : ℕ) (m : MessageTypeInfo)
      → index b.message_types i ≡ ok m
      → index b'.message_types i ≡ ok m
  pub topics :
      (i : ℕ) (t : Topic)
      → index b.topics i ≡ ok t
      → (t' : Topic) × (index b'.topics i ≡ ok t') × Grows t t'

pub Extends-refl : (b : Broker) → Extends b b
Extends-refl b = record {
  nodes = λ i n e. e;
  types = λ i m e. e;
  topics = λ i t e. (t, e, Grows-refl t);
}

pub Extends-trans : {a b c : Broker} → Extends a b → Extends b c → Extends a c
Extends-trans x y = record {
  nodes = λ i n e. y.nodes i n (x.nodes i n e);
  types = λ i m e. y.types i m (x.types i m e);
  topics = λ i t e.
      let (u, eu, g) = x.topics i t e in
      let (v, ev, h) = y.topics i u eu in (v, ev, Grows-trans g h);
}

module _ (b : Broker) where
  pub register_node-Extends : (address name : String) → Extends b (register_node b address name).0
  unfolding register_node
  register_node-Extends address name =
      elim (Option-cases (find_from 0 (λ (ni : NodeInfo). str_eq ni.name name) b.nodes)) [
        | inl e ↦
            rw (e, register_node)
              (record {
                nodes = λ i n h. index-append b.nodes _ i n h;
                types = λ i m h. h;
                topics = λ i t h. (t, h, Grows-refl t);
              })
        | inr (found, e) ↦ rw (e, register_node) (Extends-refl b)
      ]

  pub register_message_type-Extends :
      (name : String) (size : ℕ) → Extends b (register_message_type b name size).0
  unfolding register_message_type
  register_message_type-Extends name size =
      elim (Option-cases
        (find_from 0 (λ (m : MessageTypeInfo). str_eq m.name name) b.message_types)) [
          | inl e ↦
              rw (e, register_message_type)
                (record {
                  nodes = λ i n h. h;
                  types = λ i m h. index-append b.message_types _ i m h;
                  topics = λ i t h. (t, h, Grows-refl t);
                })
          | inr ((i, m), e) ↦
              rw (e, register_message_type)
                (elim (Bool-cases (m.size == size)) [
                  | inl q ↦ rw q (Extends-refl b)
                  | inr q ↦ rw q (Extends-refl b)
                ])
        ]

  register_new_topic-Extends :
      (name : String) (type : ℕ) (priority : ℤ)
      → Ensures (λ r. Extends b r.0) (register_new_topic b name type priority)
  unfolding register_new_topic
  register_new_topic-Extends name type priority =
      elim (Bool-cases (int_eq priority dontcare_topic_priority)) [
        | inl d ↦ rw d (Extends-refl b)
        | inr c ↦ rw c (
            Ensures-bind _ (index b.message_types type) _ λ logged _. record {
              nodes = λ i n h. h;
              types = λ i m h. h;
              topics = λ i t h. (t, index-append b.topics _ i t h, Grows-refl t);
            })
      ]

  register_topic-Extends :
      (name : String) (type : ℕ) (priority : ℤ)
      → Ensures (λ r. Extends b r.0) (register_topic b name type priority)
  unfolding register_topic
  register_topic-Extends name type priority =
      elim (Option-cases (find_from 0 (λ (t : Topic). str_eq t.name name) b.topics)) [
        | inl e ↦ rw (e, register_topic) (register_new_topic-Extends name type priority)
        | inr ((i, t), e) ↦
            rw (e, register_topic)
              (Ensures-mono _ _ (register_known_topic b i t type priority)
                (λ r same. subst (Extends b) (sym same) (Extends-refl b))
                (register_known_topic-same b i t type priority))
      ]

-- A write at an index gives the new entry there, and leaves every other one.
index-set {ℓ} :
    {A : Type ℓ} (xs : List A) (i j : ℕ) (x y z : A)
    → index xs i ≡ ok x
    → index xs j ≡ ok z
    → ((i ≡ j) × (x ≡ z) × (index (set xs i y) j ≡ ok y)) ⊎ (index (set xs i y) j ≡ ok z)
unfolding index
index-set [] i j x y z e h = cc
index-set (w ∷ ws) zero zero x y z e h = inl (refl, ground arith, refl)
index-set (w ∷ ws) zero (suc j) x y z e h = inr h
index-set (w ∷ ws) (suc i) zero x y z e h = inr h
index-set (w ∷ ws) (suc i) (suc j) x y z e h = elim (index-set ws i j x y z e h) [
  | inl (p, q, r) ↦ inl (ap suc p, q, r)
  | inr r ↦ inr r
]

add_to_topic-Extends :
    (b : Broker) (push : Topic → Topic) (topic : ℕ)
    → ((t : Topic) → Grows t (push t))
    → Ensures (λ r. Extends b r.0) (add_to_topic push b topic)
unfolding add_to_topic
add_to_topic-Extends b push topic grows = Ensures-bind _ (index b.topics topic) _ λ t e. record {
  nodes = λ i n h. h;
  types = λ i m h. h;
  topics = λ i u h. elim (index-set b.topics topic i t (push t) u e h) [
    | inl (p, q, r) ↦ (push t, r, subst (λ x. Grows x (push t)) q (grows t))
    | inr r ↦ (u, r, Grows-refl u)
  ];
}

add-Extends :
    (b : Broker) (n t m : ℕ) (push : Topic → Topic)
    → ((t : Topic) → Grows t (push t))
    → Ensures
        (λ r. Extends b r.0)
        (validate_topic_parameters b n t m >>= λ valid.
          if valid then add_to_topic push b t else ok (b, false))
add-Extends b n t m push grows = Ensures-bind _ (validate_topic_parameters b n t m) _ λ checked _.
    elim (Bool-cases checked) [
      | inl accepted ↦ rw accepted (add_to_topic-Extends b push t grows)
      | inr refused ↦ rw refused (Extends-refl b)
    ]

push-Grows : (n : ℕ) (t : Topic) → Grows t (push_publisher n t) × Grows t (push_subscriber n t)
unfolding push_publisher push_subscriber
push-Grows n t = (
  record {
    name = refl;
    type = refl;
    priority = refl;
    publishers = (n ∷ [], refl);
    subscribers = ([], sym (append-nil t.subscribers));
  },
  record {
    name = refl;
    type = refl;
    priority = refl;
    publishers = ([], sym (append-nil t.publishers));
    subscribers = (n ∷ [], refl);
  },
)

-- Each operation of the tables keeps the meaning of every ID since the broker `a`.
pub Extends-IsKept : (a : Broker) → IsKept (Extends a)
unfolding add_publisher add_subscriber
Extends-IsKept a = record {
  counters = λ b cs x. record { nodes = x.nodes; types = x.types; topics = x.topics };
  requests = record {
    node = λ b address name x. Extends-trans x (register_node-Extends b address name);
    message = λ b name size x. Extends-trans x (register_message_type-Extends b name size);
    topic = λ b name type priority x.
        Ensures-mono _ _ (register_topic b name type priority) (λ r y. Extends-trans x y)
          (register_topic-Extends b name type priority);
    publisher = λ b n t m x.
        Ensures-mono _ _ (add_publisher b n t m) (λ r y. Extends-trans x y)
          (add-Extends b n t m (push_publisher n) (λ t. (push-Grows n t).0));
    subscriber = λ b n t m x.
        Ensures-mono _ _ (add_subscriber b n t m) (λ r y. Extends-trans x y)
          (add-Extends b n t m (push_subscriber n) (λ t. (push-Grows n t).1));
  };
}
