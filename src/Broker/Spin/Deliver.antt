-- ===== src/Broker/Spin/Deliver.antt =====
-- What the broker does with a data packet: who gets it.
use cpp_rt_pubsub.Prelude.{
  ℕ, ◌≤◌, ◌<◌, ◌≡◌, sym, ◌∙◌, ap, inl, inr, Bool, true, not, String, List, [], ◌∷◌, ◌++◌,
  append_assoc, append-nil, map, none, some, Bytes, ok, err, out_of_bounds, pos, arith, All,
  All-get_or, length, get_elem?, get_or, leb, ◌==◌, if◌then◌else◌, Bool-cases, Option-cases,
  leb-true, leb-false, get_elem?-eq-get_or, get_elem?-beyond, dec_lt,
}
use cpp_rt_pubsub.Json.{Json}
use cpp_rt_pubsub.Protocol.{Packet}
use cpp_rt_pubsub.Broker.{Broker, NodeInfo, Topic, index}
use cpp_rt_pubsub.Broker.Inv.{IsTopic, IsValid, index_beyond}
use cpp_rt_pubsub.MessageQueue.Inv.{get_elem?-All}
use cpp_rt_pubsub.Broker.Spin.{
  Server, Datagram, send_data, send_to_subscribers, log_topic, forward_data,
}

-- The specification: the subscribers of a topic, in the order of their registration, if the message
-- type is that of the topic.
unfoldable pub audience : Broker → ℕ → ℕ → List ℕ
audience b topic type = elim (get_elem? b.topics topic) [
  | none ↦ []
  | some t ↦ if t.message_type_id == type then t.subscribers else []
]

-- The address of a node; no node has the ID in the first case.
abbrev pub address_of : List NodeInfo → ℕ → String
address_of nodes n = elim (get_elem? nodes n) [ none ↦ "" | some node ↦ node.address ]

-- One packet to each of the nodes.
abbrev pub deliveries : List NodeInfo → Bytes → List ℕ → List Datagram
deliveries nodes packet ns = map (λ n. (address_of nodes n, packet)) ns

abbrev nobody : NodeInfo
nobody = record { name = ""; address = "" }

abbrev no_topic : Topic
no_topic = record {
  name = "";
  message_type_id = 0;
  priority = pos 0;
  publishers = [];
  subscribers = [];
}

module _ (json : Json) (debug : Bool) (accepts : List Datagram → String → Bytes → Bool) where
  -- A failed send does not end the loop.
  send_to_subscribers-ok :
      (packet : Bytes) (ns : List ℕ) (s : Server)
      → All (λ n. n < length s.broker.nodes) ns
      → send_to_subscribers json debug accepts packet ns s
        ≡ ok (record s { sent = s.sent ++ deliveries s.broker.nodes packet ns })
  unfolding send_to_subscribers send_data index
  send_to_subscribers-ok packet [] s h =
      ap (λ l. ok (record s { sent = l })) (sym (append-nil s.sent))
  send_to_subscribers-ok packet (n ∷ ns) s h =
      let node = get_or s.broker.nodes n nobody in
      let known = get_elem?-eq-get_or s.broker.nodes n nobody h.0 in
      let there : address_of s.broker.nodes n ≡ node.address = rw (known, address_of) in
      rw known (
        send_to_subscribers-ok packet ns (record s { sent = s.sent ++ (node.address, packet) ∷ [] })
          h.1
        ∙ ap (λ l. ok (record s { sent = l }))
            (append_assoc s.sent ((node.address, packet) ∷ [])
              (deliveries s.broker.nodes packet ns))
        ∙ ap
            (λ a.
              ok (record s { sent = s.sent ++ (a, packet) ∷ deliveries s.broker.nodes packet ns }))
            (sym there))

  audience-All :
      (b : Broker) (topic type : ℕ)
      → IsValid b
      → All (λ n. n < length b.nodes) (audience b topic type)
  unfolding audience
  audience-All b topic type v = elim (Option-cases (get_elem? b.topics topic)) [
    | inl e ↦ rw (e, audience) tt
    | inr (t, e) ↦
        let known = get_elem?-All _ b.topics topic t v.topics e in
        rw (e, audience)
          (elim (Bool-cases (t.message_type_id == type)) [
            | inl q ↦ rw q known.subscribed
            | inr q ↦ rw q tt
          ])
  ]

  log_topic-ok :
      (s : Server) (topic : ℕ)
      → (debug ≡ true → topic < length s.broker.topics)
      → log_topic json debug accepts s topic ≡ ok tt
  unfolding log_topic index
  log_topic-ok s topic h = elim (Bool-cases debug) [
    | inl on ↦ rw (on, get_elem?-eq-get_or s.broker.topics topic no_topic (h on))
    | inr off ↦ rw off
  ]

  sent-nothing : (s : Server) → ok s ≡ ok (record s { sent = s.sent ++ [] })
  sent-nothing s = ap (λ l. ok (record s { sent = l })) (sym (append-nil s.sent))

  forward_data-known :
      (s : Server) (packet : Bytes) (p : Packet json.Value) (t : Topic)
      → IsTopic (length s.broker.nodes) (length s.broker.message_types) t
      → (if leb (length s.broker.message_types) p.message_type_id
          then ok s
          else if not (t.message_type_id == p.message_type_id)
          then ok s
          else send_to_subscribers json debug accepts packet t.subscribers s)
        ≡ ok (record s {
          sent =
              s.sent
              ++ deliveries s.broker.nodes packet
                  (if t.message_type_id == p.message_type_id then t.subscribers else []);
        })
  forward_data-known s packet p t known =
      elim (Bool-cases (t.message_type_id == p.message_type_id)) [
        | inl same ↦
            rw
              (
                same,
                leb-false (length s.broker.message_types) p.message_type_id
                    (ground (arith, known.typed)),
              )
              (send_to_subscribers-ok packet t.subscribers s known.subscribed)
        | inr other ↦
            rw other (elim (Bool-cases (leb (length s.broker.message_types) p.message_type_id)) [
              | inl e ↦ rw e (sent-nothing s)
              | inr e ↦ rw e (sent-nothing s)
            ])
      ]

  -- In a valid broker a data packet goes, unchanged, to each subscriber of its topic in the order of registration, if
  -- its message type is the topic's, and to nobody otherwise; the tables stay as they are. With
  -- debug lines compiled in this needs a topic ID that is registered.
  pub forward_data-audience :
      (s : Server) (packet : Bytes) (p : Packet json.Value)
      → IsValid s.broker
      → (debug ≡ true → p.topic_id < length s.broker.topics)
      → forward_data json debug accepts s packet p
        ≡ ok (record s {
          sent =
              s.sent
              ++ deliveries s.broker.nodes packet (audience s.broker p.topic_id p.message_type_id);
        })
  unfolding forward_data index audience
  forward_data-audience s packet p v h = elim (dec_lt p.topic_id (length s.broker.topics)) [
    | yes lt ↦
        let t = get_or s.broker.topics p.topic_id no_topic in
        rw
          (
            log_topic-ok s p.topic_id h,
            leb-false (length s.broker.topics) p.topic_id lt,
            get_elem?-eq-get_or s.broker.topics p.topic_id no_topic lt,
            audience,
          )
          (forward_data-known s packet p t
            (All-get_or _ s.broker.topics p.topic_id no_topic v.topics lt))
    | no ge ↦
        rw
          (
            log_topic-ok s p.topic_id h,
            leb-true (length s.broker.topics) p.topic_id (omega arith),
            get_elem?-beyond s.broker.topics p.topic_id (omega arith),
            audience,
          )
          (sent-nothing s)
  ]

  -- With debug lines compiled in, a data packet for a topic ID that is not registered makes the broker
  -- read outside of its table of topics.
  pub forward_data_debug_faults :
      (s : Server) (packet : Bytes) (p : Packet json.Value)
      → debug ≡ true
      → length s.broker.topics ≤ p.topic_id
      → forward_data json debug accepts s packet p ≡ err out_of_bounds
  unfolding forward_data log_topic
  forward_data_debug_faults s packet p on h = rw (on, index_beyond s.broker.topics p.topic_id h)
