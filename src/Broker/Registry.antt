-- ===== src/Broker/Registry.antt =====
-- What a registration gives, and what registering the same name does from then on.
use cpp_rt_pubsub.Prelude.{
  ℕ, suc, ◌+◌, ◌-◌, ◌^◌, ◌<◌, ◌≡◌, refl, ◌∙◌, ap, subst, inl, inr, Bool, true, String, List, [],
  ◌∷◌, ◌++◌, none, some, ok, out_of_bounds, or_fail, get_elem?, arith, eq_iff, length,
  length-append, str_eq, str_eq_refl, ◌==◌, if◌then◌else◌, Bool-cases, Option-cases,
}
use cpp_rt_pubsub.Broker.{
  Broker, NodeInfo, MessageTypeInfo, to_u32, find_from, index, register_node, register_message_type,
}
use cpp_rt_pubsub.Broker.Inv.{IsValid, find_some, find_from-hit, find_from-named}
use cpp_rt_pubsub.Broker.Stable.{Extends}

module _ {ℓ} {A : Type ℓ} (test : A → Bool) where
  -- An entry that passes the test is found at the end, where nothing before it does.
  pub find_from-snoc :
      (i : ℕ) (xs : List A) (x : A)
      → find_from i test xs ≡ none
      → test x ≡ true
      → find_from i test (xs ++ x ∷ []) ≡ some (i + length xs, x)
  unfolding find_from
  find_from-snoc i [] x e h = rw h (ground arith)
  find_from-snoc i (y ∷ ys) x e h = elim (Bool-cases (test y)) [
    | inl hit ↦ absurd (ground (arith, hit))
    | inr miss ↦
        rw miss (find_from-snoc (suc i) ys x (rw miss at e) h ∙ ap (λ k. some (k, x)) (omega arith))
  ]

pub index-snoc {ℓ} : {A : Type ℓ} (xs : List A) (x : A) → index (xs ++ x ∷ []) (length xs) ≡ ok x
unfolding index
index-snoc [] x = refl
index-snoc (y ∷ ys) x = index-snoc ys x

module _ (b : Broker) (address name : String) where
  abbrev node_info : NodeInfo
  node_info = record { name = name; address = address }

  new_node : Broker
  new_node = record b { nodes = b.nodes ++ node_info ∷ [] }

  register_node-new :
      find_from 0 (λ (ni : NodeInfo). str_eq ni.name name) b.nodes ≡ none
      → register_node b address name ≡ (new_node, some (to_u32 (length b.nodes)))
  unfolding register_node new_node
  register_node-new e =
      rw (e, register_node)
        (ap (λ k. (new_node, some (to_u32 (k - 1)))) (length-append b.nodes _)
          ∙ ap (λ k. (new_node, some (to_u32 k))) (omega arith))

  register_node-old :
      (found : ℕ × NodeInfo)
      → find_from 0 (λ (ni : NodeInfo). str_eq ni.name name) b.nodes ≡ some found
      → register_node b address name ≡ (b, none)
  unfolding register_node
  register_node-old found e = rw (e, register_node)

  register_node_id :
      {id : ℕ}
      → (register_node b address name).1 ≡ some id
      → length b.nodes < 2 ^ 32
      → index (register_node b address name).0.nodes id ≡ ok node_info
  unfolding new_node
  register_node_id {id} h small =
      elim (Option-cases (find_from 0 (λ (ni : NodeInfo). str_eq ni.name name) b.nodes)) [
        | inl e ↦
            let q : some (to_u32 (length b.nodes)) ≡ some id = rw (register_node-new e) at h in
            let at_end : length b.nodes ≡ id = ground (arith, q) in
            rw (register_node-new e) (
              subst (λ k. index (b.nodes ++ node_info ∷ []) k ≡ ok node_info) at_end
                (index-snoc b.nodes node_info))
        | inr (found, e) ↦ absurd (ground (arith, rw (register_node-old found e) at h))
      ]

-- A node that is in the table is found by its name, so the name is refused.
register_node-taken :
    (b : Broker) (id : ℕ) (info : NodeInfo)
    → index b.nodes id ≡ ok info
    → (other : String) → register_node b other info.name ≡ (b, none)
register_node-taken b id info here other =
    let (found, e) =
      find_from-hit (λ (ni : NodeInfo). str_eq ni.name info.name) 0 b.nodes id info here
        (str_eq_refl info.name) in
    register_node-old b other info.name found e

-- A registration that returns an ID, with fewer than 2 ^ 32 nodes, and any later broker, one in which
-- the nodes, message types and topics that there are after the registration have kept their IDs: there
-- the ID is that of a node with this name and address, and a registration of the name, from any
-- address, fails and changes nothing.
pub register_node_twice :
    (b later : Broker) (address name : String) {id : ℕ}
    → (register_node b address name).1 ≡ some id
    → length b.nodes < 2 ^ 32
    → Extends (register_node b address name).0 later
    → (index later.nodes id ≡ ok (record { name = name; address = address }))
      × ((other : String) → register_node later other name ≡ (later, none))
register_node_twice b later address name {id} h small x =
    let here = x.nodes id _ (register_node_id b address name h small) in
    (here, register_node-taken later id _ here)

module _ (b : Broker) (name : String) (size : ℕ) where
  abbrev is_type : MessageTypeInfo → Bool
  is_type m = str_eq m.name name

  abbrev type_info : MessageTypeInfo
  type_info = record { name = name; size = size }

  new_type : Broker
  new_type = record b { message_types = b.message_types ++ type_info ∷ [] }

  register_message_type-new :
      find_from 0 is_type b.message_types ≡ none
      → register_message_type b name size ≡ (new_type, some (to_u32 (length b.message_types)))
  unfolding register_message_type new_type
  register_message_type-new e =
      rw (e, register_message_type)
        (ap (λ k. (new_type, some (to_u32 (k - 1)))) (length-append b.message_types _)
          ∙ ap (λ k. (new_type, some (to_u32 k))) (omega arith))

  register_message_type-old :
      (i : ℕ) (m : MessageTypeInfo)
      → find_from 0 is_type b.message_types ≡ some (i, m)
      → (other : ℕ)
      → register_message_type b name other
        ≡ (b, (if m.size == other then some (to_u32 i) else none))
  unfolding register_message_type
  register_message_type-old i m e other = rw (e, register_message_type) (ground arith)

  register_message_type-known :
      {id i : ℕ} {m : MessageTypeInfo}
      → find_from 0 is_type b.message_types ≡ some (i, m)
      → (if m.size == size then some (to_u32 i) else none) ≡ some id
      → length b.message_types < 2 ^ 32
      → (id < 2 ^ 32) × (index b.message_types id ≡ ok type_info)
  unfolding index
  register_message_type-known {id} {i} {m} e h small =
      let (hit, k, at_k, lt, here) = find_some is_type 0 b.message_types i m e in
      let same_size : m.size ≡ size = ground arith in
      let same_name : m.name ≡ name = (eq_iff m.name name).0 hit in
      let same : m ≡ type_info = λ j. record { name = same_name j; size = same_size j } in
      let same_id : k ≡ id = ground arith in
      (
        omega (arith, same_id, lt),
        subst (λ j. or_fail (get_elem? b.message_types j) out_of_bounds ≡ ok type_info) same_id
            (rw here (ap ok same)),
      )

  register_message_type_id :
      {id : ℕ}
      → (register_message_type b name size).1 ≡ some id
      → length b.message_types < 2 ^ 32
      → (id < 2 ^ 32)
        × (index (register_message_type b name size).0.message_types id ≡ ok type_info)
  unfolding new_type
  register_message_type_id {id} h small =
      elim (Option-cases (find_from 0 is_type b.message_types)) [
        | inl e ↦
            let q : some (to_u32 (length b.message_types)) ≡ some id =
              rw (register_message_type-new e) at h in
            let at_end : length b.message_types ≡ id = ground (arith, q) in
            rw (register_message_type-new e) (
              omega (arith, at_end),
              subst (λ k. index (b.message_types ++ type_info ∷ []) k ≡ ok type_info) at_end
                  (index-snoc b.message_types type_info),
            )
        | inr ((i, m), e) ↦
            rw (register_message_type-old i m e size)
              (register_message_type-known e (rw (register_message_type-old i m e size) at h) small)
      ]

-- A registration that returns an ID, with fewer than 2 ^ 32 message types, and any later broker, one in
-- which the nodes, message types and topics that there are after the registration have kept their IDs,
-- and no two entries of a table have the same name: there the ID is that of a type with this name and
-- size; a registration of the name with this size gives the same ID, one with another size gives none,
-- and neither changes the broker.
pub register_message_type_twice :
    (b later : Broker) (name : String) (size : ℕ) {id : ℕ}
    → (register_message_type b name size).1 ≡ some id
    → length b.message_types < 2 ^ 32
    → Extends (register_message_type b name size).0 later
    → IsValid later
    → (index later.message_types id ≡ ok (record { name = name; size = size }))
      × ((other : ℕ)
          → register_message_type later name other
            ≡ (later, (if size == other then some id else none)))
register_message_type_twice b later name size {id} h small x v =
    let info : MessageTypeInfo = record { name = name; size = size } in
    let (lt, there) = register_message_type_id b name size h small in
    let here = x.types id info there in
    let found =
      find_from-named (λ (m : MessageTypeInfo). m.name) 0 later.message_types id info v.type_names
        here in
    let same : to_u32 (0 + id) ≡ id = omega arith in
    (
      here,
      λ other.
          register_message_type-old later name size (0 + id) info found other
          ∙ ap (λ k. (later, (if size == other then some k else none))) same,
    )
