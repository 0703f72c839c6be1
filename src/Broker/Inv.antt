-- ===== src/Broker/Inv.antt =====
-- The invariant of the broker's tables, and the operations on nodes and message types.
use cpp_rt_pubsub.Prelude.{
  ℕ, zero, suc, ◌+◌, ◌≤◌, ◌<◌, ◌≡◌, refl, sym, subst, ◌≢◌, inl, inr, Bool, true, String, List, [],
  ◌∷◌, ◌++◌, map, map-append, Option, none, some, ok, err, out_of_bounds, arith, length,
  length-append, get_elem?, All, All-append, All-map, str_eq, str_eq_refl, str_eq-ne, ap, ◌∙◌,
  eq_iff, Bool-cases, Option-cases,
}
use cpp_rt_pubsub.Broker.{
  Broker, NodeInfo, MessageTypeInfo, Topic, new_broker, find_from, index, register_node,
  register_message_type,
}

abbrev pub Distinct : List String → Type 0
Distinct [] = Unit
Distinct (x ∷ xs) = All (λ y. x ≢ y) xs × Distinct xs

-- The IDs in a topic are those of registered nodes and message types.
pub record IsTopic (nodes types : ℕ) (t : Topic) : Type 0 where
  pub typed : t.message_type_id < types
  pub published : All (λ n. n < nodes) t.publishers
  pub subscribed : All (λ n. n < nodes) t.subscribers

pub record IsValid (b : Broker) : Type 0 where
  pub node_names : Distinct (map (λ (n : NodeInfo). n.name) b.nodes)
  pub type_names : Distinct (map (λ (m : MessageTypeInfo). m.name) b.message_types)
  pub topic_names : Distinct (map (λ (t : Topic). t.name) b.topics)
  pub topics : All (IsTopic (length b.nodes) (length b.message_types)) b.topics

pub new_broker-IsValid : IsValid new_broker
new_broker-IsValid = record { node_names = tt; type_names = tt; topic_names = tt; topics = tt }

-- `std::find_if` by name.
module _ {ℓ} {A : Type ℓ} (name : A → String) (key : String) where
  -- It fails only if no entry has the name.
  pub find_none :
      (i : ℕ) (xs : List A)
      → find_from i (λ x. str_eq (name x) key) xs ≡ none
      → All (λ s. key ≢ s) (map name xs)
  unfolding find_from
  find_none i [] e = tt
  find_none i (x ∷ xs) e = elim (Bool-cases (str_eq (name x) key)) [
    | inl hit ↦ absurd (ground (arith, hit))
    | inr miss ↦
        ((λ q. ground (arith, eq_iff (name x) key)), find_none (suc i) xs (ground (arith, miss)))
  ]

  pub find_absent :
      (i : ℕ) (xs : List A)
      → All (λ s. key ≢ s) (map name xs)
      → find_from i (λ x. str_eq (name x) key) xs ≡ none
  unfolding find_from
  find_absent i [] h = refl
  find_absent i (x ∷ xs) h =
      rw (str_eq-ne (name x) key (λ q. h.0 (sym q))) (find_absent (suc i) xs h.1)

Distinct-snoc :
    (xs : List String) (y : String) → Distinct xs → All (λ x. y ≢ x) xs → Distinct (xs ++ y ∷ [])
Distinct-snoc [] y d h = (tt, tt)
Distinct-snoc (x ∷ xs) y d h =
    (All-append (λ z. x ≢ z) xs (y ∷ []) d.0 ((λ e. h.0 (sym e)), tt), Distinct-snoc xs y d.1 h.1)

-- What `std::find_if` finds passes the test, and stands at the index that it is found at.
pub find_some {ℓ} :
    {A : Type ℓ} (test : A → Bool) (i : ℕ) (xs : List A) (j : ℕ) (x : A)
    → find_from i test xs ≡ some (j, x)
    → (test x ≡ true) × (k : ℕ) × (j ≡ i + k) × (k < length xs) × (get_elem? xs k ≡ some x)
unfolding find_from
find_some {A} test i [] j x e = cc
find_some {A} test i (y ∷ ys) j x e = elim (Bool-cases (test y)) [
  | inl hit ↦
      let q : ◌≡◌ {A = Option (ℕ × A)} (some (i, y)) (some (j, x)) = rw hit at e in
      (ground (arith, hit), 0, ground arith, omega arith, ground arith)
  | inr miss ↦
      let r : find_from (suc i) test ys ≡ some (j, x) = rw miss at e in
      let (t, k, ej, lt, at) = find_some test (suc i) ys j x r in
      (t, suc k, omega arith, omega arith, at)
]

IsTopic-mono : {n n' m m' : ℕ} {t : Topic} → n ≤ n' → m ≤ m' → IsTopic n m t → IsTopic n' m' t
IsTopic-mono {t} hn hm i = record {
  typed = omega (arith, i.typed);
  published = All-map (λ p h. omega arith) t.publishers i.published;
  subscribed = All-map (λ p h. omega arith) t.subscribers i.subscribed;
}

IsTopic-mono-All :
    {n n' m m' : ℕ} (ts : List Topic)
    → n ≤ n'
    → m ≤ m'
    → All (IsTopic n m) ts
    → All (IsTopic n' m') ts
IsTopic-mono-All ts hn hm = All-map (λ t i. IsTopic-mono hn hm i) ts

pub Distinct-map_snoc {ℓ} :
    {A : Type ℓ} (name : A → String) (xs : List A) (x : A)
    → Distinct (map name xs)
    → All (λ s. name x ≢ s) (map name xs)
    → Distinct (map name (xs ++ x ∷ []))
Distinct-map_snoc name xs x d h =
    rw (map-append name xs (x ∷ [])) (Distinct-snoc (map name xs) (name x) d h)

-- `register_node` keeps the invariant.
pub register_node-IsValid :
    {b : Broker} (address name : String) → IsValid b → IsValid (register_node b address name).0
unfolding register_node
register_node-IsValid {b} address name v =
    elim (Option-cases (find_from 0 (λ (ni : NodeInfo). str_eq ni.name name) b.nodes)) [
      | inl e ↦
          rw (e, register_node)
            (record {
              node_names =
                  Distinct-map_snoc (λ (n : NodeInfo). n.name) b.nodes _ v.node_names
                    (find_none (λ (n : NodeInfo). n.name) name 0 b.nodes e);
              type_names = v.type_names;
              topic_names = v.topic_names;
              topics =
                  IsTopic-mono-All b.topics
                    (omega (
                      arith,
                      length-append b.nodes (record { name = name; address = address } ∷ []),
                    ))
                    (omega arith) v.topics;
            })
      | inr (found, e) ↦ rw (e, register_node) v
    ]

-- `register_message_type` keeps the invariant.
pub register_message_type-IsValid :
    {b : Broker} (name : String) (size : ℕ)
    → IsValid b
    → IsValid (register_message_type b name size).0
unfolding register_message_type
register_message_type-IsValid {b} name size v =
    elim (Option-cases
      (find_from 0 (λ (m : MessageTypeInfo). str_eq m.name name) b.message_types)) [
        | inl e ↦
            rw (e, register_message_type)
              (record {
                node_names = v.node_names;
                type_names =
                    Distinct-map_snoc (λ (m : MessageTypeInfo). m.name) b.message_types _
                      v.type_names
                      (find_none (λ (m : MessageTypeInfo). m.name) name 0 b.message_types e);
                topic_names = v.topic_names;
                topics =
                    IsTopic-mono-All b.topics (omega arith)
                      (omega (
                        arith,
                        length-append b.message_types (record { name = name; size = size } ∷ []),
                      ))
                      v.topics;
              })
        | inr ((i, m), e) ↦ rw (e, register_message_type) (ground arith)
      ]

pub index-lt {ℓ} : {A : Type ℓ} (xs : List A) (i : ℕ) (x : A) → index xs i ≡ ok x → i < length xs
unfolding index
index-lt [] i x e = cc
index-lt (y ∷ ys) zero x e = omega arith
index-lt (y ∷ ys) (suc i) x e = omega (arith, index-lt ys i x e)

pub index-All {ℓ κ} :
    {A : Type ℓ} (P : A → Type κ) (xs : List A) (i : ℕ) (x : A) → All P xs → index xs i ≡ ok x → P x
unfolding index
index-All P [] i x h e = cc
index-All P (y ∷ ys) zero x h e = subst P (ground arith) h.0
index-All P (y ∷ ys) (suc i) x h e = index-All P ys i x h.1 e

pub index_beyond {ℓ} :
    {A : Type ℓ} (xs : List A) (i : ℕ) → length xs ≤ i → index xs i ≡ err out_of_bounds
unfolding index
index_beyond [] i h = refl
index_beyond (x ∷ xs) zero h = absurd (omega arith)
index_beyond (x ∷ xs) (suc i) h = index_beyond xs i (omega arith)

pub index-append {ℓ} :
    {A : Type ℓ} (xs ys : List A) (i : ℕ) (x : A) → index xs i ≡ ok x → index (xs ++ ys) i ≡ ok x
unfolding index
index-append [] ys i x e = cc
index-append (z ∷ zs) ys zero x e = e
index-append (z ∷ zs) ys (suc i) x e = index-append zs ys i x e

-- An entry that passes the test, wherever it stands, lets `std::find_if` find one.
pub find_from-hit {ℓ} :
    {A : Type ℓ} (test : A → Bool) (i : ℕ) (xs : List A) (k : ℕ) (x : A)
    → index xs k ≡ ok x
    → test x ≡ true
    → (found : ℕ × A) × (find_from i test xs ≡ some found)
unfolding index find_from
find_from-hit test i [] k x e h = cc
find_from-hit test i (y ∷ ys) zero x e h =
    let same : y ≡ x = ground arith in ((i, y), rw (same, h) refl)
find_from-hit test i (y ∷ ys) (suc k) x e h = elim (Bool-cases (test y)) [
  | inl hit ↦ ((i, y), rw hit refl)
  | inr miss ↦ rw miss (find_from-hit test (suc i) ys k x e h)
]

named_apart {ℓ} :
    {A : Type ℓ} (name : A → String) (y : A) (ys : List A) (k : ℕ) (x : A)
    → All (λ s. name y ≢ s) (map name ys)
    → index ys k ≡ ok x
    → name y ≢ name x
unfolding index
named_apart name y [] k x h e = cc
named_apart name y (z ∷ zs) zero x h e = subst (λ w. name y ≢ name w) (ground arith) h.0
named_apart name y (z ∷ zs) (suc k) x h e = named_apart name y zs k x h.1 e

-- Where no name stands twice, an entry is found by its name.
pub find_from-named {ℓ} :
    {A : Type ℓ} (name : A → String) (i : ℕ) (xs : List A) (k : ℕ) (x : A)
    → Distinct (map name xs)
    → index xs k ≡ ok x
    → find_from i (λ y. str_eq (name y) (name x)) xs ≡ some (i + k, x)
unfolding index find_from
find_from-named name i [] k x d e = cc
find_from-named name i (y ∷ ys) zero x d e =
    let same : y ≡ x = ground arith in
    rw (same, str_eq_refl (name x)) (ap (λ n. some (n, x)) (omega arith))
find_from-named {A} name i (y ∷ ys) (suc k) x d e =
    let other : name y ≢ name x = named_apart name y ys k x d.0 e in
    rw (str_eq-ne (name y) (name x) other)
      (find_from-named name (suc i) ys k x d.1 e ∙ ap (λ n. some (n, x)) (omega arith))
