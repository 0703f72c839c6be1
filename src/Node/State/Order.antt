-- ===== src/Node/State/Order.antt =====
-- `m_topics_by_prio` as an ordered map: what registrations do to it.
use cpp_rt_pubsub.Prelude.{
  ◌≡◌, refl, sym, ◌∙◌, ap, true, false, List, [], ◌∷◌, Option, none, some, ℤ, pos, negsuc, int_eq,
  int_eq→eq, int_eq_refl, if◌then◌else◌, All, All-map, arith, Bool-cases, inl, inr,
}
use cpp_rt_pubsub.Node.State.{TopicInfo, no_clients, before, change_prio}

-- Each priority is above those that follow.
abbrev pub Descending : List (ℤ × TopicInfo) → Type 0
Descending [] = Unit
Descending ((k, info) ∷ m) = All (λ (t : ℤ × TopicInfo). before k t.0 ≡ true) m × Descending m

-- The clients of a priority, if there are any.
unfoldable pub find_prio : ℤ → List (ℤ × TopicInfo) → Option TopicInfo
find_prio p [] = none
find_prio p ((k, info) ∷ m) = if int_eq k p then some info else find_prio p m

abbrev pub or_no_clients : Option TopicInfo → TopicInfo
or_no_clients none = no_clients
or_no_clients (some info) = info

before_trans : (a b c : ℤ) → before a b ≡ true → before b c ≡ true → before a c ≡ true
unfolding before
before_trans (pos a) (pos b) (pos c) h k = ground arith
before_trans (pos a) (pos b) (negsuc c) h k = refl
before_trans (pos a) (negsuc b) (pos c) h k = cc
before_trans (pos a) (negsuc b) (negsuc c) h k = refl
before_trans (negsuc a) (pos b) c h k = cc
before_trans (negsuc a) (negsuc b) (pos c) h k = cc
before_trans (negsuc a) (negsuc b) (negsuc c) h k = ground arith

before-other : (a b : ℤ) → int_eq b a ≡ false → before a b ≡ false → before b a ≡ true
unfolding before
before-other (pos a) (pos b) h k = ground arith
before-other (pos a) (negsuc b) h k = cc
before-other (negsuc a) (pos b) h k = refl
before-other (negsuc a) (negsuc b) h k = ground arith

before-ne : (a b : ℤ) → before a b ≡ true → int_eq b a ≡ false
unfolding before
before-ne (pos a) (pos b) h = ground arith
before-ne (pos a) (negsuc b) h = refl
before-ne (negsuc a) (pos b) h = refl
before-ne (negsuc a) (negsuc b) h = ground arith

module _ (q : ℤ) (change : TopicInfo → TopicInfo) where
  -- All entries stay behind a priority that is above them and the changed one.
  change_prio-behind :
      (k : ℤ) (m : List (ℤ × TopicInfo))
      → before k q ≡ true
      → All (λ (t : ℤ × TopicInfo). before k t.0 ≡ true) m
      → All (λ (t : ℤ × TopicInfo). before k t.0 ≡ true) (change_prio q change m)
  unfolding change_prio
  change_prio-behind k [] h a = (h, tt)
  change_prio-behind k ((j, info) ∷ m) h a = elim (Bool-cases (int_eq j q)) [
    | inl e ↦ rw e a
    | inr ne ↦ rw ne (elim (Bool-cases (before q j)) [
      | inl b ↦ rw b (h, a)
      | inr b ↦ rw b (a.0, change_prio-behind k m h a.1)
    ])
  ]

  pub change_prio-Descending :
      (m : List (ℤ × TopicInfo)) → Descending m → Descending (change_prio q change m)
  unfolding change_prio
  change_prio-Descending [] d = (tt, tt)
  change_prio-Descending ((j, info) ∷ m) d = elim (Bool-cases (int_eq j q)) [
    | inl e ↦ rw e d
    | inr ne ↦ rw ne (elim (Bool-cases (before q j)) [
      | inl b ↦ rw b ((b, All-map (λ t h. before_trans q j t.0 b h) m d.0), d)
      | inr b ↦
          rw b (change_prio-behind j m (before-other q j ne b) d.0, change_prio-Descending m d.1)
    ])
  ]

  find_prio-behind :
      (k : ℤ) (m : List (ℤ × TopicInfo))
      → All (λ (t : ℤ × TopicInfo). before k t.0 ≡ true) m
      → find_prio k m ≡ none
  unfolding find_prio
  find_prio-behind k [] a = refl
  find_prio-behind k ((j, info) ∷ m) a = rw (before-ne k j a.0) (find_prio-behind k m a.1)

  other : (j p : ℤ) → int_eq j q ≡ false → int_eq j p ≡ true → int_eq q p ≡ false
  other j p ne e = elim (Bool-cases (int_eq q p)) [
    | inl e' ↦
        let same : j ≡ q = int_eq→eq j p e ∙ sym (int_eq→eq q p e') in
        absurd (ground (arith, ne, ap (λ x. int_eq x q) same ∙ int_eq_refl q))
    | inr k ↦ k
  ]

  pub find_prio-change_prio :
      (p : ℤ) (m : List (ℤ × TopicInfo))
      → Descending m
      → find_prio p (change_prio q change m)
        ≡ (if int_eq q p then some (change (or_no_clients (find_prio q m))) else find_prio p m)
  unfolding find_prio change_prio
  find_prio-change_prio p [] d = refl
  find_prio-change_prio p ((j, info) ∷ m) d = elim (Bool-cases (int_eq j q)) [
    | inl e ↦ rw e (elim (Bool-cases (int_eq q p)) [
      | inl e' ↦ rw (int_eq→eq j q e, e') refl
      | inr ne ↦ rw (int_eq→eq j q e, ne) refl
    ])
    | inr ne ↦ rw ne (elim (Bool-cases (before q j)) [
      | inl b ↦ rw (b, find_prio-behind q m (All-map (λ t h. before_trans q j t.0 b h) m d.0)) refl
      | inr b ↦ rw b (elim (Bool-cases (int_eq j p)) [
        | inl e ↦ rw (e, other j p ne e) refl
        | inr ne' ↦ rw (ne', find_prio-change_prio p m d.1) refl
      ])
    ])
  ]
