-- ===== src/LinuxNetwork/Caches.antt =====
-- The two caches of addresses: a network with them and one that converts each address anew.
use cpp_rt_pubsub.Prelude.{
  ◌≡◌, refl, sym, ◌∙◌, ap, ap₂, subst, true, [], ◌∷◌, Option, none, some, Bytes, ok, ◌>>=◌, Ensures,
  Result-cases, ◌==◌, arith, Bool-cases, inl, inr, Option-cases,
}
use cpp_rt_pubsub.LinuxNetwork.{
  Sockaddr, LinuxNetwork, new_network, af_inet, find, Inet, parse_address, remember_sockaddr,
  to_sockaddr, print_address, remember_address, is_key, to_address,
}
use cpp_rt_pubsub.LinuxNetwork.Text.{bytes_eq}

bytes_eq→eq : (a b : Bytes) → bytes_eq a b ≡ true → a ≡ b
unfolding bytes_eq
bytes_eq→eq [] [] h = refl
bytes_eq→eq [] (y ∷ ys) h = cc
bytes_eq→eq (x ∷ xs) [] h = cc
bytes_eq→eq (x ∷ xs) (y ∷ ys) h = elim (Bool-cases (x == y)) [
  | inl e ↦ let h' = rw e at h in ap₂ ◌∷◌ (ground arith) (bytes_eq→eq xs ys h')
  | inr e ↦ let h' = rw e at h in cc
]

remember_address-returns :
    (net : LinuxNetwork) (s : Sockaddr) (o : Option Bytes) → (remember_address net s o).1 ≡ o
remember_address-returns net s none = refl
remember_address-returns net s (some a) = refl

module _ (inet : Inet) where
  -- What the caches hold is what a conversion gives.
  pub record IsConsistent (net : LinuxNetwork) : Type 0 where
    pub forward :
        (a : Bytes) (s : Sockaddr)
        → find (bytes_eq a) net.address_to_sockaddr ≡ some s
        → parse_address inet a ≡ ok (some s)
    pub backward :
        (s : Sockaddr) (a : Bytes)
        → s.sin_family ≡ af_inet
        → find (is_key s) net.sockaddr_to_address ≡ some a
        → print_address inet s ≡ some a

  pub new_network-IsConsistent : IsConsistent new_network
  unfolding find
  new_network-IsConsistent = record { forward = λ a s h. cc; backward = λ s a e h. cc }

  remember_sockaddr-IsConsistent :
      (net : LinuxNetwork) (a : Bytes) (o : Option Sockaddr)
      → IsConsistent net
      → parse_address inet a ≡ ok o
      → IsConsistent (remember_sockaddr net a o).0
  unfolding find
  remember_sockaddr-IsConsistent net a none v h = v
  remember_sockaddr-IsConsistent net a (some s) v h = record {
    forward = λ b t e. elim (Bool-cases (bytes_eq b a)) [
      | inl same ↦
          let e' = rw same at e in
          let st : s ≡ t = cc in
          subst (λ x. parse_address inet x ≡ ok (some t)) (sym (bytes_eq→eq b a same))
            (h ∙ ap (λ x. ok (some x)) st)
      | inr other ↦ v.forward b t (rw other at e)
    ];
    backward = v.backward;
  }

  -- A printed IPv4 address depends on the key only.
  same_key :
      (s t : Sockaddr)
      → s.sin_family ≡ t.sin_family
      → is_key s (t.sin_addr, t.sin_port) ≡ true
      → print_address inet s ≡ print_address inet t
  unfolding print_address
  same_key s t family h =
      let addr : s.sin_addr ≡ t.sin_addr = ground arith in
      let port : s.sin_port ≡ t.sin_port = ground arith in rw (family, addr, port) refl

  remember_address-IsConsistent :
      (net : LinuxNetwork) (s : Sockaddr) (o : Option Bytes)
      → IsConsistent net
      → s.sin_family ≡ af_inet
      → print_address inet s ≡ o
      → IsConsistent (remember_address net s o).0
  unfolding find
  remember_address-IsConsistent net s none v ipv4 h = v
  remember_address-IsConsistent net s (some a) v ipv4 h = record {
    forward = v.forward;
    backward = λ t b family e. elim (Bool-cases (is_key t (s.sin_addr, s.sin_port))) [
      | inl same ↦
          let e' = rw same at e in
          let ab : a ≡ b = cc in same_key t s (family ∙ sym ipv4) same ∙ h ∙ ap some ab
      | inr other ↦ v.backward t b family (rw other at e)
    ];
  }

  -- A conversion with the caches gives what one without them does, and leaves them consistent.
  pub to_sockaddr-parse_address :
      (net : LinuxNetwork) (a : Bytes)
      → IsConsistent net
      → ((to_sockaddr inet net a >>= λ r. ok r.1) ≡ parse_address inet a)
        × Ensures (λ r. IsConsistent r.0) (to_sockaddr inet net a)
  unfolding to_sockaddr
  to_sockaddr-parse_address net a v =
      elim (Option-cases (find (bytes_eq a) net.address_to_sockaddr)) [
        | inr (s, e) ↦ rw (e, to_sockaddr) (sym (v.forward a s e), v)
        | inl e ↦
            rw (e, to_sockaddr)
              (elim (Result-cases (parse_address inet a)) [
                | inr (f, p) ↦ rw p (refl, tt)
                | inl (none, p) ↦ rw p (refl, v)
                | inl (some s, p) ↦ rw p (refl, remember_sockaddr-IsConsistent net a (some s) v p)
              ])
      ]

  pub to_address-print_address :
      (net : LinuxNetwork) (s : Sockaddr)
      → IsConsistent net
      → s.sin_family ≡ af_inet
      → ((to_address inet net s).1 ≡ print_address inet s) × IsConsistent (to_address inet net s).0
  unfolding to_address
  to_address-print_address net s v ipv4 =
      elim (Option-cases (find (is_key s) net.sockaddr_to_address)) [
        | inr (a, e) ↦ rw (e, to_address) (sym (v.backward s a ipv4 e), v)
        | inl e ↦
            rw (e, to_address)
              (
                remember_address-returns net s (print_address inet s),
                remember_address-IsConsistent net s (print_address inet s) v ipv4 refl,
              )
      ]
