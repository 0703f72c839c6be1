-- ===== src/LinuxNetwork/Calls.antt =====
-- Whole sequences of calls of a `LinuxNetwork`, against one that converts each address anew.
use cpp_rt_pubsub.Prelude.{
  ℕ, ◌^◌, ◌<◌, ◌≡◌, refl, sym, ◌∙◌, ap, Bool, true, false, ◌&&◌, ◌||◌, not, List, [], ◌∷◌, Option,
  none, some, Bytes, length, Result, ok, err, ◌>>=◌, Ensures, Result-cases, ℤ, pos, negsuc,
  if◌then◌else◌, Bool-cases, inl, inr, All,
}
use cpp_rt_pubsub.LinuxNetwork.{
  Sockaddr, LinuxNetwork, new_network, af_inet, Inet, parse_address, to_sockaddr, print_address,
  to_address, reached, or_error, is_size, is_negative, is_zero, bind, connect, sendto, recvfrom,
  sender_address,
}
use cpp_rt_pubsub.LinuxNetwork.Decimal.{NoColon, parse_address-print_address}
use cpp_rt_pubsub.LinuxNetwork.Caches.{
  IsConsistent, new_network-IsConsistent, to_sockaddr-parse_address, to_address-print_address,
}

use_of :
    {S O : Type 0} (m : Result (S × O)) (f : O → Bool)
    → ◌>>=◌ {A = S × Bool} (m >>= λ r. ok (r.0, f r.1)) (λ r. ok r.1)
      ≡ ((m >>= λ r. ok r.1) >>= λ o. ok (f o))
use_of (ok r) f = refl
use_of (err e) f = refl

module _ (inet : Inet) where
  -- One use of the network, with what the system calls return.
  pub data Call : Type 0 where
    to_bind to_connect : (Sockaddr → ℤ) → Bytes → Call
    to_send : (Sockaddr → Bytes → ℤ) → Bytes → Bytes → Call
    to_receive : ℤ → Sockaddr → Bool → Bool → Bool → Call

  pub data Answer : Type 0 where
    done : Bool → Answer
    got : ℤ → Option Bytes → Answer

  unfoldable pub perform : LinuxNetwork → Call → Result (LinuxNetwork × Answer)
  perform net (to_bind call a) = do r ← bind inet call net a; ok (r.0, done r.1)
  perform net (to_connect call a) = do r ← connect inet call net a; ok (r.0, done r.1)
  perform net (to_send call a x) = do r ← sendto inet call net a x; ok (r.0, done r.1)
  perform net (to_receive n s would_block block wants) =
      let r = recvfrom inet n s would_block net block wants in ok (r.0, got r.1 r.2)

  unfoldable pub perform_all : LinuxNetwork → List Call → Result (List Answer)
  perform_all net [] = ok []
  perform_all net (c ∷ cs) = do r ← perform net c; rest ← perform_all r.0 cs; ok (r.1 ∷ rest)

  -- The specification: the same with every address converted anew.
  abbrev with_sockaddr : Bytes → (Sockaddr → Bool) → Result Answer
  with_sockaddr a call = do o ← parse_address inet a; ok (done (reached call o))

  abbrev received_from : Bool → Sockaddr → ℤ → Answer
  received_from false s n = got n none
  received_from true s n = got (or_error n (print_address inet s)) (print_address inet s)

  unfoldable pub direct : Call → Result Answer
  direct (to_bind call a) = with_sockaddr a (λ s. is_zero (call s))
  direct (to_connect call a) = with_sockaddr a (λ s. is_zero (call s))
  direct (to_send call a x) = with_sockaddr a (λ s. is_size (length x) (call s x))
  direct (to_receive n s would_block block wants) = ok (
      if is_negative n && (block || not would_block)
      then got (negsuc 0) none
      else received_from wants s n)

  unfoldable pub direct_all : List Call → Result (List Answer)
  direct_all [] = ok []
  direct_all (c ∷ cs) = do a ← direct c; rest ← direct_all cs; ok (a ∷ rest)

  -- A datagram on an IPv4 socket has an IPv4 sender.
  abbrev pub Ipv4 : Call → Type 0
  Ipv4 (to_bind call a) = Unit
  Ipv4 (to_connect call a) = Unit
  Ipv4 (to_send call a x) = Unit
  Ipv4 (to_receive n s would_block block wants) = s.sin_family ≡ af_inet

  -- A call answers as the specification says, and leaves the caches consistent.
  Agrees : Result (LinuxNetwork × Answer) → Result Answer → Type 0
  Agrees m d = ((m >>= λ r. ok r.1) ≡ d) × Ensures (λ r. IsConsistent inet r.0) m

  Agrees-sockaddr :
      (net : LinuxNetwork) (a : Bytes) (call : Sockaddr → Bool)
      → IsConsistent inet net
      → Agrees
          (◌>>=◌ {A = LinuxNetwork × Bool}
            (to_sockaddr inet net a >>= λ r. ok (r.0, reached call r.1))
            (λ r. ok (r.0, done r.1)))
          (with_sockaddr a call)
  unfolding Agrees
  Agrees-sockaddr net a call v =
      let (same, kept) = to_sockaddr-parse_address inet net a v in
      elim (Result-cases (to_sockaddr inet net a)) [
        | inr (f, e) ↦
            let p : parse_address inet a ≡ err f = sym same ∙ ap (λ m. m >>= λ r. ok r.1) e in
            rw (e, p) (refl, tt)
        | inl ((net', o), e) ↦
            let p : parse_address inet a ≡ ok o = sym same ∙ ap (λ m. m >>= λ r. ok r.1) e in
            rw (e, p) (refl, rw e at kept)
      ]

  Agrees-receive :
      (net : LinuxNetwork) (n : ℤ) (s : Sockaddr) (wants : Bool)
      → IsConsistent inet net
      → s.sin_family ≡ af_inet
      → Agrees
          (ok (
            (sender_address inet net wants s n).0,
            got (sender_address inet net wants s n).1 (sender_address inet net wants s n).2,
          ))
          (ok (received_from wants s n))
  unfolding Agrees sender_address
  Agrees-receive net n s false v ipv4 = (refl, v)
  Agrees-receive net n s true v ipv4 =
      let (same, kept) = to_address-print_address inet net s v ipv4 in
      (ap (λ o. ok (got (or_error n o) o)) same, kept)

  perform-Agrees :
      (net : LinuxNetwork) (c : Call)
      → IsConsistent inet net
      → Ipv4 c
      → Agrees (perform net c) (direct c)
  unfolding perform direct bind connect sendto recvfrom
  perform-Agrees net (to_bind call a) v h = Agrees-sockaddr net a (λ s. is_zero (call s)) v
  perform-Agrees net (to_connect call a) v h = Agrees-sockaddr net a (λ s. is_zero (call s)) v
  perform-Agrees net (to_send call a x) v h =
      Agrees-sockaddr net a (λ s. is_size (length x) (call s x)) v
  perform-Agrees net (to_receive n s would_block block wants) v h =
      elim (Bool-cases (is_negative n && (block || not would_block))) [
        | inl e ↦ rw e (unfold Agrees in (refl, v))
        | inr e ↦ rw e (Agrees-receive net n s wants v h)
      ]

  perform_all-Agrees :
      (net : LinuxNetwork) (cs : List Call)
      → IsConsistent inet net
      → All Ipv4 cs
      → perform_all net cs ≡ direct_all cs
  unfolding perform_all direct_all Agrees
  perform_all-Agrees net [] v h = refl
  perform_all-Agrees net (c ∷ cs) v h =
      let (same, kept) = perform-Agrees net c v h.0 in
      elim (Result-cases (perform net c)) [
        | inr (f, e) ↦
            let d : direct c ≡ err f = sym same ∙ ap (λ m. m >>= λ r. ok r.1) e in rw (e, d) refl
        | inl ((net', x), e) ↦
            let d : direct c ≡ ok x = sym same ∙ ap (λ m. m >>= λ r. ok r.1) e in
            rw (e, d, perform_all-Agrees net' cs (rw e at kept) h.1) refl
      ]

  -- On a new network, every sequence of calls of `bind`, `connect`, `sendto` and `recvfrom`, whatever the
  -- system calls return (the senders being IPv4 addresses), has the results and the faults that it has
  -- with every address converted anew: what the caches hold is never out of date.
  pub perform_all-direct_all :
      (cs : List Call) → All Ipv4 cs → perform_all new_network cs ≡ direct_all cs
  perform_all-direct_all cs h = perform_all-Agrees new_network cs (new_network-IsConsistent inet) h

  -- A network with consistent caches receives a datagram of an IPv4 sender, whose address `inet_ntop`
  -- can write, without a colon, and `inet_pton` reads back: `recvfrom` returns the sender's address as
  -- a text, and a later `sendto` with that text hands the system call the very same sender, if the
  -- caches are consistent then.
  pub recvfrom-sendto :
      (net later : LinuxNetwork) (n : ℕ) (s : Sockaddr) (would_block block : Bool) (host x : Bytes)
      (call : Sockaddr → Bytes → ℤ)
      → IsConsistent inet net
      → IsConsistent inet later
      → s.sin_family ≡ af_inet
      → s.sin_port < 2 ^ 16
      → inet.inet_ntop s.sin_family s.sin_addr ≡ some host
      → inet.inet_pton host ≡ some s.sin_addr
      → NoColon host
      → (net' : LinuxNetwork) × (a : Bytes) × (recvfrom inet (pos n) s would_block net block true
          ≡ (net', pos n, some a))
        × IsConsistent inet net'
        × ((sendto inet call later a x >>= λ r. ok r.1) ≡ ok (is_size (length x) (call s x)))
  unfolding recvfrom sender_address sendto
  recvfrom-sendto net later n s would_block block host x call v w ipv4 fits ntop pton plain =
      let (a, printed, parsed) =
        parse_address-print_address inet s host ipv4 fits ntop pton plain in
      let (same, kept) = to_address-print_address inet net s v ipv4 in
      let known : (to_address inet net s).1 ≡ some a = same ∙ printed in
      let (back, kept') = to_sockaddr-parse_address inet later a w in
      (
        (to_address inet net s).0,
        a,
        ap (λ o. ((to_address inet net s).0, or_error (pos n) o, o)) known,
        kept,
        use_of (to_sockaddr inet later a) (reached (λ t. is_size (length x) (call t x)))
            ∙ ap
                (λ (m : Result (Option Sockaddr)).
                  m >>= λ o. ok (reached (λ t. is_size (length x) (call t x)) o))
                (back ∙ parsed),
      )
