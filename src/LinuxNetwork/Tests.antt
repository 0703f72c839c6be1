-- ===== src/LinuxNetwork/Tests.antt =====
-- A network with one host: its theorems at concrete inputs, and some conversions.
use cpp_rt_pubsub.Prelude.{
  ◌≡◌, refl, true, false, List, [], ◌∷◌, none, some, Bytes, ok, err, ◌>>=◌, exception, ℤ, pos,
  negsuc, length, arith, ◌==◌, if◌then◌else◌,
}
use cpp_rt_pubsub.LinuxNetwork.{
  Sockaddr, LinuxNetwork, new_network, Inet, recvfrom, sendto, is_size,
}
use cpp_rt_pubsub.LinuxNetwork.Text.{
  bytes_eq, stoi, skip_space, signed, signed_value, read_digits, to_string, print_digits,
}
use cpp_rt_pubsub.LinuxNetwork.Decimal.{NoColon}
use cpp_rt_pubsub.LinuxNetwork.Caches.{IsConsistent, new_network-IsConsistent}
use cpp_rt_pubsub.LinuxNetwork.Calls.{
  Call, to_bind, to_send, to_receive, perform_all, direct_all, perform_all-direct_all,
  recvfrom-sendto,
}

-- "1.2.3.4" and "1.2.3.4:80".
abbrev host : Bytes
host = 49 ∷ 46 ∷ 50 ∷ 46 ∷ 51 ∷ 46 ∷ 52 ∷ []

abbrev address : Bytes
address = 49 ∷ 46 ∷ 50 ∷ 46 ∷ 51 ∷ 46 ∷ 52 ∷ 58 ∷ 56 ∷ 48 ∷ []

abbrev one_host : Inet
one_host = record {
  inet_pton = λ t. if bytes_eq t host then some 77 else none;
  inet_ntop = λ family addr. if addr == 77 then some host else none;
}

abbrev sender : Sockaddr
sender = record { sin_family = 2; sin_addr = 77; sin_port = 20480 }

abbrev all_written : Sockaddr → Bytes → ℤ
all_written s x = pos (length x)

abbrev two_bytes : Bytes
two_bytes = 7 ∷ 8 ∷ []

abbrev calls : List (Call one_host)
calls =
    to_bind (λ s. pos 0) address
    ∷ to_receive (pos 3) sender false true true
    ∷ to_send all_written address two_bytes
    ∷ []

perform_all-direct_all_example : perform_all one_host new_network calls ≡ direct_all one_host calls
perform_all-direct_all_example = perform_all-direct_all one_host calls (tt, (refl, (tt, tt)))

known_host : one_host.inet_pton host ≡ some 77
unfolding bytes_eq
known_host = refl

no_colon : NoColon host
no_colon = (
  λ e. omega arith,
  (
    λ e. omega arith,
    (
      λ e. omega arith,
      (λ e. omega arith, (λ e. omega arith, (λ e. omega arith, (λ e. omega arith, tt)))),
    ),
  ),
)

recvfrom-sendto_example :
    (net' : LinuxNetwork) × (a : Bytes) × (recvfrom one_host
        (pos 3)
        sender
        false
        new_network
        true
        true
      ≡ (net', pos 3, some a))
    × IsConsistent one_host net'
    × ((sendto one_host all_written new_network a two_bytes >>= λ r. ok r.1)
        ≡ ok (is_size (length two_bytes) (all_written sender two_bytes)))
recvfrom-sendto_example =
    recvfrom-sendto one_host new_network new_network 3 sender false true host two_bytes all_written
      (new_network-IsConsistent one_host) (new_network-IsConsistent one_host) refl (omega arith)
      refl known_host no_colon

port_text : to_string 8080 ≡ 56 ∷ 48 ∷ 56 ∷ 48 ∷ []
unfolding to_string print_digits
port_text = refl

trailing_text : stoi (32 ∷ 45 ∷ 49 ∷ 50 ∷ 120 ∷ []) ≡ ok (negsuc 11)
unfolding stoi skip_space signed signed_value read_digits
trailing_text = refl

no_number : stoi (120 ∷ []) ≡ err exception
unfolding stoi skip_space signed signed_value read_digits
no_number = refl
