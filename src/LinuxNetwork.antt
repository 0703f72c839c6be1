-- ===== src/LinuxNetwork.antt =====
-- src/linux_network.cpp, include/crps/linux_network.h. A `std::string` is its bytes. What a system call
-- returns is an argument, or a function of the call's own arguments; `inet_pton` and `inet_ntop` are
-- parameters, and so is errno; log output is left out.
pub mod Text
pub mod Decimal
pub mod Caches
pub mod Calls
mod Tests
use cpp_rt_pubsub.Prelude.{
  ℕ, zero, suc, ◌+◌, ◌-◌, ◌*◌, ◌/◌, ◌%◌, ◌^◌, Bool, true, false, ◌||◌, ◌&&◌, not, List, [], ◌∷◌,
  ◌++◌, Option, none, some, Bytes, length, take, drop, Result, ok, err, ◌>>=◌, exception, ℤ, pos,
  negsuc, ltb, leb, ◌==◌, if◌then◌else◌,
}
use cpp_rt_pubsub.LinuxNetwork.Text.{
  bytes_eq, find_char, is_digit, is_space, skip_space, read_digits, has_digit, signed_value, signed,
  stoi, to_u16, htons, print_digits, to_string,
}

pub data Protocol : Type 0 where
  invalid udp tcp : Protocol

abbrev pub af_inet : ℕ
af_inet = 2

-- `sockaddr_in`; the port is in network byte order.
pub record Sockaddr : Type 0 where
  pub sin_family : ℕ
  pub sin_addr : ℕ
  pub sin_port : ℕ

pub record LinuxNetwork : Type 0 where
  pub socket : ℤ
  pub protocol : Protocol
  pub address_to_sockaddr : List (Bytes × Sockaddr)
  pub sockaddr_to_address : List ((ℕ × ℕ) × Bytes)

abbrev pub new_network : LinuxNetwork
new_network = record {
  socket = negsuc 0;
  protocol = invalid;
  address_to_sockaddr = [];
  sockaddr_to_address = [];
}

abbrev pub is_negative : ℤ → Bool
is_negative (pos n) = false
is_negative (negsuc n) = true

abbrev pub is_zero : ℤ → Bool
is_zero (pos n) = n == 0
is_zero (negsuc n) = false

-- What `::socket` returned; `setsockopt` only logs a failure.
unfoldable pub socket : ℤ → LinuxNetwork → Protocol → LinuxNetwork × Bool
socket fd net udp = (record net { protocol = udp; socket = fd }, not (is_negative fd))
socket fd net tcp = (record net { protocol = tcp }, false)
socket fd net invalid = (record net { protocol = invalid }, false)

unfoldable pub listen : LinuxNetwork → Bool
listen net = elim net.protocol [ tcp ↦ false | udp ↦ true | invalid ↦ true ]

unfoldable pub accept : LinuxNetwork → Bool
accept net = elim net.protocol [ tcp ↦ false | udp ↦ true | invalid ↦ true ]

unfoldable pub close : LinuxNetwork → Bool
close net = false

-- A lookup in a map with the test that its keys are equal to the one searched for.
unfoldable pub find : {K V : Type 0} → (K → Bool) → List (K × V) → Option V
find is_key [] = none
find is_key ((k, v) ∷ m) = if is_key k then some v else find is_key m

abbrev pub host_of : Bytes → Option ℕ → Bytes
host_of a none = a
host_of a (some i) = take i a

-- `substr(npos + 1)` is the whole text.
abbrev pub port_of : Bytes → Option ℕ → Bytes
port_of a none = a
port_of a (some i) = drop (i + 1) a

-- A new entry of a cache, and what is returned.
abbrev pub remember_sockaddr :
    LinuxNetwork → Bytes → Option Sockaddr → LinuxNetwork × Option Sockaddr
remember_sockaddr net p_address none = (net, none)
remember_sockaddr net p_address (some s) =
    (record net { address_to_sockaddr = (p_address, s) ∷ net.address_to_sockaddr }, some s)

abbrev pub remember_address : LinuxNetwork → Sockaddr → Option Bytes → LinuxNetwork × Option Bytes
remember_address net s none = (net, none)
remember_address net s (some a) = (
  record net { sockaddr_to_address = ((s.sin_addr, s.sin_port), a) ∷ net.sockaddr_to_address },
  some a,
)

-- `sockaddr_key`.
abbrev pub is_key : Sockaddr → ℕ × ℕ → Bool
is_key s k = s.sin_addr == k.0 && s.sin_port == k.1

abbrev pub is_size : ℕ → ℤ → Bool
is_size n (pos written) = written == n
is_size n (negsuc e) = false

-- The system call, if there is an address for it; what was received, if there is one to return.
abbrev pub reached : (Sockaddr → Bool) → Option Sockaddr → Bool
reached call none = false
reached call (some s) = call s

abbrev pub or_error : ℤ → Option Bytes → ℤ
or_error bytes_received none = negsuc 0
or_error bytes_received (some a) = bytes_received

-- `inet_pton` for AF_INET, and `inet_ntop`, by the family.
pub record Inet : Type 0 where
  pub inet_pton : Bytes → Option ℕ
  pub inet_ntop : ℕ → ℕ → Option Bytes

module _ (inet : Inet) where
  -- What `to_sockaddr` makes of an address that it does not know.
  unfoldable pub parse_address : Bytes → Result (Option Sockaddr)
  parse_address p_address = do
    let address_delimiter = find_char b':' p_address
    port ← stoi (port_of p_address address_delimiter)
    ok (elim (inet.inet_pton (host_of p_address address_delimiter)) [
      | none ↦ none
      | some addr ↦
          some (record { sin_family = af_inet; sin_addr = addr; sin_port = htons (to_u16 port) })
    ])

  unfoldable pub to_sockaddr : LinuxNetwork → Bytes → Result (LinuxNetwork × Option Sockaddr)
  to_sockaddr net p_address = elim (find (bytes_eq p_address) net.address_to_sockaddr) [
    | none ↦ (parse_address p_address >>= λ o. ok (remember_sockaddr net p_address o))
    | some s ↦ ok (net, some s)
  ]

  unfoldable pub print_address : Sockaddr → Option Bytes
  print_address s = elim (inet.inet_ntop s.sin_family s.sin_addr) [
    | none ↦ none
    | some host ↦ some (host ++ b':' ∷ to_string (htons s.sin_port))
  ]

  unfoldable pub to_address : LinuxNetwork → Sockaddr → LinuxNetwork × Option Bytes
  to_address net s = elim (find (is_key s) net.sockaddr_to_address) [
    | none ↦ remember_address net s (print_address s)
    | some a ↦ (net, some a)
  ]

  -- `bind` and `connect`, with the system call of that name.
  unfoldable pub bind : (Sockaddr → ℤ) → LinuxNetwork → Bytes → Result (LinuxNetwork × Bool)
  bind call net p_address = do
    r ← to_sockaddr net p_address
    ok (r.0, reached (λ s. is_zero (call s)) r.1)

  unfoldable pub connect : (Sockaddr → ℤ) → LinuxNetwork → Bytes → Result (LinuxNetwork × Bool)
  connect call net p_address = do
    r ← to_sockaddr net p_address
    ok (r.0, reached (λ s. is_zero (call s)) r.1)

  -- `::sendto` is given the address and the data, and returns the bytes written.
  unfoldable pub sendto :
      (Sockaddr → Bytes → ℤ) → LinuxNetwork → Bytes → Bytes → Result (LinuxNetwork × Bool)
  sendto call net p_address p_data = do
    r ← to_sockaddr net p_address
    ok (r.0, reached (λ s. is_size (length p_data) (call s p_data)) r.1)

  -- The sender's address as `recvfrom` returns it, if it was asked for, and the bytes received.
  unfoldable pub sender_address :
      LinuxNetwork → Bool → Sockaddr → ℤ → LinuxNetwork × ℤ × Option Bytes
  sender_address net false s bytes_received = (net, bytes_received, none)
  sender_address net true s bytes_received =
      let (net', a) = to_address net s in (net', or_error bytes_received a, a)

  -- `::recvfrom` returned a count, a sender, and errno; `would_block` is EAGAIN or EWOULDBLOCK.
  unfoldable pub recvfrom :
      ℤ → Sockaddr → Bool → LinuxNetwork → Bool → Bool → LinuxNetwork × ℤ × Option Bytes
  recvfrom bytes_received sender would_block net block wants_sender =
      if is_negative bytes_received && (block || not would_block)
      then (net, negsuc 0, none)
      else sender_address net wants_sender sender bytes_received
