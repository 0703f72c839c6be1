-- ===== src/LinuxNetwork/Decimal.antt =====
-- `std::stoi` after `std::to_string`, and an address after `print_address`.
use cpp_rt_pubsub.Prelude.{
  ℕ, zero, suc, ◌+◌, ◌-◌, ◌*◌, ◌/◌, ◌%◌, ◌^◌, ◌<◌, ◌≡◌, ◌≢◌, refl, sym, ◌∙◌, ap, ap₂, true, false,
  [], ◌∷◌, ◌++◌, some, Bytes, length, drop, take-append, ok, pos, ltb-true, ◌==◌, ==-ne, arith,
  Bool-cases, inl, inr, All,
}
use cpp_rt_pubsub.LinuxNetwork.{Sockaddr, af_inet, Inet, parse_address, print_address}
use cpp_rt_pubsub.LinuxNetwork.Text.{
  find_char, is_digit, is_space, skip_space, read_digits, signed_value, signed, stoi, print_digits,
  to_string, htons, to_u16,
}

-- The text of a number begins with a digit.
first_digit :
    (k n : ℕ) (out : Bytes)
    → (d : ℕ) × (rest : Bytes) × (d < 10) × (print_digits (suc k) n out ≡ (48 + d) ∷ rest)
unfolding print_digits
first_digit zero n out = (n % 10, out, omega arith, ground arith)
first_digit (suc k) n out =
    let (d, rest, small, e) = first_digit k (n / 10) ((48 + n % 10) ∷ out) in
    elim (Bool-cases (n / 10 == 0)) [
      | inl z ↦ (n % 10, out, omega arith, rw z refl)
      | inr z ↦ (d, rest, small, rw z e)
    ]

digit-is_digit : (d : ℕ) → d < 10 → is_digit (48 + d) ≡ true
digit-is_digit d h = ground arith

read-digit :
    (d n : ℕ) (out : Bytes) → d < 10 → read_digits ((48 + d) ∷ out) n ≡ read_digits out (n * 10 + d)
unfolding read_digits
read-digit d n out h =
    let back : n * 10 + ((48 + d) - 48) ≡ n * 10 + d = omega arith in
    rw (digit-is_digit d h, back) refl

-- The number has at most so many digits, and one.
abbrev Digits : ℕ → ℕ → Type 0
Digits zero n = n < 10
Digits (suc k) n = Digits k (n / 10)

tenth-zero : (n : ℕ) → (n / 10 == 0) ≡ true → n % 10 ≡ n
tenth-zero n h = ground arith

read-print_digits :
    (k n : ℕ) (out : Bytes)
    → Digits k n
    → read_digits (print_digits (suc k) n out) 0 ≡ read_digits out n
unfolding print_digits
read-print_digits zero n out h =
    let z : (n / 10 == 0) ≡ true = ground arith in
    rw z (read-digit (n % 10) 0 out (omega arith) ∙ ap (read_digits out) (omega arith))
read-print_digits (suc k) n out h = elim (Bool-cases (n / 10 == 0)) [
  | inl z ↦ rw z (
      read-digit (n % 10) 0 out (omega arith)
      ∙ ap (read_digits out) (let t = tenth-zero n z in omega arith))
  | inr z ↦ rw z (
      read-print_digits k (n / 10) ((48 + n % 10) ∷ out) h
      ∙ read-digit (n % 10) (n / 10) out (omega arith)
      ∙ ap (read_digits out) (omega arith))
]

-- What `stoi` needs of a first digit.
plain_digit :
    (d : ℕ)
    → d < 10
    → (is_space (48 + d) ≡ false) × (((48 + d) == 45) ≡ false) × (((48 + d) == 43) ≡ false)
plain_digit d h = (ground arith, ground arith, ground arith)

stoi-to_string : (n : ℕ) → n < 2 ^ 16 → stoi (to_string n) ≡ ok (pos n)
unfolding stoi skip_space signed signed_value to_string
stoi-to_string n h =
    let (d, rest, small, e) = first_digit 4 n [] in
    let (space, minus, plus) = plain_digit d small in
    let value : read_digits ((48 + d) ∷ rest) 0 ≡ n =
      ap (λ t. read_digits t 0) (sym e)
      ∙ read-print_digits 4 n [] (omega arith)
      ∙ unfold read_digits in refl in
    rw (e, space, minus, plus, value, digit-is_digit d small, ltb-true n (2 ^ 31) (omega arith))
      refl

-- A host name without a colon.
abbrev pub NoColon : Bytes → Type 0
NoColon = All (λ c. c ≢ 58)

find_char-colon :
    (host rest : Bytes) → NoColon host → find_char 58 (host ++ 58 ∷ rest) ≡ some (length host)
unfolding find_char
find_char-colon [] rest h = refl
find_char-colon (c ∷ host) rest h = rw (==-ne c 58 h.0, find_char-colon host rest h.1) refl

drop-suc : (host rest : Bytes) → drop (suc (length host)) (host ++ 58 ∷ rest) ≡ rest
drop-suc [] rest = refl
drop-suc (c ∷ host) rest = drop-suc host rest

htons-htons : (n : ℕ) → n < 2 ^ 16 → htons (htons n) ≡ n
htons-htons n h = omega arith

module _ (inet : Inet) where
  -- An address that was made of an IPv4 `sockaddr_in`, read back: `inet_pton` undoes `inet_ntop`, which
  -- writes no colon.
  pub parse_address-print_address :
      (s : Sockaddr) (host : Bytes)
      → s.sin_family ≡ af_inet
      → s.sin_port < 2 ^ 16
      → inet.inet_ntop s.sin_family s.sin_addr ≡ some host
      → inet.inet_pton host ≡ some s.sin_addr
      → NoColon host
      → (a : Bytes) × (print_address inet s ≡ some a) × (parse_address inet a ≡ ok (some s))
  unfolding print_address parse_address
  parse_address-print_address s host ipv4 fits ntop pton plain =
      let port = htons s.sin_port in
      let small : port < 2 ^ 16 = omega arith in
      let a = host ++ 58 ∷ to_string port in
      let next : length host + 1 ≡ suc (length host) = omega arith in
      let back : htons (to_u16 (pos port)) ≡ s.sin_port = omega arith in
      (
        a,
        rw (ntop, print_address) refl,
        rw
            (
              find_char-colon host (to_string port) plain,
              next,
              drop-suc host (to_string port),
              stoi-to_string port small,
              take-append host (58 ∷ to_string port),
              pton,
            )
            (ap₂ (λ f p. ok (some (record { sin_family = f; sin_addr = s.sin_addr; sin_port = p })))
              (sym ipv4) back),
      )
