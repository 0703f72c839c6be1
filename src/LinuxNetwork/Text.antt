-- ===== src/LinuxNetwork/Text.antt =====
-- What src/linux_network.cpp uses of texts and of byte orders: `std::string`, `std::stoi`,
-- `std::to_string`, `htons`. A text is its bytes.
use cpp_rt_pubsub.Prelude.{
  ℕ, zero, suc, ◌+◌, ◌-◌, ◌*◌, ◌/◌, ◌%◌, ◌^◌, Bool, true, false, ◌||◌, ◌&&◌, not, [], ◌∷◌, Option,
  none, some, Bytes, Result, ok, err, exception, ℤ, pos, negsuc, ltb, leb, ◌==◌, if◌then◌else◌,
}

-- `operator==` on `std::string`.
unfoldable pub bytes_eq : Bytes → Bytes → Bool
bytes_eq [] [] = true
bytes_eq [] (y ∷ ys) = false
bytes_eq (x ∷ xs) [] = false
bytes_eq (x ∷ xs) (y ∷ ys) = x == y && bytes_eq xs ys

-- `std::string::find` for a character; `none` is `npos`.
unfoldable pub find_char : ℕ → Bytes → Option ℕ
find_char c [] = none
find_char c (x ∷ xs) =
    if x == c then some 0 else elim (find_char c xs) [ none ↦ none | some i ↦ some (suc i) ]

abbrev pub is_digit : ℕ → Bool
is_digit c = leb b'0' c && leb c b'9'

abbrev pub is_space : ℕ → Bool
is_space c = c == 32 || (leb 9 c && leb c 13)

unfoldable pub skip_space : Bytes → Bytes
skip_space [] = []
skip_space (c ∷ cs) = let rest = skip_space cs in if is_space c then rest else c ∷ cs

-- The number that the digits at the front make, and whether there are any.
unfoldable pub read_digits : Bytes → ℕ → ℕ
read_digits [] n = n
read_digits (c ∷ cs) n =
    let rest = read_digits cs (n * 10 + (c - b'0')) in if is_digit c then rest else n

abbrev pub has_digit : Bytes → Bool
has_digit [] = false
has_digit (c ∷ cs) = is_digit c

-- The value of a text of digits with its sign, in the range of `int`.
unfoldable pub signed_value : Bool → Bytes → Result ℤ
signed_value negative cs =
    let n = read_digits cs 0 in
    if not (has_digit cs)
    then err exception
    else if negative
    then (if leb n (2 ^ 31) then ok (if n == 0 then pos 0 else negsuc (n - 1)) else err exception)
    else if ltb n (2 ^ 31)
    then ok (pos n)
    else err exception

unfoldable pub signed : Bytes → Result ℤ
signed [] = err exception
signed (c ∷ cs) =
    if c == b'-'
    then signed_value true cs
    else if c == b'+'
    then signed_value false cs
    else signed_value false (c ∷ cs)

-- `std::stoi`.
unfoldable pub stoi : Bytes → Result ℤ
stoi text = signed (skip_space text)

-- The conversion from `int` to `uint16_t`.
abbrev pub to_u16 : ℤ → ℕ
to_u16 (pos n) = n % 2 ^ 16
to_u16 (negsuc n) = 2 ^ 16 - 1 - n % 2 ^ 16

-- `htons` and `ntohs` on a little-endian machine.
abbrev pub htons : ℕ → ℕ
htons n = n % 256 * 256 + n / 256

-- `std::to_string`, with enough rounds for the digits.
unfoldable pub print_digits : ℕ → ℕ → Bytes → Bytes
print_digits zero n out = out
print_digits (suc k) n out =
    let more = print_digits k (n / 10) ((b'0' + n % 10) ∷ out) in
    if n / 10 == 0 then (b'0' + n % 10) ∷ out else more

unfoldable pub to_string : ℕ → Bytes
to_string n = print_digits 5 n []
