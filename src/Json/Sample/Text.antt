-- ===== src/Json/Sample/Text.antt =====
-- Texts as numbers and back: a code point where a text goes on, and 0 where it ends.
use Prim.Native.Nat.{compare, Ordering}
use Prim.Native.Char.{Char, char, code, IsScalar, IsLt}
use text.Mathlib.TextEquality.{Char-path}
use cpp_rt_pubsub.Prelude.{
  ℕ, zero, suc, ◌≡◌, refl, ap, String, [], ◌∷◌, ◌++◌, Option, none, some, Bytes,
}

-- The cases of `IsScalar`, so that each can be decided.
abbrev After : Ordering → Ordering → Type 0
After Ordering.lt o = IsLt o
After Ordering.eq _ = ⊥
After Ordering.gt _ = ⊥

abbrev Scalar : Ordering → Ordering → Ordering → Type 0
Scalar Ordering.lt _ _ = Unit
Scalar Ordering.eq o p = After o p
Scalar Ordering.gt o p = After o p

dec_lt_case : (o : Ordering) → Dec (IsLt o)
dec_lt_case Ordering.lt = yes tt
dec_lt_case Ordering.eq = no λ h. h
dec_lt_case Ordering.gt = no λ h. h

dec_after : (o p : Ordering) → Dec (After o p)
unfolding dec_lt_case
dec_after Ordering.lt p = dec_lt_case p
dec_after Ordering.eq _ = no λ h. h
dec_after Ordering.gt _ = no λ h. h

dec_scalar : (o p q : Ordering) → Dec (Scalar o p q)
unfolding dec_after
dec_scalar Ordering.lt _ _ = yes tt
dec_scalar Ordering.eq p q = dec_after p q
dec_scalar Ordering.gt p q = dec_after p q

-- The character with a code point, if there is one.
to_char : ℕ → Option Char
unfolding dec_scalar
to_char n = elim (dec_scalar (compare n 55296) (compare 57343 n) (compare n 1114112)) [
  | yes h ↦ some (char n h)
  | no _ ↦ none
]

decided :
    (n : ℕ) (h : IsScalar n) (d : Dec (IsScalar n))
    → ◌≡◌ {A = Option Char} (elim d [ yes k ↦ some (char n k) | no _ ↦ none ]) (some (char n h))
decided n h (yes k) = ap some (Char-path (char n k) (char n h) refl)
decided n h (no k) = absurd (k h)

to_char-code : (c : Char) → to_char (code c) ≡ some c
unfolding to_char
to_char-code (char n h) =
    decided n h (dec_scalar (compare n 55296) (compare 57343 n) (compare n 1114112))

unfoldable pub encode_text : String → Bytes
encode_text String.[] = 0 ∷ []
encode_text (String.◌∷◌ c s) = 1 ∷ code c ∷ encode_text s

prepend : Option Char → Option (String × Bytes) → Option (String × Bytes)
prepend none o = none
prepend (some c) none = none
prepend (some c) (some (s, rest)) = some (String.◌∷◌ c s, rest)

unfoldable pub parse_text : Bytes → Option (String × Bytes)
unfolding to_char prepend
parse_text [] = none
parse_text (zero ∷ rest) = some (String.[], rest)
parse_text (suc n ∷ []) = none
parse_text (suc n ∷ c ∷ rest) = prepend (to_char c) (parse_text rest)

pub parse-encode_text :
    (s : String) (rest : Bytes) → parse_text (encode_text s ++ rest) ≡ some (s, rest)
unfolding parse_text encode_text
parse-encode_text String.[] rest = refl
parse-encode_text (String.◌∷◌ c s) rest = rw (to_char-code c, parse-encode_text s rest)
