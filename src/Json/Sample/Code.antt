-- ===== src/Json/Sample/Code.antt =====
-- JSON values, and a prefix code for them that can be read back.
use cpp_rt_pubsub.Prelude.{
  ℕ, zero, suc, ◌+◌, ◌≤◌, ◌≡◌, refl, Bool, true, false, String, [], ◌∷◌, ◌++◌, append_assoc,
  append-nil, Option, none, some, Bytes, ℤ, pos, negsuc, arith, length, length-append, sym,
}
use cpp_rt_pubsub.Json.Sample.Text.{encode_text, parse_text, parse-encode_text}

mutual
  pub data Value : Type 0 where
    null : Value
    boolean : Bool → Value
    number : ℤ → Value
    text : String → Value
    object : Fields → Value

  pub data Fields : Type 0 where
    end : Fields
    field : String → Value → Fields → Fields

unfoldable mutual
  pub encode : Value → Bytes
  encode null = 0 ∷ []
  encode (boolean false) = 1 ∷ 0 ∷ []
  encode (boolean true) = 1 ∷ 1 ∷ []
  encode (number (pos n)) = 2 ∷ n ∷ []
  encode (number (negsuc n)) = 3 ∷ n ∷ []
  encode (text s) = 4 ∷ encode_text s
  encode (object fs) = 5 ∷ encode_fields fs

  pub encode_fields : Fields → Bytes
  encode_fields end = 0 ∷ []
  encode_fields (field k v fs) = 1 ∷ (encode_text k ++ (encode v ++ encode_fields fs))

mutual
  size : Value → ℕ
  size null = 1
  size (boolean b) = 1
  size (number z) = 1
  size (text s) = 1
  size (object fs) = suc (size_fields fs)

  size_fields : Fields → ℕ
  size_fields end = 1
  size_fields (field k v fs) = suc (size v + size_fields fs)

mutual
  unfolding encode encode_fields size size_fields

  size-le : (v : Value) → size v ≤ length (encode v)
  size-le null = omega arith
  size-le (boolean false) = omega arith
  size-le (boolean true) = omega arith
  size-le (number (pos n)) = omega arith
  size-le (number (negsuc n)) = omega arith
  size-le (text s) = omega arith
  size-le (object fs) = omega (arith, size_fields-le fs)

  size_fields-le : (fs : Fields) → size_fields fs ≤ length (encode_fields fs)
  size_fields-le end = omega arith
  size_fields-le (field k v fs) = omega (
    arith,
    size-le v,
    size_fields-le fs,
    length-append (encode_text k) (encode v ++ encode_fields fs),
    length-append (encode v) (encode_fields fs),
  )

infixl 5 ◌>>=◌
abbrev ◌>>=◌ : {A B : Type 0} → Option A → (A → Option B) → Option B
none >>= f = none
some a >>= f = f a

unfoldable mutual
  unfolding parse_text

  -- With the depth that is left.
  pub parse_value : ℕ → Bytes → Option (Value × Bytes)
  parse_value zero bs = none
  parse_value (suc f) [] = none
  parse_value (suc f) (zero ∷ r) = some (null, r)
  parse_value (suc f) (suc zero ∷ zero ∷ r) = some (boolean false, r)
  parse_value (suc f) (suc zero ∷ suc n ∷ r) = some (boolean true, r)
  parse_value (suc f) (suc (suc zero) ∷ n ∷ r) = some (number (pos n), r)
  parse_value (suc f) (suc (suc (suc zero)) ∷ n ∷ r) = some (number (negsuc n), r)
  parse_value (suc f) (suc (suc (suc (suc zero))) ∷ r) = do s ← parse_text r; some (text s.0, s.1)
  parse_value (suc f) (suc (suc (suc (suc (suc n)))) ∷ r) = do
    s ← parse_fields f r
    some (object s.0, s.1)
  parse_value (suc f) bs = none

  pub parse_fields : ℕ → Bytes → Option (Fields × Bytes)
  parse_fields zero bs = none
  parse_fields (suc f) [] = none
  parse_fields (suc f) (zero ∷ r) = some (end, r)
  parse_fields (suc f) (suc n ∷ r) = do
    k ← parse_text r
    v ← parse_value f k.1
    fs ← parse_fields f v.1
    some (field k.0 v.0 fs.0, fs.1)

mutual
  unfolding parse_value parse_fields encode encode_fields size size_fields

  parse-encode :
      (v : Value) (f : ℕ) (rest : Bytes)
      → size v ≤ f
      → parse_value f (encode v ++ rest) ≡ some (v, rest)
  parse-encode null (suc f) rest h = refl
  parse-encode (boolean false) (suc f) rest h = refl
  parse-encode (boolean true) (suc f) rest h = refl
  parse-encode (number (pos n)) (suc f) rest h = refl
  parse-encode (number (negsuc n)) (suc f) rest h = refl
  parse-encode (text s) (suc f) rest h = rw (parse-encode_text s rest)
  parse-encode (object fs) (suc f) rest h = rw (parse-encode_fields fs f rest (omega arith))
  parse-encode null zero rest h = absurd (omega arith)
  parse-encode (boolean b) zero rest h = absurd (omega arith)
  parse-encode (number z) zero rest h = absurd (omega arith)
  parse-encode (text s) zero rest h = absurd (omega arith)
  parse-encode (object fs) zero rest h = absurd (omega arith)

  parse-encode_fields :
      (fs : Fields) (f : ℕ) (rest : Bytes)
      → size_fields fs ≤ f
      → parse_fields f (encode_fields fs ++ rest) ≡ some (fs, rest)
  parse-encode_fields end zero rest h = absurd (omega arith)
  parse-encode_fields end (suc f) rest h = refl
  parse-encode_fields (field k v fs) zero rest h = absurd (omega arith)
  parse-encode_fields (field k v fs) (suc f) rest h = rw (
    append_assoc (encode_text k) (encode v ++ encode_fields fs) rest,
    append_assoc (encode v) (encode_fields fs) rest,
    parse-encode_text k ((encode v) ++ (encode_fields fs ++ rest)),
    parse-encode v f (encode_fields fs ++ rest) (omega arith),
    parse-encode_fields fs f rest (omega arith),
  )

-- Read a whole buffer.
whole : Option (Value × Bytes) → Option Value
whole none = none
whole (some (v, [])) = some v
whole (some (v, b ∷ bs)) = none

unfoldable pub decode : Bytes → Option Value
unfolding whole
decode bs = whole (parse_value (length bs) bs)

pub decode-encode : (v : Value) → decode (encode v) ≡ some v
unfolding decode
decode-encode v = rw (
  sym (append-nil (encode v)),
  parse-encode v (length (encode v ++ [])) []
      (omega (arith, size-le v, length-append (encode v) [])),
)
