-- ===== src/Json.antt =====
-- What the code uses of nlohmann/json (third_party/nlohmann_json), as a parameter of the model.
-- Values are taken up to the library's `operator==`. `none` is an exception of the library.
pub mod Sample
use cpp_rt_pubsub.Prelude.{
  ℕ, ◌<◌, ◌^◌, ◌≡◌, Bool, if◌then◌else◌, str_eq, String, List, [], ◌∷◌, Option, none, some, Bytes,
  Result, ok, ℤ, pos, IsI8, false,
}

pub record Json : Type 1 where
  pub Value : Type 0
  -- `operator[]` on a const value: undefined at a missing key, an exception if it is no object.
  pub at : Value → String → Result Value
  -- `operator[]` on a value that may change, read: null at a missing key.
  pub member : Value → String → Option Value
  -- `operator==` with a string.
  pub is_text : Value → String → Bool
  -- Conversions to `std::string`, `uint32_t`, `int8_t`, `int`, `bool`.
  pub get_text : Value → Option String
  pub get_u32 : Value → Option ℕ
  pub get_i8 : Value → Option ℤ
  pub get_int : Value → Option ℤ
  pub get_bool : Value → Option Bool
  -- Conversions from the same types.
  pub of_text : String → Value
  pub of_u32 : ℕ → Value
  pub of_i8 : ℤ → Value
  pub of_int : ℤ → Value
  pub of_bool : Bool → Value
  -- `json{}`; the value that `v["k"] = x` for each pair in turn makes of it, keys being distinct.
  pub null : Value
  pub object : List (String × Value) → Value
  pub empty : Value → Bool
  pub dump : Value → Option Bytes
  pub parse : Bytes → Option Value

-- The value of the first pair with the key.
unfoldable pub lookup {ℓ} : {V : Type ℓ} → String → List (String × V) → Option V
lookup k [] = none
lookup k ((j, v) ∷ m) = if str_eq j k then some v else lookup k m

-- The documented behaviour that proofs rely on.
module _ (json : Json) where
  open json use {
    Value, at, member, is_text, get_text, of_text, get_u32, of_u32, get_i8, of_i8, get_int, empty,
    get_bool, of_bool, object, dump, parse,
  }

  pub record IsLawful : Type 0 where
    pub at-object :
        (k : String) (v : Value) (fields : List (String × Value))
        → lookup k fields ≡ some v
        → at (object fields) k ≡ ok v
    pub member-object :
        (k : String) (v : Value) (fields : List (String × Value))
        → lookup k fields ≡ some v
        → member (object fields) k ≡ some v
    pub is_text-of_text : (s t : String) → is_text (of_text s) t ≡ str_eq s t
    pub get_text-of_text : (s : String) → get_text (of_text s) ≡ some s
    pub get_u32-of_u32 : (n : ℕ) → n < 2 ^ 32 → get_u32 (of_u32 n) ≡ some n
    pub get_u32-small : (v : Value) (n : ℕ) → get_u32 v ≡ some n → n < 2 ^ 32
    pub get_int-of_u32 : (n : ℕ) → n < 2 ^ 31 → get_int (of_u32 n) ≡ some (pos n)
    pub empty-object :
        (field : String × Value) (fields : List (String × Value))
        → empty (object (field ∷ fields)) ≡ false
    pub get_i8-of_i8 : (z : ℤ) → IsI8 z → get_i8 (of_i8 z) ≡ some z
    pub get_bool-of_bool : (b : Bool) → get_bool (of_bool b) ≡ some b
    pub parse-dump : (v : Value) (s : Bytes) → dump v ≡ some s → parse s ≡ some v
