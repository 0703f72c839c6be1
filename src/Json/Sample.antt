-- ===== src/Json/Sample.antt =====
-- A small JSON library that meets the assumptions of `Json`: values as a data type, and a prefix code
-- in place of JSON text. Tests and examples run the model with it.
pub mod Text
pub mod Code
use cpp_rt_pubsub.Prelude.{
  ℕ, ◌<◌, ◌%◌, ◌^◌, ◌≡◌, refl, ap, sym, ◌∙◌, Bool, true, false, String, List, [], ◌∷◌, Option, none,
  some, Bytes, Result, ok, err, out_of_bounds, exception, ℤ, pos, negsuc, arith, str_eq,
  if◌then◌else◌, length,
}
use cpp_rt_pubsub.Json.{Json, IsLawful, lookup}
use Code.{
  Value, null, boolean, number, text, object, Fields, end, field, encode, decode, decode-encode,
}

unfoldable pub to_fields : List (String × Value) → Fields
to_fields [] = end
to_fields ((k, v) ∷ m) = field k v (to_fields m)

find_field : String → Fields → Option Value
find_field k end = none
find_field k (field j v fs) = if str_eq j k then some v else find_field k fs

or_undefined : Option Value → Result Value
or_undefined none = err out_of_bounds
or_undefined (some v) = ok v

at : Value → String → Result Value
unfolding find_field or_undefined
at (object fs) k = or_undefined (find_field k fs)
at _ _ = err exception

or_null : Option Value → Option Value
or_null none = some null
or_null (some v) = some v

member : Value → String → Option Value
unfolding find_field or_null
member null k = some null
member (object fs) k = or_null (find_field k fs)
member _ _ = none

is_text : Value → String → Bool
is_text (text s) t = str_eq s t
is_text _ _ = false

get_text : Value → Option String
get_text (text s) = some s
get_text _ = none

get_u32 : Value → Option ℕ
get_u32 (number (pos n)) = some (n % 2 ^ 32)
get_u32 _ = none

get_number : Value → Option ℤ
get_number (number z) = some z
get_number _ = none

get_bool : Value → Option Bool
get_bool (boolean b) = some b
get_bool _ = none

is_empty : Value → Bool
is_empty null = true
is_empty (object end) = true
is_empty _ = false

unfoldable pub sample : Json
unfolding to_fields find_field or_undefined at member or_null is_text get_text get_u32 get_number
    get_bool is_empty encode decode
sample = record {
  Value = Value;
  at = at;
  member = member;
  is_text = is_text;
  get_text = get_text;
  get_u32 = get_u32;
  get_i8 = get_number;
  get_int = get_number;
  get_bool = get_bool;
  of_text = text;
  of_u32 = λ n. number (pos n);
  of_i8 = number;
  of_int = number;
  of_bool = boolean;
  null = null;
  object = λ fields. object (to_fields fields);
  empty = is_empty;
  dump = λ v. some (encode v);
  parse = decode;
}

find_field-to_fields :
    (k : String) (fields : List (String × Value))
    → find_field k (to_fields fields) ≡ lookup k fields
unfolding find_field to_fields lookup
find_field-to_fields k [] = refl
find_field-to_fields k ((j, v) ∷ m) =
    ap (λ o. if str_eq j k then some v else o) (find_field-to_fields k m)

small_lem : (n : ℕ) → n < 2 ^ 32 → n % 2 ^ 32 ≡ n
small_lem n h = omega arith

get_u32-bounded : (v : Value) (n : ℕ) → get_u32 v ≡ some n → n < 2 ^ 32
unfolding get_u32
get_u32-bounded null n h = cc
get_u32-bounded (boolean b) n h = cc
get_u32-bounded (number (pos m)) n h = ground arith
get_u32-bounded (number (negsuc m)) n h = cc
get_u32-bounded (text s) n h = cc
get_u32-bounded (object fs) n h = cc

then_decode : Option Bytes → Option Value
then_decode none = none
then_decode (some s) = decode s

pub sample-IsLawful : IsLawful sample
unfolding sample then_decode at member or_null or_undefined is_text get_text get_u32 get_number
    get_bool
sample-IsLawful = record {
  at-object = λ k v fields h. ap or_undefined (find_field-to_fields k fields ∙ h);
  member-object = λ k v fields h. ap or_null (find_field-to_fields k fields ∙ h);
  is_text-of_text = λ s t. refl;
  get_text-of_text = λ s. refl;
  get_u32-of_u32 = λ n h. ap some (small_lem n h);
  get_u32-small = get_u32-bounded;
  get_int-of_u32 = λ n h. refl;
  empty-object = λ field fields. refl;
  get_i8-of_i8 = λ z h. refl;
  get_bool-of_bool = λ b. refl;
  parse-dump = λ v s h. sym (ap then_decode h) ∙ decode-encode v;
}
