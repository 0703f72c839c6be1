-- ===== src/Demo/ParseOptions/Pairs.antt =====
-- A command line of options with their values: what the programs read of it.
use cpp_rt_pubsub.Prelude.{
  ◌≡◌, refl, sym, ◌∙◌, ap, true, false, String, List, [], ◌∷◌, ◌++◌, append-nil, Option, none, some,
  ok, err, out_of_bounds, str_eq, str_eq_refl, eq_iff, All, if◌then◌else◌, Bool-cases, inl, inr,
}
use cpp_rt_pubsub.Json.{lookup}
use cpp_rt_pubsub.Demo.ParseOptions.{
  Options, option_names, set_option, parse_from, parse_options, option_or_default,
}

-- An option as it is written, its name, and its value.
pub record Pair : Type 0 where
  pub written : String
  pub name : String
  pub value : String

abbrev pub IsKnown : Pair → Type 0
IsKnown p = lookup p.written option_names ≡ some p.name

abbrev pub command_line : List Pair → List String
command_line [] = []
command_line (p ∷ ps) = p.written ∷ p.value ∷ command_line ps

-- The last value of an option.
abbrev pub last_value : String → List Pair → Option String → Option String
last_value name [] found = found
last_value name (p ∷ ps) found =
    last_value name ps (if str_eq p.name name then some p.value else found)

abbrev pub or_default : Option String → String → String
or_default none d = d
or_default (some v) d = v

abbrev set_all : List Pair → Options → Options
set_all [] options = options
set_all (p ∷ ps) options = set_all ps (set_option p.name p.value options)

lookup-set_option :
    (k v j : String) (m : Options)
    → lookup j (set_option k v m) ≡ (if str_eq k j then some v else lookup j m)
unfolding lookup set_option
lookup-set_option k v j [] = refl
lookup-set_option k v j ((i, w) ∷ m) = elim (Bool-cases (str_eq i k)) [
  | inl e ↦ rw e (elim (Bool-cases (str_eq k j)) [
    | inl e' ↦ rw e' refl
    | inr ne ↦ let same = (eq_iff i k).0 e in rw (ne, same, ne) refl
  ])
  | inr ne ↦ rw ne (elim (Bool-cases (str_eq i j)) [
    | inl e ↦ rw (e, other i k j ne e) refl
    | inr ne' ↦ rw ne' (lookup-set_option k v j m)
  ])
]
  where
    other : (i k j : String) → str_eq i k ≡ false → str_eq i j ≡ true → str_eq k j ≡ false
    other i k j h e = elim (Bool-cases (str_eq k j)) [
      | inl e' ↦
          let same : i ≡ k = (eq_iff i j).0 e ∙ sym ((eq_iff k j).0 e') in
          let t : str_eq i k ≡ true = ap (λ x. str_eq i x) (sym same) ∙ str_eq_refl i in
          absurd (cc (h, t))
      | inr e' ↦ e'
    ]

parse_from-pairs :
    (ps : List Pair) (rest : List String) (options : Options)
    → All IsKnown ps
    → parse_from (command_line ps ++ rest) options ≡ parse_from rest (set_all ps options)
unfolding parse_from
parse_from-pairs [] rest options h = refl
parse_from-pairs (p ∷ ps) rest options h =
    rw (h.0, parse_from) (parse_from-pairs ps rest (set_option p.name p.value options) h.1)

lookup-set_all :
    (name : String) (ps : List Pair) (options : Options)
    → lookup name (set_all ps options) ≡ last_value name ps (lookup name options)
lookup-set_all name [] options = refl
lookup-set_all name (p ∷ ps) options =
    lookup-set_all name ps (set_option p.name p.value options)
    ∙ ap (last_value name ps) (lookup-set_option p.name p.value name options)

option_or_default-lookup :
    (o : Options) (name default : String)
    → option_or_default o name default ≡ or_default (lookup name o) default
unfolding option_or_default
option_or_default-lookup o name default = by_cases (lookup name o)
  where
    by_cases :
        (found : Option String)
        → elim found [ none ↦ default | some v ↦ v ] ≡ or_default found default
    by_cases none = refl
    by_cases (some v) = refl

-- For every command line of known options, each with its value: `parse_options` returns, and
-- `option_or_default` gives, for every name, the last value that the line has for it, and the default if
-- it has none.
pub parse_options_pairs :
    (ps : List Pair)
    → All IsKnown ps
    → (o : Options) × (parse_options (command_line ps) ≡ ok o)
      × ((name default : String)
          → option_or_default o name default ≡ or_default (last_value name ps none) default)
unfolding parse_from lookup
parse_options_pairs ps h =
    let all_of_it : command_line ps ++ [] ≡ command_line ps = append-nil (command_line ps) in
    (
      set_all ps [],
      ap (λ line. parse_from line []) (sym all_of_it) ∙ parse_from-pairs ps [] [] h,
      λ name default.
          option_or_default-lookup (set_all ps []) name default
          ∙ ap (λ o. or_default o default) (lookup-set_all name ps []),
    )

-- A command line of known options with their values and, at its end, a known option without one:
-- `parse_options` makes a string of a null pointer.
pub parse_options_missing_value :
    (ps : List Pair) (last : Pair)
    → All IsKnown ps
    → IsKnown last
    → parse_options (command_line ps ++ last.written ∷ []) ≡ err out_of_bounds
unfolding parse_from
parse_options_missing_value ps last h known =
    parse_from-pairs ps (last.written ∷ []) [] h ∙ rw (known, parse_from) refl
