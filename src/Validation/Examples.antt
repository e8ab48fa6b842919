-- ===== src/Validation/Examples.antt =====
-- Arguments and schemas at concrete inputs, with integers for the doubles.
use primagen.Base.{
  ◌≡◌, refl, List, [], ◌∷◌, Option, none, some, if◌then◌else◌, Text, codes, text_eq, ℤ, pos, ◌⊎◌,
}
use primagen.Libc.{strtol}
use primagen.Utils.{str_trim_left}
use primagen.Validation.{
  Json, number, string, array, object, no_items, item, Members, no_members, member, Ops,
}
use primagen.Validation.Cast.{cast_to_int, validate_with}
use primagen.Validation.Conformity.{Matches, RequiredGiven}
use primagen.Validation.Verdict.{validate_with-cases, validate_with-accepts}

abbrev lookup : Members ℤ → Text → Option (Json ℤ)
lookup no_members key = none
lookup (member name v ms) key = if text_eq name key then some v else lookup ms key

abbrev item_in : Json ℤ → Text → Option (Json ℤ)
item_in (object ms) key = lookup ms key
item_in _ key = none

abbrev ops : Ops ℤ
ops = record {
  parse = λ s. none;
  print = λ v. codes "{}";
  object_item = item_in;
  valueint = λ d. d;
  of_int = λ n. n;
  print_g = λ d. codes "0";
  strtod = λ s. (pos 0, s);
}

abbrev count_schema : Json ℤ
count_schema = object (
    member (codes "type") (string (codes "integer"))
      (member (codes "minimum") (number (pos 1)) no_members))

abbrev properties : Members ℤ
properties =
    member (codes "count") count_schema (member (codes "path") (object no_members) no_members)

abbrev schema : Json ℤ
schema = object (
    member (codes "properties") (object properties)
      (member (codes "required") (array (item (string (codes "count")) no_items)) no_members))

abbrev args : Json ℤ
args = object (member (codes "count") (string (codes "7")) no_members)

abbrev result : List (Text × Json ℤ)
result = (codes "count", number (pos 7)) ∷ []

has_properties : item_in schema (codes "properties") ≡ some (object properties)
unfolding text_eq
has_properties = refl

is_given : RequiredGiven ops args (item_in schema (codes "required"))
unfolding text_eq
is_given = (refl, tt)

matches : Matches ops args properties result
unfolding text_eq cast_to_int strtol str_trim_left
matches = (number (pos 7), [], refl, (pos 7, refl, refl, (refl, tt)), refl)

validate_with-accepts_example : validate_with ops args schema ≡ (some (codes "{}"), none)
validate_with-accepts_example =
    validate_with-accepts ops args schema properties result has_properties is_given matches

validate_with-cases_example :
    ((m : Text) × (validate_with ops args schema ≡ (none, some m)))
    ⊎ ((ms : List (Text × Json ℤ)) × (validate_with ops args schema ≡ (some (codes "{}"), none))
        × RequiredGiven ops args (item_in schema (codes "required"))
        × Matches ops args properties ms)
validate_with-cases_example = validate_with-cases ops args schema properties has_properties

-- The empty text is an integer, and so is a number beyond the range of `int`, which wraps.
empty_integer : cast_to_int ops (string []) ≡ some (pos 0)
unfolding cast_to_int strtol str_trim_left
empty_integer = refl

wrapped_integer : cast_to_int ops (string (codes "4294967297")) ≡ some (pos 1)
unfolding cast_to_int strtol str_trim_left
wrapped_integer = refl
