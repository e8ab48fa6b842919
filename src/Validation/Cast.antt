-- ===== src/Validation/Cast.antt =====
-- src/tools/tool_validation.c: casts, checks, and the loop over the properties of a schema.
use primagen.Base.{
  ℕ, zero, ◌+◌, Bool, true, false, not, ◌&&◌, ◌||◌, List, [], ◌∷◌, ◌++◌, Option, none, some, leb,
  if◌then◌else◌, length, Text, codes, text_eq, copy_to, ℤ, pos,
}
use primagen.Libc.{strtol, to_int, print_d}
use primagen.Cron.Field.{leb_ℤ}
use primagen.Validation.{
  Json, null, bool, number, string, array, object, Items, no_items, item, Members, no_members,
  member, Ops,
}

abbrev pub error_of : Text → Text
error_of msg = copy_to 256 msg

-- `validation_list_join` with "; "; NULL without errors.
unfoldable pub validation_list_join : List Text → Option Text
validation_list_join [] = none
validation_list_join (e ∷ []) = some e
validation_list_join (e ∷ es) = elim (validation_list_join es) [
  | none ↦ some e
  | some rest ↦ some (e ++ codes "; " ++ rest)
]

abbrev pub to_lower : ℕ → ℕ
to_lower c = if leb 65 c && leb c 90 then c + 32 else c

abbrev pub lower : Text → Text
lower [] = []
lower (c ∷ cs) = to_lower c ∷ lower cs

abbrev pub same_letters : Text → Text → Bool
same_letters a b = text_eq (lower a) (lower b)

module _ {D : Type 0} (ops : Ops D) where
  unfoldable pub cast_to_string : Json D → Text
  cast_to_string (string s) = s
  cast_to_string (number d) = copy_to 64 (ops.print_g d)
  cast_to_string (bool b) = if b then codes "true" else codes "false"
  cast_to_string null = codes "null"
  cast_to_string (array items) = ops.print (array items)
  cast_to_string (object members) = ops.print (object members)

  abbrev pub if_at_end : {A : Type 0} → A → Text → Option A
  if_at_end a [] = some a
  if_at_end a (c ∷ cs) = none

  unfoldable pub cast_to_int : Json D → Option ℤ
  unfolding strtol
  cast_to_int (number d) = some (ops.valueint d)
  cast_to_int (string s) = if_at_end (to_int (strtol s).0) (strtol s).1
  cast_to_int _ = none

  unfoldable pub cast_to_number : Json D → Option D
  cast_to_number (number d) = some d
  cast_to_number (string s) = if_at_end (ops.strtod s).0 (ops.strtod s).1
  cast_to_number _ = none

  abbrev pub is_zero : ℤ → Bool
  is_zero (pos zero) = true
  is_zero _ = false

  unfoldable pub cast_to_bool : Json D → Option Bool
  unfolding text_eq
  cast_to_bool (bool b) = some b
  cast_to_bool (number d) = some (not (is_zero (ops.valueint d)))
  cast_to_bool (string s) =
      if same_letters s (codes "true") || same_letters s (codes "yes") || text_eq s (codes "1")
      then some true
      else if same_letters s (codes "false") || same_letters s (codes "no") || text_eq s (codes "0")
      then some false
      else none
  cast_to_bool _ = none

  -- The integer of a member that is a number.
  abbrev pub limit_item : Option (Json D) → Option ℤ
  limit_item (some (number d)) = some (ops.valueint d)
  limit_item _ = none

  abbrev pub limit : Json D → Text → Option ℤ
  limit schema key = limit_item (ops.object_item schema key)

  -- An error where a value is under a limit, or over it.
  abbrev pub check_min : Option ℤ → ℤ → (ℤ → Text) → List Text
  check_min none v msg = []
  check_min (some m) v msg = if leb_ℤ m v then [] else error_of (msg m) ∷ []

  abbrev pub check_max : Option ℤ → ℤ → (ℤ → Text) → List Text
  check_max none v msg = []
  check_max (some m) v msg = if leb_ℤ v m then [] else error_of (msg m) ∷ []

  unfoldable pub any_string : Items D → Text → Bool
  any_string no_items s = false
  any_string (item (string t) items) s = text_eq t s || any_string items s
  any_string (item _ items) s = any_string items s

  abbrev pub is_allowed : Option (Json D) → Text → Bool
  is_allowed (some (array items)) s = any_string items s
  is_allowed _ s = true

  abbrev pub min_length_errors : Text → Json D → Text → List Text
  min_length_errors name schema s =
      check_min (limit schema (codes "minLength")) (to_int (pos (length s)))
        (λ m. name ++ codes " must be at least " ++ print_d m ++ codes " characters")

  abbrev pub max_length_errors : Text → Json D → Text → List Text
  max_length_errors name schema s =
      check_max (limit schema (codes "maxLength")) (to_int (pos (length s)))
        (λ m. name ++ codes " must be at most " ++ print_d m ++ codes " characters")

  abbrev pub enum_errors : Text → Json D → Text → List Text
  enum_errors name schema s =
      if is_allowed (ops.object_item schema (codes "enum")) s
      then []
      else error_of (name ++ codes " must be one of the allowed values") ∷ []

  abbrev pub string_errors : Text → Json D → Text → List Text
  string_errors name schema s =
      min_length_errors name schema s
      ++ (max_length_errors name schema s ++ enum_errors name schema s)

  abbrev pub minimum_errors : Text → Json D → ℤ → List Text
  minimum_errors name schema v =
      check_min (limit schema (codes "minimum")) v (λ m. name ++ codes " must be >= " ++ print_d m)

  abbrev pub maximum_errors : Text → Json D → ℤ → List Text
  maximum_errors name schema v =
      check_max (limit schema (codes "maximum")) v (λ m. name ++ codes " must be <= " ++ print_d m)

  abbrev pub integer_errors : Text → Json D → ℤ → List Text
  integer_errors name schema v = minimum_errors name schema v ++ maximum_errors name schema v

  -- What becomes of one argument: the value that the result gets, if any, and the errors.
  abbrev pub or_error : Option (Json D) → Text → Option (Json D) × List Text
  or_error none msg = (none, error_of msg ∷ [])
  or_error (some v) msg = (some v, [])

  abbrev pub with_limits : Text → Json D → Option ℤ → Option (Json D) × List Text
  with_limits name schema none = (none, error_of (name ++ codes " must be an integer") ∷ [])
  with_limits name schema (some v) = (some (number (ops.of_int v)), integer_errors name schema v)

  abbrev pub as_array : Json D → Option (Json D)
  as_array (array items) = some (array items)
  as_array _ = none

  abbrev pub as_object : Json D → Option (Json D)
  as_object (object members) = some (object members)
  as_object _ = none

  abbrev pub as_number : Option D → Option (Json D)
  as_number none = none
  as_number (some d) = some (number d)

  abbrev pub as_bool : Option Bool → Option (Json D)
  as_bool none = none
  as_bool (some b) = some (bool b)

-- The types of a schema that are told apart.
pub data Kind : Type 0 where
  is_string is_integer is_number is_boolean is_array is_object is_other : Kind

abbrev pub kind_of_name : Text → Kind
kind_of_name t =
    if text_eq t (codes "string")
    then is_string
    else if text_eq t (codes "integer")
    then is_integer
    else if text_eq t (codes "number") || text_eq t (codes "float")
    then is_number
    else if text_eq t (codes "boolean")
    then is_boolean
    else if text_eq t (codes "array")
    then is_array
    else if text_eq t (codes "object")
    then is_object
    else is_other

module _ {D : Type 0} (ops : Ops D) where
  abbrev pub kind_of_item : Option (Json D) → Kind
  kind_of_item (some (string t)) = kind_of_name t
  kind_of_item _ = is_other

  abbrev pub kind_of : Json D → Kind
  kind_of schema = kind_of_item (ops.object_item schema (codes "type"))

  unfoldable pub cast_argument : Kind → Text → Json D → Json D → Option (Json D) × List Text
  unfolding cast_to_string cast_to_int cast_to_number cast_to_bool
  cast_argument is_string name schema v =
      (some (string (cast_to_string ops v)), string_errors ops name schema (cast_to_string ops v))
  cast_argument is_integer name schema v = with_limits ops name schema (cast_to_int ops v)
  cast_argument is_number name schema v =
      or_error ops (as_number ops (cast_to_number ops v)) (name ++ codes " must be a number")
  cast_argument is_boolean name schema v =
      or_error ops (as_bool ops (cast_to_bool ops v)) (name ++ codes " must be a boolean")
  cast_argument is_array name schema v =
      or_error ops (as_array ops v) (name ++ codes " must be an array")
  cast_argument is_object name schema v =
      or_error ops (as_object ops v) (name ++ codes " must be an object")
  cast_argument is_other name schema v = (some v, [])

  -- A member put before the others.
  abbrev pub add_member : Text → Option (Json D) → List (Text × Json D) → List (Text × Json D)
  add_member name none ms = ms
  add_member name (some v) ms = (name, v) ∷ ms

  -- A property's argument, if it is given, before what the rest comes to.
  abbrev pub with_argument :
      Text
      → Json D
      → List (Text × Json D) × List Text
      → Option (Json D)
      → List (Text × Json D) × List Text
  with_argument name schema rest none = rest
  with_argument name schema rest (some v) =
      let (cast, errors) = cast_argument (kind_of schema) name schema v in
      (add_member name cast rest.0, errors ++ rest.1)

  -- The result's members and the errors, property by property.
  unfoldable pub cast_properties : Json D → Members D → List (Text × Json D) × List Text
  unfolding cast_argument
  cast_properties args no_members = ([], [])
  cast_properties args (member name schema props) =
      with_argument name schema (cast_properties args props) (ops.object_item args name)

  unfoldable pub check_required : Json D → Items D → List Text
  check_required args no_items = []
  check_required args (item (string name) items) =
      let rest = check_required args items in
      elim (ops.object_item args name) [
        | none ↦ error_of (codes "missing required parameter: " ++ name) ∷ rest
        | some _ ↦ rest
      ]
  check_required args (item _ items) = check_required args items

  abbrev pub required_errors : Json D → Option (Json D) → List Text
  required_errors args (some (array items)) = check_required args items
  required_errors args _ = []

  abbrev pub members_of : Members D → List (Text × Json D)
  members_of no_members = []
  members_of (member name v ms) = (name, v) ∷ members_of ms

  -- The children of an object; those of an array have no names and are not copied.
  abbrev pub all_members : Json D → List (Text × Json D)
  all_members (object ms) = members_of ms
  all_members _ = []

  abbrev pub cast_all : Json D → Option (Json D) → List (Text × Json D) × List Text
  cast_all args (some (object props)) = cast_properties args props
  cast_all args _ = (all_members args, [])

  abbrev pub object_of : List (Text × Json D) → Members D
  object_of [] = no_members
  object_of ((name, v) ∷ ms) = member name v (object_of ms)

  abbrev pub validated : List (Text × Json D) → List Text → Option Text × Option Text
  validated ms [] = (some (ops.print (object (object_of ms))), none)
  validated ms (e ∷ es) = (none, validation_list_join (e ∷ es))

  -- What is returned, and the error message that is set.
  unfoldable pub validate_with : Json D → Json D → Option Text × Option Text
  unfolding cast_properties check_required validation_list_join
  validate_with args schema =
      let (ms, errors) = cast_all args (ops.object_item schema (codes "properties")) in
      validated ms (required_errors args (ops.object_item schema (codes "required")) ++ errors)

  -- A schema of NULL is empty here.
  unfoldable pub tool_validate_and_cast_params : Text → Text → Option Text × Option Text
  unfolding validate_with
  tool_validate_and_cast_params args_json schema_json = elim (ops.parse args_json) [
    | none ↦ (none, some (codes "Invalid JSON arguments"))
    | some args ↦ elim schema_json [
      | [] ↦ (some (ops.print args), none)
      | c ∷ cs ↦ elim (ops.parse (c ∷ cs)) [
        | none ↦ (none, some (codes "Invalid schema JSON"))
        | some schema ↦ validate_with args schema
      ]
    ]
  ]

  unfoldable pub tool_validate_params : Text → Text → Option Text
  unfolding tool_validate_and_cast_params
  tool_validate_params args_json schema_json =
      (tool_validate_and_cast_params args_json schema_json).1
