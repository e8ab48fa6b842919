-- ===== src/Validation/Conformity.antt =====
-- src/tools/tool_validation.c: which arguments a schema accepts, and as what.
use primagen.Base.{
  ◌≡◌, refl, sym, ap, ◌∙◌, Bool, true, false, List, [], ◌∷◌, ◌++◌, Option, none, some, is_some,
  if◌then◌else◌, arith, length, Text, codes, ℤ, pos,
}
use primagen.Cron.Field.{leb_ℤ}
use primagen.Libc.{print_d, to_int}
use primagen.Validation.{
  Json, bool, number, string, array, Items, no_items, item, Members, no_members, member, Ops,
}
use primagen.Validation.Cast.{
  error_of, cast_to_string, cast_to_int, cast_to_number, cast_to_bool, limit, check_min, check_max,
  is_allowed, min_length_errors, max_length_errors, enum_errors, string_errors, minimum_errors,
  maximum_errors, integer_errors, or_error, with_limits, as_array, as_object, as_number, as_bool,
  Kind, is_string, is_integer, is_number, is_boolean, is_array, is_object, is_other, kind_of,
  cast_argument, add_member, with_argument, cast_properties,
}

abbrev pub IsAtLeast : Option ℤ → ℤ → Type 0
IsAtLeast none v = Unit
IsAtLeast (some m) v = leb_ℤ m v ≡ true

abbrev pub IsAtMost : Option ℤ → ℤ → Type 0
IsAtMost none v = Unit
IsAtMost (some m) v = leb_ℤ v m ≡ true

pub nothing_behind : {A : Type 0} (xs ys : List A) → xs ++ ys ≡ [] → (xs ≡ []) × (ys ≡ [])
nothing_behind [] ys h = (refl, h)
nothing_behind (x ∷ xs) ys h = absurd (ground arith)

passed : (b : Bool) (e : Text) → (if b then [] else e ∷ []) ≡ [] → b ≡ true
passed true e h = refl
passed false e h = absurd (ground arith)

pub not_cons : {A : Type 0} {x : A} {xs : List A} → x ∷ xs ≡ [] → ⊥
not_cons h = ground arith

module _ {D : Type 0} (ops : Ops D) where
  check_min-empty :
      (l : Option ℤ) (v : ℤ) (msg : ℤ → Text) → check_min ops l v msg ≡ [] → IsAtLeast l v
  check_min-empty none v msg h = tt
  check_min-empty (some m) v msg h = passed (leb_ℤ m v) (error_of (msg m)) h

  check_max-empty :
      (l : Option ℤ) (v : ℤ) (msg : ℤ → Text) → check_max ops l v msg ≡ [] → IsAtMost l v
  check_max-empty none v msg h = tt
  check_max-empty (some m) v msg h = passed (leb_ℤ v m) (error_of (msg m)) h

  check_min-pass :
      (l : Option ℤ) (v : ℤ) (msg : ℤ → Text) → IsAtLeast l v → check_min ops l v msg ≡ []
  check_min-pass none v msg h = refl
  check_min-pass (some m) v msg h = ap (λ b. if b then [] else error_of (msg m) ∷ []) h

  check_max-pass :
      (l : Option ℤ) (v : ℤ) (msg : ℤ → Text) → IsAtMost l v → check_max ops l v msg ≡ []
  check_max-pass none v msg h = refl
  check_max-pass (some m) v msg h = ap (λ b. if b then [] else error_of (msg m) ∷ []) h

  -- The limits that a schema sets to a text, whose length is an `int` of C, and to an integer.
  abbrev pub InTextLimits : Json D → Text → Type 0
  InTextLimits schema s =
      IsAtLeast (limit ops schema (codes "minLength")) (to_int (pos (length s)))
      × IsAtMost (limit ops schema (codes "maxLength")) (to_int (pos (length s)))
      × (is_allowed ops (ops.object_item schema (codes "enum")) s ≡ true)

  abbrev pub InIntLimits : Json D → ℤ → Type 0
  InIntLimits schema n =
      IsAtLeast (limit ops schema (codes "minimum")) n
      × IsAtMost (limit ops schema (codes "maximum")) n

  -- A value is accepted for a type as a result.
  abbrev pub Accepts : Kind → Json D → Json D → Json D → Type 0
  Accepts is_string schema v r =
      (r ≡ string (cast_to_string ops v)) × InTextLimits schema (cast_to_string ops v)
  Accepts is_integer schema v r =
      (n : ℤ) × (cast_to_int ops v ≡ some n) × (r ≡ number (ops.of_int n)) × InIntLimits schema n
  Accepts is_number schema v r = (d : D) × (cast_to_number ops v ≡ some d) × (r ≡ number d)
  Accepts is_boolean schema v r = (b : Bool) × (cast_to_bool ops v ≡ some b) × (r ≡ bool b)
  Accepts is_array schema v r = (as_array ops v ≡ some r)
  Accepts is_object schema v r = (as_object ops v ≡ some r)
  Accepts is_other schema v r = r ≡ v

  string_errors-empty :
      (name : Text) (schema : Json D) (s : Text)
      → string_errors ops name schema s ≡ []
      → InTextLimits schema s
  string_errors-empty name schema s h =
      let (shortest, rest) =
        nothing_behind (min_length_errors ops name schema s)
          (max_length_errors ops name schema s ++ enum_errors ops name schema s) h in
      let (longest, one_of) =
        nothing_behind (max_length_errors ops name schema s) (enum_errors ops name schema s) rest in
      (
        check_min-empty (limit ops schema (codes "minLength")) (to_int (pos (length s))) _ shortest,
        check_max-empty (limit ops schema (codes "maxLength")) (to_int (pos (length s))) _ longest,
        passed (is_allowed ops (ops.object_item schema (codes "enum")) s) _ one_of,
      )

  string_errors-pass :
      (name : Text) (schema : Json D) (s : Text)
      → InTextLimits schema s
      → string_errors ops name schema s ≡ []
  string_errors-pass name schema s (shortest, longest, one_of) =
      three
        (check_min-pass (limit ops schema (codes "minLength")) (to_int (pos (length s)))
          (λ m. name ++ codes " must be at least " ++ print_d m ++ codes " characters") shortest)
        (check_max-pass (limit ops schema (codes "maxLength")) (to_int (pos (length s)))
          (λ m. name ++ codes " must be at most " ++ print_d m ++ codes " characters") longest)
        (ap
          (λ b.
            if b then [] else error_of (name ++ codes " must be one of the allowed values") ∷ [])
          one_of)
    where
      three : {x y z : List Text} → x ≡ [] → y ≡ [] → z ≡ [] → x ++ (y ++ z) ≡ []
      three {x = x} {y = y} {z = z} h k l = ap (λ a. a ++ (y ++ z)) h ∙ ap (λ a. a ++ z) k ∙ l

  integer_errors-empty :
      (name : Text) (schema : Json D) (n : ℤ)
      → integer_errors ops name schema n ≡ []
      → InIntLimits schema n
  integer_errors-empty name schema n h =
      let (least, most) =
        nothing_behind (minimum_errors ops name schema n) (maximum_errors ops name schema n) h in
      (
        check_min-empty (limit ops schema (codes "minimum")) n _ least,
        check_max-empty (limit ops schema (codes "maximum")) n _ most,
      )

  integer_errors-pass :
      (name : Text) (schema : Json D) (n : ℤ)
      → InIntLimits schema n
      → integer_errors ops name schema n ≡ []
  integer_errors-pass name schema n (least, most) =
      ap
        (λ a.
          a
          ++ check_max ops (limit ops schema (codes "maximum")) n
              (λ m. name ++ codes " must be <= " ++ print_d m))
        (check_min-pass (limit ops schema (codes "minimum")) n
          (λ m. name ++ codes " must be >= " ++ print_d m) least)
      ∙ check_max-pass (limit ops schema (codes "maximum")) n
          (λ m. name ++ codes " must be <= " ++ print_d m) most

  or_error-some :
      (o : Option (Json D)) (msg : Text)
      → (or_error ops o msg).1 ≡ []
      → (r : Json D) × ((or_error ops o msg).0 ≡ some r) × (o ≡ some r)
  or_error-some none msg h = absurd (not_cons h)
  or_error-some (some r) msg h = (r, refl, refl)

  -- Without an error, the argument was accepted as the result's value.
  pub cast_argument-Accepts :
      (k : Kind) (name : Text) (schema v : Json D)
      → (cast_argument ops k name schema v).1 ≡ []
      → (r : Json D) × ((cast_argument ops k name schema v).0 ≡ some r) × Accepts k schema v r
  unfolding cast_argument
  cast_argument-Accepts is_string name schema v h = (
    string (cast_to_string ops v),
    refl,
    (refl, string_errors-empty name schema (cast_to_string ops v) h),
  )
  cast_argument-Accepts is_integer name schema v h = by_cast (cast_to_int ops v) refl h
    where
      by_cast :
          (o : Option ℤ)
          → cast_to_int ops v ≡ o
          → (with_limits ops name schema o).1 ≡ []
          → (r : Json D) × ((with_limits ops name schema o).0 ≡ some r)
            × Accepts is_integer schema v r
      by_cast none at h = absurd (not_cons h)
      by_cast (some n) at h =
          (number (ops.of_int n), refl, (n, at, refl, integer_errors-empty name schema n h))
  cast_argument-Accepts is_number name schema v h = by_cast (cast_to_number ops v) refl h
    where
      by_cast :
          (o : Option D)
          → cast_to_number ops v ≡ o
          → (or_error ops (as_number ops o) (name ++ codes " must be a number")).1 ≡ []
          → (r : Json D) × ((or_error ops (as_number ops o) (name ++ codes " must be a number")).0
              ≡ some r)
            × Accepts is_number schema v r
      by_cast none at h = absurd (not_cons h)
      by_cast (some d) at h = (number d, refl, (d, at, refl))
  cast_argument-Accepts is_boolean name schema v h = by_cast (cast_to_bool ops v) refl h
    where
      by_cast :
          (o : Option Bool)
          → cast_to_bool ops v ≡ o
          → (or_error ops (as_bool ops o) (name ++ codes " must be a boolean")).1 ≡ []
          → (r : Json D) × ((or_error ops (as_bool ops o) (name ++ codes " must be a boolean")).0
              ≡ some r)
            × Accepts is_boolean schema v r
      by_cast none at h = absurd (not_cons h)
      by_cast (some b) at h = (bool b, refl, (b, at, refl))
  cast_argument-Accepts is_array name schema v h = or_error-some (as_array ops v) _ h
  cast_argument-Accepts is_object name schema v h = or_error-some (as_object ops v) _ h
  cast_argument-Accepts is_other name schema v h = (v, refl, refl)

  -- An argument that is accepted gets its value and no error.
  pub cast_argument-pass :
      (k : Kind) (name : Text) (schema v r : Json D)
      → Accepts k schema v r
      → cast_argument ops k name schema v ≡ (some r, [])
  unfolding cast_argument
  cast_argument-pass is_string name schema v r (same, limits) =
      ap (λ e. (some (string (cast_to_string ops v)), e))
        (string_errors-pass name schema (cast_to_string ops v) limits)
      ∙ ap (λ s. (some s, [])) (sym same)
  cast_argument-pass is_integer name schema v r (n, at, same, limits) =
      ap (with_limits ops name schema) at
      ∙ ap (λ e. (some (number (ops.of_int n)), e)) (integer_errors-pass name schema n limits)
      ∙ ap (λ s. (some s, [])) (sym same)
  cast_argument-pass is_number name schema v r (d, at, same) =
      ap (λ o. or_error ops (as_number ops o) (name ++ codes " must be a number")) at
      ∙ ap (λ s. (some s, [])) (sym same)
  cast_argument-pass is_boolean name schema v r (b, at, same) =
      ap (λ o. or_error ops (as_bool ops o) (name ++ codes " must be a boolean")) at
      ∙ ap (λ s. (some s, [])) (sym same)
  cast_argument-pass is_array name schema v r at =
      ap (λ o. or_error ops o (name ++ codes " must be an array")) at
  cast_argument-pass is_object name schema v r at =
      ap (λ o. or_error ops o (name ++ codes " must be an object")) at
  cast_argument-pass is_other name schema v r same = ap (λ s. (some s, [])) (sym same)

  -- The result's members are, in the order of the properties, the accepted values of those that are given.
  abbrev pub Matches : Json D → Members D → List (Text × Json D) → Type 0
  Matches args no_members ms = ms ≡ []
  Matches args (member name schema props) ms = elim (ops.object_item args name) as (λ _. Type 0) [
    | none ↦ Matches args props ms
    | some v ↦
        (r : Json D) × (more : List (Text × Json D)) × (ms ≡ (name, r) ∷ more)
        × Accepts (kind_of ops schema) schema v r
        × Matches args props more
  ]

  abbrev pub AllGiven : Json D → Items D → Type 0
  AllGiven args no_items = Unit
  AllGiven args (item (string name) items) =
      (is_some (ops.object_item args name) ≡ true) × AllGiven args items
  AllGiven args (item _ items) = AllGiven args items

  abbrev pub RequiredGiven : Json D → Option (Json D) → Type 0
  RequiredGiven args (some (array items)) = AllGiven args items
  RequiredGiven args _ = Unit

  pub cast_properties-Matches :
      (args : Json D) (props : Members D)
      → (cast_properties ops args props).1 ≡ []
      → Matches args props (cast_properties ops args props).0
  unfolding cast_properties
  cast_properties-Matches args no_members h = refl
  cast_properties-Matches args (member name schema props) h =
      by_given (ops.object_item args name) h (cast_properties-Matches args props)
    where
      rest : List (Text × Json D) × List Text
      rest = cast_properties ops args props

      by_given :
          (o : Option (Json D))
          → (with_argument ops name schema rest o).1 ≡ []
          → (rest.1 ≡ [] → Matches args props rest.0)
          → elim o as (λ _. Type 0) [
            | none ↦ Matches args props (with_argument ops name schema rest o).0
            | some v ↦
                (r : Json D) × (more : List (Text × Json D)) × ((with_argument ops name schema rest
                    o).0
                  ≡ (name, r) ∷ more)
                × Accepts (kind_of ops schema) schema v r
                × Matches args props more
          ]
      by_given none h again = again h
      by_given (some v) h again =
          let (mine, others) =
            nothing_behind (cast_argument ops (kind_of ops schema) name schema v).1 rest.1 h in
          let (r, at, accepted) = cast_argument-Accepts (kind_of ops schema) name schema v mine in
          (r, rest.0, ap (λ o. add_member ops name o rest.0) at, accepted, again others)
