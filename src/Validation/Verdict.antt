-- ===== src/Validation/Verdict.antt =====
-- src/tools/tool_validation.c: what the validation answers, exactly when.
use mathlib.Core.Path.{subst}
use primagen.Base.{
  ◌≡◌, refl, sym, ap, ◌∙◌, true, List, [], ◌∷◌, ◌++◌, Option, none, some, is_some, arith, Text,
  codes, ◌⊎◌, inl, inr,
}
use primagen.Validation.{
  Json, null, bool, number, string, array, object, Items, no_items, item, Members, no_members,
  member, Ops,
}
use primagen.Validation.Cast.{
  error_of, validation_list_join, kind_of, add_member, with_argument, cast_properties,
  check_required, required_errors, cast_all, object_of, validated, validate_with,
}
use primagen.Validation.Conformity.{
  nothing_behind, not_cons, Accepts, Matches, AllGiven, RequiredGiven, cast_argument-pass,
  cast_properties-Matches,
}

module _ {D : Type 0} (ops : Ops D) where
  cast_properties-pass :
      (args : Json D) (props : Members D) (ms : List (Text × Json D))
      → Matches ops args props ms
      → cast_properties ops args props ≡ (ms, [])
  unfolding cast_properties
  cast_properties-pass args no_members ms h = ap (λ l. (l, [])) (sym h)
  cast_properties-pass args (member name schema props) ms h =
      by_given (ops.object_item args name) h (λ ms h. cast_properties-pass args props ms h)
    where
      by_given :
          (o : Option (Json D))
          → elim o as (λ _. Type 0) [
            | none ↦ Matches ops args props ms
            | some v ↦
                (r : Json D) × (more : List (Text × Json D)) × (ms ≡ (name, r) ∷ more)
                × Accepts ops (kind_of ops schema) schema v r
                × Matches ops args props more
          ]
          → ((ms : List (Text × Json D))
              → Matches ops args props ms
              → cast_properties ops args props ≡ (ms, []))
          → with_argument ops name schema (cast_properties ops args props) o ≡ (ms, [])
      by_given none h again = again ms h
      by_given (some v) (r, more, same, accepted, matches) again =
          ap (λ rest. with_argument ops name schema rest (some v)) (again more matches)
          ∙ ap (λ (c : Option (Json D) × List Text). (add_member ops name c.0 more, c.1 ++ []))
              (cast_argument-pass ops (kind_of ops schema) name schema v r accepted)
          ∙ ap (λ l. (l, [])) (sym same)

  check_required-AllGiven :
      (args : Json D) (items : Items D)
      → check_required ops args items ≡ []
      → AllGiven ops args items
  unfolding check_required
  check_required-AllGiven args no_items h = tt
  check_required-AllGiven args (item (string name) items) h =
      by_given (ops.object_item args name) h (check_required-AllGiven args items)
    where
      by_given :
          (o : Option (Json D))
          → (elim o [
            | none ↦
                error_of (codes "missing required parameter: " ++ name)
                ∷ check_required ops args items
            | some _ ↦ check_required ops args items
          ])
            ≡ []
          → (check_required ops args items ≡ [] → AllGiven ops args items)
          → (is_some o ≡ true) × AllGiven ops args items
      by_given none h again = absurd (not_cons h)
      by_given (some v) h again = (refl, again h)
  check_required-AllGiven args (item null items) h = check_required-AllGiven args items h
  check_required-AllGiven args (item (bool b) items) h = check_required-AllGiven args items h
  check_required-AllGiven args (item (number d) items) h = check_required-AllGiven args items h
  check_required-AllGiven args (item (array x) items) h = check_required-AllGiven args items h
  check_required-AllGiven args (item (object x) items) h = check_required-AllGiven args items h

  check_required-pass :
      (args : Json D) (items : Items D)
      → AllGiven ops args items
      → check_required ops args items ≡ []
  unfolding check_required
  check_required-pass args no_items h = refl
  check_required-pass args (item (string name) items) (given, others) =
      by_given (ops.object_item args name) given (check_required-pass args items others)
    where
      by_given :
          (o : Option (Json D))
          → is_some o ≡ true
          → check_required ops args items ≡ []
          → (elim o [
            | none ↦
                error_of (codes "missing required parameter: " ++ name)
                ∷ check_required ops args items
            | some _ ↦ check_required ops args items
          ])
            ≡ []
      by_given none h again = absurd (ground arith)
      by_given (some v) h again = again
  check_required-pass args (item null items) h = check_required-pass args items h
  check_required-pass args (item (bool b) items) h = check_required-pass args items h
  check_required-pass args (item (number d) items) h = check_required-pass args items h
  check_required-pass args (item (array x) items) h = check_required-pass args items h
  check_required-pass args (item (object x) items) h = check_required-pass args items h

  required-RequiredGiven :
      (args : Json D) (o : Option (Json D))
      → required_errors ops args o ≡ []
      → RequiredGiven ops args o
  required-RequiredGiven args none h = tt
  required-RequiredGiven args (some (array items)) h = check_required-AllGiven args items h
  required-RequiredGiven args (some null) h = tt
  required-RequiredGiven args (some (bool b)) h = tt
  required-RequiredGiven args (some (number d)) h = tt
  required-RequiredGiven args (some (string s)) h = tt
  required-RequiredGiven args (some (object x)) h = tt

  required-pass :
      (args : Json D) (o : Option (Json D))
      → RequiredGiven ops args o
      → required_errors ops args o ≡ []
  required-pass args none h = refl
  required-pass args (some (array items)) h = check_required-pass args items h
  required-pass args (some null) h = refl
  required-pass args (some (bool b)) h = refl
  required-pass args (some (number d)) h = refl
  required-pass args (some (string s)) h = refl
  required-pass args (some (object x)) h = refl

  -- The messages joined are a message.
  join-some : (e : Text) (es : List Text) → (m : Text) × (validation_list_join (e ∷ es) ≡ some m)
  unfolding validation_list_join
  join-some e [] = (e, refl)
  join-some e (f ∷ es) =
      let (m, at) = join-some f es in
      (
        e ++ codes "; " ++ m,
        ap (λ o. elim o [ none ↦ some e | some rest ↦ some (e ++ codes "; " ++ rest) ]) at,
      )

  -- For arguments and a schema with properties: either an error message is set and NULL is returned; or there is no
  -- message, every required parameter is given, and the object that is returned has, in the order of the properties, each
  -- given one as the value that its type and its limits accept, and nothing else.
  pub validate_with-cases :
      (args schema : Json D) (props : Members D)
      → ops.object_item schema (codes "properties") ≡ some (object props)
      → ((m : Text) × (validate_with ops args schema ≡ (none, some m)))
        ⊎ ((ms : List (Text × Json D)) × (validate_with ops args schema
              ≡ (some (ops.print (object (object_of ops ms))), none))
            × RequiredGiven ops args (ops.object_item schema (codes "required"))
            × Matches ops args props ms)
  unfolding validate_with
  validate_with-cases args schema props at =
      subst (λ o. Verdict o) (sym at)
        (by_errors
          (required_errors ops args (ops.object_item schema (codes "required"))
            ++ (cast_properties ops args props).1)
          refl)
    where
      verdict : Option (Json D) → Option Text × Option Text
      verdict o = validated ops (cast_all ops args o).0 (
          required_errors ops args (ops.object_item schema (codes "required"))
          ++ (cast_all ops args o).1)

      Verdict : Option (Json D) → Type 0
      Verdict o =
          ((m : Text) × (verdict o ≡ (none, some m)))
          ⊎ ((ms : List (Text × Json D)) × (verdict o
                ≡ (some (ops.print (object (object_of ops ms))), none))
              × RequiredGiven ops args (ops.object_item schema (codes "required"))
              × Matches ops args props ms)

      by_errors :
          (es : List Text)
          → required_errors ops args (ops.object_item schema (codes "required"))
              ++ (cast_properties ops args props).1
            ≡ es
          → Verdict (some (object props))
      by_errors [] none_found =
          let (given, cast) =
            nothing_behind (required_errors ops args (ops.object_item schema (codes "required")))
              (cast_properties ops args props).1 none_found in
          inr (
            (cast_properties ops args props).0,
            ap (validated ops (cast_properties ops args props).0) none_found,
            required-RequiredGiven args (ops.object_item schema (codes "required")) given,
            cast_properties-Matches ops args props cast,
          )
      by_errors (e ∷ es) found =
          let (m, at) = join-some e es in
          inl (
            m,
            ap (validated ops (cast_properties ops args props).0) found ∙ ap (λ o. (none, o)) at,
          )

  -- For arguments and a schema with properties: if every required parameter is given, and each given property
  -- has a value that its type and its limits accept, the object of those values is returned, without an error.
  pub validate_with-accepts :
      (args schema : Json D) (props : Members D) (ms : List (Text × Json D))
      → ops.object_item schema (codes "properties") ≡ some (object props)
      → RequiredGiven ops args (ops.object_item schema (codes "required"))
      → Matches ops args props ms
      → validate_with ops args schema ≡ (some (ops.print (object (object_of ops ms))), none)
  unfolding validate_with
  validate_with-accepts args schema props ms at given matches =
      let required = required_errors ops args (ops.object_item schema (codes "required")) in
      ap (λ o. validated ops (cast_all ops args o).0 (required ++ (cast_all ops args o).1)) at
      ∙ ap (λ (c : List (Text × Json D) × List Text). validated ops c.0 (required ++ c.1))
          (cast_properties-pass args props ms matches)
      ∙ ap (λ r. validated ops ms (r ++ []))
          (required-pass args (ops.object_item schema (codes "required")) given)
