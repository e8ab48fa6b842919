-- ===== src/Validation.antt =====
-- src/tools/tool_validation.c: the arguments of a tool call against the tool's schema. JSON values are
-- the trees that cJSON holds; its functions, and C's conversions of doubles, are the operations of `Json.Ops`.
pub mod Cast
pub mod Conformity
pub mod Verdict
pub mod Examples
use primagen.Base.{ℕ, Bool, List, [], ◌∷◌, Option, Text, ℤ}

-- The numbers are of a type `D`, C's doubles.
mutual
  pub data Json (D : Type 0) : Type 0 where
    null : Json D
    bool : Bool → Json D
    number : D → Json D
    string : Text → Json D
    array : Items D → Json D
    object : Members D → Json D

  pub data Items (D : Type 0) : Type 0 where
    no_items : Items D
    item : Json D → Items D → Items D

  pub data Members (D : Type 0) : Type 0 where
    no_members : Members D
    member : Text → Json D → Members D → Members D

-- What the code calls of cJSON and of C: the integer of a number (`valueint`), a member of an object by its
-- key, if it is an object and has one, `%g`, `strtod` with what follows the number.
pub record Ops (D : Type 0) : Type 0 where
  pub parse : Text → Option (Json D)
  pub print : Json D → Text
  pub object_item : Json D → Text → Option (Json D)
  pub valueint : D → ℤ
  pub of_int : ℤ → D
  pub print_g : D → Text
  pub strtod : Text → D × Text
