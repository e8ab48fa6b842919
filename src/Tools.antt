-- ===== src/Tools.antt =====
-- src/tools/tool.c: the registry of tools. What a tool executes is an argument of the functions that
-- run it; its schema is kept as text.
pub mod Executor
use primagen.Base.{
  ℕ, ◌*◌, ◌^◌, ◌%◌, Bool, List, [], ◌∷◌, ◌++◌, Option, none, some, ◌==◌, leb, if◌then◌else◌, length,
  Text, codes, text_eq, copy_to,
}
use primagen.Messages.{Error, ErrorCode, error_new}

pub record Tool : Type 0 where
  pub name : Text
  pub description : Text
  pub parameters : Text
  pub plugin_ref : Bool

pub record ToolRegistry : Type 0 where
  pub tools : List Tool
  pub capacity : ℕ

unfoldable pub tool_registry_new : ToolRegistry
tool_registry_new = record { tools = []; capacity = 8 }

abbrev no_error : Error
no_error = record { code = ErrorCode.none; message = [] }

-- `realloc_ok` is the answer of the allocator where the array has to grow.
unfoldable pub tool_registry_register_full : Bool → ToolRegistry → Tool → ToolRegistry × Error
unfolding error_new
tool_registry_register_full realloc_ok reg tool =
    if leb reg.capacity (length reg.tools)
    then (if realloc_ok
        then (
          record { tools = reg.tools ++ tool ∷ []; capacity = reg.capacity * 2 % 2 ^ 64 },
          no_error,
        )
        else (reg, error_new ErrorCode.memory (codes "Failed to expand tool registry")))
    else (record reg { tools = reg.tools ++ tool ∷ [] }, no_error)

unfoldable pub find_tool : List Tool → Text → Option Tool
find_tool [] name = none
find_tool (t ∷ ts) name = if text_eq t.name name then some t else find_tool ts name

-- `strrchr`: what follows the last `c`.
unfoldable pub after_last : ℕ → Text → Option Text
after_last c [] = none
after_last c (x ∷ xs) = elim (after_last c xs) [
  | some rest ↦ some rest
  | none ↦ if x == c then some xs else none
]

-- The part of a name behind its last dot, or else behind its last colon.
unfoldable pub alias_of : Text → Option Text
unfolding after_last
alias_of name = elim (after_last b'.' name) [ some rest ↦ some rest | none ↦ after_last b':' name ]

abbrev by_alias : List Tool → Option Text → Option Tool
by_alias tools none = none
by_alias tools (some []) = none
by_alias tools (some (c ∷ cs)) = find_tool tools (c ∷ cs)

unfoldable pub tool_registry_get : ToolRegistry → Text → Option Tool
tool_registry_get reg name = elim (find_tool reg.tools name) [
  | some t ↦ some t
  | none ↦ by_alias reg.tools (alias_of name)
]

-- `run` is what the tool does with the arguments; the result text comes with the error.
unfoldable pub tool_registry_execute :
    (Tool → Text → Text × Error) → ToolRegistry → Text → Text → Text × Error
unfolding error_new
tool_registry_execute run reg name args = elim (tool_registry_get reg name) [
  | none ↦ ([], error_new ErrorCode.tool (copy_to 256 (codes "Tool not found: " ++ name)))
  | some t ↦ run t args
]
