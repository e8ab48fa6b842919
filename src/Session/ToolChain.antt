-- ===== src/Session/ToolChain.antt =====
-- Which starts of a window keep the chains of tool calls of src/session/session.c whole: stated of the
-- messages themselves, and what the code's own tests say of it.
use primagen.Base.{
  ℕ, suc, ◌-◌, ◌≤◌, ◌<◌, ◌≡◌, ◌≢◌, ◌⊎◌, List, [], ◌∷◌, Option, none, some, arith, length, get_elem?,
  take, drop, Text,
}
use primagen.Messages.{Message, assistant, tool, ToolCall}

-- A call with the id is among the calls, and none is.
abbrev pub HasId : Text → List ToolCall → Type 0
HasId id [] = ⊥
HasId id (c ∷ cs) = (c.id ≡ id) ⊎ HasId id cs

abbrev pub LacksId : Text → List ToolCall → Type 0
LacksId id [] = Unit
LacksId id (c ∷ cs) = (c.id ≢ id) × LacksId id cs

-- An assistant's message with a call of this id, which is not empty.
abbrev pub IsCaller : Text → Option Message → Type 0
IsCaller id none = ⊥
IsCaller id (some m) = (m.role ≡ assistant) × (0 < length id) × HasId id m.tool_calls

abbrev pub IsNoCaller : Text → Option Message → Type 0
IsNoCaller id none = Unit
IsNoCaller id (some m) = (m.role ≢ assistant) ⊎ (id ≡ []) ⊎ LacksId id m.tool_calls

-- An assistant's message with calls.
abbrev pub CallsTools : Option Message → Type 0
CallsTools none = ⊥
CallsTools (some m) = (m.role ≡ assistant) × (0 < length m.tool_calls)

abbrev pub CallsNone : Option Message → Type 0
CallsNone none = Unit
CallsNone (some m) = (m.role ≢ assistant) ⊎ (m.tool_calls ≡ [])

abbrev pub NoCallers : Text → List Message → Type 0
NoCallers id [] = Unit
NoCallers id (m ∷ ms) = IsNoCaller id (some m) × NoCallers id ms

-- The message is no answer to a call that one of the messages before it makes.
abbrev pub AnswersNone : List Message → Option Message → Type 0
AnswersNone before none = Unit
AnswersNone before (some m) = (m.role ≢ tool) ⊎ NoCallers m.tool_call_id before

-- A start before which nothing is left out that the first message needs: it is the first message
-- of all, or it answers no call of an earlier message and does not follow an assistant's calls.
abbrev pub IsCleanStart : List Message → ℕ → Type 0
IsCleanStart ms a =
    (a ≡ 0) ⊎ (AnswersNone (take a ms) (get_elem? ms a) × CallsNone (get_elem? ms (a - 1)))

-- The start goes back for a reason only: to the nearest earlier message that makes the call that the
-- first message answers, or over an assistant's calls right before it.
pub data GoesBack (ms : List Message) : ℕ → ℕ → Type 0 where
  stays : {a : ℕ} → GoesBack ms a a
  to_caller :
      {a b c : ℕ} {first : Message}
      → get_elem? ms a ≡ some first
      → first.role ≡ tool
      → b < a
      → IsCaller first.tool_call_id (get_elem? ms b)
      → NoCallers first.tool_call_id (take (a - suc b) (drop (suc b) ms))
      → GoesBack ms b c
      → GoesBack ms a c
  over_calls : {a c : ℕ} → CallsTools (get_elem? ms a) → GoesBack ms a c → GoesBack ms (suc a) c

pub GoesBack-le : {ms : List Message} {a b : ℕ} → GoesBack ms a b → b ≤ a
GoesBack-le stays = omega arith
GoesBack-le (to_caller e t lt c n g) = let le = GoesBack-le g in omega arith
GoesBack-le (over_calls c g) = let le = GoesBack-le g in omega arith

pub GoesBack-trans :
    {ms : List Message} {a b c : ℕ} → GoesBack ms a b → GoesBack ms b c → GoesBack ms a c
GoesBack-trans stays h = h
GoesBack-trans (to_caller e t lt c n g) h = to_caller e t lt c n (GoesBack-trans g h)
GoesBack-trans (over_calls c g) h = over_calls c (GoesBack-trans g h)
