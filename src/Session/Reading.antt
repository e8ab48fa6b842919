-- ===== src/Session/Reading.antt =====
-- What a load of src/session/session.c reads from the lines that a save has written.
use primagen.Base.{
  ℕ, ◌≡◌, refl, sym, ap, ◌∙◌, ◌⊎◌, Bool, true, false, List, [], ◌∷◌, ◌++◌, map, append-nil,
  append_assoc, some, arith, if◌then◌else◌, ltb, Text, text_eq,
}
use primagen.Messages.{Message, MessageRole, user, assistant, tool, ToolCall}
use primagen.Session.{Session, session_add_message}
use primagen.Session.File.{
  Line, MessageLine, MetadataLine, metadata, message, serialize_message_to_fp, role_name,
  calls_item, tool_item, unless_empty, text_of, calls_of, string, read_message, load_line,
  load_lines, fits,
}

-- A message as the program makes it: only an assistant calls tools, only a tool answers a call.
abbrev pub IsPlain : Message → Type 0
IsPlain m =
    ((m.role ≡ assistant) ⊎ (m.tool_calls ≡ []))
    × ((m.role ≡ tool) ⊎ ((m.tool_call_id ≡ []) × (m.name ≡ [])))

abbrev pub AllPlain : List Message → Type 0
AllPlain [] = Unit
AllPlain (m ∷ ms) = IsPlain m × AllPlain ms

-- The message lines of a file.
abbrev pub body : List Line → List Line
body [] = []
body (metadata m ∷ ls) = body ls
body (message l ∷ ls) = message l ∷ body ls

abbrev pub transcript : List Message → List Line
transcript ms = map serialize_message_to_fp ms

abbrev line : MessageRole → Text → Text → List ToolCall → Text → Text → MessageLine
line r content timestamp calls id name = record {
  role = some (role_name r);
  content = string content;
  timestamp = some timestamp;
  tool_calls = calls_item r calls;
  tool_call_id = tool_item r id;
  name = tool_item r name;
}

abbrev back : MessageRole → Text → Text → List ToolCall → Text → Text → Message
back r content timestamp calls id name =
    read_message (role_name r) content (line r content timestamp calls id name)

abbrev built : MessageRole → Text → Text → List ToolCall → Text → Text → Message
built r content timestamp calls id name = record {
  role = r;
  content = content;
  timestamp = timestamp;
  tool_calls = calls;
  tool_call_id = id;
  name = name;
}

text_of-unless_empty : (t : Text) → text_of (unless_empty t) ≡ t
text_of-unless_empty [] = refl
text_of-unless_empty (c ∷ cs) = refl

calls_of-item : (calls : List ToolCall) → calls_of assistant (calls_item assistant calls) ≡ calls
calls_of-item [] = refl
calls_of-item (c ∷ cs) = refl

read_back :
    (r : MessageRole) (content timestamp : Text) (calls : List ToolCall) (id name : Text)
    → IsPlain (built r content timestamp calls id name)
    → back r content timestamp calls id name ≡ built r content timestamp calls id name
unfolding read_message text_eq
read_back user c t calls id name p = ground arith
read_back assistant c t calls id name p = ground (arith, calls_of-item calls)
read_back tool c t calls id name p =
    ground (arith, text_of-unless_empty id, text_of-unless_empty name)

-- A message that was printed and read is itself, if its line fits.
pub load_line-serialize :
    (line_bytes : Line → ℕ) (s : Session) (loaded : Bool) (m : Message) (now : ℕ)
    → IsPlain m
    → load_line line_bytes (s, loaded) (serialize_message_to_fp m) now ≡ (
      if fits line_bytes (serialize_message_to_fp m) then session_add_message s m now else s,
      loaded,
    )
unfolding load_line serialize_message_to_fp
load_line-serialize line_bytes s loaded m now p =
    ap
      (λ x. (
        if fits line_bytes (serialize_message_to_fp m) then session_add_message s x now else s,
        loaded,
      ))
      (read_back m.role m.content m.timestamp m.tool_calls m.tool_call_id m.name p)

abbrev with_metadata : Session → MetadataLine → Session
with_metadata s m = record s {
  last_consolidated = m.last_consolidated;
  created_at = m.created_at;
  updated_at = m.updated_at;
}

load_line-metadata :
    (line_bytes : Line → ℕ) (s : Session) (loaded : Bool) (m : MetadataLine) (now : ℕ)
    → load_line line_bytes (s, loaded) (metadata m) now ≡ (with_metadata s m, true)
unfolding load_line
load_line-metadata line_bytes s loaded m now = refl

messages-add :
    (s : Session) (m : Message) (now : ℕ)
    → (session_add_message s m now).messages ≡ s.messages ++ m ∷ []
unfolding session_add_message
messages-add s m now = refl

-- The messages whose lines fit the buffer of the load.
abbrev pub short_ones : (Line → ℕ) → List Message → List Message
short_ones line_bytes [] = []
short_ones line_bytes (m ∷ ms) =
    if ltb (line_bytes (serialize_message_to_fp m)) 4096
    then m ∷ short_ones line_bytes ms
    else short_ones line_bytes ms

-- One message more, or none, before the rest.
one_more :
    (line_bytes : Line → ℕ) (b : Bool) (s : Session) (loaded : Bool) (ls : List Line) (m : Message)
    (rest : List Message) (now : ℕ)
    → ((s' : Session)
        → (load_lines line_bytes (s', loaded) ls now).0.messages ≡ s'.messages ++ rest)
    → let st =
        load_lines line_bytes (if b then session_add_message s m now else s, loaded) ls now in
      st.0.messages ≡ s.messages ++ (if b then m ∷ rest else rest)
one_more line_bytes true s loaded ls m rest now ih =
    ih (session_add_message s m now)
    ∙ ap (λ l. l ++ rest) (messages-add s m now)
    ∙ append_assoc s.messages (m ∷ []) rest
one_more line_bytes false s loaded ls m rest now ih = ih s

-- Lines whose messages are those of `ms` are read back as the ones among `ms` that fit, wherever
-- metadata stands.
pub load_lines_lem :
    (line_bytes : Line → ℕ) (s : Session) (loaded : Bool) (ls : List Line) (ms : List Message)
    (now : ℕ)
    → AllPlain ms
    → body ls ≡ transcript ms
    → (load_lines line_bytes (s, loaded) ls now).0.messages ≡ s.messages ++ short_ones line_bytes ms
unfolding load_lines
load_lines_lem line_bytes s loaded [] [] now p e = sym (append-nil s.messages)
load_lines_lem line_bytes s loaded [] (m ∷ ms) now p e = cc
load_lines_lem line_bytes s loaded (metadata d ∷ ls) ms now p e =
    let ih = load_lines_lem line_bytes (with_metadata s d) true ls ms now p e in
    ap (λ st. (load_lines line_bytes st ls now).0.messages)
      (load_line-metadata line_bytes s loaded d now)
    ∙ ih
load_lines_lem line_bytes s loaded (message l ∷ ls) [] now p e = cc
load_lines_lem line_bytes s loaded (message l ∷ ls) (m ∷ ms) now (p, ps) e =
    let same : message l ≡ serialize_message_to_fp m = cc in
    let rest : body ls ≡ transcript ms = cc in
    rw same (
      ap (λ st. (load_lines line_bytes st ls now).0.messages)
        (load_line-serialize line_bytes s loaded m now p)
      ∙ one_more line_bytes (fits line_bytes (serialize_message_to_fp m)) s loaded ls m
          (short_ones line_bytes ms) now
          (λ s'. load_lines_lem line_bytes s' loaded ls ms now ps rest))
