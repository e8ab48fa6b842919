-- ===== src/Utils.antt =====
-- src/common/utils.c: the helpers on texts that the agent uses. `isspace` and the like are those of
-- the C locale; a NULL text is `none`.
pub mod Escape
pub mod Examples
use primagen.Base.{
  ℕ, zero, suc, ◌+◌, ◌-◌, ◌*◌, ◌/◌, Bool, true, false, ◌&&◌, ◌||◌, List, [], ◌∷◌, ◌++◌, Option,
  none, some, ◌==◌, leb, ltb, if◌then◌else◌, length, take, drop, Text, codes, text_eq,
}

abbrev pub is_space : ℕ → Bool
is_space c = c == 32 || leb 9 c && leb c 13

unfoldable pub str_trim_left : Text → Text
str_trim_left [] = []
str_trim_left (c ∷ cs) = if is_space c then str_trim_left cs else c ∷ cs

-- The loop that lowers the length past trailing white space.
unfoldable pub trim_right : Text → Text
trim_right [] = []
trim_right (c ∷ cs) = elim (trim_right cs) [
  | [] ↦ if is_space c then [] else c ∷ []
  | d ∷ ds ↦ c ∷ d ∷ ds
]

unfoldable pub str_trim_copy : Text → Text
unfolding str_trim_left trim_right
str_trim_copy s = trim_right (str_trim_left s)

-- Whether a text begins with another.
unfoldable pub has_prefix : Text → Text → Bool
has_prefix [] s = true
has_prefix (p ∷ ps) [] = false
has_prefix (p ∷ ps) (c ∷ cs) = (p == c) && has_prefix ps cs

-- `strstr`: the first position at which `needle` stands.
unfoldable pub index_of : Text → Text → Option ℕ
index_of needle [] = if has_prefix needle [] then some 0 else none
index_of needle (c ∷ cs) =
    let rest = index_of needle cs in
    if has_prefix needle (c ∷ cs) then some 0 else elim rest [ none ↦ none | some n ↦ some (suc n) ]

abbrev pub think_open : Text
think_open = codes "<think>"

abbrev pub think_close : Text
think_close = codes "</think>"

-- The text without what stands from the first opening to the first closing tag.
unfoldable pub without_think : Text → ℕ → ℕ → Text
without_think text start end = str_trim_copy (take start text ++ drop (end + 8) text)

unfoldable pub strip_think_tags : Text → Option Text
unfolding index_of without_think
strip_think_tags [] = none
strip_think_tags (c ∷ cs) = elim (index_of think_open (c ∷ cs)) [
  | none ↦ some (c ∷ cs)
  | some start ↦ elim (index_of think_close (c ∷ cs)) [
    | none ↦ some (c ∷ cs)
    | some end ↦ if ltb end start then some (c ∷ cs) else some (without_think (c ∷ cs) start end)
  ]
]

-- One byte escaped for XML.
abbrev pub escape_byte : ℕ → Text
escape_byte c =
    if c == b'&'
    then codes "&amp;"
    else if c == b'<'
    then codes "&lt;"
    else if c == b'>'
    then codes "&gt;"
    else if c == 34
    then codes "&quot;"
    else if c == 39
    then codes "&apos;"
    else c ∷ []

-- The length that the first loop of `escape_xml` counts.
unfoldable pub escaped_length : Text → ℕ
escaped_length [] = 0
escaped_length (c ∷ cs) =
    (if c == b'&'
      then 5
      else if c == b'<' || c == b'>'
      then 4
      else if c == 34 || c == 39
      then 6
      else 1)
    + escaped_length cs

-- What the second loop writes into the buffer of that length.
unfoldable pub escape_xml : Text → Text
escape_xml [] = []
escape_xml (c ∷ cs) = escape_byte c ++ escape_xml cs

unfoldable pub count_ascii : Text → ℕ
count_ascii [] = 0
count_ascii (c ∷ cs) = (if ltb c 0x80 then 1 else 0) + count_ascii cs

-- Four bytes of ASCII to a token, two of anything else.
unfoldable pub estimate_tokens : Text → ℕ
unfolding count_ascii
estimate_tokens text =
    let ascii_bytes = count_ascii text in ascii_bytes / 4 + (length text - ascii_bytes) / 2

unfoldable pub is_placeholder_value : Text → Bool
unfolding has_prefix
is_placeholder_value [] = true
is_placeholder_value (c ∷ cs) =
    let s = c ∷ cs in
    text_eq s (codes "current")
    || text_eq s (codes "chat")
    || text_eq s (codes "user")
    || text_eq s (codes "assistant")
    || has_prefix (codes "_user_") s
    || has_prefix (codes "_assistant_") s
