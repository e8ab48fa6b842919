-- ===== src/Libc.antt =====
-- The conversions of the C library that the sources use on texts: strtol and atoi in base ten, for
-- a `long` of 64 and an `int` of 32 bits as on the platforms the program builds for, strchr,
-- strtok_r, the %s of sscanf and the %d of snprintf.
use primagen.Base.{
  ℕ, zero, suc, ◌+◌, ◌-◌, ◌*◌, ◌/◌, ◌%◌, ◌++◌, ◌^◌, Bool, true, false, ◌&&◌, List, [], ◌∷◌, Option,
  none, some, ◌==◌, leb, ltb, if◌then◌else◌, Text, ℤ, pos, negsuc,
}
use primagen.Utils.{is_space, str_trim_left}

abbrev pub is_digit : ℕ → Bool
is_digit c = leb 48 c && leb c 57

-- The number at the front of a text behind those digits, and what follows it; none without a digit.
abbrev pub digits_from : ℕ → Text → ℕ × Text
digits_from n [] = (n, [])
digits_from n (c ∷ cs) = elim (is_digit c) [
  | true ↦ digits_from (n * 10 + (c - 48)) cs
  | false ↦ (n, c ∷ cs)
]

abbrev pub digits : Text → Option (ℕ × Text)
digits [] = none
digits (c ∷ cs) = elim (is_digit c) [ true ↦ some (digits_from 0 (c ∷ cs)) | false ↦ none ]

abbrev pub negated : ℕ → ℤ
negated zero = pos 0
negated (suc n) = negsuc n

-- Sign and digits, without a bound.
abbrev pub signed_digits : Text → Option (ℤ × Text)
signed_digits [] = none
signed_digits (c ∷ cs) =
    if c == b'-'
    then elim (digits cs) [ none ↦ none | some r ↦ some (negated r.0, r.1) ]
    else elim (digits (if c == b'+' then cs else c ∷ cs)) [
      | none ↦ none
      | some r ↦ some (pos r.0, r.1)
    ]

-- Out of range, `strtol` gives the nearest `long`.
abbrev pub to_long : ℤ → ℤ
to_long (pos n) = if ltb n (2 ^ 63) then pos n else pos (2 ^ 63 - 1)
to_long (negsuc n) = if ltb n (2 ^ 63) then negsuc n else negsuc (2 ^ 63 - 1)

-- `(int)` of a `long`, which wraps.
abbrev pub wrapped : ℕ → ℤ
wrapped r = if ltb r (2 ^ 31) then pos r else negsuc (2 ^ 32 - 1 - r)

abbrev pub to_int : ℤ → ℤ
to_int (pos n) = wrapped (n % 2 ^ 32)
to_int (negsuc n) = wrapped (2 ^ 32 - 1 - n % 2 ^ 32)

-- The number and what follows it, or 0 and the whole text.
unfoldable pub strtol : Text → ℤ × Text
unfolding str_trim_left
strtol s = elim (signed_digits (str_trim_left s)) [
  | none ↦ (pos 0, s)
  | some r ↦ (to_long r.0, r.1)
]

unfoldable pub atol : Text → ℤ
unfolding strtol
atol s = (strtol s).0

unfoldable pub atoi : Text → ℤ
unfolding strtol
atoi s = to_int (strtol s).0

-- `strchr`, what follows the first `c`.
abbrev pub after_first : ℕ → Text → Option Text
after_first c [] = none
after_first c (x ∷ xs) = if x == c then some xs else after_first c xs

-- The pieces of a text between delimiters, which `strtok_r` gives one by one; none is empty.
abbrev pub add_piece : Text → List Text → List Text
add_piece [] ts = ts
add_piece (c ∷ cs) ts = (c ∷ cs) ∷ ts

abbrev pub pieces : ℕ → Text → Text × List Text
pieces d [] = ([], [])
pieces d (c ∷ cs) =
    let (piece, rest) = pieces d cs in
    if c == d then ([], add_piece piece rest) else (c ∷ piece, rest)

unfoldable pub tokens : ℕ → Text → List Text
tokens d s = add_piece (pieces d s).0 (pieces d s).1

-- At most that many bytes up to white space, and what follows.
abbrev pub word : ℕ → Text → Text × Text
word zero s = ([], s)
word (suc n) [] = ([], [])
word (suc n) (c ∷ cs) =
    let (w, rest) = word n cs in if is_space c then ([], c ∷ cs) else (c ∷ w, rest)

-- As many `%7s` as are found, up to a number.
unfoldable pub scan_words : ℕ → Text → List Text
unfolding str_trim_left
scan_words zero s = []
scan_words (suc n) s =
    let (w, rest) = word 7 (str_trim_left s) in
    elim w [ [] ↦ [] | c ∷ cs ↦ (c ∷ cs) ∷ scan_words n rest ]

-- A `%d`.
unfoldable pub scan_int : Text → Option (ℤ × Text)
unfolding str_trim_left
scan_int s = elim (signed_digits (str_trim_left s)) [
  | none ↦ none
  | some r ↦ some (to_int (to_long r.0), r.1)
]

-- `%d`, of at most as many digits as the first argument.
abbrev pub decimal : ℕ → ℕ → Text
decimal zero n = []
decimal (suc fuel) n =
    let front = decimal fuel (n / 10) in
    if ltb n 10 then (n + 48) ∷ [] else front ++ (n % 10 + 48) ∷ []

-- An `int` has at most ten digits.
abbrev pub print_d : ℤ → Text
print_d (pos n) = decimal 10 n
print_d (negsuc n) = b'-' ∷ decimal 10 (n + 1)
