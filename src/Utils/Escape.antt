-- ===== src/Utils/Escape.antt =====
-- `escape_xml` of src/common/utils.c: the two passes agree, and nothing is left to escape.
use primagen.Base.{
  ℕ, ◌≡◌, ◌≢◌, refl, ◌||◌, [], ◌∷◌, ◌++◌, arith, ◌==◌, if◌then◌else◌, if_elim, length,
  length-append, Text,
}
use primagen.Utils.{escape_byte, escaped_length, escape_xml}

length-escape_byte :
    (c : ℕ)
    → length (escape_byte c) ≡ (
        if c == b'&'
        then 5
        else if c == b'<' || c == b'>'
        then 4
        else if c == 34 || c == 39
        then 6
        else 1)
length-escape_byte c = ground arith

-- The text that the second pass of `escape_xml` writes has exactly the length that the first pass
-- counted for its buffer.
pub length-escape_xml : (s : Text) → length (escape_xml s) ≡ escaped_length s
unfolding escape_xml escaped_length
length-escape_xml [] = refl
length-escape_xml (c ∷ cs) = omega (
  arith,
  length-append (escape_byte c) (escape_xml cs),
  length-escape_byte c,
  length-escape_xml cs,
)

-- No byte is one that XML reads as markup or as the end of a value.
abbrev pub IsInert : Text → Type 0
IsInert [] = Unit
IsInert (c ∷ cs) = ((c ≢ b'<') × (c ≢ b'>') × (c ≢ 34) × (c ≢ 39)) × IsInert cs

IsInert-append : (s t : Text) → IsInert s → IsInert t → IsInert (s ++ t)
IsInert-append [] t p q = q
IsInert-append (c ∷ s) t (h, p) q = (h, IsInert-append s t p q)

byte-IsInert : (c : ℕ) → IsInert (escape_byte c)
byte-IsInert c =
    if_elim IsInert (c == b'&') _ _ (λ _. ground arith)
      (λ _.
        if_elim IsInert (c == b'<') _ _ (λ _. ground arith)
          (λ p.
            if_elim IsInert (c == b'>') _ _ (λ _. ground arith)
              (λ q.
                if_elim IsInert (c == 34) _ _ (λ _. ground arith)
                  (λ r.
                    if_elim IsInert (c == 39) _ _ (λ _. ground arith)
                      (λ s. ((ground arith, ground arith, ground arith, ground arith), tt))))))

-- The escaped text has no angle bracket and no quotation mark left, whatever bytes it came from.
pub escape_xml-IsInert : (s : Text) → IsInert (escape_xml s)
unfolding escape_xml
escape_xml-IsInert [] = tt
escape_xml-IsInert (c ∷ cs) =
    IsInert-append (escape_byte c) (escape_xml cs) (byte-IsInert c) (escape_xml-IsInert cs)
