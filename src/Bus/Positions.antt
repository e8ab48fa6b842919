-- ===== src/Bus/Positions.antt =====
-- The occupied slots of the ring of src/bus/message_bus.c, from `front` up to `rear`.
use native.Mathlib.Decide.{dec_lt}
use native.Mathlib.Nat.{mod-eq_of_lt, mod_self}
use primagen.Base.{
  ℕ, zero, suc, ◌+◌, ◌-◌, ◌^◌, ◌≤◌, ◌<◌, ◌≡◌, refl, ap, List, [], ◌∷◌, ◌++◌, Option, none, arith,
  ltb, leb, if◌then◌else◌, get_or, set, length, get_or-set_ne, get_or-set_self,
}
use primagen.Bus.Queue.{advance}

-- The step of an index without a remainder.
pub advance_lem :
    (size i : ℕ)
    → i < size
    → size ≤ 2 ^ 60
    → advance size i ≡ (if ltb (i + 1) size then i + 1 else 0)
unfolding advance
advance_lem size i h k = elim (dec_lt (i + 1) size) [
  | yes p ↦ ground (arith, mod-eq_of_lt p)
  | no p ↦ let e : size ≡ i + 1 = omega arith in rw e (ground (arith, mod_self (i + 1)))
]

-- The steps from one index to another.
abbrev pub dist : ℕ → ℕ → ℕ → ℕ
dist size i r = if leb i r then r - i else r + size - i

module _ {M : Type 0} where
  abbrev pub slots : List (Option M) → ℕ → ℕ → ℕ → List (Option M)
  slots items size i zero = []
  slots items size i (suc n) = get_or items i none ∷ slots items size (advance size i) n

  -- A write at `r` is not seen by the slots before it.
  pub slots-set :
      (items : List (Option M)) (size i r n : ℕ) (v : Option M)
      → i < size
      → r < size
      → size ≤ 2 ^ 60
      → n ≤ dist size i r
      → slots (set items r v) size i n ≡ slots items size i n
  slots-set items size i r zero v hi hr hc h = refl
  slots-set items size i r (suc n) v hi hr hc h = ground (
    arith,
    advance_lem size i,
    get_or-set_ne items r i v none,
    slots-set items size (advance size i) r n v,
  )

  -- The slots up to `r` and that at `r`.
  pub slots-snoc :
      (items : List (Option M)) (size i r n : ℕ)
      → i < size
      → r < size
      → size ≤ 2 ^ 60
      → n ≡ dist size i r
      → slots items size i (suc n) ≡ slots items size i n ++ get_or items r none ∷ []
  slots-snoc items size i r zero hi hr hc h = ground arith
  slots-snoc items size i r (suc n) hi hr hc h = ap (◌∷◌ (get_or items i none)) (
      slots-snoc items size (advance size i) r n (ground (arith, advance_lem size i)) hr hc
        (ground (arith, advance_lem size i)))

  -- The slots after a write at the end.
  pub slots-set_end :
      (items : List (Option M)) (size i r : ℕ) (v : Option M)
      → i < size
      → r < size
      → size ≤ 2 ^ 60
      → r < length items
      → slots (set items r v) size i (suc (dist size i r))
        ≡ slots items size i (dist size i r) ++ v ∷ []
  slots-set_end items size i r v hi hr hc hl = ground (
    arith,
    slots-snoc (set items r v) size i r (dist size i r) hi hr hc refl,
    slots-set items size i r (dist size i r) v hi hr hc,
    get_or-set_self items r v none hl,
  )
