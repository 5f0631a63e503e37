-- ===== src/Base/Utf8.antt =====
-- `std::str::from_utf8`: the well-formed byte sequences of the Unicode standard, table 3-7, as an
-- automaton that knows how many continuation bytes are due and the range of the next one.
use Prim.Native.Nat.{ℕ, zero, suc}
use mathlib.Core.Bool.{Bool, true, false, ◌&&◌}
use mathlib.Core.List.{List, [], ◌∷◌}
use mathlib.Core.Option.{Option, none, some}
use qzt.Base.Tests.{ltb, leb, ◌==◌, if◌then◌else◌}

-- Continuation bytes that are due, and the bounds of the next one.
pub record Due : Type 0 where
  pub count : ℕ
  pub low : ℕ
  pub high : ℕ

abbrev pub due : ℕ → ℕ → ℕ → Option Due
due n lo hi = some (record { count = n; low = lo; high = hi })

-- What a first byte asks for.
unfoldable pub lead : ℕ → Option Due
lead b =
    if ltb b 0x80
    then due 0 0x80 0xbf
    else if ltb b 0xc2
    then none
    else if ltb b 0xe0
    then due 1 0x80 0xbf
    else if b == 0xe0
    then due 2 0xa0 0xbf
    else if b == 0xed
    then due 2 0x80 0x9f
    else if ltb b 0xf0
    then due 2 0x80 0xbf
    else if b == 0xf0
    then due 3 0x90 0xbf
    else if ltb b 0xf4
    then due 3 0x80 0xbf
    else if b == 0xf4
    then due 3 0x80 0x8f
    else none

unfoldable pub utf8_from : ℕ → ℕ → ℕ → List ℕ → Bool
utf8_from zero low high [] = true
utf8_from zero low high (b ∷ bytes) = elim (lead b) [
  | none ↦ false
  | some d ↦ utf8_from d.count d.low d.high bytes
]
utf8_from (suc n) low high [] = false
utf8_from (suc n) low high (b ∷ bytes) = (leb low b && leb b high) && utf8_from n 0x80 0xbf bytes

unfoldable pub is_utf8 : List ℕ → Bool
unfolding utf8_from lead
is_utf8 bytes = utf8_from 0 0x80 0xbf bytes
