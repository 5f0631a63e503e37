-- ===== src/Varuint.antt =====
-- src/dense_line_index.rs: the variable-length integers of the dense line index, seven bits a byte,
-- the lowest group first.
pub mod Encoding
pub mod RoundTrip
pub mod Canonical
mod Runs
use Prim.Native.Nat.{bit_and, bit_or}
use mathlib.Core.Logic.{dite}
use mathlib.Core.WellFounded.{Acc}
use native.Mathlib.Decide.{dec_le}
use qzt.Base.{ℕ, ◌+◌, ◌*◌, ◌/◌, ◌%◌, ◌^◌, ◌≤◌, ◌<◌, List, [], ◌∷◌, ◌++◌, ◌&&◌}
use qzt.Base.{ltb, leb, ◌==◌, if◌then◌else◌, arith, lt_wf}
use qzt.Error.{Result, ok, err, chunk_table_invalid, unexpected_eof}

-- `value >>= 7` is a division by 128.
unfoldable pub shift_shrinks : (v : ℕ) → 0x80 ≤ v → v / 128 < v
shift_shrinks v h = omega arith

-- `while value >= 0x80 { output.push((value as u8 & 0x7f) | 0x80); value >>= 7 }`, and the last byte.
unfoldable pub write_varuint_loop : (value : ℕ) → Acc ◌<◌ value → List ℕ → List ℕ
write_varuint_loop value (Acc.intro _ smaller) output =
    dite (dec_le 0x80 value)
      (λ more.
        write_varuint_loop (value / 128) (smaller _ (shift_shrinks value more))
          (output ++ (bit_or (bit_and (value % 256) 0x7f) 0x80 ∷ [])))
      (λ _. output ++ ((value % 256) ∷ []))

unfoldable pub write_varuint : ℕ → List ℕ → List ℕ
unfolding write_varuint_loop lt_wf dec_le
write_varuint value output = write_varuint_loop value (lt_wf.apply value) output

unfoldable pub varuint_len_loop : (value : ℕ) → Acc ◌<◌ value → ℕ → ℕ
varuint_len_loop value (Acc.intro _ smaller) size =
    dite (dec_le 0x80 value)
      (λ more. varuint_len_loop (value / 128) (smaller _ (shift_shrinks value more)) (size + 1))
      (λ _. size)

unfoldable pub varuint_len : ℕ → ℕ
unfolding varuint_len_loop lt_wf dec_le
varuint_len value = varuint_len_loop value (lt_wf.apply value) 1

-- The loop of `read_varuint`. The list is `bytes[*cursor..]`, and the list that is returned is what
-- the new cursor has not reached. `checked_shl` answers `None` from 64 on and drops high bits.
unfoldable pub read_varuint_loop : List ℕ → ℕ → ℕ → ℕ → Result (ℕ × List ℕ)
read_varuint_loop [] value shift len = err unexpected_eof
read_varuint_loop (byte ∷ rest) value shift len =
    let value' = bit_or value (bit_and byte 0x7f * 2 ^ shift % 2 ^ 64) in
    let more = read_varuint_loop rest value' (shift + 7) (len + 1) in
    if shift == 63 && ltb 1 (bit_and byte 0x7f)
    then err chunk_table_invalid
    else if leb 64 shift
    then err chunk_table_invalid
    else if bit_and byte 0x80 == 0
    then (if ltb 1 (len + 1) && byte == 0 then err chunk_table_invalid else ok (value', rest))
    else if ltb 63 (shift + 7)
    then err chunk_table_invalid
    else more

unfoldable pub read_varuint : List ℕ → Result (ℕ × List ℕ)
unfolding read_varuint_loop
read_varuint bytes = read_varuint_loop bytes 0 0 0
