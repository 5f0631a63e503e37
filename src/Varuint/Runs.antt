-- ===== src/Varuint/Runs.antt =====
-- Runs of the variable-length integers at concrete values.
use qzt.Base.{ℕ, ◌≤◌, ◌≡◌, refl, List, [], ◌∷◌, ◌++◌, arith, length, All, IsByte, IsU64}
use qzt.Error.{ok, err, chunk_table_invalid}
use qzt.Varuint.{write_varuint, varuint_len, read_varuint}
use qzt.Varuint.Encoding.{write_varuint_shape}
use qzt.Varuint.RoundTrip.{read_varuint-write_varuint}
use qzt.Varuint.Canonical.{read_varuint_canonical}

-- 300 and a byte behind it.
abbrev three_hundred : List ℕ
three_hundred = 0xac ∷ 0x02 ∷ 0x07 ∷ []

-- 5, padded to two bytes.
abbrev padded_five : List ℕ
padded_five = 0x85 ∷ 0x00 ∷ []

read_three_hundred : read_varuint three_hundred ≡ ok (300, 7 ∷ [])
unfolding read_varuint
read_three_hundred = refl

read_padded_five : read_varuint padded_five ≡ err chunk_table_invalid
unfolding read_varuint
read_padded_five = refl

three_hundred_bytes : All IsByte three_hundred
three_hundred_bytes = (omega arith, (omega arith, (omega arith, tt)))

write_varuint_shape_example :
    (write_varuint 300 (7 ∷ []) ≡ (7 ∷ []) ++ write_varuint 300 [])
    × All IsByte (write_varuint 300 [])
    × (length (write_varuint 300 []) ≡ varuint_len 300)
    × (1 ≤ varuint_len 300)
    × (varuint_len 300 ≤ 10)
write_varuint_shape_example = write_varuint_shape 300 (7 ∷ []) (omega arith)

read_varuint-write_varuint_example :
    read_varuint (write_varuint 300 [] ++ (7 ∷ [])) ≡ ok (300, 7 ∷ [])
read_varuint-write_varuint_example = read_varuint-write_varuint 300 (7 ∷ []) (omega arith)

read_varuint_canonical_example : IsU64 300 × (three_hundred ≡ write_varuint 300 [] ++ (7 ∷ []))
read_varuint_canonical_example =
    read_varuint_canonical three_hundred 300 (7 ∷ []) three_hundred_bytes read_three_hundred
