-- ===== src/Varuint/Encoding.antt =====
-- `write_varuint` and `varuint_len` of src/dense_line_index.rs in plain arithmetic.
use mathlib.Core.WellFounded.{Acc}
use qzt.Base.{ℕ, zero, suc, ◌+◌, ◌/◌, ◌%◌, ◌^◌, ◌≤◌, ◌<◌, ◌≡◌, refl, List, [], ◌∷◌, ◌++◌, arith}
use qzt.Base.{ltb, if◌then◌else◌, lt_wf, length, All, IsByte, IsU64, append_assoc}
use qzt.Base.Bits.{low_seven, set_top_bit}
use qzt.Varuint.{write_varuint_loop, write_varuint, varuint_len_loop, varuint_len}
use Prim.Native.Nat.{bit_and, bit_or}

-- The groups of seven bits of `v`, the lowest first, for `v` below 128 ^ (k + 1).
unfoldable pub encoding : ℕ → ℕ → List ℕ
encoding zero v = v ∷ []
encoding (suc k) v =
    let rest = encoding k (v / 128) in if ltb v 128 then v ∷ [] else (v % 128 + 128) ∷ rest

inner_group : (v : ℕ) → bit_or (bit_and (v % 256) 0x7f) 0x80 ≡ v % 128 + 128
inner_group v = ground (arith, low_seven (v % 256), set_top_bit (v % 256 % 128))

write_varuint_loop-encoding :
    (k v : ℕ) (w : Acc ◌<◌ v) (output : List ℕ)
    → v < 128 ^ suc k
    → write_varuint_loop v w output ≡ output ++ encoding k v
unfolding write_varuint_loop encoding
write_varuint_loop-encoding zero v (Acc.intro _ smaller) output h = ground arith
write_varuint_loop-encoding (suc k) v (Acc.intro _ smaller) output h =
    let head : List ℕ = (v % 128 + 128) ∷ [] in
    grind (
      arith,
      inner_group v,
      λ (w : Acc ◌<◌ (v / 128)).
          write_varuint_loop-encoding k (v / 128) w (output ++ head) (omega arith),
      append_assoc output head (encoding k (v / 128)),
    )

pub write_varuint-encoding :
    (v : ℕ) (output : List ℕ) → IsU64 v → write_varuint v output ≡ output ++ encoding 9 v
unfolding write_varuint
write_varuint-encoding v output h =
    write_varuint_loop-encoding 9 v (lt_wf.apply v) output (omega arith)

pub length-encoding_bounds :
    (k v : ℕ) → (1 ≤ length (encoding k v)) × (length (encoding k v) ≤ k + 1)
unfolding encoding
length-encoding_bounds zero v = omega arith
length-encoding_bounds (suc k) v = ground (arith, length-encoding_bounds k (v / 128))

encoding-IsByte : (k w : ℕ) → w < 128 ^ suc k → All IsByte (encoding k w)
unfolding encoding
encoding-IsByte (suc k) w h = let others = encoding-IsByte k (w / 128) (omega arith) in ground arith
encoding-IsByte zero w h = omega arith

varuint_len_loop-encoding :
    (k v : ℕ) (w : Acc ◌<◌ v) (size : ℕ)
    → v < 128 ^ suc k
    → varuint_len_loop v w size + 1 ≡ size + length (encoding k v)
unfolding varuint_len_loop encoding
varuint_len_loop-encoding zero v (Acc.intro _ smaller) size h = ground arith
varuint_len_loop-encoding (suc k) v (Acc.intro _ smaller) size h = grind (
  arith,
  λ (w : Acc ◌<◌ (v / 128)). varuint_len_loop-encoding k (v / 128) w (size + 1) (omega arith),
)

pub varuint_len-encoding : (v : ℕ) → IsU64 v → varuint_len v ≡ length (encoding 9 v)
unfolding varuint_len
varuint_len-encoding v h =
    omega (arith, varuint_len_loop-encoding 9 v (lt_wf.apply v) 1 (omega arith))

-- For every u64 and every output, `write_varuint` keeps the output and appends to it the bytes that it
-- writes to an empty one; these are 1 to 10 bytes, and `varuint_len` is their number.
pub write_varuint_shape :
    (v : ℕ) (output : List ℕ)
    → IsU64 v
    → (write_varuint v output ≡ output ++ write_varuint v [])
      × All IsByte (write_varuint v [])
      × (length (write_varuint v []) ≡ varuint_len v)
      × (1 ≤ varuint_len v)
      × (varuint_len v ≤ 10)
write_varuint_shape v output h =
    let (lo, hi) = length-encoding_bounds 9 v in
    rw (write_varuint-encoding v output h, write_varuint-encoding v [] h, varuint_len-encoding v h)
      (refl, encoding-IsByte 9 v (omega arith), refl, lo, hi)
