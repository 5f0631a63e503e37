-- ===== src/Varuint/RoundTrip.antt =====
-- `read_varuint` after `write_varuint`, src/dense_line_index.rs.
use Prim.Native.Nat.{bit_or}
use native.Mathlib.Nat.{div-add-mod}
use native.Mathlib.Numerals.{towards_suc}
use qzt.Base.{ℕ, zero, suc, ◌+◌, ◌*◌, ◌/◌, ◌%◌, ◌^◌, ◌≤◌, ◌<◌, ◌≡◌, refl, ap, ◌⊎◌, inl, inr, ◌∙◌}
use qzt.Base.{List, [], ◌∷◌, ◌++◌, arith, ltb, IsU64}
use qzt.Base.{Bool-cases}
use qzt.Base.Bits.{bit_or_field, low_seven, top_bit}
use qzt.Error.{ok}
use qzt.Varuint.{write_varuint, read_varuint_loop, read_varuint}
use qzt.Varuint.Encoding.{encoding, write_varuint-encoding}

pub shift_seven : (s : ℕ) → 2 ^ (s + 7) ≡ 128 * 2 ^ s
shift_seven s = simp towards_suc (omega arith)

-- One group of seven bits joins the value.
pub join_group :
    (value x shift : ℕ)
    → value < 2 ^ shift
    → value + x * 2 ^ shift < 2 ^ 64
    → bit_or value (x * 2 ^ shift % 2 ^ 64) ≡ value + x * 2 ^ shift
join_group value x shift h fits =
    let small : x * 2 ^ shift % 2 ^ 64 ≡ x * 2 ^ shift = omega arith in
    rw small (bit_or_field shift value x h)

-- At shift 63 only one bit is left.
top_group : (value w shift : ℕ) → shift ≡ 63 → value + w * 2 ^ shift < 2 ^ 64 → w < 2
top_group value w shift e fits = omega (arith, (rw e at fits))

-- The lowest group of `w`, and the others seven bits further up.
pub split_group : (w shift : ℕ) → w / 128 * 2 ^ (shift + 7) + w % 128 * 2 ^ shift ≡ w * 2 ^ shift
split_group w shift =
    let whole = ap (λ (t : ℕ). t * 2 ^ shift) (div-add-mod w 128) in
    let higher = ap (λ (t : ℕ). w / 128 * t) (shift_seven shift) in omega arith

pub next_small : (value g s : ℕ) → value < 2 ^ s → g < 128 → value + g * 2 ^ s < 2 ^ (s + 7)
next_small value g s h hg = let e = shift_seven s in grind arith

module _ (value shift len : ℕ) (rest : List ℕ) (small : value < 2 ^ shift)
    (narrow : shift ≤ 63) where
  last_byte :
      (w : ℕ)
      → w < 128
      → value + w * 2 ^ shift < 2 ^ 64
      → (len ≡ 0) ⊎ (0 < w)
      → read_varuint_loop (w ∷ rest) value shift len ≡ ok (value + w * 2 ^ shift, rest)
  unfolding read_varuint_loop
  last_byte w hw fits canonical =
      ground (
        arith,
        low_seven w,
        top_bit w,
        join_group value w shift small fits,
        top_group value w shift,
      )

  inner_byte :
      (g : ℕ)
      → g < 128
      → shift + 7 ≤ 63
      → value + g * 2 ^ shift < 2 ^ 64
      → read_varuint_loop ((g + 128) ∷ rest) value shift len
        ≡ read_varuint_loop rest (value + g * 2 ^ shift) (shift + 7) (len + 1)
  unfolding read_varuint_loop
  inner_byte g hg hs fits =
      ground (arith, low_seven (g + 128), top_bit (g + 128), join_group value g shift small fits)

-- `w` is what is still to be read, and counts from bit `shift` on.
read_varuint_loop-encoding :
    (k w value shift len : ℕ) (rest : List ℕ)
    → w < 128 ^ suc k
    → shift + 7 * k ≡ 63
    → value < 2 ^ shift
    → value + w * 2 ^ shift < 2 ^ 64
    → (len ≡ 0) ⊎ (0 < w)
    → read_varuint_loop (encoding k w ++ rest) value shift len ≡ ok (value + w * 2 ^ shift, rest)
unfolding encoding
read_varuint_loop-encoding zero w value shift len rest hw hs small fits canonical =
    last_byte value shift len rest small (omega arith) w (omega arith) fits canonical
read_varuint_loop-encoding (suc k) w value shift len rest hw hs small fits canonical =
    elim (Bool-cases (ltb w 128)) [
      | inl one ↦
          rw one
            (last_byte value shift len rest small (omega arith) w (ground arith) fits canonical)
      | inr more ↦ rw more (
          inner_byte value shift len (encoding k (w / 128) ++ rest) small (omega arith) (w % 128)
            (omega arith) (omega arith) (omega (arith, split_group w shift))
          ∙ (read_varuint_loop-encoding k (w / 128) (value + w % 128 * 2 ^ shift) (shift + 7)
                (len + 1) rest (omega arith) (omega arith)
                (next_small value (w % 128) shift small (omega arith))
                (omega (arith, split_group w shift)) (inr (ground arith))
              ∙ ap (λ (t : ℕ). ok (t, rest)) (omega (arith, split_group w shift))))
    ]

-- `read_varuint` reads back a u64 that `write_varuint` wrote, and leaves what follows it.
pub read_varuint-write_varuint :
    (v : ℕ) (rest : List ℕ) → IsU64 v → read_varuint (write_varuint v [] ++ rest) ≡ ok (v, rest)
unfolding read_varuint
read_varuint-write_varuint v rest h = rw (write_varuint-encoding v [] h) (
    read_varuint_loop-encoding 9 v 0 0 0 rest (omega arith) (omega arith) (omega arith)
      (omega arith) (inl refl)
    ∙ ap (λ (t : ℕ). ok (t, rest)) (omega arith))
