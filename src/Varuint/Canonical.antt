-- ===== src/Varuint/Canonical.antt =====
-- What `read_varuint` of src/dense_line_index.rs accepts.
use native.Mathlib.Nat.{pow-le-pow_right, pow-suc, one-le-pow}
use native.Mathlib.Decide.{dec_lt}
use qzt.Base.{ℕ, zero, suc, ◌+◌, ◌-◌, ◌*◌, ◌/◌, ◌%◌, ◌^◌, ◌≤◌, ◌<◌, ◌≡◌, refl, ap, ◌⊎◌, inr}
use qzt.Base.{List, [], ◌∷◌, ◌++◌, arith, All, IsByte, IsU64}
use qzt.Base.Bits.{low_seven, top_bit}
use qzt.Error.{ok}
use qzt.Varuint.{write_varuint, read_varuint_loop, read_varuint}
use qzt.Varuint.Encoding.{encoding, write_varuint-encoding}
use qzt.Varuint.RoundTrip.{shift_seven, next_small, join_group}

-- What `read_varuint_loop` accepts from bit `shift` on: the groups of one number.
abbrev Reads : List ℕ → ℕ → ℕ → ℕ → ℕ → List ℕ → ℕ → Type 0
Reads bytes value shift len v rest k =
    (w : ℕ) × (w < 128 ^ suc k)
    × (v ≡ value + w * 2 ^ shift)
    × (v < 2 ^ 64)
    × ((len ≡ 0) ⊎ (0 < w))
    × (bytes ≡ encoding k w ++ rest)

mul_bound : (g p : ℕ) → g < 128 → g * p ≤ 127 * p
mul_bound g p h = grind arith

-- A group that passes the test at shift 63 fits into 64 bits.
group_fits :
    (k value g shift : ℕ)
    → shift + 7 * k ≡ 63
    → value < 2 ^ shift
    → g < 128
    → (shift ≡ 63 → g < 2)
    → value + g * 2 ^ shift < 2 ^ 64
group_fits zero value g shift hs small hg top =
    let e : shift ≡ 63 = omega arith in
    let two : g < 2 = top e in
    let power : 2 ^ shift ≡ 2 ^ 63 = ap (λ (t : ℕ). 2 ^ t) e in grind arith
group_fits (suc k) value g shift hs small hg top =
    let power : 2 ^ shift ≤ 2 ^ 56 =
      pow-le-pow_right {n = 2} (omega arith) {i = shift} {j = 56} (omega arith) in
    omega (arith, mul_bound g (2 ^ shift) hg)

last_byte_inv :
    (k b : ℕ) (bytes : List ℕ) (value shift len v : ℕ) (rest : List ℕ)
    → b < 128
    → value < 2 ^ shift
    → shift + 7 * k ≡ 63
    → read_varuint_loop (b ∷ bytes) value shift len ≡ ok (v, rest)
    → (v ≡ value + b * 2 ^ shift) × (v < 2 ^ 64) × ((len ≡ 0) ⊎ (0 < b)) × (bytes ≡ rest)
unfolding read_varuint_loop
last_byte_inv k b bytes value shift len v rest hb small hs e =
    ground
      (arith, low_seven b, top_bit b, join_group value b shift small, group_fits k value b shift)

inner_byte_inv :
    (k b : ℕ) (bytes : List ℕ) (value shift len v : ℕ) (rest : List ℕ)
    → 128 ≤ b
    → b < 256
    → value < 2 ^ shift
    → shift + 7 * k ≡ 63
    → read_varuint_loop (b ∷ bytes) value shift len ≡ ok (v, rest)
    → (0 < k)
      × (read_varuint_loop bytes (value + b % 128 * 2 ^ shift) (shift + 7) (len + 1) ≡ ok (v, rest))
unfolding read_varuint_loop
inner_byte_inv k b bytes value shift len v rest hb hb' small hs e = ground (
  arith,
  low_seven b,
  top_bit b,
  join_group value (b % 128) shift small,
  group_fits k value (b % 128) shift,
)

single-encoding : (k b : ℕ) → b < 128 → encoding k b ≡ b ∷ []
unfolding encoding
single-encoding zero b h = refl
single-encoding (suc k) b h = ground arith

more-encoding :
    (k b w : ℕ)
    → 128 ≤ b
    → b < 256
    → 0 < w
    → encoding (suc k) (b % 128 + w * 128) ≡ b ∷ encoding k w
unfolding encoding
more-encoding k b w hb hb' hw =
    let low : (b % 128 + w * 128) % 128 + 128 ≡ b = omega arith in
    let high : (b % 128 + w * 128) / 128 ≡ w = omega arith in ground arith

one_byte :
    (k b : ℕ) (bytes : List ℕ) (value shift len v : ℕ) (rest : List ℕ)
    → b < 128
    → value < 2 ^ shift
    → shift + 7 * k ≡ 63
    → read_varuint_loop (b ∷ bytes) value shift len ≡ ok (v, rest)
    → Reads (b ∷ bytes) value shift len v rest k
one_byte k b bytes value shift len v rest low small hs e =
    let (ev, fits, canonical, er) = last_byte_inv k b bytes value shift len v rest low small hs e in
    let power : 1 ≤ 128 ^ k = one-le-pow k 128 (omega arith) in
    (b, omega (arith, pow-suc 128 k), ev, fits, canonical, rw (single-encoding k b low, er))

more_bytes :
    (k b : ℕ) (bytes : List ℕ) (value shift len v : ℕ) (rest : List ℕ)
    → 128 ≤ b
    → b < 256
    → Reads bytes (value + b % 128 * 2 ^ shift) (shift + 7) (len + 1) v rest k
    → Reads (b ∷ bytes) value shift len v rest (suc k)
more_bytes k b bytes value shift len v rest hb hb' (w, hw, ev, fits, canonical, eb) =
    let pos : 0 < w = omega arith in
    (
      b % 128 + w * 128,
      omega (arith, pow-suc 128 (suc k)),
      omega (arith, ev, ap (λ (t : ℕ). w * t) (shift_seven shift)),
      fits,
      inr (omega arith),
      rw (more-encoding k b w hb hb' pos, eb),
    )

read_varuint_loop-Reads :
    (bytes : List ℕ) (k value shift len v : ℕ) (rest : List ℕ)
    → All IsByte bytes
    → value < 2 ^ shift
    → shift + 7 * k ≡ 63
    → read_varuint_loop bytes value shift len ≡ ok (v, rest)
    → Reads bytes value shift len v rest k
read_varuint_loop-Reads [] k value shift len v rest bs small hs e = unfold read_varuint_loop in cc
read_varuint_loop-Reads (b ∷ bytes) k value shift len v rest (hb, bs) small hs e =
    elim (dec_lt b 128) [
      | yes low ↦ one_byte k b bytes value shift len v rest low small hs e
      | no high ↦
          let (hk, e') =
            inner_byte_inv k b bytes value shift len v rest (omega arith) hb small hs e in
          let k' = k - 1 in
          let ek : k ≡ suc k' = omega arith in
          rw ek (
            more_bytes k' b bytes value shift len v rest (omega arith) hb (
              read_varuint_loop-Reads bytes k' (value + b % 128 * 2 ^ shift) (shift + 7) (len + 1) v
                rest bs (next_small value (b % 128) shift small (omega arith)) (omega arith) e'))
    ]

-- `read_varuint` accepts only the bytes that `write_varuint` writes for the value it returns, and
-- that value is a u64: no padded form and no form over 64 bits is read.
pub read_varuint_canonical :
    (bytes : List ℕ) (v : ℕ) (rest : List ℕ)
    → All IsByte bytes
    → read_varuint bytes ≡ ok (v, rest)
    → IsU64 v × (bytes ≡ write_varuint v [] ++ rest)
unfolding read_varuint
read_varuint_canonical bytes v rest bs e =
    let (w, hw, ev, fits, canonical, eb) =
      read_varuint_loop-Reads bytes 9 0 0 0 v rest bs (omega arith) (omega arith) e in
    let same : v ≡ w = omega arith in (fits, rw (write_varuint-encoding v [] fits, same) eb)
