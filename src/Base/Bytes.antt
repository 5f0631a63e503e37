-- ===== src/Base/Bytes.antt =====
-- Bytes and fixed-width words: Rust's `to_le_bytes`, `from_le_bytes`, `to_be_bytes`,
-- `from_be_bytes`, `checked_add`, `checked_sub` and `checked_mul`, over the native numbers.
use Prim.Native.Nat.{ℕ, zero, suc, ◌+◌, ◌-◌, ◌*◌, ◌/◌, ◌%◌, ◌^◌, ◌≤◌, ◌<◌}
use mathlib.Core.Path.{◌≡◌, refl, ap}
use mathlib.Core.List.{List, [], ◌∷◌}
use mathlib.Core.Option.{Option, none, some}
use mathlib.Core.Bool.{Bool, true, false, ◌&&◌}
use native.Mathlib.Omega.{arith}
use native.Mathlib.Nat.{pow-suc, mul-add-div_right, div-eq_of_lt, div-add-mod}
use qzt.Base.Tests.{ltb, ltb→lt, leb, if◌then◌else◌}
use qzt.Base.Lists.{length, All}

abbrev pub IsByte : ℕ → Type 0
IsByte b = b < 256

abbrev pub IsU32 : ℕ → Type 0
IsU32 v = v < 2 ^ 32

abbrev pub IsU64 : ℕ → Type 0
IsU64 v = v < 2 ^ 64

abbrev pub u64_max : ℕ
u64_max = 0xffff_ffff_ffff_ffff

-- `usize` is 64 bits wide on the targets of the program.
abbrev pub usize_max : ℕ
usize_max = u64_max

abbrev pub checked_add : ℕ → ℕ → Option ℕ
checked_add a b = if leb (a + b) u64_max then some (a + b) else none

abbrev pub checked_sub : ℕ → ℕ → Option ℕ
checked_sub a b = if leb b a then some (a - b) else none

abbrev pub checked_mul : ℕ → ℕ → Option ℕ
checked_mul a b = if leb (a * b) u64_max then some (a * b) else none

-- `w` bytes, the lowest first.
abbrev pub to_le_bytes : ℕ → ℕ → List ℕ
to_le_bytes zero v = []
to_le_bytes (suc w) v = (v % 256) ∷ to_le_bytes w (v / 256)

abbrev pub from_le_bytes : List ℕ → ℕ
from_le_bytes [] = 0
from_le_bytes (b ∷ bs) = b + 256 * from_le_bytes bs

-- `w` bytes, the highest first.
abbrev pub to_be_bytes : ℕ → ℕ → List ℕ
to_be_bytes zero v = []
to_be_bytes (suc w) v = (v / 256 ^ w % 256) ∷ to_be_bytes w (v % 256 ^ w)

abbrev pub from_be_bytes : List ℕ → ℕ
from_be_bytes [] = 0
from_be_bytes (b ∷ bs) = b * 256 ^ length bs + from_be_bytes bs

pub length-to_le_bytes : (w v : ℕ) → length (to_le_bytes w v) ≡ w
length-to_le_bytes zero v = refl
length-to_le_bytes (suc w) v = ap suc (length-to_le_bytes w (v / 256))

pub to_le_bytes-IsByte : (w v : ℕ) → All IsByte (to_le_bytes w v)
to_le_bytes-IsByte zero v = tt
to_le_bytes-IsByte (suc w) v = (omega arith, to_le_bytes-IsByte w (v / 256))

pub from_le_bytes-to_le_bytes : (w v : ℕ) → v < 256 ^ w → from_le_bytes (to_le_bytes w v) ≡ v
from_le_bytes-to_le_bytes zero v h = omega arith
from_le_bytes-to_le_bytes (suc w) v h =
    omega (arith, from_le_bytes-to_le_bytes w (v / 256) (omega (arith, pow-suc 256 w)))

pub to_le_bytes-from_le_bytes :
    (w : ℕ) (bs : List ℕ) → length bs ≡ w → All IsByte bs → to_le_bytes w (from_le_bytes bs) ≡ bs
to_le_bytes-from_le_bytes zero [] h a = refl
to_le_bytes-from_le_bytes zero (b ∷ bs) h a = absurd (omega arith)
to_le_bytes-from_le_bytes (suc w) [] h a = absurd (omega arith)
to_le_bytes-from_le_bytes (suc w) (b ∷ bs) h (hb, a) =
    let low : (b + 256 * from_le_bytes bs) % 256 ≡ b = omega arith in
    let high : (b + 256 * from_le_bytes bs) / 256 ≡ from_le_bytes bs = omega arith in
    rw (low, high) (ap (λ r. b ∷ r) (to_le_bytes-from_le_bytes w bs (omega arith) a))

pub from_le_bytes_bound : (bs : List ℕ) → All IsByte bs → from_le_bytes bs < 256 ^ length bs
from_le_bytes_bound [] a = omega arith
from_le_bytes_bound (b ∷ bs) (hb, a) =
    omega (arith, from_le_bytes_bound bs a, pow-suc 256 (length bs))

pub from_be_bytes_bound : (bs : List ℕ) → All IsByte bs → from_be_bytes bs < 256 ^ length bs
from_be_bytes_bound [] a = omega arith
from_be_bytes_bound (b ∷ bs) (hb, a) =
    let tail = from_be_bytes_bound bs a in
    let power = pow-suc 256 (length bs) in
    let top : b * 256 ^ length bs ≤ 255 * 256 ^ length bs = grind arith in omega arith

pub to_be_bytes-from_be_bytes :
    (bs : List ℕ) → All IsByte bs → to_be_bytes (length bs) (from_be_bytes bs) ≡ bs
to_be_bytes-from_be_bytes [] a = refl
to_be_bytes-from_be_bytes (b ∷ bs) (hb, a) =
    let tail = from_be_bytes_bound bs a in
    let (quotient, remainder) = divide (from_be_bytes bs) (256 ^ length bs) b tail in
    let top : b % 256 ≡ b = omega arith in
    rw (quotient, remainder, top) (ap (λ r. b ∷ r) (to_be_bytes-from_be_bytes bs a))
  where
    divide : (low p c : ℕ) → low < p → ((c * p + low) / p ≡ c) × ((c * p + low) % p ≡ low)
    divide low p c h =
        let above : 0 < p = omega arith in
        let quotient : (c * p + low) / p ≡ c =
          omega (arith, mul-add-div_right above c low, div-eq_of_lt h) in
        (quotient, omega (arith, div-add-mod (c * p + low) p, ap (λ (t : ℕ). t * p) quotient))

-- The test for lists of bytes.
abbrev pub are_bytes : List ℕ → Bool
are_bytes [] = true
are_bytes (b ∷ bs) = ltb b 256 && are_bytes bs

pub are_bytes→All : (bs : List ℕ) → are_bytes bs ≡ true → All IsByte bs
are_bytes→All [] h = tt
are_bytes→All (b ∷ bs) h =
    let (p, q) = both (ltb b 256) (are_bytes bs) h in (ltb→lt b 256 p, are_bytes→All bs q)
  where
    both : (x y : Bool) → (x && y) ≡ true → (x ≡ true) × (y ≡ true)
    both true y k = (refl, k)
    both false y k = cc
