-- ===== src/Primitives.antt =====
-- src/primitives.rs: conversions between `usize` and `u64`, little-endian reads, and the ends of
-- half-open ranges.
use qzt.Base.{ℕ, ◌≡◌, List, arith, leb, ◌==◌, if◌then◌else◌}
use qzt.Base.{length, All, IsByte, IsU32, IsU64, u64_max, usize_max, checked_add, from_le_bytes}
use qzt.Base.{ap, sym, to_le_bytes, from_le_bytes_bound, from_le_bytes-to_le_bytes}
use qzt.Base.{to_le_bytes-from_le_bytes}
use qzt.Error.{Result, ok, err, ok_or, unexpected_eof, resource_limit_exceeded}
use qzt.Error.{logical_range_out_of_bounds, physical_range_out_of_bounds}

unfoldable pub usize_to_u64 : ℕ → Result ℕ
usize_to_u64 value = if leb value u64_max then ok value else err resource_limit_exceeded

unfoldable pub u64_to_usize : ℕ → Result ℕ
u64_to_usize value = if leb value usize_max then ok value else err resource_limit_exceeded

unfoldable pub read_u16_le : List ℕ → Result ℕ
read_u16_le bytes = if length bytes == 2 then ok (from_le_bytes bytes) else err unexpected_eof

unfoldable pub read_u32_le : List ℕ → Result ℕ
read_u32_le bytes = if length bytes == 4 then ok (from_le_bytes bytes) else err unexpected_eof

unfoldable pub read_u64_le : List ℕ → Result ℕ
read_u64_le bytes = if length bytes == 8 then ok (from_le_bytes bytes) else err unexpected_eof

unfoldable pub checked_logical_end : ℕ → ℕ → Result ℕ
checked_logical_end offset size = ok_or (checked_add offset size) logical_range_out_of_bounds

unfoldable pub checked_physical_end : ℕ → ℕ → Result ℕ
checked_physical_end offset size = ok_or (checked_add offset size) physical_range_out_of_bounds

pub usize_to_u64_lem : (value : ℕ) → IsU64 value → usize_to_u64 value ≡ ok value
unfolding usize_to_u64
usize_to_u64_lem value h = ground arith

pub read_u64_le-to_le_bytes : (v : ℕ) → IsU64 v → read_u64_le (to_le_bytes 8 v) ≡ ok v
unfolding read_u64_le
read_u64_le-to_le_bytes v h = ap ok (from_le_bytes-to_le_bytes 8 v h)

pub read_u32_le-to_le_bytes : (v : ℕ) → IsU32 v → read_u32_le (to_le_bytes 4 v) ≡ ok v
unfolding read_u32_le
read_u32_le-to_le_bytes v h = ap ok (from_le_bytes-to_le_bytes 4 v h)

-- A successful read is of exactly eight (four) bytes, which are those of its value.
pub read_u64_le_inv :
    (bytes : List ℕ) (v : ℕ)
    → All IsByte bytes
    → read_u64_le bytes ≡ ok v
    → IsU64 v × (bytes ≡ to_le_bytes 8 v)
unfolding read_u64_le
read_u64_le_inv bytes v bs e =
    let (len, same) = parts in
    let bound = rw len at (from_le_bytes_bound bytes bs) in
    let back = to_le_bytes-from_le_bytes 8 bytes len bs in
    (rw (← same) bound, rw (← same) (sym back))
  where
    parts : (length bytes ≡ 8) × (from_le_bytes bytes ≡ v)
    parts = ground arith

pub read_u32_le_inv :
    (bytes : List ℕ) (v : ℕ)
    → All IsByte bytes
    → read_u32_le bytes ≡ ok v
    → IsU32 v × (bytes ≡ to_le_bytes 4 v)
unfolding read_u32_le
read_u32_le_inv bytes v bs e =
    let (len, same) = parts in
    let bound = rw len at (from_le_bytes_bound bytes bs) in
    let back = to_le_bytes-from_le_bytes 4 bytes len bs in
    (rw (← same) bound, rw (← same) (sym back))
  where
    parts : (length bytes ≡ 4) × (from_le_bytes bytes ≡ v)
    parts = ground arith
