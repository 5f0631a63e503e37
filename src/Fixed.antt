-- ===== src/Fixed.antt =====
-- src/fixed.rs: the fixed 128-byte header and 64-byte footer trailer, and the physical ranges of a
-- container.
pub mod RoundTrip
pub mod Canonical
pub mod Sorting
pub mod Ranges
mod Runs
use Prim.Native.Nat.{compare, Ordering}
use qzt.Base.{ℕ, zero, suc, ◌+◌, ◌-◌, List, [], ◌∷◌, ◌++◌, Bool, true, false, ◌&&◌, ◌||◌, not}
use qzt.Base.{
  ltb, leb, ◌==◌, ◌!=◌, if◌then◌else◌, length, take, drop, slice, replicate, to_le_bytes,
}
use qzt.Base.{bytes_eq}
use qzt.Error.{QztError, Result, ok, err, reject_if, ◌>>=◌, ◌>>◌}
use qzt.Error.{invalid_header, invalid_magic, invalid_flags, invalid_footer_trailer}
use qzt.Error.{unsupported_version, physical_range_out_of_bounds, range_overlap}
use qzt.Format.{magic, trailer_magic, major_version, minor_version, header_len, footer_trailer_len}
use qzt.Primitives.{read_u16_le, read_u32_le, read_u64_le, checked_physical_end}

pub record Header : Type 0 where
  pub metadata_offset : ℕ
  pub metadata_size : ℕ
  pub index_hint_offset : ℕ
  pub container_id : List ℕ

pub record FooterTrailer : Type 0 where
  pub footer_payload_offset : ℕ
  pub footer_payload_size : ℕ
  pub footer_payload_checksum_blake3 : List ℕ

-- `bytes[at..at + src.len()].copy_from_slice(&src)`
unfoldable pub copy_at : ℕ → List ℕ → List ℕ → List ℕ
copy_at at src bytes = take at bytes ++ (src ++ drop (at + length src) bytes)

unfoldable pub encode_fixed_prologue : List ℕ → List ℕ → ℕ → List ℕ
unfolding copy_at
encode_fixed_prologue bytes expected_magic len = copy_at 12 (to_le_bytes 4 len) (
    copy_at 10 (to_le_bytes 2 minor_version)
      (copy_at 8 (to_le_bytes 2 major_version) (copy_at 0 expected_magic bytes)))

unfoldable pub decode_fixed_prologue : List ℕ → List ℕ → ℕ → QztError → QztError → Result (Unit {0})
unfolding read_u16_le read_u32_le
decode_fixed_prologue bytes expected_magic expected_length length_error magic_error = do
  reject_if (not (bytes_eq (slice 0 8 bytes) expected_magic)) magic_error
  major ← read_u16_le (slice 8 10 bytes)
  minor ← read_u16_le (slice 10 12 bytes)
  reject_if (major != major_version || minor != minor_version) unsupported_version
  header_length ← read_u32_le (slice 12 16 bytes)
  reject_if (header_length != expected_length) length_error

-- `bytes.try_into::<[u8; N]>().map_err(|_| e)`
unfoldable pub read_array : ℕ → QztError → List ℕ → Result (List ℕ)
read_array n e bytes = if length bytes == n then ok bytes else err e

-- `bytes.iter().any(|byte| *byte != 0)`
unfoldable pub any_nonzero : List ℕ → Bool
any_nonzero [] = false
any_nonzero (byte ∷ bytes) = byte != 0 || any_nonzero bytes

-- `Header::encode`
unfoldable pub encode_header : Header → List ℕ
unfolding encode_fixed_prologue
encode_header header = copy_at 48 header.container_id (
    copy_at 40 (to_le_bytes 8 header.index_hint_offset) (
      copy_at 32 (to_le_bytes 8 header.metadata_size) (
        copy_at 24 (to_le_bytes 8 header.metadata_offset)
          (encode_fixed_prologue (replicate header_len 0) magic header_len))))

-- `Header::decode`
unfoldable pub decode_header : List ℕ → Result Header
unfolding read_array
decode_header bytes = do
  reject_if (length bytes != header_len) invalid_header
  decode_fixed_prologue bytes magic header_len invalid_header invalid_magic
  header_flags ← read_u64_le (slice 16 24 bytes)
  reject_if (header_flags != 0) invalid_flags
  reject_if (any_nonzero (slice 64 128 bytes)) invalid_header
  metadata_offset ← read_u64_le (slice 24 32 bytes)
  metadata_size ← read_u64_le (slice 32 40 bytes)
  index_hint_offset ← read_u64_le (slice 40 48 bytes)
  container_id ← read_array 16 invalid_header (slice 48 64 bytes)
  ok (record {
    metadata_offset = metadata_offset;
    metadata_size = metadata_size;
    index_hint_offset = index_hint_offset;
    container_id = container_id;
  })

-- `FooterTrailer::encode`
unfoldable pub encode_trailer : FooterTrailer → List ℕ
unfolding encode_fixed_prologue
encode_trailer trailer = copy_at 32 trailer.footer_payload_checksum_blake3 (
    copy_at 24 (to_le_bytes 8 trailer.footer_payload_size) (
      copy_at 16 (to_le_bytes 8 trailer.footer_payload_offset)
        (encode_fixed_prologue (replicate footer_trailer_len 0) trailer_magic footer_trailer_len)))

-- `FooterTrailer::decode`
unfoldable pub decode_trailer : List ℕ → Result FooterTrailer
unfolding read_array
decode_trailer bytes = do
  reject_if (length bytes != footer_trailer_len) invalid_footer_trailer
  decode_fixed_prologue bytes trailer_magic footer_trailer_len invalid_footer_trailer
      invalid_footer_trailer
  footer_payload_offset ← read_u64_le (slice 16 24 bytes)
  footer_payload_size ← read_u64_le (slice 24 32 bytes)
  checksum ← read_array 32 invalid_footer_trailer (slice 32 64 bytes)
  ok (record {
    footer_payload_offset = footer_payload_offset;
    footer_payload_size = footer_payload_size;
    footer_payload_checksum_blake3 = checksum;
  })

pub record PhysicalRange : Type 0 where
  pub offset : ℕ
  pub size : ℕ

-- `PhysicalRange::end`
unfoldable pub range_end : PhysicalRange → Result ℕ
unfolding checked_physical_end
range_end range = checked_physical_end range.offset range.size

unfoldable pub is_inside_file : PhysicalRange → ℕ → Result Bool
unfolding range_end
is_inside_file range final_file_size = do end ← range_end range; ok (leb end final_file_size)

unfoldable pub overlaps : PhysicalRange → PhysicalRange → Result Bool
unfolding range_end
overlaps range other = do
  self_end ← range_end range
  other_end ← range_end other
  ok (ltb range.offset other_end && ltb other.offset self_end)

-- The first loop of `validate_physical_ranges`. `||` does not evaluate its right side when the
-- left one holds.
unfoldable pub check_fixed :
    ℕ → PhysicalRange → PhysicalRange → List PhysicalRange → Result (Unit {0})
check_fixed final_file_size header trailer [] = ok tt
check_fixed final_file_size header trailer (range ∷ ranges) = do
  inside ← is_inside_file range final_file_size
  reject_if (not inside) physical_range_out_of_bounds
  on_header ← overlaps range header
  reject_if on_header range_overlap
  on_trailer ← overlaps range trailer
  reject_if on_trailer range_overlap
  check_fixed final_file_size header trailer ranges

-- The order of `sort_by_key(|range| (range.offset, range.size))`, which is stable.
unfoldable pub key_le : PhysicalRange → PhysicalRange → Bool
key_le a b = ltb a.offset b.offset || (a.offset == b.offset && leb a.size b.size)

unfoldable pub insert_range : PhysicalRange → List PhysicalRange → List PhysicalRange
insert_range a [] = a ∷ []
insert_range a (b ∷ bs) = if key_le a b then a ∷ (b ∷ bs) else b ∷ insert_range a bs

unfoldable pub sort_by_key : List PhysicalRange → List PhysicalRange
sort_by_key [] = []
sort_by_key (a ∷ as_) = insert_range a (sort_by_key as_)

-- `for pair in sorted_ranges.windows(2)`
unfoldable pub check_adjacent : List PhysicalRange → Result (Unit {0})
check_adjacent [] = ok tt
check_adjacent (a ∷ []) = ok tt
check_adjacent (a ∷ (b ∷ rest)) = do
  clash ← overlaps a b
  reject_if clash range_overlap
  check_adjacent (b ∷ rest)

abbrev pub header_range : PhysicalRange
header_range = record { offset = 0; size = header_len }

abbrev pub trailer_range : ℕ → PhysicalRange
trailer_range final_file_size = record {
  offset = final_file_size - footer_trailer_len;
  size = footer_trailer_len;
}

unfoldable pub validate_physical_ranges : ℕ → List PhysicalRange → Result (Unit {0})
validate_physical_ranges final_file_size ranges = do
  reject_if (ltb final_file_size (header_len + footer_trailer_len)) invalid_footer_trailer
  check_fixed final_file_size header_range (trailer_range final_file_size) ranges
  check_adjacent (sort_by_key ranges)
