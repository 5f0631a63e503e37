-- ===== src/Fixed/Runs.antt =====
-- Runs of the fixed header, the footer trailer and the physical ranges at concrete values.
use qzt.Base.{ℕ, ◌≤◌, ◌≡◌, ◌↔◌, refl, List, [], ◌∷◌, arith, length, All, replicate}
use qzt.Base.{◌++◌, are_bytes→All}
use qzt.Format.{magic, trailer_magic}
use qzt.Primitives.{read_u64_le}
use qzt.Error.{ok, err, range_overlap}
use qzt.Fixed.{Header, FooterTrailer, PhysicalRange, encode_header, decode_header, encode_trailer}
use qzt.Fixed.{decode_trailer, validate_physical_ranges, decode_fixed_prologue, any_nonzero}
use qzt.Fixed.{
  check_fixed, check_adjacent, sort_by_key, insert_range, key_le, is_inside_file, overlaps,
}
use qzt.Fixed.RoundTrip.{
  IsHeader, IsTrailer, decode_header-encode_header, decode_trailer-encode_trailer,
}
use qzt.Fixed.Canonical.{decode_header_canonical, decode_trailer_canonical}
use qzt.Fixed.Sorting.{PairwiseDisjoint}
use qzt.Fixed.Ranges.{IsPlaced, validate_physical_ranges_iff}

abbrev a_header : Header
a_header = record {
  metadata_offset = 512;
  metadata_size = 70;
  index_hint_offset = 0;
  container_id = replicate 16 9;
}

a_header-IsHeader : IsHeader a_header
a_header-IsHeader = record {
  metadata_offset_u64 = omega arith;
  metadata_size_u64 = omega arith;
  index_hint_offset_u64 = omega arith;
  container_id_len = refl;
}

abbrev a_trailer : FooterTrailer
a_trailer = record {
  footer_payload_offset = 640;
  footer_payload_size = 300;
  footer_payload_checksum_blake3 = replicate 32 7;
}

a_trailer-IsTrailer : IsTrailer a_trailer
a_trailer-IsTrailer = record {
  footer_payload_offset_u64 = omega arith;
  footer_payload_size_u64 = omega arith;
  checksum_len = refl;
}

-- The bytes of the two.
abbrev header_bytes : List ℕ
header_bytes =
    magic
    ++ (0 ∷ 0 ∷ 1 ∷ 0 ∷ 128 ∷ 0 ∷ 0 ∷ 0 ∷ replicate 8 0)
    ++ (0 ∷ 2 ∷ replicate 6 0)
    ++ (70 ∷ replicate 7 0)
    ++ replicate 8 0
    ++ replicate 16 9
    ++ replicate 64 0

abbrev trailer_bytes : List ℕ
trailer_bytes =
    trailer_magic
    ++ (0 ∷ 0 ∷ 1 ∷ 0 ∷ 64 ∷ 0 ∷ 0 ∷ 0 ∷ [])
    ++ (128 ∷ 2 ∷ replicate 6 0)
    ++ (44 ∷ 1 ∷ replicate 6 0)
    ++ replicate 32 7

header_decodes : decode_header header_bytes ≡ ok a_header
unfolding decode_header decode_fixed_prologue read_u64_le any_nonzero
header_decodes = refl

trailer_decodes : decode_trailer trailer_bytes ≡ ok a_trailer
unfolding decode_trailer decode_fixed_prologue read_u64_le
trailer_decodes = refl

-- Behind the header, apart from one another, and in front of the trailer of a file of 500 bytes.
abbrev two_ranges : List PhysicalRange
two_ranges = record { offset = 300; size = 50 } ∷ record { offset = 128; size = 172 } ∷ []

two_ranges_pass : validate_physical_ranges 500 two_ranges ≡ ok tt
unfolding validate_physical_ranges check_fixed check_adjacent sort_by_key insert_range key_le
    is_inside_file overlaps
two_ranges_pass = refl

-- One byte longer, the second range meets the first.
overlapping_ranges_fail :
    validate_physical_ranges 500
      (record { offset = 300; size = 50 } ∷ record { offset = 128; size = 173 } ∷ [])
    ≡ err range_overlap
unfolding validate_physical_ranges check_fixed check_adjacent sort_by_key insert_range key_le
    is_inside_file overlaps
overlapping_ranges_fail = refl

decode_header-encode_header_example :
    (length (encode_header a_header) ≡ 128) × (decode_header (encode_header a_header) ≡ ok a_header)
decode_header-encode_header_example = decode_header-encode_header a_header a_header-IsHeader

decode_trailer-encode_trailer_example :
    (length (encode_trailer a_trailer) ≡ 64)
    × (decode_trailer (encode_trailer a_trailer) ≡ ok a_trailer)
decode_trailer-encode_trailer_example = decode_trailer-encode_trailer a_trailer a_trailer-IsTrailer

decode_header_canonical_example : IsHeader a_header × (encode_header a_header ≡ header_bytes)
decode_header_canonical_example =
    decode_header_canonical header_bytes a_header (are_bytes→All header_bytes refl) header_decodes

decode_trailer_canonical_example : IsTrailer a_trailer × (encode_trailer a_trailer ≡ trailer_bytes)
decode_trailer_canonical_example =
    decode_trailer_canonical trailer_bytes a_trailer (are_bytes→All trailer_bytes refl)
      trailer_decodes

validate_physical_ranges_iff_example :
    (validate_physical_ranges 500 two_ranges ≡ ok tt)
    ↔ ((192 ≤ 500) × All (IsPlaced 500) two_ranges × PairwiseDisjoint two_ranges)
validate_physical_ranges_iff_example = validate_physical_ranges_iff 500 two_ranges (omega arith)
