-- ===== src/Schema/Runs.antt =====
-- Runs of the footer payload of src/schema.rs at concrete values.
use qzt.Base.{ℕ, List, [], ◌∷◌, ◌≡◌, refl, none, replicate}
use qzt.Base.Utf8.{is_utf8}
use qzt.Error.{ok}
use qzt.Primitives.{usize_to_u64, u64_to_usize}
use qzt.Cbor.{
  compare_bytes, encode_deterministic, encode_value, head_bytes, encode_type_and_argument,
}
use qzt.Cbor.{insert_pair, sort_pairs, has_duplicate, extend_pairs}
use qzt.Cbor.Parser.{
  validate_deterministic, validate_deterministic_with_limits, parse_value, parse_major,
}
use qzt.Cbor.Parser.{read_u8, read_exact, read_argument, read_len, consume_allocation, parse_text}
use qzt.Cbor.Parser.{parse_payload, parse_array, parse_values, parse_map, parse_entries, check_key}
use qzt.Cbor.Parser.{parse_unsigned, read_wide, parse_bytes}
use qzt.Cbor.Schema.{is_text, has_key, contains}
use qzt.Schema.{
  BlockRef, from_raw_bytes, block_ref_value, checksum_value, u64_value, version_value, field,
}
use qzt.Schema.{as_map, required_map, as_text, required_text, as_u64, required_u64_with_overflow}
use qzt.Schema.{
  required_u64, as_bstr, required_bstr, check_allowed, reject_unknown_keys, required_checksum,
}
use qzt.Schema.{
  optional_checksum, required_block_ref, expect_text_field, is_version, expect_version_field,
}
use qzt.Schema.{decode_prologue}
use qzt.Schema.Words.{word_blake3}
use qzt.Schema.Footer.{FooterPayload, encode, decode, decode_fields}
use qzt.Schema.FooterOf.{IsFooterOf, decode-IsFooterOf}

abbrev block : ℕ → ℕ → ℕ → BlockRef
block offset size byte = record {
  offset = offset;
  size = size;
  checksum = record { algorithm = word_blake3; value = replicate 32 byte };
}

abbrev footer : FooterPayload
footer = record {
  container_id = replicate 16 9;
  index_root = block 500 60 1;
  metadata = block 560 70 2;
  final_file_size = 1000;
  footer_flags = 0;
  container_checksum = none;
}

abbrev footer_bytes : List ℕ
footer_bytes =
    167 ∷ 102 ∷ 115 ∷ 99 ∷ 104 ∷ 101 ∷ 109 ∷ 97 ∷ 109 ∷ 113 ∷ 122 ∷ 116 ∷ 46 ∷ 102 ∷ 111 ∷ 111 ∷ 116
    ∷ 101 ∷ 114 ∷ 46 ∷ 118 ∷ 49 ∷ 104 ∷ 109 ∷ 101 ∷ 116 ∷ 97 ∷ 100 ∷ 97 ∷ 116 ∷ 97 ∷ 163 ∷ 100 ∷ 115
    ∷ 105 ∷ 122 ∷ 101 ∷ 24 ∷ 70 ∷ 102 ∷ 111 ∷ 102 ∷ 102 ∷ 115 ∷ 101 ∷ 116 ∷ 25 ∷ 2 ∷ 48 ∷ 104 ∷ 99
    ∷ 104 ∷ 101 ∷ 99 ∷ 107 ∷ 115 ∷ 117 ∷ 109 ∷ 162 ∷ 101 ∷ 118 ∷ 97 ∷ 108 ∷ 117 ∷ 101 ∷ 88 ∷ 32 ∷ 2
    ∷ 2 ∷ 2 ∷ 2 ∷ 2 ∷ 2 ∷ 2 ∷ 2 ∷ 2 ∷ 2 ∷ 2 ∷ 2 ∷ 2 ∷ 2 ∷ 2 ∷ 2 ∷ 2 ∷ 2 ∷ 2 ∷ 2 ∷ 2 ∷ 2 ∷ 2 ∷ 2 ∷ 2
    ∷ 2 ∷ 2 ∷ 2 ∷ 2 ∷ 2 ∷ 2 ∷ 2 ∷ 105 ∷ 97 ∷ 108 ∷ 103 ∷ 111 ∷ 114 ∷ 105 ∷ 116 ∷ 104 ∷ 109 ∷ 102
    ∷ 98 ∷ 108 ∷ 97 ∷ 107 ∷ 101 ∷ 51 ∷ 106 ∷ 105 ∷ 110 ∷ 100 ∷ 101 ∷ 120 ∷ 95 ∷ 114 ∷ 111 ∷ 111
    ∷ 116 ∷ 163 ∷ 100 ∷ 115 ∷ 105 ∷ 122 ∷ 101 ∷ 24 ∷ 60 ∷ 102 ∷ 111 ∷ 102 ∷ 102 ∷ 115 ∷ 101 ∷ 116
    ∷ 25 ∷ 1 ∷ 244 ∷ 104 ∷ 99 ∷ 104 ∷ 101 ∷ 99 ∷ 107 ∷ 115 ∷ 117 ∷ 109 ∷ 162 ∷ 101 ∷ 118 ∷ 97 ∷ 108
    ∷ 117 ∷ 101 ∷ 88 ∷ 32 ∷ 1 ∷ 1 ∷ 1 ∷ 1 ∷ 1 ∷ 1 ∷ 1 ∷ 1 ∷ 1 ∷ 1 ∷ 1 ∷ 1 ∷ 1 ∷ 1 ∷ 1 ∷ 1 ∷ 1 ∷ 1
    ∷ 1 ∷ 1 ∷ 1 ∷ 1 ∷ 1 ∷ 1 ∷ 1 ∷ 1 ∷ 1 ∷ 1 ∷ 1 ∷ 1 ∷ 1 ∷ 1 ∷ 105 ∷ 97 ∷ 108 ∷ 103 ∷ 111 ∷ 114 ∷ 105
    ∷ 116 ∷ 104 ∷ 109 ∷ 102 ∷ 98 ∷ 108 ∷ 97 ∷ 107 ∷ 101 ∷ 51 ∷ 108 ∷ 99 ∷ 111 ∷ 110 ∷ 116 ∷ 97 ∷ 105
    ∷ 110 ∷ 101 ∷ 114 ∷ 95 ∷ 105 ∷ 100 ∷ 80 ∷ 9 ∷ 9 ∷ 9 ∷ 9 ∷ 9 ∷ 9 ∷ 9 ∷ 9 ∷ 9 ∷ 9 ∷ 9 ∷ 9 ∷ 9 ∷ 9
    ∷ 9 ∷ 9 ∷ 108 ∷ 102 ∷ 111 ∷ 111 ∷ 116 ∷ 101 ∷ 114 ∷ 95 ∷ 102 ∷ 108 ∷ 97 ∷ 103 ∷ 115 ∷ 0 ∷ 110
    ∷ 102 ∷ 111 ∷ 114 ∷ 109 ∷ 97 ∷ 116 ∷ 95 ∷ 118 ∷ 101 ∷ 114 ∷ 115 ∷ 105 ∷ 111 ∷ 110 ∷ 130 ∷ 0 ∷ 1
    ∷ 111 ∷ 102 ∷ 105 ∷ 110 ∷ 97 ∷ 108 ∷ 95 ∷ 102 ∷ 105 ∷ 108 ∷ 101 ∷ 95 ∷ 115 ∷ 105 ∷ 122 ∷ 101
    ∷ 25 ∷ 3 ∷ 232 ∷ []

footer_encodes : encode footer ≡ ok footer_bytes
unfolding encode encode_deterministic encode_value head_bytes encode_type_and_argument insert_pair
    sort_pairs has_duplicate extend_pairs compare_bytes block_ref_value checksum_value u64_value
    version_value usize_to_u64
footer_encodes = refl

footer_decodes : decode footer_bytes ≡ ok footer
unfolding decode decode_fields decode_prologue validate_deterministic
    validate_deterministic_with_limits parse_value parse_major read_u8 read_exact read_argument
    read_len consume_allocation parse_text parse_payload parse_array parse_values parse_map
    parse_entries check_key parse_unsigned read_wide parse_bytes compare_bytes is_utf8 usize_to_u64
    u64_to_usize is_text has_key contains from_raw_bytes field as_map required_map as_text
    required_text as_u64 required_u64_with_overflow required_u64 as_bstr required_bstr check_allowed
    reject_unknown_keys required_checksum optional_checksum required_block_ref expect_text_field
    is_version expect_version_field
footer_decodes = refl

decode-IsFooterOf_example : IsFooterOf footer_bytes footer
decode-IsFooterOf_example = decode-IsFooterOf footer_bytes footer footer_decodes
