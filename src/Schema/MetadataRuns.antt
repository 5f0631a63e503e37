-- ===== src/Schema/MetadataRuns.antt =====
-- Runs of `Metadata` of src/schema.rs at concrete values.
use qzt.Base.{ℕ, List, [], ◌∷◌, ◌≡◌, refl, replicate}
use qzt.Base.Utf8.{is_utf8}
use qzt.Error.{ok}
use qzt.Primitives.{usize_to_u64, u64_to_usize}
use qzt.Cbor.{compare_bytes}
use qzt.Cbor.Parser.{
  validate_deterministic, validate_deterministic_with_limits, parse_value, parse_major,
}
use qzt.Cbor.Parser.{read_u8, read_exact, read_argument, read_len, consume_allocation, parse_text}
use qzt.Cbor.Parser.{parse_payload, parse_array, parse_values, parse_map, parse_entries, check_key}
use qzt.Cbor.Parser.{parse_unsigned, read_wide, parse_bytes, parse_simple}
use qzt.Cbor.Schema.{is_text, has_key, contains}
use qzt.Schema.{from_raw_bytes, field, as_map, required_map, as_text, required_text, as_u64}
use qzt.Schema.{required_u64_with_overflow, required_u64, as_bstr, required_bstr, check_allowed}
use qzt.Schema.{reject_unknown_keys, required_checksum, expect_text_field, is_version}
use qzt.Schema.{
  expect_version_field, decode_prologue, as_array, required_array, as_bool, required_bool,
}
use qzt.Schema.{bool_eq, expect_bool_field, as_i32, required_i32}
use qzt.Cbor.{encode_deterministic, encode_value, head_bytes, encode_type_and_argument}
use qzt.Cbor.{insert_pair, sort_pairs, has_duplicate, extend_pairs, integer_argument}
use qzt.Schema.{checksum_value, u64_value, version_value}
use qzt.Schema.Metadata.{
  Metadata, empty, encode, for_source_with_options, identity_value, source_value,
}
use qzt.Schema.Metadata.{compression_value, chunking_value, indexes_value, integrity_value}
use qzt.Schema.Metadata.{compatibility_value}
use qzt.Schema.Metadata.Decode.{decode, decode_fields, decode_values, build_metadata, chunk_sizes}
use qzt.Schema.Metadata.Decode.{required_choice, check_identity, check_source, check_compression}
use qzt.Schema.Metadata.Decode.{check_chunking, check_indexes, check_integrity, check_compatibility}
use qzt.Schema.Metadata.Accepted.{IsMetadata, decode-IsMetadata}

abbrev empty_metadata : Metadata
empty_metadata = empty (λ input. replicate 32 7) (replicate 16 9)

abbrev empty_metadata_bytes : List ℕ
empty_metadata_bytes =
    171 ∷ 102 ∷ 102 ∷ 111 ∷ 114 ∷ 109 ∷ 97 ∷ 116 ∷ 99 ∷ 113 ∷ 122 ∷ 116 ∷ 102 ∷ 115 ∷ 99 ∷ 104 ∷ 101
    ∷ 109 ∷ 97 ∷ 111 ∷ 113 ∷ 122 ∷ 116 ∷ 46 ∷ 109 ∷ 101 ∷ 116 ∷ 97 ∷ 100 ∷ 97 ∷ 116 ∷ 97 ∷ 46 ∷ 118
    ∷ 49 ∷ 102 ∷ 115 ∷ 111 ∷ 117 ∷ 114 ∷ 99 ∷ 101 ∷ 166 ∷ 104 ∷ 101 ∷ 110 ∷ 99 ∷ 111 ∷ 100 ∷ 105
    ∷ 110 ∷ 103 ∷ 101 ∷ 117 ∷ 116 ∷ 102 ∷ 45 ∷ 56 ∷ 106 ∷ 108 ∷ 105 ∷ 110 ∷ 101 ∷ 95 ∷ 99 ∷ 111
    ∷ 117 ∷ 110 ∷ 116 ∷ 0 ∷ 106 ∷ 109 ∷ 101 ∷ 100 ∷ 105 ∷ 97 ∷ 95 ∷ 116 ∷ 121 ∷ 112 ∷ 101 ∷ 100
    ∷ 116 ∷ 101 ∷ 120 ∷ 116 ∷ 108 ∷ 110 ∷ 101 ∷ 119 ∷ 108 ∷ 105 ∷ 110 ∷ 101 ∷ 95 ∷ 109 ∷ 111 ∷ 100
    ∷ 101 ∷ 100 ∷ 110 ∷ 111 ∷ 110 ∷ 101 ∷ 109 ∷ 111 ∷ 114 ∷ 105 ∷ 103 ∷ 105 ∷ 110 ∷ 97 ∷ 108 ∷ 95
    ∷ 115 ∷ 105 ∷ 122 ∷ 101 ∷ 0 ∷ 113 ∷ 111 ∷ 114 ∷ 105 ∷ 103 ∷ 105 ∷ 110 ∷ 97 ∷ 108 ∷ 95 ∷ 99 ∷ 104
    ∷ 101 ∷ 99 ∷ 107 ∷ 115 ∷ 117 ∷ 109 ∷ 162 ∷ 101 ∷ 118 ∷ 97 ∷ 108 ∷ 117 ∷ 101 ∷ 88 ∷ 32 ∷ 7 ∷ 7
    ∷ 7 ∷ 7 ∷ 7 ∷ 7 ∷ 7 ∷ 7 ∷ 7 ∷ 7 ∷ 7 ∷ 7 ∷ 7 ∷ 7 ∷ 7 ∷ 7 ∷ 7 ∷ 7 ∷ 7 ∷ 7 ∷ 7 ∷ 7 ∷ 7 ∷ 7 ∷ 7 ∷ 7
    ∷ 7 ∷ 7 ∷ 7 ∷ 7 ∷ 7 ∷ 7 ∷ 105 ∷ 97 ∷ 108 ∷ 103 ∷ 111 ∷ 114 ∷ 105 ∷ 116 ∷ 104 ∷ 109 ∷ 102 ∷ 98
    ∷ 108 ∷ 97 ∷ 107 ∷ 101 ∷ 51 ∷ 103 ∷ 105 ∷ 110 ∷ 100 ∷ 101 ∷ 120 ∷ 101 ∷ 115 ∷ 167 ∷ 107 ∷ 99
    ∷ 104 ∷ 117 ∷ 110 ∷ 107 ∷ 95 ∷ 116 ∷ 97 ∷ 98 ∷ 108 ∷ 101 ∷ 245 ∷ 107 ∷ 110 ∷ 103 ∷ 114 ∷ 97
    ∷ 109 ∷ 95 ∷ 105 ∷ 110 ∷ 100 ∷ 101 ∷ 120 ∷ 244 ∷ 107 ∷ 116 ∷ 111 ∷ 107 ∷ 101 ∷ 110 ∷ 95 ∷ 105
    ∷ 110 ∷ 100 ∷ 101 ∷ 120 ∷ 244 ∷ 108 ∷ 118 ∷ 101 ∷ 99 ∷ 116 ∷ 111 ∷ 114 ∷ 95 ∷ 105 ∷ 110 ∷ 100
    ∷ 101 ∷ 120 ∷ 244 ∷ 110 ∷ 100 ∷ 111 ∷ 99 ∷ 117 ∷ 109 ∷ 101 ∷ 110 ∷ 116 ∷ 95 ∷ 105 ∷ 110 ∷ 100
    ∷ 101 ∷ 120 ∷ 244 ∷ 112 ∷ 100 ∷ 101 ∷ 110 ∷ 115 ∷ 101 ∷ 95 ∷ 108 ∷ 105 ∷ 110 ∷ 101 ∷ 95 ∷ 105
    ∷ 110 ∷ 100 ∷ 101 ∷ 120 ∷ 244 ∷ 113 ∷ 115 ∷ 112 ∷ 97 ∷ 114 ∷ 115 ∷ 101 ∷ 95 ∷ 108 ∷ 105 ∷ 110
    ∷ 101 ∷ 95 ∷ 105 ∷ 110 ∷ 100 ∷ 101 ∷ 120 ∷ 245 ∷ 104 ∷ 99 ∷ 104 ∷ 117 ∷ 110 ∷ 107 ∷ 105 ∷ 110
    ∷ 103 ∷ 164 ∷ 104 ∷ 98 ∷ 111 ∷ 117 ∷ 110 ∷ 100 ∷ 97 ∷ 114 ∷ 121 ∷ 110 ∷ 108 ∷ 105 ∷ 110 ∷ 101
    ∷ 45 ∷ 112 ∷ 114 ∷ 101 ∷ 102 ∷ 101 ∷ 114 ∷ 114 ∷ 101 ∷ 100 ∷ 110 ∷ 109 ∷ 97 ∷ 120 ∷ 95 ∷ 99
    ∷ 104 ∷ 117 ∷ 110 ∷ 107 ∷ 95 ∷ 115 ∷ 105 ∷ 122 ∷ 101 ∷ 26 ∷ 1 ∷ 0 ∷ 0 ∷ 0 ∷ 113 ∷ 116 ∷ 97 ∷ 114
    ∷ 103 ∷ 101 ∷ 116 ∷ 95 ∷ 99 ∷ 104 ∷ 117 ∷ 110 ∷ 107 ∷ 95 ∷ 115 ∷ 105 ∷ 122 ∷ 101 ∷ 26 ∷ 0 ∷ 64
    ∷ 0 ∷ 0 ∷ 118 ∷ 117 ∷ 116 ∷ 102 ∷ 56 ∷ 95 ∷ 98 ∷ 111 ∷ 117 ∷ 110 ∷ 100 ∷ 97 ∷ 114 ∷ 121 ∷ 95
    ∷ 114 ∷ 101 ∷ 113 ∷ 117 ∷ 105 ∷ 114 ∷ 101 ∷ 100 ∷ 245 ∷ 104 ∷ 105 ∷ 100 ∷ 101 ∷ 110 ∷ 116 ∷ 105
    ∷ 116 ∷ 121 ∷ 164 ∷ 100 ∷ 110 ∷ 97 ∷ 109 ∷ 101 ∷ 246 ∷ 103 ∷ 112 ∷ 114 ∷ 111 ∷ 102 ∷ 105 ∷ 108
    ∷ 101 ∷ 100 ∷ 99 ∷ 111 ∷ 114 ∷ 101 ∷ 106 ∷ 99 ∷ 114 ∷ 101 ∷ 97 ∷ 116 ∷ 101 ∷ 100 ∷ 95 ∷ 98 ∷ 121
    ∷ 99 ∷ 113 ∷ 122 ∷ 116 ∷ 114 ∷ 99 ∷ 114 ∷ 101 ∷ 97 ∷ 116 ∷ 101 ∷ 100 ∷ 95 ∷ 97 ∷ 116 ∷ 95 ∷ 117
    ∷ 110 ∷ 105 ∷ 120 ∷ 95 ∷ 109 ∷ 115 ∷ 246 ∷ 105 ∷ 105 ∷ 110 ∷ 116 ∷ 101 ∷ 103 ∷ 114 ∷ 105 ∷ 116
    ∷ 121 ∷ 163 ∷ 110 ∷ 105 ∷ 110 ∷ 100 ∷ 101 ∷ 120 ∷ 95 ∷ 99 ∷ 104 ∷ 101 ∷ 99 ∷ 107 ∷ 115 ∷ 117
    ∷ 109 ∷ 102 ∷ 98 ∷ 108 ∷ 97 ∷ 107 ∷ 101 ∷ 51 ∷ 120 ∷ 25 ∷ 99 ∷ 111 ∷ 109 ∷ 112 ∷ 114 ∷ 101 ∷ 115
    ∷ 115 ∷ 101 ∷ 100 ∷ 95 ∷ 99 ∷ 104 ∷ 117 ∷ 110 ∷ 107 ∷ 95 ∷ 99 ∷ 104 ∷ 101 ∷ 99 ∷ 107 ∷ 115 ∷ 117
    ∷ 109 ∷ 102 ∷ 98 ∷ 108 ∷ 97 ∷ 107 ∷ 101 ∷ 51 ∷ 120 ∷ 27 ∷ 117 ∷ 110 ∷ 99 ∷ 111 ∷ 109 ∷ 112 ∷ 114
    ∷ 101 ∷ 115 ∷ 115 ∷ 101 ∷ 100 ∷ 95 ∷ 99 ∷ 104 ∷ 117 ∷ 110 ∷ 107 ∷ 95 ∷ 99 ∷ 104 ∷ 101 ∷ 99 ∷ 107
    ∷ 115 ∷ 117 ∷ 109 ∷ 102 ∷ 98 ∷ 108 ∷ 97 ∷ 107 ∷ 101 ∷ 51 ∷ 107 ∷ 99 ∷ 111 ∷ 109 ∷ 112 ∷ 114
    ∷ 101 ∷ 115 ∷ 115 ∷ 105 ∷ 111 ∷ 110 ∷ 165 ∷ 101 ∷ 99 ∷ 111 ∷ 100 ∷ 101 ∷ 99 ∷ 100 ∷ 122 ∷ 115
    ∷ 116 ∷ 100 ∷ 106 ∷ 122 ∷ 115 ∷ 116 ∷ 100 ∷ 95 ∷ 108 ∷ 101 ∷ 118 ∷ 101 ∷ 108 ∷ 0 ∷ 111 ∷ 100
    ∷ 105 ∷ 99 ∷ 116 ∷ 105 ∷ 111 ∷ 110 ∷ 97 ∷ 114 ∷ 121 ∷ 95 ∷ 109 ∷ 111 ∷ 100 ∷ 101 ∷ 100 ∷ 110
    ∷ 111 ∷ 110 ∷ 101 ∷ 114 ∷ 105 ∷ 110 ∷ 100 ∷ 101 ∷ 112 ∷ 101 ∷ 110 ∷ 100 ∷ 101 ∷ 110 ∷ 116 ∷ 95
    ∷ 102 ∷ 114 ∷ 97 ∷ 109 ∷ 101 ∷ 115 ∷ 245 ∷ 115 ∷ 122 ∷ 115 ∷ 116 ∷ 100 ∷ 95 ∷ 102 ∷ 114 ∷ 97
    ∷ 109 ∷ 101 ∷ 95 ∷ 99 ∷ 104 ∷ 101 ∷ 99 ∷ 107 ∷ 115 ∷ 117 ∷ 109 ∷ 244 ∷ 108 ∷ 99 ∷ 111 ∷ 110
    ∷ 116 ∷ 97 ∷ 105 ∷ 110 ∷ 101 ∷ 114 ∷ 95 ∷ 105 ∷ 100 ∷ 80 ∷ 9 ∷ 9 ∷ 9 ∷ 9 ∷ 9 ∷ 9 ∷ 9 ∷ 9 ∷ 9 ∷ 9
    ∷ 9 ∷ 9 ∷ 9 ∷ 9 ∷ 9 ∷ 9 ∷ 109 ∷ 99 ∷ 111 ∷ 109 ∷ 112 ∷ 97 ∷ 116 ∷ 105 ∷ 98 ∷ 105 ∷ 108 ∷ 105
    ∷ 116 ∷ 121 ∷ 162 ∷ 113 ∷ 113 ∷ 122 ∷ 116 ∷ 95 ∷ 105 ∷ 115 ∷ 95 ∷ 122 ∷ 115 ∷ 116 ∷ 95 ∷ 115
    ∷ 116 ∷ 114 ∷ 101 ∷ 97 ∷ 109 ∷ 244 ∷ 120 ∷ 34 ∷ 99 ∷ 104 ∷ 117 ∷ 110 ∷ 107 ∷ 115 ∷ 95 ∷ 97 ∷ 114
    ∷ 101 ∷ 95 ∷ 105 ∷ 110 ∷ 100 ∷ 101 ∷ 112 ∷ 101 ∷ 110 ∷ 100 ∷ 101 ∷ 110 ∷ 116 ∷ 95 ∷ 122 ∷ 115
    ∷ 116 ∷ 100 ∷ 95 ∷ 102 ∷ 114 ∷ 97 ∷ 109 ∷ 101 ∷ 115 ∷ 245 ∷ 110 ∷ 102 ∷ 111 ∷ 114 ∷ 109 ∷ 97
    ∷ 116 ∷ 95 ∷ 118 ∷ 101 ∷ 114 ∷ 115 ∷ 105 ∷ 111 ∷ 110 ∷ 130 ∷ 0 ∷ 1 ∷ []

empty_metadata_encodes : encode empty_metadata ≡ ok empty_metadata_bytes
unfolding empty encode for_source_with_options identity_value source_value compression_value
    chunking_value indexes_value integrity_value compatibility_value checksum_value u64_value
    version_value encode_deterministic encode_value head_bytes encode_type_and_argument insert_pair
    sort_pairs has_duplicate extend_pairs compare_bytes usize_to_u64 integer_argument from_raw_bytes
empty_metadata_encodes = refl

empty_metadata_decodes : decode empty_metadata_bytes ≡ ok empty_metadata
unfolding decode_prologue validate_deterministic validate_deterministic_with_limits parse_value
    parse_major read_u8 read_exact read_argument read_len consume_allocation parse_text
    parse_payload parse_array parse_values parse_map parse_entries check_key parse_unsigned
    read_wide parse_bytes compare_bytes is_utf8 usize_to_u64 u64_to_usize is_text has_key contains
    from_raw_bytes field as_map required_map as_text required_text as_u64 required_u64_with_overflow
    required_u64 as_bstr required_bstr check_allowed reject_unknown_keys required_checksum
    expect_text_field is_version expect_version_field as_array required_array as_bool required_bool
    bool_eq expect_bool_field parse_simple as_i32 required_i32 empty for_source_with_options decode
    decode_fields decode_values build_metadata chunk_sizes required_choice check_identity
    check_source check_compression check_chunking check_indexes check_integrity check_compatibility
empty_metadata_decodes = refl

decode-IsMetadata_example : IsMetadata empty_metadata
decode-IsMetadata_example =
    decode-IsMetadata empty_metadata_bytes empty_metadata empty_metadata_decodes
