-- ===== src/Schema/BlockRuns.antt =====
-- Runs of the index root, the dictionaries and the documents of src/schema.rs at concrete values.
use qzt.Base.{ℕ, List, [], ◌∷◌, ◌≡◌, refl, replicate, arith, ◌↔◌}
use qzt.Base.Utf8.{is_utf8}
use qzt.Error.{ok}
use qzt.Primitives.{usize_to_u64, u64_to_usize}
use qzt.Cbor.{compare_bytes}
use qzt.Cbor.Parser.{
  validate_deterministic, validate_deterministic_with_limits, parse_value, parse_major,
}
use qzt.Cbor.Parser.{read_u8, read_exact, read_argument, read_len, consume_allocation, parse_text}
use qzt.Cbor.Parser.{parse_payload, parse_array, parse_values, parse_map, parse_entries, check_key}
use qzt.Cbor.Parser.{parse_unsigned, read_wide, parse_bytes, parse_simple}
use qzt.Cbor.Schema.{is_text, has_key, contains}
use qzt.Schema.{from_raw_bytes, field, as_map, required_map, as_text, required_text, as_u64}
use qzt.Schema.{required_u64_with_overflow, required_u64, as_bstr, required_bstr, check_allowed}
use qzt.Schema.{reject_unknown_keys, required_checksum, expect_text_field, is_version}
use qzt.Schema.{
  expect_version_field, decode_prologue, as_array, required_array, as_bool, required_bool,
}
use qzt.Schema.{bool_eq, expect_bool_field, as_bytes, required_bytes, Checksum}
use qzt.Schema.Words
use qzt.Schema.IndexRoot.{decode as decode_root}
use qzt.Schema.Documents.{decode as decode_index}
use qzt.Cbor.{integer_argument}
use qzt.Cbor.Usage.{
  CborUsage, measure_value, measure_entries, measure_values, measure_payload, add_usage,
}
use qzt.Cbor.Usage.{charge_key, enforce_usage, head_len}
use qzt.Limits.{default_limits, cbor_limits}
use qzt.Schema.{checksum_value, u64_value, version_value}
use qzt.Schema.Words.{word_blake3}
use qzt.Schema.IndexRoot.{IndexRoot, chunk_table, new_block, decode_blocks, count_chunk_tables}
use qzt.Schema.IndexRoot.{
  check_count, build_root, decode_block_descriptor, build_block, is_chunk_table, checksum_eq,
}
use qzt.Schema.IndexRoot.Accepted.{IsIndexRoot, decode-IsIndexRoot}
use qzt.Schema.Dictionary.{
  DictionaryBlock, decode_with_limits, decode_entries, decode_dictionary_entry,
}
use qzt.Schema.Dictionary.{u64_to_u32, is_seen, digest}
use qzt.Schema.Dictionary.Accepted.{IsDictionaryBlock, decode_with_limits-IsDictionaryBlock}
use qzt.Schema.Documents.{DocumentEntry, DocumentIndex, new_document, decode_documents}
use qzt.Schema.Documents.{
  decode_document_entry, build_document, map_error, validate_unique_doc_ids, check_unique,
}
use qzt.Schema.Documents.{
  validate_for_writer, charge_documents, value_with_documents, document_entry_value,
}
use qzt.Schema.Documents.{document_values}
use qzt.Schema.Documents.Accepted.{
  IsDocumentIndex, DistinctDocuments, decode-IsDocumentIndex, validate_unique_doc_ids_iff,
}
use qzt.Schema.Documents.Budget.{WithinBudget, validate_for_writer_lem}

-- A stand-in for the digest of the third-party blake3.
abbrev sevens : List ℕ → List ℕ
sevens input = replicate 32 7

abbrev sum : Checksum
sum = record { algorithm = word_blake3; value = replicate 32 7 }

abbrev root : IndexRoot
root = record {
  container_id = replicate 16 9;
  blocks = chunk_table 500 0 sum ∷ [];
  original_size = 0;
  original_checksum = sum;
  chunk_count = 0;
  line_count = 0;
}

abbrev root_bytes : List ℕ
root_bytes =
    165 ∷ 102 ∷ 98 ∷ 108 ∷ 111 ∷ 99 ∷ 107 ∷ 115 ∷ 129 ∷ 167 ∷ 100 ∷ 115 ∷ 105 ∷ 122 ∷ 101 ∷ 0 ∷ 100
    ∷ 116 ∷ 121 ∷ 112 ∷ 101 ∷ 107 ∷ 99 ∷ 104 ∷ 117 ∷ 110 ∷ 107 ∷ 95 ∷ 116 ∷ 97 ∷ 98 ∷ 108 ∷ 101
    ∷ 101 ∷ 99 ∷ 111 ∷ 100 ∷ 101 ∷ 99 ∷ 113 ∷ 113 ∷ 122 ∷ 116 ∷ 45 ∷ 99 ∷ 116 ∷ 98 ∷ 108 ∷ 45 ∷ 102
    ∷ 105 ∷ 120 ∷ 101 ∷ 100 ∷ 45 ∷ 118 ∷ 49 ∷ 101 ∷ 102 ∷ 108 ∷ 97 ∷ 103 ∷ 115 ∷ 0 ∷ 102 ∷ 111 ∷ 102
    ∷ 102 ∷ 115 ∷ 101 ∷ 116 ∷ 25 ∷ 1 ∷ 244 ∷ 104 ∷ 99 ∷ 104 ∷ 101 ∷ 99 ∷ 107 ∷ 115 ∷ 117 ∷ 109 ∷ 162
    ∷ 101 ∷ 118 ∷ 97 ∷ 108 ∷ 117 ∷ 101 ∷ 88 ∷ 32 ∷ 7 ∷ 7 ∷ 7 ∷ 7 ∷ 7 ∷ 7 ∷ 7 ∷ 7 ∷ 7 ∷ 7 ∷ 7 ∷ 7 ∷ 7
    ∷ 7 ∷ 7 ∷ 7 ∷ 7 ∷ 7 ∷ 7 ∷ 7 ∷ 7 ∷ 7 ∷ 7 ∷ 7 ∷ 7 ∷ 7 ∷ 7 ∷ 7 ∷ 7 ∷ 7 ∷ 7 ∷ 7 ∷ 105 ∷ 97 ∷ 108
    ∷ 103 ∷ 111 ∷ 114 ∷ 105 ∷ 116 ∷ 104 ∷ 109 ∷ 102 ∷ 98 ∷ 108 ∷ 97 ∷ 107 ∷ 101 ∷ 51 ∷ 104 ∷ 114
    ∷ 101 ∷ 113 ∷ 117 ∷ 105 ∷ 114 ∷ 101 ∷ 100 ∷ 245 ∷ 102 ∷ 115 ∷ 99 ∷ 104 ∷ 101 ∷ 109 ∷ 97 ∷ 113
    ∷ 113 ∷ 122 ∷ 116 ∷ 46 ∷ 105 ∷ 110 ∷ 100 ∷ 101 ∷ 120 ∷ 45 ∷ 114 ∷ 111 ∷ 111 ∷ 116 ∷ 46 ∷ 118
    ∷ 49 ∷ 103 ∷ 99 ∷ 111 ∷ 110 ∷ 116 ∷ 101 ∷ 110 ∷ 116 ∷ 164 ∷ 106 ∷ 108 ∷ 105 ∷ 110 ∷ 101 ∷ 95
    ∷ 99 ∷ 111 ∷ 117 ∷ 110 ∷ 116 ∷ 0 ∷ 107 ∷ 99 ∷ 104 ∷ 117 ∷ 110 ∷ 107 ∷ 95 ∷ 99 ∷ 111 ∷ 117 ∷ 110
    ∷ 116 ∷ 0 ∷ 109 ∷ 111 ∷ 114 ∷ 105 ∷ 103 ∷ 105 ∷ 110 ∷ 97 ∷ 108 ∷ 95 ∷ 115 ∷ 105 ∷ 122 ∷ 101 ∷ 0
    ∷ 113 ∷ 111 ∷ 114 ∷ 105 ∷ 103 ∷ 105 ∷ 110 ∷ 97 ∷ 108 ∷ 95 ∷ 99 ∷ 104 ∷ 101 ∷ 99 ∷ 107 ∷ 115
    ∷ 117 ∷ 109 ∷ 162 ∷ 101 ∷ 118 ∷ 97 ∷ 108 ∷ 117 ∷ 101 ∷ 88 ∷ 32 ∷ 7 ∷ 7 ∷ 7 ∷ 7 ∷ 7 ∷ 7 ∷ 7 ∷ 7
    ∷ 7 ∷ 7 ∷ 7 ∷ 7 ∷ 7 ∷ 7 ∷ 7 ∷ 7 ∷ 7 ∷ 7 ∷ 7 ∷ 7 ∷ 7 ∷ 7 ∷ 7 ∷ 7 ∷ 7 ∷ 7 ∷ 7 ∷ 7 ∷ 7 ∷ 7 ∷ 7 ∷ 7
    ∷ 105 ∷ 97 ∷ 108 ∷ 103 ∷ 111 ∷ 114 ∷ 105 ∷ 116 ∷ 104 ∷ 109 ∷ 102 ∷ 98 ∷ 108 ∷ 97 ∷ 107 ∷ 101
    ∷ 51 ∷ 108 ∷ 99 ∷ 111 ∷ 110 ∷ 116 ∷ 97 ∷ 105 ∷ 110 ∷ 101 ∷ 114 ∷ 95 ∷ 105 ∷ 100 ∷ 80 ∷ 9 ∷ 9 ∷ 9
    ∷ 9 ∷ 9 ∷ 9 ∷ 9 ∷ 9 ∷ 9 ∷ 9 ∷ 9 ∷ 9 ∷ 9 ∷ 9 ∷ 9 ∷ 9 ∷ 110 ∷ 102 ∷ 111 ∷ 114 ∷ 109 ∷ 97 ∷ 116
    ∷ 95 ∷ 118 ∷ 101 ∷ 114 ∷ 115 ∷ 105 ∷ 111 ∷ 110 ∷ 130 ∷ 0 ∷ 1 ∷ []

root_decodes : decode_root root_bytes ≡ ok root
unfolding decode_prologue validate_deterministic validate_deterministic_with_limits parse_value
    parse_major read_u8 read_exact read_argument read_len consume_allocation parse_text
    parse_payload parse_array parse_values parse_map parse_entries check_key parse_unsigned
    read_wide parse_bytes compare_bytes is_utf8 usize_to_u64 u64_to_usize is_text has_key contains
    from_raw_bytes field as_map required_map as_text required_text as_u64 required_u64_with_overflow
    required_u64 as_bstr required_bstr check_allowed reject_unknown_keys required_checksum
    expect_text_field is_version expect_version_field as_array required_array as_bool required_bool
    bool_eq expect_bool_field parse_simple decode_root chunk_table new_block decode_blocks
    count_chunk_tables check_count build_root decode_block_descriptor build_block is_chunk_table
root_decodes = refl

decode-IsIndexRoot_example : IsIndexRoot root
decode-IsIndexRoot_example = decode-IsIndexRoot root_bytes root root_decodes

abbrev dictionaries : DictionaryBlock
dictionaries = record {
  container_id = replicate 16 9;
  dictionaries =
      record { dictionary_id = 1; codec = Words.word_zstd; bytes = 1 ∷ 2 ∷ []; checksum = sum }
      ∷ record { dictionary_id = 2; codec = Words.word_zstd; bytes = 3 ∷ []; checksum = sum }
      ∷ [];
}

abbrev dictionaries_bytes : List ℕ
dictionaries_bytes =
    164 ∷ 102 ∷ 115 ∷ 99 ∷ 104 ∷ 101 ∷ 109 ∷ 97 ∷ 113 ∷ 113 ∷ 122 ∷ 116 ∷ 46 ∷ 100 ∷ 105 ∷ 99 ∷ 116
    ∷ 105 ∷ 111 ∷ 110 ∷ 97 ∷ 114 ∷ 121 ∷ 46 ∷ 118 ∷ 49 ∷ 108 ∷ 99 ∷ 111 ∷ 110 ∷ 116 ∷ 97 ∷ 105 ∷ 110
    ∷ 101 ∷ 114 ∷ 95 ∷ 105 ∷ 100 ∷ 80 ∷ 9 ∷ 9 ∷ 9 ∷ 9 ∷ 9 ∷ 9 ∷ 9 ∷ 9 ∷ 9 ∷ 9 ∷ 9 ∷ 9 ∷ 9 ∷ 9 ∷ 9
    ∷ 9 ∷ 108 ∷ 100 ∷ 105 ∷ 99 ∷ 116 ∷ 105 ∷ 111 ∷ 110 ∷ 97 ∷ 114 ∷ 105 ∷ 101 ∷ 115 ∷ 130 ∷ 164
    ∷ 101 ∷ 98 ∷ 121 ∷ 116 ∷ 101 ∷ 115 ∷ 66 ∷ 1 ∷ 2 ∷ 101 ∷ 99 ∷ 111 ∷ 100 ∷ 101 ∷ 99 ∷ 100 ∷ 122
    ∷ 115 ∷ 116 ∷ 100 ∷ 104 ∷ 99 ∷ 104 ∷ 101 ∷ 99 ∷ 107 ∷ 115 ∷ 117 ∷ 109 ∷ 162 ∷ 101 ∷ 118 ∷ 97
    ∷ 108 ∷ 117 ∷ 101 ∷ 88 ∷ 32 ∷ 7 ∷ 7 ∷ 7 ∷ 7 ∷ 7 ∷ 7 ∷ 7 ∷ 7 ∷ 7 ∷ 7 ∷ 7 ∷ 7 ∷ 7 ∷ 7 ∷ 7 ∷ 7 ∷ 7
    ∷ 7 ∷ 7 ∷ 7 ∷ 7 ∷ 7 ∷ 7 ∷ 7 ∷ 7 ∷ 7 ∷ 7 ∷ 7 ∷ 7 ∷ 7 ∷ 7 ∷ 7 ∷ 105 ∷ 97 ∷ 108 ∷ 103 ∷ 111 ∷ 114
    ∷ 105 ∷ 116 ∷ 104 ∷ 109 ∷ 102 ∷ 98 ∷ 108 ∷ 97 ∷ 107 ∷ 101 ∷ 51 ∷ 109 ∷ 100 ∷ 105 ∷ 99 ∷ 116
    ∷ 105 ∷ 111 ∷ 110 ∷ 97 ∷ 114 ∷ 121 ∷ 95 ∷ 105 ∷ 100 ∷ 1 ∷ 164 ∷ 101 ∷ 98 ∷ 121 ∷ 116 ∷ 101 ∷ 115
    ∷ 65 ∷ 3 ∷ 101 ∷ 99 ∷ 111 ∷ 100 ∷ 101 ∷ 99 ∷ 100 ∷ 122 ∷ 115 ∷ 116 ∷ 100 ∷ 104 ∷ 99 ∷ 104 ∷ 101
    ∷ 99 ∷ 107 ∷ 115 ∷ 117 ∷ 109 ∷ 162 ∷ 101 ∷ 118 ∷ 97 ∷ 108 ∷ 117 ∷ 101 ∷ 88 ∷ 32 ∷ 7 ∷ 7 ∷ 7 ∷ 7
    ∷ 7 ∷ 7 ∷ 7 ∷ 7 ∷ 7 ∷ 7 ∷ 7 ∷ 7 ∷ 7 ∷ 7 ∷ 7 ∷ 7 ∷ 7 ∷ 7 ∷ 7 ∷ 7 ∷ 7 ∷ 7 ∷ 7 ∷ 7 ∷ 7 ∷ 7 ∷ 7 ∷ 7
    ∷ 7 ∷ 7 ∷ 7 ∷ 7 ∷ 105 ∷ 97 ∷ 108 ∷ 103 ∷ 111 ∷ 114 ∷ 105 ∷ 116 ∷ 104 ∷ 109 ∷ 102 ∷ 98 ∷ 108 ∷ 97
    ∷ 107 ∷ 101 ∷ 51 ∷ 109 ∷ 100 ∷ 105 ∷ 99 ∷ 116 ∷ 105 ∷ 111 ∷ 110 ∷ 97 ∷ 114 ∷ 121 ∷ 95 ∷ 105
    ∷ 100 ∷ 2 ∷ 110 ∷ 102 ∷ 111 ∷ 114 ∷ 109 ∷ 97 ∷ 116 ∷ 95 ∷ 118 ∷ 101 ∷ 114 ∷ 115 ∷ 105 ∷ 111
    ∷ 110 ∷ 130 ∷ 0 ∷ 1 ∷ []

dictionaries_decode : decode_with_limits sevens dictionaries_bytes 16 ≡ ok dictionaries
unfolding decode_prologue validate_deterministic validate_deterministic_with_limits parse_value
    parse_major read_u8 read_exact read_argument read_len consume_allocation parse_text
    parse_payload parse_array parse_values parse_map parse_entries check_key parse_unsigned
    read_wide parse_bytes compare_bytes is_utf8 usize_to_u64 u64_to_usize is_text has_key contains
    from_raw_bytes field as_map required_map as_text required_text as_u64 required_u64_with_overflow
    required_u64 as_bstr required_bstr check_allowed reject_unknown_keys required_checksum
    expect_text_field is_version expect_version_field as_array required_array as_bool required_bool
    bool_eq expect_bool_field decode_with_limits decode_entries decode_dictionary_entry u64_to_u32
    is_seen digest as_bytes required_bytes checksum_eq
dictionaries_decode = refl

decode_with_limits-IsDictionaryBlock_example : IsDictionaryBlock sevens 16 dictionaries
decode_with_limits-IsDictionaryBlock_example =
    decode_with_limits-IsDictionaryBlock sevens dictionaries_bytes 16 dictionaries
      dictionaries_decode

abbrev document : ℕ → DocumentEntry
document letter = new_document sevens (letter ∷ []) 0 5 0 1 0 1 sum

abbrev index : DocumentIndex
index = record { container_id = replicate 16 9; documents = document b'a' ∷ document b'b' ∷ [] }

abbrev index_bytes : List ℕ
index_bytes =
    164 ∷ 102 ∷ 115 ∷ 99 ∷ 104 ∷ 101 ∷ 109 ∷ 97 ∷ 117 ∷ 113 ∷ 122 ∷ 116 ∷ 46 ∷ 100 ∷ 111 ∷ 99 ∷ 117
    ∷ 109 ∷ 101 ∷ 110 ∷ 116 ∷ 45 ∷ 105 ∷ 110 ∷ 100 ∷ 101 ∷ 120 ∷ 46 ∷ 118 ∷ 49 ∷ 105 ∷ 100 ∷ 111
    ∷ 99 ∷ 117 ∷ 109 ∷ 101 ∷ 110 ∷ 116 ∷ 115 ∷ 130 ∷ 170 ∷ 102 ∷ 100 ∷ 111 ∷ 99 ∷ 95 ∷ 105 ∷ 100
    ∷ 97 ∷ 97 ∷ 104 ∷ 99 ∷ 104 ∷ 101 ∷ 99 ∷ 107 ∷ 115 ∷ 117 ∷ 109 ∷ 162 ∷ 101 ∷ 118 ∷ 97 ∷ 108 ∷ 117
    ∷ 101 ∷ 88 ∷ 32 ∷ 7 ∷ 7 ∷ 7 ∷ 7 ∷ 7 ∷ 7 ∷ 7 ∷ 7 ∷ 7 ∷ 7 ∷ 7 ∷ 7 ∷ 7 ∷ 7 ∷ 7 ∷ 7 ∷ 7 ∷ 7 ∷ 7 ∷ 7
    ∷ 7 ∷ 7 ∷ 7 ∷ 7 ∷ 7 ∷ 7 ∷ 7 ∷ 7 ∷ 7 ∷ 7 ∷ 7 ∷ 7 ∷ 105 ∷ 97 ∷ 108 ∷ 103 ∷ 111 ∷ 114 ∷ 105 ∷ 116
    ∷ 104 ∷ 109 ∷ 102 ∷ 98 ∷ 108 ∷ 97 ∷ 107 ∷ 101 ∷ 51 ∷ 104 ∷ 109 ∷ 101 ∷ 116 ∷ 97 ∷ 100 ∷ 97 ∷ 116
    ∷ 97 ∷ 160 ∷ 105 ∷ 99 ∷ 104 ∷ 117 ∷ 110 ∷ 107 ∷ 95 ∷ 101 ∷ 110 ∷ 100 ∷ 1 ∷ 106 ∷ 102 ∷ 105 ∷ 114
    ∷ 115 ∷ 116 ∷ 95 ∷ 108 ∷ 105 ∷ 110 ∷ 101 ∷ 0 ∷ 106 ∷ 108 ∷ 105 ∷ 110 ∷ 101 ∷ 95 ∷ 99 ∷ 111 ∷ 117
    ∷ 110 ∷ 116 ∷ 1 ∷ 107 ∷ 98 ∷ 121 ∷ 116 ∷ 101 ∷ 95 ∷ 108 ∷ 101 ∷ 110 ∷ 103 ∷ 116 ∷ 104 ∷ 5 ∷ 107
    ∷ 99 ∷ 104 ∷ 117 ∷ 110 ∷ 107 ∷ 95 ∷ 115 ∷ 116 ∷ 97 ∷ 114 ∷ 116 ∷ 0 ∷ 107 ∷ 100 ∷ 111 ∷ 99 ∷ 95
    ∷ 105 ∷ 100 ∷ 95 ∷ 104 ∷ 97 ∷ 115 ∷ 104 ∷ 80 ∷ 7 ∷ 7 ∷ 7 ∷ 7 ∷ 7 ∷ 7 ∷ 7 ∷ 7 ∷ 7 ∷ 7 ∷ 7 ∷ 7 ∷ 7
    ∷ 7 ∷ 7 ∷ 7 ∷ 110 ∷ 108 ∷ 111 ∷ 103 ∷ 105 ∷ 99 ∷ 97 ∷ 108 ∷ 95 ∷ 111 ∷ 102 ∷ 102 ∷ 115 ∷ 101
    ∷ 116 ∷ 0 ∷ 170 ∷ 102 ∷ 100 ∷ 111 ∷ 99 ∷ 95 ∷ 105 ∷ 100 ∷ 97 ∷ 98 ∷ 104 ∷ 99 ∷ 104 ∷ 101 ∷ 99
    ∷ 107 ∷ 115 ∷ 117 ∷ 109 ∷ 162 ∷ 101 ∷ 118 ∷ 97 ∷ 108 ∷ 117 ∷ 101 ∷ 88 ∷ 32 ∷ 7 ∷ 7 ∷ 7 ∷ 7 ∷ 7
    ∷ 7 ∷ 7 ∷ 7 ∷ 7 ∷ 7 ∷ 7 ∷ 7 ∷ 7 ∷ 7 ∷ 7 ∷ 7 ∷ 7 ∷ 7 ∷ 7 ∷ 7 ∷ 7 ∷ 7 ∷ 7 ∷ 7 ∷ 7 ∷ 7 ∷ 7 ∷ 7 ∷ 7
    ∷ 7 ∷ 7 ∷ 7 ∷ 105 ∷ 97 ∷ 108 ∷ 103 ∷ 111 ∷ 114 ∷ 105 ∷ 116 ∷ 104 ∷ 109 ∷ 102 ∷ 98 ∷ 108 ∷ 97
    ∷ 107 ∷ 101 ∷ 51 ∷ 104 ∷ 109 ∷ 101 ∷ 116 ∷ 97 ∷ 100 ∷ 97 ∷ 116 ∷ 97 ∷ 160 ∷ 105 ∷ 99 ∷ 104 ∷ 117
    ∷ 110 ∷ 107 ∷ 95 ∷ 101 ∷ 110 ∷ 100 ∷ 1 ∷ 106 ∷ 102 ∷ 105 ∷ 114 ∷ 115 ∷ 116 ∷ 95 ∷ 108 ∷ 105
    ∷ 110 ∷ 101 ∷ 0 ∷ 106 ∷ 108 ∷ 105 ∷ 110 ∷ 101 ∷ 95 ∷ 99 ∷ 111 ∷ 117 ∷ 110 ∷ 116 ∷ 1 ∷ 107 ∷ 98
    ∷ 121 ∷ 116 ∷ 101 ∷ 95 ∷ 108 ∷ 101 ∷ 110 ∷ 103 ∷ 116 ∷ 104 ∷ 5 ∷ 107 ∷ 99 ∷ 104 ∷ 117 ∷ 110
    ∷ 107 ∷ 95 ∷ 115 ∷ 116 ∷ 97 ∷ 114 ∷ 116 ∷ 0 ∷ 107 ∷ 100 ∷ 111 ∷ 99 ∷ 95 ∷ 105 ∷ 100 ∷ 95 ∷ 104
    ∷ 97 ∷ 115 ∷ 104 ∷ 80 ∷ 7 ∷ 7 ∷ 7 ∷ 7 ∷ 7 ∷ 7 ∷ 7 ∷ 7 ∷ 7 ∷ 7 ∷ 7 ∷ 7 ∷ 7 ∷ 7 ∷ 7 ∷ 7 ∷ 110
    ∷ 108 ∷ 111 ∷ 103 ∷ 105 ∷ 99 ∷ 97 ∷ 108 ∷ 95 ∷ 111 ∷ 102 ∷ 102 ∷ 115 ∷ 101 ∷ 116 ∷ 0 ∷ 108 ∷ 99
    ∷ 111 ∷ 110 ∷ 116 ∷ 97 ∷ 105 ∷ 110 ∷ 101 ∷ 114 ∷ 95 ∷ 105 ∷ 100 ∷ 80 ∷ 9 ∷ 9 ∷ 9 ∷ 9 ∷ 9 ∷ 9 ∷ 9
    ∷ 9 ∷ 9 ∷ 9 ∷ 9 ∷ 9 ∷ 9 ∷ 9 ∷ 9 ∷ 9 ∷ 110 ∷ 102 ∷ 111 ∷ 114 ∷ 109 ∷ 97 ∷ 116 ∷ 95 ∷ 118 ∷ 101
    ∷ 114 ∷ 115 ∷ 105 ∷ 111 ∷ 110 ∷ 130 ∷ 0 ∷ 1 ∷ []

index_decodes : decode_index index_bytes ≡ ok index
unfolding decode_prologue validate_deterministic validate_deterministic_with_limits parse_value
    parse_major read_u8 read_exact read_argument read_len consume_allocation parse_text
    parse_payload parse_array parse_values parse_map parse_entries check_key parse_unsigned
    read_wide parse_bytes compare_bytes is_utf8 usize_to_u64 u64_to_usize is_text has_key contains
    from_raw_bytes field as_map required_map as_text required_text as_u64 required_u64_with_overflow
    required_u64 as_bstr required_bstr check_allowed reject_unknown_keys required_checksum
    expect_text_field is_version expect_version_field as_array required_array as_bool required_bool
    bool_eq expect_bool_field decode_index decode_documents decode_document_entry build_document
    map_error validate_unique_doc_ids check_unique new_document
index_decodes = refl

decode-IsDocumentIndex_example : IsDocumentIndex index
decode-IsDocumentIndex_example = decode-IsDocumentIndex index_bytes index index_decodes

validate_unique_doc_ids_iff_example :
    (validate_unique_doc_ids index ≡ ok tt) ↔ DistinctDocuments index.documents
validate_unique_doc_ids_iff_example = validate_unique_doc_ids_iff index

index_within : validate_for_writer index default_limits ≡ ok tt
unfolding validate_for_writer charge_documents value_with_documents document_entry_value
    measure_value measure_entries measure_values measure_payload add_usage charge_key enforce_usage
    head_len usize_to_u64 cbor_limits checksum_value u64_value version_value new_document
    integer_argument
index_within = refl

validate_for_writer_lem_example :
    (usage : CborUsage) × (measure_value
        (value_with_documents index (document_values index.documents))
      ≡ ok usage)
    × WithinBudget default_limits usage
validate_for_writer_lem_example =
    validate_for_writer_lem index default_limits (omega arith) (omega arith) (omega arith)
      index_within
