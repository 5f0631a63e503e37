-- ===== src/Skeleton/Sample.antt =====
-- A concrete container with all of its optional blocks, and what opening it gives.
use qzt.Base.Utf8.{lead, utf8_from, is_utf8}
use qzt.Primitives.{usize_to_u64, u64_to_usize, read_u16_le, read_u32_le, read_u64_le}
use qzt.Primitives.{checked_logical_end, checked_physical_end}
use qzt.Limits.{enforce_index_block_size, enforce_chunk_sizes, cbor_limits}
use qzt.Fixed.{decode_fixed_prologue, read_array, any_nonzero, decode_header, decode_trailer}
use qzt.Fixed.{range_end, is_inside_file, overlaps, check_fixed, key_le, insert_range}
use qzt.Fixed.{sort_by_key, check_adjacent, validate_physical_ranges}
use qzt.ChunkTable.{read_checksum, decode as decode_chunk, decode_records, has_unknown_flags}
use qzt.ChunkTable.{check_entry, check_entries, check_table, validate_chunk_table_block}
use qzt.Varuint.{read_varuint_loop, read_varuint}
use qzt.DenseLineIndex.{allocation_bytes, offset_of, decode_offsets}
use qzt.DenseLineIndex.{decode_entries as decode_entries_dense, decode_for_chunks_with_limit}
use qzt.Cbor.Parser.{read_u8, read_exact, consume_allocation, read_wide, read_argument, read_len}
use qzt.Cbor.Parser.{parse_payload, parse_bytes, parse_text, parse_values, parse_array, check_key}
use qzt.Cbor.Parser.{parse_entries, parse_map, parse_simple, parse_unsigned, parse_negative}
use qzt.Cbor.Parser.{parse_major, parse_value, validate_deterministic_with_limits}
use qzt.Cbor.Parser.{validate_deterministic}
use qzt.Cbor.Schema.{is_text, has_key, contains}
use qzt.Schema.{from_raw_bytes, as_map, field, required_map, as_text, required_text, as_u64}
use qzt.Schema.{required_u64_with_overflow, required_u64, as_bstr, required_bstr, check_allowed}
use qzt.Schema.{reject_unknown_keys, required_checksum, optional_checksum, required_block_ref}
use qzt.Schema.{expect_text_field, as_array, required_array, as_bool, required_bool, as_i32}
use qzt.Schema.{required_i32, as_bytes, required_bytes, bool_eq, expect_bool_field, is_version}
use qzt.Schema.{expect_version_field, decode_prologue}
use qzt.Schema.Footer.{decode_fields as decode_fields_footer, decode as decode_footer}
use qzt.Schema.Metadata.Decode.{check_identity, check_source, check_compression, check_chunking}
use qzt.Schema.Metadata.Decode.{check_indexes, check_integrity, check_compatibility}
use qzt.Schema.Metadata.Decode.{required_choice, chunk_sizes, build_metadata, decode_values}
use qzt.Schema.Metadata.Decode.{decode_fields as decode_fields_metadata}
use qzt.Schema.Metadata.Decode.{decode as decode_metadata}
use qzt.Schema.IndexRoot.{is_chunk_table, build_block, decode_block_descriptor, decode_blocks}
use qzt.Schema.IndexRoot.{count_chunk_tables, check_count, build_root, decode as decode_root}
use qzt.Schema.IndexRoot.{find_chunk_table, chunk_table_block, checksum_eq}
use qzt.Schema.IndexRoot.{validate_source_consistency}
use qzt.Schema.Dictionary.{u64_to_u32, is_seen, digest, decode_dictionary_entry}
use qzt.Schema.Dictionary.{decode_entries as decode_entries_dictionary, decode_with_limits}
use qzt.Schema.Documents.{new_document, check_unique, validate_unique_doc_ids, build_document}
use qzt.Schema.Documents.{decode_document_entry, decode_documents, map_error}
use qzt.Schema.Documents.{decode as decode_document_index}
use qzt.Io.{get_range}
use qzt.Skeleton.{lookup_id, is_none, insert_first, build_from, build_document_lookup}
use qzt.Skeleton.{slice_physical, memory_source}
use qzt.Skeleton.Blocks.{blocks_of, has_dictionary, push_dictionaries}
use qzt.Skeleton.Blocks.{validate_required_dictionaries, is_some, read_dictionary_block}
use qzt.Skeleton.Blocks.{dictionary_loop, parse_dictionary_blocks, read_dense_block, dense_loop}
use qzt.Skeleton.Blocks.{parse_dense_line_index, read_document_block, document_loop}
use qzt.Skeleton.Blocks.{parse_document_index}
use qzt.Skeleton.Open.{enforce_blocks, enforce_entries, extra_ranges, physical_ranges}
use qzt.Skeleton.Open.{open_footer, open_metadata, open_index_root, open_chunk_table, open_blocks}
use qzt.Skeleton.Open.{open_body, check_length, open_skeleton_details_with_limits}
use qzt.Cbor.{compare_bytes}
use qzt.Base.{ℕ, List, [], ◌∷◌, ◌≡◌, refl, replicate, true, some, none}
use qzt.Base.{pos}
use qzt.Error.{ok}
use qzt.Limits.{default_limits}
use qzt.ChunkTable.{ChunkEntry}
use qzt.DenseLineIndex.{DenseLineIndex}
use qzt.Schema.{Checksum, BlockRef}
use qzt.Schema.Words
use qzt.Schema.Words.{word_blake3}
use qzt.Schema.Footer.{FooterPayload}
use qzt.Schema.Metadata.{Metadata}
use qzt.Schema.Documents.{DocumentEntry, DocumentIndex}
use qzt.Skeleton.{SkeletonDetails}

-- A stand-in for the digest of the third-party blake3.
abbrev pub sevens : List ℕ → List ℕ
sevens input = replicate 32 7

abbrev pub sum : Checksum
sum = record { algorithm = word_blake3; value = replicate 32 7 }

abbrev pub container : List ℕ
container =
    81 ∷ 90 ∷ 84 ∷ 0 ∷ 84 ∷ 88 ∷ 84 ∷ 49 ∷ 0 ∷ 0 ∷ 1 ∷ 0 ∷ 128 ∷ 0 ∷ 0 ∷ 0 ∷ 0 ∷ 0 ∷ 0 ∷ 0 ∷ 0 ∷ 0
    ∷ 0 ∷ 0 ∷ 128 ∷ 0 ∷ 0 ∷ 0 ∷ 0 ∷ 0 ∷ 0 ∷ 0 ∷ 29 ∷ 3 ∷ 0 ∷ 0 ∷ 0 ∷ 0 ∷ 0 ∷ 0 ∷ 37 ∷ 7 ∷ 0 ∷ 0 ∷ 0
    ∷ 0 ∷ 0 ∷ 0 ∷ 9 ∷ 9 ∷ 9 ∷ 9 ∷ 9 ∷ 9 ∷ 9 ∷ 9 ∷ 9 ∷ 9 ∷ 9 ∷ 9 ∷ 9 ∷ 9 ∷ 9 ∷ 9 ∷ 0 ∷ 0 ∷ 0 ∷ 0 ∷ 0
    ∷ 0 ∷ 0 ∷ 0 ∷ 0 ∷ 0 ∷ 0 ∷ 0 ∷ 0 ∷ 0 ∷ 0 ∷ 0 ∷ 0 ∷ 0 ∷ 0 ∷ 0 ∷ 0 ∷ 0 ∷ 0 ∷ 0 ∷ 0 ∷ 0 ∷ 0 ∷ 0 ∷ 0
    ∷ 0 ∷ 0 ∷ 0 ∷ 0 ∷ 0 ∷ 0 ∷ 0 ∷ 0 ∷ 0 ∷ 0 ∷ 0 ∷ 0 ∷ 0 ∷ 0 ∷ 0 ∷ 0 ∷ 0 ∷ 0 ∷ 0 ∷ 0 ∷ 0 ∷ 0 ∷ 0 ∷ 0
    ∷ 0 ∷ 0 ∷ 0 ∷ 0 ∷ 0 ∷ 0 ∷ 0 ∷ 0 ∷ 0 ∷ 0 ∷ 0 ∷ 171 ∷ 102 ∷ 102 ∷ 111 ∷ 114 ∷ 109 ∷ 97 ∷ 116 ∷ 99
    ∷ 113 ∷ 122 ∷ 116 ∷ 102 ∷ 115 ∷ 99 ∷ 104 ∷ 101 ∷ 109 ∷ 97 ∷ 111 ∷ 113 ∷ 122 ∷ 116 ∷ 46 ∷ 109
    ∷ 101 ∷ 116 ∷ 97 ∷ 100 ∷ 97 ∷ 116 ∷ 97 ∷ 46 ∷ 118 ∷ 49 ∷ 102 ∷ 115 ∷ 111 ∷ 117 ∷ 114 ∷ 99 ∷ 101
    ∷ 166 ∷ 104 ∷ 101 ∷ 110 ∷ 99 ∷ 111 ∷ 100 ∷ 105 ∷ 110 ∷ 103 ∷ 101 ∷ 117 ∷ 116 ∷ 102 ∷ 45 ∷ 56
    ∷ 106 ∷ 108 ∷ 105 ∷ 110 ∷ 101 ∷ 95 ∷ 99 ∷ 111 ∷ 117 ∷ 110 ∷ 116 ∷ 2 ∷ 106 ∷ 109 ∷ 101 ∷ 100
    ∷ 105 ∷ 97 ∷ 95 ∷ 116 ∷ 121 ∷ 112 ∷ 101 ∷ 100 ∷ 116 ∷ 101 ∷ 120 ∷ 116 ∷ 108 ∷ 110 ∷ 101 ∷ 119
    ∷ 108 ∷ 105 ∷ 110 ∷ 101 ∷ 95 ∷ 109 ∷ 111 ∷ 100 ∷ 101 ∷ 98 ∷ 108 ∷ 102 ∷ 109 ∷ 111 ∷ 114 ∷ 105
    ∷ 103 ∷ 105 ∷ 110 ∷ 97 ∷ 108 ∷ 95 ∷ 115 ∷ 105 ∷ 122 ∷ 101 ∷ 4 ∷ 113 ∷ 111 ∷ 114 ∷ 105 ∷ 103
    ∷ 105 ∷ 110 ∷ 97 ∷ 108 ∷ 95 ∷ 99 ∷ 104 ∷ 101 ∷ 99 ∷ 107 ∷ 115 ∷ 117 ∷ 109 ∷ 162 ∷ 101 ∷ 118 ∷ 97
    ∷ 108 ∷ 117 ∷ 101 ∷ 88 ∷ 32 ∷ 7 ∷ 7 ∷ 7 ∷ 7 ∷ 7 ∷ 7 ∷ 7 ∷ 7 ∷ 7 ∷ 7 ∷ 7 ∷ 7 ∷ 7 ∷ 7 ∷ 7 ∷ 7 ∷ 7
    ∷ 7 ∷ 7 ∷ 7 ∷ 7 ∷ 7 ∷ 7 ∷ 7 ∷ 7 ∷ 7 ∷ 7 ∷ 7 ∷ 7 ∷ 7 ∷ 7 ∷ 7 ∷ 105 ∷ 97 ∷ 108 ∷ 103 ∷ 111 ∷ 114
    ∷ 105 ∷ 116 ∷ 104 ∷ 109 ∷ 102 ∷ 98 ∷ 108 ∷ 97 ∷ 107 ∷ 101 ∷ 51 ∷ 103 ∷ 105 ∷ 110 ∷ 100 ∷ 101
    ∷ 120 ∷ 101 ∷ 115 ∷ 167 ∷ 107 ∷ 99 ∷ 104 ∷ 117 ∷ 110 ∷ 107 ∷ 95 ∷ 116 ∷ 97 ∷ 98 ∷ 108 ∷ 101
    ∷ 245 ∷ 107 ∷ 110 ∷ 103 ∷ 114 ∷ 97 ∷ 109 ∷ 95 ∷ 105 ∷ 110 ∷ 100 ∷ 101 ∷ 120 ∷ 244 ∷ 107 ∷ 116
    ∷ 111 ∷ 107 ∷ 101 ∷ 110 ∷ 95 ∷ 105 ∷ 110 ∷ 100 ∷ 101 ∷ 120 ∷ 244 ∷ 108 ∷ 118 ∷ 101 ∷ 99 ∷ 116
    ∷ 111 ∷ 114 ∷ 95 ∷ 105 ∷ 110 ∷ 100 ∷ 101 ∷ 120 ∷ 244 ∷ 110 ∷ 100 ∷ 111 ∷ 99 ∷ 117 ∷ 109 ∷ 101
    ∷ 110 ∷ 116 ∷ 95 ∷ 105 ∷ 110 ∷ 100 ∷ 101 ∷ 120 ∷ 245 ∷ 112 ∷ 100 ∷ 101 ∷ 110 ∷ 115 ∷ 101 ∷ 95
    ∷ 108 ∷ 105 ∷ 110 ∷ 101 ∷ 95 ∷ 105 ∷ 110 ∷ 100 ∷ 101 ∷ 120 ∷ 245 ∷ 113 ∷ 115 ∷ 112 ∷ 97 ∷ 114
    ∷ 115 ∷ 101 ∷ 95 ∷ 108 ∷ 105 ∷ 110 ∷ 101 ∷ 95 ∷ 105 ∷ 110 ∷ 100 ∷ 101 ∷ 120 ∷ 245 ∷ 104 ∷ 99
    ∷ 104 ∷ 117 ∷ 110 ∷ 107 ∷ 105 ∷ 110 ∷ 103 ∷ 164 ∷ 104 ∷ 98 ∷ 111 ∷ 117 ∷ 110 ∷ 100 ∷ 97 ∷ 114
    ∷ 121 ∷ 110 ∷ 108 ∷ 105 ∷ 110 ∷ 101 ∷ 45 ∷ 112 ∷ 114 ∷ 101 ∷ 102 ∷ 101 ∷ 114 ∷ 114 ∷ 101 ∷ 100
    ∷ 110 ∷ 109 ∷ 97 ∷ 120 ∷ 95 ∷ 99 ∷ 104 ∷ 117 ∷ 110 ∷ 107 ∷ 95 ∷ 115 ∷ 105 ∷ 122 ∷ 101 ∷ 26 ∷ 1
    ∷ 0 ∷ 0 ∷ 0 ∷ 113 ∷ 116 ∷ 97 ∷ 114 ∷ 103 ∷ 101 ∷ 116 ∷ 95 ∷ 99 ∷ 104 ∷ 117 ∷ 110 ∷ 107 ∷ 95
    ∷ 115 ∷ 105 ∷ 122 ∷ 101 ∷ 26 ∷ 0 ∷ 64 ∷ 0 ∷ 0 ∷ 118 ∷ 117 ∷ 116 ∷ 102 ∷ 56 ∷ 95 ∷ 98 ∷ 111 ∷ 117
    ∷ 110 ∷ 100 ∷ 97 ∷ 114 ∷ 121 ∷ 95 ∷ 114 ∷ 101 ∷ 113 ∷ 117 ∷ 105 ∷ 114 ∷ 101 ∷ 100 ∷ 245 ∷ 104
    ∷ 105 ∷ 100 ∷ 101 ∷ 110 ∷ 116 ∷ 105 ∷ 116 ∷ 121 ∷ 164 ∷ 100 ∷ 110 ∷ 97 ∷ 109 ∷ 101 ∷ 246 ∷ 103
    ∷ 112 ∷ 114 ∷ 111 ∷ 102 ∷ 105 ∷ 108 ∷ 101 ∷ 100 ∷ 99 ∷ 111 ∷ 114 ∷ 101 ∷ 106 ∷ 99 ∷ 114 ∷ 101
    ∷ 97 ∷ 116 ∷ 101 ∷ 100 ∷ 95 ∷ 98 ∷ 121 ∷ 99 ∷ 113 ∷ 122 ∷ 116 ∷ 114 ∷ 99 ∷ 114 ∷ 101 ∷ 97 ∷ 116
    ∷ 101 ∷ 100 ∷ 95 ∷ 97 ∷ 116 ∷ 95 ∷ 117 ∷ 110 ∷ 105 ∷ 120 ∷ 95 ∷ 109 ∷ 115 ∷ 246 ∷ 105 ∷ 105
    ∷ 110 ∷ 116 ∷ 101 ∷ 103 ∷ 114 ∷ 105 ∷ 116 ∷ 121 ∷ 163 ∷ 110 ∷ 105 ∷ 110 ∷ 100 ∷ 101 ∷ 120 ∷ 95
    ∷ 99 ∷ 104 ∷ 101 ∷ 99 ∷ 107 ∷ 115 ∷ 117 ∷ 109 ∷ 102 ∷ 98 ∷ 108 ∷ 97 ∷ 107 ∷ 101 ∷ 51 ∷ 120 ∷ 25
    ∷ 99 ∷ 111 ∷ 109 ∷ 112 ∷ 114 ∷ 101 ∷ 115 ∷ 115 ∷ 101 ∷ 100 ∷ 95 ∷ 99 ∷ 104 ∷ 117 ∷ 110 ∷ 107
    ∷ 95 ∷ 99 ∷ 104 ∷ 101 ∷ 99 ∷ 107 ∷ 115 ∷ 117 ∷ 109 ∷ 102 ∷ 98 ∷ 108 ∷ 97 ∷ 107 ∷ 101 ∷ 51 ∷ 120
    ∷ 27 ∷ 117 ∷ 110 ∷ 99 ∷ 111 ∷ 109 ∷ 112 ∷ 114 ∷ 101 ∷ 115 ∷ 115 ∷ 101 ∷ 100 ∷ 95 ∷ 99 ∷ 104
    ∷ 117 ∷ 110 ∷ 107 ∷ 95 ∷ 99 ∷ 104 ∷ 101 ∷ 99 ∷ 107 ∷ 115 ∷ 117 ∷ 109 ∷ 102 ∷ 98 ∷ 108 ∷ 97 ∷ 107
    ∷ 101 ∷ 51 ∷ 107 ∷ 99 ∷ 111 ∷ 109 ∷ 112 ∷ 114 ∷ 101 ∷ 115 ∷ 115 ∷ 105 ∷ 111 ∷ 110 ∷ 165 ∷ 101
    ∷ 99 ∷ 111 ∷ 100 ∷ 101 ∷ 99 ∷ 100 ∷ 122 ∷ 115 ∷ 116 ∷ 100 ∷ 106 ∷ 122 ∷ 115 ∷ 116 ∷ 100 ∷ 95
    ∷ 108 ∷ 101 ∷ 118 ∷ 101 ∷ 108 ∷ 0 ∷ 111 ∷ 100 ∷ 105 ∷ 99 ∷ 116 ∷ 105 ∷ 111 ∷ 110 ∷ 97 ∷ 114
    ∷ 121 ∷ 95 ∷ 109 ∷ 111 ∷ 100 ∷ 101 ∷ 104 ∷ 101 ∷ 109 ∷ 98 ∷ 101 ∷ 100 ∷ 100 ∷ 101 ∷ 100 ∷ 114
    ∷ 105 ∷ 110 ∷ 100 ∷ 101 ∷ 112 ∷ 101 ∷ 110 ∷ 100 ∷ 101 ∷ 110 ∷ 116 ∷ 95 ∷ 102 ∷ 114 ∷ 97 ∷ 109
    ∷ 101 ∷ 115 ∷ 245 ∷ 115 ∷ 122 ∷ 115 ∷ 116 ∷ 100 ∷ 95 ∷ 102 ∷ 114 ∷ 97 ∷ 109 ∷ 101 ∷ 95 ∷ 99
    ∷ 104 ∷ 101 ∷ 99 ∷ 107 ∷ 115 ∷ 117 ∷ 109 ∷ 244 ∷ 108 ∷ 99 ∷ 111 ∷ 110 ∷ 116 ∷ 97 ∷ 105 ∷ 110
    ∷ 101 ∷ 114 ∷ 95 ∷ 105 ∷ 100 ∷ 80 ∷ 9 ∷ 9 ∷ 9 ∷ 9 ∷ 9 ∷ 9 ∷ 9 ∷ 9 ∷ 9 ∷ 9 ∷ 9 ∷ 9 ∷ 9 ∷ 9 ∷ 9
    ∷ 9 ∷ 109 ∷ 99 ∷ 111 ∷ 109 ∷ 112 ∷ 97 ∷ 116 ∷ 105 ∷ 98 ∷ 105 ∷ 108 ∷ 105 ∷ 116 ∷ 121 ∷ 162 ∷ 113
    ∷ 113 ∷ 122 ∷ 116 ∷ 95 ∷ 105 ∷ 115 ∷ 95 ∷ 122 ∷ 115 ∷ 116 ∷ 95 ∷ 115 ∷ 116 ∷ 114 ∷ 101 ∷ 97
    ∷ 109 ∷ 244 ∷ 120 ∷ 34 ∷ 99 ∷ 104 ∷ 117 ∷ 110 ∷ 107 ∷ 115 ∷ 95 ∷ 97 ∷ 114 ∷ 101 ∷ 95 ∷ 105 ∷ 110
    ∷ 100 ∷ 101 ∷ 112 ∷ 101 ∷ 110 ∷ 100 ∷ 101 ∷ 110 ∷ 116 ∷ 95 ∷ 122 ∷ 115 ∷ 116 ∷ 100 ∷ 95 ∷ 102
    ∷ 114 ∷ 97 ∷ 109 ∷ 101 ∷ 115 ∷ 245 ∷ 110 ∷ 102 ∷ 111 ∷ 114 ∷ 109 ∷ 97 ∷ 116 ∷ 95 ∷ 118 ∷ 101
    ∷ 114 ∷ 115 ∷ 105 ∷ 111 ∷ 110 ∷ 130 ∷ 0 ∷ 1 ∷ 5 ∷ 6 ∷ 7 ∷ 0 ∷ 0 ∷ 0 ∷ 0 ∷ 0 ∷ 0 ∷ 0 ∷ 0 ∷ 157
    ∷ 3 ∷ 0 ∷ 0 ∷ 0 ∷ 0 ∷ 0 ∷ 0 ∷ 3 ∷ 0 ∷ 0 ∷ 0 ∷ 0 ∷ 0 ∷ 0 ∷ 0 ∷ 0 ∷ 0 ∷ 0 ∷ 0 ∷ 0 ∷ 0 ∷ 0 ∷ 0 ∷ 4
    ∷ 0 ∷ 0 ∷ 0 ∷ 0 ∷ 0 ∷ 0 ∷ 0 ∷ 0 ∷ 0 ∷ 0 ∷ 0 ∷ 0 ∷ 0 ∷ 0 ∷ 0 ∷ 2 ∷ 0 ∷ 0 ∷ 0 ∷ 0 ∷ 0 ∷ 0 ∷ 0 ∷ 1
    ∷ 0 ∷ 0 ∷ 0 ∷ 0 ∷ 0 ∷ 0 ∷ 0 ∷ 7 ∷ 7 ∷ 7 ∷ 7 ∷ 7 ∷ 7 ∷ 7 ∷ 7 ∷ 7 ∷ 7 ∷ 7 ∷ 7 ∷ 7 ∷ 7 ∷ 7 ∷ 7 ∷ 7
    ∷ 7 ∷ 7 ∷ 7 ∷ 7 ∷ 7 ∷ 7 ∷ 7 ∷ 7 ∷ 7 ∷ 7 ∷ 7 ∷ 7 ∷ 7 ∷ 7 ∷ 7 ∷ 7 ∷ 7 ∷ 7 ∷ 7 ∷ 7 ∷ 7 ∷ 7 ∷ 7 ∷ 7
    ∷ 7 ∷ 7 ∷ 7 ∷ 7 ∷ 7 ∷ 7 ∷ 7 ∷ 7 ∷ 7 ∷ 7 ∷ 7 ∷ 7 ∷ 7 ∷ 7 ∷ 7 ∷ 7 ∷ 7 ∷ 7 ∷ 7 ∷ 7 ∷ 7 ∷ 7 ∷ 7
    ∷ 164 ∷ 102 ∷ 115 ∷ 99 ∷ 104 ∷ 101 ∷ 109 ∷ 97 ∷ 113 ∷ 113 ∷ 122 ∷ 116 ∷ 46 ∷ 100 ∷ 105 ∷ 99
    ∷ 116 ∷ 105 ∷ 111 ∷ 110 ∷ 97 ∷ 114 ∷ 121 ∷ 46 ∷ 118 ∷ 49 ∷ 108 ∷ 99 ∷ 111 ∷ 110 ∷ 116 ∷ 97 ∷ 105
    ∷ 110 ∷ 101 ∷ 114 ∷ 95 ∷ 105 ∷ 100 ∷ 80 ∷ 9 ∷ 9 ∷ 9 ∷ 9 ∷ 9 ∷ 9 ∷ 9 ∷ 9 ∷ 9 ∷ 9 ∷ 9 ∷ 9 ∷ 9 ∷ 9
    ∷ 9 ∷ 9 ∷ 108 ∷ 100 ∷ 105 ∷ 99 ∷ 116 ∷ 105 ∷ 111 ∷ 110 ∷ 97 ∷ 114 ∷ 105 ∷ 101 ∷ 115 ∷ 130 ∷ 164
    ∷ 101 ∷ 98 ∷ 121 ∷ 116 ∷ 101 ∷ 115 ∷ 66 ∷ 1 ∷ 2 ∷ 101 ∷ 99 ∷ 111 ∷ 100 ∷ 101 ∷ 99 ∷ 100 ∷ 122
    ∷ 115 ∷ 116 ∷ 100 ∷ 104 ∷ 99 ∷ 104 ∷ 101 ∷ 99 ∷ 107 ∷ 115 ∷ 117 ∷ 109 ∷ 162 ∷ 101 ∷ 118 ∷ 97
    ∷ 108 ∷ 117 ∷ 101 ∷ 88 ∷ 32 ∷ 7 ∷ 7 ∷ 7 ∷ 7 ∷ 7 ∷ 7 ∷ 7 ∷ 7 ∷ 7 ∷ 7 ∷ 7 ∷ 7 ∷ 7 ∷ 7 ∷ 7 ∷ 7 ∷ 7
    ∷ 7 ∷ 7 ∷ 7 ∷ 7 ∷ 7 ∷ 7 ∷ 7 ∷ 7 ∷ 7 ∷ 7 ∷ 7 ∷ 7 ∷ 7 ∷ 7 ∷ 7 ∷ 105 ∷ 97 ∷ 108 ∷ 103 ∷ 111 ∷ 114
    ∷ 105 ∷ 116 ∷ 104 ∷ 109 ∷ 102 ∷ 98 ∷ 108 ∷ 97 ∷ 107 ∷ 101 ∷ 51 ∷ 109 ∷ 100 ∷ 105 ∷ 99 ∷ 116
    ∷ 105 ∷ 111 ∷ 110 ∷ 97 ∷ 114 ∷ 121 ∷ 95 ∷ 105 ∷ 100 ∷ 1 ∷ 164 ∷ 101 ∷ 98 ∷ 121 ∷ 116 ∷ 101 ∷ 115
    ∷ 65 ∷ 3 ∷ 101 ∷ 99 ∷ 111 ∷ 100 ∷ 101 ∷ 99 ∷ 100 ∷ 122 ∷ 115 ∷ 116 ∷ 100 ∷ 104 ∷ 99 ∷ 104 ∷ 101
    ∷ 99 ∷ 107 ∷ 115 ∷ 117 ∷ 109 ∷ 162 ∷ 101 ∷ 118 ∷ 97 ∷ 108 ∷ 117 ∷ 101 ∷ 88 ∷ 32 ∷ 7 ∷ 7 ∷ 7 ∷ 7
    ∷ 7 ∷ 7 ∷ 7 ∷ 7 ∷ 7 ∷ 7 ∷ 7 ∷ 7 ∷ 7 ∷ 7 ∷ 7 ∷ 7 ∷ 7 ∷ 7 ∷ 7 ∷ 7 ∷ 7 ∷ 7 ∷ 7 ∷ 7 ∷ 7 ∷ 7 ∷ 7 ∷ 7
    ∷ 7 ∷ 7 ∷ 7 ∷ 7 ∷ 105 ∷ 97 ∷ 108 ∷ 103 ∷ 111 ∷ 114 ∷ 105 ∷ 116 ∷ 104 ∷ 109 ∷ 102 ∷ 98 ∷ 108 ∷ 97
    ∷ 107 ∷ 101 ∷ 51 ∷ 109 ∷ 100 ∷ 105 ∷ 99 ∷ 116 ∷ 105 ∷ 111 ∷ 110 ∷ 97 ∷ 114 ∷ 121 ∷ 95 ∷ 105
    ∷ 100 ∷ 2 ∷ 110 ∷ 102 ∷ 111 ∷ 114 ∷ 109 ∷ 97 ∷ 116 ∷ 95 ∷ 118 ∷ 101 ∷ 114 ∷ 115 ∷ 105 ∷ 111
    ∷ 110 ∷ 130 ∷ 0 ∷ 1 ∷ 1 ∷ 0 ∷ 2 ∷ 0 ∷ 2 ∷ 164 ∷ 102 ∷ 115 ∷ 99 ∷ 104 ∷ 101 ∷ 109 ∷ 97 ∷ 117
    ∷ 113 ∷ 122 ∷ 116 ∷ 46 ∷ 100 ∷ 111 ∷ 99 ∷ 117 ∷ 109 ∷ 101 ∷ 110 ∷ 116 ∷ 45 ∷ 105 ∷ 110 ∷ 100
    ∷ 101 ∷ 120 ∷ 46 ∷ 118 ∷ 49 ∷ 105 ∷ 100 ∷ 111 ∷ 99 ∷ 117 ∷ 109 ∷ 101 ∷ 110 ∷ 116 ∷ 115 ∷ 130
    ∷ 170 ∷ 102 ∷ 100 ∷ 111 ∷ 99 ∷ 95 ∷ 105 ∷ 100 ∷ 97 ∷ 97 ∷ 104 ∷ 99 ∷ 104 ∷ 101 ∷ 99 ∷ 107 ∷ 115
    ∷ 117 ∷ 109 ∷ 162 ∷ 101 ∷ 118 ∷ 97 ∷ 108 ∷ 117 ∷ 101 ∷ 88 ∷ 32 ∷ 7 ∷ 7 ∷ 7 ∷ 7 ∷ 7 ∷ 7 ∷ 7 ∷ 7
    ∷ 7 ∷ 7 ∷ 7 ∷ 7 ∷ 7 ∷ 7 ∷ 7 ∷ 7 ∷ 7 ∷ 7 ∷ 7 ∷ 7 ∷ 7 ∷ 7 ∷ 7 ∷ 7 ∷ 7 ∷ 7 ∷ 7 ∷ 7 ∷ 7 ∷ 7 ∷ 7 ∷ 7
    ∷ 105 ∷ 97 ∷ 108 ∷ 103 ∷ 111 ∷ 114 ∷ 105 ∷ 116 ∷ 104 ∷ 109 ∷ 102 ∷ 98 ∷ 108 ∷ 97 ∷ 107 ∷ 101
    ∷ 51 ∷ 104 ∷ 109 ∷ 101 ∷ 116 ∷ 97 ∷ 100 ∷ 97 ∷ 116 ∷ 97 ∷ 160 ∷ 105 ∷ 99 ∷ 104 ∷ 117 ∷ 110 ∷ 107
    ∷ 95 ∷ 101 ∷ 110 ∷ 100 ∷ 1 ∷ 106 ∷ 102 ∷ 105 ∷ 114 ∷ 115 ∷ 116 ∷ 95 ∷ 108 ∷ 105 ∷ 110 ∷ 101 ∷ 0
    ∷ 106 ∷ 108 ∷ 105 ∷ 110 ∷ 101 ∷ 95 ∷ 99 ∷ 111 ∷ 117 ∷ 110 ∷ 116 ∷ 1 ∷ 107 ∷ 98 ∷ 121 ∷ 116 ∷ 101
    ∷ 95 ∷ 108 ∷ 101 ∷ 110 ∷ 103 ∷ 116 ∷ 104 ∷ 2 ∷ 107 ∷ 99 ∷ 104 ∷ 117 ∷ 110 ∷ 107 ∷ 95 ∷ 115 ∷ 116
    ∷ 97 ∷ 114 ∷ 116 ∷ 0 ∷ 107 ∷ 100 ∷ 111 ∷ 99 ∷ 95 ∷ 105 ∷ 100 ∷ 95 ∷ 104 ∷ 97 ∷ 115 ∷ 104 ∷ 80
    ∷ 7 ∷ 7 ∷ 7 ∷ 7 ∷ 7 ∷ 7 ∷ 7 ∷ 7 ∷ 7 ∷ 7 ∷ 7 ∷ 7 ∷ 7 ∷ 7 ∷ 7 ∷ 7 ∷ 110 ∷ 108 ∷ 111 ∷ 103 ∷ 105
    ∷ 99 ∷ 97 ∷ 108 ∷ 95 ∷ 111 ∷ 102 ∷ 102 ∷ 115 ∷ 101 ∷ 116 ∷ 0 ∷ 170 ∷ 102 ∷ 100 ∷ 111 ∷ 99 ∷ 95
    ∷ 105 ∷ 100 ∷ 97 ∷ 98 ∷ 104 ∷ 99 ∷ 104 ∷ 101 ∷ 99 ∷ 107 ∷ 115 ∷ 117 ∷ 109 ∷ 162 ∷ 101 ∷ 118 ∷ 97
    ∷ 108 ∷ 117 ∷ 101 ∷ 88 ∷ 32 ∷ 7 ∷ 7 ∷ 7 ∷ 7 ∷ 7 ∷ 7 ∷ 7 ∷ 7 ∷ 7 ∷ 7 ∷ 7 ∷ 7 ∷ 7 ∷ 7 ∷ 7 ∷ 7 ∷ 7
    ∷ 7 ∷ 7 ∷ 7 ∷ 7 ∷ 7 ∷ 7 ∷ 7 ∷ 7 ∷ 7 ∷ 7 ∷ 7 ∷ 7 ∷ 7 ∷ 7 ∷ 7 ∷ 105 ∷ 97 ∷ 108 ∷ 103 ∷ 111 ∷ 114
    ∷ 105 ∷ 116 ∷ 104 ∷ 109 ∷ 102 ∷ 98 ∷ 108 ∷ 97 ∷ 107 ∷ 101 ∷ 51 ∷ 104 ∷ 109 ∷ 101 ∷ 116 ∷ 97
    ∷ 100 ∷ 97 ∷ 116 ∷ 97 ∷ 160 ∷ 105 ∷ 99 ∷ 104 ∷ 117 ∷ 110 ∷ 107 ∷ 95 ∷ 101 ∷ 110 ∷ 100 ∷ 1 ∷ 106
    ∷ 102 ∷ 105 ∷ 114 ∷ 115 ∷ 116 ∷ 95 ∷ 108 ∷ 105 ∷ 110 ∷ 101 ∷ 1 ∷ 106 ∷ 108 ∷ 105 ∷ 110 ∷ 101
    ∷ 95 ∷ 99 ∷ 111 ∷ 117 ∷ 110 ∷ 116 ∷ 1 ∷ 107 ∷ 98 ∷ 121 ∷ 116 ∷ 101 ∷ 95 ∷ 108 ∷ 101 ∷ 110 ∷ 103
    ∷ 116 ∷ 104 ∷ 2 ∷ 107 ∷ 99 ∷ 104 ∷ 117 ∷ 110 ∷ 107 ∷ 95 ∷ 115 ∷ 116 ∷ 97 ∷ 114 ∷ 116 ∷ 0 ∷ 107
    ∷ 100 ∷ 111 ∷ 99 ∷ 95 ∷ 105 ∷ 100 ∷ 95 ∷ 104 ∷ 97 ∷ 115 ∷ 104 ∷ 80 ∷ 7 ∷ 7 ∷ 7 ∷ 7 ∷ 7 ∷ 7 ∷ 7
    ∷ 7 ∷ 7 ∷ 7 ∷ 7 ∷ 7 ∷ 7 ∷ 7 ∷ 7 ∷ 7 ∷ 110 ∷ 108 ∷ 111 ∷ 103 ∷ 105 ∷ 99 ∷ 97 ∷ 108 ∷ 95 ∷ 111
    ∷ 102 ∷ 102 ∷ 115 ∷ 101 ∷ 116 ∷ 2 ∷ 108 ∷ 99 ∷ 111 ∷ 110 ∷ 116 ∷ 97 ∷ 105 ∷ 110 ∷ 101 ∷ 114 ∷ 95
    ∷ 105 ∷ 100 ∷ 80 ∷ 9 ∷ 9 ∷ 9 ∷ 9 ∷ 9 ∷ 9 ∷ 9 ∷ 9 ∷ 9 ∷ 9 ∷ 9 ∷ 9 ∷ 9 ∷ 9 ∷ 9 ∷ 9 ∷ 110 ∷ 102
    ∷ 111 ∷ 114 ∷ 109 ∷ 97 ∷ 116 ∷ 95 ∷ 118 ∷ 101 ∷ 114 ∷ 115 ∷ 105 ∷ 111 ∷ 110 ∷ 130 ∷ 0 ∷ 1 ∷ 165
    ∷ 102 ∷ 98 ∷ 108 ∷ 111 ∷ 99 ∷ 107 ∷ 115 ∷ 132 ∷ 167 ∷ 100 ∷ 115 ∷ 105 ∷ 122 ∷ 101 ∷ 24 ∷ 128
    ∷ 100 ∷ 116 ∷ 121 ∷ 112 ∷ 101 ∷ 107 ∷ 99 ∷ 104 ∷ 117 ∷ 110 ∷ 107 ∷ 95 ∷ 116 ∷ 97 ∷ 98 ∷ 108
    ∷ 101 ∷ 101 ∷ 99 ∷ 111 ∷ 100 ∷ 101 ∷ 99 ∷ 113 ∷ 113 ∷ 122 ∷ 116 ∷ 45 ∷ 99 ∷ 116 ∷ 98 ∷ 108 ∷ 45
    ∷ 102 ∷ 105 ∷ 120 ∷ 101 ∷ 100 ∷ 45 ∷ 118 ∷ 49 ∷ 101 ∷ 102 ∷ 108 ∷ 97 ∷ 103 ∷ 115 ∷ 0 ∷ 102 ∷ 111
    ∷ 102 ∷ 102 ∷ 115 ∷ 101 ∷ 116 ∷ 25 ∷ 3 ∷ 160 ∷ 104 ∷ 99 ∷ 104 ∷ 101 ∷ 99 ∷ 107 ∷ 115 ∷ 117 ∷ 109
    ∷ 162 ∷ 101 ∷ 118 ∷ 97 ∷ 108 ∷ 117 ∷ 101 ∷ 88 ∷ 32 ∷ 7 ∷ 7 ∷ 7 ∷ 7 ∷ 7 ∷ 7 ∷ 7 ∷ 7 ∷ 7 ∷ 7 ∷ 7
    ∷ 7 ∷ 7 ∷ 7 ∷ 7 ∷ 7 ∷ 7 ∷ 7 ∷ 7 ∷ 7 ∷ 7 ∷ 7 ∷ 7 ∷ 7 ∷ 7 ∷ 7 ∷ 7 ∷ 7 ∷ 7 ∷ 7 ∷ 7 ∷ 7 ∷ 105 ∷ 97
    ∷ 108 ∷ 103 ∷ 111 ∷ 114 ∷ 105 ∷ 116 ∷ 104 ∷ 109 ∷ 102 ∷ 98 ∷ 108 ∷ 97 ∷ 107 ∷ 101 ∷ 51 ∷ 104
    ∷ 114 ∷ 101 ∷ 113 ∷ 117 ∷ 105 ∷ 114 ∷ 101 ∷ 100 ∷ 245 ∷ 167 ∷ 100 ∷ 115 ∷ 105 ∷ 122 ∷ 101 ∷ 25
    ∷ 1 ∷ 37 ∷ 100 ∷ 116 ∷ 121 ∷ 112 ∷ 101 ∷ 106 ∷ 100 ∷ 105 ∷ 99 ∷ 116 ∷ 105 ∷ 111 ∷ 110 ∷ 97 ∷ 114
    ∷ 121 ∷ 101 ∷ 99 ∷ 111 ∷ 100 ∷ 101 ∷ 99 ∷ 112 ∷ 113 ∷ 122 ∷ 116 ∷ 45 ∷ 100 ∷ 105 ∷ 99 ∷ 116 ∷ 45
    ∷ 99 ∷ 98 ∷ 111 ∷ 114 ∷ 45 ∷ 118 ∷ 49 ∷ 101 ∷ 102 ∷ 108 ∷ 97 ∷ 103 ∷ 115 ∷ 0 ∷ 102 ∷ 111 ∷ 102
    ∷ 102 ∷ 115 ∷ 101 ∷ 116 ∷ 25 ∷ 4 ∷ 32 ∷ 104 ∷ 99 ∷ 104 ∷ 101 ∷ 99 ∷ 107 ∷ 115 ∷ 117 ∷ 109 ∷ 162
    ∷ 101 ∷ 118 ∷ 97 ∷ 108 ∷ 117 ∷ 101 ∷ 88 ∷ 32 ∷ 7 ∷ 7 ∷ 7 ∷ 7 ∷ 7 ∷ 7 ∷ 7 ∷ 7 ∷ 7 ∷ 7 ∷ 7 ∷ 7 ∷ 7
    ∷ 7 ∷ 7 ∷ 7 ∷ 7 ∷ 7 ∷ 7 ∷ 7 ∷ 7 ∷ 7 ∷ 7 ∷ 7 ∷ 7 ∷ 7 ∷ 7 ∷ 7 ∷ 7 ∷ 7 ∷ 7 ∷ 7 ∷ 105 ∷ 97 ∷ 108
    ∷ 103 ∷ 111 ∷ 114 ∷ 105 ∷ 116 ∷ 104 ∷ 109 ∷ 102 ∷ 98 ∷ 108 ∷ 97 ∷ 107 ∷ 101 ∷ 51 ∷ 104 ∷ 114
    ∷ 101 ∷ 113 ∷ 117 ∷ 105 ∷ 114 ∷ 101 ∷ 100 ∷ 244 ∷ 167 ∷ 100 ∷ 115 ∷ 105 ∷ 122 ∷ 101 ∷ 5 ∷ 100
    ∷ 116 ∷ 121 ∷ 112 ∷ 101 ∷ 112 ∷ 100 ∷ 101 ∷ 110 ∷ 115 ∷ 101 ∷ 95 ∷ 108 ∷ 105 ∷ 110 ∷ 101 ∷ 95
    ∷ 105 ∷ 110 ∷ 100 ∷ 101 ∷ 120 ∷ 101 ∷ 99 ∷ 111 ∷ 100 ∷ 101 ∷ 99 ∷ 120 ∷ 24 ∷ 113 ∷ 122 ∷ 116
    ∷ 45 ∷ 108 ∷ 105 ∷ 110 ∷ 101 ∷ 45 ∷ 100 ∷ 101 ∷ 108 ∷ 116 ∷ 97 ∷ 45 ∷ 118 ∷ 97 ∷ 114 ∷ 105 ∷ 110
    ∷ 116 ∷ 45 ∷ 118 ∷ 49 ∷ 101 ∷ 102 ∷ 108 ∷ 97 ∷ 103 ∷ 115 ∷ 0 ∷ 102 ∷ 111 ∷ 102 ∷ 102 ∷ 115 ∷ 101
    ∷ 116 ∷ 25 ∷ 5 ∷ 69 ∷ 104 ∷ 99 ∷ 104 ∷ 101 ∷ 99 ∷ 107 ∷ 115 ∷ 117 ∷ 109 ∷ 162 ∷ 101 ∷ 118 ∷ 97
    ∷ 108 ∷ 117 ∷ 101 ∷ 88 ∷ 32 ∷ 7 ∷ 7 ∷ 7 ∷ 7 ∷ 7 ∷ 7 ∷ 7 ∷ 7 ∷ 7 ∷ 7 ∷ 7 ∷ 7 ∷ 7 ∷ 7 ∷ 7 ∷ 7 ∷ 7
    ∷ 7 ∷ 7 ∷ 7 ∷ 7 ∷ 7 ∷ 7 ∷ 7 ∷ 7 ∷ 7 ∷ 7 ∷ 7 ∷ 7 ∷ 7 ∷ 7 ∷ 7 ∷ 105 ∷ 97 ∷ 108 ∷ 103 ∷ 111 ∷ 114
    ∷ 105 ∷ 116 ∷ 104 ∷ 109 ∷ 102 ∷ 98 ∷ 108 ∷ 97 ∷ 107 ∷ 101 ∷ 51 ∷ 104 ∷ 114 ∷ 101 ∷ 113 ∷ 117
    ∷ 105 ∷ 114 ∷ 101 ∷ 100 ∷ 244 ∷ 167 ∷ 100 ∷ 115 ∷ 105 ∷ 122 ∷ 101 ∷ 25 ∷ 1 ∷ 219 ∷ 100 ∷ 116
    ∷ 121 ∷ 112 ∷ 101 ∷ 110 ∷ 100 ∷ 111 ∷ 99 ∷ 117 ∷ 109 ∷ 101 ∷ 110 ∷ 116 ∷ 95 ∷ 105 ∷ 110 ∷ 100
    ∷ 101 ∷ 120 ∷ 101 ∷ 99 ∷ 111 ∷ 100 ∷ 101 ∷ 99 ∷ 117 ∷ 113 ∷ 122 ∷ 116 ∷ 45 ∷ 100 ∷ 111 ∷ 99 ∷ 45
    ∷ 105 ∷ 110 ∷ 100 ∷ 101 ∷ 120 ∷ 45 ∷ 99 ∷ 98 ∷ 111 ∷ 114 ∷ 45 ∷ 118 ∷ 49 ∷ 101 ∷ 102 ∷ 108 ∷ 97
    ∷ 103 ∷ 115 ∷ 0 ∷ 102 ∷ 111 ∷ 102 ∷ 102 ∷ 115 ∷ 101 ∷ 116 ∷ 25 ∷ 5 ∷ 74 ∷ 104 ∷ 99 ∷ 104 ∷ 101
    ∷ 99 ∷ 107 ∷ 115 ∷ 117 ∷ 109 ∷ 162 ∷ 101 ∷ 118 ∷ 97 ∷ 108 ∷ 117 ∷ 101 ∷ 88 ∷ 32 ∷ 7 ∷ 7 ∷ 7 ∷ 7
    ∷ 7 ∷ 7 ∷ 7 ∷ 7 ∷ 7 ∷ 7 ∷ 7 ∷ 7 ∷ 7 ∷ 7 ∷ 7 ∷ 7 ∷ 7 ∷ 7 ∷ 7 ∷ 7 ∷ 7 ∷ 7 ∷ 7 ∷ 7 ∷ 7 ∷ 7 ∷ 7 ∷ 7
    ∷ 7 ∷ 7 ∷ 7 ∷ 7 ∷ 105 ∷ 97 ∷ 108 ∷ 103 ∷ 111 ∷ 114 ∷ 105 ∷ 116 ∷ 104 ∷ 109 ∷ 102 ∷ 98 ∷ 108 ∷ 97
    ∷ 107 ∷ 101 ∷ 51 ∷ 104 ∷ 114 ∷ 101 ∷ 113 ∷ 117 ∷ 105 ∷ 114 ∷ 101 ∷ 100 ∷ 244 ∷ 102 ∷ 115 ∷ 99
    ∷ 104 ∷ 101 ∷ 109 ∷ 97 ∷ 113 ∷ 113 ∷ 122 ∷ 116 ∷ 46 ∷ 105 ∷ 110 ∷ 100 ∷ 101 ∷ 120 ∷ 45 ∷ 114
    ∷ 111 ∷ 111 ∷ 116 ∷ 46 ∷ 118 ∷ 49 ∷ 103 ∷ 99 ∷ 111 ∷ 110 ∷ 116 ∷ 101 ∷ 110 ∷ 116 ∷ 164 ∷ 106
    ∷ 108 ∷ 105 ∷ 110 ∷ 101 ∷ 95 ∷ 99 ∷ 111 ∷ 117 ∷ 110 ∷ 116 ∷ 2 ∷ 107 ∷ 99 ∷ 104 ∷ 117 ∷ 110 ∷ 107
    ∷ 95 ∷ 99 ∷ 111 ∷ 117 ∷ 110 ∷ 116 ∷ 1 ∷ 109 ∷ 111 ∷ 114 ∷ 105 ∷ 103 ∷ 105 ∷ 110 ∷ 97 ∷ 108 ∷ 95
    ∷ 115 ∷ 105 ∷ 122 ∷ 101 ∷ 4 ∷ 113 ∷ 111 ∷ 114 ∷ 105 ∷ 103 ∷ 105 ∷ 110 ∷ 97 ∷ 108 ∷ 95 ∷ 99 ∷ 104
    ∷ 101 ∷ 99 ∷ 107 ∷ 115 ∷ 117 ∷ 109 ∷ 162 ∷ 101 ∷ 118 ∷ 97 ∷ 108 ∷ 117 ∷ 101 ∷ 88 ∷ 32 ∷ 7 ∷ 7
    ∷ 7 ∷ 7 ∷ 7 ∷ 7 ∷ 7 ∷ 7 ∷ 7 ∷ 7 ∷ 7 ∷ 7 ∷ 7 ∷ 7 ∷ 7 ∷ 7 ∷ 7 ∷ 7 ∷ 7 ∷ 7 ∷ 7 ∷ 7 ∷ 7 ∷ 7 ∷ 7 ∷ 7
    ∷ 7 ∷ 7 ∷ 7 ∷ 7 ∷ 7 ∷ 7 ∷ 105 ∷ 97 ∷ 108 ∷ 103 ∷ 111 ∷ 114 ∷ 105 ∷ 116 ∷ 104 ∷ 109 ∷ 102 ∷ 98
    ∷ 108 ∷ 97 ∷ 107 ∷ 101 ∷ 51 ∷ 108 ∷ 99 ∷ 111 ∷ 110 ∷ 116 ∷ 97 ∷ 105 ∷ 110 ∷ 101 ∷ 114 ∷ 95 ∷ 105
    ∷ 100 ∷ 80 ∷ 9 ∷ 9 ∷ 9 ∷ 9 ∷ 9 ∷ 9 ∷ 9 ∷ 9 ∷ 9 ∷ 9 ∷ 9 ∷ 9 ∷ 9 ∷ 9 ∷ 9 ∷ 9 ∷ 110 ∷ 102 ∷ 111
    ∷ 114 ∷ 109 ∷ 97 ∷ 116 ∷ 95 ∷ 118 ∷ 101 ∷ 114 ∷ 115 ∷ 105 ∷ 111 ∷ 110 ∷ 130 ∷ 0 ∷ 1 ∷ 167 ∷ 102
    ∷ 115 ∷ 99 ∷ 104 ∷ 101 ∷ 109 ∷ 97 ∷ 109 ∷ 113 ∷ 122 ∷ 116 ∷ 46 ∷ 102 ∷ 111 ∷ 111 ∷ 116 ∷ 101
    ∷ 114 ∷ 46 ∷ 118 ∷ 49 ∷ 104 ∷ 109 ∷ 101 ∷ 116 ∷ 97 ∷ 100 ∷ 97 ∷ 116 ∷ 97 ∷ 163 ∷ 100 ∷ 115 ∷ 105
    ∷ 122 ∷ 101 ∷ 25 ∷ 3 ∷ 29 ∷ 102 ∷ 111 ∷ 102 ∷ 102 ∷ 115 ∷ 101 ∷ 116 ∷ 24 ∷ 128 ∷ 104 ∷ 99 ∷ 104
    ∷ 101 ∷ 99 ∷ 107 ∷ 115 ∷ 117 ∷ 109 ∷ 162 ∷ 101 ∷ 118 ∷ 97 ∷ 108 ∷ 117 ∷ 101 ∷ 88 ∷ 32 ∷ 7 ∷ 7
    ∷ 7 ∷ 7 ∷ 7 ∷ 7 ∷ 7 ∷ 7 ∷ 7 ∷ 7 ∷ 7 ∷ 7 ∷ 7 ∷ 7 ∷ 7 ∷ 7 ∷ 7 ∷ 7 ∷ 7 ∷ 7 ∷ 7 ∷ 7 ∷ 7 ∷ 7 ∷ 7 ∷ 7
    ∷ 7 ∷ 7 ∷ 7 ∷ 7 ∷ 7 ∷ 7 ∷ 105 ∷ 97 ∷ 108 ∷ 103 ∷ 111 ∷ 114 ∷ 105 ∷ 116 ∷ 104 ∷ 109 ∷ 102 ∷ 98
    ∷ 108 ∷ 97 ∷ 107 ∷ 101 ∷ 51 ∷ 106 ∷ 105 ∷ 110 ∷ 100 ∷ 101 ∷ 120 ∷ 95 ∷ 114 ∷ 111 ∷ 111 ∷ 116
    ∷ 163 ∷ 100 ∷ 115 ∷ 105 ∷ 122 ∷ 101 ∷ 25 ∷ 3 ∷ 30 ∷ 102 ∷ 111 ∷ 102 ∷ 102 ∷ 115 ∷ 101 ∷ 116 ∷ 25
    ∷ 7 ∷ 37 ∷ 104 ∷ 99 ∷ 104 ∷ 101 ∷ 99 ∷ 107 ∷ 115 ∷ 117 ∷ 109 ∷ 162 ∷ 101 ∷ 118 ∷ 97 ∷ 108 ∷ 117
    ∷ 101 ∷ 88 ∷ 32 ∷ 7 ∷ 7 ∷ 7 ∷ 7 ∷ 7 ∷ 7 ∷ 7 ∷ 7 ∷ 7 ∷ 7 ∷ 7 ∷ 7 ∷ 7 ∷ 7 ∷ 7 ∷ 7 ∷ 7 ∷ 7 ∷ 7 ∷ 7
    ∷ 7 ∷ 7 ∷ 7 ∷ 7 ∷ 7 ∷ 7 ∷ 7 ∷ 7 ∷ 7 ∷ 7 ∷ 7 ∷ 7 ∷ 105 ∷ 97 ∷ 108 ∷ 103 ∷ 111 ∷ 114 ∷ 105 ∷ 116
    ∷ 104 ∷ 109 ∷ 102 ∷ 98 ∷ 108 ∷ 97 ∷ 107 ∷ 101 ∷ 51 ∷ 108 ∷ 99 ∷ 111 ∷ 110 ∷ 116 ∷ 97 ∷ 105 ∷ 110
    ∷ 101 ∷ 114 ∷ 95 ∷ 105 ∷ 100 ∷ 80 ∷ 9 ∷ 9 ∷ 9 ∷ 9 ∷ 9 ∷ 9 ∷ 9 ∷ 9 ∷ 9 ∷ 9 ∷ 9 ∷ 9 ∷ 9 ∷ 9 ∷ 9
    ∷ 9 ∷ 108 ∷ 102 ∷ 111 ∷ 111 ∷ 116 ∷ 101 ∷ 114 ∷ 95 ∷ 102 ∷ 108 ∷ 97 ∷ 103 ∷ 115 ∷ 0 ∷ 110 ∷ 102
    ∷ 111 ∷ 114 ∷ 109 ∷ 97 ∷ 116 ∷ 95 ∷ 118 ∷ 101 ∷ 114 ∷ 115 ∷ 105 ∷ 111 ∷ 110 ∷ 130 ∷ 0 ∷ 1 ∷ 111
    ∷ 102 ∷ 105 ∷ 110 ∷ 97 ∷ 108 ∷ 95 ∷ 102 ∷ 105 ∷ 108 ∷ 101 ∷ 95 ∷ 115 ∷ 105 ∷ 122 ∷ 101 ∷ 25 ∷ 11
    ∷ 169 ∷ 81 ∷ 90 ∷ 84 ∷ 84 ∷ 65 ∷ 73 ∷ 76 ∷ 49 ∷ 0 ∷ 0 ∷ 1 ∷ 0 ∷ 64 ∷ 0 ∷ 0 ∷ 0 ∷ 67 ∷ 10 ∷ 0 ∷ 0
    ∷ 0 ∷ 0 ∷ 0 ∷ 0 ∷ 38 ∷ 1 ∷ 0 ∷ 0 ∷ 0 ∷ 0 ∷ 0 ∷ 0 ∷ 7 ∷ 7 ∷ 7 ∷ 7 ∷ 7 ∷ 7 ∷ 7 ∷ 7 ∷ 7 ∷ 7 ∷ 7 ∷ 7
    ∷ 7 ∷ 7 ∷ 7 ∷ 7 ∷ 7 ∷ 7 ∷ 7 ∷ 7 ∷ 7 ∷ 7 ∷ 7 ∷ 7 ∷ 7 ∷ 7 ∷ 7 ∷ 7 ∷ 7 ∷ 7 ∷ 7 ∷ 7 ∷ []

abbrev pub container_id : List ℕ
container_id = replicate 16 9

abbrev pub entry : ChunkEntry
entry = record {
  chunk_id = 0;
  physical_offset = 925;
  compressed_size = 3;
  logical_offset = 0;
  uncompressed_size = 4;
  first_line = 0;
  line_count = 2;
  dictionary_id = 1;
  flags = 0;
  compressed_checksum_blake3 = replicate 32 7;
  uncompressed_checksum_blake3 = replicate 32 7;
}

abbrev pub metadata : Metadata
metadata = record {
  container_id = container_id;
  original_size = 4;
  original_checksum = sum;
  newline_mode = Words.word_lf;
  line_count = 2;
  zstd_level = pos 0;
  target_chunk_size = 4194304;
  max_chunk_size = 16777216;
  dictionary_mode = Words.word_embedded;
  profile = Words.word_core;
  dense_line_index = true;
  document_index = true;
}

abbrev pub root_ref : BlockRef
root_ref = record { offset = 1829; size = 798; checksum = sum }

abbrev pub metadata_ref : BlockRef
metadata_ref = record { offset = 128; size = 797; checksum = sum }

abbrev pub footer : FooterPayload
footer = record {
  container_id = container_id;
  index_root = root_ref;
  metadata = metadata_ref;
  final_file_size = 2985;
  footer_flags = 0;
  container_checksum = none;
}

abbrev pub document : ℕ → ℕ → ℕ → DocumentEntry
document letter offset line = record {
  doc_id = letter ∷ [];
  doc_id_hash = replicate 16 7;
  logical_offset = offset;
  byte_length = 2;
  first_line = line;
  line_count = 1;
  chunk_start = 0;
  chunk_end = 1;
  checksum = sum;
}

abbrev pub documents : DocumentIndex
documents = record {
  container_id = container_id;
  documents = document b'a' 0 0 ∷ document b'b' 2 1 ∷ [];
}

abbrev pub dense : DenseLineIndex
dense = record { entries = record { chunk_id = 0; line_start_offsets = 0 ∷ 2 ∷ [] } ∷ [] }

abbrev pub details : SkeletonDetails
details = record {
  summary = record {
    container_id = container_id;
    original_size = 4;
    chunk_count = 1;
    line_count = 2;
  };
  chunk_entries = entry ∷ [];
  metadata = metadata;
  footer_payload = footer;
  footer_payload_offset = 2627;
  dictionaries =
      record { dictionary_id = 1; codec = Words.word_zstd; bytes = 1 ∷ 2 ∷ []; checksum = sum }
      ∷ record { dictionary_id = 2; codec = Words.word_zstd; bytes = 3 ∷ []; checksum = sum }
      ∷ [];
  dense_line_index = some dense;
  document_index = some documents;
  document_lookup = (b'b' ∷ [], 1) ∷ (b'a' ∷ [], 0) ∷ [];
}

pub container_opens : open_skeleton_details_with_limits sevens container default_limits ≡ ok details
unfolding lead utf8_from is_utf8 usize_to_u64 u64_to_usize read_u16_le read_u32_le read_u64_le
    checked_logical_end checked_physical_end enforce_index_block_size enforce_chunk_sizes
    cbor_limits decode_fixed_prologue read_array any_nonzero decode_header decode_trailer range_end
    is_inside_file overlaps check_fixed key_le insert_range sort_by_key check_adjacent
    validate_physical_ranges read_checksum decode_chunk decode_records has_unknown_flags check_entry
    check_entries check_table validate_chunk_table_block read_varuint_loop read_varuint
    allocation_bytes offset_of decode_offsets decode_entries_dense decode_for_chunks_with_limit
    read_u8 read_exact consume_allocation read_wide read_argument read_len parse_payload parse_bytes
    parse_text parse_values parse_array check_key parse_entries parse_map parse_simple
    parse_unsigned parse_negative parse_major parse_value validate_deterministic_with_limits
    validate_deterministic is_text has_key contains from_raw_bytes as_map field required_map as_text
    required_text as_u64 required_u64_with_overflow required_u64 as_bstr required_bstr check_allowed
    reject_unknown_keys required_checksum optional_checksum required_block_ref expect_text_field
    as_array required_array as_bool required_bool as_i32 required_i32 as_bytes required_bytes
    bool_eq expect_bool_field is_version expect_version_field decode_prologue decode_fields_footer
    decode_footer check_identity check_source check_compression check_chunking check_indexes
    check_integrity check_compatibility required_choice chunk_sizes build_metadata decode_values
    decode_fields_metadata decode_metadata is_chunk_table build_block decode_block_descriptor
    decode_blocks count_chunk_tables check_count build_root decode_root find_chunk_table
    chunk_table_block checksum_eq validate_source_consistency u64_to_u32 is_seen digest
    decode_dictionary_entry decode_entries_dictionary decode_with_limits new_document check_unique
    validate_unique_doc_ids build_document decode_document_entry decode_documents map_error
    decode_document_index get_range lookup_id is_none insert_first build_from build_document_lookup
    slice_physical memory_source blocks_of has_dictionary push_dictionaries
    validate_required_dictionaries is_some read_dictionary_block dictionary_loop
    parse_dictionary_blocks read_dense_block dense_loop parse_dense_line_index read_document_block
    document_loop parse_document_index enforce_blocks enforce_entries extra_ranges physical_ranges
    open_footer open_metadata open_index_root open_chunk_table open_blocks open_body check_length
    open_skeleton_details_with_limits compare_bytes
container_opens = refl
