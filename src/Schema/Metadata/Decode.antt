-- ===== src/Schema/Metadata/Decode.antt =====
-- src/schema.rs: `Metadata::decode`, one function for each of the maps that it checks.
use qzt.Base.{ℕ, List, [], ◌∷◌, true, false, ◌||◌, ltb, ◌==◌, not, ℤ}
use qzt.Error.{Result, ok, reject_if, ◌>>=◌, ◌>>◌, metadata_invalid}
use qzt.Cbor.{Entries}
use qzt.Cbor.Schema.{contains}
use qzt.Schema.{required_map, required_text, required_u64, required_bool, required_i32}
use qzt.Schema.{required_bstr, required_checksum, reject_unknown_keys, expect_text_field}
use qzt.Schema.{expect_bool_field, decode_prologue}
use qzt.Schema.Words
use qzt.Schema.Metadata.{Metadata}

abbrev pub metadata_keys : List (List ℕ)
metadata_keys =
    Words.word_schema ∷ Words.word_format ∷ Words.word_format_version ∷ Words.word_container_id
    ∷ Words.word_identity ∷ Words.word_source ∷ Words.word_compression ∷ Words.word_chunking
    ∷ Words.word_indexes ∷ Words.word_integrity ∷ Words.word_compatibility ∷ []

unfoldable pub check_identity : Entries → Result Entries
check_identity fields = do
  identity ← required_map fields Words.word_identity metadata_invalid
  reject_unknown_keys identity
      (Words.word_name ∷ Words.word_profile ∷ Words.word_created_by ∷ Words.word_created_at_unix_ms
        ∷ [])
      metadata_invalid
  ok identity

unfoldable pub check_source : Entries → Result Entries
check_source fields = do
  source ← required_map fields Words.word_source metadata_invalid
  reject_unknown_keys source
      (Words.word_media_type ∷ Words.word_encoding ∷ Words.word_original_size
        ∷ Words.word_original_checksum ∷ Words.word_newline_mode ∷ Words.word_line_count ∷ [])
      metadata_invalid
  expect_text_field source Words.word_media_type Words.word_text metadata_invalid
  expect_text_field source Words.word_encoding Words.word_utf_8 metadata_invalid
  ok source

unfoldable pub check_compression : Entries → Result Entries
check_compression fields = do
  compression ← required_map fields Words.word_compression metadata_invalid
  reject_unknown_keys compression
      (Words.word_codec ∷ Words.word_zstd_level ∷ Words.word_independent_frames
        ∷ Words.word_zstd_frame_checksum ∷ Words.word_dictionary_mode ∷ [])
      metadata_invalid
  expect_text_field compression Words.word_codec Words.word_zstd metadata_invalid
  expect_bool_field compression Words.word_independent_frames true metadata_invalid
  expect_bool_field compression Words.word_zstd_frame_checksum false metadata_invalid
  ok compression

unfoldable pub check_chunking : Entries → Result Entries
check_chunking fields = do
  chunking ← required_map fields Words.word_chunking metadata_invalid
  reject_unknown_keys chunking
      (Words.word_target_chunk_size ∷ Words.word_max_chunk_size ∷ Words.word_boundary
        ∷ Words.word_utf8_boundary_required ∷ [])
      metadata_invalid
  expect_bool_field chunking Words.word_utf8_boundary_required true metadata_invalid
  expect_text_field chunking Words.word_boundary Words.word_line_preferred metadata_invalid
  ok chunking

unfoldable pub check_indexes : Entries → Result Entries
check_indexes fields = do
  indexes ← required_map fields Words.word_indexes metadata_invalid
  reject_unknown_keys indexes
      (Words.word_chunk_table ∷ Words.word_sparse_line_index ∷ Words.word_dense_line_index
        ∷ Words.word_document_index ∷ Words.word_token_index ∷ Words.word_ngram_index
        ∷ Words.word_vector_index ∷ [])
      metadata_invalid
  expect_bool_field indexes Words.word_chunk_table true metadata_invalid
  expect_bool_field indexes Words.word_sparse_line_index true metadata_invalid
  expect_bool_field indexes Words.word_token_index false metadata_invalid
  expect_bool_field indexes Words.word_ngram_index false metadata_invalid
  expect_bool_field indexes Words.word_vector_index false metadata_invalid
  ok indexes

unfoldable pub check_integrity : Entries → Result (Unit {0})
check_integrity fields = do
  integrity ← required_map fields Words.word_integrity metadata_invalid
  reject_unknown_keys integrity
      (Words.word_compressed_chunk_checksum ∷ Words.word_uncompressed_chunk_checksum
        ∷ Words.word_index_checksum ∷ [])
      metadata_invalid
  expect_text_field integrity Words.word_compressed_chunk_checksum Words.word_blake3
      metadata_invalid
  expect_text_field integrity Words.word_uncompressed_chunk_checksum Words.word_blake3
      metadata_invalid
  expect_text_field integrity Words.word_index_checksum Words.word_blake3 metadata_invalid

unfoldable pub check_compatibility : Entries → Result (Unit {0})
check_compatibility fields = do
  compatibility ← required_map fields Words.word_compatibility metadata_invalid
  reject_unknown_keys compatibility
      (Words.word_qzt_is_zst_stream ∷ Words.word_chunks_are_independent_zstd_frames ∷ [])
      metadata_invalid
  expect_bool_field compatibility Words.word_qzt_is_zst_stream false metadata_invalid
  expect_bool_field compatibility Words.word_chunks_are_independent_zstd_frames true
      metadata_invalid

abbrev pub newline_modes : List (List ℕ)
newline_modes = Words.word_none ∷ Words.word_lf ∷ Words.word_crlf ∷ Words.word_mixed ∷ []

abbrev pub dictionary_modes : List (List ℕ)
dictionary_modes = Words.word_none ∷ Words.word_embedded ∷ []

abbrev pub profiles : List (List ℕ)
profiles =
    Words.word_minimal ∷ Words.word_core ∷ Words.word_log ∷ Words.word_archive ∷ Words.word_memory
    ∷ []

-- A required text that is one of a few.
unfoldable pub required_choice : Entries → List ℕ → List (List ℕ) → Result (List ℕ)
required_choice fields key choices = do
  value ← required_text fields key metadata_invalid
  reject_if (not (contains choices value)) metadata_invalid
  ok value

-- The two sizes of the chunking map, with their test.
unfoldable pub chunk_sizes : Entries → Result (ℕ × ℕ)
chunk_sizes chunking = do
  target ← required_u64 chunking Words.word_target_chunk_size metadata_invalid
  maximum ← required_u64 chunking Words.word_max_chunk_size metadata_invalid
  reject_if (target == 0 || maximum == 0 || ltb maximum target) metadata_invalid
  ok (target, maximum)

-- The record at the end, in the order of its fields.
unfoldable pub build_metadata :
    Entries → Entries → Entries → List ℕ → List ℕ → List ℕ → ℤ → ℕ → ℕ → Result Metadata
build_metadata fields source indexes newline_mode dictionary_mode profile level target maximum = do
  container_id ← required_bstr 16 fields Words.word_container_id metadata_invalid
  original_size ← required_u64 source Words.word_original_size metadata_invalid
  checksum ← required_checksum source Words.word_original_checksum metadata_invalid
  line_count ← required_u64 source Words.word_line_count metadata_invalid
  dense ← required_bool indexes Words.word_dense_line_index metadata_invalid
  document ← required_bool indexes Words.word_document_index metadata_invalid
  ok (record {
    container_id = container_id;
    original_size = original_size;
    original_checksum = checksum;
    newline_mode = newline_mode;
    line_count = line_count;
    zstd_level = level;
    target_chunk_size = target;
    max_chunk_size = maximum;
    dictionary_mode = dictionary_mode;
    profile = profile;
    dense_line_index = dense;
    document_index = document;
  })

unfoldable pub decode_values :
    Entries → Entries → Entries → Entries → Entries → Entries → Result Metadata
decode_values fields identity source compression chunking indexes = do
  newline_mode ← required_choice source Words.word_newline_mode newline_modes
  dictionary_mode ← required_choice compression Words.word_dictionary_mode dictionary_modes
  profile ← required_choice identity Words.word_profile profiles
  level ← required_i32 compression Words.word_zstd_level metadata_invalid
  (target, maximum) ← chunk_sizes chunking
  build_metadata fields source indexes newline_mode dictionary_mode profile level target maximum

-- The part of `Metadata::decode` behind the prologue.
unfoldable pub decode_fields : Entries → Result Metadata
decode_fields fields = do
  expect_text_field fields Words.word_format Words.word_qzt metadata_invalid
  identity ← check_identity fields
  source ← check_source fields
  compression ← check_compression fields
  chunking ← check_chunking fields
  indexes ← check_indexes fields
  check_integrity fields
  check_compatibility fields
  decode_values fields identity source compression chunking indexes

-- `Metadata::decode`
unfoldable pub decode : List ℕ → Result Metadata
decode input = do
  fields ← decode_prologue input metadata_keys Words.schema_metadata metadata_invalid
  decode_fields fields
