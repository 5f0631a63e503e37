-- ===== src/Schema/Metadata.antt =====
-- src/schema.rs: `MetadataOptions` and `Metadata`, with its encoder and its decoder.
pub mod Decode
pub mod Accepted
use qzt.Base.{ℕ, List, [], ◌∷◌, Bool, true, false, ◌*◌, ◌||◌, ltb, ◌==◌, not, ℤ, pos}
use qzt.Error.{Result, ok, reject_if, ◌>>=◌, ◌>>◌, metadata_invalid}
use qzt.Cbor.{CborValue, integer, text, bytes, map, bool, null, Entries, no_entries, one_entry}
use qzt.Cbor.{encode_deterministic}
use qzt.Cbor.Schema.{contains}
use qzt.Schema.{Checksum, checksum_value, u64_value, version_value, required_map}
use qzt.Schema.{required_text, required_u64, required_bool, required_i32, required_bstr}
use qzt.Schema.{required_checksum, reject_unknown_keys, expect_text_field, expect_bool_field}
use qzt.Schema.{decode_prologue, from_raw_bytes}
use qzt.Schema.Words

pub record Metadata : Type 0 where
  pub container_id : List ℕ
  pub original_size : ℕ
  pub original_checksum : Checksum
  pub newline_mode : List ℕ
  pub line_count : ℕ
  pub zstd_level : ℤ
  pub target_chunk_size : ℕ
  pub max_chunk_size : ℕ
  pub dictionary_mode : List ℕ
  pub profile : List ℕ
  pub dense_line_index : Bool
  pub document_index : Bool

pub record MetadataOptions : Type 0 where
  pub zstd_level : ℤ
  pub target_chunk_size : ℕ
  pub max_chunk_size : ℕ
  pub dictionary_mode : List ℕ
  pub profile : List ℕ
  pub dense_line_index : Bool
  pub document_index : Bool

abbrev pub default_options : MetadataOptions
default_options = record {
  zstd_level = pos 0;
  target_chunk_size = 4 * 1024 * 1024;
  max_chunk_size = 16 * 1024 * 1024;
  dictionary_mode = Words.word_none;
  profile = Words.word_core;
  dense_line_index = false;
  document_index = false;
}

unfoldable pub for_source_with_options :
    List ℕ → ℕ → Checksum → List ℕ → ℕ → MetadataOptions → Metadata
for_source_with_options container_id original_size checksum newline_mode line_count options =
    record {
      container_id = container_id;
      original_size = original_size;
      original_checksum = checksum;
      newline_mode = newline_mode;
      line_count = line_count;
      zstd_level = options.zstd_level;
      target_chunk_size = options.target_chunk_size;
      max_chunk_size = options.max_chunk_size;
      dictionary_mode = options.dictionary_mode;
      profile = options.profile;
      dense_line_index = options.dense_line_index;
      document_index = options.document_index;
    }

unfoldable pub for_source : List ℕ → ℕ → Checksum → List ℕ → ℕ → Metadata
unfolding for_source_with_options
for_source container_id original_size checksum newline_mode line_count =
    for_source_with_options container_id original_size checksum newline_mode line_count
      default_options

-- `Metadata::empty`, with the digest of the empty input from the third-party blake3.
unfoldable pub empty : (List ℕ → List ℕ) → List ℕ → Metadata
unfolding for_source_with_options
empty blake3 container_id =
    for_source_with_options container_id 0 (from_raw_bytes (blake3 [])) Words.word_none 0
      default_options

abbrev pair : List ℕ → CborValue → Entries → Entries
pair key value rest = one_entry (text key) value rest

unfoldable pub identity_value : Metadata → CborValue
identity_value metadata = map (
    pair Words.word_name null (
      pair Words.word_profile (text metadata.profile) (
        pair Words.word_created_by (text Words.word_qzt)
          (pair Words.word_created_at_unix_ms null no_entries))))

unfoldable pub source_value : Metadata → CborValue
source_value metadata = map (
    pair Words.word_media_type (text Words.word_text) (
      pair Words.word_encoding (text Words.word_utf_8) (
        pair Words.word_original_size (u64_value metadata.original_size) (
          pair Words.word_original_checksum (checksum_value metadata.original_checksum) (
            pair Words.word_newline_mode (text metadata.newline_mode)
              (pair Words.word_line_count (u64_value metadata.line_count) no_entries))))))

unfoldable pub compression_value : Metadata → CborValue
compression_value metadata = map (
    pair Words.word_codec (text Words.word_zstd) (
      pair Words.word_zstd_level (integer metadata.zstd_level) (
        pair Words.word_independent_frames (bool true) (
          pair Words.word_zstd_frame_checksum (bool false)
            (pair Words.word_dictionary_mode (text metadata.dictionary_mode) no_entries)))))

unfoldable pub chunking_value : Metadata → CborValue
chunking_value metadata = map (
    pair Words.word_target_chunk_size (u64_value metadata.target_chunk_size) (
      pair Words.word_max_chunk_size (u64_value metadata.max_chunk_size) (
        pair Words.word_boundary (text Words.word_line_preferred)
          (pair Words.word_utf8_boundary_required (bool true) no_entries))))

unfoldable pub indexes_value : Metadata → CborValue
indexes_value metadata = map (
    pair Words.word_chunk_table (bool true) (
      pair Words.word_sparse_line_index (bool true) (
        pair Words.word_dense_line_index (bool metadata.dense_line_index) (
          pair Words.word_document_index (bool metadata.document_index) (
            pair Words.word_token_index (bool false) (
              pair Words.word_ngram_index (bool false)
                (pair Words.word_vector_index (bool false) no_entries)))))))

unfoldable pub integrity_value : CborValue
integrity_value = map (
    pair Words.word_compressed_chunk_checksum (text Words.word_blake3) (
      pair Words.word_uncompressed_chunk_checksum (text Words.word_blake3)
        (pair Words.word_index_checksum (text Words.word_blake3) no_entries)))

unfoldable pub compatibility_value : CborValue
compatibility_value = map (
    pair Words.word_qzt_is_zst_stream (bool false)
      (pair Words.word_chunks_are_independent_zstd_frames (bool true) no_entries))

-- `Metadata::encode`
unfoldable pub encode : Metadata → Result (List ℕ)
encode metadata = encode_deterministic (
    map (
      pair Words.word_schema (text Words.schema_metadata) (
        pair Words.word_format (text Words.word_qzt) (
          pair Words.word_format_version version_value (
            pair Words.word_container_id (bytes metadata.container_id) (
              pair Words.word_identity (identity_value metadata) (
                pair Words.word_source (source_value metadata) (
                  pair Words.word_compression (compression_value metadata) (
                    pair Words.word_chunking (chunking_value metadata) (
                      pair Words.word_indexes (indexes_value metadata) (
                        pair Words.word_integrity integrity_value
                          (pair Words.word_compatibility compatibility_value no_entries))))))))))))
