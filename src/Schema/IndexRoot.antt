-- ===== src/Schema/IndexRoot.antt =====
-- src/schema.rs: `BlockDescriptor`, `IndexRoot` and `validate_source_consistency`.
pub mod Accepted
use qzt.Base.{ℕ, List, [], ◌∷◌, Bool, true, false, ◌||◌, ◌&&◌, ◌!=◌, ◌==◌, not, zero, suc}
use qzt.Base.{bytes_eq, if◌then◌else◌}
use qzt.Error.{QztError, Result, ok, err, reject_if, ◌>>=◌, ◌>>◌, container_corrupt}
use qzt.Error.{invalid_flags, unknown_required_block, missing_required_block}
use qzt.Error.{container_id_mismatch, metadata_invalid}
use qzt.Cbor.{CborValue, text, bytes, array, map, bool, Entries, no_entries, one_entry}
use qzt.Cbor.{Values, no_values, one_value, encode_deterministic}
use qzt.Schema.{Checksum, checksum_value, u64_value, version_value, as_map, required_map}
use qzt.Schema.{required_text, required_u64, required_bool, required_bstr, required_array}
use qzt.Schema.{required_checksum, reject_unknown_keys, decode_prologue}
use qzt.Schema.Words
use qzt.Schema.Metadata.{Metadata}

pub record BlockDescriptor : Type 0 where
  pub block_type : List ℕ
  pub required : Bool
  pub offset : ℕ
  pub size : ℕ
  pub codec : List ℕ
  pub checksum : Checksum
  pub flags : ℕ

-- `BlockDescriptor::new`
unfoldable pub new_block : List ℕ → Bool → List ℕ → ℕ → ℕ → Checksum → BlockDescriptor
new_block block_type required codec offset size checksum = record {
  block_type = block_type;
  required = required;
  offset = offset;
  size = size;
  codec = codec;
  checksum = checksum;
  flags = 0;
}

unfoldable pub chunk_table : ℕ → ℕ → Checksum → BlockDescriptor
unfolding new_block
chunk_table = new_block Words.word_chunk_table true Words.chunk_table_codec

unfoldable pub dictionary : ℕ → ℕ → Checksum → BlockDescriptor
unfolding new_block
dictionary = new_block Words.word_dictionary false Words.dictionary_codec

unfoldable pub dense_line_index : ℕ → ℕ → Checksum → BlockDescriptor
unfolding new_block
dense_line_index = new_block Words.word_dense_line_index false Words.dense_line_index_codec

unfoldable pub document_index : ℕ → ℕ → Checksum → BlockDescriptor
unfolding new_block
document_index = new_block Words.word_document_index false Words.document_index_codec

pub record IndexRoot : Type 0 where
  pub container_id : List ℕ
  pub blocks : List BlockDescriptor
  pub original_size : ℕ
  pub original_checksum : Checksum
  pub chunk_count : ℕ
  pub line_count : ℕ

unfoldable pub block_descriptor_value : BlockDescriptor → CborValue
block_descriptor_value block = map (
    one_entry (text Words.word_type) (text block.block_type) (
      one_entry (text Words.word_required) (bool block.required) (
        one_entry (text Words.word_offset) (u64_value block.offset) (
          one_entry (text Words.word_size) (u64_value block.size) (
            one_entry (text Words.word_codec) (text block.codec) (
              one_entry (text Words.word_checksum) (checksum_value block.checksum)
                (one_entry (text Words.word_flags) (u64_value block.flags) no_entries)))))))

-- `self.blocks.iter().map(block_descriptor_value)`
unfoldable pub block_values : List BlockDescriptor → Values
unfolding block_descriptor_value
block_values [] = no_values
block_values (block ∷ blocks) = one_value (block_descriptor_value block) (block_values blocks)

unfoldable pub content_value : IndexRoot → CborValue
content_value root = map (
    one_entry (text Words.word_original_size) (u64_value root.original_size) (
      one_entry (text Words.word_original_checksum) (checksum_value root.original_checksum) (
        one_entry (text Words.word_chunk_count) (u64_value root.chunk_count)
          (one_entry (text Words.word_line_count) (u64_value root.line_count) no_entries))))

-- `IndexRoot::encode`
unfoldable pub encode : IndexRoot → Result (List ℕ)
unfolding block_values content_value
encode root = encode_deterministic (
    map (
      one_entry (text Words.word_schema) (text Words.schema_index_root) (
        one_entry (text Words.word_format_version) version_value (
          one_entry (text Words.word_container_id) (bytes root.container_id) (
            one_entry (text Words.word_blocks) (array (block_values root.blocks))
              (one_entry (text Words.word_content) (content_value root) no_entries))))))

-- `required && block_type == CHUNK_TABLE_TYPE`
unfoldable pub is_chunk_table : BlockDescriptor → Bool
is_chunk_table block = block.required && bytes_eq block.block_type Words.word_chunk_table

abbrev pub block_keys : List (List ℕ)
block_keys =
    Words.word_type ∷ Words.word_required ∷ Words.word_offset ∷ Words.word_size ∷ Words.word_codec
    ∷ Words.word_checksum ∷ Words.word_flags ∷ []

-- The record at the end of `decode_block_descriptor`.
unfoldable pub build_block : Entries → List ℕ → Bool → ℕ → Result BlockDescriptor
build_block fields block_type required flags = do
  offset ← required_u64 fields Words.word_offset container_corrupt
  size ← required_u64 fields Words.word_size container_corrupt
  codec ← required_text fields Words.word_codec container_corrupt
  checksum ← required_checksum fields Words.word_checksum container_corrupt
  ok (record {
    block_type = block_type;
    required = required;
    offset = offset;
    size = size;
    codec = codec;
    checksum = checksum;
    flags = flags;
  })

unfoldable pub decode_block_descriptor : CborValue → Result BlockDescriptor
unfolding build_block
decode_block_descriptor value = do
  fields ← as_map value container_corrupt
  reject_unknown_keys fields block_keys container_corrupt
  block_type ← required_text fields Words.word_type container_corrupt
  required ← required_bool fields Words.word_required container_corrupt
  flags ← required_u64 fields Words.word_flags container_corrupt
  reject_if (flags != 0) invalid_flags
  reject_if (required && not (bytes_eq block_type Words.word_chunk_table)) unknown_required_block
  build_block fields block_type required flags

-- `.iter().map(decode_block_descriptor).collect::<Result<Vec<_>>>()`
unfoldable pub decode_blocks : Values → Result (List BlockDescriptor)
decode_blocks no_values = ok []
decode_blocks (one_value value values) = do
  block ← decode_block_descriptor value
  blocks ← decode_blocks values
  ok (block ∷ blocks)

-- `.filter(|block| block.required && block.block_type == CHUNK_TABLE_TYPE).count()`
unfoldable pub count_chunk_tables : List BlockDescriptor → ℕ
count_chunk_tables [] = 0
count_chunk_tables (block ∷ blocks) =
    if is_chunk_table block then suc (count_chunk_tables blocks) else count_chunk_tables blocks

-- `match required_chunk_tables { 0 => .., 1 => {}, _ => .. }`
unfoldable pub check_count : ℕ → Result (Unit {0})
check_count zero = err missing_required_block
check_count (suc zero) = ok tt
check_count (suc (suc n)) = err container_corrupt

abbrev pub content_keys : List (List ℕ)
content_keys =
    Words.word_original_size ∷ Words.word_original_checksum ∷ Words.word_chunk_count
    ∷ Words.word_line_count ∷ []

-- The record at the end of `IndexRoot::decode`.
unfoldable pub build_root : Entries → Entries → List BlockDescriptor → Result IndexRoot
build_root fields content blocks = do
  container_id ← required_bstr 16 fields Words.word_container_id container_corrupt
  original_size ← required_u64 content Words.word_original_size container_corrupt
  checksum ← required_checksum content Words.word_original_checksum container_corrupt
  chunk_count ← required_u64 content Words.word_chunk_count container_corrupt
  line_count ← required_u64 content Words.word_line_count container_corrupt
  ok (record {
    container_id = container_id;
    blocks = blocks;
    original_size = original_size;
    original_checksum = checksum;
    chunk_count = chunk_count;
    line_count = line_count;
  })

abbrev pub root_keys : List (List ℕ)
root_keys =
    Words.word_schema ∷ Words.word_format_version ∷ Words.word_container_id ∷ Words.word_blocks
    ∷ Words.word_content ∷ []

-- `IndexRoot::decode`
unfoldable pub decode : List ℕ → Result IndexRoot
unfolding decode_blocks count_chunk_tables check_count build_root
decode input = do
  fields ← decode_prologue input root_keys Words.schema_index_root container_corrupt
  values ← required_array fields Words.word_blocks container_corrupt
  blocks ← decode_blocks values
  check_count (count_chunk_tables blocks)
  content ← required_map fields Words.word_content container_corrupt
  reject_unknown_keys content content_keys container_corrupt
  build_root fields content blocks

unfoldable pub find_chunk_table : List BlockDescriptor → Result BlockDescriptor
unfolding is_chunk_table
find_chunk_table [] = err missing_required_block
find_chunk_table (block ∷ blocks) =
    if is_chunk_table block then ok block else find_chunk_table blocks

-- `IndexRoot::chunk_table_block`
unfoldable pub chunk_table_block : IndexRoot → Result BlockDescriptor
unfolding find_chunk_table
chunk_table_block root = find_chunk_table root.blocks

-- The derived `==` of `Checksum`.
unfoldable pub checksum_eq : Checksum → Checksum → Bool
checksum_eq a b = bytes_eq a.algorithm b.algorithm && bytes_eq a.value b.value

unfoldable pub validate_source_consistency : Metadata → IndexRoot → Result (Unit {0})
unfolding checksum_eq
validate_source_consistency metadata root = do
  reject_if (not (bytes_eq metadata.container_id root.container_id)) container_id_mismatch
  reject_if
      (metadata.original_size != root.original_size
        || not (checksum_eq metadata.original_checksum root.original_checksum)
        || metadata.line_count != root.line_count)
      metadata_invalid
