-- ===== src/Skeleton/BlocksAt.antt =====
-- src/skeleton.rs: the copies of the parsers of the optional blocks that read through `ReadAt`,
-- `parse_dictionary_blocks_at`, `parse_dense_line_index_at` and `parse_document_index_at`.
use qzt.Base.{ℕ, List, [], ◌∷◌, ◌++◌, Option, none, some, ◌||◌, not}
use qzt.Base.{bytes_eq}
use qzt.Error.{Result, ok, reject_if, ◌>>=◌, ◌>>◌, container_corrupt, chunk_table_invalid}
use qzt.Error.{dictionary_checksum_mismatch, container_id_mismatch}
use qzt.Error.{chunk_table_checksum_mismatch}
use qzt.Limits.{ResourceLimits, enforce_index_block_size, cbor_limits}
use qzt.ChunkTable.{ChunkEntry}
use qzt.DenseLineIndex.{DenseLineIndex, decode_for_chunks_with_limit}
use qzt.Cbor.Parser.{validate_deterministic_with_limits}
use qzt.Schema.IndexRoot.{BlockDescriptor, checksum_eq}
use qzt.Schema.Dictionary.{DictionaryEntry, decode_with_limits, digest}
use qzt.Schema.Documents.{DocumentIndex, decode as decode_documents_block}
use qzt.Schema.Words
use qzt.Io.{ReadAt}
use qzt.Skeleton.{read_physical_at}
use qzt.Skeleton.Blocks.{blocks_of, has_dictionary, block_range, is_some}

-- The loop over the dictionaries of one block, which are pushed unless their id is there already.
unfoldable pub push_dictionaries_at :
    List DictionaryEntry → List DictionaryEntry → Result (List DictionaryEntry)
push_dictionaries_at dictionaries [] = ok dictionaries
push_dictionaries_at dictionaries (entry ∷ more) = do
  reject_if (has_dictionary dictionaries entry.dictionary_id) container_corrupt
  push_dictionaries_at (dictionaries ++ (entry ∷ [])) more

module _ (blake3 : List ℕ → List ℕ) (reader : ReadAt) (final_file_size : ℕ)
    (limits : ResourceLimits) where
  unfoldable pub read_dictionary_block_at : List ℕ → BlockDescriptor → Result (List DictionaryEntry)
  read_dictionary_block_at container_id block = do
    reject_if (block.required || not (bytes_eq block.codec Words.dictionary_codec))
        container_corrupt
    enforce_index_block_size limits block.size
    bytes ← read_physical_at reader final_file_size (block_range block)
    reject_if (not (checksum_eq (digest blake3 bytes) block.checksum)) dictionary_checksum_mismatch
    value ← validate_deterministic_with_limits bytes (cbor_limits limits)
    decoded ← decode_with_limits blake3 bytes limits.max_dictionary_size
    reject_if (not (bytes_eq decoded.container_id container_id)) container_id_mismatch
    ok decoded.dictionaries

  unfoldable pub dictionary_loop_at :
      List ℕ → List BlockDescriptor → List DictionaryEntry → Result (List DictionaryEntry)
  dictionary_loop_at container_id [] dictionaries = ok dictionaries
  dictionary_loop_at container_id (block ∷ blocks) dictionaries = do
    decoded ← read_dictionary_block_at container_id block
    dictionaries' ← push_dictionaries_at dictionaries decoded
    dictionary_loop_at container_id blocks dictionaries'

  unfoldable pub parse_dictionary_blocks_at :
      List BlockDescriptor → List ℕ → Result (List DictionaryEntry)
  parse_dictionary_blocks_at blocks container_id =
      dictionary_loop_at container_id (blocks_of Words.word_dictionary blocks) []

  unfoldable pub read_dense_block_at : List ChunkEntry → BlockDescriptor → Result DenseLineIndex
  read_dense_block_at entries block = do
    bytes ← read_physical_at reader final_file_size (block_range block)
    reject_if (not (checksum_eq (digest blake3 bytes) block.checksum)) chunk_table_checksum_mismatch
    decode_for_chunks_with_limit bytes entries limits.max_dense_line_index_allocation

  unfoldable pub dense_loop_at :
      List ChunkEntry
      → List BlockDescriptor
      → Option DenseLineIndex
      → Result (Option DenseLineIndex)
  dense_loop_at entries [] dense = ok dense
  dense_loop_at entries (block ∷ blocks) dense = do
    reject_if (block.required || not (bytes_eq block.codec Words.dense_line_index_codec))
        chunk_table_invalid
    reject_if (is_some dense) chunk_table_invalid
    index ← read_dense_block_at entries block
    dense_loop_at entries blocks (some index)

  unfoldable pub parse_dense_line_index_at :
      List BlockDescriptor → List ChunkEntry → Result (Option DenseLineIndex)
  parse_dense_line_index_at blocks entries =
      dense_loop_at entries (blocks_of Words.word_dense_line_index blocks) none

  unfoldable pub read_document_block_at : List ℕ → BlockDescriptor → Result DocumentIndex
  read_document_block_at container_id block = do
    bytes ← read_physical_at reader final_file_size (block_range block)
    reject_if (not (checksum_eq (digest blake3 bytes) block.checksum)) container_corrupt
    value ← validate_deterministic_with_limits bytes (cbor_limits limits)
    index ← decode_documents_block bytes
    reject_if (not (bytes_eq index.container_id container_id)) container_id_mismatch
    ok index

  unfoldable pub document_loop_at :
      List ℕ → List BlockDescriptor → Option DocumentIndex → Result (Option DocumentIndex)
  document_loop_at container_id [] found = ok found
  document_loop_at container_id (block ∷ blocks) found = do
    reject_if (block.required || not (bytes_eq block.codec Words.document_index_codec))
        container_corrupt
    reject_if (is_some found) container_corrupt
    index ← read_document_block_at container_id block
    document_loop_at container_id blocks (some index)

  unfoldable pub parse_document_index_at :
      List BlockDescriptor → List ℕ → Result (Option DocumentIndex)
  parse_document_index_at blocks container_id =
      document_loop_at container_id (blocks_of Words.word_document_index blocks) none
