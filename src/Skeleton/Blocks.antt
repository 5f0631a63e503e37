-- ===== src/Skeleton/Blocks.antt =====
-- src/skeleton.rs: the optional blocks of a container, `parse_dictionary_blocks`,
-- `parse_dense_line_index` and `parse_document_index`, and `validate_required_dictionaries`.
use qzt.Base.{ℕ, List, [], ◌∷◌, ◌++◌, Bool, true, false, Option, none, some, ◌||◌, ◌==◌, not}
use qzt.Base.{bytes_eq, if◌then◌else◌}
use qzt.Error.{Result, ok, reject_if, ◌>>=◌, ◌>>◌, container_corrupt, chunk_table_invalid}
use qzt.Error.{dictionary_checksum_mismatch, container_id_mismatch, missing_dictionary}
use qzt.Error.{chunk_table_checksum_mismatch}
use qzt.Limits.{ResourceLimits, enforce_index_block_size, cbor_limits}
use qzt.Fixed.{PhysicalRange}
use qzt.ChunkTable.{ChunkEntry}
use qzt.DenseLineIndex.{DenseLineIndex, decode_for_chunks_with_limit}
use qzt.Cbor.Parser.{validate_deterministic_with_limits}
use qzt.Schema.IndexRoot.{BlockDescriptor, checksum_eq}
use qzt.Schema.Dictionary.{DictionaryEntry, decode_with_limits, digest}
use qzt.Schema.Documents.{DocumentIndex, decode as decode_documents_block}
use qzt.Schema.Words
use qzt.Skeleton.{Source}

-- `blocks.iter().filter(|block| block.block_type == kind)`
unfoldable pub blocks_of : List ℕ → List BlockDescriptor → List BlockDescriptor
blocks_of kind [] = []
blocks_of kind (block ∷ blocks) =
    if bytes_eq block.block_type kind then block ∷ blocks_of kind blocks else blocks_of kind blocks

unfoldable pub has_dictionary : List DictionaryEntry → ℕ → Bool
has_dictionary [] id = false
has_dictionary (entry ∷ more) id = entry.dictionary_id == id || has_dictionary more id

-- The loop over the dictionaries of one block, which are pushed unless their id is there already.
unfoldable pub push_dictionaries :
    List DictionaryEntry → List DictionaryEntry → Result (List DictionaryEntry)
unfolding has_dictionary
push_dictionaries dictionaries [] = ok dictionaries
push_dictionaries dictionaries (entry ∷ more) = do
  reject_if (has_dictionary dictionaries entry.dictionary_id) container_corrupt
  push_dictionaries (dictionaries ++ (entry ∷ [])) more

unfoldable pub validate_required_dictionaries :
    List ChunkEntry → List DictionaryEntry → Result (Unit {0})
unfolding has_dictionary
validate_required_dictionaries [] dictionaries = ok tt
validate_required_dictionaries (entry ∷ more) dictionaries = do
  reject_if (not (entry.dictionary_id == 0 || has_dictionary dictionaries entry.dictionary_id))
      missing_dictionary
  validate_required_dictionaries more dictionaries

abbrev pub block_range : BlockDescriptor → PhysicalRange
block_range block = record { offset = block.offset; size = block.size }

unfoldable pub is_some {ℓ} : {A : Type ℓ} → Option A → Bool
is_some none = false
is_some (some a) = true

module _ (blake3 : List ℕ → List ℕ) (source : Source) (limits : ResourceLimits) where
  unfoldable pub read_dictionary_block : List ℕ → BlockDescriptor → Result (List DictionaryEntry)
  read_dictionary_block container_id block = do
    reject_if (block.required || not (bytes_eq block.codec Words.dictionary_codec))
        container_corrupt
    enforce_index_block_size limits block.size
    bytes ← source.read (block_range block)
    reject_if (not (checksum_eq (digest blake3 bytes) block.checksum)) dictionary_checksum_mismatch
    value ← validate_deterministic_with_limits bytes (cbor_limits limits)
    decoded ← decode_with_limits blake3 bytes limits.max_dictionary_size
    reject_if (not (bytes_eq decoded.container_id container_id)) container_id_mismatch
    ok decoded.dictionaries

  unfoldable pub dictionary_loop :
      List ℕ → List BlockDescriptor → List DictionaryEntry → Result (List DictionaryEntry)
  dictionary_loop container_id [] dictionaries = ok dictionaries
  dictionary_loop container_id (block ∷ blocks) dictionaries = do
    decoded ← read_dictionary_block container_id block
    dictionaries' ← push_dictionaries dictionaries decoded
    dictionary_loop container_id blocks dictionaries'

  unfoldable pub parse_dictionary_blocks :
      List BlockDescriptor → List ℕ → Result (List DictionaryEntry)
  parse_dictionary_blocks blocks container_id =
      dictionary_loop container_id (blocks_of Words.word_dictionary blocks) []

  unfoldable pub read_dense_block : List ChunkEntry → BlockDescriptor → Result DenseLineIndex
  read_dense_block entries block = do
    bytes ← source.read (block_range block)
    reject_if (not (checksum_eq (digest blake3 bytes) block.checksum)) chunk_table_checksum_mismatch
    decode_for_chunks_with_limit bytes entries limits.max_dense_line_index_allocation

  unfoldable pub dense_loop :
      List ChunkEntry
      → List BlockDescriptor
      → Option DenseLineIndex
      → Result (Option DenseLineIndex)
  dense_loop entries [] dense = ok dense
  dense_loop entries (block ∷ blocks) dense = do
    reject_if (block.required || not (bytes_eq block.codec Words.dense_line_index_codec))
        chunk_table_invalid
    reject_if (is_some dense) chunk_table_invalid
    index ← read_dense_block entries block
    dense_loop entries blocks (some index)

  unfoldable pub parse_dense_line_index :
      List BlockDescriptor → List ChunkEntry → Result (Option DenseLineIndex)
  parse_dense_line_index blocks entries =
      dense_loop entries (blocks_of Words.word_dense_line_index blocks) none

  unfoldable pub read_document_block : List ℕ → BlockDescriptor → Result DocumentIndex
  read_document_block container_id block = do
    bytes ← source.read (block_range block)
    reject_if (not (checksum_eq (digest blake3 bytes) block.checksum)) container_corrupt
    value ← validate_deterministic_with_limits bytes (cbor_limits limits)
    index ← decode_documents_block bytes
    reject_if (not (bytes_eq index.container_id container_id)) container_id_mismatch
    ok index

  unfoldable pub document_loop :
      List ℕ → List BlockDescriptor → Option DocumentIndex → Result (Option DocumentIndex)
  document_loop container_id [] found = ok found
  document_loop container_id (block ∷ blocks) found = do
    reject_if (block.required || not (bytes_eq block.codec Words.document_index_codec))
        container_corrupt
    reject_if (is_some found) container_corrupt
    index ← read_document_block container_id block
    document_loop container_id blocks (some index)

  unfoldable pub parse_document_index :
      List BlockDescriptor → List ℕ → Result (Option DocumentIndex)
  parse_document_index blocks container_id =
      document_loop container_id (blocks_of Words.word_document_index blocks) none
