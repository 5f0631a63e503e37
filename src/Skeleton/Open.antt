-- ===== src/Skeleton/Open.antt =====
-- src/skeleton.rs: `open_skeleton_details_with_limits`, cut into its stages. The copy that reads through
-- `ReadAt` is in Skeleton/OpenAt.antt.
use qzt.Base.{ℕ, List, [], ◌∷◌, ◌++◌, ◌||◌, ◌+◌, ◌!=◌, ltb, not, length, bytes_eq}
use qzt.Base.{if◌then◌else◌}
use qzt.Error.{Result, ok, reject_if, ◌>>=◌, ◌>>◌, invalid_header, invalid_footer_trailer}
use qzt.Error.{footer_checksum_mismatch, final_file_size_mismatch, container_id_mismatch}
use qzt.Error.{metadata_invalid, metadata_checksum_mismatch, index_root_checksum_mismatch}
use qzt.Error.{chunk_table_invalid, chunk_table_checksum_mismatch}
use qzt.Primitives.{usize_to_u64}
use qzt.Limits.{ResourceLimits, default_limits, enforce_index_block_size, enforce_chunk_sizes}
use qzt.Limits.{cbor_limits}
use qzt.Format.{header_len, footer_trailer_len}
use qzt.Fixed.{Header, FooterTrailer, PhysicalRange, decode_header, decode_trailer}
use qzt.Fixed.{validate_physical_ranges}
use qzt.ChunkTable.{ChunkEntry, validate_chunk_table_block}
use qzt.Cbor.Parser.{validate_deterministic_with_limits}
use qzt.Schema.{BlockRef}
use qzt.Schema.Footer.{FooterPayload, decode as decode_footer}
use qzt.Schema.Metadata.{Metadata}
use qzt.Schema.Metadata.Decode.{decode as decode_metadata}
use qzt.Schema.IndexRoot.{
  BlockDescriptor, IndexRoot, chunk_table_block, checksum_eq, validate_source_consistency,
}
use qzt.Schema.IndexRoot.{decode as decode_index_root}
use qzt.Schema.Dictionary.{digest}
use qzt.Schema.Words
use qzt.Skeleton.{SkeletonSummary, SkeletonDetails, build_document_lookup, Source, memory_source}
use qzt.Skeleton.Blocks.{
  parse_dictionary_blocks, validate_required_dictionaries, parse_dense_line_index,
}
use qzt.Skeleton.Blocks.{parse_document_index, block_range}

-- `for block in &index_root.blocks { enforce_index_block_size(..)?; }`
unfoldable pub enforce_blocks : ResourceLimits → List BlockDescriptor → Result (Unit {0})
enforce_blocks limits [] = ok tt
enforce_blocks limits (block ∷ blocks) = do
  enforce_index_block_size limits block.size
  enforce_blocks limits blocks

-- `for entry in &chunk_entries { limits.enforce_chunk_sizes(..)?; }`
unfoldable pub enforce_entries : ResourceLimits → List ChunkEntry → Result (Unit {0})
enforce_entries limits [] = ok tt
enforce_entries limits (entry ∷ entries) = do
  enforce_chunk_sizes limits entry.compressed_size entry.uncompressed_size
  enforce_entries limits entries

abbrev pub ref_range : BlockRef → PhysicalRange
ref_range block = record { offset = block.offset; size = block.size }

-- The ranges of the blocks that the vector of ranges does not hold yet.
unfoldable pub extra_ranges : List BlockDescriptor → List PhysicalRange
extra_ranges [] = []
extra_ranges (block ∷ blocks) =
    if bytes_eq block.block_type Words.word_metadata
      || bytes_eq block.block_type Words.word_chunk_table
    then extra_ranges blocks
    else block_range block ∷ extra_ranges blocks

abbrev pub entry_range : ChunkEntry → PhysicalRange
entry_range entry = record { offset = entry.physical_offset; size = entry.compressed_size }

abbrev pub entry_ranges : List ChunkEntry → List PhysicalRange
entry_ranges [] = []
entry_ranges (entry ∷ entries) = entry_range entry ∷ entry_ranges entries

-- `ranges`
unfoldable pub physical_ranges :
    Header
    → FooterTrailer
    → FooterPayload
    → BlockDescriptor
    → IndexRoot
    → List ChunkEntry
    → List PhysicalRange
unfolding extra_ranges
physical_ranges header trailer footer table root entries =
    record { offset = header.metadata_offset; size = header.metadata_size }
    ∷ ref_range footer.index_root
    ∷ record { offset = trailer.footer_payload_offset; size = trailer.footer_payload_size }
    ∷ block_range table
    ∷ (extra_ranges root.blocks ++ entry_ranges entries)

module _ (blake3 : List ℕ → List ℕ) (source : Source) (limits : ResourceLimits) where
  unfoldable pub open_footer : FooterTrailer → Header → Result FooterPayload
  open_footer trailer header = do
    bytes ←
        source.read
          (record { offset = trailer.footer_payload_offset; size = trailer.footer_payload_size })
    reject_if (not (bytes_eq (blake3 bytes) trailer.footer_payload_checksum_blake3))
        footer_checksum_mismatch
    value ← validate_deterministic_with_limits bytes (cbor_limits limits)
    footer ← decode_footer bytes
    reject_if (footer.final_file_size != source.file_size) final_file_size_mismatch
    reject_if (not (bytes_eq footer.container_id header.container_id)) container_id_mismatch
    reject_if
        (footer.metadata.offset != header.metadata_offset
          || footer.metadata.size != header.metadata_size)
        metadata_invalid
    ok footer

  unfoldable pub open_metadata : FooterPayload → Header → Result Metadata
  open_metadata footer header = do
    enforce_index_block_size limits footer.metadata.size
    bytes ← source.read (ref_range footer.metadata)
    reject_if (not (checksum_eq (digest blake3 bytes) footer.metadata.checksum))
        metadata_checksum_mismatch
    value ← validate_deterministic_with_limits bytes (cbor_limits limits)
    metadata ← decode_metadata bytes
    reject_if (not (bytes_eq metadata.container_id header.container_id)) container_id_mismatch
    ok metadata

  unfoldable pub open_index_root : FooterPayload → Metadata → Result IndexRoot
  open_index_root footer metadata = do
    enforce_index_block_size limits footer.index_root.size
    bytes ← source.read (ref_range footer.index_root)
    reject_if (not (checksum_eq (digest blake3 bytes) footer.index_root.checksum))
        index_root_checksum_mismatch
    value ← validate_deterministic_with_limits bytes (cbor_limits limits)
    root ← decode_index_root bytes
    validate_source_consistency metadata root
    ok root

  unfoldable pub open_chunk_table : IndexRoot → BlockDescriptor → Result (List ChunkEntry)
  open_chunk_table root table = do
    reject_if (not (bytes_eq table.codec Words.chunk_table_codec)) chunk_table_invalid
    enforce_blocks limits root.blocks
    bytes ← source.read (block_range table)
    reject_if (not (checksum_eq (digest blake3 bytes) table.checksum)) chunk_table_checksum_mismatch
    entries ← validate_chunk_table_block bytes root.chunk_count root.original_size root.line_count
    enforce_entries limits entries
    ok entries

  -- The optional blocks and the result.
  unfoldable pub open_blocks :
      Header
      → FooterTrailer
      → FooterPayload
      → Metadata
      → IndexRoot
      → List ChunkEntry
      → Result SkeletonDetails
  open_blocks header trailer footer metadata root entries = do
    dictionaries ← parse_dictionary_blocks blake3 source limits root.blocks header.container_id
    validate_required_dictionaries entries dictionaries
    dense ← parse_dense_line_index blake3 source limits root.blocks entries
    documents ← parse_document_index blake3 source limits root.blocks header.container_id
    ok (record {
      summary = record {
        container_id = header.container_id;
        original_size = root.original_size;
        chunk_count = root.chunk_count;
        line_count = root.line_count;
      };
      chunk_entries = entries;
      metadata = metadata;
      footer_payload = footer;
      footer_payload_offset = trailer.footer_payload_offset;
      dictionaries = dictionaries;
      dense_line_index = dense;
      document_index = documents;
      document_lookup = build_document_lookup documents;
    })

  unfoldable pub open_body : Result SkeletonDetails
  open_body = do
    header_bytes ← source.header_bytes
    header ← decode_header header_bytes
    trailer_bytes ← source.trailer_bytes
    trailer ← decode_trailer trailer_bytes
    footer ← open_footer trailer header
    metadata ← open_metadata footer header
    root ← open_index_root footer metadata
    table ← chunk_table_block root
    entries ← open_chunk_table root table
    validate_physical_ranges source.file_size
        (physical_ranges header trailer footer table root entries)
    open_blocks header trailer footer metadata root entries

-- The tests at the start.
unfoldable pub check_length : ℕ → Result (Unit {0})
check_length size = do
  reject_if (ltb size header_len) invalid_header
  reject_if (ltb size (header_len + footer_trailer_len)) invalid_footer_trailer

module _ (blake3 : List ℕ → List ℕ) where
  unfoldable pub open_skeleton_details_with_limits :
      List ℕ → ResourceLimits → Result SkeletonDetails
  unfolding memory_source check_length
  open_skeleton_details_with_limits bytes limits = do
    check_length (length bytes)
    size ← usize_to_u64 (length bytes)
    open_body blake3 (memory_source bytes size) limits

  unfoldable pub open_skeleton_details : List ℕ → Result SkeletonDetails
  open_skeleton_details bytes = open_skeleton_details_with_limits bytes default_limits

  unfoldable pub open_skeleton : List ℕ → Result SkeletonSummary
  open_skeleton bytes = do details ← open_skeleton_details bytes; ok details.summary
