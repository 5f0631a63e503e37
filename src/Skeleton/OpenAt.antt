-- ===== src/Skeleton/OpenAt.antt =====
-- src/skeleton.rs: `open_skeleton_details_read_at`, cut into stages as the opening of bytes in memory
-- is in Skeleton/Open.antt. The checks of the stages are written again, as they are in the source.
use qzt.Base.{ℕ, List, [], ◌∷◌, ◌++◌, ◌||◌, ◌+◌, ◌!=◌, ltb, not, bytes_eq}
use qzt.Base.{if◌then◌else◌}
use qzt.Error.{Result, ok, reject_if, ◌>>=◌, ◌>>◌, invalid_header, invalid_footer_trailer}
use qzt.Error.{footer_checksum_mismatch, final_file_size_mismatch, container_id_mismatch}
use qzt.Error.{metadata_invalid, metadata_checksum_mismatch, index_root_checksum_mismatch}
use qzt.Error.{chunk_table_invalid, chunk_table_checksum_mismatch}
use qzt.Limits.{ResourceLimits, enforce_index_block_size, enforce_chunk_sizes}
use qzt.Limits.{cbor_limits}
use qzt.Format.{header_len, footer_trailer_len}
use qzt.Fixed.{Header, FooterTrailer, PhysicalRange, decode_header, decode_trailer}
use qzt.Fixed.{validate_physical_ranges}
use qzt.ChunkTable.{ChunkEntry, validate_chunk_table_block}
use qzt.Cbor.Parser.{validate_deterministic_with_limits}
use qzt.Schema.Footer.{FooterPayload, decode as decode_footer}
use qzt.Schema.Metadata.{Metadata}
use qzt.Schema.Metadata.Decode.{decode as decode_metadata}
use qzt.Schema.IndexRoot.{
  BlockDescriptor, IndexRoot, chunk_table_block, checksum_eq, validate_source_consistency,
}
use qzt.Schema.IndexRoot.{decode as decode_index_root}
use qzt.Schema.Dictionary.{digest}
use qzt.Schema.Words
use qzt.Io.{ReadAt}
use qzt.Skeleton.{SkeletonDetails, build_document_lookup}
use qzt.Base.{checked_sub}
use qzt.Error.{ok_or}
use qzt.Skeleton.{read_physical_at, read_exact_at_qzt}
use qzt.Skeleton.Blocks.{validate_required_dictionaries, block_range}
use qzt.Skeleton.BlocksAt.{
  parse_dictionary_blocks_at, parse_dense_line_index_at, parse_document_index_at,
}
use qzt.Skeleton.Open.{ref_range, entry_range}

-- `for block in &index_root.blocks { enforce_index_block_size(..)?; }`
unfoldable pub enforce_blocks_at : ResourceLimits → List BlockDescriptor → Result (Unit {0})
enforce_blocks_at limits [] = ok tt
enforce_blocks_at limits (block ∷ blocks) = do
  enforce_index_block_size limits block.size
  enforce_blocks_at limits blocks

-- `for entry in &chunk_entries { limits.enforce_chunk_sizes(..)?; }`
unfoldable pub enforce_entries_at : ResourceLimits → List ChunkEntry → Result (Unit {0})
enforce_entries_at limits [] = ok tt
enforce_entries_at limits (entry ∷ entries) = do
  enforce_chunk_sizes limits entry.compressed_size entry.uncompressed_size
  enforce_entries_at limits entries

-- The ranges of the blocks that the vector of ranges does not hold yet.
unfoldable pub extra_ranges_at : List BlockDescriptor → List PhysicalRange
extra_ranges_at [] = []
extra_ranges_at (block ∷ blocks) =
    if bytes_eq block.block_type Words.word_metadata
      || bytes_eq block.block_type Words.word_chunk_table
    then extra_ranges_at blocks
    else block_range block ∷ extra_ranges_at blocks

abbrev pub entry_ranges_at : List ChunkEntry → List PhysicalRange
entry_ranges_at [] = []
entry_ranges_at (entry ∷ entries) = entry_range entry ∷ entry_ranges_at entries

-- `ranges`
unfoldable pub physical_ranges_at :
    Header
    → FooterTrailer
    → FooterPayload
    → BlockDescriptor
    → IndexRoot
    → List ChunkEntry
    → List PhysicalRange
unfolding extra_ranges_at
physical_ranges_at header trailer footer table root entries =
    record { offset = header.metadata_offset; size = header.metadata_size }
    ∷ ref_range footer.index_root
    ∷ record { offset = trailer.footer_payload_offset; size = trailer.footer_payload_size }
    ∷ block_range table
    ∷ (extra_ranges_at root.blocks ++ entry_ranges_at entries)

module _ (blake3 : List ℕ → List ℕ) (reader : ReadAt) (final_file_size : ℕ)
    (limits : ResourceLimits) where
  unfoldable pub open_footer_at : FooterTrailer → Header → Result FooterPayload
  open_footer_at trailer header = do
    bytes ←
        read_physical_at reader final_file_size
          (record { offset = trailer.footer_payload_offset; size = trailer.footer_payload_size })
    reject_if (not (bytes_eq (blake3 bytes) trailer.footer_payload_checksum_blake3))
        footer_checksum_mismatch
    value ← validate_deterministic_with_limits bytes (cbor_limits limits)
    footer ← decode_footer bytes
    reject_if (footer.final_file_size != final_file_size) final_file_size_mismatch
    reject_if (not (bytes_eq footer.container_id header.container_id)) container_id_mismatch
    reject_if
        (footer.metadata.offset != header.metadata_offset
          || footer.metadata.size != header.metadata_size)
        metadata_invalid
    ok footer

  unfoldable pub open_metadata_at : FooterPayload → Header → Result Metadata
  open_metadata_at footer header = do
    enforce_index_block_size limits footer.metadata.size
    bytes ← read_physical_at reader final_file_size (ref_range footer.metadata)
    reject_if (not (checksum_eq (digest blake3 bytes) footer.metadata.checksum))
        metadata_checksum_mismatch
    value ← validate_deterministic_with_limits bytes (cbor_limits limits)
    metadata ← decode_metadata bytes
    reject_if (not (bytes_eq metadata.container_id header.container_id)) container_id_mismatch
    ok metadata

  unfoldable pub open_index_root_at : FooterPayload → Metadata → Result IndexRoot
  open_index_root_at footer metadata = do
    enforce_index_block_size limits footer.index_root.size
    bytes ← read_physical_at reader final_file_size (ref_range footer.index_root)
    reject_if (not (checksum_eq (digest blake3 bytes) footer.index_root.checksum))
        index_root_checksum_mismatch
    value ← validate_deterministic_with_limits bytes (cbor_limits limits)
    root ← decode_index_root bytes
    validate_source_consistency metadata root
    ok root

  unfoldable pub open_chunk_table_at : IndexRoot → BlockDescriptor → Result (List ChunkEntry)
  open_chunk_table_at root table = do
    reject_if (not (bytes_eq table.codec Words.chunk_table_codec)) chunk_table_invalid
    enforce_blocks_at limits root.blocks
    bytes ← read_physical_at reader final_file_size (block_range table)
    reject_if (not (checksum_eq (digest blake3 bytes) table.checksum)) chunk_table_checksum_mismatch
    entries ← validate_chunk_table_block bytes root.chunk_count root.original_size root.line_count
    enforce_entries_at limits entries
    ok entries

  -- The optional blocks and the result.
  unfoldable pub open_blocks_at :
      Header
      → FooterTrailer
      → FooterPayload
      → Metadata
      → IndexRoot
      → List ChunkEntry
      → Result SkeletonDetails
  open_blocks_at header trailer footer metadata root entries = do
    dictionaries ←
        parse_dictionary_blocks_at blake3 reader final_file_size limits root.blocks
          header.container_id
    validate_required_dictionaries entries dictionaries
    dense ← parse_dense_line_index_at blake3 reader final_file_size limits root.blocks entries
    documents ←
        parse_document_index_at blake3 reader final_file_size limits root.blocks header.container_id
    ok (record {
      summary = record {
        container_id = header.container_id;
        original_size = root.original_size;
        chunk_count = root.chunk_count;
        line_count = root.line_count;
      };
      chunk_entries = entries;
      metadata = metadata;
      footer_payload = footer;
      footer_payload_offset = trailer.footer_payload_offset;
      dictionaries = dictionaries;
      dense_line_index = dense;
      document_index = documents;
      document_lookup = build_document_lookup documents;
    })

  unfoldable pub open_body_at : Result SkeletonDetails
  open_body_at = do
    header_bytes ← read_exact_at_qzt reader 0 header_len
    header ← decode_header header_bytes
    trailer_offset ← ok_or (checked_sub final_file_size footer_trailer_len) invalid_footer_trailer
    trailer_bytes ← read_exact_at_qzt reader trailer_offset footer_trailer_len
    trailer ← decode_trailer trailer_bytes
    footer ← open_footer_at trailer header
    metadata ← open_metadata_at footer header
    root ← open_index_root_at footer metadata
    table ← chunk_table_block root
    entries ← open_chunk_table_at root table
    validate_physical_ranges final_file_size
        (physical_ranges_at header trailer footer table root entries)
    open_blocks_at header trailer footer metadata root entries

module _ (blake3 : List ℕ → List ℕ) where
  unfoldable pub open_skeleton_details_read_at :
      ReadAt → ℕ → ResourceLimits → Result SkeletonDetails
  open_skeleton_details_read_at reader final_file_size limits = do
    reject_if (ltb final_file_size header_len) invalid_header
    reject_if (ltb final_file_size (header_len + footer_trailer_len)) invalid_footer_trailer
    open_body_at blake3 reader final_file_size limits
