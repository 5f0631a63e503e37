-- ===== src/Skeleton/Stages.antt =====
-- The stages of opening a container, src/skeleton.rs.
use qzt.Base.{ℕ, ◌≡◌, List, ◌||◌, ◌!=◌, not}
use qzt.Base.{length, All, IsByte, IsU64, not_inv, bytes_eq, bytes_eq→eq}
use qzt.Error.{ok, reject_if, reject_if_inv, reject_if-ne_inv, >>=-eq-ok}
use qzt.Error.{ok-injective, metadata_invalid, container_id_mismatch, final_file_size_mismatch}
use qzt.Error.{footer_checksum_mismatch, metadata_checksum_mismatch, index_root_checksum_mismatch}
use qzt.Error.{chunk_table_invalid, chunk_table_checksum_mismatch}
use qzt.Limits.{ResourceLimits, enforce_index_block_size, cbor_limits}
use qzt.Cbor.Parser.{validate_deterministic_with_limits}
use qzt.Fixed.{Header, FooterTrailer, PhysicalRange}
use qzt.ChunkTable.{ChunkEntry, validate_chunk_table_block}
use qzt.ChunkTable.Tiling.{Tiles}
use qzt.ChunkTable.Validate.{validate_chunk_table_block_iff}
use qzt.Schema.{Checksum}
use qzt.Schema.Footer.{FooterPayload, decode as decode_footer}
use qzt.Schema.Accepted.{IsFooterPayload, decode-IsFooterPayload}
use qzt.Schema.Metadata.{Metadata}
use qzt.Schema.Metadata.Decode.{decode as decode_metadata}
use qzt.Schema.Metadata.Accepted.{IsMetadata, decode-IsMetadata}
use qzt.Schema.IndexRoot.{BlockDescriptor, IndexRoot, checksum_eq, validate_source_consistency}
use qzt.Schema.IndexRoot.{decode as decode_index_root}
use qzt.Schema.IndexRoot.Accepted.{IsIndexRoot, decode-IsIndexRoot}
use qzt.Schema.Dictionary.{digest}
use qzt.Schema.Dictionary.Accepted.{checksum_eq→eq}
use qzt.Schema.Words
use qzt.Skeleton.{Source}
use qzt.Skeleton.Blocks.{block_range}
use qzt.Skeleton.Open.{enforce_blocks, enforce_entries, ref_range}
use qzt.Skeleton.Open.{open_footer, open_metadata, open_index_root, open_chunk_table}
use qzt.Skeleton.Checks.{Within, SameSource, enforce_entries-Within}
use qzt.Skeleton.Checks.{validate_source_consistency-SameSource}

module _ (blake3 : List ℕ → List ℕ) (source : Source) (limits : ResourceLimits) where
  -- The bytes at the range have the digest.
  abbrev pub Stored : PhysicalRange → Checksum → Type 0
  Stored range checksum =
      (bytes : List ℕ) × (source.read range ≡ ok bytes) × (digest blake3 bytes ≡ checksum)

  pub record FooterOpened (header : Header) (f : FooterPayload) : Type 0 where
    pub footer_valid : IsFooterPayload f
    pub footer_size : f.final_file_size ≡ source.file_size
    pub footer_id : f.container_id ≡ header.container_id

  pub open_footer-FooterOpened :
      (trailer : FooterTrailer) (header : Header) (f : FooterPayload)
      → open_footer blake3 source limits trailer header ≡ ok f
      → FooterOpened header f
  unfolding open_footer
  open_footer-FooterOpened trailer header f h =
      let (bytes, _, h₁) = >>=-eq-ok (source.read _) _ h in
      let sum = not (bytes_eq (blake3 bytes) trailer.footer_payload_checksum_blake3) in
      let (_, _, h₂) = >>=-eq-ok (reject_if sum footer_checksum_mismatch) _ h₁ in
      let (_, _, h₃) =
        >>=-eq-ok (validate_deterministic_with_limits bytes (cbor_limits limits)) _ h₂ in
      let (g, c₄, h₄) = >>=-eq-ok (decode_footer bytes) _ h₃ in
      let size = g.final_file_size != source.file_size in
      let (_, c₅, h₅) = >>=-eq-ok (reject_if size final_file_size_mismatch) _ h₄ in
      let ids = not (bytes_eq g.container_id header.container_id) in
      let (_, c₆, h₆) = >>=-eq-ok (reject_if ids container_id_mismatch) _ h₅ in
      let place =
        g.metadata.offset != header.metadata_offset || g.metadata.size != header.metadata_size in
      let (_, _, h₇) = >>=-eq-ok (reject_if place metadata_invalid) _ h₆ in
      let same = not_inv _ (reject_if_inv ids container_id_mismatch c₆) in
      rw (← ok-injective h₇) (record {
        footer_valid = decode-IsFooterPayload bytes g c₄;
        footer_size =
            reject_if-ne_inv g.final_file_size source.file_size final_file_size_mismatch c₅;
        footer_id = bytes_eq→eq g.container_id header.container_id same;
      })

  pub record MetadataOpened (header : Header) (f : FooterPayload) (m : Metadata) : Type 0 where
    pub metadata_valid : IsMetadata m
    pub metadata_id : m.container_id ≡ header.container_id
    pub metadata_stored : Stored (ref_range f.metadata) f.metadata.checksum

  pub open_metadata-MetadataOpened :
      (f : FooterPayload) (header : Header) (m : Metadata)
      → open_metadata blake3 source limits f header ≡ ok m
      → MetadataOpened header f m
  unfolding open_metadata
  open_metadata-MetadataOpened f header m h =
      let (_, _, h₁) = >>=-eq-ok (enforce_index_block_size limits f.metadata.size) _ h in
      let (bytes, c₂, h₂) = >>=-eq-ok (source.read (ref_range f.metadata)) _ h₁ in
      let sum = not (checksum_eq (digest blake3 bytes) f.metadata.checksum) in
      let (_, c₃, h₃) = >>=-eq-ok (reject_if sum metadata_checksum_mismatch) _ h₂ in
      let (_, _, h₄) =
        >>=-eq-ok (validate_deterministic_with_limits bytes (cbor_limits limits)) _ h₃ in
      let (n, c₅, h₅) = >>=-eq-ok (decode_metadata bytes) _ h₄ in
      let ids = not (bytes_eq n.container_id header.container_id) in
      let (_, c₆, h₆) = >>=-eq-ok (reject_if ids container_id_mismatch) _ h₅ in
      let agree = not_inv _ (reject_if_inv sum metadata_checksum_mismatch c₃) in
      let same = not_inv _ (reject_if_inv ids container_id_mismatch c₆) in
      rw (← ok-injective h₆) (record {
        metadata_valid = decode-IsMetadata bytes n c₅;
        metadata_id = bytes_eq→eq n.container_id header.container_id same;
        metadata_stored =
            (bytes, c₂, checksum_eq→eq (digest blake3 bytes) f.metadata.checksum agree);
      })

  pub record RootOpened (f : FooterPayload) (m : Metadata) (r : IndexRoot) : Type 0 where
    pub root_valid : IsIndexRoot r
    pub same_source : SameSource m r
    pub root_stored : Stored (ref_range f.index_root) f.index_root.checksum

  pub open_index_root-RootOpened :
      (f : FooterPayload) (m : Metadata) (r : IndexRoot)
      → open_index_root blake3 source limits f m ≡ ok r
      → RootOpened f m r
  unfolding open_index_root
  open_index_root-RootOpened f m r h =
      let (_, _, h₁) = >>=-eq-ok (enforce_index_block_size limits f.index_root.size) _ h in
      let (bytes, c₂, h₂) = >>=-eq-ok (source.read (ref_range f.index_root)) _ h₁ in
      let sum = not (checksum_eq (digest blake3 bytes) f.index_root.checksum) in
      let (_, c₃, h₃) = >>=-eq-ok (reject_if sum index_root_checksum_mismatch) _ h₂ in
      let (_, _, h₄) =
        >>=-eq-ok (validate_deterministic_with_limits bytes (cbor_limits limits)) _ h₃ in
      let (s, c₅, h₅) = >>=-eq-ok (decode_index_root bytes) _ h₄ in
      let (_, c₆, h₆) = >>=-eq-ok (validate_source_consistency m s) _ h₅ in
      let agree = not_inv _ (reject_if_inv sum index_root_checksum_mismatch c₃) in
      rw (← ok-injective h₆) (record {
        root_valid = decode-IsIndexRoot bytes s c₅;
        same_source = validate_source_consistency-SameSource m s c₆;
        root_stored = (bytes, c₂, checksum_eq→eq (digest blake3 bytes) f.index_root.checksum agree);
      })

  -- Whatever the source reads is bytes, and no more than a u64 counts.
  abbrev pub ReadsBytes : Type 0
  ReadsBytes =
      (range : PhysicalRange) (bytes : List ℕ)
      → source.read range ≡ ok bytes
      → All IsByte bytes × IsU64 (length bytes)

  pub record TableOpened (r : IndexRoot) (t : BlockDescriptor) (es : List ChunkEntry) : Type 0 where
    pub table_codec : t.codec ≡ Words.chunk_table_codec
    pub table_count : length es ≡ r.chunk_count
    pub table_tiles : Tiles 0 0 0 es r.original_size r.line_count
    pub table_within : All (Within limits) es
    pub table_stored : Stored (block_range t) t.checksum

  pub open_chunk_table-TableOpened :
      (r : IndexRoot) (t : BlockDescriptor) (es : List ChunkEntry)
      → ReadsBytes
      → IsIndexRoot r
      → open_chunk_table blake3 source limits r t ≡ ok es
      → TableOpened r t es
  unfolding open_chunk_table
  open_chunk_table-TableOpened r t es reads valid h =
      let kind = not (bytes_eq t.codec Words.chunk_table_codec) in
      let (_, c₁, h₁) = >>=-eq-ok (reject_if kind chunk_table_invalid) _ h in
      let (_, _, h₂) = >>=-eq-ok (enforce_blocks limits r.blocks) _ h₁ in
      let (bytes, c₃, h₃) = >>=-eq-ok (source.read (block_range t)) _ h₂ in
      let sum = not (checksum_eq (digest blake3 bytes) t.checksum) in
      let (_, c₄, h₄) = >>=-eq-ok (reject_if sum chunk_table_checksum_mismatch) _ h₃ in
      let table = validate_chunk_table_block bytes r.chunk_count r.original_size r.line_count in
      let (fs, c₅, h₅) = >>=-eq-ok table _ h₄ in
      let (_, c₆, h₆) = >>=-eq-ok (enforce_entries limits fs) _ h₅ in
      let (are_bytes, wide) = reads (block_range t) bytes c₃ in
      let (_, _, count, tiles) =
        (validate_chunk_table_block_iff bytes r.chunk_count r.original_size r.line_count fs
            are_bytes wide valid.original_size_u64 valid.line_count_u64).0
          c₅ in
      let agree = not_inv _ (reject_if_inv sum chunk_table_checksum_mismatch c₄) in
      let named = not_inv _ (reject_if_inv kind chunk_table_invalid c₁) in
      rw (← ok-injective h₆) (record {
        table_codec = bytes_eq→eq t.codec Words.chunk_table_codec named;
        table_count = count;
        table_tiles = tiles;
        table_within = enforce_entries-Within limits fs c₆;
        table_stored = (bytes, c₃, checksum_eq→eq (digest blake3 bytes) t.checksum agree);
      })
