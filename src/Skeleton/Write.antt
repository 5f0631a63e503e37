-- ===== src/Skeleton/Write.antt =====
-- src/skeleton.rs: `fixed_point_footer_payload` and `write_empty_container`.
pub mod FixedPoint
pub mod Sizes
pub mod Rounds
use qzt.Base.{ℕ, zero, suc, List, [], ◌∷◌, ◌++◌, Option, none, some, ◌+◌, ◌==◌, length, checked_add}
use qzt.Base.{if◌then◌else◌}
use qzt.Error.{Result, ok, err, ok_or, ◌>>=◌, container_corrupt, physical_range_out_of_bounds}
use qzt.Primitives.{usize_to_u64}
use qzt.Format.{header_len, footer_trailer_len}
use qzt.Fixed.{Header, FooterTrailer, encode_header, encode_trailer}
use qzt.Schema.{Checksum, BlockRef}
use qzt.Schema.Footer.{FooterPayload, encode as encode_footer}
use qzt.Schema.Metadata.{Metadata, empty, encode as encode_metadata}
use qzt.Schema.IndexRoot.{IndexRoot, chunk_table, encode as encode_index_root}
use qzt.Schema.Dictionary.{digest}

-- The payload of one round.
unfoldable pub candidate : List ℕ → BlockRef → BlockRef → Option Checksum → ℕ → FooterPayload
candidate container_id index_root metadata checksum final_file_size = record {
  container_id = container_id;
  index_root = index_root;
  metadata = metadata;
  final_file_size = final_file_size;
  footer_flags = 0;
  container_checksum = checksum;
}

-- The size of the file whose footer payload has the bytes.
unfoldable pub next_size : ℕ → List ℕ → Result ℕ
next_size footer_payload_offset encoded = do
  size ← usize_to_u64 (length encoded)
  end ← ok_or (checked_add footer_payload_offset size) physical_range_out_of_bounds
  ok_or (checked_add end footer_trailer_len) physical_range_out_of_bounds

-- The rounds that are left, and the size that the last one found.
unfoldable pub fixed_point_loop : ℕ → (ℕ → FooterPayload) → ℕ → ℕ → Result FooterPayload
unfolding next_size
fixed_point_loop zero payload footer_payload_offset final_file_size = err container_corrupt
fixed_point_loop (suc rounds) payload footer_payload_offset final_file_size = do
  encoded ← encode_footer (payload final_file_size)
  next ← next_size footer_payload_offset encoded
  let again = fixed_point_loop rounds payload footer_payload_offset next
  if next == final_file_size then ok (payload final_file_size) else again

unfoldable pub fixed_point_footer_payload :
    List ℕ → BlockRef → BlockRef → ℕ → Option Checksum → Result FooterPayload
unfolding fixed_point_loop candidate
fixed_point_footer_payload container_id index_root metadata footer_payload_offset checksum =
    fixed_point_loop 8 (candidate container_id index_root metadata checksum) footer_payload_offset 0

module _ (blake3 : List ℕ → List ℕ) where
  -- The bytes of the container from its parts.
  unfoldable pub assemble :
      List ℕ → List ℕ → List ℕ → List ℕ → ℕ → ℕ → ℕ → ℕ → FooterPayload → Result (List ℕ)
  assemble container_id metadata_bytes table_bytes root_bytes metadata_offset metadata_size
        root_offset footer_payload_offset payload =
      do
        footer_bytes ← encode_footer payload
        size ← usize_to_u64 (length footer_bytes)
        let trailer : FooterTrailer = record {
          footer_payload_offset = footer_payload_offset;
          footer_payload_size = size;
          footer_payload_checksum_blake3 = blake3 footer_bytes;
        }
        let header : Header = record {
          metadata_offset = metadata_offset;
          metadata_size = metadata_size;
          index_hint_offset = root_offset;
          container_id = container_id;
        }
        ok (
            encode_header header
            ++ (metadata_bytes
                ++ (table_bytes ++ (root_bytes ++ (footer_bytes ++ encode_trailer trailer)))))

  unfoldable pub write_empty_container : List ℕ → Result (List ℕ)
  unfolding assemble
  write_empty_container container_id = do
    let metadata = empty blake3 container_id
    metadata_bytes ← encode_metadata metadata
    metadata_size ← usize_to_u64 (length metadata_bytes)
    table_offset ← ok_or (checked_add header_len metadata_size) physical_range_out_of_bounds
    let table = chunk_table table_offset 0 (digest blake3 [])
    let root : IndexRoot = record {
      container_id = container_id;
      blocks = table ∷ [];
      original_size = metadata.original_size;
      original_checksum = metadata.original_checksum;
      chunk_count = 0;
      line_count = metadata.line_count;
    }
    root_bytes ← encode_index_root root
    root_offset ← ok_or (checked_add table_offset 0) physical_range_out_of_bounds
    root_size ← usize_to_u64 (length root_bytes)
    footer_offset ← ok_or (checked_add root_offset root_size) physical_range_out_of_bounds
    let root_ref : BlockRef = record {
      offset = root_offset;
      size = root_size;
      checksum = digest blake3 root_bytes;
    }
    let metadata_ref : BlockRef = record {
      offset = header_len;
      size = metadata_size;
      checksum = digest blake3 metadata_bytes;
    }
    payload ← fixed_point_footer_payload container_id root_ref metadata_ref footer_offset none
    assemble container_id metadata_bytes [] root_bytes header_len metadata_size root_offset
        footer_offset payload
