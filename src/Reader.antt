-- ===== src/Reader.antt =====
-- src/reader.rs: the readers of a container, the cache of the last chunk, and reads of byte ranges.
pub mod Lines
pub mod Verify
pub mod Slices
pub mod RangeLoop
pub mod Range
pub mod Totals
pub mod Export
mod Runs
use Prim.Native.Nat.{max}
use qzt.Base.{
  ℕ, List, [], ◌∷◌, ◌++◌, Bool, true, false, Option, none, some, ◌+◌, ◌-◌, ◌==◌, ◌!=◌, min,
}
use qzt.Base.{leb, ltb, not, length, drop, bytes_eq, checked_add, if◌then◌else◌, get_elem?}
use qzt.Error.{Result, ok, err, ok_or, or_panic, reject_if, ◌>>=◌, ◌>>◌, resource_limit_exceeded}
use qzt.Error.{compressed_chunk_checksum_mismatch, missing_dictionary, chunk_size_mismatch}
use qzt.Error.{uncompressed_chunk_checksum_mismatch, logical_range_out_of_bounds, container_corrupt}
use qzt.Error.{missing_required_block, document_not_found, verified_checksum_mismatch}
use qzt.Error.{invalid_utf8_boundary}
use qzt.Base.Utf8.{is_utf8}
use qzt.Primitives.{checked_logical_end, u64_to_usize, usize_to_u64}
use qzt.Limits.{ResourceLimits}
use qzt.Fixed.{PhysicalRange}
use qzt.ChunkTable.{ChunkEntry, chunk_index_for_logical_offset, logical_end}
use qzt.Codec.{Zstd, decode_chunk}
use qzt.Schema.{Checksum}
use qzt.Schema.Words.{word_blake3}
use qzt.Schema.IndexRoot.{checksum_eq}
use qzt.Schema.Dictionary.{DictionaryEntry, digest}
use qzt.Schema.Documents.{DocumentEntry, DocumentIndex}
use qzt.Io.{ReadAt, get_range}
use qzt.Skeleton.{SkeletonDetails, slice_physical, read_physical_at, lookup_id}
use qzt.Skeleton.OpenAt.{open_skeleton_details_read_at}
use qzt.Skeleton.Open.{entry_range, open_skeleton_details_with_limits}

-- `QztReader` and `QztFileReader`, which differ in how they read a physical range only.
pub record QztReader : Type 0 where
  pub read : PhysicalRange → Result (List ℕ)
  pub details : SkeletonDetails

-- `ChunkDecodeCache`
pub record ChunkDecodeCache : Type 0 where
  pub chunk_id : Option ℕ
  pub decoded : List ℕ
  pub physical_decoded_bytes : ℕ
  pub decoded_chunks : ℕ
  pub compressed_bytes : ℕ

-- `ChunkDecodeCache::new`
abbrev pub new_cache : ChunkDecodeCache
new_cache = record {
  chunk_id = none;
  decoded = [];
  physical_decoded_bytes = 0;
  decoded_chunks = 0;
  compressed_bytes = 0;
}

-- `self.chunk_id == Some(id)`
unfoldable pub is_cached : Option ℕ → ℕ → Bool
is_cached none id = false
is_cached (some cached) id = cached == id

-- The range of the original that is read.
pub record Span : Type 0 where
  pub offset : ℕ
  pub end : ℕ

-- `dictionaries.iter().find(..).map(|dictionary| dictionary.bytes)`
unfoldable pub find_dictionary : List DictionaryEntry → ℕ → Option (List ℕ)
find_dictionary [] id = none
find_dictionary (entry ∷ more) id =
    if entry.dictionary_id == id then some entry.bytes else find_dictionary more id

unfoldable pub dictionary_bytes : List DictionaryEntry → ℕ → Result (List ℕ)
unfolding find_dictionary
dictionary_bytes dictionaries id =
    if id == 0 then ok [] else ok_or (find_dictionary dictionaries id) missing_dictionary

-- The part of a decoded chunk that lies in the range.
unfoldable pub chunk_piece : Span → ChunkEntry → ℕ → List ℕ → Result (List ℕ)
chunk_piece span entry chunk_end decoded = do
  local_start ← u64_to_usize (max span.offset entry.logical_offset - entry.logical_offset)
  local_end ← u64_to_usize (min span.end chunk_end - entry.logical_offset)
  or_panic (get_range decoded local_start local_end)

module _ (decode_entry : ChunkEntry → Result (List ℕ)) where
  -- The part of `decoded_entry` that a chunk takes which is not in the cache. The cache of a failed
  -- read is given up with it.
  unfoldable pub fill_cache : ChunkDecodeCache → ChunkEntry → Result ChunkDecodeCache
  fill_cache cache entry = do
    decoded ← decode_entry entry
    bytes ←
        ok_or (checked_add cache.physical_decoded_bytes entry.uncompressed_size)
          resource_limit_exceeded
    chunks ← ok_or (checked_add cache.decoded_chunks 1) resource_limit_exceeded
    compressed ←
        ok_or (checked_add cache.compressed_bytes entry.compressed_size) resource_limit_exceeded
    ok (record {
      chunk_id = some entry.chunk_id;
      decoded = decoded;
      physical_decoded_bytes = bytes;
      decoded_chunks = chunks;
      compressed_bytes = compressed;
    })

  -- `ChunkDecodeCache::decoded_entry`, whose result is what the cache holds afterwards.
  unfoldable pub decoded_entry : ChunkDecodeCache → ChunkEntry → Result ChunkDecodeCache
  unfolding fill_cache
  decoded_entry cache entry =
      if is_cached cache.chunk_id entry.chunk_id then ok cache else fill_cache cache entry

  -- The `while let` loop; the list is `entries[index..]`.
  unfoldable pub copy_chunks :
      List ChunkEntry → ChunkDecodeCache → Span → List ℕ → Result (List ℕ × ChunkDecodeCache)
  copy_chunks [] cache span output = ok (output, cache)
  copy_chunks (entry ∷ entries) cache span output = do
    chunk_end ← logical_end entry
    let copied = do
      cache' ← decoded_entry cache entry
      piece ← chunk_piece span entry chunk_end cache'.decoded
      copy_chunks entries cache' span (output ++ piece)
    if leb span.end entry.logical_offset then ok (output, cache) else copied

  -- The part of `read_range_from_entries_cached` for a length above zero.
  unfoldable pub read_span :
      List ChunkEntry → Span → ℕ → ChunkDecodeCache → Result (List ℕ × ChunkDecodeCache)
  read_span entries span len cache = do
    index ← chunk_index_for_logical_offset entries span.offset
    (output, cache') ← copy_chunks (drop index entries) cache span []
    size ← usize_to_u64 (length output)
    reject_if (size != len) container_corrupt
    ok (output, cache')

  unfoldable pub read_range_from_entries_cached :
      List ChunkEntry → ℕ → ℕ → ℕ → ChunkDecodeCache → Result (List ℕ × ChunkDecodeCache)
  unfolding read_span
  read_range_from_entries_cached entries original_size offset len cache = do
    end ← checked_logical_end offset len
    reject_if (ltb original_size end) logical_range_out_of_bounds
    if len == 0
        then ok ([], cache)
        else read_span entries (record { offset = offset; end = end }) len cache

  -- `read_range_from_entries`; the metrics of `read_range_with_metrics_from_entries` are those of the
  -- cache.
  unfoldable pub read_range_from_entries : List ChunkEntry → ℕ → ℕ → ℕ → Result (List ℕ)
  read_range_from_entries entries original_size offset len = do
    (bytes, cache) ← read_range_from_entries_cached entries original_size offset len new_cache
    ok bytes

  -- The loop of `export_to`, into a writer that keeps all it is given.
  unfoldable pub export_entries : List ChunkEntry → List ℕ → Result (List ℕ)
  export_entries [] output = ok output
  export_entries (entry ∷ entries) output = do
    decoded ← decode_entry entry
    export_entries entries (output ++ decoded)

-- `find_document`
unfoldable pub find_document : SkeletonDetails → List ℕ → Result DocumentEntry
find_document details doc_id = do
  index ← ok_or details.document_index missing_required_block
  position ← ok_or (lookup_id details.document_lookup doc_id) document_not_found
  ok_or (get_elem? index.documents position) document_not_found

module _ (blake3 : List ℕ → List ℕ) (zstd : Zstd) where
  unfoldable pub decode_compressed_entry :
      ChunkEntry → List ℕ → List DictionaryEntry → Result (List ℕ)
  decode_compressed_entry entry compressed dictionaries = do
    reject_if (not (bytes_eq (blake3 compressed) entry.compressed_checksum_blake3))
        compressed_chunk_checksum_mismatch
    dictionary ← dictionary_bytes dictionaries entry.dictionary_id
    decoded ← decode_chunk zstd compressed dictionary entry.uncompressed_size
    size ← usize_to_u64 (length decoded)
    reject_if (size != entry.uncompressed_size) chunk_size_mismatch
    reject_if (not (bytes_eq (blake3 decoded) entry.uncompressed_checksum_blake3))
        uncompressed_chunk_checksum_mismatch
    ok decoded

  -- `decode_entry`
  unfoldable pub decode_entry : QztReader → ChunkEntry → Result (List ℕ)
  decode_entry reader entry = do
    compressed ← reader.read (entry_range entry)
    decode_compressed_entry entry compressed reader.details.dictionaries

  -- `QztReader::open_with_limits`
  unfoldable pub open_with_limits : List ℕ → ResourceLimits → Result QztReader
  open_with_limits bytes limits = do
    details ← open_skeleton_details_with_limits blake3 bytes limits
    ok (record { read = slice_physical bytes; details = details })

  -- `QztFileReader::open_read_at_with_limits`
  unfoldable pub open_read_at_with_limits : ReadAt → ℕ → ResourceLimits → Result QztReader
  open_read_at_with_limits source len limits = do
    details ← open_skeleton_details_read_at blake3 source len limits
    ok (record { read = read_physical_at source len; details = details })

  unfoldable pub export_all : QztReader → Result (List ℕ)
  export_all reader = export_entries (decode_entry reader) reader.details.chunk_entries []

  unfoldable pub read_range : QztReader → ℕ → ℕ → Result (List ℕ)
  read_range reader offset len =
      read_range_from_entries (decode_entry reader) reader.details.chunk_entries
        reader.details.summary.original_size offset len

  -- `read_text_range`
  unfoldable pub read_text_range : QztReader → ℕ → ℕ → Result (List ℕ)
  read_text_range reader offset len = do
    bytes ← read_range reader offset len
    reject_if (not (is_utf8 bytes)) invalid_utf8_boundary
    ok bytes

  unfoldable pub verify_expected_checksum : List ℕ → Checksum → Result (Unit {0})
  verify_expected_checksum bytes expected = do
    reject_if (not (bytes_eq expected.algorithm word_blake3)) container_corrupt
    reject_if (not (checksum_eq (digest blake3 bytes) expected)) verified_checksum_mismatch

  unfoldable pub read_range_verified : QztReader → ℕ → ℕ → Checksum → Result (List ℕ)
  read_range_verified reader offset len expected = do
    bytes ← read_range reader offset len
    verify_expected_checksum bytes expected
    ok bytes

  unfoldable pub read_document : QztReader → List ℕ → Result (List ℕ)
  read_document reader doc_id = do
    document ← find_document reader.details doc_id
    read_range reader document.logical_offset document.byte_length
