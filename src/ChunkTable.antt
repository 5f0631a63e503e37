-- ===== src/ChunkTable.antt =====
-- src/chunk_table.rs: the 128-byte entries of the chunk table, the search for an entry by its end,
-- and the validation of a whole chunk table block.
pub mod RoundTrip
pub mod Search
pub mod Locate
pub mod Tiling
pub mod Validate
mod Runs
use Prim.Native.Nat.{bit_and}
use qzt.Base.{
  ℕ, zero, suc, ◌+◌, ◌-◌, ◌*◌, ◌/◌, ◌%◌, List, [], ◌∷◌, ◌++◌, Bool, ◌||◌, Option, none, some,
}
use qzt.Base.{ltb, leb, ◌==◌, ◌!=◌, if◌then◌else◌, not}
use qzt.Base.{length, get_elem?, take, drop, slice, checked_add, to_le_bytes}
use qzt.Error.{Result, ok, err, ok_or, or_panic, reject_if, ◌>>=◌, ◌>>◌}
use qzt.Error.{chunk_table_invalid, chunk_count_mismatch, chunk_size_mismatch, invalid_flags}
use qzt.Error.{logical_range_out_of_bounds}
use qzt.Primitives.{read_u32_le, read_u64_le, usize_to_u64, checked_logical_end}

abbrev pub chunk_entry_len : ℕ
chunk_entry_len = 128

abbrev pub starts_with_line_continuation : ℕ
starts_with_line_continuation = 1

pub record ChunkEntry : Type 0 where
  pub chunk_id : ℕ
  pub physical_offset : ℕ
  pub compressed_size : ℕ
  pub logical_offset : ℕ
  pub uncompressed_size : ℕ
  pub first_line : ℕ
  pub line_count : ℕ
  pub dictionary_id : ℕ
  pub flags : ℕ
  pub compressed_checksum_blake3 : List ℕ
  pub uncompressed_checksum_blake3 : List ℕ

-- `ChunkEntry::encode`: the fields are written at consecutive offsets that fill the buffer.
unfoldable pub encode : ChunkEntry → List ℕ
encode e =
    to_le_bytes 8 e.chunk_id
    ++ (to_le_bytes 8 e.physical_offset
        ++ (to_le_bytes 8 e.compressed_size
            ++ (to_le_bytes 8 e.logical_offset
                ++ (to_le_bytes 8 e.uncompressed_size
                    ++ (to_le_bytes 8 e.first_line
                        ++ (to_le_bytes 8 e.line_count
                            ++ (to_le_bytes 4 e.dictionary_id
                                ++ (to_le_bytes 4 e.flags
                                    ++ (e.compressed_checksum_blake3
                                        ++ e.uncompressed_checksum_blake3)))))))))

-- `bytes.try_into::<[u8; 32]>()`
unfoldable pub read_checksum : List ℕ → Result (List ℕ)
read_checksum bytes = if length bytes == 32 then ok bytes else err chunk_table_invalid

-- `ChunkEntry::decode`
unfoldable pub decode : List ℕ → Result ChunkEntry
unfolding read_checksum
decode bytes = do
  reject_if (length bytes != chunk_entry_len) chunk_table_invalid
  chunk_id ← read_u64_le (slice 0 8 bytes)
  physical_offset ← read_u64_le (slice 8 16 bytes)
  compressed_size ← read_u64_le (slice 16 24 bytes)
  logical_offset ← read_u64_le (slice 24 32 bytes)
  uncompressed_size ← read_u64_le (slice 32 40 bytes)
  first_line ← read_u64_le (slice 40 48 bytes)
  line_count ← read_u64_le (slice 48 56 bytes)
  dictionary_id ← read_u32_le (slice 56 60 bytes)
  flags ← read_u32_le (slice 60 64 bytes)
  compressed ← read_checksum (slice 64 96 bytes)
  uncompressed ← read_checksum (slice 96 128 bytes)
  ok (record {
    chunk_id = chunk_id;
    physical_offset = physical_offset;
    compressed_size = compressed_size;
    logical_offset = logical_offset;
    uncompressed_size = uncompressed_size;
    first_line = first_line;
    line_count = line_count;
    dictionary_id = dictionary_id;
    flags = flags;
    compressed_checksum_blake3 = compressed;
    uncompressed_checksum_blake3 = uncompressed;
  })

-- The `while low < high` loop of `partition_by_end`. The first argument bounds the rounds left;
-- with at least `high - low` of them the loop ends by its own test.
unfoldable pub partition_loop : ℕ → List ChunkEntry → ℕ → (ChunkEntry → Result ℕ) → ℕ → ℕ → Result ℕ
partition_loop zero entries target end_of low high = ok low
partition_loop (suc rounds) entries target end_of low high =
    let mid = low + (high - low) / 2 in
    let right = partition_loop rounds entries target end_of (mid + 1) high in
    let left = partition_loop rounds entries target end_of low mid in
    if ltb low high
    then (do
      entry ← or_panic (get_elem? entries mid)
      end ← end_of entry
      if leb end target then right else left)
    else ok low

unfoldable pub partition_by_end : List ChunkEntry → ℕ → (ChunkEntry → Result ℕ) → Result ℕ
partition_by_end entries target end_of =
    partition_loop (length entries) entries target end_of 0 (length entries)

abbrev pub logical_end : ChunkEntry → Result ℕ
logical_end entry = checked_logical_end entry.logical_offset entry.uncompressed_size

unfoldable pub chunk_index_for_logical_offset : List ChunkEntry → ℕ → Result ℕ
chunk_index_for_logical_offset entries offset = partition_by_end entries offset logical_end

-- `bytes.chunks_exact(CHUNK_ENTRY_LEN)`, each record decoded: `count` records are left.
unfoldable pub decode_records : ℕ → List ℕ → Result (List ChunkEntry)
decode_records zero bytes = ok []
decode_records (suc count) bytes = do
  entry ← decode (take chunk_entry_len bytes)
  rest ← decode_records count (drop chunk_entry_len bytes)
  ok (entry ∷ rest)

-- The variables that the validation loop carries from entry to entry.
pub record Progress : Type 0 where
  pub index : ℕ
  pub expected_logical_offset : ℕ
  pub expected_first_line : ℕ
  pub total_uncompressed_size : ℕ
  pub total_line_count : ℕ

abbrev pub start_progress : Progress
start_progress = record {
  index = 0;
  expected_logical_offset = 0;
  expected_first_line = 0;
  total_uncompressed_size = 0;
  total_line_count = 0;
}

-- `entry.flags & !STARTS_WITH_LINE_CONTINUATION != 0`, for a 32-bit `flags`.
unfoldable pub has_unknown_flags : ℕ → Bool
has_unknown_flags flags = bit_and flags 0xffff_fffe != 0

-- The body of the validation loop.
unfoldable pub check_entry : Progress → ChunkEntry → Result Progress
unfolding has_unknown_flags usize_to_u64
check_entry p entry = do
  index ← usize_to_u64 p.index
  reject_if (entry.chunk_id != index) chunk_table_invalid
  reject_if (entry.logical_offset != p.expected_logical_offset) chunk_table_invalid
  reject_if (entry.first_line != p.expected_first_line) chunk_table_invalid
  reject_if (entry.compressed_size == 0 || entry.uncompressed_size == 0) chunk_size_mismatch
  reject_if (ltb entry.uncompressed_size entry.line_count) chunk_table_invalid
  reject_if (has_unknown_flags entry.flags) invalid_flags
  offset ←
      ok_or (checked_add p.expected_logical_offset entry.uncompressed_size)
        logical_range_out_of_bounds
  line ← ok_or (checked_add p.expected_first_line entry.line_count) logical_range_out_of_bounds
  size ←
      ok_or (checked_add p.total_uncompressed_size entry.uncompressed_size)
        logical_range_out_of_bounds
  lines ← ok_or (checked_add p.total_line_count entry.line_count) logical_range_out_of_bounds
  ok (record {
    index = p.index + 1;
    expected_logical_offset = offset;
    expected_first_line = line;
    total_uncompressed_size = size;
    total_line_count = lines;
  })

unfoldable pub check_entries : Progress → List ChunkEntry → Result Progress
check_entries p [] = ok p
check_entries p (entry ∷ entries) = do p' ← check_entry p entry; check_entries p' entries

-- The part of `validate_chunk_table_block` behind the decoding of the records.
unfoldable pub check_table : ℕ → ℕ → List ChunkEntry → Result (List ChunkEntry)
check_table original_size line_count entries = do
  total ← check_entries start_progress entries
  reject_if (total.total_uncompressed_size != original_size || total.total_line_count != line_count)
      chunk_size_mismatch
  ok entries

-- The allocation of the entry vector is taken to succeed.
unfoldable pub validate_chunk_table_block : List ℕ → ℕ → ℕ → ℕ → Result (List ChunkEntry)
validate_chunk_table_block bytes chunk_count original_size line_count = do
  reject_if (length bytes % chunk_entry_len != 0) chunk_table_invalid
  actual_count ← usize_to_u64 (length bytes / chunk_entry_len)
  reject_if (actual_count != chunk_count) chunk_count_mismatch
  if original_size == 0
      then (if chunk_count != 0 || line_count != 0 || length bytes != 0
          then err chunk_count_mismatch
          else ok [])
      else (do
        reject_if (chunk_count == 0) chunk_count_mismatch
        reject_if (ltb original_size line_count) chunk_table_invalid
        entries ← decode_records (length bytes / chunk_entry_len) bytes
        check_table original_size line_count entries)
