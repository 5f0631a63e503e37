-- ===== src/ChunkTable/Runs.antt =====
-- Runs of the chunk table at concrete values.
use qzt.Base.{ℕ, zero, suc, ◌+◌, ◌<◌, ◌≤◌, ◌≡◌, ◌↔◌, refl, List, [], ◌∷◌, arith, length, All}
use qzt.Base.{IsByte, IsU64, replicate, get_elem?, some, are_bytes→All}
use qzt.Error.{ok, err, chunk_table_invalid}
use qzt.Primitives.{read_u32_le, read_u64_le, checked_logical_end}
use qzt.ChunkTable.{ChunkEntry, encode, decode, partition_by_end, logical_end}
use qzt.ChunkTable.{
  chunk_index_for_logical_offset, validate_chunk_table_block, decode_records, check_table,
}
use qzt.ChunkTable.{check_entries, check_entry}
use qzt.ChunkTable.RoundTrip.{IsEntry, decode-encode, decode_canonical}
use qzt.ChunkTable.Tiling.{Tiles}
use qzt.ChunkTable.Validate.{Describes, encode_all, validate_chunk_table_block_iff}
use qzt.ChunkTable.Search.{HasEnds, Ascending, Splits, partition_by_end-Splits}
use qzt.ChunkTable.Locate.{chunk_index_for_logical_offset_lem}

abbrev entry : ℕ → ℕ → ℕ → ℕ → ChunkEntry
entry index offset size line = record {
  chunk_id = index;
  physical_offset = 200;
  compressed_size = 9;
  logical_offset = offset;
  uncompressed_size = size;
  first_line = line;
  line_count = 1;
  dictionary_id = 0;
  flags = 0;
  compressed_checksum_blake3 = replicate 32 1;
  uncompressed_checksum_blake3 = replicate 32 2;
}

-- Ten bytes and two lines in two chunks.
abbrev two_entries : List ChunkEntry
two_entries = entry 0 0 4 0 ∷ entry 1 4 6 1 ∷ []

entry-IsEntry :
    (index offset size line : ℕ)
    → IsU64 index
    → IsU64 offset
    → IsU64 size
    → IsU64 line
    → IsEntry (entry index offset size line)
entry-IsEntry index offset size line h₁ h₂ h₃ h₄ = record {
  chunk_id_u64 = h₁;
  physical_offset_u64 = omega arith;
  compressed_size_u64 = omega arith;
  logical_offset_u64 = h₂;
  uncompressed_size_u64 = h₃;
  first_line_u64 = h₄;
  line_count_u64 = omega arith;
  dictionary_id_u32 = omega arith;
  flags_u32 = omega arith;
  compressed_len = refl;
  uncompressed_len = refl;
}

two_entries-Tiles : Tiles 0 0 0 two_entries 10 2
two_entries-Tiles = (
  refl,
  refl,
  refl,
  omega arith,
  omega arith,
  omega arith,
  omega arith,
  (refl, refl, refl, omega arith, omega arith, omega arith, omega arith, (refl, refl)),
)

block_passes : validate_chunk_table_block (encode_all two_entries) 2 10 2 ≡ ok two_entries
unfolding validate_chunk_table_block encode decode decode_records check_table check_entries
    check_entry read_u64_le read_u32_le
block_passes = refl

-- A gap between the two chunks.
gap_fails :
    validate_chunk_table_block (encode_all (entry 0 0 4 0 ∷ entry 1 5 5 1 ∷ [])) 2 10 2
    ≡ err chunk_table_invalid
unfolding validate_chunk_table_block encode decode decode_records check_table check_entries
    check_entry read_u64_le read_u32_le
gap_fails = refl

last_decodes : decode (encode (entry 1 4 6 1)) ≡ ok (entry 1 4 6 1)
unfolding encode decode read_u64_le read_u32_le
last_decodes = refl

last_bytes : All IsByte (encode (entry 1 4 6 1))
unfolding encode
last_bytes = are_bytes→All (encode (entry 1 4 6 1)) refl

block_bytes : All IsByte (encode_all two_entries)
unfolding encode
block_bytes = are_bytes→All (encode_all two_entries) refl

block_fits : IsU64 (length (encode_all two_entries))
unfolding encode
block_fits = omega arith

-- Where the entries end.
abbrev ends : ℕ → ℕ
ends zero = 4
ends (suc i) = 10

two_entries-HasEnds : HasEnds two_entries 4 logical_end ends
unfolding checked_logical_end
two_entries-HasEnds zero h = (entry 0 0 4 0, refl, refl)
two_entries-HasEnds (suc zero) h = (entry 1 4 6 1, refl, refl)
two_entries-HasEnds (suc (suc i)) h = absurd (omega arith)

two_entries-Ascending : Ascending two_entries 4 logical_end ends
two_entries-Ascending zero zero h k = omega arith
two_entries-Ascending zero (suc j) h k = omega arith
two_entries-Ascending (suc i) zero h k = absurd (omega arith)
two_entries-Ascending (suc i) (suc j) h k = omega arith

decode-encode_example : decode (encode (entry 1 4 6 1)) ≡ ok (entry 1 4 6 1)
decode-encode_example =
    decode-encode (entry 1 4 6 1)
      (entry-IsEntry 1 4 6 1 (omega arith) (omega arith) (omega arith) (omega arith))

decode_canonical_example :
    IsEntry (entry 1 4 6 1) × (encode (entry 1 4 6 1) ≡ encode (entry 1 4 6 1))
decode_canonical_example =
    decode_canonical (encode (entry 1 4 6 1)) (entry 1 4 6 1) last_bytes last_decodes

validate_chunk_table_block_iff_example :
    (validate_chunk_table_block (encode_all two_entries) 2 10 2 ≡ ok two_entries)
    ↔ Describes (encode_all two_entries) 2 10 2 two_entries
validate_chunk_table_block_iff_example =
    validate_chunk_table_block_iff (encode_all two_entries) 2 10 2 two_entries block_bytes
      block_fits (omega arith) (omega arith)

partition_by_end-Splits_example :
    (r : ℕ) × (partition_by_end two_entries 4 logical_end ≡ ok r)
    × Splits two_entries 4 logical_end ends r
partition_by_end-Splits_example =
    partition_by_end-Splits two_entries 4 logical_end ends two_entries-HasEnds two_entries-Ascending

chunk_index_for_logical_offset_lem_example :
    (r : ℕ) × (e : ChunkEntry) × (chunk_index_for_logical_offset two_entries 4 ≡ ok r)
    × (get_elem? two_entries r ≡ some e)
    × (e.logical_offset ≤ 4)
    × (4 < e.logical_offset + e.uncompressed_size)
chunk_index_for_logical_offset_lem_example =
    chunk_index_for_logical_offset_lem 10 2 two_entries two_entries-Tiles (omega arith) 4
      (omega arith)
