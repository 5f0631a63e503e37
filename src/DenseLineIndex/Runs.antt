-- ===== src/DenseLineIndex/Runs.antt =====
-- Runs of the dense line index at concrete values.
use qzt.Base.{ℕ, List, [], ◌∷◌, ◌≡◌, refl, are_bytes→All, replicate}
use qzt.Error.{ok, err, chunk_table_invalid}
use qzt.Primitives.{usize_to_u64, u64_to_usize}
use qzt.Varuint.{read_varuint}
use qzt.ChunkTable.{ChunkEntry}
use qzt.DenseLineIndex.{DenseLineIndex, encode, decode_for_chunks_with_limit, decode_entries}
use qzt.DenseLineIndex.{
  decode_offsets, offset_of, allocation_bytes, from_original_bytes, entries_from_bytes,
}
use qzt.DenseLineIndex.{entry_from_bytes, line_start_offsets}
use qzt.DenseLineIndex.Entries.{Fits}
use qzt.DenseLineIndex.Canonical.{decode_for_chunks_canonical}

-- "a", LF, "b", LF, "c"
abbrev text : List ℕ
text = b'a' ∷ b'\n' ∷ b'b' ∷ b'\n' ∷ b'c' ∷ []

-- Its three lines in one chunk.
abbrev one_chunk : List ChunkEntry
one_chunk =
    record {
      chunk_id = 0;
      physical_offset = 200;
      compressed_size = 9;
      logical_offset = 0;
      uncompressed_size = 5;
      first_line = 0;
      line_count = 3;
      dictionary_id = 0;
      flags = 0;
      compressed_checksum_blake3 = replicate 32 1;
      uncompressed_checksum_blake3 = replicate 32 2;
    }
    ∷ []

abbrev index : DenseLineIndex
index = record { entries = record { chunk_id = 0; line_start_offsets = 0 ∷ 2 ∷ 4 ∷ [] } ∷ [] }

-- One entry: chunk 0, three offsets, and their differences.
abbrev stored : List ℕ
stored = 1 ∷ 0 ∷ 3 ∷ 0 ∷ 2 ∷ 2 ∷ []

index_of_text : from_original_bytes text one_chunk ≡ ok index
unfolding from_original_bytes entries_from_bytes entry_from_bytes line_start_offsets
index_of_text = refl

stored_decodes : decode_for_chunks_with_limit stored one_chunk 1000 ≡ ok index
unfolding decode_for_chunks_with_limit decode_entries decode_offsets offset_of allocation_bytes
    read_varuint usize_to_u64 u64_to_usize
stored_decodes = refl

-- The last offset repeats the one before it.
repeated_offset_fails :
    decode_for_chunks_with_limit (1 ∷ 0 ∷ 3 ∷ 0 ∷ 2 ∷ 0 ∷ []) one_chunk 1000
    ≡ err chunk_table_invalid
unfolding decode_for_chunks_with_limit decode_entries decode_offsets offset_of allocation_bytes
    read_varuint usize_to_u64 u64_to_usize
repeated_offset_fails = refl

decode_for_chunks_canonical_example : (encode index ≡ ok stored) × Fits index.entries one_chunk
decode_for_chunks_canonical_example =
    decode_for_chunks_canonical stored one_chunk 1000 index (are_bytes→All stored refl)
      stored_decodes
