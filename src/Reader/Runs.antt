-- ===== src/Reader/Runs.antt =====
-- Runs of src/reader.rs at a concrete container.
use qzt.Base.{ℕ, List, [], ◌∷◌, ◌≡◌, refl, true, some, arith, are_bytes→All, slice}
use qzt.Base.{◌+◌}
use qzt.Error.{Result, ok}
use qzt.Primitives.{usize_to_u64, u64_to_usize, checked_physical_end}
use qzt.Limits.{default_limits}
use qzt.ChunkTable.{ChunkEntry}
use qzt.Codec.{Zstd, decode_chunk}
use qzt.Io.{get_range}
use qzt.Skeleton.{slice_physical}
use qzt.Skeleton.Sample.{sevens, container, details, container_opens}
use qzt.Reader.{
  QztReader, export_entries, export_all, dictionary_bytes, find_dictionary, decode_compressed_entry,
}
use qzt.Reader.{decode_entry, open_with_limits, read_range, read_range_from_entries}
use qzt.Reader.Range.{read_range_from_entries_lem}
use qzt.Reader.Export.{read_range-export_all}

-- A stand-in for the zstd library, which decodes the one chunk of the container.
abbrev pub zstd : Zstd
zstd = record {
  accepts = λ compressed dictionary. true;
  read_limited = λ compressed dictionary limit. some (b'a' ∷ 10 ∷ b'b' ∷ 10 ∷ []);
}

abbrev pub reader : QztReader
reader = record { read = slice_physical container; details = details }

pub reader_opens : open_with_limits sevens zstd container default_limits ≡ ok reader
unfolding open_with_limits
reader_opens = rw container_opens refl

pub reader_exports : export_all sevens zstd reader ≡ ok (b'a' ∷ 10 ∷ b'b' ∷ 10 ∷ [])
unfolding export_all export_entries decode_entry decode_compressed_entry dictionary_bytes
    find_dictionary decode_chunk slice_physical checked_physical_end get_range usize_to_u64
    u64_to_usize
reader_exports = refl

read_range-export_all_example : read_range sevens zstd reader 1 2 ≡ ok (10 ∷ b'b' ∷ [])
read_range-export_all_example =
    read_range-export_all sevens zstd container default_limits reader (b'a' ∷ 10 ∷ b'b' ∷ 10 ∷ []) 1
      2 (are_bytes→All container refl) (omega arith) reader_opens reader_exports

-- A table of two chunks.
abbrev chunk : ℕ → ℕ → ℕ → ℕ → ChunkEntry
chunk id offset size line = record {
  chunk_id = id;
  physical_offset = 0;
  compressed_size = 1;
  logical_offset = offset;
  uncompressed_size = size;
  first_line = line;
  line_count = 1;
  dictionary_id = 0;
  flags = 0;
  compressed_checksum_blake3 = [];
  uncompressed_checksum_blake3 = [];
}

abbrev text : List ℕ
text = b'a' ∷ 10 ∷ b'b' ∷ 10 ∷ b'c' ∷ []

abbrev chunks : List ChunkEntry
chunks = chunk 0 0 2 0 ∷ chunk 1 2 3 1 ∷ []

abbrev decode_text : ChunkEntry → Result (List ℕ)
decode_text e = ok (slice e.logical_offset (e.logical_offset + e.uncompressed_size) text)

read_range_from_entries_lem_example :
    read_range_from_entries decode_text chunks 5 1 3 ≡ ok (10 ∷ b'b' ∷ 10 ∷ [])
read_range_from_entries_lem_example =
    read_range_from_entries_lem text decode_text chunks 2 (omega arith) (omega arith)
      (refl, (refl, tt)) 1 3 (omega arith)
