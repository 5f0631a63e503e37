-- ===== src/Reader/Lines.antt =====
-- src/reader.rs: reads of lines.
pub mod Starts
pub mod Chunks
pub mod Table
pub mod Read
mod Runs
use qzt.Base.{ℕ, List, [], ◌∷◌, ◌++◌, Bool, true, false, Option, none, some, ◌+◌, ◌-◌, ◌==◌, ◌&&◌}
use qzt.Base.{leb, ltb, not, length, drop, if◌then◌else◌, get_elem?, usize_max}
use qzt.Base.Utf8.{is_utf8}
use qzt.Error.{Result, ok, err, panic, ok_or, reject_if, ◌>>=◌, ◌>>◌}
use qzt.Error.{line_out_of_range, invalid_utf8}
use qzt.Primitives.{checked_logical_end, u64_to_usize}
use qzt.ChunkTable.{ChunkEntry, partition_by_end}
use qzt.DenseLineIndex.{DenseLineIndex, line_start_offsets, line_start_offset}
use qzt.Codec.{Zstd}
use qzt.Skeleton.{SkeletonDetails}
use qzt.Reader.{QztReader, decode_entry}

abbrev pub lf : ℕ
lf = b'\n'

abbrev pub line_end : ChunkEntry → Result ℕ
line_end entry = checked_logical_end entry.first_line entry.line_count

unfoldable pub line_start_chunk_index : List ChunkEntry → ℕ → Result ℕ
line_start_chunk_index entries line_zero_based = do
  low ← partition_by_end entries line_zero_based line_end
  entry ← ok_or (get_elem? entries low) line_out_of_range
  end ← line_end entry
  if leb entry.first_line line_zero_based && ltb line_zero_based end
      then ok low
      else err line_out_of_range

-- `local_line_starts`, the same loop as that of the dense line index, over `usize`.
abbrev pub local_line_starts : List ℕ → ℕ → List ℕ
local_line_starts decoded flags = line_start_offsets decoded flags

-- The loop of `append_until_lf`: whether it met a line feed, and the output.
unfoldable pub scan_until_lf : List ℕ → List ℕ → Bool × List ℕ
scan_until_lf [] output = (false, output)
scan_until_lf (byte ∷ bytes) output =
    let rest = scan_until_lf bytes (output ++ (byte ∷ [])) in
    if byte == lf then (true, output ++ (byte ∷ [])) else rest

unfoldable pub append_until_lf : List ℕ → ℕ → List ℕ → Result (Bool × List ℕ)
append_until_lf decoded start output =
    if leb start (length decoded) then ok (scan_until_lf (drop start decoded) output) else panic

-- `usize::try_from(line_zero_based - start_entry.first_line)`
unfoldable pub local_index_of : ℕ → ℕ → Result ℕ
local_index_of line_zero_based first_line =
    if leb (line_zero_based - first_line) usize_max
    then ok (line_zero_based - first_line)
    else err line_out_of_range

-- The start of the line in its chunk, from the dense line index where there is one.
unfoldable pub local_start_of : Option DenseLineIndex → ℕ → ℕ → List ℕ → ChunkEntry → Result ℕ
local_start_of (some dense) start_index local_index decoded entry = do
  offset ← line_start_offset dense start_index local_index
  u64_to_usize offset
local_start_of none start_index local_index decoded entry =
    ok_or (get_elem? (local_line_starts decoded entry.flags) local_index) line_out_of_range

module _ (decode_entry : ChunkEntry → Result (List ℕ)) where
  -- The `while let` loop; the list is `chunk_entries[current_index..]`.
  unfoldable pub append_chunks : List ChunkEntry → List ℕ → Result (List ℕ)
  append_chunks [] output = ok output
  append_chunks (entry ∷ entries) output = do
    decoded ← decode_entry entry
    (found_end, output') ← append_until_lf decoded 0 output
    let rest = append_chunks entries output'
    if found_end then ok output' else rest

  -- The part of `read_line_from_entries` from the first chunk of the line on.
  unfoldable pub read_line_at : List ChunkEntry → Option DenseLineIndex → ℕ → ℕ → Result (List ℕ)
  read_line_at entries dense line_zero_based start_index = do
    start_entry ← ok_or (get_elem? entries start_index) line_out_of_range
    start_decoded ← decode_entry start_entry
    local_index ← local_index_of line_zero_based start_entry.first_line
    local_start ← local_start_of dense start_index local_index start_decoded start_entry
    (found_end, output) ← append_until_lf start_decoded local_start []
    let rest = append_chunks (drop (start_index + 1) entries) output
    if found_end then ok output else rest

  unfoldable pub read_line_from_entries : SkeletonDetails → ℕ → Result (List ℕ)
  unfolding read_line_at
  read_line_from_entries details line_zero_based = do
    reject_if (leb details.summary.line_count line_zero_based) line_out_of_range
    start_index ← line_start_chunk_index details.chunk_entries line_zero_based
    read_line_at details.chunk_entries details.dense_line_index line_zero_based start_index

module _ (blake3 : List ℕ → List ℕ) (zstd : Zstd) where
  unfoldable pub read_line_raw : QztReader → ℕ → Result (List ℕ)
  read_line_raw reader line_zero_based =
      read_line_from_entries (decode_entry blake3 zstd reader) reader.details line_zero_based

  unfoldable pub read_line_text : QztReader → ℕ → Result (List ℕ)
  read_line_text reader line_zero_based = do
    bytes ← read_line_raw reader line_zero_based
    reject_if (not (is_utf8 bytes)) invalid_utf8
    ok bytes
