-- ===== src/Chunker.antt =====
-- src/chunker.rs: the deterministic plan of UTF-8-safe and CRLF-safe chunks.
pub mod Cuts
pub mod PlanLoop
pub mod Plan
pub mod Lines
mod Runs
use Prim.Native.Nat.{bit_and}
use qzt.Base.{
  ℕ, zero, suc, ◌+◌, ◌-◌, ◌%◌, ◌^◌, min, List, [], ◌∷◌, Bool, true, false, ◌&&◌, ◌||◌, not,
}
use qzt.Base.{Option, none, some, ltb, leb, ◌==◌, ◌!=◌, if◌then◌else◌, length, get_elem?}
use qzt.Base.Utf8.{is_utf8}
use qzt.Error.{
  Result, ok, err, ok_or, reject_if, ◌>>=◌, ◌>>◌, resource_limit_exceeded, invalid_utf8,
}
use qzt.Limits.{default_limits, enforce_chunk_table_entries}
use qzt.Primitives.{usize_to_u64}
use qzt.ChunkTable.{starts_with_line_continuation}

pub record ChunkerOptions : Type 0 where
  pub target_chunk_size : ℕ
  pub max_chunk_size : ℕ

-- `ChunkerOptions::validate`
unfoldable pub validate : ChunkerOptions → Result (Unit {0})
validate options = do
  reject_if (options.target_chunk_size == 0 || options.max_chunk_size == 0) resource_limit_exceeded
  reject_if (ltb options.max_chunk_size options.target_chunk_size) resource_limit_exceeded

pub data NewlineMode : Type 0 where
  no_newline lf crlf mixed : NewlineMode

pub record PlannedChunk : Type 0 where
  pub chunk_id : ℕ
  pub logical_offset : ℕ
  pub uncompressed_size : ℕ
  pub first_line : ℕ
  pub line_count : ℕ
  pub flags : ℕ

pub record ChunkPlan : Type 0 where
  pub chunks : List PlannedChunk
  pub line_count : ℕ
  pub newline_mode : NewlineMode

-- `NewlineMode::from_counts`
unfoldable pub from_counts : ℕ → ℕ → NewlineMode
from_counts lf_count crlf_count =
    if ltb 0 lf_count
    then (if ltb 0 crlf_count then mixed else lf)
    else (if ltb 0 crlf_count then crlf else no_newline)

-- `input[index] == b`, for an index below the length; the callers stay below it.
unfoldable pub has_byte : List ℕ → ℕ → ℕ → Bool
has_byte input index b = elim (get_elem? input index) [ none ↦ false | some x ↦ x == b ]

unfoldable pub splits_crlf : List ℕ → ℕ → Bool
unfolding has_byte
splits_crlf input end =
    ltb 0 end
    && (ltb end (length input) && (has_byte input (end - 1) b'\r' && has_byte input end b'\n'))

unfoldable pub is_utf8_boundary : List ℕ → ℕ → Bool
is_utf8_boundary input index =
    index == 0
    || (index == length input || elim (get_elem? input index) [
      | none ↦ false
      | some byte ↦ bit_and byte 0b1100_0000 != 0b1000_0000
    ])

-- `while cursor < end`; `rounds` is `end - cursor`.
unfoldable pub boundary_loop : ℕ → List ℕ → ℕ → Option ℕ → Option ℕ
boundary_loop zero input cursor boundary = boundary
boundary_loop (suc rounds) input cursor boundary =
    boundary_loop rounds input (cursor + 1)
      (if has_byte input cursor b'\n' then some (cursor + 1) else boundary)

-- `boundary.filter(..)`
unfoldable pub keep_boundary : List ℕ → ℕ → Option ℕ → Option ℕ
keep_boundary input start none = none
keep_boundary input start (some candidate) =
    if ltb start candidate && not (splits_crlf input candidate) then some candidate else none

unfoldable pub last_line_boundary : List ℕ → ℕ → ℕ → Option ℕ
unfolding boundary_loop keep_boundary
last_line_boundary input start end =
    keep_boundary input start (boundary_loop (end - start) input start none)

-- `(start + 1..=start + count).rev().find(..)`
unfoldable pub find_split : ℕ → List ℕ → ℕ → Option ℕ
find_split zero input start = none
find_split (suc count) input start =
    let rest = find_split count input start in
    let candidate = start + suc count in
    if is_utf8_boundary input candidate && not (splits_crlf input candidate)
    then some candidate
    else rest

unfoldable pub previous_valid_split : List ℕ → ℕ → ℕ → Option ℕ
unfolding find_split
previous_valid_split input start max_end = find_split (max_end - start) input start

-- The three attempts at the end of `choose_chunk_end`, in their order.
unfoldable pub first_end : Option ℕ → Option ℕ → Option ℕ → Result ℕ
first_end (some line_end) b c = ok line_end
first_end none (some line_end) c = ok line_end
first_end none none c = ok_or c resource_limit_exceeded

-- The sums wrap at the width of `usize`.
unfoldable pub choose_chunk_end : List ℕ → ℕ → ChunkerOptions → Result ℕ
unfolding first_end
choose_chunk_end input start options =
    let remaining = length input - start in
    let target_end = (start + options.target_chunk_size) % 2 ^ 64 in
    let max_end = min ((start + options.max_chunk_size) % 2 ^ 64) (length input) in
    if leb remaining options.target_chunk_size
    then ok (length input)
    else first_end (last_line_boundary input start target_end)
        (last_line_boundary input start max_end) (previous_valid_split input start max_end)

-- `values.partition_point(|value| *value < target)`: the values below the target in front.
unfoldable pub lower_bound : List ℕ → ℕ → ℕ
lower_bound [] target = 0
lower_bound (value ∷ values) target =
    if ltb value target then suc (lower_bound values target) else 0

pub record LineInfo : Type 0 where
  pub line_starts : List ℕ
  pub lf_count : ℕ
  pub crlf_count : ℕ

-- `index > 0 && input[index - 1] == b'\r'`
unfoldable pub is_cr : Option ℕ → Bool
is_cr none = false
is_cr (some byte) = byte == b'\r'

-- The loop of `LineInfo::from_bytes` over `input[index..]`, behind the byte `previous`.
unfoldable pub scan_lines : ℕ → Option ℕ → List ℕ → LineInfo
scan_lines index previous [] = record { line_starts = []; lf_count = 0; crlf_count = 0 }
scan_lines index previous (byte ∷ rest) =
    let info = scan_lines (index + 1) (some byte) rest in
    let after_cr = is_cr previous in
    if byte != b'\n' then info else record {
      line_starts =
          if ltb 0 (length rest) then (index + 1) ∷ info.line_starts else info.line_starts;
      lf_count = if after_cr then info.lf_count else info.lf_count + 1;
      crlf_count = if after_cr then info.crlf_count + 1 else info.crlf_count;
    }

-- `LineInfo::from_bytes`
unfoldable pub line_info : List ℕ → LineInfo
unfolding scan_lines
line_info [] = record { line_starts = []; lf_count = 0; crlf_count = 0 }
line_info (byte ∷ rest) =
    let info = scan_lines 0 none (byte ∷ rest) in record info { line_starts = 0 ∷ info.line_starts }

-- The flag of a chunk that starts inside a line.
unfoldable pub chunk_flags : List ℕ → ℕ → ℕ
chunk_flags input start =
    if ltb 0 start && not (has_byte input (start - 1) b'\n')
    then starts_with_line_continuation
    else 0

abbrev planned : PlannedChunk → List PlannedChunk → List PlannedChunk
planned chunk rest = chunk ∷ rest

-- `while start < input.len()`: `count` is `chunks.len()`. Every round takes a byte at least, so that
-- `rounds` is never the first to end.
unfoldable pub plan_loop : ℕ → List ℕ → List ℕ → ChunkerOptions → ℕ → ℕ → Result (List PlannedChunk)
plan_loop zero input line_starts options start count = ok []
plan_loop (suc rounds) input line_starts options start count =
    let round = do
      enforce_chunk_table_entries default_limits (count + 1)
      end ← choose_chunk_end input start options
      reject_if (leb end start) resource_limit_exceeded
      let first_line = lower_bound line_starts start
      let line_end = lower_bound line_starts end
      chunk_id ← usize_to_u64 count
      logical_offset ← usize_to_u64 start
      uncompressed_size ← usize_to_u64 (end - start)
      first ← usize_to_u64 first_line
      lines ← usize_to_u64 (line_end - first_line)
      rest ← plan_loop rounds input line_starts options end (count + 1)
      ok (
          planned
            (record {
              chunk_id = chunk_id;
              logical_offset = logical_offset;
              uncompressed_size = uncompressed_size;
              first_line = first;
              line_count = lines;
              flags = chunk_flags input start;
            })
            rest)
    in if ltb start (length input) then round else ok []

unfoldable pub plan_chunks : List ℕ → ChunkerOptions → Result ChunkPlan
unfolding validate from_counts
plan_chunks input options = do
  validate options
  reject_if (not (is_utf8 input)) invalid_utf8
  let info = line_info input
  let mode = from_counts info.lf_count info.crlf_count
  if length input == 0
      then ok (record { chunks = []; line_count = 0; newline_mode = mode })
      else (do
        chunks ← plan_loop (length input) input info.line_starts options 0 0
        line_count ← usize_to_u64 (length info.line_starts)
        ok (record { chunks = chunks; line_count = line_count; newline_mode = mode }))
