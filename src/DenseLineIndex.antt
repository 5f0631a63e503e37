-- ===== src/DenseLineIndex.antt =====
-- src/dense_line_index.rs: the line starts of a chunk, and the encoding and decoding of the
-- dense line index. Its variable-length integers are in Varuint.antt.
pub mod Offsets
pub mod Entries
pub mod Canonical
mod Runs
use Prim.Native.Nat.{bit_and}
use qzt.Base.{ℕ, zero, suc, ◌+◌, ◌/◌, List, [], ◌∷◌, Bool, true, false}
use qzt.Base.{◌&&◌, ltb, leb, ◌==◌, ◌!=◌, if◌then◌else◌, not, usize_max}
use qzt.Base.{bytes_eq, length, get_elem?, slice, checked_add, checked_sub, checked_mul}
use qzt.Error.{Result, ok, err, ok_or, reject_if, ◌>>=◌, ◌>>◌}
use qzt.Error.{chunk_table_invalid, unexpected_eof, resource_limit_exceeded, container_corrupt}
use qzt.Error.{line_out_of_range}
use qzt.Limits.{default_limits}
use qzt.Primitives.{usize_to_u64, u64_to_usize}
use qzt.Varuint.{write_varuint, varuint_len, read_varuint}
use qzt.ChunkTable.{ChunkEntry, starts_with_line_continuation}

pub record DenseLineEntry : Type 0 where
  pub chunk_id : ℕ
  pub line_start_offsets : List ℕ

pub record DenseLineIndex : Type 0 where
  pub entries : List DenseLineEntry

-- The scan of `line_start_offsets`: the list is `decoded[index..]`.
unfoldable pub scan_line_starts : ℕ → List ℕ → List ℕ
scan_line_starts index [] = []
scan_line_starts index (byte ∷ rest) =
    let starts = scan_line_starts (index + 1) rest in
    if byte == b'\n' && ltb 0 (length rest) then (index + 1) ∷ starts else starts

unfoldable pub line_start_offsets : List ℕ → ℕ → List ℕ
unfolding scan_line_starts
line_start_offsets decoded flags =
    if bit_and flags starts_with_line_continuation == 0 && ltb 0 (length decoded)
    then 0 ∷ scan_line_starts 0 decoded
    else scan_line_starts 0 decoded

-- `allocation_bytes::<T>`: `size_of::<DenseLineEntry>()` is a u64 and a Vec of three words, 32 bytes,
-- and `size_of::<u64>()` is 8.
unfoldable pub allocation_bytes : ℕ → ℕ → Result ℕ
allocation_bytes size_of count = do
  bytes ← ok_or (checked_mul count size_of) resource_limit_exceeded
  usize_to_u64 bytes

abbrev pub dense_line_entry_size : ℕ
dense_line_entry_size = 32

abbrev pub u64_size : ℕ
u64_size = 8

unfoldable pub add_requested : List ChunkEntry → ℕ → Result ℕ
add_requested [] requested = ok requested
add_requested (entry ∷ entries) requested = do
  count ← u64_to_usize entry.line_count
  bytes ← allocation_bytes u64_size count
  requested' ← ok_or (checked_add requested bytes) resource_limit_exceeded
  add_requested entries requested'

unfoldable pub requested_allocation_for_chunks : List ChunkEntry → Result ℕ
requested_allocation_for_chunks chunk_entries = do
  requested ← allocation_bytes dense_line_entry_size (length chunk_entries)
  add_requested chunk_entries requested

-- `if index == 0 { *offset } else { offset.checked_sub(previous)? }`
unfoldable pub delta_of : Bool → ℕ → ℕ → Result ℕ
delta_of true previous offset = ok offset
delta_of false previous offset = ok_or (checked_sub offset previous) chunk_table_invalid

-- The loop over one entry's offsets in `encode`; the Boolean is `index == 0`.
unfoldable pub encode_offsets : Bool → ℕ → List ℕ → List ℕ → Result (List ℕ)
encode_offsets first previous [] bytes = ok bytes
encode_offsets first previous (offset ∷ offsets) bytes = do
  delta ← delta_of first previous offset
  encode_offsets false offset offsets (write_varuint delta bytes)

unfoldable pub encode_entries : List DenseLineEntry → List ℕ → Result (List ℕ)
encode_entries [] bytes = ok bytes
encode_entries (entry ∷ entries) bytes = do
  count ← usize_to_u64 (length entry.line_start_offsets)
  let head = write_varuint count (write_varuint entry.chunk_id bytes)
  bytes' ← encode_offsets true 0 entry.line_start_offsets head
  encode_entries entries bytes'

unfoldable pub encode : DenseLineIndex → Result (List ℕ)
encode index = do
  count ← usize_to_u64 (length index.entries)
  encode_entries index.entries (write_varuint count [])

unfoldable pub offsets_size : Bool → ℕ → List ℕ → ℕ → Result ℕ
offsets_size first previous [] size = ok size
offsets_size first previous (offset ∷ offsets) size = do
  delta ← delta_of first previous offset
  size' ← ok_or (checked_add size (varuint_len delta)) resource_limit_exceeded
  offsets_size false offset offsets size'

unfoldable pub entries_size : List DenseLineEntry → ℕ → Result ℕ
entries_size [] size = ok size
entries_size (entry ∷ entries) size = do
  count ← usize_to_u64 (length entry.line_start_offsets)
  size₁ ← ok_or (checked_add size (varuint_len entry.chunk_id)) resource_limit_exceeded
  size₂ ← ok_or (checked_add size₁ (varuint_len count)) resource_limit_exceeded
  size₃ ← offsets_size true 0 entry.line_start_offsets size₂
  entries_size entries size₃

unfoldable pub encoded_size : DenseLineIndex → Result ℕ
encoded_size index = do
  count ← usize_to_u64 (length index.entries)
  entries_size index.entries (varuint_len count)

-- `if index == 0 { delta } else { previous.checked_add(delta)? }`
unfoldable pub offset_of : Bool → ℕ → ℕ → Result ℕ
offset_of true previous delta = ok delta
offset_of false previous delta = ok_or (checked_add previous delta) chunk_table_invalid

-- `for index in 0..offset_count`: `count` offsets are left, and the Boolean is `index == 0`.
unfoldable pub decode_offsets : ℕ → Bool → ℕ → ℕ → List ℕ → Result (List ℕ × List ℕ)
decode_offsets zero first previous uncompressed_size bytes = ok ([], bytes)
decode_offsets (suc count) first previous uncompressed_size bytes = do
  (delta, bytes₁) ← read_varuint bytes
  offset ← offset_of first previous delta
  reject_if (not first && leb offset previous) chunk_table_invalid
  reject_if (leb uncompressed_size offset) chunk_table_invalid
  (offsets, bytes₂) ← decode_offsets count false offset uncompressed_size bytes₁
  ok (offset ∷ offsets, bytes₂)

-- The loop over the chunks in `decode_for_chunks_with_limit`. The reservations are taken to succeed.
unfoldable pub decode_entries :
    ℕ → List ChunkEntry → ℕ → List ℕ → Result (List DenseLineEntry × List ℕ)
decode_entries max_allocation [] requested bytes = ok ([], bytes)
decode_entries max_allocation (expected ∷ chunks) requested bytes = do
  (chunk_id, bytes₁) ← read_varuint bytes
  reject_if (chunk_id != expected.chunk_id) chunk_table_invalid
  (offset_count, bytes₂) ← read_varuint bytes₁
  reject_if (offset_count != expected.line_count) chunk_table_invalid
  reject_if (ltb expected.uncompressed_size offset_count) chunk_table_invalid
  left ← usize_to_u64 (length bytes₂)
  reject_if (ltb left offset_count) unexpected_eof
  count ← u64_to_usize offset_count
  size ← allocation_bytes u64_size count
  requested' ← ok_or (checked_add requested size) resource_limit_exceeded
  reject_if (ltb max_allocation requested') resource_limit_exceeded
  (offsets, bytes₃) ← decode_offsets count true 0 expected.uncompressed_size bytes₂
  (entries, bytes₄) ← decode_entries max_allocation chunks requested' bytes₃
  ok (record { chunk_id = chunk_id; line_start_offsets = offsets } ∷ entries, bytes₄)

unfoldable pub decode_for_chunks_with_limit : List ℕ → List ChunkEntry → ℕ → Result DenseLineIndex
decode_for_chunks_with_limit bytes chunk_entries max_allocation = do
  (entry_count, bytes₁) ← read_varuint bytes
  expected_count ← usize_to_u64 (length chunk_entries)
  reject_if (entry_count != expected_count) chunk_table_invalid
  most ← usize_to_u64 (length bytes₁ / 2)
  reject_if (ltb most entry_count) unexpected_eof
  requested ← allocation_bytes dense_line_entry_size (length chunk_entries)
  reject_if (ltb max_allocation requested) resource_limit_exceeded
  (entries, bytes₂) ← decode_entries max_allocation chunk_entries requested bytes₁
  reject_if (length bytes₂ != 0) chunk_table_invalid
  ok (record { entries = entries })

unfoldable pub decode_for_chunks : List ℕ → List ChunkEntry → Result DenseLineIndex
decode_for_chunks bytes chunk_entries =
    decode_for_chunks_with_limit bytes chunk_entries default_limits.max_dense_line_index_allocation

-- `usize::try_from(..).map_err(|_| QztError::ContainerCorrupt)`
abbrev to_usize : ℕ → Result ℕ
to_usize value = if leb value usize_max then ok value else err container_corrupt

-- One round of `from_original_bytes`.
unfoldable pub entry_from_bytes : List ℕ → ChunkEntry → Result DenseLineEntry
entry_from_bytes input entry = do
  start ← to_usize entry.logical_offset
  size ← to_usize entry.uncompressed_size
  end ← ok_or (checked_add start size) container_corrupt
  reject_if (ltb (length input) end) container_corrupt
  let offsets = line_start_offsets (slice start end input) entry.flags
  reject_if (length offsets != entry.line_count) chunk_table_invalid
  ok (record { chunk_id = entry.chunk_id; line_start_offsets = offsets })

unfoldable pub entries_from_bytes : List ℕ → List ChunkEntry → Result (List DenseLineEntry)
entries_from_bytes input [] = ok []
entries_from_bytes input (entry ∷ chunk_entries) = do
  e ← entry_from_bytes input entry
  es ← entries_from_bytes input chunk_entries
  ok (e ∷ es)

unfoldable pub from_original_bytes : List ℕ → List ChunkEntry → Result DenseLineIndex
from_original_bytes input chunk_entries = do
  entries ← entries_from_bytes input chunk_entries
  ok (record { entries = entries })

unfoldable pub line_start_offset : DenseLineIndex → ℕ → ℕ → Result ℕ
line_start_offset index chunk_index local_line_index = do
  entry ← ok_or (get_elem? index.entries chunk_index) line_out_of_range
  ok_or (get_elem? entry.line_start_offsets local_line_index) line_out_of_range

unfoldable pub verify_chunk : DenseLineIndex → ℕ → List ℕ → ℕ → Result (Unit {0})
verify_chunk index chunk_index decoded flags = do
  let expected = line_start_offsets decoded flags
  actual ← ok_or (get_elem? index.entries chunk_index) chunk_table_invalid
  reject_if (not (bytes_eq actual.line_start_offsets expected)) chunk_table_invalid
