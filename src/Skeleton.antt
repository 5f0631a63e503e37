-- ===== src/Skeleton.antt =====
-- src/skeleton.rs: what opening a container returns, the reads it makes, and the lookup of documents.
pub mod Blocks
pub mod Open
pub mod BlocksAt
pub mod OpenAt
pub mod Checks
pub mod Stages
pub mod Write
pub mod Opened
pub mod Copies
pub mod Agree
pub mod Sample
mod Runs
use qzt.Base.{ℕ, List, [], ◌∷◌, Bool, true, false, Option, none, some, ◌+◌, ◌-◌, leb, ltb, not}
use qzt.Base.{length, take, drop, bytes_eq, if◌then◌else◌, usize_max}
use qzt.Error.{Result, ok, err, ok_or, reject_if, ◌>>=◌, ◌>>◌, ErrorKind, unexpected_eof_kind}
use qzt.Error.{not_found, permission_denied, invalid_input, write_zero, other}
use qzt.Error.{unexpected_eof, container_corrupt, physical_range_out_of_bounds}
use qzt.Primitives.{checked_physical_end, u64_to_usize}
use qzt.Format.{header_len, footer_trailer_len}
use qzt.Fixed.{PhysicalRange}
use qzt.ChunkTable.{ChunkEntry}
use qzt.DenseLineIndex.{DenseLineIndex}
use qzt.Schema.Footer.{FooterPayload}
use qzt.Schema.Metadata.{Metadata}
use qzt.Schema.Dictionary.{DictionaryEntry}
use qzt.Schema.Documents.{DocumentEntry, DocumentIndex}
use qzt.Io.{ReadAt, IoResult, filled, failed, get_range}

pub record SkeletonSummary : Type 0 where
  pub container_id : List ℕ
  pub original_size : ℕ
  pub chunk_count : ℕ
  pub line_count : ℕ

-- The map from ids to positions, as an association list in the order of the first insertions.
abbrev pub Lookup : Type 0
Lookup = List (List ℕ × ℕ)

pub record SkeletonDetails : Type 0 where
  pub summary : SkeletonSummary
  pub chunk_entries : List ChunkEntry
  pub metadata : Metadata
  pub footer_payload : FooterPayload
  pub footer_payload_offset : ℕ
  pub dictionaries : List DictionaryEntry
  pub dense_line_index : Option DenseLineIndex
  pub document_index : Option DocumentIndex
  pub document_lookup : Lookup

-- `HashMap::get`
unfoldable pub lookup_id : Lookup → List ℕ → Option ℕ
lookup_id [] id = none
lookup_id ((key, position) ∷ rest) id = if bytes_eq key id then some position else lookup_id rest id

unfoldable pub is_none : Option ℕ → Bool
is_none none = true
is_none (some position) = false

-- `lookup.entry(id).or_insert(index)`
unfoldable pub insert_first : Lookup → List ℕ → ℕ → Lookup
unfolding is_none
insert_first lookup id position =
    if is_none (lookup_id lookup id) then (id, position) ∷ lookup else lookup

unfoldable pub build_from : List DocumentEntry → ℕ → Lookup → Lookup
build_from [] position lookup = lookup
build_from (document ∷ documents) position lookup =
    build_from documents (position + 1) (insert_first lookup document.doc_id position)

unfoldable pub build_document_lookup : Option DocumentIndex → Lookup
unfolding build_from
build_document_lookup none = []
build_document_lookup (some index) = build_from index.documents 0 []

-- `slice_physical`
unfoldable pub slice_physical : List ℕ → PhysicalRange → Result (List ℕ)
unfolding checked_physical_end get_range
slice_physical bytes range = do
  end ← checked_physical_end range.offset range.size
  reject_if (ltb (length bytes) end) physical_range_out_of_bounds
  reject_if (ltb usize_max range.offset) physical_range_out_of_bounds
  reject_if (ltb usize_max end) physical_range_out_of_bounds
  ok_or (get_range bytes range.offset end) physical_range_out_of_bounds

unfoldable pub io_error : ErrorKind → Result (List ℕ)
io_error unexpected_eof_kind = err unexpected_eof
io_error not_found = err container_corrupt
io_error permission_denied = err container_corrupt
io_error invalid_input = err container_corrupt
io_error write_zero = err container_corrupt
io_error other = err container_corrupt

unfoldable pub from_io : IoResult → Result (List ℕ)
unfolding io_error
from_io (filled bytes) = ok bytes
from_io (failed kind) = io_error kind

unfoldable pub read_exact_at_qzt : ReadAt → ℕ → ℕ → Result (List ℕ)
unfolding from_io
read_exact_at_qzt reader offset len = from_io (reader.read_exact_at offset len)

-- `read_physical_at`; its reservation is taken to succeed.
unfoldable pub read_physical_at : ReadAt → ℕ → PhysicalRange → Result (List ℕ)
unfolding read_exact_at_qzt
read_physical_at reader final_file_size range = do
  end ← checked_physical_end range.offset range.size
  reject_if (ltb final_file_size end) physical_range_out_of_bounds
  len ← u64_to_usize range.size
  read_exact_at_qzt reader range.offset len

-- What the opening of bytes in memory reads.
pub record Source : Type 0 where
  pub file_size : ℕ
  pub header_bytes : Result (List ℕ)
  pub trailer_bytes : Result (List ℕ)
  pub read : PhysicalRange → Result (List ℕ)

unfoldable pub memory_source : List ℕ → ℕ → Source
unfolding slice_physical
memory_source bytes size = record {
  file_size = size;
  header_bytes = ok (take header_len bytes);
  trailer_bytes = ok (drop (length bytes - footer_trailer_len) bytes);
  read = slice_physical bytes;
}
