-- ===== src/Io.antt =====
-- src/io.rs: positioned reads, and those of a byte slice. Files are left to the operating system.
use qzt.Base.{ℕ, List, Option, none, some, leb, ◌&&◌, if◌then◌else◌, length, slice}
use qzt.Base.{usize_max, checked_add}
use qzt.Error.{ErrorKind, invalid_input, unexpected_eof_kind}

-- `io::Result` of a read into a buffer: what the buffer holds afterwards, or the kind of the error.
pub data IoResult : Type 0 where
  filled : List ℕ → IoResult
  failed : ErrorKind → IoResult

-- The trait `ReadAt`; the length is that of the buffer.
pub record ReadAt : Type 0 where
  pub read_exact_at : ℕ → ℕ → IoResult

-- `bytes.get(start..end)`
unfoldable pub get_range : List ℕ → ℕ → ℕ → Option (List ℕ)
get_range bytes start end =
    if leb start end && leb end (length bytes) then some (slice start end bytes) else none

unfoldable pub or_failed : Option (List ℕ) → ErrorKind → IoResult
or_failed none kind = failed kind
or_failed (some bytes) kind = filled bytes

unfoldable pub read_slice_to : List ℕ → ℕ → Option ℕ → IoResult
unfolding get_range or_failed
read_slice_to bytes start none = failed invalid_input
read_slice_to bytes start (some end) = or_failed (get_range bytes start end) unexpected_eof_kind

-- `impl ReadAt for &[u8]`
unfoldable pub slice_reader : List ℕ → ReadAt
unfolding read_slice_to
slice_reader bytes = record {
  read_exact_at = λ offset len.
      if leb offset usize_max
      then read_slice_to bytes offset (checked_add offset len)
      else failed invalid_input;
}
