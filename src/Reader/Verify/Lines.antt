-- ===== src/Reader/Verify/Lines.antt =====
-- Reads of lines from a container that deep verification accepts, src/reader.rs.
use qzt.Base.{ℕ, ◌≡◌, List, All, IsByte, IsU64, length, get_elem?}
use qzt.Error.{ok, ok_or, line_out_of_range}
use qzt.Limits.{ResourceLimits}
use qzt.Codec.{Zstd}
use qzt.Reader.{QztReader, open_with_limits, export_all, decode_entry}
use qzt.Reader.Export.{export_all-Readable}
use qzt.Reader.Lines.{read_line_raw}
use qzt.Base.SplitLines.{split_lines}
use qzt.Reader.Lines.Read.{read_line_from_entries_lem}
use qzt.Reader.Verify.{verify_deep_entries}
use qzt.Reader.Verify.Checked.{verify_deep_entries-AreLined}

module _ (blake3 : List ℕ → List ℕ) (zstd : Zstd) where
  -- For a reader that `QztReader::open_with_limits` returns for a container of bytes with a u64 length,
  -- that exports the whole original, and whose chunks `verify_deep_entries` accepts: `read_line_raw`
  -- returns at every number the line of the original with it, with its line feed, and LineOutOfRange
  -- where the original has no such line.
  pub read_line_raw-export_all :
      (bytes : List ℕ) (limits : ResourceLimits) (reader : QztReader) (original : List ℕ)
      (decoded_bytes line_zero_based : ℕ)
      → All IsByte bytes
      → IsU64 (length bytes)
      → open_with_limits blake3 zstd bytes limits ≡ ok reader
      → export_all blake3 zstd reader ≡ ok original
      → verify_deep_entries blake3 (decode_entry blake3 zstd reader) reader.details
        ≡ ok decoded_bytes
      → read_line_raw blake3 zstd reader line_zero_based
        ≡ ok_or (get_elem? (split_lines original) line_zero_based) line_out_of_range
  unfolding read_line_raw
  read_line_raw-export_all bytes limits reader original n k all wide opens exports accepts =
      let readable =
        export_all-Readable blake3 zstd bytes limits reader original all wide opens exports in
      let decode = decode_entry blake3 zstd reader in
      let (lined, indexed) =
        verify_deep_entries-AreLined blake3 decode original reader.details
          reader.details.summary.line_count n readable.tiles readable.decodes accepts in
      read_line_from_entries_lem original decode reader.details readable.tiles readable.wide
        readable.decodes lined indexed k
