-- ===== src/Reader/Export.antt =====
-- The export of a whole container and reads of its ranges, src/reader.rs.
use mathlib.Core.Path.{subst}
use qzt.Base.{
  ℕ, ◌+◌, ◌-◌, ◌≤◌, ◌≡◌, refl, ap, sym, ◌∙◌, arith, List, [], ◌∷◌, ◌++◌, append_assoc, append-nil,
}
use qzt.Base.{length, slice, All, IsByte, IsU64, u64_max, leb, length-append, if◌then◌else◌}
use qzt.Base.{take-append, drop-append, bytes_eq, not, ◌!=◌}
use qzt.Error.{Result, ok, err, reject_if, reject_if-ne_inv, >>=-eq-ok, ok-injective}
use qzt.Error.{logical_range_out_of_bounds, compressed_chunk_checksum_mismatch, chunk_size_mismatch}
use qzt.Error.{uncompressed_chunk_checksum_mismatch}
use qzt.Primitives.{usize_to_u64}
use qzt.Limits.{ResourceLimits}
use qzt.ChunkTable.{ChunkEntry}
use qzt.ChunkTable.Tiling.{Tiles}
use qzt.Codec.{Zstd, decode_chunk}
use qzt.Schema.Dictionary.{DictionaryEntry}
use qzt.Schema.Dictionary.Accepted.{usize_to_u64_eq}
use qzt.Skeleton.{SkeletonDetails, memory_source}
use qzt.Skeleton.Open.{open_skeleton_details_with_limits, entry_range}
use qzt.Skeleton.Opened.{IsOpened, open_skeleton_details_with_limits-IsOpened}
use qzt.Reader.{
  QztReader, export_entries, export_all, dictionary_bytes, decode_compressed_entry, decode_entry,
}
use qzt.Reader.{open_with_limits, read_range, read_range_from_entries}
use qzt.Reader.RangeLoop.{Decodes, chunk_bytes, total_compressed}
use qzt.Reader.Range.{read_range_from_entries_lem}
use qzt.Reader.Totals.{total_compressed-le}

-- The middle of three parts.
slice_middle :
    (a b c : List ℕ) (i n : ℕ) → length a ≡ i → length b ≡ n → slice i (i + n) ((a ++ b) ++ c) ≡ b
slice_middle a b c i n p q =
    let width : i + n - i ≡ n = omega arith in
    rw (width, append_assoc a b c, drop-append i a (b ++ c) p) (take-append n b c q)

module _ (decode : ChunkEntry → Result (List ℕ)) where
  -- What is decoded has the size that the table names.
  abbrev Sized : Type 0
  Sized = (e : ChunkEntry) (d : List ℕ) → decode e ≡ ok d → length d ≡ e.uncompressed_size

  record Exported (output whole : List ℕ) (es : List ChunkEntry) (size : ℕ) : Type 0 where
    rest : List ℕ
    split : whole ≡ output ++ rest
    whole_len : length whole ≡ size
    decoded : All (Decodes whole decode) es

  export_entries-Exported :
      (index offset line size lines : ℕ) (es : List ChunkEntry) (output whole : List ℕ)
      → Sized
      → Tiles index offset line es size lines
      → length output ≡ offset
      → export_entries decode es output ≡ ok whole
      → Exported output whole es size
  unfolding export_entries
  export_entries-Exported index offset line size lines [] output whole sized t at h =
      let same : output ≡ whole = ok-injective h in
      record {
        rest = [];
        split = sym same ∙ sym (append-nil output);
        whole_len = ap length (sym same) ∙ (at ∙ t.0);
        decoded = tt;
      }
  export_entries-Exported index offset line size lines (e ∷ es) output whole sized
        (_, place, _, _, _, _, _, t) at h =
      let (d, c₁, h₁) = >>=-eq-ok (decode e) _ h in
      let width = sized e d c₁ in
      let next : length (output ++ d) ≡ offset + e.uncompressed_size =
        length-append output d
        ∙ sums (length output) (length d) offset e.uncompressed_size at width in
      let tail =
        export_entries-Exported (index + 1) (offset + e.uncompressed_size) (line + e.line_count)
          size lines es (output ++ d) whole sized t next h₁ in
      let middle = slice_middle output d tail.rest offset e.uncompressed_size at width in
      let here : chunk_bytes whole e ≡ d =
        ap (λ (w : List ℕ). chunk_bytes w e) tail.split
        ∙ (ap (λ (o : ℕ). slice o (o + e.uncompressed_size) ((output ++ d) ++ tail.rest)) place
            ∙ middle) in
      record {
        rest = d ++ tail.rest;
        split = tail.split ∙ append_assoc output d tail.rest;
        whole_len = tail.whole_len;
        decoded = (c₁ ∙ ap ok (sym here), tail.decoded);
      }
    where
      sums : (a b o u : ℕ) → a ≡ o → b ≡ u → a + b ≡ o + u
      sums a b o u p q = omega arith

module _ (blake3 : List ℕ → List ℕ) (zstd : Zstd) where
  decode_compressed_entry_len :
      (e : ChunkEntry) (compressed : List ℕ) (ds : List DictionaryEntry) (d : List ℕ)
      → decode_compressed_entry blake3 zstd e compressed ds ≡ ok d
      → length d ≡ e.uncompressed_size
  unfolding decode_compressed_entry
  decode_compressed_entry_len e compressed ds d h =
      let sum = not (bytes_eq (blake3 compressed) e.compressed_checksum_blake3) in
      let (_, _, h₁) = >>=-eq-ok (reject_if sum compressed_chunk_checksum_mismatch) _ h in
      let (dictionary, _, h₂) = >>=-eq-ok (dictionary_bytes ds e.dictionary_id) _ h₁ in
      let (x, _, h₃) =
        >>=-eq-ok (decode_chunk zstd compressed dictionary e.uncompressed_size) _ h₂ in
      let (size, c₄, h₄) = >>=-eq-ok (usize_to_u64 (length x)) _ h₃ in
      let (_, c₅, h₅) =
        >>=-eq-ok (reject_if (size != e.uncompressed_size) chunk_size_mismatch) _ h₄ in
      let sum' = not (bytes_eq (blake3 x) e.uncompressed_checksum_blake3) in
      let (_, _, h₆) = >>=-eq-ok (reject_if sum' uncompressed_chunk_checksum_mismatch) _ h₅ in
      rw (← ok-injective h₆) (
        usize_to_u64_eq (length x) size c₄
        ∙ reject_if-ne_inv size e.uncompressed_size chunk_size_mismatch c₅)

  decode_entry-Sized : (reader : QztReader) → Sized (decode_entry blake3 zstd reader)
  unfolding decode_entry
  decode_entry-Sized reader e d h =
      let (compressed, _, h₁) = >>=-eq-ok (reader.read (entry_range e)) _ h in
      decode_compressed_entry_len e compressed reader.details.dictionaries d h₁

  -- The chunks of an exported reader tile the original and decode to its bytes.
  pub record Readable (reader : QztReader) (original : List ℕ) : Type 0 where
    pub tiles :
        Tiles 0 0 0 reader.details.chunk_entries (length original) reader.details.summary.line_count
    pub wide : IsU64 (length original)
    pub decodes :
        All (Decodes original (decode_entry blake3 zstd reader)) reader.details.chunk_entries
    pub fits : total_compressed reader.details.chunk_entries ≤ u64_max
    pub size : length original ≡ reader.details.summary.original_size

  pub export_all-Readable :
      (bytes : List ℕ) (limits : ResourceLimits) (reader : QztReader) (original : List ℕ)
      → All IsByte bytes
      → IsU64 (length bytes)
      → open_with_limits blake3 zstd bytes limits ≡ ok reader
      → export_all blake3 zstd reader ≡ ok original
      → Readable reader original
  unfolding open_with_limits export_all memory_source
  export_all-Readable bytes limits reader original all wide opens exports =
      let (details, c₁, h₁) =
        >>=-eq-ok (open_skeleton_details_with_limits blake3 bytes limits) _ opens in
      let opened =
        open_skeleton_details_with_limits-IsOpened blake3 bytes limits details all wide c₁ in
      let same : details ≡ reader.details = ap (λ (r : QztReader). r.details) (ok-injective h₁) in
      let opened' =
        subst
          (λ (d : SkeletonDetails). IsOpened blake3 (memory_source bytes (length bytes)) limits d)
          same opened in
      let size = reader.details.summary.original_size in
      let lines = reader.details.summary.line_count in
      let es = reader.details.chunk_entries in
      let done =
        export_entries-Exported (decode_entry blake3 zstd reader) 0 0 0 size lines es [] original
          (decode_entry-Sized reader) opened'.tiles refl exports in
      let size_u64 : IsU64 size =
        subst IsU64 opened'.original_size opened'.metadata_valid.original_size_u64 in
      let small =
        total_compressed-le (length bytes) size lines es opened'.tiles opened'.placed
          opened'.apart in
      record {
        tiles = subst (λ (n : ℕ). Tiles 0 0 0 es n lines) (sym done.whole_len) opened'.tiles;
        wide = subst IsU64 (sym done.whole_len) size_u64;
        decodes = done.decoded;
        fits = omega arith;
        size = done.whole_len;
      }

  -- For a reader that `QztReader::open_with_limits` returns for a container of bytes with a u64 length,
  -- and that exports the whole original: `read_range` returns the bytes of the original at every range
  -- inside it, and refuses every other range with LogicalRangeOutOfBounds.
  pub read_range-export_all :
      (bytes : List ℕ) (limits : ResourceLimits) (reader : QztReader) (original : List ℕ)
      (offset len : ℕ)
      → All IsByte bytes
      → IsU64 (length bytes)
      → open_with_limits blake3 zstd bytes limits ≡ ok reader
      → export_all blake3 zstd reader ≡ ok original
      → read_range blake3 zstd reader offset len ≡ (
          if leb (offset + len) (length original)
          then ok (slice offset (offset + len) original)
          else err logical_range_out_of_bounds)
  unfolding read_range
  read_range-export_all bytes limits reader original offset len all wide opens exports =
      let readable = export_all-Readable bytes limits reader original all wide opens exports in
      let decode = decode_entry blake3 zstd reader in
      subst
        (λ (n : ℕ). read_range_from_entries decode reader.details.chunk_entries n offset len ≡ (
          if leb (offset + len) (length original)
          then ok (slice offset (offset + len) original)
          else err logical_range_out_of_bounds))
        readable.size
        (read_range_from_entries_lem original decode reader.details.chunk_entries
          reader.details.summary.line_count readable.tiles readable.wide readable.decodes offset len
          readable.fits)
