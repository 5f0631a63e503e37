-- ===== src/Reader/Lines/Runs.antt =====
-- Runs of reads of lines, src/reader.rs, at a concrete container.
use mathlib.Core.Path.{subst}
use qzt.Base.{ℕ, zero, suc, List, [], ◌∷◌, ◌≡◌, refl, true, some, slice, ◌+◌, arith}
use qzt.Error.{Result, ok}
use qzt.ChunkTable.{ChunkEntry}
use qzt.DenseLineIndex.{line_start_offsets, scan_line_starts, verify_chunk}
use qzt.Skeleton.Sample.{details, entry, dense}
use qzt.Reader.RangeLoop.{chunk_bytes}
use qzt.Reader.Lines.{read_line_from_entries}
use qzt.Base.SplitLines.{split_lines, ends_line}
use qzt.Reader.Lines.Table.{AreLined}
use qzt.Reader.Lines.Read.{IsIndexed, read_line_from_entries_lem}

abbrev text : List ℕ
text = b'a' ∷ 10 ∷ b'b' ∷ 10 ∷ []

abbrev decode_text : ChunkEntry → Result (List ℕ)
decode_text e = ok (slice e.logical_offset (e.logical_offset + e.uncompressed_size) text)

lined : AreLined text true details.chunk_entries
unfolding line_start_offsets scan_line_starts ends_line
lined = (refl, refl, tt)

entry_indexed : verify_chunk dense 0 (chunk_bytes text entry) entry.flags ≡ ok tt
unfolding verify_chunk line_start_offsets scan_line_starts
entry_indexed = refl

indexed : IsIndexed text (entry ∷ []) (some dense)
indexed zero e at =
    subst (λ (f : ChunkEntry). verify_chunk dense 0 (chunk_bytes text f) f.flags ≡ ok tt) (same at)
      entry_indexed
  where
    same : some entry ≡ some e → entry ≡ e
    same h = cc
indexed (suc r) e at = cc

read_line_from_entries_lem_example :
    read_line_from_entries decode_text details 1 ≡ ok (b'b' ∷ 10 ∷ [])
unfolding split_lines
read_line_from_entries_lem_example =
    read_line_from_entries_lem text decode_text details (omega arith) (omega arith) (refl, tt) lined
      indexed 1
