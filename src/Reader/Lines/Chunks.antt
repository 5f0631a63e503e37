-- ===== src/Reader/Lines/Chunks.antt =====
-- The loop of `read_line_from_entries`, src/reader.rs, over the chunks behind the first one.
use qzt.Base.{ℕ, ◌+◌, ◌≤◌, ◌≡◌, refl, ap, sym, ◌∙◌, arith, List, [], ◌∷◌, ◌++◌}
use qzt.Base.{true, false, Bool-cases, inl, inr, if◌then◌else◌, append_assoc, append-nil}
use qzt.Base.{length, drop, All, le→leb}
use qzt.Error.{Result, ok}
use qzt.ChunkTable.{ChunkEntry}
use qzt.ChunkTable.Tiling.{Tiles}
use qzt.Reader.RangeLoop.{Decodes, chunk_bytes}
use qzt.Reader.Lines.{append_until_lf, append_chunks, scan_until_lf, lf}
use qzt.Base.{◌==◌}
use qzt.Base.SplitLines.{line_of, has_lf, line_of-append, line_of-without_lf}
use qzt.Reader.Lines.Table.{drop_all, chunk_split}

-- `append_until_lf` appends the first line of what it scans.
scan_until_lf_lem :
    (xs output : List ℕ) → scan_until_lf xs output ≡ (has_lf xs, output ++ line_of xs)
unfolding scan_until_lf has_lf line_of
scan_until_lf_lem [] output = ap (λ r. (false, r)) (sym (append-nil output))
scan_until_lf_lem (x ∷ xs) output = elim (Bool-cases (x == lf)) [
  | inl ends ↦ rw ends refl
  | inr goes ↦ rw goes (
      scan_until_lf_lem xs (output ++ (x ∷ []))
      ∙ ap (λ r. (has_lf xs, r)) (append_assoc output (x ∷ []) (line_of xs)))
]

pub append_until_lf_lem :
    (decoded : List ℕ) (start : ℕ) (output : List ℕ)
    → start ≤ length decoded
    → append_until_lf decoded start output
      ≡ ok (has_lf (drop start decoded), output ++ line_of (drop start decoded))
unfolding append_until_lf
append_until_lf_lem decoded start output h =
    rw (le→leb start (length decoded) h) (ap ok (scan_until_lf_lem (drop start decoded) output))

-- A line that goes on in the bytes behind.
pub line_goes_on :
    (bytes rest output : List ℕ)
    → has_lf bytes ≡ false
    → (output ++ line_of bytes) ++ line_of rest ≡ output ++ line_of (bytes ++ rest)
line_goes_on bytes rest output h =
    let whole : line_of (bytes ++ rest) ≡ bytes ++ line_of rest =
      line_of-append bytes rest ∙ rw h refl in
    rw (whole, line_of-without_lf bytes h) (append_assoc output bytes (line_of rest))

pub line_ends :
    (bytes rest : List ℕ) → has_lf bytes ≡ true → line_of (bytes ++ rest) ≡ line_of bytes
line_ends bytes rest h = line_of-append bytes rest ∙ rw h refl

module _ (original : List ℕ) (decode : ChunkEntry → Result (List ℕ)) where
  append_step :
      (e : ChunkEntry) (es : List ChunkEntry) (bytes output : List ℕ)
      → decode e ≡ ok bytes
      → append_chunks decode (e ∷ es) output ≡ (
          if has_lf bytes
          then ok (output ++ line_of bytes)
          else append_chunks decode es (output ++ line_of bytes))
  unfolding append_chunks
  append_step e es bytes output h =
      let scanned = append_until_lf_lem bytes 0 output (omega arith) in rw (h, scanned) refl

  -- The loop appends the line that goes on where its chunks start.
  pub append_chunks_lem :
      (index offset line lines : ℕ) (es : List ChunkEntry) (output : List ℕ)
      → Tiles index offset line es (length original) lines
      → All (Decodes original decode) es
      → append_chunks decode es output ≡ ok (output ++ line_of (drop offset original))
  unfolding append_chunks line_of
  append_chunks_lem index offset line lines [] output (all, _) decodes =
      let empty = drop_all offset original (omega arith) in
      ap ok (sym (append-nil output) ∙ ap (λ (r : List ℕ). output ++ line_of r) (sym empty))
  append_chunks_lem index offset line lines (e ∷ es) output (_, at, _, _, _, _, _, t)
        (decoded, decodes) =
      let bytes = chunk_bytes original e in
      let rest = drop (offset + e.uncompressed_size) original in
      let whole = chunk_split original e offset at in
      let step = append_step e es bytes output decoded in
      let later =
        append_chunks_lem (index + 1) (offset + e.uncompressed_size) (line + e.line_count) lines es
          (output ++ line_of bytes) t decodes in
      step ∙ elim (Bool-cases (has_lf bytes)) [
        | inl ends ↦ rw (ends, whole) (ap (λ r. ok (output ++ r)) (sym (line_ends bytes rest ends)))
        | inr goes ↦ rw (goes, whole) (later ∙ ap ok (line_goes_on bytes rest output goes))
      ]
