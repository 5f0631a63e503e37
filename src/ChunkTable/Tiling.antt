-- ===== src/ChunkTable/Tiling.antt =====
-- The validation loop of `validate_chunk_table_block`, src/chunk_table.rs, against tilings of the
-- original.
use qzt.Base.{ℕ, suc, ◌+◌, ◌^◌, ◌≤◌, ◌<◌, ◌≡◌, ◌↔◌, List, [], ◌∷◌, arith}
use qzt.Base.{◌||◌, ◌!=◌, length, All, IsU32, IsU64, false}
use qzt.Base.Bits.{bit_and_high}
use qzt.Error.{ok, reject_if, reject_if_inv, >>=-eq-ok, chunk_size_mismatch}
use qzt.ChunkTable.{
  ChunkEntry, Progress, check_entry, check_entries, check_table, has_unknown_flags,
}
use qzt.ChunkTable.{start_progress}

-- The entries are numbered from `index`, and continue the bytes from `offset` and the lines from
-- `line` without a gap, up to `size` bytes and `lines` lines.
abbrev pub Tiles : ℕ → ℕ → ℕ → List ChunkEntry → ℕ → ℕ → Type 0
Tiles index offset line [] size lines = (offset ≡ size) × (line ≡ lines)
Tiles index offset line (e ∷ es) size lines =
    (e.chunk_id ≡ index)
    × (e.logical_offset ≡ offset)
    × (e.first_line ≡ line)
    × (0 < e.compressed_size)
    × (0 < e.uncompressed_size)
    × (e.line_count ≤ e.uncompressed_size)
    × (e.flags < 2)
    × Tiles (index + 1) (offset + e.uncompressed_size) (line + e.line_count) es size lines

-- The loop's variables: the expected values and the totals run together.
abbrev progress : ℕ → ℕ → ℕ → Progress
progress index offset line = record {
  index = index;
  expected_logical_offset = offset;
  expected_first_line = line;
  total_uncompressed_size = offset;
  total_line_count = line;
}

has_unknown_flags_lem : (flags : ℕ) → IsU32 flags → (has_unknown_flags flags ≡ false) ↔ (flags < 2)
unfolding has_unknown_flags
has_unknown_flags_lem flags h = ground (arith, bit_and_high flags h)

pub Tiles-le :
    (index offset line size lines : ℕ) (es : List ChunkEntry)
    → Tiles index offset line es size lines
    → (offset ≤ size) × (line ≤ lines)
Tiles-le index offset line size lines [] t = omega arith
Tiles-le index offset line size lines (e ∷ es) (_, _, _, _, _, _, _, t) = omega (
  arith,
  Tiles-le (index + 1) (offset + e.uncompressed_size) (line + e.line_count) size lines es t,
)

-- A tiling has no more lines than bytes.
pub Tiles-lines_le :
    (index offset line size lines : ℕ) (es : List ChunkEntry)
    → Tiles index offset line es size lines
    → lines + offset ≤ size + line
Tiles-lines_le index offset line size lines [] t = omega arith
Tiles-lines_le index offset line size lines (e ∷ es) (_, _, _, _, _, fewer, _, t) = omega (
  arith,
  Tiles-lines_le (index + 1) (offset + e.uncompressed_size) (line + e.line_count) size lines es t,
)

module _ (index offset line : ℕ) (e : ChunkEntry) (flags_u32 : IsU32 e.flags) where
  check_entry_ok :
      (e.chunk_id ≡ index)
      → (e.logical_offset ≡ offset)
      → (e.first_line ≡ line)
      → 0 < e.compressed_size
      → 0 < e.uncompressed_size
      → e.line_count ≤ e.uncompressed_size
      → e.flags < 2
      → index < 2 ^ 64
      → offset + e.uncompressed_size < 2 ^ 64
      → line + e.line_count < 2 ^ 64
      → check_entry (progress index offset line) e
        ≡ ok (progress (index + 1) (offset + e.uncompressed_size) (line + e.line_count))
  unfolding check_entry
  check_entry_ok h₁ h₂ h₃ h₄ h₅ h₆ h₇ h₈ h₉ h =
      let known = (has_unknown_flags_lem e.flags flags_u32).1 h₇ in
      unfold has_unknown_flags in ground arith

  check_entry_inv :
      (p : Progress)
      → check_entry (progress index offset line) e ≡ ok p
      → (e.chunk_id ≡ index)
        × (e.logical_offset ≡ offset)
        × (e.first_line ≡ line)
        × (0 < e.compressed_size)
        × (0 < e.uncompressed_size)
        × (e.line_count ≤ e.uncompressed_size)
        × (e.flags < 2)
        × (p ≡ progress (index + 1) (offset + e.uncompressed_size) (line + e.line_count))
  unfolding check_entry
  check_entry_inv p h = ground (arith, (has_unknown_flags_lem e.flags flags_u32).0)

check_entries-Tiles :
    (index offset line : ℕ) (es : List ChunkEntry) (p : Progress)
    → All (λ e. IsU32 e.flags) es
    → check_entries (progress index offset line) es ≡ ok p
    → Tiles index offset line es p.total_uncompressed_size p.total_line_count
unfolding check_entries
check_entries-Tiles index offset line [] p u h = ground arith
check_entries-Tiles index offset line (e ∷ es) p u h =
    let (p', c, h') = >>=-eq-ok (check_entry (progress index offset line) e) _ h in
    let (h₁, h₂, h₃, h₄, h₅, h₆, h₇, same) = check_entry_inv index offset line e u.0 p' c in
    let rest =
      check_entries-Tiles (index + 1) (offset + e.uncompressed_size) (line + e.line_count) es p u.1
        (rw same at h') in
    (h₁, h₂, h₃, h₄, h₅, h₆, h₇, rest)

Tiles-check_entries :
    (index offset line size lines : ℕ) (es : List ChunkEntry)
    → All (λ e. IsU32 e.flags) es
    → IsU64 size
    → IsU64 lines
    → index + length es < 2 ^ 64
    → Tiles index offset line es size lines
    → check_entries (progress index offset line) es ≡ ok (progress (index + length es) size lines)
unfolding check_entries
Tiles-check_entries index offset line size lines [] u hs hl hi t = ground arith
Tiles-check_entries index offset line size lines (e ∷ es) u hs hl hi
      (h₁, h₂, h₃, h₄, h₅, h₆, h₇, t) =
    let offset' = offset + e.uncompressed_size in
    let line' = line + e.line_count in
    let (fit, fit') = Tiles-le (index + 1) offset' line' size lines es t in
    let first =
      check_entry_ok index offset line e u.0 h₁ h₂ h₃ h₄ h₅ h₆ h₇ (omega arith) (omega arith)
        (omega arith) in
    let n : index + 1 + length es ≡ index + suc (length es) = omega arith in
    rw (first, ← n)
      (Tiles-check_entries (index + 1) offset' line' size lines es u.1 hs hl (omega arith) t)

-- `check_table` returns the entries exactly when they tile the original with its size and lines.
pub check_table_iff :
    (size lines : ℕ) (es : List ChunkEntry)
    → All (λ e. IsU32 e.flags) es
    → IsU64 size
    → IsU64 lines
    → IsU64 (length es)
    → (check_table size lines es ≡ ok es) ↔ Tiles 0 0 0 es size lines
unfolding check_table
check_table_iff size lines es u hs hl hn = (forth, back)
  where
    forth : check_table size lines es ≡ ok es → Tiles 0 0 0 es size lines
    forth h =
        let (p, c, h') = >>=-eq-ok (check_entries start_progress es) _ h in
        let (_, c', _) =
          >>=-eq-ok
            (reject_if (p.total_uncompressed_size != size || p.total_line_count != lines)
              chunk_size_mismatch)
            _ h' in
        let (s, l) = totals p (reject_if_inv _ _ c') in
        rw (s, l) at (check_entries-Tiles 0 0 0 es p u c)
      where
        totals :
            (p : Progress)
            → (p.total_uncompressed_size != size || p.total_line_count != lines) ≡ false
            → (p.total_uncompressed_size ≡ size) × (p.total_line_count ≡ lines)
        totals p h = ground arith

    back : Tiles 0 0 0 es size lines → check_table size lines es ≡ ok es
    back t =
        let n : 0 + length es < 2 ^ 64 = omega arith in
        rw (Tiles-check_entries 0 0 0 size lines es u hs hl n t) (ground arith)

pub check_table_returns :
    (size lines : ℕ) (es r : List ChunkEntry) → check_table size lines es ≡ ok r → r ≡ es
unfolding check_table
check_table_returns size lines es r h =
    let (p, c, h') = >>=-eq-ok (check_entries start_progress es) _ h in ground arith
