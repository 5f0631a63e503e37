-- ===== src/Reader/Range.antt =====
-- Reads of byte ranges, src/reader.rs, against the original.
use mathlib.Core.Path.{subst}
use qzt.Base.{ℕ, zero, suc, ◌+◌, ◌≤◌, ◌<◌, ◌≡◌, refl, sym, ◌∙◌, arith, List, [], ◌∷◌, some}
use qzt.Base.{length, drop, slice, get_elem?, All, All-drop, IsU64, u64_max, leb, le→leb, false-ltb}
use qzt.Base.{◌==◌, ==_iff, ne_false, length-slice, if◌then◌else◌, inl, inr, ◌-◌}
use qzt.Base.{Bool-cases, false, leb→le, leb-false, lt→ltb}
use qzt.Error.{Result, ok, err, logical_range_out_of_bounds}
use qzt.Primitives.{checked_logical_end, usize_to_u64_lem}
use qzt.ChunkTable.{ChunkEntry, chunk_index_for_logical_offset}
use qzt.ChunkTable.Tiling.{Tiles}
use qzt.ChunkTable.Locate.{chunk_index_for_logical_offset_lem}
use qzt.Reader.{
  ChunkDecodeCache, new_cache, Span, copy_chunks, read_span, read_range_from_entries_cached,
}
use qzt.Reader.{read_range_from_entries, is_cached}
use qzt.Reader.Slices.{slice_empty}
use qzt.Reader.RangeLoop.{HasRoom, Holds, Decodes, total_compressed, total_uncompressed, copy_head}

-- The table from an entry on, where its number and its line are not needed.
pub record TilesFrom (offset : ℕ) (es : List ChunkEntry) (size lines : ℕ) : Type 0 where
  pub index : ℕ
  pub line : ℕ
  pub tiles : Tiles index offset line es size lines

pub drop-Tiles :
    (index offset line size lines : ℕ) (es : List ChunkEntry) (r : ℕ) (e : ChunkEntry)
    → Tiles index offset line es size lines
    → get_elem? es r ≡ some e
    → (fs : List ChunkEntry) × (drop r es ≡ e ∷ fs) × TilesFrom e.logical_offset (e ∷ fs) size lines
drop-Tiles index offset line size lines [] r e t h = cc
drop-Tiles index offset line size lines (f ∷ fs) zero e t h =
    let same : f ≡ e = first h in
    let moved = subst (λ (o : ℕ). Tiles index o line (f ∷ fs) size lines) (sym t.1) t in
    subst
      (λ (g : ChunkEntry).
        (gs : List ChunkEntry) × (f ∷ fs ≡ g ∷ gs) × TilesFrom g.logical_offset (g ∷ gs) size lines)
      same (fs, refl, record { index = index; line = line; tiles = moved })
  where
    first : some f ≡ some e → f ≡ e
    first k = cc
drop-Tiles index offset line size lines (f ∷ fs) (suc r) e (_, _, _, _, _, _, _, t) h =
    drop-Tiles (index + 1) (offset + f.uncompressed_size) (line + f.line_count) size lines fs r e t
      h

drop_totals :
    (r : ℕ) (es : List ChunkEntry)
    → (total_uncompressed (drop r es) ≤ total_uncompressed es)
      × (length (drop r es) ≤ length es)
      × (total_compressed (drop r es) ≤ total_compressed es)
drop_totals zero es = (omega arith, omega arith, omega arith)
drop_totals (suc r) [] = (omega arith, omega arith, omega arith)
drop_totals (suc r) (e ∷ es) =
    let (p, q, s) = drop_totals r es in (omega arith, omega arith, omega arith)

HasRoom-drop :
    (r : ℕ) (c : ChunkDecodeCache) (es : List ChunkEntry) → HasRoom c es → HasRoom c (drop r es)
HasRoom-drop r c es room =
    let (p, q, s) = drop_totals r es in
    record {
      room_bytes = omega (arith, room.room_bytes);
      room_chunks = omega (arith, room.room_chunks);
      room_compressed = omega (arith, room.room_compressed);
    }

Tiles-totals :
    (index offset line size lines : ℕ) (es : List ChunkEntry)
    → Tiles index offset line es size lines
    → (offset + total_uncompressed es ≡ size) × (length es ≤ total_uncompressed es)
Tiles-totals index offset line size lines [] t = omega arith
Tiles-totals index offset line size lines (e ∷ es) (_, _, _, _, full, _, _, t) = omega (
  arith,
  Tiles-totals (index + 1) (offset + e.uncompressed_size) (line + e.line_count) size lines es t,
)

module _ (original : List ℕ) (decode : ChunkEntry → Result (List ℕ)) (es : List ChunkEntry)
    (lines : ℕ) (tiles : Tiles 0 0 0 es (length original) lines) (wide : IsU64 (length original))
    (decodes : All (Decodes original decode) es) where
  run_span :
      (span : Span) (len r : ℕ) (c c' : ChunkDecodeCache) (bytes : List ℕ)
      → chunk_index_for_logical_offset es span.offset ≡ ok r
      → copy_chunks decode (drop r es) c span [] ≡ ok (bytes, c')
      → length bytes ≡ len
      → IsU64 len
      → read_span decode es span len c ≡ ok (bytes, c')
  unfolding read_span
  run_span span len r c c' bytes p q same fits =
      let small : IsU64 (length bytes) = rw same fits in
      rw (p, q, usize_to_u64_lem (length bytes) small, ne_false (length bytes) len same) refl

  -- A read of a range above zero length.
  read_span_lem :
      (offset len : ℕ) (c : ChunkDecodeCache)
      → All (Holds original c) es
      → HasRoom c es
      → 0 < len
      → offset + len ≤ length original
      → (c' : ChunkDecodeCache) × (read_span decode es
            (record { offset = offset; end = offset + len })
            len
            c
          ≡ ok (slice offset (offset + len) original, c'))
  read_span_lem offset len c holds room pos inside =
      let span : Span = record { offset = offset; end = offset + len } in
      let starts : offset < length original = omega arith in
      let (r, e, run, at, low, high) =
        chunk_index_for_logical_offset_lem (length original) lines es tiles wide offset starts in
      let (fs, tail, from) = drop-Tiles 0 0 0 (length original) lines es r e tiles at in
      let its_decodes = subst (All (Decodes original decode)) tail (All-drop _ r es decodes) in
      let its_holds = subst (All (Holds original c)) tail (All-drop _ r es holds) in
      let its_room = subst (HasRoom c) tail (HasRoom-drop r c es room) in
      let above : offset < offset + len = omega arith in
      let (c', copied) =
        copy_head original decode from.index e.logical_offset from.line lines e fs c span from.tiles
          wide its_decodes its_holds its_room low high above inside in
      let whole : copy_chunks decode (drop r es) c span []
          ≡ ok (slice offset (offset + len) original, c') =
        subst
          (λ (gs : List ChunkEntry).
            copy_chunks decode gs c span [] ≡ ok (slice offset (offset + len) original, c'))
          (sym tail) copied in
      let taken : length (slice offset (offset + len) original) ≡ len =
        length-slice offset (offset + len) original inside ∙ width offset len in
      (
        c',
        run_span span len r c c' (slice offset (offset + len) original) run whole taken
            (omega arith),
      )
    where
      width : (a b : ℕ) → a + b - a ≡ b
      width a b = omega arith

  read_range_cached_ok :
      (offset len : ℕ) (c : ChunkDecodeCache)
      → All (Holds original c) es
      → HasRoom c es
      → offset + len ≤ length original
      → (c' : ChunkDecodeCache) × (read_range_from_entries_cached decode es
            (length original)
            offset
            len
            c
          ≡ ok (slice offset (offset + len) original, c'))
  unfolding read_range_from_entries_cached checked_logical_end
  read_range_cached_ok offset len c holds room inside =
      let small : offset + len ≤ u64_max = omega arith in
      let ended = le→leb (offset + len) u64_max small in
      let within = false-ltb (length original) (offset + len) inside in
      elim (Bool-cases (len == 0)) [
        | inl none_left ↦
            let zero_len = (==_iff len 0).0 none_left in
            let past : offset + len ≤ offset = omega arith in
            (c, rw (ended, within, none_left, slice_empty offset (offset + len) original past) refl)
        | inr some_left ↦
            let pos : 0 < len = positive len some_left in
            let (c', run) = read_span_lem offset len c holds room pos inside in
            (c', rw (ended, within, some_left) run)
      ]
    where
      positive : (n : ℕ) → (n == 0) ≡ false → 0 < n
      positive n h = ground arith

  no_chunk_held : (fs : List ChunkEntry) → All (Holds original new_cache) fs
  unfolding is_cached
  no_chunk_held [] = tt
  no_chunk_held (f ∷ fs) = (inl refl, no_chunk_held fs)

  room_of_tiles : total_compressed es ≤ u64_max → HasRoom new_cache es
  room_of_tiles h =
      let (bytes, count) = Tiles-totals 0 0 0 (length original) lines es tiles in
      record { room_bytes = omega arith; room_chunks = omega arith; room_compressed = omega arith }

  refused :
      (offset len : ℕ)
      → length original < offset + len
      → read_range_from_entries decode es (length original) offset len
        ≡ err logical_range_out_of_bounds
  unfolding read_range_from_entries read_range_from_entries_cached checked_logical_end
  refused offset len h = elim (Bool-cases (leb (offset + len) u64_max)) [
    | inl small ↦ rw (small, lt→ltb (length original) (offset + len) h) refl
    | inr large ↦ rw large refl
  ]

  -- For chunks that tile the original, a u64 number of bytes, and decode to their bytes of it, whose
  -- compressed sizes sum up to a u64, `read_range_from_entries` returns exactly the bytes of every
  -- range inside the original, and refuses every other range with LogicalRangeOutOfBounds.
  pub read_range_from_entries_lem :
      (offset len : ℕ)
      → total_compressed es ≤ u64_max
      → read_range_from_entries decode es (length original) offset len ≡ (
          if leb (offset + len) (length original)
          then ok (slice offset (offset + len) original)
          else err logical_range_out_of_bounds)
  unfolding read_range_from_entries
  read_range_from_entries_lem offset len small =
      elim (Bool-cases (leb (offset + len) (length original))) [
        | inl inside ↦
            let within = leb→le (offset + len) (length original) inside in
            let room = room_of_tiles small in
            let (c', run) =
              read_range_cached_ok offset len new_cache (no_chunk_held es) room within in
            rw (inside, run) refl
        | inr outside ↦
            let beyond = leb-false (offset + len) (length original) outside in
            rw outside (refused offset len beyond)
      ]
