-- ===== src/ChunkTable/Locate.antt =====
-- The searches by byte and by line in chunk tables, src/chunk_table.rs and src/reader.rs, on tables
-- that tile the original.
use qzt.Base.{ℕ, zero, suc, ◌+◌, ◌≤◌, ◌<◌, ◌≡◌, refl, List, [], ◌∷◌, arith}
use qzt.Base.{length, get_elem?, some, IsU64}
use native.Mathlib.Decide.{dec_lt}
use qzt.Error.{Result, ok}
use qzt.Primitives.{checked_logical_end}
use qzt.ChunkTable.{ChunkEntry, partition_by_end, chunk_index_for_logical_offset}
use qzt.ChunkTable.Tiling.{Tiles}
use qzt.ChunkTable.Search.{partition_by_end-Splits, Splits}

-- A table that is searched by a start and a size of its entries: bytes or lines.
module _ (start_of size_of : ChunkEntry → ℕ) where
  -- The entries continue one another from `start` to `stop`.
  abbrev Chained : ℕ → List ChunkEntry → ℕ → Type 0
  Chained start [] stop = start ≡ stop
  Chained start (e ∷ es) stop = (start_of e ≡ start) × Chained (start + size_of e) es stop

  -- Where the i-th entry ends, when the first one starts at `start`.
  end_at : ℕ → List ChunkEntry → ℕ → ℕ
  end_at start [] i = start
  end_at start (e ∷ es) zero = start + size_of e
  end_at start (e ∷ es) (suc i) = end_at (start + size_of e) es i

  end_at-ge : (start : ℕ) (es : List ChunkEntry) (i : ℕ) → start ≤ end_at start es i
  unfolding end_at
  end_at-ge start [] i = omega arith
  end_at-ge start (e ∷ es) zero = omega arith
  end_at-ge start (e ∷ es) (suc i) = omega (arith, end_at-ge (start + size_of e) es i)

  end_at_mono :
      (start : ℕ) (es : List ChunkEntry) (i j : ℕ) → i ≤ j → end_at start es i ≤ end_at start es j
  unfolding end_at
  end_at_mono start [] i j h = omega arith
  end_at_mono start (e ∷ es) zero zero h = omega arith
  end_at_mono start (e ∷ es) zero (suc j) h = end_at-ge (start + size_of e) es j
  end_at_mono start (e ∷ es) (suc i) zero h = absurd (omega arith)
  end_at_mono start (e ∷ es) (suc i) (suc j) h =
      end_at_mono (start + size_of e) es i j (omega arith)

  Chained-le : (start stop : ℕ) (es : List ChunkEntry) → Chained start es stop → start ≤ stop
  Chained-le start stop [] t = omega arith
  Chained-le start stop (e ∷ es) t = omega (arith, Chained-le (start + size_of e) stop es t.1)

  abbrev StartsAt : ℕ → List ChunkEntry → ℕ → ℕ → Type 0
  StartsAt start es zero at = at ≡ start
  StartsAt start es (suc i) at = at ≡ end_at start es i

  StartsAt-cons :
      (start : ℕ) (e : ChunkEntry) (es : List ChunkEntry) (i at : ℕ)
      → StartsAt (start + size_of e) es i at
      → StartsAt start (e ∷ es) (suc i) at
  unfolding end_at
  StartsAt-cons start e es zero at h = h
  StartsAt-cons start e es (suc i) at h = h

  -- The entry at an index ends there, and starts where the entry before it ends.
  entry_at :
      (start stop : ℕ) (es : List ChunkEntry) (i : ℕ)
      → Chained start es stop
      → i < length es
      → (e : ChunkEntry) × (get_elem? es i ≡ some e)
        × (start_of e + size_of e ≡ end_at start es i)
        × (end_at start es i ≤ stop)
        × StartsAt start es i (start_of e)
  unfolding end_at
  entry_at start stop [] i t h = absurd (omega arith)
  entry_at start stop (e ∷ es) zero (at, t) h =
      (e, refl, sum (start_of e) at, Chained-le (start + size_of e) stop es t, at)
    where
      sum : (a : ℕ) → a ≡ start → a + size_of e ≡ start + size_of e
      sum a p = omega arith
  entry_at start stop (e ∷ es) (suc i) (_, t) h =
      let (found, at, its_end, inside, starts) =
        entry_at (start + size_of e) stop es i t (omega arith) in
      (found, at, its_end, inside, StartsAt-cons start e es i (start_of found) starts)

  end_at_last :
      (start stop : ℕ) (es : List ChunkEntry) (n : ℕ)
      → Chained start es stop
      → n + 1 ≡ length es
      → end_at start es n ≡ stop
  unfolding end_at
  end_at_last start stop [] n t h = absurd (omega arith)
  end_at_last start stop (e ∷ []) zero (_, t) h = t
  end_at_last start stop (e ∷ (f ∷ es)) zero t h = absurd (omega arith)
  end_at_last start stop (e ∷ es) (suc n) (_, t) h =
      end_at_last (start + size_of e) stop es n t (omega arith)

  abbrev end_of : ChunkEntry → Result ℕ
  end_of e = checked_logical_end (start_of e) (size_of e)

  end_of_lem : (e : ChunkEntry) (v : ℕ) → start_of e + size_of e ≡ v → IsU64 v → end_of e ≡ ok v
  unfolding checked_logical_end
  end_of_lem e v h u = ground arith

  starts_before :
      (target r at : ℕ) (es : List ChunkEntry)
      → Splits es target end_of (end_at 0 es) r
      → StartsAt 0 es r at
      → at ≤ target
  starts_before target zero at es split h = omega arith
  starts_before target (suc r) at es split h = omega (arith, h, split.1 r (omega arith))

  -- A target inside the table is before the end of the last entry.
  split_inside :
      (stop target r : ℕ) (es : List ChunkEntry)
      → Chained 0 es stop
      → target < stop
      → Splits es target end_of (end_at 0 es) r
      → r < length es
  split_inside stop target r [] t h split = absurd (omega arith)
  split_inside stop target r (e ∷ es) t h split = elim (dec_lt r (suc (length es))) [
    | yes p ↦ p
    | no p ↦
        let last = end_at_last 0 stop (e ∷ es) (length es) t (omega arith) in
        absurd (omega (arith, last, split.1 (length es) (omega arith)))
  ]

  -- The entry that holds the target.
  pub record Located (es : List ChunkEntry) (target : ℕ) : Type 0 where
    pub index : ℕ
    pub entry : ChunkEntry
    pub run : partition_by_end es target end_of ≡ ok index
    pub at : get_elem? es index ≡ some entry
    pub low : start_of entry ≤ target
    pub high : target < start_of entry + size_of entry
    pub ended : end_of entry ≡ ok (start_of entry + size_of entry)

  pub partition_by_end-Located :
      (stop : ℕ) (es : List ChunkEntry) (target : ℕ)
      → Chained 0 es stop
      → IsU64 stop
      → target < stop
      → Located es target
  partition_by_end-Located stop es target t u h =
      let (r, run, split) =
        partition_by_end-Splits es target end_of (end_at 0 es) has_ends
          (λ i j p q. end_at_mono 0 es i j p) in
      let inside = split_inside stop target r es t h split in
      let (e, at, its_end, fits, starts) = entry_at 0 stop es r t inside in
      record {
        index = r;
        entry = e;
        run = run;
        at = at;
        low = starts_before target r (start_of e) es split starts;
        high = omega (arith, its_end, split.2 r (omega arith) inside);
        ended = end_of_lem e (start_of e + size_of e) refl (omega (arith, its_end, fits));
      }
    where
      has_ends :
          (i : ℕ)
          → i < length es
          → (e : ChunkEntry) × (get_elem? es i ≡ some e) × (end_of e ≡ ok (end_at 0 es i))
      has_ends i p =
          let (e, at, its_end, fits, _) = entry_at 0 stop es i t p in
          (e, at, end_of_lem e (end_at 0 es i) its_end (omega arith))

Tiles-Chained :
    (index offset line size lines : ℕ) (es : List ChunkEntry)
    → Tiles index offset line es size lines
    → Chained ChunkEntry.logical_offset ChunkEntry.uncompressed_size offset es size
      × Chained ChunkEntry.first_line ChunkEntry.line_count line es lines
Tiles-Chained index offset line size lines [] t = t
Tiles-Chained index offset line size lines (e ∷ es) (_, at, first, _, _, _, _, t) =
    let (bytes, rows) =
      Tiles-Chained (index + 1) (offset + e.uncompressed_size) (line + e.line_count) size lines es
        t in
    ((at, bytes), (first, rows))

module _ (size lines : ℕ) (es : List ChunkEntry) (t : Tiles 0 0 0 es size lines) where
  -- In a table that tiles `size` bytes, u64, `chunk_index_for_logical_offset` returns for every
  -- offset below `size` the index of the entry whose byte range holds the offset.
  pub chunk_index_for_logical_offset_lem :
      IsU64 size
      → (offset : ℕ) → offset < size
      → (r : ℕ) × (e : ChunkEntry) × (chunk_index_for_logical_offset es offset ≡ ok r)
        × (get_elem? es r ≡ some e)
        × (e.logical_offset ≤ offset)
        × (offset < e.logical_offset + e.uncompressed_size)
  unfolding chunk_index_for_logical_offset
  chunk_index_for_logical_offset_lem u offset h =
      let found =
        partition_by_end-Located ChunkEntry.logical_offset ChunkEntry.uncompressed_size size es
          offset (Tiles-Chained 0 0 0 size lines es t).0 u h in
      (found.index, found.entry, found.run, found.at, found.low, found.high)

  -- The search of `line_start_chunk_index`.
  pub line-Located :
      IsU64 lines → (k : ℕ) → k < lines → Located ChunkEntry.first_line ChunkEntry.line_count es k
  line-Located u k h =
      partition_by_end-Located ChunkEntry.first_line ChunkEntry.line_count lines es k
        (Tiles-Chained 0 0 0 size lines es t).1 u h
