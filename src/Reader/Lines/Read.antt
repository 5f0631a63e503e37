-- ===== src/Reader/Lines/Read.antt =====
-- `read_line_from_entries` of src/reader.rs, against the lines of the original.
use mathlib.Core.Path.{subst}
use qzt.Base.{
  ℕ, zero, suc, ◌+◌, ◌-◌, ◌≤◌, ◌<◌, ◌≡◌, refl, ap, sym, ◌∙◌, arith, List, [], ◌∷◌, ◌++◌, ◌^◌, slice,
  length-take, length-drop,
}
use qzt.Base.{true, false, Bool-cases, inl, inr, if◌then◌else◌, Option, none, some, not}
use qzt.Base.{length, drop, drop-drop, get_elem?, All, All-drop, IsU64, leb, le→leb, lt→ltb}
use qzt.Base.{leb→le, leb-false, bytes_eq, bytes_eq→eq, usize_max}
use qzt.Error.{Result, ok, ok_or, reject_if_inv, ◌>>=◌, >>=-eq-ok, ok-injective}
use qzt.Error.{line_out_of_range, chunk_table_invalid}
use qzt.Primitives.{u64_to_usize}
use qzt.ChunkTable.{ChunkEntry, partition_by_end}
use qzt.ChunkTable.Tiling.{Tiles, Tiles-lines_le}
use qzt.ChunkTable.Locate.{line-Located}
use qzt.DenseLineIndex.{DenseLineIndex, DenseLineEntry, verify_chunk, line_start_offset}
use qzt.Skeleton.{SkeletonDetails}
use qzt.Reader.RangeLoop.{Decodes, chunk_bytes}
use qzt.Reader.Range.{drop-Tiles}
use qzt.Reader.Lines.{line_start_chunk_index, local_line_starts, local_index_of, local_start_of}
use qzt.Reader.Lines.{append_chunks, read_line_at, read_line_from_entries, line_end}
use qzt.Base.SplitLines.{split_lines, line_of, has_lf, line_tails, split_lines-tails}
use qzt.Base.{length-map}
use qzt.Reader.Lines.Starts.{get_elem?-map}
use qzt.Reader.Lines.Table.{AreLined, find_line, count_lines}
use qzt.Reader.Lines.Chunks.{append_until_lf_lem, append_chunks_lem, line_goes_on, line_ends}

get_elem?-beyond {ℓ} : {A : Type ℓ} (xs : List A) (i : ℕ) → length xs ≤ i → get_elem? xs i ≡ none
get_elem?-beyond [] i h = refl
get_elem?-beyond (x ∷ xs) zero h = absurd (omega arith)
get_elem?-beyond (x ∷ xs) (suc i) h = get_elem?-beyond xs i (omega arith)

-- The dense line index, where there is one, has the line starts of every chunk.
abbrev pub IsIndexed : List ℕ → List ChunkEntry → Option DenseLineIndex → Type 0
IsIndexed original es none = Unit {0}
IsIndexed original es (some dense) =
    (r : ℕ) (e : ChunkEntry)
    → get_elem? es r ≡ some e
    → verify_chunk dense r (chunk_bytes original e) e.flags ≡ ok tt

line_start_offset_lem :
    (dense : DenseLineIndex) (r j s flags : ℕ) (bytes : List ℕ)
    → verify_chunk dense r bytes flags ≡ ok tt
    → get_elem? (local_line_starts bytes flags) j ≡ some s
    → line_start_offset dense r j ≡ ok s
unfolding verify_chunk line_start_offset
line_start_offset_lem dense r j s flags bytes h at =
    let (entry, c₁, h₁) = >>=-eq-ok (ok_or (get_elem? dense.entries r) chunk_table_invalid) _ h in
    let same =
      equal entry.line_start_offsets (local_line_starts bytes flags)
        (reject_if_inv _ chunk_table_invalid h₁) in
    run (get_elem? dense.entries r) entry c₁ (ap (λ (xs : List ℕ). get_elem? xs j) same ∙ at)
  where
    equal : (xs ys : List ℕ) → not (bytes_eq xs ys) ≡ false → xs ≡ ys
    equal xs ys k = elim (Bool-cases (bytes_eq xs ys)) [
      | inl alike ↦ bytes_eq→eq xs ys alike
      | inr other ↦ cc (rw other at k)
    ]

    run :
        (found : Option DenseLineEntry) (entry : DenseLineEntry)
        → ok_or found chunk_table_invalid ≡ ok entry
        → get_elem? entry.line_start_offsets j ≡ some s
        → (ok_or found line_out_of_range >>= λ (e : DenseLineEntry).
            ok_or (get_elem? e.line_start_offsets j) line_out_of_range)
          ≡ ok s
    run none entry p q = cc
    run (some e) entry p q = let same : e ≡ entry = ok-injective p in rw (same, q) refl

local_start_of_lem :
    (original : List ℕ) (es : List ChunkEntry) (dense : Option DenseLineIndex) (r j s : ℕ)
    (e : ChunkEntry)
    → IsIndexed original es dense
    → get_elem? es r ≡ some e
    → get_elem? (local_line_starts (chunk_bytes original e) e.flags) j ≡ some s
    → IsU64 s
    → local_start_of dense r j (chunk_bytes original e) e ≡ ok s
unfolding local_start_of u64_to_usize
local_start_of_lem original es none r j s e indexed at local small = rw local refl
local_start_of_lem original es (some dense) r j s e indexed at local small =
    let start =
      line_start_offset_lem dense r j s e.flags (chunk_bytes original e) (indexed r e at) local in
    rw (start, le→leb s usize_max (omega arith)) refl

module _ (decode : ChunkEntry → Result (List ℕ)) where
  -- The chunk of the line and the line's start in it, read.
  run_line_at :
      (es fs : List ChunkEntry) (dense : Option DenseLineIndex) (k r j s : ℕ) (e : ChunkEntry)
      (bytes : List ℕ)
      → get_elem? es r ≡ some e
      → decode e ≡ ok bytes
      → local_index_of k e.first_line ≡ ok j
      → local_start_of dense r j bytes e ≡ ok s
      → s ≤ length bytes
      → drop (r + 1) es ≡ fs
      → read_line_at decode es dense k r ≡ (
          if has_lf (drop s bytes)
          then ok (line_of (drop s bytes))
          else append_chunks decode fs (line_of (drop s bytes)))
  unfolding read_line_at
  run_line_at es fs dense k r j s e bytes at decoded index start inside behind =
      rw (at, decoded, index, start, append_until_lf_lem bytes s [] inside, behind) refl

  local_index_of_lem : (k first : ℕ) → k < 2 ^ 64 → local_index_of k first ≡ ok (k - first)
  unfolding local_index_of
  local_index_of_lem k first h = rw (le→leb (k - first) usize_max (omega arith)) refl

  line_start_chunk_index_lem :
      (es : List ChunkEntry) (k r : ℕ) (e : ChunkEntry)
      → partition_by_end es k line_end ≡ ok r
      → get_elem? es r ≡ some e
      → line_end e ≡ ok (e.first_line + e.line_count)
      → e.first_line ≤ k
      → k < e.first_line + e.line_count
      → line_start_chunk_index es k ≡ ok r
  unfolding line_start_chunk_index
  line_start_chunk_index_lem es k r e run at ended low high =
      rw (run, at, ended, le→leb e.first_line k low, lt→ltb k (e.first_line + e.line_count) high)
        refl

module _ (original : List ℕ) (decode : ChunkEntry → Result (List ℕ)) (details : SkeletonDetails)
    (tiles : Tiles 0 0 0 details.chunk_entries (length original) details.summary.line_count)
    (wide : IsU64 (length original)) (decodes : All (Decodes original decode) details.chunk_entries)
    (lined : AreLined original true details.chunk_entries)
    (indexed : IsIndexed original details.chunk_entries details.dense_line_index) where
  abbrev entries : List ChunkEntry
  entries = details.chunk_entries

  abbrev line_count : ℕ
  line_count = details.summary.line_count

  number_of_lines : length (split_lines original) ≡ line_count
  number_of_lines =
      ap length (split_lines-tails original)
      ∙ (length-map line_of (line_tails true original)
          ∙ without_offset (length (line_tails true original)) line_count
              (count_lines original 0 0 0 line_count true entries tiles lined))
    where
      without_offset : (m n : ℕ) → 0 + m ≡ n → m ≡ n
      without_offset m n h = omega arith

  -- The chunks from the line on hold the line.
  read_line_at_lem :
      (k r : ℕ) (e : ChunkEntry)
      → get_elem? entries r ≡ some e
      → e.first_line ≤ k
      → k < e.first_line + e.line_count
      → k < line_count
      → ok_or (get_elem? (split_lines original) k) line_out_of_range
        ≡ read_line_at decode entries details.dense_line_index k r
  read_line_at_lem k r e at low high below =
      let (fs, tail, from) = drop-Tiles 0 0 0 (length original) line_count entries r e tiles at in
      let (_, _, _, _, _, _, _, behind) = from.tiles in
      let (decoded, later) =
        subst (All (Decodes original decode)) tail (All-drop _ r entries decodes) in
      let bytes = chunk_bytes original e in
      let rest = drop (e.logical_offset + e.uncompressed_size) original in
      let found = find_line original 0 0 0 line_count true entries r e k tiles lined at low high in
      let part = drop found.start bytes in
      let fewer = Tiles-lines_le 0 0 0 (length original) line_count entries tiles in
      let small = start_small found.start e.logical_offset e.uncompressed_size found.inside in
      let start =
        local_start_of_lem original entries details.dense_line_index r (k - e.first_line)
          found.start e indexed at found.local small in
      let index = local_index_of_lem decode k e.first_line (omega arith) in
      let next = sym (drop-drop r 1 entries) ∙ ap (λ (es : List ChunkEntry). drop 1 es) tail in
      let run =
        run_line_at decode entries fs details.dense_line_index k r (k - e.first_line) found.start e
          bytes at decoded index start found.inside next in
      let goes_on =
        append_chunks_lem original decode (from.index + 1) (e.logical_offset + e.uncompressed_size)
          (from.line + e.line_count) line_count fs (line_of part) behind later in
      let line : get_elem? (split_lines original) k ≡ some (line_of (part ++ rest)) =
        ap (λ (ls : List (List ℕ)). get_elem? ls k) (split_lines-tails original)
        ∙ get_elem?-map line_of (line_tails true original) k (part ++ rest)
            (rw (without_first k) at found.tail) in
      ap (λ z. ok_or z line_out_of_range) line ∙ (joined part rest _ goes_on ∙ sym run)
    where
      without_first : (n : ℕ) → n - 0 ≡ n
      without_first n = omega arith

      start_small : (s o u : ℕ) → s ≤ length (slice o (o + u) original) → IsU64 s
      start_small s o u h =
          omega (arith, wide, length-take (o + u - o) (drop o original), length-drop o original)

      joined :
          (xs ys : List ℕ) (more : Result (List ℕ))
          → more ≡ ok (line_of xs ++ line_of ys)
          → ok (line_of (xs ++ ys)) ≡ (if has_lf xs then ok (line_of xs) else more)
      joined xs ys more h = elim (Bool-cases (has_lf xs)) [
        | inl ends ↦ rw ends (ap ok (line_ends xs ys ends))
        | inr goes ↦ rw (goes, h) (ap ok (sym (line_goes_on xs ys [] goes)))
      ]

  -- For chunks that tile the original, a u64 number of bytes, and decode to their bytes of it, with the
  -- flags and the numbers of lines that these bytes give, and a dense line index, if any, that
  -- `verify_chunk` accepts for every chunk: `read_line_from_entries` returns at every number the line
  -- of the original with it, and LineOutOfRange where there is none.
  pub read_line_from_entries_lem :
      (k : ℕ)
      → read_line_from_entries decode details k
        ≡ ok_or (get_elem? (split_lines original) k) line_out_of_range
  unfolding read_line_from_entries
  read_line_from_entries_lem k = elim (Bool-cases (leb line_count k)) [
    | inl beyond ↦
        let past : length (split_lines original) ≤ k = past_end (leb→le line_count k beyond) in
        rw (beyond, get_elem?-beyond (split_lines original) k past) refl
    | inr within ↦
        let below = leb-false line_count k within in
        let fewer = Tiles-lines_le 0 0 0 (length original) line_count entries tiles in
        let found = line-Located (length original) line_count entries tiles (omega arith) k below in
        let index =
          line_start_chunk_index_lem decode entries k found.index found.entry found.run found.at
            found.ended found.low found.high in
        rw (within, index)
          (sym (read_line_at_lem k found.index found.entry found.at found.low found.high below))
  ]
    where
      past_end : line_count ≤ k → length (split_lines original) ≤ k
      past_end h = rw number_of_lines h
