-- ===== src/Reader/RangeLoop.antt =====
-- The loop of `read_range_from_entries_cached`, src/reader.rs, over the chunks of a tiled original.
use Prim.Native.Nat.{max}
use qzt.Base.{ℕ, ◌+◌, ◌-◌, ◌≤◌, ◌<◌, ◌≡◌, ◌≢◌, ◌⊎◌, inl, inr, refl, ap, ◌∙◌, arith, min}
use qzt.Base.{
  List, [], ◌∷◌, ◌++◌, append_assoc, append-nil, Bool, true, false, Bool-cases, Option, none, some,
}
use qzt.Base.{
  length, slice, All, All-map, leb, leb→le, le→leb, leb-false, false-leb, ◌==◌, ==_iff, eq_false,
}
use qzt.Base.{u64_max, IsU64, checked_add, length-slice}
use qzt.Error.{Result, ok, ok_or, or_panic, resource_limit_exceeded}
use qzt.Primitives.{u64_to_usize, checked_logical_end}
use qzt.ChunkTable.{ChunkEntry, logical_end}
use qzt.ChunkTable.Tiling.{Tiles, Tiles-le}
use qzt.Io.{get_range}
use qzt.Reader.{
  ChunkDecodeCache, is_cached, Span, fill_cache, decoded_entry, chunk_piece, copy_chunks,
}
use qzt.Reader.Slices.{slice_join, slice-slice, slice_empty}

abbrev pub total_compressed : List ChunkEntry → ℕ
total_compressed [] = 0
total_compressed (e ∷ es) = e.compressed_size + total_compressed es

abbrev pub total_uncompressed : List ChunkEntry → ℕ
total_uncompressed [] = 0
total_uncompressed (e ∷ es) = e.uncompressed_size + total_uncompressed es

-- The counters of the cache have room for the chunks that are left.
pub record HasRoom (c : ChunkDecodeCache) (es : List ChunkEntry) : Type 0 where
  pub room_bytes : c.physical_decoded_bytes + total_uncompressed es ≤ u64_max
  pub room_chunks : c.decoded_chunks + length es ≤ u64_max
  pub room_compressed : c.compressed_bytes + total_compressed es ≤ u64_max

-- The bytes of a chunk in the original.
abbrev pub chunk_bytes : List ℕ → ChunkEntry → List ℕ
chunk_bytes original e = slice e.logical_offset (e.logical_offset + e.uncompressed_size) original

-- The cache holds another chunk, or this one with its bytes.
abbrev pub Holds : List ℕ → ChunkDecodeCache → ChunkEntry → Type 0
Holds original c e =
    (is_cached c.chunk_id e.chunk_id ≡ false) ⊎ (c.decoded ≡ chunk_bytes original e)

-- Later chunks have other numbers.
later_ids :
    (index offset line size lines : ℕ) (es : List ChunkEntry) (id : ℕ)
    → Tiles index offset line es size lines
    → id < index
    → All (λ (f : ChunkEntry). (id == f.chunk_id) ≡ false) es
later_ids index offset line size lines [] id t h = tt
later_ids index offset line size lines (e ∷ es) id (number, _, _, _, _, _, _, t) h = (
  eq_false id e.chunk_id (differs e.chunk_id number),
  later_ids (index + 1) (offset + e.uncompressed_size) (line + e.line_count) size lines es id t
      (omega arith),
)
  where
    differs : (n : ℕ) → n ≡ index → id ≢ n
    differs n p q = omega arith

checked_sum :
    (a b : ℕ) → a + b ≤ u64_max → ok_or (checked_add a b) resource_limit_exceeded ≡ ok (a + b)
checked_sum a b h = ground arith

module _ (original : List ℕ) (decode : ChunkEntry → Result (List ℕ)) where
  abbrev pub Decodes : ChunkEntry → Type 0
  Decodes e = decode e ≡ ok (chunk_bytes original e)

  -- A cache that holds the chunk, with room for the others, and no other chunk.
  record Filled (e : ChunkEntry) (es : List ChunkEntry) (c c' : ChunkDecodeCache) : Type 0 where
    run : decoded_entry decode c e ≡ ok c'
    bytes : c'.decoded ≡ chunk_bytes original e
    others : (id : ℕ) → (e.chunk_id == id) ≡ false → is_cached c'.chunk_id id ≡ false
    room : HasRoom c' es

  cached_is : (cached : Option ℕ) (id : ℕ) → is_cached cached id ≡ true → cached ≡ some id
  unfolding is_cached
  cached_is none id h = cc
  cached_is (some n) id h = ap some ((==_iff n id).0 h)

  room_keeps :
      (e : ChunkEntry) (es : List ChunkEntry) (c : ChunkDecodeCache)
      → HasRoom c (e ∷ es)
      → HasRoom c es
  room_keeps e es c r = record {
    room_bytes = omega (arith, r.room_bytes);
    room_chunks = omega (arith, r.room_chunks);
    room_compressed = omega (arith, r.room_compressed);
  }

  filled :
      (e : ChunkEntry) (es : List ChunkEntry) (c : ChunkDecodeCache)
      → Decodes e
      → Holds original c e
      → HasRoom c (e ∷ es)
      → (c' : ChunkDecodeCache) × Filled e es c c'
  unfolding decoded_entry fill_cache is_cached
  filled e es c decodes holds room = elim (Bool-cases (is_cached c.chunk_id e.chunk_id)) [
    | inl hit ↦
        let its = cached_is c.chunk_id e.chunk_id hit in
        (
          c,
          record {
            run = rw hit refl;
            bytes = elim holds [
              | inl miss ↦ absurd (clash (is_cached c.chunk_id e.chunk_id) hit miss)
              | inr same ↦ same
            ];
            others = λ id other. rw its other;
            room = room_keeps e es c room;
          },
        )
    | inr miss ↦
        let a = c.physical_decoded_bytes in
        let n = c.decoded_chunks in
        let z = c.compressed_bytes in
        let p : a + e.uncompressed_size ≤ u64_max = omega (arith, room.room_bytes) in
        let q : n + 1 ≤ u64_max = omega (arith, room.room_chunks) in
        let r : z + e.compressed_size ≤ u64_max = omega (arith, room.room_compressed) in
        (
          record {
            chunk_id = some e.chunk_id;
            decoded = chunk_bytes original e;
            physical_decoded_bytes = a + e.uncompressed_size;
            decoded_chunks = n + 1;
            compressed_bytes = z + e.compressed_size;
          },
          record {
            run =
                rw
                  (
                    miss,
                    decodes,
                    checked_sum a e.uncompressed_size p,
                    checked_sum n 1 q,
                    checked_sum z e.compressed_size r,
                  )
                  refl;
            bytes = refl;
            others = λ id other. other;
            room = record {
              room_bytes = omega (arith, room.room_bytes);
              room_chunks = omega (arith, room.room_chunks);
              room_compressed = omega (arith, room.room_compressed);
            };
          },
        )
  ]
    where
      clash : (b : Bool) → b ≡ true → b ≡ false → ⊥
      clash b p q = cc

  get_range_ok :
      (bytes : List ℕ) (i j : ℕ)
      → i ≤ j
      → j ≤ length bytes
      → or_panic (get_range bytes i j) ≡ ok (slice i j bytes)
  unfolding get_range
  get_range_ok bytes i j h k = rw (le→leb i j h, le→leb j (length bytes) k) refl

  -- What the loop copies out of a chunk.
  chunk_piece_lem :
      (span : Span) (e : ChunkEntry) (lo hi : ℕ) (decoded : List ℕ)
      → IsU64 (length original)
      → e.logical_offset + e.uncompressed_size ≤ length original
      → decoded ≡ chunk_bytes original e
      → max span.offset e.logical_offset ≡ lo
      → min span.end (e.logical_offset + e.uncompressed_size) ≡ hi
      → lo ≤ hi
      → chunk_piece span e (e.logical_offset + e.uncompressed_size) decoded
        ≡ ok (slice lo hi original)
  unfolding chunk_piece u64_to_usize
  chunk_piece_lem span e lo hi decoded wide inside same from to order =
      let at = e.logical_offset in
      let size = e.uncompressed_size in
      let above : at ≤ lo = omega arith in
      let below : hi ≤ at + size = omega arith in
      let i : lo - at ≤ hi - at = omega arith in
      let len : length (chunk_bytes original e) ≡ at + size - at =
        length-slice at (at + size) original inside in
      let j : hi - at ≤ length (chunk_bytes original e) = omega arith in
      let p : lo - at ≤ u64_max = omega arith in
      let q : hi - at ≤ u64_max = omega arith in
      let back_lo : at + (lo - at) ≡ lo = omega arith in
      let back_hi : at + (hi - at) ≡ hi = omega arith in
      let fits : at + (hi - at) ≤ at + size = omega arith in
      let piece = slice-slice (lo - at) (hi - at) at (at + size) original i fits in
      rw
        (
          from,
          to,
          le→leb (lo - at) u64_max p,
          le→leb (hi - at) u64_max q,
          same,
          get_range_ok (chunk_bytes original e) (lo - at) (hi - at) i j,
          piece,
          back_lo,
          back_hi,
        )
        refl

  logical_end_ok :
      (e : ChunkEntry)
      → IsU64 (length original)
      → e.logical_offset + e.uncompressed_size ≤ length original
      → logical_end e ≡ ok (e.logical_offset + e.uncompressed_size)
  unfolding checked_logical_end
  logical_end_ok e wide inside =
      let small : e.logical_offset + e.uncompressed_size ≤ u64_max = omega arith in
      rw (le→leb (e.logical_offset + e.uncompressed_size) u64_max small) refl

  -- One round of the loop.
  copy_step :
      (e : ChunkEntry) (es : List ChunkEntry) (c c' : ChunkDecodeCache) (span : Span) (end : ℕ)
      (output piece : List ℕ)
      → logical_end e ≡ ok end
      → leb span.end e.logical_offset ≡ false
      → decoded_entry decode c e ≡ ok c'
      → chunk_piece span e end c'.decoded ≡ ok piece
      → copy_chunks decode (e ∷ es) c span output ≡ copy_chunks decode es c' span (output ++ piece)
  unfolding copy_chunks
  copy_step e es c c' span end output piece p q r s = rw (p, q, r, s) refl

  copy_stop :
      (e : ChunkEntry) (es : List ChunkEntry) (c : ChunkDecodeCache) (span : Span) (end : ℕ)
      (output : List ℕ)
      → logical_end e ≡ ok end
      → leb span.end e.logical_offset ≡ true
      → copy_chunks decode (e ∷ es) c span output ≡ ok (output, c)
  unfolding copy_chunks
  copy_stop e es c span end output p q = rw (p, q) refl

  copy_nothing :
      (c : ChunkDecodeCache) (span : Span) (output : List ℕ)
      → copy_chunks decode [] c span output ≡ ok (output, c)
  unfolding copy_chunks
  copy_nothing c span output = refl

  -- A range cut at a place behind its start.
  pieces :
      (a b k : ℕ)
      → a < b
      → a ≤ k
      → slice a (min b k) original ++ slice k b original ≡ slice a b original
  pieces a b k h g = elim (Bool-cases (leb b k)) [
    | inl short ↦
        let past = leb→le b k short in
        let cut : min b k ≡ b = omega arith in
        rw (cut, slice_empty k b original past, append-nil (slice a b original)) refl
    | inr long ↦
        let before = leb-false b k long in
        let cut : min b k ≡ k = omega arith in rw cut (slice_join a k b original g (omega arith))
  ]

  unchanged :
      (d : ChunkDecodeCache) (out none_left : List ℕ)
      → none_left ≡ []
      → ◌≡◌ {A = Result (List ℕ × ChunkDecodeCache)} (ok (out, d)) (ok (out ++ none_left, d))
  unchanged d out none_left h = rw (h, append-nil out) refl

  max_right : (a b : ℕ) → a ≤ b → max a b ≡ b
  max_right a b h = omega arith

  order_min : (a b s : ℕ) → a < b → a ≤ min b (a + s)
  order_min a b s h = omega arith

  join :
      (out : List ℕ) (a b s : ℕ)
      → a < b
      → (out ++ slice a (min b (a + s)) original) ++ slice (a + s) b original
        ≡ out ++ slice a b original
  join out a b s h =
      append_assoc out (slice a (min b (a + s)) original) (slice (a + s) b original)
      ∙ ap (λ (ys : List ℕ). out ++ ys) (pieces a b (a + s) h (omega arith))

  -- The chunks behind the start of the range.
  copy_tail :
      (index lo line lines : ℕ) (es : List ChunkEntry) (c : ChunkDecodeCache) (span : Span)
      (output : List ℕ)
      → Tiles index lo line es (length original) lines
      → IsU64 (length original)
      → All Decodes es
      → All (Holds original c) es
      → HasRoom c es
      → span.offset ≤ lo
      → span.end ≤ length original
      → (c' : ChunkDecodeCache) × (copy_chunks decode es c span output
          ≡ ok (output ++ slice lo span.end original, c'))
  copy_tail index lo line lines [] c span output t wide decodes holds room start stop =
      let past : span.end ≤ lo = omega (arith, t.0) in
      (
        c,
        copy_nothing c span output
            ∙ unchanged c output (slice lo span.end original)
                (slice_empty lo span.end original past),
      )
  copy_tail index lo line lines (e ∷ es) c span output
        (number, place, first, compressed, full, fewer, flags, t) wide decodes holds room start
        stop =
      let size = e.uncompressed_size in
      let inside : lo + size ≤ length original =
        (Tiles-le (index + 1) (lo + size) (line + e.line_count) (length original) lines es t).0 in
      let inside' : e.logical_offset + size ≤ length original = rw place inside in
      let ended = logical_end_ok e wide inside' in
      elim (Bool-cases (leb span.end e.logical_offset)) [
        | inl done ↦
            let past : span.end ≤ lo = rw place at (leb→le span.end e.logical_offset done) in
            (
              c,
              copy_stop e es c span (e.logical_offset + size) output ended done
                  ∙ unchanged c output (slice lo span.end original)
                      (slice_empty lo span.end original past),
            )
        | inr more ↦
            let before : lo < span.end = rw place at (leb-false span.end e.logical_offset more) in
            let (c', fill) = filled e es c decodes.0 holds.0 room in
            let hi = min span.end (lo + size) in
            let from : max span.offset e.logical_offset ≡ lo =
              rw place (max_right span.offset lo start) in
            let to : min span.end (e.logical_offset + size) ≡ hi = rw place refl in
            let order : lo ≤ hi = order_min lo span.end size before in
            let piece =
              chunk_piece_lem span e lo hi c'.decoded wide inside' fill.bytes from to order in
            let fresh =
              later_ids (index + 1) (lo + size) (line + e.line_count) (length original) lines es
                e.chunk_id t (omega arith) in
            let holds' =
              All-map {Q = Holds original c'} es (λ f other. inl (fill.others f.chunk_id other))
                fresh in
            let (c'', rest) =
              copy_tail (index + 1) (lo + size) (line + e.line_count) lines es c' span
                (output ++ slice lo hi original) t wide decodes.1 holds' fill.room (omega arith)
                stop in
            let joined = join output lo span.end size before in
            (
              c'',
              copy_step e es c c' span (e.logical_offset + size) output (slice lo hi original) ended
                    more fill.run piece
                  ∙ rest
                  ∙ ap (λ (ys : List ℕ). ok (ys, c'')) joined,
            )
      ]

  -- The chunk that holds the start of the range, and those behind it.
  pub copy_head :
      (index lo line lines : ℕ) (e : ChunkEntry) (es : List ChunkEntry) (c : ChunkDecodeCache)
      (span : Span)
      → Tiles index lo line (e ∷ es) (length original) lines
      → IsU64 (length original)
      → All Decodes (e ∷ es)
      → All (Holds original c) (e ∷ es)
      → HasRoom c (e ∷ es)
      → lo ≤ span.offset
      → span.offset < lo + e.uncompressed_size
      → span.offset < span.end
      → span.end ≤ length original
      → (c' : ChunkDecodeCache) × (copy_chunks decode (e ∷ es) c span []
          ≡ ok (slice span.offset span.end original, c'))
  copy_head index lo line lines e es c span
        (number, place, first, compressed, full, fewer, flags, t) wide decodes holds room above
        below some_bytes stop =
      let size = e.uncompressed_size in
      let inside : lo + size ≤ length original =
        (Tiles-le (index + 1) (lo + size) (line + e.line_count) (length original) lines es t).0 in
      let inside' : e.logical_offset + size ≤ length original = rw place inside in
      let ended = logical_end_ok e wide inside' in
      let reach : leb span.end e.logical_offset ≡ false =
        rw place (false-leb span.end lo (before lo span.offset span.end above some_bytes)) in
      let (c', fill) = filled e es c decodes.0 holds.0 room in
      let hi = min span.end (lo + size) in
      let from : max span.offset e.logical_offset ≡ span.offset =
        rw place (max_left span.offset lo above) in
      let to : min span.end (e.logical_offset + size) ≡ hi = rw place refl in
      let order : span.offset ≤ hi = under span.offset span.end (lo + size) some_bytes below in
      let piece =
        chunk_piece_lem span e span.offset hi c'.decoded wide inside' fill.bytes from to order in
      let fresh =
        later_ids (index + 1) (lo + size) (line + e.line_count) (length original) lines es
          e.chunk_id t (omega arith) in
      let holds' =
        All-map {Q = Holds original c'} es (λ f other. inl (fill.others f.chunk_id other)) fresh in
      let begun : span.offset ≤ lo + size = omega arith in
      let (c'', rest) =
        copy_tail (index + 1) (lo + size) (line + e.line_count) lines es c' span
          (slice span.offset hi original) t wide decodes.1 holds' fill.room begun stop in
      let joined = pieces span.offset span.end (lo + size) some_bytes begun in
      (
        c'',
        copy_step e es c c' span (e.logical_offset + size) [] (slice span.offset hi original) ended
              reach fill.run piece
            ∙ rest
            ∙ ap (λ (ys : List ℕ). ok (ys, c'')) joined,
      )
    where
      before : (a b d : ℕ) → a ≤ b → b < d → a < d
      before a b d h k = omega arith

      max_left : (a b : ℕ) → b ≤ a → max a b ≡ a
      max_left a b h = omega arith

      under : (a b k : ℕ) → a < b → a < k → a ≤ min b k
      under a b k h g = omega arith
