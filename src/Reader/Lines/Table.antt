-- ===== src/Reader/Lines/Table.antt =====
-- The lines of the original in the chunks of a table, for the line numbers of src/reader.rs.
use mathlib.Core.Path.{subst}
use qzt.Base.{ℕ, zero, suc, ◌+◌, ◌-◌, ◌≤◌, ◌<◌, ◌≡◌, refl, ap, sym, ◌∙◌, arith, List, [], ◌∷◌, ◌++◌}
use qzt.Base.{
  map, Bool, length, take, drop, drop-drop, take-append-drop, length-append, get_elem?, some,
}
use qzt.ChunkTable.{ChunkEntry}
use qzt.ChunkTable.Tiling.{Tiles}
use qzt.Reader.RangeLoop.{chunk_bytes}
use qzt.Reader.Lines.{local_line_starts}
use qzt.Base.{length-map}
use qzt.Base.SplitLines.{line_tails, ends_line, line_tails-append}
use qzt.Reader.Lines.Starts.{is_fresh, get_elem?-map, get_elem?-append_left, get_elem?-append_right}
use qzt.Reader.Lines.Starts.{length-local_line_starts, local_start_lem}

pub drop_all : (n : ℕ) (xs : List ℕ) → length xs ≤ n → drop n xs ≡ []
drop_all n [] h = nothing n
  where
    nothing : (m : ℕ) → ◌≡◌ {A = List ℕ} (drop m []) []
    nothing zero = refl
    nothing (suc m) = refl
drop_all zero (x ∷ xs) h = absurd (omega arith)
drop_all (suc n) (x ∷ xs) h = drop_all n xs (omega arith)

first_line-ge :
    (index offset line size lines : ℕ) (es : List ChunkEntry) (r : ℕ) (e : ChunkEntry)
    → Tiles index offset line es size lines
    → get_elem? es r ≡ some e
    → line ≤ e.first_line
first_line-ge index offset line size lines [] r e t h = cc
first_line-ge index offset line size lines (f ∷ fs) zero e (_, _, first, _, _, _, _, _) h =
    subst (λ (g : ChunkEntry). line ≤ g.first_line) (same h) (below f.first_line first)
  where
    same : some f ≡ some e → f ≡ e
    same k = cc

    below : (n : ℕ) → n ≡ line → line ≤ n
    below n p = omega arith
first_line-ge index offset line size lines (f ∷ fs) (suc r) e (_, _, _, _, _, _, _, t) h = omega (
  arith,
  first_line-ge (index + 1) (offset + f.uncompressed_size) (line + f.line_count) size lines fs r e t
      h,
)

module _ (original : List ℕ) where
  -- Each chunk has the flag and the number of lines that its bytes and those before it give; the
  -- Boolean says whether the first chunk starts a line.
  abbrev pub AreLined : Bool → List ChunkEntry → Type 0
  AreLined starts [] = Unit {0}
  AreLined starts (e ∷ es) =
      (is_fresh e.flags ≡ starts)
      × (length (local_line_starts (chunk_bytes original e) e.flags) ≡ e.line_count)
      × AreLined (ends_line starts (chunk_bytes original e)) es

  pub chunk_split :
      (e : ChunkEntry) (offset : ℕ)
      → e.logical_offset ≡ offset
      → drop offset original
        ≡ chunk_bytes original e ++ drop (offset + e.uncompressed_size) original
  chunk_split e offset at =
      subst
        (λ (o : ℕ).
          drop o original ≡ chunk_bytes original e ++ drop (o + e.uncompressed_size) original)
        at (split e.logical_offset e.uncompressed_size)
    where
      split :
          (o u : ℕ) → drop o original ≡ take (o + u - o) (drop o original) ++ drop (o + u) original
      split o u =
          let width : o + u - o ≡ u = omega arith in
          rw (width, ← drop-drop o u original) (sym (take-append-drop u (drop o original)))

  -- The lines that start in the first chunk, and those behind it.
  first_tails :
      (offset : ℕ) (starts : Bool) (e : ChunkEntry)
      → e.logical_offset ≡ offset
      → line_tails starts (drop offset original)
        ≡ map
            (λ (zs : List ℕ). zs ++ drop (offset + e.uncompressed_size) original)
            (line_tails starts (chunk_bytes original e))
          ++ line_tails
              (ends_line starts (chunk_bytes original e))
              (drop (offset + e.uncompressed_size) original)
  first_tails offset starts e at =
      ap (line_tails starts) (chunk_split e offset at)
      ∙ line_tails-append starts (chunk_bytes original e)
          (drop (offset + e.uncompressed_size) original)

  -- The number of lines that start in a chunk is its line count.
  chunk_lines :
      (e : ChunkEntry) (starts : Bool) (rest : List ℕ)
      → is_fresh e.flags ≡ starts
      → length (local_line_starts (chunk_bytes original e) e.flags) ≡ e.line_count
      → length (map (λ (zs : List ℕ). zs ++ rest) (line_tails starts (chunk_bytes original e)))
        ≡ e.line_count
  chunk_lines e starts rest fresh count =
      length-map (λ (zs : List ℕ). zs ++ rest) (line_tails starts (chunk_bytes original e))
      ∙ (ap (λ (b : Bool). length (line_tails b (chunk_bytes original e))) (sym fresh)
          ∙ (sym (length-local_line_starts (chunk_bytes original e) e.flags) ∙ count))

  -- The lines that start behind an offset are those that the table counts.
  pub count_lines :
      (index offset line lines : ℕ) (starts : Bool) (es : List ChunkEntry)
      → Tiles index offset line es (length original) lines
      → AreLined starts es
      → line + length (line_tails starts (drop offset original)) ≡ lines
  unfolding line_tails
  count_lines index offset line lines starts [] (all, done) lined =
      let empty = drop_all offset original (omega arith) in
      let none_left : length (line_tails starts (drop offset original)) ≡ 0 =
        ap (λ (r : List ℕ). length (line_tails starts r)) empty in
      omega arith
  count_lines index offset line lines starts (e ∷ es) (_, at, _, _, _, _, _, t)
        (fresh, count, lined) =
      let rest = drop (offset + e.uncompressed_size) original in
      let after = line_tails (ends_line starts (chunk_bytes original e)) rest in
      let here = map (λ (zs : List ℕ). zs ++ rest) (line_tails starts (chunk_bytes original e)) in
      let later =
        count_lines (index + 1) (offset + e.uncompressed_size) (line + e.line_count) lines
          (ends_line starts (chunk_bytes original e)) es t lined in
      let total : length (line_tails starts (drop offset original)) ≡ e.line_count + length after =
        ap length (first_tails offset starts e at)
        ∙ (length-append here after
            ∙ ap (λ (n : ℕ). n + length after) (chunk_lines e starts rest fresh count)) in
      sums line e.line_count (length after) (length (line_tails starts (drop offset original)))
        lines total later
    where
      sums : (l c a n m : ℕ) → n ≡ c + a → l + c + a ≡ m → l + n ≡ m
      sums l c a n m p q = omega arith

  -- The line at a number, in the chunk where it starts.
  pub record LineAt (e : ChunkEntry) (k : ℕ) (tails : List (List ℕ)) (i : ℕ) : Type 0 where
    pub start : ℕ
    pub local :
        get_elem? (local_line_starts (chunk_bytes original e) e.flags) (k - e.first_line)
        ≡ some start
    pub inside : start ≤ length (chunk_bytes original e)
    pub tail :
        get_elem? tails i
        ≡ some (
            drop start (chunk_bytes original e)
            ++ drop (e.logical_offset + e.uncompressed_size) original)

  line_here :
      (e : ChunkEntry) (k : ℕ)
      → length (local_line_starts (chunk_bytes original e) e.flags) ≡ e.line_count
      → e.first_line ≤ k
      → k < e.first_line + e.line_count
      → LineAt e k
          (line_tails (is_fresh e.flags) (drop e.logical_offset original))
          (k - e.first_line)
  line_here e k count low high =
      let bytes = chunk_bytes original e in
      let fresh = is_fresh e.flags in
      let rest = drop (e.logical_offset + e.uncompressed_size) original in
      let many = sym (length-local_line_starts bytes e.flags) ∙ count in
      let below =
        counted (length (line_tails fresh bytes)) e.line_count e.first_line k many low high in
      let (s, local, inside, at) = local_start_lem bytes e.flags (k - e.first_line) below in
      let here = map (λ (zs : List ℕ). zs ++ rest) (line_tails fresh bytes) in
      let after = line_tails (ends_line fresh bytes) rest in
      record {
        start = s;
        local = local;
        inside = inside;
        tail =
            ap (λ (ts : List (List ℕ)). get_elem? ts (k - e.first_line))
              (first_tails e.logical_offset fresh e refl)
            ∙ get_elem?-append_left here after (k - e.first_line) (drop s bytes ++ rest) (
                get_elem?-map (λ (zs : List ℕ). zs ++ rest) (line_tails fresh bytes)
                  (k - e.first_line) (drop s bytes) at);
      }
    where
      counted : (n c l m : ℕ) → n ≡ c → l ≤ m → m < l + c → m - l < n
      counted n c l m p q r = omega arith

  pub find_line :
      (index offset line lines : ℕ) (starts : Bool) (es : List ChunkEntry) (r : ℕ) (e : ChunkEntry)
      (k : ℕ)
      → Tiles index offset line es (length original) lines
      → AreLined starts es
      → get_elem? es r ≡ some e
      → e.first_line ≤ k
      → k < e.first_line + e.line_count
      → LineAt e k (line_tails starts (drop offset original)) (k - line)
  find_line index offset line lines starts [] r e k t lined at low high = cc
  find_line index offset line lines starts (f ∷ fs) zero e k (_, place, first, _, _, _, _, _)
        (fresh, count, _) at low high =
      let same : f ≡ e = first_of at in
      let low' = subst (λ (g : ChunkEntry). g.first_line ≤ k) (sym same) low in
      let high' = subst (λ (g : ChunkEntry). k < g.first_line + g.line_count) (sym same) high in
      let found = line_here f k count low' high' in
      let found₁ =
        subst
          (λ (o : ℕ).
            LineAt f k (line_tails (is_fresh f.flags) (drop o original)) (k - f.first_line))
          place found in
      let found₂ =
        subst (λ (b : Bool). LineAt f k (line_tails b (drop offset original)) (k - f.first_line))
          fresh found₁ in
      let found₃ =
        subst (λ (n : ℕ). LineAt f k (line_tails starts (drop offset original)) (k - n)) first
          found₂ in
      subst (λ (g : ChunkEntry). LineAt g k (line_tails starts (drop offset original)) (k - line))
        same found₃
    where
      first_of : some f ≡ some e → f ≡ e
      first_of h = cc
  find_line index offset line lines starts (f ∷ fs) (suc r) e k (_, place, _, _, _, _, _, t)
        (fresh, count, lined) at low high =
      let o = offset + f.uncompressed_size in
      let later =
        find_line (index + 1) o (line + f.line_count) lines
          (ends_line starts (chunk_bytes original f)) fs r e k t lined at low high in
      let above =
        first_line-ge (index + 1) o (line + f.line_count) (length original) lines fs r e t at in
      let rest = drop o original in
      let here = map (λ (zs : List ℕ). zs ++ rest) (line_tails starts (chunk_bytes original f)) in
      let after = line_tails (ends_line starts (chunk_bytes original f)) rest in
      let place_of : k - line ≡ length here + (k - (line + f.line_count)) =
        places k line f.line_count (length here) (chunk_lines f starts rest fresh count)
          (omega arith) in
      let moved : get_elem? (line_tails starts (drop offset original)) (k - line)
          ≡ get_elem? after (k - (line + f.line_count)) =
        ap (λ (ts : List (List ℕ)). get_elem? ts (k - line)) (first_tails offset starts f place)
        ∙ (ap (get_elem? (here ++ after)) place_of
            ∙ get_elem?-append_right here after (k - (line + f.line_count))) in
      record {
        start = later.start;
        local = later.local;
        inside = later.inside;
        tail = moved ∙ later.tail;
      }
    where
      places : (m l c n : ℕ) → n ≡ c → l + c ≤ m → m - l ≡ n + (m - (l + c))
      places m l c n p q = omega arith
