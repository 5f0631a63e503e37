-- ===== src/Chunker/Cuts.antt =====
-- Where `choose_chunk_end` of src/chunker.rs may cut the input.
use qzt.Base.{ℕ, zero, suc, ◌+◌, ◌-◌, ◌%◌, ◌^◌, ◌≤◌, ◌<◌, ◌≡◌, ap, sym, ◌⊎◌, inl, inr}
use qzt.Base.{List, arith, true, false, Option, none, some, Bool-cases}
use qzt.Base.{if◌then◌else◌, min, length, leb, leb→le, leb-false}
use qzt.Error.{ok, ok-injective}
use qzt.Chunker.{ChunkerOptions, has_byte, splits_crlf, is_utf8_boundary, boundary_loop}
use qzt.Chunker.{keep_boundary, last_line_boundary, find_split, previous_valid_split, first_end}
use qzt.Chunker.{choose_chunk_end}

-- A cut at `end` is at the end of the input, behind a newline, or before the first byte of a
-- character, and not between a carriage return and its newline.
abbrev pub IsCut : List ℕ → ℕ → Type 0
IsCut input end =
    (end ≡ length input)
    ⊎ (((has_byte input (end - 1) b'\n' ≡ true) ⊎ (is_utf8_boundary input end ≡ true))
        × (splits_crlf input end ≡ false))

boundary_loop_inv :
    (rounds : ℕ) (input : List ℕ) (cursor : ℕ) (b : Option ℕ) (c : ℕ)
    → boundary_loop rounds input cursor b ≡ some c
    → (b ≡ some c) ⊎ ((cursor < c) × (c ≤ cursor + rounds) × (has_byte input (c - 1) b'\n' ≡ true))
unfolding boundary_loop
boundary_loop_inv zero input cursor b c h = inl h
boundary_loop_inv (suc rounds) input cursor b c h = ground (
  arith,
  boundary_loop_inv rounds input (cursor + 1)
      (if has_byte input cursor b'\n' then some (cursor + 1) else b) c h,
)

keep_boundary_inv :
    (input : List ℕ) (start : ℕ) (b : Option ℕ) (c : ℕ)
    → keep_boundary input start b ≡ some c
    → (b ≡ some c) × (start < c) × (splits_crlf input c ≡ false)
unfolding keep_boundary
keep_boundary_inv input start none c h = cc
keep_boundary_inv input start (some d) c h = ground arith

last_line_boundary_inv :
    (input : List ℕ) (start end c : ℕ)
    → start ≤ end
    → last_line_boundary input start end ≡ some c
    → (start < c)
      × (c ≤ end)
      × (has_byte input (c - 1) b'\n' ≡ true)
      × (splits_crlf input c ≡ false)
unfolding last_line_boundary
last_line_boundary_inv input start end c le h =
    let (found, later, whole) =
      keep_boundary_inv input start (boundary_loop (end - start) input start none) c h in
    let at = boundary_loop_inv (end - start) input start none c found in ground (arith, at)

find_split_inv :
    (count : ℕ) (input : List ℕ) (start c : ℕ)
    → find_split count input start ≡ some c
    → (start < c)
      × (c ≤ start + count)
      × (is_utf8_boundary input c ≡ true)
      × (splits_crlf input c ≡ false)
unfolding find_split
find_split_inv zero input start c h = cc
find_split_inv (suc count) input start c h = ground (arith, find_split_inv count input start c)

previous_valid_split_inv :
    (input : List ℕ) (start max_end c : ℕ)
    → start ≤ max_end
    → previous_valid_split input start max_end ≡ some c
    → (start < c)
      × (c ≤ max_end)
      × (is_utf8_boundary input c ≡ true)
      × (splits_crlf input c ≡ false)
unfolding previous_valid_split
previous_valid_split_inv input start max_end c le h =
    let (later, inside, boundary, whole) = find_split_inv (max_end - start) input start c h in
    (later, omega arith, boundary, whole)

first_end_inv :
    (a b c : Option ℕ) (end : ℕ)
    → first_end a b c ≡ ok end
    → (a ≡ some end) ⊎ ((b ≡ some end) ⊎ (c ≡ some end))
unfolding first_end
first_end_inv (some x) b c end h = inl (ap some (ok-injective h))
first_end_inv none (some x) c end h = inr (inl (ap some (ok-injective h)))
first_end_inv none none (some x) end h = inr (inr (ap some (ok-injective h)))
first_end_inv none none none end h = cc

-- Inside an input whose offsets, the maximal chunk size added, are u64, a successful
-- `choose_chunk_end` ends behind the start, inside the input, at most the maximal size further, and
-- at a place where the input may be cut.
pub choose_chunk_end_lem :
    (input : List ℕ) (start : ℕ) (options : ChunkerOptions) (end : ℕ)
    → start < length input
    → length input + options.max_chunk_size < 2 ^ 64
    → options.target_chunk_size ≤ options.max_chunk_size
    → choose_chunk_end input start options ≡ ok end
    → (start < end)
      × (end ≤ length input)
      × (end - start ≤ options.max_chunk_size)
      × IsCut input end
unfolding choose_chunk_end
choose_chunk_end_lem input start options end before fits target e =
    elim (Bool-cases (leb (length input - start) options.target_chunk_size)) [
      | inl all ↦
          let same : length input ≡ end = ok-injective (rw all at e) in
          let few = leb→le (length input - start) options.target_chunk_size all in
          (omega arith, omega arith, omega arith, inl (sym same))
      | inr more ↦
          let many = leb-false (length input - start) options.target_chunk_size more in
          attempts many (
            first_end_inv (last_line_boundary input start target_end)
              (last_line_boundary input start max_end) (previous_valid_split input start max_end)
              end (rw more at e))
    ]
  where
    target_end : ℕ
    target_end = (start + options.target_chunk_size) % 2 ^ 64

    max_end : ℕ
    max_end = min ((start + options.max_chunk_size) % 2 ^ 64) (length input)

    attempts :
        options.target_chunk_size < length input - start
        → (last_line_boundary input start target_end ≡ some end)
          ⊎ ((last_line_boundary input start max_end ≡ some end)
              ⊎ (previous_valid_split input start max_end ≡ some end))
        → (start < end)
          × (end ≤ length input)
          × (end - start ≤ options.max_chunk_size)
          × IsCut input end
    attempts many (inl h) =
        let (later, inside, newline, whole) =
          last_line_boundary_inv input start target_end end (omega arith) h in
        (later, omega arith, omega arith, inr (inl newline, whole))
    attempts many (inr (inl h)) =
        let (later, inside, newline, whole) =
          last_line_boundary_inv input start max_end end (omega arith) h in
        (later, omega arith, omega arith, inr (inl newline, whole))
    attempts many (inr (inr h)) =
        let (later, inside, boundary, whole) =
          previous_valid_split_inv input start max_end end (omega arith) h in
        (later, omega arith, omega arith, inr (inr boundary, whole))
