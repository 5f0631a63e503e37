-- ===== src/Reader/Totals.antt =====
-- The compressed chunks of a container lie apart in its file, so their sizes, which the cache of
-- src/reader.rs adds up, fit in it together.
use qzt.Base.{ℕ, ◌+◌, ◌≤◌, ◌<◌, ◌≡◌, refl, arith, List, [], ◌∷◌, true, inl, inr}
use qzt.Base.{Bool-cases, All, All-zip}
use qzt.Fixed.{PhysicalRange, key_le, insert_range, sort_by_key}
use qzt.Fixed.Sorting.{Disjoint, PairwiseDisjoint, IsSorted, All-sort_by_key, sort_by_key-IsSorted}
use qzt.Fixed.Sorting.{sort_by_key-PairwiseDisjoint}
use qzt.ChunkTable.{ChunkEntry}
use qzt.ChunkTable.Tiling.{Tiles}
use qzt.Fixed.Ranges.{IsPlaced}
use qzt.Skeleton.Open.{entry_ranges}
use qzt.Reader.RangeLoop.{total_compressed}

abbrev total_size : List PhysicalRange → ℕ
total_size [] = 0
total_size (r ∷ rs) = r.size + total_size rs

total_size-insert_range :
    (a : PhysicalRange) (rs : List PhysicalRange)
    → total_size (insert_range a rs) ≡ a.size + total_size rs
unfolding insert_range
total_size-insert_range a [] = refl
total_size-insert_range a (b ∷ bs) = elim (Bool-cases (key_le a b)) [
  | inl first ↦ rw first refl
  | inr later ↦ rw later (swapped b.size a.size (total_size bs) _ (total_size-insert_range a bs))
]
  where
    swapped : (x y z w : ℕ) → w ≡ y + z → x + w ≡ y + (x + z)
    swapped x y z w h = omega arith

total_size-sort_by_key : (rs : List PhysicalRange) → total_size (sort_by_key rs) ≡ total_size rs
unfolding sort_by_key
total_size-sort_by_key [] = refl
total_size-sort_by_key (a ∷ rs) =
    omega (arith, total_size-insert_range a (sort_by_key rs), total_size-sort_by_key rs)

-- A range that is not empty, inside a file of the size.
abbrev Inside : ℕ → PhysicalRange → Type 0
Inside size r = (0 < r.size) × (r.offset + r.size ≤ size)

after :
    (size : ℕ) (a b : PhysicalRange)
    → key_le a b ≡ true
    → Disjoint a b
    → Inside size b
    → a.offset + a.size ≤ b.offset
unfolding key_le
after size a b h (inl p) i = p
after size a b h (inr p) i = ground arith

sorted_fit :
    (size lo : ℕ) (rs : List PhysicalRange)
    → IsSorted rs
    → PairwiseDisjoint rs
    → All (Inside size) rs
    → All (λ (r : PhysicalRange). lo ≤ r.offset) rs
    → lo ≤ size
    → lo + total_size rs ≤ size
sorted_fit size lo [] sorted apart inside low h = omega arith
sorted_fit size lo (r ∷ rs) sorted apart inside low h =
    let next =
      All-zip {R = λ (b : PhysicalRange). Disjoint r b × (key_le r b ≡ true)} rs (λ b p q. (p, q))
        apart.0 sorted.0 in
    let behind =
      All-zip {R = λ (b : PhysicalRange). r.offset + r.size ≤ b.offset} rs
        (λ b p i. after size r b p.1 p.0 i) next inside.1 in
    let rest = sorted_fit size (r.offset + r.size) rs sorted.1 apart.1 inside.1 behind inside.0.1 in
    total lo r.offset r.size (total_size rs) size low.0 rest
  where
    total : (l o s t n : ℕ) → l ≤ o → o + s + t ≤ n → l + (s + t) ≤ n
    total l o s t n p q = omega arith

anywhere : (rs : List PhysicalRange) → All (λ (r : PhysicalRange). 0 ≤ r.offset) rs
anywhere [] = tt
anywhere (r ∷ rs) = (omega arith, anywhere rs)

apart_fit :
    (size : ℕ) (rs : List PhysicalRange)
    → PairwiseDisjoint rs
    → All (Inside size) rs
    → total_size rs ≤ size
apart_fit size rs apart inside = omega (
  arith,
  total_size-sort_by_key rs,
  sorted_fit size 0 (sort_by_key rs) (sort_by_key-IsSorted rs)
      ((sort_by_key-PairwiseDisjoint rs).1 apart) ((All-sort_by_key (Inside size) rs).1 inside)
      (anywhere (sort_by_key rs)) (omega arith),
)

total_entry_ranges : (es : List ChunkEntry) → total_size (entry_ranges es) ≡ total_compressed es
total_entry_ranges [] = refl
total_entry_ranges (e ∷ es) = omega (arith, total_entry_ranges es)

entry_ranges-Inside :
    (size index offset line original lines : ℕ) (es : List ChunkEntry)
    → Tiles index offset line es original lines
    → All (IsPlaced size) (entry_ranges es)
    → All (Inside size) (entry_ranges es)
entry_ranges-Inside size index offset line original lines [] t placed = tt
entry_ranges-Inside size index offset line original lines (e ∷ es) (_, _, _, some_bytes, _, _, _, t)
      placed =
    (
      (some_bytes, placed.0.inside),
      entry_ranges-Inside size (index + 1) (offset + e.uncompressed_size) (line + e.line_count)
          original lines es t placed.1,
    )

pub total_compressed-le :
    (size original lines : ℕ) (es : List ChunkEntry)
    → Tiles 0 0 0 es original lines
    → All (IsPlaced size) (entry_ranges es)
    → PairwiseDisjoint (entry_ranges es)
    → total_compressed es ≤ size
total_compressed-le size original lines es tiles placed apart = omega (
  arith,
  total_entry_ranges es,
  apart_fit size (entry_ranges es) apart
      (entry_ranges-Inside size 0 0 0 original lines es tiles placed),
)
