-- ===== src/Fixed/Ranges.antt =====
-- The checks of `validate_physical_ranges`, src/fixed.rs, against the places of the ranges.
use qzt.Base.{ℕ, ◌+◌, ◌^◌, ◌≤◌, ◌<◌, ◌≡◌, refl, ◌↔◌, inl, List, [], ◌∷◌, arith, true, false}
use qzt.Base.{All, All-map, IsU64, ltb, not, ap, ◌∙◌, not_inv, ltb-false, false-ltb}
use qzt.Error.{
  ok, reject_if, reject_if_inv, >>=-eq-ok, physical_range_out_of_bounds, range_overlap,
  invalid_footer_trailer,
}
use qzt.Fixed.{
  PhysicalRange, key_le, sort_by_key, overlaps, is_inside_file, check_fixed, check_adjacent,
}
use qzt.Fixed.{validate_physical_ranges, header_range, trailer_range}
use qzt.Fixed.Sorting.{Disjoint, PairwiseDisjoint, IsSorted, All-sort_by_key, sort_by_key-IsSorted}
use qzt.Fixed.Sorting.{sort_by_key-PairwiseDisjoint}

-- Inside a file of `size` bytes, and apart from its header and its trailer.
pub record IsPlaced (size : ℕ) (r : PhysicalRange) : Type 0 where
  pub inside : r.offset + r.size ≤ size
  pub off_header : Disjoint r header_range
  pub off_trailer : Disjoint r (trailer_range size)

overlaps-false :
    (a b : PhysicalRange)
    → a.offset + a.size < 2 ^ 64
    → b.offset + b.size < 2 ^ 64
    → Disjoint a b
    → overlaps a b ≡ ok false
unfolding overlaps
overlaps-false a b ha hb d = ground arith

overlaps_inv :
    (a b : PhysicalRange)
    → overlaps a b ≡ ok false
    → (a.offset + a.size < 2 ^ 64) × (b.offset + b.size < 2 ^ 64) × Disjoint a b
unfolding overlaps
overlaps_inv a b h = ground arith

inside_inv :
    (size : ℕ) (r : PhysicalRange) → is_inside_file r size ≡ ok true → r.offset + r.size ≤ size
unfolding is_inside_file
inside_inv size r h = ground arith

inside_true :
    (size : ℕ) (r : PhysicalRange)
    → IsU64 size
    → r.offset + r.size ≤ size
    → is_inside_file r size ≡ ok true
unfolding is_inside_file
inside_true size r u h = ground arith

step_inv :
    (size : ℕ) (r : PhysicalRange) (rs : List PhysicalRange)
    → check_fixed size header_range (trailer_range size) (r ∷ rs) ≡ ok tt
    → IsPlaced size r × (check_fixed size header_range (trailer_range size) rs ≡ ok tt)
unfolding check_fixed
step_inv size r rs e =
    let (inside, c₁, e₁) = >>=-eq-ok (is_inside_file r size) _ e in
    let (u₂, c₂, e₂) = >>=-eq-ok (reject_if (not inside) physical_range_out_of_bounds) _ e₁ in
    let (on_header, c₃, e₃) = >>=-eq-ok (overlaps r header_range) _ e₂ in
    let (u₄, c₄, e₄) = >>=-eq-ok (reject_if on_header range_overlap) _ e₃ in
    let (on_trailer, c₅, e₅) = >>=-eq-ok (overlaps r (trailer_range size)) _ e₄ in
    let (u₆, c₆, e₆) = >>=-eq-ok (reject_if on_trailer range_overlap) _ e₅ in
    let yes_inside : inside ≡ true = not_inv inside (reject_if_inv _ _ c₂) in
    (
      record {
        inside = inside_inv size r (c₁ ∙ ap ok yes_inside);
        off_header = (overlaps_inv r _ (c₃ ∙ ap ok (reject_if_inv _ _ c₄))).2;
        off_trailer = (overlaps_inv r _ (c₅ ∙ ap ok (reject_if_inv _ _ c₆))).2;
      },
      e₆,
    )

step_ok :
    (size : ℕ) (r : PhysicalRange) (rs : List PhysicalRange)
    → 192 ≤ size
    → IsU64 size
    → IsPlaced size r
    → check_fixed size header_range (trailer_range size) rs ≡ ok tt
    → check_fixed size header_range (trailer_range size) (r ∷ rs) ≡ ok tt
unfolding check_fixed
step_ok size r rs h u p e = rw (
  inside_true size r u p.inside,
  overlaps-false r header_range (omega arith) (omega arith) p.off_header,
  overlaps-false r (trailer_range size) (omega arith) (omega arith) p.off_trailer,
  e,
)

check_fixed-IsPlaced :
    (size : ℕ) (rs : List PhysicalRange)
    → 192 ≤ size
    → IsU64 size
    → (check_fixed size header_range (trailer_range size) rs ≡ ok tt) ↔ All (IsPlaced size) rs
check_fixed-IsPlaced size [] h u = (λ e. tt, λ p. unfold check_fixed in refl)
check_fixed-IsPlaced size (r ∷ rs) h u =
    let ih = check_fixed-IsPlaced size rs h u in
    (
      (λ e. let (p, e') = step_inv size r rs e in (p, ih.0 e')),
      (λ p. step_ok size r rs h u p.0 (ih.1 p.1)),
    )

-- Neighbours in the order that are apart end before the next one starts.
neighbours : (a b : PhysicalRange) → key_le a b ≡ true → Disjoint a b → a.offset + a.size ≤ b.offset
unfolding key_le
neighbours a b h d = ground arith

key_le-offset : (a b : PhysicalRange) → key_le a b ≡ true → a.offset ≤ b.offset
unfolding key_le
key_le-offset a b h = ground arith

check_adjacent-PairwiseDisjoint :
    (rs : List PhysicalRange) → IsSorted rs → check_adjacent rs ≡ ok tt → PairwiseDisjoint rs
unfolding check_adjacent
check_adjacent-PairwiseDisjoint [] s e = tt
check_adjacent-PairwiseDisjoint (a ∷ []) s e = (tt, tt)
check_adjacent-PairwiseDisjoint (a ∷ (b ∷ rest)) s e =
    let (clash, c₁, e₁) = >>=-eq-ok (overlaps a b) _ e in
    let (u₂, c₂, e₂) = >>=-eq-ok (reject_if clash range_overlap) _ e₁ in
    let apart = (overlaps_inv a b (c₁ ∙ ap ok (reject_if_inv _ _ c₂))).2 in
    let before = neighbours a b s.0.0 apart in
    let later =
      All-map {Q = Disjoint a} rest (λ c h. inl (omega (arith, before, key_le-offset b c h)))
        s.1.0 in
    ((apart, later), check_adjacent-PairwiseDisjoint (b ∷ rest) s.1 e₂)

check_adjacent-ok :
    (rs : List PhysicalRange)
    → All (λ r. r.offset + r.size < 2 ^ 64) rs
    → PairwiseDisjoint rs
    → check_adjacent rs ≡ ok tt
unfolding check_adjacent
check_adjacent-ok [] b d = refl
check_adjacent-ok (a ∷ []) b d = refl
check_adjacent-ok (a ∷ (c ∷ rest)) b d =
    rw (overlaps-false a c b.0 b.1.0 d.0.0) (check_adjacent-ok (c ∷ rest) b.1 d.1)

-- For a u64 file size, `validate_physical_ranges` accepts a list of ranges exactly when the file has
-- room for the header and the trailer, every range lies inside the file and apart from both, and no
-- two of the ranges overlap, in whatever order they are given.
pub validate_physical_ranges_iff :
    (size : ℕ) (ranges : List PhysicalRange)
    → IsU64 size
    → (validate_physical_ranges size ranges ≡ ok tt)
      ↔ ((192 ≤ size) × All (IsPlaced size) ranges × PairwiseDisjoint ranges)
unfolding validate_physical_ranges
validate_physical_ranges_iff size ranges u = (forth, back)
  where
    sorted : List PhysicalRange
    sorted = sort_by_key ranges

    forth :
        validate_physical_ranges size ranges ≡ ok tt
        → (192 ≤ size) × All (IsPlaced size) ranges × PairwiseDisjoint ranges
    forth e =
        let (u₁, c₁, e₁) = >>=-eq-ok (reject_if (ltb size 192) invalid_footer_trailer) _ e in
        let (u₂, c₂, e₂) =
          >>=-eq-ok (check_fixed size header_range (trailer_range size) ranges) _ e₁ in
        let room : 192 ≤ size = ltb-false size 192 (reject_if_inv _ _ c₁) in
        let apart = check_adjacent-PairwiseDisjoint sorted (sort_by_key-IsSorted ranges) e₂ in
        (
          room,
          (check_fixed-IsPlaced size ranges room u).0 c₂,
          (sort_by_key-PairwiseDisjoint ranges).0 apart,
        )

    back :
        (192 ≤ size) × All (IsPlaced size) ranges × PairwiseDisjoint ranges
        → validate_physical_ranges size ranges ≡ ok tt
    back (room, placed, apart) =
        let small =
          All-map {Q = λ r. r.offset + r.size < 2 ^ 64} ranges (λ r p. omega (arith, p.inside, u))
            placed in
        rw (
          false-ltb size 192 room,
          (check_fixed-IsPlaced size ranges room u).1 placed,
          check_adjacent-ok sorted
              ((All-sort_by_key (λ r. r.offset + r.size < 2 ^ 64) ranges).1 small)
              ((sort_by_key-PairwiseDisjoint ranges).1 apart),
        )
