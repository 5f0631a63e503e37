-- ===== src/Fixed/Sorting.antt =====
-- The sort of `validate_physical_ranges`, src/fixed.rs, and ranges that are apart.
use qzt.Base.{◌+◌, ◌≤◌, ◌≡◌, ◌⊎◌, ◌↔◌, inl, inr, List, [], ◌∷◌, arith, true, false}
use qzt.Base.{All, All-map, Bool-cases}
use qzt.Fixed.{PhysicalRange, key_le, insert_range, sort_by_key}

-- No byte lies in both ranges: one ends before the other starts.
abbrev pub Disjoint : PhysicalRange → PhysicalRange → Type 0
Disjoint a b = (a.offset + a.size ≤ b.offset) ⊎ (b.offset + b.size ≤ a.offset)

abbrev pub PairwiseDisjoint : List PhysicalRange → Type 0
PairwiseDisjoint [] = Unit
PairwiseDisjoint (a ∷ rs) = All (Disjoint a) rs × PairwiseDisjoint rs

abbrev pub IsSorted : List PhysicalRange → Type 0
IsSorted [] = Unit
IsSorted (a ∷ rs) = All (λ b. key_le a b ≡ true) rs × IsSorted rs

key_le_total : (a b : PhysicalRange) → key_le a b ≡ false → key_le b a ≡ true
unfolding key_le
key_le_total a b h = ground arith

key_le_trans : (a b c : PhysicalRange) → key_le a b ≡ true → key_le b c ≡ true → key_le a c ≡ true
unfolding key_le
key_le_trans a b c h k = ground arith

Disjoint-symm : (a b : PhysicalRange) → Disjoint a b → Disjoint b a
Disjoint-symm a b (inl h) = inr h
Disjoint-symm a b (inr h) = inl h

module _ {κ} (P : PhysicalRange → Type κ) where
  All-insert_range :
      (a : PhysicalRange) (rs : List PhysicalRange) → P a → All P rs → All P (insert_range a rs)
  unfolding insert_range
  All-insert_range a [] h k = (h, tt)
  All-insert_range a (b ∷ rs) h k = elim (Bool-cases (key_le a b)) [
    | inl e ↦ rw e (h, k)
    | inr e ↦ rw e (k.0, All-insert_range a rs h k.1)
  ]

  All-insert_range_inv :
      (a : PhysicalRange) (rs : List PhysicalRange) → All P (insert_range a rs) → P a × All P rs
  unfolding insert_range
  All-insert_range_inv a [] h = h
  All-insert_range_inv a (b ∷ rs) h = elim (Bool-cases (key_le a b)) [
    | inl e ↦ rw e at h
    | inr e ↦ let h' = rw e at h in let (p, q) = All-insert_range_inv a rs h'.1 in (p, (h'.0, q))
  ]

  -- Sorting keeps what holds of every range.
  pub All-sort_by_key : (rs : List PhysicalRange) → All P (sort_by_key rs) ↔ All P rs
  unfolding sort_by_key
  All-sort_by_key [] = (λ h. h, λ h. h)
  All-sort_by_key (a ∷ rs) = (
    (λ h. let (p, q) = All-insert_range_inv a (sort_by_key rs) h in (p, (All-sort_by_key rs).0 q)),
    (λ h. All-insert_range a (sort_by_key rs) h.0 ((All-sort_by_key rs).1 h.1)),
  )

insert_range-IsSorted :
    (a : PhysicalRange) (rs : List PhysicalRange) → IsSorted rs → IsSorted (insert_range a rs)
unfolding insert_range
insert_range-IsSorted a [] s = (tt, tt)
insert_range-IsSorted a (b ∷ rs) s = elim (Bool-cases (key_le a b)) [
  | inl e ↦ rw e ((e, All-map rs (λ c h. key_le_trans a b c e h) s.0), s)
  | inr e ↦ rw e (
    All-insert_range (λ c. key_le b c ≡ true) a rs (key_le_total a b e) s.0,
    insert_range-IsSorted a rs s.1,
  )
]

pub sort_by_key-IsSorted : (rs : List PhysicalRange) → IsSorted (sort_by_key rs)
unfolding sort_by_key
sort_by_key-IsSorted [] = tt
sort_by_key-IsSorted (a ∷ rs) = insert_range-IsSorted a (sort_by_key rs) (sort_by_key-IsSorted rs)

insert_range-PairwiseDisjoint :
    (a : PhysicalRange) (rs : List PhysicalRange)
    → All (Disjoint a) rs × PairwiseDisjoint rs
    → PairwiseDisjoint (insert_range a rs)
unfolding insert_range
insert_range-PairwiseDisjoint a [] h = h
insert_range-PairwiseDisjoint a (b ∷ rs) h = elim (Bool-cases (key_le a b)) [
  | inl e ↦ rw e h
  | inr e ↦ rw e (
    All-insert_range (Disjoint b) a rs (Disjoint-symm a b h.0.0) h.1.0,
    insert_range-PairwiseDisjoint a rs (h.0.1, h.1.1),
  )
]

insert_range-PairwiseDisjoint_inv :
    (a : PhysicalRange) (rs : List PhysicalRange)
    → PairwiseDisjoint (insert_range a rs)
    → All (Disjoint a) rs × PairwiseDisjoint rs
unfolding insert_range
insert_range-PairwiseDisjoint_inv a [] h = h
insert_range-PairwiseDisjoint_inv a (b ∷ rs) h = elim (Bool-cases (key_le a b)) [
  | inl e ↦ rw e at h
  | inr e ↦
      let h' = rw e at h in
      let (p, q) = All-insert_range_inv (Disjoint b) a rs h'.0 in
      let (r, s) = insert_range-PairwiseDisjoint_inv a rs h'.1 in ((Disjoint-symm b a p, r), (q, s))
]

-- Disjointness does not depend on the order of the ranges.
pub sort_by_key-PairwiseDisjoint :
    (rs : List PhysicalRange) → PairwiseDisjoint (sort_by_key rs) ↔ PairwiseDisjoint rs
unfolding sort_by_key
sort_by_key-PairwiseDisjoint [] = (λ h. h, λ h. h)
sort_by_key-PairwiseDisjoint (a ∷ rs) = (
  (λ h.
      let (p, q) = insert_range-PairwiseDisjoint_inv a (sort_by_key rs) h in
      ((All-sort_by_key (Disjoint a) rs).0 p, (sort_by_key-PairwiseDisjoint rs).0 q)),
  (λ h.
      insert_range-PairwiseDisjoint a (sort_by_key rs)
        ((All-sort_by_key (Disjoint a) rs).1 h.0, (sort_by_key-PairwiseDisjoint rs).1 h.1)),
)
