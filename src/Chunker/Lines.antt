-- ===== src/Chunker/Lines.antt =====
-- The line starts of `LineInfo::from_bytes`, and how many of them stand before an offset.
use qzt.Base.{ℕ, suc, ◌+◌, ◌-◌, ◌≤◌, ◌<◌, ◌≡◌, refl, List, [], ◌∷◌, arith}
use qzt.Base.{Option, none, some, Bool-cases, inl, inr, length, ltb}
use qzt.Base.{◌!=◌, ltb→lt, lt→ltb, ap}
use qzt.Base.{zero, Bool, true, false, take, ◌==◌}
use qzt.Base.SplitLines.{split_lines, line_tails, ends_line, length-split_lines}
use qzt.Chunker.{lower_bound, scan_lines, line_info, has_byte}

-- The values ascend strictly from `low` on, and stay below `high`.
abbrev pub Ascends : ℕ → ℕ → List ℕ → Type 0
Ascends low high [] = Unit
Ascends low high (v ∷ vs) = (low ≤ v) × (v < high) × Ascends (v + 1) high vs

Ascends-weaken :
    (low low' high : ℕ) (vs : List ℕ) → low' ≤ low → Ascends low high vs → Ascends low' high vs
Ascends-weaken low low' high [] h a = tt
Ascends-weaken low low' high (v ∷ vs) h (p, q, r) = (omega arith, q, r)

lower_bound-le_length : (vs : List ℕ) (x : ℕ) → lower_bound vs x ≤ length vs
unfolding lower_bound
lower_bound-le_length [] x = omega arith
lower_bound-le_length (v ∷ vs) x = ground (arith, lower_bound-le_length vs x)

pub lower_bound_mono : (vs : List ℕ) (x y : ℕ) → x ≤ y → lower_bound vs x ≤ lower_bound vs y
unfolding lower_bound
lower_bound_mono [] x y h = omega arith
lower_bound_mono (v ∷ vs) x y h = ground (arith, lower_bound_mono vs x y)

-- Between two offsets there are at most as many values as numbers.
pub lower_bound_gap :
    (low high : ℕ) (vs : List ℕ) (x y : ℕ)
    → Ascends low high vs
    → x ≤ y
    → lower_bound vs y + x ≤ lower_bound vs x + y
unfolding lower_bound
lower_bound_gap low high [] x y a h = omega arith
lower_bound_gap low high (v ∷ vs) x y (p, q, r) h =
    ground (arith, lower_bound_gap (v + 1) high vs x y r h, lower_bound_above (v + 1) high vs y r)
  where
    lower_bound_above :
        (low high : ℕ) (vs : List ℕ) (y : ℕ) → Ascends low high vs → lower_bound vs y ≤ y - low
    lower_bound_above low high [] y a = omega arith
    lower_bound_above low high (v ∷ vs) y (p, q, r) =
        ground (arith, lower_bound_above (v + 1) high vs y r)

pub lower_bound_all :
    (low high : ℕ) (vs : List ℕ) → Ascends low high vs → lower_bound vs high ≡ length vs
unfolding lower_bound
lower_bound_all low high [] a = refl
lower_bound_all low high (v ∷ vs) (p, q, r) = ground (arith, lower_bound_all (v + 1) high vs r)

pub lower_bound-zero : (vs : List ℕ) → lower_bound vs 0 ≡ 0
unfolding lower_bound
lower_bound-zero [] = refl
lower_bound-zero (v ∷ vs) = ground arith

scan_lines-Ascends :
    (index : ℕ) (previous : Option ℕ) (bytes : List ℕ)
    → Ascends (index + 1) (index + length bytes) (scan_lines index previous bytes).line_starts
unfolding scan_lines
scan_lines-Ascends index previous [] = tt
scan_lines-Ascends index previous (b ∷ bytes) =
    let n : index + 1 + length bytes ≡ index + suc (length bytes) = omega arith in
    let ih = rw n at (scan_lines-Ascends (index + 1) (some b) bytes) in
    let weak =
      Ascends-weaken (index + 1 + 1) (index + 1) (index + suc (length bytes)) _ (omega arith) ih in
    elim (Bool-cases (b != b'\n')) [
      | inl other ↦ rw other weak
      | inr newline ↦ elim (Bool-cases (ltb 0 (length bytes))) [
        | inl more ↦
            rw (newline, more) (omega arith, omega (arith, ltb→lt 0 (length bytes) more), ih)
        | inr last ↦ rw (newline, last) weak
      ]
    ]

-- The line starts ascend strictly, inside the input.
pub line_info-Ascends : (input : List ℕ) → Ascends 0 (length input) (line_info input).line_starts
unfolding line_info
line_info-Ascends [] = tt
line_info-Ascends (b ∷ rest) =
    let n : 0 + length (b ∷ rest) ≡ length (b ∷ rest) = omega arith in
    let starts = rw n at (scan_lines-Ascends 0 none (b ∷ rest)) in
    (omega arith, omega arith, starts)

lower_bound-low :
    (low high : ℕ) (vs : List ℕ) (x : ℕ) → Ascends low high vs → x ≤ low → lower_bound vs x ≡ 0
unfolding lower_bound
lower_bound-low low high [] x a h = refl
lower_bound-low low high (v ∷ vs) x (p, q, r) h = ground arith

-- The line starts of the scan before an offset are those of the text up to it.
scan_lines-tails :
    (index : ℕ) (previous : Option ℕ) (bytes : List ℕ) (n : ℕ)
    → lower_bound (scan_lines index previous bytes).line_starts (index + n)
      ≡ length (line_tails false (take n bytes))
unfolding scan_lines line_tails lower_bound
scan_lines-tails index previous bytes zero =
    lower_bound-low (index + 1) (index + length bytes) _ (index + 0)
      (scan_lines-Ascends index previous bytes) (omega arith)
scan_lines-tails index previous [] (suc n) = refl
scan_lines-tails index previous (b ∷ bytes) (suc zero) =
    lower_bound-low (index + 1) (index + suc (length bytes)) _ (index + 1)
      (scan_lines-Ascends index previous (b ∷ bytes)) (omega arith)
scan_lines-tails index previous (b ∷ []) (suc (suc n)) = elim (Bool-cases (b != b'\n')) [
  | inl goes ↦ rw goes refl
  | inr newline ↦ rw newline refl
]
scan_lines-tails index previous (b ∷ (c ∷ cs)) (suc (suc n)) =
    let at : index + 1 + suc n ≡ index + suc (suc n) = omega arith in
    let rest = rw at at (scan_lines-tails (index + 1) (some b) (c ∷ cs) (suc n)) in
    let more : ltb 0 (length (c ∷ cs)) ≡ true = lt→ltb 0 (length (c ∷ cs)) (omega arith) in
    let before : ltb (index + 1) (index + suc (suc n)) ≡ true =
      lt→ltb (index + 1) (index + suc (suc n)) (omega arith) in
    elim (Bool-cases (b != b'\n')) [
      | inl goes ↦ let differs = ne_eq b b'\n' goes in rw (goes, differs) rest
      | inr newline ↦
          let same = ne_eq_false b b'\n' newline in rw (newline, same, more, before) (ap suc rest)
    ]
  where
    ne_eq : (m n : ℕ) → (m != n) ≡ true → (m == n) ≡ false
    ne_eq m n h = ground arith

    ne_eq_false : (m n : ℕ) → (m != n) ≡ false → (m == n) ≡ true
    ne_eq_false m n h = ground arith

-- The line starts before an offset are as many as the lines of the text up to it.
pub lower_bound-split_lines :
    (input : List ℕ) (n : ℕ)
    → lower_bound (line_info input).line_starts n ≡ length (split_lines (take n input))
unfolding line_info line_tails lower_bound split_lines
lower_bound-split_lines [] zero = refl
lower_bound-split_lines [] (suc n) = refl
lower_bound-split_lines (b ∷ input) zero = refl
lower_bound-split_lines (b ∷ input) (suc n) =
    let at : 0 + suc n ≡ suc n = omega arith in
    let starts = rw at at (scan_lines-tails 0 none (b ∷ input) (suc n)) in
    let before : ltb 0 (suc n) ≡ true = lt→ltb 0 (suc n) (omega arith) in
    rw (before, length-split_lines (b ∷ take n input)) (ap suc starts)

-- The byte before an offset says whether a line starts there.
pub ends_line-take :
    (starts : Bool) (input : List ℕ) (n : ℕ)
    → n < length input
    → ends_line starts (take (suc n) input) ≡ has_byte input n b'\n'
unfolding ends_line has_byte
ends_line-take starts [] n h = absurd (omega arith)
ends_line-take starts (b ∷ input) zero h = refl
ends_line-take starts (b ∷ input) (suc n) h = ends_line-take (b == b'\n') input n (omega arith)
