-- ===== src/Reader/Lines/Starts.antt =====
-- The line starts of a chunk, `local_line_starts` of src/reader.rs, against the lines of its text.
use Prim.Native.Nat.{bit_and}
use mathlib.Core.Path.{subst}
use qzt.Base.{ℕ, zero, suc, ◌+◌, ◌≤◌, ◌<◌, ◌≡◌, refl, ap, sym, ◌∙◌, arith, List, [], ◌∷◌, ◌++◌, map}
use qzt.Base.{Bool, true, false, ◌==◌, ◌&&◌, Bool-cases, inl, inr, ltb, lt→ltb}
use qzt.Base.{length, drop, drop-drop, get_elem?, some, All}
use qzt.ChunkTable.{starts_with_line_continuation}
use qzt.DenseLineIndex.{scan_line_starts, line_start_offsets}
use qzt.Reader.Lines.{lf, local_line_starts}
use qzt.Base.{length-map}
use qzt.Base.SplitLines.{line_tails}

module _ {ℓ} {A : Type ℓ} where
  pub get_elem?-below : (xs : List A) (i : ℕ) → i < length xs → (x : A) × (get_elem? xs i ≡ some x)
  get_elem?-below [] i h = absurd (omega arith)
  get_elem?-below (x ∷ xs) zero h = (x, refl)
  get_elem?-below (x ∷ xs) (suc i) h = get_elem?-below xs i (omega arith)

  pub get_elem?-All {κ} :
      (P : A → Type κ) (xs : List A) (i : ℕ) (x : A) → All P xs → get_elem? xs i ≡ some x → P x
  get_elem?-All P [] i x all h = cc
  get_elem?-All P (y ∷ xs) zero x all h = subst P (first h) all.0
    where
      first : some y ≡ some x → y ≡ x
      first k = cc
  get_elem?-All P (y ∷ xs) (suc i) x all h = get_elem?-All P xs i x all.1 h

  pub get_elem?-append_left :
      (xs ys : List A) (i : ℕ) (x : A) → get_elem? xs i ≡ some x → get_elem? (xs ++ ys) i ≡ some x
  get_elem?-append_left [] ys i x h = cc
  get_elem?-append_left (z ∷ xs) ys zero x h = h
  get_elem?-append_left (z ∷ xs) ys (suc i) x h = get_elem?-append_left xs ys i x h

  pub get_elem?-append_right :
      (xs ys : List A) (i : ℕ) → get_elem? (xs ++ ys) (length xs + i) ≡ get_elem? ys i
  get_elem?-append_right [] ys i = let e : 0 + i ≡ i = omega arith in rw e refl
  get_elem?-append_right (z ∷ xs) ys i =
      let e : suc (length xs) + i ≡ suc (length xs + i) = omega arith in
      rw e (get_elem?-append_right xs ys i)

module _ {ℓ κ} {A : Type ℓ} {B : Type κ} (f : A → B) where
  pub get_elem?-map :
      (xs : List A) (i : ℕ) (x : A) → get_elem? xs i ≡ some x → get_elem? (map f xs) i ≡ some (f x)
  get_elem?-map [] i x h = cc
  get_elem?-map (y ∷ xs) zero x h = ap (λ z. some (f z)) (first h)
    where
      first : some y ≡ some x → y ≡ x
      first k = cc
  get_elem?-map (y ∷ xs) (suc i) x h = get_elem?-map xs i x h

-- Where a chunk starts a line.
abbrev pub is_fresh : ℕ → Bool
is_fresh flags = bit_and flags starts_with_line_continuation == 0

module _ (whole : List ℕ) where
  next_tail : (i x : ℕ) (xs : List ℕ) → drop i whole ≡ x ∷ xs → drop (i + 1) whole ≡ xs
  next_tail i x xs at = sym (drop-drop i 1 whole) ∙ ap (λ r. drop 1 r) at

  scan_tails :
      (i : ℕ) (xs : List ℕ)
      → drop i whole ≡ xs
      → map (λ s. drop s whole) (scan_line_starts i xs) ≡ line_tails false xs
  unfolding scan_line_starts line_tails
  scan_tails i [] at = refl
  scan_tails i (x ∷ []) at = elim (Bool-cases (x == lf)) [
    | inl ends ↦ rw ends refl
    | inr goes ↦ rw goes refl
  ]
  scan_tails i (x ∷ (y ∷ ys)) at =
      let tail = next_tail i x (y ∷ ys) at in
      let rest = scan_tails (i + 1) (y ∷ ys) tail in
      let more : ltb 0 (length (y ∷ ys)) ≡ true = lt→ltb 0 (length (y ∷ ys)) (omega arith) in
      elim (Bool-cases (x == lf)) [
        | inl ends ↦ rw (ends, more, tail) (ap (λ r. (y ∷ ys) ∷ r) rest)
        | inr goes ↦ rw goes rest
      ]

  starts_inside :
      (i : ℕ) (xs : List ℕ)
      → i + length xs ≡ length whole
      → All (λ s. s ≤ length whole) (scan_line_starts i xs)
  unfolding scan_line_starts
  starts_inside i [] h = tt
  starts_inside i (x ∷ xs) h =
      let rest = starts_inside (i + 1) xs (omega arith) in
      elim (Bool-cases ((x == lf) && ltb 0 (length xs))) [
        | inl ends ↦ rw ends (omega arith, rest)
        | inr goes ↦ rw goes rest
      ]

starts_tails :
    (whole : List ℕ) (flags : ℕ)
    → map (λ s. drop s whole) (local_line_starts whole flags) ≡ line_tails (is_fresh flags) whole
unfolding line_start_offsets line_tails
starts_tails [] flags = elim (Bool-cases (is_fresh flags)) [
  | inl starts ↦ rw starts (scan_tails [] 0 [] refl)
  | inr goes ↦ rw goes (scan_tails [] 0 [] refl)
]
starts_tails (x ∷ xs) flags =
    let more : ltb 0 (length (x ∷ xs)) ≡ true = lt→ltb 0 (length (x ∷ xs)) (omega arith) in
    let rest = scan_tails (x ∷ xs) 0 (x ∷ xs) refl in
    elim (Bool-cases (is_fresh flags)) [
      | inl starts ↦ rw (starts, more) (ap (λ r. (x ∷ xs) ∷ r) rest)
      | inr goes ↦ rw goes rest
    ]

module _ (whole : List ℕ) where
  local_starts_inside : (flags : ℕ) → All (λ s. s ≤ length whole) (local_line_starts whole flags)
  unfolding line_start_offsets
  local_starts_inside flags =
      let rest = starts_inside whole 0 whole (omega arith) in
      elim (Bool-cases (is_fresh flags && ltb 0 (length whole))) [
        | inl starts ↦ rw starts (omega arith, rest)
        | inr goes ↦ rw goes rest
      ]

  -- The starts are as many as the lines that start in the chunk.
  pub length-local_line_starts :
      (flags : ℕ)
      → length (local_line_starts whole flags) ≡ length (line_tails (is_fresh flags) whole)
  length-local_line_starts flags =
      sym (length-map (λ s. drop s whole) (local_line_starts whole flags))
      ∙ ap length (starts_tails whole flags)

  -- The line at a number among them starts there.
  pub local_start_lem :
      (flags j : ℕ)
      → j < length (line_tails (is_fresh flags) whole)
      → (s : ℕ) × (get_elem? (local_line_starts whole flags) j ≡ some s)
        × (s ≤ length whole)
        × (get_elem? (line_tails (is_fresh flags) whole) j ≡ some (drop s whole))
  local_start_lem flags j h =
      let (s, at) =
        get_elem?-below (local_line_starts whole flags) j
          (omega (arith, length-local_line_starts flags)) in
      (
        s,
        at,
        get_elem?-All (λ n. n ≤ length whole) (local_line_starts whole flags) j s
            (local_starts_inside flags) at,
        rw (← starts_tails whole flags)
            (get_elem?-map (λ n. drop n whole) (local_line_starts whole flags) j s at),
      )
