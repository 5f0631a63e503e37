-- ===== src/Reader/Slices.antt =====
-- Slices of slices, for the ranges that src/reader.rs copies out of chunks.
use qzt.Base.{ℕ, zero, suc, ◌+◌, ◌-◌, ◌≤◌, ◌≡◌, refl, ap, arith, List, [], ◌∷◌, ◌++◌}
use qzt.Base.{take, drop, slice, drop-drop}

module _ {ℓ} {A : Type ℓ} where
  take-take : (m n : ℕ) (xs : List A) → m ≤ n → take m (take n xs) ≡ take m xs
  take-take zero n xs h = refl
  take-take (suc m) zero xs h = absurd (omega arith)
  take-take (suc m) (suc n) [] h = refl
  take-take (suc m) (suc n) (x ∷ xs) h = ap (λ r. x ∷ r) (take-take m n xs (omega arith))

  drop-take : (i n : ℕ) (xs : List A) → i ≤ n → drop i (take n xs) ≡ take (n - i) (drop i xs)
  drop-take zero n xs h = let e : n - 0 ≡ n = omega arith in rw e refl
  drop-take (suc i) zero xs h = absurd (omega arith)
  drop-take (suc i) (suc n) [] h = nothing (suc n - suc i)
    where
      nothing : (k : ℕ) → ◌≡◌ {A = List A} [] (take k [])
      nothing zero = refl
      nothing (suc k) = refl
  drop-take (suc i) (suc n) (x ∷ xs) h =
      let e : suc n - suc i ≡ n - i = omega arith in rw e (drop-take i n xs (omega arith))

  take_add : (m n : ℕ) (xs : List A) → take m xs ++ take n (drop m xs) ≡ take (m + n) xs
  take_add zero n xs = let e : 0 + n ≡ n = omega arith in rw e refl
  take_add (suc m) zero [] = let e : suc m + 0 ≡ suc m = omega arith in rw e refl
  take_add (suc m) (suc n) [] = let e : suc m + suc n ≡ suc (m + suc n) = omega arith in rw e refl
  take_add (suc m) n (x ∷ xs) =
      let e : suc m + n ≡ suc (m + n) = omega arith in rw e (ap (λ r. x ∷ r) (take_add m n xs))

  pub slice_join :
      (a b c : ℕ) (xs : List A) → a ≤ b → b ≤ c → slice a b xs ++ slice b c xs ≡ slice a c xs
  slice_join a b c xs h k =
      let back : a + (b - a) ≡ b = omega arith in
      let whole : b - a + (c - b) ≡ c - a = omega arith in
      let rest : drop (b - a) (drop a xs) ≡ drop b xs = rw back at (drop-drop a (b - a) xs) in
      rw (← whole, ← rest) (take_add (b - a) (c - b) (drop a xs))

  pub slice-slice :
      (i j a b : ℕ) (xs : List A)
      → i ≤ j
      → a + j ≤ b
      → slice i j (slice a b xs) ≡ slice (a + i) (a + j) xs
  slice-slice i j a b xs h k =
      let shorter : i ≤ b - a = omega arith in
      let fits : j - i ≤ b - a - i = omega arith in
      let width : a + j - (a + i) ≡ j - i = omega arith in
      rw
        (
          drop-take i (b - a) (drop a xs) shorter,
          take-take (j - i) (b - a - i) (drop i (drop a xs)) fits,
          width,
          drop-drop a i xs,
        )
        refl

  -- A slice that ends before it starts.
  pub slice_empty : (a b : ℕ) (xs : List A) → b ≤ a → slice a b xs ≡ []
  slice_empty a b xs h = let none_left : b - a ≡ 0 = omega arith in rw none_left refl
