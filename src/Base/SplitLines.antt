-- ===== src/Base/SplitLines.antt =====
-- The lines of a text and its first line, an account of them that does not depend on the repository's
-- code.
use Prim.Native.Nat.{ℕ}
use mathlib.Core.Path.{◌≡◌, refl, ap}
use mathlib.Core.Logic.{inl, inr}
use mathlib.Core.Bool.{Bool, true, false}
use mathlib.Core.List.{List, [], ◌∷◌, ◌++◌, map}
use qzt.Base.Tests.{◌==◌, if◌then◌else◌, Bool-cases}
use qzt.Base.Lists.{length, length-map}

-- The byte before the lines that follow.
abbrev pub push_byte : ℕ → List (List ℕ) → List (List ℕ)
push_byte byte [] = (byte ∷ []) ∷ []
push_byte byte (line ∷ lines) = (byte ∷ line) ∷ lines

-- The lines of a text, each with the line feed that ends it; the last one may have none.
unfoldable pub split_lines : List ℕ → List (List ℕ)
split_lines [] = []
split_lines (byte ∷ bytes) =
    let rest = split_lines bytes in
    if byte == b'\n' then (byte ∷ []) ∷ rest else push_byte byte rest

-- The first line of a text.
unfoldable pub line_of : List ℕ → List ℕ
line_of [] = []
line_of (byte ∷ bytes) =
    let rest = line_of bytes in if byte == b'\n' then byte ∷ [] else byte ∷ rest

unfoldable pub has_lf : List ℕ → Bool
has_lf [] = false
has_lf (byte ∷ bytes) = let rest = has_lf bytes in if byte == b'\n' then true else rest

-- The parts of a text from each start of a line on; the Boolean says whether the text starts one.
unfoldable pub line_tails : Bool → List ℕ → List (List ℕ)
line_tails starts [] = []
line_tails starts (byte ∷ bytes) =
    let rest = line_tails (byte == b'\n') bytes in if starts then (byte ∷ bytes) ∷ rest else rest

-- Whether what follows the text starts a line.
unfoldable pub ends_line : Bool → List ℕ → Bool
ends_line starts [] = starts
ends_line starts (byte ∷ bytes) = ends_line (byte == b'\n') bytes

pub split_lines-tails : (bytes : List ℕ) → split_lines bytes ≡ map line_of (line_tails true bytes)
unfolding split_lines line_tails line_of push_byte
split_lines-tails [] = refl
split_lines-tails (byte ∷ bytes) = elim (Bool-cases (byte == b'\n')) [
  | inl ends ↦ rw ends (ap (λ r. (byte ∷ []) ∷ r) (split_lines-tails bytes))
  | inr goes ↦ rw (goes, split_lines-tails bytes) (pushed bytes)
]
  where
    pushed :
        (rest : List ℕ)
        → push_byte byte (map line_of (line_tails true rest))
          ≡ (byte ∷ line_of rest) ∷ map line_of (line_tails false rest)
    pushed [] = refl
    pushed (c ∷ rest) = refl

pub line_tails-append :
    (starts : Bool) (xs ys : List ℕ)
    → line_tails starts (xs ++ ys)
      ≡ map (λ (zs : List ℕ). zs ++ ys) (line_tails starts xs)
        ++ line_tails (ends_line starts xs) ys
unfolding line_tails ends_line
line_tails-append starts [] ys = refl
line_tails-append true (x ∷ xs) ys =
    ap (λ r. (x ∷ (xs ++ ys)) ∷ r) (line_tails-append (x == b'\n') xs ys)
line_tails-append false (x ∷ xs) ys = line_tails-append (x == b'\n') xs ys

pub line_of-append :
    (xs ys : List ℕ) → line_of (xs ++ ys) ≡ (if has_lf xs then line_of xs else xs ++ line_of ys)
unfolding line_of has_lf
line_of-append [] ys = refl
line_of-append (x ∷ xs) ys = elim (Bool-cases (x == b'\n')) [
  | inl ends ↦ rw ends refl
  | inr goes ↦ rw (goes, line_of-append xs ys) (under (has_lf xs))
]
  where
    under :
        (b : Bool)
        → x ∷ (if b then line_of xs else xs ++ line_of ys)
          ≡ (if b then x ∷ line_of xs else x ∷ (xs ++ line_of ys))
    under true = refl
    under false = refl

pub line_of-without_lf : (xs : List ℕ) → has_lf xs ≡ false → line_of xs ≡ xs
unfolding line_of has_lf
line_of-without_lf [] h = refl
line_of-without_lf (x ∷ xs) h = elim (Bool-cases (x == b'\n')) [
  | inl ends ↦ cc (ends, h)
  | inr goes ↦ rw goes (ap (λ r. x ∷ r) (line_of-without_lf xs (rw goes at h)))
]

-- The lines are as many as their starts.
pub length-split_lines :
    (bytes : List ℕ) → length (split_lines bytes) ≡ length (line_tails true bytes)
length-split_lines bytes = rw (split_lines-tails bytes) (length-map line_of (line_tails true bytes))
