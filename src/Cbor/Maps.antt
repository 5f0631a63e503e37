-- ===== src/Cbor/Maps.antt =====
-- The entries of a map whose encoded keys ascend, src/cbor.rs, under the sort of the encoder.
use Prim.Native.Nat.{Ordering}
use qzt.Base.{ℕ, ◌≡◌, refl, ◌∙◌, sym, List, [], ◌∷◌, ◌++◌, append_assoc, append-nil, arith}
use qzt.Base.{false, Option, none, some, bytes_eq, inl, inr, Bool-cases}
use qzt.Base.{bytes_eq→eq}
use qzt.Error.{ok}
use qzt.Cbor.{Pair, compare_bytes, insert_pair, sort_pairs, has_duplicate, extend_pairs}
use qzt.Cbor.Parser.{check_key}

-- Every key is above the one before it, the first one above `previous`.
abbrev pub Ascends : Option (List ℕ) → List Pair → Type 0
Ascends previous [] = Unit
Ascends none (a ∷ as_) = Ascends (some a.0) as_
Ascends (some key) (a ∷ as_) = (compare_bytes key a.0 ≡ Ordering.lt) × Ascends (some a.0) as_

-- The entries one after the other.
abbrev pub flatten : List Pair → List ℕ
flatten [] = []
flatten (a ∷ as_) = a.0 ++ (a.1 ++ flatten as_)

pub Ascends-forget :
    (previous : Option (List ℕ)) (pairs : List Pair) → Ascends previous pairs → Ascends none pairs
Ascends-forget previous [] h = tt
Ascends-forget none (a ∷ as_) h = h
Ascends-forget (some key) (a ∷ as_) h = h.1

compare_bytes_refl : (xs : List ℕ) → compare_bytes xs xs ≡ Ordering.eq
unfolding compare_bytes
compare_bytes_refl [] = refl
compare_bytes_refl (x ∷ xs) = ground (arith, compare_bytes_refl xs)

different : (xs ys : List ℕ) → compare_bytes xs ys ≡ Ordering.lt → bytes_eq xs ys ≡ false
different xs ys h = elim (Bool-cases (bytes_eq xs ys)) [
  | inr e ↦ e
  | inl e ↦ absurd (apart (sym (compare_bytes_refl ys) ∙ rw (bytes_eq→eq xs ys e) at h))
]
  where
    apart : Ordering.eq ≡ Ordering.lt → ⊥
    apart k = cc

pub sort_pairs_same : (pairs : List Pair) → Ascends none pairs → sort_pairs pairs ≡ pairs
unfolding sort_pairs insert_pair
sort_pairs_same [] h = refl
sort_pairs_same (a ∷ []) h = refl
sort_pairs_same (a ∷ (b ∷ rest)) h = rw (sort_pairs_same (b ∷ rest) h.1, insert_pair, h.0) refl

pub has_duplicate-false : (pairs : List Pair) → Ascends none pairs → has_duplicate pairs ≡ false
unfolding has_duplicate
has_duplicate-false [] h = refl
has_duplicate-false (a ∷ []) h = refl
has_duplicate-false (a ∷ (b ∷ rest)) h =
    rw (different a.0 b.0 h.0, has_duplicate-false (b ∷ rest) h.1) refl

pub extend_pairs-flatten :
    (pairs : List Pair) (out : List ℕ) → extend_pairs pairs out ≡ out ++ flatten pairs
unfolding extend_pairs
extend_pairs-flatten [] out = sym (append-nil out)
extend_pairs-flatten (a ∷ as_) out =
    rw
      (
        extend_pairs-flatten as_ ((out ++ a.0) ++ a.1),
        append_assoc (out ++ a.0) a.1 (flatten as_),
        append_assoc out a.0 (a.1 ++ flatten as_),
      )
      refl

pub check_key-Ascends :
    (previous : Option (List ℕ)) (key value : List ℕ) (pairs : List Pair) {u : Unit {0}}
    → check_key previous key ≡ ok u
    → Ascends (some key) pairs
    → Ascends previous ((key, value) ∷ pairs)
unfolding check_key
check_key-Ascends none key value pairs c h = h
check_key-Ascends (some before) key value pairs c h = (ascending, h)
  where
    ascending : compare_bytes before key ≡ Ordering.lt
    ascending = ground arith
