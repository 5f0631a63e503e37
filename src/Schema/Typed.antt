-- ===== src/Schema/Typed.antt =====
-- The CBOR values that the typed reads of src/schema.rs accept.
use qzt.Base.{ℕ, ◌≡◌, inl, inr, ap, List}
use qzt.Base.{Bool-cases, pos, negsuc, leb, u64_max}
use qzt.Base.{◌==◌, length}
use qzt.Error.{QztError, ok, ok-injective}
use qzt.Cbor.{CborValue, integer, bytes, text, array, map, bool, null, Entries}
use qzt.Schema.{as_map, as_text, as_u64, as_bstr}
use qzt.Schema.Words.{}

pub as_map_inv : (v : CborValue) (e : QztError) (es : Entries) → as_map v e ≡ ok es → v ≡ map es
unfolding as_map
as_map_inv (map x) e es h = ap map (ok-injective h)
as_map_inv (integer x) e es h = cc
as_map_inv (bytes x) e es h = cc
as_map_inv (text x) e es h = cc
as_map_inv (array x) e es h = cc
as_map_inv (bool x) e es h = cc
as_map_inv null e es h = cc

pub as_text_inv : (v : CborValue) (e : QztError) (xs : List ℕ) → as_text v e ≡ ok xs → v ≡ text xs
unfolding as_text
as_text_inv (text x) e xs h = ap text (ok-injective h)
as_text_inv (integer x) e xs h = cc
as_text_inv (bytes x) e xs h = cc
as_text_inv (array x) e xs h = cc
as_text_inv (map x) e xs h = cc
as_text_inv (bool x) e xs h = cc
as_text_inv null e xs h = cc

pub as_u64_inv :
    (v : CborValue) (e o : QztError) (n : ℕ) → as_u64 v e o ≡ ok n → v ≡ integer (pos n)
unfolding as_u64
as_u64_inv (integer (pos m)) e o n h = elim (Bool-cases (leb m u64_max)) [
  | inl small ↦ ap (λ k. integer (pos k)) (ok-injective (rw small at h))
  | inr large ↦ cc (rw large at h)
]
as_u64_inv (integer (negsuc m)) e o n h = cc
as_u64_inv (bytes x) e o n h = cc
as_u64_inv (text x) e o n h = cc
as_u64_inv (array x) e o n h = cc
as_u64_inv (map x) e o n h = cc
as_u64_inv (bool x) e o n h = cc
as_u64_inv null e o n h = cc

pub as_bstr_inv :
    (n : ℕ) (v : CborValue) (e : QztError) (xs : List ℕ) → as_bstr n v e ≡ ok xs → v ≡ bytes xs
unfolding as_bstr
as_bstr_inv n (bytes x) e xs h = elim (Bool-cases (length x == n)) [
  | inl same ↦ ap bytes (ok-injective (rw same at h))
  | inr other ↦ cc (rw other at h)
]
as_bstr_inv n (integer x) e xs h = cc
as_bstr_inv n (text x) e xs h = cc
as_bstr_inv n (array x) e xs h = cc
as_bstr_inv n (map x) e xs h = cc
as_bstr_inv n (bool x) e xs h = cc
as_bstr_inv n null e xs h = cc
