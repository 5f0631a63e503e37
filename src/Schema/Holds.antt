-- ===== src/Schema/Holds.antt =====
-- The entries of a CBOR map that the typed reads of src/schema.rs find, and the values they read.
use mathlib.Core.Path.{subst}
use native.Mathlib.Omega.{arith}
use qzt.Base.{ℕ, ◌≡◌, ◌⊎◌, inl, inr, refl, sym, ◌∙◌, List, [], ◌∷◌, Option, none, some, Bool}
use qzt.Base.{false, true, Bool-cases, not, not_inv, bytes_eq, bytes_eq→eq, pos}
use qzt.Base.{◌==◌, ◌&&◌, ==_iff}
use qzt.Error.{QztError, ok, reject_if, reject_if_inv, >>=-eq-ok, ok-injective}
use qzt.Cbor.{
  CborValue, integer, bytes, text, array, map, bool, null, Entries, no_entries, one_entry,
}
use qzt.Cbor.{no_values, one_value}
use qzt.Cbor.Closed.{In, HasKey, AllKeys, is_text_iff, has_key_iff, contains_iff}
use qzt.Cbor.Schema.{has_key, is_text, contains}
use qzt.Schema.{Checksum, BlockRef, field, required_map}
use qzt.Schema.{required_text, required_u64, required_u64_with_overflow, required_bstr}
use qzt.Schema.{required_checksum, optional_checksum, required_block_ref, from_raw_bytes}
use qzt.Schema.{expect_text_field, expect_version_field, is_version, version_value}
use qzt.Schema.{reject_unknown_keys, check_allowed}
use qzt.Schema.Typed.{as_map_inv, as_text_inv, as_u64_inv, as_bstr_inv}
use qzt.Schema.Words.{
  word_algorithm, word_value, word_blake3, word_offset, word_size, word_checksum,
}
use qzt.Schema.Words.{word_format_version}

-- The map has an entry with the key, a text, and the value.
abbrev pub Holds : Entries → List ℕ → CborValue → Type 0
Holds no_entries key v = ⊥
Holds (one_entry k w es) key v = ((k ≡ text key) × (w ≡ v)) ⊎ Holds es key v

-- A text among the allowed ones.
abbrev pub IsWord : List (List ℕ) → CborValue → Type 0
IsWord allowed k = (key : List ℕ) × (k ≡ text key) × In key allowed

-- The value is that of a checksum: a map of its algorithm and its bytes.
pub record IsChecksumOf (c : Checksum) (v : CborValue) : Type 0 where
  pub entries : Entries
  pub is_map : v ≡ map entries
  pub its_algorithm : Holds entries word_algorithm (text c.algorithm)
  pub its_value : Holds entries word_value (bytes c.value)

pub field-Holds :
    (es : Entries) (key : List ℕ) (e : QztError) (v : CborValue)
    → field es key e ≡ ok v
    → Holds es key v
unfolding field
field-Holds no_entries key e v h = cc
field-Holds (one_entry k w es) key e v h = elim (Bool-cases (is_text k key)) [
  | inl here ↦ inl ((is_text_iff k key).0 here, ok-injective (rw here at h))
  | inr later ↦ inr (field-Holds es key e v (rw later at h))
]

module _ (es : Entries) (key : List ℕ) (e : QztError) where
  required_map-Holds :
      (inner : Entries) → required_map es key e ≡ ok inner → Holds es key (map inner)
  unfolding required_map
  required_map-Holds inner h =
      let (v, c, h₁) = >>=-eq-ok (field es key e) _ h in
      rw (← as_map_inv v e inner h₁) (field-Holds es key e v c)

  required_text-Holds : (xs : List ℕ) → required_text es key e ≡ ok xs → Holds es key (text xs)
  unfolding required_text
  required_text-Holds xs h =
      let (v, c, h₁) = >>=-eq-ok (field es key e) _ h in
      rw (← as_text_inv v e xs h₁) (field-Holds es key e v c)

  pub required_u64-Holds : (n : ℕ) → required_u64 es key e ≡ ok n → Holds es key (integer (pos n))
  unfolding required_u64 required_u64_with_overflow
  required_u64-Holds n h =
      let (v, c, h₁) = >>=-eq-ok (field es key e) _ h in
      rw (← as_u64_inv v e e n h₁) (field-Holds es key e v c)

  pub required_bstr-Holds :
      (n : ℕ) (xs : List ℕ) → required_bstr n es key e ≡ ok xs → Holds es key (bytes xs)
  unfolding required_bstr
  required_bstr-Holds n xs h =
      let (v, c, h₁) = >>=-eq-ok (field es key e) _ h in
      rw (← as_bstr_inv n v e xs h₁) (field-Holds es key e v c)

  pub expect_text_field-Holds :
      (expected : List ℕ) {u : Unit {0}}
      → expect_text_field es key expected e ≡ ok u
      → Holds es key (text expected)
  unfolding expect_text_field
  expect_text_field-Holds expected h =
      let (xs, c, h₁) = >>=-eq-ok (required_text es key e) _ h in
      let same = bytes_eq→eq xs expected (not_inv _ (reject_if_inv _ e h₁)) in
      rw (← same) (required_text-Holds xs c)

check_allowed-IsWord :
    (k : CborValue) (allowed : List (List ℕ)) (e : QztError) {u : Unit {0}}
    → check_allowed k allowed e ≡ ok u
    → IsWord allowed k
unfolding check_allowed
check_allowed-IsWord (text key) allowed e h =
    (key, refl, (contains_iff allowed key).0 (not_inv (contains allowed key) (reject_if_inv _ e h)))
check_allowed-IsWord (integer x) allowed e h = cc
check_allowed-IsWord (bytes x) allowed e h = cc
check_allowed-IsWord (array x) allowed e h = cc
check_allowed-IsWord (map x) allowed e h = cc
check_allowed-IsWord (bool x) allowed e h = cc
check_allowed-IsWord null allowed e h = cc

pub reject_unknown_keys-IsWord :
    (es : Entries) (allowed : List (List ℕ)) (e : QztError) {u : Unit {0}}
    → reject_unknown_keys es allowed e ≡ ok u
    → AllKeys (IsWord allowed) es
unfolding reject_unknown_keys
reject_unknown_keys-IsWord no_entries allowed e h = tt
reject_unknown_keys-IsWord (one_entry k v es) allowed e h =
    let (_, c, h₁) = >>=-eq-ok (check_allowed k allowed e) _ h in
    (check_allowed-IsWord k allowed e c, reject_unknown_keys-IsWord es allowed e h₁)

-- `[0, 1]`, the version of the format.
is_version_inv : (v : CborValue) → is_version v ≡ true → v ≡ version_value
unfolding is_version version_value
is_version_inv (array (one_value (integer (pos m)) (one_value (integer (pos n)) no_values))) h =
    let (p, q) = both (m == 0) (n == 1) h in rw ((==_iff m 0).0 p, (==_iff n 1).0 q) refl
  where
    both : (a b : Bool) → (a && b) ≡ true → (a ≡ true) × (b ≡ true)
    both a b k = ground arith
is_version_inv _ h = cc

pub expect_version_field-Holds :
    (es : Entries) (e : QztError) {u : Unit {0}}
    → expect_version_field es e ≡ ok u
    → Holds es word_format_version version_value
unfolding expect_version_field
expect_version_field-Holds es e h =
    let (v, c, h₁) = >>=-eq-ok (field es word_format_version e) _ h in
    rw (← is_version_inv v (not_inv (is_version v) (reject_if_inv _ e h₁)))
      (field-Holds es word_format_version e v c)

-- The entry of the key has the value of the checksum.
pub record HoldsChecksum (es : Entries) (key : List ℕ) (c : Checksum) : Type 0 where
  pub value : CborValue
  pub entry : Holds es key value
  pub read : IsChecksumOf c value

pub required_checksum-HoldsChecksum :
    (es : Entries) (key : List ℕ) (e : QztError) (c : Checksum)
    → required_checksum es key e ≡ ok c
    → HoldsChecksum es key c
unfolding required_checksum from_raw_bytes
required_checksum-HoldsChecksum es key e c h =
    let (inner, c₁, h₁) = >>=-eq-ok (required_map es key e) _ h in
    let (_, c₂, h₂) =
      >>=-eq-ok (reject_unknown_keys inner (word_algorithm ∷ word_value ∷ []) e) _ h₁ in
    let (algorithm, c₃, h₃) = >>=-eq-ok (required_text inner word_algorithm e) _ h₂ in
    let (_, c₄, h₄) = >>=-eq-ok (reject_if (not (bytes_eq algorithm word_blake3)) e) _ h₃ in
    let (value, c₅, h₅) = >>=-eq-ok (required_bstr 32 inner word_value e) _ h₄ in
    let named : algorithm ≡ word_blake3 =
      bytes_eq→eq algorithm word_blake3
        (not_inv (bytes_eq algorithm word_blake3) (reject_if_inv _ e c₄)) in
    let algorithm_entry =
      subst (λ (xs : List ℕ). Holds inner word_algorithm (text xs)) named
        (required_text-Holds inner word_algorithm e algorithm c₃) in
    rw (← ok-injective h₅) (record {
      value = map inner;
      entry = required_map-Holds es key e inner c₁;
      read = record {
        entries = inner;
        is_map = refl;
        its_algorithm = algorithm_entry;
        its_value = required_bstr-Holds inner word_value e 32 value c₅;
      };
    })

-- A checksum that is there has its entry, and one that is not has no entry.
abbrev pub HoldsOptional : Entries → List ℕ → Option Checksum → Type 0
HoldsOptional es key none = HasKey es key → ⊥
HoldsOptional es key (some c) = HoldsChecksum es key c

pub optional_checksum-HoldsOptional :
    (es : Entries) (key : List ℕ) (e : QztError) (c : Option Checksum)
    → optional_checksum es key e ≡ ok c
    → HoldsOptional es key c
unfolding optional_checksum
optional_checksum-HoldsOptional es key e c h = elim (Bool-cases (has_key es key)) [
  | inl present ↦
      let (d, c₁, h₁) = >>=-eq-ok (required_checksum es key e) _ (rw present at h) in
      rw (← ok-injective h₁) (required_checksum-HoldsChecksum es key e d c₁)
  | inr absent ↦
      subst (HoldsOptional es key) (ok-injective (rw absent at h))
        (λ there. clash (sym ((has_key_iff es key).1 there) ∙ absent))
]
  where
    clash : true ≡ false → ⊥
    clash q = cc

-- The entry of the key has the value of the block reference.
pub record HoldsBlockRef (es : Entries) (key : List ℕ) (b : BlockRef) : Type 0 where
  pub entries : Entries
  pub entry : Holds es key (map entries)
  pub its_offset : Holds entries word_offset (integer (pos b.offset))
  pub its_size : Holds entries word_size (integer (pos b.size))
  pub its_checksum : HoldsChecksum entries word_checksum b.checksum

pub required_block_ref-HoldsBlockRef :
    (es : Entries) (key : List ℕ) (e : QztError) (b : BlockRef)
    → required_block_ref es key e ≡ ok b
    → HoldsBlockRef es key b
unfolding required_block_ref
required_block_ref-HoldsBlockRef es key e b h =
    let (inner, c₁, h₁) = >>=-eq-ok (required_map es key e) _ h in
    let (_, c₂, h₂) =
      >>=-eq-ok (reject_unknown_keys inner (word_offset ∷ word_size ∷ word_checksum ∷ []) e) _ h₁ in
    let (offset, c₃, h₃) = >>=-eq-ok (required_u64 inner word_offset e) _ h₂ in
    let (size, c₄, h₄) = >>=-eq-ok (required_u64 inner word_size e) _ h₃ in
    let (checksum, c₅, h₅) = >>=-eq-ok (required_checksum inner word_checksum e) _ h₄ in
    rw (← ok-injective h₅) (record {
      entries = inner;
      entry = required_map-Holds es key e inner c₁;
      its_offset = required_u64-Holds inner word_offset e offset c₃;
      its_size = required_u64-Holds inner word_size e size c₄;
      its_checksum = required_checksum-HoldsChecksum inner word_checksum e checksum c₅;
    })
