-- ===== src/Schema/Accepted.antt =====
-- What `FooterPayload::decode` of src/schema.rs accepts.
use qzt.Base.{ℕ, ◌≡◌, refl, arith, List, [], ◌∷◌, Option, none, some}
use qzt.Base.{
  length, IsU64, Bool-cases, inl, inr, leb, leb→le, u64_max, ◌==◌, ==_iff, not, bytes_eq, ◌!=◌,
}
use qzt.Base.{pos, negsuc}
use qzt.Error.{QztError, Result, ok, err, reject_if, reject_if-ne_inv, >>=-eq-ok, ok-injective}
use qzt.Error.{invalid_footer_payload, invalid_flags}
use qzt.Cbor.{CborValue, integer, bytes, text, array, map, bool, null, Entries}
use qzt.Cbor.Schema.{has_key}
use qzt.Schema.{
  Checksum, BlockRef, from_raw_bytes, field, as_u64, required_u64_with_overflow, required_u64,
}
use qzt.Schema.{as_bstr, required_bstr, required_map, reject_unknown_keys, required_text}
use qzt.Schema.{required_checksum, optional_checksum, required_block_ref, decode_prologue}
use qzt.Schema.Words.{
  word_algorithm, word_value, word_blake3, word_offset, word_size, word_checksum,
}
use qzt.Schema.Words.{word_container_id, word_index_root, word_metadata, word_final_file_size}
use qzt.Schema.Words.{word_footer_flags, word_container_checksum, schema_footer}
use qzt.Schema.Footer.{FooterPayload, decode_fields, decode}

-- A BLAKE3 digest.
pub record IsBlake3 (c : Checksum) : Type 0 where
  pub its_algorithm : c.algorithm ≡ word_blake3
  pub its_length : length c.value ≡ 32

pub record IsBlockRef (b : BlockRef) : Type 0 where
  pub offset_u64 : IsU64 b.offset
  pub size_u64 : IsU64 b.size
  pub checksum_blake3 : IsBlake3 b.checksum

abbrev pub IsOptionalBlake3 : Option Checksum → Type 0
IsOptionalBlake3 none = Unit
IsOptionalBlake3 (some c) = IsBlake3 c

pub record IsFooterPayload (p : FooterPayload) : Type 0 where
  pub no_flags : p.footer_flags ≡ 0
  pub container_id_len : length p.container_id ≡ 16
  pub final_file_size_u64 : IsU64 p.final_file_size
  pub index_root_valid : IsBlockRef p.index_root
  pub metadata_valid : IsBlockRef p.metadata
  pub container_checksum_blake3 : IsOptionalBlake3 p.container_checksum

pub as_u64-IsU64 : (v : CborValue) (e o : QztError) (n : ℕ) → as_u64 v e o ≡ ok n → IsU64 n
unfolding as_u64
as_u64-IsU64 (integer (pos m)) e o n h = elim (Bool-cases (leb m u64_max)) [
  | inl small ↦ rw (← ok-injective (rw small at h)) (omega (arith, leb→le m u64_max small))
  | inr large ↦ absurd (refused (rw large at h))
]
  where
    refused : ◌≡◌ {A = Result ℕ} (err o) (ok n) → ⊥
    refused k = cc
as_u64-IsU64 (integer (negsuc m)) e o n h = cc
as_u64-IsU64 (bytes x) e o n h = cc
as_u64-IsU64 (text x) e o n h = cc
as_u64-IsU64 (array x) e o n h = cc
as_u64-IsU64 (map x) e o n h = cc
as_u64-IsU64 (bool x) e o n h = cc
as_u64-IsU64 null e o n h = cc

pub required_u64-IsU64 :
    (fields : Entries) (key : List ℕ) (e : QztError) (n : ℕ)
    → required_u64 fields key e ≡ ok n
    → IsU64 n
unfolding required_u64 required_u64_with_overflow
required_u64-IsU64 fields key e n h =
    let (v, c₁, h₁) = >>=-eq-ok (field fields key e) _ h in as_u64-IsU64 v e e n h₁

as_bstr_len :
    (n : ℕ) (v : CborValue) (e : QztError) (xs : List ℕ) → as_bstr n v e ≡ ok xs → length xs ≡ n
unfolding as_bstr
as_bstr_len n (bytes value) e xs h = elim (Bool-cases (length value == n)) [
  | inl same ↦ rw (← ok-injective (rw same at h)) ((==_iff (length value) n).0 same)
  | inr other ↦ absurd (refused (rw other at h))
]
  where
    refused : ◌≡◌ {A = Result (List ℕ)} (err e) (ok xs) → ⊥
    refused k = cc
as_bstr_len n (integer x) e xs h = cc
as_bstr_len n (text x) e xs h = cc
as_bstr_len n (array x) e xs h = cc
as_bstr_len n (map x) e xs h = cc
as_bstr_len n (bool x) e xs h = cc
as_bstr_len n null e xs h = cc

pub required_bstr_len :
    (n : ℕ) (fields : Entries) (key : List ℕ) (e : QztError) (xs : List ℕ)
    → required_bstr n fields key e ≡ ok xs
    → length xs ≡ n
unfolding required_bstr
required_bstr_len n fields key e xs h =
    let (v, c₁, h₁) = >>=-eq-ok (field fields key e) _ h in as_bstr_len n v e xs h₁

pub required_checksum-IsBlake3 :
    (fields : Entries) (key : List ℕ) (e : QztError) (c : Checksum)
    → required_checksum fields key e ≡ ok c
    → IsBlake3 c
unfolding required_checksum from_raw_bytes
required_checksum-IsBlake3 fields key e c h =
    let (inner, c₁, h₁) = >>=-eq-ok (required_map fields key e) _ h in
    let (_, c₂, h₂) =
      >>=-eq-ok (reject_unknown_keys inner (word_algorithm ∷ word_value ∷ []) e) _ h₁ in
    let (algorithm, c₃, h₃) = >>=-eq-ok (required_text inner word_algorithm e) _ h₂ in
    let (_, c₄, h₄) = >>=-eq-ok (reject_if (not (bytes_eq algorithm word_blake3)) e) _ h₃ in
    let (value, c₅, h₅) = >>=-eq-ok (required_bstr 32 inner word_value e) _ h₄ in
    rw (← ok-injective h₅) (record {
      its_algorithm = refl;
      its_length = required_bstr_len 32 inner word_value e value c₅;
    })

optional_checksum-IsOptionalBlake3 :
    (fields : Entries) (key : List ℕ) (e : QztError) (c : Option Checksum)
    → optional_checksum fields key e ≡ ok c
    → IsOptionalBlake3 c
unfolding optional_checksum
optional_checksum-IsOptionalBlake3 fields key e c h = elim (Bool-cases (has_key fields key)) [
  | inl present ↦
      let (d, c₁, h₁) = >>=-eq-ok (required_checksum fields key e) _ (rw present at h) in
      rw (← ok-injective h₁) (required_checksum-IsBlake3 fields key e d c₁)
  | inr absent ↦ rw (← ok-injective (rw absent at h)) tt
]

pub required_block_ref-IsBlockRef :
    (fields : Entries) (key : List ℕ) (e : QztError) (b : BlockRef)
    → required_block_ref fields key e ≡ ok b
    → IsBlockRef b
unfolding required_block_ref
required_block_ref-IsBlockRef fields key e b h =
    let (inner, c₁, h₁) = >>=-eq-ok (required_map fields key e) _ h in
    let (_, c₂, h₂) =
      >>=-eq-ok (reject_unknown_keys inner (word_offset ∷ word_size ∷ word_checksum ∷ []) e) _ h₁ in
    let (offset, c₃, h₃) = >>=-eq-ok (required_u64 inner word_offset e) _ h₂ in
    let (size, c₄, h₄) = >>=-eq-ok (required_u64 inner word_size e) _ h₃ in
    let (checksum, c₅, h₅) = >>=-eq-ok (required_checksum inner word_checksum e) _ h₄ in
    rw (← ok-injective h₅) (record {
      offset_u64 = required_u64-IsU64 inner word_offset e offset c₃;
      size_u64 = required_u64-IsU64 inner word_size e size c₄;
      checksum_blake3 = required_checksum-IsBlake3 inner word_checksum e checksum c₅;
    })

decode_fields-IsFooterPayload :
    (fields : Entries) (p : FooterPayload) → decode_fields fields ≡ ok p → IsFooterPayload p
unfolding decode_fields
decode_fields-IsFooterPayload fields p h =
    let e = invalid_footer_payload in
    let (flags, c₁, h₁) = >>=-eq-ok (required_u64 fields word_footer_flags e) _ h in
    let (_, c₂, h₂) = >>=-eq-ok (reject_if (flags != 0) invalid_flags) _ h₁ in
    let (container_id, c₃, h₃) = >>=-eq-ok (required_bstr 16 fields word_container_id e) _ h₂ in
    let (root, c₄, h₄) = >>=-eq-ok (required_block_ref fields word_index_root e) _ h₃ in
    let (metadata, c₅, h₅) = >>=-eq-ok (required_block_ref fields word_metadata e) _ h₄ in
    let (size, c₆, h₆) = >>=-eq-ok (required_u64 fields word_final_file_size e) _ h₅ in
    let (checksum, c₇, h₇) = >>=-eq-ok (optional_checksum fields word_container_checksum e) _ h₆ in
    rw (← ok-injective h₇) (record {
      no_flags = reject_if-ne_inv flags 0 invalid_flags c₂;
      container_id_len = required_bstr_len 16 fields word_container_id e container_id c₃;
      final_file_size_u64 = required_u64-IsU64 fields word_final_file_size e size c₆;
      index_root_valid = required_block_ref-IsBlockRef fields word_index_root e root c₄;
      metadata_valid = required_block_ref-IsBlockRef fields word_metadata e metadata c₅;
      container_checksum_blake3 =
          optional_checksum-IsOptionalBlake3 fields word_container_checksum e checksum c₇;
    })

-- A footer payload that `FooterPayload::decode` returns has no flags, a container id of 16 bytes, a
-- u64 file size, block references with u64 offsets and sizes, and checksums that are named blake3 and
-- have 32 bytes.
pub decode-IsFooterPayload :
    (input : List ℕ) (p : FooterPayload) → decode input ≡ ok p → IsFooterPayload p
unfolding decode
decode-IsFooterPayload input p h =
    let (fields, _, h₁) =
      >>=-eq-ok (decode_prologue input _ schema_footer invalid_footer_payload) _ h in
    decode_fields-IsFooterPayload fields p h₁
