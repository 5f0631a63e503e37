-- ===== src/Schema/Metadata/Accepted.antt =====
-- What `Metadata::decode` of src/schema.rs accepts.
use qzt.Base.{ℕ, ◌≡◌, arith, List, false, inl, inr, ◌<◌, ◌≤◌, ◌^◌}
use qzt.Base.{length, IsU64, Bool-cases, ltb, ltb→lt, not, not_inv, ◌||◌, ◌==◌, ℤ, pos, negsuc}
use qzt.Error.{
  QztError, Result, ok, err, reject_if, reject_if_inv, >>=-eq-ok, ok-injective, ok-pair,
}
use qzt.Error.{metadata_invalid}
use qzt.Cbor.{CborValue, integer, bytes, text, array, map, bool, null, Entries}
use qzt.Cbor.Schema.{contains}
use qzt.Cbor.Closed.{In, contains_iff}
use qzt.Schema.{field, as_i32, required_i32, required_u64, required_text, required_bstr}
use qzt.Schema.{required_checksum, required_bool, expect_text_field, decode_prologue}
use qzt.Schema.Accepted.{
  IsBlake3, required_u64-IsU64, required_bstr_len, required_checksum-IsBlake3,
}
use qzt.Schema.Words
use qzt.Schema.Metadata.{Metadata}
use qzt.Schema.Metadata.Decode.{
  check_identity, check_source, check_compression, check_chunking, check_indexes, check_integrity,
}
use qzt.Schema.Metadata.Decode.{
  check_compatibility, newline_modes, dictionary_modes, profiles, required_choice, chunk_sizes,
}
use qzt.Schema.Metadata.Decode.{build_metadata, decode_values, decode_fields, decode, metadata_keys}

abbrev pub IsI32 : ℤ → Type 0
IsI32 (pos n) = n < 2 ^ 31
IsI32 (negsuc n) = n < 2 ^ 31

pub record IsMetadata (m : Metadata) : Type 0 where
  pub container_id_len : length m.container_id ≡ 16
  pub original_size_u64 : IsU64 m.original_size
  pub original_checksum_blake3 : IsBlake3 m.original_checksum
  pub newline_mode_known : In m.newline_mode newline_modes
  pub line_count_u64 : IsU64 m.line_count
  pub zstd_level_i32 : IsI32 m.zstd_level
  pub target_pos : 0 < m.target_chunk_size
  pub target-le-max : m.target_chunk_size ≤ m.max_chunk_size
  pub max_u64 : IsU64 m.max_chunk_size
  pub dictionary_mode_known : In m.dictionary_mode dictionary_modes
  pub profile_known : In m.profile profiles

as_i32-IsI32 : (v : CborValue) (e : QztError) (z : ℤ) → as_i32 v e ≡ ok z → IsI32 z
unfolding as_i32
as_i32-IsI32 (integer (pos n)) e z h = elim (Bool-cases (ltb n (2 ^ 31))) [
  | inl small ↦ rw (← ok-injective (rw small at h)) (ltb→lt n (2 ^ 31) small)
  | inr large ↦ absurd (refused (rw large at h))
]
  where
    refused : ◌≡◌ {A = Result ℤ} (err e) (ok z) → ⊥
    refused k = cc
as_i32-IsI32 (integer (negsuc n)) e z h = elim (Bool-cases (ltb n (2 ^ 31))) [
  | inl small ↦ rw (← ok-injective (rw small at h)) (ltb→lt n (2 ^ 31) small)
  | inr large ↦ absurd (refused (rw large at h))
]
  where
    refused : ◌≡◌ {A = Result ℤ} (err e) (ok z) → ⊥
    refused k = cc
as_i32-IsI32 (bytes x) e z h = cc
as_i32-IsI32 (text x) e z h = cc
as_i32-IsI32 (array x) e z h = cc
as_i32-IsI32 (map x) e z h = cc
as_i32-IsI32 (bool x) e z h = cc
as_i32-IsI32 null e z h = cc

required_i32-IsI32 :
    (fields : Entries) (key : List ℕ) (e : QztError) (z : ℤ)
    → required_i32 fields key e ≡ ok z
    → IsI32 z
unfolding required_i32
required_i32-IsI32 fields key e z h =
    let (v, _, h₁) = >>=-eq-ok (field fields key e) _ h in as_i32-IsI32 v e z h₁

required_choice-In :
    (fields : Entries) (key : List ℕ) (choices : List (List ℕ)) (xs : List ℕ)
    → required_choice fields key choices ≡ ok xs
    → In xs choices
unfolding required_choice
required_choice-In fields key choices xs h =
    let (value, _, h₁) = >>=-eq-ok (required_text fields key metadata_invalid) _ h in
    let (_, c₂, h₂) = >>=-eq-ok (reject_if (not (contains choices value)) metadata_invalid) _ h₁ in
    let known = (contains_iff choices value).0 (not_inv _ (reject_if_inv _ metadata_invalid c₂)) in
    rw (← ok-injective h₂) known

-- The bounds of two accepted chunk sizes.
sizes_bounds :
    (target maximum : ℕ)
    → (target == 0 || maximum == 0 || ltb maximum target) ≡ false
    → (0 < target) × (target ≤ maximum)
sizes_bounds target maximum h = ground arith

chunk_sizes_bounds :
    (chunking : Entries) (target maximum : ℕ)
    → ◌≡◌ {A = Result (ℕ × ℕ)} (chunk_sizes chunking) (ok (target, maximum))
    → (0 < target) × (target ≤ maximum) × IsU64 maximum
unfolding chunk_sizes
chunk_sizes_bounds chunking target maximum h =
    let e = metadata_invalid in
    let (t, c₁, h₁) = >>=-eq-ok (required_u64 chunking Words.word_target_chunk_size e) _ h in
    let (m, c₂, h₂) = >>=-eq-ok (required_u64 chunking Words.word_max_chunk_size e) _ h₁ in
    let (_, c₃, h₃) = >>=-eq-ok (reject_if (t == 0 || m == 0 || ltb m t) e) _ h₂ in
    let (low, high) = sizes_bounds t m (reject_if_inv _ e c₃) in
    let wide = required_u64-IsU64 chunking Words.word_max_chunk_size e m c₂ in
    let (same_target, same_maximum) = ok-pair h₃ in
    (rw (← same_target) low, rw (← same_target, ← same_maximum) high, rw (← same_maximum) wide)

-- The values that go into the record, with what the reads of the others give.
build_metadata-IsMetadata :
    (fields source indexes : Entries) (newline dictionary profile : List ℕ) (level : ℤ)
    (target maximum : ℕ) (m : Metadata)
    → In newline newline_modes
    → In dictionary dictionary_modes
    → In profile profiles
    → IsI32 level
    → (0 < target) × (target ≤ maximum) × IsU64 maximum
    → build_metadata fields source indexes newline dictionary profile level target maximum ≡ ok m
    → IsMetadata m
unfolding build_metadata
build_metadata-IsMetadata fields source indexes newline dictionary profile level target maximum m
      known_newline known_dictionary known_profile level_i32 sizes h =
    let e = metadata_invalid in
    let (id, c₁, h₁) = >>=-eq-ok (required_bstr 16 fields Words.word_container_id e) _ h in
    let (size, c₂, h₂) = >>=-eq-ok (required_u64 source Words.word_original_size e) _ h₁ in
    let (sum, c₃, h₃) = >>=-eq-ok (required_checksum source Words.word_original_checksum e) _ h₂ in
    let (lines, c₄, h₄) = >>=-eq-ok (required_u64 source Words.word_line_count e) _ h₃ in
    let (dense, c₅, h₅) = >>=-eq-ok (required_bool indexes Words.word_dense_line_index e) _ h₄ in
    let (document, c₆, h₆) = >>=-eq-ok (required_bool indexes Words.word_document_index e) _ h₅ in
    rw (← ok-injective h₆) (record {
      container_id_len = required_bstr_len 16 fields Words.word_container_id e id c₁;
      original_size_u64 = required_u64-IsU64 source Words.word_original_size e size c₂;
      original_checksum_blake3 =
          required_checksum-IsBlake3 source Words.word_original_checksum e sum c₃;
      newline_mode_known = known_newline;
      line_count_u64 = required_u64-IsU64 source Words.word_line_count e lines c₄;
      zstd_level_i32 = level_i32;
      target_pos = sizes.0;
      target-le-max = sizes.1;
      max_u64 = sizes.2;
      dictionary_mode_known = known_dictionary;
      profile_known = known_profile;
    })

decode_values-IsMetadata :
    (fields identity source compression chunking indexes : Entries) (m : Metadata)
    → decode_values fields identity source compression chunking indexes ≡ ok m
    → IsMetadata m
unfolding decode_values
decode_values-IsMetadata fields identity source compression chunking indexes m h =
    let (newline, c₁, h₁) =
      >>=-eq-ok (required_choice source Words.word_newline_mode newline_modes) _ h in
    let (dictionary, c₂, h₂) =
      >>=-eq-ok (required_choice compression Words.word_dictionary_mode dictionary_modes) _ h₁ in
    let (profile, c₃, h₃) = >>=-eq-ok (required_choice identity Words.word_profile profiles) _ h₂ in
    let (level, c₄, h₄) =
      >>=-eq-ok (required_i32 compression Words.word_zstd_level metadata_invalid) _ h₃ in
    let ((target, maximum), c₅, h₅) = >>=-eq-ok (chunk_sizes chunking) _ h₄ in
    build_metadata-IsMetadata fields source indexes newline dictionary profile level target maximum
      m (required_choice-In source Words.word_newline_mode newline_modes newline c₁)
      (required_choice-In compression Words.word_dictionary_mode dictionary_modes dictionary c₂)
      (required_choice-In identity Words.word_profile profiles profile c₃)
      (required_i32-IsI32 compression Words.word_zstd_level metadata_invalid level c₄)
      (chunk_sizes_bounds chunking target maximum c₅) h₅

decode_fields-IsMetadata :
    (fields : Entries) (m : Metadata) → decode_fields fields ≡ ok m → IsMetadata m
unfolding decode_fields
decode_fields-IsMetadata fields m h =
    let format = expect_text_field fields Words.word_format Words.word_qzt metadata_invalid in
    let (_, _, h₁) = >>=-eq-ok format _ h in
    let (identity, _, h₂) = >>=-eq-ok (check_identity fields) _ h₁ in
    let (source, _, h₃) = >>=-eq-ok (check_source fields) _ h₂ in
    let (compression, _, h₄) = >>=-eq-ok (check_compression fields) _ h₃ in
    let (chunking, _, h₅) = >>=-eq-ok (check_chunking fields) _ h₄ in
    let (indexes, _, h₆) = >>=-eq-ok (check_indexes fields) _ h₅ in
    let (_, _, h₇) = >>=-eq-ok (check_integrity fields) _ h₆ in
    let (_, _, h₈) = >>=-eq-ok (check_compatibility fields) _ h₇ in
    decode_values-IsMetadata fields identity source compression chunking indexes m h₈

-- Metadata that `Metadata::decode` returns has a container id of 16 bytes, u64 sizes and line count, a
-- named blake3 digest of 32 bytes, an i32 level, a newline mode, a dictionary mode and a profile among
-- the known ones, and a target chunk size above zero and at most the maximal one.
pub decode-IsMetadata : (input : List ℕ) (m : Metadata) → decode input ≡ ok m → IsMetadata m
unfolding decode
decode-IsMetadata input m h =
    let (fields, _, h₁) =
      >>=-eq-ok (decode_prologue input metadata_keys Words.schema_metadata metadata_invalid) _ h in
    decode_fields-IsMetadata fields m h₁
