-- ===== src/ChunkTable/RoundTrip.antt =====
-- Encoding and decoding of one chunk table entry, src/chunk_table.rs.
use qzt.Base.{ℕ, ◌≡◌, ◌∙◌, sym, List, arith}
use qzt.Base.{length, drop, slice, ◌!=◌, to_le_bytes, IsU32, IsU64, IsByte, All}
use qzt.Base.{length-append, take-append, take_all, drop-append, length-drop, glue}
use qzt.Base.{All-slice}
use mathlib.Core.Path.{subst}
use qzt.Error.{ok, ok-injective, reject_if, reject_if-ne_inv, >>=-eq-ok, chunk_table_invalid}
use qzt.Primitives.{read_u32_le, read_u64_le, read_u64_le-to_le_bytes, read_u32_le-to_le_bytes}
use qzt.Primitives.{read_u64_le_inv, read_u32_le_inv}
use qzt.ChunkTable.{ChunkEntry, encode, decode, read_checksum}

-- The widths of the fields.
pub record IsEntry (e : ChunkEntry) : Type 0 where
  pub chunk_id_u64 : IsU64 e.chunk_id
  pub physical_offset_u64 : IsU64 e.physical_offset
  pub compressed_size_u64 : IsU64 e.compressed_size
  pub logical_offset_u64 : IsU64 e.logical_offset
  pub uncompressed_size_u64 : IsU64 e.uncompressed_size
  pub first_line_u64 : IsU64 e.first_line
  pub line_count_u64 : IsU64 e.line_count
  pub dictionary_id_u32 : IsU32 e.dictionary_id
  pub flags_u32 : IsU32 e.flags
  pub compressed_len : length e.compressed_checksum_blake3 ≡ 32
  pub uncompressed_len : length e.uncompressed_checksum_blake3 ≡ 32

pub length-encode : (e : ChunkEntry) → IsEntry e → length (encode e) ≡ 128
unfolding encode
length-encode e v = omega (
  arith,
  length-append e.compressed_checksum_blake3 e.uncompressed_checksum_blake3,
  v.compressed_len,
  v.uncompressed_len,
)

-- An entry whose fields have their widths is decoded from its encoding.
pub decode-encode : (e : ChunkEntry) → IsEntry e → decode (encode e) ≡ ok e
unfolding encode decode
decode-encode e v = rw (
  length-append e.compressed_checksum_blake3 e.uncompressed_checksum_blake3,
  v.compressed_len,
  v.uncompressed_len,
  read_u64_le-to_le_bytes e.chunk_id v.chunk_id_u64,
  read_u64_le-to_le_bytes e.physical_offset v.physical_offset_u64,
  read_u64_le-to_le_bytes e.compressed_size v.compressed_size_u64,
  read_u64_le-to_le_bytes e.logical_offset v.logical_offset_u64,
  read_u64_le-to_le_bytes e.uncompressed_size v.uncompressed_size_u64,
  read_u64_le-to_le_bytes e.first_line v.first_line_u64,
  read_u64_le-to_le_bytes e.line_count v.line_count_u64,
  read_u32_le-to_le_bytes e.dictionary_id v.dictionary_id_u32,
  read_u32_le-to_le_bytes e.flags v.flags_u32,
  take-append 32 e.compressed_checksum_blake3 e.uncompressed_checksum_blake3 v.compressed_len,
  drop-append 32 e.compressed_checksum_blake3 e.uncompressed_checksum_blake3 v.compressed_len,
  take_all 32 e.uncompressed_checksum_blake3 (omega (arith, v.uncompressed_len)),
  v.compressed_len,
  v.uncompressed_len,
)

read_checksum_inv :
    (bytes : List ℕ) {r : List ℕ} → read_checksum bytes ≡ ok r → (bytes ≡ r) × (length r ≡ 32)
unfolding read_checksum
read_checksum_inv bytes h = ground arith

abbrev Field64 : List ℕ → ℕ → ℕ → ℕ → Type 0
Field64 bytes i j v = IsU64 v × (slice i j bytes ≡ to_le_bytes 8 v)

abbrev Field32 : List ℕ → ℕ → ℕ → ℕ → Type 0
Field32 bytes i j v = IsU32 v × (slice i j bytes ≡ to_le_bytes 4 v)

-- What a successful decoding says of the bytes, field by field.
record Layout (bytes : List ℕ) (e : ChunkEntry) : Type 0 where
  len : length bytes ≡ 128
  chunk_id : Field64 bytes 0 8 e.chunk_id
  physical_offset : Field64 bytes 8 16 e.physical_offset
  compressed_size : Field64 bytes 16 24 e.compressed_size
  logical_offset : Field64 bytes 24 32 e.logical_offset
  uncompressed_size : Field64 bytes 32 40 e.uncompressed_size
  first_line : Field64 bytes 40 48 e.first_line
  line_count : Field64 bytes 48 56 e.line_count
  dictionary_id : Field32 bytes 56 60 e.dictionary_id
  flags : Field32 bytes 60 64 e.flags
  compressed :
      (slice 64 96 bytes ≡ e.compressed_checksum_blake3)
      × (length e.compressed_checksum_blake3 ≡ 32)
  uncompressed :
      (slice 96 128 bytes ≡ e.uncompressed_checksum_blake3)
      × (length e.uncompressed_checksum_blake3 ≡ 32)

decode-Layout :
    (bytes : List ℕ) (e : ChunkEntry) → All IsByte bytes → decode bytes ≡ ok e → Layout bytes e
unfolding decode
decode-Layout bytes e bs d =
    let (u₀, c₀, d₀) = >>=-eq-ok (reject_if (length bytes != 128) chunk_table_invalid) _ d in
    let (v₁, c₁, d₁) = >>=-eq-ok (read_u64_le (slice 0 8 bytes)) _ d₀ in
    let (v₂, c₂, d₂) = >>=-eq-ok (read_u64_le (slice 8 16 bytes)) _ d₁ in
    let (v₃, c₃, d₃) = >>=-eq-ok (read_u64_le (slice 16 24 bytes)) _ d₂ in
    let (v₄, c₄, d₄) = >>=-eq-ok (read_u64_le (slice 24 32 bytes)) _ d₃ in
    let (v₅, c₅, d₅) = >>=-eq-ok (read_u64_le (slice 32 40 bytes)) _ d₄ in
    let (v₆, c₆, d₆) = >>=-eq-ok (read_u64_le (slice 40 48 bytes)) _ d₅ in
    let (v₇, c₇, d₇) = >>=-eq-ok (read_u64_le (slice 48 56 bytes)) _ d₆ in
    let (v₈, c₈, d₈) = >>=-eq-ok (read_u32_le (slice 56 60 bytes)) _ d₇ in
    let (v₉, c₉, d₉) = >>=-eq-ok (read_u32_le (slice 60 64 bytes)) _ d₈ in
    let (v', c', d') = >>=-eq-ok (read_checksum (slice 64 96 bytes)) _ d₉ in
    let (v'', c'', d'') = >>=-eq-ok (read_checksum (slice 96 128 bytes)) _ d' in
    let b = λ (i j : ℕ). All-slice IsByte i j bytes bs in
    subst (Layout bytes) (ok-injective d'') (record {
      len = reject_if-ne_inv (length bytes) 128 chunk_table_invalid c₀;
      chunk_id = read_u64_le_inv _ _ (b 0 8) c₁;
      physical_offset = read_u64_le_inv _ _ (b 8 16) c₂;
      compressed_size = read_u64_le_inv _ _ (b 16 24) c₃;
      logical_offset = read_u64_le_inv _ _ (b 24 32) c₄;
      uncompressed_size = read_u64_le_inv _ _ (b 32 40) c₅;
      first_line = read_u64_le_inv _ _ (b 40 48) c₆;
      line_count = read_u64_le_inv _ _ (b 48 56) c₇;
      dictionary_id = read_u32_le_inv _ _ (b 56 60) c₈;
      flags = read_u32_le_inv _ _ (b 60 64) c₉;
      compressed = read_checksum_inv _ c';
      uncompressed = read_checksum_inv _ c'';
    })

-- A decoded entry has fields of their widths, and encodes to the very bytes it was decoded from.
pub decode_canonical :
    (bytes : List ℕ) (e : ChunkEntry)
    → All IsByte bytes
    → decode bytes ≡ ok e
    → IsEntry e × (encode e ≡ bytes)
unfolding encode
decode_canonical bytes e bs d =
    let l = decode-Layout bytes e bs d in
    let last =
      sym (take_all 32 (drop 96 bytes) (omega (arith, length-drop 96 bytes, l.len)))
      ∙ l.uncompressed.0 in
    let tail =
      glue 60 64 bytes (omega arith) l.flags.1
        (glue 64 96 bytes (omega arith) l.compressed.0 last) in
    let t₁ =
      glue 48 56 bytes (omega arith) l.line_count.1
        (glue 56 60 bytes (omega arith) l.dictionary_id.1 tail) in
    let t₂ =
      glue 32 40 bytes (omega arith) l.uncompressed_size.1
        (glue 40 48 bytes (omega arith) l.first_line.1 t₁) in
    let t₃ =
      glue 16 24 bytes (omega arith) l.compressed_size.1
        (glue 24 32 bytes (omega arith) l.logical_offset.1 t₂) in
    let whole =
      glue 0 8 bytes (omega arith) l.chunk_id.1
        (glue 8 16 bytes (omega arith) l.physical_offset.1 t₃) in
    (
      record {
        chunk_id_u64 = l.chunk_id.0;
        physical_offset_u64 = l.physical_offset.0;
        compressed_size_u64 = l.compressed_size.0;
        logical_offset_u64 = l.logical_offset.0;
        uncompressed_size_u64 = l.uncompressed_size.0;
        first_line_u64 = l.first_line.0;
        line_count_u64 = l.line_count.0;
        dictionary_id_u32 = l.dictionary_id.0;
        flags_u32 = l.flags.0;
        compressed_len = l.compressed.1;
        uncompressed_len = l.uncompressed.1;
      },
      sym whole,
    )
