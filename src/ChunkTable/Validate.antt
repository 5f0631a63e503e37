-- ===== src/ChunkTable/Validate.antt =====
-- The whole of `validate_chunk_table_block`, src/chunk_table.rs.
use qzt.Base.{ℕ, zero, suc, ◌+◌, ◌*◌, ◌/◌, ◌%◌, ◌<◌, ◌≡◌, refl, ◌∙◌, sym, ◌↔◌}
use qzt.Base.{
  ◌≢◌, ne_false, eq_false, false-ltb, ==_iff, if◌then◌else◌, ◌||◌, List, [], ◌∷◌, ◌++◌, arith, ◌==◌,
  ◌!=◌, ltb, Bool-cases, inl, inr,
}
use qzt.Base.{length, take, drop, All, All-map, All-take, All-drop, IsByte, IsU32, IsU64}
use qzt.Base.{length-append, take-append, drop-append, take-append-drop, length-drop}
use qzt.Error.{ok, err, reject_if, reject_if-ne_inv, >>=-eq-ok, ok-injective}
use qzt.Error.{chunk_table_invalid, chunk_count_mismatch}
use qzt.Primitives.{usize_to_u64, usize_to_u64_lem}
use qzt.ChunkTable.{ChunkEntry, encode, decode, decode_records, validate_chunk_table_block}
use qzt.ChunkTable.RoundTrip.{IsEntry, length-encode, decode-encode, decode_canonical}
use qzt.ChunkTable.Tiling.{Tiles, Tiles-le, Tiles-lines_le, check_table_iff, check_table_returns}

-- The block that holds the entries one after the other.
abbrev pub encode_all : List ChunkEntry → List ℕ
encode_all [] = []
encode_all (e ∷ es) = encode e ++ encode_all es

pub length-encode_all :
    (es : List ChunkEntry) → All IsEntry es → length (encode_all es) ≡ 128 * length es
length-encode_all [] v = refl
length-encode_all (e ∷ es) v =
    omega (
      arith,
      length-append (encode e) (encode_all es),
      length-encode e v.0,
      length-encode_all es v.1,
    )

pub decode_records-encode_all :
    (es : List ChunkEntry) → All IsEntry es → decode_records (length es) (encode_all es) ≡ ok es
unfolding decode_records
decode_records-encode_all [] v = refl
decode_records-encode_all (e ∷ es) v = rw (
  take-append 128 (encode e) (encode_all es) (length-encode e v.0),
  drop-append 128 (encode e) (encode_all es) (length-encode e v.0),
  decode-encode e v.0,
  decode_records-encode_all es v.1,
)

pub decode_records_canonical :
    (n : ℕ) (bytes : List ℕ) (es : List ChunkEntry)
    → All IsByte bytes
    → length bytes ≡ 128 * n
    → decode_records n bytes ≡ ok es
    → (bytes ≡ encode_all es) × All IsEntry es × (length es ≡ n)
unfolding decode_records
decode_records_canonical zero [] es bs len d = rw (← ok-injective d) (refl, tt, refl)
decode_records_canonical zero (b ∷ bytes) es bs len d = absurd (omega arith)
decode_records_canonical (suc n) bytes es bs len d =
    let (e, c₁, d₁) = >>=-eq-ok (decode (take 128 bytes)) _ d in
    let (rest, c₂, d₂) = >>=-eq-ok (decode_records n (drop 128 bytes)) _ d₁ in
    let (valid, same) = decode_canonical (take 128 bytes) e (All-take IsByte 128 bytes bs) c₁ in
    let (same', valid', len') =
      decode_records_canonical n (drop 128 bytes) rest (All-drop IsByte 128 bytes bs)
        (omega (arith, length-drop 128 bytes)) c₂ in
    rw (← ok-injective d₂)
      (rw (same, ← same') (sym (take-append-drop 128 bytes)), (valid, valid'), omega (arith, len'))

empty_inv :
    (a b n : ℕ) (es : List ChunkEntry)
    → (if a != 0 || b != 0 || n != 0 then err chunk_count_mismatch else ok []) ≡ ok es
    → (a ≡ 0) × (b ≡ 0) × (n ≡ 0) × ([] ≡ es)
empty_inv a b n es h = ground arith

empty_entries : (es : List ChunkEntry) → length es ≡ 0 → es ≡ []
empty_entries [] h = refl
empty_entries (e ∷ es) h = absurd (omega arith)

empty_bytes : (bytes : List ℕ) → length bytes ≡ 0 → bytes ≡ []
empty_bytes [] h = refl
empty_bytes (b ∷ bytes) h = absurd (omega arith)

Tiles-nothing :
    (size lines : ℕ) (es : List ChunkEntry)
    → size ≡ 0
    → Tiles 0 0 0 es size lines
    → (length es ≡ 0) × (lines ≡ 0)
Tiles-nothing size lines [] z t = omega arith
Tiles-nothing size lines (e ∷ es) z (_, _, _, _, pos, _, _, t) =
    absurd (omega (arith, Tiles-le 1 (0 + e.uncompressed_size) (0 + e.line_count) size lines es t))

Tiles-something :
    (size lines : ℕ) (es : List ChunkEntry) → size ≢ 0 → Tiles 0 0 0 es size lines → 0 < length es
Tiles-something size lines [] nz t = absurd (omega arith)
Tiles-something size lines (e ∷ es) nz t = omega arith

module _ (bytes : List ℕ) (chunk_count size lines : ℕ) (es : List ChunkEntry) where
  -- The block is the encoding of `chunk_count` entries that tile `size` bytes and `lines` lines.
  abbrev pub Describes : Type 0
  Describes =
      (bytes ≡ encode_all es)
      × All IsEntry es
      × (length es ≡ chunk_count)
      × Tiles 0 0 0 es size lines

  IsEntry-IsU32 : All IsEntry es → All (λ e. IsU32 e.flags) es
  IsEntry-IsU32 = All-map es (λ e v. v.flags_u32)

  validate_sound :
      All IsByte bytes
      → IsU64 (length bytes)
      → IsU64 size
      → IsU64 lines
      → validate_chunk_table_block bytes chunk_count size lines ≡ ok es
      → Describes
  unfolding validate_chunk_table_block
  validate_sound bs hb hs hl v =
      let (_, c₁, v₁) = >>=-eq-ok (reject_if (length bytes % 128 != 0) chunk_table_invalid) _ v in
      let (n, c₂, v₂) = >>=-eq-ok (usize_to_u64 (length bytes / 128)) _ v₁ in
      let (_, c₃, v₃) = >>=-eq-ok (reject_if (n != chunk_count) chunk_count_mismatch) _ v₂ in
      let whole : length bytes % 128 ≡ 0 = reject_if-ne_inv _ 0 chunk_table_invalid c₁ in
      let count : n ≡ chunk_count = reject_if-ne_inv n chunk_count chunk_count_mismatch c₃ in
      let same_n : length bytes / 128 ≡ n =
        ok-injective (sym (usize_to_u64_lem (length bytes / 128) (omega arith)) ∙ c₂) in
      let records : length bytes ≡ 128 * n = omega arith in
      elim (Bool-cases (size == 0)) [
        | inl z ↦
            let (e₁, e₂, e₃, e₄) = empty_inv chunk_count lines (length bytes) es (rw z at v₃) in
            let none_left = empty_bytes bytes e₃ in
            let size_zero : size ≡ 0 = ground arith in
            rw (none_left, ← e₄) (refl, tt, omega arith, (omega arith, omega arith))
        | inr nz ↦
            let v₄ = rw nz at v₃ in
            let (_, c₅, v₅) = >>=-eq-ok (reject_if (chunk_count == 0) chunk_count_mismatch) _ v₄ in
            let (_, c₆, v₆) = >>=-eq-ok (reject_if (ltb size lines) chunk_table_invalid) _ v₅ in
            let (rs, c₇, v₇) = >>=-eq-ok (decode_records (length bytes / 128) bytes) _ v₆ in
            let same = check_table_returns size lines rs es v₇ in
            let (e₁, e₂, e₃) =
              decode_records_canonical n bytes es bs records (rw (same_n, ← same) at c₇) in
            let tiles =
              (check_table_iff size lines es (IsEntry-IsU32 e₂) hs hl (omega arith)).0
                (rw (← same) at v₇) in
            (e₁, e₂, omega arith, tiles)
      ]

  validate_complete :
      IsU64 (length bytes)
      → IsU64 size
      → IsU64 lines
      → Describes
      → validate_chunk_table_block bytes chunk_count size lines ≡ ok es
  unfolding validate_chunk_table_block
  validate_complete hb hs hl (eb, valid, count, tiles) =
      let len = length-encode_all es valid in
      let n : length bytes / 128 ≡ length es = rw eb (omega arith) in
      let whole : length bytes % 128 ≡ 0 = rw eb (omega arith) in
      let few : IsU64 (length es) = omega arith in
      let whole' = ne_false (length bytes % 128) 0 whole in
      let n' = usize_to_u64_lem (length bytes / 128) (omega arith) in
      let count' = ne_false (length bytes / 128) chunk_count (n ∙ count) in
      elim (Bool-cases (size == 0)) [
        | inl z ↦
            let (no_es, no_lines) = Tiles-nothing size lines es ((==_iff size 0).0 z) tiles in
            let no_bytes : length bytes ≡ 0 = rw eb (omega arith) in
            let test₁ = ne_false chunk_count 0 (omega arith) in
            let test₂ = ne_false lines 0 no_lines in
            let test₃ = ne_false (length bytes) 0 no_bytes in
            let nil : [] ≡ es = sym (empty_entries es no_es) in
            rw (whole', n', count', z, test₁, test₂, test₃, nil)
        | inr nz ↦
            let nonzero : size ≢ 0 = ground arith in
            let some_es = Tiles-something size lines es nonzero tiles in
            let test₁ = eq_false chunk_count 0 (omega arith) in
            let fewer = Tiles-lines_le 0 0 0 size lines es tiles in
            let test₂ = false-ltb size lines (omega arith) in
            let records = decode_records-encode_all es valid in
            let table = (check_table_iff size lines es (IsEntry-IsU32 valid) hs hl few).1 tiles in
            rw (whole', n', count', nz, test₁, test₂, n, eb, records, table)
      ]

-- For a block, a size and a line count that are u64, `validate_chunk_table_block` returns `es`
-- exactly when the block is the encoding of `es`, the entries are as many as declared, have fields
-- of their widths, and tile the original: they are numbered from 0, follow one another without a
-- gap in bytes and lines, are not empty, have no more lines than bytes and no unknown flag, and end
-- at the declared size and line count.
pub validate_chunk_table_block_iff :
    (bytes : List ℕ) (chunk_count size lines : ℕ) (es : List ChunkEntry)
    → All IsByte bytes
    → IsU64 (length bytes)
    → IsU64 size
    → IsU64 lines
    → (validate_chunk_table_block bytes chunk_count size lines ≡ ok es)
      ↔ Describes bytes chunk_count size lines es
validate_chunk_table_block_iff bytes chunk_count size lines es bs hb hs hl = (
  validate_sound bytes chunk_count size lines es bs hb hs hl,
  validate_complete bytes chunk_count size lines es hb hs hl,
)
