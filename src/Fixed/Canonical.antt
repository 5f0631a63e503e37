-- ===== src/Fixed/Canonical.antt =====
-- Encoding after decoding, for the fixed header and the fixed footer trailer of src/fixed.rs.
use qzt.Base.{ℕ, ◌≡◌, refl, ◌∙◌, sym, List, [], ◌∷◌, ◌++◌, arith, false}
use qzt.Base.{length, take, drop, slice, replicate, to_le_bytes, from_le_bytes, All, IsByte}
use qzt.Base.{
  glue, take_all, length-drop, length-slice, All-slice, to_le_bytes-from_le_bytes, ◌!=◌,
  bytes_eq→eq,
}
use qzt.Error.{
  >>=-eq-ok, reject_if, reject_if_inv, reject_if-ne_inv, invalid_flags, QztError, ok,
  invalid_header, invalid_magic,
}
use qzt.Error.{invalid_footer_trailer}
use qzt.Format.{magic, trailer_magic, header_len}
use qzt.Primitives.{read_u64_le, read_u64_le_inv}
use qzt.Fixed.RoundTrip.{IsHeader, IsTrailer, header_front, encode_header_layout}
use qzt.Fixed.RoundTrip.{trailer_front, encode_trailer_layout}
use qzt.Fixed.{Header, FooterTrailer, encode_header, decode_header, encode_trailer, decode_trailer}
use qzt.Fixed.{read_array, any_nonzero, decode_fixed_prologue}

prologue_inv :
    (bytes expected_magic : List ℕ) (expected_length : ℕ) (e₁ e₂ : QztError)
    → decode_fixed_prologue bytes expected_magic expected_length e₁ e₂ ≡ ok tt
    → (slice 0 8 bytes ≡ expected_magic)
      × (length (slice 8 10 bytes) ≡ 2)
      × (from_le_bytes (slice 8 10 bytes) ≡ 0)
      × (length (slice 10 12 bytes) ≡ 2)
      × (from_le_bytes (slice 10 12 bytes) ≡ 1)
      × (length (slice 12 16 bytes) ≡ 4)
      × (from_le_bytes (slice 12 16 bytes) ≡ expected_length)
unfolding decode_fixed_prologue
prologue_inv bytes expected_magic expected_length e₁ e₂ e =
    ground (arith, bytes_eq→eq (slice 0 8 bytes) expected_magic)

read_array_inv :
    (n : ℕ) (e : QztError) (bytes : List ℕ) {r : List ℕ} → read_array n e bytes ≡ ok r → bytes ≡ r
unfolding read_array
read_array_inv n e bytes h = ground arith

le_bytes_inv :
    (w v i j : ℕ) (bytes : List ℕ)
    → All IsByte bytes
    → length (slice i j bytes) ≡ w
    → from_le_bytes (slice i j bytes) ≡ v
    → slice i j bytes ≡ to_le_bytes w v
le_bytes_inv w v i j bytes bs len e =
    rw (← e)
      (sym (to_le_bytes-from_le_bytes w (slice i j bytes) len (All-slice IsByte i j bytes bs)))

prologue_bytes :
    (bytes expected_magic : List ℕ) (expected_length : ℕ) (e₁ e₂ : QztError)
    → All IsByte bytes
    → decode_fixed_prologue bytes expected_magic expected_length e₁ e₂ ≡ ok tt
    → (slice 0 8 bytes ≡ expected_magic)
      × (slice 8 10 bytes ≡ to_le_bytes 2 0)
      × (slice 10 12 bytes ≡ to_le_bytes 2 1)
      × (slice 12 16 bytes ≡ to_le_bytes 4 expected_length)
prologue_bytes bytes expected_magic expected_length e₁ e₂ bs e =
    let (m, l₁, v₁, l₂, v₂, l₃, v₃) = prologue_inv bytes expected_magic expected_length e₁ e₂ e in
    (
      m,
      le_bytes_inv 2 0 8 10 bytes bs l₁ v₁,
      le_bytes_inv 2 1 10 12 bytes bs l₂ v₂,
      le_bytes_inv 4 expected_length 12 16 bytes bs l₃ v₃,
    )

header_inv :
    (bytes : List ℕ) (h : Header)
    → decode_header bytes ≡ ok h
    → (length bytes ≡ 128)
      × (decode_fixed_prologue bytes magic header_len invalid_header invalid_magic ≡ ok tt)
      × (read_u64_le (slice 16 24 bytes) ≡ ok 0)
      × (any_nonzero (slice 64 128 bytes) ≡ false)
      × (read_u64_le (slice 24 32 bytes) ≡ ok h.metadata_offset)
      × (read_u64_le (slice 32 40 bytes) ≡ ok h.metadata_size)
      × (read_u64_le (slice 40 48 bytes) ≡ ok h.index_hint_offset)
      × (slice 48 64 bytes ≡ h.container_id)
unfolding decode_header
header_inv bytes h e =
    let (u₁, c₁, e₁) = >>=-eq-ok (reject_if (length bytes != 128) invalid_header) _ e in
    let (u₂, c₂, e₂) =
      >>=-eq-ok (decode_fixed_prologue bytes magic header_len invalid_header invalid_magic) _ e₁ in
    let (flags, c₃, e₃) = >>=-eq-ok (read_u64_le (slice 16 24 bytes)) _ e₂ in
    let (u₄, c₄, e₄) = >>=-eq-ok (reject_if (flags != 0) invalid_flags) _ e₃ in
    let (u₅, c₅, e₅) =
      >>=-eq-ok (reject_if (any_nonzero (slice 64 128 bytes)) invalid_header) _ e₄ in
    let (v₁, c₆, e₆) = >>=-eq-ok (read_u64_le (slice 24 32 bytes)) _ e₅ in
    let (v₂, c₇, e₇) = >>=-eq-ok (read_u64_le (slice 32 40 bytes)) _ e₆ in
    let (v₃, c₈, e₈) = >>=-eq-ok (read_u64_le (slice 40 48 bytes)) _ e₇ in
    let (v₄, c₉, e₉) = >>=-eq-ok (read_array 16 invalid_header (slice 48 64 bytes)) _ e₈ in
    let no_flags : flags ≡ 0 = reject_if-ne_inv flags 0 invalid_flags c₄ in
    (
      reject_if-ne_inv (length bytes) 128 invalid_header c₁,
      c₂,
      rw (← no_flags) c₃,
      reject_if_inv _ _ c₅,
      cc,
      cc,
      cc,
      cc (read_array_inv 16 _ _ c₉),
    )

any_nonzero_inv : (bytes : List ℕ) → any_nonzero bytes ≡ false → bytes ≡ replicate (length bytes) 0
unfolding any_nonzero
any_nonzero_inv [] h = refl
any_nonzero_inv (b ∷ bytes) h = ground (arith, any_nonzero_inv bytes)

-- The container id and the zeros behind it.
header_tail :
    (bytes : List ℕ) (h : Header)
    → length bytes ≡ 128
    → any_nonzero (slice 64 128 bytes) ≡ false
    → slice 48 64 bytes ≡ h.container_id
    → drop 48 bytes ≡ h.container_id ++ replicate 64 0
header_tail bytes h len z id =
    let n : length (drop 64 bytes) ≡ 64 = omega (arith, length-drop 64 bytes, len) in
    let all : take 64 (drop 64 bytes) ≡ drop 64 bytes = take_all 64 (drop 64 bytes) (omega arith) in
    let zeros = any_nonzero_inv (drop 64 bytes) (rw all at z) in
    glue 48 64 bytes (omega arith) id (rw n at zeros)

-- A decoded header has fields of its widths, and encodes to the very bytes it was decoded from.
pub decode_header_canonical :
    (bytes : List ℕ) (h : Header)
    → All IsByte bytes
    → decode_header bytes ≡ ok h
    → IsHeader h × (encode_header h ≡ bytes)
decode_header_canonical bytes h bs e =
    let (len, p, f, z, r₁, r₂, r₃, id) = header_inv bytes h e in
    let (m, v₁, v₂, l) = prologue_bytes bytes magic 128 invalid_header invalid_magic bs p in
    let b = λ (i j : ℕ). All-slice IsByte i j bytes bs in
    let (u₁, s₁) = read_u64_le_inv (slice 24 32 bytes) h.metadata_offset (b 24 32) r₁ in
    let (u₂, s₂) = read_u64_le_inv (slice 32 40 bytes) h.metadata_size (b 32 40) r₂ in
    let (u₃, s₃) = read_u64_le_inv (slice 40 48 bytes) h.index_hint_offset (b 40 48) r₃ in
    let (u₄, s₄) = read_u64_le_inv (slice 16 24 bytes) 0 (b 16 24) f in
    let back =
      glue 32 40 bytes (omega arith) s₂
        (glue 40 48 bytes (omega arith) s₃ (header_tail bytes h len z id)) in
    let middle = glue 16 24 bytes (omega arith) s₄ (glue 24 32 bytes (omega arith) s₁ back) in
    let front = glue 10 12 bytes (omega arith) v₂ (glue 12 16 bytes (omega arith) l middle) in
    let whole = glue 0 8 bytes (omega arith) m (glue 8 10 bytes (omega arith) v₁ front) in
    let id_len : length h.container_id ≡ 16 =
      rw (← id) (length-slice 48 64 bytes (omega (arith, len))) in
    let valid : IsHeader h = record {
      metadata_offset_u64 = u₁;
      metadata_size_u64 = u₂;
      index_hint_offset_u64 = u₃;
      container_id_len = id_len;
    } in
    (valid, encode_header_layout h valid ∙ unfold header_front in sym whole)

trailer_inv :
    (bytes : List ℕ) (t : FooterTrailer)
    → decode_trailer bytes ≡ ok t
    → (length bytes ≡ 64)
      × (decode_fixed_prologue bytes trailer_magic 64 invalid_footer_trailer invalid_footer_trailer
          ≡ ok tt)
      × (read_u64_le (slice 16 24 bytes) ≡ ok t.footer_payload_offset)
      × (read_u64_le (slice 24 32 bytes) ≡ ok t.footer_payload_size)
      × (slice 32 64 bytes ≡ t.footer_payload_checksum_blake3)
unfolding decode_trailer
trailer_inv bytes t e =
    let (u₁, c₁, e₁) = >>=-eq-ok (reject_if (length bytes != 64) invalid_footer_trailer) _ e in
    let (u₂, c₂, e₂) =
      >>=-eq-ok
        (decode_fixed_prologue bytes trailer_magic 64 invalid_footer_trailer invalid_footer_trailer)
        _ e₁ in
    let (v₁, c₃, e₃) = >>=-eq-ok (read_u64_le (slice 16 24 bytes)) _ e₂ in
    let (v₂, c₄, e₄) = >>=-eq-ok (read_u64_le (slice 24 32 bytes)) _ e₃ in
    let (v₃, c₅, e₅) = >>=-eq-ok (read_array 32 invalid_footer_trailer (slice 32 64 bytes)) _ e₄ in
    (
      reject_if-ne_inv (length bytes) 64 invalid_footer_trailer c₁,
      c₂,
      cc,
      cc,
      cc (read_array_inv 32 _ _ c₅),
    )

-- A decoded trailer has fields of its widths, and encodes to the very bytes it was decoded from.
pub decode_trailer_canonical :
    (bytes : List ℕ) (t : FooterTrailer)
    → All IsByte bytes
    → decode_trailer bytes ≡ ok t
    → IsTrailer t × (encode_trailer t ≡ bytes)
decode_trailer_canonical bytes t bs e =
    let (len, p, r₁, r₂, sum) = trailer_inv bytes t e in
    let (m, v₁, v₂, l) =
      prologue_bytes bytes trailer_magic 64 invalid_footer_trailer invalid_footer_trailer bs p in
    let b = λ (i j : ℕ). All-slice IsByte i j bytes bs in
    let (u₁, s₁) = read_u64_le_inv (slice 16 24 bytes) t.footer_payload_offset (b 16 24) r₁ in
    let (u₂, s₂) = read_u64_le_inv (slice 24 32 bytes) t.footer_payload_size (b 24 32) r₂ in
    let tail : drop 32 bytes ≡ t.footer_payload_checksum_blake3 =
      sym (take_all 32 (drop 32 bytes) (omega (arith, length-drop 32 bytes, len))) ∙ sum in
    let back = glue 16 24 bytes (omega arith) s₁ (glue 24 32 bytes (omega arith) s₂ tail) in
    let front = glue 10 12 bytes (omega arith) v₂ (glue 12 16 bytes (omega arith) l back) in
    let whole = glue 0 8 bytes (omega arith) m (glue 8 10 bytes (omega arith) v₁ front) in
    let valid : IsTrailer t = record {
      footer_payload_offset_u64 = u₁;
      footer_payload_size_u64 = u₂;
      checksum_len = rw (← sum) (length-slice 32 64 bytes (omega (arith, len)));
    } in
    (valid, encode_trailer_layout t valid ∙ unfold trailer_front in sym whole)
