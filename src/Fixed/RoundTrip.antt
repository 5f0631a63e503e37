-- ===== src/Fixed/RoundTrip.antt =====
-- Decoding after encoding, for the fixed header and the fixed footer trailer of src/fixed.rs.
use qzt.Base.{ℕ, ◌≡◌, refl, List, ◌++◌, arith, append-nil}
use qzt.Base.{false, length, take, drop, replicate, to_le_bytes, IsU64}
use qzt.Base.{length-append, take-append, take_all, drop-append}
use qzt.Error.{ok}
use qzt.Format.{magic, trailer_magic}
use qzt.Primitives.{read_u64_le-to_le_bytes}
use qzt.Fixed.{Header, FooterTrailer, encode_header, decode_header, encode_trailer, decode_trailer}
use qzt.Fixed.{any_nonzero, decode_fixed_prologue}

pub record IsHeader (h : Header) : Type 0 where
  pub metadata_offset_u64 : IsU64 h.metadata_offset
  pub metadata_size_u64 : IsU64 h.metadata_size
  pub index_hint_offset_u64 : IsU64 h.index_hint_offset
  pub container_id_len : length h.container_id ≡ 16

pub record IsTrailer (t : FooterTrailer) : Type 0 where
  pub footer_payload_offset_u64 : IsU64 t.footer_payload_offset
  pub footer_payload_size_u64 : IsU64 t.footer_payload_size
  pub checksum_len : length t.footer_payload_checksum_blake3 ≡ 32

-- The bytes in front of the container id.
unfoldable pub header_front : Header → List ℕ
header_front h =
    magic
    ++ (to_le_bytes 2 0
        ++ (to_le_bytes 2 1
            ++ (to_le_bytes 4 128
                ++ (to_le_bytes 8 0
                    ++ (to_le_bytes 8 h.metadata_offset
                        ++ (to_le_bytes 8 h.metadata_size ++ to_le_bytes 8 h.index_hint_offset))))))

pub encode_header_layout :
    (h : Header)
    → IsHeader h
    → encode_header h ≡ header_front h ++ (h.container_id ++ replicate 64 0)
unfolding encode_header header_front
encode_header_layout h v = rw v.container_id_len refl

-- The decoder reads the fields in front of a tail that holds the container id and zeros.
decode_header_layout :
    (h : Header) (tail : List ℕ)
    → IsHeader h
    → length tail ≡ 80
    → take 16 tail ≡ h.container_id
    → any_nonzero (take 64 (drop 16 tail)) ≡ false
    → decode_header (header_front h ++ tail) ≡ ok h
unfolding decode_header decode_fixed_prologue header_front
decode_header_layout h tail v len id zeros = rw (
  len,
  read_u64_le-to_le_bytes 0 (omega arith),
  zeros,
  read_u64_le-to_le_bytes h.metadata_offset v.metadata_offset_u64,
  read_u64_le-to_le_bytes h.metadata_size v.metadata_size_u64,
  read_u64_le-to_le_bytes h.index_hint_offset v.index_hint_offset_u64,
  id,
  v.container_id_len,
)

-- A header whose offsets are u64 and whose container id has 16 bytes encodes to 128 bytes, and
-- decodes from them to itself.
pub decode_header-encode_header :
    (h : Header)
    → IsHeader h
    → (length (encode_header h) ≡ 128) × (decode_header (encode_header h) ≡ ok h)
decode_header-encode_header h v =
    let tail = h.container_id ++ replicate 64 0 in
    let len : length tail ≡ 80 =
      omega (arith, length-append h.container_id (replicate 64 0), v.container_id_len) in
    let id = take-append 16 h.container_id (replicate 64 0) v.container_id_len in
    let zeros : any_nonzero (take 64 (drop 16 tail)) ≡ false =
      rw (drop-append 16 h.container_id (replicate 64 0) v.container_id_len)
        (unfold any_nonzero in refl) in
    rw (encode_header_layout h v)
      (unfold header_front in omega (arith, len), decode_header_layout h tail v len id zeros)

-- The bytes of the trailer in front of its checksum.
unfoldable pub trailer_front : FooterTrailer → List ℕ
trailer_front t =
    trailer_magic
    ++ (to_le_bytes 2 0
        ++ (to_le_bytes 2 1
            ++ (to_le_bytes 4 64
                ++ (to_le_bytes 8 t.footer_payload_offset ++ to_le_bytes 8 t.footer_payload_size))))

pub encode_trailer_layout :
    (t : FooterTrailer)
    → IsTrailer t
    → encode_trailer t ≡ trailer_front t ++ t.footer_payload_checksum_blake3
unfolding encode_trailer trailer_front
encode_trailer_layout t v = rw (v.checksum_len, append-nil t.footer_payload_checksum_blake3)

decode_trailer_layout :
    (t : FooterTrailer) (tail : List ℕ)
    → IsTrailer t
    → length tail ≡ 32
    → take 32 tail ≡ t.footer_payload_checksum_blake3
    → decode_trailer (trailer_front t ++ tail) ≡ ok t
unfolding decode_trailer decode_fixed_prologue trailer_front
decode_trailer_layout t tail v len sum = rw (
  len,
  read_u64_le-to_le_bytes t.footer_payload_offset v.footer_payload_offset_u64,
  read_u64_le-to_le_bytes t.footer_payload_size v.footer_payload_size_u64,
  sum,
  v.checksum_len,
)

-- A trailer whose offset and size are u64 and whose checksum has 32 bytes encodes to 64 bytes, and
-- decodes from them to itself.
pub decode_trailer-encode_trailer :
    (t : FooterTrailer)
    → IsTrailer t
    → (length (encode_trailer t) ≡ 64) × (decode_trailer (encode_trailer t) ≡ ok t)
decode_trailer-encode_trailer t v =
    let sum = t.footer_payload_checksum_blake3 in
    let whole : take 32 sum ≡ sum = take_all 32 sum (omega (arith, v.checksum_len)) in
    rw (encode_trailer_layout t v) (
      unfold trailer_front in omega (arith, v.checksum_len),
      decode_trailer_layout t sum v v.checksum_len whole,
    )
