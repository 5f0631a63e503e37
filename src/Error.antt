-- ===== src/Error.antt =====
-- src/error.rs: the error type of the library, and its `Result`.
use Prim.Native.String.{String}
use qzt.Base.{ℕ, ◌!=◌, arith, ◌≡◌, refl, ap, Bool, true, false, Option, none, some}

-- The kinds of `std::io::ErrorKind` that the source names; `other` stands for the rest.
pub data ErrorKind : Type 0 where
  not_found permission_denied invalid_input unexpected_eof_kind write_zero other : ErrorKind

pub data QztError : Type 0 where
  invalid_magic unsupported_version invalid_header invalid_footer_trailer : QztError
  invalid_footer_payload non_canonical_cbor duplicate_cbor_key footer_checksum_mismatch : QztError
  final_file_size_mismatch container_id_mismatch metadata_checksum_mismatch : QztError
  metadata_invalid duplicate_document_id version_mismatch newline_mode_mismatch : QztError
  index_root_checksum_mismatch missing_required_block unknown_required_block : QztError
  document_not_found invalid_flags chunk_table_checksum_mismatch chunk_table_invalid : QztError
  chunk_count_mismatch chunk_size_mismatch physical_range_out_of_bounds : QztError
  logical_range_out_of_bounds invalid_utf8 invalid_utf8_boundary line_out_of_range : QztError
  missing_dictionary dictionary_checksum_mismatch compressed_chunk_checksum_mismatch : QztError
  uncompressed_chunk_checksum_mismatch zstd_encode_error zstd_decode_error : QztError
  container_corrupt resource_limit_exceeded range_overlap unexpected_eof : QztError
  non_empty_writer_sink writer_already_finished verified_checksum_mismatch : QztError
  benchmark_metrics_mismatch : QztError
  io : ErrorKind → QztError
  unsupported_index_mode : String → QztError

-- `panic` is no value of the Rust type: an index or a slice out of bounds stops the program.
pub data Result {ℓ} (A : Type ℓ) : Type ℓ where
  ok : A → Result A
  err : QztError → Result A
  panic : Result A

-- The `?` operator.
infixl 5 ◌>>=◌ ◌>>◌
abbrev pub ◌>>=◌ {ℓ κ} : {A : Type ℓ} {B : Type κ} → Result A → (A → Result B) → Result B
ok a >>= f = f a
err e >>= f = err e
panic >>= f = panic

abbrev pub ◌>>◌ {ℓ} : {B : Type ℓ} → Result (Unit {0}) → Result B → Result B
m >> k = m >>= λ _. k

-- `if test { return Err(e) }`
abbrev pub reject_if : Bool → QztError → Result (Unit {0})
reject_if true e = err e
reject_if false e = ok tt

-- `Option::ok_or`
abbrev pub ok_or {ℓ} : {A : Type ℓ} → Option A → QztError → Result A
ok_or none e = err e
ok_or (some a) e = ok a

-- An indexed read, `xs[i]`.
abbrev pub or_panic {ℓ} : {A : Type ℓ} → Option A → Result A
or_panic none = panic
or_panic (some a) = ok a

-- Inversion of a successful bind, for proofs where the parts stay shut.
pub >>=-eq-ok {ℓ κ} :
    {A : Type ℓ} {B : Type κ} {b : B} (run : Result A) (next : A → Result B)
    → (run >>= next) ≡ ok b
    → (a : A) × (run ≡ ok a) × (next a ≡ ok b)
>>=-eq-ok panic next h = cc
>>=-eq-ok (err e) next h = cc
>>=-eq-ok (ok a) next h = (a, refl, h)

pub reject_if_inv : (b : Bool) (e : QztError) {u : Unit {0}} → reject_if b e ≡ ok u → b ≡ false
reject_if_inv true e h = cc
reject_if_inv false e h = refl

pub reject_if-ne_inv : (a b : ℕ) (e : QztError) {u : Unit {0}} → reject_if (a != b) e ≡ ok u → a ≡ b
reject_if-ne_inv a b e h = ground arith

pub ok-injective {ℓ} : {A : Type ℓ} {a b : A} → ok a ≡ ok b → a ≡ b
ok-injective h = cc

pub ok-pair {ℓ κ} :
    {A : Type ℓ} {B : Type κ} {a c : A} {b d : B}
    → ◌≡◌ {A = Result (A × B)} (ok (a, b)) (ok (c, d))
    → (a ≡ c) × (b ≡ d)
ok-pair h = (ap (λ x. x.0) (ok-injective h), ap (λ x. x.1) (ok-injective h))
