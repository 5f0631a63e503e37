-- ===== src/Schema.antt =====
-- src/schema.rs: the typed reads of a CBOR map, checksums and block references, and the footer
-- payload. The words are in Schema/Words.antt.
pub mod Words
pub mod Footer
pub mod Accepted
pub mod Typed
pub mod Holds
pub mod FooterOf
pub mod Metadata
pub mod IndexRoot
pub mod Dictionary
pub mod Documents
mod Runs
mod MetadataRuns
mod BlockRuns
use qzt.Base.{ℕ, List, [], ◌∷◌, Bool, true, false, Option, none, some, leb, ◌==◌, not, bytes_eq}
use qzt.Base.{if◌then◌else◌, length, u64_max, ℤ, pos, negsuc, ◌&&◌, ltb, ◌^◌}
use qzt.Error.{QztError, Result, ok, err, reject_if, ◌>>=◌, ◌>>◌}
use qzt.Cbor.{CborValue, integer, bytes, text, array, map, bool, null, Values, no_values, one_value}
use qzt.Cbor.{Entries, no_entries, one_entry}
use qzt.Cbor.Parser.{validate_deterministic}
use qzt.Cbor.Schema.{is_text, has_key, contains}
use qzt.Schema.Words.{
  word_algorithm, word_value, word_blake3, word_offset, word_size, word_checksum,
}
use qzt.Schema.Words.{word_schema, word_format_version}

pub record Checksum : Type 0 where
  pub algorithm : List ℕ
  pub value : List ℕ

pub record BlockRef : Type 0 where
  pub offset : ℕ
  pub size : ℕ
  pub checksum : Checksum

-- `Checksum::from_raw_bytes`
unfoldable pub from_raw_bytes : List ℕ → Checksum
from_raw_bytes value = record { algorithm = word_blake3; value = value }

unfoldable pub checksum_value : Checksum → CborValue
checksum_value checksum = map (
    one_entry (text word_algorithm) (text checksum.algorithm)
      (one_entry (text word_value) (bytes checksum.value) no_entries))

unfoldable pub u64_value : ℕ → CborValue
u64_value value = integer (pos value)

unfoldable pub version_value : CborValue
version_value = array (one_value (integer (pos 0)) (one_value (integer (pos 1)) no_values))

unfoldable pub block_ref_value : BlockRef → CborValue
block_ref_value block = map (
    one_entry (text word_offset) (u64_value block.offset) (
      one_entry (text word_size) (u64_value block.size)
        (one_entry (text word_checksum) (checksum_value block.checksum) no_entries)))

unfoldable pub as_map : CborValue → QztError → Result Entries
as_map (map fields) error = ok fields
as_map _ error = err error

-- The value of the first entry with the key.
unfoldable pub field : Entries → List ℕ → QztError → Result CborValue
field no_entries key error = err error
field (one_entry k v es) key error =
    let rest = field es key error in if is_text k key then ok v else rest

unfoldable pub required_map : Entries → List ℕ → QztError → Result Entries
required_map fields key error = do v ← field fields key error; as_map v error

unfoldable pub as_text : CborValue → QztError → Result (List ℕ)
as_text (text value) error = ok value
as_text _ error = err error

unfoldable pub required_text : Entries → List ℕ → QztError → Result (List ℕ)
required_text fields key error = do v ← field fields key error; as_text v error

unfoldable pub as_u64 : CborValue → QztError → QztError → Result ℕ
as_u64 (integer (pos n)) error overflow_error = if leb n u64_max then ok n else err overflow_error
as_u64 _ error overflow_error = err error

unfoldable pub required_u64_with_overflow : Entries → List ℕ → QztError → QztError → Result ℕ
required_u64_with_overflow fields key error overflow_error = do
  v ← field fields key error
  as_u64 v error overflow_error

unfoldable pub required_u64 : Entries → List ℕ → QztError → Result ℕ
required_u64 fields key error = required_u64_with_overflow fields key error error

-- `bytes.as_slice().try_into()` to an array of `n` bytes.
unfoldable pub as_bstr : ℕ → CborValue → QztError → Result (List ℕ)
as_bstr n (bytes value) error = if length value == n then ok value else err error
as_bstr n _ error = err error

unfoldable pub required_bstr : ℕ → Entries → List ℕ → QztError → Result (List ℕ)
required_bstr n fields key error = do v ← field fields key error; as_bstr n v error

unfoldable pub check_allowed : CborValue → List (List ℕ) → QztError → Result (Unit {0})
check_allowed (text key) allowed error = reject_if (not (contains allowed key)) error
check_allowed _ allowed error = err error

unfoldable pub reject_unknown_keys : Entries → List (List ℕ) → QztError → Result (Unit {0})
reject_unknown_keys no_entries allowed error = ok tt
reject_unknown_keys (one_entry k v es) allowed error = do
  check_allowed k allowed error
  reject_unknown_keys es allowed error

unfoldable pub required_checksum : Entries → List ℕ → QztError → Result Checksum
required_checksum fields key error = do
  checksum ← required_map fields key error
  reject_unknown_keys checksum (word_algorithm ∷ word_value ∷ []) error
  algorithm ← required_text checksum word_algorithm error
  reject_if (not (bytes_eq algorithm word_blake3)) error
  value ← required_bstr 32 checksum word_value error
  ok (from_raw_bytes value)

unfoldable pub optional_checksum : Entries → List ℕ → QztError → Result (Option Checksum)
optional_checksum fields key error =
    let present = do checksum ← required_checksum fields key error; ok (some checksum)
    in if has_key fields key then present else ok none

unfoldable pub required_block_ref : Entries → List ℕ → QztError → Result BlockRef
required_block_ref fields key error = do
  block ← required_map fields key error
  reject_unknown_keys block (word_offset ∷ word_size ∷ word_checksum ∷ []) error
  offset ← required_u64 block word_offset error
  size ← required_u64 block word_size error
  checksum ← required_checksum block word_checksum error
  ok (record { offset = offset; size = size; checksum = checksum })

unfoldable pub expect_text_field : Entries → List ℕ → List ℕ → QztError → Result (Unit {0})
expect_text_field fields key expected error = do
  value ← required_text fields key error
  reject_if (not (bytes_eq value expected)) error

unfoldable pub as_array : CborValue → QztError → Result Values
as_array (array values) error = ok values
as_array _ error = err error

unfoldable pub required_array : Entries → List ℕ → QztError → Result Values
required_array fields key error = do v ← field fields key error; as_array v error

unfoldable pub as_bool : CborValue → QztError → Result Bool
as_bool (bool value) error = ok value
as_bool _ error = err error

unfoldable pub required_bool : Entries → List ℕ → QztError → Result Bool
required_bool fields key error = do v ← field fields key error; as_bool v error

-- `i32::try_from(*value).map_err(|_| error)`
unfoldable pub as_i32 : CborValue → QztError → Result ℤ
as_i32 (integer (pos n)) error = if ltb n (2 ^ 31) then ok (pos n) else err error
as_i32 (integer (negsuc n)) error = if ltb n (2 ^ 31) then ok (negsuc n) else err error
as_i32 _ error = err error

unfoldable pub required_i32 : Entries → List ℕ → QztError → Result ℤ
required_i32 fields key error = do v ← field fields key error; as_i32 v error

unfoldable pub as_bytes : CborValue → QztError → Result (List ℕ)
as_bytes (bytes value) error = ok value
as_bytes _ error = err error

unfoldable pub required_bytes : Entries → List ℕ → QztError → Result (List ℕ)
required_bytes fields key error = do v ← field fields key error; as_bytes v error

unfoldable pub bool_eq : Bool → Bool → Bool
bool_eq true b = b
bool_eq false b = not b

unfoldable pub expect_bool_field : Entries → List ℕ → Bool → QztError → Result (Unit {0})
expect_bool_field fields key expected error = do
  value ← required_bool fields key error
  reject_if (not (bool_eq value expected)) error

-- `[CborValue::Integer(0), CborValue::Integer(1)]`
unfoldable pub is_version : CborValue → Bool
is_version (array (one_value (integer (pos major)) (one_value (integer (pos minor)) no_values))) =
    major == 0 && minor == 1
is_version _ = false

unfoldable pub expect_version_field : Entries → QztError → Result (Unit {0})
expect_version_field fields error = do
  v ← field fields word_format_version error
  reject_if (not (is_version v)) error

-- The map that `decode_prologue` has checked; its callers take the map of the value again.
unfoldable pub decode_prologue : List ℕ → List (List ℕ) → List ℕ → QztError → Result Entries
decode_prologue input allowed_keys expected_schema error = do
  v ← validate_deterministic input
  fields ← as_map v error
  reject_unknown_keys fields allowed_keys error
  expect_text_field fields word_schema expected_schema error
  expect_version_field fields error
  ok fields
