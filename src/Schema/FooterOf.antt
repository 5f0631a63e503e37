-- ===== src/Schema/FooterOf.antt =====
-- What a footer payload that `FooterPayload::decode` of src/schema.rs returns says of its input.
use qzt.Base.{ℕ, ◌≡◌, List, ◌!=◌, pos, ap, ◌∙◌}
use qzt.Error.{ok, reject_if, >>=-eq-ok, ok-injective, invalid_footer_payload, invalid_flags}
use qzt.Cbor.{integer, bytes, text, map, Entries}
use qzt.Cbor.Closed.{AllKeys}
use qzt.Cbor.Parser.{validate_deterministic}
use qzt.Schema.{required_u64, required_bstr, required_block_ref, optional_checksum, version_value}
use qzt.Schema.{decode_prologue, as_map, reject_unknown_keys, expect_text_field}
use qzt.Schema.{expect_version_field}
use qzt.Schema.Words.{word_schema, word_format_version, word_container_id, word_index_root}
use qzt.Schema.Words.{word_metadata, word_final_file_size, word_footer_flags}
use qzt.Schema.Words.{word_container_checksum, schema_footer}
use qzt.Schema.Footer.{FooterPayload, decode_fields, decode, footer_keys}
use qzt.Schema.Accepted.{IsFooterPayload, decode-IsFooterPayload}
use qzt.Schema.Typed.{as_map_inv}
use qzt.Schema.Holds.{Holds, IsWord, HoldsBlockRef, HoldsOptional}
use qzt.Schema.Holds.{required_u64-Holds, required_bstr-Holds, required_block_ref-HoldsBlockRef}
use qzt.Schema.Holds.{optional_checksum-HoldsOptional, expect_text_field-Holds}
use qzt.Schema.Holds.{expect_version_field-Holds, reject_unknown_keys-IsWord}

-- The fields of the payload are the values of the entries.
record AreFieldsOf (es : Entries) (p : FooterPayload) : Type 0 where
  its_container_id : Holds es word_container_id (bytes p.container_id)
  its_index_root : HoldsBlockRef es word_index_root p.index_root
  its_metadata : HoldsBlockRef es word_metadata p.metadata
  its_final_file_size : Holds es word_final_file_size (integer (pos p.final_file_size))
  its_footer_flags : Holds es word_footer_flags (integer (pos p.footer_flags))
  its_checksum : HoldsOptional es word_container_checksum p.container_checksum

-- The input is a map in the deterministic encoding, of known keys, with the schema and the version of
-- a footer and with the fields of the payload, which are in their bounds.
pub record IsFooterOf (input : List ℕ) (p : FooterPayload) : Type 0 where
  entries : Entries
  valid : validate_deterministic input ≡ ok (map entries)
  known : AllKeys (IsWord footer_keys) entries
  schema : Holds entries word_schema (text schema_footer)
  version : Holds entries word_format_version version_value
  fields : AreFieldsOf entries p
  bounds : IsFooterPayload p

decode_fields-AreFieldsOf :
    (es : Entries) (p : FooterPayload) → decode_fields es ≡ ok p → AreFieldsOf es p
unfolding decode_fields
decode_fields-AreFieldsOf es p h =
    let e = invalid_footer_payload in
    let (flags, c₁, h₁) = >>=-eq-ok (required_u64 es word_footer_flags e) _ h in
    let (_, c₂, h₂) = >>=-eq-ok (reject_if (flags != 0) invalid_flags) _ h₁ in
    let (container_id, c₃, h₃) = >>=-eq-ok (required_bstr 16 es word_container_id e) _ h₂ in
    let (root, c₄, h₄) = >>=-eq-ok (required_block_ref es word_index_root e) _ h₃ in
    let (metadata, c₅, h₅) = >>=-eq-ok (required_block_ref es word_metadata e) _ h₄ in
    let (size, c₆, h₆) = >>=-eq-ok (required_u64 es word_final_file_size e) _ h₅ in
    let (checksum, c₇, h₇) = >>=-eq-ok (optional_checksum es word_container_checksum e) _ h₆ in
    rw (← ok-injective h₇) (record {
      its_container_id = required_bstr-Holds es word_container_id e 16 container_id c₃;
      its_index_root = required_block_ref-HoldsBlockRef es word_index_root e root c₄;
      its_metadata = required_block_ref-HoldsBlockRef es word_metadata e metadata c₅;
      its_final_file_size = required_u64-Holds es word_final_file_size e size c₆;
      its_footer_flags = required_u64-Holds es word_footer_flags e flags c₁;
      its_checksum = optional_checksum-HoldsOptional es word_container_checksum e checksum c₇;
    })

-- The input of a footer payload that `FooterPayload::decode` returns is a map in the deterministic
-- encoding whose keys are known, with the schema and the version of a footer, and with entries of the
-- container id, the index root, the metadata, the final file size, the flags and the checksum, if
-- any, of the payload; each checksum in them is named blake3. The payload has no flags, a container
-- id of 16 bytes, a u64 file size, block references with u64 offsets and sizes, and checksums that are
-- named blake3 and have 32 bytes.
pub decode-IsFooterOf :
    (input : List ℕ) (p : FooterPayload) → decode input ≡ ok p → IsFooterOf input p
unfolding decode decode_prologue
decode-IsFooterOf input p h =
    let e = invalid_footer_payload in
    let (fields, c, h') = >>=-eq-ok (decode_prologue input footer_keys schema_footer e) _ h in
    let (v, c₁, h₁) = >>=-eq-ok (validate_deterministic input) _ c in
    let (es, c₂, h₂) = >>=-eq-ok (as_map v e) _ h₁ in
    let (_, c₃, h₃) = >>=-eq-ok (reject_unknown_keys es footer_keys e) _ h₂ in
    let (_, c₄, h₄) = >>=-eq-ok (expect_text_field es word_schema schema_footer e) _ h₃ in
    let (_, c₅, h₅) = >>=-eq-ok (expect_version_field es e) _ h₄ in
    let same : es ≡ fields = ok-injective h₅ in
    record {
      entries = es;
      valid = c₁ ∙ ap ok (as_map_inv v e es c₂);
      known = reject_unknown_keys-IsWord es footer_keys e c₃;
      schema = expect_text_field-Holds es word_schema e schema_footer c₄;
      version = expect_version_field-Holds es e c₅;
      fields = decode_fields-AreFieldsOf es p (rw (← same) at h');
      bounds = decode-IsFooterPayload input p h;
    }
