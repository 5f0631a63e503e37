-- ===== src/Cbor/Runs.antt =====
-- Runs of the CBOR parser and encoder at concrete values.
use qzt.Base.{ℕ, List, [], ◌∷◌, ◌≡◌, refl, are_bytes→All, pos, negsuc, true, false, ◌↔◌}
use qzt.Base.Utf8.{is_utf8}
use qzt.Error.{ok, err, non_canonical_cbor, duplicate_cbor_key}
use qzt.Primitives.{usize_to_u64, u64_to_usize}
use qzt.Cbor.{CborValue, integer, text, array, map, bool, no_values, one_value, no_entries}
use qzt.Cbor.{one_entry, compare_bytes, encode_deterministic}
use qzt.Cbor.Parser.{
  validate_deterministic_with_limits, default_cbor_limits, parse_value, parse_major,
}
use qzt.Cbor.Parser.{read_u8, read_exact, read_argument, read_len, consume_allocation, parse_text}
use qzt.Cbor.Parser.{parse_payload, parse_array, parse_values, parse_map, parse_entries, check_key}
use qzt.Cbor.Parser.{parse_simple, parse_unsigned, parse_negative, read_wide}
use qzt.Cbor.Schema.{TextKeySchema, validate_text_key_schema_with_limits}
use qzt.Cbor.Closed.{Satisfies, validate_text_key_schema_iff}
use qzt.Cbor.Canonical.{validate_deterministic_canonical}

-- {"a": [1, -500], "b": true}
abbrev document : List ℕ
document = 0xa2 ∷ 0x61 ∷ b'a' ∷ 0x82 ∷ 0x01 ∷ 0x39 ∷ 0x01 ∷ 0xf3 ∷ 0x61 ∷ b'b' ∷ 0xf5 ∷ []

abbrev document_value : CborValue
document_value = map (
    one_entry (text (b'a' ∷ []))
      (array (one_value (integer (pos 1)) (one_value (integer (negsuc 499)) no_values)))
      (one_entry (text (b'b' ∷ [])) (bool true) no_entries))

document_parses :
    validate_deterministic_with_limits document default_cbor_limits ≡ ok document_value
unfolding validate_deterministic_with_limits parse_value parse_major read_u8 read_exact
    read_argument read_len consume_allocation parse_text parse_payload parse_array parse_values
    parse_map parse_entries check_key parse_simple parse_unsigned parse_negative read_wide
    compare_bytes is_utf8 usize_to_u64 u64_to_usize
document_parses = refl

-- 5 in two bytes.
padded_fails :
    validate_deterministic_with_limits (0x18 ∷ 0x05 ∷ []) default_cbor_limits
    ≡ err non_canonical_cbor
unfolding validate_deterministic_with_limits parse_value parse_major read_u8 read_argument
    parse_unsigned
padded_fails = refl

-- {"a": true, "a": true}
repeated_key_fails :
    validate_deterministic_with_limits
      (0xa2 ∷ 0x61 ∷ b'a' ∷ 0xf5 ∷ 0x61 ∷ b'a' ∷ 0xf5 ∷ [])
      default_cbor_limits
    ≡ err duplicate_cbor_key
unfolding validate_deterministic_with_limits parse_value parse_major read_u8 read_exact
    read_argument read_len consume_allocation parse_text parse_payload parse_map parse_entries
    check_key parse_simple compare_bytes is_utf8 usize_to_u64 u64_to_usize
repeated_key_fails = refl

validate_deterministic_canonical_example : encode_deterministic document_value ≡ ok document
validate_deterministic_canonical_example =
    validate_deterministic_canonical document default_cbor_limits document_value
      (are_bytes→All document refl) document_parses

-- Requires "a" and knows "b".
abbrev schema : TextKeySchema
schema = record { required = (b'a' ∷ []) ∷ []; optional = (b'b' ∷ []) ∷ []; allow_unknown = false }

validate_text_key_schema_iff_example :
    (validate_text_key_schema_with_limits document schema default_cbor_limits ≡ ok document_value)
    ↔ ((validate_deterministic_with_limits document default_cbor_limits ≡ ok document_value)
        × Satisfies schema document_value)
validate_text_key_schema_iff_example =
    validate_text_key_schema_iff document schema default_cbor_limits document_value
