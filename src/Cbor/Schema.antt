-- ===== src/Cbor/Schema.antt =====
-- src/cbor.rs: the check of a text-keyed map against a closed schema.
use qzt.Base.{ℕ, List, [], ◌∷◌, Bool, false, ◌||◌, not, ◌&&◌, bytes_eq}
use qzt.Error.{Result, ok, err, reject_if, ◌>>=◌, ◌>>◌, metadata_invalid}
use qzt.Limits.{CborLimits}
use qzt.Cbor.{CborValue, text, map}
use qzt.Cbor.{Entries, no_entries, one_entry}
use qzt.Cbor.Parser.{validate_deterministic_with_limits, default_cbor_limits}

pub record TextKeySchema : Type 0 where
  pub required : List (List ℕ)
  pub optional : List (List ℕ)
  pub allow_unknown : Bool

-- `value == &CborValue::Text(key)`
unfoldable pub is_text : CborValue → List ℕ → Bool
is_text (text payload) key = bytes_eq payload key
is_text _ key = false

-- `entries.iter().any(..)`
unfoldable pub has_key : Entries → List ℕ → Bool
has_key no_entries key = false
has_key (one_entry k v es) key = is_text k key || has_key es key

-- `schema.required.contains(..)`
unfoldable pub contains : List (List ℕ) → List ℕ → Bool
contains [] key = false
contains (k ∷ ks) key = bytes_eq k key || contains ks key

unfoldable pub check_required : List (List ℕ) → Entries → Result (Unit {0})
check_required [] fields = ok tt
check_required (required ∷ more) fields = do
  reject_if (not (has_key fields required)) metadata_invalid
  check_required more fields

unfoldable pub check_known : TextKeySchema → CborValue → Result (Unit {0})
check_known schema (text key) =
    reject_if
      (not (contains schema.required key || contains schema.optional key)
        && not schema.allow_unknown)
      metadata_invalid
check_known schema _ = err metadata_invalid

unfoldable pub check_keys : TextKeySchema → Entries → Result (Unit {0})
check_keys schema no_entries = ok tt
check_keys schema (one_entry k v es) = do check_known schema k; check_keys schema es

unfoldable pub check_schema : TextKeySchema → CborValue → Result CborValue
check_schema schema (map entries) = do
  check_required schema.required entries
  check_keys schema entries
  ok (map entries)
check_schema schema _ = err metadata_invalid

unfoldable pub validate_text_key_schema_with_limits :
    List ℕ → TextKeySchema → CborLimits → Result CborValue
validate_text_key_schema_with_limits input schema limits = do
  v ← validate_deterministic_with_limits input limits
  check_schema schema v

unfoldable pub validate_text_key_schema : List ℕ → TextKeySchema → Result CborValue
validate_text_key_schema input schema =
    validate_text_key_schema_with_limits input schema default_cbor_limits
