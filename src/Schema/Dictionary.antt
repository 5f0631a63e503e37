-- ===== src/Schema/Dictionary.antt =====
-- src/schema.rs: `DictionaryBlock` and `DictionaryEntry`. The digest is that of the third-party blake3.
pub mod Accepted
use qzt.Base.{ℕ, List, [], ◌∷◌, Bool, false, ◌||◌, ◌&&◌, ◌==◌, ltb, leb, not, length, ◌^◌, bytes_eq}
use qzt.Base.{if◌then◌else◌}
use qzt.Error.{QztError, Result, ok, err, reject_if, ◌>>=◌, ◌>>◌, container_corrupt}
use qzt.Error.{resource_limit_exceeded, dictionary_checksum_mismatch}
use qzt.Primitives.{usize_to_u64}
use qzt.Cbor.{CborValue, text, bytes, array, map, Entries, no_entries, one_entry}
use qzt.Cbor.{Values, no_values, one_value, encode_deterministic}
use qzt.Schema.{Checksum, from_raw_bytes, checksum_value, u64_value, version_value, as_map}
use qzt.Schema.{required_text, required_u64, required_bytes, required_bstr, required_array}
use qzt.Schema.{required_checksum, reject_unknown_keys, decode_prologue}
use qzt.Schema.IndexRoot.{checksum_eq}
use qzt.Schema.Words

pub record DictionaryEntry : Type 0 where
  pub dictionary_id : ℕ
  pub codec : List ℕ
  pub bytes : List ℕ
  pub checksum : Checksum

pub record DictionaryBlock : Type 0 where
  pub container_id : List ℕ
  pub dictionaries : List DictionaryEntry

unfoldable pub dictionary_entry_value : DictionaryEntry → CborValue
dictionary_entry_value entry = map (
    one_entry (text Words.word_dictionary_id) (u64_value entry.dictionary_id) (
      one_entry (text Words.word_codec) (text entry.codec) (
        one_entry (text Words.word_bytes) (CborValue.bytes entry.bytes)
          (one_entry (text Words.word_checksum) (checksum_value entry.checksum) no_entries))))

unfoldable pub dictionary_values : List DictionaryEntry → Values
unfolding dictionary_entry_value
dictionary_values [] = no_values
dictionary_values (entry ∷ more) = one_value (dictionary_entry_value entry) (dictionary_values more)

-- `DictionaryBlock::encode`
unfoldable pub encode : DictionaryBlock → Result (List ℕ)
unfolding dictionary_values
encode block = encode_deterministic (
    map (
      one_entry (text Words.word_schema) (text Words.schema_dictionary) (
        one_entry (text Words.word_format_version) version_value (
          one_entry (text Words.word_container_id) (CborValue.bytes block.container_id) (
            one_entry (text Words.word_dictionaries) (array (dictionary_values block.dictionaries))
              no_entries)))))

abbrev pub dictionary_keys : List (List ℕ)
dictionary_keys =
    Words.word_dictionary_id ∷ Words.word_codec ∷ Words.word_bytes ∷ Words.word_checksum ∷ []

abbrev pub dictionary_block_keys : List (List ℕ)
dictionary_block_keys =
    Words.word_schema ∷ Words.word_format_version ∷ Words.word_container_id
    ∷ Words.word_dictionaries ∷ []

-- `u32::try_from(value).map_err(|_| error)`
unfoldable pub u64_to_u32 : ℕ → QztError → Result ℕ
u64_to_u32 value error = if ltb value (2 ^ 32) then ok value else err error

-- `!seen.insert(entry.dictionary_id)`
unfoldable pub is_seen : List ℕ → ℕ → Bool
is_seen [] id = false
is_seen (other ∷ seen) id = other == id || is_seen seen id

module _ (blake3 : List ℕ → List ℕ) where
  -- `Checksum::blake3`
  unfoldable pub digest : List ℕ → Checksum
  digest input = from_raw_bytes (blake3 input)

  unfoldable pub decode_dictionary_entry : CborValue → ℕ → Result DictionaryEntry
  decode_dictionary_entry value max_dictionary_size = do
    fields ← as_map value container_corrupt
    reject_unknown_keys fields dictionary_keys container_corrupt
    wide ← required_u64 fields Words.word_dictionary_id container_corrupt
    id ← u64_to_u32 wide container_corrupt
    reject_if (id == 0) container_corrupt
    codec ← required_text fields Words.word_codec container_corrupt
    reject_if (not (bytes_eq codec Words.word_zstd)) container_corrupt
    payload ← required_bytes fields Words.word_bytes container_corrupt
    len ← usize_to_u64 (length payload)
    reject_if (ltb max_dictionary_size len) resource_limit_exceeded
    checksum ← required_checksum fields Words.word_checksum container_corrupt
    reject_if (not (checksum_eq (digest payload) checksum)) dictionary_checksum_mismatch
    ok (record { dictionary_id = id; codec = codec; bytes = payload; checksum = checksum })

  -- The loop of `decode_with_limits`, with the ids that it has seen.
  unfoldable pub decode_entries : ℕ → List ℕ → Values → Result (List DictionaryEntry)
  decode_entries max_dictionary_size seen no_values = ok []
  decode_entries max_dictionary_size seen (one_value value values) = do
    entry ← decode_dictionary_entry value max_dictionary_size
    reject_if (is_seen seen entry.dictionary_id) container_corrupt
    more ← decode_entries max_dictionary_size (entry.dictionary_id ∷ seen) values
    ok (entry ∷ more)

  unfoldable pub decode_with_limits : List ℕ → ℕ → Result DictionaryBlock
  decode_with_limits input max_dictionary_size = do
    fields ← decode_prologue input dictionary_block_keys Words.schema_dictionary container_corrupt
    values ← required_array fields Words.word_dictionaries container_corrupt
    decoded ← decode_entries max_dictionary_size [] values
    container_id ← required_bstr 16 fields Words.word_container_id container_corrupt
    ok (record { container_id = container_id; dictionaries = decoded })
