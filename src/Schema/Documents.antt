-- ===== src/Schema/Documents.antt =====
-- src/schema.rs: `DocumentIndex` and `DocumentEntry`. The digest is that of the third-party blake3.
pub mod Budget
pub mod Accepted
use qzt.Base.{ℕ, List, [], ◌∷◌, Bool, ◌-◌, ltb, length, replicate, take, checked_add, checked_mul}
use qzt.Error.{QztError, Result, ok, err, panic, ok_or, reject_if, ◌>>=◌, ◌>>◌, container_corrupt}
use qzt.Error.{resource_limit_exceeded, duplicate_document_id}
use qzt.Primitives.{usize_to_u64}
use qzt.Limits.{ResourceLimits, cbor_limits}
use qzt.Cbor.{CborValue, text, bytes, array, map, Entries, no_entries, one_entry}
use qzt.Cbor.{Values, no_values, one_value, encode_deterministic}
use qzt.Cbor.Usage.{CborUsage, add_usage, enforce_usage, head_len, measure_value}
use qzt.Cbor.Schema.{contains}
use qzt.Schema.{Checksum, checksum_value, u64_value, version_value, as_map, required_map}
use qzt.Schema.{required_text, required_u64, required_bstr, required_array, required_checksum}
use qzt.Schema.{reject_unknown_keys, decode_prologue}
use qzt.Schema.Dictionary.{digest}
use qzt.Schema.Words

pub record DocumentEntry : Type 0 where
  pub doc_id : List ℕ
  pub doc_id_hash : List ℕ
  pub logical_offset : ℕ
  pub byte_length : ℕ
  pub first_line : ℕ
  pub line_count : ℕ
  pub chunk_start : ℕ
  pub chunk_end : ℕ
  pub checksum : Checksum

pub record DocumentIndex : Type 0 where
  pub container_id : List ℕ
  pub documents : List DocumentEntry

-- `DocumentEntry::new`
unfoldable pub new_document :
    (List ℕ → List ℕ) → List ℕ → ℕ → ℕ → ℕ → ℕ → ℕ → ℕ → Checksum → DocumentEntry
new_document blake3 id logical_offset byte_length first_line line_count chunk_start chunk_end sum =
    record {
      doc_id = id;
      doc_id_hash = take 16 (blake3 id);
      logical_offset = logical_offset;
      byte_length = byte_length;
      first_line = first_line;
      line_count = line_count;
      chunk_start = chunk_start;
      chunk_end = chunk_end;
      checksum = sum;
    }

unfoldable pub document_entry_value : DocumentEntry → CborValue
document_entry_value entry = map (
    one_entry (text Words.word_doc_id) (text entry.doc_id) (
      one_entry (text Words.word_doc_id_hash) (bytes entry.doc_id_hash) (
        one_entry (text Words.word_logical_offset) (u64_value entry.logical_offset) (
          one_entry (text Words.word_byte_length) (u64_value entry.byte_length) (
            one_entry (text Words.word_first_line) (u64_value entry.first_line) (
              one_entry (text Words.word_line_count) (u64_value entry.line_count) (
                one_entry (text Words.word_chunk_start) (u64_value entry.chunk_start) (
                  one_entry (text Words.word_chunk_end) (u64_value entry.chunk_end) (
                    one_entry (text Words.word_checksum) (checksum_value entry.checksum)
                      (one_entry (text Words.word_metadata) (map no_entries) no_entries))))))))))

-- `documents.iter().map(document_entry_value)`
unfoldable pub document_values : List DocumentEntry → Values
document_values [] = no_values
document_values (entry ∷ more) = one_value (document_entry_value entry) (document_values more)

unfoldable pub value_with_documents : DocumentIndex → Values → CborValue
value_with_documents index documents = map (
    one_entry (text Words.word_schema) (text Words.schema_document_index) (
      one_entry (text Words.word_format_version) version_value (
        one_entry (text Words.word_container_id) (bytes index.container_id)
          (one_entry (text Words.word_documents) (array documents) no_entries))))

-- The loop of `preflight_document_ids` over the ids.
unfoldable pub charge_ids : List (List ℕ) → ℕ → ResourceLimits → Result (Unit {0})
charge_ids [] allocation limits = ok tt
charge_ids (id ∷ ids) allocation limits = do
  len ← usize_to_u64 (length id)
  allocation' ← ok_or (checked_add allocation len) resource_limit_exceeded
  reject_if (ltb limits.max_cbor_allocation allocation') resource_limit_exceeded
  charge_ids ids allocation' limits

unfoldable pub preflight_document_ids :
    (List ℕ → List ℕ) → List (List ℕ) → ResourceLimits → Result (Unit {0})
unfolding new_document digest value_with_documents document_entry_value charge_ids
preflight_document_ids blake3 ids limits = do
  count ← usize_to_u64 (length ids)
  base ←
      measure_value
        (value_with_documents (record { container_id = replicate 16 0; documents = [] }) no_values)
  let sample = new_document blake3 [] 0 0 0 0 0 0 (digest blake3 [])
  per_document ← measure_value (document_entry_value sample)
  product ← ok_or (checked_mul per_document.items count) resource_limit_exceeded
  items ← ok_or (checked_add product base.items) resource_limit_exceeded
  reject_if (ltb limits.max_cbor_items items) resource_limit_exceeded
  fixed ← ok_or (checked_mul per_document.allocation count) resource_limit_exceeded
  allocation ← ok_or (checked_add fixed base.allocation) resource_limit_exceeded
  charge_ids ids allocation limits

-- The loop of `validate_for_writer`; `saturating_sub` is the subtraction of ℕ.
unfoldable pub charge_documents :
    List DocumentEntry → CborUsage → ResourceLimits → Result (Unit {0})
charge_documents [] usage limits = ok tt
charge_documents (document ∷ documents) usage limits = do
  len ← usize_to_u64 (length document.doc_id)
  reject_if (ltb (limits.max_cbor_allocation - usage.allocation) len) resource_limit_exceeded
  cost ← measure_value (document_entry_value document)
  usage' ← add_usage usage cost
  enforce_usage usage' (cbor_limits limits) limits.max_index_block_size
  charge_documents documents usage' limits

unfoldable pub validate_for_writer : DocumentIndex → ResourceLimits → Result (Unit {0})
unfolding charge_documents
validate_for_writer index limits = do
  count ← usize_to_u64 (length index.documents)
  reject_if (ltb limits.max_cbor_items count) resource_limit_exceeded
  usage ← measure_value (value_with_documents index no_values)
  encoded ←
      ok_or (checked_add usage.encoded_bytes (head_len count - head_len 0)) resource_limit_exceeded
  let usage' = record usage { encoded_bytes = encoded }
  enforce_usage usage' (cbor_limits limits) limits.max_index_block_size
  charge_documents index.documents usage' limits

-- `documents.iter().any(|document| !seen.insert(&document.doc_id))`
unfoldable pub check_unique : List (List ℕ) → List DocumentEntry → Result (Unit {0})
check_unique seen [] = ok tt
check_unique seen (document ∷ documents) = do
  reject_if (contains seen document.doc_id) duplicate_document_id
  check_unique (document.doc_id ∷ seen) documents

unfoldable pub validate_unique_doc_ids : DocumentIndex → Result (Unit {0})
unfolding check_unique
validate_unique_doc_ids index = check_unique [] index.documents

-- `DocumentIndex::encode`
unfoldable pub encode : DocumentIndex → Result (List ℕ)
unfolding document_values
encode index = do
  validate_unique_doc_ids index
  encode_deterministic (value_with_documents index (document_values index.documents))

abbrev pub document_keys : List (List ℕ)
document_keys =
    Words.word_doc_id ∷ Words.word_doc_id_hash ∷ Words.word_logical_offset ∷ Words.word_byte_length
    ∷ Words.word_first_line ∷ Words.word_line_count ∷ Words.word_chunk_start ∷ Words.word_chunk_end
    ∷ Words.word_checksum ∷ Words.word_metadata ∷ []

-- The record at the end of `decode_document_entry`.
unfoldable pub build_document : Entries → Result DocumentEntry
build_document fields = do
  doc_id ← required_text fields Words.word_doc_id container_corrupt
  hash ← required_bstr 16 fields Words.word_doc_id_hash container_corrupt
  logical_offset ← required_u64 fields Words.word_logical_offset container_corrupt
  byte_length ← required_u64 fields Words.word_byte_length container_corrupt
  first_line ← required_u64 fields Words.word_first_line container_corrupt
  line_count ← required_u64 fields Words.word_line_count container_corrupt
  chunk_start ← required_u64 fields Words.word_chunk_start container_corrupt
  chunk_end ← required_u64 fields Words.word_chunk_end container_corrupt
  checksum ← required_checksum fields Words.word_checksum container_corrupt
  ok (record {
    doc_id = doc_id;
    doc_id_hash = hash;
    logical_offset = logical_offset;
    byte_length = byte_length;
    first_line = first_line;
    line_count = line_count;
    chunk_start = chunk_start;
    chunk_end = chunk_end;
    checksum = checksum;
  })

unfoldable pub decode_document_entry : CborValue → Result DocumentEntry
unfolding build_document
decode_document_entry value = do
  fields ← as_map value container_corrupt
  reject_unknown_keys fields document_keys container_corrupt
  metadata ← required_map fields Words.word_metadata container_corrupt
  build_document fields

unfoldable pub decode_documents : Values → Result (List DocumentEntry)
decode_documents no_values = ok []
decode_documents (one_value value values) = do
  document ← decode_document_entry value
  documents ← decode_documents values
  ok (document ∷ documents)

abbrev pub document_index_keys : List (List ℕ)
document_index_keys =
    Words.word_schema ∷ Words.word_format_version ∷ Words.word_container_id ∷ Words.word_documents
    ∷ []

-- `.map_err(|_| error)`
unfoldable pub map_error : Result (Unit {0}) → QztError → Result (Unit {0})
map_error (ok u) error = ok u
map_error (err e) error = err error
map_error panic error = panic

-- `DocumentIndex::decode`
unfoldable pub decode : List ℕ → Result DocumentIndex
unfolding decode_documents map_error
decode input = do
  fields ← decode_prologue input document_index_keys Words.schema_document_index container_corrupt
  values ← required_array fields Words.word_documents container_corrupt
  documents ← decode_documents values
  container_id ← required_bstr 16 fields Words.word_container_id container_corrupt
  let index : DocumentIndex = record { container_id = container_id; documents = documents }
  map_error (validate_unique_doc_ids index) container_corrupt
  ok index
