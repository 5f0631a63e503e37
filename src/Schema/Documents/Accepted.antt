-- ===== src/Schema/Documents/Accepted.antt =====
-- The ids of a document index of src/schema.rs, and what `DocumentIndex::decode` accepts.
use qzt.Base.{ℕ, ◌≡◌, ◌≢◌, ◌↔◌, refl, sym, List, [], ◌∷◌, Bool, true, false, inl, inr}
use qzt.Base.{length, All, IsU64, Bool-cases}
use qzt.Error.{QztError, Result, ok, err, panic, >>=-eq-ok, ok-injective}
use qzt.Error.{container_corrupt, duplicate_document_id}
use qzt.Cbor.{CborValue, Entries, Values, no_values, one_value}
use qzt.Cbor.Schema.{contains}
use qzt.Cbor.Closed.{In, contains_iff}
use qzt.Schema.{as_map, required_map, required_text, required_u64, required_bstr, required_array}
use qzt.Schema.{required_checksum, reject_unknown_keys, decode_prologue}
use qzt.Schema.Accepted.{
  IsBlake3, required_u64-IsU64, required_bstr_len, required_checksum-IsBlake3,
}
use qzt.Schema.Words
use qzt.Schema.Documents.{
  DocumentEntry, DocumentIndex, check_unique, validate_unique_doc_ids, document_keys,
  build_document,
}
use qzt.Schema.Documents.{
  decode_document_entry, decode_documents, document_index_keys, map_error, decode,
}

abbrev pub DistinctDocuments : List DocumentEntry → Type 0
DistinctDocuments [] = Unit
DistinctDocuments (d ∷ ds) =
    All (λ (e : DocumentEntry). e.doc_id ≢ d.doc_id) ds × DistinctDocuments ds

pub record IsDocument (d : DocumentEntry) : Type 0 where
  pub hash_len : length d.doc_id_hash ≡ 16
  pub logical_offset_u64 : IsU64 d.logical_offset
  pub byte_length_u64 : IsU64 d.byte_length
  pub first_line_u64 : IsU64 d.first_line
  pub line_count_u64 : IsU64 d.line_count
  pub chunk_start_u64 : IsU64 d.chunk_start
  pub chunk_end_u64 : IsU64 d.chunk_end
  pub checksum_blake3 : IsBlake3 d.checksum

pub record IsDocumentIndex (index : DocumentIndex) : Type 0 where
  pub container_id_len : length index.container_id ≡ 16
  pub all_valid : All IsDocument index.documents
  pub distinct : DistinctDocuments index.documents

-- The ids that were seen before are those of no document to come.
abbrev NotIn : List (List ℕ) → List DocumentEntry → Type 0
NotIn seen ds = All (λ (d : DocumentEntry). ¬ In d.doc_id seen) ds

NotIn-cons :
    (id : List ℕ) (seen : List (List ℕ)) (ds : List DocumentEntry)
    → NotIn (id ∷ seen) ds ↔ (All (λ (e : DocumentEntry). e.doc_id ≢ id) ds × NotIn seen ds)
NotIn-cons id seen [] = (λ h. (tt, tt), λ h. tt)
NotIn-cons id seen (d ∷ ds) = (
  λ h.
      let (other, rest) = (NotIn-cons id seen ds).0 h.1 in
      ((λ same. h.0 (inl (sym same)), other), (λ within. h.0 (inr within), rest)),
  λ h. (
    λ within. elim within [ inl same ↦ h.0.0 (sym same) | inr later ↦ h.1.0 later ],
    (NotIn-cons id seen ds).1 (h.0.1, h.1.1),
  ),
)

check_unique_iff :
    (seen : List (List ℕ)) (ds : List DocumentEntry)
    → (check_unique seen ds ≡ ok tt) ↔ (NotIn seen ds × DistinctDocuments ds)
unfolding check_unique
check_unique_iff seen [] = (λ h. (tt, tt), λ h. refl)
check_unique_iff seen (d ∷ ds) = elim (Bool-cases (contains seen d.doc_id)) [
  | inl old ↦
      rw old (λ h. absurd (refused h), λ h. absurd (h.0.0 ((contains_iff seen d.doc_id).0 old)))
  | inr new ↦ rw new (
    λ h.
        let (fresh, distinct) = (check_unique_iff (d.doc_id ∷ seen) ds).0 h in
        let (other, rest) = (NotIn-cons d.doc_id seen ds).0 fresh in
        (
          (
            λ within. clash (contains seen d.doc_id) ((contains_iff seen d.doc_id).1 within) new,
            rest,
          ),
          (other, distinct),
        ),
    λ h.
        (check_unique_iff (d.doc_id ∷ seen) ds).1
          ((NotIn-cons d.doc_id seen ds).1 (h.1.0, h.0.1), h.1.1),
  )
]
  where
    refused : ◌≡◌ {A = Result (Unit {0})} (err duplicate_document_id) (ok tt) → ⊥
    refused k = cc

    clash : (b : Bool) → b ≡ true → b ≡ false → ⊥
    clash b p q = cc

All-not-In-nil : (ds : List DocumentEntry) → NotIn [] ds
All-not-In-nil [] = tt
All-not-In-nil (d ∷ ds) = (λ h. h, All-not-In-nil ds)

-- `validate_unique_doc_ids` accepts an index exactly when no two of its documents have the same id.
pub validate_unique_doc_ids_iff :
    (index : DocumentIndex)
    → (validate_unique_doc_ids index ≡ ok tt) ↔ DistinctDocuments index.documents
unfolding validate_unique_doc_ids
validate_unique_doc_ids_iff index = (
  λ h. ((check_unique_iff [] index.documents).0 h).1,
  λ h. (check_unique_iff [] index.documents).1 (All-not-In-nil index.documents, h),
)

build_document-IsDocument :
    (fields : Entries) (d : DocumentEntry) → build_document fields ≡ ok d → IsDocument d
unfolding build_document
build_document-IsDocument fields d h =
    let e = container_corrupt in
    let (id, _, h₁) = >>=-eq-ok (required_text fields Words.word_doc_id e) _ h in
    let (hash, c₂, h₂) = >>=-eq-ok (required_bstr 16 fields Words.word_doc_id_hash e) _ h₁ in
    let (offset, c₃, h₃) = >>=-eq-ok (required_u64 fields Words.word_logical_offset e) _ h₂ in
    let (size, c₄, h₄) = >>=-eq-ok (required_u64 fields Words.word_byte_length e) _ h₃ in
    let (line, c₅, h₅) = >>=-eq-ok (required_u64 fields Words.word_first_line e) _ h₄ in
    let (lines, c₆, h₆) = >>=-eq-ok (required_u64 fields Words.word_line_count e) _ h₅ in
    let (first, c₇, h₇) = >>=-eq-ok (required_u64 fields Words.word_chunk_start e) _ h₆ in
    let (last, c₈, h₈) = >>=-eq-ok (required_u64 fields Words.word_chunk_end e) _ h₇ in
    let (sum, c₉, h₉) = >>=-eq-ok (required_checksum fields Words.word_checksum e) _ h₈ in
    rw (← ok-injective h₉) (record {
      hash_len = required_bstr_len 16 fields Words.word_doc_id_hash e hash c₂;
      logical_offset_u64 = required_u64-IsU64 fields Words.word_logical_offset e offset c₃;
      byte_length_u64 = required_u64-IsU64 fields Words.word_byte_length e size c₄;
      first_line_u64 = required_u64-IsU64 fields Words.word_first_line e line c₅;
      line_count_u64 = required_u64-IsU64 fields Words.word_line_count e lines c₆;
      chunk_start_u64 = required_u64-IsU64 fields Words.word_chunk_start e first c₇;
      chunk_end_u64 = required_u64-IsU64 fields Words.word_chunk_end e last c₈;
      checksum_blake3 = required_checksum-IsBlake3 fields Words.word_checksum e sum c₉;
    })

decode_document_entry-IsDocument :
    (value : CborValue) (d : DocumentEntry) → decode_document_entry value ≡ ok d → IsDocument d
unfolding decode_document_entry
decode_document_entry-IsDocument value d h =
    let e = container_corrupt in
    let (fields, _, h₁) = >>=-eq-ok (as_map value e) _ h in
    let (_, _, h₂) = >>=-eq-ok (reject_unknown_keys fields document_keys e) _ h₁ in
    let (_, _, h₃) = >>=-eq-ok (required_map fields Words.word_metadata e) _ h₂ in
    build_document-IsDocument fields d h₃

decode_documents-All :
    (values : Values) (ds : List DocumentEntry)
    → decode_documents values ≡ ok ds
    → All IsDocument ds
unfolding decode_documents
decode_documents-All no_values ds h = rw (← ok-injective h) tt
decode_documents-All (one_value value values) ds h =
    let (d, c₁, h₁) = >>=-eq-ok (decode_document_entry value) _ h in
    let (more, c₂, h₂) = >>=-eq-ok (decode_documents values) _ h₁ in
    rw (← ok-injective h₂)
      (decode_document_entry-IsDocument value d c₁, decode_documents-All values more c₂)

map_error_inv :
    (r : Result (Unit {0})) (e : QztError) {u : Unit {0}} → map_error r e ≡ ok u → r ≡ ok tt
unfolding map_error
map_error_inv (ok u) e h = refl
map_error_inv (err x) e h = cc
map_error_inv panic e h = cc

-- A document index that `DocumentIndex::decode` returns has a container id of 16 bytes, documents with
-- hashes of 16 bytes, u64 offsets, lengths, lines and chunks and named blake3 digests of 32 bytes, and
-- no two documents with the same id.
pub decode-IsDocumentIndex :
    (input : List ℕ) (index : DocumentIndex) → decode input ≡ ok index → IsDocumentIndex index
unfolding decode
decode-IsDocumentIndex input index h =
    let e = container_corrupt in
    let prologue = decode_prologue input document_index_keys Words.schema_document_index e in
    let (fields, _, h₁) = >>=-eq-ok prologue _ h in
    let (values, _, h₂) = >>=-eq-ok (required_array fields Words.word_documents e) _ h₁ in
    let (ds, c₃, h₃) = >>=-eq-ok (decode_documents values) _ h₂ in
    let (id, c₄, h₄) = >>=-eq-ok (required_bstr 16 fields Words.word_container_id e) _ h₃ in
    let built : DocumentIndex = record { container_id = id; documents = ds } in
    let (_, c₅, h₅) = >>=-eq-ok (map_error (validate_unique_doc_ids built) e) _ h₄ in
    rw (← ok-injective h₅) (record {
      container_id_len = required_bstr_len 16 fields Words.word_container_id e id c₄;
      all_valid = decode_documents-All values ds c₃;
      distinct =
          (validate_unique_doc_ids_iff built).0
            (map_error_inv (validate_unique_doc_ids built) e c₅);
    })
