-- ===== src/Reader/Verify.antt =====
-- src/reader.rs: deep verification of a container.
pub mod Checked
pub mod Lines
mod Runs
use Prim.Native.Nat.{max}
use qzt.Base.{ℕ, List, [], ◌∷◌, ◌++◌, Bool, true, false, Option, none, some, ◌+◌, ◌-◌, ◌==◌, ◌!=◌}
use qzt.Base.{ltb, leb, not, length, take, bytes_eq, checked_add, if◌then◌else◌, get_elem?, min}
use qzt.Base.{◌&&◌, ◌||◌, u64_max}
use qzt.Base.Utf8.{is_utf8}
use qzt.Error.{Result, ok, err, ok_or, reject_if, ◌>>=◌, ◌>>◌}
use qzt.Error.{chunk_table_invalid, invalid_utf8, resource_limit_exceeded, container_corrupt}
use qzt.Error.{chunk_size_mismatch, uncompressed_chunk_checksum_mismatch, newline_mode_mismatch}
use qzt.Error.{logical_range_out_of_bounds, line_out_of_range}
use qzt.Primitives.{checked_logical_end, u64_to_usize, usize_to_u64}
use qzt.ChunkTable.{ChunkEntry, chunk_index_for_logical_offset, starts_with_line_continuation}
use qzt.Chunker.{NewlineMode, from_counts}
use qzt.Schema.{Checksum, from_raw_bytes}
use qzt.Schema.Words
use qzt.Schema.IndexRoot.{checksum_eq}
use qzt.Schema.Dictionary.{digest}
use qzt.Schema.Documents.{DocumentEntry, DocumentIndex}
use qzt.DenseLineIndex.{DenseLineIndex, verify_chunk}
use qzt.Io.{get_range}
use qzt.Skeleton.{SkeletonDetails}
use qzt.Reader.Lines.{lf, local_line_starts}

abbrev pub cr : ℕ
cr = b'\r'

-- `NewlineMode::as_str`
unfoldable pub newline_word : NewlineMode → List ℕ
newline_word NewlineMode.no_newline = Words.word_none
newline_word NewlineMode.lf = Words.word_lf
newline_word NewlineMode.crlf = Words.word_crlf
newline_word NewlineMode.mixed = Words.word_mixed

-- `StreamingTextAnalysis`
pub record TextAnalysis : Type 0 where
  pub line_starts_seen : ℕ
  pub lf_count : ℕ
  pub crlf_count : ℕ
  pub previous_byte : Option ℕ

-- `previous_byte == Some(byte)`
unfoldable pub is_byte : Option ℕ → ℕ → Bool
is_byte none byte = false
is_byte (some previous) byte = previous == byte

-- A count that is raised on a condition.
abbrev pub count_if : Bool → ℕ → Result ℕ
count_if true count = ok_or (checked_add count 1) resource_limit_exceeded
count_if false count = ok count

-- The loop of `StreamingTextAnalysis::update`.
unfoldable pub scan_bytes : TextAnalysis → List ℕ → Result TextAnalysis
scan_bytes text [] = ok text
scan_bytes text (byte ∷ bytes) = do
  let after_cr = is_byte text.previous_byte cr
  lf_count ← count_if ((byte == lf) && not after_cr) text.lf_count
  crlf_count ← count_if ((byte == lf) && after_cr) text.crlf_count
  let text' : TextAnalysis = record {
    line_starts_seen = text.line_starts_seen;
    lf_count = lf_count;
    crlf_count = crlf_count;
    previous_byte = some byte;
  }
  scan_bytes text' bytes

-- `StreamingTextAnalysis::update`
unfoldable pub update_text : TextAnalysis → List ℕ → ℕ → Result TextAnalysis
update_text text decoded flags = do
  count ← usize_to_u64 (length (local_line_starts decoded flags))
  seen ← ok_or (checked_add text.line_starts_seen count) resource_limit_exceeded
  let text' : TextAnalysis = record {
    line_starts_seen = seen;
    lf_count = text.lf_count;
    crlf_count = text.crlf_count;
    previous_byte = text.previous_byte;
  }
  scan_bytes text' decoded

-- A pending document, and an active one with the bytes that its hasher has been fed.
pub record PendingDocument : Type 0 where
  pub index : ℕ
  pub start : ℕ
  pub end : ℕ

pub record ActiveDocument : Type 0 where
  pub index : ℕ
  pub start : ℕ
  pub end : ℕ
  pub fed : List ℕ

-- `DocumentHasher`: `pending` is `pending[next..]`, and `results` has the last insertion first.
pub record DocumentHasher : Type 0 where
  pub pending : List PendingDocument
  pub active : List ActiveDocument
  pub results : List (ℕ × List ℕ)

-- `a.start.cmp(&b.start).then(a.index.cmp(&b.index))` is not `Greater`.
unfoldable pub is_ordered : PendingDocument → PendingDocument → Bool
is_ordered a b = ltb a.start b.start || (a.start == b.start && leb a.index b.index)

unfoldable pub insert_pending : PendingDocument → List PendingDocument → List PendingDocument
insert_pending document [] = document ∷ []
insert_pending document (first ∷ rest) =
    let later = insert_pending document rest in
    if is_ordered document first then document ∷ (first ∷ rest) else first ∷ later

-- The filtered, mapped and sorted documents; the number is that of the first one.
unfoldable pub pending_documents : ℕ → List DocumentEntry → List PendingDocument
pending_documents index [] = []
pending_documents index (document ∷ documents) =
    let rest = pending_documents (index + 1) documents in
    let this : PendingDocument = record {
      index = index;
      start = document.logical_offset;
      end = min (document.logical_offset + document.byte_length) u64_max;
    } in
    if ltb 0 document.byte_length then insert_pending this rest else rest

-- `DocumentHasher::new`
unfoldable pub new_hasher : DocumentIndex → DocumentHasher
new_hasher index = record {
  pending = pending_documents 0 index.documents;
  active = [];
  results = [];
}

-- The `while let` loop of `DocumentHasher::feed`: what stays pending, and the active ones.
unfoldable pub activate :
    ℕ → List PendingDocument → List ActiveDocument → List PendingDocument × List ActiveDocument
activate chunk_end [] active = ([], active)
activate chunk_end (document ∷ pending) active =
    let this : ActiveDocument = record {
      index = document.index;
      start = document.start;
      end = document.end;
      fed = [];
    } in
    let rest = activate chunk_end pending (active ++ (this ∷ [])) in
    if leb chunk_end document.start then (document ∷ pending, active) else rest

-- The part of a chunk that a document is fed.
unfoldable pub document_slice : ActiveDocument → ℕ → ℕ → List ℕ → Result (List ℕ)
document_slice document chunk_offset chunk_end decoded =
    let lower = max chunk_offset document.start in
    let upper = min chunk_end document.end in
    let part = do
      local_start ← u64_to_usize (lower - chunk_offset)
      local_end ← u64_to_usize (upper - chunk_offset)
      ok_or (get_range decoded local_start local_end) container_corrupt
    in if ltb lower upper then part else ok []

module _ (blake3 : List ℕ → List ℕ) where
  -- The loop over the active documents: those that are still active, and the results.
  unfoldable pub feed_active :
      ℕ
      → ℕ
      → List ℕ
      → List ActiveDocument
      → List ActiveDocument
      → List (ℕ × List ℕ)
      → Result (List ActiveDocument × List (ℕ × List ℕ))
  feed_active chunk_offset chunk_end decoded [] still results = ok (still, results)
  feed_active chunk_offset chunk_end decoded (document ∷ active) still results = do
    slice ← document_slice document chunk_offset chunk_end decoded
    let this : ActiveDocument = record {
      index = document.index;
      start = document.start;
      end = document.end;
      fed = document.fed ++ slice;
    }
    let finished =
        feed_active chunk_offset chunk_end decoded active still
          ((document.index, blake3 this.fed) ∷ results)
    let goes_on = feed_active chunk_offset chunk_end decoded active (still ++ (this ∷ [])) results
    if leb document.end chunk_end then finished else goes_on

  -- `DocumentHasher::feed`
  unfoldable pub feed : DocumentHasher → ℕ → List ℕ → Result DocumentHasher
  unfolding activate
  feed hasher chunk_offset decoded = do
    chunk_len ← usize_to_u64 (length decoded)
    chunk_end ← ok_or (checked_add chunk_offset chunk_len) resource_limit_exceeded
    let (pending, started) = activate chunk_end hasher.pending hasher.active
    (active, results) ← feed_active chunk_offset chunk_end decoded started [] hasher.results
    ok (record { pending = pending; active = active; results = results })

  unfoldable pub feed_documents :
      Option DocumentHasher → ℕ → List ℕ → Result (Option DocumentHasher)
  feed_documents none chunk_offset decoded = ok none
  feed_documents (some hasher) chunk_offset decoded = do
    hasher' ← feed hasher chunk_offset decoded
    ok (some hasher')

-- `HashMap::get`
unfoldable pub result_of : List (ℕ × List ℕ) → ℕ → Option (List ℕ)
result_of [] index = none
result_of ((key, hash) ∷ results) index =
    if key == index then some hash else result_of results index

unfoldable pub document_chunk_range : List ChunkEntry → ℕ → ℕ → Result (ℕ × ℕ)
document_chunk_range entries offset length =
    let range = do
      end ← checked_logical_end offset length
      first_index ← chunk_index_for_logical_offset entries offset
      last_index ← chunk_index_for_logical_offset entries (end - 1)
      first ← ok_or (get_elem? entries first_index) chunk_table_invalid
      last ← ok_or (get_elem? entries last_index) chunk_table_invalid
      last_exclusive ← ok_or (checked_add last.chunk_id 1) chunk_table_invalid
      ok (first.chunk_id, last_exclusive)
    in if length == 0 then ok (0, 0) else range

module _ (blake3 : List ℕ → List ℕ) where
  -- The checksum that a document should have.
  unfoldable pub actual_checksum : DocumentEntry → ℕ → List (ℕ × List ℕ) → Result Checksum
  actual_checksum document index hashes =
      let found = do
        value ← ok_or (result_of hashes index) container_corrupt
        ok (from_raw_bytes value)
      in if document.byte_length == 0 then ok (digest blake3 []) else found

  -- The loop of `verify_document_index_ranges`; the number is that of the first document.
  unfoldable pub verify_documents :
      ℕ → List DocumentEntry → ℕ → ℕ → List ChunkEntry → List (ℕ × List ℕ) → Result (Unit {0})
  verify_documents index [] original_size line_count entries hashes = ok tt
  verify_documents index (document ∷ documents) original_size line_count entries hashes = do
    end ← checked_logical_end document.logical_offset document.byte_length
    reject_if (ltb original_size end) logical_range_out_of_bounds
    line_end ← checked_logical_end document.first_line document.line_count
    reject_if (ltb line_count line_end) line_out_of_range
    reject_if (not (bytes_eq document.doc_id_hash (take 16 (blake3 document.doc_id))))
        container_corrupt
    actual ← actual_checksum document index hashes
    reject_if (not (checksum_eq actual document.checksum)) container_corrupt
    (chunk_start, chunk_end) ←
        document_chunk_range entries document.logical_offset document.byte_length
    reject_if (document.chunk_start != chunk_start || document.chunk_end != chunk_end)
        chunk_table_invalid
    verify_documents (index + 1) documents original_size line_count entries hashes

-- `dense.verify_chunk`, where there is a dense line index.
unfoldable pub verify_dense : Option DenseLineIndex → ℕ → List ℕ → ℕ → Result (Unit {0})
verify_dense none chunk_index decoded flags = ok tt
verify_dense (some dense) chunk_index decoded flags = verify_chunk dense chunk_index decoded flags

unfoldable pub expected_flags : ChunkEntry → Option ℕ → ℕ
expected_flags entry previous =
    if ltb 0 entry.logical_offset && not (is_byte previous lf)
    then starts_with_line_continuation
    else 0

-- The variables of the loop of `verify_deep_entries`.
pub record DeepState : Type 0 where
  pub hashed : List ℕ
  pub text : TextAnalysis
  pub document_hasher : Option DocumentHasher
  pub decoded_bytes : ℕ

unfoldable pub start_hasher : Option DocumentIndex → Option DocumentHasher
start_hasher none = none
start_hasher (some index) = some (new_hasher index)

unfoldable pub finish_hasher : Option DocumentHasher → List (ℕ × List ℕ)
finish_hasher none = []
finish_hasher (some hasher) = hasher.results

module _ (blake3 : List ℕ → List ℕ) (decode_entry : ChunkEntry → Result (List ℕ)) where
  -- The body of the loop.
  unfoldable pub verify_entry :
      Option DenseLineIndex → DeepState → ℕ → ChunkEntry → Result DeepState
  verify_entry dense state chunk_index entry = do
    reject_if (entry.flags != expected_flags entry state.text.previous_byte) chunk_table_invalid
    reject_if (entry.first_line != state.text.line_starts_seen) chunk_table_invalid
    decoded ← decode_entry entry
    reject_if (not (is_utf8 decoded)) invalid_utf8
    verify_dense dense chunk_index decoded entry.flags
    chunk_line_count ← usize_to_u64 (length (local_line_starts decoded entry.flags))
    reject_if (entry.line_count != chunk_line_count) chunk_table_invalid
    text ← update_text state.text decoded entry.flags
    hasher ← feed_documents blake3 state.document_hasher entry.logical_offset decoded
    size ← usize_to_u64 (length decoded)
    decoded_bytes ← ok_or (checked_add state.decoded_bytes size) resource_limit_exceeded
    ok (record {
      hashed = state.hashed ++ decoded;
      text = text;
      document_hasher = hasher;
      decoded_bytes = decoded_bytes;
    })

  unfoldable pub verify_entries :
      Option DenseLineIndex → DeepState → ℕ → List ChunkEntry → Result DeepState
  verify_entries dense state chunk_index [] = ok state
  verify_entries dense state chunk_index (entry ∷ entries) = do
    state' ← verify_entry dense state chunk_index entry
    verify_entries dense state' (chunk_index + 1) entries

  unfoldable pub verify_document_index :
      Option DocumentIndex → SkeletonDetails → Option DocumentHasher → Result (Unit {0})
  verify_document_index none details hasher = ok tt
  verify_document_index (some index) details hasher =
      verify_documents blake3 0 index.documents details.summary.original_size
        details.metadata.line_count details.chunk_entries (finish_hasher hasher)

  -- `verify_deep_entries`, less the report: the number of the bytes that it decoded.
  unfoldable pub verify_deep_entries : SkeletonDetails → Result ℕ
  unfolding start_hasher new_hasher
  verify_deep_entries details = do
    let start : DeepState = record {
      hashed = [];
      text = record { line_starts_seen = 0; lf_count = 0; crlf_count = 0; previous_byte = none };
      document_hasher = start_hasher details.document_index;
      decoded_bytes = 0;
    }
    state ← verify_entries details.dense_line_index start 0 details.chunk_entries
    reject_if (state.decoded_bytes != details.summary.original_size) chunk_size_mismatch
    reject_if (not (checksum_eq (digest blake3 state.hashed) details.metadata.original_checksum))
        uncompressed_chunk_checksum_mismatch
    reject_if (state.text.line_starts_seen != details.metadata.line_count) container_corrupt
    reject_if
        (not (
          bytes_eq (newline_word (from_counts state.text.lf_count state.text.crlf_count))
            details.metadata.newline_mode))
        newline_mode_mismatch
    verify_document_index details.document_index details state.document_hasher
    ok state.decoded_bytes
