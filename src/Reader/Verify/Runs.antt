-- ===== src/Reader/Verify/Runs.antt =====
-- Runs of deep verification, src/reader.rs, at a concrete container.
use qzt.Base.{[], ◌∷◌, ◌≡◌, refl, arith, are_bytes→All}
use qzt.Base.Utf8.{is_utf8}
use qzt.Error.{ok}
use qzt.Limits.{default_limits}
use qzt.Primitives.{checked_logical_end, checked_physical_end, u64_to_usize, usize_to_u64}
use qzt.ChunkTable.{partition_loop, partition_by_end, chunk_index_for_logical_offset}
use qzt.Chunker.{from_counts}
use qzt.Schema.{from_raw_bytes}
use qzt.Schema.Dictionary.{digest}
use qzt.Schema.IndexRoot.{checksum_eq}
use qzt.DenseLineIndex.{verify_chunk, line_start_offsets, scan_line_starts}
use qzt.Codec.{decode_chunk}
use qzt.Io.{get_range}
use qzt.Skeleton.{slice_physical}
use qzt.Skeleton.Sample.{sevens, container}
use qzt.Reader.{decode_entry, decode_compressed_entry, dictionary_bytes, find_dictionary}
use qzt.Reader.Runs.{zstd, reader, reader_opens, reader_exports}
use qzt.Reader.Lines.{read_line_raw}
use qzt.Base.SplitLines.{split_lines}
use qzt.Reader.Verify.{newline_word, is_byte, scan_bytes, update_text, is_ordered, insert_pending}
use qzt.Reader.Verify.{pending_documents, new_hasher, activate, document_slice, feed_active, feed}
use qzt.Reader.Verify.{feed_documents, result_of, document_chunk_range, actual_checksum}
use qzt.Reader.Verify.{verify_documents, verify_dense, expected_flags, start_hasher, finish_hasher}
use qzt.Reader.Verify.{verify_entry, verify_entries, verify_document_index, verify_deep_entries}
use qzt.Reader.Verify.Lines.{read_line_raw-export_all}

reader_verifies : verify_deep_entries sevens (decode_entry sevens zstd reader) reader.details ≡ ok 4
unfolding decode_entry decode_compressed_entry dictionary_bytes find_dictionary decode_chunk
    slice_physical checked_physical_end checked_logical_end get_range usize_to_u64 u64_to_usize
    partition_loop partition_by_end chunk_index_for_logical_offset from_counts checksum_eq
    verify_chunk line_start_offsets scan_line_starts newline_word is_byte scan_bytes update_text
    is_ordered insert_pending pending_documents new_hasher activate document_slice feed_active feed
    feed_documents result_of document_chunk_range actual_checksum verify_documents verify_dense
    expected_flags start_hasher finish_hasher verify_entry verify_entries verify_document_index
    verify_deep_entries is_utf8 digest from_raw_bytes
reader_verifies = refl

read_line_raw-export_all_example : read_line_raw sevens zstd reader 1 ≡ ok (b'b' ∷ 10 ∷ [])
unfolding split_lines
read_line_raw-export_all_example =
    read_line_raw-export_all sevens zstd container default_limits reader
      (b'a' ∷ 10 ∷ b'b' ∷ 10 ∷ []) 4 1 (are_bytes→All container refl) (omega arith) reader_opens
      reader_exports reader_verifies
