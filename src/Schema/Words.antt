-- ===== src/Schema/Words.antt =====
-- src/schema.rs: the words of the schemas, as the bytes of their texts.
use qzt.Base.{ℕ, List, [], ◌∷◌}

abbrev pub word_schema : List ℕ
word_schema = b's' ∷ b'c' ∷ b'h' ∷ b'e' ∷ b'm' ∷ b'a' ∷ []

abbrev pub word_format_version : List ℕ
word_format_version =
    b'f' ∷ b'o' ∷ b'r' ∷ b'm' ∷ b'a' ∷ b't' ∷ b'_' ∷ b'v' ∷ b'e' ∷ b'r' ∷ b's' ∷ b'i' ∷ b'o' ∷ b'n'
    ∷ []

abbrev pub word_container_id : List ℕ
word_container_id =
    b'c' ∷ b'o' ∷ b'n' ∷ b't' ∷ b'a' ∷ b'i' ∷ b'n' ∷ b'e' ∷ b'r' ∷ b'_' ∷ b'i' ∷ b'd' ∷ []

abbrev pub word_index_root : List ℕ
word_index_root = b'i' ∷ b'n' ∷ b'd' ∷ b'e' ∷ b'x' ∷ b'_' ∷ b'r' ∷ b'o' ∷ b'o' ∷ b't' ∷ []

abbrev pub word_metadata : List ℕ
word_metadata = b'm' ∷ b'e' ∷ b't' ∷ b'a' ∷ b'd' ∷ b'a' ∷ b't' ∷ b'a' ∷ []

abbrev pub word_final_file_size : List ℕ
word_final_file_size =
    b'f' ∷ b'i' ∷ b'n' ∷ b'a' ∷ b'l' ∷ b'_' ∷ b'f' ∷ b'i' ∷ b'l' ∷ b'e' ∷ b'_' ∷ b's' ∷ b'i' ∷ b'z'
    ∷ b'e' ∷ []

abbrev pub word_footer_flags : List ℕ
word_footer_flags =
    b'f' ∷ b'o' ∷ b'o' ∷ b't' ∷ b'e' ∷ b'r' ∷ b'_' ∷ b'f' ∷ b'l' ∷ b'a' ∷ b'g' ∷ b's' ∷ []

abbrev pub word_created_at_unix_ms : List ℕ
word_created_at_unix_ms =
    b'c' ∷ b'r' ∷ b'e' ∷ b'a' ∷ b't' ∷ b'e' ∷ b'd' ∷ b'_' ∷ b'a' ∷ b't' ∷ b'_' ∷ b'u' ∷ b'n' ∷ b'i'
    ∷ b'x' ∷ b'_' ∷ b'm' ∷ b's' ∷ []

abbrev pub word_writer : List ℕ
word_writer = b'w' ∷ b'r' ∷ b'i' ∷ b't' ∷ b'e' ∷ b'r' ∷ []

abbrev pub word_container_checksum : List ℕ
word_container_checksum =
    b'c' ∷ b'o' ∷ b'n' ∷ b't' ∷ b'a' ∷ b'i' ∷ b'n' ∷ b'e' ∷ b'r' ∷ b'_' ∷ b'c' ∷ b'h' ∷ b'e' ∷ b'c'
    ∷ b'k' ∷ b's' ∷ b'u' ∷ b'm' ∷ []

abbrev pub word_algorithm : List ℕ
word_algorithm = b'a' ∷ b'l' ∷ b'g' ∷ b'o' ∷ b'r' ∷ b'i' ∷ b't' ∷ b'h' ∷ b'm' ∷ []

abbrev pub word_value : List ℕ
word_value = b'v' ∷ b'a' ∷ b'l' ∷ b'u' ∷ b'e' ∷ []

abbrev pub word_offset : List ℕ
word_offset = b'o' ∷ b'f' ∷ b'f' ∷ b's' ∷ b'e' ∷ b't' ∷ []

abbrev pub word_size : List ℕ
word_size = b's' ∷ b'i' ∷ b'z' ∷ b'e' ∷ []

abbrev pub word_checksum : List ℕ
word_checksum = b'c' ∷ b'h' ∷ b'e' ∷ b'c' ∷ b'k' ∷ b's' ∷ b'u' ∷ b'm' ∷ []

abbrev pub word_blake3 : List ℕ
word_blake3 = b'b' ∷ b'l' ∷ b'a' ∷ b'k' ∷ b'e' ∷ b'3' ∷ []

abbrev pub schema_footer : List ℕ
schema_footer =
    b'q' ∷ b'z' ∷ b't' ∷ b'.' ∷ b'f' ∷ b'o' ∷ b'o' ∷ b't' ∷ b'e' ∷ b'r' ∷ b'.' ∷ b'v' ∷ b'1' ∷ []

abbrev pub word_format : List ℕ
word_format = b'f' ∷ b'o' ∷ b'r' ∷ b'm' ∷ b'a' ∷ b't' ∷ []

abbrev pub word_identity : List ℕ
word_identity = b'i' ∷ b'd' ∷ b'e' ∷ b'n' ∷ b't' ∷ b'i' ∷ b't' ∷ b'y' ∷ []

abbrev pub word_source : List ℕ
word_source = b's' ∷ b'o' ∷ b'u' ∷ b'r' ∷ b'c' ∷ b'e' ∷ []

abbrev pub word_compression : List ℕ
word_compression = b'c' ∷ b'o' ∷ b'm' ∷ b'p' ∷ b'r' ∷ b'e' ∷ b's' ∷ b's' ∷ b'i' ∷ b'o' ∷ b'n' ∷ []

abbrev pub word_chunking : List ℕ
word_chunking = b'c' ∷ b'h' ∷ b'u' ∷ b'n' ∷ b'k' ∷ b'i' ∷ b'n' ∷ b'g' ∷ []

abbrev pub word_indexes : List ℕ
word_indexes = b'i' ∷ b'n' ∷ b'd' ∷ b'e' ∷ b'x' ∷ b'e' ∷ b's' ∷ []

abbrev pub word_integrity : List ℕ
word_integrity = b'i' ∷ b'n' ∷ b't' ∷ b'e' ∷ b'g' ∷ b'r' ∷ b'i' ∷ b't' ∷ b'y' ∷ []

abbrev pub word_compatibility : List ℕ
word_compatibility =
    b'c' ∷ b'o' ∷ b'm' ∷ b'p' ∷ b'a' ∷ b't' ∷ b'i' ∷ b'b' ∷ b'i' ∷ b'l' ∷ b'i' ∷ b't' ∷ b'y' ∷ []

abbrev pub word_name : List ℕ
word_name = b'n' ∷ b'a' ∷ b'm' ∷ b'e' ∷ []

abbrev pub word_profile : List ℕ
word_profile = b'p' ∷ b'r' ∷ b'o' ∷ b'f' ∷ b'i' ∷ b'l' ∷ b'e' ∷ []

abbrev pub word_created_by : List ℕ
word_created_by = b'c' ∷ b'r' ∷ b'e' ∷ b'a' ∷ b't' ∷ b'e' ∷ b'd' ∷ b'_' ∷ b'b' ∷ b'y' ∷ []

abbrev pub word_media_type : List ℕ
word_media_type = b'm' ∷ b'e' ∷ b'd' ∷ b'i' ∷ b'a' ∷ b'_' ∷ b't' ∷ b'y' ∷ b'p' ∷ b'e' ∷ []

abbrev pub word_encoding : List ℕ
word_encoding = b'e' ∷ b'n' ∷ b'c' ∷ b'o' ∷ b'd' ∷ b'i' ∷ b'n' ∷ b'g' ∷ []

abbrev pub word_original_size : List ℕ
word_original_size =
    b'o' ∷ b'r' ∷ b'i' ∷ b'g' ∷ b'i' ∷ b'n' ∷ b'a' ∷ b'l' ∷ b'_' ∷ b's' ∷ b'i' ∷ b'z' ∷ b'e' ∷ []

abbrev pub word_original_checksum : List ℕ
word_original_checksum =
    b'o' ∷ b'r' ∷ b'i' ∷ b'g' ∷ b'i' ∷ b'n' ∷ b'a' ∷ b'l' ∷ b'_' ∷ b'c' ∷ b'h' ∷ b'e' ∷ b'c' ∷ b'k'
    ∷ b's' ∷ b'u' ∷ b'm' ∷ []

abbrev pub word_newline_mode : List ℕ
word_newline_mode =
    b'n' ∷ b'e' ∷ b'w' ∷ b'l' ∷ b'i' ∷ b'n' ∷ b'e' ∷ b'_' ∷ b'm' ∷ b'o' ∷ b'd' ∷ b'e' ∷ []

abbrev pub word_line_count : List ℕ
word_line_count = b'l' ∷ b'i' ∷ b'n' ∷ b'e' ∷ b'_' ∷ b'c' ∷ b'o' ∷ b'u' ∷ b'n' ∷ b't' ∷ []

abbrev pub word_codec : List ℕ
word_codec = b'c' ∷ b'o' ∷ b'd' ∷ b'e' ∷ b'c' ∷ []

abbrev pub word_zstd_level : List ℕ
word_zstd_level = b'z' ∷ b's' ∷ b't' ∷ b'd' ∷ b'_' ∷ b'l' ∷ b'e' ∷ b'v' ∷ b'e' ∷ b'l' ∷ []

abbrev pub word_independent_frames : List ℕ
word_independent_frames =
    b'i' ∷ b'n' ∷ b'd' ∷ b'e' ∷ b'p' ∷ b'e' ∷ b'n' ∷ b'd' ∷ b'e' ∷ b'n' ∷ b't' ∷ b'_' ∷ b'f' ∷ b'r'
    ∷ b'a' ∷ b'm' ∷ b'e' ∷ b's' ∷ []

abbrev pub word_zstd_frame_checksum : List ℕ
word_zstd_frame_checksum =
    b'z' ∷ b's' ∷ b't' ∷ b'd' ∷ b'_' ∷ b'f' ∷ b'r' ∷ b'a' ∷ b'm' ∷ b'e' ∷ b'_' ∷ b'c' ∷ b'h' ∷ b'e'
    ∷ b'c' ∷ b'k' ∷ b's' ∷ b'u' ∷ b'm' ∷ []

abbrev pub word_dictionary_mode : List ℕ
word_dictionary_mode =
    b'd' ∷ b'i' ∷ b'c' ∷ b't' ∷ b'i' ∷ b'o' ∷ b'n' ∷ b'a' ∷ b'r' ∷ b'y' ∷ b'_' ∷ b'm' ∷ b'o' ∷ b'd'
    ∷ b'e' ∷ []

abbrev pub word_target_chunk_size : List ℕ
word_target_chunk_size =
    b't' ∷ b'a' ∷ b'r' ∷ b'g' ∷ b'e' ∷ b't' ∷ b'_' ∷ b'c' ∷ b'h' ∷ b'u' ∷ b'n' ∷ b'k' ∷ b'_' ∷ b's'
    ∷ b'i' ∷ b'z' ∷ b'e' ∷ []

abbrev pub word_max_chunk_size : List ℕ
word_max_chunk_size =
    b'm' ∷ b'a' ∷ b'x' ∷ b'_' ∷ b'c' ∷ b'h' ∷ b'u' ∷ b'n' ∷ b'k' ∷ b'_' ∷ b's' ∷ b'i' ∷ b'z' ∷ b'e'
    ∷ []

abbrev pub word_boundary : List ℕ
word_boundary = b'b' ∷ b'o' ∷ b'u' ∷ b'n' ∷ b'd' ∷ b'a' ∷ b'r' ∷ b'y' ∷ []

abbrev pub word_utf8_boundary_required : List ℕ
word_utf8_boundary_required =
    b'u' ∷ b't' ∷ b'f' ∷ b'8' ∷ b'_' ∷ b'b' ∷ b'o' ∷ b'u' ∷ b'n' ∷ b'd' ∷ b'a' ∷ b'r' ∷ b'y' ∷ b'_'
    ∷ b'r' ∷ b'e' ∷ b'q' ∷ b'u' ∷ b'i' ∷ b'r' ∷ b'e' ∷ b'd' ∷ []

abbrev pub word_chunk_table : List ℕ
word_chunk_table = b'c' ∷ b'h' ∷ b'u' ∷ b'n' ∷ b'k' ∷ b'_' ∷ b't' ∷ b'a' ∷ b'b' ∷ b'l' ∷ b'e' ∷ []

abbrev pub word_sparse_line_index : List ℕ
word_sparse_line_index =
    b's' ∷ b'p' ∷ b'a' ∷ b'r' ∷ b's' ∷ b'e' ∷ b'_' ∷ b'l' ∷ b'i' ∷ b'n' ∷ b'e' ∷ b'_' ∷ b'i' ∷ b'n'
    ∷ b'd' ∷ b'e' ∷ b'x' ∷ []

abbrev pub word_dense_line_index : List ℕ
word_dense_line_index =
    b'd' ∷ b'e' ∷ b'n' ∷ b's' ∷ b'e' ∷ b'_' ∷ b'l' ∷ b'i' ∷ b'n' ∷ b'e' ∷ b'_' ∷ b'i' ∷ b'n' ∷ b'd'
    ∷ b'e' ∷ b'x' ∷ []

abbrev pub word_document_index : List ℕ
word_document_index =
    b'd' ∷ b'o' ∷ b'c' ∷ b'u' ∷ b'm' ∷ b'e' ∷ b'n' ∷ b't' ∷ b'_' ∷ b'i' ∷ b'n' ∷ b'd' ∷ b'e' ∷ b'x'
    ∷ []

abbrev pub word_token_index : List ℕ
word_token_index = b't' ∷ b'o' ∷ b'k' ∷ b'e' ∷ b'n' ∷ b'_' ∷ b'i' ∷ b'n' ∷ b'd' ∷ b'e' ∷ b'x' ∷ []

abbrev pub word_ngram_index : List ℕ
word_ngram_index = b'n' ∷ b'g' ∷ b'r' ∷ b'a' ∷ b'm' ∷ b'_' ∷ b'i' ∷ b'n' ∷ b'd' ∷ b'e' ∷ b'x' ∷ []

abbrev pub word_vector_index : List ℕ
word_vector_index =
    b'v' ∷ b'e' ∷ b'c' ∷ b't' ∷ b'o' ∷ b'r' ∷ b'_' ∷ b'i' ∷ b'n' ∷ b'd' ∷ b'e' ∷ b'x' ∷ []

abbrev pub word_compressed_chunk_checksum : List ℕ
word_compressed_chunk_checksum =
    b'c' ∷ b'o' ∷ b'm' ∷ b'p' ∷ b'r' ∷ b'e' ∷ b's' ∷ b's' ∷ b'e' ∷ b'd' ∷ b'_' ∷ b'c' ∷ b'h' ∷ b'u'
    ∷ b'n' ∷ b'k' ∷ b'_' ∷ b'c' ∷ b'h' ∷ b'e' ∷ b'c' ∷ b'k' ∷ b's' ∷ b'u' ∷ b'm' ∷ []

abbrev pub word_uncompressed_chunk_checksum : List ℕ
word_uncompressed_chunk_checksum =
    b'u' ∷ b'n' ∷ b'c' ∷ b'o' ∷ b'm' ∷ b'p' ∷ b'r' ∷ b'e' ∷ b's' ∷ b's' ∷ b'e' ∷ b'd' ∷ b'_' ∷ b'c'
    ∷ b'h' ∷ b'u' ∷ b'n' ∷ b'k' ∷ b'_' ∷ b'c' ∷ b'h' ∷ b'e' ∷ b'c' ∷ b'k' ∷ b's' ∷ b'u' ∷ b'm' ∷ []

abbrev pub word_index_checksum : List ℕ
word_index_checksum =
    b'i' ∷ b'n' ∷ b'd' ∷ b'e' ∷ b'x' ∷ b'_' ∷ b'c' ∷ b'h' ∷ b'e' ∷ b'c' ∷ b'k' ∷ b's' ∷ b'u' ∷ b'm'
    ∷ []

abbrev pub word_qzt_is_zst_stream : List ℕ
word_qzt_is_zst_stream =
    b'q' ∷ b'z' ∷ b't' ∷ b'_' ∷ b'i' ∷ b's' ∷ b'_' ∷ b'z' ∷ b's' ∷ b't' ∷ b'_' ∷ b's' ∷ b't' ∷ b'r'
    ∷ b'e' ∷ b'a' ∷ b'm' ∷ []

abbrev pub word_chunks_are_independent_zstd_frames : List ℕ
word_chunks_are_independent_zstd_frames =
    b'c' ∷ b'h' ∷ b'u' ∷ b'n' ∷ b'k' ∷ b's' ∷ b'_' ∷ b'a' ∷ b'r' ∷ b'e' ∷ b'_' ∷ b'i' ∷ b'n' ∷ b'd'
    ∷ b'e' ∷ b'p' ∷ b'e' ∷ b'n' ∷ b'd' ∷ b'e' ∷ b'n' ∷ b't' ∷ b'_' ∷ b'z' ∷ b's' ∷ b't' ∷ b'd'
    ∷ b'_' ∷ b'f' ∷ b'r' ∷ b'a' ∷ b'm' ∷ b'e' ∷ b's' ∷ []

abbrev pub word_qzt : List ℕ
word_qzt = b'q' ∷ b'z' ∷ b't' ∷ []

abbrev pub word_text : List ℕ
word_text = b't' ∷ b'e' ∷ b'x' ∷ b't' ∷ []

abbrev pub word_utf_8 : List ℕ
word_utf_8 = b'u' ∷ b't' ∷ b'f' ∷ b'-' ∷ b'8' ∷ []

abbrev pub word_zstd : List ℕ
word_zstd = b'z' ∷ b's' ∷ b't' ∷ b'd' ∷ []

abbrev pub word_line_preferred : List ℕ
word_line_preferred =
    b'l' ∷ b'i' ∷ b'n' ∷ b'e' ∷ b'-' ∷ b'p' ∷ b'r' ∷ b'e' ∷ b'f' ∷ b'e' ∷ b'r' ∷ b'r' ∷ b'e' ∷ b'd'
    ∷ []

abbrev pub word_none : List ℕ
word_none = b'n' ∷ b'o' ∷ b'n' ∷ b'e' ∷ []

abbrev pub word_lf : List ℕ
word_lf = b'l' ∷ b'f' ∷ []

abbrev pub word_crlf : List ℕ
word_crlf = b'c' ∷ b'r' ∷ b'l' ∷ b'f' ∷ []

abbrev pub word_mixed : List ℕ
word_mixed = b'm' ∷ b'i' ∷ b'x' ∷ b'e' ∷ b'd' ∷ []

abbrev pub word_embedded : List ℕ
word_embedded = b'e' ∷ b'm' ∷ b'b' ∷ b'e' ∷ b'd' ∷ b'd' ∷ b'e' ∷ b'd' ∷ []

abbrev pub word_minimal : List ℕ
word_minimal = b'm' ∷ b'i' ∷ b'n' ∷ b'i' ∷ b'm' ∷ b'a' ∷ b'l' ∷ []

abbrev pub word_core : List ℕ
word_core = b'c' ∷ b'o' ∷ b'r' ∷ b'e' ∷ []

abbrev pub word_log : List ℕ
word_log = b'l' ∷ b'o' ∷ b'g' ∷ []

abbrev pub word_archive : List ℕ
word_archive = b'a' ∷ b'r' ∷ b'c' ∷ b'h' ∷ b'i' ∷ b'v' ∷ b'e' ∷ []

abbrev pub word_memory : List ℕ
word_memory = b'm' ∷ b'e' ∷ b'm' ∷ b'o' ∷ b'r' ∷ b'y' ∷ []

abbrev pub word_dictionaries : List ℕ
word_dictionaries =
    b'd' ∷ b'i' ∷ b'c' ∷ b't' ∷ b'i' ∷ b'o' ∷ b'n' ∷ b'a' ∷ b'r' ∷ b'i' ∷ b'e' ∷ b's' ∷ []

abbrev pub word_dictionary : List ℕ
word_dictionary = b'd' ∷ b'i' ∷ b'c' ∷ b't' ∷ b'i' ∷ b'o' ∷ b'n' ∷ b'a' ∷ b'r' ∷ b'y' ∷ []

abbrev pub word_dictionary_id : List ℕ
word_dictionary_id =
    b'd' ∷ b'i' ∷ b'c' ∷ b't' ∷ b'i' ∷ b'o' ∷ b'n' ∷ b'a' ∷ b'r' ∷ b'y' ∷ b'_' ∷ b'i' ∷ b'd' ∷ []

abbrev pub word_bytes : List ℕ
word_bytes = b'b' ∷ b'y' ∷ b't' ∷ b'e' ∷ b's' ∷ []

abbrev pub word_documents : List ℕ
word_documents = b'd' ∷ b'o' ∷ b'c' ∷ b'u' ∷ b'm' ∷ b'e' ∷ b'n' ∷ b't' ∷ b's' ∷ []

abbrev pub word_doc_id : List ℕ
word_doc_id = b'd' ∷ b'o' ∷ b'c' ∷ b'_' ∷ b'i' ∷ b'd' ∷ []

abbrev pub word_doc_id_hash : List ℕ
word_doc_id_hash = b'd' ∷ b'o' ∷ b'c' ∷ b'_' ∷ b'i' ∷ b'd' ∷ b'_' ∷ b'h' ∷ b'a' ∷ b's' ∷ b'h' ∷ []

abbrev pub word_logical_offset : List ℕ
word_logical_offset =
    b'l' ∷ b'o' ∷ b'g' ∷ b'i' ∷ b'c' ∷ b'a' ∷ b'l' ∷ b'_' ∷ b'o' ∷ b'f' ∷ b'f' ∷ b's' ∷ b'e' ∷ b't'
    ∷ []

abbrev pub word_byte_length : List ℕ
word_byte_length = b'b' ∷ b'y' ∷ b't' ∷ b'e' ∷ b'_' ∷ b'l' ∷ b'e' ∷ b'n' ∷ b'g' ∷ b't' ∷ b'h' ∷ []

abbrev pub word_first_line : List ℕ
word_first_line = b'f' ∷ b'i' ∷ b'r' ∷ b's' ∷ b't' ∷ b'_' ∷ b'l' ∷ b'i' ∷ b'n' ∷ b'e' ∷ []

abbrev pub word_chunk_start : List ℕ
word_chunk_start = b'c' ∷ b'h' ∷ b'u' ∷ b'n' ∷ b'k' ∷ b'_' ∷ b's' ∷ b't' ∷ b'a' ∷ b'r' ∷ b't' ∷ []

abbrev pub word_chunk_end : List ℕ
word_chunk_end = b'c' ∷ b'h' ∷ b'u' ∷ b'n' ∷ b'k' ∷ b'_' ∷ b'e' ∷ b'n' ∷ b'd' ∷ []

abbrev pub word_blocks : List ℕ
word_blocks = b'b' ∷ b'l' ∷ b'o' ∷ b'c' ∷ b'k' ∷ b's' ∷ []

abbrev pub word_content : List ℕ
word_content = b'c' ∷ b'o' ∷ b'n' ∷ b't' ∷ b'e' ∷ b'n' ∷ b't' ∷ []

abbrev pub word_chunk_count : List ℕ
word_chunk_count = b'c' ∷ b'h' ∷ b'u' ∷ b'n' ∷ b'k' ∷ b'_' ∷ b'c' ∷ b'o' ∷ b'u' ∷ b'n' ∷ b't' ∷ []

abbrev pub word_type : List ℕ
word_type = b't' ∷ b'y' ∷ b'p' ∷ b'e' ∷ []

abbrev pub word_required : List ℕ
word_required = b'r' ∷ b'e' ∷ b'q' ∷ b'u' ∷ b'i' ∷ b'r' ∷ b'e' ∷ b'd' ∷ []

abbrev pub word_flags : List ℕ
word_flags = b'f' ∷ b'l' ∷ b'a' ∷ b'g' ∷ b's' ∷ []

abbrev pub schema_metadata : List ℕ
schema_metadata =
    b'q' ∷ b'z' ∷ b't' ∷ b'.' ∷ b'm' ∷ b'e' ∷ b't' ∷ b'a' ∷ b'd' ∷ b'a' ∷ b't' ∷ b'a' ∷ b'.' ∷ b'v'
    ∷ b'1' ∷ []

abbrev pub schema_index_root : List ℕ
schema_index_root =
    b'q' ∷ b'z' ∷ b't' ∷ b'.' ∷ b'i' ∷ b'n' ∷ b'd' ∷ b'e' ∷ b'x' ∷ b'-' ∷ b'r' ∷ b'o' ∷ b'o' ∷ b't'
    ∷ b'.' ∷ b'v' ∷ b'1' ∷ []

abbrev pub schema_dictionary : List ℕ
schema_dictionary =
    b'q' ∷ b'z' ∷ b't' ∷ b'.' ∷ b'd' ∷ b'i' ∷ b'c' ∷ b't' ∷ b'i' ∷ b'o' ∷ b'n' ∷ b'a' ∷ b'r' ∷ b'y'
    ∷ b'.' ∷ b'v' ∷ b'1' ∷ []

abbrev pub schema_document_index : List ℕ
schema_document_index =
    b'q' ∷ b'z' ∷ b't' ∷ b'.' ∷ b'd' ∷ b'o' ∷ b'c' ∷ b'u' ∷ b'm' ∷ b'e' ∷ b'n' ∷ b't' ∷ b'-' ∷ b'i'
    ∷ b'n' ∷ b'd' ∷ b'e' ∷ b'x' ∷ b'.' ∷ b'v' ∷ b'1' ∷ []

abbrev pub chunk_table_codec : List ℕ
chunk_table_codec =
    b'q' ∷ b'z' ∷ b't' ∷ b'-' ∷ b'c' ∷ b't' ∷ b'b' ∷ b'l' ∷ b'-' ∷ b'f' ∷ b'i' ∷ b'x' ∷ b'e' ∷ b'd'
    ∷ b'-' ∷ b'v' ∷ b'1' ∷ []

abbrev pub dictionary_codec : List ℕ
dictionary_codec =
    b'q' ∷ b'z' ∷ b't' ∷ b'-' ∷ b'd' ∷ b'i' ∷ b'c' ∷ b't' ∷ b'-' ∷ b'c' ∷ b'b' ∷ b'o' ∷ b'r' ∷ b'-'
    ∷ b'v' ∷ b'1' ∷ []

abbrev pub dense_line_index_codec : List ℕ
dense_line_index_codec =
    b'q' ∷ b'z' ∷ b't' ∷ b'-' ∷ b'l' ∷ b'i' ∷ b'n' ∷ b'e' ∷ b'-' ∷ b'd' ∷ b'e' ∷ b'l' ∷ b't' ∷ b'a'
    ∷ b'-' ∷ b'v' ∷ b'a' ∷ b'r' ∷ b'i' ∷ b'n' ∷ b't' ∷ b'-' ∷ b'v' ∷ b'1' ∷ []

abbrev pub document_index_codec : List ℕ
document_index_codec =
    b'q' ∷ b'z' ∷ b't' ∷ b'-' ∷ b'd' ∷ b'o' ∷ b'c' ∷ b'-' ∷ b'i' ∷ b'n' ∷ b'd' ∷ b'e' ∷ b'x' ∷ b'-'
    ∷ b'c' ∷ b'b' ∷ b'o' ∷ b'r' ∷ b'-' ∷ b'v' ∷ b'1' ∷ []
