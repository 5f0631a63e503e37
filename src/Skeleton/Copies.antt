-- ===== src/Skeleton/Copies.antt =====
-- The stages of the two ways to open a container, src/skeleton.rs, against one another.
use mathlib.Core.Path.{fun_ext}
use qzt.Base.{ℕ, ◌≡◌, refl, ap, arith, List, ◌-◌, ◌≤◌}
use qzt.Error.{ok}
use qzt.Limits.{ResourceLimits}
use qzt.Skeleton.{read_physical_at, Source}
use qzt.Skeleton.{read_exact_at_qzt}
use qzt.Skeleton.Open.{open_body, open_footer}
use qzt.Skeleton.Open.{open_metadata, open_index_root, open_chunk_table, open_blocks}
use qzt.Skeleton.Open.{enforce_blocks, enforce_entries, extra_ranges, entry_ranges, entry_range}
use qzt.Skeleton.Open.{physical_ranges}
use qzt.Skeleton.OpenAt.{open_body_at, open_footer_at}
use qzt.Skeleton.OpenAt.{open_metadata_at, open_index_root_at, open_chunk_table_at, open_blocks_at}
use qzt.Skeleton.OpenAt.{enforce_blocks_at, enforce_entries_at, extra_ranges_at, entry_ranges_at}
use qzt.Skeleton.OpenAt.{physical_ranges_at}
use qzt.Skeleton.Blocks.{push_dictionaries, dictionary_loop, read_dictionary_block, dense_loop}
use qzt.Skeleton.Blocks.{read_dense_block, document_loop, read_document_block, blocks_of}
use qzt.Skeleton.Blocks.{parse_dictionary_blocks, parse_dense_line_index, parse_document_index}
use qzt.Skeleton.BlocksAt.{push_dictionaries_at, dictionary_loop_at, read_dictionary_block_at}
use qzt.Skeleton.BlocksAt.{dense_loop_at, read_dense_block_at, document_loop_at}
use qzt.Skeleton.BlocksAt.{read_document_block_at, parse_dictionary_blocks_at}
use qzt.Skeleton.BlocksAt.{parse_dense_line_index_at, parse_document_index_at}
use qzt.Format.{header_len, footer_trailer_len}
use qzt.Io.{ReadAt}
use qzt.Schema.Words
use qzt.Schema.IndexRoot.{BlockDescriptor, IndexRoot}
use qzt.Schema.Footer.{FooterPayload}
use qzt.Schema.Metadata.{Metadata}
use qzt.Schema.Dictionary.{DictionaryEntry}
use qzt.Fixed.{Header, FooterTrailer}
use qzt.ChunkTable.{ChunkEntry}
use qzt.Base.{[], ◌∷◌, ◌++◌, checked_sub, Option, none}
use qzt.DenseLineIndex.{DenseLineIndex}
use qzt.Schema.Documents.{DocumentIndex}
use qzt.Error.{ok_or, invalid_footer_trailer}

-- What the second way reads, as a source of the first.
abbrev pub positioned_source : ReadAt → ℕ → Source
positioned_source reader size = record {
  file_size = size;
  header_bytes = read_exact_at_qzt reader 0 header_len;
  trailer_bytes = read_exact_at_qzt reader (size - footer_trailer_len) footer_trailer_len;
  read = read_physical_at reader size;
}

push_agree : push_dictionaries_at ≡ push_dictionaries
unfolding push_dictionaries_at push_dictionaries
push_agree = fun_ext (λ dictionaries. fun_ext (λ more. go dictionaries more))
  where
    go :
        (dictionaries more : List DictionaryEntry)
        → push_dictionaries_at dictionaries more ≡ push_dictionaries dictionaries more
    go dictionaries [] = refl
    go dictionaries (entry ∷ more) = rw (go (dictionaries ++ (entry ∷ [])) more) refl

enforce_blocks_agree :
    (limits : ResourceLimits) (blocks : List BlockDescriptor)
    → enforce_blocks_at limits blocks ≡ enforce_blocks limits blocks
unfolding enforce_blocks_at enforce_blocks
enforce_blocks_agree limits [] = refl
enforce_blocks_agree limits (block ∷ blocks) = rw (enforce_blocks_agree limits blocks) refl

enforce_entries_agree :
    (limits : ResourceLimits) (entries : List ChunkEntry)
    → enforce_entries_at limits entries ≡ enforce_entries limits entries
unfolding enforce_entries_at enforce_entries
enforce_entries_agree limits [] = refl
enforce_entries_agree limits (entry ∷ entries) = rw (enforce_entries_agree limits entries) refl

extra_ranges_agree : (blocks : List BlockDescriptor) → extra_ranges_at blocks ≡ extra_ranges blocks
unfolding extra_ranges_at extra_ranges
extra_ranges_agree [] = refl
extra_ranges_agree (block ∷ blocks) = rw (extra_ranges_agree blocks) refl

entry_ranges_agree : (entries : List ChunkEntry) → entry_ranges_at entries ≡ entry_ranges entries
entry_ranges_agree [] = refl
entry_ranges_agree (entry ∷ entries) = ap (λ r. entry_range entry ∷ r) (entry_ranges_agree entries)

physical_ranges_agree :
    (header : Header) (trailer : FooterTrailer) (footer : FooterPayload) (table : BlockDescriptor)
    (root : IndexRoot) (entries : List ChunkEntry)
    → physical_ranges_at header trailer footer table root entries
      ≡ physical_ranges header trailer footer table root entries
unfolding physical_ranges_at physical_ranges
physical_ranges_agree header trailer footer table root entries =
    rw (extra_ranges_agree root.blocks, entry_ranges_agree entries) refl

ranges_agree : physical_ranges_at ≡ physical_ranges
ranges_agree = fun_ext (λ header. fun_ext (λ trailer. fun_ext (λ footer.
    fun_ext (λ table.
      fun_ext (λ root. fun_ext (physical_ranges_agree header trailer footer table root))))))

-- The copies of the parsers and of the stages of the opening.
module _ (blake3 : List ℕ → List ℕ) (reader : ReadAt) (size : ℕ) (limits : ResourceLimits) where
  abbrev source : Source
  source = positioned_source reader size

  dictionary_loop_agree :
      (id : List ℕ) (blocks : List BlockDescriptor) (dictionaries : List DictionaryEntry)
      → dictionary_loop_at blake3 reader size limits id blocks dictionaries
        ≡ dictionary_loop blake3 source limits id blocks dictionaries
  unfolding dictionary_loop_at dictionary_loop read_dictionary_block_at read_dictionary_block
  dictionary_loop_agree id [] dictionaries = refl
  dictionary_loop_agree id (block ∷ blocks) dictionaries =
      rw (push_agree, fun_ext (dictionary_loop_agree id blocks)) refl

  dense_loop_agree :
      (entries : List ChunkEntry) (blocks : List BlockDescriptor) (dense : Option DenseLineIndex)
      → dense_loop_at blake3 reader size limits entries blocks dense
        ≡ dense_loop blake3 source limits entries blocks dense
  unfolding dense_loop_at dense_loop read_dense_block_at read_dense_block
  dense_loop_agree entries [] dense = refl
  dense_loop_agree entries (block ∷ blocks) dense =
      rw (fun_ext (dense_loop_agree entries blocks)) refl

  document_loop_agree :
      (id : List ℕ) (blocks : List BlockDescriptor) (found : Option DocumentIndex)
      → document_loop_at blake3 reader size limits id blocks found
        ≡ document_loop blake3 source limits id blocks found
  unfolding document_loop_at document_loop read_document_block_at read_document_block
  document_loop_agree id [] found = refl
  document_loop_agree id (block ∷ blocks) found = rw (fun_ext (document_loop_agree id blocks)) refl

  chunk_table_agree :
      (root : IndexRoot) (table : BlockDescriptor)
      → open_chunk_table_at blake3 reader size limits root table
        ≡ open_chunk_table blake3 source limits root table
  unfolding open_chunk_table_at open_chunk_table
  chunk_table_agree root table =
      rw (enforce_blocks_agree limits root.blocks, fun_ext (enforce_entries_agree limits)) refl

  open_blocks_agree :
      (header : Header) (trailer : FooterTrailer) (footer : FooterPayload) (metadata : Metadata)
      (root : IndexRoot) (entries : List ChunkEntry)
      → open_blocks_at blake3 reader size limits header trailer footer metadata root entries
        ≡ open_blocks blake3 source limits header trailer footer metadata root entries
  unfolding open_blocks_at open_blocks parse_dictionary_blocks_at parse_dictionary_blocks
      parse_dense_line_index_at parse_dense_line_index parse_document_index_at parse_document_index
  open_blocks_agree header trailer footer metadata root entries =
      rw
        (
          dictionary_loop_agree header.container_id (blocks_of Words.word_dictionary root.blocks)
              [],
          dense_loop_agree entries (blocks_of Words.word_dense_line_index root.blocks) none,
          document_loop_agree header.container_id (blocks_of Words.word_document_index root.blocks)
              none,
        )
        refl

  last_agree : open_blocks_at blake3 reader size limits ≡ open_blocks blake3 source limits
  last_agree = fun_ext (λ header. fun_ext (λ trailer. fun_ext (λ footer. fun_ext (λ metadata.
      fun_ext (λ root. fun_ext (open_blocks_agree header trailer footer metadata root))))))

  trailer_offset : 64 ≤ size → ok_or (checked_sub size 64) invalid_footer_trailer ≡ ok (size - 64)
  trailer_offset h = ground arith

  -- The body of the second way does what that of the first does on its reads.
  pub open_body_agree :
      64 ≤ size → open_body_at blake3 reader size limits ≡ open_body blake3 source limits
  unfolding open_body_at open_body open_footer_at open_footer open_metadata_at open_metadata
      open_index_root_at open_index_root
  open_body_agree h =
      rw
        (
          trailer_offset h,
          fun_ext (λ root. fun_ext (chunk_table_agree root)),
          ranges_agree,
          last_agree,
        )
        refl
