-- ===== src/Skeleton/Opened.antt =====
-- What a container that opens is known to hold, src/skeleton.rs.
use mathlib.Core.Path.{subst}
use qzt.Base.{ℕ, ◌≡◌, sym, arith, List, [], ◌∷◌, ◌++◌, ◌≤◌, ◌&&◌, ltb, leb, ltb-false}
use qzt.Base.{length, slice, All, All-slice, All-append_inv, IsByte, IsU64, Bool-cases}
use qzt.Base.{inl, inr, length-take, ◌-◌, drop, usize_max}
use qzt.Error.{
  Result, ok, err, ok_or, reject_if, reject_if_inv, >>=-eq-ok, ok-injective,
  physical_range_out_of_bounds,
}
use qzt.Primitives.{checked_physical_end, usize_to_u64}
use qzt.Limits.{ResourceLimits}
use qzt.Fixed.{Header, FooterTrailer, PhysicalRange, decode_header, decode_trailer}
use qzt.Fixed.{validate_physical_ranges}
use qzt.Fixed.Ranges.{IsPlaced, validate_physical_ranges_iff}
use qzt.Fixed.Sorting.{Disjoint, PairwiseDisjoint}
use qzt.ChunkTable.{ChunkEntry}
use qzt.ChunkTable.Tiling.{Tiles}
use qzt.Schema.Footer.{FooterPayload}
use qzt.Schema.Accepted.{IsFooterPayload}
use qzt.Schema.Metadata.{Metadata}
use qzt.Schema.Metadata.Accepted.{IsMetadata}
use qzt.Schema.IndexRoot.{BlockDescriptor, IndexRoot, chunk_table_block}
use qzt.Schema.Dictionary.Accepted.{usize_to_u64_eq}
use qzt.Io.{get_range}
use qzt.Skeleton.{SkeletonDetails, Source, memory_source, slice_physical}
use qzt.Skeleton.Blocks.{validate_required_dictionaries, parse_dictionary_blocks}
use qzt.Skeleton.Blocks.{parse_dense_line_index, parse_document_index}
use qzt.Skeleton.Open.{ref_range, extra_ranges, entry_ranges, physical_ranges, check_length}
use qzt.Skeleton.Open.{open_footer, open_metadata, open_index_root, open_chunk_table, open_blocks}
use qzt.Skeleton.Open.{open_body, open_skeleton_details_with_limits}
use qzt.Skeleton.Checks.{Decodable, Within, validate_required_dictionaries-Decodable}
use qzt.Skeleton.Stages.{
  Stored, FooterOpened, MetadataOpened, RootOpened, TableOpened, ReadsBytes,
  open_footer-FooterOpened,
}
use qzt.Skeleton.Stages.{
  open_metadata-MetadataOpened, open_index_root-RootOpened, open_chunk_table-TableOpened,
}

PairwiseDisjoint-tail :
    (rs ts : List PhysicalRange) → PairwiseDisjoint (rs ++ ts) → PairwiseDisjoint ts
PairwiseDisjoint-tail [] ts h = h
PairwiseDisjoint-tail (r ∷ rs) ts h = PairwiseDisjoint-tail rs ts h.1

module _ (blake3 : List ℕ → List ℕ) (source : Source) (limits : ResourceLimits) where
  pub record IsOpened (d : SkeletonDetails) : Type 0 where
    pub file_size : d.footer_payload.final_file_size ≡ source.file_size
    pub footer_valid : IsFooterPayload d.footer_payload
    pub metadata_valid : IsMetadata d.metadata
    pub footer_id : d.footer_payload.container_id ≡ d.summary.container_id
    pub metadata_id : d.metadata.container_id ≡ d.summary.container_id
    pub original_size : d.metadata.original_size ≡ d.summary.original_size
    pub line_count : d.metadata.line_count ≡ d.summary.line_count
    pub chunk_count : length d.chunk_entries ≡ d.summary.chunk_count
    pub tiles : Tiles 0 0 0 d.chunk_entries d.summary.original_size d.summary.line_count
    pub within : All (Within limits) d.chunk_entries
    pub decodable : All (Decodable d.dictionaries) d.chunk_entries
    pub placed : All (IsPlaced source.file_size) (entry_ranges d.chunk_entries)
    pub apart : PairwiseDisjoint (entry_ranges d.chunk_entries)
    pub root_apart :
        All (Disjoint (ref_range d.footer_payload.index_root)) (entry_ranges d.chunk_entries)
    pub metadata_stored :
        Stored blake3 source limits
          (ref_range d.footer_payload.metadata)
          d.footer_payload.metadata.checksum
    pub root_stored :
        Stored blake3 source limits
          (ref_range d.footer_payload.index_root)
          d.footer_payload.index_root.checksum

  record RangesOpened (f : FooterPayload) (es : List ChunkEntry) : Type 0 where
    ranges_placed : All (IsPlaced source.file_size) (entry_ranges es)
    ranges_apart : PairwiseDisjoint (entry_ranges es)
    ranges_root : All (Disjoint (ref_range f.index_root)) (entry_ranges es)

  physical_ranges-RangesOpened :
      (header : Header) (trailer : FooterTrailer) (f : FooterPayload) (t : BlockDescriptor)
      (r : IndexRoot) (es : List ChunkEntry)
      → IsU64 source.file_size
      → validate_physical_ranges source.file_size (physical_ranges header trailer f t r es) ≡ ok tt
      → RangesOpened f es
  unfolding physical_ranges
  physical_ranges-RangesOpened header trailer f t r es wide h =
      let (_, placed, apart) =
        (validate_physical_ranges_iff source.file_size (physical_ranges header trailer f t r es)
            wide).0
          h in
      let extra = extra_ranges r.blocks in
      let own = entry_ranges es in
      record {
        ranges_placed = (All-append_inv (IsPlaced source.file_size) extra own placed.1.1.1.1).1;
        ranges_apart = PairwiseDisjoint-tail extra own apart.1.1.1.1;
        ranges_root =
            (All-append_inv (Disjoint (ref_range f.index_root)) extra own apart.1.0.1.1).1;
      }

  open_blocks-IsOpened :
      (header : Header) (trailer : FooterTrailer) (f : FooterPayload) (m : Metadata) (r : IndexRoot)
      (t : BlockDescriptor) (es : List ChunkEntry) (d : SkeletonDetails)
      → FooterOpened blake3 source limits header f
      → MetadataOpened blake3 source limits header f m
      → RootOpened blake3 source limits f m r
      → TableOpened blake3 source limits r t es
      → RangesOpened f es
      → open_blocks blake3 source limits header trailer f m r es ≡ ok d
      → IsOpened d
  unfolding open_blocks
  open_blocks-IsOpened header trailer f m r t es d footer metadata root table ranges h =
      let dictionaries =
        parse_dictionary_blocks blake3 source limits r.blocks header.container_id in
      let (ds, _, h₁) = >>=-eq-ok dictionaries _ h in
      let (_, c₂, h₂) = >>=-eq-ok (validate_required_dictionaries es ds) _ h₁ in
      let (_, _, h₃) = >>=-eq-ok (parse_dense_line_index blake3 source limits r.blocks es) _ h₂ in
      let documents = parse_document_index blake3 source limits r.blocks header.container_id in
      let (_, _, h₄) = >>=-eq-ok documents _ h₃ in
      rw (← ok-injective h₄) (record {
        file_size = footer.footer_size;
        footer_valid = footer.footer_valid;
        metadata_valid = metadata.metadata_valid;
        footer_id = footer.footer_id;
        metadata_id = metadata.metadata_id;
        original_size = root.same_source.same_size;
        line_count = root.same_source.same_lines;
        chunk_count = table.table_count;
        tiles = table.table_tiles;
        within = table.table_within;
        decodable = validate_required_dictionaries-Decodable es ds c₂;
        placed = ranges.ranges_placed;
        apart = ranges.ranges_apart;
        root_apart = ranges.ranges_root;
        metadata_stored = metadata.metadata_stored;
        root_stored = root.root_stored;
      })

  open_body-IsOpened :
      (d : SkeletonDetails)
      → ReadsBytes blake3 source limits
      → open_body blake3 source limits ≡ ok d
      → IsOpened d
  unfolding open_body
  open_body-IsOpened d reads h =
      let (head, _, h₁) = >>=-eq-ok source.header_bytes _ h in
      let (header, _, h₂) = >>=-eq-ok (decode_header head) _ h₁ in
      let (tail, _, h₃) = >>=-eq-ok source.trailer_bytes _ h₂ in
      let (trailer, _, h₄) = >>=-eq-ok (decode_trailer tail) _ h₃ in
      let (f, c₅, h₅) = >>=-eq-ok (open_footer blake3 source limits trailer header) _ h₄ in
      let (m, c₆, h₆) = >>=-eq-ok (open_metadata blake3 source limits f header) _ h₅ in
      let (r, c₇, h₇) = >>=-eq-ok (open_index_root blake3 source limits f m) _ h₆ in
      let (t, _, h₈) = >>=-eq-ok (chunk_table_block r) _ h₇ in
      let (es, c₉, h₉) = >>=-eq-ok (open_chunk_table blake3 source limits r t) _ h₈ in
      let check =
        validate_physical_ranges source.file_size (physical_ranges header trailer f t r es) in
      let (_, c₁₀, h₁₀) = >>=-eq-ok check _ h₉ in
      let footer = open_footer-FooterOpened blake3 source limits trailer header f c₅ in
      let root = open_index_root-RootOpened blake3 source limits f m r c₇ in
      let wide = subst IsU64 footer.footer_size footer.footer_valid.final_file_size_u64 in
      open_blocks-IsOpened header trailer f m r t es d footer
        (open_metadata-MetadataOpened blake3 source limits f header m c₆) root
        (open_chunk_table-TableOpened blake3 source limits r t es reads root.root_valid c₉)
        (physical_ranges-RangesOpened header trailer f t r es wide c₁₀) h₁₀

-- A slice of a list of bytes.
get_range_inv :
    (bytes : List ℕ) (start end : ℕ) (xs : List ℕ)
    → ok_or (get_range bytes start end) physical_range_out_of_bounds ≡ ok xs
    → slice start end bytes ≡ xs
unfolding get_range
get_range_inv bytes start end xs h = elim (Bool-cases (leb start end && leb end (length bytes))) [
  | inl inside ↦ ok-injective (rw inside at h)
  | inr outside ↦ absurd (refused (rw outside at h))
]
  where
    refused : ◌≡◌ {A = Result (List ℕ)} (err physical_range_out_of_bounds) (ok xs) → ⊥
    refused k = cc

slice_physical_inv :
    (bytes : List ℕ) (range : PhysicalRange) (xs : List ℕ)
    → slice_physical bytes range ≡ ok xs
    → (end : ℕ) × (slice range.offset end bytes ≡ xs) × (end ≤ length bytes)
unfolding slice_physical
slice_physical_inv bytes range xs h =
    let e = physical_range_out_of_bounds in
    let (end, _, h₁) = >>=-eq-ok (checked_physical_end range.offset range.size) _ h in
    let (_, c₂, h₂) = >>=-eq-ok (reject_if (ltb (length bytes) end) e) _ h₁ in
    let (_, _, h₃) = >>=-eq-ok (reject_if (ltb usize_max range.offset) e) _ h₂ in
    let (_, _, h₄) = >>=-eq-ok (reject_if (ltb usize_max end) e) _ h₃ in
    (
      end,
      get_range_inv bytes range.offset end xs h₄,
      ltb-false (length bytes) end (reject_if_inv (ltb (length bytes) end) e c₂),
    )

memory_reads_bytes :
    (blake3 : List ℕ → List ℕ) (limits : ResourceLimits) (bytes : List ℕ) (size : ℕ)
    → All IsByte bytes
    → IsU64 (length bytes)
    → ReadsBytes blake3 (memory_source bytes size) limits
unfolding memory_source
memory_reads_bytes blake3 limits bytes size all wide range xs h =
    let (end, same, inside) = slice_physical_inv bytes range xs h in
    let its_bytes = subst (All IsByte) same (All-slice IsByte range.offset end bytes all) in
    let short = length-take (end - range.offset) (drop range.offset bytes) in
    let its_length : length (slice range.offset end bytes) ≤ length bytes = omega arith in
    (
      its_bytes,
      shorter (length xs) (subst (λ (ys : List ℕ). length ys ≤ length bytes) same its_length),
    )
  where
    shorter : (n : ℕ) → n ≤ length bytes → IsU64 n
    shorter n h = omega arith

-- A container of bytes, with a u64 length, that `open_skeleton_details_with_limits` opens: its footer
-- names its true size; header, footer and metadata agree on the container id, metadata and index root
-- on the size and the lines of the original; the chunks are as many as the index root says, tile the
-- original, respect the limits and have their dictionaries; their compressed bytes lie inside the file,
-- apart from the header, the trailer, the index root and one another; and the blocks of metadata and
-- index root have the digests that the footer names.
pub open_skeleton_details_with_limits-IsOpened :
    (blake3 : List ℕ → List ℕ) (bytes : List ℕ) (limits : ResourceLimits) (d : SkeletonDetails)
    → All IsByte bytes
    → IsU64 (length bytes)
    → open_skeleton_details_with_limits blake3 bytes limits ≡ ok d
    → IsOpened blake3 (memory_source bytes (length bytes)) limits d
unfolding open_skeleton_details_with_limits
open_skeleton_details_with_limits-IsOpened blake3 bytes limits d all wide h =
    let (_, _, h₁) = >>=-eq-ok (check_length (length bytes)) _ h in
    let (size, c₂, h₂) = >>=-eq-ok (usize_to_u64 (length bytes)) _ h₁ in
    let same = usize_to_u64_eq (length bytes) size c₂ in
    let run =
      subst (λ (n : ℕ). open_body blake3 (memory_source bytes n) limits ≡ ok d) (sym same) h₂ in
    open_body-IsOpened blake3 (memory_source bytes (length bytes)) limits d
      (memory_reads_bytes blake3 limits bytes (length bytes) all wide) run
