-- ===== src/Lib.antt =====
-- A model of the QZT container format library: a compressed text container that can be read by byte
-- range and by line, with its chunk table, its chunk planner, its dense line index, its deterministic
-- CBOR and its footer.
--
-- The parts, the file of the repository that each models, and how they meet:
--   Error            src/error.rs: `QztError`, and `Result` with the monad of `?`.
--   Primitives       src/primitives.rs: `usize` and `u64`, little-endian reads, ends of ranges.
--   Limits           src/limits.rs: `ResourceLimits` and its checks.
--   Format           src/format.rs: magic numbers, versions and sizes.
--   Fixed            src/fixed.rs: `Header`, `FooterTrailer` and `PhysicalRange`. `encode_header` is
--                    `Header::encode`, `decode_trailer` is `FooterTrailer::decode`, and so on.
--   ChunkTable       src/chunk_table.rs: `ChunkEntry::encode` and `decode`, `partition_by_end`,
--                    `chunk_index_for_logical_offset`, `validate_chunk_table_block`.
--   Chunker          src/chunker.rs: `plan_chunks` and all it calls. Its chunks become the entries of
--                    the chunk table.
--   Varuint          src/dense_line_index.rs: `write_varuint`, `read_varuint`, `varuint_len`.
--   DenseLineIndex   src/dense_line_index.rs: the index of line starts inside the chunks of a table.
--   Cbor             src/cbor.rs: `CborValue` and `encode_deterministic`; Cbor.Parser is `Parser` and
--                    `validate_deterministic`, Cbor.Usage `measure_value`, Cbor.Schema
--                    `validate_text_key_schema`.
--   Schema           src/schema.rs: the typed reads of a map (`required_u64` and the like), `Checksum`,
--                    `BlockRef`; its children are the blocks: Schema.Footer is `FooterPayload`,
--                    Schema.Metadata `Metadata`, Schema.IndexRoot `IndexRoot`, Schema.Dictionary
--                    `DictionaryBlock`, Schema.Documents `DocumentIndex`.
--   Io               src/io.rs: the trait `ReadAt` and its implementation for byte slices.
--   Codec            src/zstd_codec.rs: zstd as a record of its operations.
--   Skeleton         src/skeleton.rs: Skeleton.Blocks are the optional blocks, Skeleton.Open is
--                    `open_skeleton_details_with_limits`, Skeleton.OpenAt and Skeleton.BlocksAt are
--                    `open_skeleton_details_read_at` and its parsers, and Skeleton.Write is `fixed_point_footer_payload` and the empty container.
--   Reader           src/reader.rs: `QztReader` and `QztFileReader`, their reads of byte ranges and
--                    documents, and the export; Reader.Lines reads lines, and Reader.Verify is
--                    `verify_deep_entries`, where a hasher is the bytes that it has been fed.
--   Base             nothing of the repository: tests, lists, bytes, bits, the lines of a text, and the
--                    automaton of well-formed UTF-8 that stands for `std::str::from_utf8`.
-- In each part the module of that name holds the definitions, the modules below it the proofs, and
-- the module Runs the examples at concrete values.
--
-- Numbers are natural numbers; a width is a bound where a theorem needs it, and a sum that may wrap is
-- written with its modulus. `usize` has 64 bits. Bytes are numbers below 256, a text is its bytes, a
-- slice that is read to the end with a cursor is the list of what is left of it. `panic` is the
-- outcome of an index out of bounds. A reservation of memory is taken to succeed.
--
-- The digest of blake3 is a parameter `blake3`, and zstd a record `Zstd` of its operations: both are
-- other libraries. The source opens a container twice, from a slice in memory and through positioned
-- reads; the second copy, with its copies of the parsers, is a translation of its own in
-- Skeleton.OpenAt and Skeleton.BlocksAt. The two readers differ in the read of a physical range only,
-- a field of the record `QztReader`. The cache of the last decoded chunk is state that the reads
-- pass on; the cache that a failed read leaves is given up.
--
-- Loops: the loops over lists are structural. `write_varuint` and `varuint_len` recur on the order of
-- the numbers. `partition_loop` has as many rounds as entries, `plan_loop` as many as input bytes,
-- since each round takes at least one or ends the loop with an error. `fixed_point_loop` has the eight
-- rounds of the source. The number that `parse_value` recurs on is no fuel: it is what the source's
-- limit of 64 levels leaves.
--
-- Not modelled: the messages of the errors; compression (zstd) and checksums (blake3), which are other
-- libraries; files and the command line; of src/reader.rs `verify_normal` and the reports; and
-- src/writer.rs, src/search.rs and src/sidecar.rs, which build on the parts above.
pub mod Base
pub mod Error
pub mod Primitives
pub mod Limits
pub mod Format
pub mod Fixed
pub mod ChunkTable
pub mod Chunker
pub mod Varuint
pub mod DenseLineIndex
pub mod Cbor
pub mod Schema
pub mod Io
pub mod Skeleton
pub mod Codec
pub mod Reader
