-- ===== src/Limits.antt =====
-- src/limits.rs: the resource limits of readers and writers.
use qzt.Base.{ℕ, ◌*◌, ◌||◌, ltb, checked_mul}
use qzt.Error.{Result, ok_or, reject_if, resource_limit_exceeded, ◌>>=◌}
use qzt.Primitives.{usize_to_u64}

-- src/cbor.rs, `CborLimits`.
pub record CborLimits : Type 0 where
  pub max_allocation : ℕ
  pub max_items : ℕ

pub record ResourceLimits : Type 0 where
  pub max_compressed_chunk_size : ℕ
  pub max_uncompressed_chunk_size : ℕ
  pub max_dictionary_size : ℕ
  pub max_index_block_size : ℕ
  pub max_dense_line_index_allocation : ℕ
  pub max_preview_bytes : ℕ
  pub max_cbor_allocation : ℕ
  pub max_cbor_items : ℕ

abbrev pub default_limits : ResourceLimits
default_limits = record {
  max_compressed_chunk_size = 72 * 1024 * 1024;
  max_uncompressed_chunk_size = 64 * 1024 * 1024;
  max_dictionary_size = 16 * 1024 * 1024;
  max_index_block_size = 64 * 1024 * 1024;
  max_dense_line_index_allocation = 256 * 1024 * 1024;
  max_preview_bytes = 1024 * 1024;
  max_cbor_allocation = 16 * 1024 * 1024;
  max_cbor_items = 1_000_000;
}

unfoldable pub enforce_index_block_size : ResourceLimits → ℕ → Result (Unit {0})
enforce_index_block_size limits size =
    reject_if (ltb limits.max_index_block_size size) resource_limit_exceeded

-- 128 is CHUNK_ENTRY_LEN of src/chunk_table.rs.
unfoldable pub enforce_chunk_table_entries : ResourceLimits → ℕ → Result (Unit {0})
unfolding enforce_index_block_size usize_to_u64
enforce_chunk_table_entries limits count = do
  bytes ← ok_or (checked_mul count 128) resource_limit_exceeded
  bytes' ← usize_to_u64 bytes
  enforce_index_block_size limits bytes'

unfoldable pub enforce_chunk_sizes : ResourceLimits → ℕ → ℕ → Result (Unit {0})
enforce_chunk_sizes limits compressed uncompressed =
    reject_if
      (ltb limits.max_compressed_chunk_size compressed
        || ltb limits.max_uncompressed_chunk_size uncompressed)
      resource_limit_exceeded

unfoldable pub enforce_dense_allocation : ResourceLimits → ℕ → Result (Unit {0})
enforce_dense_allocation limits bytes =
    reject_if (ltb limits.max_dense_line_index_allocation bytes) resource_limit_exceeded

unfoldable pub cbor_limits : ResourceLimits → CborLimits
cbor_limits limits = record {
  max_allocation = limits.max_cbor_allocation;
  max_items = limits.max_cbor_items;
}
