-- ===== src/Codec.antt =====
-- src/codec.rs: the decoding of a chunk. The zstd library is a parameter.
use qzt.Base.{ℕ, List, Bool, Option, ltb, not, length, checked_add}
use qzt.Error.{
  Result, ok, ok_or, reject_if, ◌>>=◌, ◌>>◌, zstd_decode_error, resource_limit_exceeded,
}
use qzt.Primitives.{usize_to_u64, u64_to_usize}

-- What the source uses of the zstd library: whether a decoder can be made for a dictionary, and the
-- bytes that reading to the end of the decoder gives, when it is cut off at a limit.
pub record Zstd : Type 0 where
  pub accepts : List ℕ → List ℕ → Bool
  pub read_limited : List ℕ → List ℕ → ℕ → Option (List ℕ)

unfoldable pub decode_chunk : Zstd → List ℕ → List ℕ → ℕ → Result (List ℕ)
decode_chunk zstd compressed dictionary expected_size = do
  reject_if (not (zstd.accepts compressed dictionary)) zstd_decode_error
  capacity ← u64_to_usize expected_size
  read_limit ← ok_or (checked_add expected_size 1) resource_limit_exceeded
  decoded ← ok_or (zstd.read_limited compressed dictionary read_limit) zstd_decode_error
  size ← usize_to_u64 (length decoded)
  reject_if (ltb expected_size size) resource_limit_exceeded
  ok decoded
