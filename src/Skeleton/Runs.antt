-- ===== src/Skeleton/Runs.antt =====
-- Runs of src/skeleton.rs at a concrete container.
use qzt.Base.{◌≡◌, refl, none, length, arith, are_bytes→All}
use qzt.Error.{ok}
use qzt.Primitives.{usize_to_u64}
use qzt.Limits.{default_limits}
use qzt.Cbor.{
  compare_bytes, encode_deterministic, encode_value, head_bytes, encode_type_and_argument,
}
use qzt.Cbor.{insert_pair, sort_pairs, has_duplicate, extend_pairs, integer_argument}
use qzt.Schema.{checksum_value, u64_value, version_value, block_ref_value}
use qzt.Schema.Footer.{encode as encode_footer, checksum_entry}
use qzt.Io.{slice_reader}
use qzt.Skeleton.{memory_source}
use qzt.Skeleton.OpenAt.{open_skeleton_details_read_at}
use qzt.Skeleton.Open.{open_skeleton_details_with_limits}
use qzt.Skeleton.Opened.{IsOpened, open_skeleton_details_with_limits-IsOpened}
use qzt.Skeleton.Agree.{open_skeleton_details_with_limits-read_at}
use qzt.Skeleton.Write.{next_size, fixed_point_loop, candidate, fixed_point_footer_payload}
use qzt.Skeleton.Write.FixedPoint.{NamesSize, fixed_point_footer_payload-NamesSize}
use qzt.Skeleton.Write.Rounds.{fixed_point_loop-fixed_point_footer_payload}
use qzt.Skeleton.Sample.{
  sevens, container, details, container_opens, container_id, root_ref, metadata_ref, footer,
}

open_skeleton_details_with_limits-IsOpened_example :
    IsOpened sevens (memory_source container (length container)) default_limits details
open_skeleton_details_with_limits-IsOpened_example =
    open_skeleton_details_with_limits-IsOpened sevens container default_limits details
      (are_bytes→All container refl) (omega arith) container_opens

open_skeleton_details_with_limits-read_at_example :
    open_skeleton_details_with_limits sevens container default_limits
    ≡ open_skeleton_details_read_at sevens (slice_reader container) 2985 default_limits
open_skeleton_details_with_limits-read_at_example =
    open_skeleton_details_with_limits-read_at container (omega arith) sevens default_limits

fixed_point : fixed_point_footer_payload container_id root_ref metadata_ref 2627 none ≡ ok footer
unfolding fixed_point_footer_payload fixed_point_loop candidate next_size encode_footer
    encode_deterministic encode_value head_bytes encode_type_and_argument insert_pair sort_pairs
    has_duplicate extend_pairs compare_bytes block_ref_value checksum_value u64_value version_value
    usize_to_u64 checksum_entry integer_argument
fixed_point = refl

fixed_point_footer_payload-NamesSize_example :
    NamesSize 2627 footer × (footer ≡ candidate container_id root_ref metadata_ref none 2985)
fixed_point_footer_payload-NamesSize_example =
    fixed_point_footer_payload-NamesSize container_id root_ref metadata_ref 2627 none footer
      fixed_point

fixed_point_loop-fixed_point_footer_payload_example :
    fixed_point_loop 9 (candidate container_id root_ref metadata_ref none) 2627 0
    ≡ fixed_point_footer_payload container_id root_ref metadata_ref 2627 none
fixed_point_loop-fixed_point_footer_payload_example =
    fixed_point_loop-fixed_point_footer_payload container_id root_ref metadata_ref none 2627 9
      (omega arith)
