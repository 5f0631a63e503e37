-- ===== src/Skeleton/Agree.antt =====
-- The two ways to open a container, src/skeleton.rs.
use mathlib.Core.Path.{fun_ext}
use qzt.Base.{ℕ, ◌≡◌, refl, ap, ◌∙◌, arith, List, inl, inr, ◌+◌, ◌-◌, ◌≤◌}
use qzt.Base.{length, take, drop, slice, leb, ltb, ltb-false, false-ltb, le→leb}
use qzt.Base.{leb→le, Bool-cases, IsU64, u64_max, usize_max}
use qzt.Base.{take_all, length-drop, some}
use qzt.Error.{ok}
use qzt.Primitives.{checked_physical_end, u64_to_usize, usize_to_u64_lem}
use qzt.Limits.{ResourceLimits}
use qzt.Fixed.{PhysicalRange}
use qzt.Io.{slice_reader, read_slice_to, get_range, or_failed}
use qzt.Skeleton.{memory_source, slice_physical, read_physical_at}
use qzt.Skeleton.{read_exact_at_qzt, from_io}
use qzt.Skeleton.Open.{open_skeleton_details_with_limits, check_length}
use qzt.Skeleton.OpenAt.{open_skeleton_details_read_at}
use qzt.Skeleton.Copies.{positioned_source, open_body_agree}

module _ (bytes : List ℕ) (fits : IsU64 (length bytes)) where
  get_range_lem :
      (start end : ℕ)
      → start ≤ end
      → end ≤ length bytes
      → get_range bytes start end ≡ some (slice start end bytes)
  unfolding get_range
  get_range_lem start end h k = rw (le→leb start end h, le→leb end (length bytes) k) refl

  -- A read inside the slice fills the buffer with the bytes at the offset.
  pub read_exact_at_qzt-slice :
      (offset len : ℕ)
      → offset + len ≤ length bytes
      → read_exact_at_qzt (slice_reader bytes) offset len ≡ ok (slice offset (offset + len) bytes)
  unfolding read_exact_at_qzt slice_reader read_slice_to from_io or_failed
  read_exact_at_qzt-slice offset len h =
      let small : offset ≤ u64_max = omega arith in
      let sum : offset + len ≤ u64_max = omega arith in
      let order : offset ≤ offset + len = omega arith in
      rw
        (
          le→leb offset u64_max small,
          le→leb (offset + len) u64_max sum,
          get_range_lem offset (offset + len) order h,
        )
        refl

  read_agree :
      (range : PhysicalRange)
      → slice_physical bytes range ≡ read_physical_at (slice_reader bytes) (length bytes) range
  unfolding slice_physical read_physical_at checked_physical_end u64_to_usize
  read_agree range = elim (Bool-cases (leb (range.offset + range.size) u64_max)) [
    | inr large ↦ rw large refl
    | inl small ↦ rw small (elim (Bool-cases (ltb (length bytes) (range.offset + range.size))) [
      | inl beyond ↦ rw beyond refl
      | inr inside ↦
          let within = ltb-false (length bytes) (range.offset + range.size) inside in
          let end = leb→le (range.offset + range.size) u64_max small in
          let p = left range.offset range.size end in
          let q = right range.offset range.size end in
          let r = below range.offset range.size in
          rw
            (
              inside,
              false-ltb usize_max range.offset p,
              false-ltb usize_max (range.offset + range.size) end,
              get_range_lem range.offset (range.offset + range.size) r within,
              le→leb range.size usize_max q,
              read_exact_at_qzt-slice range.offset range.size within,
            )
            refl
    ])
  ]
    where
      left : (a b : ℕ) → a + b ≤ u64_max → a ≤ u64_max
      left a b k = omega arith

      right : (a b : ℕ) → a + b ≤ u64_max → b ≤ u64_max
      right a b k = omega arith

      below : (a b : ℕ) → a ≤ a + b
      below a b = omega arith

  header_agree :
      192 ≤ length bytes → read_exact_at_qzt (slice_reader bytes) 0 128 ≡ ok (take 128 bytes)
  header_agree h = read_exact_at_qzt-slice 0 128 (omega arith)

  trailer_agree :
      192 ≤ length bytes
      → read_exact_at_qzt (slice_reader bytes) (length bytes - 64) 64
        ≡ ok (drop (length bytes - 64) bytes)
  trailer_agree h =
      let at = length bytes - 64 in
      let width : at + 64 - at ≡ 64 = omega arith in
      let rest : length (drop at bytes) ≤ 64 = omega (arith, length-drop at bytes) in
      read_exact_at_qzt-slice at 64 (omega arith)
      ∙ ap ok (ap (λ (n : ℕ). take n (drop at bytes)) width ∙ take_all 64 (drop at bytes) rest)

  sources_agree :
      192 ≤ length bytes
      → positioned_source (slice_reader bytes) (length bytes) ≡ memory_source bytes (length bytes)
  unfolding positioned_source memory_source
  sources_agree h = rw (header_agree h, trailer_agree h, ← fun_ext read_agree) refl

  -- Opening the bytes in memory and opening them through positioned reads give the same result, be
  -- it the same details or the same error, for a slice with a u64 length.
  pub open_skeleton_details_with_limits-read_at :
      (blake3 : List ℕ → List ℕ) (limits : ResourceLimits)
      → open_skeleton_details_with_limits blake3 bytes limits
        ≡ open_skeleton_details_read_at blake3 (slice_reader bytes) (length bytes) limits
  unfolding open_skeleton_details_with_limits open_skeleton_details_read_at check_length
  open_skeleton_details_with_limits-read_at blake3 limits =
      elim (Bool-cases (ltb (length bytes) 128)) [
        | inl short ↦ rw short refl
        | inr long ↦ elim (Bool-cases (ltb (length bytes) 192)) [
          | inl short ↦ rw (long, short) refl
          | inr enough ↦
              let room = ltb-false (length bytes) 192 enough in
              let second =
                open_body_agree blake3 (slice_reader bytes) (length bytes) limits (omega arith) in
              rw (long, enough, usize_to_u64_lem (length bytes) fits, second, sources_agree room)
                refl
        ]
      ]
