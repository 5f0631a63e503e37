-- ===== src/Chunker/Plan.antt =====
-- The plan of `plan_chunks`, src/chunker.rs, against tilings of the input.
use qzt.Base.{ℕ, ◌+◌, ◌^◌, ◌≤◌, ◌<◌, ◌≡◌, refl, sym, List, [], ◌∷◌, arith}
use qzt.Base.{true, Bool-cases, inl, inr, length, All}
use qzt.Base.{◌==◌, not, not_inv, ==_iff}
use qzt.Base.{
  zero, suc, ◌-◌, ap, ◌∙◌, Bool, false, ◌&&◌, if◌then◌else◌, ltb, lt→ltb, take, take_all,
}
use qzt.Base.{All-map}
use qzt.Base.SplitLines.{split_lines, ends_line}
use qzt.Base.Utf8.{is_utf8}
use qzt.ChunkTable.{starts_with_line_continuation}
use qzt.Chunker.{PlannedChunk, chunk_flags, has_byte}
use qzt.Chunker.Lines.{lower_bound-split_lines, lower_bound_all, ends_line-take}
use qzt.Error.{ok, reject_if, >>=-eq-ok, ok-injective, reject_if_inv}
use qzt.Error.{invalid_utf8}
use qzt.Primitives.{usize_to_u64}
use qzt.Chunker.{ChunkerOptions, ChunkPlan, plan_loop, plan_chunks}
use qzt.Chunker.{line_info, validate}
use qzt.Chunker.Lines.{line_info-Ascends}
use qzt.Chunker.Lines.{lower_bound-zero}
use qzt.Chunker.PlanLoop.{PlanTiles, IsSafe, IsPlanned, plan_loop-PlanTiles, usize_to_u64_inv}

-- What a plan was made from.
pub record Planned (input : List ℕ) (options : ChunkerOptions) (plan : ChunkPlan) : Type 0 where
  pub valid : options.target_chunk_size ≤ options.max_chunk_size
  pub text : is_utf8 input ≡ true
  pub loop :
      plan_loop (length input) input (line_info input).line_starts options 0 0 ≡ ok plan.chunks
  pub lines : plan.line_count ≡ length (line_info input).line_starts

validate_inv :
    (options : ChunkerOptions) {u : Unit {0}}
    → validate options ≡ ok u
    → options.target_chunk_size ≤ options.max_chunk_size
unfolding validate
validate_inv options h = ground arith

plan_nothing :
    (input : List ℕ) (options : ChunkerOptions)
    → length input ≡ 0
    → (plan_loop (length input) input (line_info input).line_starts options 0 0 ≡ ok [])
      × (0 ≡ length (line_info input).line_starts)
unfolding plan_loop line_info
plan_nothing [] options h = (refl, refl)
plan_nothing (b ∷ input) options h = absurd (omega arith)

pub plan_chunks-Planned :
    (input : List ℕ) (options : ChunkerOptions) (plan : ChunkPlan)
    → plan_chunks input options ≡ ok plan
    → Planned input options plan
unfolding plan_chunks
plan_chunks-Planned input options plan e =
    let (_, c₁, e₁) = >>=-eq-ok (validate options) _ e in
    let (_, c₂, e₂) = >>=-eq-ok (reject_if (not (is_utf8 input)) invalid_utf8) _ e₁ in
    let target = validate_inv options c₁ in
    let text = not_inv (is_utf8 input) (reject_if_inv _ _ c₂) in
    elim (Bool-cases (length input == 0)) [
      | inl empty ↦
          let same = ok-injective (rw empty at e₂) in
          let (loop, none_left) = plan_nothing input options ((==_iff (length input) 0).0 empty) in
          record {
            valid = target;
            text = text;
            loop = rw (← same) loop;
            lines = rw (← same) none_left;
          }
      | inr some_bytes ↦
          let e₃ = rw some_bytes at e₂ in
          let (cs, c₃, e₄) =
            >>=-eq-ok (plan_loop (length input) input (line_info input).line_starts options 0 0) _
              e₃ in
          let (n, c₄, e₅) = >>=-eq-ok (usize_to_u64 (length (line_info input).line_starts)) _ e₄ in
          let same = ok-injective e₅ in
          record {
            valid = target;
            text = text;
            loop = rw (← same) c₃;
            lines = rw (← same) (sym (usize_to_u64_inv _ _ c₄));
          }
    ]

-- The lines before a chunk are those of the input up to it, and its flag says whether it starts a line.
abbrev pub IsLined : List ℕ → PlannedChunk → Type 0
IsLined input c =
    (c.first_line ≡ length (split_lines (take c.logical_offset input)))
    × (c.flags ≡ (
        if ends_line true (take c.logical_offset input) then 0 else starts_with_line_continuation))

chunk_flags_lem :
    (input : List ℕ) (start : ℕ)
    → start < length input
    → chunk_flags input start
      ≡ (if ends_line true (take start input) then 0 else starts_with_line_continuation)
unfolding chunk_flags ends_line
chunk_flags_lem input zero h = refl
chunk_flags_lem input (suc n) h =
    let behind : ltb 0 (suc n) ≡ true = lt→ltb 0 (suc n) (omega arith) in
    let before : suc n - 1 ≡ n = omega arith in
    let last = ends_line-take true input n (omega arith) in
    rw (behind, before, last) (either (has_byte input n b'\n'))
  where
    either :
        (b : Bool)
        → (if true && not b then starts_with_line_continuation else 0)
          ≡ (if b then 0 else starts_with_line_continuation)
    either true = refl
    either false = refl

line_count_lem :
    (input : List ℕ) → length (line_info input).line_starts ≡ length (split_lines input)
line_count_lem input =
    sym (lower_bound_all 0 (length input) (line_info input).line_starts (line_info-Ascends input))
    ∙ (lower_bound-split_lines input (length input)
        ∙ ap (λ (xs : List ℕ). length (split_lines xs))
            (take_all (length input) input (omega arith)))

-- A plan that `plan_chunks` makes for valid options and an input whose length, the maximal chunk size
-- added, is u64: the chunks are numbered from 0 and follow one another without a gap in bytes and
-- lines up to the end of the input and the number of its lines; each has at least one byte, at most
-- as many lines as bytes, at most the maximal size, and ends where the input may be cut; its first
-- line is the number of the lines of the input up to it, and its flag is set exactly where it goes on
-- with a line.
pub plan_chunks-PlanTiles :
    (input : List ℕ) (options : ChunkerOptions) (plan : ChunkPlan)
    → length input + options.max_chunk_size < 2 ^ 64
    → plan_chunks input options ≡ ok plan
    → PlanTiles 0 0 0 plan.chunks (length input) plan.line_count
      × All (IsSafe input options) plan.chunks
      × All (IsLined input) plan.chunks
      × (plan.line_count ≡ length (split_lines input))
plan_chunks-PlanTiles input options plan fits e =
    let p = plan_chunks-Planned input options plan e in
    let starts = (line_info input).line_starts in
    let (tiles, made) = rw (lower_bound-zero starts) at (
      plan_loop-PlanTiles input starts options fits p.valid (line_info-Ascends input) (length input)
        0 0 plan.chunks (omega arith) (omega arith) p.loop) in
    (
      rw p.lines tiles,
      All-map {Q = IsSafe input options} plan.chunks (λ c planned. planned.0) made,
      All-map {Q = IsLined input} plan.chunks lined made,
      p.lines ∙ line_count_lem input,
    )
  where
    lined :
        (c : PlannedChunk)
        → IsPlanned input (line_info input).line_starts options c
        → IsLined input c
    lined c (_, first, flags, inside) = (
      first ∙ lower_bound-split_lines input c.logical_offset,
      flags ∙ chunk_flags_lem input c.logical_offset inside,
    )
