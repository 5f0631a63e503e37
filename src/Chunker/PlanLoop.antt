-- ===== src/Chunker/PlanLoop.antt =====
-- The loop of `plan_chunks`, src/chunker.rs, against tilings of the input.
use qzt.Base.{ℕ, zero, suc, ◌+◌, ◌-◌, ◌^◌, ◌≤◌, ◌<◌, ◌≡◌, refl, List, [], ◌∷◌, arith}
use qzt.Base.{true, Bool-cases, inl, inr, length, All, ltb, leb, ltb→lt, ltb-false}
use qzt.Error.{ok, reject_if, >>=-eq-ok, ok-injective}
use qzt.Error.{resource_limit_exceeded}
use qzt.Limits.{default_limits, enforce_chunk_table_entries}
use qzt.Primitives.{usize_to_u64}
use qzt.Chunker.{ChunkerOptions, PlannedChunk, plan_loop, choose_chunk_end}
use qzt.Chunker.{lower_bound, chunk_flags}
use qzt.Chunker.Cuts.{IsCut, choose_chunk_end_lem}
use qzt.Chunker.Lines.{Ascends, lower_bound_gap, lower_bound_mono}
use qzt.Chunker.Lines.{lower_bound_all}

-- The chunks are numbered from `index` and continue the bytes from `offset` and the lines from
-- `line` without a gap, up to `size` bytes and `lines` lines.
abbrev pub PlanTiles : ℕ → ℕ → ℕ → List PlannedChunk → ℕ → ℕ → Type 0
PlanTiles index offset line [] size lines = (offset ≡ size) × (line ≡ lines)
PlanTiles index offset line (c ∷ cs) size lines =
    (c.chunk_id ≡ index)
    × (c.logical_offset ≡ offset)
    × (c.first_line ≡ line)
    × (0 < c.uncompressed_size)
    × (c.line_count ≤ c.uncompressed_size)
    × (c.flags < 2)
    × PlanTiles (index + 1) (offset + c.uncompressed_size) (line + c.line_count) cs size lines

-- A chunk is no longer than the maximum, and ends where the input may be cut.
abbrev pub IsSafe : List ℕ → ChunkerOptions → PlannedChunk → Type 0
IsSafe input options c =
    (c.uncompressed_size ≤ options.max_chunk_size)
    × IsCut input (c.logical_offset + c.uncompressed_size)

-- Such a chunk starts inside the input, with the line and the flag of its offset.
abbrev pub IsPlanned : List ℕ → List ℕ → ChunkerOptions → PlannedChunk → Type 0
IsPlanned input starts options c =
    IsSafe input options c
    × (c.first_line ≡ lower_bound starts c.logical_offset)
    × (c.flags ≡ chunk_flags input c.logical_offset)
    × (c.logical_offset < length input)

chunk_flags_bound : (input : List ℕ) (start : ℕ) → chunk_flags input start < 2
unfolding chunk_flags
chunk_flags_bound input start = ground arith

pub usize_to_u64_inv : (v w : ℕ) → usize_to_u64 v ≡ ok w → v ≡ w
unfolding usize_to_u64
usize_to_u64_inv v w h = ground arith

abbrev chunk_of : ℕ → ℕ → ℕ → ℕ → ℕ → ℕ → PlannedChunk
chunk_of i o s f l g = record {
  chunk_id = i;
  logical_offset = o;
  uncompressed_size = s;
  first_line = f;
  line_count = l;
  flags = g;
}

same_head :
    {i i' o o' s s' f f' l l' g : ℕ} {rest cs : List PlannedChunk}
    → usize_to_u64 i ≡ ok i'
    → usize_to_u64 o ≡ ok o'
    → usize_to_u64 s ≡ ok s'
    → usize_to_u64 f ≡ ok f'
    → usize_to_u64 l ≡ ok l'
    → chunk_of i' o' s' f' l' g ∷ rest ≡ cs
    → chunk_of i o s f l g ∷ rest ≡ cs
same_head c₁ c₂ c₃ c₄ c₅ h =
    rw
      (
        usize_to_u64_inv _ _ c₁,
        usize_to_u64_inv _ _ c₂,
        usize_to_u64_inv _ _ c₃,
        usize_to_u64_inv _ _ c₄,
        usize_to_u64_inv _ _ c₅,
      )
      h

module _ (input starts : List ℕ) (options : ChunkerOptions) where
  -- One round of the loop, taken apart.
  pub record Round (start count : ℕ) (cs : List PlannedChunk) (rounds : ℕ) : Type 0 where
    pub end : ℕ
    pub rest : List PlannedChunk
    pub chosen : choose_chunk_end input start options ≡ ok end
    pub planned : plan_loop rounds input starts options end (count + 1) ≡ ok rest
    pub head :
        chunk_of count start
            (end - start)
            (lower_bound starts start)
            (lower_bound starts end - lower_bound starts start)
            (chunk_flags input start)
          ∷ rest
        ≡ cs

  plan_loop-Round :
      (rounds start count : ℕ) (cs : List PlannedChunk)
      → ltb start (length input) ≡ true
      → plan_loop (suc rounds) input starts options start count ≡ ok cs
      → Round start count cs rounds
  unfolding plan_loop
  plan_loop-Round rounds start count cs more h =
      let h₀ = rw more at h in
      let (_, _, h₁) = >>=-eq-ok (enforce_chunk_table_entries default_limits (count + 1)) _ h₀ in
      let (end, c₁, h₂) = >>=-eq-ok (choose_chunk_end input start options) _ h₁ in
      let (_, _, h₃) = >>=-eq-ok (reject_if (leb end start) resource_limit_exceeded) _ h₂ in
      let (i, c₄, h₄) = >>=-eq-ok (usize_to_u64 count) _ h₃ in
      let (o, c₅, h₅) = >>=-eq-ok (usize_to_u64 start) _ h₄ in
      let (s, c₆, h₆) = >>=-eq-ok (usize_to_u64 (end - start)) _ h₅ in
      let (f, c₇, h₇) = >>=-eq-ok (usize_to_u64 (lower_bound starts start)) _ h₆ in
      let (l, c₈, h₈) =
        >>=-eq-ok (usize_to_u64 (lower_bound starts end - lower_bound starts start)) _ h₇ in
      let (rest, c₉, h₉) = >>=-eq-ok (plan_loop rounds input starts options end (count + 1)) _ h₈ in
      record {
        end = end;
        rest = rest;
        chosen = c₁;
        planned = c₉;
        head = same_head c₄ c₅ c₆ c₇ c₈ (ok-injective h₉);
      }

  module _ (fits : length input + options.max_chunk_size < 2 ^ 64)
      (target : options.target_chunk_size ≤ options.max_chunk_size)
      (ascends : Ascends 0 (length input) starts) where
    stop :
        (start count : ℕ) (cs : List PlannedChunk)
        → start ≡ length input
        → [] ≡ cs
        → PlanTiles count start (lower_bound starts start) cs (length input) (length starts)
          × All (IsPlanned input starts options) cs
    stop start count cs last nil =
        rw (← nil, last) ((refl, lower_bound_all 0 (length input) starts ascends), tt)

    advance :
        (rounds start count : ℕ) (cs : List PlannedChunk)
        → start < length input
        → (r : Round start count cs rounds)
        → PlanTiles
            (count + 1)
            r.end
            (lower_bound starts r.end)
            r.rest
            (length input)
            (length starts)
          × All (IsPlanned input starts options) r.rest
        → PlanTiles count start (lower_bound starts start) cs (length input) (length starts)
          × All (IsPlanned input starts options) cs
    advance rounds start count cs before r (tiles, safe) =
        let (later, inside, few, cut) =
          choose_chunk_end_lem input start options r.end before fits target r.chosen in
        let next : start + (r.end - start) ≡ r.end = omega arith in
        let up = lower_bound_mono starts start r.end (omega arith) in
        let gap = lower_bound_gap 0 (length input) starts start r.end ascends (omega arith) in
        let line : lower_bound starts start + (lower_bound starts r.end - lower_bound starts start)
            ≡ lower_bound starts r.end =
          omega arith in
        rw (← r.head, next, line)
          (
            (refl, refl, refl, omega arith, omega arith, chunk_flags_bound input start, tiles),
            (((few, cut), refl, refl, before), safe),
          )

    pub plan_loop-PlanTiles :
        (rounds start count : ℕ) (cs : List PlannedChunk)
        → start ≤ length input
        → length input ≤ start + rounds
        → plan_loop rounds input starts options start count ≡ ok cs
        → PlanTiles count start (lower_bound starts start) cs (length input) (length starts)
          × All (IsPlanned input starts options) cs
    unfolding plan_loop
    plan_loop-PlanTiles zero start count cs h₁ h₂ e =
        stop start count cs (omega arith) (ok-injective e)
    plan_loop-PlanTiles (suc rounds) start count cs h₁ h₂ e =
        elim (Bool-cases (ltb start (length input))) [
          | inr done ↦
              let last : start ≡ length input =
                omega (arith, ltb-false start (length input) done) in
              stop start count cs last (ok-injective (rw done at e))
          | inl more ↦
              let before = ltb→lt start (length input) more in
              let r = plan_loop-Round rounds start count cs more e in
              let (later, inside, _, _) =
                choose_chunk_end_lem input start options r.end before fits target r.chosen in
              advance rounds start count cs before r
                (plan_loop-PlanTiles rounds r.end (count + 1) r.rest inside (omega arith) r.planned)
        ]
