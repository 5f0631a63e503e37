-- ===== src/Chunker/Runs.antt =====
-- Runs of the chunk planner at concrete values.
use qzt.Base.{ℕ, ◌-◌, ◌<◌, ◌≤◌, ◌≡◌, refl, List, [], ◌∷◌, arith, length, All}
use qzt.Error.{ok, err, resource_limit_exceeded}
use qzt.Limits.{enforce_chunk_table_entries}
use qzt.Primitives.{usize_to_u64}
use qzt.Base.Utf8.{is_utf8}
use qzt.Chunker.{ChunkerOptions, PlannedChunk, ChunkPlan, mixed, choose_chunk_end, plan_chunks}
use qzt.Chunker.{last_line_boundary, previous_valid_split, is_utf8_boundary, splits_crlf, plan_loop}
use qzt.Chunker.{line_info, lower_bound, chunk_flags, has_byte, is_cr}
use qzt.Chunker.Cuts.{IsCut, choose_chunk_end_lem}
use qzt.Chunker.PlanLoop.{PlanTiles, IsSafe}
use qzt.Base.SplitLines.{split_lines}
use qzt.Chunker.Plan.{IsLined, plan_chunks-PlanTiles}

-- "ab", CR, LF, "c", LF, "d"
abbrev text : List ℕ
text = b'a' ∷ b'b' ∷ b'\r' ∷ b'\n' ∷ b'c' ∷ b'\n' ∷ b'd' ∷ []

abbrev threes : ChunkerOptions
threes = record { target_chunk_size = 3; max_chunk_size = 3 }

abbrev chunk : ℕ → ℕ → ℕ → ℕ → ℕ → ℕ → PlannedChunk
chunk i o s f l g = record {
  chunk_id = i;
  logical_offset = o;
  uncompressed_size = s;
  first_line = f;
  line_count = l;
  flags = g;
}

-- The first chunk ends before the carriage return.
abbrev plan : ChunkPlan
plan = record {
  chunks = chunk 0 0 2 0 1 0 ∷ chunk 1 2 2 1 0 1 ∷ chunk 2 4 3 1 2 0 ∷ [];
  line_count = 3;
  newline_mode = mixed;
}

text_plan : plan_chunks text threes ≡ ok plan
unfolding plan_chunks plan_loop choose_chunk_end line_info lower_bound chunk_flags is_utf8
    enforce_chunk_table_entries usize_to_u64 last_line_boundary previous_valid_split
    is_utf8_boundary splits_crlf has_byte is_cr
text_plan = refl

text_end : choose_chunk_end text 0 threes ≡ ok 2
unfolding choose_chunk_end last_line_boundary previous_valid_split is_utf8_boundary splits_crlf
    has_byte is_cr
text_end = refl

-- No valid split: a carriage return and its newline do not fit into one byte.
no_split :
    plan_chunks (b'\r' ∷ b'\n' ∷ []) (record { target_chunk_size = 1; max_chunk_size = 1 })
    ≡ err resource_limit_exceeded
unfolding plan_chunks plan_loop choose_chunk_end line_info lower_bound chunk_flags is_utf8
    enforce_chunk_table_entries usize_to_u64 last_line_boundary previous_valid_split
    is_utf8_boundary splits_crlf has_byte is_cr
no_split = refl

choose_chunk_end_lem_example : (0 < 2) × (2 ≤ length text) × (2 - 0 ≤ 3) × IsCut text 2
choose_chunk_end_lem_example =
    choose_chunk_end_lem text 0 threes 2 (omega arith) (omega arith) (omega arith) text_end

plan_chunks-PlanTiles_example :
    PlanTiles 0 0 0 plan.chunks (length text) 3
    × All (IsSafe text threes) plan.chunks
    × All (IsLined text) plan.chunks
    × (3 ≡ length (split_lines text))
plan_chunks-PlanTiles_example = plan_chunks-PlanTiles text threes plan (omega arith) text_plan
