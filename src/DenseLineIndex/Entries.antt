-- ===== src/DenseLineIndex/Entries.antt =====
-- The entries of a dense line index, src/dense_line_index.rs: the decoder against the encoder.
use mathlib.Core.Path.{subst}
use qzt.Base.{ℕ, ◌≤◌, ◌≡◌, refl, ap, ◌∙◌, sym, arith}
use qzt.Base.{List, [], ◌∷◌, ◌++◌, append_assoc, append-nil, length, All, IsByte, IsU64}
use qzt.Base.{true, false, ltb, ◌!=◌, ltb-false, checked_add}
use qzt.Error.{Result, ok, ok_or, reject_if, reject_if_inv, reject_if-ne_inv, >>=-eq-ok, ok-pair}
use qzt.Error.{chunk_table_invalid, unexpected_eof, resource_limit_exceeded}
use qzt.Primitives.{usize_to_u64, usize_to_u64_lem, u64_to_usize}
use qzt.Varuint.{write_varuint, read_varuint}
use qzt.ChunkTable.{ChunkEntry}
use qzt.DenseLineIndex.{DenseLineEntry, encode_offsets, encode_entries}
use qzt.DenseLineIndex.{decode_offsets, decode_entries}
use qzt.DenseLineIndex.{allocation_bytes, u64_size}
use qzt.DenseLineIndex.Offsets.{IsAscending, read_varuint-Read, join, decode_offsets-OffsetsRead}

-- An entry for every chunk: with its number, one offset for each of its lines, all inside of it.
abbrev pub Fits : List DenseLineEntry → List ChunkEntry → Type 0
Fits [] [] = Unit
Fits (e ∷ es) (c ∷ cs) =
    (e.chunk_id ≡ c.chunk_id)
    × (length e.line_start_offsets ≡ c.line_count)
    × (c.line_count ≤ c.uncompressed_size)
    × IsAscending true 0 c.uncompressed_size e.line_start_offsets
    × Fits es cs
Fits _ _ = ⊥

u64_to_usize_inv : (v w : ℕ) → u64_to_usize v ≡ ok w → v ≡ w
unfolding u64_to_usize
u64_to_usize_inv v w h = ground arith

-- What the entries were written as, in front of what is left.
pub record EntriesRead (chunks : List ChunkEntry) (xs : List ℕ) (entries : List DenseLineEntry)
    (rest : List ℕ) : Type 0 where
  pub written : List ℕ
  pub split : xs ≡ written ++ rest
  pub fit : Fits entries chunks
  pub writes : (out : List ℕ) → encode_entries entries out ≡ ok (out ++ written)

encode_entries_step :
    (chunk_id count : ℕ) (offsets a b c d : List ℕ) (entries : List DenseLineEntry)
    → length offsets ≡ count
    → IsU64 count
    → ((out : List ℕ) → write_varuint chunk_id out ≡ out ++ a)
    → ((out : List ℕ) → write_varuint count out ≡ out ++ b)
    → ((out : List ℕ) → encode_offsets true 0 offsets out ≡ ok (out ++ c))
    → ((out : List ℕ) → encode_entries entries out ≡ ok (out ++ d))
    → (out : List ℕ)
    → encode_entries (record { chunk_id = chunk_id; line_start_offsets = offsets } ∷ entries) out
      ≡ ok (out ++ (a ++ (b ++ (c ++ d))))
unfolding encode_entries
encode_entries_step chunk_id count offsets a b c d entries number fits one two three four out =
    rw
      (
        number,
        usize_to_u64_lem count fits,
        one out,
        two (out ++ a),
        three ((out ++ a) ++ b),
        four (((out ++ a) ++ b) ++ c),
      )
      (ap ok (
        append_assoc ((out ++ a) ++ b) c d
        ∙ (append_assoc (out ++ a) b (c ++ d) ∙ append_assoc out a (b ++ (c ++ d)))))

number_le : (number lines size : ℕ) → number ≡ lines → ltb size number ≡ false → lines ≤ size
number_le number lines size same h = omega (arith, ltb-false size number h)

-- One round of the decoder's loop over the chunks, taken apart.
record ChunkRound (most : ℕ) (chunk : ChunkEntry) (chunks : List ChunkEntry) (xs : List ℕ)
    (entries : List DenseLineEntry) (rest : List ℕ) : Type 0 where
  chunk_id : ℕ
  number : ℕ
  count : ℕ
  total : ℕ
  xs₁ : List ℕ
  xs₂ : List ℕ
  xs₃ : List ℕ
  offsets : List ℕ
  others : List DenseLineEntry
  read_id : read_varuint xs ≡ ok (chunk_id, xs₁)
  same_id : chunk_id ≡ chunk.chunk_id
  read_number : read_varuint xs₁ ≡ ok (number, xs₂)
  same_number : number ≡ chunk.line_count
  few : ltb chunk.uncompressed_size number ≡ false
  same_count : number ≡ count
  read_offsets : decode_offsets count true 0 chunk.uncompressed_size xs₂ ≡ ok (offsets, xs₃)
  xs₄ : List ℕ
  read_others : decode_entries most chunks total xs₃ ≡ ok (others, xs₄)
  whole :
      ◌≡◌ {A = Result (List DenseLineEntry × List ℕ)}
        (ok (record { chunk_id = chunk_id; line_start_offsets = offsets } ∷ others, xs₄))
        (ok (entries, rest))

decode_entries-ChunkRound :
    (most : ℕ) (chunk : ChunkEntry) (chunks : List ChunkEntry) (requested : ℕ) (xs : List ℕ)
    (entries : List DenseLineEntry) (rest : List ℕ)
    → decode_entries most (chunk ∷ chunks) requested xs ≡ ok (entries, rest)
    → ChunkRound most chunk chunks xs entries rest
unfolding decode_entries
decode_entries-ChunkRound most chunk chunks requested xs entries rest h =
    let ((chunk_id, xs₁), c₁, h₁) = >>=-eq-ok (read_varuint xs) _ h in
    let (_, c₂, h₂) = >>=-eq-ok (reject_if (chunk_id != chunk.chunk_id) chunk_table_invalid) _ h₁ in
    let ((number, xs₂), c₃, h₃) = >>=-eq-ok (read_varuint xs₁) _ h₂ in
    let (_, c₄, h₄) = >>=-eq-ok (reject_if (number != chunk.line_count) chunk_table_invalid) _ h₃ in
    let (_, c₅, h₅) =
      >>=-eq-ok (reject_if (ltb chunk.uncompressed_size number) chunk_table_invalid) _ h₄ in
    let (left, c₆, h₆) = >>=-eq-ok (usize_to_u64 (length xs₂)) _ h₅ in
    let (_, c₇, h₇) = >>=-eq-ok (reject_if (ltb left number) unexpected_eof) _ h₆ in
    let (count, c₈, h₈) = >>=-eq-ok (u64_to_usize number) _ h₇ in
    let (size, c₉, h₉) = >>=-eq-ok (allocation_bytes u64_size count) _ h₈ in
    let (total, c₁₀, h₁₀) =
      >>=-eq-ok (ok_or (checked_add requested size) resource_limit_exceeded) _ h₉ in
    let (_, c₁₁, h₁₁) = >>=-eq-ok (reject_if (ltb most total) resource_limit_exceeded) _ h₁₀ in
    let ((offsets, xs₃), c₁₂, h₁₂) =
      >>=-eq-ok (decode_offsets count true 0 chunk.uncompressed_size xs₂) _ h₁₁ in
    let ((others, xs₄), c₁₃, h₁₃) = >>=-eq-ok (decode_entries most chunks total xs₃) _ h₁₂ in
    record {
      chunk_id = chunk_id;
      number = number;
      count = count;
      total = total;
      xs₁ = xs₁;
      xs₂ = xs₂;
      xs₃ = xs₃;
      offsets = offsets;
      others = others;
      read_id = c₁;
      same_id = reject_if-ne_inv _ _ _ c₂;
      read_number = c₃;
      same_number = reject_if-ne_inv _ _ _ c₄;
      few = reject_if_inv _ _ c₅;
      same_count = u64_to_usize_inv number count c₈;
      read_offsets = c₁₂;
      xs₄ = xs₄;
      read_others = c₁₃;
      whole = h₁₃;
    }

pub decode_entries-EntriesRead :
    (most : ℕ) (chunks : List ChunkEntry) (requested : ℕ) (xs : List ℕ)
    (entries : List DenseLineEntry) (rest : List ℕ)
    → All IsByte xs
    → decode_entries most chunks requested xs ≡ ok (entries, rest)
    → EntriesRead chunks xs entries rest
unfolding decode_entries encode_entries
decode_entries-EntriesRead most [] requested xs entries rest bs h =
    let (same, at) = ok-pair h in
    rw (← same, ← at)
      (record {
        written = [];
        split = refl;
        fit = tt;
        writes = λ out. ap ok (sym (append-nil out));
      })
decode_entries-EntriesRead most (chunk ∷ chunks) requested xs entries rest bs h =
    let r = decode_entries-ChunkRound most chunk chunks requested xs entries rest h in
    let (same, at) = ok-pair r.whole in
    let i = read_varuint-Read xs r.chunk_id r.xs₁ bs r.read_id in
    let n = read_varuint-Read r.xs₁ r.number r.xs₂ i.left r.read_number in
    let o =
      decode_offsets-OffsetsRead r.count true 0 chunk.uncompressed_size r.xs₂ r.offsets r.xs₃ n.left
        r.read_offsets in
    let e =
      decode_entries-EntriesRead most chunks r.total r.xs₃ r.others rest o.left
        (r.read_others ∙ ap (λ t. ok (r.others, t)) at) in
    let its_number : length r.offsets ≡ r.number = o.number ∙ sym r.same_count in
    subst (λ t. EntriesRead (chunk ∷ chunks) xs t rest) same
      (record {
        written = i.written ++ (n.written ++ (o.written ++ e.written));
        split = join i.written (n.written ++ (o.written ++ e.written)) rest i.split (
            join n.written (o.written ++ e.written) rest n.split
              (join o.written e.written rest o.split e.split));
        fit = (
          r.same_id,
          its_number ∙ r.same_number,
          number_le r.number chunk.line_count chunk.uncompressed_size r.same_number r.few,
          o.ascending,
          e.fit,
        );
        writes =
            encode_entries_step r.chunk_id r.number r.offsets i.written n.written o.written
              e.written r.others its_number n.fits i.writes n.writes o.writes e.writes;
      })
