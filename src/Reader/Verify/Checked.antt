-- ===== src/Reader/Verify/Checked.antt =====
-- What the loop of `verify_deep_entries`, src/reader.rs, has checked of the lines of a container.
use mathlib.Core.Path.{subst}
use qzt.Base.{ℕ, zero, suc, ◌+◌, ◌≤◌, ◌<◌, ◌≡◌, refl, ap, sym, ◌∙◌, arith, List, [], ◌∷◌}
use qzt.Base.{Bool, true, false, if◌then◌else◌, not, ◌&&◌, ◌==◌, ◌!=◌, Option}
use qzt.Base.{none, some, length, length-slice, get_elem?, All, checked_add, ltb, lt→ltb}
use qzt.Base.Utf8.{is_utf8}
use qzt.Error.{Result, ok, ok_or, reject_if, reject_if-ne_inv, >>=-eq-ok, ok-injective}
use qzt.Error.{chunk_table_invalid, invalid_utf8, resource_limit_exceeded}
use qzt.Primitives.{usize_to_u64}
use qzt.ChunkTable.{ChunkEntry, starts_with_line_continuation}
use qzt.ChunkTable.Tiling.{Tiles, Tiles-le}
use qzt.DenseLineIndex.{DenseLineIndex}
use qzt.Schema.Dictionary.Accepted.{usize_to_u64_eq}
use qzt.Skeleton.{SkeletonDetails}
use qzt.Reader.RangeLoop.{Decodes, chunk_bytes}
use qzt.Reader.Lines.{lf, local_line_starts}
use qzt.Base.SplitLines.{ends_line}
use qzt.Reader.Lines.Starts.{is_fresh}
use qzt.Reader.Lines.Table.{AreLined}
use qzt.Reader.Lines.Read.{IsIndexed}
use qzt.Reader.Verify.{TextAnalysis, is_byte, scan_bytes, update_text, DeepState, verify_dense}
use qzt.Reader.Verify.{
  expected_flags, verify_entry, verify_entries, verify_deep_entries, feed_documents,
}
use qzt.Reader.Verify.{start_hasher, cr, count_if}

-- The last byte that was seen says whether a line starts next.
scan_bytes_last :
    (text text' : TextAnalysis) (xs : List ℕ)
    → scan_bytes text xs ≡ ok text'
    → is_byte text'.previous_byte lf ≡ ends_line (is_byte text.previous_byte lf) xs
unfolding scan_bytes ends_line is_byte
scan_bytes_last text text' [] h =
    ap (λ (t : TextAnalysis). is_byte t.previous_byte lf) (sym (ok-injective h))
scan_bytes_last text text' (x ∷ xs) h =
    let after_cr = is_byte text.previous_byte cr in
    let (a, _, h₁) = >>=-eq-ok (count_if ((x == lf) && not after_cr) text.lf_count) _ h in
    let (b, _, h₂) = >>=-eq-ok (count_if ((x == lf) && after_cr) text.crlf_count) _ h₁ in
    scan_bytes_last
      (record {
        line_starts_seen = text.line_starts_seen;
        lf_count = a;
        crlf_count = b;
        previous_byte = some x;
      })
      text' xs h₂

update_text_last :
    (text text' : TextAnalysis) (xs : List ℕ) (flags : ℕ)
    → update_text text xs flags ≡ ok text'
    → is_byte text'.previous_byte lf ≡ ends_line (is_byte text.previous_byte lf) xs
unfolding update_text
update_text_last text text' xs flags h =
    let (n, _, h₁) = >>=-eq-ok (usize_to_u64 (length (local_line_starts xs flags))) _ h in
    let (seen, _, h₂) =
      >>=-eq-ok (ok_or (checked_add text.line_starts_seen n) resource_limit_exceeded) _ h₁ in
    scan_bytes_last
      (record {
        line_starts_seen = seen;
        lf_count = text.lf_count;
        crlf_count = text.crlf_count;
        previous_byte = text.previous_byte;
      })
      text' xs h₂

ends_line_any : (a b : Bool) (xs : List ℕ) → 0 < length xs → ends_line a xs ≡ ends_line b xs
unfolding ends_line
ends_line_any a b [] h = absurd (omega arith)
ends_line_any a b (x ∷ xs) h = refl

-- Whether a chunk at an offset starts a line, from the byte before it.
abbrev starts_at : ℕ → Option ℕ → Bool
starts_at offset previous = not (ltb 0 offset && not (is_byte previous lf))

expected_flags-fresh :
    (e : ChunkEntry) (offset : ℕ) (previous : Option ℕ)
    → e.logical_offset ≡ offset
    → e.flags ≡ expected_flags e previous
    → is_fresh e.flags ≡ starts_at offset previous
unfolding expected_flags
expected_flags-fresh e offset previous at h =
    ap is_fresh h
    ∙ (flags (ltb 0 e.logical_offset && not (is_byte previous lf))
        ∙ ap (λ (o : ℕ). starts_at o previous) at)
  where
    flags : (b : Bool) → is_fresh (if b then starts_with_line_continuation else 0) ≡ not b
    flags true = refl
    flags false = refl

starts_later :
    (offset : ℕ) (previous : Option ℕ)
    → 0 < offset
    → starts_at offset previous ≡ is_byte previous lf
starts_later offset previous h = rw (lt→ltb 0 offset h) (twice (is_byte previous lf))
  where
    twice : (b : Bool) → not (true && not b) ≡ b
    twice true = refl
    twice false = refl

module _ (blake3 : List ℕ → List ℕ) (decode : ChunkEntry → Result (List ℕ))
    (dense : Option DenseLineIndex) where
  record EntryChecked (state state' : DeepState) (i : ℕ) (e : ChunkEntry) (bytes : List ℕ)
      : Type 0 where
    flags : e.flags ≡ expected_flags e state.text.previous_byte
    indexed : verify_dense dense i bytes e.flags ≡ ok tt
    count : length (local_line_starts bytes e.flags) ≡ e.line_count
    last :
        is_byte state'.text.previous_byte lf ≡ ends_line (is_byte state.text.previous_byte lf) bytes

  verify_entry-EntryChecked :
      (state state' : DeepState) (i : ℕ) (e : ChunkEntry) (bytes : List ℕ)
      → verify_entry blake3 decode dense state i e ≡ ok state'
      → decode e ≡ ok bytes
      → EntryChecked state state' i e bytes
  unfolding verify_entry
  verify_entry-EntryChecked state state' i e bytes h decodes =
      let wanted = expected_flags e state.text.previous_byte in
      let (_, c₁, h₁) = >>=-eq-ok (reject_if (e.flags != wanted) chunk_table_invalid) _ h in
      let (_, _, h₂) =
        >>=-eq-ok (reject_if (e.first_line != state.text.line_starts_seen) chunk_table_invalid) _
          h₁ in
      let (decoded, c₃, h₃) = >>=-eq-ok (decode e) _ h₂ in
      let (_, _, h₄) = >>=-eq-ok (reject_if (not (is_utf8 decoded)) invalid_utf8) _ h₃ in
      let (_, c₅, h₅) = >>=-eq-ok (verify_dense dense i decoded e.flags) _ h₄ in
      let (n, c₆, h₆) =
        >>=-eq-ok (usize_to_u64 (length (local_line_starts decoded e.flags))) _ h₅ in
      let (_, c₇, h₇) = >>=-eq-ok (reject_if (e.line_count != n) chunk_table_invalid) _ h₆ in
      let (text, c₈, h₈) = >>=-eq-ok (update_text state.text decoded e.flags) _ h₇ in
      let (hasher, _, h₉) =
        >>=-eq-ok (feed_documents blake3 state.document_hasher e.logical_offset decoded) _ h₈ in
      let (size, _, h') = >>=-eq-ok (usize_to_u64 (length decoded)) _ h₉ in
      let (total, _, h'') =
        >>=-eq-ok (ok_or (checked_add state.decoded_bytes size) resource_limit_exceeded) _ h' in
      let same : text ≡ state'.text = ap (λ (s : DeepState). s.text) (ok-injective h'') in
      let alike : decoded ≡ bytes = ok-injective (sym c₃ ∙ decodes) in
      subst (EntryChecked state state' i e) alike (record {
        flags = reject_if-ne_inv e.flags wanted chunk_table_invalid c₁;
        indexed = c₅;
        count =
            usize_to_u64_eq (length (local_line_starts decoded e.flags)) n c₆
            ∙ sym (reject_if-ne_inv e.line_count n chunk_table_invalid c₇);
        last =
            ap (λ (t : TextAnalysis). is_byte t.previous_byte lf) (sym same)
            ∙ update_text_last state.text text decoded e.flags c₈;
      })

-- The dense line index, if any, has the line starts of the chunks, the first of which is `index`.
abbrev IndexedFrom : List ℕ → ℕ → List ChunkEntry → Option DenseLineIndex → Type 0
IndexedFrom original index es dense =
    (r : ℕ) (e : ChunkEntry)
    → get_elem? es r ≡ some e
    → verify_dense dense (index + r) (chunk_bytes original e) e.flags ≡ ok tt

IndexedFrom-IsIndexed :
    (original : List ℕ) (es : List ChunkEntry) (dense : Option DenseLineIndex)
    → IndexedFrom original 0 es dense
    → IsIndexed original es dense
unfolding verify_dense
IndexedFrom-IsIndexed original es none h = tt
IndexedFrom-IsIndexed original es (some dense) h = λ r e at.
    subst (λ (n : ℕ). verify_dense (some dense) n (chunk_bytes original e) e.flags ≡ ok tt)
      (from_zero r) (h r e at)
  where
    from_zero : (n : ℕ) → 0 + n ≡ n
    from_zero n = omega arith

IndexedFrom-cons :
    (original : List ℕ) (index : ℕ) (e : ChunkEntry) (es : List ChunkEntry)
    (dense : Option DenseLineIndex)
    → verify_dense dense index (chunk_bytes original e) e.flags ≡ ok tt
    → IndexedFrom original (index + 1) es dense
    → IndexedFrom original index (e ∷ es) dense
IndexedFrom-cons original index e es dense first rest zero f at =
    subst
      (λ (g : ChunkEntry). verify_dense dense (index + 0) (chunk_bytes original g) g.flags ≡ ok tt)
      (same at)
      (subst (λ (n : ℕ). verify_dense dense n (chunk_bytes original e) e.flags ≡ ok tt) (here index)
        first)
  where
    same : some e ≡ some f → e ≡ f
    same h = cc

    here : (n : ℕ) → n ≡ n + 0
    here n = omega arith
IndexedFrom-cons original index e es dense first rest (suc r) f at =
    subst (λ (n : ℕ). verify_dense dense n (chunk_bytes original f) f.flags ≡ ok tt) (later index r)
      (rest r f at)
  where
    later : (n m : ℕ) → n + 1 + m ≡ n + suc m
    later n m = omega arith

module _ (blake3 : List ℕ → List ℕ) (decode : ChunkEntry → Result (List ℕ))
    (original : List ℕ) where
  -- The chunk has bytes, so that the byte before the next one is its last one.
  next_starts :
      (offset : ℕ) (e : ChunkEntry) (previous previous' : Option ℕ)
      → e.logical_offset ≡ offset
      → 0 < e.uncompressed_size
      → offset + e.uncompressed_size ≤ length original
      → is_byte previous' lf ≡ ends_line (is_byte previous lf) (chunk_bytes original e)
      → starts_at (offset + e.uncompressed_size) previous'
        ≡ ends_line (starts_at offset previous) (chunk_bytes original e)
  next_starts offset e previous previous' at full inside last =
      let bytes = chunk_bytes original e in
      let width =
        length-slice e.logical_offset (e.logical_offset + e.uncompressed_size) original
          (fits e.logical_offset at) in
      starts_later (offset + e.uncompressed_size) previous' (omega arith)
      ∙ (last
          ∙ ends_line_any (is_byte previous lf) (starts_at offset previous) bytes
              (omega (arith, width)))
    where
      fits : (o : ℕ) → o ≡ offset → o + e.uncompressed_size ≤ length original
      fits o p = omega arith

  verify_entries-AreLined :
      (dense : Option DenseLineIndex) (index offset line lines : ℕ) (state state' : DeepState)
      (es : List ChunkEntry)
      → Tiles index offset line es (length original) lines
      → All (Decodes original decode) es
      → verify_entries blake3 decode dense state index es ≡ ok state'
      → AreLined original (starts_at offset state.text.previous_byte) es
        × IndexedFrom original index es dense
  unfolding verify_entries
  verify_entries-AreLined dense index offset line lines state state' [] t decodes h =
      (tt, λ r e at. cc)
  verify_entries-AreLined dense index offset line lines state state' (e ∷ es)
        (_, at, _, _, full, _, _, t) (decoded, decodes) h =
      let (next, c₁, h₁) = >>=-eq-ok (verify_entry blake3 decode dense state index e) _ h in
      let checked =
        verify_entry-EntryChecked blake3 decode dense state next index e (chunk_bytes original e) c₁
          decoded in
      let o = offset + e.uncompressed_size in
      let (lined, indexed) =
        verify_entries-AreLined dense (index + 1) o (line + e.line_count) lines next state' es t
          decodes h₁ in
      let inside = (Tiles-le (index + 1) o (line + e.line_count) (length original) lines es t).0 in
      let starts =
        next_starts offset e state.text.previous_byte next.text.previous_byte at full inside
          checked.last in
      (
        (
          expected_flags-fresh e offset state.text.previous_byte at checked.flags,
          checked.count,
          subst (λ (b : Bool). AreLined original b es) starts lined,
        ),
        IndexedFrom-cons original index e es dense checked.indexed indexed,
      )

  -- Deep verification has checked the flags, the line counts and the dense line index.
  pub verify_deep_entries-AreLined :
      (details : SkeletonDetails) (lines n : ℕ)
      → Tiles 0 0 0 details.chunk_entries (length original) lines
      → All (Decodes original decode) details.chunk_entries
      → verify_deep_entries blake3 decode details ≡ ok n
      → AreLined original true details.chunk_entries
        × IsIndexed original details.chunk_entries details.dense_line_index
  unfolding verify_deep_entries is_byte
  verify_deep_entries-AreLined details lines n t decodes h =
      let start : DeepState = record {
        hashed = [];
        text = record { line_starts_seen = 0; lf_count = 0; crlf_count = 0; previous_byte = none };
        document_hasher = start_hasher details.document_index;
        decoded_bytes = 0;
      } in
      let (state, c₁, _) =
        >>=-eq-ok
          (verify_entries blake3 decode details.dense_line_index start 0 details.chunk_entries) _
          h in
      let (lined, indexed) =
        verify_entries-AreLined details.dense_line_index 0 0 0 lines start state
          details.chunk_entries t decodes c₁ in
      (lined, IndexedFrom-IsIndexed original details.chunk_entries details.dense_line_index indexed)
