-- ===== src/DenseLineIndex/Canonical.antt =====
-- What `decode_for_chunks_with_limit` of src/dense_line_index.rs accepts.
use mathlib.Core.Path.{subst}
use qzt.Base.{ℕ, suc, ◌/◌, ◌≡◌, refl, ap, ◌∙◌, sym, arith}
use qzt.Base.{List, [], ◌∷◌, ◌++◌, append-nil, length, All, IsByte, IsU64}
use qzt.Base.{ltb, ◌!=◌}
use qzt.Error.{ok, reject_if, reject_if-ne_inv, >>=-eq-ok}
use qzt.Error.{ok-injective, chunk_table_invalid, unexpected_eof, resource_limit_exceeded}
use qzt.Primitives.{usize_to_u64, usize_to_u64_lem}
use qzt.Varuint.{write_varuint, read_varuint}
use qzt.ChunkTable.{ChunkEntry}
use qzt.DenseLineIndex.{DenseLineEntry, DenseLineIndex, encode_entries, encode}
use qzt.DenseLineIndex.{decode_entries, decode_for_chunks_with_limit}
use qzt.DenseLineIndex.{allocation_bytes, dense_line_entry_size}
use qzt.DenseLineIndex.Offsets.{read_varuint-Read, join}
use qzt.DenseLineIndex.Entries.{Fits, decode_entries-EntriesRead}

usize_to_u64_inv : (v w : ℕ) → usize_to_u64 v ≡ ok w → v ≡ w
unfolding usize_to_u64
usize_to_u64_inv v w h = ground arith

Fits-length :
    (entries : List DenseLineEntry) (chunks : List ChunkEntry)
    → Fits entries chunks
    → length entries ≡ length chunks
Fits-length [] [] h = refl
Fits-length (e ∷ es) (c ∷ cs) (_, _, _, _, h) = ap suc (Fits-length es cs h)
Fits-length [] (c ∷ cs) h = absurd h
Fits-length (e ∷ es) [] h = absurd h

encode_all :
    (number : ℕ) (entries : List DenseLineEntry) (a b rest input : List ℕ)
    → length entries ≡ number
    → IsU64 number
    → ((out : List ℕ) → write_varuint number out ≡ out ++ a)
    → ((out : List ℕ) → encode_entries entries out ≡ ok (out ++ b))
    → length rest ≡ 0
    → input ≡ (a ++ b) ++ rest
    → encode (record { entries = entries }) ≡ ok input
unfolding encode
encode_all number entries a b [] input same fits one others none_left whole =
    rw (same, usize_to_u64_lem number fits, one [])
      (others a ∙ ap ok (sym (whole ∙ append-nil (a ++ b))))
encode_all number entries a b (x ∷ rest) input same fits one others none_left whole =
    absurd (omega arith)

-- For an input of bytes, an index that `decode_for_chunks_with_limit` accepts is encoded by `encode`
-- to the very input, and it fits the chunks: an entry for every chunk, with its number and one offset
-- for each of its lines, and these ascend below the size of the chunk.
pub decode_for_chunks_canonical :
    (input : List ℕ) (chunks : List ChunkEntry) (most : ℕ) (index : DenseLineIndex)
    → All IsByte input
    → decode_for_chunks_with_limit input chunks most ≡ ok index
    → (encode index ≡ ok input) × Fits index.entries chunks
unfolding decode_for_chunks_with_limit
decode_for_chunks_canonical input chunks most index bs h =
    let ((number, xs), c₁, h₁) = >>=-eq-ok (read_varuint input) _ h in
    let (expected, c₂, h₂) = >>=-eq-ok (usize_to_u64 (length chunks)) _ h₁ in
    let (_, c₃, h₃) = >>=-eq-ok (reject_if (number != expected) chunk_table_invalid) _ h₂ in
    let (half, c₄, h₄) = >>=-eq-ok (usize_to_u64 (length xs / 2)) _ h₃ in
    let (_, c₅, h₅) = >>=-eq-ok (reject_if (ltb half number) unexpected_eof) _ h₄ in
    let (requested, c₆, h₆) =
      >>=-eq-ok (allocation_bytes dense_line_entry_size (length chunks)) _ h₅ in
    let (_, c₇, h₇) = >>=-eq-ok (reject_if (ltb most requested) resource_limit_exceeded) _ h₆ in
    let ((entries, rest), c₈, h₈) = >>=-eq-ok (decode_entries most chunks requested xs) _ h₇ in
    let (_, c₉, h₉) = >>=-eq-ok (reject_if (length rest != 0) chunk_table_invalid) _ h₈ in
    let n = read_varuint-Read input number xs bs c₁ in
    let e = decode_entries-EntriesRead most chunks requested xs entries rest n.left c₈ in
    let its_number : length entries ≡ number =
      Fits-length entries chunks e.fit
      ∙ (usize_to_u64_inv (length chunks) expected c₂ ∙ sym (reject_if-ne_inv _ _ _ c₃)) in
    let whole = join n.written e.written rest n.split e.split in
    let back =
      encode_all number entries n.written e.written rest input its_number n.fits n.writes e.writes
        (reject_if-ne_inv _ _ _ c₉) whole in
    subst (λ i. (encode i ≡ ok input) × Fits i.entries chunks) (ok-injective h₉) (back, e.fit)
