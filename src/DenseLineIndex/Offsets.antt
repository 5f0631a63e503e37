-- ===== src/DenseLineIndex/Offsets.antt =====
-- The offsets of one entry, src/dense_line_index.rs: the decoder against the encoder.
use mathlib.Core.Path.{subst}
use qzt.Base.{ℕ, zero, suc, ◌<◌, ◌≡◌, refl, ap, ◌∙◌, sym, ◌⊎◌, inl, inr, arith}
use qzt.Base.{
  List, [], ◌∷◌, ◌++◌, append_assoc, append-nil, length, All, All-append_inv, IsByte, IsU64,
}
use qzt.Base.{Bool, true, false, ◌&&◌, not, leb, leb-false}
use qzt.Error.{ok, reject_if, reject_if_inv, >>=-eq-ok, ok-pair}
use qzt.Error.{chunk_table_invalid}
use qzt.Varuint.{write_varuint, read_varuint}
use qzt.Varuint.Encoding.{write_varuint-encoding}
use qzt.Varuint.Canonical.{read_varuint_canonical}
use qzt.DenseLineIndex.{delta_of, encode_offsets}
use qzt.DenseLineIndex.{offset_of, decode_offsets}

-- The offsets ascend, above `previous` unless the first one comes, and stay below `size`.
abbrev pub IsAscending : Bool → ℕ → ℕ → List ℕ → Type 0
IsAscending first previous size [] = Unit
IsAscending first previous size (offset ∷ offsets) =
    ((first ≡ true) ⊎ (previous < offset)) × (offset < size) × IsAscending false offset size offsets

-- A number that was read: what it was written as, in front of what is left.
pub record Read (xs : List ℕ) (v : ℕ) (rest : List ℕ) : Type 0 where
  pub written : List ℕ
  pub split : xs ≡ written ++ rest
  pub fits : IsU64 v
  pub writes : (out : List ℕ) → write_varuint v out ≡ out ++ written
  pub left : All IsByte rest

pub read_varuint-Read :
    (xs : List ℕ) (v : ℕ) (rest : List ℕ)
    → All IsByte xs
    → read_varuint xs ≡ ok (v, rest)
    → Read xs v rest
read_varuint-Read xs v rest bs h =
    let (fits, split) = read_varuint_canonical xs v rest bs h in
    record {
      written = write_varuint v [];
      split = split;
      fits = fits;
      writes = λ out.
          write_varuint-encoding v out fits
          ∙ ap (λ t. out ++ t) (sym (write_varuint-encoding v [] fits));
      left = (All-append_inv IsByte (write_varuint v []) rest (rw split at bs)).1;
    }

offset_of_inv :
    (first : Bool) (previous delta offset : ℕ)
    → offset_of first previous delta ≡ ok offset
    → delta_of first previous offset ≡ ok delta
unfolding offset_of delta_of
offset_of_inv true previous delta offset h = sym h
offset_of_inv false previous delta offset h = ground arith

-- Two parts of the input, one behind the other.
pub join :
    {xs ys : List ℕ} (a b rest : List ℕ) → xs ≡ a ++ ys → ys ≡ b ++ rest → xs ≡ (a ++ b) ++ rest
join a b rest h k = h ∙ (ap (λ t. a ++ t) k ∙ sym (append_assoc a b rest))

-- One offset is written as `a`, and the others as `b`.
encode_offsets_step :
    (first : Bool) (previous offset delta : ℕ) (offsets a b : List ℕ)
    → delta_of first previous offset ≡ ok delta
    → ((out : List ℕ) → write_varuint delta out ≡ out ++ a)
    → ((out : List ℕ) → encode_offsets false offset offsets out ≡ ok (out ++ b))
    → (out : List ℕ) → encode_offsets first previous (offset ∷ offsets) out ≡ ok (out ++ (a ++ b))
unfolding encode_offsets
encode_offsets_step first previous offset delta offsets a b back one others out =
    rw (back, one out) (others (out ++ a) ∙ ap ok (append_assoc out a b))

-- What the offsets were written as, in front of what is left.
pub record OffsetsRead (first : Bool) (previous size count : ℕ) (xs offsets rest : List ℕ)
    : Type 0 where
  pub written : List ℕ
  pub split : xs ≡ written ++ rest
  pub number : length offsets ≡ count
  pub ascending : IsAscending first previous size offsets
  pub writes : (out : List ℕ) → encode_offsets first previous offsets out ≡ ok (out ++ written)
  pub left : All IsByte rest

above :
    (first : Bool) (offset previous : ℕ)
    → (not first && leb offset previous) ≡ false
    → (first ≡ true) ⊎ (previous < offset)
above true offset previous h = inl refl
above false offset previous h = inr (leb-false offset previous h)

pub decode_offsets-OffsetsRead :
    (count : ℕ) (first : Bool) (previous size : ℕ) (xs offsets rest : List ℕ)
    → All IsByte xs
    → decode_offsets count first previous size xs ≡ ok (offsets, rest)
    → OffsetsRead first previous size count xs offsets rest
unfolding decode_offsets encode_offsets
decode_offsets-OffsetsRead zero first previous size xs offsets rest bs h =
    let (same, at) = ok-pair h in
    rw (← same, ← at)
      (record {
        written = [];
        split = refl;
        number = refl;
        ascending = tt;
        writes = λ out. ap ok (sym (append-nil out));
        left = bs;
      })
decode_offsets-OffsetsRead (suc count) first previous size xs offsets rest bs h =
    let ((delta, xs₁), c₁, h₁) = >>=-eq-ok (read_varuint xs) _ h in
    let (offset, c₂, h₂) = >>=-eq-ok (offset_of first previous delta) _ h₁ in
    let (_, c₃, h₃) =
      >>=-eq-ok (reject_if (not first && leb offset previous) chunk_table_invalid) _ h₂ in
    let (_, c₄, h₄) = >>=-eq-ok (reject_if (leb size offset) chunk_table_invalid) _ h₃ in
    let ((others, xs₂), c₅, h₅) = >>=-eq-ok (decode_offsets count false offset size xs₁) _ h₄ in
    let (same, at) = ok-pair h₅ in
    let r = read_varuint-Read xs delta xs₁ bs c₁ in
    let o = decode_offsets-OffsetsRead count false offset size xs₁ others xs₂ r.left c₅ in
    let back = offset_of_inv first previous delta offset c₂ in
    let whole : OffsetsRead first previous size (suc count) xs (offset ∷ others) xs₂ = record {
      written = r.written ++ o.written;
      split = join r.written o.written xs₂ r.split o.split;
      number = ap suc o.number;
      ascending = (
        above first offset previous (reject_if_inv _ _ c₃),
        leb-false size offset (reject_if_inv _ _ c₄),
        o.ascending,
      );
      writes =
          encode_offsets_step first previous offset delta others r.written o.written back r.writes
            o.writes;
      left = o.left;
    } in
    subst (λ t. OffsetsRead first previous size (suc count) xs t rest) same
      (subst (λ t. OffsetsRead first previous size (suc count) xs (offset ∷ others) t) at whole)
