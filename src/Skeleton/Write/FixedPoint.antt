-- ===== src/Skeleton/Write/FixedPoint.antt =====
-- The rounds of `fixed_point_footer_payload`, src/skeleton.rs.
use qzt.Base.{ℕ, zero, suc, ◌≡◌, refl, ap, sym, ◌∙◌, arith, List, Option}
use qzt.Base.{◌+◌, ◌≤◌, ◌==◌, ==_iff, Bool-cases, inl, inr, length, checked_add, u64_max}
use qzt.Error.{ok, ok_or, >>=-eq-ok, ok-injective}
use qzt.Error.{physical_range_out_of_bounds}
use qzt.Primitives.{usize_to_u64}
use qzt.Schema.{Checksum, BlockRef}
use qzt.Schema.Footer.{FooterPayload, encode as encode_footer}
use qzt.Schema.Dictionary.Accepted.{usize_to_u64_eq}
use qzt.Skeleton.Write.{candidate, next_size, fixed_point_loop, fixed_point_footer_payload}

-- The payload names the size of the file that ends with its own encoding and the trailer.
pub record NamesSize (offset : ℕ) (p : FooterPayload) : Type 0 where
  pub encoded : List ℕ
  pub encodes : encode_footer p ≡ ok encoded
  pub named : p.final_file_size ≡ offset + length encoded + 64
  pub fits : p.final_file_size ≤ u64_max

sum_inv :
    (a b c : ℕ)
    → ok_or (checked_add a b) physical_range_out_of_bounds ≡ ok c
    → (c ≡ a + b) × (a + b ≤ u64_max)
sum_inv a b c h = ground arith

pub next_size_inv :
    (offset : ℕ) (encoded : List ℕ) (n : ℕ)
    → next_size offset encoded ≡ ok n
    → (n ≡ offset + length encoded + 64) × (n ≤ u64_max)
unfolding next_size
next_size_inv offset encoded n h =
    let (size, c₁, h₁) = >>=-eq-ok (usize_to_u64 (length encoded)) _ h in
    let first = ok_or (checked_add offset size) physical_range_out_of_bounds in
    let (end, c₂, h₂) = >>=-eq-ok first _ h₁ in
    let same = usize_to_u64_eq (length encoded) size c₁ in
    let (p, _) = sum_inv offset size end c₂ in
    let (q, r) = sum_inv end 64 n h₂ in total offset (length encoded) size end n same p q r
  where
    total :
        (o l s e m : ℕ)
        → l ≡ s
        → e ≡ o + s
        → m ≡ e + 64
        → e + 64 ≤ u64_max
        → (m ≡ o + l + 64) × (m ≤ u64_max)
    total o l s e m p q r b = omega arith

fixed_point_loop-NamesSize :
    (rounds : ℕ) (payload : ℕ → FooterPayload) (offset size : ℕ) (p : FooterPayload)
    → ((n : ℕ) → (payload n).final_file_size ≡ n)
    → fixed_point_loop rounds payload offset size ≡ ok p
    → NamesSize offset p × (p ≡ payload p.final_file_size)
unfolding fixed_point_loop
fixed_point_loop-NamesSize zero payload offset size p named h = cc
fixed_point_loop-NamesSize (suc rounds) payload offset size p named h =
    let (encoded, c₁, h₁) = >>=-eq-ok (encode_footer (payload size)) _ h in
    let (next, c₂, h₂) = >>=-eq-ok (next_size offset encoded) _ h₁ in
    elim (Bool-cases (next == size)) [
      | inl stable ↦
          let same = (==_iff next size).0 stable in
          let (total, small) = next_size_inv offset encoded next c₂ in
          rw (← ok-injective (rw stable at h₂)) (
            record {
              encoded = encoded;
              encodes = c₁;
              named = named size ∙ (sym same ∙ total);
              fits = bounded size next same (named size) small;
            },
            sym (ap payload (named size)),
          )
      | inr changed ↦
          fixed_point_loop-NamesSize rounds payload offset next p named (rw changed at h₂)
    ]
  where
    bounded :
        (s n : ℕ)
        → n ≡ s
        → (payload s).final_file_size ≡ s
        → n ≤ u64_max
        → (payload s).final_file_size ≤ u64_max
    bounded s n e q b = omega arith

-- A payload that `fixed_point_footer_payload` returns has the given container id, blocks and checksum,
-- no flags, and as its final file size the offset of the payload, the length of its own encoding and
-- the 64 bytes of the trailer together, a u64.
pub fixed_point_footer_payload-NamesSize :
    (container_id : List ℕ) (root metadata : BlockRef) (offset : ℕ) (checksum : Option Checksum)
    (p : FooterPayload)
    → fixed_point_footer_payload container_id root metadata offset checksum ≡ ok p
    → NamesSize offset p × (p ≡ candidate container_id root metadata checksum p.final_file_size)
unfolding fixed_point_footer_payload candidate
fixed_point_footer_payload-NamesSize container_id root metadata offset checksum p h =
    fixed_point_loop-NamesSize 8 (candidate container_id root metadata checksum) offset 0 p
      (λ n. refl) h
