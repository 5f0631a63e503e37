-- ===== src/Cbor/Heads.antt =====
-- The heads of items, src/cbor.rs: the reader against the encoder.
use Prim.Native.Nat.{bit_or}
use qzt.Base.{ℕ, ◌*◌, ◌/◌, ◌%◌, ◌^◌, ◌≤◌, ◌<◌, ◌≡◌, refl, arith}
use qzt.Base.{List, [], ◌∷◌, inl, inr, Bool-cases, ltb, leb, ◌==◌}
use qzt.Base.{false-leb, leb→le, ltb-false, ==_iff, le→leb}
use qzt.Base.{All, IsByte, IsU64}
use qzt.Base.{to_be_bytes}
use qzt.Base.Bits.{join_top_three}
use qzt.Error.{◌>>=◌, ◌>>◌, Result, ok, err, ok-pair, reject_if, reject_if_inv, >>=-eq-ok}
use qzt.Error.{non_canonical_cbor}
use qzt.Cbor.{head_bytes}
use qzt.Cbor.Parser.{Parser, read_u8, read_argument}
use qzt.Cbor.Reads.{Took, Took-nothing, Took-IsByte, read_u8-Took, read_wide_inv}

module _ (b v : ℕ) (byte : b < 256) where
  -- The first byte of a head, put together again from its major type and the form of its argument.
  first_byte : (form : ℕ) → b % 32 ≡ form → bit_or (b / 32 * 2 ^ 5 % 256) form ≡ b
  first_byte form e = rw (← e) (join_top_three b byte)

  head_0 : b % 32 ≤ 23 → b % 32 ≡ v → head_bytes (b / 32) v ≡ b ∷ []
  unfolding head_bytes
  head_0 few e =
      let low : v % 256 ≡ v = omega arith in
      rw (le→leb v 23 (omega arith), low, first_byte v e) refl

  head_1 : b % 32 ≡ 24 → 23 < v → v < 256 → head_bytes (b / 32) v ≡ b ∷ v ∷ []
  unfolding head_bytes
  head_1 form more fits =
      let low : v % 2 ^ 8 / 1 % 256 ≡ v = omega arith in
      rw (false-leb v 23 more, le→leb v 0xff (omega arith), first_byte 24 form, low) refl

  head_2 : b % 32 ≡ 25 → 0xff < v → v < 256 ^ 2 → head_bytes (b / 32) v ≡ b ∷ to_be_bytes 2 v
  unfolding head_bytes
  head_2 form more fits =
      let low : v % 2 ^ 16 ≡ v = omega arith in
      rw
        (
          false-leb v 23 (omega arith),
          false-leb v 0xff more,
          le→leb v 0xffff (omega arith),
          first_byte 25 form,
          low,
        )
        refl

  head_4 : b % 32 ≡ 26 → 0xffff < v → v < 256 ^ 4 → head_bytes (b / 32) v ≡ b ∷ to_be_bytes 4 v
  unfolding head_bytes
  head_4 form more fits =
      let low : v % 2 ^ 32 ≡ v = omega arith in
      rw
        (
          false-leb v 23 (omega arith),
          false-leb v 0xff (omega arith),
          false-leb v 0xffff more,
          le→leb v 0xffff_ffff (omega arith),
          first_byte 26 form,
          low,
        )
        refl

  head_8 : b % 32 ≡ 27 → 0xffff_ffff < v → head_bytes (b / 32) v ≡ b ∷ to_be_bytes 8 v
  unfolding head_bytes
  head_8 form more =
      rw
        (
          false-leb v 23 (omega arith),
          false-leb v 0xff (omega arith),
          false-leb v 0xffff (omega arith),
          false-leb v 0xffff_ffff more,
          first_byte 27 form,
        )
        refl

-- What is read behind the first byte `b` is the rest of the head that the encoder writes.
abbrev pub ReadsHead : ℕ → Parser → ℕ → Parser → Type 0
ReadsHead b p v q = (tail : List ℕ) × Took p tail q × (head_bytes (b / 32) v ≡ b ∷ tail) × IsU64 v

pub read_argument-ReadsHead :
    (b : ℕ) (p : Parser) (v : ℕ) (q : Parser)
    → b < 256
    → All IsByte p.rest
    → read_argument (b % 32) p ≡ ok (v, q)
    → ReadsHead b p v q
unfolding read_argument
read_argument-ReadsHead b p v q byte bs h = elim (Bool-cases (leb (b % 32) 23)) [
  | inl few ↦
      let (same, at) = ok-pair (rw few at h) in
      let small = leb→le (b % 32) 23 few in
      rw (← at) ([], Took-nothing p, head_0 b v byte small same, omega arith)
  | inr more₀ ↦ elim (Bool-cases (b % 32 == 24)) [
    | inl form ↦ narrow ((==_iff (b % 32) 24).0 form) (rw (more₀, form) at h)
    | inr more₁ ↦ elim (Bool-cases (b % 32 == 25)) [
      | inl form ↦
          let (took, more, fits) = read_wide_inv 2 0xff p v q bs (rw (more₀, more₁, form) at h) in
          (
            to_be_bytes 2 v,
            took,
            head_2 b v byte ((==_iff (b % 32) 25).0 form) more fits,
            omega arith,
          )
      | inr more₂ ↦ elim (Bool-cases (b % 32 == 26)) [
        | inl form ↦
            let (took, more, fits) =
              read_wide_inv 4 0xffff p v q bs (rw (more₀, more₁, more₂, form) at h) in
            (
              to_be_bytes 4 v,
              took,
              head_4 b v byte ((==_iff (b % 32) 26).0 form) more fits,
              omega arith,
            )
        | inr more₃ ↦ elim (Bool-cases (b % 32 == 27)) [
          | inl form ↦
              let (took, more, fits) =
                read_wide_inv 8 0xffff_ffff p v q bs (rw (more₀, more₁, more₂, more₃, form) at h) in
              (
                to_be_bytes 8 v,
                took,
                head_8 b v byte ((==_iff (b % 32) 27).0 form) more,
                omega arith,
              )
          | inr more₄ ↦ absurd (refused (rw (more₀, more₁, more₂, more₃, more₄) at h))
        ]
      ]
    ]
  ]
]
  where
    refused : ◌≡◌ {A = Result (ℕ × Parser)} (err non_canonical_cbor) (ok (v, q)) → ⊥
    refused k = cc

    narrow :
        b % 32 ≡ 24
        → ◌≡◌ {A = Result (ℕ × Parser)}
            (do
              (argument, p') ← read_u8 p
              reject_if (ltb argument 24) non_canonical_cbor
              ok (argument, p'))
            (ok (v, q))
        → ReadsHead b p v q
    narrow form k =
        let ((argument, p'), c₁, k₁) = >>=-eq-ok (read_u8 p) _ k in
        let (_, c₂, k₂) = >>=-eq-ok (reject_if (ltb argument 24) non_canonical_cbor) _ k₁ in
        let took = read_u8-Took p argument p' c₁ in
        let (is_byte, _) = Took-IsByte took bs in
        let large = ltb-false argument 24 (reject_if_inv _ _ c₂) in
        let (same, at) = ok-pair k₂ in
        rw (← same, ← at)
          (argument ∷ [], took, head_1 b argument byte form (omega arith) is_byte.0, omega arith)
