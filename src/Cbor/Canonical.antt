-- ===== src/Cbor/Canonical.antt =====
-- What `validate_deterministic_with_limits` of src/cbor.rs accepts, against the encoder.
use qzt.Base.{ℕ, zero, suc, ◌/◌, ◌%◌, ◌<◌, ◌≡◌, refl, ap, ◌∙◌, sym, arith}
use qzt.Base.{List, [], ◌∷◌, append-nil, inl, inr, Bool-cases, ◌==◌, ◌!=◌}
use qzt.Base.{◌≢◌, true, false, length, length-append}
use qzt.Base.{All, IsByte, ==_iff, checked_sub}
use qzt.Base.Bits.{low_five}
use qzt.Error.{Result, ok, err, ok_or, reject_if, reject_if-ne_inv, >>=-eq-ok}
use qzt.Error.{ok-injective, resource_limit_exceeded, non_canonical_cbor}
use qzt.Limits.{CborLimits}
use qzt.Cbor.{CborValue}
use qzt.Cbor.{encode_deterministic}
use qzt.Cbor.Parser.{Parser, Parse, read_u8}
use qzt.Cbor.Parser.{parse_major, parse_value}
use qzt.Cbor.Parser.{validate_deterministic_with_limits}
use qzt.Cbor.Reads.{Took, Took-trans, Took-IsByte, read_u8-Took}
use qzt.Cbor.Items.{IsSound, ReadsItem, integer_item, negative_item, bytes_item}
use qzt.Cbor.Items.{text_item, simple_item}
use qzt.Cbor.Nested.{array_item, map_item}

module _ (b : ℕ) (byte : b < 256) (parse : Parse) (sound : IsSound parse) where
  major_item :
      (p : Parser) (v : CborValue) (q : Parser)
      → All IsByte p.rest
      → parse_major parse (b / 32) (b % 32) p ≡ ok (v, q)
      → ReadsItem b p v q
  unfolding parse_major
  major_item p v q bs h = elim (Bool-cases (b / 32 == 0)) [
    | inl e ↦ integer_item b byte p v q bs (is 0 e, rw e at h)
    | inr e₀ ↦ elim (Bool-cases (b / 32 == 1)) [
      | inl e ↦ negative_item b byte p v q bs (is 1 e, rw (e₀, e) at h)
      | inr e₁ ↦ elim (Bool-cases (b / 32 == 2)) [
        | inl e ↦ bytes_item b byte p v q bs (is 2 e, rw (e₀, e₁, e) at h)
        | inr e₂ ↦ elim (Bool-cases (b / 32 == 3)) [
          | inl e ↦ text_item b byte p v q bs (is 3 e, rw (e₀, e₁, e₂, e) at h)
          | inr e₃ ↦ nested_item (e₀, e₁, e₂, e₃)
        ]
      ]
    ]
  ]
    where
      is : (k : ℕ) → (b / 32 == k) ≡ true → b / 32 ≡ k
      is k = (==_iff (b / 32) k).0

      refused : ◌≡◌ {A = Result (CborValue × Parser)} (err non_canonical_cbor) (ok (v, q)) → ⊥
      refused k = cc

      nested_item :
          ((b / 32 == 0) ≡ false)
            × ((b / 32 == 1) ≡ false)
            × ((b / 32 == 2) ≡ false)
            × ((b / 32 == 3) ≡ false)
          → ReadsItem b p v q
      nested_item (e₀, e₁, e₂, e₃) = elim (Bool-cases (b / 32 == 4)) [
        | inl e ↦ array_item b byte parse sound p v q bs (is 4 e, rw (e₀, e₁, e₂, e₃, e) at h)
        | inr e₄ ↦ elim (Bool-cases (b / 32 == 5)) [
          | inl e ↦ map_item b byte parse sound p v q bs (is 5 e, rw (e₀, e₁, e₂, e₃, e₄, e) at h)
          | inr e₅ ↦ elim (Bool-cases (b / 32 == 6)) [
            | inl e ↦ absurd (refused (rw (e₀, e₁, e₂, e₃, e₄, e₅, e) at h))
            | inr e₆ ↦
                let seven : b / 32 ≡ 7 =
                  omega
                    (arith, byte, no 0 e₀, no 1 e₁, no 2 e₂, no 3 e₃, no 4 e₄, no 5 e₅, no 6 e₆) in
                simple_item b byte p v q
                  (seven, rw (e₀, e₁, e₂, e₃, e₄, e₅, e₆, (==_iff (b / 32) 7).1 seven) at h)
          ]
        ]
      ]
        where
          no : (k : ℕ) → (b / 32 == k) ≡ false → b / 32 ≢ k
          no k e = λ same. absurd (clash (sym ((==_iff (b / 32) k).1 same) ∙ e))
            where
              clash : true ≡ false → ⊥
              clash c = cc

-- A parse at any level of nesting is sound.
parse_value-IsSound : (levels : ℕ) → IsSound (parse_value levels)
unfolding parse_value
parse_value-IsSound zero p v q bs h = absurd (refused h)
  where
    refused : ◌≡◌ {A = Result (CborValue × Parser)} (err resource_limit_exceeded) (ok (v, q)) → ⊥
    refused k = cc
parse_value-IsSound (suc levels) p v q bs h =
    let (items, c₁, h₁) =
      >>=-eq-ok (ok_or (checked_sub p.remaining_items 1) resource_limit_exceeded) _ h in
    let p₀ : Parser = record p { remaining_items = items } in
    let ((b, p₁), c₂, h₂) = >>=-eq-ok (read_u8 p₀) _ h₁ in
    let took₀ = read_u8-Took p₀ b p₁ c₂ in
    let took : Took p (b ∷ []) p₁ = record { split = took₀.split; moved = took₀.moved } in
    let (its_byte, bs₁) = Took-IsByte took bs in
    let (tail, took₂, writes) =
      major_item b its_byte.0 (parse_value levels) (parse_value-IsSound levels) p₁ v q bs₁
        (rw (low_five b its_byte.0) at h₂) in
    (b ∷ tail, Took-trans took took₂, writes)

-- For an input of bytes, the value that `validate_deterministic_with_limits` accepts, under any
-- limits, is encoded by `encode_deterministic` to the very input: there is one form for each value,
-- its maps have ascending keys, and its lengths and integers have their shortest heads.
pub validate_deterministic_canonical :
    (input : List ℕ) (limits : CborLimits) (v : CborValue)
    → All IsByte input
    → validate_deterministic_with_limits input limits ≡ ok v
    → encode_deterministic v ≡ ok input
unfolding validate_deterministic_with_limits encode_deterministic
validate_deterministic_canonical input limits v bs h =
    let start : Parser = record {
      offset = 0;
      rest = input;
      remaining_allocation = limits.max_allocation;
      remaining_items = limits.max_items;
    } in
    let ((v', p), c₁, h₁) = >>=-eq-ok (parse_value 65 start) _ h in
    let (_, c₂, h₂) = >>=-eq-ok (reject_if (p.offset != length input) non_canonical_cbor) _ h₁ in
    let (taken, took, writes) = parse_value-IsSound 65 start v' p bs c₁ in
    let at_end = reject_if-ne_inv _ _ _ c₂ in
    let nothing : p.rest ≡ [] =
      length_zero p.rest
        (omega (arith, took.moved, at_end, ap length took.split, length-append taken p.rest)) in
    let whole : taken ≡ input = sym (took.split ∙ rw nothing (append-nil taken)) in
    rw (← ok-injective h₂) (writes [] ∙ ap ok whole)
  where
    length_zero : (xs : List ℕ) → length xs ≡ 0 → xs ≡ []
    length_zero [] e = refl
    length_zero (x ∷ xs) e = absurd (omega arith)
