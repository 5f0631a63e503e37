-- ===== src/Cbor/Items.antt =====
-- The items without items inside, src/cbor.rs: the parser against the encoder.
use qzt.Base.{ℕ, ◌/◌, ◌%◌, ◌<◌, ◌≡◌, refl, ap, ◌∙◌, arith}
use qzt.Base.{List, [], ◌∷◌, ◌++◌, append_assoc, inl, inr, Bool-cases, ltb, ◌==◌}
use qzt.Base.{le→leb, not, ◌||◌, length}
use qzt.Base.{All, IsByte, IsU64, usize_max, u64_max, ==_iff}
use qzt.Base.Utf8.{is_utf8}
use qzt.Error.{◌>>=◌, Result, ok, err, ok-pair, reject_if, >>=-eq-ok}
use qzt.Error.{ok-injective, resource_limit_exceeded, non_canonical_cbor, invalid_utf8}
use qzt.Primitives.{u64_to_usize, usize_to_u64_lem}
use qzt.Cbor.{CborValue}
use qzt.Cbor.{head_bytes, encode_type_and_argument}
use qzt.Cbor.{encode_value}
use qzt.Cbor.Parser.{Parser, Parse, read_len, read_argument, consume_allocation}
use qzt.Cbor.Parser.{parse_payload, parse_bytes, parse_text}
use qzt.Cbor.Parser.{parse_simple, parse_unsigned}
use qzt.Cbor.Parser.{parse_negative}
use qzt.Cbor.Reads.{Took, Took-nothing, Took-trans, read_exact-Took}
use qzt.Cbor.Reads.{consume_allocation-Took}
use qzt.Cbor.Heads.{ReadsHead, read_argument-ReadsHead}

-- The encoder appends `written` for the value, to any output.
abbrev pub Writes : CborValue → List ℕ → Type 0
Writes v written = (out : List ℕ) → encode_value v out ≡ ok (out ++ written)

-- What a parse consumes is what the encoder writes.
abbrev pub IsSound : Parse → Type 0
IsSound parse =
    (p : Parser) (v : CborValue) (q : Parser)
    → All IsByte p.rest
    → parse p ≡ ok (v, q)
    → (taken : List ℕ) × Took p taken q × Writes v taken

-- The same behind the first byte `b` of the item.
abbrev pub ReadsItem : ℕ → Parser → CborValue → Parser → Type 0
ReadsItem b p v q = (tail : List ℕ) × Took p tail q × Writes v (b ∷ tail)

u64_to_usize_inv : (v w : ℕ) → u64_to_usize v ≡ ok w → v ≡ w
unfolding u64_to_usize
u64_to_usize_inv v w h = ground arith

module _ (b : ℕ) (byte : b < 256) where
  pub read_len-ReadsHead :
      (most : ℕ) (p : Parser) (len : ℕ) (q : Parser)
      → All IsByte p.rest
      → read_len (b % 32) most p ≡ ok (len, q)
      → ReadsHead b p len q
  unfolding read_len
  read_len-ReadsHead most p len q bs h =
      let ((n, p'), c₁, h₁) = >>=-eq-ok (read_argument (b % 32) p) _ h in
      let (_, c₂, h₂) =
        >>=-eq-ok (reject_if (ltb most n || ltb usize_max n) resource_limit_exceeded) _ h₁ in
      let (len', c₃, h₃) = >>=-eq-ok (u64_to_usize n) _ h₂ in
      let (same, at) = ok-pair h₃ in
      rw (← same, ← u64_to_usize_inv n len' c₃, ← at) (read_argument-ReadsHead b p n p' byte bs c₁)

  -- A payload behind its head.
  parse_payload-Took :
      (p : Parser) (payload : List ℕ) (q : Parser)
      → All IsByte p.rest
      → parse_payload (b % 32) p ≡ ok (payload, q)
      → (tail : List ℕ) × Took p (tail ++ payload) q
        × (head_bytes (b / 32) (length payload) ≡ b ∷ tail)
        × IsU64 (length payload)
  unfolding parse_payload
  parse_payload-Took p payload q bs h =
      let ((len, p₁), c₁, h₁) = >>=-eq-ok (read_len (b % 32) p.remaining_allocation p) _ h in
      let (p₂, c₂, h₂) = >>=-eq-ok (consume_allocation len p₁) _ h₁ in
      let (tail, head_took, head, fits) =
        read_len-ReadsHead p.remaining_allocation p len p₁ bs c₁ in
      let (took, size) = read_exact-Took len p₂ payload q h₂ in
      (
        tail,
        Took-trans head_took (consume_allocation-Took len p₁ p₂ q payload c₂ took),
        rw size head,
        rw size fits,
      )

  pub integer_item :
      (p : Parser) (v : CborValue) (q : Parser)
      → All IsByte p.rest
      → (b / 32 ≡ 0) × (parse_unsigned (b % 32) p ≡ ok (v, q))
      → ReadsItem b p v q
  unfolding parse_unsigned encode_value encode_type_and_argument
  integer_item p v q bs (major, h) =
      let ((n, p'), c₁, h₁) = >>=-eq-ok (read_argument (b % 32) p) _ h in
      let (tail, took, head, fits) = read_argument-ReadsHead b p n p' byte bs c₁ in
      let (same, at) = ok-pair h₁ in
      rw (← same, ← at) (tail, took, λ out. rw (le→leb n u64_max (omega arith), ← head, major) refl)

  pub negative_item :
      (p : Parser) (v : CborValue) (q : Parser)
      → All IsByte p.rest
      → (b / 32 ≡ 1) × (parse_negative (b % 32) p ≡ ok (v, q))
      → ReadsItem b p v q
  unfolding parse_negative encode_value encode_type_and_argument
  negative_item p v q bs (major, h) =
      let ((n, p'), c₁, h₁) = >>=-eq-ok (read_argument (b % 32) p) _ h in
      let (tail, took, head, fits) = read_argument-ReadsHead b p n p' byte bs c₁ in
      let (same, at) = ok-pair h₁ in
      rw (← same, ← at) (tail, took, λ out. rw (le→leb n u64_max (omega arith), ← head, major) refl)

  pub bytes_item :
      (p : Parser) (v : CborValue) (q : Parser)
      → All IsByte p.rest
      → (b / 32 ≡ 2) × (parse_bytes (b % 32) p ≡ ok (v, q))
      → ReadsItem b p v q
  unfolding parse_bytes encode_value encode_type_and_argument
  bytes_item p v q bs (major, h) =
      let ((payload, p'), c₁, h₁) = >>=-eq-ok (parse_payload (b % 32) p) _ h in
      let (tail, took, head, fits) = parse_payload-Took p payload p' bs c₁ in
      let (same, at) = ok-pair h₁ in
      rw (← same, ← at)
        (
          tail ++ payload,
          took,
          λ out. rw (usize_to_u64_lem (length payload) fits) (
              ap ok (
                append_assoc out (head_bytes 2 (length payload)) payload
                ∙ rw (← major, head) refl)),
        )

  pub text_item :
      (p : Parser) (v : CborValue) (q : Parser)
      → All IsByte p.rest
      → (b / 32 ≡ 3) × (parse_text (b % 32) p ≡ ok (v, q))
      → ReadsItem b p v q
  unfolding parse_text encode_value encode_type_and_argument
  text_item p v q bs (major, h) =
      let ((payload, p'), c₁, h₁) = >>=-eq-ok (parse_payload (b % 32) p) _ h in
      let (_, c₂, h₂) = >>=-eq-ok (reject_if (not (is_utf8 payload)) invalid_utf8) _ h₁ in
      let (tail, took, head, fits) = parse_payload-Took p payload p' bs c₁ in
      let (same, at) = ok-pair h₂ in
      rw (← same, ← at)
        (
          tail ++ payload,
          took,
          λ out. rw (usize_to_u64_lem (length payload) fits) (
              ap ok (
                append_assoc out (head_bytes 3 (length payload)) payload
                ∙ rw (← major, head) refl)),
        )

  simple_Writes : (v : CborValue) → b / 32 ≡ 7 → parse_simple (b % 32) ≡ ok v → Writes v (b ∷ [])
  unfolding parse_simple encode_value
  simple_Writes v major h out = elim (Bool-cases (b % 32 == 20)) [
    | inl e ↦
        let whole : 0xf4 ≡ b = omega (arith, (==_iff (b % 32) 20).0 e) in
        rw (← ok-injective (rw e at h), whole) refl
    | inr e₁ ↦ elim (Bool-cases (b % 32 == 21)) [
      | inl e ↦
          let whole : 0xf5 ≡ b = omega (arith, (==_iff (b % 32) 21).0 e) in
          rw (← ok-injective (rw (e₁, e) at h), whole) refl
      | inr e₂ ↦ elim (Bool-cases (b % 32 == 22)) [
        | inl e ↦
            let whole : 0xf6 ≡ b = omega (arith, (==_iff (b % 32) 22).0 e) in
            rw (← ok-injective (rw (e₁, e₂, e) at h), whole) refl
        | inr e₃ ↦ absurd (refused (rw (e₁, e₂, e₃) at h))
      ]
    ]
  ]
    where
      refused : err non_canonical_cbor ≡ ok v → ⊥
      refused k = cc

  pub simple_item :
      (p : Parser) (v : CborValue) (q : Parser)
      → (b / 32 ≡ 7)
        × (◌≡◌ {A = Result (CborValue × Parser)}
            (do v' ← parse_simple (b % 32); ok (v', p))
            (ok (v, q)))
      → ReadsItem b p v q
  simple_item p v q (major, h) =
      let (v', c₁, h₁) = >>=-eq-ok (parse_simple (b % 32)) _ h in
      let (same, at) = ok-pair h₁ in
      rw (← same, ← at) ([], Took-nothing p, simple_Writes v' major c₁)
