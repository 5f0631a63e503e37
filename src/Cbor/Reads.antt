-- ===== src/Cbor/Reads.antt =====
-- What the reads of the parser of src/cbor.rs consume.
use qzt.Base.{ℕ, ◌+◌, ◌^◌, ◌<◌, ◌≡◌, refl, ap, ◌∙◌, sym, arith}
use qzt.Base.{List, [], ◌∷◌, ◌++◌, append_assoc, ltb, leb, length}
use qzt.Base.{leb-false, ltb-false}
use qzt.Base.{take, length-take, length-append, take-append-drop, All, All-append_inv, IsByte}
use qzt.Base.{
  from_be_bytes, to_be_bytes, to_be_bytes-from_be_bytes, from_be_bytes_bound, checked_add,
  checked_sub,
}
use qzt.Error.{Result, ok, err, ok-pair, ok_or, reject_if, reject_if_inv, ok-injective, >>=-eq-ok}
use qzt.Error.{resource_limit_exceeded, unexpected_eof, non_canonical_cbor}
use qzt.Primitives.{usize_to_u64}
use qzt.Cbor.Parser.{Parser, read_u8, read_exact, read_wide}
use qzt.Cbor.Parser.{consume_allocation}

-- The parser has moved over `taken`.
pub record Took (p : Parser) (taken : List ℕ) (q : Parser) : Type 0 where
  pub split : p.rest ≡ taken ++ q.rest
  pub moved : q.offset ≡ p.offset + length taken

pub Took-nothing : (p : Parser) → Took p [] p
Took-nothing p = record { split = refl; moved = omega arith }

pub Took-trans : {p q r : Parser} {xs ys : List ℕ} → Took p xs q → Took q ys r → Took p (xs ++ ys) r
Took-trans {p} {q} {r} {xs} {ys} h k = record {
  split = h.split ∙ (ap (λ t. xs ++ t) k.split ∙ sym (append_assoc xs ys r.rest));
  moved = omega (arith, h.moved, k.moved, length-append xs ys);
}

-- What was taken and what is left are bytes, when they were bytes before.
pub Took-IsByte :
    {p q : Parser} {xs : List ℕ}
    → Took p xs q
    → All IsByte p.rest
    → All IsByte xs × All IsByte q.rest
Took-IsByte {p} {q} {xs} h bs = All-append_inv IsByte xs q.rest (rw h.split at bs)

checked_add_inv : (a b c : ℕ) → ok_or (checked_add a b) resource_limit_exceeded ≡ ok c → c ≡ a + b
checked_add_inv a b c h = ground arith

pub read_u8-Took :
    (p : Parser) (byte : ℕ) (q : Parser) → read_u8 p ≡ ok (byte, q) → Took p (byte ∷ []) q
unfolding read_u8
read_u8-Took p byte q h = go p.rest refl
  where
    go : (rest : List ℕ) → p.rest ≡ rest → Took p (byte ∷ []) q
    go [] e = absurd (none_left (rw e at h))
      where
        none_left : ◌≡◌ {A = Result (ℕ × Parser)} (err unexpected_eof) (ok (byte, q)) → ⊥
        none_left k = cc
    go (b ∷ rest) e =
        let (same, moved) = ok-pair (rw e at h) in
        rw (← same, ← moved) (record { split = e; moved = refl })

pub read_exact-Took :
    (len : ℕ) (p : Parser) (taken : List ℕ) (q : Parser)
    → read_exact len p ≡ ok (taken, q)
    → Took p taken q × (length taken ≡ len)
unfolding read_exact
read_exact-Took len p taken q h =
    let (end, c₁, h₁) = >>=-eq-ok (ok_or (checked_add p.offset len) resource_limit_exceeded) _ h in
    let (_, c₂, h₂) = >>=-eq-ok (reject_if (ltb (length p.rest) len) unexpected_eof) _ h₁ in
    let fits = ltb-false (length p.rest) len (reject_if_inv _ _ c₂) in
    let at_end : end ≡ p.offset + len = checked_add_inv p.offset len end c₁ in
    let size : length (take len p.rest) ≡ len = omega (arith, length-take len p.rest) in
    let (same, moved) = ok-pair h₂ in
    rw (← same, ← moved)
      (
        record { split = sym (take-append-drop len p.rest); moved = omega (arith, at_end, size) },
        size,
      )

consume_allocation_inv :
    (len : ℕ) (p q : Parser)
    → consume_allocation len p ≡ ok q
    → (q.rest ≡ p.rest) × (q.offset ≡ p.offset)
unfolding consume_allocation
consume_allocation_inv len p q h =
    let (len', c₁, h₁) = >>=-eq-ok (usize_to_u64 len) _ h in
    let (left, c₂, h₂) =
      >>=-eq-ok (ok_or (checked_sub p.remaining_allocation len') resource_limit_exceeded) _ h₁ in
    (ap (λ s. s.rest) (sym (ok-injective h₂)), ap (λ s. s.offset) (sym (ok-injective h₂)))

pub consume_allocation-Took :
    (len : ℕ) (p q r : Parser) (taken : List ℕ)
    → consume_allocation len p ≡ ok q
    → Took q taken r
    → Took p taken r
consume_allocation-Took len p q r taken c h =
    let (same, at) = consume_allocation_inv len p q c in
    record { split = sym same ∙ h.split; moved = omega (arith, at, h.moved) }

-- An argument of several bytes is written in as many, and is too large for the shorter form.
pub read_wide_inv :
    (width shorter : ℕ) (p : Parser) (v : ℕ) (q : Parser)
    → All IsByte p.rest
    → read_wide width shorter p ≡ ok (v, q)
    → Took p (to_be_bytes width v) q × (shorter < v) × (v < 256 ^ width)
unfolding read_wide
read_wide_inv width shorter p v q bs h =
    let ((taken, p'), c₁, h₁) = >>=-eq-ok (read_exact width p) _ h in
    let (_, c₂, h₂) =
      >>=-eq-ok (reject_if (leb (from_be_bytes taken) shorter) non_canonical_cbor) _ h₁ in
    let (took, size) = read_exact-Took width p taken p' c₁ in
    let (its_bytes, _) = Took-IsByte took bs in
    let more = leb-false (from_be_bytes taken) shorter (reject_if_inv _ _ c₂) in
    let back = to_be_bytes-from_be_bytes taken its_bytes in
    let bound = from_be_bytes_bound taken its_bytes in
    let (same, at) = ok-pair h₂ in rw (← same, ← at, ← size) (rw back took, more, bound)
