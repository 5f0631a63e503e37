-- ===== src/Skeleton/Write/Rounds.antt =====
-- The rounds that `fixed_point_footer_payload` of src/skeleton.rs needs.
use qzt.Base.{ℕ, zero, suc, ◌+◌, ◌≤◌, ◌<◌, ◌≡◌, ◌≢◌, refl, sym, ◌∙◌, arith, List, false}
use qzt.Base.{Bool-cases, inl, inr, leb, ◌==◌, eq_false, length, Option, if◌then◌else◌}
use qzt.Error.{QztError, Result, ok, err, panic}
use qzt.Cbor.Usage.{head_len}
use qzt.Schema.{Checksum, BlockRef}
use qzt.Schema.Footer.{FooterPayload, encode as encode_footer}
use qzt.Skeleton.Write.{candidate, next_size, fixed_point_loop, fixed_point_footer_payload}
use qzt.Skeleton.Write.FixedPoint.{next_size_inv}
use qzt.Skeleton.Write.Sizes.{payload_lengths}

-- The place of the length of a head among the five that there are.
rank : ℕ → ℕ
rank n =
    if leb n 23
    then 0
    else if leb n 0xff
    then 1
    else if leb n 0xffff
    then 2
    else if leb n 0xffff_ffff
    then 3
    else 4

rank_bound : (n : ℕ) → rank n ≤ 4
unfolding rank
rank_bound n = ground arith

rank_rises : (a b : ℕ) → a ≤ b → head_len a ≢ head_len b → rank a < rank b
unfolding rank head_len
rank_rises a b h d = ground arith

head_len_mono : (a b : ℕ) → a ≤ b → head_len a ≤ head_len b
unfolding head_len
head_len_mono a b h = ground arith

data Outcome {ℓ} {A : Type ℓ} (r : Result A) : Type ℓ where
  returned : (a : A) → r ≡ ok a → Outcome r
  refused : (e : QztError) → r ≡ err e → Outcome r
  stopped : r ≡ panic → Outcome r

outcome {ℓ} : {A : Type ℓ} (r : Result A) → Outcome r
outcome (ok a) = returned a refl
outcome (err e) = refused e refl
outcome panic = stopped refl

module _ (id : List ℕ) (root metadata : BlockRef) (checksum : Option Checksum) (offset : ℕ) where
  abbrev payload : ℕ → FooterPayload
  payload n = candidate id root metadata checksum n

  -- The size `s` is what the round at `previous` found.
  record Found (previous s : ℕ) : Type 0 where
    bytes : List ℕ
    encoded : encode_footer (payload previous) ≡ ok bytes
    size : s ≡ offset + length bytes + 64
    above : previous ≤ s

  next-Found :
      (previous s next : ℕ) (bytes : List ℕ)
      → Found previous s
      → encode_footer (payload s) ≡ ok bytes
      → next ≡ offset + length bytes + 64
      → Found s next × (next + head_len previous ≡ s + head_len s)
  next-Found previous s next bytes found encoded size =
      let lengths =
        payload_lengths id root metadata checksum s previous bytes found.bytes encoded
          found.encoded in
      let moved : next + head_len previous ≡ s + head_len s =
        sums offset (length bytes) (length found.bytes) s next (head_len previous) (head_len s)
          lengths found.size size in
      (
        record {
          bytes = bytes;
          encoded = encoded;
          size = size;
          above =
              grows s next (head_len previous) (head_len s) moved
                (head_len_mono previous s found.above);
        },
        moved,
      )
    where
      sums : (o x y s n p q : ℕ) → x + p ≡ y + q → s ≡ o + y + 64 → n ≡ o + x + 64 → n + p ≡ s + q
      sums o x y s n p q e f g = omega arith

      grows : (s n p q : ℕ) → n + p ≡ s + q → p ≤ q → s ≤ n
      grows s n p q e h = omega arith

  loop_step :
      (rounds s next : ℕ) (bytes : List ℕ)
      → encode_footer (payload s) ≡ ok bytes
      → next_size offset bytes ≡ ok next
      → fixed_point_loop (suc rounds) payload offset s
        ≡ (if next == s then ok (payload s) else fixed_point_loop rounds payload offset next)
  unfolding fixed_point_loop
  loop_step rounds s next bytes p q = rw (p, q) refl

  -- A round that ends with an error ends alike whatever rounds are left.
  loop_refused :
      (a b s : ℕ) (e : QztError)
      → encode_footer (payload s) ≡ err e
      → fixed_point_loop (suc a) payload offset s ≡ fixed_point_loop (suc b) payload offset s
  unfolding fixed_point_loop
  loop_refused a b s e p = rw p refl

  loop_stopped :
      (a b s : ℕ)
      → encode_footer (payload s) ≡ panic
      → fixed_point_loop (suc a) payload offset s ≡ fixed_point_loop (suc b) payload offset s
  unfolding fixed_point_loop
  loop_stopped a b s p = rw p refl

  size_refused :
      (a b s : ℕ) (e : QztError) (bytes : List ℕ)
      → encode_footer (payload s) ≡ ok bytes
      → next_size offset bytes ≡ err e
      → fixed_point_loop (suc a) payload offset s ≡ fixed_point_loop (suc b) payload offset s
  unfolding fixed_point_loop
  size_refused a b s e bytes p q = rw (p, q) refl

  size_stopped :
      (a b s : ℕ) (bytes : List ℕ)
      → encode_footer (payload s) ≡ ok bytes
      → next_size offset bytes ≡ panic
      → fixed_point_loop (suc a) payload offset s ≡ fixed_point_loop (suc b) payload offset s
  unfolding fixed_point_loop
  size_stopped a b s bytes p q = rw (p, q) refl

  changed : (n s p q : ℕ) → (n == s) ≡ false → n + p ≡ s + q → p ≢ q
  changed n s p q h e same = let far : n ≢ s = ground arith in far (omega arith)

  later : (p q r : ℕ) → p < q → 5 ≤ p + suc r → 5 ≤ q + r
  later p q r h k = omega arith

  -- Each further round raises the length of the head, of which there are five.
  loop_agrees :
      (a b previous s : ℕ)
      → Found previous s
      → 5 ≤ rank previous + a
      → 5 ≤ rank previous + b
      → fixed_point_loop a payload offset s ≡ fixed_point_loop b payload offset s
  loop_agrees zero b previous s found h k = absurd (omega (arith, rank_bound previous))
  loop_agrees (suc a) zero previous s found h k = absurd (omega (arith, rank_bound previous))
  loop_agrees (suc a) (suc b) previous s found h k = elim (outcome (encode_footer (payload s))) [
    | refused e p ↦ loop_refused a b s e p
    | stopped p ↦ loop_stopped a b s p
    | returned bytes p ↦ elim (outcome (next_size offset bytes)) [
      | refused e q ↦ size_refused a b s e bytes p q
      | stopped q ↦ size_stopped a b s bytes p q
      | returned next q ↦
          let (size, _) = next_size_inv offset bytes next q in
          let (found', moved) = next-Found previous s next bytes found p size in
          let left = loop_step a s next bytes p q in
          let right = loop_step b s next bytes p q in
          elim (Bool-cases (next == s)) [
            | inl stable ↦ rw (left, right, stable) refl
            | inr other ↦
                let rises =
                  rank_rises previous s found.above
                    (changed next s (head_len previous) (head_len s) other moved) in
                let again =
                  loop_agrees a b s next found' (later (rank previous) (rank s) a rises h)
                    (later (rank previous) (rank s) b rises k) in
                rw (left, right, other) again
          ]
    ]
  ]

  first-Found :
      (next : ℕ) (bytes : List ℕ)
      → encode_footer (payload 0) ≡ ok bytes
      → next ≡ offset + length bytes + 64
      → Found 0 next
  first-Found next bytes p q = record { bytes = bytes; encoded = p; size = q; above = omega arith }

  -- Eight rounds are enough: with any greater number of them, the loop of `fixed_point_footer_payload`
  -- ends with the same result.
  pub fixed_point_loop-fixed_point_footer_payload :
      (rounds : ℕ)
      → 8 ≤ rounds
      → fixed_point_loop rounds (candidate id root metadata checksum) offset 0
        ≡ fixed_point_footer_payload id root metadata offset checksum
  unfolding fixed_point_footer_payload
  fixed_point_loop-fixed_point_footer_payload zero h = absurd (omega arith)
  fixed_point_loop-fixed_point_footer_payload (suc a) h =
      elim (outcome (encode_footer (payload 0))) [
        | refused e p ↦ loop_refused a 7 0 e p
        | stopped p ↦ loop_stopped a 7 0 p
        | returned bytes p ↦ elim (outcome (next_size offset bytes)) [
          | refused e q ↦ size_refused a 7 0 e bytes p q
          | stopped q ↦ size_stopped a 7 0 bytes p q
          | returned next q ↦
              let (size, _) = next_size_inv offset bytes next q in
              let moves : (next == 0) ≡ false = eq_false next 0 (omega arith) in
              let again =
                loop_agrees a 7 0 next (first-Found next bytes p size) (omega arith)
                  (omega arith) in
              loop_step a 0 next bytes p q
              ∙ rw moves (again ∙ sym (loop_step 7 0 next bytes p q ∙ rw moves refl))
        ]
      ]
