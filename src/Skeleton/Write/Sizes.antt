-- ===== src/Skeleton/Write/Sizes.antt =====
-- How long the footer payload of src/skeleton.rs is, depending on the file size that it names.
use qzt.Base.{ℕ, zero, suc, ◌+◌, ◌%◌, ◌^◌, ◌≡◌, refl, ap, sym, ◌∙◌, arith, List, [], ◌∷◌, ◌++◌}
use qzt.Base.{Bool-cases, inl, inr, leb, length, length-append, Option}
use qzt.Base.{to_be_bytes, u64_max}
use qzt.Error.{Result, ok, err, reject_if, >>=-eq-ok, ok-injective, duplicate_cbor_key}
use qzt.Error.{resource_limit_exceeded}
use Prim.Native.Nat.{Ordering}
use qzt.Primitives.{usize_to_u64}
use qzt.Cbor.{CborValue, text, bytes, map, Entries, one_entry, Pair, count_entries}
use qzt.Cbor.{compare_bytes, insert_pair, sort_pairs, has_duplicate, extend_pairs, encode_value}
use qzt.Cbor.{encode_entries, encode_deterministic, encode_type_and_argument, head_bytes}
use qzt.Cbor.{integer_argument}
use qzt.Cbor.Usage.{head_len}
use qzt.Schema.{Checksum, BlockRef, u64_value, version_value, block_ref_value}
use qzt.Schema.Words
use qzt.Schema.Footer.{checksum_entry, encode as encode_footer}
use qzt.Skeleton.Write.{candidate}

abbrev weight : List Pair → ℕ
weight [] = 0
weight (p ∷ ps) = length p.0 + length p.1 + weight ps

weight-insert_pair : (a : Pair) (ps : List Pair) → weight (insert_pair a ps) ≡ weight (a ∷ ps)
unfolding insert_pair
weight-insert_pair a [] = refl
weight-insert_pair a (b ∷ bs) = by_order (compare_bytes a.0 b.0) (weight-insert_pair a bs)
  where
    by_order :
        (order : Ordering)
        → weight (insert_pair a bs) ≡ weight (a ∷ bs)
        → weight (elim order [ Ordering.gt ↦ b ∷ insert_pair a bs | _ ↦ a ∷ (b ∷ bs) ])
          ≡ weight (a ∷ (b ∷ bs))
    by_order Ordering.lt h = refl
    by_order Ordering.eq h = refl
    by_order Ordering.gt h = omega arith

weight-sort_pairs : (ps : List Pair) → weight (sort_pairs ps) ≡ weight ps
unfolding sort_pairs
weight-sort_pairs [] = refl
weight-sort_pairs (p ∷ ps) =
    omega (arith, weight-insert_pair p (sort_pairs ps), weight-sort_pairs ps)

length-extend_pairs :
    (ps : List Pair) (out : List ℕ) → length (extend_pairs ps out) ≡ length out + weight ps
unfolding extend_pairs
length-extend_pairs [] out = omega arith
length-extend_pairs (p ∷ ps) out = omega (
  arith,
  length-extend_pairs ps ((out ++ p.0) ++ p.1),
  length-append (out ++ p.0) p.1,
  length-append out p.0,
)

length-to_be_bytes : (w v : ℕ) → length (to_be_bytes w v) ≡ w
length-to_be_bytes zero v = refl
length-to_be_bytes (suc w) v = ap suc (length-to_be_bytes w (v % 256 ^ w))

length-head_bytes : (major value : ℕ) → length (head_bytes major value) ≡ head_len value
unfolding head_bytes head_len
length-head_bytes major value = elim (Bool-cases (leb value 23)) [
  | inl a ↦ rw a refl
  | inr a ↦ elim (Bool-cases (leb value 0xff)) [
    | inl b ↦ rw (a, b) (ap suc (length-to_be_bytes 1 (value % 2 ^ 8)))
    | inr b ↦ elim (Bool-cases (leb value 0xffff)) [
      | inl c ↦ rw (a, b, c) (ap suc (length-to_be_bytes 2 (value % 2 ^ 16)))
      | inr c ↦ elim (Bool-cases (leb value 0xffff_ffff)) [
        | inl d ↦ rw (a, b, c, d) (ap suc (length-to_be_bytes 4 (value % 2 ^ 32)))
        | inr d ↦ rw (a, b, c, d) (ap suc (length-to_be_bytes 8 value))
      ]
    ]
  ]
]

-- The encoding of a map is its head and its pairs.
map_length :
    (es : Entries) (out : List ℕ)
    → encode_value (map es) [] ≡ ok out
    → (ps : List Pair) × (head : List ℕ) × (encode_entries es ≡ ok ps)
      × (length out ≡ length head + weight ps)
      × ((n : ℕ) → count_entries es ≡ n → head ≡ encode_type_and_argument 5 n [])
unfolding encode_value usize_to_u64
map_length es out h =
    let (len, c₁, h₁) = >>=-eq-ok (usize_to_u64 (count_entries es)) _ h in
    let (ps, c₂, h₂) = >>=-eq-ok (encode_entries es) _ h₁ in
    let twice = reject_if (has_duplicate (sort_pairs ps)) duplicate_cbor_key in
    let (_, _, h₃) = >>=-eq-ok twice _ h₂ in
    let head = encode_type_and_argument 5 len [] in
    let same = counted (count_entries es) len c₁ in
    (
      ps,
      head,
      c₂,
      ap length (sym (ok-injective h₃))
          ∙ (length-extend_pairs (sort_pairs ps) head
              ∙ ap (λ (w : ℕ). length head + w) (weight-sort_pairs ps)),
      λ n e. ap (λ (k : ℕ). encode_type_and_argument 5 k []) (sym same ∙ e),
    )
  where
    counted : (n v : ℕ) → usize_to_u64 n ≡ ok v → n ≡ v
    counted n v k = ground arith

entry_parts :
    (k v : CborValue) (es : Entries) (ps : List Pair)
    → encode_entries (one_entry k v es) ≡ ok ps
    → (kb : List ℕ) × (vb : List ℕ) × (rest : List Pair) × (encode_value k [] ≡ ok kb)
      × (encode_value v [] ≡ ok vb)
      × (encode_entries es ≡ ok rest)
      × (ps ≡ (kb, vb) ∷ rest)
unfolding encode_entries
entry_parts k v es ps h =
    let (kb, c₁, h₁) = >>=-eq-ok (encode_value k []) _ h in
    let (vb, c₂, h₂) = >>=-eq-ok (encode_value v []) _ h₁ in
    let (rest, c₃, h₃) = >>=-eq-ok (encode_entries es) _ h₂ in
    (kb, vb, rest, c₁, c₂, c₃, sym (ok-injective h₃))

same_ok : (x : Result (List ℕ)) (a b : List ℕ) → x ≡ ok a → x ≡ ok b → length a ≡ length b
same_ok x a b p q = ap length (ok-injective (sym p ∙ q))

-- Maps that differ behind their first entry differ in weight as what follows it does.
weigh_same :
    (k v : CborValue) (es fs : Entries) (ps qs : List Pair)
    → encode_entries (one_entry k v es) ≡ ok ps
    → encode_entries (one_entry k v fs) ≡ ok qs
    → (ps' : List Pair) × (qs' : List Pair) × (encode_entries es ≡ ok ps')
      × (encode_entries fs ≡ ok qs')
      × (weight ps + weight qs' ≡ weight qs + weight ps')
weigh_same k v es fs ps qs h g =
    let (kb, vb, ps', key, value, rest, same) = entry_parts k v es ps h in
    let (kc, vc, qs', key', value', rest', same') = entry_parts k v fs qs g in
    (
      ps',
      qs',
      rest,
      rest',
      weights (length kb) (length kc) (length vb) (length vc) (weight ps') (weight qs') (weight ps)
          (weight qs) (same_ok (encode_value k []) kb kc key key')
          (same_ok (encode_value v []) vb vc value value') (ap weight same) (ap weight same'),
    )
  where
    weights :
        (a a' b b' p q x y : ℕ) → a ≡ a' → b ≡ b' → x ≡ a + b + p → y ≡ a' + b' + q → x + q ≡ y + p
    weights a a' b b' p q x y e f g h = omega arith

number_length :
    (n : ℕ) (out : List ℕ) → encode_value (u64_value n) [] ≡ ok out → length out ≡ head_len n
unfolding encode_value u64_value integer_argument encode_type_and_argument
number_length n out h = elim (Bool-cases (leb n u64_max)) [
  | inl small ↦ ap length (sym (ok-injective (rw small at h))) ∙ length-head_bytes 0 n
  | inr large ↦ absurd (refused (rw large at h))
]
  where
    refused : ◌≡◌ {A = Result (List ℕ)} (err resource_limit_exceeded) (ok out) → ⊥
    refused k = cc

-- Maps that differ in a number at their first entry.
weigh_number :
    (k : CborValue) (n m : ℕ) (es : Entries) (ps qs : List Pair)
    → encode_entries (one_entry k (u64_value n) es) ≡ ok ps
    → encode_entries (one_entry k (u64_value m) es) ≡ ok qs
    → weight ps + head_len m ≡ weight qs + head_len n
weigh_number k n m es ps qs h g =
    let (kb, vb, ps', key, value, rest, same) = entry_parts k (u64_value n) es ps h in
    let (kc, vc, qs', key', value', rest', same') = entry_parts k (u64_value m) es qs g in
    let rests = ap weight (ok-injective (sym rest ∙ rest')) in
    weights (length kb) (length kc) (length vb) (length vc) (weight ps') (weight qs') (weight ps)
      (weight qs) (head_len n) (head_len m) (same_ok (encode_value k []) kb kc key key')
      (number_length n vb value) (number_length m vc value') rests (ap weight same)
      (ap weight same')
  where
    weights :
        (a a' b b' p q x y n m : ℕ)
        → a ≡ a'
        → b ≡ n
        → b' ≡ m
        → p ≡ q
        → x ≡ a + b + p
        → y ≡ a' + b' + q
        → x + m ≡ y + n
    weights a a' b b' p q x y n m e f f' g h k = omega arith

module _ (id : List ℕ) (root metadata : BlockRef) (checksum : Option Checksum) where
  abbrev behind : Entries
  behind = one_entry (text Words.word_footer_flags) (u64_value 0) (checksum_entry checksum)

  abbrev footer_entries : ℕ → Entries
  footer_entries n = one_entry (text Words.word_schema) (text Words.schema_footer) (
      one_entry (text Words.word_format_version) version_value (
        one_entry (text Words.word_container_id) (bytes id) (
          one_entry (text Words.word_index_root) (block_ref_value root) (
            one_entry (text Words.word_metadata) (block_ref_value metadata)
              (one_entry (text Words.word_final_file_size) (u64_value n) behind)))))

  encode_entries_of :
      (n : ℕ)
      → encode_footer (candidate id root metadata checksum n)
        ≡ encode_value (map (footer_entries n)) []
  unfolding encode_footer candidate encode_deterministic
  encode_entries_of n = refl

  weigh_entries :
      (n m : ℕ) (ps qs : List Pair)
      → encode_entries (footer_entries n) ≡ ok ps
      → encode_entries (footer_entries m) ≡ ok qs
      → weight ps + head_len m ≡ weight qs + head_len n
  weigh_entries n m ps qs h g =
      let (ps₁, qs₁, h₁, g₁, e₁) = weigh_same _ _ _ _ ps qs h g in
      let (ps₂, qs₂, h₂, g₂, e₂) = weigh_same _ _ _ _ ps₁ qs₁ h₁ g₁ in
      let (ps₃, qs₃, h₃, g₃, e₃) = weigh_same _ _ _ _ ps₂ qs₂ h₂ g₂ in
      let (ps₄, qs₄, h₄, g₄, e₄) = weigh_same _ _ _ _ ps₃ qs₃ h₃ g₃ in
      let (ps₅, qs₅, h₅, g₅, e₅) = weigh_same _ _ _ _ ps₄ qs₄ h₄ g₄ in
      let e₆ = weigh_number _ n m behind ps₅ qs₅ h₅ g₅ in
      chain _ _ _ _ _ _ _ _ _ _ _ _ _ _ e₁ e₂ e₃ e₄ e₅ e₆
    where
      chain :
          (p p₁ p₂ p₃ p₄ p₅ q q₁ q₂ q₃ q₄ q₅ x y : ℕ)
          → p + q₁ ≡ q + p₁
          → p₁ + q₂ ≡ q₁ + p₂
          → p₂ + q₃ ≡ q₂ + p₃
          → p₃ + q₄ ≡ q₃ + p₄
          → p₄ + q₅ ≡ q₄ + p₅
          → p₅ + x ≡ q₅ + y
          → p + x ≡ q + y
      chain p p₁ p₂ p₃ p₄ p₅ q q₁ q₂ q₃ q₄ q₅ x y a b c d e f = omega arith

  -- Two payloads that differ in the file size that they name differ in length as its heads do.
  pub payload_lengths :
      (n m : ℕ) (xs ys : List ℕ)
      → encode_footer (candidate id root metadata checksum n) ≡ ok xs
      → encode_footer (candidate id root metadata checksum m) ≡ ok ys
      → length xs + head_len m ≡ length ys + head_len n
  payload_lengths n m xs ys h g =
      let (ps, head, p, len, is) =
        map_length (footer_entries n) xs (sym (encode_entries_of n) ∙ h) in
      let (qs, head', q, len', is') =
        map_length (footer_entries m) ys (sym (encode_entries_of m) ∙ g) in
      let heads = ap length (is (count_entries (footer_entries n)) refl ∙ sym (is' _ refl)) in
      total (length head) (length head') (weight ps) (weight qs) (length xs) (length ys)
        (head_len n) (head_len m) heads len len' (weigh_entries n m ps qs p q)
    where
      total :
          (h h' p q x y n m : ℕ) → h ≡ h' → x ≡ h + p → y ≡ h' + q → p + m ≡ q + n → x + m ≡ y + n
      total h h' p q x y n m a b c d = omega arith
