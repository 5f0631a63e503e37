-- ===== src/Schema/Dictionary/Accepted.antt =====
-- What `DictionaryBlock::decode_with_limits` of src/schema.rs accepts.
use qzt.Base.{ℕ, ◌≡◌, ◌≢◌, refl, sym, arith, List, [], ◌∷◌, Bool, true, false, ◌||◌, ◌&&◌, ◌==◌}
use qzt.Base.{◌<◌, ◌≤◌, ◌^◌, ltb, ltb-false, not, not_inv, length, All}
use qzt.Base.{bytes_eq, bytes_eq→eq}
use qzt.Error.{QztError, ok, reject_if, reject_if_inv, >>=-eq-ok, ok-injective}
use qzt.Error.{container_corrupt, resource_limit_exceeded, dictionary_checksum_mismatch}
use qzt.Primitives.{usize_to_u64}
use qzt.Cbor.{CborValue, Values, no_values, one_value}
use qzt.Schema.{Checksum, as_map, required_text, required_u64, required_bytes, required_bstr}
use qzt.Schema.{required_array, required_checksum, reject_unknown_keys, decode_prologue}
use qzt.Schema.Accepted.{required_bstr_len}
use qzt.Schema.IndexRoot.{checksum_eq}
use qzt.Schema.Words
use qzt.Schema.Dictionary.{
  DictionaryEntry, DictionaryBlock, dictionary_keys, dictionary_block_keys, u64_to_u32, is_seen,
}
use qzt.Schema.Dictionary.{digest, decode_dictionary_entry, decode_entries, decode_with_limits}

pub checksum_eq→eq : (a b : Checksum) → checksum_eq a b ≡ true → a ≡ b
unfolding checksum_eq
checksum_eq→eq a b h =
    let (p, q) = both (bytes_eq a.algorithm b.algorithm) (bytes_eq a.value b.value) h in
    let same_algorithm = bytes_eq→eq a.algorithm b.algorithm p in
    let same_value = bytes_eq→eq a.value b.value q in cc
  where
    both : (x y : Bool) → (x && y) ≡ true → (x ≡ true) × (y ≡ true)
    both true y k = (refl, k)
    both false y k = cc

pub usize_to_u64_eq : (n v : ℕ) → usize_to_u64 n ≡ ok v → n ≡ v
unfolding usize_to_u64
usize_to_u64_eq n v h = ground arith

u64_to_u32_inv : (v w : ℕ) (e : QztError) → u64_to_u32 v e ≡ ok w → w < 2 ^ 32
unfolding u64_to_u32
u64_to_u32_inv v w e h = ground arith

-- An id that no later entry has.
abbrev pub Fresh : ℕ → List DictionaryEntry → Type 0
Fresh id es = All (λ e. e.dictionary_id ≢ id) es

abbrev pub DistinctIds : List DictionaryEntry → Type 0
DistinctIds [] = Unit
DistinctIds (e ∷ es) = Fresh e.dictionary_id es × DistinctIds es

module _ (blake3 : List ℕ → List ℕ) where
  pub record IsDictionary (limit : ℕ) (e : DictionaryEntry) : Type 0 where
    pub id_pos : 0 < e.dictionary_id
    pub id_u32 : e.dictionary_id < 2 ^ 32
    pub codec_zstd : e.codec ≡ Words.word_zstd
    pub size_limit : length e.bytes ≤ limit
    pub digest_of_bytes : e.checksum ≡ digest blake3 e.bytes

  pub record IsDictionaryBlock (limit : ℕ) (b : DictionaryBlock) : Type 0 where
    pub container_id_len : length b.container_id ≡ 16
    pub all_valid : All (IsDictionary limit) b.dictionaries
    pub distinct : DistinctIds b.dictionaries

  decode_dictionary_entry-IsDictionary :
      (value : CborValue) (limit : ℕ) (d : DictionaryEntry)
      → decode_dictionary_entry blake3 value limit ≡ ok d
      → IsDictionary limit d
  unfolding decode_dictionary_entry
  decode_dictionary_entry-IsDictionary value limit d h =
      let e = container_corrupt in
      let (fields, _, h₁) = >>=-eq-ok (as_map value e) _ h in
      let (_, _, h₂) = >>=-eq-ok (reject_unknown_keys fields dictionary_keys e) _ h₁ in
      let (wide, _, h₃) = >>=-eq-ok (required_u64 fields Words.word_dictionary_id e) _ h₂ in
      let (id, c₄, h₄) = >>=-eq-ok (u64_to_u32 wide e) _ h₃ in
      let (_, c₅, h₅) = >>=-eq-ok (reject_if (id == 0) e) _ h₄ in
      let (codec, _, h₆) = >>=-eq-ok (required_text fields Words.word_codec e) _ h₅ in
      let (_, c₇, h₇) = >>=-eq-ok (reject_if (not (bytes_eq codec Words.word_zstd)) e) _ h₆ in
      let (payload, _, h₈) = >>=-eq-ok (required_bytes fields Words.word_bytes e) _ h₇ in
      let (len, c₉, h₉) = >>=-eq-ok (usize_to_u64 (length payload)) _ h₈ in
      let (_, c₁₀, h₁₀) = >>=-eq-ok (reject_if (ltb limit len) resource_limit_exceeded) _ h₉ in
      let (sum, _, h₁₁) = >>=-eq-ok (required_checksum fields Words.word_checksum e) _ h₁₀ in
      let mismatch = not (checksum_eq (digest blake3 payload) sum) in
      let (_, c₁₂, h₁₂) = >>=-eq-ok (reject_if mismatch dictionary_checksum_mismatch) _ h₁₁ in
      let small = ltb-false limit len (reject_if_inv _ resource_limit_exceeded c₁₀) in
      let agree = not_inv _ (reject_if_inv mismatch dictionary_checksum_mismatch c₁₂) in
      rw (← ok-injective h₁₂) (record {
        id_pos = positive id (reject_if_inv (id == 0) e c₅);
        id_u32 = u64_to_u32_inv wide id e c₄;
        codec_zstd = bytes_eq→eq codec Words.word_zstd (not_inv _ (reject_if_inv _ e c₇));
        size_limit = rw (usize_to_u64_eq (length payload) len c₉) small;
        digest_of_bytes = sym (checksum_eq→eq (digest blake3 payload) sum agree);
      })
    where
      positive : (id : ℕ) → (id == 0) ≡ false → 0 < id
      positive id k = ground arith

  -- The ids seen before are those of no entry to come.
  abbrev AllFresh : List ℕ → List DictionaryEntry → Type 0
  AllFresh seen es = All (λ (e : DictionaryEntry). is_seen seen e.dictionary_id ≡ false) es

  not_seen_head :
      (seen : List ℕ) (id : ℕ) (es : List DictionaryEntry)
      → AllFresh (id ∷ seen) es
      → Fresh id es × AllFresh seen es
  unfolding is_seen
  not_seen_head seen id [] h = (tt, tt)
  not_seen_head seen id (e ∷ es) h =
      let (fresh, rest) = not_seen_head seen id es h.1 in
      let (p, q) = neither (id == e.dictionary_id) (is_seen seen e.dictionary_id) h.0 in
      ((differs id e.dictionary_id p, fresh), (q, rest))
    where
      neither : (x y : Bool) → (x || y) ≡ false → (x ≡ false) × (y ≡ false)
      neither true y k = cc
      neither false y k = (refl, k)

      differs : (a b : ℕ) → (a == b) ≡ false → b ≢ a
      differs a b k = ground arith

  decode_entries_lem :
      (limit : ℕ) (seen : List ℕ) (values : Values) (es : List DictionaryEntry)
      → decode_entries blake3 limit seen values ≡ ok es
      → All (IsDictionary limit) es × DistinctIds es × AllFresh seen es
  unfolding decode_entries
  decode_entries_lem limit seen no_values es h = rw (← ok-injective h) (tt, tt, tt)
  decode_entries_lem limit seen (one_value value values) es h =
      let (d, c₁, h₁) = >>=-eq-ok (decode_dictionary_entry blake3 value limit) _ h in
      let repeated = reject_if (is_seen seen d.dictionary_id) container_corrupt in
      let (_, c₂, h₂) = >>=-eq-ok repeated _ h₁ in
      let (more, c₃, h₃) =
        >>=-eq-ok (decode_entries blake3 limit (d.dictionary_id ∷ seen) values) _ h₂ in
      let (valid, distinct, fresh) =
        decode_entries_lem limit (d.dictionary_id ∷ seen) values more c₃ in
      let (head_fresh, tail_fresh) = not_seen_head seen d.dictionary_id more fresh in
      let new = reject_if_inv (is_seen seen d.dictionary_id) container_corrupt c₂ in
      rw (← ok-injective h₃) (
        (decode_dictionary_entry-IsDictionary value limit d c₁, valid),
        (head_fresh, distinct),
        (new, tail_fresh),
      )

  -- A dictionary block that `DictionaryBlock::decode_with_limits` returns has a container id of 16
  -- bytes, and its dictionaries have distinct ids above zero of 32 bits, the codec zstd, at most the
  -- limit of bytes, and the digest of these bytes.
  pub decode_with_limits-IsDictionaryBlock :
      (input : List ℕ) (limit : ℕ) (b : DictionaryBlock)
      → decode_with_limits blake3 input limit ≡ ok b
      → IsDictionaryBlock limit b
  unfolding decode_with_limits
  decode_with_limits-IsDictionaryBlock input limit b h =
      let e = container_corrupt in
      let prologue = decode_prologue input dictionary_block_keys Words.schema_dictionary e in
      let (fields, _, h₁) = >>=-eq-ok prologue _ h in
      let (values, _, h₂) = >>=-eq-ok (required_array fields Words.word_dictionaries e) _ h₁ in
      let (es, c₃, h₃) = >>=-eq-ok (decode_entries blake3 limit [] values) _ h₂ in
      let (id, c₄, h₄) = >>=-eq-ok (required_bstr 16 fields Words.word_container_id e) _ h₃ in
      let (valid, distinct, _) = decode_entries_lem limit [] values es c₃ in
      rw (← ok-injective h₄) (record {
        container_id_len = required_bstr_len 16 fields Words.word_container_id e id c₄;
        all_valid = valid;
        distinct = distinct;
      })
