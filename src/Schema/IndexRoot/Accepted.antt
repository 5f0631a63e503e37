-- ===== src/Schema/IndexRoot/Accepted.antt =====
-- What `IndexRoot::decode` of src/schema.rs accepts.
use qzt.Base.{ℕ, ◌≡◌, refl, ap, arith, List, [], ◌∷◌, ◌++◌, Bool, true, false, ◌⊎◌, inl, inr}
use qzt.Base.{length, IsU64, Bool-cases, not, ◌&&◌, ◌!=◌, All, bytes_eq, bytes_eq→eq, zero, suc}
use qzt.Error.{ok, reject_if, reject_if_inv, reject_if-ne_inv, >>=-eq-ok}
use qzt.Error.{ok-injective, container_corrupt, invalid_flags}
use qzt.Error.{unknown_required_block}
use qzt.Cbor.{CborValue, Entries, Values, no_values, one_value}
use qzt.Schema.{as_map, required_map, required_text, required_u64, required_bool, required_bstr}
use qzt.Schema.{required_array, required_checksum, reject_unknown_keys, decode_prologue}
use qzt.Schema.Accepted.{
  IsBlake3, required_u64-IsU64, required_bstr_len, required_checksum-IsBlake3,
}
use qzt.Schema.Words
use qzt.Schema.IndexRoot.{
  BlockDescriptor, IndexRoot, is_chunk_table, build_block, decode_block_descriptor, decode_blocks,
}
use qzt.Schema.IndexRoot.{
  count_chunk_tables, check_count, build_root, decode, find_chunk_table, block_keys,
}
use qzt.Schema.IndexRoot.{content_keys, root_keys}

-- A block is optional, or the chunk table.
pub record IsBlockDescriptor (b : BlockDescriptor) : Type 0 where
  pub no_flags : b.flags ≡ 0
  pub offset_u64 : IsU64 b.offset
  pub size_u64 : IsU64 b.size
  pub checksum_blake3 : IsBlake3 b.checksum
  pub optional_or_table : (b.required ≡ false) ⊎ (b.block_type ≡ Words.word_chunk_table)

abbrev pub IsOptional : BlockDescriptor → Type 0
IsOptional b = b.required ≡ false

-- One block is required, and it is the chunk table.
pub record OneTable (blocks : List BlockDescriptor) : Type 0 where
  pub front : List BlockDescriptor
  pub table : BlockDescriptor
  pub back : List BlockDescriptor
  pub parts : blocks ≡ front ++ (table ∷ back)
  pub front_optional : All IsOptional front
  pub back_optional : All IsOptional back
  pub table_required : table.required ≡ true
  pub table_type : table.block_type ≡ Words.word_chunk_table
  pub table_found : find_chunk_table blocks ≡ ok table

pub record IsIndexRoot (r : IndexRoot) : Type 0 where
  pub container_id_len : length r.container_id ≡ 16
  pub original_size_u64 : IsU64 r.original_size
  pub original_checksum_blake3 : IsBlake3 r.original_checksum
  pub chunk_count_u64 : IsU64 r.chunk_count
  pub line_count_u64 : IsU64 r.line_count
  pub blocks_valid : All IsBlockDescriptor r.blocks
  pub one_table : OneTable r.blocks

-- The guard on required blocks.
required_guard :
    (required : Bool) (kind : List ℕ)
    → (required && not (bytes_eq kind Words.word_chunk_table)) ≡ false
    → (required ≡ false) ⊎ (kind ≡ Words.word_chunk_table)
required_guard false kind h = inl refl
required_guard true kind h = elim (Bool-cases (bytes_eq kind Words.word_chunk_table)) [
  | inl same ↦ inr (bytes_eq→eq kind Words.word_chunk_table same)
  | inr other ↦ absurd (clash (rw other at h))
]
  where
    clash : true ≡ false → ⊥
    clash k = cc

build_block-IsBlockDescriptor :
    (fields : Entries) (kind : List ℕ) (required : Bool) (flags : ℕ) (b : BlockDescriptor)
    → flags ≡ 0
    → (required ≡ false) ⊎ (kind ≡ Words.word_chunk_table)
    → build_block fields kind required flags ≡ ok b
    → IsBlockDescriptor b
unfolding build_block
build_block-IsBlockDescriptor fields kind required flags b no_flags guarded h =
    let e = container_corrupt in
    let (offset, c₁, h₁) = >>=-eq-ok (required_u64 fields Words.word_offset e) _ h in
    let (size, c₂, h₂) = >>=-eq-ok (required_u64 fields Words.word_size e) _ h₁ in
    let (codec, c₃, h₃) = >>=-eq-ok (required_text fields Words.word_codec e) _ h₂ in
    let (checksum, c₄, h₄) = >>=-eq-ok (required_checksum fields Words.word_checksum e) _ h₃ in
    rw (← ok-injective h₄) (record {
      no_flags = no_flags;
      offset_u64 = required_u64-IsU64 fields Words.word_offset e offset c₁;
      size_u64 = required_u64-IsU64 fields Words.word_size e size c₂;
      checksum_blake3 = required_checksum-IsBlake3 fields Words.word_checksum e checksum c₄;
      optional_or_table = guarded;
    })

decode_block_descriptor-IsBlockDescriptor :
    (value : CborValue) (b : BlockDescriptor)
    → decode_block_descriptor value ≡ ok b
    → IsBlockDescriptor b
unfolding decode_block_descriptor
decode_block_descriptor-IsBlockDescriptor value b h =
    let e = container_corrupt in
    let (fields, _, h₁) = >>=-eq-ok (as_map value e) _ h in
    let (_, _, h₂) = >>=-eq-ok (reject_unknown_keys fields block_keys e) _ h₁ in
    let (kind, _, h₃) = >>=-eq-ok (required_text fields Words.word_type e) _ h₂ in
    let (required, _, h₄) = >>=-eq-ok (required_bool fields Words.word_required e) _ h₃ in
    let (flags, _, h₅) = >>=-eq-ok (required_u64 fields Words.word_flags e) _ h₄ in
    let (_, c₆, h₆) = >>=-eq-ok (reject_if (flags != 0) invalid_flags) _ h₅ in
    let guard = required && not (bytes_eq kind Words.word_chunk_table) in
    let (_, c₇, h₇) = >>=-eq-ok (reject_if guard unknown_required_block) _ h₆ in
    build_block-IsBlockDescriptor fields kind required flags b
      (reject_if-ne_inv flags 0 invalid_flags c₆)
      (required_guard required kind (reject_if_inv guard unknown_required_block c₇)) h₇

decode_blocks-All :
    (values : Values) (blocks : List BlockDescriptor)
    → decode_blocks values ≡ ok blocks
    → All IsBlockDescriptor blocks
unfolding decode_blocks
decode_blocks-All no_values blocks h = rw (← ok-injective h) tt
decode_blocks-All (one_value value values) blocks h =
    let (b, c₁, h₁) = >>=-eq-ok (decode_block_descriptor value) _ h in
    let (bs, c₂, h₂) = >>=-eq-ok (decode_blocks values) _ h₁ in
    rw (← ok-injective h₂)
      (decode_block_descriptor-IsBlockDescriptor value b c₁, decode_blocks-All values bs c₂)

-- A valid block that is not counted is optional.
uncounted : (b : BlockDescriptor) → IsBlockDescriptor b → is_chunk_table b ≡ false → IsOptional b
unfolding is_chunk_table
uncounted b valid h = elim (Bool-cases b.required) [
  | inl needed ↦ elim valid.optional_or_table [
    | inl optional ↦ optional
    | inr table ↦ absurd (clash b.required b.block_type needed table h)
  ]
  | inr optional ↦ optional
]
  where
    clash :
        (required : Bool) (kind : List ℕ)
        → required ≡ true
        → kind ≡ Words.word_chunk_table
        → (required && bytes_eq kind Words.word_chunk_table) ≡ false
        → ⊥
    clash required kind r k q = cc (rw (r, k) at q)

-- Blocks that are all uncounted.
no_tables :
    (blocks : List BlockDescriptor)
    → All IsBlockDescriptor blocks
    → count_chunk_tables blocks ≡ 0
    → All IsOptional blocks
unfolding count_chunk_tables
no_tables [] valid h = tt
no_tables (b ∷ bs) valid h = elim (Bool-cases (is_chunk_table b)) [
  | inl table ↦ absurd (above (count_chunk_tables bs) (rw table at h))
  | inr other ↦ (uncounted b valid.0 other, no_tables bs valid.1 (rw other at h))
]
  where
    above : (n : ℕ) → suc n ≡ 0 → ⊥
    above n k = omega arith

is_chunk_table_inv :
    (b : BlockDescriptor)
    → is_chunk_table b ≡ true
    → (b.required ≡ true) × (b.block_type ≡ Words.word_chunk_table)
unfolding is_chunk_table
is_chunk_table_inv b h =
    let (r, k) = both b.required (bytes_eq b.block_type Words.word_chunk_table) h in
    (r, bytes_eq→eq b.block_type Words.word_chunk_table k)
  where
    both : (x y : Bool) → (x && y) ≡ true → (x ≡ true) × (y ≡ true)
    both true y k = (refl, k)
    both false y k = cc

count-OneTable :
    (blocks : List BlockDescriptor)
    → All IsBlockDescriptor blocks
    → count_chunk_tables blocks ≡ 1
    → OneTable blocks
unfolding count_chunk_tables find_chunk_table
count-OneTable [] valid h = absurd (omega arith)
count-OneTable (b ∷ bs) valid h = elim (Bool-cases (is_chunk_table b)) [
  | inl table ↦
      let (required, kind) = is_chunk_table_inv b table in
      record {
        front = [];
        table = b;
        back = bs;
        parts = refl;
        front_optional = tt;
        back_optional = no_tables bs valid.1 (below (count_chunk_tables bs) (rw table at h));
        table_required = required;
        table_type = kind;
        table_found = rw table;
      }
  | inr other ↦
      let rest = count-OneTable bs valid.1 (rw other at h) in
      record {
        front = b ∷ rest.front;
        table = rest.table;
        back = rest.back;
        parts = ap (λ r. b ∷ r) rest.parts;
        front_optional = (uncounted b valid.0 other, rest.front_optional);
        back_optional = rest.back_optional;
        table_required = rest.table_required;
        table_type = rest.table_type;
        table_found = rw other rest.table_found;
      }
]
  where
    below : (n : ℕ) → suc n ≡ 1 → n ≡ 0
    below n k = omega arith

check_count_inv : (n : ℕ) {u : Unit {0}} → check_count n ≡ ok u → n ≡ 1
unfolding check_count
check_count_inv zero h = cc
check_count_inv (suc zero) h = refl
check_count_inv (suc (suc n)) h = cc

build_root-IsIndexRoot :
    (fields content : Entries) (blocks : List BlockDescriptor) (r : IndexRoot)
    → All IsBlockDescriptor blocks
    → OneTable blocks
    → build_root fields content blocks ≡ ok r
    → IsIndexRoot r
unfolding build_root
build_root-IsIndexRoot fields content blocks r valid one h =
    let e = container_corrupt in
    let (id, c₁, h₁) = >>=-eq-ok (required_bstr 16 fields Words.word_container_id e) _ h in
    let (size, c₂, h₂) = >>=-eq-ok (required_u64 content Words.word_original_size e) _ h₁ in
    let (sum, c₃, h₃) = >>=-eq-ok (required_checksum content Words.word_original_checksum e) _ h₂ in
    let (chunks, c₄, h₄) = >>=-eq-ok (required_u64 content Words.word_chunk_count e) _ h₃ in
    let (lines, c₅, h₅) = >>=-eq-ok (required_u64 content Words.word_line_count e) _ h₄ in
    rw (← ok-injective h₅) (record {
      container_id_len = required_bstr_len 16 fields Words.word_container_id e id c₁;
      original_size_u64 = required_u64-IsU64 content Words.word_original_size e size c₂;
      original_checksum_blake3 =
          required_checksum-IsBlake3 content Words.word_original_checksum e sum c₃;
      chunk_count_u64 = required_u64-IsU64 content Words.word_chunk_count e chunks c₄;
      line_count_u64 = required_u64-IsU64 content Words.word_line_count e lines c₅;
      blocks_valid = valid;
      one_table = one;
    })

-- An index root that `IndexRoot::decode` returns has a container id of 16 bytes, u64 counts and size
-- and a named blake3 digest of 32 bytes; its blocks have no flags, u64 offsets and sizes and such
-- digests; exactly one of them is required, it is a chunk table, and it is the block that
-- `chunk_table_block` finds.
pub decode-IsIndexRoot : (input : List ℕ) (r : IndexRoot) → decode input ≡ ok r → IsIndexRoot r
unfolding decode
decode-IsIndexRoot input r h =
    let e = container_corrupt in
    let prologue = decode_prologue input root_keys Words.schema_index_root e in
    let (fields, _, h₁) = >>=-eq-ok prologue _ h in
    let (values, _, h₂) = >>=-eq-ok (required_array fields Words.word_blocks e) _ h₁ in
    let (blocks, c₃, h₃) = >>=-eq-ok (decode_blocks values) _ h₂ in
    let (_, c₄, h₄) = >>=-eq-ok (check_count (count_chunk_tables blocks)) _ h₃ in
    let (content, _, h₅) = >>=-eq-ok (required_map fields Words.word_content e) _ h₄ in
    let (_, _, h₆) = >>=-eq-ok (reject_unknown_keys content content_keys e) _ h₅ in
    let valid = decode_blocks-All values blocks c₃ in
    let one = count-OneTable blocks valid (check_count_inv (count_chunk_tables blocks) c₄) in
    build_root-IsIndexRoot fields content blocks r valid one h₆
