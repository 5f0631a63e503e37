-- ===== src/Cbor.antt =====
-- src/cbor.rs: the values of deterministic CBOR and their encoder. The parser, what encoding costs
-- and the check against a schema are in the modules below.
pub mod Parser
pub mod Usage
pub mod Schema
pub mod Closed
pub mod Reads
pub mod Heads
pub mod Maps
pub mod Items
pub mod Nested
pub mod Canonical
mod Runs
use Prim.Native.Nat.{compare, Ordering, bit_or}
use qzt.Base.{
  ℕ, zero, suc, ◌+◌, ◌*◌, ◌%◌, ◌^◌, List, [], ◌∷◌, ◌++◌, Bool, true, false, ◌||◌, ltb, leb,
}
use qzt.Base.{if◌then◌else◌, length, bytes_eq, to_be_bytes, u64_max, checked_add, ℤ, pos, negsuc}
use qzt.Error.{Result, ok, err, ok_or, reject_if, ◌>>=◌, ◌>>◌}
use qzt.Error.{resource_limit_exceeded, duplicate_cbor_key}
use qzt.Primitives.{usize_to_u64}
use qzt.Limits.{CborLimits}

-- A text is the list of its bytes.
mutual
  pub data CborValue : Type 0 where
    integer : ℤ → CborValue
    bytes : List ℕ → CborValue
    text : List ℕ → CborValue
    array : Values → CborValue
    map : Entries → CborValue
    bool : Bool → CborValue
    null : CborValue

  pub data Values : Type 0 where
    no_values : Values
    one_value : CborValue → Values → Values

  pub data Entries : Type 0 where
    no_entries : Entries
    one_entry : CborValue → CborValue → Entries → Entries

abbrev pub count_values : Values → ℕ
count_values no_values = 0
count_values (one_value v vs) = suc (count_values vs)

abbrev pub count_entries : Entries → ℕ
count_entries no_entries = 0
count_entries (one_entry k v es) = suc (count_entries es)

-- The order of byte slices.
unfoldable pub compare_bytes : List ℕ → List ℕ → Ordering
compare_bytes [] [] = Ordering.eq
compare_bytes [] (b ∷ bs) = Ordering.lt
compare_bytes (a ∷ as_) [] = Ordering.gt
compare_bytes (a ∷ as_) (b ∷ bs) = elim (compare a b) [
  | Ordering.lt ↦ Ordering.lt
  | Ordering.eq ↦ compare_bytes as_ bs
  | Ordering.gt ↦ Ordering.gt
]

-- The major type and the argument of an integer; both `i128::try_into` and the negation that the
-- source checks fail outside the range of u64 only.
unfoldable pub integer_argument : ℤ → Result (ℕ × ℕ)
integer_argument (pos n) = if leb n u64_max then ok (0, n) else err resource_limit_exceeded
integer_argument (negsuc n) = if leb n u64_max then ok (1, n) else err resource_limit_exceeded

unfoldable pub head_bytes : ℕ → ℕ → List ℕ
head_bytes major value =
    let prefix = major * 2 ^ 5 % 256 in
    if leb value 23
    then bit_or prefix (value % 256) ∷ []
    else if leb value 0xff
    then bit_or prefix 0x18 ∷ to_be_bytes 1 (value % 2 ^ 8)
    else if leb value 0xffff
    then bit_or prefix 0x19 ∷ to_be_bytes 2 (value % 2 ^ 16)
    else if leb value 0xffff_ffff
    then bit_or prefix 0x1a ∷ to_be_bytes 4 (value % 2 ^ 32)
    else bit_or prefix 0x1b ∷ to_be_bytes 8 value

unfoldable pub encode_type_and_argument : ℕ → ℕ → List ℕ → List ℕ
encode_type_and_argument major value out = out ++ head_bytes major value

-- An encoded key and its encoded value.
abbrev pub Pair : Type 0
Pair = List ℕ × List ℕ

-- `encoded_entries.sort_by(|left, right| left.0.cmp(&right.0))`, which is stable.
unfoldable pub insert_pair : Pair → List Pair → List Pair
insert_pair a [] = a ∷ []
insert_pair a (b ∷ bs) =
    let later = b ∷ insert_pair a bs in
    elim (compare_bytes a.0 b.0) [ Ordering.gt ↦ later | _ ↦ a ∷ (b ∷ bs) ]

unfoldable pub sort_pairs : List Pair → List Pair
sort_pairs [] = []
sort_pairs (a ∷ as_) = insert_pair a (sort_pairs as_)

-- `encoded_entries.windows(2)`
unfoldable pub has_duplicate : List Pair → Bool
has_duplicate [] = false
has_duplicate (a ∷ []) = false
has_duplicate (a ∷ (b ∷ rest)) = bytes_eq a.0 b.0 || has_duplicate (b ∷ rest)

unfoldable pub extend_pairs : List Pair → List ℕ → List ℕ
extend_pairs [] out = out
extend_pairs (a ∷ as_) out = extend_pairs as_ ((out ++ a.0) ++ a.1)

unfoldable mutual
  unfolding integer_argument

  pub encode_value : CborValue → List ℕ → Result (List ℕ)
  encode_value (integer i) out = do
    (major, argument) ← integer_argument i
    ok (encode_type_and_argument major argument out)
  encode_value (bytes payload) out = do
    len ← usize_to_u64 (length payload)
    ok (encode_type_and_argument 2 len out ++ payload)
  encode_value (text payload) out = do
    len ← usize_to_u64 (length payload)
    ok (encode_type_and_argument 3 len out ++ payload)
  encode_value (array values) out = do
    len ← usize_to_u64 (count_values values)
    encode_values values (encode_type_and_argument 4 len out)
  encode_value (map entries) out = do
    len ← usize_to_u64 (count_entries entries)
    encoded ← encode_entries entries
    reject_if (has_duplicate (sort_pairs encoded)) duplicate_cbor_key
    ok (extend_pairs (sort_pairs encoded) (encode_type_and_argument 5 len out))
  encode_value (bool false) out = ok (out ++ (0xf4 ∷ []))
  encode_value (bool true) out = ok (out ++ (0xf5 ∷ []))
  encode_value null out = ok (out ++ (0xf6 ∷ []))

  pub encode_values : Values → List ℕ → Result (List ℕ)
  encode_values no_values out = ok out
  encode_values (one_value v vs) out = do out' ← encode_value v out; encode_values vs out'

  pub encode_entries : Entries → Result (List Pair)
  encode_entries no_entries = ok []
  encode_entries (one_entry k v es) = do
    key_bytes ← encode_value k []
    value_bytes ← encode_value v []
    rest ← encode_entries es
    ok ((key_bytes, value_bytes) ∷ rest)

unfoldable pub encode_deterministic : CborValue → Result (List ℕ)
encode_deterministic v = encode_value v []
