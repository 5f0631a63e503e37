-- ===== src/Cbor/Parser.antt =====
-- src/cbor.rs: the parser of deterministic CBOR, with its budgets of bytes, items and depth.
use Prim.Native.Nat.{Ordering, bit_and}
use qzt.Base.{
  ℕ, zero, suc, ◌+◌, ◌-◌, ◌*◌, ◌/◌, ◌^◌, List, [], ◌∷◌, true, false, ◌||◌, Option, none, some,
}
use qzt.Base.{
  ltb, leb, ◌==◌, ◌!=◌, not, if◌then◌else◌, length, take, drop, from_be_bytes, usize_max,
}
use qzt.Base.{checked_add, checked_sub, pos, negsuc}
use qzt.Base.Utf8.{is_utf8}
use qzt.Error.{Result, ok, err, panic, ok_or, reject_if, ◌>>=◌, ◌>>◌}
use qzt.Error.{resource_limit_exceeded, duplicate_cbor_key, non_canonical_cbor, unexpected_eof}
use qzt.Error.{invalid_utf8}
use qzt.Primitives.{usize_to_u64, u64_to_usize}
use qzt.Limits.{CborLimits}
use qzt.Cbor.{CborValue, integer, bytes, text, array, map, bool, null, Values, no_values, one_value}
use qzt.Cbor.{Entries, no_entries, one_entry, compare_bytes}

-- `rest` is `input[offset..]`.
pub record Parser : Type 0 where
  pub offset : ℕ
  pub rest : List ℕ
  pub remaining_allocation : ℕ
  pub remaining_items : ℕ

-- `Parser::read_u8`
unfoldable pub read_u8 : Parser → Result (ℕ × Parser)
read_u8 p = elim p.rest [
  | [] ↦ err unexpected_eof
  | byte ∷ rest ↦ ok (byte, record p { offset = p.offset + 1; rest = rest })
]

-- `Parser::read_exact`
unfoldable pub read_exact : ℕ → Parser → Result (List ℕ × Parser)
read_exact len p = do
  end ← ok_or (checked_add p.offset len) resource_limit_exceeded
  reject_if (ltb (length p.rest) len) unexpected_eof
  ok (take len p.rest, record p { offset = end; rest = drop len p.rest })

-- `Parser::consume_allocation`
unfoldable pub consume_allocation : ℕ → Parser → Result Parser
consume_allocation len p = do
  len' ← usize_to_u64 len
  left ← ok_or (checked_sub p.remaining_allocation len') resource_limit_exceeded
  ok (record p { remaining_allocation = left })

-- An argument of `width` bytes, refused where it fits into `shorter`.
unfoldable pub read_wide : ℕ → ℕ → Parser → Result (ℕ × Parser)
read_wide width shorter p = do
  (read, p') ← read_exact width p
  reject_if (leb (from_be_bytes read) shorter) non_canonical_cbor
  ok (from_be_bytes read, p')

-- `Parser::read_argument`
unfoldable pub read_argument : ℕ → Parser → Result (ℕ × Parser)
read_argument additional p =
    let narrow = do
      (argument, p') ← read_u8 p
      reject_if (ltb argument 24) non_canonical_cbor
      ok (argument, p')
    in if leb additional 23
      then ok (additional, p)
      else if additional == 24
      then narrow
      else if additional == 25
      then read_wide 2 0xff p
      else if additional == 26
      then read_wide 4 0xffff p
      else if additional == 27
      then read_wide 8 0xffff_ffff p
      else err non_canonical_cbor

-- `Parser::read_len`
unfoldable pub read_len : ℕ → ℕ → Parser → Result (ℕ × Parser)
read_len additional most p = do
  (len, p') ← read_argument additional p
  reject_if (ltb most len || ltb usize_max len) resource_limit_exceeded
  len' ← u64_to_usize len
  ok (len', p')

-- What `Parser::parse_bytes` and `Parser::parse_text` share.
unfoldable pub parse_payload : ℕ → Parser → Result (List ℕ × Parser)
parse_payload additional p = do
  (len, p₁) ← read_len additional p.remaining_allocation p
  p₂ ← consume_allocation len p₁
  read_exact len p₂

unfoldable pub parse_bytes : ℕ → Parser → Result (CborValue × Parser)
parse_bytes additional p = do (payload, p') ← parse_payload additional p; ok (bytes payload, p')

unfoldable pub parse_text : ℕ → Parser → Result (CborValue × Parser)
parse_text additional p = do
  (payload, p') ← parse_payload additional p
  reject_if (not (is_utf8 payload)) invalid_utf8
  ok (text payload, p')

abbrev pub Parse : Type 0
Parse = Parser → Result (CborValue × Parser)

-- The loop of `Parser::parse_array`; `parse` parses a value one level deeper.
unfoldable pub parse_values : Parse → ℕ → Parser → Result (Values × Parser)
parse_values parse zero p = ok (no_values, p)
parse_values parse (suc count) p = do
  (v, p₁) ← parse p
  (vs, p₂) ← parse_values parse count p₁
  ok (one_value v vs, p₂)

-- `Parser::parse_array`. The reservation is taken to succeed.
unfoldable pub parse_array : Parse → ℕ → Parser → Result (CborValue × Parser)
parse_array parse additional p = do
  (len, p₁) ← read_len additional p.remaining_items p
  (values, p₂) ← parse_values parse len p₁
  ok (array values, p₂)

-- The keys of a map ascend.
unfoldable pub check_key : Option (List ℕ) → List ℕ → Result (Unit {0})
check_key none key_bytes = ok tt
check_key (some previous) key_bytes = elim (compare_bytes previous key_bytes) [
  | Ordering.eq ↦ err duplicate_cbor_key
  | Ordering.gt ↦ err non_canonical_cbor
  | Ordering.lt ↦ ok tt
]

-- The loop of `Parser::parse_map`.
unfoldable pub parse_entries : Parse → ℕ → Option (List ℕ) → Parser → Result (Entries × Parser)
parse_entries parse zero previous p = ok (no_entries, p)
parse_entries parse (suc count) previous p = do
  (key, p₁) ← parse p
  p₂ ← consume_allocation (p₁.offset - p.offset) p₁
  let key_bytes = take (p₁.offset - p.offset) p.rest
  check_key previous key_bytes
  (v, p₃) ← parse p₂
  (es, p₄) ← parse_entries parse count (some key_bytes) p₃
  ok (one_entry key v es, p₄)

-- `Parser::parse_map`. The reservation is taken to succeed.
unfoldable pub parse_map : Parse → ℕ → Parser → Result (CborValue × Parser)
parse_map parse additional p = do
  (len, p₁) ← read_len additional (p.remaining_items / 2) p
  (entries, p₂) ← parse_entries parse len none p₁
  ok (map entries, p₂)

-- `Parser::parse_simple`
unfoldable pub parse_simple : ℕ → Result CborValue
parse_simple additional =
    if additional == 20
    then ok (bool false)
    else if additional == 21
    then ok (bool true)
    else if additional == 22
    then ok null
    else err non_canonical_cbor

unfoldable pub parse_unsigned : ℕ → Parse
parse_unsigned additional p = do
  (argument, p') ← read_argument additional p
  ok (integer (pos argument), p')

unfoldable pub parse_negative : ℕ → Parse
parse_negative additional p = do
  (argument, p') ← read_argument additional p
  ok (integer (negsuc argument), p')

-- The arms of `Parser::parse_value`; a major type has three bits.
unfoldable pub parse_major : Parse → ℕ → ℕ → Parse
parse_major parse major additional p =
    let simple = do v ← parse_simple additional; ok (v, p)
    in if major == 0
      then parse_unsigned additional p
      else if major == 1
      then parse_negative additional p
      else if major == 2
      then parse_bytes additional p
      else if major == 3
      then parse_text additional p
      else if major == 4
      then parse_array parse additional p
      else if major == 5
      then parse_map parse additional p
      else if major == 6
      then err non_canonical_cbor
      else if major == 7
      then simple
      else panic

-- `Parser::parse_value(depth)`, for `levels = MAX_NESTING_DEPTH + 1 - depth`: a depth above the
-- maximum is `levels = 0`.
unfoldable pub parse_value : ℕ → Parse
parse_value zero p = err resource_limit_exceeded
parse_value (suc levels) p = do
  items ← ok_or (checked_sub p.remaining_items 1) resource_limit_exceeded
  (initial, p₁) ← read_u8 (record p { remaining_items = items })
  parse_major (parse_value levels) (initial / 2 ^ 5) (bit_and initial 0x1f) p₁

abbrev pub max_nesting_depth : ℕ
max_nesting_depth = 64

unfoldable pub validate_deterministic_with_limits : List ℕ → CborLimits → Result CborValue
validate_deterministic_with_limits input limits = do
  (v, p) ← parse_value (max_nesting_depth + 1) (record {
    offset = 0;
    rest = input;
    remaining_allocation = limits.max_allocation;
    remaining_items = limits.max_items;
  })
  reject_if (p.offset != length input) non_canonical_cbor
  ok v

-- `CborLimits::default`
abbrev pub default_cbor_limits : CborLimits
default_cbor_limits = record { max_allocation = 16 * 1024 * 1024; max_items = 1_000_000 }

unfoldable pub validate_deterministic : List ℕ → Result CborValue
validate_deterministic input = validate_deterministic_with_limits input default_cbor_limits
