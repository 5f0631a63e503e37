-- ===== src/Cbor/Usage.antt =====
-- src/cbor.rs: what a value costs a parser, counted before it is encoded.
use qzt.Base.{ℕ, List, ◌||◌, ltb, leb, if◌then◌else◌, length, checked_add}
use qzt.Error.{Result, ok, ok_or, reject_if, ◌>>=◌, resource_limit_exceeded}
use qzt.Primitives.{usize_to_u64}
use qzt.Limits.{CborLimits}
use qzt.Cbor.{CborValue, integer, bytes, text, array, map, bool, null, Values, no_values, one_value}
use qzt.Cbor.{Entries, no_entries, one_entry, count_values, count_entries, integer_argument}

pub record CborUsage : Type 0 where
  pub items : ℕ
  pub allocation : ℕ
  pub encoded_bytes : ℕ

-- `CborUsage::add`
unfoldable pub add_usage : CborUsage → CborUsage → Result CborUsage
add_usage usage other = do
  items ← ok_or (checked_add usage.items other.items) resource_limit_exceeded
  allocation ← ok_or (checked_add usage.allocation other.allocation) resource_limit_exceeded
  encoded ← ok_or (checked_add usage.encoded_bytes other.encoded_bytes) resource_limit_exceeded
  ok (record { items = items; allocation = allocation; encoded_bytes = encoded })

-- `CborUsage::enforce`
unfoldable pub enforce_usage : CborUsage → CborLimits → ℕ → Result (Unit {0})
enforce_usage usage limits max_block_bytes =
    reject_if
      (ltb limits.max_items usage.items
        || ltb limits.max_allocation usage.allocation
        || ltb max_block_bytes usage.encoded_bytes)
      resource_limit_exceeded

unfoldable pub head_len : ℕ → ℕ
head_len value =
    if leb value 23
    then 1
    else if leb value 0xff
    then 2
    else if leb value 0xffff
    then 3
    else if leb value 0xffff_ffff
    then 5
    else 9

abbrev pub one_item : ℕ → ℕ → CborUsage
one_item allocation encoded = record { items = 1; allocation = allocation; encoded_bytes = encoded }

unfoldable pub measure_payload : List ℕ → Result CborUsage
measure_payload payload = do
  len ← usize_to_u64 (length payload)
  encoded ← ok_or (checked_add (head_len len) len) resource_limit_exceeded
  ok (one_item len encoded)

-- `usage.allocation` grows by the encoded key.
unfoldable pub charge_key : CborUsage → CborUsage → Result CborUsage
charge_key usage key_usage = do
  allocation ← ok_or (checked_add usage.allocation key_usage.encoded_bytes) resource_limit_exceeded
  ok (record usage { allocation = allocation })

unfoldable mutual
  unfolding integer_argument measure_payload

  pub measure_value : CborValue → Result CborUsage
  measure_value (integer i) = do
    (major, argument) ← integer_argument i
    ok (one_item 0 (head_len argument))
  measure_value (bytes payload) = measure_payload payload
  measure_value (text payload) = measure_payload payload
  measure_value (array values) = do
    len ← usize_to_u64 (count_values values)
    measure_values values (one_item 0 (head_len len))
  measure_value (map entries) = do
    len ← usize_to_u64 (count_entries entries)
    measure_entries entries (one_item 0 (head_len len))
  measure_value (bool b) = ok (one_item 0 1)
  measure_value null = ok (one_item 0 1)

  pub measure_values : Values → CborUsage → Result CborUsage
  measure_values no_values usage = ok usage
  measure_values (one_value v vs) usage = do
    child ← measure_value v
    usage' ← add_usage usage child
    measure_values vs usage'

  pub measure_entries : Entries → CborUsage → Result CborUsage
  measure_entries no_entries usage = ok usage
  measure_entries (one_entry k v es) usage = do
    key_usage ← measure_value k
    usage₁ ← charge_key usage key_usage
    usage₂ ← add_usage usage₁ key_usage
    value_usage ← measure_value v
    usage₃ ← add_usage usage₂ value_usage
    measure_entries es usage₃
