-- ===== src/Schema/Documents/Budget.antt =====
-- The budget that the writer of a document index of src/schema.rs keeps to.
use mathlib.Core.Path.{subst}
use qzt.Base.{ℕ, ◌≡◌, refl, ap, sym, ◌∙◌, arith, List, [], ◌∷◌, ◌+◌, ◌-◌, ◌≤◌, ltb}
use qzt.Base.{length, u64_max, IsU64, suc, checked_add}
use qzt.Error.{ok, ok_or, reject_if, >>=-eq-ok, ok-injective}
use qzt.Error.{resource_limit_exceeded}
use qzt.Primitives.{usize_to_u64}
use qzt.Limits.{ResourceLimits, cbor_limits}
use qzt.Cbor.{
  CborValue, text, bytes, array, Entries, no_entries, one_entry, Values, no_values, one_value,
}
use qzt.Cbor.{count_values}
use qzt.Cbor.Usage.{
  CborUsage, add_usage, enforce_usage, head_len, one_item, charge_key, measure_value,
  measure_values,
}
use qzt.Cbor.Usage.{measure_entries}
use qzt.Schema.{version_value}
use qzt.Schema.Words
use qzt.Schema.Documents.{
  DocumentEntry, DocumentIndex, document_values, document_entry_value, value_with_documents,
}
use qzt.Schema.Documents.{charge_documents, validate_for_writer}

abbrev sum_usage : CborUsage → CborUsage → CborUsage
sum_usage a b = record {
  items = a.items + b.items;
  allocation = a.allocation + b.allocation;
  encoded_bytes = a.encoded_bytes + b.encoded_bytes;
}

abbrev Fits : CborUsage → Type 0
Fits u = (u.items ≤ u64_max) × (u.allocation ≤ u64_max) × (u.encoded_bytes ≤ u64_max)

abbrev pub WithinBudget : ResourceLimits → CborUsage → Type 0
WithinBudget limits u =
    (u.items ≤ limits.max_cbor_items)
    × (u.allocation ≤ limits.max_cbor_allocation)
    × (u.encoded_bytes ≤ limits.max_index_block_size)

checked_add_inv :
    (a b c : ℕ)
    → ok_or (checked_add a b) resource_limit_exceeded ≡ ok c
    → (c ≡ a + b) × (a + b ≤ u64_max)
checked_add_inv a b c h = ground arith

checked_add_ok :
    (a b : ℕ) → a + b ≤ u64_max → ok_or (checked_add a b) resource_limit_exceeded ≡ ok (a + b)
checked_add_ok a b h = ground arith

add_usage_inv :
    (a b c : CborUsage) → add_usage a b ≡ ok c → (c ≡ sum_usage a b) × Fits (sum_usage a b)
unfolding add_usage
add_usage_inv a b c h =
    let e = resource_limit_exceeded in
    let (i, c₁, h₁) = >>=-eq-ok (ok_or (checked_add a.items b.items) e) _ h in
    let (l, c₂, h₂) = >>=-eq-ok (ok_or (checked_add a.allocation b.allocation) e) _ h₁ in
    let (n, c₃, h₃) = >>=-eq-ok (ok_or (checked_add a.encoded_bytes b.encoded_bytes) e) _ h₂ in
    let (p₁, q₁) = checked_add_inv a.items b.items i c₁ in
    let (p₂, q₂) = checked_add_inv a.allocation b.allocation l c₂ in
    let (p₃, q₃) = checked_add_inv a.encoded_bytes b.encoded_bytes n c₃ in
    (rw (← ok-injective h₃, p₁, p₂, p₃) refl, (q₁, q₂, q₃))

add_usage_ok : (a b : CborUsage) → Fits (sum_usage a b) → add_usage a b ≡ ok (sum_usage a b)
unfolding add_usage
add_usage_ok a b (p, q, r) =
    rw
      (
        checked_add_ok a.items b.items p,
        checked_add_ok a.allocation b.allocation q,
        checked_add_ok a.encoded_bytes b.encoded_bytes r,
      )
      refl

enforce_inv :
    (u : CborUsage) (limits : ResourceLimits)
    → enforce_usage u (cbor_limits limits) limits.max_index_block_size ≡ ok tt
    → WithinBudget limits u
unfolding enforce_usage cbor_limits
enforce_inv u limits h = ground arith

sum_assoc : (a b c : CborUsage) → sum_usage (sum_usage a b) c ≡ sum_usage a (sum_usage b c)
sum_assoc a b c =
    let p : a.items + b.items + c.items ≡ a.items + (b.items + c.items) = omega arith in
    let q : a.allocation + b.allocation + c.allocation
        ≡ a.allocation + (b.allocation + c.allocation) =
      omega arith in
    let r : a.encoded_bytes + b.encoded_bytes + c.encoded_bytes
        ≡ a.encoded_bytes + (b.encoded_bytes + c.encoded_bytes) =
      omega arith in
    rw (p, q, r) refl

Fits-tail : (a b : CborUsage) → Fits (sum_usage a b) → Fits b
Fits-tail a b (p, q, r) = (omega arith, omega arith, omega arith)

no_documents : (u : CborUsage) → measure_values no_values u ≡ ok u
unfolding measure_values
no_documents u = refl

nothing_left : (u : CborUsage) → measure_entries no_entries u ≡ ok u
unfolding measure_entries
nothing_left u = refl

one_more :
    (v : CborValue) (vs : Values) (u cost u' w : CborUsage)
    → measure_value v ≡ ok cost
    → add_usage u cost ≡ ok u'
    → measure_values vs u' ≡ ok w
    → measure_values (one_value v vs) u ≡ ok w
unfolding measure_values
one_more v vs u cost u' w p q r = rw (p, q) r

-- What one document adds to a usage that is `base` above another.
add_above :
    (base start cost usage : CborUsage)
    → add_usage (sum_usage base start) cost ≡ ok usage
    → (usage ≡ sum_usage base (sum_usage start cost)) × Fits (sum_usage base (sum_usage start cost))
add_above base start cost usage h =
    let (same, fits) = add_usage_inv (sum_usage base start) cost usage h in
    let Q : CborUsage → Type 0 = λ u. (usage ≡ u) × Fits u in
    subst Q (sum_assoc base start cost) (same, fits)

-- The loop's count and the count of the parsed array run side by side, `base` apart.
charge_documents_lem :
    (ds : List DocumentEntry) (base start : CborUsage) (limits : ResourceLimits)
    → Fits (sum_usage base start)
    → WithinBudget limits (sum_usage base start)
    → charge_documents ds (sum_usage base start) limits ≡ ok tt
    → (total : CborUsage) × (measure_values (document_values ds) start ≡ ok total)
      × Fits (sum_usage base total)
      × WithinBudget limits (sum_usage base total)
unfolding charge_documents document_values
charge_documents_lem [] base start limits fits within h = (start, no_documents start, fits, within)
charge_documents_lem (d ∷ ds) base start limits fits within h =
    let usage : CborUsage = sum_usage base start in
    let (len, _, h₁) = >>=-eq-ok (usize_to_u64 (length d.doc_id)) _ h in
    let room = ltb (limits.max_cbor_allocation - usage.allocation) len in
    let (_, _, h₂) = >>=-eq-ok (reject_if room resource_limit_exceeded) _ h₁ in
    let (cost, c₃, h₃) = >>=-eq-ok (measure_value (document_entry_value d)) _ h₂ in
    let (usage', c₄, h₄) = >>=-eq-ok (add_usage usage cost) _ h₃ in
    let enforced = enforce_usage usage' (cbor_limits limits) limits.max_index_block_size in
    let (_, c₅, h₅) = >>=-eq-ok enforced _ h₄ in
    let next : CborUsage = sum_usage start cost in
    let (moved, fits') = add_above base start cost usage' c₄ in
    let within' = subst (WithinBudget limits) moved (enforce_inv usage' limits c₅) in
    let h₆ = subst (λ (u : CborUsage). charge_documents ds u limits ≡ ok tt) moved h₅ in
    let (total, counted, last_fits, last_within) =
      charge_documents_lem ds base next limits fits' within' h₆ in
    let added = add_usage_ok start cost (Fits-tail base next fits') in
    (
      total,
      one_more (document_entry_value d) _ start cost next total c₃ added counted,
      last_fits,
      last_within,
    )

-- The entries behind the first one are counted from a usage that does not depend on them.
peel_step :
    (k v : CborValue) (es : Entries) (u key u₁ u₂ cost u₃ : CborUsage)
    → measure_value k ≡ ok key
    → charge_key u key ≡ ok u₁
    → add_usage u₁ key ≡ ok u₂
    → measure_value v ≡ ok cost
    → add_usage u₂ cost ≡ ok u₃
    → measure_entries (one_entry k v es) u ≡ measure_entries es u₃
unfolding measure_entries
peel_step k v es u key u₁ u₂ cost u₃ c₁ c₂ c₃ c₄ c₅ = rw (c₁, c₂, c₃, c₄, c₅) refl

-- The cost of the key of an entry, and of its value.
record EntryCost (k v : CborValue) (u : CborUsage) : Type 0 where
  key : CborUsage
  charged : CborUsage
  before : CborUsage
  cost : CborUsage
  after : CborUsage
  key_cost : measure_value k ≡ ok key
  key_charged : charge_key u key ≡ ok charged
  key_added : add_usage charged key ≡ ok before
  value_cost : measure_value v ≡ ok cost
  value_added : add_usage before cost ≡ ok after

peel_entry :
    (k v : CborValue) (es : Entries) (u w : CborUsage)
    → measure_entries (one_entry k v es) u ≡ ok w
    → (c : EntryCost k v u) × (measure_entries es c.after ≡ ok w)
unfolding measure_entries
peel_entry k v es u w h =
    let (key, c₁, h₁) = >>=-eq-ok (measure_value k) _ h in
    let (u₁, c₂, h₂) = >>=-eq-ok (charge_key u key) _ h₁ in
    let (u₂, c₃, h₃) = >>=-eq-ok (add_usage u₁ key) _ h₂ in
    let (cost, c₄, h₄) = >>=-eq-ok (measure_value v) _ h₃ in
    let (u₃, c₅, h₅) = >>=-eq-ok (add_usage u₂ cost) _ h₄ in
    (
      record {
        key = key;
        charged = u₁;
        before = u₂;
        cost = cost;
        after = u₃;
        key_cost = c₁;
        key_charged = c₂;
        key_added = c₃;
        value_cost = c₄;
        value_added = c₅;
      },
      h₅,
    )

-- The same entries with another one behind them.
module _ {k v : CborValue} {u : CborUsage} (c : EntryCost k v u) where
  peeled : (es : Entries) → measure_entries (one_entry k v es) u ≡ measure_entries es c.after
  peeled es =
      peel_step k v es u c.key c.charged c.before c.cost c.after c.key_cost c.key_charged
        c.key_added c.value_cost c.value_added

  -- Another value of the last entry.
  last_value :
      (v' : CborValue) (cost' w : CborUsage)
      → measure_value v' ≡ ok cost'
      → add_usage c.before cost' ≡ ok w
      → measure_entries (one_entry k v' no_entries) u ≡ ok w
  last_value v' cost' w m a =
      peel_step k v' no_entries u c.key c.charged c.before cost' w c.key_cost c.key_charged
        c.key_added m a
      ∙ nothing_left w

abbrev index_entries : DocumentIndex → Values → Entries
index_entries index documents =
    one_entry (text Words.word_schema) (text Words.schema_document_index) (
      one_entry (text Words.word_format_version) version_value (
        one_entry (text Words.word_container_id) (bytes index.container_id)
          (one_entry (text Words.word_documents) (array documents) no_entries)))

measure_index :
    (index : DocumentIndex) (documents : Values)
    → measure_value (value_with_documents index documents)
      ≡ measure_entries (index_entries index documents) (one_item 0 (head_len 4))
unfolding measure_value value_with_documents usize_to_u64
measure_index index documents = refl

-- The usage before the array of documents, which does not depend on it.
record ArrayPlace (index : DocumentIndex) (w : CborUsage) : Type 0 where
  base : CborUsage
  total : w ≡ sum_usage base (one_item 0 1)
  with_array :
      (documents : Values) (cost v : CborUsage)
      → measure_value (array documents) ≡ ok cost
      → add_usage base cost ≡ ok v
      → measure_value (value_with_documents index documents) ≡ ok v

empty_array : measure_value (array no_values) ≡ ok (one_item 0 1)
unfolding measure_value usize_to_u64 head_len
empty_array = refl

after_last : (u w : CborUsage) → measure_entries no_entries u ≡ ok w → w ≡ u
unfolding measure_entries
after_last u w h = sym (ok-injective h)

array_place :
    (index : DocumentIndex) (w : CborUsage)
    → measure_value (value_with_documents index no_values) ≡ ok w
    → ArrayPlace index w
array_place index w h =
    let (c₁, h₁) = peel_entry _ _ _ _ w (sym (measure_index index no_values) ∙ h) in
    let (c₂, h₂) = peel_entry _ _ _ _ w h₁ in
    let (c₃, h₃) = peel_entry _ _ _ _ w h₂ in
    let (c₄, h₄) = peel_entry _ _ _ _ w h₃ in
    let empty : c₄.cost ≡ one_item 0 1 = ok-injective (sym c₄.value_cost ∙ empty_array) in
    let (sum, _) = add_usage_inv c₄.before c₄.cost c₄.after c₄.value_added in
    record {
      base = c₄.before;
      total = after_last c₄.after w h₄ ∙ sum ∙ ap (sum_usage c₄.before) empty;
      with_array = λ documents cost v m a.
          measure_index index documents
          ∙ peeled c₁ _
          ∙ peeled c₂ _
          ∙ peeled c₃ _
          ∙ last_value c₄ (array documents) cost v m a;
    }

count_document_values : (ds : List DocumentEntry) → count_values (document_values ds) ≡ length ds
unfolding document_values
count_document_values [] = refl
count_document_values (d ∷ ds) = ap suc (count_document_values ds)

measure_array :
    (ds : List DocumentEntry) (count : ℕ) (total : CborUsage)
    → usize_to_u64 (length ds) ≡ ok count
    → measure_values (document_values ds) (one_item 0 (head_len count)) ≡ ok total
    → measure_value (array (document_values ds)) ≡ ok total
unfolding measure_value
measure_array ds count total p q = rw (count_document_values ds, p) q

head_len_pos : (n : ℕ) → 1 ≤ head_len n
unfolding head_len
head_len_pos n = ground arith

head_len_zero : head_len 0 ≡ 1
unfolding head_len
head_len_zero = refl

-- Limits of 64 bits keep a usage within 64 bits.
Fits-within :
    (limits : ResourceLimits) (u : CborUsage)
    → IsU64 limits.max_index_block_size
    → IsU64 limits.max_cbor_items
    → IsU64 limits.max_cbor_allocation
    → WithinBudget limits u
    → Fits u
Fits-within limits u a b c w = (omega arith, omega arith, omega arith)

-- The usage of the empty index with the head of the true count.
recount :
    (base w : CborUsage) (count encoded : ℕ)
    → w ≡ sum_usage base (one_item 0 1)
    → ok_or (checked_add w.encoded_bytes (head_len count - head_len 0)) resource_limit_exceeded
      ≡ ok encoded
    → ◌≡◌ {A = CborUsage}
        (record w { encoded_bytes = encoded })
        (sum_usage base (one_item 0 (head_len count)))
recount base w count encoded same h =
    let (p, _) = checked_add_inv w.encoded_bytes (head_len count - head_len 0) encoded h in
    let size : encoded ≡ base.encoded_bytes + head_len count =
      sizes base.encoded_bytes w.encoded_bytes (head_len count) (head_len 0) encoded
        (ap (λ (u : CborUsage). u.encoded_bytes) same) head_len_zero (head_len_pos count) p in
    rw (same, size) refl
  where
    sizes : (b e n z x : ℕ) → e ≡ b + 1 → z ≡ 1 → 1 ≤ n → x ≡ e + (n - z) → x ≡ b + n
    sizes b e n z x p q r s = omega arith

-- With limits of 64 bits, an index that `validate_for_writer` accepts is measured as a whole without an error, and costs at
-- most the items, the allocation and the encoded bytes that the limits allow.
pub validate_for_writer_lem :
    (index : DocumentIndex) (limits : ResourceLimits)
    → IsU64 limits.max_index_block_size
    → IsU64 limits.max_cbor_items
    → IsU64 limits.max_cbor_allocation
    → validate_for_writer index limits ≡ ok tt
    → (usage : CborUsage) × (measure_value
          (value_with_documents index (document_values index.documents))
        ≡ ok usage)
      × WithinBudget limits usage
unfolding validate_for_writer
validate_for_writer_lem index limits wide_bytes wide_items wide_allocation h =
    let e = resource_limit_exceeded in
    let ds = index.documents in
    let (count, c₁, h₁) = >>=-eq-ok (usize_to_u64 (length ds)) _ h in
    let (_, _, h₂) = >>=-eq-ok (reject_if (ltb limits.max_cbor_items count) e) _ h₁ in
    let (w, c₃, h₃) = >>=-eq-ok (measure_value (value_with_documents index no_values)) _ h₂ in
    let grown = ok_or (checked_add w.encoded_bytes (head_len count - head_len 0)) e in
    let (encoded, c₄, h₄) = >>=-eq-ok grown _ h₃ in
    let usage' : CborUsage = record w { encoded_bytes = encoded } in
    let enforced = enforce_usage usage' (cbor_limits limits) limits.max_index_block_size in
    let (_, c₅, h₅) = >>=-eq-ok enforced _ h₄ in
    let place = array_place index w c₃ in
    let moved = recount place.base w count encoded place.total c₄ in
    let within = subst (WithinBudget limits) moved (enforce_inv usage' limits c₅) in
    let run = subst (λ (u : CborUsage). charge_documents ds u limits ≡ ok tt) moved h₅ in
    let start : CborUsage = one_item 0 (head_len count) in
    let fits =
      Fits-within limits (sum_usage place.base start) wide_bytes wide_items wide_allocation
        within in
    let (total, counted, last_fits, last_within) =
      charge_documents_lem ds place.base start limits fits within run in
    let measured = measure_array ds count total c₁ counted in
    let added = add_usage_ok place.base total last_fits in
    (
      sum_usage place.base total,
      place.with_array (document_values ds) total (sum_usage place.base total) measured added,
      last_within,
    )
