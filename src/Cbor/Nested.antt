-- ===== src/Cbor/Nested.antt =====
-- Arrays and maps, src/cbor.rs: the parser against the encoder, given the same for what is inside.
use qzt.Base.{ℕ, zero, suc, ◌-◌, ◌/◌, ◌%◌, ◌<◌, ◌≡◌, refl, ap, ◌∙◌, sym, arith}
use qzt.Base.{List, [], ◌∷◌, ◌++◌, append_assoc, append-nil}
use qzt.Base.{Option, none, some, take}
use qzt.Base.{take-append, All, IsByte}
use qzt.Error.{ok, ok-pair, >>=-eq-ok}
use qzt.Primitives.{usize_to_u64_lem}
use qzt.Cbor.{CborValue, Values, Entries, one_entry}
use qzt.Cbor.{count_values, count_entries, Pair, head_bytes, encode_type_and_argument}
use qzt.Cbor.{encode_value, encode_values, encode_entries}
use qzt.Cbor.Parser.{Parser, Parse, read_len, consume_allocation}
use qzt.Cbor.Parser.{parse_values, parse_array, parse_entries}
use qzt.Cbor.Parser.{check_key, parse_map}
use qzt.Cbor.Reads.{Took, Took-nothing, Took-trans, Took-IsByte}
use qzt.Cbor.Reads.{consume_allocation-Took}
use qzt.Cbor.Maps.{Ascends, flatten, sort_pairs_same, has_duplicate-false}
use qzt.Cbor.Maps.{extend_pairs-flatten, check_key-Ascends}
use qzt.Cbor.Items.{IsSound, ReadsItem, read_len-ReadsHead}

module _ (b : ℕ) (byte : b < 256) where
  module _ (parse : Parse) (sound : IsSound parse) where
    values_sound :
        (count : ℕ) (p : Parser) (vs : Values) (q : Parser)
        → All IsByte p.rest
        → parse_values parse count p ≡ ok (vs, q)
        → (taken : List ℕ) × Took p taken q
          × (count_values vs ≡ count)
          × ((out : List ℕ) → encode_values vs out ≡ ok (out ++ taken))
    unfolding parse_values encode_value
    values_sound zero p vs q bs h =
        let (same, at) = ok-pair h in
        rw (← same, ← at) ([], Took-nothing p, refl, λ out. ap ok (sym (append-nil out)))
    values_sound (suc count) p vs q bs h =
        let ((v, p₁), c₁, h₁) = >>=-eq-ok (parse p) _ h in
        let ((more, p₂), c₂, h₂) = >>=-eq-ok (parse_values parse count p₁) _ h₁ in
        let (first, took₁, writes₁) = sound p v p₁ bs c₁ in
        let (_, bs₁) = Took-IsByte took₁ bs in
        let (others, took₂, size, writes₂) = values_sound count p₁ more p₂ bs₁ c₂ in
        let (same, at) = ok-pair h₂ in
        rw (← same, ← at)
          (
            first ++ others,
            Took-trans took₁ took₂,
            ap suc size,
            λ out. rw (writes₁ out, writes₂ (out ++ first)) (ap ok (append_assoc out first others)),
          )

    pub array_item :
        (p : Parser) (v : CborValue) (q : Parser)
        → All IsByte p.rest
        → (b / 32 ≡ 4) × (parse_array parse (b % 32) p ≡ ok (v, q))
        → ReadsItem b p v q
    unfolding parse_array encode_value encode_type_and_argument
    array_item p v q bs (major, h) =
        let ((len, p₁), c₁, h₁) = >>=-eq-ok (read_len (b % 32) p.remaining_items p) _ h in
        let ((vs, p₂), c₂, h₂) = >>=-eq-ok (parse_values parse len p₁) _ h₁ in
        let (tail, took₁, head, fits) =
          read_len-ReadsHead b byte p.remaining_items p len p₁ bs c₁ in
        let (_, bs₁) = Took-IsByte took₁ bs in
        let (taken, took₂, size, writes) = values_sound len p₁ vs p₂ bs₁ c₂ in
        let (same, at) = ok-pair h₂ in
        rw (← same, ← at)
          (
            tail ++ taken,
            Took-trans took₁ took₂,
            λ out.
                rw (size, usize_to_u64_lem len fits, writes (out ++ head_bytes 4 len))
                  (ap ok (append_assoc out (head_bytes 4 len) taken ∙ rw (← major, head) refl)),
          )

    -- One round of the loop over the entries, taken apart.
    record EntryRound (count : ℕ) (previous : Option (List ℕ)) (p : Parser) (es : Entries)
        (q : Parser) : Type 0 where
      key : CborValue
      value : CborValue
      more : Entries
      p₁ : Parser
      p₂ : Parser
      p₃ : Parser
      read_key : parse p ≡ ok (key, p₁)
      charged : consume_allocation (p₁.offset - p.offset) p₁ ≡ ok p₂
      checked : check_key previous (take (p₁.offset - p.offset) p.rest) ≡ ok tt
      read_value : parse p₂ ≡ ok (value, p₃)
      others :
          parse_entries parse count (some (take (p₁.offset - p.offset) p.rest)) p₃ ≡ ok (more, q)
      whole : one_entry key value more ≡ es

    parse_entries-EntryRound :
        (count : ℕ) (previous : Option (List ℕ)) (p : Parser) (es : Entries) (q : Parser)
        → parse_entries parse (suc count) previous p ≡ ok (es, q)
        → EntryRound count previous p es q
    unfolding parse_entries
    parse_entries-EntryRound count previous p es q h =
        let ((k, p₁), c₁, h₁) = >>=-eq-ok (parse p) _ h in
        let (p₂, c₂, h₂) = >>=-eq-ok (consume_allocation (p₁.offset - p.offset) p₁) _ h₁ in
        let key_bytes = take (p₁.offset - p.offset) p.rest in
        let (_, c₃, h₃) = >>=-eq-ok (check_key previous key_bytes) _ h₂ in
        let ((v, p₃), c₄, h₄) = >>=-eq-ok (parse p₂) _ h₃ in
        let ((more, p₄), c₅, h₅) = >>=-eq-ok (parse_entries parse count (some key_bytes) p₃) _ h₄ in
        let (same, at) = ok-pair h₅ in
        record {
          key = k;
          value = v;
          more = more;
          p₁ = p₁;
          p₂ = p₂;
          p₃ = p₃;
          read_key = c₁;
          charged = c₂;
          checked = c₃;
          read_value = c₄;
          others = c₅ ∙ ap (λ r. ok (more, r)) at;
          whole = same;
        }

    entries_sound :
        (count : ℕ) (previous : Option (List ℕ)) (p : Parser) (es : Entries) (q : Parser)
        → All IsByte p.rest
        → parse_entries parse count previous p ≡ ok (es, q)
        → (pairs : List Pair) × Took p (flatten pairs) q
          × (count_entries es ≡ count)
          × (encode_entries es ≡ ok pairs)
          × Ascends previous pairs
    unfolding parse_entries encode_value
    entries_sound zero previous p es q bs h =
        let (same, at) = ok-pair h in rw (← same, ← at) ([], Took-nothing p, refl, refl, tt)
    entries_sound (suc count) previous p es q bs h =
        let r = parse_entries-EntryRound count previous p es q h in
        let key_bytes = take (r.p₁.offset - p.offset) p.rest in
        let (key, took₁, writes₁) = sound p r.key r.p₁ bs r.read_key in
        let (_, bs₁) = Took-IsByte took₁ bs in
        let its_key : key_bytes ≡ key = key_taken p r.p₁ key took₁ in
        let skip =
          consume_allocation-Took (r.p₁.offset - p.offset) r.p₁ r.p₂ r.p₂ [] r.charged
            (Took-nothing r.p₂) in
        let (_, bs₂) = Took-IsByte skip bs₁ in
        let (value, took₂, writes₂) = sound r.p₂ r.value r.p₃ bs₂ r.read_value in
        let (_, bs₃) = Took-IsByte took₂ bs₂ in
        let (pairs, took₃, size, encoded, up) =
          entries_sound count (some key_bytes) r.p₃ r.more q bs₃ r.others in
        rw (← r.whole) (
          (key, value) ∷ pairs,
          Took-trans took₁ (Took-trans skip (Took-trans took₂ took₃)),
          ap suc size,
          rw (writes₁ [], writes₂ [], encoded) refl,
          check_key-Ascends previous key value pairs (rw its_key at r.checked) (rw its_key at up),
        )
      where
        key_taken :
            (p p₁ : Parser) (key : List ℕ)
            → Took p key p₁
            → take (p₁.offset - p.offset) p.rest ≡ key
        key_taken p p₁ key t =
            rw t.split (take-append (p₁.offset - p.offset) key p₁.rest (omega (arith, t.moved)))

    pub map_item :
        (p : Parser) (v : CborValue) (q : Parser)
        → All IsByte p.rest
        → (b / 32 ≡ 5) × (parse_map parse (b % 32) p ≡ ok (v, q))
        → ReadsItem b p v q
    unfolding parse_map encode_value encode_type_and_argument
    map_item p v q bs (major, h) =
        let ((len, p₁), c₁, h₁) = >>=-eq-ok (read_len (b % 32) (p.remaining_items / 2) p) _ h in
        let ((es, p₂), c₂, h₂) = >>=-eq-ok (parse_entries parse len none p₁) _ h₁ in
        let (tail, took₁, head, fits) =
          read_len-ReadsHead b byte (p.remaining_items / 2) p len p₁ bs c₁ in
        let (_, bs₁) = Took-IsByte took₁ bs in
        let (pairs, took₂, size, encoded, up) = entries_sound len none p₁ es p₂ bs₁ c₂ in
        let (same, at) = ok-pair h₂ in
        rw (← same, ← at)
          (
            tail ++ flatten pairs,
            Took-trans took₁ took₂,
            λ out.
                rw
                  (
                    size,
                    usize_to_u64_lem len fits,
                    encoded,
                    sort_pairs_same pairs up,
                    has_duplicate-false pairs up,
                    extend_pairs-flatten pairs (out ++ head_bytes 5 len),
                  )
                  (ap ok (
                    append_assoc out (head_bytes 5 len) (flatten pairs) ∙ rw (← major, head) refl)),
          )
