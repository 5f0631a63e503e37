-- ===== src/Cbor/Closed.antt =====
-- The check of a map against a closed schema, src/cbor.rs.
use qzt.Base.{
  ℕ, ◌≡◌, refl, ap, ◌∙◌, sym, ◌⊎◌, ◌↔◌, inl, inr, List, [], ◌∷◌, Bool, true, false, Bool-cases,
}
use qzt.Base.{◌||◌, ◌&&◌, not, not_inv, All, bytes_eq, bytes_eq→eq, bytes_eq_refl}
use qzt.Error.{ok, reject_if, reject_if_inv, >>=-eq-ok, ok-injective, metadata_invalid}
use qzt.Limits.{CborLimits}
use qzt.Cbor.{
  CborValue, integer, bytes, text, array, map, bool, null, Entries, no_entries, one_entry,
}
use qzt.Cbor.Parser.{validate_deterministic_with_limits}
use qzt.Cbor.Schema.{
  TextKeySchema, is_text, has_key, contains, check_required, check_known, check_keys,
}
use qzt.Cbor.Schema.{check_schema, validate_text_key_schema_with_limits}

abbrev pub In : List ℕ → List (List ℕ) → Type 0
In key [] = ⊥
In key (k ∷ ks) = (k ≡ key) ⊎ In key ks

abbrev pub HasKey : Entries → List ℕ → Type 0
HasKey no_entries key = ⊥
HasKey (one_entry k v es) key = (k ≡ text key) ⊎ HasKey es key

-- The schema names the key, or allows keys that it does not name.
abbrev pub Allows : TextKeySchema → List ℕ → Type 0
Allows schema key =
    In key schema.required ⊎ (In key schema.optional ⊎ (schema.allow_unknown ≡ true))

-- A text that the schema allows.
abbrev pub IsKnown : TextKeySchema → CborValue → Type 0
IsKnown schema (text key) = Allows schema key
IsKnown schema _ = ⊥

abbrev pub AllKeys : (CborValue → Type 0) → Entries → Type 0
AllKeys P no_entries = Unit
AllKeys P (one_entry k v es) = P k × AllKeys P es

-- A map with every required key, and with known keys only.
abbrev pub Satisfies : TextKeySchema → CborValue → Type 0
Satisfies schema (map fields) =
    All (HasKey fields) schema.required × AllKeys (IsKnown schema) fields
Satisfies schema _ = ⊥

pub contains_iff : (keys : List (List ℕ)) (key : List ℕ) → (contains keys key ≡ true) ↔ In key keys
unfolding contains
contains_iff [] key = (λ h. cc, λ h. absurd h)
contains_iff (k ∷ ks) key = elim (Bool-cases (bytes_eq k key)) [
  | inl e ↦ rw e (λ h. inl (bytes_eq→eq k key e), λ h. refl)
  | inr e ↦ rw e (
    λ h. inr ((contains_iff ks key).0 h),
    λ h. elim h [
      | inl same ↦ absurd (clash (sym (bytes_eq_refl key) ∙ rw same at e))
      | inr later ↦ (contains_iff ks key).1 later
    ],
  )
]
  where
    clash : true ≡ false → ⊥
    clash q = cc

pub is_text_iff : (v : CborValue) (key : List ℕ) → (is_text v key ≡ true) ↔ (v ≡ text key)
unfolding is_text
is_text_iff (text payload) key =
    (λ h. ap text (bytes_eq→eq payload key h), λ h. rw (text-injective h) (bytes_eq_refl key))
  where
    text-injective : {xs ys : List ℕ} → text xs ≡ text ys → xs ≡ ys
    text-injective h = cc
is_text_iff (integer i) key = (λ h. cc, λ h. cc)
is_text_iff (bytes payload) key = (λ h. cc, λ h. cc)
is_text_iff (array vs) key = (λ h. cc, λ h. cc)
is_text_iff (map es) key = (λ h. cc, λ h. cc)
is_text_iff (bool b) key = (λ h. cc, λ h. cc)
is_text_iff null key = (λ h. cc, λ h. cc)

pub has_key_iff : (es : Entries) (key : List ℕ) → (has_key es key ≡ true) ↔ HasKey es key
unfolding has_key
has_key_iff no_entries key = (λ h. cc, λ h. absurd h)
has_key_iff (one_entry k v es) key = elim (Bool-cases (is_text k key)) [
  | inl e ↦ rw e (λ h. inl ((is_text_iff k key).0 e), λ h. refl)
  | inr e ↦ rw e (
    λ h. inr ((has_key_iff es key).0 h),
    λ h. elim h [
      | inl same ↦ absurd (clash (sym ((is_text_iff k key).1 same) ∙ e))
      | inr later ↦ (has_key_iff es key).1 later
    ],
  )
]
  where
    clash : true ≡ false → ⊥
    clash q = cc

check_required_iff :
    (keys : List (List ℕ)) (fields : Entries)
    → (check_required keys fields ≡ ok tt) ↔ All (HasKey fields) keys
unfolding check_required
check_required_iff [] fields = (λ h. tt, λ h. refl)
check_required_iff (key ∷ keys) fields = (
  λ h.
      let (_, c₁, h₁) = >>=-eq-ok (reject_if (not (has_key fields key)) metadata_invalid) _ h in
      let present = not_inv (has_key fields key) (reject_if_inv _ _ c₁) in
      ((has_key_iff fields key).0 present, (check_required_iff keys fields).0 h₁),
  λ (present, others).
      rw ((has_key_iff fields key).1 present) ((check_required_iff keys fields).1 others),
)

one_of_three :
    (a b c : Bool) → ((not (a || b) && not c) ≡ false) ↔ ((a ≡ true) ⊎ ((b ≡ true) ⊎ (c ≡ true)))
one_of_three true b c = (λ h. inl refl, λ h. refl)
one_of_three false true c = (λ h. inr (inl refl), λ h. refl)
one_of_three false false true = (λ h. inr (inr refl), λ h. refl)
one_of_three false false false =
    (λ h. cc, λ h. elim h [ inl q ↦ cc | inr r ↦ elim r [ inl q ↦ cc | inr q ↦ cc ] ])

check_known_iff :
    (schema : TextKeySchema) (k : CborValue) → (check_known schema k ≡ ok tt) ↔ IsKnown schema k
unfolding check_known
check_known_iff schema (text key) = (forth, back)
  where
    required : Bool
    required = contains schema.required key

    optional : Bool
    optional = contains schema.optional key

    forth :
        reject_if (not (required || optional) && not schema.allow_unknown) metadata_invalid ≡ ok tt
        → Allows schema key
    forth h = elim ((one_of_three required optional schema.allow_unknown).0 (reject_if_inv _ _ h)) [
      | inl e ↦ inl ((contains_iff schema.required key).0 e)
      | inr (inl e) ↦ inr (inl ((contains_iff schema.optional key).0 e))
      | inr (inr e) ↦ inr (inr e)
    ]

    tests :
        Allows schema key → (required ≡ true) ⊎ ((optional ≡ true) ⊎ (schema.allow_unknown ≡ true))
    tests (inl e) = inl ((contains_iff schema.required key).1 e)
    tests (inr (inl e)) = inr (inl ((contains_iff schema.optional key).1 e))
    tests (inr (inr e)) = inr (inr e)

    back :
        Allows schema key
        → reject_if (not (required || optional) && not schema.allow_unknown) metadata_invalid
          ≡ ok tt
    back h = rw ((one_of_three required optional schema.allow_unknown).1 (tests h)) refl
check_known_iff schema (integer i) = (λ h. cc, λ h. absurd h)
check_known_iff schema (bytes payload) = (λ h. cc, λ h. absurd h)
check_known_iff schema (array vs) = (λ h. cc, λ h. absurd h)
check_known_iff schema (map es) = (λ h. cc, λ h. absurd h)
check_known_iff schema (bool b) = (λ h. cc, λ h. absurd h)
check_known_iff schema null = (λ h. cc, λ h. absurd h)

check_keys_iff :
    (schema : TextKeySchema) (fields : Entries)
    → (check_keys schema fields ≡ ok tt) ↔ AllKeys (IsKnown schema) fields
unfolding check_keys
check_keys_iff schema no_entries = (λ h. tt, λ h. refl)
check_keys_iff schema (one_entry k v es) = (
  λ h.
      let (_, c₁, h₁) = >>=-eq-ok (check_known schema k) _ h in
      ((check_known_iff schema k).0 c₁, (check_keys_iff schema es).0 h₁),
  λ (known, others). rw ((check_known_iff schema k).1 known) ((check_keys_iff schema es).1 others),
)

-- The check returns the very value.
check_schema_iff :
    (schema : TextKeySchema) (v w : CborValue)
    → (check_schema schema v ≡ ok w) ↔ ((v ≡ w) × Satisfies schema v)
unfolding check_schema
check_schema_iff schema (map fields) w = (
  λ h.
      let (_, c₁, h₁) = >>=-eq-ok (check_required schema.required fields) _ h in
      let (_, c₂, h₂) = >>=-eq-ok (check_keys schema fields) _ h₁ in
      (
        ok-injective h₂,
        ((check_required_iff schema.required fields).0 c₁, (check_keys_iff schema fields).0 c₂),
      ),
  λ (same, (present, known)).
      rw
        (
          (check_required_iff schema.required fields).1 present,
          (check_keys_iff schema fields).1 known,
        )
        (ap ok same),
)
check_schema_iff schema (integer i) w = (λ h. cc, λ h. absurd h.1)
check_schema_iff schema (bytes payload) w = (λ h. cc, λ h. absurd h.1)
check_schema_iff schema (text payload) w = (λ h. cc, λ h. absurd h.1)
check_schema_iff schema (array vs) w = (λ h. cc, λ h. absurd h.1)
check_schema_iff schema (bool b) w = (λ h. cc, λ h. absurd h.1)
check_schema_iff schema null w = (λ h. cc, λ h. absurd h.1)

-- `validate_text_key_schema_with_limits` returns a value exactly when the input is accepted as that
-- value, it is a map, every required key is one of its keys, and each of its keys is a text that the
-- schema requires, names as optional, or does not need to know.
pub validate_text_key_schema_iff :
    (input : List ℕ) (schema : TextKeySchema) (limits : CborLimits) (v : CborValue)
    → (validate_text_key_schema_with_limits input schema limits ≡ ok v)
      ↔ ((validate_deterministic_with_limits input limits ≡ ok v) × Satisfies schema v)
unfolding validate_text_key_schema_with_limits
validate_text_key_schema_iff input schema limits v = (
  λ h.
      let (w, c, h₁) = >>=-eq-ok (validate_deterministic_with_limits input limits) _ h in
      let (same, fits) = (check_schema_iff schema w v).0 h₁ in rw (← same) (c, fits),
  λ (parsed, fits). rw parsed ((check_schema_iff schema v v).1 (refl, fits)),
)
