-- ===== src/Skeleton/Checks.antt =====
-- The checks between the parts of a container, src/skeleton.rs and src/schema.rs.
use qzt.Base.{ℕ, ◌≡◌, arith, List, [], ◌∷◌, Bool, true, false, ◌⊎◌, inl, inr}
use qzt.Base.{◌||◌, ◌≤◌, All, Bool-cases, not, not_inv}
use qzt.Base.{bytes_eq, bytes_eq→eq, ◌==◌, ==_iff, ltb, ◌!=◌}
use qzt.Error.{ok, reject_if, reject_if_inv, >>=-eq-ok}
use qzt.Error.{metadata_invalid, container_id_mismatch}
use qzt.Error.{missing_dictionary, resource_limit_exceeded}
use qzt.Limits.{ResourceLimits, enforce_chunk_sizes}
use qzt.ChunkTable.{ChunkEntry}
use qzt.Schema.Metadata.{Metadata}
use qzt.Schema.IndexRoot.{IndexRoot, checksum_eq, validate_source_consistency}
use qzt.Schema.Dictionary.{DictionaryEntry}
use qzt.Schema.Dictionary.Accepted.{checksum_eq→eq}
use qzt.Skeleton.Blocks.{has_dictionary, validate_required_dictionaries}
use qzt.Skeleton.Open.{enforce_entries}

abbrev pub HasDictionary : List DictionaryEntry → ℕ → Type 0
HasDictionary [] id = ⊥
HasDictionary (d ∷ ds) id = (d.dictionary_id ≡ id) ⊎ HasDictionary ds id

has_dictionary_inv :
    (ds : List DictionaryEntry) (id : ℕ) → has_dictionary ds id ≡ true → HasDictionary ds id
unfolding has_dictionary
has_dictionary_inv [] id h = cc
has_dictionary_inv (d ∷ ds) id h = elim (Bool-cases (d.dictionary_id == id)) [
  | inl same ↦ inl ((==_iff d.dictionary_id id).0 same)
  | inr other ↦ inr (has_dictionary_inv ds id (rw other at h))
]

-- A chunk without a dictionary, or with one that is there.
abbrev pub Decodable : List DictionaryEntry → ChunkEntry → Type 0
Decodable ds e = (e.dictionary_id ≡ 0) ⊎ HasDictionary ds e.dictionary_id

pub validate_required_dictionaries-Decodable :
    (entries : List ChunkEntry) (ds : List DictionaryEntry)
    → validate_required_dictionaries entries ds ≡ ok tt
    → All (Decodable ds) entries
unfolding validate_required_dictionaries
validate_required_dictionaries-Decodable [] ds h = tt
validate_required_dictionaries-Decodable (e ∷ es) ds h =
    let test = e.dictionary_id == 0 || has_dictionary ds e.dictionary_id in
    let (_, c₁, h₁) = >>=-eq-ok (reject_if (not test) missing_dictionary) _ h in
    let passed = not_inv test (reject_if_inv (not test) missing_dictionary c₁) in
    (decodable e passed, validate_required_dictionaries-Decodable es ds h₁)
  where
    decodable :
        (c : ChunkEntry)
        → (c.dictionary_id == 0 || has_dictionary ds c.dictionary_id) ≡ true
        → Decodable ds c
    decodable c k = elim (Bool-cases (c.dictionary_id == 0)) [
      | inl plain ↦ inl ((==_iff c.dictionary_id 0).0 plain)
      | inr used ↦ inr (has_dictionary_inv ds c.dictionary_id (rw used at k))
    ]

pub record Within (limits : ResourceLimits) (e : ChunkEntry) : Type 0 where
  pub compressed_within : e.compressed_size ≤ limits.max_compressed_chunk_size
  pub uncompressed_within : e.uncompressed_size ≤ limits.max_uncompressed_chunk_size

pub enforce_entries-Within :
    (limits : ResourceLimits) (es : List ChunkEntry)
    → enforce_entries limits es ≡ ok tt
    → All (Within limits) es
unfolding enforce_entries
enforce_entries-Within limits [] h = tt
enforce_entries-Within limits (e ∷ es) h =
    let size = enforce_chunk_sizes limits e.compressed_size e.uncompressed_size in
    let (_, c₁, h₁) = >>=-eq-ok size _ h in (one e c₁, enforce_entries-Within limits es h₁)
  where
    unfold_sizes :
        (compressed uncompressed a b : ℕ)
        → (ltb a compressed || ltb b uncompressed) ≡ false
        → (compressed ≤ a) × (uncompressed ≤ b)
    unfold_sizes compressed uncompressed a b k = ground arith

    one :
        (c : ChunkEntry)
        → enforce_chunk_sizes limits c.compressed_size c.uncompressed_size ≡ ok tt
        → Within limits c
    one c k =
        let (p, q) =
          unfold_sizes c.compressed_size c.uncompressed_size limits.max_compressed_chunk_size
            limits.max_uncompressed_chunk_size
            (reject_if_inv _ resource_limit_exceeded (unfold enforce_chunk_sizes in k)) in
        record { compressed_within = p; uncompressed_within = q }

-- The same source in the metadata and in the index root.
pub record SameSource (m : Metadata) (r : IndexRoot) : Type 0 where
  pub same_id : m.container_id ≡ r.container_id
  pub same_size : m.original_size ≡ r.original_size
  pub same_lines : m.line_count ≡ r.line_count
  pub same_checksum : m.original_checksum ≡ r.original_checksum

consistent_parts :
    (a b c d : ℕ) (same : Bool)
    → (a != b || not same || c != d) ≡ false
    → (a ≡ b) × (same ≡ true) × (c ≡ d)
consistent_parts a b c d true h = ground arith
consistent_parts a b c d false h = ground arith

pub validate_source_consistency-SameSource :
    (m : Metadata) (r : IndexRoot) → validate_source_consistency m r ≡ ok tt → SameSource m r
unfolding validate_source_consistency
validate_source_consistency-SameSource m r h =
    let ids = not (bytes_eq m.container_id r.container_id) in
    let (_, c₁, h₁) = >>=-eq-ok (reject_if ids container_id_mismatch) _ h in
    let (p, q, s) =
      consistent_parts m.original_size r.original_size m.line_count r.line_count
        (checksum_eq m.original_checksum r.original_checksum)
        (reject_if_inv _ metadata_invalid h₁) in
    let same = not_inv _ (reject_if_inv ids container_id_mismatch c₁) in
    record {
      same_id = bytes_eq→eq m.container_id r.container_id same;
      same_size = p;
      same_lines = s;
      same_checksum = checksum_eq→eq m.original_checksum r.original_checksum q;
    }
