-- ===== src/Schema/Footer.antt =====
-- src/schema.rs: `FooterPayload`, its encoder and its decoder.
use qzt.Base.{ℕ, List, [], ◌∷◌, Option, none, some, ◌!=◌}
use qzt.Error.{Result, ok, reject_if, ◌>>=◌, ◌>>◌, invalid_footer_payload, invalid_flags}
use qzt.Cbor.{text, bytes, map, Entries, no_entries, one_entry, encode_deterministic}
use qzt.Schema.{Checksum, BlockRef, checksum_value, u64_value, version_value, block_ref_value}
use qzt.Schema.{required_u64, required_bstr, required_block_ref, optional_checksum, decode_prologue}
use qzt.Schema.Words.{
  word_schema, word_format_version, word_container_id, word_index_root, word_metadata,
}
use qzt.Schema.Words.{word_final_file_size, word_footer_flags, word_created_at_unix_ms, word_writer}
use qzt.Schema.Words.{word_container_checksum, schema_footer}

pub record FooterPayload : Type 0 where
  pub container_id : List ℕ
  pub index_root : BlockRef
  pub metadata : BlockRef
  pub final_file_size : ℕ
  pub footer_flags : ℕ
  pub container_checksum : Option Checksum

-- The entry that is pushed when there is a checksum of the container.
unfoldable pub checksum_entry : Option Checksum → Entries
checksum_entry none = no_entries
checksum_entry (some checksum) =
    one_entry (text word_container_checksum) (checksum_value checksum) no_entries

-- `FooterPayload::encode`
unfoldable pub encode : FooterPayload → Result (List ℕ)
unfolding checksum_entry
encode payload = encode_deterministic (
    map (
      one_entry (text word_schema) (text schema_footer) (
        one_entry (text word_format_version) version_value (
          one_entry (text word_container_id) (bytes payload.container_id) (
            one_entry (text word_index_root) (block_ref_value payload.index_root) (
              one_entry (text word_metadata) (block_ref_value payload.metadata) (
                one_entry (text word_final_file_size) (u64_value payload.final_file_size) (
                  one_entry (text word_footer_flags) (u64_value payload.footer_flags)
                    (checksum_entry payload.container_checksum)))))))))

abbrev pub footer_keys : List (List ℕ)
footer_keys =
    word_schema ∷ word_format_version ∷ word_container_id ∷ word_index_root ∷ word_metadata
    ∷ word_final_file_size ∷ word_footer_flags ∷ word_created_at_unix_ms ∷ word_writer
    ∷ word_container_checksum ∷ []

-- The part of `FooterPayload::decode` behind the prologue.
unfoldable pub decode_fields : Entries → Result FooterPayload
decode_fields fields = do
  footer_flags ← required_u64 fields word_footer_flags invalid_footer_payload
  reject_if (footer_flags != 0) invalid_flags
  container_id ← required_bstr 16 fields word_container_id invalid_footer_payload
  index_root ← required_block_ref fields word_index_root invalid_footer_payload
  metadata ← required_block_ref fields word_metadata invalid_footer_payload
  final_file_size ← required_u64 fields word_final_file_size invalid_footer_payload
  checksum ← optional_checksum fields word_container_checksum invalid_footer_payload
  ok (record {
    container_id = container_id;
    index_root = index_root;
    metadata = metadata;
    final_file_size = final_file_size;
    footer_flags = footer_flags;
    container_checksum = checksum;
  })

-- `FooterPayload::decode`
unfoldable pub decode : List ℕ → Result FooterPayload
decode input = do
  fields ← decode_prologue input footer_keys schema_footer invalid_footer_payload
  decode_fields fields
