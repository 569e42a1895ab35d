-- ===== src/Storage/Chunks.antt =====
-- How pkg/storage/chunked.go cuts an encoded release into chunks, and the secrets that it makes.
pub mod Cutting
use helm_operator_plugins.Storage.{Bytes, Secret, wrap_release, Codec, ChunkedSecrets}
use helm_operator_plugins.Storage.Hash.{hash_for_data}
use helm_operator_plugins.Storage.Labels.{new_index_labels, new_chunk_labels}
use helm_operator_plugins.Release.{Release}
use helm_operator_plugins.Prelude.{
  ltb, if◌then◌else◌, length, take, drop, message, panic, Result, ok, err, ℕ, zero, suc, String,
  ◌<>◌, true, false, ◌&&◌, List, [], ◌∷◌, map,
}

pub record Chunk : Type 0 where
  pub name : String
  pub bytes : Bytes

-- The loop of `encodeReleaseAsChunks` over `data[i:]`, whose slices end at the end of the data.
-- The chunk size is positive: with 0 the source's loop never ends.
unfoldable pub cut : ℕ → String → ℕ → Bytes → List Chunk
cut zero key size rest = []
cut (suc fuel) key size [] = []
cut (suc fuel) key size (b ∷ bs) =
    record { name = key <> "-" <> hash_for_data (take size (b ∷ bs)); bytes = take size (b ∷ bs) }
    ∷ cut fuel key size (drop size (b ∷ bs))

-- Fuel for one round for each byte.
unfoldable pub encode_release_as_chunks :
    Codec → ChunkedSecrets → String → Release → Result (List Chunk)
unfolding cut
encode_release_as_chunks codec c key rls = elim (codec.encode (wrap_release rls)) [
  | err e ↦ err e
  | ok bytes ↦
      let chunks = cut (length bytes) key c.config.chunk_size bytes in
      if ltb 0 c.config.max_write_chunks && ltb c.config.max_write_chunks (length chunks)
      then err (message "release too large")
      else ok chunks
]

abbrev pub secret_type_chunked_index : String
secret_type_chunked_index = "operatorframework.io/index.v1"

abbrev pub secret_type_chunked_chunk : String
secret_type_chunked_chunk = "operatorframework.io/chunk.v1"

unfoldable pub index_secret_from_chunks :
    Codec → ChunkedSecrets → String → Release → List Chunk → Result Secret
index_secret_from_chunks codec c key rls [] = err (panic "slice bounds out of range")
index_secret_from_chunks codec c key rls (first ∷ extra) = elim (new_index_labels c.owner key rls) [
  | err e ↦ err e
  | ok index_labels ↦ ok (record {
    type = secret_type_chunked_index;
    name = key;
    uid = "";
    labels = index_labels;
    owner_references = [];
    immutable = false;
    payload =
        ("extraChunks", codec.marshal_names (map (λ (ch : Chunk). ch.name) extra))
        ∷ ("chunk", first.bytes)
        ∷ [];
  })
]

unfoldable pub chunk_secret_from_chunk : ChunkedSecrets → Secret → Chunk → Secret
chunk_secret_from_chunk c index ch = record {
  type = secret_type_chunked_chunk;
  name = ch.name;
  uid = "";
  labels = new_chunk_labels c.owner index.name;
  owner_references =
      record {
        api_version = "v1";
        kind = "Secret";
        name = index.name;
        uid = index.uid;
        controller = true;
        block_owner_deletion = false;
      }
      ∷ [];
  immutable = true;
  payload = ("chunk", ch.bytes) ∷ [];
}
