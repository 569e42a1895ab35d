-- ===== src/Storage/Driver/Data.antt =====
-- A codec, drivers, a release and secrets in memory.
use helm_operator_plugins.Storage.{Bytes, Secret, Codec, ChunkedSecrets}
use helm_operator_plugins.Storage.Api.{all_match}
use helm_operator_plugins.Storage.Memory.{Memory}
use helm_operator_plugins.Storage.Chunks.{
  Chunk, secret_type_chunked_index, secret_type_chunked_chunk,
}
use helm_operator_plugins.Storage.Hash.{hash_for_data}
use helm_operator_plugins.Storage.Driver.Chunking.{names}
use helm_operator_plugins.Storage.Driver.Framing.{listed}
use helm_operator_plugins.Release.{Info, Release}
use helm_operator_plugins.Prelude.{
  if◌then◌else◌, ok, err, String, ◌<>◌, true, false, none, some, List, [], ◌∷◌, ◌==◌,
}

abbrev pub info : Info
info = record { status = "deployed"; notes = "" }

abbrev pub rls : Release
rls = record {
  name = "web";
  version = 1;
  manifest = "m";
  info = some info;
  labels = ("team", "a") ∷ ("owner", "x") ∷ [];
}

-- Three bytes stand for the one release, and `listed` for the names in its index.
abbrev pub codec_for : List String → Codec
codec_for listed = record {
  Reader = Bytes;
  encode = λ w. ok (1 ∷ 2 ∷ 3 ∷ []);
  new_reader = λ st. elim st.failure [ none ↦ ok st.bytes | some e ↦ err e ];
  decode = λ bs. ok (record { release = record rls { labels = [] }; labels = rls.labels });
  marshal_names = λ ns. [];
  unmarshal_names = λ bs. ok listed;
  matches = all_match;
}

abbrev pub driver : ChunkedSecrets
driver = record {
  owner = "op";
  config = record { chunk_size = 2; max_read_chunks = 5; max_write_chunks = 5 };
}

abbrev pub strict : ChunkedSecrets
strict = record {
  owner = "op";
  config = record { chunk_size = 2; max_read_chunks = 5; max_write_chunks = 1 };
}

abbrev pub first : Chunk
first = record { name = "k-" <> hash_for_data (1 ∷ 2 ∷ []); bytes = 1 ∷ 2 ∷ [] }

abbrev pub extra : List Chunk
extra = record { name = "k-" <> hash_for_data (3 ∷ []); bytes = 3 ∷ [] } ∷ []

abbrev pub codec : Codec
codec = codec_for (names extra)

abbrev pub index : Secret
index = record {
  type = secret_type_chunked_index;
  name = "k";
  uid = "u";
  labels = ("owner", "op") ∷ ("key", "k") ∷ ("type", "index") ∷ [];
  owner_references = [];
  immutable = false;
  payload = ("extraChunks", []) ∷ ("chunk", 1 ∷ []) ∷ [];
}

abbrev pub chunk_secret : Secret
chunk_secret = record {
  type = secret_type_chunked_chunk;
  name = "k-2";
  uid = "v";
  labels = ("owner", "op") ∷ ("key", "k") ∷ ("type", "chunk") ∷ [];
  owner_references = [];
  immutable = true;
  payload = ("chunk", 2 ∷ []) ∷ [];
}

abbrev pub stored : Memory
stored = record {
  table = λ n. if "k" == n then some index else if "k-2" == n then some chunk_secret else none;
  created = "k" ∷ "k-2" ∷ [];
}

abbrev pub short : Codec
short = codec_for []

-- A chunk secret of the key that has the name of a new chunk.
abbrev pub old_chunk : Secret
old_chunk = record chunk_secret { name = "k-" <> hash_for_data (3 ∷ []) }

abbrev pub before : Memory
before = record {
  table =
      λ n. if "k" == n then some index else if old_chunk.name == n then some old_chunk else none;
  created = "k" ∷ old_chunk.name ∷ [];
}

-- The chunks of a release under another key.
abbrev pub first_j : Chunk
first_j = record { name = "j-" <> hash_for_data (1 ∷ 2 ∷ []); bytes = 1 ∷ 2 ∷ [] }

abbrev pub extra_j : List Chunk
extra_j = record { name = "j-" <> hash_for_data (3 ∷ []); bytes = 3 ∷ [] } ∷ []
